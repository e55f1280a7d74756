-- ===== src/Lib.antt =====
-- A verification library of the kernel: its threads, scheduler, capability slots and the lookup of
-- slots, as the code is built for riscv64 and one core (without the feature ENABLE_SMP).
--
-- The program's parts. sel4_common holds configuration and helpers; sel4_task the thread control
-- blocks, the queues of threads and the scheduler; sel4_cspace capabilities, the slots that hold
-- them and the list that derives one from another; sel4_ipc endpoints and notifications, which queue
-- threads; sel4_vspace page tables; kernel the system calls, which decode a message and call the
-- others. sel4_cspace calls the kernel back when a capability is deleted.
--
-- Files.
--   Base.antt           shared names, Boolean tests on numbers, lists of addresses, point updates.
--   Bits.antt           bits of a 64-bit word: the macro BIT!, masks, `leading_zeros`.
--   Bits/Shift.antt     shifts and masks as division and remainder; Digits.antt the digits of a number,
--                       Bits/Add.antt the flags below a page number.
--   Field.antt          the bit fields of plus_define_bitfield, sel4_common/src/utils.rs; Field/Layout.antt
--                       a structure as the list of its fields.
--   Cmd.antt            commands over a memory: a run returns a result and a memory or panics
--                       (`assert!`, `panic!`, an array index out of bounds); Cmd/Returns.antt is
--                       total correctness: a run that panics satisfies nothing.
--   Links.antt          doubly linked lists of addresses in a store, below it how they change.
--   Task.antt           the memory of sel4_task: `tcb_t` by field, and the scheduler's globals.
--   Task/EpQueue.antt   sel4_task/src/tcb_queue.rs: ep_append, ep_dequeue, empty.
--   Task/Bitmap.antt    sel4_task/src/scheduler.rs: the bitmap of ready priorities.
--   Task/ReadyQueue.antt  sel4_task/src/tcb.rs: sched_enqueue, sched_append, sched_dequeue;
--                       ReadyQueue/Ready.antt is the invariant of queues and bitmap.
--   Task/Scheduler.antt sel4_task/src/scheduler.rs and tcb.rs: the choice of the next thread, the
--                       timer, priorities, domains and thread states; Scheduler/Serve.antt and
--                       Scheduler/Decide.antt the thread that schedule ends with. The switch of the
--                       address space in switch_to_this is left out.
--   Task/Refine.antt    runs of queue operations and choices against lists of threads by priority.
--   Cspace.antt         capabilities of sel4_cspace/src/arch/riscv64/mod.rs, and the slots' memory.
--   Cspace/Cap.antt     sel4_cspace/src/cap/mod.rs and zombie.rs: functions on capabilities.
--   Cspace/Words.antt   the two words of a capability.
--   Cspace/Cte.antt     sel4_cspace/src/cte.rs: operations on slots and the derivation list.
--   Cspace/Mdb.antt     the derivation list as a list of slots, and what the operations do to it.
--   Cspace/Resolve.antt sel4_cspace/src/cte.rs: resolve_address_bits.
--   Cspace/Derive.antt  sel4_cspace/src/cte.rs: derive_cap, and arch_derive_cap of riscv64.
--   Cspace/Lookup.antt  kernel/src/syscall/utils.rs: lookup_slot_for_cnode_op.
--   Cspace/Rights.antt  kernel/src/syscall/utils.rs: mask_cap_rights, and what it calls.
--   Ipc.antt            the memory of endpoints and notifications beside that of the threads;
--                       Ipc/Endpoint.antt and Ipc/Notification.antt are the operations of
--                       sel4_ipc/src/endpoint.rs and notification.rs that need no slots.
--   Kernel.antt         the whole memory: threads, slots, IPC buffers and the globals of a system call.
--   Kernel/Objects.antt sel4_common/src/object.rs: the types of objects and their sizes.
--   Kernel/Untyped.antt kernel/src/syscall/invocation/invoke_untyped.rs: creating objects; below it
--                       resetting, the decoding of decode_untyped_invocation.rs, and what they do.
--   Kernel/Message.antt sel4_task/src/tcb.rs: message registers, IPC buffers and reply capabilities;
--                       Message/Transfer.antt is sel4_ipc/src/transfer.rs, Message/Reply.antt the reply
--                       to a fault, Message/Words.antt and Message/Copy.antt the copy of a message.
--   Kernel/Exchange.antt  sel4_ipc/src/endpoint.rs: send_ipc and receive_ipc, Exchange/Waiting.antt
--                       the threads that block on an endpoint.
--   Kernel/Cnode.antt   kernel/src/syscall/invocation/invoke_cnode.rs; Cnode/Decode.antt and
--                       Cnode/Invocation.antt are decode_cnode_invocation.rs, Cnode/Reject.antt its
--                       errors.
--   Kernel/Thread.antt  sel4_task/src/tcb.rs: setup_reply_master, restart and set_mcp_priority.
--   Vspace.antt         sel4_vspace/src/arch/riscv64: identifiers of address spaces (asid.rs), satp and
--                       set_vm_root; Vspace/PageTable.antt is pte.rs, with unmapPage and
--                       unmap_page_table; PageTable/Map.antt and PageTable/Unmap.antt its entries
--                       as they are written and found, and cleared.
--   Kernel/Delete.antt  kernel/src/interfaces_impl/cspace.rs: finaliseCap and what it calls;
--                       Delete/Slots.antt is sel4_cspace/src/cte.rs: finalise, delete_all,
--                       reduce_zombie and revoke; Delete/Copies.antt and Delete/Remainder.antt what
--                       they do.
--   Kernel/Reply.antt   sel4_ipc/src/transfer.rs: do_reply.
--   Kernel/Tcb.antt     kernel/src/syscall/invocation/invoke_tcb.rs; Tcb/Decode.antt and
--                       Tcb/Invocation.antt are decode_tcb_invocation.rs, Tcb/Params.antt and
--                       Tcb/Bind.antt what it refuses.
--   Kernel/Interrupt.antt  kernel/src/interrupt; Interrupt/Invocation.antt is invoke_irq.rs and
--                       decode_irq_invocation.rs, Interrupt/Grant.antt what it refuses.
--   Kernel/Mmu.antt     kernel/src/syscall/invocation/invoke_mmu_op.rs; Mmu/Decode.antt and
--                       Mmu/Spaces.antt are decode/arch/riscv64.rs.
--   Kernel/Syscall.antt kernel/src/syscall/mod.rs: the system calls; Syscall/Invocation.antt is
--                       invocation/mod.rs and decode/mod.rs, Syscall/Fault.antt the faults,
--                       Syscall/Stops.antt and Syscall/Yield.antt what they do.
--   The modules Tests hold the theorems at concrete memories.
--
-- How code and model correspond. A function keeps its name in snake case (getHighestPrio is
-- get_highest_prio). A reference to a structure is its address, and memory is a record of functions
-- from addresses, one for each field, so that aliasing is equality of addresses. A bit field is
-- a number: how fields lie in words is modelled in Field and Cspace/Words, apart from the operations,
-- and where an operation masks a number the mask is written out. Arithmetic that wraps is written
-- modulo 2 ^ 64. Memory that is cleared becomes null by object: an object counts as cleared with the
-- chunk that holds its address. IPC buffers are apart when their addresses differ.
-- Loops: resolve_address_bits runs on fuel of one more than the number of bits, which is enough since
-- every level takes a bit; the loops over a whole queue of sel4_ipc take their fuel, the most threads
-- they visit, as an argument, and panic without it.
-- The loop of reset_untyped_cap has a step for every chunk of 256 bytes, and those of the transfer one
-- for every word or capability.
--
-- The second fuel, `queue`, of deletion and of what deletes bounds the same loops; the first, `fuel`,
-- bounds the recursion of `finalise` and the loop of `revoke`. Each panics when it runs out, which no
-- run of the code does, so that a theorem on a run that does not panic has enough of it.
-- The register sip is read as a sequence that is given; fences and the masks of interrupts have no
-- effect on the modelled memory. A label is the number that the build gives it (Kernel/Labels.antt).
-- The error of a system call is its type with the numbers that are written with it.
--
-- Not modelled: the call of set_vm_root in switch_to_this, which sets satp or stops the kernel when the
-- thread's page table has no base; several cores, aarch64, the mapping of the kernel's own address space, the timer and
-- the masks of the hart, the calls for debugging, the fast path, boot, and drivers.
pub mod Base
pub mod Bits
pub mod Cmd
pub mod Cspace
pub mod Digits
pub mod Field
pub mod Ipc
pub mod Kernel
pub mod Links
pub mod Task
pub mod Vspace
