-- ===== src/Kernel/Tcb.antt =====
-- Operations on threads: kernel/src/syscall/invocation/invoke_tcb.rs, for riscv64; Decode is their
-- decoding. `queue` and `fuel` bound the deletions that they start.
pub mod Bind
pub mod Decode
pub mod Invocation
pub mod Params
mod Tests
use mi_dev_integral_rel.Base.{
  ℕ, zero, suc, ◌+◌, ◌-◌, ◌*◌, Bool, true, false, not, ◌&&◌, Option, none, some, List, [], ◌∷◌,
  update, ltb, ◌==◌, if◌then◌else◌,
}
use mi_dev_integral_rel.Field
use mi_dev_integral_rel.Field.{Field}
use mi_dev_integral_rel.Cmd.{Cmd, Skip, panic, pure, ◌>>=◌, ◌>>◌, convert, get, modify}
use mi_dev_integral_rel.Task.{running}
use mi_dev_integral_rel.Task.Scheduler.{
  set_register, next_ip, set_thread_state, set_priority, suspend, reschedule_required,
}
use mi_dev_integral_rel.Ipc.Notification.{do_bind_notification, safe_unbind_notification}
use mi_dev_integral_rel.Cspace.{Exception, exception_none, Capability, thread}
use mi_dev_integral_rel.Cspace.Cap.{same_object_as}
use mi_dev_integral_rel.Cspace.Cte.{cte_insert}
use mi_dev_integral_rel.Kernel.{Kernel, in_slots, in_ipc}
use mi_dev_integral_rel.Kernel.Message.{
  in_threads, register, msg_register, msg_info_register, badge_register, fault_ip, msg_register_num,
  lookup_mut_ipc_buffer, write_msg, min, tcb_slot, tcb_ctable, tcb_buffer,
}
use mi_dev_integral_rel.Kernel.Thread.{restart_thread, set_mcp_priority}
use mi_dev_integral_rel.Kernel.Untyped.Decode.{get_syscall_arg}
use mi_dev_integral_rel.Kernel.Delete.{cancel_ipc, is_none, tcb_vtable}
use mi_dev_integral_rel.Kernel.Delete.Slots.{delete_all}

abbrev pub frame_reg_num : ℕ
frame_reg_num = 16

abbrev pub gp_reg_num : ℕ
gp_reg_num = 16

-- `frameRegisters[i]` and `gpRegisters[i]`; the loops below stay in the arrays.
abbrev nth : List ℕ → ℕ → ℕ
nth [] i = 0
nth (r ∷ rs) zero = r
nth (r ∷ rs) (suc i) = nth rs i

unfoldable pub frame_register : ℕ → ℕ
frame_register = nth (33 ∷ 0 ∷ 1 ∷ 2 ∷ 7 ∷ 8 ∷ 17 ∷ 18 ∷ 19 ∷ 20 ∷ 21 ∷ 22 ∷ 23 ∷ 24 ∷ 25 ∷ 26 ∷ [])

unfoldable pub gp_register : ℕ → ℕ
gp_register = nth (9 ∷ 10 ∷ 11 ∷ 12 ∷ 13 ∷ 14 ∷ 15 ∷ 16 ∷ 4 ∷ 5 ∷ 6 ∷ 27 ∷ 28 ∷ 29 ∷ 30 ∷ 3 ∷ [])

abbrev pub tls_base : ℕ
tls_base = 3

-- The loops over `n` registers from `i` on: from registers of one thread to registers of another, to
-- the words of a buffer, and from the arguments of the system call.
unfoldable pub move_registers : (ℕ → ℕ) → (ℕ → ℕ) → ℕ → ℕ → ℕ → ℕ → Cmd Kernel Skip
move_registers to from zero i dest src = pure tt
move_registers to from (suc n) i dest src = do
  k ← get
  in_threads (set_register dest (to i) (register k src (from i)))
  move_registers to from n (suc i) dest src

unfoldable pub write_registers : (ℕ → ℕ) → ℕ → ℕ → ℕ → ℕ → ℕ → Cmd Kernel Skip
write_registers from offset zero i p src = pure tt
write_registers from offset (suc n) i p src = do
  k ← get
  write_msg p (i + offset) (register k src (from i))
  write_registers from offset n (suc i) p src

unfoldable pub load_registers : (ℕ → ℕ) → ℕ → ℕ → ℕ → ℕ → (ℕ → ℕ) → Cmd Kernel Skip
unfolding get_syscall_arg
load_registers to offset zero i dest buffer = pure tt
load_registers to offset (suc n) i dest buffer = do
  k ← get
  in_threads (set_register dest (to i) (get_syscall_arg k buffer (i + offset)))
  load_registers to offset n (suc i) dest buffer

-- What does not fit the message registers, if the thread has a buffer; the number of registers of the
-- kind that were sent in all.
rest_to_buffer : (ℕ → ℕ) → ℕ → ℕ → ℕ → ℕ → Option ℕ → Cmd Kernel ℕ
unfolding write_registers
rest_to_buffer from offset i last src none = pure i
rest_to_buffer from offset i last src (some p) = do
  write_registers from offset (last - i) i p src
  pure (if ltb i last then last else i)

-- `call` of `invoke_tcb_read_registers`: the reply to the current thread.
unfoldable pub reply_registers : ℕ → ℕ → ℕ → Cmd Kernel Skip
unfolding frame_register gp_register move_registers rest_to_buffer lookup_mut_ipc_buffer
reply_registers self src n = do
  op_ipc_buffer ← lookup_mut_ipc_buffer self true
  in_threads (set_register self badge_register 0)
  let i = min n (min frame_reg_num msg_register_num)
  move_registers msg_register frame_register i 0 self src
  j ← rest_to_buffer frame_register 0 i (min n frame_reg_num) src op_ipc_buffer
  let i1 = min gp_reg_num (min (n - frame_reg_num) (msg_register_num - frame_reg_num))
  move_registers (λ i'. msg_register (i' + frame_reg_num)) gp_register i1 0 self src
  i2 ←
      rest_to_buffer gp_register frame_reg_num i1 (min gp_reg_num (n - frame_reg_num)) src
        op_ipc_buffer
  in_threads (set_register self msg_info_register (i2 + j))

unfoldable pub invoke_tcb_read_registers : ℕ → ℕ → ℕ → ℕ → Bool → Cmd Kernel Exception
unfolding cancel_ipc suspend reply_registers set_thread_state
invoke_tcb_read_registers queue src suspend_source n call = do
  k ← get
  let self = k.ipc.tasks.cur_thread
  (if not (suspend_source == 0)
      then (do cancel_ipc queue src; in_threads (suspend src))
      else pure tt)
  (if call then reply_registers self src n else pure tt)
  in_threads (set_thread_state self running)
  pure exception_none

-- `if thread.is_current() { rescheduleRequired() }`
unfoldable pub reschedule_if_current : ℕ → Cmd Kernel Skip
unfolding reschedule_required
reschedule_if_current t = do
  k ← get
  if k.ipc.tasks.cur_thread == t then in_threads reschedule_required else pure tt

unfoldable pub invoke_tcb_resume : ℕ → ℕ → Cmd Kernel Exception
unfolding cancel_ipc restart_thread
invoke_tcb_resume queue t = do cancel_ipc queue t; restart_thread t; pure exception_none

unfoldable pub invoke_tcb_suspend : ℕ → ℕ → Cmd Kernel Exception
unfolding cancel_ipc suspend
invoke_tcb_suspend queue t = do cancel_ipc queue t; in_threads (suspend t); pure exception_none

unfoldable pub invoke_tcb_write_registers : ℕ → ℕ → ℕ → ℕ → (ℕ → ℕ) → Cmd Kernel Exception
unfolding frame_register gp_register load_registers cancel_ipc restart_thread reschedule_if_current
invoke_tcb_write_registers queue dest resume_target n buffer = do
  let m = min n (frame_reg_num + gp_reg_num)
  load_registers frame_register 2 (min frame_reg_num m) 0 dest buffer
  load_registers gp_register (frame_reg_num + 2) (min gp_reg_num (m - frame_reg_num)) 0 dest buffer
  k ← get
  in_threads (set_register dest next_ip (register k dest fault_ip))
  (if not (resume_target == 0) then (do cancel_ipc queue dest; restart_thread dest) else pure tt)
  reschedule_if_current dest
  pure exception_none

unfoldable pub invoke_tcb_copy_registers : ℕ → ℕ → ℕ → ℕ → ℕ → ℕ → Cmd Kernel Exception
unfolding gp_register move_registers cancel_ipc suspend restart_thread reschedule_if_current
invoke_tcb_copy_registers queue dest src suspend_source resume_target transfer_frame = do
  (if not (suspend_source == 0)
      then (do cancel_ipc queue src; in_threads (suspend src))
      else pure tt)
  (if not (resume_target == 0) then (do cancel_ipc queue dest; restart_thread dest) else pure tt)
  (if not (transfer_frame == 0)
      then move_registers gp_register gp_register gp_reg_num 0 dest src
      else pure tt)
  reschedule_if_current dest
  pure exception_none

unfoldable pub invoke_tcb_set_mcp : ℕ → ℕ → Cmd Kernel Exception
unfolding set_mcp_priority
invoke_tcb_set_mcp target mcp = do set_mcp_priority target mcp; pure exception_none

unfoldable pub invoke_tcb_set_priority : ℕ → ℕ → Cmd Kernel Exception
unfolding set_priority
invoke_tcb_set_priority target prio = do in_threads (set_priority target prio); pure exception_none

-- A new root of a thread, if its source and the selfs own capability are what they were before the
-- deletion.
unfoldable pub insert_root : ℕ → ℕ → Capability → ℕ → ℕ → Cmd Kernel Skip
unfolding same_object_as cte_insert
insert_root target slot new_cap src_slot root_slot = do
  k ← get
  if same_object_as new_cap (k.slots.cap src_slot)
        && same_object_as (thread target) (k.slots.cap slot)
      then in_slots (cte_insert new_cap src_slot root_slot)
      else pure tt

unfoldable pub invoke_tcb_set_space :
    ℕ → ℕ → ℕ → ℕ → ℕ → Capability → ℕ → Capability → ℕ → Cmd Kernel Exception
unfolding tcb_slot delete_all insert_root
invoke_tcb_set_space fuel queue target slot fault_ep croot_new_cap croot_src_slot vroot_new_cap
      vroot_src_slot =
    do
      modify λ k. record k {
        messages = record k.messages {
          tcb_fault_handler = update k.messages.tcb_fault_handler target fault_ep;
        };
      }
      let root_slot = tcb_slot target tcb_ctable
      status ← delete_all fuel queue true root_slot
      if not (is_none status) then pure status else (do
        insert_root target slot croot_new_cap croot_src_slot root_slot
        let root_vslot = tcb_slot target tcb_vtable
        status' ← delete_all fuel queue true root_vslot
        if not (is_none status') then pure status' else (do
          insert_root target slot vroot_new_cap vroot_src_slot root_vslot
          pure exception_none))

-- The new buffer's capability, if there is a slot that it comes from.
insert_buffer : ℕ → ℕ → Capability → Option ℕ → Cmd Kernel Skip
unfolding tcb_slot insert_root
insert_buffer target slot buffer_cap none = pure tt
insert_buffer target slot buffer_cap (some src_slot) =
    insert_root target slot buffer_cap src_slot (tcb_slot target tcb_buffer)

unfoldable pub invoke_tcb_set_ipc_buffer :
    ℕ → ℕ → ℕ → ℕ → ℕ → Capability → Option ℕ → Cmd Kernel Exception
unfolding tcb_slot delete_all insert_buffer reschedule_if_current
invoke_tcb_set_ipc_buffer fuel queue target slot buffer_addr buffer_cap buffer_src_slot = do
  status ← delete_all fuel queue true (tcb_slot target tcb_buffer)
  if not (is_none status) then pure status else (do
    modify λ k. record k {
      messages = record k.messages {
        tcb_ipc_buffer = update k.messages.tcb_ipc_buffer target buffer_addr;
      };
    }
    insert_buffer target slot buffer_cap buffer_src_slot
    reschedule_if_current target
    pure exception_none)

unfoldable pub invoke_tcb_bind_notification : ℕ → ℕ → Cmd Kernel Exception
unfolding do_bind_notification
invoke_tcb_bind_notification tcb ntfn = do
  in_ipc (do_bind_notification tcb ntfn)
  pure exception_none

unfoldable pub invoke_tcb_unbind_notification : ℕ → Cmd Kernel Exception
unfolding safe_unbind_notification
invoke_tcb_unbind_notification tcb = do in_ipc (safe_unbind_notification tcb); pure exception_none

unfoldable pub invoke_tcb_set_tls_base : ℕ → ℕ → Cmd Kernel Exception
unfolding reschedule_if_current
invoke_tcb_set_tls_base t base = do
  in_threads (set_register t tls_base base)
  reschedule_if_current t
  pure exception_none
