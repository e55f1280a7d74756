-- ===== src/Kernel/Untyped/Reset.antt =====
-- `reset_untyped_cap` of kernel/src/syscall/invocation/invoke_untyped.rs, and `clear_memory` of
-- kernel/src/utils.rs, for riscv64.
use mi_dev_integral_rel.Base.{
  ℕ, zero, suc, ◌+◌, ◌*◌, ◌/◌, ◌^◌, Bool, not, ◌&&◌, leb, ltb, ◌==◌, if◌then◌else◌,
}
use mi_dev_integral_rel.Cmd.{Cmd, Skip, panic, pure, ◌>>=◌, ◌>>◌, get, modify}
use mi_dev_integral_rel.Cspace.{Exception, exception_none, Capability, null, CSpace}
use mi_dev_integral_rel.Cspace.Cap.{wrapping_add}
use mi_dev_integral_rel.Cspace.Words.{to_words, frame_is_device}
use mi_dev_integral_rel.Field
use mi_dev_integral_rel.Task.{Tasks, inactive}
use mi_dev_integral_rel.Ipc.{Ipc, ep_idle, ntfn_idle}
use mi_dev_integral_rel.Cspace.Lookup.{no_fault}
use mi_dev_integral_rel.Vspace.{Vspace}
use mi_dev_integral_rel.Kernel.{Kernel, Messages, null_fault}
use mi_dev_integral_rel.Kernel.Untyped.{
  wrapping_sub, bit_of, free_index_to_offset, get_untyped_free_index, get_untyped_block_size,
  get_untyped_ptr, set_untyped_free_index,
}

-- Whether an address is in the `2 ^ bits` bytes at `ptr`.
abbrev pub within : ℕ → ℕ → ℕ → Bool
within ptr bits p = leb ptr p && ltb p (ptr + 2 ^ bits)

-- The field `f` of the objects that stand there, filled with `z`.
abbrev pub cleared {ℓ} : {A : Type ℓ} → ℕ → ℕ → A → (ℕ → A) → ℕ → A
cleared ptr bits z f p = if within ptr bits p then z else f p

-- Zero bytes, by field: the fields of every object whose address is among them are null. The zero
-- of each enumeration is its first case.
unfoldable pub clear_tasks : ℕ → ℕ → Tasks → Tasks
clear_tasks ptr bits k = record k {
  registers = cleared ptr bits (λ _. 0) k.registers;
  ts_type = cleared ptr bits inactive k.ts_type;
  blocking_object = cleared ptr bits 0 k.blocking_object;
  blocking_ipc_badge = cleared ptr bits 0 k.blocking_ipc_badge;
  blocking_ipc_can_grant = cleared ptr bits 0 k.blocking_ipc_can_grant;
  blocking_ipc_can_grant_reply = cleared ptr bits 0 k.blocking_ipc_can_grant_reply;
  blocking_ipc_is_call = cleared ptr bits 0 k.blocking_ipc_is_call;
  tcb_queued = cleared ptr bits 0 k.tcb_queued;
  bound_notification = cleared ptr bits 0 k.bound_notification;
  domain = cleared ptr bits 0 k.domain;
  mcp = cleared ptr bits 0 k.mcp;
  priority = cleared ptr bits 0 k.priority;
  time_slice = cleared ptr bits 0 k.time_slice;
  sched_next = cleared ptr bits 0 k.sched_next;
  sched_prev = cleared ptr bits 0 k.sched_prev;
  ep_next = cleared ptr bits 0 k.ep_next;
  ep_prev = cleared ptr bits 0 k.ep_prev;
}

unfoldable pub clear_slots : ℕ → ℕ → CSpace → CSpace
clear_slots ptr bits c = record c {
  cap = cleared ptr bits null c.cap;
  mdb_next = cleared ptr bits 0 c.mdb_next;
  mdb_prev = cleared ptr bits 0 c.mdb_prev;
  mdb_revocable = cleared ptr bits 0 c.mdb_revocable;
  mdb_first_badged = cleared ptr bits 0 c.mdb_first_badged;
}

unfoldable pub clear_ipc : ℕ → ℕ → Ipc → Ipc
unfolding clear_tasks
clear_ipc ptr bits s = record s {
  tasks = clear_tasks ptr bits s.tasks;
  ep_state = cleared ptr bits ep_idle s.ep_state;
  ep_queue = cleared ptr bits (record { head = 0; tail = 0 }) s.ep_queue;
  ntfn_state = cleared ptr bits ntfn_idle s.ntfn_state;
  ntfn_queue = cleared ptr bits (record { head = 0; tail = 0 }) s.ntfn_queue;
  msg_identifier = cleared ptr bits 0 s.msg_identifier;
  bound_tcb = cleared ptr bits 0 s.bound_tcb;
}

unfoldable pub clear_messages : ℕ → ℕ → Messages → Messages
clear_messages ptr bits m = record m {
  tcb_ipc_buffer = cleared ptr bits 0 m.tcb_ipc_buffer;
  tcb_fault = cleared ptr bits null_fault m.tcb_fault;
  tcb_lookup_failure = cleared ptr bits no_fault m.tcb_lookup_failure;
  tcb_fault_handler = cleared ptr bits 0 m.tcb_fault_handler;
  buffer =
      cleared ptr bits
        (record {
          tag = 0;
          msg = λ i. 0;
          user_data = 0;
          caps_or_badges = λ i. 0;
          receive_cnode = 0;
          receive_index = 0;
          receive_depth = 0;
        })
        m.buffer;
}

-- Page table entries, and the entries of the pools of address space identifiers.
unfoldable pub clear_vspace : ℕ → ℕ → Vspace → Vspace
clear_vspace ptr bits v = record v {
  pte = cleared ptr bits 0 v.pte;
  asid_pool = λ p i. if within ptr bits (p + 8 * i) then 0 else v.asid_pool p i;
}

unfoldable pub clear_memory : ℕ → ℕ → Cmd Kernel Skip
unfolding clear_slots clear_ipc clear_messages clear_vspace
clear_memory ptr bits = modify λ k. record k {
  ipc = clear_ipc ptr bits k.ipc;
  slots = clear_slots ptr bits k.slots;
  messages = clear_messages ptr bits k.messages;
  vspace = clear_vspace ptr bits k.vspace;
}

-- CONFIG_RESET_CHUNK_BITS
abbrev pub chunk : ℕ
chunk = 8

-- The loop of `reset_untyped_cap` over the chunks, from `offset` downwards; an `isize` is its 64 bits,
-- so the loop ends at `- BIT!(chunk)` wrapped. It panics when its fuel, the most chunks that it clears,
-- runs out.
unfoldable pub clear_chunks : ℕ → ℕ → ℕ → Cmd Kernel ℕ
unfolding clear_memory
clear_chunks zero region_base offset =
    λ k. if offset == wrapping_sub 0 (bit_of chunk) then pure offset k else panic
clear_chunks (suc fuel) region_base offset =
    if offset == wrapping_sub 0 (bit_of chunk) then pure offset else (do
      clear_memory (wrapping_add region_base offset) chunk
      clear_chunks fuel region_base (wrapping_sub offset (bit_of chunk)))

-- `get_frame_is_device`, of whatever capability: the bits where a frame's flag would be.
unfoldable pub get_frame_is_device : Capability → ℕ
get_frame_is_device c = Field.get frame_is_device (to_words c)

unfoldable pub reset_untyped_cap : ℕ → Cmd Kernel Exception
unfolding clear_memory clear_chunks get_frame_is_device
reset_untyped_cap src_slot = do
  k ← get
  let prev_cap = k.slots.cap src_slot
  let block_size = get_untyped_block_size prev_cap
  let region_base = get_untyped_ptr prev_cap
  let offset = free_index_to_offset (get_untyped_free_index prev_cap)
  let device_mem = get_frame_is_device prev_cap
  if offset == 0
      then pure exception_none
      else if not (device_mem == 0) && ltb block_size chunk
      then (do
        (if not (device_mem == 0) then clear_memory region_base block_size else pure tt)
        set_untyped_free_index src_slot 0
        pure exception_none)
      else (do
        let first = wrapping_sub offset 1 / 2 ^ chunk * 2 ^ chunk
        last ← clear_chunks (first / 2 ^ chunk + 1) region_base first
        set_untyped_free_index src_slot (last / 2 ^ 4)
        pure exception_none)
