-- ===== src/Kernel/Message.antt =====
-- Messages of threads: sel4_task/src/tcb.rs, for riscv64. A `&mut tcb_t` is the address of its thread,
-- and an IPC buffer the address of its `seL4_IPCBuffer`.
pub mod Transfer
pub mod Words
pub mod Copy
pub mod Reply
use mi_dev_integral_rel.Base.{
  ℕ, zero, suc, ◌+◌, ◌-◌, ◌*◌, ◌/◌, ◌%◌, ◌^◌, Bool, true, false, not, ◌&&◌, ◌||◌, Option, none,
  some, ltb, leb, ◌==◌, update, if◌then◌else◌,
}
use mi_dev_integral_rel.Cmd.{Cmd, Skip, panic, pure, ◌>>=◌, ◌>>◌, assert, convert, get, modify}
use mi_dev_integral_rel.Task.{Tasks, blocked_on_reply}
use mi_dev_integral_rel.Task.Scheduler.{set_register, set_thread_state}
use mi_dev_integral_rel.Ipc.{in_tasks}
use mi_dev_integral_rel.Cspace.{Exception, exception_none, Capability, reply, frame, get_cap_type}
use mi_dev_integral_rel.Cspace.Cap.{mask, wrapping_add, page_bits_for_size}
use mi_dev_integral_rel.Cspace.Cte.{cte_insert}
use mi_dev_integral_rel.Cspace.Lookup.{
  LookupFault, no_fault, root_invalid, missing_capability, depth_mismatch, guard_mismatch,
}
use mi_dev_integral_rel.Cspace.Resolve.{
  ResolveRet, Resolved, returned, panicked, out_of_fuel, resolve_address_bits,
}
use mi_dev_integral_rel.Kernel.{Kernel, Buffer, in_slots, in_ipc}

abbrev pub in_threads : {A : Type 0} → Cmd Tasks A → Cmd Kernel A
in_threads m = in_ipc (in_tasks m)

abbrev pub register : Kernel → ℕ → ℕ → ℕ
register k t r = k.ipc.tasks.registers t r

-- ArchReg::Msg, MsgInfo, Badge and FaultIP; msgRegisterNum and seL4_MsgMaxLength
abbrev pub msg_register : ℕ → ℕ
msg_register i = 11 + i

abbrev pub msg_info_register : ℕ
msg_info_register = 10

abbrev pub badge_register : ℕ
badge_register = 9

abbrev pub fault_ip : ℕ
fault_ip = 33

abbrev pub msg_register_num : ℕ
msg_register_num = 4

abbrev pub msg_max_length : ℕ
msg_max_length = 120

-- `get_cspace(i)`: the slots stand at the start of the thread's block.
unfoldable pub tcb_slot : ℕ → ℕ → ℕ
tcb_slot t i = t - t % 2 ^ 10 + 32 * i

abbrev pub tcb_ctable : ℕ
tcb_ctable = 0

abbrev pub tcb_reply : ℕ
tcb_reply = 2

abbrev pub tcb_caller : ℕ
tcb_caller = 3

abbrev pub tcb_buffer : ℕ
tcb_buffer = 4

-- The buffer in a frame at `base_ptr`; `none` of the page's bits is the panic of `pageBitsForSize`.
unfoldable pub buffer_at : ℕ → ℕ → Option ℕ → Cmd Kernel (Option ℕ)
buffer_at base_ptr w_buffer_ptr none = λ k. panic
buffer_at base_ptr w_buffer_ptr (some page_bits) = do
  let p = wrapping_add base_ptr (w_buffer_ptr % 2 ^ page_bits)
  convert p
  pure (some p)

-- What `lookup_ipc_buffer` and `lookup_mut_ipc_buffer` do with the capability of the buffer; only the
-- first looks at the device flag.
unfoldable pub buffer_of : Bool → ℕ → Bool → Capability → Cmd Kernel (Option ℕ)
unfolding buffer_at
buffer_of no_device w_buffer_ptr is_receiver (frame _ base_ptr size vm_rights is_device _) =
    if no_device && not (is_device == 0)
    then pure none
    else if (vm_rights == 3) || (not is_receiver && (vm_rights == 2))
    then buffer_at base_ptr w_buffer_ptr (page_bits_for_size size)
    else pure none
buffer_of no_device w_buffer_ptr is_receiver other = pure none

unfoldable pub lookup_ipc_buffer : ℕ → Bool → Cmd Kernel (Option ℕ)
unfolding buffer_of tcb_slot
lookup_ipc_buffer t is_receiver = do
  k ← get
  buffer_of true (k.messages.tcb_ipc_buffer t) is_receiver (k.slots.cap (tcb_slot t tcb_buffer))

unfoldable pub lookup_mut_ipc_buffer : ℕ → Bool → Cmd Kernel (Option ℕ)
unfolding buffer_of tcb_slot
lookup_mut_ipc_buffer t is_receiver = do
  k ← get
  buffer_of false (k.messages.tcb_ipc_buffer t) is_receiver (k.slots.cap (tcb_slot t tcb_buffer))

-- `msg[i] = w` and `caps_or_badges[i] = w` of a buffer.
abbrev pub write_msg : ℕ → ℕ → ℕ → Cmd Kernel Skip
write_msg p i w = modify λ k. record k {
  messages = record k.messages {
    buffer =
        update k.messages.buffer p
          (record (k.messages.buffer p) { msg = update (k.messages.buffer p).msg i w });
  };
}

abbrev pub write_badge : ℕ → ℕ → ℕ → Cmd Kernel Skip
write_badge p i w = modify λ k. record k {
  messages = record k.messages {
    buffer = update k.messages.buffer p (record (k.messages.buffer p) {
      caps_or_badges = update (k.messages.buffer p).caps_or_badges i w;
    });
  };
}

abbrev in_buffer : ℕ → ℕ → Option ℕ → Cmd Kernel ℕ
in_buffer offset reg none = pure msg_register_num
in_buffer offset reg (some p) = do
  assert (ltb offset msg_max_length)
  write_msg p offset reg
  pure (offset + 1)

unfoldable pub set_mr : ℕ → ℕ → ℕ → Cmd Kernel ℕ
unfolding lookup_mut_ipc_buffer
set_mr t offset reg =
    if leb msg_register_num offset
    then (do r ← lookup_mut_ipc_buffer t true; in_buffer offset reg r)
    else (do in_threads (set_register t (msg_register offset) reg); pure (offset + 1))

-- The two loops of `copy_mrs`: over `n` message registers from `i` on, and over the words of the
-- buffers, which the source reads and writes by raw pointers.
unfoldable pub copy_registers : ℕ → ℕ → ℕ → ℕ → Cmd Kernel Skip
copy_registers zero i sender receiver = pure tt
copy_registers (suc n) i sender receiver = do
  k ← get
  in_threads (set_register receiver (msg_register i) (register k sender (msg_register i)))
  copy_registers n (suc i) sender receiver

-- The 128 words of a buffer by their index: `tag`, `msg`, `userData`, `caps_or_badges` and the three of
-- the receiving slot. A length has 7 bits, so no index is above 127.
unfoldable pub word_of : Buffer → ℕ → ℕ
word_of b n =
    if n == 0
    then b.tag
    else if leb n msg_max_length
    then b.msg (n - 1)
    else if n == 121
    then b.user_data
    else if leb n 124
    then b.caps_or_badges (n - 122)
    else if n == 125
    then b.receive_cnode
    else if n == 126
    then b.receive_index
    else b.receive_depth

unfoldable pub set_word : Buffer → ℕ → ℕ → Buffer
set_word b n w =
    if n == 0
    then record b { tag = w }
    else if leb n msg_max_length
    then record b { msg = update b.msg (n - 1) w }
    else if n == 121
    then record b { user_data = w }
    else if leb n 124
    then record b { caps_or_badges = update b.caps_or_badges (n - 122) w }
    else if n == 125
    then record b { receive_cnode = w }
    else if n == 126
    then record b { receive_index = w }
    else record b { receive_depth = w }

unfoldable pub copy_words : ℕ → ℕ → ℕ → ℕ → Cmd Kernel Skip
unfolding word_of set_word
copy_words zero i send_buffer recv_buffer = pure tt
copy_words (suc n) i send_buffer recv_buffer = do
  k ← get
  let w = word_of (k.messages.buffer send_buffer) (i + 1)
  modify λ k. record k {
    messages = record k.messages {
      buffer =
          update k.messages.buffer recv_buffer (set_word (k.messages.buffer recv_buffer) (i + 1) w);
    };
  }
  copy_words n (suc i) send_buffer recv_buffer

abbrev pub min : ℕ → ℕ → ℕ
min a b = if ltb a b then a else b

-- The words behind the registers, if both threads have a buffer: how many are copied in all.
unfoldable pub copy_rest : ℕ → ℕ → Option ℕ → Option ℕ → Cmd Kernel ℕ
unfolding copy_words
copy_rest i length (some send_buffer) (some recv_buffer) = do
  copy_words (length - i) i send_buffer recv_buffer
  pure (if ltb i length then length else i)
copy_rest i length _ _ = pure i

unfoldable pub copy_mrs : ℕ → ℕ → ℕ → Cmd Kernel ℕ
unfolding copy_registers copy_rest lookup_ipc_buffer lookup_mut_ipc_buffer
copy_mrs sender receiver length = do
  let i = min length msg_register_num
  copy_registers i 0 sender receiver
  send_buffer ← lookup_ipc_buffer sender false
  recv_buffer ← lookup_mut_ipc_buffer receiver true
  copy_rest i length send_buffer recv_buffer

-- The caller's reply capability, behind the sender's master in the derivation list.
unfoldable pub is_reply_master : ℕ → Capability → Bool
is_reply_master sender (reply can_grant master tcb_ptr) =
    (master == 1) && (can_grant == 1) && (tcb_ptr == sender)
is_reply_master sender other = false

unfoldable pub setup_caller_cap : ℕ → ℕ → Bool → Cmd Kernel Skip
unfolding is_reply_master tcb_slot cte_insert
setup_caller_cap self sender can_grant = do
  in_threads (set_thread_state sender blocked_on_reply)
  k ← get
  assert (is_reply_master sender (k.slots.cap (tcb_slot sender tcb_reply)))
  assert (get_cap_type (k.slots.cap (tcb_slot self tcb_caller)) == 0)
  in_slots (
      cte_insert (reply (if can_grant then 1 else 0) 0 sender) (tcb_slot sender tcb_reply)
        (tcb_slot self tcb_caller))

-- `lookup_slot` of a thread's capability pointer; a failed assertion of the lookup is a panic.
unfoldable pub resolving : Resolved → Cmd Kernel ResolveRet
resolving (returned r) = pure r
resolving panicked = λ k. panic
resolving out_of_fuel = λ k. panic

unfoldable pub lookup_slot : ℕ → ℕ → Cmd Kernel ResolveRet
unfolding resolving tcb_slot
lookup_slot t cap_ptr = do
  k ← get
  resolving (resolve_address_bits k.slots (k.slots.cap (tcb_slot t tcb_ctable)) cap_ptr 64)
