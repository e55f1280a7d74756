-- ===== src/Kernel/Tcb/Decode.antt =====
-- Decoding the operations on threads: kernel/src/syscall/invocation/decode/decode_tcb_invocation.rs,
-- with check_prio, check_ipc_buffer_vaild and is_valid_vtable_root of kernel/src/syscall/utils.rs, for
-- riscv64 without ENABLE_SMP.
use mi_dev_integral_rel.Base.{
  ℕ, ◌+◌, ◌-◌, ◌%◌, ◌/◌, ◌^◌, Bool, true, false, not, ◌||◌, Option, none, some, ltb, ◌==◌,
  if◌then◌else◌,
}
use mi_dev_integral_rel.Cmd.{Cmd, Skip, panic, pure, ◌>>=◌, ◌>>◌, assert, convert, get}
use mi_dev_integral_rel.Cspace.{
  Exception, exception_none, Capability, thread, frame, page_table, get_cap_type,
}
use mi_dev_integral_rel.Field
use mi_dev_integral_rel.Cspace.Words.{to_words, thread_tcb_ptr}
use mi_dev_integral_rel.Cspace.Cap.{update_data}
use mi_dev_integral_rel.Cspace.Cte.{is_long_running_delete}
use mi_dev_integral_rel.Cspace.Derive.{derive_cap}
use mi_dev_integral_rel.Cspace.Lookup.{
  SyscallError, illegal_operation, truncated_message, range_error, alignment_error,
}
use mi_dev_integral_rel.Kernel.{
  Kernel, in_slots, Checked, rejected, passed, reject, checking, set_error,
}
use mi_dev_integral_rel.Kernel.Message.{tcb_slot, tcb_ctable}
use mi_dev_integral_rel.Kernel.Cnode.{restart_current}
use mi_dev_integral_rel.Kernel.Untyped.Decode.{get_syscall_arg}
use mi_dev_integral_rel.Kernel.Delete.{tcb_vtable}
use mi_dev_integral_rel.Kernel.Tcb.{
  frame_reg_num, gp_reg_num, invoke_tcb_read_registers, invoke_tcb_write_registers,
  invoke_tcb_copy_registers,
}

-- A test that rejects the message where it fails.
abbrev pub require : Bool → SyscallError → Cmd Kernel (Checked Skip)
require test e = if test then pure (passed tt) else reject e

-- `convert_to_mut_type_ref::<tcb_t>(cap.get_tcb_ptr())` of a thread capability.
unfoldable pub tcb_of : Capability → Cmd Kernel ℕ
tcb_of (thread ptr) = do convert ptr; pure ptr
tcb_of other = λ k. panic

-- `check_prio`; seL4_MinPrio is 0.
unfoldable pub check_prio : ℕ → ℕ → Cmd Kernel (Checked Skip)
check_prio prio auth_tcb = do
  k ← get
  require (not (ltb (k.ipc.tasks.mcp auth_tcb) prio)) (range_error 0 (k.ipc.tasks.mcp auth_tcb))

unfoldable pub check_ipc_buffer_vaild : ℕ → Capability → Cmd Kernel (Checked Skip)
check_ipc_buffer_vaild vptr (frame asid base size rights is_device address) =
    if not (is_device == 0)
    then reject illegal_operation
    else require (vptr % 2 ^ 10 == 0) alignment_error
check_ipc_buffer_vaild vptr other = reject illegal_operation

unfoldable pub is_valid_vtable_root : Capability → Bool
is_valid_vtable_root (page_table asid base is_mapped address) = not (is_mapped == 0)
is_valid_vtable_root other = false

-- The check of a derived capability's status.
accept_derived : Exception → Capability → Cmd Kernel (Checked Capability)
accept_derived exception_none cap = pure (passed cap)
accept_derived status cap = do set_error illegal_operation; pure (rejected status)

unfoldable pub derive_from : ℕ → Capability → Cmd Kernel (Checked Capability)
unfolding derive_cap accept_derived
derive_from slot cap = do
  dc_ret ← in_slots (derive_cap slot cap)
  accept_derived dc_ret.status dc_ret.cap

unfoldable pub decode_set_space_args : ℕ → Capability → ℕ → Cmd Kernel (Checked Capability)
unfolding derive_from update_data
decode_set_space_args root_data root_cap root_slot =
    derive_from root_slot
      (if root_data == 0 then root_cap else update_data root_cap false root_data)

unfoldable pub decode_read_registers : ℕ → Capability → ℕ → Bool → (ℕ → ℕ) → Cmd Kernel Exception
unfolding get_syscall_arg tcb_of invoke_tcb_read_registers
decode_read_registers queue cap length call buffer = do
  k ← get
  let flags = get_syscall_arg k buffer 0
  let n = get_syscall_arg k buffer 1
  checking (require (not (ltb length 2)) truncated_message) λ _.
      checking
        (require (not (ltb n 1 || ltb (frame_reg_num + gp_reg_num) n))
          (range_error 1 (frame_reg_num + gp_reg_num)))
        λ _. (do
          t ← tcb_of cap
          checking (require (not (k.ipc.tasks.cur_thread == t)) illegal_operation)
              λ _. (do restart_current; invoke_tcb_read_registers queue t (flags % 2) n call))

unfoldable pub decode_write_registers : ℕ → Capability → ℕ → (ℕ → ℕ) → Cmd Kernel Exception
unfolding get_syscall_arg tcb_of invoke_tcb_write_registers
decode_write_registers queue cap length buffer = do
  k ← get
  let flags = get_syscall_arg k buffer 0
  let w = get_syscall_arg k buffer 1
  checking (require (not (ltb length 2)) truncated_message) λ _.
      checking (require (not (ltb (length - 2) w)) truncated_message) λ _. (do
        t ← tcb_of cap
        checking (require (not (k.ipc.tasks.cur_thread == t)) illegal_operation)
            λ _. (do restart_current; invoke_tcb_write_registers queue t (flags % 2) w buffer))

-- `get_tcb_ptr` of whatever capability: the bits where a thread's pointer would be.
unfoldable pub get_tcb_ptr : Capability → ℕ
get_tcb_ptr (thread ptr) = ptr
get_tcb_ptr other = Field.get thread_tcb_ptr (to_words other)

unfoldable pub decode_copy_registers : ℕ → Capability → (ℕ → ℕ) → Cmd Kernel Exception
unfolding get_syscall_arg get_tcb_ptr tcb_of invoke_tcb_copy_registers
decode_copy_registers queue cap buffer = do
  k ← get
  let flags = get_syscall_arg k buffer 0
  let src_tcb = get_tcb_ptr (k.slots.cap (k.extra_caps 0))
  assert (not (k.extra_caps 0 == 0))
  checking (require (get_cap_type cap == 12) truncated_message) λ _. (do
    convert src_tcb
    dest ← tcb_of cap
    invoke_tcb_copy_registers queue dest src_tcb (flags % 2) (flags / 2 % 2) (flags / 4 % 2))

-- The capabilities of the new roots of a thread.
pub record Roots : Type 0 where
  pub croot_cap : Capability
  pub vroot_cap : Capability

-- Whether one of the thread's roots is being deleted.
unfoldable pub roots_in_deletion : ℕ → Cmd Kernel Bool
unfolding is_long_running_delete tcb_slot
roots_in_deletion t = do
  c ← in_slots (is_long_running_delete (tcb_slot t tcb_ctable))
  if c then pure true else in_slots (is_long_running_delete (tcb_slot t tcb_vtable))

-- What `decode_tcb_configure` and `decode_set_space` have in common: the checks of the new roots,
-- which stand in the first two extra slots.
unfoldable pub decode_roots : ℕ → ℕ → ℕ → (Roots → Cmd Kernel Exception) → Cmd Kernel Exception
unfolding roots_in_deletion decode_set_space_args is_valid_vtable_root
decode_roots t croot_data vroot_data next = do
  k ← get
  let croot_slot = k.extra_caps 0
  let vroot_slot = k.extra_caps 1
  deleting ← roots_in_deletion t
  checking (require (not deleting) illegal_operation) λ _.
      checking (decode_set_space_args croot_data (k.slots.cap croot_slot) croot_slot) λ croot.
        checking (require (get_cap_type croot == 10) illegal_operation) λ _.
          checking (decode_set_space_args vroot_data (k.slots.cap vroot_slot) vroot_slot) λ vroot.
            checking (require (is_valid_vtable_root vroot) illegal_operation)
              λ _. next (record { croot_cap = croot; vroot_cap = vroot })

-- The new buffer's capability, derived from the slot that it comes from, if there is an address for it.
unfoldable pub decode_buffer : ℕ → ℕ → Capability → Cmd Kernel (Checked Capability)
unfolding derive_from check_ipc_buffer_vaild
decode_buffer new_buffer_addr buffer_slot otherwise =
    if new_buffer_addr == 0 then pure (passed otherwise) else (do
      k ← get
      derived ← derive_from buffer_slot (k.slots.cap buffer_slot)
      accept_buffer new_buffer_addr derived)
  where
    accept_buffer : ℕ → Checked Capability → Cmd Kernel (Checked Capability)
    accept_buffer addr (rejected status) = pure (rejected status)
    accept_buffer addr (passed cap) = do c ← check_ipc_buffer_vaild addr cap; keep cap c
      where
        keep : Capability → Checked Skip → Cmd Kernel (Checked Capability)
        keep cap' (rejected status) = pure (rejected status)
        keep cap' (passed _) = pure (passed cap')

-- The slot of the new buffer, none for the address 0.
abbrev pub buffer_slot_of : ℕ → ℕ → Option ℕ
buffer_slot_of addr slot = if addr == 0 then none else some slot
