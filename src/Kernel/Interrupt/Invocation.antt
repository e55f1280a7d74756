-- ===== src/Kernel/Interrupt/Invocation.antt =====
-- Invoking the capabilities of interrupts: kernel/src/syscall/invocation/invoke_irq.rs,
-- decode/decode_irq_invocation.rs, and check_irq and arch_decode_irq_control_invocation of
-- decode/arch/riscv64.rs.
use mi_dev_integral_rel.Base.{ℕ, Bool, false, not, ◌||◌, ltb, ◌==◌, if◌then◌else◌}
use mi_dev_integral_rel.Cmd.{Cmd, Skip, pure, ◌>>=◌, ◌>>◌, get}
use mi_dev_integral_rel.Cspace.{
  Exception, exception_none, Capability, notification, irq_handler, get_cap_type,
}
use mi_dev_integral_rel.Cspace.Cte.{max_irq, cte_insert}
use mi_dev_integral_rel.Cspace.Lookup.{
  truncated_message, range_error, revoke_first, delete_first, invalid_capability,
  lookup_slot_for_cnode_op,
}
use mi_dev_integral_rel.Kernel.{Kernel, in_slots, Checked, checking}
use mi_dev_integral_rel.Kernel.Labels.{
  irq_issue_irq_handler, riscv_irq_issue_irq_handler_trigger, irq_ack_irq, irq_set_irq_handler,
  irq_clear_irq_handler,
}
use mi_dev_integral_rel.Kernel.Cnode.{restart_current, illegal}
use mi_dev_integral_rel.Kernel.Cnode.Decode.{slot_found}
use mi_dev_integral_rel.Kernel.Untyped.Decode.{get_syscall_arg}
use mi_dev_integral_rel.Kernel.Delete.{get_irq_handler_slot, delete_one}
use mi_dev_integral_rel.Kernel.Tcb.Decode.{require}
use mi_dev_integral_rel.Kernel.Interrupt.{irq_invalid, irq_signal, set_irq_state, is_irq_active}

unfoldable pub invoke_irq_control : ℕ → ℕ → ℕ → Cmd Kernel Exception
unfolding set_irq_state cte_insert
invoke_irq_control irq handler_slot control_slot = do
  set_irq_state irq_signal irq
  in_slots (cte_insert (irq_handler irq) control_slot handler_slot)
  pure exception_none

unfoldable pub invoke_set_irq_handler : ℕ → ℕ → Capability → ℕ → Cmd Kernel Skip
unfolding get_irq_handler_slot delete_one cte_insert
invoke_set_irq_handler queue irq cap slot = do
  irq_slot ← get_irq_handler_slot irq
  delete_one queue irq_slot
  in_slots (cte_insert cap slot irq_slot)

unfoldable pub invoke_clear_irq_handler : ℕ → ℕ → Cmd Kernel Skip
unfolding get_irq_handler_slot delete_one
invoke_clear_irq_handler queue irq = do slot ← get_irq_handler_slot irq; delete_one queue slot

unfoldable pub check_irq : ℕ → Cmd Kernel (Checked Skip)
check_irq irq = require (not (ltb max_irq irq || (irq == irq_invalid))) (range_error 1 max_irq)

-- The slot for a new handler, as an operation on a CNode names it.
unfoldable pub target_slot : Capability → ℕ → ℕ → Cmd Kernel (Checked ℕ)
unfolding slot_found
target_slot root index depth = do
  k ← get
  slot_found (lookup_slot_for_cnode_op k.globals k.slots false root index depth)

-- The interrupt's number is in range, and the test of its state passes.
unfoldable pub grantable : ℕ → Cmd Kernel (Checked Skip)
unfolding is_irq_active
grantable irq = do active ← is_irq_active irq; require (not active) revoke_first

-- `decode_irq_control_invocation` at IRQIssueIRQHandler.
unfoldable pub issue_handler : ℕ → ℕ → (ℕ → ℕ) → Cmd Kernel Exception
unfolding get_syscall_arg check_irq grantable target_slot invoke_irq_control
issue_handler length src_slot buffer = do
  k ← get
  let irq = get_syscall_arg k buffer 0
  let cnode_cap = k.slots.cap (k.extra_caps 0)
  checking (require (not (ltb length 3 || (k.extra_caps 0 == 0))) truncated_message) λ _.
      checking (check_irq irq) λ _. checking (grantable irq) λ _.
        checking (target_slot cnode_cap (get_syscall_arg k buffer 1) (get_syscall_arg k buffer 2))
          λ dest_slot.
            checking (require (get_cap_type (k.slots.cap dest_slot) == 0) delete_first)
              λ _. (do restart_current; invoke_irq_control irq dest_slot src_slot)

-- `arch_decode_irq_control_invocation`, which does not ask whether the slot is empty.
unfoldable pub issue_trigger : ℕ → ℕ → (ℕ → ℕ) → Cmd Kernel Exception
unfolding get_syscall_arg check_irq grantable target_slot invoke_irq_control
issue_trigger length src_slot buffer = do
  k ← get
  let irq = get_syscall_arg k buffer 0
  let cnode_cap = k.slots.cap (k.extra_caps 0)
  checking (require (not (ltb length 4 || (k.extra_caps 0 == 0))) truncated_message) λ _.
      checking (check_irq irq) λ _. checking (grantable irq) λ _.
        checking (target_slot cnode_cap (get_syscall_arg k buffer 2) (get_syscall_arg k buffer 3))
          λ dest_slot. (do restart_current; invoke_irq_control irq dest_slot src_slot)

unfoldable pub decode_irq_control_invocation : ℕ → ℕ → ℕ → (ℕ → ℕ) → Cmd Kernel Exception
unfolding issue_handler issue_trigger
decode_irq_control_invocation label length src_slot buffer =
    if label == irq_issue_irq_handler
    then issue_handler length src_slot buffer
    else if label == riscv_irq_issue_irq_handler_trigger
    then issue_trigger length src_slot buffer
    else illegal

-- The capability for a handler: to a notification, with the right to send.
unfoldable pub can_signal : Capability → Bool
can_signal (notification badge can_receive can_send ptr) = not (can_send == 0)
can_signal other = false

-- `decode_irq_handler_invocation` at IRQSetIRQHandler.
unfoldable pub set_handler : ℕ → ℕ → Cmd Kernel Exception
unfolding can_signal invoke_set_irq_handler
set_handler queue irq = do
  k ← get
  let slot = k.extra_caps 0
  checking (require (not (slot == 0)) truncated_message) λ _.
      checking (require (can_signal (k.slots.cap slot)) (invalid_capability 0)) λ _. (do
        restart_current
        invoke_set_irq_handler queue irq (k.slots.cap slot) slot
        pure exception_none)

unfoldable pub decode_irq_handler_invocation : ℕ → ℕ → ℕ → Cmd Kernel Exception
unfolding set_handler invoke_clear_irq_handler
decode_irq_handler_invocation queue label irq =
    if label == irq_ack_irq
    then (do restart_current; pure exception_none)
    else if label == irq_set_irq_handler
    then set_handler queue irq
    else if label == irq_clear_irq_handler
    then (do restart_current; invoke_clear_irq_handler queue irq; pure exception_none)
    else illegal
