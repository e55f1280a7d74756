-- ===== src/Kernel/Interrupt/Grant.antt =====
-- Which interrupts a handler can be had for: `is_irq_active` of kernel/src/interrupt/mod.rs, in
-- decode_irq_control_invocation.
use mi_dev_integral_rel.Base.{
  ℕ, ◌≡◌, refl, Bool, true, false, not, ◌||◌, ltb, leb, ◌==◌, Bool-cases, inl, inr,
}
use mi_dev_integral_rel.Cmd.{Cmd, Skip, and_then}
use mi_dev_integral_rel.Cspace.{Exception}
use mi_dev_integral_rel.Kernel.{Kernel, unless_rejected, checking}
use mi_dev_integral_rel.Cspace.Lookup.{truncated_message}
use mi_dev_integral_rel.Kernel.Tcb.Decode.{require}
use mi_dev_integral_rel.Kernel.Untyped.Decode.{get_syscall_arg}
use mi_dev_integral_rel.Kernel.Untyped.Reject.{SameMemory}
use mi_dev_integral_rel.Kernel.Tcb.Params.{Refused, is_error, is_panic}
use mi_dev_integral_rel.Kernel.Interrupt.{is_irq_active, get_irq_state, irq_state_of}
use mi_dev_integral_rel.Kernel.Interrupt.Invocation.{
  check_irq, grantable, issue_handler, issue_trigger, decode_irq_control_invocation,
}

-- A number in range whose interrupt is inactive is refused.
inactive-Refused :
    (k : Kernel) (irq : ℕ) (f : Skip → Cmd Kernel Exception)
    → k.slots.irq_state irq ≡ 0
    → Refused k (and_then (grantable irq k) (unless_rejected f))
unfolding grantable is_irq_active get_irq_state irq_state_of SameMemory
inactive-Refused k irq f e = elim (Bool-cases (leb irq 1)) [
  | inl l ↦ rw (l, e) (is_error (refl, refl, refl, refl, refl, refl, refl))
  | inr l ↦ rw l is_panic
]

-- The steps before the test of the state, of either label; `enough` is the length that it asks for.
by_state :
    (k : Kernel) (short : Bool) (irq : ℕ) (f : Skip → Cmd Kernel Exception)
    → k.slots.irq_state irq ≡ 0
    → Refused k (
        checking
          (require (not short) truncated_message)
          (λ _. checking (check_irq irq) λ _. checking (grantable irq) f)
          k)
unfolding check_irq SameMemory
by_state k true irq f e = is_error (refl, refl, refl, refl, refl, refl, refl)
by_state k false irq f e = elim (Bool-cases (ltb 1 irq || (irq == 0))) [
  | inl b ↦ rw b (is_error (refl, refl, refl, refl, refl, refl, refl))
  | inr b ↦ rw b (inactive-Refused k irq f e)
]

-- A handler for an interrupt whose state is IRQInactive cannot be had: whatever the label, the length
-- and the slots are, the request is refused, with no change but to the globals of the error and the fault, or stops the kernel.
pub decode_irq_control_invocation-Refused :
    (k : Kernel) (label length src_slot : ℕ) (buffer : ℕ → ℕ)
    → k.slots.irq_state (get_syscall_arg k buffer 0) ≡ 0
    → Refused k (decode_irq_control_invocation label length src_slot buffer k)
unfolding decode_irq_control_invocation issue_handler issue_trigger SameMemory
decode_irq_control_invocation-Refused k label length src_slot buffer e =
    let irq = get_syscall_arg k buffer 0 in
    elim (Bool-cases (label == 25)) [
      | inl h ↦ rw h (by_state k (ltb length 3 || (k.extra_caps 0 == 0)) irq _ e)
      | inr h ↦ elim (Bool-cases (label == 37)) [
        | inl t ↦ rw (h, t) (by_state k (ltb length 4 || (k.extra_caps 0 == 0)) irq _ e)
        | inr t ↦ rw (h, t) (is_error (refl, refl, refl, refl, refl, refl, refl))
      ]
    ]
