-- ===== src/Kernel/Tcb/Params.antt =====
-- The priorities that a thread may give: the decoding of TCBSetPriority, TCBSetMCPriority and
-- TCBSetSchedParams.
use mi_dev_integral_rel.Base.{ℕ, ◌≡◌, ◌≤◌, refl, arith, ◌||◌, ltb, ◌==◌, Bool-cases, inl, inr}
use mi_dev_integral_rel.Cmd.{Run, ok, panic, Cmd, and_then}
use mi_dev_integral_rel.Cspace.{Exception, syscall_error, Capability, thread}
use mi_dev_integral_rel.Kernel.{Kernel, unless_rejected}
use mi_dev_integral_rel.Kernel.Untyped.Decode.{get_syscall_arg}
use mi_dev_integral_rel.Kernel.Untyped.Reject.{SameMemory}
use mi_dev_integral_rel.Kernel.Tcb.Decode.{check_prio}
use mi_dev_integral_rel.Kernel.Tcb.Invocation.{decode_prio, authority, decode_set_sched_params}

-- What becomes of a request for a priority: it is refused, and only the globals of the error and the fault may change; or the first
-- extra slot has the capability of a thread whose maximum is not below the priority.
pub data Bounded (k : Kernel) (prio : ℕ) : Run Kernel Exception → Type 0 where
  refused : {k' : Kernel} → SameMemory k k' → Bounded k prio (ok syscall_error k')
  stopped : Bounded k prio panic
  granted :
      {r : Run Kernel Exception} (auth : ℕ)
      → k.slots.cap (k.extra_caps 0) ≡ thread auth
      → prio ≤ k.ipc.tasks.mcp auth
      → Bounded k prio r

by_authority :
    (k k1 : Kernel) (prio : ℕ) (cap : Capability) (next : ℕ → Cmd Kernel Exception)
    → SameMemory k k1
    → ((auth : ℕ) → cap ≡ thread auth → Bounded k prio (next auth k1))
    → Bounded k prio (and_then (authority cap k1) (unless_rejected next))
unfolding authority SameMemory
by_authority k k1 prio (thread ptr) next same step = elim (Bool-cases (ptr == 0)) [
  | inl e ↦ rw e stopped
  | inr e ↦ rw e (step ptr refl)
]
by_authority k k1 prio _ next same step = refused same

-- A request for a priority is refused, with no change but to the globals of the error and the fault, or stops the kernel, unless
-- the first extra slot has the capability of a thread whose maximum controlled priority is not below
-- it: whatever `next` does with the priority.
pub decode_prio-Bounded :
    (k : Kernel) (length : ℕ) (buffer : ℕ → ℕ) (next : ℕ → Cmd Kernel Exception)
    → Bounded k (get_syscall_arg k buffer 0) (decode_prio length buffer next k)
unfolding decode_prio check_prio SameMemory
decode_prio-Bounded k length buffer next =
    let prio = get_syscall_arg k buffer 0 in
    elim (Bool-cases (ltb length 1 || (k.extra_caps 0 == 0))) [
      | inl e ↦ rw e (refused (refl, refl, refl, refl, refl, refl, refl))
      | inr e ↦ rw e (
          by_authority k k prio (k.slots.cap (k.extra_caps 0)) _
            (refl, refl, refl, refl, refl, refl, refl)
            (λ auth is. elim (Bool-cases (ltb (k.ipc.tasks.mcp auth) prio)) [
              | inl f ↦ rw f (refused (refl, refl, refl, refl, refl, refl, refl))
              | inr f ↦ granted auth is (ground arith)
            ]))
    ]

-- A request that is refused, with no change but to the globals of the error and the fault, or that stops the kernel.
pub data Refused (k : Kernel) : Run Kernel Exception → Type 0 where
  is_error : {k' : Kernel} → SameMemory k k' → Refused k (ok syscall_error k')
  is_panic : Refused k panic

-- TCBSetSchedParams has no effect, whatever the capability, the message and the extra capabilities
-- are: the call is refused, with no change but to the globals of the error and the fault, or stops the kernel.
pub decode_set_sched_params-Refused :
    (k : Kernel) (cap : Capability) (length : ℕ) (buffer : ℕ → ℕ)
    → Refused k (decode_set_sched_params cap length buffer k)
unfolding decode_set_sched_params SameMemory
decode_set_sched_params-Refused k cap length buffer = elim (Bool-cases (k.extra_caps 0 == 0)) [
  | inl e ↦ elim (Bool-cases (ltb length 2)) [
    | inl f ↦ rw f (is_error (refl, refl, refl, refl, refl, refl, refl))
    | inr f ↦ rw (f, e) is_panic
  ]
  | inr e ↦ elim (Bool-cases (ltb length 2)) [
    | inl f ↦ rw f (is_error (refl, refl, refl, refl, refl, refl, refl))
    | inr f ↦ rw (f, e) (is_error (refl, refl, refl, refl, refl, refl, refl))
  ]
]
