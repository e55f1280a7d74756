-- ===== src/Kernel/Tcb/Bind.antt =====
-- Binding a notification to a thread: decode_bind_notification of
-- kernel/src/syscall/invocation/decode/decode_tcb_invocation.rs.
use mi_dev_integral_rel.Base.{
  ℕ, ◌≡◌, ◌≢◌, refl, arith, not, ◌||◌, ◌==◌, Bool-cases, inl, inr, update,
}
use mi_dev_integral_rel.Cmd.{Run, ok, panic, Cmd, and_then}
use mi_dev_integral_rel.Task.{restart}
use mi_dev_integral_rel.Task.Scheduler.{set_thread_state}
use mi_dev_integral_rel.Cspace.{
  Exception, exception_none, syscall_error, Capability, notification, thread,
}
use mi_dev_integral_rel.Kernel.{Kernel, unless_rejected}
use mi_dev_integral_rel.Kernel.Untyped.Reject.{SameMemory}
use mi_dev_integral_rel.Kernel.Exchange.Waiting.{schedule_run}
use mi_dev_integral_rel.Kernel.Tcb.Invocation.{bindable, decode_bind_notification}

-- The capability `cap` gives the right to receive from the notification `ntfn`, for which no thread
-- waits.
pub data Receivable (k : Kernel) (ntfn : ℕ) : Capability → Type 0 where
  receivable :
      {badge can_receive can_send : ℕ}
      → ntfn ≢ 0
      → can_receive ≢ 0
      → (k.ipc.ntfn_queue ntfn).head ≡ 0
      → (k.ipc.ntfn_queue ntfn).tail ≡ 0
      → Receivable k ntfn (notification badge can_receive can_send ntfn)

-- The outcomes of the decoding for the thread `tcb`: an error that changes nothing else, a panic, or the
-- two links between the thread, which had none, and the notification of the first extra capability.
pub data Binds (k : Kernel) (tcb : ℕ) : Run Kernel Exception → Type 0 where
  refused : {k' : Kernel} → SameMemory k k' → Binds k tcb (ok syscall_error k')
  halted : Binds k tcb panic
  bound :
      {k' : Kernel} (ntfn : ℕ)
      → Receivable k ntfn (k.slots.cap (k.extra_caps 0))
      → k.ipc.tasks.bound_notification tcb ≡ 0
      → k'.ipc.bound_tcb ≡ update k.ipc.bound_tcb ntfn tcb
      → k'.ipc.tasks.bound_notification ≡ update k.ipc.tasks.bound_notification tcb ntfn
      → Binds k tcb (ok exception_none k')

by_notification :
    (k : Kernel) (tcb : ℕ) (cap : Capability) (next : ℕ → Cmd Kernel Exception)
    → ((ntfn : ℕ) → Receivable k ntfn cap → Binds k tcb (next ntfn k))
    → Binds k tcb (and_then (bindable cap k) (unless_rejected next))
unfolding bindable SameMemory
by_notification k tcb (notification badge can_receive can_send ptr) next step =
    elim (Bool-cases (ptr == 0)) [
      | inl e ↦ rw e halted
      | inr e ↦
          elim (Bool-cases (
            (can_receive == 0)
            || not ((k.ipc.ntfn_queue ptr).head == 0)
            || not ((k.ipc.ntfn_queue ptr).tail == 0))) [
              | inl f ↦ rw (e, f) (refused (refl, refl, refl, refl, refl, refl, refl))
              | inr f ↦
                  rw (e, f)
                    (step ptr (
                      receivable (ground arith) (ground (arith, f)) (ground (arith, f))
                        (ground (arith, f))))
            ]
    ]
by_notification k tcb _ next step = refused (refl, refl, refl, refl, refl, refl, refl)

-- TCBBindNotification of a thread's capability is refused, with no change but to the globals of the
-- error and the fault, or stops the kernel, or links the thread, which had no notification, and the
-- notification of the first extra capability to each other; that capability has the right to
-- receive, and the notification's queue is empty. No other link between threads and notifications
-- changes: a thread that the notification was bound to before keeps its link to it.
pub decode_bind_notification-Binds :
    (k : Kernel) (tcb : ℕ) → Binds k tcb (decode_bind_notification (thread tcb) k)
unfolding decode_bind_notification set_thread_state SameMemory
decode_bind_notification-Binds k tcb = elim (Bool-cases (k.extra_caps 0 == 0)) [
  | inl e ↦ rw e (refused (refl, refl, refl, refl, refl, refl, refl))
  | inr e ↦ elim (Bool-cases (tcb == 0)) [
    | inl z ↦ rw (e, z) halted
    | inr z ↦ elim (Bool-cases (k.ipc.tasks.bound_notification tcb == 0)) [
      | inr b ↦ rw (e, z, b) (refused (refl, refl, refl, refl, refl, refl, refl))
      | inl b ↦
          rw (e, z, b)
            (by_notification k tcb (k.slots.cap (k.extra_caps 0)) _ (λ ntfn given.
              let t = k.ipc.tasks in
              let w = record t { ts_type = update t.ts_type t.cur_thread restart } in
              rw (schedule_run w t.cur_thread) (bound ntfn given (ground arith) refl refl)))
    ]
  ]
]
