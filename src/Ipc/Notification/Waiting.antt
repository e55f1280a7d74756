-- ===== src/Ipc/Notification/Waiting.antt =====
-- The queue of a notification and its state: a notification waits just when threads wait for it.
use mi_dev_integral_rel.Base.{
  ℕ, ◌≡◌, ◌≢◌, refl, sym, subst, true, not, ◌&&◌, List, [], ◌∷◌, ◌++◌, ◌==◌, ◌∉◌, arith, update,
  Bool-cases, inl, inr, if◌then◌else◌,
}
use mi_dev_integral_rel.Cmd.{ok}
use mi_dev_integral_rel.Cmd.Returns.{Returns, returns}
use mi_dev_integral_rel.Task.{ThreadState, Tasks, TcbQueue, inactive, blocked_on_notification}
use mi_dev_integral_rel.Task.EpQueue.Order.{
  IsQueue, dequeue_run, append_run, dequeued, dequeue_queue, appended, append_queue, ep_append-snoc,
  ep_dequeue-remove,
}
use mi_dev_integral_rel.Task.Scheduler.{
  set_thread_state, schedule_tcb, reschedule_required, runnable,
}
use mi_dev_integral_rel.Ipc.{NtfnState, ntfn_idle, ntfn_waiting, ntfn_active, Ipc}
use mi_dev_integral_rel.Ipc.Notification.{wait, receive, cancel_signal, receive_signal}

-- The state that fits the threads that wait.
abbrev pub Fits : NtfnState → List ℕ → Type 0
Fits ntfn_idle xs = xs ≡ []
Fits ntfn_waiting xs = xs ≢ []
Fits ntfn_active xs = xs ≡ []

pub record IsNtfn (s : Ipc) (ntfn : ℕ) (xs : List ℕ) : Type 0 where
  pub queue : IsQueue s.tasks (s.ntfn_queue ntfn) xs
  pub fits : Fits (s.ntfn_state ntfn) xs

-- Memory once a thread's state is set: the current thread asks for another one when it cannot run.
abbrev pub stated : Tasks → ℕ → ThreadState → Tasks
stated k t state = record k {
  ts_type = update k.ts_type t state;
  scheduler_action =
      if (t == k.cur_thread) && (k.scheduler_action == 0) && not (runnable state)
      then 1
      else k.scheduler_action;
}

pub state_run :
    (k : Tasks) (t : ℕ) (state : ThreadState)
    → set_thread_state t state k ≡ ok tt (stated k t state)
unfolding set_thread_state schedule_tcb reschedule_required
state_run k t state = ground arith

pub returned : {S A : Type 0} {P : A → S → Type 0} {a : A} {s : S} → Returns P (ok a s) → P a s
returned (returns p) = p

-- Head and list are empty together.
head-nil : (k : Tasks) (q : TcbQueue) (zs : List ℕ) → IsQueue k q zs → q.head ≡ 0 → zs ≡ []
head-nil k q [] is e = refl
head-nil k q (z ∷ zs) is e = absurd (ground (arith, is.seg))

nil-head : (k : Tasks) (q : TcbQueue) (zs : List ℕ) → IsQueue k q zs → q.head ≢ 0 → zs ≢ []
nil-head k q [] is ne e = ne (is.seg.0)
nil-head k q (z ∷ zs) is ne e = absurd (cc)

pub snoc-nil : (xs : List ℕ) (t : ℕ) → xs ++ t ∷ [] ≢ []
snoc-nil [] t e = absurd (cc)
snoc-nil (x ∷ xs) t e = absurd (cc)

pub update-same : {A : Type 0} (f : ℕ → A) (a : ℕ) (v : A) → update f a v a ≡ v
update-same f a v = let same : (a == a) ≡ true = ground arith in rw same refl

fitted :
    (s : Ipc) (ntfn : ℕ) (q : TcbQueue) (zs : List ℕ) (state : NtfnState)
    → s.ntfn_queue ntfn ≡ q
    → IsQueue s.tasks q zs
    → s.ntfn_state ntfn ≡ state
    → Fits state zs
    → IsNtfn s ntfn zs
fitted s ntfn q zs state e is f fits = record {
  queue = subst (λ p. IsQueue s.tasks p zs) (sym e) is;
  fits = subst (λ p. Fits p zs) (sym f) fits;
}

module _ (s : Ipc) (ntfn t : ℕ) where
  -- On a notification that waits, taking any of its threads out of the queue returns: the others wait
  -- in their order, the notification is idle when none is left, and the thread is inactive.
  pub cancel_signal-IsNtfn :
      (xs ys : List ℕ)
      → s.ntfn_state ntfn ≡ ntfn_waiting
      → IsNtfn s ntfn (xs ++ t ∷ ys)
      → Returns
          (λ _ s'. IsNtfn s' ntfn (xs ++ ys) × (s'.tasks.ts_type t ≡ inactive))
          (cancel_signal ntfn t s)
  unfolding cancel_signal
  cancel_signal-IsNtfn xs ys waits is =
      let k = s.tasks in
      let q = s.ntfn_queue ntfn in
      let run = dequeue_run k q t in
      let r : IsQueue (dequeued k q t) (dequeue_queue k q t) (xs ++ ys) =
        (returned (rw run at (ep_dequeue-remove k q t xs ys is.queue))).0 in
      elim (Bool-cases ((dequeue_queue k q t).head == 0)) [
        | inl e ↦
            rw (run, e, state_run (dequeued k q t) t inactive)
              (returns (
                fitted _ ntfn (dequeue_queue k q t) (xs ++ ys) ntfn_idle
                    (update-same s.ntfn_queue ntfn (dequeue_queue k q t)) r
                    (update-same s.ntfn_state ntfn ntfn_idle)
                    (head-nil (dequeued k q t) (dequeue_queue k q t) (xs ++ ys) r (ground arith)),
                update-same k.ts_type t inactive,
              ))
        | inr e ↦
            rw (run, e, state_run (dequeued k q t) t inactive)
              (returns (
                fitted _ ntfn (dequeue_queue k q t) (xs ++ ys) ntfn_waiting
                    (update-same s.ntfn_queue ntfn (dequeue_queue k q t)) r waits
                    (nil-head (dequeued k q t) (dequeue_queue k q t) (xs ++ ys) r (ground arith)),
                update-same k.ts_type t inactive,
              ))
      ]

  -- The thread waits for the notification, behind the threads `xs`.
  abbrev pub Blocked : List ℕ → Ipc → Type 0
  Blocked xs s' =
      IsNtfn s' ntfn (xs ++ t ∷ [])
      × (s'.ntfn_state ntfn ≡ ntfn_waiting)
      × (s'.tasks.ts_type t ≡ blocked_on_notification)
      × (s'.tasks.blocking_object t ≡ ntfn)

  module _ (xs : List ℕ) (is : IsNtfn s ntfn xs) (ne : t ≢ 0) (out : t ∉ xs) where
    wait_keeps : Returns (λ _ s'. Blocked xs s') (wait ntfn t true s)
    wait_keeps =
        let k = record s.tasks { blocking_object = update s.tasks.blocking_object t ntfn } in
        let k' = stated k t blocked_on_notification in
        let q = s.ntfn_queue ntfn in
        let run = append_run k' q t xs is.queue in
        let r : IsQueue (appended k' q t) (append_queue k' q t) (xs ++ t ∷ []) =
          (returned (rw run at (ep_append-snoc k' q t xs is.queue ne out))).0 in
        rw (state_run k t blocked_on_notification, run)
          (returns (
            fitted _ ntfn (append_queue k' q t) (xs ++ t ∷ []) ntfn_waiting
                (update-same s.ntfn_queue ntfn (append_queue k' q t)) r
                (update-same s.ntfn_state ntfn ntfn_waiting) (snoc-nil xs t),
            update-same s.ntfn_state ntfn ntfn_waiting,
            update-same s.tasks.ts_type t blocked_on_notification,
            update-same s.tasks.blocking_object t ntfn,
          ))

    receive_keeps :
        (state : NtfnState)
        → state ≢ ntfn_active
        → Returns (λ _ s'. Blocked xs s') (receive state ntfn t true s)
    unfolding receive
    receive_keeps ntfn_idle quiet = wait_keeps
    receive_keeps ntfn_waiting quiet = wait_keeps
    receive_keeps ntfn_active quiet = absurd (quiet refl)

    -- On a notification with no signal, a thread that blocks on it, not null and not waiting yet, is
    -- put behind the threads that wait, and is blocked on this notification, which waits.
    pub receive_signal-IsNtfn :
        s.ntfn_state ntfn ≢ ntfn_active
        → Returns (λ _ s'. Blocked xs s') (receive_signal ntfn t true s)
    unfolding receive_signal
    receive_signal-IsNtfn quiet = receive_keeps (s.ntfn_state ntfn) quiet
