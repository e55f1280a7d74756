-- ===== src/Task/Scheduler/Decide.antt =====
-- The decision of `schedule` of sel4_task/src/scheduler.rs, and the whole of it.
use mi_dev_integral_rel.Base.{
  ℕ, ◌<◌, ◌≤◌, ◌≡◌, ◌≢◌, ◌⊎◌, ◌∙◌, refl, sym, ap, subst, Bool, true, false, not, ◌&&◌, ◌||◌, ltb,
  ◌==◌, arith, Bool-cases, inl, inr, if◌then◌else◌,
}
use mi_dev_integral_rel.Cmd.{Skip, Run, pure, and_then, ◌>>◌}
use mi_dev_integral_rel.Cmd.Returns
use mi_dev_integral_rel.Cmd.Returns.{Returns, returns, mono}
use mi_dev_integral_rel.Task.{Tasks}
use mi_dev_integral_rel.Task.ReadyQueue.{sched_enqueue, sched_append}
use mi_dev_integral_rel.Task.ReadyQueue.Ready.{busy}
use mi_dev_integral_rel.Task.Bitmap.{is_highest_prio}
use mi_dev_integral_rel.Task.Bitmap.Words.{is_highest_prio-IsHighest}
use mi_dev_integral_rel.Task.Scheduler.{
  switch_to_this, schedule_choose_new_thread, schedule_candidate, schedule, runnable, set_action,
  choose_new_thread, resume_current_thread,
}
use mi_dev_integral_rel.Task.Scheduler.Keep.{
  IsSched, SameButQueues, Joined, enqueue_joins, append_joins,
}
use mi_dev_integral_rel.Task.Scheduler.Steps.{acted}
use mi_dev_integral_rel.Task.Scheduler.Serve.{
  Best, Served, Serves, choose_new-Picks, direct-Serves, after_join,
}

module _ (k : Tasks) (is : IsSched k) where
  -- No busy queue is above the priority `p`.
  abbrev Highest : ℕ → Type 0
  Highest p = (q : ℕ) → q < 256 → busy (is.lists q) ≡ true → q ≤ p

  is_highest_prio-Highest :
      (p : ℕ)
      → Returns (λ h k'. (k' ≡ k) × (h ≡ true → Highest p)) (is_highest_prio k.cur_domain p k)
  is_highest_prio-Highest p =
      subst (λ d. Returns (λ h k'. (k' ≡ k) × (h ≡ true → Highest p)) (is_highest_prio d p k))
        (sym is.cur_domain)
        (mono (is_highest_prio-IsHighest k (λ q. busy (is.lists q)) is.ready.bitmap p)
          (λ b k' h. (h.1, h.0.0)))

  -- The question is asked only where `b` holds.
  ask :
      (b : Bool) (p : ℕ)
      → Returns
          (λ h k'. (k' ≡ k) × (b ≡ true → h ≡ true → Highest p))
          ((if b then is_highest_prio k.cur_domain p else pure true) k)
  ask true p = mono (is_highest_prio-Highest p) (λ h k' a. (a.0, λ b. a.1))
  ask false p = returns (refl, λ b. absurd (cc))

-- The branches of `schedule_candidate`.
abbrev branches : (fail yield : Bool) → ℕ → Tasks → Run Tasks Skip
branches fail yield candidate =
    if fail
    then (do sched_enqueue candidate; set_action choose_new_thread; schedule_choose_new_thread)
    else if yield
    then (do sched_append candidate; set_action choose_new_thread; schedule_choose_new_thread)
    else switch_to_this candidate

module _ (k : Tasks) (is : IsSched k) (candidate : ℕ) (ne : candidate ≢ 0) where
  -- Why the candidate may be switched to.
  abbrev May : Type 0
  May =
      Highest k is (k.priority candidate)
      ⊎ ((k.cur_thread ≢ k.idle_thread) × (k.priority k.cur_thread ≤ k.priority candidate))

  decide :
      (fail yield : Bool)
      → (fail ≡ false → May)
      → Returns (λ _ k'. Serves k candidate k') (branches fail yield candidate k)
  decide true yield may =
      Returns.bind (enqueue_joins k is candidate ne)
        λ _ k1 (kept, joined). after_join k is candidate k1 kept joined
  decide false true may =
      Returns.bind (append_joins k is candidate ne)
        λ _ k1 (kept, joined). after_join k is candidate k1 kept joined
  decide false false may = direct-Serves k is candidate ne (may refl)

  may_switch :
      (b h : Bool)
      → b ≡ (k.cur_thread == k.idle_thread) || ltb (k.priority candidate) (k.priority k.cur_thread)
      → (b ≡ true → h ≡ true → Highest k is (k.priority candidate))
      → b && not h ≡ false
      → May
  may_switch true true is_fast all e = inl (all refl refl)
  may_switch true false is_fast all e = absurd (cc)
  may_switch false h is_fast all e = inr (ground (arith, is_fast), ground (arith, is_fast))

  candidate-Serves :
      (was_runnable : Bool)
      → Returns (λ _ k'. Serves k candidate k') (schedule_candidate was_runnable candidate k)
  unfolding schedule_candidate
  candidate-Serves was_runnable =
      let a : (candidate == 0) ≡ false = ground arith in
      let b : (k.cur_thread == 0) ≡ false = ground (arith, is.cur_thread) in
      let d : (k.idle_thread == 0) ≡ false = ground (arith, is.idle_thread) in
      let fastfail =
        (k.cur_thread == k.idle_thread) || ltb (k.priority candidate) (k.priority k.cur_thread) in
      let yield = was_runnable && (k.priority candidate == k.priority k.cur_thread) in
      rw (a, b, d)
        (Returns.bind (ask k is fastfail (k.priority candidate)) λ h k' (e, all).
          subst
            (λ s.
              Returns (λ _ k'. Serves k candidate k')
                (branches (fastfail && not h) yield candidate s))
            (sym e) (decide (fastfail && not h) yield (may_switch fastfail h refl all)))

module _ (k : Tasks) (is : IsSched k) where
  dispatch :
      (was_runnable : Bool)
      → k.scheduler_action ≢ 0
      → Returns
          (λ _ k'. Serves k k.scheduler_action k')
          ((if k.scheduler_action == choose_new_thread
              then schedule_choose_new_thread
              else schedule_candidate was_runnable k.scheduler_action)
            k)
  dispatch was_runnable ne = elim (Bool-cases (k.scheduler_action == 1)) [
    | inl e ↦
        let none : k.scheduler_action ≡ 1 = ground arith in
        rw e (
          mono (choose_new-Picks k is) λ _ k' p. record {
            sched = p.sched;
            others = p.others;
            chosen = λ n. absurd (n none);
            best = inl p.best;
            priority = p.priority;
          })
    | inr e ↦ rw e (candidate-Serves k is k.scheduler_action ne was_runnable)
  ]

-- What `schedule` decides. When the action is to resume, nothing changes. Else every thread that was
-- ready, a runnable current thread and a candidate are served, and no ready thread has a priority
-- above that of the new current thread, unless this is the candidate, and the thread before was
-- neither idle nor of a higher priority.
pub data Decided (k k' : Tasks) : Type 0 where
  resumed : k.scheduler_action ≡ 0 → k' ≡ k → Decided k k'
  switched :
      k.scheduler_action ≢ 0
      → ((x : ℕ) → k.tcb_queued x ≢ 0 → Served k' x)
      → (runnable (k.ts_type k.cur_thread) ≡ true → Served k' k.cur_thread)
      → (k.scheduler_action ≢ 1 → Served k' k.scheduler_action)
      → Best k'
        ⊎ ((k'.cur_thread ≡ k.scheduler_action)
            × (k.cur_thread ≢ k.idle_thread)
            × (k.priority k.cur_thread ≤ k.priority k.scheduler_action))
      → Decided k k'

module _ (k : Tasks) (is : IsSched k) where
  finish :
      {r : Run Tasks Skip}
      → (k.scheduler_action ≢ 0)
      → Returns
          (λ _ k'.
            Serves k k.scheduler_action k'
            × (runnable (k.ts_type k.cur_thread) ≡ true → Served k' k.cur_thread))
          r
      → Returns
          (λ _ k'. IsSched k' × (k'.scheduler_action ≡ 0) × Decided k k')
          (and_then r (λ _. set_action resume_current_thread))
  finish ne done =
      Returns.bind done λ _ k' (s, own).
        returns (acted k' s.sched 0, refl, switched ne s.others own s.chosen s.best)

  -- The current thread is put back into its queue first.
  requeued :
      (k1 : Tasks)
      → k.scheduler_action ≢ 0
      → IsSched k1 × SameButQueues k k1
      → Joined k k.cur_thread k1
      → Returns
          (λ _ k'.
            Serves k k.scheduler_action k'
            × (runnable (k.ts_type k.cur_thread) ≡ true → Served k' k.cur_thread))
          ((if k1.scheduler_action == choose_new_thread
              then schedule_choose_new_thread
              else schedule_candidate true k1.scheduler_action)
            k1)
  requeued k1 ne kept joined =
      let action = ap (λ (s : Tasks). s.scheduler_action) kept.1 in
      let priority = ap (λ (s : Tasks). s.priority) kept.1 in
      let cur = ap (λ (s : Tasks). s.cur_thread) kept.1 in
      let idle = ap (λ (s : Tasks). s.idle_thread) kept.1 in
      mono (dispatch k1 kept.0 true (ground arith)) λ _ k' s. (
        record {
          sched = s.sched;
          others = λ x q. s.others x (joined.1 x q);
          chosen = rw action at s.chosen;
          best = rw (action, priority, cur, idle) at s.best;
          priority = s.priority ∙ priority;
        },
        λ run. s.others k.cur_thread joined.0,
      )

  -- On well-formed memory, but for the switch of the address space, `schedule` returns with the memory
  -- well formed and the action reset. When the action is to resume the current thread, nothing changes.
  -- Else every thread that was ready, the current one if it is runnable, and the candidate if there is
  -- one, is the new current thread or in a ready queue; and no ready thread has a priority above that of
  -- the new current thread, unless this is the candidate, and the thread before was not the idle
  -- thread and had no higher priority.
  pub schedule-Decided :
      Returns (λ _ k'. IsSched k' × (k'.scheduler_action ≡ 0) × Decided k k') (schedule k)
  unfolding schedule
  schedule-Decided = elim (Bool-cases (k.scheduler_action == 0)) [
    | inl e ↦
        let z : k.scheduler_action ≡ 0 = ground arith in
        rw e (
          returns
            (acted k is 0, refl, resumed z (ap (λ a. record k { scheduler_action = a }) (sym z))))
    | inr e ↦
        let ne : k.scheduler_action ≢ 0 = ground arith in
        let b : (k.cur_thread == 0) ≡ false = ground (arith, is.cur_thread) in
        elim (Bool-cases (runnable (k.ts_type k.cur_thread))) [
          | inl f ↦
              rw (e, b, f)
                (finish ne (
                  Returns.bind (enqueue_joins k is k.cur_thread is.cur_thread)
                    λ _ k1 (kept, joined). requeued k1 ne kept joined))
          | inr f ↦
              rw (e, b, f)
                (finish ne (mono (dispatch k is false ne) λ _ k' s. (s, λ run. absurd (cc))))
        ]
  ]
