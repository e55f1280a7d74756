-- ===== src/Task/Scheduler/Steps.antt =====
-- The operations of sel4_task/src/scheduler.rs and tcb.rs on well-formed memory.
use mi_dev_integral_rel.Base.{
  ℕ, ◌<◌, ◌≤◌, ◌≡◌, ◌≢◌, ◌∙◌, refl, sym, ap, subst, true, false, ltb, leb, ◌+◌, ◌-◌, update, ◌==◌,
  arith, Bool-cases, inl, inr, if◌then◌else◌,
}
use mi_dev_integral_rel.Cmd.{Run, ◌>>◌}
use mi_dev_integral_rel.Task.ReadyQueue.{sched_append}
use mi_dev_integral_rel.Cmd.Returns
use mi_dev_integral_rel.Cmd.Returns.{Returns, returns, mono}
use mi_dev_integral_rel.Links.{has-ne_zero}
use mi_dev_integral_rel.Task.{Tasks}
use mi_dev_integral_rel.Task.Scheduler.{
  reschedule_required, possible_switch_to, switch_to_this, choose_thread, next_domain,
  schedule_choose_new_thread, timer_tick, is_running, dom_schedule_length, time_slice_max,
}
use mi_dev_integral_rel.Task.Scheduler.Choose.{IsChosen, first, idle, choose_thread-IsChosen}
use mi_dev_integral_rel.Task.Scheduler.Keep.{
  IsSched, enqueue_keeps, enqueue_joins, append_joins, dequeue_keeps,
}

-- A command that returns well-formed memory.
abbrev pub Safe : {A : Type 0} → Run Tasks A → Type 0
Safe = Returns (λ _ k'. IsSched k')

module _ (k : Tasks) (is : IsSched k) where
  -- The invariant does not read the action, the times or the states.
  pub acted : (a : ℕ) → IsSched (record k { scheduler_action = a })
  acted a = record {
    lists = is.lists;
    ready = record {
      queues = is.ready.queues;
      members = is.ready.members;
      queued = is.ready.queued;
      bitmap = is.ready.bitmap;
    };
    priorities = is.priorities;
    domains = is.domains;
    idle_thread = is.idle_thread;
    cur_thread = is.cur_thread;
    cur_domain = is.cur_domain;
  }

  pub switched : (t : ℕ) → t ≢ 0 → IsSched (record k { cur_thread = t })
  switched t ne = record {
    lists = is.lists;
    ready = record {
      queues = is.ready.queues;
      members = is.ready.members;
      queued = is.ready.queued;
      bitmap = is.ready.bitmap;
    };
    priorities = is.priorities;
    domains = is.domains;
    idle_thread = is.idle_thread;
    cur_thread = ne;
    cur_domain = is.cur_domain;
  }

  timed : (f : ℕ → ℕ) → IsSched (record k { time_slice = f })
  timed f = record {
    lists = is.lists;
    ready = record {
      queues = is.ready.queues;
      members = is.ready.members;
      queued = is.ready.queued;
      bitmap = is.ready.bitmap;
    };
    priorities = is.priorities;
    domains = is.domains;
    idle_thread = is.idle_thread;
    cur_thread = is.cur_thread;
    cur_domain = is.cur_domain;
  }

  pub renewed :
      (i : ℕ)
      → IsSched (record k {
        dom_schedule_idx = i;
        work_units_completed = 0;
        cur_domain = 0;
        domain_time = 60;
      })
  renewed i = record {
    lists = is.lists;
    ready = record {
      queues = is.ready.queues;
      members = is.ready.members;
      queued = is.ready.queued;
      bitmap = is.ready.bitmap;
    };
    priorities = is.priorities;
    domains = is.domains;
    idle_thread = is.idle_thread;
    cur_thread = is.cur_thread;
    cur_domain = refl;
  }

module _ (k : Tasks) (is : IsSched k) where
  pub switch_keeps : (t : ℕ) → t ≢ 0 → Safe (switch_to_this t k)
  unfolding switch_to_this
  switch_keeps t ne =
      Returns.bind (dequeue_keeps k is t) λ _ k' (i, same). returns (switched k' i t ne)

  -- The next thread is to be chosen anew; a candidate is queued, and all that were are.
  abbrev pub Rescheduled : Tasks → Type 0
  Rescheduled k' =
      (k'.scheduler_action ≡ 1)
      × (k'.cur_thread ≡ k.cur_thread)
      × (k'.time_slice ≡ k.time_slice)
      × (k.scheduler_action ≢ 0 → k.scheduler_action ≢ 1 → k'.tcb_queued k.scheduler_action ≢ 0)
      × ((x : ℕ) → k.tcb_queued x ≢ 0 → k'.tcb_queued x ≢ 0)

  pub reschedule_effect : Returns (λ _ k'. IsSched k' × Rescheduled k') (reschedule_required k)
  unfolding reschedule_required
  reschedule_effect = elim (Bool-cases (k.scheduler_action == 0)) [
    | inl e ↦
        let z : k.scheduler_action ≡ 0 = ground arith in
        rw e (returns (acted k is 1, (refl, refl, refl, (λ n m. absurd (n z)), λ x q. q)))
    | inr e ↦ elim (Bool-cases (k.scheduler_action == 1)) [
      | inl f ↦
          let z : k.scheduler_action ≡ 1 = ground arith in
          rw (e, f) (returns (acted k is 1, (refl, refl, refl, (λ n m. absurd (m z)), λ x q. q)))
      | inr f ↦
          rw (e, f)
            (Returns.bind (enqueue_joins k is k.scheduler_action (ground arith))
              λ _ k' (kept, joined). returns (
                acted k' kept.0 1,
                (
                  refl,
                  ap (λ (s : Tasks). s.cur_thread) kept.1,
                  ap (λ (s : Tasks). s.time_slice) kept.1,
                  (λ n m. joined.0),
                  joined.1,
                ),
              ))
    ]
  ]

  pub reschedule_keeps :
      Returns (λ _ k'. IsSched k' × (k'.scheduler_action ≡ 1)) (reschedule_required k)
  reschedule_keeps = mono reschedule_effect (λ _ k' (i, effect). (i, effect.0))

  pub chosen_keeps : (k' : Tasks) → IsChosen k is.lists k' → IsSched k'
  chosen_keeps k' (first p t ys best e cur r d) = record {
    lists = update is.lists p ys;
    ready = r;
    priorities = λ t.
        subst (λ (f : ℕ → ℕ). f t < 256) (sym (ap (λ (s : Tasks). s.priority) d.rest))
          (is.priorities t);
    domains = λ t.
        subst (λ (f : ℕ → ℕ). f t ≡ 0) (sym (ap (λ (s : Tasks). s.domain) d.rest)) (is.domains t);
    idle_thread = rw (ap (λ (s : Tasks). s.idle_thread) d.rest) is.idle_thread;
    cur_thread =
        let l = is.ready.queues p best.small in
        rw cur (
          has-ne_zero k.sched_next k.sched_prev 0 (k.ready_queues p).head (is.lists p)
            (k.ready_queues p).tail 0 t l.seg (rw e (ground arith)));
    cur_domain = ap (λ (s : Tasks). s.cur_domain) d.rest ∙ is.cur_domain;
  }
  chosen_keeps k' (idle all e) = subst IsSched (sym e) (switched k is k.idle_thread is.idle_thread)

  choose_keeps : Safe (choose_thread k)
  choose_keeps =
      mono (choose_thread-IsChosen k is.lists is.ready is.idle_thread) (λ _ k' c. chosen_keeps k' c)

module _ (k : Tasks) (is : IsSched k) where
  pub choose_new_keeps : Safe (schedule_choose_new_thread k)
  unfolding schedule_choose_new_thread next_domain
  choose_new_keeps = elim (Bool-cases (k.domain_time == 0)) [
    | inl e ↦
        let i =
          if leb dom_schedule_length (k.dom_schedule_idx + 1) then 0 else k.dom_schedule_idx + 1 in
        rw e (
          choose_keeps
            (record k {
              dom_schedule_idx = i;
              work_units_completed = 0;
              cur_domain = 0;
              domain_time = 60;
            })
            (renewed k is i))
    | inr e ↦ rw e (choose_keeps k is)
  ]

  -- On well-formed memory, making a thread the next candidate returns with the memory well formed.
  pub possible_switch_to-IsSched :
      (t : ℕ) → t ≢ 0 → Returns (λ _ k'. IsSched k') (possible_switch_to t k)
  unfolding possible_switch_to
  possible_switch_to-IsSched t ne =
      let same_domain : (k.cur_domain == k.domain t) ≡ true =
        ground (arith, is.cur_domain, is.domains t) in
      rw same_domain (elim (Bool-cases (k.scheduler_action == 0)) [
        | inl e ↦ rw e (returns (acted k is t))
        | inr e ↦ rw e (
            Returns.bind (reschedule_keeps k is)
              λ _ k' (i, a). mono (enqueue_keeps k' i t ne) (λ _ k'' (j, same). j))
      ])

-- What a tick does to the current thread: nothing when it does not run; one less of its time when it
-- has more than one left; else its time is renewed, it is in a ready queue, as a waiting candidate is,
-- and the next thread is to be chosen.
pub data Ticked (k k' : Tasks) : Type 0 where
  rests : is_running (k.ts_type k.cur_thread) ≡ false → k' ≡ k → Ticked k k'
  counts :
      is_running (k.ts_type k.cur_thread) ≡ true
      → 1 < k.time_slice k.cur_thread
      → k'
        ≡ record k { time_slice = update k.time_slice k.cur_thread (k.time_slice k.cur_thread - 1) }
      → Ticked k k'
  ends :
      is_running (k.ts_type k.cur_thread) ≡ true
      → k.time_slice k.cur_thread ≤ 1
      → k'.time_slice ≡ update k.time_slice k.cur_thread time_slice_max
      → k'.cur_thread ≡ k.cur_thread
      → k'.tcb_queued k.cur_thread ≢ 0
      → (k.scheduler_action ≢ 0 → k.scheduler_action ≢ 1 → k'.tcb_queued k.scheduler_action ≢ 0)
      → k'.scheduler_action ≡ 1
      → Ticked k k'

module _ (k : Tasks) (is : IsSched k) where
  -- The end of the current thread's time.
  renewed_turn :
      is_running (k.ts_type k.cur_thread) ≡ true
      → k.time_slice k.cur_thread ≤ 1
      → Returns
          (λ _ k'. IsSched k' × Ticked k k')
          ((do sched_append k.cur_thread; reschedule_required)
            (record k { time_slice = update k.time_slice k.cur_thread time_slice_max }))
  renewed_turn runs out =
      let f = update k.time_slice k.cur_thread time_slice_max in
      Returns.bind
        (append_joins (record k { time_slice = f }) (timed k is f) k.cur_thread is.cur_thread)
        λ _ k1 (kept, joined).
          let action = ap (λ (s : Tasks). s.scheduler_action) kept.1 in
          mono (reschedule_effect k1 kept.0) λ _ k2 (i, effect). (
            i,
            ends runs out (effect.2 ∙ ap (λ (s : Tasks). s.time_slice) kept.1)
                (effect.1 ∙ ap (λ (s : Tasks). s.cur_thread) kept.1)
                (effect.4 k.cur_thread joined.0)
                (λ n m.
                  subst (λ a. k2.tcb_queued a ≢ 0) action
                    (effect.3 (λ z. n (sym action ∙ z)) (λ z. m (sym action ∙ z))))
                effect.0,
          )

  -- On well-formed memory, `timer_tick` returns with the memory well formed: a current thread that does
  -- not run is left as it is; one with more than one tick left has one less; the time of another is
  -- renewed, it is in a ready queue, as is a candidate that was to be the next thread, and the next
  -- thread is to be chosen.
  pub timer_tick-Ticked : Returns (λ _ k'. IsSched k' × Ticked k k') (timer_tick k)
  unfolding timer_tick
  timer_tick-Ticked =
      let b : (k.cur_thread == 0) ≡ false = ground (arith, is.cur_thread) in
      elim (Bool-cases (is_running (k.ts_type k.cur_thread))) [
        | inl e ↦ elim (Bool-cases (ltb 1 (k.time_slice k.cur_thread))) [
          | inl f ↦
              rw (b, e, f)
                (returns (
                  timed k is (update k.time_slice k.cur_thread (k.time_slice k.cur_thread - 1)),
                  counts e (ground (arith, f)) refl,
                ))
          | inr f ↦ rw (b, e, f) (renewed_turn e (ground (arith, f)))
        ]
        | inr e ↦ rw (b, e) (returns (is, rests e refl))
      ]
