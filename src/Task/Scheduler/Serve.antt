-- ===== src/Task/Scheduler/Serve.antt =====
-- Which thread the choice and the switch of sel4_task/src/scheduler.rs and tcb.rs end with, and which
-- threads are in the ready queues then.
use mi_dev_integral_rel.Base.{
  ℕ, ◌<◌, ◌≤◌, ◌≡◌, ◌≢◌, ◌⊎◌, ◌∙◌, refl, sym, ap, true, leb, ◌+◌, List, [], ◌∷◌, has, ◌==◌, arith,
  Bool-cases, inl, inr, if◌then◌else◌,
}
use mi_dev_integral_rel.Cmd.{◌>>◌}
use mi_dev_integral_rel.Cmd.Returns
use mi_dev_integral_rel.Cmd.Returns.{Returns, returns, mono}
use mi_dev_integral_rel.Task.{Tasks}
use mi_dev_integral_rel.Task.ReadyQueue.Ready.{busy}
use mi_dev_integral_rel.Task.Scheduler.{
  switch_to_this, choose_thread, next_domain, schedule_choose_new_thread, set_action,
  choose_new_thread, dom_schedule_length,
}
use mi_dev_integral_rel.Task.Scheduler.Choose.{IsChosen, first, idle, choose_thread-IsChosen}
use mi_dev_integral_rel.Task.Scheduler.Keep.{IsSched, dequeue_leaves, Joined, SameButQueues}
use mi_dev_integral_rel.Task.Scheduler.Steps.{acted, switched, renewed, chosen_keeps}

-- No ready thread has a priority above that of the current thread.
abbrev pub Best : Tasks → Type 0
Best k' = (x : ℕ) → k'.tcb_queued x ≢ 0 → k'.priority x ≤ k'.priority k'.cur_thread

-- The thread `x` is served: it is the current thread or in a ready queue.
abbrev pub Served : Tasks → ℕ → Type 0
Served k' x = (k'.cur_thread ≡ x) ⊎ (k'.tcb_queued x ≢ 0)

-- From the memory `k` the current thread becomes a best one, and all ready threads are served.
pub record Picks (k k' : Tasks) : Type 0 where
  pub sched : IsSched k'
  pub others : (x : ℕ) → k.tcb_queued x ≢ 0 → Served k' x
  pub best : Best k'
  pub priority : k'.priority ≡ k.priority

-- The same with a candidate, which may become the current thread: only without a search when the
-- thread before is not the idle one and has no higher priority.
pub record Serves (k : Tasks) (candidate : ℕ) (k' : Tasks) : Type 0 where
  pub sched : IsSched k'
  pub others : (x : ℕ) → k.tcb_queued x ≢ 0 → Served k' x
  pub chosen : candidate ≢ choose_new_thread → Served k' candidate
  pub best :
      Best k'
      ⊎ ((k'.cur_thread ≡ candidate)
          × (k.cur_thread ≢ k.idle_thread)
          × (k.priority k.cur_thread ≤ k.priority candidate))
  pub priority : k'.priority ≡ k.priority

has-busy : (x : ℕ) (xs : List ℕ) → has x xs ≡ true → busy xs ≡ true
has-busy x [] i = absurd (cc)
has-busy x (y ∷ ys) i = refl

module _ (k : Tasks) (is : IsSched k) where
  -- A bound on the priorities of the busy queues bounds those of the queued threads.
  queued-le :
      (p x : ℕ)
      → ((q : ℕ) → q < 256 → busy (is.lists q) ≡ true → q ≤ p)
      → k.tcb_queued x ≢ 0
      → k.priority x ≤ p
  queued-le p x all q =
      let (small, dom, i) = is.ready.queued x q in
      all (k.priority x) small (has-busy x (is.lists (k.priority x)) i)

  chosen-Picks : (k' : Tasks) → IsChosen k is.lists k' → Picks k k'
  chosen-Picks k' (first p t ys best e cur r d) =
      let same = ap (λ (s : Tasks). s.priority) d.rest in
      let at : k.priority t ≡ p = (is.ready.members p t best.small (ground (arith, e))).1 in
      record {
        sched = chosen_keeps k is k' (first p t ys best e cur r d);
        others = λ x q. elim (Bool-cases (x == t)) [
          | inl f ↦ let here : t ≡ x = ground arith in inl (cur ∙ here)
          | inr f ↦ inr (ground (arith, d.marks x, q))
        ];
        best =
            λ x q. rw (same, cur, at) (queued-le p x best.highest (ground (arith, d.marks x, q)));
        priority = same;
      }
  chosen-Picks k' (idle all e) =
      let none : (x : ℕ) → k.tcb_queued x ≡ 0 = λ x. elim (Bool-cases (k.tcb_queued x == 0)) [
        | inl f ↦ ground arith
        | inr f ↦
            let (small, dom, i) = is.ready.queued x (ground arith) in
            absurd (ground (arith, i, all (k.priority x) small))
      ] in
      let marks = ap (λ (s : Tasks). s.tcb_queued) e in
      record {
        sched = chosen_keeps k is k' (idle all e);
        others = λ x q. absurd (q (none x));
        best = λ x q. absurd (q (ap (λ (f : ℕ → ℕ). f x) marks ∙ none x));
        priority = ap (λ (s : Tasks). s.priority) e;
      }

  choose-Picks : Returns (λ _ k'. Picks k k') (choose_thread k)
  choose-Picks =
      mono (choose_thread-IsChosen k is.lists is.ready is.idle_thread) (λ _ k' c. chosen-Picks k' c)

module _ (k : Tasks) (is : IsSched k) where
  pub choose_new-Picks : Returns (λ _ k'. Picks k k') (schedule_choose_new_thread k)
  unfolding schedule_choose_new_thread next_domain
  choose_new-Picks = elim (Bool-cases (k.domain_time == 0)) [
    | inl e ↦
        let i =
          if leb dom_schedule_length (k.dom_schedule_idx + 1) then 0 else k.dom_schedule_idx + 1 in
        rw e (
          mono
            (choose-Picks
              (record k {
                dom_schedule_idx = i;
                work_units_completed = 0;
                cur_domain = 0;
                domain_time = 60;
              })
              (renewed k is i))
            (λ _ k' p. record {
              sched = p.sched;
              others = p.others;
              best = p.best;
              priority = p.priority;
            }))
    | inr e ↦ rw e (choose-Picks k is)
  ]

  -- The candidate is switched to.
  pub direct-Serves :
      (t : ℕ)
      → t ≢ 0
      → ((q : ℕ) → q < 256 → busy (is.lists q) ≡ true → q ≤ k.priority t)
        ⊎ ((k.cur_thread ≢ k.idle_thread) × (k.priority k.cur_thread ≤ k.priority t))
      → Returns (λ _ k'. Serves k t k') (switch_to_this t k)
  unfolding switch_to_this
  direct-Serves t ne why = Returns.bind (dequeue_leaves k is t) λ _ k1 (kept, left).
      let same = ap (λ (s : Tasks). s.priority) kept.1 in
      returns (record {
        sched = switched k1 kept.0 t ne;
        others = λ x q. elim (left.0 x q) [ inl e ↦ inl (sym e) | inr out ↦ inr out ];
        chosen = λ n. inl refl;
        best = elim why [
          | inl all ↦ inl (λ x q. rw same (queued-le k is (k.priority t) x all (left.1 x q)))
          | inr w ↦ inr (refl, w.0, w.1)
        ];
        priority = same;
      })

module _ (k : Tasks) (is : IsSched k) where
  -- The candidate is put into its queue, and the thread chosen anew.
  pub after_join :
      (t : ℕ) (k1 : Tasks)
      → IsSched k1 × SameButQueues k k1
      → Joined k t k1
      → Returns
          (λ _ k'. Serves k t k')
          ((do set_action choose_new_thread; schedule_choose_new_thread) k1)
  after_join t k1 kept joined =
      mono (choose_new-Picks (record k1 { scheduler_action = 1 }) (acted k1 kept.0 1)) λ _ k' p.
        record {
          sched = p.sched;
          others = λ x q. p.others x (joined.1 x q);
          chosen = λ n. p.others t joined.0;
          best = inl p.best;
          priority = p.priority ∙ ap (λ (s : Tasks). s.priority) kept.1;
        }
