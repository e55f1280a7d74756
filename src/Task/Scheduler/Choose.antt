-- ===== src/Task/Scheduler/Choose.antt =====
-- The scheduler's choice: the first thread of the highest ready priority, or the idle thread.
use mi_dev_integral_rel.Base.{
  ℕ, ◌<◌, ◌≡◌, ◌≢◌, refl, ap, subst, true, false, ltb, List, [], ◌∷◌, ◌==◌, update, arith,
  Bool-cases, inl, inr,
}
use mi_dev_integral_rel.Cmd.{convert, ◌>>◌}
use mi_dev_integral_rel.Links.Lists.{IsList}
use mi_dev_integral_rel.Cmd.Returns
use mi_dev_integral_rel.Cmd.Returns.{Returns, returns}
use mi_dev_integral_rel.Task.{Tasks}
use mi_dev_integral_rel.Task.Bitmap.Levels.{IsHighest, top-IsHighest}
use mi_dev_integral_rel.Task.Bitmap.Words.{top, highest_run, l1_bitmap-eq_zero}
use mi_dev_integral_rel.Task.ReadyQueue.{ready_queues_index, get_sched_queue, sched_dequeue}
use mi_dev_integral_rel.Task.ReadyQueue.Ready.{busy, IsReady}
use mi_dev_integral_rel.Task.ReadyQueue.Dequeue.{Dequeued, without}
use mi_dev_integral_rel.Task.ReadyQueue.Remove.{sched_dequeue-without}
use mi_dev_integral_rel.Task.Scheduler.{choose_thread, switch_to_this}

-- What is chosen, and how memory is left.
pub data IsChosen (k : Tasks) (lists : ℕ → List ℕ) (k' : Tasks) : Type 0 where
  first :
      (p t : ℕ) (ys : List ℕ)
      → IsHighest (λ q. busy (lists q)) p
      → lists p ≡ t ∷ ys
      → k'.cur_thread ≡ t
      → IsReady k' (update lists p ys)
      → Dequeued k t (record k' { cur_thread = k.cur_thread })
      → IsChosen k lists k'
  idle :
      ((p : ℕ) → p < 256 → lists p ≡ [])
      → k' ≡ record k { cur_thread = k.idle_thread }
      → IsChosen k lists k'

-- A list that is busy has a first thread.
busy-cons : (xs : List ℕ) → busy xs ≡ true → (x : ℕ) × (ys : List ℕ) × (xs ≡ x ∷ ys)
busy-cons [] b = absurd (cc)
busy-cons (x ∷ xs) b = (x, xs, refl)

pub busy-nil : (xs : List ℕ) → busy xs ≡ false → xs ≡ []
busy-nil [] b = refl
busy-nil (x ∷ xs) b = absurd (cc)

module _ (k : Tasks) (lists : ℕ → List ℕ) (is : IsReady k lists) where
  -- The current thread is no part of the invariant.
  pub moved :
      (t : ℕ) (k' : Tasks) (lists' : ℕ → List ℕ)
      → IsReady k' lists'
      → IsReady (record k' { cur_thread = t }) lists'
  moved t k' lists' r = record {
    queues = r.queues;
    members = r.members;
    queued = r.queued;
    bitmap = r.bitmap;
  }

  switch_first :
      (p t : ℕ) (ys : List ℕ)
      → IsHighest (λ q. busy (lists q)) p
      → lists p ≡ t ∷ ys
      → Returns (λ _ k'. IsChosen k lists k') (switch_to_this t k)
  unfolding switch_to_this
  switch_first p t ys best e =
      let (q, prio, dom) = is.members p t best.small (ground (arith, e)) in
      Returns.bind (sched_dequeue-without k lists is t [] ys (omega arith) dom q (rw prio e))
        λ _ k' (r, d). returns (
          first p t ys best e refl
            (subst (λ q. IsReady (record k' { cur_thread = t }) (update lists q ys)) prio
              (moved t k' (without k lists t [] ys) r))
            (record {
              nexts = d.nexts;
              prevs = d.prevs;
              heads = d.heads;
              tails = d.tails;
              marks = d.marks;
              rest = ap {A = Tasks} (λ s. record s { cur_thread = k.cur_thread }) d.rest;
            }))

  -- With every queue empty no thread is marked as queued.
  all_unqueued : ((p : ℕ) → p < 256 → busy (lists p) ≡ false) → (t : ℕ) → k.tcb_queued t ≡ 0
  all_unqueued all t = elim (Bool-cases (k.tcb_queued t == 0)) [
    | inl e ↦ ground arith
    | inr e ↦
        let (small, dom, i) = is.queued t (ground arith) in
        let no = busy-nil (lists (k.priority t)) (all (k.priority t) small) in
        absurd (ground (arith, i, no))
  ]

  switch_idle :
      ((p : ℕ) → p < 256 → busy (lists p) ≡ false)
      → Returns (λ _ k'. IsChosen k lists k') (switch_to_this k.idle_thread k)
  unfolding switch_to_this sched_dequeue
  switch_idle all =
      rw (all_unqueued all k.idle_thread)
        (returns (idle (λ p h. busy-nil (lists p) (all p h)) refl))

  switch_highest :
      k.l1_bitmap 0 ≢ 0
      → Returns
          (λ _ k'. IsChosen k lists k')
          ((do
            get_sched_queue (ready_queues_index 0 (top k))
            convert (k.ready_queues (ready_queues_index 0 (top k))).head
            switch_to_this (k.ready_queues (ready_queues_index 0 (top k))).head)
            k)
  switch_highest ne =
      let best = top-IsHighest (k.l1_bitmap 0) (k.l2_bitmap 0) (λ q. busy (lists q)) is.bitmap ne in
      let (t, ys, e) = busy-cons (lists (top k)) best.member in
      let index : ready_queues_index 0 (top k) ≡ top k = omega arith in
      let inside : ltb (top k) 256 ≡ true = ground (arith, best.small) in
      let l : IsList k.sched_next k.sched_prev (k.ready_queues (top k)).head (t ∷ ys)
          (k.ready_queues (top k)).tail =
        rw e at (is.queues (top k) best.small) in
      let head : (k.ready_queues (top k)).head ≡ t = l.seg.0 in
      let not_null : (t == 0) ≡ false = ground (arith, l.seg.1) in
      rw (index, inside, head, not_null) (switch_first (top k) t ys best e)

  -- On well-formed ready queues, with an idle thread, the choice returns: the current thread is now
  -- the first of the highest ready priority, taken out of its queue, or, when every queue is empty,
  -- the idle thread.
  pub choose_thread-IsChosen :
      k.idle_thread ≢ 0 → Returns (λ _ k'. IsChosen k lists k') (choose_thread k)
  unfolding choose_thread
  choose_thread-IsChosen ne = elim (Bool-cases (k.l1_bitmap 0 == 0)) [
    | inl e ↦
        let idle_test : (k.idle_thread == 0) ≡ false = ground arith in
        rw (e, idle_test)
          (switch_idle (l1_bitmap-eq_zero k (λ q. busy (lists q)) is.bitmap (ground arith)))
    | inr e ↦
        let ne' : k.l1_bitmap 0 ≢ 0 = ground arith in
        rw (e, highest_run k (λ q. busy (lists q)) is.bitmap ne') (switch_highest ne')
  ]
