-- ===== src/Task/ReadyQueue/Remove.antt =====
-- What `sched_dequeue` does to the ready queues.
use mi_dev_integral_rel.Base.{
  ℕ, ◌<◌, ◌≡◌, ◌≢◌, refl, ap, subst, fun_ext, Bool, true, false, ◌||◌, ltb, List, [], ◌∷◌, ◌++◌,
  ◌==◌, has, update, arith, Bool-cases, inl, inr,
}
use mi_dev_integral_rel.Cmd.{Skip, ok}
use mi_dev_integral_rel.Cmd.Returns.{Returns, returns}
use mi_dev_integral_rel.Links.Lists.{Around}
use mi_dev_integral_rel.Links.Relink.{last-eq_zero, first-eq_zero}
use mi_dev_integral_rel.Task.{Tasks}
use mi_dev_integral_rel.Task.Bitmap.{remove_from_bitmap}
use mi_dev_integral_rel.Task.Bitmap.Words.{Bitmap, removed, remove_run, removed-Bitmap}
use mi_dev_integral_rel.Task.ReadyQueue.{ready_queues_index, sched_dequeue}
use mi_dev_integral_rel.Task.ReadyQueue.Ready.{busy, IsReady}
use mi_dev_integral_rel.Task.ReadyQueue.Dequeue.{without, Dequeued, own, dequeued-IsReady}

busy-append : (xs ys : List ℕ) → busy (xs ++ ys) ≡ (busy xs || busy ys)
busy-append [] ys = refl
busy-append (x ∷ xs) ys = refl

has-busy : (xs : List ℕ) (x : ℕ) → has x xs ≡ true → busy xs ≡ true
has-busy [] x i = absurd (cc)
has-busy (y ∷ ys) x i = refl

module _ (k : Tasks) (lists : ℕ → List ℕ) (is : IsReady k lists) (t : ℕ) (xs ys : List ℕ)
    (small : k.priority t < 256) (dom : k.domain t ≡ 0) (marked : k.tcb_queued t ≢ 0)
    (listed : lists (k.priority t) ≡ xs ++ t ∷ ys) where
  abbrev ready : ℕ → Bool
  ready p = busy (lists p)

  abbrev around_t :
      Around k.sched_next k.sched_prev
        (k.ready_queues (k.priority t)).head
        t
        xs
        ys
        (k.ready_queues (k.priority t)).tail
  around_t = own k lists is t xs ys small listed

  own_index : ready_queues_index (k.domain t) (k.priority t) ≡ k.priority t
  own_index = omega arith

  inside : ltb (k.priority t) 256 ≡ true
  inside = ground arith

  queued_test : (k.tcb_queued t == 0) ≡ false
  queued_test = ground arith

  abbrev Result : Skip → Tasks → Type 0
  Result _ k' = IsReady k' (without k lists t xs ys) × Dequeued k t k'

  finish :
      {k' : Tasks}
      → Dequeued k t k'
      → Bitmap k' (λ p. busy (without k lists t xs ys p))
      → Returns Result (ok tt k')
  finish e bm = returns (dequeued-IsReady k lists is t xs ys small listed _ e bm, e)

  first_eq : (k.sched_prev t ≡ 0 → xs ≡ []) × (k.sched_prev t ≢ 0 → has (k.sched_prev t) xs ≡ true)
  first_eq =
      last-eq_zero k.sched_next k.sched_prev (k.ready_queues (k.priority t)).head xs
        (k.sched_prev t) t around_t.left

  last_eq : (k.sched_next t ≡ 0 → ys ≡ []) × (k.sched_next t ≢ 0 → has (k.sched_next t) ys ≡ true)
  last_eq =
      first-eq_zero k.sched_next k.sched_prev t (k.sched_next t) ys
        (k.ready_queues (k.priority t)).tail around_t.right

  -- The queue stays in the bitmap when a neighbour is left.
  still_busy : (busy xs || busy ys) ≡ true → Bitmap k (λ p. busy (without k lists t xs ys p))
  still_busy b =
      subst (Bitmap k)
        (fun_ext λ p. ground (arith, busy-append xs ys, busy-append xs (t ∷ ys), ap busy listed))
        is.bitmap

  -- Memory once the queue's head is the thread behind `t`.
  abbrev headed : Tasks
  headed = record k {
    ready_queues =
        update k.ready_queues (k.priority t)
          (record (k.ready_queues (k.priority t)) { head = k.sched_next t });
  }

  remove_head_run :
      remove_from_bitmap 0 (k.priority t) headed ≡ ok tt (removed headed (k.priority t))
  remove_head_run = remove_run headed ready is.bitmap (k.priority t) small

  emptied :
      k.sched_prev t ≡ 0
      → k.sched_next t ≡ 0
      → Bitmap (removed headed (k.priority t)) (λ p. busy (without k lists t xs ys p))
  emptied e e' =
      subst (Bitmap (removed headed (k.priority t)))
        (fun_ext λ p. ground (arith, first_eq.0, last_eq.0, busy-append xs ys))
        (removed-Bitmap headed ready is.bitmap (k.priority t) small)

  -- `t` is not its own neighbour, or its link is read again as it was.
  reread : update k.sched_next (k.sched_prev t) (k.sched_next t) t ≡ k.sched_next t
  reread = ground arith

  left_busy : (k.sched_prev t == 0) ≡ false → (busy xs || busy ys) ≡ true
  left_busy e = ground (arith, first_eq.1, has-busy xs (k.sched_prev t))

  right_busy : (k.sched_next t == 0) ≡ false → (busy xs || busy ys) ≡ true
  right_busy e = ground (arith, last_eq.1, has-busy ys (k.sched_next t))

  -- Dequeueing a thread of the ready queue of its priority returns, without a panic, memory in which
  -- that queue has lost this thread and the invariant of the ready queues holds.
  pub sched_dequeue-without : Returns Result (sched_dequeue t k)
  unfolding sched_dequeue
  sched_dequeue-without = elim (Bool-cases (k.sched_prev t == 0)) [
    | inl e ↦ elim (Bool-cases (k.sched_next t == 0)) [
      | inl e' ↦
          rw (queued_test, own_index, inside, e, e', dom, remove_head_run, e')
            (finish
              (record {
                nexts = λ x. ground arith;
                prevs = λ x. ground arith;
                heads = λ p. ground arith;
                tails = λ p. ground arith;
                marks = λ x. refl;
                rest = refl;
              })
              (emptied (ground arith) (ground arith)))
      | inr e' ↦
          rw (queued_test, own_index, inside, e, e', e')
            (finish
              (record {
                nexts = λ x. ground arith;
                prevs = λ x. ground arith;
                heads = λ p. ground arith;
                tails = λ p. ground arith;
                marks = λ x. refl;
                rest = refl;
              })
              (still_busy (right_busy e')))
    ]
    | inr e ↦ elim (Bool-cases (k.sched_next t == 0)) [
      | inl e' ↦
          rw (queued_test, own_index, inside, e, reread, e')
            (finish
              (record {
                nexts = λ x. ground arith;
                prevs = λ x. ground arith;
                heads = λ p. ground arith;
                tails = λ p. ground arith;
                marks = λ x. refl;
                rest = refl;
              })
              (still_busy (left_busy e)))
      | inr e' ↦
          rw (queued_test, own_index, inside, e, reread, e')
            (finish
              (record {
                nexts = λ x. ground arith;
                prevs = λ x. ground arith;
                heads = λ p. ground arith;
                tails = λ p. ground arith;
                marks = λ x. refl;
                rest = refl;
              })
              (still_busy (left_busy e)))
    ]
  ]
