-- ===== src/Task/ReadyQueue/Dequeue.antt =====
-- Dequeueing a thread takes it out of the ready queue of its priority.
use mi_dev_integral_rel.Base.{
  ℕ, ◌<◌, ◌≡◌, ◌≢◌, ap, true, ◌||◌, List, ◌∷◌, ◌++◌, ◌==◌, has, update, has-append, arith,
  if◌then◌else◌, Bool-cases, inl, inr,
}
use mi_dev_integral_rel.Links.{frame}
use mi_dev_integral_rel.Links.Lists.{remove, Around, around}
use mi_dev_integral_rel.Links.Relink.{relink, last-eq_zero, first-eq_zero}
use mi_dev_integral_rel.Task.{Tasks}
use mi_dev_integral_rel.Task.Bitmap.Words.{Bitmap}
use mi_dev_integral_rel.Task.ReadyQueue.Ready.{busy, Queues, IsReady, other_list}

-- The queues with `t` taken out of its own, between `xs` and `ys`.
abbrev pub without : Tasks → (ℕ → List ℕ) → ℕ → List ℕ → List ℕ → ℕ → List ℕ
without k lists t xs ys = update lists (k.priority t) (xs ++ ys)

-- What dequeueing the thread `t` does to memory.
pub record Dequeued (k : Tasks) (t : ℕ) (k' : Tasks) : Type 0 where
  pub nexts : (x : ℕ) → k'.sched_next x ≡ relink k.sched_next (k.sched_prev t) (k.sched_next t) x
  pub prevs : (x : ℕ) → k'.sched_prev x ≡ relink k.sched_prev (k.sched_next t) (k.sched_prev t) x
  pub heads :
      (p : ℕ)
      → (k'.ready_queues p).head ≡ (
          if p == k.priority t
          then (if k.sched_prev t == 0 then k.sched_next t else (k.ready_queues p).head)
          else (k.ready_queues p).head)
  pub tails :
      (p : ℕ)
      → (k'.ready_queues p).tail ≡ (
          if p == k.priority t
          then (if k.sched_next t == 0 then k.sched_prev t else (k.ready_queues p).tail)
          else (k.ready_queues p).tail)
  pub marks : (x : ℕ) → k'.tcb_queued x ≡ update k.tcb_queued t 0 x
  pub rest :
      record k' {
        sched_next = k.sched_next;
        sched_prev = k.sched_prev;
        ready_queues = k.ready_queues;
        tcb_queued = k.tcb_queued;
        l1_bitmap = k.l1_bitmap;
        l2_bitmap = k.l2_bitmap;
      }
      ≡ k

module _ (k : Tasks) (lists : ℕ → List ℕ) (is : IsReady k lists) (t : ℕ) (xs ys : List ℕ)
    (small : k.priority t < 256) (listed : lists (k.priority t) ≡ xs ++ t ∷ ys) where
  pub own :
      Around k.sched_next k.sched_prev
        (k.ready_queues (k.priority t)).head
        t
        xs
        ys
        (k.ready_queues (k.priority t)).tail
  own =
      around k.sched_next k.sched_prev (k.ready_queues (k.priority t)).head t xs ys
        (k.ready_queues (k.priority t)).tail (rw listed at (is.queues (k.priority t) small))

  -- Where the other threads of the queue are.
  has_own : (x : ℕ) → has x (lists (k.priority t)) ≡ (has x xs || has x (t ∷ ys))
  has_own x = rw listed (has-append x xs (t ∷ ys))

  -- The neighbours of `t` are threads of its own queue.
  prev_own : k.sched_prev t ≢ 0 → has (k.sched_prev t) (lists (k.priority t)) ≡ true
  prev_own ne = ground (
    arith,
    has_own (k.sched_prev t),
    (last-eq_zero k.sched_next k.sched_prev (k.ready_queues (k.priority t)).head xs (k.sched_prev t)
          t own.left).1
        ne,
  )

  next_own : k.sched_next t ≢ 0 → has (k.sched_next t) (lists (k.priority t)) ≡ true
  next_own ne = ground (
    arith,
    has_own (k.sched_next t),
    (first-eq_zero k.sched_next k.sched_prev t (k.sched_next t) ys
          (k.ready_queues (k.priority t)).tail own.right).1
        ne,
  )

  module _ (k' : Tasks) (e : Dequeued k t k') where
    own_queue : Queues k' (without k lists t xs ys) (k.priority t)
    own_queue =
        let p = k.priority t in
        let q = k.ready_queues p in
        let r =
          remove k.sched_next k.sched_prev q.head t xs ys q.tail
            (rw listed at (is.queues p small)) in
        let s =
          frame (relink k.sched_next (k.sched_prev t) (k.sched_next t))
            (relink k.sched_prev (k.sched_next t) (k.sched_prev t)) k'.sched_next k'.sched_prev 0
            (if k.sched_prev t == 0 then k.sched_next t else q.head) (xs ++ ys)
            (if k.sched_next t == 0 then k.sched_prev t else q.tail) 0 r.seg (λ x i. e.nexts x)
            (λ x i. e.prevs x) in
        let eh : (k'.ready_queues p).head
            ≡ (if k.sched_prev t == 0 then k.sched_next t else q.head) =
          ground (arith, e.heads p) in
        let et : (k'.ready_queues p).tail
            ≡ (if k.sched_next t == 0 then k.sched_prev t else q.tail) =
          ground (arith, e.tails p) in
        let el : without k lists t xs ys p ≡ xs ++ ys = ground arith in
        rw (eh, et, el) (record { seg = s; distinct = r.distinct })

    other_queue : (p : ℕ) → p < 256 → p ≢ k.priority t → Queues k' (without k lists t xs ys) p
    other_queue p h np =
        let l = is.queues p h in
        let s =
          frame k.sched_next k.sched_prev k'.sched_next k'.sched_prev 0 (k.ready_queues p).head
            (lists p) (k.ready_queues p).tail 0 l.seg
            (λ x i.
              ground
                (arith, e.nexts x, prev_own, other_list k lists is p (k.priority t) x h small np i))
            (λ x i. ground (
              arith,
              e.prevs x,
              next_own,
              other_list k lists is p (k.priority t) x h small np i,
            )) in
        let eh : (k'.ready_queues p).head ≡ (k.ready_queues p).head = ground (arith, e.heads p) in
        let et : (k'.ready_queues p).tail ≡ (k.ready_queues p).tail = ground (arith, e.tails p) in
        let el : without k lists t xs ys p ≡ lists p = ground arith in
        rw (eh, et, el) (record { seg = s; distinct = l.distinct })

    same_priority : (x : ℕ) → k'.priority x ≡ k.priority x
    same_priority x = ap (λ (s : Tasks). s.priority x) e.rest

    same_domain : (x : ℕ) → k'.domain x ≡ k.domain x
    same_domain x = ap (λ (s : Tasks). s.domain x) e.rest

    pub dequeued-IsReady :
        Bitmap k' (λ p. busy (without k lists t xs ys p)) → IsReady k' (without k lists t xs ys)
    dequeued-IsReady bm = record {
      queues = λ p h. elim (Bool-cases (p == k.priority t)) [
        | inl same ↦ let eq : p ≡ k.priority t = ground arith in rw eq own_queue
        | inr other ↦ other_queue p h (ground arith)
      ];
      members = λ p x h i. ground (
        arith,
        same_priority x,
        same_domain x,
        e.marks x,
        is.members p x h,
        has_own x,
        has-append x xs ys,
        own.not_left,
        own.not_right,
      );
      queued = λ x m.
          rw (same_priority x)
            (ground (arith, same_domain x, e.marks x, is.queued x, has_own x, has-append x xs ys));
      bitmap = bm;
    }
