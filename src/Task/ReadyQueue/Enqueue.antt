-- ===== src/Task/ReadyQueue/Enqueue.antt =====
-- Enqueueing a thread puts it at the end of the ready queue of its priority.
use mi_dev_integral_rel.Base.{
  ℕ, ◌<◌, ◌≡◌, ◌≢◌, refl, ap, subst, fun_ext, Bool, true, false, ltb, List, [], ◌∷◌, ◌++◌, ◌==◌,
  has, ◌∉◌, update, has-append, arith, if◌then◌else◌, Bool-cases, inl, inr,
}
use mi_dev_integral_rel.Cmd.{Skip, ok}
use mi_dev_integral_rel.Cmd.Returns.{Returns, returns}
use mi_dev_integral_rel.Links.{frame}
use mi_dev_integral_rel.Links.Lists.{splice, head-tail}
use mi_dev_integral_rel.Links.Relink.{relink, last-eq_zero}
use mi_dev_integral_rel.Task.{Tasks}
use mi_dev_integral_rel.Task.Bitmap.{add_to_bitmap}
use mi_dev_integral_rel.Task.Bitmap.Words.{Bitmap, added, add_run, added-Bitmap}
use mi_dev_integral_rel.Task.ReadyQueue.{ready_queues_index, sched_enqueue, sched_append}
use mi_dev_integral_rel.Task.ReadyQueue.Ready.{busy, Queues, IsReady, other_list}

busy-snoc : (xs : List ℕ) (t : ℕ) → busy (xs ++ t ∷ []) ≡ true
busy-snoc [] t = refl
busy-snoc (x ∷ xs) t = refl

has-busy : (xs : List ℕ) (x : ℕ) → has x xs ≡ true → busy xs ≡ true
has-busy [] x i = absurd (cc)
has-busy (y ∷ ys) x i = refl

-- The queues with `t` at the end of its own.
abbrev pub snoc : Tasks → (ℕ → List ℕ) → ℕ → ℕ → List ℕ
snoc k lists t = update lists (k.priority t) (lists (k.priority t) ++ t ∷ [])

-- What enqueueing the thread `t` does to memory.
pub record Enqueued (k : Tasks) (t : ℕ) (k' : Tasks) : Type 0 where
  pub nexts :
      (x : ℕ)
      → k'.sched_next x ≡ update (relink k.sched_next (k.ready_queues (k.priority t)).tail t) t 0 x
  pub prevs :
      (x : ℕ) → k'.sched_prev x ≡ update k.sched_prev t (k.ready_queues (k.priority t)).tail x
  pub heads :
      (p : ℕ)
      → (k'.ready_queues p).head ≡ (
          if p == k.priority t
          then (if (k.ready_queues p).tail == 0 then t else (k.ready_queues p).head)
          else (k.ready_queues p).head)
  pub tails :
      (p : ℕ)
      → (k'.ready_queues p).tail ≡ (if p == k.priority t then t else (k.ready_queues p).tail)
  pub marks : (x : ℕ) → k'.tcb_queued x ≡ update k.tcb_queued t 1 x
  pub rest :
      record k' {
        sched_next = k.sched_next;
        sched_prev = k.sched_prev;
        ready_queues = k.ready_queues;
        tcb_queued = k.tcb_queued;
        l1_bitmap = k.l1_bitmap;
        l2_bitmap = k.l2_bitmap;
      }
      ≡ k

module _ (k : Tasks) (lists : ℕ → List ℕ) (is : IsReady k lists) (t : ℕ) (k' : Tasks)
    (e : Enqueued k t k') (ne : t ≢ 0) (unqueued : k.tcb_queued t ≡ 0) (small : k.priority t < 256)
    (dom : k.domain t ≡ 0) where
  same_priority : (x : ℕ) → k'.priority x ≡ k.priority x
  same_priority x = ap (λ (s : Tasks). s.priority x) e.rest

  same_domain : (x : ℕ) → k'.domain x ≡ k.domain x
  same_domain x = ap (λ (s : Tasks). s.domain x) e.rest

  not_listed : (p : ℕ) → p < 256 → t ∉ lists p
  not_listed p h = elim (Bool-cases (has t (lists p))) [
    | inl j ↦ absurd (ground (arith, is.members p t h j))
    | inr out ↦ out
  ]

  own_queue : Queues k' (snoc k lists t) (k.priority t)
  own_queue =
      let p = k.priority t in
      let q = k.ready_queues p in
      let l = is.queues p small in
      let out = not_listed p small in
      let r =
        splice k.sched_next k.sched_prev q.head (lists p) q.tail 0 [] q.tail 0 q.tail l.seg
          (refl, refl) l.distinct tt (λ x i. refl) t k'.sched_next k'.sched_prev ne out refl
          (λ x i. ground (arith, e.nexts x)) (λ x i. ground (arith, e.prevs x)) (λ x i. absurd (cc))
          (λ x i. absurd (cc)) (ground (arith, e.nexts t)) (ground (arith, e.prevs t)) in
      let eh : (k'.ready_queues p).head ≡ (if q.tail == 0 then t else q.head) =
        ground (arith, e.heads p) in
      let et : (k'.ready_queues p).tail ≡ t = ground (arith, e.tails p) in
      let el : snoc k lists t p ≡ lists p ++ t ∷ [] = ground arith in rw (eh, et, el) r

  other_queue : (p : ℕ) → p < 256 → p ≢ k.priority t → Queues k' (snoc k lists t) p
  other_queue p h np =
      let own = is.queues (k.priority t) small in
      let last =
        last-eq_zero k.sched_next k.sched_prev (k.ready_queues (k.priority t)).head
          (lists (k.priority t)) (k.ready_queues (k.priority t)).tail 0 own.seg in
      let l = is.queues p h in
      let s =
        frame k.sched_next k.sched_prev k'.sched_next k'.sched_prev 0 (k.ready_queues p).head
          (lists p) (k.ready_queues p).tail 0 l.seg
          (λ x i. ground (
            arith,
            e.nexts x,
            not_listed p h,
            other_list k lists is p (k.priority t) x h small np i,
            last.1,
          ))
          (λ x i. ground (arith, e.prevs x, not_listed p h)) in
      let eh : (k'.ready_queues p).head ≡ (k.ready_queues p).head = ground (arith, e.heads p) in
      let et : (k'.ready_queues p).tail ≡ (k.ready_queues p).tail = ground (arith, e.tails p) in
      let el : snoc k lists t p ≡ lists p = ground arith in
      rw (eh, et, el) (record { seg = s; distinct = l.distinct })

  pub enqueued-IsReady :
      Bitmap k' (update (λ p. busy (lists p)) (k.priority t) true) → IsReady k' (snoc k lists t)
  enqueued-IsReady bm = record {
    queues = λ p h. elim (Bool-cases (p == k.priority t)) [
      | inl same ↦ let eq : p ≡ k.priority t = ground arith in rw eq own_queue
      | inr other ↦ other_queue p h (ground arith)
    ];
    members = λ p x h i. ground (
      arith,
      same_priority x,
      same_domain x,
      e.marks x,
      is.members p x h,
      has-append x (lists (k.priority t)) (t ∷ []),
    );
    queued = λ x m. rw (same_priority x) (
        ground (
          arith,
          same_domain x,
          e.marks x,
          is.queued x,
          has-append x (lists (k.priority t)) (t ∷ []),
        ));
    bitmap = subst (Bitmap k') (fun_ext λ p. ground (arith, busy-snoc (lists (k.priority t)) t)) bm;
  }

module _ (k : Tasks) (lists : ℕ → List ℕ) (is : IsReady k lists) (t : ℕ) (ne : t ≢ 0)
    (unqueued : k.tcb_queued t ≡ 0) (small : k.priority t < 256) (dom : k.domain t ≡ 0) where
  own_index : ready_queues_index (k.domain t) (k.priority t) ≡ k.priority t
  own_index = omega arith

  inside : ltb (k.priority t) 256 ≡ true
  inside = ground arith

  abbrev ready : ℕ → Bool
  ready p = busy (lists p)

  abbrev Result : Skip → Tasks → Type 0
  Result _ k' = IsReady k' (snoc k lists t) × Enqueued k t k'

  finish :
      {k' : Tasks}
      → Enqueued k t k'
      → Bitmap k' (update ready (k.priority t) true)
      → Returns Result (ok tt k')
  finish e bm = returns (enqueued-IsReady k lists is t _ e ne unqueued small dom bm, e)

  -- Memory once the queue, which was empty, starts with `t`.
  abbrev headed : Tasks
  headed = record k {
    ready_queues =
        update k.ready_queues (k.priority t) (record (k.ready_queues (k.priority t)) { head = t });
  }

  head_run : add_to_bitmap 0 (k.priority t) headed ≡ ok tt (added headed (k.priority t))
  head_run = add_run headed ready is.bitmap (k.priority t) small

  still_busy :
      ((k.ready_queues (k.priority t)).tail == 0) ≡ false
      → Bitmap k (update ready (k.priority t) true)
  still_busy e =
      let l = is.queues (k.priority t) small in
      let last =
        last-eq_zero k.sched_next k.sched_prev (k.ready_queues (k.priority t)).head
          (lists (k.priority t)) (k.ready_queues (k.priority t)).tail 0 l.seg in
      subst (Bitmap k)
        (fun_ext λ p.
          ground
            (arith, last.1, has-busy (lists (k.priority t)) (k.ready_queues (k.priority t)).tail))
        is.bitmap

  -- On well-formed ready queues, enqueueing a thread that is not in one, of the one domain and of a
  -- priority below 256, returns: the thread stands at the end of the queue of its priority, the
  -- queues are well formed, the bitmap shows it, and only what `Enqueued` says has changed.
  pub sched_enqueue-snoc : Returns Result (sched_enqueue t k)
  unfolding sched_enqueue
  sched_enqueue-snoc = elim (Bool-cases ((k.ready_queues (k.priority t)).tail == 0)) [
    | inl e ↦
        rw (unqueued, own_index, inside, e, dom, head_run)
          (finish
            (record {
              nexts = λ x. ground arith;
              prevs = λ x. ground arith;
              heads = λ p. ground arith;
              tails = λ p. ground arith;
              marks = λ x. refl;
              rest = refl;
            })
            (added-Bitmap headed ready is.bitmap (k.priority t) small))
    | inr e ↦
        rw (unqueued, own_index, inside, e)
          (finish
            (record {
              nexts = λ x. ground arith;
              prevs = λ x. ground arith;
              heads = λ p. ground arith;
              tails = λ p. ground arith;
              marks = λ x. refl;
              rest = refl;
            })
            (still_busy e))
  ]

-- On ready queues that are well formed, `sched_append`, which tests the head of the queue, does what
-- `sched_enqueue` does, which tests its tail: for every thread of the one domain and of a priority
-- below 256, in a queue already or not.
pub sched_append-sched_enqueue :
    (k : Tasks) (lists : ℕ → List ℕ) (t : ℕ)
    → IsReady k lists
    → k.priority t < 256
    → k.domain t ≡ 0
    → sched_append t k ≡ sched_enqueue t k
unfolding sched_append sched_enqueue
sched_append-sched_enqueue k lists t is small dom =
    let p = k.priority t in
    let q = k.ready_queues p in
    let e : ready_queues_index (k.domain t) p ≡ p = omega arith in
    let same = head-tail k.sched_next k.sched_prev q.head (lists p) q.tail (is.queues p small) in
    rw (e, same)
