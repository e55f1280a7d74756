-- ===== src/Task/Scheduler/Keep.antt =====
-- The scheduler keeps the ready queues well formed: the invariant of its whole memory, and the
-- operations that other operations are made of.
use mi_dev_integral_rel.Base.{
  ℕ, ◌<◌, ◌≡◌, ◌≢◌, ◌⊎◌, ◌∙◌, refl, sym, ap, subst, true, List, [], ◌∷◌, ◌++◌, ◌==◌, has, arith,
  Bool-cases, inl, inr,
}
use mi_dev_integral_rel.Cmd.Returns.{Returns, returns, mono}
use mi_dev_integral_rel.Task.{Tasks}
use mi_dev_integral_rel.Task.ReadyQueue.{sched_enqueue, sched_append, sched_dequeue}
use mi_dev_integral_rel.Task.ReadyQueue.Ready.{IsReady}
use mi_dev_integral_rel.Task.ReadyQueue.Enqueue.{
  snoc, sched_enqueue-snoc, sched_append-sched_enqueue,
}
use mi_dev_integral_rel.Task.ReadyQueue.Dequeue.{without}
use mi_dev_integral_rel.Task.ReadyQueue.Remove.{sched_dequeue-without}

-- The ready queues are well formed, every thread has a priority below 256 and is of the one domain,
-- and there are an idle thread and a current thread.
pub record IsSched (k : Tasks) : Type 0 where
  pub lists : ℕ → List ℕ
  pub ready : IsReady k lists
  pub priorities : (t : ℕ) → k.priority t < 256
  pub domains : (t : ℕ) → k.domain t ≡ 0
  pub idle_thread : k.idle_thread ≢ 0
  pub cur_thread : k.cur_thread ≢ 0
  pub cur_domain : k.cur_domain ≡ 0

-- Only the ready queues and their bitmap may differ.
abbrev pub SameButQueues : Tasks → Tasks → Type 0
SameButQueues k k' =
    record k' {
      sched_next = k.sched_next;
      sched_prev = k.sched_prev;
      ready_queues = k.ready_queues;
      tcb_queued = k.tcb_queued;
      l1_bitmap = k.l1_bitmap;
      l2_bitmap = k.l2_bitmap;
    }
    ≡ k

-- The thread `t` is queued, and all that were queued are.
abbrev pub Joined : Tasks → ℕ → Tasks → Type 0
Joined k t k' = (k'.tcb_queued t ≢ 0) × ((x : ℕ) → k.tcb_queued x ≢ 0 → k'.tcb_queued x ≢ 0)

-- All that were queued are, but for the thread `t`, and no others.
abbrev pub Left : Tasks → ℕ → Tasks → Type 0
Left k t k' =
    ((x : ℕ) → k.tcb_queued x ≢ 0 → (x ≡ t) ⊎ (k'.tcb_queued x ≢ 0))
    × ((x : ℕ) → k'.tcb_queued x ≢ 0 → k.tcb_queued x ≢ 0)

pub has-split :
    (x : ℕ) (zs : List ℕ) → has x zs ≡ true → (xs : List ℕ) × (ys : List ℕ) × (zs ≡ xs ++ x ∷ ys)
has-split x [] i = absurd (cc)
has-split x (z ∷ zs) i = elim (Bool-cases (x == z)) [
  | inl e ↦ let same : z ≡ x = ground arith in ([], zs, ap (λ (a : ℕ). a ∷ zs) same)
  | inr e ↦
      let (xs, ys, f) = has-split x zs (ground arith) in (z ∷ xs, ys, ap (λ (l : List ℕ). z ∷ l) f)
]

module _ (k : Tasks) (is : IsSched k) where
  kept : (k' : Tasks) (lists : ℕ → List ℕ) → IsReady k' lists → SameButQueues k k' → IsSched k'
  kept k' lists r same = record {
    lists = lists;
    ready = r;
    priorities = λ t.
        subst (λ (f : ℕ → ℕ). f t < 256) (sym (ap (λ (s : Tasks). s.priority) same))
          (is.priorities t);
    domains = λ t.
        subst (λ (f : ℕ → ℕ). f t ≡ 0) (sym (ap (λ (s : Tasks). s.domain) same)) (is.domains t);
    idle_thread = rw (ap (λ (s : Tasks). s.idle_thread) same) is.idle_thread;
    cur_thread = rw (ap (λ (s : Tasks). s.cur_thread) same) is.cur_thread;
    cur_domain = ap (λ (s : Tasks). s.cur_domain) same ∙ is.cur_domain;
  }

  pub enqueue_joins :
      (t : ℕ)
      → t ≢ 0
      → Returns (λ _ k'. (IsSched k' × SameButQueues k k') × Joined k t k') (sched_enqueue t k)
  unfolding sched_enqueue
  enqueue_joins t ne = elim (Bool-cases (k.tcb_queued t == 0)) [
    | inl e ↦
        mono
          (sched_enqueue-snoc k is.lists is.ready t ne (ground arith) (is.priorities t)
            (is.domains t))
          (λ _ k' (r, d). (
            (kept k' (snoc k is.lists t) r d.rest, d.rest),
            (ground (arith, d.marks t), λ x q. ground (arith, d.marks x, q)),
          ))
    | inr e ↦ rw e (returns ((is, refl), (ground arith, λ x q. q)))
  ]

  pub append_joins :
      (t : ℕ)
      → t ≢ 0
      → Returns (λ _ k'. (IsSched k' × SameButQueues k k') × Joined k t k') (sched_append t k)
  append_joins t ne =
      rw (sched_append-sched_enqueue k is.lists t is.ready (is.priorities t) (is.domains t))
        (enqueue_joins t ne)

  pub enqueue_keeps :
      (t : ℕ) → t ≢ 0 → Returns (λ _ k'. IsSched k' × SameButQueues k k') (sched_enqueue t k)
  enqueue_keeps t ne = mono (enqueue_joins t ne) (λ _ k' (kept, joined). kept)

  pub append_keeps :
      (t : ℕ) → t ≢ 0 → Returns (λ _ k'. IsSched k' × SameButQueues k k') (sched_append t k)
  append_keeps t ne = mono (append_joins t ne) (λ _ k' (kept, joined). kept)

  pub dequeue_leaves :
      (t : ℕ)
      → Returns (λ _ k'. (IsSched k' × SameButQueues k k') × Left k t k') (sched_dequeue t k)
  unfolding sched_dequeue
  dequeue_leaves t = elim (Bool-cases (k.tcb_queued t == 0)) [
    | inl e ↦ rw e (returns ((is, refl), ((λ x q. inr q), λ x q. q)))
    | inr e ↦
        let q : k.tcb_queued t ≢ 0 = ground arith in
        let (xs, ys, f) = has-split t (is.lists (k.priority t)) (is.ready.queued t q).2 in
        mono
          (sched_dequeue-without k is.lists is.ready t xs ys (is.priorities t) (is.domains t) q f)
          (λ _ k' (r, d). (
            (kept k' (without k is.lists t xs ys) r d.rest, d.rest),
            (
              (λ x q. elim (Bool-cases (x == t)) [
                | inl e ↦ inl (ground arith)
                | inr e ↦ inr (ground (arith, d.marks x, q))
              ]),
              λ x q. ground (arith, d.marks x, q),
            ),
          ))
  ]

  pub dequeue_keeps :
      (t : ℕ) → Returns (λ _ k'. IsSched k' × SameButQueues k k') (sched_dequeue t k)
  dequeue_keeps t = mono (dequeue_leaves t) (λ _ k' (kept, left). kept)
