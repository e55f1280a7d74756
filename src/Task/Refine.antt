-- ===== src/Task/Refine.antt =====
-- The ready queues of sel4_task as a priority queue: runs of enqueueing, dequeueing and choosing
-- against an abstract queue of lists.
use mi_dev_integral_rel.Base.{
  ℕ, zero, suc, ◌<◌, ◌≡◌, ◌≢◌, ◌∙◌, refl, sym, ap, subst, fun_ext, Bool, true, false, not, ◌&&◌,
  List, [], ◌∷◌, ◌++◌, ◌==◌, has, arith, Bool-cases, inl, inr, update, if◌then◌else◌, ◌∉◌, Distinct,
  Distinct-split,
}
use mi_dev_integral_rel.Cmd.{Cmd, pure, get, ◌>>=◌, ◌>>◌}
use mi_dev_integral_rel.Cmd.Returns.{Returns, returns, bind, mono}
use mi_dev_integral_rel.Task.{Tasks}
use mi_dev_integral_rel.Task.Bitmap.Levels.{IsHighest}
use mi_dev_integral_rel.Task.ReadyQueue.{sched_enqueue, sched_dequeue}
use mi_dev_integral_rel.Task.ReadyQueue.Ready.{IsReady, busy}
use mi_dev_integral_rel.Task.ReadyQueue.Enqueue.{snoc, sched_enqueue-snoc}
use mi_dev_integral_rel.Task.ReadyQueue.Dequeue.{without}
use mi_dev_integral_rel.Task.ReadyQueue.Remove.{sched_dequeue-without}
use mi_dev_integral_rel.Task.Scheduler.{choose_thread}
use mi_dev_integral_rel.Task.Scheduler.Choose.{
  IsChosen, first, idle, choose_thread-IsChosen, busy-nil, moved,
}
use mi_dev_integral_rel.Task.Scheduler.Keep.{has-split}

-- What a caller does to the ready queues.
pub data Request : Type 0 where
  enqueue dequeue : (thread : ℕ) → Request
  choose : Request

-- The operations of the source in turn, and the threads that `chooseThread` makes current.
unfoldable pub run : List Request → Cmd Tasks (List ℕ)
run [] = pure []
run (enqueue t ∷ rs) = do sched_enqueue t; run rs
run (dequeue t ∷ rs) = do sched_dequeue t; run rs
run (choose ∷ rs) = do choose_thread; k ← get; chosen ← run rs; pure (k.cur_thread ∷ chosen)

-- The abstract queue: a list of threads for each priority, and nothing else.
abbrev pub Lists : Type 0
Lists = ℕ → List ℕ

unfoldable pub erase : ℕ → List ℕ → List ℕ
erase t [] = []
erase t (x ∷ xs) = if t == x then xs else x ∷ erase t xs

unfoldable pub pick : ℕ → ℕ × Lists → Lists → List ℕ → ℕ × Lists
pick p lower lists [] = lower
pick p lower lists (t ∷ ts) = (t, update lists p ts)

-- The first thread of the highest of `n` priorities that is not empty; the idle thread without one.
unfoldable pub take_best : ℕ → ℕ → Lists → ℕ × Lists
unfolding pick
take_best zero none_ready lists = (none_ready, lists)
take_best (suc p) none_ready lists = pick p (take_best p none_ready lists) lists (lists p)

module _ (priority : ℕ → ℕ) (idle_thread : ℕ) where
  unfoldable pub abstract_enqueue : ℕ → Lists → Lists
  abstract_enqueue t lists =
      if has t (lists (priority t))
      then lists
      else update lists (priority t) (lists (priority t) ++ t ∷ [])

  unfoldable pub abstract_dequeue : ℕ → Lists → Lists
  unfolding erase
  abstract_dequeue t lists = update lists (priority t) (erase t (lists (priority t)))

  unfoldable pub abstract_run : List Request → Lists → List ℕ × Lists
  unfolding abstract_enqueue abstract_dequeue
  abstract_run [] lists = ([], lists)
  abstract_run (enqueue t ∷ rs) lists = abstract_run rs (abstract_enqueue t lists)
  abstract_run (dequeue t ∷ rs) lists = abstract_run rs (abstract_dequeue t lists)
  abstract_run (choose ∷ rs) lists =
      let best : ℕ × Lists = take_best 256 idle_thread lists in
      let rest : List ℕ × Lists = abstract_run rs best.1 in (best.0 ∷ rest.0, rest.1)

-- No request is for the null thread.
unfoldable pub proper : List Request → Bool
proper [] = true
proper (enqueue t ∷ rs) = not (t == 0) && proper rs
proper (dequeue t ∷ rs) = proper rs
proper (choose ∷ rs) = proper rs

-- A memory whose ready queues are these lists, with the given priorities and idle thread.
pub record Represents (priority : ℕ → ℕ) (idle_thread : ℕ) (lists : Lists) (k : Tasks)
    : Type 0 where
  pub ready : IsReady k lists
  pub priorities : k.priority ≡ priority
  pub small : (t : ℕ) → k.priority t < 256
  pub domains : (t : ℕ) → k.domain t ≡ 0
  pub idle_is : k.idle_thread ≡ idle_thread
  pub idle_ne : k.idle_thread ≢ 0

erase-split : (t : ℕ) (xs ys : List ℕ) → t ∉ xs → erase t (xs ++ t ∷ ys) ≡ xs ++ ys
unfolding erase
erase-split t [] ys out = ground arith
erase-split t (x ∷ xs) ys out =
    let e : (t == x) ≡ false = ground arith in
    rw e (ap (λ (l : List ℕ). x ∷ l) (erase-split t xs ys (ground arith)))

erase-out : (t : ℕ) (xs : List ℕ) → t ∉ xs → erase t xs ≡ xs
unfolding erase
erase-out t [] out = refl
erase-out t (x ∷ xs) out =
    let e : (t == x) ≡ false = ground arith in
    rw e (ap (λ (l : List ℕ). x ∷ l) (erase-out t xs (ground arith)))

module _ (priority : ℕ → ℕ) (idle_thread : ℕ) (lists : Lists) (k : Tasks)
    (is : Represents priority idle_thread lists k) where
  -- What follows of memory that differs in the queues and the current thread only.
  kept :
      (k' : Tasks) (lists' : Lists)
      → IsReady k' lists'
      → k'.priority ≡ k.priority
      → k'.domain ≡ k.domain
      → k'.idle_thread ≡ k.idle_thread
      → Represents priority idle_thread lists' k'
  kept k' lists' r p d i = record {
    ready = r;
    priorities = p ∙ is.priorities;
    small = λ t. subst (λ (f : ℕ → ℕ). f t < 256) (sym p) (is.small t);
    domains = λ t. subst (λ (f : ℕ → ℕ). f t ≡ 0) (sym d) (is.domains t);
    idle_is = i ∙ is.idle_is;
    idle_ne = rw i is.idle_ne;
  }

  own : (t : ℕ) → k.priority t ≡ priority t
  own t = ap (λ (f : ℕ → ℕ). f t) is.priorities

  absent : (t : ℕ) → k.tcb_queued t ≡ 0 → has t (lists (priority t)) ≡ false
  absent t e = elim (Bool-cases (has t (lists (priority t)))) [
    | inl i ↦ absurd (ground (arith, is.ready.members (priority t) t, is.small t, own t, e, i))
    | inr o ↦ o
  ]

  erased_none : (t : ℕ) → k.tcb_queued t ≡ 0 → lists ≡ abstract_dequeue priority idle_thread t lists
  unfolding abstract_dequeue
  erased_none t e =
      let same : erase t (lists (priority t)) ≡ lists (priority t) =
        erase-out t (lists (priority t)) (absent t e) in
      fun_ext λ p. elim (Bool-cases (p == priority t)) [
        | inl h ↦ let eq : p ≡ priority t = ground (arith, h) in rw (h, same) (ap lists eq)
        | inr h ↦ rw h refl
      ]

  erased :
      (t : ℕ) (xs ys : List ℕ)
      → lists (k.priority t) ≡ xs ++ t ∷ ys
      → without k lists t xs ys ≡ abstract_dequeue priority idle_thread t lists
  unfolding abstract_dequeue
  erased t xs ys f =
      let all : Distinct (xs ++ t ∷ ys) =
        subst Distinct f (is.ready.queues (k.priority t) (is.small t)).distinct in
      let parts = Distinct-split xs (t ∷ ys) all in
      let out : t ∉ xs = ground (arith, parts.2 t) in
      let e : erase t (lists (k.priority t)) ≡ xs ++ ys = rw f (erase-split t xs ys out) in
      ap (λ (l : List ℕ). update lists (k.priority t) l) (sym e)
      ∙ ap (λ (p : ℕ). update lists p (erase t (lists p))) (own t)

  pub enqueue_step :
      (t : ℕ)
      → t ≢ 0
      → Returns
          (λ _ k'.
            Represents priority idle_thread (abstract_enqueue priority idle_thread t lists) k')
          (sched_enqueue t k)
  unfolding sched_enqueue abstract_enqueue
  enqueue_step t ne = elim (Bool-cases (k.tcb_queued t == 0)) [
    | inl e ↦
        let out : has t (lists (priority t)) ≡ false = absent t (ground arith) in
        let same : snoc k lists t ≡ update lists (priority t) (lists (priority t) ++ t ∷ []) =
          ap (λ (p : ℕ). update lists p (lists p ++ t ∷ [])) (own t) in
        rw out (
          mono (sched_enqueue-snoc k lists is.ready t ne (ground arith) (is.small t) (is.domains t))
            (λ _ k' (r, d).
              kept k' _ (subst (λ (l : Lists). IsReady k' l) same r)
                (ap (λ (s : Tasks). s.priority) d.rest) (ap (λ (s : Tasks). s.domain) d.rest)
                (ap (λ (s : Tasks). s.idle_thread) d.rest)))
    | inr e ↦
        let present : has t (lists (priority t)) ≡ true =
          subst (λ (p : ℕ). has t (lists p) ≡ true) (own t) (is.ready.queued t (ground arith)).2 in
        rw (e, present) (returns is)
  ]

  dequeue_step :
      (t : ℕ)
      → Returns
          (λ _ k'.
            Represents priority idle_thread (abstract_dequeue priority idle_thread t lists) k')
          (sched_dequeue t k)
  unfolding sched_dequeue abstract_dequeue
  dequeue_step t = elim (Bool-cases (k.tcb_queued t == 0)) [
    | inl e ↦ rw e (
        returns (
          subst (λ (l : Lists). Represents priority idle_thread l k) (erased_none t (ground arith))
            is))
    | inr e ↦
        let q : k.tcb_queued t ≢ 0 = ground arith in
        let (xs, ys, f) = has-split t (lists (k.priority t)) (is.ready.queued t q).2 in
        mono (sched_dequeue-without k lists is.ready t xs ys (is.small t) (is.domains t) q f)
          (λ _ k' (r, d).
            kept k' _ (subst (λ (l : Lists). IsReady k' l) (erased t xs ys f) r)
              (ap (λ (s : Tasks). s.priority) d.rest) (ap (λ (s : Tasks). s.domain) d.rest)
              (ap (λ (s : Tasks). s.idle_thread) d.rest))
  ]

-- The search from the top finds the highest list that is not empty.
take_best-first :
    (n none_ready p t : ℕ) (ts : List ℕ) (lists : Lists)
    → p < n
    → lists p ≡ t ∷ ts
    → ((q : ℕ) → p < q → q < n → lists q ≡ [])
    → take_best n none_ready lists ≡ (t, update lists p ts)
unfolding take_best
take_best-first zero none_ready p t ts lists lt e above = absurd (omega arith)
take_best-first (suc n) none_ready p t ts lists lt e above = elim (Bool-cases (p == n)) [
  | inl h ↦ let eq : n ≡ p = ground (arith, h) in rw (eq, e) refl
  | inr h ↦
      let ne : p ≢ n = ground (arith, h) in
      rw (above n (omega (arith, ne)) (omega arith)) (
        take_best-first n none_ready p t ts lists (omega (arith, ne)) e
          (λ q l m. above q l (omega arith)))
]

take_best-none :
    (n none_ready : ℕ) (lists : Lists)
    → ((p : ℕ) → p < n → lists p ≡ [])
    → take_best n none_ready lists ≡ (none_ready, lists)
unfolding take_best
take_best-none zero none_ready lists all = refl
take_best-none (suc n) none_ready lists all =
    rw (all n (omega arith)) (take_best-none n none_ready lists (λ p h. all p (omega arith)))

empty_above :
    (lists : Lists) (p q : ℕ) → IsHighest (λ q. busy (lists q)) p → p < q → q < 256 → lists q ≡ []
empty_above lists p q best l m = elim (Bool-cases (busy (lists q))) [
  | inl b ↦ absurd (omega (arith, best.highest q m b))
  | inr b ↦ busy-nil (lists q) b
]

module _ (priority : ℕ → ℕ) (idle_thread : ℕ) (lists : Lists) (k : Tasks)
    (is : Represents priority idle_thread lists k) where
  choose_step :
      Returns
        (λ _ k'.
          (k'.cur_thread ≡ (take_best 256 idle_thread lists).0)
          × Represents priority idle_thread (take_best 256 idle_thread lists).1 k')
        (choose_thread k)
  choose_step = mono (choose_thread-IsChosen k lists is.ready is.idle_ne) λ _ k' c. go k' c
    where
      go :
          (k' : Tasks)
          → IsChosen k lists k'
          → (k'.cur_thread ≡ (take_best 256 idle_thread lists).0)
            × Represents priority idle_thread (take_best 256 idle_thread lists).1 k'
      go k' (first p t ys best e cur r d) =
          let found : take_best 256 idle_thread lists ≡ (t, update lists p ys) =
            take_best-first 256 idle_thread p t ys lists best.small e
              (λ q l m. empty_above lists p q best l m) in
          rw found (
            cur,
            kept priority idle_thread lists k is k' (update lists p ys) r
                (ap (λ (s : Tasks). s.priority) d.rest) (ap (λ (s : Tasks). s.domain) d.rest)
                (ap (λ (s : Tasks). s.idle_thread) d.rest),
          )
      go k' (idle all e) =
          let found : take_best 256 idle_thread lists ≡ (idle_thread, lists) =
            take_best-none 256 idle_thread lists all in
          rw (found, e)
            (
              is.idle_is,
              kept priority idle_thread lists k is _ lists
                  (moved k lists is.ready k.idle_thread k lists is.ready) refl refl refl,
            )

module _ (priority : ℕ → ℕ) (idle_thread : ℕ) where
  -- On a memory that represents an abstract queue, with an idle thread, any run of enqueueing threads
  -- other than the null one, dequeueing and choosing returns: it makes current the threads that the abstract
  -- queue gives, in that order, and leaves a memory that represents what is left of it.
  pub run-abstract_run :
      (rs : List Request) (lists : Lists) (k : Tasks)
      → proper rs ≡ true
      → Represents priority idle_thread lists k
      → Returns
          (λ chosen k'.
            (chosen ≡ (abstract_run priority idle_thread rs lists).0)
            × Represents priority idle_thread (abstract_run priority idle_thread rs lists).1 k')
          (run rs k)
  unfolding run abstract_run proper
  run-abstract_run [] lists k ok is = returns (refl, is)
  run-abstract_run (enqueue t ∷ rs) lists k ok is =
      bind (enqueue_step priority idle_thread lists k is t (ground (arith, ok))) λ _ k1 is1.
        run-abstract_run rs (abstract_enqueue priority idle_thread t lists) k1 (ground (arith, ok))
          is1
  run-abstract_run (dequeue t ∷ rs) lists k ok is =
      bind (dequeue_step priority idle_thread lists k is t)
        λ _ k1 is1. run-abstract_run rs (abstract_dequeue priority idle_thread t lists) k1 ok is1
  run-abstract_run (choose ∷ rs) lists k ok is =
      bind (choose_step priority idle_thread lists k is) λ _ k1 step.
        bind (run-abstract_run rs (take_best 256 idle_thread lists).1 k1 ok step.1)
          λ chosen k2 done. returns (
            ap (λ (t : ℕ). t ∷ chosen) step.0
                ∙ ap (λ (l : List ℕ). (take_best 256 idle_thread lists).0 ∷ l) done.0,
            done.1,
          )

-- As many choices as a list has threads.
unfoldable pub choices : List ℕ → List Request
choices [] = []
choices (x ∷ xs) = choose ∷ choices xs

choices-proper : (xs : List ℕ) → proper (choices xs) ≡ true
unfolding proper choices
choices-proper [] = refl
choices-proper (x ∷ xs) = choices-proper xs

abstract_run-choices :
    (priority : ℕ → ℕ) (idle_thread p : ℕ) (xs ys : List ℕ) (lists : Lists)
    → p < 256
    → lists p ≡ xs ++ ys
    → ((q : ℕ) → p < q → q < 256 → lists q ≡ [])
    → (abstract_run priority idle_thread (choices xs) lists).0 ≡ xs
unfolding abstract_run choices
abstract_run-choices priority idle_thread p [] ys lists small e above = refl
abstract_run-choices priority idle_thread p (x ∷ xs) ys lists small e above =
    let own : (p == p) ≡ true = ground arith in
    let left : update lists p (xs ++ ys) p ≡ xs ++ ys = rw own refl in
    rw (take_best-first 256 idle_thread p x (xs ++ ys) lists small e above) (
      ap (λ (l : List ℕ). x ∷ l)
        (abstract_run-choices priority idle_thread p xs ys (update lists p (xs ++ ys)) small left
          (λ q l m. let other : (q == p) ≡ false = ground (arith, l) in rw other (above q l m))))

-- When every queue above a priority is empty, the threads of that priority's queue are made current in
-- its order, none passed over: as many choices as there are threads in a part of it from the front
-- return, and make current those threads.
pub run-choices :
    (priority : ℕ → ℕ) (idle_thread p : ℕ) (xs ys : List ℕ) (lists : Lists) (k : Tasks)
    → Represents priority idle_thread lists k
    → p < 256
    → lists p ≡ xs ++ ys
    → ((q : ℕ) → p < q → q < 256 → lists q ≡ [])
    → Returns (λ chosen k'. chosen ≡ xs) (run (choices xs) k)
run-choices priority idle_thread p xs ys lists k is small e above =
    mono (run-abstract_run priority idle_thread (choices xs) lists k (choices-proper xs) is)
      (λ chosen k' done.
        done.0 ∙ abstract_run-choices priority idle_thread p xs ys lists small e above)
