-- ===== src/Task/ReadyQueue/Ready.antt =====
-- The invariant of the ready queues, and the effect that enqueueing and dequeueing have on it.
use mi_dev_integral_rel.Base.{
  ℕ, ◌<◌, ◌≡◌, ◌≢◌, Bool, true, false, List, [], ◌∷◌, has, ◌∉◌, arith, Bool-cases, inl, inr,
}
use mi_dev_integral_rel.Links.Lists.{IsList}
use mi_dev_integral_rel.Task.{Tasks}
use mi_dev_integral_rel.Task.Bitmap.Words.{Bitmap}

abbrev pub busy : List ℕ → Bool
busy [] = false
busy (x ∷ xs) = true

abbrev pub Queues : Tasks → (ℕ → List ℕ) → ℕ → Type 0
Queues k lists p =
    IsList k.sched_next k.sched_prev (k.ready_queues p).head (lists p) (k.ready_queues p).tail

-- `lists p` is the ready queue of priority `p`: exactly the threads marked as queued are in the
-- queues, each in that of its priority, and the bitmap shows the queues that are not empty.
pub record IsReady (k : Tasks) (lists : ℕ → List ℕ) : Type 0 where
  pub queues : (p : ℕ) → p < 256 → Queues k lists p
  pub members :
      (p t : ℕ)
      → p < 256
      → has t (lists p) ≡ true
      → (k.tcb_queued t ≢ 0) × (k.priority t ≡ p) × (k.domain t ≡ 0)
  pub queued :
      (t : ℕ)
      → k.tcb_queued t ≢ 0
      → (k.priority t < 256) × (k.domain t ≡ 0) × (has t (lists (k.priority t)) ≡ true)
  pub bitmap : Bitmap k (λ p. busy (lists p))

module _ (k : Tasks) (lists : ℕ → List ℕ) (is : IsReady k lists) where
  -- Lists of different priorities share no thread.
  pub other_list : (p q x : ℕ) → p < 256 → q < 256 → p ≢ q → has x (lists p) ≡ true → x ∉ lists q
  other_list p q x h h' ne i = elim (Bool-cases (has x (lists q))) [
    | inl j ↦ absurd (ground (arith, is.members p x h i, is.members q x h' j))
    | inr out ↦ out
  ]
