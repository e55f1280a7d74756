-- ===== src/Links.antt =====
-- Doubly linked lists of addresses, threaded through two link fields `nx` and `pv` of a store:
-- the endpoint queues and ready queues of sel4_task and the derivation list of sel4_cspace.
pub mod Rename
pub mod Relink
pub mod Insert
pub mod Lists
use mi_dev_integral_rel.Base.{
  ℕ, ◌≡◌, ◌≢◌, refl, true, List, [], ◌∷◌, ◌++◌, arith, update, has, Distinct,
}

abbrev pub Link : Type 0
Link = ℕ → ℕ

-- From `h` the links lead through `xs` to `a`, backwards from the last address `l` to `b`.
abbrev pub Seg : Link → Link → ℕ → ℕ → List ℕ → ℕ → ℕ → Type 0
Seg nx pv b h [] l a = (h ≡ a) × (l ≡ b)
Seg nx pv b h (x ∷ xs) l a = (h ≡ x) × (x ≢ 0) × (pv x ≡ b) × Seg nx pv x (nx x) xs l a

-- The two stores of links agree at the addresses of `xs`.
abbrev pub SameOn : List ℕ → Link → Link → Type 0
SameOn xs f g = (x : ℕ) → has x xs ≡ true → f x ≡ g x

module _ (nx pv : Link) where
  -- A segment survives any change of the links that spares its own addresses.
  pub frame :
      (nx' pv' : Link) (b h : ℕ) (xs : List ℕ) (l a : ℕ)
      → Seg nx pv b h xs l a
      → SameOn xs nx' nx
      → SameOn xs pv' pv
      → Seg nx' pv' b h xs l a
  frame nx' pv' b h [] l a s same same' = s
  frame nx' pv' b h (x ∷ xs) l a s same same' = (
    s.0,
    s.1,
    ground (arith, same' x),
    rw (same x (ground arith)) (
        frame nx' pv' x (nx x) xs l a s.3 (λ y i. same y (ground arith))
          (λ y i. same' y (ground arith))),
  )

  pub append :
      (b h : ℕ) (xs : List ℕ) (k m : ℕ) (ys : List ℕ) (l a : ℕ)
      → Seg nx pv b h xs k m
      → Seg nx pv k m ys l a
      → Seg nx pv b h (xs ++ ys) l a
  append b h [] k m ys l a s t = rw (s.0, ← s.1) t
  append b h (x ∷ xs) k m ys l a s t = (s.0, s.1, s.2, append x (nx x) xs k m ys l a s.3 t)

  -- A segment of a concatenation is cut in two.
  pub split :
      (b h : ℕ) (xs ys : List ℕ) (l a : ℕ)
      → Seg nx pv b h (xs ++ ys) l a
      → (k : ℕ) × (m : ℕ) × Seg nx pv b h xs k m × Seg nx pv k m ys l a
  split b h [] ys l a s = (b, h, (refl, refl), s)
  split b h (x ∷ xs) ys l a s =
      let r = split x (nx x) xs ys l a s.3 in (r.0, r.1, (s.0, s.1, s.2, r.2), r.3)

  -- The last address of a segment that is not empty is one of its own.
  pub last-has :
      (b h x : ℕ) (xs : List ℕ) (l a : ℕ) → Seg nx pv b h (x ∷ xs) l a → has l (x ∷ xs) ≡ true
  last-has b h x [] l a s = ground arith
  last-has b h x (y ∷ ys) l a s = ground (arith, last-has x (nx x) y ys l a s.3)

  -- An address of a segment is not null.
  pub has-ne_zero :
      (b h : ℕ) (xs : List ℕ) (l a x : ℕ) → Seg nx pv b h xs l a → has x xs ≡ true → x ≢ 0
  has-ne_zero b h [] l a x s i = absurd (cc)
  has-ne_zero b h (y ∷ ys) l a x s i = ground (arith, has-ne_zero y (nx y) ys l a x s.3)

  -- Writing the forward link of the last address moves the end of the segment.
  pub set_end :
      (b h x : ℕ) (xs : List ℕ) (l a a' : ℕ)
      → Seg nx pv b h (x ∷ xs) l a
      → Distinct (x ∷ xs)
      → Seg (update nx l a') pv b h (x ∷ xs) l a'
  set_end b h x [] l a a' s d = ground arith
  set_end b h x (y ∷ ys) l a a' s d =
      let e : update nx l a' x ≡ nx x = ground (arith, last-has x (nx x) y ys l a s.3) in
      (s.0, s.1, s.2, rw e (set_end x (nx x) y ys l a a' s.3 d.1))

  -- Writing the backward link of the first address moves the start.
  pub set_front :
      (b h x : ℕ) (xs : List ℕ) (l a b' : ℕ)
      → Seg nx pv b h (x ∷ xs) l a
      → Distinct (x ∷ xs)
      → Seg nx (update pv x b') b' h (x ∷ xs) l a
  set_front b h x xs l a b' s d = (
    s.0,
    s.1,
    ground arith,
    frame nx (update pv x b') x (nx x) xs l a s.3 (λ y i. refl) (λ y i. ground arith),
  )
