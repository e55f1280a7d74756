-- ===== src/Links/Rename.antt =====
-- Renaming the addresses of a list.
use mi_dev_integral_rel.Base.{
  ℕ, ◌≡◌, ◌≢◌, ◌⊎◌, inl, inr, refl, ◌∙◌, ap, true, List, [], ◌∷◌, arith, ◌==◌, has, Distinct,
  Bool-cases,
}
use mi_dev_integral_rel.Links.{Link, Seg}

abbrev pub rename : (ℕ → ℕ) → List ℕ → List ℕ
rename f [] = []
rename f (x ∷ xs) = f x ∷ rename f xs

module _ (nx pv : Link) where
  -- The successor of an address points back to it, and its predecessor forward.
  pub forward :
      (b h : ℕ) (xs : List ℕ) (l a y : ℕ)
      → Seg nx pv b h xs l a
      → has y xs ≡ true
      → (nx y ≡ a) ⊎ (pv (nx y) ≡ y)
  forward b h [] l a y s i = absurd (cc)
  forward b h (x ∷ []) l a y s i = inl (ground arith)
  forward b h (x ∷ z ∷ xs) l a y s i = elim (Bool-cases (y == x)) [
    | inl e ↦ inr (ground arith)
    | inr e ↦ forward x (nx x) (z ∷ xs) l a y s.3 (ground arith)
  ]

  pub backward :
      (b h : ℕ) (xs : List ℕ) (l a y : ℕ)
      → Seg nx pv b h xs l a
      → has y xs ≡ true
      → ((y ≡ h) × (pv y ≡ b)) ⊎ (nx (pv y) ≡ y)
  backward b h [] l a y s i = absurd (cc)
  backward b h (x ∷ xs) l a y s i = elim (Bool-cases (y == x)) [
    | inl e ↦ inl (ground arith)
    | inr e ↦ elim (backward x (nx x) xs l a y s.3 (ground arith)) [
      | inl p ↦ inr (ground arith)
      | inr p ↦ inr p
    ]
  ]

  pub no_loop :
      (b h : ℕ) (xs : List ℕ) (l y : ℕ)
      → Seg nx pv b h xs l 0
      → Distinct xs
      → has y xs ≡ true
      → nx y ≢ y
  no_loop b h [] l y s d i = absurd (cc)
  no_loop b h (x ∷ []) l y s d i = ground arith
  no_loop b h (x ∷ z ∷ xs) l y s d i = elim (Bool-cases (y == x)) [
    | inl e ↦ ground arith
    | inr e ↦ no_loop x (nx x) (z ∷ xs) l y s.3 d.1 (ground arith)
  ]

  pub renamed :
      (nx' pv' : Link) (f : ℕ → ℕ) (b h : ℕ) (xs : List ℕ) (l a : ℕ)
      → Seg nx pv b h xs l a
      → ((x : ℕ) → has x xs ≡ true → (f x ≢ 0) × (nx' (f x) ≡ f (nx x)) × (pv' (f x) ≡ f (pv x)))
      → Seg nx' pv' (f b) (f h) (rename f xs) (f l) (f a)
  renamed nx' pv' f b h [] l a s same = (ap f s.0, ap f s.1)
  renamed nx' pv' f b h (x ∷ xs) l a s same =
      let p = same x (ground arith) in
      (
        ap f s.0,
        p.0,
        p.2 ∙ ap f s.2,
        rw p.1 (renamed nx' pv' f x (nx x) xs l a s.3 (λ y i. same y (ground arith))),
      )

module _ (f : ℕ → ℕ) (involutive : (x : ℕ) → f (f x) ≡ x) where
  pub has-rename : (y : ℕ) (xs : List ℕ) → has (f y) (rename f xs) ≡ has y xs
  has-rename y [] = refl
  has-rename y (x ∷ xs) = ground (arith, has-rename y xs, involutive x, involutive y)

  pub Distinct-rename : (xs : List ℕ) → Distinct xs → Distinct (rename f xs)
  Distinct-rename [] d = d
  Distinct-rename (x ∷ xs) d = (has-rename x xs ∙ d.0, Distinct-rename xs d.1)
