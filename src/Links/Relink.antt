-- ===== src/Links/Relink.antt =====
-- Redirecting the link of a neighbour that may be null, `if p != 0 { p.link = v }`, at the two ends
-- of a segment.
use mi_dev_integral_rel.Base.{
  ℕ, ◌≡◌, ◌≢◌, ◌∙◌, ap, sym, subst, fun_ext, refl, true, List, [], ◌∷◌, arith, ◌==◌, update, has,
  ◌∉◌, Distinct, if◌then◌else◌,
}
use mi_dev_integral_rel.Links.{Link, Seg, SameOn, last-has, has-ne_zero, set_end, set_front}

abbrev pub relink : Link → ℕ → ℕ → Link
relink f p v = if p == 0 then f else update f p v

pub relink_spares :
    (f : Link) (p v : ℕ) (xs : List ℕ) → (p ≢ 0 → p ∉ xs) → SameOn xs (relink f p v) f
relink_spares f p v xs out x i = ground arith

pub relink-ne_zero : (f : Link) (p v : ℕ) → p ≢ 0 → relink f p v ≡ update f p v
relink-ne_zero f p v ne = fun_ext λ x. ground arith

module _ (nx pv : Link) where
  -- The end of a segment that starts a list is moved, and its start too when it is empty.
  pub relink_end :
      (h : ℕ) (xs : List ℕ) (k a a' : ℕ)
      → Seg nx pv 0 h xs k a
      → Distinct xs
      → Seg (relink nx k a') pv 0 (if k == 0 then a' else h) xs k a'
  relink_end h [] k a a' s d = ground arith
  relink_end h (x ∷ xs) k a a' s d =
      let ne : k ≢ 0 = has-ne_zero nx pv 0 h (x ∷ xs) k a k s (last-has nx pv 0 h x xs k a s) in
      let e : (if k == 0 then a' else h) ≡ h = ground arith in
      rw e (
        subst (λ f. Seg f pv 0 h (x ∷ xs) k a') (sym (relink-ne_zero nx k a' ne))
          (set_end nx pv 0 h x xs k a a' s d))

  -- The start of a segment that ends a list is moved, and its end too when it is empty.
  pub relink_front :
      (b h : ℕ) (xs : List ℕ) (l b' : ℕ)
      → Seg nx pv b h xs l 0
      → Distinct xs
      → Seg nx (relink pv h b') b' h xs (if h == 0 then b' else l) 0
  relink_front b h [] l b' s d = ground arith
  relink_front b h (x ∷ xs) l b' s d =
      let ne : h ≢ 0 = ground arith in
      let e : (if h == 0 then b' else l) ≡ l = ground arith in
      let f : relink pv h b' ≡ update pv x b' =
        relink-ne_zero pv h b' ne ∙ ap (λ p. update pv p b') s.0 in
      rw e (subst (λ p. Seg nx p b' h (x ∷ xs) l 0) (sym f) (set_front nx pv b h x xs l 0 b' s d))

  -- A segment that starts a list is empty exactly when its last address is null.
  pub last-eq_zero :
      (h : ℕ) (xs : List ℕ) (k a : ℕ)
      → Seg nx pv 0 h xs k a
      → (k ≡ 0 → xs ≡ []) × (k ≢ 0 → has k xs ≡ true)
  last-eq_zero h [] k a s = (λ e. refl, λ ne. absurd (ne s.1))
  last-eq_zero h (x ∷ xs) k a s =
      let i = last-has nx pv 0 h x xs k a s in
      (λ e. absurd (has-ne_zero nx pv 0 h (x ∷ xs) k a k s i e), λ ne. i)

  -- A segment that ends a list is empty exactly when its first address is null.
  pub first-eq_zero :
      (b h : ℕ) (xs : List ℕ) (l : ℕ)
      → Seg nx pv b h xs l 0
      → (h ≡ 0 → xs ≡ []) × (h ≢ 0 → has h xs ≡ true)
  first-eq_zero b h [] l s = (λ e. refl, λ ne. absurd (ne s.0))
  first-eq_zero b h (x ∷ xs) l s = (λ e. absurd (ground arith), λ ne. ground arith)
