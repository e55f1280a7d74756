-- ===== src/Links/Lists.antt =====
-- Whole lists between null links, and the link updates that remove, append, insert and replace.
use mi_dev_integral_rel.Base.{
  ℕ, ◌≡◌, ◌≢◌, refl, sym, subst, List, [], ◌∷◌, ◌++◌, arith, ◌==◌, ◌∉◌, Distinct, Disjoint,
  Distinct-split, Distinct-append, if◌then◌else◌, Disjoint-sym,
}
use mi_dev_integral_rel.Links.{Link, Seg, SameOn, frame, append, split}
use mi_dev_integral_rel.Links.Relink.{
  relink, relink_spares, relink_end, relink_front, last-eq_zero, first-eq_zero,
}

-- The addresses `xs`, all different, in order from the head `h` to the tail `l`.
pub record IsList (nx pv : Link) (h : ℕ) (xs : List ℕ) (l : ℕ) : Type 0 where
  pub seg : Seg nx pv 0 h xs l 0
  pub distinct : Distinct xs

-- What a list says of one of its addresses.
pub record Around (nx pv : Link) (h t : ℕ) (xs ys : List ℕ) (l : ℕ) : Type 0 where
  pub ne_zero : t ≢ 0
  pub left : Seg nx pv 0 h xs (pv t) t
  pub right : Seg nx pv t (nx t) ys l 0
  pub left_distinct : Distinct xs
  pub right_distinct : Distinct ys
  pub not_left : t ∉ xs
  pub not_right : t ∉ ys
  pub apart : Disjoint xs ys

module _ (nx pv : Link) (h : ℕ) where
  pub around :
      (t : ℕ) (xs ys : List ℕ) (l : ℕ) → IsList nx pv h (xs ++ t ∷ ys) l → Around nx pv h t xs ys l
  around t xs ys l is =
      let (k, m, s, r) = split nx pv 0 h xs (t ∷ ys) l 0 is.seg in
      let (d, e, apart) = Distinct-split xs (t ∷ ys) is.distinct in
      record {
        ne_zero = r.1;
        left =
            subst (λ a. Seg nx pv 0 h xs (pv t) a) r.0
              (subst (λ b. Seg nx pv 0 h xs b m) (sym r.2) s);
        right = r.3;
        left_distinct = d;
        right_distinct = e.1;
        not_left = Disjoint-sym xs (t ∷ ys) apart t (ground arith);
        not_right = e.0;
        apart = λ a i. ground (arith, apart a);
      }

  -- Two segments that meet make a list.
  pub join :
      (xs ys : List ℕ) (k m l : ℕ)
      → Seg nx pv 0 h xs k m
      → Seg nx pv k m ys l 0
      → Distinct xs
      → Distinct ys
      → Disjoint xs ys
      → IsList nx pv h (xs ++ ys) l
  join xs ys k m l s r d e apart = record {
    seg = append nx pv 0 h xs k m ys l 0 s r;
    distinct = Distinct-append xs ys d e apart;
  }

module _ (nx pv : Link) (h : ℕ) (xs : List ℕ) (k a : ℕ) (ys : List ℕ) (b m l : ℕ)
    (left : Seg nx pv 0 h xs k a) (right : Seg nx pv b m ys l 0) (left_distinct : Distinct xs)
    (right_distinct : Distinct ys) (apart : Disjoint xs ys) where
  -- The two ends that face each other may be redirected.
  pub relink_left :
      (a' b' : ℕ) → Seg (relink nx k a') (relink pv m b') 0 (if k == 0 then a' else h) xs k a'
  relink_left a' b' =
      frame (relink nx k a') pv (relink nx k a') (relink pv m b') 0 (if k == 0 then a' else h) xs k
        a' (relink_end nx pv h xs k a a' left left_distinct) (λ x i. refl)
        (relink_spares pv m b' xs
          (λ ne. Disjoint-sym xs ys apart m ((first-eq_zero nx pv b m ys l right).1 ne)))

  pub relink_right :
      (a' b' : ℕ) → Seg (relink nx k a') (relink pv m b') b' m ys (if m == 0 then b' else l) 0
  relink_right a' b' =
      frame nx (relink pv m b') (relink nx k a') (relink pv m b') b' m ys (if m == 0 then b' else l)
        0 (relink_front nx pv b m ys l b' right right_distinct)
        (relink_spares nx k a' ys (λ ne. apart k ((last-eq_zero nx pv h xs k a left).1 ne)))
        (λ x i. refl)

  -- A new address `t` between the two, for links that agree with the redirected ones.
  pub splice :
      (t : ℕ) (nx' pv' : Link)
      → t ≢ 0
      → t ∉ xs
      → t ∉ ys
      → SameOn xs nx' (relink nx k t)
      → SameOn xs pv' (relink pv m t)
      → SameOn ys nx' (relink nx k t)
      → SameOn ys pv' (relink pv m t)
      → nx' t ≡ m
      → pv' t ≡ k
      → IsList nx' pv' (if k == 0 then t else h) (xs ++ t ∷ ys) (if m == 0 then t else l)
  splice t nx' pv' ne out out' fx bx fy by ft bt =
      let h' = if k == 0 then t else h in
      let l' = if m == 0 then t else l in
      let s = frame (relink nx k t) (relink pv m t) nx' pv' 0 h' xs k t (relink_left t t) fx bx in
      let r = frame (relink nx k t) (relink pv m t) nx' pv' t m ys l' 0 (relink_right t t) fy by in
      join nx' pv' h' xs (t ∷ ys) k t l' s (refl, ne, bt, rw ft r) left_distinct
        (out', right_distinct) (λ x i. ground (arith, apart x i))

module _ (nx pv : Link) (h : ℕ) where
  -- Unlinking `t` from its neighbours leaves the other addresses in their order.
  pub remove :
      (t : ℕ) (xs ys : List ℕ) (l : ℕ)
      → IsList nx pv h (xs ++ t ∷ ys) l
      → IsList
          (relink nx (pv t) (nx t))
          (relink pv (nx t) (pv t))
          (if pv t == 0 then nx t else h)
          (xs ++ ys)
          (if nx t == 0 then pv t else l)
  remove t xs ys l is =
      let c = around nx pv h t xs ys l is in
      join (relink nx (pv t) (nx t)) (relink pv (nx t) (pv t)) (if pv t == 0 then nx t else h) xs ys
        (pv t) (nx t) (if nx t == 0 then pv t else l)
        (relink_left nx pv h xs (pv t) t ys t (nx t) l c.left c.right c.left_distinct
          c.right_distinct c.apart (nx t) (pv t))
        (relink_right nx pv h xs (pv t) t ys t (nx t) l c.left c.right c.left_distinct
          c.right_distinct c.apart (nx t) (pv t))
        c.left_distinct c.right_distinct c.apart

  -- Head and tail are null together.
  pub head-tail : (xs : List ℕ) (l : ℕ) → IsList nx pv h xs l → (h == 0) ≡ (l == 0)
  head-tail [] l is = ground (arith, is.seg)
  head-tail (x ∷ xs) l is = ground (arith, is.seg, last-eq_zero nx pv h (x ∷ xs) l 0 is.seg)
