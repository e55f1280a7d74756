-- ===== src/Links/Insert.antt =====
-- Inserting an address behind another one, and putting one in the place of another.
use mathlib.Core.List.{append_assoc}
use mi_dev_integral_rel.Base.{
  ℕ, ◌≡◌, ◌≢◌, refl, true, false, List, [], ◌∷◌, ◌++◌, arith, ◌==◌, update, has, ◌∉◌, Distinct,
  Disjoint, Distinct-append, has-append, if◌then◌else◌,
}
use mi_dev_integral_rel.Links.{Link, Seg, append}
use mi_dev_integral_rel.Links.Lists.{IsList, Around, around, splice}
use mi_dev_integral_rel.Links.Relink.{last-eq_zero, first-eq_zero}

module _ (nx pv : Link) (h s t : ℕ) where
  -- The links once `t` stands behind `s`, and once `t` stands in the place of `s`.
  abbrev pub insert_next : Link
  insert_next x = if x == s then t else if x == t then nx s else nx x

  abbrev pub insert_prev : Link
  insert_prev = if nx s == 0 then update pv t s else update (update pv t s) (nx s) t

  abbrev pub replace_next : Link
  replace_next =
      if pv s == 0
      then update (update nx t (nx s)) s 0
      else update (update (update nx t (nx s)) s 0) (pv s) t

  abbrev pub replace_prev : Link
  replace_prev =
      if nx s == 0
      then update (update pv t (pv s)) s 0
      else update (update (update pv t (pv s)) s 0) (nx s) t

  module _ (xs ys : List ℕ) (l : ℕ) (is : IsList nx pv h (xs ++ s ∷ ys) l) (ne : t ≢ 0)
      (out : t ∉ xs ++ s ∷ ys) where
    abbrev c : Around nx pv h s xs ys l
    c = around nx pv h s xs ys l is

    -- `t` is none of the parts.
    outside : (t ∉ xs) × (t ≢ s) × (t ∉ ys)
    outside = (
      ground (arith, has-append t xs (s ∷ ys)),
      λ e. ground (arith, has-append t xs (s ∷ ys)),
      ground (arith, has-append t xs (s ∷ ys)),
    )

    prev_left : pv s ≢ 0 → has (pv s) xs ≡ true
    prev_left = (last-eq_zero nx pv h xs (pv s) s c.left).1

    next_right : nx s ≢ 0 → has (nx s) ys ≡ true
    next_right = (first-eq_zero nx pv s (nx s) ys l c.right).1

    front : Seg nx pv 0 h (xs ++ s ∷ []) s (nx s)
    front =
        append nx pv 0 h xs (pv s) s (s ∷ []) s (nx s) c.left (refl, c.ne_zero, refl, (refl, refl))

    front-Distinct : Distinct (xs ++ s ∷ [])
    front-Distinct =
        Distinct-append xs (s ∷ []) c.left_distinct (refl, tt) (λ a i. ground (arith, c.not_left))

    front-Disjoint : Disjoint (xs ++ s ∷ []) ys
    front-Disjoint a i = ground (arith, c.apart a, c.not_right, has-append a xs (s ∷ []))

    pub insert_after :
        IsList insert_next insert_prev h (xs ++ s ∷ t ∷ ys) (if nx s == 0 then t else l)
    insert_after =
        let r =
          splice nx pv h (xs ++ s ∷ []) s (nx s) ys s (nx s) l front c.right front-Distinct
            c.right_distinct front-Disjoint t insert_next insert_prev ne
            (ground (arith, has-append t xs (s ∷ []), outside)) outside.2
            (λ x i. ground (arith, has-append x xs (s ∷ []), outside, c.ne_zero))
            (λ x i. ground (arith, has-append x xs (s ∷ []), outside, next_right, front-Disjoint x))
            (λ x i. ground (arith, outside, c.ne_zero, c.not_right))
            (λ x i. ground (arith, outside, c.ne_zero, c.not_right)) (ground (arith, outside))
            (ground (arith, outside, next_right)) in
        let no : (s == 0) ≡ false = ground (arith, c.ne_zero) in rw no at (rw append_assoc at r)

    pub replaced :
        IsList replace_next replace_prev
          (if pv s == 0 then t else h)
          (xs ++ t ∷ ys)
          (if nx s == 0 then t else l)
    replaced =
        splice nx pv h xs (pv s) s ys s (nx s) l c.left c.right c.left_distinct c.right_distinct
          c.apart t replace_next replace_prev ne outside.0 outside.2
          (λ x i. ground (arith, outside, prev_left, c.not_left))
          (λ x i. ground (arith, outside, next_right, c.apart x, c.not_left))
          (λ x i. ground (arith, outside, prev_left, c.apart (pv s), c.not_right))
          (λ x i. ground (arith, outside, next_right, c.not_right))
          (ground (arith, outside, prev_left)) (ground (arith, outside, next_right))
