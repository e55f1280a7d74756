-- ===== src/Task/Bitmap/Words.antt =====
-- The commands on the bitmap in memory add, remove and find priorities.
use mi_dev_integral_rel.Base.{
  ℕ, ◌+◌, ◌-◌, ◌*◌, ◌/◌, ◌<◌, ◌≤◌, ◌≡◌, ◌≢◌, refl, ap, Bool, true, false, ltb, ◌==◌, update, arith,
  if◌then◌else◌, Bool-cases, inl, inr, ◌↔◌,
}
use mi_dev_integral_rel.Bits.{
  test_bit, bit_or-add, leading_zeros, test_bit-zero, set_bit, clear_bit,
}
use mi_dev_integral_rel.Cmd.{ok}
use mi_dev_integral_rel.Cmd.Returns.{Returns, returns}
use mi_dev_integral_rel.Task.{Tasks}
use mi_dev_integral_rel.Task.Bitmap.{
  get_highest_prio, is_highest_prio, add_to_bitmap, remove_from_bitmap, invert_l1index,
  prio_to_l1index,
}
use mi_dev_integral_rel.Task.Bitmap.Levels.{
  Levels, IsHighest, word, l2_add, l2_remove, top1, top2, add-Levels, remove-Levels, shows,
  first_level, second_level, top-IsHighest,
}

-- What memory's bitmap stands for.
abbrev pub Bitmap : Tasks → (ℕ → Bool) → Type 0
Bitmap k ready = Levels (k.l1_bitmap 0) (k.l2_bitmap 0) ready

-- Memory after a priority is added or removed.
abbrev pub added : Tasks → ℕ → Tasks
added k p = record k {
  l1_bitmap = update k.l1_bitmap 0 (set_bit (k.l1_bitmap 0) (p / 64));
  l2_bitmap = update k.l2_bitmap 0 (l2_add (k.l2_bitmap 0) p);
}

abbrev pub removed : Tasks → ℕ → Tasks
removed k p = record k {
  l1_bitmap =
      if l2_remove (k.l2_bitmap 0) p (word p) == 0
      then update k.l1_bitmap 0 (clear_bit (k.l1_bitmap 0) (p / 64))
      else k.l1_bitmap;
  l2_bitmap = update k.l2_bitmap 0 (l2_remove (k.l2_bitmap 0) p);
}

abbrev pub top : Tasks → ℕ
top k = 64 * top1 (k.l1_bitmap 0) + top2 (k.l1_bitmap 0) (k.l2_bitmap 0)

module _ (k : Tasks) (ready : ℕ → Bool) (lv : Bitmap k ready) where
  pub highest_run : k.l1_bitmap 0 ≢ 0 → get_highest_prio 0 k ≡ ok (top k) k
  unfolding get_highest_prio
  highest_run ne =
      let f = first_level (k.l1_bitmap 0) (k.l2_bitmap 0) ready lv ne in
      let s = second_level (k.l1_bitmap 0) (k.l2_bitmap 0) ready lv ne in
      ground (
        arith,
        bit_or-add (63 - leading_zeros (k.l1_bitmap 0))
            (63 - leading_zeros (k.l2_bitmap 0 (3 - (63 - leading_zeros (k.l1_bitmap 0))))),
      )

  -- When the first level is not empty, the search returns the highest ready priority, and writes
  -- nothing.
  pub get_highest_prio-IsHighest :
      k.l1_bitmap 0 ≢ 0 → Returns (λ p k'. IsHighest ready p × (k' ≡ k)) (get_highest_prio 0 k)
  get_highest_prio-IsHighest ne =
      rw (highest_run ne)
        (returns (top-IsHighest (k.l1_bitmap 0) (k.l2_bitmap 0) ready lv ne, refl))

  -- The first level is empty exactly when no priority is ready.
  pub l1_bitmap-eq_zero : k.l1_bitmap 0 ≡ 0 → (q : ℕ) → q < 256 → ready q ≡ false
  l1_bitmap-eq_zero e q h = elim (Bool-cases (ready q)) [
    | inl r ↦
        let sh = shows (k.l1_bitmap 0) (k.l2_bitmap 0) ready lv q h r in
        ground (arith, sh.0, ap (λ (w : ℕ). test_bit w (q / 64)) e, test_bit-zero (q / 64))
    | inr r ↦ r
  ]

  -- A priority is called the highest exactly when no ready one is above it.
  pub is_highest_prio-IsHighest :
      (p : ℕ)
      → Returns
          (λ b k'. ((b ≡ true) ↔ ((q : ℕ) → q < 256 → ready q ≡ true → q ≤ p)) × (k' ≡ k))
          (is_highest_prio 0 p k)
  unfolding is_highest_prio
  is_highest_prio-IsHighest p = elim (Bool-cases (k.l1_bitmap 0 == 0)) [
    | inl e ↦
        let none_ready = l1_bitmap-eq_zero (ground arith) in
        rw e (returns ((λ b q h r. absurd (ground (arith, none_ready q h)), λ all. refl), refl))
    | inr e ↦
        let ne : k.l1_bitmap 0 ≢ 0 = ground arith in
        let best = top-IsHighest (k.l1_bitmap 0) (k.l2_bitmap 0) ready lv ne in
        rw (e, highest_run ne)
          (returns (
            (
              λ b q h r. ground (arith, best.highest q h r),
              λ all. ground (arith, all (top k) best.small best.member),
            ),
            refl,
          ))
  ]

  module _ (p : ℕ) (small : p < 256) where
    inverted : invert_l1index (prio_to_l1index p) ≡ word p
    inverted = omega arith

    inside : ltb (word p) 4 ≡ true
    inside = ground arith

    pub add_run : add_to_bitmap 0 p k ≡ ok tt (added k p)
    unfolding add_to_bitmap
    add_run = rw (inverted, inside)

    pub added-Bitmap : Bitmap (added k p) (update ready p true)
    added-Bitmap = add-Levels (k.l1_bitmap 0) (k.l2_bitmap 0) ready lv p small

    pub remove_run : remove_from_bitmap 0 p k ≡ ok tt (removed k p)
    unfolding remove_from_bitmap
    remove_run =
        rw (inverted, inside)
          (elim (Bool-cases (l2_remove (k.l2_bitmap 0) p (word p) == 0)) [
            | inl last ↦ rw last
            | inr more ↦ rw more
          ])

    pub removed-Bitmap : Bitmap (removed k p) (update ready p false)
    removed-Bitmap =
        let lv' = remove-Levels (k.l1_bitmap 0) (k.l2_bitmap 0) ready lv p small in
        elim (Bool-cases (l2_remove (k.l2_bitmap 0) p (word p) == 0)) [
          | inl last ↦ rw last (rw last at lv')
          | inr more ↦ rw more (rw more at lv')
        ]
