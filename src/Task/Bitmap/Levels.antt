-- ===== src/Task/Bitmap/Levels.antt =====
-- The bitmap as a set of priorities: what adding, removing and the search for the highest one mean.
use mi_dev_integral_rel.Base.{
  ℕ, ◌+◌, ◌-◌, ◌*◌, ◌/◌, ◌%◌, ◌^◌, ◌<◌, ◌≤◌, ◌≡◌, ◌≢◌, sym, ◌∙◌, ap, Bool, true, false, not, ◌&&◌,
  ltb, ◌==◌, update, if◌then◌else◌, arith,
}
use mi_dev_integral_rel.Bits.{
  test_bit, set_bit, clear_bit, leading_zeros, leading_zeros-highest, find_bit, set_bit-lt,
  clear_bit-lt, test_bit-set_bit, test_bit-clear_bit, set_bit-ne_zero, test_bit-zero,
  zero-clear_bit,
}

-- The words stand for the set `ready` of priorities.
pub record Levels (l1 : ℕ) (l2 : ℕ → ℕ) (ready : ℕ → Bool) : Type 0 where
  pub l1_bound : l1 < 2 ^ 64
  pub l2_bound : (j : ℕ) → l2 j < 2 ^ 64
  pub level1 : (i : ℕ) → i < 64 → test_bit l1 i ≡ (ltb i 4 && not (l2 (3 - i) == 0))
  pub level2 : (i j : ℕ) → i < 4 → j < 64 → test_bit (l2 (3 - i)) j ≡ ready (64 * i + j)

-- The word of a priority, and the words once it is added or removed.
abbrev pub word : ℕ → ℕ
word p = 3 - p / 64

abbrev pub l2_add : (ℕ → ℕ) → ℕ → ℕ → ℕ
l2_add l2 p = update l2 (word p) (set_bit (l2 (word p)) (p % 64))

abbrev pub l2_remove : (ℕ → ℕ) → ℕ → ℕ → ℕ
l2_remove l2 p = update l2 (word p) (clear_bit (l2 (word p)) (p % 64))

abbrev pub l1_remove : ℕ → (ℕ → ℕ) → ℕ → ℕ
l1_remove l1 l2 p = if l2_remove l2 p (word p) == 0 then clear_bit l1 (p / 64) else l1

module _ (l1 : ℕ) (l2 : ℕ → ℕ) (ready : ℕ → Bool) (lv : Levels l1 l2 ready) (p : ℕ)
    (small : p < 256) where
  pub add-Levels : Levels (set_bit l1 (p / 64)) (l2_add l2 p) (update ready p true)
  add-Levels = record {
    l1_bound = set_bit-lt l1 (p / 64) lv.l1_bound (omega arith);
    l2_bound = λ j.
        ground (arith, lv.l2_bound j, set_bit-lt (l2 (word p)) (p % 64) (lv.l2_bound (word p)));
    level1 = λ i h. ground (
      arith,
      test_bit-set_bit l1 (p / 64) i,
      lv.level1 i,
      set_bit-ne_zero (l2 (word p)) (p % 64),
    );
    level2 =
        λ i j h h'. ground (arith, test_bit-set_bit (l2 (word p)) (p % 64) j, lv.level2 i j h h');
  }

  pub remove-Levels : Levels (l1_remove l1 l2 p) (l2_remove l2 p) (update ready p false)
  remove-Levels = record {
    l1_bound = ground (arith, lv.l1_bound, clear_bit-lt l1 (p / 64));
    l2_bound = λ j.
        ground (arith, lv.l2_bound j, clear_bit-lt (l2 (word p)) (p % 64) (lv.l2_bound (word p)));
    level1 = λ i h. ground (
      arith,
      test_bit-clear_bit l1 (p / 64) i,
      lv.level1 i,
      zero-clear_bit (p % 64),
      ap (λ (w : ℕ). clear_bit w (p % 64)),
    );
    level2 =
        λ i j h h'. ground (arith, test_bit-clear_bit (l2 (word p)) (p % 64) j, lv.level2 i j h h');
  }

-- `p` is the highest priority of the set.
pub record IsHighest (ready : ℕ → Bool) (p : ℕ) : Type 0 where
  pub small : p < 256
  pub member : ready p ≡ true
  pub highest : (q : ℕ) → q < 256 → ready q ≡ true → q ≤ p

-- The two indices that the search finds.
abbrev pub top1 : ℕ → ℕ
top1 l1 = 63 - leading_zeros l1

abbrev pub top2 : ℕ → (ℕ → ℕ) → ℕ
top2 l1 l2 = 63 - leading_zeros (l2 (3 - top1 l1))

module _ (l1 : ℕ) (l2 : ℕ → ℕ) (ready : ℕ → Bool) (lv : Levels l1 l2 ready) where
  -- A ready priority shows in both levels.
  pub shows :
      (q : ℕ)
      → q < 256
      → ready q ≡ true
      → (test_bit l1 (q / 64) ≡ true) × (test_bit (l2 (3 - q / 64)) (q % 64) ≡ true)
  shows q h r =
      let e : 64 * (q / 64) + q % 64 ≡ q = omega arith in
      let bit2 : test_bit (l2 (3 - q / 64)) (q % 64) ≡ true =
        lv.level2 (q / 64) (q % 64) (omega arith) (omega arith) ∙ ap ready e ∙ r in
      (
        ground (
          arith,
          lv.level1 (q / 64),
          bit2,
          ap (λ (w : ℕ). test_bit w (q % 64)),
          test_bit-zero (q % 64),
        ),
        bit2,
      )

  module _ (some_ready : l1 ≢ 0) where
    pub first_level : (top1 l1 < 4) × (leading_zeros l1 < 64) × (l2 (3 - (top1 l1)) ≢ 0)
    first_level =
        let (i, h, set) = find_bit 64 l1 lv.l1_bound some_ready in
        let (a, b, c) = leading_zeros-highest l1 i h set in ground (arith, lv.level1 (top1 l1))

    pub second_level :
        (leading_zeros (l2 (3 - (top1 l1))) < 64)
        × (test_bit (l2 (3 - (top1 l1))) (top2 l1 l2) ≡ true)
    second_level =
        let (i, h, set) =
          find_bit 64 (l2 (3 - (top1 l1))) (lv.l2_bound (3 - (top1 l1))) first_level.2 in
        let (a, b, c) = leading_zeros-highest (l2 (3 - (top1 l1))) i h set in (a, b)

    pub top-IsHighest : IsHighest ready (64 * (top1 l1) + (top2 l1 l2))
    top-IsHighest =
        let f = first_level in
        let s = second_level in
        record {
          small = omega arith;
          member = sym (lv.level2 (top1 l1) (top2 l1 l2) f.0 (omega arith)) ∙ s.1;
          highest = λ q h r.
              let sh = shows q h r in
              ground (
                arith,
                leading_zeros-highest l1 (q / 64) (omega arith) sh.0,
                leading_zeros-highest (l2 (3 - q / 64)) (q % 64) (omega arith) sh.1,
              );
        }
