-- ===== src/Kernel/Untyped/Blocks.antt =====
-- The arithmetic of untyped blocks: where the objects of a retype stand.
use Prim.Native.Nat.{bit_and}
use native.Mathlib.Nat.{
  add-mul, le_trans, mod-eq_of_lt, pow-le-pow_right, div-mul-le_self, mul-le-mul_right, mod-lt,
}
use mi_dev_integral_rel.Base.{
  ℕ, ◌+◌, ◌-◌, ◌*◌, ◌/◌, ◌%◌, ◌^◌, ◌≤◌, ◌<◌, ◌≡◌, ◌∙◌, ap, arith, leb, Bool-cases, inl, inr,
}
use mi_dev_integral_rel.Digits.{pow_pos, digits_of, mod_low}
use mi_dev_integral_rel.Bits.{test_bit-and, test_bit-complement, bit_and-lt}
use mi_dev_integral_rel.Bits.Shift.{test_bit-div, test_bit-mul, test_bit-ones, test_bit-ext}
use mi_dev_integral_rel.Cspace.Cap.{mask, wrapping_add}
use mi_dev_integral_rel.Kernel.Untyped.{wrapping_sub, bit_of, align_up}

-- Masking the low bits away rounds down.
pub bit_and-round :
    (x a : ℕ) → x < 2 ^ 64 → a < 64 → bit_and x (2 ^ 64 - 1 - mask a) ≡ x / 2 ^ a * 2 ^ a
bit_and-round x a lt small =
    let le : 2 ^ a ≤ 2 ^ 64 = pow-le-pow_right (omega arith) {j = 64} (omega arith) in
    test_bit-ext 64 _ _ (bit_and-lt x (2 ^ 64 - 1 - mask a) lt (omega arith))
      (omega (arith, digits_of x (2 ^ a)))
      (λ i h. ground (
        arith,
        test_bit-and x (2 ^ 64 - 1 - mask a) i,
        test_bit-complement 64 (mask a) i (omega (arith, le, pow_pos a)) h,
        test_bit-ones a i,
        test_bit-mul (x / 2 ^ a) a i,
        test_bit-div x a (i - a),
      ))

-- The next multiple of `m`.
pub up : ℕ → ℕ → ℕ
up x m = (x + (m - 1)) / m * m

-- `align_up` without overflow: the next multiple.
pub align_up-round :
    (base a : ℕ) → base + 2 ^ a < 2 ^ 64 → a < 64 → align_up base a ≡ up base (2 ^ a)
unfolding align_up up
align_up-round base a fits small =
    let le : 2 ^ a < 2 ^ 64 = omega (arith, fits) in
    let e : wrapping_sub (wrapping_add base (bit_of a)) 1 ≡ base + (2 ^ a - 1) =
      let f : 2 ^ a % 2 ^ 64 ≡ 2 ^ a = mod-eq_of_lt le in rw f (omega (arith, pow_pos a)) in
    rw e (bit_and-round (base + (2 ^ a - 1)) a (omega (arith, pow_pos a)) small)

-- It is within a block whose end is a multiple, with all the objects that the block has room for.
module _ (x m e : ℕ) (pos : 0 < m) where
  pub up-le : x ≤ up x m
  unfolding up
  up-le = omega (arith, digits_of (x + (m - 1)) m, mod-lt (x + (m - 1)) pos)

  pub up-multiple : up x m % m ≡ 0
  unfolding up
  up-multiple =
      (let f : (x + (m - 1)) / m * m ≡ (x + (m - 1)) / m * m + 0 = omega arith in
        ap (λ (t : ℕ). t % m) f)
      ∙ mod_low ((x + (m - 1)) / m) m 0 pos

  pub up-room : (n : ℕ) → e % m ≡ 0 → x ≤ e → n ≤ (e - x) / m → up x m + n * m ≤ e
  unfolding up
  up-room n end le fits =
      let q : ℕ = (x + (m - 1)) / m in
      let whole : e ≡ e / m * m = digits_of e m ∙ omega (arith, end) in
      let room : n * m ≤ e - x = le_trans (mul-le-mul_right m fits) (div-mul-le_self (e - x) m) in
      let down : q * m ≤ x + (m - 1) = div-mul-le_self (x + (m - 1)) m in
      let sum : (q + n) * m ≡ q * m + n * m = add-mul q n m in
      elim (Bool-cases (leb (q + n) (e / m))) [
        | inl h ↦
            let fit : (q + n) * m ≤ e / m * m = mul-le-mul_right m (ground (arith, h)) in
            omega (arith, fit, sum, whole)
        | inr h ↦
            let over : (e / m + 1) * m ≤ (q + n) * m = mul-le-mul_right m (ground (arith, h)) in
            let split : (e / m + 1) * m ≡ e / m * m + m = omega (arith, add-mul (e / m) 1 m) in
            absurd (omega (arith, over, split, sum, whole, room, down, le, pos))
      ]
