-- ===== src/Bits/Shift.antt =====
-- Bits of shifted and masked words, and words that agree in every bit.
use native.Mathlib.Nat.{pow-suc, mod-eq_of_lt}
use mi_dev_integral_rel.Base.{
  ℕ, zero, suc, ◌+◌, ◌-◌, ◌*◌, ◌/◌, ◌%◌, ◌^◌, ◌<◌, ◌≡◌, ◌∙◌, refl, ap, ◌&&◌, arith, ltb, leb, ◌==◌,
  Bool-cases, inl, inr,
}
use mi_dev_integral_rel.Digits.{div_twice, mod_twice, pow_pos}
use mi_dev_integral_rel.Bits.{test_bit, test_bit-zero, test_bit-complement}

pub test_bit-div : (w k i : ℕ) → test_bit (w / 2 ^ k) i ≡ test_bit w (k + i)
unfolding test_bit
test_bit-div w zero i =
    let e : w / 2 ^ 0 ≡ w = omega arith in let f : 0 + i ≡ i = omega arith in rw (e, f) refl
test_bit-div w (suc k) i =
    let e : w / 2 ^ suc k ≡ w / 2 / 2 ^ k =
      ap (λ (t : ℕ). w / t) (pow-suc 2 k) ∙ div_twice w 2 (2 ^ k) (omega arith) (pow_pos k) in
    let f : suc k + i ≡ suc (k + i) = omega arith in rw (e, f) (test_bit-div (w / 2) k i)

pub test_bit-mod : (w n i : ℕ) → test_bit (w % 2 ^ n) i ≡ (ltb i n && test_bit w i)
unfolding test_bit
test_bit-mod w zero i =
    let e : w % 2 ^ 0 ≡ 0 = omega arith in rw e (ground (arith, test_bit-zero i))
test_bit-mod w (suc n) zero =
    let e : w % 2 ^ suc n ≡ w / 2 % 2 ^ n * 2 + w % 2 =
      ap (λ (t : ℕ). w % t) (pow-suc 2 n) ∙ mod_twice w 2 (2 ^ n) (omega arith) (pow_pos n) in
    rw e (ground arith)
test_bit-mod w (suc n) (suc i) =
    let e : w % 2 ^ suc n ≡ w / 2 % 2 ^ n * 2 + w % 2 =
      ap (λ (t : ℕ). w % t) (pow-suc 2 n) ∙ mod_twice w 2 (2 ^ n) (omega arith) (pow_pos n) in
    let f : (w / 2 % 2 ^ n * 2 + w % 2) / 2 ≡ w / 2 % 2 ^ n = omega arith in
    rw (e, f) (ground (arith, test_bit-mod (w / 2) n i))

pub test_bit-mul : (w k i : ℕ) → test_bit (w * 2 ^ k) i ≡ (leb k i && test_bit w (i - k))
unfolding test_bit
test_bit-mul w zero i =
    let e : w * 2 ^ 0 ≡ w = omega arith in
    let f : i - 0 ≡ i = omega arith in rw (e, f) (ground arith)
test_bit-mul w (suc k) zero =
    let e : w * 2 ^ suc k ≡ w * 2 ^ k * 2 = grind (arith, pow-suc 2 k) in rw e (ground arith)
test_bit-mul w (suc k) (suc i) =
    let e : w * 2 ^ suc k / 2 ≡ w * 2 ^ k = grind (arith, pow-suc 2 k) in
    let f : suc i - suc k ≡ i - k = omega arith in rw (e, f) (ground (arith, test_bit-mul w k i))

-- All ones.
pub test_bit-ones : (n i : ℕ) → test_bit (2 ^ n - 1) i ≡ ltb i n
test_bit-ones n i = elim (Bool-cases (ltb i n)) [
  | inl e ↦
      let f : 2 ^ n - 1 - 0 ≡ 2 ^ n - 1 = omega arith in
      ground
        (arith, rw f at (test_bit-complement n 0 i (pow_pos n) (ground arith)), test_bit-zero i)
  | inr e ↦
      let f : (2 ^ n - 1) % 2 ^ n ≡ 2 ^ n - 1 = mod-eq_of_lt (omega (arith, pow_pos n)) in
      ground (arith, rw f at (test_bit-mod (2 ^ n - 1) n i))
]

-- Words that agree in every bit are equal.
pub test_bit-ext :
    (n a b : ℕ) → a < 2 ^ n → b < 2 ^ n → ((i : ℕ) → i < n → test_bit a i ≡ test_bit b i) → a ≡ b
unfolding test_bit
test_bit-ext zero a b lt lt' same = omega arith
test_bit-ext (suc n) a b lt lt' same =
    let half : a / 2 ≡ b / 2 =
      test_bit-ext n (a / 2) (b / 2) (omega (arith, pow-suc 2 n)) (omega (arith, pow-suc 2 n))
        (λ i h. same (suc i) (omega arith)) in
    let low : (a % 2 == 1) ≡ (b % 2 == 1) = same 0 (omega arith) in ground (arith, half, low)
