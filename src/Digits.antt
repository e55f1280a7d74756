-- ===== src/Digits.antt =====
-- Numbers in mixed radix: shifts and masks of the source read digits.
use native.Mathlib.Nat.{
  mul-add-div_right, div-eq_of_lt, mod-eq_of_lt, mul-add-mod_self_right, mul-le-mul_right,
  mul_assoc, add-mul, pow-suc, mul-one, add-zero, one-le-pow, mod-add-div, mod-lt,
}
use native.Mathlib.Numerals.{unary_clauses}
use mi_dev_integral_rel.Base.{
  ℕ, zero, suc, ◌+◌, ◌*◌, ◌/◌, ◌%◌, ◌^◌, ◌≤◌, ◌<◌, ◌≡◌, ◌∙◌, refl, ap, arith,
}

-- The digits of a number in mixed radix.
pub div_low : (x m q : ℕ) → q < m → (x * m + q) / m ≡ x
div_low x m q lt =
    let pos : 0 < m = omega arith in
    mul-add-div_right pos x q ∙ (let z = div-eq_of_lt lt in rw z (omega arith))

pub mod_low : (x r i : ℕ) → i < r → (x * r + i) % r ≡ i
mod_low x r i lt = mul-add-mod_self_right x r i ∙ mod-eq_of_lt lt

pub below : (r i m q : ℕ) → i < r → q < m → i * m + q < r * m
below r i m q lt lt' =
    let le : suc i * m ≤ r * m = mul-le-mul_right m (omega arith) in
    let e : suc i * m ≡ i * m + m = omega arith in omega arith

pub regroup : (y r i m q : ℕ) → (y * r + i) * m + q ≡ y * (r * m) + (i * m + q)
regroup y r i m q = rw (add-mul (y * r) i m, mul_assoc y r m) (omega arith)

pub pow_sum : (a b : ℕ) → 2 ^ (a + b) ≡ 2 ^ a * 2 ^ b
pow_sum a zero = simp (unary_clauses, mul-one, add-zero) refl
pow_sum a (suc b) =
    let e : a + suc b ≡ suc (a + b) = omega arith in
    rw (e, pow-suc 2 (a + b), pow_sum a b, pow-suc 2 b) (mul_assoc (2 ^ a) (2 ^ b) 2)

pub pow_pos : (n : ℕ) → 0 < 2 ^ n
pow_pos n = one-le-pow n 2 (omega arith)

-- The digits of `w` to base `m`.
pub digits_of : (w m : ℕ) → w ≡ w / m * m + w % m
digits_of w m = grind (arith, mod-add-div w m)

module _ (w m r : ℕ) (pos : 0 < m) (pos' : 0 < r) where
  split : w ≡ w / m / r * (r * m) + (w / m % r * m + w % m)
  split =
      digits_of w m
      ∙ ap (λ (t : ℕ). t * m + w % m) (digits_of (w / m) r)
      ∙ regroup (w / m / r) r (w / m % r) m (w % m)

  low_part : w / m % r * m + w % m < r * m
  low_part = below r (w / m % r) m (w % m) (mod-lt (w / m) pos') (mod-lt w pos)

  -- A shift in two steps, and a mask in two parts.
  pub div_twice : w / (r * m) ≡ w / m / r
  div_twice = ap (λ (t : ℕ). t / (r * m)) split ∙ div_low (w / m / r) (r * m) _ low_part

  pub mod_twice : w % (r * m) ≡ w / m % r * m + w % m
  mod_twice = ap (λ (t : ℕ). t % (r * m)) split ∙ mod_low (w / m / r) (r * m) _ low_part
