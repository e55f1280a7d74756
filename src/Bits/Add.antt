-- ===== src/Bits/Add.antt =====
-- A disjunction of words that share no bit is a sum.
use Prim.Native.Nat.{bit_or}
use native.Mathlib.Nat.{mod-eq_of_lt}
use mi_dev_integral_rel.Base.{
  ℕ, ◌+◌, ◌-◌, ◌*◌, ◌/◌, ◌%◌, ◌^◌, ◌<◌, ◌≡◌, sym, ◌∙◌, arith, ltb, if◌then◌else◌, Bool-cases, inl,
  inr,
}
use mi_dev_integral_rel.Bits.{test_bit, test_bit-or, bit_or-lt}
use mi_dev_integral_rel.Bits.Shift.{test_bit-div, test_bit-mod, test_bit-mul, test_bit-ext}

-- For the ten bits below a page table entry's page number.
bit_of_sum :
    (a f i : ℕ)
    → f < 2 ^ 10
    → test_bit (a * 2 ^ 10 + f) i ≡ (if ltb i 10 then test_bit f i else test_bit a (i - 10))
bit_of_sum a f i lt =
    let low : (a * 2 ^ 10 + f) % 2 ^ 10 ≡ f = omega arith in
    let high : (a * 2 ^ 10 + f) / 2 ^ 10 ≡ a = omega arith in
    elim (Bool-cases (ltb i 10)) [
      | inl e ↦ ground (arith, rw low at (test_bit-mod (a * 2 ^ 10 + f) 10 i), e)
      | inr e ↦
          let back : 10 + (i - 10) ≡ i = ground arith in
          ground (arith, rw (high, back) at (test_bit-div (a * 2 ^ 10 + f) 10 (i - 10)), e)
    ]

bit_of_or :
    (a f i : ℕ)
    → f < 2 ^ 10
    → test_bit (bit_or f (a * 2 ^ 10)) i ≡ (if ltb i 10 then test_bit f i else test_bit a (i - 10))
bit_of_or a f i lt =
    let small : f % 2 ^ 10 ≡ f = mod-eq_of_lt lt in
    let cut = rw small at (test_bit-mod f 10 i) in
    ground (arith, test_bit-or f (a * 2 ^ 10) i, test_bit-mul a 10 i, cut)

pub bit_or-page : (a f : ℕ) → a < 2 ^ 54 → f < 2 ^ 10 → bit_or f (a * 2 ^ 10) ≡ a * 2 ^ 10 + f
bit_or-page a f small lt =
    test_bit-ext 64 (bit_or f (a * 2 ^ 10)) (a * 2 ^ 10 + f)
      (bit_or-lt f (a * 2 ^ 10) (omega arith) (omega arith)) (omega arith)
      (λ i in_word. bit_of_or a f i lt ∙ sym (bit_of_sum a f i lt))
