-- ===== src/Field.antt =====
-- sel4_common/src/utils.rs: the fields that `plus_define_bitfield!` packs into machine words.
pub mod Layout
mod Tests
use Prim.Native.Nat.{bit_and, bit_or}
use native.Mathlib.Nat.{zero-mod, mod-eq_of_lt, mod-le, pow-le-pow_right, mod-lt}
use mi_dev_integral_rel.Base.{
  ℕ, zero, suc, ◌+◌, ◌-◌, ◌*◌, ◌/◌, ◌%◌, ◌^◌, ◌≤◌, ◌<◌, ◌≡◌, ◌≢◌, ◌∙◌, refl, sym, ap, Bool, true,
  false, not, ◌&&◌, ◌||◌, arith, ltb, leb, ◌==◌, if◌then◌else◌, Bool-cases, ◌⊎◌, inl, inr, update,
}
use mi_dev_integral_rel.Digits.{pow_sum, pow_pos, digits_of}
use mi_dev_integral_rel.Bits.{
  test_bit, test_bit-or, test_bit-and, test_bit-complement, bit_or-lt, bit_and-lt, test_bit-pow,
  eq_zero-test_bit, test_bit-zero,
}
use mi_dev_integral_rel.Bits.Shift.{
  test_bit-div, test_bit-mod, test_bit-mul, test_bit-ones, test_bit-ext,
}

-- A field of the macro's table: the word and the place in it, the low bits that are not kept, and
-- whether the value is read with its sign.
pub record Field : Type 0 where
  pub index : ℕ
  pub offset : ℕ
  pub bits : ℕ
  pub shift : ℕ
  pub sign_ext : Bool

-- `((1u128 << bits) - 1) as usize`
unfoldable pub mask : ℕ → ℕ
mask bits = (2 ^ bits - 1) % 2 ^ 64

-- `((value >> shift) & mask) << offset`
unfoldable pub placed : Field → ℕ → ℕ
placed f value = bit_and (value / 2 ^ f.shift) (mask f.bits) * 2 ^ f.offset % 2 ^ 64

-- `((word >> offset) & mask) << shift`
unfoldable pub read : Field → ℕ → ℕ
read f word = bit_and (word / 2 ^ f.offset) (mask f.bits) * 2 ^ f.shift % 2 ^ 64

-- `if sign_ext && (ret & (1 << 38)) != 0 { ret |= 0xffffff8000000000 }`
unfoldable pub extended : Bool → ℕ → ℕ
extended sign_ext ret =
    if sign_ext && not (bit_and ret (2 ^ 38) == 0) then bit_or ret 0xffffff8000000000 else ret

-- The generated getters and setters.
unfoldable pub get : Field → (ℕ → ℕ) → ℕ
get f words = extended f.sign_ext (read f (words f.index))

unfoldable pub set : Field → (ℕ → ℕ) → ℕ → ℕ → ℕ
set f words value = update words f.index (
    bit_or (bit_and (words f.index) (2 ^ 64 - 1 - mask f.bits * 2 ^ f.offset % 2 ^ 64))
      (placed f value))

-- A field lies in its word, and so does the value that it is read as.
pub IsField : Field → Type 0
IsField f = (f.offset + f.bits ≤ 64) × (f.bits + f.shift ≤ 64)

-- The bits of a word that belong to a field.
abbrev pub covers : Field → ℕ → Bool
covers f p = leb f.offset p && ltb p (f.offset + f.bits)

test_bit-mask : (bits i : ℕ) → bits ≤ 64 → test_bit (mask bits) i ≡ ltb i bits
unfolding mask
test_bit-mask bits i le =
    let h : 2 ^ bits ≤ 2 ^ 64 = pow-le-pow_right (omega arith) le in
    let e : (2 ^ bits - 1) % 2 ^ 64 ≡ 2 ^ bits - 1 = mod-eq_of_lt (omega (arith, h)) in
    rw e (test_bit-ones bits i)

pub test_bit-placed :
    (f : Field) (value p : ℕ)
    → IsField f
    → p < 64
    → test_bit (placed f value) p ≡ (covers f p && test_bit value (f.shift + (p - f.offset)))
unfolding placed IsField
test_bit-placed f value p wf lt = ground (
  arith,
  test_bit-mod (bit_and (value / 2 ^ f.shift) (mask f.bits) * 2 ^ f.offset) 64 p,
  test_bit-mul (bit_and (value / 2 ^ f.shift) (mask f.bits)) f.offset p,
  test_bit-and (value / 2 ^ f.shift) (mask f.bits) (p - f.offset),
  test_bit-mask f.bits (p - f.offset) (omega arith),
  test_bit-div value f.shift (p - f.offset),
)

test_bit-read :
    (f : Field) (word i : ℕ)
    → IsField f
    → i < 64
    → test_bit (read f word) i
      ≡ (leb f.shift i && (ltb (i - f.shift) f.bits && test_bit word (f.offset + (i - f.shift))))
unfolding read IsField
test_bit-read f word i wf lt = ground (
  arith,
  test_bit-mod (bit_and (word / 2 ^ f.offset) (mask f.bits) * 2 ^ f.shift) 64 i,
  test_bit-mul (bit_and (word / 2 ^ f.offset) (mask f.bits)) f.shift i,
  test_bit-and (word / 2 ^ f.offset) (mask f.bits) (i - f.shift),
  test_bit-mask f.bits (i - f.shift) (omega arith),
  test_bit-div word f.offset (i - f.shift),
)

-- The bits of a word after `set`.
test_bit-set :
    (f : Field) (words : ℕ → ℕ) (value p : ℕ)
    → IsField f
    → p < 64
    → test_bit (set f words value f.index) p ≡ (
        if covers f p
        then test_bit value (f.shift + (p - f.offset))
        else test_bit (words f.index) p)
unfolding set IsField
test_bit-set f words value p wf lt = ground (
  arith,
  test_bit-or (bit_and (words f.index) (2 ^ 64 - 1 - mask f.bits * 2 ^ f.offset % 2 ^ 64))
      (placed f value) p,
  test_bit-placed f value p wf lt,
  test_bit-and (words f.index) (2 ^ 64 - 1 - mask f.bits * 2 ^ f.offset % 2 ^ 64) p,
  test_bit-complement 64 (mask f.bits * 2 ^ f.offset % 2 ^ 64) p (omega arith) lt,
  test_bit-mod (mask f.bits * 2 ^ f.offset) 64 p,
  test_bit-mul (mask f.bits) f.offset p,
  test_bit-mask f.bits (p - f.offset) (omega arith),
)

-- Bit 38, the sign of an address.
test_bit-sign : (ret : ℕ) → ret < 2 ^ 64 → (bit_and ret (2 ^ 38) == 0) ≡ not (test_bit ret 38)
unfolding test_bit
test_bit-sign ret lt =
    let at : test_bit (bit_and ret (2 ^ 38)) 38 ≡ (test_bit ret 38 && true) =
      test_bit-and ret (2 ^ 38) 38 in
    elim (Bool-cases (test_bit ret 38)) [
      | inl e ↦
          let ne : bit_and ret (2 ^ 38) ≢ 0 =
            λ z. absurd (cc (at, e, ap (λ (t : ℕ). test_bit t 38) z, test_bit-zero 38)) in
          rw e (ground (arith, ne))
      | inr e ↦
          let z : bit_and ret (2 ^ 38) ≡ 0 =
            eq_zero-test_bit 64 (bit_and ret (2 ^ 38)) (bit_and-lt ret (2 ^ 38) lt (omega arith))
              (λ i h. ground (arith, test_bit-and ret (2 ^ 38) i, test_bit-pow 38 i)) in
          rw (e, z) refl
    ]

-- The values that a field keeps: those of its width, or, in a field of the 39 bits of a virtual
-- address that is read with its sign, the addresses of the upper half.
unfoldable pub IsStorable : Field → ℕ → Type 0
IsStorable f v =
    (v < 2 ^ 64)
    × (v % 2 ^ f.shift ≡ 0)
    × ((v < 2 ^ (f.bits + f.shift)) × ((not f.sign_ext || not (test_bit v 38)) ≡ true)
        ⊎ (f.sign_ext ≡ true) × (f.bits + f.shift ≡ 39) × (2 ^ 64 - 2 ^ 38 ≤ v))

-- The upper half of the addresses: every bit from 38 on is set.
upper : ℕ
upper = 2 ^ 64 - 2 ^ 38

test_bit-upper : (v i : ℕ) → upper ≤ v → v < 2 ^ 64 → i < 26 → test_bit v (38 + i) ≡ true
unfolding upper
test_bit-upper v i le lt h =
    let e : v / 2 ^ 38 ≡ 2 ^ 26 - 1 = omega arith in
    sym (test_bit-div v 38 i) ∙ (rw e (ground (arith, test_bit-ones 26 i)))

extended-upper : (v : ℕ) → upper ≤ v → v < 2 ^ 64 → extended true (v % 2 ^ 39) ≡ v
unfolding extended upper
extended-upper v le lt =
    let small : v % 2 ^ 39 < 2 ^ 64 = omega arith in
    let sign : test_bit (v % 2 ^ 39) 38 ≡ true =
      test_bit-mod v 39 38 ∙ test_bit-upper v 0 le lt (omega arith) in
    rw (test_bit-sign (v % 2 ^ 39) small, sign)
      (test_bit-ext 64 _ v (bit_or-lt (v % 2 ^ 39) 0xffffff8000000000 small (omega arith)) lt
        (λ i h. ground (
          arith,
          test_bit-or (v % 2 ^ 39) 0xffffff8000000000 i,
          test_bit-mod v 39 i,
          test_bit-mul (2 ^ 25 - 1) 39 i,
          test_bit-ones 25 (i - 39),
          test_bit-upper v (i - 38) le lt,
        )))

extended-low :
    (sign_ext : Bool) (v : ℕ)
    → v < 2 ^ 64
    → (not sign_ext || not (test_bit v 38)) ≡ true
    → extended sign_ext v ≡ v
unfolding extended
extended-low sign_ext v lt clear = ground (arith, test_bit-sign v lt)

read-lt : (f : Field) (w : ℕ) → read f w < 2 ^ 64
unfolding read
read-lt f w = omega arith

-- A field is read as the value whose bits stand in its place.
module _ (f : Field) (words : ℕ → ℕ) (v : ℕ) (wf : IsField f)
    (placed_bits : (p : ℕ)
      → p < 64
      → covers f p ≡ true
      → test_bit (words f.index) p ≡ test_bit v (f.shift + (p - f.offset))) where
  below_shift : v % 2 ^ f.shift ≡ 0 → (i : ℕ) → (ltb i f.shift && test_bit v i) ≡ false
  below_shift low i = sym (test_bit-mod v f.shift i) ∙ (rw low (test_bit-zero i))

  read-low : v < 2 ^ 64 → v % 2 ^ f.shift ≡ 0 → read f (words f.index) ≡ v % 2 ^ (f.bits + f.shift)
  unfolding IsField
  read-low lt low =
      test_bit-ext 64 _ _ (read-lt f (words f.index))
        (omega (arith, mod-le v (2 ^ (f.bits + f.shift))))
        (λ i h. ground (
          arith,
          test_bit-read f (words f.index) i wf h,
          placed_bits (f.offset + (i - f.shift)),
          test_bit-mod v (f.bits + f.shift) i,
          below_shift low i,
        ))

  pub get-of_bits : IsStorable f v → get f words ≡ v
  unfolding get IsStorable upper
  get-of_bits (lt, low, inl (fits, clear)) =
      let e : v % 2 ^ (f.bits + f.shift) ≡ v = mod-eq_of_lt fits in
      rw (read-low lt low, e) (extended-low f.sign_ext v lt clear)
  get-of_bits (lt, low, inr (signed, width, le)) =
      rw (read-low lt low, width, signed) (extended-upper v le lt)

-- In a field that lies in its word, a value that the field can keep is read back once it is set.
pub get-set :
    (f : Field) (words : ℕ → ℕ) (v : ℕ) → IsField f → IsStorable f v → get f (set f words v) ≡ v
get-set f words v wf ok =
    get-of_bits f (set f words v) v wf (λ p lt c. ground (arith, test_bit-set f words v p wf lt)) ok

-- Two fields that share no bit.
abbrev pub apart : Field → Field → Bool
apart f g =
    not (f.index == g.index) || leb (f.offset + f.bits) g.offset || leb (g.offset + g.bits) f.offset

other :
    (f g : Field) (words : ℕ → ℕ) (v p : ℕ)
    → IsField f
    → apart f g ≡ true
    → covers g p ≡ true
    → p < 64
    → test_bit (set f words v g.index) p ≡ test_bit (words g.index) p
unfolding set
other f g words v p wf ne c lt = elim (Bool-cases (f.index == g.index)) [
  | inl e ↦
      let at : g.index ≡ f.index = ground (arith, e) in
      ap (λ (k : ℕ). test_bit (set f words v k) p) at
      ∙ test_bit-set f words v p wf lt
      ∙ (let out : covers f p ≡ false = ground (arith, e, ne, c) in rw (out, at) refl)
  | inr e ↦ let out : (g.index == f.index) ≡ false = ground (arith, e) in rw out refl
]

-- A field is read from its own bits.
pub read-same :
    (g : Field) (w w' : ℕ)
    → IsField g
    → ((p : ℕ) → p < 64 → covers g p ≡ true → test_bit w p ≡ test_bit w' p)
    → read g w ≡ read g w'
unfolding IsField
read-same g w w' wf same = test_bit-ext 64 _ _ (read-lt g w) (read-lt g w') (λ i lt.
    ground (
      arith,
      test_bit-read g w i wf lt,
      test_bit-read g w' i wf lt,
      same (g.offset + (i - g.shift)),
    ))

-- Setting a field leaves every field of the words that shares no bit with it as it was.
pub get-set_other :
    (f g : Field) (words : ℕ → ℕ) (v : ℕ)
    → IsField f
    → IsField g
    → apart f g ≡ true
    → get g (set f words v) ≡ get g words
unfolding get
get-set_other f g words v wf wf' ne = ap (extended g.sign_ext) (
    read-same g (set f words v g.index) (words g.index) wf'
      (λ p lt c. other f g words v p wf ne c lt))

pub placed-lt : (f : Field) (v : ℕ) → placed f v < 2 ^ 64
unfolding placed
placed-lt f v = omega arith

pub IsStorable-zero : (f : Field) → IsStorable f 0
unfolding IsStorable
IsStorable-zero f = (
  omega arith,
  zero-mod (2 ^ f.shift),
  inl (pow_pos (f.bits + f.shift), ground (arith, test_bit-zero 38)),
)
