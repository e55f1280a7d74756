-- ===== src/Field/Layout.antt =====
-- sel4_common/src/utils.rs: the constructor that `plus_define_bitfield!` makes of a list of fields,
-- and the tag that it puts beside them.
use Prim.Native.Nat.{bit_and, bit_or}
use native.Mathlib.Nat.{mod-eq_of_lt, pow-le-pow_right, div-le_self}
use mi_dev_integral_rel.Base.{
  ℕ, ◌+◌, ◌-◌, ◌*◌, ◌/◌, ◌%◌, ◌^◌, ◌≤◌, ◌<◌, ◌≡◌, refl, Bool, true, false, ◌&&◌, ◌||◌, arith, leb,
  ◌==◌, Bool-cases, inl, inr, update, List, [], ◌∷◌,
}
use mi_dev_integral_rel.Bits.{bit_or-lt, bit_and-lt, test_bit, test_bit-or, test_bit-zero}
use mi_dev_integral_rel.Field.{
  Field, IsField, IsStorable, placed, mask, read, extended, covers, apart, get, placed-lt,
  test_bit-placed, get-of_bits, IsStorable-zero,
}

-- `value.words[index] |= ((field >> shift) & mask) << offset`
unfoldable pub insert : Field → ℕ → (ℕ → ℕ) → ℕ → ℕ
insert f v words = update words f.index (bit_or (words f.index) (placed f v))

unfoldable pub filled : List (Field × ℕ) → (ℕ → ℕ) → ℕ → ℕ
filled [] words = words
filled ((f, v) ∷ es) words = filled es (insert f v words)

-- The constructor: the fields, then the tag, over words that are all null.
unfoldable pub create : Field → ℕ → List (Field × ℕ) → ℕ → ℕ
create type tag es = insert type tag (filled es (λ _. 0))

-- The fields of a layout are in their words and share no bit.
unfoldable pub is_field : Field → Bool
is_field f = leb (f.offset + f.bits) 64 && leb (f.bits + f.shift) 64

unfoldable pub apart_from : Field → List (Field × ℕ) → Bool
apart_from f [] = true
apart_from f ((g, _) ∷ es) = apart f g && apart_from f es

unfoldable pub well_placed : List (Field × ℕ) → Bool
well_placed [] = true
well_placed ((f, _) ∷ es) = is_field f && apart_from f es && well_placed es

unfoldable pub AllStorable : List (Field × ℕ) → Type 0
AllStorable [] = Unit
AllStorable ((f, v) ∷ es) = IsStorable f v × AllStorable es

-- Every field is read as its value.
unfoldable pub AllRead : List (Field × ℕ) → (ℕ → ℕ) → Type 0
AllRead [] words = Unit
AllRead ((f, v) ∷ es) words = (get f words ≡ v) × AllRead es words

-- Whether an entry sets, or covers, bit `p` of the word `k`.
at : Field × ℕ → ℕ → ℕ → Bool
at (f, v) k p = (f.index == k) && (covers f p && test_bit v (f.shift + (p - f.offset)))

any_at : List (Field × ℕ) → ℕ → ℕ → Bool
any_at [] k p = false
any_at (e ∷ es) k p = at e k p || any_at es k p

covered : List (Field × ℕ) → ℕ → ℕ → Bool
covered [] k p = false
covered ((f, _) ∷ es) k p = (f.index == k) && covers f p || covered es k p

is_field-IsField : (f : Field) → is_field f ≡ true → IsField f
unfolding is_field IsField
is_field-IsField f ok = ground arith

test_bit-insert :
    (f : Field) (v : ℕ) (words : ℕ → ℕ) (k p : ℕ)
    → is_field f ≡ true
    → p < 64
    → test_bit (insert f v words k) p ≡ (test_bit (words k) p || at (f, v) k p)
unfolding insert at
test_bit-insert f v words k p ok lt = elim (Bool-cases (k == f.index)) [
  | inl e ↦
      let k_eq : k ≡ f.index = ground (arith, e) in
      rw (e, k_eq)
        (ground (
          arith,
          test_bit-or (words f.index) (placed f v) p,
          test_bit-placed f v p (is_field-IsField f ok) lt,
        ))
  | inr e ↦ let out : (f.index == k) ≡ false = ground (arith, e) in rw (e, out) (ground arith)
]

test_bit-filled :
    (es : List (Field × ℕ)) (words : ℕ → ℕ) (k p : ℕ)
    → well_placed es ≡ true
    → p < 64
    → test_bit (filled es words k) p ≡ (test_bit (words k) p || any_at es k p)
unfolding filled any_at well_placed
test_bit-filled [] words k p ok lt = ground arith
test_bit-filled ((f, v) ∷ es) words k p ok lt = ground (
  arith,
  test_bit-filled es (insert f v words) k p (ground arith) lt,
  test_bit-insert f v words k p (ground arith) lt,
)

apart-covered :
    (f : Field) (es : List (Field × ℕ)) (k p : ℕ)
    → apart_from f es ≡ true
    → ((f.index == k) && covers f p && covered es k p) ≡ false
unfolding apart_from covered
apart-covered f [] k p ok = ground arith
apart-covered f ((g, v) ∷ es) k p ok = ground (arith, apart-covered f es k p (ground arith))

covered-any_at : (es : List (Field × ℕ)) (k p : ℕ) → covered es k p ≡ false → any_at es k p ≡ false
unfolding covered any_at at
covered-any_at [] k p out = refl
covered-any_at ((f, v) ∷ es) k p out = ground (arith, covered-any_at es k p (ground arith))

-- Words with the bits of the entries are read as their values.
all_read :
    (es : List (Field × ℕ)) (words : ℕ → ℕ)
    → well_placed es ≡ true
    → AllStorable es
    → ((k p : ℕ) → p < 64 → covered es k p ≡ true → test_bit (words k) p ≡ any_at es k p)
    → AllRead es words
unfolding well_placed AllStorable AllRead any_at covered at
all_read [] words ok fit bits = tt
all_read ((f, v) ∷ es) words ok fit bits = (
  get-of_bits f words v (is_field-IsField f (ground arith))
      (λ p lt c. ground (
        arith,
        bits f.index p lt,
        apart-covered f es f.index p (ground arith),
        covered-any_at es f.index p,
      ))
      fit.0,
  all_read es words (ground arith) fit.1
      (λ k p lt c. ground (arith, bits k p lt, apart-covered f es k p (ground arith))),
)

-- The getter of the tag.
unfoldable pub get_type : Field → (ℕ → ℕ) → ℕ
get_type type words = bit_and (words type.index / 2 ^ type.offset) (2 ^ type.bits - 1)

-- A constructor keeps the value of every field, whatever else it sets.
pub create-AllRead :
    (type : Field) (tag : ℕ) (es : List (Field × ℕ))
    → well_placed ((type, tag) ∷ es) ≡ true
    → AllStorable ((type, tag) ∷ es)
    → AllRead ((type, tag) ∷ es) (create type tag es)
unfolding create well_placed any_at
create-AllRead type tag es ok fit =
    all_read ((type, tag) ∷ es) (create type tag es) ok fit (λ k p lt c. go k p lt)
  where
    go : (k p : ℕ) → p < 64 → test_bit (create type tag es k) p ≡ any_at ((type, tag) ∷ es) k p
    go k p lt = ground (
      arith,
      test_bit-insert type tag (filled es (λ _. 0)) k p (ground arith) lt,
      test_bit-filled es (λ _. 0) k p (ground arith) lt,
      test_bit-zero p,
    )

insert-lt :
    (f : Field) (v : ℕ) (words : ℕ → ℕ)
    → ((k : ℕ) → words k < 2 ^ 64)
    → (k : ℕ) → insert f v words k < 2 ^ 64
unfolding insert
insert-lt f v words lt k =
    ground (arith, lt k, bit_or-lt (words f.index) (placed f v) (lt f.index) (placed-lt f v))

filled-lt :
    (es : List (Field × ℕ)) (words : ℕ → ℕ)
    → ((k : ℕ) → words k < 2 ^ 64)
    → (k : ℕ) → filled es words k < 2 ^ 64
unfolding filled
filled-lt [] words lt k = lt k
filled-lt ((f, v) ∷ es) words lt k = filled-lt es (insert f v words) (insert-lt f v words lt) k

pub create-lt :
    (type : Field) (tag : ℕ) (es : List (Field × ℕ)) (k : ℕ) → create type tag es k < 2 ^ 64
unfolding create
create-lt type tag es k =
    insert-lt type tag (filled es (λ _. 0)) (filled-lt es (λ _. 0) (λ _. omega arith)) k

-- The tag is read by its own getter, which neither shifts nor extends it.
pub get_type-get :
    (type : Field) (words : ℕ → ℕ)
    → words type.index < 2 ^ 64
    → type.bits < 64
    → type.shift ≡ 0
    → type.sign_ext ≡ false
    → get_type type words ≡ get type words
unfolding get_type get read extended mask
get_type-get type words lt narrow flat plain =
    let small : 2 ^ type.bits ≤ 2 ^ 64 = pow-le-pow_right (omega arith) {j = 64} (omega arith) in
    let low : words type.index / 2 ^ type.offset < 2 ^ 64 =
      omega (arith, div-le_self (words type.index) (2 ^ type.offset), lt) in
    let e : (2 ^ type.bits - 1) % 2 ^ 64 ≡ 2 ^ type.bits - 1 =
      mod-eq_of_lt (omega (arith, small)) in
    let f : bit_and (words type.index / 2 ^ type.offset) (2 ^ type.bits - 1) * 2 ^ 0 % 2 ^ 64
        ≡ bit_and (words type.index / 2 ^ type.offset) (2 ^ type.bits - 1) =
      omega (
        arith,
        bit_and-lt (words type.index / 2 ^ type.offset) (2 ^ type.bits - 1) low
            (omega (arith, small)),
      ) in
    rw (flat, plain, e, f) refl

-- A field that the constructor does not set, apart from all that it sets, is read as null.
pub create-unset :
    (g type : Field) (tag : ℕ) (es : List (Field × ℕ))
    → well_placed ((g, 0) ∷ (type, tag) ∷ es) ≡ true
    → get g (create type tag es) ≡ 0
unfolding create well_placed any_at
create-unset g type tag es ok =
    get-of_bits g (create type tag es) 0 (is_field-IsField g (ground arith)) unset
      (IsStorable-zero g)
  where
    unset :
        (p : ℕ)
        → p < 64
        → covers g p ≡ true
        → test_bit (create type tag es g.index) p ≡ test_bit 0 (g.shift + (p - g.offset))
    unset p lt c = ground (
      arith,
      test_bit-insert type tag (filled es (λ _. 0)) g.index p (ground arith) lt,
      test_bit-filled es (λ _. 0) g.index p (ground arith) lt,
      test_bit-zero p,
      test_bit-zero (g.shift + (p - g.offset)),
      apart-covered g ((type, tag) ∷ es) g.index p (ground arith),
      covered-any_at ((type, tag) ∷ es) g.index p,
    )
