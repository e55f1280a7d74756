-- ===== src/Bits.antt =====
-- Bits of a machine word: `BIT!`, `|=`, `& !`, shifts and `leading_zeros` of the source, on a `usize`
-- of 64 bits, and what they do to each bit.
pub mod Add
pub mod Shift
use Prim.Native.Nat.{bit_and, bit_or, bit_and-bitwise, bit_or-bitwise, digits, min, max}
use native.Mathlib.Nat.{pow-suc, one-le-pow}
use mi_dev_integral_rel.Base.{
  ℕ, zero, suc, ◌+◌, ◌-◌, ◌*◌, ◌/◌, ◌%◌, ◌^◌, ◌≤◌, ◌<◌, ◌≡◌, ◌≢◌, refl, ap, Bool, true, false, not,
  ◌&&◌, ◌||◌, arith, ◌==◌, Bool-cases, inl, inr, if◌then◌else◌,
}

-- Bit `i` of a number.
unfoldable pub test_bit : ℕ → ℕ → Bool
test_bit w zero = w % 2 == 1
test_bit w (suc i) = test_bit (w / 2) i

-- `w |= BIT!(i)` and `w &= !BIT!(i)`
unfoldable pub set_bit : ℕ → ℕ → ℕ
set_bit w i = bit_or w (2 ^ i)

unfoldable pub clear_bit : ℕ → ℕ → ℕ
clear_bit w i = bit_and w (2 ^ 64 - 1 - 2 ^ i)

-- `usize::leading_zeros`, over the lowest `n` bits: the zeros above the highest one.
unfoldable pub leading_zeros_of : ℕ → ℕ → ℕ
leading_zeros_of zero w = 0
leading_zeros_of (suc n) w = if test_bit w n then 0 else suc (leading_zeros_of n w)

unfoldable pub leading_zeros : ℕ → ℕ
leading_zeros = leading_zeros_of 64

pub test_bit-zero : (i : ℕ) → test_bit 0 i ≡ false
unfolding test_bit
test_bit-zero zero = refl
test_bit-zero (suc i) = test_bit-zero i

low : (d r : ℕ) → r < 2 → (d * 2 + r) % 2 ≡ r
low d r h = omega arith

high : (d r : ℕ) → r < 2 → (d * 2 + r) / 2 ≡ d
high d r h = omega arith

-- A recursion on binary digits acts on each bit by the Boolean operation `op`.
module _ (z : ℕ → ℕ) (f : ℕ → ℕ → ℕ) (op : Bool → Bool → Bool)
    (tail : (b i : ℕ) → test_bit (z b) i ≡ op false (test_bit b i))
    (digit : (x y : ℕ) → x < 2 → y < 2 → (f x y < 2) × ((f x y == 1) ≡ op (x == 1) (y == 1))) where
  test_bit-digits :
      (n a b i : ℕ) → a ≤ n → test_bit (digits z f n a b) i ≡ op (test_bit a i) (test_bit b i)
  unfolding test_bit
  test_bit-digits zero zero b i h = rw test_bit-zero (tail b i)
  test_bit-digits zero (suc a) b i h = absurd (omega arith)
  test_bit-digits (suc n) zero b i h = rw test_bit-zero (tail b i)
  test_bit-digits (suc n) (suc a) b zero h =
      let r = digit (suc a % 2) (b % 2) (omega arith) (omega arith) in
      rw (low (digits z f n (suc a / 2) (b / 2)) (f (suc a % 2) (b % 2)) r.0) r.1
  test_bit-digits (suc n) (suc a) b (suc i) h =
      let r = digit (suc a % 2) (b % 2) (omega arith) (omega arith) in
      rw (high (digits z f n (suc a / 2) (b / 2)) (f (suc a % 2) (b % 2)) r.0)
        (test_bit-digits n (suc a / 2) (b / 2) i (omega arith))

max_digit : (x y : ℕ) → x < 2 → y < 2 → (max x y < 2) × ((max x y == 1) ≡ ((x == 1) || (y == 1)))
max_digit zero zero p q = ground arith
max_digit zero (suc zero) p q = ground arith
max_digit (suc zero) zero p q = ground arith
max_digit (suc zero) (suc zero) p q = ground arith
max_digit (suc (suc x)) y p q = absurd (omega arith)
max_digit zero (suc (suc y)) p q = absurd (omega arith)
max_digit (suc zero) (suc (suc y)) p q = absurd (omega arith)

min_digit : (x y : ℕ) → x < 2 → y < 2 → (min x y < 2) × ((min x y == 1) ≡ ((x == 1) && (y == 1)))
min_digit zero zero p q = ground arith
min_digit zero (suc zero) p q = ground arith
min_digit (suc zero) zero p q = ground arith
min_digit (suc zero) (suc zero) p q = ground arith
min_digit (suc (suc x)) y p q = absurd (omega arith)
min_digit zero (suc (suc y)) p q = absurd (omega arith)
min_digit (suc zero) (suc (suc y)) p q = absurd (omega arith)

pub test_bit-or : (a b i : ℕ) → test_bit (bit_or a b) i ≡ (test_bit a i || test_bit b i)
test_bit-or a b i =
    rw bit_or-bitwise
      (test_bit-digits (λ y. y) max ◌||◌ (λ y j. refl) max_digit a a b i (omega arith))

pub test_bit-and : (a b i : ℕ) → test_bit (bit_and a b) i ≡ (test_bit a i && test_bit b i)
test_bit-and a b i =
    rw bit_and-bitwise
      (test_bit-digits (λ y. 0) min ◌&&◌ (λ y j. test_bit-zero j) min_digit a a b i (omega arith))

pub test_bit-pow : (i j : ℕ) → test_bit (2 ^ i) j ≡ (i == j)
unfolding test_bit
test_bit-pow zero zero = refl
test_bit-pow zero (suc j) = ground (arith, test_bit-zero j)
test_bit-pow (suc i) zero = ground (arith, pow-suc 2 i)
test_bit-pow (suc i) (suc j) =
    let e : 2 ^ suc i / 2 ≡ 2 ^ i = omega (arith, pow-suc 2 i) in
    rw e (ground (arith, test_bit-pow i j))

-- Subtracting from all ones flips the bits.
pub test_bit-complement :
    (n a i : ℕ) → a < 2 ^ n → i < n → test_bit (2 ^ n - 1 - a) i ≡ not (test_bit a i)
unfolding test_bit
test_bit-complement zero a i h lt = absurd (omega arith)
test_bit-complement (suc n) a zero h lt = ground (arith, pow-suc 2 n, one-le-pow n 2)
test_bit-complement (suc n) a (suc i) h lt =
    let e : (2 ^ suc n - 1 - a) / 2 ≡ 2 ^ n - 1 - a / 2 = omega (arith, pow-suc 2 n) in
    rw e (test_bit-complement n (a / 2) i (omega (arith, pow-suc 2 n)) (omega arith))

pow-lt : (i n : ℕ) → i < n → 2 ^ i < 2 ^ n
pow-lt i zero h = absurd (omega arith)
pow-lt zero (suc n) h = omega (arith, pow-suc 2 n, one-le-pow n 2)
pow-lt (suc i) (suc n) h = omega (arith, pow-suc 2 n, pow-suc 2 i, pow-lt i n)

-- Setting and clearing a bit changes that bit alone.
pub test_bit-set_bit : (w i j : ℕ) → test_bit (set_bit w i) j ≡ (test_bit w j || (i == j))
unfolding set_bit
test_bit-set_bit w i j = ground (arith, test_bit-or w (2 ^ i) j, test_bit-pow i j)

pub test_bit-clear_bit :
    (w i j : ℕ) → i < 64 → j < 64 → test_bit (clear_bit w i) j ≡ (test_bit w j && not (i == j))
unfolding clear_bit
test_bit-clear_bit w i j p q = ground (
  arith,
  test_bit-and w (2 ^ 64 - 1 - 2 ^ i) j,
  test_bit-complement 64 (2 ^ i) j (pow-lt i 64 p) q,
  test_bit-pow i j,
)

-- The bits of a word are its value.
pub eq_zero-test_bit : (n w : ℕ) → w < 2 ^ n → ((i : ℕ) → i < n → test_bit w i ≡ false) → w ≡ 0
unfolding test_bit
eq_zero-test_bit zero w h all = omega arith
eq_zero-test_bit (suc n) w h all = ground (
  arith,
  all 0 (omega arith),
  eq_zero-test_bit n (w / 2) (omega (arith, pow-suc 2 n)) (λ i lt. all (suc i) (omega arith)),
)

-- A word with a bit set has a highest one, which `leading_zeros` finds.
pub leading_zeros_of-highest :
    (n w : ℕ)
    → (i : ℕ) → i < n
    → test_bit w i ≡ true
    → (leading_zeros_of n w < n)
      × (test_bit w (n - 1 - leading_zeros_of n w) ≡ true)
      × (i ≤ n - 1 - leading_zeros_of n w)
unfolding leading_zeros_of
leading_zeros_of-highest zero w i h set = absurd (omega arith)
leading_zeros_of-highest (suc n) w i h set = elim (Bool-cases (test_bit w n)) [
  | inl e ↦ let top : suc n - 1 - 0 ≡ n = omega arith in rw e (omega arith, rw top e, omega arith)
  | inr e ↦ ground (arith, leading_zeros_of-highest n w i)
]

-- A recursion on binary digits stays within the width.
module _ (z : ℕ → ℕ) (f : ℕ → ℕ → ℕ) (tail : (b m : ℕ) → b < 2 ^ m → z b < 2 ^ m)
    (digit : (x y : ℕ) → x < 2 → y < 2 → f x y < 2) where
  digits_lt : (m n a b : ℕ) → a ≤ n → a < 2 ^ m → b < 2 ^ m → digits z f n a b < 2 ^ m
  digits_lt m zero a b h p q = tail b m q
  digits_lt m (suc n) zero b h p q = tail b m q
  digits_lt zero (suc n) (suc a) b h p q = absurd (omega arith)
  digits_lt (suc m) (suc n) (suc a) b h p q = omega (
    arith,
    pow-suc 2 m,
    digit (suc a % 2) (b % 2) (omega arith) (omega arith),
    digits_lt m n (suc a / 2) (b / 2) (omega arith) (omega (arith, pow-suc 2 m))
        (omega (arith, pow-suc 2 m)),
  )

pub set_bit-lt : (w i : ℕ) → w < 2 ^ 64 → i < 64 → set_bit w i < 2 ^ 64
unfolding set_bit
set_bit-lt w i h p = rw bit_or-bitwise (
    digits_lt (λ y. y) max (λ b m q. q) (λ x y p q. (max_digit x y p q).0) 64 w w (2 ^ i)
      (omega arith) h (pow-lt i 64 p))

pub clear_bit-lt : (w i : ℕ) → w < 2 ^ 64 → clear_bit w i < 2 ^ 64
unfolding clear_bit
clear_bit-lt w i h = rw bit_and-bitwise (
    digits_lt (λ y. 0) min (λ b m q. omega (arith, one-le-pow m 2))
      (λ x y p q. (min_digit x y p q).0) 64 w w (2 ^ 64 - 1 - 2 ^ i) (omega arith) h (omega arith))

-- A word that is not null has a bit set.
pub find_bit : (n w : ℕ) → w < 2 ^ n → w ≢ 0 → (i : ℕ) × (i < n) × (test_bit w i ≡ true)
unfolding test_bit
find_bit zero w h ne = absurd (ne (omega arith))
find_bit (suc n) w h ne = elim (Bool-cases (w % 2 == 1)) [
  | inl odd ↦ (0, omega arith, odd)
  | inr even ↦
      let half : w / 2 ≢ 0 = ground arith in
      let r = find_bit n (w / 2) (omega (arith, pow-suc 2 n)) half in
      (suc r.0, omega (arith, r.1), r.2)
]

pub set_bit-ne_zero : (w i : ℕ) → set_bit w i ≢ 0
set_bit-ne_zero w i e =
    ground (arith, test_bit-set_bit w i i, ap (λ (v : ℕ). test_bit v i) e, test_bit-zero i)

pub zero-clear_bit : (i : ℕ) → clear_bit 0 i ≡ 0
unfolding clear_bit
zero-clear_bit i = bit_and-bitwise 0 (2 ^ 64 - 1 - 2 ^ i)

-- The highest bit set, as the source finds it.
pub leading_zeros-highest :
    (w i : ℕ)
    → i < 64
    → test_bit w i ≡ true
    → (leading_zeros w < 64)
      × (test_bit w (63 - leading_zeros w) ≡ true)
      × (i ≤ 63 - leading_zeros w)
unfolding leading_zeros
leading_zeros-highest = leading_zeros_of-highest 64

-- A test of every number below `n`, by evaluation.
every : ℕ → (ℕ → Bool) → Bool
every zero ok = true
every (suc n) ok = ok n && every n ok

every_holds : (ok : ℕ → Bool) (n x : ℕ) → every n ok ≡ true → x < n → ok x ≡ true
unfolding every
every_holds ok zero x h lt = absurd (omega arith)
every_holds ok (suc n) x h lt = ground (arith, every_holds ok n x)

or_table : every 256 (λ p. bit_or (p / 64 * 64) (p % 64) == p) ≡ true
unfolding every
or_table = refl

-- A multiple of 64 below 256 and a number below 64 share no bit.
pub bit_or-add : (m j : ℕ) → m < 4 → j < 64 → bit_or (m * 64) j ≡ 64 * m + j
bit_or-add m j p q =
    let row = every_holds (λ x. bit_or (x / 64 * 64) (x % 64) == x) 256 (64 * m + j) or_table in
    let a : (64 * m + j) / 64 * 64 ≡ m * 64 = omega arith in
    let b : (64 * m + j) % 64 ≡ j = omega arith in
    let fits : 64 * m + j < 256 = omega arith in
    let e : bit_or ((64 * m + j) / 64 * 64) ((64 * m + j) % 64) ≡ 64 * m + j =
      ground (arith, row fits) in
    rw (a, b) at e

pub bit_or-lt : (a b : ℕ) → a < 2 ^ 64 → b < 2 ^ 64 → bit_or a b < 2 ^ 64
bit_or-lt a b h p = rw bit_or-bitwise (
    digits_lt (λ y. y) max (λ b m q. q) (λ x y p q. (max_digit x y p q).0) 64 a a b (omega arith) h
      p)

pub bit_and-lt : (a b : ℕ) → a < 2 ^ 64 → b < 2 ^ 64 → bit_and a b < 2 ^ 64
bit_and-lt a b h p = rw bit_and-bitwise (
    digits_lt (λ y. 0) min (λ b m q. omega (arith, one-le-pow m 2))
      (λ x y p q. (min_digit x y p q).0) 64 a a b (omega arith) h p)
