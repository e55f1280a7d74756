-- ===== src/Cspace/Resolve/Route.antt =====
-- Which slot a capability pointer names: the pointer is read off the CNodes on the way, and
-- `resolve_address_bits` finds the slot again.
use native.Mathlib.Nat.{mul_comm, mul-one, add-zero, mod-one}
use native.Mathlib.Numerals.{unary_clauses}
use mi_dev_integral_rel.Base.{
  ℕ, zero, suc, ◌+◌, ◌-◌, ◌*◌, ◌%◌, ◌^◌, ◌≤◌, ◌<◌, ◌≡◌, ◌≢◌, ◌∙◌, refl, true, false, not, ltb, ◌==◌,
  inl, inr, Bool-cases, arith, if◌then◌else◌,
}
use mi_dev_integral_rel.Digits.{div_low, mod_low, below, regroup, pow_sum}
use mi_dev_integral_rel.Cspace.{exception_none, Capability, cnode, CSpace, get_cap_type}
use mi_dev_integral_rel.Cspace.Resolve.{
  ResolveRet, returned, cte_size, shift_right, wrapping_sub, resolve_loop, resolve_address_bits,
}

abbrev pub found : ℕ → ℕ → ResolveRet
found s r = record { status = exception_none; slot = s; bits_remaining = r }

expand :
    (hi r g m guard i q : ℕ)
    → hi * (r * g * m) + ((guard * r + i) * m + q) ≡ ((hi * g + guard) * r + i) * m + q
expand hi r g m guard i q = grind arith

regroup_sum : (hi l x n p : ℕ) → hi * (l * n) + (x * n + p) ≡ (hi * l + x) * n + p
regroup_sum hi l x n p = grind arith

module _ (radix gs guard i m q : ℕ) (g : guard < 2 ^ gs) (o : i < 2 ^ radix) (lt : q < 2 ^ m) where
  level_bound : (guard * 2 ^ radix + i) * 2 ^ m + q < 2 ^ (radix + gs + m)
  level_bound =
      rw (pow_sum (radix + gs) m, pow_sum radix gs, mul_comm (2 ^ radix) (2 ^ gs))
        (below (2 ^ gs * 2 ^ radix) (guard * 2 ^ radix + i) (2 ^ m) q
          (below (2 ^ gs) guard (2 ^ radix) i g o) lt)

  module _ (hi n v : ℕ) (ne : radix + gs ≢ 0) (small : n ≤ 64) (n_is : n ≡ radix + gs + m)
      (v_is : v ≡ hi * 2 ^ n + ((guard * 2 ^ radix + i) * 2 ^ m + q)) where
    digits : v ≡ ((hi * 2 ^ gs + guard) * 2 ^ radix + i) * 2 ^ m + q
    digits =
        v_is
        ∙ rw (n_is, pow_sum (radix + gs) m, pow_sum radix gs)
            (expand hi (2 ^ radix) (2 ^ gs) (2 ^ m) guard i q)

    offset_read : shift_right v (n - (radix + gs)) % 2 ^ radix ≡ i
    offset_read =
        let e : (n - (radix + gs)) % 2 ^ 6 ≡ m = omega arith in
        rw (e, digits, div_low ((hi * 2 ^ gs + guard) * 2 ^ radix + i) (2 ^ m) q lt)
          (mod_low (hi * 2 ^ gs + guard) (2 ^ radix) i o)

    guard_read : shift_right v (wrapping_sub n gs % 2 ^ 6) % 2 ^ gs ≡ guard
    guard_read = elim (Bool-cases (gs == 0)) [
      | inl e ↦
          let z : gs ≡ 0 = ground arith in
          let gz : guard ≡ 0 = (let h : guard < 2 ^ 0 = rw z at g in omega arith) in
          rw (z, gz) (mod-one (shift_right v (wrapping_sub n 0 % 2 ^ 6)))
      | inr e ↦
          let pos : gs ≢ 0 = ground arith in
          let d : wrapping_sub n gs % 2 ^ 6 % 2 ^ 6 ≡ radix + m = omega arith in
          rw
            (
              d,
              digits,
              regroup (hi * 2 ^ gs + guard) (2 ^ radix) i (2 ^ m) q,
              pow_sum radix m,
              div_low (hi * 2 ^ gs + guard) (2 ^ radix * 2 ^ m) (i * 2 ^ m + q)
                  (below (2 ^ radix) i (2 ^ m) q o lt),
            )
            (mod_low hi (2 ^ gs) guard g)
    ]

    -- One round of the loop.
    resolve_step :
        (fuel : ℕ) (c : CSpace) (first ptr : ℕ)
        → resolve_loop (suc fuel) c first v (cnode radix gs guard ptr) n ≡ (
            if m == 0
            then returned (found (ptr + i * cte_size) 0)
            else if not (get_cap_type (c.cap (ptr + i * cte_size)) == 10)
            then returned (found (ptr + i * cte_size) m)
            else resolve_loop fuel c first v (c.cap (ptr + i * cte_size)) m)
    unfolding resolve_loop
    resolve_step fuel c first ptr =
        let rest : n - (radix + gs) ≡ m = omega arith in
        let done : (n == radix + gs) ≡ (m == 0) = ground arith in
        let some_bits : (radix + gs == 0) ≡ false = ground arith in
        let fits : ltb n gs ≡ false = ground arith in
        let fits' : ltb n (radix + gs) ≡ false = ground arith in
        let same : (guard == guard) ≡ true = ground arith in
        rw (guard_read, offset_read, rest, some_bits, fits, same, fits', done) refl

-- The pointer `p` of `n` bits names the slot `slot` from the CNode `node`, with `rem` bits left.
pub data Route (c : CSpace) : Capability → ℕ → ℕ → ℕ → ℕ → Type 0 where
  here :
      {radix gs guard ptr i : ℕ}
      → radix + gs ≢ 0
      → guard < 2 ^ gs
      → i < 2 ^ radix
      → Route c
          (cnode radix gs guard ptr)
          (radix + gs)
          (guard * 2 ^ radix + i)
          (ptr + i * cte_size)
          0
  object :
      {radix gs guard ptr i q rem : ℕ}
      → radix + gs ≢ 0
      → guard < 2 ^ gs
      → i < 2 ^ radix
      → rem ≢ 0
      → q < 2 ^ rem
      → get_cap_type (c.cap (ptr + i * cte_size)) ≢ 10
      → Route c
          (cnode radix gs guard ptr)
          (radix + gs + rem)
          ((guard * 2 ^ radix + i) * 2 ^ rem + q)
          (ptr + i * cte_size)
          rem
  deeper :
      {radix gs guard ptr i n p slot rem : ℕ}
      → radix + gs ≢ 0
      → guard < 2 ^ gs
      → i < 2 ^ radix
      → Route c (c.cap (ptr + i * cte_size)) n p slot rem
      → Route c
          (cnode radix gs guard ptr)
          (radix + gs + n)
          ((guard * 2 ^ radix + i) * 2 ^ n + p)
          slot
          rem

-- What a path says of its own number and node.
pub bound :
    (c : CSpace) (node : Capability) (n p slot rem : ℕ)
    → Route c node n p slot rem
    → (p < 2 ^ n) × (n ≢ 0) × (get_cap_type node ≡ 10)
bound c _ _ _ _ _ (here {radix} {gs} {guard} {ptr} {i} ne g o) = (
  rw (pow_sum radix gs, mul_comm (2 ^ radix) (2 ^ gs)) (below (2 ^ gs) guard (2 ^ radix) i g o),
  ne,
  refl,
)
bound c _ _ _ _ _ (object {radix} {gs} {guard} {ptr} {i} {q} {rem} ne g o ne' lt not_node) =
    (level_bound radix gs guard i rem q g o lt, omega arith, refl)
bound c _ _ _ _ _ (deeper {radix} {gs} {guard} {ptr} {i} {n} {p} {slot} {rem} ne g o path) = (
  level_bound radix gs guard i n p g o (bound c (c.cap (ptr + i * cte_size)) n p slot rem path).0,
  omega arith,
  refl,
)

-- A deeper level continues with the pointer's remaining bits.
next_level : (hi l x n p : ℕ) → hi * 2 ^ (l + n) + (x * 2 ^ n + p) ≡ (hi * 2 ^ l + x) * 2 ^ n + p
next_level hi l x n p = rw (pow_sum l n) (regroup_sum hi (2 ^ l) x (2 ^ n) p)

loop_finds :
    (fuel : ℕ) (c : CSpace) (first hi : ℕ) (node : Capability) (n p slot rem : ℕ)
    → n < fuel
    → n ≤ 64
    → Route c node n p slot rem
    → resolve_loop fuel c first (hi * 2 ^ n + p) node n ≡ returned (found slot rem)
loop_finds zero c first hi node n p slot rem lt small path = elim lt [ ]
loop_finds (suc fuel) c first hi _ _ _ _ _ lt small (here {radix} {gs} {guard} {ptr} {i} ne g o) =
    rw
      (resolve_step radix gs guard i 0 0 g o (omega arith) hi (radix + gs)
        (hi * 2 ^ (radix + gs) + (guard * 2 ^ radix + i)) ne small (omega arith)
        (simp (unary_clauses, mul-one, add-zero) refl) fuel c first ptr)
      refl
loop_finds (suc fuel) c first hi _ _ _ _ _ lt small
      (object {radix} {gs} {guard} {ptr} {i} {q} {rem} ne g o ne' q_lt not_node) =
    let a : (rem == 0) ≡ false = ground arith in
    let b : (get_cap_type (c.cap (ptr + i * cte_size)) == 10) ≡ false = ground arith in
    rw
      (
        resolve_step radix gs guard i rem q g o q_lt hi (radix + gs + rem)
            (hi * 2 ^ (radix + gs + rem) + ((guard * 2 ^ radix + i) * 2 ^ rem + q)) ne small refl
            refl fuel c first ptr,
        a,
        b,
      )
      refl
loop_finds (suc fuel) c first hi _ _ _ _ _ lt small
      (deeper {radix} {gs} {guard} {ptr} {i} {n} {p} {slot} {rem} ne g o path) =
    let k = bound c (c.cap (ptr + i * cte_size)) n p slot rem path in
    let a : (n == 0) ≡ false = ground arith in
    let b : (get_cap_type (c.cap (ptr + i * cte_size)) == 10) ≡ true = ground (arith, k.2) in
    rw
      (
        resolve_step radix gs guard i n p g o k.0 hi (radix + gs + n)
            (hi * 2 ^ (radix + gs + n) + ((guard * 2 ^ radix + i) * 2 ^ n + p)) ne small refl refl
            fuel c first ptr,
        a,
        b,
        next_level hi (radix + gs) (guard * 2 ^ radix + i) n p,
      )
      (loop_finds fuel c first (hi * 2 ^ (radix + gs) + (guard * 2 ^ radix + i))
        (c.cap (ptr + i * cte_size)) n p slot rem (omega arith) (omega arith) path)

-- A capability pointer whose low `n` bits, at most 64, name a slot by the guards and indices of the
-- CNodes on the way, resolves without an exception to that slot, with the bits that are left over.
pub resolve_address_bits-finds :
    (c : CSpace) (hi : ℕ) (node : Capability) (n p slot rem : ℕ)
    → n ≤ 64
    → Route c node n p slot rem
    → resolve_address_bits c node (hi * 2 ^ n + p) n
      ≡ returned (record { status = exception_none; slot = slot; bits_remaining = rem })
unfolding resolve_address_bits
resolve_address_bits-finds c hi node n p slot rem small path =
    rw ((bound c node n p slot rem path).2)
      (loop_finds (suc n) c n hi node n p slot rem (omega arith) small path)
