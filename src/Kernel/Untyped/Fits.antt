-- ===== src/Kernel/Untyped/Fits.antt =====
-- The objects of a retype lie in the free part of their block, aligned and apart from each other.
use native.Mathlib.Nat.{
  mod-eq_of_lt, pow-le-pow_right, pow-suc, mul_assoc, div-mul-le_self, mul-le-mul_right, add-mul,
  div-eq_of_lt,
}
use mi_dev_integral_rel.Base.{
  ℕ, suc, ◌+◌, ◌-◌, ◌*◌, ◌/◌, ◌%◌, ◌^◌, ◌≤◌, ◌<◌, ◌≡◌, ◌∙◌, sym, ap, false, arith, ltb, leb,
  Bool-cases, inl, inr,
}
use mi_dev_integral_rel.Digits.{pow_pos, digits_of, pow_sum, mod_low}
use mi_dev_integral_rel.Cspace.{untyped}
use mi_dev_integral_rel.Cspace.Cap.{wrapping_add}
use mi_dev_integral_rel.Kernel.Objects.{ObjectType, get_object_size}
use mi_dev_integral_rel.Kernel.Untyped.{
  align_up, free_index_to_offset, get_free_ref, get_free_index, object_at,
}
use mi_dev_integral_rel.Kernel.Untyped.Blocks.{align_up-round, up, up-le, up-multiple, up-room}
use mi_dev_integral_rel.Kernel.Untyped.Decode.{untyped_free_bytes}

-- A multiple of a power of two is one of every lower power.
lower-multiple : (x s b : ℕ) → s ≤ b → x % 2 ^ b ≡ 0 → x % 2 ^ s ≡ 0
lower-multiple x s b le whole =
    let e : b ≡ (b - s) + s = omega arith in
    let p : 2 ^ b ≡ 2 ^ (b - s) * 2 ^ s = ap (λ (t : ℕ). 2 ^ t) e ∙ pow_sum (b - s) s in
    let q : x ≡ x / 2 ^ b * 2 ^ b = digits_of x (2 ^ b) ∙ omega (arith, whole) in
    let r : x ≡ x / 2 ^ b * 2 ^ (b - s) * 2 ^ s + 0 =
      q
      ∙ ap (λ (t : ℕ). x / 2 ^ b * t) p
      ∙ sym (mul_assoc (x / 2 ^ b) (2 ^ (b - s)) (2 ^ s))
      ∙ omega arith in
    ap (λ (t : ℕ). t % 2 ^ s) r ∙ mod_low (x / 2 ^ b * 2 ^ (b - s)) (2 ^ s) 0 (pow_pos s)

pow-le_cancel : (s b : ℕ) → 2 ^ s ≤ 2 ^ b → s ≤ b
pow-le_cancel s b le = elim (Bool-cases (leb s b)) [
  | inl e ↦ ground (arith, e)
  | inr e ↦
      let more : 2 ^ suc b ≤ 2 ^ s = pow-le-pow_right (omega arith) (ground (arith, e)) in
      absurd (omega (arith, more, le, pow-suc 2 b, pow_pos b))
]

-- Object `i` of a retype, at the addresses that `decode_untyped_invocation` hands on.
pub object_of : ℕ → ℕ → ObjectType → ℕ → ℕ → ℕ
object_of ptr free_index obj_type user_size i =
    object_at obj_type user_size
      (align_up (get_free_ref ptr free_index) (get_object_size obj_type user_size)) i

-- It stands in the free part of its block, aligned.
pub InBlock : ℕ → ℕ → ℕ → ObjectType → ℕ → ℕ → Type 0
unfolding object_of
InBlock ptr block free_index obj_type user_size i =
    (get_free_ref ptr free_index ≤ object_of ptr free_index obj_type user_size i)
    × (object_of ptr free_index obj_type user_size i % 2 ^ get_object_size obj_type user_size ≡ 0)
    × (object_of ptr free_index obj_type user_size i + 2 ^ get_object_size obj_type user_size
        ≤ ptr + 2 ^ block)

-- A block of `2 ^ block` bytes at `ptr`, of which `16 * free_index` are taken.
module _ (ptr block free_index recorded is_device : ℕ) (aligned : ptr % 2 ^ block ≡ 0)
    (inside : ptr + 2 ^ block < 2 ^ 64) (taken : free_index * 2 ^ 4 ≤ 2 ^ block) where
  free : ℕ
  free = ptr + free_index * 2 ^ 4

  get_free_ref-free : get_free_ref ptr free_index ≡ free
  unfolding get_free_ref free
  get_free_ref-free = omega (arith, inside, taken)

  untyped_free_bytes-free :
      untyped_free_bytes (untyped recorded is_device block ptr) free_index
      ≡ 2 ^ block - free_index * 2 ^ 4
  unfolding untyped_free_bytes free_index_to_offset
  untyped_free_bytes-free =
      let e : 2 ^ block % 2 ^ 64 ≡ 2 ^ block = mod-eq_of_lt (omega (arith, inside)) in
      rw e (omega (arith, inside, taken))

  -- A retype of `window` objects of `2 ^ s` bytes, which the check of the free bytes let pass.
  module _ (obj_type : ObjectType) (user_size window : ℕ) (some_object : 0 < window)
      (enough : ltb
          (untyped_free_bytes (untyped recorded is_device block ptr) free_index
            / 2 ^ get_object_size obj_type user_size)
          window
        ≡ false) where
    size : ℕ
    size = get_object_size obj_type user_size

    base : ℕ
    base = align_up (get_free_ref ptr free_index) size

    room : window ≤ (ptr + 2 ^ block - free) / 2 ^ size
    unfolding size free
    room =
        let e : ptr + 2 ^ block - (ptr + free_index * 2 ^ 4) ≡ 2 ^ block - free_index * 2 ^ 4 =
          omega (arith, taken) in
        rw (e, ← untyped_free_bytes-free) (ground (arith, enough))

    size-le : size ≤ block
    unfolding free
    size-le = pow-le_cancel size block (elim (Bool-cases (leb (2 ^ size) (2 ^ block))) [
      | inl e ↦ ground (arith, e)
      | inr e ↦
          let none_fits : (ptr + 2 ^ block - free) / 2 ^ size ≡ 0 =
            div-eq_of_lt (ground (arith, e)) in
          absurd (omega (arith, none_fits, room, some_object))
    ])

    end-multiple : (ptr + 2 ^ block) % 2 ^ size ≡ 0
    end-multiple = lower-multiple (ptr + 2 ^ block) size block size-le (whole)
      where
        whole : (ptr + 2 ^ block) % 2 ^ block ≡ 0
        whole =
            ap (λ (t : ℕ). t % 2 ^ block)
              (let d : ptr ≡ ptr / 2 ^ block * 2 ^ block =
                  digits_of ptr (2 ^ block) ∙ omega (arith, aligned) in
                let f : (ptr / 2 ^ block + 1) * 2 ^ block
                    ≡ ptr / 2 ^ block * 2 ^ block + 2 ^ block =
                  omega (arith, add-mul (ptr / 2 ^ block) 1 (2 ^ block)) in
                omega (arith, d, f))
            ∙ mod_low (ptr / 2 ^ block + 1) (2 ^ block) 0 (pow_pos block)

    one_fits : free + 2 ^ size ≤ ptr + 2 ^ block
    unfolding free
    one_fits =
        let one : 1 * 2 ^ size ≤ (ptr + 2 ^ block - free) / 2 ^ size * 2 ^ size =
          mul-le-mul_right (2 ^ size) (omega (arith, room, some_object)) in
        omega (arith, one, div-mul-le_self (ptr + 2 ^ block - free) (2 ^ size), taken)

    size-lt : size < 64
    size-lt = elim (Bool-cases (ltb block 64)) [
      | inl e ↦ let lt : block < 64 = ground (arith, e) in omega (arith, size-le, lt)
      | inr e ↦
          let more : 2 ^ 64 ≤ 2 ^ block =
            pow-le-pow_right (omega arith) {i = 64} (ground (arith, e)) in
          absurd (omega (arith, more, inside))
    ]

    base-up : base ≡ up free (2 ^ size)
    unfolding base
    base-up =
        ap (λ (t : ℕ). align_up t size) get_free_ref-free
        ∙ align_up-round free size (omega (arith, one_fits, inside)) size-lt

    fits : base + window * 2 ^ size ≤ ptr + 2 ^ block
    fits = rw base-up (
        up-room free (2 ^ size) (ptr + 2 ^ block) (pow_pos size) window end-multiple
          (omega (arith, one_fits)) room)

    base-le : free ≤ base
    base-le = rw base-up (up-le free (2 ^ size) 0 (pow_pos size))

    base-multiple : base % 2 ^ size ≡ 0
    base-multiple = rw base-up (up-multiple free (2 ^ size) 0 (pow_pos size))

    -- Object `i` stands at its place without wrapping.
    place :
        (i : ℕ)
        → i < window
        → (i * 2 ^ size + 2 ^ size ≤ window * 2 ^ size)
          × (object_at obj_type user_size base i ≡ base + i * 2 ^ size)
    unfolding object_at size
    place i lt =
        let next : suc i * 2 ^ size ≤ window * 2 ^ size = mul-le-mul_right (2 ^ size) lt in
        let sum : suc i * 2 ^ size ≡ i * 2 ^ size + 2 ^ size =
          omega (arith, add-mul 1 i (2 ^ size)) in
        (omega (arith, next, sum), omega (arith, next, sum, fits, inside))

    retype-aligned : (i : ℕ) → i < window → object_at obj_type user_size base i % 2 ^ size ≡ 0
    retype-aligned i lt =
        let d : base ≡ base / 2 ^ size * 2 ^ size =
          digits_of base (2 ^ size) ∙ omega (arith, base-multiple) in
        let f : base + i * 2 ^ size ≡ (base / 2 ^ size + i) * 2 ^ size + 0 =
          omega (arith, d, add-mul (base / 2 ^ size) i (2 ^ size)) in
        ap (λ (t : ℕ). t % 2 ^ size) ((place i lt).1 ∙ f)
        ∙ mod_low (base / 2 ^ size + i) (2 ^ size) 0 (pow_pos size)

    retype-apart :
        (i j : ℕ)
        → i < j
        → j < window
        → object_at obj_type user_size base i + 2 ^ size ≤ object_at obj_type user_size base j
    retype-apart i j lt lt' =
        let p : i < window = omega arith in
        let next : suc i * 2 ^ size ≤ j * 2 ^ size = mul-le-mul_right (2 ^ size) lt in
        let sum : suc i * 2 ^ size ≡ i * 2 ^ size + 2 ^ size =
          omega (arith, add-mul 1 i (2 ^ size)) in
        rw ((place i p).1, (place j lt').1) (omega (arith, next, sum))

    retype-within :
        (i : ℕ)
        → i < window
        → (get_free_ref ptr free_index ≤ object_at obj_type user_size base i)
          × (object_at obj_type user_size base i + 2 ^ size ≤ ptr + 2 ^ block)
    retype-within i lt =
        rw (place i lt).1
          (omega (arith, get_free_ref-free, base-le), omega (arith, (place i lt).0, fits))

    -- The free index that the block is left with.
    next : ℕ
    next = get_free_index ptr (wrapping_add base (window * 2 ^ size % 2 ^ 64))

    next-offset : 4 ≤ size → ptr + next * 2 ^ 4 ≡ base + window * 2 ^ size
    unfolding next get_free_index free
    next-offset large =
        let p : ptr % 2 ^ 4 ≡ 0 =
          lower-multiple ptr 4 block (omega (arith, large, size-le)) aligned in
        let b : base % 2 ^ 4 ≡ 0 = lower-multiple base 4 size large base-multiple in
        let w : window * 2 ^ size % 2 ^ 4 ≡ 0 = lower-multiple (window * 2 ^ size) 4 size large (
          (let f : window * 2 ^ size ≡ window * 2 ^ size + 0 = omega arith in
            ap (λ (t : ℕ). t % 2 ^ size) f)
          ∙ mod_low window (2 ^ size) 0 (pow_pos size)) in
        omega (arith, p, b, w, fits, base-le, inside)

-- Retyping a block that lies in the address space, aligned to its size, from a free index inside it,
-- with no more objects than the check of its free bytes lets pass: the area of `2 ^ get_object_size`
-- bytes of each object is behind what is taken of the block and before the block's end, aligned to its
-- own size, and no two of these areas overlap. The area of a notification is 16 bytes, half of its
-- structure.
pub retype-InBlock :
    (ptr block free_index recorded is_device : ℕ) (obj_type : ObjectType) (user_size window : ℕ)
    → ptr % 2 ^ block ≡ 0
    → ptr + 2 ^ block < 2 ^ 64
    → free_index * 2 ^ 4 ≤ 2 ^ block
    → ltb
        (untyped_free_bytes (untyped recorded is_device block ptr) free_index
          / 2 ^ get_object_size obj_type user_size)
        window
      ≡ false
    → (i : ℕ) → i < window
    → InBlock ptr block free_index obj_type user_size i
      × ((j : ℕ)
          → i < j
          → j < window
          → object_of ptr free_index obj_type user_size i + 2 ^ get_object_size obj_type user_size
            ≤ object_of ptr free_index obj_type user_size j)
unfolding InBlock object_of base size
retype-InBlock ptr block free_index recorded is_device obj_type user_size window aligned inside
      taken enough i lt =
    let some_object : 0 < window = omega arith in
    let bounds =
      retype-within ptr block free_index recorded is_device aligned inside taken obj_type user_size
        window some_object enough i lt in
    (
      (
        bounds.0,
        retype-aligned ptr block free_index recorded is_device aligned inside taken obj_type
            user_size window some_object enough i lt,
        bounds.1,
      ),
      retype-apart ptr block free_index recorded is_device aligned inside taken obj_type user_size
          window some_object enough i,
    )

-- The free index that `invoke_untyped_retype` leaves a block with.
pub free_index_after : ℕ → ℕ → ObjectType → ℕ → ℕ → ℕ
free_index_after ptr free_index obj_type user_size window =
    let obj_size : ℕ = get_object_size obj_type user_size in
    get_free_index ptr (
      wrapping_add (align_up (get_free_ref ptr free_index) obj_size)
        (window * 2 ^ obj_size % 2 ^ 64))

-- After such a retype into one object or more, of 16 bytes at least each, the free index is inside
-- the block again and not below the one before, and the area of `2 ^ get_object_size` bytes of every
-- new object is below it. The area of a notification is 16 bytes, half of its structure.
pub retype-taken :
    (ptr block free_index recorded is_device : ℕ) (obj_type : ObjectType) (user_size window : ℕ)
    → ptr % 2 ^ block ≡ 0
    → ptr + 2 ^ block < 2 ^ 64
    → free_index * 2 ^ 4 ≤ 2 ^ block
    → 0 < window
    → 4 ≤ get_object_size obj_type user_size
    → ltb
        (untyped_free_bytes (untyped recorded is_device block ptr) free_index
          / 2 ^ get_object_size obj_type user_size)
        window
      ≡ false
    → (free_index_after ptr free_index obj_type user_size window * 2 ^ 4 ≤ 2 ^ block)
      × (free_index ≤ free_index_after ptr free_index obj_type user_size window)
      × ((i : ℕ)
          → i < window
          → object_of ptr free_index obj_type user_size i + 2 ^ get_object_size obj_type user_size
            ≤ ptr + free_index_after ptr free_index obj_type user_size window * 2 ^ 4)
unfolding InBlock object_of base size free_index_after next free
retype-taken ptr block free_index recorded is_device obj_type user_size window aligned inside taken
      some_object large enough =
    let e =
      next-offset ptr block free_index recorded is_device aligned inside taken obj_type user_size
        window some_object enough large in
    let f =
      fits ptr block free_index recorded is_device aligned inside taken obj_type user_size window
        some_object enough in
    let b =
      base-le ptr block free_index recorded is_device aligned inside taken obj_type user_size window
        some_object enough in
    (
      omega (arith, e, f),
      omega (arith, e, b),
      λ i lt.
          let p =
            place ptr block free_index recorded is_device aligned inside taken obj_type user_size
              window some_object enough i lt in
          rw p.1 (omega (arith, e, p.0)),
    )
