-- ===== src/Cspace/Cap/Region.antt =====
-- Regions of memory: what untyped memory contains.
use native.Mathlib.Nat.{mod-eq_of_lt, one-le-pow}
use mi_dev_integral_rel.Base.{ℕ, ◌+◌, ◌-◌, ◌^◌, ◌≤◌, ◌<◌, ◌≡◌, ◌↔◌, true, arith}
use mi_dev_integral_rel.Cspace.{Capability, untyped}
use mi_dev_integral_rel.Cspace.Cap.{
  same_region_as, get_cap_ptr, get_cap_size_bits, get_cap_is_physical, mask, wrapping_add,
}

-- Untyped memory, and a capability to an object, that do not pass the end of the address space: the
-- object is in the same region as the memory just when it has memory, and the bytes that
-- get_cap_size_bits counts from its address on are all bytes of the untyped memory. For frames,
-- threads, pools of identifiers and zombies this is the first byte alone.
pub same_region_as-contains :
    (i d size base : ℕ) (v : Capability)
    → base + 2 ^ size ≤ 2 ^ 64
    → get_cap_ptr v + 2 ^ get_cap_size_bits v ≤ 2 ^ 64
    → same_region_as (untyped i d size base) v ≡ true ↔ (
        (get_cap_is_physical v ≡ true)
        × ((a : ℕ)
            → get_cap_ptr v ≤ a
            → a < get_cap_ptr v + 2 ^ get_cap_size_bits v
            → (base ≤ a) × (a < base + 2 ^ size)))
unfolding same_region_as
same_region_as-contains i d size base v fits fits' =
    let p = get_cap_ptr v in
    let e : wrapping_add base (mask size) ≡ base + (2 ^ size - 1) =
      mod-eq_of_lt (omega (arith, one-le-pow size 2)) in
    let e' : wrapping_add p (mask (get_cap_size_bits v)) ≡ p + (2 ^ get_cap_size_bits v - 1) =
      mod-eq_of_lt (omega (arith, one-le-pow (get_cap_size_bits v) 2)) in
    let pos : 1 ≤ 2 ^ size = one-le-pow size 2 (omega arith) in
    let pos' : 1 ≤ 2 ^ get_cap_size_bits v = one-le-pow (get_cap_size_bits v) 2 (omega arith) in
    rw (e, e')
      (
        λ same. (ground arith, λ a le lt. ground arith),
        λ h.
            let first = h.1 p (omega arith) (omega arith) in
            let last = h.1 (p + (2 ^ get_cap_size_bits v - 1)) (omega arith) (omega arith) in
            ground (arith, h.0),
      )
