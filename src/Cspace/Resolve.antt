-- ===== src/Cspace/Resolve.antt =====
-- The lookup of a slot: `resolve_address_bits` of sel4_cspace/src/cte.rs. The capability pointer
-- is a 64-bit word; subtractions of lengths wrap and shift distances are taken modulo 64.
pub mod Fuel
pub mod Route
use mi_dev_integral_rel.Base.{
  ℕ, zero, suc, ◌+◌, ◌-◌, ◌*◌, ◌/◌, ◌%◌, ◌^◌, not, ◌||◌, ltb, ◌==◌, if◌then◌else◌,
}
use mi_dev_integral_rel.Cspace.{
  Exception, exception_none, lookup_fault, Capability, cnode, CSpace, get_cap_type,
}

-- `resolveAddressBits_ret_t` of sel4_cspace/src/structures.rs.
pub record ResolveRet : Type 0 where
  pub status : Exception
  pub slot : ℕ
  pub bits_remaining : ℕ

-- The assertion that a level has bits may fail; the loop of the model may run out of fuel.
pub data Resolved : Type 0 where
  returned : ResolveRet → Resolved
  panicked : Resolved
  out_of_fuel : Resolved

-- The fields of a CNode capability; read at such capabilities only.
abbrev pub get_cnode_radix : Capability → ℕ
get_cnode_radix (cnode radix _ _ _) = radix
get_cnode_radix other = 0

abbrev pub get_cnode_guard_size : Capability → ℕ
get_cnode_guard_size (cnode _ guard_size _ _) = guard_size
get_cnode_guard_size other = 0

abbrev pub get_cnode_guard : Capability → ℕ
get_cnode_guard (cnode _ _ guard _) = guard
get_cnode_guard other = 0

abbrev pub get_cnode_ptr : Capability → ℕ
get_cnode_ptr (cnode _ _ _ ptr) = ptr
get_cnode_ptr other = 0

-- The size of a `cte_t`.
abbrev pub cte_size : ℕ
cte_size = 32

abbrev pub wrapping_sub : ℕ → ℕ → ℕ
wrapping_sub a b = (a + 2 ^ 64 - b) % 2 ^ 64

-- `a >> b` on words.
abbrev pub shift_right : ℕ → ℕ → ℕ
shift_right a b = a / 2 ^ (b % 2 ^ 6)

-- The loop; `first` is the number of bits that `ret` was made with.
unfoldable pub resolve_loop : ℕ → CSpace → ℕ → ℕ → Capability → ℕ → Resolved
resolve_loop zero c first cap_ptr node_cap n_bits = out_of_fuel
resolve_loop (suc fuel) c first cap_ptr node_cap n_bits =
    let radix_bits = get_cnode_radix node_cap in
    let guard_bits = get_cnode_guard_size node_cap in
    let level_bits = radix_bits + guard_bits in
    let guard = shift_right cap_ptr (wrapping_sub n_bits guard_bits % 2 ^ 6) % 2 ^ guard_bits in
    let offset = shift_right cap_ptr (n_bits - level_bits) % 2 ^ radix_bits in
    let slot = get_cnode_ptr node_cap + offset * cte_size in
    let rest = resolve_loop fuel c first cap_ptr (c.cap slot) (n_bits - level_bits) in
    let fault = returned (record { status = lookup_fault; slot = 0; bits_remaining = first }) in
    if level_bits == 0
    then panicked
    else if ltb n_bits guard_bits || not (guard == get_cnode_guard node_cap)
    then fault
    else if ltb n_bits level_bits
    then fault
    else if n_bits == level_bits
    then returned (record { status = exception_none; slot = slot; bits_remaining = 0 })
    else if not (get_cap_type (c.cap slot) == 10)
    then returned
        (record { status = exception_none; slot = slot; bits_remaining = n_bits - level_bits })
    else rest

-- Every level takes a bit, so the loop runs at most `n_bits` times.
unfoldable pub resolve_address_bits : CSpace → Capability → ℕ → ℕ → Resolved
unfolding resolve_loop
resolve_address_bits c node_cap cap_ptr n_bits =
    if not (get_cap_type node_cap == 10)
    then returned (record { status = lookup_fault; slot = 0; bits_remaining = n_bits })
    else resolve_loop (suc n_bits) c n_bits cap_ptr node_cap n_bits
