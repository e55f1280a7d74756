-- ===== src/Cspace/Resolve/Fuel.antt =====
-- The lookup ends: every level of `resolve_address_bits` takes at least a bit of the pointer.
use mi_dev_integral_rel.Base.{
  ℕ, zero, suc, ◌+◌, ◌-◌, ◌*◌, ◌%◌, ◌^◌, ◌<◌, ◌≡◌, ◌≢◌, ◌≤◌, ◌⊎◌, inl, inr, refl, arith,
}
use mi_dev_integral_rel.Cspace.{Capability, CSpace}
use mi_dev_integral_rel.Cspace.Resolve.{
  ResolveRet, Resolved, returned, panicked, out_of_fuel, get_cnode_radix, get_cnode_guard_size,
  get_cnode_ptr, cte_size, shift_right, resolve_loop, resolve_address_bits,
}

resolve_loop-fuel :
    (fuel : ℕ) (c : CSpace) (first cap_ptr : ℕ) (node : Capability) (n : ℕ)
    → n < fuel
    → resolve_loop fuel c first cap_ptr node n ≢ out_of_fuel
unfolding resolve_loop
resolve_loop-fuel zero c first cap_ptr node n lt = elim lt [ ]
resolve_loop-fuel (suc fuel) c first cap_ptr node n lt =
    let level = get_cnode_radix node + get_cnode_guard_size node in
    let slot =
      get_cnode_ptr node + shift_right cap_ptr (n - level) % 2 ^ get_cnode_radix node * cte_size in
    ground (arith, resolve_loop-fuel fuel c first cap_ptr (c.cap slot) (n - level))

resolve_loop-bits :
    (fuel : ℕ) (c : CSpace) (first cap_ptr : ℕ) (node : Capability) (n : ℕ) (r : ResolveRet)
    → n ≤ first
    → resolve_loop fuel c first cap_ptr node n ≡ returned r
    → r.bits_remaining ≤ first
unfolding resolve_loop
resolve_loop-bits zero c first cap_ptr node n r le e = absurd (cc)
resolve_loop-bits (suc fuel) c first cap_ptr node n r le e =
    let level = get_cnode_radix node + get_cnode_guard_size node in
    let slot =
      get_cnode_ptr node + shift_right cap_ptr (n - level) % 2 ^ get_cnode_radix node * cte_size in
    ground (arith, resolve_loop-bits fuel c first cap_ptr (c.cap slot) (n - level) r)

classify :
    (x : Resolved) (n : ℕ)
    → x ≢ out_of_fuel
    → ((r : ResolveRet) → x ≡ returned r → r.bits_remaining ≤ n)
    → (x ≡ panicked) ⊎ ((r : ResolveRet) × (x ≡ returned r) × (r.bits_remaining ≤ n))
classify (returned r) n fueled few = inr (r, refl, few r refl)
classify panicked n fueled few = inl refl
classify out_of_fuel n fueled few = absurd (fueled refl)

-- On every capability, pointer and number of bits, the lookup fails its assertion or returns, and
-- then no more bits are left than it was given: the loop ends.
pub resolve_address_bits-total :
    (c : CSpace) (node : Capability) (cap_ptr n : ℕ)
    → (resolve_address_bits c node cap_ptr n ≡ panicked)
      ⊎ ((r : ResolveRet) × (resolve_address_bits c node cap_ptr n ≡ returned r)
          × (r.bits_remaining ≤ n))
unfolding resolve_address_bits
resolve_address_bits-total c node cap_ptr n =
    classify (resolve_address_bits c node cap_ptr n) n
      (ground (arith, resolve_loop-fuel (suc n) c n cap_ptr node n))
      (λ r e. ground (arith, resolve_loop-bits (suc n) c n cap_ptr node n r))
