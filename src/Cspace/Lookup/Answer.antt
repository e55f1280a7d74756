-- ===== src/Cspace/Lookup/Answer.antt =====
-- The lookup of a slot for a CNode operation gives the slot that the pointer names.
use mi_dev_integral_rel.Base.{
  ℕ, ◌≡◌, ◌≤◌, ◌+◌, ◌*◌, ◌^◌, refl, Bool, true, false, ◌||◌, ltb, ◌==◌, arith, if◌then◌else◌,
  Bool-cases, inl, inr,
}
use mi_dev_integral_rel.Cspace.{Capability, CSpace, exception_none, syscall_error, get_cap_type}
use mi_dev_integral_rel.Cspace.Resolve.Route.{Route, bound, resolve_address_bits-finds}
use mi_dev_integral_rel.Cspace.Lookup.{
  Globals, failed_lookup, depth_mismatch, answer, after_resolve, lookup_slot_for_cnode_op,
}

-- When the low `n` bits of a pointer, at most 64, name a slot from the root, the lookup at depth `n`
-- answers with this slot when no bits are left, and else with an error that tells how many.
pub lookup_slot_for_cnode_op-finds :
    (g : Globals) (c : CSpace) (is_source : Bool) (hi : ℕ) (root : Capability) (n p slot rem : ℕ)
    → n ≤ 64
    → Route c root n p slot rem
    → lookup_slot_for_cnode_op g c is_source root (hi * 2 ^ n + p) n ≡ (
        if rem == 0
        then answer exception_none slot g
        else answer syscall_error 0 (record g {
          current_syscall_error = failed_lookup is_source;
          current_lookup_fault = depth_mismatch 0 rem;
        }))
unfolding lookup_slot_for_cnode_op after_resolve
lookup_slot_for_cnode_op-finds g c is_source hi root n p slot rem small route =
    let k = bound c root n p slot rem route in
    let node : (get_cap_type root == 10) ≡ true = ground (arith, k.2) in
    let range : (ltb n 1 || ltb 64 n) ≡ false = ground (arith, k.1) in
    rw (node, range, resolve_address_bits-finds c hi root n p slot rem small route)
      (elim (Bool-cases (rem == 0)) [ inl e ↦ rw e refl | inr e ↦ rw e refl ])
