-- ===== src/Kernel/Cnode/Reject.antt =====
-- An operation on two or three slots of a CNode that is rejected changes nothing but the error and
-- the fault that it reports: decode_cnode_invocation.rs.
use mi_dev_integral_rel.Base.{
  true, false, ℕ, refl, Bool, ◌||◌, ltb, ◌==◌, Bool-cases, inl, inr, if◌then◌else◌,
}
use mi_dev_integral_rel.Cmd.{Run, Cmd, and_then}
use mi_dev_integral_rel.Cspace.{
  Exception, exception_none, exception_fault, lookup_fault, syscall_error, preempted, Capability,
  CSpace, get_cap_type, untyped, reply, irq_control, zombie, frame, page_table, asid_control,
  asid_pool,
}
use mi_dev_integral_rel.Cspace.Cap.{is_arch_cap, update_data}
use mi_dev_integral_rel.Cspace.Derive.{DeriveRet, arch_derive_cap, derive_other, derive_cap}
use mi_dev_integral_rel.Cspace.Lookup.{
  SlotLookup, answer, panicked_lookup, lookup_slot_for_cnode_op,
}
use mi_dev_integral_rel.Cspace.Rights.{mask_cap_rights}
use mi_dev_integral_rel.Kernel.{Kernel, of_slots}
use mi_dev_integral_rel.Kernel.Untyped.Reject.{
  SameMemory, ErrorIsQuiet, refuses, panics, Quiet, stays, fails, fine, NoError-ErrorIsQuiet,
  no_error, sequel_unless, Looks, looked, failed, has_children-Looks,
}
use mi_dev_integral_rel.Kernel.Untyped.Decode.{get_syscall_arg}
use mi_dev_integral_rel.Kernel.Cnode.{
  restart_current, insert_derived, move_cap, invoke_cnode_copy, invoke_cnode_mint,
  invoke_cnode_move, invoke_cnode_mutate,
}
use mi_dev_integral_rel.Kernel.Cnode.Decode.{
  slot_found, find_slot, rights_of, invoke_two_slots, from_source,
  decode_cnode_invoke_with_two_slot,
}

arch_derive_cap-Looks : (v : Capability) (c : CSpace) → Looks c (arch_derive_cap v c)
unfolding arch_derive_cap
arch_derive_cap-Looks (page_table asid base is_mapped address) c =
    elim (Bool-cases (is_mapped == 0)) [ inl e ↦ rw e looked | inr e ↦ rw e looked ]
arch_derive_cap-Looks (frame _ _ _ _ _ _) c = looked
arch_derive_cap-Looks asid_control c = looked
arch_derive_cap-Looks (asid_pool _ _) c = looked
arch_derive_cap-Looks _ c = failed

children_known :
    (c : CSpace) {r : Run CSpace Bool} (some_child none_left : Cmd CSpace DeriveRet)
    → Looks c (some_child c)
    → Looks c (none_left c)
    → Looks c r
    → Looks c (and_then r (λ children. if children then some_child else none_left))
children_known c some_child none_left y n (looked {a = true}) = y
children_known c some_child none_left y n (looked {a = false}) = n
children_known c some_child none_left y n failed = failed

derive_other-Looks : (self : ℕ) (v : Capability) (c : CSpace) → Looks c (derive_other self v c)
unfolding derive_other
derive_other-Looks self (untyped i d size ptr) c =
    children_known c _ _ looked looked (has_children-Looks self c)
derive_other-Looks self (zombie _ _) c = looked
derive_other-Looks self (reply _ _ _) c = looked
derive_other-Looks self irq_control c = looked
derive_other-Looks self _ c = looked

derive_cap-Looks : (self : ℕ) (v : Capability) (c : CSpace) → Looks c (derive_cap self v c)
unfolding derive_cap
derive_cap-Looks self v c = elim (Bool-cases (is_arch_cap v)) [
  | inl e ↦ rw e (arch_derive_cap-Looks v c)
  | inr e ↦ rw e (derive_other-Looks self v c)
]

-- The ends of the invocations, from a memory that differs from the first at most in the globals.
insert_derived-ErrorIsQuiet :
    (k k1 : Kernel) (status : Exception) (v : Capability) (src dest : ℕ)
    → SameMemory k k1
    → ErrorIsQuiet k (insert_derived status v src dest k1)
unfolding insert_derived SameMemory
insert_derived-ErrorIsQuiet k k1 exception_none v src dest same =
    elim (Bool-cases (get_cap_type v == 0)) [
      | inl e ↦ rw e (refuses same)
      | inr e ↦ rw e (
          NoError-ErrorIsQuiet k
            (no_error (restart_current k1) _ (λ _ k2. no_error _ _ (λ _ k3. fine))))
    ]
insert_derived-ErrorIsQuiet k k1 exception_fault v src dest same = refuses same
insert_derived-ErrorIsQuiet k k1 lookup_fault v src dest same = refuses same
insert_derived-ErrorIsQuiet k k1 syscall_error v src dest same = refuses same
insert_derived-ErrorIsQuiet k k1 preempted v src dest same = refuses same

deriving_first :
    (k k1 : Kernel) (src dest : ℕ) {r : Run CSpace DeriveRet}
    → SameMemory k k1
    → Looks k1.slots r
    → ErrorIsQuiet k
        (and_then (of_slots k1 r) (λ dc_ret. insert_derived dc_ret.status dc_ret.cap src dest))
deriving_first k k1 src dest same (looked {a = ret}) =
    insert_derived-ErrorIsQuiet k k1 ret.status ret.cap src dest same
deriving_first k k1 src dest same failed = panics

move_cap-ErrorIsQuiet :
    (k k1 : Kernel) (v : Capability) (src dest : ℕ)
    → SameMemory k k1
    → ErrorIsQuiet k (move_cap v src dest k1)
unfolding move_cap SameMemory
move_cap-ErrorIsQuiet k k1 v src dest same = elim (Bool-cases (get_cap_type v == 0)) [
  | inl e ↦ rw e (refuses same)
  | inr e ↦ rw e (
      NoError-ErrorIsQuiet k
        (no_error (restart_current k1) _ (λ _ k2. no_error _ _ (λ _ k3. fine))))
]

slot_found-Quiet : (k k1 : Kernel) (r : SlotLookup) → SameMemory k k1 → Quiet k (slot_found r k1)
unfolding slot_found SameMemory
slot_found-Quiet k k1 (answer exception_none slot g) same = elim (Bool-cases (slot == 0)) [
  | inl e ↦ rw e fails
  | inr e ↦ rw e (stays same)
]
slot_found-Quiet k k1 (answer exception_fault slot g) same = stays same
slot_found-Quiet k k1 (answer lookup_fault slot g) same = stays same
slot_found-Quiet k k1 (answer syscall_error slot g) same = stays same
slot_found-Quiet k k1 (answer preempted slot g) same = stays same
slot_found-Quiet k k1 panicked_lookup same = fails

find_slot-Quiet :
    (k k1 : Kernel) (root : Capability) (index depth : ℕ)
    → SameMemory k k1
    → Quiet k (find_slot root index depth k1)
unfolding find_slot
find_slot-Quiet k k1 root index depth same =
    slot_found-Quiet k k1 (lookup_slot_for_cnode_op k1.globals k1.slots true root index depth) same

invoke_two_slots-ErrorIsQuiet :
    (k k1 : Kernel) (label src dest length : ℕ) (arg : ℕ → ℕ)
    → SameMemory k k1
    → ErrorIsQuiet k (invoke_two_slots label src dest length arg k1)
unfolding invoke_two_slots invoke_cnode_copy invoke_cnode_mint invoke_cnode_move invoke_cnode_mutate
    SameMemory
invoke_two_slots-ErrorIsQuiet k k1 label src dest length arg same =
    let copied = mask_cap_rights (rights_of (arg 4)) (k1.slots.cap src) in
    elim (Bool-cases (label == 19)) [
      | inl e ↦ elim (Bool-cases (ltb length 5)) [
        | inl f ↦ rw (e, f) (refuses same)
        | inr f ↦
            rw (e, f) (deriving_first k k1 src dest same (derive_cap-Looks src copied k1.slots))
      ]
      | inr e ↦ elim (Bool-cases (label == 20)) [
        | inl g ↦ elim (Bool-cases (ltb length 6)) [
          | inl f ↦ rw (e, g, f) (refuses same)
          | inr f ↦
              rw (e, g, f)
                (deriving_first k k1 src dest same
                  (derive_cap-Looks src (update_data copied false (arg 5)) k1.slots))
        ]
        | inr g ↦ elim (Bool-cases (label == 21)) [
          | inl h ↦ rw (e, g, h) (move_cap-ErrorIsQuiet k k1 (k1.slots.cap src) src dest same)
          | inr h ↦ elim (Bool-cases (label == 22)) [
            | inl i ↦ elim (Bool-cases (ltb length 5)) [
              | inl f ↦ rw (e, g, h, i, f) (refuses same)
              | inr f ↦
                  rw (e, g, h, i, f)
                    (move_cap-ErrorIsQuiet k k1 (update_data (k1.slots.cap src) true (arg 4)) src
                      dest same)
            ]
            | inr i ↦ rw (e, g, h, i) panics
          ]
        ]
      ]
    ]

from_source-ErrorIsQuiet :
    (k k1 : Kernel) (label src dest length : ℕ) (arg : ℕ → ℕ)
    → SameMemory k k1
    → ErrorIsQuiet k (from_source label src dest length arg k1)
unfolding from_source SameMemory
from_source-ErrorIsQuiet k k1 label src dest length arg same =
    elim (Bool-cases (get_cap_type (k1.slots.cap src) == 0)) [
      | inl e ↦ rw e (refuses same)
      | inr e ↦ rw e (invoke_two_slots-ErrorIsQuiet k k1 label src dest length arg same)
    ]

-- When decoding a copy, mint, move or mutate of a capability returns an error, threads, endpoints,
-- notifications, slots and the derivation list, messages, address spaces and interrupts are as they
-- were: only the error and the lookup fault that it reports are written.
pub decode_cnode_invoke_with_two_slot-ErrorIsQuiet :
    (k : Kernel) (label dest length : ℕ) (buffer : ℕ → ℕ)
    → ErrorIsQuiet k (decode_cnode_invoke_with_two_slot label dest length buffer k)
unfolding decode_cnode_invoke_with_two_slot SameMemory
decode_cnode_invoke_with_two_slot-ErrorIsQuiet k label dest length buffer =
    elim (Bool-cases (ltb length 4 || (k.extra_caps 0 == 0))) [
      | inl e ↦ rw e (refuses (refl, refl, refl, refl, refl, refl, refl))
      | inr e ↦ elim (Bool-cases (get_cap_type (k.slots.cap dest) == 0)) [
        | inl f ↦
            rw (e, f)
              (sequel_unless k _
                (find_slot-Quiet k k _ _ _ (refl, refl, refl, refl, refl, refl, refl))
                λ src k1 same.
                  from_source-ErrorIsQuiet k k1 label src dest length (get_syscall_arg k buffer)
                    same)
        | inr f ↦ rw (e, f) (refuses (refl, refl, refl, refl, refl, refl, refl))
      ]
    ]
