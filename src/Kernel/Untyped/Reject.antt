-- ===== src/Kernel/Untyped/Reject.antt =====
-- The errors of decode_untyped_invocation.rs, and the memory that they leave.
use mi_dev_integral_rel.Base.{
  ℕ, zero, suc, ◌-◌, ◌^◌, ◌/◌, ◌≡◌, refl, Bool, true, false, not, ◌&&◌, ◌||◌, ltb, leb, ◌==◌,
  if◌then◌else◌, Option, none, some, Bool-cases, inl, inr,
}
use mi_dev_integral_rel.Cmd.{Run, ok, panic, Cmd, and_then, ◌>>◌, pure, convert}
use mi_dev_integral_rel.Cspace.{
  Exception, exception_none, exception_fault, lookup_fault, syscall_error, preempted, Capability,
  CSpace, get_cap_type,
}
use mi_dev_integral_rel.Cspace.Cte.{has_children, is_mdb_parent_of, parent_badge, or_panic}
use mi_dev_integral_rel.Cspace.Resolve.{get_cnode_ptr, get_cnode_radix}
use mi_dev_integral_rel.Cspace.Cap.{same_region_as}
use mi_dev_integral_rel.Cspace.Lookup.{SlotLookup, answer, panicked_lookup, revoke_first}
use mi_dev_integral_rel.Task.{restart}
use mi_dev_integral_rel.Task.Scheduler.{set_thread_state}
use mi_dev_integral_rel.Ipc.{in_tasks}
use mi_dev_integral_rel.Kernel.{
  Kernel, Checked, rejected, passed, unless_rejected, of_slots, set_error, in_ipc,
}
use mi_dev_integral_rel.Kernel.Objects.{
  get_object_size, is_arch_type, is_untyped, ObjectType, cap_table_object, untyped_object,
  tcb_object, endpoint_object, notification_object, giga_page_object, normal_page_object,
  mega_page_object, page_table_object,
}
use mi_dev_integral_rel.Kernel.Untyped.{
  offset_slot, get_untyped_free_index, free_index_to_offset, bit_of, get_untyped_block_size,
  get_untyped_ptr, align_up, get_free_ref,
}
use mi_dev_integral_rel.Kernel.Untyped.Reset.{reset_untyped_cap, get_frame_is_device}
use mi_dev_integral_rel.Kernel.Untyped.Decode.{
  check_object_type, check_target, get_target_cnode, after_lookup, check_slots, check_cnode_slot,
  untyped_free_bytes, get_syscall_arg, free_index_of, retype_into, invoke_untyped_retype,
  retype_after, retype_now, decode_checked, decode_retype, decode_untyped_invocation,
}

-- Two memories that differ at most in the globals: current_syscall_error with its argument's number, and
-- current_lookup_fault.
unfoldable pub SameMemory : Kernel → Kernel → Type 0
SameMemory k k' =
    (k'.ipc ≡ k.ipc)
    × (k'.slots ≡ k.slots)
    × (k'.extra_caps ≡ k.extra_caps)
    × (k'.messages ≡ k.messages)
    × (k'.vspace ≡ k.vspace)
    × (k'.current_fault ≡ k.current_fault)
    × (k'.interrupts ≡ k.interrupts)

-- What holds of a run that may return an error: if it does, the memory is as it was.
pub data ErrorIsQuiet (k : Kernel) : Run Kernel Exception → Type 0 where
  succeeds : {k' : Kernel} → ErrorIsQuiet k (ok exception_none k')
  refuses : {status : Exception} {k' : Kernel} → SameMemory k k' → ErrorIsQuiet k (ok status k')
  panics : ErrorIsQuiet k panic

-- A run that keeps the memory, whatever it returns, and one that returns no error.
pub data Quiet {A : Type 0} (k : Kernel) : Run Kernel A → Type 0 where
  stays : {a : A} {k' : Kernel} → SameMemory k k' → Quiet k (ok a k')
  fails : Quiet k panic

pub data NoError : Run Kernel Exception → Type 0 where
  fine : {k : Kernel} → NoError (ok exception_none k)
  stuck : NoError panic

pub NoError-ErrorIsQuiet : (k : Kernel) {r : Run Kernel Exception} → NoError r → ErrorIsQuiet k r
NoError-ErrorIsQuiet k fine = succeeds
NoError-ErrorIsQuiet k stuck = panics

-- Sequencing.
pub no_error :
    {A : Type 0} (r : Run Kernel A) (f : A → Cmd Kernel Exception)
    → ((a : A) (k : Kernel) → NoError (f a k))
    → NoError (and_then r f)
no_error (ok a k) f all = all a k
no_error panic f all = stuck

pub sequel :
    {A : Type 0} (k : Kernel) {r : Run Kernel A} (f : A → Cmd Kernel Exception)
    → Quiet k r
    → ((a : A) (k' : Kernel) → SameMemory k k' → ErrorIsQuiet k (f a k'))
    → ErrorIsQuiet k (and_then r f)
sequel k f (stays same) next = next _ _ same
sequel k f fails next = panics

pub sequel_unless :
    {A : Type 0} (k : Kernel) {r : Run Kernel (Checked A)} (f : A → Cmd Kernel Exception)
    → Quiet k r
    → ((a : A) (k' : Kernel) → SameMemory k k' → ErrorIsQuiet k (f a k'))
    → ErrorIsQuiet k (and_then r (unless_rejected f))
sequel_unless {A} k f q next = sequel k (unless_rejected f) q after
  where
    after :
        (c : Checked A) (k' : Kernel) → SameMemory k k' → ErrorIsQuiet k (unless_rejected f c k')
    after (passed a) k' same = next a k' same
    after (rejected status) k' same = refuses same

-- The steps of the decoding keep the memory.
check_object_type-Quiet :
    (k k1 : Kernel) (t : ObjectType) (n : ℕ) → SameMemory k k1 → Quiet k (check_object_type t n k1)
unfolding check_object_type SameMemory
check_object_type-Quiet k k1 cap_table_object n same = elim (Bool-cases (n == 0)) [
  | inl e ↦ rw e (stays same)
  | inr e ↦ rw e (stays same)
]
check_object_type-Quiet k k1 untyped_object n same = elim (Bool-cases (ltb n 4)) [
  | inl e ↦ rw e (stays same)
  | inr e ↦ rw e (stays same)
]
check_object_type-Quiet k k1 tcb_object n same = stays same
check_object_type-Quiet k k1 endpoint_object n same = stays same
check_object_type-Quiet k k1 notification_object n same = stays same
check_object_type-Quiet k k1 giga_page_object n same = stays same
check_object_type-Quiet k k1 normal_page_object n same = stays same
check_object_type-Quiet k k1 mega_page_object n same = stays same
check_object_type-Quiet k k1 page_table_object n same = stays same

check_target-Quiet :
    (k k1 : Kernel) (c : Capability) (n : ℕ) → SameMemory k k1 → Quiet k (check_target c n k1)
unfolding check_target SameMemory
check_target-Quiet k k1 c n same = elim (Bool-cases (get_cap_type c == 10)) [
  | inl e ↦ rw e (stays same)
  | inr e ↦ rw e (stays same)
]

after_lookup-Quiet :
    (k k1 : Kernel) (r : SlotLookup) (n : ℕ) → SameMemory k k1 → Quiet k (after_lookup r n k1)
unfolding after_lookup SameMemory
after_lookup-Quiet k k1 (answer exception_none slot g) n same = check_target-Quiet k _ _ n same
after_lookup-Quiet k k1 (answer exception_fault slot g) n same = stays same
after_lookup-Quiet k k1 (answer lookup_fault slot g) n same = stays same
after_lookup-Quiet k k1 (answer syscall_error slot g) n same = stays same
after_lookup-Quiet k k1 (answer preempted slot g) n same = stays same
after_lookup-Quiet k k1 panicked_lookup n same = fails

get_target_cnode-Quiet :
    (k k1 : Kernel) (i d : ℕ) → SameMemory k k1 → Quiet k (get_target_cnode i d k1)
unfolding get_target_cnode
get_target_cnode-Quiet k k1 i d same = elim (Bool-cases (k1.extra_caps 0 == 0)) [
  | inl e ↦ rw e fails
  | inr e ↦ elim (Bool-cases (d == 0)) [
    | inl f ↦ rw (e, f) (check_target-Quiet k k1 _ d same)
    | inr f ↦ rw (e, f) (after_lookup-Quiet k k1 _ d same)
  ]
]

check_slots-Quiet : (k k1 : Kernel) (n i p : ℕ) → SameMemory k k1 → Quiet k (check_slots n i p k1)
unfolding check_slots SameMemory
check_slots-Quiet k k1 zero i p same = stays same
check_slots-Quiet k k1 (suc n) i p same = elim (Bool-cases (offset_slot p i == 0)) [
  | inl e ↦ rw e fails
  | inr e ↦ elim (Bool-cases (get_cap_type (k1.slots.cap (offset_slot p i)) == 0)) [
    | inl f ↦ rw (e, f) (check_slots-Quiet k k1 n (suc i) p same)
    | inr f ↦ rw (e, f) (stays same)
  ]
]

check_cnode_slot-Quiet :
    (k k1 : Kernel) (c : Capability) (o w : ℕ)
    → SameMemory k k1
    → Quiet k (check_cnode_slot c o w k1)
unfolding check_cnode_slot SameMemory
check_cnode_slot-Quiet k k1 c o w same =
    elim (Bool-cases (ltb (bit_of (get_cnode_radix c) - 1) o)) [
      | inl e ↦ rw e (stays same)
      | inr e ↦ elim (Bool-cases (ltb w 1 || ltb 256 w)) [
        | inl f ↦ rw (e, f) (stays same)
        | inr f ↦ elim (Bool-cases (ltb (bit_of (get_cnode_radix c) - o) w)) [
          | inl g ↦ rw (e, f, g) (stays same)
          | inr g ↦ elim (Bool-cases (get_cnode_ptr c == 0)) [
            | inl z ↦ rw (e, f, g, z) fails
            | inr z ↦ rw (e, f, g, z) (check_slots-Quiet k k1 w o (get_cnode_ptr c) same)
          ]
        ]
      ]
    ]

-- A command on the slots that only looks.
pub data Looks {A : Type 0} (c : CSpace) : Run CSpace A → Type 0 where
  looked : {a : A} → Looks c (ok a c)
  failed : Looks c panic

pub has_children-Looks : (slot : ℕ) (c : CSpace) → Looks c (has_children slot c)
unfolding has_children is_mdb_parent_of
has_children-Looks slot c = elim (Bool-cases (c.mdb_next slot == 0)) [
  | inl e ↦ rw e looked
  | inr e ↦ elim (Bool-cases (c.mdb_revocable slot == 0)) [
    | inl f ↦ rw (e, f) looked
    | inr f ↦ elim (Bool-cases (same_region_as (c.cap slot) (c.cap (c.mdb_next slot)))) [
      | inl g ↦
          rw (e, f, g)
            (found (
              parent_badge (c.cap slot) (c.cap (c.mdb_next slot))
                (c.mdb_first_badged (c.mdb_next slot))))
      | inr g ↦ rw (e, f, g) looked
    ]
  ]
]
  where
    found : (r : Option Bool) → Looks c (or_panic r c)
    found none = failed
    found (some b) = looked

free_index_of-Quiet :
    (k k1 : Kernel) (slot : ℕ) (c : Capability)
    → SameMemory k k1
    → Quiet k (free_index_of slot c k1)
unfolding free_index_of SameMemory
free_index_of-Quiet k k1 slot c same = go (has_children-Looks slot k1.slots)
  where
    go :
        {r : Run CSpace Bool}
        → Looks k1.slots r
        → Quiet {A = ℕ × Bool} k (
            and_then (of_slots k1 r) (λ children.
              if children
              then (do set_error revoke_first; pure (get_untyped_free_index c, false))
              else pure (0, true)))
    go (looked {a = true}) = stays same
    go (looked {a = false}) = stays same
    go failed = fails

reset_untyped_cap-NoError : (slot : ℕ) (k : Kernel) → NoError (reset_untyped_cap slot k)
unfolding reset_untyped_cap
reset_untyped_cap-NoError slot k =
    elim (Bool-cases (free_index_to_offset (get_untyped_free_index (k.slots.cap slot)) == 0)) [
      | inl e ↦ rw e fine
      | inr e ↦ elim (Bool-cases (get_frame_is_device (k.slots.cap slot) == 0)) [
        | inl f ↦ rw (e, f) (no_error _ _ (λ _ k'. fine))
        | inr f ↦ elim (Bool-cases (ltb (get_untyped_block_size (k.slots.cap slot)) 8)) [
          | inl g ↦ rw (e, f, g) fine
          | inr g ↦ rw (e, f, g) (no_error _ _ (λ _ k'. fine))
        ]
      ]
    ]

resetting :
    (p b : ℕ) (t : ObjectType) (u slot d o n v : ℕ) {r : Run Kernel Exception}
    → NoError r
    → NoError (and_then r (retype_after p b t u slot d o n v))
unfolding retype_after
resetting p b t u slot d o n v fine = no_error _ _ (λ _ k'. fine)
resetting p b t u slot d o n v stuck = stuck

invoke_untyped_retype-NoError :
    (slot : ℕ) (reset : Bool) (b : ℕ) (t : ObjectType) (u d o n v : ℕ) (k : Kernel)
    → NoError (invoke_untyped_retype slot reset b t u d o n v k)
unfolding invoke_untyped_retype retype_after
invoke_untyped_retype-NoError slot true b t u d o n v k =
    resetting (get_untyped_ptr (k.slots.cap slot)) b t u slot d o n v
      (reset_untyped_cap-NoError slot k)
invoke_untyped_retype-NoError slot false b t u d o n v k = no_error _ _ (λ _ k'. fine)

retype_now-NoError :
    (slot : ℕ) (reset : Bool) (b : ℕ) (t : ObjectType) (u : ℕ) (node : Capability) (o n v : ℕ)
    (k : Kernel)
    → NoError (retype_now slot reset b t u node o n v k)
unfolding retype_now
retype_now-NoError slot reset b t u node o n v k =
    no_error (in_ipc (in_tasks (set_thread_state k.ipc.tasks.cur_thread restart)) k) _ λ _ k2.
      no_error (convert (get_cnode_ptr node) k2) _
        λ _ k3. invoke_untyped_retype-NoError slot reset b t u (get_cnode_ptr node) o n v k3

-- After the destination is checked, the test of the free bytes, and that of device memory, may still
-- refuse; what follows them returns no error.
retype_into-ErrorIsQuiet :
    (k k1 : Kernel) (slot : ℕ) (cap : Capability) (t : ObjectType) (u : ℕ) (node : Capability)
    (o w : ℕ)
    → SameMemory k k1
    → ErrorIsQuiet k (retype_into slot cap t u node o w k1)
unfolding retype_into SameMemory
retype_into-ErrorIsQuiet k k1 slot cap t u node o w same =
    sequel k _ (free_index_of-Quiet k k1 slot cap same) λ r k2 same2.
      elim (Bool-cases (ltb (untyped_free_bytes cap r.0 / 2 ^ get_object_size t u) w)) [
        | inl e ↦ rw e (refuses same2)
        | inr e ↦
            elim (Bool-cases
              (not (get_frame_is_device cap == 0) && is_arch_type t && not (is_untyped t))) [
                | inl f ↦ rw (e, f) (refuses same2)
                | inr f ↦
                    rw (e, f)
                      (NoError-ErrorIsQuiet k (
                        retype_now-NoError slot r.1
                          (align_up (get_free_ref (get_untyped_ptr cap) r.0) (get_object_size t u))
                          t u node o w (if not (get_frame_is_device cap == 0) then 1 else 0) k2))
              ]
      ]

decode_checked-ErrorIsQuiet :
    (k : Kernel) (slot : ℕ) (cap : Capability) (arg : ℕ → ℕ) (t : ObjectType)
    → ErrorIsQuiet k (decode_checked slot cap arg t k)
unfolding decode_checked SameMemory
decode_checked-ErrorIsQuiet k slot cap arg t =
    sequel_unless k _
      (check_object_type-Quiet k k t (arg 1) (refl, refl, refl, refl, refl, refl, refl))
      λ _ k1 s1. sequel_unless k _ (get_target_cnode-Quiet k k1 (arg 2) (arg 3) s1) λ node k2 s2.
        sequel_unless k _ (check_cnode_slot-Quiet k k2 node (arg 4) (arg 5) s2)
          λ _ k3 s3. retype_into-ErrorIsQuiet k k3 slot cap t (arg 1) node (arg 4) (arg 5) s3

decode_retype-ErrorIsQuiet :
    (k : Kernel) (slot : ℕ) (cap : Capability) (buffer : ℕ → ℕ) (t : Option ObjectType)
    → ErrorIsQuiet k (decode_retype slot cap buffer t k)
unfolding decode_retype SameMemory
decode_retype-ErrorIsQuiet k slot cap buffer none =
    refuses (refl, refl, refl, refl, refl, refl, refl)
decode_retype-ErrorIsQuiet k slot cap buffer (some t) =
    let arg : ℕ → ℕ = get_syscall_arg k buffer in
    elim (Bool-cases (leb 64 (arg 1) || ltb 38 (get_object_size t (arg 1)))) [
      | inl e ↦ rw e (refuses (refl, refl, refl, refl, refl, refl, refl))
      | inr e ↦ rw e (decode_checked-ErrorIsQuiet k slot cap arg t)
    ]

-- When decoding an invocation of untyped memory returns an error, threads, endpoints, notifications,
-- slots and the derivation list, messages, address spaces and interrupts are as they were: only the
-- error and the lookup fault that it reports are written.
pub decode_untyped_invocation-ErrorIsQuiet :
    (k : Kernel) (label length slot : ℕ) (cap : Capability) (buffer : ℕ → ℕ)
    → ErrorIsQuiet k (decode_untyped_invocation label length slot cap buffer k)
unfolding decode_untyped_invocation SameMemory
decode_untyped_invocation-ErrorIsQuiet k label length slot cap buffer =
    elim (Bool-cases (label == 1)) [
      | inl e ↦ elim (Bool-cases (ltb length 6 || (k.extra_caps 0 == 0))) [
        | inl f ↦ rw (e, f) (refuses (refl, refl, refl, refl, refl, refl, refl))
        | inr f ↦ rw (e, f) (decode_retype-ErrorIsQuiet k slot cap buffer _)
      ]
      | inr e ↦ rw e (refuses (refl, refl, refl, refl, refl, refl, refl))
    ]
