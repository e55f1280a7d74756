-- ===== src/Cspace/Words.antt =====
-- The two words of a `cap_t`, for riscv64: the fields that sel4_cspace/src/arch/riscv64/mod.rs gives
-- to each tag, the constructors and getters that `plus_define_bitfield!` makes of them, and what they
-- keep of a capability.
use mi_dev_integral_rel.Base.{
  ℕ, ◌<◌, ◌≡◌, ◌∙◌, refl, Bool, true, false, arith, ◌==◌, if◌then◌else◌, List, [], ◌∷◌, Option,
  none, some, inl,
}
use mi_dev_integral_rel.Field.{Field, IsStorable, get}
use mi_dev_integral_rel.Field.Layout.{
  create, get_type, well_placed, AllStorable, AllRead, create-AllRead, get_type-get, create-lt,
  is_field, apart_from,
}
use mi_dev_integral_rel.Cspace.{
  Capability, null, untyped, endpoint, notification, reply, cnode, thread, irq_control, irq_handler,
  zombie, domain, frame, page_table, asid_control, asid_pool, get_cap_type,
}

abbrev at : ℕ → ℕ → ℕ → ℕ → Bool → Field
at i o b s x = record { index = i; offset = o; bits = b; shift = s; sign_ext = x }

-- The tag: `cap_t, 2, 0, 59, 5`.
abbrev pub cap_type : Field
cap_type = at 0 59 5 0 false

-- The fields of every tag, named as their getters.
abbrev pub untyped_free_index : Field
untyped_free_index = at 1 25 39 0 false

abbrev pub untyped_is_device : Field
untyped_is_device = at 1 6 1 0 false

abbrev pub untyped_block_size : Field
untyped_block_size = at 1 0 6 0 false

abbrev pub untyped_ptr : Field
untyped_ptr = at 0 0 39 0 true

abbrev pub endpoint_badge : Field
endpoint_badge = at 1 0 64 0 false

abbrev pub endpoint_can_grant_reply : Field
endpoint_can_grant_reply = at 0 58 1 0 false

abbrev pub endpoint_can_grant : Field
endpoint_can_grant = at 0 57 1 0 false

abbrev pub endpoint_can_send : Field
endpoint_can_send = at 0 55 1 0 false

abbrev pub endpoint_can_receive : Field
endpoint_can_receive = at 0 56 1 0 false

abbrev pub endpoint_ptr : Field
endpoint_ptr = at 0 0 39 0 true

abbrev pub notification_badge : Field
notification_badge = at 1 0 64 0 false

abbrev pub notification_can_receive : Field
notification_can_receive = at 0 58 1 0 false

abbrev pub notification_can_send : Field
notification_can_send = at 0 57 1 0 false

abbrev pub notification_ptr : Field
notification_ptr = at 0 0 39 0 true

abbrev pub reply_can_grant : Field
reply_can_grant = at 0 1 1 0 false

abbrev pub reply_master : Field
reply_master = at 0 0 1 0 false

abbrev pub reply_tcb_ptr : Field
reply_tcb_ptr = at 1 0 64 0 false

abbrev pub cnode_radix : Field
cnode_radix = at 0 47 6 0 false

abbrev pub cnode_guard_size : Field
cnode_guard_size = at 0 53 6 0 false

abbrev pub cnode_guard : Field
cnode_guard = at 1 0 64 0 false

abbrev pub cnode_ptr : Field
cnode_ptr = at 0 0 38 1 true

abbrev pub thread_tcb_ptr : Field
thread_tcb_ptr = at 0 0 39 0 true

abbrev pub irq_handler_irq : Field
irq_handler_irq = at 1 0 12 0 false

abbrev pub zombie_id : Field
zombie_id = at 1 0 64 0 false

abbrev pub zombie_type : Field
zombie_type = at 0 0 7 0 false

abbrev pub frame_mapped_asid : Field
frame_mapped_asid = at 1 48 16 0 false

abbrev pub frame_base_ptr : Field
frame_base_ptr = at 1 9 39 0 true

abbrev pub frame_size : Field
frame_size = at 0 57 2 0 false

abbrev pub frame_vm_rights : Field
frame_vm_rights = at 0 55 2 0 false

abbrev pub frame_is_device : Field
frame_is_device = at 0 54 1 0 false

abbrev pub frame_mapped_address : Field
frame_mapped_address = at 0 0 39 0 true

abbrev pub page_table_mapped_asid : Field
page_table_mapped_asid = at 1 48 16 0 false

abbrev pub page_table_base_ptr : Field
page_table_base_ptr = at 1 9 39 0 true

abbrev pub page_table_is_mapped : Field
page_table_is_mapped = at 0 39 1 0 false

abbrev pub page_table_mapped_address : Field
page_table_mapped_address = at 0 0 39 0 true

abbrev pub asid_pool_base : Field
asid_pool_base = at 0 43 16 0 false

abbrev pub asid_pool_pool : Field
asid_pool_pool = at 0 0 37 2 true

-- The fields of a capability and their values, tag by tag.
unfoldable pub cap_fields : Capability → List (Field × ℕ)
cap_fields null = []
cap_fields (untyped free_index is_device block_size ptr) =
    (untyped_free_index, free_index)
    ∷ (untyped_is_device, is_device)
    ∷ (untyped_block_size, block_size)
    ∷ (untyped_ptr, ptr)
    ∷ []
cap_fields (endpoint badge can_grant_reply can_grant can_send can_receive ptr) =
    (endpoint_badge, badge)
    ∷ (endpoint_can_grant_reply, can_grant_reply)
    ∷ (endpoint_can_grant, can_grant)
    ∷ (endpoint_can_send, can_send)
    ∷ (endpoint_can_receive, can_receive)
    ∷ (endpoint_ptr, ptr)
    ∷ []
cap_fields (notification badge can_receive can_send ptr) =
    (notification_badge, badge)
    ∷ (notification_can_receive, can_receive)
    ∷ (notification_can_send, can_send)
    ∷ (notification_ptr, ptr)
    ∷ []
cap_fields (reply can_grant master tcb_ptr) =
    (reply_can_grant, can_grant) ∷ (reply_master, master) ∷ (reply_tcb_ptr, tcb_ptr) ∷ []
cap_fields (cnode radix guard_size guard ptr) =
    (cnode_radix, radix)
    ∷ (cnode_guard_size, guard_size)
    ∷ (cnode_guard, guard)
    ∷ (cnode_ptr, ptr)
    ∷ []
cap_fields (thread tcb_ptr) = (thread_tcb_ptr, tcb_ptr) ∷ []
cap_fields irq_control = []
cap_fields (irq_handler irq) = (irq_handler_irq, irq) ∷ []
cap_fields (zombie id type) = (zombie_id, id) ∷ (zombie_type, type) ∷ []
cap_fields domain = []
cap_fields (frame mapped_asid base_ptr size vm_rights is_device mapped_address) =
    (frame_mapped_asid, mapped_asid)
    ∷ (frame_base_ptr, base_ptr)
    ∷ (frame_size, size)
    ∷ (frame_vm_rights, vm_rights)
    ∷ (frame_is_device, is_device)
    ∷ (frame_mapped_address, mapped_address)
    ∷ []
cap_fields (page_table mapped_asid base_ptr is_mapped mapped_address) =
    (page_table_mapped_asid, mapped_asid)
    ∷ (page_table_base_ptr, base_ptr)
    ∷ (page_table_is_mapped, is_mapped)
    ∷ (page_table_mapped_address, mapped_address)
    ∷ []
cap_fields asid_control = []
cap_fields (asid_pool base pool) = (asid_pool_base, base) ∷ (asid_pool_pool, pool) ∷ []

-- `cap_t::new_*_cap`
unfoldable pub to_words : Capability → ℕ → ℕ
to_words c = create cap_type (get_cap_type c) (cap_fields c)

-- Two words read by the getters of the tag that `get_cap_type` finds in them; `none` at a number that
-- is no `CapTag`.
unfoldable pub from_words : (ℕ → ℕ) → Option Capability
from_words w =
    let tag : ℕ = get_type cap_type w in
    if tag == 0
    then some null
    else if tag == 2
    then some (
        untyped (get untyped_free_index w) (get untyped_is_device w) (get untyped_block_size w)
          (get untyped_ptr w))
    else if tag == 4
    then some (
        endpoint (get endpoint_badge w) (get endpoint_can_grant_reply w) (get endpoint_can_grant w)
          (get endpoint_can_send w) (get endpoint_can_receive w) (get endpoint_ptr w))
    else if tag == 6
    then some (
        notification (get notification_badge w) (get notification_can_receive w)
          (get notification_can_send w) (get notification_ptr w))
    else if tag == 8
    then some (reply (get reply_can_grant w) (get reply_master w) (get reply_tcb_ptr w))
    else if tag == 10
    then some
        (cnode (get cnode_radix w) (get cnode_guard_size w) (get cnode_guard w) (get cnode_ptr w))
    else if tag == 12
    then some (thread (get thread_tcb_ptr w))
    else if tag == 14
    then some irq_control
    else if tag == 16
    then some (irq_handler (get irq_handler_irq w))
    else if tag == 18
    then some (zombie (get zombie_id w) (get zombie_type w))
    else if tag == 20
    then some domain
    else if tag == 1
    then some (
        frame (get frame_mapped_asid w) (get frame_base_ptr w) (get frame_size w)
          (get frame_vm_rights w) (get frame_is_device w) (get frame_mapped_address w))
    else if tag == 3
    then some (
        page_table (get page_table_mapped_asid w) (get page_table_base_ptr w)
          (get page_table_is_mapped w) (get page_table_mapped_address w))
    else if tag == 11
    then some asid_control
    else if tag == 13
    then some (asid_pool (get asid_pool_base w) (get asid_pool_pool w))
    else none

from_words-AllRead :
    (c : Capability) (w : ℕ → ℕ)
    → get_type cap_type w ≡ get_cap_type c
    → AllRead (cap_fields c) w
    → from_words w ≡ some c
unfolding from_words cap_fields AllRead
from_words-AllRead null w t r = rw t refl
from_words-AllRead (untyped free_index is_device block_size ptr) w t r =
    rw (t, r.0, r.1.0, r.1.1.0, r.1.1.1.0) refl
from_words-AllRead (endpoint badge can_grant_reply can_grant can_send can_receive ptr) w t r =
    rw (t, r.0, r.1.0, r.1.1.0, r.1.1.1.0, r.1.1.1.1.0, r.1.1.1.1.1.0) refl
from_words-AllRead (notification badge can_receive can_send ptr) w t r =
    rw (t, r.0, r.1.0, r.1.1.0, r.1.1.1.0) refl
from_words-AllRead (reply can_grant master tcb_ptr) w t r = rw (t, r.0, r.1.0, r.1.1.0) refl
from_words-AllRead (cnode radix guard_size guard ptr) w t r =
    rw (t, r.0, r.1.0, r.1.1.0, r.1.1.1.0) refl
from_words-AllRead (thread tcb_ptr) w t r = rw (t, r.0) refl
from_words-AllRead irq_control w t r = rw t refl
from_words-AllRead (irq_handler irq) w t r = rw (t, r.0) refl
from_words-AllRead (zombie id type) w t r = rw (t, r.0, r.1.0) refl
from_words-AllRead domain w t r = rw t refl
from_words-AllRead (frame mapped_asid base_ptr size vm_rights is_device mapped_address) w t r =
    rw (t, r.0, r.1.0, r.1.1.0, r.1.1.1.0, r.1.1.1.1.0, r.1.1.1.1.1.0) refl
from_words-AllRead (page_table mapped_asid base_ptr is_mapped mapped_address) w t r =
    rw (t, r.0, r.1.0, r.1.1.0, r.1.1.1.0) refl
from_words-AllRead asid_control w t r = rw t refl
from_words-AllRead (asid_pool base pool) w t r = rw (t, r.0, r.1.0) refl

-- The fields of every tag stand beside each other and beside the tag.
pub cap_fields-well_placed :
    (c : Capability) → well_placed ((cap_type, get_cap_type c) ∷ cap_fields c) ≡ true
unfolding well_placed is_field apart_from cap_fields
cap_fields-well_placed null = refl
cap_fields-well_placed (untyped _ _ _ _) = refl
cap_fields-well_placed (endpoint _ _ _ _ _ _) = refl
cap_fields-well_placed (notification _ _ _ _) = refl
cap_fields-well_placed (reply _ _ _) = refl
cap_fields-well_placed (cnode _ _ _ _) = refl
cap_fields-well_placed (thread _) = refl
cap_fields-well_placed irq_control = refl
cap_fields-well_placed (irq_handler _) = refl
cap_fields-well_placed (zombie _ _) = refl
cap_fields-well_placed domain = refl
cap_fields-well_placed (frame _ _ _ _ _ _) = refl
cap_fields-well_placed (page_table _ _ _ _) = refl
cap_fields-well_placed asid_control = refl
cap_fields-well_placed (asid_pool _ _) = refl

get_cap_type-IsStorable : (c : Capability) → IsStorable cap_type (get_cap_type c)
unfolding IsStorable
get_cap_type-IsStorable c = (omega (arith, small c), omega arith, inl (small c, refl))
  where
    small : (c : Capability) → get_cap_type c < 32
    small null = omega arith
    small (untyped _ _ _ _) = omega arith
    small (endpoint _ _ _ _ _ _) = omega arith
    small (notification _ _ _ _) = omega arith
    small (reply _ _ _) = omega arith
    small (cnode _ _ _ _) = omega arith
    small (thread _) = omega arith
    small irq_control = omega arith
    small (irq_handler _) = omega arith
    small (zombie _ _) = omega arith
    small domain = omega arith
    small (frame _ _ _ _ _ _) = omega arith
    small (page_table _ _ _ _) = omega arith
    small asid_control = omega arith
    small (asid_pool _ _) = omega arith

-- What the words can hold of a capability: its tag, and each field a value of the field's.
unfoldable pub IsRepresentable : Capability → Type 0
IsRepresentable c = AllStorable (cap_fields c)

-- The words that the constructor of a capability's tag makes are read back as that capability, if its
-- fields have values that they can keep.
pub from_words-to_words : (c : Capability) → IsRepresentable c → from_words (to_words c) ≡ some c
unfolding IsRepresentable AllStorable AllRead to_words
from_words-to_words c ok =
    let r : AllRead ((cap_type, get_cap_type c) ∷ cap_fields c) (to_words c) =
      create-AllRead cap_type (get_cap_type c) (cap_fields c) (cap_fields-well_placed c)
        (get_cap_type-IsStorable c, ok) in
    from_words-AllRead c (to_words c)
      (get_type-get cap_type (to_words c) (create-lt cap_type (get_cap_type c) (cap_fields c) 0)
          (omega arith) refl refl
        ∙ r.0)
      r.1
