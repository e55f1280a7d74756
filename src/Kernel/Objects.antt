-- ===== src/Kernel/Objects.antt =====
-- The types of kernel objects: sel4_common/src/object.rs and its arch/riscv64/object.rs.
use mi_dev_integral_rel.Base.{
  ℕ, ◌+◌, ◌%◌, ◌^◌, Bool, true, false, Option, none, some, ◌==◌, if◌then◌else◌,
}

pub data ObjectType : Type 0 where
  untyped_object tcb_object endpoint_object notification_object cap_table_object : ObjectType
  giga_page_object normal_page_object mega_page_object page_table_object : ObjectType

-- `ObjectType::from_usize`
unfoldable pub from_usize : ℕ → Option ObjectType
from_usize value =
    if value == 0
    then some untyped_object
    else if value == 1
    then some tcb_object
    else if value == 2
    then some endpoint_object
    else if value == 3
    then some notification_object
    else if value == 4
    then some cap_table_object
    else if value == 5
    then some giga_page_object
    else if value == 6
    then some normal_page_object
    else if value == 7
    then some mega_page_object
    else if value == 8
    then some page_table_object
    else none

-- seL4_TCBBits, seL4_EndpointBits, seL4_NotificationBits, seL4_SlotBits and the sizes of pages.
unfoldable pub get_object_size : ObjectType → ℕ → ℕ
get_object_size untyped_object user_object_size = user_object_size
get_object_size tcb_object user_object_size = 10
get_object_size endpoint_object user_object_size = 4
get_object_size notification_object user_object_size = 4
get_object_size cap_table_object user_object_size = (5 + user_object_size) % 2 ^ 64
get_object_size giga_page_object user_object_size = 30
get_object_size normal_page_object user_object_size = 12
get_object_size mega_page_object user_object_size = 21
get_object_size page_table_object user_object_size = 12

-- `get_frame_type`, RISCV_4K_Page, RISCV_Mega_Page and RISCV_Giga_Page; `none` is its panic.
unfoldable pub get_frame_type : ObjectType → Option ℕ
get_frame_type normal_page_object = some 0
get_frame_type mega_page_object = some 1
get_frame_type giga_page_object = some 2
get_frame_type _ = none

unfoldable pub is_arch_type : ObjectType → Bool
is_arch_type giga_page_object = true
is_arch_type normal_page_object = true
is_arch_type mega_page_object = true
is_arch_type _ = false

-- `new_type != ObjectType::UnytpedObject`
unfoldable pub is_untyped : ObjectType → Bool
is_untyped untyped_object = true
is_untyped _ = false
