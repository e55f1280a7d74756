-- ===== src/Kernel/Untyped.antt =====
-- Untyped memory: the arithmetic of its blocks (kernel/src/syscall/utils.rs), and the making of
-- objects in it (kernel/src/syscall/invocation/invoke_untyped.rs, invocation/arch/riscv64.rs).
pub mod Blocks
pub mod Chunks
pub mod Cleared
pub mod Create
pub mod Decode
pub mod Fits
pub mod Reject
pub mod Reset
use Prim.Native.Nat.{bit_and}
use mi_dev_integral_rel.Base.{
  ℕ, zero, suc, ◌+◌, ◌-◌, ◌*◌, ◌/◌, ◌%◌, ◌^◌, Bool, true, false, not, ◌&&◌, Option, none, some, leb,
  ltb, ◌==◌, update, if◌then◌else◌,
}
use mi_dev_integral_rel.Cmd.{Cmd, Skip, panic, pure, ◌>>=◌, ◌>>◌, convert, get, modify}
use mi_dev_integral_rel.Cspace.{
  Exception, exception_none, Capability, null, untyped, endpoint, notification, cnode, thread,
  frame, page_table, CSpace,
}
use mi_dev_integral_rel.Cspace.Cap.{mask, wrapping_add}
pub use mi_dev_integral_rel.Cspace.Cte.{get_untyped_block_size, get_untyped_ptr}
use mi_dev_integral_rel.Cspace.Cte.{insert_new_cap}
use mi_dev_integral_rel.Task.{Tasks, inactive}
use mi_dev_integral_rel.Ipc.{Ipc, ep_idle, ntfn_idle}
use mi_dev_integral_rel.Kernel.{Kernel, in_slots}
use mi_dev_integral_rel.Kernel.Objects.{
  ObjectType, untyped_object, tcb_object, endpoint_object, notification_object, cap_table_object,
  page_table_object, get_object_size, get_frame_type,
}

abbrev pub wrapping_sub : ℕ → ℕ → ℕ
wrapping_sub a b = (a + 2 ^ 64 - b) % 2 ^ 64

-- `BIT!`, of a shift below 64
abbrev pub bit_of : ℕ → ℕ
bit_of e = 2 ^ e % 2 ^ 64

-- `(base_value + BIT!(alignment) - 1) & !MASK!(alignment)`
unfoldable pub align_up : ℕ → ℕ → ℕ
align_up base_value alignment =
    bit_and (wrapping_sub (wrapping_add base_value (bit_of alignment)) 1)
      (2 ^ 64 - 1 - mask alignment)

unfoldable pub free_index_to_offset : ℕ → ℕ
free_index_to_offset free_index = free_index * 2 ^ 4 % 2 ^ 64

unfoldable pub get_free_ref : ℕ → ℕ → ℕ
unfolding free_index_to_offset
get_free_ref base free_index = wrapping_add base (free_index_to_offset free_index)

unfoldable pub get_free_index : ℕ → ℕ → ℕ
get_free_index base free = wrapping_sub free base / 2 ^ 4

-- Read at untyped capabilities only.
abbrev pub get_untyped_free_index : Capability → ℕ
get_untyped_free_index (untyped free_index _ _ _) = free_index
get_untyped_free_index other = 0

-- `set_untyped_free_index`, of a field of 39 bits
abbrev pub with_free_index : ℕ → Capability → Capability
with_free_index v (untyped _ is_device block_size ptr) =
    untyped (v % 2 ^ 39) is_device block_size ptr
with_free_index v other = other

abbrev pub set_untyped_free_index : ℕ → ℕ → Cmd Kernel Skip
set_untyped_free_index slot v = modify λ k. record k {
  slots = record k.slots { cap = update k.slots.cap slot (with_free_index v (k.slots.cap slot)) };
}

-- `create_object` and `arch_create_object`; `unimplemented!` is a panic. A thread stands in the upper
-- half of its block, its slots in the lower; `tcb_t::init` sets its registers, with SSTATUS.
unfoldable pub arch_create_object : ObjectType → ℕ → ℕ → Option Capability
unfolding get_frame_type
arch_create_object page_table_object region_base device_mem = some (page_table 0 region_base 0 0)
arch_create_object obj_type region_base device_mem = of_frame (get_frame_type obj_type)
  where
    of_frame : Option ℕ → Option Capability
    of_frame none = none
    of_frame (some size) = some (frame 0 region_base size 3 device_mem 0)

abbrev pub tcb_offset : ℕ
tcb_offset = 2 ^ 9

abbrev pub init_tcb : ℕ → Cmd Kernel Skip
init_tcb t = modify λ k. record k {
  ipc = record k.ipc {
    tasks = record k.ipc.tasks {
      registers = update k.ipc.tasks.registers t (λ r. if r == 32 then 0x00040020 else 0);
      time_slice = update k.ipc.tasks.time_slice t 5;
      domain = update k.ipc.tasks.domain t k.ipc.tasks.cur_domain;
    };
  };
}

abbrev or_panic : Option Capability → Cmd Kernel Capability
or_panic none = λ k. panic
or_panic (some c) = pure c

unfoldable pub create_object : ObjectType → ℕ → ℕ → ℕ → Cmd Kernel Capability
unfolding arch_create_object
create_object tcb_object region_base user_size device_mem = do
  let t = wrapping_add region_base tcb_offset
  convert t
  init_tcb t
  pure (thread t)
create_object cap_table_object region_base user_size device_mem =
    pure (cnode user_size 0 0 region_base)
create_object notification_object region_base user_size device_mem =
    pure (notification 0 1 1 region_base)
create_object endpoint_object region_base user_size device_mem =
    pure (endpoint 0 1 1 1 1 region_base)
create_object untyped_object region_base user_size device_mem =
    pure (untyped 0 device_mem user_size region_base)
create_object obj_type region_base user_size device_mem =
    or_panic (arch_create_object obj_type region_base device_mem)

-- The address of object `i` of a retype, and of the slot at an index of a CNode.
unfoldable pub object_at : ObjectType → ℕ → ℕ → ℕ → ℕ
unfolding get_object_size
object_at obj_type user_size region_base i =
    wrapping_add region_base (i * 2 ^ get_object_size obj_type user_size % 2 ^ 64)

unfoldable pub offset_slot : ℕ → ℕ → ℕ
offset_slot cnode_ptr index = wrapping_add cnode_ptr (32 * index % 2 ^ 64)

-- The loop of `create_new_objects`, from object `i` on, with `n` to go.
unfoldable pub create_new_objects : ℕ → ℕ → ObjectType → ℕ → ℕ → ℕ → ℕ → ℕ → ℕ → Cmd Kernel Skip
unfolding create_object object_at offset_slot
create_new_objects zero i obj_type parent dest_cnode dest_offset region_base user_size device_mem =
    pure tt
create_new_objects (suc n) i obj_type parent dest_cnode dest_offset region_base user_size
      device_mem =
    do
      cap ← create_object obj_type (object_at obj_type user_size region_base i) user_size device_mem
      let slot = offset_slot dest_cnode (dest_offset + i)
      convert slot
      in_slots (insert_new_cap parent slot cap)
      create_new_objects n (suc i) obj_type parent dest_cnode dest_offset region_base user_size
          device_mem
