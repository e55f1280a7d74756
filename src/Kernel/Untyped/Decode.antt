-- ===== src/Kernel/Untyped/Decode.antt =====
-- Retyping untyped memory: kernel/src/syscall/invocation/decode/decode_untyped_invocation.rs, with
-- `invoke_untyped_retype` of invocation/invoke_untyped.rs and `get_syscall_arg` of syscall/utils.rs.
use mi_dev_integral_rel.Base.{
  ℕ, zero, suc, ◌+◌, ◌-◌, ◌*◌, ◌/◌, ◌%◌, ◌^◌, Bool, true, false, not, ◌&&◌, ◌||◌, Option, none,
  some, leb, ltb, ◌==◌, if◌then◌else◌,
}
use mi_dev_integral_rel.Cmd.{Cmd, Skip, panic, pure, ◌>>=◌, ◌>>◌, assert, convert, get, modify}
use mi_dev_integral_rel.Cspace.{Exception, exception_none, syscall_error, Capability, get_cap_type}
use mi_dev_integral_rel.Cspace.Cap.{wrapping_add, word_bits}
use mi_dev_integral_rel.Cspace.Cte.{has_children}
use mi_dev_integral_rel.Cspace.Resolve.{get_cnode_radix, get_cnode_ptr}
use mi_dev_integral_rel.Cspace.Lookup.{
  lookup_slot_for_cnode_op, SlotLookup, answer, panicked_lookup, illegal_operation,
  truncated_message, invalid_argument, range_error, failed_lookup, delete_first, revoke_first,
  not_enough_memory, missing_capability,
}
use mi_dev_integral_rel.Task.{restart}
use mi_dev_integral_rel.Task.Scheduler.{set_thread_state}
use mi_dev_integral_rel.Ipc.{in_tasks}
use mi_dev_integral_rel.Kernel.{
  Kernel, in_slots, in_ipc, Checked, rejected, passed, reject, checking, set_error,
}
use mi_dev_integral_rel.Kernel.Objects.{
  ObjectType, untyped_object, cap_table_object, from_usize, get_object_size, is_arch_type,
  is_untyped,
}
use mi_dev_integral_rel.Kernel.Untyped.{
  wrapping_sub, bit_of, align_up, free_index_to_offset, get_free_ref, get_free_index,
  get_untyped_free_index, get_untyped_block_size, get_untyped_ptr, set_untyped_free_index,
  offset_slot, create_new_objects,
}
use mi_dev_integral_rel.Kernel.Untyped.Reset.{reset_untyped_cap, get_frame_is_device}

-- The message words of the current thread: registers a1 to a4, then the IPC buffer.
unfoldable pub get_syscall_arg : Kernel → (ℕ → ℕ) → ℕ → ℕ
get_syscall_arg k buffer i =
    if ltb i 4 then k.ipc.tasks.registers k.ipc.tasks.cur_thread (11 + i) else buffer i

-- MessageLabel::UntypedRetype
abbrev pub untyped_retype : ℕ
untyped_retype = 1

abbrev pub max_untyped_bits : ℕ
max_untyped_bits = 38

abbrev pub min_untyped_bits : ℕ
min_untyped_bits = 4

abbrev pub retype_fan_out_limit : ℕ
retype_fan_out_limit = 256

unfoldable pub check_object_type : ObjectType → ℕ → Cmd Kernel (Checked Skip)
check_object_type cap_table_object user_obj_size =
    if user_obj_size == 0 then reject (invalid_argument 1) else pure (passed tt)
check_object_type untyped_object user_obj_size =
    if ltb user_obj_size min_untyped_bits then reject (invalid_argument 1) else pure (passed tt)
check_object_type new_type user_obj_size = pure (passed tt)

-- The end of `get_target_cnode`: the capability found must be that of a CNode.
unfoldable pub check_target : Capability → ℕ → Cmd Kernel (Checked Capability)
check_target target_node_cap node_depth =
    if not (get_cap_type target_node_cap == 10)
    then (do
      modify λ k. record k {
        globals = record k.globals {
          current_syscall_error = failed_lookup false;
          current_lookup_fault = missing_capability node_depth;
        };
      }
      pure (rejected syscall_error))
    else pure (passed target_node_cap)

unfoldable pub after_lookup : SlotLookup → ℕ → Cmd Kernel (Checked Capability)
unfolding check_target
after_lookup (answer exception_none slot g) node_depth = do
  modify (λ k. record k { globals = g })
  k ← get
  check_target (k.slots.cap slot) node_depth
after_lookup (answer status slot g) node_depth = do
  modify (λ k. record k { globals = g })
  pure (rejected status)
after_lookup panicked_lookup node_depth = λ k. panic

-- `get_extra_cap_by_index(0).unwrap()` is a panic where there is no capability.
unfoldable pub get_target_cnode : ℕ → ℕ → Cmd Kernel (Checked Capability)
unfolding check_target after_lookup
get_target_cnode node_index node_depth = do
  k ← get
  assert (not (k.extra_caps 0 == 0))
  let root_cap = k.slots.cap (k.extra_caps 0)
  if node_depth == 0
      then check_target root_cap node_depth
      else after_lookup
          (lookup_slot_for_cnode_op k.globals k.slots false root_cap node_index node_depth)
          node_depth

-- The loop over the `n` slots from index `i` on.
unfoldable pub check_slots : ℕ → ℕ → ℕ → Cmd Kernel (Checked Skip)
unfolding offset_slot
check_slots zero i cnode_ptr = pure (passed tt)
check_slots (suc n) i cnode_ptr = do
  convert (offset_slot cnode_ptr i)
  k ← get
  if not (get_cap_type (k.slots.cap (offset_slot cnode_ptr i)) == 0)
      then reject delete_first
      else check_slots n (suc i) cnode_ptr

unfoldable pub check_cnode_slot : Capability → ℕ → ℕ → Cmd Kernel (Checked Skip)
unfolding check_slots
check_cnode_slot node_cap node_offset node_window =
    let node_size : ℕ = bit_of (get_cnode_radix node_cap) in
    if ltb (node_size - 1) node_offset
    then reject (range_error 0 (node_size - 1))
    else if ltb node_window 1 || ltb retype_fan_out_limit node_window
    then reject (range_error 1 retype_fan_out_limit)
    else if ltb (node_size - node_offset) node_window
    then reject (range_error 1 (node_size - node_offset))
    else (do
      convert (get_cnode_ptr node_cap)
      check_slots node_window node_offset (get_cnode_ptr node_cap))

-- What is free of the block, in bytes: `BIT!(block_size) - FREE_INDEX_TO_OFFSET(free_index)`.
unfoldable pub untyped_free_bytes : Capability → ℕ → ℕ
unfolding free_index_to_offset
untyped_free_bytes cap free_index =
    wrapping_sub (bit_of (get_untyped_block_size cap)) (free_index_to_offset free_index)

-- What `invoke_untyped_retype` does once the block is reset, unless the reset failed.
unfoldable pub retype_after :
    ℕ → ℕ → ObjectType → ℕ → ℕ → ℕ → ℕ → ℕ → ℕ → Exception → Cmd Kernel Exception
unfolding get_free_index create_new_objects get_object_size
retype_after region_base retype_base new_type user_size src_slot dest_cnode dest_offset dest_length
      device_mem exception_none =
    do
      let total_object_size = dest_length * 2 ^ get_object_size new_type user_size % 2 ^ 64
      let free_ref = wrapping_add retype_base total_object_size
      set_untyped_free_index src_slot (get_free_index region_base free_ref)
      create_new_objects dest_length 0 new_type src_slot dest_cnode dest_offset retype_base
          user_size device_mem
      pure exception_none
retype_after region_base retype_base new_type user_size src_slot dest_cnode dest_offset dest_length
      device_mem status =
    pure status

unfoldable pub invoke_untyped_retype :
    ℕ → Bool → ℕ → ObjectType → ℕ → ℕ → ℕ → ℕ → ℕ → Cmd Kernel Exception
unfolding reset_untyped_cap retype_after
invoke_untyped_retype src_slot reset retype_base new_type user_size dest_cnode dest_offset
      dest_length device_mem =
    do
      k ← get
      let region_base = get_untyped_ptr (k.slots.cap src_slot)
      status ← if reset then reset_untyped_cap src_slot else pure exception_none
      retype_after region_base retype_base new_type user_size src_slot dest_cnode dest_offset
          dest_length device_mem status

-- Whether the block has children, which leaves RevokeFirst in the globals: the first free index, and
-- whether the block is reset.
unfoldable pub free_index_of : ℕ → Capability → Cmd Kernel (ℕ × Bool)
unfolding has_children
free_index_of slot cap = do
  children ← in_slots (has_children slot)
  if children
      then (do set_error revoke_first; pure (get_untyped_free_index cap, false))
      else pure (0, true)

-- The invocation itself: the current thread restarts, and the destination is taken by its address.
unfoldable pub retype_now :
    ℕ → Bool → ℕ → ObjectType → ℕ → Capability → ℕ → ℕ → ℕ → Cmd Kernel Exception
unfolding invoke_untyped_retype
retype_now slot reset retype_base new_type user_obj_size node_cap node_offset node_window
      device_mem =
    do
      k ← get
      in_ipc (in_tasks (set_thread_state k.ipc.tasks.cur_thread restart))
      convert (get_cnode_ptr node_cap)
      invoke_untyped_retype slot reset retype_base new_type user_obj_size (get_cnode_ptr node_cap)
          node_offset node_window device_mem

-- The end of `decode_untyed_invocation`, after the destination is checked.
unfoldable pub retype_into :
    ℕ → Capability → ObjectType → ℕ → Capability → ℕ → ℕ → Cmd Kernel Exception
unfolding free_index_of untyped_free_bytes get_frame_is_device retype_now align_up get_free_ref
    is_arch_type is_untyped get_object_size
retype_into slot cap new_type user_obj_size node_cap node_offset node_window = do
  r ← free_index_of slot cap
  let free_bytes = untyped_free_bytes cap r.0
  let device_mem = not (get_frame_is_device cap == 0)
  let obj_size = get_object_size new_type user_obj_size
  if ltb (free_bytes / 2 ^ obj_size) node_window
      then (do set_error (not_enough_memory free_bytes); pure syscall_error)
      else if device_mem && is_arch_type new_type && not (is_untyped new_type)
      then (do set_error (invalid_argument 1); pure syscall_error)
      else retype_now slot r.1 (align_up (get_free_ref (get_untyped_ptr cap) r.0) obj_size) new_type
          user_obj_size node_cap node_offset node_window (if device_mem then 1 else 0)

-- The checks of the object and of the destination, in the source's order.
unfoldable pub decode_checked : ℕ → Capability → (ℕ → ℕ) → ObjectType → Cmd Kernel Exception
unfolding check_object_type get_target_cnode check_cnode_slot retype_into
decode_checked slot cap arg new_type = checking (check_object_type new_type (arg 1)) λ _.
    checking (get_target_cnode (arg 2) (arg 3)) λ node_cap.
      checking (check_cnode_slot node_cap (arg 4) (arg 5))
        λ _. retype_into slot cap new_type (arg 1) node_cap (arg 4) (arg 5)

-- The test of the object's size comes first.
unfoldable pub decode_retype : ℕ → Capability → (ℕ → ℕ) → Option ObjectType → Cmd Kernel Exception
unfolding get_syscall_arg decode_checked get_object_size
decode_retype slot cap buffer none = do set_error (invalid_argument 0); pure syscall_error
decode_retype slot cap buffer (some new_type) = do
  k ← get
  let arg : ℕ → ℕ = get_syscall_arg k buffer
  let obj_size = get_object_size new_type (arg 1)
  if leb word_bits (arg 1) || ltb max_untyped_bits obj_size
      then (do set_error (range_error 0 max_untyped_bits); pure syscall_error)
      else decode_checked slot cap arg new_type

unfoldable pub decode_untyped_invocation : ℕ → ℕ → ℕ → Capability → (ℕ → ℕ) → Cmd Kernel Exception
unfolding get_syscall_arg from_usize decode_retype
decode_untyped_invocation inv_label length slot cap buffer = do
  k ← get
  if not (inv_label == untyped_retype)
      then (do set_error illegal_operation; pure syscall_error)
      else if ltb length 6 || (k.extra_caps 0 == 0)
      then (do set_error truncated_message; pure syscall_error)
      else decode_retype slot cap buffer (from_usize (get_syscall_arg k buffer 0))
