-- ===== src/Kernel/Cnode.antt =====
-- Operations on the slots of a CNode: kernel/src/syscall/invocation/invoke_cnode.rs, but for revoking
-- and deleting; Decode is the decoding of those with two and three slots.
pub mod Decode
pub mod Invocation
pub mod Reject
mod Tests
use mi_dev_integral_rel.Base.{
  ℕ, ◌%◌, ◌^◌, Bool, true, false, not, ◌&&◌, ◌||◌, ltb, ◌==◌, if◌then◌else◌, update,
}
use mi_dev_integral_rel.Field
use mi_dev_integral_rel.Field.{Field}
use mi_dev_integral_rel.Cmd.{Cmd, Skip, panic, pure, ◌>>=◌, ◌>>◌, convert, get, modify}
use mi_dev_integral_rel.Task.{restart}
use mi_dev_integral_rel.Task.Scheduler.{set_thread_state}
use mi_dev_integral_rel.Ipc.Endpoint.{cancel_badged_sends}
use mi_dev_integral_rel.Cspace.{
  Exception, exception_none, syscall_error, Capability, null, endpoint, reply, get_cap_type,
}
use mi_dev_integral_rel.Cspace.Cap.{update_data}
use mi_dev_integral_rel.Cspace.Cte.{cte_insert, cte_move, cte_swap}
use mi_dev_integral_rel.Cspace.Derive.{DeriveRet, derive_cap}
use mi_dev_integral_rel.Cspace.Rights.{CapRights, mask_cap_rights}
use mi_dev_integral_rel.Cspace.Lookup.{
  lookup_slot_for_cnode_op, SlotLookup, answer, panicked_lookup, illegal_operation,
  truncated_message, failed_lookup, delete_first, missing_capability,
}
use mi_dev_integral_rel.Kernel.{
  Kernel, in_slots, in_ipc, Checked, rejected, passed, reject, checking, set_error,
}
use mi_dev_integral_rel.Kernel.Message.{in_threads, tcb_slot, tcb_caller}
use mi_dev_integral_rel.Kernel.Untyped.Decode.{get_syscall_arg}

-- `set_thread_state(get_currenct_thread(), ThreadStateRestart)`
abbrev pub restart_current : Cmd Kernel Skip
restart_current = do k ← get; in_threads (set_thread_state k.ipc.tasks.cur_thread restart)

abbrev pub illegal : Cmd Kernel Exception
illegal = do set_error illegal_operation; pure syscall_error

-- The end of a copy, with what was derived.
unfoldable pub insert_derived : Exception → Capability → ℕ → ℕ → Cmd Kernel Exception
insert_derived exception_none v src_slot dest_slot =
    if get_cap_type v == 0
    then illegal
    else (do restart_current; in_slots (cte_insert v src_slot dest_slot); pure exception_none)
insert_derived status v src_slot dest_slot = pure status

unfoldable pub invoke_cnode_copy : ℕ → ℕ → CapRights → Cmd Kernel Exception
unfolding insert_derived
invoke_cnode_copy src_slot dest_slot cap_right = do
  k ← get
  dc_ret ← in_slots (derive_cap src_slot (mask_cap_rights cap_right (k.slots.cap src_slot)))
  insert_derived dc_ret.status dc_ret.cap src_slot dest_slot

unfoldable pub invoke_cnode_mint : ℕ → ℕ → CapRights → ℕ → Cmd Kernel Exception
unfolding insert_derived
invoke_cnode_mint src_slot dest_slot cap_right cap_data = do
  k ← get
  let src_cap = mask_cap_rights cap_right (k.slots.cap src_slot)
  dc_ret ← in_slots (derive_cap src_slot (update_data src_cap false cap_data))
  insert_derived dc_ret.status dc_ret.cap src_slot dest_slot

-- The end of a move, of the given capability.
unfoldable pub move_cap : Capability → ℕ → ℕ → Cmd Kernel Exception
move_cap v src_slot dest_slot =
    if get_cap_type v == 0
    then illegal
    else (do restart_current; in_slots (cte_move v src_slot dest_slot); pure exception_none)

unfoldable pub invoke_cnode_mutate : ℕ → ℕ → ℕ → Cmd Kernel Exception
unfolding move_cap
invoke_cnode_mutate src_slot dest_slot cap_data = do
  k ← get
  move_cap (update_data (k.slots.cap src_slot) true cap_data) src_slot dest_slot

unfoldable pub invoke_cnode_move : ℕ → ℕ → Cmd Kernel Exception
unfolding move_cap
invoke_cnode_move src_slot dest_slot = do
  k ← get
  move_cap (k.slots.cap src_slot) src_slot dest_slot

unfoldable pub invoke_cnode_rotate : ℕ → ℕ → ℕ → ℕ → ℕ → Cmd Kernel Exception
invoke_cnode_rotate slot1 slot2 slot3 src_new_data pivot_new_data = do
  k ← get
  let new_src_cap = update_data (k.slots.cap slot1) true src_new_data
  let new_pivot_cap = update_data (k.slots.cap slot2) true pivot_new_data
  if (get_cap_type new_src_cap == 0) || (get_cap_type new_pivot_cap == 0) then illegal else (do
    restart_current
    (if slot1 == slot3 then in_slots (cte_swap new_src_cap slot1 new_pivot_cap slot2) else (do
      in_slots (cte_move new_pivot_cap slot2 slot3)
      in_slots (cte_move new_src_cap slot1 slot2)))
    pure exception_none)

-- The match of `invoke_cnode_save_caller` on the caller's capability.
save_caller : Capability → ℕ → ℕ → Cmd Kernel Exception
save_caller null src_slot dest_slot = pure exception_none
save_caller (reply can_grant master tcb_ptr) src_slot dest_slot =
    if master == 0
    then (do
      in_slots (cte_move (reply can_grant master tcb_ptr) src_slot dest_slot)
      pure exception_none)
    else pure exception_none
save_caller other src_slot dest_slot = λ k. panic

unfoldable pub invoke_cnode_save_caller : ℕ → Cmd Kernel Exception
unfolding save_caller
invoke_cnode_save_caller dest_slot = do
  k ← get
  if not (get_cap_type (k.slots.cap dest_slot) == 0)
      then (do set_error delete_first; pure syscall_error)
      else (do
        restart_current
        k1 ← get
        let src_slot = tcb_slot k1.ipc.tasks.cur_thread tcb_caller
        save_caller (k1.slots.cap src_slot) src_slot dest_slot)

-- `hasCancelSendRight`, and the invocation of a capability that has it.
unfoldable pub has_cancel_send_right : Capability → Bool
has_cancel_send_right (endpoint badge can_grant_reply can_grant can_send can_receive ptr) =
    not (can_send == 0)
    && not (can_receive == 0)
    && not (can_grant == 0)
    && not (can_grant_reply == 0)
has_cancel_send_right other = false

cancel_sends : ℕ → Capability → Cmd Kernel Skip
cancel_sends fuel (endpoint badge _ _ _ _ ptr) =
    if badge == 0 then pure tt else (do convert ptr; in_ipc (cancel_badged_sends fuel ptr badge))
cancel_sends fuel other = pure tt

unfoldable pub invoke_cnode_cancel_badged_sends : ℕ → ℕ → Cmd Kernel Exception
unfolding has_cancel_send_right cancel_sends
invoke_cnode_cancel_badged_sends fuel dest_slot = do
  k ← get
  let dest_cap = k.slots.cap dest_slot
  if not (has_cancel_send_right dest_cap)
      then illegal
      else (do restart_current; cancel_sends fuel dest_cap; pure exception_none)
