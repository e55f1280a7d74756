-- ===== src/Kernel/Cnode/Invocation.antt =====
-- All invocations of the capability of a CNode: decode_cnode_invocation of
-- kernel/src/syscall/invocation/decode/decode_cnode_invocation.rs, with invoke_cnode_revoke and
-- invoke_cnode_delete of invoke_cnode.rs.
use mi_dev_integral_rel.Base.{ℕ, true, false, not, ◌&&◌, ltb, leb, ◌==◌, if◌then◌else◌}
use mi_dev_integral_rel.Cmd.{Cmd, panic, ◌>>=◌, ◌>>◌, get}
use mi_dev_integral_rel.Cspace.{Exception, Capability}
use mi_dev_integral_rel.Cspace.Lookup.{
  illegal_operation, truncated_message, lookup_slot_for_cnode_op,
}
use mi_dev_integral_rel.Kernel.{Kernel, checking}
use mi_dev_integral_rel.Kernel.Labels.{
  cnode_revoke, cnode_delete, cnode_cancel_badged_sends, cnode_rotate, cnode_save_caller,
}
use mi_dev_integral_rel.Kernel.Untyped.Decode.{get_syscall_arg}
use mi_dev_integral_rel.Kernel.Delete.Slots.{delete_all, revoke}
use mi_dev_integral_rel.Kernel.Cnode.{
  restart_current, invoke_cnode_save_caller, invoke_cnode_cancel_badged_sends,
}
use mi_dev_integral_rel.Kernel.Cnode.Decode.{
  slot_found, cnode_copy, cnode_mutate, decode_cnode_invoke_with_two_slot, decode_cnode_rotate,
}
use mi_dev_integral_rel.Kernel.Tcb.Decode.{require}

unfoldable pub invoke_cnode_revoke : ℕ → ℕ → ℕ → Cmd Kernel Exception
unfolding revoke
invoke_cnode_revoke fuel queue dest_slot = do restart_current; revoke fuel queue dest_slot

unfoldable pub invoke_cnode_delete : ℕ → ℕ → ℕ → Cmd Kernel Exception
unfolding delete_all
invoke_cnode_delete fuel queue dest_slot = do restart_current; delete_all fuel queue true dest_slot

-- The match on the label; the labels from CNodeCopy to CNodeMutate are in a row.
unfoldable pub on_slot : ℕ → ℕ → ℕ → ℕ → ℕ → (ℕ → ℕ) → Cmd Kernel Exception
unfolding decode_cnode_invoke_with_two_slot invoke_cnode_revoke invoke_cnode_delete
    invoke_cnode_save_caller invoke_cnode_cancel_badged_sends decode_cnode_rotate
on_slot fuel queue label dest_slot length buffer =
    if leb cnode_copy label && leb label cnode_mutate
    then decode_cnode_invoke_with_two_slot label dest_slot length buffer
    else if label == cnode_revoke
    then invoke_cnode_revoke fuel queue dest_slot
    else if label == cnode_delete
    then invoke_cnode_delete fuel queue dest_slot
    else if label == cnode_save_caller
    then invoke_cnode_save_caller dest_slot
    else if label == cnode_cancel_badged_sends
    then invoke_cnode_cancel_badged_sends queue dest_slot
    else if label == cnode_rotate
    then decode_cnode_rotate dest_slot length buffer
    else λ k. panic

unfoldable pub decode_cnode_invocation : ℕ → ℕ → ℕ → ℕ → Capability → (ℕ → ℕ) → Cmd Kernel Exception
unfolding get_syscall_arg slot_found on_slot
decode_cnode_invocation fuel queue label length cap buffer = do
  k ← get
  let index = get_syscall_arg k buffer 0
  let w_bits = get_syscall_arg k buffer 1
  checking (require (leb cnode_revoke label && leb label cnode_save_caller) illegal_operation) λ _.
      checking (require (not (ltb length 2)) truncated_message) λ _.
        checking (slot_found (lookup_slot_for_cnode_op k.globals k.slots false cap index w_bits))
          λ dest_slot. on_slot fuel queue label dest_slot length buffer
