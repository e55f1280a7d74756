-- ===== src/Kernel/Cnode/Decode.antt =====
-- Decoding the operations on two and three slots: decode_cnode_invoke_with_two_slot and
-- decode_cnode_rotate of kernel/src/syscall/invocation/decode/decode_cnode_invocation.rs.
use mi_dev_integral_rel.Base.{
  ℕ, ◌/◌, ◌%◌, Bool, true, false, not, ◌&&◌, ◌||◌, ltb, ◌==◌, if◌then◌else◌,
}
use mi_dev_integral_rel.Cmd.{Cmd, panic, pure, ◌>>=◌, ◌>>◌, convert, get, modify}
use mi_dev_integral_rel.Cspace.{Exception, exception_none, syscall_error, Capability, get_cap_type}
use mi_dev_integral_rel.Cspace.Rights.{CapRights}
use mi_dev_integral_rel.Cspace.Lookup.{
  lookup_slot_for_cnode_op, SlotLookup, answer, panicked_lookup, truncated_message, failed_lookup,
  delete_first, missing_capability,
}
use mi_dev_integral_rel.Kernel.{Kernel, Checked, rejected, passed, checking, set_error}
use mi_dev_integral_rel.Kernel.Untyped.Decode.{get_syscall_arg}
use mi_dev_integral_rel.Kernel.Cnode.{
  illegal, invoke_cnode_copy, invoke_cnode_mint, invoke_cnode_move, invoke_cnode_mutate,
  invoke_cnode_rotate,
}

-- MessageLabel::CNodeCopy, CNodeMint, CNodeMove and CNodeMutate
abbrev pub cnode_copy : ℕ
cnode_copy = 19

abbrev pub cnode_mint : ℕ
cnode_mint = 20

abbrev pub cnode_move : ℕ
cnode_move = 21

abbrev pub cnode_mutate : ℕ
cnode_mutate = 22

-- `seL4_CapRights_t::from_word`
unfoldable pub rights_of : ℕ → CapRights
rights_of w = record {
  allow_grant_reply = w / 8 % 2;
  allow_grant = w / 4 % 2;
  allow_read = w / 2 % 2;
  allow_write = w % 2;
}

-- What follows a lookup: an early return of its status, or the reference to the slot.
unfoldable pub slot_found : SlotLookup → Cmd Kernel (Checked ℕ)
slot_found (answer exception_none slot g) = do
  modify (λ k. record k { globals = g })
  convert slot
  pure (passed slot)
slot_found (answer status slot g) = do
  modify (λ k. record k { globals = g })
  pure (rejected status)
slot_found panicked_lookup = λ k. panic

unfoldable pub find_slot : Capability → ℕ → ℕ → Cmd Kernel (Checked ℕ)
unfolding slot_found
find_slot root index depth = do
  k ← get
  slot_found (lookup_slot_for_cnode_op k.globals k.slots true root index depth)

abbrev pub truncated : Cmd Kernel Exception
truncated = do set_error truncated_message; pure syscall_error

-- The error for a slot with no capability.
abbrev pub missing : Bool → ℕ → Cmd Kernel Exception
missing was_source depth = do
  modify λ k. record k {
    globals = record k.globals {
      current_syscall_error = failed_lookup was_source;
      current_lookup_fault = missing_capability depth;
    };
  }
  pure syscall_error

-- The match on the label; the arguments of the message are `arg`.
unfoldable pub invoke_two_slots : ℕ → ℕ → ℕ → ℕ → (ℕ → ℕ) → Cmd Kernel Exception
unfolding rights_of invoke_cnode_copy invoke_cnode_mint invoke_cnode_move invoke_cnode_mutate
invoke_two_slots label src_slot dest_slot length arg =
    if label == cnode_copy
    then (if ltb length 5
        then truncated
        else invoke_cnode_copy src_slot dest_slot (rights_of (arg 4)))
    else if label == cnode_mint
    then (if ltb length 6
        then truncated
        else invoke_cnode_mint src_slot dest_slot (rights_of (arg 4)) (arg 5))
    else if label == cnode_move
    then invoke_cnode_move src_slot dest_slot
    else if label == cnode_mutate
    then (if ltb length 5 then truncated else invoke_cnode_mutate src_slot dest_slot (arg 4))
    else λ k. panic

unfoldable pub from_source : ℕ → ℕ → ℕ → ℕ → (ℕ → ℕ) → Cmd Kernel Exception
unfolding invoke_two_slots
from_source label src_slot dest_slot length arg = do
  k ← get
  if get_cap_type (k.slots.cap src_slot) == 0
      then missing true (arg 3)
      else invoke_two_slots label src_slot dest_slot length arg

unfoldable pub decode_cnode_invoke_with_two_slot : ℕ → ℕ → ℕ → (ℕ → ℕ) → Cmd Kernel Exception
unfolding get_syscall_arg find_slot from_source
decode_cnode_invoke_with_two_slot label dest_slot length buffer = do
  k ← get
  let arg : ℕ → ℕ = get_syscall_arg k buffer
  if ltb length 4 || (k.extra_caps 0 == 0)
      then truncated
      else if not (get_cap_type (k.slots.cap dest_slot) == 0)
      then (do set_error delete_first; pure syscall_error)
      else checking (find_slot (k.slots.cap (k.extra_caps 0)) (arg 2) (arg 3))
          λ src_slot. from_source label src_slot dest_slot length arg

-- The checks of `decode_cnode_rotate` on the three slots.
unfoldable pub rotate_slots : ℕ → ℕ → ℕ → (ℕ → ℕ) → Cmd Kernel Exception
unfolding invoke_cnode_rotate
rotate_slots src_slot pivot_slot dest_slot arg = do
  k ← get
  if (pivot_slot == src_slot) || (pivot_slot == dest_slot)
      then illegal
      else if not (src_slot == dest_slot) && not (get_cap_type (k.slots.cap dest_slot) == 0)
      then (do set_error delete_first; pure syscall_error)
      else if get_cap_type (k.slots.cap src_slot) == 0
      then missing true (arg 7)
      else if get_cap_type (k.slots.cap pivot_slot) == 0
      then missing false (arg 4)
      else invoke_cnode_rotate src_slot pivot_slot dest_slot (arg 5) (arg 2)

unfoldable pub decode_cnode_rotate : ℕ → ℕ → (ℕ → ℕ) → Cmd Kernel Exception
unfolding get_syscall_arg find_slot rotate_slots
decode_cnode_rotate dest_slot length buffer = do
  k ← get
  let arg : ℕ → ℕ = get_syscall_arg k buffer
  let pivot_root = k.slots.cap (k.extra_caps 0)
  let src_root = k.slots.cap (k.extra_caps 1)
  if ltb length 8 || (k.extra_caps 0 == 0) || (k.extra_caps 1 == 0)
      then truncated
      else checking (find_slot src_root (arg 6) (arg 7)) λ src_slot.
        checking (find_slot pivot_root (arg 3) (arg 4))
          λ pivot_slot. rotate_slots src_slot pivot_slot dest_slot arg
