-- ===== src/Cspace/Lookup.antt =====
-- The lookup of a slot for an operation on a CNode: `lookup_slot_for_cnode_op` of
-- kernel/src/syscall/utils.rs, with the error and fault that it leaves in the kernel's globals.
pub mod Answer
use mi_dev_integral_rel.Base.{ℕ, Bool, not, ◌||◌, ltb, ◌==◌, if◌then◌else◌}
use mi_dev_integral_rel.Cspace.{
  Exception, exception_none, syscall_error, Capability, CSpace, get_cap_type,
}
use mi_dev_integral_rel.Cspace.Cap.{word_bits}
use mi_dev_integral_rel.Cspace.Resolve.{
  ResolveRet, Resolved, returned, panicked, out_of_fuel, resolve_address_bits,
}

-- What `current_syscall_error` and `current_lookup_fault` are set to, by the error's type and the
-- fields that are written with it; the other kinds of errors and faults are not set by the modelled
-- code.
pub data SyscallError : Type 0 where
  no_error : SyscallError
  failed_lookup : (was_source : Bool) → SyscallError
  range_error : (min max : ℕ) → SyscallError
  illegal_operation truncated_message delete_first revoke_first alignment_error : SyscallError
  invalid_argument : (number : ℕ) → SyscallError
  not_enough_memory : (memory_left : ℕ) → SyscallError
  invalid_capability : (number : ℕ) → SyscallError

pub data LookupFault : Type 0 where
  no_fault : LookupFault
  root_invalid : LookupFault
  missing_capability : (bits_left : ℕ) → LookupFault
  depth_mismatch : (bits_found bits_left : ℕ) → LookupFault
  guard_mismatch : (guard_found bits_left bits_found : ℕ) → LookupFault

-- `invalid_argument_number` is the field of `current_syscall_error` that some code forgets to write with
-- its type: it stays what the last error of the type made it.
pub record Globals : Type 0 where
  pub current_syscall_error : SyscallError
  pub current_lookup_fault : LookupFault
  pub invalid_argument_number : ℕ

-- `lookupSlot_ret_t` and the globals; the assertion of the lookup may fail.
pub data SlotLookup : Type 0 where
  answer : (status : Exception) (slot : ℕ) → Globals → SlotLookup
  panicked_lookup : SlotLookup

-- What follows the lookup of the bits.
after_resolve : Globals → Bool → Resolved → SlotLookup
after_resolve g is_source (returned r) = after_status r.status
  where
    after_status : Exception → SlotLookup
    after_status exception_none =
        if not (r.bits_remaining == 0)
        then answer syscall_error 0 (record g {
          current_syscall_error = failed_lookup is_source;
          current_lookup_fault = depth_mismatch 0 r.bits_remaining;
        })
        else answer exception_none r.slot g
    after_status _ =
        answer syscall_error 0 (record g { current_syscall_error = failed_lookup is_source })
after_resolve g is_source panicked = panicked_lookup
after_resolve g is_source out_of_fuel = panicked_lookup

unfoldable pub lookup_slot_for_cnode_op : Globals → CSpace → Bool → Capability → ℕ → ℕ → SlotLookup
unfolding after_resolve
lookup_slot_for_cnode_op g c is_source root cap_ptr depth =
    if not (get_cap_type root == 10)
    then answer syscall_error 0 (record g {
      current_syscall_error = failed_lookup is_source;
      current_lookup_fault = root_invalid;
    })
    else if ltb depth 1 || ltb word_bits depth
    then answer syscall_error 0 (record g { current_syscall_error = range_error 1 word_bits })
    else after_resolve g is_source (resolve_address_bits c root cap_ptr depth)
