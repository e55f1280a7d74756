-- ===== src/Kernel/Mmu/Decode.antt =====
-- Decoding the operations on page tables, frames and address spaces:
-- kernel/src/syscall/invocation/decode/arch/riscv64.rs, and checkVPAlignment of
-- sel4_vspace/src/utils.rs.
use mi_dev_integral_rel.Base.{
  ℕ, ◌-◌, ◌%◌, ◌^◌, false, not, ◌&&◌, ◌||◌, Option, none, some, ltb, leb, ◌==◌, if◌then◌else◌,
}
use mi_dev_integral_rel.Cmd.{Cmd, Skip, panic, pure, ◌>>=◌, ◌>>◌, convert, get}
use mi_dev_integral_rel.Cspace.{Exception, Capability, page_table}
use mi_dev_integral_rel.Cspace.Cte.{is_final_cap}
use mi_dev_integral_rel.Cspace.Lookup.{
  truncated_message, invalid_capability, invalid_argument, failed_lookup, delete_first,
  revoke_first, LookupFault,
}
use mi_dev_integral_rel.Vspace.{FindRet, found, is_root, find_vspace_for_asid}
use mi_dev_integral_rel.Vspace.PageTable.{get_valid, lookup_pt_slot}
use mi_dev_integral_rel.Kernel.{Kernel, in_slots, in_vspace, Checked, passed, reject, checking}
use mi_dev_integral_rel.Kernel.Labels.{riscv_page_table_map, riscv_page_table_unmap}
use mi_dev_integral_rel.Kernel.Cnode.{restart_current, illegal}
use mi_dev_integral_rel.Kernel.Untyped.Decode.{get_syscall_arg}
use mi_dev_integral_rel.Kernel.Delete.{report}
use mi_dev_integral_rel.Kernel.Tcb.Decode.{require}
use mi_dev_integral_rel.Kernel.Mmu.{invoke_page_table_unmap, invoke_page_table_map}

-- `USER_TOP` of kernel/src/config.rs.
abbrev pub user_top : ℕ
user_top = 140737488355327

-- The root of an address space and its identifier.
pub record Space : Type 0 where
  pub lvl1pt : ℕ
  pub asid : ℕ

-- `unwrap` of a fault, and the report of it.
unfoldable pub report_fault : Option LookupFault → Cmd Kernel Skip
report_fault none = λ k. panic
report_fault (some f) = report (some f)

-- The checks of `get_vspace` on what was found.
check_space : FindRet → ℕ → ℕ → Cmd Kernel (Checked Space)
unfolding report_fault
check_space find_ret base asid =
    if not (found find_ret.status)
    then (do report_fault find_ret.lookup_fault_of; reject (failed_lookup false))
    else if not (is_root find_ret.vspace_root base)
    then reject (invalid_capability 1)
    else pure (passed (record { lvl1pt = base; asid = asid }))

unfoldable pub get_vspace : Capability → Cmd Kernel (Checked Space)
unfolding find_vspace_for_asid check_space
get_vspace (page_table asid base is_mapped address) =
    if is_mapped == 0 then reject (invalid_capability 1) else (do
      convert base
      find_ret ← in_vspace (find_vspace_for_asid asid)
      check_space find_ret base asid)
get_vspace other = reject (invalid_capability 1)

-- The error that sets the type, and the other field than its own.
abbrev pub reject_argument : {A : Type 0} → Cmd Kernel (Checked A)
reject_argument = do k ← get; reject (invalid_argument k.globals.invalid_argument_number)

-- `decode_page_table_map`
table_map : Capability → ℕ → ℕ → (ℕ → ℕ) → Cmd Kernel Exception
unfolding get_syscall_arg get_vspace lookup_pt_slot invoke_page_table_map
table_map (page_table a base is_mapped d) slot length buffer = do
  k ← get
  let vaddr = get_syscall_arg k buffer 0
  checking (require (not (ltb length 2 || (k.extra_caps 0 == 0))) truncated_message) λ _.
      checking (require (is_mapped == 0) (invalid_capability 0)) λ _.
        checking (if leb user_top vaddr then reject_argument else pure (passed tt)) λ _.
          checking (get_vspace (k.slots.cap (k.extra_caps 0))) λ space. (do
            lu_ret ← in_vspace (lookup_pt_slot space.lvl1pt vaddr)
            convert lu_ret.pt_slot
            checking
                (require
                  (not (
                    (lu_ret.pt_bits_left == 12)
                    || not (get_valid (k.vspace.pte lu_ret.pt_slot) == 0)))
                  delete_first)
                λ _. (do
                  restart_current
                  invoke_page_table_map (page_table a base is_mapped d) slot lu_ret.pt_slot
                      space.asid (vaddr - vaddr % 2 ^ lu_ret.pt_bits_left)))
table_map other slot length buffer = λ k. panic

unfoldable pub decode_page_table_map : ℕ → ℕ → (ℕ → ℕ) → Cmd Kernel Exception
unfolding table_map
decode_page_table_map length slot buffer = do
  k ← get
  table_map (k.slots.cap slot) slot length buffer

-- The check of `decode_page_table_unmap` on a table that is mapped.
unfoldable pub check_not_root : Capability → Cmd Kernel (Checked Skip)
unfolding report_fault
check_not_root (page_table asid base is_mapped address) =
    if is_mapped == 0 then pure (passed tt) else (do
      find_ret ← in_vspace (find_vspace_for_asid asid)
      (if found find_ret.status && is_root find_ret.vspace_root base
          then reject revoke_first
          else (do report_fault find_ret.lookup_fault_of; pure (passed tt))))
check_not_root other = λ k. panic

unfoldable pub decode_page_table_unmap : ℕ → Cmd Kernel Exception
unfolding check_not_root invoke_page_table_unmap
decode_page_table_unmap slot = do
  k ← get
  final ← in_slots (is_final_cap slot)
  checking (require final revoke_first) λ _.
      checking (check_not_root (k.slots.cap slot))
        λ _. (do restart_current; invoke_page_table_unmap slot)

unfoldable pub decode_page_table_invocation : ℕ → ℕ → ℕ → (ℕ → ℕ) → Cmd Kernel Exception
unfolding decode_page_table_map decode_page_table_unmap
decode_page_table_invocation label length slot buffer =
    if label == riscv_page_table_unmap
    then decode_page_table_unmap slot
    else if label == riscv_page_table_map
    then decode_page_table_map length slot buffer
    else illegal
