-- ===== src/Vspace/PageTable.antt =====
-- Page table entries and walks: arch/riscv64/pte.rs, with unmapPage and copyGlobalMappings of
-- pagetable.rs and unmap_page_table of interface.rs. An entry is a word of 64 bits.
pub mod Map
pub mod Unmap
use Prim.Native.Nat.{bit_or}
use mi_dev_integral_rel.Base.{
  ℕ, zero, suc, ◌+◌, ◌-◌, ◌*◌, ◌/◌, ◌%◌, ◌^◌, Bool, true, not, ◌&&◌, ◌||◌, Option, none, some,
  update, ◌==◌, if◌then◌else◌,
}
use mi_dev_integral_rel.Cmd.{Cmd, Skip, panic, pure, ◌>>=◌, ◌>>◌, assert, convert, get, modify}
use mi_dev_integral_rel.Cspace.Lookup.{LookupFault}
use mi_dev_integral_rel.Cspace.Cap.{page_bits_for_size}
use mi_dev_integral_rel.Vspace.{
  Vspace, FindRet, found, find_vspace_for_asid, wrap, paddr_to_pptr, pptr_to_paddr,
}

abbrev pub get_valid : ℕ → ℕ
get_valid w = w % 2

abbrev pub get_read : ℕ → ℕ
get_read w = w / 2 % 2

abbrev pub get_write : ℕ → ℕ
get_write w = w / 4 % 2

abbrev pub get_execute : ℕ → ℕ
get_execute w = w / 8 % 2

abbrev pub get_ppn : ℕ → ℕ
get_ppn w = w / 2 ^ 10 % 2 ^ 44

unfoldable pub is_pte_table : ℕ → Bool
is_pte_table w =
    not (get_valid w == 0)
    && not (not (get_read w == 0) || not (get_write w == 0) || not (get_execute w == 0))

-- `PTE::new`
unfoldable pub new_pte : ℕ → ℕ → ℕ
new_pte ppn flags = bit_or flags (wrap (ppn * 2 ^ 10))

-- `make_user_pte`; VMKernelOnly is 1 and VMReadWrite 3. The flags are V, D, A and U, then X, W and R.
unfoldable pub make_user_pte : ℕ → Bool → ℕ → ℕ
unfolding new_pte
make_user_pte paddr executable vm_rights =
    let write = vm_rights == 3 in
    let read = not (vm_rights == 1) in
    if not executable && not read && not write
    then 0
    else new_pte (paddr / 2 ^ 12)
        (209 + (if executable then 8 else 0) + (if write then 4 else 0) + (if read then 2 else 0))

-- `RISCV_GET_PT_INDEX`, and the address of the i-th entry of a table.
abbrev pub pt_index : ℕ → ℕ → ℕ
pt_index addr n = addr / 2 ^ (9 * (2 - n) + 12) % 2 ^ 9

abbrev pub entry : ℕ → ℕ → ℕ
entry pt i = wrap (pt + 8 * i)

abbrev pub pte_from_ppn : ℕ → ℕ
pte_from_ppn w = paddr_to_pptr (wrap (get_ppn w * 2 ^ 12))

-- `lookupPTSlot_ret_t`
pub record LookupPtSlotRet : Type 0 where
  pub pt_slot : ℕ
  pub pt_bits_left : ℕ

-- The loop of `lookup_pt_slot`, with `level` levels below.
unfoldable pub walk : ℕ → ℕ → LookupPtSlotRet → Cmd Vspace LookupPtSlotRet
unfolding is_pte_table
walk zero vptr ret = pure ret
walk (suc level) vptr ret = do
  v ← get
  let w = v.pte ret.pt_slot
  let bits_left = ret.pt_bits_left - 9
  if is_pte_table w
      then (do
        convert (pte_from_ppn w)
        walk level vptr (record {
          pt_slot = entry (pte_from_ppn w) (vptr / 2 ^ bits_left % 2 ^ 9);
          pt_bits_left = bits_left;
        }))
      else pure ret

unfoldable pub lookup_pt_slot : ℕ → ℕ → Cmd Vspace LookupPtSlotRet
unfolding walk
lookup_pt_slot pt vptr =
    walk 2 vptr (record { pt_slot = entry pt (vptr / 2 ^ 30 % 2 ^ 9); pt_bits_left = 30 })

abbrev pub set_pte : ℕ → ℕ → Cmd Vspace Skip
set_pte slot w = modify (λ v. record v { pte = update v.pte slot w })

-- The loop of `unmap_page_table`, with `n` levels to go from level `i` on: the table and the entry that
-- it ends with, or `none` at its early return.
unfoldable pub descend : ℕ → ℕ → ℕ → ℕ → ℕ → ℕ → Cmd Vspace (Option (ℕ × ℕ))
unfolding is_pte_table
descend zero i vptr target pt slot = pure (some (pt, slot))
descend (suc n) i vptr target pt slot = if pt == target then pure (some (pt, slot)) else (do
  v ← get
  let next = entry pt (pt_index vptr i)
  let w = v.pte next
  if is_pte_table w
      then pure none
      else (do convert (pte_from_ppn w); descend n (suc i) vptr target (pte_from_ppn w) next))

-- After the loop: the entry is cleared if the walk has met the table.
unfoldable pub clear_entry : ℕ → Option (ℕ × ℕ) → Cmd Vspace Skip
clear_entry target none = pure tt
clear_entry target (some r) = if r.0 == target then set_pte r.1 0 else pure tt

-- `unwrap` of what a lookup has found; `none` is a panic.
abbrev pub unwrap : {A : Type 0} → Option A → Cmd Vspace A
unwrap none = λ v. panic
unwrap (some a) = pure a

unfoldable pub unmap_page_table : ℕ → ℕ → ℕ → Cmd Vspace Skip
unfolding find_vspace_for_asid descend clear_entry
unmap_page_table asid vptr target = do
  find_ret ← find_vspace_for_asid asid
  if not (found find_ret.status) then pure tt else (do
    root ← unwrap find_ret.vspace_root
    assert (not (root == target))
    r ← descend 2 0 vptr target root (entry root (pt_index vptr 0))
    clear_entry target r)

-- `unmapPage`: the fault of the lookup, if it failed. `none` of the page's bits is a panic.
unfoldable pub unmap_page : ℕ → ℕ → ℕ → ℕ → Cmd Vspace (Option LookupFault)
unfolding find_vspace_for_asid lookup_pt_slot is_pte_table
unmap_page page_size asid vptr pptr = do
  find_ret ← find_vspace_for_asid asid
  if not (found find_ret.status)
      then (do e ← unwrap find_ret.lookup_fault_of; pure (some e))
      else (do
        root ← unwrap find_ret.vspace_root
        lu_ret ← lookup_pt_slot root vptr
        v ← get
        bits ← unwrap (page_bits_for_size page_size)
        let w = v.pte lu_ret.pt_slot
        if not (lu_ret.pt_bits_left == bits)
              || (get_valid w == 0)
              || is_pte_table w
              || not (wrap (get_ppn w * 2 ^ 12) == pptr_to_paddr pptr)
            then pure none
            else (do set_pte lu_ret.pt_slot 0; pure none))

-- The loop of `copyGlobalMappings` over `n` entries from `i` on, to 512.
unfoldable pub copy_entries : ℕ → ℕ → ℕ → Cmd Vspace Skip
copy_entries zero i lvl1pt = pure tt
copy_entries (suc n) i lvl1pt = do
  v ← get
  set_pte (entry lvl1pt i) (v.pte (entry v.kernel_root i))
  copy_entries n (suc i) lvl1pt

unfoldable pub copy_global_mappings : ℕ → Cmd Vspace Skip
unfolding copy_entries
copy_global_mappings lvl1pt = copy_entries 510 (pt_index 2147483648 0) lvl1pt
