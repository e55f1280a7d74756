-- ===== src/Vspace/Tests.antt =====
-- The theorems on address spaces at a root with a page table below it, whose identifier is 5.
use mi_dev_integral_rel.Base.{◌≡◌, ◌^◌, true, refl, arith, ◌==◌, if◌then◌else◌}
use mi_dev_integral_rel.Cmd.{ok}
use mi_dev_integral_rel.Cmd.Returns.{Returns}
use mi_dev_integral_rel.Cspace.{page_table}
use mi_dev_integral_rel.Vspace.{
  Vspace, no_vspace, find_vspace_for_asid, delete_asid, satp_of, pptr_to_paddr,
}
use mi_dev_integral_rel.Vspace.Identifier.{delete_asid-Gone}
use mi_dev_integral_rel.Vspace.PageTable.{
  LookupPtSlotRet, unmap_page_table, is_pte_table, lookup_pt_slot, make_user_pte,
}
use mi_dev_integral_rel.Vspace.PageTable.Map.{Maps, written, lookup_pt_slot-Maps}
use mi_dev_integral_rel.Vspace.PageTable.Unmap.{Misses, unmap_page_table-Misses}

abbrev spaces : Vspace
spaces = record {
  pte = λ p. if p == 8192 then 1025 else 0;
  asid_table = λ i. if i == 0 then 4096 else 0;
  asid_pool = λ p i. if i == 5 then 8192 else 0;
  satp = 0;
  kernel_root = 2147483648;
}

delete_asid-Gone_example :
    Returns
      (λ _ v'.
        (find_vspace_for_asid 5 v' ≡ ok no_vspace v') × (v'.satp ≡ satp_of (pptr_to_paddr 8192) 5))
      (delete_asid 5 8192 (page_table 5 8192 1 0) spaces)
delete_asid-Gone_example =
    delete_asid-Gone spaces 5 4096 8192 5 8192 1 0 (omega arith) refl (omega arith) refl
      (omega arith) (omega arith)

unmap_page_table-Misses_example : Misses spaces (unmap_page_table 5 0 12288 spaces)
unmap_page_table-Misses_example = unmap_page_table-Misses spaces 5 0 12288

abbrev slot : LookupPtSlotRet
slot = record { pt_slot = 8200; pt_bits_left = 30 }

lookup_pt_slot-Maps_example :
    (lookup_pt_slot 8192 (2 ^ 30) (written spaces 8200 (make_user_pte 1073741824 true 3))
      ≡ ok slot (written spaces 8200 (make_user_pte 1073741824 true 3)))
    × Maps ((written spaces 8200 (make_user_pte 1073741824 true 3)).pte 8200) 1073741824 3 true
unfolding lookup_pt_slot is_pte_table
lookup_pt_slot-Maps_example =
    lookup_pt_slot-Maps spaces 8192 (2 ^ 30) 1073741824 3 true slot refl refl (omega arith)
      (omega arith) (omega arith)
