-- ===== src/Kernel/Mmu/Tests.antt =====
-- The theorems on page tables at a table below the root 8192 of the identifier 5, in slot 64.
use mi_dev_integral_rel.Base.{◌+◌, ◌*◌, ◌^◌, ◌≡◌, refl, arith, ◌==◌, if◌then◌else◌}
use mi_dev_integral_rel.Cmd.{panic}
use mi_dev_integral_rel.Cspace.{null, page_table}
use mi_dev_integral_rel.Cspace.Cte.{is_final_cap}
use mi_dev_integral_rel.Vspace.PageTable.{lookup_pt_slot}
use mi_dev_integral_rel.Kernel.{Kernel}
use mi_dev_integral_rel.Kernel.Tests.{system}
use mi_dev_integral_rel.Kernel.Mmu.{address_field}
use mi_dev_integral_rel.Kernel.Mmu.Alias.{lookup_pt_slot-alias}
use mi_dev_integral_rel.Kernel.Mmu.Decode.{decode_page_table_unmap}
use mi_dev_integral_rel.Kernel.Mmu.Unmap.{decode_page_table_unmap-panics}

abbrev mapped : Kernel
mapped = record system {
  slots = record system.slots { cap = λ s. if s == 64 then page_table 5 12288 1 0 else null };
  vspace = record system.vspace {
    asid_table = λ i. if i == 0 then 4096 else 0;
    asid_pool = λ p i. if i == 5 then 8192 else 0;
  };
}

decode_page_table_unmap-panics_example : decode_page_table_unmap 64 mapped ≡ panic
unfolding is_final_cap
decode_page_table_unmap-panics_example =
    decode_page_table_unmap-panics mapped 64 5 12288 0 4096 8192 refl refl (omega arith) refl
      (omega arith) refl (omega arith) (omega arith)

lookup_pt_slot-alias_example :
    (lookup_pt_slot 8192 (4096 + 1 * 2 ^ 39) mapped.vspace ≡ lookup_pt_slot 8192 4096 mapped.vspace)
    × (address_field (4096 + 1 * 2 ^ 39) ≡ address_field 4096)
lookup_pt_slot-alias_example = lookup_pt_slot-alias mapped.vspace 8192 4096 1
