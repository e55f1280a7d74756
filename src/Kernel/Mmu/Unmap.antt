-- ===== src/Kernel/Mmu/Unmap.antt =====
-- Unmapping a page table: decode_page_table_unmap of
-- kernel/src/syscall/invocation/decode/arch/riscv64.rs.
use mi_dev_integral_rel.Base.{ℕ, ◌/◌, ◌%◌, ◌^◌, ◌≡◌, ◌≢◌, ◌<◌, refl, arith, true, false, ◌==◌}
use mi_dev_integral_rel.Cmd.{ok, panic}
use mi_dev_integral_rel.Cspace.{page_table}
use mi_dev_integral_rel.Cspace.Cte.{is_final_cap}
use mi_dev_integral_rel.Vspace.Identifier.{find_run}
use mi_dev_integral_rel.Kernel.{Kernel}
use mi_dev_integral_rel.Kernel.Mmu.Decode.{check_not_root, report_fault, decode_page_table_unmap}

-- Unmapping a page table stops the kernel when the capability is the last one to the table, the table
-- is mapped, and its identifier has an address space of which the table is not the root.
pub decode_page_table_unmap-panics :
    (k : Kernel) (slot asid base address pool root : ℕ)
    → k.slots.cap slot ≡ page_table asid base 1 address
    → is_final_cap slot k.slots ≡ ok true k.slots
    → asid < 2 ^ 16
    → k.vspace.asid_table (asid / 2 ^ 9) ≡ pool
    → pool ≢ 0
    → k.vspace.asid_pool pool (asid % 2 ^ 9) ≡ root
    → root ≢ 0
    → root ≢ base
    → decode_page_table_unmap slot k ≡ panic
unfolding decode_page_table_unmap check_not_root report_fault
decode_page_table_unmap-panics k slot asid base address pool root at final lt table live here rooted
      other =
    let alive : (pool == 0) ≡ false = ground arith in
    let root_alive : (root == 0) ≡ false = ground arith in
    let differ : (root == base) ≡ false = ground arith in
    let run = find_run k.vspace asid lt in
    rw (at, final) (rw (run, table, alive, here, root_alive, differ) refl)
