-- ===== src/Vspace/PageTable/Unmap.antt =====
-- Unmapping a page table: unmap_page_table of sel4_vspace/src/arch/riscv64/interface.rs, and the same
-- code in pte.rs.
use mi_dev_integral_rel.Base.{
  ℕ, zero, suc, ◌≡◌, true, false, ◌==◌, not, some, Bool-cases, inl, inr, update, ltb, ◌/◌, ◌%◌, ◌^◌,
  ◌||◌,
}
use mi_dev_integral_rel.Cmd.{Run, ok, panic, Skip, and_then, assert, ◌>>◌, ◌>>=◌}
use mi_dev_integral_rel.Vspace.{Vspace, find_vspace_for_asid, pool_of}
use mi_dev_integral_rel.Vspace.PageTable.{
  unmap_page_table, descend, clear_entry, is_pte_table, entry, pt_index, pte_from_ppn,
}

-- The outcomes: nothing changes, or an entry is cleared that was no page table's, or the kernel stops.
pub data Misses (v : Vspace) : Run Vspace Skip → Type 0 where
  untouched : Misses v (ok tt v)
  erased :
      (slot : ℕ)
      → is_pte_table (v.pte slot) ≡ false
      → Misses v (ok tt (record v { pte = update v.pte slot 0 }))
  stopped : Misses v panic

-- At the table that is looked for, the entry that has led there is no page table's.
clear-Misses :
    (v : Vspace) (target pt slot : ℕ)
    → ((pt == target) ≡ true → is_pte_table (v.pte slot) ≡ false)
    → Misses v (clear_entry target (some (pt, slot)) v)
unfolding clear_entry
clear-Misses v target pt slot leaf = elim (Bool-cases (pt == target)) [
  | inl e ↦ rw e (erased slot (leaf e))
  | inr e ↦ rw e untouched
]

descend-Misses :
    (n i vptr target pt slot : ℕ) (v : Vspace)
    → ((pt == target) ≡ true → is_pte_table (v.pte slot) ≡ false)
    → Misses v (and_then (descend n i vptr target pt slot v) (clear_entry target))
unfolding descend clear_entry
descend-Misses zero i vptr target pt slot v leaf = clear-Misses v target pt slot leaf
descend-Misses (suc n) i vptr target pt slot v leaf =
    let next = entry pt (pt_index vptr i) in
    elim (Bool-cases (pt == target)) [
      | inl e ↦ rw (e, e) (erased slot (leaf e))
      | inr e ↦ elim (Bool-cases (is_pte_table (v.pte next))) [
        | inl t ↦ rw (e, t) untouched
        | inr t ↦ elim (Bool-cases (pte_from_ppn (v.pte next) == 0)) [
          | inl z ↦ rw (e, t, z) stopped
          | inr z ↦
              rw (e, t, z)
                (descend-Misses n (suc i) vptr target (pte_from_ppn (v.pte next)) next v
                  (λ same. t))
        ]
      ]
    ]

-- From a root that may be missing.
from_root :
    (v : Vspace) (vptr target root : ℕ)
    → Misses v (
        (do
          assert (not (root == target))
          r ← descend 2 0 vptr target root (entry root (pt_index vptr 0))
          clear_entry target r)
          v)
from_root v vptr target root = elim (Bool-cases (root == target)) [
  | inl e ↦ rw e stopped
  | inr e ↦
      rw e
        (descend-Misses 2 0 vptr target root (entry root (pt_index vptr 0)) v (λ same. absurd (cc)))
]

-- Whatever the identifier, the address and the memory are, unmapping a page table clears no entry that
-- is a page table's: it changes nothing, or clears one entry that was none, or stops the kernel.
pub unmap_page_table-Misses :
    (v : Vspace) (asid vptr target : ℕ) → Misses v (unmap_page_table asid vptr target v)
unfolding unmap_page_table find_vspace_for_asid pool_of
unmap_page_table-Misses v asid vptr target = elim (Bool-cases (ltb (asid / 2 ^ 9) 128)) [
  | inl e ↦
      let pool = v.asid_table (asid / 2 ^ 9) in
      let root = v.asid_pool pool (asid % 2 ^ 9) in
      elim (Bool-cases ((pool == 0) || (root == 0))) [
        | inl f ↦ rw (e, f) untouched
        | inr f ↦ rw (e, f) (from_root v vptr target root)
      ]
  | inr e ↦ rw e stopped
]
