-- ===== src/Vspace/Identifier.antt =====
-- The root that satp holds and the identifiers of address spaces: arch/riscv64/asid.rs and
-- interface.rs.
use mi_dev_integral_rel.Base.{
  ℕ, sym, subst, ◌/◌, ◌%◌, ◌^◌, ◌≡◌, ◌≢◌, ◌<◌, refl, arith, true, false, not, ◌||◌, ltb, ◌==◌, none,
  some, Bool-cases, inl, inr, if◌then◌else◌, update,
}
use mi_dev_integral_rel.Cmd.{Run, ok}
use mi_dev_integral_rel.Cmd.Returns.{Returns, returns, mono}
use mi_dev_integral_rel.Cspace.{page_table, exception_none}
use mi_dev_integral_rel.Vspace.{
  Vspace, FindRet, no_vspace, pool_of, find_vspace_for_asid, set_vm_root, delete_asid, satp_of,
  pptr_to_paddr, found, is_root,
}

-- What a lookup of an identifier in the table's range answers.
abbrev pub answer_of : Vspace → ℕ → FindRet
answer_of v asid =
    let pool = v.asid_table (asid / 2 ^ 9) in
    let root = v.asid_pool pool (asid % 2 ^ 9) in
    if (pool == 0) || (root == 0)
    then no_vspace
    else record { status = exception_none; vspace_root = some root; lookup_fault_of = none }

in_range : (asid : ℕ) → asid < 2 ^ 16 → ltb (asid / 2 ^ 9) (2 ^ 7) ≡ true
in_range asid lt = ground arith

pool_run :
    (v : Vspace) (asid : ℕ) → asid < 2 ^ 16 → pool_of asid v ≡ ok (v.asid_table (asid / 2 ^ 9)) v
unfolding pool_of
pool_run v asid lt = let e = in_range asid lt in rw e refl

pub find_run :
    (v : Vspace) (asid : ℕ) → asid < 2 ^ 16 → find_vspace_for_asid asid v ≡ ok (answer_of v asid) v
unfolding find_vspace_for_asid pool_of
find_run v asid lt = let e = in_range asid lt in rw e refl

-- Setting the root of a page table's capability always ends with this root and its identifier in
-- satp, whether or not the lookup of the identifier finds it; nothing else of the memory changes.
pub set_vm_root-Active :
    (v : Vspace) (asid base is_mapped address : ℕ)
    → base ≢ 0
    → asid < 2 ^ 16
    → Returns
        (λ _ v'. v' ≡ record v { satp = satp_of (pptr_to_paddr base) asid })
        (set_vm_root (page_table asid base is_mapped address) v)
unfolding set_vm_root
set_vm_root-Active v asid base is_mapped address ne lt =
    let live : (base == 0) ≡ false = ground arith in
    let run = find_run v asid lt in
    let r = answer_of v asid in
    elim (Bool-cases (not (found r.status) || not (is_root r.vspace_root base))) [
      | inl e ↦ rw (live, run, e) (returns refl)
      | inr e ↦ rw (live, run, e) (returns refl)
    ]

update_twice : (f : ℕ → ℕ → ℕ) (p i x : ℕ) → update f p (update (f p) i x) p i ≡ x
update_twice f p i x =
    let at : (p == p) ≡ true = ground arith in
    let at_i : (i == i) ≡ true = ground arith in rw (at, at_i) refl

gone :
    {A : Type 0} {r : Run Vspace A} (w : Vspace) (asid pool : ℕ) {root : ℕ}
    → asid < 2 ^ 16
    → w.asid_table (asid / 2 ^ 9) ≡ pool
    → (pool == 0) ≡ false
    → w.asid_pool pool (asid % 2 ^ 9) ≡ 0
    → Returns (λ _ v'. v' ≡ record w { satp = root }) r
    → Returns (λ _ v'. (find_vspace_for_asid asid v' ≡ ok no_vspace v') × (v'.satp ≡ root)) r
gone w asid pool {root} lt at alive empty run =
    let v1 = record w { satp = root } in
    let none_there : find_vspace_for_asid asid v1 ≡ ok no_vspace v1 =
      rw (find_run v1 asid lt, at, alive, empty) refl in
    mono run λ _ v' e.
      subst (λ v2. (find_vspace_for_asid asid v2 ≡ ok no_vspace v2) × (v2.satp ≡ root)) (sym e)
        (none_there, refl)

-- Deleting the identifier of an address space that stands in its pool, with the capability of a page
-- table to set afterwards: the identifier is not found any more, and satp holds the root of that
-- capability, even if it is the address space that was deleted.
pub delete_asid-Gone :
    (v : Vspace) (asid pool vspace asid' base is_mapped address : ℕ)
    → asid < 2 ^ 16
    → v.asid_table (asid / 2 ^ 9) ≡ pool
    → pool ≢ 0
    → v.asid_pool pool (asid % 2 ^ 9) ≡ vspace
    → base ≢ 0
    → asid' < 2 ^ 16
    → Returns
        (λ _ v'.
          (find_vspace_for_asid asid v' ≡ ok no_vspace v')
          × (v'.satp ≡ satp_of (pptr_to_paddr base) asid'))
        (delete_asid asid vspace (page_table asid' base is_mapped address) v)
unfolding delete_asid
delete_asid-Gone v asid pool vspace asid' base is_mapped address lt at live here ne lt' =
    let range = pool_run v asid lt in
    let alive : (pool == 0) ≡ false = ground arith in
    let found_here : (v.asid_pool pool (asid % 2 ^ 9) == vspace) ≡ true = ground arith in
    let w = record v {
      asid_pool = update v.asid_pool pool (update (v.asid_pool pool) (asid % 2 ^ 9) 0);
    } in
    rw (range, at, alive, found_here)
      (gone w asid pool lt at alive (update_twice v.asid_pool pool (asid % 2 ^ 9) 0)
        (set_vm_root-Active w asid' base is_mapped address ne lt'))
