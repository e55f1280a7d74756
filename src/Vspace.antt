-- ===== src/Vspace.antt =====
-- sel4_vspace for riscv64: page tables, address space identifiers and the register satp. Memory is
-- kept by word: `pte v p` is the page table entry at address `p`, `asid_pool v p i` the root of the
-- i-th address space of the pool at `p`. Fences and flushes have no effect on this memory.
pub mod Identifier
pub mod PageTable
mod Tests
use mi_dev_integral_rel.Base.{
  ℕ, ◌+◌, ◌-◌, ◌*◌, ◌/◌, ◌%◌, ◌^◌, Bool, true, false, not, ◌&&◌, ◌||◌, Option, none, some, ltb,
  update, ◌==◌, if◌then◌else◌,
}
use mi_dev_integral_rel.Cmd.{Cmd, Skip, panic, pure, ◌>>=◌, ◌>>◌, assert, convert, get, modify}
use mi_dev_integral_rel.Cspace.{Exception, exception_none, lookup_fault, Capability, page_table}
use mi_dev_integral_rel.Cspace.Lookup.{LookupFault, root_invalid}

-- `riscvKSASIDTable` by index, and the address of `kernel_root_pageTable`.
pub record Vspace : Type 0 where
  pub pte : ℕ → ℕ
  pub asid_table : ℕ → ℕ
  pub asid_pool : ℕ → ℕ → ℕ
  pub satp : ℕ
  pub kernel_root : ℕ

abbrev pub asid_low_bits : ℕ
asid_low_bits = 9

abbrev pub asid_high_bits : ℕ
asid_high_bits = 7

-- Of arch/riscv64/utils.rs. Subtractions and additions of addresses wrap.
abbrev pub pptr_base_offset : ℕ
pptr_base_offset = 18446743798831644672

abbrev pub kernel_elf_base_offset : ℕ
kernel_elf_base_offset = 18446744069414584320

abbrev pub wrap : ℕ → ℕ
wrap a = a % 2 ^ 64

abbrev pub pptr_to_paddr : ℕ → ℕ
pptr_to_paddr x = wrap (x + 2 ^ 64 - pptr_base_offset)

abbrev pub kpptr_to_paddr : ℕ → ℕ
kpptr_to_paddr x = wrap (x + 2 ^ 64 - kernel_elf_base_offset)

abbrev pub paddr_to_pptr : ℕ → ℕ
paddr_to_pptr x = wrap (x + pptr_base_offset)

-- `satp_t::new` in mode Sv39; the parts share no bit. `setVSpaceRoot` writes it.
unfoldable pub satp_of : ℕ → ℕ → ℕ
satp_of addr asid = 8 * 2 ^ 60 + asid % 2 ^ 16 * 2 ^ 44 + addr / 2 ^ 12 % 2 ^ 44

abbrev pub set_vspace_root : ℕ → ℕ → Cmd Vspace Skip
set_vspace_root addr asid = modify (λ v. record v { satp = satp_of addr asid })

-- `findVSpaceForASID_ret`
pub record FindRet : Type 0 where
  pub status : Exception
  pub vspace_root : Option ℕ
  pub lookup_fault_of : Option LookupFault

abbrev pub no_vspace : FindRet
no_vspace = record {
  status = lookup_fault;
  vspace_root = none;
  lookup_fault_of = some root_invalid;
}

-- The pool of an identifier: an index out of the table is a panic.
unfoldable pub pool_of : ℕ → Cmd Vspace ℕ
pool_of asid = do
  assert (ltb (asid / 2 ^ asid_low_bits) (2 ^ asid_high_bits))
  v ← get
  pure (v.asid_table (asid / 2 ^ asid_low_bits))

unfoldable pub find_vspace_for_asid : ℕ → Cmd Vspace FindRet
unfolding pool_of
find_vspace_for_asid asid = do
  pool ← pool_of asid
  v ← get
  let root = v.asid_pool pool (asid % 2 ^ asid_low_bits)
  pure (
      if (pool == 0) || (root == 0)
      then no_vspace
      else record { status = exception_none; vspace_root = some root; lookup_fault_of = none })

-- What was found, but for its status.
abbrev pub is_root : Option ℕ → ℕ → Bool
is_root none base = false
is_root (some root) base = root == base

abbrev pub found : Exception → Bool
found exception_none = true
found _ = false

-- `set_vm_root`, whose error is the fault of the lookup, and which sets the given root in any case.
unfoldable pub set_vm_root : Capability → Cmd Vspace (Option LookupFault)
unfolding find_vspace_for_asid
set_vm_root (page_table asid base is_mapped address) = do
  convert base
  find_ret ← find_vspace_for_asid asid
  v ← get
  let bad = not (found find_ret.status) || not (is_root find_ret.vspace_root base)
  (if bad then set_vspace_root (kpptr_to_paddr v.kernel_root) 0 else pure tt)
  set_vspace_root (pptr_to_paddr base) asid
  pure (if bad then find_ret.lookup_fault_of else none)
set_vm_root other = do v ← get; set_vspace_root (kpptr_to_paddr v.kernel_root) 0; pure none

unfoldable pub delete_asid : ℕ → ℕ → Capability → Cmd Vspace (Option LookupFault)
unfolding pool_of set_vm_root
delete_asid asid vspace default_vspace_cap = do
  pool ← pool_of asid
  v ← get
  if not (pool == 0) && (v.asid_pool pool (asid % 2 ^ asid_low_bits) == vspace)
      then (do
        modify λ w. record w {
          asid_pool =
              update w.asid_pool pool (update (w.asid_pool pool) (asid % 2 ^ asid_low_bits) 0);
        }
        set_vm_root default_vspace_cap)
      else pure none

unfoldable pub delete_asid_pool : ℕ → ℕ → Capability → Cmd Vspace (Option LookupFault)
unfolding pool_of set_vm_root
delete_asid_pool asid_base pool default_vspace_cap = do
  p ← pool_of asid_base
  if p == pool
      then (do
        modify λ w. record w { asid_table = update w.asid_table (asid_base / 2 ^ asid_low_bits) 0 }
        set_vm_root default_vspace_cap)
      else pure none

unfoldable pub set_asid_pool_by_index : ℕ → ℕ → Cmd Vspace Skip
set_asid_pool_by_index index pool_ptr = do
  assert (ltb index (2 ^ asid_high_bits))
  modify (λ v. record v { asid_table = update v.asid_table index pool_ptr })

unfoldable pub get_asid_pool_by_index : Vspace → ℕ → Option ℕ
get_asid_pool_by_index v index =
    if not (ltb index (2 ^ asid_high_bits)) || (v.asid_table index == 0)
    then none
    else some (v.asid_table index)

unfoldable pub set_vspace_by_index : ℕ → ℕ → ℕ → Cmd Vspace Skip
set_vspace_by_index pool index vspace = do
  assert (ltb index (2 ^ asid_low_bits))
  modify
      λ v. record v { asid_pool = update v.asid_pool pool (update (v.asid_pool pool) index vspace) }
