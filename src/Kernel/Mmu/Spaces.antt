-- ===== src/Kernel/Mmu/Spaces.antt =====
-- Decoding the operations on frames, pools of address spaces and their control, and
-- decode_mmu_invocation: kernel/src/syscall/invocation/decode/arch/riscv64.rs.
use mi_dev_integral_rel.Base.{
  ℕ, zero, suc, ◌+◌, ◌-◌, ◌*◌, ◌/◌, ◌%◌, ◌^◌, Bool, true, false, not, ◌||◌, Option, none, some, ltb,
  leb, ◌==◌, if◌then◌else◌,
}
use mi_dev_integral_rel.Cmd.{Cmd, Skip, panic, pure, ◌>>=◌, ◌>>◌, convert, get}
use mi_dev_integral_rel.Cspace.{
  Exception, Capability, untyped, frame, page_table, asid_control, asid_pool, get_cap_type,
}
use mi_dev_integral_rel.Cspace.Cap.{page_bits_for_size}
use mi_dev_integral_rel.Cspace.Cte.{has_children}
use mi_dev_integral_rel.Cspace.Lookup.{
  illegal_operation, truncated_message, alignment_error, invalid_capability, invalid_argument,
  failed_lookup, delete_first, revoke_first, missing_capability, root_invalid,
}
use mi_dev_integral_rel.Vspace.{Vspace, asid_low_bits, asid_high_bits, wrap, get_asid_pool_by_index}
use mi_dev_integral_rel.Vspace.PageTable.{get_valid, is_pte_table, LookupPtSlotRet, lookup_pt_slot}
use mi_dev_integral_rel.Kernel.{Kernel, in_slots, in_vspace, Checked, passed, reject, checking}
use mi_dev_integral_rel.Kernel.Labels.{
  riscv_page_map, riscv_page_unmap, riscv_page_get_address, riscv_asid_control_make_pool,
  riscv_asid_pool_assign,
}
use mi_dev_integral_rel.Kernel.Cnode.{restart_current, illegal}
use mi_dev_integral_rel.Kernel.Untyped.Decode.{get_syscall_arg}
use mi_dev_integral_rel.Kernel.Delete.{report}
use mi_dev_integral_rel.Kernel.Tcb.Decode.{require}
use mi_dev_integral_rel.Kernel.Interrupt.Invocation.{target_slot}
use mi_dev_integral_rel.Kernel.Mmu.{
  invoke_page_get_address, invoke_page_unmap, invoke_page_map, invoke_asid_control,
  invoke_asid_pool,
}
use mi_dev_integral_rel.Kernel.Mmu.Decode.{
  user_top, get_vspace, reject_argument, decode_page_table_invocation,
}

-- The checks of `decode_frame_map` on the frame and the entry `w` that it is for.
unfoldable pub check_frame : ℕ → ℕ → ℕ → ℕ → ℕ → Cmd Kernel (Checked Skip)
unfolding is_pte_table
check_frame frame_asid address asid vaddr w =
    if frame_asid == 0
    then require (get_valid w == 0) delete_first
    else if not (frame_asid == asid)
    then reject (invalid_capability 1)
    else if not (address == vaddr)
    then reject (invalid_argument 0)
    else require (not (is_pte_table w)) delete_first

-- The checks on the address of a frame of `2 ^ bits` bytes; `none` is the panic of `pageBitsForSize`.
unfoldable pub check_address : ℕ → Option ℕ → Cmd Kernel (Checked ℕ)
check_address vaddr none = λ k. panic
check_address vaddr (some bits) =
    if leb user_top (wrap (vaddr + 2 ^ bits + (2 ^ 64 - 1)))
    then reject_argument
    else if vaddr % 2 ^ bits == 0
    then pure (passed bits)
    else reject alignment_error

-- The entry found must be of the frame's size.
unfoldable pub check_entry : LookupPtSlotRet → ℕ → Cmd Kernel (Checked Skip)
check_entry lu_ret bits =
    if lu_ret.pt_bits_left == bits
    then pure (passed tt)
    else (do report (some (missing_capability lu_ret.pt_bits_left)); reject (failed_lookup false))

frame_map : Capability → ℕ → ℕ → (ℕ → ℕ) → Cmd Kernel Exception
unfolding get_syscall_arg get_vspace check_address lookup_pt_slot check_entry check_frame
    invoke_page_map
frame_map (frame frame_asid base size rights device address) slot length buffer = do
  k ← get
  let vaddr = get_syscall_arg k buffer 0
  let cap = frame frame_asid base size rights device address
  checking (require (not (ltb length 3 || (k.extra_caps 0 == 0))) truncated_message) λ _.
      checking (get_vspace (k.slots.cap (k.extra_caps 0))) λ space.
        checking (check_address vaddr (page_bits_for_size size)) λ bits. (do
          lu_ret ← in_vspace (lookup_pt_slot space.lvl1pt vaddr)
          checking (check_entry lu_ret bits) λ _. (do
            convert lu_ret.pt_slot
            checking (check_frame frame_asid address space.asid vaddr (k.vspace.pte lu_ret.pt_slot))
                λ _.
                  invoke_page_map cap slot (get_syscall_arg k buffer 1) vaddr space.asid
                    (get_syscall_arg k buffer 2) lu_ret.pt_slot))
frame_map other slot length buffer = λ k. panic

unfoldable pub decode_frame_map : ℕ → ℕ → (ℕ → ℕ) → Cmd Kernel Exception
unfolding frame_map
decode_frame_map length slot buffer = do k ← get; frame_map (k.slots.cap slot) slot length buffer

abbrev frame_base : Capability → ℕ
frame_base (frame asid base size rights device address) = base
frame_base other = 0

unfoldable pub decode_frame_invocation : ℕ → ℕ → ℕ → Bool → (ℕ → ℕ) → Cmd Kernel Exception
unfolding decode_frame_map invoke_page_unmap invoke_page_get_address
decode_frame_invocation label length slot call buffer =
    if label == riscv_page_map
    then decode_frame_map length slot buffer
    else if label == riscv_page_unmap
    then (do restart_current; invoke_page_unmap slot)
    else if label == riscv_page_get_address
    then (do restart_current; k ← get; invoke_page_get_address (frame_base (k.slots.cap slot)) call)
    else illegal

-- The loop for the first index from `i` on with no pool; the table has `n` more.
abbrev is_some : {A : Type 0} → Option A → Bool
is_some none = false
is_some (some a) = true

unfoldable pub free_pool : ℕ → Vspace → ℕ → ℕ
unfolding get_asid_pool_by_index
free_pool zero v i = i
free_pool (suc n) v i =
    let rest = free_pool n v (suc i) in if is_some (get_asid_pool_by_index v i) then rest else i

-- The memory of a pool is an untyped block of its size.
unfoldable pub pool_memory : Capability → Cmd Kernel (Checked ℕ)
pool_memory (untyped index is_device block_size ptr) =
    if not (block_size == 12) || not (is_device == 0)
    then reject (invalid_capability 1)
    else pure (passed ptr)
pool_memory other = reject (invalid_capability 1)

unfoldable pub decode_asid_control : ℕ → ℕ → (ℕ → ℕ) → Cmd Kernel Exception
unfolding get_syscall_arg free_pool pool_memory has_children target_slot invoke_asid_control
decode_asid_control label length buffer = do
  k ← get
  let parent_slot = k.extra_caps 0
  let i = free_pool (2 ^ asid_high_bits) k.vspace 0
  let index = get_syscall_arg k buffer 0
  let depth = get_syscall_arg k buffer 1
  checking (require (label == riscv_asid_control_make_pool) illegal_operation) λ _.
      checking
        (require (not (ltb length 2 || (parent_slot == 0) || (k.extra_caps 1 == 0)))
          truncated_message)
        λ _. checking (require (not (i == 2 ^ asid_high_bits)) delete_first) λ _.
          checking (pool_memory (k.slots.cap parent_slot)) λ memory. (do
            children ← in_slots (has_children parent_slot)
            checking (require (not children) revoke_first) λ _.
                checking (target_slot (k.slots.cap (k.extra_caps 1)) index depth) λ dest_slot.
                  checking (require (get_cap_type (k.slots.cap dest_slot) == 0) delete_first) λ _.
                    (do
                      restart_current
                      invoke_asid_control memory dest_slot parent_slot (i * 2 ^ asid_low_bits)))

-- The loop for the first index from `i` on with no address space; the identifier 0 is none.
unfoldable pub free_space : ℕ → (ℕ → ℕ) → ℕ → ℕ → ℕ
free_space zero pool asid i = i
free_space (suc n) pool asid i =
    let rest = free_space n pool asid (suc i) in
    if (asid + i == 0) || not (pool i == 0) then rest else i

-- A table that can become the root of an address space.
unfoldable pub is_free_table : Capability → Bool
is_free_table (page_table asid base is_mapped address) = is_mapped == 0
is_free_table other = false

-- The pool that the table has for the identifiers of the capability.
unfoldable pub check_pool : Option ℕ → ℕ → Cmd Kernel (Checked Skip)
check_pool none pool = do report (some root_invalid); reject (failed_lookup false)
check_pool (some ptr) pool = require (ptr == pool) (invalid_capability 0)

assign_pool : Capability → Cmd Kernel Exception
unfolding get_asid_pool_by_index check_pool free_space invoke_asid_pool
assign_pool (asid_pool asid pool) = do
  k ← get
  let vspace_slot = k.extra_caps 0
  let i = free_space (2 ^ asid_low_bits) (k.vspace.asid_pool pool) asid 0
  checking (check_pool (get_asid_pool_by_index k.vspace (asid / 2 ^ asid_low_bits)) pool) λ _.
      checking (require (not (i == 2 ^ asid_low_bits)) delete_first) λ _. (do
        restart_current
        invoke_asid_pool (asid + i) pool (k.slots.cap vspace_slot) vspace_slot)
assign_pool other = λ k. panic

unfoldable pub decode_asid_pool : ℕ → ℕ → Cmd Kernel Exception
unfolding is_free_table assign_pool
decode_asid_pool label slot = do
  k ← get
  let vspace_slot = k.extra_caps 0
  checking (require (label == riscv_asid_pool_assign) illegal_operation) λ _.
      checking (require (not (vspace_slot == 0)) truncated_message) λ _.
        checking (require (is_free_table (k.slots.cap vspace_slot)) (invalid_capability 1))
          λ _. assign_pool (k.slots.cap slot)

-- The match of `decode_mmu_invocation` on the capability's type.
decode_mmu : Capability → ℕ → ℕ → ℕ → Bool → (ℕ → ℕ) → Cmd Kernel Exception
unfolding decode_page_table_invocation decode_frame_invocation decode_asid_control decode_asid_pool
decode_mmu (page_table _ _ _ _) label length slot call buffer =
    decode_page_table_invocation label length slot buffer
decode_mmu (frame _ _ _ _ _ _) label length slot call buffer =
    decode_frame_invocation label length slot call buffer
decode_mmu asid_control label length slot call buffer = decode_asid_control label length buffer
decode_mmu (asid_pool _ _) label length slot call buffer = decode_asid_pool label slot
decode_mmu other label length slot call buffer = λ k. panic

unfoldable pub decode_mmu_invocation : ℕ → ℕ → ℕ → Bool → (ℕ → ℕ) → Cmd Kernel Exception
unfolding decode_mmu
decode_mmu_invocation label length slot call buffer = do
  k ← get
  decode_mmu (k.slots.cap slot) label length slot call buffer
