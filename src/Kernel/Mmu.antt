-- ===== src/Kernel/Mmu.antt =====
-- Operations on page tables, frames and address spaces: kernel/src/syscall/invocation/invoke_mmu_op.rs,
-- for riscv64; Decode is their decoding.
pub mod Alias
pub mod Decode
pub mod Spaces
mod Tests
pub mod Unmap
use mi_dev_integral_rel.Base.{
  ℕ, ◌+◌, ◌-◌, ◌*◌, ◌/◌, ◌%◌, ◌^◌, Bool, true, false, not, Option, none, some, ◌==◌, if◌then◌else◌,
}
use mi_dev_integral_rel.Cmd.{Cmd, Skip, panic, pure, ◌>>=◌, ◌>>◌, assert, convert, get, modify}
use mi_dev_integral_rel.Task.{restart}
use mi_dev_integral_rel.Task.Scheduler.{set_register, set_thread_state}
use mi_dev_integral_rel.Cspace.{Exception, exception_none, Capability, frame, page_table, asid_pool}
use mi_dev_integral_rel.Cspace.Cap.{page_bits_for_size}
use mi_dev_integral_rel.Cspace.Cte.{set_cap, cte_insert, full, get_untyped_block_size}
use mi_dev_integral_rel.Cspace.Rights.{mask_vm_rights}
use mi_dev_integral_rel.Vspace.{
  pptr_to_paddr, asid_low_bits, set_asid_pool_by_index, set_vspace_by_index,
}
use mi_dev_integral_rel.Vspace.PageTable.{
  new_pte, make_user_pte, set_pte, unmap_page_table, unmap_page, copy_global_mappings,
}
use mi_dev_integral_rel.Kernel.{Kernel, in_slots, in_vspace}
use mi_dev_integral_rel.Kernel.Message.{in_threads, msg_info_register, badge_register, set_mr}
use mi_dev_integral_rel.Kernel.Cnode.Decode.{rights_of}
use mi_dev_integral_rel.Kernel.Delete.{report}
use mi_dev_integral_rel.Kernel.Untyped.Reset.{clear_memory}

-- What a capability keeps of an address: 39 bits, read with their sign.
unfoldable pub address_field : ℕ → ℕ
address_field vaddr =
    if vaddr / 2 ^ 38 % 2 == 0 then vaddr % 2 ^ 39 else vaddr % 2 ^ 39 + (2 ^ 64 - 2 ^ 39)

abbrev set_slot : ℕ → Capability → Cmd Kernel Skip
set_slot slot cap = in_slots (set_cap slot cap)

-- `invoke_page_table_unmap`, of the capability in a slot.
unfoldable pub page_table_unmap : Capability → ℕ → Cmd Kernel Exception
unfolding unmap_page_table clear_memory
page_table_unmap (page_table asid base is_mapped address) slot = do
  (if not (is_mapped == 0)
      then (do convert base; in_vspace (unmap_page_table asid address base); clear_memory base 12)
      else pure tt)
  set_slot slot (page_table asid base 0 address)
  pure exception_none
page_table_unmap other slot = λ k. panic

unfoldable pub invoke_page_table_unmap : ℕ → Cmd Kernel Exception
unfolding page_table_unmap
invoke_page_table_unmap slot = do k ← get; page_table_unmap (k.slots.cap slot) slot

unfoldable pub invoke_page_table_map : Capability → ℕ → ℕ → ℕ → ℕ → Cmd Kernel Exception
unfolding new_pte address_field
invoke_page_table_map (page_table _ base _ _) slot pt_slot asid vaddr = do
  in_vspace (set_pte pt_slot (new_pte (pptr_to_paddr base / 2 ^ 12) 1))
  set_slot slot (page_table asid base 1 (address_field vaddr))
  pure exception_none
invoke_page_table_map other slot pt_slot asid vaddr = λ k. panic

unfoldable pub invoke_page_get_address : ℕ → Bool → Cmd Kernel Exception
unfolding set_mr
invoke_page_get_address vbase_ptr call = do
  k ← get
  let self = k.ipc.tasks.cur_thread
  (if call
      then (do
        in_threads (set_register self badge_register 0)
        length ← set_mr self 0 vbase_ptr
        in_threads (set_register self msg_info_register length))
      else pure tt)
  in_threads (set_thread_state self restart)
  pure exception_none

-- `invoke_page_unmap`. It tests `get_pt_mapped_asid` of the frame's capability, the 16 bits from 48 on
-- of the second word, where a frame has its own identifier too.
unfoldable pub page_unmap : Capability → ℕ → Cmd Kernel Exception
unfolding unmap_page
page_unmap (frame asid base size rights device address) slot = do
  (if asid == 0 then pure tt else (do r ← in_vspace (unmap_page size asid address base); report r))
  set_slot slot (frame 0 base size rights device 0)
  pure exception_none
page_unmap other slot = λ k. panic

unfoldable pub invoke_page_unmap : ℕ → Cmd Kernel Exception
unfolding page_unmap
invoke_page_unmap slot = do k ← get; page_unmap (k.slots.cap slot) slot

unfoldable pub invoke_page_map : Capability → ℕ → ℕ → ℕ → ℕ → ℕ → ℕ → Cmd Kernel Exception
unfolding rights_of mask_vm_rights make_user_pte address_field
invoke_page_map (frame _ base size rights device _) slot w_rights_mask vaddr asid attr pt_slot = do
  set_slot slot (frame asid base size rights device (address_field vaddr))
  k ← get
  in_threads (set_thread_state k.ipc.tasks.cur_thread restart)
  in_vspace (
      set_pte pt_slot (
        make_user_pte (pptr_to_paddr base) (attr % 2 == 0)
          (mask_vm_rights rights (rights_of w_rights_mask))))
  pure exception_none
invoke_page_map other slot w_rights_mask vaddr asid attr pt_slot = λ k. panic

unfoldable pub invoke_asid_control : ℕ → ℕ → ℕ → ℕ → Cmd Kernel Exception
unfolding full clear_memory cte_insert set_asid_pool_by_index
invoke_asid_control frame_ptr slot parent_slot asid_base = do
  k ← get
  let parent = k.slots.cap parent_slot
  set_slot parent_slot (full (get_untyped_block_size parent) parent)
  clear_memory frame_ptr 12
  in_slots (cte_insert (asid_pool asid_base frame_ptr) parent_slot slot)
  assert (asid_base % 2 ^ asid_low_bits == 0)
  in_vspace (set_asid_pool_by_index (asid_base / 2 ^ asid_low_bits) frame_ptr)
  pure exception_none

unfoldable pub invoke_asid_pool : ℕ → ℕ → Capability → ℕ → Cmd Kernel Exception
unfolding copy_global_mappings set_vspace_by_index
invoke_asid_pool asid pool (page_table _ base _ _) vspace_slot = do
  set_slot vspace_slot (page_table asid base 1 0)
  in_vspace (copy_global_mappings base)
  in_vspace (set_vspace_by_index pool (asid % 2 ^ asid_low_bits) base)
  pure exception_none
invoke_asid_pool asid pool other vspace_slot = λ k. panic
