-- ===== src/Cspace/Rights.antt =====
-- Restricting the rights of a capability: `mask_cap_rights` of kernel/src/syscall/utils.rs,
-- `arch_mask_cap_rights` of sel4_cspace/src/arch/riscv64/mod.rs and `maskVMRights` of
-- sel4_common/src/arch/riscv64/vm_rights.rs.
use Prim.Native.Nat.{bit_and}
use mi_dev_integral_rel.Base.{ℕ, not, ◌&&◌, ◌==◌, if◌then◌else◌}
use mi_dev_integral_rel.Cspace.{Capability, endpoint, notification, reply, frame}
use mi_dev_integral_rel.Cspace.Cap.{is_arch_cap}

-- `seL4_CapRights_t`, each right 0 or 1.
pub record CapRights : Type 0 where
  pub allow_grant_reply : ℕ
  pub allow_grant : ℕ
  pub allow_read : ℕ
  pub allow_write : ℕ

-- `vm_rights_t` by its numbers: VMKernelOnly, VMReadOnly and VMReadWrite.
abbrev pub vm_kernel_only : ℕ
vm_kernel_only = 1

abbrev pub vm_read_only : ℕ
vm_read_only = 2

abbrev pub vm_read_write : ℕ
vm_read_write = 3

unfoldable pub mask_vm_rights : ℕ → CapRights → ℕ
mask_vm_rights vm_rights rights =
    if (vm_rights == vm_read_only) && not (rights.allow_read == 0)
    then vm_read_only
    else if (vm_rights == vm_read_write) && not (rights.allow_read == 0)
    then (if rights.allow_write == 0 then vm_read_only else vm_read_write)
    else vm_kernel_only

unfoldable pub arch_mask_cap_rights : CapRights → Capability → Capability
unfolding mask_vm_rights
arch_mask_cap_rights rights (frame asid base size vm_rights device address) =
    frame asid base size (mask_vm_rights vm_rights rights) device address
arch_mask_cap_rights rights cap = cap

-- The match of `mask_cap_rights`, on a capability that is not the architecture's.
mask_other : CapRights → Capability → Capability
mask_other rights (endpoint badge can_grant_reply can_grant can_send can_receive ptr) =
    endpoint badge (bit_and can_grant_reply rights.allow_grant_reply)
      (bit_and can_grant rights.allow_grant) (bit_and can_send rights.allow_write)
      (bit_and can_receive rights.allow_read) ptr
mask_other rights (notification badge can_receive can_send ptr) =
    notification badge (bit_and can_receive rights.allow_read) (bit_and can_send rights.allow_write)
      ptr
mask_other rights (reply can_grant master tcb_ptr) =
    reply (bit_and can_grant rights.allow_grant) master tcb_ptr
mask_other rights cap = cap

unfoldable pub mask_cap_rights : CapRights → Capability → Capability
unfolding arch_mask_cap_rights mask_other is_arch_cap
mask_cap_rights rights cap =
    if is_arch_cap cap then arch_mask_cap_rights rights cap else mask_other rights cap
