-- ===== src/Cspace.antt =====
-- sel4_cspace: capabilities, the slots that hold them and the derivation list that threads the
-- slots, for riscv64. Memory is kept by field: `f c p` is the field `f` of the `cte_t` at address
-- `p`, whose two words of `mdb_node_t` are the four `mdb` fields.
pub mod Cap
pub mod Cte
pub mod Derive
pub mod Lookup
pub mod Mdb
pub mod Rights
pub mod Resolve
pub mod Words
pub mod Tests
use mi_dev_integral_rel.Base.{ℕ}

-- A `cap_t` by its tag, with the fields that the tag's bit fields hold, in the source's order
-- (sel4_cspace/src/arch/riscv64/mod.rs).
pub data Capability : Type 0 where
  null : Capability
  untyped : (free_index is_device block_size ptr : ℕ) → Capability
  endpoint : (badge can_grant_reply can_grant can_send can_receive ptr : ℕ) → Capability
  notification : (badge can_receive can_send ptr : ℕ) → Capability
  reply : (can_grant master tcb_ptr : ℕ) → Capability
  cnode : (radix guard_size guard ptr : ℕ) → Capability
  thread : (tcb_ptr : ℕ) → Capability
  irq_control : Capability
  irq_handler : (irq : ℕ) → Capability
  zombie : (id type : ℕ) → Capability
  domain : Capability
  frame : (mapped_asid base_ptr size vm_rights is_device mapped_address : ℕ) → Capability
  page_table : (mapped_asid base_ptr is_mapped mapped_address : ℕ) → Capability
  asid_control : Capability
  asid_pool : (base pool : ℕ) → Capability

-- `CapTag`, by its number.
abbrev pub get_cap_type : Capability → ℕ
get_cap_type null = 0
get_cap_type (untyped _ _ _ _) = 2
get_cap_type (endpoint _ _ _ _ _ _) = 4
get_cap_type (notification _ _ _ _) = 6
get_cap_type (reply _ _ _) = 8
get_cap_type (cnode _ _ _ _) = 10
get_cap_type (thread _) = 12
get_cap_type irq_control = 14
get_cap_type (irq_handler _) = 16
get_cap_type (zombie _ _) = 18
get_cap_type domain = 20
get_cap_type (frame _ _ _ _ _ _) = 1
get_cap_type (page_table _ _ _ _) = 3
get_cap_type asid_control = 11
get_cap_type (asid_pool _ _) = 13

-- `exception_t` of sel4_common/src/structures.rs.
pub data Exception : Type 0 where
  exception_none : Exception
  exception_fault : Exception
  lookup_fault : Exception
  syscall_error : Exception
  preempted : Exception

-- The capabilities and links of every slot, and the states of the interrupts (`intStateIRQTable` of
-- kernel/src/interrupt/mod.rs).
pub record CSpace : Type 0 where
  pub cap : ℕ → Capability
  pub mdb_next : ℕ → ℕ
  pub mdb_prev : ℕ → ℕ
  pub mdb_revocable : ℕ → ℕ
  pub mdb_first_badged : ℕ → ℕ
  pub irq_state : ℕ → ℕ
