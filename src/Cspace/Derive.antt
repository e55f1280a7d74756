-- ===== src/Cspace/Derive.antt =====
-- Deriving a capability from another: `derive_cap` of sel4_cspace/src/cte.rs and `arch_derive_cap`
-- of arch/riscv64/mod.rs.
use mi_dev_integral_rel.Base.{ℕ, not, ◌==◌, if◌then◌else◌}
use mi_dev_integral_rel.Cmd.{Cmd, panic, pure, ◌>>=◌}
use mi_dev_integral_rel.Cspace.{
  Exception, exception_none, syscall_error, Capability, null, untyped, reply, irq_control, zombie,
  frame, page_table, asid_control, asid_pool, CSpace,
}
use mi_dev_integral_rel.Cspace.Cap.{is_arch_cap}
use mi_dev_integral_rel.Cspace.Cte.{has_children}

-- `deriveCap_ret`
pub record DeriveRet : Type 0 where
  pub status : Exception
  pub cap : Capability

-- `arch_derive_cap`, and the branches of `derive_cap` that need the slot.
abbrev derived : Capability → Cmd CSpace DeriveRet
derived v = pure (record { status = exception_none; cap = v })

abbrev refused : Cmd CSpace DeriveRet
refused = pure (record { status = syscall_error; cap = null })

unfoldable pub arch_derive_cap : Capability → Cmd CSpace DeriveRet
arch_derive_cap (page_table asid base is_mapped address) =
    if not (is_mapped == 0) then derived (page_table asid base is_mapped address) else refused
arch_derive_cap (frame asid base size rights device address) =
    derived (frame 0 base size rights device 0)
arch_derive_cap asid_control = derived asid_control
arch_derive_cap (asid_pool base pool) = derived (asid_pool base pool)
arch_derive_cap _ = λ c. panic

-- The match of `derive_cap` on a capability that is not the architecture's.
unfoldable pub derive_other : ℕ → Capability → Cmd CSpace DeriveRet
unfolding has_children
derive_other self (zombie _ _) = derived null
derive_other self (untyped i d size ptr) = do
  children ← has_children self
  if children then refused else derived (untyped i d size ptr)
derive_other self (reply _ _ _) = derived null
derive_other self irq_control = derived null
derive_other self v = derived v

unfoldable pub derive_cap : ℕ → Capability → Cmd CSpace DeriveRet
unfolding arch_derive_cap derive_other is_arch_cap
derive_cap self cap = if is_arch_cap cap then arch_derive_cap cap else derive_other self cap
