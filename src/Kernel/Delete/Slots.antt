-- ===== src/Kernel/Delete/Slots.antt =====
-- Deleting the capability in a slot: finalise, delete_all, reduce_zombie and revoke of
-- sel4_cspace/src/cte.rs, and preemptionPoint of kernel/src/interfaces_impl/cspace.rs.
use mi_dev_integral_rel.Base.{
  ℕ, zero, suc, ◌+◌, ◌-◌, ◌*◌, ◌/◌, ◌%◌, ◌^◌, Bool, true, false, not, ◌&&◌, ◌||◌, ltb, ◌==◌,
  if◌then◌else◌,
}
use mi_dev_integral_rel.Cmd.{Cmd, panic, pure, ◌>>=◌, ◌>>◌, assert, convert, get, modify}
use mi_dev_integral_rel.Cspace.{
  Exception, exception_none, preempted, Capability, null, zombie, get_cap_type,
}
use mi_dev_integral_rel.Cspace.Cap.{wrapping_add, zombie_ptr, zombie_number, set_zombie_number}
use mi_dev_integral_rel.Cspace.Cte.{
  set_cap, is_final_cap, is_mdb_parent_of, cap_cyclic_zombie, cte_swap, set_empty,
}
use mi_dev_integral_rel.Kernel.{Kernel, in_slots}
use mi_dev_integral_rel.Kernel.Delete.{finalise_cap, removable, read_sip, is_none}

-- CONFIG_MAX_NUM_WORK_UNITS_PER_PREEMPTION
abbrev pub work_units_max : ℕ
work_units_max = 100

unfoldable pub preemption_point : Cmd Kernel Exception
unfolding read_sip
preemption_point = do
  k ← get
  let work = k.interrupts.work_units + 1
  if ltb work work_units_max
      then (do
        modify (λ l. record l { interrupts = record l.interrupts { work_units = work } })
        pure exception_none)
      else (do
        modify (λ l. record l { interrupts = record l.interrupts { work_units = 0 } })
        sip ← read_sip
        pure (
            if not (sip / 2 ^ 5 % 2 == 0) || not (sip / 2 ^ 9 % 2 == 0)
            then preempted
            else exception_none))

-- `finaliseSlot_ret`
pub record FinaliseSlotRet : Type 0 where
  pub status : Exception
  pub success : Bool
  pub cleanup_info : Capability

-- The rest of `reduce_zombie` at once, after the last slot of the zombie is deleted, by the capability
-- that is then in the zombie's slot.
after_end : Capability → ℕ → ℕ → ℕ → ℕ → Cmd Kernel Exception
unfolding zombie_ptr zombie_number set_zombie_number
after_end null id type end_slot self = pure exception_none
after_end (zombie id' type') id type end_slot self =
    if (zombie_ptr id type == zombie_ptr id' type')
      && (zombie_number id' type' == zombie_number id type)
      && (type' == type)
    then (do
      k ← get
      assert (get_cap_type (k.slots.cap end_slot) == 0)
      in_slots
          (set_cap self (zombie (set_zombie_number id' type' (zombie_number id type - 1)) type'))
      pure exception_none)
    else (do
      assert ((zombie_ptr id' type' == self) && not (zombie_ptr id type == self))
      pure exception_none)
after_end other id type end_slot self = λ k. panic

reduce_at : Capability → (ℕ → Cmd Kernel Exception) → Bool → ℕ → Cmd Kernel Exception
unfolding zombie_ptr zombie_number after_end cte_swap
reduce_at (zombie id type) delete immediate self = do
  let ptr = zombie_ptr id type
  let n = zombie_number id type
  assert (not (n == 0))
  (if immediate
      then (do
        let end_slot = wrapping_add ptr (32 * (n - 1))
        status ← delete end_slot
        k ← get
        (if is_none status
            then after_end (k.slots.cap self) id type end_slot self
            else pure status))
      else (do
        assert (not (ptr == self))
        convert ptr
        k ← get
        in_slots (cte_swap (k.slots.cap ptr) ptr (k.slots.cap self) self)
        pure exception_none))
reduce_at other delete immediate self = λ k. panic

-- `reduce_zombie`, with `delete_all(false)` of a slot as its argument.
unfoldable pub reduce_zombie : (ℕ → Cmd Kernel Exception) → Bool → ℕ → Cmd Kernel Exception
unfolding reduce_at
reduce_zombie delete immediate self = do k ← get; reduce_at (k.slots.cap self) delete immediate self

-- What `delete_all` does with the outcome of `finalise`.
unfoldable pub finish_delete : Bool → ℕ → FinaliseSlotRet → Cmd Kernel Exception
finish_delete exposed self fs_ret = if not (is_none fs_ret.status) then pure fs_ret.status else (do
  (if exposed || fs_ret.success then in_slots (set_empty self fs_ret.cleanup_info) else pure tt)
  pure exception_none)

abbrev failing : Exception → FinaliseSlotRet
failing s = record { status = s; success = false; cleanup_info = null }

-- `finalise`, its recursion and its loop on fuel; it panics when the fuel runs out.
unfoldable pub finalise : ℕ → ℕ → Bool → ℕ → Cmd Kernel FinaliseSlotRet
unfolding removable cap_cyclic_zombie reduce_zombie finish_delete preemption_point
finalise zero queue immediate self = λ k. panic
finalise (suc fuel) queue immediate self = do
  k ← get
  if get_cap_type (k.slots.cap self) == 0
      then pure (record { status = exception_none; success = true; cleanup_info = null })
      else (do
        final ← in_slots (is_final_cap self)
        fc_ret ← finalise_cap queue (k.slots.cap self) final
        ready ← removable fc_ret.remainder self
        if ready
            then pure (record {
              status = exception_none;
              success = true;
              cleanup_info = fc_ret.cleanup_info;
            })
            else (do
              in_slots (set_cap self fc_ret.remainder)
              if not immediate && cap_cyclic_zombie fc_ret.remainder self
                  then pure (record {
                    status = exception_none;
                    success = false;
                    cleanup_info = fc_ret.cleanup_info;
                  })
                  else (do
                    status ←
                        reduce_zombie
                          (λ end_slot. do
                            r ← finalise fuel queue false end_slot
                            finish_delete false end_slot r)
                          immediate self
                    if not (is_none status) then pure (failing status) else (do
                      status' ← preemption_point
                      if not (is_none status')
                          then pure (failing status')
                          else finalise fuel queue immediate self))))

unfoldable pub delete_all : ℕ → ℕ → Bool → ℕ → Cmd Kernel Exception
unfolding finalise finish_delete
delete_all fuel queue exposed self = do
  fs_ret ← finalise fuel queue exposed self
  finish_delete exposed self fs_ret

-- The loop of `revoke`, whose fuel bounds its steps and those of each deletion.
unfoldable pub revoke : ℕ → ℕ → ℕ → Cmd Kernel Exception
unfolding is_mdb_parent_of delete_all preemption_point
revoke zero queue self = λ k. panic
revoke (suc fuel) queue self = do
  k ← get
  let next = k.slots.mdb_next self
  if next == 0 then pure exception_none else (do
    parent ← in_slots (is_mdb_parent_of self next)
    if not parent then pure exception_none else (do
      status ← delete_all fuel queue true next
      if not (is_none status) then pure status else (do
        status' ← preemption_point
        if not (is_none status') then pure status' else revoke fuel queue self)))
