-- ===== src/Kernel/Delete.antt =====
-- Finalising capabilities: finaliseCap of kernel/src/interfaces_impl/cspace.rs and what it calls, with
-- delete_one of sel4_cspace/src/cte.rs and cancel_ipc of sel4_ipc/src/transfer.rs; Slots is the
-- deletion itself. The argument `queue` bounds the loops over a whole queue of threads.
pub mod Copies
pub mod Remainder
pub mod Slots
mod Tests
use mi_dev_integral_rel.Base.{
  ℕ, zero, suc, ◌+◌, ◌-◌, ◌*◌, ◌/◌, ◌%◌, ◌^◌, Bool, true, false, not, ◌&&◌, ◌||◌, Option, none,
  some, leb, ltb, update, ◌==◌, if◌then◌else◌,
}
use mi_dev_integral_rel.Cmd.{Cmd, Skip, panic, pure, ◌>>=◌, ◌>>◌, assert, convert, get, modify}
use mi_dev_integral_rel.Task.{
  ThreadState, blocked_on_send, blocked_on_receive, blocked_on_reply, blocked_on_notification,
}
use mi_dev_integral_rel.Task.Scheduler.{suspend}
use mi_dev_integral_rel.Ipc.Endpoint.{cancel_all_ipc}
use mi_dev_integral_rel.Ipc.Notification.{
  cancel_receive, cancel_signal, cancel_all_signal, safe_unbind_tcb, safe_unbind_notification,
}
use mi_dev_integral_rel.Cspace.{
  Exception, exception_none, preempted, Capability, null, endpoint, notification, reply, cnode,
  thread, irq_handler, zombie, domain, frame, page_table, asid_pool, get_cap_type,
}
use mi_dev_integral_rel.Cspace.Cap.{
  is_arch_cap, wrapping_add, zombie_new, zombie_ptr, zombie_number, set_zombie_number, zombie_tcb,
}
use mi_dev_integral_rel.Cspace.Cte.{
  set_cap, or_panic, is_final_cap, is_mdb_parent_of, cap_removable, cap_cyclic_zombie, cte_swap,
  set_empty,
}
use mi_dev_integral_rel.Cspace.Lookup.{LookupFault}
use mi_dev_integral_rel.Vspace.{
  FindRet, found, is_root, find_vspace_for_asid, delete_asid, delete_asid_pool,
}
use mi_dev_integral_rel.Vspace.PageTable.{unmap_page, unmap_page_table}
use mi_dev_integral_rel.Kernel.{Kernel, null_fault, in_slots, in_ipc, in_vspace}
use mi_dev_integral_rel.Kernel.Message.{in_threads, tcb_slot, tcb_ctable, tcb_reply}
use mi_dev_integral_rel.Kernel.Untyped.{offset_slot}

-- `finaliseCap_ret`
pub record FinaliseRet : Type 0 where
  pub remainder : Capability
  pub cleanup_info : Capability

abbrev pub gone : FinaliseRet
gone = record { remainder = null; cleanup_info = null }

abbrev pub tcb_vtable : ℕ
tcb_vtable = 1

-- A fault of a lookup becomes `current_lookup_fault`.
abbrev pub report : Option LookupFault → Cmd Kernel Skip
report none = pure tt
report (some f) = modify (λ k. record k { globals = record k.globals { current_lookup_fault = f } })

-- The capability of the current thread's address space, which is set after a deletion.
abbrev default_vspace : Kernel → Capability
default_vspace k = k.slots.cap (tcb_slot k.ipc.tasks.cur_thread tcb_vtable)

-- `deleteASID` and `deleteASIDPool`
unfoldable pub delete_asid_of : ℕ → ℕ → Cmd Kernel Skip
unfolding tcb_slot delete_asid
delete_asid_of asid vspace = do
  k ← get
  r ← in_vspace (delete_asid asid vspace (default_vspace k))
  report r

unfoldable pub delete_pool_of : ℕ → ℕ → Cmd Kernel Skip
unfolding tcb_slot delete_asid_pool
delete_pool_of asid_base pool = do
  k ← get
  r ← in_vspace (delete_asid_pool asid_base pool (default_vspace k))
  report r

-- The last capability to a page table that is mapped.
finalise_page_table : ℕ → ℕ → ℕ → Cmd Kernel Skip
unfolding delete_asid_of unmap_page_table find_vspace_for_asid
finalise_page_table asid base address = do
  find_ret ← in_vspace (find_vspace_for_asid asid)
  (if found find_ret.status && is_root find_ret.vspace_root base
      then delete_asid_of asid base
      else in_vspace (do convert base; unmap_page_table asid address base))
  report find_ret.lookup_fault_of

unfoldable pub arch_finalise : Capability → Bool → Cmd Kernel Skip
unfolding unmap_page finalise_page_table delete_pool_of
arch_finalise (frame asid base size rights device address) final =
    if asid == 0 then pure tt else (do r ← in_vspace (unmap_page size asid address base); report r)
arch_finalise (page_table asid base is_mapped address) final =
    if final && not (is_mapped == 0) then finalise_page_table asid base address else pure tt
arch_finalise (asid_pool base pool) final = if final then delete_pool_of base pool else pure tt
arch_finalise other final = pure tt

-- `Arch_finaliseCap`
unfoldable pub arch_finalise_cap : Capability → Bool → Cmd Kernel FinaliseRet
unfolding arch_finalise
arch_finalise_cap cap final = do arch_finalise cap final; pure gone

-- The first match of `finaliseCap`; `rest` is what follows it.
unfoldable pub finalise_simple :
    ℕ → Capability → Bool → Cmd Kernel FinaliseRet → Cmd Kernel FinaliseRet
unfolding cancel_all_ipc safe_unbind_tcb cancel_all_signal
finalise_simple queue (endpoint _ _ _ _ _ ptr) final rest = do
  (if final then in_ipc (do convert ptr; cancel_all_ipc queue ptr) else pure tt)
  pure gone
finalise_simple queue (notification _ _ _ ptr) final rest = do
  (if final
      then in_ipc (do convert ptr; safe_unbind_tcb ptr; cancel_all_signal queue ptr)
      else pure tt)
  pure gone
finalise_simple queue (reply _ _ _) final rest = pure gone
finalise_simple queue null final rest = pure gone
finalise_simple queue domain final rest = pure gone
finalise_simple queue other final rest = rest

-- `finaliseCap` of a capability that must be finalised at once, with `_exposed` true.
unfoldable pub finalise_exposed : ℕ → Capability → Bool → Cmd Kernel FinaliseRet
unfolding is_arch_cap arch_finalise_cap finalise_simple
finalise_exposed queue cap final =
    if is_arch_cap cap
    then arch_finalise_cap cap final
    else finalise_simple queue cap final (λ k. panic)

unfoldable pub removable : Capability → ℕ → Cmd Kernel Bool
unfolding cap_removable
removable cap slot = in_slots (or_panic (cap_removable cap slot))

unfoldable pub delete_one : ℕ → ℕ → Cmd Kernel Skip
unfolding is_final_cap finalise_exposed removable set_empty
delete_one queue self = do
  k ← get
  if get_cap_type (k.slots.cap self) == 0 then pure tt else (do
    final ← in_slots (is_final_cap self)
    fc_ret ← finalise_exposed queue (k.slots.cap self) final
    ready ← removable fc_ret.remainder self
    assert (ready && (get_cap_type fc_ret.cleanup_info == 0))
    in_slots (set_empty self null))

-- `cancel_ipc` of a thread, and its branch on a thread that waits for a reply.
cancel_reply : ℕ → ℕ → Cmd Kernel Skip
unfolding tcb_slot delete_one
cancel_reply queue tcb = do
  modify λ k. record k {
    messages = record k.messages { tcb_fault = update k.messages.tcb_fault tcb null_fault };
  }
  k ← get
  let caller_slot = k.slots.mdb_next (tcb_slot tcb tcb_reply)
  if caller_slot == 0 then pure tt else delete_one queue caller_slot

cancel_in : ThreadState → ℕ → ℕ → Cmd Kernel Skip
unfolding cancel_reply cancel_receive cancel_signal
cancel_in blocked_on_send queue tcb = in_ipc (cancel_receive tcb)
cancel_in blocked_on_receive queue tcb = in_ipc (cancel_receive tcb)
cancel_in blocked_on_notification queue tcb = in_ipc (do
  s ← get
  convert (s.tasks.blocking_object tcb)
  cancel_signal (s.tasks.blocking_object tcb) tcb)
cancel_in blocked_on_reply queue tcb = cancel_reply queue tcb
cancel_in other queue tcb = pure tt

unfoldable pub cancel_ipc : ℕ → ℕ → Cmd Kernel Skip
unfolding cancel_in
cancel_ipc queue tcb = do k ← get; cancel_in (k.ipc.tasks.ts_type tcb) queue tcb

abbrev pub tcb_cnode_entries : ℕ
tcb_cnode_entries = 5

-- `get_irq_handler_slot` and `deletingIRQHandler`
unfoldable pub get_irq_handler_slot : ℕ → Cmd Kernel ℕ
unfolding offset_slot
get_irq_handler_slot irq = do
  k ← get
  convert k.interrupts.irq_node
  convert (offset_slot k.interrupts.irq_node irq)
  pure (offset_slot k.interrupts.irq_node irq)

unfoldable pub deleting_irq_handler : ℕ → ℕ → Cmd Kernel Skip
unfolding get_irq_handler_slot delete_one
deleting_irq_handler queue irq = do slot ← get_irq_handler_slot irq; delete_one queue slot

-- The second match of `finaliseCap`.
unfoldable pub finalise_compound : ℕ → Capability → Bool → Cmd Kernel FinaliseRet
unfolding zombie_new tcb_slot safe_unbind_notification cancel_ipc suspend deleting_irq_handler
finalise_compound queue (cnode radix guard_size guard ptr) true =
    pure (record { remainder = zombie_new (2 ^ radix) radix ptr; cleanup_info = null })
finalise_compound queue (thread ptr) true = do
  convert ptr
  in_ipc (safe_unbind_notification ptr)
  cancel_ipc queue ptr
  in_threads (suspend ptr)
  pure (record {
    remainder = zombie_new tcb_cnode_entries zombie_tcb (tcb_slot ptr tcb_ctable);
    cleanup_info = null;
  })
finalise_compound queue (zombie id type) final =
    pure (record { remainder = zombie id type; cleanup_info = null })
finalise_compound queue (irq_handler irq) true = do
  deleting_irq_handler queue irq
  pure (record { remainder = null; cleanup_info = irq_handler irq })
finalise_compound queue other final = pure gone

-- `finaliseCap` with `_exposed` false.
unfoldable pub finalise_cap : ℕ → Capability → Bool → Cmd Kernel FinaliseRet
unfolding is_arch_cap arch_finalise_cap finalise_simple finalise_compound
finalise_cap queue cap final =
    if is_arch_cap cap
    then arch_finalise_cap cap final
    else finalise_simple queue cap final (finalise_compound queue cap final)

-- `read_sip`; `isIRQPending` is bit SIP_STIP or bit SIP_SEIP of it.
unfoldable pub read_sip : Cmd Kernel ℕ
read_sip = do
  k ← get
  modify λ l. record l { interrupts = record l.interrupts { sip = λ n. l.interrupts.sip (suc n) } }
  pure (k.interrupts.sip 0)

abbrev pub is_none : Exception → Bool
is_none exception_none = true
is_none _ = false
