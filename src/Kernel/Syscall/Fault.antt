-- ===== src/Kernel/Syscall/Fault.antt =====
-- Faults of threads: send_fault_ipc and handle_fault of kernel/src/syscall/mod.rs, and the entries of
-- kernel/src/arch/riscv/exception.rs that make them.
use mi_dev_integral_rel.Base.{ℕ, true, not, ◌||◌, ◌==◌, update, if◌then◌else◌, Option, none, some}
use mi_dev_integral_rel.Cmd.{Cmd, Skip, panic, pure, ◌>>=◌, ◌>>◌, convert, get, modify}
use mi_dev_integral_rel.Task.{inactive}
use mi_dev_integral_rel.Task.Scheduler.{set_thread_state, schedule, activate_thread}
use mi_dev_integral_rel.Cspace.{Exception, exception_none, exception_fault, Capability, endpoint}
use mi_dev_integral_rel.Cspace.Lookup.{LookupFault, missing_capability}
use mi_dev_integral_rel.Kernel.{Kernel, Fault, cap_fault, unknown_syscall, user_exception, vm_fault}
use mi_dev_integral_rel.Kernel.Message.{in_threads, lookup_slot}
use mi_dev_integral_rel.Kernel.Message.Transfer.{fault_type}
use mi_dev_integral_rel.Kernel.Exchange.{send_ipc}
use mi_dev_integral_rel.Kernel.Delete.{is_none, report}

-- `current_fault`, set.
abbrev pub set_fault : Fault → Cmd Kernel Skip
set_fault f = modify (λ k. record k { current_fault = f })

-- A fault in receiving, where the capability is missing or gives no right.
unfoldable pub missing_fault : ℕ → Cmd Kernel Skip
missing_fault cptr = do report (some (missing_capability 0)); set_fault (cap_fault cptr 1)

-- The fault of the thread, and of its lookup if that is what failed.
unfoldable pub keep_fault : ℕ → LookupFault → Cmd Kernel Skip
keep_fault t origin = modify λ k. record k {
  messages = record k.messages {
    tcb_fault = update k.messages.tcb_fault t k.current_fault;
    tcb_lookup_failure =
        if fault_type k.current_fault == 1
        then update k.messages.tcb_lookup_failure t origin
        else k.messages.tcb_lookup_failure;
  };
}

unfoldable pub no_handler : ℕ → Cmd Kernel Exception
no_handler handler = do
  set_fault (cap_fault handler 0)
  report (some (missing_capability 0))
  pure exception_fault

-- What follows the lookup of the fault handler.
unfoldable pub send_to : Capability → ℕ → ℕ → LookupFault → Cmd Kernel Exception
unfolding keep_fault send_ipc no_handler
send_to (endpoint badge can_grant_reply can_grant can_send can_receive ptr) t handler origin =
    if not (can_grant == 0) || not (can_grant_reply == 0)
    then (do
      keep_fault t origin
      convert ptr
      send_ipc ptr t true true (not (can_grant == 0)) badge true
      pure exception_none)
    else no_handler handler
send_to other t handler origin = no_handler handler

unfoldable pub send_fault_ipc : ℕ → Cmd Kernel Exception
unfolding lookup_slot send_to
send_fault_ipc t = do
  k ← get
  let handler = k.messages.tcb_fault_handler t
  lu_ret ← lookup_slot t handler
  if not (is_none lu_ret.status)
      then (do set_fault (cap_fault handler 0); pure exception_fault)
      else send_to (k.slots.cap lu_ret.slot) t handler k.globals.current_lookup_fault

unfoldable pub handle_fault : ℕ → Cmd Kernel Skip
unfolding send_fault_ipc
handle_fault t = do
  status ← send_fault_ipc t
  if is_none status then pure tt else in_threads (set_thread_state t inactive)

-- A fault of the current thread, and the choice of the next.
unfoldable pub fault_current : Fault → Cmd Kernel Exception
unfolding handle_fault schedule activate_thread
fault_current f = do
  set_fault f
  k ← get
  handle_fault k.ipc.tasks.cur_thread
  in_threads schedule
  in_threads activate_thread
  pure exception_none

-- The end of `handleUnknownSyscall`, for calls that are not for debugging.
unfoldable pub handle_unknown_syscall : ℕ → Cmd Kernel Exception
unfolding fault_current
handle_unknown_syscall w = fault_current (unknown_syscall w)

unfoldable pub handle_user_level_fault : ℕ → ℕ → Cmd Kernel Exception
unfolding fault_current
handle_user_level_fault w_a w_b = fault_current (user_exception w_a w_b)

-- `handle_vm_fault`: instruction, load and store faults are 1 or 12, 5 or 13, and 7 or 15; `addr` is what
-- `read_stval` answers.
unfoldable pub vm_fault_of : ℕ → ℕ → Option Fault
vm_fault_of type addr =
    if (type == 13) || (type == 5)
    then some (vm_fault addr 5 0)
    else if (type == 15) || (type == 7)
    then some (vm_fault addr 7 0)
    else if (type == 1) || (type == 12)
    then some (vm_fault addr 1 1)
    else none

fault_or_panic : Option Fault → Cmd Kernel Exception
unfolding fault_current
fault_or_panic none = λ k. panic
fault_or_panic (some f) = fault_current f

unfoldable pub handle_vm_fault_event : ℕ → ℕ → Cmd Kernel Exception
unfolding vm_fault_of fault_or_panic
handle_vm_fault_event type addr = fault_or_panic (vm_fault_of type addr)
