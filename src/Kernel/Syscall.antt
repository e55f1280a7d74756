-- ===== src/Kernel/Syscall.antt =====
-- System calls: kernel/src/syscall/mod.rs. Invocation is the invocation of capabilities. The clock, the
-- console and the calls for debugging of `handleUnknownSyscall` are not modelled.
pub mod Fault
pub mod Invocation
pub mod Stops
mod Tests
pub mod Yield
use mi_dev_integral_rel.Base.{
  ℕ, ◌-◌, ◌^◌, Bool, true, false, not, ◌&&◌, ◌||◌, ◌==◌, update, if◌then◌else◌,
}
use mi_dev_integral_rel.Cmd.{Cmd, Skip, panic, pure, ◌>>=◌, ◌>>◌, convert, get, modify}
use mi_dev_integral_rel.Task.ReadyQueue.{sched_dequeue, sched_append}
use mi_dev_integral_rel.Task.Scheduler.{reschedule_required, schedule, activate_thread}
use mi_dev_integral_rel.Ipc.Notification.{receive_signal}
use mi_dev_integral_rel.Cspace.{
  Exception, exception_none, Capability, endpoint, notification, reply,
}
use mi_dev_integral_rel.Cspace.Resolve.{ResolveRet}
use mi_dev_integral_rel.Kernel.{Kernel, in_ipc, cap_fault}
use mi_dev_integral_rel.Kernel.Message.{in_threads, register, tcb_slot, tcb_caller, lookup_slot}
use mi_dev_integral_rel.Kernel.Exchange.{receive_ipc}
use mi_dev_integral_rel.Kernel.Delete.{is_none}
use mi_dev_integral_rel.Kernel.Reply.{do_reply, delete_caller_cap}
use mi_dev_integral_rel.Kernel.Interrupt.{handle_pending}
use mi_dev_integral_rel.Kernel.Syscall.Fault.{set_fault, missing_fault, handle_fault}
use mi_dev_integral_rel.Kernel.Syscall.Invocation.{handle_invocation, cap_register}

-- The match of `handle_reply` on the caller's capability.
reply_to : Capability → ℕ → ℕ → ℕ → Cmd Kernel Skip
unfolding do_reply
reply_to (reply can_grant master tcb_ptr) queue self slot =
    if not (master == 0)
    then pure tt
    else (do convert tcb_ptr; do_reply queue self tcb_ptr slot (not (can_grant == 0)))
reply_to other queue self slot = pure tt

unfoldable pub handle_reply : ℕ → Cmd Kernel Skip
unfolding tcb_slot reply_to
handle_reply queue = do
  k ← get
  let self = k.ipc.tasks.cur_thread
  let slot = tcb_slot self tcb_caller
  reply_to (k.slots.cap slot) queue self slot

-- The match of `handle_recv` on the capability that was found.
unfoldable pub receive_on : Capability → ℕ → ℕ → ℕ → Bool → Cmd Kernel Skip
unfolding missing_fault handle_fault delete_caller_cap receive_ipc receive_signal
receive_on (endpoint badge can_grant_reply can_grant can_send can_receive ptr) queue self ep_cptr
      block =
    if can_receive == 0 then (do missing_fault ep_cptr; handle_fault self) else (do
      delete_caller_cap queue self
      convert ptr
      receive_ipc ptr self block (not (can_grant == 0)))
receive_on (notification badge can_receive can_send ptr) queue self ep_cptr block = do
  convert ptr
  k ← get
  let bound = k.ipc.bound_tcb ptr
  if (can_receive == 0) || (not (bound == 0) && not (bound == self))
      then (do missing_fault ep_cptr; handle_fault self)
      else in_ipc (receive_signal ptr self block)
receive_on other queue self ep_cptr block = do missing_fault ep_cptr; handle_fault self

unfoldable pub handle_recv : ℕ → Bool → Cmd Kernel Skip
unfolding lookup_slot handle_fault receive_on
handle_recv queue block = do
  k ← get
  let self = k.ipc.tasks.cur_thread
  let ep_cptr = register k self cap_register
  lu_ret ← lookup_slot self ep_cptr
  if not (is_none lu_ret.status)
      then (do set_fault (cap_fault ep_cptr 1); handle_fault self)
      else receive_on (k.slots.cap lu_ret.slot) queue self ep_cptr block

unfoldable pub handle_yield : Cmd Kernel Skip
unfolding sched_dequeue sched_append reschedule_required
handle_yield = in_threads (do
  k ← get
  sched_dequeue k.cur_thread
  k1 ← get
  sched_append k1.cur_thread
  reschedule_required)

-- An invocation that does not end well lets the pending interrupt in.
unfoldable pub invoke : ℕ → ℕ → Bool → Bool → Cmd Kernel Skip
unfolding handle_invocation handle_pending
invoke fuel queue is_call is_blocking = do
  ret ← handle_invocation fuel queue is_call is_blocking
  if is_none ret then pure tt else handle_pending

-- The system calls by their numbers, which the source reads as signed: SysCall is -1.
pub data Syscall : Type 0 where
  sys_call sys_reply_recv sys_send sys_nb_send sys_recv sys_reply sys_yield sys_nb_recv : Syscall

unfoldable pub perform : ℕ → ℕ → Syscall → Cmd Kernel Skip
unfolding invoke handle_reply handle_recv handle_yield
perform fuel queue sys_send = invoke fuel queue false true
perform fuel queue sys_nb_send = invoke fuel queue false false
perform fuel queue sys_call = invoke fuel queue true true
perform fuel queue sys_recv = handle_recv queue true
perform fuel queue sys_reply = handle_reply queue
perform fuel queue sys_reply_recv = do handle_reply queue; handle_recv queue true
perform fuel queue sys_nb_recv = handle_recv queue false
perform fuel queue sys_yield = handle_yield

unfoldable pub handle_syscall : ℕ → ℕ → Syscall → Cmd Kernel Exception
unfolding perform schedule activate_thread
handle_syscall fuel queue syscall = do
  perform fuel queue syscall
  in_threads schedule
  in_threads activate_thread
  pure exception_none
