-- ===== src/Ipc/Notification.antt =====
-- Notifications: sel4_ipc/src/notification.rs, with `complete_signal` of transfer.rs. The address of
-- the notification is the first argument.
pub mod Waiting
use Prim.Native.Nat.{bit_or}
use mi_dev_integral_rel.Base.{ℕ, Bool, true, false, not, update, ◌==◌, if◌then◌else◌}
use mi_dev_integral_rel.Cmd.{panic, Cmd, Skip, pure, get, modify, assert, convert, ◌>>=◌, ◌>>◌}
use mi_dev_integral_rel.Task.{
  ThreadState, TcbQueue, inactive, running, blocked_on_receive, blocked_on_notification,
}
use mi_dev_integral_rel.Task.EpQueue.{ep_append, ep_dequeue, empty}
use mi_dev_integral_rel.Task.Scheduler.{set_thread_state, reschedule_required, possible_switch_to}
use mi_dev_integral_rel.Ipc.{
  EpState, NtfnState, ep_idle, ntfn_idle, ntfn_waiting, ntfn_active, Ipc, in_tasks, set_badge,
  restart_all,
}
use mi_dev_integral_rel.Ipc.Endpoint

abbrev pub set_state : ℕ → NtfnState → Cmd Ipc Skip
set_state ntfn state = modify (λ s. record s { ntfn_state = update s.ntfn_state ntfn state })

abbrev pub set_queue : ℕ → TcbQueue → Cmd Ipc Skip
set_queue ntfn queue = modify (λ s. record s { ntfn_queue = update s.ntfn_queue ntfn queue })

abbrev pub set_msg_identifier : ℕ → ℕ → Cmd Ipc Skip
set_msg_identifier ntfn w =
    modify (λ s. record s { msg_identifier = update s.msg_identifier ntfn w })

abbrev pub activate : ℕ → ℕ → Cmd Ipc Skip
activate ntfn badge = do set_state ntfn ntfn_active; set_msg_identifier ntfn badge

unfoldable pub cancel_signal : ℕ → ℕ → Cmd Ipc Skip
cancel_signal ntfn tcb = do
  s ← get
  queue ← in_tasks (ep_dequeue (s.ntfn_queue ntfn) tcb)
  set_queue ntfn queue
  (if queue.head == 0 then set_state ntfn ntfn_idle else pure tt)
  in_tasks (set_thread_state tcb inactive)

cancel_waiting : ℕ → NtfnState → ℕ → Cmd Ipc Skip
unfolding restart_all
cancel_waiting fuel ntfn_waiting ntfn = do
  s ← get
  set_state ntfn ntfn_idle
  set_queue ntfn (record { head = 0; tail = 0 })
  restart_all fuel (s.ntfn_queue ntfn).head
  in_tasks reschedule_required
cancel_waiting fuel _ ntfn = pure tt

-- `cacncel_all_signal`
unfoldable pub cancel_all_signal : ℕ → ℕ → Cmd Ipc Skip
unfolding cancel_waiting
cancel_all_signal fuel ntfn = do s ← get; cancel_waiting fuel (s.ntfn_state ntfn) ntfn

unfoldable pub bind_tcb : ℕ → ℕ → Cmd Ipc Skip
bind_tcb ntfn tcb = modify (λ s. record s { bound_tcb = update s.bound_tcb ntfn tcb })

-- `unbind_notification` of sel4_task/src/tcb.rs.
abbrev pub unbind_notification : ℕ → Cmd Ipc Skip
unbind_notification tcb = modify λ s. record s {
  tasks = record s.tasks { bound_notification = update s.tasks.bound_notification tcb 0 };
}

unfoldable pub safe_unbind_tcb : ℕ → Cmd Ipc Skip
unfolding bind_tcb
safe_unbind_tcb ntfn = do
  s ← get
  bind_tcb ntfn 0
  if s.bound_tcb ntfn == 0 then pure tt else unbind_notification (s.bound_tcb ntfn)

abbrev waits_to_receive : ThreadState → Bool
waits_to_receive blocked_on_receive = true
waits_to_receive _ = false

abbrev is_idle : EpState → Bool
is_idle ep_idle = true
is_idle _ = false

-- `cancel_ipc` of transfer.rs, on a thread that is blocked on an endpoint.
unfoldable pub cancel_receive : ℕ → Cmd Ipc Skip
cancel_receive tcb = do
  s ← get
  let ep = s.tasks.blocking_object tcb
  convert ep
  assert (not (is_idle (s.ep_state ep)))
  Endpoint.cancel_ipc ep tcb

-- A thread wakes up with a badge.
abbrev wake : ℕ → ℕ → Cmd Ipc Skip
wake tcb badge = do
  in_tasks (set_thread_state tcb running)
  set_badge tcb badge
  in_tasks (possible_switch_to tcb)

signal : NtfnState → ℕ → ℕ → Cmd Ipc Skip
signal ntfn_idle ntfn badge = do
  s ← get
  let tcb = s.bound_tcb ntfn
  if tcb == 0
      then activate ntfn badge
      else if waits_to_receive (s.tasks.ts_type tcb)
      then (do cancel_receive tcb; wake tcb badge)
      else activate ntfn badge
signal ntfn_waiting ntfn badge = do
  s ← get
  let dest = (s.ntfn_queue ntfn).head
  if dest == 0 then (λ s. panic) else (do
    queue ← in_tasks (ep_dequeue (s.ntfn_queue ntfn) dest)
    set_queue ntfn queue
    (if empty queue then set_state ntfn ntfn_idle else pure tt)
    wake dest badge)
signal ntfn_active ntfn badge = do
  s ← get
  set_msg_identifier ntfn (bit_or (s.msg_identifier ntfn) badge)

unfoldable pub send_signal : ℕ → ℕ → Cmd Ipc Skip
unfolding signal
send_signal ntfn badge = do s ← get; signal (s.ntfn_state ntfn) ntfn badge

-- `receive_signal` of a thread where no signal is there, and its branches on the state.
abbrev wait : ℕ → ℕ → Bool → Cmd Ipc Skip
wait ntfn tcb is_blocking =
    if is_blocking
    then (do
      modify λ s. record s {
        tasks = record s.tasks { blocking_object = update s.tasks.blocking_object tcb ntfn };
      }
      in_tasks (set_thread_state tcb blocked_on_notification)
      s ← get
      queue ← in_tasks (ep_append (s.ntfn_queue ntfn) tcb)
      set_state ntfn ntfn_waiting
      set_queue ntfn queue)
    else set_badge tcb 0

receive : NtfnState → ℕ → ℕ → Bool → Cmd Ipc Skip
receive ntfn_active ntfn tcb is_blocking = do
  s ← get
  set_badge tcb (s.msg_identifier ntfn)
  set_state ntfn ntfn_idle
receive ntfn_idle ntfn tcb is_blocking = wait ntfn tcb is_blocking
receive ntfn_waiting ntfn tcb is_blocking = wait ntfn tcb is_blocking

unfoldable pub receive_signal : ℕ → ℕ → Bool → Cmd Ipc Skip
unfolding receive
receive_signal ntfn tcb is_blocking = do s ← get; receive (s.ntfn_state ntfn) ntfn tcb is_blocking

abbrev is_active : NtfnState → Bool
is_active ntfn_active = true
is_active _ = false

unfoldable pub complete_signal : ℕ → Cmd Ipc Bool
complete_signal tcb = do
  s ← get
  let ntfn = s.tasks.bound_notification tcb
  if ntfn == 0
      then pure false
      else if is_active (s.ntfn_state ntfn)
      then (do set_badge tcb (s.msg_identifier ntfn); set_state ntfn ntfn_idle; pure true)
      else pure false

-- Of kernel/src/syscall/utils.rs.
unfoldable pub do_bind_notification : ℕ → ℕ → Cmd Ipc Skip
unfolding bind_tcb
do_bind_notification tcb ntfn = do
  bind_tcb ntfn tcb
  modify λ s. record s {
    tasks = record s.tasks { bound_notification = update s.tasks.bound_notification tcb ntfn };
  }

unfoldable pub do_unbind_notification : ℕ → ℕ → Cmd Ipc Skip
unfolding bind_tcb
do_unbind_notification tcb ntfn = do bind_tcb ntfn 0; unbind_notification tcb

unfoldable pub safe_unbind_notification : ℕ → Cmd Ipc Skip
unfolding do_unbind_notification
safe_unbind_notification tcb = do
  s ← get
  let ntfn = s.tasks.bound_notification tcb
  if ntfn == 0 then pure tt else do_unbind_notification tcb ntfn
