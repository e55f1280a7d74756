-- ===== src/Kernel/Exchange.antt =====
-- Sending to and receiving from an endpoint: `send_ipc` and `receive_ipc` of sel4_ipc/src/endpoint.rs.
mod Tests
pub mod Waiting
use mi_dev_integral_rel.Base.{ℕ, Bool, not, ◌||◌, ◌==◌, some, update, if◌then◌else◌}
use mi_dev_integral_rel.Cmd.{Cmd, Skip, pure, ◌>>=◌, ◌>>◌, assert, get, modify}
use mi_dev_integral_rel.Task.{inactive, running, blocked_on_send, blocked_on_receive}
use mi_dev_integral_rel.Task.EpQueue.{ep_append, ep_dequeue, empty}
use mi_dev_integral_rel.Task.Scheduler.{set_thread_state, schedule_tcb, possible_switch_to}
use mi_dev_integral_rel.Ipc.{Ipc, EpState, ep_idle, ep_send, ep_recv, in_tasks, set_badge}
use mi_dev_integral_rel.Ipc.Endpoint.{set_state, set_queue}
use mi_dev_integral_rel.Ipc.Notification.{complete_signal}
use mi_dev_integral_rel.Kernel.{Kernel, in_ipc}
use mi_dev_integral_rel.Kernel.Message.{in_threads, setup_caller_cap}
use mi_dev_integral_rel.Kernel.Message.Transfer.{do_ipc_transfer}

abbrev pub bit : Bool → ℕ
bit b = if b then 1 else 0

-- A thread that waits at the endpoint stands at the end of its queue, which has the given state.
unfoldable pub wait_at : ℕ → ℕ → EpState → Cmd Ipc Skip
wait_at ep thread state = do
  s ← get
  queue ← in_tasks (ep_append (s.ep_queue ep) thread)
  set_state ep state
  set_queue ep queue

-- The blocking branch of `send_ipc`, and that of `receive_ipc`, which sets the queue's state likewise.
unfoldable pub block_send : ℕ → ℕ → Bool → Bool → ℕ → Bool → Cmd Ipc Skip
unfolding wait_at
block_send ep src_thread do_call can_grant badge can_grant_reply = do
  modify λ s. record s {
    tasks = record s.tasks {
      ts_type = update s.tasks.ts_type src_thread blocked_on_send;
      blocking_object = update s.tasks.blocking_object src_thread ep;
      blocking_ipc_can_grant = update s.tasks.blocking_ipc_can_grant src_thread (bit can_grant);
      blocking_ipc_badge = update s.tasks.blocking_ipc_badge src_thread badge;
      blocking_ipc_can_grant_reply =
          update s.tasks.blocking_ipc_can_grant_reply src_thread (bit can_grant_reply);
      blocking_ipc_is_call = update s.tasks.blocking_ipc_is_call src_thread (bit do_call);
    };
  }
  in_tasks (schedule_tcb src_thread)
  wait_at ep src_thread ep_send

unfoldable pub block_receive : ℕ → ℕ → Bool → Cmd Ipc Skip
unfolding wait_at
block_receive ep thread grant = do
  modify λ s. record s {
    tasks = record s.tasks {
      blocking_object = update s.tasks.blocking_object thread ep;
      blocking_ipc_can_grant = update s.tasks.blocking_ipc_can_grant thread (bit grant);
    };
  }
  in_tasks (set_thread_state thread blocked_on_receive)
  wait_at ep thread ep_recv

-- The first thread of the endpoint's queue, taken off it; the endpoint is idle after the last.
unfoldable pub take_first : ℕ → Cmd Ipc ℕ
take_first ep = do
  s ← get
  let first = (s.ep_queue ep).head
  assert (not (first == 0))
  queue ← in_tasks (ep_dequeue (s.ep_queue ep) first)
  set_queue ep queue
  (if empty queue then set_state ep ep_idle else pure tt)
  pure first

-- What becomes of a thread that called: it waits for the reply, if that may be granted.
unfoldable pub await_reply : ℕ → ℕ → Bool → Bool → Bool → Cmd Kernel Skip
unfolding setup_caller_cap
await_reply callee caller can_grant can_grant_reply reply_can_grant =
    if can_grant || can_grant_reply
    then setup_caller_cap callee caller reply_can_grant
    else in_threads (set_thread_state caller inactive)

-- The match of `send_ipc` on the endpoint's state.
unfoldable pub send_at : EpState → ℕ → ℕ → Bool → Bool → Bool → ℕ → Bool → Cmd Kernel Skip
unfolding block_send take_first do_ipc_transfer await_reply
send_at ep_recv ep src_thread blocking do_call can_grant badge can_grant_reply = do
  dest_thread ← in_ipc (take_first ep)
  do_ipc_transfer src_thread dest_thread (some ep) badge can_grant
  k ← get
  let reply_can_grant = not (k.ipc.tasks.blocking_ipc_can_grant dest_thread == 0)
  in_threads (set_thread_state dest_thread running)
  in_threads (possible_switch_to dest_thread)
  (if do_call
      then await_reply dest_thread src_thread can_grant can_grant_reply reply_can_grant
      else pure tt)
send_at state ep src_thread blocking do_call can_grant badge can_grant_reply =
    if blocking
    then in_ipc (block_send ep src_thread do_call can_grant badge can_grant_reply)
    else pure tt

unfoldable pub send_ipc : ℕ → ℕ → Bool → Bool → Bool → ℕ → Bool → Cmd Kernel Skip
unfolding send_at
send_ipc ep src_thread blocking do_call can_grant badge can_grant_reply = do
  k ← get
  send_at (k.ipc.ep_state ep) ep src_thread blocking do_call can_grant badge can_grant_reply

-- The match of `receive_ipc` on the endpoint's state.
unfoldable pub receive_at : EpState → ℕ → ℕ → Bool → Bool → Cmd Kernel Skip
unfolding block_receive take_first do_ipc_transfer await_reply
receive_at ep_send ep thread is_blocking grant = do
  sender ← in_ipc (take_first ep)
  k ← get
  let badge = k.ipc.tasks.blocking_ipc_badge sender
  let can_grant = not (k.ipc.tasks.blocking_ipc_can_grant sender == 0)
  let can_grant_reply = not (k.ipc.tasks.blocking_ipc_can_grant_reply sender == 0)
  do_ipc_transfer sender thread (some ep) badge can_grant
  k1 ← get
  (if not (k1.ipc.tasks.blocking_ipc_is_call sender == 0)
      then await_reply thread sender can_grant can_grant_reply grant
      else (do
        in_threads (set_thread_state sender running)
        in_threads (possible_switch_to sender)))
receive_at state ep thread is_blocking grant =
    if is_blocking then in_ipc (block_receive ep thread grant) else in_ipc (set_badge thread 0)

unfoldable pub receive_ipc : ℕ → ℕ → Bool → Bool → Cmd Kernel Skip
unfolding complete_signal receive_at
receive_ipc ep thread is_blocking grant = do
  completed ← in_ipc (complete_signal thread)
  k ← get
  if completed then pure tt else receive_at (k.ipc.ep_state ep) ep thread is_blocking grant
