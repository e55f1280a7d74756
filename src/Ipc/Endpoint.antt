-- ===== src/Ipc/Endpoint.antt =====
-- Endpoints: what sel4_ipc/src/endpoint.rs does to cancel messages. The address of the endpoint is
-- the first argument.
use mi_dev_integral_rel.Base.{ℕ, zero, suc, not, update, ◌==◌, if◌then◌else◌}
use mi_dev_integral_rel.Cmd.{ok, panic, Cmd, Skip, pure, get, modify, ◌>>=◌, ◌>>◌}
use mi_dev_integral_rel.Task.{TcbQueue, inactive, restart}
use mi_dev_integral_rel.Task.EpQueue.{ep_dequeue}
use mi_dev_integral_rel.Task.ReadyQueue.{sched_enqueue}
use mi_dev_integral_rel.Task.Scheduler.{set_thread_state, reschedule_required}
use mi_dev_integral_rel.Ipc.{EpState, ep_idle, ep_send, Ipc, in_tasks, restart_all}

abbrev pub set_state : ℕ → EpState → Cmd Ipc Skip
set_state ep state = modify (λ s. record s { ep_state = update s.ep_state ep state })

abbrev pub set_queue : ℕ → TcbQueue → Cmd Ipc Skip
set_queue ep queue = modify (λ s. record s { ep_queue = update s.ep_queue ep queue })

unfoldable pub cancel_ipc : ℕ → ℕ → Cmd Ipc Skip
cancel_ipc ep tcb = do
  s ← get
  queue ← in_tasks (ep_dequeue (s.ep_queue ep) tcb)
  set_queue ep queue
  (if queue.head == 0 then set_state ep ep_idle else pure tt)
  in_tasks (set_thread_state tcb inactive)

abbrev empty_queue : TcbQueue
empty_queue = record { head = 0; tail = 0 }

cancel_all : ℕ → EpState → ℕ → Cmd Ipc Skip
unfolding restart_all
cancel_all fuel ep_idle ep = pure tt
cancel_all fuel _ ep = do
  s ← get
  set_state ep ep_idle
  set_queue ep empty_queue
  restart_all fuel (s.ep_queue ep).head
  in_tasks reschedule_required

unfoldable pub cancel_all_ipc : ℕ → ℕ → Cmd Ipc Skip
unfolding cancel_all
cancel_all_ipc fuel ep = do s ← get; cancel_all fuel (s.ep_state ep) ep

-- The loop of `cancel_badged_sends`, which returns the queue that is left.
unfoldable pub restart_badged : ℕ → ℕ → TcbQueue → ℕ → Cmd Ipc TcbQueue
restart_badged zero badge queue thread_ptr = λ s. if thread_ptr == 0 then ok queue s else panic
restart_badged (suc fuel) badge queue thread = if thread == 0 then pure queue else (do
  s ← get
  let next = s.tasks.ep_next thread
  if s.tasks.blocking_ipc_badge thread == badge
      then (do
        in_tasks (set_thread_state thread restart)
        in_tasks (sched_enqueue thread)
        rest ← in_tasks (ep_dequeue queue thread)
        restart_badged fuel badge rest next)
      else restart_badged fuel badge queue next)

cancel_badged : ℕ → EpState → ℕ → ℕ → Cmd Ipc Skip
unfolding restart_badged
cancel_badged fuel ep_send ep badge = do
  s ← get
  let queue = s.ep_queue ep
  set_state ep ep_idle
  set_queue ep empty_queue
  rest ← restart_badged fuel badge queue queue.head
  set_queue ep rest
  (if not (rest.head == 0) then set_state ep ep_send else pure tt)
  in_tasks reschedule_required
cancel_badged fuel _ ep badge = pure tt

unfoldable pub cancel_badged_sends : ℕ → ℕ → ℕ → Cmd Ipc Skip
unfolding cancel_badged
cancel_badged_sends fuel ep badge = do s ← get; cancel_badged fuel (s.ep_state ep) ep badge
