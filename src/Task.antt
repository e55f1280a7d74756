-- ===== src/Task.antt =====
-- sel4_task: the memory of threads and scheduler, and their operations in the child modules.
-- Memory is kept by field: `f k p` is the field `f` of the `tcb_t` at address `p`.
pub mod Bitmap
pub mod EpQueue
pub mod ReadyQueue
pub mod Refine
pub mod Scheduler
pub mod Tests
use mi_dev_integral_rel.Base.{ℕ, Bool, true, false, ◌==◌, if◌then◌else◌}

-- `ThreadState` of sel4_task/src/thread_state.rs.
pub data ThreadState : Type 0 where
  inactive running restart blocked_on_receive blocked_on_send blocked_on_reply : ThreadState
  blocked_on_notification idle_thread_state exited : ThreadState

-- `tcb_queue_t`
pub record TcbQueue : Type 0 where
  pub head : ℕ
  pub tail : ℕ

-- The fields of every `tcb_t`, with the bit fields of its `thread_state_t` (a one-bit field is 0 or
-- 1) and the registers by index, and the scheduler's globals.
pub record Tasks : Type 0 where
  pub registers : ℕ → ℕ → ℕ
  pub ts_type : ℕ → ThreadState
  pub blocking_object : ℕ → ℕ
  pub blocking_ipc_badge : ℕ → ℕ
  pub blocking_ipc_can_grant : ℕ → ℕ
  pub blocking_ipc_can_grant_reply : ℕ → ℕ
  pub blocking_ipc_is_call : ℕ → ℕ
  pub tcb_queued : ℕ → ℕ
  pub bound_notification : ℕ → ℕ
  pub domain : ℕ → ℕ
  pub mcp : ℕ → ℕ
  pub priority : ℕ → ℕ
  pub time_slice : ℕ → ℕ
  pub sched_next : ℕ → ℕ
  pub sched_prev : ℕ → ℕ
  pub ep_next : ℕ → ℕ
  pub ep_prev : ℕ → ℕ
  pub ready_queues : ℕ → TcbQueue
  pub l1_bitmap : ℕ → ℕ
  pub l2_bitmap : ℕ → ℕ → ℕ
  pub cur_thread : ℕ
  pub idle_thread : ℕ
  pub scheduler_action : ℕ
  pub cur_domain : ℕ
  pub domain_time : ℕ
  pub dom_schedule_idx : ℕ
  pub work_units_completed : ℕ
