-- ===== src/Ipc.antt =====
-- sel4_ipc: the memory of endpoints and notifications, beside that of the threads. Memory is kept by
-- field: `f s p` is the field `f` of the endpoint or notification at address `p`.
pub mod Endpoint
pub mod Notification
mod Tests
use mi_dev_integral_rel.Base.{ℕ, zero, suc, update, ◌==◌, if◌then◌else◌}
use mi_dev_integral_rel.Cmd.{Run, ok, panic, Cmd, Skip, pure, get, modify, ◌>>=◌, ◌>>◌}
use mi_dev_integral_rel.Task.{Tasks, TcbQueue, restart}
use mi_dev_integral_rel.Task.ReadyQueue.{sched_enqueue}
use mi_dev_integral_rel.Task.Scheduler.{set_register, set_thread_state}

-- `EPState` and `NtfnState`.
pub data EpState : Type 0 where
  ep_idle ep_send ep_recv : EpState

pub data NtfnState : Type 0 where
  ntfn_idle ntfn_waiting ntfn_active : NtfnState

pub record Ipc : Type 0 where
  pub tasks : Tasks
  pub ep_state : ℕ → EpState
  pub ep_queue : ℕ → TcbQueue
  pub ntfn_state : ℕ → NtfnState
  pub ntfn_queue : ℕ → TcbQueue
  pub msg_identifier : ℕ → ℕ
  pub bound_tcb : ℕ → ℕ

-- A command on the threads, as one on the whole memory.
abbrev pub of_run : {A : Type 0} → Ipc → Run Tasks A → Run Ipc A
of_run s (ok a k) = ok a (record s { tasks = k })
of_run s panic = panic

abbrev pub in_tasks : {A : Type 0} → Cmd Tasks A → Cmd Ipc A
in_tasks m s = of_run s (m s.tasks)

-- The register that a badge is delivered in, on riscv64.
abbrev pub badge_register : ℕ
badge_register = 9

abbrev pub set_badge : ℕ → ℕ → Cmd Ipc Skip
set_badge t badge = in_tasks (set_register t badge_register badge)

-- The loop of `cancel_all_ipc` and `cacncel_all_signal` over the threads of a queue that has been
-- taken off its object. It panics when its fuel, the most threads it visits, runs out.
unfoldable pub restart_all : ℕ → ℕ → Cmd Ipc Skip
restart_all zero thread = λ s. if thread == 0 then ok tt s else panic
restart_all (suc fuel) thread = if thread == 0 then pure tt else (do
  in_tasks (set_thread_state thread restart)
  in_tasks (sched_enqueue thread)
  s ← get
  restart_all fuel (s.tasks.ep_next thread))
