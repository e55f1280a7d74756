-- ===== src/Kernel/Thread.antt =====
-- Threads with their slots: setup_reply_master and restart of sel4_task/src/tcb.rs.
use mi_dev_integral_rel.Base.{ℕ, update, ◌==◌, if◌then◌else◌}
use mi_dev_integral_rel.Cmd.{Cmd, Skip, pure, ◌>>=◌, ◌>>◌, get, modify}
use mi_dev_integral_rel.Task.{restart}
use mi_dev_integral_rel.Task.ReadyQueue.{sched_enqueue}
use mi_dev_integral_rel.Task.Scheduler.{stopped, set_thread_state, possible_switch_to}
use mi_dev_integral_rel.Cspace.{CSpace, reply, get_cap_type}
use mi_dev_integral_rel.Kernel.{Kernel, in_slots}
use mi_dev_integral_rel.Kernel.Message.{in_threads, tcb_slot, tcb_reply}

unfoldable pub set_mcp_priority : ℕ → ℕ → Cmd Kernel Skip
set_mcp_priority t prio = in_threads (modify λ k. record k { mcp = update k.mcp t prio })

-- A slot that becomes the master of the replies to a thread, outside every derivation list.
abbrev master_slot : ℕ → ℕ → Cmd CSpace Skip
master_slot slot t = modify λ c. record c {
  cap = update c.cap slot (reply 1 1 t);
  mdb_next = update c.mdb_next slot 0;
  mdb_prev = update c.mdb_prev slot 0;
  mdb_revocable = update c.mdb_revocable slot 1;
  mdb_first_badged = update c.mdb_first_badged slot 1;
}

unfoldable pub setup_reply_master : ℕ → Cmd Kernel Skip
unfolding tcb_slot
setup_reply_master t = do
  k ← get
  let slot = tcb_slot t tcb_reply
  if get_cap_type (k.slots.cap slot) == 0 then in_slots (master_slot slot t) else pure tt

unfoldable pub restart_thread : ℕ → Cmd Kernel Skip
unfolding setup_reply_master
restart_thread t = do
  k ← get
  if stopped (k.ipc.tasks.ts_type t)
      then (do
        setup_reply_master t
        in_threads (set_thread_state t restart)
        in_threads (sched_enqueue t)
        in_threads (possible_switch_to t))
      else pure tt
