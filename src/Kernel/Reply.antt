-- ===== src/Kernel/Reply.antt =====
-- Replies: do_reply of sel4_ipc/src/transfer.rs and delete_caller_cap of sel4_task/src/tcb.rs.
use mi_dev_integral_rel.Base.{ℕ, Bool, true, false, none, ◌==◌, if◌then◌else◌}
use mi_dev_integral_rel.Cmd.{Cmd, Skip, ◌>>=◌, ◌>>◌, assert, get}
use mi_dev_integral_rel.Task.{ThreadState, blocked_on_reply, running, restart, inactive}
use mi_dev_integral_rel.Task.Scheduler.{set_thread_state, possible_switch_to}
use mi_dev_integral_rel.Kernel.{Kernel}
use mi_dev_integral_rel.Kernel.Message.{in_threads, tcb_slot, tcb_caller}
use mi_dev_integral_rel.Kernel.Message.Transfer.{do_ipc_transfer, fault_type}
use mi_dev_integral_rel.Kernel.Message.Reply.{do_fault_reply_transfer}
use mi_dev_integral_rel.Kernel.Delete.{delete_one}

unfoldable pub awaits_reply : ThreadState → Bool
awaits_reply blocked_on_reply = true
awaits_reply _ = false

unfoldable pub do_reply : ℕ → ℕ → ℕ → ℕ → Bool → Cmd Kernel Skip
unfolding awaits_reply do_ipc_transfer delete_one do_fault_reply_transfer
do_reply queue self receiver slot grant = do
  k ← get
  assert (awaits_reply (k.ipc.tasks.ts_type receiver))
  if fault_type (k.messages.tcb_fault receiver) == 0
      then (do
        do_ipc_transfer self receiver none 0 grant
        delete_one queue slot
        in_threads (set_thread_state receiver running)
        in_threads (possible_switch_to receiver))
      else (do
        delete_one queue slot
        again ← do_fault_reply_transfer self receiver
        (if again
            then (do
              in_threads (set_thread_state receiver restart)
              in_threads (possible_switch_to receiver))
            else in_threads (set_thread_state receiver inactive)))

unfoldable pub delete_caller_cap : ℕ → ℕ → Cmd Kernel Skip
unfolding tcb_slot delete_one
delete_caller_cap queue self = delete_one queue (tcb_slot self tcb_caller)
