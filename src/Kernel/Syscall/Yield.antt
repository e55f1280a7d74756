-- ===== src/Kernel/Syscall/Yield.antt =====
-- The system call Yield: handle_yield of kernel/src/syscall/mod.rs.
use mi_dev_integral_rel.Base.{◌≡◌, refl}
use mi_dev_integral_rel.Cmd.{Run, ok, panic}
use mi_dev_integral_rel.Cmd.Returns
use mi_dev_integral_rel.Cmd.Returns.{Returns, returns, mono}
use mi_dev_integral_rel.Task.{Tasks}
use mi_dev_integral_rel.Task.Scheduler.Keep.{IsSched, dequeue_keeps, append_keeps}
use mi_dev_integral_rel.Task.Scheduler.Steps.{reschedule_keeps}
use mi_dev_integral_rel.Ipc.{of_run}
use mi_dev_integral_rel.Kernel.{Kernel, of_ipc}
use mi_dev_integral_rel.Kernel.Syscall.{handle_yield}

-- A command on the threads alone.
of_threads-Returns :
    {A : Type 0} {P : A → Tasks → Type 0} (k : Kernel) (r : Run Tasks A)
    → Returns P r
    → Returns (λ a k'. P a k'.ipc.tasks × (k'.slots ≡ k.slots)) (of_ipc k (of_run k.ipc r))
of_threads-Returns k (ok a t) (returns p) = returns (p, refl)
of_threads-Returns k panic r = elim r [ ]

-- On well-formed memory, Yield returns with the threads well formed, the choice of a new thread asked
-- for, and the slots as they were.
pub handle_yield-IsSched :
    (k : Kernel)
    → IsSched k.ipc.tasks
    → Returns
        (λ _ k'.
          (IsSched k'.ipc.tasks × (k'.ipc.tasks.scheduler_action ≡ 1)) × (k'.slots ≡ k.slots))
        (handle_yield k)
unfolding handle_yield
handle_yield-IsSched k is =
    let t = k.ipc.tasks in
    of_threads-Returns k _ (
      Returns.bind (dequeue_keeps t is t.cur_thread) λ _ t1 (is1, same).
        Returns.bind (append_keeps t1 is1 t1.cur_thread is1.cur_thread)
          λ _ t2 (is2, same2). reschedule_keeps t2 is2)
