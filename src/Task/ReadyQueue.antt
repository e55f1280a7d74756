-- ===== src/Task/ReadyQueue.antt =====
-- The ready queues of sel4_task: `sched_enqueue`, `sched_append` and `sched_dequeue` of tcb.rs, and
-- `ready_queues_index` of scheduler.rs.
pub mod Ready
pub mod Dequeue
pub mod Remove
pub mod Enqueue
use mi_dev_integral_rel.Base.{ℕ, ◌+◌, ◌*◌, ◌==◌, not, update, if◌then◌else◌}
use mi_dev_integral_rel.Cmd.{Cmd, Skip, pure, ◌>>=◌, ◌>>◌, convert, get, modify}
use mi_dev_integral_rel.Task.{TcbQueue, Tasks}
use mi_dev_integral_rel.Task.Bitmap.{
  num_domains, num_priorities, index, add_to_bitmap, remove_from_bitmap,
}

abbrev pub ready_queues_index : ℕ → ℕ → ℕ
ready_queues_index dom prio = dom * num_priorities + prio

-- The bounds check of `ksReadyQueues[index]`, of NUM_READY_QUEUES queues.
abbrev pub get_sched_queue : ℕ → Cmd Tasks Skip
get_sched_queue idx = index idx (num_domains * num_priorities)

abbrev set_next : ℕ → ℕ → Cmd Tasks Skip
set_next p v = modify (λ k. record k { sched_next = update k.sched_next p v })

abbrev set_prev : ℕ → ℕ → Cmd Tasks Skip
set_prev p v = modify (λ k. record k { sched_prev = update k.sched_prev p v })

abbrev set_queued : ℕ → ℕ → Cmd Tasks Skip
set_queued p v = modify (λ k. record k { tcb_queued = update k.tcb_queued p v })

abbrev set_head : ℕ → ℕ → Cmd Tasks Skip
set_head i v = modify λ k. record k {
  ready_queues = update k.ready_queues i (record (k.ready_queues i) { head = v });
}

abbrev set_tail : ℕ → ℕ → Cmd Tasks Skip
set_tail i v = modify λ k. record k {
  ready_queues = update k.ready_queues i (record (k.ready_queues i) { tail = v });
}

-- The end of both ways to enqueue.
link_last : ℕ → ℕ → Cmd Tasks Skip
link_last self idx = do
  k ← get
  set_prev self (k.ready_queues idx).tail
  set_next self 0
  set_tail idx self
  set_queued self 1

unfoldable pub sched_enqueue : ℕ → Cmd Tasks Skip
unfolding link_last
sched_enqueue self = do
  k ← get
  if not (k.tcb_queued self == 0) then pure tt else do
    let dom = k.domain self
    let prio = k.priority self
    let idx = ready_queues_index dom prio
    get_sched_queue idx
    let queue = k.ready_queues idx
    (if queue.tail == 0
        then (do set_head idx self; add_to_bitmap dom prio)
        else (do convert queue.tail; set_next queue.tail self))
    link_last self idx

unfoldable pub sched_append : ℕ → Cmd Tasks Skip
unfolding link_last
sched_append self = do
  k ← get
  if not (k.tcb_queued self == 0) then pure tt else do
    let dom = k.domain self
    let prio = k.priority self
    let idx = ready_queues_index dom prio
    get_sched_queue idx
    let queue = k.ready_queues idx
    (if queue.head == 0
        then (do set_head idx self; add_to_bitmap dom prio)
        else (do convert queue.tail; set_next queue.tail self))
    link_last self idx

unfoldable pub sched_dequeue : ℕ → Cmd Tasks Skip
sched_dequeue self = do
  k ← get
  if k.tcb_queued self == 0 then pure tt else do
    let dom = k.domain self
    let prio = k.priority self
    let idx = ready_queues_index dom prio
    get_sched_queue idx
    (if not (k.sched_prev self == 0)
        then (do convert (k.sched_prev self); set_next (k.sched_prev self) (k.sched_next self))
        else (do
          set_head idx (k.sched_next self)
          if k.sched_next self == 0 then remove_from_bitmap dom prio else pure tt))
    k ← get
    (if not (k.sched_next self == 0)
        then (do convert (k.sched_next self); set_prev (k.sched_next self) (k.sched_prev self))
        else set_tail idx (k.sched_prev self))
    set_queued self 0
