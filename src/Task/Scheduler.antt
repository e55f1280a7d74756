-- ===== src/Task/Scheduler.antt =====
-- The scheduler of sel4_task/src/scheduler.rs, and the operations on threads of sel4_task/src/tcb.rs
-- that it runs or that call it, for one core and on riscv64. The switch of the address space, the call
-- of `set_vm_root` in `switch_to_this`, whose result the source drops, is left out: it writes a register
-- that is not in this memory, and stops the kernel when the thread's page table has no base.
pub mod Choose
pub mod Keep
pub mod Serve
pub mod Steps
pub mod Decide
use mi_dev_integral_rel.Base.{
  ℕ, ◌+◌, ◌-◌, Bool, true, false, not, ◌&&◌, ◌||◌, ltb, leb, ◌==◌, update, if◌then◌else◌,
}
use mi_dev_integral_rel.Cmd.{Cmd, Skip, panic, pure, ◌>>=◌, ◌>>◌, assert, convert, get, modify}
use mi_dev_integral_rel.Task.{
  ThreadState, inactive, running, restart, blocked_on_receive, blocked_on_send, blocked_on_reply,
  blocked_on_notification, idle_thread_state, exited, TcbQueue, Tasks,
}
use mi_dev_integral_rel.Task.Bitmap.{
  index, num_domains, num_priorities, get_highest_prio, is_highest_prio,
}
use mi_dev_integral_rel.Task.ReadyQueue.{
  ready_queues_index, get_sched_queue, sched_enqueue, sched_append, sched_dequeue,
}

-- SchedulerAction_ResumeCurrentThread and SchedulerAction_ChooseNewThread; any other action is the
-- address of a candidate.
abbrev pub resume_current_thread : ℕ
resume_current_thread = 0

abbrev pub choose_new_thread : ℕ
choose_new_thread = 1

-- CONFIG_TIME_SLICE, and `ksDomSchedule`, of one entry.
abbrev pub time_slice_max : ℕ
time_slice_max = 5

abbrev pub dom_schedule_length : ℕ
dom_schedule_length = 1

-- The indices of the registers on riscv64.
abbrev pub fault_ip : ℕ
fault_ip = 33

abbrev pub next_ip : ℕ
next_ip = 34

abbrev pub set_register : ℕ → ℕ → ℕ → Cmd Tasks Skip
set_register t reg w =
    modify λ k. record k { registers = update k.registers t (update (k.registers t) reg w) }

-- `is_stopped` and `is_runnable`, of a thread's state.
abbrev pub stopped : ThreadState → Bool
stopped inactive = true
stopped blocked_on_notification = true
stopped blocked_on_receive = true
stopped blocked_on_reply = true
stopped blocked_on_send = true
stopped _ = false

abbrev pub runnable : ThreadState → Bool
runnable running = true
runnable restart = true
runnable _ = false

abbrev pub is_running : ThreadState → Bool
is_running running = true
is_running _ = false

abbrev pub set_action : ℕ → Cmd Tasks Skip
set_action action = modify (λ k. record k { scheduler_action = action })

unfoldable pub reschedule_required : Cmd Tasks Skip
reschedule_required = do
  k ← get
  let action = k.scheduler_action
  (if not (action == resume_current_thread) && not (action == choose_new_thread)
      then (do convert action; sched_enqueue action)
      else pure tt)
  set_action choose_new_thread

unfoldable pub schedule_tcb : ℕ → Cmd Tasks Skip
schedule_tcb t = do
  k ← get
  if (t == k.cur_thread)
        && (k.scheduler_action == resume_current_thread)
        && not (runnable (k.ts_type t))
      then reschedule_required
      else pure tt

unfoldable pub set_thread_state : ℕ → ThreadState → Cmd Tasks Skip
set_thread_state t state = do
  modify (λ k. record k { ts_type = update k.ts_type t state })
  schedule_tcb t

unfoldable pub possible_switch_to : ℕ → Cmd Tasks Skip
possible_switch_to target = do
  k ← get
  if not (k.cur_domain == k.domain target)
      then sched_enqueue target
      else if not (k.scheduler_action == resume_current_thread)
      then (do reschedule_required; sched_enqueue target)
      else set_action target

-- But for `set_vm_root`.
unfoldable pub switch_to_this : ℕ → Cmd Tasks Skip
switch_to_this t = do sched_dequeue t; modify (λ k. record k { cur_thread = t })

unfoldable pub next_domain : Cmd Tasks Skip
next_domain = modify λ k.
    let idx =
      if leb dom_schedule_length (k.dom_schedule_idx + 1) then 0 else k.dom_schedule_idx + 1 in
    record k { dom_schedule_idx = idx; work_units_completed = 0; cur_domain = 0; domain_time = 60 }

unfoldable pub choose_thread : Cmd Tasks Skip
choose_thread = do
  k ← get
  if not (k.l1_bitmap 0 == 0)
      then (do
        prio ← get_highest_prio 0
        get_sched_queue (ready_queues_index 0 prio)
        let thread = (k.ready_queues (ready_queues_index 0 prio)).head
        convert thread
        switch_to_this thread)
      else (do convert k.idle_thread; switch_to_this k.idle_thread)

unfoldable pub schedule_choose_new_thread : Cmd Tasks Skip
schedule_choose_new_thread = do
  k ← get
  (if k.domain_time == 0 then next_domain else pure tt)
  choose_thread

-- The branch of `schedule` on a candidate.
schedule_candidate : Bool → ℕ → Cmd Tasks Skip
schedule_candidate was_runnable candidate = do
  convert candidate
  k ← get
  convert k.cur_thread
  convert k.idle_thread
  let fastfail =
      (k.cur_thread == k.idle_thread) || ltb (k.priority candidate) (k.priority k.cur_thread)
  highest ← (if fastfail then is_highest_prio k.cur_domain (k.priority candidate) else pure true)
  if fastfail && not highest
      then (do sched_enqueue candidate; set_action choose_new_thread; schedule_choose_new_thread)
      else if was_runnable && (k.priority candidate == k.priority k.cur_thread)
      then (do sched_append candidate; set_action choose_new_thread; schedule_choose_new_thread)
      else switch_to_this candidate

unfoldable pub schedule : Cmd Tasks Skip
unfolding schedule_candidate
schedule = do
  k ← get
  (if k.scheduler_action == resume_current_thread then pure tt else do
    convert k.cur_thread
    let was_runnable = runnable (k.ts_type k.cur_thread)
    (if was_runnable then sched_enqueue k.cur_thread else pure tt)
    k ← get
    if k.scheduler_action == choose_new_thread
        then schedule_choose_new_thread
        else schedule_candidate was_runnable k.scheduler_action)
  set_action resume_current_thread

unfoldable pub timer_tick : Cmd Tasks Skip
timer_tick = do
  k ← get
  convert k.cur_thread
  let t = k.cur_thread
  if not (is_running (k.ts_type t))
      then pure tt
      else if ltb 1 (k.time_slice t)
      then modify (λ k. record k { time_slice = update k.time_slice t (k.time_slice t - 1) })
      else (do
        modify (λ k. record k { time_slice = update k.time_slice t time_slice_max })
        sched_append t
        reschedule_required)

-- The branches of `activateThread` on the state of the current thread.
activate : ThreadState → ℕ → Cmd Tasks Skip
activate running t = pure tt
activate restart t = do
  k ← get
  set_register t next_ip (k.registers t fault_ip)
  set_thread_state t running
activate idle_thread_state t = pure tt
activate _ t = λ k. panic

unfoldable pub activate_thread : Cmd Tasks Skip
unfolding activate
activate_thread = do k ← get; convert k.cur_thread; activate (k.ts_type k.cur_thread) k.cur_thread

unfoldable pub set_priority : ℕ → ℕ → Cmd Tasks Skip
set_priority t priority = do
  sched_dequeue t
  modify (λ k. record k { priority = update k.priority t priority })
  k ← get
  if not (runnable (k.ts_type t)) then pure tt else do
    convert k.cur_thread
    if t == k.cur_thread then reschedule_required else possible_switch_to t

unfoldable pub set_domain : ℕ → ℕ → Cmd Tasks Skip
set_domain t dom = do
  sched_dequeue t
  modify (λ k. record k { domain = update k.domain t dom })
  k ← get
  (if runnable (k.ts_type t) then sched_enqueue t else pure tt)
  k ← get
  convert k.cur_thread
  if t == k.cur_thread then reschedule_required else pure tt

unfoldable pub suspend : ℕ → Cmd Tasks Skip
suspend t = do
  k ← get
  (if is_running (k.ts_type t) then set_register t fault_ip (k.registers t fault_ip) else pure tt)
  set_thread_state t inactive
  sched_dequeue t
