-- ===== src/Task/Tests.antt =====
-- The theorems on sel4_task at concrete threads and queues.
use mi_dev_integral_rel.Base.{
  ℕ, ◌≡◌, ◌≢◌, refl, List, [], ◌∷◌, ◌++◌, ◌<◌, arith, ◌==◌, if◌then◌else◌,
}
use mi_dev_integral_rel.Bits.{test_bit-zero, set_bit}
use mi_dev_integral_rel.Cmd.{Run, ok, panic, Skip}
use mi_dev_integral_rel.Cmd.Returns.{Returns, returns}
use mi_dev_integral_rel.Task.{running, TcbQueue, Tasks}
use mi_dev_integral_rel.Task.Bitmap.{add_to_bitmap}
use mi_dev_integral_rel.Task.EpQueue.Order.{IsQueue}
use mi_dev_integral_rel.Task.Refine.{
  Request, enqueue, choose, run, abstract_run, abstract_enqueue, take_best, pick, proper, choices,
  Represents, enqueue_step, run-abstract_run, run-choices,
}
use mi_dev_integral_rel.Task.ReadyQueue.{sched_enqueue, sched_append, sched_dequeue}
use mi_dev_integral_rel.Task.ReadyQueue.Ready.{IsReady}
use mi_dev_integral_rel.Task.ReadyQueue.Enqueue.{
  snoc, Enqueued, sched_enqueue-snoc, sched_append-sched_enqueue,
}
use mi_dev_integral_rel.Task.ReadyQueue.Dequeue.{without, Dequeued}
use mi_dev_integral_rel.Task.ReadyQueue.Remove.{sched_dequeue-without}
use mi_dev_integral_rel.Task.Scheduler.{choose_thread, schedule, timer_tick}
use mi_dev_integral_rel.Task.Scheduler.Keep.{IsSched}
use mi_dev_integral_rel.Task.Scheduler.Steps.{acted, timer_tick-Ticked, Ticked}
use mi_dev_integral_rel.Task.Scheduler.Decide.{schedule-Decided, Decided}
use mi_dev_integral_rel.Task.Scheduler.Choose.{IsChosen, choose_thread-IsChosen}

abbrev zeros : ℕ → ℕ
zeros p = 0

-- Every thread runs at priority 200; no thread is queued; 8192 is the idle thread.
abbrev pub quiet : Tasks
quiet = record {
  registers = λ t. zeros;
  ts_type = λ t. running;
  blocking_object = zeros;
  blocking_ipc_badge = zeros;
  blocking_ipc_can_grant = zeros;
  blocking_ipc_can_grant_reply = zeros;
  blocking_ipc_is_call = zeros;
  tcb_queued = zeros;
  bound_notification = zeros;
  domain = zeros;
  mcp = zeros;
  priority = λ t. 200;
  time_slice = zeros;
  sched_next = zeros;
  sched_prev = zeros;
  ep_next = zeros;
  ep_prev = zeros;
  ready_queues = λ p. record { head = 0; tail = 0 };
  l1_bitmap = zeros;
  l2_bitmap = λ d. zeros;
  cur_thread = 4096;
  idle_thread = 8192;
  scheduler_action = 0;
  cur_domain = 0;
  domain_time = 60;
  dom_schedule_idx = 0;
  work_units_completed = 0;
}

abbrev no_lists : ℕ → List ℕ
no_lists p = []

quiet-IsReady : IsReady quiet no_lists
quiet-IsReady = record {
  queues = λ p h. record { seg = (refl, refl); distinct = tt };
  members = λ p t h i. absurd (cc);
  queued = λ t ne. absurd (ne refl);
  bitmap = record {
    l1_bound = omega arith;
    l2_bound = λ j. omega arith;
    level1 = λ i h. ground (arith, test_bit-zero i);
    level2 = λ i j h h'. test_bit-zero j;
  };
}

-- The memory that a command leaves.
abbrev memory : Run Tasks Skip → Tasks
memory (ok a k) = k
memory panic = quiet

memory-Returns : {P : Skip → Tasks → Type 0} {r : Run Tasks Skip} → Returns P r → P tt (memory r)
memory-Returns (returns p) = p

sched_enqueue-snoc_example :
    Returns
      (λ _ k'. IsReady k' (snoc quiet no_lists 4096) × Enqueued quiet 4096 k')
      (sched_enqueue 4096 quiet)
sched_enqueue-snoc_example =
    sched_enqueue-snoc quiet no_lists quiet-IsReady 4096 (omega arith) refl (omega arith) refl

sched_append-sched_enqueue_example : sched_append 4096 quiet ≡ sched_enqueue 4096 quiet
sched_append-sched_enqueue_example =
    sched_append-sched_enqueue quiet no_lists 4096 quiet-IsReady (omega arith) refl

-- Memory once 4096 is enqueued.
abbrev pub one : Tasks
one = memory (sched_enqueue 4096 quiet)

abbrev one_list : ℕ → List ℕ
one_list = snoc quiet no_lists 4096

one-IsReady : IsReady one one_list
one-IsReady =
    (memory-Returns (
      sched_enqueue-snoc quiet no_lists quiet-IsReady 4096 (omega arith) refl (omega arith) refl)).0

one_facts :
    (one.tcb_queued 4096 ≡ 1)
    × (one.priority 4096 ≡ 200)
    × (one.domain 4096 ≡ 0)
    × (one.idle_thread ≡ 8192)
    × (one.l1_bitmap 0 ≡ 8)
unfolding sched_enqueue add_to_bitmap set_bit
one_facts = (refl, refl, refl, refl, refl)

one_small : one.priority 4096 < 256
one_small = rw (one_facts.1) (omega arith)

one_queued : one.tcb_queued 4096 ≢ 0
one_queued = rw (one_facts.0) (λ e. omega arith)

one_listed : one_list (one.priority 4096) ≡ [] ++ 4096 ∷ []
one_listed = rw (one_facts.1) refl

sched_dequeue-without_example :
    Returns
      (λ _ k'. IsReady k' (without one one_list 4096 [] []) × Dequeued one 4096 k')
      (sched_dequeue 4096 one)
sched_dequeue-without_example =
    sched_dequeue-without one one_list one-IsReady 4096 [] [] one_small (one_facts.2) one_queued
      one_listed

one_idle : one.idle_thread ≢ 0
one_idle = rw (one_facts.3) (λ e. omega arith)

choose_thread-IsChosen_example : Returns (λ _ k'. IsChosen one one_list k') (choose_thread one)
choose_thread-IsChosen_example = choose_thread-IsChosen one one_list one-IsReady one_idle

one_l1 : one.l1_bitmap 0 ≢ 0
one_l1 = rw (one_facts.4) (λ e. omega arith)

abbrev pub no_queue : TcbQueue
no_queue = record { head = 0; tail = 0 }

-- Two threads wait.
abbrev pub waiting : Tasks
waiting = record quiet {
  ep_next = λ t. if t == 4096 then 8192 else 0;
  ep_prev = λ t. if t == 8192 then 4096 else 0;
}

abbrev pub two_queue : TcbQueue
two_queue = record { head = 4096; tail = 8192 }

pub two_queue-IsQueue : IsQueue waiting two_queue (4096 ∷ 8192 ∷ [])
two_queue-IsQueue = record {
  seg = (refl, (λ e. omega arith), refl, (refl, (λ e. omega arith), refl, (refl, refl)));
  distinct = (refl, (refl, tt));
}

one_threads :
    ((t : ℕ) → one.priority t ≡ 200)
    × ((t : ℕ) → one.domain t ≡ 0)
    × (one.cur_thread ≡ 4096)
    × (one.cur_domain ≡ 0)
unfolding sched_enqueue add_to_bitmap
one_threads = (λ t. refl, λ t. refl, refl, refl)

pub one-IsSched : IsSched one
one-IsSched = record {
  lists = one_list;
  ready = one-IsReady;
  priorities = λ t. rw (one_threads.0 t) (omega arith);
  domains = one_threads.1;
  idle_thread = one_idle;
  cur_thread = rw (one_threads.2) (λ e. omega arith);
  cur_domain = one_threads.3;
}

-- The next thread is to be chosen.
abbrev due : Tasks
due = record one { scheduler_action = 1 }

due-IsSched : IsSched due
due-IsSched = acted one one-IsSched 1

schedule-Decided_example :
    Returns (λ _ k'. IsSched k' × (k'.scheduler_action ≡ 0) × Decided due k') (schedule due)
schedule-Decided_example = schedule-Decided due due-IsSched

timer_tick-Ticked_example : Returns (λ _ k'. IsSched k' × Ticked due k') (timer_tick due)
timer_tick-Ticked_example = timer_tick-Ticked due due-IsSched

quiet-Represents : Represents quiet.priority 8192 no_lists quiet
quiet-Represents = record {
  ready = quiet-IsReady;
  priorities = refl;
  small = λ t. omega arith;
  domains = λ t. refl;
  idle_is = refl;
  idle_ne = λ e. omega arith;
}

-- The requests of one thread's turn: it is made ready, and runs until none is left.
abbrev turn : List Request
turn = enqueue 4096 ∷ choose ∷ choose ∷ []

run-abstract_run_example :
    Returns
      (λ chosen k'.
        (chosen ≡ (abstract_run quiet.priority 8192 turn no_lists).0)
        × Represents quiet.priority 8192 (abstract_run quiet.priority 8192 turn no_lists).1 k')
      (run turn quiet)
unfolding proper
run-abstract_run_example =
    run-abstract_run quiet.priority 8192 turn no_lists quiet refl quiet-Represents

turn_chosen : (abstract_run quiet.priority 8192 turn no_lists).0 ≡ 4096 ∷ 8192 ∷ []
unfolding abstract_run abstract_enqueue take_best pick
turn_chosen = refl

run-choices_example : Returns (λ chosen k'. chosen ≡ 4096 ∷ []) (run (choices (4096 ∷ [])) one)
unfolding abstract_enqueue
run-choices_example =
    run-choices quiet.priority 8192 200 (4096 ∷ []) []
      (abstract_enqueue quiet.priority 8192 4096 no_lists) one
      (memory-Returns
        (enqueue_step quiet.priority 8192 no_lists quiet quiet-Represents 4096 (omega arith)))
      (omega arith) refl (λ q l m. ground (arith, l))
