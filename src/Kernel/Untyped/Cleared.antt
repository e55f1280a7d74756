-- ===== src/Kernel/Untyped/Cleared.antt =====
-- Memory of which a range of bytes is zero: what clear_memory of kernel/src/utils.rs is for.
use mi_dev_integral_rel.Base.{ℕ, ◌+◌, ◌*◌, ◌≡◌, ◌∙◌, ◌&&◌, leb, ltb, arith, if◌then◌else◌}
use mi_dev_integral_rel.Task.{inactive}
use mi_dev_integral_rel.Cspace.{null}
use mi_dev_integral_rel.Cspace.Lookup.{no_fault}
use mi_dev_integral_rel.Ipc.{ep_idle, ntfn_idle}
use mi_dev_integral_rel.Kernel.{Kernel, Buffer, null_fault}

-- The field `f` of the objects at the `n` addresses from `a` on is `z` in `g`, and is that of `f` elsewhere.
abbrev pub Blank : {A : Type 0} → (a n : ℕ) → A → (f g : ℕ → A) → Type 0
Blank a n z f g = (p : ℕ) → g p ≡ (if leb a p && ltb p (a + n) then z else f p)

-- One chunk, then those below it.
both :
    {A : Type 0} (z x y w : A) (lo n total p : ℕ)
    → total ≡ n + 256
    → y ≡ (if leb (lo + n) p && ltb p (lo + n + 256) then z else x)
    → w ≡ (if leb lo p && ltb p (lo + n) then z else y)
    → w ≡ (if leb lo p && ltb p (lo + total) then z else x)
both z x y w lo n total p sum first rest = ground (arith, sum, first, rest)

pub Blank-both :
    {A : Type 0} (lo n total : ℕ) (z : A) (f g h : ℕ → A)
    → total ≡ n + 256
    → Blank (lo + n) 256 z f g
    → Blank lo n z g h
    → Blank lo total z f h
Blank-both lo n total z f g h sum first rest p =
    both z (f p) (g p) (h p) lo n total p sum (first p) (rest p)

abbrev zero_buffer : Buffer
zero_buffer = record {
  tag = 0;
  msg = λ i. 0;
  user_data = 0;
  caps_or_badges = λ i. 0;
  receive_cnode = 0;
  receive_index = 0;
  receive_depth = 0;
}

-- The memory `k` with the objects of `k'`.
abbrev with_objects : Kernel → Kernel → Kernel
with_objects k k' = record k {
  ipc = record k.ipc {
    tasks = record k.ipc.tasks {
      registers = k'.ipc.tasks.registers;
      ts_type = k'.ipc.tasks.ts_type;
      blocking_object = k'.ipc.tasks.blocking_object;
      blocking_ipc_badge = k'.ipc.tasks.blocking_ipc_badge;
      blocking_ipc_can_grant = k'.ipc.tasks.blocking_ipc_can_grant;
      blocking_ipc_can_grant_reply = k'.ipc.tasks.blocking_ipc_can_grant_reply;
      blocking_ipc_is_call = k'.ipc.tasks.blocking_ipc_is_call;
      tcb_queued = k'.ipc.tasks.tcb_queued;
      bound_notification = k'.ipc.tasks.bound_notification;
      domain = k'.ipc.tasks.domain;
      mcp = k'.ipc.tasks.mcp;
      priority = k'.ipc.tasks.priority;
      time_slice = k'.ipc.tasks.time_slice;
      sched_next = k'.ipc.tasks.sched_next;
      sched_prev = k'.ipc.tasks.sched_prev;
      ep_next = k'.ipc.tasks.ep_next;
      ep_prev = k'.ipc.tasks.ep_prev;
    };
    ep_state = k'.ipc.ep_state;
    ep_queue = k'.ipc.ep_queue;
    ntfn_state = k'.ipc.ntfn_state;
    ntfn_queue = k'.ipc.ntfn_queue;
    msg_identifier = k'.ipc.msg_identifier;
    bound_tcb = k'.ipc.bound_tcb;
  };
  slots = record k.slots {
    cap = k'.slots.cap;
    mdb_next = k'.slots.mdb_next;
    mdb_prev = k'.slots.mdb_prev;
    mdb_revocable = k'.slots.mdb_revocable;
    mdb_first_badged = k'.slots.mdb_first_badged;
  };
  messages = k'.messages;
  vspace = record k.vspace { pte = k'.vspace.pte; asid_pool = k'.vspace.asid_pool };
}

-- `k'` is `k` with all fields of the objects in the `n` bytes at `a` null: threads, slots, endpoints,
-- notifications, IPC buffers, page table entries and pools of address space identifiers.
pub record Cleared (a n : ℕ) (k k' : Kernel) : Type 0 where
  pub registers : Blank a n (λ j. 0) k.ipc.tasks.registers k'.ipc.tasks.registers
  pub ts_type : Blank a n inactive k.ipc.tasks.ts_type k'.ipc.tasks.ts_type
  pub blocking_object : Blank a n 0 k.ipc.tasks.blocking_object k'.ipc.tasks.blocking_object
  pub blocking_ipc_badge :
      Blank a n 0 k.ipc.tasks.blocking_ipc_badge k'.ipc.tasks.blocking_ipc_badge
  pub blocking_ipc_can_grant :
      Blank a n 0 k.ipc.tasks.blocking_ipc_can_grant k'.ipc.tasks.blocking_ipc_can_grant
  pub blocking_ipc_can_grant_reply :
      Blank a n 0 k.ipc.tasks.blocking_ipc_can_grant_reply k'.ipc.tasks.blocking_ipc_can_grant_reply
  pub blocking_ipc_is_call :
      Blank a n 0 k.ipc.tasks.blocking_ipc_is_call k'.ipc.tasks.blocking_ipc_is_call
  pub tcb_queued : Blank a n 0 k.ipc.tasks.tcb_queued k'.ipc.tasks.tcb_queued
  pub bound_notification :
      Blank a n 0 k.ipc.tasks.bound_notification k'.ipc.tasks.bound_notification
  pub domain : Blank a n 0 k.ipc.tasks.domain k'.ipc.tasks.domain
  pub mcp : Blank a n 0 k.ipc.tasks.mcp k'.ipc.tasks.mcp
  pub priority : Blank a n 0 k.ipc.tasks.priority k'.ipc.tasks.priority
  pub time_slice : Blank a n 0 k.ipc.tasks.time_slice k'.ipc.tasks.time_slice
  pub sched_next : Blank a n 0 k.ipc.tasks.sched_next k'.ipc.tasks.sched_next
  pub sched_prev : Blank a n 0 k.ipc.tasks.sched_prev k'.ipc.tasks.sched_prev
  pub ep_next : Blank a n 0 k.ipc.tasks.ep_next k'.ipc.tasks.ep_next
  pub ep_prev : Blank a n 0 k.ipc.tasks.ep_prev k'.ipc.tasks.ep_prev
  pub cap : Blank a n null k.slots.cap k'.slots.cap
  pub mdb_next : Blank a n 0 k.slots.mdb_next k'.slots.mdb_next
  pub mdb_prev : Blank a n 0 k.slots.mdb_prev k'.slots.mdb_prev
  pub mdb_revocable : Blank a n 0 k.slots.mdb_revocable k'.slots.mdb_revocable
  pub mdb_first_badged : Blank a n 0 k.slots.mdb_first_badged k'.slots.mdb_first_badged
  pub ep_state : Blank a n ep_idle k.ipc.ep_state k'.ipc.ep_state
  pub ep_queue : Blank a n (record { head = 0; tail = 0 }) k.ipc.ep_queue k'.ipc.ep_queue
  pub ntfn_state : Blank a n ntfn_idle k.ipc.ntfn_state k'.ipc.ntfn_state
  pub ntfn_queue : Blank a n (record { head = 0; tail = 0 }) k.ipc.ntfn_queue k'.ipc.ntfn_queue
  pub msg_identifier : Blank a n 0 k.ipc.msg_identifier k'.ipc.msg_identifier
  pub bound_tcb : Blank a n 0 k.ipc.bound_tcb k'.ipc.bound_tcb
  pub tcb_ipc_buffer : Blank a n 0 k.messages.tcb_ipc_buffer k'.messages.tcb_ipc_buffer
  pub tcb_fault : Blank a n null_fault k.messages.tcb_fault k'.messages.tcb_fault
  pub tcb_lookup_failure :
      Blank a n no_fault k.messages.tcb_lookup_failure k'.messages.tcb_lookup_failure
  pub tcb_fault_handler : Blank a n 0 k.messages.tcb_fault_handler k'.messages.tcb_fault_handler
  pub buffer : Blank a n zero_buffer k.messages.buffer k'.messages.buffer
  pub pte : Blank a n 0 k.vspace.pte k'.vspace.pte
  pub asid_pool :
      (p i : ℕ)
      → k'.vspace.asid_pool p i
        ≡ (if leb a (p + 8 * i) && ltb (p + 8 * i) (a + n) then 0 else k.vspace.asid_pool p i)
  pub rest : k' ≡ with_objects k k'

-- The chunk above `n` bytes that are cleared.
pub Cleared-both :
    (lo n total : ℕ) (k k1 k' : Kernel)
    → total ≡ n + 256
    → Cleared (lo + n) 256 k k1
    → Cleared lo n k1 k'
    → with_objects k1 k' ≡ with_objects k k'
    → Cleared lo total k k'
Cleared-both lo n total k k1 k' sum first below same = record {
  registers =
      Blank-both lo n total (λ j. 0) k.ipc.tasks.registers k1.ipc.tasks.registers
        k'.ipc.tasks.registers sum first.registers below.registers;
  ts_type =
      Blank-both lo n total inactive k.ipc.tasks.ts_type k1.ipc.tasks.ts_type k'.ipc.tasks.ts_type
        sum first.ts_type below.ts_type;
  blocking_object =
      Blank-both lo n total 0 k.ipc.tasks.blocking_object k1.ipc.tasks.blocking_object
        k'.ipc.tasks.blocking_object sum first.blocking_object below.blocking_object;
  blocking_ipc_badge =
      Blank-both lo n total 0 k.ipc.tasks.blocking_ipc_badge k1.ipc.tasks.blocking_ipc_badge
        k'.ipc.tasks.blocking_ipc_badge sum first.blocking_ipc_badge below.blocking_ipc_badge;
  blocking_ipc_can_grant =
      Blank-both lo n total 0 k.ipc.tasks.blocking_ipc_can_grant k1.ipc.tasks.blocking_ipc_can_grant
        k'.ipc.tasks.blocking_ipc_can_grant sum first.blocking_ipc_can_grant
        below.blocking_ipc_can_grant;
  blocking_ipc_can_grant_reply =
      Blank-both lo n total 0 k.ipc.tasks.blocking_ipc_can_grant_reply
        k1.ipc.tasks.blocking_ipc_can_grant_reply k'.ipc.tasks.blocking_ipc_can_grant_reply sum
        first.blocking_ipc_can_grant_reply below.blocking_ipc_can_grant_reply;
  blocking_ipc_is_call =
      Blank-both lo n total 0 k.ipc.tasks.blocking_ipc_is_call k1.ipc.tasks.blocking_ipc_is_call
        k'.ipc.tasks.blocking_ipc_is_call sum first.blocking_ipc_is_call below.blocking_ipc_is_call;
  tcb_queued =
      Blank-both lo n total 0 k.ipc.tasks.tcb_queued k1.ipc.tasks.tcb_queued k'.ipc.tasks.tcb_queued
        sum first.tcb_queued below.tcb_queued;
  bound_notification =
      Blank-both lo n total 0 k.ipc.tasks.bound_notification k1.ipc.tasks.bound_notification
        k'.ipc.tasks.bound_notification sum first.bound_notification below.bound_notification;
  domain =
      Blank-both lo n total 0 k.ipc.tasks.domain k1.ipc.tasks.domain k'.ipc.tasks.domain sum
        first.domain below.domain;
  mcp =
      Blank-both lo n total 0 k.ipc.tasks.mcp k1.ipc.tasks.mcp k'.ipc.tasks.mcp sum first.mcp
        below.mcp;
  priority =
      Blank-both lo n total 0 k.ipc.tasks.priority k1.ipc.tasks.priority k'.ipc.tasks.priority sum
        first.priority below.priority;
  time_slice =
      Blank-both lo n total 0 k.ipc.tasks.time_slice k1.ipc.tasks.time_slice k'.ipc.tasks.time_slice
        sum first.time_slice below.time_slice;
  sched_next =
      Blank-both lo n total 0 k.ipc.tasks.sched_next k1.ipc.tasks.sched_next k'.ipc.tasks.sched_next
        sum first.sched_next below.sched_next;
  sched_prev =
      Blank-both lo n total 0 k.ipc.tasks.sched_prev k1.ipc.tasks.sched_prev k'.ipc.tasks.sched_prev
        sum first.sched_prev below.sched_prev;
  ep_next =
      Blank-both lo n total 0 k.ipc.tasks.ep_next k1.ipc.tasks.ep_next k'.ipc.tasks.ep_next sum
        first.ep_next below.ep_next;
  ep_prev =
      Blank-both lo n total 0 k.ipc.tasks.ep_prev k1.ipc.tasks.ep_prev k'.ipc.tasks.ep_prev sum
        first.ep_prev below.ep_prev;
  cap = Blank-both lo n total null k.slots.cap k1.slots.cap k'.slots.cap sum first.cap below.cap;
  mdb_next =
      Blank-both lo n total 0 k.slots.mdb_next k1.slots.mdb_next k'.slots.mdb_next sum
        first.mdb_next below.mdb_next;
  mdb_prev =
      Blank-both lo n total 0 k.slots.mdb_prev k1.slots.mdb_prev k'.slots.mdb_prev sum
        first.mdb_prev below.mdb_prev;
  mdb_revocable =
      Blank-both lo n total 0 k.slots.mdb_revocable k1.slots.mdb_revocable k'.slots.mdb_revocable
        sum first.mdb_revocable below.mdb_revocable;
  mdb_first_badged =
      Blank-both lo n total 0 k.slots.mdb_first_badged k1.slots.mdb_first_badged
        k'.slots.mdb_first_badged sum first.mdb_first_badged below.mdb_first_badged;
  ep_state =
      Blank-both lo n total ep_idle k.ipc.ep_state k1.ipc.ep_state k'.ipc.ep_state sum
        first.ep_state below.ep_state;
  ep_queue =
      Blank-both lo n total (record { head = 0; tail = 0 }) k.ipc.ep_queue k1.ipc.ep_queue
        k'.ipc.ep_queue sum first.ep_queue below.ep_queue;
  ntfn_state =
      Blank-both lo n total ntfn_idle k.ipc.ntfn_state k1.ipc.ntfn_state k'.ipc.ntfn_state sum
        first.ntfn_state below.ntfn_state;
  ntfn_queue =
      Blank-both lo n total (record { head = 0; tail = 0 }) k.ipc.ntfn_queue k1.ipc.ntfn_queue
        k'.ipc.ntfn_queue sum first.ntfn_queue below.ntfn_queue;
  msg_identifier =
      Blank-both lo n total 0 k.ipc.msg_identifier k1.ipc.msg_identifier k'.ipc.msg_identifier sum
        first.msg_identifier below.msg_identifier;
  bound_tcb =
      Blank-both lo n total 0 k.ipc.bound_tcb k1.ipc.bound_tcb k'.ipc.bound_tcb sum first.bound_tcb
        below.bound_tcb;
  tcb_ipc_buffer =
      Blank-both lo n total 0 k.messages.tcb_ipc_buffer k1.messages.tcb_ipc_buffer
        k'.messages.tcb_ipc_buffer sum first.tcb_ipc_buffer below.tcb_ipc_buffer;
  tcb_fault =
      Blank-both lo n total null_fault k.messages.tcb_fault k1.messages.tcb_fault
        k'.messages.tcb_fault sum first.tcb_fault below.tcb_fault;
  tcb_lookup_failure =
      Blank-both lo n total no_fault k.messages.tcb_lookup_failure k1.messages.tcb_lookup_failure
        k'.messages.tcb_lookup_failure sum first.tcb_lookup_failure below.tcb_lookup_failure;
  tcb_fault_handler =
      Blank-both lo n total 0 k.messages.tcb_fault_handler k1.messages.tcb_fault_handler
        k'.messages.tcb_fault_handler sum first.tcb_fault_handler below.tcb_fault_handler;
  buffer =
      Blank-both lo n total zero_buffer k.messages.buffer k1.messages.buffer k'.messages.buffer sum
        first.buffer below.buffer;
  pte = Blank-both lo n total 0 k.vspace.pte k1.vspace.pte k'.vspace.pte sum first.pte below.pte;
  asid_pool =
      λ p i. both 0 _ _ _ lo n total (p + 8 * i) sum (first.asid_pool p i) (below.asid_pool p i);
  rest = below.rest ∙ same;
}
