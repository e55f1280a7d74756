-- ===== src/Kernel/Syscall/Stops.antt =====
-- What a fault does to the thread that made it: handle_fault of kernel/src/syscall/mod.rs.
use mi_dev_integral_rel.Base.{
  ℕ, ◌≡◌, refl, subst, sym, Bool, true, false, some, not, ◌||◌, ◌==◌, Bool-cases, inl, inr, update,
  if◌then◌else◌,
}
use mi_dev_integral_rel.Cmd.{Run, ok, panic, Cmd, Skip, assert, and_then, pure}
use mi_dev_integral_rel.Task.{ThreadState, running, inactive, blocked_on_send, blocked_on_reply}
use mi_dev_integral_rel.Task.EpQueue.{ep_append}
use mi_dev_integral_rel.Task.Scheduler.{set_thread_state, possible_switch_to}
use mi_dev_integral_rel.Cspace.{
  CSpace, Exception, exception_none, Capability, endpoint, get_cap_type,
}
use mi_dev_integral_rel.Cspace.Lookup.{LookupFault}
use mi_dev_integral_rel.Cspace.Resolve.{ResolveRet}
use mi_dev_integral_rel.Ipc.{EpState, ep_idle, ep_send, ep_recv}
use mi_dev_integral_rel.Ipc.Notification.Waiting.{update-same}
use mi_dev_integral_rel.Kernel.{Kernel, in_ipc, of_ipc, of_slots}
use mi_dev_integral_rel.Kernel.Message.{
  in_threads, setup_caller_cap, is_reply_master, lookup_slot, tcb_slot, tcb_reply, tcb_caller,
}
use mi_dev_integral_rel.Kernel.Exchange.{
  bit, send_ipc, send_at, block_send, wait_at, await_reply, take_first,
}
use mi_dev_integral_rel.Kernel.Exchange.Waiting.{schedule_run}
use mi_dev_integral_rel.Kernel.Message.Transfer.{do_ipc_transfer, fault_type}
use mi_dev_integral_rel.Kernel.Delete.{is_none}
use mi_dev_integral_rel.Kernel.Syscall.Fault.{
  send_to, send_fault_ipc, handle_fault, no_handler, keep_fault,
}

-- The states of a thread that waits to send, that waits for a reply, and that is inactive.
abbrev pub awaits : ThreadState → Bool
awaits blocked_on_send = true
awaits blocked_on_reply = true
awaits inactive = true
awaits _ = false

-- The thread is in such a state after the run, if the run does not stop the kernel.
pub data Stops (t : ℕ) {A : Type 0} : Run Kernel A → Type 0 where
  stops : {a : A} {k : Kernel} → awaits (k.ipc.tasks.ts_type t) ≡ true → Stops t (ok a k)
  halts : Stops t panic

after :
    (t : ℕ) {A B : Type 0} (r : Run Kernel A) (f : A → Cmd Kernel B)
    → ((a : A) (k : Kernel) → Stops t (f a k))
    → Stops t (and_then r f)
after t (ok a k) f all = all a k
after t panic f all = halts

before :
    (t : ℕ) {A B : Type 0} {r : Run Kernel A} (f : A → Cmd Kernel B)
    → Stops t r
    → ((a : A) (k : Kernel) → awaits (k.ipc.tasks.ts_type t) ≡ true → Stops t (f a k))
    → Stops t (and_then r f)
before t f (stops e) next = next _ _ e
before t f halts next = halts

set_state-Stops :
    (t : ℕ) (state : ThreadState) (k : Kernel)
    → awaits state ≡ true
    → Stops t (in_threads (set_thread_state t state) k)
unfolding set_thread_state
set_state-Stops t state k e =
    let w = record k.ipc.tasks { ts_type = update k.ipc.tasks.ts_type t state } in
    rw (schedule_run w t)
      (stops (subst (λ s. awaits s ≡ true) (sym (update-same k.ipc.tasks.ts_type t state)) e))

slots-Stops :
    (t : ℕ) {A : Type 0} (k : Kernel) (r : Run CSpace A)
    → awaits (k.ipc.tasks.ts_type t) ≡ true
    → Stops t (of_slots k r)
slots-Stops t k (ok a c) e = stops e
slots-Stops t k panic e = halts

guarded :
    (t : ℕ) {A : Type 0} (b : Bool) (f : Skip → Cmd Kernel A) (k : Kernel)
    → Stops t (f tt k)
    → Stops t (and_then (assert b k) f)
guarded t true f k s = s
guarded t false f k s = halts

-- A caller awaits the reply.
caller-Stops :
    (callee t : ℕ) (grant : Bool) (k : Kernel) → Stops t (setup_caller_cap callee t grant k)
unfolding setup_caller_cap is_reply_master
caller-Stops callee t grant k = before t _ (set_state-Stops t blocked_on_reply k refl) λ _ k1 e.
    guarded t (is_reply_master t (k1.slots.cap (tcb_slot t tcb_reply))) _ k1 (
      guarded t (get_cap_type (k1.slots.cap (tcb_slot callee tcb_caller)) == 0) _ k1
        (slots-Stops t k1 _ e))

await-Stops :
    (callee t : ℕ) (can_grant : Bool) (grant : Bool) (k : Kernel)
    → Stops t (await_reply callee t can_grant true grant k)
unfolding await_reply
await-Stops callee t true grant k = caller-Stops callee t grant k
await-Stops callee t false grant k = caller-Stops callee t grant k

-- A sender blocks.
block-Stops :
    (ep t : ℕ) (do_call can_grant : Bool) (badge : ℕ) (reply : Bool) (k : Kernel)
    → Stops t (of_ipc k (block_send ep t do_call can_grant badge reply k.ipc))
unfolding block_send wait_at ep_append
block-Stops ep t do_call can_grant badge reply k =
    let s = k.ipc in
    let w = record s.tasks {
      ts_type = update s.tasks.ts_type t blocked_on_send;
      blocking_object = update s.tasks.blocking_object t ep;
      blocking_ipc_can_grant = update s.tasks.blocking_ipc_can_grant t (bit can_grant);
      blocking_ipc_badge = update s.tasks.blocking_ipc_badge t badge;
      blocking_ipc_can_grant_reply = update s.tasks.blocking_ipc_can_grant_reply t (bit reply);
      blocking_ipc_is_call = update s.tasks.blocking_ipc_is_call t (bit do_call);
    } in
    let e : awaits (update s.tasks.ts_type t blocked_on_send t) ≡ true =
      rw (update-same s.tasks.ts_type t blocked_on_send) refl in
    rw (schedule_run w t) (elim (Bool-cases ((s.ep_queue ep).head == 0)) [
      | inl f ↦ rw f (stops e)
      | inr f ↦ elim (Bool-cases ((s.ep_queue ep).tail == 0)) [
        | inl g ↦ rw (f, g) halts
        | inr g ↦ rw (f, g) (stops e)
      ]
    ])

-- The sending of a fault, by the state of the endpoint.
send-Stops :
    (state : EpState) (ep t : ℕ) (can_grant : Bool) (badge : ℕ) (k : Kernel)
    → Stops t (send_at state ep t true true can_grant badge true k)
unfolding send_at
send-Stops ep_recv ep t can_grant badge k = after t (in_ipc (take_first ep) k) _ λ dest k1.
    after t (do_ipc_transfer t dest (some ep) badge can_grant k1) _ λ _ k2.
      after t (in_threads (set_thread_state dest running) k2) _ λ _ k3.
        after t (in_threads (possible_switch_to dest) k3) _ λ _ k4.
          await-Stops dest t can_grant (not (k2.ipc.tasks.blocking_ipc_can_grant dest == 0)) k4
send-Stops ep_idle ep t can_grant badge k = block-Stops ep t true can_grant badge true k
send-Stops ep_send ep t can_grant badge k = block-Stops ep t true can_grant badge true k

-- The outcome of the sending: a fault that is sent stops the thread.
data Sent (t : ℕ) : Run Kernel Exception → Type 0 where
  unsent : {e : Exception} {k : Kernel} → is_none e ≡ false → Sent t (ok e k)
  sent : {r : Run Kernel Exception} → Stops t r → Sent t r

done : (t : ℕ) (r : Run Kernel Skip) → Stops t r → Sent t (and_then r (λ _ k. ok exception_none k))
done t (ok a k) (stops e) = sent (stops e)
done t panic s = sent halts

-- The memory with the fault in the thread.
abbrev fault_kept : ℕ → LookupFault → Kernel → Kernel
fault_kept t origin k = record k {
  messages = record k.messages {
    tcb_fault = update k.messages.tcb_fault t k.current_fault;
    tcb_lookup_failure =
        if fault_type k.current_fault == 1
        then update k.messages.tcb_lookup_failure t origin
        else k.messages.tcb_lookup_failure;
  };
}

to-Sent :
    (t handler : ℕ) (cap : Capability) (origin : LookupFault) (k : Kernel)
    → Sent t (send_to cap t handler origin k)
unfolding send_to no_handler keep_fault send_ipc
to-Sent t handler (endpoint badge can_grant_reply can_grant can_send can_receive ptr) origin k =
    elim (Bool-cases (not (can_grant == 0) || not (can_grant_reply == 0))) [
      | inl e ↦ elim (Bool-cases (ptr == 0)) [
        | inl z ↦ rw (e, z) (sent halts)
        | inr z ↦
            let k1 = fault_kept t origin k in
            rw (e, z)
              (done t (send_ipc ptr t true true (not (can_grant == 0)) badge true k1)
                (send-Stops (k.ipc.ep_state ptr) ptr t (not (can_grant == 0)) badge k1))
      ]
      | inr e ↦ rw e (unsent refl)
    ]
to-Sent t handler _ origin k = unsent refl

by_lookup :
    (t : ℕ) (r : Run Kernel ResolveRet) (f : ResolveRet → Cmd Kernel Exception)
    → ((lu_ret : ResolveRet) (k : Kernel) → Sent t (f lu_ret k))
    → Sent t (and_then r f)
by_lookup t (ok a k) f all = all a k
by_lookup t panic f all = sent halts

fault-Sent : (t : ℕ) (k : Kernel) → Sent t (send_fault_ipc t k)
unfolding send_fault_ipc
fault-Sent t k = by_lookup t (lookup_slot t (k.messages.tcb_fault_handler t) k) _ λ lu_ret k1.
    elim (Bool-cases (is_none lu_ret.status)) [
      | inl e ↦ rw e (
          to-Sent t (k.messages.tcb_fault_handler t) (k.slots.cap lu_ret.slot)
            k.globals.current_lookup_fault k1)
      | inr e ↦ rw e (unsent refl)
    ]

finished :
    (t : ℕ) (r : Run Kernel Exception)
    → Sent t r
    → Stops t
        (and_then r (λ e. if is_none e then pure tt else in_threads (set_thread_state t inactive)))
finished t (ok e k) (unsent is) = rw is (set_state-Stops t inactive k refl)
finished t (ok e k) (sent (stops is)) = elim (Bool-cases (is_none e)) [
  | inl f ↦ rw f (stops is)
  | inr f ↦ rw f (set_state-Stops t inactive k refl)
]
finished t panic s = halts

-- When handle_fault of a thread returns, the thread's state is BlockedOnSend, BlockedOnReply or
-- Inactive: it may also stop the kernel.
pub handle_fault-Stops : (t : ℕ) (k : Kernel) → Stops t (handle_fault t k)
unfolding handle_fault
handle_fault-Stops t k = finished t (send_fault_ipc t k) (fault-Sent t k)
