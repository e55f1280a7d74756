-- ===== src/Kernel/Exchange/Waiting.antt =====
-- The queue of an endpoint and its state, and the threads that block on it: sel4_ipc/src/endpoint.rs.
use mi_dev_integral_rel.Base.{
  ℕ, ◌≡◌, ◌≢◌, refl, sym, subst, true, not, ◌&&◌, Bool, false, List, [], ◌∷◌, ◌++◌, ◌==◌, ◌∉◌,
  arith, update, if◌then◌else◌,
}
use mi_dev_integral_rel.Cmd.{Run, ok, panic}
use mi_dev_integral_rel.Cmd.Returns.{Returns, returns}
use mi_dev_integral_rel.Task.{ThreadState, Tasks, blocked_on_send, blocked_on_receive}
use mi_dev_integral_rel.Task.EpQueue.Order.{
  IsQueue, append_run, appended, append_queue, ep_append-snoc,
}
use mi_dev_integral_rel.Task.Scheduler.{schedule_tcb, reschedule_required, runnable}
use mi_dev_integral_rel.Ipc.{EpState, ep_idle, ep_send, ep_recv, Ipc}
use mi_dev_integral_rel.Ipc.Notification.{complete_signal}
use mi_dev_integral_rel.Ipc.Notification.Waiting.{
  snoc-nil, returned, update-same, state_run, stated,
}
use mi_dev_integral_rel.Kernel.{Kernel, of_ipc}
use mi_dev_integral_rel.Kernel.Exchange.{
  bit, wait_at, block_send, block_receive, send_at, send_ipc, receive_at, receive_ipc,
}

-- The state that fits the threads that wait.
abbrev pub Fits : EpState → List ℕ → Type 0
Fits ep_idle xs = xs ≡ []
Fits ep_send xs = xs ≢ []
Fits ep_recv xs = xs ≢ []

pub record IsEndpoint (s : Ipc) (ep : ℕ) (xs : List ℕ) : Type 0 where
  pub queue : IsQueue s.tasks (s.ep_queue ep) xs
  pub fits : Fits (s.ep_state ep) xs

-- Memory once the thread stands at the end of the queue.
abbrev waited : Ipc → ℕ → ℕ → EpState → Ipc
waited s ep t state = record s {
  tasks = appended s.tasks (s.ep_queue ep) t;
  ep_state = update s.ep_state ep state;
  ep_queue = update s.ep_queue ep (append_queue s.tasks (s.ep_queue ep) t);
}

wait_at_run :
    (s : Ipc) (ep t : ℕ) (state : EpState) (xs : List ℕ)
    → IsQueue s.tasks (s.ep_queue ep) xs
    → wait_at ep t state s ≡ ok tt (waited s ep t state)
unfolding wait_at
wait_at_run s ep t state xs is = let run = append_run s.tasks (s.ep_queue ep) t xs is in rw run refl

busy-Fits : (state : EpState) (xs : List ℕ) → state ≢ ep_idle → xs ≢ [] → Fits state xs
busy-Fits ep_idle xs busy ne = absurd (busy refl)
busy-Fits ep_send xs busy ne = ne
busy-Fits ep_recv xs busy ne = ne

waited-IsEndpoint :
    (s : Ipc) (ep t : ℕ) (state : EpState) (xs : List ℕ)
    → IsQueue s.tasks (s.ep_queue ep) xs
    → t ≢ 0
    → t ∉ xs
    → state ≢ ep_idle
    → IsEndpoint (waited s ep t state) ep (xs ++ t ∷ [])
waited-IsEndpoint s ep t state xs is ne out busy =
    let k = s.tasks in
    let q = s.ep_queue ep in
    let run = append_run k q t xs is in
    let r : IsQueue (appended k q t) (append_queue k q t) (xs ++ t ∷ []) =
      (returned (rw run at (ep_append-snoc k q t xs is ne out))).0 in
    record {
      queue =
          subst (λ p. IsQueue (appended k q t) p (xs ++ t ∷ []))
            (sym (update-same s.ep_queue ep (append_queue k q t))) r;
      fits =
          subst (λ e. Fits e (xs ++ t ∷ [])) (sym (update-same s.ep_state ep state))
            (busy-Fits state (xs ++ t ∷ []) busy (snoc-nil xs t));
    }

-- The thread waits at the endpoint in the given state, behind the threads `xs`.
pub record Waits (ep t : ℕ) (state : EpState) (blocked : ThreadState) (xs : List ℕ) (s : Ipc)
    : Type 0 where
  pub endpoint : IsEndpoint s ep (xs ++ t ∷ [])
  pub state_of : s.ep_state ep ≡ state
  pub thread : s.tasks.ts_type t ≡ blocked
  pub object : s.tasks.blocking_object t ≡ ep

abbrev pub scheduled : Tasks → ℕ → Tasks
scheduled k t = record k {
  scheduler_action =
      if (t == k.cur_thread) && (k.scheduler_action == 0) && not (runnable (k.ts_type t))
      then 1
      else k.scheduler_action;
}

pub schedule_run : (k : Tasks) (t : ℕ) → schedule_tcb t k ≡ ok tt (scheduled k t)
unfolding schedule_tcb reschedule_required
schedule_run k t = ground arith

of_ipc-Returns :
    {A : Type 0} {P : A → Ipc → Type 0} (k : Kernel) (r : Run Ipc A)
    → Returns P r
    → Returns (λ a k'. P a k'.ipc × (k'.slots ≡ k.slots)) (of_ipc k r)
of_ipc-Returns k (ok a s) (returns p) = returns (p, refl)
of_ipc-Returns k panic r = elim r [ ]

module _ (s : Ipc) (ep t : ℕ) (xs : List ℕ) (is : IsEndpoint s ep xs) (ne : t ≢ 0)
    (out : t ∉ xs) where
  block_send_keeps :
      (do_call can_grant : Bool) (badge : ℕ) (can_grant_reply : Bool)
      → Returns
          (λ _ s'.
            Waits ep t ep_send blocked_on_send xs s' × (s'.tasks.blocking_ipc_badge t ≡ badge))
          (block_send ep t do_call can_grant badge can_grant_reply s)
  unfolding block_send
  block_send_keeps do_call can_grant badge can_grant_reply =
      let k = record s.tasks {
        ts_type = update s.tasks.ts_type t blocked_on_send;
        blocking_object = update s.tasks.blocking_object t ep;
        blocking_ipc_can_grant = update s.tasks.blocking_ipc_can_grant t (bit can_grant);
        blocking_ipc_badge = update s.tasks.blocking_ipc_badge t badge;
        blocking_ipc_can_grant_reply =
            update s.tasks.blocking_ipc_can_grant_reply t (bit can_grant_reply);
        blocking_ipc_is_call = update s.tasks.blocking_ipc_is_call t (bit do_call);
      } in
      let s1 = record s { tasks = scheduled k t } in
      let run = schedule_run k t in
      let last = wait_at_run s1 ep t ep_send xs is.queue in
      rw (run, last)
        (returns (
          record {
            endpoint = waited-IsEndpoint s1 ep t ep_send xs is.queue ne out (λ e. absurd (cc));
            state_of = update-same s.ep_state ep ep_send;
            thread = update-same s.tasks.ts_type t blocked_on_send;
            object = update-same s.tasks.blocking_object t ep;
          },
          update-same s.tasks.blocking_ipc_badge t badge,
        ))

  block_receive_keeps :
      (grant : Bool)
      → Returns (λ _ s'. Waits ep t ep_recv blocked_on_receive xs s') (block_receive ep t grant s)
  unfolding block_receive
  block_receive_keeps grant =
      let k = record s.tasks {
        blocking_object = update s.tasks.blocking_object t ep;
        blocking_ipc_can_grant = update s.tasks.blocking_ipc_can_grant t (bit grant);
      } in
      let s1 = record s { tasks = stated k t blocked_on_receive } in
      let run = state_run k t blocked_on_receive in
      let last = wait_at_run s1 ep t ep_recv xs is.queue in
      rw (run, last)
        (returns (record {
          endpoint = waited-IsEndpoint s1 ep t ep_recv xs is.queue ne out (λ e. absurd (cc));
          state_of = update-same s.ep_state ep ep_recv;
          thread = update-same s.tasks.ts_type t blocked_on_receive;
          object = update-same s.tasks.blocking_object t ep;
        }))

module _ (k : Kernel) (ep t : ℕ) (xs : List ℕ) (is : IsEndpoint k.ipc ep xs) (ne : t ≢ 0)
    (out : t ∉ xs) where
  -- The sender waits at the endpoint, with its badge, and no slot has changed.
  abbrev pub Sends : ℕ → Kernel → Type 0
  Sends badge k' =
      (Waits ep t ep_send blocked_on_send xs k'.ipc × (k'.ipc.tasks.blocking_ipc_badge t ≡ badge))
      × (k'.slots ≡ k.slots)

  send_at_keeps :
      (state : EpState) (do_call can_grant : Bool) (badge : ℕ) (can_grant_reply : Bool)
      → state ≢ ep_recv
      → Returns
          (λ _ k'. Sends badge k')
          (send_at state ep t true do_call can_grant badge can_grant_reply k)
  unfolding send_at
  send_at_keeps ep_idle do_call can_grant badge can_grant_reply other =
      of_ipc-Returns k (block_send ep t do_call can_grant badge can_grant_reply k.ipc)
        (block_send_keeps k.ipc ep t xs is ne out do_call can_grant badge can_grant_reply)
  send_at_keeps ep_send do_call can_grant badge can_grant_reply other =
      of_ipc-Returns k (block_send ep t do_call can_grant badge can_grant_reply k.ipc)
        (block_send_keeps k.ipc ep t xs is ne out do_call can_grant badge can_grant_reply)
  send_at_keeps ep_recv do_call can_grant badge can_grant_reply other = absurd (other refl)

  -- Sending to an endpoint at which nobody waits to receive, a thread that may block, not null and not
  -- waiting there yet, is put behind the threads that wait, and is blocked on the endpoint, which is
  -- in the sending state, with the badge it sends; queue and state stay in step, and no slot changes.
  pub send_ipc-Waits :
      (do_call can_grant : Bool) (badge : ℕ) (can_grant_reply : Bool)
      → k.ipc.ep_state ep ≢ ep_recv
      → Returns
          (λ _ k'. Sends badge k')
          (send_ipc ep t true do_call can_grant badge can_grant_reply k)
  unfolding send_ipc
  send_ipc-Waits do_call can_grant badge can_grant_reply other =
      send_at_keeps (k.ipc.ep_state ep) do_call can_grant badge can_grant_reply other

  abbrev pub Receives : Kernel → Type 0
  Receives k' = Waits ep t ep_recv blocked_on_receive xs k'.ipc × (k'.slots ≡ k.slots)

  receive_at_keeps :
      (state : EpState) (grant : Bool)
      → state ≢ ep_send
      → Returns (λ _ k'. Receives k') (receive_at state ep t true grant k)
  unfolding receive_at
  receive_at_keeps ep_idle grant other =
      of_ipc-Returns k (block_receive ep t grant k.ipc)
        (block_receive_keeps k.ipc ep t xs is ne out grant)
  receive_at_keeps ep_recv grant other =
      of_ipc-Returns k (block_receive ep t grant k.ipc)
        (block_receive_keeps k.ipc ep t xs is ne out grant)
  receive_at_keeps ep_send grant other = absurd (other refl)

  -- A thread that is not served by a signal, and that receives from an endpoint at which nobody waits
  -- to send, not null and not waiting there yet, is put behind the threads that wait if it may block,
  -- and is blocked on the endpoint, which is in the receiving state; queue and state stay in step,
  -- and no slot changes.
  pub receive_ipc-Waits :
      (grant : Bool)
      → complete_signal t k.ipc ≡ ok false k.ipc
      → k.ipc.ep_state ep ≢ ep_send
      → Returns (λ _ k'. Receives k') (receive_ipc ep t true grant k)
  unfolding receive_ipc
  receive_ipc-Waits grant no_signal other =
      rw no_signal (receive_at_keeps (k.ipc.ep_state ep) grant other)
