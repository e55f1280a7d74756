-- ===== src/Ipc/Tests.antt =====
-- The theorems on notifications at a concrete one.
use mi_dev_integral_rel.Base.{refl, true, [], ◌∷◌, arith}
use mi_dev_integral_rel.Cmd.Returns.{Returns}
use mi_dev_integral_rel.Task.Tests.{waiting, two_queue, two_queue-IsQueue, no_queue}
use mi_dev_integral_rel.Ipc.{Ipc, ep_idle, ntfn_waiting}
use mi_dev_integral_rel.Ipc.Notification.{receive_signal}
use mi_dev_integral_rel.Ipc.Notification.Waiting.{IsNtfn, Blocked, receive_signal-IsNtfn}

-- Two threads wait for every notification.
abbrev two_wait : Ipc
two_wait = record {
  tasks = waiting;
  ep_state = λ ep. ep_idle;
  ep_queue = λ ep. no_queue;
  ntfn_state = λ ntfn. ntfn_waiting;
  ntfn_queue = λ ntfn. two_queue;
  msg_identifier = λ ntfn. 0;
  bound_tcb = λ ntfn. 0;
}

two_wait-IsNtfn : IsNtfn two_wait 64 (4096 ∷ 8192 ∷ [])
two_wait-IsNtfn = record { queue = two_queue-IsQueue; fits = λ e. absurd (cc) }

receive_signal-IsNtfn_example :
    Returns
      (λ _ s'. Blocked two_wait 64 12288 (4096 ∷ 8192 ∷ []) s')
      (receive_signal 64 12288 true two_wait)
receive_signal-IsNtfn_example =
    receive_signal-IsNtfn two_wait 64 12288 (4096 ∷ 8192 ∷ []) two_wait-IsNtfn (omega arith) refl
      (λ e. absurd (cc))
