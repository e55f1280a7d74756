-- ===== src/Kernel/Exchange/Tests.antt =====
-- The theorems on messages and endpoints at two threads with buffers, and at an endpoint at which
-- two threads wait.
use mi_dev_integral_rel.Base.{refl, true, false, some, [], ◌∷◌, ◌==◌, arith, if◌then◌else◌}
use mi_dev_integral_rel.Cmd.Returns.{Returns}
use mi_dev_integral_rel.Task.Tests.{waiting, two_queue, two_queue-IsQueue}
use mi_dev_integral_rel.Ipc.{ep_send, ep_recv}
use mi_dev_integral_rel.Ipc.Notification.{complete_signal}
use mi_dev_integral_rel.Cspace.{null, frame}
use mi_dev_integral_rel.Cspace.Cap.{page_bits_for_size}
use mi_dev_integral_rel.Kernel.{Kernel}
use mi_dev_integral_rel.Kernel.Message.{
  copy_mrs, lookup_ipc_buffer, lookup_mut_ipc_buffer, buffer_of, buffer_at, tcb_slot,
}
use mi_dev_integral_rel.Kernel.Message.Copy.{Copied, copy_mrs-Copied}
use mi_dev_integral_rel.Kernel.Exchange.{send_ipc, receive_ipc}
use mi_dev_integral_rel.Kernel.Exchange.Waiting.{
  IsEndpoint, Sends, Receives, send_ipc-Waits, receive_ipc-Waits,
}
use mi_dev_integral_rel.Kernel.Tests.{system}

-- Threads 2048 and 4096 each have a page for their buffer.
abbrev talking : Kernel
talking = record system {
  slots = record system.slots {
    cap = λ s.
        if s == 2176
        then frame 0 131072 0 3 0 0
        else if s == 4224
        then frame 0 196608 0 3 0 0
        else null;
  };
}

copy_mrs-Copied_example :
    Returns (Copied 2048 4096 6 (some 131072) (some 196608) talking) (copy_mrs 2048 4096 6 talking)
unfolding lookup_ipc_buffer lookup_mut_ipc_buffer buffer_of buffer_at tcb_slot page_bits_for_size
copy_mrs-Copied_example =
    copy_mrs-Copied 2048 4096 6 talking (some 131072) (some 196608) (omega arith) refl refl

abbrev senders : Kernel
senders = record system {
  ipc = record system.ipc { tasks = waiting; ep_state = λ ep. ep_send; ep_queue = λ ep. two_queue };
}

senders-IsEndpoint : IsEndpoint senders.ipc 64 (4096 ∷ 8192 ∷ [])
senders-IsEndpoint = record { queue = two_queue-IsQueue; fits = λ e. absurd (cc) }

send_ipc-Waits_example :
    Returns
      (λ _ k'. Sends senders 64 12288 (4096 ∷ 8192 ∷ []) senders-IsEndpoint (omega arith) refl 7 k')
      (send_ipc 64 12288 true true false 7 true senders)
send_ipc-Waits_example =
    send_ipc-Waits senders 64 12288 (4096 ∷ 8192 ∷ []) senders-IsEndpoint (omega arith) refl true
      false 7 true (λ e. absurd (cc))

abbrev receivers : Kernel
receivers = record senders { ipc = record senders.ipc { ep_state = λ ep. ep_recv } }

receivers-IsEndpoint : IsEndpoint receivers.ipc 64 (4096 ∷ 8192 ∷ [])
receivers-IsEndpoint = record { queue = two_queue-IsQueue; fits = λ e. absurd (cc) }

receive_ipc-Waits_example :
    Returns
      (λ _ k'.
        Receives receivers 64 12288 (4096 ∷ 8192 ∷ []) receivers-IsEndpoint (omega arith) refl k')
      (receive_ipc 64 12288 true false receivers)
unfolding complete_signal
receive_ipc-Waits_example =
    receive_ipc-Waits receivers 64 12288 (4096 ∷ 8192 ∷ []) receivers-IsEndpoint (omega arith) refl
      false refl (λ e. absurd (cc))
