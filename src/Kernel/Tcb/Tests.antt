-- ===== src/Kernel/Tcb/Tests.antt =====
-- The theorems on the operations on threads at a thread whose capability is in the first extra slot.
use mi_dev_integral_rel.Base.{◌==◌, if◌then◌else◌}
use mi_dev_integral_rel.Cspace.{null, thread, notification}
use mi_dev_integral_rel.Kernel.{Kernel}
use mi_dev_integral_rel.Kernel.Tests.{system}
use mi_dev_integral_rel.Kernel.Untyped.Decode.{get_syscall_arg}
use mi_dev_integral_rel.Kernel.Tcb.Invocation.{decode_prio, decode_bind_notification}
use mi_dev_integral_rel.Kernel.Tcb.Params.{Bounded, decode_prio-Bounded}
use mi_dev_integral_rel.Kernel.Tcb.{invoke_tcb_set_priority}
use mi_dev_integral_rel.Kernel.Tcb.Bind.{Binds, decode_bind_notification-Binds}

-- Slot 96 is the first extra one.
abbrev controlled : Kernel
controlled = record system {
  slots = record system.slots { cap = λ s. if s == 96 then thread 2048 else null };
}

abbrev signalled : Kernel
signalled = record system {
  slots = record system.slots { cap = λ s. if s == 96 then notification 0 1 1 8192 else null };
}

decode_prio-Bounded_example :
    Bounded controlled
      (get_syscall_arg controlled (λ i. 7) 0)
      (decode_prio 1 (λ i. 7) (invoke_tcb_set_priority 4096) controlled)
decode_prio-Bounded_example =
    decode_prio-Bounded controlled 1 (λ i. 7) (invoke_tcb_set_priority 4096)

decode_bind_notification-Binds_example :
    Binds signalled 2048 (decode_bind_notification (thread 2048) signalled)
decode_bind_notification-Binds_example = decode_bind_notification-Binds signalled 2048
