-- ===== src/Kernel/Interrupt/Tests.antt =====
-- The theorem on handlers at a memory in which no interrupt is in use.
use mi_dev_integral_rel.Base.{refl}
use mi_dev_integral_rel.Kernel.Tests.{system}
use mi_dev_integral_rel.Kernel.Tcb.Params.{Refused}
use mi_dev_integral_rel.Kernel.Interrupt.Invocation.{decode_irq_control_invocation}
use mi_dev_integral_rel.Kernel.Interrupt.Grant.{decode_irq_control_invocation-Refused}

decode_irq_control_invocation-Refused_example :
    Refused system (decode_irq_control_invocation 25 3 64 (λ i. 1) system)
decode_irq_control_invocation-Refused_example =
    decode_irq_control_invocation-Refused system 25 3 64 (λ i. 1) refl
