-- ===== src/Kernel/Interrupt.antt =====
-- Interrupts: kernel/src/interrupt/mod.rs and handler.rs, for riscv64 without ENABLE_SMP. The masks of
-- the register sie and the timer of the hart are not part of the memory. `get_irq_handler_slot` is in
-- Kernel/Delete.
pub mod Grant
pub mod Invocation
mod Tests
use mi_dev_integral_rel.Base.{
  ℕ, ◌/◌, ◌%◌, ◌^◌, Bool, true, false, not, ◌&&◌, leb, ltb, update, ◌==◌, if◌then◌else◌,
}
use mi_dev_integral_rel.Cmd.{Cmd, Skip, panic, pure, ◌>>=◌, ◌>>◌, assert, convert, get, modify}
use mi_dev_integral_rel.Task.Scheduler.{timer_tick, schedule, activate_thread}
use mi_dev_integral_rel.Ipc.Notification.{send_signal}
use mi_dev_integral_rel.Cspace.{Exception, exception_none, Capability, notification}
use mi_dev_integral_rel.Cspace.Cte.{max_irq}
use mi_dev_integral_rel.Kernel.{Kernel, in_slots, in_ipc}
use mi_dev_integral_rel.Kernel.Message.{in_threads}
use mi_dev_integral_rel.Kernel.Delete.{get_irq_handler_slot, read_sip}

-- `irqInvalid` and `KERNEL_TIMER_IRQ`
abbrev pub irq_invalid : ℕ
irq_invalid = 0

abbrev pub timer_irq : ℕ
timer_irq = 1

-- `IRQState`; any other number in `intStateIRQTable` is undefined behaviour of the transmutation.
pub data IrqState : Type 0 where
  irq_inactive irq_signal irq_timer irq_reserved : IrqState

unfoldable pub irq_state_of : ℕ → Cmd Kernel IrqState
irq_state_of w =
    if w == 0
    then pure irq_inactive
    else if w == 1
    then pure irq_signal
    else if w == 2
    then pure irq_timer
    else if w == 3
    then pure irq_reserved
    else λ k. panic

unfoldable pub get_irq_state : ℕ → Cmd Kernel IrqState
unfolding irq_state_of
get_irq_state irq = do assert (leb irq max_irq); k ← get; irq_state_of (k.slots.irq_state irq)

abbrev number : IrqState → ℕ
number irq_inactive = 0
number irq_signal = 1
number irq_timer = 2
number irq_reserved = 3

unfoldable pub set_irq_state : IrqState → ℕ → Cmd Kernel Skip
set_irq_state state irq = do
  assert (leb irq max_irq)
  in_slots (modify (λ c. record c { irq_state = update c.irq_state irq (number state) }))

abbrev is_inactive : IrqState → Bool
is_inactive irq_inactive = true
is_inactive _ = false

-- True of the interrupts whose state is IRQInactive.
unfoldable pub is_irq_active : ℕ → Cmd Kernel Bool
unfolding get_irq_state
is_irq_active irq = do state ← get_irq_state irq; pure (is_inactive state)

abbrev pub is_irq_valid : ℕ → Bool
is_irq_valid x = leb x max_irq && not (x == irq_invalid)

abbrev set_active_irq : ℕ → Cmd Kernel Skip
set_active_irq irq =
    modify (λ k. record k { interrupts = record k.interrupts { active_irq = irq } })

-- What is pending by the register: an external interrupt (SIP_SEIP), the timer (SIP_STIP) or none.
unfoldable pub pending_irq : ℕ → ℕ
pending_irq sip =
    if not (sip / 2 ^ 9 % 2 == 0)
    then 0
    else if not (sip / 2 ^ 5 % 2 == 0)
    then timer_irq
    else irq_invalid

unfoldable pub get_active_irq : Cmd Kernel ℕ
unfolding read_sip pending_irq
get_active_irq = do
  k ← get
  let irq = k.interrupts.active_irq
  if is_irq_valid irq
      then pure irq
      else (do sip ← read_sip; set_active_irq (pending_irq sip); pure (pending_irq sip))

unfoldable pub ack_interrupt : Cmd Kernel Skip
ack_interrupt = set_active_irq irq_invalid

-- The signal to the notification that handles an interrupt.
signal_handler : Capability → Cmd Kernel Skip
unfolding send_signal
signal_handler (notification badge can_receive can_send ptr) =
    if can_send == 0 then pure tt else in_ipc (do convert ptr; send_signal ptr badge)
signal_handler other = pure tt

-- The match of `handleInterrupt` on the state.
unfoldable pub dispatch : IrqState → ℕ → Cmd Kernel Skip
unfolding get_irq_handler_slot signal_handler timer_tick
dispatch irq_signal irq = do
  slot ← get_irq_handler_slot irq
  k ← get
  signal_handler (k.slots.cap slot)
dispatch irq_timer irq = in_threads timer_tick
dispatch _ irq = pure tt

unfoldable pub handle_interrupt : ℕ → Cmd Kernel Skip
unfolding get_irq_state dispatch ack_interrupt
handle_interrupt irq =
    if ltb max_irq irq
    then ack_interrupt
    else (do state ← get_irq_state irq; dispatch state irq; ack_interrupt)

-- The interrupt that is pending, handled.
unfoldable pub handle_pending : Cmd Kernel Skip
unfolding get_active_irq handle_interrupt
handle_pending = do
  irq ← get_active_irq
  if irq == irq_invalid then pure tt else handle_interrupt irq

unfoldable pub handle_interrupt_entry : Cmd Kernel Exception
unfolding handle_pending schedule activate_thread
handle_interrupt_entry = do
  handle_pending
  in_threads schedule
  in_threads activate_thread
  pure exception_none
