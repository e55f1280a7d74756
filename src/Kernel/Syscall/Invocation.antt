-- ===== src/Kernel/Syscall/Invocation.antt =====
-- The invocation of a capability: kernel/src/syscall/invocation/mod.rs, decode/mod.rs,
-- decode/decode_domain_invocation.rs and syscall_reply.rs, with lookup_extra_caps_with_buf of
-- sel4_task/src/tcb.rs.
pub mod Answer
use mi_dev_integral_rel.Base.{
  ℕ, zero, suc, ◌+◌, ◌*◌, ◌/◌, ◌%◌, ◌^◌, Bool, true, false, not, ◌&&◌, ◌||◌, Option, none, some,
  ltb, leb, ◌==◌, update, if◌then◌else◌,
}
use mi_dev_integral_rel.Field
use mi_dev_integral_rel.Field.{Field}
use mi_dev_integral_rel.Cmd.{Cmd, Skip, panic, pure, ◌>>=◌, ◌>>◌, convert, get, modify}
use mi_dev_integral_rel.Task.{ThreadState, restart, running}
use mi_dev_integral_rel.Task.Scheduler.{set_thread_state, set_domain}
use mi_dev_integral_rel.Ipc.Notification.{send_signal}
use mi_dev_integral_rel.Cspace.{
  Exception, exception_none, exception_fault, lookup_fault, syscall_error, preempted, Capability,
  null, zombie, endpoint, notification, reply, thread, domain, cnode, untyped, irq_control,
  irq_handler, get_cap_type,
}
use mi_dev_integral_rel.Cspace.Lookup.{
  illegal_operation, truncated_message, invalid_capability, invalid_argument,
}
use mi_dev_integral_rel.Cspace.Resolve.{ResolveRet}
use mi_dev_integral_rel.Kernel.{
  Kernel, in_ipc, cap_fault, Checked, rejected, passed, reject, checking, set_error,
}
use mi_dev_integral_rel.Kernel.Labels.{domain_set_set}
use mi_dev_integral_rel.Kernel.Message.{
  in_threads, register, msg_info_register, msg_register_num, lookup_ipc_buffer, lookup_slot,
}
use mi_dev_integral_rel.Kernel.Message.Transfer.{
  Info, info_label, info_extra_caps, info_length, from_word_security,
}
use mi_dev_integral_rel.Kernel.Exchange.{send_ipc}
use mi_dev_integral_rel.Kernel.Untyped.Decode.{get_syscall_arg, decode_untyped_invocation}
use mi_dev_integral_rel.Kernel.Cnode.{restart_current}
use mi_dev_integral_rel.Kernel.Cnode.Invocation.{decode_cnode_invocation}
use mi_dev_integral_rel.Kernel.Delete.{is_none}
use mi_dev_integral_rel.Kernel.Reply.{do_reply}
use mi_dev_integral_rel.Kernel.Tcb.Decode.{require}
use mi_dev_integral_rel.Kernel.Tcb.Invocation.{decode_tcb_invocation}
use mi_dev_integral_rel.Kernel.Interrupt.Invocation.{
  decode_irq_control_invocation, decode_irq_handler_invocation,
}
use mi_dev_integral_rel.Kernel.Mmu.Spaces.{decode_mmu_invocation}
use mi_dev_integral_rel.Kernel.Syscall.Fault.{set_fault, handle_fault}
use mi_dev_integral_rel.Kernel.Syscall.Invocation.Answer.{
  reply_error_from_kernel, reply_success_from_kernel,
}

-- `ArchReg::Cap`
abbrev pub cap_register : ℕ
cap_register = 9

-- The thread of the capability for `DomainSetSet`.
domain_thread : Capability → Cmd Kernel (Checked ℕ)
domain_thread (thread ptr) = pure (passed ptr)
domain_thread other = reject (invalid_argument 1)

unfoldable pub decode_domain_invocation : ℕ → ℕ → (ℕ → ℕ) → Cmd Kernel Exception
unfolding get_syscall_arg domain_thread set_domain
decode_domain_invocation label length buffer = do
  k ← get
  let domain' = get_syscall_arg k buffer 0
  checking (require (label == domain_set_set) illegal_operation) λ _.
      checking (require (not (length == 0)) truncated_message) λ _.
        checking (require (not (leb 1 domain')) (invalid_argument 0)) λ _.
          checking (require (not (k.extra_caps 0 == 0)) truncated_message) λ _.
            checking (domain_thread (k.slots.cap (k.extra_caps 0))) λ t. (do
              restart_current
              convert t
              in_threads (set_domain t domain')
              pure exception_none)

-- A capability that cannot be invoked.
abbrev invalid : Cmd Kernel Exception
invalid = do set_error (invalid_capability 0); pure syscall_error

-- `decode_invocation`, by the type of the capability; the fuels bound deletions.
unfoldable pub decode_invocation :
    ℕ → ℕ → ℕ → ℕ → ℕ → Capability → Bool → Bool → (ℕ → ℕ) → Cmd Kernel Exception
unfolding send_ipc send_signal do_reply decode_tcb_invocation decode_domain_invocation
    decode_cnode_invocation decode_untyped_invocation decode_irq_control_invocation
    decode_irq_handler_invocation decode_mmu_invocation
decode_invocation fuel queue label length slot null block call buffer = invalid
decode_invocation fuel queue label length slot (zombie _ _) block call buffer = invalid
decode_invocation fuel queue label length slot
      (endpoint badge can_grant_reply can_grant can_send _ ptr) block call buffer =
    if can_send == 0 then invalid else (do
      restart_current
      convert ptr
      k ← get
      send_ipc ptr k.ipc.tasks.cur_thread block call (not (can_grant == 0)) badge
          (not (can_grant_reply == 0))
      pure exception_none)
decode_invocation fuel queue label length slot (notification badge _ can_send ptr) block call
      buffer =
    if can_send == 0
    then invalid
    else (do restart_current; convert ptr; in_ipc (send_signal ptr badge); pure exception_none)
decode_invocation fuel queue label length slot (reply can_grant master tcb_ptr) block call buffer =
    if not (master == 0) then invalid else (do
      restart_current
      convert tcb_ptr
      k ← get
      do_reply queue k.ipc.tasks.cur_thread tcb_ptr slot (not (can_grant == 0))
      pure exception_none)
decode_invocation fuel queue label length slot (thread ptr) block call buffer =
    decode_tcb_invocation fuel queue label length (thread ptr) slot call buffer
decode_invocation fuel queue label length slot domain block call buffer =
    decode_domain_invocation label length buffer
decode_invocation fuel queue label length slot (cnode radix size guard ptr) block call buffer =
    decode_cnode_invocation fuel queue label length (cnode radix size guard ptr) buffer
decode_invocation fuel queue label length slot (untyped index device size ptr) block call buffer =
    decode_untyped_invocation label length slot (untyped index device size ptr) buffer
decode_invocation fuel queue label length slot irq_control block call buffer =
    decode_irq_control_invocation label length slot buffer
decode_invocation fuel queue label length slot (irq_handler irq) block call buffer =
    decode_irq_handler_invocation queue label irq
decode_invocation fuel queue label length slot other block call buffer =
    decode_mmu_invocation label length slot call buffer

-- The loop of `lookup_extra_caps_with_buf` over `n` pointers from `i` on, into `current_extra_caps`:
-- whether all were found.
unfoldable pub find_extra : ℕ → ℕ → ℕ → ℕ → Cmd Kernel Bool
unfolding lookup_slot
find_extra zero i t p = do
  (if ltb i 3 then modify (λ k. record k { extra_caps = update k.extra_caps i 0 }) else pure tt)
  pure true
find_extra (suc n) i t p = do
  k ← get
  let cptr = (k.messages.buffer p).caps_or_badges i
  lu_ret ← lookup_slot t cptr
  if not (is_none lu_ret.status) then (do set_fault (cap_fault cptr 0); pure false) else (do
    modify (λ k1. record k1 { extra_caps = update k1.extra_caps i lu_ret.slot })
    find_extra n (suc i) t p)

extra_of : Option ℕ → ℕ → Info → Cmd Kernel Bool
unfolding find_extra
extra_of none t tag = pure true
extra_of (some p) t tag = find_extra (Field.get info_extra_caps tag) 0 t p

abbrev is_restart : ThreadState → Bool
is_restart restart = true
is_restart _ = false

-- What `handleInvocation` does with the status of the decoding.
unfoldable pub finish_invocation : Exception → ℕ → Bool → Cmd Kernel Exception
unfolding reply_error_from_kernel reply_success_from_kernel
finish_invocation preempted t is_call = pure preempted
finish_invocation syscall_error t is_call = do
  (if is_call then reply_error_from_kernel t else pure tt)
  pure exception_none
finish_invocation status t is_call = do
  k ← get
  (if is_restart (k.ipc.tasks.ts_type t)
      then (do
        (if is_call then reply_success_from_kernel t else pure tt)
        in_threads (set_thread_state t running))
      else pure tt)
  pure exception_none

-- The decoding, with the buffer that it unwraps.
unfoldable pub decode_with : ℕ → ℕ → Option ℕ → ℕ → Info → ℕ → Bool → Bool → Cmd Kernel Exception
unfolding decode_invocation finish_invocation
decode_with fuel queue none t tag slot is_call is_blocking = λ k. panic
decode_with fuel queue (some p) t tag slot is_call is_blocking = do
  k ← get
  status ←
      decode_invocation fuel queue (Field.get info_label tag % 2 ^ 32) (Field.get info_length tag)
        slot (k.slots.cap slot) is_blocking is_call (k.messages.buffer p).msg
  finish_invocation status t is_call

unfoldable pub handle_invocation : ℕ → ℕ → Bool → Bool → Cmd Kernel Exception
unfolding from_word_security lookup_slot handle_fault lookup_ipc_buffer extra_of decode_with
handle_invocation fuel queue is_call is_blocking = do
  k ← get
  let self = k.ipc.tasks.cur_thread
  let tag : Info = from_word_security (register k self msg_info_register)
  let cptr = register k self cap_register
  let fail : Cmd Kernel Exception = (do
    (if is_blocking then handle_fault self else pure tt)
    pure exception_none)
  lu_ret ← lookup_slot self cptr
  if not (is_none lu_ret.status) then (do set_fault (cap_fault cptr 0); fail) else (do
    buffer ← lookup_ipc_buffer self false
    all ← extra_of buffer self tag
    (if all then decode_with fuel queue buffer self tag lu_ret.slot is_call is_blocking else fail))
