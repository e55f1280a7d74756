-- ===== src/Kernel/Tcb/Invocation.antt =====
-- Decoding the operations that configure a thread, and `decode_tcb_invocation`:
-- kernel/src/syscall/invocation/decode/decode_tcb_invocation.rs without ENABLE_SMP.
use mi_dev_integral_rel.Base.{ℕ, Bool, not, ◌||◌, ltb, ◌==◌, if◌then◌else◌}
use mi_dev_integral_rel.Cmd.{Cmd, pure, ◌>>=◌, ◌>>◌, assert, convert, get}
use mi_dev_integral_rel.Cspace.{Exception, Capability, null, notification, thread}
use mi_dev_integral_rel.Cspace.Lookup.{illegal_operation, truncated_message, invalid_capability}
use mi_dev_integral_rel.Kernel.{Kernel, Checked, passed, reject, checking}
use mi_dev_integral_rel.Kernel.Cnode.{restart_current, illegal}
use mi_dev_integral_rel.Kernel.Untyped.Decode.{get_syscall_arg}
use mi_dev_integral_rel.Kernel.Delete.{is_none}
use mi_dev_integral_rel.Kernel.Labels.{
  tcb_read_registers, tcb_write_registers, tcb_copy_registers, tcb_configure, tcb_set_priority,
  tcb_set_mc_priority, tcb_set_sched_params, tcb_set_ipc_buffer, tcb_set_space, tcb_suspend,
  tcb_resume, tcb_bind_notification, tcb_unbind_notification, tcb_set_tls_base,
}
use mi_dev_integral_rel.Kernel.Tcb.{
  invoke_tcb_suspend, invoke_tcb_resume, invoke_tcb_set_mcp, invoke_tcb_set_priority,
  invoke_tcb_set_space, invoke_tcb_set_ipc_buffer, invoke_tcb_bind_notification,
  invoke_tcb_unbind_notification, invoke_tcb_set_tls_base,
}
use mi_dev_integral_rel.Kernel.Tcb.Decode.{
  require, tcb_of, check_prio, decode_roots, decode_buffer, buffer_slot_of, decode_read_registers,
  decode_write_registers, decode_copy_registers,
}

unfoldable pub decode_tcb_configure : ℕ → ℕ → Capability → ℕ → ℕ → (ℕ → ℕ) → Cmd Kernel Exception
unfolding get_syscall_arg tcb_of decode_buffer decode_roots invoke_tcb_set_space
    invoke_tcb_set_ipc_buffer
decode_tcb_configure fuel queue cap length slot buffer = do
  k ← get
  let extra = k.extra_caps
  let addr = get_syscall_arg k buffer 3
  checking
      (require (not (ltb length 4 || (extra 0 == 0) || (extra 1 == 0) || (extra 2 == 0)))
        truncated_message)
      λ _. checking (decode_buffer addr (extra 2) (k.slots.cap (extra 2))) λ buffer_cap. (do
        target ← tcb_of cap
        decode_roots target (get_syscall_arg k buffer 1) (get_syscall_arg k buffer 2) λ roots. (do
          restart_current
          status ←
              invoke_tcb_set_space fuel queue target slot (get_syscall_arg k buffer 0)
                roots.croot_cap (extra 0) roots.vroot_cap (extra 1)
          if not (is_none status)
              then pure status
              else invoke_tcb_set_ipc_buffer fuel queue target slot addr buffer_cap
                  (buffer_slot_of addr (extra 2))))

unfoldable pub decode_set_space : ℕ → ℕ → Capability → ℕ → ℕ → (ℕ → ℕ) → Cmd Kernel Exception
unfolding get_syscall_arg tcb_of decode_roots invoke_tcb_set_space
decode_set_space fuel queue cap length slot buffer = do
  k ← get
  let extra = k.extra_caps
  checking (require (not (ltb length 3 || (extra 0 == 0) || (extra 1 == 0))) truncated_message) λ _.
      (do
        target ← tcb_of cap
        decode_roots target (get_syscall_arg k buffer 1) (get_syscall_arg k buffer 2) λ roots. (do
          restart_current
          invoke_tcb_set_space fuel queue target slot (get_syscall_arg k buffer 0) roots.croot_cap
              (extra 0) roots.vroot_cap (extra 1)))

unfoldable pub decode_set_ipc_buffer : ℕ → ℕ → Capability → ℕ → ℕ → (ℕ → ℕ) → Cmd Kernel Exception
unfolding get_syscall_arg tcb_of decode_buffer invoke_tcb_set_ipc_buffer
decode_set_ipc_buffer fuel queue cap length slot buffer = do
  k ← get
  let addr = get_syscall_arg k buffer 0
  let buffer_slot = k.extra_caps 0
  checking (require (not (ltb length 1 || (buffer_slot == 0))) truncated_message) λ _.
      checking (decode_buffer addr buffer_slot null) λ buffer_cap. (do
        restart_current
        target ← tcb_of cap
        invoke_tcb_set_ipc_buffer fuel queue target slot addr buffer_cap
            (buffer_slot_of addr buffer_slot))

-- The thread of the capability that gives the authority over a priority, in the first extra slot.
unfoldable pub authority : Capability → Cmd Kernel (Checked ℕ)
authority (thread ptr) = do convert ptr; pure (passed ptr)
authority other = reject (invalid_capability 1)

-- `decode_set_priority` and `decode_set_mc_priority` differ in what they do with the number.
unfoldable pub decode_prio : ℕ → (ℕ → ℕ) → (ℕ → Cmd Kernel Exception) → Cmd Kernel Exception
unfolding get_syscall_arg authority check_prio
decode_prio length buffer next = do
  k ← get
  let prio = get_syscall_arg k buffer 0
  checking (require (not (ltb length 1 || (k.extra_caps 0 == 0))) truncated_message) λ _.
      checking (authority (k.slots.cap (k.extra_caps 0)))
        λ auth_tcb. checking (check_prio prio auth_tcb) λ _. (do restart_current; next prio)

unfoldable pub decode_set_priority : Capability → ℕ → (ℕ → ℕ) → Cmd Kernel Exception
unfolding tcb_of decode_prio invoke_tcb_set_priority
decode_set_priority cap length buffer =
    decode_prio length buffer λ prio. (do t ← tcb_of cap; invoke_tcb_set_priority t prio)

unfoldable pub decode_set_mc_priority : Capability → ℕ → (ℕ → ℕ) → Cmd Kernel Exception
unfolding tcb_of decode_prio invoke_tcb_set_mcp
decode_set_mc_priority cap length buffer =
    decode_prio length buffer λ mcp. (do t ← tcb_of cap; invoke_tcb_set_mcp t mcp)

-- The source rejects a message with an extra capability and then unwraps it.
unfoldable pub decode_set_sched_params : Capability → ℕ → (ℕ → ℕ) → Cmd Kernel Exception
unfolding get_syscall_arg tcb_of authority check_prio invoke_tcb_set_mcp invoke_tcb_set_priority
decode_set_sched_params cap length buffer = do
  k ← get
  let new_mcp = get_syscall_arg k buffer 0
  let new_prio = get_syscall_arg k buffer 1
  checking (require (not (ltb length 2 || not (k.extra_caps 0 == 0))) truncated_message) λ _. (do
    assert (not (k.extra_caps 0 == 0))
    checking (authority (k.slots.cap (k.extra_caps 0))) λ auth_tcb.
        checking (check_prio new_mcp auth_tcb) λ _. checking (check_prio new_prio auth_tcb) λ _. (do
          restart_current
          target ← tcb_of cap
          invoke_tcb_set_mcp target new_mcp
          invoke_tcb_set_priority target new_prio))

-- What `decode_bind_notification` asks of the notification's capability.
unfoldable pub bindable : Capability → Cmd Kernel (Checked ℕ)
bindable (notification badge can_receive can_send ptr) = do
  convert ptr
  k ← get
  (if (can_receive == 0)
        || not ((k.ipc.ntfn_queue ptr).head == 0)
        || not ((k.ipc.ntfn_queue ptr).tail == 0)
      then reject illegal_operation
      else pure (passed ptr))
bindable other = reject illegal_operation

unfoldable pub decode_bind_notification : Capability → Cmd Kernel Exception
unfolding tcb_of bindable invoke_tcb_bind_notification
decode_bind_notification cap = do
  k ← get
  checking (require (not (k.extra_caps 0 == 0)) truncated_message) λ _. (do
    tcb ← tcb_of cap
    checking (require (k.ipc.tasks.bound_notification tcb == 0) illegal_operation) λ _.
        checking (bindable (k.slots.cap (k.extra_caps 0)))
          λ ntfn. (do restart_current; invoke_tcb_bind_notification tcb ntfn))

unfoldable pub decode_unbind_notification : Capability → Cmd Kernel Exception
unfolding tcb_of invoke_tcb_unbind_notification
decode_unbind_notification cap = do
  k ← get
  tcb ← tcb_of cap
  checking (require (not (k.ipc.tasks.bound_notification tcb == 0)) illegal_operation)
      λ _. (do restart_current; invoke_tcb_unbind_notification tcb)

unfoldable pub decode_set_tls_base : Capability → ℕ → (ℕ → ℕ) → Cmd Kernel Exception
unfolding get_syscall_arg tcb_of invoke_tcb_set_tls_base
decode_set_tls_base cap length buffer = do
  k ← get
  checking (require (not (ltb length 1)) truncated_message) λ _. (do
    restart_current
    t ← tcb_of cap
    invoke_tcb_set_tls_base t (get_syscall_arg k buffer 0))

-- `decode_tcb_invocation`, by the number of the label.
unfoldable pub decode_tcb_invocation :
    ℕ → ℕ → ℕ → ℕ → Capability → ℕ → Bool → (ℕ → ℕ) → Cmd Kernel Exception
unfolding tcb_of decode_read_registers decode_write_registers decode_copy_registers
    decode_tcb_configure decode_set_priority decode_set_mc_priority decode_set_sched_params
    decode_set_ipc_buffer decode_set_space invoke_tcb_suspend invoke_tcb_resume
    decode_bind_notification decode_unbind_notification decode_set_tls_base
decode_tcb_invocation fuel queue label length cap slot call buffer =
    if label == tcb_read_registers
    then decode_read_registers queue cap length call buffer
    else if label == tcb_write_registers
    then decode_write_registers queue cap length buffer
    else if label == tcb_copy_registers
    then decode_copy_registers queue cap buffer
    else if label == tcb_configure
    then decode_tcb_configure fuel queue cap length slot buffer
    else if label == tcb_set_priority
    then decode_set_priority cap length buffer
    else if label == tcb_set_mc_priority
    then decode_set_mc_priority cap length buffer
    else if label == tcb_set_sched_params
    then decode_set_sched_params cap length buffer
    else if label == tcb_set_ipc_buffer
    then decode_set_ipc_buffer fuel queue cap length slot buffer
    else if label == tcb_set_space
    then decode_set_space fuel queue cap length slot buffer
    else if label == tcb_suspend
    then (do restart_current; t ← tcb_of cap; invoke_tcb_suspend queue t)
    else if label == tcb_resume
    then (do restart_current; t ← tcb_of cap; invoke_tcb_resume queue t)
    else if label == tcb_bind_notification
    then decode_bind_notification cap
    else if label == tcb_unbind_notification
    then decode_unbind_notification cap
    else if label == tcb_set_tls_base
    then decode_set_tls_base cap length buffer
    else illegal
