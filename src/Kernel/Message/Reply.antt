-- ===== src/Kernel/Message/Reply.antt =====
-- The reply to a fault: do_fault_reply_transfer of sel4_ipc/src/transfer.rs, with
-- copy_fault_mrs_for_reply of sel4_task/src/tcb.rs.
use mi_dev_integral_rel.Base.{
  ℕ, zero, suc, ◌-◌, ◌%◌, ◌^◌, Bool, true, false, Option, none, some, ◌==◌,
}
use mi_dev_integral_rel.Field
use mi_dev_integral_rel.Cmd.{Cmd, Skip, pure, ◌>>=◌, ◌>>◌, get}
use mi_dev_integral_rel.Task.Scheduler.{set_register}
use mi_dev_integral_rel.Kernel.{Kernel, Fault, unknown_syscall, user_exception}
use mi_dev_integral_rel.Kernel.Message.{
  in_threads, register, msg_register, msg_info_register, msg_register_num, lookup_ipc_buffer, min,
}
use mi_dev_integral_rel.Kernel.Message.Transfer.{
  Info, info_label, info_length, from_word_security, fault_message, syscall_message,
  exception_message,
}

-- The two loops of `copy_fault_mrs_for_reply`, over `n` registers from `i` on.
unfoldable pub reply_registers : ℕ → ℕ → ℕ → ℕ → ℕ → Cmd Kernel Skip
unfolding fault_message
reply_registers zero i self receiver id = pure tt
reply_registers (suc n) i self receiver id = do
  k ← get
  in_threads (set_register receiver (fault_message id i) (register k self (msg_register i)))
  reply_registers n (suc i) self receiver id

unfoldable pub reply_words : ℕ → ℕ → Option ℕ → ℕ → ℕ → Cmd Kernel Skip
unfolding fault_message
reply_words n i none receiver id = pure tt
reply_words zero i (some p) receiver id = pure tt
reply_words (suc n) i (some p) receiver id = do
  k ← get
  in_threads (set_register receiver (fault_message id i) ((k.messages.buffer p).msg i))
  reply_words n (suc i) (some p) receiver id

unfoldable pub copy_fault_mrs_for_reply : ℕ → ℕ → ℕ → ℕ → Cmd Kernel Skip
unfolding reply_registers reply_words lookup_ipc_buffer
copy_fault_mrs_for_reply self receiver id length = do
  let len = min length msg_register_num
  reply_registers len 0 self receiver id
  p ← lookup_ipc_buffer self false
  reply_words (length - len) len p receiver id

-- Whether the label of a message, of which `get_label` keeps 32 bits, is 0.
abbrev restarts : Info → Bool
restarts tag = Field.get info_label tag % 2 ^ 32 == 0

-- The match of `do_fault_reply_transfer` on the receiver's fault.
fault_reply : Fault → Info → ℕ → ℕ → Cmd Kernel Bool
unfolding copy_fault_mrs_for_reply
fault_reply (unknown_syscall _) tag self receiver = do
  copy_fault_mrs_for_reply self receiver 0 (min (Field.get info_length tag) syscall_message)
  pure (restarts tag)
fault_reply (user_exception _ _) tag self receiver = do
  copy_fault_mrs_for_reply self receiver 1 (min (Field.get info_length tag) exception_message)
  pure (restarts tag)
fault_reply other tag self receiver = pure true

unfoldable pub do_fault_reply_transfer : ℕ → ℕ → Cmd Kernel Bool
unfolding fault_reply from_word_security
do_fault_reply_transfer self receiver = do
  k ← get
  fault_reply (k.messages.tcb_fault receiver)
      (from_word_security (register k self msg_info_register)) self receiver
