-- ===== src/Kernel/Syscall/Invocation/Answer.antt =====
-- The reply of the kernel to a call: kernel/src/syscall/syscall_reply.rs.
use mi_dev_integral_rel.Base.{ℕ, if◌then◌else◌}
use mi_dev_integral_rel.Field
use mi_dev_integral_rel.Cmd.{Cmd, Skip, panic, pure, ◌>>=◌, ◌>>◌, get}
use mi_dev_integral_rel.Task.Scheduler.{set_register}
use mi_dev_integral_rel.Cspace.Lookup.{
  SyscallError, no_error, failed_lookup, range_error, illegal_operation, truncated_message,
  delete_first, revoke_first, alignment_error, invalid_argument, not_enough_memory,
  invalid_capability,
}
use mi_dev_integral_rel.Kernel.{Kernel}
use mi_dev_integral_rel.Kernel.Message.{in_threads, msg_info_register, badge_register, set_mr}
use mi_dev_integral_rel.Kernel.Message.Transfer.{info_label, info_length, set_lookup_fault_mrs}

-- `current_syscall_error._type`
unfoldable pub error_type : SyscallError → ℕ
error_type no_error = 0
error_type (invalid_argument _) = 1
error_type (invalid_capability _) = 2
error_type illegal_operation = 3
error_type (range_error _ _) = 4
error_type alignment_error = 5
error_type (failed_lookup _) = 6
error_type truncated_message = 7
error_type delete_first = 8
error_type revoke_first = 9
error_type (not_enough_memory _) = 10

-- `set_mrs_for_syscall_error`; the panic is "invalid syscall error".
unfoldable pub set_error_mrs : SyscallError → ℕ → Cmd Kernel ℕ
unfolding set_mr set_lookup_fault_mrs
set_error_mrs no_error t = λ k. panic
set_error_mrs (invalid_argument number) t = set_mr t 0 number
set_error_mrs (invalid_capability number) t = set_mr t 0 number
set_error_mrs (range_error min max) t = do set_mr t 0 min; set_mr t 1 max
set_error_mrs (failed_lookup was_source) t = do
  set_mr t 0 (if was_source then 1 else 0)
  k ← get
  set_lookup_fault_mrs t 1 k.globals.current_lookup_fault
set_error_mrs (not_enough_memory left) t = set_mr t 0 left
set_error_mrs illegal_operation t = pure 0
set_error_mrs alignment_error t = pure 0
set_error_mrs truncated_message t = pure 0
set_error_mrs delete_first t = pure 0
set_error_mrs revoke_first t = pure 0

-- The information of a message by its label and length.
abbrev message_info : ℕ → ℕ → ℕ
message_info label length = Field.set info_length (Field.set info_label (λ i. 0) label) length 0

unfoldable pub reply_error_from_kernel : ℕ → Cmd Kernel Skip
unfolding set_error_mrs error_type
reply_error_from_kernel t = do
  in_threads (set_register t badge_register 0)
  k ← get
  let e = k.globals.current_syscall_error
  len ← set_error_mrs e t
  in_threads (set_register t msg_info_register (message_info (error_type e) len))

unfoldable pub reply_success_from_kernel : ℕ → Cmd Kernel Skip
reply_success_from_kernel t = do
  in_threads (set_register t badge_register 0)
  in_threads (set_register t msg_info_register 0)
