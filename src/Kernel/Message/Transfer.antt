-- ===== src/Kernel/Message/Transfer.antt =====
-- The transfer of a message from a sender to a receiver: sel4_ipc/src/transfer.rs, with what it calls
-- of sel4_task/src/tcb.rs.
use Prim.Native.Nat.{bit_or}
use mi_dev_integral_rel.Base.{
  ℕ, zero, suc, ◌+◌, ◌-◌, ◌^◌, Bool, true, false, not, ◌||◌, Option, none, some, ltb, ◌==◌, update,
  if◌then◌else◌,
}
use mi_dev_integral_rel.Field
use mi_dev_integral_rel.Field.{Field}
use mi_dev_integral_rel.Cmd.{Cmd, Skip, panic, pure, ◌>>=◌, ◌>>◌, convert, get}
use mi_dev_integral_rel.Task.Scheduler.{set_register}
use mi_dev_integral_rel.Cspace.{Exception, exception_none, Capability, endpoint, get_cap_type}
use mi_dev_integral_rel.Cspace.Cte.{cte_insert}
use mi_dev_integral_rel.Cspace.Derive.{derive_cap}
use mi_dev_integral_rel.Cspace.Lookup.{
  LookupFault, missing_capability, depth_mismatch, guard_mismatch,
}
use mi_dev_integral_rel.Cspace.Resolve.{resolve_address_bits}
use mi_dev_integral_rel.Kernel.{
  Kernel, Fault, null_fault, cap_fault, unknown_syscall, user_exception, vm_fault, in_slots,
}
use mi_dev_integral_rel.Kernel.Message.{
  in_threads, register, msg_register, msg_info_register, badge_register, fault_ip, msg_register_num,
  msg_max_length, lookup_ipc_buffer, lookup_mut_ipc_buffer, set_mr, copy_mrs, write_badge,
  write_msg, lookup_slot, resolving, min,
}

-- The fields of `seL4_MessageInfo_t`, sel4_common/src/message_info.rs.
abbrev info : ℕ → ℕ → Field
info o b = record { index = 0; offset = o; bits = b; shift = 0; sign_ext = false }

abbrev pub info_label : Field
info_label = info 12 52

abbrev pub info_caps_unwrapped : Field
info_caps_unwrapped = info 9 3

abbrev pub info_extra_caps : Field
info_extra_caps = info 7 2

abbrev pub info_length : Field
info_length = info 0 7

abbrev pub Info : Type 0
Info = ℕ → ℕ

unfoldable pub from_word_security : ℕ → Info
from_word_security w =
    let mi : Info = update (λ i. 0) 0 w in
    if ltb msg_max_length (Field.get info_length mi)
    then Field.set info_length mi msg_max_length
    else mi

is_none : Exception → Bool
is_none exception_none = true
is_none _ = false

-- `get_receive_slot`; `none` is no slot.
receive_slot_in : Option ℕ → ℕ → Cmd Kernel (Option ℕ)
unfolding lookup_slot resolving is_none
receive_slot_in none t = pure none
receive_slot_in (some p) t = do
  k ← get
  let buffer = k.messages.buffer p
  lu_ret ← lookup_slot t buffer.receive_cnode
  if not (is_none lu_ret.status) then pure none else (do
    lus_ret ← resolving (
        resolve_address_bits k.slots (k.slots.cap lu_ret.slot) buffer.receive_index
          buffer.receive_depth)
    (if not (is_none lus_ret.status) || not (lus_ret.bits_remaining == 0)
        then pure none
        else (do convert lus_ret.slot; pure (some lus_ret.slot))))

unfoldable pub get_receive_slot : ℕ → Cmd Kernel (Option ℕ)
unfolding receive_slot_in lookup_ipc_buffer
get_receive_slot t = do p ← lookup_ipc_buffer t true; receive_slot_in p t

-- The loop of `lookup_extra_caps` over `n` pointers from `i` on. A failed lookup leaves what was found.
unfoldable pub lookup_extra : ℕ → ℕ → ℕ → ℕ → (ℕ → ℕ) → Cmd Kernel (ℕ → ℕ)
unfolding lookup_slot is_none
lookup_extra zero i t p res = pure res
lookup_extra (suc n) i t p res = do
  k ← get
  lu_ret ← lookup_slot t ((k.messages.buffer p).caps_or_badges i)
  if not (is_none lu_ret.status)
      then pure res
      else lookup_extra n (suc i) t p (update res i lu_ret.slot)

extra_in : Option ℕ → ℕ → Info → Cmd Kernel (ℕ → ℕ)
unfolding lookup_extra
extra_in none t tag = pure (λ i. 0)
extra_in (some p) t tag = lookup_extra (Field.get info_extra_caps tag) 0 t p (λ i. 0)

-- `lookup_extra_caps` into an array of nulls, as `do_normal_transfer` calls it.
unfoldable pub lookup_extra_caps : ℕ → Cmd Kernel (ℕ → ℕ)
unfolding extra_in lookup_ipc_buffer from_word_security
lookup_extra_caps t = do
  k ← get
  p ← lookup_ipc_buffer t false
  extra_in p t (from_word_security (register k t msg_info_register))

unfoldable pub lookup_extra_caps_with_buf : ℕ → Option ℕ → Cmd Kernel (ℕ → ℕ)
unfolding extra_in from_word_security
lookup_extra_caps_with_buf t p = do
  k ← get
  extra_in p t (from_word_security (register k t msg_info_register))

-- Whether a capability is one to the endpoint that the message goes through.
unfoldable pub is_own_endpoint : Option ℕ → Capability → Bool
is_own_endpoint (some ep) (endpoint _ _ _ _ _ ptr) = ptr == ep
is_own_endpoint _ _ = false

abbrev badge_of : Capability → ℕ
badge_of (endpoint badge _ _ _ _ _) = badge
badge_of other = 0

-- A capability that is derived into the receive slot, which is then used up; `stop` is the outcome so
-- far, `rest` the rest of the loop.
pass_cap : ℕ × Info → Option ℕ → ℕ → Capability → Cmd Kernel (ℕ × Info) → Cmd Kernel (ℕ × Info)
unfolding is_none
pass_cap stop none slot sent rest = pure stop
pass_cap stop (some d) slot sent rest = do
  dc_ret ← in_slots (derive_cap slot sent)
  if not (is_none dc_ret.status) || (get_cap_type dc_ret.cap == 0)
      then pure stop
      else (do in_slots (cte_insert dc_ret.cap slot d); rest)

-- The loop of `set_transfer_caps`, with `n` of seL4_MsgMaxExtraCaps to go: how many capabilities were
-- passed, and the message's information.
unfoldable pub transfer_caps :
    ℕ → ℕ → Option ℕ → ℕ → (ℕ → ℕ) → Option ℕ → Info → Cmd Kernel (ℕ × Info)
unfolding is_own_endpoint pass_cap
transfer_caps zero i ep buffer extra dest tag = pure (i, tag)
transfer_caps (suc n) i ep buffer extra dest tag = do
  k ← get
  let slot = extra i
  let sent = k.slots.cap slot
  if slot == 0
      then pure (i, tag)
      else if is_own_endpoint ep sent
      then (do
        write_badge buffer i (badge_of sent)
        transfer_caps n (suc i) ep buffer extra dest (
            Field.set info_caps_unwrapped tag (bit_or (Field.get info_caps_unwrapped tag) (2 ^ i))))
      else pass_cap (i, tag) dest slot sent (transfer_caps n (suc i) ep buffer extra none tag)

caps_into : Option ℕ → ℕ → Option ℕ → (ℕ → ℕ) → Info → Cmd Kernel Info
unfolding transfer_caps get_receive_slot
caps_into none receiver ep extra tag = pure tag
caps_into (some buffer) receiver ep extra tag = if extra 0 == 0 then pure tag else (do
  dest ← get_receive_slot receiver
  r ← transfer_caps 3 0 ep buffer extra dest tag
  pure (Field.set info_extra_caps r.1 r.0))

-- `set_transfer_caps`, which returns the message's information.
unfoldable pub set_transfer_caps : ℕ → Option ℕ → Info → (ℕ → ℕ) → Cmd Kernel Info
unfolding caps_into lookup_mut_ipc_buffer
set_transfer_caps receiver ep tag extra = do
  p ← lookup_mut_ipc_buffer receiver true
  caps_into p receiver ep extra (Field.set info_caps_unwrapped (Field.set info_extra_caps tag 0) 0)

unfoldable pub set_transfer_caps_with_buf :
    ℕ → Option ℕ → Info → (ℕ → ℕ) → Option ℕ → Cmd Kernel Info
unfolding caps_into
set_transfer_caps_with_buf receiver ep tag extra p =
    caps_into p receiver ep extra
      (Field.set info_caps_unwrapped (Field.set info_extra_caps tag 0) 0)

unfoldable pub do_normal_transfer : ℕ → ℕ → Option ℕ → ℕ → Bool → Cmd Kernel Skip
unfolding from_word_security lookup_extra_caps copy_mrs set_transfer_caps
do_normal_transfer sender receiver ep badge can_grant = do
  k ← get
  let tag = from_word_security (register k sender msg_info_register)
  extra ← if can_grant then lookup_extra_caps sender else pure (λ i. 0)
  msg_transferred ← copy_mrs sender receiver (Field.get info_length tag)
  sent ← set_transfer_caps receiver ep tag extra
  in_threads
      (set_register receiver msg_info_register (Field.set info_length sent msg_transferred 0))
  in_threads (set_register receiver badge_register badge)

-- `fault_messages` of sel4_common/src/arch/riscv64/registers.rs, n_syscallMessage and n_exceptionMessage.
unfoldable pub fault_message : ℕ → ℕ → ℕ
fault_message id i =
    if i == 0 then 33 else if i == 1 then 1 else if i == 2 then 0 else if id == 0 then i + 6 else 0

abbrev pub syscall_message : ℕ
syscall_message = 10

abbrev pub exception_message : ℕ
exception_message = 2

-- The two loops of `copy_fault_mrs`, over `n` registers from `i` on.
unfoldable pub copy_fault_registers : ℕ → ℕ → ℕ → ℕ → ℕ → Cmd Kernel Skip
unfolding fault_message
copy_fault_registers zero i sender receiver id = pure tt
copy_fault_registers (suc n) i sender receiver id = do
  k ← get
  in_threads (set_register receiver (msg_register i) (register k sender (fault_message id i)))
  copy_fault_registers n (suc i) sender receiver id

unfoldable pub copy_fault_words : ℕ → ℕ → ℕ → Option ℕ → ℕ → Cmd Kernel Skip
unfolding fault_message
copy_fault_words n i sender none id = pure tt
copy_fault_words zero i sender (some p) id = pure tt
copy_fault_words (suc n) i sender (some p) id = do
  k ← get
  write_msg p i (register k sender (fault_message id i))
  copy_fault_words n (suc i) sender (some p) id

unfoldable pub copy_fault_mrs : ℕ → ℕ → ℕ → ℕ → Cmd Kernel Skip
unfolding copy_fault_registers copy_fault_words lookup_mut_ipc_buffer
copy_fault_mrs sender receiver id length = do
  let len = min length msg_register_num
  copy_fault_registers len 0 sender receiver id
  p ← lookup_mut_ipc_buffer receiver true
  copy_fault_words (length - len) len sender p id

-- `set_lookup_fault_mrs` at seL4_CapFault_LookupFailureType, 3; its assertions are on constants.
unfoldable pub set_lookup_fault_mrs : ℕ → ℕ → LookupFault → Cmd Kernel ℕ
unfolding set_mr
set_lookup_fault_mrs t offset (missing_capability bits_left) = do
  set_mr t offset 2
  set_mr t (offset + 1) bits_left
set_lookup_fault_mrs t offset (depth_mismatch bits_found bits_left) = do
  set_mr t offset 3
  set_mr t (offset + 1) bits_left
  set_mr t (offset + 2) bits_found
set_lookup_fault_mrs t offset (guard_mismatch guard_found bits_left bits_found) = do
  set_mr t offset 4
  set_mr t (offset + 1) bits_left
  set_mr t (offset + 2) guard_found
  set_mr t (offset + 3) bits_found
set_lookup_fault_mrs t offset _ = set_mr t offset 1

-- The message of a fault, and how long it is; `panic` is "invalid fault".
unfoldable pub send_fault : Fault → ℕ → ℕ → Cmd Kernel ℕ
unfolding set_mr set_lookup_fault_mrs copy_fault_mrs
send_fault null_fault sender receiver = λ k. panic
send_fault (cap_fault address in_receive_phase) sender receiver = do
  k ← get
  set_mr receiver 0 (register k sender fault_ip)
  set_mr receiver 1 address
  set_mr receiver 2 in_receive_phase
  set_lookup_fault_mrs receiver 3 (k.messages.tcb_lookup_failure sender)
send_fault (unknown_syscall number) sender receiver = do
  copy_fault_mrs sender receiver 0 syscall_message
  set_mr receiver syscall_message number
send_fault (user_exception number code) sender receiver = do
  copy_fault_mrs sender receiver 1 exception_message
  set_mr receiver exception_message number
  set_mr receiver (exception_message + 1) code
send_fault (vm_fault address fsr instruction_fault) sender receiver = do
  k ← get
  set_mr receiver 0 (register k sender fault_ip)
  set_mr receiver 1 address
  set_mr receiver 2 instruction_fault
  set_mr receiver 3 fsr

-- `FaultType`, by its number.
abbrev pub fault_type : Fault → ℕ
fault_type null_fault = 0
fault_type (cap_fault _ _) = 1
fault_type (unknown_syscall _) = 2
fault_type (user_exception _ _) = 3
fault_type (vm_fault _ _ _) = 5

unfoldable pub do_fault_transfer : ℕ → ℕ → ℕ → Cmd Kernel Skip
unfolding send_fault
do_fault_transfer sender receiver badge = do
  k ← get
  let fault = k.messages.tcb_fault sender
  sent ← send_fault fault sender receiver
  in_threads (
      set_register receiver msg_info_register
        (Field.set info_length (Field.set info_label (λ i. 0) (fault_type fault)) sent 0))
  in_threads (set_register receiver badge_register badge)

unfoldable pub do_ipc_transfer : ℕ → ℕ → Option ℕ → ℕ → Bool → Cmd Kernel Skip
unfolding do_normal_transfer do_fault_transfer
do_ipc_transfer sender receiver ep badge grant = do
  k ← get
  if fault_type (k.messages.tcb_fault sender) == 0
      then do_normal_transfer sender receiver ep badge grant
      else do_fault_transfer sender receiver badge
