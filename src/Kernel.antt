-- ===== src/Kernel.antt =====
-- kernel: the memory of threads, endpoints, notifications and slots together, with the globals of a
-- system call, and the system calls' operations in the child modules.
pub mod Cnode
pub mod Delete
pub mod Exchange
pub mod Interrupt
pub mod Labels
pub mod Message
pub mod Mmu
pub mod Objects
pub mod Reply
pub mod Syscall
pub mod Tcb
pub mod Thread
pub mod Tests
pub mod Untyped
use mi_dev_integral_rel.Base.{ℕ, ◌≡◌, refl, Bool}
use mi_dev_integral_rel.Cmd.{Run, ok, panic, Cmd, Skip, modify, and_then, pure, ◌>>=◌, ◌>>◌}
use mi_dev_integral_rel.Cmd.Returns.{Returns, returns}
use mi_dev_integral_rel.Cspace.{CSpace, Exception, syscall_error}
use mi_dev_integral_rel.Cspace.Lookup.{Globals, SyscallError, LookupFault, invalid_argument}
use mi_dev_integral_rel.Ipc.{Ipc}
use mi_dev_integral_rel.Vspace.{Vspace}

-- `seL4_Fault_t` of sel4_common/src/fault.rs, by its type.
pub data Fault : Type 0 where
  null_fault : Fault
  cap_fault : (address in_receive_phase : ℕ) → Fault
  unknown_syscall : (number : ℕ) → Fault
  user_exception : (number code : ℕ) → Fault
  vm_fault : (address fsr instruction_fault : ℕ) → Fault

-- `seL4_IPCBuffer` of sel4_common/src/structures.rs.
pub record Buffer : Type 0 where
  pub tag : ℕ
  pub msg : ℕ → ℕ
  pub user_data : ℕ
  pub caps_or_badges : ℕ → ℕ
  pub receive_cnode : ℕ
  pub receive_index : ℕ
  pub receive_depth : ℕ

-- The fields of every `tcb_t` that its messages need, and every IPC buffer by its address.
pub record Messages : Type 0 where
  pub tcb_ipc_buffer : ℕ → ℕ
  pub tcb_fault : ℕ → Fault
  pub tcb_lookup_failure : ℕ → LookupFault
  pub tcb_fault_handler : ℕ → ℕ
  pub buffer : ℕ → Buffer

-- `intStateIRQNode`, `active_irq`, `ksWorkUnitsCompleted`, and what the reads of the register sip
-- answer from now on, in their order.
pub record Interrupts : Type 0 where
  pub irq_node : ℕ
  pub active_irq : ℕ
  pub work_units : ℕ
  pub sip : ℕ → ℕ

-- `current_extra_caps` holds addresses of slots, 0 where there is none.
pub record Kernel : Type 0 where
  pub ipc : Ipc
  pub slots : CSpace
  pub globals : Globals
  pub extra_caps : ℕ → ℕ
  pub messages : Messages
  pub current_fault : Fault
  pub interrupts : Interrupts
  pub vspace : Vspace

-- A command on the slots, or on threads and notifications, as one on the whole memory.
abbrev pub of_slots : {A : Type 0} → Kernel → Run CSpace A → Run Kernel A
of_slots k (ok a c) = ok a (record k { slots = c })
of_slots k panic = panic

abbrev pub in_slots : {A : Type 0} → Cmd CSpace A → Cmd Kernel A
in_slots m k = of_slots k (m k.slots)

abbrev pub of_ipc : {A : Type 0} → Kernel → Run Ipc A → Run Kernel A
of_ipc k (ok a s) = ok a (record k { ipc = s })
of_ipc k panic = panic

abbrev pub in_ipc : {A : Type 0} → Cmd Ipc A → Cmd Kernel A
in_ipc m k = of_ipc k (m k.ipc)

pub of_slots-Returns :
    {A : Type 0} {P : A → CSpace → Type 0} (k : Kernel) (r : Run CSpace A)
    → Returns P r
    → Returns (λ a k'. P a k'.slots × (k'.globals ≡ k.globals) × (k'.ipc ≡ k.ipc)) (of_slots k r)
of_slots-Returns k (ok a c) (returns p) = returns (p, refl, refl)
of_slots-Returns k panic r = elim r [ ]

abbrev pub of_vspace : {A : Type 0} → Kernel → Run Vspace A → Run Kernel A
of_vspace k (ok a v) = ok a (record k { vspace = v })
of_vspace k panic = panic

abbrev pub in_vspace : {A : Type 0} → Cmd Vspace A → Cmd Kernel A
in_vspace m k = of_vspace k (m k.vspace)

-- `current_syscall_error`, set.
abbrev argument_of : SyscallError → ℕ → ℕ
argument_of (invalid_argument number) before = number
argument_of other before = before

abbrev pub set_error : SyscallError → Cmd Kernel Skip
set_error e = modify λ k. record k {
  globals = record k.globals {
    current_syscall_error = e;
    invalid_argument_number = argument_of e k.globals.invalid_argument_number;
  };
}

-- The two ways in which a step of decoding ends: an early return of its status, or a value for the
-- steps that follow.
pub data Checked (A : Type 0) : Type 0 where
  rejected : Exception → Checked A
  passed : A → Checked A

abbrev pub reject : {A : Type 0} → SyscallError → Cmd Kernel (Checked A)
reject e = do set_error e; pure (rejected syscall_error)

-- The steps that follow one that passed.
abbrev pub unless_rejected :
    {A : Type 0} → (A → Cmd Kernel Exception) → Checked A → Cmd Kernel Exception
unless_rejected next (rejected status) = pure status
unless_rejected next (passed a) = next a

abbrev pub checking :
    {A : Type 0} → Cmd Kernel (Checked A) → (A → Cmd Kernel Exception) → Cmd Kernel Exception
checking m next k = and_then (m k) (unless_rejected next)
