-- ===== src/Kernel/Tests.antt =====
-- The theorems on system calls at a concrete block of untyped memory and CNode.
use mi_dev_integral_rel.Base.{
  ℕ, ◌+◌, ◌*◌, ◌^◌, ◌≡◌, ◌≤◌, ◌<◌, ◌-◌, refl, [], ◌∷◌, arith, ◌==◌, if◌then◌else◌,
}
use mi_dev_integral_rel.Cmd.Returns.{Returns}
use mi_dev_integral_rel.Task.Tests.{quiet, no_queue}
use mi_dev_integral_rel.Ipc.{Ipc, ep_idle, ntfn_idle}
use mi_dev_integral_rel.Cspace.{CSpace, null, untyped, cnode, exception_none}
use mi_dev_integral_rel.Cspace.Lookup.{no_error, no_fault}
use mi_dev_integral_rel.Cspace.Mdb.{IsMdb}
use mi_dev_integral_rel.Kernel.{Kernel, Messages, null_fault}
use mi_dev_integral_rel.Kernel.Objects.{tcb_object, endpoint_object, get_object_size}
use mi_dev_integral_rel.Kernel.Untyped.{
  create_new_objects, object_at, offset_slot, free_index_to_offset,
}
use mi_dev_integral_rel.Kernel.Untyped.Chunks.{reset_untyped_cap-Cleared, in_chunks, with_cap}
use mi_dev_integral_rel.Kernel.Untyped.Cleared.{Cleared}
use mi_dev_integral_rel.Kernel.Untyped.Create.{Filled, create_new_objects-Filled}
use mi_dev_integral_rel.Kernel.Untyped.Decode.{decode_untyped_invocation, untyped_free_bytes}
use mi_dev_integral_rel.Kernel.Untyped.Fits.{
  InBlock, object_of, free_index_after, retype-InBlock, retype-taken,
}
use mi_dev_integral_rel.Kernel.Untyped.Reject.{ErrorIsQuiet, decode_untyped_invocation-ErrorIsQuiet}
use mi_dev_integral_rel.Kernel.Untyped.Reset.{reset_untyped_cap}

-- Slot 64 holds a block of a page, of which 64 bytes are taken, and slot 96 a CNode of four slots.
abbrev block : CSpace
block = record {
  cap = λ s. if s == 64 then untyped 4 1 12 65536 else if s == 96 then cnode 2 0 0 32768 else null;
  mdb_next = λ s. 0;
  mdb_prev = λ s. 0;
  mdb_revocable = λ s. 0;
  mdb_first_badged = λ s. 0;
  irq_state = λ i. 0;
}

abbrev idle : Ipc
idle = record {
  tasks = quiet;
  ep_state = λ ep. ep_idle;
  ep_queue = λ ep. no_queue;
  ntfn_state = λ ntfn. ntfn_idle;
  ntfn_queue = λ ntfn. no_queue;
  msg_identifier = λ ntfn. 0;
  bound_tcb = λ ntfn. 0;
}

abbrev silent : Messages
silent = record {
  tcb_ipc_buffer = λ t. 0;
  tcb_fault = λ t. null_fault;
  tcb_lookup_failure = λ t. no_fault;
  tcb_fault_handler = λ t. 0;
  buffer = λ p. record {
    tag = 0;
    msg = λ i. 0;
    user_data = 0;
    caps_or_badges = λ i. 0;
    receive_cnode = 0;
    receive_index = 0;
    receive_depth = 0;
  };
}

abbrev pub system : Kernel
system = record {
  ipc = idle;
  slots = block;
  globals = record {
    current_syscall_error = no_error;
    current_lookup_fault = no_fault;
    invalid_argument_number = 0;
  };
  extra_caps = λ i. if i == 0 then 96 else 0;
  messages = silent;
  current_fault = null_fault;
  interrupts = record { irq_node = 0; active_irq = 0; work_units = 0; sip = λ n. 0 };
  vspace = record {
    pte = λ p. 0;
    asid_table = λ i. 0;
    asid_pool = λ p i. 0;
    satp = 0;
    kernel_root = 2147483648;
  };
}

block-IsMdb : IsMdb block 64 (64 ∷ []) 64
block-IsMdb = record { seg = (refl, (λ e. omega arith), refl, (refl, refl)); distinct = (refl, tt) }

retype-InBlock_example :
    InBlock 65536 12 4 tcb_object 0 1
    × ((j : ℕ)
        → 1 < j
        → j < 3
        → object_of 65536 4 tcb_object 0 1 + 2 ^ get_object_size tcb_object 0
          ≤ object_of 65536 4 tcb_object 0 j)
unfolding untyped_free_bytes free_index_to_offset get_object_size
retype-InBlock_example =
    retype-InBlock 65536 12 4 4 1 tcb_object 0 3 refl (omega arith) (omega arith) refl 1
      (omega arith)

retype-taken_example :
    (free_index_after 65536 4 tcb_object 0 3 * 2 ^ 4 ≤ 2 ^ 12)
    × (4 ≤ free_index_after 65536 4 tcb_object 0 3)
    × ((i : ℕ)
        → i < 3
        → object_of 65536 4 tcb_object 0 i + 2 ^ get_object_size tcb_object 0
          ≤ 65536 + free_index_after 65536 4 tcb_object 0 3 * 2 ^ 4)
unfolding untyped_free_bytes free_index_to_offset get_object_size
retype-taken_example =
    retype-taken 65536 12 4 4 1 tcb_object 0 3 refl (omega arith) (omega arith) (omega arith)
      (omega arith) refl

create_new_objects-Filled_example :
    Returns
      (λ _ k'. Filled endpoint_object 64 32768 1 65600 0 0 64 [] (omega arith) 2 0 [] system k')
      (create_new_objects 2 0 endpoint_object 64 32768 1 65600 0 0 system)
unfolding offset_slot object_at get_object_size
create_new_objects-Filled_example =
    create_new_objects-Filled endpoint_object 64 32768 1 65600 0 0 64 [] (omega arith) 2 0 [] 64
      system block-IsMdb (omega arith) (λ j le lt. ground arith) (λ j le lt. omega arith)

decode_untyped_invocation-ErrorIsQuiet_example :
    ErrorIsQuiet system (decode_untyped_invocation 1 6 64 (untyped 4 1 12 65536) (λ i. 0) system)
decode_untyped_invocation-ErrorIsQuiet_example =
    decode_untyped_invocation-ErrorIsQuiet system 1 6 64 (untyped 4 1 12 65536) (λ i. 0)

reset_untyped_cap-Cleared_example :
    Returns
      (λ status k'.
        (status ≡ exception_none)
        × Cleared 65536
            (in_chunks (4 * 2 ^ 4))
            (with_cap 64 (untyped (2 ^ 39 - 16) 1 12 65536) system)
            k')
      (reset_untyped_cap 64 system)
unfolding in_chunks
reset_untyped_cap-Cleared_example =
    reset_untyped_cap-Cleared system 64 4 1 12 65536 refl (omega arith) (omega arith) refl
