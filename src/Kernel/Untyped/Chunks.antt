-- ===== src/Kernel/Untyped/Chunks.antt =====
-- What `reset_untyped_cap` clears, and that it ends.
use mi_dev_integral_rel.Base.{
  ℕ, zero, suc, ◌+◌, ◌-◌, ◌*◌, ◌/◌, ◌^◌, ◌<◌, ◌≡◌, ◌∙◌, refl, true, false, ◌&&◌, arith, ltb, leb,
  ◌==◌, ap, Bool-cases, inl, inr, update,
}
use mi_dev_integral_rel.Cmd.Returns.{Returns, returns, bind, mono}
use mi_dev_integral_rel.Field.Layout.{create-unset, well_placed, is_field, apart_from}
use mi_dev_integral_rel.Cspace.{exception_none, Capability, untyped}
use mi_dev_integral_rel.Cspace.Words.{cap_type, cap_fields, to_words, frame_is_device}
use mi_dev_integral_rel.Cspace.Cap.{wrapping_add}
use mi_dev_integral_rel.Kernel.{Kernel}
use mi_dev_integral_rel.Kernel.Untyped.{wrapping_sub, free_index_to_offset}
use mi_dev_integral_rel.Kernel.Untyped.Reset.{
  clear_chunks, clear_memory, clear_slots, clear_ipc, clear_tasks, clear_messages, clear_vspace,
  reset_untyped_cap, get_frame_is_device,
}
use mi_dev_integral_rel.Kernel.Untyped.Cleared.{Cleared, Cleared-both}

-- The flag that `get_frame_is_device` reads of an untyped capability is null, whatever the
-- capability's own device flag is: it reads bits that the capability does not set.
pub get_frame_is_device-untyped :
    (free_index is_device block_size ptr : ℕ)
    → get_frame_is_device (untyped free_index is_device block_size ptr) ≡ 0
unfolding get_frame_is_device to_words cap_fields well_placed is_field apart_from
get_frame_is_device-untyped free_index is_device block_size ptr =
    create-unset frame_is_device cap_type 2
      (cap_fields (untyped free_index is_device block_size ptr)) refl

-- The memory once a chunk is cleared.
abbrev chunk_cleared : ℕ → Kernel → Kernel
chunk_cleared a k = record k {
  ipc = clear_ipc a 8 k.ipc;
  slots = clear_slots a 8 k.slots;
  messages = clear_messages a 8 k.messages;
  vspace = clear_vspace a 8 k.vspace;
}

chunk-Cleared : (a : ℕ) (k : Kernel) → Cleared a 256 k (chunk_cleared a k)
unfolding clear_slots clear_ipc clear_tasks clear_messages clear_vspace
chunk-Cleared a k = record {
  registers = λ p. refl;
  ts_type = λ p. refl;
  blocking_object = λ p. refl;
  blocking_ipc_badge = λ p. refl;
  blocking_ipc_can_grant = λ p. refl;
  blocking_ipc_can_grant_reply = λ p. refl;
  blocking_ipc_is_call = λ p. refl;
  tcb_queued = λ p. refl;
  bound_notification = λ p. refl;
  domain = λ p. refl;
  mcp = λ p. refl;
  priority = λ p. refl;
  time_slice = λ p. refl;
  sched_next = λ p. refl;
  sched_prev = λ p. refl;
  ep_next = λ p. refl;
  ep_prev = λ p. refl;
  cap = λ p. refl;
  mdb_next = λ p. refl;
  mdb_prev = λ p. refl;
  mdb_revocable = λ p. refl;
  mdb_first_badged = λ p. refl;
  ep_state = λ p. refl;
  ep_queue = λ p. refl;
  ntfn_state = λ p. refl;
  ntfn_queue = λ p. refl;
  msg_identifier = λ p. refl;
  bound_tcb = λ p. refl;
  tcb_ipc_buffer = λ p. refl;
  tcb_fault = λ p. refl;
  tcb_lookup_failure = λ p. refl;
  tcb_fault_handler = λ p. refl;
  buffer = λ p. refl;
  pte = λ p. refl;
  asid_pool = λ p i. refl;
  rest = refl;
}

-- The loop over `suc m` chunks, on that many steps of fuel, ends with them all cleared and no others.
clear_chunks-Cleared :
    (m a : ℕ) (k : Kernel)
    → a + suc m * 256 < 2 ^ 64
    → Returns
        (λ last k'. (last ≡ 2 ^ 64 - 256) × Cleared a (suc m * 256) k k')
        (clear_chunks (suc m) a (m * 256) k)
unfolding clear_chunks clear_memory clear_slots clear_ipc clear_tasks clear_messages clear_vspace
clear_chunks-Cleared zero a k fits =
    let e : wrapping_add a 0 ≡ a = omega (arith, fits) in rw e (returns (refl, chunk-Cleared a k))
clear_chunks-Cleared (suc m) a k fits =
    let more : (suc m * 256 == 2 ^ 64 - 256) ≡ false = ground (arith, fits) in
    let e : wrapping_add a (suc m * 256) ≡ a + suc m * 256 = omega (arith, fits) in
    let back : wrapping_sub (suc m * 256) 256 ≡ m * 256 = omega (arith, fits) in
    let k1 = chunk_cleared (a + suc m * 256) k in
    rw (more, e, back)
      (mono (clear_chunks-Cleared m a k1 (omega (arith, fits))) λ last k' (end, done). (
        end,
        Cleared-both a (suc m * 256) (suc (suc m) * 256) k k1 k' (omega arith)
            (chunk-Cleared (a + suc m * 256) k) done refl,
      ))

offset_same :
    (free_index : ℕ)
    → free_index * 2 ^ 4 < 2 ^ 64
    → free_index_to_offset free_index ≡ free_index * 2 ^ 4
unfolding free_index_to_offset
offset_same free_index fits = omega (arith, fits)

-- How far the chunks reach that hold `n` bytes.
unfoldable pub in_chunks : ℕ → ℕ
in_chunks n = suc ((n - 1) / 256) * 256

-- The memory with the capability `cap` in a slot.
abbrev pub with_cap : ℕ → Capability → Kernel → Kernel
with_cap slot cap k = record k { slots = record k.slots { cap = update k.slots.cap slot cap } }

update-same :
    (slot : ℕ) (v : Capability) (f g : ℕ → Capability) → update f slot v slot ≡ update g slot v slot
update-same slot v f g = let own : (slot == slot) ≡ true = ground arith in rw own refl

-- A capability that is written outside of what is cleared.
with_cap-Cleared :
    (a n slot : ℕ) (cap : Capability) (k k' : Kernel)
    → (leb a slot && ltb slot (a + n)) ≡ false
    → Cleared a n k k'
    → Cleared a n (with_cap slot cap k) (with_cap slot cap k')
with_cap-Cleared a n slot v k k' apart done = record {
  registers = done.registers;
  ts_type = done.ts_type;
  blocking_object = done.blocking_object;
  blocking_ipc_badge = done.blocking_ipc_badge;
  blocking_ipc_can_grant = done.blocking_ipc_can_grant;
  blocking_ipc_can_grant_reply = done.blocking_ipc_can_grant_reply;
  blocking_ipc_is_call = done.blocking_ipc_is_call;
  tcb_queued = done.tcb_queued;
  bound_notification = done.bound_notification;
  domain = done.domain;
  mcp = done.mcp;
  priority = done.priority;
  time_slice = done.time_slice;
  sched_next = done.sched_next;
  sched_prev = done.sched_prev;
  ep_next = done.ep_next;
  ep_prev = done.ep_prev;
  cap = λ p. elim (Bool-cases (p == slot)) [
    | inl e ↦
        let same : p ≡ slot = ground arith in
        rw (same, apart) (update-same slot v k'.slots.cap k.slots.cap)
    | inr e ↦ rw e (done.cap p)
  ];
  mdb_next = done.mdb_next;
  mdb_prev = done.mdb_prev;
  mdb_revocable = done.mdb_revocable;
  mdb_first_badged = done.mdb_first_badged;
  ep_state = done.ep_state;
  ep_queue = done.ep_queue;
  ntfn_state = done.ntfn_state;
  ntfn_queue = done.ntfn_queue;
  msg_identifier = done.msg_identifier;
  bound_tcb = done.bound_tcb;
  tcb_ipc_buffer = done.tcb_ipc_buffer;
  tcb_fault = done.tcb_fault;
  tcb_lookup_failure = done.tcb_lookup_failure;
  tcb_fault_handler = done.tcb_fault_handler;
  buffer = done.buffer;
  pte = done.pte;
  asid_pool = done.asid_pool;
  rest = ap (with_cap slot v) done.rest;
}

-- Resetting a block of which something is taken returns without error, whatever the block's size: all
-- fields of the objects in the chunks of 256 bytes, from the block's start on, that hold what was
-- taken, are null, no object elsewhere changes, and nothing else but the free index, which is left at
-- `2 ^ 39 - 16`. The capability's own slot is elsewhere.
pub reset_untyped_cap-Cleared :
    (k : Kernel) (slot free_index is_device block_size ptr : ℕ)
    → k.slots.cap slot ≡ untyped free_index is_device block_size ptr
    → 0 < free_index
    → ptr + in_chunks (free_index * 2 ^ 4) < 2 ^ 64
    → (leb ptr slot && ltb slot (ptr + in_chunks (free_index * 2 ^ 4))) ≡ false
    → Returns
        (λ status k'.
          (status ≡ exception_none)
          × Cleared ptr
              (in_chunks (free_index * 2 ^ 4))
              (with_cap slot (untyped (2 ^ 39 - 16) is_device block_size ptr) k)
              k')
        (reset_untyped_cap slot k)
unfolding reset_untyped_cap in_chunks
reset_untyped_cap-Cleared k slot free_index is_device block_size ptr is some_taken fits apart =
    let present : (free_index * 2 ^ 4 == 0) ≡ false = ground (arith, some_taken) in
    let start : wrapping_sub (free_index * 2 ^ 4) 1 ≡ free_index * 2 ^ 4 - 1 =
      omega (arith, fits, some_taken) in
    let count : (free_index * 2 ^ 4 - 1) / 256 * 256 / 256 + 1
        ≡ suc ((free_index * 2 ^ 4 - 1) / 256) =
      omega arith in
    let offset : free_index_to_offset free_index ≡ free_index * 2 ^ 4 =
      offset_same free_index (omega (arith, fits, some_taken)) in
    rw
      (
        is,
        offset,
        present,
        get_frame_is_device-untyped free_index is_device block_size ptr,
        start,
        count,
      )
      (bind (clear_chunks-Cleared ((free_index * 2 ^ 4 - 1) / 256) ptr k fits) λ last k1 done.
        let kept : k1.slots.cap slot ≡ untyped free_index is_device block_size ptr =
          done.1.cap slot ∙ (rw apart is) in
        returns (
          refl,
          rw (kept, done.0)
              (with_cap-Cleared ptr (in_chunks (free_index * 2 ^ 4)) slot
                (untyped (2 ^ 39 - 16) is_device block_size ptr) k k1 apart done.1),
        ))
