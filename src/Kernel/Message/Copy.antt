-- ===== src/Kernel/Message/Copy.antt =====
-- What `copy_mrs` of sel4_task/src/tcb.rs leaves in the receiver's registers and buffer.
use mi_dev_integral_rel.Base.{
  ℕ, ◌-◌, ◌%◌, ◌^◌, not, ◌≡◌, ◌≤◌, refl, Bool, true, false, Bool-cases, inl, inr, ◌&&◌, ◌||◌,
  Option, none, some, ltb, leb, ◌==◌, arith, if◌then◌else◌,
}
use mi_dev_integral_rel.Cmd.{Run, ok, panic}
use mi_dev_integral_rel.Cspace.{Capability, frame}
use mi_dev_integral_rel.Cspace.Cap.{wrapping_add, page_bits_for_size}
use mi_dev_integral_rel.Cmd.Returns.{Returns, returns}
use mi_dev_integral_rel.Kernel.{Kernel}
use mi_dev_integral_rel.Kernel.Message.{
  msg_register, msg_register_num, msg_max_length, copy_rest, copy_mrs, min, tcb_slot, tcb_buffer,
  buffer_at, buffer_of, lookup_ipc_buffer, lookup_mut_ipc_buffer,
}
use mi_dev_integral_rel.Kernel.Message.Words.{
  Registers, with_registers, sent_registers, registers_run, words_run, registers_if, words_if,
  words_buffers,
}

-- A lookup of a buffer depends on the slots and on the addresses of the buffers only.
abbrev found_in : Kernel → Option ℕ → Run Kernel (Option ℕ)
found_in k b = ok b k

found_in-elsewhere :
    (a b : Option ℕ) (k k' : Kernel) → found_in k a ≡ found_in k b → found_in k' a ≡ found_in k' b
found_in-elsewhere a b k k' e = let same : a ≡ b = cc in rw same refl

buffer_at-elsewhere :
    (base w : ℕ) (bits : Option ℕ) (b : Option ℕ) (k k' : Kernel)
    → buffer_at base w bits k ≡ ok b k
    → buffer_at base w bits k' ≡ ok b k'
unfolding buffer_at
buffer_at-elsewhere base w none b k k' e = absurd (cc)
buffer_at-elsewhere base w (some bits) b k k' e =
    let p = wrapping_add base (w % 2 ^ bits) in
    elim (Bool-cases (p == 0)) [
      | inl zero_ptr ↦ let e' : panic ≡ ok b k = rw zero_ptr at e in absurd (cc)
      | inr found ↦ rw found (found_in-elsewhere (some p) b k k' (rw found at e))
    ]

buffer_of-elsewhere :
    (no_device : Bool) (w : ℕ) (receiver : Bool) (cap : Capability) (b : Option ℕ) (k k' : Kernel)
    → buffer_of no_device w receiver cap k ≡ ok b k
    → buffer_of no_device w receiver cap k' ≡ ok b k'
unfolding buffer_of
buffer_of-elsewhere no_device w receiver (frame asid base size rights device addr) b k k' e =
    elim (Bool-cases (no_device && not (device == 0))) [
      | inl d ↦ rw d (found_in-elsewhere none b k k' (rw d at e))
      | inr d ↦ elim (Bool-cases ((rights == 3) || (not receiver && (rights == 2)))) [
        | inl r ↦
            rw (d, r) (buffer_at-elsewhere base w (page_bits_for_size size) b k k' (rw (d, r) at e))
        | inr r ↦ rw (d, r) (found_in-elsewhere none b k k' (rw (d, r) at e))
      ]
    ]
buffer_of-elsewhere no_device w receiver cap b k k' e = found_in-elsewhere none b k k' e

lookup_ipc_buffer-elsewhere :
    (t : ℕ) (receiver : Bool) (b : Option ℕ) (k : Kernel) (f : Registers)
    → lookup_ipc_buffer t receiver k ≡ found_in k b
    → lookup_ipc_buffer t receiver (with_registers k f) ≡ found_in (with_registers k f) b
unfolding lookup_ipc_buffer
lookup_ipc_buffer-elsewhere t receiver b k f e =
    buffer_of-elsewhere true (k.messages.tcb_ipc_buffer t) receiver
      (k.slots.cap (tcb_slot t tcb_buffer)) b k (with_registers k f) e

lookup_mut_ipc_buffer-elsewhere :
    (t : ℕ) (receiver : Bool) (b : Option ℕ) (k : Kernel) (f : Registers)
    → lookup_mut_ipc_buffer t receiver k ≡ found_in k b
    → lookup_mut_ipc_buffer t receiver (with_registers k f) ≡ found_in (with_registers k f) b
unfolding lookup_mut_ipc_buffer
lookup_mut_ipc_buffer-elsewhere t receiver b k f e =
    buffer_of-elsewhere false (k.messages.tcb_ipc_buffer t) receiver
      (k.slots.cap (tcb_slot t tcb_buffer)) b k (with_registers k f) e

-- How many words reach the receiver.
abbrev pub sent_count : ℕ → Option ℕ → Option ℕ → ℕ
sent_count length (some p) (some q) = length
sent_count length _ _ = min length msg_register_num

abbrev pub SentWords : ℕ → Option ℕ → Option ℕ → Kernel → Kernel → Type 0
SentWords length (some p) (some q) k k' =
    (t m : ℕ)
    → (k'.messages.buffer t).msg m ≡ (
        if (t == q) && leb msg_register_num m && ltb m length
        then (k.messages.buffer p).msg m
        else (k.messages.buffer t).msg m)
SentWords length _ _ k k' = k'.messages ≡ k.messages

pub record Copied (sender receiver length : ℕ) (b b' : Option ℕ) (k : Kernel) (n : ℕ) (k' : Kernel)
    : Type 0 where
  pub count : n ≡ sent_count length b b'
  pub registers :
      (t j : ℕ)
      → k'.ipc.tasks.registers t j ≡ (
          if (t == receiver)
            && leb (msg_register 0) j
            && ltb j (msg_register (min length msg_register_num))
          then k.ipc.tasks.registers sender j
          else k.ipc.tasks.registers t j)
  pub words : SentWords length b b' k k'
  pub buffers :
      (t : ℕ)
      → k'.messages.buffer t ≡ record (k.messages.buffer t) { msg = (k'.messages.buffer t).msg }
  pub rest : k' ≡ record (with_registers k k'.ipc.tasks.registers) {
    messages = record k.messages { buffer = k'.messages.buffer };
  }

module _ (sender receiver length : ℕ) (k : Kernel) where
  rest_Copied :
      (b b' : Option ℕ)
      → length ≤ msg_max_length
      → Returns (Copied sender receiver length b b' k) (
          copy_rest (min length msg_register_num) length b b' (
            with_registers k (
              sent_registers
                (min length msg_register_num)
                0
                sender
                receiver
                k.ipc.tasks.registers)))
  unfolding copy_rest
  rest_Copied (some p) (some q) short =
      let i = min length msg_register_num in
      let k1 = with_registers k (sent_registers i 0 sender receiver k.ipc.tasks.registers) in
      rw (words_run (length - i) i p q k1 (ground (arith, short))) (
        returns (record {
          count = ground arith;
          registers = registers_if i sender receiver k.ipc.tasks.registers;
          words = λ t m.
              let whole : leb msg_register_num m && ltb m length ≡ leb i m && ltb m length =
                ground arith in
              let both : (t == q) && leb msg_register_num m && ltb m length
                  ≡ (t == q) && leb i m && ltb m length =
                ground arith in
              rw both (words_if i length p q k.messages.buffer t m);
          buffers = λ t. words_buffers (length - i) i p q k.messages.buffer t;
          rest = refl;
        }))
  rest_Copied none b' short = returns (record {
    count = refl;
    registers = registers_if (min length msg_register_num) sender receiver k.ipc.tasks.registers;
    words = refl;
    buffers = λ t. refl;
    rest = refl;
  })
  rest_Copied (some p) none short = returns (record {
    count = refl;
    registers = registers_if (min length msg_register_num) sender receiver k.ipc.tasks.registers;
    words = refl;
    buffers = λ t. refl;
    rest = refl;
  })

  -- What becomes of a message of `length` words, which is no more than the 120 of a buffer, when the
  -- lookups of both buffers return: the first four are copied from the sender's message registers to
  -- the receiver's, and no other register changes; when both threads have a buffer, the words from the
  -- fourth on are copied to the receiver's buffer, no other word of a buffer changes, and the result
  -- is `length`; otherwise no buffer changes, and the result is the number of registers copied.
  -- Nothing else of the memory changes.
  pub copy_mrs-Copied :
      (b b' : Option ℕ)
      → length ≤ msg_max_length
      → lookup_ipc_buffer sender false k ≡ ok b k
      → lookup_mut_ipc_buffer receiver true k ≡ ok b' k
      → Returns (Copied sender receiver length b b' k) (copy_mrs sender receiver length k)
  unfolding copy_mrs
  copy_mrs-Copied b b' short at at' =
      let i = min length msg_register_num in
      let f = sent_registers i 0 sender receiver k.ipc.tasks.registers in
      let run = registers_run i 0 sender receiver k in
      let found = lookup_ipc_buffer-elsewhere sender false b k f at in
      let found' = lookup_mut_ipc_buffer-elsewhere receiver true b' k f at' in
      rw (run, found, found') (rest_Copied b b' short)
