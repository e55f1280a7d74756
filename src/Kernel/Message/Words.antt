-- ===== src/Kernel/Message/Words.antt =====
-- The two loops of `copy_mrs` of sel4_task/src/tcb.rs, over message registers and over the words of
-- a buffer.
use mi_dev_integral_rel.Base.{
  ℕ, zero, suc, ◌+◌, ◌-◌, ◌≡◌, refl, true, false, Bool-cases, inl, inr, ◌&&◌, ltb, leb, ◌==◌, ◌<◌,
  ◌≤◌, arith, update, if◌then◌else◌,
}
use mi_dev_integral_rel.Cmd.{ok}
use mi_dev_integral_rel.Kernel.{Kernel, Buffer}
use mi_dev_integral_rel.Kernel.Message.{msg_register, copy_registers, copy_words, word_of, set_word}

abbrev pub Registers : Type 0
Registers = ℕ → ℕ → ℕ

-- The registers after `n` message registers from `i` on have been copied.
pub sent_registers : ℕ → ℕ → ℕ → ℕ → Registers → Registers
sent_registers zero i s r f = f
sent_registers (suc n) i s r f =
    sent_registers n (suc i) s r (update f r (update (f r) (msg_register i) (f s (msg_register i))))

abbrev pub with_registers : Kernel → Registers → Kernel
with_registers k f = record k {
  ipc = record k.ipc { tasks = record k.ipc.tasks { registers = f } };
}

pub registers_run :
    (n i s r : ℕ) (k : Kernel)
    → copy_registers n i s r k
      ≡ ok tt (with_registers k (sent_registers n i s r k.ipc.tasks.registers))
unfolding copy_registers sent_registers
registers_run zero i s r k = refl
registers_run (suc n) i s r k = registers_run n (suc i) s r (
    with_registers k (
      update k.ipc.tasks.registers r (
        update (k.ipc.tasks.registers r) (msg_register i)
          (k.ipc.tasks.registers s (msg_register i)))))

update_twice-same : (f : Registers) (r j v : ℕ) → update f r (update (f r) j v) r j ≡ v
update_twice-same f r j v =
    let at : (r == r) ≡ true = ground arith in
    let at_j : (j == j) ≡ true = ground arith in rw (at, at_j) refl

-- In the range, the receiver's registers are the sender's; no other register changes.
sent_registers-kept :
    (n i s r : ℕ) (f : Registers) (t j : ℕ)
    → (t == r) && leb (msg_register i) j && ltb j (msg_register i + n) ≡ false
    → sent_registers n i s r f t j ≡ f t j
unfolding sent_registers
sent_registers-kept zero i s r f t j e = refl
sent_registers-kept (suc n) i s r f t j e =
    let f' = update f r (update (f r) (msg_register i) (f s (msg_register i))) in
    let ih = sent_registers-kept n (suc i) s r f' t j (ground arith) in
    let here : f' t j ≡ f t j = ground arith in rw (ih, here) refl

sent_registers-copied :
    (n i s r : ℕ) (f : Registers) (m : ℕ)
    → i ≤ m
    → m < i + n
    → sent_registers n i s r f r (msg_register m) ≡ f s (msg_register m)
unfolding sent_registers
sent_registers-copied zero i s r f m le lt = absurd (omega arith)
sent_registers-copied (suc n) i s r f m le lt =
    let f' = update f r (update (f r) (msg_register i) (f s (msg_register i))) in
    elim (Bool-cases (m == i)) [
      | inl e ↦
          let same : m ≡ i = ground arith in
          let kept = sent_registers-kept n (suc i) s r f' r (msg_register m) (ground arith) in
          rw (kept, same) (update_twice-same f r (msg_register i) (f s (msg_register i)))
      | inr e ↦
          let ih = sent_registers-copied n (suc i) s r f' m (ground arith) (omega arith) in
          let other : f' s (msg_register m) ≡ f s (msg_register m) = ground arith in
          rw (ih, other) refl
    ]

-- The buffers after `n` words from `i` on have been copied.
pub sent_words : ℕ → ℕ → ℕ → ℕ → (ℕ → Buffer) → ℕ → Buffer
sent_words zero i p q f = f
sent_words (suc n) i p q f =
    sent_words n (suc i) p q (update f q (record (f q) { msg = update (f q).msg i ((f p).msg i) }))

abbrev pub with_buffers : Kernel → (ℕ → Buffer) → Kernel
with_buffers k f = record k { messages = record k.messages { buffer = f } }

-- Of the first 120 words behind the tag, each is one of `msg`.
word_of-msg : (b : Buffer) (i : ℕ) → i < 120 → word_of b (i + 1) ≡ b.msg i
unfolding word_of
word_of-msg b i lt =
    let le : leb (i + 1) 120 ≡ true = ground arith in
    let no_tag : (i + 1 == 0) ≡ false = ground arith in
    let at : i + 1 - 1 ≡ i = omega arith in rw (no_tag, le, at) refl

set_word-msg :
    (b : Buffer) (i w : ℕ) → i < 120 → set_word b (i + 1) w ≡ record b { msg = update b.msg i w }
unfolding set_word
set_word-msg b i w lt =
    let le : leb (i + 1) 120 ≡ true = ground arith in
    let no_tag : (i + 1 == 0) ≡ false = ground arith in
    let at : i + 1 - 1 ≡ i = omega arith in rw (no_tag, le, at) refl

pub words_run :
    (n i p q : ℕ) (k : Kernel)
    → i + n ≤ 120
    → copy_words n i p q k ≡ ok tt (with_buffers k (sent_words n i p q k.messages.buffer))
unfolding copy_words sent_words
words_run zero i p q k short = refl
words_run (suc n) i p q k short =
    let f = k.messages.buffer in
    let read = word_of-msg (f p) i (omega (arith, short)) in
    let write = set_word-msg (f q) i ((f p).msg i) (omega (arith, short)) in
    rw (read, write)
      (words_run n (suc i) p q
        (with_buffers k (update f q (record (f q) { msg = update (f q).msg i ((f p).msg i) })))
        (omega (arith, short)))

abbrev sent_word : ℕ → ℕ → ℕ → (ℕ → Buffer) → ℕ → Buffer
sent_word i p q f = update f q (record (f q) { msg = update (f q).msg i ((f p).msg i) })

sent_word-other :
    (i p q : ℕ) (f : ℕ → Buffer) (t j : ℕ)
    → (t == q) && (j == i) ≡ false
    → (sent_word i p q f t).msg j ≡ (f t).msg j
sent_word-other i p q f t j e = elim (Bool-cases (t == q)) [
  | inl at ↦
      let same : t ≡ q = ground arith in
      let off : (j == i) ≡ false = ground arith in rw (at, off, same) refl
  | inr at ↦ rw at refl
]

sent_words-kept :
    (n i p q : ℕ) (f : ℕ → Buffer) (t j : ℕ)
    → (t == q) && leb i j && ltb j (i + n) ≡ false
    → (sent_words n i p q f t).msg j ≡ (f t).msg j
unfolding sent_words
sent_words-kept zero i p q f t j e = refl
sent_words-kept (suc n) i p q f t j e =
    let ih = sent_words-kept n (suc i) p q (sent_word i p q f) t j (ground arith) in
    let here = sent_word-other i p q f t j (ground arith) in rw (ih, here) refl

sent_words-copied :
    (n i p q : ℕ) (f : ℕ → Buffer) (m : ℕ)
    → i ≤ m
    → m < i + n
    → (sent_words n i p q f q).msg m ≡ (f p).msg m
unfolding sent_words
sent_words-copied zero i p q f m le lt = absurd (omega arith)
sent_words-copied (suc n) i p q f m le lt = elim (Bool-cases (m == i)) [
  | inl e ↦
      let same : m ≡ i = ground arith in
      let kept = sent_words-kept n (suc i) p q (sent_word i p q f) q m (ground arith) in
      let at : (q == q) ≡ true = ground arith in
      let at_i : (i == i) ≡ true = ground arith in rw (kept, same, at, at_i) refl
  | inr e ↦
      let ih = sent_words-copied n (suc i) p q (sent_word i p q f) m (ground arith) (omega arith) in
      let other = sent_word-other i p q f p m (ground arith) in rw (ih, other) refl
]

pub registers_if :
    (n s r : ℕ) (f : Registers) (t j : ℕ)
    → sent_registers n 0 s r f t j
      ≡ (if (t == r) && leb (msg_register 0) j && ltb j (msg_register n) then f s j else f t j)
registers_if n s r f t j =
    elim (Bool-cases ((t == r) && leb (msg_register 0) j && ltb j (msg_register n))) [
      | inl e ↦
          let m = j - 11 in
          let at : j ≡ msg_register m = ground arith in
          let here : t ≡ r = ground arith in
          let copied = sent_registers-copied n 0 s r f m (omega arith) (ground arith) in
          rw (e, here, at) copied
      | inr e ↦ rw e (sent_registers-kept n 0 s r f t j e)
    ]

pub words_if :
    (i length p q : ℕ) (f : ℕ → Buffer) (t m : ℕ)
    → (sent_words (length - i) i p q f t).msg m
      ≡ (if (t == q) && leb i m && ltb m length then (f p).msg m else (f t).msg m)
words_if i length p q f t m = elim (Bool-cases ((t == q) && leb i m && ltb m length)) [
  | inl e ↦
      let here : t ≡ q = ground arith in
      rw (e, here) (sent_words-copied (length - i) i p q f m (ground arith) (ground arith))
  | inr e ↦ rw e (sent_words-kept (length - i) i p q f t m (ground arith))
]

-- Only the words of the messages change.
pub words_buffers :
    (n i p q : ℕ) (f : ℕ → Buffer) (t : ℕ)
    → sent_words n i p q f t ≡ record (f t) { msg = (sent_words n i p q f t).msg }
unfolding sent_words
words_buffers zero i p q f t = refl
words_buffers (suc n) i p q f t =
    let ih = words_buffers n (suc i) p q (sent_word i p q f) t in
    elim (Bool-cases (t == q)) [
      | inl e ↦ let same : t ≡ q = ground arith in rw (ih, e, same) refl
      | inr e ↦ rw (ih, e) refl
    ]
