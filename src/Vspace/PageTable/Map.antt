-- ===== src/Vspace/PageTable/Map.antt =====
-- An entry that is written for a frame is found again: lookup_pt_slot and make_user_pte of
-- sel4_vspace/src/arch/riscv64/pte.rs.
use mi_dev_integral_rel.Base.{
  ℕ, zero, suc, ◌+◌, ◌*◌, ◌/◌, ◌%◌, ◌^◌, ◌≡◌, ◌≢◌, ◌<◌, refl, sym, subst, ap, arith, Bool, true,
  false, ◌==◌, update, if◌then◌else◌, Bool-cases, inl, inr,
}
use mi_dev_integral_rel.Bits.Add.{bit_or-page}
use mi_dev_integral_rel.Cmd.{ok, panic}
use mi_dev_integral_rel.Vspace.{Vspace}
use mi_dev_integral_rel.Vspace.PageTable.{
  LookupPtSlotRet, walk, lookup_pt_slot, is_pte_table, pte_from_ppn, entry, make_user_pte, new_pte,
  get_valid, get_ppn, get_write, get_execute,
}

-- The memory with the entry `w` in a slot.
abbrev pub written : Vspace → ℕ → ℕ → Vspace
written v slot w = record v { pte = update v.pte slot w }

same_result : (a b : LookupPtSlotRet) (v : Vspace) → ok a v ≡ ok b v → a ≡ b
same_result a b v e = cc

panicked : (r : LookupPtSlotRet) (v : Vspace) → panic ≢ ok r v
panicked r v e = absurd (cc)

update-at : (f : ℕ → ℕ) (p x : ℕ) → update f p x p ≡ x
update-at f p x = let e : (p == p) ≡ true = ground arith in rw e refl

-- A table's entry is apart from one that is none.
written-other :
    (v : Vspace) (a b : LookupPtSlotRet) (w : ℕ)
    → is_pte_table (v.pte a.pt_slot) ≡ true
    → is_pte_table (v.pte b.pt_slot) ≡ false
    → update v.pte b.pt_slot w a.pt_slot ≡ v.pte a.pt_slot
written-other v a b w t f = elim (Bool-cases (a.pt_slot == b.pt_slot)) [
  | inl e ↦ let same : a.pt_slot ≡ b.pt_slot = ground arith in absurd (cc)
  | inr e ↦ ground (arith, e)
]

walk-written :
    (n vptr : ℕ) (ret r : LookupPtSlotRet) (v : Vspace) (w : ℕ)
    → walk n vptr ret v ≡ ok r v
    → is_pte_table (v.pte r.pt_slot) ≡ false
    → is_pte_table w ≡ false
    → walk n vptr ret (written v r.pt_slot w) ≡ ok r (written v r.pt_slot w)
unfolding walk
walk-written zero vptr ret r v w run leaf leaf' =
    ap (λ (q : LookupPtSlotRet). ok q (written v r.pt_slot w)) (same_result ret r v run)
walk-written (suc n) vptr ret r v w run leaf leaf' =
    elim (Bool-cases (is_pte_table (v.pte ret.pt_slot))) [
      | inl t ↦
          let same : update v.pte r.pt_slot w ret.pt_slot ≡ v.pte ret.pt_slot =
            written-other v ret r w t leaf in
          elim (Bool-cases (pte_from_ppn (v.pte ret.pt_slot) == 0)) [
            | inl z ↦ absurd (panicked r v (rw (t, z) at run))
            | inr z ↦ rw (same, t, z) (walk-written n vptr _ r v w (rw (t, z) at run) leaf leaf')
          ]
      | inr f ↦
          let e : ret ≡ r = same_result ret r v (rw f at run) in
          let here : update v.pte r.pt_slot w ret.pt_slot ≡ w =
            rw e (update-at v.pte r.pt_slot w) in
          rw (here, leaf') (ap (λ (q : LookupPtSlotRet). ok q (written v r.pt_slot w)) e)
    ]

abbrev flag : Bool → ℕ → ℕ
flag b n = if b then n else 0

-- The word of an entry that can be read: the page number above the flags.
entry_word :
    (paddr rights : ℕ) (x : Bool)
    → paddr < 2 ^ 56
    → rights ≢ 1
    → make_user_pte paddr x rights
      ≡ paddr / 2 ^ 12 * 2 ^ 10 + (209 + flag x 8 + flag (rights == 3) 4 + 2)
unfolding make_user_pte new_pte
entry_word paddr rights x lt readable =
    let r : (rights == 1) ≡ false = ground arith in
    let fits : paddr / 2 ^ 12 * 2 ^ 10 % 2 ^ 64 ≡ paddr / 2 ^ 12 * 2 ^ 10 = omega arith in
    rw (r, fits)
      (elim (Bool-cases x) [
        | inl e ↦ rw e (elim (Bool-cases (rights == 3)) [
          | inl f ↦ rw f (bit_or-page (paddr / 2 ^ 12) 223 (omega arith) (omega arith))
          | inr f ↦ rw f (bit_or-page (paddr / 2 ^ 12) 219 (omega arith) (omega arith))
        ])
        | inr e ↦ rw e (elim (Bool-cases (rights == 3)) [
          | inl f ↦ rw f (bit_or-page (paddr / 2 ^ 12) 215 (omega arith) (omega arith))
          | inr f ↦ rw f (bit_or-page (paddr / 2 ^ 12) 211 (omega arith) (omega arith))
        ])
      ])

-- What an entry says of a frame: its address, and that it is valid, no page table, written or executed.
pub record Maps (w paddr rights : ℕ) (x : Bool) : Type 0 where
  pub valid : get_valid w ≡ 1
  pub leaf : is_pte_table w ≡ false
  pub address : get_ppn w * 2 ^ 12 ≡ paddr
  pub write : get_write w ≡ flag (rights == 3) 1
  pub execute : get_execute w ≡ flag x 1

-- The parts of a word of the page number `p` and flags that allow reading.
parts :
    (p paddr rights : ℕ) (x : Bool)
    → p < 2 ^ 44
    → p * 2 ^ 12 ≡ paddr
    → Maps (p * 2 ^ 10 + (209 + flag x 8 + flag (rights == 3) 4 + 2)) paddr rights x
unfolding is_pte_table
parts p paddr rights true lt at = elim (Bool-cases (rights == 3)) [
  | inl f ↦ record {
    valid = rw f (omega arith);
    leaf = ground (arith, f);
    address = rw f (omega (arith, at));
    write = rw f (omega arith);
    execute = rw f (omega arith);
  }
  | inr f ↦ record {
    valid = rw f (omega arith);
    leaf = ground (arith, f);
    address = rw f (omega (arith, at));
    write = rw f (omega arith);
    execute = rw f (omega arith);
  }
]
parts p paddr rights false lt at = elim (Bool-cases (rights == 3)) [
  | inl f ↦ record {
    valid = rw f (omega arith);
    leaf = ground (arith, f);
    address = rw f (omega (arith, at));
    write = rw f (omega arith);
    execute = rw f (omega arith);
  }
  | inr f ↦ record {
    valid = rw f (omega arith);
    leaf = ground (arith, f);
    address = rw f (omega (arith, at));
    write = rw f (omega arith);
    execute = rw f (omega arith);
  }
]

make_user_pte-Maps :
    (paddr rights : ℕ) (x : Bool)
    → paddr < 2 ^ 56
    → paddr % 2 ^ 12 ≡ 0
    → rights ≢ 1
    → Maps (make_user_pte paddr x rights) paddr rights x
make_user_pte-Maps paddr rights x lt page readable =
    subst (λ w. Maps w paddr rights x) (sym (entry_word paddr rights x lt readable))
      (parts (paddr / 2 ^ 12) paddr rights x (omega arith) (omega arith))

-- After an entry for a page frame that can be read, of an address below 2^56, is written to the slot that
-- lookup_pt_slot found and that held no page table, lookup_pt_slot finds the same slot, and the entry in
-- it is valid, is no page table, and has the frame's address and the rights to write and to execute.
pub lookup_pt_slot-Maps :
    (v : Vspace) (root vaddr paddr rights : ℕ) (x : Bool) (r : LookupPtSlotRet)
    → lookup_pt_slot root vaddr v ≡ ok r v
    → is_pte_table (v.pte r.pt_slot) ≡ false
    → paddr < 2 ^ 56
    → paddr % 2 ^ 12 ≡ 0
    → rights ≢ 1
    → (lookup_pt_slot root vaddr (written v r.pt_slot (make_user_pte paddr x rights))
        ≡ ok r (written v r.pt_slot (make_user_pte paddr x rights)))
      × Maps ((written v r.pt_slot (make_user_pte paddr x rights)).pte r.pt_slot) paddr rights x
unfolding lookup_pt_slot
lookup_pt_slot-Maps v root vaddr paddr rights x r run leaf lt page readable =
    let w = make_user_pte paddr x rights in
    let m = make_user_pte-Maps paddr rights x lt page readable in
    (
      walk-written 2 vaddr
          (record { pt_slot = entry root (vaddr / 2 ^ 30 % 2 ^ 9); pt_bits_left = 30 }) r v w run
          leaf m.leaf,
      subst (λ u. Maps u paddr rights x) (sym (update-at v.pte r.pt_slot w)) m,
    )
