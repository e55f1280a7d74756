-- ===== src/Kernel/Delete/Copies.antt =====
-- Deleting a capability to an object that has others: delete_all of sel4_cspace/src/cte.rs.
use mi_dev_integral_rel.Base.{
  ℕ, suc, ◌≡◌, ◌≢◌, ◌↔◌, ◌⊎◌, ◌∉◌, refl, arith, Bool, true, false, ◌==◌, List, ◌∷◌, ◌++◌,
  if◌then◌else◌, update,
}
use mi_dev_integral_rel.Cmd.{Run, ok, panic, Skip, and_then}
use mi_dev_integral_rel.Cmd.Returns.{Returns, returns, mono}
use mi_dev_integral_rel.Cspace.{
  CSpace, Exception, exception_none, Capability, null, zombie, frame, get_cap_type,
}
use mi_dev_integral_rel.Cspace.Cap.{is_arch_cap}
use mi_dev_integral_rel.Cspace.Cte.{is_final_cap, cap_removable, set_empty}
use mi_dev_integral_rel.Cspace.Mdb.{IsMdb}
use mi_dev_integral_rel.Cspace.Mdb.Move.{set_empty-unlinks, set_empty-flags}
use mi_dev_integral_rel.Kernel.{Kernel, of_slots}
use mi_dev_integral_rel.Kernel.Delete.{
  gone, finalise_cap, arch_finalise_cap, arch_finalise, finalise_simple, finalise_compound,
  removable,
}
use mi_dev_integral_rel.Kernel.Delete.Slots.{finalise, finish_delete, delete_all}

-- The capabilities that have nothing to finalise while their object has others.
abbrev pub rests : Capability → Bool
rests (zombie _ _) = false
rests (frame _ _ _ _ _ _) = false
rests _ = true

copy_run :
    (queue : ℕ) (cap : Capability) (k : Kernel)
    → rests cap ≡ true
    → finalise_cap queue cap false k ≡ ok gone k
unfolding finalise_cap arch_finalise_cap arch_finalise finalise_simple finalise_compound is_arch_cap
copy_run queue (zombie _ _) k e = absurd (cc)
copy_run queue (frame _ _ _ _ _ _) k e = absurd (cc)
copy_run queue _ k e = refl

delete_run :
    (fuel queue slot : ℕ) (k : Kernel)
    → (get_cap_type (k.slots.cap slot) == 0) ≡ false
    → rests (k.slots.cap slot) ≡ true
    → is_final_cap slot k.slots ≡ ok false k.slots
    → delete_all (suc fuel) queue true slot k
      ≡ and_then (of_slots k (set_empty slot null k.slots)) (λ _ k1. ok exception_none k1)
unfolding delete_all finalise finish_delete removable cap_removable
delete_run fuel queue slot k some_cap plain copy =
    let run = copy_run queue (k.slots.cap slot) k plain in rw (some_cap, copy) (rw run refl)

-- What is left of a memory whose slot has been deleted: only the slots have changed.
pub data Deleted (P : CSpace → Type 0) (k : Kernel) : Run Kernel Exception → Type 0 where
  deleted : {c : CSpace} → P c → Deleted P k (ok exception_none (record k { slots = c }))

finished :
    {P : CSpace → Type 0} (k : Kernel) (r : Run CSpace Skip)
    → Returns (λ _ c. P c) r
    → Deleted P k (and_then (of_slots k r) (λ _ k1. ok exception_none k1))
finished k (ok a c) (returns p) = deleted p
finished k panic r = elim r [ ]

-- The slot is empty and has no links and no flags, the slot behind it is first badged if either of the
-- two was, and nothing else changes but the links in the list `zs`.
pub record Emptied (slot : ℕ) (zs : List ℕ) (c c' : CSpace) : Type 0 where
  pub caps : c'.cap ≡ update c.cap slot null
  pub unlinked : (c'.mdb_next slot ≡ 0) × (c'.mdb_prev slot ≡ 0)
  pub cleared : (c'.mdb_revocable slot ≡ 0) × (c'.mdb_first_badged slot ≡ 0)
  pub handed_on :
      (c.mdb_next slot ≡ 0)
      ⊎ ((c'.mdb_first_badged (c.mdb_next slot) ≡ 0)
          ↔ ((c.mdb_first_badged (c.mdb_next slot) ≡ 0) × (c.mdb_first_badged slot ≡ 0)))
  pub revocable : (x : ℕ) → x ≢ slot → c'.mdb_revocable x ≡ c.mdb_revocable x
  pub first_badged :
      (x : ℕ) → x ≢ slot → x ≢ c.mdb_next slot → c'.mdb_first_badged x ≡ c.mdb_first_badged x
  pub irqs : c'.irq_state ≡ c.irq_state
  pub nexts : (x : ℕ) → x ∉ zs → c'.mdb_next x ≡ c.mdb_next x
  pub prevs : (x : ℕ) → x ∉ zs → c'.mdb_prev x ≡ c.mdb_prev x

both_return :
    {A : Type 0} {P Q : A → CSpace → Type 0} (r : Run CSpace A)
    → Returns P r
    → Returns Q r
    → Returns (λ a c. P a c × Q a c) r
both_return (ok a c) (returns p) (returns q) = returns (p, q)
both_return panic r q = elim r [ ]

-- Deleting a capability that is not the last one to its object, and is neither a frame's nor a
-- zombie, returns without error: the slot is empty, with no links and no flags, and is out of the
-- derivation list, in which the other slots keep their order; the slot that stood behind it is first
-- badged if either of the two was; no other capability changes, no other flag, no link outside the
-- list, and nothing of the memory but the slots. The fuel is not used.
pub delete_all-unlinks :
    (fuel queue slot : ℕ) (k : Kernel) (h : ℕ) (xs ys : List ℕ) (l : ℕ)
    → IsMdb k.slots h (xs ++ slot ∷ ys) l
    → get_cap_type (k.slots.cap slot) ≢ 0
    → rests (k.slots.cap slot) ≡ true
    → is_final_cap slot k.slots ≡ ok false k.slots
    → Deleted
        (λ c.
          IsMdb c
            (if k.slots.mdb_prev slot == 0 then k.slots.mdb_next slot else h)
            (xs ++ ys)
            (if k.slots.mdb_next slot == 0 then k.slots.mdb_prev slot else l)
          × Emptied slot (xs ++ slot ∷ ys) k.slots c)
        k
        (delete_all (suc fuel) queue true slot k)
delete_all-unlinks fuel queue slot k h xs ys l is some_cap plain copy =
    let busy : (get_cap_type (k.slots.cap slot) == 0) ≡ false = ground arith in
    let emptying = set_empty-unlinks k.slots h slot xs ys l is null some_cap (λ e. absurd (cc)) in
    let flags = set_empty-flags k.slots h slot xs ys l is null some_cap (λ e. absurd (cc)) in
    rw (delete_run fuel queue slot k busy plain copy) (
      finished k _ (
        mono (both_return (set_empty slot null k.slots) emptying flags) λ _ c (p, q). (
          p.0,
          record {
            caps = p.1;
            unlinked = p.2;
            cleared = q.0;
            handed_on = p.3;
            revocable = q.1;
            first_badged = q.2;
            irqs = p.4;
            nexts = p.5.nexts;
            prevs = p.5.prevs;
          },
        )))
