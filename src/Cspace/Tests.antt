-- ===== src/Cspace/Tests.antt =====
-- The theorems on sel4_cspace at concrete slots and capabilities.
use mi_dev_integral_rel.Base.{
  ℕ, ◌+◌, ◌*◌, ◌^◌, ◌≡◌, ◌≤◌, ◌<◌, ◌⊎◌, ◌↔◌, inl, inr, some, refl, true, [], ◌∷◌, arith, ◌==◌,
  update, if◌then◌else◌,
}
use mi_dev_integral_rel.Cmd.Returns.{Returns}
use mi_dev_integral_rel.Cspace.{exception_none, Capability, null, untyped, endpoint, cnode, CSpace}
use mi_dev_integral_rel.Cspace.Cap.{
  is_cap_revocable, same_region_as, get_cap_ptr, get_cap_size_bits, get_cap_is_physical,
}
use mi_dev_integral_rel.Cspace.Cap.Region.{same_region_as-contains}
use mi_dev_integral_rel.Cspace.Cte.{cte_insert, cte_move, set_empty, cte_swap}
use mi_dev_integral_rel.Cspace.Mdb.{IsMdb, Spares}
use mi_dev_integral_rel.Cspace.Mdb.Insert.{left_over, cte_insert-links}
use mi_dev_integral_rel.Cspace.Mdb.Move.{cleaned, cte_move-replaces, set_empty-unlinks}
use mi_dev_integral_rel.Cspace.Mdb.Swap.{cte_swap-exchanges, cte_swap-loops}
use mi_dev_integral_rel.Cspace.Lookup.{
  Globals, no_error, no_fault, answer, lookup_slot_for_cnode_op,
}
use mi_dev_integral_rel.Cspace.Lookup.Answer.{lookup_slot_for_cnode_op-finds}
use mi_dev_integral_rel.Cspace.Resolve.{returned, panicked, ResolveRet, resolve_address_bits}
use mi_dev_integral_rel.Cspace.Resolve.Route.{Route, here, deeper, resolve_address_bits-finds}
use mi_dev_integral_rel.Cspace.Resolve.Fuel.{resolve_address_bits-total}
use mi_dev_integral_rel.Cspace.Words.{
  to_words, from_words, cap_fields, IsRepresentable, from_words-to_words,
}
use mi_dev_integral_rel.Field.{IsStorable}
use mi_dev_integral_rel.Field.Layout.{AllStorable}

abbrev pub ep : ℕ → Capability
ep badge = endpoint badge 0 0 1 1 4096

-- Slots 1, 2 and 3 are linked and hold an endpoint; the others are empty.
abbrev pub three : CSpace
three = record {
  cap = λ s. if s == 1 then ep 0 else if s == 2 then ep 7 else if s == 3 then ep 0 else null;
  mdb_next = λ s. if s == 1 then 2 else if s == 2 then 3 else 0;
  mdb_prev = λ s. if s == 2 then 1 else if s == 3 then 2 else 0;
  mdb_revocable = λ s. if s == 1 then 1 else 0;
  mdb_first_badged = λ s. if s == 2 then 1 else 0;
  irq_state = λ i. 0;
}

pub three-IsMdb : IsMdb three 1 (1 ∷ 2 ∷ 3 ∷ []) 3
three-IsMdb = record {
  seg = (
    refl,
    (λ e. omega arith),
    refl,
    (refl, (λ e. omega arith), refl, (refl, (λ e. omega arith), refl, (refl, refl))),
  );
  distinct = (refl, (refl, (refl, tt)));
}

cte_insert-links_example :
    Returns
      (λ _ c'.
        IsMdb c' 1 (1 ∷ 2 ∷ 3 ∷ 9 ∷ []) 9
        × (c'.cap ≡ update (update three.cap 3 (left_over (ep 0) (ep 5))) 9 (ep 5))
        × ((c'.mdb_revocable 9 ≡ 1) × (c'.mdb_first_badged 9 ≡ 1))
        × Spares (9 ∷ 1 ∷ 2 ∷ 3 ∷ []) three c')
      (cte_insert (ep 5) 3 9 three)
unfolding is_cap_revocable
cte_insert-links_example =
    cte_insert-links three 1 3 (1 ∷ 2 ∷ []) [] 3 9 (ep 5) three-IsMdb (omega arith) refl true refl
      refl refl refl

cte_move-replaces_example :
    Returns
      (λ _ c'.
        IsMdb c' 9 (9 ∷ 2 ∷ 3 ∷ []) 3
        × ((c'.cap 9 ≡ ep 0) × (c'.cap 1 ≡ null))
        × ((c'.mdb_revocable 9 ≡ 1) × (c'.mdb_first_badged 9 ≡ 0))
        × ((c'.mdb_next 1 ≡ 0) × (c'.mdb_prev 1 ≡ 0))
        × Spares (9 ∷ 1 ∷ 2 ∷ 3 ∷ []) three c')
      (cte_move (ep 0) 1 9 three)
cte_move-replaces_example =
    cte_move-replaces three 1 1 [] (2 ∷ 3 ∷ []) 3 three-IsMdb (ep 0) 9 refl refl refl (omega arith)
      refl

set_empty-unlinks_example :
    Returns
      (λ _ c'.
        IsMdb c' 1 (1 ∷ 3 ∷ []) 3
        × (c'.cap ≡ update three.cap 2 null)
        × ((c'.mdb_next 2 ≡ 0) × (c'.mdb_prev 2 ≡ 0))
        × ((three.mdb_next 2 ≡ 0)
            ⊎ ((c'.mdb_first_badged 3 ≡ 0)
                ↔ ((three.mdb_first_badged 3 ≡ 0) × (three.mdb_first_badged 2 ≡ 0))))
        × (c'.irq_state ≡ cleaned three null)
        × Spares (1 ∷ 2 ∷ 3 ∷ []) three c')
      (set_empty 2 null three)
set_empty-unlinks_example =
    set_empty-unlinks three 1 2 (1 ∷ []) (3 ∷ []) 3 three-IsMdb null (λ e. omega arith)
      (λ e. omega arith)

cte_swap-exchanges_example :
    Returns
      (λ _ c'.
        IsMdb c' 3 (3 ∷ 2 ∷ 1 ∷ []) 1
        × (c'.cap ≡ update (update three.cap 1 (ep 8)) 3 (ep 9))
        × ((c'.mdb_revocable 1 ≡ 0) × (c'.mdb_revocable 3 ≡ 1))
        × ((c'.mdb_first_badged 1 ≡ 0) × (c'.mdb_first_badged 3 ≡ 0)))
      (cte_swap (ep 9) 1 (ep 8) 3 three)
cte_swap-exchanges_example =
    cte_swap-exchanges three 1 (1 ∷ 2 ∷ 3 ∷ []) 3 1 3 (ep 9) (ep 8) three-IsMdb refl refl
      (omega arith) (omega arith) (omega arith)

cte_swap-loops_example :
    Returns
      (λ _ c'. (c'.mdb_next 1 ≡ 1) × (c'.mdb_next 2 ≡ 2) × ¬ IsMdb c' 2 (2 ∷ 1 ∷ 3 ∷ []) 3)
      (cte_swap (ep 9) 1 (ep 8) 2 three)
cte_swap-loops_example =
    cte_swap-loops three 1 (1 ∷ 2 ∷ 3 ∷ []) 3 1 2 (ep 9) (ep 8) three-IsMdb refl refl (omega arith)
      2 3 (2 ∷ 1 ∷ 3 ∷ []) refl

-- The slot 4096 holds a CNode of 16 slots at 8192, whose guard is 5 in 3 bits; the CNode `root` has 4
-- slots at 4096 and the guard 1 in 2 bits.
abbrev inner : Capability
inner = cnode 4 3 5 8192

abbrev root : Capability
root = cnode 2 2 1 4096

abbrev nested : CSpace
nested = record three { cap = λ s. if s == 4128 then inner else null }

nested-Route : Route nested root 11 (((1 * 2 ^ 2 + 1) * 2 ^ 7) + (5 * 2 ^ 4 + 9)) (8192 + 9 * 32) 0
nested-Route =
    deeper {i = 1} (λ e. omega arith) (omega arith) (omega arith)
      (here {radix = 4} {gs = 3} {guard = 5} {ptr = 8192} {i = 9} (λ e. omega arith) (omega arith)
        (omega arith))

resolve_address_bits-finds_example :
    resolve_address_bits nested root (3 * 2 ^ 11 + (((1 * 2 ^ 2 + 1) * 2 ^ 7) + (5 * 2 ^ 4 + 9))) 11
    ≡ returned (record { status = exception_none; slot = 8480; bits_remaining = 0 })
resolve_address_bits-finds_example =
    resolve_address_bits-finds nested 3 root 11 (((1 * 2 ^ 2 + 1) * 2 ^ 7) + (5 * 2 ^ 4 + 9)) 8480 0
      (omega arith) nested-Route

resolve_address_bits-total_example :
    (resolve_address_bits nested root 729 11 ≡ panicked)
    ⊎ ((r : ResolveRet) × (resolve_address_bits nested root 729 11 ≡ returned r)
        × (r.bits_remaining ≤ 11))
resolve_address_bits-total_example = resolve_address_bits-total nested root 729 11

same_region_as-contains_example : same_region_as (untyped 0 0 12 4096) (ep 0) ≡ true ↔ (
    (get_cap_is_physical (ep 0) ≡ true)
    × ((a : ℕ)
        → get_cap_ptr (ep 0) ≤ a
        → a < get_cap_ptr (ep 0) + 2 ^ get_cap_size_bits (ep 0)
        → (4096 ≤ a) × (a < 4096 + 2 ^ 12)))
unfolding get_cap_ptr get_cap_size_bits
same_region_as-contains_example =
    same_region_as-contains 0 0 12 4096 (ep 0) (omega arith) (omega arith)

-- No error and no fault yet.
abbrev clear : Globals
clear = record {
  current_syscall_error = no_error;
  current_lookup_fault = no_fault;
  invalid_argument_number = 0;
}

lookup_slot_for_cnode_op-finds_example :
    lookup_slot_for_cnode_op clear nested true root
      (3 * 2 ^ 11 + (((1 * 2 ^ 2 + 1) * 2 ^ 7) + (5 * 2 ^ 4 + 9)))
      11
    ≡ answer exception_none 8480 clear
lookup_slot_for_cnode_op-finds_example =
    lookup_slot_for_cnode_op-finds clear nested true 3 root 11
      (((1 * 2 ^ 2 + 1) * 2 ^ 7) + (5 * 2 ^ 4 + 9)) 8480 0 (omega arith) nested-Route

from_words-to_words_example :
    from_words (to_words (untyped 3 0 12 0xffffffc080000000))
    ≡ some (untyped 3 0 12 0xffffffc080000000)
unfolding IsRepresentable AllStorable IsStorable cap_fields
from_words-to_words_example = from_words-to_words (untyped 3 0 12 0xffffffc080000000) (
  (omega arith, omega arith, inl (omega arith, refl)),
  (
    (omega arith, omega arith, inl (omega arith, refl)),
    (
      (omega arith, omega arith, inl (omega arith, refl)),
      ((omega arith, omega arith, inr (refl, refl, omega arith)), tt),
    ),
  ),
)
