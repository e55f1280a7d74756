-- ===== src/Cspace/Mdb/Move.antt =====
-- Moving a capability to another slot and emptying a slot: `cte_move` and `set_empty`.
use mi_dev_integral_rel.Base.{
  ℕ, ◌≡◌, ◌≢◌, ◌↔◌, ◌⊎◌, ◌≤◌, refl, true, false, not, ◌||◌, List, ◌∷◌, ◌++◌, arith, ◌==◌, ◌∉◌, has,
  inl, inr, Bool-cases, update, has-append, if◌then◌else◌,
}
use mi_dev_integral_rel.Cmd.{ok}
use mi_dev_integral_rel.Cmd.Returns.{Returns, returns}
use mi_dev_integral_rel.Links.{frame}
use mi_dev_integral_rel.Links.Insert.{replace_next, replace_prev, replaced}
use mi_dev_integral_rel.Links.Lists.{around, remove}
use mi_dev_integral_rel.Links.Relink.{relink, last-eq_zero, first-eq_zero}
use mi_dev_integral_rel.Cspace.{Capability, null, CSpace, get_cap_type}
use mi_dev_integral_rel.Cspace.Cte.{
  bit, cte_move, get_irq_handler, max_irq, set_empty, post_cap_deletion,
}
use mi_dev_integral_rel.Cspace.Mdb.{IsMdb, Spares}

-- The interrupts once `v` has been cleaned up after.
abbrev pub cleaned : CSpace → Capability → ℕ → ℕ
cleaned c v = if get_cap_type v == 16 then update c.irq_state (get_irq_handler v) 0 else c.irq_state

module _ (c : CSpace) (h src : ℕ) (xs ys : List ℕ) (l : ℕ) (is : IsMdb c h (xs ++ src ∷ ys) l) where
  -- The neighbours of a slot are in its list.
  next_has : c.mdb_next src ≢ 0 → has (c.mdb_next src) (xs ++ src ∷ ys) ≡ true
  next_has ne =
      let k = around c.mdb_next c.mdb_prev h src xs ys l is in
      ground (
        arith,
        has-append (c.mdb_next src) xs (src ∷ ys),
        (first-eq_zero c.mdb_next c.mdb_prev src (c.mdb_next src) ys l k.right).1,
      )

  prev_has : c.mdb_prev src ≢ 0 → has (c.mdb_prev src) (xs ++ src ∷ ys) ≡ true
  prev_has ne =
      let k = around c.mdb_next c.mdb_prev h src xs ys l is in
      ground (
        arith,
        has-append (c.mdb_prev src) xs (src ∷ ys),
        (last-eq_zero c.mdb_next c.mdb_prev h xs (c.mdb_prev src) src k.left).1,
      )

  -- Neither neighbour is the slot itself.
  next-ne : c.mdb_next src ≢ src
  next-ne e =
      let k = around c.mdb_next c.mdb_prev h src xs ys l is in
      ground (
        arith,
        k.ne_zero,
        k.not_right,
        (first-eq_zero c.mdb_next c.mdb_prev src (c.mdb_next src) ys l k.right).1,
      )

  prev-ne : c.mdb_prev src ≢ src
  prev-ne e =
      let k = around c.mdb_next c.mdb_prev h src xs ys l is in
      ground (
        arith,
        k.ne_zero,
        k.not_left,
        (last-eq_zero c.mdb_next c.mdb_prev h xs (c.mdb_prev src) src k.left).1,
      )

  module _ (v : Capability) (dest : ℕ) where
    -- Memory once `v` is in `dest` in the place of `src`.
    abbrev moved : CSpace
    moved = record c {
      cap = update (update c.cap dest v) src null;
      mdb_next = replace_next c.mdb_next c.mdb_prev h src dest;
      mdb_prev = replace_prev c.mdb_next c.mdb_prev h src dest;
      mdb_revocable = update (update c.mdb_revocable dest (c.mdb_revocable src)) src 0;
      mdb_first_badged = update (update c.mdb_first_badged dest (c.mdb_first_badged src)) src 0;
    }

    moved_run :
        c.cap dest ≡ null
        → c.mdb_next dest ≡ 0
        → c.mdb_prev dest ≡ 0
        → cte_move v src dest c ≡ ok tt moved
    unfolding cte_move
    moved_run empty n p = elim (Bool-cases (c.mdb_next src == 0)) [
      | inl e ↦ elim (Bool-cases (c.mdb_prev src == 0)) [
        | inl f ↦ rw (empty, n, p, e, f) refl
        | inr f ↦ rw (empty, n, p, e, f) refl
      ]
      | inr e ↦ elim (Bool-cases (c.mdb_prev src == 0)) [
        | inl f ↦ rw (empty, n, p, e, f) refl
        | inr f ↦ rw (empty, n, p, e, f) refl
      ]
    ]

    -- Moving a capability into an empty unlinked slot outside the derivation list returns: the slot
    -- takes its source's place in the list, with the capability and the source's two flags, and the
    -- source is empty and unlinked.
    pub cte_move-replaces :
        c.cap dest ≡ null
        → c.mdb_next dest ≡ 0
        → c.mdb_prev dest ≡ 0
        → dest ≢ 0
        → dest ∉ xs ++ src ∷ ys
        → Returns
            (λ _ c'.
              IsMdb c'
                (if c.mdb_prev src == 0 then dest else h)
                (xs ++ dest ∷ ys)
                (if c.mdb_next src == 0 then dest else l)
              × ((c'.cap dest ≡ v) × (c'.cap src ≡ null))
              × ((c'.mdb_revocable dest ≡ c.mdb_revocable src)
                  × (c'.mdb_first_badged dest ≡ c.mdb_first_badged src))
              × ((c'.mdb_next src ≡ 0) × (c'.mdb_prev src ≡ 0))
              × Spares (dest ∷ xs ++ src ∷ ys) c c')
            (cte_move v src dest c)
    cte_move-replaces empty n p ne out =
        let i : has src (xs ++ src ∷ ys) ≡ true = ground (arith, has-append src xs (src ∷ ys)) in
        rw (moved_run empty n p) (
          returns (
            replaced c.mdb_next c.mdb_prev h src dest xs ys l is ne out,
            (ground arith, ground arith),
            (ground arith, ground arith),
            (ground (arith, prev-ne), ground (arith, next-ne)),
            record {
              nexts = λ x o. ground (arith, prev_has, has-append x xs (src ∷ ys));
              prevs = λ x o. ground (arith, next_has, has-append x xs (src ∷ ys));
              caps = λ x o. ground (arith, has-append x xs (src ∷ ys));
            },
          ))

  -- Memory once `src` is empty.
  abbrev emptied : (ℕ → ℕ) → CSpace
  emptied irqs = record c {
    irq_state = irqs;
    cap = update c.cap src null;
    mdb_next = update (relink c.mdb_next (c.mdb_prev src) (c.mdb_next src)) src 0;
    mdb_prev = update (relink c.mdb_prev (c.mdb_next src) (c.mdb_prev src)) src 0;
    mdb_revocable = update c.mdb_revocable src 0;
    mdb_first_badged =
        update
          (relink c.mdb_first_badged (c.mdb_next src) (
            bit (
              not (c.mdb_first_badged (c.mdb_next src) == 0) || not (c.mdb_first_badged src == 0))))
          src 0;
  }

  emptied_run :
      (v : Capability)
      → get_cap_type (c.cap src) ≢ 0
      → set_empty src v c ≡ post_cap_deletion v (emptied c.irq_state)
  unfolding set_empty
  emptied_run v some_cap =
      let f : (get_cap_type (c.cap src) == 0) ≡ false = ground arith in
      elim (Bool-cases (c.mdb_next src == 0)) [
        | inl e ↦ elim (Bool-cases (c.mdb_prev src == 0)) [
          | inl g ↦ rw (f, e, g) refl
          | inr g ↦ rw (f, e, g) refl
        ]
        | inr e ↦ elim (Bool-cases (c.mdb_prev src == 0)) [
          | inl g ↦ rw (f, e, g) refl
          | inr g ↦ rw (f, e, g) refl
        ]
      ]

  deletion_run :
      (v : Capability)
      → (get_cap_type v ≡ 16 → get_irq_handler v ≤ max_irq)
      → post_cap_deletion v (emptied c.irq_state) ≡ ok tt (emptied (cleaned c v))
  unfolding post_cap_deletion
  deletion_run v valid = ground arith

  emptied-IsMdb :
      IsMdb
        (emptied c.irq_state)
        (if c.mdb_prev src == 0 then c.mdb_next src else h)
        (xs ++ ys)
        (if c.mdb_next src == 0 then c.mdb_prev src else l)
  emptied-IsMdb =
      let k = around c.mdb_next c.mdb_prev h src xs ys l is in
      let r = remove c.mdb_next c.mdb_prev h src xs ys l is in
      record {
        seg =
            frame (relink c.mdb_next (c.mdb_prev src) (c.mdb_next src))
              (relink c.mdb_prev (c.mdb_next src) (c.mdb_prev src)) (emptied c.irq_state).mdb_next
              (emptied c.irq_state).mdb_prev 0 (if c.mdb_prev src == 0 then c.mdb_next src else h)
              (xs ++ ys) (if c.mdb_next src == 0 then c.mdb_prev src else l) 0 r.seg
              (λ x i. ground (arith, has-append x xs ys, k.not_left, k.not_right))
              (λ x i. ground (arith, has-append x xs ys, k.not_left, k.not_right));
        distinct = r.distinct;
      }

  badged :
      (c.mdb_next src ≡ 0)
      ⊎ (((emptied c.irq_state).mdb_first_badged (c.mdb_next src) ≡ 0)
          ↔ ((c.mdb_first_badged (c.mdb_next src) ≡ 0) × (c.mdb_first_badged src ≡ 0)))
  badged = elim (Bool-cases (c.mdb_next src == 0)) [
    | inl e ↦ inl (ground arith)
    | inr e ↦ inr (λ f. ground (arith, next-ne), λ f. ground (arith, next-ne))
  ]

  -- Emptying a slot that holds a capability, with a cleanup whose interrupt, if it has one, exists,
  -- returns: the other slots keep their order in the list, the slot is empty and unlinked, its
  -- successor is first badged if either of the two was, the interrupt is inactive, and no other
  -- capability changes and no link outside the list.
  pub set_empty-unlinks :
      (v : Capability)
      → get_cap_type (c.cap src) ≢ 0
      → (get_cap_type v ≡ 16 → get_irq_handler v ≤ max_irq)
      → Returns
          (λ _ c'.
            IsMdb c'
              (if c.mdb_prev src == 0 then c.mdb_next src else h)
              (xs ++ ys)
              (if c.mdb_next src == 0 then c.mdb_prev src else l)
            × (c'.cap ≡ update c.cap src null)
            × ((c'.mdb_next src ≡ 0) × (c'.mdb_prev src ≡ 0))
            × ((c.mdb_next src ≡ 0)
                ⊎ ((c'.mdb_first_badged (c.mdb_next src) ≡ 0)
                    ↔ ((c.mdb_first_badged (c.mdb_next src) ≡ 0) × (c.mdb_first_badged src ≡ 0))))
            × (c'.irq_state ≡ cleaned c v)
            × Spares (xs ++ src ∷ ys) c c')
          (set_empty src v c)
  set_empty-unlinks v some_cap valid =
      rw (emptied_run v some_cap, deletion_run v valid)
        (returns (
          record { seg = emptied-IsMdb.seg; distinct = emptied-IsMdb.distinct },
          refl,
          (ground arith, ground arith),
          badged,
          refl,
          record {
            nexts = λ x o. ground (arith, prev_has, has-append x xs (src ∷ ys));
            prevs = λ x o. ground (arith, next_has, has-append x xs (src ∷ ys));
            caps = λ x o. ground (arith, has-append x xs (src ∷ ys));
          },
        ))

  -- Emptying a slot as above clears its flags and changes no flag of another slot but the first-badged
  -- flag of its successor.
  pub set_empty-flags :
      (v : Capability)
      → get_cap_type (c.cap src) ≢ 0
      → (get_cap_type v ≡ 16 → get_irq_handler v ≤ max_irq)
      → Returns
          (λ _ c'.
            ((c'.mdb_revocable src ≡ 0) × (c'.mdb_first_badged src ≡ 0))
            × ((x : ℕ) → x ≢ src → c'.mdb_revocable x ≡ c.mdb_revocable x)
            × ((x : ℕ)
                → x ≢ src
                → x ≢ c.mdb_next src
                → c'.mdb_first_badged x ≡ c.mdb_first_badged x))
          (set_empty src v c)
  set_empty-flags v some_cap valid =
      rw (emptied_run v some_cap, deletion_run v valid)
        (returns (
          (ground arith, ground arith),
          (λ x ne. ground (arith, ne)),
          (λ x ne other. ground (arith, ne, other)),
        ))
