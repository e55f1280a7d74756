-- ===== src/Cspace/Mdb/Insert.antt =====
-- Insertion of a capability behind its parent: `cte_insert` and `insert_new_cap`.
use mi_dev_integral_rel.Base.{
  ℕ, ◌≡◌, ◌≢◌, refl, Bool, true, has, ◌&&◌, some, List, ◌∷◌, ◌++◌, arith, ◌==◌, ◌∉◌, inl, inr,
  Bool-cases, update, has-append, if◌then◌else◌,
}
use mi_dev_integral_rel.Cmd.{ok}
use mi_dev_integral_rel.Cmd.Returns.{Returns, returns}
use mi_dev_integral_rel.Links.Insert.{insert_next, insert_prev, insert_after}
use mi_dev_integral_rel.Links.Lists.{around}
use mi_dev_integral_rel.Links.Relink.{first-eq_zero}
use mi_dev_integral_rel.Cspace.{Capability, null, CSpace, get_cap_type}
use mi_dev_integral_rel.Cspace.Cap.{is_cap_revocable}
use mi_dev_integral_rel.Cspace.Cte.{
  bit, insert_new_cap, cte_insert, full, get_untyped_ptr, get_untyped_block_size,
  set_untyped_cap_as_full,
}
use mi_dev_integral_rel.Cspace.Mdb.{IsMdb, Spares}

-- Whether the second capability is the first one's whole untyped memory.
abbrev pub takes_all : Capability → Capability → Bool
takes_all u v =
    (get_cap_type u == 2)
    && (get_cap_type v == 2)
    && (get_untyped_ptr u == get_untyped_ptr v)
    && (get_untyped_block_size u == get_untyped_block_size v)

-- What is left of a source whose capability is copied: untyped memory copied whole is used up.
abbrev pub left_over : Capability → Capability → Capability
left_over u v = if takes_all u v then full (get_untyped_block_size u) u else u

module _ (c : CSpace) (h src dest : ℕ) (b : Bool) (v : Capability) (caps : ℕ → Capability) where
  -- Memory once `v` is in `dest` behind `src`, where `caps` were the capabilities.
  abbrev pub inserted : CSpace
  inserted = record c {
    cap = update caps dest v;
    mdb_next = insert_next c.mdb_next c.mdb_prev h src dest;
    mdb_prev = insert_prev c.mdb_next c.mdb_prev h src dest;
    mdb_revocable = update c.mdb_revocable dest (bit b);
    mdb_first_badged = update c.mdb_first_badged dest (bit b);
  }

  module _ (xs ys : List ℕ) (l : ℕ) (is : IsMdb c h (xs ++ src ∷ ys) l) where
    next_has : c.mdb_next src ≢ 0 → has (c.mdb_next src) (xs ++ src ∷ ys) ≡ true
    next_has ne =
        let k = around c.mdb_next c.mdb_prev h src xs ys l is in
        ground (
          arith,
          has-append (c.mdb_next src) xs (src ∷ ys),
          (first-eq_zero c.mdb_next c.mdb_prev src (c.mdb_next src) ys l k.right).1,
        )

    inserted-Spares :
        ((x : ℕ) → x ≢ src → caps x ≡ c.cap x) → Spares (dest ∷ xs ++ src ∷ ys) c inserted
    inserted-Spares same = record {
      nexts = λ x o. ground (arith, has-append x xs (src ∷ ys));
      prevs = λ x o. ground (arith, next_has);
      caps = λ x o. ground (arith, same x, has-append x xs (src ∷ ys));
    }

module _ (c : CSpace) (h src : ℕ) (xs ys : List ℕ) (l dest : ℕ) (v : Capability)
    (is : IsMdb c h (xs ++ src ∷ ys) l) (ne : dest ≢ 0) (out : dest ∉ xs ++ src ∷ ys) where
  insert_new_cap_run : insert_new_cap src dest v c ≡ ok tt (inserted c h src dest true v c.cap)
  unfolding insert_new_cap
  insert_new_cap_run = elim (Bool-cases (c.mdb_next src == 0)) [
    | inl e ↦ rw e refl
    | inr e ↦ rw e refl
  ]

  -- Giving a new capability to a slot outside the derivation list puts the slot right behind its
  -- parent, revocable and first badged, with that capability, and changes no other capability and
  -- no link outside the list.
  pub insert_new_cap-links :
      Returns
        (λ _ c'.
          IsMdb c' h (xs ++ src ∷ dest ∷ ys) (if c.mdb_next src == 0 then dest else l)
          × (c'.cap ≡ update c.cap dest v)
          × ((c'.mdb_revocable dest ≡ 1) × (c'.mdb_first_badged dest ≡ 1))
          × Spares (dest ∷ xs ++ src ∷ ys) c c')
        (insert_new_cap src dest v c)
  insert_new_cap-links = rw insert_new_cap_run (
      returns (
        insert_after c.mdb_next c.mdb_prev h src dest xs ys l is ne out,
        refl,
        (ground arith, ground arith),
        inserted-Spares c h src dest true v c.cap xs ys l is (λ x n. refl),
      ))

  -- The capabilities before `dest` is written.
  abbrev filled : ℕ → Capability
  filled = update c.cap src (left_over (c.cap src) v)

  fill_run : set_untyped_cap_as_full (c.cap src) v src c ≡ ok tt (record c { cap = filled })
  unfolding set_untyped_cap_as_full
  fill_run = ground arith

  cte_insert_run :
      (b : Bool)
      → is_cap_revocable v (c.cap src) ≡ some b
      → c.cap dest ≡ null
      → c.mdb_next dest ≡ 0
      → c.mdb_prev dest ≡ 0
      → cte_insert v src dest c ≡ ok tt (inserted c h src dest b v filled)
  unfolding cte_insert
  cte_insert_run b rev empty n p = elim (Bool-cases (c.mdb_next src == 0)) [
    | inl e ↦ rw (rev, empty, n, p, fill_run, e) refl
    | inr e ↦ rw (rev, empty, n, p, fill_run, e) refl
  ]

  -- On a list and an empty unlinked slot outside of it, where the revocability of the copy is
  -- defined, `cte_insert` returns: the slot stands right behind its source with the copy and with
  -- that revocability, and no other capability changes but the source's, which keeps what is left of
  -- it, and no link outside the list.
  pub cte_insert-links :
      (b : Bool)
      → is_cap_revocable v (c.cap src) ≡ some b
      → c.cap dest ≡ null
      → c.mdb_next dest ≡ 0
      → c.mdb_prev dest ≡ 0
      → Returns
          (λ _ c'.
            IsMdb c' h (xs ++ src ∷ dest ∷ ys) (if c.mdb_next src == 0 then dest else l)
            × (c'.cap ≡ update (update c.cap src (left_over (c.cap src) v)) dest v)
            × ((c'.mdb_revocable dest ≡ bit b) × (c'.mdb_first_badged dest ≡ bit b))
            × Spares (dest ∷ xs ++ src ∷ ys) c c')
          (cte_insert v src dest c)
  cte_insert-links b rev empty n p = rw (cte_insert_run b rev empty n p) (
      returns (
        insert_after c.mdb_next c.mdb_prev h src dest xs ys l is ne out,
        refl,
        (ground arith, ground arith),
        inserted-Spares c h src dest b v filled xs ys l is (λ x n. ground arith),
      ))
