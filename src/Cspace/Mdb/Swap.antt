-- ===== src/Cspace/Mdb/Swap.antt =====
-- Exchanging two slots: `cte_swap`.
use mi_dev_integral_rel.Base.{
  ℕ, ◌≡◌, ◌≢◌, refl, true, List, arith, ◌==◌, has, update, subst, if◌then◌else◌,
}
use mi_dev_integral_rel.Cmd.{ok}
use mi_dev_integral_rel.Cmd.Returns.{Returns, returns}
use mi_dev_integral_rel.Links.{Seg, has-ne_zero}
use mi_dev_integral_rel.Links.Rename.{rename, renamed, forward, backward, no_loop, Distinct-rename}
use mi_dev_integral_rel.Links.Relink.{relink}
use mi_dev_integral_rel.Cspace.{Capability, CSpace}
use mi_dev_integral_rel.Cspace.Cte.{cte_swap}
use mi_dev_integral_rel.Cspace.Mdb.{IsMdb}

module _ (c : CSpace) (s t : ℕ) (u v : Capability) where
  abbrev swapped : CSpace
  swapped = record c {
    cap = update (update c.cap s v) t u;
    mdb_next =
        relink
          (update (update (relink c.mdb_next (c.mdb_prev s) t) s (c.mdb_next t)) t (c.mdb_next s))
          (c.mdb_prev t) s;
    mdb_prev =
        relink
          (update (update (relink c.mdb_prev (c.mdb_next s) t) s (c.mdb_prev t)) t (c.mdb_prev s))
          (c.mdb_next t) s;
    mdb_revocable = update (update c.mdb_revocable s (c.mdb_revocable t)) t (c.mdb_revocable s);
    mdb_first_badged =
        update (update c.mdb_first_badged s (c.mdb_first_badged t)) t (c.mdb_first_badged s);
  }

  swap_run : cte_swap u s v t c ≡ ok tt swapped
  unfolding cte_swap
  swap_run = ground arith

-- The exchange of `s` and `t`.
abbrev pub exchange : ℕ → ℕ → ℕ → ℕ
exchange s t x = if x == s then t else if x == t then s else x

module _ (c : CSpace) (h : ℕ) (xs : List ℕ) (l s t : ℕ) (u v : Capability) (is : IsMdb c h xs l)
    (s_in : has s xs ≡ true) (t_in : has t xs ≡ true) (apart : s ≢ t) (not_next : c.mdb_next s ≢ t)
    (not_prev : c.mdb_next t ≢ s) where
  next_renamed :
      (x : ℕ)
      → has x xs ≡ true
      → (swapped c s t u v).mdb_next (exchange s t x) ≡ exchange s t (c.mdb_next x)
  next_renamed x i = ground (
    arith,
    has-ne_zero c.mdb_next c.mdb_prev 0 h xs l 0 x is.seg,
    has-ne_zero c.mdb_next c.mdb_prev 0 h xs l 0 s is.seg,
    has-ne_zero c.mdb_next c.mdb_prev 0 h xs l 0 t is.seg,
    forward c.mdb_next c.mdb_prev 0 h xs l 0 x is.seg,
    backward c.mdb_next c.mdb_prev 0 h xs l 0 s is.seg,
    backward c.mdb_next c.mdb_prev 0 h xs l 0 t is.seg,
    no_loop c.mdb_next c.mdb_prev 0 h xs l s is.seg is.distinct,
    no_loop c.mdb_next c.mdb_prev 0 h xs l t is.seg is.distinct,
  )

  prev_renamed :
      (x : ℕ)
      → has x xs ≡ true
      → (swapped c s t u v).mdb_prev (exchange s t x) ≡ exchange s t (c.mdb_prev x)
  prev_renamed x i = ground (
    arith,
    has-ne_zero c.mdb_next c.mdb_prev 0 h xs l 0 x is.seg,
    has-ne_zero c.mdb_next c.mdb_prev 0 h xs l 0 s is.seg,
    has-ne_zero c.mdb_next c.mdb_prev 0 h xs l 0 t is.seg,
    backward c.mdb_next c.mdb_prev 0 h xs l 0 x is.seg,
    forward c.mdb_next c.mdb_prev 0 h xs l 0 s is.seg,
    forward c.mdb_next c.mdb_prev 0 h xs l 0 t is.seg,
    backward c.mdb_next c.mdb_prev 0 h xs l 0 s is.seg,
    backward c.mdb_next c.mdb_prev 0 h xs l 0 t is.seg,
    no_loop c.mdb_next c.mdb_prev 0 h xs l s is.seg is.distinct,
    no_loop c.mdb_next c.mdb_prev 0 h xs l t is.seg is.distinct,
  )

  exchange-involutive : (x : ℕ) → exchange s t (exchange s t x) ≡ x
  exchange-involutive x = ground (arith, apart)

  swapped-IsMdb :
      IsMdb (swapped c s t u v) (exchange s t h) (rename (exchange s t) xs) (exchange s t l)
  swapped-IsMdb =
      let s_ne = has-ne_zero c.mdb_next c.mdb_prev 0 h xs l 0 s is.seg s_in in
      let t_ne = has-ne_zero c.mdb_next c.mdb_prev 0 h xs l 0 t is.seg t_in in
      let zero_fixed : exchange s t 0 ≡ 0 = ground arith in
      let k = swapped c s t u v in
      let seg =
        renamed c.mdb_next c.mdb_prev k.mdb_next k.mdb_prev (exchange s t) 0 h xs l 0 is.seg (λ x i.
          (
            ground (arith, has-ne_zero c.mdb_next c.mdb_prev 0 h xs l 0 x is.seg),
            next_renamed x i,
            prev_renamed x i,
          )) in
      record {
        seg =
            subst
              (λ z.
                Seg k.mdb_next k.mdb_prev z (exchange s t h) (rename (exchange s t) xs)
                  (exchange s t l) z)
              zero_fixed seg;
        distinct = Distinct-rename (exchange s t) exchange-involutive xs is.distinct;
      }

  -- On two slots of the derivation list that are not next to each other, `cte_swap` returns: the
  -- slots have changed places in the list, with their flags, and hold the two capabilities given.
  pub cte_swap-exchanges :
      Returns
        (λ _ c'.
          IsMdb c' (exchange s t h) (rename (exchange s t) xs) (exchange s t l)
          × (c'.cap ≡ update (update c.cap s v) t u)
          × ((c'.mdb_revocable s ≡ c.mdb_revocable t) × (c'.mdb_revocable t ≡ c.mdb_revocable s))
          × ((c'.mdb_first_badged s ≡ c.mdb_first_badged t)
              × (c'.mdb_first_badged t ≡ c.mdb_first_badged s)))
        (cte_swap u s v t c)
  cte_swap-exchanges = rw (swap_run c s t u v) (
      returns (
        swapped-IsMdb,
        refl,
        (ground (arith, apart), ground arith),
        (ground (arith, apart), ground arith),
      ))

module _ (c : CSpace) (h : ℕ) (xs : List ℕ) (l s t : ℕ) (u v : Capability) (is : IsMdb c h xs l)
    (s_in : has s xs ≡ true) (next : c.mdb_next s ≡ t) (ne : t ≢ 0) (h' l' : ℕ) (zs : List ℕ)
    (i : has s zs ≡ true) where
  -- On two slots of the derivation list where the second follows the first, `cte_swap` returns with
  -- each of them its own successor, and with no list of slots that the first is in linked any more.
  pub cte_swap-loops :
      Returns
        (λ _ c'. (c'.mdb_next s ≡ s) × (c'.mdb_next t ≡ t) × ¬ IsMdb c' h' zs l')
        (cte_swap u s v t c)
  cte_swap-loops =
      let s_ne = has-ne_zero c.mdb_next c.mdb_prev 0 h xs l 0 s is.seg s_in in
      let apart = no_loop c.mdb_next c.mdb_prev 0 h xs l s is.seg is.distinct s_in in
      let k = swapped c s t u v in
      let loop : k.mdb_next s ≡ s =
        ground (arith, forward c.mdb_next c.mdb_prev 0 h xs l 0 s is.seg) in
      rw (swap_run c s t u v) (
        returns (
          loop,
          ground (arith, forward c.mdb_next c.mdb_prev 0 h xs l 0 s is.seg),
          λ list. no_loop k.mdb_next k.mdb_prev 0 h' zs l' s list.seg list.distinct i loop,
        ))
