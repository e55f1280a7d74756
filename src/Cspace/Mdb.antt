-- ===== src/Cspace/Mdb.antt =====
-- What the operations of sel4_cspace/src/cte.rs do to the derivation list.
pub mod Insert
pub mod Move
pub mod Swap
use mi_dev_integral_rel.Base.{ℕ, ◌≡◌, List, ◌∉◌}
use mi_dev_integral_rel.Links.Lists.{IsList}
use mi_dev_integral_rel.Cspace.{CSpace}

-- The slots `xs` are linked in this order, from the slot `h` to the slot `l`.
abbrev pub IsMdb : CSpace → ℕ → List ℕ → ℕ → Type 0
IsMdb c h xs l = IsList c.mdb_next c.mdb_prev h xs l

-- Slots outside `xs` keep their links and their capabilities.
pub record Spares (xs : List ℕ) (c c' : CSpace) : Type 0 where
  pub nexts : (x : ℕ) → x ∉ xs → c'.mdb_next x ≡ c.mdb_next x
  pub prevs : (x : ℕ) → x ∉ xs → c'.mdb_prev x ≡ c.mdb_prev x
  pub caps : (x : ℕ) → x ∉ xs → c'.cap x ≡ c.cap x
