-- ===== src/Cmd.antt =====
-- Commands over a memory `S`: the assertions and panics of the source, and what its references
-- read and write (convert_to_mut_type_ref of sel4_common/src/utils.rs asserts that an address is
-- not null).
pub mod Returns
use mi_dev_integral_rel.Base.{ℕ, Bool, not, ◌==◌, if◌then◌else◌}

-- A failed assertion, a panic or an index out of bounds is `panic`.
pub data Run (S A : Type 0) : Type 0 where
  ok : A → S → Run S A
  panic : Run S A

abbrev pub Cmd : Type 0 → Type 0 → Type 0
Cmd S A = S → Run S A

abbrev pub Skip : Type 0
Skip = Unit {0}

module _ {S : Type 0} where
  abbrev pub pure : {A : Type 0} → A → Cmd S A
  pure a s = ok a s

  abbrev pub get : Cmd S S
  get s = ok s s

  abbrev pub modify : (S → S) → Cmd S Skip
  modify f s = ok tt (f s)

  -- `assert!`
  abbrev pub assert : Bool → Cmd S Skip
  assert b s = if b then ok tt s else panic

  -- The assertion of `convert_to_mut_type_ref`.
  abbrev pub convert : ℕ → Cmd S Skip
  convert p = assert (not (p == 0))

  module _ {A B : Type 0} where
    abbrev pub and_then : Run S A → (A → Cmd S B) → Run S B
    and_then (ok a s) f = f a s
    and_then panic f = panic

    infixl 5 ◌>>=◌ ◌>>◌
    abbrev pub ◌>>=◌ : Cmd S A → (A → Cmd S B) → Cmd S B
    m >>= f = λ s. and_then (m s) f

    abbrev pub ◌>>◌ : Cmd S A → Cmd S B → Cmd S B
    m >> n = m >>= λ _. n
