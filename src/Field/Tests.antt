-- ===== src/Field/Tests.antt =====
-- The theorems on packed fields, at two fields of an untyped capability's second word.
use mi_dev_integral_rel.Base.{ℕ, ◌^◌, ◌≡◌, ◌-◌, refl, true, false, arith, inr}
use mi_dev_integral_rel.Field.{
  Field, get, set, IsField, IsStorable, get-set, placed, read, extended, mask,
}

abbrev address : Field
address = record { index = 0; offset = 0; bits = 39; shift = 0; sign_ext = true }

abbrev block_size : Field
block_size = record { index = 1; offset = 0; bits = 6; shift = 0; sign_ext = false }

abbrev free_index : Field
free_index = record { index = 1; offset = 25; bits = 39; shift = 0; sign_ext = false }

abbrev ones : ℕ → ℕ
ones _ = 2 ^ 64 - 1

get-set_example : get address (set address ones 0xffffffc080000000) ≡ 0xffffffc080000000
unfolding IsField IsStorable
get-set_example =
    get-set address ones 0xffffffc080000000 (omega arith, omega arith)
      (omega arith, omega arith, inr (refl, refl, omega arith))

-- The getters compute.
reads_back : get block_size (set block_size ones 12) ≡ 12
unfolding get set placed read extended mask
reads_back = refl
