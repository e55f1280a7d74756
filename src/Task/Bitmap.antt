-- ===== src/Task/Bitmap.antt =====
-- The two-level bitmap of ready priorities, sel4_task/src/scheduler.rs: bit `i` of the first level
-- says that word `invert_l1index i` of the second has a bit set, and bit `j` of that word that the
-- queue of priority `64 * i + j` is not empty. (Priorities of one core.)
pub mod Levels
pub mod Words
use Prim.Native.Nat.{bit_or}
use mi_dev_integral_rel.Base.{
  ℕ, ◌+◌, ◌-◌, ◌*◌, ◌/◌, ◌%◌, ◌^◌, Bool, true, not, ltb, leb, ◌==◌, update, if◌then◌else◌,
}
use mi_dev_integral_rel.Bits.{set_bit, clear_bit, leading_zeros}
use mi_dev_integral_rel.Cmd.{Cmd, Skip, assert, pure, get, modify, ◌>>=◌, ◌>>◌}
use mi_dev_integral_rel.Task.{Tasks}

-- CONFIG_NUM_DOMAINS, CONFIG_NUM_PRIORITIES, wordRadix, wordBits and L2_BITMAP_SIZE of
-- sel4_common/src/sel4_config.rs
abbrev pub num_domains : ℕ
num_domains = 1

abbrev pub num_priorities : ℕ
num_priorities = 256

abbrev pub word_radix : ℕ
word_radix = 6

abbrev pub word_bits : ℕ
word_bits = 64

abbrev pub l2_bitmap_size : ℕ
l2_bitmap_size = (num_priorities + word_bits - 1) / word_bits

abbrev pub prio_to_l1index : ℕ → ℕ
prio_to_l1index prio = prio / 2 ^ word_radix

abbrev pub l1index_to_prio : ℕ → ℕ
l1index_to_prio l1index = l1index * 2 ^ word_radix

-- A subtraction of `usize` wraps.
abbrev pub wrapping_sub : ℕ → ℕ → ℕ
wrapping_sub a b = (a + 2 ^ 64 - b) % 2 ^ 64

abbrev pub invert_l1index : ℕ → ℕ
invert_l1index l1index = wrapping_sub (l2_bitmap_size - 1) l1index

-- The bounds check of an array access.
abbrev pub index : ℕ → ℕ → Cmd Tasks Skip
index i len = assert (ltb i len)

unfoldable pub get_highest_prio : ℕ → Cmd Tasks ℕ
get_highest_prio dom = do
  index dom num_domains
  k ← get
  let l1index = wrapping_sub (word_bits - 1) (leading_zeros (k.l1_bitmap dom))
  let l1index_inverted = invert_l1index l1index
  index l1index_inverted l2_bitmap_size
  let l2index = wrapping_sub (word_bits - 1) (leading_zeros (k.l2_bitmap dom l1index_inverted))
  pure (bit_or (l1index_to_prio l1index) l2index)

unfoldable pub is_highest_prio : ℕ → ℕ → Cmd Tasks Bool
is_highest_prio dom prio = do
  index dom num_domains
  k ← get
  if k.l1_bitmap dom == 0
      then pure true
      else do highest ← get_highest_prio dom; pure (leb highest prio)

unfoldable pub add_to_bitmap : ℕ → ℕ → Cmd Tasks Skip
add_to_bitmap dom prio = do
  let l1index = prio_to_l1index prio
  let l1index_inverted = invert_l1index l1index
  index dom num_domains
  modify (λ k. record k { l1_bitmap = update k.l1_bitmap dom (set_bit (k.l1_bitmap dom) l1index) })
  index l1index_inverted l2_bitmap_size
  modify λ k. record k {
    l2_bitmap =
        let word = set_bit (k.l2_bitmap dom l1index_inverted) (prio % 2 ^ word_radix) in
        update k.l2_bitmap dom (update (k.l2_bitmap dom) l1index_inverted word);
  }

unfoldable pub remove_from_bitmap : ℕ → ℕ → Cmd Tasks Skip
remove_from_bitmap dom prio = do
  let l1index = prio_to_l1index prio
  let l1index_inverted = invert_l1index l1index
  index dom num_domains
  index l1index_inverted l2_bitmap_size
  modify λ k. record k {
    l2_bitmap =
        let word = clear_bit (k.l2_bitmap dom l1index_inverted) (prio % 2 ^ word_radix) in
        update k.l2_bitmap dom (update (k.l2_bitmap dom) l1index_inverted word);
  }
  k ← get
  if not (k.l2_bitmap dom l1index_inverted == 0)
      then pure tt
      else modify
          λ k. record k { l1_bitmap = update k.l1_bitmap dom (clear_bit (k.l1_bitmap dom) l1index) }
