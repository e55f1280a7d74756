-- ===== src/Cspace/Cap/Zombie.antt =====
-- A zombie's id holds the address of its slots and, in the bits below, how many of them are left.
use native.Mathlib.Nat.{add-mul-mod_self_right, mod-eq_of_lt, one-le-pow}
use mi_dev_integral_rel.Base.{
  ℕ, ◌+◌, ◌-◌, ◌*◌, ◌%◌, ◌^◌, ◌<◌, ◌≡◌, ◌⊎◌, ◌∙◌, refl, arith, ◌==◌, inl, inr, Bool-cases,
  if◌then◌else◌,
}
use mi_dev_integral_rel.Cspace.{zombie}
use mi_dev_integral_rel.Cspace.Cap.{
  zombie_bit, zombie_ptr, zombie_number, set_zombie_number, zombie_new, zombie_tcb, tcb_cnode_radix,
  word_radix,
}

-- How many slots fit, and more: the ids of this type are multiples of it plus a number.
abbrev pub room : ℕ → ℕ
room type = 2 ^ (zombie_bit type + 1)

room_pos : (type : ℕ) → 0 < room type
room_pos type = one-le-pow (zombie_bit type + 1) 2 (omega arith)

module _ (a m n : ℕ) (lt : n < m) where
  low : (a * m + n) % m ≡ n
  low =
      (let e : a * m + n ≡ n + a * m = omega arith in rw e (add-mul-mod_self_right n a m))
      ∙ mod-eq_of_lt lt

module _ (a type n : ℕ) (fits : n < room type) where
  -- An id, taken apart.
  number_of : zombie_number (a * room type + n) type ≡ n
  unfolding zombie_number
  number_of = low a (room type) n fits

  ptr_of : zombie_ptr (a * room type + n) type ≡ a * room type
  unfolding zombie_ptr
  ptr_of = let e = low a (room type) n fits in rw e (omega arith)

module _ (a type n : ℕ) (valid : (type ≡ zombie_tcb) ⊎ (type < 2 ^ 6)) (fits : n < room type) where
  size : (if type == zombie_tcb then 2 ^ (tcb_cnode_radix + 1) else 2 ^ (type + 1)) ≡ room type
  unfolding zombie_bit
  size = elim (Bool-cases (type == zombie_tcb)) [
    | inl e ↦ rw e refl
    | inr e ↦ let small : type % 2 ^ word_radix ≡ type = ground arith in rw (e, small) refl
  ]

  new_run : zombie_new n type (a * room type) ≡ zombie (a * room type + n) type
  unfolding zombie_new
  new_run =
      let none_left : a * room type % room type ≡ 0 =
        (let e : a * room type ≡ a * room type + 0 = omega arith in
          rw e (low a (room type) 0 (room_pos type))) in
      let whole : a * room type - 0 ≡ a * room type = omega arith in
      rw (size, none_left, mod-eq_of_lt fits, whole) refl

  -- A new zombie of a TCB or of a CNode, for slots at a multiple of its room and a number that fits,
  -- gives both back, and once another number that fits is set, it gives that one and the same slots.
  pub zombie_new-reads :
      (m : ℕ)
      → m < room type
      → (id : ℕ) × (zombie_new n type (a * room type) ≡ zombie id type)
        × (zombie_ptr id type ≡ a * room type)
        × (zombie_number id type ≡ n)
        × (zombie_number (set_zombie_number id type m) type ≡ m)
        × (zombie_ptr (set_zombie_number id type m) type ≡ a * room type)
  unfolding set_zombie_number
  zombie_new-reads m lt =
      let e : set_zombie_number (a * room type + n) type m ≡ a * room type + m =
        rw (ptr_of a type n fits, mod-eq_of_lt lt) refl in
      (
        a * room type + n,
        new_run,
        ptr_of a type n fits,
        number_of a type n fits,
        rw e (number_of a type m lt),
        rw e (ptr_of a type m lt),
      )
