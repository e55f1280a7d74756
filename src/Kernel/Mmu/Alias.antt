-- ===== src/Kernel/Mmu/Alias.antt =====
-- Addresses beyond the 39 bits that riscv64 translates: the limit USER_TOP of kernel/src/config.rs has
-- 47 bits.
use mi_dev_integral_rel.Base.{ℕ, ◌+◌, ◌*◌, ◌/◌, ◌%◌, ◌^◌, ◌≡◌, refl, arith}
use mi_dev_integral_rel.Vspace.{Vspace}
use mi_dev_integral_rel.Vspace.PageTable.{lookup_pt_slot, walk}
use mi_dev_integral_rel.Kernel.Mmu.{address_field}

top_index : (x n : ℕ) → (x + n * 2 ^ 39) / 2 ^ 30 % 2 ^ 9 ≡ x / 2 ^ 30 % 2 ^ 9
top_index x n = omega arith

middle_index : (x n : ℕ) → (x + n * 2 ^ 39) / 2 ^ 21 % 2 ^ 9 ≡ x / 2 ^ 21 % 2 ^ 9
middle_index x n = omega arith

low_index : (x n : ℕ) → (x + n * 2 ^ 39) / 2 ^ 12 % 2 ^ 9 ≡ x / 2 ^ 12 % 2 ^ 9
low_index x n = omega arith

sign : (x n : ℕ) → (x + n * 2 ^ 39) / 2 ^ 38 % 2 ≡ x / 2 ^ 38 % 2
sign x n = omega arith

low : (x n : ℕ) → (x + n * 2 ^ 39) % 2 ^ 39 ≡ x % 2 ^ 39
low x n = omega arith

-- Two addresses that differ by a multiple of 2^39 are the same to the kernel: the lookup of the entry
-- for a mapping has the same result, and a capability keeps the same address of it.
pub lookup_pt_slot-alias :
    (v : Vspace) (pt vptr n : ℕ)
    → (lookup_pt_slot pt (vptr + n * 2 ^ 39) v ≡ lookup_pt_slot pt vptr v)
      × (address_field (vptr + n * 2 ^ 39) ≡ address_field vptr)
unfolding lookup_pt_slot walk address_field
lookup_pt_slot-alias v pt vptr n =
    let top = top_index vptr n in
    let middle = middle_index vptr n in
    let low' = low_index vptr n in (rw (top, middle, low') refl, rw (sign vptr n, low vptr n) refl)
