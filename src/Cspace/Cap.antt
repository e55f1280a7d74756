-- ===== src/Cspace/Cap.antt =====
-- The functions on one or two capabilities: sel4_cspace/src/cap/mod.rs, cap/zombie.rs and the
-- arch_* functions of arch/riscv64/mod.rs. Additions of addresses wrap at 64 bits.
pub mod Region
pub mod Zombie
use mi_dev_integral_rel.Base.{
  ℕ, ◌+◌, ◌-◌, ◌*◌, ◌/◌, ◌%◌, ◌^◌, Bool, true, false, not, ◌&&◌, ◌||◌, Option, none, some, ltb, leb,
  ◌==◌, if◌then◌else◌,
}
use mi_dev_integral_rel.Cspace.{
  Capability, null, untyped, endpoint, notification, reply, cnode, thread, irq_control, irq_handler,
  zombie, domain, frame, page_table, asid_control, asid_pool, get_cap_type,
}

-- `MASK!`
abbrev pub mask : ℕ → ℕ
mask e = 2 ^ e - 1

abbrev pub wrapping_add : ℕ → ℕ → ℕ
wrapping_add a b = (a + b) % 2 ^ 64

abbrev pub word_radix : ℕ
word_radix = 6

abbrev pub word_bits : ℕ
word_bits = 64

-- ZombieType_ZombieTCB and TCB_CNODE_RADIX
abbrev pub zombie_tcb : ℕ
zombie_tcb = 2 ^ word_radix

abbrev pub tcb_cnode_radix : ℕ
tcb_cnode_radix = 4

unfoldable pub zombie_bit : ℕ → ℕ
zombie_bit type = if type == zombie_tcb then tcb_cnode_radix else type % 2 ^ word_radix

-- `get_zombie_ptr` and `get_zombie_number`, of the zombie's id and type: `& !MASK!` and `& MASK!`.
unfoldable pub zombie_ptr : ℕ → ℕ → ℕ
unfolding zombie_bit
zombie_ptr id type = id - id % 2 ^ (zombie_bit type + 1)

unfoldable pub zombie_number : ℕ → ℕ → ℕ
unfolding zombie_bit
zombie_number id type = id % 2 ^ (zombie_bit type + 1)

-- `set_zombie_number`; the two parts share no bit, so `|` is a sum.
unfoldable pub set_zombie_number : ℕ → ℕ → ℕ → ℕ
unfolding zombie_bit zombie_ptr
set_zombie_number id type n = zombie_ptr id type + n % 2 ^ (zombie_bit type + 1)

-- `Zombie_new`
unfoldable pub zombie_new : ℕ → ℕ → ℕ → Capability
zombie_new number type ptr =
    let m = if type == zombie_tcb then 2 ^ (tcb_cnode_radix + 1) else 2 ^ (type + 1) in
    zombie (ptr - ptr % m + number % m) type

-- `pageBitsForSize` of sel4_common/src/utils.rs; `none` is its panic.
unfoldable pub page_bits_for_size : ℕ → Option ℕ
page_bits_for_size size =
    if size == 0
    then some 12
    else if size == 1
    then some 21
    else if size == 2
    then some 30
    else none

unfoldable pub get_cap_ptr : Capability → ℕ
unfolding zombie_ptr
get_cap_ptr (untyped _ _ _ ptr) = ptr
get_cap_ptr (endpoint _ _ _ _ _ ptr) = ptr
get_cap_ptr (notification _ _ _ ptr) = ptr
get_cap_ptr (cnode _ _ _ ptr) = ptr
get_cap_ptr (thread ptr) = ptr
get_cap_ptr (zombie id type) = zombie_ptr id type
get_cap_ptr (frame _ base _ _ _ _) = base
get_cap_ptr (page_table _ base _ _) = base
get_cap_ptr (asid_pool _ pool) = pool
get_cap_ptr _ = 0

unfoldable pub get_cap_size_bits : Capability → ℕ
get_cap_size_bits (untyped _ _ block_size _) = block_size
get_cap_size_bits (endpoint _ _ _ _ _ _) = 4
get_cap_size_bits (notification _ _ _ _) = 4
get_cap_size_bits (cnode radix _ _ _) = radix + 5
get_cap_size_bits (page_table _ _ _ _) = 12
get_cap_size_bits (reply _ _ _) = 4
get_cap_size_bits _ = 0

unfoldable pub get_cap_is_physical : Capability → Bool
get_cap_is_physical (untyped _ _ _ _) = true
get_cap_is_physical (endpoint _ _ _ _ _ _) = true
get_cap_is_physical (notification _ _ _ _) = true
get_cap_is_physical (cnode _ _ _ _) = true
get_cap_is_physical (frame _ _ _ _ _ _) = true
get_cap_is_physical (asid_pool _ _) = true
get_cap_is_physical (page_table _ _ _ _) = true
get_cap_is_physical (zombie _ _) = true
get_cap_is_physical (thread _) = true
get_cap_is_physical _ = false

unfoldable pub is_arch_cap : Capability → Bool
is_arch_cap c = not (get_cap_type c % 2 == 0)

unfoldable pub same_region_as : Capability → Capability → Bool
unfolding get_cap_ptr get_cap_size_bits get_cap_is_physical
same_region_as (untyped _ _ size base) c =
    get_cap_is_physical c
    && (let top = wrapping_add base (mask size) in
        let c_base = get_cap_ptr c in
        let c_top = wrapping_add c_base (mask (get_cap_size_bits c)) in
        leb base c_base && leb c_top top && leb c_base c_top)
same_region_as (endpoint _ _ _ _ _ ptr) (endpoint _ _ _ _ _ ptr') = ptr == ptr'
same_region_as (notification _ _ _ ptr) (notification _ _ _ ptr') = ptr == ptr'
same_region_as (page_table _ base _ _) (page_table _ base' _ _) = base == base'
same_region_as (asid_pool _ pool) (asid_pool _ pool') = pool == pool'
same_region_as (thread ptr) (thread ptr') = ptr == ptr'
same_region_as asid_control asid_control = true
same_region_as domain domain = true
same_region_as (cnode radix _ _ ptr) (cnode radix' _ _ ptr') = (ptr == ptr') && (radix == radix')
same_region_as irq_control irq_control = true
same_region_as irq_control (irq_handler _) = true
same_region_as (irq_handler irq) (irq_handler irq') = irq == irq'
same_region_as _ _ = false

-- `arch_same_object_as` on two capabilities of the architecture, `arch_same_region_as` within; on
-- others `arch_same_region_as` panics, and `same_object_as` does not call it.
unfoldable pub arch_same_object_as : Capability → Capability → Bool
arch_same_object_as (frame _ base size _ device _) (frame _ base' size' _ device' _) =
    (base == base') && (size == size') && (if device == 0 then device' == 0 else not (device' == 0))
arch_same_object_as (page_table _ base _ _) (page_table _ base' _ _) = base == base'
arch_same_object_as asid_control asid_control = true
arch_same_object_as (asid_pool _ pool) (asid_pool _ pool') = pool == pool'
arch_same_object_as _ _ = false

is_untyped : Capability → Bool
is_untyped (untyped _ _ _ _) = true
is_untyped _ = false

is_irq_control : Capability → Bool
is_irq_control irq_control = true
is_irq_control _ = false

is_irq_handler : Capability → Bool
is_irq_handler (irq_handler _) = true
is_irq_handler _ = false

unfoldable pub same_object_as : Capability → Capability → Bool
unfolding is_untyped is_irq_control is_irq_handler is_arch_cap arch_same_object_as same_region_as
same_object_as c d =
    if is_untyped c
    then false
    else if is_irq_control c && is_irq_handler d
    then false
    else if is_arch_cap c && is_arch_cap d
    then arch_same_object_as c d
    else same_region_as c d

-- `is_cap_revocable`; `none` is a failed assertion.
unfoldable pub is_cap_revocable : Capability → Capability → Option Bool
is_cap_revocable (endpoint badge _ _ _ _ _) (endpoint badge' _ _ _ _ _) =
    some (not (badge == badge'))
is_cap_revocable (endpoint _ _ _ _ _ _) _ = none
is_cap_revocable (notification badge _ _ _) (notification badge' _ _ _) =
    some (not (badge == badge'))
is_cap_revocable (notification _ _ _ _) _ = none
is_cap_revocable (irq_handler _) irq_control = some true
is_cap_revocable (irq_handler _) _ = some false
is_cap_revocable (untyped _ _ _ _) _ = some true
is_cap_revocable _ _ = some false

-- `update_data`: the capability that a mint or mutate makes.
unfoldable pub update_data : Capability → Bool → ℕ → Capability
update_data (endpoint badge r g s v ptr) preserve data_word =
    if not preserve && (badge == 0) then endpoint data_word r g s v ptr else null
update_data (notification badge v s ptr) preserve data_word =
    if not preserve && (badge == 0) then notification data_word v s ptr else null
update_data (cnode radix guard_size guard ptr) preserve data_word =
    let size = data_word % 2 ^ 6 in
    if ltb word_bits (size + radix)
    then null
    else cnode radix size (data_word / 2 ^ 6 % 2 ^ size) ptr
update_data c preserve data_word = c
