-- ===== src/Cspace/Cte.antt =====
-- The slots and the derivation list: sel4_cspace/src/cte.rs. A `&mut cte_t` is the address of its
-- slot. `post_cap_deletion` is in kernel/src/interfaces_impl/cspace.rs.
use mi_dev_integral_rel.Base.{
  ℕ, ◌+◌, ◌-◌, ◌%◌, ◌^◌, Bool, true, false, not, ◌&&◌, ◌||◌, Option, none, some, leb, ◌==◌, update,
  if◌then◌else◌,
}
use mi_dev_integral_rel.Cmd.{Cmd, Skip, panic, pure, ◌>>=◌, ◌>>◌, assert, get, modify}
use mi_dev_integral_rel.Cspace.{
  cnode, thread, Capability, null, untyped, endpoint, notification, irq_handler, zombie,
  get_cap_type, CSpace,
}
use mi_dev_integral_rel.Cspace.Cap.{
  same_region_as, same_object_as, is_cap_revocable, zombie_ptr, zombie_number,
}

-- The fields of a slot, written.
abbrev pub set_cap : ℕ → Capability → Cmd CSpace Skip
set_cap s v = modify (λ c. record c { cap = update c.cap s v })

abbrev pub set_next : ℕ → ℕ → Cmd CSpace Skip
set_next s v = modify (λ c. record c { mdb_next = update c.mdb_next s v })

abbrev pub set_prev : ℕ → ℕ → Cmd CSpace Skip
set_prev s v = modify (λ c. record c { mdb_prev = update c.mdb_prev s v })

abbrev pub set_first_badged : ℕ → ℕ → Cmd CSpace Skip
set_first_badged s v = modify (λ c. record c { mdb_first_badged = update c.mdb_first_badged s v })

-- A whole `mdb_node_t`, `mdb_node_t::new(next, revocable, first_badged, prev)`.
abbrev pub set_node : ℕ → ℕ → ℕ → ℕ → ℕ → Cmd CSpace Skip
set_node s next revocable first_badged prev = modify λ c. record c {
  mdb_next = update c.mdb_next s next;
  mdb_prev = update c.mdb_prev s prev;
  mdb_revocable = update c.mdb_revocable s revocable;
  mdb_first_badged = update c.mdb_first_badged s first_badged;
}

abbrev pub bit : Bool → ℕ
bit b = if b then 1 else 0

-- The branches of `is_mdb_parent_of` on the two capabilities; `none` is a failed assertion.
unfoldable pub parent_badge : Capability → Capability → ℕ → Option Bool
parent_badge (endpoint badge _ _ _ _ _) (endpoint badge' _ _ _ _ _) first_badged =
    some (if badge == 0 then true else (badge == badge') && (first_badged == 0))
parent_badge (endpoint _ _ _ _ _ _) _ first_badged = none
parent_badge (notification badge _ _ _) (notification badge' _ _ _) first_badged =
    some (if badge == 0 then true else (badge == badge') && (first_badged == 0))
parent_badge (notification _ _ _ _) _ first_badged = none
parent_badge _ _ first_badged = some true

abbrev pub or_panic : {A : Type 0} → Option A → Cmd CSpace A
or_panic none = λ c. panic
or_panic (some a) = pure a

unfoldable pub is_mdb_parent_of : ℕ → ℕ → Cmd CSpace Bool
unfolding parent_badge
is_mdb_parent_of self next = do
  c ← get
  if c.mdb_revocable self == 0
      then pure false
      else if not (same_region_as (c.cap self) (c.cap next))
      then pure false
      else or_panic (parent_badge (c.cap self) (c.cap next) (c.mdb_first_badged next))

-- Whether the slot has a child: EXCEPTION_SYSCALL_ERROR if it has.
unfoldable pub has_children : ℕ → Cmd CSpace Bool
unfolding is_mdb_parent_of
has_children self = do
  c ← get
  if c.mdb_next self == 0 then pure false else is_mdb_parent_of self (c.mdb_next self)

unfoldable pub is_final_cap : ℕ → Cmd CSpace Bool
is_final_cap self = do
  c ← get
  let prev = c.mdb_prev self
  let next = c.mdb_next self
  let prev_is_same = if prev == 0 then false else same_object_as (c.cap prev) (c.cap self)
  pure (
      if prev_is_same
      then false
      else if next == 0
      then true
      else not (same_object_as (c.cap self) (c.cap next)))

-- `maxIRQ` of kernel/src/config.rs.
abbrev pub max_irq : ℕ
max_irq = 1

-- `setIRQState` to IRQInactive, less the mask of the interrupt in the hart's register.
abbrev deleted_irq_handler : ℕ → Cmd CSpace Skip
deleted_irq_handler irq = do
  assert (leb irq max_irq)
  modify (λ c. record c { irq_state = update c.irq_state irq 0 })

-- Of the bits of an interrupt handler; read at such capabilities only.
abbrev pub get_irq_handler : Capability → ℕ
get_irq_handler (irq_handler irq) = irq
get_irq_handler other = 0

unfoldable pub post_cap_deletion : Capability → Cmd CSpace Skip
post_cap_deletion cap =
    if get_cap_type cap == 16 then deleted_irq_handler (get_irq_handler cap) else pure tt

unfoldable pub set_empty : ℕ → Capability → Cmd CSpace Skip
set_empty self cleanup_info = do
  c ← get
  if get_cap_type (c.cap self) == 0 then pure tt else (do
    let prev = c.mdb_prev self
    let next = c.mdb_next self
    (if prev == 0 then pure tt else set_next prev next)
    (if next == 0 then pure tt else (do
      set_prev next prev
      d ← get
      set_first_badged next
          (bit (not (d.mdb_first_badged next == 0) || not (c.mdb_first_badged self == 0)))))
    set_cap self null
    set_node self 0 0 0 0
    post_cap_deletion cleanup_info)

-- `set_untyped_free_index`, to MAX_FREE_INDEX of a size, in the 39 bits of its field.
unfoldable pub full : ℕ → Capability → Capability
full size (untyped _ device size' ptr) =
    untyped (2 ^ ((size + 2 ^ 64 - 4) % 2 ^ 6) % 2 ^ 39) device size' ptr
full size other = other

-- Of the bits of an untyped capability; read at untyped capabilities only.
abbrev pub get_untyped_ptr : Capability → ℕ
get_untyped_ptr (untyped _ _ _ ptr) = ptr
get_untyped_ptr other = 0

abbrev pub get_untyped_block_size : Capability → ℕ
get_untyped_block_size (untyped _ _ size _) = size
get_untyped_block_size other = 0

-- `setUntypedCapAsFull`
unfoldable pub set_untyped_cap_as_full : Capability → Capability → ℕ → Cmd CSpace Skip
set_untyped_cap_as_full src_cap new_cap slot =
    if (get_cap_type src_cap == 2) && (get_cap_type new_cap == 2)
    then (do
      c ← get
      assert (get_cap_type (c.cap slot) == 2)
      if (get_untyped_ptr src_cap == get_untyped_ptr new_cap)
            && (get_untyped_block_size src_cap == get_untyped_block_size new_cap)
          then set_cap slot (full (get_untyped_block_size src_cap) (c.cap slot))
          else pure tt)
    else pure tt

unfoldable pub cte_insert : Capability → ℕ → ℕ → Cmd CSpace Skip
cte_insert new_cap src dest = do
  c ← get
  let src_cap = c.cap src
  revocable ← or_panic (is_cap_revocable new_cap src_cap)
  let next = c.mdb_next src
  assert (get_cap_type (c.cap dest) == 0)
  assert ((c.mdb_next dest == 0) && (c.mdb_prev dest == 0))
  set_untyped_cap_as_full src_cap new_cap src
  set_cap dest new_cap
  set_node dest next (bit revocable) (bit revocable) src
  set_next src dest
  if next == 0 then pure tt else set_prev next dest

unfoldable pub insert_new_cap : ℕ → ℕ → Capability → Cmd CSpace Skip
insert_new_cap parent slot cap = do
  c ← get
  let next = c.mdb_next parent
  set_cap slot cap
  set_node slot next 1 1 parent
  (if next == 0 then pure tt else set_prev next slot)
  set_next parent slot

unfoldable pub cte_move : Capability → ℕ → ℕ → Cmd CSpace Skip
cte_move new_cap src dest = do
  c ← get
  assert (get_cap_type (c.cap dest) == 0)
  assert ((c.mdb_next dest == 0) && (c.mdb_prev dest == 0))
  let prev = c.mdb_prev src
  let next = c.mdb_next src
  set_cap dest new_cap
  set_cap src null
  set_node dest next (c.mdb_revocable src) (c.mdb_first_badged src) prev
  set_node src 0 0 0 0
  (if prev == 0 then pure tt else set_next prev dest)
  if next == 0 then pure tt else set_prev next dest

-- Both nodes are read before the first write.
unfoldable pub cte_swap : Capability → ℕ → Capability → ℕ → Cmd CSpace Skip
cte_swap cap1 slot1 cap2 slot2 = do
  c ← get
  let prev1 = c.mdb_prev slot1
  let next1 = c.mdb_next slot1
  let prev2 = c.mdb_prev slot2
  let next2 = c.mdb_next slot2
  (if prev1 == 0 then pure tt else set_next prev1 slot2)
  (if next1 == 0 then pure tt else set_prev next1 slot2)
  set_cap slot1 cap2
  set_cap slot2 cap1
  set_node slot1 next2 (c.mdb_revocable slot2) (c.mdb_first_badged slot2) prev2
  set_node slot2 next1 (c.mdb_revocable slot1) (c.mdb_first_badged slot1) prev1
  (if prev2 == 0 then pure tt else set_next prev2 slot1)
  if next2 == 0 then pure tt else set_prev next2 slot1

-- `cap_removable`; `none` is its panic.
unfoldable pub cap_removable : Capability → ℕ → Option Bool
cap_removable null slot = some true
cap_removable (zombie id type) slot =
    let n = zombie_number id type in some ((n == 0) || ((n == 1) && (slot == zombie_ptr id type)))
cap_removable _ slot = none

-- `capCyclicZombie`
unfoldable pub cap_cyclic_zombie : Capability → ℕ → Bool
cap_cyclic_zombie (zombie id type) slot = zombie_ptr id type == slot
cap_cyclic_zombie _ slot = false

abbrev is_long_running : Capability → Bool
is_long_running (thread _) = true
is_long_running (zombie _ _) = true
is_long_running (cnode _ _ _ _) = true
is_long_running _ = false

unfoldable pub is_long_running_delete : ℕ → Cmd CSpace Bool
unfolding is_final_cap
is_long_running_delete self = do
  c ← get
  if get_cap_type (c.cap self) == 0 then pure false else (do
    final ← is_final_cap self
    pure (if not final then false else is_long_running (c.cap self)))
