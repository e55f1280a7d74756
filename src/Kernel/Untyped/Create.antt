-- ===== src/Kernel/Untyped/Create.antt =====
-- What `create_new_objects` leaves in the slots of its destination and in the derivation list.
use mi_dev_integral_rel.Base.{
  ℕ, zero, suc, ◌+◌, ◌*◌, ◌^◌, ◌≤◌, ◌<◌, ◌≡◌, ◌≢◌, ◌∙◌, refl, sym, ap, false, arith, ◌==◌,
  Bool-cases, inl, inr, List, ◌∷◌, ◌++◌, ◌∉◌, has-append, update, subst,
}
use mi_dev_integral_rel.Cmd.Returns.{Returns, returns, bind, mono}
use mi_dev_integral_rel.Cspace.{
  Capability, untyped, endpoint, notification, cnode, thread, frame, page_table, CSpace,
}
use mi_dev_integral_rel.Cspace.Cap.{wrapping_add}
use mi_dev_integral_rel.Cspace.Cte.{insert_new_cap}
use mi_dev_integral_rel.Cspace.Mdb.{IsMdb}
use mi_dev_integral_rel.Cspace.Mdb.Insert.{insert_new_cap-links}
use mi_dev_integral_rel.Kernel.{Kernel, of_slots-Returns}
use mi_dev_integral_rel.Kernel.Objects.{
  ObjectType, untyped_object, tcb_object, endpoint_object, notification_object, cap_table_object,
  giga_page_object, normal_page_object, mega_page_object, page_table_object, get_frame_type,
}
use mi_dev_integral_rel.Kernel.Untyped.{
  create_object, create_new_objects, object_at, offset_slot, tcb_offset, arch_create_object,
}

-- The capability of a new object.
unfoldable pub object_cap : ObjectType → ℕ → ℕ → ℕ → Capability
object_cap untyped_object a user_size device_mem = untyped 0 device_mem user_size a
object_cap tcb_object a user_size device_mem = thread (wrapping_add a tcb_offset)
object_cap endpoint_object a user_size device_mem = endpoint 0 1 1 1 1 a
object_cap notification_object a user_size device_mem = notification 0 1 1 a
object_cap cap_table_object a user_size device_mem = cnode user_size 0 0 a
object_cap giga_page_object a user_size device_mem = frame 0 a 2 3 device_mem 0
object_cap normal_page_object a user_size device_mem = frame 0 a 0 3 device_mem 0
object_cap mega_page_object a user_size device_mem = frame 0 a 1 3 device_mem 0
object_cap page_table_object a user_size device_mem = page_table 0 a 0 0

created :
    (obj_type : ObjectType) (a user_size device_mem : ℕ) (k : Kernel)
    → wrapping_add a tcb_offset ≢ 0
    → Returns
        (λ cap k'.
          (cap ≡ object_cap obj_type a user_size device_mem)
          × (k'.slots ≡ k.slots)
          × (k'.globals ≡ k.globals))
        (create_object obj_type a user_size device_mem k)
unfolding create_object object_cap arch_create_object get_frame_type
created tcb_object a user_size device_mem k ne =
    let e : (wrapping_add a tcb_offset == 0) ≡ false = ground (arith, ne) in
    rw e (returns (refl, refl, refl))
created untyped_object a user_size device_mem k ne = returns (refl, refl, refl)
created endpoint_object a user_size device_mem k ne = returns (refl, refl, refl)
created notification_object a user_size device_mem k ne = returns (refl, refl, refl)
created cap_table_object a user_size device_mem k ne = returns (refl, refl, refl)
created giga_page_object a user_size device_mem k ne = returns (refl, refl, refl)
created normal_page_object a user_size device_mem k ne = returns (refl, refl, refl)
created mega_page_object a user_size device_mem k ne = returns (refl, refl, refl)
created page_table_object a user_size device_mem k ne = returns (refl, refl, refl)

still_out :
    (x a : ℕ) (xs : List ℕ) (parent : ℕ) (ys : List ℕ)
    → x ∉ xs ++ parent ∷ ys
    → x ≢ a
    → x ∉ xs ++ parent ∷ a ∷ ys
still_out x a xs parent ys out ne =
    ground (arith, has-append x xs (parent ∷ a ∷ ys), has-append x xs (parent ∷ ys))

-- A store after a point update, at the point and elsewhere.
module _ (f g : ℕ → Capability) (a : ℕ) (v : Capability) (e : g ≡ update f a v) where
  update-at : g a ≡ v
  update-at = ap (λ (t : ℕ → Capability). t a) e ∙ ground arith

  update-other : (p : ℕ) → p ≢ a → g p ≡ f p
  update-other p ne = ap (λ (t : ℕ → Capability). t p) e ∙ ground arith

-- The slots of the objects from `i` on, the last first, before `ys`.
unfoldable pub behind : ℕ → ℕ → ℕ → ℕ → List ℕ → List ℕ
behind zero i dest_cnode dest_offset ys = ys
behind (suc n) i dest_cnode dest_offset ys =
    behind n (suc i) dest_cnode dest_offset (offset_slot dest_cnode (dest_offset + i) ∷ ys)

module _ (obj_type : ObjectType)
    (parent dest_cnode dest_offset region_base user_size device_mem : ℕ) (h : ℕ) (xs : List ℕ)
    (present : 0 < dest_cnode) where
  slot : ℕ → ℕ
  slot i = offset_slot dest_cnode (dest_offset + i)

  -- The capabilities after objects `i` to `i + n` are made, and the list with their slots.
  pub Filled : ℕ → ℕ → List ℕ → Kernel → Kernel → Type 0
  Filled n i ys k k' =
      ((l : ℕ) × IsMdb k'.slots h (xs ++ parent ∷ behind n i dest_cnode dest_offset ys) l)
      × ((j : ℕ)
          → i ≤ j
          → j < i + n
          → k'.slots.cap (offset_slot dest_cnode (dest_offset + j))
            ≡ object_cap obj_type (object_at obj_type user_size region_base j) user_size device_mem)
      × ((p : ℕ)
          → ((j : ℕ) → i ≤ j → j < i + n → p ≢ offset_slot dest_cnode (dest_offset + j))
          → k'.slots.cap p ≡ k.slots.cap p)
      × (k'.globals ≡ k.globals)

  slot-same :
      (i : ℕ)
      → dest_cnode + 32 * (dest_offset + i) < 2 ^ 64
      → slot i ≡ dest_cnode + 32 * (dest_offset + i)
  unfolding slot offset_slot
  slot-same i fits = omega (arith, fits)

  slot-apart : (i j : ℕ) → i < j → dest_cnode + 32 * (dest_offset + j) < 2 ^ 64 → slot j ≢ slot i
  slot-apart i j lt fits = omega (arith, slot-same i (omega (arith, fits)), slot-same j fits)

  -- The capabilities, where object `i` is made before the others.
  module _ (n i : ℕ) (fits : dest_cnode + 32 * (dest_offset + (i + suc n)) < 2 ^ 64)
      (f f2 f' : ℕ → Capability)
      (first : f2
        ≡ update f
            (slot i)
            (object_cap obj_type (object_at obj_type user_size region_base i) user_size device_mem))
      (rest : (j : ℕ)
        → suc i ≤ j
        → j < suc i + n
        → f' (slot j)
          ≡ object_cap obj_type (object_at obj_type user_size region_base j) user_size device_mem)
      (others : (p : ℕ) → ((j : ℕ) → suc i ≤ j → j < suc i + n → p ≢ slot j) → f' p ≡ f2 p) where
    filled_first :
        f' (slot i)
        ≡ object_cap obj_type (object_at obj_type user_size region_base i) user_size device_mem
    filled_first =
        others (slot i) (λ j le lt same. slot-apart i j le (omega (arith, fits)) (sym same))
        ∙ update-at f f2 (slot i) _ first

    filled :
        (j : ℕ)
        → i ≤ j
        → j < i + suc n
        → f' (slot j)
          ≡ object_cap obj_type (object_at obj_type user_size region_base j) user_size device_mem
    filled j le lt = elim (Bool-cases (j == i)) [
      | inl e ↦
          let same : i ≡ j = ground (arith, e) in
          subst
            (λ (m : ℕ).
              f' (slot m)
              ≡ object_cap obj_type (object_at obj_type user_size region_base m) user_size
                  device_mem)
            same filled_first
      | inr e ↦ let ne : j ≢ i = ground (arith, e) in rest j (omega (arith, ne)) (omega arith)
    ]

    untouched : (p : ℕ) → ((j : ℕ) → i ≤ j → j < i + suc n → p ≢ slot j) → f' p ≡ f p
    untouched p ne =
        others p (λ j le lt. ne j (omega arith) (omega arith))
        ∙ update-other f f2 (slot i) _ first p (ne i (omega arith) (omega arith))

  -- Making `n` objects from object `i` on returns, where the slots of the destination do not wrap, are not
  -- in the derivation list and no thread would stand at address 0: the slots follow the parent in the
  -- list, the last object's first, each holds the capability of its object, and no other slot's
  -- capability and none of the globals changes.
  pub create_new_objects-Filled :
      (n i : ℕ) (ys : List ℕ) (l : ℕ) (k : Kernel)
      → IsMdb k.slots h (xs ++ parent ∷ ys) l
      → dest_cnode + 32 * (dest_offset + (i + n)) < 2 ^ 64
      → ((j : ℕ) → i ≤ j → j < i + n → offset_slot dest_cnode (dest_offset + j) ∉ xs ++ parent ∷ ys)
      → ((j : ℕ)
          → i ≤ j
          → j < i + n
          → wrapping_add (object_at obj_type user_size region_base j) tcb_offset ≢ 0)
      → Returns
          (λ _ k'. Filled n i ys k k')
          (create_new_objects n i obj_type parent dest_cnode dest_offset region_base user_size
            device_mem k)
  unfolding create_new_objects Filled behind slot
  create_new_objects-Filled zero i ys l k is fits out room =
      returns ((l, is), (λ j le lt. absurd (omega arith)), (λ p ne. refl), refl)
  create_new_objects-Filled (suc n) i ys l k is fits out room =
      bind
        (created obj_type (object_at obj_type user_size region_base i) user_size device_mem k
          (room i (omega arith) (omega arith)))
        λ cap k1 made.
          let at : ℕ = offset_slot dest_cnode (dest_offset + i) in
          let place : slot i ≡ dest_cnode + 32 * (dest_offset + i) =
            slot-same i (omega (arith, fits)) in
          let ne : (at == 0) ≡ false = ground (arith, place) in
          let is' : IsMdb k1.slots h (xs ++ parent ∷ ys) l =
            subst (λ (c : CSpace). IsMdb c h (xs ++ parent ∷ ys) l) (sym made.1) is in
          rw ne (
            bind
              (of_slots-Returns k1 (insert_new_cap parent at cap k1.slots) (
                insert_new_cap-links k1.slots h parent xs ys l at cap is' (omega (arith, place))
                  (out i (omega arith) (omega arith))))
              λ _ k2 put.
                mono
                  (create_new_objects-Filled n (suc i) (at ∷ ys) _ k2 put.0.0 (omega (arith, fits))
                    (λ j le lt.
                      still_out (slot j) at xs parent ys (out j (omega arith) (omega arith))
                        (slot-apart i j le (omega (arith, fits))))
                    (λ j le lt. room j (omega arith) (omega arith)))
                  λ _ k' done.
                    let first : k2.slots.cap
                        ≡ update k.slots.cap at (
                            object_cap obj_type (object_at obj_type user_size region_base i)
                              user_size device_mem) =
                      put.0.1
                      ∙ ap (λ (c : CSpace). update c.cap at cap) made.1
                      ∙ ap (λ (v : Capability). update k.slots.cap at v) made.0 in
                    (
                      done.0,
                      filled n i fits k.slots.cap k2.slots.cap k'.slots.cap first done.1 done.2,
                      untouched n i fits k.slots.cap k2.slots.cap k'.slots.cap first done.1 done.2,
                      done.3 ∙ put.1 ∙ made.2,
                    ))
