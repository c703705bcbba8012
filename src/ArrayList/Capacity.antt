-- ===== src/ArrayList/Capacity.antt =====
-- `ensure_capacity` of the array list, and the methods that set its capacity.
use libcdsa.Core.Growing.{
  Scaling, IsGrowing, IsBounded, IsAtLimit, GrowthOf, AtMost, grow_loop-GrowthOf, grow_loop-AtMost,
}
use libcdsa.Base.{
  ℕ, suc, ◌≤◌, ◌<◌, ◌≡◌, ◌⊎◌, refl, ap, ◌∙◌, arith, inl, inr, Bool, true, false, Bool-cases, Option,
  none, some, List, [], leb,
}
use libcdsa.Base.Int.{ℤ, to_ℕ?}
use libcdsa.Core.{
  Pointer, Event, Outcome, ok, err, memory_allocation, Growth, grown, refused, out_of_fuel, bump,
}
use libcdsa.ArrayList.{ArrayList, Memory, clamped, resize, resize_grown, ensure_capacity}
use libcdsa.ArrayList.Inv.{IsValid, Changed, contents}
use libcdsa.ArrayList.Room.{
  IsMoved-contents, IsSound, Refuses, replaced_by, given_back, Moved, resize-Moved, le-clamped,
}

module _ {ℓ} {Factor : Type 0} {A : Type ℓ} ⦃pointer : Pointer A⦄ where
  unfoldable pub counted : ArrayList Factor A → ArrayList Factor A
  counted list = record list { modification_count = bump list.modification_count }

  -- `array_list_trim_to_size` from the answer of `resize` on, and likewise
  -- `array_list_ensure_capacity`.
  unfoldable pub answered :
      ArrayList Factor A
      → Bool × ArrayList Factor A × List (Event A)
      → ArrayList Factor A × Outcome (Unit {0}) × List (Event A)
  answered list (true, moved, events) = (counted moved, ok tt, events)
  answered list (false, kept, events) = (list, err memory_allocation, events)

  unfoldable pub trim_to_size :
      Memory A → ArrayList Factor A → ArrayList Factor A × Outcome (Unit {0}) × List (Event A)
  trim_to_size memory list = answered list (resize memory list list.size)

  unfoldable pub ensure_room :
      ⦃scaling : Scaling Factor⦄
      → Memory A
      → ArrayList Factor A
      → Option ℕ
      → Bool × ArrayList Factor A × List (Event A)
  ensure_room memory list none = (true, list, [])
  ensure_room memory list (some capacity) = ensure_capacity memory list capacity

  -- A negative capacity is there already.
  unfoldable pub reserve :
      ⦃scaling : Scaling Factor⦄
      → Memory A
      → ArrayList Factor A
      → ℤ
      → ArrayList Factor A × Outcome (Unit {0}) × List (Event A)
  unfolding ensure_room
  reserve memory list capacity = answered list (ensure_room memory list (to_ℕ? capacity))

-- A capacity that covers the one asked for.
abbrev pub Covers : Option ℕ → ℕ → Type 0
Covers none c = Unit {0}
Covers (some capacity) c = capacity ≤ c

module _ {Factor : Type 0} {A : Type 0} ⦃pointer : Pointer A⦄ where
  pub Moved-weaken :
      {P P' : ℕ → Type 0} {Q Q' : Type 0} {given given' : List (Event A)}
      (list : ArrayList Factor A) (outcome : Bool × ArrayList Factor A × List (Event A))
      → ((c : ℕ) → P c → P' c)
      → (Q → Q')
      → given ≡ given'
      → Moved P Q given list outcome
      → Moved P' Q' given' list outcome
  Moved-weaken list (true, moved, events) f g e (m, free) = (
    record {
      valid = m.valid;
      capacity_as = f moved.capacity m.capacity_as;
      same_cells = m.same_cells;
      same_size = m.same_size;
      same_factor = m.same_factor;
      same_destruct = m.same_destruct;
      same_count = m.same_count;
    },
    free ∙ e,
  )
  Moved-weaken list (false, kept, events) f g e (same, quiet, q) = (same, quiet, g q)

  module _ ⦃scaling : Scaling Factor⦄ (memory : Memory A) (sound : IsSound memory)
      (list : ArrayList Factor A) (valid : IsValid list) (growing : IsGrowing list.growth_factor)
      (bounded : IsBounded list.growth_factor) where
    abbrev Ensured : ℕ → Bool × ArrayList Factor A × List (Event A) → Type 0
    Ensured capacity =
        Moved (λ c. capacity ≤ c)
          (IsAtLimit list.growth_factor list.capacity capacity ⊎ Refuses memory)
          (replaced_by memory.realloc) list

    resize_grown-Ensured :
        (capacity : ℕ) (growth : Growth)
        → list.capacity < capacity
        → GrowthOf list.growth_factor list.capacity capacity growth
        → AtMost growth
        → Ensured capacity (resize_grown memory list growth)
    unfolding resize_grown
    resize_grown-Ensured capacity (grown n) h enough small =
        let fits = le-clamped capacity n enough (omega arith) in
        Moved-weaken list (resize memory list n) (λ c e. omega arith) (λ q. inr q) refl
          (resize-Moved memory sound list valid n (omega (arith, valid.size_in)))
    resize_grown-Ensured capacity refused h limit small = (refl, refl, inl limit)
    resize_grown-Ensured capacity out_of_fuel h g small = absurd g

    pub ensure_capacity-Moved :
        (capacity : ℕ)
        → Moved
            (λ c. capacity ≤ c)
            (IsAtLimit list.growth_factor list.capacity capacity ⊎ Refuses memory)
            (given_back memory list.capacity capacity)
            list
            (ensure_capacity memory list capacity)
    unfolding ensure_capacity
    ensure_capacity-Moved capacity = elim (Bool-cases (leb capacity list.capacity)) [
      | inl enough ↦
          rw (ensure_capacity, enough)
            (
              record {
                valid = valid;
                capacity_as = ground arith;
                same_cells = λ k p. refl;
                same_size = refl;
                same_factor = refl;
                same_destruct = refl;
                same_count = refl;
              },
              refl,
            )
      | inr short ↦
          rw (ensure_capacity, short)
            (resize_grown-Ensured capacity _ (ground arith)
              (grow_loop-GrowthOf (suc capacity) list.growth_factor list.capacity capacity growing
                valid.large (omega arith) (omega arith))
              (grow_loop-AtMost (suc capacity) list.growth_factor list.capacity capacity growing
                bounded valid.large valid.small))
    ]

  -- How a method that sets the capacity ends.
  abbrev pub Reserved :
      (ℕ → Type 0)
      → Type 0
      → List (Event A)
      → ArrayList Factor A
      → ArrayList Factor A × Outcome (Unit {0}) × List (Event A)
      → Type 0
  Reserved P Q given list (after, ok _, events) =
      Changed list after × (contents after ≡ contents list) × P after.capacity × (events ≡ given)
  Reserved P Q given list (after, err e, events) =
      (e ≡ memory_allocation) × (after ≡ list) × (events ≡ []) × Q

  answered-Reserved :
      (P : ℕ → Type 0) (Q : Type 0) (given : List (Event A)) (list : ArrayList Factor A)
      (outcome : Bool × ArrayList Factor A × List (Event A))
      → Moved P Q given list outcome
      → Reserved P Q given list (answered list outcome)
  unfolding answered counted
  answered-Reserved P Q given list (true, moved, events) (m, free) = (
    record {
      valid = record {
        storage = m.valid.storage;
        large = m.valid.large;
        small = m.valid.small;
        size_in = m.valid.size_in;
      };
      same_factor = m.same_factor;
      same_destruct = m.same_destruct;
      counted = ap (λ (n : ℕ). bump n) m.same_count;
    },
    IsMoved-contents m,
    m.capacity_as,
    free,
  )
  answered-Reserved P Q given list (false, kept, events) (same, quiet, q) = (refl, refl, quiet, q)

  -- The guard stops the growth to the capacity asked for; `none` is a negative one, which asks for
  -- no growth.
  abbrev pub Stopped : ⦃scaling : Scaling Factor⦄ → ArrayList Factor A → Option ℕ → Type 0
  Stopped list none = ⊥
  Stopped list (some capacity) = IsAtLimit list.growth_factor list.capacity capacity

  abbrev pub returned : Memory A → ArrayList Factor A → Option ℕ → List (Event A)
  returned memory list none = []
  returned memory list (some capacity) = given_back memory list.capacity capacity

  module _ (memory : Memory A) (sound : IsSound memory) (list : ArrayList Factor A)
      (valid : IsValid list) where
    pub trim_to_size-Reserved :
        Reserved
          (λ c. c ≡ clamped list.size)
          (Refuses memory)
          (replaced_by memory.realloc)
          list
          (trim_to_size memory list)
    unfolding trim_to_size
    trim_to_size-Reserved = answered-Reserved _ _ _ list (resize memory list list.size) (
        resize-Moved memory sound list valid list.size (
          le-clamped list.size list.size (omega arith) (omega (arith, valid.size_in, valid.small))))

    module _ ⦃scaling : Scaling Factor⦄ (growing : IsGrowing list.growth_factor)
        (bounded : IsBounded list.growth_factor) where
      ensure_room-Moved :
          (capacity : Option ℕ)
          → Moved
              (Covers capacity)
              (Stopped list capacity ⊎ Refuses memory)
              (returned memory list capacity)
              list
              (ensure_room memory list capacity)
      unfolding ensure_room
      ensure_room-Moved none = (
        record {
          valid = valid;
          capacity_as = tt;
          same_cells = λ k p. refl;
          same_size = refl;
          same_factor = refl;
          same_destruct = refl;
          same_count = refl;
        },
        refl,
      )
      ensure_room-Moved (some capacity) =
          ensure_capacity-Moved memory sound list valid growing bounded capacity

      -- Where a block that is handed out has the size asked for and memory_realloc keeps the cells
      -- that both blocks have: with a growth factor that makes capacities grow and leaves them
      -- within the greatest capacity, array_list_ensure_capacity on a valid list leaves a valid
      -- list, whose capacity thus lies between the least and the greatest and is at least the
      -- size, with the same elements in order, a capacity of at least the one asked for where that
      -- is not negative, and one modification counted; or it reports MEMORY_ALLOCATION_ERROR with
      -- the list as it was, where growth by the factor from the capacity comes to one below the
      -- capacity asked for that the guard does not let grow, or the allocator refuses.
      pub reserve-Reserved :
          (capacity : ℤ)
          → Reserved
              (Covers (to_ℕ? capacity))
              (Stopped list (to_ℕ? capacity) ⊎ Refuses memory)
              (returned memory list (to_ℕ? capacity))
              list
              (reserve memory list capacity)
      unfolding reserve
      reserve-Reserved capacity =
          answered-Reserved _ _ _ list (ensure_room memory list (to_ℕ? capacity))
            (ensure_room-Moved (to_ℕ? capacity))
