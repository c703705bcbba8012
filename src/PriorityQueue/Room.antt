-- ===== src/PriorityQueue/Room.antt =====
-- `ensure_capacity` of the priority queue.
use libcdsa.Core.Growing.{IsGrowing, IsAtLimit, GrowthOf, grow_loop-GrowthOf, min_capacity, Scaling}
use libcdsa.Core.Cells.{cell}
use libcdsa.Base.{
  sym, ℕ, suc, ◌+◌, ◌≤◌, ◌<◌, ◌≡◌, ◌⊎◌, refl, ap, ◌∙◌, arith, inl, inr, Bool, true, false,
  Bool-cases, Option-cases, none, List, [], length, take, length-take, get_or-take, write_from,
  length-write_from, get_or-write_from, leb,
}
use libcdsa.Core.{
  Pointer, Alloc, IsHonest, Event, outgrown, outgrown-less, outgrown-enough, Growth, grown, refused,
  out_of_fuel,
}
use libcdsa.PriorityQueue.{PriorityQueue, reallocate, ensure_capacity}

-- The same queue with room for `capacity` elements.
pub record IsRoomier {ℓ} {Factor : Type 0} {A : Type ℓ} ⦃pointer : Pointer A⦄
    (queue : PriorityQueue Factor A) (capacity : ℕ) (roomy : PriorityQueue Factor A) : Type ℓ where
  pub storage : length roomy.elements ≡ roomy.capacity
  pub room : capacity ≤ roomy.capacity
  pub larger : queue.capacity ≤ roomy.capacity
  pub same_cells : (k : ℕ) → k < queue.size → cell roomy.elements k ≡ cell queue.elements k
  pub same_size : roomy.size ≡ queue.size
  pub same_factor : roomy.growth_factor ≡ queue.growth_factor
  pub same_destruct : roomy.destruct ≡ queue.destruct
  pub same_count : roomy.modification_count ≡ queue.modification_count

module _ {ℓ} {Factor : Type 0} {A : Type ℓ} ⦃pointer : Pointer A⦄ ⦃scaling : Scaling Factor⦄ where
  -- How `ensure_capacity` ends: with room, or, where the queue is left alone, because the guard
  -- on the capacity or the allocator refuses.
  abbrev pub Ensured :
      Alloc A → PriorityQueue Factor A → ℕ → Bool × PriorityQueue Factor A × List (Event A) → Type ℓ
  Ensured alloc queue capacity (true, roomy, events) =
      IsRoomier queue capacity roomy × (events ≡ outgrown queue.capacity capacity)
  Ensured alloc queue capacity (false, kept, events) =
      (kept ≡ queue)
      × (events ≡ [])
      × (IsAtLimit queue.growth_factor queue.capacity capacity ⊎ ((n : ℕ) × (alloc n ≡ none)))

  module _ (alloc : Alloc A) (queue : PriorityQueue Factor A) (honest : IsHonest alloc)
      (growing : IsGrowing queue.growth_factor) (large : min_capacity ≤ queue.capacity)
      (storage : length queue.elements ≡ queue.capacity)
      (size_in : queue.size ≤ queue.capacity) where
    moved-IsRoomier :
        (capacity n : ℕ) (block : List A)
        → queue.capacity < capacity
        → capacity ≤ n
        → length block ≡ n
        → IsRoomier queue capacity (record queue {
          elements = write_from block 0 (take queue.size queue.elements);
          capacity = n;
        })
    moved-IsRoomier capacity n block h enough whole =
        let old = take queue.size queue.elements in
        let size = length-take queue.size queue.elements (omega arith) in
        record {
          storage = length-write_from block 0 old ∙ whole;
          room = enough;
          larger = omega arith;
          same_cells = λ k p.
              ap (cell (write_from block 0 old)) {y = 0 + k} (omega arith)
              ∙ get_or-write_from block 0 old k pointer.null (omega arith) (omega arith)
              ∙ get_or-take queue.size queue.elements k pointer.null p;
          same_size = refl;
          same_factor = refl;
          same_destruct = refl;
          same_count = refl;
        }

    reallocate-Ensured :
        (capacity : ℕ) (growth : Growth)
        → queue.capacity < capacity
        → GrowthOf queue.growth_factor queue.capacity capacity growth
        → Ensured alloc queue capacity (reallocate alloc queue growth)
    unfolding reallocate
    reallocate-Ensured capacity (grown n) h enough = elim (Option-cases (alloc n)) [
      | inl refusal ↦ rw (reallocate, refusal) (refl, refl, inr (n, refusal))
      | inr (block, granted) ↦
          rw (reallocate, granted)
            (
              moved-IsRoomier capacity n block h enough (honest n block granted),
              sym (outgrown-less queue.capacity capacity h),
            )
    ]
    reallocate-Ensured capacity refused h limit = (refl, refl, inl limit)
    reallocate-Ensured capacity out_of_fuel h g = absurd g

    -- Where a block that is handed out has the size asked for: with a growth factor that makes
    -- capacities grow, and an array of at least the least capacity with its cells in use in range,
    -- ensure_capacity of the priority queue makes room and keeps the cells in use, the size, the
    -- factor, the destructor and the modification count; it fails, leaving the queue as it was,
    -- only where growth by the factor from the capacity comes to one below what is needed that the
    -- guard does not let grow, or the allocator refuses.
    pub ensure_capacity_refines :
        (capacity : ℕ) → Ensured alloc queue capacity (ensure_capacity alloc queue capacity)
    unfolding ensure_capacity
    ensure_capacity_refines capacity = elim (Bool-cases (leb capacity queue.capacity)) [
      | inl enough ↦
          rw (ensure_capacity, enough)
            (
              record {
                storage = storage;
                room = ground arith;
                larger = omega arith;
                same_cells = λ k p. refl;
                same_size = refl;
                same_factor = refl;
                same_destruct = refl;
                same_count = refl;
              },
              sym (outgrown-enough queue.capacity capacity (ground arith)),
            )
      | inr short ↦
          rw (ensure_capacity, short)
            (reallocate-Ensured capacity _ (ground arith) (
              grow_loop-GrowthOf (suc capacity) queue.growth_factor queue.capacity capacity growing
                large (omega arith) (omega arith)))
    ]
