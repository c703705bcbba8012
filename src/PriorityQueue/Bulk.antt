-- ===== src/PriorityQueue/Bulk.antt =====
-- The methods of src/collections/priority_queue.c that work on all elements at once.
pub mod Fill
pub mod Wipe
pub mod Search
use libcdsa.Core.Cells.{cells_from, empty_out}
use libcdsa.Core.Comparison.{is_zero}
use libcdsa.Core.Growing.{Scaling}
use libcdsa.Base.{
  ℕ, zero, suc, ◌+◌, Bool, true, false, List, [], ◌∷◌, ◌++◌, map, ◌==◌, if◌then◌else◌, get_or, set,
}
use libcdsa.Base.Int.{ℤ, pos, negsuc}
use libcdsa.Core.{
  Outcome, ok, err, memory_allocation, Pointer, Event, destructed, freed, struct_block,
  elements_block, Alloc, Collection, then_outcome, map_outcome, bump,
}
use libcdsa.PriorityQueue.{PriorityQueue, ensure_capacity, enqueue}

module _ {ℓ} {A : Type ℓ} ⦃pointer : Pointer A⦄ where
  module _ (compare : A → A → ℤ) where
    unfoldable pub contains_loop : ℕ → ℕ → List A → A → Bool
    contains_loop zero i elements element = false
    contains_loop (suc n) i elements element =
        elim (is_zero (compare (get_or elements i pointer.null) element)) [
          | true ↦ true
          | false ↦ contains_loop n (i + 1) elements element
        ]

    unfoldable pub equals_loop : ℕ → ℕ → List A → List A → Bool
    equals_loop zero i elements others = true
    equals_loop (suc n) i elements others =
        elim (is_zero (compare (get_or elements i pointer.null) (get_or others i pointer.null))) [
          | true ↦ equals_loop n (i + 1) elements others
          | false ↦ false
        ]

module _ {ℓ} {A : Type ℓ} {Factor : Type 0} ⦃pointer : Pointer A⦄ ⦃scaling : Scaling Factor⦄ where
  unfoldable pub clear : PriorityQueue Factor A → PriorityQueue Factor A × List (Event A)
  clear queue =
      let (elements, events) = empty_out queue.destruct queue.elements 0 queue.size in
      (
        record queue {
          elements = elements;
          size = 0;
          modification_count = bump queue.modification_count;
        },
        events,
      )

  module _ (compare : A → A → ℤ) where
    -- The `while (iterator_has_next(iterator))` loop. A call that fails leaves its error and the
    -- loop goes on.
    unfoldable pub enqueue_each :
        Alloc A
        → PriorityQueue Factor A
        → List A
        → PriorityQueue Factor A × Outcome (Unit {0}) × List (Event A)
    enqueue_each alloc queue [] = (queue, ok tt, [])
    enqueue_each alloc queue (x ∷ xs) =
        let (one, r, events) = enqueue compare alloc queue x in
        let (all, rs, more) = enqueue_each alloc one xs in (all, then_outcome r rs, events ++ more)

    -- `priority_queue_enqueue_all` on the size and the iterator of the collection.
    unfoldable pub fill :
        Alloc A
        → PriorityQueue Factor A
        → ℕ
        → Outcome (List A)
        → PriorityQueue Factor A × Outcome (Unit {0}) × List (Event A)
    fill alloc queue collection_size (err e) = (queue, err e, [])
    fill alloc queue collection_size (ok xs) =
        let (fits, roomy, events) = ensure_capacity alloc queue (queue.size + collection_size) in
        let (all, r, more) = enqueue_each alloc roomy xs in
        if fits then (all, r, events ++ more) else (queue, err memory_allocation, events)

    unfoldable pub enqueue_all :
        Alloc A
        → PriorityQueue Factor A
        → Collection A
        → PriorityQueue Factor A × Outcome (Unit {0}) × List (Event A)
    enqueue_all alloc queue collection = fill alloc queue collection.size collection.iterator

    unfoldable pub contains : PriorityQueue Factor A → A → Bool
    unfolding contains_loop
    contains queue element = contains_loop compare queue.size 0 queue.elements element

    contains_each : PriorityQueue Factor A → List A → Bool
    contains_each queue [] = true
    contains_each queue (x ∷ xs) = elim (contains queue x) [
      | true ↦ contains_each queue xs
      | false ↦ false
    ]

    unfoldable pub contains_all : PriorityQueue Factor A → Collection A → Outcome Bool
    unfolding contains_each
    contains_all queue collection = map_outcome (contains_each queue) collection.iterator

    -- `same_pointer` is the test `priority_queue == other_priority_queue`.
    unfoldable pub queue_equals : Bool → PriorityQueue Factor A → PriorityQueue Factor A → Bool
    unfolding equals_loop
    queue_equals same_pointer queue other =
        if same_pointer
        then true
        else if queue.size == other.size
        then equals_loop compare queue.size 0 queue.elements other.elements
        else false
