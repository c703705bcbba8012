-- ===== src/PriorityQueue.antt =====
-- src/collections/priority_queue.c: a binary heap in an array, the greatest element at index 0.
-- The `float` growth factor and its arithmetic are parameters (`Scaling`), and `stray` is what the
-- C code reads past the end of the array.
pub mod Room
pub mod Order
pub mod Up
pub mod Choice
pub mod Down
pub mod Refine
pub mod Enqueue
pub mod Dequeue
pub mod Bulk
pub mod Create
pub mod Clone
pub mod Iteration
pub mod Access
pub mod From
mod Tests
use libcdsa.Core.Growing.{Scaling, grow_loop}
use libcdsa.Core.Comparison.{is_positive, is_negative}
use libcdsa.Core.Cells.{swap}
use libcdsa.Base.{
  ℕ, zero, suc, ◌+◌, ◌-◌, ◌*◌, ◌/◌, Bool, true, false, not, ◌&&◌, ◌||◌, Option, none, some, List,
  [], ◌∷◌, ltb, leb, ◌==◌, if◌then◌else◌, get_or, set, take, write_from,
}
use libcdsa.Base.Int.{ℤ, pos, negsuc}
use libcdsa.Core.{
  Outcome, ok, err, memory_allocation, no_such_element, Pointer, Destructor, Event, destructed,
  freed, elements_block, Alloc, bump, Growth, grown, refused, out_of_fuel,
}

pub record PriorityQueue {ℓ} (Factor : Type 0) (A : Type ℓ) : Type ℓ where
  pub elements : List A
  pub size : ℕ
  pub capacity : ℕ
  pub growth_factor : Factor
  pub destruct : Destructor
  pub modification_count : ℕ

-- `index > 0 ? (index - 1) / 2 : 0`
unfoldable pub parent_of : ℕ → ℕ
parent_of i = if ltb 0 i then (i - 1) / 2 else 0

module _ {ℓ} {A : Type ℓ} ⦃pointer : Pointer A⦄ where
  module _ (compare : A → A → ℤ) where
    -- The loop of `heapify_after_insert`, from an index.
    unfoldable pub sift_up : ℕ → List A → ℕ → List A
    sift_up zero elements index = elements
    sift_up (suc fuel) elements index =
        let parent_index = parent_of index in
        let parent = get_or elements parent_index pointer.null in
        let child = get_or elements index pointer.null in
        elim (not (index == 0) && is_positive (compare child parent)) [
          | true ↦ sift_up fuel (swap elements index parent_index) parent_index
          | false ↦ elements
        ]

    -- The index falls in every round.
    unfoldable pub heapify_after_insert : List A → ℕ → List A
    heapify_after_insert elements index = sift_up index elements index

    -- The index that `heapify_after_delete` goes to, or stays at.
    unfoldable pub greatest : A → List A → ℕ → ℕ → ℕ
    greatest stray elements size index =
        let left_index = 2 * index + 1 in
        let right_index = 2 * index + 2 in
        let left = get_or elements left_index stray in
        let right = get_or elements right_index stray in
        let current = get_or elements index pointer.null in
        let goes_left = ltb left_index size && is_negative (compare current left) in
        let best = if goes_left then left_index else index in
        let current' = if goes_left then left else current in
        if ltb right_index size && is_negative (compare current' right) then right_index else best

    unfoldable pub sift_down : ℕ → A → List A → ℕ → ℕ → List A
    sift_down zero stray elements size index = elements
    sift_down (suc fuel) stray elements size index =
        let next = greatest stray elements size index in
        elim (leb size 1 || next == index) [
          | true ↦ elements
          | false ↦ sift_down fuel stray (swap elements index next) size next
        ]

    -- The index grows in every call and stays below the size.
    unfoldable pub heapify_after_delete : A → List A → ℕ → ℕ → List A
    heapify_after_delete stray elements size index = sift_down size stray elements size index

module _ {ℓ} {A : Type ℓ} {Factor : Type 0} ⦃pointer : Pointer A⦄ ⦃scaling : Scaling Factor⦄ where
  -- `ensure_capacity` from the end of the loop on.
  unfoldable pub reallocate :
      Alloc A → PriorityQueue Factor A → Growth → Bool × PriorityQueue Factor A × List (Event A)
  reallocate alloc queue (grown new_capacity) = elim (alloc new_capacity) [
    | none ↦ (false, queue, [])
    | some elements ↦ (
      true,
      record queue {
        elements = write_from elements 0 (take queue.size queue.elements);
        capacity = new_capacity;
      },
      freed elements_block ∷ [],
    )
  ]
  reallocate alloc queue refused = (false, queue, [])
  reallocate alloc queue out_of_fuel = (false, queue, [])

  -- The capacity grows in every round of the loop.
  unfoldable pub ensure_capacity :
      Alloc A → PriorityQueue Factor A → ℕ → Bool × PriorityQueue Factor A × List (Event A)
  ensure_capacity alloc queue capacity =
      if leb capacity queue.capacity
      then (true, queue, [])
      else reallocate alloc queue
          (grow_loop (suc capacity) queue.growth_factor queue.capacity capacity)

  module _ (compare : A → A → ℤ) where
    -- `priority_queue_enqueue` with room for one more.
    unfoldable pub push : PriorityQueue Factor A → A → PriorityQueue Factor A
    push queue element = record queue {
      elements = heapify_after_insert compare (set queue.elements queue.size element) queue.size;
      size = queue.size + 1;
      modification_count = bump queue.modification_count;
    }

    unfoldable pub enqueue :
        Alloc A
        → PriorityQueue Factor A
        → A
        → PriorityQueue Factor A × Outcome (Unit {0}) × List (Event A)
    enqueue alloc queue element =
        let (fits, roomy, events) = ensure_capacity alloc queue (queue.size + 1) in
        if fits then (push roomy element, ok tt, events) else (queue, err memory_allocation, events)

    unfoldable pub peek : PriorityQueue Factor A → Outcome A
    peek queue =
        if queue.size == 0 then err no_such_element else ok (get_or queue.elements 0 pointer.null)

    unfoldable pub dequeue :
        A → PriorityQueue Factor A → PriorityQueue Factor A × Outcome A × List (Event A)
    dequeue stray queue =
        let swapped = swap queue.elements 0 (queue.size - 1) in
        let element = get_or swapped (queue.size - 1) pointer.null in
        if queue.size == 0 then (queue, err no_such_element, []) else (
          record queue {
            elements = heapify_after_delete compare stray swapped (queue.size - 1) 0;
            size = queue.size - 1;
            modification_count = bump queue.modification_count;
          },
          ok element,
          destructed queue.destruct element ∷ [],
        )
