-- ===== src/PriorityQueue/Access.antt =====
-- The getters of src/collections/priority_queue.c, the setter of its destructor, and
-- `priority_queue_to_array`.
use libcdsa.Core.Cells.{cells_from, empty_out-events}
use libcdsa.Base.{ℕ, ◌≡◌, Bool, List, map, ◌==◌, if◌then◌else◌, replicate, write_from}
use libcdsa.Base.Int.{ℤ}
use libcdsa.Core.Growing.{Scaling}
use libcdsa.Core.{Pointer, Destructor, Outcome, ok, err, memory_allocation, destructed}
use libcdsa.PriorityQueue.{PriorityQueue}
use libcdsa.PriorityQueue.Refine.{IsValid}
use libcdsa.PriorityQueue.Bulk.{clear}

module _ {ℓ} {A : Type ℓ} {Factor : Type 0} where
  unfoldable pub size_of : PriorityQueue Factor A → ℕ
  size_of queue = queue.size

  unfoldable pub capacity_of : PriorityQueue Factor A → ℕ
  capacity_of queue = queue.capacity

  unfoldable pub is_empty : PriorityQueue Factor A → Bool
  is_empty queue = queue.size == 0

  unfoldable pub destructor : PriorityQueue Factor A → Destructor
  destructor queue = queue.destruct

  unfoldable pub change_destructor : PriorityQueue Factor A → Destructor → PriorityQueue Factor A
  change_destructor queue destruct = record queue { destruct = destruct }

module _ {ℓ} {A : Type ℓ} {Factor : Type 0} ⦃pointer : Pointer A⦄ where
  -- The elements that the action of `priority_queue_for_each` is called with, in order.
  unfoldable pub for_each : PriorityQueue Factor A → List A
  for_each queue = cells_from queue.elements 0 queue.size

  -- The array of `priority_queue_to_array`, if `array_new` has memory for it.
  unfoldable pub to_array : Bool → PriorityQueue Factor A → Outcome (List A)
  to_array granted queue =
      if granted
      then ok (
          write_from (replicate queue.size pointer.null) 0 (cells_from queue.elements 0 queue.size))
      else err memory_allocation

  change_destructor-IsValid :
      {compare : A → A → ℤ} {queue : PriorityQueue Factor A} (d : Destructor)
      → IsValid compare queue
      → IsValid compare (change_destructor queue d)
  unfolding change_destructor
  change_destructor-IsValid d v = record {
    storage = v.storage;
    large = v.large;
    size_in = v.size_in;
    heap = v.heap;
  }

  -- The new destructor is the one that the elements go to.
  clear-change_destructor :
      ⦃scaling : Scaling Factor⦄ (queue : PriorityQueue Factor A) (d : Destructor)
      → (clear (change_destructor queue d)).1
        ≡ map (destructed d) (cells_from queue.elements 0 queue.size)
  unfolding clear change_destructor
  clear-change_destructor queue d = empty_out-events d queue.elements 0 queue.size
