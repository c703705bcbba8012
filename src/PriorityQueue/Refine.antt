-- ===== src/PriorityQueue/Refine.antt =====
-- What `priority_queue_enqueue`, `priority_queue_dequeue` and `priority_queue_peek` are to do with the
-- multiset of the elements: two queues hold the same elements where every test passes as often.
use libcdsa.Core.Growing.{min_capacity, Scaling, IsAtLimit}
use libcdsa.Core.Cells.{cell, one_if, occurrences}
use libcdsa.Core.Comparison.{Below}
use libcdsa.Base.{ℕ, ◌+◌, ◌≤◌, ◌<◌, ◌≡◌, ◌⊎◌, Bool, true, none, List, [], ◌∷◌, length}
use libcdsa.Base.Int.{ℤ}
use libcdsa.Core.{
  outgrown, Pointer, Alloc, Event, Outcome, ok, err, memory_allocation, no_such_element, destructed,
  bump,
}
use libcdsa.PriorityQueue.{PriorityQueue}
use libcdsa.PriorityQueue.Order.{IsHeap}

-- The representation invariant: the array has `capacity` cells, and those in use form a heap.
pub record IsValid {ℓ} {Factor : Type 0} {A : Type ℓ} ⦃pointer : Pointer A⦄ (compare : A → A → ℤ)
    (queue : PriorityQueue Factor A) : Type ℓ where
  pub storage : length queue.elements ≡ queue.capacity
  pub large : min_capacity ≤ queue.capacity
  pub size_in : queue.size ≤ queue.capacity
  pub heap : IsHeap compare queue.elements queue.size

module _ {ℓ} {Factor : Type 0} {A : Type ℓ} ⦃pointer : Pointer A⦄ where
  -- How many elements pass a test.
  abbrev pub held : PriorityQueue Factor A → (A → Bool) → ℕ
  held queue test = occurrences test queue.elements queue.size

  -- `after` is a valid queue that keeps the factor and the destructor, and has counted one
  -- modification.
  pub record Became (compare : A → A → ℤ) (queue after : PriorityQueue Factor A) : Type ℓ where
    pub valid : IsValid compare after
    pub same_factor : after.growth_factor ≡ queue.growth_factor
    pub same_destruct : after.destruct ≡ queue.destruct
    pub counted : after.modification_count ≡ bump queue.modification_count

  -- How `priority_queue_enqueue` ends.
  abbrev pub Enqueued :
      ⦃scaling : Scaling Factor⦄
      → (A → A → ℤ)
      → Alloc A
      → PriorityQueue Factor A
      → A
      → PriorityQueue Factor A × Outcome (Unit {0}) × List (Event A)
      → Type ℓ
  Enqueued compare alloc queue x (after, ok _, events) =
      Became compare queue after
      × (after.size ≡ queue.size + 1)
      × ((test : A → Bool) → held after test ≡ held queue test + one_if (test x))
      × (events ≡ outgrown queue.capacity (queue.size + 1))
  Enqueued compare alloc queue x (after, err e, events) =
      (e ≡ memory_allocation)
      × (after ≡ queue)
      × (events ≡ [])
      × (IsAtLimit queue.growth_factor queue.capacity (queue.size + 1)
          ⊎ ((n : ℕ) × (alloc n ≡ none)))

  -- How `priority_queue_dequeue` ends.
  abbrev pub Dequeued :
      (A → A → ℤ)
      → PriorityQueue Factor A
      → PriorityQueue Factor A × Outcome A × List (Event A)
      → Type ℓ
  Dequeued compare queue (after, ok x, events) =
      Became compare queue after
      × (queue.size ≡ after.size + 1)
      × ((test : A → Bool) → held queue test ≡ held after test + one_if (test x))
      × ((k : ℕ) → k < queue.size → Below compare (cell queue.elements k) x)
      × (events ≡ destructed queue.destruct x ∷ [])
  Dequeued compare queue (after, err e, events) =
      (queue.size ≡ 0) × (e ≡ no_such_element) × (after ≡ queue) × (events ≡ [])

  -- How `priority_queue_peek` answers.
  abbrev pub Peeked : (A → A → ℤ) → PriorityQueue Factor A → Outcome A → Type ℓ
  Peeked compare queue (ok x) =
      ((test : A → Bool) → test x ≡ true → 0 < held queue test)
      × ((k : ℕ) → k < queue.size → Below compare (cell queue.elements k) x)
  Peeked compare queue (err e) = ((test : A → Bool) → held queue test ≡ 0) × (e ≡ no_such_element)
