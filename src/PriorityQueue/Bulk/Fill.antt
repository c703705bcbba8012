-- ===== src/PriorityQueue/Bulk/Fill.antt =====
-- `priority_queue_enqueue_all`.
use libcdsa.Core.Growing.{Scaling, IsGrowing, IsAtLimit}
use libcdsa.Core.Cells.{one_if, occurrences, occurrences_congr}
use libcdsa.Core.Comparison.{IsComparison, Below-along}
use libcdsa.Base.{
  ◌<◌, ◌^◌, ℕ, ◌+◌, ◌≤◌, ◌≡◌, ◌⊎◌, inl, inr, refl, ap, ◌∙◌, arith, Bool, true, false, none, List,
  [], ◌∷◌, ◌++◌, length, le→leb, if◌then◌else◌,
}
use mathlib.Core.List.{append-nil}
use libcdsa.Base.Int.{ℤ}
use libcdsa.Core.{
  outgrown, Pointer, Alloc, IsHonest, Event, Outcome, ok, err, memory_allocation, Collection,
  IsFaithful,
}
use libcdsa.PriorityQueue.{PriorityQueue, ensure_capacity, push, enqueue}
use libcdsa.PriorityQueue.Order.{parent}
use libcdsa.PriorityQueue.Room.{IsRoomier, Ensured, ensure_capacity_refines}
use libcdsa.PriorityQueue.Refine.{IsValid, held}
use libcdsa.PriorityQueue.Enqueue.{held-push, push-Became}
use libcdsa.PriorityQueue.Bulk.{enqueue_each, fill, enqueue_all}

-- How many elements of a list pass a test.
abbrev pub count {ℓ} : {A : Type ℓ} → (A → Bool) → List A → ℕ
count test [] = 0
count test (x ∷ xs) = one_if (test x) + count test xs

module _ {ℓ} {Factor : Type 0} {A : Type ℓ} ⦃pointer : Pointer A⦄ where
  -- `after` is a valid queue of the elements of `queue` and those of `xs`.
  pub record IsFilled (compare : A → A → ℤ) (queue : PriorityQueue Factor A) (xs : List A)
      (after : PriorityQueue Factor A) : Type ℓ where
    pub valid : IsValid compare after
    pub longer : after.size ≡ queue.size + length xs
    pub holds : (test : A → Bool) → held after test ≡ held queue test + count test xs
    pub same_destruct : after.destruct ≡ queue.destruct
    pub same_factor : after.growth_factor ≡ queue.growth_factor

  -- How `priority_queue_enqueue_all` ends. It adds all of the collection, or nothing.
  abbrev pub EnqueuedAll :
      ⦃scaling : Scaling Factor⦄
      → (A → A → ℤ)
      → Alloc A
      → PriorityQueue Factor A
      → Collection A
      → PriorityQueue Factor A × Outcome (Unit {0}) × List (Event A)
      → Type ℓ
  EnqueuedAll compare alloc queue collection (after, ok _, events) =
      (xs : List A) × (collection.iterator ≡ ok xs)
      × IsFilled compare queue xs after
      × (events ≡ outgrown queue.capacity (queue.size + collection.size))
  EnqueuedAll compare alloc queue collection (after, err e, events) =
      (after ≡ queue)
      × (events ≡ [])
      × ((collection.iterator ≡ err e)
          ⊎ ((e ≡ memory_allocation)
              × (IsAtLimit queue.growth_factor queue.capacity (queue.size + collection.size)
                  ⊎ ((n : ℕ) × (alloc n ≡ none)))))

module _ {ℓ} {Factor : Type 0} {A : Type ℓ} ⦃pointer : Pointer A⦄ ⦃scaling : Scaling Factor⦄
    {compare : A → A → ℤ} (order : IsComparison compare) (alloc : Alloc A) where
  enqueue-roomy :
      (queue : PriorityQueue Factor A) (x : A)
      → queue.size + 1 ≤ queue.capacity
      → enqueue compare alloc queue x ≡ (push compare queue x, ok tt, [])
  unfolding enqueue ensure_capacity
  enqueue-roomy queue x h = rw (le→leb (queue.size + 1) queue.capacity h)

  own-IsRoomier :
      {queue : PriorityQueue Factor A}
      → IsValid compare queue
      → queue.size + 1 ≤ queue.capacity
      → IsRoomier queue (queue.size + 1) queue
  own-IsRoomier v h = record {
    storage = v.storage;
    room = h;
    larger = omega arith;
    same_cells = λ k p. refl;
    same_size = refl;
    same_factor = refl;
    same_destruct = refl;
    same_count = refl;
  }

  enqueue_each-IsFilled :
      (queue : PriorityQueue Factor A) (xs : List A)
      → IsValid compare queue
      → queue.size + length xs ≤ queue.capacity
      → (after : PriorityQueue Factor A) × (enqueue_each compare alloc queue xs
          ≡ (after, ok tt, []))
        × IsFilled compare queue xs after
  unfolding enqueue_each push
  enqueue_each-IsFilled queue [] v room = (
    queue,
    refl,
    record {
      valid = v;
      longer = omega arith;
      holds = λ test. omega arith;
      same_destruct = refl;
      same_factor = refl;
    },
  )
  enqueue_each-IsFilled queue (x ∷ xs) v room =
      let r = own-IsRoomier v (omega arith) in
      let one = push compare queue x in
      let b = push-Became order v x r in
      let (after, e, f) = enqueue_each-IsFilled one xs b.valid (omega arith) in
      (
        after,
        rw (enqueue-roomy queue x (omega arith), e),
        record {
          valid = f.valid;
          longer = omega (arith, f.longer);
          holds = λ test. omega (arith, f.holds test, held-push order v x r test);
          same_destruct = f.same_destruct ∙ b.same_destruct;
          same_factor = f.same_factor ∙ b.same_factor;
        },
      )

  module _ {queue : PriorityQueue Factor A} (collection : Collection A) (honest : IsHonest alloc)
      (growing : IsGrowing queue.growth_factor) (faithful : IsFaithful collection)
      (v : IsValid compare queue) where
    roomy-IsValid :
        {capacity : ℕ} {roomy : PriorityQueue Factor A}
        → IsRoomier queue capacity roomy
        → IsValid compare roomy
    roomy-IsValid r = record {
      storage = r.storage;
      large = omega (arith, v.large, r.larger);
      size_in = omega (arith, v.size_in, r.larger, r.same_size);
      heap = λ k k0 kn.
          Below-along order (r.same_cells k (omega (arith, r.same_size)))
            (r.same_cells (parent k) (omega (arith, r.same_size)))
            (v.heap k k0 (omega (arith, r.same_size)));
    }

    held-roomy :
        {capacity : ℕ} {roomy : PriorityQueue Factor A}
        → IsRoomier queue capacity roomy
        → (test : A → Bool) → held roomy test ≡ held queue test
    held-roomy {capacity} {roomy} r test =
        ap (occurrences test roomy.elements) r.same_size
        ∙ occurrences_congr test roomy.elements queue.elements queue.size r.same_cells

    fill_branch :
        (xs : List A) (r : Bool × PriorityQueue Factor A × List (Event A))
        → collection.iterator ≡ ok xs
        → Ensured alloc queue (queue.size + collection.size) r
        → let (fits, roomy, events) = r in
          let (all, o, more) = enqueue_each compare alloc roomy xs in
          EnqueuedAll compare alloc queue collection
            (if fits then (all, o, events ++ more) else (queue, err memory_allocation, events))
    fill_branch xs (true, roomy, events) yields (r, given_back) =
        let (after, e, f) =
          enqueue_each-IsFilled roomy xs (roomy-IsValid r)
            (omega (arith, faithful xs yields, r.room, r.same_size)) in
        rw e (
          xs,
          yields,
          record {
            valid = f.valid;
            longer = omega (arith, f.longer, r.same_size);
            holds = λ test. omega (arith, f.holds test, held-roomy r test);
            same_destruct = f.same_destruct ∙ r.same_destruct;
            same_factor = f.same_factor ∙ r.same_factor;
          },
          append-nil events ∙ given_back,
        )
    fill_branch xs (false, kept, events) yields (same, none_freed, why) =
        (refl, none_freed, inr (refl, why))

    fill_lem :
        (o : Outcome (List A))
        → collection.iterator ≡ o
        → EnqueuedAll compare alloc queue collection (fill compare alloc queue collection.size o)
    unfolding fill
    fill_lem (err e) fails = (refl, refl, inl fails)
    fill_lem (ok xs) yields = fill_branch xs _ yields (
        ensure_capacity_refines alloc queue honest growing v.large v.storage v.size_in
          (queue.size + collection.size))

    -- Where a block that is handed out has the size asked for: where the sum of the sizes is an
    -- int, with a lawful comparison, a factor that makes capacities grow and a collection that
    -- announces as many elements as it yields, priority_queue_enqueue_all on a valid queue leaves
    -- a valid queue with all elements of the collection added, or adds none and reports the error
    -- of the iterator of the collection, or MEMORY_ALLOCATION_ERROR where growth by the factor
    -- comes to a capacity below the sum of the sizes that the guard does not let grow, or the
    -- allocator refuses.
    pub enqueue_all_refines :
        queue.size + collection.size < 2 ^ 31
        → EnqueuedAll compare alloc queue collection (enqueue_all compare alloc queue collection)
    unfolding enqueue_all
    enqueue_all_refines in_int = fill_lem collection.iterator refl
