-- ===== src/PriorityQueue/Enqueue.antt =====
-- `priority_queue_enqueue` against the multiset of the elements.
use libcdsa.Core.Growing.{Scaling, IsGrowing}
use libcdsa.Core.Cells.{cell, one_if, occurrences, occurrences_congr, occurrences-add_one}
use libcdsa.Core.Comparison.{IsComparison, Below-along}
use libcdsa.Base.{
  ℕ, ◌+◌, ◌<◌, ◌≡◌, refl, ap, ap₂, ◌∙◌, arith, Bool, true, false, List, length, set, length-set,
  get_or-set_self, get_or-set_ne, if◌then◌else◌,
}
use libcdsa.Base.Int.{ℤ}
use libcdsa.Core.{Pointer, Alloc, IsHonest, Event, ok, err, memory_allocation, bump}
use libcdsa.PriorityQueue.{PriorityQueue, heapify_after_insert, push, enqueue}
use libcdsa.PriorityQueue.Order.{parent, IsHeapAbove, IsBridged}
use libcdsa.PriorityQueue.Up.{sift_up-IsHeap, length-sift_up, occurrences-sift_up}
use libcdsa.PriorityQueue.Room.{IsRoomier, Ensured, ensure_capacity_refines}
use libcdsa.PriorityQueue.Refine.{IsValid, held, Became, Enqueued}

module _ {ℓ} {Factor : Type 0} {A : Type ℓ} ⦃pointer : Pointer A⦄ ⦃scaling : Scaling Factor⦄
    {compare : A → A → ℤ} (order : IsComparison compare) {queue : PriorityQueue Factor A}
    (v : IsValid compare queue) where
  module _ (x : A) {roomy : PriorityQueue Factor A}
      (r : IsRoomier queue (queue.size + 1) roomy) where
    -- The array with the new element in its first free cell.
    written : List A
    written = set roomy.elements roomy.size x

    length-written : length written ≡ roomy.capacity
    unfolding written
    length-written = length-set roomy.elements roomy.size x ∙ r.storage

    at_end : cell written roomy.size ≡ x
    unfolding written
    at_end =
        get_or-set_self roomy.elements roomy.size x pointer.null
          (omega (arith, r.storage, r.room, r.same_size))

    before_end : (k : ℕ) → k < roomy.size → cell written k ≡ cell queue.elements k
    unfolding written
    before_end k h =
        get_or-set_ne roomy.elements roomy.size k x pointer.null (λ e. absurd (omega arith))
        ∙ r.same_cells k (omega (arith, r.same_size))

    written-IsHeapAbove : IsHeapAbove compare written (roomy.size + 1) roomy.size
    written-IsHeapAbove k k0 kn away =
        Below-along order (before_end k (omega arith)) (before_end (parent k) (omega arith))
          (v.heap k k0 (omega (arith, r.same_size)))

    written-IsBridged : IsBridged compare written (roomy.size + 1) roomy.size
    written-IsBridged k i0 k0 kn e = absurd (omega arith)

    pub held-push :
        (test : A → Bool) → held (push compare roomy x) test ≡ held queue test + one_if (test x)
    unfolding push heapify_after_insert occurrences written
    held-push test =
        occurrences-sift_up compare test roomy.size written (roomy.size + 1) roomy.size
          (omega (arith, length-written, r.room, r.same_size)) (omega arith)
        ∙ occurrences-add_one test written roomy.size
        ∙ ap₂ (λ n a. n + one_if (test a))
            (occurrences_congr test written queue.elements roomy.size before_end
              ∙ ap (occurrences test queue.elements) r.same_size)
            at_end

    pub push-Became : Became compare queue (push compare roomy x)
    unfolding push heapify_after_insert written
    push-Became = record {
      valid = record {
        storage = length-sift_up compare roomy.size written roomy.size ∙ length-written;
        large = omega (arith, v.large, r.larger);
        size_in = omega (arith, r.room, r.same_size);
        heap =
            sift_up-IsHeap order roomy.size written (roomy.size + 1) roomy.size
              (omega (arith, length-written, r.room, r.same_size)) (omega arith) (omega arith)
              written-IsHeapAbove written-IsBridged;
      };
      same_factor = r.same_factor;
      same_destruct = r.same_destruct;
      counted = ap bump r.same_count;
    }

  enqueue_branch :
      (alloc : Alloc A) (x : A) (r : Bool × PriorityQueue Factor A × List (Event A))
      → Ensured alloc queue (queue.size + 1) r
      → let (fits, roomy, events) = r in
        Enqueued compare alloc queue x (
          if fits
          then (push compare roomy x, ok tt, events)
          else (queue, err memory_allocation, events))
  unfolding push
  enqueue_branch alloc x (true, roomy, events) (r, given_back) =
      (push-Became x r, ap (λ n. n + 1) r.same_size, held-push x r, given_back)
  enqueue_branch alloc x (false, kept, events) (same, none_freed, why) =
      (refl, refl, none_freed, why)

  -- Where a block that is handed out has the size asked for: with a lawful comparison, and a
  -- growth factor that makes capacities grow, priority_queue_enqueue on a valid queue leaves a
  -- valid queue with the element added, and gives the old array back exactly where it was full; or
  -- it reports MEMORY_ALLOCATION_ERROR with the queue as it was, only where growth by the factor
  -- from the capacity comes to one below what is needed that the guard does not let grow, or the
  -- allocator refuses.
  pub enqueue_refines :
      (alloc : Alloc A) (x : A)
      → IsHonest alloc
      → IsGrowing queue.growth_factor
      → Enqueued compare alloc queue x (enqueue compare alloc queue x)
  unfolding enqueue
  enqueue_refines alloc x honest growing = enqueue_branch alloc x _ (
      ensure_capacity_refines alloc queue honest growing v.large v.storage v.size_in
        (queue.size + 1))
