-- ===== src/PriorityQueue/Dequeue.antt =====
-- `priority_queue_dequeue` and `priority_queue_peek` against the multiset of the elements.
use libcdsa.Core.Growing.{Scaling}
use libcdsa.Core.Cells.{
  swap, cell, one_if, length-swap, swap_right, swap_other, occurrences, occurrences-swap,
  occurrences-add_one, occurrences_positive,
}
use libcdsa.Core.Comparison.{IsComparison, Below-along}
use libcdsa.Base.{
  ℕ, ◌+◌, ◌-◌, ◌≤◌, ◌<◌, ◌≡◌, ◌⊎◌, refl, ap, ◌∙◌, arith, inl, inr, Bool, true, Bool-cases, List,
  length, ◌==◌, ℕ_discrete,
}
use libcdsa.Base.Int.{ℤ}
use libcdsa.Core.{Pointer, bump}
use libcdsa.PriorityQueue.{PriorityQueue, heapify_after_delete, peek, dequeue}
use libcdsa.PriorityQueue.Order.{parent, IsHeapBelow, IsBridged, root_greatest}
use libcdsa.PriorityQueue.Down.{sift_down-IsHeap, sift_down_keeps}
use libcdsa.PriorityQueue.Refine.{IsValid, held, Became, Dequeued, Peeked}

one_or_more : (n : ℕ) → (n - 1 ≤ 1) ⊎ (0 < n - 1)
one_or_more n = elim (ℕ_discrete n 1) [
  | yes e ↦ inl (omega arith)
  | no ne ↦ elim (ℕ_discrete n 0) [ yes e ↦ inl (omega arith) | no ne' ↦ inr (omega arith) ]
]

module _ {ℓ} {Factor : Type 0} {A : Type ℓ} ⦃pointer : Pointer A⦄ ⦃scaling : Scaling Factor⦄
    {compare : A → A → ℤ} (order : IsComparison compare) {queue : PriorityQueue Factor A}
    (v : IsValid compare queue) where
  module _ (some_in : 0 < queue.size) where
    exchanged : List A
    exchanged = swap queue.elements 0 (queue.size - 1)

    at_last : cell exchanged (queue.size - 1) ≡ cell queue.elements 0
    unfolding exchanged
    at_last =
        swap_right queue.elements 0 (queue.size - 1) (omega (arith, v.storage, v.size_in))
          (omega (arith, v.storage, v.size_in))

    between : (k : ℕ) → 0 < k → k < queue.size - 1 → cell exchanged k ≡ cell queue.elements k
    unfolding exchanged
    between k k0 kn =
        swap_other queue.elements 0 (queue.size - 1) (omega (arith, v.storage, v.size_in))
          (omega (arith, v.storage, v.size_in)) k (λ e. absurd (omega arith))
          (λ e. absurd (omega arith))

    exchanged-IsHeapBelow : IsHeapBelow compare exchanged (queue.size - 1) 0
    exchanged-IsHeapBelow k k0 kn away =
        Below-along order (between k k0 kn) (between (parent k) (omega arith) (omega arith))
          (v.heap k k0 (omega arith))

    exchanged-IsBridged : IsBridged compare exchanged (queue.size - 1) 0
    exchanged-IsBridged k i0 k0 kn e = absurd (omega arith)

    length-exchanged : length exchanged ≡ queue.capacity
    unfolding exchanged
    length-exchanged = length-swap queue.elements 0 (queue.size - 1) ∙ v.storage

    taken : A → PriorityQueue Factor A
    taken stray = record queue {
      elements = heapify_after_delete compare stray exchanged (queue.size - 1) 0;
      size = queue.size - 1;
      modification_count = bump queue.modification_count;
    }

    taken_keeps :
        (stray : A) (test : A → Bool)
        → (length (taken stray).elements ≡ queue.capacity)
          × (held (taken stray) test ≡ occurrences test exchanged (queue.size - 1))
    unfolding taken heapify_after_delete
    taken_keeps stray test =
        let (kept, same) =
          sift_down_keeps order test (queue.size - 1) stray exchanged (queue.size - 1) 0
            (omega (arith, length-exchanged, v.size_in)) (one_or_more queue.size) in
        (kept ∙ length-exchanged, same)

    taken-Became : (stray : A) → Became compare queue (taken stray)
    unfolding taken heapify_after_delete
    taken-Became stray = record {
      valid = record {
        storage = (taken_keeps stray (λ a. true)).0;
        large = v.large;
        size_in = omega (arith, v.size_in);
        heap =
            sift_down-IsHeap order (queue.size - 1) stray exchanged (queue.size - 1) 0
              (omega (arith, length-exchanged, v.size_in)) (omega arith) (one_or_more queue.size)
              exchanged-IsHeapBelow exchanged-IsBridged;
      };
      same_factor = refl;
      same_destruct = refl;
      counted = refl;
    }

    held-taken :
        (stray : A) (test : A → Bool)
        → held queue test
          ≡ held (taken stray) test + one_if (test (cell exchanged (queue.size - 1)))
    unfolding exchanged
    held-taken stray test =
        let (kept, same) = taken_keeps stray test in
        let first =
          occurrences-swap test queue.elements 0 (queue.size - 1) queue.size
            (omega (arith, v.storage, v.size_in)) (omega (arith, v.storage, v.size_in)) some_in
            (omega arith) in
        let last = occurrences-add_one test exchanged (queue.size - 1) in
        let size : queue.size - 1 + 1 ≡ queue.size = omega arith in
        omega (arith, same, first, last, ap (occurrences test exchanged) size)

  -- With a lawful comparison (its sign turns round with its arguments, and its "not above" carries
  -- over), priority_queue_dequeue on a valid queue removes and returns an element above which no
  -- other ranks, passes it to the destructor once, and leaves a valid queue of the remaining
  -- elements, whatever lies past the end of the array; on an empty queue it reports
  -- NO_SUCH_ELEMENT_ERROR and changes nothing.
  pub dequeue_refines : (stray : A) → Dequeued compare queue (dequeue compare stray queue)
  unfolding dequeue exchanged taken
  dequeue_refines stray = elim (Bool-cases (queue.size == 0)) [
    | inl none_in ↦ rw (dequeue, none_in) (ground arith, refl, refl, refl)
    | inr filled ↦
        let some_in : 0 < queue.size = ground arith in
        rw (dequeue, filled)
          (
            taken-Became some_in stray,
            omega arith,
            held-taken some_in stray,
            λ k h.
                Below-along order refl (at_last some_in) (
                  root_greatest order queue.size queue.elements queue.size k v.heap (omega arith)
                    h),
            refl,
          )
  ]

  -- With a lawful comparison, priority_queue_peek on a valid queue returns an element that the
  -- queue holds and above which no other ranks, and reports NO_SUCH_ELEMENT_ERROR exactly on an
  -- empty queue.
  pub peek_refines : Peeked compare queue (peek compare queue)
  unfolding peek occurrences
  peek_refines = elim (Bool-cases (queue.size == 0)) [
    | inl none_in ↦
        rw (peek, none_in)
          (λ test. ap (occurrences test queue.elements) {y = 0} (ground arith), refl)
    | inr filled ↦
        let some_in : 0 < queue.size = ground arith in
        rw (peek, filled)
          (
            λ test passes. occurrences_positive test queue.elements queue.size 0 some_in passes,
            λ k h.
                root_greatest order queue.size queue.elements queue.size k v.heap (omega arith) h,
          )
  ]
