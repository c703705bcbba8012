-- ===== src/PriorityQueue/Bulk/Wipe.antt =====
-- `priority_queue_clear`.
use libcdsa.Core.Growing.{Scaling}
use libcdsa.Core.Cells.{
  occurrences, occurrences-add_one, cells_from, length-empty_out, cell, empty_out-null,
  empty_out-events,
}
use libcdsa.Base.{◌<◌, ℕ, zero, suc, ◌+◌, ◌≡◌, refl, ap, ◌∙◌, arith, Bool, false, List, map}
use libcdsa.Base.Int.{ℤ}
use libcdsa.Core.{Pointer, Destructor, Event, destructed, freed}
use libcdsa.PriorityQueue.{PriorityQueue}
use libcdsa.PriorityQueue.Refine.{IsValid, held, Became}
use libcdsa.PriorityQueue.Bulk.{clear}
use libcdsa.PriorityQueue.Bulk.Fill.{count}

-- Whether an event is the destruction of an element that passes a test.
abbrev pub destroys {ℓ} : {A : Type ℓ} → (A → Bool) → Event A → Bool
destroys test (destructed d x) = test x
destroys test (freed b) = false

module _ {ℓ} {A : Type ℓ} ⦃pointer : Pointer A⦄ where
  count-cells_from :
      (test : A → Bool) (d : Destructor) (elements : List A) (i n : ℕ)
      → count (destroys test) (map (destructed d) (cells_from elements i n))
          + occurrences test elements i
        ≡ occurrences test elements (i + n)
  unfolding cells_from
  count-cells_from test d elements i zero =
      let same : occurrences test elements i ≡ occurrences test elements (i + 0) =
        ap (occurrences test elements) (omega arith) in
      omega (arith, same)
  count-cells_from test d elements i (suc n) = omega (
    arith,
    count-cells_from test d elements (i + 1) n,
    occurrences-add_one test elements i,
    ap (occurrences test elements) {x = i + suc n} {y = i + 1 + n} (omega arith),
  )

module _ {ℓ} {Factor : Type 0} {A : Type ℓ} ⦃pointer : Pointer A⦄ ⦃scaling : Scaling Factor⦄
    {compare : A → A → ℤ} where
  -- Priority_queue_clear on a valid queue leaves a valid empty queue and passes each element, as
  -- it was before the call, to the destructor once, in the order of the array, and overwrites
  -- every cell that was in use with a null pointer.
  pub clear_empties :
      {queue : PriorityQueue Factor A}
      → IsValid compare queue
      → Became compare queue (clear queue).0
        × ((clear queue).0.size ≡ 0)
        × ((clear queue).1
            ≡ map (destructed queue.destruct) (cells_from queue.elements 0 queue.size))
        × ((k : ℕ) → k < queue.size → cell (clear queue).0.elements k ≡ pointer.null)
        × ((test : A → Bool) → count (destroys test) (clear queue).1 ≡ held queue test)
  unfolding clear occurrences
  clear_empties {queue} v = (
    record {
      valid = record {
        storage = length-empty_out queue.destruct queue.elements 0 queue.size ∙ v.storage;
        large = v.large;
        size_in = omega arith;
        heap = λ k k0 kn. absurd (omega arith);
      };
      same_factor = refl;
      same_destruct = refl;
      counted = refl;
    },
    refl,
    empty_out-events queue.destruct queue.elements 0 queue.size,
    λ k h.
        empty_out-null queue.destruct queue.elements 0 queue.size k
          (omega (arith, v.storage, v.size_in)) (omega arith) (omega arith),
    λ test.
        let given =
          ap (count (destroys test))
            (empty_out-events queue.destruct queue.elements 0 queue.size) in
        let all = count-cells_from test queue.destruct queue.elements 0 queue.size in
        let size : occurrences test queue.elements (0 + queue.size) ≡ held queue test =
          ap (occurrences test queue.elements) (omega arith) in
        let before : occurrences test queue.elements 0 ≡ 0 = refl in
        omega (given, all, arith, size, before),
  )
