-- ===== src/PriorityQueue/Iteration.antt =====
-- The iterators of src/collections/priority_queue.c. An iterator refers to its queue, which may
-- change under it, so each call takes the queue as it then is.
use libcdsa.Core.Cells.{cell, cells_from}
use libcdsa.Base.{
  ℕ, zero, suc, ◌+◌, ◌^◌, ◌<◌, ◌≡◌, refl, ap, ◌∙◌, le→ltb_false, lt→ltb, ==_of_eq, arith, Bool,
  true, false, List, [], ◌∷◌, map, get_or, ltb, ◌==◌, if◌then◌else◌,
}
use libcdsa.Base.Int.{ℤ}
use libcdsa.Core.{
  Pointer, Outcome, ok, err, memory_allocation, no_such_element, concurrent_modification,
  unsupported_operation,
}
use libcdsa.PriorityQueue.{PriorityQueue}
use libcdsa.PriorityQueue.Refine.{Became}

-- `IterationContext`, but for its pointer to the queue.
pub record Cursor : Type 0 where
  pub cursor : ℕ
  pub modification_count : ℕ

module _ {ℓ} {Factor : Type 0} {A : Type ℓ} ⦃pointer : Pointer A⦄ where
  -- `granted` is whether the allocation of the context succeeds.
  unfoldable pub create_iterator : Bool → PriorityQueue Factor A → Outcome Cursor
  create_iterator granted queue =
      if granted
      then ok (record { cursor = 0; modification_count = queue.modification_count })
      else err memory_allocation

  unfoldable pub has_next : PriorityQueue Factor A → Cursor → Bool
  has_next queue iteration = ltb iteration.cursor queue.size

  unfoldable pub next : PriorityQueue Factor A → Cursor → Cursor × Outcome A
  unfolding has_next
  next queue iteration =
      if iteration.modification_count == queue.modification_count
      then if has_next queue iteration
        then (
          record iteration { cursor = iteration.cursor + 1 },
          ok (get_or queue.elements iteration.cursor pointer.null),
        )
        else (iteration, err no_such_element)
      else (iteration, err concurrent_modification)

  -- `has_previous`, `previous`, `add`, `set` and `remove` of a priority queue's iterator.
  unfoldable pub backward_or_change : PriorityQueue Factor A → Cursor → Cursor × Outcome (Unit {0})
  backward_or_change queue iteration = (iteration, err unsupported_operation)

  unfoldable pub reset : PriorityQueue Factor A → Cursor → Cursor
  reset queue iteration = record { cursor = 0; modification_count = queue.modification_count }

  -- A client's loop `while (iterator_has_next(it)) … iterator_next(it)`, for at most `n` rounds.
  unfoldable pub drain : ℕ → PriorityQueue Factor A → Cursor → List (Outcome A)
  drain zero queue iteration = []
  drain (suc n) queue iteration = elim (has_next queue iteration) [
    | false ↦ []
    | true ↦ let (iteration', r) = next queue iteration in r ∷ drain n queue iteration'
  ]

  next-ok :
      (queue : PriorityQueue Factor A) (iteration : Cursor)
      → iteration.modification_count ≡ queue.modification_count
      → iteration.cursor < queue.size
      → next queue iteration ≡ (
        record iteration { cursor = iteration.cursor + 1 },
        ok (cell queue.elements iteration.cursor),
      )
  unfolding next
  next-ok queue iteration same more = rw (==_of_eq _ _ same, lt→ltb _ _ more)

  drain-cons :
      (n : ℕ) (queue : PriorityQueue Factor A) (iteration moved : Cursor) (r : Outcome A)
      → has_next queue iteration ≡ true
      → next queue iteration ≡ (moved, r)
      → drain (suc n) queue iteration ≡ r ∷ drain n queue moved
  unfolding drain
  drain-cons n queue iteration moved r more e =
      rw (more, drain) (ap (λ p. p.1 ∷ drain n queue p.0) e)

  drain-nil :
      (n : ℕ) (queue : PriorityQueue Factor A) (iteration : Cursor)
      → has_next queue iteration ≡ false
      → drain (suc n) queue iteration ≡ []
  unfolding drain
  drain-nil n queue iteration done = rw (done, drain)

  drain-cells_from :
      (n : ℕ) (queue : PriorityQueue Factor A) (iteration : Cursor)
      → iteration.modification_count ≡ queue.modification_count
      → iteration.cursor + n ≡ queue.size
      → drain (suc n) queue iteration ≡ map ok (cells_from queue.elements iteration.cursor n)
  unfolding has_next cells_from
  drain-cells_from zero queue iteration same h =
      drain-nil 0 queue iteration (le→ltb_false iteration.cursor queue.size (omega arith))
  drain-cells_from (suc n) queue iteration same h =
      drain-cons (suc n) queue iteration _ _ (lt→ltb iteration.cursor queue.size (omega arith))
        (next-ok queue iteration same (omega arith))
      ∙ ap (◌∷◌ (ok (cell queue.elements iteration.cursor))) (
          drain-cells_from n queue (record iteration { cursor = iteration.cursor + 1 }) same
            (omega arith))

  -- A reset iterator of a priority queue that is not disturbed yields the cells in use, each once
  -- and in the order of the array, and then has no more.
  pub reset_drains :
      (queue : PriorityQueue Factor A) (iteration : Cursor)
      → drain (suc queue.size) queue (reset queue iteration)
        ≡ map ok (cells_from queue.elements 0 queue.size)
  unfolding reset
  reset_drains queue iteration =
      drain-cells_from queue.size queue (reset queue iteration) refl (omega arith)

  -- After a change of the queue that its modification count shows, iterator_next reports
  -- CONCURRENT_MODIFICATION_ERROR and the iterator stays where it is.
  pub stale_next_fails :
      (compare : A → A → ℤ) (queue after : PriorityQueue Factor A) (iteration : Cursor)
      → queue.modification_count < 2 ^ 32
      → iteration.modification_count ≡ queue.modification_count
      → Became compare queue after
      → next after iteration ≡ (iteration, err concurrent_modification)
  unfolding next
  stale_next_fails compare queue after iteration h same b =
      let changed : (iteration.modification_count == after.modification_count) ≡ false =
        ground (arith, b.counted) in
      rw changed
