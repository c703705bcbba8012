-- ===== src/Deque/Traversal.antt =====
-- `iterator_advance` and `iterator_retreat` of src/collections/iterator.c on the iterators of a
-- deque, for a count that is not negative.
use libcdsa.Base.{
  ℕ, zero, suc, ◌+◌, ◌-◌, ◌≤◌, ◌≡◌, ap, ◌∙◌, arith, min, true, false, Bool-cases, inl, inr, lt→ltb,
}
use libcdsa.Core.{Pointer, Outcome, ok, then_outcome, map_outcome}
use libcdsa.Deque.{Deque}
use libcdsa.Deque.Iteration.{
  Iteration, has_next, next, has_previous, previous, next-ok, previous-ok,
}

-- What a traversal leaves: the iterator, the number of steps that it reports, and the error that
-- is recorded last.
abbrev pub Traversed : Type 0
Traversed = Iteration × ℕ × Outcome (Unit {0})

-- The iterator at a position, after a number of steps without an error.
abbrev pub arrived : Iteration → ℕ → ℕ → Traversed
arrived iteration position steps = (record iteration { count = position }, steps, ok tt)

module _ {ℓ} {A : Type ℓ} ⦃pointer : Pointer A⦄ where
  abbrev one_more : Outcome A → Traversed → Traversed
  one_more r (iteration, traversed, rs) =
      (iteration, traversed + 1, then_outcome (map_outcome (λ _. tt) r) rs)

  unfoldable pub advance : ℕ → Deque A → Iteration → Traversed
  advance zero deque iteration = (iteration, 0, ok tt)
  advance (suc n) deque iteration =
      let (moved, r) = next deque iteration in
      let rest = advance n deque moved in
      elim (has_next deque iteration) [ true ↦ one_more r rest | false ↦ (iteration, 0, ok tt) ]

  unfoldable pub retreat : ℕ → Deque A → Iteration → Traversed
  retreat zero deque iteration = (iteration, 0, ok tt)
  retreat (suc n) deque iteration =
      let (moved, r) = previous deque iteration in
      let rest = retreat n deque moved in
      elim (has_previous deque iteration) [ true ↦ one_more r rest | false ↦ (iteration, 0, ok tt) ]

  advance-cons :
      (n : ℕ) (deque : Deque A) (iteration moved after : Iteration) (x : A) (steps : ℕ)
      → has_next deque iteration ≡ true
      → next deque iteration ≡ (moved, ok x)
      → advance n deque moved ≡ (after, steps, ok tt)
      → advance (suc n) deque iteration ≡ (after, steps + 1, ok tt)
  unfolding advance
  advance-cons n deque iteration moved after x steps more e rest =
      rw (more, advance)
        (ap (λ p. one_more p.1 (advance n deque p.0)) e ∙ ap (one_more (ok x)) rest)

  retreat-cons :
      (n : ℕ) (deque : Deque A) (iteration moved after : Iteration) (x : A) (steps : ℕ)
      → has_previous deque iteration ≡ true
      → previous deque iteration ≡ (moved, ok x)
      → retreat n deque moved ≡ (after, steps, ok tt)
      → retreat (suc n) deque iteration ≡ (after, steps + 1, ok tt)
  unfolding retreat
  retreat-cons n deque iteration moved after x steps more e rest =
      rw (more, retreat)
        (ap (λ p. one_more p.1 (retreat n deque p.0)) e ∙ ap (one_more (ok x)) rest)

  advance-nil :
      (n : ℕ) (deque : Deque A) (iteration : Iteration)
      → has_next deque iteration ≡ false
      → advance (suc n) deque iteration ≡ (iteration, 0, ok tt)
  unfolding advance
  advance-nil n deque iteration none_left = rw (none_left, advance)

  advance_lem :
      (n : ℕ) (deque : Deque A) (iteration : Iteration)
      → iteration.modification_count ≡ deque.modification_count
      → iteration.count ≤ deque.size
      → (steps : ℕ) × (steps ≡ min n (deque.size - iteration.count))
        × (advance n deque iteration ≡ arrived iteration (iteration.count + steps) steps)
  unfolding advance has_next
  advance_lem zero deque iteration same h =
      (0, omega arith, ap (λ c. arrived iteration c 0) (omega arith))
  advance_lem (suc n) deque iteration same h = elim (Bool-cases (has_next deque iteration)) [
    | inr ended ↦ (
      0,
      ground arith,
      advance-nil n deque iteration ended ∙ ap (λ c. arrived iteration c 0) (omega arith),
    )
    | inl more ↦
        let there = record iteration { count = iteration.count + 1 } in
        let (steps, few, e) = advance_lem n deque there same (ground arith) in
        (
          steps + 1,
          ground (arith, few),
          advance-cons n deque iteration there _ _ steps more
                (next-ok deque iteration same (ground arith)) e
              ∙ ap (λ c. arrived iteration c (steps + 1)) (omega arith),
        )
  ]

  retreat_lem :
      (n : ℕ) (deque : Deque A) (iteration : Iteration)
      → iteration.modification_count ≡ deque.modification_count
      → n ≤ iteration.count
      → retreat n deque iteration ≡ arrived iteration (iteration.count - n) n
  unfolding retreat has_previous
  retreat_lem zero deque iteration same h = ap (λ c. arrived iteration c 0) (omega arith)
  retreat_lem (suc n) deque iteration same h =
      let there = record iteration { count = iteration.count - 1 } in
      retreat-cons n deque iteration there _ _ n (lt→ltb 0 iteration.count (omega arith))
        (previous-ok deque iteration same (omega arith))
        (retreat_lem n deque there same (omega arith))
      ∙ ap (λ c. (record iteration { count = c }, n + 1, ok tt)) (omega arith)
      ∙ ap (arrived iteration (iteration.count - suc n)) (omega arith)

  -- Iterator_advance of an iterator of a deque that is in range and not disturbed makes as many
  -- steps as it is asked for, or as there are elements left, reports their number and leaves no
  -- error; iterator_retreat by that number brings the iterator back.
  pub retreat-advance :
      (n : ℕ) (deque : Deque A) (iteration : Iteration)
      → iteration.modification_count ≡ deque.modification_count
      → iteration.count ≤ deque.size
      → (steps : ℕ) × (moved : Iteration) × (steps ≡ min n (deque.size - iteration.count))
        × (advance n deque iteration ≡ (moved, steps, ok tt))
        × (retreat steps deque moved ≡ (iteration, steps, ok tt))
  retreat-advance n deque iteration same h =
      let (steps, few, e) = advance_lem n deque iteration same h in
      let moved = record iteration { count = iteration.count + steps } in
      (
        steps,
        moved,
        few,
        e,
        retreat_lem steps deque moved same (omega arith)
            ∙ ap (λ c. arrived iteration c steps) (omega arith),
      )
