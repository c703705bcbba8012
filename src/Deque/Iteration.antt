-- ===== src/Deque/Iteration.antt =====
-- The iterators of src/collections/deque.c. An iterator refers to its deque, which may change under
-- it, so each call takes the deque as it then is.
use libcdsa.Base.{
  ℕ, zero, suc, ◌+◌, ◌-◌, ◌^◌, ◌≤◌, ◌<◌, ◌≡◌, sym, ap, ap₂, ◌∙◌, le→ltb_false, lt→ltb, ==_of_eq,
  arith, Bool, true, false, List, [], ◌∷◌, none, some, drop, map, ltb, ◌==◌, if◌then◌else◌,
  Bool-cases, inl, inr,
}
use libcdsa.Base.Int.{ℤ, to_ℕ?}
use libcdsa.Core.{
  Pointer, Outcome, ok, err, memory_allocation, index_out_of_bounds, no_such_element,
  concurrent_modification, unsupported_operation,
}
use libcdsa.Deque.{Deque, element_at, elements_from}
use libcdsa.Deque.Inv.{contents}
use libcdsa.Deque.Refine.{Became}

-- `IterationContext`, but for its pointer to the deque.
pub record Iteration : Type 0 where
  pub count : ℕ
  pub modification_count : ℕ

module _ {ℓ} {A : Type ℓ} ⦃pointer : Pointer A⦄ where
  -- `granted` is whether the allocation of the context succeeds.
  unfoldable pub create_iterator : Bool → Deque A → ℕ → Outcome Iteration
  create_iterator granted deque position =
      if granted
      then ok (record { count = position; modification_count = deque.modification_count })
      else err memory_allocation

  unfoldable pub iterator : Bool → Deque A → Outcome Iteration
  unfolding create_iterator
  iterator granted deque = create_iterator granted deque 0

  unfoldable pub iterator_at : Bool → Deque A → ℤ → Outcome Iteration
  unfolding create_iterator
  iterator_at granted deque position = elim (to_ℕ? position) [
    | none ↦ err index_out_of_bounds
    | some p ↦ if ltb deque.size p then err index_out_of_bounds else create_iterator granted deque p
  ]

  unfoldable pub has_next : Deque A → Iteration → Bool
  has_next deque iteration = ltb iteration.count deque.size

  unfoldable pub next : Deque A → Iteration → Iteration × Outcome A
  unfolding has_next element_at
  next deque iteration =
      if iteration.modification_count == deque.modification_count
      then if has_next deque iteration
        then (
          record iteration { count = iteration.count + 1 },
          ok (element_at deque iteration.count),
        )
        else (iteration, err no_such_element)
      else (iteration, err concurrent_modification)

  unfoldable pub has_previous : Deque A → Iteration → Bool
  has_previous deque iteration = ltb 0 iteration.count

  unfoldable pub previous : Deque A → Iteration → Iteration × Outcome A
  unfolding has_previous element_at
  previous deque iteration =
      if iteration.modification_count == deque.modification_count
      then if has_previous deque iteration
        then (
          record iteration { count = iteration.count - 1 },
          ok (element_at deque (iteration.count - 1)),
        )
        else (iteration, err no_such_element)
      else (iteration, err concurrent_modification)

  -- `add`, `set` and `remove` of a deque's iterator.
  unfoldable pub change_through : Deque A → Iteration → Iteration × Outcome (Unit {0})
  change_through deque iteration = (iteration, err unsupported_operation)

  unfoldable pub reset : Deque A → Iteration → Iteration
  reset deque iteration = record { count = 0; modification_count = deque.modification_count }

  -- A client's loop `while (iterator_has_next(it)) … iterator_next(it)`, for at most `n` rounds.
  unfoldable pub drain : ℕ → Deque A → Iteration → List (Outcome A)
  drain zero deque iteration = []
  drain (suc n) deque iteration = elim (has_next deque iteration) [
    | false ↦ []
    | true ↦ let (iteration', r) = next deque iteration in r ∷ drain n deque iteration'
  ]

  drop-elements_from :
      (deque : Deque A) (p i n : ℕ)
      → p ≤ n
      → drop p (elements_from deque i n) ≡ elements_from deque (i + p) (n - p)
  unfolding elements_from
  drop-elements_from deque zero i n h = ap₂ (elements_from deque) (omega arith) (omega arith)
  drop-elements_from deque (suc p) i zero h = absurd (omega arith)
  drop-elements_from deque (suc p) i (suc n) h =
      drop-elements_from deque p (i + 1) n (omega arith)
      ∙ ap₂ (elements_from deque) (omega arith) (omega arith)

  pub next-ok :
      (deque : Deque A) (iteration : Iteration)
      → iteration.modification_count ≡ deque.modification_count
      → iteration.count < deque.size
      → next deque iteration
        ≡ (record iteration { count = iteration.count + 1 }, ok (element_at deque iteration.count))
  unfolding next
  next-ok deque iteration same more = rw (==_of_eq _ _ same, lt→ltb _ _ more)

  pub previous-ok :
      (deque : Deque A) (iteration : Iteration)
      → iteration.modification_count ≡ deque.modification_count
      → 0 < iteration.count
      → previous deque iteration ≡ (
        record iteration { count = iteration.count - 1 },
        ok (element_at deque (iteration.count - 1)),
      )
  unfolding previous
  previous-ok deque iteration same more = rw (==_of_eq _ _ same, lt→ltb _ _ more)

  drain-cons :
      (n : ℕ) (deque : Deque A) (iteration moved : Iteration) (r : Outcome A)
      → has_next deque iteration ≡ true
      → next deque iteration ≡ (moved, r)
      → drain (suc n) deque iteration ≡ r ∷ drain n deque moved
  unfolding drain
  drain-cons n deque iteration moved r more e =
      rw (more, drain) (ap (λ p. p.1 ∷ drain n deque p.0) e)

  drain-nil :
      (n : ℕ) (deque : Deque A) (iteration : Iteration)
      → has_next deque iteration ≡ false
      → drain (suc n) deque iteration ≡ []
  unfolding drain
  drain-nil n deque iteration done = rw (done, drain)

  drain-elements_from :
      (n : ℕ) (deque : Deque A) (iteration : Iteration)
      → iteration.modification_count ≡ deque.modification_count
      → iteration.count + n ≡ deque.size
      → drain (suc n) deque iteration ≡ map ok (elements_from deque iteration.count n)
  unfolding has_next elements_from
  drain-elements_from zero deque iteration same h =
      drain-nil 0 deque iteration (le→ltb_false iteration.count deque.size (omega arith))
  drain-elements_from (suc n) deque iteration same h =
      drain-cons (suc n) deque iteration _ _ (lt→ltb iteration.count deque.size (omega arith))
        (next-ok deque iteration same (omega arith))
      ∙ ap (◌∷◌ (ok (element_at deque iteration.count))) (
          drain-elements_from n deque (record iteration { count = iteration.count + 1 }) same
            (omega arith))

  -- An iterator placed at a position in range and not disturbed yields the elements from there on,
  -- each once and in order, and then has no more.
  pub drain_yields :
      (deque : Deque A) (iteration : Iteration)
      → iteration.count ≤ deque.size
      → create_iterator true deque iteration.count ≡ ok iteration
      → drain (deque.size - iteration.count + 1) deque iteration
        ≡ map ok (drop iteration.count (contents deque))
  unfolding create_iterator
  drain_yields deque iteration h made =
      ap (λ n. drain n deque iteration) {y = suc (deque.size - iteration.count)} (omega arith)
      ∙ drain-elements_from (deque.size - iteration.count) deque iteration (ground arith)
          (omega arith)
      ∙ ap (map ok) (
          ap (λ i. elements_from deque i (deque.size - iteration.count)) (omega arith)
          ∙ sym (drop-elements_from deque iteration.count 0 deque.size h))

  -- After a change of the deque that its modification count shows, iterator_next and
  -- iterator_previous report CONCURRENT_MODIFICATION_ERROR and the iterator stays where it is.
  pub next_fails_fast :
      (deque after : Deque A) (xs : List A) (iteration : Iteration)
      → deque.modification_count < 2 ^ 32
      → iteration.modification_count ≡ deque.modification_count
      → Became deque xs after
      → (next after iteration ≡ (iteration, err concurrent_modification))
        × (previous after iteration ≡ (iteration, err concurrent_modification))
  unfolding next previous
  next_fails_fast deque after xs iteration h same b =
      let changed : (iteration.modification_count == after.modification_count) ≡ false =
        ground (arith, b.counted) in
      (rw changed, rw changed)

  -- Going on and back again returns the same element and leaves the iterator where it was.
  pub previous-next :
      (deque : Deque A) {iteration moved : Iteration} {x : A}
      → next deque iteration ≡ (moved, ok x)
      → previous deque moved ≡ (iteration, ok x)
  unfolding next previous
  previous-next deque {iteration} {moved} {x} e =
      elim (Bool-cases (iteration.modification_count == deque.modification_count)) [
        | inr changed ↦ cc (rw changed at e)
        | inl same ↦ elim (Bool-cases (ltb iteration.count deque.size)) [
          | inr done ↦ cc (rw (same, done) at e)
          | inl more ↦
              let e' = rw (same, more) at e in
              let back : iteration.count + 1 - 1 ≡ iteration.count = omega arith in
              ap (λ p. previous deque p.0) (sym e')
              ∙ previous-ok deque (record iteration { count = iteration.count + 1 }) (ground arith)
                  (omega arith)
              ∙ ap (λ c. (record iteration { count = c }, ok (element_at deque c))) back
              ∙ ap (λ p. (iteration, p.1)) e'
        ]
      ]
