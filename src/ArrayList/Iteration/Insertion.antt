-- ===== src/ArrayList/Iteration/Insertion.antt =====
-- Insertion by the iterator of the array list.
use libcdsa.Core.Cells.{cell}
use libcdsa.Core.Growing.{Scaling, IsGrowing, IsBounded, IsAtLimit}
use libcdsa.Base.{
  ℕ, ◌+◌, ◌-◌, ◌≤◌, ◌<◌, ◌≡◌, ◌⊎◌, inl, inr, refl, sym, ap, ◌∙◌, arith, Bool-cases, some, List, [],
  ◌∷◌, ◌++◌, length, take, drop, get_or, lt→ltb, le→ltb_false, ltb, ltb→lt, ==_of_eq,
}
use libcdsa.Base.Int.{pos, negsuc}
use libcdsa.Base.Slices.{get_or-put_in, length-put_in}
use libcdsa.Core.{Pointer, Event, Outcome, ok, err, memory_allocation, no_such_element}
use libcdsa.ArrayList.{ArrayList, Memory, add}
use libcdsa.ArrayList.Inv.{IsValid, contents, length-contents, contents_at}
use libcdsa.ArrayList.Room.{IsSound, Refuses}
use libcdsa.ArrayList.Insert.{Inserted, add_inserts}
use libcdsa.ArrayList.Iteration.{Iteration, has_next, next, has_previous, previous, iterator_add}

module _ {Factor : Type 0} {A : Type 0} ⦃pointer : Pointer A⦄ where
  -- The iterator after `iterator_add`.
  abbrev moved_on : ArrayList Factor A → Iteration → Iteration
  moved_on after iteration = record {
    cursor = iteration.cursor + 1;
    last_returned = negsuc 0;
    modification_count = after.modification_count;
  }

  -- How an insertion by an iterator ends. The new element is the one that a step back returns, and
  -- a step on returns what it returned before. The iterator moves on also where nothing is
  -- inserted, and then the next step passes over an element.
  abbrev pub Added :
      ⦃scaling : Scaling Factor⦄
      → Memory A
      → ArrayList Factor A
      → Iteration
      → A
      → ArrayList Factor A × Iteration × Outcome (Unit {0}) × List (Event A)
      → Type 0
  Added memory list iteration x (after, moved, ok u, events) =
      Inserted memory list (some iteration.cursor) (x ∷ []) (after, ok u, events)
      × (moved.cursor ≡ iteration.cursor + 1)
      × (moved.modification_count ≡ after.modification_count)
      × ((previous after moved).1 ≡ ok x)
      × ((next after moved).1 ≡ (next list iteration).1)
  Added memory list iteration x (after, moved, err e, events) =
      (after ≡ list)
      × (e ≡ memory_allocation)
      × (events ≡ [])
      × (IsAtLimit list.growth_factor list.capacity (list.size + 1) ⊎ Refuses memory)
      × (moved.modification_count ≡ list.modification_count)
      × (iteration.cursor + 1 < list.size
          → (next after moved).1 ≡ ok (cell list.elements (iteration.cursor + 1)))

  previous_returns :
      (list : ArrayList Factor A) (iteration : Iteration)
      → iteration.modification_count ≡ list.modification_count
      → 0 < iteration.cursor
      → (previous list iteration).1 ≡ ok (cell list.elements (iteration.cursor - 1))
  unfolding previous has_previous
  previous_returns list iteration fresh more = rw (==_of_eq _ _ fresh, lt→ltb _ _ more)

  next_returns :
      (list : ArrayList Factor A) (iteration : Iteration)
      → iteration.modification_count ≡ list.modification_count
      → iteration.cursor < list.size
      → (next list iteration).1 ≡ ok (cell list.elements iteration.cursor)
  unfolding next has_next
  next_returns list iteration fresh more = rw (==_of_eq _ _ fresh, lt→ltb _ _ more)

  next_ends :
      (list : ArrayList Factor A) (iteration : Iteration)
      → iteration.modification_count ≡ list.modification_count
      → list.size ≤ iteration.cursor
      → (next list iteration).1 ≡ err no_such_element
  unfolding next has_next
  next_ends list iteration fresh done = rw (==_of_eq _ _ fresh, le→ltb_false _ _ done)

  module _ (list after : ArrayList Factor A) (iteration : Iteration) (x : A)
      (inside : iteration.cursor ≤ list.size)
      (now : contents after
        ≡ take iteration.cursor (contents list)
          ++ (x ∷ drop iteration.cursor (contents list))) where
    added-size : after.size ≡ list.size + 1
    added-size = omega (
      arith,
      length-contents list,
      length-contents after,
      ap length now,
      length-put_in iteration.cursor (contents list) (x ∷ []),
    )

    added_here : cell after.elements iteration.cursor ≡ x
    added_here =
        sym (contents_at after iteration.cursor (omega (arith, added-size)))
        ∙ ap (λ (c : List A). get_or c iteration.cursor pointer.null) now
        ∙ get_or-put_in iteration.cursor (contents list) (x ∷ []) iteration.cursor pointer.null
            (omega (arith, length-contents list))
        ∙ ground (
          arith,
          ap (λ (j : ℕ). get_or (x ∷ []) j pointer.null) {x = iteration.cursor - iteration.cursor}
              {y = 0},
        )

    added_behind :
        iteration.cursor < list.size
        → cell after.elements (iteration.cursor + 1) ≡ cell list.elements iteration.cursor
    added_behind more =
        sym (contents_at after (iteration.cursor + 1) (omega (arith, added-size)))
        ∙ ap (λ (c : List A). get_or c (iteration.cursor + 1) pointer.null) now
        ∙ get_or-put_in iteration.cursor (contents list) (x ∷ []) (iteration.cursor + 1)
            pointer.null (omega (arith, length-contents list))
        ∙ ground (
          arith,
          ap (λ (j : ℕ). get_or (contents list) j pointer.null) {x = iteration.cursor + 1 - 1}
              {y = iteration.cursor},
        )
        ∙ contents_at list iteration.cursor more

    next-moved_on :
        iteration.modification_count ≡ list.modification_count
        → (next after (moved_on after iteration)).1 ≡ (next list iteration).1
    next-moved_on fresh = elim (Bool-cases (ltb iteration.cursor list.size)) [
      | inl more ↦
          next_returns after (moved_on after iteration) refl
            (omega (arith, added-size, ltb→lt iteration.cursor list.size more))
          ∙ ap ok (added_behind (ltb→lt iteration.cursor list.size more))
          ∙ sym (next_returns list iteration fresh (ltb→lt iteration.cursor list.size more))
      | inr done ↦
          next_ends after (moved_on after iteration) refl (ground (arith, added-size))
          ∙ sym (next_ends list iteration fresh (ground arith))
    ]

  module _ ⦃scaling : Scaling Factor⦄ (memory : Memory A) (list : ArrayList Factor A)
      (iteration : Iteration) (x : A)
      (fresh : iteration.modification_count ≡ list.modification_count) where
    Inserted-Added :
        (r : ArrayList Factor A × Outcome (Unit {0}) × List (Event A))
        → iteration.cursor ≤ list.size
        → Inserted memory list (some iteration.cursor) (x ∷ []) r
        → Added memory list iteration x (r.0, moved_on r.0 iteration, r.1, r.2)
    Inserted-Added (after, ok u, events) inside (i, c, now, free) = (
      (i, c, now, free),
      refl,
      refl,
      previous_returns after (moved_on after iteration) refl (omega arith)
          ∙ ap (λ (j : ℕ). ok (cell after.elements j)) (omega arith)
          ∙ ap ok (added_here list after iteration x inside now),
      next-moved_on list after iteration x inside now fresh,
    )
    Inserted-Added (after, err e, events) inside (same, quiet, inl (is, far)) = absurd (omega arith)
    Inserted-Added (after, err e, events) inside (same, quiet, inr (is, _, why)) = (
      same,
      is,
      quiet,
      why,
      ap (λ (l : ArrayList Factor A). l.modification_count) same,
      λ more.
          next_returns after (moved_on after iteration) refl
            (omega (arith, ap (λ (l : ArrayList Factor A). l.size) same))
          ∙ ap (λ (l : ArrayList Factor A). ok (cell l.elements (iteration.cursor + 1))) same,
    )

    -- Where a block that is handed out has the size asked for and memory_realloc keeps the cells
    -- that both blocks have: with a growth factor that makes capacities grow and leaves them
    -- within the greatest capacity, iterator_add by an iterator of a valid array list that is not
    -- disturbed and in range inserts the element before the cursor; a step back then returns it,
    -- and a step on returns what it returned before, or fails as before. Where growth by the
    -- factor from the capacity comes to one below the size + 1 that the guard does not let grow,
    -- or the allocator refuses, it reports MEMORY_ALLOCATION_ERROR and leaves the list as it was,
    -- but the cursor has moved, so that the next step passes over an element.
    pub iterator_add_inserts :
        IsSound memory
        → IsValid list
        → IsGrowing list.growth_factor
        → IsBounded list.growth_factor
        → iteration.cursor ≤ list.size
        → Added memory list iteration x (iterator_add memory list iteration x)
    unfolding iterator_add
    iterator_add_inserts sound valid growing bounded inside = rw (==_of_eq _ _ fresh) (
        Inserted-Added (add memory list (pos iteration.cursor) x) inside
          (add_inserts memory sound list valid growing bounded (pos iteration.cursor) x))
