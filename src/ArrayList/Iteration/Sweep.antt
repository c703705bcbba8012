-- ===== src/ArrayList/Iteration/Sweep.antt =====
-- A client that goes through an array list and removes elements by the iterator.
use mathlib.Core.List.{append-nil, append_assoc}
use libcdsa.Core.Cells.{cell}
use libcdsa.Base.{
  ℕ, zero, suc, ◌+◌, ◌-◌, ◌<◌, ◌≡◌, refl, sym, ap, ap₂, ◌∙◌, arith, inl, inr, Bool, true, false,
  not, Bool-cases, List, [], ◌∷◌, ◌++◌, length, take, drop, length-take, lt→ltb, ==_of_eq,
}
use libcdsa.Base.Int.{pos, negsuc}
use libcdsa.Base.Search.{filter}
use libcdsa.Base.Slices.{take-suc, drop-suc, take_append, drop_append, take_all, drop_all}
use libcdsa.Core.{Pointer, Outcome, ok, err, destructed}
use libcdsa.ArrayList.{ArrayList, delete}
use libcdsa.ArrayList.Inv.{IsValid, contents, length-contents, contents_at}
use libcdsa.ArrayList.Delete.{delete-size, delete-contents, delete-Changed, remove-delete}
use libcdsa.ArrayList.Iteration.{Iteration, has_next, next, iterator_remove, remove_returned, reset}

module _ {ℓ} {Factor : Type 0} {A : Type ℓ} ⦃pointer : Pointer A⦄ (condition : A → Bool) where
  -- One round of a client: a step, and a removal where the element passes.
  unfoldable pub visit : ArrayList Factor A → Iteration × Outcome A → ArrayList Factor A × Iteration
  visit list (iteration, err e) = (list, iteration)
  visit list (iteration, ok x) = elim (condition x) [
    | true ↦ let (after, moved, r, events) = iterator_remove list iteration in (after, moved)
    | false ↦ (list, iteration)
  ]

  -- `while (iterator_has_next(it)) { … }`, for at most `n` rounds.
  unfoldable pub sweep : ℕ → ArrayList Factor A → Iteration → ArrayList Factor A × Iteration
  sweep zero list iteration = (list, iteration)
  sweep (suc n) list iteration = elim (has_next list iteration) [
    | false ↦ (list, iteration)
    | true ↦ let (after, moved) = visit list (next list iteration) in sweep n after moved
  ]

module _ {Factor : Type 0} {A : Type 0} ⦃pointer : Pointer A⦄ where
  next-here :
      (list : ArrayList Factor A) (iteration : Iteration)
      → iteration.modification_count ≡ list.modification_count
      → iteration.cursor < list.size
      → next list iteration ≡ (
        record iteration { cursor = iteration.cursor + 1; last_returned = pos iteration.cursor },
        ok (cell list.elements iteration.cursor),
      )
  unfolding next has_next
  next-here list iteration fresh more = rw (==_of_eq _ _ fresh, lt→ltb _ _ more)

  -- After a step, `remove` takes out the element that the step returned, and the iterator is where
  -- it was.
  remove-here :
      (list : ArrayList Factor A) (iteration : Iteration) (i : ℕ)
      → iteration.modification_count ≡ list.modification_count
      → iteration.last_returned ≡ pos i
      → iteration.cursor ≡ i + 1
      → i < list.size
      → iterator_remove list iteration ≡ (
        delete list i,
        record {
          cursor = i;
          last_returned = negsuc 0;
          modification_count = (delete list i).modification_count;
        },
        ok (cell list.elements i),
        destructed list.destruct (cell list.elements i) ∷ [],
      )
  unfolding iterator_remove remove_returned
  remove-here list iteration i fresh last at inside =
      let before : i + 1 - 1 ≡ i = omega arith in
      rw (
        ==_of_eq iteration.modification_count list.modification_count fresh,
        last,
        iterator_remove,
        remove_returned,
        remove-delete list i inside,
        at,
        lt→ltb i (i + 1) (omega arith),
        before,
      )

  -- The loop from a cursor on: what lies before stays, the rest is filtered, and the iterator is at
  -- the end.
  pub record Swept (condition : A → Bool) (list : ArrayList Factor A) (at : ℕ)
      (outcome : ArrayList Factor A × Iteration) : Type 0 where
    pub valid : IsValid outcome.0
    pub left :
        contents outcome.0
        ≡ take at (contents list) ++ filter (λ x. not (condition x)) (drop at (contents list))
    pub at_end : outcome.1.cursor ≡ outcome.0.size
    pub fresh : outcome.1.modification_count ≡ outcome.0.modification_count

  module _ (condition : A → Bool) where
    sweep-done :
        (n : ℕ) (list : ArrayList Factor A) (iteration : Iteration)
        → has_next list iteration ≡ false
        → sweep condition n list iteration ≡ (list, iteration)
    unfolding sweep
    sweep-done zero list iteration h = refl
    sweep-done (suc n) list iteration h = rw (sweep, h)

    sweep-pass :
        (n : ℕ) (list : ArrayList Factor A) (iteration : Iteration)
        → iteration.modification_count ≡ list.modification_count
        → iteration.cursor < list.size
        → condition (cell list.elements iteration.cursor) ≡ false
        → sweep condition (suc n) list iteration
          ≡ sweep condition n list (record iteration {
            cursor = iteration.cursor + 1;
            last_returned = pos iteration.cursor;
          })
    unfolding sweep has_next visit
    sweep-pass n list iteration fresh more e = rw (
      sweep,
      lt→ltb _ _ more,
      next-here list iteration fresh more,
      visit,
      e,
      next-here list iteration fresh more,
    )

    sweep-remove :
        (n : ℕ) (list : ArrayList Factor A) (iteration : Iteration)
        → iteration.modification_count ≡ list.modification_count
        → iteration.cursor < list.size
        → condition (cell list.elements iteration.cursor) ≡ true
        → sweep condition (suc n) list iteration
          ≡ sweep condition n (delete list iteration.cursor) (record {
            cursor = iteration.cursor;
            last_returned = negsuc 0;
            modification_count = (delete list iteration.cursor).modification_count;
          })
    unfolding sweep has_next visit
    sweep-remove n list iteration fresh more e =
        let stepped = record iteration {
          cursor = iteration.cursor + 1;
          last_returned = pos iteration.cursor;
        } in
        rw (
          sweep,
          lt→ltb _ _ more,
          next-here list iteration fresh more,
          visit,
          e,
          next-here list iteration fresh more,
          remove-here list stepped iteration.cursor fresh refl refl more,
        )

    Swept-pass :
        (list : ArrayList Factor A) (i : ℕ) (outcome : ArrayList Factor A × Iteration)
        → i < list.size
        → condition (cell list.elements i) ≡ false
        → Swept condition list (i + 1) outcome
        → Swept condition list i outcome
    Swept-pass list i outcome inside e s =
        let c = contents list in
        let keep = λ (x : A). not (condition x) in
        let small : i < length c = omega (arith, length-contents list) in
        let next_one : i + 1 ≡ suc i = omega arith in
        let here = contents_at list i inside in
        record {
          valid = s.valid;
          left =
              s.left
              ∙ rw
                  (
                    next_one,
                    take-suc i c pointer.null small,
                    drop-suc i c pointer.null small,
                    here,
                    e,
                  )
                  (append_assoc (take i c) (cell list.elements i ∷ [])
                    (filter keep (drop (suc i) c)));
          at_end = s.at_end;
          fresh = s.fresh;
        }

    Swept-remove :
        (list : ArrayList Factor A) (i : ℕ) (outcome : ArrayList Factor A × Iteration)
        → IsValid list
        → i < list.size
        → condition (cell list.elements i) ≡ true
        → Swept condition (delete list i) i outcome
        → Swept condition list i outcome
    Swept-remove list i outcome valid inside e s =
        let c = contents list in
        let small : i < length c = omega (arith, length-contents list) in
        let size : length (take i c) ≡ i = length-take i c (omega arith) in
        let next_one : i + 1 ≡ suc i = omega arith in
        let cut : contents (delete list i) ≡ take i c ++ drop (i + 1) c =
          delete-contents list i inside (omega (arith, valid.storage, valid.size_in)) in
        let first : take i (take i c ++ drop (i + 1) c) ≡ take i c =
          ap (λ (m : ℕ). take m (take i c ++ drop (i + 1) c)) (sym size)
          ∙ take_append (take i c) (drop (i + 1) c) in
        let rest : drop i (take i c ++ drop (i + 1) c) ≡ drop (i + 1) c =
          ap (λ (m : ℕ). drop m (take i c ++ drop (i + 1) c)) (sym size)
          ∙ drop_append (take i c) (drop (i + 1) c) in
        let here = contents_at list i inside in
        record {
          valid = s.valid;
          left = s.left ∙ rw (cut, first, rest, next_one, drop-suc i c pointer.null small, here, e);
          at_end = s.at_end;
          fresh = s.fresh;
        }

    sweep-Swept :
        (n : ℕ) (list : ArrayList Factor A) (iteration : Iteration)
        → IsValid list
        → iteration.modification_count ≡ list.modification_count
        → iteration.cursor + n ≡ list.size
        → Swept condition list iteration.cursor (sweep condition n list iteration)
    unfolding sweep
    sweep-Swept zero list iteration valid fresh h =
        let c = contents list in
        let size : length c ≡ iteration.cursor = omega (arith, length-contents list) in
        record {
          valid = valid;
          left = sym (
              rw (sym size) (
                ap₂ (λ (xs ys : List A). xs ++ filter (λ x. not (condition x)) ys) (take_all c)
                  (drop_all c)
                ∙ append-nil c));
          at_end = omega arith;
          fresh = fresh;
        }
    sweep-Swept (suc n) list iteration valid fresh h =
        let i = iteration.cursor in
        let more : i < list.size = omega arith in
        elim (Bool-cases (condition (cell list.elements i))) [
          | inl e ↦ rw (sweep-remove n list iteration fresh more e) (
              Swept-remove list i _ valid more e (
                sweep-Swept n (delete list i) _ (delete-Changed list i valid).valid refl
                  (omega (arith, delete-size list i))))
          | inr e ↦
              rw (sweep-pass n list iteration fresh more e)
                (Swept-pass list i _ more e (sweep-Swept n list _ valid fresh (omega arith)))
        ]

    -- A client that resets an iterator of a valid array list and goes on while it has a next
    -- element, removing by the iterator the elements that pass a test, reaches the end of the list
    -- within as many rounds as the list had elements, with an iterator that is not stale and a
    -- valid list of the elements that fail the test, in order.
    pub sweep_filters :
        (list : ArrayList Factor A) (iteration : Iteration)
        → IsValid list
        → Swept condition list 0 (sweep condition list.size list (reset list iteration))
    unfolding reset
    sweep_filters list iteration valid =
        sweep-Swept list.size list (reset list iteration) valid refl (omega arith)
