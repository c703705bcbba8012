-- ===== src/ArrayList/Insert.antt =====
-- `array_list_add` and `array_list_add_all` insert a list before an index.
use libcdsa.Core.Cells.{cell}
use libcdsa.Core.Growing.{Scaling, IsGrowing, IsBounded, IsAtLimit}
use libcdsa.Base.{
  ℕ, ◌+◌, ◌-◌, ◌^◌, ◌≤◌, ◌<◌, ◌≡◌, ◌⊎◌, refl, ap, ◌∙◌, arith, inl, inr, Bool, true, false,
  Bool-cases, Option, none, some, List, [], ◌∷◌, ◌++◌, length, take, drop, get_or, ltb, ltb→lt,
  if◌then◌else◌, write_from, length-write_from,
}
use libcdsa.Base.Int.{ℤ, to_ℕ?}
use libcdsa.Base.Slices.{get_or-put_in, length-put_in}
use libcdsa.Core.{
  Pointer, Event, Outcome, ok, err, index_out_of_bounds, memory_allocation, Collection, IsFaithful,
  bump,
}
use libcdsa.ArrayList.{ArrayList, Memory, ensure_capacity, insert, add_at, add, move_up}
use libcdsa.ArrayList.Bulk.{insert_all, fill_at, add_all_at, add_all}
use libcdsa.ArrayList.Inv.{IsValid, Changed, contents, length-contents, contents_at, cells_from_ext}
use libcdsa.ArrayList.Room.{IsSound, Refuses, given_back, IsMoved, Moved, IsMoved-contents}
use libcdsa.ArrayList.Capacity.{ensure_capacity-Moved}
use libcdsa.ArrayList.Moves.{cell-move_up, length-move_up, cell-write_from}

module _ {Factor : Type 0} {A : Type 0} ⦃pointer : Pointer A⦄ where
  -- How an insertion of `xs` before an index ends; `none` is a negative index.
  abbrev pub Inserted :
      ⦃scaling : Scaling Factor⦄
      → Memory A
      → ArrayList Factor A
      → Option ℕ
      → List A
      → ArrayList Factor A × Outcome (Unit {0}) × List (Event A)
      → Type 0
  Inserted memory list none xs outcome = outcome ≡ (list, err index_out_of_bounds, [])
  Inserted memory list (some index) xs (after, ok _, events) =
      (index ≤ list.size)
      × Changed list after
      × (contents after ≡ take index (contents list) ++ (xs ++ drop index (contents list)))
      × (events ≡ given_back memory list.capacity (list.size + length xs))
  Inserted memory list (some index) xs (after, err e, events) =
      (after ≡ list)
      × (events ≡ [])
      × ((e ≡ index_out_of_bounds) × (list.size < index)
          ⊎ (e ≡ memory_allocation)
            × (index ≤ list.size)
            × (IsAtLimit list.growth_factor list.capacity (list.size + length xs) ⊎ Refuses memory))

  -- How an insertion of a collection ends, by its iterator.
  abbrev pub InsertedAll :
      ⦃scaling : Scaling Factor⦄
      → Memory A
      → ArrayList Factor A
      → Option ℕ
      → Outcome (List A)
      → ArrayList Factor A × Outcome (Unit {0}) × List (Event A)
      → Type 0
  InsertedAll memory list none xs outcome = outcome ≡ (list, err index_out_of_bounds, [])
  InsertedAll memory list (some index) (ok xs) outcome =
      Inserted memory list (some index) xs outcome
  InsertedAll memory list (some index) (err e) outcome =
      (outcome ≡ (list, err index_out_of_bounds, [])) × (list.size < index)
      ⊎ (outcome ≡ (list, err e, [])) × (index ≤ list.size)

  insert_all-contents :
      (list : ArrayList Factor A) (index : ℕ) (xs : List A)
      → index ≤ list.size
      → list.size + length xs ≤ length list.elements
      → contents (insert_all list index (length xs) xs)
        ≡ take index (contents list) ++ (xs ++ drop index (contents list))
  unfolding insert_all
  insert_all-contents list index xs inside room =
      let c = contents list in
      let moved = move_up list.elements index (length xs) (list.size - index) in
      let size = length-contents list in
      let whole = length-move_up list.elements index (length xs) (list.size - index) in
      cells_from_ext (write_from moved index xs) (list.size + length xs)
        (take index c ++ (xs ++ drop index c)) (omega (arith, length-put_in index c xs, size))
        (λ k h.
          let before : k < list.size → get_or c k pointer.null ≡ cell list.elements k =
            contents_at list k in
          let behind : k - length xs < list.size
              → get_or c (k - length xs) pointer.null ≡ cell list.elements (k - length xs) =
            contents_at list (k - length xs) in
          ground (
            arith,
            size,
            whole,
            before,
            behind,
            get_or-put_in index c xs k pointer.null,
            cell-write_from moved index xs k,
            cell-move_up list.elements index (length xs) (list.size - index) k,
          ))

  insert-insert_all :
      (list : ArrayList Factor A) (index : ℕ) (x : A)
      → insert list index x ≡ insert_all list index (length (x ∷ [])) (x ∷ [])
  unfolding insert insert_all write_from
  insert-insert_all list index x = refl

  pub insert-contents :
      (list : ArrayList Factor A) (index : ℕ) (x : A)
      → index ≤ list.size
      → list.size < length list.elements
      → contents (insert list index x)
        ≡ take index (contents list) ++ (x ∷ drop index (contents list))
  insert-contents list index x inside room =
      ap contents (insert-insert_all list index x)
      ∙ insert_all-contents list index (x ∷ []) inside (omega arith)

  insert_all-Changed :
      (P : ℕ → Type 0) (list moved : ArrayList Factor A) (index : ℕ) (xs : List A)
      → IsMoved P list moved
      → moved.size + length xs ≤ moved.capacity
      → Changed list (insert_all moved index (length xs) xs)
  unfolding insert_all
  insert_all-Changed P list moved index xs m room = record {
    valid = record {
      storage =
          length-write_from (move_up moved.elements index (length xs) (moved.size - index)) index xs
          ∙ length-move_up moved.elements index (length xs) (moved.size - index)
          ∙ m.valid.storage;
      large = m.valid.large;
      small = m.valid.small;
      size_in = room;
    };
    same_factor = m.same_factor;
    same_destruct = m.same_destruct;
    counted = ap (λ (n : ℕ). bump n) m.same_count;
  }

  module _ ⦃scaling : Scaling Factor⦄ (memory : Memory A) (sound : IsSound memory)
      (list : ArrayList Factor A) (valid : IsValid list) (growing : IsGrowing list.growth_factor)
      (bounded : IsBounded list.growth_factor) where
    -- What follows the answer of `ensure_capacity`.
    finish :
        (index : ℕ) (xs : List A) (fits : Bool) (roomy : ArrayList Factor A)
        (events : List (Event A))
        → index ≤ list.size
        → Moved
            (λ c. list.size + length xs ≤ c)
            (IsAtLimit list.growth_factor list.capacity (list.size + length xs) ⊎ Refuses memory)
            (given_back memory list.capacity (list.size + length xs))
            list
            (fits, roomy, events)
        → Inserted memory list (some index) xs (
            if fits
            then (insert_all roomy index (length xs) xs, ok tt, events)
            else (list, err memory_allocation, events))
    finish index xs true roomy events inside (m, free) =
        let room = m.capacity_as in
        let size = m.same_size in
        (
          inside,
          insert_all-Changed _ list roomy index xs m (omega (arith, m.same_size)),
          insert_all-contents roomy index xs (omega (arith, m.same_size))
                (omega (arith, m.same_size, m.valid.storage))
              ∙ ap (λ (c : List A). take index c ++ (xs ++ drop index c)) (IsMoved-contents m),
          free,
        )
    finish index xs false roomy events inside (same, quiet, q) =
        (refl, quiet, inr (refl, inside, q))

    outside :
        (index : ℕ) (xs : List A)
        → list.size < index
        → Inserted memory list (some index) xs (list, err index_out_of_bounds, [])
    outside index xs h = (refl, refl, inl (refl, h))

    pub add_at-Inserted :
        (index : Option ℕ) (x : A)
        → Inserted memory list index (x ∷ []) (add_at memory list index x)
    unfolding add_at
    add_at-Inserted none x = refl
    add_at-Inserted (some index) x = elim (Bool-cases (ltb list.size index)) [
      | inl far ↦ rw (add_at, far) (outside index (x ∷ []) (ltb→lt list.size index far))
      | inr near ↦
          let (fits, roomy, events) = ensure_capacity memory list (list.size + 1) in
          rw (add_at, near, insert-insert_all roomy index x)
            (finish index (x ∷ []) fits roomy events (ground arith)
              (ensure_capacity-Moved memory sound list valid growing bounded (list.size + 1)))
    ]

    -- Where a block that is handed out has the size asked for and memory_realloc keeps the cells
    -- that both blocks have: with a growth factor that makes capacities grow and leaves them
    -- within the greatest capacity, array_list_add on a valid list reports
    -- INDEX_OUT_OF_BOUNDS_ERROR for an index that is negative or above the size, and otherwise
    -- leaves a valid list with the element inserted before that index, with the same factor and
    -- destructor and one modification counted, and gives the old array back exactly where it was
    -- full and memory_realloc is null, or reports MEMORY_ALLOCATION_ERROR because growth by the
    -- factor from the capacity comes to one below the size + 1 that the guard does not let grow,
    -- or the allocator refuses; an error leaves the list as it was.
    pub add_inserts :
        (index : ℤ) (x : A) → Inserted memory list (to_ℕ? index) (x ∷ []) (add memory list index x)
    unfolding add
    add_inserts index x = add_at-Inserted (to_ℕ? index) x

    fill_at-Inserted :
        (index : ℕ) (xs : List A) (n : ℕ)
        → n ≡ length xs
        → index ≤ list.size
        → Inserted memory list (some index) xs (fill_at memory list index n (ok xs))
    unfolding fill_at
    fill_at-Inserted index xs n e inside =
        let (fits, roomy, events) = ensure_capacity memory list (list.size + length xs) in
        rw e (
          finish index xs fits roomy events inside
            (ensure_capacity-Moved memory sound list valid growing bounded (list.size + length xs)))

    fill_at-InsertedAll :
        (index n : ℕ) (iterator : Outcome (List A))
        → ((xs : List A) → iterator ≡ ok xs → n ≡ length xs)
        → index ≤ list.size
        → InsertedAll memory list (some index) iterator (fill_at memory list index n iterator)
    unfolding fill_at
    fill_at-InsertedAll index n (ok xs) faithful inside =
        fill_at-Inserted index xs n (faithful xs refl) inside
    fill_at-InsertedAll index n (err e) faithful inside = inr (refl, inside)

    outside_all :
        (index : ℕ) (iterator : Outcome (List A))
        → list.size < index
        → InsertedAll memory list (some index) iterator (list, err index_out_of_bounds, [])
    outside_all index (ok xs) h = outside index xs h
    outside_all index (err e) h = inl (refl, h)

    add_all_at-InsertedAll :
        (index : Option ℕ) (collection : Collection A)
        → IsFaithful collection
        → InsertedAll memory list index collection.iterator
            (add_all_at memory list index collection)
    unfolding add_all_at
    add_all_at-InsertedAll none collection faithful = refl
    add_all_at-InsertedAll (some index) collection faithful =
        elim (Bool-cases (ltb list.size index)) [
          | inl far ↦
              rw (add_all_at, far)
                (outside_all index collection.iterator (ltb→lt list.size index far))
          | inr near ↦
              rw (add_all_at, near)
                (fill_at-InsertedAll index collection.size collection.iterator faithful
                  (ground arith))
        ]

    -- Where a block that is handed out has the size asked for and memory_realloc keeps the cells
    -- that both blocks have: where the sum of the sizes is an int, with a growth factor that makes
    -- capacities grow and leaves them within the greatest capacity and a collection that announces
    -- as many elements as it yields, array_list_add_all on a valid list inserts the elements of
    -- the collection before an index in range, or leaves the list as it was and reports
    -- INDEX_OUT_OF_BOUNDS_ERROR for an index out of range, the error of the iterator of the
    -- collection, or MEMORY_ALLOCATION_ERROR where growth by the factor comes to a capacity below
    -- what is needed that the guard does not let grow, or the allocator refuses.
    pub add_all_inserts :
        (index : ℤ) (collection : Collection A)
        → IsFaithful collection
        → list.size + collection.size < 2 ^ 31
        → InsertedAll memory list
            (to_ℕ? index)
            collection.iterator
            (add_all memory list index collection)
    unfolding add_all
    add_all_inserts index collection faithful fits =
        add_all_at-InsertedAll (to_ℕ? index) collection faithful
