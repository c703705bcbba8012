-- ===== src/ArrayList/Delete.antt =====
-- The methods that remove elements: at an index, in a range, and where a test passes.
use libcdsa.Core.Cells.{cell}
use libcdsa.Base.{
  ℕ, suc, ◌+◌, ◌-◌, ◌≤◌, ◌<◌, ◌≡◌, ◌⊎◌, refl, ap, ◌∙◌, arith, inl, inr, Bool-cases, Option, none,
  some, List, [], ◌∷◌, ◌++◌, length, take, drop, get_or, set, length-set, get_or-set, ltb, ◌==◌,
  ltb→lt, lt→ltb,
}
use libcdsa.Base.Int.{ℤ, pos, to_ℕ?}
use libcdsa.Base.Slices.{get_or-cut, length-cut, split_at}
use libcdsa.Core.{
  Pointer, Event, Outcome, ok, err, index_out_of_bounds, no_such_element, destructed,
}
use libcdsa.ArrayList.{ArrayList, move_down, delete, remove_at, remove, remove_first, remove_last}
use libcdsa.ArrayList.Inv.{IsValid, Changed, contents, length-contents, contents_at, cells_from_ext}
use libcdsa.ArrayList.Moves.{cell-move_down, length-move_down}

module _ {Factor : Type 0} {A : Type 0} ⦃pointer : Pointer A⦄ where
  -- How a removal at an index ends; `none` is a negative index.
  abbrev pub Removed :
      ArrayList Factor A → Option ℕ → ArrayList Factor A × Outcome A × List (Event A) → Type 0
  Removed list none outcome = outcome ≡ (list, err index_out_of_bounds, [])
  Removed list (some index) (after, ok x, events) =
      (index < list.size)
      × Changed list after
      × (contents after ≡ take index (contents list) ++ drop (index + 1) (contents list))
      × (contents list ≡ take index (contents list) ++ (x ∷ drop (index + 1) (contents list)))
      × (events ≡ destructed list.destruct x ∷ [])
  Removed list (some index) (after, err e, events) =
      (list.size ≤ index) × (e ≡ index_out_of_bounds) × (after ≡ list) × (events ≡ [])

  pub delete-contents :
      (list : ArrayList Factor A) (index : ℕ)
      → index < list.size
      → list.size ≤ length list.elements
      → contents (delete list index)
        ≡ take index (contents list) ++ drop (index + 1) (contents list)
  unfolding delete
  delete-contents list index inside room =
      let c = contents list in
      let cleared = set list.elements index pointer.null in
      let size = length-contents list in
      let whole = length-set list.elements index pointer.null in
      cells_from_ext (move_down cleared index (list.size - 1 - index)) (list.size - 1)
        (take index c ++ drop (index + 1) c) (omega (arith, length-cut index (index + 1) c, size))
        (λ k h. ground (
          arith,
          size,
          whole,
          contents_at list k,
          contents_at list (k + 1),
          get_or-cut index (index + 1) c k pointer.null,
          cell-move_down cleared index (list.size - 1 - index) k,
          get_or-set list.elements index k pointer.null pointer.null,
          get_or-set list.elements index (k + 1) pointer.null pointer.null,
          ap (λ (j : ℕ). get_or c j pointer.null) {x = index + 1 + (k - index)} {y = k + 1},
        ))

  pub delete-size : (list : ArrayList Factor A) (n : ℕ) → (delete list n).size ≡ list.size - 1
  unfolding delete
  delete-size list n = refl

  pub delete-Changed :
      (list : ArrayList Factor A) (index : ℕ) → IsValid list → Changed list (delete list index)
  unfolding delete
  delete-Changed list index valid = record {
    valid = record {
      storage =
          length-move_down (set list.elements index pointer.null) index (list.size - 1 - index)
          ∙ length-set list.elements index pointer.null
          ∙ valid.storage;
      large = valid.large;
      small = valid.small;
      size_in = omega (arith, valid.size_in);
    };
    same_factor = refl;
    same_destruct = refl;
    counted = refl;
  }

  contents_split :
      (list : ArrayList Factor A) (index : ℕ)
      → index < list.size
      → contents list
        ≡ take index (contents list)
          ++ (cell list.elements index ∷ drop (index + 1) (contents list))
  contents_split list index inside =
      let c = contents list in
      let here = contents_at list index inside in
      let next : suc index ≡ index + 1 = omega arith in
      split_at index c pointer.null (omega (arith, length-contents list)) ∙ rw (here, next)

  pub remove_at-Removed :
      (list : ArrayList Factor A) (index : Option ℕ)
      → IsValid list
      → Removed list index (remove_at list index)
  unfolding remove_at
  remove_at-Removed list none valid = refl
  remove_at-Removed list (some index) valid = elim (Bool-cases (ltb index list.size)) [
    | inl near ↦
        let inside = ltb→lt index list.size near in
        rw (remove_at, near)
          (
            inside,
            delete-Changed list index valid,
            delete-contents list index inside (omega (arith, valid.storage, valid.size_in)),
            contents_split list index inside,
            refl,
          )
    | inr far ↦ rw (remove_at, far) (ground arith, refl, refl, refl)
  ]

  -- Array_list_remove on a valid list takes out the element at an index in range, closes the gap,
  -- returns the element and passes it to the destructor once, and leaves a valid list with one
  -- modification counted; for any other index it reports INDEX_OUT_OF_BOUNDS_ERROR and changes
  -- nothing.
  pub remove_deletes :
      (list : ArrayList Factor A) (index : ℤ)
      → IsValid list
      → Removed list (to_ℕ? index) (remove list index)
  unfolding remove
  remove_deletes list index valid = remove_at-Removed list (to_ℕ? index) valid

  pub remove-delete :
      (list : ArrayList Factor A) (n : ℕ)
      → n < list.size
      → remove list (pos n) ≡ (
        delete list n,
        ok (cell list.elements n),
        destructed list.destruct (cell list.elements n) ∷ [],
      )
  unfolding remove remove_at
  remove-delete list n h = rw (lt→ltb n list.size h)

  -- How a removal at an end goes.
  abbrev pub RemovedEnd :
      ArrayList Factor A → ℕ → ArrayList Factor A × Outcome A × List (Event A) → Type 0
  RemovedEnd list index outcome =
      ((list.size ≡ 0) × (outcome ≡ (list, err no_such_element, [])))
      ⊎ ((0 < list.size) × Removed list (some index) outcome)

  pub remove_ends :
      (list : ArrayList Factor A)
      → IsValid list
      → RemovedEnd list 0 (remove_first list) × RemovedEnd list (list.size - 1) (remove_last list)
  unfolding remove_first remove_last remove
  remove_ends list valid = elim (Bool-cases (list.size == 0)) [
    | inl empty ↦ (
      rw (remove_first, empty) (inl (ground arith, refl)),
      rw (remove_last, empty) (inl (ground arith, refl)),
    )
    | inr more ↦ (
      rw (remove_first, more) (inr (ground arith, remove_at-Removed list (some 0) valid)),
      rw (remove_last, more)
          (inr (ground arith, remove_at-Removed list (some (list.size - 1)) valid)),
    )
  ]
