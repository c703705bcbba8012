-- ===== src/ArrayList/Removal.antt =====
-- The methods of the array list that remove or replace many elements. A test on elements is the
-- `condition` of `array_list_remove_if`, or whether a collection contains them.
pub mod Range
mod Filtering
pub mod Where
pub mod Replace
use libcdsa.Core.Cells.{cells_from, swap, empty_out}
use libcdsa.Base.{
  ℕ, zero, suc, ◌+◌, ◌-◌, Bool, true, false, not, ◌||◌, Option, none, some, List, [], ◌∷◌, ◌++◌,
  map, ltb, leb, if◌then◌else◌, get_or, set,
}
use libcdsa.Base.Int.{ℤ, pos, to_ℕ?}
use libcdsa.Core.{
  Pointer, Event, Outcome, ok, err, index_out_of_bounds, destructed, Destructor, bump,
}
use libcdsa.ArrayList.{ArrayList, remove}

module _ {ℓ} {A : Type ℓ} ⦃pointer : Pointer A⦄ where
  -- The writes of one round of the loop of `array_list_remove_range`; `last` is
  -- `old_size - count`.
  unfoldable pub range_step : List A → ℕ → ℕ → ℕ → ℕ → List A
  range_step elements end_index count last i =
      let moved =
        if ltb i end_index
        then elements
        else set elements (i - count) (get_or elements i pointer.null) in
      if leb last i then set moved i pointer.null else moved

  -- The array after the `n` rounds from `i` on.
  unfoldable pub range_loop : List A → ℕ → ℕ → ℕ → ℕ → ℕ → List A
  range_loop elements end_index count last i zero = elements
  range_loop elements end_index count last i (suc n) =
      range_loop (range_step elements end_index count last i) end_index count last (i + 1) n

  -- The elements that these rounds pass to the destructor.
  unfoldable pub range_destroyed : List A → ℕ → ℕ → ℕ → ℕ → ℕ → List A
  range_destroyed elements end_index count last i zero = []
  range_destroyed elements end_index count last i (suc n) =
      let rest =
        range_destroyed (range_step elements end_index count last i) end_index count last (i + 1)
          n in
      if ltb i end_index then get_or elements i pointer.null ∷ rest else rest

  -- The loop of `array_list_replace_all`, and the elements that it destroys; `same` is the test
  -- `old_element == new_element` on pointers.
  unfoldable pub replace_loop : (A → A) → List A → ℕ → ℕ → List A
  replace_loop operator elements i zero = elements
  replace_loop operator elements i (suc n) =
      replace_loop operator (set elements i (operator (get_or elements i pointer.null))) (i + 1) n

  unfoldable pub replaced : (A → A → Bool) → (A → A) → List A → ℕ → ℕ → List A
  replaced same operator elements i zero = []
  replaced same operator elements i (suc n) =
      let old_element = get_or elements i pointer.null in
      let new_element = operator old_element in
      let rest = replaced same operator (set elements i new_element) (i + 1) n in
      if same old_element new_element then rest else old_element ∷ rest

module _ {ℓ} {A : Type ℓ} {Factor : Type 0} ⦃pointer : Pointer A⦄ where
  unfoldable pub remove_range_at :
      ArrayList Factor A → Option ℕ → Option ℕ → ArrayList Factor A × Outcome ℕ × List (Event A)
  remove_range_at list none end = (list, err index_out_of_bounds, [])
  remove_range_at list (some start_index) none = (list, err index_out_of_bounds, [])
  remove_range_at list (some start_index) (some end_index) =
      let count = end_index - start_index in
      let last = list.size - count in
      let rounds = list.size - start_index in
      if ltb list.size end_index || ltb end_index start_index
      then (list, err index_out_of_bounds, [])
      else (
        record list {
          elements = range_loop list.elements end_index count last start_index rounds;
          size = list.size - count;
          modification_count = bump list.modification_count;
        },
        ok count,
        map (destructed list.destruct)
            (range_destroyed list.elements end_index count last start_index rounds),
      )

  unfoldable pub remove_range :
      ArrayList Factor A → ℤ → ℤ → ArrayList Factor A × Outcome ℕ × List (Event A)
  unfolding remove_range_at
  remove_range list start_index end_index =
      remove_range_at list (to_ℕ? start_index) (to_ℕ? end_index)

  -- The loop that `array_list_remove_if`, `array_list_remove_all` and `array_list_retain_all` share,
  -- from the index below `n` down.
  unfoldable pub where_loop :
      (A → Bool) → ℕ → ArrayList Factor A → ArrayList Factor A × ℕ × List (Event A)
  where_loop condition zero list = (list, 0, [])
  where_loop condition (suc n) list = elim (condition (get_or list.elements n pointer.null)) [
    | true ↦
        let (after, r, events) = remove list (pos n) in
        let (last, count, more) = where_loop condition n after in (last, count + 1, events ++ more)
    | false ↦ where_loop condition n list
  ]

  unfoldable pub remove_if :
      (A → Bool) → ArrayList Factor A → ArrayList Factor A × ℕ × List (Event A)
  remove_if condition list = where_loop condition list.size list

  -- `contains` is `collection_contains` of the collection.
  unfoldable pub remove_all :
      (A → Bool) → ArrayList Factor A → ArrayList Factor A × ℕ × List (Event A)
  remove_all contains list = where_loop contains list.size list

  unfoldable pub retain_all :
      (A → Bool) → ArrayList Factor A → ArrayList Factor A × ℕ × List (Event A)
  retain_all contains list = where_loop (λ x. not (contains x)) list.size list

  unfoldable pub replace_all :
      (A → A → Bool) → (A → A) → ArrayList Factor A → ArrayList Factor A × List (Event A)
  replace_all same operator list = (
    record list { elements = replace_loop operator list.elements 0 list.size },
    map (destructed list.destruct) (replaced same operator list.elements 0 list.size),
  )

  unfoldable pub clear : ArrayList Factor A → ArrayList Factor A × List (Event A)
  clear list =
      let (elements, events) = empty_out list.destruct list.elements 0 list.size in
      (
        record list {
          elements = elements;
          size = 0;
          modification_count = bump list.modification_count;
        },
        events,
      )

  unfoldable pub set_at :
      (A → A → Bool)
      → ArrayList Factor A
      → Option ℕ
      → A
      → ArrayList Factor A × Outcome A × List (Event A)
  set_at same list none element = (list, err index_out_of_bounds, [])
  set_at same list (some index) element =
      let old_element = get_or list.elements index pointer.null in
      if ltb index list.size
      then (
        record list { elements = set list.elements index element },
        ok old_element,
        if same old_element element then [] else destructed list.destruct old_element ∷ [],
      )
      else (list, err index_out_of_bounds, [])

  unfoldable pub set_element :
      (A → A → Bool) → ArrayList Factor A → ℤ → A → ArrayList Factor A × Outcome A × List (Event A)
  unfolding set_at
  set_element same list index element = set_at same list (to_ℕ? index) element

  unfoldable pub swap_at :
      ArrayList Factor A → Option ℕ → Option ℕ → ArrayList Factor A × Outcome (Unit {0})
  swap_at list none b = (list, err index_out_of_bounds)
  swap_at list (some a) none = (list, err index_out_of_bounds)
  swap_at list (some a) (some b) =
      if leb list.size a || leb list.size b
      then (list, err index_out_of_bounds)
      else (record list { elements = swap list.elements a b }, ok tt)

  unfoldable pub swap_elements :
      ArrayList Factor A → ℤ → ℤ → ArrayList Factor A × Outcome (Unit {0})
  unfolding swap_at
  swap_elements list index_a index_b = swap_at list (to_ℕ? index_a) (to_ℕ? index_b)
