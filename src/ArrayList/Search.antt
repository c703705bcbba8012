-- ===== src/ArrayList/Search.antt =====
-- The searches of the array list. `equals` is the client's callback; an index of -1 is `negsuc 0`.
pub mod Linear
pub mod Lookup
pub mod Binary
use libcdsa.Core.Comparison.{is_zero, is_negative}
use libcdsa.Base.{
  ℕ, zero, suc, ◌+◌, ◌-◌, ◌/◌, Bool, true, false, not, Option, none, some, List, [], ◌∷◌, ltb, ◌==◌,
  if◌then◌else◌, get_or,
}
use libcdsa.Base.Int.{ℤ, pos, negsuc, to_ℕ?}
use libcdsa.Core.{Pointer, Event, Outcome, Collection, map_outcome}
use libcdsa.ArrayList.{ArrayList, remove}

module _ {ℓ} {A : Type ℓ} ⦃pointer : Pointer A⦄ where
  module _ (condition : A → Bool) where
    -- The loop upwards over the `n` indices from `i` on.
    unfoldable pub index_loop : List A → ℕ → ℕ → ℤ
    index_loop elements i zero = negsuc 0
    index_loop elements i (suc n) = elim (condition (get_or elements i pointer.null)) [
      | true ↦ pos i
      | false ↦ index_loop elements (i + 1) n
    ]

    -- The loop downwards over the indices below `n`.
    unfoldable pub last_index_loop : List A → ℕ → ℤ
    last_index_loop elements zero = negsuc 0
    last_index_loop elements (suc n) = elim (condition (get_or elements n pointer.null)) [
      | true ↦ pos n
      | false ↦ last_index_loop elements n
    ]

    unfoldable pub find_loop : List A → ℕ → ℕ → Option A
    find_loop elements i zero = none
    find_loop elements i (suc n) =
        let element = get_or elements i pointer.null in
        elim (condition element) [ true ↦ some element | false ↦ find_loop elements (i + 1) n ]

    unfoldable pub find_last_loop : List A → ℕ → Option A
    find_last_loop elements zero = none
    find_last_loop elements (suc n) =
        let element = get_or elements n pointer.null in
        elim (condition element) [ true ↦ some element | false ↦ find_last_loop elements n ]

    unfoldable pub count_loop : List A → ℕ → ℕ → ℕ → ℕ
    count_loop elements count i zero = count
    count_loop elements count i (suc n) =
        count_loop elements
          (if condition (get_or elements i pointer.null) then count + 1 else count) (i + 1) n

  -- The loop of `array_list_binary_search`; `end` is `end_index + 1`, as `end_index` can be -1. The
  -- fuel is `none` where it does not last.
  unfoldable pub binary_loop : (A → A → ℤ) → ℕ → List A → A → ℕ → ℕ → Option ℤ
  binary_loop compare zero elements element start end = none
  binary_loop compare (suc fuel) elements element start end =
      let mid_index = start + (end - 1 - start) / 2 in
      let result = compare (get_or elements mid_index pointer.null) element in
      elim (ltb start end) [
        | false ↦ some (negsuc 0)
        | true ↦ elim (is_zero result) [
          | true ↦ some (pos mid_index)
          | false ↦ elim (is_negative result) [
            | true ↦ binary_loop compare fuel elements element (mid_index + 1) end
            | false ↦ binary_loop compare fuel elements element start mid_index
          ]
        ]
      ]

  unfoldable pub equals_loop : (A → A → Bool) → List A → List A → ℕ → ℕ → Bool
  equals_loop equals elements others i zero = true
  equals_loop equals elements others i (suc n) =
      elim (equals (get_or elements i pointer.null) (get_or others i pointer.null)) [
        | true ↦ equals_loop equals elements others (i + 1) n
        | false ↦ false
      ]

  unfoldable pub reduce_loop : (A → A → A) → List A → A → ℕ → ℕ → A
  reduce_loop accumulator elements result i zero = result
  reduce_loop accumulator elements result i (suc n) =
      reduce_loop accumulator elements (accumulator result (get_or elements i pointer.null)) (i + 1)
        n

-- `index != -1`
abbrev pub is_index : ℤ → Bool
is_index (pos n) = true
is_index (negsuc n) = not (n == 0)

module _ {ℓ} {A : Type ℓ} {Factor : Type 0} ⦃pointer : Pointer A⦄ where
  unfoldable pub find : ArrayList Factor A → (A → Bool) → Option A
  find list condition = find_loop condition list.elements 0 list.size

  unfoldable pub find_last : ArrayList Factor A → (A → Bool) → Option A
  find_last list condition = find_last_loop condition list.elements list.size

  unfoldable pub index_where : ArrayList Factor A → (A → Bool) → ℤ
  index_where list condition = index_loop condition list.elements 0 list.size

  unfoldable pub last_index_where : ArrayList Factor A → (A → Bool) → ℤ
  last_index_where list condition = last_index_loop condition list.elements list.size

  unfoldable pub reduce : ArrayList Factor A → A → (A → A → A) → A
  reduce list identity accumulator = reduce_loop accumulator list.elements identity 0 list.size

  -- `array_list_remove_element` at the index that the search found.
  unfoldable pub remove_found : ArrayList Factor A → ℤ → ArrayList Factor A × Bool × List (Event A)
  remove_found list (pos index) =
      let (after, r, events) = remove list (pos index) in (after, true, events)
  remove_found list (negsuc n) = (list, false, [])

  module _ (equals : A → A → Bool) where
    unfoldable pub index_of : ArrayList Factor A → A → ℤ
    index_of list element = index_loop (λ x. equals x element) list.elements 0 list.size

    unfoldable pub last_index_of : ArrayList Factor A → A → ℤ
    last_index_of list element = last_index_loop (λ x. equals x element) list.elements list.size

    unfoldable pub occurrences_of : ArrayList Factor A → A → ℕ
    occurrences_of list element = count_loop (λ x. equals x element) list.elements 0 0 list.size

    unfoldable pub contains : ArrayList Factor A → A → Bool
    contains list element = is_index (index_of list element)

    unfoldable pub contains_each : ArrayList Factor A → List A → Bool
    contains_each list [] = true
    contains_each list (x ∷ xs) = elim (contains list x) [
      | true ↦ contains_each list xs
      | false ↦ false
    ]

    unfoldable pub contains_all : ArrayList Factor A → Collection A → Outcome Bool
    contains_all list collection = map_outcome (contains_each list) collection.iterator

    unfoldable pub remove_element :
        ArrayList Factor A → A → ArrayList Factor A × Bool × List (Event A)
    remove_element list element = remove_found list (index_of list element)

    -- `same_pointer` is the test `array_list == other_array_list`.
    unfoldable pub list_equals : Bool → ArrayList Factor A → ArrayList Factor A → Bool
    list_equals same_pointer list other =
        if same_pointer
        then true
        else if list.size == other.size
        then equals_loop equals list.elements other.elements 0 list.size
        else false

  unfoldable pub binary_search : ArrayList Factor A → A → (A → A → ℤ) → Option ℤ
  binary_search list element compare =
      binary_loop compare (suc list.size) list.elements element 0 list.size
