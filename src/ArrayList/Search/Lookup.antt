-- ===== src/ArrayList/Search/Lookup.antt =====
-- What the searches of the array list answer, in terms of its elements.
use libcdsa.Core.Cells.{cell, cells_from}
use libcdsa.Base.{
  ℕ, zero, suc, ◌+◌, ◌≡◌, refl, sym, ap, ◌∙◌, arith, inl, inr, Bool, true, false, ◌||◌, Bool-cases,
  some, List, [], ◌∷◌, length, ◌==◌,
}
use libcdsa.Base.Int.{ℤ, pos, negsuc}
use libcdsa.Base.Search.{any, all, pairwise, pairwise-length, filter}
use libcdsa.Core.{Pointer, Event, Outcome, ok, err, Collection, map_outcome}
use libcdsa.ArrayList.{ArrayList, remove}
use libcdsa.ArrayList.Inv.{IsValid, contents, length-contents}
use libcdsa.ArrayList.Delete.{remove-delete, Removed, remove_deletes}
use libcdsa.ArrayList.Search.{
  equals_loop, find, find_last, index_where, last_index_where, index_of, last_index_of,
  occurrences_of, contains, contains_each, contains_all, remove_found, remove_element, list_equals,
}
use libcdsa.ArrayList.Search.Linear.{
  IsFirst, IsLast, at_index, index_loop-IsFirst, last_index_loop-IsLast, find_loop-at_index,
  find_last_loop-at_index, count_loop-filter, is_index-any,
}

module _ {A : Type 0} ⦃pointer : Pointer A⦄ where
  equals_loop-pairwise :
      (equals : A → A → Bool) (xs ys : List A) (i n : ℕ)
      → equals_loop equals xs ys i n ≡ pairwise equals (cells_from xs i n) (cells_from ys i n)
  unfolding equals_loop cells_from
  equals_loop-pairwise equals xs ys i zero = refl
  equals_loop-pairwise equals xs ys i (suc n) = elim (Bool-cases (equals (cell xs i) (cell ys i))) [
    | inl e ↦ rw (equals_loop, e) (equals_loop-pairwise equals xs ys (i + 1) n)
    | inr e ↦ rw (equals_loop, e)
  ]

module _ {A : Type 0} where
  outcome_congr :
      (f g : List A → Bool) (r : Outcome (List A))
      → ((xs : List A) → f xs ≡ g xs)
      → map_outcome f r ≡ map_outcome g r
  outcome_congr f g (ok xs) same = ap ok (same xs)
  outcome_congr f g (err e) same = refl

module _ {Factor : Type 0} {A : Type 0} ⦃pointer : Pointer A⦄ where
  -- Array_list_index_where returns the first index whose element passes the test, or -1 where none
  -- does, array_list_last_index_where the last such index, and array_list_find and
  -- array_list_find_last the elements at these indices, or nothing.
  pub searches_find :
      (list : ArrayList Factor A) (condition : A → Bool)
      → IsFirst condition list.elements 0 list.size (index_where list condition)
        × IsLast condition list.elements list.size (last_index_where list condition)
        × (find list condition ≡ at_index condition list.elements (index_where list condition))
        × (find_last list condition
            ≡ at_index condition list.elements (last_index_where list condition))
  unfolding find find_last index_where last_index_where
  searches_find list condition = (
    index_loop-IsFirst condition list.elements 0 list.size list.size (omega arith),
    last_index_loop-IsLast condition list.elements list.size,
    find_loop-at_index condition list.elements 0 list.size,
    find_last_loop-at_index condition list.elements list.size,
  )

  module _ (equals : A → A → Bool) where
    contains-any :
        (list : ArrayList Factor A) (x : A)
        → contains equals list x ≡ any (λ y. equals y x) (contents list)
    unfolding contains index_of
    contains-any list x = is_index-any (λ y. equals y x) list.elements 0 list.size

    contains_each-all :
        (list : ArrayList Factor A) (xs : List A)
        → contains_each equals list xs ≡ all (λ x. any (λ y. equals y x) (contents list)) xs
    unfolding contains_each
    contains_each-all list [] = refl
    contains_each-all list (x ∷ xs) = elim (Bool-cases (contains equals list x)) [
      | inl e ↦ rw (contains_each, sym (contains-any list x), e) (contains_each-all list xs)
      | inr e ↦ rw (contains_each, sym (contains-any list x), e)
    ]

    -- Array_list_index_of and array_list_last_index_of return the first and the last index of an
    -- element equal to the one sought, or -1 where there is none; array_list_contains finds
    -- whether there is one, array_list_occurrences_of counts them, and array_list_contains_all
    -- finds whether there is one for every element of a collection, or hands on the error of its
    -- iterator.
    pub lookups_agree :
        (list : ArrayList Factor A) (x : A) (collection : Collection A)
        → IsFirst (λ y. equals y x) list.elements 0 list.size (index_of equals list x)
          × IsLast (λ y. equals y x) list.elements list.size (last_index_of equals list x)
          × (contains equals list x ≡ any (λ y. equals y x) (contents list))
          × (occurrences_of equals list x ≡ length (filter (λ y. equals y x) (contents list)))
          × (contains_all equals list collection
              ≡ map_outcome (all (λ z. any (λ y. equals y z) (contents list))) collection.iterator)
    unfolding index_of last_index_of occurrences_of contains_all
    lookups_agree list x collection = (
      index_loop-IsFirst (λ y. equals y x) list.elements 0 list.size list.size (omega arith),
      last_index_loop-IsLast (λ y. equals y x) list.elements list.size,
      contains-any list x,
      count_loop-filter (λ y. equals y x) list.elements 0 0 list.size ∙ omega arith,
      outcome_congr (contains_each equals list) (all (λ z. any (λ y. equals y z) (contents list)))
          collection.iterator (contains_each-all list),
    )

    pub list_equals_agrees :
        (list other : ArrayList Factor A) (same_pointer : Bool)
        → list_equals equals same_pointer list other
          ≡ same_pointer || pairwise equals (contents list) (contents other)
    unfolding list_equals
    list_equals_agrees list other true = refl
    list_equals_agrees list other false = elim (Bool-cases (list.size == other.size)) [
      | inl e ↦
          let size : other.size ≡ list.size = ground arith in
          rw (list_equals, e)
            (equals_loop-pairwise equals list.elements other.elements 0 list.size
              ∙ ap (λ (n : ℕ). pairwise equals (contents list) (cells_from other.elements 0 n))
                  (sym size))
      | inr e ↦
          rw (list_equals, e)
            (sym (
              pairwise-length equals (contents list) (contents other)
                (ground (arith, length-contents list, length-contents other))))
    ]

    -- How `array_list_remove_element` ends: the first equal element is removed, if there is one.
    abbrev pub RemovedFirst :
        ArrayList Factor A → A → ArrayList Factor A × Bool × List (Event A) → Type 0
    RemovedFirst list x (after, true, events) =
        (k : ℕ) × IsFirst (λ y. equals y x) list.elements 0 list.size (pos k)
        × Removed list (some k) (after, ok (cell list.elements k), events)
    RemovedFirst list x (after, false, events) =
        IsFirst (λ y. equals y x) list.elements 0 list.size (negsuc 0)
        × (after ≡ list)
        × (events ≡ [])

    found-RemovedFirst :
        (list : ArrayList Factor A) (x : A) (r : ℤ)
        → IsValid list
        → IsFirst (λ y. equals y x) list.elements 0 list.size r
        → RemovedFirst list x (remove_found list r)
    unfolding remove_found
    found-RemovedFirst list x (pos k) valid first =
        let inside = first.1 in
        let removed : Removed list (some k) (remove list (pos k)) =
          remove_deletes list (pos k) valid in
        rw (remove-delete list k inside, remove_found)
          (k, first, rw (remove-delete list k inside) at removed)
    found-RemovedFirst list x (negsuc k) valid (e, fails) = ((refl, fails), refl, refl)

    -- Array_list_remove_element on a valid list removes the element at the first index that is
    -- equal to the one given, as array_list_remove does, and says true; where there is none it
    -- says false and changes nothing.
    pub remove_element_removes :
        (list : ArrayList Factor A) (x : A)
        → IsValid list
        → RemovedFirst list x (remove_element equals list x)
    unfolding remove_element index_of
    remove_element_removes list x valid =
        found-RemovedFirst list x (index_of equals list x) valid
          (index_loop-IsFirst (λ y. equals y x) list.elements 0 list.size list.size (omega arith))
