-- ===== src/ArrayList/Sort/Algorithms.antt =====
-- `array_list_sort`, by each of the algorithms.
use libcdsa.Core.Cells.{cell}
use libcdsa.Core.Comparison.{IsComparison, Below-refl, Below-along}
use libcdsa.Base.{
  ℕ, ◌+◌, ◌-◌, ◌≤◌, ◌<◌, ◌≡◌, ◌⊎◌, refl, ap, arith, inl, inr, Bool-cases, List, length, ltb,
  if◌then◌else◌,
}
use libcdsa.Base.Int.{ℤ}
use libcdsa.Core.{Pointer, Alloc, Outcome, ok, err}
use libcdsa.ArrayList.{ArrayList, Memory}
use libcdsa.ArrayList.Inv.{IsValid}
use libcdsa.ArrayList.Order.Shuffle.{IsPermuted, IsPermuted-refl, Permuted, permuted}
use libcdsa.ArrayList.Search.Binary.{IsSorted}
use libcdsa.ArrayList.Sort.{bubble_sort, selection_sort, insertion_sort, quick_sort}
use libcdsa.ArrayList.Sort.Bubble.{bubble_sort-Sorts}
use libcdsa.ArrayList.Sort.Selection.{selection_sort-Sorts}
use libcdsa.ArrayList.Sort.Insertion.{insertion_sort-Sorts}
use libcdsa.ArrayList.Sort.Quick.{quick_sort-Sorts}
use libcdsa.ArrayList.Sort.Merge.{merge_sort}
use libcdsa.ArrayList.Sort.Merge.Verdict.{Verdict, merge_sort-Ranged}
use libcdsa.ArrayList.Sort.Rearranged.{Sorts, IsRearranged, IsRearranged-IsPermuted, IsSortedRange}

-- `BUBBLE_SORT` and so on.
pub data SortingAlgorithm : Type 0 where
  by_bubble by_insertion by_selection by_merge by_quick : SortingAlgorithm

module _ {ℓ} {A : Type ℓ} ⦃pointer : Pointer A⦄ (compare : A → A → ℤ) where
  -- The `switch` of `array_list_sort`, on the array.
  unfoldable pub sort_by : Alloc A → List A → ℕ → SortingAlgorithm → List A × Outcome (Unit {0})
  sort_by alloc elements size by_bubble = (bubble_sort compare elements size, ok tt)
  sort_by alloc elements size by_insertion = (insertion_sort compare elements size, ok tt)
  sort_by alloc elements size by_selection = (selection_sort compare elements size, ok tt)
  sort_by alloc elements size by_merge = merge_sort compare size alloc elements 0 (size - 1)
  sort_by alloc elements size by_quick = (quick_sort compare elements size, ok tt)

module _ {ℓ} {Factor : Type 0} {A : Type ℓ} ⦃pointer : Pointer A⦄ (compare : A → A → ℤ) where
  unfoldable pub sort :
      Memory A → ArrayList Factor A → SortingAlgorithm → ArrayList Factor A × Outcome (Unit {0})
  sort memory list algorithm =
      let (elements, r) = sort_by compare memory.alloc list.elements list.size algorithm in
      if ltb list.size 2 then (list, ok tt) else (record list { elements = elements }, r)

module _ {A : Type 0} ⦃pointer : Pointer A⦄ (alloc : Alloc A) {compare : A → A → ℤ}
    (order : IsComparison compare) where
  -- How sorting an array ends: its elements in some order, and in order unless there is an error.
  abbrev Arranged : List A → ℕ → List A × Outcome (Unit {0}) → Type 0
  Arranged elements size outcome =
      IsPermuted size elements outcome.0 × Verdict alloc (IsSorted compare outcome.0 size) outcome.1

  Sorts-Arranged :
      (elements after : List A) (size : ℕ)
      → size ≤ length elements
      → Sorts compare size elements after
      → Arranged elements size (after, ok tt)
  Sorts-Arranged elements after size room (r, sorted) =
      (IsRearranged-IsPermuted size elements after room r, sorted)

  Ranged-Arranged :
      (elements after : List A) (size : ℕ) (r : Outcome (Unit {0}))
      → size ≤ length elements
      → IsRearranged 0 size elements after
      → Verdict alloc (IsSortedRange compare after 0 size) r
      → Arranged elements size (after, r)
  Ranged-Arranged elements after size (ok u) room r sorted = (
    IsRearranged-IsPermuted size elements after room r,
    λ a b le h. sorted a b (omega arith) le h,
  )
  Ranged-Arranged elements after size (err e) room r refused =
      (IsRearranged-IsPermuted size elements after room r, refused)

  sort_by-Arranged :
      (elements : List A) (size : ℕ) (algorithm : SortingAlgorithm)
      → 1 < size
      → size ≤ length elements
      → Arranged elements size (sort_by compare alloc elements size algorithm)
  unfolding sort_by
  sort_by-Arranged elements size by_bubble h room =
      Sorts-Arranged elements _ size room (bubble_sort-Sorts order elements size (omega arith) room)
  sort_by-Arranged elements size by_insertion h room =
      Sorts-Arranged elements _ size room
        (insertion_sort-Sorts order elements size (omega arith) room)
  sort_by-Arranged elements size by_selection h room =
      Sorts-Arranged elements _ size room
        (selection_sort-Sorts order elements size (omega arith) room)
  sort_by-Arranged elements size by_merge h room =
      let whole : size - 1 + 1 ≡ size = omega arith in
      let outcome = merge_sort compare size alloc elements 0 (size - 1) in
      let (r, v) =
        rw whole at
          (merge_sort-Ranged alloc order size elements 0 (size - 1) (omega arith) (omega arith)) in
      Ranged-Arranged elements outcome.0 size outcome.1 room r v
  sort_by-Arranged elements size by_quick h room =
      Sorts-Arranged elements _ size room (quick_sort-Sorts order elements size room)

module _ {A : Type 0} ⦃pointer : Pointer A⦄ (compare : A → A → ℤ) where
  -- Only merge sort can fail.
  sort_by-quiet :
      (alloc : Alloc A) (elements : List A) (size : ℕ) (algorithm : SortingAlgorithm)
      → (algorithm ≡ by_merge) ⊎ ((sort_by compare alloc elements size algorithm).1 ≡ ok tt)
  unfolding sort_by
  sort_by-quiet alloc elements size by_bubble = inr refl
  sort_by-quiet alloc elements size by_insertion = inr refl
  sort_by-quiet alloc elements size by_selection = inr refl
  sort_by-quiet alloc elements size by_merge = inl refl
  sort_by-quiet alloc elements size by_quick = inr refl

module _ {Factor : Type 0} {A : Type 0} ⦃pointer : Pointer A⦄ {compare : A → A → ℤ}
    (order : IsComparison compare) where
  -- With a lawful comparison, array_list_sort by each of the five algorithms on a valid list
  -- permutes the elements in place (every test passes on as many) and changes nothing else in the
  -- list, and leaves no element that ranks above a later one; only merge sort can report an error,
  -- MEMORY_ALLOCATION_ERROR, where the allocator refuses a request, and the elements are then
  -- still permuted.
  pub sort_sorts :
      (memory : Memory A) (list : ArrayList Factor A) (algorithm : SortingAlgorithm)
      → IsValid list
      → let (after, r) = sort compare memory list algorithm in
        Permuted list after
        × Verdict memory.alloc (IsSorted compare after.elements after.size) r
        × ((algorithm ≡ by_merge) ⊎ (r ≡ ok tt))
  unfolding sort
  sort_sorts memory list algorithm valid = elim (Bool-cases (ltb list.size 2)) [
    | inl small ↦
        rw (sort, small)
          (
            permuted list list.elements valid (IsPermuted-refl list.size list.elements),
            λ a b le h.
                Below-along order refl (ap (cell list.elements) {x = b} {y = a} (ground arith))
                  (Below-refl order _),
            inr refl,
          )
    | inr more ↦
        let (p, v) =
          sort_by-Arranged memory.alloc order list.elements list.size algorithm (ground arith)
            (omega (arith, valid.storage, valid.size_in)) in
        rw (sort, more)
          (
            permuted list _ valid p,
            v,
            sort_by-quiet compare memory.alloc list.elements list.size algorithm,
          )
  ]
