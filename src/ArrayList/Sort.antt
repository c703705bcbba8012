-- ===== src/ArrayList/Sort.antt =====
-- The sorting algorithms of the array list that work in place.
pub mod Rearranged
pub mod Bubble
pub mod Selection
pub mod Insertion
pub mod Partition
pub mod Quick
pub mod Merge
pub mod Algorithms
use libcdsa.Core.Comparison.{is_positive, is_negative}
use libcdsa.Core.Cells.{swap}
use libcdsa.Base.{ℕ, zero, suc, ◌+◌, ◌-◌, Bool, true, false, List, ltb, if◌then◌else◌, get_or, set}
use libcdsa.Base.Int.{ℤ}
use libcdsa.Core.{Pointer}

module _ {ℓ} {A : Type ℓ} ⦃pointer : Pointer A⦄ (compare : A → A → ℤ) where
  -- The `n` rounds from `j` on of the inner loop of `bubble_sort`.
  unfoldable pub bubble_round : List A → ℕ → ℕ → List A
  bubble_round elements j zero = elements
  bubble_round elements j (suc n) =
      bubble_round
        (if is_positive
            (compare (get_or elements j pointer.null) (get_or elements (j + 1) pointer.null))
          then swap elements j (j + 1)
          else elements)
        (j + 1) n

  -- The `n` rounds from `i` on of the outer loop.
  unfoldable pub bubble_loop : List A → ℕ → ℕ → ℕ → List A
  bubble_loop elements size i zero = elements
  bubble_loop elements size i (suc n) =
      bubble_loop (bubble_round elements 0 (size - i - 1)) size (i + 1) n

  unfoldable pub bubble_sort : List A → ℕ → List A
  bubble_sort elements size = bubble_loop elements size 0 (size - 1)

  -- `min_index` after the `n` rounds from `j` on of the inner loop of `selection_sort`.
  unfoldable pub min_loop : List A → ℕ → ℕ → ℕ → ℕ
  min_loop elements min_index j zero = min_index
  min_loop elements min_index j (suc n) =
      min_loop elements
        (if is_negative
            (compare (get_or elements j pointer.null) (get_or elements min_index pointer.null))
          then j
          else min_index)
        (j + 1) n

  unfoldable pub selection_loop : List A → ℕ → ℕ → ℕ → List A
  selection_loop elements size i zero = elements
  selection_loop elements size i (suc n) =
      let min_index = min_loop elements i (i + 1) (size - (i + 1)) in
      selection_loop (swap elements min_index i) size (i + 1) n

  unfoldable pub selection_sort : List A → ℕ → List A
  selection_sort elements size = selection_loop elements size 0 (size - 1)

  -- The `while` loop of `insertion_sort` and the write after it; the number is `j + 1`.
  unfoldable pub insert_loop : List A → A → ℕ → List A
  insert_loop elements element zero = set elements 0 element
  insert_loop elements element (suc j) =
      elim (is_positive (compare (get_or elements j pointer.null) element)) [
        | true ↦ insert_loop (set elements (suc j) (get_or elements j pointer.null)) element j
        | false ↦ set elements (suc j) element
      ]

  unfoldable pub insertion_loop : List A → ℕ → ℕ → List A
  insertion_loop elements i zero = elements
  insertion_loop elements i (suc n) =
      insertion_loop (insert_loop elements (get_or elements i pointer.null) i) (i + 1) n

  unfoldable pub insertion_sort : List A → ℕ → List A
  insertion_sort elements size = insertion_loop elements 1 (size - 1)

  -- The `n` rounds from `i` on of the loop of `partition`; `next` is `pivot + 1`, as `pivot` starts
  -- at `start_index - 1`.
  unfoldable pub partition_loop : List A → ℕ → ℕ → ℕ → ℕ → List A × ℕ
  partition_loop elements end_index next i zero = (elements, next)
  partition_loop elements end_index next i (suc n) =
      elim (is_positive
        (compare (get_or elements i pointer.null) (get_or elements end_index pointer.null))) [
          | true ↦ partition_loop elements end_index next (i + 1) n
          | false ↦ partition_loop (swap elements i next) end_index (next + 1) (i + 1) n
        ]

  unfoldable pub partition : List A → ℕ → ℕ → List A × ℕ
  partition elements start_index end_index =
      let (parted, next) =
        partition_loop elements end_index start_index start_index (end_index - start_index) in
      (swap parted next end_index, next)

  -- `end` is `end_index + 1`, as `end_index` can be -1. Each part is smaller than the whole.
  unfoldable pub quick_loop : ℕ → List A → ℕ → ℕ → List A
  quick_loop zero elements start_index end = elements
  quick_loop (suc fuel) elements start_index end =
      let (parted, pivot) = partition elements start_index (end - 1) in
      elim (ltb (start_index + 1) end) [
        | true ↦ quick_loop fuel (quick_loop fuel parted start_index pivot) (pivot + 1) end
        | false ↦ elements
      ]

  unfoldable pub quick_sort : List A → ℕ → List A
  quick_sort elements size = quick_loop size elements 0 size
