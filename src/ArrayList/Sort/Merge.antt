-- ===== src/ArrayList/Sort/Merge.antt =====
-- Merge sort, whose temporary arrays the allocator may refuse: it then leaves a range as it is, and
-- goes on with the others. It gives the temporary arrays back in every case, which no event records.
pub mod Lists
pub mod Write
pub mod Order
pub mod Verdict
use libcdsa.Core.Comparison.{is_positive}
use libcdsa.Core.Cells.{cells_from}
use libcdsa.Base.{
  ℕ, zero, suc, ◌+◌, ◌-◌, ◌/◌, Bool, true, false, Option, none, some, List, [], ◌∷◌, ltb, set,
  write_from,
}
use libcdsa.Base.Int.{ℤ}
use libcdsa.Core.{Pointer, Alloc, Outcome, ok, err, memory_allocation, then_outcome}

module _ {ℓ} {A : Type ℓ} ⦃pointer : Pointer A⦄ (compare : A → A → ℤ) where
  -- The three loops of `merge` that write: `left` and `right` are what is left of the temporary
  -- arrays.
  unfoldable pub merge_loop : List A → ℕ → List A → List A → List A
  unfolding write_from
  merge_loop elements index [] right = write_from elements index right
  merge_loop elements index (x ∷ left) [] = write_from elements index (x ∷ left)
  merge_loop elements index (x ∷ left) (y ∷ right) = elim (is_positive (compare x y)) [
    | true ↦ merge_loop (set elements index y) (index + 1) (x ∷ left) right
    | false ↦ merge_loop (set elements index x) (index + 1) left (y ∷ right)
  ]

  -- `merge` from the two allocations on.
  unfoldable pub merge_by :
      List A → ℕ → ℕ → ℕ → Option (List A) → Option (List A) → List A × Outcome (Unit {0})
  merge_by elements start_index middle_index end_index none right_block =
      (elements, err memory_allocation)
  merge_by elements start_index middle_index end_index (some left_block) none =
      (elements, err memory_allocation)
  merge_by elements start_index middle_index end_index (some left_block) (some right_block) = (
    merge_loop elements start_index
        (cells_from elements start_index (middle_index - start_index + 1))
        (cells_from elements (middle_index + 1) (end_index - middle_index)),
    ok tt,
  )

  unfoldable pub merge : Alloc A → List A → ℕ → ℕ → ℕ → List A × Outcome (Unit {0})
  merge alloc elements start_index middle_index end_index =
      merge_by elements start_index middle_index end_index (alloc (middle_index - start_index + 1))
        (alloc (end_index - middle_index))

  -- Each half is smaller than the whole.
  unfoldable pub merge_sort : ℕ → Alloc A → List A → ℕ → ℕ → List A × Outcome (Unit {0})
  merge_sort zero alloc elements start_index end_index = (elements, ok tt)
  merge_sort (suc fuel) alloc elements start_index end_index =
      let middle_index = start_index + (end_index - start_index) / 2 in
      elim (ltb start_index end_index) [
        | true ↦
            let (one, r) = merge_sort fuel alloc elements start_index middle_index in
            let (two, r') = merge_sort fuel alloc one (middle_index + 1) end_index in
            let (three, r'') = merge alloc two start_index middle_index end_index in
            (three, then_outcome (then_outcome r r') r'')
        | false ↦ (elements, ok tt)
      ]
