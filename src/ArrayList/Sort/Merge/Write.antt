-- ===== src/ArrayList/Sort/Merge/Write.antt =====
-- A range that is overwritten with its own elements in another order.
use libcdsa.Core.Cells.{cell, cells_from, cells_from_congr, occurrences, occurrences-set}
use libcdsa.Core.Comparison.{is_positive}
use libcdsa.Base.{
  ℕ, zero, suc, ◌+◌, ◌-◌, ◌≤◌, ◌<◌, ◌≡◌, refl, sym, ap, subst, ◌∙◌, arith, inl, inr, Bool-cases,
  Bool, true, false, List, [], ◌∷◌, length, set, length-set, get_or-set_ne, get_or, write_from,
  length-write_from, get_or-write_from_before,
}
use libcdsa.Base.Int.{ℤ}
use libcdsa.Core.{Pointer}
use libcdsa.ArrayList.Moves.{cell-write_from}
use libcdsa.ArrayList.Sort.Rearranged.{IsRearranged}
use libcdsa.ArrayList.Sort.Merge.{merge_loop}
use libcdsa.ArrayList.Sort.Merge.Lists.{All, All-get_or, tally, merged, merged_right, merged_left}

module _ {A : Type 0} ⦃pointer : Pointer A⦄ where
  occurrences-write_from :
      (test : A → Bool) (elements : List A) (i : ℕ) (xs : List A) (n : ℕ)
      → i + length xs ≤ n
      → n ≤ length elements
      → occurrences test (write_from elements i xs) n
          + tally test (cells_from elements i (length xs))
        ≡ occurrences test elements n + tally test xs
  unfolding write_from cells_from
  occurrences-write_from test elements i [] n h p = refl
  occurrences-write_from test elements i (x ∷ xs) n h p =
      let next = set elements i x in
      let same : cells_from next (i + 1) (length xs) ≡ cells_from elements (i + 1) (length xs) =
        cells_from_congr next elements (i + 1) (length xs)
          (λ k l u. get_or-set_ne elements i k x pointer.null (omega arith)) in
      omega (
        arith,
        occurrences-write_from test next (i + 1) xs n (omega arith)
            (omega (arith, length-set elements i x)),
        ap (tally test) same,
        occurrences-set test elements i n x (omega arith) (omega arith),
      )

  pub All-cells_from :
      (P : A → Type 0) (elements : List A) (i n : ℕ)
      → ((k : ℕ) → i ≤ k → k < i + n → P (cell elements k))
      → All P (cells_from elements i n)
  unfolding cells_from
  All-cells_from P elements i zero all = tt
  All-cells_from P elements i (suc n) all = (
    all i (omega arith) (omega arith),
    All-cells_from P elements (i + 1) n (λ k l u. all k (omega arith) (omega arith)),
  )

  pub cell-written :
      (elements : List A) (lo : ℕ) (xs : List A) (k : ℕ)
      → lo + length xs ≤ length elements
      → lo ≤ k
      → k < lo + length xs
      → cell (write_from elements lo xs) k ≡ get_or xs (k - lo) pointer.null
  cell-written elements lo xs k room l h = ground (arith, cell-write_from elements lo xs k)

  pub write_from-IsRearranged :
      (elements : List A) (lo n : ℕ) (xs : List A)
      → length xs ≡ n
      → lo + n ≤ length elements
      → ((P : A → Type 0) → All P (cells_from elements lo n) → All P xs)
      → ((test : A → Bool) → tally test xs ≡ tally test (cells_from elements lo n))
      → IsRearranged lo (lo + n) elements (write_from elements lo xs)
  write_from-IsRearranged elements lo n xs size room carries tallies = record {
    whole = length-write_from elements lo xs;
    before = λ k h. get_or-write_from_before elements lo xs k pointer.null h;
    behind = λ k h. ground (arith, cell-write_from elements lo xs k);
    kept = λ P all k l h.
        subst P (sym (cell-written elements lo xs k (omega arith) l (omega arith))) (
          All-get_or P xs (k - lo) pointer.null (carries P (All-cells_from P elements lo n all))
            (omega arith));
    held = λ test m h p. omega (
      arith,
      occurrences-write_from test elements lo xs m (omega arith) p,
      tallies test,
      ap (λ (j : ℕ). tally test (cells_from elements lo j)) size,
    );
  }

  pub merge_loop-write_from :
      (compare : A → A → ℤ) (elements : List A) (i : ℕ) (xs ys : List A)
      → merge_loop compare elements i xs ys ≡ write_from elements i (merged compare xs ys)
  unfolding merge_loop write_from
  merge_loop-write_from compare elements i [] ys = refl
  merge_loop-write_from compare elements i (x ∷ xs) [] = refl
  merge_loop-write_from compare elements i (x ∷ xs) (y ∷ ys) =
      let step = λ (b : Bool). elim b as (λ _. List A) [
        | true ↦ merge_loop compare (set elements i y) (i + 1) (x ∷ xs) ys
        | false ↦ merge_loop compare (set elements i x) (i + 1) xs (y ∷ ys)
      ] in
      elim (Bool-cases (is_positive (compare x y))) [
        | inl e ↦
            ap step e
            ∙ merge_loop-write_from compare (set elements i y) (i + 1) (x ∷ xs) ys
            ∙ ap (write_from elements i) (sym (merged_right compare x xs y ys e))
        | inr e ↦
            ap step e
            ∙ merge_loop-write_from compare (set elements i x) (i + 1) xs (y ∷ ys)
            ∙ ap (write_from elements i) (sym (merged_left compare x xs y ys e))
      ]
