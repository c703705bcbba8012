-- ===== src/ArrayList/Sort/Merge/Order.antt =====
-- Merge sort puts the elements in order, or an allocation was refused.
use libcdsa.Core.Cells.{cell, cells_from, length-cells_from}
use libcdsa.Core.Comparison.{Below, IsComparison, Below-refl, Below-along}
use libcdsa.Base.{
  ℕ, zero, suc, ◌+◌, ◌-◌, ◌≤◌, ◌<◌, ◌≡◌, sym, ap, subst, ◌∙◌, arith, Bool, List, [], ◌∷◌, ◌++◌,
  length, get_or, write_from,
}
use libcdsa.Base.Int.{ℤ}
use libcdsa.Core.{Pointer}
use libcdsa.ArrayList.Sort.Merge.Lists.{
  All, All-get_or, tally, merged, IsOrdered, length-merged, tally-merged, All-merged,
  merged-IsOrdered,
}
use libcdsa.ArrayList.Sort.Merge.Write.{cell-written, write_from-IsRearranged, All-cells_from}
use libcdsa.ArrayList.Sort.Rearranged.{IsRearranged, IsSortedRange}

module _ {A : Type 0} where
  All-prefix : (P : A → Type 0) (xs ys : List A) → All P (xs ++ ys) → All P xs
  All-prefix P [] ys all = tt
  All-prefix P (x ∷ xs) ys (p, ps) = (p, All-prefix P xs ys ps)

  All-suffix : (P : A → Type 0) (xs ys : List A) → All P (xs ++ ys) → All P ys
  All-suffix P [] ys all = all
  All-suffix P (x ∷ xs) ys (p, ps) = All-suffix P xs ys ps

  tally-append :
      (test : A → Bool) (xs ys : List A) → tally test (xs ++ ys) ≡ tally test xs + tally test ys
  tally-append test [] ys = omega arith
  tally-append test (x ∷ xs) ys = omega (arith, tally-append test xs ys)

module _ {A : Type 0} ⦃pointer : Pointer A⦄ where
  cells_from-append :
      (elements : List A) (i n m : ℕ)
      → cells_from elements i (n + m) ≡ cells_from elements i n ++ cells_from elements (i + n) m
  unfolding cells_from
  cells_from-append elements i zero m =
      ap (cells_from elements i) {x = 0 + m} {y = m} (omega arith)
      ∙ ap (λ (j : ℕ). cells_from elements j m) {x = i} {y = i + 0} (omega arith)
  cells_from-append elements i (suc n) m =
      ap (cells_from elements i) {x = suc n + m} {y = suc (n + m)} (omega arith)
      ∙ ap (◌∷◌ (cell elements i)) (
          cells_from-append elements (i + 1) n m
          ∙ ap (λ (j : ℕ). cells_from elements (i + 1) n ++ cells_from elements j m) {x = i + 1 + n}
              {y = i + suc n} (omega arith))

module _ {A : Type 0} ⦃pointer : Pointer A⦄ {compare : A → A → ℤ}
    (order : IsComparison compare) where
  cells_from-IsOrdered :
      (elements : List A) (i n : ℕ)
      → IsSortedRange compare elements i (i + n)
      → IsOrdered compare (cells_from elements i n)
  unfolding cells_from
  cells_from-IsOrdered elements i zero sorted = tt
  cells_from-IsOrdered elements i (suc n) sorted = (
    All-cells_from (Below compare (cell elements i)) elements (i + 1) n
        (λ k l u. sorted i k (omega arith) (omega arith) (omega arith)),
    cells_from-IsOrdered elements (i + 1) n
        (λ a b l le u. sorted a b (omega arith) le (omega arith)),
  )

  IsOrdered-get_or :
      (xs : List A) (a b : ℕ) (d : A)
      → IsOrdered compare xs
      → a ≤ b
      → b < length xs
      → Below compare (get_or xs a d) (get_or xs b d)
  IsOrdered-get_or [] a b d o le h = absurd (omega arith)
  IsOrdered-get_or (x ∷ xs) zero zero d o le h = Below-refl order x
  IsOrdered-get_or (x ∷ xs) zero (suc b) d (all, o) le h =
      All-get_or (Below compare x) xs b d all (omega arith)
  IsOrdered-get_or (x ∷ xs) (suc a) zero d o le h = absurd (omega arith)
  IsOrdered-get_or (x ∷ xs) (suc a) (suc b) d (all, o) le h =
      IsOrdered-get_or xs a b d o (omega arith) (omega arith)

  written-IsSortedRange :
      (elements : List A) (lo hi : ℕ) (xs : List A)
      → lo + length xs ≡ hi
      → hi ≤ length elements
      → IsOrdered compare xs
      → IsSortedRange compare (write_from elements lo xs) lo hi
  written-IsSortedRange elements lo hi xs size room o a b l le h =
      Below-along order (cell-written elements lo xs a (omega arith) l (omega arith))
        (cell-written elements lo xs b (omega arith) (omega arith) (omega arith))
        (IsOrdered-get_or xs (a - lo) (b - lo) pointer.null o (omega arith) (omega arith))

  module _ (elements : List A) (lo n m : ℕ) (room : lo + (n + m) ≤ length elements) where
    unfoldable pub halves : List A
    halves = merged compare (cells_from elements lo n) (cells_from elements (lo + n) m)

    pub halves-length : length halves ≡ n + m
    unfolding halves
    halves-length = omega (
      arith,
      length-merged compare (cells_from elements lo n) (cells_from elements (lo + n) m),
      length-cells_from elements lo n,
      length-cells_from elements (lo + n) m,
    )

    pub halves-IsRearranged :
        IsRearranged lo (lo + (n + m)) elements (write_from elements lo halves)
    unfolding halves
    halves-IsRearranged =
        let left = cells_from elements lo n in
        let right = cells_from elements (lo + n) m in
        let both = cells_from-append elements lo n m in
        write_from-IsRearranged elements lo (n + m) (merged compare left right) halves-length room
          (λ P all.
            let all' : All P (left ++ right) = subst (All P) both all in
            All-merged compare P left right (All-prefix P left right all')
              (All-suffix P left right all'))
          (λ test.
            tally-merged compare test left right
            ∙ sym (tally-append test left right)
            ∙ ap (tally test) (sym both))

    pub halves-IsSortedRange :
        IsSortedRange compare elements lo (lo + n)
        → IsSortedRange compare elements (lo + n) (lo + n + m)
        → IsSortedRange compare (write_from elements lo halves) lo (lo + (n + m))
    unfolding halves
    halves-IsSortedRange sorted sorted' =
        written-IsSortedRange elements lo (lo + (n + m))
          (merged compare (cells_from elements lo n) (cells_from elements (lo + n) m))
          (omega (arith, halves-length)) room
          (merged-IsOrdered order (cells_from elements lo n) (cells_from elements (lo + n) m)
            (cells_from-IsOrdered elements lo n sorted)
            (cells_from-IsOrdered elements (lo + n) m sorted'))
