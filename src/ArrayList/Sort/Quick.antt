-- ===== src/ArrayList/Sort/Quick.antt =====
-- Quick sort.
use libcdsa.Core.Cells.{cell}
use libcdsa.Core.Comparison.{Below, IsComparison, Below-refl, Below-along}
use libcdsa.Base.{
  ℕ, zero, suc, ◌+◌, ◌-◌, ◌≤◌, ◌<◌, ◌≡◌, refl, ap, ◌∙◌, arith, inl, inr, Bool-cases, List, length,
  ℕ_discrete, dec_lt, ltb, ltb→lt,
}
use libcdsa.Base.Int.{ℤ}
use libcdsa.Core.{Pointer}
use libcdsa.ArrayList.Sort.{partition, quick_loop, quick_sort}
use libcdsa.ArrayList.Sort.Rearranged.{
  Sorts, SortsRange, IsRearranged-refl, IsRearranged-trans, IsRearranged-widen,
}
use libcdsa.ArrayList.Sort.Partition.{IsPartitioned, partition-Partitioned}

module _ {A : Type 0} ⦃pointer : Pointer A⦄ {compare : A → A → ℤ}
    (order : IsComparison compare) where
  -- Sorting the two sides of the pivot sorts the whole.
  sides-sort :
      (one two three : List A) (start p end : ℕ)
      → IsPartitioned order one start p end
      → SortsRange compare one start p two
      → SortsRange compare two (p + 1) end three
      → SortsRange compare one start end three
  sides-sort one two three start p end part (r, sorted) (r', sorted') =
      let x = cell one p in
      let inside : p < end = part.under in
      let first : start ≤ p = part.from in
      let pivot : cell three p ≡ x = r'.before p (omega arith) ∙ r.behind p (omega arith) in
      let low : (k : ℕ) → start ≤ k → k ≤ p → Below compare (cell three k) x = λ k l h.
        elim (ℕ_discrete k p) [
          | yes e ↦ Below-along order (ap (cell three) e ∙ pivot) refl (Below-refl order x)
          | no ne ↦
              Below-along order (r'.before k (omega arith)) refl
                (r.kept (λ y. Below compare y x) part.left k l (omega arith))
        ] in
      let high : (k : ℕ) → p ≤ k → k < end → Below compare x (cell three k) = λ k l h.
        elim (ℕ_discrete k p) [
          | yes e ↦ Below-along order refl (ap (cell three) e ∙ pivot) (Below-refl order x)
          | no ne ↦
              r'.kept (λ y. Below compare x y)
                (λ j l' h'.
                  Below-along order refl (r.behind j (omega arith)) (part.right j (omega arith) h'))
                k (omega arith) h
        ] in
      (
        IsRearranged-trans start end one two three
            (IsRearranged-widen start p start end one two (omega arith) (omega arith) r)
            (IsRearranged-widen (p + 1) end start end two three (omega arith) (omega arith) r'),
        λ a b l le h. elim (dec_lt b p) [
          | yes q ↦
              Below-along order (r'.before a (omega arith)) (r'.before b (omega arith))
                (sorted a b l le q)
          | no q ↦ elim (dec_lt p a) [
            | yes q' ↦ sorted' a b (omega arith) le h
            | no q' ↦ order.carried _ x _ (low a l (omega arith)) (high b (omega arith) h)
          ]
        ],
      )

  quick_loop-SortsRange :
      (fuel : ℕ) (elements : List A) (start end : ℕ)
      → end ≤ start + fuel
      → end ≤ length elements
      → SortsRange compare elements start end (quick_loop compare fuel elements start end)
  unfolding quick_loop
  quick_loop-SortsRange zero elements start end h room =
      (IsRearranged-refl start end elements, λ a b l le u. absurd (omega arith))
  quick_loop-SortsRange (suc fuel) elements start end h room =
      elim (Bool-cases (ltb (start + 1) end)) [
        | inr small ↦
            let tight : end ≤ start + 1 = ground arith in
            rw (quick_loop, small)
              (
                IsRearranged-refl start end elements,
                λ a b l le u.
                    Below-along order refl (ap (cell elements) {x = b} {y = a} (omega arith))
                      (Below-refl order _),
              )
        | inl more ↦
            let wide : start + 1 < end = ltb→lt (start + 1) end more in
            let outcome = partition compare elements start (end - 1) in
            let whole : end - 1 + 1 ≡ end = omega arith in
            let (r, part) =
              rw whole at (
                partition-Partitioned order elements start (end - 1) (omega arith) (omega arith)) in
            let two = quick_loop compare fuel outcome.0 start outcome.1 in
            let left =
              quick_loop-SortsRange fuel outcome.0 start outcome.1 (omega (arith, part.under))
                (omega (arith, part.under, r.whole)) in
            let right =
              quick_loop-SortsRange fuel two (outcome.1 + 1) end (omega (arith, part.from))
                (omega (arith, r.whole, left.0.whole)) in
            let (r', sorted) =
              sides-sort outcome.0 two (quick_loop compare fuel two (outcome.1 + 1) end) start
                outcome.1 end part left right in
            rw (quick_loop, more) (IsRearranged-trans start end elements outcome.0 _ r r', sorted)
      ]

  pub quick_sort-Sorts :
      (elements : List A) (size : ℕ)
      → size ≤ length elements
      → Sorts compare size elements (quick_sort compare elements size)
  unfolding quick_sort
  quick_sort-Sorts elements size room =
      let (r, sorted) = quick_loop-SortsRange size elements 0 size (omega arith) room in
      (r, λ a b le h. sorted a b (omega arith) le h)
