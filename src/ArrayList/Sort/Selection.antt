-- ===== src/ArrayList/Sort/Selection.antt =====
-- Selection sort.
use libcdsa.Core.Cells.{cell, swap, swap_right, length-swap}
use libcdsa.Core.Comparison.{
  Below, IsComparison, is_negative, Below-of_negative, Below-of_not_negative, Below-refl,
  Below-along,
}
use libcdsa.Base.{
  ℕ, zero, suc, ◌+◌, ◌-◌, ◌≤◌, ◌<◌, ◌≡◌, refl, ap, ◌∙◌, arith, inl, inr, Bool-cases, List, length,
  ℕ_discrete, dec_lt,
}
use libcdsa.Base.Int.{ℤ}
use libcdsa.Core.{Pointer}
use libcdsa.ArrayList.Sort.{min_loop, selection_loop, selection_sort}
use libcdsa.ArrayList.Sort.Rearranged.{
  Sorts, IsRearranged-refl, IsRearranged-trans, swap-IsRearranged,
}

module _ {A : Type 0} ⦃pointer : Pointer A⦄ {compare : A → A → ℤ}
    (order : IsComparison compare) where
  -- `m` is the index of a least cell from `i` up to `j`.
  pub record IsLeast (elements : List A) (i j m : ℕ) : Type 0 where
    pub from : i ≤ m
    pub under : m < j
    pub least : (k : ℕ) → i ≤ k → k < j → Below compare (cell elements m) (cell elements k)

  min_loop-IsLeast :
      (elements : List A) (i m j n size : ℕ)
      → j + n ≡ size
      → IsLeast elements i j m
      → IsLeast elements i size (min_loop compare elements m j n)
  unfolding min_loop
  min_loop-IsLeast elements i m j zero size h l = record {
    from = l.from;
    under = omega (arith, l.under);
    least = λ k p q. l.least k p (omega arith);
  }
  min_loop-IsLeast elements i m j (suc n) size h l =
      elim (Bool-cases (is_negative (compare (cell elements j) (cell elements m)))) [
        | inl less ↦
            rw (min_loop, less)
              (min_loop-IsLeast elements i j (j + 1) n size (omega arith) (record {
                from = omega (arith, l.from, l.under);
                under = omega arith;
                least = λ k p q. elim (ℕ_discrete k j) [
                  | yes e ↦ Below-along order refl (ap (cell elements) e) (Below-refl order _)
                  | no ne ↦
                      order.carried _ _ _ (Below-of_negative order _ _ less)
                        (l.least k p (omega arith))
                ];
              }))
        | inr more ↦
            rw (min_loop, more)
              (min_loop-IsLeast elements i m (j + 1) n size (omega arith) (record {
                from = l.from;
                under = omega (arith, l.under);
                least = λ k p q. elim (ℕ_discrete k j) [
                  | yes e ↦
                      Below-along order refl (ap (cell elements) e)
                        (Below-of_not_negative order _ _ more)
                  | no ne ↦ l.least k p (omega arith)
                ];
              }))
      ]

  -- The cells before `i` are in order, and none of them ranks above a later one.
  abbrev IsDone : List A → ℕ → ℕ → Type 0
  IsDone elements i size =
      (a b : ℕ) → a ≤ b → a < i → b < size → Below compare (cell elements a) (cell elements b)

  IsDone-step :
      (elements : List A) (i m size : ℕ)
      → size ≤ length elements
      → i < size
      → IsLeast elements i size m
      → IsDone elements i size
      → IsDone (swap elements m i) (i + 1) size
  IsDone-step elements i m size room inside l done a b le low high =
      let bounds : m < size = l.under in
      let above : i ≤ m = l.from in
      let r = swap-IsRearranged elements m i i size above bounds (omega arith) inside room in
      elim (dec_lt a i) [
        | yes p ↦ elim (dec_lt b i) [
          | yes q ↦ Below-along order (r.before a p) (r.before b q) (done a b le p high)
          | no q ↦ Below-along order (r.before a p) refl (
              r.kept (λ x. Below compare (cell elements a) x) (λ k u v. done a k (omega arith) p v)
                b (omega arith) high)
        ]
        | no p ↦
            let here =
              ap (cell (swap elements m i)) {x = a} {y = i} (omega arith)
              ∙ swap_right elements m i (omega arith) (omega arith) in
            Below-along order here refl
              (r.kept (λ x. Below compare (cell elements m) x) l.least b (omega arith) high)
      ]

  selection_loop-Sorts :
      (elements : List A) (size i n : ℕ)
      → i + n + 1 ≡ size
      → size ≤ length elements
      → IsDone elements i size
      → Sorts compare size elements (selection_loop compare elements size i n)
  unfolding selection_loop
  selection_loop-Sorts elements size i zero h room done = (
    IsRearranged-refl 0 size elements,
    λ a b le high. elim (dec_lt a i) [
      | yes p ↦ done a b le p high
      | no p ↦
          Below-along order refl (ap (cell elements) {x = b} {y = a} (omega arith))
            (Below-refl order _)
    ],
  )
  selection_loop-Sorts elements size i (suc n) h room done =
      let m = min_loop compare elements i (i + 1) (size - (i + 1)) in
      let first : IsLeast elements i (i + 1) i = record {
        from = omega arith;
        under = omega arith;
        least = λ k p q.
            Below-along order refl (ap (cell elements) {x = k} {y = i} (omega arith))
              (Below-refl order _);
      } in
      let l = min_loop-IsLeast elements i i (i + 1) (size - (i + 1)) size (omega arith) first in
      let next = swap elements m i in
      let (r, sorted) =
        selection_loop-Sorts next size (i + 1) n (omega arith)
          (omega (arith, length-swap elements m i))
          (IsDone-step elements i m size room (omega arith) l done) in
      (
        IsRearranged-trans 0 size elements next _
            (swap-IsRearranged elements m i 0 size (omega arith) l.under (omega arith) (omega arith)
              room)
            r,
        sorted,
      )

  pub selection_sort-Sorts :
      (elements : List A) (size : ℕ)
      → 0 < size
      → size ≤ length elements
      → Sorts compare size elements (selection_sort compare elements size)
  unfolding selection_sort
  selection_sort-Sorts elements size some_left room =
      selection_loop-Sorts elements size 0 (size - 1) (omega arith) room
        (λ a b le low high. absurd (omega arith))
