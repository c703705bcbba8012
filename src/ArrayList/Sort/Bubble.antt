-- ===== src/ArrayList/Sort/Bubble.antt =====
-- Bubble sort.
use libcdsa.Core.Cells.{cell, swap, swap_left, swap_right, swap_other, length-swap}
use libcdsa.Core.Comparison.{
  Below, IsComparison, is_positive, Below-of_above, Below-refl, Below-along,
}
use libcdsa.Base.{
  ℕ, zero, suc, ◌+◌, ◌-◌, ◌≤◌, ◌<◌, ◌≡◌, refl, ap, ◌∙◌, arith, inl, inr, Bool-cases, true, false,
  List, length, ℕ_discrete, dec_lt,
}
use libcdsa.Base.Int.{ℤ}
use libcdsa.Core.{Pointer}
use libcdsa.ArrayList.Sort.{bubble_round, bubble_loop, bubble_sort}
use libcdsa.ArrayList.Sort.Rearranged.{
  Sorts, IsRearranged, IsRearranged-refl, IsRearranged-trans, IsRearranged-widen, swap-IsRearranged,
}

module _ {A : Type 0} ⦃pointer : Pointer A⦄ {compare : A → A → ℤ}
    (order : IsComparison compare) where
  -- No cell up to `j` ranks above that at `j`.
  abbrev IsTop : List A → ℕ → Type 0
  IsTop elements j = (k : ℕ) → k ≤ j → Below compare (cell elements k) (cell elements j)

  Raised : List A → ℕ → List A → Type 1
  Raised elements j after = IsRearranged 0 (j + 1) elements after × IsTop after j

  IsTop-swap :
      (elements : List A) (j : ℕ)
      → j + 1 < length elements
      → IsTop elements j
      → is_positive (compare (cell elements j) (cell elements (j + 1))) ≡ true
      → IsTop (swap elements j (j + 1)) (j + 1)
  IsTop-swap elements j room top above k h =
      let right = swap_right elements j (j + 1) (omega arith) room in
      elim (ℕ_discrete k (j + 1)) [
        | yes e ↦
            Below-along order (ap (cell (swap elements j (j + 1))) e) refl (Below-refl order _)
        | no ne ↦ elim (ℕ_discrete k j) [
          | yes e ↦
              let left = swap_left elements j (j + 1) (omega arith) room (omega arith) in
              Below-along order (ap (cell (swap elements j (j + 1))) e ∙ left) right
                (Below-of_above order _ _ above)
          | no ne' ↦
              Below-along order (swap_other elements j (j + 1) (omega arith) room k ne' ne) right
                (top k (omega arith))
        ]
      ]

  IsTop-stay :
      (elements : List A) (j : ℕ)
      → IsTop elements j
      → is_positive (compare (cell elements j) (cell elements (j + 1))) ≡ false
      → IsTop elements (j + 1)
  IsTop-stay elements j top below k h = elim (ℕ_discrete k (j + 1)) [
    | yes e ↦ Below-along order (ap (cell elements) e) refl (Below-refl order _)
    | no ne ↦ order.carried _ _ _ (top k (omega arith)) below
  ]

  bubble_round-Raised :
      (elements : List A) (j n m : ℕ)
      → j + n ≡ m
      → m < length elements
      → IsTop elements j
      → Raised elements m (bubble_round compare elements j n)
  unfolding bubble_round Raised
  bubble_round-Raised elements j zero m h room top = (
    IsRearranged-refl 0 (m + 1) elements,
    λ k p.
        Below-along order refl (ap (cell elements) {x = m} {y = j} (omega arith))
          (top k (omega arith)),
  )
  bubble_round-Raised elements j (suc n) m h room top =
      elim (Bool-cases (is_positive (compare (cell elements j) (cell elements (j + 1))))) [
        | inl above ↦
            let next = swap elements j (j + 1) in
            let (r, t) =
              bubble_round-Raised next (j + 1) n m (omega arith)
                (omega (arith, length-swap elements j (j + 1)))
                (IsTop-swap elements j (omega arith) top above) in
            rw (bubble_round, above)
              (
                IsRearranged-trans 0 (m + 1) elements next _
                    (swap-IsRearranged elements j (j + 1) 0 (m + 1) (omega arith) (omega arith)
                      (omega arith) (omega arith) (omega arith))
                    r,
                t,
              )
        | inr below ↦
            rw (bubble_round, below)
              (bubble_round-Raised elements (j + 1) n m (omega arith) room
                (IsTop-stay elements j top below))
      ]

  -- The cells from `m` on are in order, and none of them ranks below one before `m`.
  abbrev IsDone : List A → ℕ → ℕ → Type 0
  IsDone elements m size =
      (i j : ℕ) → i ≤ j → m ≤ j → j < size → Below compare (cell elements i) (cell elements j)

  IsDone-step :
      (elements after : List A) (m size : ℕ)
      → IsDone elements (m + 1) size
      → Raised elements m after
      → IsDone after m size
  unfolding Raised
  IsDone-step elements after m size done (r, top) i j h low high = elim (ℕ_discrete j m) [
    | yes e ↦ Below-along order refl (ap (cell after) e) (top i (omega arith))
    | no ne ↦
        let at = r.behind j (omega arith) in
        elim (dec_lt i (m + 1)) [
          | yes p ↦
              r.kept (λ a. Below compare a (cell after j))
                (λ k l q. Below-along order refl at (done k j (omega arith) (omega arith) high)) i
                (omega arith) p
          | no p ↦ Below-along order (r.behind i (omega arith)) at (done i j h (omega arith) high)
        ]
  ]

  IsTop-zero : (elements : List A) → IsTop elements 0
  IsTop-zero elements k h =
      Below-along order (ap (cell elements) {x = k} {y = 0} (omega arith)) refl (Below-refl order _)

  bubble_loop-Sorts :
      (elements : List A) (size i n : ℕ)
      → i + n + 1 ≡ size
      → size ≤ length elements
      → IsDone elements (n + 1) size
      → Sorts compare size elements (bubble_loop compare elements size i n)
  unfolding bubble_loop Raised
  bubble_loop-Sorts elements size i zero h room done = (
    IsRearranged-refl 0 size elements,
    λ a b l u. elim (ℕ_discrete b 0) [
      | yes e ↦
          Below-along order (ap (cell elements) {x = a} {y = b} (omega arith)) refl
            (Below-refl order _)
      | no ne ↦ done a b l (omega arith) u
    ],
  )
  bubble_loop-Sorts elements size i (suc n) h room done =
      let m = size - i - 1 in
      let next = bubble_round compare elements 0 m in
      let raised =
        bubble_round-Raised elements 0 m m (omega arith) (omega arith) (IsTop-zero elements) in
      let done' : IsDone elements (m + 1) size = λ a b l u p. done a b l (omega arith) p in
      let next_done : IsDone next (n + 1) size =
        λ a b l u p. IsDone-step elements next m size done' raised a b l (omega arith) p in
      let (r, sorted) =
        bubble_loop-Sorts next size (i + 1) n (omega arith) (omega (arith, raised.0.whole))
          next_done in
      (
        IsRearranged-trans 0 size elements next _
            (IsRearranged-widen 0 (m + 1) 0 size elements next (omega arith) (omega arith) raised.0)
            r,
        sorted,
      )

  pub bubble_sort-Sorts :
      (elements : List A) (size : ℕ)
      → 0 < size
      → size ≤ length elements
      → Sorts compare size elements (bubble_sort compare elements size)
  unfolding bubble_sort
  bubble_sort-Sorts elements size some_left room =
      bubble_loop-Sorts elements size 0 (size - 1) (omega arith) room
        (λ i j l h p. absurd (omega arith))
