-- ===== src/PriorityQueue/Down.antt =====
-- `heapify_after_delete`: it restores the heap order below one index, and only reorders.
use libcdsa.Core.Cells.{
  swap, cell, length-swap, swap_left, swap_right, swap_other, occurrences, occurrences-swap,
}
use libcdsa.Core.Comparison.{Below, IsComparison, Below-along}
use libcdsa.Base.{
  ℕ, zero, suc, ◌+◌, ◌≤◌, ◌<◌, ◌≡◌, ◌≢◌, ◌⊎◌, refl, sym, ap, subst, ◌∙◌, arith, inl, inr, Bool,
  ◌||◌, Bool-cases, List, length, leb, ◌==◌, ℕ_discrete,
}
use libcdsa.Base.Int.{ℤ}
use libcdsa.Core.{Pointer}
use libcdsa.PriorityQueue.{greatest, sift_down}
use libcdsa.PriorityQueue.Order.{parent, IsHeap, IsBridged, IsHeapBelow}
use libcdsa.PriorityQueue.Choice.{greatest-IsGreatest}

module _ {ℓ} {A : Type ℓ} ⦃pointer : Pointer A⦄ {compare : A → A → ℤ}
    (order : IsComparison compare) where
  module _ (elements : List A) (n i c : ℕ) (whole : n ≤ length elements) (i_in : i < n)
      (c_in : c < n) (positive : 0 < c) (child : parent c ≡ i)
      (ranks : Below compare (cell elements i) (cell elements c))
      (children : (k : ℕ)
        → 0 < k
        → k < n
        → parent k ≡ i
        → Below compare (cell elements k) (cell elements c))
      (heap : IsHeapBelow compare elements n i) (bridged : IsBridged compare elements n i) where
    swapped : List A
    swapped = swap elements i c

    at_index : cell swapped i ≡ cell elements c
    unfolding swapped
    at_index = swap_left elements i c (omega arith) (omega arith) (λ e. absurd (omega arith))

    at_child : cell swapped c ≡ cell elements i
    unfolding swapped
    at_child = swap_right elements i c (omega arith) (omega arith)

    elsewhere : (k : ℕ) → k ≢ i → k ≢ c → cell swapped k ≡ cell elements k
    unfolding swapped
    elsewhere k = swap_other elements i c (omega arith) (omega arith) k

    swapped-IsHeapBelow : IsHeapBelow compare swapped n c
    swapped-IsHeapBelow k k0 kn away = elim (ℕ_discrete k c) [
      | yes e ↦
          Below-along order (ap (cell swapped) e ∙ at_child)
            (ap (λ j. cell swapped (parent j)) e ∙ ap (cell swapped) child ∙ at_index) ranks
      | no kc ↦ elim (ℕ_discrete (parent k) i) [
        | yes e ↦
            Below-along order (elsewhere k (λ h. absurd (omega arith)) kc)
              (ap (cell swapped) e ∙ at_index) (children k k0 kn e)
        | no pi ↦ elim (ℕ_discrete k i) [
          | yes e ↦
              Below-along order (ap (cell swapped) e ∙ at_index)
                (ap (λ j. cell swapped (parent j)) e
                  ∙ elsewhere (parent i) (λ h. absurd (omega arith)) (λ h. absurd (omega arith)))
                (bridged c (omega arith) positive c_in child)
          | no ki ↦
              Below-along order (elsewhere k ki kc) (elsewhere (parent k) pi away) (heap k k0 kn pi)
        ]
      ]
    ]

    swapped-IsBridged : IsBridged compare swapped n c
    swapped-IsBridged k c0 k0 kn e =
        Below-along order (elsewhere k (λ h. absurd (omega arith)) (λ h. absurd (omega arith)))
          (ap (cell swapped) child ∙ at_index)
          (subst (λ j. Below compare (cell elements k) (cell elements j)) e
            (heap k k0 kn (λ h. absurd (omega arith))))

  -- Whether the recursion ends.
  abbrev resting : A → List A → ℕ → ℕ → Bool
  resting stray elements n i = leb n 1 || greatest compare stray elements n i == i

  pub sift_down-IsHeap :
      (fuel : ℕ) (stray : A) (elements : List A) (n i : ℕ)
      → n ≤ length elements
      → n ≤ i + fuel
      → (n ≤ 1) ⊎ (i < n)
      → IsHeapBelow compare elements n i
      → IsBridged compare elements n i
      → IsHeap compare (sift_down compare fuel stray elements n i) n
  unfolding sift_down swapped
  sift_down-IsHeap zero stray elements n i whole f place heap bridged =
      λ k k0 kn. heap k k0 kn (λ h. absurd (omega arith))
  sift_down-IsHeap (suc fuel) stray elements n i whole f place heap bridged =
      let c = greatest compare stray elements n i in
      elim (Bool-cases (resting stray elements n i)) [
        | inl rests ↦
            rw (sift_down, rests)
              (λ k k0 kn. elim (ℕ_discrete (parent k) i) [
                | no pi ↦ heap k k0 kn pi
                | yes e ↦
                    let g = greatest-IsGreatest order stray elements n i whole (omega arith) in
                    let same : c ≡ i = ground arith in
                    Below-along order refl (ap (cell elements) (e ∙ sym same))
                      (g.children k k0 kn e)
              ])
        | inr goes ↦
            let i_in : i < n = ground (arith, place) in
            let g = greatest-IsGreatest order stray elements n i whole i_in in
            elim g.place [
              | inl same ↦ absurd (ground arith)
              | inr (child, positive, c_in) ↦
                  rw (sift_down, goes)
                    (sift_down-IsHeap fuel stray (swap elements i c) n c
                      (omega (arith, length-swap elements i c)) (omega arith) (inr c_in)
                      (swapped-IsHeapBelow elements n i c whole i_in c_in positive child g.not_below
                        g.children heap bridged)
                      (swapped-IsBridged elements n i c whole i_in c_in positive child g.not_below
                        g.children heap bridged))
            ]
      ]

  pub sift_down_keeps :
      (test : A → Bool) (fuel : ℕ) (stray : A) (elements : List A) (n i : ℕ)
      → n ≤ length elements
      → (n ≤ 1) ⊎ (i < n)
      → (length (sift_down compare fuel stray elements n i) ≡ length elements)
        × (occurrences test (sift_down compare fuel stray elements n i) n
            ≡ occurrences test elements n)
  unfolding sift_down
  sift_down_keeps test zero stray elements n i whole place = (refl, refl)
  sift_down_keeps test (suc fuel) stray elements n i whole place =
      let c = greatest compare stray elements n i in
      elim (Bool-cases (resting stray elements n i)) [
        | inl rests ↦ rw (sift_down, rests) (refl, refl)
        | inr goes ↦
            let i_in : i < n = ground (arith, place) in
            let g = greatest-IsGreatest order stray elements n i whole i_in in
            let c_in : c < n = elim g.place [
              | inl same ↦ omega arith
              | inr (child, positive, c_in) ↦ c_in
            ] in
            let size = length-swap elements i c in
            let (kept, same) =
              sift_down_keeps test fuel stray (swap elements i c) n c (omega arith) (inr c_in) in
            rw (sift_down, goes)
              (
                kept ∙ size,
                same ∙ occurrences-swap test elements i c n (omega arith) (omega arith) i_in c_in,
              )
      ]
