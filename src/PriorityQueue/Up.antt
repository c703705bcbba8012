-- ===== src/PriorityQueue/Up.antt =====
-- `heapify_after_insert`: it restores the heap order above one index, and only reorders.
use libcdsa.Core.Comparison.{is_positive, Below, IsComparison, Below-of_above, Below-along}
use libcdsa.Core.Cells.{
  swap, cell, length-swap, swap_left, swap_right, swap_other, occurrences, occurrences-swap,
}
use libcdsa.PriorityQueue.Order.{parent_of_lem, parent, IsHeap, IsBridged, IsHeapAbove}
use libcdsa.Base.{
  ℕ, zero, suc, ◌≤◌, ◌<◌, ◌≡◌, ◌≢◌, refl, sym, ap, subst, ◌∙◌, arith, inl, inr, Bool, true, false,
  not, ◌&&◌, Bool-cases, List, length, ◌==◌, ℕ_discrete,
}
use libcdsa.Base.Int.{ℤ}
use libcdsa.Core.{Pointer}
use libcdsa.PriorityQueue.{parent_of, sift_up}

module _ {ℓ} {A : Type ℓ} ⦃pointer : Pointer A⦄ {compare : A → A → ℤ}
    (order : IsComparison compare) where
  module _ (elements : List A) (n i : ℕ) (whole : n ≤ length elements) (positive : 0 < i)
      (i_in : i < n)
      (ranks : is_positive (compare (cell elements i) (cell elements (parent i))) ≡ true)
      (heap : IsHeapAbove compare elements n i) (bridged : IsBridged compare elements n i) where
    swapped : List A
    swapped = swap elements i (parent i)

    at_child : cell swapped i ≡ cell elements (parent i)
    unfolding swapped
    at_child =
        swap_left elements i (parent i) (omega arith) (omega arith) (λ e. absurd (omega arith))

    at_parent : cell swapped (parent i) ≡ cell elements i
    unfolding swapped
    at_parent = swap_right elements i (parent i) (omega arith) (omega arith)

    elsewhere : (k : ℕ) → k ≢ i → k ≢ parent i → cell swapped k ≡ cell elements k
    unfolding swapped
    elsewhere k = swap_other elements i (parent i) (omega arith) (omega arith) k

    child-Below : Below compare (cell elements (parent i)) (cell elements i)
    child-Below = Below-of_above order (cell elements i) (cell elements (parent i)) ranks

    swapped-IsHeapAbove : IsHeapAbove compare swapped n (parent i)
    swapped-IsHeapAbove k k0 kn away = elim (ℕ_discrete k i) [
      | yes e ↦
          Below-along order (ap (cell swapped) e ∙ at_child)
            (ap (λ j. cell swapped (parent j)) e ∙ at_parent) child-Below
      | no ki ↦ elim (ℕ_discrete (parent k) i) [
        | yes e ↦
            Below-along order (elsewhere k ki away) (ap (cell swapped) e ∙ at_child)
              (bridged k positive k0 kn e)
        | no pi ↦ elim (ℕ_discrete (parent k) (parent i)) [
          | yes e ↦ Below-along order (elsewhere k ki away) (ap (cell swapped) e ∙ at_parent) (
              order.carried _ _ _
                (subst (λ j. Below compare (cell elements k) (cell elements j)) e (heap k k0 kn ki))
                child-Below)
          | no pp ↦
              Below-along order (elsewhere k ki away) (elsewhere (parent k) pi pp) (heap k k0 kn ki)
        ]
      ]
    ]

    swapped-IsBridged : IsBridged compare swapped n (parent i)
    swapped-IsBridged k p0 k0 kn e =
        let grand =
          elsewhere (parent (parent i)) (λ h. absurd (omega arith)) (λ h. absurd (omega arith)) in
        let over = heap (parent i) p0 (omega arith) (λ h. absurd (omega arith)) in
        elim (ℕ_discrete k i) [
          | yes h ↦ Below-along order (ap (cell swapped) h ∙ at_child) grand over
          | no ki ↦ Below-along order (elsewhere k ki (λ h. absurd (omega arith))) grand (
              order.carried _ _ _
                (subst (λ j. Below compare (cell elements k) (cell elements j)) e (heap k k0 kn ki))
                over)
        ]

  -- Whether the loop goes on, where `p` is the parent of `i`.
  abbrev climbing : List A → ℕ → ℕ → Bool
  climbing elements i p = not (i == 0) && is_positive (compare (cell elements i) (cell elements p))

  sift_up_climbs :
      (fuel : ℕ) (elements : List A) (i : ℕ)
      → climbing elements i (parent i) ≡ true
      → sift_up compare (suc fuel) elements i
        ≡ sift_up compare fuel (swap elements i (parent i)) (parent i)
  unfolding sift_up
  sift_up_climbs fuel elements i =
      subst
        (λ p.
          climbing elements i p ≡ true
          → sift_up compare (suc fuel) elements i ≡ sift_up compare fuel (swap elements i p) p)
        (parent_of_lem i) (λ climbs. rw (sift_up, climbs))

  sift_up_stays :
      (fuel : ℕ) (elements : List A) (i : ℕ)
      → climbing elements i (parent i) ≡ false
      → sift_up compare (suc fuel) elements i ≡ elements
  unfolding sift_up
  sift_up_stays fuel elements i =
      subst (λ p. climbing elements i p ≡ false → sift_up compare (suc fuel) elements i ≡ elements)
        (parent_of_lem i) (λ stays. rw (sift_up, stays))

  pub sift_up-IsHeap :
      (fuel : ℕ) (elements : List A) (n i : ℕ)
      → n ≤ length elements
      → i ≤ fuel
      → i < n
      → IsHeapAbove compare elements n i
      → IsBridged compare elements n i
      → IsHeap compare (sift_up compare fuel elements i) n
  unfolding sift_up swapped
  sift_up-IsHeap zero elements n i whole f i_in heap bridged =
      λ k k0 kn. heap k k0 kn (λ e. absurd (omega arith))
  sift_up-IsHeap (suc fuel) elements n i whole f i_in heap bridged =
      elim (Bool-cases (climbing elements i (parent i))) [
        | inl climbs ↦
            let positive : 0 < i = ground arith in
            let ranks : is_positive (compare (cell elements i) (cell elements (parent i))) ≡ true =
              ground arith in
            subst (λ after. IsHeap compare after n) (sym (sift_up_climbs fuel elements i climbs))
              (sift_up-IsHeap fuel (swap elements i (parent i)) n (parent i)
                (omega (arith, length-swap elements i (parent i))) (omega arith) (omega arith)
                (swapped-IsHeapAbove elements n i whole positive i_in ranks heap bridged)
                (swapped-IsBridged elements n i whole positive i_in ranks heap bridged))
        | inr stays ↦
            subst (λ after. IsHeap compare after n) (sym (sift_up_stays fuel elements i stays))
              (λ k k0 kn. elim (ℕ_discrete k i) [
                | yes h ↦
                    Below-along order (ap (cell elements) h) (ap (λ j. cell elements (parent j)) h)
                      (ground arith)
                | no ki ↦ heap k k0 kn ki
              ])
      ]

module _ {ℓ} {A : Type ℓ} ⦃pointer : Pointer A⦄ (compare : A → A → ℤ) where
  pub length-sift_up :
      (fuel : ℕ) (elements : List A) (i : ℕ)
      → length (sift_up compare fuel elements i) ≡ length elements
  unfolding sift_up
  length-sift_up zero elements i = refl
  length-sift_up (suc fuel) elements i =
      elim (Bool-cases
        (not (i == 0) && is_positive (compare (cell elements i) (cell elements (parent_of i))))) [
          | inl climbs ↦
              rw (sift_up, climbs)
                (length-sift_up fuel (swap elements i (parent_of i)) (parent_of i)
                  ∙ length-swap elements i (parent_of i))
          | inr stays ↦ rw (sift_up, stays)
        ]

  pub occurrences-sift_up :
      (test : A → Bool) (fuel : ℕ) (elements : List A) (n i : ℕ)
      → n ≤ length elements
      → i < n
      → occurrences test (sift_up compare fuel elements i) n ≡ occurrences test elements n
  unfolding sift_up
  occurrences-sift_up test zero elements n i whole i_in = refl
  occurrences-sift_up test (suc fuel) elements n i whole i_in =
      let e = parent_of_lem i in
      elim (Bool-cases
        (not (i == 0) && is_positive (compare (cell elements i) (cell elements (parent_of i))))) [
          | inl climbs ↦
              rw (sift_up, climbs)
                (occurrences-sift_up test fuel (swap elements i (parent_of i)) n (parent_of i)
                    (omega (arith, length-swap elements i (parent_of i))) (omega arith)
                  ∙ occurrences-swap test elements i (parent_of i) n (omega arith) (omega arith)
                      i_in (omega arith))
          | inr stays ↦ rw (sift_up, stays)
        ]
