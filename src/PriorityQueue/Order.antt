-- ===== src/PriorityQueue/Order.antt =====
-- The heap order, and that the two sifting loops restore it.
use libcdsa.Core.Comparison.{Below, IsComparison, Below-refl}
use libcdsa.Core.Cells.{cell}
use libcdsa.Base.{ℕ, zero, suc, ◌-◌, ◌/◌, ◌≤◌, ◌<◌, ◌≡◌, ◌≢◌, arith, List}
use libcdsa.Base.Int.{ℤ}
use libcdsa.Core.{Pointer}
use libcdsa.PriorityQueue.{parent_of}

pub parent_of_lem : (i : ℕ) → parent_of i ≡ (i - 1) / 2
unfolding parent_of
parent_of_lem zero = ground arith
parent_of_lem (suc i) = ground arith

abbrev pub parent : ℕ → ℕ
parent i = (i - 1) / 2

module _ {ℓ} {A : Type ℓ} ⦃pointer : Pointer A⦄ (compare : A → A → ℤ) where
  -- No element of the first `n` ranks above its parent.
  abbrev pub IsHeap : List A → ℕ → Type 0
  IsHeap elements n =
      (k : ℕ) → 0 < k → k < n → Below compare (cell elements k) (cell elements (parent k))

  -- A heap but for the step from the children of `i` to `i`, or from `i` to its parent: the
  -- children of `i` do not rank above the parent of `i`.
  abbrev pub IsBridged : List A → ℕ → ℕ → Type 0
  IsBridged elements n i =
      (k : ℕ)
      → 0 < i
      → 0 < k
      → k < n
      → parent k ≡ i
      → Below compare (cell elements k) (cell elements (parent i))

  abbrev pub IsHeapAbove : List A → ℕ → ℕ → Type 0
  IsHeapAbove elements n i =
      (k : ℕ) → 0 < k → k < n → k ≢ i → Below compare (cell elements k) (cell elements (parent k))

  abbrev pub IsHeapBelow : List A → ℕ → ℕ → Type 0
  IsHeapBelow elements n i =
      (k : ℕ)
      → 0 < k
      → k < n
      → parent k ≢ i
      → Below compare (cell elements k) (cell elements (parent k))

module _ {ℓ} {A : Type ℓ} ⦃pointer : Pointer A⦄ {compare : A → A → ℤ}
    (order : IsComparison compare) where
  -- Every element of a heap ranks at most as high as the first.
  pub root_greatest :
      (fuel : ℕ) (elements : List A) (n k : ℕ)
      → IsHeap compare elements n
      → k ≤ fuel
      → k < n
      → Below compare (cell elements k) (cell elements 0)
  root_greatest fuel elements n zero h f p = Below-refl order _
  root_greatest zero elements n (suc k) h f p = absurd (omega arith)
  root_greatest (suc fuel) elements n (suc k) h f p =
      order.carried _ _ _ (h (suc k) (omega arith) p)
        (root_greatest fuel elements n (parent (suc k)) h (omega arith) (omega arith))
