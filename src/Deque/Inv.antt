-- ===== src/Deque/Inv.antt =====
-- The representation invariant of a deque, its accesses in range, and what the loops over it read.
use libcdsa.Base.{
  ℕ, zero, suc, ◌+◌, ◌-◌, ◌%◌, ◌^◌, ◌≤◌, ◌<◌, ◌≡◌, refl, sym, ap, ap₂, ◌∙◌, bit_and, List, [], ◌∷◌,
  ◌++◌, arith, length, get_or,
}
use libcdsa.Base.Bits.{bit_and_mask}
use libcdsa.Base.Ring.{wrap, mod-eq-wrap}
use libcdsa.Core.{Pointer}
use libcdsa.Deque.{Deque, min_capacity, max_capacity, element_at, elements_from}

pub record IsValid {ℓ} {A : Type ℓ} (deque : Deque A) : Type 0 where
  pub exponent : ℕ
  pub power : deque.capacity ≡ 2 ^ exponent
  pub large : min_capacity ≤ deque.capacity
  pub small : deque.capacity ≤ max_capacity
  pub storage : length deque.elements ≡ deque.capacity
  pub first_in : deque.first < deque.capacity
  pub size_in : deque.size ≤ deque.capacity
  pub last_at : deque.last ≡ (deque.first + deque.size) % deque.capacity

-- `i & (capacity - 1)` is `i % capacity`.
pub mask {ℓ} :
    {A : Type ℓ} {deque : Deque A}
    → IsValid deque
    → (i : ℕ) → bit_and i (deque.capacity - 1) ≡ i % deque.capacity
mask {deque} v i =
    ap (λ c. bit_and i (c - 1)) v.power ∙ bit_and_mask v.exponent i ∙ sym (ap (λ c. i % c) v.power)

module _ {ℓ} {A : Type ℓ} ⦃pointer : Pointer A⦄ where
  -- The elements from front to back: the list that a deque stands for.
  abbrev pub contents : Deque A → List A
  contents deque = elements_from deque 0 deque.size

  pub length-elements_from : (deque : Deque A) (i n : ℕ) → length (elements_from deque i n) ≡ n
  unfolding elements_from
  length-elements_from deque i zero = refl
  length-elements_from deque i (suc n) = ap suc (length-elements_from deque (i + 1) n)

  pub elements_from-suc :
      (deque : Deque A) (i n : ℕ)
      → elements_from deque i (suc n) ≡ elements_from deque i n ++ element_at deque (i + n) ∷ []
  unfolding elements_from
  elements_from-suc deque i zero = ap (λ k. element_at deque k ∷ []) (omega arith)
  elements_from-suc deque i (suc n) = ap (◌∷◌ (element_at deque i)) (
      elements_from-suc deque (i + 1) n
      ∙ ap (λ k. elements_from deque (i + 1) n ++ element_at deque k ∷ []) (omega arith))

  pub elements_from_congr :
      (d e : Deque A) (i j n : ℕ)
      → ((k : ℕ) → k < n → element_at d (i + k) ≡ element_at e (j + k))
      → elements_from d i n ≡ elements_from e j n
  unfolding elements_from
  elements_from_congr d e i j zero h = refl
  elements_from_congr d e i j (suc n) h =
      ap₂ ◌∷◌
        (ap (element_at d) (omega arith) ∙ h 0 (omega arith) ∙ ap (element_at e) (omega arith))
        (elements_from_congr d e (i + 1) (j + 1) n (λ k p.
          ap (element_at d) (omega arith)
          ∙ h (suc k) (omega arith)
          ∙ ap (element_at e) (omega arith)))

  pub element_at_lem :
      {deque : Deque A} (i : ℕ)
      → IsValid deque
      → i ≤ deque.capacity
      → element_at deque i
        ≡ get_or deque.elements (wrap deque.capacity (deque.first + i)) pointer.null
  unfolding element_at
  element_at_lem {deque} i v h =
      ap (λ k. get_or deque.elements k pointer.null)
        (mask v (deque.first + i) ∙ mod-eq-wrap deque.capacity (deque.first + i) (omega arith))

  pub get_or-elements_from :
      (deque : Deque A) (i n j : ℕ)
      → j < n
      → get_or (elements_from deque i n) j pointer.null ≡ element_at deque (i + j)
  unfolding elements_from
  get_or-elements_from deque i zero j h = absurd (omega arith)
  get_or-elements_from deque i (suc n) zero h = ap (element_at deque) (omega arith)
  get_or-elements_from deque i (suc n) (suc j) h =
      get_or-elements_from deque (i + 1) n j (omega arith) ∙ ap (element_at deque) (omega arith)

  -- The two shapes of `elements_from_congr` that the operations at the ends need.
  pub elements_from_same :
      (d e : Deque A) (n : ℕ)
      → ((k : ℕ) → k < n → element_at d k ≡ element_at e k)
      → elements_from d 0 n ≡ elements_from e 0 n
  elements_from_same d e n h =
      elements_from_congr d e 0 0 n
        λ k p. ap (element_at d) (omega arith) ∙ h k p ∙ ap (element_at e) (omega arith)

  pub elements_from_shifted :
      (d e : Deque A) (n : ℕ)
      → ((k : ℕ) → k < n → element_at d (k + 1) ≡ element_at e k)
      → elements_from d 1 n ≡ elements_from e 0 n
  elements_from_shifted d e n h =
      elements_from_congr d e 1 0 n
        λ k p. ap (element_at d) (omega arith) ∙ h k p ∙ ap (element_at e) (omega arith)
