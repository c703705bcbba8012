-- ===== src/Deque/Ends.antt =====
-- Adding and removing at the two ends of a deque, against the list of its elements.
use libcdsa.Base.{
  ℕ, zero, suc, ◌+◌, ◌-◌, ◌%◌, ◌^◌, ◌<◌, ◌≡◌, sym, ap, ap₂, ◌∙◌, bit_and, [], ◌∷◌, ◌++◌, arith,
  get_or, set, length-set, get_or-set_self, get_or-set_ne,
}
use libcdsa.Base.Bits.{ones_mod, exponent_le}
use libcdsa.Base.Ring.{wrap, mod-eq-wrap, back, mod-back}
use native.Mathlib.Nat.{mod-eq_of_lt, mod-add-mod}
use libcdsa.Core.{Pointer}
use libcdsa.Deque.{Deque, element_at, elements_from, push_first, push_last}
use libcdsa.Deque.Inv.{
  IsValid, mask, contents, elements_from-suc, elements_from_same, elements_from_shifted,
  element_at_lem,
}

-- `(i - 1) & (capacity - 1)` steps back round the ring.
pub step_back {ℓ} :
    {A : Type ℓ} {deque : Deque A} (i : ℕ)
    → IsValid deque
    → i < deque.capacity
    → bit_and ((i + 2 ^ 32 - 1) % 2 ^ 32) (deque.capacity - 1) ≡ back deque.capacity i
step_back {deque} zero v h =
    mask v _
    ∙ ap (λ c. (2 ^ 32 - 1) % c) v.power
    ∙ ones_mod v.exponent 32 (exponent_le v.exponent 32 (omega (arith, v.power, v.small)))
    ∙ ap (λ c. c - 1) (sym v.power)
step_back {deque} (suc i) v h =
    mask v _
    ∙ ap (λ j. j % deque.capacity)
        (let narrow : (suc i + 2 ^ 32 - 1) % 2 ^ 32 ≡ i = omega (arith, v.small) in narrow)
    ∙ mod-eq_of_lt (omega arith)
    ∙ ground arith

module _ {ℓ} {A : Type ℓ} ⦃pointer : Pointer A⦄ {deque : Deque A} (x : A) where
  pub push_last-IsValid : IsValid deque → deque.size < deque.capacity → IsValid (push_last deque x)
  unfolding push_last
  push_last-IsValid v room = record {
    exponent = v.exponent;
    power = v.power;
    large = v.large;
    small = v.small;
    storage = length-set deque.elements deque.last x ∙ v.storage;
    first_in = v.first_in;
    size_in = omega arith;
    last_at =
        mask v _
        ∙ ap (λ l. (l + 1) % deque.capacity) v.last_at
        ∙ mod-add-mod (deque.first + deque.size) deque.capacity 1
        ∙ ap (λ j. j % deque.capacity) (omega arith);
  }

  pub push_first-IsValid :
      IsValid deque → deque.size < deque.capacity → IsValid (push_first deque x)
  unfolding push_first
  push_first-IsValid v room = record {
    exponent = v.exponent;
    power = v.power;
    large = v.large;
    small = v.small;
    storage = length-set deque.elements _ x ∙ v.storage;
    first_in = rw (step_back deque.first v v.first_in) (ground arith);
    size_in = omega arith;
    last_at =
        v.last_at
        ∙ sym (mod-back deque.capacity deque.first deque.size (omega arith))
        ∙ ap (λ f. (f + (deque.size + 1)) % deque.capacity)
            (sym (step_back deque.first v v.first_in));
  }

module _ {ℓ} {A : Type ℓ} ⦃pointer : Pointer A⦄ {deque : Deque A} (x : A) (v : IsValid deque)
    (room : deque.size < deque.capacity) where
  -- The cell that `deque_add_last` writes.
  last-wrap : deque.last ≡ wrap deque.capacity (deque.first + deque.size)
  last-wrap = v.last_at ∙ mod-eq-wrap deque.capacity (deque.first + deque.size) (omega arith)

  push_last-old : (k : ℕ) → k < deque.size → element_at (push_last deque x) k ≡ element_at deque k
  unfolding push_last
  push_last-old k h =
      element_at_lem k (push_last-IsValid x v room) (omega arith)
      ∙ get_or-set_ne deque.elements deque.last (wrap deque.capacity (deque.first + k)) x
          pointer.null (λ e. ground (arith, last-wrap))
      ∙ sym (element_at_lem k v (omega arith))

  push_last-new : element_at (push_last deque x) deque.size ≡ x
  unfolding push_last
  push_last-new =
      element_at_lem deque.size (push_last-IsValid x v room) (omega arith)
      ∙ ap (λ k. get_or (set deque.elements deque.last x) k pointer.null) (sym last-wrap)
      ∙ get_or-set_self deque.elements deque.last x pointer.null
          (ground (arith, last-wrap, v.storage))

  pub contents-push_last : contents (push_last deque x) ≡ contents deque ++ x ∷ []
  unfolding push_last
  contents-push_last =
      ap (elements_from (push_last deque x) 0) (omega arith)
      ∙ elements_from-suc (push_last deque x) 0 deque.size
      ∙ ap₂ (λ xs y. xs ++ y ∷ [])
          (elements_from_same (push_last deque x) deque deque.size push_last-old)
          (ap (element_at (push_last deque x)) (omega arith) ∙ push_last-new)

  -- The cell that `deque_add_first` writes.
  first-back :
      bit_and ((deque.first + 2 ^ 32 - 1) % 2 ^ 32) (deque.capacity - 1)
      ≡ back deque.capacity deque.first
  first-back = step_back deque.first v v.first_in

  push_first-old :
      (k : ℕ) → k < deque.size → element_at (push_first deque x) (k + 1) ≡ element_at deque k
  unfolding push_first
  push_first-old k h =
      element_at_lem (k + 1) (push_first-IsValid x v room) (omega arith)
      ∙ ap (λ f. get_or (set deque.elements f x) (wrap deque.capacity (f + (k + 1))) pointer.null)
          first-back
      ∙ get_or-set_ne deque.elements _ _ x pointer.null (λ e. ground arith)
      ∙ ap (λ j. get_or deque.elements j pointer.null) (ground arith)
      ∙ sym (element_at_lem k v (omega arith))

  push_first-new : element_at (push_first deque x) 0 ≡ x
  unfolding push_first
  push_first-new =
      element_at_lem 0 (push_first-IsValid x v room) (omega arith)
      ∙ ap (λ f. get_or (set deque.elements f x) (wrap deque.capacity (f + 0)) pointer.null)
          first-back
      ∙ ap (λ j. get_or (set deque.elements (back deque.capacity deque.first) x) j pointer.null)
          (ground arith)
      ∙ get_or-set_self deque.elements (back deque.capacity deque.first) x pointer.null
          (ground (arith, v.storage))

  pub contents-push_first : contents (push_first deque x) ≡ x ∷ contents deque
  unfolding push_first elements_from
  contents-push_first =
      ap (elements_from (push_first deque x) 0) {y = suc deque.size} (omega arith)
      ∙ ap₂ ◌∷◌ push_first-new
          (elements_from_shifted (push_first deque x) deque deque.size push_first-old)
