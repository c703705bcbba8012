-- ===== src/Deque/Removal.antt =====
-- Reading and removing at the two ends of a deque.
use libcdsa.Base.{
  ℕ, suc, ◌+◌, ◌-◌, ◌%◌, ◌<◌, ◌≡◌, sym, ap, ap₂, ◌∙◌, bit_and, [], ◌∷◌, ◌++◌, arith, get_or, set,
  length-set, get_or-set_ne,
}
use libcdsa.Base.Ring.{wrap, mod-eq-wrap}
use native.Mathlib.Nat.{mod-add-mod}
use libcdsa.Core.{Pointer, bump}
use libcdsa.Deque.{Deque, element_at, elements_from, last_index}
use libcdsa.Deque.Inv.{
  IsValid, mask, contents, elements_from-suc, elements_from_same, elements_from_shifted,
  element_at_lem,
}
use libcdsa.Deque.Ends.{step_back}

module _ {ℓ} {A : Type ℓ} ⦃pointer : Pointer A⦄ (deque : Deque A) where
  -- What `deque_remove_first` leaves of a deque that is not empty.
  abbrev pub without_first : Deque A
  without_first = record deque {
    elements = set deque.elements deque.first pointer.null;
    first = bit_and (deque.first + 1) (deque.capacity - 1);
    size = deque.size - 1;
    modification_count = bump deque.modification_count;
  }

  -- What `deque_remove_last` leaves of a deque that is not empty.
  abbrev pub without_last : Deque A
  without_last = record deque {
    elements = set deque.elements (last_index deque) pointer.null;
    last = last_index deque;
    size = deque.size - 1;
    modification_count = bump deque.modification_count;
  }

module _ {ℓ} {A : Type ℓ} ⦃pointer : Pointer A⦄ {deque : Deque A} (v : IsValid deque)
    (filled : 0 < deque.size) where
  pub first-element : get_or deque.elements deque.first pointer.null ≡ element_at deque 0
  first-element =
      ap (λ j. get_or deque.elements j pointer.null) (ground arith)
      ∙ sym (element_at_lem 0 v (omega arith))

  -- The cell before `last` holds the last element.
  pub last_index-wrap : last_index deque ≡ wrap deque.capacity (deque.first + (deque.size - 1))
  unfolding last_index
  last_index-wrap =
      let at : deque.last ≡ wrap deque.capacity (deque.first + deque.size) =
        v.last_at ∙ mod-eq-wrap deque.capacity (deque.first + deque.size) (omega arith) in
      step_back deque.last v (ground (arith, at)) ∙ ground (arith, at)

  pub last-element :
      get_or deque.elements (last_index deque) pointer.null ≡ element_at deque (deque.size - 1)
  last-element =
      ap (λ j. get_or deque.elements j pointer.null) last_index-wrap
      ∙ sym (element_at_lem (deque.size - 1) v (omega arith))

  next-wrap : bit_and (deque.first + 1) (deque.capacity - 1) ≡ wrap deque.capacity (deque.first + 1)
  next-wrap = mask v (deque.first + 1) ∙ mod-eq-wrap deque.capacity (deque.first + 1) (omega arith)

  pub without_first-IsValid : IsValid (without_first deque)
  without_first-IsValid = record {
    exponent = v.exponent;
    power = v.power;
    large = v.large;
    small = v.small;
    storage = length-set deque.elements deque.first pointer.null ∙ v.storage;
    first_in = rw next-wrap (ground arith);
    size_in = omega arith;
    last_at =
        v.last_at
        ∙ ap (λ j. j % deque.capacity) (omega arith)
        ∙ sym (mod-add-mod (deque.first + 1) deque.capacity (deque.size - 1))
        ∙ ap (λ j. (j + (deque.size - 1)) % deque.capacity) (sym (mask v (deque.first + 1)));
  }

  pub without_last-IsValid : IsValid (without_last deque)
  without_last-IsValid = record {
    exponent = v.exponent;
    power = v.power;
    large = v.large;
    small = v.small;
    storage = length-set deque.elements (last_index deque) pointer.null ∙ v.storage;
    first_in = v.first_in;
    size_in = omega arith;
    last_at =
        last_index-wrap
        ∙ sym (mod-eq-wrap deque.capacity (deque.first + (deque.size - 1)) (omega arith));
  }

  without_first-old :
      (k : ℕ) → k < deque.size - 1 → element_at deque (k + 1) ≡ element_at (without_first deque) k
  without_first-old k h =
      element_at_lem (k + 1) v (omega arith)
      ∙ sym
          (get_or-set_ne deque.elements deque.first _ pointer.null pointer.null (λ e. ground arith))
      ∙ ap (λ j. get_or (set deque.elements deque.first pointer.null) j pointer.null)
          (ground (arith, next-wrap))
      ∙ sym (element_at_lem k without_first-IsValid (omega arith))

  without_last-old :
      (k : ℕ) → k < deque.size - 1 → element_at deque k ≡ element_at (without_last deque) k
  without_last-old k h =
      element_at_lem k v (omega arith)
      ∙ sym (
          get_or-set_ne deque.elements (last_index deque) _ pointer.null pointer.null
            (λ e. ground (arith, last_index-wrap)))
      ∙ sym (element_at_lem k without_last-IsValid (omega arith))

  pub contents-without_first : contents deque ≡ element_at deque 0 ∷ contents (without_first deque)
  unfolding elements_from
  contents-without_first =
      ap (elements_from deque 0) {y = suc (deque.size - 1)} (omega arith)
      ∙ ap (◌∷◌ (element_at deque 0))
          (elements_from_shifted deque (without_first deque) (deque.size - 1) without_first-old)

  pub contents-without_last :
      contents deque ≡ contents (without_last deque) ++ element_at deque (deque.size - 1) ∷ []
  contents-without_last =
      ap (elements_from deque 0) {y = suc (deque.size - 1)} (omega arith)
      ∙ elements_from-suc deque 0 (deque.size - 1)
      ∙ ap₂ (λ xs y. xs ++ y ∷ [])
          (elements_from_same deque (without_last deque) (deque.size - 1) without_last-old)
          (ap (element_at deque) (omega arith))
