-- ===== src/Deque/Access.antt =====
-- The getters of src/collections/deque.c, and the setter of its destructor.
use libcdsa.Base.{ℕ, ◌≡◌, refl, ap, ◌∙◌, Bool, map, ◌==◌}
use libcdsa.Core.{Pointer, Destructor, destructed}
use libcdsa.Deque.{Deque, element_at, index}
use libcdsa.Deque.Inv.{IsValid, contents, elements_from_congr}
use libcdsa.Deque.Bulk.{clear}
use libcdsa.Deque.Bulk.Clear.{clear_refines}

module _ {ℓ} {A : Type ℓ} where
  unfoldable pub size_of : Deque A → ℕ
  size_of deque = deque.size

  unfoldable pub capacity_of : Deque A → ℕ
  capacity_of deque = deque.capacity

  unfoldable pub is_empty : Deque A → Bool
  is_empty deque = deque.size == 0

  unfoldable pub destructor : Deque A → Destructor
  destructor deque = deque.destruct

  unfoldable pub change_destructor : Deque A → Destructor → Deque A
  change_destructor deque destruct = record deque { destruct = destruct }

  change_destructor-IsValid :
      {deque : Deque A} (d : Destructor) → IsValid deque → IsValid (change_destructor deque d)
  unfolding change_destructor
  change_destructor-IsValid d v = record {
    exponent = v.exponent;
    power = v.power;
    large = v.large;
    small = v.small;
    storage = v.storage;
    first_in = v.first_in;
    size_in = v.size_in;
    last_at = v.last_at;
  }

module _ {ℓ} {A : Type ℓ} ⦃pointer : Pointer A⦄ where
  contents-change_destructor :
      (deque : Deque A) (d : Destructor) → contents (change_destructor deque d) ≡ contents deque
  unfolding change_destructor element_at index
  contents-change_destructor deque d =
      elements_from_congr (change_destructor deque d) deque 0 0 deque.size (λ k h. refl)

  -- The new destructor is the one that the elements go to.
  clear-change_destructor :
      {deque : Deque A} (d : Destructor)
      → IsValid deque
      → (clear (change_destructor deque d)).1 ≡ map (destructed d) (contents deque)
  unfolding change_destructor
  clear-change_destructor {deque} d v =
      (clear_refines (change_destructor-IsValid d v)).1
      ∙ ap (map (destructed d)) (contents-change_destructor deque d)
