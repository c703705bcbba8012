-- ===== src/Deque/Bulk/Clear.antt =====
-- `deque_clear`, round by round.
use libcdsa.Base.{
  ◌≢◌, ℕ_discrete, get_or-set_self, ℕ, zero, suc, ◌+◌, ◌≡◌, refl, sym, ap, ◌∙◌, [], map, arith,
  length, get_or, set, length-set, ◌<◌, ◌≤◌, ◌∷◌, get_or-set_ne,
}
use native.Mathlib.Nat.{zero-mod}
use libcdsa.Core.{Pointer, destructed}
use libcdsa.Base.Ring.{wrap, mod-eq-wrap}
use libcdsa.Deque.{Deque, index, element_at, elements_from}
use libcdsa.Deque.Inv.{IsValid, mask, contents, elements_from_congr}
use libcdsa.Deque.Refine.{Became}
use libcdsa.Deque.Bulk.{clear_loop, clear}

module _ {ℓ} {A : Type ℓ} ⦃pointer : Pointer A⦄ where
  -- The loop of `deque_clear` changes cells only.
  record IsWiped (deque after : Deque A) : Type ℓ where
    cells : length after.elements ≡ length deque.elements
    same_capacity : after.capacity ≡ deque.capacity
    same_destruct : after.destruct ≡ deque.destruct

  clear_loop-IsWiped : (n i : ℕ) (deque : Deque A) → IsWiped deque (clear_loop n i deque).0
  unfolding clear_loop
  clear_loop-IsWiped zero i deque = record {
    cells = refl;
    same_capacity = refl;
    same_destruct = refl;
  }
  clear_loop-IsWiped (suc n) i deque =
      let wiped = record deque { elements = set deque.elements (index deque i) pointer.null } in
      let w = clear_loop-IsWiped n (i + 1) wiped in
      record {
        cells = w.cells ∙ length-set deque.elements (index deque i) pointer.null;
        same_capacity = w.same_capacity;
        same_destruct = w.same_destruct;
      }

  module _ {deque : Deque A} (v : IsValid deque) (i : ℕ) (inside : i < deque.size) where
    wiped_one : Deque A
    wiped_one = record deque { elements = set deque.elements (index deque i) pointer.null }

    wiped_one-IsValid : IsValid wiped_one
    unfolding wiped_one
    wiped_one-IsValid = record {
      exponent = v.exponent;
      power = v.power;
      large = v.large;
      small = v.small;
      storage = length-set deque.elements (index deque i) pointer.null ∙ v.storage;
      first_in = v.first_in;
      size_in = v.size_in;
      last_at = v.last_at;
    }

    -- No other element is in the cell that a round overwrites.
    wiped_one-others :
        (k : ℕ)
        → i ≢ k
        → k < deque.size
        → get_or wiped_one.elements (index deque k) pointer.null
          ≡ get_or deque.elements (index deque k) pointer.null
    unfolding wiped_one index
    wiped_one-others k other below =
        let cell_of : (l : ℕ)
            → l < deque.size
            → index deque l ≡ wrap deque.capacity (deque.first + l) =
          λ l h.
            mask v _
            ∙ mod-eq-wrap deque.capacity (deque.first + l) (omega (arith, v.first_in, v.size_in)) in
        get_or-set_ne deque.elements (index deque i) (index deque k) pointer.null pointer.null
          (λ e. ground (arith, cell_of i inside, cell_of k below, e, v.first_in, v.size_in))

    wiped_one-here : get_or wiped_one.elements (index deque i) pointer.null ≡ pointer.null
    unfolding wiped_one index
    wiped_one-here =
        let here : index deque i ≡ wrap deque.capacity (deque.first + i) =
          mask v _
          ∙ mod-eq-wrap deque.capacity (deque.first + i) (omega (arith, v.first_in, v.size_in)) in
        get_or-set_self deque.elements (index deque i) pointer.null pointer.null
          (ground (arith, here, v.first_in, v.size_in, v.storage))

  -- Each round destructs an element that no round before has overwritten.
  clear_loop-events :
      (n i : ℕ) {deque : Deque A}
      → IsValid deque
      → i + n ≤ deque.size
      → (clear_loop n i deque).1 ≡ map (destructed deque.destruct) (elements_from deque i n)
  unfolding clear_loop elements_from element_at wiped_one index
  clear_loop-events zero i v room = refl
  clear_loop-events (suc n) i {deque} v room =
      ap (◌∷◌ (destructed deque.destruct (element_at deque i))) (
        clear_loop-events n (i + 1) (wiped_one-IsValid v i (omega arith)) (omega arith)
        ∙ ap (map (destructed deque.destruct)) (
            elements_from_congr (wiped_one v i (omega arith)) deque (i + 1) (i + 1) n (λ k h.
              wiped_one-others v i (omega arith) (i + 1 + k) (λ e. absurd (omega arith))
                (omega arith))))

  clear_loop-before :
      (n i k : ℕ) {deque : Deque A}
      → IsValid deque
      → i + n ≤ deque.size
      → k < i
      → get_or (clear_loop n i deque).0.elements (index deque k) pointer.null
        ≡ get_or deque.elements (index deque k) pointer.null
  unfolding clear_loop index wiped_one
  clear_loop-before zero i k v room h = refl
  clear_loop-before (suc n) i k v room h =
      clear_loop-before n (i + 1) k (wiped_one-IsValid v i (omega arith)) (omega arith)
        (omega arith)
      ∙ wiped_one-others v i (omega arith) k (λ e. absurd (omega arith)) (omega arith)

  -- No cell of an element keeps its pointer.
  clear_loop-null :
      (n i k : ℕ) {deque : Deque A}
      → IsValid deque
      → i + n ≤ deque.size
      → i ≤ k
      → k < i + n
      → get_or (clear_loop n i deque).0.elements (index deque k) pointer.null ≡ pointer.null
  unfolding clear_loop index wiped_one
  clear_loop-null zero i k v room l u = absurd (omega arith)
  clear_loop-null (suc n) i k {deque} v room l u =
      let w = wiped_one-IsValid v i (omega arith) in
      elim (ℕ_discrete i k) [
        | yes e ↦
            clear_loop-before n (i + 1) k w (omega arith) (omega arith)
            ∙ ap
                (λ (j : ℕ).
                  get_or (wiped_one v i (omega arith)).elements (index deque j) pointer.null)
                (sym e)
            ∙ wiped_one-here v i (omega arith)
        | no ne ↦ clear_loop-null n (i + 1) k w (omega arith) (omega arith) (omega arith)
      ]

  -- Deque_clear on a valid deque passes every element, as it was before the call, to the
  -- destructor once, front to back, overwrites every cell that held an element with a null
  -- pointer, and leaves a valid empty deque.
  pub clear_refines :
      {deque : Deque A}
      → IsValid deque
      → Became deque [] (clear deque).0
        × ((clear deque).1 ≡ map (destructed deque.destruct) (contents deque))
        × ((k : ℕ)
            → k < deque.size
            → get_or (clear deque).0.elements (index deque k) pointer.null ≡ pointer.null)
  unfolding clear elements_from
  clear_refines {deque} v =
      let w = clear_loop-IsWiped deque.size 0 deque in
      (
        record {
          valid = record {
            exponent = v.exponent;
            power = w.same_capacity ∙ v.power;
            large = omega (arith, w.same_capacity, v.large);
            small = omega (arith, w.same_capacity, v.small);
            storage = w.cells ∙ v.storage ∙ sym w.same_capacity;
            first_in = omega (arith, w.same_capacity, v.large);
            size_in = omega arith;
            last_at = sym (zero-mod _);
          };
          holds = refl;
          same_destruct = w.same_destruct;
          counted = refl;
        },
        clear_loop-events deque.size 0 v (omega arith),
        λ k h. clear_loop-null deque.size 0 k v (omega arith) (omega arith) (omega arith),
      )
