-- ===== src/Deque/Bulk/Reversal.antt =====
-- `deque_reverse` swaps in place, and turns the list of the elements round.
use native.Mathlib.Decide.{ℕ_discrete}
use mathlib.Core.List
use libcdsa.Base.{
  ℕ, zero, suc, ◌+◌, ◌-◌, ◌/◌, ◌≤◌, ◌<◌, ◌≡◌, ◌≢◌, ◌⊎◌, refl, sym, ap, ap₂, subst, ◌∙◌, bit_and,
  arith, length, get_or, set, length-set, get_or-set_self, get_or-set_ne, get_or_ext,
  get_or-reverse, length-reverse,
}
use libcdsa.Base.Ring.{wrap, mod-eq-wrap}
use libcdsa.Core.{Pointer}
use libcdsa.Deque.{Deque, index, element_at}
use libcdsa.Deque.Inv.{
  IsValid, mask, contents, element_at_lem, length-elements_from, get_or-elements_from,
}
use libcdsa.Deque.Bulk.{swap_round, reverse_loop, reverse}

module _ {ℓ} {A : Type ℓ} ⦃pointer : Pointer A⦄ where
  -- One swap of the loop, at the positions `i` and `size - 1 - i`.
  module _ {deque : Deque A} (v : IsValid deque) (i : ℕ) (early : i < deque.size / 2) where
    cell_a : index deque i ≡ wrap deque.capacity (deque.first + i)
    unfolding index
    cell_a =
        mask v _
        ∙ mod-eq-wrap deque.capacity (deque.first + i) (omega (arith, v.first_in, v.size_in))

    cell_b :
        bit_and (deque.first + deque.size - 1 - i) (deque.capacity - 1)
        ≡ wrap deque.capacity (deque.first + (deque.size - 1 - i))
    cell_b =
        mask v _
        ∙ mod-eq-wrap deque.capacity _ (omega (arith, v.first_in, v.size_in))
        ∙ ap (wrap deque.capacity) (omega arith)

    swap_round-IsValid : IsValid (swap_round deque i)
    unfolding swap_round
    swap_round-IsValid = record {
      exponent = v.exponent;
      power = v.power;
      large = v.large;
      small = v.small;
      storage = length-set _ _ _ ∙ length-set _ _ _ ∙ v.storage;
      first_in = v.first_in;
      size_in = v.size_in;
      last_at = v.last_at;
    }

    -- The positions of the two cells, and the array with them changed.
    low : ℕ
    low = wrap deque.capacity (deque.first + i)

    high : ℕ
    high = wrap deque.capacity (deque.first + (deque.size - 1 - i))

    abbrev cells : ℕ → ℕ → A → A → ℕ → A
    cells a b x y k = get_or (set (set deque.elements a x) b y) k pointer.null

    -- What the deque holds after the swap.
    swapped_cell :
        (k : ℕ)
        → k < deque.size
        → element_at (swap_round deque i) k
          ≡ cells low high
              (element_at deque (deque.size - 1 - i))
              (element_at deque i)
              (wrap deque.capacity (deque.first + k))
    unfolding swap_round low high
    swapped_cell k h =
        let at = λ (j : ℕ). get_or deque.elements j pointer.null in
        let place = wrap deque.capacity (deque.first + k) in
        let b = bit_and (deque.first + deque.size - 1 - i) (deque.capacity - 1) in
        element_at_lem k swap_round-IsValid (omega (arith, v.size_in))
        ∙ ap (λ a. cells a b (at b) (at a) place) cell_a
        ∙ ap (λ j. cells low j (at j) (at low) place) cell_b
        ∙ ap₂ (λ x y. cells low high x y place)
            (sym (element_at_lem (deque.size - 1 - i) v (omega (arith, v.size_in))))
            (sym (element_at_lem i v (omega (arith, v.size_in))))

    swapped_low : element_at (swap_round deque i) i ≡ element_at deque (deque.size - 1 - i)
    unfolding low high
    swapped_low =
        swapped_cell i (omega arith)
        ∙ get_or-set_ne _ high low _ pointer.null (λ e. ground (arith, v.first_in, v.size_in))
        ∙ get_or-set_self deque.elements low _ pointer.null
            (ground (arith, v.first_in, v.size_in, v.storage))

    swapped_high : element_at (swap_round deque i) (deque.size - 1 - i) ≡ element_at deque i
    unfolding low high
    swapped_high =
        swapped_cell (deque.size - 1 - i) (omega arith)
        ∙ get_or-set_self (set deque.elements low _) high _ pointer.null (
            ground (
              arith,
              v.first_in,
              v.size_in,
              v.storage,
              length-set deque.elements low (element_at deque (deque.size - 1 - i)),
            ))

    swapped_other :
        (k : ℕ)
        → k < deque.size
        → k ≢ i
        → k ≢ deque.size - 1 - i
        → element_at (swap_round deque i) k ≡ element_at deque k
    unfolding low high
    swapped_other k h p q =
        let place = wrap deque.capacity (deque.first + k) in
        swapped_cell k h
        ∙ get_or-set_ne _ high place _ pointer.null (λ e. ground (arith, v.first_in, v.size_in))
        ∙ get_or-set_ne deque.elements low place _ pointer.null
            (λ e. ground (arith, v.first_in, v.size_in))
        ∙ sym (element_at_lem k v (omega (arith, v.size_in)))

  -- After `i` rounds from `start`: the outer `i` places on both sides are exchanged, the others not.
  record IsReversed (start : Deque A) (i : ℕ) (deque : Deque A) : Type ℓ where
    valid : IsValid deque
    same_size : deque.size ≡ start.size
    outside :
        (k : ℕ)
        → k < start.size
        → (k < i) ⊎ (start.size - 1 - k < i)
        → element_at deque k ≡ element_at start (start.size - 1 - k)
    inside : (k : ℕ) → i ≤ k → k + i < start.size → element_at deque k ≡ element_at start k

  swap_round-IsReversed :
      (start deque : Deque A) (i : ℕ)
      → i < start.size / 2
      → IsReversed start i deque
      → IsReversed start (i + 1) (swap_round deque i)
  unfolding swap_round
  swap_round-IsReversed start deque i h r =
      let early : i < deque.size / 2 = omega (arith, r.same_size) in
      let mirror : deque.size - 1 - i ≡ start.size - 1 - i = omega (arith, r.same_size) in
      record {
        valid = swap_round-IsValid r.valid i early;
        same_size = r.same_size;
        outside = λ k p out. elim (ℕ_discrete k i) [
          | yes e ↦
              ap (element_at (swap_round deque i)) e
              ∙ swapped_low r.valid i early
              ∙ ap (element_at deque) mirror
              ∙ r.inside (start.size - 1 - i) (omega arith) (omega arith)
              ∙ ap (element_at start) (omega arith)
          | no ne ↦ elim (ℕ_discrete k (start.size - 1 - i)) [
            | yes e ↦
                ap (element_at (swap_round deque i)) (omega (arith, e, mirror))
                ∙ swapped_high r.valid i early
                ∙ r.inside i (omega arith) (omega arith)
                ∙ ap (element_at start) (omega arith)
            | no ne' ↦
                swapped_other r.valid i early k (omega (arith, r.same_size)) ne
                  (λ e. ne' (e ∙ mirror))
                ∙ r.outside k p (omega arith)
          ]
        ];
        inside = λ k p q.
            swapped_other r.valid i early k (omega (arith, r.same_size)) (omega arith)
              (omega (arith, r.same_size))
            ∙ r.inside k (omega arith) (omega arith);
      }

  reverse_loop-IsReversed :
      (n : ℕ) (start deque : Deque A) (i : ℕ)
      → i + n ≡ start.size / 2
      → IsReversed start i deque
      → IsReversed start (start.size / 2) (reverse_loop n i deque)
  unfolding reverse_loop
  reverse_loop-IsReversed zero start deque i h r =
      let e : i ≡ start.size / 2 = omega arith in subst (λ j. IsReversed start j deque) e r
  reverse_loop-IsReversed (suc n) start deque i h r =
      reverse_loop-IsReversed n start (swap_round deque i) (i + 1) (omega arith)
        (swap_round-IsReversed start deque i (omega arith) r)

  reverse-IsReversed :
      {deque : Deque A} → IsValid deque → IsReversed deque (deque.size / 2) (reverse deque)
  unfolding reverse
  reverse-IsReversed {deque} v =
      reverse_loop-IsReversed (deque.size / 2) deque deque 0 (omega arith) (record {
        valid = v;
        same_size = refl;
        outside = λ k p out. absurd (omega arith);
        inside = λ k p q. refl;
      })

  reversed_place :
      {deque : Deque A} (v : IsValid deque) (k : ℕ)
      → k < deque.size
      → element_at (reverse deque) k ≡ element_at deque (deque.size - 1 - k)
  reversed_place {deque} v k h =
      let r = reverse-IsReversed v in
      elim (ℕ_discrete k (deque.size - 1 - k)) [
        | yes e ↦ r.inside k (omega arith) (omega arith) ∙ ap (element_at deque) e
        | no ne ↦ r.outside k h (omega arith)
      ]

  -- Deque_reverse keeps a valid deque valid and turns the list of its elements round.
  pub reverse_refines :
      {deque : Deque A}
      → IsValid deque
      → IsValid (reverse deque) × (contents (reverse deque) ≡ List.reverse (contents deque))
  reverse_refines {deque} v =
      let r = reverse-IsReversed v in
      let size = length-elements_from deque 0 deque.size in
      let size' = length-elements_from (reverse deque) 0 (reverse deque).size in
      (
        r.valid,
        get_or_ext pointer.null _ _
            (size' ∙ r.same_size ∙ sym (length-reverse (contents deque) ∙ size))
            (λ k p.
              get_or-elements_from (reverse deque) 0 (reverse deque).size k (omega (arith, size'))
              ∙ ap (element_at (reverse deque)) (omega arith)
              ∙ reversed_place v k (omega (arith, size', r.same_size))
              ∙ ap (element_at deque) (omega (arith, size))
              ∙ sym (
                  get_or-elements_from deque 0 deque.size (length (contents deque) - 1 - k)
                    (omega (arith, size, size', r.same_size)))
              ∙ sym (
                  get_or-reverse (contents deque) k pointer.null
                    (omega (arith, size, size', r.same_size)))),
      )
