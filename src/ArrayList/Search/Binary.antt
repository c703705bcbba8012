-- ===== src/ArrayList/Search/Binary.antt =====
-- `array_list_binary_search` on a sorted list.
use libcdsa.Core.Cells.{cell}
use libcdsa.Core.Comparison.{is_zero, is_positive, is_negative, Below, IsComparison}
use libcdsa.Base.{
  ℕ, zero, suc, ◌+◌, ◌-◌, ◌/◌, ◌≤◌, ◌<◌, ◌≡◌, refl, sym, ◌∙◌, arith, inl, inr, true, false,
  Bool-cases, Option, none, some, List, ltb, ltb→lt, dec_lt,
}
use libcdsa.Base.Int.{ℤ, pos, negsuc}
use libcdsa.Core.{Pointer}
use libcdsa.ArrayList.{ArrayList}
use libcdsa.ArrayList.Search.{binary_loop, binary_search}

module _ {A : Type 0} ⦃pointer : Pointer A⦄ (compare : A → A → ℤ) where
  -- The first `n` cells are in order.
  abbrev pub IsSorted : List A → ℕ → Type 0
  IsSorted elements n =
      (i j : ℕ) → i ≤ j → j < n → Below compare (cell elements i) (cell elements j)

  -- An index in range whose element compares as 0, or -1 where there is none; the search ends.
  abbrev pub Sought : List A → ℕ → A → Option ℤ → Type 0
  Sought elements n x (some (pos k)) = (k < n) × (is_zero (compare (cell elements k) x) ≡ true)
  Sought elements n x (some (negsuc m)) =
      (m ≡ 0) × ((k : ℕ) → k < n → is_zero (compare (cell elements k) x) ≡ false)
  Sought elements n x none = ⊥

zero-signs : (z : ℤ) → is_zero z ≡ true → (is_negative z ≡ false) × (is_positive z ≡ false)
zero-signs (pos zero) e = (refl, refl)
zero-signs (pos (suc n)) e = cc
zero-signs (negsuc n) e = cc

positive_of_signs : (z : ℤ) → is_zero z ≡ false → is_negative z ≡ false → is_positive z ≡ true
positive_of_signs (pos zero) e f = cc
positive_of_signs (pos (suc n)) e f = refl
positive_of_signs (negsuc n) e f = cc

not_zero : (z : ℤ) → (is_zero z ≡ true → ⊥) → is_zero z ≡ false
not_zero (pos zero) h = absurd (h refl)
not_zero (pos (suc n)) h = refl
not_zero (negsuc n) h = refl

module _ {A : Type 0} ⦃pointer : Pointer A⦄ {compare : A → A → ℤ}
    (order : IsComparison compare) where
  -- What lies below an element that is below `x` does not compare as 0 with `x`.
  excluded_low :
      (a b x : A)
      → Below compare a b
      → is_negative (compare b x) ≡ true
      → is_zero (compare a x) ≡ false
  excluded_low a b x le less = not_zero (compare a x) (λ e.
      let (low, high) = zero-signs (compare a x) e in
      let xa : Below compare x a = sym (order.turned a x) ∙ low in
      let xb = order.carried x a b xa le in cc (order.turned b x))

  -- What lies above an element that is above `x` does not either.
  excluded_high :
      (a b x : A)
      → Below compare b a
      → is_positive (compare b x) ≡ true
      → is_zero (compare a x) ≡ false
  excluded_high a b x le more = not_zero (compare a x) (λ e.
      let (low, high) = zero-signs (compare a x) e in let bx = order.carried b a x le high in cc)

  binary_loop-Sought :
      (fuel : ℕ) (elements : List A) (x : A) (start end n : ℕ)
      → IsSorted compare elements n
      → end ≤ n
      → end - start < fuel
      → ((k : ℕ) → k < start → k < n → is_zero (compare (cell elements k) x) ≡ false)
      → ((k : ℕ) → end ≤ k → k < n → is_zero (compare (cell elements k) x) ≡ false)
      → start ≤ n
      → Sought compare elements n x (binary_loop compare fuel elements x start end)
  unfolding binary_loop
  binary_loop-Sought zero elements x start end n sorted inside enough low high s =
      absurd (omega arith)
  binary_loop-Sought (suc fuel) elements x start end n sorted inside enough low high s =
      let mid = start + (end - 1 - start) / 2 in
      let y = cell elements mid in
      elim (Bool-cases (ltb start end)) [
        | inr e ↦
            rw (binary_loop, e)
              (
                refl,
                λ k p. elim (dec_lt k start) [ yes q ↦ low k q p | no q ↦ high k (ground arith) p ],
              )
        | inl e ↦
            let between = ltb→lt start end e in
            elim (Bool-cases (is_zero (compare y x))) [
              | inl found ↦ rw (binary_loop, e, found) (omega arith, found)
              | inr other ↦ elim (Bool-cases (is_negative (compare y x))) [
                | inl less ↦
                    rw (binary_loop, e, other, less)
                      (binary_loop-Sought fuel elements x (mid + 1) end n sorted inside
                        (omega arith)
                        (λ k q p.
                          excluded_low (cell elements k) y x
                            (sorted k mid (omega arith) (omega arith)) less)
                        high (omega arith))
                | inr more ↦
                    rw (binary_loop, e, other, more)
                      (binary_loop-Sought fuel elements x start mid n sorted (omega arith)
                        (omega arith) low
                        (λ k q p.
                          excluded_high (cell elements k) y x (sorted mid k q p)
                            (positive_of_signs (compare y x) other more))
                        s)
              ]
            ]
      ]

  -- With a lawful comparison, array_list_binary_search on a list in order ends within size + 1
  -- rounds with the index of an element that compares as 0 with the one sought, or with -1, and
  -- then no element of the list does.
  pub binary_search_finds :
      {Factor : Type 0} (list : ArrayList Factor A) (x : A)
      → IsSorted compare list.elements list.size
      → Sought compare list.elements list.size x (binary_search list x compare)
  unfolding binary_search
  binary_search_finds list x sorted =
      binary_loop-Sought (suc list.size) list.elements x 0 list.size list.size sorted (omega arith)
        (omega arith) (λ k p q. absurd (omega arith)) (λ k p q. absurd (omega arith)) (omega arith)
