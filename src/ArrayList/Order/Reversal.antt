-- ===== src/ArrayList/Order/Reversal.antt =====
-- What the reversal of a part of an array leaves in each cell.
use libcdsa.Core.Cells.{cell, swap, length-swap, swap_left, swap_right, swap_other}
use libcdsa.Base.{
  ℕ, zero, suc, ◌+◌, ◌-◌, ◌≤◌, ◌<◌, ◌≡◌, refl, ap, ◌∙◌, arith, inl, inr, ◌&&◌, Bool-cases, List,
  length, ltb, leb, ◌==◌, if◌then◌else◌, ltb→lt, ℕ_discrete,
}
use libcdsa.Core.{Pointer}
use libcdsa.ArrayList.Order.{reverse_loop, reverse_between}

module _ {A : Type 0} ⦃pointer : Pointer A⦄ where
  pub cell-swap :
      (elements : List A) (i j k : ℕ)
      → i < length elements
      → j < length elements
      → cell (swap elements i j) k
        ≡ (if k == j then cell elements i else if k == i then cell elements j else cell elements k)
  cell-swap elements i j k p q = elim (ℕ_discrete k j) [
    | yes e ↦ rw e (ground (arith, swap_right elements i j))
    | no ne ↦ elim (ℕ_discrete k i) [
      | yes e ↦
          let apart = swap_left elements i j p q (λ h. ne (e ∙ h)) in
          ap (cell (swap elements i j)) e ∙ apart ∙ ground arith
      | no ne' ↦ swap_other elements i j p q k ne' ne ∙ ground arith
    ]
  ]

  length-reverse_loop :
      (fuel : ℕ) (elements : List A) (start end : ℕ)
      → length (reverse_loop fuel elements start end) ≡ length elements
  unfolding reverse_loop
  length-reverse_loop zero elements start end = refl
  length-reverse_loop (suc fuel) elements start end = elim (Bool-cases (ltb start end)) [
    | inl e ↦
        rw (reverse_loop, e)
          (length-reverse_loop fuel (swap elements start end) (start + 1) (end - 1)
            ∙ length-swap elements start end)
    | inr e ↦ rw (reverse_loop, e)
  ]

  cell-reverse_loop :
      (fuel : ℕ) (elements : List A) (start end k : ℕ)
      → end ≤ fuel
      → end < length elements
      → cell (reverse_loop fuel elements start end) k
        ≡ (if leb start k && leb k end then cell elements (start + end - k) else cell elements k)
  unfolding reverse_loop
  cell-reverse_loop zero elements start end k h p =
      ground (arith, ap (λ (j : ℕ). cell elements j) {x = start + end - k} {y = k})
  cell-reverse_loop (suc fuel) elements start end k h p = elim (Bool-cases (ltb start end)) [
    | inl e ↦
        let next = swap elements start end in
        let order = ltb→lt start end e in
        rw (reverse_loop, e)
          (ground (
            arith,
            length-swap elements start end,
            cell-reverse_loop fuel next (start + 1) (end - 1) k,
            cell-swap elements start end k,
            cell-swap elements start end (start + 1 + (end - 1) - k),
            ap (λ (j : ℕ). cell elements j) {x = start + 1 + (end - 1) - k} {y = start + end - k},
            ap (λ (j : ℕ). cell elements j) {x = start} {y = start + end - k},
            ap (λ (j : ℕ). cell elements j) {x = end} {y = start + end - k},
          ))
    | inr e ↦
        rw (reverse_loop, e)
          (ground (arith, ap (λ (j : ℕ). cell elements j) {x = start + end - k} {y = k}))
  ]

  pub length-reverse_between :
      (elements : List A) (start end : ℕ)
      → length (reverse_between elements start end) ≡ length elements
  unfolding reverse_between
  length-reverse_between elements start end = length-reverse_loop end elements start end

  pub cell-reverse_between :
      (elements : List A) (start end k : ℕ)
      → end < length elements
      → cell (reverse_between elements start end) k
        ≡ (if leb start k && leb k end then cell elements (start + end - k) else cell elements k)
  unfolding reverse_between
  cell-reverse_between elements start end k h =
      cell-reverse_loop end elements start end k (omega arith) h

  -- Reversing the whole, its first `d` cells, and the others.
  abbrev pub thrice : List A → ℕ → ℕ → List A
  thrice elements size d =
      reverse_between (reverse_between (reverse_between elements 0 (size - 1)) 0 (d - 1)) d
        (size - 1)

  pub length-thrice :
      (elements : List A) (size d : ℕ) → length (thrice elements size d) ≡ length elements
  length-thrice elements size d =
      length-reverse_between _ d (size - 1)
      ∙ length-reverse_between _ 0 (d - 1)
      ∙ length-reverse_between elements 0 (size - 1)

  pub cell-thrice :
      (elements : List A) (size d k : ℕ)
      → 0 < d
      → d < size
      → size ≤ length elements
      → k < size
      → cell (thrice elements size d) k
        ≡ (if ltb k d then cell elements (size - d + k) else cell elements (k - d))
  cell-thrice elements size d k d0 dn h p =
      let once = reverse_between elements 0 (size - 1) in
      let twice = reverse_between once 0 (d - 1) in
      ground (
        arith,
        length-reverse_between elements 0 (size - 1),
        length-reverse_between once 0 (d - 1),
        cell-reverse_between twice d (size - 1) k,
        cell-reverse_between once 0 (d - 1) k,
        cell-reverse_between once 0 (d - 1) (d + (size - 1) - k),
        cell-reverse_between elements 0 (size - 1) (0 + (d - 1) - k),
        cell-reverse_between elements 0 (size - 1) (d + (size - 1) - k),
        ap (λ (j : ℕ). cell elements j) {x = 0 + (size - 1) - (0 + (d - 1) - k)} {y = size - d + k},
        ap (λ (j : ℕ). cell elements j) {x = 0 + (size - 1) - (d + (size - 1) - k)} {y = k - d},
      )
