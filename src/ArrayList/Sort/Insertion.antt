-- ===== src/ArrayList/Sort/Insertion.antt =====
-- Insertion sort: the hole that the loop moves down stands for a swap.
use libcdsa.Core.Cells.{cell, swap, length-swap}
use libcdsa.Core.Comparison.{
  Below, IsComparison, is_positive, Below-of_above, Below-refl, Below-along,
}
use libcdsa.Base.{
  ℕ, zero, suc, ◌+◌, ◌-◌, ◌≤◌, ◌<◌, ◌≡◌, refl, sym, ap, subst, ◌∙◌, arith, inl, inr, Bool-cases,
  true, List, length, set, length-set, get_or-set, get_or-set_self, get_or-set_ne, get_or_ext,
  ℕ_discrete,
}
use libcdsa.Base.Int.{ℤ}
use libcdsa.Core.{Pointer}
use libcdsa.ArrayList.Order.Reversal.{cell-swap}
use libcdsa.ArrayList.Search.Binary.{IsSorted}
use libcdsa.ArrayList.Sort.{insert_loop, insertion_loop, insertion_sort}
use libcdsa.ArrayList.Sort.Rearranged.{
  Sorts, IsRearranged, IsRearranged-refl, IsRearranged-trans, IsRearranged-widen, swap-IsRearranged,
}

module _ {A : Type 0} ⦃pointer : Pointer A⦄ where
  -- Writing back what is there.
  set_same :
      (elements : List A) (i : ℕ)
      → i < length elements
      → set elements i (cell elements i) ≡ elements
  set_same elements i h =
      let x = cell elements i in
      get_or_ext pointer.null (set elements i x) elements (length-set elements i x) (λ k p. ground (
        arith,
        get_or-set elements i k x pointer.null,
        ap (λ (j : ℕ). cell elements j) {x = i} {y = k},
      ))

  -- Moving the hole down is swapping the element in it down.
  hole_swap :
      (elements : List A) (x : A) (j : ℕ)
      → suc j < length elements
      → set (set elements (suc j) (cell elements j)) j x ≡ swap (set elements (suc j) x) j (suc j)
  hole_swap elements x j h =
      let y = cell elements j in
      let one = set elements (suc j) y in
      let held = set elements (suc j) x in
      let size = length-set elements (suc j) x in
      let size' = length-set elements (suc j) y in
      get_or_ext pointer.null (set one j x) (swap held j (suc j))
        (length-set one j x ∙ size' ∙ sym (length-swap held j (suc j) ∙ size))
        (λ k p. ground (
          arith,
          size,
          size',
          get_or-set one j k x pointer.null,
          get_or-set elements (suc j) k y pointer.null,
          cell-swap held j (suc j) k,
          get_or-set elements (suc j) k x pointer.null,
          get_or-set elements (suc j) j x pointer.null,
          get_or-set elements (suc j) (suc j) x pointer.null,
        ))

module _ {A : Type 0} ⦃pointer : Pointer A⦄ {compare : A → A → ℤ}
    (order : IsComparison compare) where
  -- With `x` at `j`: the cells up to `m` but for that at `j` are in order, and `x` does not rank
  -- above those after it.
  pub record IsOpen (elements : List A) (j m : ℕ) : Type 0 where
    pub sorted_round :
        (a b : ℕ)
        → a ≤ b
        → b < m
        → (a ≡ j → ⊥)
        → (b ≡ j → ⊥)
        → Below compare (cell elements a) (cell elements b)
    pub under_later : (b : ℕ) → j < b → b < m → Below compare (cell elements j) (cell elements b)

  IsOpen-IsSorted :
      (elements : List A) (j m : ℕ)
      → ((a : ℕ) → a < j → Below compare (cell elements a) (cell elements j))
      → IsOpen elements j m
      → IsSorted compare elements m
  IsOpen-IsSorted elements j m under o a b le high = elim (ℕ_discrete a j) [
    | yes e ↦ elim (ℕ_discrete b j) [
      | yes e' ↦ Below-along order refl (ap (cell elements) (e' ∙ sym e)) (Below-refl order _)
      | no ne' ↦ Below-along order (ap (cell elements) e) refl (o.under_later b (omega arith) high)
    ]
    | no ne ↦ elim (ℕ_discrete b j) [
      | yes e' ↦ Below-along order refl (ap (cell elements) e') (under a (omega arith))
      | no ne' ↦ o.sorted_round a b le high ne ne'
    ]
  ]

  -- The swap of `x` with a greater element before it.
  IsOpen-swap :
      (elements : List A) (j m : ℕ)
      → suc j < m
      → m ≤ length elements
      → is_positive (compare (cell elements j) (cell elements (suc j))) ≡ true
      → IsOpen elements (suc j) m
      → IsOpen (swap elements j (suc j)) j m
  IsOpen-swap elements j m inside room above o =
      let next = swap elements j (suc j) in
      let at = λ (k : ℕ). cell-swap elements j (suc j) k (omega arith) (omega arith) in
      let here : cell next j ≡ cell elements (suc j) = at j ∙ ground arith in
      let there : cell next (suc j) ≡ cell elements j = at (suc j) ∙ ground arith in
      let other : (k : ℕ) → (k ≡ j → ⊥) → (k ≡ suc j → ⊥) → cell next k ≡ cell elements k =
        λ k ne ne'. at k ∙ ground arith in
      record {
        sorted_round = λ a b le high na nb. elim (ℕ_discrete a (suc j)) [
          | yes ea ↦ elim (ℕ_discrete b (suc j)) [
            | yes eb ↦ Below-along order refl (ap (cell next) (eb ∙ sym ea)) (Below-refl order _)
            | no neb ↦
                Below-along order (ap (cell next) ea ∙ there) (other b nb neb)
                  (o.sorted_round j b (omega arith) high (λ e. absurd (omega arith)) neb)
          ]
          | no nea ↦ elim (ℕ_discrete b (suc j)) [
            | yes eb ↦
                Below-along order (other a na nea) (ap (cell next) eb ∙ there)
                  (o.sorted_round a j (omega arith) (omega arith) nea (λ e. absurd (omega arith)))
            | no neb ↦
                Below-along order (other a na nea) (other b nb neb)
                  (o.sorted_round a b le high nea neb)
          ]
        ];
        under_later = λ b low high. elim (ℕ_discrete b (suc j)) [
          | yes eb ↦
              Below-along order here (ap (cell next) eb ∙ there) (Below-of_above order _ _ above)
          | no neb ↦
              Below-along order here (other b (λ e. absurd (omega arith)) neb)
                (o.under_later b (omega arith) high)
        ];
      }

  -- What the loop does with the hole at `j`, in terms of the array with `x` in the hole.
  Filled : List A → A → ℕ → ℕ → Type 1
  Filled elements x j m =
      IsRearranged 0 m (set elements j x) (insert_loop compare elements x j)
      × IsSorted compare (insert_loop compare elements x j) m

  insert_loop-Filled :
      (elements : List A) (x : A) (j m : ℕ)
      → j < m
      → m ≤ length elements
      → IsOpen (set elements j x) j m
      → Filled elements x j m
  unfolding insert_loop Filled
  insert_loop-Filled elements x zero m inside room o = (
    IsRearranged-refl 0 m (set elements 0 x),
    IsOpen-IsSorted (set elements 0 x) 0 m (λ a h. absurd (omega arith)) o,
  )
  insert_loop-Filled elements x (suc j) m inside room o =
      let held = set elements (suc j) x in
      let size = length-set elements (suc j) x in
      let y = cell elements j in
      let mine : cell held (suc j) ≡ x =
        get_or-set_self elements (suc j) x pointer.null (omega arith) in
      let lower : cell held j ≡ y = get_or-set_ne elements (suc j) j x pointer.null (omega arith) in
      elim (Bool-cases (is_positive (compare y x))) [
        | inl above ↦
            let next = set elements (suc j) y in
            let same = hole_swap elements x j (omega arith) in
            let rises : is_positive (compare (cell held j) (cell held (suc j))) ≡ true =
              rw (lower, mine) above in
            let (r, sorted) =
              insert_loop-Filled next x j m (omega arith)
                (omega (arith, length-set elements (suc j) y))
                (rw same (IsOpen-swap held j m inside (omega arith) rises o)) in
            rw (insert_loop, above)
              (
                IsRearranged-trans 0 m held (swap held j (suc j)) _
                    (swap-IsRearranged held j (suc j) 0 m (omega arith) (omega arith) (omega arith)
                      inside (omega arith))
                    (subst (λ xs. IsRearranged 0 m xs (insert_loop compare next x j)) same r),
                sorted,
              )
        | inr below ↦
            rw (insert_loop, below)
              (
                IsRearranged-refl 0 m held,
                IsOpen-IsSorted held (suc j) m
                    (λ a h. elim (ℕ_discrete a j) [
                      | yes e ↦ Below-along order (ap (cell held) e ∙ lower) mine below
                      | no ne ↦
                          order.carried _ y _
                            (Below-along order refl (sym lower) (
                              o.sorted_round a j (omega arith) (omega arith)
                                (λ e. absurd (omega arith)) (λ e. absurd (omega arith))))
                            (Below-along order refl mine below)
                    ])
                    o,
              )
      ]

  insertion_loop-Sorts :
      (elements : List A) (size i n : ℕ)
      → i + n ≡ size
      → size ≤ length elements
      → IsSorted compare elements i
      → Sorts compare size elements (insertion_loop compare elements i n)
  unfolding insertion_loop Filled
  insertion_loop-Sorts elements size i zero h room sorted =
      (IsRearranged-refl 0 size elements, λ a b le high. sorted a b le (omega arith))
  insertion_loop-Sorts elements size i (suc n) h room sorted =
      let x = cell elements i in
      let same = set_same elements i (omega arith) in
      let open_now : IsOpen elements i (i + 1) = record {
        sorted_round = λ a b le high na nb. sorted a b le (omega arith);
        under_later = λ b low high. absurd (omega arith);
      } in
      let next = insert_loop compare elements x i in
      let (r, next_sorted) =
        insert_loop-Filled elements x i (i + 1) (omega arith) (omega arith) (rw same open_now) in
      let r' : IsRearranged 0 (i + 1) elements next =
        subst (λ xs. IsRearranged 0 (i + 1) xs next) same r in
      let (rest, all_sorted) =
        insertion_loop-Sorts next size (i + 1) n (omega arith) (omega (arith, r'.whole))
          next_sorted in
      (
        IsRearranged-trans 0 size elements next _
            (IsRearranged-widen 0 (i + 1) 0 size elements next (omega arith) (omega arith) r') rest,
        all_sorted,
      )

  pub insertion_sort-Sorts :
      (elements : List A) (size : ℕ)
      → 0 < size
      → size ≤ length elements
      → Sorts compare size elements (insertion_sort compare elements size)
  unfolding insertion_sort
  insertion_sort-Sorts elements size some_left room =
      insertion_loop-Sorts elements size 1 (size - 1) (omega arith) room (λ a b le high.
        Below-along order refl (ap (cell elements) {x = b} {y = a} (omega arith))
          (Below-refl order _))
