-- ===== src/PriorityQueue/Choice.antt =====
-- The index that `heapify_after_delete` goes to.
use libcdsa.Core.Comparison.{
  is_negative, Below, IsComparison, Below-of_negative, Below-of_not_negative, Below-refl,
  Below-along,
}
use libcdsa.Core.Cells.{cell}
use libcdsa.Base.{
  ℕ, zero, suc, ◌+◌, ◌*◌, ◌≤◌, ◌<◌, ◌≡◌, ◌⊎◌, refl, sym, ap, arith, inl, inr, Bool, false, ◌&&◌,
  Bool-cases, List, [], ◌∷◌, length, get_or, ltb, ℕ_discrete,
}
use libcdsa.Base.Int.{ℤ}
use libcdsa.Core.{Pointer}
use libcdsa.PriorityQueue.{greatest}
use libcdsa.PriorityQueue.Order.{parent}

-- A read in range does not depend on what lies past the end.
get_or-in_range {ℓ} :
    {A : Type ℓ} (xs : List A) (i : ℕ) (d e : A) → i < length xs → get_or xs i d ≡ get_or xs i e
get_or-in_range [] i d e h = absurd (omega arith)
get_or-in_range (x ∷ xs) zero d e h = refl
get_or-in_range (x ∷ xs) (suc i) d e h = get_or-in_range xs i d e (omega arith)

not_negative : {b : Bool} {m n : ℕ} → m < n → ltb m n && b ≡ false → b ≡ false
not_negative h e = ground arith

module _ {ℓ} {A : Type ℓ} ⦃pointer : Pointer A⦄ {compare : A → A → ℤ}
    (order : IsComparison compare) where
  -- The choice is the index itself or a child of it, and no child ranks above the choice.
  pub record IsGreatest (elements : List A) (n i choice : ℕ) : Type 0 where
    pub place : (choice ≡ i) ⊎ ((parent choice ≡ i) × (0 < choice) × (choice < n))
    pub not_below : Below compare (cell elements i) (cell elements choice)
    pub children :
        (k : ℕ)
        → 0 < k
        → k < n
        → parent k ≡ i
        → Below compare (cell elements k) (cell elements choice)

  -- A child is the left or the right one.
  child-cases : (i k : ℕ) → 0 < k → parent k ≡ i → (k ≡ 2 * i + 1) ⊎ (k ≡ 2 * i + 2)
  child-cases i k k0 e = elim (ℕ_discrete k (2 * i + 1)) [
    | yes h ↦ inl h
    | no ne ↦ inr (omega arith)
  ]

  choose :
      (elements : List A) (n i choice : ℕ)
      → ((choice ≡ i) ⊎ ((parent choice ≡ i) × (0 < choice) × (choice < n)))
      → Below compare (cell elements i) (cell elements choice)
      → (2 * i + 1 < n → Below compare (cell elements (2 * i + 1)) (cell elements choice))
      → (2 * i + 2 < n → Below compare (cell elements (2 * i + 2)) (cell elements choice))
      → IsGreatest elements n i choice
  choose elements n i choice place below left right = record {
    place = place;
    not_below = below;
    children = λ k k0 kn e. elim (child-cases i k k0 e) [
      | inl h ↦ Below-along order (ap (cell elements) h) refl (left (omega arith))
      | inr h ↦ Below-along order (ap (cell elements) h) refl (right (omega arith))
    ];
  }

  pub greatest-IsGreatest :
      (stray : A) (elements : List A) (n i : ℕ)
      → n ≤ length elements
      → i < n
      → IsGreatest elements n i (greatest compare stray elements n i)
  unfolding greatest
  greatest-IsGreatest stray elements n i whole i_in =
      let left = get_or elements (2 * i + 1) stray in
      let right = get_or elements (2 * i + 2) stray in
      let current = cell elements i in
      let at_left : 2 * i + 1 < n → left ≡ cell elements (2 * i + 1) =
        λ h. get_or-in_range elements (2 * i + 1) stray pointer.null (omega arith) in
      let at_right : 2 * i + 2 < n → right ≡ cell elements (2 * i + 2) =
        λ h. get_or-in_range elements (2 * i + 2) stray pointer.null (omega arith) in
      elim (Bool-cases (ltb (2 * i + 1) n && is_negative (compare current left))) [
        | inl l ↦
            let l_in : 2 * i + 1 < n = ground arith in
            let el = at_left l_in in
            let below : Below compare current left = Below-of_negative order _ _ (ground arith) in
            elim (Bool-cases (ltb (2 * i + 2) n && is_negative (compare left right))) [
              | inl r ↦
                  let r_in : 2 * i + 2 < n = ground arith in
                  let er = at_right r_in in
                  let best : Below compare left right =
                    Below-of_negative order _ _ (ground arith) in
                  rw (l, r)
                    (choose elements n i (2 * i + 2) (inr (omega arith, omega arith, r_in))
                      (Below-along order refl (sym er) (order.carried _ _ _ below best))
                      (λ h. Below-along order (sym el) (sym er) best) (λ h. Below-refl order _))
              | inr r ↦
                  rw (l, r)
                    (choose elements n i (2 * i + 1) (inr (omega arith, omega arith, l_in))
                      (Below-along order refl (sym el) below) (λ h. Below-refl order _)
                      (λ h.
                        Below-along order (sym (at_right h)) (sym el)
                          (Below-of_not_negative order _ _ (not_negative h r))))
            ]
        | inr l ↦
            let near : (h : 2 * i + 1 < n) → Below compare (cell elements (2 * i + 1)) current =
              λ h.
                Below-along order (sym (at_left h)) refl
                  (Below-of_not_negative order _ _ (not_negative h l)) in
            elim (Bool-cases (ltb (2 * i + 2) n && is_negative (compare current right))) [
              | inl r ↦
                  let r_in : 2 * i + 2 < n = ground arith in
                  let best : Below compare current right =
                    Below-of_negative order _ _ (ground arith) in
                  let best' : Below compare current (cell elements (2 * i + 2)) =
                    Below-along order refl (sym (at_right r_in)) best in
                  rw (l, r)
                    (choose elements n i (2 * i + 2) (inr (omega arith, omega arith, r_in)) best'
                      (λ h. order.carried _ _ _ (near h) best') (λ h. Below-refl order _))
              | inr r ↦
                  rw (l, r)
                    (choose elements n i i (inl refl) (Below-refl order _) near (λ h.
                      Below-along order (sym (at_right h)) refl
                        (Below-of_not_negative order _ _ (not_negative h r))))
            ]
      ]
