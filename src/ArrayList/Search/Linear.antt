-- ===== src/ArrayList/Search/Linear.antt =====
-- The searches that go through the array list from one end to the other.
use libcdsa.Core.Cells.{cell, cells_from}
use libcdsa.Base.{
  ℕ, zero, suc, ◌+◌, ◌≤◌, ◌<◌, ◌≡◌, refl, sym, ap, ◌∙◌, arith, inl, inr, Bool, true, false,
  Bool-cases, Option, none, some, List, length, ℕ_discrete,
}
use libcdsa.Base.Int.{ℤ, pos, negsuc}
use libcdsa.Base.Search.{any, filter}
use libcdsa.Core.{Pointer}
use libcdsa.ArrayList.Search.{
  index_loop, last_index_loop, find_loop, find_last_loop, count_loop, is_index,
}

module _ {A : Type 0} ⦃pointer : Pointer A⦄ (condition : A → Bool) (elements : List A) where
  -- The first index, from `i` up to `m`, whose element passes, or -1 where none does.
  abbrev pub IsFirst : ℕ → ℕ → ℤ → Type 0
  IsFirst i m (pos k) =
      (i ≤ k)
      × (k < m)
      × (condition (cell elements k) ≡ true)
      × ((j : ℕ) → i ≤ j → j < k → condition (cell elements j) ≡ false)
  IsFirst i m (negsuc k) = (k ≡ 0) × ((j : ℕ) → i ≤ j → j < m → condition (cell elements j) ≡ false)

  -- The last index below `m` whose element passes, or -1 where none does.
  abbrev pub IsLast : ℕ → ℤ → Type 0
  IsLast m (pos k) =
      (k < m)
      × (condition (cell elements k) ≡ true)
      × ((j : ℕ) → k < j → j < m → condition (cell elements j) ≡ false)
  IsLast m (negsuc k) = (k ≡ 0) × ((j : ℕ) → j < m → condition (cell elements j) ≡ false)

  fails_from :
      (i j : ℕ)
      → condition (cell elements i) ≡ false
      → (i + 1 ≤ j → condition (cell elements j) ≡ false)
      → i ≤ j
      → condition (cell elements j) ≡ false
  fails_from i j here later h = elim (ℕ_discrete i j) [
    | yes e ↦ ap (λ (k : ℕ). condition (cell elements k)) (sym e) ∙ here
    | no ne ↦ later (omega arith)
  ]

  IsFirst-step :
      (i m : ℕ) (r : ℤ) → condition (cell elements i) ≡ false → IsFirst (i + 1) m r → IsFirst i m r
  IsFirst-step i m (pos k) here (low, high, passes, fails) =
      (omega arith, high, passes, λ j l u. fails_from i j here (λ q. fails j q u) l)
  IsFirst-step i m (negsuc k) here (e, fails) =
      (e, λ j l u. fails_from i j here (λ q. fails j q u) l)

  pub index_loop-IsFirst : (i n m : ℕ) → i + n ≡ m → IsFirst i m (index_loop condition elements i n)
  unfolding index_loop
  index_loop-IsFirst i zero m h = (refl, λ j l u. absurd (omega arith))
  index_loop-IsFirst i (suc n) m h = elim (Bool-cases (condition (cell elements i))) [
    | inl e ↦ rw (index_loop, e) (omega arith, omega arith, e, λ j l u. absurd (omega arith))
    | inr e ↦
        rw (index_loop, e) (IsFirst-step i m _ e (index_loop-IsFirst (i + 1) n m (omega arith)))
  ]

  IsLast-step :
      (n : ℕ) (r : ℤ) → condition (cell elements n) ≡ false → IsLast n r → IsLast (suc n) r
  IsLast-step n (pos k) here (high, passes, fails) = (
    omega arith,
    passes,
    λ j l u. elim (ℕ_discrete j n) [
      | yes e ↦ ap (λ (k' : ℕ). condition (cell elements k')) e ∙ here
      | no ne ↦ fails j l (omega arith)
    ],
  )
  IsLast-step n (negsuc k) here (e, fails) = (
    e,
    λ j u. elim (ℕ_discrete j n) [
      | yes e' ↦ ap (λ (k' : ℕ). condition (cell elements k')) e' ∙ here
      | no ne ↦ fails j (omega arith)
    ],
  )

  pub last_index_loop-IsLast : (n : ℕ) → IsLast n (last_index_loop condition elements n)
  unfolding last_index_loop
  last_index_loop-IsLast zero = (refl, λ j u. absurd (omega arith))
  last_index_loop-IsLast (suc n) = elim (Bool-cases (condition (cell elements n))) [
    | inl e ↦ rw (last_index_loop, e) (omega arith, e, λ j l u. absurd (omega arith))
    | inr e ↦ rw (last_index_loop, e) (IsLast-step n _ e (last_index_loop-IsLast n))
  ]

  -- The element at an index that a search returned.
  abbrev pub at_index : ℤ → Option A
  at_index (pos k) = some (cell elements k)
  at_index (negsuc k) = none

  pub find_loop-at_index :
      (i n : ℕ) → find_loop condition elements i n ≡ at_index (index_loop condition elements i n)
  unfolding find_loop index_loop
  find_loop-at_index i zero = refl
  find_loop-at_index i (suc n) = elim (Bool-cases (condition (cell elements i))) [
    | inl e ↦ rw (find_loop, index_loop, e)
    | inr e ↦ rw (find_loop, index_loop, e) (find_loop-at_index (i + 1) n)
  ]

  pub find_last_loop-at_index :
      (n : ℕ)
      → find_last_loop condition elements n ≡ at_index (last_index_loop condition elements n)
  unfolding find_last_loop last_index_loop
  find_last_loop-at_index zero = refl
  find_last_loop-at_index (suc n) = elim (Bool-cases (condition (cell elements n))) [
    | inl e ↦ rw (find_last_loop, last_index_loop, e)
    | inr e ↦ rw (find_last_loop, last_index_loop, e) (find_last_loop-at_index n)
  ]

  pub count_loop-filter :
      (count i n : ℕ)
      → count_loop condition elements count i n
        ≡ count + length (filter condition (cells_from elements i n))
  unfolding count_loop cells_from
  count_loop-filter count i zero = omega arith
  count_loop-filter count i (suc n) = elim (Bool-cases (condition (cell elements i))) [
    | inl e ↦ rw (count_loop, e) (omega (arith, count_loop-filter (count + 1) (i + 1) n))
    | inr e ↦ rw (count_loop, e) (count_loop-filter count (i + 1) n)
  ]

  pub is_index-any :
      (i n : ℕ)
      → is_index (index_loop condition elements i n) ≡ any condition (cells_from elements i n)
  unfolding index_loop cells_from
  is_index-any i zero = refl
  is_index-any i (suc n) = elim (Bool-cases (condition (cell elements i))) [
    | inl e ↦ rw (index_loop, e)
    | inr e ↦ rw (index_loop, e) (is_index-any (i + 1) n)
  ]
