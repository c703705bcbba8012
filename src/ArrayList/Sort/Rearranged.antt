-- ===== src/ArrayList/Sort/Rearranged.antt =====
-- Changes of an array that only put the cells of a range in another order.
use libcdsa.Core.Cells.{
  cell, swap, length-swap, swap_left, swap_right, swap_other, occurrences, occurrences-swap,
}
use libcdsa.Base.{
  ℕ, ◌≤◌, ◌<◌, ◌≡◌, refl, sym, ap, subst, ◌∙◌, arith, Bool, List, length, ℕ_discrete, dec_lt,
}
use libcdsa.Base.Int.{ℤ}
use libcdsa.Core.Comparison.{Below}
use libcdsa.Core.{Pointer}
use libcdsa.ArrayList.Search.Binary.{IsSorted}
use libcdsa.ArrayList.Order.Shuffle.{IsPermuted}

module _ {A : Type 0} ⦃pointer : Pointer A⦄ where
  -- Only the cells from `lo` up to `hi` are changed, what holds of all of them goes on holding of
  -- all of them, and every test passes as often.
  pub record IsRearranged (lo hi : ℕ) (elements after : List A) : Type 1 where
    pub whole : length after ≡ length elements
    pub before : (k : ℕ) → k < lo → cell after k ≡ cell elements k
    pub behind : (k : ℕ) → hi ≤ k → cell after k ≡ cell elements k
    pub kept :
        (P : A → Type 0)
        → ((k : ℕ) → lo ≤ k → k < hi → P (cell elements k))
        → (k : ℕ) → lo ≤ k
        → k < hi
        → P (cell after k)
    pub held :
        (test : A → Bool) (n : ℕ)
        → hi ≤ n
        → n ≤ length elements
        → occurrences test after n ≡ occurrences test elements n

  pub IsRearranged-refl : (lo hi : ℕ) (elements : List A) → IsRearranged lo hi elements elements
  IsRearranged-refl lo hi elements = record {
    whole = refl;
    before = λ k h. refl;
    behind = λ k h. refl;
    kept = λ P all k l h. all k l h;
    held = λ test n h p. refl;
  }

  pub IsRearranged-trans :
      (lo hi : ℕ) (xs ys zs : List A)
      → IsRearranged lo hi xs ys
      → IsRearranged lo hi ys zs
      → IsRearranged lo hi xs zs
  IsRearranged-trans lo hi xs ys zs a b = record {
    whole = b.whole ∙ a.whole;
    before = λ k h. b.before k h ∙ a.before k h;
    behind = λ k h. b.behind k h ∙ a.behind k h;
    kept = λ P all k l h. b.kept P (λ j l' h'. a.kept P all j l' h') k l h;
    held = λ test n h p. b.held test n h (omega (arith, a.whole)) ∙ a.held test n h p;
  }

  -- A change in a range is one in every wider range.
  pub IsRearranged-widen :
      (lo hi lo' hi' : ℕ) (xs ys : List A)
      → lo' ≤ lo
      → hi ≤ hi'
      → IsRearranged lo hi xs ys
      → IsRearranged lo' hi' xs ys
  IsRearranged-widen lo hi lo' hi' xs ys low high r = record {
    whole = r.whole;
    before = λ k h. r.before k (omega arith);
    behind = λ k h. r.behind k (omega arith);
    kept = λ P all k l h. elim (dec_lt k lo) [
      | yes p ↦ subst P (sym (r.before k p)) (all k l h)
      | no p ↦ elim (dec_lt k hi) [
        | yes q ↦ r.kept P (λ j l' h'. all j (omega arith) (omega arith)) k (omega arith) q
        | no q ↦ subst P (sym (r.behind k (omega arith))) (all k l h)
      ]
    ];
    held = λ test n h p. r.held test n (omega arith) p;
  }

  -- A cell after a swap holds what one of the cells of the range held.
  swap_kept :
      (elements : List A) (i j lo hi : ℕ)
      → i < length elements
      → j < length elements
      → lo ≤ i
      → i < hi
      → lo ≤ j
      → j < hi
      → (P : A → Type 0) → ((k : ℕ) → lo ≤ k → k < hi → P (cell elements k))
      → (k : ℕ) → lo ≤ k
      → k < hi
      → P (cell (swap elements i j) k)
  swap_kept elements i j lo hi p q li hi_i lj hj P all k l h = elim (ℕ_discrete k j) [
    | yes e ↦
        subst P (sym (ap (cell (swap elements i j)) e ∙ swap_right elements i j p q))
          (all i li hi_i)
    | no ne ↦ elim (ℕ_discrete k i) [
      | yes e ↦
          subst P
            (sym (ap (cell (swap elements i j)) e ∙ swap_left elements i j p q (λ d. ne (e ∙ d))))
            (all j lj hj)
      | no ne' ↦ subst P (sym (swap_other elements i j p q k ne' ne)) (all k l h)
    ]
  ]

  pub swap-IsRearranged :
      (elements : List A) (i j lo hi : ℕ)
      → lo ≤ i
      → i < hi
      → lo ≤ j
      → j < hi
      → hi ≤ length elements
      → IsRearranged lo hi elements (swap elements i j)
  swap-IsRearranged elements i j lo hi li hi_i lj hj room = record {
    whole = length-swap elements i j;
    before = λ k h.
        swap_other elements i j (omega arith) (omega arith) k (λ e. absurd (omega arith))
          (λ e. absurd (omega arith));
    behind = λ k h.
        swap_other elements i j (omega arith) (omega arith) k (λ e. absurd (omega arith))
          (λ e. absurd (omega arith));
    kept = swap_kept elements i j lo hi (omega arith) (omega arith) li hi_i lj hj;
    held = λ test n h p.
        occurrences-swap test elements i j n (omega arith) (omega arith) (omega arith)
          (omega arith);
  }

  pub IsRearranged-IsPermuted :
      (n : ℕ) (xs ys : List A) → n ≤ length xs → IsRearranged 0 n xs ys → IsPermuted n xs ys
  IsRearranged-IsPermuted n xs ys room r = record {
    whole = r.whole;
    held = λ test. r.held test n (omega arith) room;
  }

  -- The first `n` cells put in order.
  abbrev pub Sorts : (A → A → ℤ) → ℕ → List A → List A → Type 1
  Sorts compare n elements after = IsRearranged 0 n elements after × IsSorted compare after n

  -- The cells from `lo` up to `hi` are in order.
  abbrev pub IsSortedRange : (A → A → ℤ) → List A → ℕ → ℕ → Type 0
  IsSortedRange compare elements lo hi =
      (a b : ℕ) → lo ≤ a → a ≤ b → b < hi → Below compare (cell elements a) (cell elements b)

  abbrev pub SortsRange : (A → A → ℤ) → List A → ℕ → ℕ → List A → Type 1
  SortsRange compare elements lo hi after =
      IsRearranged lo hi elements after × IsSortedRange compare after lo hi
