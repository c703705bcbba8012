-- ===== src/ArrayList/Sort/Merge/Verdict.antt =====
-- What a run of merge sort comes to.
use libcdsa.Core.Cells.{cell, cells_from}
use libcdsa.Core.Comparison.{IsComparison, Below-refl, Below-along}
use libcdsa.Base.{
  ℕ, zero, suc, ◌+◌, ◌-◌, ◌/◌, ◌≤◌, ◌<◌, ◌≡◌, refl, sym, ap, subst, ◌∙◌, arith, inl, inr,
  Bool-cases, Option, none, some, List, length, ltb, ltb→lt, write_from,
}
use libcdsa.Base.Int.{ℤ}
use libcdsa.Core.{Pointer, Alloc, Outcome, ok, err, memory_allocation, then_outcome}
use libcdsa.ArrayList.Sort.Merge.{merge_loop, merge_by, merge, merge_sort}
use libcdsa.ArrayList.Sort.Merge.Lists.{merged}
use libcdsa.ArrayList.Sort.Merge.Write.{merge_loop-write_from}
use libcdsa.ArrayList.Sort.Merge.Order.{halves, halves-IsRearranged, halves-IsSortedRange}
use libcdsa.ArrayList.Sort.Rearranged.{
  IsRearranged, IsRearranged-refl, IsRearranged-trans, IsRearranged-widen, IsSortedRange,
}

module _ {A : Type 0} ⦃pointer : Pointer A⦄ (alloc : Alloc A) where
  -- Without an error `P` holds; an error is that of a refused allocation.
  abbrev pub Verdict : Type 0 → Outcome (Unit {0}) → Type 0
  Verdict P (ok _) = P
  Verdict P (err e) = (e ≡ memory_allocation) × ((n : ℕ) × (alloc n ≡ none))

  both :
      (P Q R : Type 0) (r r' r'' : Outcome (Unit {0}))
      → Verdict P r
      → Verdict Q r'
      → Verdict (P → Q → R) r''
      → Verdict R (then_outcome (then_outcome r r') r'')
  both P Q R (ok _) (ok _) (ok _) p q f = f p q
  both P Q R (err e) (ok _) (ok _) p q f = p
  both P Q R r (err e) (ok _) p q f = q
  both P Q R r r' (err e) p q f = f

  Verdict-map : (P Q : Type 0) (r : Outcome (Unit {0})) → (P → Q) → Verdict P r → Verdict Q r
  Verdict-map P Q (ok _) f p = f p
  Verdict-map P Q (err e) f p = p

  -- A range put in order, or left with its elements in some order.
  abbrev pub Ranged : (A → A → ℤ) → List A → ℕ → ℕ → List A × Outcome (Unit {0}) → Type 1
  Ranged compare elements lo hi outcome =
      IsRearranged lo hi elements outcome.0
      × Verdict (IsSortedRange compare outcome.0 lo hi) outcome.1

  module _ {compare : A → A → ℤ} (order : IsComparison compare) where
    abbrev Joins : List A → ℕ → ℕ → ℕ → List A × Outcome (Unit {0}) → Type 1
    Joins elements lo mid hi outcome =
        IsRearranged lo hi elements outcome.0
        × Verdict
            (IsSortedRange compare elements lo mid
              → IsSortedRange compare elements mid hi
              → IsSortedRange compare outcome.0 lo hi)
            outcome.1

    merge_by-Joins :
        (elements : List A) (start mid last : ℕ) (left right : Option (List A))
        → alloc (mid - start + 1) ≡ left
        → alloc (last - mid) ≡ right
        → start ≤ mid
        → mid < last
        → last < length elements
        → Joins elements start
            (mid + 1)
            (last + 1)
            (merge_by compare elements start mid last left right)
    unfolding merge_by halves
    merge_by-Joins elements start mid last none right e e' h p room =
        (IsRearranged-refl start (last + 1) elements, (refl, (_, e)))
    merge_by-Joins elements start mid last (some left) none e e' h p room =
        (IsRearranged-refl start (last + 1) elements, (refl, (_, e')))
    merge_by-Joins elements start mid last (some left) (some right) e e' h p room =
        let n = mid - start + 1 in
        let m = last - mid in
        let at : start + n ≡ mid + 1 = omega arith in
        let end : start + (n + m) ≡ last + 1 = omega arith in
        let end' : start + n + m ≡ last + 1 = omega arith in
        let inside : start + (n + m) ≤ length elements = omega arith in
        let same : merge_loop compare elements start (cells_from elements start n)
              (cells_from elements (mid + 1) m)
            ≡ write_from elements start (halves order elements start n m inside) =
          merge_loop-write_from compare elements start (cells_from elements start n)
            (cells_from elements (mid + 1) m)
          ∙ ap
              (λ (j : ℕ).
                write_from elements start
                  (merged compare (cells_from elements start n) (cells_from elements j m)))
              (sym at) in
        let r = rw end at (halves-IsRearranged order elements start n m inside) in
        let sorts = halves-IsSortedRange order elements start n m inside in
        (
          subst (IsRearranged start (last + 1) elements) (sym same) r,
          λ sorted sorted'.
              subst (λ xs. IsSortedRange compare xs start (last + 1)) (sym same)
                (λ a b l le u.
                  sorts (λ i j l' le' u'. sorted i j l' le' (omega arith))
                    (λ i j l' le' u'. sorted' i j (omega arith) le' (omega arith)) a b l le
                    (omega arith)),
        )

    -- The two halves and the merge, one after the other.
    halves-Ranged :
        (zero_list one two three : List A) (lo mid hi : ℕ) (r r' r'' : Outcome (Unit {0}))
        → lo ≤ mid
        → mid ≤ hi
        → Ranged compare zero_list lo mid (one, r)
        → Ranged compare one mid hi (two, r')
        → Joins two lo mid hi (three, r'')
        → Ranged compare zero_list lo hi (three, then_outcome (then_outcome r r') r'')
    halves-Ranged zero_list one two three lo mid hi r r' r'' h p (a, v) (b, v') (c, v'') = (
      IsRearranged-trans lo hi zero_list one three
          (IsRearranged-widen lo mid lo hi zero_list one (omega arith) (omega arith) a)
          (IsRearranged-trans lo hi one two three
            (IsRearranged-widen mid hi lo hi one two (omega arith) (omega arith) b) c),
      both _ _ _ r r' r''
          (Verdict-map _ (IsSortedRange compare two lo mid) r
            (λ sorted i j l le u.
              Below-along order (b.before i (omega arith)) (b.before j u) (sorted i j l le u))
            v)
          v' v'',
    )

    pub merge_sort-Ranged :
        (fuel : ℕ) (elements : List A) (start last : ℕ)
        → last ≤ start + fuel
        → last < length elements
        → Ranged compare elements start
            (last + 1)
            (merge_sort compare fuel alloc elements start last)
    unfolding merge_sort merge
    merge_sort-Ranged zero elements start last h room = (
      IsRearranged-refl start (last + 1) elements,
      λ a b l le u.
          Below-along order refl (ap (cell elements) {x = b} {y = a} (omega arith))
            (Below-refl order _),
    )
    merge_sort-Ranged (suc fuel) elements start last h room = elim (Bool-cases (ltb start last)) [
      | inr small ↦
          let tight : last ≤ start = ground arith in
          rw (merge_sort, small)
            (
              IsRearranged-refl start (last + 1) elements,
              λ a b l le u.
                  Below-along order refl (ap (cell elements) {x = b} {y = a} (omega arith))
                    (Below-refl order _),
            )
      | inl more ↦
          let wide = ltb→lt start last more in
          let mid = start + (last - start) / 2 in
          let one = merge_sort compare fuel alloc elements start mid in
          let left = merge_sort-Ranged fuel elements start mid (omega arith) (omega arith) in
          let two = merge_sort compare fuel alloc one.0 (mid + 1) last in
          let right =
            merge_sort-Ranged fuel one.0 (mid + 1) last (omega arith)
              (omega (arith, left.0.whole)) in
          rw (merge_sort, more)
            (halves-Ranged elements one.0 two.0 _ start (mid + 1) (last + 1) one.1 two.1 _
              (omega arith) (omega arith) left right
              (merge_by-Joins two.0 start mid last _ _ refl refl (omega arith) (omega arith)
                (omega (arith, left.0.whole, right.0.whole))))
    ]
