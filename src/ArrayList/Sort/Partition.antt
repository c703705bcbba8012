-- ===== src/ArrayList/Sort/Partition.antt =====
-- The partition of quick sort.
use libcdsa.Core.Cells.{cell, swap, swap_right, swap_other, length-swap}
use libcdsa.Core.Comparison.{Below, IsComparison, is_positive, Below-of_above, Below-along}
use libcdsa.Base.{
  ℕ, zero, suc, ◌+◌, ◌-◌, ◌≤◌, ◌<◌, ◌≡◌, refl, ap, ◌∙◌, arith, inl, inr, Bool-cases, true, List,
  length, ℕ_discrete,
}
use libcdsa.Base.Int.{ℤ}
use libcdsa.Core.{Pointer}
use libcdsa.ArrayList.Order.Reversal.{cell-swap}
use libcdsa.ArrayList.Sort.{partition_loop, partition}
use libcdsa.ArrayList.Sort.Rearranged.{
  IsRearranged, IsRearranged-refl, IsRearranged-trans, IsRearranged-widen, swap-IsRearranged,
}

module _ {A : Type 0} ⦃pointer : Pointer A⦄ {compare : A → A → ℤ}
    (order : IsComparison compare) where
  -- The state of the loop of `partition` before round `i`: the cells from `start` up to `next` do not
  -- rank above the pivot `x` at `last`, those from there up to `i` do.
  pub record IsSplit (elements : List A) (start next i last : ℕ) (x : A) : Type 0 where
    pub low_from : start ≤ next
    pub next_to : next ≤ i
    pub pivot_there : cell elements last ≡ x
    pub low : (k : ℕ) → start ≤ k → k < next → Below compare (cell elements k) x
    pub high : (k : ℕ) → next ≤ k → k < i → is_positive (compare (cell elements k) x) ≡ true

  IsSplit-pass :
      (elements : List A) (start next i last : ℕ) (x : A)
      → is_positive (compare (cell elements i) x) ≡ true
      → IsSplit elements start next i last x
      → IsSplit elements start next (i + 1) last x
  IsSplit-pass elements start next i last x above s = record {
    low_from = s.low_from;
    next_to = omega (arith, s.next_to);
    pivot_there = s.pivot_there;
    low = s.low;
    high = λ k p q. elim (ℕ_discrete k i) [
      | yes e ↦ ap (λ (j : ℕ). is_positive (compare (cell elements j) x)) e ∙ above
      | no ne ↦ s.high k p (omega arith)
    ];
  }

  IsSplit-swap :
      (elements : List A) (start next i last : ℕ) (x : A)
      → i < last
      → last < length elements
      → Below compare (cell elements i) x
      → IsSplit elements start next i last x
      → IsSplit (swap elements i next) start (next + 1) (i + 1) last x
  IsSplit-swap elements start next i last x inside room below s =
      let at = λ (k : ℕ). cell-swap elements i next k (omega arith) (omega (arith, s.next_to)) in
      let order_now : next ≤ i = s.next_to in
      let to_next : cell (swap elements i next) next ≡ cell elements i = at next ∙ ground arith in
      let positive_along : (k j : ℕ)
          → cell (swap elements i next) k ≡ cell elements j
          → is_positive (compare (cell elements j) x) ≡ true
          → is_positive (compare (cell (swap elements i next) k) x) ≡ true =
        λ k j e h. ap (λ a. is_positive (compare a x)) e ∙ h in
      record {
        low_from = omega (arith, s.low_from);
        next_to = omega arith;
        pivot_there =
            swap_other elements i next (omega arith) (omega arith) last (λ e. absurd (omega arith))
              (λ e. absurd (omega arith))
            ∙ s.pivot_there;
        low = λ k p q. elim (ℕ_discrete k next) [
          | yes e ↦ Below-along order (ap (cell (swap elements i next)) e ∙ to_next) refl below
          | no ne ↦
              Below-along order
                (swap_other elements i next (omega arith) (omega arith) k
                  (λ e. absurd (omega arith)) ne)
                refl (s.low k p (omega arith))
        ];
        high = λ k p q. elim (ℕ_discrete k i) [
          | yes e ↦
              let moved : cell (swap elements i next) k ≡ cell elements next =
                at k ∙ ground arith in
              positive_along k next moved (s.high next (omega arith) (omega arith))
          | no ne ↦
              positive_along k k
                (swap_other elements i next (omega arith) (omega arith) k ne
                  (λ e. absurd (omega arith)))
                (s.high k (omega arith) (omega arith))
        ];
      }

  -- A partition loop that is over.
  abbrev Parted : List A → ℕ → ℕ → A → List A × ℕ → Type 1
  Parted elements start last x outcome =
      IsRearranged start last elements outcome.0 × IsSplit outcome.0 start outcome.1 last last x

  partition_loop-Parted :
      (elements : List A) (start next i n last : ℕ) (x : A)
      → i + n ≡ last
      → last < length elements
      → IsSplit elements start next i last x
      → Parted elements start last x (partition_loop compare elements last next i n)
  unfolding partition_loop
  partition_loop-Parted elements start next i zero last x h room s = (
    IsRearranged-refl start last elements,
    record {
      low_from = s.low_from;
      next_to = omega (arith, s.next_to);
      pivot_there = s.pivot_there;
      low = s.low;
      high = λ k p q. s.high k p (omega arith);
    },
  )
  partition_loop-Parted elements start next i (suc n) last x h room s =
      let pivot = s.pivot_there in
      elim (Bool-cases (is_positive (compare (cell elements i) (cell elements last)))) [
        | inl above ↦
            rw (partition_loop, above)
              (partition_loop-Parted elements start next (i + 1) n last x (omega arith) room
                (IsSplit-pass elements start next i last x (rw pivot at above) s))
        | inr below ↦
            let moved = swap elements i next in
            let (r, split) =
              partition_loop-Parted moved start (next + 1) (i + 1) n last x (omega arith)
                (omega (arith, length-swap elements i next))
                (IsSplit-swap elements start next i last x (omega arith) room (rw pivot at below)
                  s) in
            rw (partition_loop, below)
              (
                IsRearranged-trans start last elements moved _
                    (swap-IsRearranged elements i next start last
                      (omega (arith, s.low_from, s.next_to)) (omega arith) s.low_from
                      (omega (arith, s.next_to)) (omega arith))
                    r,
                split,
              )
      ]

  -- An array that is split round the pivot at `p`.
  pub record IsPartitioned (elements : List A) (start p end : ℕ) : Type 0 where
    pub from : start ≤ p
    pub under : p < end
    pub left : (k : ℕ) → start ≤ k → k < p → Below compare (cell elements k) (cell elements p)
    pub right : (k : ℕ) → p < k → k < end → Below compare (cell elements p) (cell elements k)

  abbrev pub Partitioned : List A → ℕ → ℕ → List A × ℕ → Type 1
  Partitioned elements start end outcome =
      IsRearranged start end elements outcome.0 × IsPartitioned outcome.0 start outcome.1 end

  IsSplit-IsPartitioned :
      (elements : List A) (start p last : ℕ) (x : A)
      → last < length elements
      → IsSplit elements start p last last x
      → IsPartitioned (swap elements p last) start p (last + 1)
  IsSplit-IsPartitioned elements start p last x room s =
      let inside : p ≤ last = s.next_to in
      let at = λ (k : ℕ). cell-swap elements p last k (omega arith) room in
      let pivot_was = s.pivot_there in
      let pivot : cell (swap elements p last) p ≡ x =
        at p ∙ ground (arith, ap (λ (j : ℕ). cell elements j) {x = p} {y = last}) in
      record {
        from = s.low_from;
        under = omega arith;
        left = λ k l h.
            Below-along order
              (swap_other elements p last (omega arith) room k (λ e. absurd (omega arith))
                (λ e. absurd (omega arith)))
              pivot (s.low k l h);
        right = λ k l h. elim (ℕ_discrete k last) [
          | yes e ↦
              Below-along order pivot
                (ap (cell (swap elements p last)) e ∙ swap_right elements p last (omega arith) room)
                (Below-of_above order _ _ (s.high p (omega arith) (omega arith)))
          | no ne ↦
              Below-along order pivot
                (swap_other elements p last (omega arith) room k (λ e. absurd (omega arith)) ne)
                (Below-of_above order _ _ (s.high k (omega arith) (omega arith)))
        ];
      }

  pub partition-Partitioned :
      (elements : List A) (start last : ℕ)
      → start ≤ last
      → last < length elements
      → Partitioned elements start (last + 1) (partition compare elements start last)
  unfolding partition
  partition-Partitioned elements start last h room =
      let x = cell elements last in
      let (r, s) =
        partition_loop-Parted elements start start start (last - start) last x (omega arith) room
          (record {
            low_from = omega arith;
            next_to = omega arith;
            pivot_there = refl;
            low = λ k p q. absurd (omega arith);
            high = λ k p q. absurd (omega arith);
          }) in
      let looped = partition_loop compare elements last start start (last - start) in
      let room' : last < length looped.0 = omega (arith, r.whole) in
      (
        IsRearranged-trans start (last + 1) elements looped.0 _
            (IsRearranged-widen start last start (last + 1) elements looped.0 (omega arith)
              (omega arith) r)
            (swap-IsRearranged looped.0 looped.1 last start (last + 1) s.low_from
              (omega (arith, s.next_to)) h (omega arith) (omega arith)),
        IsSplit-IsPartitioned looped.0 start looped.1 last x room' s,
      )
