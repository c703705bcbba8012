-- ===== src/ArrayList/Removal/Range.antt =====
-- `array_list_remove_range` takes a slice out, and `array_list_clear` everything.
use libcdsa.Core.Cells.{
  cell, cells_from, cells_from_congr, length-empty_out, empty_out-null, empty_out-events,
}
use libcdsa.Base.{
  ℕ, zero, suc, ◌+◌, ◌-◌, ◌≤◌, ◌<◌, ◌≡◌, refl, ap, ◌∙◌, arith, inl, inr, true, ◌&&◌, ◌||◌,
  Bool-cases, Option, none, some, List, [], ◌∷◌, ◌++◌, map, length, take, drop, get_or, set,
  length-set, get_or-set, ltb, leb, ◌==◌, ◌⊎◌, if◌then◌else◌, ltb→lt, le→ltb_false, lt→ltb,
}
use libcdsa.Base.Int.{ℤ, to_ℕ?}
use libcdsa.Base.Slices.{get_or-cut, length-cut}
use libcdsa.Core.{Pointer, Event, Outcome, ok, err, index_out_of_bounds, destructed}
use libcdsa.ArrayList.{ArrayList}
use libcdsa.ArrayList.Inv.{IsValid, Changed, contents, length-contents, contents_at, cells_from_ext}
use libcdsa.ArrayList.Removal.{
  range_step, range_loop, range_destroyed, remove_range_at, remove_range, clear,
}

module _ {A : Type 0} ⦃pointer : Pointer A⦄ where
  length-range_step :
      (elements : List A) (end_index count last i : ℕ)
      → length (range_step elements end_index count last i) ≡ length elements
  unfolding range_step
  length-range_step elements end_index count last i =
      let x = cell elements i in
      let moved = set elements (i - count) x in
      ground (
        arith,
        length-set elements (i - count) x,
        length-set moved i pointer.null,
        length-set elements i pointer.null,
      )

  cell-range_step :
      (elements : List A) (end_index count last i k : ℕ)
      → i < length elements
      → cell (range_step elements end_index count last i) k ≡ (
          if leb last i && (i == k)
          then pointer.null
          else if leb end_index i && (i - count == k)
          then cell elements i
          else cell elements k)
  unfolding range_step
  cell-range_step elements end_index count last i k h =
      let x = cell elements i in
      let moved = set elements (i - count) x in
      ground (
        arith,
        length-set elements (i - count) x,
        get_or-set elements (i - count) k x pointer.null,
        get_or-set moved i k pointer.null pointer.null,
        get_or-set elements i k pointer.null pointer.null,
      )

  length-range_loop :
      (elements : List A) (end_index count last i n : ℕ)
      → length (range_loop elements end_index count last i n) ≡ length elements
  unfolding range_loop
  length-range_loop elements end_index count last i zero = refl
  length-range_loop elements end_index count last i (suc n) =
      length-range_loop (range_step elements end_index count last i) end_index count last (i + 1) n
      ∙ length-range_step elements end_index count last i

  -- What the rounds from `i` to the old size leave in a cell.
  cell-range_loop :
      (elements : List A) (end_index count last i n k : ℕ)
      → i + n ≡ last + count
      → count ≤ end_index
      → i + n ≤ length elements
      → k < last
      → cell (range_loop elements end_index count last i n) k ≡ (
          if leb end_index (k + count) && leb i (k + count)
          then cell elements (k + count)
          else cell elements k)
  unfolding range_loop
  cell-range_loop elements end_index count last i zero k e c h p = ground arith
  cell-range_loop elements end_index count last i (suc n) k e c h p =
      let next = range_step elements end_index count last i in
      ground (
        arith,
        cell-range_loop next end_index count last (i + 1) n k,
        length-range_step elements end_index count last i,
        cell-range_step elements end_index count last i k,
        cell-range_step elements end_index count last i (k + count),
        ap (λ (j : ℕ). cell elements j) {x = i} {y = k + count},
      )

  range_destroyed_none :
      (elements : List A) (end_index count last i n : ℕ)
      → end_index ≤ i
      → range_destroyed elements end_index count last i n ≡ []
  unfolding range_destroyed
  range_destroyed_none elements end_index count last i zero h = refl
  range_destroyed_none elements end_index count last i (suc n) h =
      rw (range_destroyed, le→ltb_false i end_index h)
        (range_destroyed_none (range_step elements end_index count last i) end_index count last
          (i + 1) n (omega arith))

  -- They destroy the cells from `i` up to `end_index`, as they were.
  range_destroyed_lem :
      (elements : List A) (end_index count last i n m : ℕ)
      → i + n ≤ length elements
      → i + m ≡ end_index
      → m ≤ n
      → range_destroyed elements end_index count last i n ≡ cells_from elements i m
  unfolding range_destroyed cells_from
  range_destroyed_lem elements end_index count last i n zero h f g =
      range_destroyed_none elements end_index count last i n (omega arith)
  range_destroyed_lem elements end_index count last i zero (suc m) h f g = absurd (omega arith)
  range_destroyed_lem elements end_index count last i (suc n) (suc m) h f g =
      let next = range_step elements end_index count last i in
      rw (range_destroyed, lt→ltb i end_index (omega arith))
        (ap (◌∷◌ (cell elements i)) (
          range_destroyed_lem next end_index count last (i + 1) n m
            (omega (arith, length-range_step elements end_index count last i)) (omega arith)
            (omega arith)
          ∙ cells_from_congr next elements (i + 1) m
              (λ k l u. ground (arith, cell-range_step elements end_index count last i k))))

pub beyond :
    (size start end : ℕ) → (ltb size end || ltb end start) ≡ true → (end < start) ⊎ (size < end)
beyond size start end h = elim (Bool-cases (ltb end start)) [
  | inl e ↦ inl (ltb→lt end start e)
  | inr e ↦ inr (ground arith)
]

module _ {Factor : Type 0} {A : Type 0} ⦃pointer : Pointer A⦄ where
  -- How the removal of the indices from `start` up to `end` ends; `none` is a negative index.
  abbrev pub RemovedRange :
      ArrayList Factor A
      → Option ℕ
      → Option ℕ
      → ArrayList Factor A × Outcome ℕ × List (Event A)
      → Type 0
  RemovedRange list none end outcome = outcome ≡ (list, err index_out_of_bounds, [])
  RemovedRange list (some start) none outcome = outcome ≡ (list, err index_out_of_bounds, [])
  RemovedRange list (some start) (some end) (after, ok n, events) =
      (start ≤ end)
      × (end ≤ list.size)
      × (n ≡ end - start)
      × Changed list after
      × (contents after ≡ take start (contents list) ++ drop end (contents list))
      × (events ≡ map (destructed list.destruct) (cells_from list.elements start (end - start)))
  RemovedRange list (some start) (some end) (after, err e, events) =
      ((end < start) ⊎ (list.size < end))
      × (e ≡ index_out_of_bounds)
      × (after ≡ list)
      × (events ≡ [])

  module _ (list : ArrayList Factor A) (valid : IsValid list) (start end : ℕ)
      (forward : start ≤ end) (inside : end ≤ list.size) where
    after_range : List A
    after_range =
        range_loop list.elements end (end - start) (list.size - (end - start)) start
          (list.size - start)

    range-contents :
        cells_from after_range 0 (list.size - (end - start))
        ≡ take start (contents list) ++ drop end (contents list)
    unfolding after_range
    range-contents =
        let c = contents list in
        let size = length-contents list in
        let count = end - start in
        cells_from_ext after_range (list.size - count) (take start c ++ drop end c)
          (omega (arith, length-cut start end c, size))
          (λ k h. ground (
            arith,
            size,
            valid.storage,
            valid.size_in,
            contents_at list k,
            contents_at list (k + count),
            get_or-cut start end c k pointer.null,
            cell-range_loop list.elements end count (list.size - count) start (list.size - start) k,
            ap (λ (j : ℕ). get_or c j pointer.null) {x = end + (k - start)} {y = k + count},
          ))

    range-Removed :
        RemovedRange list (some start) (some end) (remove_range_at list (some start) (some end))
    unfolding remove_range_at after_range
    range-Removed =
        let count = end - start in
        rw (remove_range_at, le→ltb_false list.size end inside, le→ltb_false end start forward)
          (
            forward,
            inside,
            refl,
            record {
              valid = record {
                storage =
                    length-range_loop list.elements end count (list.size - count) start
                      (list.size - start)
                    ∙ valid.storage;
                large = valid.large;
                small = valid.small;
                size_in = omega (arith, valid.size_in);
              };
              same_factor = refl;
              same_destruct = refl;
              counted = refl;
            },
            range-contents,
            ap (map (destructed list.destruct)) (
                range_destroyed_lem list.elements end count (list.size - count) start
                  (list.size - start) count (omega (arith, valid.storage, valid.size_in))
                  (omega arith) (omega arith)),
          )

  pub remove_range_at-Removed :
      (list : ArrayList Factor A) (start end : Option ℕ)
      → IsValid list
      → RemovedRange list start end (remove_range_at list start end)
  unfolding remove_range_at
  remove_range_at-Removed list none end valid = refl
  remove_range_at-Removed list (some start) none valid = refl
  remove_range_at-Removed list (some start) (some end) valid =
      elim (Bool-cases (ltb list.size end || ltb end start)) [
        | inl bad ↦ rw (remove_range_at, bad) (beyond list.size start end bad, refl, refl, refl)
        | inr good ↦ range-Removed list valid start end (ground arith) (ground arith)
      ]

  -- Array_list_remove_range on a valid list and two indices 0 <= start <= end <= size takes out
  -- the elements from start up to end, passes them to the destructor in order, returns their
  -- number and leaves a valid list with one modification counted; for any other indices it reports
  -- INDEX_OUT_OF_BOUNDS_ERROR and changes nothing.
  pub remove_range_slices :
      (list : ArrayList Factor A) (start_index end_index : ℤ)
      → IsValid list
      → RemovedRange list
          (to_ℕ? start_index)
          (to_ℕ? end_index)
          (remove_range list start_index end_index)
  unfolding remove_range
  remove_range_slices list start_index end_index valid =
      remove_range_at-Removed list (to_ℕ? start_index) (to_ℕ? end_index) valid

  pub clear_empties_list :
      (list : ArrayList Factor A)
      → IsValid list
      → let (after, events) = clear list in
        Changed list after
        × (contents after ≡ [])
        × (events ≡ map (destructed list.destruct) (contents list))
        × ((k : ℕ) → k < list.size → cell after.elements k ≡ pointer.null)
  unfolding clear cells_from
  clear_empties_list list valid = (
    record {
      valid = record {
        storage = length-empty_out list.destruct list.elements 0 list.size ∙ valid.storage;
        large = valid.large;
        small = valid.small;
        size_in = omega arith;
      };
      same_factor = refl;
      same_destruct = refl;
      counted = refl;
    },
    refl,
    empty_out-events list.destruct list.elements 0 list.size,
    λ k h.
        empty_out-null list.destruct list.elements 0 list.size k
          (omega (arith, valid.storage, valid.size_in)) (omega arith) (omega arith),
  )
