-- ===== src/ArrayList/Removal/Replace.antt =====
-- `array_list_set`, `array_list_swap` and `array_list_replace_all`, which keep the size.
use libcdsa.Core.Cells.{cell, cells_from, cells_from_congr}
use libcdsa.Base.{
  ℕ, zero, suc, ◌+◌, ◌≤◌, ◌<◌, ◌≡◌, refl, sym, ap, ap₂, ◌∙◌, arith, inl, inr, Bool, not, Bool-cases,
  Option, none, some, List, [], ◌∷◌, map, length, get_or, set, length-set, get_or-set,
  get_or-set_ne, get_or-set_self, ltb, if◌then◌else◌, ltb→lt,
}
use libcdsa.Base.Int.{ℤ, to_ℕ?}
use libcdsa.Base.Search.{filter}
use libcdsa.Core.{Pointer, Event, Outcome, ok, err, index_out_of_bounds, destructed}
use libcdsa.ArrayList.{ArrayList}
use libcdsa.ArrayList.Inv.{IsValid, contents, length-contents, contents_at, cells_from_ext}
use libcdsa.ArrayList.Removal.{replace_loop, replaced, replace_all, set_at, set_element}

module _ {Factor : Type 0} {A : Type 0} ⦃pointer : Pointer A⦄ where
  -- The list with other elements in its cells, and nothing else changed.
  pub record Rewritten (list after : ArrayList Factor A) (xs : List A) : Type 0 where
    pub valid : IsValid after
    pub now : contents after ≡ xs
    pub same_size : after.size ≡ list.size
    pub same_capacity : after.capacity ≡ list.capacity
    pub same_factor : after.growth_factor ≡ list.growth_factor
    pub same_destruct : after.destruct ≡ list.destruct
    pub same_count : after.modification_count ≡ list.modification_count

  pub rewritten :
      (list : ArrayList Factor A) (elements xs : List A)
      → IsValid list
      → length elements ≡ length list.elements
      → cells_from elements 0 list.size ≡ xs
      → Rewritten list (record list { elements = elements }) xs
  rewritten list elements xs valid size now = record {
    valid = record {
      storage = size ∙ valid.storage;
      large = valid.large;
      small = valid.small;
      size_in = valid.size_in;
    };
    now = now;
    same_size = refl;
    same_capacity = refl;
    same_factor = refl;
    same_destruct = refl;
    same_count = refl;
  }

  -- How a write at an index ends; `none` is a negative index. The element that was there is
  -- returned, and destroyed unless its pointer is the new one.
  abbrev pub SetTo :
      (A → A → Bool)
      → ArrayList Factor A
      → Option ℕ
      → A
      → ArrayList Factor A × Outcome A × List (Event A)
      → Type 0
  SetTo same list none x outcome = outcome ≡ (list, err index_out_of_bounds, [])
  SetTo same list (some index) x (after, ok old, events) =
      (index < list.size)
      × Rewritten list after (set (contents list) index x)
      × (old ≡ get_or (contents list) index pointer.null)
      × (events ≡ (if same old x then [] else destructed list.destruct old ∷ []))
  SetTo same list (some index) x (after, err e, events) =
      (list.size ≤ index) × (e ≡ index_out_of_bounds) × (after ≡ list) × (events ≡ [])

  set-cells :
      (list : ArrayList Factor A) (index : ℕ) (x : A)
      → index < list.size
      → list.size ≤ length list.elements
      → cells_from (set list.elements index x) 0 list.size ≡ set (contents list) index x
  set-cells list index x h room =
      let c = contents list in
      let size = length-contents list in
      cells_from_ext (set list.elements index x) list.size (set c index x)
        (length-set c index x ∙ size)
        (λ k p. ground (
          arith,
          size,
          get_or-set list.elements index k x pointer.null,
          get_or-set c index k x pointer.null,
          contents_at list k,
        ))

  set_at-SetTo :
      (same : A → A → Bool) (list : ArrayList Factor A) (index : Option ℕ) (x : A)
      → IsValid list
      → SetTo same list index x (set_at same list index x)
  unfolding set_at
  set_at-SetTo same list none x valid = refl
  set_at-SetTo same list (some index) x valid = elim (Bool-cases (ltb index list.size)) [
    | inl near ↦
        let inside = ltb→lt index list.size near in
        rw (set_at, near)
          (
            inside,
            rewritten list (set list.elements index x) (set (contents list) index x) valid
                (length-set list.elements index x)
                (set-cells list index x inside (omega (arith, valid.storage, valid.size_in))),
            sym (contents_at list index inside),
            refl,
          )
    | inr far ↦ rw (set_at, far) (ground arith, refl, refl, refl)
  ]

  pub set_element_sets :
      (same : A → A → Bool) (list : ArrayList Factor A) (index : ℤ) (x : A)
      → IsValid list
      → SetTo same list (to_ℕ? index) x (set_element same list index x)
  unfolding set_element
  set_element_sets same list index x valid = set_at-SetTo same list (to_ℕ? index) x valid

module _ {A : Type 0} ⦃pointer : Pointer A⦄ where
  length-replace_loop :
      (operator : A → A) (elements : List A) (i n : ℕ)
      → length (replace_loop operator elements i n) ≡ length elements
  unfolding replace_loop
  length-replace_loop operator elements i zero = refl
  length-replace_loop operator elements i (suc n) =
      let next = set elements i (operator (cell elements i)) in
      length-replace_loop operator next (i + 1) n
      ∙ length-set elements i (operator (cell elements i))

  replace_before :
      (operator : A → A) (elements : List A) (i n k : ℕ)
      → k < i
      → cell (replace_loop operator elements i n) k ≡ cell elements k
  unfolding replace_loop
  replace_before operator elements i zero k h = refl
  replace_before operator elements i (suc n) k h =
      let x = operator (cell elements i) in
      replace_before operator (set elements i x) (i + 1) n k (omega arith)
      ∙ get_or-set_ne elements i k x pointer.null (omega arith)

  -- The rounds from `i` on map the cells from there.
  cells_from-replace_loop :
      (operator : A → A) (elements : List A) (i n : ℕ)
      → i + n ≤ length elements
      → cells_from (replace_loop operator elements i n) i n ≡ map operator (cells_from elements i n)
  unfolding replace_loop cells_from
  cells_from-replace_loop operator elements i zero h = refl
  cells_from-replace_loop operator elements i (suc n) h =
      let x = operator (cell elements i) in
      let next = set elements i x in
      ap₂ ◌∷◌
        (replace_before operator next (i + 1) n i (omega arith)
          ∙ get_or-set_self elements i x pointer.null (omega arith))
        (cells_from-replace_loop operator next (i + 1) n (omega (arith, length-set elements i x))
          ∙ ap (map operator) (
              cells_from_congr next elements (i + 1) n
                (λ k l u. get_or-set_ne elements i k x pointer.null (omega arith))))

  replaced_lem :
      (same : A → A → Bool) (operator : A → A) (elements : List A) (i n : ℕ)
      → replaced same operator elements i n
        ≡ filter (λ x. not (same x (operator x))) (cells_from elements i n)
  unfolding replaced cells_from
  replaced_lem same operator elements i zero = refl
  replaced_lem same operator elements i (suc n) =
      let old = cell elements i in
      let next = set elements i (operator old) in
      let rest =
        replaced_lem same operator next (i + 1) n
        ∙ ap (filter (λ x. not (same x (operator x)))) (
            cells_from_congr next elements (i + 1) n
              (λ k l u. get_or-set_ne elements i k (operator old) pointer.null (omega arith))) in
      elim (Bool-cases (same old (operator old))) [
        | inl e ↦ rw (replaced, e) rest
        | inr e ↦ rw (replaced, e) (ap (◌∷◌ old) rest)
      ]

module _ {Factor : Type 0} {A : Type 0} ⦃pointer : Pointer A⦄ where
  -- Array_list_replace_all on a valid list puts the result of the operator in the place of each
  -- element and changes nothing else in the list, and passes to the destructor, in order, those
  -- elements whose pointer the operator changed.
  pub replace_all_maps :
      (same : A → A → Bool) (operator : A → A) (list : ArrayList Factor A)
      → IsValid list
      → let (after, events) = replace_all same operator list in
        Rewritten list after (map operator (contents list))
        × (events
            ≡ map
                (destructed list.destruct)
                (filter (λ x. not (same x (operator x))) (contents list)))
  unfolding replace_all
  replace_all_maps same operator list valid = (
    rewritten list (replace_loop operator list.elements 0 list.size) (map operator (contents list))
        valid (length-replace_loop operator list.elements 0 list.size)
        (cells_from-replace_loop operator list.elements 0 list.size
          (omega (arith, valid.storage, valid.size_in))),
    ap (map (destructed list.destruct)) (replaced_lem same operator list.elements 0 list.size),
  )
