-- ===== src/ArrayList/Create/Copy.antt =====
-- `array_list_sub_list` and `array_list_clone` copy a slice without growing the copy.
use libcdsa.Core.Cells.{cells_from, length-cells_from, get_or-cells_from}
use libcdsa.Core.Growing.{Scaling, min_capacity}
use libcdsa.Base.{
  ℕ, ◌+◌, ◌-◌, ◌≤◌, ◌<◌, ◌≡◌, ◌⊎◌, refl, sym, ap, ◌∙◌, arith, inl, inr, Bool, false, ◌||◌,
  Bool-cases, Option, none, some, List, [], ◌∷◌, ◌++◌, length, take, drop, length-take, get_or-take,
  get_or_ext, ltb, if◌then◌else◌,
}
use libcdsa.Base.Int.{ℤ, to_ℕ?}
use libcdsa.Base.Slices.{length-drop, get_or-drop}
use libcdsa.Core.{
  Pointer, Event, Outcome, ok, err, memory_allocation, index_out_of_bounds, Error, Destructor,
  noop_destruct, freed, struct_block,
}
use libcdsa.ArrayList.{ArrayList, Memory}
use libcdsa.ArrayList.Inv.{IsValid, contents, length-contents, contents_at}
use libcdsa.ArrayList.Room.{IsSound}
use libcdsa.ArrayList.Removal.Range.{beyond}
use libcdsa.ArrayList.Create.{sub_list_options, new, copy_into, sub_list_at, sub_list, clone}
use libcdsa.ArrayList.Create.New.{IsAcceptable, Created, new_makes}
use libcdsa.ArrayList.Create.Append.{AddedEach, add_each-fits}

some_injective : (d d' : Destructor) → some d ≡ some d' → d ≡ d'
some_injective d d' e = cc

-- The elements from index `start` up to `end`.
abbrev pub slice : {A : Type 0} → ℕ → ℕ → List A → List A
slice start end xs = take (end - start) (drop start xs)

module _ {Factor : Type 0} {A : Type 0} ⦃pointer : Pointer A⦄ where
  cells_from-slice :
      (list : ArrayList Factor A) (start end : ℕ)
      → start ≤ end
      → end ≤ list.size
      → cells_from list.elements start (end - start) ≡ slice start end (contents list)
  cells_from-slice list start end forward inside =
      let c = contents list in
      let n = end - start in
      let size = length-contents list in
      let room : n ≤ length (drop start c) = omega (arith, length-drop start c) in
      get_or_ext pointer.null (cells_from list.elements start n) (take n (drop start c))
        (length-cells_from list.elements start n ∙ sym (length-take n (drop start c) room))
        (λ k p.
          let below : k < n = omega (arith, length-cells_from list.elements start n) in
          get_or-cells_from list.elements start n k below
          ∙ sym (contents_at list (start + k) (omega arith))
          ∙ sym (get_or-drop start c k pointer.null)
          ∙ sym (get_or-take n (drop start c) k pointer.null below))

  -- How `array_list_sub_list` ends; `none` is a negative index. The copy does not destroy what it
  -- shares with the list.
  abbrev pub Sliced :
      Bool
      → Memory A
      → ArrayList Factor A
      → Option ℕ
      → Option ℕ
      → Outcome (ArrayList Factor A × Outcome (Unit {0})) × List (Event A)
      → Type 0
  Sliced struct_alloc memory list none end outcome = outcome ≡ (err index_out_of_bounds, [])
  Sliced struct_alloc memory list (some start) none outcome =
      outcome ≡ (err index_out_of_bounds, [])
  Sliced struct_alloc memory list (some start) (some end) (ok (copy, r), events) =
      (start ≤ end)
      × (end ≤ list.size)
      × IsValid copy
      × (contents copy ≡ slice start end (contents list))
      × (copy.growth_factor ≡ list.growth_factor)
      × (copy.destruct ≡ noop_destruct)
      × (r ≡ ok tt)
      × (events ≡ [])
  Sliced struct_alloc memory list (some start) (some end) (err e, events) =
      ((e ≡ index_out_of_bounds) × (events ≡ []) × ((end < start) ⊎ (list.size < end)))
      ⊎ ((e ≡ memory_allocation)
          × (start ≤ end)
          × (end ≤ list.size)
          × (((struct_alloc ≡ false) × (events ≡ []))
              ⊎ ((events ≡ freed struct_block ∷ []) × ((n : ℕ) × (memory.alloc n ≡ none)))))

  module _ ⦃scaling : Scaling Factor⦄ (struct_alloc : Bool) (memory : Memory A)
      (sound : IsSound memory) (list : ArrayList Factor A) (valid : IsValid list)
      (fits : scaling.too_small list.growth_factor ≡ false) where
    module _ (start end : ℕ) (forward : start ≤ end) (inside : end ≤ list.size) where
      large_enough : ℕ
      large_enough = if ltb (end - start) min_capacity then min_capacity else end - start

      large_enough-IsAcceptable :
          IsAcceptable (sub_list_options list (end - start)) large_enough noop_destruct
      unfolding large_enough
      large_enough-IsAcceptable = record {
        capacity_given = refl;
        large = ground arith;
        small = ground (arith, valid.small, valid.size_in);
        grows = fits;
        destruct_given = refl;
        equals_given = refl;
        to_string_given = refl;
        memory_alloc_given = refl;
        memory_dealloc_given = refl;
      }

      refused :
          (e : Error) (events : List (Event A))
          → Created (sub_list_options list (end - start)) struct_alloc memory (err e, events)
          → Sliced struct_alloc memory list (some start) (some end) (err e, events)
      refused e events (inl (is, quiet, never)) =
          absurd (never large_enough noop_destruct large_enough-IsAcceptable)
      refused e events (inr (inl (is, _, no_struct, quiet))) =
          inr (is, forward, inside, inl (no_struct, quiet))
      refused e events (inr (inr (is, _, gave, request))) =
          inr (is, forward, inside, inr (gave, request))

      copied-Sliced :
          (copy : ArrayList Factor A) (events : List (Event A))
          → IsValid copy
          → copy.size ≡ 0
          → end - start ≤ copy.capacity
          → copy.growth_factor ≡ list.growth_factor
          → copy.destruct ≡ noop_destruct
          → events ≡ []
          → Sliced struct_alloc memory list
              (some start)
              (some end)
              (copy_into memory (cells_from list.elements start (end - start)) (ok copy, events))
      unfolding copy_into AddedEach cells_from
      copied-Sliced copy events copy_valid empty room factor destruct quiet =
          let xs = cells_from list.elements start (end - start) in
          let size : length xs ≡ end - start =
            length-cells_from list.elements start (end - start) in
          let (after, e, appended) = add_each-fits memory copy xs copy_valid (omega arith) in
          let nothing : contents copy ≡ [] = ap (λ (n : ℕ). cells_from copy.elements 0 n) empty in
          rw e (
            forward,
            inside,
            appended.valid,
            appended.now
                ∙ ap (λ (ys : List A). ys ++ xs) nothing
                ∙ cells_from-slice list start end forward inside,
            appended.same_factor ∙ factor,
            appended.same_destruct ∙ destruct,
            refl,
            ap (λ (es : List (Event A)). es ++ []) quiet,
          )

      copy_into-Sliced :
          (made : Outcome (ArrayList Factor A) × List (Event A))
          → Created (sub_list_options list (end - start)) struct_alloc memory made
          → Sliced struct_alloc memory list
              (some start)
              (some end)
              (copy_into memory (cells_from list.elements start (end - start)) made)
      unfolding copy_into large_enough
      copy_into-Sliced (err e, events) created = refused e events created
      copy_into-Sliced (ok copy, events) (initial, destruct, a, fresh, quiet) =
          let given : large_enough ≡ initial = ground (arith, a.capacity_given) in
          copied-Sliced copy events fresh.valid fresh.empty (ground (arith, given, fresh.asked))
            fresh.factor
            (fresh.destructs ∙ sym (some_injective noop_destruct destruct a.destruct_given)) quiet

    pub sub_list_at-Sliced :
        (start end : Option ℕ)
        → Sliced struct_alloc memory list start end (sub_list_at struct_alloc memory list start end)
    unfolding sub_list_at
    sub_list_at-Sliced none end = refl
    sub_list_at-Sliced (some start) none = refl
    sub_list_at-Sliced (some start) (some end) =
        elim (Bool-cases (ltb list.size end || ltb end start)) [
          | inl bad ↦ rw (sub_list_at, bad) (inl (refl, refl, beyond list.size start end bad))
          | inr good ↦
              rw (sub_list_at, good)
                (copy_into-Sliced start end (ground arith) (ground arith)
                  (new (sub_list_options list (end - start)) struct_alloc memory)
                  (new_makes (sub_list_options list (end - start)) struct_alloc memory sound))
        ]

    -- Where a block that is handed out has the size asked for and memory_realloc keeps the cells
    -- that both blocks have: for a valid list whose factor array_list_new accepts,
    -- array_list_sub_list makes a valid list of the elements from start up to end, 0 <= start <=
    -- end <= size, whose destructor does nothing and with which no error comes; for other indices
    -- it reports INDEX_OUT_OF_BOUNDS_ERROR, and MEMORY_ALLOCATION_ERROR only where the struct or
    -- the array is refused; array_list_clone does so for the whole list.
    pub sub_list_slices :
        (start_index end_index : ℤ)
        → Sliced struct_alloc memory list
            (to_ℕ? start_index)
            (to_ℕ? end_index)
            (sub_list struct_alloc memory list start_index end_index)
          × Sliced struct_alloc memory list
              (some 0)
              (some list.size)
              (clone struct_alloc memory list)
    unfolding sub_list clone
    sub_list_slices start_index end_index = (
      sub_list_at-Sliced (to_ℕ? start_index) (to_ℕ? end_index),
      sub_list_at-Sliced (some 0) (some list.size),
    )
