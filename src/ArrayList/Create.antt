-- ===== src/ArrayList/Create.antt =====
-- `array_list_new`, `array_list_from`, `array_list_destroy`, `array_list_sub_list` and
-- `array_list_clone`.
pub mod New
pub mod Append
pub mod Copy
pub mod From
use libcdsa.Core.Cells.{cells_from}
use libcdsa.Core.Growing.{Scaling, min_capacity, max_capacity}
use libcdsa.Base.{
  ℕ, zero, suc, ◌+◌, ◌-◌, Bool, true, false, not, ◌||◌, Option, none, some, List, [], ◌∷◌, ◌++◌,
  map, ltb, if◌then◌else◌, get_or,
}
use libcdsa.Base.Int.{ℤ, pos, to_ℕ?}
use libcdsa.Core.{
  Pointer, Event, Outcome, ok, err, illegal_argument, memory_allocation, index_out_of_bounds,
  Destructor, noop_destruct, destructed, freed, struct_block, elements_block, Collection,
  then_outcome,
}
use libcdsa.ArrayList.{ArrayList, Memory, add_last}
use libcdsa.ArrayList.Bulk.{add_all_last}

-- `ArrayListOptions`; of the callbacks that are only stored, whether they are non-null.
pub record ArrayListOptions (Factor : Type 0) : Type 0 where
  pub initial_capacity : ℤ
  pub growth_factor : Factor
  pub destruct : Option Destructor
  pub equals : Bool
  pub to_string : Bool
  pub memory_alloc : Bool
  pub memory_dealloc : Bool

module _ {Factor : Type 0} ⦃scaling : Scaling Factor⦄ where
  -- The test of `array_list_new` on its options, but for the pointer to the destructor.
  unfoldable pub is_rejected : ArrayListOptions Factor → ℕ → Bool
  is_rejected options capacity =
      ltb capacity min_capacity
      || ltb max_capacity capacity
      || scaling.too_small options.growth_factor
      || not options.equals
      || not options.to_string
      || not options.memory_alloc
      || not options.memory_dealloc

module _ {ℓ} {Factor : Type 0} {A : Type ℓ} ⦃pointer : Pointer A⦄ ⦃scaling : Scaling Factor⦄ where
  -- `array_list_new` from the allocation of the array on.
  unfoldable pub make :
      ℕ → Factor → Destructor → Option (List A) → Outcome (ArrayList Factor A) × List (Event A)
  make capacity factor destruct none = (err memory_allocation, freed struct_block ∷ [])
  make capacity factor destruct (some elements) = (
    ok (record {
      elements = elements;
      size = 0;
      capacity = capacity;
      growth_factor = factor;
      destruct = destruct;
      modification_count = 0;
    }),
    [],
  )

  -- `array_list_new` on the fields of its options: `none` is null for the destructor, and a negative
  -- number for the capacity.
  unfoldable pub create :
      ArrayListOptions Factor
      → Bool
      → Memory A
      → Option Destructor
      → Option ℕ
      → Outcome (ArrayList Factor A) × List (Event A)
  create options struct_alloc memory none initial = (err illegal_argument, [])
  create options struct_alloc memory (some destruct) none = (err illegal_argument, [])
  create options struct_alloc memory (some destruct) (some initial) =
      if is_rejected options initial
      then (err illegal_argument, [])
      else if not struct_alloc
      then (err memory_allocation, [])
      else make initial options.growth_factor destruct (memory.alloc initial)

  -- `struct_alloc` is whether the allocation of the struct succeeds.
  unfoldable pub new :
      ArrayListOptions Factor → Bool → Memory A → Outcome (ArrayList Factor A) × List (Event A)
  unfolding create make
  new options struct_alloc memory =
      create options struct_alloc memory options.destruct (to_ℕ? options.initial_capacity)

  unfoldable pub destroy : ArrayList Factor A → List (Event A)
  destroy list =
      map (destructed list.destruct) (cells_from list.elements 0 list.size)
      ++ (freed elements_block ∷ freed struct_block ∷ [])

  -- `array_list_from` from the answer of `array_list_add_all_last` on.
  unfoldable pub filled :
      ArrayList Factor A × Outcome (Unit {0}) × List (Event A)
      → List (Event A)
      → Outcome (ArrayList Factor A) × List (Event A)
  filled (list, ok _, more) events = (ok list, events ++ more)
  filled (list, err e, more) events = (err e, events ++ (more ++ destroy list))

  unfoldable pub from_made :
      Memory A
      → Collection A
      → Outcome (ArrayList Factor A) × List (Event A)
      → Outcome (ArrayList Factor A) × List (Event A)
  from_made memory collection (err e, events) = (err e, events)
  from_made memory collection (ok list, events) =
      filled (add_all_last memory list collection) events

  unfoldable pub from :
      ArrayListOptions Factor
      → Bool
      → Memory A
      → Collection A
      → Outcome (ArrayList Factor A) × List (Event A)
  from options struct_alloc memory collection =
      from_made memory collection (new options struct_alloc memory)

  -- The loop of `array_list_sub_list`. A call that fails leaves its error and the loop goes on.
  unfoldable pub add_each :
      Memory A
      → ArrayList Factor A
      → List A
      → ArrayList Factor A × Outcome (Unit {0}) × List (Event A)
  add_each memory list [] = (list, ok tt, [])
  add_each memory list (x ∷ xs) =
      let (one, r, events) = add_last memory list x in
      let (all, rs, more) = add_each memory one xs in (all, then_outcome r rs, events ++ more)

  abbrev pub sub_list_options : ArrayList Factor A → ℕ → ArrayListOptions Factor
  sub_list_options list count = record {
    initial_capacity = pos (if ltb count min_capacity then min_capacity else count);
    growth_factor = list.growth_factor;
    destruct = some noop_destruct;
    equals = true;
    to_string = true;
    memory_alloc = true;
    memory_dealloc = true;
  }

  -- The value of `array_list_sub_list` and the error that `capture_error` finds after it.
  unfoldable pub copy_into :
      Memory A
      → List A
      → Outcome (ArrayList Factor A) × List (Event A)
      → Outcome (ArrayList Factor A × Outcome (Unit {0})) × List (Event A)
  copy_into memory xs (err e, events) = (err e, events)
  copy_into memory xs (ok list, events) =
      let (all, r, more) = add_each memory list xs in (ok (all, r), events ++ more)

  unfoldable pub sub_list_at :
      Bool
      → Memory A
      → ArrayList Factor A
      → Option ℕ
      → Option ℕ
      → Outcome (ArrayList Factor A × Outcome (Unit {0})) × List (Event A)
  sub_list_at struct_alloc memory list none end = (err index_out_of_bounds, [])
  sub_list_at struct_alloc memory list (some start_index) none = (err index_out_of_bounds, [])
  sub_list_at struct_alloc memory list (some start_index) (some end_index) =
      let count = end_index - start_index in
      if ltb list.size end_index || ltb end_index start_index
      then (err index_out_of_bounds, [])
      else copy_into memory (cells_from list.elements start_index count)
          (new (sub_list_options list count) struct_alloc memory)

  unfoldable pub sub_list :
      Bool
      → Memory A
      → ArrayList Factor A
      → ℤ
      → ℤ
      → Outcome (ArrayList Factor A × Outcome (Unit {0})) × List (Event A)
  unfolding sub_list_at copy_into add_each
  sub_list struct_alloc memory list start_index end_index =
      sub_list_at struct_alloc memory list (to_ℕ? start_index) (to_ℕ? end_index)

  unfoldable pub clone :
      Bool
      → Memory A
      → ArrayList Factor A
      → Outcome (ArrayList Factor A × Outcome (Unit {0})) × List (Event A)
  unfolding sub_list
  clone struct_alloc memory list = sub_list struct_alloc memory list (pos 0) (pos list.size)
