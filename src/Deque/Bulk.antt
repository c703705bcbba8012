-- ===== src/Deque/Bulk.antt =====
-- The methods of src/collections/deque.c that work on all elements at once.
pub mod Fill
pub mod Reversal
pub mod Search
pub mod Clear
pub mod Copy
pub mod From
use libcdsa.Base.{
  ℕ, zero, suc, ◌+◌, ◌-◌, ◌/◌, bit_and, Bool, true, false, Option, none, some, List, [], ◌∷◌, ◌++◌,
  map, ◌==◌, if◌then◌else◌, get_or, set, write_from, replicate,
}
use libcdsa.Core.{
  Outcome, ok, err, memory_allocation, Pointer, Destructor, noop_destruct, Event, destructed, freed,
  struct_block, elements_block, Alloc, Collection, then_outcome, map_outcome, bump,
}
use libcdsa.Base.Int.{ℤ, pos}
use libcdsa.Deque.{
  Deque, DequeOptions, index, element_at, elements_from, ensure_capacity, add_first, add_last, new,
}

module _ {ℓ} {A : Type ℓ} ⦃pointer : Pointer A⦄ where
  -- The `while (iterator_has_next(iterator))` loops. A call that fails leaves its error and the
  -- loop goes on.
  unfoldable pub add_each :
      (Deque A → A → Deque A × Outcome (Unit {0}) × List (Event A))
      → Deque A
      → List A
      → Deque A × Outcome (Unit {0}) × List (Event A)
  add_each add deque [] = (deque, ok tt, [])
  add_each add deque (x ∷ xs) =
      let (one, r, events) = add deque x in
      let (all, rs, more) = add_each add one xs in (all, then_outcome r rs, events ++ more)

  -- What `deque_add_all_first` and `deque_add_all_last` share, from the iterator on.
  unfoldable pub fill :
      (Deque A → A → Deque A × Outcome (Unit {0}) × List (Event A))
      → Alloc A
      → Deque A
      → ℕ
      → Outcome (List A)
      → Deque A × Outcome (Unit {0}) × List (Event A)
  fill add alloc deque collection_size (err e) = (deque, err e, [])
  fill add alloc deque collection_size (ok xs) =
      let (fits, roomy, events) = ensure_capacity alloc deque (deque.size + collection_size) in
      let (all, r, more) = add_each add roomy xs in
      if fits then (all, r, events ++ more) else (deque, err memory_allocation, events)

  unfoldable pub add_all_first :
      Alloc A → Deque A → Collection A → Deque A × Outcome (Unit {0}) × List (Event A)
  unfolding fill
  add_all_first alloc deque collection =
      fill (add_first alloc) alloc deque collection.size collection.iterator

  unfoldable pub add_all_last :
      Alloc A → Deque A → Collection A → Deque A × Outcome (Unit {0}) × List (Event A)
  unfolding fill
  add_all_last alloc deque collection =
      fill (add_last alloc) alloc deque collection.size collection.iterator

  -- `destruct(element)` for each element, front to back.
  abbrev pub destruct_all : Deque A → List (Event A)
  destruct_all deque = map (destructed deque.destruct) (elements_from deque 0 deque.size)

  unfoldable pub destroy : Deque A → List (Event A)
  destroy deque = destruct_all deque ++ freed elements_block ∷ freed struct_block ∷ []

  -- `deque_from` once `deque_add_all_last` is done.
  unfoldable pub from_filled :
      List (Event A)
      → Deque A × Outcome (Unit {0}) × List (Event A)
      → Outcome (Deque A) × List (Event A)
  from_filled events (full, err e, more) = (err e, events ++ more ++ destroy full)
  from_filled events (full, ok _, more) = (ok full, events ++ more)

  -- `deque_from` once `deque_new` is done.
  unfoldable pub from_made :
      Alloc A
      → Collection A
      → Outcome (Deque A) × List (Event A)
      → Outcome (Deque A) × List (Event A)
  unfolding from_filled
  from_made alloc collection (err e, events) = (err e, events)
  from_made alloc collection (ok deque, events) =
      from_filled events (add_all_last alloc deque collection)

  -- A deque filled from a collection; it is destroyed again where that fails.
  unfoldable pub from :
      Collection A → DequeOptions → Bool → Alloc A → Outcome (Deque A) × List (Event A)
  unfolding from_made
  from collection options struct_alloc alloc =
      from_made alloc collection (new options struct_alloc alloc)

  -- The elements that the action of `deque_for_each` is called with, in order.
  unfoldable pub for_each : Deque A → List A
  unfolding elements_from
  for_each deque = elements_from deque 0 deque.size

  -- The array of `deque_to_array`, if `array_new` has memory for it.
  unfoldable pub to_array : Bool → Deque A → Outcome (List A)
  unfolding elements_from
  to_array granted deque =
      if granted
      then ok (write_from (replicate deque.size pointer.null) 0 (elements_from deque 0 deque.size))
      else err memory_allocation

  -- One round of the loop of `deque_reverse`.
  unfoldable pub swap_round : Deque A → ℕ → Deque A
  unfolding index
  swap_round deque i =
      let index_a = index deque i in
      let index_b = bit_and (deque.first + deque.size - 1 - i) (deque.capacity - 1) in
      let temporary = get_or deque.elements index_a pointer.null in
      record deque {
        elements =
            set (set deque.elements index_a (get_or deque.elements index_b pointer.null)) index_b
              temporary;
      }

  unfoldable pub reverse_loop : ℕ → ℕ → Deque A → Deque A
  unfolding swap_round
  reverse_loop zero i deque = deque
  reverse_loop (suc n) i deque = reverse_loop n (i + 1) (swap_round deque i)

  unfoldable pub reverse : Deque A → Deque A
  unfolding reverse_loop
  reverse deque = reverse_loop (deque.size / 2) 0 deque

  -- The loop of `deque_clear`: each round destructs a cell and overwrites it.
  unfoldable pub clear_loop : ℕ → ℕ → Deque A → Deque A × List (Event A)
  unfolding index
  clear_loop zero i deque = (deque, [])
  clear_loop (suc n) i deque =
      let (wiped, events) =
        clear_loop n (i + 1)
          (record deque { elements = set deque.elements (index deque i) pointer.null }) in
      (
        wiped,
        destructed deque.destruct (get_or deque.elements (index deque i) pointer.null) ∷ events,
      )

  unfoldable pub clear : Deque A → Deque A × List (Event A)
  clear deque =
      let (wiped, events) = clear_loop deque.size 0 deque in
      (
        record wiped {
          first = 0;
          last = 0;
          size = 0;
          modification_count = bump deque.modification_count;
        },
        events,
      )

  module _ (equals : A → A → Bool) where
    contains_loop : ℕ → ℕ → Deque A → A → Bool
    contains_loop zero i deque element = false
    contains_loop (suc n) i deque element = elim (equals (element_at deque i) element) [
      | true ↦ true
      | false ↦ contains_loop n (i + 1) deque element
    ]

    unfoldable pub contains : Deque A → A → Bool
    unfolding contains_loop
    contains deque element = contains_loop deque.size 0 deque element

    contains_each : Deque A → List A → Bool
    contains_each deque [] = true
    contains_each deque (x ∷ xs) = elim (contains deque x) [
      | true ↦ contains_each deque xs
      | false ↦ false
    ]

    unfoldable pub contains_all : Deque A → Collection A → Outcome Bool
    unfolding contains_each
    contains_all deque collection = map_outcome (contains_each deque) collection.iterator

    equals_loop : ℕ → ℕ → Deque A → Deque A → Bool
    equals_loop zero i deque other = true
    equals_loop (suc n) i deque other = elim (equals (element_at deque i) (element_at other i)) [
      | true ↦ equals_loop n (i + 1) deque other
      | false ↦ false
    ]

    -- `same_pointer` is the test `deque == other_deque`.
    unfoldable pub deque_equals : Bool → Deque A → Deque A → Bool
    unfolding equals_loop
    deque_equals same_pointer deque other =
        if same_pointer
        then true
        else if deque.size == other.size
        then equals_loop deque.size 0 deque other
        else false

  -- The options that `deque_clone` passes on.
  abbrev pub clone_options : Deque A → DequeOptions
  clone_options deque = record {
    initial_capacity = pos deque.capacity;
    destruct = some noop_destruct;
    equals = true;
    to_string = true;
    memory_alloc = true;
    memory_dealloc = true;
  }

  -- `deque_clone` once `deque_new` is done.
  -- The copy comes with the error, if any, that the calls of `deque_add_last` leave.
  unfoldable pub copy_into :
      Alloc A
      → Deque A
      → Outcome (Deque A) × List (Event A)
      → Outcome (Deque A × Outcome (Unit {0})) × List (Event A)
  copy_into alloc deque (err e, events) = (err e, events)
  copy_into alloc deque (ok fresh, events) =
      let (copy, r, more) = add_each (add_last alloc) fresh (elements_from deque 0 deque.size) in
      (ok (copy, r), events ++ more)

  -- A deque of the same capacity and elements, whose destructor does nothing.
  unfoldable pub clone :
      Bool → Alloc A → Deque A → Outcome (Deque A × Outcome (Unit {0})) × List (Event A)
  unfolding copy_into
  clone struct_alloc alloc deque =
      copy_into alloc deque (new (clone_options deque) struct_alloc alloc)
