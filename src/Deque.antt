-- ===== src/Deque.antt =====
-- src/collections/deque.c: a ring of pointers whose capacity is a power of two. A method returns
-- the new deque, how it ended, and the callbacks that it called; the receiver is a valid pointer
-- (null receivers are the business of `Calls`). `i & (capacity - 1)` is written as it stands; a
-- negative `int` is its 32-bit pattern.
pub mod Inv
pub mod Ends
pub mod Removal
pub mod Capacity
pub mod Refine
pub mod Bulk
pub mod Create
pub mod Iteration
pub mod Traversal
pub mod Calls
pub mod Access
mod Tests
use libcdsa.Base.{
  ℕ, zero, suc, ◌+◌, ◌-◌, ◌*◌, ◌/◌, ◌%◌, ◌^◌, bit_and, Bool, true, false, not, ◌||◌, Option, none,
  some, List, [], ◌∷◌, ltb, leb, ◌==◌, if◌then◌else◌, get_or, set, write_from,
}
use libcdsa.Base.Int.{ℤ, to_ℕ?}
use libcdsa.Core.{
  Growth, grown, refused, out_of_fuel, Outcome, ok, err, illegal_argument, memory_allocation,
  no_such_element, Pointer, Destructor, Event, destructed, freed, struct_block, elements_block,
  Alloc, bump,
}

abbrev pub min_capacity : ℕ
min_capacity = 8

abbrev pub max_capacity : ℕ
max_capacity = 1_073_741_824

abbrev pub growth_factor : ℕ
growth_factor = 2

pub record Deque {ℓ} (A : Type ℓ) : Type ℓ where
  pub elements : List A
  pub first : ℕ
  pub last : ℕ
  pub size : ℕ
  pub capacity : ℕ
  pub destruct : Destructor
  pub modification_count : ℕ

-- `DequeOptions`; of the callbacks that are only stored, whether they are non-null.
pub record DequeOptions : Type 0 where
  pub initial_capacity : ℤ
  pub destruct : Option Destructor
  pub equals : Bool
  pub to_string : Bool
  pub memory_alloc : Bool
  pub memory_dealloc : Bool

-- The rounds of `while (power < x) power *= 2`.
unfoldable pub next_power_loop : ℕ → ℕ → ℕ → ℕ
next_power_loop zero power x = power
next_power_loop (suc fuel) power x = elim (ltb power x) [
  | true ↦ next_power_loop fuel (power * 2) x
  | false ↦ power
]

-- An `int` has at most 31 doublings in it.
unfoldable pub next_power_of_two : ℕ → ℕ
next_power_of_two x = next_power_loop 31 1 x

unfoldable pub grow_loop : ℕ → ℕ → ℕ → Growth
grow_loop zero new_capacity capacity = out_of_fuel
grow_loop (suc fuel) new_capacity capacity = elim (ltb new_capacity capacity) [
  | true ↦ elim (ltb (max_capacity / new_capacity) growth_factor) [
    | true ↦ refused
    | false ↦ grow_loop fuel (new_capacity * growth_factor) capacity
  ]
  | false ↦ grown new_capacity
]

unfoldable pub grow_capacity : ℕ → ℕ → Growth
grow_capacity new_capacity capacity = grow_loop 32 new_capacity capacity

-- The test of `deque_new` on its options, but for the pointer to the destructor.
unfoldable pub is_rejected : DequeOptions → ℕ → Bool
is_rejected options capacity =
    ltb capacity min_capacity
    || ltb max_capacity capacity
    || not options.equals
    || not options.to_string
    || not options.memory_alloc
    || not options.memory_dealloc

module _ {ℓ} {A : Type ℓ} ⦃pointer : Pointer A⦄ where
  -- `(deque->first + i) & (deque->capacity - 1)`
  unfoldable pub index : Deque A → ℕ → ℕ
  index deque i = bit_and (deque.first + i) (deque.capacity - 1)

  -- `deque->elements[(deque->first + i) & (deque->capacity - 1)]`
  unfoldable pub element_at : Deque A → ℕ → A
  unfolding index
  element_at deque i = get_or deque.elements (index deque i) pointer.null

  -- What a `for` loop over the deque reads in the `n` rounds from `i` on.
  unfoldable pub elements_from : Deque A → ℕ → ℕ → List A
  unfolding element_at
  elements_from deque i zero = []
  elements_from deque i (suc n) = element_at deque i ∷ elements_from deque (i + 1) n

  -- `deque_new` from the allocation of the array on.
  unfoldable pub make : ℕ → Destructor → Option (List A) → Outcome (Deque A) × List (Event A)
  make capacity destruct none = (err memory_allocation, freed struct_block ∷ [])
  make capacity destruct (some elements) = (
    ok (record {
      elements = elements;
      first = 0;
      last = 0;
      size = 0;
      capacity = capacity;
      destruct = destruct;
      modification_count = 0;
    }),
    [],
  )

  -- `deque_new` on the fields of its options: null for the destructor, negative for the capacity.
  unfoldable pub create :
      DequeOptions
      → Bool
      → Alloc A
      → Option Destructor
      → Option ℕ
      → Outcome (Deque A) × List (Event A)
  create options struct_alloc alloc none initial = (err illegal_argument, [])
  create options struct_alloc alloc (some destruct) none = (err illegal_argument, [])
  create options struct_alloc alloc (some destruct) (some initial) =
      let capacity = next_power_of_two initial in
      if is_rejected options initial
      then (err illegal_argument, [])
      else if not struct_alloc
      then (err memory_allocation, [])
      else make capacity destruct (alloc capacity)

  -- `struct_alloc` is whether the allocation of the struct succeeds.
  unfoldable pub new : DequeOptions → Bool → Alloc A → Outcome (Deque A) × List (Event A)
  unfolding create make
  new options struct_alloc alloc =
      create options struct_alloc alloc options.destruct (to_ℕ? options.initial_capacity)

  -- The `for` loop that moves the elements to the front of the new array, and the updates after it.
  unfoldable pub relocate : Deque A → List A → ℕ → Deque A
  unfolding elements_from write_from
  relocate deque elements new_capacity = record deque {
    elements = write_from elements 0 (elements_from deque 0 deque.size);
    first = 0;
    last = deque.size;
    capacity = new_capacity;
  }

  -- `ensure_capacity` from the end of the loop on.
  unfoldable pub reallocate : Alloc A → Deque A → Growth → Bool × Deque A × List (Event A)
  reallocate alloc deque (grown new_capacity) = elim (alloc new_capacity) [
    | none ↦ (false, deque, [])
    | some elements ↦ (true, relocate deque elements new_capacity, freed elements_block ∷ [])
  ]
  reallocate alloc deque refused = (false, deque, [])
  reallocate alloc deque out_of_fuel = (false, deque, [])

  -- `false` leaves the deque as it was.
  unfoldable pub ensure_capacity : Alloc A → Deque A → ℕ → Bool × Deque A × List (Event A)
  ensure_capacity alloc deque capacity =
      if leb capacity deque.capacity
      then (true, deque, [])
      else reallocate alloc deque (grow_capacity deque.capacity capacity)

  -- The write of `deque_add_first`, with room for one more: `(first - 1) & (capacity - 1)`.
  unfoldable pub push_first : Deque A → A → Deque A
  push_first deque element =
      let first = bit_and ((deque.first + 2 ^ 32 - 1) % 2 ^ 32) (deque.capacity - 1) in
      record deque {
        elements = set deque.elements first element;
        first = first;
        size = deque.size + 1;
        modification_count = bump deque.modification_count;
      }

  -- The write of `deque_add_last`, with room for one more.
  unfoldable pub push_last : Deque A → A → Deque A
  push_last deque element = record deque {
    elements = set deque.elements deque.last element;
    last = bit_and (deque.last + 1) (deque.capacity - 1);
    size = deque.size + 1;
    modification_count = bump deque.modification_count;
  }

  unfoldable pub add_first : Alloc A → Deque A → A → Deque A × Outcome (Unit {0}) × List (Event A)
  add_first alloc deque element =
      let (fits, roomy, events) = ensure_capacity alloc deque (deque.size + 1) in
      if fits
      then (push_first roomy element, ok tt, events)
      else (deque, err memory_allocation, events)

  unfoldable pub add_last : Alloc A → Deque A → A → Deque A × Outcome (Unit {0}) × List (Event A)
  add_last alloc deque element =
      let (fits, roomy, events) = ensure_capacity alloc deque (deque.size + 1) in
      if fits
      then (push_last roomy element, ok tt, events)
      else (deque, err memory_allocation, events)

  unfoldable pub get_first : Deque A → Outcome A
  get_first deque =
      if deque.size == 0
      then err no_such_element
      else ok (get_or deque.elements deque.first pointer.null)

  -- `(deque->last - 1) & (deque->capacity - 1)`
  unfoldable pub last_index : Deque A → ℕ
  last_index deque = bit_and ((deque.last + 2 ^ 32 - 1) % 2 ^ 32) (deque.capacity - 1)

  unfoldable pub get_last : Deque A → Outcome A
  unfolding last_index
  get_last deque =
      if deque.size == 0
      then err no_such_element
      else ok (get_or deque.elements (last_index deque) pointer.null)

  unfoldable pub remove_first : Deque A → Deque A × Outcome A × List (Event A)
  remove_first deque =
      if deque.size == 0
      then (deque, err no_such_element, [])
      else let element = get_or deque.elements deque.first pointer.null in
        (
          record deque {
            elements = set deque.elements deque.first pointer.null;
            first = bit_and (deque.first + 1) (deque.capacity - 1);
            size = deque.size - 1;
            modification_count = bump deque.modification_count;
          },
          ok element,
          destructed deque.destruct element ∷ [],
        )

  unfoldable pub remove_last : Deque A → Deque A × Outcome A × List (Event A)
  unfolding last_index
  remove_last deque =
      if deque.size == 0
      then (deque, err no_such_element, [])
      else let last = last_index deque in
        let element = get_or deque.elements last pointer.null in
        (
          record deque {
            elements = set deque.elements last pointer.null;
            last = last;
            size = deque.size - 1;
            modification_count = bump deque.modification_count;
          },
          ok element,
          destructed deque.destruct element ∷ [],
        )
