-- ===== src/Core.antt =====
-- src/core: what the components take from it. The errors that `set_error` records, the way a call
-- of the library ends under `attempt`, destructors, and memory handed out by an allocator.
pub mod Errors
pub mod Cells
pub mod Comparison
pub mod Growing
use libcdsa.Base.{
  ℕ, ◌≡◌, ◌+◌, ◌%◌, ◌^◌, ◌≤◌, ◌<◌, Option, some, List, [], ◌∷◌, length, leb, if◌then◌else◌, le→leb,
  lt→leb_false,
}
pub use Errors.{
  Error, null_pointer, arithmetic, number_format, index_out_of_bounds, no_such_element,
  illegal_argument, illegal_state, type_mismatch, unsupported_operation, concurrent_modification,
  memory_allocation, input_output,
}

-- How a call ends inside `attempt`: with its value, or with the error that `set_error` recorded.
-- Outside `attempt` the second case ends the process.
pub data Outcome {ℓ} (A : Type ℓ) : Type ℓ where
  ok : A → Outcome A
  err : Error → Outcome A

-- What a container stores: a pointer type, with its null pointer.
pub record Pointer {ℓ} (A : Type ℓ) : Type ℓ where
  pub null : A

-- The `destruct` callback of a container: `noop_destruct`, or one of the client's.
pub data Destructor : Type 0 where
  noop_destruct : Destructor
  client_destruct : ℕ → Destructor

-- The two blocks that a container owns: its struct and its array.
pub data Block : Type 0 where
  struct_block elements_block : Block

-- The calls that a container makes to its callbacks, in order: `destruct(element)`, and
-- `memory_dealloc` of a block.
pub data Event {ℓ} (A : Type ℓ) : Type ℓ where
  destructed : Destructor → A → Event A
  freed : Block → Event A

-- What making room for `needed` elements gives back of an array of `room` cells: the whole array,
-- where it is outgrown.
abbrev pub outgrown {ℓ} : {A : Type ℓ} → ℕ → ℕ → List (Event A)
outgrown room needed = if leb needed room then [] else (freed elements_block ∷ [])

pub outgrown-enough {ℓ} :
    {A : Type ℓ} (room needed : ℕ) → needed ≤ room → outgrown {A = A} room needed ≡ []
outgrown-enough room needed h = rw (le→leb needed room h)

pub outgrown-less {ℓ} :
    {A : Type ℓ} (room needed : ℕ)
    → room < needed
    → outgrown {A = A} room needed ≡ freed elements_block ∷ []
outgrown-less room needed h = rw (lt→leb_false needed room h)

-- The answer of the `memory_alloc` callback to a request for `n` pointers: `none` for null, or a
-- block with whatever the memory held. It is the client's code, so it is a parameter.
abbrev pub Alloc {ℓ} : Type ℓ → Type ℓ
Alloc A = ℕ → Option (List A)

-- A block that is handed out has the size that was asked for.
abbrev pub IsHonest {ℓ} : {A : Type ℓ} → Alloc A → Type ℓ
IsHonest {A} alloc = (n : ℕ) (block : List A) → alloc n ≡ some block → length block ≡ n

-- `modification_count++` on the bit pattern of a 32-bit int.
abbrev pub bump : ℕ → ℕ
bump m = (m + 1) % 2 ^ 32

-- src/collections/collection.h as a method that takes one sees it: the size that it announces, and
-- the elements that its iterator yields in order, or the error of creating the iterator. The
-- collection is not the receiver itself.
pub record Collection {ℓ} (A : Type ℓ) : Type ℓ where
  pub size : ℕ
  pub iterator : Outcome (List A)

-- A collection of the library announces as many elements as its iterator yields.
abbrev pub IsFaithful {ℓ} : {A : Type ℓ} → Collection A → Type ℓ
IsFaithful {A = A} collection =
    (xs : List A) → collection.iterator ≡ ok xs → collection.size ≡ length xs

-- The error that `capture_error` finds after two calls under one `attempt`: the later one.
abbrev pub then_outcome : Outcome (Unit {0}) → Outcome (Unit {0}) → Outcome (Unit {0})
then_outcome r (ok _) = r
then_outcome r (err e) = err e

-- A result computed from the value of a call that may have failed.
abbrev pub map_outcome {ℓ κ} : {A : Type ℓ} {B : Type κ} → (A → B) → Outcome A → Outcome B
map_outcome f (ok a) = ok (f a)
map_outcome f (err e) = err e

-- How the loop of an `ensure_capacity` that looks for the new capacity ends.
pub data Growth : Type 0 where
  grown : ℕ → Growth
  refused : Growth
  out_of_fuel : Growth
