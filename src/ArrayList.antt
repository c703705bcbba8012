-- ===== src/ArrayList.antt =====
-- src/collections/list/array_list.c: a growing array of pointers. A method returns the new list, how
-- it ended, and the callbacks that it called; the receiver is not null. A C `int` index is a ℤ, the
-- `float` growth factor and its arithmetic are parameters (`Scaling`).
pub mod Inv
pub mod Room
pub mod Capacity
pub mod Moves
pub mod Bulk
pub mod Insert
pub mod Delete
pub mod Removal
pub mod Order
pub mod Search
pub mod Sort
pub mod Create
pub mod Iteration
pub mod Access
mod Tests
use libcdsa.Core.Growing.{min_capacity, max_capacity, Scaling, grow_loop}
use libcdsa.Core.Cells.{swap, cells_from}
use libcdsa.Base.{
  ℕ, zero, suc, ◌+◌, ◌-◌, Bool, true, false, ◌&&◌, ◌||◌, Option, none, some, List, [], ◌∷◌, ltb,
  leb, ◌==◌, if◌then◌else◌, get_or, set, take, write_from,
}
use libcdsa.Base.Int.{ℤ, pos, negsuc, to_ℕ?}
use libcdsa.Core.{
  Outcome, ok, err, index_out_of_bounds, memory_allocation, no_such_element, Pointer, Destructor,
  Event, destructed, freed, elements_block, Alloc, bump, Growth, grown, refused, out_of_fuel,
}

pub record ArrayList {ℓ} (Factor : Type 0) (A : Type ℓ) : Type ℓ where
  pub elements : List A
  pub size : ℕ
  pub capacity : ℕ
  pub growth_factor : Factor
  pub destruct : Destructor
  pub modification_count : ℕ

-- The callbacks `memory_alloc` and `memory_realloc`; the second may be null.
pub record Memory {ℓ} (A : Type ℓ) : Type ℓ where
  pub alloc : Alloc A
  pub realloc : Option (List A → ℕ → Option (List A))

-- `new_capacity < MIN_CAPACITY ? …; new_capacity > MAX_CAPACITY ? …`
unfoldable pub clamped : ℕ → ℕ
clamped n =
    let m = if ltb n min_capacity then min_capacity else n in
    if ltb max_capacity m then max_capacity else m

module _ {ℓ} {A : Type ℓ} {Factor : Type 0} ⦃pointer : Pointer A⦄ where
  -- `resize` from the answer of the allocator on.
  unfoldable pub resized :
      ArrayList Factor A
      → ℕ
      → List (Event A)
      → Option (List A)
      → Bool × ArrayList Factor A × List (Event A)
  resized list new_capacity events none = (false, list, [])
  resized list new_capacity events (some block) =
      (true, record list { elements = block; capacity = new_capacity }, events)

  -- The block of `memory_alloc` with the cells in use copied into it.
  unfoldable pub copied : ArrayList Factor A → Option (List A) → Option (List A)
  copied list none = none
  copied list (some block) = some (write_from block 0 (take list.size list.elements))

  unfoldable pub resize_by :
      Memory A
      → ArrayList Factor A
      → ℕ
      → Option (List A → ℕ → Option (List A))
      → Bool × ArrayList Factor A × List (Event A)
  resize_by memory list new_capacity none =
      resized list new_capacity (freed elements_block ∷ [])
        (copied list (memory.alloc new_capacity))
  resize_by memory list new_capacity (some realloc) =
      resized list new_capacity [] (realloc list.elements new_capacity)

  unfoldable pub resize :
      Memory A → ArrayList Factor A → ℕ → Bool × ArrayList Factor A × List (Event A)
  unfolding clamped
  resize memory list new_capacity = resize_by memory list (clamped new_capacity) memory.realloc

  unfoldable pub resize_grown :
      Memory A → ArrayList Factor A → Growth → Bool × ArrayList Factor A × List (Event A)
  resize_grown memory list (grown new_capacity) = resize memory list new_capacity
  resize_grown memory list refused = (false, list, [])
  resize_grown memory list out_of_fuel = (false, list, [])

  -- The capacity grows in every round of the loop.
  unfoldable pub ensure_capacity :
      ⦃scaling : Scaling Factor⦄
      → Memory A
      → ArrayList Factor A
      → ℕ
      → Bool × ArrayList Factor A × List (Event A)
  ensure_capacity memory list capacity =
      if leb capacity list.capacity
      then (true, list, [])
      else resize_grown memory list
          (grow_loop (suc capacity) list.growth_factor list.capacity capacity)

module _ {ℓ} {A : Type ℓ} ⦃pointer : Pointer A⦄ where
  -- `elements[i + offset] = elements[i]` for the `n` indices from `index` on, the last one first.
  unfoldable pub move_up : List A → ℕ → ℕ → ℕ → List A
  move_up elements index offset zero = elements
  move_up elements index offset (suc n) =
      move_up (set elements (index + n + offset) (get_or elements (index + n) pointer.null)) index
        offset n

  -- `elements[i] = elements[i + 1]` for the `n` indices from `index` on.
  unfoldable pub move_down : List A → ℕ → ℕ → List A
  move_down elements index zero = elements
  move_down elements index (suc n) =
      move_down (set elements index (get_or elements (index + 1) pointer.null)) (index + 1) n

module _ {ℓ} {A : Type ℓ} {Factor : Type 0} ⦃pointer : Pointer A⦄ where
  -- `array_list_add` with room for one more.
  unfoldable pub insert : ArrayList Factor A → ℕ → A → ArrayList Factor A
  insert list index element = record list {
    elements = set (move_up list.elements index 1 (list.size - index)) index element;
    size = list.size + 1;
    modification_count = bump list.modification_count;
  }

  unfoldable pub add_at :
      ⦃scaling : Scaling Factor⦄
      → Memory A
      → ArrayList Factor A
      → Option ℕ
      → A
      → ArrayList Factor A × Outcome (Unit {0}) × List (Event A)
  add_at memory list none element = (list, err index_out_of_bounds, [])
  add_at memory list (some index) element =
      let (fits, roomy, events) = ensure_capacity memory list (list.size + 1) in
      if ltb list.size index
      then (list, err index_out_of_bounds, [])
      else if fits
      then (insert roomy index element, ok tt, events)
      else (list, err memory_allocation, events)

  unfoldable pub add :
      ⦃scaling : Scaling Factor⦄
      → Memory A
      → ArrayList Factor A
      → ℤ
      → A
      → ArrayList Factor A × Outcome (Unit {0}) × List (Event A)
  add memory list index element = add_at memory list (to_ℕ? index) element

  unfoldable pub add_first :
      ⦃scaling : Scaling Factor⦄
      → Memory A
      → ArrayList Factor A
      → A
      → ArrayList Factor A × Outcome (Unit {0}) × List (Event A)
  add_first memory list element = add memory list (pos 0) element

  unfoldable pub add_last :
      ⦃scaling : Scaling Factor⦄
      → Memory A
      → ArrayList Factor A
      → A
      → ArrayList Factor A × Outcome (Unit {0}) × List (Event A)
  add_last memory list element = add memory list (pos list.size) element

  unfoldable pub get_at : ArrayList Factor A → Option ℕ → Outcome A
  get_at list none = err index_out_of_bounds
  get_at list (some index) =
      if ltb index list.size
      then ok (get_or list.elements index pointer.null)
      else err index_out_of_bounds

  unfoldable pub get : ArrayList Factor A → ℤ → Outcome A
  get list index = get_at list (to_ℕ? index)

  unfoldable pub get_first : ArrayList Factor A → Outcome A
  get_first list =
      if list.size == 0 then err no_such_element else ok (get_or list.elements 0 pointer.null)

  unfoldable pub get_last : ArrayList Factor A → Outcome A
  get_last list =
      if list.size == 0
      then err no_such_element
      else ok (get_or list.elements (list.size - 1) pointer.null)

  -- `array_list_remove` at an index in range: the element is destroyed before it is moved over.
  unfoldable pub delete : ArrayList Factor A → ℕ → ArrayList Factor A
  delete list index = record list {
    elements = move_down (set list.elements index pointer.null) index (list.size - 1 - index);
    size = list.size - 1;
    modification_count = bump list.modification_count;
  }

  unfoldable pub remove_at :
      ArrayList Factor A → Option ℕ → ArrayList Factor A × Outcome A × List (Event A)
  remove_at list none = (list, err index_out_of_bounds, [])
  remove_at list (some index) =
      let element = get_or list.elements index pointer.null in
      if ltb index list.size
      then (delete list index, ok element, destructed list.destruct element ∷ [])
      else (list, err index_out_of_bounds, [])

  unfoldable pub remove : ArrayList Factor A → ℤ → ArrayList Factor A × Outcome A × List (Event A)
  remove list index = remove_at list (to_ℕ? index)

  unfoldable pub remove_first : ArrayList Factor A → ArrayList Factor A × Outcome A × List (Event A)
  remove_first list =
      if list.size == 0 then (list, err no_such_element, []) else remove list (pos 0)

  unfoldable pub remove_last : ArrayList Factor A → ArrayList Factor A × Outcome A × List (Event A)
  remove_last list =
      if list.size == 0 then (list, err no_such_element, []) else remove list (pos (list.size - 1))
