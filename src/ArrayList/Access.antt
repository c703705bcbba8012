-- ===== src/ArrayList/Access.antt =====
-- The getters of src/collections/list/array_list.c, the setter of its destructor,
-- `array_list_for_each` and `array_list_to_array`.
use libcdsa.Core.Cells.{cell, cells_from, empty_out-events}
use libcdsa.Base.{
  ℕ, ◌+◌, ◌≡◌, sym, ap, ◌∙◌, arith, Bool, true, List, map, ◌==◌, if◌then◌else◌, replicate,
  write_from, length-replicate, length-write_from, get_or-write_from, get_or_ext,
}
use libcdsa.Core.{Pointer, Destructor, Outcome, ok, err, memory_allocation, destructed}
use libcdsa.ArrayList.{ArrayList}
use libcdsa.ArrayList.Inv.{IsValid, contents, length-contents}
use libcdsa.ArrayList.Removal.{clear}

module _ {ℓ} {A : Type ℓ} {Factor : Type 0} where
  unfoldable pub size_of : ArrayList Factor A → ℕ
  size_of list = list.size

  unfoldable pub capacity_of : ArrayList Factor A → ℕ
  capacity_of list = list.capacity

  unfoldable pub is_empty : ArrayList Factor A → Bool
  is_empty list = list.size == 0

  unfoldable pub destructor : ArrayList Factor A → Destructor
  destructor list = list.destruct

  unfoldable pub change_destructor : ArrayList Factor A → Destructor → ArrayList Factor A
  change_destructor list destruct = record list { destruct = destruct }

module _ {ℓ} {A : Type ℓ} {Factor : Type 0} ⦃pointer : Pointer A⦄ where
  -- The elements that the action of `array_list_for_each` is called with, in order.
  unfoldable pub for_each : ArrayList Factor A → List A
  for_each list = cells_from list.elements 0 list.size

  -- The array of `array_list_to_array`, if `array_new` has memory for it.
  unfoldable pub to_array : Bool → ArrayList Factor A → Outcome (List A)
  to_array granted list =
      if granted
      then ok
          (write_from (replicate list.size pointer.null) 0 (cells_from list.elements 0 list.size))
      else err memory_allocation

  -- The array is that of the elements.
  to_array-contents : (list : ArrayList Factor A) → to_array true list ≡ ok (contents list)
  unfolding to_array
  to_array-contents list =
      let block = replicate list.size pointer.null in
      let size = length-contents list in
      let cells = length-replicate list.size pointer.null in
      let written = length-write_from block 0 (contents list) in
      ap ok (
        get_or_ext pointer.null (write_from block 0 (contents list)) (contents list)
          (written ∙ cells ∙ sym size)
          (λ k h.
            ap (cell (write_from block 0 (contents list))) {y = 0 + k} (omega arith)
            ∙ get_or-write_from block 0 (contents list) k pointer.null (omega arith) (omega arith)))

  change_destructor-IsValid :
      {list : ArrayList Factor A} (d : Destructor)
      → IsValid list
      → IsValid (change_destructor list d)
  unfolding change_destructor
  change_destructor-IsValid d v = record {
    storage = v.storage;
    large = v.large;
    small = v.small;
    size_in = v.size_in;
  }

  -- The new destructor is the one that the elements go to.
  clear-change_destructor :
      (list : ArrayList Factor A) (d : Destructor)
      → (clear (change_destructor list d)).1 ≡ map (destructed d) (contents list)
  unfolding clear change_destructor
  clear-change_destructor list d = empty_out-events d list.elements 0 list.size
