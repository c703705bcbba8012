-- ===== src/ArrayList/Bulk.antt =====
-- The methods of the array list that take a collection.
use libcdsa.Core.Growing.{Scaling}
use libcdsa.Base.{ℕ, ◌+◌, ◌-◌, Option, none, some, List, [], ltb, if◌then◌else◌, write_from}
use libcdsa.Base.Int.{ℤ, pos, to_ℕ?}
use libcdsa.Core.{
  Pointer, Event, Outcome, ok, err, index_out_of_bounds, memory_allocation, Collection, bump,
}
use libcdsa.ArrayList.{ArrayList, Memory, ensure_capacity, move_up}

module _ {ℓ} {A : Type ℓ} {Factor : Type 0} ⦃pointer : Pointer A⦄ where
  -- `array_list_add_all` with room for all, from the two loops on.
  unfoldable pub insert_all : ArrayList Factor A → ℕ → ℕ → List A → ArrayList Factor A
  insert_all list index offset xs = record list {
    elements = write_from (move_up list.elements index offset (list.size - index)) index xs;
    size = list.size + offset;
    modification_count = bump list.modification_count;
  }

  module _ ⦃scaling : Scaling Factor⦄ where
    -- `array_list_add_all` at an index in range, from the iterator of the collection on.
    unfoldable pub fill_at :
        Memory A
        → ArrayList Factor A
        → ℕ
        → ℕ
        → Outcome (List A)
        → ArrayList Factor A × Outcome (Unit {0}) × List (Event A)
    fill_at memory list index collection_size (err e) = (list, err e, [])
    fill_at memory list index collection_size (ok xs) =
        let (fits, roomy, events) = ensure_capacity memory list (list.size + collection_size) in
        if fits
        then (insert_all roomy index collection_size xs, ok tt, events)
        else (list, err memory_allocation, events)

    unfoldable pub add_all_at :
        Memory A
        → ArrayList Factor A
        → Option ℕ
        → Collection A
        → ArrayList Factor A × Outcome (Unit {0}) × List (Event A)
    add_all_at memory list none collection = (list, err index_out_of_bounds, [])
    add_all_at memory list (some index) collection =
        if ltb list.size index
        then (list, err index_out_of_bounds, [])
        else fill_at memory list index collection.size collection.iterator

    unfoldable pub add_all :
        Memory A
        → ArrayList Factor A
        → ℤ
        → Collection A
        → ArrayList Factor A × Outcome (Unit {0}) × List (Event A)
    add_all memory list index collection = add_all_at memory list (to_ℕ? index) collection

    unfoldable pub add_all_first :
        Memory A
        → ArrayList Factor A
        → Collection A
        → ArrayList Factor A × Outcome (Unit {0}) × List (Event A)
    add_all_first memory list collection = add_all memory list (pos 0) collection

    unfoldable pub add_all_last :
        Memory A
        → ArrayList Factor A
        → Collection A
        → ArrayList Factor A × Outcome (Unit {0}) × List (Event A)
    add_all_last memory list collection = add_all memory list (pos list.size) collection
