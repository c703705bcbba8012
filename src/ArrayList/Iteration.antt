-- ===== src/ArrayList/Iteration.antt =====
-- The iterators of the array list, which can change the list that they go through. An iterator
-- refers to its list, so each call takes the list as it then is. `iterator_set` and
-- `iterator_remove` give what the call on the list gives, of which the C functions drop the value.
pub mod Sweep
pub mod Insertion
use libcdsa.Core.Growing.{Scaling}
use libcdsa.Base.{
  ℕ, zero, suc, ◌+◌, ◌-◌, Bool, true, false, Option, none, some, List, [], ltb, ◌==◌, if◌then◌else◌,
  get_or,
}
use libcdsa.Base.Int.{ℤ, pos, negsuc, to_ℕ?}
use libcdsa.Core.{
  Pointer, Event, Outcome, ok, err, memory_allocation, index_out_of_bounds, no_such_element,
  concurrent_modification, illegal_state,
}
use libcdsa.ArrayList.{ArrayList, Memory, add, remove}
use libcdsa.ArrayList.Removal.{set_element}

-- `IterationContext`, but for its pointer to the list.
pub record Iteration : Type 0 where
  pub cursor : ℕ
  pub last_returned : ℤ
  pub modification_count : ℕ

module _ {ℓ} {Factor : Type 0} {A : Type ℓ} ⦃pointer : Pointer A⦄ where
  -- `granted` is whether the allocation of the context succeeds.
  unfoldable pub create_iterator : Bool → ArrayList Factor A → ℕ → Outcome Iteration
  create_iterator granted list position =
      if granted
      then ok (record {
        cursor = position;
        last_returned = negsuc 0;
        modification_count = list.modification_count;
      })
      else err memory_allocation

  unfoldable pub iterator : Bool → ArrayList Factor A → Outcome Iteration
  unfolding create_iterator
  iterator granted list = create_iterator granted list 0

  unfoldable pub iterator_at : Bool → ArrayList Factor A → ℤ → Outcome Iteration
  unfolding create_iterator
  iterator_at granted list position = elim (to_ℕ? position) [
    | none ↦ err index_out_of_bounds
    | some p ↦ if ltb list.size p then err index_out_of_bounds else create_iterator granted list p
  ]

  unfoldable pub has_next : ArrayList Factor A → Iteration → Bool
  has_next list iteration = ltb iteration.cursor list.size

  unfoldable pub next : ArrayList Factor A → Iteration → Iteration × Outcome A
  unfolding has_next
  next list iteration =
      if iteration.modification_count == list.modification_count
      then if has_next list iteration
        then (
          record iteration { cursor = iteration.cursor + 1; last_returned = pos iteration.cursor },
          ok (get_or list.elements iteration.cursor pointer.null),
        )
        else (iteration, err no_such_element)
      else (iteration, err concurrent_modification)

  unfoldable pub has_previous : ArrayList Factor A → Iteration → Bool
  has_previous list iteration = ltb 0 iteration.cursor

  unfoldable pub previous : ArrayList Factor A → Iteration → Iteration × Outcome A
  unfolding has_previous
  previous list iteration =
      if iteration.modification_count == list.modification_count
      then if has_previous list iteration
        then (
          record iteration {
            cursor = iteration.cursor - 1;
            last_returned = pos (iteration.cursor - 1);
          },
          ok (get_or list.elements (iteration.cursor - 1) pointer.null),
        )
        else (iteration, err no_such_element)
      else (iteration, err concurrent_modification)

  -- The cursor moves on, and the count is taken over, also where `array_list_add` fails.
  unfoldable pub iterator_add :
      ⦃scaling : Scaling Factor⦄
      → Memory A
      → ArrayList Factor A
      → Iteration
      → A
      → ArrayList Factor A × Iteration × Outcome (Unit {0}) × List (Event A)
  iterator_add memory list iteration element =
      let (after, r, events) = add memory list (pos iteration.cursor) element in
      if iteration.modification_count == list.modification_count
      then (
        after,
        record {
          cursor = iteration.cursor + 1;
          last_returned = negsuc 0;
          modification_count = after.modification_count;
        },
        r,
        events,
      )
      else (list, iteration, err concurrent_modification, [])

  -- The end of `iterator_set_internal`, by `last_returned`.
  unfoldable pub set_returned :
      (A → A → Bool) → ArrayList Factor A → ℤ → A → ArrayList Factor A × Outcome A × List (Event A)
  set_returned same list (negsuc n) element = (list, err illegal_state, [])
  set_returned same list (pos index) element = set_element same list (pos index) element

  unfoldable pub iterator_set :
      (A → A → Bool)
      → ArrayList Factor A
      → Iteration
      → A
      → ArrayList Factor A × Outcome A × List (Event A)
  iterator_set same list iteration element =
      if iteration.modification_count == list.modification_count
      then set_returned same list iteration.last_returned element
      else (list, err concurrent_modification, [])

  -- The end of `iterator_remove_internal`, by `last_returned`.
  unfoldable pub remove_returned :
      ArrayList Factor A
      → Iteration
      → ℤ
      → ArrayList Factor A × Iteration × Outcome A × List (Event A)
  remove_returned list iteration (negsuc n) = (list, iteration, err illegal_state, [])
  remove_returned list iteration (pos index) =
      let (after, r, events) = remove list (pos index) in
      (
        after,
        record {
          cursor = if ltb index iteration.cursor then iteration.cursor - 1 else iteration.cursor;
          last_returned = negsuc 0;
          modification_count = after.modification_count;
        },
        r,
        events,
      )

  unfoldable pub iterator_remove :
      ArrayList Factor A → Iteration → ArrayList Factor A × Iteration × Outcome A × List (Event A)
  iterator_remove list iteration =
      if iteration.modification_count == list.modification_count
      then remove_returned list iteration iteration.last_returned
      else (list, iteration, err concurrent_modification, [])

  unfoldable pub reset : ArrayList Factor A → Iteration → Iteration
  reset list iteration = record {
    cursor = 0;
    last_returned = negsuc 0;
    modification_count = list.modification_count;
  }
