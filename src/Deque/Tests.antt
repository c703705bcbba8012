-- ===== src/Deque/Tests.antt =====
-- A deque of numbers whose elements go round the end of the array, and runs on it.
use libcdsa.Base.{
  ℕ, ◌*◌, ◌^◌, ◌≤◌, ◌<◌, ◌≡◌, refl, true, some, [], ◌∷◌, ◌++◌, map, arith, replicate,
  length-replicate, drop, length, Bool, ◌==◌, get_or, min,
}
use mathlib.Core.List
use libcdsa.Core.{
  IsFaithful, Pointer, noop_destruct, client_destruct, Alloc, IsHonest, Collection, ok, destructed,
}
use libcdsa.Base.Int.{pos}
use libcdsa.Deque.{
  Deque, DequeOptions, ensure_capacity, next_power_of_two, new, add_first, remove_last,
  elements_from, index,
}
use libcdsa.Deque.Inv.{IsValid, contents}
use libcdsa.Deque.Capacity.{Ensured, ensure_capacity-Ensured, next_power_of_two_lem}
use libcdsa.Deque.Refine.{Became, Added, Taken, at_back, add_first_refines, remove_last_refines}
use libcdsa.Deque.Create.{Created, new-Created}
use libcdsa.Deque.Bulk.{add_all_last, reverse, clear, clone, from}
use libcdsa.Deque.Bulk.From.{From, from_fills}
use libcdsa.Deque.Bulk.Fill.{AddedAll, add_all_last_refines}
use libcdsa.Deque.Bulk.Reversal.{reverse_refines}
use libcdsa.Deque.Bulk.Clear.{clear_refines}
use libcdsa.Deque.Bulk.Copy.{Cloned, clone_refines}
use libcdsa.Deque.Iteration.{Iteration, create_iterator, drain, drain_yields}
use libcdsa.Deque.Traversal.{advance, retreat, retreat-advance}
use libcdsa.Deque.Calls.{
  run, list_run, IsGenerous, run_refines, adds_first, gets_last, removes_last, reverses,
}

instance ℕ-Pointer : Pointer ℕ
ℕ-Pointer = record { null = 0 }

-- Three elements, 10, 11 and 12, from the index 6 on.
abbrev wrapped : Deque ℕ
wrapped = record {
  elements = 12 ∷ 0 ∷ 0 ∷ 0 ∷ 0 ∷ 0 ∷ 10 ∷ 11 ∷ [];
  first = 6;
  last = 1;
  size = 3;
  capacity = 8;
  destruct = client_destruct 1;
  modification_count = 5;
}

abbrev calloc : Alloc ℕ
calloc n = some (replicate n 0)

abbrev options : DequeOptions
options = record {
  initial_capacity = pos 9;
  destruct = some noop_destruct;
  equals = true;
  to_string = true;
  memory_alloc = true;
  memory_dealloc = true;
}

abbrev two_more : Collection ℕ
two_more = record { size = 2; iterator = ok (20 ∷ 21 ∷ []) }

abbrev started : Iteration
started = record { count = 1; modification_count = 5 }

wrapped-IsValid : IsValid wrapped
wrapped-IsValid = record {
  exponent = 3;
  power = refl;
  large = omega arith;
  small = omega arith;
  storage = refl;
  first_in = omega arith;
  size_in = omega arith;
  last_at = refl;
}

calloc-IsHonest : IsHonest calloc
calloc-IsHonest n block e =
    let size : length (replicate {A = ℕ} n 0) ≡ n = length-replicate n 0 in ground (arith, size)

calloc-IsGenerous : IsGenerous calloc
calloc-IsGenerous n = (replicate n 0, refl)

two_more-IsFaithful : IsFaithful two_more
two_more-IsFaithful xs e = ground arith

contents-wrapped : contents wrapped ≡ 10 ∷ 11 ∷ 12 ∷ []
unfolding elements_from
contents-wrapped = refl

run_refines_example :
    run calloc (some wrapped) (adds_first 9 ∷ removes_last ∷ reverses ∷ gets_last ∷ [])
    ≡ list_run (contents wrapped) (adds_first 9 ∷ removes_last ∷ reverses ∷ gets_last ∷ [])
run_refines_example =
    run_refines calloc calloc-IsHonest calloc-IsGenerous
      (adds_first 9 ∷ removes_last ∷ reverses ∷ gets_last ∷ []) wrapped-IsValid

add_first_refines_example : Added calloc wrapped (9 ∷ contents wrapped) (add_first calloc wrapped 9)
add_first_refines_example = add_first_refines calloc 9 calloc-IsHonest wrapped-IsValid

remove_last_refines_example : Taken at_back wrapped (remove_last wrapped)
remove_last_refines_example = remove_last_refines wrapped-IsValid

ensure_capacity-Ensured_example : Ensured calloc wrapped 9 (ensure_capacity calloc wrapped 9)
ensure_capacity-Ensured_example = ensure_capacity-Ensured calloc calloc-IsHonest wrapped-IsValid 9

next_power_of_two_lem_example :
    (n : ℕ) × (next_power_of_two 9 ≡ 2 ^ n) × (9 ≤ 2 ^ n) × (2 ^ n < 9 * 2)
next_power_of_two_lem_example = next_power_of_two_lem 9 (omega arith) (omega arith)

new-Created_example : Created options true calloc (new options true calloc)
new-Created_example = new-Created options true calloc calloc-IsHonest

add_all_last_refines_example :
    AddedAll
      (λ xs. contents wrapped ++ xs)
      calloc
      wrapped
      two_more
      (add_all_last calloc wrapped two_more)
add_all_last_refines_example =
    add_all_last_refines calloc two_more calloc-IsHonest two_more-IsFaithful wrapped-IsValid
      (omega arith)

reverse_refines_example :
    IsValid (reverse wrapped) × (contents (reverse wrapped) ≡ List.reverse (contents wrapped))
reverse_refines_example = reverse_refines wrapped-IsValid

clear_refines_example :
    Became wrapped [] (clear wrapped).0
    × ((clear wrapped).1 ≡ map (destructed (client_destruct 1)) (contents wrapped))
    × ((k : ℕ)
        → k < wrapped.size
        → get_or (clear wrapped).0.elements (index wrapped k) ℕ-Pointer.null ≡ ℕ-Pointer.null)
clear_refines_example = clear_refines wrapped-IsValid

clone_refines_example : Cloned true calloc wrapped (clone true calloc wrapped)
clone_refines_example = clone_refines true calloc wrapped-IsValid calloc-IsHonest

drain_yields_example : drain 3 wrapped started ≡ map ok (drop 1 (contents wrapped))
unfolding create_iterator
drain_yields_example = drain_yields wrapped started (omega arith) refl

abbrev same_number : ℕ → ℕ → Bool
same_number a b = a == b

from_fills_example : From two_more options true calloc (from two_more options true calloc)
from_fills_example =
    from_fills two_more options true calloc calloc-IsHonest two_more-IsFaithful (omega arith)

retreat-advance_example :
    (steps : ℕ) × (moved : Iteration) × (steps ≡ min 5 2)
    × (advance 5 wrapped started ≡ (moved, steps, ok tt))
    × (retreat steps wrapped moved ≡ (started, steps, ok tt))
retreat-advance_example = retreat-advance 5 wrapped started refl (omega arith)
