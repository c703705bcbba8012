-- ===== src/ArrayList/Tests.antt =====
-- An array list of numbers, with factors in hundredths.
use native.Mathlib.Nat.{le-div_iff_mul-le}
use libcdsa.Core.Growing.{Scaling, IsGrowing, IsBounded, max_capacity}
use libcdsa.Core.Comparison.{IsComparison}
use libcdsa.Base.{
  ℕ, zero, suc, ◌+◌, ◌*◌, ◌/◌, ◌≤◌, ◌<◌, ◌≡◌, ◌⊎◌, refl, arith, Bool, true, false, not, some, none,
  [], ◌∷◌, map, length, replicate, length-replicate, ltb, ◌==◌, if◌then◌else◌,
}
use libcdsa.Base.Int.{ℤ, pos, negsuc}
use libcdsa.Base.Search.{any, all, filter}
use libcdsa.Core.{Pointer, ok, client_destruct, destructed, Collection, IsFaithful, map_outcome}
use libcdsa.ArrayList.{ArrayList, Memory, add, remove}
use libcdsa.ArrayList.Bulk.{add_all}
use libcdsa.ArrayList.Inv.{IsValid, contents}
use libcdsa.ArrayList.Room.{IsSound, Refuses}
use libcdsa.ArrayList.Capacity.{reserve, Reserved, Covers, Stopped, returned, reserve-Reserved}
use libcdsa.ArrayList.Insert.{Inserted, InsertedAll, add_inserts, add_all_inserts}
use libcdsa.ArrayList.Delete.{Removed, remove_deletes}
use libcdsa.ArrayList.Removal.{remove_if, remove_all, retain_all, remove_range, replace_all}
use libcdsa.ArrayList.Removal.Where.{Filtered, removals_filter}
use libcdsa.ArrayList.Removal.Range.{RemovedRange, remove_range_slices}
use libcdsa.ArrayList.Removal.Replace.{Rewritten, replace_all_maps}
use libcdsa.ArrayList.Order.{normalized, rotate, shuffle, sattolo_shuffle}
use libcdsa.ArrayList.Order.Rotate.{Congruent, turned, rotate_turns}
use libcdsa.ArrayList.Order.Shuffle.{Permuted, shuffle_permutes}
use libcdsa.ArrayList.Search.{
  find, find_last, index_where, last_index_where, index_of, last_index_of, contains, occurrences_of,
  contains_all, binary_search, remove_element,
}
use libcdsa.ArrayList.Search.Linear.{IsFirst, IsLast, at_index}
use libcdsa.ArrayList.Search.Lookup.{
  searches_find, lookups_agree, RemovedFirst, remove_element_removes,
}
use libcdsa.ArrayList.Search.Binary.{IsSorted, Sought, binary_search_finds}
use libcdsa.ArrayList.Sort.Algorithms.{by_merge, sort, sort_sorts}
use libcdsa.ArrayList.Sort.Merge.Verdict.{Verdict}
use libcdsa.ArrayList.Create.{ArrayListOptions, new, from, sub_list, clone}
use libcdsa.ArrayList.Create.From.{From, from_fills_list}
use libcdsa.ArrayList.Create.New.{Created, new_makes}
use libcdsa.ArrayList.Create.Copy.{Sliced, sub_list_slices}
use libcdsa.ArrayList.Iteration.{Iteration, iterator_add, reset}
use libcdsa.ArrayList.Iteration.Insertion.{Added, iterator_add_inserts}
use libcdsa.ArrayList.Iteration.Sweep.{sweep, Swept, sweep_filters}

instance ℕ-Pointer : Pointer ℕ
ℕ-Pointer = record { null = 0 }

instance ℕ-Scaling : Scaling ℕ
ℕ-Scaling = record {
  too_small = λ f. ltb f 110;
  exceeds = λ f n. ltb (n * 100) f;
  scale = λ n f. n * f / 100;
}

abbrev compare_numbers : ℕ → ℕ → ℤ
compare_numbers a b = if ltb a b then negsuc 0 else if a == b then pos 0 else pos 1

abbrev four : ArrayList ℕ ℕ
four = record {
  elements = 7 ∷ 3 ∷ 9 ∷ 3 ∷ 0 ∷ 0 ∷ 0 ∷ 0 ∷ 0 ∷ 0 ∷ [];
  size = 4;
  capacity = 10;
  growth_factor = 150;
  destruct = client_destruct 1;
  modification_count = 4;
}

abbrev ascending : ArrayList ℕ ℕ
ascending = record four { elements = 3 ∷ 3 ∷ 7 ∷ 9 ∷ 0 ∷ 0 ∷ 0 ∷ 0 ∷ 0 ∷ 0 ∷ [] }

abbrev memory : Memory ℕ
memory = record { alloc = λ n. some (replicate n 0); realloc = none }

abbrev pair : Collection ℕ
pair = record { size = 2; iterator = ok (5 ∷ 6 ∷ []) }

abbrev acceptable : ArrayListOptions ℕ
acceptable = record {
  initial_capacity = pos 12;
  growth_factor = 150;
  destruct = some (client_destruct 1);
  equals = true;
  to_string = true;
  memory_alloc = true;
  memory_dealloc = true;
}

abbrev fresh_iteration : Iteration
fresh_iteration = record { cursor = 0; last_returned = negsuc 0; modification_count = 4 }

abbrev advanced : Iteration
advanced = record {
  cursor = 2;
  last_returned = pos 1;
  modification_count = four.modification_count;
}

abbrev is_small : ℕ → Bool
is_small n = ltb n 5

abbrev equals : ℕ → ℕ → Bool
equals a b = a == b

memory-IsSound : IsSound memory
memory-IsSound = record {
  alloc_whole = λ n block e.
      let size : length (replicate {A = ℕ} n 0) ≡ n = length-replicate n 0 in ground (arith, size);
  realloc_whole = λ realloc old block n e f. cc;
  realloc_keeps = λ realloc old block n k e f h p. cc;
}

compare_numbers-IsComparison : IsComparison compare_numbers
compare_numbers-IsComparison = record {
  turned = λ a b. ground arith;
  carried = λ a b c p q. ground arith;
}

four-IsValid : IsValid four
four-IsValid = record {
  storage = refl;
  large = omega arith;
  small = omega arith;
  size_in = omega arith;
}

factor-IsGrowing : IsGrowing four.growth_factor
unfolding ℕ-Scaling
factor-IsGrowing n large free = omega arith

factor-IsBounded : IsBounded four.growth_factor
unfolding ℕ-Scaling
factor-IsBounded n large free =
    let enough : 2 ≤ max_capacity / n = ground arith in
    let twice : 2 * n ≤ max_capacity = (le-div_iff_mul-le {k = n} (omega arith)).0 enough in
    omega arith

pair-IsFaithful : IsFaithful pair
pair-IsFaithful xs e = ground arith

ascending-IsSorted : IsSorted compare_numbers ascending.elements 4
ascending-IsSorted zero zero le high = refl
ascending-IsSorted (suc zero) zero le high = absurd (omega arith)
ascending-IsSorted (suc (suc zero)) zero le high = absurd (omega arith)
ascending-IsSorted (suc (suc (suc zero))) zero le high = absurd (omega arith)
ascending-IsSorted (suc (suc (suc (suc a)))) zero le high = absurd (omega arith)
ascending-IsSorted zero (suc zero) le high = refl
ascending-IsSorted (suc zero) (suc zero) le high = refl
ascending-IsSorted (suc (suc zero)) (suc zero) le high = absurd (omega arith)
ascending-IsSorted (suc (suc (suc zero))) (suc zero) le high = absurd (omega arith)
ascending-IsSorted (suc (suc (suc (suc a)))) (suc zero) le high = absurd (omega arith)
ascending-IsSorted zero (suc (suc zero)) le high = refl
ascending-IsSorted (suc zero) (suc (suc zero)) le high = refl
ascending-IsSorted (suc (suc zero)) (suc (suc zero)) le high = refl
ascending-IsSorted (suc (suc (suc zero))) (suc (suc zero)) le high = absurd (omega arith)
ascending-IsSorted (suc (suc (suc (suc a)))) (suc (suc zero)) le high = absurd (omega arith)
ascending-IsSorted zero (suc (suc (suc zero))) le high = refl
ascending-IsSorted (suc zero) (suc (suc (suc zero))) le high = refl
ascending-IsSorted (suc (suc zero)) (suc (suc (suc zero))) le high = refl
ascending-IsSorted (suc (suc (suc zero))) (suc (suc (suc zero))) le high = refl
ascending-IsSorted (suc (suc (suc (suc a)))) (suc (suc (suc zero))) le high = absurd (omega arith)
ascending-IsSorted zero (suc (suc (suc (suc b)))) le high = absurd (omega arith)
ascending-IsSorted (suc zero) (suc (suc (suc (suc b)))) le high = absurd (omega arith)
ascending-IsSorted (suc (suc zero)) (suc (suc (suc (suc b)))) le high = absurd (omega arith)
ascending-IsSorted (suc (suc (suc zero))) (suc (suc (suc (suc b)))) le high = absurd (omega arith)
ascending-IsSorted (suc (suc (suc (suc a)))) (suc (suc (suc (suc b)))) le high =
    absurd (omega arith)

sort_sorts_example :
    let (after, r) = sort compare_numbers memory four by_merge in
    Permuted four after
    × Verdict memory.alloc (IsSorted compare_numbers after.elements after.size) r
    × ((by_merge ≡ by_merge) ⊎ (r ≡ ok tt))
sort_sorts_example = sort_sorts compare_numbers-IsComparison memory four by_merge four-IsValid

add_inserts_example : Inserted memory four (some 1) (8 ∷ []) (add memory four (pos 1) 8)
add_inserts_example =
    add_inserts memory memory-IsSound four four-IsValid factor-IsGrowing factor-IsBounded (pos 1) 8

add_all_inserts_example :
    InsertedAll memory four (some 2) pair.iterator (add_all memory four (pos 2) pair)
add_all_inserts_example =
    add_all_inserts memory memory-IsSound four four-IsValid factor-IsGrowing factor-IsBounded
      (pos 2) pair pair-IsFaithful (omega arith)

remove_deletes_example : Removed four (some 1) (remove four (pos 1))
remove_deletes_example = remove_deletes four (pos 1) four-IsValid

removals_filter_example :
    Filtered is_small four (remove_if is_small four)
    × Filtered is_small four (remove_all is_small four)
    × Filtered (λ x. not (is_small x)) four (retain_all is_small four)
removals_filter_example = removals_filter is_small four four-IsValid

remove_range_slices_example :
    RemovedRange four (some 1) (some 3) (remove_range four (pos 1) (pos 3))
remove_range_slices_example = remove_range_slices four (pos 1) (pos 3) four-IsValid

sweep_filters_example :
    Swept is_small four 0 (sweep is_small four.size four (reset four fresh_iteration))
sweep_filters_example = sweep_filters is_small four fresh_iteration four-IsValid

binary_search_finds_example :
    Sought compare_numbers ascending.elements 4 7 (binary_search ascending 7 compare_numbers)
binary_search_finds_example =
    binary_search_finds compare_numbers-IsComparison ascending 7 ascending-IsSorted

rotate_turns_example :
    let d = normalized (negsuc 0) four.size in
    (d < four.size)
    × Congruent (negsuc 0) d four.size
    × Rewritten four (rotate four (negsuc 0)) (turned d (contents four))
rotate_turns_example = rotate_turns four (negsuc 0) four-IsValid (omega arith)

factor_large : ℕ-Scaling.too_small four.growth_factor ≡ false
unfolding ℕ-Scaling
factor_large = refl

sub_list_slices_example :
    Sliced true memory four (some 1) (some 3) (sub_list true memory four (pos 1) (pos 3))
    × Sliced true memory four (some 0) (some four.size) (clone true memory four)
sub_list_slices_example =
    sub_list_slices true memory memory-IsSound four four-IsValid factor_large (pos 1) (pos 3)

replace_all_maps_example :
    let (after, events) = replace_all equals suc four in
    Rewritten four after (map suc (contents four))
    × (events
        ≡ map (destructed four.destruct) (filter (λ x. not (equals x (suc x))) (contents four)))
replace_all_maps_example = replace_all_maps equals suc four four-IsValid

shuffle_permutes_example : Permuted four (shuffle (λ k. k * 7 + 5) four sattolo_shuffle)
shuffle_permutes_example = shuffle_permutes (λ k. k * 7 + 5) four sattolo_shuffle four-IsValid

searches_find_example :
    IsFirst is_small four.elements 0 four.size (index_where four is_small)
    × IsLast is_small four.elements four.size (last_index_where four is_small)
    × (find four is_small ≡ at_index is_small four.elements (index_where four is_small))
    × (find_last four is_small ≡ at_index is_small four.elements (last_index_where four is_small))
searches_find_example = searches_find four is_small

lookups_agree_example :
    IsFirst (λ y. equals y 3) four.elements 0 four.size (index_of equals four 3)
    × IsLast (λ y. equals y 3) four.elements four.size (last_index_of equals four 3)
    × (contains equals four 3 ≡ any (λ y. equals y 3) (contents four))
    × (occurrences_of equals four 3 ≡ length (filter (λ y. equals y 3) (contents four)))
    × (contains_all equals four pair
        ≡ map_outcome (all (λ z. any (λ y. equals y z) (contents four))) pair.iterator)
lookups_agree_example = lookups_agree equals four 3 pair

remove_element_removes_example : RemovedFirst equals four 3 (remove_element equals four 3)
remove_element_removes_example = remove_element_removes equals four 3 four-IsValid

reserve-Reserved_example :
    Reserved
      (Covers (some 20))
      (Stopped four (some 20) ⊎ Refuses memory)
      (returned memory four (some 20))
      four
      (reserve memory four (pos 20))
reserve-Reserved_example =
    reserve-Reserved memory memory-IsSound four four-IsValid factor-IsGrowing factor-IsBounded
      (pos 20)

new_makes_example : Created acceptable true memory (new acceptable true memory)
new_makes_example = new_makes acceptable true memory memory-IsSound

from_fills_list_example : From acceptable true memory pair (from acceptable true memory pair)
from_fills_list_example =
    from_fills_list acceptable true memory pair memory-IsSound factor-IsGrowing factor-IsBounded
      pair-IsFaithful (omega arith)

iterator_add_inserts_example : Added memory four advanced 8 (iterator_add memory four advanced 8)
iterator_add_inserts_example =
    iterator_add_inserts memory four advanced 8 refl memory-IsSound four-IsValid factor-IsGrowing
      factor-IsBounded (omega arith)
