-- ===== src/Lib.antt =====
-- libcdsa is a library of containers and utilities in C. Its containers store pointers, report
-- errors through `set_error`, and take memory from callbacks that the client configures.
--
-- Base: numbers, lists, bit masks and ring indices that the components share. It models no code.
-- Core: what the components take from src/core (`core/errors.c`) and `collections/collection.h`. A
-- call under `attempt` ends in an `Outcome`: its value, or the error that was recorded. The memory
-- callback is a parameter, `Alloc`, and may refuse any request; that a block has the size asked
-- for (`IsHonest`) is the one thing assumed of it where a theorem needs it. The callbacks that a
-- method makes on elements and blocks are returned as a list of `Event`s, in order. Core/Cells has
-- the loops over arrays that the containers share, Core/Growing the search for a new capacity by a
-- `float` factor, which the priority queue and the array list have in common, and Core/Comparison
-- the signs of C comparisons.
-- Attempt: `src/core/errors.c`, the error context that `set_error`, `isolate_error` and
-- `capture_error` share, and the message buffer. `Program` is what any function does with errors:
-- it raises them and goes on, or evaluates calls under `attempt` and goes on from what they gave.
-- Isolation compares its runs with a semantics that has no context, which is what the `Outcome` of
-- Core stands on; Message is about the text.
-- Deque: `src/collections/deque.c`. The record `Deque` has the fields of `struct Deque`.
-- `elements` is the array with all its cells, so `first`, `last` and the masks of the C code are
-- kept; an `int` that is negative for a moment is its 32-bit pattern. Deque.antt has construction,
-- growth and the methods at the two ends, Deque/Bulk.antt the methods on all elements,
-- Deque/Access.antt the getters and the setter of the destructor, Deque/Iteration.antt the
-- iterators, Deque/Traversal.antt `iterator_advance` and `iterator_retreat` of
-- `src/collections/iterator.c` on them, and Deque/Calls.antt a client that makes any calls in any
-- order. The other files of Deque/ hold proofs: Inv the invariant, Ends,
-- Removal, Capacity, Refine, Create, and under Bulk/ Fill, From, Reversal, Search, Clear and Copy.
-- PriorityQueue: `src/collections/priority_queue.c`, a binary heap with the greatest element
-- first. A C comparison is a function into `ℤ` of which the sign counts (`IsComparison` is what
-- its documentation asks). The `float` growth factor is a parameter (`Scaling`) of which one thing
-- is assumed, that it makes a capacity grow; for the array list also that it stays within the
-- greatest capacity where the guard lets it through. `heapify_after_delete` reads two cells before it
-- tests that they are in range: what it reads past the array is the argument `stray`. Order has
-- the heap order, Up, Choice and Down the two sifting loops, Room the growth, Refine the multiset
-- of the elements as a specification, Enqueue and Dequeue its refinement, Create, From and Clone
-- construction, Bulk the methods on all elements, Access the getters, and Iteration the iterators.
-- ArrayList: `src/collections/list/array_list.c`. The record `ArrayList` has the fields of `struct
-- ArrayList`, and `contents` is the list of its first `size` cells, which the theorems speak of. An
-- index is a C `int` (`ℤ`), so that negative ones are arguments too; an `end_index` that can come
-- down to -1 is written one greater. `Memory` has `memory_alloc` and, where it is not null,
-- `memory_realloc`. ArrayList.antt has growth, insertion, reading and removal at an index,
-- ArrayList/Bulk.antt insertion of a collection, Removal.antt the methods that remove or replace
-- many elements, Order.antt reversal, rotation and shuffling, Search.antt the searches, Sort.antt
-- with Sort/Merge.antt and Sort/Algorithms.antt the sorting algorithms, Create.antt construction and
-- copies, Access.antt the getters and `array_list_to_array`, Iteration.antt the iterators, which can
-- change the list, and Capacity.antt the methods that set the capacity. The comparison of pointers in `array_list_set` and `array_list_replace_all`,
-- `random`, `equals` and the tests of a client are arguments. Inv has the invariant, Room and Moves
-- the reallocation and the loops that move elements over, Sort/Rearranged what the algorithms in
-- place share: changes that only put the cells of a range in another order. The theorems on the
-- array list are about element types of the lowest universe, which C pointers are in.
--
-- Loops are recursion on the number of rounds. Two loops have no counter and run on fuel:
-- `next_power_of_two` has 31 rounds, enough for a number below 2^31, and the search for a new
-- capacity has 32, enough because the capacity doubles in each and stops at 2^30. That of the
-- priority queue and the array list has one more than the capacity asked for, enough because the
-- capacity grows in each. Sifting has the index, or the size, for fuel; binary search, quick sort
-- and merge sort have the size (binary search one more), enough because the range gets shorter in
-- each round or call.
--
-- Not modelled: printing to strings, the tables of function pointers that make a collection of a
-- container, the null checks of single methods (Calls has a null receiver), and the texts of the
-- errors that the containers set. The other containers, the strings, the sequences, the allocators
-- and the calendar of the library are no part of the model. A sum of sizes is exact: where
-- `size + collection_size` passes 2^31 - 1 the C code has no defined meaning, and nothing is said.
-- A collection that is added is not a view of the container that it is added to.
pub mod ArrayList
pub mod Attempt
pub mod Base
pub mod Core
pub mod Deque
pub mod PriorityQueue
