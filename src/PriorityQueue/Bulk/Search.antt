-- ===== src/PriorityQueue/Bulk/Search.antt =====
-- `priority_queue_contains`, `priority_queue_contains_all` and `priority_queue_equals` against
-- searches of the list of the cells in use.
use libcdsa.Core.Cells.{length-cells_from, cell, cells_from}
use libcdsa.Core.Growing.{Scaling}
use libcdsa.Core.Comparison.{is_zero}
use mathlib.Core.Path.{fun_ext}
use libcdsa.Base.{
  ℕ, zero, suc, ◌+◌, ◌≡◌, refl, sym, ap, ◌∙◌, arith, Bool, true, false, ◌||◌, List, [], ◌∷◌, ◌==◌,
  Bool-cases, inl, inr,
}
use libcdsa.Base.Int.{ℤ}
use libcdsa.Base.Search.{any, all, pairwise, pairwise-length}
use libcdsa.Core.{Pointer, Collection, map_outcome}
use libcdsa.PriorityQueue.{PriorityQueue}
use libcdsa.PriorityQueue.Bulk.{
  contains_loop, contains, contains_each, contains_all, equals_loop, queue_equals,
}

module _ {ℓ} {A : Type ℓ} ⦃pointer : Pointer A⦄ (compare : A → A → ℤ) where
  -- Two elements are the same for the comparison.
  abbrev pub same : A → A → Bool
  same a b = is_zero (compare a b)

  contains_loop-finds :
      (n i : ℕ) (elements : List A) (x : A)
      → contains_loop compare n i elements x ≡ any (λ y. same y x) (cells_from elements i n)
  unfolding contains_loop cells_from
  contains_loop-finds zero i elements x = refl
  contains_loop-finds (suc n) i elements x = elim (Bool-cases (same (cell elements i) x)) [
    | inl e ↦ rw (e, contains_loop)
    | inr e ↦ rw (e, contains_loop) (contains_loop-finds n (i + 1) elements x)
  ]

  equals_loop_agrees :
      (n i : ℕ) (xs ys : List A)
      → equals_loop compare n i xs ys ≡ pairwise same (cells_from xs i n) (cells_from ys i n)
  unfolding equals_loop cells_from
  equals_loop_agrees zero i xs ys = refl
  equals_loop_agrees (suc n) i xs ys = elim (Bool-cases (same (cell xs i) (cell ys i))) [
    | inl h ↦ rw (h, equals_loop) (equals_loop_agrees n (i + 1) xs ys)
    | inr h ↦ rw (h, equals_loop)
  ]

module _ {ℓ} {Factor : Type 0} {A : Type ℓ} ⦃pointer : Pointer A⦄ where
  -- The cells in use, in the order of the array.
  abbrev pub contents : PriorityQueue Factor A → List A
  contents queue = cells_from queue.elements 0 queue.size

module _ {ℓ} {Factor : Type 0} {A : Type ℓ} ⦃pointer : Pointer A⦄ ⦃scaling : Scaling Factor⦄
    (compare : A → A → ℤ) where
  contains_finds :
      (queue : PriorityQueue Factor A) (x : A)
      → contains compare queue x ≡ any (λ y. same compare y x) (contents queue)
  unfolding contains
  contains_finds queue x = contains_loop-finds compare queue.size 0 queue.elements x

  contains_each_finds :
      (queue : PriorityQueue Factor A) (xs : List A)
      → contains_each compare queue xs ≡ all (λ x. any (λ y. same compare y x) (contents queue)) xs
  unfolding contains_each
  contains_each_finds queue [] = refl
  contains_each_finds queue (x ∷ xs) = elim (Bool-cases (contains compare queue x)) [
    | inl e ↦ rw (e, contains_each, ← contains_finds queue x, e) (contains_each_finds queue xs)
    | inr e ↦ rw (e, contains_each, ← contains_finds queue x, e)
  ]

  -- Priority_queue_contains_all finds whether every element of a collection compares as 0 with
  -- some element of the queue, or hands on the error of the iterator of the collection.
  pub contains_all_finds :
      (queue : PriorityQueue Factor A) (collection : Collection A)
      → contains_all compare queue collection
        ≡ map_outcome (all (λ x. any (λ y. same compare y x) (contents queue))) collection.iterator
  unfolding contains_all
  contains_all_finds queue collection =
      ap (λ f. map_outcome f collection.iterator) (fun_ext (contains_each_finds queue))

  -- Priority_queue_equals of two queues finds whether their arrays agree cell by cell for the
  -- comparison, and in number; of a queue and itself it says true.
  pub queue_equals_agrees :
      (same_pointer : Bool) (queue other : PriorityQueue Factor A)
      → queue_equals compare same_pointer queue other
        ≡ (same_pointer || pairwise (same compare) (contents queue) (contents other))
  unfolding queue_equals
  queue_equals_agrees true queue other = refl
  queue_equals_agrees false queue other = elim (Bool-cases (queue.size == other.size)) [
    | inl e ↦ rw e (
        equals_loop_agrees compare queue.size 0 queue.elements other.elements
        ∙ ap (λ n. pairwise (same compare) (contents queue) (cells_from other.elements 0 n))
            (ground arith))
    | inr e ↦ rw e (
        sym (
          pairwise-length (same compare) (contents queue) (contents other) (
            ground (
              arith,
              length-cells_from queue.elements 0 queue.size,
              length-cells_from other.elements 0 other.size,
            ))))
  ]
