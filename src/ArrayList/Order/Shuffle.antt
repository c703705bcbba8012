-- ===== src/ArrayList/Order/Shuffle.antt =====
-- Shuffling permutes the elements, whatever `random` returns.
use native.Mathlib.Nat.{mod-lt}
use libcdsa.Core.Cells.{swap, length-swap, occurrences, occurrences-swap}
use libcdsa.Base.{ℕ, zero, suc, ◌+◌, ◌-◌, ◌%◌, ◌≤◌, ◌<◌, ◌≡◌, refl, ◌∙◌, arith, Bool, List, length}
use libcdsa.Core.{Pointer}
use libcdsa.ArrayList.{ArrayList}
use libcdsa.ArrayList.Inv.{IsValid, contents}
use libcdsa.ArrayList.Removal.Replace.{Rewritten, rewritten}
use libcdsa.ArrayList.Order.{
  ShufflingAlgorithm, durstenfeld_shuffle, sattolo_shuffle, naive_shuffle, durstenfeld_loop,
  sattolo_loop, naive_loop, shuffle,
}

module _ {A : Type 0} ⦃pointer : Pointer A⦄ where
  -- The same cells in some order: as long, and every test passes as often in the first `n`.
  pub record IsPermuted (n : ℕ) (elements after : List A) : Type 0 where
    pub whole : length after ≡ length elements
    pub held : (test : A → Bool) → occurrences test after n ≡ occurrences test elements n

  pub IsPermuted-swap :
      (n i j : ℕ) (elements after : List A)
      → i < n
      → j < n
      → n ≤ length elements
      → IsPermuted n (swap elements i j) after
      → IsPermuted n elements after
  IsPermuted-swap n i j elements after p q h after_permuted = record {
    whole = after_permuted.whole ∙ length-swap elements i j;
    held = λ test.
        after_permuted.held test
        ∙ occurrences-swap test elements i j n (omega arith) (omega arith) p q;
  }

  pub IsPermuted-refl : (n : ℕ) (elements : List A) → IsPermuted n elements elements
  IsPermuted-refl n elements = record { whole = refl; held = λ test. refl }

  module _ (random : ℕ → ℕ) where
    durstenfeld_loop-IsPermuted :
        (calls : ℕ) (elements : List A) (i n : ℕ)
        → i < n
        → n ≤ length elements
        → IsPermuted n elements (durstenfeld_loop random calls elements i)
    unfolding durstenfeld_loop
    durstenfeld_loop-IsPermuted calls elements zero n h p = IsPermuted-refl n elements
    durstenfeld_loop-IsPermuted calls elements (suc i) n h p =
        let j = random calls % (suc i + 1) in
        let small : j < suc i + 1 = mod-lt (random calls) (omega arith) in
        IsPermuted-swap n (suc i) j elements _ h (omega arith) p (
          durstenfeld_loop-IsPermuted (calls + 1) (swap elements (suc i) j) i n (omega arith)
            (omega (arith, length-swap elements (suc i) j)))

    sattolo_loop-IsPermuted :
        (calls : ℕ) (elements : List A) (i n : ℕ)
        → i < n
        → n ≤ length elements
        → IsPermuted n elements (sattolo_loop random calls elements i)
    unfolding sattolo_loop
    sattolo_loop-IsPermuted calls elements zero n h p = IsPermuted-refl n elements
    sattolo_loop-IsPermuted calls elements (suc i) n h p =
        let j = random calls % suc i in
        let small : j < suc i = mod-lt (random calls) (omega arith) in
        IsPermuted-swap n (suc i) j elements _ h (omega arith) p (
          sattolo_loop-IsPermuted (calls + 1) (swap elements (suc i) j) i n (omega arith)
            (omega (arith, length-swap elements (suc i) j)))

    naive_loop-IsPermuted :
        (size : ℕ) (elements : List A) (i n : ℕ)
        → i + n ≡ size
        → size ≤ length elements
        → IsPermuted size elements (naive_loop random size elements i n)
    unfolding naive_loop
    naive_loop-IsPermuted size elements i zero h p = IsPermuted-refl size elements
    naive_loop-IsPermuted size elements i (suc n) h p =
        let j = random i % size in
        let small : j < size = mod-lt (random i) (omega arith) in
        IsPermuted-swap size i j elements _ (omega arith) small p (
          naive_loop-IsPermuted size (swap elements i j) (i + 1) n (omega arith)
            (omega (arith, length-swap elements i j)))

  -- Loops from the last index down also leave an empty list alone.
  from_last :
      (loop : List A → ℕ → List A) (elements : List A) (size : ℕ)
      → (loop elements 0 ≡ elements)
      → ((i : ℕ) → i < size → IsPermuted size elements (loop elements i))
      → IsPermuted size elements (loop elements (size - 1))
  from_last loop elements zero idle permuted = rw idle (IsPermuted-refl 0 elements)
  from_last loop elements (suc n) idle permuted = permuted (suc n - 1) (omega arith)

module _ {Factor : Type 0} {A : Type 0} ⦃pointer : Pointer A⦄ where
  -- A permutation of the elements in place.
  abbrev pub Permuted : ArrayList Factor A → ArrayList Factor A → Type 0
  Permuted list after =
      Rewritten list after (contents after) × IsPermuted list.size list.elements after.elements

  pub permuted :
      (list : ArrayList Factor A) (elements : List A)
      → IsValid list
      → IsPermuted list.size list.elements elements
      → Permuted list (record list { elements = elements })
  permuted list elements valid p = (rewritten list elements _ valid p.whole refl, p)

  -- Whatever numbers random returns, none of them negative, array_list_shuffle by each of the
  -- three algorithms on a valid list permutes the elements (every test passes on as many) and
  -- changes nothing else in the list.
  pub shuffle_permutes :
      (random : ℕ → ℕ) (list : ArrayList Factor A) (algorithm : ShufflingAlgorithm)
      → IsValid list
      → Permuted list (shuffle random list algorithm)
  unfolding shuffle durstenfeld_loop sattolo_loop
  shuffle_permutes random list durstenfeld_shuffle valid = permuted list _ valid (
      from_last (durstenfeld_loop random 0) list.elements list.size refl (λ i h.
        durstenfeld_loop-IsPermuted random 0 list.elements i list.size h
          (omega (arith, valid.storage, valid.size_in))))
  shuffle_permutes random list sattolo_shuffle valid = permuted list _ valid (
      from_last (sattolo_loop random 0) list.elements list.size refl (λ i h.
        sattolo_loop-IsPermuted random 0 list.elements i list.size h
          (omega (arith, valid.storage, valid.size_in))))
  shuffle_permutes random list naive_shuffle valid = permuted list _ valid (
      naive_loop-IsPermuted random list.size list.elements 0 list.size (omega arith)
        (omega (arith, valid.storage, valid.size_in)))
