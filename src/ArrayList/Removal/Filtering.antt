-- ===== src/ArrayList/Removal/Filtering.antt =====
-- The list functions that a loop follows which removes elements from the last index down.
use mathlib.Core.List.{append-nil, append_assoc, reverse-append}
use libcdsa.Base.{
  ℕ, suc, ◌≤◌, ◌<◌, ◌≡◌, sym, ap, ◌∙◌, arith, Bool, true, false, not, List, [], ◌∷◌, ◌++◌, reverse,
  length, take, drop, get_or, length-take,
}
use libcdsa.Base.Search.{filter, filter-append}
use libcdsa.Base.Slices.{take-suc, drop-suc, take_append, drop_append}

module _ {A : Type 0} where
  -- The first `n` elements filtered, the others as they are.
  abbrev pub filtered : (A → Bool) → ℕ → List A → List A
  filtered condition n xs = filter (λ x. not (condition x)) (take n xs) ++ drop n xs

  pub filter_last :
      (p : A → Bool) (n : ℕ) (xs : List A) (d : A)
      → n < length xs
      → filter p (take (suc n) xs) ≡ filter p (take n xs) ++ filter p (get_or xs n d ∷ [])
  filter_last p n xs d h =
      ap (filter p) (take-suc n xs d h) ∙ filter-append p (take n xs) (get_or xs n d ∷ [])

  pub filtered_pass :
      (condition : A → Bool) (n : ℕ) (xs : List A) (d : A)
      → n < length xs
      → condition (get_or xs n d) ≡ false
      → filtered condition (suc n) xs ≡ filtered condition n xs
  filtered_pass condition n xs d h e =
      let keep = λ (x : A). not (condition x) in
      rw (filter_last keep n xs d h, e, drop-suc n xs d h)
        (append_assoc (filter keep (take n xs)) (get_or xs n d ∷ []) (drop (suc n) xs))

  pub take_cut :
      (n : ℕ) (xs ys : List A)
      → n ≤ length xs
      → ys ≡ take n xs ++ drop (suc n) xs
      → take n ys ≡ take n xs
  take_cut n xs ys h cut = rw cut (
      ap (λ (m : ℕ). take m (take n xs ++ drop (suc n) xs)) (sym (length-take n xs h))
      ∙ take_append (take n xs) (drop (suc n) xs))

  -- The last element that passes is the first one destroyed.
  pub reverse_pass :
      (p : A → Bool) (n : ℕ) (xs : List A) (d : A)
      → n < length xs
      → p (get_or xs n d) ≡ true
      → reverse (filter p (take (suc n) xs)) ≡ get_or xs n d ∷ reverse (filter p (take n xs))
  reverse_pass p n xs d h e =
      rw (filter_last p n xs d h, e) (reverse-append (filter p (take n xs)) (get_or xs n d ∷ []))

  pub filter_pass :
      (p : A → Bool) (n : ℕ) (xs : List A) (d : A)
      → n < length xs
      → p (get_or xs n d) ≡ false
      → filter p (take (suc n) xs) ≡ filter p (take n xs)
  filter_pass p n xs d h e = rw (filter_last p n xs d h, e) (append-nil (filter p (take n xs)))

  pub filtered_fail :
      (condition : A → Bool) (n : ℕ) (xs ys : List A) (d : A)
      → n < length xs
      → condition (get_or xs n d) ≡ true
      → ys ≡ take n xs ++ drop (suc n) xs
      → filtered condition (suc n) xs ≡ filtered condition n ys
  filtered_fail condition n xs ys d h e cut =
      let keep = λ (x : A). not (condition x) in
      let size : length (take n xs) ≡ n = length-take n xs (omega arith) in
      let same : take n (take n xs ++ drop (suc n) xs) ≡ take n xs =
        ap (λ (m : ℕ). take m (take n xs ++ drop (suc n) xs)) (sym size)
        ∙ take_append (take n xs) (drop (suc n) xs) in
      let rest : drop n (take n xs ++ drop (suc n) xs) ≡ drop (suc n) xs =
        ap (λ (m : ℕ). drop m (take n xs ++ drop (suc n) xs)) (sym size)
        ∙ drop_append (take n xs) (drop (suc n) xs) in
      rw (filter_last keep n xs d h, e, cut, same, rest, append-nil (filter keep (take n xs)))
