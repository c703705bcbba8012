-- ===== src/Base/Slices.antt =====
-- Parts of lists: entries of what `take` and `drop` leave, put together again.
use Prim.Native.Nat.{ℕ, zero, suc, ◌+◌, ◌-◌, ◌<◌, ◌≤◌}
use mathlib.Core.Path.{◌≡◌, refl, ap, ◌∙◌}
use mathlib.Core.List.{List, [], ◌∷◌, ◌++◌}
use native.Mathlib.Omega.{arith}
use libcdsa.Base.Booleans.{ltb, if◌then◌else◌}
use libcdsa.Base.Lists.{
  length, get_or, take, drop, length-take, length-append, get_or-take, get_or-append,
}

module _ {A : Type 0} where
  pub length-drop : (n : ℕ) (xs : List A) → length (drop n xs) ≡ length xs - n
  length-drop zero xs = omega arith
  length-drop (suc n) [] = omega arith
  length-drop (suc n) (x ∷ xs) = omega (arith, length-drop n xs)

  pub get_or-drop :
      (n : ℕ) (xs : List A) (i : ℕ) (d : A) → get_or (drop n xs) i d ≡ get_or xs (n + i) d
  get_or-drop zero xs i d = ap (λ k. get_or xs k d) (omega arith)
  get_or-drop (suc n) [] i d = refl
  get_or-drop (suc n) (x ∷ xs) i d =
      get_or-drop n xs i d ∙ ap (λ k. get_or (x ∷ xs) k d) {x = suc (n + i)} (omega arith)

  -- A list with a part put in before index `i`.
  pub get_or-put_in :
      (i : ℕ) (xs ys : List A) (k : ℕ) (d : A)
      → i ≤ length xs
      → get_or (take i xs ++ (ys ++ drop i xs)) k d ≡ (
          if ltb k i
          then get_or xs k d
          else if ltb k (i + length ys)
          then get_or ys (k - i) d
          else get_or xs (k - length ys) d)
  get_or-put_in i xs ys k d h = ground (
    arith,
    get_or-append (take i xs) (ys ++ drop i xs) k d,
    length-take i xs,
    get_or-take i xs k d,
    get_or-append ys (drop i xs) (k - i) d,
    get_or-drop i xs (k - i - length ys) d,
    ap (λ (j : ℕ). get_or xs j d) {x = i + (k - i - length ys)} {y = k - length ys},
  )

  pub length-put_in :
      (i : ℕ) (xs ys : List A)
      → i ≤ length xs
      → length (take i xs ++ (ys ++ drop i xs)) ≡ length xs + length ys
  length-put_in i xs ys h = omega (
    arith,
    length-append (take i xs) (ys ++ drop i xs),
    length-append ys (drop i xs),
    length-take i xs,
    length-drop i xs,
  )

  -- A list without its entries from index `i` up to `j`.
  pub get_or-cut :
      (i j : ℕ) (xs : List A) (k : ℕ) (d : A)
      → i ≤ length xs
      → get_or (take i xs ++ drop j xs) k d
        ≡ (if ltb k i then get_or xs k d else get_or xs (j + (k - i)) d)
  get_or-cut i j xs k d h = ground (
    arith,
    get_or-append (take i xs) (drop j xs) k d,
    length-take i xs,
    get_or-take i xs k d,
    get_or-drop j xs (k - i) d,
  )

  pub length-cut :
      (i j : ℕ) (xs : List A)
      → i ≤ length xs
      → length (take i xs ++ drop j xs) ≡ i + (length xs - j)
  length-cut i j xs h =
      omega (arith, length-append (take i xs) (drop j xs), length-take i xs, length-drop j xs)

module _ {ℓ} {A : Type ℓ} where
  -- A list round one of its entries.
  pub split_at :
      (i : ℕ) (xs : List A) (d : A)
      → i < length xs
      → xs ≡ take i xs ++ (get_or xs i d ∷ drop (suc i) xs)
  split_at i [] d h = absurd (omega arith)
  split_at zero (x ∷ xs) d h = refl
  split_at (suc i) (x ∷ xs) d h = ap (◌∷◌ x) (split_at i xs d (omega arith))

  pub take-suc :
      (n : ℕ) (xs : List A) (d : A)
      → n < length xs
      → take (suc n) xs ≡ take n xs ++ (get_or xs n d ∷ [])
  take-suc n [] d h = absurd (omega arith)
  take-suc zero (x ∷ xs) d h = refl
  take-suc (suc n) (x ∷ xs) d h = ap (◌∷◌ x) (take-suc n xs d (omega arith))

  pub drop-suc :
      (n : ℕ) (xs : List A) (d : A) → n < length xs → drop n xs ≡ get_or xs n d ∷ drop (suc n) xs
  drop-suc n [] d h = absurd (omega arith)
  drop-suc zero (x ∷ xs) d h = refl
  drop-suc (suc n) (x ∷ xs) d h = drop-suc n xs d (omega arith)

  pub take_append : (xs ys : List A) → take (length xs) (xs ++ ys) ≡ xs
  take_append [] ys = refl
  take_append (x ∷ xs) ys = ap (◌∷◌ x) (take_append xs ys)

  pub drop_append : (xs ys : List A) → drop (length xs) (xs ++ ys) ≡ ys
  drop_append [] ys = refl
  drop_append (x ∷ xs) ys = drop_append xs ys

  pub take_all : (xs : List A) → take (length xs) xs ≡ xs
  take_all [] = refl
  take_all (x ∷ xs) = ap (◌∷◌ x) (take_all xs)

  pub drop_all : (xs : List A) → drop (length xs) xs ≡ []
  drop_all [] = refl
  drop_all (x ∷ xs) = drop_all xs
