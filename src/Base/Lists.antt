-- ===== src/Base/Lists.antt =====
-- C arrays as lists with native indices: a read out of range gives the default, a write out of
-- range changes nothing. The bounds theorems of each component show that neither happens.
use Prim.Native.Nat.{ℕ, zero, suc, ◌+◌, ◌-◌, ◌<◌, ◌≤◌}
use mathlib.Core.Path.{◌≡◌, refl, ap, ap₂, ◌∙◌}
use mathlib.Core.Logic.{◌≢◌}
use mathlib.Core.List.{List, [], ◌∷◌, ◌++◌, reverse, reverse-append}
use native.Mathlib.Omega.{arith}
use libcdsa.Base.Booleans.{◌==◌, ltb, if◌then◌else◌}

module _ {ℓ} {A : Type ℓ} where
  abbrev pub length : List A → ℕ
  length [] = 0
  length (x ∷ xs) = suc (length xs)

  abbrev pub get_or : List A → ℕ → A → A
  get_or [] i d = d
  get_or (x ∷ xs) zero d = x
  get_or (x ∷ xs) (suc i) d = get_or xs i d

  abbrev pub set : List A → ℕ → A → List A
  set [] i v = []
  set (x ∷ xs) zero v = v ∷ xs
  set (x ∷ xs) (suc i) v = x ∷ set xs i v

  abbrev pub take : ℕ → List A → List A
  take zero xs = []
  take (suc n) [] = []
  take (suc n) (x ∷ xs) = x ∷ take n xs

  abbrev pub drop : ℕ → List A → List A
  drop zero xs = xs
  drop (suc n) [] = []
  drop (suc n) (x ∷ xs) = drop n xs

  abbrev pub replicate : ℕ → A → List A
  replicate zero a = []
  replicate (suc n) a = a ∷ replicate n a

  pub length-append : (xs ys : List A) → length (xs ++ ys) ≡ length xs + length ys
  length-append [] ys = omega arith
  length-append (x ∷ xs) ys = omega (arith, length-append xs ys)

  pub length-set : (xs : List A) (i : ℕ) (v : A) → length (set xs i v) ≡ length xs
  length-set [] i v = refl
  length-set (x ∷ xs) zero v = refl
  length-set (x ∷ xs) (suc i) v = ap suc (length-set xs i v)

  pub length-replicate : (n : ℕ) (a : A) → length (replicate n a) ≡ n
  length-replicate zero a = refl
  length-replicate (suc n) a = ap suc (length-replicate n a)

  pub get_or-set_self :
      (xs : List A) (i : ℕ) (v d : A) → i < length xs → get_or (set xs i v) i d ≡ v
  get_or-set_self [] i v d h = absurd (omega arith)
  get_or-set_self (x ∷ xs) zero v d h = refl
  get_or-set_self (x ∷ xs) (suc i) v d h = get_or-set_self xs i v d (omega arith)

  pub get_or-set_ne :
      (xs : List A) (i j : ℕ) (v d : A) → i ≢ j → get_or (set xs i v) j d ≡ get_or xs j d
  get_or-set_ne [] i j v d h = refl
  get_or-set_ne (x ∷ xs) zero zero v d h = absurd (h refl)
  get_or-set_ne (x ∷ xs) zero (suc j) v d h = refl
  get_or-set_ne (x ∷ xs) (suc i) zero v d h = refl
  get_or-set_ne (x ∷ xs) (suc i) (suc j) v d h = get_or-set_ne xs i j v d (λ e. h (ap suc e))

  -- The two in one, to rewrite by.
  pub get_or-set :
      (xs : List A) (i j : ℕ) (v d : A)
      → i < length xs
      → get_or (set xs i v) j d ≡ (if i == j then v else get_or xs j d)
  get_or-set [] i j v d h = absurd (omega arith)
  get_or-set (x ∷ xs) zero zero v d h = refl
  get_or-set (x ∷ xs) zero (suc j) v d h = ground arith
  get_or-set (x ∷ xs) (suc i) zero v d h = ground arith
  get_or-set (x ∷ xs) (suc i) (suc j) v d h = ground (arith, get_or-set xs i j v d)

  pub length-take : (n : ℕ) (xs : List A) → n ≤ length xs → length (take n xs) ≡ n
  length-take zero xs h = refl
  length-take (suc n) [] h = absurd (omega arith)
  length-take (suc n) (x ∷ xs) h = ap suc (length-take n xs (omega arith))

  pub get_or-take :
      (n : ℕ) (xs : List A) (i : ℕ) (d : A) → i < n → get_or (take n xs) i d ≡ get_or xs i d
  get_or-take zero xs i d h = absurd (omega arith)
  get_or-take (suc n) [] i d h = refl
  get_or-take (suc n) (x ∷ xs) zero d h = refl
  get_or-take (suc n) (x ∷ xs) (suc i) d h = get_or-take n xs i d (omega arith)

  pub get_or-append :
      (xs ys : List A) (i : ℕ) (d : A)
      → get_or (xs ++ ys) i d
        ≡ (if ltb i (length xs) then get_or xs i d else get_or ys (i - length xs) d)
  get_or-append [] ys i d = ground arith
  get_or-append (x ∷ xs) ys zero d = ground arith
  get_or-append (x ∷ xs) ys (suc i) d = ground (arith, get_or-append xs ys i d)

  -- Two lists of one length with the same entries in range are equal.
  pub get_or_ext :
      (d : A) (xs ys : List A)
      → length xs ≡ length ys
      → ((i : ℕ) → i < length xs → get_or xs i d ≡ get_or ys i d)
      → xs ≡ ys
  get_or_ext d [] [] e h = refl
  get_or_ext d [] (y ∷ ys) e h = absurd (omega arith)
  get_or_ext d (x ∷ xs) [] e h = absurd (omega arith)
  get_or_ext d (x ∷ xs) (y ∷ ys) e h =
      ap₂ ◌∷◌ (h 0 (omega arith))
        (get_or_ext d xs ys (omega arith) (λ i p. h (suc i) (omega arith)))

  pub length-reverse : (xs : List A) → length (reverse xs) ≡ length xs
  length-reverse [] = refl
  length-reverse (x ∷ xs) =
      rw (reverse-append (x ∷ []) xs, length-append) (omega (arith, length-reverse xs))

  pub get_or-reverse :
      (xs : List A) (i : ℕ) (d : A)
      → i < length xs
      → get_or (reverse xs) i d ≡ get_or xs (length xs - 1 - i) d
  get_or-reverse [] i d h = absurd (omega arith)
  get_or-reverse (x ∷ xs) i d h = rw (reverse-append (x ∷ []) xs) (
      ground
        (arith, get_or-append (reverse xs) (x ∷ []) i d, length-reverse xs, get_or-reverse xs i d))

module _ {ℓ} {A : Type ℓ} where
  -- The writes `block[i] = x; block[i + 1] = y; …` of a loop.
  unfoldable pub write_from : List A → ℕ → List A → List A
  write_from block i [] = block
  write_from block i (x ∷ xs) = write_from (set block i x) (i + 1) xs

  pub length-write_from :
      (block : List A) (i : ℕ) (xs : List A) → length (write_from block i xs) ≡ length block
  unfolding write_from
  length-write_from block i [] = refl
  length-write_from block i (x ∷ xs) =
      length-write_from (set block i x) (i + 1) xs ∙ length-set block i x

  -- A loop leaves the cells before its first write.
  pub get_or-write_from_before :
      (block : List A) (i : ℕ) (xs : List A) (j : ℕ) (d : A)
      → j < i
      → get_or (write_from block i xs) j d ≡ get_or block j d
  unfolding write_from
  get_or-write_from_before block i [] j d h = refl
  get_or-write_from_before block i (x ∷ xs) j d h =
      get_or-write_from_before (set block i x) (i + 1) xs j d (omega arith)
      ∙ get_or-set_ne block i j x d (omega arith)

  -- Its writes are the cells from there on.
  pub get_or-write_from :
      (block : List A) (i : ℕ) (xs : List A) (j : ℕ) (d : A)
      → i + length xs ≤ length block
      → j < length xs
      → get_or (write_from block i xs) (i + j) d ≡ get_or xs j d
  unfolding write_from
  get_or-write_from block i [] j d h p = absurd (omega arith)
  get_or-write_from block i (x ∷ xs) zero d h p =
      ap (λ k. get_or (write_from (set block i x) (i + 1) xs) k d) (omega arith)
      ∙ get_or-write_from_before (set block i x) (i + 1) xs i d (omega arith)
      ∙ get_or-set_self block i x d (omega arith)
  get_or-write_from block i (x ∷ xs) (suc j) d h p =
      ap (λ k. get_or (write_from (set block i x) (i + 1) xs) k d) (omega arith)
      ∙ get_or-write_from (set block i x) (i + 1) xs j d (omega (arith, length-set block i x))
          (omega arith)
