-- ===== src/Base/Search.antt =====
-- Searches of a list by a Boolean test, which the searches of the containers are compared with.
use mathlib.Core.Path.{◌≡◌, refl, ap}
use mathlib.Core.Logic.{inl, inr}
use mathlib.Core.Bool.{Bool, true, false, ◌&&◌, ◌||◌}
use mathlib.Core.List.{List, [], ◌∷◌, ◌++◌}
use native.Mathlib.Omega.{arith}
use libcdsa.Base.Booleans.{◌==◌, if◌then◌else◌, Bool-cases}
use libcdsa.Base.Lists.{length}

module _ {ℓ} {A : Type ℓ} where
  -- Some element passes the test, or all do.
  abbrev pub any : (A → Bool) → List A → Bool
  any p [] = false
  any p (x ∷ xs) = p x || any p xs

  abbrev pub all : (A → Bool) → List A → Bool
  all p [] = true
  all p (x ∷ xs) = p x && all p xs

  -- Two lists of one length that agree place by place.
  abbrev pub pairwise : (A → A → Bool) → List A → List A → Bool
  pairwise equals [] [] = true
  pairwise equals [] (y ∷ ys) = false
  pairwise equals (x ∷ xs) [] = false
  pairwise equals (x ∷ xs) (y ∷ ys) = equals x y && pairwise equals xs ys

  pub pairwise-length :
      (equals : A → A → Bool) (xs ys : List A)
      → (length xs == length ys) ≡ false
      → pairwise equals xs ys ≡ false
  pairwise-length equals [] [] h = cc
  pairwise-length equals [] (y ∷ ys) h = refl
  pairwise-length equals (x ∷ xs) [] h = refl
  pairwise-length equals (x ∷ xs) (y ∷ ys) h =
      rw (pairwise-length equals xs ys (ground arith)) (ground arith)

  abbrev pub filter : (A → Bool) → List A → List A
  filter p [] = []
  filter p (x ∷ xs) = if p x then x ∷ filter p xs else filter p xs

  pub filter-append :
      (p : A → Bool) (xs ys : List A) → filter p (xs ++ ys) ≡ filter p xs ++ filter p ys
  filter-append p [] ys = refl
  filter-append p (x ∷ xs) ys = elim (Bool-cases (p x)) [
    | inl e ↦ rw e (ap (◌∷◌ x) (filter-append p xs ys))
    | inr e ↦ rw e (filter-append p xs ys)
  ]
