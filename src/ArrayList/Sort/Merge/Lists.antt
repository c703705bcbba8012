-- ===== src/ArrayList/Sort/Merge/Lists.antt =====
-- The merging of two lists.
use libcdsa.Core.Cells.{one_if}
use libcdsa.Core.Comparison.{Below, IsComparison, is_positive, Below-of_above}
use libcdsa.Base.{
  ℕ, zero, suc, ◌+◌, ◌<◌, ◌≡◌, sym, ap, subst, arith, inl, inr, Bool-cases, Bool, true, false, List,
  [], ◌∷◌, length, get_or,
}
use libcdsa.Base.Int.{ℤ}

module _ {A : Type 0} where
  abbrev pub All : (A → Type 0) → List A → Type 0
  All P [] = Unit {0}
  All P (x ∷ xs) = P x × All P xs

  -- How many elements pass a test.
  abbrev pub tally : (A → Bool) → List A → ℕ
  tally test [] = 0
  tally test (x ∷ xs) = one_if (test x) + tally test xs

  pub All-get_or :
      (P : A → Type 0) (xs : List A) (k : ℕ) (d : A) → All P xs → k < length xs → P (get_or xs k d)
  All-get_or P [] k d all h = absurd (omega arith)
  All-get_or P (x ∷ xs) zero d (p, ps) h = p
  All-get_or P (x ∷ xs) (suc k) d (p, ps) h = All-get_or P xs k d ps (omega arith)

  All-map : (P Q : A → Type 0) (xs : List A) → ((x : A) → P x → Q x) → All P xs → All Q xs
  All-map P Q [] f all = tt
  All-map P Q (x ∷ xs) f (p, ps) = (f x p, All-map P Q xs f ps)

module _ {A : Type 0} (compare : A → A → ℤ) where
  abbrev pub merged : List A → List A → List A
  merged [] right = right
  merged (x ∷ left) [] = x ∷ left
  merged (x ∷ left) (y ∷ right) = elim (is_positive (compare x y)) [
    | true ↦ y ∷ merged (x ∷ left) right
    | false ↦ x ∷ merged left (y ∷ right)
  ]

  -- In order: no element ranks above a later one.
  abbrev pub IsOrdered : List A → Type 0
  IsOrdered [] = Unit {0}
  IsOrdered (x ∷ xs) = All (Below compare x) xs × IsOrdered xs

  pub merged_right :
      (x : A) (xs : List A) (y : A) (ys : List A)
      → is_positive (compare x y) ≡ true
      → merged (x ∷ xs) (y ∷ ys) ≡ y ∷ merged (x ∷ xs) ys
  merged_right x xs y ys e =
      ap
        (λ (b : Bool). elim b as (λ _. List A) [
          | true ↦ y ∷ merged (x ∷ xs) ys
          | false ↦ x ∷ merged xs (y ∷ ys)
        ])
        e

  pub merged_left :
      (x : A) (xs : List A) (y : A) (ys : List A)
      → is_positive (compare x y) ≡ false
      → merged (x ∷ xs) (y ∷ ys) ≡ x ∷ merged xs (y ∷ ys)
  merged_left x xs y ys e =
      ap
        (λ (b : Bool). elim b as (λ _. List A) [
          | true ↦ y ∷ merged (x ∷ xs) ys
          | false ↦ x ∷ merged xs (y ∷ ys)
        ])
        e

  -- What holds of both heads put first holds of the merged list.
  merged_cases :
      (P : List A → Type 0) (x : A) (xs : List A) (y : A) (ys : List A)
      → (is_positive (compare x y) ≡ true → P (y ∷ merged (x ∷ xs) ys))
      → (is_positive (compare x y) ≡ false → P (x ∷ merged xs (y ∷ ys)))
      → P (merged (x ∷ xs) (y ∷ ys))
  merged_cases P x xs y ys right left = elim (Bool-cases (is_positive (compare x y))) [
    | inl e ↦ subst P (sym (merged_right x xs y ys e)) (right e)
    | inr e ↦ subst P (sym (merged_left x xs y ys e)) (left e)
  ]

  pub length-merged : (xs ys : List A) → length (merged xs ys) ≡ length xs + length ys
  length-merged [] ys = omega arith
  length-merged (x ∷ xs) [] = omega arith
  length-merged (x ∷ xs) (y ∷ ys) =
      merged_cases (λ zs. length zs ≡ length (x ∷ xs) + length (y ∷ ys)) x xs y ys
        (λ e. omega (arith, length-merged (x ∷ xs) ys))
        (λ e. omega (arith, length-merged xs (y ∷ ys)))

  pub tally-merged :
      (test : A → Bool) (xs ys : List A) → tally test (merged xs ys) ≡ tally test xs + tally test ys
  tally-merged test [] ys = omega arith
  tally-merged test (x ∷ xs) [] = omega arith
  tally-merged test (x ∷ xs) (y ∷ ys) =
      merged_cases (λ zs. tally test zs ≡ tally test (x ∷ xs) + tally test (y ∷ ys)) x xs y ys
        (λ e. omega (arith, tally-merged test (x ∷ xs) ys))
        (λ e. omega (arith, tally-merged test xs (y ∷ ys)))

  pub All-merged : (P : A → Type 0) (xs ys : List A) → All P xs → All P ys → All P (merged xs ys)
  All-merged P [] ys p q = q
  All-merged P (x ∷ xs) [] p q = p
  All-merged P (x ∷ xs) (y ∷ ys) (px, p) (qy, q) =
      merged_cases (All P) x xs y ys (λ e. (qy, All-merged P (x ∷ xs) ys (px, p) q))
        (λ e. (px, All-merged P xs (y ∷ ys) p (qy, q)))

module _ {A : Type 0} {compare : A → A → ℤ} (order : IsComparison compare) where
  pub merged-IsOrdered :
      (xs ys : List A)
      → IsOrdered compare xs
      → IsOrdered compare ys
      → IsOrdered compare (merged compare xs ys)
  merged-IsOrdered [] ys p q = q
  merged-IsOrdered (x ∷ xs) [] p q = p
  merged-IsOrdered (x ∷ xs) (y ∷ ys) (px, p) (qy, q) =
      merged_cases compare (IsOrdered compare) x xs y ys
        (λ e.
          let yx = Below-of_above order x y e in
          let rest =
            All-map (Below compare x) (Below compare y) xs (λ z xz. order.carried y x z yx xz) px in
          (
            All-merged compare (Below compare y) (x ∷ xs) ys (yx, rest) qy,
            merged-IsOrdered (x ∷ xs) ys (px, p) q,
          ))
        (λ e.
          let rest =
            All-map (Below compare y) (Below compare x) ys (λ z yz. order.carried x y z e yz) qy in
          (
            All-merged compare (Below compare x) xs (y ∷ ys) px (e, rest),
            merged-IsOrdered xs (y ∷ ys) p (qy, q),
          ))
