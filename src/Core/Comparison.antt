-- ===== src/Core/Comparison.antt =====
-- C comparisons: functions into `int` of which the sign counts.
use libcdsa.Base.{zero, suc, ◌≡◌, refl, sym, ap₂, ◌∙◌, Bool, true, false, Bool-cases, inl, inr}
use libcdsa.Base.Int.{ℤ, pos, negsuc}

-- `n > 0` and `n < 0`
abbrev pub is_positive : ℤ → Bool
is_positive (pos zero) = false
is_positive (pos (suc n)) = true
is_positive (negsuc n) = false

abbrev pub is_negative : ℤ → Bool
is_negative (pos n) = false
is_negative (negsuc n) = true

-- `n == 0`
abbrev pub is_zero : ℤ → Bool
is_zero (pos zero) = true
is_zero (pos (suc n)) = false
is_zero (negsuc n) = false

module _ {ℓ} {A : Type ℓ} (compare : A → A → ℤ) where
  -- `a` does not rank above `b`.
  abbrev pub Below : A → A → Type 0
  Below a b = is_positive (compare a b) ≡ false

  -- What the documentation asks of a comparison: turning the arguments round turns the sign round,
  -- and "not above" carries over.
  pub record IsComparison : Type ℓ where
    pub turned : (a b : A) → is_negative (compare a b) ≡ is_positive (compare b a)
    pub carried : (a b c : A) → Below a b → Below b c → Below a c

positive-negative : (n : ℤ) → is_positive n ≡ true → is_negative n ≡ false
positive-negative (pos n) h = refl
positive-negative (negsuc n) h = cc

negative-positive : (n : ℤ) → is_negative n ≡ true → is_positive n ≡ false
negative-positive (pos n) h = cc
negative-positive (negsuc n) h = refl

module _ {ℓ} {A : Type ℓ} {compare : A → A → ℤ} (order : IsComparison compare) where
  pub Below-of_above : (a b : A) → is_positive (compare a b) ≡ true → Below compare b a
  Below-of_above a b h = sym (order.turned a b) ∙ positive-negative (compare a b) h

  pub Below-of_negative : (a b : A) → is_negative (compare a b) ≡ true → Below compare a b
  Below-of_negative a b h = negative-positive (compare a b) h

  pub Below-of_not_negative : (a b : A) → is_negative (compare a b) ≡ false → Below compare b a
  Below-of_not_negative a b h = sym (order.turned a b) ∙ h

  pub Below-refl : (a : A) → Below compare a a
  Below-refl a = elim (Bool-cases (is_positive (compare a a))) [
    | inl h ↦ Below-of_above a a h
    | inr h ↦ h
  ]

  pub Below-along : {a b c d : A} → a ≡ c → b ≡ d → Below compare c d → Below compare a b
  Below-along e f h = ap₂ (λ x y. is_positive (compare x y)) e f ∙ h
