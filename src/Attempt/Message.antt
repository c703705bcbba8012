-- ===== src/Attempt/Message.antt =====
-- The text of an error: `error_description` finds in the buffer what `set_error` wrote there.
use libcdsa.Base.{
  ℕ, zero, suc, ◌+◌, ◌-◌, ◌≤◌, ◌<◌, ◌≡◌, refl, arith, true, Bool-cases, inl, inr, Option, none,
  some, List, [], ◌∷◌, ◌++◌, ◌&&◌, ltb, ◌==◌, length, take, length-append, not,
}
use libcdsa.Base.Search.{all}
use libcdsa.Attempt.{
  max_message_length, colon, space, location_text, format_error, description_loop,
  error_description,
}

-- A name without a colon, as all predefined errors have.
abbrev pub IsPlain : List ℕ → Type 0
IsPlain name = all (λ c. not (c == colon)) name ≡ true

description_loop_skips :
    (message name text : List ℕ)
    → IsPlain name
    → description_loop message (name ++ colon ∷ space ∷ text) ≡ text
unfolding description_loop
description_loop_skips message [] text plain = refl
description_loop_skips message (c ∷ cs) text plain = elim (Bool-cases (c == colon)) [
  | inl e ↦ absurd (ground arith)
  | inr e ↦ rw e (description_loop_skips message cs text (ground arith))
]

length-take_le : (n : ℕ) (xs : List ℕ) → length (take n xs) ≤ n
length-take_le zero xs = omega arith
length-take_le (suc n) [] = omega arith
length-take_le (suc n) (x ∷ xs) = omega (arith, length-take_le n xs)

-- How the formatting ends: with strings that fit the buffer with their final zeros, of which the
-- first gives the text back; or with a failed assertion, because they do not fit.
abbrev pub Formatted : List ℕ → List ℕ → List ℕ → Option (List ℕ × List ℕ) → Type 0
Formatted name text function (some (message, location)) =
    (message ≡ name ++ colon ∷ space ∷ text)
    × (error_description message ≡ text)
    × (length message + 1 + length location + 1 ≤ max_message_length)
Formatted name text function none =
    max_message_length ≤ length name + 2 + length text + length (location_text function)

-- For an error whose name has no colon, error_description gives the text back that set_error
-- formatted, and the message and the location fit the buffer; an assertion on the length fails
-- only where the two do not.
pub format_error-Formatted :
    (name text function : List ℕ)
    → IsPlain name
    → Formatted name text function (format_error name text function)
unfolding error_description format_error
format_error-Formatted name text function plain =
    let message = name ++ colon ∷ space ∷ text in
    let location = location_text function in
    let size = length-append name (colon ∷ space ∷ text) in
    let some_in : 0 < length location = omega arith in
    elim (Bool-cases (
      ltb (length name + 2) max_message_length
      && ltb (length message) max_message_length
      && ltb (length message + length location) max_message_length)) [
        | inl fits ↦
            let small : length message + length location < max_message_length = ground arith in
            rw fits (
              refl,
              description_loop_skips message name text plain,
              omega (
                arith,
                small,
                some_in,
                length-take_le (max_message_length - (length message + 1) - 1) location,
              ),
            )
        | inr long ↦ rw long (ground (arith, size))
      ]
