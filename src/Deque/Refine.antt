-- ===== src/Deque/Refine.antt =====
-- The methods at the two ends against the list of the elements, on every branch.
use libcdsa.Base.{
  ℕ, ◌+◌, ◌<◌, ◌≡◌, ◌⊎◌, refl, sym, ap, ◌∙◌, List, [], ◌∷◌, ◌++◌, arith, Bool, true, false, none,
  if◌then◌else◌, inl, inr, Bool-cases, ◌==◌,
}
use libcdsa.Core.{
  Pointer, Alloc, IsHonest, Event, Outcome, ok, err, memory_allocation, no_such_element, destructed,
  outgrown, bump,
}
use libcdsa.Deque.{
  Deque, max_capacity, elements_from, push_first, push_last, add_first, add_last, get_first,
  get_last, remove_first, remove_last,
}
use libcdsa.Deque.Inv.{IsValid, contents}
use libcdsa.Deque.Ends.{
  push_first-IsValid, push_last-IsValid, contents-push_first, contents-push_last,
}
use libcdsa.Deque.Capacity.{IsRoomier, Ensured, ensure_capacity-Ensured}
use libcdsa.Deque.Removal.{
  without_first, without_last, first-element, last-element, without_first-IsValid,
  without_last-IsValid, contents-without_first, contents-without_last,
}

-- `after` is a valid deque of the elements `xs` that keeps the destructor of `deque`, and has
-- counted one modification.
pub record Became {ℓ} {A : Type ℓ} ⦃pointer : Pointer A⦄ (deque : Deque A) (xs : List A)
    (after : Deque A) : Type ℓ where
  pub valid : IsValid after
  pub holds : contents after ≡ xs
  pub same_destruct : after.destruct ≡ deque.destruct
  pub counted : after.modification_count ≡ bump deque.modification_count

-- How a method that adds ends: with the elements `xs`, the old array given back where it was
-- outgrown; or with MEMORY_ALLOCATION_ERROR and the deque as it was, which happens only past the
-- limit on the capacity or when the allocator refuses. No element is destructed.
abbrev pub Added {ℓ} :
    {A : Type ℓ} ⦃pointer : Pointer A⦄
    → Alloc A
    → Deque A
    → List A
    → Deque A × Outcome (Unit {0}) × List (Event A)
    → Type ℓ
Added alloc deque xs (after, ok _, events) =
    Became deque xs after × (events ≡ outgrown deque.capacity (deque.size + 1))
Added alloc deque xs (after, err e, events) =
    (e ≡ memory_allocation)
    × (after ≡ deque)
    × (events ≡ [])
    × ((max_capacity < deque.size + 1) ⊎ ((n : ℕ) × (alloc n ≡ none)))

module _ {ℓ} {A : Type ℓ} ⦃pointer : Pointer A⦄ (alloc : Alloc A) {deque : Deque A} (x : A)
    (honest : IsHonest alloc) (v : IsValid deque) where
  push_first-Became :
      {roomy : Deque A}
      → IsRoomier deque (deque.size + 1) roomy
      → Became deque (x ∷ contents deque) (push_first roomy x)
  unfolding push_first
  push_first-Became {roomy} r =
      let room : roomy.size < roomy.capacity = omega (arith, r.room, r.same_size) in
      record {
        valid = push_first-IsValid x r.valid room;
        holds = contents-push_first x r.valid room ∙ ap (◌∷◌ x) r.same_contents;
        same_destruct = r.same_destruct;
        counted = ap bump r.same_count;
      }

  push_last-Became :
      {roomy : Deque A}
      → IsRoomier deque (deque.size + 1) roomy
      → Became deque (contents deque ++ x ∷ []) (push_last roomy x)
  unfolding push_last
  push_last-Became {roomy} r =
      let room : roomy.size < roomy.capacity = omega (arith, r.room, r.same_size) in
      record {
        valid = push_last-IsValid x r.valid room;
        holds = contents-push_last x r.valid room ∙ ap (λ xs. xs ++ x ∷ []) r.same_contents;
        same_destruct = r.same_destruct;
        counted = ap bump r.same_count;
      }

  add_branch :
      (push : Deque A → A → Deque A) (xs : List A)
      → ((roomy : Deque A)
          → IsRoomier deque (deque.size + 1) roomy
          → Became deque xs (push roomy x))
      → (r : Bool × Deque A × List (Event A)) → Ensured alloc deque (deque.size + 1) r
      → let (fits, roomy, events) = r in
        Added alloc deque xs
          (if fits then (push roomy x, ok tt, events) else (deque, err memory_allocation, events))
  add_branch push xs pushed (true, roomy, events) (e, given_back) = (pushed roomy e, given_back)
  add_branch push xs pushed (false, kept, events) (same, none_freed, why) =
      (refl, refl, none_freed, why)

  -- Where a block that is handed out has the size asked for: deque_add_first on a valid deque
  -- leaves a valid deque with the element in front, growing the array where it is full and giving
  -- the old one back exactly then; or it reports MEMORY_ALLOCATION_ERROR with the deque as it was,
  -- and only past the limit on the capacity or when the allocator refuses.
  pub add_first_refines : Added alloc deque (x ∷ contents deque) (add_first alloc deque x)
  unfolding add_first
  add_first_refines =
      add_branch push_first _ (λ roomy r. push_first-Became r) _
        (ensure_capacity-Ensured alloc honest v (deque.size + 1))

  -- Where a block that is handed out has the size asked for: deque_add_last on a valid deque
  -- leaves a valid deque with the element behind the others, or reports MEMORY_ALLOCATION_ERROR in
  -- the same two cases with the deque as it was.
  pub add_last_refines : Added alloc deque (contents deque ++ x ∷ []) (add_last alloc deque x)
  unfolding add_last
  add_last_refines =
      add_branch push_last _ (λ roomy r. push_last-Became r) _
        (ensure_capacity-Ensured alloc honest v (deque.size + 1))

-- How a method that removes ends, where `split` says how the elements are split: the element goes
-- through the destructor once, and is returned; an empty deque is left alone.
abbrev pub Taken {ℓ} :
    {A : Type ℓ} ⦃pointer : Pointer A⦄
    → (A → List A → List A)
    → Deque A
    → Deque A × Outcome A × List (Event A)
    → Type ℓ
Taken join deque (after, ok x, events) =
    (contents deque ≡ join x (contents after))
    × Became deque (contents after) after
    × (events ≡ destructed deque.destruct x ∷ [])
Taken join deque (after, err e, events) =
    (contents deque ≡ []) × (e ≡ no_such_element) × (after ≡ deque) × (events ≡ [])

-- How a method that reads an end answers.
abbrev pub Seen {ℓ} :
    {A : Type ℓ} ⦃pointer : Pointer A⦄ → (A → List A → List A) → Deque A → Outcome A → Type ℓ
Seen {A = A} join deque (ok x) = (xs : List A) × (contents deque ≡ join x xs)
Seen join deque (err e) = (contents deque ≡ []) × (e ≡ no_such_element)

abbrev pub at_front {ℓ} : {A : Type ℓ} → A → List A → List A
at_front x xs = x ∷ xs

abbrev pub at_back {ℓ} : {A : Type ℓ} → A → List A → List A
at_back x xs = xs ++ x ∷ []

module _ {ℓ} {A : Type ℓ} ⦃pointer : Pointer A⦄ {deque : Deque A} (v : IsValid deque) where
  contents-empty : deque.size ≡ 0 → contents deque ≡ []
  unfolding elements_from
  contents-empty e = ap (elements_from deque 0) e

  -- Deque_remove_first on a valid deque removes the front element, passes it to the destructor
  -- once and returns it; on an empty deque it reports NO_SUCH_ELEMENT_ERROR and changes nothing.
  pub remove_first_refines : Taken at_front deque (remove_first deque)
  unfolding remove_first
  remove_first_refines = elim (Bool-cases (deque.size == 0)) [
    | inl empty ↦ rw (empty, remove_first) (contents-empty (ground arith), refl, refl, refl)
    | inr filled ↦
        let some_in : 0 < deque.size = ground arith in
        rw (filled, remove_first)
          (
            contents-without_first v some_in
                ∙ ap (λ x. x ∷ contents (without_first deque)) (sym (first-element v some_in)),
            record {
              valid = without_first-IsValid v some_in;
              holds = refl;
              same_destruct = refl;
              counted = refl;
            },
            refl,
          )
  ]

  -- Deque_remove_last on a valid deque removes the back element, passes it to the destructor once
  -- and returns it; on an empty deque it reports NO_SUCH_ELEMENT_ERROR and changes nothing.
  pub remove_last_refines : Taken at_back deque (remove_last deque)
  unfolding remove_last
  remove_last_refines = elim (Bool-cases (deque.size == 0)) [
    | inl empty ↦ rw (empty, remove_last) (contents-empty (ground arith), refl, refl, refl)
    | inr filled ↦
        let some_in : 0 < deque.size = ground arith in
        rw (filled, remove_last)
          (
            contents-without_last v some_in
                ∙ ap (λ x. contents (without_last deque) ++ x ∷ []) (sym (last-element v some_in)),
            record {
              valid = without_last-IsValid v some_in;
              holds = refl;
              same_destruct = refl;
              counted = refl;
            },
            refl,
          )
  ]

  -- Deque_get_first and deque_get_last return the front and the back element of a valid deque, and
  -- report NO_SUCH_ELEMENT_ERROR on an empty one.
  pub get_ends : Seen at_front deque (get_first deque) × Seen at_back deque (get_last deque)
  unfolding get_first get_last
  get_ends = elim (Bool-cases (deque.size == 0)) [
    | inl empty ↦
        let none_in = contents-empty (ground arith) in
        rw (empty, get_first, get_last) ((none_in, refl), (none_in, refl))
    | inr filled ↦
        let some_in : 0 < deque.size = ground arith in
        rw (filled, get_first, get_last)
          (
            (
              contents (without_first deque),
              contents-without_first v some_in
                  ∙ ap (λ x. x ∷ contents (without_first deque)) (sym (first-element v some_in)),
            ),
            (
              contents (without_last deque),
              contents-without_last v some_in
                  ∙ ap (λ x. contents (without_last deque) ++ x ∷ [])
                      (sym (last-element v some_in)),
            ),
          )
  ]
