-- ===== src/Deque/Bulk/Fill.antt =====
-- Filling a deque from a collection: `deque_add_all_first`, `deque_add_all_last`, `deque_clone`.
use mathlib.Core.Path.{fun_ext}
use mathlib.Core.List.{append_assoc, append-nil, reverse-append}
use libcdsa.Base.{
  ◌^◌, ℕ, ◌+◌, ◌≤◌, ◌<◌, ◌≡◌, ◌⊎◌, inl, inr, refl, sym, ap, ◌∙◌, subst, List, [], ◌∷◌, ◌++◌,
  reverse, arith, length, Bool, true, false, none, if◌then◌else◌, le→leb,
}
use libcdsa.Core.{
  IsFaithful, Pointer, Alloc, IsHonest, Event, Outcome, ok, err, memory_allocation, Collection,
  outgrown,
}
use libcdsa.Deque.{Deque, max_capacity, ensure_capacity, push_first, push_last, add_first, add_last}
use libcdsa.Deque.Inv.{IsValid, contents}
use libcdsa.Deque.Ends.{
  push_first-IsValid, push_last-IsValid, contents-push_first, contents-push_last,
}
use libcdsa.Deque.Capacity.{Ensured, ensure_capacity-Ensured}
use libcdsa.Deque.Refine.{at_front, at_back}
use libcdsa.Deque.Bulk.{add_each, fill, add_all_first, add_all_last}

-- The result of a method that adds where there is room: no allocation, and one more element, which
-- `join` places.
pub record IsPushed {ℓ} {A : Type ℓ} ⦃pointer : Pointer A⦄ (join : A → List A → List A)
    (deque : Deque A) (x : A) (after : Deque A) : Type ℓ where
  pub valid : IsValid after
  pub holds : contents after ≡ join x (contents deque)
  pub longer : after.size ≡ deque.size + 1
  pub same_capacity : after.capacity ≡ deque.capacity
  pub same_destruct : after.destruct ≡ deque.destruct

abbrev pub Adder {ℓ} : Type ℓ → Type ℓ
Adder A = Deque A → A → Deque A × Outcome (Unit {0}) × List (Event A)

-- A method that adds so wherever there is room.
abbrev pub Pushes {ℓ} :
    {A : Type ℓ} ⦃pointer : Pointer A⦄ → (A → List A → List A) → Adder A → Type ℓ
Pushes {A = A} join add =
    (deque : Deque A) (x : A)
    → IsValid deque
    → deque.size < deque.capacity
    → (after : Deque A) × (add deque x ≡ (after, ok tt, [])) × IsPushed join deque x after

module _ {ℓ} {A : Type ℓ} ⦃pointer : Pointer A⦄ where
  ensure_capacity-roomy :
      (alloc : Alloc A) (deque : Deque A) (capacity : ℕ)
      → capacity ≤ deque.capacity
      → ensure_capacity alloc deque capacity ≡ (true, deque, [])
  unfolding ensure_capacity
  ensure_capacity-roomy alloc deque capacity h = rw (le→leb capacity deque.capacity h)

  add_first-Pushes : (alloc : Alloc A) → Pushes at_front (add_first alloc)
  unfolding add_first push_first
  add_first-Pushes alloc deque x v room = (
    push_first deque x,
    rw (ensure_capacity-roomy alloc deque (deque.size + 1) (omega arith)),
    record {
      valid = push_first-IsValid x v room;
      holds = contents-push_first x v room;
      longer = refl;
      same_capacity = refl;
      same_destruct = refl;
    },
  )

  pub add_last-Pushes : (alloc : Alloc A) → Pushes at_back (add_last alloc)
  unfolding add_last push_last
  add_last-Pushes alloc deque x v room = (
    push_last deque x,
    rw (ensure_capacity-roomy alloc deque (deque.size + 1) (omega arith)),
    record {
      valid = push_last-IsValid x v room;
      holds = contents-push_last x v room;
      longer = refl;
      same_capacity = refl;
      same_destruct = refl;
    },
  )

  -- The list after joining the elements one by one.
  pub join_each : (A → List A → List A) → List A → List A → List A
  join_each join held [] = held
  join_each join held (x ∷ xs) = join_each join (join x held) xs

  pub join_each-at_back : (held xs : List A) → join_each at_back held xs ≡ held ++ xs
  unfolding join_each
  join_each-at_back held [] = sym (append-nil held)
  join_each-at_back held (x ∷ xs) =
      join_each-at_back (held ++ x ∷ []) xs ∙ append_assoc held (x ∷ []) xs

  join_each-at_front : (held xs : List A) → join_each at_front held xs ≡ reverse xs ++ held
  unfolding join_each
  join_each-at_front held [] = refl
  join_each-at_front held (x ∷ xs) =
      join_each-at_front (x ∷ held) xs
      ∙ sym (append_assoc (reverse xs) (x ∷ []) held)
      ∙ ap (λ ys. ys ++ held) (sym (reverse-append (x ∷ []) xs))

  -- What the loop over the collection leaves, with room for all of it.
  pub record IsFilled (held : List A) (deque after : Deque A) : Type ℓ where
    pub valid : IsValid after
    pub holds : contents after ≡ held
    pub same_capacity : after.capacity ≡ deque.capacity
    pub same_destruct : after.destruct ≡ deque.destruct

  pub add_each-IsFilled :
      (join : A → List A → List A) (add : Adder A)
      → Pushes join add
      → (deque : Deque A) (xs : List A) → IsValid deque
      → deque.size + length xs ≤ deque.capacity
      → (after : Deque A) × (add_each add deque xs ≡ (after, ok tt, []))
        × IsFilled (join_each join (contents deque) xs) deque after
  unfolding add_each join_each
  add_each-IsFilled join add pushes deque [] v room =
      (deque, refl, record { valid = v; holds = refl; same_capacity = refl; same_destruct = refl })
  add_each-IsFilled join add pushes deque (x ∷ xs) v room =
      let (one, e, p) = pushes deque x v (omega arith) in
      let (after, es, f) =
        add_each-IsFilled join add pushes one xs p.valid
          (omega (arith, p.longer, p.same_capacity)) in
      (
        after,
        rw (e, es),
        record {
          valid = f.valid;
          holds = f.holds ∙ ap (λ held. join_each join held xs) p.holds;
          same_capacity = f.same_capacity ∙ p.same_capacity;
          same_destruct = f.same_destruct ∙ p.same_destruct;
        },
      )

-- How a method that adds a whole collection ends. It adds all of it, or nothing: the error is that of
-- the collection's iterator, or MEMORY_ALLOCATION_ERROR past the limit or when the allocator refuses.
abbrev pub AddedAll {ℓ} :
    {A : Type ℓ} ⦃pointer : Pointer A⦄
    → (List A → List A)
    → Alloc A
    → Deque A
    → Collection A
    → Deque A × Outcome (Unit {0}) × List (Event A)
    → Type ℓ
AddedAll {A = A} joined alloc deque collection (after, ok _, events) =
    (xs : List A) × (collection.iterator ≡ ok xs)
    × IsFilled (joined xs) after after
    × (after.destruct ≡ deque.destruct)
    × (events ≡ outgrown deque.capacity (deque.size + collection.size))
AddedAll joined alloc deque collection (after, err e, events) =
    (after ≡ deque)
    × (events ≡ [])
    × ((collection.iterator ≡ err e)
        ⊎ ((e ≡ memory_allocation)
            × ((max_capacity < deque.size + collection.size) ⊎ ((n : ℕ) × (alloc n ≡ none)))))

module _ {ℓ} {A : Type ℓ} ⦃pointer : Pointer A⦄ (alloc : Alloc A) {deque : Deque A}
    (collection : Collection A) (honest : IsHonest alloc) (faithful : IsFaithful collection)
    (v : IsValid deque) where
  module _ (join : A → List A → List A) (add : Adder A) (pushes : Pushes join add) where
    fill_branch :
        (xs : List A)
        → collection.iterator ≡ ok xs
        → (r : Bool × Deque A × List (Event A))
        → Ensured alloc deque (deque.size + collection.size) r
        → let (fits, roomy, events) = r in
          let (all, rs, more) = add_each add roomy xs in
          AddedAll
            (join_each join (contents deque))
            alloc
            deque
            collection
            (if fits then (all, rs, events ++ more) else (deque, err memory_allocation, events))
    fill_branch xs yields (true, roomy, events) (e, given_back) =
        let (after, added, f) =
          add_each-IsFilled join add pushes roomy xs e.valid
            (omega (arith, e.room, e.same_size, faithful xs yields)) in
        rw added (
          xs,
          yields,
          record {
            valid = f.valid;
            holds = f.holds ∙ ap (λ held. join_each join held xs) e.same_contents;
            same_capacity = refl;
            same_destruct = refl;
          },
          f.same_destruct ∙ e.same_destruct,
          rw append-nil given_back,
        )
    fill_branch xs yields (false, kept, events) (same, none_freed, why) =
        (refl, none_freed, inr (refl, why))

    fill_lem :
        (i : Outcome (List A))
        → collection.iterator ≡ i
        → AddedAll
            (join_each join (contents deque))
            alloc
            deque
            collection
            (fill add alloc deque collection.size i)
    unfolding fill
    fill_lem (err e) failed = (refl, refl, inl failed)
    fill_lem (ok xs) yields =
        fill_branch xs yields _
          (ensure_capacity-Ensured alloc honest v (deque.size + collection.size))

  -- Where a block that is handed out has the size asked for: where the sum of the sizes is an int
  -- and the collection announces as many elements as it yields, deque_add_all_last on a valid
  -- deque appends all elements of a collection in their order, or adds none: the error is that of
  -- the iterator of the collection, or MEMORY_ALLOCATION_ERROR past the limit or when the
  -- allocator refuses.
  pub add_all_last_refines :
      deque.size + collection.size < 2 ^ 31
      → AddedAll
          (λ xs. contents deque ++ xs)
          alloc
          deque
          collection
          (add_all_last alloc deque collection)
  unfolding add_all_last
  add_all_last_refines in_int =
      subst (λ joined. AddedAll joined alloc deque collection (add_all_last alloc deque collection))
        (fun_ext (join_each-at_back (contents deque)))
        (fill_lem at_back (add_last alloc) (add_last-Pushes alloc) collection.iterator refl)

  -- Where a block that is handed out has the size asked for: where the sum of the sizes is an int
  -- and the collection announces as many elements as it yields, deque_add_all_first on a valid
  -- deque puts all elements of a collection in front, the last one foremost, or adds none, with
  -- the same errors.
  pub add_all_first_refines :
      deque.size + collection.size < 2 ^ 31
      → AddedAll
          (λ xs. reverse xs ++ contents deque)
          alloc
          deque
          collection
          (add_all_first alloc deque collection)
  unfolding add_all_first
  add_all_first_refines in_int =
      subst
        (λ joined. AddedAll joined alloc deque collection (add_all_first alloc deque collection))
        (fun_ext (join_each-at_front (contents deque)))
        (fill_lem at_front (add_first alloc) (add_first-Pushes alloc) collection.iterator refl)
