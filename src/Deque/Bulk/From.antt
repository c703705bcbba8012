-- ===== src/Deque/Bulk/From.antt =====
-- `deque_from`, and `deque_destroy` of what it gives up.
use libcdsa.Base.{
  ◌^◌, ℕ, ◌<◌, ◌≡◌, ◌⊎◌, inl, inr, sym, ap, ap₂, ◌∙◌, arith, Bool, none, List, [], ◌∷◌, ◌++◌, map,
  length, ◌+◌, Bool-cases, leb, if◌then◌else◌,
}
use libcdsa.Core.{
  outgrown, Pointer, Alloc, IsHonest, Event, Outcome, ok, err, memory_allocation, Collection,
  IsFaithful, destructed, freed, struct_block, elements_block,
}
use libcdsa.Deque.{Deque, DequeOptions, max_capacity}
use libcdsa.Deque.Inv.{IsValid, contents, length-elements_from}
use libcdsa.Deque.Create.{Created, new-Created}
use libcdsa.Deque.Bulk.{destroy, from_filled, from_made, from}
use libcdsa.Deque.Bulk.Fill.{AddedAll, add_all_last_refines}

module _ {ℓ} {A : Type ℓ} ⦃pointer : Pointer A⦄ where
  -- How `deque_from` ends: with the elements of the collection; as `deque_new` fails; or, because the
  -- collection could not be added, with the new deque destroyed and none of its elements touched.
  abbrev pub From :
      Collection A → DequeOptions → Bool → Alloc A → Outcome (Deque A) × List (Event A) → Type ℓ
  From collection options struct_alloc alloc (ok deque, events) =
      IsValid deque
      × (collection.iterator ≡ ok (contents deque))
      × ((events ≡ []) ⊎ (events ≡ freed elements_block ∷ []))
  From collection options struct_alloc alloc (err e, events) =
      Created options struct_alloc alloc (err e, events)
      ⊎ ((events ≡ freed elements_block ∷ freed struct_block ∷ [])
          × ((collection.iterator ≡ err e)
              ⊎ ((e ≡ memory_allocation)
                  × ((max_capacity < collection.size) ⊎ ((n : ℕ) × (alloc n ≡ none))))))

  module _ (collection : Collection A) (options : DequeOptions) (struct_alloc : Bool)
      (alloc : Alloc A) where
    destroy-empty :
        (deque : Deque A)
        → contents deque ≡ []
        → destroy deque ≡ freed elements_block ∷ freed struct_block ∷ []
    unfolding destroy
    destroy-empty deque empty =
        ap
          (λ xs.
            map (destructed deque.destruct) xs ++ freed elements_block ∷ freed struct_block ∷ [])
          empty

    none_in : (deque : Deque A) → contents deque ≡ [] → deque.size ≡ 0
    none_in deque empty = sym (length-elements_from deque 0 deque.size) ∙ ap length empty

    outgrown-cases :
        (room needed : ℕ) (events : List (Event A))
        → events ≡ outgrown room needed
        → (events ≡ []) ⊎ (events ≡ freed elements_block ∷ [])
    outgrown-cases room needed events e = elim (Bool-cases (leb needed room)) [
      | inl enough ↦ inl (e ∙ ap (λ b. if b then [] else (freed elements_block ∷ [])) enough)
      | inr short ↦ inr (e ∙ ap (λ b. if b then [] else (freed elements_block ∷ [])) short)
    ]

    from_filled-From :
        (fresh : Deque A) (r : Deque A × Outcome (Unit {0}) × List (Event A))
        → contents fresh ≡ []
        → AddedAll (λ xs. contents fresh ++ xs) alloc fresh collection r
        → From collection options struct_alloc alloc (from_filled [] r)
    unfolding from_filled
    from_filled-From fresh (full, ok _, more) empty (xs, yields, filled, _, given_back) = (
      filled.valid,
      yields ∙ ap ok (sym (filled.holds ∙ ap (λ held. held ++ xs) empty)),
      outgrown-cases fresh.capacity (fresh.size + collection.size) more given_back,
    )
    from_filled-From fresh (full, err e, more) empty (same, none_yet, why) = inr (
      ap₂ ◌++◌ none_yet (destroy-empty full (ap contents same ∙ empty)),
      elim why [
        | inl fails ↦ inl fails
        | inr (memory, inl limit) ↦ inr (memory, inl (omega (arith, none_in fresh empty)))
        | inr (memory, inr refused) ↦ inr (memory, inr refused)
      ],
    )

    from_made-From :
        (made : Outcome (Deque A) × List (Event A))
        → IsHonest alloc
        → IsFaithful collection
        → collection.size < 2 ^ 31
        → Created options struct_alloc alloc made
        → From collection options struct_alloc alloc (from_made alloc collection made)
    unfolding from_made
    from_made-From (err e, events) honest faithful in_int failed = inl failed
    from_made-From (ok fresh, events) honest faithful in_int (n, d, a, f, none_yet) = rw none_yet (
        from_filled-From fresh _ f.empty (
          add_all_last_refines alloc collection honest faithful f.valid
            (omega (arith, none_in fresh f.empty))))

    -- Where a block that is handed out has the size asked for: deque_from, given a collection
    -- whose size is an int and that announces as many elements as it yields, makes a valid deque
    -- of the elements of the collection, in order; or it fails as deque_new does; or, where the
    -- iterator of the collection or a request for memory fails or the limit is passed, it gives
    -- the array and the struct of the new deque back and passes no element to the destructor.
    pub from_fills :
        IsHonest alloc
        → IsFaithful collection
        → collection.size < 2 ^ 31
        → From collection options struct_alloc alloc (from collection options struct_alloc alloc)
    unfolding from
    from_fills honest faithful in_int =
        from_made-From _ honest faithful in_int (new-Created options struct_alloc alloc honest)
