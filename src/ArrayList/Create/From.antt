-- ===== src/ArrayList/Create/From.antt =====
-- `array_list_from`.
use mathlib.Core.List.{append-nil}
use libcdsa.Core.Growing.{Scaling, IsGrowing, IsBounded, IsAtLimit, IsAtLimit-along}
use libcdsa.Core.Cells.{cells_from}
use libcdsa.Base.{
  ℕ, ◌+◌, ◌^◌, ◌<◌, ◌≡◌, ◌⊎◌, inl, inr, refl, sym, ap, ap₂, subst, ◌∙◌, arith, Bool, List, [], ◌∷◌,
  ◌++◌, map, take, drop, length, some,
}
use libcdsa.Base.Int.{pos}
use libcdsa.Core.{
  Pointer, Event, Outcome, ok, err, memory_allocation, Error, Collection, IsFaithful, destructed,
  freed, struct_block, elements_block,
}
use libcdsa.ArrayList.{ArrayList, Memory}
use libcdsa.ArrayList.Inv.{IsValid, contents}
use libcdsa.ArrayList.Room.{IsSound, Refuses}
use libcdsa.ArrayList.Bulk.{add_all_last}
use libcdsa.ArrayList.Insert.{InsertedAll, add_all_inserts}
use libcdsa.ArrayList.Create.{ArrayListOptions, destroy, filled, from_made, from}
use libcdsa.ArrayList.Create.New.{Created, new_makes}

module _ {Factor : Type 0} ⦃scaling : Scaling Factor⦄ where
  -- The guard stops the growth of the new array to a capacity.
  abbrev pub Outgrown : ArrayListOptions Factor → ℕ → Type 0
  Outgrown options capacity =
      (initial : ℕ) × (options.initial_capacity ≡ pos initial)
      × IsAtLimit options.growth_factor initial capacity

module _ {Factor : Type 0} {A : Type 0} ⦃pointer : Pointer A⦄ ⦃scaling : Scaling Factor⦄ where
  -- Why the new list cannot be filled.
  abbrev pub Unfilled : ArrayListOptions Factor → Memory A → Collection A → Error → Type 0
  Unfilled options memory collection e =
      (collection.iterator ≡ err e)
      ⊎ ((e ≡ memory_allocation) × (Outgrown options collection.size ⊎ Refuses memory))

  -- How it ends: with the elements of the collection; as `array_list_new` fails; or with the new
  -- list given back, and none of the elements destroyed.
  abbrev pub From :
      ArrayListOptions Factor
      → Bool
      → Memory A
      → Collection A
      → Outcome (ArrayList Factor A) × List (Event A)
      → Type 0
  From options struct_alloc memory collection (ok list, events) =
      IsValid list
      × (collection.iterator ≡ ok (contents list))
      × (list.growth_factor ≡ options.growth_factor)
  From options struct_alloc memory collection (err e, events) =
      Created options struct_alloc memory (err e, events)
      ⊎ ((events ≡ freed elements_block ∷ freed struct_block ∷ [])
          × Unfilled options memory collection e)

  module _ (options : ArrayListOptions Factor) (struct_alloc : Bool) (memory : Memory A)
      (collection : Collection A) where
    destroy-empty :
        (list : ArrayList Factor A)
        → list.size ≡ 0
        → destroy list ≡ freed elements_block ∷ freed struct_block ∷ []
    unfolding destroy cells_from
    destroy-empty list empty =
        ap
          (λ (n : ℕ).
            map (destructed list.destruct) (cells_from list.elements 0 n)
            ++ (freed elements_block ∷ freed struct_block ∷ []))
          empty

    inserted_alone :
        (list after : ArrayList Factor A) (xs : List A)
        → list.size ≡ 0
        → contents after ≡ take list.size (contents list) ++ (xs ++ drop list.size (contents list))
        → xs ≡ contents after
    unfolding cells_from
    inserted_alone list after xs empty e = sym (
        e
        ∙ ap (λ (n : ℕ). let c = cells_from list.elements 0 n in take n c ++ (xs ++ drop n c)) empty
        ∙ append-nil xs)

    unfilled :
        (list : ArrayList Factor A) (initial n : ℕ)
        → options.initial_capacity ≡ pos initial
        → list.capacity ≡ initial
        → list.growth_factor ≡ options.growth_factor
        → list.size + n ≡ collection.size
        → IsAtLimit list.growth_factor list.capacity (list.size + n) ⊎ Refuses memory
        → Outgrown options collection.size ⊎ Refuses memory
    unfilled list initial n given asked factor all (inr refused) = inr refused
    unfilled list initial n given asked factor all (inl limit) =
        inl (initial, given, IsAtLimit-along factor asked all limit)

    filled-From :
        (list : ArrayList Factor A) (initial : ℕ) (o : Outcome (List A))
        → collection.iterator ≡ o
        → IsFaithful collection
        → options.initial_capacity ≡ pos initial
        → list.capacity ≡ initial
        → list.size ≡ 0
        → list.growth_factor ≡ options.growth_factor
        → (r : ArrayList Factor A × Outcome (Unit {0}) × List (Event A))
        → InsertedAll memory list (some list.size) o r
        → From options struct_alloc memory collection (filled r [])
    unfolding filled
    filled-From list initial (ok xs) yields faithful given asked empty factor (after, ok _, more)
          (_, c, now, free) =
        (c.valid, yields ∙ ap ok (inserted_alone list after xs empty now), c.same_factor ∙ factor)
    filled-From list initial (ok xs) yields faithful given asked empty factor (after, err e, more)
          (same, quiet, inl (_, far)) =
        absurd (omega arith)
    filled-From list initial (ok xs) yields faithful given asked empty factor (after, err e, more)
          (same, quiet, inr (is, _, why)) =
        inr (
          ap₂ (λ (es : List (Event A)) (l : ArrayList Factor A). es ++ destroy l) quiet same
              ∙ destroy-empty list empty,
          inr (
            is,
            unfilled list initial (length xs) given asked factor (omega (arith, faithful xs yields))
                why,
          ),
        )
    filled-From list initial (err e) fails faithful given asked empty factor r (inl (is, far)) =
        absurd (omega arith)
    filled-From list initial (err e) fails faithful given asked empty factor r (inr (is, _)) =
        rw is (inr (destroy-empty list empty, inl fails))

    from_made-From :
        IsSound memory
        → IsGrowing options.growth_factor
        → IsBounded options.growth_factor
        → IsFaithful collection
        → collection.size < 2 ^ 31
        → (made : Outcome (ArrayList Factor A) × List (Event A))
        → Created options struct_alloc memory made
        → From options struct_alloc memory collection (from_made memory collection made)
    unfolding from_made add_all_last
    from_made-From sound growing bounded faithful in_int (err e, events) created = inl created
    from_made-From sound growing bounded faithful in_int (ok list, events)
          (initial, destruct, a, f, quiet) =
        rw quiet (
          filled-From list initial collection.iterator refl faithful a.capacity_given f.asked
            f.empty f.factor _
            (add_all_inserts memory sound list f.valid (subst IsGrowing (sym f.factor) growing)
              (subst IsBounded (sym f.factor) bounded) (pos list.size) collection faithful
              (omega (arith, f.empty))))

    -- Where a block that is handed out has the size asked for and memory_realloc keeps the cells
    -- that both blocks have: with a growth factor that makes capacities grow and leaves them
    -- within the greatest capacity, and a collection that announces as many elements as it yields,
    -- of a size that an int holds, array_list_from makes a valid list of the elements of the
    -- collection, in order, or fails as array_list_new does, or fails as the iterator of the
    -- collection does, or because growth from the initial capacity comes to one below the size of
    -- the collection that the guard does not let grow, or the allocator refuses, and then has
    -- given back the array and the struct and destroyed no element.
    pub from_fills_list :
        IsSound memory
        → IsGrowing options.growth_factor
        → IsBounded options.growth_factor
        → IsFaithful collection
        → collection.size < 2 ^ 31
        → From options struct_alloc memory collection (from options struct_alloc memory collection)
    unfolding from
    from_fills_list sound growing bounded faithful in_int =
        from_made-From sound growing bounded faithful in_int _
          (new_makes options struct_alloc memory sound)
