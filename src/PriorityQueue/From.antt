-- ===== src/PriorityQueue/From.antt =====
-- `priority_queue_from`.
use libcdsa.Core.Growing.{Scaling, IsGrowing, IsAtLimit, IsAtLimit-along, min_capacity}
use libcdsa.Core.Cells.{occurrences, cells_from}
use libcdsa.Core.Comparison.{IsComparison}
use libcdsa.Base.{
  ℕ, ◌+◌, ◌^◌, ◌≤◌, ◌<◌, ◌≡◌, ◌⊎◌, inl, inr, sym, ap, ap₂, subst, ◌∙◌, arith, Bool, none, List, [],
  ◌∷◌, ◌++◌, map, length,
}
use libcdsa.Base.Int.{ℤ, pos}
use libcdsa.Core.{
  Pointer, Alloc, IsHonest, Event, Outcome, ok, err, memory_allocation, Error, Collection,
  IsFaithful, destructed, freed, struct_block, elements_block,
}
use libcdsa.PriorityQueue.{PriorityQueue}
use libcdsa.PriorityQueue.Refine.{IsValid, held}
use libcdsa.PriorityQueue.Create.{PriorityQueueOptions, Created, new, new_creates}
use libcdsa.PriorityQueue.Clone.{destroy}
use libcdsa.PriorityQueue.Bulk.{enqueue_all}
use libcdsa.PriorityQueue.Bulk.Fill.{EnqueuedAll, count, enqueue_all_refines}

module _ {Factor : Type 0} ⦃scaling : Scaling Factor⦄ where
  -- The guard stops the growth of the new array to a capacity.
  abbrev pub Outgrown : PriorityQueueOptions Factor → ℕ → Type 0
  Outgrown options capacity =
      (initial : ℕ) × (options.initial_capacity ≡ pos initial)
      × IsAtLimit options.growth_factor initial capacity

module _ {ℓ} {Factor : Type 0} {A : Type ℓ} ⦃pointer : Pointer A⦄ ⦃scaling : Scaling Factor⦄ where
  -- `priority_queue_from` from the answer of `priority_queue_enqueue_all` on.
  unfoldable pub filled :
      List (Event A)
      → PriorityQueue Factor A × Outcome (Unit {0}) × List (Event A)
      → Outcome (PriorityQueue Factor A) × List (Event A)
  filled events (queue, ok _, more) = (ok queue, events ++ more)
  filled events (queue, err e, more) = (err e, events ++ (more ++ destroy queue))

  unfoldable pub from_made :
      (A → A → ℤ)
      → Alloc A
      → Collection A
      → Outcome (PriorityQueue Factor A) × List (Event A)
      → Outcome (PriorityQueue Factor A) × List (Event A)
  from_made compare alloc collection (err e, events) = (err e, events)
  from_made compare alloc collection (ok queue, events) =
      filled events (enqueue_all compare alloc queue collection)

  unfoldable pub from :
      (A → A → ℤ)
      → Collection A
      → PriorityQueueOptions Factor
      → Bool
      → Alloc A
      → Outcome (PriorityQueue Factor A) × List (Event A)
  from compare collection options struct_alloc alloc =
      from_made compare alloc collection (new options struct_alloc alloc)

  -- How it ends: with the elements of the collection; as `priority_queue_new` fails; or with the new
  -- queue given back, and none of the elements destroyed.
  abbrev pub From :
      (A → A → ℤ)
      → Collection A
      → PriorityQueueOptions Factor
      → Bool
      → Alloc A
      → Outcome (PriorityQueue Factor A) × List (Event A)
      → Type ℓ
  From compare collection options struct_alloc alloc (ok queue, events) =
      IsValid compare queue
      × (xs : List A) × (collection.iterator ≡ ok xs)
      × (queue.size ≡ length xs)
      × ((test : A → Bool) → held queue test ≡ count test xs)
  From compare collection options struct_alloc alloc (err e, events) =
      Created options struct_alloc alloc (err e, events)
      ⊎ ((events ≡ freed elements_block ∷ freed struct_block ∷ [])
          × ((collection.iterator ≡ err e)
              ⊎ ((e ≡ memory_allocation)
                  × (Outgrown options collection.size ⊎ ((n : ℕ) × (alloc n ≡ none))))))

  fresh-IsValid :
      (compare : A → A → ℤ) (options : PriorityQueueOptions Factor) (initial : ℕ)
      {queue : PriorityQueue Factor A}
      → min_capacity ≤ initial
      → length queue.elements ≡ queue.capacity
      → queue.capacity ≡ initial
      → queue.size ≡ 0
      → IsValid compare queue
  fresh-IsValid compare options initial large storage asked empty = record {
    storage = storage;
    large = omega arith;
    size_in = omega arith;
    heap = λ k k0 kn. absurd (omega arith);
  }

  module _ {compare : A → A → ℤ} (order : IsComparison compare) (collection : Collection A)
      (options : PriorityQueueOptions Factor) (struct_alloc : Bool) (alloc : Alloc A) where
    unfilled :
        (fresh : PriorityQueue Factor A) (initial : ℕ) (e : Error)
        → options.initial_capacity ≡ pos initial
        → fresh.capacity ≡ initial
        → fresh.growth_factor ≡ options.growth_factor
        → fresh.size + collection.size ≡ collection.size
        → (collection.iterator ≡ err e)
          ⊎ ((e ≡ memory_allocation)
              × (IsAtLimit fresh.growth_factor fresh.capacity (fresh.size + collection.size)
                  ⊎ ((n : ℕ) × (alloc n ≡ none))))
        → (collection.iterator ≡ err e)
          ⊎ ((e ≡ memory_allocation)
              × (Outgrown options collection.size ⊎ ((n : ℕ) × (alloc n ≡ none))))
    unfilled fresh initial e given asked factor all (inl fails) = inl fails
    unfilled fresh initial e given asked factor all (inr (is, inr refused)) = inr (is, inr refused)
    unfilled fresh initial e given asked factor all (inr (is, inl limit)) =
        inr (is, inl (initial, given, IsAtLimit-along factor asked all limit))

    filled-From :
        (fresh : PriorityQueue Factor A)
        (r : PriorityQueue Factor A × Outcome (Unit {0}) × List (Event A))
        → (initial : ℕ) → options.initial_capacity ≡ pos initial
        → fresh.capacity ≡ initial
        → fresh.size ≡ 0
        → fresh.growth_factor ≡ options.growth_factor
        → EnqueuedAll compare alloc fresh collection r
        → From compare collection options struct_alloc alloc (filled [] r)
    unfolding filled destroy cells_from occurrences
    filled-From fresh (full, ok _, more) initial given asked empty factor
          (xs, yields, f, given_back) =
        (
          f.valid,
          xs,
          yields,
          f.longer ∙ omega arith,
          λ test.
              f.holds test
              ∙ ap (λ (n : ℕ). occurrences test fresh.elements n + count test xs) empty
              ∙ omega arith,
        )
    filled-From fresh (full, err e, more) initial given asked empty factor (same, quiet, why) =
        inr (
          ap₂ (λ (q : PriorityQueue Factor A) (es : List (Event A)). es ++ destroy q) same quiet
              ∙ ap
                  (λ (n : ℕ).
                    map (destructed fresh.destruct) (cells_from fresh.elements 0 n)
                    ++ (freed elements_block ∷ freed struct_block ∷ []))
                  empty,
          unfilled fresh initial e given asked factor (omega arith) why,
        )

    from_made-From :
        (honest : IsHonest alloc)
        → IsGrowing options.growth_factor
        → IsFaithful collection
        → collection.size < 2 ^ 31
        → (r : Outcome (PriorityQueue Factor A) × List (Event A))
        → Created options struct_alloc alloc r
        → From compare collection options struct_alloc alloc (from_made compare alloc collection r)
    unfolding from_made
    from_made-From honest growing faithful in_int (err e, events) created = inl created
    from_made-From honest growing faithful in_int (ok fresh, events)
          (initial, destruct, acceptable, f, quiet) =
        rw quiet (
          filled-From fresh _ initial acceptable.capacity_given f.asked f.empty f.factor (
            enqueue_all_refines order alloc collection honest
              (subst IsGrowing (sym f.factor) growing) faithful
              (fresh-IsValid compare options initial acceptable.large f.storage f.asked f.empty)
              (omega (arith, f.empty))))

    -- Where a block that is handed out has the size asked for, with a lawful comparison, a factor
    -- that makes capacities grow and a collection that announces as many elements as it yields, of
    -- a size that an int holds: priority_queue_from makes a valid queue of exactly the elements of
    -- the collection, or fails as priority_queue_new does, or fails as the iterator of the
    -- collection does, or because growth from the initial capacity comes to one below the size of
    -- the collection that the guard does not let grow, or the allocator refuses, and then has
    -- given back the array and the struct and destroyed no element.
    pub from_creates :
        IsHonest alloc
        → IsGrowing options.growth_factor
        → IsFaithful collection
        → collection.size < 2 ^ 31
        → From compare collection options struct_alloc alloc
            (from compare collection options struct_alloc alloc)
    unfolding from
    from_creates honest growing faithful in_int =
        from_made-From honest growing faithful in_int _
          (new_creates options struct_alloc alloc honest)
