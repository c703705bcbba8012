-- ===== src/PriorityQueue/Clone.antt =====
-- `priority_queue_clone` and `priority_queue_destroy`.
use libcdsa.Core.Cells.{get_or-cells_from, cell, cells_from, length-cells_from}
use libcdsa.Core.Growing.{Scaling, max_capacity}
use libcdsa.Core.Comparison.{IsComparison, Below-along}
use libcdsa.Base.{
  ℕ, ◌+◌, ◌≤◌, ◌<◌, ◌≡◌, ◌⊎◌, inl, inr, refl, ap, ◌∙◌, arith, Bool, true, false, none, some, List,
  [], ◌∷◌, ◌++◌, map, length, write_from, length-write_from, get_or-write_from,
}
use libcdsa.Base.Int.{ℤ, pos}
use libcdsa.Core.{
  Pointer, Alloc, IsHonest, Event, Outcome, ok, err, memory_allocation, noop_destruct, destructed,
  freed, struct_block, elements_block,
}
use libcdsa.PriorityQueue.{PriorityQueue}
use libcdsa.PriorityQueue.Order.{parent}
use libcdsa.PriorityQueue.Refine.{IsValid}
use libcdsa.PriorityQueue.Create.{PriorityQueueOptions, IsAcceptable, Created, new, new_creates}

module _ {ℓ} {Factor : Type 0} {A : Type ℓ} ⦃pointer : Pointer A⦄ ⦃scaling : Scaling Factor⦄ where
  unfoldable pub destroy : PriorityQueue Factor A → List (Event A)
  destroy queue =
      map (destructed queue.destruct) (cells_from queue.elements 0 queue.size)
      ++ freed elements_block ∷ freed struct_block ∷ []

  -- The options that `priority_queue_clone` passes on.
  abbrev pub clone_options : PriorityQueue Factor A → PriorityQueueOptions Factor
  clone_options queue = record {
    initial_capacity = pos queue.capacity;
    growth_factor = queue.growth_factor;
    destruct = some noop_destruct;
    compare = true;
    to_string = true;
    memory_alloc = true;
    memory_dealloc = true;
  }

  -- `priority_queue_clone` once `priority_queue_new` is done.
  unfoldable pub copy_into :
      PriorityQueue Factor A
      → Outcome (PriorityQueue Factor A) × List (Event A)
      → Outcome (PriorityQueue Factor A) × List (Event A)
  copy_into queue (err e, events) = (err e, events)
  copy_into queue (ok fresh, events) = (
    ok (record fresh {
      elements = write_from fresh.elements 0 (cells_from queue.elements 0 queue.size);
      size = queue.size;
    }),
    events,
  )

  unfoldable pub clone :
      Bool → Alloc A → PriorityQueue Factor A → Outcome (PriorityQueue Factor A) × List (Event A)
  unfolding copy_into
  clone struct_alloc alloc queue = copy_into queue (new (clone_options queue) struct_alloc alloc)

  -- How `priority_queue_clone` ends.
  abbrev pub Cloned :
      (A → A → ℤ)
      → Bool
      → Alloc A
      → PriorityQueue Factor A
      → Outcome (PriorityQueue Factor A) × List (Event A)
      → Type ℓ
  Cloned compare struct_alloc alloc queue (ok copy, events) =
      IsValid compare copy
      × (copy.size ≡ queue.size)
      × ((k : ℕ) → k < queue.size → cell copy.elements k ≡ cell queue.elements k)
      × (copy.capacity ≡ queue.capacity)
      × (copy.destruct ≡ noop_destruct)
      × (events ≡ [])
  Cloned compare struct_alloc alloc queue (err e, events) =
      (e ≡ memory_allocation) × ((struct_alloc ≡ false) ⊎ ((n : ℕ) × (alloc n ≡ none)))

  module _ {compare : A → A → ℤ} (order : IsComparison compare) (struct_alloc : Bool)
      (alloc : Alloc A) {queue : PriorityQueue Factor A} (v : IsValid compare queue)
      (small : queue.capacity ≤ max_capacity)
      (grows : scaling.too_small queue.growth_factor ≡ false) where
    clone_options-IsAcceptable : IsAcceptable (clone_options queue) queue.capacity noop_destruct
    clone_options-IsAcceptable = record {
      capacity_given = refl;
      large = v.large;
      small = small;
      grows = grows;
      destruct_given = refl;
      compare_given = refl;
      to_string_given = refl;
      memory_alloc_given = refl;
      memory_dealloc_given = refl;
    }

    same_cells :
        (block : List A)
        → queue.size ≤ length block
        → (k : ℕ) → k < queue.size
        → cell (write_from block 0 (cells_from queue.elements 0 queue.size)) k
          ≡ cell queue.elements k
    same_cells block whole k h =
        let all = cells_from queue.elements 0 queue.size in
        let size = length-cells_from queue.elements 0 queue.size in
        ap (cell (write_from block 0 all)) {y = 0 + k} (omega arith)
        ∙ get_or-write_from block 0 all k pointer.null (omega arith) (omega arith)
        ∙ get_or-cells_from queue.elements 0 queue.size k h
        ∙ ap (cell queue.elements) (omega arith)

    copy_into-Cloned :
        (made : Outcome (PriorityQueue Factor A) × List (Event A))
        → Created (clone_options queue) struct_alloc alloc made
        → Cloned compare struct_alloc alloc queue (copy_into queue made)
    unfolding copy_into
    copy_into-Cloned (ok fresh, events) (n, d, a, f, none_yet) =
        let capacity : fresh.capacity ≡ queue.capacity =
          f.asked ∙ ground (arith, a.capacity_given) in
        let copied = same_cells fresh.elements (omega (arith, f.storage, capacity, v.size_in)) in
        (
          record {
            storage =
                length-write_from fresh.elements 0 (cells_from queue.elements 0 queue.size)
                ∙ f.storage;
            large = omega (arith, capacity, v.large);
            size_in = omega (arith, capacity, v.size_in);
            heap = λ k k0 kn.
                Below-along order (copied k kn) (copied (parent k) (omega arith)) (v.heap k k0 kn);
          },
          refl,
          copied,
          capacity,
          f.destructs ∙ ground (arith, a.destruct_given),
          none_yet,
        )
    copy_into-Cloned (err e, events) (inl (illegal, _, never)) =
        absurd (never _ _ clone_options-IsAcceptable)
    copy_into-Cloned (err e, events) (inr (inl (memory, _, refused, _))) = (memory, inl refused)
    copy_into-Cloned (err e, events) (inr (inr (memory, _, _, refused))) = (memory, inr refused)

    -- Where a block that is handed out has the size asked for: with a lawful comparison,
    -- priority_queue_clone of a valid queue whose capacity and factor priority_queue_new accepts
    -- makes a valid queue with the same cells in use and the same capacity, whose destructor does
    -- nothing; it fails only with MEMORY_ALLOCATION_ERROR where memory is refused.
    pub clone_copies :
        IsHonest alloc → Cloned compare struct_alloc alloc queue (clone struct_alloc alloc queue)
    unfolding clone
    clone_copies honest =
        copy_into-Cloned _ (new_creates (clone_options queue) struct_alloc alloc honest)
