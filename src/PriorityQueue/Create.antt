-- ===== src/PriorityQueue/Create.antt =====
-- `priority_queue_new`, `priority_queue_clone` and `priority_queue_destroy`.
use libcdsa.Core.Growing.{Scaling, min_capacity, max_capacity}
use libcdsa.Base.{
  ℕ, ◌≤◌, ◌≡◌, ◌⊎◌, inl, inr, refl, arith, Bool, true, false, not, ◌||◌, Bool-cases, Option, none,
  some, List, [], ◌∷◌, length, ltb, if◌then◌else◌,
}
use libcdsa.Base.Int.{ℤ, pos, negsuc, to_ℕ?}
use libcdsa.Core.{
  Pointer, Alloc, IsHonest, Event, Outcome, ok, err, illegal_argument, memory_allocation,
  Destructor, freed, struct_block,
}
use libcdsa.PriorityQueue.{PriorityQueue}

-- `PriorityQueueOptions`; of the callbacks that are only stored, whether they are non-null.
pub record PriorityQueueOptions (Factor : Type 0) : Type 0 where
  pub initial_capacity : ℤ
  pub growth_factor : Factor
  pub destruct : Option Destructor
  pub compare : Bool
  pub to_string : Bool
  pub memory_alloc : Bool
  pub memory_dealloc : Bool

module _ {Factor : Type 0} ⦃scaling : Scaling Factor⦄ where
  -- The test of `priority_queue_new` on its options, but for the pointer to the destructor.
  unfoldable pub is_rejected : PriorityQueueOptions Factor → ℕ → Bool
  is_rejected options capacity =
      ltb capacity min_capacity
      || ltb max_capacity capacity
      || scaling.too_small options.growth_factor
      || not options.compare
      || not options.to_string
      || not options.memory_alloc
      || not options.memory_dealloc

  -- The options that the documentation of `PriorityQueueOptions` asks for.
  pub record IsAcceptable (options : PriorityQueueOptions Factor) (initial : ℕ)
      (destruct : Destructor) : Type 0 where
    pub capacity_given : options.initial_capacity ≡ pos initial
    pub large : min_capacity ≤ initial
    pub small : initial ≤ max_capacity
    pub grows : scaling.too_small options.growth_factor ≡ false
    pub destruct_given : options.destruct ≡ some destruct
    pub compare_given : options.compare ≡ true
    pub to_string_given : options.to_string ≡ true
    pub memory_alloc_given : options.memory_alloc ≡ true
    pub memory_dealloc_given : options.memory_dealloc ≡ true

  -- The constructor accepts the options.
  abbrev pub Accepts : PriorityQueueOptions Factor → Type 0
  Accepts options = (initial : ℕ) × (destruct : Destructor) × IsAcceptable options initial destruct

  accepted :
      (options : PriorityQueueOptions Factor) (initial : ℕ) (destruct : Destructor)
      → options.initial_capacity ≡ pos initial
      → options.destruct ≡ some destruct
      → is_rejected options initial ≡ false
      → IsAcceptable options initial destruct
  unfolding is_rejected
  accepted options initial destruct e d r = ground arith

  not-IsAcceptable :
      (options : PriorityQueueOptions Factor) (n m : ℕ) (destruct : Destructor)
      → options.initial_capacity ≡ pos n
      → is_rejected options n ≡ true
      → ¬ IsAcceptable options m destruct
  unfolding is_rejected
  not-IsAcceptable options n m destruct e bad a = ground (
    arith, a.large, a.small, a.grows, a.capacity_given, a.compare_given, a.to_string_given,
    a.memory_alloc_given, a.memory_dealloc_given,
  )

module _ {ℓ} {Factor : Type 0} {A : Type ℓ} ⦃pointer : Pointer A⦄ ⦃scaling : Scaling Factor⦄ where
  -- `priority_queue_new` from the allocation of the array on.
  unfoldable pub make :
      ℕ → Factor → Destructor → Option (List A) → Outcome (PriorityQueue Factor A) × List (Event A)
  make capacity factor destruct none = (err memory_allocation, freed struct_block ∷ [])
  make capacity factor destruct (some elements) = (
    ok (record {
      elements = elements;
      size = 0;
      capacity = capacity;
      growth_factor = factor;
      destruct = destruct;
      modification_count = 0;
    }),
    [],
  )

  -- `priority_queue_new` on the fields of its options: `none` is null for the destructor, and a
  -- negative number for the capacity.
  unfoldable pub create :
      PriorityQueueOptions Factor
      → Bool
      → Alloc A
      → Option Destructor
      → Option ℕ
      → Outcome (PriorityQueue Factor A) × List (Event A)
  create options struct_alloc alloc none initial = (err illegal_argument, [])
  create options struct_alloc alloc (some destruct) none = (err illegal_argument, [])
  create options struct_alloc alloc (some destruct) (some initial) =
      if is_rejected options initial
      then (err illegal_argument, [])
      else if not struct_alloc
      then (err memory_allocation, [])
      else make initial options.growth_factor destruct (alloc initial)

  -- `struct_alloc` is whether the allocation of the struct succeeds.
  unfoldable pub new :
      PriorityQueueOptions Factor
      → Bool
      → Alloc A
      → Outcome (PriorityQueue Factor A) × List (Event A)
  unfolding create make
  new options struct_alloc alloc =
      create options struct_alloc alloc options.destruct (to_ℕ? options.initial_capacity)

  -- A new queue: empty, with an array of the size asked for.
  pub record IsFresh (options : PriorityQueueOptions Factor) (initial : ℕ) (destruct : Destructor)
      (queue : PriorityQueue Factor A) : Type ℓ where
    pub storage : length queue.elements ≡ queue.capacity
    pub asked : queue.capacity ≡ initial
    pub empty : queue.size ≡ 0
    pub factor : queue.growth_factor ≡ options.growth_factor
    pub destructs : queue.destruct ≡ destruct

  abbrev pub Created :
      PriorityQueueOptions Factor
      → Bool
      → Alloc A
      → Outcome (PriorityQueue Factor A) × List (Event A)
      → Type ℓ
  Created options struct_alloc alloc (ok queue, events) =
      (initial : ℕ) × (destruct : Destructor) × IsAcceptable options initial destruct
      × IsFresh options initial destruct queue
      × (events ≡ [])
  Created options struct_alloc alloc (err e, events) =
      ((e ≡ illegal_argument)
        × (events ≡ [])
        × ((initial : ℕ) (destruct : Destructor) → ¬ IsAcceptable options initial destruct))
      ⊎ ((e ≡ memory_allocation) × Accepts options × (struct_alloc ≡ false) × (events ≡ []))
      ⊎ ((e ≡ memory_allocation)
          × Accepts options
          × (events ≡ freed struct_block ∷ [])
          × ((n : ℕ) × (alloc n ≡ none)))

  module _ (options : PriorityQueueOptions Factor) (struct_alloc : Bool) (alloc : Alloc A)
      (honest : IsHonest alloc) where
    make-Created :
        (initial : ℕ) (destruct : Destructor)
        → IsAcceptable options initial destruct
        → (o : Option (List A)) → alloc initial ≡ o
        → Created options struct_alloc alloc (make initial options.growth_factor destruct o)
    unfolding make
    make-Created initial destruct a none refused =
        inr (inr (refl, (initial, destruct, a), refl, (_, refused)))
    make-Created initial destruct a (some block) granted = (
      initial,
      destruct,
      a,
      record {
        storage = honest _ block granted;
        asked = refl;
        empty = refl;
        factor = refl;
        destructs = refl;
      },
      refl,
    )

    create-Created :
        (d : Option Destructor) (c : ℤ)
        → options.destruct ≡ d
        → options.initial_capacity ≡ c
        → Created options struct_alloc alloc (create options struct_alloc alloc d (to_ℕ? c))
    unfolding create make
    create-Created none c de ce = inl (refl, refl, λ n d a. cc (a.destruct_given))
    create-Created (some d) (negsuc c) de ce = inl (refl, refl, λ n d' a. cc (a.capacity_given))
    create-Created (some d) (pos n) de ce = elim (Bool-cases (is_rejected options n)) [
      | inl bad ↦ rw bad (inl (refl, refl, λ m d' a. not-IsAcceptable options n m d' ce bad a))
      | inr good ↦ elim (Bool-cases struct_alloc) [
        | inr refused ↦
            rw (good, refused)
              (inr (inl (refl, (n, d, accepted options n d ce de good), refl, refl)))
        | inl granted ↦
            rw (good, granted)
              (rw granted at (make-Created n d (accepted options n d ce de good) (alloc n) refl))
      ]
    ]

    -- Where a block that is handed out has the size asked for: priority_queue_new makes an empty
    -- queue with an array of the capacity asked for from acceptable options, reports
    -- ILLEGAL_ARGUMENT_ERROR exactly for others, and MEMORY_ALLOCATION_ERROR, with the struct
    -- given back, where memory is refused.
    pub new_creates : Created options struct_alloc alloc (new options struct_alloc alloc)
    unfolding new
    new_creates = create-Created options.destruct options.initial_capacity refl refl
