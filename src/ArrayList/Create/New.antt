-- ===== src/ArrayList/Create/New.antt =====
-- `array_list_new`: which options it accepts, and what it makes of them.
use libcdsa.Core.Growing.{Scaling, min_capacity, max_capacity}
use libcdsa.Base.{
  ℕ, ◌≤◌, ◌≡◌, ◌⊎◌, inl, inr, refl, arith, Bool, true, false, Bool-cases, Option, none, some, List,
  [], ◌∷◌,
}
use libcdsa.Base.Int.{ℤ, pos, negsuc, to_ℕ?}
use libcdsa.Core.{
  Pointer, Event, Outcome, ok, err, illegal_argument, memory_allocation, Destructor, freed,
  struct_block,
}
use libcdsa.ArrayList.{ArrayList, Memory}
use libcdsa.ArrayList.Inv.{IsValid}
use libcdsa.ArrayList.Room.{IsSound}
use libcdsa.ArrayList.Create.{ArrayListOptions, is_rejected, make, create, new}

module _ {Factor : Type 0} ⦃scaling : Scaling Factor⦄ where
  -- The options that the documentation of `ArrayListOptions` asks for.
  pub record IsAcceptable (options : ArrayListOptions Factor) (initial : ℕ) (destruct : Destructor)
      : Type 0 where
    pub capacity_given : options.initial_capacity ≡ pos initial
    pub large : min_capacity ≤ initial
    pub small : initial ≤ max_capacity
    pub grows : scaling.too_small options.growth_factor ≡ false
    pub destruct_given : options.destruct ≡ some destruct
    pub equals_given : options.equals ≡ true
    pub to_string_given : options.to_string ≡ true
    pub memory_alloc_given : options.memory_alloc ≡ true
    pub memory_dealloc_given : options.memory_dealloc ≡ true

  -- The constructor accepts the options.
  abbrev pub Accepts : ArrayListOptions Factor → Type 0
  Accepts options = (initial : ℕ) × (destruct : Destructor) × IsAcceptable options initial destruct

  accepted :
      (options : ArrayListOptions Factor) (initial : ℕ) (destruct : Destructor)
      → options.initial_capacity ≡ pos initial
      → options.destruct ≡ some destruct
      → is_rejected options initial ≡ false
      → IsAcceptable options initial destruct
  unfolding is_rejected
  accepted options initial destruct e d r = ground arith

  not-IsAcceptable :
      (options : ArrayListOptions Factor) (n m : ℕ) (destruct : Destructor)
      → options.initial_capacity ≡ pos n
      → is_rejected options n ≡ true
      → ¬ IsAcceptable options m destruct
  unfolding is_rejected
  not-IsAcceptable options n m destruct e bad a = ground (
    arith, a.large, a.small, a.grows, a.capacity_given, a.equals_given, a.to_string_given,
    a.memory_alloc_given, a.memory_dealloc_given,
  )

module _ {Factor : Type 0} {A : Type 0} ⦃pointer : Pointer A⦄ ⦃scaling : Scaling Factor⦄ where
  -- A new list: empty, with an array of the size asked for.
  pub record IsFresh (options : ArrayListOptions Factor) (initial : ℕ) (destruct : Destructor)
      (list : ArrayList Factor A) : Type 0 where
    pub valid : IsValid list
    pub asked : list.capacity ≡ initial
    pub empty : list.size ≡ 0
    pub uncounted : list.modification_count ≡ 0
    pub factor : list.growth_factor ≡ options.growth_factor
    pub destructs : list.destruct ≡ destruct

  abbrev pub Created :
      ArrayListOptions Factor
      → Bool
      → Memory A
      → Outcome (ArrayList Factor A) × List (Event A)
      → Type 0
  Created options struct_alloc memory (ok list, events) =
      (initial : ℕ) × (destruct : Destructor) × IsAcceptable options initial destruct
      × IsFresh options initial destruct list
      × (events ≡ [])
  Created options struct_alloc memory (err e, events) =
      ((e ≡ illegal_argument)
        × (events ≡ [])
        × ((initial : ℕ) (destruct : Destructor) → ¬ IsAcceptable options initial destruct))
      ⊎ ((e ≡ memory_allocation) × Accepts options × (struct_alloc ≡ false) × (events ≡ []))
      ⊎ ((e ≡ memory_allocation)
          × Accepts options
          × (events ≡ freed struct_block ∷ [])
          × ((n : ℕ) × (memory.alloc n ≡ none)))

  module _ (options : ArrayListOptions Factor) (struct_alloc : Bool) (memory : Memory A)
      (sound : IsSound memory) where
    make-Created :
        (initial : ℕ) (destruct : Destructor)
        → IsAcceptable options initial destruct
        → (o : Option (List A)) → memory.alloc initial ≡ o
        → Created options struct_alloc memory (make initial options.growth_factor destruct o)
    unfolding make
    make-Created initial destruct a none refused =
        inr (inr (refl, (initial, destruct, a), refl, (_, refused)))
    make-Created initial destruct a (some block) granted = (
      initial,
      destruct,
      a,
      record {
        valid = record {
          storage = sound.alloc_whole _ block granted;
          large = a.large;
          small = a.small;
          size_in = omega arith;
        };
        asked = refl;
        empty = refl;
        uncounted = refl;
        factor = refl;
        destructs = refl;
      },
      refl,
    )

    create-Created :
        (d : Option Destructor) (c : ℤ)
        → options.destruct ≡ d
        → options.initial_capacity ≡ c
        → Created options struct_alloc memory (create options struct_alloc memory d (to_ℕ? c))
    unfolding create make
    create-Created none c de ce = inl (refl, refl, λ n d a. cc (a.destruct_given))
    create-Created (some d) (negsuc c) de ce = inl (refl, refl, λ n d' a. cc (a.capacity_given))
    create-Created (some d) (pos n) de ce = elim (Bool-cases (is_rejected options n)) [
      | inl bad ↦ rw bad (inl (refl, refl, λ m d' a. not-IsAcceptable options n m d' ce bad a))
      | inr good ↦ elim (Bool-cases struct_alloc) [
        | inr refused ↦
            rw (good, refused)
              (inr (inl (refl, (n, d, accepted options n d ce de good), refl, refl)))
        | inl granted ↦
            rw (good, granted)
              (rw granted at
                (make-Created n d (accepted options n d ce de good) (memory.alloc n) refl))
      ]
    ]

    -- Where a block that is handed out has the size asked for and memory_realloc keeps the cells
    -- that both blocks have: array_list_new makes a valid empty list with an array of the capacity
    -- asked for from acceptable options, reports ILLEGAL_ARGUMENT_ERROR exactly for others, and
    -- MEMORY_ALLOCATION_ERROR only from acceptable options, with the struct given back where it
    -- was allocated, where memory is refused.
    pub new_makes : Created options struct_alloc memory (new options struct_alloc memory)
    unfolding new
    new_makes = create-Created options.destruct options.initial_capacity refl refl
