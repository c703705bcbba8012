-- ===== src/Deque/Create.antt =====
-- `deque_new`: which options it accepts, and the deque that it makes.
use libcdsa.Base.{
  ℕ, ◌*◌, ◌≤◌, ◌<◌, ◌≡◌, ◌⊎◌, inl, inr, refl, sym, Bool, true, false, Option, some, none, List, [],
  ◌∷◌, arith, length, Bool-cases,
}
use libcdsa.Base.Int.{ℤ, pos, negsuc, to_ℕ?}
use native.Mathlib.Nat.{zero-mod}
use libcdsa.Base.Bits.{pow-le_of_lt_double}
use libcdsa.Core.{
  Pointer, Alloc, IsHonest, Event, Outcome, ok, err, illegal_argument, memory_allocation,
  Destructor, freed, struct_block,
}
use libcdsa.Deque.{
  Deque, DequeOptions, min_capacity, max_capacity, is_rejected, next_power_of_two, create, make,
  new, elements_from,
}
use libcdsa.Deque.Inv.{IsValid, contents}
use libcdsa.Deque.Capacity.{next_power_of_two_lem}

-- The options that the documentation of `DequeOptions` asks for.
pub record IsAcceptable (options : DequeOptions) (initial : ℕ) (destruct : Destructor)
    : Type 0 where
  pub capacity_given : options.initial_capacity ≡ pos initial
  pub large : min_capacity ≤ initial
  pub small : initial ≤ max_capacity
  pub destruct_given : options.destruct ≡ some destruct
  pub equals_given : options.equals ≡ true
  pub to_string_given : options.to_string ≡ true
  pub memory_alloc_given : options.memory_alloc ≡ true
  pub memory_dealloc_given : options.memory_dealloc ≡ true

-- A new deque: empty, valid, and with the least power of two of cells that is enough.
pub record IsFresh {ℓ} {A : Type ℓ} ⦃pointer : Pointer A⦄ (initial : ℕ) (destruct : Destructor)
    (deque : Deque A) : Type ℓ where
  pub valid : IsValid deque
  pub empty : contents deque ≡ []
  pub enough : initial ≤ deque.capacity
  pub least : deque.capacity < initial * 2
  pub destructs : deque.destruct ≡ destruct

-- `deque_new` accepts the options.
abbrev pub Accepts : DequeOptions → Type 0
Accepts options = (initial : ℕ) × (destruct : Destructor) × IsAcceptable options initial destruct

abbrev pub Created {ℓ} :
    {A : Type ℓ} ⦃pointer : Pointer A⦄
    → DequeOptions
    → Bool
    → Alloc A
    → Outcome (Deque A) × List (Event A)
    → Type ℓ
Created options struct_alloc alloc (ok deque, events) =
    (initial : ℕ) × (destruct : Destructor) × IsAcceptable options initial destruct
    × IsFresh initial destruct deque
    × (events ≡ [])
Created options struct_alloc alloc (err e, events) =
    ((e ≡ illegal_argument)
      × (events ≡ [])
      × ((initial : ℕ) (destruct : Destructor) → ¬ IsAcceptable options initial destruct))
    ⊎ ((e ≡ memory_allocation) × Accepts options × (struct_alloc ≡ false) × (events ≡ []))
    ⊎ ((e ≡ memory_allocation)
        × Accepts options
        × (events ≡ freed struct_block ∷ [])
        × ((n : ℕ) × (alloc n ≡ none)))

module _ {ℓ} {A : Type ℓ} ⦃pointer : Pointer A⦄ (options : DequeOptions) (struct_alloc : Bool)
    (alloc : Alloc A) (honest : IsHonest alloc) where
  accepted :
      (initial : ℕ) (destruct : Destructor)
      → options.initial_capacity ≡ pos initial
      → options.destruct ≡ some destruct
      → is_rejected options initial ≡ false
      → IsAcceptable options initial destruct
  unfolding is_rejected
  accepted initial destruct e d r = ground arith

  make-IsFresh :
      (initial : ℕ) (destruct : Destructor) (block : List A)
      → min_capacity ≤ initial
      → initial ≤ max_capacity
      → length block ≡ next_power_of_two initial
      → IsFresh initial destruct (record {
        elements = block;
        first = 0;
        last = 0;
        size = 0;
        capacity = next_power_of_two initial;
        destruct = destruct;
        modification_count = 0;
      })
  unfolding elements_from
  make-IsFresh initial destruct block large small whole =
      let (n, power, enough, least) = next_power_of_two_lem initial (omega arith) small in
      record {
        valid = record {
          exponent = n;
          power = power;
          large = omega arith;
          small = omega (arith, power, pow-le_of_lt_double n 30 (omega arith));
          storage = whole;
          first_in = omega arith;
          size_in = omega arith;
          last_at = sym (zero-mod (next_power_of_two initial));
        };
        empty = refl;
        enough = omega arith;
        least = omega arith;
        destructs = refl;
      }

  make-Created :
      (initial : ℕ) (destruct : Destructor)
      → IsAcceptable options initial destruct
      → (o : Option (List A)) → alloc (next_power_of_two initial) ≡ o
      → Created options struct_alloc alloc (make (next_power_of_two initial) destruct o)
  unfolding make
  make-Created initial destruct a none refused =
      inr (inr (refl, (initial, destruct, a), refl, (_, refused)))
  make-Created initial destruct a (some block) granted = (
    initial,
    destruct,
    a,
    make-IsFresh initial destruct block a.large a.small (honest _ block granted),
    refl,
  )

  not-IsAcceptable :
      (n n' : ℕ) (destruct : Destructor)
      → options.initial_capacity ≡ pos n
      → is_rejected options n ≡ true
      → ¬ IsAcceptable options n' destruct
  unfolding is_rejected
  not-IsAcceptable n n' destruct e bad a = ground (
    arith, a.large, a.small, a.capacity_given, a.equals_given, a.to_string_given,
    a.memory_alloc_given, a.memory_dealloc_given,
  )

  create-Created :
      (d : Option Destructor) (c : ℤ)
      → options.destruct ≡ d
      → options.initial_capacity ≡ c
      → Created options struct_alloc alloc (create options struct_alloc alloc d (to_ℕ? c))
  unfolding create make
  create-Created none c de ce = inl (refl, refl, λ n d a. cc (a.destruct_given))
  create-Created (some d) (negsuc c) de ce = inl (refl, refl, λ n d' a. cc (a.capacity_given))
  create-Created (some d) (pos n) de ce = elim (Bool-cases (is_rejected options n)) [
    | inl bad ↦ rw bad (inl (refl, refl, λ n' d' a. not-IsAcceptable n n' d' ce bad a))
    | inr good ↦ elim (Bool-cases struct_alloc) [
      | inr refused ↦
          rw (good, refused) (inr (inl (refl, (n, d, accepted n d ce de good), refl, refl)))
      | inl granted ↦
          rw (good, granted)
            (rw granted at
              (make-Created n d (accepted n d ce de good) (alloc (next_power_of_two n)) refl))
    ]
  ]

  -- Where a block that is handed out has the size asked for: deque_new makes a valid empty deque
  -- whose capacity is at least the one asked for and less than twice that from acceptable options,
  -- reports ILLEGAL_ARGUMENT_ERROR exactly for the others, and MEMORY_ALLOCATION_ERROR only from
  -- acceptable options, where memory is refused: with the struct given back, or nothing where the
  -- struct itself is refused.
  pub new-Created : Created options struct_alloc alloc (new options struct_alloc alloc)
  unfolding new
  new-Created = create-Created options.destruct options.initial_capacity refl refl
