-- ===== src/Deque/Capacity.antt =====
-- The two loops that choose a capacity, and `ensure_capacity`.
use libcdsa.Base.{
  ℕ, zero, suc, ◌+◌, ◌*◌, ◌/◌, ◌%◌, ◌^◌, ◌≤◌, ◌<◌, ◌≡◌, ◌⊎◌, inl, inr, refl, sym, ap, ◌∙◌, List, [],
  arith, length, get_or, write_from, length-write_from, get_or-write_from, Bool, true, false,
  Bool-cases, Option-cases, none, ltb, leb, dec_lt, subst, ltb→lt,
}
use native.Mathlib.Nat.{
  pow-suc, one-le-pow, pow-le-pow_right, mod-eq_of_lt, div-lt_iff_lt-mul, le-div_iff_mul-le,
}
use libcdsa.Core.{
  Pointer, Alloc, IsHonest, Event, outgrown, outgrown-less, outgrown-enough, Growth, grown, refused,
  out_of_fuel,
}
use libcdsa.Deque.{
  Deque, max_capacity, grow_loop, grow_capacity, next_power_loop, next_power_of_two, relocate,
  reallocate, ensure_capacity, element_at, elements_from,
}
use libcdsa.Deque.Inv.{
  IsValid, contents, elements_from_same, element_at_lem, length-elements_from, get_or-elements_from,
}

-- The least power of two that is at least `x`, from `2 ^ k` on.
next_power_loop_lem :
    (fuel k x : ℕ)
    → x ≤ 2 ^ (k + fuel)
    → (n : ℕ) × (next_power_loop fuel (2 ^ k) x ≡ 2 ^ n)
      × (x ≤ 2 ^ n)
      × (k ≤ n)
      × ((k ≡ n) ⊎ (2 ^ n < x * 2))
unfolding next_power_loop
next_power_loop_lem zero k x h =
    let e : 2 ^ (k + 0) ≡ 2 ^ k = ap (λ j. 2 ^ j) (omega arith) in
    (k, refl, omega arith, omega arith, inl refl)
next_power_loop_lem (suc fuel) k x h = elim (Bool-cases (ltb (2 ^ k) x)) [
  | inl more ↦
      let shift : 2 ^ (k + suc fuel) ≡ 2 ^ (suc k + fuel) = ap (λ j. 2 ^ j) (omega arith) in
      let (n, e, le, later, least) = next_power_loop_lem fuel (suc k) x (omega arith) in
      (
        n,
        rw (more, next_power_loop) (ap (λ p. next_power_loop fuel p x) (sym (pow-suc 2 k)) ∙ e),
        le,
        omega arith,
        elim least [
          | inl same ↦ inr (ground (arith, pow-suc 2 k, ap (λ (j : ℕ). 2 ^ j) same))
          | inr small ↦ inr small
        ],
      )
  | inr done ↦ (k, rw (done, next_power_loop), ground arith, omega arith, inl refl)
]

-- A power of two that may be doubled stays within the limit.
doubled : (k : ℕ) → ltb (max_capacity / 2 ^ k) 2 ≡ false → 2 ^ suc k ≤ max_capacity
doubled k room =
    let fits : 2 * 2 ^ k ≤ max_capacity =
      (le-div_iff_mul-le (one-le-pow k 2 (omega arith))).0 (ground arith) in
    omega (arith, fits, pow-suc 2 k)

-- How the search for a new capacity ends, from a power of two that is within the limit: with the
-- least power of two that is enough, or with a refusal where none within the limit is.
abbrev pub GrowthOf : ℕ → Growth → Type 0
GrowthOf capacity (grown n) = (k : ℕ) × (n ≡ 2 ^ k) × (capacity ≤ n) × (n ≤ max_capacity)
GrowthOf capacity refused = max_capacity < capacity
GrowthOf capacity out_of_fuel = ⊥

-- A power of two that cannot be doubled within the limit is at least the limit.
limit-le : (k : ℕ) → max_capacity / 2 ^ k < 2 → max_capacity ≤ 2 ^ k
limit-le k h =
    let above : max_capacity < 2 * 2 ^ k =
      (div-lt_iff_lt-mul {k = 2 ^ k} (one-le-pow k 2 (omega arith))).0 h in
    elim (dec_lt k 30) [
      | yes small ↦ absurd (
          omega (
            arith,
            above,
            pow-suc 2 k,
            pow-le-pow_right {n = 2} (omega arith) {i = suc k} {j = 30} small,
          ))
      | no large ↦ pow-le-pow_right {n = 2} (omega arith) {i = 30} {j = k} (omega arith)
    ]

grow_loop-GrowthOf :
    (fuel k capacity : ℕ)
    → 2 ^ k ≤ max_capacity
    → 31 < fuel + k
    → GrowthOf capacity (grow_loop fuel (2 ^ k) capacity)
unfolding grow_loop
grow_loop-GrowthOf zero k capacity h f =
    absurd (omega (arith, pow-le-pow_right {n = 2} (omega arith) {i = 32} {j = k} (omega arith)))
grow_loop-GrowthOf (suc fuel) k capacity h f = elim (Bool-cases (ltb (2 ^ k) capacity)) [
  | inr enough ↦ rw (enough, grow_loop) (k, refl, ground arith, h)
  | inl short ↦ elim (Bool-cases (ltb (max_capacity / 2 ^ k) 2)) [
    | inl full ↦
        rw (short, grow_loop, full)
          (omega (arith, limit-le k (ground arith), ltb→lt (2 ^ k) capacity short))
    | inr room ↦
        rw (short, grow_loop, room)
          (subst (λ p. GrowthOf capacity (grow_loop fuel p capacity)) (pow-suc 2 k)
            (grow_loop-GrowthOf fuel (suc k) capacity (doubled k room) (omega arith)))
  ]
]

pub grow_capacity-GrowthOf :
    (k capacity : ℕ) → 2 ^ k ≤ max_capacity → GrowthOf capacity (grow_capacity (2 ^ k) capacity)
unfolding grow_capacity
grow_capacity-GrowthOf k capacity h = grow_loop-GrowthOf 32 k capacity h (omega arith)

-- The capacity of a new deque is the least power of two that is at least the one asked for.
pub next_power_of_two_lem :
    (x : ℕ)
    → 0 < x
    → x ≤ max_capacity
    → (n : ℕ) × (next_power_of_two x ≡ 2 ^ n) × (x ≤ 2 ^ n) × (2 ^ n < x * 2)
unfolding next_power_of_two
next_power_of_two_lem x p h =
    let (n, e, le, later, least) = next_power_loop_lem 31 0 x (omega arith) in
    (
      n,
      e,
      le,
      elim least [ inl same ↦ omega (arith, ap (λ (j : ℕ). 2 ^ j) (sym same)) | inr small ↦ small ],
    )

-- What `ensure_capacity` may change: the place of the elements and the capacity.
pub record IsRoomier {ℓ} {A : Type ℓ} ⦃pointer : Pointer A⦄ (deque : Deque A) (capacity : ℕ)
    (roomy : Deque A) : Type ℓ where
  pub valid : IsValid roomy
  pub room : capacity ≤ roomy.capacity
  pub same_contents : contents roomy ≡ contents deque
  pub same_size : roomy.size ≡ deque.size
  pub same_destruct : roomy.destruct ≡ deque.destruct
  pub same_count : roomy.modification_count ≡ deque.modification_count

module _ {ℓ} {A : Type ℓ} ⦃pointer : Pointer A⦄ {deque : Deque A} (v : IsValid deque) where
  module _ (block : List A) (k n : ℕ) (power : n ≡ 2 ^ k) (larger : deque.capacity < n)
      (small : n ≤ max_capacity) (whole : length block ≡ n) where
    relocate-IsValid : IsValid (relocate deque block n)
    unfolding relocate
    relocate-IsValid = record {
      exponent = k;
      power = power;
      large = omega (arith, v.large);
      small = small;
      storage = length-write_from block 0 (elements_from deque 0 deque.size) ∙ whole;
      first_in = omega arith;
      size_in = omega (arith, v.size_in);
      last_at = sym (mod-eq_of_lt (omega (arith, v.size_in))) ∙ ap (λ j. j % n) (omega arith);
    }

    relocate-old :
        (j : ℕ) → j < deque.size → element_at (relocate deque block n) j ≡ element_at deque j
    unfolding relocate
    relocate-old j h =
        element_at_lem j relocate-IsValid (omega (arith, v.size_in))
        ∙ ap (λ i. get_or (write_from block 0 (elements_from deque 0 deque.size)) i pointer.null)
            (ground (arith, v.size_in))
        ∙ get_or-write_from block 0 (elements_from deque 0 deque.size) j pointer.null
            (omega (arith, length-elements_from deque 0 deque.size, v.size_in))
            (omega (arith, length-elements_from deque 0 deque.size))
        ∙ get_or-elements_from deque 0 deque.size j h
        ∙ ap (element_at deque) (omega arith)

    relocate-IsRoomier :
        (capacity : ℕ) → capacity ≤ n → IsRoomier deque capacity (relocate deque block n)
    unfolding relocate
    relocate-IsRoomier capacity h = record {
      valid = relocate-IsValid;
      room = h;
      same_contents = elements_from_same (relocate deque block n) deque deque.size relocate-old;
      same_size = refl;
      same_destruct = refl;
      same_count = refl;
    }

-- How `ensure_capacity` ends: with room, or, where the deque is left alone, because the limit is
-- passed or the allocator has no memory.
abbrev pub Ensured {ℓ} :
    {A : Type ℓ} ⦃pointer : Pointer A⦄
    → Alloc A
    → Deque A
    → ℕ
    → Bool × Deque A × List (Event A)
    → Type ℓ
Ensured alloc deque capacity (true, roomy, events) =
    IsRoomier deque capacity roomy × (events ≡ outgrown deque.capacity capacity)
Ensured alloc deque capacity (false, kept, events) =
    (kept ≡ deque) × (events ≡ []) × ((max_capacity < capacity) ⊎ ((n : ℕ) × (alloc n ≡ none)))

module _ {ℓ} {A : Type ℓ} ⦃pointer : Pointer A⦄ (alloc : Alloc A) {deque : Deque A}
    (honest : IsHonest alloc) (v : IsValid deque) where
  reallocate-Ensured :
      (capacity : ℕ) (growth : Growth)
      → deque.capacity < capacity
      → GrowthOf capacity growth
      → Ensured alloc deque capacity (reallocate alloc deque growth)
  unfolding reallocate
  reallocate-Ensured capacity (grown n) h (k, power, enough, small) =
      elim (Option-cases (alloc n)) [
        | inl failed ↦ rw (failed, reallocate) (refl, refl, inr (n, failed))
        | inr (block, granted) ↦
            rw (granted, reallocate)
              (
                relocate-IsRoomier v block k n power (omega arith) small (honest n block granted)
                    capacity enough,
                sym (outgrown-less deque.capacity capacity h),
              )
      ]
  reallocate-Ensured capacity refused h g = (refl, refl, inl g)
  reallocate-Ensured capacity out_of_fuel h g = absurd g

  -- Where a block that is handed out has the size asked for: ensure_capacity on a valid deque
  -- makes room and keeps validity, elements, size, destructor and modification count; it fails,
  -- leaving the deque as it was, only where the capacity asked for is past the limit or the
  -- allocator refuses.
  pub ensure_capacity-Ensured :
      (capacity : ℕ) → Ensured alloc deque capacity (ensure_capacity alloc deque capacity)
  unfolding ensure_capacity
  ensure_capacity-Ensured capacity = elim (Bool-cases (leb capacity deque.capacity)) [
    | inl enough ↦
        rw (enough, ensure_capacity)
          (
            record {
              valid = v;
              room = ground arith;
              same_contents = refl;
              same_size = refl;
              same_destruct = refl;
              same_count = refl;
            },
            sym (outgrown-enough deque.capacity capacity (ground arith)),
          )
    | inr short ↦
        rw (short, ensure_capacity)
          (reallocate-Ensured capacity _ (ground arith) (
            subst (λ c. GrowthOf capacity (grow_capacity c capacity)) (sym v.power)
              (grow_capacity-GrowthOf v.exponent capacity (omega (arith, v.power, v.small)))))
  ]
