-- ===== src/Core/Growing.antt =====
-- The growth of the arrays of src/collections/priority_queue.c and src/collections/list/array_list.c
-- by a `float` factor, which is a parameter together with its arithmetic.
use libcdsa.Base.{
  ℕ, zero, suc, ◌+◌, ◌/◌, ◌≤◌, ◌<◌, ◌≡◌, arith, inl, inr, subst, Bool, true, false, Bool-cases, ltb,
  ltb→lt,
}
use libcdsa.Core.{Growth, grown, refused, out_of_fuel}

abbrev pub min_capacity : ℕ
min_capacity = 10

abbrev pub max_capacity : ℕ
max_capacity = 1_073_741_824

-- `factor < MIN_GROWTH_FACTOR`, `factor > n`, and `n *= factor` cut off to an `int`.
pub record Scaling (Factor : Type 0) : Type 0 where
  pub too_small : Factor → Bool
  pub exceeds : Factor → ℕ → Bool
  pub scale : ℕ → Factor → ℕ

module _ {Factor : Type 0} ⦃scaling : Scaling Factor⦄ where
  unfoldable pub grow_loop : ℕ → Factor → ℕ → ℕ → Growth
  grow_loop zero factor new_capacity capacity = out_of_fuel
  grow_loop (suc fuel) factor new_capacity capacity = elim (ltb new_capacity capacity) [
    | true ↦ elim (scaling.exceeds factor (max_capacity / new_capacity)) [
      | true ↦ refused
      | false ↦ grow_loop fuel factor (scaling.scale new_capacity factor) capacity
    ]
    | false ↦ grown new_capacity
  ]

abbrev pub AtMost : Growth → Type 0
AtMost (grown n) = n ≤ max_capacity
AtMost refused = Unit {0}
AtMost out_of_fuel = Unit {0}

module _ {Factor : Type 0} ⦃scaling : Scaling Factor⦄ where
  -- A factor of at least 1.10 makes a capacity grow, where the guard lets it through.
  abbrev pub IsGrowing : Factor → Type 0
  IsGrowing factor =
      (n : ℕ)
      → min_capacity ≤ n
      → scaling.exceeds factor (max_capacity / n) ≡ false
      → n < scaling.scale n factor

  -- The capacity that `k` steps of growth make of `n`.
  unfoldable pub grow_times : ℕ → Factor → ℕ → ℕ
  grow_times zero factor n = n
  grow_times (suc k) factor n = grow_times k factor (scaling.scale n factor)

  -- Growth from `n` comes, by steps that the guard lets through, to a capacity that is too small
  -- and that the guard does not let grow.
  abbrev pub IsAtLimit : Factor → ℕ → ℕ → Type 0
  IsAtLimit factor n capacity =
      (k : ℕ) × (grow_times k factor n < capacity)
      × (scaling.exceeds factor (max_capacity / grow_times k factor n) ≡ true)
      × ((j : ℕ) → j < k → scaling.exceeds factor (max_capacity / grow_times j factor n) ≡ false)

  pub IsAtLimit-along :
      {factor factor' : Factor} {n n' capacity capacity' : ℕ}
      → factor ≡ factor'
      → n ≡ n'
      → capacity ≡ capacity'
      → IsAtLimit factor n capacity
      → IsAtLimit factor' n' capacity'
  IsAtLimit-along {factor} {factor'} {n} {n'} {capacity} {capacity'} e e' e'' limit =
      subst (λ (f : Factor). IsAtLimit f n' capacity') e
        (subst (λ (m : ℕ). IsAtLimit factor m capacity') e' (subst (IsAtLimit factor n) e'' limit))

  abbrev pub GrowthOf : Factor → ℕ → ℕ → Growth → Type 0
  GrowthOf factor n capacity (grown m) = capacity ≤ m
  GrowthOf factor n capacity refused = IsAtLimit factor n capacity
  GrowthOf factor n capacity out_of_fuel = ⊥

  free_before :
      (factor : Factor) (n k : ℕ)
      → scaling.exceeds factor (max_capacity / n) ≡ false
      → ((j : ℕ)
          → j < k
          → scaling.exceeds factor (max_capacity / grow_times j factor (scaling.scale n factor))
            ≡ false)
      → (j : ℕ) → j < suc k
      → scaling.exceeds factor (max_capacity / grow_times j factor n) ≡ false
  unfolding grow_times
  free_before factor n k free later zero h = free
  free_before factor n k free later (suc j) h = later j (omega arith)

  GrowthOf-step :
      (factor : Factor) (n capacity : ℕ) (growth : Growth)
      → scaling.exceeds factor (max_capacity / n) ≡ false
      → GrowthOf factor (scaling.scale n factor) capacity growth
      → GrowthOf factor n capacity growth
  unfolding grow_times
  GrowthOf-step factor n capacity (grown m) free enough = enough
  GrowthOf-step factor n capacity refused free (k, short, limit, later) =
      (suc k, short, limit, free_before factor n k free later)
  GrowthOf-step factor n capacity out_of_fuel free never = never

  pub grow_loop-GrowthOf :
      (fuel : ℕ) (factor : Factor) (n capacity : ℕ)
      → IsGrowing factor
      → min_capacity ≤ n
      → capacity < n + fuel
      → 0 < fuel
      → GrowthOf factor n capacity (grow_loop fuel factor n capacity)
  unfolding grow_loop grow_times
  grow_loop-GrowthOf zero factor n capacity growing large enough some_left = absurd (omega arith)
  grow_loop-GrowthOf (suc fuel) factor n capacity growing large enough some_left =
      elim (Bool-cases (ltb n capacity)) [
        | inr done ↦ rw (grow_loop, done) (ground arith)
        | inl short ↦ elim (Bool-cases (scaling.exceeds factor (max_capacity / n))) [
          | inl limit ↦
              rw (grow_loop, short, limit)
                (0, ltb→lt n capacity short, limit, λ j before. absurd (omega arith))
          | inr free ↦
              let more = growing n large free in
              rw (grow_loop, short, free)
                (GrowthOf-step factor n capacity _ free (
                  grow_loop-GrowthOf fuel factor (scaling.scale n factor) capacity growing
                    (omega arith) (omega (arith, ltb→lt n capacity short))
                    (omega (arith, ltb→lt n capacity short))))
        ]
      ]

  -- No capacity passes the greatest, where the guard lets it through.
  abbrev pub IsBounded : Factor → Type 0
  IsBounded factor =
      (n : ℕ)
      → min_capacity ≤ n
      → scaling.exceeds factor (max_capacity / n) ≡ false
      → scaling.scale n factor ≤ max_capacity

  pub grow_loop-AtMost :
      (fuel : ℕ) (factor : Factor) (n capacity : ℕ)
      → IsGrowing factor
      → IsBounded factor
      → min_capacity ≤ n
      → n ≤ max_capacity
      → AtMost (grow_loop fuel factor n capacity)
  unfolding grow_loop
  grow_loop-AtMost zero factor n capacity growing bounded large small = tt
  grow_loop-AtMost (suc fuel) factor n capacity growing bounded large small =
      elim (Bool-cases (ltb n capacity)) [
        | inr done ↦ rw (grow_loop, done) small
        | inl short ↦ elim (Bool-cases (scaling.exceeds factor (max_capacity / n))) [
          | inl limit ↦ rw (grow_loop, short, limit) tt
          | inr free ↦
              let more = growing n large free in
              rw (grow_loop, short, free)
                (grow_loop-AtMost fuel factor (scaling.scale n factor) capacity growing bounded
                  (omega arith) (bounded n large free))
        ]
      ]
