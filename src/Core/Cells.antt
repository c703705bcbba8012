-- ===== src/Core/Cells.antt =====
-- Arrays of pointers as the containers loop over them: cells, swaps, what a loop reads, and how many
-- cells pass a test.
use libcdsa.Base.{
  ℕ, zero, suc, ◌+◌, ◌≤◌, ◌<◌, ◌≡◌, ◌≢◌, refl, sym, ap, ap₂, ◌∙◌, arith, Bool, true, false, List,
  [], ◌∷◌, map, length, get_or, set, length-set, get_or-set_self, get_or-set_ne, ℕ_discrete,
}
use libcdsa.Core.{Pointer, Destructor, Event, destructed}

abbrev pub one_if : Bool → ℕ
one_if true = 1
one_if false = 0

module _ {ℓ} {A : Type ℓ} ⦃pointer : Pointer A⦄ where
  abbrev pub cell : List A → ℕ → A
  cell elements i = get_or elements i pointer.null

  unfoldable pub swap : List A → ℕ → ℕ → List A
  swap elements i j =
      set (set elements i (get_or elements j pointer.null)) j (get_or elements i pointer.null)

  -- What a `for` loop over the array reads in the `n` rounds from `i` on.
  unfoldable pub cells_from : List A → ℕ → ℕ → List A
  cells_from elements i zero = []
  cells_from elements i (suc n) = get_or elements i pointer.null ∷ cells_from elements (i + 1) n

  pub length-swap : (elements : List A) (i j : ℕ) → length (swap elements i j) ≡ length elements
  unfolding swap
  length-swap elements i j =
      length-set (set elements i (cell elements j)) j (cell elements i)
      ∙ length-set elements i (cell elements j)

  module _ (elements : List A) (i j : ℕ) (i_in : i < length elements)
      (j_in : j < length elements) where
    pub swap_right : cell (swap elements i j) j ≡ cell elements i
    unfolding swap
    swap_right =
        get_or-set_self (set elements i (cell elements j)) j (cell elements i) pointer.null
          (omega (arith, length-set elements i (cell elements j)))

    pub swap_left : i ≢ j → cell (swap elements i j) i ≡ cell elements j
    unfolding swap
    swap_left ne =
        get_or-set_ne (set elements i (cell elements j)) j i (cell elements i) pointer.null
          (λ e. ne (sym e))
        ∙ get_or-set_self elements i (cell elements j) pointer.null i_in

    pub swap_other : (k : ℕ) → k ≢ i → k ≢ j → cell (swap elements i j) k ≡ cell elements k
    unfolding swap
    swap_other k ni nj =
        get_or-set_ne (set elements i (cell elements j)) j k (cell elements i) pointer.null
          (λ e. nj (sym e))
        ∙ get_or-set_ne elements i k (cell elements j) pointer.null (λ e. ni (sym e))

  -- How many of the first `n` cells pass a test.
  unfoldable pub occurrences : (A → Bool) → List A → ℕ → ℕ
  occurrences test elements zero = 0
  occurrences test elements (suc n) = occurrences test elements n + one_if (test (cell elements n))

  module _ (test : A → Bool) where
    occurrences-set_above :
        (elements : List A) (i n : ℕ) (x : A)
        → n ≤ i
        → occurrences test (set elements i x) n ≡ occurrences test elements n
    unfolding occurrences
    occurrences-set_above elements i zero x h = refl
    occurrences-set_above elements i (suc n) x h = rw (
      get_or-set_ne elements i n x pointer.null (λ e. absurd (omega arith)),
      occurrences-set_above elements i n x (omega arith),
    )

    pub occurrences-set :
        (elements : List A) (i n : ℕ) (x : A)
        → i < length elements
        → i < n
        → occurrences test (set elements i x) n + one_if (test (cell elements i))
          ≡ occurrences test elements n + one_if (test x)
    unfolding occurrences
    occurrences-set elements i zero x h p = absurd (omega arith)
    occurrences-set elements i (suc n) x h p = elim (ℕ_discrete i n) [
      | yes e ↦
          let self : cell (set elements i x) n ≡ x =
            ap (cell (set elements i x)) (sym e) ∙ get_or-set_self elements i x pointer.null h in
          let below = occurrences-set_above elements i n x (omega arith) in
          omega (
            arith,
            below,
            ap (λ a. one_if (test a)) self,
            ap (λ k. one_if (test (cell elements k))) e,
          )
      | no ne ↦
          let kept = get_or-set_ne elements i n x pointer.null ne in
          let below = occurrences-set elements i n x h (omega arith) in
          rw kept (omega (arith, below))
    ]

    -- A swap keeps the elements of the first `n` cells, up to their order.
    pub occurrences-swap :
        (elements : List A) (i j n : ℕ)
        → i < length elements
        → j < length elements
        → i < n
        → j < n
        → occurrences test (swap elements i j) n ≡ occurrences test elements n
    unfolding swap
    occurrences-swap elements i j n i_in j_in i_n j_n =
        let one = set elements i (cell elements j) in
        let size = length-set elements i (cell elements j) in
        let first = occurrences-set elements i n (cell elements j) i_in i_n in
        let second = occurrences-set one j n (cell elements i) (omega arith) j_n in
        let held : cell one j ≡ cell elements j = elim (ℕ_discrete i j) [
          | yes e ↦ rw (sym e) (get_or-set_self elements i (cell elements i) pointer.null i_in)
          | no ne ↦ get_or-set_ne elements i j (cell elements j) pointer.null ne
        ] in
        omega (arith, first, rw held at second)

    pub occurrences_congr :
        (xs ys : List A) (n : ℕ)
        → ((k : ℕ) → k < n → cell xs k ≡ cell ys k)
        → occurrences test xs n ≡ occurrences test ys n
    unfolding occurrences
    occurrences_congr xs ys zero same = refl
    occurrences_congr xs ys (suc n) same = omega (
      arith,
      occurrences_congr xs ys n (λ k h. same k (omega arith)),
      ap (λ a. one_if (test a)) (same n (omega arith)),
    )

    pub occurrences-add_one :
        (xs : List A) (n : ℕ)
        → occurrences test xs (n + 1) ≡ occurrences test xs n + one_if (test (cell xs n))
    unfolding occurrences
    occurrences-add_one xs n = ap (occurrences test xs) {x = n + 1} {y = suc n} (omega arith)

    pub occurrences_positive :
        (xs : List A) (n k : ℕ) → k < n → test (cell xs k) ≡ true → 0 < occurrences test xs n
    unfolding occurrences
    occurrences_positive xs zero k h passes = absurd (omega arith)
    occurrences_positive xs (suc n) k h passes = elim (ℕ_discrete k n) [
      | yes e ↦ ground (arith, ap (λ j. test (cell xs j)) e)
      | no ne ↦ omega (arith, occurrences_positive xs n k (omega arith) passes)
    ]

module _ {ℓ} {A : Type ℓ} ⦃pointer : Pointer A⦄ where
  pub length-cells_from : (elements : List A) (i n : ℕ) → length (cells_from elements i n) ≡ n
  unfolding cells_from
  length-cells_from elements i zero = refl
  length-cells_from elements i (suc n) = ap suc (length-cells_from elements (i + 1) n)

  pub get_or-cells_from :
      (elements : List A) (i n j : ℕ)
      → j < n
      → get_or (cells_from elements i n) j pointer.null ≡ cell elements (i + j)
  unfolding cells_from
  get_or-cells_from elements i zero j h = absurd (omega arith)
  get_or-cells_from elements i (suc n) zero h = ap (cell elements) (omega arith)
  get_or-cells_from elements i (suc n) (suc j) h =
      get_or-cells_from elements (i + 1) n j (omega arith) ∙ ap (cell elements) (omega arith)

  pub cells_from_congr :
      (xs ys : List A) (i n : ℕ)
      → ((k : ℕ) → i ≤ k → k < i + n → cell xs k ≡ cell ys k)
      → cells_from xs i n ≡ cells_from ys i n
  unfolding cells_from
  cells_from_congr xs ys i zero same = refl
  cells_from_congr xs ys i (suc n) same =
      ap₂ ◌∷◌ (same i (omega arith) (omega arith))
        (cells_from_congr xs ys (i + 1) n (λ k l u. same k (omega arith) (omega arith)))

  -- The loops of the methods that clear: `destruct(elements[i])` and `elements[i] = nullptr` in each
  -- round.
  unfoldable pub empty_out : Destructor → List A → ℕ → ℕ → List A × List (Event A)
  empty_out destruct elements i zero = (elements, [])
  empty_out destruct elements i (suc n) =
      let (wiped, events) = empty_out destruct (set elements i pointer.null) (i + 1) n in
      (wiped, destructed destruct (get_or elements i pointer.null) ∷ events)

  pub length-empty_out :
      (destruct : Destructor) (elements : List A) (i n : ℕ)
      → length (empty_out destruct elements i n).0 ≡ length elements
  unfolding empty_out
  length-empty_out destruct elements i zero = refl
  length-empty_out destruct elements i (suc n) =
      length-empty_out destruct (set elements i pointer.null) (i + 1) n
      ∙ length-set elements i pointer.null

  -- Each cell is read before it is overwritten.
  pub empty_out-events :
      (destruct : Destructor) (elements : List A) (i n : ℕ)
      → (empty_out destruct elements i n).1 ≡ map (destructed destruct) (cells_from elements i n)
  unfolding empty_out cells_from
  empty_out-events destruct elements i zero = refl
  empty_out-events destruct elements i (suc n) = ap (◌∷◌ (destructed destruct (cell elements i))) (
      empty_out-events destruct (set elements i pointer.null) (i + 1) n
      ∙ ap (map (destructed destruct)) (
          cells_from_congr (set elements i pointer.null) elements (i + 1) n (λ k l u.
            get_or-set_ne elements i k pointer.null pointer.null (λ e. absurd (omega arith)))))

  pub empty_out-before :
      (destruct : Destructor) (elements : List A) (i n k : ℕ)
      → k < i
      → cell (empty_out destruct elements i n).0 k ≡ cell elements k
  unfolding empty_out
  empty_out-before destruct elements i zero k h = refl
  empty_out-before destruct elements i (suc n) k h =
      empty_out-before destruct (set elements i pointer.null) (i + 1) n k (omega arith)
      ∙ get_or-set_ne elements i k pointer.null pointer.null (λ e. absurd (omega arith))

  -- No cell of the range keeps its pointer.
  pub empty_out-null :
      (destruct : Destructor) (elements : List A) (i n k : ℕ)
      → i + n ≤ length elements
      → i ≤ k
      → k < i + n
      → cell (empty_out destruct elements i n).0 k ≡ pointer.null
  unfolding empty_out
  empty_out-null destruct elements i zero k room l u = absurd (omega arith)
  empty_out-null destruct elements i (suc n) k room l u = elim (ℕ_discrete i k) [
    | yes e ↦
        empty_out-before destruct (set elements i pointer.null) (i + 1) n k (omega arith)
        ∙ ap (cell (set elements i pointer.null)) (sym e)
        ∙ get_or-set_self elements i pointer.null pointer.null (omega arith)
    | no ne ↦
        empty_out-null destruct (set elements i pointer.null) (i + 1) n k
          (omega (arith, length-set elements i pointer.null)) (omega arith) (omega arith)
  ]
