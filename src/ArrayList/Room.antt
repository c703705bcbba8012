-- ===== src/ArrayList/Room.antt =====
-- `ensure_capacity`, `resize`, and the methods that set the capacity.
use libcdsa.Core.Cells.{cell}
use libcdsa.Core.Growing.{min_capacity, max_capacity}
use libcdsa.Base.{
  leb, if◌then◌else◌, ℕ, ◌+◌, ◌≤◌, ◌<◌, ◌≡◌, ◌⊎◌, refl, sym, ap, ◌∙◌, arith, inl, inr, Bool, true,
  false, Option, none, some, List, [], ◌∷◌, length, take, length-take, get_or-take, write_from,
  length-write_from, get_or-write_from,
}
use libcdsa.Core.{Pointer, IsHonest, Event, freed, elements_block}
use libcdsa.ArrayList.{ArrayList, Memory, clamped, resized, copied, resize_by, resize}
use libcdsa.ArrayList.Inv.{IsValid, contents, length-contents, contents_at, cells_from_ext}

pub clamped_bounds : (n : ℕ) → (min_capacity ≤ clamped n) × (clamped n ≤ max_capacity)
unfolding clamped
clamped_bounds n = ground arith

pub le-clamped : (n m : ℕ) → n ≤ m → n ≤ max_capacity → n ≤ clamped m
unfolding clamped
le-clamped n m h small = ground arith

module _ {A : Type 0} ⦃pointer : Pointer A⦄ where
  -- A block that is handed out has the size asked for, and `memory_realloc` keeps the cells that
  -- both blocks have.
  pub record IsSound (memory : Memory A) : Type 0 where
    pub alloc_whole : IsHonest memory.alloc
    pub realloc_whole :
        (realloc : List A → ℕ → Option (List A)) (old block : List A) (n : ℕ)
        → memory.realloc ≡ some realloc
        → realloc old n ≡ some block
        → length block ≡ n
    pub realloc_keeps :
        (realloc : List A → ℕ → Option (List A)) (old block : List A) (n k : ℕ)
        → memory.realloc ≡ some realloc
        → realloc old n ≡ some block
        → k < n
        → k < length old
        → cell block k ≡ cell old k

  -- The allocator turned a request down.
  abbrev pub Refuses : Memory A → Type 0
  Refuses memory =
      ((n : ℕ) × (memory.alloc n ≡ none))
      ⊎ ((realloc : List A → ℕ → Option (List A)) × (old : List A) × (n : ℕ) × (memory.realloc
            ≡ some realloc)
          × (realloc old n ≡ none))

  -- What `resize` gives back: the old array, unless `memory_realloc` deals with it.
  abbrev pub replaced_by : Option (List A → ℕ → Option (List A)) → List (Event A)
  replaced_by none = freed elements_block ∷ []
  replaced_by (some realloc) = []

  -- What making room for `needed` elements gives back of an array of `room` cells.
  abbrev pub given_back : Memory A → ℕ → ℕ → List (Event A)
  given_back memory room needed = if leb needed room then [] else replaced_by memory.realloc

module _ {Factor : Type 0} {A : Type 0} ⦃pointer : Pointer A⦄ where
  -- The same list in an array of a capacity that `P` allows.
  pub record IsMoved (P : ℕ → Type 0) (list moved : ArrayList Factor A) : Type 0 where
    pub valid : IsValid moved
    pub capacity_as : P moved.capacity
    pub same_cells : (k : ℕ) → k < list.size → cell moved.elements k ≡ cell list.elements k
    pub same_size : moved.size ≡ list.size
    pub same_factor : moved.growth_factor ≡ list.growth_factor
    pub same_destruct : moved.destruct ≡ list.destruct
    pub same_count : moved.modification_count ≡ list.modification_count

  pub IsMoved-contents :
      {P : ℕ → Type 0} {list moved : ArrayList Factor A}
      → IsMoved P list moved
      → contents moved ≡ contents list
  IsMoved-contents {list = list} {moved = moved} m = rw m.same_size (
      cells_from_ext moved.elements list.size (contents list) (length-contents list)
        (λ k h. m.same_cells k h ∙ sym (contents_at list k h)))

  -- How a change of the array ends; `Q` says why it was refused, and `given` what is given back.
  abbrev pub Moved :
      (ℕ → Type 0)
      → Type 0
      → List (Event A)
      → ArrayList Factor A
      → Bool × ArrayList Factor A × List (Event A)
      → Type 0
  Moved P Q given list (true, moved, events) = IsMoved P list moved × (events ≡ given)
  Moved P Q given list (false, kept, events) = (kept ≡ list) × (events ≡ []) × Q

  module _ (memory : Memory A) (sound : IsSound memory) (list : ArrayList Factor A)
      (valid : IsValid list) where
    array-IsMoved :
        (n : ℕ) (block : List A)
        → length block ≡ n
        → min_capacity ≤ n
        → n ≤ max_capacity
        → list.size ≤ n
        → ((k : ℕ) → k < list.size → cell block k ≡ cell list.elements k)
        → IsMoved (λ c. c ≡ n) list (record list { elements = block; capacity = n })
    array-IsMoved n block whole large small room same = record {
      valid = record { storage = whole; large = large; small = small; size_in = room };
      capacity_as = refl;
      same_cells = same;
      same_size = refl;
      same_factor = refl;
      same_destruct = refl;
      same_count = refl;
    }

    module _ (n : ℕ) (large : min_capacity ≤ n) (small : n ≤ max_capacity)
        (room : list.size ≤ n) where
      resized-alloc :
          (answer : Option (List A))
          → memory.alloc n ≡ answer
          → Moved
              (λ c. c ≡ n)
              (Refuses memory)
              (replaced_by none)
              list
              (resized list n (freed elements_block ∷ []) (copied list answer))
      unfolding resized copied
      resized-alloc none e = (refl, refl, inl (n, e))
      resized-alloc (some block) e =
          let old = take list.size list.elements in
          let inside : list.size ≤ length list.elements =
            omega (arith, valid.storage, valid.size_in) in
          let size = length-take list.size list.elements inside in
          let whole = sound.alloc_whole n block e in
          (
            array-IsMoved n (write_from block 0 old) (length-write_from block 0 old ∙ whole) large
                small room
                (λ k p.
                  ap (cell (write_from block 0 old)) {y = 0 + k} (omega arith)
                  ∙ get_or-write_from block 0 old k pointer.null (omega arith) (omega arith)
                  ∙ get_or-take list.size list.elements k pointer.null p),
            refl,
          )

      resized-realloc :
          (realloc : List A → ℕ → Option (List A)) (answer : Option (List A))
          → memory.realloc ≡ some realloc
          → realloc list.elements n ≡ answer
          → Moved
              (λ c. c ≡ n)
              (Refuses memory)
              (replaced_by (some realloc))
              list
              (resized list n [] answer)
      unfolding resized
      resized-realloc realloc none given e = (refl, refl, inr (realloc, list.elements, n, given, e))
      resized-realloc realloc (some block) given e = (
        array-IsMoved n block (sound.realloc_whole realloc list.elements block n given e) large
            small room
            (λ k p.
              sound.realloc_keeps realloc list.elements block n k given e (omega arith)
                (omega (arith, valid.storage, valid.size_in))),
        refl,
      )

      resize_by-Moved :
          (realloc : Option (List A → ℕ → Option (List A)))
          → memory.realloc ≡ realloc
          → Moved
              (λ c. c ≡ n)
              (Refuses memory)
              (replaced_by realloc)
              list
              (resize_by memory list n realloc)
      unfolding resize_by
      resize_by-Moved none given = resized-alloc (memory.alloc n) refl
      resize_by-Moved (some realloc) given =
          resized-realloc realloc (realloc list.elements n) given refl

    -- `resize` to a capacity that has room, once it is clamped, for the elements.
    pub resize-Moved :
        (n : ℕ)
        → list.size ≤ clamped n
        → Moved
            (λ c. c ≡ clamped n)
            (Refuses memory)
            (replaced_by memory.realloc)
            list
            (resize memory list n)
    unfolding resize
    resize-Moved n room =
        let (large, small) = clamped_bounds n in
        resize_by-Moved (clamped n) large small room memory.realloc refl
