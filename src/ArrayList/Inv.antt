-- ===== src/ArrayList/Inv.antt =====
-- The representation invariant of the array list, and the list of elements that it stands for.
use libcdsa.Core.Cells.{cell, cells_from, length-cells_from, get_or-cells_from}
use libcdsa.Core.Growing.{min_capacity, max_capacity}
use libcdsa.Base.{ℕ, ◌≤◌, ◌<◌, ◌≡◌, sym, ap, ◌∙◌, arith, List, length, get_or, get_or_ext}
use libcdsa.Core.{Pointer, bump}
use libcdsa.ArrayList.{ArrayList}

pub record IsValid {ℓ} {Factor : Type 0} {A : Type ℓ} (list : ArrayList Factor A) : Type ℓ where
  pub storage : length list.elements ≡ list.capacity
  pub large : min_capacity ≤ list.capacity
  pub small : list.capacity ≤ max_capacity
  pub size_in : list.size ≤ list.capacity

module _ {ℓ} {Factor : Type 0} {A : Type ℓ} ⦃pointer : Pointer A⦄ where
  -- The elements, in order.
  abbrev pub contents : ArrayList Factor A → List A
  contents list = cells_from list.elements 0 list.size

  pub length-contents : (list : ArrayList Factor A) → length (contents list) ≡ list.size
  length-contents list = length-cells_from list.elements 0 list.size

  pub contents_at :
      (list : ArrayList Factor A) (k : ℕ)
      → k < list.size
      → get_or (contents list) k pointer.null ≡ cell list.elements k
  contents_at list k h =
      get_or-cells_from list.elements 0 list.size k h ∙ ap (cell list.elements) (omega arith)

  -- `after` is valid, keeps the factor and the destructor, and has counted one modification.
  pub record Changed (list after : ArrayList Factor A) : Type ℓ where
    pub valid : IsValid after
    pub same_factor : after.growth_factor ≡ list.growth_factor
    pub same_destruct : after.destruct ≡ list.destruct
    pub counted : after.modification_count ≡ bump list.modification_count

module _ {ℓ} {A : Type ℓ} ⦃pointer : Pointer A⦄ where
  -- An array whose first cells are the entries of a list.
  pub cells_from_ext :
      (elements : List A) (n : ℕ) (xs : List A)
      → length xs ≡ n
      → ((k : ℕ) → k < n → cell elements k ≡ get_or xs k pointer.null)
      → cells_from elements 0 n ≡ xs
  cells_from_ext elements n xs size same =
      get_or_ext pointer.null (cells_from elements 0 n) xs
        (length-cells_from elements 0 n ∙ sym size)
        (λ k h.
          let k_n : k < n = omega (arith, length-cells_from elements 0 n) in
          get_or-cells_from elements 0 n k k_n ∙ ap (cell elements) (omega arith) ∙ same k k_n)
