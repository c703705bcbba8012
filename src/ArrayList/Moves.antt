-- ===== src/ArrayList/Moves.antt =====
-- The loops that move elements over by some places.
use libcdsa.Core.Cells.{cell}
use libcdsa.Base.{
  ℕ, zero, suc, ◌+◌, ◌-◌, ◌≤◌, ◌<◌, ◌≡◌, refl, ap, ◌∙◌, arith, ◌&&◌, List, length, set, length-set,
  get_or-set, leb, ltb, ◌==◌, if◌then◌else◌, get_or, write_from, [], ◌∷◌,
}
use libcdsa.Core.{Pointer}
use libcdsa.ArrayList.{move_up, move_down}

module _ {A : Type 0} ⦃pointer : Pointer A⦄ where
  pub length-move_up :
      (elements : List A) (index offset n : ℕ)
      → length (move_up elements index offset n) ≡ length elements
  unfolding move_up
  length-move_up elements index offset zero = refl
  length-move_up elements index offset (suc n) =
      length-move_up (set elements (index + n + offset) (cell elements (index + n))) index offset n
      ∙ length-set elements (index + n + offset) (cell elements (index + n))

  pub cell-move_up :
      (elements : List A) (index offset n k : ℕ)
      → index + n + offset ≤ length elements
      → cell (move_up elements index offset n) k ≡ (
          if leb (index + offset) k && ltb k (index + n + offset)
          then cell elements (k - offset)
          else cell elements k)
  unfolding move_up
  cell-move_up elements index offset zero k h = ground arith
  cell-move_up elements index offset (suc n) k h =
      let x = cell elements (index + n) in
      let p = index + n + offset in
      let written = get_or-set elements p k x pointer.null (omega arith) in
      let written' = get_or-set elements p (k - offset) x pointer.null (omega arith) in
      ground (
        arith,
        cell-move_up (set elements p x) index offset n k,
        length-set elements p x,
        written,
        written',
        ap (λ (j : ℕ). cell elements j) {x = index + n} {y = k - offset},
      )

  pub length-move_down :
      (elements : List A) (index n : ℕ) → length (move_down elements index n) ≡ length elements
  unfolding move_down
  length-move_down elements index zero = refl
  length-move_down elements index (suc n) =
      length-move_down (set elements index (cell elements (index + 1))) (index + 1) n
      ∙ length-set elements index (cell elements (index + 1))

  pub cell-move_down :
      (elements : List A) (index n k : ℕ)
      → index + n < length elements
      → cell (move_down elements index n) k
        ≡ (if leb index k && ltb k (index + n) then cell elements (k + 1) else cell elements k)
  unfolding move_down
  cell-move_down elements index zero k h = ground arith
  cell-move_down elements index (suc n) k h =
      let x = cell elements (index + 1) in
      let written = get_or-set elements index k x pointer.null (omega arith) in
      let written' = get_or-set elements index (k + 1) x pointer.null (omega arith) in
      ground (
        arith,
        cell-move_down (set elements index x) (index + 1) n k,
        length-set elements index x,
        written,
        written',
        ap (λ (j : ℕ). cell elements j) {x = index + 1} {y = k + 1},
      )

  get_or-cons :
      (x : A) (xs : List A) (k : ℕ)
      → get_or (x ∷ xs) k pointer.null ≡ (if k == 0 then x else get_or xs (k - 1) pointer.null)
  get_or-cons x xs zero = refl
  get_or-cons x xs (suc k) = ground arith

  pub cell-write_from :
      (block : List A) (i : ℕ) (xs : List A) (k : ℕ)
      → i + length xs ≤ length block
      → cell (write_from block i xs) k ≡ (
          if leb i k && ltb k (i + length xs) then get_or xs (k - i) pointer.null else cell block k)
  unfolding write_from
  cell-write_from block i [] k h = ground arith
  cell-write_from block i (x ∷ xs) k h =
      let written = get_or-set block i k x pointer.null (omega arith) in
      ground (
        arith,
        cell-write_from (set block i x) (i + 1) xs k,
        length-set block i x,
        written,
        get_or-cons x xs (k - i),
        ap (λ (j : ℕ). get_or xs j pointer.null) {x = k - (i + 1)} {y = k - i - 1},
      )
