-- ===== src/ArrayList/Order.antt =====
-- The methods of the array list that permute its elements, but for sorting: reversal, rotation and
-- shuffling. `random` gives the results of the successive calls of the client's `random`, which
-- are not negative.
pub mod Reversal
pub mod Rotate
pub mod Shuffle
use libcdsa.Core.Cells.{swap}
use libcdsa.Base.{
  ℕ, zero, suc, ◌+◌, ◌-◌, ◌%◌, Bool, true, false, List, ltb, leb, ◌==◌, if◌then◌else◌,
}
use libcdsa.Base.Int.{ℤ, pos, negsuc}
use libcdsa.Core.{Pointer}
use libcdsa.ArrayList.{ArrayList}

pub data ShufflingAlgorithm : Type 0 where
  durstenfeld_shuffle sattolo_shuffle naive_shuffle : ShufflingAlgorithm

module _ {ℓ} {A : Type ℓ} ⦃pointer : Pointer A⦄ where
  unfoldable pub reverse_loop : ℕ → List A → ℕ → ℕ → List A
  reverse_loop zero elements start_index end_index = elements
  reverse_loop (suc fuel) elements start_index end_index = elim (ltb start_index end_index) [
    | true ↦
        reverse_loop fuel (swap elements start_index end_index) (start_index + 1) (end_index - 1)
    | false ↦ elements
  ]

  -- The greater index falls in every round.
  unfoldable pub reverse_between : List A → ℕ → ℕ → List A
  reverse_between elements start_index end_index =
      reverse_loop end_index elements start_index end_index

  -- The loops from index `i` down to 1, at the `calls`th call of `random`.
  unfoldable pub durstenfeld_loop : (ℕ → ℕ) → ℕ → List A → ℕ → List A
  durstenfeld_loop random calls elements zero = elements
  durstenfeld_loop random calls elements (suc i) =
      durstenfeld_loop random (calls + 1) (swap elements (suc i) (random calls % (suc i + 1))) i

  unfoldable pub sattolo_loop : (ℕ → ℕ) → ℕ → List A → ℕ → List A
  sattolo_loop random calls elements zero = elements
  sattolo_loop random calls elements (suc i) =
      sattolo_loop random (calls + 1) (swap elements (suc i) (random calls % suc i)) i

  -- The `n` rounds from `i` on.
  unfoldable pub naive_loop : (ℕ → ℕ) → ℕ → List A → ℕ → ℕ → List A
  naive_loop random size elements i zero = elements
  naive_loop random size elements i (suc n) =
      naive_loop random size (swap elements i (random i % size)) (i + 1) n

-- `distance %= size; if (distance < 0) distance += size;`, where C's remainder has the sign of
-- `distance`.
unfoldable pub normalized : ℤ → ℕ → ℕ
normalized (pos n) size = n % size
normalized (negsuc n) size =
    let remainder = (n + 1) % size in if remainder == 0 then 0 else size - remainder

module _ {ℓ} {A : Type ℓ} {Factor : Type 0} ⦃pointer : Pointer A⦄ where
  unfoldable pub reverse_list : ArrayList Factor A → ArrayList Factor A
  reverse_list list = record list { elements = reverse_between list.elements 0 (list.size - 1) }

  -- The three reversals of `array_list_rotate`.
  unfoldable pub rotate_by : ArrayList Factor A → ℕ → ArrayList Factor A
  rotate_by list distance = record list {
    elements =
        reverse_between
          (reverse_between (reverse_between list.elements 0 (list.size - 1)) 0 (distance - 1))
          distance (list.size - 1);
  }

  unfoldable pub rotate : ArrayList Factor A → ℤ → ArrayList Factor A
  rotate list distance =
      let d = normalized distance list.size in
      if leb list.size 1 then list else if d == 0 then list else rotate_by list d

  unfoldable pub shuffle : (ℕ → ℕ) → ArrayList Factor A → ShufflingAlgorithm → ArrayList Factor A
  shuffle random list durstenfeld_shuffle = record list {
    elements = durstenfeld_loop random 0 list.elements (list.size - 1);
  }
  shuffle random list sattolo_shuffle = record list {
    elements = sattolo_loop random 0 list.elements (list.size - 1);
  }
  shuffle random list naive_shuffle = record list {
    elements = naive_loop random list.size list.elements 0 list.size;
  }
