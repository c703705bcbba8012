-- ===== src/PriorityQueue/Tests.antt =====
-- A priority queue of numbers, with factors in hundredths.
use libcdsa.Core.Growing.{Scaling, IsGrowing}
use libcdsa.Core.Comparison.{IsComparison}
use libcdsa.Base.{
  ℕ, zero, suc, ◌*◌, ◌/◌, ◌≡◌, refl, arith, some, [], ◌∷◌, length, replicate, length-replicate, ltb,
  ◌==◌, if◌then◌else◌, Bool, true, map, ◌<◌,
}
use libcdsa.Base.Int.{ℤ, pos, negsuc}
use libcdsa.Core.{
  Collection, IsFaithful, ok, noop_destruct, Pointer, client_destruct, Alloc, IsHonest, destructed,
}
use libcdsa.Core.Cells.{cells_from, cell}
use libcdsa.PriorityQueue.{PriorityQueue, ensure_capacity, enqueue, dequeue}
use libcdsa.PriorityQueue.Order.{IsHeap}
use libcdsa.PriorityQueue.Refine.{IsValid, held, Became, Enqueued, Dequeued}
use libcdsa.PriorityQueue.Enqueue.{enqueue_refines}
use libcdsa.PriorityQueue.Dequeue.{dequeue_refines}
use libcdsa.PriorityQueue.Room.{Ensured, ensure_capacity_refines}
use libcdsa.PriorityQueue.Bulk.{clear, enqueue_all}
use libcdsa.PriorityQueue.Bulk.Fill.{EnqueuedAll, count, enqueue_all_refines}
use libcdsa.PriorityQueue.Bulk.Wipe.{destroys, clear_empties}
use libcdsa.PriorityQueue.Create.{PriorityQueueOptions}
use libcdsa.PriorityQueue.Clone.{Cloned, clone, clone_copies}
use libcdsa.PriorityQueue.Iteration.{Cursor}
use libcdsa.PriorityQueue.From.{From, from, from_creates}

instance ℕ-Pointer : Pointer ℕ
ℕ-Pointer = record { null = 0 }

instance ℕ-Scaling : Scaling ℕ
ℕ-Scaling = record {
  too_small = λ f. ltb f 110;
  exceeds = λ f n. ltb (n * 100) f;
  scale = λ n f. n * f / 100;
}

abbrev compare_numbers : ℕ → ℕ → ℤ
compare_numbers a b = if ltb a b then negsuc 0 else if a == b then pos 0 else pos 1

abbrev three : PriorityQueue ℕ ℕ
three = record {
  elements = 9 ∷ 4 ∷ 7 ∷ 0 ∷ 0 ∷ 0 ∷ 0 ∷ 0 ∷ 0 ∷ 0 ∷ [];
  size = 3;
  capacity = 10;
  growth_factor = 150;
  destruct = client_destruct 1;
  modification_count = 3;
}

abbrev memory : Alloc ℕ
memory n = some (replicate n 0)

memory-IsHonest : IsHonest memory
memory-IsHonest n block e =
    let size : length (replicate {A = ℕ} n 0) ≡ n = length-replicate n 0 in ground (arith, size)

compare_numbers-IsComparison : IsComparison compare_numbers
compare_numbers-IsComparison = record {
  turned = λ a b. ground arith;
  carried = λ a b c p q. ground arith;
}

three-IsHeap : IsHeap compare_numbers three.elements 3
three-IsHeap zero k0 kn = absurd (omega arith)
three-IsHeap (suc zero) k0 kn = refl
three-IsHeap (suc (suc zero)) k0 kn = refl
three-IsHeap (suc (suc (suc k))) k0 kn = absurd (omega arith)

three-IsValid : IsValid compare_numbers three
three-IsValid = record {
  storage = refl;
  large = omega arith;
  size_in = omega arith;
  heap = three-IsHeap;
}

three-IsGrowing : IsGrowing three.growth_factor
unfolding ℕ-Scaling
three-IsGrowing n large free = omega arith

enqueue_refines_example :
    Enqueued compare_numbers memory three 8 (enqueue compare_numbers memory three 8)
enqueue_refines_example =
    enqueue_refines compare_numbers-IsComparison three-IsValid memory 8 memory-IsHonest
      three-IsGrowing

dequeue_refines_example : Dequeued compare_numbers three (dequeue compare_numbers 77 three)
dequeue_refines_example = dequeue_refines compare_numbers-IsComparison three-IsValid 77

ensure_capacity_refines_example : Ensured memory three 11 (ensure_capacity memory three 11)
ensure_capacity_refines_example =
    ensure_capacity_refines memory three memory-IsHonest three-IsGrowing (omega arith) refl
      (omega arith) 11

abbrev two_numbers : Collection ℕ
two_numbers = record { size = 2; iterator = ok (20 ∷ 21 ∷ []) }

two_numbers-IsFaithful : IsFaithful two_numbers
two_numbers-IsFaithful xs e = ground arith

enqueue_all_refines_example :
    EnqueuedAll compare_numbers memory three two_numbers
      (enqueue_all compare_numbers memory three two_numbers)
enqueue_all_refines_example =
    enqueue_all_refines compare_numbers-IsComparison memory two_numbers memory-IsHonest
      three-IsGrowing two_numbers-IsFaithful three-IsValid (omega arith)

clear_empties_example :
    Became compare_numbers three (clear three).0
    × ((clear three).0.size ≡ 0)
    × ((clear three).1 ≡ map (destructed three.destruct) (cells_from three.elements 0 three.size))
    × ((k : ℕ) → k < three.size → cell (clear three).0.elements k ≡ ℕ-Pointer.null)
    × ((test : ℕ → Bool) → count (destroys test) (clear three).1 ≡ held three test)
clear_empties_example = clear_empties three-IsValid

abbrev queue_options : PriorityQueueOptions ℕ
queue_options = record {
  initial_capacity = pos 12;
  growth_factor = 150;
  destruct = some noop_destruct;
  compare = true;
  to_string = true;
  memory_alloc = true;
  memory_dealloc = true;
}

clone_copies_example : Cloned compare_numbers true memory three (clone true memory three)
unfolding ℕ-Scaling
clone_copies_example =
    clone_copies compare_numbers-IsComparison true memory three-IsValid (omega arith) refl
      memory-IsHonest

abbrev started : Cursor
started = record { cursor = 1; modification_count = 3 }

from_creates_example :
    From compare_numbers two_numbers queue_options true memory
      (from compare_numbers two_numbers queue_options true memory)
unfolding ℕ-Scaling
from_creates_example =
    from_creates compare_numbers-IsComparison two_numbers queue_options true memory memory-IsHonest
      (λ n large free. omega arith) two_numbers-IsFaithful (omega arith)
