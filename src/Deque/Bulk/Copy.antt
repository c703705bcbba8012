-- ===== src/Deque/Bulk/Copy.antt =====
-- `deque_clone` and `deque_to_array`.
use libcdsa.Base.{
  ℕ, ◌≡◌, ◌⊎◌, inl, inr, refl, sym, ap, ◌∙◌, Bool, true, false, none, List, [], arith, length,
  get_or, write_from, replicate, length-replicate, length-write_from, get_or-write_from, get_or_ext,
}
use libcdsa.Base.Bits.{pow-le_of_lt_double}
use libcdsa.Core.{
  Pointer, Alloc, IsHonest, Event, Outcome, ok, err, memory_allocation, Destructor, noop_destruct,
}
use libcdsa.Deque.{Deque, add_last}
use libcdsa.Deque.Inv.{IsValid, contents, length-elements_from}
use libcdsa.Deque.Refine.{at_back}
use libcdsa.Deque.Create.{Created, IsFresh, IsAcceptable, new-Created}
use libcdsa.Deque.Bulk.{add_each, clone_options, copy_into, clone, to_array}
use libcdsa.Deque.Bulk.Fill.{add_each-IsFilled, add_last-Pushes, join_each, join_each-at_back}

module _ {ℓ} {A : Type ℓ} ⦃pointer : Pointer A⦄ where
  -- Deque_to_array, where it has memory, returns the elements front to back.
  pub to_array_refines : (deque : Deque A) → to_array true deque ≡ ok (contents deque)
  unfolding to_array
  to_array_refines deque =
      let size = length-elements_from deque 0 deque.size in
      let cells = length-replicate deque.size pointer.null in
      let written = length-write_from (replicate deque.size pointer.null) 0 (contents deque) in
      ap ok (
        get_or_ext pointer.null _ _ (written ∙ cells ∙ sym size) (λ i p.
          ap
            (λ j.
              get_or (write_from (replicate deque.size pointer.null) 0 (contents deque)) j
                pointer.null)
            (omega arith)
          ∙ get_or-write_from (replicate deque.size pointer.null) 0 (contents deque) i pointer.null
              (omega (arith, size, cells)) (omega (arith, written, cells, size))))

  -- How `deque_clone` ends.
  abbrev pub Cloned :
      Bool → Alloc A → Deque A → Outcome (Deque A × Outcome (Unit {0})) × List (Event A) → Type ℓ
  Cloned struct_alloc alloc deque (ok (copy, r), events) =
      IsValid copy
      × (contents copy ≡ contents deque)
      × (copy.capacity ≡ deque.capacity)
      × (copy.destruct ≡ noop_destruct)
      × (r ≡ ok tt)
      × (events ≡ [])
  Cloned struct_alloc alloc deque (err e, events) =
      (e ≡ memory_allocation) × ((struct_alloc ≡ false) ⊎ ((n : ℕ) × (alloc n ≡ none)))

  module _ (struct_alloc : Bool) (alloc : Alloc A) {deque : Deque A} (v : IsValid deque) where
    clone_options-IsAcceptable : IsAcceptable (clone_options deque) deque.capacity noop_destruct
    clone_options-IsAcceptable = record {
      capacity_given = refl;
      large = v.large;
      small = v.small;
      destruct_given = refl;
      equals_given = refl;
      to_string_given = refl;
      memory_alloc_given = refl;
      memory_dealloc_given = refl;
    }

    same_power :
        {n : ℕ} {fresh : Deque A} {d : Destructor}
        → IsFresh n d fresh
        → n ≡ deque.capacity
        → fresh.capacity ≡ deque.capacity
    same_power f e =
        let below =
          pow-le_of_lt_double f.valid.exponent v.exponent
            (omega (arith, f.valid.power, v.power, f.least, e)) in
        omega (arith, below, f.valid.power, v.power, f.enough, e)

    copied :
        {n : ℕ} {d : Destructor} (fresh : Deque A)
        → IsAcceptable (clone_options deque) n d
        → IsFresh n d fresh
        → (copy : Deque A) × (add_each (add_last alloc) fresh (contents deque) ≡ (copy, ok tt, []))
          × Cloned struct_alloc alloc deque (ok (copy, ok tt), [])
    copied {n} fresh a f =
        let power = same_power f (ground (arith, a.capacity_given)) in
        let none_in : fresh.size ≡ 0 =
          sym (length-elements_from fresh 0 fresh.size) ∙ ap length f.empty in
        let (copy, e, filled) =
          add_each-IsFilled at_back (add_last alloc) (add_last-Pushes alloc) fresh (contents deque)
            f.valid
            (omega (arith, length-elements_from deque 0 deque.size, v.size_in, power, none_in)) in
        (
          copy,
          e,
          (
            filled.valid,
            filled.holds
                ∙ ap (λ held. join_each at_back held (contents deque)) f.empty
                ∙ join_each-at_back [] (contents deque),
            filled.same_capacity ∙ power,
            ground (arith, filled.same_destruct, f.destructs, a.destruct_given),
            refl,
            refl,
          ),
        )

    copy_into-Cloned :
        (made : Outcome (Deque A) × List (Event A))
        → Created (clone_options deque) struct_alloc alloc made
        → Cloned struct_alloc alloc deque (copy_into alloc deque made)
    unfolding copy_into
    copy_into-Cloned (ok fresh, events) (n, d, a, f, none_yet) =
        let (copy, e, c) = copied fresh a f in rw (none_yet, e) c
    copy_into-Cloned (err e, events) (inl (illegal, _, never)) =
        absurd (never _ _ clone_options-IsAcceptable)
    copy_into-Cloned (err e, events) (inr (inl (memory, _, refused, _))) = (memory, inl refused)
    copy_into-Cloned (err e, events) (inr (inr (memory, _, _, refused))) = (memory, inr refused)

    -- Where a block that is handed out has the size asked for: deque_clone of a valid deque makes
    -- a valid deque of the same elements and capacity whose destructor does nothing, with no error
    -- left by the calls that copy the elements, and fails only with MEMORY_ALLOCATION_ERROR where
    -- memory is refused.
    pub clone_refines :
        IsHonest alloc → Cloned struct_alloc alloc deque (clone struct_alloc alloc deque)
    unfolding clone
    clone_refines honest =
        copy_into-Cloned _ (new-Created (clone_options deque) struct_alloc alloc honest)
