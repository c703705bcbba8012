-- ===== src/Deque/Calls.antt =====
-- A client of src/collections/deque.c: calls in any order on one deque, through a pointer that may be
-- null, against the list that the deque stands for.
use libcdsa.Base.{
  ℕ, ◌+◌, ◌<◌, ◌≡◌, inl, inr, refl, sym, ap, ap₂, subst, ◌∙◌, arith, List, [], ◌∷◌, ◌++◌, Option,
  none, some, length, length-append, ltb, lt→ltb, le→ltb_false, if◌then◌else◌,
}
use mathlib.Core.List
use libcdsa.Core.{
  Pointer, Alloc, IsHonest, Event, Outcome, ok, err, null_pointer, memory_allocation,
  no_such_element, map_outcome,
}
use libcdsa.Deque.{
  Deque, max_capacity, add_first, add_last, get_first, get_last, remove_first, remove_last,
}
use libcdsa.Deque.Inv.{IsValid, contents, length-elements_from}
use libcdsa.Deque.Refine.{
  Added, Taken, Seen, at_front, at_back, add_first_refines, add_last_refines, remove_first_refines,
  remove_last_refines, get_ends,
}
use libcdsa.Deque.Bulk.{clear, reverse}
use libcdsa.Deque.Bulk.Clear.{clear_refines}
use libcdsa.Deque.Bulk.Reversal.{reverse_refines}

pub data Call {ℓ} (A : Type ℓ) : Type ℓ where
  adds_first adds_last : A → Call A
  gets_first gets_last removes_first removes_last counts clears reverses : Call A

-- What a call answers, if it does not fail.
pub data Answer {ℓ} (A : Type ℓ) : Type ℓ where
  nothing : Answer A
  element : A → Answer A
  number : ℕ → Answer A

module _ {ℓ} {A : Type ℓ} where
  abbrev done : Outcome (Unit {0}) → Outcome (Answer A)
  done = map_outcome (λ _. nothing)

  abbrev found : Outcome A → Outcome (Answer A)
  found = map_outcome element

module _ {ℓ} {A : Type ℓ} ⦃pointer : Pointer A⦄ (alloc : Alloc A) where
  -- One call on a pointer that is not null.
  unfoldable pub call : Deque A → Call A → Deque A × Outcome (Answer A)
  call deque (adds_first x) = let (after, r, _) = add_first alloc deque x in (after, done r)
  call deque (adds_last x) = let (after, r, _) = add_last alloc deque x in (after, done r)
  call deque gets_first = (deque, found (get_first deque))
  call deque gets_last = (deque, found (get_last deque))
  call deque removes_first = let (after, r, _) = remove_first deque in (after, found r)
  call deque removes_last = let (after, r, _) = remove_last deque in (after, found r)
  call deque counts = (deque, ok (number deque.size))
  call deque clears = ((clear deque).0, ok nothing)
  call deque reverses = (reverse deque, ok nothing)

  unfoldable pub run : Option (Deque A) → List (Call A) → List (Outcome (Answer A))
  run handle [] = []
  run none (c ∷ cs) = err null_pointer ∷ run none cs
  run (some deque) (c ∷ cs) = let (after, r) = call deque c in r ∷ run (some after) cs

-- The same calls on a list of at most `max_capacity` elements.
module _ {ℓ} {A : Type ℓ} where
  unfoldable pub unsnoc : List A → Option (List A × A)
  unsnoc [] = none
  unsnoc (x ∷ xs) = elim (unsnoc xs) [ none ↦ some ([], x) | some (ys, y) ↦ some (x ∷ ys, y) ]

  unsnoc-append : (xs : List A) (y : A) → unsnoc (xs ++ y ∷ []) ≡ some (xs, y)
  unfolding unsnoc
  unsnoc-append [] y = refl
  unsnoc-append (x ∷ xs) y = rw (unsnoc-append xs y)

  bounded : List A → List A → List A × Outcome (Answer A)
  bounded old new =
      if ltb max_capacity (length old + 1) then (old, err memory_allocation) else (new, ok nothing)

  take_front : List A → List A × Outcome (Answer A)
  take_front [] = ([], err no_such_element)
  take_front (x ∷ xs) = (xs, ok (element x))

  take_back : Option (List A × A) → List A × Outcome (Answer A)
  take_back none = ([], err no_such_element)
  take_back (some (xs, x)) = (xs, ok (element x))

  unfoldable pub list_call : List A → Call A → List A × Outcome (Answer A)
  unfolding bounded take_front take_back unsnoc
  list_call xs (adds_first x) = bounded xs (x ∷ xs)
  list_call xs (adds_last x) = bounded xs (xs ++ x ∷ [])
  list_call xs gets_first = (xs, (take_front xs).1)
  list_call xs gets_last = (xs, (take_back (unsnoc xs)).1)
  list_call xs removes_first = take_front xs
  list_call xs removes_last = take_back (unsnoc xs)
  list_call xs counts = (xs, ok (number (length xs)))
  list_call xs clears = ([], ok nothing)
  list_call xs reverses = (List.reverse xs, ok nothing)

  unfoldable pub list_run : List A → List (Call A) → List (Outcome (Answer A))
  list_run xs [] = []
  list_run xs (c ∷ cs) = let (ys, r) = list_call xs c in r ∷ list_run ys cs

unsnoc-nil {ℓ} : (A : Type ℓ) → unsnoc {A = A} [] ≡ none
unfolding unsnoc
unsnoc-nil A = refl

-- An allocator with memory for every request.
abbrev pub IsGenerous {ℓ} : {A : Type ℓ} → Alloc A → Type ℓ
IsGenerous {A = A} alloc = (n : ℕ) → (block : List A) × (alloc n ≡ some block)

module _ {ℓ} {A : Type ℓ} ⦃pointer : Pointer A⦄ (alloc : Alloc A) (honest : IsHonest alloc)
    (generous : IsGenerous alloc) where
  -- A call leaves a valid deque, whose elements and answer are those of the list.
  abbrev Agrees : List A × Outcome (Answer A) → Deque A × Outcome (Answer A) → Type ℓ
  Agrees expected (after, r) = IsValid after × ((contents after, r) ≡ expected)

  length-contents : (deque : Deque A) → length (contents deque) ≡ deque.size
  length-contents deque = length-elements_from deque 0 deque.size

  Added-Agrees :
      (deque : Deque A) (xs : List A)
      → length xs ≡ deque.size + 1
      → IsValid deque
      → (r : Deque A × Outcome (Unit {0}) × List (Event A)) → Added alloc deque xs r
      → let (after, o, _) = r in Agrees (bounded (contents deque) xs) (after, done o)
  unfolding bounded
  Added-Agrees deque xs size v (after, ok _, events) (b, _) =
      rw
        (le→ltb_false max_capacity (length (contents deque) + 1) (
          omega (
            arith,
            length-contents deque,
            length-contents after,
            ap length b.holds,
            b.valid.size_in,
            b.valid.small,
          )))
        (b.valid, ap (λ ys. (ys, ok nothing)) b.holds)
  Added-Agrees deque xs size v (after, err e, events) (memory, same, _, why) =
      let over : max_capacity < length (contents deque) + 1 = elim why [
        | inl limit ↦ omega (arith, length-contents deque)
        | inr (n, refused) ↦ let (block, granted) = generous n in cc
      ] in
      rw (lt→ltb max_capacity (length (contents deque) + 1) over)
        (subst IsValid (sym same) v, ap₂ (λ d o. (contents d, err o)) same memory)

  Taken-Agrees_front :
      (deque : Deque A)
      → IsValid deque
      → (r : Deque A × Outcome A × List (Event A)) → Taken at_front deque r
      → let (after, o, _) = r in Agrees (take_front (contents deque)) (after, found o)
  unfolding take_front
  Taken-Agrees_front deque v (after, ok x, events) (split, b, _) = rw split (b.valid, refl)
  Taken-Agrees_front deque v (after, err e, events) (empty, missing, same, _) = (
    subst IsValid (sym same) v,
    ap₂ (λ d o. (contents d, err o)) same missing
        ∙ ap (λ xs. (xs, err no_such_element)) empty
        ∙ sym (ap take_front empty),
  )

  Taken-Agrees_back :
      (deque : Deque A)
      → IsValid deque
      → (r : Deque A × Outcome A × List (Event A)) → Taken at_back deque r
      → let (after, o, _) = r in Agrees (take_back (unsnoc (contents deque))) (after, found o)
  unfolding take_back
  Taken-Agrees_back deque v (after, ok x, events) (split, b, _) =
      rw (split, unsnoc-append) (b.valid, refl)
  Taken-Agrees_back deque v (after, err e, events) (empty, missing, same, _) = (
    subst IsValid (sym same) v,
    ap₂ (λ d o. (contents d, err o)) same missing
        ∙ ap (λ xs. (xs, err no_such_element)) empty
        ∙ sym (ap (λ xs. take_back (unsnoc xs)) empty ∙ ap take_back (unsnoc-nil A)),
  )

  Seen-Agrees_front :
      (deque : Deque A) (o : Outcome A)
      → Seen at_front deque o
      → found o ≡ (take_front (contents deque)).1
  unfolding take_front
  Seen-Agrees_front deque (ok x) (xs, split) = rw split
  Seen-Agrees_front deque (err e) (empty, missing) = rw (empty, missing)

  Seen-Agrees_back :
      (deque : Deque A) (o : Outcome A)
      → Seen at_back deque o
      → found o ≡ (take_back (unsnoc (contents deque))).1
  unfolding take_back
  Seen-Agrees_back deque (ok x) (xs, split) = rw (split, unsnoc-append)
  Seen-Agrees_back deque (err e) (empty, missing) = rw (empty, unsnoc-nil A, missing)

  -- Each call on a valid deque does what the call on its list does.
  call-Agrees :
      (deque : Deque A) (c : Call A)
      → IsValid deque
      → Agrees (list_call (contents deque) c) (call alloc deque c)
  unfolding call list_call
  call-Agrees deque (adds_first x) v =
      Added-Agrees deque (x ∷ contents deque) (omega (arith, length-contents deque)) v _
        (add_first_refines alloc x honest v)
  call-Agrees deque (adds_last x) v =
      Added-Agrees deque (contents deque ++ x ∷ [])
        (omega (arith, length-contents deque, length-append (contents deque) (x ∷ []))) v _
        (add_last_refines alloc x honest v)
  call-Agrees deque gets_first v =
      (v, ap (λ o. (contents deque, o)) (Seen-Agrees_front deque _ (get_ends v).0))
  call-Agrees deque gets_last v =
      (v, ap (λ o. (contents deque, o)) (Seen-Agrees_back deque _ (get_ends v).1))
  call-Agrees deque removes_first v = Taken-Agrees_front deque v _ (remove_first_refines v)
  call-Agrees deque removes_last v = Taken-Agrees_back deque v _ (remove_last_refines v)
  call-Agrees deque counts v =
      (v, ap (λ n. (contents deque, ok (number n))) (sym (length-contents deque)))
  call-Agrees deque clears v =
      let (b, _, _) = clear_refines v in (b.valid, ap (λ xs. (xs, ok nothing)) b.holds)
  call-Agrees deque reverses v =
      let (valid, turned) = reverse_refines v in (valid, ap (λ xs. (xs, ok nothing)) turned)

  -- Where a block that is handed out has the size asked for: with memory for every request, no
  -- sequence of calls on a valid deque (adding, reading and removing at both ends, the size,
  -- clearing, reversing) can be told from the same calls on the list of its elements, of which
  -- there are at most 2^30.
  pub run_refines :
      (cs : List (Call A)) {deque : Deque A}
      → IsValid deque
      → run alloc (some deque) cs ≡ list_run (contents deque) cs
  unfolding run list_run
  run_refines [] v = refl
  run_refines (c ∷ cs) {deque} v =
      let (valid, same) = call-Agrees deque c v in
      ap₂ ◌∷◌ (ap (λ p. p.1) same) (run_refines cs valid ∙ ap (λ p. list_run p.0 cs) same)
