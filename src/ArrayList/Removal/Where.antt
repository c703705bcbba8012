-- ===== src/ArrayList/Removal/Where.antt =====
-- `array_list_remove_if`, `array_list_remove_all` and `array_list_retain_all` keep the elements that
-- fail their test.
use mathlib.Core.List.{append-nil}
use libcdsa.Core.Cells.{cell}
use libcdsa.Base.{
  ℕ, zero, suc, ◌+◌, ◌≤◌, ◌<◌, ◌≡◌, refl, sym, ap, ap₂, ◌∙◌, arith, inl, inr, Bool, true, false,
  not, Bool-cases, List, [], ◌∷◌, ◌++◌, map, reverse, length, take, drop, get_or,
}
use libcdsa.Base.Search.{filter}
use libcdsa.Base.Slices.{take_all, drop_all}
use libcdsa.Core.{Pointer, Event, destructed}
use libcdsa.ArrayList.{ArrayList, delete}
use libcdsa.ArrayList.Inv.{IsValid, contents, length-contents, contents_at}
use libcdsa.ArrayList.Delete.{delete-size, remove-delete, delete-contents, delete-Changed}
use libcdsa.ArrayList.Removal.{where_loop, remove_if, remove_all, retain_all}
use libcdsa.ArrayList.Removal.Filtering.{
  filtered, filtered_pass, filtered_fail, take_cut, reverse_pass, filter_pass,
}

module _ {Factor : Type 0} {A : Type 0} ⦃pointer : Pointer A⦄ where
  -- How the loop ends that removes, below index `n`, the elements that pass a test: the destructor
  -- gets them from the last one to the first.
  pub record Kept (condition : A → Bool) (n : ℕ) (list after : ArrayList Factor A) (count : ℕ)
      (events : List (Event A)) : Type 0 where
    pub valid : IsValid after
    pub same_factor : after.growth_factor ≡ list.growth_factor
    pub same_destruct : after.destruct ≡ list.destruct
    pub left : contents after ≡ filtered condition n (contents list)
    pub counted : after.size + count ≡ list.size
    pub destroyed :
        events
        ≡ map (destructed list.destruct) (reverse (filter condition (take n (contents list))))

  Kept-fail :
      (condition : A → Bool) (n : ℕ) (list after : ArrayList Factor A) (count : ℕ)
      (events : List (Event A))
      → IsValid list
      → n < list.size
      → condition (cell list.elements n) ≡ true
      → Kept condition n (delete list n) after count events
      → Kept condition
          (suc n)
          list
          after
          (count + 1)
          (destructed list.destruct (cell list.elements n) ∷ events)
  unfolding delete
  Kept-fail condition n list after count events valid h e k =
      let c = contents list in
      let inside : n < length c = omega (arith, length-contents list) in
      let here = contents_at list n h in
      let cut : contents (delete list n) ≡ take n c ++ drop (suc n) c =
        delete-contents list n h (omega (arith, valid.storage, valid.size_in))
        ∙ ap (λ (m : ℕ). take n c ++ drop m c) {x = n + 1} {y = suc n} (omega arith) in
      let passes : condition (get_or c n pointer.null) ≡ true = ap condition here ∙ e in
      let gone = destructed list.destruct in
      record {
        valid = k.valid;
        same_factor = k.same_factor;
        same_destruct = k.same_destruct;
        left =
            k.left
            ∙ sym (
                filtered_fail condition n c (contents (delete list n)) pointer.null inside passes
                  cut);
        counted = omega (arith, k.counted, delete-size list n);
        destroyed =
            ap (◌∷◌ (gone (cell list.elements n))) (
              k.destroyed
              ∙ ap (λ xs. map gone (reverse (filter condition xs)))
                  (take_cut n c (contents (delete list n)) (omega arith) cut))
            ∙ ap (λ x. gone x ∷ map gone (reverse (filter condition (take n c)))) (sym here)
            ∙ ap (map gone) (sym (reverse_pass condition n c pointer.null inside passes));
      }

  Kept-pass :
      (condition : A → Bool) (n : ℕ) (list after : ArrayList Factor A) (count : ℕ)
      (events : List (Event A))
      → n < list.size
      → condition (cell list.elements n) ≡ false
      → Kept condition n list after count events
      → Kept condition (suc n) list after count events
  Kept-pass condition n list after count events h e k =
      let c = contents list in
      let inside : n < length c = omega (arith, length-contents list) in
      let fails : condition (get_or c n pointer.null) ≡ false =
        ap condition (contents_at list n h) ∙ e in
      record {
        valid = k.valid;
        same_factor = k.same_factor;
        same_destruct = k.same_destruct;
        left = k.left ∙ sym (filtered_pass condition n c pointer.null inside fails);
        counted = k.counted;
        destroyed =
            k.destroyed
            ∙ ap (λ xs. map (destructed list.destruct) (reverse xs))
                (sym (filter_pass condition n c pointer.null inside fails));
      }

  where_loop-Kept :
      (condition : A → Bool) (n : ℕ) (list : ArrayList Factor A)
      → IsValid list
      → n ≤ list.size
      → let (after, count, events) = where_loop condition n list in
        Kept condition n list after count events
  unfolding where_loop
  where_loop-Kept condition zero list valid h = record {
    valid = valid;
    same_factor = refl;
    same_destruct = refl;
    left = refl;
    counted = omega arith;
    destroyed = refl;
  }
  where_loop-Kept condition (suc n) list valid h =
      elim (Bool-cases (condition (cell list.elements n))) [
        | inl e ↦
            rw (where_loop, e, remove-delete list n h)
              (Kept-fail condition n list _ _ _ valid h e (
                where_loop-Kept condition n (delete list n) (delete-Changed list n valid).valid
                  (omega (arith, delete-size list n))))
        | inr e ↦
            rw (where_loop, e)
              (Kept-pass condition n list _ _ _ h e
                (where_loop-Kept condition n list valid (omega arith)))
      ]

  -- How `array_list_remove_if` ends.
  abbrev pub Filtered :
      (A → Bool) → ArrayList Factor A → ArrayList Factor A × ℕ × List (Event A) → Type 0
  Filtered condition list (after, count, events) =
      IsValid after
      × (after.growth_factor ≡ list.growth_factor)
      × (after.destruct ≡ list.destruct)
      × (contents after ≡ filter (λ x. not (condition x)) (contents list))
      × (after.size + count ≡ list.size)
      × (events ≡ map (destructed list.destruct) (reverse (filter condition (contents list))))

  where_loop-Filtered :
      (condition : A → Bool) (list : ArrayList Factor A)
      → IsValid list
      → Filtered condition list (where_loop condition list.size list)
  where_loop-Filtered condition list valid =
      let k = where_loop-Kept condition list.size list valid (omega arith) in
      let c = contents list in
      let size = length-contents list in
      let all : take list.size c ≡ c = ap (λ (m : ℕ). take m c) (sym size) ∙ take_all c in
      let none_left : drop list.size c ≡ [] = ap (λ (m : ℕ). drop m c) (sym size) ∙ drop_all c in
      let keep = λ (x : A). not (condition x) in
      (
        k.valid,
        k.same_factor,
        k.same_destruct,
        k.left
            ∙ ap₂ (λ (xs ys : List A). filter keep xs ++ ys) all none_left
            ∙ append-nil (filter keep c),
        k.counted,
        k.destroyed ∙ ap (λ xs. map (destructed list.destruct) (reverse (filter condition xs))) all,
      )

  -- Array_list_remove_if and array_list_remove_all on a valid list leave a valid list of the
  -- elements that fail the test, in order, and array_list_retain_all of those that pass it; they
  -- pass the other elements to the destructor once each, the last one first, and return how many
  -- these are; the factor and the destructor stay.
  pub removals_filter :
      (condition : A → Bool) (list : ArrayList Factor A)
      → IsValid list
      → Filtered condition list (remove_if condition list)
        × Filtered condition list (remove_all condition list)
        × Filtered (λ x. not (condition x)) list (retain_all condition list)
  unfolding remove_if remove_all retain_all
  removals_filter condition list valid = (
    where_loop-Filtered condition list valid,
    where_loop-Filtered condition list valid,
    where_loop-Filtered (λ x. not (condition x)) list valid,
  )
