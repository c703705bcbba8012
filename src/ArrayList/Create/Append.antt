-- ===== src/ArrayList/Create/Append.antt =====
-- The loop of `array_list_sub_list`, in an array with room for all that it adds.
use mathlib.Core.List.{append-nil, append_assoc}
use libcdsa.Core.Growing.{Scaling}
use libcdsa.Base.{
  ℕ, ◌+◌, ◌-◌, ◌≤◌, ◌<◌, ◌≡◌, refl, sym, ap, ap₂, ◌∙◌, arith, List, [], ◌∷◌, ◌++◌, length, take,
  drop, length-set, le→ltb_false, le→leb,
}
use libcdsa.Base.Slices.{take_all, drop_all}
use libcdsa.Core.{Pointer, ok}
use libcdsa.ArrayList.{ArrayList, Memory, insert, move_up, add_at, add, add_last, ensure_capacity}
use libcdsa.ArrayList.Inv.{IsValid, contents, length-contents}
use libcdsa.ArrayList.Moves.{length-move_up}
use libcdsa.ArrayList.Insert.{insert-contents}
use libcdsa.ArrayList.Create.{add_each}

module _ {Factor : Type 0} {A : Type 0} ⦃pointer : Pointer A⦄ where
  -- A list with `xs` appended, in the same array.
  pub record IsAppended (list after : ArrayList Factor A) (xs : List A) : Type 0 where
    pub valid : IsValid after
    pub now : contents after ≡ contents list ++ xs
    pub longer : after.size ≡ list.size + length xs
    pub same_capacity : after.capacity ≡ list.capacity
    pub same_factor : after.growth_factor ≡ list.growth_factor
    pub same_destruct : after.destruct ≡ list.destruct

  module _ ⦃scaling : Scaling Factor⦄ (memory : Memory A) where
    add_last-fits :
        (list : ArrayList Factor A) (x : A)
        → list.size < list.capacity
        → add_last memory list x ≡ (insert list list.size x, ok tt, [])
    unfolding add_last add add_at ensure_capacity
    add_last-fits list x room = rw (
      le→ltb_false list.size list.size (omega arith),
      le→leb (list.size + 1) list.capacity (omega arith),
    )

    insert-IsAppended :
        (list : ArrayList Factor A) (x : A)
        → IsValid list
        → list.size < list.capacity
        → IsAppended list (insert list list.size x) (x ∷ [])
    unfolding insert
    insert-IsAppended list x valid room =
        let c = contents list in
        let size = length-contents list in
        let all : take list.size c ≡ c = ap (λ (m : ℕ). take m c) (sym size) ∙ take_all c in
        let none_left : drop list.size c ≡ [] = ap (λ (m : ℕ). drop m c) (sym size) ∙ drop_all c in
        record {
          valid = record {
            storage =
                length-set (move_up list.elements list.size 1 (list.size - list.size)) list.size x
                ∙ length-move_up list.elements list.size 1 (list.size - list.size)
                ∙ valid.storage;
            large = valid.large;
            small = valid.small;
            size_in = omega arith;
          };
          now =
              insert-contents list list.size x (omega arith) (omega (arith, valid.storage))
              ∙ ap₂ (λ (xs ys : List A). xs ++ (x ∷ ys)) all none_left;
          longer = refl;
          same_capacity = refl;
          same_factor = refl;
          same_destruct = refl;
        }

    IsAppended-trans :
        (list one all : ArrayList Factor A) (x : A) (xs : List A)
        → IsAppended list one (x ∷ [])
        → IsAppended one all xs
        → IsAppended list all (x ∷ xs)
    IsAppended-trans list one all x xs a b = record {
      valid = b.valid;
      now = b.now ∙ ap (λ (ys : List A). ys ++ xs) a.now ∙ append_assoc (contents list) (x ∷ []) xs;
      longer = omega (arith, a.longer, b.longer);
      same_capacity = b.same_capacity ∙ a.same_capacity;
      same_factor = b.same_factor ∙ a.same_factor;
      same_destruct = b.same_destruct ∙ a.same_destruct;
    }

    -- The loop has room for all that it adds.
    unfoldable pub AddedEach : ArrayList Factor A → List A → Type 0
    AddedEach list xs =
        (after : ArrayList Factor A) × (add_each memory list xs ≡ (after, ok tt, []))
        × IsAppended list after xs

    AddedEach-next :
        (list one : ArrayList Factor A) (x : A) (xs : List A)
        → add_last memory list x ≡ (one, ok tt, [])
        → IsAppended list one (x ∷ [])
        → AddedEach one xs
        → AddedEach list (x ∷ xs)
    unfolding AddedEach add_each
    AddedEach-next list one x xs here a (all, there, b) =
        (all, rw (here, add_each, there), IsAppended-trans list one all x xs a b)

    pub add_each-fits :
        (list : ArrayList Factor A) (xs : List A)
        → IsValid list
        → list.size + length xs ≤ list.capacity
        → AddedEach list xs
    unfolding AddedEach add_each
    add_each-fits list [] valid room = (
      list,
      refl,
      record {
        valid = valid;
        now = sym (append-nil (contents list));
        longer = omega arith;
        same_capacity = refl;
        same_factor = refl;
        same_destruct = refl;
      },
    )
    add_each-fits list (x ∷ xs) valid room =
        let one = insert list list.size x in
        let a = insert-IsAppended list x valid (omega arith) in
        AddedEach-next list one x xs (add_last-fits list x (omega arith)) a
          (add_each-fits one xs a.valid (omega (arith, a.longer, a.same_capacity)))
