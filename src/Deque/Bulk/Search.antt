-- ===== src/Deque/Bulk/Search.antt =====
-- `deque_contains`, `deque_contains_all` and `deque_equals` against searches of the list.
use mathlib.Core.Path.{fun_ext}
use libcdsa.Base.Search.{any, all, pairwise, pairwise-length}
use libcdsa.Base.{
  ℕ, zero, suc, ◌+◌, ◌≡◌, refl, sym, ap, ◌∙◌, arith, Bool, true, false, ◌||◌, List, [], ◌∷◌, ◌==◌,
  Bool-cases, inl, inr,
}
use libcdsa.Core.{Pointer, Collection, map_outcome}
use libcdsa.Deque.{Deque, element_at, elements_from}
use libcdsa.Deque.Inv.{contents, length-elements_from}
use libcdsa.Deque.Bulk.{
  contains_loop, contains, contains_each, contains_all, equals_loop, deque_equals,
}

module _ {ℓ} {A : Type ℓ} ⦃pointer : Pointer A⦄ (equals : A → A → Bool) where
  contains_loop-any :
      (n i : ℕ) (deque : Deque A) (x : A)
      → contains_loop equals n i deque x ≡ any (λ y. equals y x) (elements_from deque i n)
  unfolding contains_loop elements_from
  contains_loop-any zero i deque x = refl
  contains_loop-any (suc n) i deque x = elim (Bool-cases (equals (element_at deque i) x)) [
    | inl e ↦ rw (e, contains_loop)
    | inr e ↦ rw (e, contains_loop) (contains_loop-any n (i + 1) deque x)
  ]

  -- `deque_contains` finds whether some element, from front to back, equals the argument.
  pub contains-any :
      (deque : Deque A) (x : A) → contains equals deque x ≡ any (λ y. equals y x) (contents deque)
  unfolding contains
  contains-any deque x = contains_loop-any deque.size 0 deque x

  contains_each-all :
      (deque : Deque A) (xs : List A)
      → contains_each equals deque xs ≡ all (λ x. any (λ y. equals y x) (contents deque)) xs
  unfolding contains_each
  contains_each-all deque [] = refl
  contains_each-all deque (x ∷ xs) = elim (Bool-cases (contains equals deque x)) [
    | inl e ↦ rw (e, contains_each, ← contains-any deque x, e) (contains_each-all deque xs)
    | inr e ↦ rw (e, contains_each, ← contains-any deque x, e)
  ]

  equals_loop-pairwise :
      (n i : ℕ) (d e : Deque A)
      → equals_loop equals n i d e ≡ pairwise equals (elements_from d i n) (elements_from e i n)
  unfolding equals_loop elements_from
  equals_loop-pairwise zero i d e = refl
  equals_loop-pairwise (suc n) i d e =
      elim (Bool-cases (equals (element_at d i) (element_at e i))) [
        | inl h ↦ rw (h, equals_loop) (equals_loop-pairwise n (i + 1) d e)
        | inr h ↦ rw (h, equals_loop)
      ]

  -- Deque_contains_all finds whether every element of a collection equals some element of the
  -- deque, or hands on the error of the iterator of the collection.
  pub contains_all-all :
      (deque : Deque A) (collection : Collection A)
      → contains_all equals deque collection
        ≡ map_outcome (all (λ x. any (λ y. equals y x) (contents deque))) collection.iterator
  unfolding contains_all
  contains_all-all deque collection =
      ap (λ f. map_outcome f collection.iterator) (fun_ext (contains_each-all deque))

  -- Deque_equals of two deques finds whether their elements agree place by place and in number; of
  -- a deque and itself it says true.
  pub deque_equals-pairwise :
      (same_pointer : Bool) (d e : Deque A)
      → deque_equals equals same_pointer d e
        ≡ (same_pointer || pairwise equals (contents d) (contents e))
  unfolding deque_equals
  deque_equals-pairwise true d e = refl
  deque_equals-pairwise false d e = elim (Bool-cases (d.size == e.size)) [
    | inl same ↦ rw same (
        equals_loop-pairwise d.size 0 d e
        ∙ ap (λ n. pairwise equals (contents d) (elements_from e 0 n)) (ground arith))
    | inr other ↦ rw other (
        sym (
          pairwise-length equals (contents d) (contents e)
            (ground (arith, length-elements_from d 0 d.size, length-elements_from e 0 e.size))))
  ]
