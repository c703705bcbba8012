-- ===== src/ArrayList/Order/Rotate.antt =====
-- `array_list_reverse`, and rotation by three reversals.
use native.Mathlib.Nat.{mod-lt, mod_self, div-add-mod, mul-add-mod_self_left}
use libcdsa.Core.Cells.{cell}
use libcdsa.Base.{
  ℕ, ◌+◌, ◌-◌, ◌*◌, ◌/◌, ◌%◌, ◌≤◌, ◌<◌, ◌≡◌, refl, ap, ap₂, ◌∙◌, arith, inl, inr, Bool-cases, List,
  ◌++◌, reverse, length, length-reverse, get_or-reverse, take, drop, get_or, ltb, leb, ◌==◌,
  if◌then◌else◌, length-append, length-take, get_or-append, get_or-take,
}
use libcdsa.Base.Int.{ℤ, pos, negsuc}
use libcdsa.Base.Slices.{length-drop, get_or-drop, take_all, drop_all}
use libcdsa.Core.{Pointer}
use libcdsa.ArrayList.{ArrayList}
use libcdsa.ArrayList.Inv.{IsValid, contents, length-contents, contents_at, cells_from_ext}
use libcdsa.ArrayList.Removal.Replace.{Rewritten, rewritten}
use libcdsa.ArrayList.Order.{reverse_between, normalized, reverse_list, rotate_by, rotate}
use libcdsa.ArrayList.Order.Reversal.{
  length-reverse_between, cell-reverse_between, thrice, length-thrice, cell-thrice,
}

-- What is left of a distance is congruent to it.
abbrev pub Congruent : ℤ → ℕ → ℕ → Type 0
Congruent (pos n) d m = n % m ≡ d
Congruent (negsuc n) d m = (n + 1 + d) % m ≡ 0

pub normalized_lem :
    (distance : ℤ) (m : ℕ)
    → 0 < m
    → (normalized distance m < m) × Congruent distance (normalized distance m) m
unfolding normalized
normalized_lem (pos n) m h = (mod-lt n h, refl)
normalized_lem (negsuc n) m h =
    let r = (n + 1) % m in
    let small : r < m = mod-lt (n + 1) h in
    let whole = div-add-mod (n + 1) m in
    elim (Bool-cases (r == 0)) [
      | inl e ↦
          rw e (h, ap (λ (j : ℕ). j % m) {x = n + 1 + 0} {y = n + 1} (omega arith) ∙ ground arith)
      | inr e ↦ rw e (
        ground arith,
        ap (λ (j : ℕ). j % m) {x = n + 1 + (m - r)} {y = m * ((n + 1) / m) + m}
              (omega (arith, whole))
            ∙ mul-add-mod_self_left m ((n + 1) / m) m
            ∙ mod_self m,
      )
    ]

module _ {A : Type 0} ⦃pointer : Pointer A⦄ where
  -- A list turned `d` places to the right.
  abbrev pub turned : ℕ → List A → List A
  turned d xs = drop (length xs - d) xs ++ take (length xs - d) xs

  get_or-turned :
      (d : ℕ) (xs : List A) (k : ℕ)
      → d ≤ length xs
      → k < length xs
      → get_or (turned d xs) k pointer.null ≡ (
          if ltb k d
          then get_or xs (length xs - d + k) pointer.null
          else get_or xs (k - d) pointer.null)
  get_or-turned d xs k h p =
      let at = length xs - d in
      ground (
        arith,
        get_or-append (drop at xs) (take at xs) k pointer.null,
        length-drop at xs,
        get_or-drop at xs k pointer.null,
        get_or-take at xs (k - d) pointer.null,
        ap (λ (j : ℕ). get_or (take at xs) j pointer.null) {x = k - length (drop at xs)}
            {y = k - d},
      )

module _ {Factor : Type 0} {A : Type 0} ⦃pointer : Pointer A⦄ where
  rotate_by-Rewritten :
      (list : ArrayList Factor A) (d : ℕ)
      → IsValid list
      → 0 < d
      → d < list.size
      → Rewritten list (rotate_by list d) (turned d (contents list))
  unfolding rotate_by
  rotate_by-Rewritten list d valid d0 dn =
      let c = contents list in
      let size = length-contents list in
      let room : list.size ≤ length list.elements = omega (arith, valid.storage, valid.size_in) in
      rewritten list (thrice list.elements list.size d) (turned d c) valid
        (length-thrice list.elements list.size d)
        (cells_from_ext (thrice list.elements list.size d) list.size (turned d c)
          (omega (
            arith,
            size,
            length-append (drop (length c - d) c) (take (length c - d) c),
            length-drop (length c - d) c,
            length-take (length c - d) c,
          ))
          (λ k p. ground (
            arith,
            size,
            cell-thrice list.elements list.size d k,
            get_or-turned d c k,
            contents_at list (length c - d + k),
            contents_at list (k - d),
            ap (λ (j : ℕ). cell list.elements j) {x = length c - d + k} {y = list.size - d + k},
          )))

  still-Rewritten :
      (list : ArrayList Factor A) (d : ℕ)
      → IsValid list
      → d ≡ 0
      → Rewritten list list (turned d (contents list))
  still-Rewritten list d valid e =
      let c = contents list in
      let same : turned d c ≡ c = rw e (
        ap (λ (i : ℕ). drop i c ++ take i c) {x = length c - 0} {y = length c} (omega arith)
        ∙ ap₂ (λ (xs ys : List A). xs ++ ys) (drop_all c) (take_all c)) in
      rw same (rewritten list list.elements c valid refl refl)

  -- Array_list_rotate on a valid list that is not empty turns its elements to the right by a
  -- number of places below the size that is congruent to the distance, negative distances
  -- included, and changes nothing else.
  pub rotate_turns :
      (list : ArrayList Factor A) (distance : ℤ)
      → IsValid list
      → 0 < list.size
      → let d = normalized distance list.size in
        (d < list.size)
        × Congruent distance d list.size
        × Rewritten list (rotate list distance) (turned d (contents list))
  unfolding rotate
  rotate_turns list distance valid some_left =
      let d = normalized distance list.size in
      let (below, congruent) = normalized_lem distance list.size some_left in
      (
        below,
        congruent,
        elim (Bool-cases (leb list.size 1)) [
          | inl one ↦ rw (rotate, one) (still-Rewritten list d valid (ground arith))
          | inr more ↦ elim (Bool-cases (d == 0)) [
            | inl none_left ↦
                rw (rotate, more, none_left) (still-Rewritten list d valid (ground arith))
            | inr some_turn ↦
                rw (rotate, more, some_turn) (rotate_by-Rewritten list d valid (ground arith) below)
          ]
        ],
      )

  pub reverse_list_reverses :
      (list : ArrayList Factor A)
      → IsValid list
      → Rewritten list (reverse_list list) (reverse (contents list))
  unfolding reverse_list
  reverse_list_reverses list valid =
      let c = contents list in
      let size = length-contents list in
      rewritten list (reverse_between list.elements 0 (list.size - 1)) (reverse c) valid
        (length-reverse_between list.elements 0 (list.size - 1))
        (cells_from_ext (reverse_between list.elements 0 (list.size - 1)) list.size (reverse c)
          (length-reverse c ∙ size)
          (λ k p. ground (
            arith,
            size,
            valid.storage,
            valid.size_in,
            cell-reverse_between list.elements 0 (list.size - 1) k,
            get_or-reverse c k pointer.null,
            contents_at list (length c - 1 - k),
            ap (λ (j : ℕ). cell list.elements j) {x = 0 + (list.size - 1) - k}
                {y = length c - 1 - k},
          )))
