-- ===== src/Common/Sorting.antt =====
-- `sort_by_key`, which is stable: an insertion sort, for its result is that of every stable sort.
use mathlib.Core.Path.{◌≡◌, refl, ap, subst}
use mathlib.Core.Logic.{◌⊎◌, inl, inr}
use mathlib.Core.Bool.{Bool, true, false}
use mathlib.Core.List.{List, [], ◌∷◌, reverse, reverse-append}
use catenary_backend.Common.Tests.{if◌then◌else◌, Bool-cases}
use catenary_backend.Common.Lists.{In, In-append, In-append_left, In-append_right}

head_or : {A : Type 0} → A → List A → A
head_or d [] = d
head_or d (x ∷ xs) = x

∷-head : {A : Type 0} {x y : A} {xs ys : List A} → x ∷ xs ≡ y ∷ ys → x ≡ y
unfolding head_or
∷-head {A} {x} e = ap (head_or x) e

module _ {A : Type 0} where
  -- before the first element of a greater or equal key, so that equal keys keep their order
  insert_by : (A → A → Bool) → A → List A → List A
  insert_by le x [] = x ∷ []
  insert_by le x (y ∷ ys) = let rest = insert_by le x ys in if le x y then x ∷ y ∷ ys else y ∷ rest

  unfoldable pub sort_by : (A → A → Bool) → List A → List A
  unfolding insert_by
  sort_by le [] = []
  sort_by le (x ∷ xs) = insert_by le x (sort_by le xs)

  In-insert_by :
      (le : A → A → Bool) (a x : A) (ys : List A) → In a (insert_by le x ys) → In a (x ∷ ys)
  unfolding insert_by
  In-insert_by le a x [] h = h
  In-insert_by le a x (y ∷ ys) h = go (Bool-cases (le x y)) (In-insert_by le a x ys)
    where
      shift : In a (x ∷ ys) → In a (x ∷ y ∷ ys)
      shift (inl e) = inl e
      shift (inr m) = inr (inr m)

      go :
          (le x y ≡ true) ⊎ (le x y ≡ false)
          → (In a (insert_by le x ys) → In a (x ∷ ys))
          → In a (x ∷ y ∷ ys)
      go (inl t) ih = rw t at h
      go (inr t) ih = elim (rw t at h) [ inl e ↦ inr (inl e) | inr m ↦ shift (ih m) ]

  -- sorting invents no element
  pub In-sort_by : (le : A → A → Bool) (a : A) (xs : List A) → In a (sort_by le xs) → In a xs
  unfolding sort_by
  In-sort_by le a [] h = h
  In-sort_by le a (x ∷ xs) h = elim (In-insert_by le a x (sort_by le xs) h) [
    | inl e ↦ inl e
    | inr m ↦ inr (In-sort_by le a xs m)
  ]

  In-insert_by_intro :
      (le : A → A → Bool) (a x : A) (ys : List A) → In a (x ∷ ys) → In a (insert_by le x ys)
  unfolding insert_by
  In-insert_by_intro le a x [] h = h
  In-insert_by_intro le a x (y ∷ ys) h = elim (Bool-cases (le x y)) [
    | inl t ↦ rw t h
    | inr t ↦ rw t (go h (In-insert_by_intro le a x ys))
  ]
    where
      go :
          In a (x ∷ y ∷ ys)
          → (In a (x ∷ ys) → In a (insert_by le x ys))
          → In a (y ∷ insert_by le x ys)
      go (inl e) ih = inr (ih (inl e))
      go (inr (inl e)) ih = inl e
      go (inr (inr m)) ih = inr (ih (inr m))

  -- sorting loses no element
  pub In-sort_by_intro : (le : A → A → Bool) (a : A) (xs : List A) → In a xs → In a (sort_by le xs)
  unfolding sort_by
  In-sort_by_intro le a [] h = h
  In-sort_by_intro le a (x ∷ xs) (inl e) = In-insert_by_intro le a x (sort_by le xs) (inl e)
  In-sort_by_intro le a (x ∷ xs) (inr m) =
      In-insert_by_intro le a x (sort_by le xs) (inr (In-sort_by_intro le a xs m))

  pub In-reverse : (a : A) (xs : List A) → In a (reverse xs) → In a xs
  In-reverse a [] h = h
  In-reverse a (x ∷ xs) h =
      elim (In-append a (reverse xs) (x ∷ []) (rw (reverse-append (x ∷ []) xs) at h)) [
        | inl m ↦ inr (In-reverse a xs m)
        | inr (inl e) ↦ inl e
        | inr (inr never) ↦ elim never [ ]
      ]

  pub In-reverse_intro : (a : A) (xs : List A) → In a xs → In a (reverse xs)
  In-reverse_intro a [] h = h
  In-reverse_intro a (x ∷ xs) (inl e) =
      rw (reverse-append (x ∷ []) xs) (In-append_right a (reverse xs) (x ∷ []) (inl e))
  In-reverse_intro a (x ∷ xs) (inr m) =
      rw (reverse-append (x ∷ []) xs)
        (In-append_left a (reverse xs) (x ∷ []) (In-reverse_intro a xs m))

  -- The first element of a sorted list is least, for an order that is total and transitive.
  module _ (le : A → A → Bool) (total : (x y : A) → le x y ≡ false → le y x ≡ true)
      (trans : (x y z : A) → le x y ≡ true → le y z ≡ true → le x z ≡ true) where
    le_self : (x : A) → le x x ≡ true
    le_self x = elim (Bool-cases (le x x)) [ inl t ↦ t | inr f ↦ total x x f ]

    insert_by-least :
        (x m : A) (ys rest : List A)
        → insert_by le x ys ≡ m ∷ rest
        → ((z : A) (zs : List A) → ys ≡ z ∷ zs → (y : A) → In y ys → le z y ≡ true)
        → (y : A) → In y (x ∷ ys)
        → le m y ≡ true
    unfolding insert_by
    insert_by-least x m [] rest e least y (inl same) =
        let head : x ≡ m = ∷-head e in rw same (rw head (le_self m))
    insert_by-least x m [] rest e least y (inr never) = elim never [ ]
    insert_by-least x m (z ∷ zs) rest e least y h = elim (Bool-cases (le x z)) [
      | inl t ↦
          let head : x ≡ m = ∷-head (rw t at e) in
          subst (λ w. le w y ≡ true) head
            (elim h [
              | inl same ↦ rw same (le_self x)
              | inr later ↦ trans x z y t (least z zs refl y later)
            ])
      | inr f ↦
          let head : z ≡ m = ∷-head (rw f at e) in
          subst (λ w. le w y ≡ true) head
            (elim h [ inl same ↦ rw same (total x z f) | inr later ↦ least z zs refl y later ])
    ]

    pub sort_by-least :
        (xs : List A) (m : A) (rest : List A)
        → sort_by le xs ≡ m ∷ rest
        → (y : A) → In y xs
        → le m y ≡ true
    unfolding sort_by
    sort_by-least [] m rest e y h = elim h [ ]
    sort_by-least (x ∷ xs) m rest e y h =
        insert_by-least x m (sort_by le xs) rest e
          (λ z zs sorted w m'. sort_by-least xs z zs sorted w (In-sort_by le w xs m')) y
          (elim h [ inl same ↦ inl same | inr later ↦ inr (In-sort_by_intro le y xs later) ])

    -- Each element stands before those that it is not after.
    abbrev pub IsOrdered : List A → Type 0
    IsOrdered [] = Unit
    IsOrdered (x ∷ xs) = ((y : A) → In y xs → le x y ≡ true) × IsOrdered xs

    insert_by-IsOrdered : (x : A) (ys : List A) → IsOrdered ys → IsOrdered (insert_by le x ys)
    unfolding insert_by
    insert_by-IsOrdered x [] h = ((λ y m. elim m [ ]), tt)
    insert_by-IsOrdered x (z ∷ zs) (first, later) = elim (Bool-cases (le x z)) [
      | inl t ↦ rw t (
        (λ y m. elim m [ inl same ↦ rw same t | inr m ↦ trans x z y t (first y m) ]),
        (first, later),
      )
      | inr f ↦ rw f (
        (λ y m. elim (In-insert_by le y x zs m) [
          | inl same ↦ rw same (total x z f)
          | inr m ↦ first y m
        ]),
        insert_by-IsOrdered x zs later,
      )
    ]

    pub sort_by-IsOrdered : (xs : List A) → IsOrdered (sort_by le xs)
    unfolding sort_by
    sort_by-IsOrdered [] = tt
    sort_by-IsOrdered (x ∷ xs) = insert_by-IsOrdered x (sort_by le xs) (sort_by-IsOrdered xs)
