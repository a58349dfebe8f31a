-- ===== src/Common/Lists.antt =====
-- Lists measured and indexed by native numbers, under the library's names, and predicates on them.
use Prim.Native.Nat.{ℕ, zero, suc, ◌+◌, ◌<◌}
use mathlib.Core.Path.{◌≡◌, refl, ap, sym, ◌∙◌, subst}
use mathlib.Core.Logic.{◌≢◌, ◌⊎◌, inl, inr}
use mathlib.Core.Bool.{Bool, true, false}
use mathlib.Core.List.{List, [], ◌∷◌, ◌++◌}
use mathlib.Core.Option.{Option, none, some}
use native.Mathlib.Omega.{arith}
use catenary_backend.Common.Tests.{if◌then◌else◌, Bool-cases, true_is_false, some-injective}

module _ {ℓ} {A : Type ℓ} where
  abbrev pub length : List A → ℕ
  length [] = 0
  length (x ∷ xs) = suc (length xs)

  abbrev pub get_elem? : List A → ℕ → Option A
  get_elem? [] i = none
  get_elem? (x ∷ xs) zero = some x
  get_elem? (x ∷ xs) (suc i) = get_elem? xs i

  abbrev pub get_or : List A → ℕ → A → A
  get_or [] i d = d
  get_or (x ∷ xs) zero d = x
  get_or (x ∷ xs) (suc i) d = get_or xs i d

  -- A write out of bounds changes nothing.
  abbrev pub set : List A → ℕ → A → List A
  set [] i v = []
  set (x ∷ xs) zero v = v ∷ xs
  set (x ∷ xs) (suc i) v = x ∷ set xs i v

  abbrev pub replicate : ℕ → A → List A
  replicate zero a = []
  replicate (suc n) a = a ∷ replicate n a

  abbrev pub drop : ℕ → List A → List A
  drop zero xs = xs
  drop (suc n) [] = []
  drop (suc n) (x ∷ xs) = drop n xs

  -- The elements that pass the test, in order.
  unfoldable pub filter : (A → Bool) → List A → List A
  filter f [] = []
  filter f (x ∷ xs) = let rest = filter f xs in if f x then x ∷ rest else rest

  unfoldable pub any : (A → Bool) → List A → Bool
  any f [] = false
  any f (x ∷ xs) = if f x then true else any f xs

  unfoldable pub find? : (A → Bool) → List A → Option A
  find? f [] = none
  find? f (x ∷ xs) = if f x then some x else find? f xs

-- `a` stands in the list, with the place where it stands.
abbrev pub In : {A : Type 0} → A → List A → Type 0
In a [] = ⊥
In a (x ∷ xs) = (a ≡ x) ⊎ In a xs

module _ {ℓ} {A : Type ℓ} where
  pub length-append : (xs ys : List A) → length (xs ++ ys) ≡ length xs + length ys
  length-append [] ys = omega arith
  length-append (x ∷ xs) ys = omega (arith, length-append xs ys)

  pub length-set : (xs : List A) (i : ℕ) (v : A) → length (set xs i v) ≡ length xs
  length-set [] i v = refl
  length-set (x ∷ xs) zero v = refl
  length-set (x ∷ xs) (suc i) v = ap suc (length-set xs i v)

  pub get_elem?-some : (xs : List A) (i : ℕ) → i < length xs → (a : A) × (get_elem? xs i ≡ some a)
  get_elem?-some [] i h = elim h [ ]
  get_elem?-some (x ∷ xs) zero h = (x, refl)
  get_elem?-some (x ∷ xs) (suc i) h = get_elem?-some xs i (omega arith)

  pub get_elem?-lt : (xs : List A) (i : ℕ) {a : A} → get_elem? xs i ≡ some a → i < length xs
  get_elem?-lt [] i h = absurd (ground arith)
  get_elem?-lt (x ∷ xs) zero h = omega arith
  get_elem?-lt (x ∷ xs) (suc i) h = omega (arith, get_elem?-lt xs i h)

  pub get_elem?-eq-get_or :
      (xs : List A) (i : ℕ) (d : A) → i < length xs → get_elem? xs i ≡ some (get_or xs i d)
  get_elem?-eq-get_or [] i d h = elim h [ ]
  get_elem?-eq-get_or (x ∷ xs) zero d h = refl
  get_elem?-eq-get_or (x ∷ xs) (suc i) d h = get_elem?-eq-get_or xs i d (omega arith)

  pub get_or-set_self :
      (xs : List A) (i : ℕ) (v d : A) → i < length xs → get_or (set xs i v) i d ≡ v
  get_or-set_self [] i v d h = absurd (omega arith)
  get_or-set_self (x ∷ xs) zero v d h = refl
  get_or-set_self (x ∷ xs) (suc i) v d h = get_or-set_self xs i v d (omega arith)

  pub get_or-set_ne :
      (xs : List A) (i j : ℕ) (v d : A) → i ≢ j → get_or (set xs i v) j d ≡ get_or xs j d
  get_or-set_ne [] i j v d h = refl
  get_or-set_ne (x ∷ xs) zero zero v d h = absurd (h refl)
  get_or-set_ne (x ∷ xs) zero (suc j) v d h = refl
  get_or-set_ne (x ∷ xs) (suc i) zero v d h = refl
  get_or-set_ne (x ∷ xs) (suc i) (suc j) v d h = get_or-set_ne xs i j v d (λ e. h (ap suc e))

  pub get_or-eq :
      (xs : List A) (i : ℕ) (d : A) {a : A}
      → get_elem? xs i ≡ some a
      → (get_or xs i d ≡ a) × (i < length xs)
  get_or-eq [] i d e = absurd (ground arith)
  get_or-eq (x ∷ xs) zero d e = (some-injective e, omega arith)
  get_or-eq (x ∷ xs) (suc i) d e = let (h, lt) = get_or-eq xs i d e in (h, omega arith)

  pub get_elem?-set_self :
      (xs : List A) (i : ℕ) (v : A) → i < length xs → get_elem? (set xs i v) i ≡ some v
  get_elem?-set_self [] i v h = elim h [ ]
  get_elem?-set_self (x ∷ xs) zero v h = refl
  get_elem?-set_self (x ∷ xs) (suc i) v h = get_elem?-set_self xs i v (omega arith)

  pub get_elem?-set_ne :
      (xs : List A) (i j : ℕ) (v : A) → i ≢ j → get_elem? (set xs i v) j ≡ get_elem? xs j
  get_elem?-set_ne [] i j v h = refl
  get_elem?-set_ne (x ∷ xs) zero zero v h = absurd (h refl)
  get_elem?-set_ne (x ∷ xs) zero (suc j) v h = refl
  get_elem?-set_ne (x ∷ xs) (suc i) zero v h = refl
  get_elem?-set_ne (x ∷ xs) (suc i) (suc j) v h = get_elem?-set_ne xs i j v (λ e. h (ap suc e))

module _ {A : Type 0} where
  pub get_elem?-In : (xs : List A) (i : ℕ) {a : A} → get_elem? xs i ≡ some a → In a xs
  get_elem?-In [] i h = absurd (ground arith)
  get_elem?-In (x ∷ xs) zero h = inl (ground arith)
  get_elem?-In (x ∷ xs) (suc i) h = inr (get_elem?-In xs i h)

  pub In-append_left : (a : A) (xs ys : List A) → In a xs → In a (xs ++ ys)
  In-append_left a [] ys h = elim h [ ]
  In-append_left a (x ∷ xs) ys (inl e) = inl e
  In-append_left a (x ∷ xs) ys (inr h) = inr (In-append_left a xs ys h)

  pub In-append_right : (a : A) (xs ys : List A) → In a ys → In a (xs ++ ys)
  In-append_right a [] ys h = h
  In-append_right a (x ∷ xs) ys h = inr (In-append_right a xs ys h)

  pub In-append : (a : A) (xs ys : List A) → In a (xs ++ ys) → In a xs ⊎ In a ys
  In-append a [] ys h = inr h
  In-append a (x ∷ xs) ys (inl e) = inl (inl e)
  In-append a (x ∷ xs) ys (inr h) = elim (In-append a xs ys h) [
    | inl p ↦ inl (inr p)
    | inr q ↦ inr q
  ]

  pub In-filter : (f : A → Bool) (a : A) (xs : List A) → In a (filter f xs) → In a xs × (f a ≡ true)
  unfolding filter
  In-filter f a [] h = elim h [ ]
  In-filter f a (x ∷ xs) h = go (Bool-cases (f x)) (In-filter f a xs)
    where
      go :
          (f x ≡ true) ⊎ (f x ≡ false)
          → (In a (filter f xs) → In a xs × (f a ≡ true))
          → In a (x ∷ xs) × (f a ≡ true)
      go (inl t) ih = elim (rw t at h) [
        | inl e ↦ (inl e, ap f e ∙ t)
        | inr m ↦ (inr (ih m).0, (ih m).1)
      ]
      go (inr t) ih = let m = ih (rw t at h) in (inr m.0, m.1)

  pub In-filter_intro :
      (f : A → Bool) (a : A) (xs : List A) → In a xs → f a ≡ true → In a (filter f xs)
  unfolding filter
  In-filter_intro f a [] h t = elim h [ ]
  In-filter_intro f a (x ∷ xs) (inl e) t = rw (ap f (sym e) ∙ t) (inl e)
  In-filter_intro f a (x ∷ xs) (inr h) t = elim (Bool-cases (f x)) [
    | inl p ↦ rw p (inr (In-filter_intro f a xs h t))
    | inr p ↦ rw p (In-filter_intro f a xs h t)
  ]

pub any-In :
    {A : Type 0} (f : A → Bool) (xs : List A) → any f xs ≡ true → (x : A) × In x xs × (f x ≡ true)
unfolding any
any-In f [] h = absurd (true_is_false (sym h))
any-In f (x ∷ xs) h = elim (Bool-cases (f x)) [
  | inl e ↦ (x, inl refl, e)
  | inr e ↦
      let (y, m, t) = any-In f xs (subst (λ c. (if c then true else any f xs) ≡ true) e h) in
      (y, inr m, t)
]

pub In-any :
    {A : Type 0} (f : A → Bool) (xs : List A) (x : A) → In x xs → f x ≡ true → any f xs ≡ true
unfolding any
In-any f [] x m t = absurd m
In-any f (y ∷ ys) x (inl e) t = rw (ap f (sym e) ∙ t) refl
In-any f (y ∷ ys) x (inr m) t = elim (Bool-cases (f y)) [
  | inl e ↦ rw e refl
  | inr e ↦ rw e (In-any f ys x m t)
]

pub List-cases :
    {A : Type 0} (xs : List A) → (xs ≡ []) ⊎ ((x : A) × (rest : List A) × (xs ≡ x ∷ rest))
List-cases [] = inl refl
List-cases (x ∷ rest) = inr (x, rest, refl)
