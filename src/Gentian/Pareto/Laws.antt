-- ===== src/Gentian/Pareto/Laws.antt =====
-- The frontier is an antichain that covers every label offered.
use catenary_backend.Common.{
  ◌≡◌, refl, sym, ◌⊎◌, inl, inr, Bool, true, false, not, List, [], ◌∷◌, ◌++◌, any, filter, In,
  In-append, In-append_left, In-append_right, In-filter, In-filter_intro, Bool-cases, arith,
}
use mathlib.Core.Path.{subst}
use catenary_backend.Gentian.Pareto.{Label, dominates, update_frontier, frontier_of}

pub dominates_refl : (a : Label) → dominates a a ≡ true
unfolding dominates
dominates_refl a = ground arith

pub dominates_trans :
    (a b c : Label) → dominates a b ≡ true → dominates b c ≡ true → dominates a c ≡ true
unfolding dominates
dominates_trans a b c p q = ground arith

-- Neither label dominates the other.
abbrev pub Apart : Label → Label → Type 0
Apart a b = (dominates a b ≡ false) × (dominates b a ≡ false)

abbrev pub ApartFrom : Label → List Label → Type 0
ApartFrom a [] = Unit
ApartFrom a (b ∷ bs) = Apart a b × ApartFrom a bs

abbrev pub IsAntichain : List Label → Type 0
IsAntichain [] = Unit
IsAntichain (a ∷ as') = ApartFrom a as' × IsAntichain as'

-- Some label of the list dominates `l`.
abbrev pub Covers : List Label → Label → Type 0
Covers frontier l = (f : Label) × In f frontier × (dominates f l ≡ true)

any-Covers :
    (new : Label) (frontier : List Label)
    → any (λ existing. dominates existing new) frontier ≡ true
    → Covers frontier new
unfolding any
any-Covers new [] h = absurd (ground arith)
any-Covers new (f ∷ frontier) h = go (Bool-cases (dominates f new)) (any-Covers new frontier)
  where
    go :
        (dominates f new ≡ true) ⊎ (dominates f new ≡ false)
        → (any (λ existing. dominates existing new) frontier ≡ true → Covers frontier new)
        → Covers (f ∷ frontier) new
    go (inl d) ih = (f, inl refl, d)
    go (inr d) ih = let (g, m, dg) = ih (rw d at h) in (g, inr m, dg)

any-false :
    (new f : Label) (frontier : List Label)
    → any (λ existing. dominates existing new) frontier ≡ false
    → In f frontier
    → dominates f new ≡ false
unfolding any
any-false new f [] h m = elim m [ ]
any-false new f (g ∷ frontier) h (inl e) = rw e (ground arith)
any-false new f (g ∷ frontier) h (inr m) = any-false new f frontier (ground arith) m

ApartFrom-intro :
    (a : Label) (bs : List Label) → ((b : Label) → In b bs → Apart a b) → ApartFrom a bs
ApartFrom-intro a [] h = tt
ApartFrom-intro a (b ∷ bs) h = (h b (inl refl), ApartFrom-intro a bs (λ c m. h c (inr m)))

ApartFrom-elim : (a b : Label) (bs : List Label) → ApartFrom a bs → In b bs → Apart a b
ApartFrom-elim a b [] h m = elim m [ ]
ApartFrom-elim a b (c ∷ bs) h (inl e) = subst (Apart a) (sym e) h.0
ApartFrom-elim a b (c ∷ bs) h (inr m) = ApartFrom-elim a b bs h.1 m

IsAntichain-filter :
    (keep : Label → Bool) (xs : List Label) → IsAntichain xs → IsAntichain (filter keep xs)
unfolding filter
IsAntichain-filter keep [] h = tt
IsAntichain-filter keep (x ∷ xs) h = elim (Bool-cases (keep x)) [
  | inl t ↦ rw t (
    ApartFrom-intro x (filter keep xs) (λ b m. ApartFrom-elim x b xs h.0 (In-filter keep b xs m).0),
    IsAntichain-filter keep xs h.1,
  )
  | inr t ↦ rw t (IsAntichain-filter keep xs h.1)
]

IsAntichain-append_one :
    (xs : List Label) (new : Label)
    → IsAntichain xs
    → ((x : Label) → In x xs → Apart x new)
    → IsAntichain (xs ++ new ∷ [])
IsAntichain-append_one [] new h apart = (tt, tt)
IsAntichain-append_one (x ∷ xs) new h apart = (
  ApartFrom-intro x (xs ++ new ∷ []) (λ b m. elim (In-append b xs (new ∷ []) m) [
    | inl old ↦ ApartFrom-elim x b xs h.0 old
    | inr (inl is) ↦ subst (Apart x) (sym is) (apart x (inl refl))
    | inr (inr never) ↦ elim never [ ]
  ]),
  IsAntichain-append_one xs new h.1 (λ b m. apart b (inr m)),
)

not-eq-true : (b : Bool) → not b ≡ true → b ≡ false
not-eq-true b h = ground arith

not-eq-false : (b : Bool) → b ≡ false → not b ≡ true
not-eq-false b h = ground arith

-- The update keeps an antichain.
update_frontier-IsAntichain :
    (new : Label) (frontier : List Label)
    → IsAntichain frontier
    → IsAntichain (update_frontier new frontier)
unfolding update_frontier
update_frontier-IsAntichain new frontier h =
    elim (Bool-cases (any (λ existing. dominates existing new) frontier)) [
      | inl old ↦ rw old h
      | inr fresh ↦ rw fresh (
          IsAntichain-append_one (filter (λ existing. not (dominates new existing)) frontier) new
            (IsAntichain-filter (λ existing. not (dominates new existing)) frontier h)
            (λ x m.
              let (old, apart) =
                In-filter (λ existing. not (dominates new existing)) x frontier m in
              (any-false new x frontier fresh old, not-eq-true (dominates new x) apart)))
    ]

-- The update covers the new label and all that was covered.
update_frontier-Covers :
    (new l : Label) (frontier : List Label)
    → Covers frontier l ⊎ (l ≡ new)
    → Covers (update_frontier new frontier) l
unfolding update_frontier
update_frontier-Covers new l frontier h =
    elim (Bool-cases (any (λ existing. dominates existing new) frontier)) [
      | inl old ↦ rw old (elim h [
        | inl c ↦ c
        | inr is ↦ subst (Covers frontier) (sym is) (any-Covers new frontier old)
      ])
      | inr fresh ↦ rw fresh (elim h [
        | inr is ↦ (
          new,
          In-append_right new kept (new ∷ []) (inl refl),
          subst (λ t. dominates new t ≡ true) (sym is) (dominates_refl new),
        )
        | inl (f, m, d) ↦ elim (Bool-cases (dominates new f)) [
          | inl gone ↦
              (new, In-append_right new kept (new ∷ []) (inl refl), dominates_trans new f l gone d)
          | inr stays ↦ (
            f,
            In-append_left f kept (new ∷ []) (
                In-filter_intro (λ existing. not (dominates new existing)) f frontier m
                  (not-eq-false (dominates new f) stays)),
            d,
          )
        ]
      ])
    ]
  where
    kept : List Label
    kept = filter (λ existing. not (dominates new existing)) frontier

-- From an antichain, the frontier stays one: of two of its labels neither dominates the other.
pub frontier_of-IsAntichain :
    (labels frontier : List Label)
    → IsAntichain frontier
    → IsAntichain (frontier_of labels frontier)
unfolding frontier_of
frontier_of-IsAntichain [] frontier h = h
frontier_of-IsAntichain (l ∷ labels) frontier h =
    frontier_of-IsAntichain labels (update_frontier l frontier)
      (update_frontier-IsAntichain l frontier h)

-- Every label that was offered, or that the frontier covered before, is dominated by a label of
-- the frontier in the end: nothing that matters is lost.
pub frontier_of-Covers :
    (labels frontier : List Label) (l : Label)
    → In l labels ⊎ Covers frontier l
    → Covers (frontier_of labels frontier) l
unfolding frontier_of
frontier_of-Covers [] frontier l (inl m) = elim m [ ]
frontier_of-Covers [] frontier l (inr c) = c
frontier_of-Covers (x ∷ labels) frontier l (inl (inl is)) =
    frontier_of-Covers labels (update_frontier x frontier) l
      (inr (update_frontier-Covers x l frontier (inr is)))
frontier_of-Covers (x ∷ labels) frontier l (inl (inr m)) =
    frontier_of-Covers labels (update_frontier x frontier) l (inl m)
frontier_of-Covers (x ∷ labels) frontier l (inr c) =
    frontier_of-Covers labels (update_frontier x frontier) l
      (inr (update_frontier-Covers x l frontier (inl c)))
