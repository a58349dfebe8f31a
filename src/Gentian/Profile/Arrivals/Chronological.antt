-- ===== src/Gentian/Profile/Arrivals/Chronological.antt =====
-- The profiles are chronological: a later departure arrives later.
use mathlib.Core.Path.{subst}
use mathlib.Core.List.{reverse, reverse-append}
use catenary_backend.Common.{
  ℕ, ◌≤◌, ◌<◌, ◌≡◌, refl, sym, ap, inl, inr, Bool, true, false, some, List, [], ◌∷◌, ◌++◌, leb,
  leb→le, le→leb, ◌==◌, map, >>=-eq-some, some-injective, Bool-cases, In, In-append, get_elem?,
  arith, tests,
}
use catenary_backend.Common.Words.{u32_max}
use catenary_backend.Common.Loops.{for_each}
use catenary_backend.Common.Sorting.{sort_by, IsOrdered, sort_by-IsOrdered, In-reverse}
use catenary_backend.Gentian.Profile.{Query}
use catenary_backend.Gentian.Profile.Arrivals.{
  profile_arrivals, departures_at, departures_down, Profiles, last, is_improvement, add_arrival,
  update_profile, add_outcomes, run_departure, clear_profile, empty_profiles,
  run_trip_based_profile,
}
use catenary_backend.Schedules.Ranges.{dedup, dedup_after}
use catenary_backend.Schedules.Ranges.Laws.{In-dedup_after}

-- No later departure stands after an earlier one, and each arrives later than all before it.
unfoldable pub IsChronological : List (ℕ × ℕ) → Type 0
IsChronological [] = Unit
IsChronological (x ∷ xs) = ((y : ℕ × ℕ) → In y xs → (x.0 ≤ y.0) × (x.1 < y.1)) × IsChronological xs

-- The same backward, as the entries are stored.
IsBackward : List (ℕ × ℕ) → Type 0
IsBackward [] = Unit
IsBackward (x ∷ xs) = ((y : ℕ × ℕ) → In y xs → (y.0 ≤ x.0) × (y.1 < x.1)) × IsBackward xs

IsBackward-snoc :
    (xs : List (ℕ × ℕ)) (x : ℕ × ℕ)
    → IsBackward xs
    → ((y : ℕ × ℕ) → In y xs → (x.0 ≤ y.0) × (x.1 < y.1))
    → IsBackward (xs ++ x ∷ [])
unfolding IsBackward
IsBackward-snoc [] x h below = ((λ y m. absurd m), tt)
IsBackward-snoc (z ∷ zs) x (first, later) below = (
  (λ y m. elim (In-append y zs (x ∷ []) m) [
    | inl m ↦ first y m
    | inr (inl e) ↦ subst (λ w. (w.0 ≤ z.0) × (w.1 < z.1)) (sym e) (below z (inl refl))
    | inr (inr m) ↦ absurd m
  ]),
  IsBackward-snoc zs x later (λ y m. below y (inr m)),
)

IsChronological-snoc :
    (xs : List (ℕ × ℕ)) (x : ℕ × ℕ)
    → IsChronological xs
    → ((y : ℕ × ℕ) → In y xs → (y.0 ≤ x.0) × (y.1 < x.1))
    → IsChronological (xs ++ x ∷ [])
unfolding IsChronological
IsChronological-snoc [] x h above = ((λ y m. absurd m), tt)
IsChronological-snoc (z ∷ zs) x (first, later) above = (
  (λ y m. elim (In-append y zs (x ∷ []) m) [
    | inl m ↦ first y m
    | inr (inl e) ↦ subst (λ w. (z.0 ≤ w.0) × (z.1 < w.1)) (sym e) (above z (inl refl))
    | inr (inr m) ↦ absurd m
  ]),
  IsChronological-snoc zs x later (λ y m. above y (inr m)),
)

IsChronological-reverse : (xs : List (ℕ × ℕ)) → IsBackward xs → IsChronological (reverse xs)
unfolding IsBackward IsChronological
IsChronological-reverse [] h = tt
IsChronological-reverse (x ∷ xs) (first, later) = rw (reverse-append (x ∷ []) xs) (
    IsChronological-snoc (reverse xs) x (IsChronological-reverse xs later)
      (λ y m. first y (In-reverse y xs m)))

-- An arrival that is kept is earlier than every one that was stored.
kept_below :
    (arr : ℕ) (xs : List (ℕ × ℕ))
    → IsBackward xs
    → is_improvement arr (last xs) ≡ true
    → (y : ℕ × ℕ) → In y xs
    → arr < y.1
unfolding IsBackward last
kept_below arr [] h e y m = absurd m
kept_below arr (x ∷ []) h e y (inl same) = omega (tests, e, ap (λ z. z.1) same)
kept_below arr (x ∷ []) h e y (inr m) = absurd m
kept_below arr (x ∷ z ∷ zs) (first, later) e y (inl same) = omega (
  arith,
  kept_below arr (z ∷ zs) later e z (inl refl),
  (first z (inl refl)).1,
  ap (λ w. w.1) same,
)
kept_below arr (x ∷ z ∷ zs) (first, later) e y (inr m) = kept_below arr (z ∷ zs) later e y m

-- The profile of a target while departures from `dep` on were tried.
record IsStored (dep : ℕ) (entry : List (ℕ × ℕ)) : Type 0 where
  backward : IsBackward entry
  bound : (y : ℕ × ℕ) → In y entry → dep ≤ y.0

add_arrival-IsStored :
    (dep arr : ℕ) (entry : List (ℕ × ℕ))
    → IsStored dep entry
    → IsStored dep (add_arrival dep arr entry)
unfolding add_arrival
add_arrival-IsStored dep arr entry h = elim (Bool-cases (is_improvement arr (last entry))) [
  | inr late ↦ rw late h
  | inl kept ↦ rw kept (record {
    backward =
        IsBackward-snoc entry (dep, arr) h.backward
          (λ y m. (h.bound y m, kept_below arr entry h.backward kept y m));
    bound = λ y m. elim (In-append y entry ((dep, arr) ∷ []) m) [
      | inl m ↦ h.bound y m
      | inr (inl e) ↦ omega (arith, ap (λ z. z.0) e)
      | inr (inr m) ↦ absurd m
    ];
  })
]

AllStored : ℕ → Profiles → Type 0
AllStored dep table = (e : ℕ × List (ℕ × ℕ)) → In e table → IsStored dep e.1

update_profile-AllStored :
    (target dep arr : ℕ) (table : Profiles)
    → AllStored dep table
    → AllStored dep (update_profile target dep arr table)
unfolding update_profile AllStored IsBackward
update_profile-AllStored target dep arr [] h e (inl same) =
    subst (λ x. IsStored dep x.1) (sym same)
      (add_arrival-IsStored dep arr [] (record { backward = tt; bound = λ y m. absurd m }))
update_profile-AllStored target dep arr [] h e (inr m) = absurd m
update_profile-AllStored target dep arr (x ∷ table) h e m = elim (Bool-cases (x.0 == target)) [
  | inl here ↦ elim (rw here at m) [
    | inl same ↦
        subst (λ y. IsStored dep y.1) (sym same) (add_arrival-IsStored dep arr x.1 (h x (inl refl)))
    | inr m ↦ h e (inr m)
  ]
  | inr other ↦ elim (rw other at m) [
    | inl same ↦ h e (inl same)
    | inr m ↦ update_profile-AllStored target dep arr table (λ y n. h y (inr n)) e m
  ]
]

add_outcomes-AllStored :
    (dep : ℕ) (outcomes : List (ℕ × ℕ)) (table : Profiles)
    → AllStored dep table
    → AllStored dep (add_outcomes dep outcomes table)
unfolding add_outcomes AllStored
add_outcomes-AllStored dep [] table h = h
add_outcomes-AllStored dep ((target, arr) ∷ outcomes) table h = elim (Bool-cases (arr == u32_max)) [
  | inl unset ↦
      subst (λ t. AllStored dep (add_outcomes dep outcomes t)) (rw unset refl)
        (add_outcomes-AllStored dep outcomes table h)
  | inr set ↦
      subst (λ t. AllStored dep (add_outcomes dep outcomes t)) (rw set refl)
        (add_outcomes-AllStored dep outcomes (update_profile target dep arr table)
          (update_profile-AllStored target dep arr table h))
]

AllStored-earlier :
    (dep earlier : ℕ) (table : Profiles)
    → earlier ≤ dep
    → AllStored dep table
    → AllStored earlier table
unfolding AllStored
AllStored-earlier dep earlier table before h e m = record {
  backward = (h e m).backward;
  bound = λ y n. omega (arith, (h e m).bound y n, before);
}

clear_profile-AllStored :
    (dep t : ℕ) (table : Profiles) → AllStored dep table → AllStored dep (clear_profile t table)
unfolding clear_profile AllStored IsBackward
clear_profile-AllStored dep t [] h e (inl same) =
    subst (λ x. IsStored dep x.1) (sym same) (record { backward = tt; bound = λ y m. absurd m })
clear_profile-AllStored dep t [] h e (inr m) = absurd m
clear_profile-AllStored dep t (x ∷ table) h e m = elim (Bool-cases (x.0 == t)) [
  | inl here ↦ elim (rw here at m) [
    | inl same ↦
        subst (λ y. IsStored dep y.1) (sym same) (record { backward = tt; bound = λ y n. absurd n })
    | inr m ↦ h e (inr m)
  ]
  | inr other ↦ elim (rw other at m) [
    | inl same ↦ h e (inl same)
    | inr m ↦ clear_profile-AllStored dep t table (λ y n. h y (inr n)) e m
  ]
]

empty_profiles-AllStored :
    (dep : ℕ) (targets : List ℕ) (table : Profiles)
    → AllStored dep table
    → AllStored dep (empty_profiles targets table)
unfolding empty_profiles
empty_profiles-AllStored dep [] table h = h
empty_profiles-AllStored dep (t ∷ targets) table h =
    empty_profiles-AllStored dep targets (clear_profile t table)
      (clear_profile-AllStored dep t table h)

-- Departures from the latest to the earliest.
IsDown : List ℕ → Type 0
IsDown [] = Unit
IsDown (d ∷ ds) = ((y : ℕ) → In y ds → y ≤ d) × IsDown ds

dedup_after-IsDown : (p : ℕ) (ds : List ℕ) → IsDown ds → IsDown (dedup_after p ds)
unfolding dedup_after IsDown
dedup_after-IsDown p [] h = tt
dedup_after-IsDown p (d ∷ ds) (first, later) = elim (Bool-cases (p == d)) [
  | inl same ↦ rw same (dedup_after-IsDown d ds later)
  | inr other ↦ rw other ((λ y m. first y (In-dedup_after d y ds m)), dedup_after-IsDown d ds later)
]

dedup-IsDown : (ds : List ℕ) → IsDown ds → IsDown (dedup ds)
unfolding dedup IsDown
dedup-IsDown [] h = tt
dedup-IsDown (d ∷ ds) (first, later) =
    ((λ y m. first y (In-dedup_after d y ds m)), dedup_after-IsDown d ds later)

leb_total : (a b : ℕ) → leb a b ≡ false → leb b a ≡ true
leb_total a b h = elim (Bool-cases (leb b a)) [ inl t ↦ t | inr n ↦ absurd (ground (arith, h, n)) ]

abbrev later_first : ℕ → ℕ → Bool
later_first a b = leb b a

later_first-trans :
    (x y z : ℕ) → later_first x y ≡ true → later_first y z ≡ true → later_first x z ≡ true
later_first-trans x y z h h' = le→leb z x (omega (arith, leb→le y x h, leb→le z y h'))

IsOrdered-IsDown :
    (xs : List ℕ)
    → IsOrdered later_first (λ x y h. leb_total y x h) later_first-trans xs
    → IsDown xs
unfolding IsDown
IsOrdered-IsDown [] h = tt
IsOrdered-IsDown (x ∷ xs) (first, later) =
    ((λ y m. leb→le y x (first y m)), IsOrdered-IsDown xs later)

departures_down-IsDown : (ds : List ℕ) → IsDown (departures_down ds)
unfolding departures_down
departures_down-IsDown ds = dedup-IsDown (sort_by later_first ds) (
    IsOrdered-IsDown (sort_by later_first ds)
      (sort_by-IsOrdered later_first (λ x y h. leb_total y x h) later_first-trans ds))

-- The loop over the departures.
run_departures-AllStored :
    (q : Query) (bound : ℕ) (ds : List ℕ) (table : Profiles) {r : Profiles}
    → IsDown ds
    → ((d : ℕ) → In d ds → d ≤ bound)
    → AllStored bound table
    → for_each (run_departure q) ds table ≡ some r
    → (dep : ℕ) × AllStored dep r
unfolding for_each run_departure IsDown
run_departures-AllStored q bound [] table down within h e =
    (bound, subst (AllStored bound) (some-injective e) h)
run_departures-AllStored q bound (d ∷ ds) table (first, later) within h e =
    let (next, e₁, e₂) = >>=-eq-some (run_departure q d table) _ e in
    let (outcomes, _, e₃) = >>=-eq-some (profile_arrivals (record q { start_time = d })) _ e₁ in
    run_departures-AllStored q d ds next later first
      (subst (AllStored d) (some-injective e₃) (
        add_outcomes-AllStored d outcomes table
          (AllStored-earlier bound d table (within d (inl refl)) h)))
      e₂

In-map :
    (table : Profiles) (e : ℕ × List (ℕ × ℕ))
    → In e (map (λ (entry : ℕ × List (ℕ × ℕ)). (entry.0, reverse entry.1)) table)
    → (entry : ℕ × List (ℕ × ℕ)) × In entry table × (e.1 ≡ reverse entry.1)
In-map [] e m = absurd m
In-map (x ∷ table) e (inl same) = (x, inl refl, ap (λ y. y.1) same)
In-map (x ∷ table) e (inr m) =
    let (entry, within, value) = In-map table e m in (entry, inr within, value)

greatest : (ds : List ℕ) → IsDown ds → (bound : ℕ) × ((d : ℕ) → In d ds → d ≤ bound)
unfolding IsDown
greatest [] h = (0, λ d m. absurd m)
greatest (x ∷ ds) (first, later) =
    (x, λ d m. elim m [ inl e ↦ omega (arith, e) | inr m ↦ first d m ])

-- In the profile of each target a departure is not before the one ahead of it, and arrives later.
pub run_trip_based_profile-IsChronological :
    (q : Query) {r : Profiles}
    → run_trip_based_profile q ≡ some r
    → (entry : ℕ × List (ℕ × ℕ)) → In entry r
    → IsChronological entry.1
unfolding run_trip_based_profile AllStored
run_trip_based_profile-IsChronological q e entry m =
    let (ds, e_d, e₁) =
      >>=-eq-some (departures_at q (get_elem? q.stop_to_patterns q.start_stop)) _ e in
    let (table, e_t, e₂) =
      >>=-eq-some (for_each (run_departure q) (departures_down ds) (empty_profiles q.targets [])) _
        e₁ in
    let down = departures_down-IsDown ds in
    let (bound, within) = greatest (departures_down ds) down in
    let (dep, stored) =
      run_departures-AllStored q bound (departures_down ds) (empty_profiles q.targets []) down
        within (empty_profiles-AllStored bound q.targets [] (λ x n. absurd n)) e_t in
    let (x, inside, value) = In-map table entry (subst (In entry) (sym (some-injective e₂)) m) in
    subst IsChronological (sym value) (IsChronological-reverse x.1 (stored x inside).backward)
