-- ===== src/Gentian/RefineAll/Needless.antt =====
-- The transfers that `refine_transfers` removes are needless, and it removes no others.
use mathlib.Core.Path.{subst}
use catenary_backend.Common.{
  ℕ, zero, suc, ◌+◌, ◌<◌, ◌≡◌, refl, sym, ap, ◌∙◌, ◌⊎◌, inl, inr, Bool, true, false, some, List, [],
  ◌∷◌, >>=-eq-some, some-injective, true_is_false, length, get_elem?, get_or, replicate, In, arith,
}
use catenary_backend.Common.Words.{u32_max}
use catenary_backend.Common.Loops.{for_each, for_each_enumerate, enumerate}
use catenary_backend.Common.Sorting.{sort_by, In-sort_by, In-sort_by_intro}
use catenary_backend.Transit.{TransitPartition, TripPattern, CompressedTrip}
use catenary_backend.Gentian.Times.{trip_arrivals}
use catenary_backend.Gentian.Index.{Footpaths, pattern_stops}
use catenary_backend.Gentian.Transfers.{Transfer}
use catenary_backend.Gentian.Refine.{Tau, reset}
use catenary_backend.Gentian.Refine.Visited.{IsTracked, reset-IsUnset, length-reset}
use catenary_backend.Gentian.Refine.Served.{IsServed}
use catenary_backend.Gentian.RefineAll.{
  by_origin, Marks, refine_trip, refine_pattern, trip_transfer_ranges, retain, plain_footpaths,
  refine_transfers,
}
use catenary_backend.Gentian.RefineAll.Ranges.{Leaves}
use catenary_backend.Gentian.RefineAll.Trip.{IsMarked, Walking, refine_stops-Walking}

-- Other transfers of the same trip, for which P holds, serve what the transfer reaches.
pub record Needless (partition : TransitPartition) (f : Footpaths) (P : Transfer → Type 0)
    (tr : Transfer) : Type 0 where
  pub pattern : TripPattern
  pub trip : CompressedTrip
  pub stops : List ℕ
  pub arrivals : List ℕ
  pub kept : List Transfer
  pub its_pattern : get_elem? partition.trip_patterns tr.from_pattern_idx ≡ some pattern
  pub its_trip : get_elem? pattern.trips tr.from_trip_idx ≡ some trip
  pub its_stops : pattern_stops partition pattern ≡ some stops
  pub its_arrivals : trip_arrivals partition trip stops ≡ some arrivals
  pub others : (y : Transfer) → In y kept → P y × Leaves tr.from_pattern_idx tr.from_trip_idx y
  pub served : IsServed partition f.footpaths stops arrivals (length partition.stops) kept tr

Needless-map :
    (partition : TransitPartition) (f : Footpaths) (P Q : Transfer → Type 0) (tr : Transfer)
    → ((y : Transfer) → Leaves tr.from_pattern_idx tr.from_trip_idx y → P y → Q y)
    → Needless partition f P tr
    → Needless partition f Q tr
Needless-map partition f P Q tr go n = record {
  pattern = n.pattern;
  trip = n.trip;
  stops = n.stops;
  arrivals = n.arrivals;
  kept = n.kept;
  its_pattern = n.its_pattern;
  its_trip = n.its_trip;
  its_stops = n.its_stops;
  its_arrivals = n.its_arrivals;
  others = λ y m. let (h, leaves) = n.others y m in (go y leaves h, leaves);
  served = n.served;
}

-- The trip of the transfer comes before the trip (p, t).
abbrev Before : ℕ → ℕ → Transfer → Type 0
Before p t tr = (tr.from_pattern_idx < p) ⊎ ((tr.from_pattern_idx ≡ p) × (tr.from_trip_idx < t))

not-Before : (p t : ℕ) (tr : Transfer) → Leaves p t tr → ¬ Before p t tr
not-Before p t tr (e, e') (inl low) = omega arith
not-Before p t tr (e, e') (inr (_, low)) = omega arith

reset-IsTracked :
    (tau : Tau) {fresh : Tau} → IsTracked tau → reset tau ≡ some fresh → IsTracked fresh
unfolding IsTracked
reset-IsTracked tau tracked e s = inl (reset-IsUnset tau tracked e s)

module _ (partition : TransitPartition) (transfers : List Transfer) (f : Footpaths) where
  -- The transfer stands at an index that is not marked.
  abbrev Free : List Bool → Transfer → Type 0
  Free flags y = (k : ℕ) × (get_elem? transfers k ≡ some y) × ¬ IsMarked flags k

  -- What holds before the trip (p, t).
  record Refined (p t : ℕ) (marks : Marks) : Type 0 where
    size : length marks.tau.tau_a ≡ length partition.stops
    tracked : IsTracked marks.tau
    marked :
        (k : ℕ) (tr : Transfer)
        → get_elem? transfers k ≡ some tr
        → IsMarked marks.to_remove k
        → Before p t tr × Needless partition f (Free marks.to_remove) tr

  settle :
      (p : ℕ) (pattern : TripPattern) (stops : List ℕ) (t : ℕ) (trip : CompressedTrip) (u v : Marks)
      → get_elem? partition.trip_patterns p ≡ some pattern
      → pattern_stops partition pattern ≡ some stops
      → get_elem? pattern.trips t ≡ some trip
      → Refined p t u
      → (arrivals : List ℕ) → trip_arrivals partition trip stops ≡ some arrivals
      → (pos : ℕ) → Walking partition transfers f stops arrivals trip p t u.to_remove 0 pos v
      → (k : ℕ) (tr : Transfer) → get_elem? transfers k ≡ some tr
      → IsMarked v.to_remove k
      → IsMarked u.to_remove k
        ⊎ ((x : Transfer) × ((get_elem? transfers k ≡ some x) × Leaves p t x))
      → Before p (t + 1) tr × Needless partition f (Free v.to_remove) tr
  settle p pattern stops t trip u v at_p at_stops at_t h arrivals e_a pos w k tr at m (inl old) =
      let (earlier, needless) = h.marked k tr at old in
      (
        elim earlier [ inl low ↦ inl low | inr (e, low) ↦ inr (e, omega arith) ],
        Needless-map partition f (Free u.to_remove) (Free v.to_remove) tr
            (λ y leaves free. (
              free.0,
              free.1,
              λ m'. elim (w.others free.0 m') [
                | inl old' ↦ free.2 old'
                | inr other ↦
                    let same : other.0 ≡ y = some-injective (sym other.1.0 ∙ free.1) in
                    let its = subst (Leaves p t) same other.1.1 in
                    not-Before p t tr (sym leaves.0 ∙ its.0, sym leaves.1 ∙ its.1) earlier
              ],
            ))
            needless,
      )
  settle p pattern stops t trip u v at_p at_stops at_t h arrivals e_a pos w k tr at m (inr other) =
      let same : other.0 ≡ tr = some-injective (sym other.1.0 ∙ at) in
      let leaves = subst (Leaves p t) same other.1.1 in
      (
        inr (leaves.0, omega (arith, leaves.1)),
        record {
          pattern = pattern;
          trip = trip;
          stops = stops;
          arrivals = arrivals;
          kept = w.kept;
          its_pattern = ap (get_elem? partition.trip_patterns) leaves.0 ∙ at_p;
          its_trip = ap (get_elem? pattern.trips) leaves.1 ∙ at_t;
          its_stops = at_stops;
          its_arrivals = e_a;
          others = λ y my.
              let (j, place, free, _) = w.unmarked y my in
              ((j, place.0, free), (place.1.0 ∙ sym leaves.0, place.1.1 ∙ sym leaves.1));
          served = (w.served k tr (at, leaves) m).0;
        },
      )

  refine_trip-Refined :
      (p : ℕ) (pattern : TripPattern) (stops : List ℕ) (t : ℕ) (trip : CompressedTrip) (u v : Marks)
      → get_elem? partition.trip_patterns p ≡ some pattern
      → pattern_stops partition pattern ≡ some stops
      → get_elem? pattern.trips t ≡ some trip
      → Refined p t u
      → refine_trip partition transfers (trip_transfer_ranges transfers) f p stops (t, trip) u
        ≡ some v
      → Refined p (t + 1) v
  unfolding refine_trip
  refine_trip-Refined p pattern stops t trip u v at_p at_stops at_t h e =
      let (fresh, e_f, e₁) = >>=-eq-some (reset u.tau) _ e in
      let (arrivals, e_a, e₂) = >>=-eq-some (trip_arrivals partition trip stops) _ e₁ in
      let free : (k : ℕ) (tr : Transfer)
          → (get_elem? transfers k ≡ some tr) × Leaves p t tr
          → ¬ IsMarked u.to_remove k =
        λ k tr place m. not-Before p t tr place.1 (h.marked k tr place.0 m).0 in
      let (pos, w) =
        refine_stops-Walking partition transfers f stops arrivals trip p t u.to_remove
          (record u { tau = fresh }) refl
          (record {
            size = length-reset u.tau e_f ∙ h.size;
            tracked = reset-IsTracked u.tau h.tracked e_f;
            times = λ s. inl (reset-IsUnset u.tau h.tracked e_f s).0;
          })
          free e₂ in
      record {
        size = w.justified.size;
        tracked = w.justified.tracked;
        marked = λ k tr at m.
            settle p pattern stops t trip u v at_p at_stops at_t h arrivals e_a pos w k tr at m
              (w.others k m);
      }

  refine_pattern-Refined :
      (p : ℕ) (pattern : TripPattern) (u v : Marks)
      → get_elem? partition.trip_patterns p ≡ some pattern
      → Refined p 0 u
      → refine_pattern partition transfers (trip_transfer_ranges transfers) f (p, pattern) u
        ≡ some v
      → Refined (p + 1) 0 v
  unfolding refine_pattern
  refine_pattern-Refined p pattern u v at h e =
      let (stops, at_stops, e₁) = >>=-eq-some (pattern_stops partition pattern) _ e in
      let done =
        for_each_enumerate (Refined p)
          (refine_trip partition transfers (trip_transfer_ranges transfers) f p stops) pattern.trips
          u (λ t trip x y at_t. refine_trip-Refined p pattern stops t trip x y at at_stops at_t) h
          e₁ in
      record {
        size = done.size;
        tracked = done.tracked;
        marked = λ k tr at m.
            let (earlier, needless) = done.marked k tr at m in
            (
              elim earlier [ inl low ↦ inl (omega arith) | inr (e, low) ↦ inl (omega (arith, e)) ],
              needless,
            );
      }

-- What stands at an index stays, or the index is marked; and nothing else stays.
retain-In :
    (transfers : List Transfer) (flags : List Bool) {r : List Transfer} (k : ℕ) (tr : Transfer)
    → retain transfers flags ≡ some r
    → get_elem? transfers k ≡ some tr
    → IsMarked flags k ⊎ In tr r
unfolding retain
retain-In [] flags k tr e at = absurd (ground arith)
retain-In (x ∷ transfers) [] k tr e at = absurd (ground arith)
retain-In (x ∷ transfers) (true ∷ flags) zero tr e at = inl refl
retain-In (x ∷ transfers) (true ∷ flags) (suc k) tr e at =
    let (kept, e₁, e₂) = >>=-eq-some (retain transfers flags) _ e in
    elim (retain-In transfers flags k tr e₁ at) [
      | inl marked ↦ inl marked
      | inr m ↦ inr (subst (In tr) (some-injective e₂) m)
    ]
retain-In (x ∷ transfers) (false ∷ flags) zero tr e at =
    let (kept, e₁, e₂) = >>=-eq-some (retain transfers flags) _ e in
    inr (subst (In tr) (some-injective e₂) (inl (sym (some-injective at))))
retain-In (x ∷ transfers) (false ∷ flags) (suc k) tr e at =
    let (kept, e₁, e₂) = >>=-eq-some (retain transfers flags) _ e in
    elim (retain-In transfers flags k tr e₁ at) [
      | inl marked ↦ inl marked
      | inr m ↦ inr (subst (In tr) (some-injective e₂) (inr m))
    ]

retain-In_back :
    (transfers : List Transfer) (flags : List Bool) {r : List Transfer} (tr : Transfer)
    → retain transfers flags ≡ some r
    → In tr r
    → In tr transfers
unfolding retain
retain-In_back [] flags tr e m = absurd (subst (In tr) (sym (some-injective e)) m)
retain-In_back (x ∷ transfers) [] tr e m = absurd (ground arith)
retain-In_back (x ∷ transfers) (true ∷ flags) tr e m =
    let (kept, e₁, e₂) = >>=-eq-some (retain transfers flags) _ e in
    inr (retain-In_back transfers flags tr e₁ (subst (In tr) (sym (some-injective e₂)) m))
retain-In_back (x ∷ transfers) (false ∷ flags) tr e m =
    let (kept, e₁, e₂) = >>=-eq-some (retain transfers flags) _ e in
    elim (subst (In tr) (sym (some-injective e₂)) m) [
      | inl same ↦ inl same
      | inr later ↦ inr (retain-In_back transfers flags tr e₁ later)
    ]

get_or-replicate_max : (n s : ℕ) → get_or (replicate n u32_max) s u32_max ≡ u32_max
get_or-replicate_max zero s = refl
get_or-replicate_max (suc n) zero = refl
get_or-replicate_max (suc n) (suc s) = get_or-replicate_max n s

length-replicate_max : (n v : ℕ) → length (replicate n v) ≡ n
length-replicate_max zero v = refl
length-replicate_max (suc n) v = ap suc (length-replicate_max n v)

unmarked_at_first : (n k : ℕ) → ¬ IsMarked (replicate n false) k
unmarked_at_first zero k m = absurd (ground arith)
unmarked_at_first (suc n) zero m = true_is_false (sym (some-injective m))
unmarked_at_first (suc n) (suc k) m = unmarked_at_first n k m

clear-IsTracked :
    (n : ℕ)
    → IsTracked (record { tau_a = replicate n u32_max; tau_c = replicate n u32_max; visited = [] })
unfolding IsTracked
clear-IsTracked n s = inl (get_or-replicate_max n s, get_or-replicate_max n s)

In-get_elem? : (xs : List Transfer) (x : Transfer) → In x xs → (k : ℕ) × (get_elem? xs k ≡ some x)
In-get_elem? [] x m = absurd m
In-get_elem? (y ∷ ys) x (inl e) = (0, ap some (sym e))
In-get_elem? (y ∷ ys) x (inr m) = let (k, at) = In-get_elem? ys x m in (suc k, at)

-- Over a whole partition, each transfer survives the refinement, or it is needless: wherever and
-- whenever the trip that it boards arrives, a passenger who stays on the first trip as long can be as
-- early, on this trip or on one that a surviving transfer of it boards, with a walk in the end at
-- most (stops of the partition and times below `u32::MAX`). And no transfer is invented.
pub refine_transfers-Needless :
    (partition : TransitPartition) (transfers : List Transfer) (f : Footpaths) {r : List Transfer}
    → plain_footpaths partition ≡ some f
    → refine_transfers partition transfers ≡ some r
    → (tr : Transfer)
    → (In tr transfers → In tr r ⊎ Needless partition f (λ y. In y r) tr)
      × (In tr r → In tr transfers)
unfolding refine_transfers
refine_transfers-Needless partition transfers f {r} paths e tr =
    let sorted = sort_by by_origin transfers in
    let n = length partition.stops in
    let (f', e_f, e₁) = >>=-eq-some (plain_footpaths partition) _ e in
    let start : Marks = record {
      tau = record { tau_a = replicate n u32_max; tau_c = replicate n u32_max; visited = [] };
      to_remove = replicate (length sorted) false;
    } in
    let (marks, e_m, e₂) =
      >>=-eq-some
        (for_each (refine_pattern partition sorted (trip_transfer_ranges sorted) f')
          (enumerate 0 partition.trip_patterns) start)
        _ e₁ in
    let same : f' ≡ f = some-injective (sym e_f ∙ paths) in
    let refined =
      for_each_enumerate (λ p. Refined partition sorted f p 0)
        (refine_pattern partition sorted (trip_transfer_ranges sorted) f) partition.trip_patterns
        start (λ p pattern u v. refine_pattern-Refined partition sorted f p pattern u v)
        (record {
          size = length-replicate_max n u32_max;
          tracked = clear-IsTracked n;
          marked = λ k x at m. absurd (unmarked_at_first (length sorted) k m);
        })
        (subst
          (λ g.
            for_each (refine_pattern partition sorted (trip_transfer_ranges sorted) g)
              (enumerate 0 partition.trip_patterns) start
            ≡ some marks)
          same e_m) in
    let stays : (k : ℕ) (x : Transfer)
        → get_elem? sorted k ≡ some x
        → IsMarked marks.to_remove k ⊎ In x r =
      λ k x. retain-In sorted marks.to_remove k x e₂ in
    (
      (λ m.
          let (k, at) = In-get_elem? sorted tr (In-sort_by_intro by_origin tr transfers m) in
          elim (stays k tr at) [
            | inr kept ↦ inl kept
            | inl marked ↦ inr (
                Needless-map partition f (Free partition sorted f marks.to_remove) (λ y. In y r) tr
                  (λ y leaves free. elim (stays free.0 y free.1) [
                    | inl m' ↦ absurd (free.2 m')
                    | inr kept ↦ kept
                  ])
                  (refined.marked k tr at marked).1)
          ]),
      λ m. In-sort_by by_origin tr transfers (retain-In_back sorted marks.to_remove tr e₂ m),
    )
