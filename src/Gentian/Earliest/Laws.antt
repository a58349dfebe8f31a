-- ===== src/Gentian/Earliest/Laws.antt =====
-- The search ends, and finds the split between the trips that leave too early and the others.
use mathlib.Core.Path.{subst}
use catenary_backend.Common.{
  ℕ, zero, suc, ◌+◌, ◌-◌, ◌/◌, ◌≤◌, ◌<◌, ◌≡◌, refl, ◌∙◌, ◌⊎◌, inl, inr, Option, some, List, ltb,
  >>=-eq-some, some-injective, Bool-cases, length, arith, tests,
}
use catenary_backend.Transit.{TransitPartition, CompressedTrip}
use catenary_backend.Gentian.Earliest.{trip_departure, search_loop, earliest_trip}

module _ (departs : ℕ → Option ℕ) (min_dep n : ℕ) where
  -- At `k` a trip leaves late enough, or the trips end there.
  abbrev pub IsLate : ℕ → Type 0
  IsLate k = (k ≡ n) ⊎ ((d : ℕ) × (departs k ≡ some d) × (min_dep ≤ d))

  -- Sorted or not, the trip that the search finds leaves late enough.
  pub search_loop-IsLate :
      (fuel lo hi : ℕ) {r : ℕ}
      → hi ≤ n
      → lo ≤ hi
      → IsLate hi
      → search_loop departs min_dep fuel lo hi ≡ some r
      → IsLate r
  unfolding search_loop
  search_loop-IsLate zero lo hi inside le late e = absurd (ground arith)
  search_loop-IsLate (suc fuel) lo hi inside le late e = elim (Bool-cases (ltb lo hi)) [
    | inl more ↦
        let (dep, found, e') = >>=-eq-some (departs ((lo + hi) / 2)) _ (rw more at e) in
        elim (Bool-cases (ltb dep min_dep)) [
          | inl early ↦
              search_loop-IsLate fuel ((lo + hi) / 2 + 1) hi inside (omega tests) late
                (rw early at e')
          | inr fits ↦
              search_loop-IsLate fuel lo ((lo + hi) / 2) (omega tests) (omega tests)
                (inr (dep, found, omega tests)) (rw fits at e')
        ]
    | inr done ↦
        let same : hi ≡ lo = omega tests in subst IsLate (same ∙ some-injective (rw done at e)) late
  ]

module _ (departs : ℕ → Option ℕ) (min_dep n : ℕ) (time : ℕ → ℕ) where
  -- The trips below `r` leave before `min_dep`, and those from `r` on do not.
  abbrev pub Splits : ℕ → Type 0
  Splits r =
      (r ≤ n) × ((i : ℕ) → i < r → time i < min_dep) × ((i : ℕ) → r ≤ i → i < n → min_dep ≤ time i)

  search_loop-Splits :
      ((i : ℕ) → i < n → departs i ≡ some (time i))
      → ((i j : ℕ) → i ≤ j → j < n → time i ≤ time j)
      → (fuel lo hi : ℕ) → hi - lo < fuel
      → lo ≤ hi
      → hi ≤ n
      → ((i : ℕ) → i < lo → time i < min_dep)
      → ((i : ℕ) → hi ≤ i → i < n → min_dep ≤ time i)
      → (r : ℕ) × (search_loop departs min_dep fuel lo hi ≡ some r) × Splits r
  unfolding search_loop
  search_loop-Splits known ordered zero lo hi f le inside below above = elim f [ ]
  search_loop-Splits known ordered (suc fuel) lo hi f le inside below above =
      elim (Bool-cases (ltb lo hi)) [
        | inr done ↦ (lo, rw done, (omega tests, below, λ i p. above i (omega tests)))
        | inl more ↦
            rw (more, known ((lo + hi) / 2) (omega tests))
              (elim (Bool-cases (ltb (time ((lo + hi) / 2)) min_dep)) [
                | inl early ↦ rw early (
                    search_loop-Splits known ordered fuel ((lo + hi) / 2 + 1) hi (omega tests)
                      (omega tests) inside
                      (λ i p. omega (tests, ordered i ((lo + hi) / 2) (omega tests) (omega tests)))
                      above)
                | inr fits ↦ rw fits (
                    search_loop-Splits known ordered fuel lo ((lo + hi) / 2) (omega tests)
                      (omega tests) (omega tests) below
                      (λ i p q. omega (tests, ordered ((lo + hi) / 2) i p q)))
              ])
      ]

-- On a pattern whose trips leave the stop in order, the search ends and returns the earliest trip
-- that leaves at `min_dep` or later: the trips below it leave earlier, the others do not.
pub earliest_trip-Splits :
    (partition : TransitPartition) (trips : List CompressedTrip) (stop_idx min_dep : ℕ)
    (time : ℕ → ℕ)
    → ((i : ℕ) → i < length trips → trip_departure partition trips stop_idx i ≡ some (time i))
    → ((i j : ℕ) → i ≤ j → j < length trips → time i ≤ time j)
    → (r : ℕ) × (earliest_trip partition trips stop_idx min_dep ≡ some r)
      × Splits (trip_departure partition trips stop_idx) min_dep (length trips) time r
unfolding earliest_trip
earliest_trip-Splits partition trips stop_idx min_dep time known ordered =
    search_loop-Splits (trip_departure partition trips stop_idx) min_dep (length trips) time known
      ordered (suc (length trips)) 0 (length trips) (omega arith) (omega arith) (omega arith)
      (λ i h. elim h [ ]) (λ i p q. absurd (omega arith))

-- Sorted or not, a trip that the search returns within the pattern leaves at `min_dep` or later.
pub earliest_trip-IsLate :
    (partition : TransitPartition) (trips : List CompressedTrip) (stop_idx min_dep : ℕ) {r : ℕ}
    → earliest_trip partition trips stop_idx min_dep ≡ some r
    → IsLate (trip_departure partition trips stop_idx) min_dep (length trips) r
unfolding earliest_trip
earliest_trip-IsLate partition trips stop_idx min_dep e =
    search_loop-IsLate (trip_departure partition trips stop_idx) min_dep (length trips)
      (suc (length trips)) 0 (length trips) (omega arith) (omega arith) (inl refl) e
