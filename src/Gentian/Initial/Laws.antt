-- ===== src/Gentian/Initial/Laws.antt =====
-- Every transfer of the initial set can be made.
use mathlib.Core.Path.{subst}
use catenary_backend.Common.{
  ℕ, ◌≡◌, inl, inr, some, List, [], >>=-eq-some, some-injective, get_elem?, In, In-append,
}
use catenary_backend.Common.Loops.{for_each, for_each_inv, enumerate, In-enumerate_zero}
use catenary_backend.Transit.{TransitPartition, TripPattern, CompressedTrip}
use catenary_backend.Gentian.Times.{trip_arrivals}
use catenary_backend.Gentian.Index.{
  StopIndex, Footpaths, pattern_stops, build_stop_to_patterns, build_footpaths,
}
use catenary_backend.Gentian.Transfers.{Transfer, trip_candidates}
use catenary_backend.Gentian.Transfers.Laws.{IsBoardable, trip_candidates-IsBoardable}
use catenary_backend.Gentian.Refine.{refine_transfers_for_trip}
use catenary_backend.Gentian.Refine.Survive.{refine_transfers_for_trip_lem}
use catenary_backend.Gentian.Initial.{
  Work, trip_transfers, pattern_transfers, compute_initial_transfers,
}

-- A transfer out of a trip of the partition that a traveller can make, over the footpaths `f`.
pub record IsInitial (partition : TransitPartition) (f : Footpaths) (tr : Transfer) : Type 0 where
  pub p_idx : ℕ
  pub t_idx : ℕ
  pub pattern : TripPattern
  pub trip : CompressedTrip
  pub stops : List ℕ
  pub arrivals : List ℕ
  pub pattern_here : get_elem? partition.trip_patterns p_idx ≡ some pattern
  pub trip_here : get_elem? pattern.trips t_idx ≡ some trip
  pub stops_here : pattern_stops partition pattern ≡ some stops
  pub arrivals_here : trip_arrivals partition trip stops ≡ some arrivals
  pub boardable : IsBoardable partition f.footpaths arrivals stops p_idx t_idx tr

module _ (partition : TransitPartition) (index : StopIndex) (f : Footpaths)
    (built : build_stop_to_patterns partition ≡ some index) where
  abbrev AllInitial : List Transfer → Type 0
  AllInitial transfers = (tr : Transfer) → In tr transfers → IsInitial partition f tr

  trip_transfers-AllInitial :
      (p_idx : ℕ) (pattern : TripPattern) (stops : List ℕ) (x : ℕ × CompressedTrip) (u v : Work)
      → get_elem? partition.trip_patterns p_idx ≡ some pattern
      → pattern_stops partition pattern ≡ some stops
      → In x (enumerate 0 pattern.trips)
      → AllInitial u.out
      → trip_transfers partition index f p_idx stops x u ≡ some v
      → AllInitial v.out
  unfolding trip_transfers
  trip_transfers-AllInitial p_idx pattern stops (t_idx, trip) u v e_p e_s m old e =
      let (arrivals, e_a, e₁) = >>=-eq-some (trip_arrivals partition trip stops) _ e in
      let (found, e_f, e₂) =
        >>=-eq-some (trip_candidates partition index f.footpaths arrivals p_idx t_idx stops) _ e₁ in
      let (r, e_r, e₃) =
        >>=-eq-some
          (refine_transfers_for_trip partition f.footpaths f.change_times trip stops found u.tau) _
          e₂ in
      subst (λ w. AllInitial w.out) (some-injective e₃)
        (λ tr mem. elim (In-append tr u.out r.0 mem) [
          | inl before ↦ old tr before
          | inr new ↦ record {
            p_idx = p_idx;
            t_idx = t_idx;
            pattern = pattern;
            trip = trip;
            stops = stops;
            arrivals = arrivals;
            pattern_here = e_p;
            trip_here = In-enumerate_zero t_idx trip pattern.trips m;
            stops_here = e_s;
            arrivals_here = e_a;
            boardable =
                trip_candidates-IsBoardable partition f.footpaths arrivals stops p_idx t_idx index
                  built e_f tr
                  ((refine_transfers_for_trip_lem partition f.change_times f.footpaths trip stops
                      found u.tau e_r tr).1
                    new);
          }
        ])

  pattern_transfers-AllInitial :
      (x : ℕ × TripPattern) (u v : List Transfer)
      → In x (enumerate 0 partition.trip_patterns)
      → AllInitial u
      → pattern_transfers partition index f x u ≡ some v
      → AllInitial v
  unfolding pattern_transfers
  pattern_transfers-AllInitial (p_idx, pattern) u v m old e =
      let (stops, e_s, e₁) = >>=-eq-some (pattern_stops partition pattern) _ e in
      let (work, loop, e₂) =
        >>=-eq-some
          (for_each (trip_transfers partition index f p_idx stops) (enumerate 0 pattern.trips) _) _
          e₁ in
      let new =
        for_each_inv (λ (w : Work). AllInitial w.out) (trip_transfers partition index f p_idx stops)
          (enumerate 0 pattern.trips) _
          (λ y a b k.
            trip_transfers-AllInitial p_idx pattern stops y a b
              (In-enumerate_zero p_idx pattern partition.trip_patterns m) e_s k)
          (λ tr mem. elim mem [ ]) loop in
      subst AllInitial (some-injective e₂)
        (λ tr mem. elim (In-append tr u work.out mem) [ inl b ↦ old tr b | inr n ↦ new tr n ])

-- Every transfer of the initial set leaves a trip of the partition where that trip arrives, follows
-- one of the partition's footpaths, and boards a trip that calls at the stop reached and leaves
-- it no earlier than the arrival plus the walk.
pub compute_initial_transfers-IsInitial :
    (partition : TransitPartition) (f : Footpaths) {transfers : List Transfer}
    → build_footpaths partition ≡ some f
    → compute_initial_transfers partition ≡ some transfers
    → (tr : Transfer) → In tr transfers
    → IsInitial partition f tr
unfolding compute_initial_transfers
compute_initial_transfers-IsInitial partition f paths e =
    let (index, built, e₁) = >>=-eq-some (build_stop_to_patterns partition) _ e in
    for_each_inv (AllInitial partition index f built) (pattern_transfers partition index f)
      (enumerate 0 partition.trip_patterns) []
      (pattern_transfers-AllInitial partition index f built) (λ tr m. elim m [ ]) (rw paths at e₁)
