-- ===== src/Gentian/Refine/Kept.antt =====
-- What every update of the times keeps, an arrival, a ride and a tried transfer keep.
use mathlib.Core.Path.{subst, subst₂}
use native.Mathlib.Numerals.{add-one}
use catenary_backend.Common.{
  ℕ, suc, ◌+◌, ◌*◌, ◌<◌, ◌≡◌, inl, inr, refl, sym, ap, ◌∙◌, Bool, false, ◌||◌, some, List, [], ◌∷◌,
  >>=-eq-some, some-injective, Bool-cases, get_elem?, drop, In, arith,
}
use catenary_backend.Common.Words.{add32}
use catenary_backend.Common.Loops.{for_each_inv}
use catenary_backend.Transit.{TransitPartition, TripPattern, CompressedTrip, TimeDeltaSequence}
use catenary_backend.Gentian.Times.{add_delta, arrival_loop, get_arrival_time}
use catenary_backend.Gentian.Times.Laws.{
  arrival, departure, departure_lem, arrival-suc, arrival_loop-arrival,
}
use catenary_backend.Gentian.Index.{pattern_stops}
use catenary_backend.Gentian.Index.Laws.{stop_at}
use catenary_backend.Gentian.Transfers.{Transfer}
use catenary_backend.Gentian.Refine.{
  Tau, update_tau, relax_footpath, relax_footpaths, arrive, ride, try_transfer,
}
use catenary_backend.Gentian.Refine.Covers.{boarded_arrival, get_elem?-drop}

module _ (partition : TransitPartition) (tr : Transfer) {pattern : TripPattern} where
  called_at :
      {stops : List ℕ}
      → get_elem? partition.trip_patterns tr.to_pattern_idx ≡ some pattern
      → pattern_stops partition pattern ≡ some stops
      → (j : ℕ) → stop_at partition tr.to_pattern_idx j ≡ get_elem? stops j
  unfolding stop_at
  called_at e_p e_s j = rw (e_p, e_s) refl

  called_when :
      {trip : CompressedTrip} {seq : TimeDeltaSequence}
      → get_elem? partition.trip_patterns tr.to_pattern_idx ≡ some pattern
      → get_elem? pattern.trips tr.to_trip_idx ≡ some trip
      → get_elem? partition.time_deltas trip.time_delta_idx ≡ some seq
      → (j : ℕ) → boarded_arrival partition tr j ≡ some (arrival_loop seq.deltas trip.start_time j)
  unfolding boarded_arrival get_arrival_time
  called_when e_p e_t e_d j = rw (e_p, e_t, e_d) refl

module _ (change_times : List ℕ) (footpaths : List (List (ℕ × ℕ))) (P : Tau → Type 0)
    (J : ℕ → ℕ → Type 0) where
  -- P holds after an update with a time that J allows at the stop, if it held before.
  abbrev pub Updates : Type 0
  Updates =
      (s t : ℕ) (u : Tau) (r : Tau × Bool)
      → J s t
      → P u
      → update_tau change_times s t u ≡ some r
      → P r.0

  -- J allows the time at the stop, and after each walk from there.
  abbrev pub Offers : ℕ → ℕ → Type 0
  Offers s t =
      J s t
      × ((paths : List (ℕ × ℕ)) (x : ℕ × ℕ)
          → get_elem? footpaths s ≡ some paths
          → In x paths
          → J x.0 (add32 t x.1))

  relax_footpaths_kept :
      Updates
      → (stop arr : ℕ) (tau : Tau) {r : Tau × Bool} → Offers stop arr
      → P tau
      → relax_footpaths change_times footpaths stop arr tau ≡ some r
      → P r.0
  unfolding relax_footpaths relax_footpath
  relax_footpaths_kept keep stop arr tau (_, walks) h e =
      let (paths, ep, e₁) = >>=-eq-some (get_elem? footpaths stop) _ e in
      for_each_inv (λ (r : Tau × Bool). P r.0) (relax_footpath change_times arr) paths (tau, false)
        (λ x u v m hu e₂.
          let (r, er, e₃) = >>=-eq-some (update_tau change_times x.0 (add32 arr x.1) u.0) _ e₂ in
          subst (λ (t : Tau × Bool). P t.0) (some-injective e₃)
            (keep x.0 (add32 arr x.1) u.0 r (walks paths x ep m) hu er))
        h e₁

  pub arrive_kept :
      Updates
      → (stop arr : ℕ) (tau : Tau) {r : Tau × Bool} → Offers stop arr
      → P tau
      → arrive change_times footpaths stop arr tau ≡ some r
      → P r.0
  unfolding arrive
  arrive_kept keep stop arr tau offers h e =
      let (first, ef, e₁) = >>=-eq-some (update_tau change_times stop arr tau) _ e in
      let here = keep stop arr tau first offers.0 h ef in
      elim (Bool-cases first.1) [
        | inr idle ↦ subst (λ (t : Tau × Bool). P t.0) (some-injective (rw idle at e₁)) here
        | inl better ↦
            let (second, es, e₂) =
              >>=-eq-some (relax_footpaths change_times footpaths stop arr first.0) _
                (rw better at e₁) in
            subst (λ (t : Tau × Bool). P t.0) (some-injective e₂)
              (relax_footpaths_kept keep stop arr first.0 offers here es)
      ]

  ride_kept :
      Updates
      → (deltas : List ℕ) (start k : ℕ) (rest : List ℕ) (tau : Tau) (useful : Bool) {r : Tau × Bool}
      → ((j s : ℕ) → get_elem? rest j ≡ some s → Offers s (arrival deltas start (suc k + j)))
      → P tau
      → ride change_times footpaths deltas (suc k) rest (departure deltas start k) (tau, useful)
        ≡ some r
      → P r.0
  unfolding ride
  ride_kept keep deltas start k [] tau useful offers h e =
      subst (λ (t : Tau × Bool). P t.0) (some-injective e) h
  ride_kept keep deltas start k (stop ∷ rest) tau useful {r} offers h e =
      let reached = add_delta deltas (2 * suc k) (departure deltas start k) in
      let (first, ef, e₁) = >>=-eq-some (arrive change_times footpaths stop reached tau) _ e in
      let at_k : suc k + 0 ≡ suc k = omega arith in
      let here : Offers stop reached =
        subst (Offers stop) (ap (arrival deltas start) at_k ∙ sym (arrival-suc deltas start k))
          (offers 0 stop refl) in
      ride_kept keep deltas start (suc k) rest first.0 (useful || first.1)
        (λ j s at.
          let e_j : suc k + suc j ≡ suc (suc k) + j = omega arith in
          subst (λ n. Offers s (arrival deltas start n)) e_j (offers (suc j) s at))
        (arrive_kept keep stop reached tau here h ef)
        (subst₂
          (λ n t. ride change_times footpaths deltas n rest t (first.0, useful || first.1) ≡ some r)
          (add-one (suc k))
          (ap (add_delta deltas (2 * suc k + 1)) (arrival-suc deltas start k)
            ∙ sym (departure_lem deltas start (suc k)))
          e₁)

  pub try_transfer_kept :
      Updates
      → (partition : TransitPartition) (tr : Transfer) (tau : Tau) {r : Tau × Bool}
      → ((j s arr : ℕ)
          → tr.to_stop_idx_in_pattern < j
          → stop_at partition tr.to_pattern_idx j ≡ some s
          → boarded_arrival partition tr j ≡ some arr
          → Offers s arr)
      → P tau
      → try_transfer partition change_times footpaths tr tau ≡ some r
      → P r.0
  unfolding try_transfer
  try_transfer_kept keep partition tr tau {r} offers h e =
      let (pattern, e_p, e₁) =
        >>=-eq-some (get_elem? partition.trip_patterns tr.to_pattern_idx) _ e in
      let (trip, e_t, e₂) = >>=-eq-some (get_elem? pattern.trips tr.to_trip_idx) _ e₁ in
      let (stops, e_s, e₃) = >>=-eq-some (pattern_stops partition pattern) _ e₂ in
      let (seq, e_d, e₄) = >>=-eq-some (get_elem? partition.time_deltas trip.time_delta_idx) _ e₃ in
      let b : ℕ = tr.to_stop_idx_in_pattern in
      ride_kept keep seq.deltas trip.start_time b (drop (b + 1) stops) tau false
        (λ j s at.
          let same : b + 1 + j ≡ suc b + j = omega arith in
          offers (suc b + j) s (arrival seq.deltas trip.start_time (suc b + j)) (omega arith)
            (called_at partition tr e_p e_s (suc b + j)
              ∙ ap (get_elem? stops) (sym same)
              ∙ (sym (get_elem?-drop (b + 1) j stops) ∙ at))
            (called_when partition tr e_p e_t e_d (suc b + j)
              ∙ ap some (arrival_loop-arrival seq.deltas trip.start_time (suc b + j))))
        h
        (subst₂
          (λ n t.
            ride change_times footpaths seq.deltas n (drop (b + 1) stops) t (tau, false) ≡ some r)
          (add-one b)
          (ap (add_delta seq.deltas (2 * b + 1)) (arrival_loop-arrival seq.deltas trip.start_time b)
            ∙ sym (departure_lem seq.deltas trip.start_time b))
          e₄)
