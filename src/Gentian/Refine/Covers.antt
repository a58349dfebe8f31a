-- ===== src/Gentian/Refine/Covers.antt =====
-- A transfer that is removed reaches nothing that the walk back along the trip does not know.
use mathlib.Core.Path.{subst, subst₂}
use native.Mathlib.Numerals.{add-one}
use native.Mathlib.Nat.{le_refl, le_trans}
use catenary_backend.Common.{
  ℕ, zero, suc, ◌+◌, ◌-◌, ◌*◌, ◌≤◌, ◌<◌, ◌≡◌, refl, sym, ap, ◌∙◌, Bool, false, ◌||◌, Option, some,
  List, [], ◌∷◌, ◌>>=◌, >>=-eq-some, some-injective, get_elem?, drop, arith,
}
use catenary_backend.Transit.{TransitPartition}
use catenary_backend.Gentian.Times.{add_delta, get_arrival_time}
use catenary_backend.Gentian.Times.Laws.{
  arrival, departure, departure_lem, arrival-suc, arrival_loop-arrival,
}
use catenary_backend.Gentian.Index.{pattern_stops}
use catenary_backend.Gentian.Index.Laws.{stop_at}
use catenary_backend.Gentian.Transfers.{Transfer}
use catenary_backend.Gentian.Refine.{Tau, arrive, ride, try_transfer}
use catenary_backend.Gentian.Refine.Laws.{known, Lowers, arrive-Lowers}

pub get_elem?-drop :
    {A : Type 0} (n j : ℕ) (xs : List A) → get_elem? (drop n xs) j ≡ get_elem? xs (n + j)
get_elem?-drop zero j xs = let e : 0 + j ≡ j = omega arith in rw e
get_elem?-drop (suc n) j [] = refl
get_elem?-drop (suc n) j (x ∷ xs) =
    let e : suc n + j ≡ suc (n + j) = omega arith in rw e (get_elem?-drop n j xs)

or_false : (a b : Bool) → (a || b) ≡ false → (a ≡ false) × (b ≡ false)
or_false a b h = ground arith

module _ (partition : TransitPartition) where
  -- The time at which the trip that a transfer boards arrives at a stop of its pattern.
  unfoldable pub boarded_arrival : Transfer → ℕ → Option ℕ
  boarded_arrival tr j = do
    pattern ← get_elem? partition.trip_patterns tr.to_pattern_idx
    trip ← get_elem? pattern.trips tr.to_trip_idx
    get_arrival_time partition trip j

  -- Every stop after the boarding is known at least as early as the boarded trip calls there.
  abbrev pub IsCovered : Tau → Transfer → Type 0
  IsCovered tau tr =
      (j s arr : ℕ)
      → tr.to_stop_idx_in_pattern < j
      → stop_at partition tr.to_pattern_idx j ≡ some s
      → boarded_arrival tr j ≡ some arr
      → known tau s ≤ arr

-- What a ride from `tau` over `rest`, from stop `k` on, leaves behind in `r`: the times fall, every
-- stop of the ride is known as early as the ride calls there, and with no improvement nothing changes.
pub record Rode (deltas : List ℕ) (start k : ℕ) (rest : List ℕ) (tau : Tau) (useful : Bool)
    (r : Tau × Bool) : Type 0 where
  pub lowers : Lowers tau r.0
  pub covers : (j s : ℕ) → get_elem? rest j ≡ some s → known r.0 s ≤ arrival deltas start (k + j)
  pub idle : r.1 ≡ false → (useful ≡ false) × (r.0 ≡ tau)

module _ (change_times : List ℕ) (footpaths : List (List (ℕ × ℕ))) where
  ride-Rode :
      (deltas : List ℕ) (start k : ℕ) (rest : List ℕ) (tau : Tau) (useful : Bool) {r : Tau × Bool}
      → ride change_times footpaths deltas (suc k) rest (departure deltas start k) (tau, useful)
        ≡ some r
      → Rode deltas start (suc k) rest tau useful r
  unfolding ride
  ride-Rode deltas start k [] tau useful e =
      subst (Rode deltas start (suc k) [] tau useful) (some-injective e) (record {
        lowers = λ s. le_refl _;
        covers = λ j s h. absurd (ground arith);
        idle = λ h. (h, refl);
      })
  ride-Rode deltas start k (stop ∷ rest) tau useful {r} e =
      let reached = add_delta deltas (2 * suc k) (departure deltas start k) in
      let (first, ef, e₁) = >>=-eq-some (arrive change_times footpaths stop reached tau) _ e in
      let (lower, here, same) = arrive-Lowers change_times footpaths stop reached tau ef in
      step first lower (subst (λ t. known first.0 stop ≤ t) (arrival-suc deltas start k) here) same
        (ride-Rode deltas start (suc k) rest first.0 (useful || first.1) (
          subst₂
            (λ n t.
              ride change_times footpaths deltas n rest t (first.0, useful || first.1) ≡ some r)
            (add-one (suc k))
            (ap (add_delta deltas (2 * suc k + 1)) (arrival-suc deltas start k)
              ∙ sym (departure_lem deltas start (suc k)))
            e₁))
    where
      step :
          (first : Tau × Bool)
          → Lowers tau first.0
          → known first.0 stop ≤ arrival deltas start (suc k)
          → (first.1 ≡ false → first.0 ≡ tau)
          → Rode deltas start (suc (suc k)) rest first.0 (useful || first.1) r
          → Rode deltas start (suc k) (stop ∷ rest) tau useful r
      step first lower here same later = record {
        lowers = λ s. le_trans (later.lowers s) (lower s);
        covers = covers;
        idle = λ h.
            let (quiet, kept) = later.idle h in
            let (u, i) = or_false useful first.1 quiet in (u, kept ∙ same i);
      }
        where
          covers :
              (j s : ℕ)
              → get_elem? (stop ∷ rest) j ≡ some s
              → known r.0 s ≤ arrival deltas start (suc k + j)
          covers zero s h =
              let e : suc k + 0 ≡ suc k = omega arith in
              rw e (
                subst (λ t. known r.0 t ≤ arrival deltas start (suc k)) (some-injective h)
                  (le_trans (later.lowers stop) here))
          covers (suc j) s h =
              let e : suc k + suc j ≡ suc (suc k) + j = omega arith in rw e (later.covers j s h)

  module _ (partition : TransitPartition) where
    -- A tried transfer is covered by the times after the try, and one that was of no use changes
    -- nothing: it was covered before.
    pub try_transfer_covers :
        (tr : Transfer) (tau : Tau) {r : Tau × Bool}
        → try_transfer partition change_times footpaths tr tau ≡ some r
        → Lowers tau r.0 × IsCovered partition r.0 tr × (r.1 ≡ false → r.0 ≡ tau)
    unfolding try_transfer boarded_arrival stop_at get_arrival_time
    try_transfer_covers tr tau {r} e =
        let (pattern, e_p, e₁) =
          >>=-eq-some (get_elem? partition.trip_patterns tr.to_pattern_idx) _ e in
        let (trip, e_t, e₂) = >>=-eq-some (get_elem? pattern.trips tr.to_trip_idx) _ e₁ in
        let (stops, e_s, e₃) = >>=-eq-some (pattern_stops partition pattern) _ e₂ in
        let (seq, e_d, e₄) =
          >>=-eq-some (get_elem? partition.time_deltas trip.time_delta_idx) _ e₃ in
        let b : ℕ = tr.to_stop_idx_in_pattern in
        let rode = ride-Rode seq.deltas trip.start_time b (drop (b + 1) stops) tau false (
          subst₂
            (λ n t.
              ride change_times footpaths seq.deltas n (drop (b + 1) stops) t (tau, false) ≡ some r)
            (add-one b)
            (ap (add_delta seq.deltas (2 * b + 1))
                (arrival_loop-arrival seq.deltas trip.start_time b)
              ∙ sym (departure_lem seq.deltas trip.start_time b))
            e₄) in
        (
          rode.lowers,
          λ j s arr later at arrives.
              let i = j - (b + 1) in
              let e_j : b + 1 + i ≡ j = omega arith in
              let e_k : suc b + i ≡ j = omega arith in
              let calls =
                rode.covers i s (
                  get_elem?-drop (b + 1) i stops
                  ∙ ap (get_elem? stops) e_j
                  ∙ rw (e_p, e_s) at at) in
              let time = some-injective (rw (e_p, e_t, e_d) at arrives) in
              subst (λ t. known r.0 s ≤ t)
                (ap (arrival seq.deltas trip.start_time) e_k
                  ∙ sym (arrival_loop-arrival seq.deltas trip.start_time j)
                  ∙ time)
                calls,
          λ h. (rode.idle h).1,
        )
