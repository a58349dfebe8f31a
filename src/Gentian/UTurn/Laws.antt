-- ===== src/Gentian/UTurn/Laws.antt =====
-- The transfers that are removed are exactly the U-turns: the boarded trip goes back to the stop
-- before, where the traveller could have changed to it already.
use mathlib.Core.Path.{subst}
use catenary_backend.Common.{
  ℕ, ◌+◌, ◌-◌, ◌≤◌, ◌≡◌, ◌≢◌, refl, sym, ◌∙◌, ◌⊎◌, inl, inr, Bool, true, false, some, List, [], ◌∷◌,
  leb, ◌==◌, if◌then◌else◌, >>=-eq-some, some-injective, Bool-cases, length, get_elem?,
  get_elem?-lt, In, arith, ==_iff,
}
use catenary_backend.Common.Words.{add32}
use catenary_backend.Transit.{TransitPartition, TripPattern, CompressedTrip}
use catenary_backend.Gentian.Times.{get_arrival_time, get_departure_time}
use catenary_backend.Gentian.Index.{pattern_stops}
use catenary_backend.Gentian.Transfers.{Transfer}
use catenary_backend.Gentian.UTurn.{change_time_at, too_late, is_kept, remove_u_turn_transfers}

pub record IsUTurn (partition : TransitPartition) (tr : Transfer) : Type 0 where
  pub from_pattern : TripPattern
  pub to_pattern : TripPattern
  pub from_stops : List ℕ
  pub to_stops : List ℕ
  pub stop : ℕ
  pub t_trip : CompressedTrip
  pub u_trip : CompressedTrip
  pub arr : ℕ
  pub dep : ℕ
  pub after_first : tr.from_stop_idx_in_pattern ≢ 0
  pub from_pattern_here : get_elem? partition.trip_patterns tr.from_pattern_idx ≡ some from_pattern
  pub from_stops_here : pattern_stops partition from_pattern ≡ some from_stops
  pub stop_before : get_elem? from_stops (tr.from_stop_idx_in_pattern - 1) ≡ some stop
  pub to_pattern_here : get_elem? partition.trip_patterns tr.to_pattern_idx ≡ some to_pattern
  pub to_stops_here : pattern_stops partition to_pattern ≡ some to_stops
  pub stop_after : get_elem? to_stops (tr.to_stop_idx_in_pattern + 1) ≡ some stop
  pub t_trip_here : get_elem? from_pattern.trips tr.from_trip_idx ≡ some t_trip
  pub u_trip_here : get_elem? to_pattern.trips tr.to_trip_idx ≡ some u_trip
  pub arrives : get_arrival_time partition t_trip (tr.from_stop_idx_in_pattern - 1) ≡ some arr
  pub departs : get_departure_time partition u_trip (tr.to_stop_idx_in_pattern + 1) ≡ some dep
  pub in_time : add32 arr (change_time_at partition stop) ≤ dep

module _ (partition : TransitPartition) (tr : Transfer) where
  turn :
      (tr.from_stop_idx_in_pattern == 0) ≡ false
      → (fp : TripPattern) → get_elem? partition.trip_patterns tr.from_pattern_idx ≡ some fp
      → (fs : List ℕ) → pattern_stops partition fp ≡ some fs
      → (stop : ℕ) → get_elem? fs (tr.from_stop_idx_in_pattern - 1) ≡ some stop
      → (tp : TripPattern) → get_elem? partition.trip_patterns tr.to_pattern_idx ≡ some tp
      → (ts : List ℕ) → pattern_stops partition tp ≡ some ts
      → get_elem? ts (tr.to_stop_idx_in_pattern + 1) ≡ some stop
      → too_late partition tr stop ≡ some false
      → IsUTurn partition tr
  unfolding too_late
  turn later fp e_fp fs e_fs stop e_stop tp e_tp ts e_ts e_next e =
      let (t, e_t, e₁) =
        >>=-eq-some (get_elem? fp.trips tr.from_trip_idx) _ (rw (e_fp, e_tp) at e) in
      let (u, e_u, e₂) = >>=-eq-some (get_elem? tp.trips tr.to_trip_idx) _ e₁ in
      let (arr, e_arr, e₃) =
        >>=-eq-some (get_arrival_time partition t (tr.from_stop_idx_in_pattern - 1)) _ e₂ in
      let (dep, e_dep, e₄) =
        >>=-eq-some (get_departure_time partition u (tr.to_stop_idx_in_pattern + 1)) _ e₃ in
      record {
        from_pattern = fp;
        to_pattern = tp;
        from_stops = fs;
        to_stops = ts;
        stop = stop;
        t_trip = t;
        u_trip = u;
        arr = arr;
        dep = dep;
        after_first = λ h. ground arith;
        from_pattern_here = e_fp;
        from_stops_here = e_fs;
        stop_before = e_stop;
        to_pattern_here = e_tp;
        to_stops_here = e_ts;
        stop_after = e_next;
        t_trip_here = e_t;
        u_trip_here = e_u;
        arrives = e_arr;
        departs = e_dep;
        in_time = ground (arith, some-injective e₄);
      }

  removed-IsUTurn : is_kept partition tr ≡ some false → IsUTurn partition tr
  unfolding is_kept too_late
  removed-IsUTurn e = elim (Bool-cases (tr.from_stop_idx_in_pattern == 0)) [
    | inl first ↦ absurd (ground (arith, some-injective (rw first at e)))
    | inr later ↦
        let (fp, e_fp, e₁) =
          >>=-eq-some (get_elem? partition.trip_patterns tr.from_pattern_idx) _ (rw later at e) in
        let (fs, e_fs, e₂) = >>=-eq-some (pattern_stops partition fp) _ e₁ in
        let (prev, e_prev, e₃) =
          >>=-eq-some (get_elem? fs (tr.from_stop_idx_in_pattern - 1)) _ e₂ in
        let (tp, e_tp, e₄) =
          >>=-eq-some (get_elem? partition.trip_patterns tr.to_pattern_idx) _ e₃ in
        let (ts, e_ts, e₅) = >>=-eq-some (pattern_stops partition tp) _ e₄ in
        elim (Bool-cases (leb (length ts) (tr.to_stop_idx_in_pattern + 1))) [
          | inl last ↦ absurd (ground (arith, some-injective (rw last at e₅)))
          | inr more ↦
              let (next, e_next, e₆) =
                >>=-eq-some (get_elem? ts (tr.to_stop_idx_in_pattern + 1)) _ (rw more at e₅) in
              elim (Bool-cases (prev == next)) [
                | inr apart ↦ absurd (ground (arith, some-injective (rw apart at e₆)))
                | inl back ↦
                    turn later fp e_fp fs e_fs prev e_prev tp e_tp ts e_ts
                      (subst (λ n. get_elem? ts (tr.to_stop_idx_in_pattern + 1) ≡ some n)
                        (sym ((==_iff prev next).0 back)) e_next)
                      (rw back at e₆)
              ]
        ]
  ]

  IsUTurn-removed : IsUTurn partition tr → is_kept partition tr ≡ some false
  unfolding is_kept too_late
  IsUTurn-removed u = rw (
    first, u.from_pattern_here, u.from_stops_here, u.stop_before, u.to_pattern_here,
    u.to_stops_here, more, u.stop_after, same, u.t_trip_here, u.u_trip_here, u.arrives, u.departs,
    fits,
  )
    where
      first : (tr.from_stop_idx_in_pattern == 0) ≡ false
      first = ground (arith, u.after_first)

      more : leb (length u.to_stops) (tr.to_stop_idx_in_pattern + 1) ≡ false
      more = ground (arith, get_elem?-lt u.to_stops (tr.to_stop_idx_in_pattern + 1) u.stop_after)

      same : (u.stop == u.stop) ≡ true
      same = (==_iff u.stop u.stop).1 refl

      fits : leb (add32 u.arr (change_time_at partition u.stop)) u.dep ≡ true
      fits = ground (arith, u.in_time)

-- Of the transfers given, exactly those that are no U-turns are kept, and nothing is added.
pub remove_u_turn_transfers_lem :
    (partition : TransitPartition) (transfers : List Transfer) {kept : List Transfer}
    → remove_u_turn_transfers partition transfers ≡ some kept
    → (tr : Transfer)
    → (In tr transfers → In tr kept ⊎ IsUTurn partition tr)
      × (In tr kept → In tr transfers × ¬ IsUTurn partition tr)
unfolding remove_u_turn_transfers
remove_u_turn_transfers_lem partition [] e tr =
    ((λ m. elim m [ ]), λ m. elim (subst (In tr) (sym (some-injective e)) m) [ ])
remove_u_turn_transfers_lem partition (x ∷ transfers) {kept} e tr =
    let (keep, e_k, e₁) = >>=-eq-some (is_kept partition x) _ e in
    let (rest, e_r, e₂) = >>=-eq-some (remove_u_turn_transfers partition transfers) _ e₁ in
    let (loses, adds) = remove_u_turn_transfers_lem partition transfers e_r tr in
    subst
      (λ (l : List Transfer).
        (In tr (x ∷ transfers) → In tr l ⊎ IsUTurn partition tr)
        × (In tr l → In tr (x ∷ transfers) × ¬ IsUTurn partition tr))
      (some-injective e₂) (go keep e_k rest loses adds)
  where
    go :
        (keep : Bool)
        → is_kept partition x ≡ some keep
        → (rest : List Transfer) → (In tr transfers → In tr rest ⊎ IsUTurn partition tr)
        → (In tr rest → In tr transfers × ¬ IsUTurn partition tr)
        → (In tr (x ∷ transfers) → In tr (if keep then x ∷ rest else rest) ⊎ IsUTurn partition tr)
          × (In tr (if keep then x ∷ rest else rest)
              → In tr (x ∷ transfers) × ¬ IsUTurn partition tr)
    go true e_k rest loses adds = (
      λ m. elim m [
        | inl is ↦ inl (inl is)
        | inr later ↦ elim (loses later) [ inl k ↦ inl (inr k) | inr u ↦ inr u ]
      ],
      λ m. elim m [
        | inl is ↦ (
          inl is,
          λ u. absurd (
              ground (
                arith,
                some-injective
                    (sym e_k ∙ IsUTurn-removed partition x (subst (IsUTurn partition) is u)),
              )),
        )
        | inr later ↦ (inr (adds later).0, (adds later).1)
      ],
    )
    go false e_k rest loses adds = (
      λ m. elim m [
        | inl is ↦ inr (subst (IsUTurn partition) (sym is) (removed-IsUTurn partition x e_k))
        | inr later ↦ loses later
      ],
      λ m. (inr (adds m).0, (adds m).1),
    )
