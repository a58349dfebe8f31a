-- ===== src/Gentian/RefineAll/Trip.antt =====
-- The marks that the walk back along one trip sets.
use mathlib.Core.Path.{subst}
use mathlib.Core.List.{reverse}
use native.Mathlib.Nat.{le_refl}
use catenary_backend.Common.{
  ℕ, zero, suc, ◌+◌, ◌-◌, ◌<◌, ◌≡◌, refl, sym, ap, ◌∙◌, ◌⊎◌, inl, inr, Bool, true, ◌&&◌, Option,
  none, some, List, [], ◌∷◌, ◌==◌, ==_iff, ltb, >>=-eq-some, some-injective, Bool-cases,
  true_is_false, length, get_elem?, get_elem?-set_ne, set, find?, In, arith,
}
use catenary_backend.Common.Loops.{for_each, for_each_reverse, enumerate}
use catenary_backend.Transit.{TransitPartition, CompressedTrip}
use catenary_backend.Gentian.Times.{get_departure_time}
use catenary_backend.Gentian.Index.{Footpaths, store_at}
use catenary_backend.Gentian.Transfers.{Transfer}
use catenary_backend.Gentian.Refine.{Tau, arrive, try_transfer}
use catenary_backend.Gentian.Refine.Kept.{arrive_kept}
use catenary_backend.Gentian.Refine.Served.{
  Arrives, stay, IsServed, IsServed-More, IsJustified, IsJustified-More, IsJustified-Updates,
  Rides-Offers, try_useful, try_useless,
}
use catenary_backend.Gentian.Profile.{TripRange}
use catenary_backend.Gentian.Profile.Forward.{indices_from, range_indices}
use catenary_backend.Gentian.RefineAll.{
  Marks, mark, try_and_mark, try_index, refine_stop, trip_transfer_ranges,
}
use catenary_backend.Gentian.RefineAll.Ranges.{Leaves, range_indices-Leaves}

abbrev pub IsMarked : List Bool → ℕ → Type 0
IsMarked flags k = get_elem? flags k ≡ some true

-- A mark is set at the index stored to, and no other.
store_at-IsMarked :
    (flags : List Bool) (k j : ℕ) {flags' : List Bool}
    → store_at flags k true ≡ some flags'
    → IsMarked flags' j
    → (j ≡ k) ⊎ IsMarked flags j
unfolding store_at
store_at-IsMarked flags k j {flags'} e m = elim (Bool-cases (ltb k (length flags))) [
  | inr out ↦ absurd (ground (arith, rw out at e))
  | inl inside ↦
      let same : set flags k true ≡ flags' = some-injective (rw inside at e) in
      elim (Bool-cases (k == j)) [
        | inl here ↦ inl (sym ((==_iff k j).0 here))
        | inr other ↦ inr (
            sym (
              get_elem?-set_ne flags k j true
                (λ e'. absurd (true_is_false (sym ((==_iff k j).1 e') ∙ other))))
            ∙ (ap (λ l. get_elem? l j) same ∙ m))
      ]
]

-- for k in a..a + n: what each round brings from k to k + 1 holds in the end.
for_each-indices_from :
    {S : Type 0} (P : ℕ → S → Type 0) (body : ℕ → S → Option S) (a n : ℕ) (s : S) {t : S}
    → ((k : ℕ) (u v : S) → In k (indices_from a n) → P k u → body k u ≡ some v → P (k + 1) v)
    → P a s
    → for_each body (indices_from a n) s ≡ some t
    → P (a + n) t
unfolding for_each indices_from
for_each-indices_from P body a zero s {t} keep h e =
    let done : a ≡ a + 0 = omega arith in subst (λ x. P x t) done (subst (P a) (some-injective e) h)
for_each-indices_from P body a (suc n) s {t} keep h e =
    let (u, e₁, e₂) = >>=-eq-some (body a s) _ e in
    let next : a + 1 + n ≡ a + suc n = omega arith in
    subst (λ x. P x t) next
      (for_each-indices_from P body (a + 1) n u (λ k x y m. keep k x y (inr m))
        (keep a s u (inl refl) h e₁) e₂)

module _ (transfers : List Transfer) where
  one_at :
      (k : ℕ) (x y : Transfer)
      → get_elem? transfers k ≡ some x
      → get_elem? transfers k ≡ some y
      → x ≡ y
  one_at k x y h h' = some-injective (sym h ∙ h')

module _ (partition : TransitPartition) (transfers : List Transfer) (f : Footpaths)
    (stops arrivals : List ℕ) (trip : CompressedTrip) (p t : ℕ) (before : List Bool) where
  -- The transfer was tried when the walk is at stop i and before index `pos`.
  abbrev Tried : ℕ → ℕ → ℕ → Transfer → Type 0
  Tried i pos k tr =
      (i < tr.from_stop_idx_in_pattern) ⊎ ((tr.from_stop_idx_in_pattern ≡ i) × (k < pos))

  abbrev Place : ℕ → Transfer → Type 0
  Place k tr = (get_elem? transfers k ≡ some tr) × Leaves p t tr

  -- What holds when the walk is at stop i and before index `pos`: `kept` are the transfers tried that
  -- were of use, and they serve what the marked ones reach.
  pub record Walking (i pos : ℕ) (marks : Marks) : Type 0 where
    pub kept : List Transfer
    pub justified :
        IsJustified partition f.footpaths stops arrivals (length partition.stops) kept i marks.tau
    pub unmarked :
        (tr : Transfer)
        → In tr kept
        → (k : ℕ) × Place k tr × ¬ IsMarked marks.to_remove k × Tried i pos k tr
    pub served :
        (k : ℕ) (tr : Transfer)
        → Place k tr
        → IsMarked marks.to_remove k
        → IsServed partition f.footpaths stops arrivals (length partition.stops) kept tr
          × Tried i pos k tr
    pub others :
        (k : ℕ) → IsMarked marks.to_remove k → IsMarked before k ⊎ ((tr : Transfer) × Place k tr)

  -- A later index or an earlier stop, with the same marks.
  Walking-weaken :
      (i pos j later : ℕ) (marks : Marks) (tau : Tau)
      → ((k : ℕ) (tr : Transfer) → Tried i pos k tr → Tried j later k tr)
      → (w : Walking i pos marks)
      → IsJustified partition f.footpaths stops arrivals (length partition.stops) w.kept j tau
      → Walking j later (record marks { tau = tau })
  Walking-weaken i pos j later marks tau more w justified = record {
    kept = w.kept;
    justified = justified;
    unmarked =
        λ tr m. let (k, place, free, tried) = w.unmarked tr m in (k, place, free, more k tr tried);
    served = λ k tr place m. let (s, tried) = w.served k tr place m in (s, more k tr tried);
    others = w.others;
  }

  later_index : (i k j : ℕ) (tr : Transfer) → Tried i k j tr → Tried i (k + 1) j tr
  later_index i k j tr (inl above) = inl above
  later_index i k j tr (inr (here, low)) = inr (here, omega arith)

  not_yet : (i k : ℕ) (tr : Transfer) → tr.from_stop_idx_in_pattern ≡ i → ¬ Tried i k k tr
  not_yet i k tr here (inl above) = omega arith
  not_yet i k tr here (inr (_, low)) = omega arith

  Walking-useful :
      (i k : ℕ) (tr : Transfer) (u : Marks) (tau : Tau)
      → Place k tr
      → tr.from_stop_idx_in_pattern ≡ i
      → (w : Walking i k u)
      → IsJustified partition f.footpaths stops arrivals
          (length partition.stops)
          (tr ∷ w.kept)
          i
          tau
      → Walking i (k + 1) (record { tau = tau; to_remove = u.to_remove })
  Walking-useful i k tr u tau place here w justified = record {
    kept = tr ∷ w.kept;
    justified = justified;
    unmarked = λ x m. elim m [
      | inl e ↦ (
        k,
        subst (Place k) (sym e) place,
        (λ m'. not_yet i k tr here (w.served k tr place m').1),
        subst (Tried i (k + 1) k) (sym e) (inr (here, omega arith)),
      )
      | inr m ↦
          let (j, at, free, tried) = w.unmarked x m in (j, at, free, later_index i k j x tried)
    ];
    served = λ j x at m.
        let (s, tried) = w.served j x at m in
        (
          IsServed-More partition f.footpaths stops arrivals (λ y m. inr m) x s,
          later_index i k j x tried,
        );
    others = w.others;
  }

  Walking-useless :
      (i k : ℕ) (tr : Transfer) (u : Marks) (tau : Tau) (flags : List Bool)
      → Place k tr
      → tr.from_stop_idx_in_pattern ≡ i
      → ((j : ℕ) → IsMarked flags j → (j ≡ k) ⊎ IsMarked u.to_remove j)
      → (w : Walking i k u)
      → IsJustified partition f.footpaths stops arrivals (length partition.stops) w.kept i tau
      → IsServed partition f.footpaths stops arrivals (length partition.stops) w.kept tr
      → Walking i (k + 1) (record { tau = tau; to_remove = flags })
  Walking-useless i k tr u tau flags place here marks w justified served = record {
    kept = w.kept;
    justified = justified;
    unmarked = λ x m.
        let (j, at, free, tried) = w.unmarked x m in
        (
          j,
          at,
          (λ m'. elim (marks j m') [
            | inl same ↦ not_yet i k tr here (
                subst (Tried i k k)
                  (one_at transfers k x tr (subst (λ n. get_elem? transfers n ≡ some x) same at.0)
                    place.0)
                  (subst (λ n. Tried i k n x) same tried))
            | inr old ↦ free old
          ]),
          later_index i k j x tried,
        );
    served = λ j x at m. elim (marks j m) [
      | inl same ↦
          let e : tr ≡ x =
            one_at transfers k tr x place.0
              (subst (λ n. get_elem? transfers n ≡ some x) same at.0) in
          (
            subst (IsServed partition f.footpaths stops arrivals (length partition.stops) w.kept) e
                served,
            inr (ap (λ y. y.from_stop_idx_in_pattern) (sym e) ∙ here, omega (arith, same)),
          )
      | inr old ↦ let (s, tried) = w.served j x at old in (s, later_index i k j x tried)
    ];
    others = λ j m. elim (marks j m) [
      | inl same ↦ inr (tr, subst (λ n. Place n tr) (sym same) place)
      | inr old ↦ w.others j old
    ];
  }

  try_and_mark-Walking :
      (ranges : List TripRange) (i k : ℕ) (tr : Transfer) (u v : Marks)
      → Place k tr
      → tr.from_stop_idx_in_pattern ≡ i
      → Walking i k u
      → try_and_mark partition transfers ranges f trip i k tr u ≡ some v
      → Walking i (k + 1) v
  unfolding try_and_mark
  try_and_mark-Walking ranges i k tr u v place here w e =
      let (departure, _, e₁) = >>=-eq-some (get_departure_time partition trip i) _ e in
      let (r, tried, e₂) =
        >>=-eq-some (try_transfer partition f.change_times f.footpaths tr u.tau) _ e₁ in
      let (flags, marked, e₃) = >>=-eq-some (mark r.1 k u.to_remove) _ e₂ in
      let justified : IsJustified partition f.footpaths stops arrivals (length partition.stops)
          w.kept tr.from_stop_idx_in_pattern u.tau =
        subst
          (λ x.
            IsJustified partition f.footpaths stops arrivals (length partition.stops) w.kept x
              u.tau)
          (sym here) w.justified in
      let result = subst (Walking i (k + 1)) (some-injective e₃) in
      elim (Bool-cases r.1) [
        | inl useful ↦ result (
            subst (λ l. Walking i (k + 1) (record { tau = r.0; to_remove = l }))
              (some-injective (rw useful at marked))
              (Walking-useful i k tr u r.0 place here w (
                subst
                  (λ x.
                    IsJustified partition f.footpaths stops arrivals (length partition.stops)
                      (tr ∷ w.kept) x r.0)
                  here
                  (try_useful partition f.footpaths stops arrivals f.change_times
                    (length partition.stops) w.kept tr u.tau justified tried))))
        | inr useless ↦
            let (justified', served) =
              try_useless partition f.footpaths stops arrivals f.change_times
                (length partition.stops) w.kept tr u.tau justified tried useless in
            result (
              Walking-useless i k tr u r.0 flags place here
                (λ j. store_at-IsMarked u.to_remove k j (rw useless at marked)) w
                (subst
                  (λ x.
                    IsJustified partition f.footpaths stops arrivals (length partition.stops) w.kept
                      x r.0)
                  here justified')
                served)
      ]

  try_index-Walking :
      (ranges : List TripRange) (i k : ℕ) (u v : Marks)
      → ((tr : Transfer) → get_elem? transfers k ≡ some tr → Leaves p t tr)
      → Walking i k u
      → try_index partition transfers ranges f trip i k u ≡ some v
      → Walking i (k + 1) v
  unfolding try_index
  try_index-Walking ranges i k u v leaves w e =
      let (tr, at, e₁) = >>=-eq-some (get_elem? transfers k) _ e in
      elim (Bool-cases (tr.from_stop_idx_in_pattern == i)) [
        | inl here ↦
            try_and_mark-Walking ranges i k tr u v (at, leaves tr at)
              ((==_iff tr.from_stop_idx_in_pattern i).0 here) w (rw here at e₁)
        | inr elsewhere ↦
            subst (Walking i (k + 1)) (some-injective (rw elsewhere at e₁))
              (Walking-weaken i k i (k + 1) u u.tau (later_index i k) w w.justified)
      ]

  -- Between two stops the index does not count.
  abbrev pub WalkingAt : ℕ → Marks → Type 0
  WalkingAt i marks = (pos : ℕ) × Walking i pos marks

  try_range-Walking :
      (ranges : List TripRange) (i : ℕ) (range : Option TripRange) (u : Marks) {v : Marks}
      → ((k : ℕ) (tr : Transfer)
          → In k (range_indices range)
          → get_elem? transfers k ≡ some tr
          → Leaves p t tr)
      → Walking i 0 u
      → for_each (try_index partition transfers ranges f trip i) (range_indices range) u ≡ some v
      → WalkingAt i v
  unfolding range_indices for_each
  try_range-Walking ranges i none u leaves w e = (0, subst (Walking i 0) (some-injective e) w)
  try_range-Walking ranges i (some r) u leaves w e = (
    _,
    for_each-indices_from (Walking i) (try_index partition transfers ranges f trip i) r.start
        (r.end - r.start) u (λ k x y m. try_index-Walking ranges i k x y (λ tr. leaves k tr m))
        (Walking-weaken i 0 i r.start u u.tau
          (λ k tr tried. elim tried [ inl above ↦ inl above | inr (_, low) ↦ absurd (omega arith) ])
          w w.justified)
        e,
  )

  refine_stop-Walking :
      (i stop : ℕ) (u v : Marks)
      → get_elem? stops i ≡ some stop
      → WalkingAt (i + 1) u
      → refine_stop partition transfers
          (trip_transfer_ranges transfers)
          f
          p
          t
          trip
          arrivals
          (i, stop)
          u
        ≡ some v
      → WalkingAt i v
  unfolding refine_stop
  refine_stop-Walking i stop u v at (pos, w) e =
      let (arr, calls, e₁) = >>=-eq-some (get_elem? arrivals i) _ e in
      let (first, ef, e₂) = >>=-eq-some (arrive f.change_times f.footpaths stop arr u.tau) _ e₁ in
      let N = length partition.stops in
      try_range-Walking (trip_transfer_ranges transfers) i
        (find? (λ r. r.pattern_idx == p && r.trip_idx == t) (trip_transfer_ranges transfers))
        (record u { tau = first.0 }) (range_indices-Leaves transfers p t)
        (Walking-weaken (i + 1) pos i 0 u first.0
          (λ k tr tried. elim tried [
            | inl above ↦ inl (omega arith)
            | inr (here, _) ↦ inl (omega arith)
          ])
          w
          (arrive_kept f.change_times f.footpaths
            (IsJustified partition f.footpaths stops arrivals N w.kept i)
            (Arrives partition f.footpaths stops arrivals w.kept i)
            (IsJustified-Updates partition f.footpaths stops arrivals f.change_times N w.kept i)
            stop arr u.tau
            (Rides-Offers partition f.footpaths stops arrivals f.change_times N w.kept i stop arr
              (stay i stop arr (le_refl _) at calls))
            (IsJustified-More partition f.footpaths stops arrivals (λ x m. m) (omega arith)
              w.justified)
            ef))
        e₂

  -- A walk that starts with clear buffers, where no transfer of the trip is marked.
  pub refine_stops-Walking :
      (u : Marks) {v : Marks}
      → u.to_remove ≡ before
      → IsJustified partition f.footpaths stops arrivals
          (length partition.stops)
          []
          (length stops)
          u.tau
      → ((k : ℕ) (tr : Transfer) → Place k tr → ¬ IsMarked before k)
      → for_each
          (refine_stop partition transfers (trip_transfer_ranges transfers) f p t trip arrivals)
          (reverse (enumerate 0 stops))
          u
        ≡ some v
      → WalkingAt 0 v
  refine_stops-Walking u same justified free e =
      for_each_reverse WalkingAt
        (refine_stop partition transfers (trip_transfer_ranges transfers) f p t trip arrivals) stops
        u refine_stop-Walking
        (
          0,
          record {
            kept = [];
            justified = justified;
            unmarked = λ tr m. absurd m;
            served = λ k tr place m. absurd (free k tr place (subst (λ l. IsMarked l k) same m));
            others = λ k m. inl (subst (λ l. IsMarked l k) same m);
          },
        )
        e
