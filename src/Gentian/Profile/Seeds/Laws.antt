-- ===== src/Gentian/Profile/Seeds/Laws.antt =====
-- The seeds that `compute_profile_query` starts with: the first trips after each walk.
use mathlib.Core.Path.{subst}
use catenary_backend.Common.{
  ℕ, zero, suc, ◌+◌, ◌≤◌, ◌<◌, ◌≡◌, refl, sym, ap, ◌∙◌, inl, inr, Option, none, some, List, [], ◌∷◌,
  ◌++◌, ltb, ◌==◌, ==_iff, true, if◌then◌else◌, >>=-eq-some, some-injective, Bool-cases, get_elem?,
  In, In-append, In-append_left, In-append_right, arith, tests,
}
use catenary_backend.Common.Words.{add32}
use catenary_backend.Common.Loops.{for_each, for_each_inv, for_each_holds}
use catenary_backend.Common.Sorting.{In-sort_by, In-sort_by_intro}
use catenary_backend.Transit.{TransitPartition, TripPattern, CompressedTrip, StaticTransfer}
use catenary_backend.Gentian.Times.{get_departure_time}
use catenary_backend.Gentian.Profile.{Query}
use catenary_backend.Gentian.Profile.Seeds.{
  Seed, walks_from, initial_walks, partition_point, seed_of, add_seed, add_seeds_at, add_seeds,
  collect_seeds,
}

-- From the start of the query one is at a stop after so many seconds: at the start at once, and after
-- a walk that the partition has from there.
pub data Walk (q : Query) : ℕ → ℕ → Type 0 where
  stay : Walk q q.start_stop 0
  along :
      (tr : StaticTransfer)
      → In tr q.partition.internal_transfers
      → tr.from_stop_idx ≡ q.start_stop
      → Walk q tr.to_stop_idx tr.duration_seconds

-- The trip at the place is the first of the trips, in their order, that leaves its stop s at the time
-- or later.
pub data FirstAfter (partition : TransitPartition) (s time : ℕ)
    : List CompressedTrip → ℕ → Type 0 where
  leaves_late :
      (trip : CompressedTrip) (trips : List CompressedTrip) (dep : ℕ)
      → get_departure_time partition trip s ≡ some dep
      → time ≤ dep
      → FirstAfter partition s time (trip ∷ trips) 0
  leaves_early :
      (trip : CompressedTrip) (trips : List CompressedTrip) (dep k : ℕ)
      → get_departure_time partition trip s ≡ some dep
      → dep < time
      → FirstAfter partition s time trips k
      → FirstAfter partition s time (trip ∷ trips) (suc k)

-- Trip t of pattern p is the first that one can board at its stop i after a walk from the start.
pub record Boarding (q : Query) (p t i : ℕ) : Type 0 where
  pub stop : ℕ
  pub seconds : ℕ
  pub patterns : List (ℕ × ℕ)
  pub pattern : TripPattern
  pub walk : Walk q stop seconds
  pub visits : get_elem? q.stop_to_patterns stop ≡ some patterns
  pub visit : In {A = ℕ × ℕ} (p, i) patterns
  pub its_pattern : get_elem? q.partition.trip_patterns p ≡ some pattern
  pub first : FirstAfter q.partition i (add32 q.start_time seconds) pattern.trips t

module _ (q : Query) where
  walks_from-along :
      (transfers : List StaticTransfer) (s d : ℕ)
      → In {A = ℕ × ℕ} (s, d) (walks_from q.start_stop transfers)
      → (tr : StaticTransfer) × In tr transfers
        × (tr.from_stop_idx ≡ q.start_stop)
        × (tr.to_stop_idx ≡ s)
        × (tr.duration_seconds ≡ d)
  unfolding walks_from
  walks_from-along [] s d m = absurd m
  walks_from-along (x ∷ transfers) s d m = elim (Bool-cases (x.from_stop_idx == q.start_stop)) [
    | inr other ↦
        let (tr, k, leaves, to, takes) = walks_from-along transfers s d (rw other at m) in
        (tr, inr k, leaves, to, takes)
    | inl here ↦ elim (rw here at m) [
      | inl e ↦ (
        x,
        inl refl,
        (==_iff x.from_stop_idx q.start_stop).0 here,
        sym (ap (λ (w : ℕ × ℕ). w.0) e),
        sym (ap (λ (w : ℕ × ℕ). w.1) e),
      )
      | inr k' ↦
          let (tr, k, leaves, to, takes) = walks_from-along transfers s d k' in
          (tr, inr k, leaves, to, takes)
    ]
  ]

  walks_from-In :
      (transfers : List StaticTransfer) (tr : StaticTransfer)
      → In tr transfers
      → tr.from_stop_idx ≡ q.start_stop
      → In {A = ℕ × ℕ} (tr.to_stop_idx, tr.duration_seconds) (walks_from q.start_stop transfers)
  unfolding walks_from
  walks_from-In [] tr m leaves = absurd m
  walks_from-In (x ∷ transfers) tr (inl e) leaves =
      let same_stop : (x.from_stop_idx == q.start_stop) ≡ true =
        (==_iff x.from_stop_idx q.start_stop).1 (ap (λ y. y.from_stop_idx) (sym e) ∙ leaves) in
      rw same_stop (inl (λ i. ((e i).to_stop_idx, (e i).duration_seconds)))
  walks_from-In (x ∷ transfers) tr (inr m) leaves =
      let rest = walks_from-In transfers tr m leaves in
      elim (Bool-cases (x.from_stop_idx == q.start_stop)) [
        | inr other ↦ rw other rest
        | inl here ↦ rw here (inr rest)
      ]

  pub initial_walks-Walk : (s d : ℕ) → In {A = ℕ × ℕ} (s, d) (initial_walks q) → Walk q s d
  unfolding initial_walks
  initial_walks-Walk s d (inl e) = subst (λ (w : ℕ × ℕ). Walk q w.0 w.1) (sym e) stay
  initial_walks-Walk s d (inr m) =
      let (tr, k, leaves, to, takes) = walks_from-along q.partition.internal_transfers s d m in
      subst (λ n. Walk q n d) to (subst (λ n. Walk q tr.to_stop_idx n) takes (along tr k leaves))

  pub Walk-initial_walks : (s d : ℕ) → Walk q s d → In {A = ℕ × ℕ} (s, d) (initial_walks q)
  unfolding initial_walks
  Walk-initial_walks _ _ stay = inl refl
  Walk-initial_walks _ _ (along tr m leaves) =
      inr (walks_from-In q.partition.internal_transfers tr m leaves)

partition_point-le :
    (partition : TransitPartition) (s time base : ℕ) (trips : List CompressedTrip) {t : ℕ}
    → partition_point partition s time base trips ≡ some t
    → base ≤ t
unfolding partition_point
partition_point-le partition s time base [] e = omega (arith, some-injective e)
partition_point-le partition s time base (trip ∷ trips) e =
    let (dep, at, e₁) = >>=-eq-some (get_departure_time partition trip s) _ e in
    let (n, rest, e₂) = >>=-eq-some (partition_point partition s time (base + 1) trips) _ e₁ in
    let above = partition_point-le partition s time (base + 1) trips rest in
    elim (Bool-cases (ltb dep time)) [
      | inl early ↦ omega (arith, above, some-injective (rw early at e₂))
      | inr late ↦ omega (arith, some-injective (rw late at e₂))
    ]

-- The index found is the place of the first trip that leaves late enough, where it has a trip.
partition_point-FirstAfter :
    (partition : TransitPartition) (s time base : ℕ) (trips : List CompressedTrip) (k : ℕ)
    (trip : CompressedTrip)
    → partition_point partition s time base trips ≡ some (base + k)
    → get_elem? trips k ≡ some trip
    → FirstAfter partition s time trips k
unfolding partition_point
partition_point-FirstAfter partition s time base [] k trip e at = absurd (ground (arith, at))
partition_point-FirstAfter partition s time base (x ∷ trips) k trip e at =
    let (dep, leaves, e₁) = >>=-eq-some (get_departure_time partition x s) _ e in
    let (n, rest, e₂) = >>=-eq-some (partition_point partition s time (base + 1) trips) _ e₁ in
    let above = partition_point-le partition s time (base + 1) trips rest in
    go k at dep n leaves rest above e₂
      (λ k' e' at'. partition_point-FirstAfter partition s time (base + 1) trips k' trip e' at')
  where
    go :
        (k : ℕ)
        → get_elem? (x ∷ trips) k ≡ some trip
        → (dep n : ℕ) → get_departure_time partition x s ≡ some dep
        → partition_point partition s time (base + 1) trips ≡ some n
        → base + 1 ≤ n
        → some (if ltb dep time then n else base) ≡ some (base + k)
        → ((k' : ℕ)
            → partition_point partition s time (base + 1) trips ≡ some (base + 1 + k')
            → get_elem? trips k' ≡ some trip
            → FirstAfter partition s time trips k')
        → FirstAfter partition s time (x ∷ trips) k
    go zero at dep n leaves rest above e₂ ih = elim (Bool-cases (ltb dep time)) [
      | inl early ↦ absurd (omega (arith, above, some-injective (rw early at e₂)))
      | inr late ↦ leaves_late x trips dep leaves (omega (tests, late))
    ]
    go (suc k) at dep n leaves rest above e₂ ih = elim (Bool-cases (ltb dep time)) [
      | inr late ↦ absurd (omega (arith, some-injective (rw late at e₂)))
      | inl early ↦
          let same : n ≡ base + 1 + k = omega (arith, some-injective (rw early at e₂)) in
          leaves_early x trips dep k leaves (omega (tests, early)) (ih k (rest ∙ ap some same) at)
    ]

FirstAfter-partition_point :
    (partition : TransitPartition) (s time base : ℕ) (trips : List CompressedTrip) (k : ℕ) {t : ℕ}
    → FirstAfter partition s time trips k
    → partition_point partition s time base trips ≡ some t
    → (t ≡ base + k)
      × ((trip : CompressedTrip) × (dep : ℕ) × (get_elem? trips k ≡ some trip)
          × (get_departure_time partition trip s ≡ some dep))
unfolding partition_point
FirstAfter-partition_point partition s time base _ _ (leaves_late trip trips dep leaves late) e =
    let (dep', leaves', e₁) = >>=-eq-some (get_departure_time partition trip s) _ e in
    let (n, rest, e₂) = >>=-eq-some (partition_point partition s time (base + 1) trips) _ e₁ in
    let same : dep' ≡ dep = some-injective (sym leaves' ∙ leaves) in
    elim (Bool-cases (ltb dep' time)) [
      | inl early ↦ absurd (omega (tests, early, same, late))
      | inr fits ↦ (omega (arith, some-injective (rw fits at e₂)), (trip, dep, refl, leaves))
    ]
FirstAfter-partition_point partition s time base _ _
      (leaves_early trip trips dep k leaves early first) e =
    let (dep', leaves', e₁) = >>=-eq-some (get_departure_time partition trip s) _ e in
    let (n, rest, e₂) = >>=-eq-some (partition_point partition s time (base + 1) trips) _ e₁ in
    let same : dep' ≡ dep = some-injective (sym leaves' ∙ leaves) in
    let (place, trip_at) =
      FirstAfter-partition_point partition s time (base + 1) trips k first rest in
    elim (Bool-cases (ltb dep' time)) [
      | inl before ↦ (omega (arith, place, some-injective (rw before at e₂)), trip_at)
      | inr fits ↦ absurd (omega (tests, fits, same, early))
    ]

-- A seed for the trip at the stop of the pattern.
abbrev pub Seeds : ℕ → ℕ → ℕ → List Seed → Type 0
Seeds p t i seeds =
    (seed : Seed) × In seed seeds
    × (seed.pattern_idx ≡ p)
    × (seed.trip_idx ≡ t)
    × (seed.stop_idx ≡ i)

Seeds-append_left :
    (p t i : ℕ) (seeds found : List Seed) → Seeds p t i seeds → Seeds p t i (seeds ++ found)
Seeds-append_left p t i seeds found (seed, m, pattern, trip, stop) =
    (seed, In-append_left seed seeds found m, pattern, trip, stop)

module _ (q : Query) where
  abbrev AllBoard : List Seed → Type 0
  AllBoard seeds =
      (seed : Seed) → In seed seeds → Boarding q seed.pattern_idx seed.trip_idx seed.stop_idx

  add_seed-AllBoard :
      (stop seconds : ℕ) (patterns : List (ℕ × ℕ)) (x : ℕ × ℕ) (seeds : List Seed)
      {seeds' : List Seed}
      → Walk q stop seconds
      → get_elem? q.stop_to_patterns stop ≡ some patterns
      → In x patterns
      → AllBoard seeds
      → add_seed q (stop, seconds) x seeds ≡ some seeds'
      → AllBoard seeds'
  unfolding add_seed seed_of
  add_seed-AllBoard stop seconds patterns (p, i) seeds {seeds'} walk visits visit h e =
      let (pattern, at, e₁) = >>=-eq-some (get_elem? q.partition.trip_patterns p) _ e in
      let (t, placed, e₂) =
        >>=-eq-some (partition_point q.partition i (add32 q.start_time seconds) 0 pattern.trips) _
          e₁ in
      let (found, seed_found, e₃) = >>=-eq-some (seed_of q (stop, seconds) (p, i) t _) _ e₂ in
      subst AllBoard (some-injective e₃) (λ seed m. elim (In-append seed seeds found m) [
        | inl old ↦ h seed old
        | inr new ↦
            go pattern at t placed (get_elem? pattern.trips t) refl found seed_found seed new
      ])
    where
      go :
          (pattern : TripPattern)
          → get_elem? q.partition.trip_patterns p ≡ some pattern
          → (t : ℕ)
          → partition_point q.partition i (add32 q.start_time seconds) 0 pattern.trips ≡ some t
          → (o : Option CompressedTrip) → get_elem? pattern.trips t ≡ o
          → (found : List Seed) → seed_of q (stop, seconds) (p, i) t o ≡ some found
          → AllBoard found
      go pattern at t placed none read found made seed m =
          absurd (subst (In seed) (sym (some-injective made)) m)
      go pattern at t placed (some trip) read found made seed m =
          let (dep, _, made') = >>=-eq-some (get_departure_time q.partition trip i) _ made in
          let first =
            partition_point-FirstAfter q.partition i (add32 q.start_time seconds) 0 pattern.trips t
              trip (placed ∙ ap some (omega arith)) read in
          let boards : Boarding q p t i = record {
            stop = stop;
            seconds = seconds;
            patterns = patterns;
            pattern = pattern;
            walk = walk;
            visits = visits;
            visit = visit;
            its_pattern = at;
            first = first;
          } in
          elim (subst (In seed) (sym (some-injective made')) m) [
            | inl same ↦
                subst (λ (s : Seed). Boarding q s.pattern_idx s.trip_idx s.stop_idx) (sym same)
                  boards
            | inr none_more ↦ absurd none_more
          ]

  add_seeds-AllBoard :
      (w : ℕ × ℕ) (seeds : List Seed) {seeds' : List Seed}
      → Walk q w.0 w.1
      → AllBoard seeds
      → add_seeds q w seeds ≡ some seeds'
      → AllBoard seeds'
  unfolding add_seeds add_seeds_at
  add_seeds-AllBoard (stop, seconds) seeds {seeds'} walk h e =
      go (get_elem? q.stop_to_patterns stop) refl e
    where
      go :
          (o : Option (List (ℕ × ℕ)))
          → get_elem? q.stop_to_patterns stop ≡ o
          → add_seeds_at q (stop, seconds) o seeds ≡ some seeds'
          → AllBoard seeds'
      go none visits e' = subst AllBoard (some-injective e') h
      go (some patterns) visits e' =
          for_each_inv AllBoard (add_seed q (stop, seconds)) patterns seeds
            (λ x u v m h' step. add_seed-AllBoard stop seconds patterns x u walk visits m h' step) h
            e'

  -- A seed stands for the first trip that one can board at its stop after a walk.
  pub collect_seeds-Boarding : {seeds : List Seed} → collect_seeds q ≡ some seeds → AllBoard seeds
  unfolding collect_seeds
  collect_seeds-Boarding {seeds} e seed m =
      let (found, made, e₁) = >>=-eq-some (for_each (add_seeds q) (initial_walks q) []) _ e in
      for_each_inv AllBoard (add_seeds q) (initial_walks q) []
        (λ w u v k h step. add_seeds-AllBoard w u (initial_walks-Walk q w.0 w.1 k) h step)
        (λ s k. absurd k) made seed
        (In-sort_by _ seed found (subst (In seed) (sym (some-injective e₁)) m))

  add_seed-keeps :
      (p t i : ℕ) (w x : ℕ × ℕ) (seeds : List Seed) {seeds' : List Seed}
      → Seeds p t i seeds
      → add_seed q w x seeds ≡ some seeds'
      → Seeds p t i seeds'
  unfolding add_seed
  add_seed-keeps p t i w x seeds h e =
      let (pattern, _, e₁) = >>=-eq-some (get_elem? q.partition.trip_patterns x.0) _ e in
      let (n, _, e₂) = >>=-eq-some (partition_point q.partition x.1 _ 0 pattern.trips) _ e₁ in
      let (found, _, e₃) = >>=-eq-some (seed_of q w x n _) _ e₂ in
      subst (Seeds p t i) (some-injective e₃) (Seeds-append_left p t i seeds found h)

  add_seed-brings :
      (p t i : ℕ) (b : Boarding q p t i) (seeds : List Seed) {seeds' : List Seed}
      → add_seed q (b.stop, b.seconds) (p, i) seeds ≡ some seeds'
      → Seeds p t i seeds'
  unfolding add_seed seed_of
  add_seed-brings p t i b seeds e =
      let (pattern, at, e₁) = >>=-eq-some (get_elem? q.partition.trip_patterns p) _ e in
      let (n, placed, e₂) =
        >>=-eq-some (partition_point q.partition i (add32 q.start_time b.seconds) 0 pattern.trips) _
          e₁ in
      let (found, made, e₃) =
        >>=-eq-some (seed_of q (b.stop, b.seconds) (p, i) n (get_elem? pattern.trips n)) _ e₂ in
      let same : b.pattern ≡ pattern = some-injective (sym b.its_pattern ∙ at) in
      let (place, (trip, dep, read, leaves)) =
        FirstAfter-partition_point q.partition i (add32 q.start_time b.seconds) 0 pattern.trips t
          (subst
            (λ (x : TripPattern). FirstAfter q.partition i (add32 q.start_time b.seconds) x.trips t)
            same b.first)
          placed in
      let n_is : n ≡ t = omega (arith, place) in
      let read' : get_elem? pattern.trips n ≡ some trip =
        ap (get_elem? pattern.trips) n_is ∙ read in
      subst (Seeds p t i) (some-injective e₃) (
        let seeded = some-injective (rw (read', leaves) at made) in
        (_, In-append_right _ seeds found (subst (In _) seeded (inl refl)), refl, n_is, refl))

  -- Each first trip that one can board after a walk has a seed.
  pub Boarding-collect_seeds :
      (p t i : ℕ) {seeds : List Seed}
      → collect_seeds q ≡ some seeds
      → Boarding q p t i
      → Seeds p t i seeds
  unfolding collect_seeds add_seeds add_seeds_at
  Boarding-collect_seeds p t i {seeds} e b =
      let (found, made, e₁) = >>=-eq-some (for_each (add_seeds q) (initial_walks q) []) _ e in
      let (seed, m, pattern, trip, stop) =
        for_each_holds (Seeds p t i) (add_seeds q) (b.stop, b.seconds) (initial_walks q) []
          (λ w u v h step. add_seeds-keeps w u h step)
          (λ u v step.
            for_each_holds (Seeds p t i) (add_seed q (b.stop, b.seconds)) (p, i) b.patterns u
              (λ x y z h step'. add_seed-keeps p t i (b.stop, b.seconds) x y h step')
              (λ y z step'. add_seed-brings p t i b y step') b.visit
              (subst (λ o. add_seeds_at q (b.stop, b.seconds) o u ≡ some v) b.visits step))
          (Walk-initial_walks q b.stop b.seconds b.walk) made in
      (
        seed,
        subst (In seed) (some-injective e₁) (In-sort_by_intro _ seed found m),
        pattern,
        trip,
        stop,
      )
    where
      add_seeds-keeps :
          (w : ℕ × ℕ) (u : List Seed) {v : List Seed}
          → Seeds p t i u
          → add_seeds q w u ≡ some v
          → Seeds p t i v
      add_seeds-keeps w u {v} h step = go (get_elem? q.stop_to_patterns w.0) step
        where
          go : (o : Option (List (ℕ × ℕ))) → add_seeds_at q w o u ≡ some v → Seeds p t i v
          go none e' = subst (Seeds p t i) (some-injective e') h
          go (some patterns) e' =
              for_each_inv (Seeds p t i) (add_seed q w) patterns u
                (λ x y z m h' step'. add_seed-keeps p t i w x y h' step') h e'
