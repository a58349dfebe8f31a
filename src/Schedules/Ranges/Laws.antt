-- ===== src/Schedules/Ranges/Laws.antt =====
-- Which days `find_service_ranges` returns.
use mathlib.Core.Path.{subst}
use catenary_backend.Common.{
  ℕ, zero, suc, ◌+◌, ◌-◌, ◌≤◌, ◌<◌, ◌≡◌, true, Option, none, some, List, [], ◌∷◌, leb, ◌==◌,
  if◌then◌else◌, max, >>=-eq-some, some-injective, ◌⊎◌, ◌↔◌, inl, inr, refl, sym, ap, ◌∙◌, In,
  Bool-cases, ==_iff, arith, ltb, tests,
}
use catenary_backend.Common.Int.{ℤ, pos, ◌+ℤ◌, ◌-ℤ◌}
use catenary_backend.Common.Sorting.{sort_by, In-sort_by, In-sort_by_intro}
use catenary_backend.Schedules.Feed.{Weekday}
use catenary_backend.Schedules.Services.{CalendarUnified, datetime_in_service}
use catenary_backend.Schedules.Ranges.{
  TripToFindScheduleFor, latest_end, additional_lookback, starting_times, dedup_after, dedup,
  service_days, find_service_ranges,
}

pub In-dedup_after : (p d : ℕ) (ds : List ℕ) → In d (dedup_after p ds) → In d ds
unfolding dedup_after
In-dedup_after p d [] m = absurd m
In-dedup_after p d (x ∷ ds) m = elim (Bool-cases (p == x)) [
  | inl e ↦ inr (
      In-dedup_after x d ds
        (subst (λ c. In d (if c then dedup_after x ds else x ∷ dedup_after x ds)) e m))
  | inr e ↦ elim (subst (λ c. In d (if c then dedup_after x ds else x ∷ dedup_after x ds)) e m) [
    | inl q ↦ inl q
    | inr n ↦ inr (In-dedup_after x d ds n)
  ]
]

In-dedup_after_intro : (p d : ℕ) (ds : List ℕ) → In d ds → (d ≡ p) ⊎ In d (dedup_after p ds)
unfolding dedup_after
In-dedup_after_intro p d [] m = absurd m
In-dedup_after_intro p d (x ∷ ds) m = elim (Bool-cases (p == x)) [
  | inl e ↦ elim m [
    | inl q ↦ inl (q ∙ sym ((==_iff p x).0 e))
    | inr n ↦ elim (In-dedup_after_intro x d ds n) [
      | inl q ↦ inl (q ∙ sym ((==_iff p x).0 e))
      | inr k ↦ inr (rw e k)
    ]
  ]
  | inr e ↦ elim m [
    | inl q ↦ inr (rw e (inl q))
    | inr n ↦ elim (In-dedup_after_intro x d ds n) [
      | inl q ↦ inr (rw e (inl q))
      | inr k ↦ inr (rw e (inr k))
    ]
  ]
]

In-dedup : (d : ℕ) (ds : List ℕ) → In d (dedup ds) ↔ In d ds
unfolding dedup
In-dedup d [] = (λ m. m, λ m. m)
In-dedup d (x ∷ ds) = (
  λ m. elim m [ inl q ↦ inl q | inr n ↦ inr (In-dedup_after x d ds n) ],
  λ m. elim m [ inl q ↦ inl q | inr n ↦ In-dedup_after_intro x d ds n ],
)

module _ (weekday : ℕ → Weekday) where
  In-service_days :
      (service : CalendarUnified) (rounds i d : ℕ)
      → In d (service_days weekday service rounds i)
        ↔ ((i ≤ d) × (d < i + rounds) × (datetime_in_service weekday service d ≡ true))
  unfolding service_days
  In-service_days service zero i d = (λ m. absurd m, λ (low, high, on). absurd (omega arith))
  In-service_days service (suc rounds) i d =
      let (to, back) = In-service_days service rounds (i + 1) d in
      (
        λ m. elim (Bool-cases (datetime_in_service weekday service i)) [
          | inl e ↦
              elim (subst
                (λ c. In d (
                  if c
                  then i ∷ service_days weekday service rounds (i + 1)
                  else service_days weekday service rounds (i + 1)))
                e m) [
                  | inl q ↦ (
                    omega (arith, q),
                    omega (arith, q),
                    ap (datetime_in_service weekday service) q ∙ e,
                  )
                  | inr n ↦ let (low, high, on) = to n in (omega arith, omega arith, on)
                ]
          | inr e ↦
              let (low, high, on) = to (
                subst
                  (λ c. In d (
                    if c
                    then i ∷ service_days weekday service rounds (i + 1)
                    else service_days weekday service rounds (i + 1)))
                  e m) in
              (omega arith, omega arith, on)
        ],
        λ (low, high, on). elim (Bool-cases (ltb i d)) [
          | inl e ↦
              let n = back (omega (tests, e), omega arith, on) in
              elim (Bool-cases (datetime_in_service weekday service i)) [
                | inl r ↦ rw r (inr n)
                | inr r ↦ rw r n
              ]
          | inr e ↦
              let same_day : d ≡ i = omega (tests, e) in
              rw (ap (datetime_in_service weekday service) (sym same_day) ∙ on) (inl same_day)
        ],
      )

  module _ (date_of : ℤ → ℕ) (noon : ℕ → Option ℤ) where
    -- The day begins at the time, twelve hours before its noon.
    abbrev pub BeginsAt : ℕ → ℤ → Type 0
    BeginsAt d t = (n : ℤ) × (noon d ≡ some n) × (t ≡ n -ℤ pos 43200)

    starting_times-returns :
        (days : List ℕ)
        → ((d : ℕ) → In d days → (n : ℤ) × (noon d ≡ some n))
        → (r : List (ℕ × ℤ)) × (starting_times weekday date_of noon days ≡ some r)
    unfolding starting_times
    starting_times-returns [] noons = ([], refl)
    starting_times-returns (x ∷ days) noons =
        let (n, at) = noons x (inl refl) in
        let (rest, later) = starting_times-returns days (λ d m. noons d (inr m)) in
        ((x, n -ℤ pos 43200) ∷ rest, rw at (rw later refl))

    In-starting_times :
        (d : ℕ) (t : ℤ) (days : List ℕ) {r : List (ℕ × ℤ)}
        → starting_times weekday date_of noon days ≡ some r
        → In {A = ℕ × ℤ} (d, t) r ↔ (In d days × BeginsAt d t)
    unfolding starting_times
    In-starting_times d t [] e =
        (λ m. absurd (subst (In {A = ℕ × ℤ} (d, t)) (sym (some-injective e)) m), λ (m, _). absurd m)
    In-starting_times d t (x ∷ days) {r} e =
        let (n, at, e₁) = >>=-eq-some (noon x) _ e in
        let (rest, later, e₂) = >>=-eq-some (starting_times weekday date_of noon days) _ e₁ in
        let same : (x, n -ℤ pos 43200) ∷ rest ≡ r = some-injective e₂ in
        let (to, back) = In-starting_times d t days later in
        (
          λ m. elim (subst (In {A = ℕ × ℤ} (d, t)) (sym same) m) [
            | inl q ↦ (inl (ap (λ y. y.0) q), (n, ap noon (ap (λ y. y.0) q) ∙ at, ap (λ y. y.1) q))
            | inr k ↦ let (k', begins) = to k in (inr k', begins)
          ],
          λ (m, begins). subst (In {A = ℕ × ℤ} (d, t)) same (elim m [
            | inl q ↦
                let (n', at', on) = begins in
                let same_noon : n' ≡ n = some-injective (sym at' ∙ (ap noon q ∙ at)) in
                inl (λ i. (q i, (on ∙ ap (λ y. y -ℤ pos 43200) same_noon) i))
            | inr k ↦ inr (back (k, begins))
          ]),
        )

    -- The seconds that the span is moved back by for the frequencies of a trip: none where it has no
    -- table of them, else the latest end in the table.
    pub data Lookback : Option (List ℕ) → ℕ → Type 0 where
      no_table : Lookback none 0
      latest :
          (ends : List ℕ) (lookback : ℕ)
          → In lookback ends
          → ((other : ℕ) → In other ends → other ≤ lookback)
          → Lookback (some ends) lookback

    -- The search for the latest end of a table that has one.
    latest_end-greatest :
        (x : ℕ) (ends : List ℕ)
        → (v : ℕ) × (latest_end (x ∷ ends) ≡ some v)
          × In v (x ∷ ends)
          × ((other : ℕ) → In other (x ∷ ends) → other ≤ v)
    unfolding latest_end
    latest_end-greatest x [] =
        (x, refl, inl refl, λ other m. elim m [ inl q ↦ omega (arith, q) | inr k ↦ absurd k ])
    latest_end-greatest x (y ∷ ends) =
        let (v, found, m, most) = latest_end-greatest y ends in
        (
          max x v,
          rw found refl,
          elim (Bool-cases (leb v x)) [
            | inl over ↦ inl (ground (arith, over))
            | inr under ↦
                let is_v : v ≡ max x v = ground (arith, under) in
                inr (subst (λ n. In n (y ∷ ends)) is_v m)
          ],
          λ other k. elim k [ inl q ↦ omega (arith, q) | inr k' ↦ omega (arith, most other k') ],
        )

    latest_end-max :
        (ends : List ℕ) (lookback : ℕ)
        → In lookback ends
        → ((other : ℕ) → In other ends → other ≤ lookback)
        → latest_end ends ≡ some lookback
    latest_end-max [] lookback m most = absurd m
    latest_end-max (x ∷ ends) lookback m most =
        let (v, found, k, greatest) = latest_end-greatest x ends in
        found ∙ ap some (omega (arith, greatest lookback m, most v k))

    additional_lookback-Lookback :
        (frequency : Option (List ℕ)) (lookback : ℕ)
        → Lookback frequency lookback
        → additional_lookback frequency ≡ some lookback
    unfolding additional_lookback
    additional_lookback-Lookback _ _ no_table = refl
    additional_lookback-Lookback _ _ (latest ends lookback m most) =
        latest_end-max ends lookback m most

    -- The day is one on which the service runs, from the local date of the start of the span, moved
    -- back by the offset of the trip and its latest frequency, to that of the end of the span moved
    -- back by the offset.
    pub record InSpan (service : CalendarUnified) (trip_instance : TripToFindScheduleFor)
        (input_time back_duration forward_duration : ℤ) (lookback d : ℕ) : Type 0 where
      pub not_before :
          date_of (
            input_time
            -ℤ back_duration
            -ℤ trip_instance.time_since_start_of_service_date
            -ℤ pos lookback)
          ≤ d
      pub not_after :
          d
          ≤ date_of
              (input_time +ℤ forward_duration -ℤ trip_instance.time_since_start_of_service_date)
      pub runs : datetime_in_service weekday service d ≡ true

    -- Where a trip with a table of frequencies has at least one, and every service day of the span has
    -- a noon in the time zone, the search does not panic, and it returns the service days of the span:
    -- each of them, no other, and each with the time twelve hours before its noon. The span goes from
    -- the local date of the time less the time back, the offset of the trip and its latest frequency,
    -- to the local date of the time and the time ahead less the offset.
    pub find_service_ranges_lem :
        (service : CalendarUnified) (trip_instance : TripToFindScheduleFor)
        (input_time back_duration forward_duration : ℤ) (lookback : ℕ)
        → Lookback trip_instance.frequency lookback
        → ((d : ℕ)
            → InSpan service trip_instance input_time back_duration forward_duration lookback d
            → (n : ℤ) × (noon d ≡ some n))
        → (r : List (ℕ × ℤ)) × (find_service_ranges weekday date_of noon service trip_instance
              input_time back_duration forward_duration
            ≡ some r)
          × ((d : ℕ) (t : ℤ)
              → In {A = ℕ × ℤ} (d, t) r ↔ (
                  InSpan service trip_instance input_time back_duration forward_duration lookback d
                  × BeginsAt d t))
    unfolding find_service_ranges
    find_service_ranges_lem service trip input back_duration forward lookback h noons =
        let first =
          date_of
            (input -ℤ back_duration -ℤ trip.time_since_start_of_service_date -ℤ pos lookback) in
        let last = date_of (input +ℤ forward -ℤ trip.time_since_start_of_service_date) in
        let found = service_days weekday service (last + 1 - first) first in
        let within : (d : ℕ)
            → In d (dedup (sort_by leb found))
            → InSpan service trip input back_duration forward lookback d =
          λ d m.
            let (low, high, on) =
              (In-service_days service (last + 1 - first) first d).0
                (In-sort_by leb d found ((In-dedup d (sort_by leb found)).0 m)) in
            record { not_before = low; not_after = omega arith; runs = on } in
        let inside : (d : ℕ)
            → InSpan service trip input back_duration forward lookback d
            → In d (dedup (sort_by leb found)) =
          λ d span.
            let low = span.not_before in
            let high = span.not_after in
            (In-dedup d (sort_by leb found)).1 (
              In-sort_by_intro leb d found (
                (In-service_days service (last + 1 - first) first d).1
                  (low, omega arith, span.runs))) in
        let (r, made) =
          starting_times-returns (dedup (sort_by leb found)) (λ d m. noons d (within d m)) in
        (
          r,
          rw (additional_lookback-Lookback trip.frequency lookback h) made,
          λ d t.
              let (to, back) = In-starting_times d t (dedup (sort_by leb found)) made in
              (
                λ m. let (k, begins) = to m in (within d k, begins),
                λ (span, begins). back (inside d span, begins),
              ),
        )
