-- ===== src/Schedules/Active/Laws.antt =====
-- When a service counts as active.
use catenary_backend.Common.{
  ℕ, zero, suc, ◌+◌, ◌-◌, ◌≤◌, ◌<◌, ◌≡◌, max, true, false, not, ◌&&◌, Option, none, some, List, ltb,
  leb, if◌then◌else◌, In, inl, inr, ◌⊎◌, ◌↔◌, refl, sym, ap, ◌∙◌, true_is_false, or_true, true_or,
  and_true, true_and, leb→le, le→leb, not-true, any-In, In-any, Bool-cases, tests, arith,
}
use mathlib.Core.Path.{subst}
use catenary_backend.Schedules.Feed.{Weekday, Calendar, CalendarDate}
use catenary_backend.Schedules.Active.{
  is_deleted, added_later, runs_on, day_loop, calendar_active, is_active,
}

-- A date is added to the service on the day or later.
unfoldable pub AddedLater : Option (List CalendarDate) → ℕ → Type 0
AddedLater none naive_date = ⊥
AddedLater (some dates) naive_date =
    (c : CalendarDate) × In c dates × (is_deleted c.exception_type ≡ false) × (naive_date ≤ c.date)

added_later-AddedLater :
    (dates : Option (List CalendarDate)) (naive_date : ℕ)
    → (added_later dates naive_date ≡ true) ↔ AddedLater dates naive_date
unfolding added_later AddedLater
added_later-AddedLater none naive_date = (λ h. true_is_false (sym h), λ h. absurd h)
added_later-AddedLater (some dates) naive_date = (
  λ h.
      let (c, m, t) =
        any-In (λ d. not (is_deleted d.exception_type) && leb naive_date d.date) dates h in
      let (kept, late) = and_true (not (is_deleted c.exception_type)) (leb naive_date c.date) t in
      (c, m, not-true (is_deleted c.exception_type) kept, leb→le naive_date c.date late),
  λ (c, m, kept, late).
      In-any (λ d. not (is_deleted d.exception_type) && leb naive_date d.date) dates c m
        (true_and _ _ (ap not kept) (le→leb naive_date c.date late)),
)

module _ (weekday : ℕ → Weekday) where
  -- The loop finds a day on which the service runs among those left, if there is one.
  day_loop-true :
      (cal : Calendar) (dates : Option (List CalendarDate)) (rounds from : ℕ)
      → day_loop weekday cal dates rounds from ≡ true
      → (d : ℕ) × (from ≤ d) × (d < from + rounds) × (runs_on weekday cal dates d ≡ true)
  unfolding day_loop
  day_loop-true cal dates zero from h = absurd (ground arith)
  day_loop-true cal dates (suc rounds) from h = elim (Bool-cases (runs_on weekday cal dates from)) [
    | inl e ↦ (from, omega arith, omega arith, e)
    | inr e ↦
        let (d, low, high, runs) = day_loop-true cal dates rounds (from + 1) (
          subst (λ c. (if c then true else day_loop weekday cal dates rounds (from + 1)) ≡ true) e
            h) in
        (d, omega arith, omega arith, runs)
  ]

  -- A day on which the service does not run is not the one that is looked for.
  runs-after :
      (cal : Calendar) (dates : Option (List CalendarDate)) (from d : ℕ)
      → from ≤ d
      → runs_on weekday cal dates from ≡ false
      → runs_on weekday cal dates d ≡ true
      → from + 1 ≤ d
  runs-after cal dates from d low off runs = elim (Bool-cases (ltb from d)) [
    | inl e ↦ omega (tests, e)
    | inr e ↦
        let same_day : from ≡ d = omega (tests, e) in
        absurd (true_is_false (sym runs ∙ (ap (runs_on weekday cal dates) (sym same_day) ∙ off)))
  ]

  true-day_loop :
      (cal : Calendar) (dates : Option (List CalendarDate)) (rounds from d : ℕ)
      → from ≤ d
      → d < from + rounds
      → runs_on weekday cal dates d ≡ true
      → day_loop weekday cal dates rounds from ≡ true
  unfolding day_loop
  true-day_loop cal dates zero from d low high runs = absurd (omega arith)
  true-day_loop cal dates (suc rounds) from d low high runs =
      elim (Bool-cases (runs_on weekday cal dates from)) [
        | inl e ↦ rw e refl
        | inr e ↦ rw e (
            true-day_loop cal dates rounds (from + 1) d (runs-after cal dates from d low e runs)
              (omega arith) runs)
      ]

  -- The calendar has a day on which the service runs, on the date or later.
  unfoldable pub RunsLater : Option Calendar → Option (List CalendarDate) → ℕ → Type 0
  RunsLater none dates naive_date = ⊥
  RunsLater (some cal) dates naive_date =
      (d : ℕ) × (naive_date ≤ d)
      × (cal.start_date ≤ d)
      × (d ≤ cal.end_date)
      × (runs_on weekday cal dates d ≡ true)

  calendar_active-RunsLater :
      (cal : Calendar) (dates : Option (List CalendarDate)) (naive_date : ℕ)
      → (calendar_active weekday cal dates naive_date ≡ true)
        ↔ RunsLater (some cal) dates naive_date
  unfolding calendar_active RunsLater
  calendar_active-RunsLater cal dates naive_date = (
    λ h. elim (Bool-cases (leb naive_date cal.end_date)) [
      | inl e ↦
          let found : day_loop weekday cal dates (cal.end_date + 1 - max cal.start_date naive_date)
                (max cal.start_date naive_date)
              ≡ true =
            subst
              (λ c.
                (if c
                  then day_loop weekday cal dates (cal.end_date + 1 - max cal.start_date naive_date)
                      (max cal.start_date naive_date)
                  else false)
                ≡ true)
              e h in
          let (d, low, high, runs) = day_loop-true cal dates _ _ found in
          (d, omega arith, omega arith, omega arith, runs)
      | inr e ↦ absurd (
          true_is_false (
            sym (
              subst
                (λ c.
                  (if c
                    then day_loop weekday cal dates
                        (cal.end_date + 1 - max cal.start_date naive_date)
                        (max cal.start_date naive_date)
                    else false)
                  ≡ true)
                e h)))
    ],
    λ (d, late, begun, not_over, runs).
        rw (le→leb naive_date cal.end_date (omega arith))
          (true-day_loop cal dates _ _ d (omega arith) (omega arith) runs),
  )

  -- A service counts as active exactly when it runs by its calendar on some day that is not before
  -- the date, or a day that is not before it is added to the service.
  pub is_active_lem :
      (calendar : Option Calendar) (dates : Option (List CalendarDate)) (naive_date : ℕ)
      → (is_active weekday calendar dates naive_date ≡ true)
        ↔ (RunsLater calendar dates naive_date ⊎ AddedLater dates naive_date)
  unfolding is_active RunsLater
  is_active_lem none dates naive_date =
      let (to, back) = added_later-AddedLater dates naive_date in
      (λ h. inr (to h), λ h. elim h [ inl x ↦ absurd x | inr later ↦ back later ])
  is_active_lem (some cal) dates naive_date =
      let (to, back) = added_later-AddedLater dates naive_date in
      let (to_run, back_run) = calendar_active-RunsLater cal dates naive_date in
      (
        λ h. elim (or_true _ _ h) [ inl e ↦ inl (to_run e) | inr e ↦ inr (to e) ],
        λ h. true_or _ _ (elim h [ inl e ↦ inl (back_run e) | inr e ↦ inr (back e) ]),
      )
