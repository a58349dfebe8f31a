-- ===== src/Realtime/Delay/Late.antt =====
-- The delay of a trip whose next stop is predicted some seconds late.
use Prim.Native.String.{String}
use mathlib.Core.Path.{subst}
use catenary_backend.Common.{
  ℕ, ◌+◌, ◌-◌, ◌≤◌, ◌<◌, ◌≡◌, refl, sym, ap, ◌∙◌, ◌⊎◌, inl, inr, true, Option, none, some, List, [],
  ◌∷◌, ◌++◌, ◌&&◌, ◌||◌, filter, Bool-cases, In, any-In, In-any, le→leb, leb→le, true_is_false,
  arith,
}
use text.Mathlib.Text.{◌==◌}
use catenary_backend.Schedules.Prune.Tables.{==-true, ==-refl}
use catenary_backend.Realtime.Closest.{as_u64}
use catenary_backend.Common.Int.{ℤ, pos, negsuc, pos_part, neg_part, sub_ℕ, ◌+ℤ◌, ◌-ℤ◌, wrap_signed}
use catenary_backend.Schedules.Feed.{Weekday}
use catenary_backend.Schedules.Services.{CalendarUnified}
use catenary_backend.Realtime.Compact.{CompactItineraryPatternRow, wrap_i64}
use catenary_backend.Realtime.Compact.Laws.{wrap_signed_inside}
use catenary_backend.Realtime.Delay.{
  AspenStopTimeEvent, AspenisedStopTimeUpdate, ScheduledTrip, Tz, is_present, contains_id, time_of,
  reference_time, is_relevant, is_after_now, next_update, itinerary_stop_row, start_date,
  delay_against, correct_early, after, delay_at, delay_on, delay_of_row, delay_of_update,
  calculate_delay,
}

-- The update has an arrival or a departure.
abbrev HasEvent : AspenisedStopTimeUpdate → Type 0
HasEvent stu =
    ((e : AspenStopTimeEvent) × (stu.arrival ≡ some e))
    ⊎ ((e : AspenStopTimeEvent) × (stu.departure ≡ some e))

abbrev AtStop : List String → AspenisedStopTimeUpdate → Type 0
AtStop ids stu = (id : String) × (stu.stop_id ≡ some id) × In id ids

-- The time at which the vehicle is gone from the stop: its departure, or its arrival where the update
-- has no time of departure.
pub data Leaves (stu : AspenisedStopTimeUpdate) : ℤ → Type 0 where
  departs :
      (e : AspenStopTimeEvent) (t : ℤ) → stu.departure ≡ some e → e.time ≡ some t → Leaves stu t
  only_arrives :
      (e : AspenStopTimeEvent) (t : ℤ)
      → time_of stu.departure ≡ none
      → stu.arrival ≡ some e
      → e.time ≡ some t
      → Leaves stu t

-- The update can say when the vehicle is at a scheduled stop, and it is not gone from there. (A time
-- before 1970 is taken for a late one, as by the cast to u64.)
abbrev pub IsEligible : List String → ℕ → AspenisedStopTimeUpdate → Type 0
IsEligible ids now stu = HasEvent stu × AtStop ids stu × ((t : ℤ) × Leaves stu t × (now ≤ as_u64 t))

-- The first eligible update of the list, if there is one.
pub data FirstEligible (ids : List String) (now : ℕ) (updates : List AspenisedStopTimeUpdate)
    : Option AspenisedStopTimeUpdate → Type 0 where
  nothing :
      ((stu : AspenisedStopTimeUpdate) → In stu updates → ¬ IsEligible ids now stu)
      → FirstEligible ids now updates none
  found :
      (before : List AspenisedStopTimeUpdate) (stu : AspenisedStopTimeUpdate)
      (later : List AspenisedStopTimeUpdate)
      → updates ≡ before ++ stu ∷ later
      → ((other : AspenisedStopTimeUpdate) → In other before → ¬ IsEligible ids now other)
      → IsEligible ids now stu
      → FirstEligible ids now updates (some stu)

Option-cases : {A : Type 0} (o : Option A) → (o ≡ none) ⊎ ((a : A) × (o ≡ some a))
Option-cases none = inl refl
Option-cases (some a) = inr (a, refl)

-- The filters pass an update just where these say.
is_relevant-true :
    (ids : List String) (stu : AspenisedStopTimeUpdate)
    → is_relevant ids stu ≡ true
    → HasEvent stu × AtStop ids stu
unfolding is_relevant
is_relevant-true ids stu h =
    let (event, at) = split stu.arrival stu.departure stu.stop_id h in (event, at)
  where
    stands :
        (stop : Option String)
        → contains_id ids stop ≡ true
        → (id : String) × (stop ≡ some id) × In id ids
    stands none e = absurd (true_is_false (sym e))
    stands (some id) e =
        let (x, m, same) = any-In (λ x. x == id) ids e in
        (id, refl, subst (λ y. In y ids) (==-true x id same) m)

    split :
        (arrival departure : Option AspenStopTimeEvent) (stop : Option String)
        → ((is_present arrival || is_present departure) && contains_id ids stop) ≡ true
        → (((e : AspenStopTimeEvent) × (arrival ≡ some e))
            ⊎ ((e : AspenStopTimeEvent) × (departure ≡ some e)))
          × ((id : String) × (stop ≡ some id) × In id ids)
    split (some e) departure stop h' = (inl (e, refl), stands stop h')
    split none (some e) stop h' = (inr (e, refl), stands stop h')
    split none none stop h' = absurd (true_is_false (sym h'))

is_relevant-intro :
    (ids : List String) (stu : AspenisedStopTimeUpdate)
    → HasEvent stu
    → AtStop ids stu
    → is_relevant ids stu ≡ true
unfolding is_relevant
is_relevant-intro ids stu event (id, at, m) =
    rw at (rw (In-any (λ x. x == id) ids id m (==-refl id)) (present event))
  where
    either :
        (arrival departure : Option AspenStopTimeEvent)
        → ((e : AspenStopTimeEvent) × (arrival ≡ some e))
          ⊎ ((e : AspenStopTimeEvent) × (departure ≡ some e))
        → ((is_present arrival || is_present departure) && true) ≡ true
    either (some e) departure h = refl
    either none (some e) h = refl
    either none none (inl (e, h)) = absurd (ground (arith, h))
    either none none (inr (e, h)) = absurd (ground (arith, h))

    present : HasEvent stu → ((is_present stu.arrival || is_present stu.departure) && true) ≡ true
    present h = either stu.arrival stu.departure h

is_after_now-true :
    (now : ℕ) (stu : AspenisedStopTimeUpdate)
    → is_after_now now stu ≡ true
    → (t : ℤ) × Leaves stu t × (now ≤ as_u64 t)
unfolding is_after_now
is_after_now-true now stu h = elim (Option-cases stu.departure) [
  | inl no_departure ↦ arrival (ap (λ o. time_of o) no_departure)
  | inr (e, at) ↦ elim (Option-cases e.time) [
    | inl no_time ↦ arrival (ap (λ o. time_of o) at ∙ no_time)
    | inr (t, time) ↦ (t, departs e t at time, leb→le now (as_u64 t) (rw (at, time) at h))
  ]
]
  where
    arrival : time_of stu.departure ≡ none → (t : ℤ) × Leaves stu t × (now ≤ as_u64 t)
    arrival gone = elim (Option-cases stu.arrival) [
      | inl no_arrival ↦ absurd (true_is_false (sym (rw (gone, no_arrival) at h)))
      | inr (e, at) ↦ elim (Option-cases e.time) [
        | inl no_time ↦ absurd (true_is_false (sym (rw (gone, at, no_time) at h)))
        | inr (t, time) ↦
            (t, only_arrives e t gone at time, leb→le now (as_u64 t) (rw (gone, at, time) at h))
      ]
    ]

is_after_now-intro :
    (now : ℕ) (stu : AspenisedStopTimeUpdate) (t : ℤ)
    → Leaves stu t
    → now ≤ as_u64 t
    → is_after_now now stu ≡ true
unfolding is_after_now
is_after_now-intro now stu t (departs e _ at time) late =
    rw at (rw time (le→leb now (as_u64 t) late))
is_after_now-intro now stu t (only_arrives e _ gone at time) late =
    rw gone (rw at (rw time (le→leb now (as_u64 t) late)))

module _ (ids : List String) (now : ℕ) where
  skip :
      (stu : AspenisedStopTimeUpdate) (updates : List AspenisedStopTimeUpdate)
      (r : Option AspenisedStopTimeUpdate)
      → ¬ IsEligible ids now stu
      → FirstEligible ids now updates r
      → FirstEligible ids now (stu ∷ updates) r
  skip stu updates _ barred (nothing none_of) = nothing (λ x m. elim m [
    | inl e ↦ subst (λ y. ¬ IsEligible ids now y) (sym e) barred
    | inr m ↦ none_of x m
  ])
  skip stu updates _ barred (found before x later split none_before eligible) =
      found (stu ∷ before) x later (ap (λ l. stu ∷ l) split)
        (λ y m. elim m [
          | inl e ↦ subst (λ z. ¬ IsEligible ids now z) (sym e) barred
          | inr m ↦ none_before y m
        ])
        eligible

  -- The update that the delay is read from is the first that has an arrival or a departure, a scheduled
  -- stop, and a time of departure, or else of arrival, that is not before now; there is none only if no
  -- update is like that.
  pub next_update-FirstEligible :
      (updates : List AspenisedStopTimeUpdate)
      → FirstEligible ids now updates (next_update ids now updates)
  unfolding next_update filter
  next_update-FirstEligible [] = nothing (λ stu m. absurd m)
  next_update-FirstEligible (stu ∷ updates) =
      let rest = next_update-FirstEligible updates in
      elim (Bool-cases (is_relevant ids stu)) [
        | inr other ↦ rw other (
            skip stu updates _
              (λ (event, at, _). true_is_false (sym (is_relevant-intro ids stu event at) ∙ other))
              rest)
        | inl relevant ↦ elim (Bool-cases (is_after_now now stu)) [
          | inr over ↦
              rw (relevant, over)
                (skip stu updates _
                  (λ (_, _, (t, leaves, late)).
                    true_is_false (sym (is_after_now-intro now stu t leaves late) ∙ over))
                  rest)
          | inl ahead ↦
              let (event, at) = is_relevant-true ids stu relevant in
              rw (relevant, ahead)
                (found [] stu updates refl (λ x m. absurd m)
                  (event, at, is_after_now-true now stu ahead))
        ]
      ]

sub_ℕ-eq : (a b : ℕ) (z : ℤ) → a + neg_part z ≡ pos_part z + b → sub_ℕ a b ≡ z
sub_ℕ-eq a b (pos n) e = ground arith
sub_ℕ-eq a b (negsuc n) e = ground arith

pos_part-sub_ℕ : (a b : ℕ) → pos_part (sub_ℕ a b) ≡ a - b
pos_part-sub_ℕ a b = ground arith

neg_part-sub_ℕ : (a b : ℕ) → neg_part (sub_ℕ a b) ≡ b - a
neg_part-sub_ℕ a b = ground arith

cancel : (s x : ℤ) → (s +ℤ x) -ℤ s ≡ x
unfolding ◌+ℤ◌ ◌-ℤ◌
cancel s x = sub_ℕ-eq _ _ x (
    omega (
      arith,
      pos_part-sub_ℕ (pos_part s + pos_part x) (neg_part s + neg_part x),
      neg_part-sub_ℕ (pos_part s + pos_part x) (neg_part s + neg_part x),
    ))

-- What is reported of a trip that is x seconds late: x, when that is not more than six hours early
-- and fits in 31 bits; when it is more than six hours early but less than a day, it is taken for late
-- on the day before.
pub data Reported : ℤ → ℤ → Type 0 where
  as_seen : (x : ℤ) → neg_part x ≤ 21600 → pos_part x < 0x8000_0000 → Reported x x
  day_before : (x : ℤ) → 21600 < neg_part x → neg_part x < 86400 → Reported x (x +ℤ pos 86400)

Reported-bounds : (x y : ℤ) → Reported x y → (pos_part x < 0x8000_0000) × (neg_part x < 86400)
Reported-bounds x _ (as_seen _ early late) = (late, omega arith)
Reported-bounds (pos n) _ (day_before _ early late) = absurd (omega arith)
Reported-bounds (negsuc n) _ (day_before _ early late) = (omega arith, late)

not_both : (x : ℤ) → (pos_part x ≡ 0) ⊎ (neg_part x ≡ 0)
not_both (pos n) = inr refl
not_both (negsuc n) = inl refl

Reported-bounds_out : (x y : ℤ) → Reported x y → (pos_part y < 0x8000_0000) × (neg_part y < 86400)
unfolding ◌+ℤ◌
Reported-bounds_out x _ (as_seen _ early late) = (late, omega arith)
Reported-bounds_out x _ (day_before _ early late) = (
  omega (arith, pos_part-sub_ℕ (pos_part x + 86400) (neg_part x + 0), not_both x),
  omega (arith, neg_part-sub_ℕ (pos_part x + 86400) (neg_part x + 0)),
)

correct_early-Reported : (x y : ℤ) → Reported x y → correct_early x ≡ y
unfolding correct_early ◌+ℤ◌
correct_early-Reported (pos n) _ (as_seen _ early late) = ground arith
correct_early-Reported (negsuc n) _ (as_seen _ early late) = ground arith
correct_early-Reported (pos n) _ (day_before _ early late) = absurd (omega arith)
correct_early-Reported (negsuc n) _ (day_before _ early late) = ground arith

delay_against-late :
    (s x : ℤ) (time scheduled other : Option ℤ)
    → time ≡ some (s +ℤ x)
    → scheduled ≡ some s
    → pos_part x < 0x8000_0000
    → neg_part x < 86400
    → delay_against time scheduled other ≡ some x
unfolding delay_against
delay_against-late s x time scheduled other predicted planned late early = rw predicted (
    rw planned (
      ap some (
        ap wrap_i64 (cancel s x)
        ∙ wrap_signed_inside 0x8000_0000_0000_0000 x (omega arith) (omega arith))))

delay_at-Reported :
    (midnight : ℤ) (trip : ScheduledTrip) (stu : AspenisedStopTimeUpdate)
    (row : CompactItineraryPatternRow) (since x y : ℤ)
    → row.arrival_time_since_start ≡ some since
    → time_of stu.arrival ≡ some (midnight +ℤ pos trip.start_time +ℤ since +ℤ x)
    → Reported x y
    → delay_at midnight trip stu row ≡ some y
unfolding delay_at
delay_at-Reported midnight trip stu row since x y arrives time reported =
    let begins = midnight +ℤ pos trip.start_time in
    let (late, early) = Reported-bounds x y reported in
    let (late', early') = Reported-bounds_out x y reported in
    rw
      (delay_against-late (begins +ℤ since) x (time_of stu.arrival)
        (after begins row.arrival_time_since_start) (after begins row.departure_time_since_start)
        time (rw arrives refl) late early)
      (ap some (
        ap (wrap_signed 0x8000_0000) (correct_early-Reported x y reported)
        ∙ wrap_signed_inside 0x8000_0000 y late' (omega arith)))

module _ (weekday : ℕ → Weekday) (parse_date : String → Option ℕ) where
  -- When the next eligible update predicts the arrival at its stop x seconds after the schedule of
  -- the trip of the date that the feed gives, a date with a noon, the delay found is what is reported
  -- of x.
  pub calculate_delay-Reported :
      (ids : List String) (rows : List CompactItineraryPatternRow)
      (updates : List AspenisedStopTimeUpdate) (now : ℕ) (trip : ScheduledTrip)
      (calendars : List (String × CalendarUnified)) (tz : Tz) (text : String) (date : ℕ)
      (stu : AspenisedStopTimeUpdate) (row : CompactItineraryPatternRow) (noon since x y : ℤ)
      → parse_date text ≡ some date
      → tz.noon date ≡ some noon
      → next_update ids now updates ≡ some stu
      → itinerary_stop_row stu rows ≡ some row
      → row.arrival_time_since_start ≡ some since
      → time_of stu.arrival ≡ some (noon -ℤ pos 43200 +ℤ pos trip.start_time +ℤ since +ℤ x)
      → Reported x y
      → calculate_delay weekday parse_date none
          (some text)
          (some ids)
          (some rows)
          true
          updates
          now
          (some trip)
          calendars
          (some tz)
        ≡ some (some y)
  unfolding calculate_delay delay_of_update delay_of_row start_date delay_on reference_time
  calculate_delay-Reported ids rows updates now trip calendars tz text date stu row noon since x y
        parsed at_noon next at arrives time reported =
      rw next (
        rw at (
          rw parsed (
            rw at_noon (
              ap some (
                delay_at-Reported (noon -ℤ pos 43200) trip stu row since x y arrives time
                  reported)))))
