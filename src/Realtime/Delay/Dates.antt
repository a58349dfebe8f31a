-- ===== src/Realtime/Delay/Dates.antt =====
-- The date that a trip is taken to have started on, when its feed does not say.
use Prim.Native.String.{String}
use mathlib.Core.Path.{subst}
use catenary_backend.Common.{
  ℕ, zero, suc, ◌+◌, ◌-◌, ◌≤◌, ◌<◌, ◌≡◌, refl, sym, ap, ◌∙◌, inl, inr, Bool, true, false, Option,
  none, some, List, leb, leb→le, le→leb, or_else, some-injective, true_is_false, Bool-cases,
  List-cases, In, >>=-eq-some, ◌↔◌, [], ◌∷◌, if◌then◌else◌, arith,
}
use catenary_backend.Common.Int.{ℤ, pos, negsuc, sub_ℕ, pos_part, neg_part, leb_ℤ, ◌+ℤ◌, ◌-ℤ◌}
use catenary_backend.Realtime.Compact.{wrap_i64}
use catenary_backend.Realtime.Compact.Laws.{wrap_signed_inside}
use catenary_backend.Common.Sorting.{sort_by, sort_by-least, In-sort_by, In-sort_by_intro}
use catenary_backend.Schedules.Feed.{Weekday}
use catenary_backend.Schedules.Services.{CalendarUnified}
use catenary_backend.Realtime.Delay.{
  AspenisedStopTimeUpdate, ScheduledTrip, Tz, abs_i64, time_of, distance, reference_time,
  service_runs, guess_dates, closest_date, guess_start_date,
}

leb_total : (a b : ℕ) → leb a b ≡ false → leb b a ≡ true
leb_total a b h = elim (Bool-cases (leb b a)) [ inl t ↦ t | inr f ↦ ground (arith, h, f) ]

leb_ℤ-trans : (a b c : ℤ) → leb_ℤ a b ≡ true → leb_ℤ b c ≡ true → leb_ℤ a c ≡ true
leb_ℤ-trans a b c h h' = le→leb (pos_part a + neg_part c) (pos_part c + neg_part a) (
    omega (
      arith,
      leb→le (pos_part a + neg_part b) (pos_part b + neg_part a) h,
      leb→le (pos_part b + neg_part c) (pos_part c + neg_part b) h',
    ))

-- What lies between two times.
abbrev pub apart : ℕ → ℕ → ℕ
apart x y = (x - y) + (y - x)

abs_i64-sub_ℕ :
    (x y : ℕ) → apart x y < 0x8000_0000_0000_0000 → abs_i64 (wrap_i64 (sub_ℕ x y)) ≡ pos (apart x y)
abs_i64-sub_ℕ x y small = elim (Bool-cases (leb y x)) [
  | inl later ↦
      let below = leb→le y x later in
      rw later (
        rw (wrap_signed_inside 0x8000_0000_0000_0000 (pos (x - y)) (omega arith) (omega arith))
          (ap pos (omega arith)))
  | inr before ↦
      let above : x < y = ground (arith, before) in
      let back : suc (y - x - 1) ≡ apart x y = omega arith in
      rw before (
        rw
          (wrap_signed_inside 0x8000_0000_0000_0000 (negsuc (y - x - 1)) (omega arith)
            (omega arith))
          (rw back (
            wrap_signed_inside 0x8000_0000_0000_0000 (pos (apart x y)) (omega arith)
              (omega arith))))
]

-- The seconds between two times.
abbrev pub gap : ℤ → ℤ → ℕ
gap a b = apart (pos_part a + neg_part b) (neg_part a + pos_part b)

-- Where the times are less than 2 ^ 63 seconds apart, the distance is what lies between them.
distance-gap : (a b : ℤ) → gap a b < 0x8000_0000_0000_0000 → distance a b ≡ pos (gap a b)
unfolding ◌-ℤ◌
distance-gap a b small = abs_i64-sub_ℕ (pos_part a + neg_part b) (neg_part a + pos_part b) small

module _ (weekday : ℕ → Weekday) (calendars : List (String × CalendarUnified)) (tz : Tz)
    (trip : ScheduledTrip) (since : ℤ) where
  -- The service runs on the date, one of the ten from five days ago on, and `s` is the time at which
  -- a trip of that date is due at the stop: `since` after its start, counted from twelve hours before
  -- the noon of the date.
  pub record IsGuess (d : ℕ) (s : ℤ) : Type 0 where
    pub from_five_days_ago : tz.today - 5 ≤ d
    pub to_four_days_ahead : d < tz.today - 5 + 10
    pub runs : service_runs weekday calendars trip.service_id d ≡ true
    pub due :
        (noon : ℤ) × (tz.noon d ≡ some noon)
        × (s ≡ noon -ℤ pos 43200 +ℤ since +ℤ pos trip.start_time)

  -- A date to try, as the loop finds it.
  abbrev Tried : ℕ → ℕ → ℕ → ℤ → Type 0
  Tried from days d s =
      (from ≤ d)
      × (d < from + days)
      × (service_runs weekday calendars trip.service_id d ≡ true)
      × ((noon : ℤ) × (tz.noon d ≡ some noon)
          × (s ≡ noon -ℤ pos 43200 +ℤ since +ℤ pos trip.start_time))

  guess_dates-In :
      (days from : ℕ) {guesses : List (ℕ × ℤ)}
      → guess_dates weekday calendars tz trip since days from ≡ some guesses
      → (d : ℕ) (s : ℤ) → In {A = ℕ × ℤ} (d, s) guesses ↔ Tried from days d s
  unfolding guess_dates reference_time
  guess_dates-In zero from {guesses} e d s = (
    λ m. absurd (subst (In {A = ℕ × ℤ} (d, s)) (sym (some-injective e)) m),
    λ (low, high, _, _). absurd (omega arith),
  )
  guess_dates-In (suc days) from {guesses} e d s =
      let (midnight, at_m, e₁) = >>=-eq-some (reference_time tz from) _ e in
      let (noon, at, e_m) = >>=-eq-some (tz.noon from) _ at_m in
      let (rest, later, e₂) =
        >>=-eq-some (guess_dates weekday calendars tz trip since days (from + 1)) _ e₁ in
      let (to, back) = guess_dates-In days (from + 1) later d s in
      elim (Bool-cases (service_runs weekday calendars trip.service_id from)) [
        | inr rests ↦
            let same : rest ≡ guesses = some-injective (rw rests at e₂) in
            (
              λ m.
                  let (low, high, runs, due) = to (subst (In {A = ℕ × ℤ} (d, s)) (sym same) m) in
                  (omega arith, omega arith, runs, due),
              λ (low, high, runs, due). elim (Bool-cases (leb d from)) [
                | inl at_most ↦
                    let day : d ≡ from = omega (arith, leb→le d from at_most) in
                    absurd (true_is_false (sym runs ∙ (ap its_days day ∙ rests)))
                | inr beyond ↦
                    subst (In {A = ℕ × ℤ} (d, s)) same (back (lt_of beyond, omega arith, runs, due))
              ],
            )
        | inl here ↦
            let same : (from, midnight +ℤ since +ℤ pos trip.start_time) ∷ rest ≡ guesses =
              some-injective (rw here at e₂) in
            (
              λ m. elim (subst (In {A = ℕ × ℤ} (d, s)) (sym same) m) [
                | inl q ↦
                    let day : d ≡ from = ap (λ x. x.0) q in
                    (
                      omega arith,
                      omega arith,
                      ap its_days day ∙ here,
                      (
                        noon,
                        ap tz.noon day ∙ at,
                        ap (λ x. x.1) q ∙ ap moved (sym (some-injective e_m)),
                      ),
                    )
                | inr n ↦ let (low, high, runs, due) = to n in (omega arith, omega arith, runs, due)
              ],
              λ (low, high, runs, due). elim (Bool-cases (leb d from)) [
                | inl at_most ↦
                    let day : d ≡ from = omega (arith, leb→le d from at_most) in
                    let (noon', at', on) = due in
                    let same_noon : noon' ≡ noon =
                      some-injective (sym at' ∙ (ap tz.noon day ∙ at)) in
                    let time : s ≡ moved midnight =
                      on
                      ∙ (ap (λ n. moved (n -ℤ pos 43200)) same_noon
                          ∙ ap moved (some-injective e_m)) in
                    subst (In {A = ℕ × ℤ} (d, s)) same (inl (λ i. (day i, time i)))
                | inr beyond ↦
                    subst (In {A = ℕ × ℤ} (d, s)) same
                      (inr (back (lt_of beyond, omega arith, runs, due)))
              ],
            )
      ]
    where
      its_days : ℕ → Bool
      its_days = service_runs weekday calendars trip.service_id

      moved : ℤ → ℤ
      moved midnight = midnight +ℤ since +ℤ pos trip.start_time

      lt_of : leb d from ≡ false → from + 1 ≤ d
      lt_of h = ground (arith, h)

  -- Among the guesses the date is one whose due time is nearest to the predicted time; with no
  -- guess there is none.
  pub data Nearest (predicted : ℤ) : Option ℕ → Type 0 where
    nowhere : ((d : ℕ) (s : ℤ) → ¬ IsGuess d s) → Nearest predicted none
    at_date :
        (d : ℕ) (s : ℤ)
        → IsGuess d s
        → ((d' : ℕ) (s' : ℤ) → IsGuess d' s' → gap predicted s ≤ gap predicted s')
        → Nearest predicted (some d)

  -- For an update with a time, where the guessing returns, the date guessed is one of the ten from five
  -- days ago on, the service runs on it, and of all such dates its due time at the stop is nearest to
  -- the time of the update; no date is guessed only if there is none. (The due times are less than
  -- 2 ^ 63 seconds from the time of the update.)
  pub guess_start_date-Nearest :
      (stu : AspenisedStopTimeUpdate) (predicted : ℤ) {r : Option ℕ}
      → or_else (time_of stu.arrival) (time_of stu.departure) ≡ some predicted
      → ((d : ℕ) (s : ℤ) → IsGuess d s → gap predicted s < 0x8000_0000_0000_0000)
      → guess_start_date weekday calendars (some tz) trip stu (some since) ≡ some r
      → Nearest predicted r
  unfolding guess_start_date closest_date
  guess_start_date-Nearest stu predicted {r} time near e =
      let le : ℕ × ℤ → ℕ × ℤ → Bool =
        λ x y. leb_ℤ (distance predicted x.1) (distance predicted y.1) in
      let (guesses, made, e₁) =
        >>=-eq-some (guess_dates weekday calendars tz trip since 10 (tz.today - 5)) _ e in
      let answer : closest_date (some predicted) guesses ≡ r =
        subst (λ o. closest_date o guesses ≡ r) time (some-injective e₁) in
      let guess : (d : ℕ) (s : ℤ) → In {A = ℕ × ℤ} (d, s) guesses → IsGuess d s = λ d s m.
        let (low, high, runs, due) = (guess_dates-In 10 (tz.today - 5) made d s).0 m in
        record { from_five_days_ago = low; to_four_days_ahead = high; runs = runs; due = due } in
      let tried : (d : ℕ) (s : ℤ) → IsGuess d s → In {A = ℕ × ℤ} (d, s) guesses = λ d s g.
        (guess_dates-In 10 (tz.today - 5) made d s).1
          (g.from_five_days_ago, g.to_four_days_ahead, g.runs, g.due) in
      elim (List-cases (sort_by le guesses)) [
        | inl empty ↦ subst (Nearest predicted) (rw empty at answer) (
            nowhere
              (λ d s g. subst (In (d, s)) empty (In-sort_by_intro le (d, s) guesses (tried d s g))))
        | inr (g, rest, sorted) ↦
            let within : In g guesses =
              In-sort_by le g guesses (subst (In g) (sym sorted) (inl refl)) in
            let its_guess = guess g.0 g.1 within in
            subst (Nearest predicted) (rw sorted at answer) (
              at_date g.0 g.1 its_guess (λ d s other.
                let least =
                  sort_by-least le (λ x y h. leb_total _ _ h)
                    (λ x y z h h'.
                      leb_ℤ-trans (distance predicted x.1) (distance predicted y.1)
                        (distance predicted z.1) h h')
                    guesses g rest sorted (d, s) (tried d s other) in
                let below = leb→le (gap predicted g.1 + 0) (gap predicted s + 0) (
                  subst (λ x. leb_ℤ (pos (gap predicted g.1)) x ≡ true)
                    (distance-gap predicted s (near d s other))
                    (subst (λ x. leb_ℤ x (distance predicted s) ≡ true)
                      (distance-gap predicted g.1 (near g.0 g.1 its_guess)) least)) in
                omega arith))
      ]

  -- Where each day tried has a noon, the guesses are found.
  guess_dates-returns :
      (days from : ℕ)
      → ((d : ℕ) → from ≤ d → d < from + days → (noon : ℤ) × (tz.noon d ≡ some noon))
      → (guesses : List (ℕ × ℤ)) × (guess_dates weekday calendars tz trip since days from
          ≡ some guesses)
  unfolding guess_dates reference_time
  guess_dates-returns zero from noons = ([], refl)
  guess_dates-returns (suc days) from noons =
      let (noon, at) = noons from (omega arith) (omega arith) in
      let (rest, later) =
        guess_dates-returns days (from + 1) (λ d low high. noons d (omega arith) (omega arith)) in
      (
        if service_runs weekday calendars trip.service_id from
            then (from, noon -ℤ pos 43200 +ℤ since +ℤ pos trip.start_time) ∷ rest
            else rest,
        rw at (rw later refl),
      )

  -- A date that is chosen is one of the guesses.
  closest_date-In :
      (predicted : Option ℤ) (guesses : List (ℕ × ℤ)) (d : ℕ)
      → closest_date predicted guesses ≡ some d
      → (s : ℤ) × In {A = ℕ × ℤ} (d, s) guesses
  unfolding closest_date
  closest_date-In none guesses d e = absurd (ground (arith, e))
  closest_date-In (some predicted) guesses d e =
      let le : ℕ × ℤ → ℕ × ℤ → Bool =
        λ x y. leb_ℤ (distance predicted x.1) (distance predicted y.1) in
      elim (List-cases (sort_by le guesses)) [
        | inl empty ↦ absurd (ground (arith, rw empty at e))
        | inr (g, rest, sorted) ↦
            let day : g.0 ≡ d = some-injective (rw sorted at e) in
            (
              g.1,
              In-sort_by le (d, g.1) guesses
                  (subst (In (d, g.1)) (sym sorted) (inl (λ i. (sym day i, g.1)))),
            )
      ]

  -- Where each day tried has a noon, guessing returns, and a date guessed has a noon.
  pub guess_start_date-returns :
      (stu : AspenisedStopTimeUpdate)
      → ((d : ℕ) → tz.today - 5 ≤ d → d < tz.today - 5 + 10 → (noon : ℤ) × (tz.noon d ≡ some noon))
      → (r : Option ℕ) × (guess_start_date weekday calendars (some tz) trip stu (some since)
          ≡ some r)
        × ((d : ℕ) → r ≡ some d → (noon : ℤ) × (tz.noon d ≡ some noon))
  unfolding guess_start_date
  guess_start_date-returns stu noons =
      let (guesses, made) = guess_dates-returns 10 (tz.today - 5) noons in
      (
        closest_date (or_else (time_of stu.arrival) (time_of stu.departure)) guesses,
        rw made refl,
        λ d e.
            let (s, m) =
              closest_date-In (or_else (time_of stu.arrival) (time_of stu.departure)) guesses d e in
            let (low, high, _, _) = (guess_dates-In 10 (tz.today - 5) made d s).0 m in
            noons d low high,
      )
