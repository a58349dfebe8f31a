-- ===== src/Realtime/Closest/Laws.antt =====
-- Which update `find_closest_stop_time_update` chooses.
use catenary_backend.Common.{
  ℕ, Bool, true, false, not, ◌&&◌, Option, none, some, List, [], ◌∷◌, ltb, ◌≡◌, ◌≤◌, ◌<◌,
  if◌then◌else◌, or_else, In, inl, inr, ◌⊎◌, arith, tests, refl, sym, ap, ◌∙◌, >>=-eq-some,
  Bool-cases, some-injective, lt→ltb, ltb→lt, ltb_false→le,
}
use mathlib.Core.Path.{subst, ap₂}
use catenary_backend.Realtime.Compact.{Payload, CompactStopTimeUpdate}
use catenary_backend.Realtime.Closest.{
  Best, Search, found, searched, is_skipped, note, comparison_time, is_active, past_time,
  future_time, future_loop, past_loop, update_of, finish, find_closest_stop_time_update,
}

none_is_some : {A : Type 0} {a : A} (o : Option A) → o ≡ none → o ≡ some a → ⊥
none_is_some none e h = absurd (ground arith)
none_is_some (some b) e h = absurd (ground arith)

true_is_false : true ≡ false → ⊥
true_is_false e = absurd (ground arith)

not_and_true : (a b : Bool) → (not a && b) ≡ true → (a ≡ false) × (b ≡ true)
not_and_true false true e = (refl, refl)
not_and_true false false e = absurd (true_is_false (sym e))
not_and_true true b e = absurd (true_is_false (sym e))

module _ {p : Payload} where
  -- The best update so far is at least as good as the time `s`.
  abbrev Holds : (ℕ → ℕ → Type 0) → ℕ → Option (Best p) → Type 0
  Holds R s none = ⊥
  Holds R s (some b) = R b.time s

  data NoteCases (time : Option ℕ) (u : CompactStopTimeUpdate p) (b : Option (Best p))
      : Option (Best p) → Type 0 where
    same : NoteCases time u b b
    fresh : (t : ℕ) → time ≡ some t → NoteCases time u b (some (record { time = t; update = u }))

  note-cases :
      (better : ℕ → ℕ → Bool) (time : Option ℕ) (u : CompactStopTimeUpdate p) (b : Option (Best p))
      → NoteCases time u b (note p better time u b)
  unfolding note
  note-cases better none u b = same
  note-cases better (some t) u none = fresh t refl
  note-cases better (some t) u (some b) = elim (Bool-cases (better t b.time)) [
    | inl e ↦ rw e (fresh t refl)
    | inr e ↦ rw e same
  ]

  module _ (R : ℕ → ℕ → Type 0) (better : ℕ → ℕ → Bool) (R-refl : (a : ℕ) → R a a)
      (R-trans : (a b c : ℕ) → R a b → R b c → R a c)
      (is_better : (a b : ℕ) → better a b ≡ true → R a b)
      (is_worse : (a b : ℕ) → better a b ≡ false → R b a) where
    note-new :
        (t : ℕ) (u : CompactStopTimeUpdate p) (b : Option (Best p))
        → Holds R t (note p better (some t) u b)
    unfolding note
    note-new t u none = R-refl t
    note-new t u (some b) = elim (Bool-cases (better t b.time)) [
      | inl e ↦ rw e (R-refl t)
      | inr e ↦ rw e (is_worse t b.time e)
    ]

    note-old :
        (time : Option ℕ) (u : CompactStopTimeUpdate p) (s : ℕ) (b : Option (Best p))
        → Holds R s b
        → Holds R s (note p better time u b)
    unfolding note
    note-old none u s b h = h
    note-old (some t) u s none h = absurd h
    note-old (some t) u s (some b) h = elim (Bool-cases (better t b.time)) [
      | inl e ↦ rw e (R-trans t b.time s (is_better t b.time e) h)
      | inr e ↦ rw e h
    ]

  -- Folding `note` over a list, for any choice of the time that counts.
  module _ (better : ℕ → ℕ → Bool) (time : CompactStopTimeUpdate p → Option ℕ) where
    note_all : List (CompactStopTimeUpdate p) → Option (Best p) → Option (Best p)
    note_all [] b = b
    note_all (u ∷ us) b = note_all us (note p better (time u) u b)

    note-from :
        (u : CompactStopTimeUpdate p) (us : List (CompactStopTimeUpdate p)) (b : Option (Best p))
        {b' : Option (Best p)} (c : Best p)
        → NoteCases (time u) u b b'
        → b' ≡ some c
        → (b ≡ some c) ⊎ (In c.update (u ∷ us) × (time c.update ≡ some c.time))
    note-from u us b c same q = inl q
    note-from u us b c (fresh t shown) q = inr (
      inl (sym (ap (λ x. x.update) (some-injective q))),
      subst (λ x. time x.update ≡ some x.time) (some-injective q) shown,
    )

    note_all-from :
        (us : List (CompactStopTimeUpdate p)) (b : Option (Best p)) (c : Best p)
        → note_all us b ≡ some c
        → (b ≡ some c) ⊎ (In c.update us × (time c.update ≡ some c.time))
    unfolding note_all
    note_all-from [] b c e = inl e
    note_all-from (u ∷ us) b c e = elim (note_all-from us (note p better (time u) u b) c e) [
      | inl same_best ↦ note-from u us b c (note-cases better (time u) u b) same_best
      | inr (m, t) ↦ inr (inr m, t)
    ]

    module _ (R : ℕ → ℕ → Type 0) (R-refl : (a : ℕ) → R a a)
        (R-trans : (a b c : ℕ) → R a b → R b c → R a c)
        (is_better : (a b : ℕ) → better a b ≡ true → R a b)
        (is_worse : (a b : ℕ) → better a b ≡ false → R b a) where
      note_all-keeps :
          (us : List (CompactStopTimeUpdate p)) (b : Option (Best p)) (s : ℕ)
          → Holds R s b
          → Holds R s (note_all us b)
      unfolding note_all
      note_all-keeps [] b s h = h
      note_all-keeps (u ∷ us) b s h =
          note_all-keeps us (note p better (time u) u b) s
            (note-old R better R-refl R-trans is_better is_worse (time u) u s b h)

      note_all-best :
          (us : List (CompactStopTimeUpdate p)) (b : Option (Best p)) (v : CompactStopTimeUpdate p)
          (s : ℕ)
          → In v us
          → time v ≡ some s
          → Holds R s (note_all us b)
      unfolding note_all
      note_all-best [] b v s m shown = absurd m
      note_all-best (u ∷ us) b v s (inl e) shown =
          note_all-keeps us (note p better (time u) u b) s (
            subst (λ o. Holds R s (note p better o u b)) (sym (ap time (sym e) ∙ shown))
              (note-new R better R-refl R-trans is_better is_worse s u b))
      note_all-best (u ∷ us) b v s (inr m) shown =
          note_all-best us (note p better (time u) u b) v s m shown

  module _ (reference_epoch : ℕ) where
    past_loop-note_all :
        (us : List (CompactStopTimeUpdate p)) (b : Option (Best p))
        → past_loop p reference_epoch us b
          ≡ note_all (λ t m. ltb m t) (past_time p reference_epoch) us b
    unfolding past_loop note_all
    past_loop-note_all [] b = refl
    past_loop-note_all (u ∷ us) b = past_loop-note_all us _

    -- The vehicle stands at the stop: the update is not skipped, and its interval holds the time.
    unfoldable pub Stands : ℕ → CompactStopTimeUpdate p → Type 0
    Stands current u = (is_skipped p u ≡ false) × (is_active p reference_epoch current u ≡ true)

    -- The update is not skipped, and `t` is its arrival or else its departure.
    unfoldable pub Shows : CompactStopTimeUpdate p → ℕ → Type 0
    Shows u t = (is_skipped p u ≡ false) × (comparison_time p reference_epoch u ≡ some t)

    past_time-Shows :
        (u : CompactStopTimeUpdate p) (t : ℕ) → past_time p reference_epoch u ≡ some t → Shows u t
    unfolding past_time Shows
    past_time-Shows u t h = elim (Bool-cases (is_skipped p u)) [
      | inl e ↦ absurd (none_is_some (past_time p reference_epoch u) (rw e refl) h)
      | inr e ↦
          (e, subst (λ c. (if c then none else comparison_time p reference_epoch u) ≡ some t) e h)
    ]

    Shows-past_time :
        (u : CompactStopTimeUpdate p) (t : ℕ) → Shows u t → past_time p reference_epoch u ≡ some t
    unfolding past_time Shows
    Shows-past_time u t (e, h) = rw e h

    future_time-Shows :
        (current : ℕ) (u : CompactStopTimeUpdate p) (t : ℕ)
        → future_time p reference_epoch current u ≡ some t
        → Shows u t × (current < t)
    unfolding future_time
    future_time-Shows current u t h =
        let (s, shown, kept) = >>=-eq-some (past_time p reference_epoch u) _ h in
        elim (Bool-cases (ltb current s)) [
          | inl e ↦
              let same_time : some s ≡ some t =
                subst (λ c. (if c then some s else none) ≡ some t) e kept in
              (
                past_time-Shows u t (shown ∙ same_time),
                subst (λ x. current < x) (some-injective same_time) (ltb→lt current s e),
              )
          | inr e ↦ absurd (none_is_some (if ltb current s then some s else none) (rw e refl) kept)
        ]

    Shows-future_time :
        (current : ℕ) (u : CompactStopTimeUpdate p) (t : ℕ)
        → Shows u t
        → current < t
        → future_time p reference_epoch current u ≡ some t
    unfolding future_time
    Shows-future_time current u t h ahead =
        rw (Shows-past_time u t h) (rw (lt→ltb current t ahead) refl)

    data Searches (current : ℕ) (us : List (CompactStopTimeUpdate p)) (b : Option (Best p))
        : Search p → Type 0 where
      finds :
          (u : CompactStopTimeUpdate p)
          → In u us
          → Stands current u
          → Searches current us b (found u)
      ends :
          ((u : CompactStopTimeUpdate p) → In u us → ¬ Stands current u)
          → Searches current us b
              (searched (note_all ltb (future_time p reference_epoch current) us b))

    Searches-later :
        (current : ℕ) (u : CompactStopTimeUpdate p) (us : List (CompactStopTimeUpdate p))
        (b : Option (Best p)) {s : Search p}
        → ¬ Stands current u
        → Searches current us (note p ltb (future_time p reference_epoch current u) u b) s
        → Searches current (u ∷ us) b s
    unfolding note_all
    Searches-later current u us b off (finds v m stands) = finds v (inr m) stands
    Searches-later current u us b off (ends none_stands) = ends (λ v m. elim m [
      | inl e ↦ subst (λ w. ¬ Stands current w) (sym e) off
      | inr m ↦ none_stands v m
    ])

    future_loop-Searches :
        (current : ℕ) (us : List (CompactStopTimeUpdate p)) (b : Option (Best p))
        → Searches current us b (future_loop p reference_epoch current us b)
    unfolding future_loop note_all Stands
    future_loop-Searches current [] b = ends (λ u m. absurd m)
    future_loop-Searches current (u ∷ us) b =
        elim (Bool-cases (not (is_skipped p u) && is_active p reference_epoch current u)) [
          | inl e ↦ rw e (finds u (inl refl) (not_and_true _ _ e))
          | inr e ↦ rw e (
              Searches-later current u us b
                (λ (live, active). true_is_false (sym (ap₂ (λ x y. not x && y) live active) ∙ e))
                (future_loop-Searches current us _))
        ]

  -- How the chosen update stands to the others.
  pub data Choice (reference_epoch : ℕ) (current : ℕ) (us : List (CompactStopTimeUpdate p))
      : Option (CompactStopTimeUpdate p) → Type 0 where
    active :
        (u : CompactStopTimeUpdate p)
        → In u us
        → Stands reference_epoch current u
        → Choice reference_epoch current us (some u)
    next :
        (u : CompactStopTimeUpdate p) (t : ℕ)
        → In u us
        → Shows reference_epoch u t
        → current < t
        → ((v : CompactStopTimeUpdate p) → In v us → ¬ Stands reference_epoch current v)
        → ((v : CompactStopTimeUpdate p) (s : ℕ)
            → In v us
            → Shows reference_epoch v s
            → current < s
            → t ≤ s)
        → Choice reference_epoch current us (some u)
    last :
        (u : CompactStopTimeUpdate p) (t : ℕ)
        → In u us
        → Shows reference_epoch u t
        → ((v : CompactStopTimeUpdate p) → In v us → ¬ Stands reference_epoch current v)
        → ((v : CompactStopTimeUpdate p) (s : ℕ)
            → In v us
            → Shows reference_epoch v s
            → (s ≤ current) × (s ≤ t))
        → Choice reference_epoch current us (some u)
    nothing :
        ((v : CompactStopTimeUpdate p) (s : ℕ) → In v us → ¬ Shows reference_epoch v s)
        → Choice reference_epoch current us none

  module _ (reference_epoch : ℕ) (current : ℕ) (us : List (CompactStopTimeUpdate p)) where
    past_best :
        (v : CompactStopTimeUpdate p) (s : ℕ)
        → In v us
        → Shows reference_epoch v s
        → Holds (λ x y. y ≤ x) s (note_all (λ t m. ltb m t) (past_time p reference_epoch) us none)
    past_best v s m shows =
        note_all-best (λ t m. ltb m t) (past_time p reference_epoch) (λ x y. y ≤ x)
          (λ a. omega arith) (λ a b c h k. omega arith) (λ a b h. omega (tests, h))
          (λ a b h. omega (tests, h)) us none v s m (Shows-past_time reference_epoch v s shows)

    future_best :
        (v : CompactStopTimeUpdate p) (s : ℕ)
        → In v us
        → Shows reference_epoch v s
        → current < s
        → Holds (λ x y. x ≤ y) s (note_all ltb (future_time p reference_epoch current) us none)
    future_best v s m shows ahead =
        note_all-best ltb (future_time p reference_epoch current) (λ x y. x ≤ y) (λ a. omega arith)
          (λ a b c h k. omega arith) (λ a b h. omega (tests, h)) (λ a b h. omega (tests, h)) us none
          v s m (Shows-future_time reference_epoch current v s shows ahead)

    not_ahead :
        note_all ltb (future_time p reference_epoch current) us none ≡ none
        → (v : CompactStopTimeUpdate p) (s : ℕ) → In v us
        → Shows reference_epoch v s
        → s ≤ current
    not_ahead none_ahead v s m shows = elim (Bool-cases (ltb current s)) [
      | inl e ↦
          absurd (
            subst (Holds (λ x y. x ≤ y) s) none_ahead
              (future_best v s m shows (ltb→lt current s e)))
      | inr e ↦ ltb_false→le current s e
    ]

    Choice-past :
        (b : Option (Best p))
        → note_all (λ t m. ltb m t) (past_time p reference_epoch) us none ≡ b
        → note_all ltb (future_time p reference_epoch current) us none ≡ none
        → ((v : CompactStopTimeUpdate p) → In v us → ¬ Stands reference_epoch current v)
        → Choice reference_epoch current us (update_of p reference_epoch b)
    unfolding update_of
    Choice-past none e no_future off =
        nothing (λ v s m shows. subst (Holds (λ x y. y ≤ x) s) e (past_best v s m shows))
    Choice-past (some b) e no_future off =
        elim (note_all-from (λ t m. ltb m t) (past_time p reference_epoch) us none b e) [
          | inl q ↦ absurd (none_is_some none refl q)
          | inr (m, t) ↦
              last b.update b.time m (past_time-Shows reference_epoch b.update b.time t) off
                (λ v s m shows. (
                  not_ahead no_future v s m shows,
                  subst (Holds (λ x y. y ≤ x) s) e (past_best v s m shows),
                ))
        ]

    Choice-future :
        (b : Option (Best p))
        → note_all ltb (future_time p reference_epoch current) us none ≡ b
        → ((v : CompactStopTimeUpdate p) → In v us → ¬ Stands reference_epoch current v)
        → Choice reference_epoch current us (
            or_else
              (update_of p reference_epoch b)
              (update_of p reference_epoch (past_loop p reference_epoch us none)))
    unfolding update_of
    Choice-future none e off =
        rw (past_loop-note_all reference_epoch us none) (Choice-past _ refl e off)
    Choice-future (some b) e off =
        elim (note_all-from ltb (future_time p reference_epoch current) us none b e) [
          | inl q ↦ absurd (none_is_some none refl q)
          | inr (m, t) ↦
              let (shows, ahead) = future_time-Shows reference_epoch current b.update b.time t in
              next b.update b.time m shows ahead off (λ v s m shows ahead.
                subst (Holds (λ x y. x ≤ y) s) e (future_best v s m shows ahead))
        ]

    finish-Choice :
        {s : Search p}
        → Searches reference_epoch current us none s
        → Choice reference_epoch current us (finish p reference_epoch us s)
    unfolding finish
    finish-Choice (finds u m stands) = active u m stands
    finish-Choice (ends off) = Choice-future _ refl off

  -- An update is chosen that is in the list and not skipped: one at whose stop the vehicle stands,
  -- else one with the earliest time ahead, else one with the latest time; nothing is chosen only
  -- where no update that is not skipped has a time.
  pub find_closest_stop_time_update-Choice :
      (reference_epoch : ℕ) (current : ℕ) (us : List (CompactStopTimeUpdate p))
      → Choice reference_epoch current us
          (find_closest_stop_time_update p reference_epoch us current)
  unfolding find_closest_stop_time_update
  find_closest_stop_time_update-Choice reference_epoch current us =
      finish-Choice reference_epoch current us
        (future_loop-Searches reference_epoch current us none)
