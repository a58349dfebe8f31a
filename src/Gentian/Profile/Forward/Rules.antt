-- ===== src/Gentian/Profile/Forward/Rules.antt =====
-- Invariants of the forward pass: what each transfer followed keeps holds after a trip is ridden.
use mathlib.Core.Path.{subst}
use catenary_backend.Common.{
  ℕ, zero, suc, ◌+◌, ◌-◌, ◌<◌, ◌≤◌, ◌≡◌, ◌∙◌, refl, sym, inl, inr, Bool, true, false, ◌||◌, some,
  List, [], ◌∷◌, ltb, min, >>=-eq-some, some-injective, List-cases, Bool-cases, Option-cases,
  true_is_false, ap, ◌⊎◌, length, get_elem?, In, arith, tests,
}
use catenary_backend.Gentian.Transfers.{Transfer}
use catenary_backend.Gentian.Profile.{Query, idx_of, is_inactive}
use catenary_backend.Gentian.Profile.Seeds.{Seed}
use catenary_backend.Gentian.Profile.Forward.{
  Frame, ForwardSearch, trip_info, becomes_inactive, follow, leave_at, leave, ride_on, expand,
  round, done, panicked, propagate, Outcome, start_seed, search_seed, search_seeds, out_of_fuel,
}

-- Where no stop makes a journey inactive, the flag is the one that the trip was boarded with.
abbrev pub Plain : Query → Bool → Bool → Type 0
Plain q before inactive = ((stop : ℕ) → becomes_inactive q stop ≡ false) → inactive ≡ before

-- P holds after a transfer of `all` from a stop in lo..hi was followed, if it held before.
unfoldable pub Keeps : Query → (ForwardSearch → Type 0) → Bool → ℕ → List ℕ → ℕ → ℕ → Type 0
Keeps q P before n all lo hi =
    (k : ℕ) (tr : Transfer) (inactive : Bool) (u v : ForwardSearch)
    → In k all
    → get_elem? q.transfers k ≡ some tr
    → lo ≤ tr.from_stop_idx_in_pattern
    → tr.from_stop_idx_in_pattern < hi
    → Plain q before inactive
    → P u
    → follow q n inactive tr u ≡ some v
    → P v

or-false : (a : Bool) {b : Bool} → b ≡ false → (a || b) ≡ a
or-false true e = refl
or-false false e = e

module _ (q : Query) (P : ForwardSearch → Type 0) (before : Bool) (n : ℕ) (all : List ℕ)
    (lo hi : ℕ) where
  leave_at_kept :
      Keeps q P before n all lo hi
      → (inactive : Bool) → Plain q before inactive
      → (i : ℕ) → lo ≤ i
      → i < hi
      → (pending : List ℕ) (s : ForwardSearch) {r : List ℕ × ForwardSearch}
      → ((k : ℕ) → In k pending → In k all)
      → P s
      → leave_at q n inactive i pending s ≡ some r
      → P r.1 × ((k : ℕ) → In k r.0 → In k all)
  unfolding leave_at Keeps
  leave_at_kept keep inactive plain i low high [] s within h e =
      subst (λ (r : List ℕ × ForwardSearch). P r.1 × ((k : ℕ) → In k r.0 → In k all))
        (some-injective e) (h, λ k m. absurd m)
  leave_at_kept keep inactive plain i low high (k ∷ pending) s within h e =
      let (tr, found, e₁) = >>=-eq-some (get_elem? q.transfers k) _ e in
      elim (Bool-cases (ltb i tr.from_stop_idx_in_pattern)) [
        | inl later ↦
            subst (λ (r : List ℕ × ForwardSearch). P r.1 × ((k : ℕ) → In k r.0 → In k all))
              (some-injective (rw later at e₁)) (h, within)
        | inr not_later ↦ elim (Bool-cases (ltb tr.from_stop_idx_in_pattern i)) [
          | inl earlier ↦
              leave_at_kept keep inactive plain i low high pending s (λ j m. within j (inr m)) h
                (rw (not_later, earlier) at e₁)
          | inr here ↦
              let (s', followed, e₂) =
                >>=-eq-some (follow q n inactive tr s) _ (rw (not_later, here) at e₁) in
              leave_at_kept keep inactive plain i low high pending s' (λ j m. within j (inr m))
                (keep k tr inactive s s' (within k (inl refl)) found
                  (omega (tests, not_later, here)) (omega (tests, not_later, here)) plain h
                  followed)
                e₂
        ]
      ]

  leave_kept :
      (n < q.max_transfers → Keeps q P before n all lo hi)
      → (inactive : Bool) → Plain q before inactive
      → (i : ℕ) → lo ≤ i
      → i < hi
      → (pending : List ℕ) (s : ForwardSearch) {r : List ℕ × ForwardSearch}
      → ((k : ℕ) → In k pending → In k all)
      → P s
      → leave q n inactive i pending s ≡ some r
      → P r.1 × ((k : ℕ) → In k r.0 → In k all)
  unfolding leave
  leave_kept keep inactive plain i low high pending s within h e =
      elim (Bool-cases (ltb n q.max_transfers)) [
        | inl more ↦
            leave_at_kept (keep (omega (tests, more))) inactive plain i low high pending s within h
              (rw more at e)
        | inr no_more ↦
            subst (λ (r : List ℕ × ForwardSearch). P r.1 × ((k : ℕ) → In k r.0 → In k all))
              (some-injective (rw no_more at e)) (h, within)
      ]

  ride_on_kept :
      (n < q.max_transfers → Keeps q P before n all lo hi)
      → (inactive : Bool) → Plain q before inactive
      → (stops : List ℕ) (rounds i : ℕ) → lo ≤ i
      → i + rounds ≤ hi
      → (pending : List ℕ) (s : ForwardSearch) {s' : ForwardSearch}
      → ((k : ℕ) → In k pending → In k all)
      → P s
      → ride_on q n inactive stops rounds i pending s ≡ some s'
      → P s'
  unfolding ride_on
  ride_on_kept keep inactive plain stops zero i low high pending s within h e =
      subst P (some-injective e) h
  ride_on_kept keep inactive plain stops (suc rounds) i low high pending s within h e =
      let (stop, at, e₁) = >>=-eq-some (get_elem? stops i) _ e in
      let (r, left, e₂) =
        >>=-eq-some (leave q n (inactive || becomes_inactive q stop) i pending s) _ e₁ in
      let (h', within') =
        leave_kept keep (inactive || becomes_inactive q stop)
          (λ never. or-false inactive (never stop) ∙ plain never) i low (omega arith) pending s
          within h left in
      ride_on_kept keep inactive plain stops rounds (i + 1) (omega arith) (omega arith) r.0 r.1
        within' h' e₂

-- A trip ridden keeps what each of its transfers keeps, from the stop where it is boarded to the
-- one where it was boarded before.
pub expand_kept :
    (q : Query) (P : ForwardSearch → Type 0) (frame : Frame) (s : ForwardSearch)
    {s' : ForwardSearch}
    → ((stops all : List ℕ)
        → trip_info q frame.flat_id ≡ some (stops, all)
        → frame.n < q.max_transfers
        → Keeps q P
            (is_inactive frame.stop_idx_raw)
            frame.n
            all
            (idx_of frame.stop_idx_raw)
            (length stops))
    → P s
    → expand q frame s ≡ some s'
    → P s'
unfolding expand ride_on
expand_kept q P frame s {s'} keep h e =
    let (info, known, e₁) = >>=-eq-some (trip_info q frame.flat_id) _ e in
    elim (Bool-cases (ltb (idx_of frame.stop_idx_raw) (length info.0))) [
      | inl inside ↦
          ride_on_kept q P (is_inactive frame.stop_idx_raw) frame.n info.1
            (idx_of frame.stop_idx_raw) (length info.0) (keep info.0 info.1 known)
            (is_inactive frame.stop_idx_raw) (λ never. refl) info.0 _ (idx_of frame.stop_idx_raw)
            (omega arith) (omega (tests, inside)) info.1 s (λ k m. m) h e₁
      | inr outside ↦
          let nothing : min (idx_of frame.old_r_val) (length info.0) - idx_of frame.stop_idx_raw
              ≡ 0 =
            omega (tests, outside) in
          subst P
            (some-injective (
              subst
                (λ rounds.
                  ride_on q frame.n (is_inactive frame.stop_idx_raw) info.0 rounds
                    (idx_of frame.stop_idx_raw) info.1 s
                  ≡ some s')
                nothing e₁))
            h
    ]

pub Outcome-cases :
    (o : Outcome) → ((s : ForwardSearch) × (o ≡ done s)) ⊎ (o ≡ panicked) ⊎ (o ≡ out_of_fuel)
Outcome-cases (done s) = inl (s, refl)
Outcome-cases panicked = inr (inl refl)
Outcome-cases out_of_fuel = inr (inr refl)

search_in : Outcome → ForwardSearch → ForwardSearch
search_in (done s) default = s
search_in panicked default = default
search_in out_of_fuel default = default

done-injective : {s t : ForwardSearch} → done s ≡ done t → s ≡ t
unfolding search_in
done-injective {s} {t} e = ap (λ o. search_in o s) e

is_done : Outcome → Bool
is_done (done s) = true
is_done panicked = false
is_done out_of_fuel = false

out_not_done : {t : ForwardSearch} → out_of_fuel ≡ done t → ⊥
unfolding is_done
out_not_done e = true_is_false (sym (ap is_done e))

panicked_not_done : {t : ForwardSearch} → panicked ≡ done t → ⊥
unfolding is_done
panicked_not_done e = true_is_false (sym (ap is_done e))

-- What a round keeps holds when the loop is done, and the stack is empty then.
pub propagate_kept :
    (q : Query) (P : ForwardSearch → Type 0)
    → ((frame : Frame) (rest : List Frame) (s s' : ForwardSearch)
        → s.stack ≡ frame ∷ rest
        → P s
        → round q frame rest s ≡ some s'
        → P s')
    → (fuel : ℕ) (s : ForwardSearch) {t : ForwardSearch} → P s
    → propagate q fuel s ≡ done t
    → P t × (t.stack ≡ [])
unfolding propagate
propagate_kept q P keep zero s h e = elim (List-cases s.stack) [
  | inl empty ↦
      subst (λ t. P t × (t.stack ≡ [])) (done-injective (rw (empty, propagate) at e)) (h, empty)
  | inr (frame, rest, top) ↦ absurd (out_not_done (rw (top, propagate) at e))
]
propagate_kept q P keep (suc fuel) s h e = elim (List-cases s.stack) [
  | inl empty ↦
      subst (λ t. P t × (t.stack ≡ [])) (done-injective (rw (empty, propagate) at e)) (h, empty)
  | inr (frame, rest, top) ↦ elim (Option-cases (round q frame rest s)) [
    | inl fails ↦ absurd (panicked_not_done (rw (top, fails, propagate) at e))
    | inr (s', goes) ↦
        propagate_kept q P keep fuel s' (keep frame rest s s' top h goes)
          (rw (top, goes, propagate) at e)
  ]
]

-- The search of a list of seeds that is done, taken apart.
pub search_seeds-cons :
    (q : Query) (fuel : ℕ) (seed : Seed) (seeds : List Seed) (s : ForwardSearch) {t : ForwardSearch}
    → search_seeds q fuel (seed ∷ seeds) s ≡ done t
    → (u v : ForwardSearch) × (start_seed q seed s ≡ some u)
      × (propagate q fuel u ≡ done v)
      × (search_seeds q fuel seeds v ≡ done t)
unfolding search_seeds search_seed
search_seeds-cons q fuel seed seeds s e = elim (Option-cases (start_seed q seed s)) [
  | inl fails ↦ absurd (panicked_not_done (rw (fails, search_seeds, search_seed) at e))
  | inr (u, goes) ↦ elim (Outcome-cases (propagate q fuel u)) [
    | inl (v, ends) ↦ (u, v, goes, ends, rw (goes, search_seeds, search_seed, ends) at e)
    | inr (inl stops) ↦
        absurd (panicked_not_done (rw (goes, search_seeds, search_seed, stops) at e))
    | inr (inr runs) ↦ absurd (out_not_done (rw (goes, search_seeds, search_seed, runs) at e))
  ]
]

-- What boarding the trip of a seed keeps, and each round, holds after the search of the seeds.
pub search_seeds_kept :
    (q : Query) (P : ForwardSearch → Type 0) (fuel : ℕ)
    → ((frame : Frame) (rest : List Frame) (s s' : ForwardSearch)
        → s.stack ≡ frame ∷ rest
        → P s
        → round q frame rest s ≡ some s'
        → P s')
    → (seeds : List Seed) (s : ForwardSearch) {t : ForwardSearch}
    → ((seed : Seed) (u v : ForwardSearch)
        → In seed seeds
        → u.stack ≡ []
        → P u
        → start_seed q seed u ≡ some v
        → P v)
    → s.stack ≡ []
    → P s
    → search_seeds q fuel seeds s ≡ done t
    → P t × (t.stack ≡ [])
unfolding search_seeds
search_seeds_kept q P fuel keep [] s starts empty h e =
    subst (λ t. P t × (t.stack ≡ [])) (done-injective e) (h, empty)
search_seeds_kept q P fuel keep (seed ∷ seeds) s starts empty h e =
    let (u, v, goes, ends, rest) = search_seeds-cons q fuel seed seeds s e in
    let (h', empty') =
      propagate_kept q P keep fuel u (starts seed s u (inl refl) empty h goes) ends in
    search_seeds_kept q P fuel keep seeds v (λ x y z m. starts x y z (inr m)) empty' h' rest
