-- ===== src/Gentian/Profile/Forward/Serves.antt =====
-- A trip ridden follows each of its transfers from the stops that it is ridden over.
use mathlib.Core.Path.{subst}
use catenary_backend.Common.{
  ℕ, zero, suc, ◌+◌, ◌-◌, ◌<◌, ◌≤◌, ◌≡◌, sym, ap, ◌∙◌, inl, inr, Bool, ◌||◌, some, List, [], ◌∷◌,
  ltb, min, >>=-eq-some, some-injective, Bool-cases, length, get_elem?, In, arith, tests,
}
use catenary_backend.Gentian.Transfers.{Transfer}
use catenary_backend.Gentian.Profile.{Query, inactive_mask, idx_of, is_inactive, get_flat_id}
use catenary_backend.Gentian.Profile.Seeds.{Seed}
use catenary_backend.Gentian.Profile.Forward.{
  Frame, ForwardSearch, trip_info, becomes_inactive, follow, leave_at, leave, ride_on, expand,
}
use catenary_backend.Gentian.Profile.Forward.Labels.{
  label_at, label_at-push, label_at-push_self, boarded, idx_of-boarded, Boards, stays, pushes,
  board-Boards,
}
use catenary_backend.Gentian.Profile.Forward.Sound.{IsNarrow, Link}

-- The stop from which a trip is ridden with n changes.
abbrev pub boarding : ForwardSearch → ℕ → ℕ → ℕ
boarding s n f = idx_of (label_at s n f)

abbrev pub Falls : ForwardSearch → ForwardSearch → Type 0
Falls s s' = (n f : ℕ) → boarding s' n f ≤ boarding s n f

-- The transfers of the range leave in the order of the stops.
unfoldable pub IsSorted : Query → List ℕ → Type 0
IsSorted q [] = Unit
IsSorted q (k ∷ ks) =
    ((j : ℕ) (tr tr' : Transfer)
      → In j ks
      → get_elem? q.transfers k ≡ some tr
      → get_elem? q.transfers j ≡ some tr'
      → tr.from_stop_idx_in_pattern ≤ tr'.from_stop_idx_in_pattern)
    × IsSorted q ks

pub Boards-Falls :
    (n f x : ℕ) (inactive : Bool) (s : ForwardSearch) {s' : ForwardSearch}
    → x < inactive_mask
    → Boards n f x inactive s s'
    → Falls s s' × (boarding s' n f ≤ x)
Boards-Falls n f x inactive s small (stays later) = (λ n' f'. omega arith, later)
Boards-Falls n f x inactive s small (pushes level old row cell read earlier) = (
  λ n' f'. elim (label_at-push n f (boarded inactive x) old level s row cell n' f') [
    | inl (e, e', value) ↦
        let was : boarding s n' f' ≡ idx_of old =
          ap idx_of (ap (λ a. label_at s a f') e ∙ (ap (label_at s n) e' ∙ read)) in
        omega (arith, was, ap idx_of value, idx_of-boarded inactive x small)
    | inr same ↦ omega (arith, ap idx_of same)
  ],
  omega (
    arith,
    ap idx_of (label_at-push_self n f (boarded inactive x) old level s row cell),
    idx_of-boarded inactive x small,
  ),
)

module _ (q : Query) (seeds : List Seed) (narrow : IsNarrow q seeds) where
  pub follow-Falls :
      (n : ℕ) (inactive : Bool) (k : ℕ) (tr : Transfer) (s : ForwardSearch) {s' : ForwardSearch}
      → get_elem? q.transfers k ≡ some tr
      → follow q n inactive tr s ≡ some s'
      → Falls s s'
        × ((f' : ℕ)
            → get_flat_id q tr.to_pattern_idx tr.to_trip_idx ≡ some f'
            → boarding s' (n + 1) f' ≤ tr.to_stop_idx_in_pattern)
  unfolding follow
  follow-Falls n inactive k tr s {s'} found e =
      let (f, at, e₁) = >>=-eq-some (get_flat_id q tr.to_pattern_idx tr.to_trip_idx) _ e in
      let (falls, reaches) =
        Boards-Falls (n + 1) f tr.to_stop_idx_in_pattern inactive s
          (omega (arith, (narrow.transfer_fits k tr found).1))
          (board-Boards (n + 1) f tr.to_stop_idx_in_pattern inactive s e₁) in
      (
        falls,
        λ f' at'.
            subst (λ x. boarding s' (n + 1) x ≤ tr.to_stop_idx_in_pattern)
              (some-injective (sym at ∙ at')) reaches,
      )

  -- The transfer is followed: the trip that it boards is ridden from its stop or an earlier one.
  abbrev Serves : ℕ → ℕ → ForwardSearch → Type 0
  Serves n k s =
      (tr : Transfer) (f' : ℕ)
      → get_elem? q.transfers k ≡ some tr
      → get_flat_id q tr.to_pattern_idx tr.to_trip_idx ≡ some f'
      → boarding s (n + 1) f' ≤ tr.to_stop_idx_in_pattern

  one_transfer :
      (j k : ℕ) (t tr : Transfer)
      → j ≡ k
      → get_elem? q.transfers j ≡ some t
      → get_elem? q.transfers k ≡ some tr
      → tr ≡ t
  one_transfer j k t tr e there here =
      some-injective (sym here ∙ (ap (get_elem? q.transfers) (sym e) ∙ there))

  -- What a pass over the pending transfers at stop i brings about.
  record Leaves (n i : ℕ) (pending : List ℕ) (s : ForwardSearch) (r : List ℕ × ForwardSearch)
      : Type 0 where
    falls : Falls s r.1
    sorted : IsSorted q r.0
    served :
        (k : ℕ) (tr : Transfer)
        → In k pending
        → get_elem? q.transfers k ≡ some tr
        → tr.from_stop_idx_in_pattern ≡ i
        → Serves n k r.1
    waiting :
        (k : ℕ) (tr : Transfer)
        → In k pending
        → get_elem? q.transfers k ≡ some tr
        → i < tr.from_stop_idx_in_pattern
        → In k r.0

  leave_at-Leaves :
      (n : ℕ) (inactive : Bool) (i : ℕ) (pending : List ℕ) (s : ForwardSearch)
      {r : List ℕ × ForwardSearch}
      → IsSorted q pending
      → leave_at q n inactive i pending s ≡ some r
      → Leaves n i pending s r
  unfolding leave_at IsSorted
  leave_at-Leaves n inactive i [] s sorted e = subst (Leaves n i [] s) (some-injective e) (record {
    falls = λ n f. omega arith;
    sorted = tt;
    served = λ k tr m. absurd m;
    waiting = λ k tr m. absurd m;
  })
  leave_at-Leaves n inactive i (k ∷ pending) s {r} (first, sorted) e =
      let (tr, found, e₁) = >>=-eq-some (get_elem? q.transfers k) _ e in
      elim (Bool-cases (ltb i tr.from_stop_idx_in_pattern)) [
        | inl later ↦ subst (Leaves n i (k ∷ pending) s) (some-injective (rw later at e₁)) (record {
          falls = λ n f. omega arith;
          sorted = (first, sorted);
          served = λ j tr' m found' here.
              let at_least : tr.from_stop_idx_in_pattern ≤ tr'.from_stop_idx_in_pattern = elim m [
                | inl same ↦ omega (
                  arith,
                  ap (λ x. x.from_stop_idx_in_pattern) (one_transfer j k tr' tr same found' found),
                )
                | inr m ↦ first j tr tr' m found found'
              ] in
              absurd (omega (tests, at_least, later, here));
          waiting = λ j tr' m found' after. m;
        })
        | inr not_later ↦ elim (Bool-cases (ltb tr.from_stop_idx_in_pattern i)) [
          | inl earlier ↦
              let rest =
                leave_at-Leaves n inactive i pending s sorted (rw (not_later, earlier) at e₁) in
              record {
                falls = rest.falls;
                sorted = rest.sorted;
                served = λ j tr' m found' here. elim m [
                  | inl same ↦ absurd (
                      omega (
                        tests,
                        earlier,
                        here,
                        ap (λ x. x.from_stop_idx_in_pattern)
                            (one_transfer j k tr' tr same found' found),
                      ))
                  | inr m ↦ rest.served j tr' m found' here
                ];
                waiting = λ j tr' m found' after. elim m [
                  | inl same ↦ absurd (
                      omega (
                        tests,
                        earlier,
                        after,
                        ap (λ x. x.from_stop_idx_in_pattern)
                            (one_transfer j k tr' tr same found' found),
                      ))
                  | inr m ↦ rest.waiting j tr' m found' after
                ];
              }
          | inr here ↦
              let (s', followed, e₂) =
                >>=-eq-some (follow q n inactive tr s) _ (rw (not_later, here) at e₁) in
              let (falls, reaches) = follow-Falls n inactive k tr s found followed in
              let rest = leave_at-Leaves n inactive i pending s' sorted e₂ in
              record {
                falls = λ n f. omega (arith, falls n f, rest.falls n f);
                sorted = rest.sorted;
                served = λ j tr' m found' at. elim m [
                  | inl same ↦ λ t g there target.
                      subst
                        (λ x.
                          get_flat_id q x.to_pattern_idx x.to_trip_idx ≡ some g
                          → boarding r.1 (n + 1) g ≤ x.to_stop_idx_in_pattern)
                        (one_transfer j k t tr same there found)
                        (λ target. omega (arith, reaches g target, rest.falls (n + 1) g)) target
                  | inr m ↦ rest.served j tr' m found' at
                ];
                waiting = λ j tr' m found' after. elim m [
                  | inl same ↦ absurd (
                      omega (
                        tests,
                        not_later,
                        after,
                        ap (λ x. x.from_stop_idx_in_pattern)
                            (one_transfer j k tr' tr same found' found),
                      ))
                  | inr m ↦ rest.waiting j tr' m found' after
                ];
              }
        ]
      ]

  leave-Leaves :
      (n : ℕ) (inactive : Bool) (i : ℕ) (pending : List ℕ) (s : ForwardSearch)
      {r : List ℕ × ForwardSearch}
      → n < q.max_transfers
      → IsSorted q pending
      → leave q n inactive i pending s ≡ some r
      → Leaves n i pending s r
  unfolding leave
  leave-Leaves n inactive i pending s more sorted e = elim (Bool-cases (ltb n q.max_transfers)) [
    | inl goes ↦ leave_at-Leaves n inactive i pending s sorted (rw goes at e)
    | inr stops ↦ absurd (omega (tests, stops))
  ]

  -- Over the stops i, i + 1, … each transfer that is pending is followed at its stop.
  ride_on-Serves :
      (n : ℕ) (inactive : Bool) (stops : List ℕ) (rounds i : ℕ) (pending : List ℕ)
      (s : ForwardSearch) {s' : ForwardSearch}
      → n < q.max_transfers
      → IsSorted q pending
      → ride_on q n inactive stops rounds i pending s ≡ some s'
      → Falls s s'
        × ((k : ℕ) (tr : Transfer)
            → In k pending
            → get_elem? q.transfers k ≡ some tr
            → i ≤ tr.from_stop_idx_in_pattern
            → tr.from_stop_idx_in_pattern < i + rounds
            → Serves n k s')
  unfolding ride_on
  ride_on-Serves n inactive stops zero i pending s more sorted e =
      let same = some-injective e in
      (
        λ n f. omega (arith, ap (λ x. boarding x n f) same),
        λ k tr m found low high. absurd (omega arith),
      )
  ride_on-Serves n inactive stops (suc rounds) i pending s more sorted e =
      let (stop, at, e₁) = >>=-eq-some (get_elem? stops i) _ e in
      let (r, left, e₂) =
        >>=-eq-some (leave q n (inactive || becomes_inactive q stop) i pending s) _ e₁ in
      let here =
        leave-Leaves n (inactive || becomes_inactive q stop) i pending s more sorted left in
      let (falls, later) =
        ride_on-Serves n inactive stops rounds (i + 1) r.0 r.1 more here.sorted e₂ in
      (
        λ n f. omega (arith, falls n f, here.falls n f),
        λ k tr m found low high. elim (Bool-cases (ltb i tr.from_stop_idx_in_pattern)) [
          | inl after ↦
              later k tr (here.waiting k tr m found (omega (tests, after))) found
                (omega (tests, after)) (omega arith)
          | inr now ↦ λ t f' there target. omega (
            arith,
            here.served k tr m found (omega (tests, now)) t f' there target,
            falls (n + 1) f',
          )
        ],
      )

  -- The trip of a frame is ridden from its stop up to the stop where it was boarded before.
  pub expand_served :
      (frame : Frame) (s : ForwardSearch) {s' : ForwardSearch} (tr : Transfer) (f' : ℕ)
      → ((stops all : List ℕ) → trip_info q frame.flat_id ≡ some (stops, all) → IsSorted q all)
      → expand q frame s ≡ some s'
      → Link q frame.n frame.flat_id tr f'
      → idx_of frame.stop_idx_raw ≤ tr.from_stop_idx_in_pattern
      → tr.from_stop_idx_in_pattern < idx_of frame.old_r_val
      → boarding s' (frame.n + 1) f' ≤ tr.to_stop_idx_in_pattern
  unfolding expand
  expand_served frame s {s'} tr f' sorted e link low high =
      let (info, known, e₁) = >>=-eq-some (trip_info q frame.flat_id) _ e in
      let same : (link.stops, link.all) ≡ info = some-injective (sym link.known ∙ known) in
      let (_, serves) =
        ride_on-Serves frame.n (is_inactive frame.stop_idx_raw) info.0
          (min (idx_of frame.old_r_val) (length info.0) - idx_of frame.stop_idx_raw)
          (idx_of frame.stop_idx_raw) info.1 s link.more (sorted info.0 info.1 known) e₁ in
      let inside : tr.from_stop_idx_in_pattern < length info.0 =
        subst (λ (x : List ℕ × List ℕ). tr.from_stop_idx_in_pattern < length x.0) same
          link.inside in
      serves link.place tr (subst (λ (x : List ℕ × List ℕ). In link.place x.1) same link.member)
        link.found low (omega arith) tr f' link.found link.target
