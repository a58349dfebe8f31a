-- ===== src/Gentian/Profile/Forward/Complete.antt =====
-- The labels of the forward pass are the earliest, where no stop makes a journey inactive.
use mathlib.Core.Path.{subst}
use catenary_backend.Common.{
  ℕ, ◌+◌, ◌<◌, ◌≤◌, ◌≡◌, refl, sym, ap, ◌∙◌, ◌⊎◌, inl, inr, Bool, false, some, List, [], ◌∷◌,
  >>=-eq-some, some-injective, get_elem?, In, arith,
}
use catenary_backend.Common.Words.{u32_max}
use catenary_backend.Gentian.Transfers.{Transfer}
use catenary_backend.Gentian.Profile.{Query, inactive_mask, idx_of, is_inactive, get_flat_id}
use catenary_backend.Gentian.Profile.Seeds.{Seed}
use catenary_backend.Gentian.Profile.Forward.{
  Frame, ForwardSearch, trip_info, becomes_inactive, follow, expand, round, done, start_seed,
  search_seeds, forward_fuel, forward_pass,
}
use catenary_backend.Gentian.Profile.Forward.Labels.{label_at, Boards, board-Boards}
use catenary_backend.Gentian.Profile.Forward.Rules.{
  Keeps, expand_kept, propagate_kept, search_seeds-cons, search_seeds_kept,
}
use catenary_backend.Gentian.Profile.Forward.Sound.{
  Link, Reached, start, change, IsNarrow, no_labels-unset, forward_pass-Reached,
}
use catenary_backend.Gentian.Profile.Forward.Serves.{
  boarding, IsSorted, Boards-Falls, expand_served,
}
use catenary_backend.Gentian.Profile.Forward.Closed.{
  Closed, Live, Closed-Boards, Live-Boards, Below-round,
}

-- A journey can ride the trip from stop i on, and from no earlier stop.
pub record IsEarliest (q : Query) (seeds : List Seed) (n f i : ℕ) : Type 0 where
  pub reached : Reached q seeds n f i
  pub least : (j : ℕ) → Reached q seeds n f j → i ≤ j

-- No stop makes a journey inactive, and the transfers of a trip are listed by the stop they leave.
pub record IsOpen (q : Query) : Type 0 where
  pub never : (stop : ℕ) → becomes_inactive q stop ≡ false
  pub sorted : (f : ℕ) (stops all : List ℕ) → trip_info q f ≡ some (stops, all) → IsSorted q all

module _ (q : Query) (seeds : List Seed) (narrow : IsNarrow q seeds) (open_ : IsOpen q) where
  -- What holds while a frame is ridden, and with no frame between the rounds.
  record Going (extra : List Frame) (s : ForwardSearch) : Type 0 where
    closed : Closed q extra s
    live : Live s

  Going-follow :
      (extra : List Frame) (n : ℕ) (k : ℕ) (tr : Transfer) (inactive : Bool) (u v : ForwardSearch)
      → get_elem? q.transfers k ≡ some tr
      → inactive ≡ false
      → Going extra u
      → follow q n inactive tr u ≡ some v
      → Going extra v
  unfolding follow
  Going-follow extra n k tr inactive u v found active h e =
      let (f, at, e₁) = >>=-eq-some (get_flat_id q tr.to_pattern_idx tr.to_trip_idx) _ e in
      let small : tr.to_stop_idx_in_pattern < inactive_mask =
        omega (arith, (narrow.transfer_fits k tr found).1) in
      let boards = board-Boards (n + 1) f tr.to_stop_idx_in_pattern inactive u e₁ in
      record {
        closed =
            Closed-Boards q extra (n + 1) f tr.to_stop_idx_in_pattern inactive u small h.closed
              boards;
        live =
            Live-Boards (n + 1) f tr.to_stop_idx_in_pattern u small h.live
              (subst (λ b. Boards (n + 1) f tr.to_stop_idx_in_pattern b u v) active boards);
      }

  -- Each transfer that waits for the frame is followed when its trip is ridden.
  rides :
      (frame : Frame) (s : ForwardSearch) {s' : ForwardSearch} (n f : ℕ) (tr : Transfer) (g : ℕ)
      (x : Frame)
      → expand q frame s ≡ some s'
      → x ≡ frame
      → x.n ≡ n
      → x.flat_id ≡ f
      → idx_of x.stop_idx_raw ≤ tr.from_stop_idx_in_pattern
      → tr.from_stop_idx_in_pattern < idx_of x.old_r_val
      → Link q n f tr g
      → boarding s' (n + 1) g ≤ tr.to_stop_idx_in_pattern
  rides frame s {s'} n f tr g x e same same_n same_f low high =
      subst (λ a. Link q a f tr g → boarding s' (a + 1) g ≤ tr.to_stop_idx_in_pattern)
        (ap (λ y. y.n) (sym same) ∙ same_n)
        (subst
          (λ a. Link q frame.n a tr g → boarding s' (frame.n + 1) g ≤ tr.to_stop_idx_in_pattern)
          (ap (λ y. y.flat_id) (sym same) ∙ same_f)
          (λ link.
            expand_served q seeds narrow frame s tr g (open_.sorted frame.flat_id) e link
              (omega (arith, ap (λ y. idx_of y.stop_idx_raw) same, low))
              (omega (arith, ap (λ y. idx_of y.old_r_val) same, high))))

  Going-expand :
      (frame : Frame) (s : ForwardSearch) {s' : ForwardSearch}
      → is_inactive frame.stop_idx_raw ≡ false
      → Going (frame ∷ []) s
      → expand q frame s ≡ some s'
      → Going [] s'
  unfolding Keeps
  Going-expand frame s {s'} active h e =
      let kept =
        expand_kept q (Going (frame ∷ [])) frame s
          (λ stops all known more k tr inactive u v m found low high plain hu followed.
            Going-follow (frame ∷ []) frame.n k tr inactive u v found (plain open_.never ∙ active)
              hu followed)
          h e in
      record {
        live = kept.live;
        closed = λ n f tr g link reach. elim (kept.closed n f tr g link reach) [
          | inl served ↦ inl served
          | inr w ↦ elim w.member [
            | inl (inl e') ↦
                inl (rides frame s n f tr g w.frame e e' w.same_n w.same_f w.low w.high link)
            | inl (inr m) ↦ absurd m
            | inr m ↦ inr (record {
              frame = w.frame;
              member = inr m;
              same_n = w.same_n;
              same_f = w.same_f;
              low = w.low;
              high = w.high;
            })
          ]
        ];
      }

  Going-round :
      (frame : Frame) (rest : List Frame) (s s' : ForwardSearch)
      → s.stack ≡ frame ∷ rest
      → Going [] s
      → round q frame rest s ≡ some s'
      → Going [] s'
  unfolding round
  Going-round frame rest s s' top h e =
      let active : is_inactive frame.stop_idx_raw ≡ false =
        h.live.0 frame (subst (In frame) (sym top) (inl refl)) in
      Going-expand frame _ active
        (record {
          live = ((λ x m. h.live.0 x (subst (In x) (sym top) (inr m))), h.live.1);
          closed = λ n f tr g link reach. elim (h.closed n f tr g link reach) [
            | inl served ↦ inl served
            | inr w ↦ inr (record {
              frame = w.frame;
              member = elim w.member [
                | inl m ↦ absurd m
                | inr m ↦ elim (subst (In w.frame) top m) [ inl e ↦ inl (inl e) | inr m ↦ inr m ]
              ];
              same_n = w.same_n;
              same_f = w.same_f;
              low = w.low;
              high = w.high;
            })
          ];
        })
        (rw active at e)

  Going-start :
      (seed : Seed) (u v : ForwardSearch)
      → In seed seeds
      → Going [] u
      → start_seed q seed u ≡ some v
      → Going [] v
  unfolding start_seed
  Going-start seed u v m h e =
      let (f, at, e₁) = >>=-eq-some (get_flat_id q seed.pattern_idx seed.trip_idx) _ e in
      let small : seed.stop_idx < inactive_mask = omega (arith, narrow.seed_fits seed m) in
      let boards = board-Boards 0 f seed.stop_idx false u e₁ in
      record {
        closed = Closed-Boards q [] 0 f seed.stop_idx false u small h.closed boards;
        live = Live-Boards 0 f seed.stop_idx u small h.live boards;
      }

  -- Boarding the trip of a seed keeps a bound on a label.
  Below-start :
      (n f x : ℕ) (seed : Seed) (u v : ForwardSearch)
      → In seed seeds
      → boarding u n f ≤ x
      → start_seed q seed u ≡ some v
      → boarding v n f ≤ x
  unfolding start_seed
  Below-start n f x seed u v m h e =
      let (g, at, e₁) = >>=-eq-some (get_flat_id q seed.pattern_idx seed.trip_idx) _ e in
      let small : seed.stop_idx < inactive_mask = omega (arith, narrow.seed_fits seed m) in
      let (falls, _) =
        Boards-Falls 0 g seed.stop_idx false u small (board-Boards 0 g seed.stop_idx false u e₁) in
      omega (arith, falls n f)

  starts_early :
      (f : ℕ) (seed : Seed) (u : ForwardSearch) {v : ForwardSearch}
      → In seed seeds
      → get_flat_id q seed.pattern_idx seed.trip_idx ≡ some f
      → start_seed q seed u ≡ some v
      → boarding v 0 f ≤ seed.stop_idx
  unfolding start_seed
  starts_early f seed u {v} m at e =
      let (g, at', e₁) = >>=-eq-some (get_flat_id q seed.pattern_idx seed.trip_idx) _ e in
      let small : seed.stop_idx < inactive_mask = omega (arith, narrow.seed_fits seed m) in
      subst (λ x. boarding v 0 x ≤ seed.stop_idx) (some-injective (sym at' ∙ at))
        (Boards-Falls 0 g seed.stop_idx false u small (board-Boards 0 g seed.stop_idx false u e₁)).1

  -- The trip of each seed searched is boarded at its stop or before.
  search_seeds-boards :
      (fuel : ℕ) (some_seeds : List Seed) (s : ForwardSearch) {t : ForwardSearch}
      → ((seed : Seed) → In seed some_seeds → In seed seeds)
      → s.stack ≡ []
      → search_seeds q fuel some_seeds s ≡ done t
      → (seed : Seed) (f : ℕ) → In seed some_seeds
      → get_flat_id q seed.pattern_idx seed.trip_idx ≡ some f
      → boarding t 0 f ≤ seed.stop_idx
  search_seeds-boards fuel [] s within empty e seed f m at = absurd m
  search_seeds-boards fuel (first ∷ later) s within empty e seed f m at =
      let (u, v, goes, ends, e₁) = search_seeds-cons q fuel first later s e in
      let P = λ (x : ForwardSearch). boarding x 0 f ≤ seed.stop_idx in
      elim m [
        | inl same ↦
            let early : boarding u 0 f ≤ seed.stop_idx =
              starts_early f seed s (within seed (inl same)) at
                (subst (λ x. start_seed q x s ≡ some u) (sym same) goes) in
            let (held, bare) =
              propagate_kept q P (Below-round q seeds narrow 0 f seed.stop_idx) fuel u early ends in
            (search_seeds_kept q P fuel (Below-round q seeds narrow 0 f seed.stop_idx) later v
              (λ x a b here _. Below-start 0 f seed.stop_idx x a b (within x (inr here))) bare held
              e₁).0
        | inr m ↦
            let bare =
              (propagate_kept q (λ x. Unit) (λ frame rest a b top _ _. tt) fuel u tt ends).1 in
            search_seeds-boards fuel later v (λ x here. within x (inr here)) bare e₁ seed f m at
      ]

-- What holds when the forward pass is done.
forward_pass-Going :
    (q : Query) (seeds : List Seed) {t : ForwardSearch} (narrow : IsNarrow q seeds)
    (open_ : IsOpen q)
    → forward_pass q seeds ≡ done t
    → Going q seeds narrow open_ [] t × (t.stack ≡ [])
unfolding forward_pass
forward_pass-Going q seeds narrow open_ e =
    search_seeds_kept q (Going q seeds narrow open_ []) (forward_fuel q)
      (Going-round q seeds narrow open_) seeds _
      (λ seed u v m _ hu s. Going-start q seeds narrow open_ seed u v m hu s) refl
      (record {
        live = ((λ frame m. absurd m), λ n f. inl (no_labels-unset q 0 n f));
        closed = λ n f tr g link reach. absurd (
            omega (
              arith,
              ap idx_of (no_labels-unset q 0 n f),
              (narrow.transfer_fits link.place tr link.found).0,
              reach,
            ));
      })
      e

-- No label is inactive then.
pub forward_pass-active :
    (q : Query) (seeds : List Seed) {t : ForwardSearch}
    → IsNarrow q seeds
    → IsOpen q
    → forward_pass q seeds ≡ done t
    → (n f : ℕ) → (label_at t n f ≡ u32_max) ⊎ (is_inactive (label_at t n f) ≡ false)
forward_pass-active q seeds narrow open_ e = (forward_pass-Going q seeds narrow open_ e).0.live.1

-- When the forward pass is done, every journey rides its trip from the label's stop or a later one.
pub forward_pass-least :
    (q : Query) (seeds : List Seed) {t : ForwardSearch}
    → IsNarrow q seeds
    → IsOpen q
    → forward_pass q seeds ≡ done t
    → (n f i : ℕ) → Reached q seeds n f i
    → boarding t n f ≤ i
unfolding forward_pass
forward_pass-least q seeds narrow open_ e _ _ _ (start seed f m at) =
    search_seeds-boards q seeds narrow open_ (forward_fuel q) seeds _ (λ x m. m) refl e seed f m at
forward_pass-least q seeds {t} narrow open_ e _ _ _ (change n₀ f₀ i₀ tr f reached link later) =
    let (h, empty) = forward_pass-Going q seeds narrow open_ e in
    let before = forward_pass-least q seeds narrow open_ e n₀ f₀ i₀ reached in
    elim (h.closed n₀ f₀ tr f link (omega (arith, before, later))) [
      | inl served ↦ served
      | inr w ↦ elim w.member [ inl m ↦ absurd m | inr m ↦ absurd (subst (In w.frame) empty m) ]
    ]

pub Reached-lt :
    (q : Query) (seeds : List Seed) (n f i : ℕ)
    → IsNarrow q seeds
    → Reached q seeds n f i
    → i + 1 < inactive_mask
Reached-lt q seeds _ _ _ narrow (start seed f m at) = narrow.seed_fits seed m
Reached-lt q seeds _ _ _ narrow (change n₀ f₀ i₀ tr f reached link later) =
    omega (arith, (narrow.transfer_fits link.place tr link.found).1)

-- Where no stop makes a journey inactive and the transfers of each trip are listed by the stop they
-- leave, a forward pass that is done holds the earliest stop from which a journey from a seed can
-- ride each trip with each number of changes, and no label where no journey can.
pub forward_pass-IsEarliest :
    (q : Query) (seeds : List Seed) {t : ForwardSearch}
    → IsNarrow q seeds
    → IsOpen q
    → forward_pass q seeds ≡ done t
    → (n f : ℕ)
    → ((label_at t n f ≡ u32_max) × ((i : ℕ) → ¬ Reached q seeds n f i))
      ⊎ IsEarliest q seeds n f (idx_of (label_at t n f))
forward_pass-IsEarliest q seeds {t} narrow open_ e n f =
    let least = forward_pass-least q seeds narrow open_ e n f in
    elim (forward_pass-Reached q seeds narrow e n f) [
      | inl unset ↦ inl (
        unset,
        λ i reached.
            omega
              (arith, least i reached, ap idx_of unset, Reached-lt q seeds n f i narrow reached),
      )
      | inr reached ↦ inr (record { reached = reached; least = least })
    ]
