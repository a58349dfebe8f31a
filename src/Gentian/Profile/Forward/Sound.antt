-- ===== src/Gentian/Profile/Forward/Sound.antt =====
-- Each label of the forward pass stands for a journey.
use mathlib.Core.Path.{subst}
use catenary_backend.Common.{
  ℕ, zero, suc, ◌+◌, ◌-◌, ◌<◌, ◌≤◌, ◌≡◌, refl, sym, ap, ◌∙◌, ◌⊎◌, inl, inr, Bool, false, some, List,
  [], ◌∷◌, ◌==◌, >>=-eq-some, some-injective, Bool-cases, length, get_elem?, get_or, replicate, In,
  arith,
}
use catenary_backend.Common.Words.{u16_mod, u32_max}
use catenary_backend.Gentian.Transfers.{Transfer}
use catenary_backend.Gentian.Profile.{Query, inactive_mask, idx_of, is_inactive, get_flat_id}
use catenary_backend.Gentian.Profile.Seeds.{Seed}
use catenary_backend.Gentian.Profile.Forward.{
  Frame, ForwardSearch, push, trip_info, follow, expand, round, done, start_seed, forward_fuel,
  no_labels, forward_pass,
}
use catenary_backend.Gentian.Profile.Forward.Labels.{
  label_at, label_at-push, boarded, idx_of-boarded, Boards, stays, pushes, board-Boards,
}
use catenary_backend.Gentian.Profile.Forward.Rules.{Keeps, expand_kept, search_seeds_kept}

-- A transfer that the search may follow from a trip ridden with n changes, and the trip it boards.
pub record Link (q : Query) (n f : ℕ) (tr : Transfer) (f' : ℕ) : Type 0 where
  pub stops : List ℕ
  pub all : List ℕ
  pub place : ℕ
  pub known : trip_info q f ≡ some (stops, all)
  pub more : n < q.max_transfers
  pub member : In place all
  pub found : get_elem? q.transfers place ≡ some tr
  pub inside : tr.from_stop_idx_in_pattern < length stops
  pub target : get_flat_id q tr.to_pattern_idx tr.to_trip_idx ≡ some f'

-- With n changes a journey from a seed can ride the trip from the stop on: it boards the trip of a
-- seed, or changes to it by a transfer from a later stop of a trip that it rides.
pub data Reached (q : Query) (seeds : List Seed) : ℕ → ℕ → ℕ → Type 0 where
  start :
      (seed : Seed) (f : ℕ)
      → In seed seeds
      → get_flat_id q seed.pattern_idx seed.trip_idx ≡ some f
      → Reached q seeds 0 f seed.stop_idx
  change :
      (n f i : ℕ) (tr : Transfer) (f' : ℕ)
      → Reached q seeds n f i
      → Link q n f tr f'
      → i ≤ tr.from_stop_idx_in_pattern
      → Reached q seeds (n + 1) f' tr.to_stop_idx_in_pattern

-- The stop indices fit in the fields that hold them: u16 in a transfer, 31 bits in a label.
pub record IsNarrow (q : Query) (seeds : List Seed) : Type 0 where
  pub transfer_fits :
      (k : ℕ) (tr : Transfer)
      → get_elem? q.transfers k ≡ some tr
      → (tr.from_stop_idx_in_pattern < u16_mod) × (tr.to_stop_idx_in_pattern < u16_mod)
  pub seed_fits : (seed : Seed) → In seed seeds → seed.stop_idx + 1 < inactive_mask

module _ (q : Query) (seeds : List Seed) (narrow : IsNarrow q seeds) where
  record Sound (s : ForwardSearch) : Type 0 where
    labels : (n f : ℕ) → (label_at s n f ≡ u32_max) ⊎ Reached q seeds n f (idx_of (label_at s n f))
    frames :
        (frame : Frame)
        → In frame s.stack
        → Reached q seeds frame.n frame.flat_id (idx_of frame.stop_idx_raw)

  Sound-Boards :
      (n f stop_idx : ℕ) (inactive : Bool) (s : ForwardSearch) {s' : ForwardSearch}
      → stop_idx < inactive_mask
      → Reached q seeds n f stop_idx
      → Sound s
      → Boards n f stop_idx inactive s s'
      → Sound s'
  unfolding push
  Sound-Boards n f stop_idx inactive s small reached h (stays later) = h
  Sound-Boards n f stop_idx inactive s small reached h (pushes level old row cell read earlier) =
      let here : Reached q seeds n f (idx_of (boarded inactive stop_idx)) =
        subst (Reached q seeds n f) (sym (idx_of-boarded inactive stop_idx small)) reached in
      record {
        labels = λ n' f'.
            elim (label_at-push n f (boarded inactive stop_idx) old level s row cell n' f') [
              | inl (e, e', value) ↦ inr (
                  subst (λ x. Reached q seeds n' f' (idx_of x)) (sym value)
                    (subst (λ x. Reached q seeds x f' (idx_of (boarded inactive stop_idx))) (sym e)
                      (subst (λ x. Reached q seeds n x (idx_of (boarded inactive stop_idx)))
                        (sym e') here)))
              | inr same ↦ elim (h.labels n' f') [
                | inl unset ↦ inl (same ∙ unset)
                | inr r ↦ inr (subst (λ x. Reached q seeds n' f' (idx_of x)) (sym same) r)
              ]
            ];
        frames = λ frame m. elim m [
          | inl e ↦ subst (λ x. Reached q seeds x.n x.flat_id (idx_of x.stop_idx_raw)) (sym e) here
          | inr m ↦ h.frames frame m
        ];
      }

  Sound-follow :
      (n : ℕ) (inactive : Bool) (k : ℕ) (tr : Transfer) (s : ForwardSearch) {s' : ForwardSearch}
      → get_elem? q.transfers k ≡ some tr
      → ((f : ℕ)
          → get_flat_id q tr.to_pattern_idx tr.to_trip_idx ≡ some f
          → Reached q seeds (n + 1) f tr.to_stop_idx_in_pattern)
      → Sound s
      → follow q n inactive tr s ≡ some s'
      → Sound s'
  unfolding follow
  Sound-follow n inactive k tr s found reached h e =
      let (f, at, e₁) = >>=-eq-some (get_flat_id q tr.to_pattern_idx tr.to_trip_idx) _ e in
      Sound-Boards (n + 1) f tr.to_stop_idx_in_pattern inactive s
        (omega (arith, (narrow.transfer_fits k tr found).1)) (reached f at) h
        (board-Boards (n + 1) f tr.to_stop_idx_in_pattern inactive s e₁)

  Sound-expand :
      (frame : Frame) (s : ForwardSearch) {s' : ForwardSearch}
      → Reached q seeds frame.n frame.flat_id (idx_of frame.stop_idx_raw)
      → Sound s
      → expand q frame s ≡ some s'
      → Sound s'
  unfolding Keeps
  Sound-expand frame s reached h e =
      expand_kept q Sound frame s
        (λ stops all known more k tr inactive u v m found low high plain hu followed.
          Sound-follow frame.n inactive k tr u found
            (λ f at.
              change frame.n frame.flat_id (idx_of frame.stop_idx_raw) tr f reached
                (record {
                  stops = stops;
                  all = all;
                  place = k;
                  known = known;
                  more = more;
                  member = m;
                  found = found;
                  inside = high;
                  target = at;
                })
                low)
            hu followed)
        h e

  -- The labels do not depend on the stack.
  Sound-pop :
      (frame : Frame) (rest : List Frame) (s : ForwardSearch) (active : ℕ)
      → s.stack ≡ frame ∷ rest
      → Sound s
      → Sound (record s { stack = rest; active = active })
        × Reached q seeds frame.n frame.flat_id (idx_of frame.stop_idx_raw)
  Sound-pop frame rest s active top h = (
    record { labels = h.labels; frames = λ x m. h.frames x (subst (In x) (sym top) (inr m)) },
    h.frames frame (subst (In frame) (sym top) (inl refl)),
  )

  Sound-round :
      (frame : Frame) (rest : List Frame) (s s' : ForwardSearch)
      → s.stack ≡ frame ∷ rest
      → Sound s
      → round q frame rest s ≡ some s'
      → Sound s'
  unfolding round
  Sound-round frame rest s s' top h e = elim (Bool-cases (is_inactive frame.stop_idx_raw)) [
    | inl inactive ↦ elim (Bool-cases (s.active == 0)) [
      | inl none_active ↦
          subst Sound (some-injective (rw (inactive, none_active) at e))
            (record { labels = h.labels; frames = λ x m. absurd m })
      | inr active ↦
          let (h', reached) = Sound-pop frame rest s s.active top h in
          Sound-expand frame _ reached h' (rw (inactive, active) at e)
    ]
    | inr live ↦
        let (h', reached) = Sound-pop frame rest s (s.active - 1) top h in
        Sound-expand frame _ reached h' (rw live at e)
  ]

  Sound-start :
      (seed : Seed) (u v : ForwardSearch)
      → In seed seeds
      → Sound u
      → start_seed q seed u ≡ some v
      → Sound v
  unfolding start_seed
  Sound-start seed u v m h e =
      let (f, at, e₁) = >>=-eq-some (get_flat_id q seed.pattern_idx seed.trip_idx) _ e in
      Sound-Boards 0 f seed.stop_idx false u (omega (arith, narrow.seed_fits seed m))
        (start seed f m at) h (board-Boards 0 f seed.stop_idx false u e₁)

get_or-replicate :
    {A : Type 0} (n i : ℕ) (a d : A)
    → (get_or (replicate n a) i d ≡ a) ⊎ (get_or (replicate n a) i d ≡ d)
get_or-replicate zero i a d = inr refl
get_or-replicate (suc n) zero a d = inl refl
get_or-replicate (suc n) (suc i) a d = get_or-replicate n i a d

-- No trip has a label at first.
pub no_labels-unset :
    (q : Query) (active n f : ℕ)
    → label_at (record { r_labels = no_labels q; stack = []; active = active }) n f ≡ u32_max
unfolding no_labels
no_labels-unset q active n f =
    elim (get_or-replicate (suc q.max_transfers) n
      (replicate (length q.flat_id_to_pattern_trip) u32_max) []) [
        | inl e ↦ elim (get_or-replicate (length q.flat_id_to_pattern_trip) f u32_max u32_max) [
          | inl e' ↦ ap (λ r. get_or r f u32_max) e ∙ e'
          | inr e' ↦ ap (λ r. get_or r f u32_max) e ∙ e'
        ]
        | inr e ↦ ap (λ r. get_or r f u32_max) e
      ]

-- When the forward pass is done, the label of a trip is unset, or some journey from a seed can ride
-- the trip from the stop of the label on with that many changes.
pub forward_pass-Reached :
    (q : Query) (seeds : List Seed) {t : ForwardSearch}
    → IsNarrow q seeds
    → forward_pass q seeds ≡ done t
    → (n f : ℕ) → (label_at t n f ≡ u32_max) ⊎ Reached q seeds n f (idx_of (label_at t n f))
unfolding forward_pass
forward_pass-Reached q seeds narrow e n f =
    let (h, _) =
      search_seeds_kept q (Sound q seeds narrow) (forward_fuel q) (Sound-round q seeds narrow) seeds
        _ (λ seed u v m _ hu s. Sound-start q seeds narrow seed u v m hu s) refl
        (record { labels = λ n f. inl (no_labels-unset q 0 n f); frames = λ frame m. absurd m })
        e in
    h.labels n f
