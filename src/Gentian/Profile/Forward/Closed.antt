-- ===== src/Gentian/Profile/Forward/Closed.antt =====
-- Transfers followed, or waiting to be followed, in the forward pass.
use mathlib.Core.Path.{subst}
use catenary_backend.Common.{
  ℕ, ◌+◌, ◌<◌, ◌≤◌, ◌≡◌, refl, sym, ap, ◌∙◌, ◌⊎◌, inl, inr, Bool, false, some, List, ◌∷◌, ltb, leb,
  leb→le, ◌==◌, some-injective, Bool-cases, In, arith, tests,
}
use catenary_backend.Common.Words.{u32_max}
use catenary_backend.Gentian.Transfers.{Transfer}
use catenary_backend.Gentian.Profile.{Query, inactive_mask, idx_of, is_inactive}
use catenary_backend.Gentian.Profile.Seeds.{Seed}
use catenary_backend.Gentian.Profile.Forward.{Frame, ForwardSearch, push, expand, round}
use catenary_backend.Gentian.Profile.Forward.Labels.{
  label_at, label_at-push, boarded, Boards, stays, pushes,
}
use catenary_backend.Gentian.Profile.Forward.Rules.{Keeps, expand_kept}
use catenary_backend.Gentian.Profile.Forward.Sound.{Link, IsNarrow}
use catenary_backend.Gentian.Profile.Forward.Serves.{boarding, Boards-Falls, follow-Falls}

-- A frame among `extra` or on the stack will ride the trip over stop i.
pub record Waits (extra : List Frame) (s : ForwardSearch) (n f i : ℕ) : Type 0 where
  pub frame : Frame
  pub member : In frame extra ⊎ In frame s.stack
  pub same_n : frame.n ≡ n
  pub same_f : frame.flat_id ≡ f
  pub low : idx_of frame.stop_idx_raw ≤ i
  pub high : i < idx_of frame.old_r_val

-- A transfer out of a trip that is ridden was followed, or a frame that will follow it waits.
abbrev pub Closed : Query → List Frame → ForwardSearch → Type 0
Closed q extra s =
    (n f : ℕ) (tr : Transfer) (f' : ℕ)
    → Link q n f tr f'
    → boarding s n f ≤ tr.from_stop_idx_in_pattern
    → (boarding s (n + 1) f' ≤ tr.to_stop_idx_in_pattern)
      ⊎ Waits extra s n f tr.from_stop_idx_in_pattern

-- No frame is inactive, and no label.
abbrev pub Live : ForwardSearch → Type 0
Live s =
    ((frame : Frame) → In frame s.stack → is_inactive frame.stop_idx_raw ≡ false)
    × ((n f : ℕ) → (label_at s n f ≡ u32_max) ⊎ (is_inactive (label_at s n f) ≡ false))

module _ (q : Query) (extra : List Frame) where
  pub Closed-Boards :
      (n f x : ℕ) (inactive : Bool) (s : ForwardSearch) {s' : ForwardSearch}
      → x < inactive_mask
      → Closed q extra s
      → Boards n f x inactive s s'
      → Closed q extra s'
  unfolding push
  Closed-Boards n f x inactive s small h (stays later) n' f' t g link reach = h n' f' t g link reach
  Closed-Boards n f x inactive s small h (pushes level old row cell read earlier) n' f' t g link
        reach =
      let falls =
        (Boards-Falls n f x inactive s small (pushes level old row cell read earlier)).0 in
      let as_before : boarding s n' f' ≤ t.from_stop_idx_in_pattern
          → (boarding (push n f (boarded inactive x) old level s) (n' + 1) g
              ≤ t.to_stop_idx_in_pattern)
            ⊎ Waits extra (push n f (boarded inactive x) old level s) n' f'
                t.from_stop_idx_in_pattern =
        λ reach. elim (h n' f' t g link reach) [
          | inl served ↦ inl (omega (arith, served, falls (n' + 1) g))
          | inr w ↦ inr (record {
            frame = w.frame;
            member = elim w.member [ inl m ↦ inl m | inr m ↦ inr (inr m) ];
            same_n = w.same_n;
            same_f = w.same_f;
            low = w.low;
            high = w.high;
          })
        ] in
      elim (label_at-push n f (boarded inactive x) old level s row cell n' f') [
        | inl (e, e', value) ↦ elim (Bool-cases (ltb t.from_stop_idx_in_pattern (idx_of old))) [
          | inl before ↦ inr (record {
            frame = _;
            member = inr (inl refl);
            same_n = sym e;
            same_f = sym e';
            low = omega (arith, ap idx_of value, reach);
            high = omega (tests, before);
          })
          | inr after ↦
              let was : boarding s n' f' ≡ idx_of old =
                ap idx_of (ap (λ a. label_at s a f') e ∙ (ap (label_at s n) e' ∙ read)) in
              as_before (omega (tests, was, after))
        ]
        | inr same ↦ as_before (omega (arith, ap idx_of same, reach))
      ]

active_below : (x : ℕ) → x < inactive_mask → is_inactive x ≡ false
active_below x small = elim (Bool-cases (leb inactive_mask x)) [
  | inl above ↦ absurd (omega (arith, leb→le inactive_mask x above))
  | inr below ↦ below
]

pub Live-Boards :
    (n f x : ℕ) (s : ForwardSearch) {s' : ForwardSearch}
    → x < inactive_mask
    → Live s
    → Boards n f x false s s'
    → Live s'
unfolding push
Live-Boards n f x s small h (stays later) = h
Live-Boards n f x s small h (pushes level old row cell read earlier) = (
  (λ frame m. elim m [
    | inl e ↦ ap (λ y. is_inactive y.stop_idx_raw) e ∙ active_below x small
    | inr m ↦ h.0 frame m
  ]),
  (λ n' f'. elim (label_at-push n f x old level s row cell n' f') [
    | inl (_, _, value) ↦ inr (ap is_inactive value ∙ active_below x small)
    | inr same ↦ elim (h.1 n' f') [
      | inl unset ↦ inl (same ∙ unset)
      | inr active ↦ inr (ap is_inactive same ∙ active)
    ]
  ]),
)

module _ (q : Query) (seeds : List Seed) (narrow : IsNarrow q seeds) where
  -- A bound on the label of a trip stays.
  pub Below-expand :
      (n f x : ℕ) (frame : Frame) (s : ForwardSearch) {s' : ForwardSearch}
      → boarding s n f ≤ x
      → expand q frame s ≡ some s'
      → boarding s' n f ≤ x
  unfolding Keeps
  Below-expand n f x frame s h e =
      expand_kept q (λ u. boarding u n f ≤ x) frame s
        (λ stops all known more k tr inactive u v m found low high plain hu followed.
          omega
            (arith, hu, (follow-Falls q seeds narrow frame.n inactive k tr u found followed).0 n f))
        h e

  pub Below-round :
      (n f x : ℕ) (frame : Frame) (rest : List Frame) (s s' : ForwardSearch)
      → s.stack ≡ frame ∷ rest
      → boarding s n f ≤ x
      → round q frame rest s ≡ some s'
      → boarding s' n f ≤ x
  unfolding round
  Below-round n f x frame rest s s' top h e = elim (Bool-cases (is_inactive frame.stop_idx_raw)) [
    | inl inactive ↦ elim (Bool-cases (s.active == 0)) [
      | inl none_active ↦
          subst (λ t. boarding t n f ≤ x) (some-injective (rw (inactive, none_active) at e)) h
      | inr active ↦ Below-expand n f x frame _ h (rw (inactive, active) at e)
    ]
    | inr live ↦ Below-expand n f x frame _ h (rw live at e)
  ]
