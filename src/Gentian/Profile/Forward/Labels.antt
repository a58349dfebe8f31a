-- ===== src/Gentian/Profile/Forward/Labels.antt =====
-- Labels read and written: `r_labels` of `compute_profile_query` in src/gentian/trip_based.rs.
use mathlib.Core.Path.{subst}
use catenary_backend.Common.{
  ℕ, ◌<◌, ◌≤◌, ◌≡◌, ◌≢◌, sym, ap, ◌∙◌, ◌⊎◌, inl, inr, Bool, true, false, some, List, [], ltb, ◌==◌,
  ==_iff, if◌then◌else◌, >>=-eq-some, some-injective, Bool-cases, true_is_false, get_elem?, get_or,
  set, get_or-set_self, get_or-set_ne, get_or-eq, arith, tests,
}
use catenary_backend.Common.Words.{u32_max}
use catenary_backend.Gentian.Profile.{inactive_mask, idx_of, mark_inactive}
use catenary_backend.Gentian.Profile.Forward.{ForwardSearch, push, board}

-- The label of a trip boarded with n transfers, `u32::MAX` where there is no row.
abbrev pub label_at : ForwardSearch → ℕ → ℕ → ℕ
label_at s n f = get_or (get_or s.r_labels n []) f u32_max

-- A write changes the label that it names and no other.
pub label_at-push :
    (n f value old : ℕ) (level : List ℕ) (s : ForwardSearch)
    → get_elem? s.r_labels n ≡ some level
    → get_elem? level f ≡ some old
    → (n' f' : ℕ)
    → ((n' ≡ n) × (f' ≡ f) × (label_at (push n f value old level s) n' f' ≡ value))
      ⊎ (label_at (push n f value old level s) n' f' ≡ label_at s n' f')
unfolding push
label_at-push n f value old level s row cell n' f' =
    let (row_eq, row_lt) = get_or-eq s.r_labels n [] row in
    let (cell_eq, cell_lt) = get_or-eq level f u32_max cell in
    elim (Bool-cases (n == n')) [
      | inl same ↦
          let e = (==_iff n n').0 same in
          let here : get_or (set s.r_labels n (set level f value)) n' [] ≡ set level f value =
            subst (λ x. get_or (set s.r_labels n (set level f value)) x [] ≡ set level f value) e
              (get_or-set_self s.r_labels n (set level f value) [] row_lt) in
          elim (Bool-cases (f == f')) [
            | inl same_f ↦
                let e' = (==_iff f f').0 same_f in
                inl (
                  sym e,
                  sym e',
                  ap (λ r. get_or r f' u32_max) here
                      ∙ subst (λ x. get_or (set level f value) x u32_max ≡ value) e'
                          (get_or-set_self level f value u32_max cell_lt),
                )
            | inr other ↦ inr (
                ap (λ r. get_or r f' u32_max) here
                ∙ (get_or-set_ne level f f' value u32_max (differs f f' other)
                    ∙ ap (λ r. get_or r f' u32_max)
                        (sym row_eq ∙ ap (λ x. get_or s.r_labels x []) e)))
          ]
      | inr other ↦ inr (
          ap (λ r. get_or r f' u32_max)
            (get_or-set_ne s.r_labels n n' (set level f value) [] (differs n n' other)))
    ]
  where
    differs : (a b : ℕ) → (a == b) ≡ false → a ≢ b
    differs a b h e = absurd (true_is_false (sym ((==_iff a b).1 e) ∙ h))

pub label_at-push_self :
    (n f value old : ℕ) (level : List ℕ) (s : ForwardSearch)
    → get_elem? s.r_labels n ≡ some level
    → get_elem? level f ≡ some old
    → label_at (push n f value old level s) n f ≡ value
unfolding push
label_at-push_self n f value old level s row cell =
    ap (λ r. get_or r f u32_max)
      (get_or-set_self s.r_labels n (set level f value) [] (get_or-eq s.r_labels n [] row).1)
    ∙ get_or-set_self level f value u32_max (get_or-eq level f u32_max cell).1

-- The label written when a trip is boarded.
abbrev pub boarded : Bool → ℕ → ℕ
boarded inactive stop_idx = if inactive then mark_inactive stop_idx else stop_idx

pub idx_of-boarded : (inactive : Bool) (x : ℕ) → x < inactive_mask → idx_of (boarded inactive x) ≡ x
idx_of-boarded true x h = ground arith
idx_of-boarded false x h = omega arith

pub idx_of-lt : (x : ℕ) → idx_of x < inactive_mask
idx_of-lt x = omega arith

-- What boarding a trip does: nothing, or a label is lowered and a frame pushed.
pub data Boards (n f stop_idx : ℕ) (inactive : Bool) (s : ForwardSearch)
    : ForwardSearch → Type 0 where
  stays : idx_of (label_at s n f) ≤ stop_idx → Boards n f stop_idx inactive s s
  pushes :
      (level : List ℕ) (old : ℕ)
      → get_elem? s.r_labels n ≡ some level
      → get_elem? level f ≡ some old
      → label_at s n f ≡ old
      → stop_idx < idx_of old
      → Boards n f stop_idx inactive s (push n f (boarded inactive stop_idx) old level s)

pub board-Boards :
    (n f stop_idx : ℕ) (inactive : Bool) (s : ForwardSearch) {s' : ForwardSearch}
    → board n f stop_idx inactive s ≡ some s'
    → Boards n f stop_idx inactive s s'
unfolding board
board-Boards n f stop_idx inactive s e =
    let (level, row, e₁) = >>=-eq-some (get_elem? s.r_labels n) _ e in
    let (old, cell, e₂) = >>=-eq-some (get_elem? level f) _ e₁ in
    let read : label_at s n f ≡ old =
      ap (λ r. get_or r f u32_max) (get_or-eq s.r_labels n [] row).0
      ∙ (get_or-eq level f u32_max cell).0 in
    subst (Boards n f stop_idx inactive s) (some-injective e₂)
      (elim (Bool-cases (ltb stop_idx (idx_of old))) [
        | inl less ↦ rw less (pushes level old row cell read (omega (tests, less)))
        | inr more ↦ rw more (stays (omega (tests, more, ap idx_of read)))
      ])
