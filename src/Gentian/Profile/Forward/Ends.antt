-- ===== src/Gentian/Profile/Forward/Ends.antt =====
-- The forward pass ends: a trip is pushed only when its label falls.
use native.Mathlib.Nat.{mul_assoc, suc-mul, mul-le-mul_left}
use catenary_backend.Common.{
  ℕ, zero, suc, ◌+◌, ◌*◌, ◌≤◌, ◌≡◌, ◌≢◌, refl, sym, ap, ◌∙◌, ◌⊎◌, inl, inr, Bool, true, false, some,
  List, [], ◌∷◌, ◌==◌, >>=-eq-some, some-injective, List-cases, Bool-cases, Option-cases,
  true_is_false, length, get_elem?, set, replicate, arith,
}
use catenary_backend.Common.Words.{u32_max}
use catenary_backend.Gentian.Transfers.{Transfer}
use catenary_backend.Gentian.Profile.{Query, inactive_mask, idx_of, is_inactive, get_flat_id}
use catenary_backend.Gentian.Profile.Seeds.{Seed}
use catenary_backend.Gentian.Profile.Forward.{
  Frame, ForwardSearch, push, follow, expand, round, Outcome, done, panicked, out_of_fuel,
  propagate, start_seed, search_seed, search_seeds, forward_fuel, no_labels, forward_pass,
}
use catenary_backend.Gentian.Profile.Forward.Labels.{boarded, Boards, stays, pushes, board-Boards}
use catenary_backend.Gentian.Profile.Forward.Rules.{Keeps, expand_kept}

-- The stop indices that the labels still have to fall.
abbrev row_height : List ℕ → ℕ
row_height [] = 0
row_height (label ∷ row) = idx_of label + row_height row

abbrev height : List (List ℕ) → ℕ
height [] = 0
height (row ∷ rows) = row_height row + height rows

-- What is left to do: it falls with each round.
abbrev pub work : ForwardSearch → ℕ
work s = height s.r_labels + length s.stack

row_height-set :
    (row : List ℕ) (f v : ℕ) {old : ℕ}
    → get_elem? row f ≡ some old
    → row_height (set row f v) + idx_of old ≡ row_height row + idx_of v
row_height-set [] f v e = absurd (ground arith)
row_height-set (x ∷ row) zero v e = omega (arith, ap idx_of (some-injective e))
row_height-set (x ∷ row) (suc f) v e = omega (arith, row_height-set row f v e)

height-set :
    (rows : List (List ℕ)) (n : ℕ) (new : List ℕ) {row : List ℕ}
    → get_elem? rows n ≡ some row
    → height (set rows n new) + row_height row ≡ height rows + row_height new
height-set [] n new e = absurd (ground arith)
height-set (x ∷ rows) zero new e = omega (arith, ap row_height (some-injective e))
height-set (x ∷ rows) (suc n) new e = omega (arith, height-set rows n new e)

idx_of-boarded_le : (inactive : Bool) (x : ℕ) → idx_of (boarded inactive x) ≤ x
idx_of-boarded_le true x = ground arith
idx_of-boarded_le false x = omega arith

work-Boards :
    (n f stop_idx : ℕ) (inactive : Bool) (s : ForwardSearch) {s' : ForwardSearch}
    → Boards n f stop_idx inactive s s'
    → work s' ≤ work s
unfolding push
work-Boards n f stop_idx inactive s (stays later) = omega arith
work-Boards n f stop_idx inactive s (pushes level old row cell read earlier) = omega (
  arith,
  height-set s.r_labels n (set level f (boarded inactive stop_idx)) row,
  row_height-set level f (boarded inactive stop_idx) cell,
  idx_of-boarded_le inactive stop_idx,
)

module _ (q : Query) where
  work-follow :
      (n : ℕ) (inactive : Bool) (tr : Transfer) (s : ForwardSearch) {s' : ForwardSearch}
      → follow q n inactive tr s ≡ some s'
      → work s' ≤ work s
  unfolding follow
  work-follow n inactive tr s e =
      let (f, at, e₁) = >>=-eq-some (get_flat_id q tr.to_pattern_idx tr.to_trip_idx) _ e in
      work-Boards (n + 1) f tr.to_stop_idx_in_pattern inactive s
        (board-Boards (n + 1) f tr.to_stop_idx_in_pattern inactive s e₁)

  work-expand :
      (frame : Frame) (s : ForwardSearch) {s' : ForwardSearch}
      → expand q frame s ≡ some s'
      → work s' ≤ work s
  unfolding Keeps
  work-expand frame s e =
      expand_kept q (λ t. work t ≤ work s) frame s
        (λ stops all known more k tr inactive u v m found low high plain hu followed.
          omega (arith, hu, work-follow frame.n inactive tr u followed))
        (omega arith) e

  -- A round leaves less to do.
  work-round :
      (frame : Frame) (rest : List Frame) (s s' : ForwardSearch)
      → s.stack ≡ frame ∷ rest
      → round q frame rest s ≡ some s'
      → suc (work s') ≤ work s
  unfolding round
  work-round frame rest s s' top e =
      let size : length s.stack ≡ suc (length rest) = ap length top in
      elim (Bool-cases (is_inactive frame.stop_idx_raw)) [
        | inl inactive ↦ elim (Bool-cases (s.active == 0)) [
          | inl none_active ↦
              let same : height s'.r_labels + length s'.stack ≡ height s.r_labels + 0 =
                ap work (sym (some-injective (rw (inactive, none_active) at e))) in
              omega (arith, same, size)
          | inr active ↦ omega (arith, size, work-expand frame _ (rw (inactive, active) at e))
        ]
        | inr live ↦ omega (arith, size, work-expand frame _ (rw live at e))
      ]

  work-start :
      (seed : Seed) (s : ForwardSearch) {s' : ForwardSearch}
      → start_seed q seed s ≡ some s'
      → work s' ≤ work s
  unfolding start_seed
  work-start seed s e =
      let (f, at, e₁) = >>=-eq-some (get_flat_id q seed.pattern_idx seed.trip_idx) _ e in
      work-Boards 0 f seed.stop_idx false s (board-Boards 0 f seed.stop_idx false s e₁)

  propagate-ends :
      (fuel : ℕ) (s : ForwardSearch)
      → work s ≤ fuel
      → (propagate q fuel s ≡ panicked)
        ⊎ ((t : ForwardSearch) × (propagate q fuel s ≡ done t) × (work t ≤ work s))
  unfolding propagate
  propagate-ends zero s enough = elim (List-cases s.stack) [
    | inl empty ↦ inr (s, simp (empty, propagate), omega arith)
    | inr (frame, rest, top) ↦ absurd (omega (arith, ap length top))
  ]
  propagate-ends (suc fuel) s enough = elim (List-cases s.stack) [
    | inl empty ↦ inr (s, simp (empty, propagate), omega arith)
    | inr (frame, rest, top) ↦ elim (Option-cases (round q frame rest s)) [
      | inl fails ↦ inl (rw (top, propagate) (rw fails refl))
      | inr (s', goes) ↦
          let less = work-round frame rest s s' top goes in
          elim (propagate-ends fuel s' (omega (arith, less))) [
            | inl p ↦ inl (rw (top, propagate) (rw goes p))
            | inr (t, d, falls) ↦
                inr (t, rw (top, propagate) (rw goes d), omega (arith, falls, less))
          ]
    ]
  ]

  search_seeds-ends :
      (fuel : ℕ) (seeds : List Seed) (s : ForwardSearch)
      → work s ≤ fuel
      → (search_seeds q fuel seeds s ≡ panicked)
        ⊎ ((t : ForwardSearch) × (search_seeds q fuel seeds s ≡ done t))
  unfolding search_seeds search_seed
  search_seeds-ends fuel [] s enough = inr (s, refl)
  search_seeds-ends fuel (seed ∷ seeds) s enough = elim (Option-cases (start_seed q seed s)) [
    | inl fails ↦ inl (rw (fails, search_seeds, search_seed) refl)
    | inr (u, goes) ↦
        let less = work-start seed s goes in
        elim (propagate-ends fuel u (omega (arith, less))) [
          | inl p ↦ inl (rw (goes, search_seeds, search_seed) (rw p refl))
          | inr (v, d, falls) ↦ elim (search_seeds-ends fuel seeds v (omega (arith, less, falls))) [
            | inl p ↦ inl (rw (goes, search_seeds, search_seed) (rw d p))
            | inr (t, ends) ↦ inr (t, rw (goes, search_seeds, search_seed) (rw d ends))
          ]
        ]
  ]

is_out : Outcome → Bool
is_out (done s) = false
is_out panicked = false
is_out out_of_fuel = true

not_out : panicked ≡ out_of_fuel → ⊥
unfolding is_out
not_out e = true_is_false (sym (ap is_out e))

done_not_out : {t : ForwardSearch} → done t ≡ out_of_fuel → ⊥
unfolding is_out
done_not_out e = true_is_false (sym (ap is_out e))

row_height-replicate : (n : ℕ) → row_height (replicate n u32_max) ≤ n * inactive_mask
row_height-replicate zero = omega arith
row_height-replicate (suc n) = omega (arith, row_height-replicate n)

height-replicate : (m : ℕ) (row : List ℕ) → height (replicate m row) ≡ m * row_height row
height-replicate zero row = omega arith
height-replicate (suc m) row = omega (arith, height-replicate m row, suc-mul m (row_height row))

-- The fuel of the forward pass is not less than the work that it starts with.
enough : (q : Query) → height (no_labels q) ≤ forward_fuel q
unfolding no_labels forward_fuel
enough q =
    let total = length q.flat_id_to_pattern_trip in
    let row = replicate total u32_max in
    omega (
      arith,
      height-replicate (suc q.max_transfers) row,
      mul-le-mul_left (suc q.max_transfers) (row_height-replicate total),
      mul_assoc (suc q.max_transfers) total inactive_mask,
    )

-- The fuel that the forward pass is given lasts: the pass panics, or it is done.
pub forward_pass-ends : (q : Query) (seeds : List Seed) → forward_pass q seeds ≢ out_of_fuel
unfolding forward_pass
forward_pass-ends q seeds e =
    elim (search_seeds-ends q (forward_fuel q) seeds
      (record { r_labels = no_labels q; stack = []; active = 0 }) (omega (arith, enough q))) [
        | inl p ↦ absurd (not_out (sym p ∙ e))
        | inr (t, d) ↦ absurd (done_not_out (sym d ∙ e))
      ]
