-- ===== src/Gentian/Refine/Laws.antt =====
-- The earliest arrivals known only fall, and what a transfer reaches is covered by them.
use mathlib.Core.Path.{subst}
use native.Mathlib.Nat.{le_refl, le_trans}
use catenary_backend.Common.{
  ℕ, zero, suc, ◌≤◌, ◌<◌, ◌≡◌, refl, sym, inl, inr, Bool, false, some, List, [], ◌∷◌, ltb,
  >>=-eq-some, some-injective, Bool-cases, get_elem?, get_or, set, arith, tests,
}
use catenary_backend.Common.Words.{add32}
use catenary_backend.Common.Loops.{for_each_inv}
use catenary_backend.Gentian.Refine.{
  Tau, lower_arrival, lower_change, update_tau, relax_footpath, relax_footpaths, arrive,
}

-- The earliest arrival known at a stop.
abbrev pub known : Tau → ℕ → ℕ
known tau s = get_or tau.tau_a s 0

-- No arrival known is later in `later` than in `tau`.
abbrev pub Lowers : Tau → Tau → Type 0
Lowers tau later = (s : ℕ) → known later s ≤ known tau s

get_or_of_get_elem? : (xs : List ℕ) (i : ℕ) {a : ℕ} → get_elem? xs i ≡ some a → get_or xs i 0 ≡ a
get_or_of_get_elem? [] i e = absurd (ground arith)
get_or_of_get_elem? (x ∷ xs) zero e = some-injective e
get_or_of_get_elem? (x ∷ xs) (suc i) e = get_or_of_get_elem? xs i e

-- A smaller value written over a greater one lowers the list, and stands where it was written.
set_lowers :
    (xs : List ℕ) (i v : ℕ) {a : ℕ}
    → get_elem? xs i ≡ some a
    → v < a
    → ((s : ℕ) → get_or (set xs i v) s 0 ≤ get_or xs s 0) × (get_or (set xs i v) i 0 ≡ v)
set_lowers [] i v e lt = absurd (ground arith)
set_lowers (x ∷ xs) zero v {a} e lt = (go, refl)
  where
    go : (s : ℕ) → get_or (v ∷ xs) s 0 ≤ get_or (x ∷ xs) s 0
    go zero = ground (arith, some-injective e)
    go (suc s) = le_refl _
set_lowers (x ∷ xs) (suc i) v {a} e lt = (go (set_lowers xs i v e lt).0, (set_lowers xs i v e lt).1)
  where
    go :
        ((s : ℕ) → get_or (set xs i v) s 0 ≤ get_or xs s 0)
        → (s : ℕ) → get_or (x ∷ set xs i v) s 0 ≤ get_or (x ∷ xs) s 0
    go h zero = le_refl _
    go h (suc s) = h s

lower_arrival-known :
    (stop arr a c : ℕ) (tau : Tau)
    → get_elem? tau.tau_a stop ≡ some a
    → Lowers tau (lower_arrival stop arr a c tau)
      × (known (lower_arrival stop arr a c tau) stop ≤ arr)
unfolding lower_arrival
lower_arrival-known stop arr a c tau ea = elim (Bool-cases (ltb arr a)) [
  | inl less ↦
      rw less
        (let (lower, here) = set_lowers tau.tau_a stop arr ea (omega tests) in (lower, omega arith))
  | inr more ↦ rw more (λ s. le_refl _, omega (tests, get_or_of_get_elem? tau.tau_a stop ea))
]

lower_change_known :
    (stop c_time a c : ℕ) (tau : Tau) → (lower_change stop c_time a c tau).tau_a ≡ tau.tau_a
unfolding lower_change
lower_change_known stop c_time a c tau = ground arith

module _ (change_times : List ℕ) where
  -- An update lowers the times, and the arrival is known after it.
  pub update_tau-Lowers :
      (stop arr : ℕ) (tau : Tau) {r : Tau × Bool}
      → update_tau change_times stop arr tau ≡ some r
      → Lowers tau r.0 × (known r.0 stop ≤ arr)
  unfolding update_tau
  update_tau-Lowers stop arr tau e =
      let (a, ea, e₁) = >>=-eq-some (get_elem? tau.tau_a stop) _ e in
      let (c, ec, e₂) = >>=-eq-some (get_elem? tau.tau_c stop) _ e₁ in
      let (change, eh, e₃) = >>=-eq-some (get_elem? change_times stop) _ e₂ in
      subst (λ t. Lowers tau t.0 × (known t.0 stop ≤ arr)) (some-injective e₃)
        (subst (λ l. ((s : ℕ) → get_or l s 0 ≤ known tau s) × (get_or l stop 0 ≤ arr))
          (sym (lower_change_known stop _ _ c (lower_arrival stop arr a c tau)))
          (lower_arrival-known stop arr a c tau ea))

  -- An update that improves nothing changes nothing.
  update_tau_idle :
      (stop arr : ℕ) (tau : Tau) {r : Tau × Bool}
      → update_tau change_times stop arr tau ≡ some r
      → r.1 ≡ false
      → r.0 ≡ tau
  unfolding update_tau lower_arrival lower_change
  update_tau_idle stop arr tau {r} e idle =
      let (a, ea, e₁) = >>=-eq-some (get_elem? tau.tau_a stop) _ e in
      let (c, ec, e₂) = >>=-eq-some (get_elem? tau.tau_c stop) _ e₁ in
      let (change, eh, e₃) = >>=-eq-some (get_elem? change_times stop) _ e₂ in
      ground (arith, some-injective e₃)

  module _ (footpaths : List (List (ℕ × ℕ))) where
    relax_footpaths-Lowers :
        (stop arr : ℕ) (tau : Tau) {r : Tau × Bool}
        → relax_footpaths change_times footpaths stop arr tau ≡ some r
        → Lowers tau r.0
    unfolding relax_footpaths relax_footpath
    relax_footpaths-Lowers stop arr tau e =
        let (paths, ep, e₁) = >>=-eq-some (get_elem? footpaths stop) _ e in
        for_each_inv (λ r. Lowers tau r.0) (relax_footpath change_times arr) paths (tau, false)
          (λ x u v m lower h.
            let (r, er, h₁) = >>=-eq-some (update_tau change_times x.0 (add32 arr x.1) u.0) _ h in
            subst (λ t. Lowers tau t.0) (some-injective h₁)
              (λ s. le_trans ((update_tau-Lowers x.0 _ u.0 er).0 s) (lower s)))
          (λ s. le_refl _) e₁

    -- An arrival lowers the times and is known after it, and with no improvement nothing changes.
    pub arrive-Lowers :
        (stop arr : ℕ) (tau : Tau) {r : Tau × Bool}
        → arrive change_times footpaths stop arr tau ≡ some r
        → Lowers tau r.0 × (known r.0 stop ≤ arr) × (r.1 ≡ false → r.0 ≡ tau)
    unfolding arrive
    arrive-Lowers stop arr tau {r} e =
        let (first, ef, e₁) = >>=-eq-some (update_tau change_times stop arr tau) _ e in
        let (lower, here) = update_tau-Lowers stop arr tau ef in
        elim (Bool-cases first.1) [
          | inr idle ↦
              subst (λ t. Lowers tau t.0 × (known t.0 stop ≤ arr) × (t.1 ≡ false → t.0 ≡ tau))
                (some-injective (rw idle at e₁))
                (lower, here, λ _. update_tau_idle stop arr tau ef idle)
          | inl better ↦
              let (second, es, e₂) =
                >>=-eq-some (relax_footpaths change_times footpaths stop arr first.0) _
                  (rw better at e₁) in
              let after = relax_footpaths-Lowers stop arr first.0 es in
              subst (λ t. Lowers tau t.0 × (known t.0 stop ≤ arr) × (t.1 ≡ false → t.0 ≡ tau))
                (some-injective e₂)
                (
                  λ s. le_trans (after s) (lower s),
                  le_trans (after stop) here,
                  λ never. absurd (ground arith),
                )
        ]
