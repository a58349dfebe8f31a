-- ===== src/Gentian/Refine/Visited.antt =====
-- The list of visited stops: setting back the times of these stops clears the buffers.
use mathlib.Core.Path.{subst}
use catenary_backend.Common.{
  ℕ, ◌<◌, ◌≡◌, refl, sym, ap, ◌∙◌, ◌⊎◌, inl, inr, Bool, ◌&&◌, some, List, [], ◌∷◌, ltb,
  if◌then◌else◌, ◌==◌, ==_iff, >>=-eq-some, some-injective, Bool-cases, true_is_false, length,
  get_elem?, get_or, set, get_or-set_self, get_or-set_ne, get_or-eq, length-set, In, In-append_left,
  In-append_right, arith, tests,
}
use catenary_backend.Common.Words.{u32_max, saturating_add32}
use catenary_backend.Common.Loops.{for_each, for_each_inv, for_each_holds}
use catenary_backend.Gentian.Index.{store_at}
use catenary_backend.Gentian.Refine.{
  Tau, visit, lower_arrival, lower_change, update_tau, reset_stop, reset,
}

-- The time read at a stop, `u32::MAX` out of range.
abbrev pub arrives_at : Tau → ℕ → ℕ
arrives_at tau s = get_or tau.tau_a s u32_max

abbrev pub changes_at : Tau → ℕ → ℕ
changes_at tau s = get_or tau.tau_c s u32_max

abbrev pub IsUnset : Tau → ℕ → Type 0
IsUnset tau s = (arrives_at tau s ≡ u32_max) × (changes_at tau s ≡ u32_max)

-- Every stop that has a time was visited.
unfoldable pub IsTracked : Tau → Type 0
IsTracked tau = (s : ℕ) → IsUnset tau s ⊎ In s tau.visited

-- One time was written at most, and only at the stop named; the lengths stay.
pub record Writes (stop time : ℕ) (xs ys : List ℕ) : Type 0 where
  pub value :
      (s : ℕ)
      → (get_or ys s u32_max ≡ get_or xs s u32_max) ⊎ ((s ≡ stop) × (get_or ys s u32_max ≡ time))
  pub size : length ys ≡ length xs

set-Writes :
    (xs : List ℕ) (stop time : ℕ) → stop < length xs → Writes stop time xs (set xs stop time)
set-Writes xs stop time inside = record {
  size = length-set xs stop time;
  value = λ s. elim (Bool-cases (stop == s)) [
    | inl same ↦
        let e = (==_iff stop s).0 same in
        inr (
          sym e,
          subst (λ x. get_or (set xs stop time) x u32_max ≡ time) e
              (get_or-set_self xs stop time u32_max inside),
        )
    | inr other ↦ inl (
        get_or-set_ne xs stop s time u32_max
          (λ e. absurd (true_is_false (sym ((==_iff stop s).1 e) ∙ other))))
  ];
}

same-Writes : (xs : List ℕ) (stop time : ℕ) → Writes stop time xs xs
same-Writes xs stop time = record { value = λ s. inl refl; size = refl }

-- The stop visited is listed after the visit, if it was where it had a time.
visit-In :
    (a c stop : ℕ) (visited : List ℕ)
    → ((a ≡ u32_max) × (c ≡ u32_max)) ⊎ In stop visited
    → In stop (visit a c stop visited) × ((s : ℕ) → In s visited → In s (visit a c stop visited))
visit-In a c stop visited h = elim (Bool-cases (a == u32_max && c == u32_max)) [
  | inl new ↦ rw new (
    In-append_right stop visited (stop ∷ []) (inl refl),
    λ s m. In-append_left s visited (stop ∷ []) m,
  )
  | inr old ↦ elim h [
    | inl (e, e') ↦ absurd (ground (arith, old, e, e'))
    | inr m ↦ rw old (m, λ s m. m)
  ]
]

module _ (stop time a c : ℕ) (tau : Tau) where
  lower_arrival-Writes :
      get_elem? tau.tau_a stop ≡ some a
      → Writes stop time tau.tau_a (lower_arrival stop time a c tau).tau_a
        × ((lower_arrival stop time a c tau).tau_c ≡ tau.tau_c)
  unfolding lower_arrival
  lower_arrival-Writes at = elim (Bool-cases (ltb time a)) [
    | inl less ↦
        rw less (set-Writes tau.tau_a stop time (get_or-eq tau.tau_a stop u32_max at).1, refl)
    | inr more ↦ rw more (same-Writes tau.tau_a stop time, refl)
  ]

  lower_change-Writes :
      get_elem? tau.tau_c stop ≡ some c
      → Writes stop time tau.tau_c (lower_change stop time a c tau).tau_c
        × ((lower_change stop time a c tau).tau_a ≡ tau.tau_a)
  unfolding lower_change
  lower_change-Writes at = elim (Bool-cases (ltb time c)) [
    | inl less ↦
        rw less (set-Writes tau.tau_c stop time (get_or-eq tau.tau_c stop u32_max at).1, refl)
    | inr more ↦ rw more (same-Writes tau.tau_c stop time, refl)
  ]

  lower_arrival-IsTracked :
      get_elem? tau.tau_a stop ≡ some a
      → get_elem? tau.tau_c stop ≡ some c
      → IsTracked tau
      → IsTracked (lower_arrival stop time a c tau)
  unfolding lower_arrival IsTracked
  lower_arrival-IsTracked at at' h = elim (Bool-cases (ltb time a)) [
    | inr more ↦ rw more h
    | inl less ↦
        let was : ((a ≡ u32_max) × (c ≡ u32_max)) ⊎ In stop tau.visited = elim (h stop) [
          | inl (e, e') ↦ inl (
            sym (get_or-eq tau.tau_a stop u32_max at).0 ∙ e,
            sym (get_or-eq tau.tau_c stop u32_max at').0 ∙ e',
          )
          | inr m ↦ inr m
        ] in
        let (here, kept) = visit-In a c stop tau.visited was in
        rw less (λ s.
          elim ((set-Writes tau.tau_a stop time (get_or-eq tau.tau_a stop u32_max at).1).value s) [
            | inr (e, _) ↦ inr (subst (λ x. In x (visit a c stop tau.visited)) (sym e) here)
            | inl same ↦ elim (h s) [ inl (e, e') ↦ inl (same ∙ e, e') | inr m ↦ inr (kept s m) ]
          ])
  ]

  lower_change-IsTracked :
      arrives_at tau stop ≡ a
      → get_elem? tau.tau_c stop ≡ some c
      → IsTracked tau
      → IsTracked (lower_change stop time a c tau)
  unfolding lower_change IsTracked
  lower_change-IsTracked at at' h = elim (Bool-cases (ltb time c)) [
    | inr more ↦ rw more h
    | inl less ↦
        let was : ((a ≡ u32_max) × (c ≡ u32_max)) ⊎ In stop tau.visited = elim (h stop) [
          | inl (e, e') ↦ inl (sym at ∙ e, sym (get_or-eq tau.tau_c stop u32_max at').0 ∙ e')
          | inr m ↦ inr m
        ] in
        let (here, kept) = visit-In a c stop tau.visited was in
        rw less (λ s.
          elim ((set-Writes tau.tau_c stop time (get_or-eq tau.tau_c stop u32_max at').1).value s) [
            | inr (e, _) ↦ inr (subst (λ x. In x (visit a c stop tau.visited)) (sym e) here)
            | inl same ↦ elim (h s) [ inl (e, e') ↦ inl (e, same ∙ e') | inr m ↦ inr (kept s m) ]
          ])
  ]

  -- The arrival that the closure reads after the first write.
  lower_arrival-arrives_at :
      get_elem? tau.tau_a stop ≡ some a
      → arrives_at (lower_arrival stop time a c tau) stop ≡ (if ltb time a then time else a)
  unfolding lower_arrival
  lower_arrival-arrives_at at = elim (Bool-cases (ltb time a)) [
    | inr more ↦ rw more (get_or-eq tau.tau_a stop u32_max at).0
    | inl less ↦
        rw less
          (get_or-set_self tau.tau_a stop time u32_max (get_or-eq tau.tau_a stop u32_max at).1)
  ]

-- An update writes one arrival at most, and keeps the list of visited stops complete.
pub update_tau-Writes :
    (change_times : List ℕ) (stop time : ℕ) (tau : Tau) {r : Tau × Bool}
    → update_tau change_times stop time tau ≡ some r
    → Writes stop time tau.tau_a r.0.tau_a × (IsTracked tau → IsTracked r.0)
unfolding update_tau
update_tau-Writes change_times stop time tau e =
    let (a, ea, e₁) = >>=-eq-some (get_elem? tau.tau_a stop) _ e in
    let (c, ec, e₂) = >>=-eq-some (get_elem? tau.tau_c stop) _ e₁ in
    let (change, eh, e₃) = >>=-eq-some (get_elem? change_times stop) _ e₂ in
    let arrived = lower_arrival stop time a c tau in
    let a_now = if ltb time a then time else a in
    let c_time = saturating_add32 time change in
    let (writes, same_c) = lower_arrival-Writes stop time a c tau ea in
    let ec' : get_elem? arrived.tau_c stop ≡ some c = ap (λ l. get_elem? l stop) same_c ∙ ec in
    let same_a = (lower_change-Writes stop c_time a_now c arrived ec').1 in
    subst
      (λ (t : Tau × Bool). Writes stop time tau.tau_a t.0.tau_a × (IsTracked tau → IsTracked t.0))
      (some-injective e₃)
      (
        subst (Writes stop time tau.tau_a) (sym same_a) writes,
        λ h.
            lower_change-IsTracked stop c_time a_now c arrived
              (lower_arrival-arrives_at stop time a c tau ea) ec'
              (lower_arrival-IsTracked stop time a c tau ea ec h),
      )

store_at-Writes :
    (xs : List ℕ) (x v : ℕ) {ys : List ℕ}
    → store_at xs x v ≡ some ys
    → Writes x v xs ys × (get_or ys x u32_max ≡ v)
unfolding store_at
store_at-Writes xs x v e = elim (Bool-cases (ltb x (length xs))) [
  | inr out ↦ absurd (ground (arith, rw out at e))
  | inl inside ↦
      let same : set xs x v ≡ _ = some-injective (rw inside at e) in
      let within : x < length xs = omega (tests, inside) in
      (
        subst (Writes x v xs) same (set-Writes xs x v within),
        ap (λ l. get_or l x u32_max) (sym same) ∙ get_or-set_self xs x v u32_max within,
      )
]

-- What a round of the reset does.
reset_stop-Writes :
    (x : ℕ) (u v : Tau)
    → reset_stop x u ≡ some v
    → Writes x u32_max u.tau_a v.tau_a × Writes x u32_max u.tau_c v.tau_c × IsUnset v x
unfolding reset_stop
reset_stop-Writes x u v e =
    let (times, ea, e₁) = >>=-eq-some (store_at u.tau_a x u32_max) _ e in
    let (changes, ec, e₂) = >>=-eq-some (store_at u.tau_c x u32_max) _ e₁ in
    let (wa, here) = store_at-Writes u.tau_a x u32_max ea in
    let (wc, here') = store_at-Writes u.tau_c x u32_max ec in
    subst (λ t. Writes x u32_max u.tau_a t.tau_a × Writes x u32_max u.tau_c t.tau_c × IsUnset t x)
      (some-injective e₂) (wa, wc, (here, here'))

module _ (tau : Tau) {fresh : Tau} where
  -- The reset of a buffer whose visited stops are listed leaves no time at any stop.
  pub reset-IsUnset : IsTracked tau → reset tau ≡ some fresh → (s : ℕ) → IsUnset fresh s
  unfolding reset IsTracked
  reset-IsUnset h e s =
      let (cleared, ec, e₁) = >>=-eq-some (for_each reset_stop tau.visited tau) _ e in
      let keeps : (x : ℕ) (u v : Tau) → IsUnset u s → reset_stop x u ≡ some v → IsUnset v s =
        λ x u v was e₂.
          let (wa, wc, _) = reset_stop-Writes x u v e₂ in
          (
            elim (wa.value s) [ inl same ↦ same ∙ was.0 | inr w ↦ w.1 ],
            elim (wc.value s) [ inl same ↦ same ∙ was.1 | inr w ↦ w.1 ],
          ) in
      subst (λ t. IsUnset t s) (some-injective e₁)
        (elim (h s) [
          | inl unset ↦
              for_each_inv (λ t. IsUnset t s) reset_stop tau.visited tau (λ x u v _. keeps x u v)
                unset ec
          | inr m ↦
              for_each_holds (λ t. IsUnset t s) reset_stop s tau.visited tau keeps
                (λ u v e₂. (reset_stop-Writes s u v e₂).2) m ec
        ])

  pub length-reset : reset tau ≡ some fresh → length fresh.tau_a ≡ length tau.tau_a
  unfolding reset
  length-reset e =
      let (cleared, ec, e₁) = >>=-eq-some (for_each reset_stop tau.visited tau) _ e in
      subst (λ t. length t.tau_a ≡ length tau.tau_a) (some-injective e₁)
        (for_each_inv (λ t. length t.tau_a ≡ length tau.tau_a) reset_stop tau.visited tau
          (λ x u v _ same e₂. (reset_stop-Writes x u v e₂).0.size ∙ same) refl ec)
