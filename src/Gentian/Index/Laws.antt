-- ===== src/Gentian/Index/Laws.antt =====
-- What the index of the stops lists: `build_stop_to_patterns` of src/gentian/trip_based.rs.
use mathlib.Core.Path.{subst, subst₂}
use native.Mathlib.Decide.{ℕ_discrete}
use catenary_backend.Common.{
  ℕ, zero, suc, ◌≡◌, ◌≢◌, ◌↔◌, refl, sym, ap, ◌∙◌, ◌⊎◌, inl, inr, Option, some, List, [], ◌∷◌, ◌++◌,
  ◌>>=◌, >>=-eq-some, some-injective, length, get_elem?, get_or, replicate, In, In-append,
  In-append_left, In-append_right, arith,
}
use catenary_backend.Common.Loops.{
  enumerate, for_each_inv, for_each_holds, In-enumerate_zero, In-enumerate_zero_intro,
}
use catenary_backend.Transit.{TransitPartition, TripPattern}
use catenary_backend.Gentian.Index.{
  push_at, pattern_stops, StopIndex, index_pattern, build_stop_to_patterns,
}

-- The list at an index of a list of lists.
abbrev pub row : {A : Type 0} → List (List A) → ℕ → List A
row rows i = get_or rows i []

pub row-get_elem? :
    {A : Type 0} (rows : List (List A)) (i : ℕ) {r : List A}
    → get_elem? rows i ≡ some r
    → row rows i ≡ r
row-get_elem? [] i e = absurd (ground arith)
row-get_elem? (x ∷ rows) zero e = some-injective e
row-get_elem? (x ∷ rows) (suc i) e = row-get_elem? rows i e

-- The stop that a pattern visits at a place.
unfoldable pub stop_at : TransitPartition → ℕ → ℕ → Option ℕ
stop_at partition p s = do
  pattern ← get_elem? partition.trip_patterns p
  stops ← pattern_stops partition pattern
  get_elem? stops s

module _ {A : Type 0} where
  row-push_at_self :
      (rows : List (List A)) (i : ℕ) (x : A) {rows' : List (List A)}
      → push_at rows i x ≡ some rows'
      → row rows' i ≡ row rows i ++ x ∷ []
  unfolding push_at
  row-push_at_self [] i x e = absurd (ground arith)
  row-push_at_self (r ∷ rows) zero x e = ap (λ l. row l 0) (sym (some-injective e))
  row-push_at_self (r ∷ rows) (suc i) x e =
      let (rest, f, h) = >>=-eq-some (push_at rows i x) _ e in
      ap (λ l. row l (suc i)) (sym (some-injective h)) ∙ row-push_at_self rows i x f

  row-push_at_ne :
      (rows : List (List A)) (i j : ℕ) (x : A) {rows' : List (List A)}
      → push_at rows i x ≡ some rows'
      → i ≢ j
      → row rows' j ≡ row rows j
  unfolding push_at
  row-push_at_ne [] i j x e ne = absurd (ground arith)
  row-push_at_ne (r ∷ rows) zero zero x e ne = absurd (ne refl)
  row-push_at_ne (r ∷ rows) zero (suc j) x e ne = ap (λ l. row l (suc j)) (sym (some-injective e))
  row-push_at_ne (r ∷ rows) (suc i) zero x e ne =
      let (rest, f, h) = >>=-eq-some (push_at rows i x) _ e in
      ap (λ l. row l 0) (sym (some-injective h))
  row-push_at_ne (r ∷ rows) (suc i) (suc j) x e ne =
      let (rest, f, h) = >>=-eq-some (push_at rows i x) _ e in
      ap (λ l. row l (suc j)) (sym (some-injective h))
      ∙ row-push_at_ne rows i j x f (λ same. ne (ap suc same))

  -- What a push adds is the pushed value, in its row.
  pub In-push_at :
      (rows : List (List A)) (i j : ℕ) (x y : A) {rows' : List (List A)}
      → push_at rows i x ≡ some rows'
      → In y (row rows' j)
      → In y (row rows j) ⊎ ((i ≡ j) × (y ≡ x))
  In-push_at rows i j x y {rows'} e m = elim (ℕ_discrete i j) [
    | yes p ↦
        elim (In-append y (row rows j) (x ∷ []) (
          subst (λ l. In y l)
            (subst (λ k. row rows' k ≡ row rows k ++ x ∷ []) p (row-push_at_self rows i x e)) m)) [
              | inl old ↦ inl old
              | inr (inl same) ↦ inr (p, same)
              | inr (inr never) ↦ elim never [ ]
            ]
    | no p ↦ inl (subst (λ l. In y l) (row-push_at_ne rows i j x e p) m)
  ]

  pub In-push_at_old :
      (rows : List (List A)) (i j : ℕ) (x y : A) {rows' : List (List A)}
      → push_at rows i x ≡ some rows'
      → In y (row rows j)
      → In y (row rows' j)
  In-push_at_old rows i j x y {rows'} e m = elim (ℕ_discrete i j) [
    | yes p ↦
        subst (λ l. In y l)
          (sym (subst (λ k. row rows' k ≡ row rows k ++ x ∷ []) p (row-push_at_self rows i x e)))
          (In-append_left y (row rows j) (x ∷ []) m)
    | no p ↦ subst (λ l. In y l) (sym (row-push_at_ne rows i j x e p)) m
  ]

  pub In-push_at_new :
      (rows : List (List A)) (i : ℕ) (x : A) {rows' : List (List A)}
      → push_at rows i x ≡ some rows'
      → In x (row rows' i)
  In-push_at_new rows i x e =
      subst (λ l. In x l) (sym (row-push_at_self rows i x e))
        (In-append_right x (row rows i) (x ∷ []) (inl refl))

  pub row-replicate : (n j : ℕ) (y : A) → In y (row (replicate n []) j) → ⊥
  row-replicate zero j y m = elim m [ ]
  row-replicate (suc n) zero y m = elim m [ ]
  row-replicate (suc n) (suc j) y m = row-replicate n j y m

module _ (partition : TransitPartition) where
  -- Every entry under a stop is a visit of it.
  abbrev IsSound : StopIndex → Type 0
  IsSound index = (stop p s : ℕ) → In (p, s) (row index stop) → stop_at partition p s ≡ some stop

  index_pattern-IsSound :
      (x : ℕ × TripPattern) (u v : StopIndex)
      → In x (enumerate 0 partition.trip_patterns)
      → IsSound u
      → index_pattern partition x u ≡ some v
      → IsSound v
  unfolding index_pattern stop_at
  index_pattern-IsSound (q, pattern) u v m sound e =
      let (stops, found, loop) = >>=-eq-some (pattern_stops partition pattern) _ e in
      for_each_inv IsSound _ (enumerate 0 stops) u (visit stops found) sound loop
    where
      visit :
          (stops : List ℕ)
          → pattern_stops partition pattern ≡ some stops
          → (y : ℕ × ℕ) (a b : StopIndex) → In y (enumerate 0 stops)
          → IsSound a
          → push_at a y.1 (q, y.0) ≡ some b
          → IsSound b
      visit stops found (k, at) a b mk h push stop p s entry =
          elim (In-push_at a at stop (q, k) (p, s) push entry) [
            | inl old ↦ h stop p s old
            | inr (here, same) ↦
                let k_at = In-enumerate_zero k at stops mk in
                let q_at = In-enumerate_zero q pattern partition.trip_patterns m in
                subst₂ (λ (n : ℕ × ℕ) (w : ℕ). stop_at partition n.0 n.1 ≡ some w) (sym same) here
                  (rw (q_at, found) k_at)
          ]

  index_pattern_keeps :
      (stop : ℕ) (entry : ℕ × ℕ) (x : ℕ × TripPattern) (u v : StopIndex)
      → In entry (row u stop)
      → index_pattern partition x u ≡ some v
      → In entry (row v stop)
  unfolding index_pattern
  index_pattern_keeps stop entry (q, pattern) u v h e =
      let (stops, found, loop) = >>=-eq-some (pattern_stops partition pattern) _ e in
      for_each_inv (λ rows. In entry (row rows stop)) _ (enumerate 0 stops) u
        (λ y a b _ old push. In-push_at_old a y.1 stop (q, y.0) entry push old) h loop

  index_pattern_adds :
      (p s stop : ℕ) (pattern : TripPattern) (stops : List ℕ) (u v : StopIndex)
      → pattern_stops partition pattern ≡ some stops
      → get_elem? stops s ≡ some stop
      → index_pattern partition (p, pattern) u ≡ some v
      → In (p, s) (row v stop)
  unfolding index_pattern
  index_pattern_adds p s stop pattern stops u v found here e =
      for_each_holds (λ rows. In (p, s) (row rows stop))
        (λ visit rows. push_at rows visit.1 (p, visit.0)) (s, stop) (enumerate 0 stops) u
        (λ y a b old push. In-push_at_old a y.1 stop (p, y.0) (p, s) push old)
        (λ a b push. In-push_at_new a stop (p, s) push) (In-enumerate_zero_intro s stop stops here)
        (rw found at e)

pub stop_at_inv :
    (partition : TransitPartition) (p s : ℕ) {stop : ℕ}
    → stop_at partition p s ≡ some stop
    → (pattern : TripPattern) × (stops : List ℕ) × (get_elem? partition.trip_patterns p
        ≡ some pattern)
      × (pattern_stops partition pattern ≡ some stops)
      × (get_elem? stops s ≡ some stop)
unfolding stop_at
stop_at_inv partition p s h =
    let (pattern, e₁, h₁) = >>=-eq-some (get_elem? partition.trip_patterns p) _ h in
    let (stops, e₂, h₂) = >>=-eq-some (pattern_stops partition pattern) _ h₁ in
    (pattern, stops, e₁, e₂, h₂)

-- The index of the stops lists under a stop exactly the places at which a pattern visits it: it
-- invents no visit and it misses none.
pub build_stop_to_patterns_lem :
    (partition : TransitPartition) (index : StopIndex)
    → build_stop_to_patterns partition ≡ some index
    → (stop p s : ℕ) → In (p, s) (row index stop) ↔ (stop_at partition p s ≡ some stop)
unfolding build_stop_to_patterns
build_stop_to_patterns_lem partition index e stop p s = (sound, complete)
  where
    sound : In (p, s) (row index stop) → stop_at partition p s ≡ some stop
    sound =
        for_each_inv (IsSound partition) (index_pattern partition)
          (enumerate 0 partition.trip_patterns) _ (index_pattern-IsSound partition)
          (λ stop' p' s' m. absurd (row-replicate (length partition.stops) stop' (p', s') m)) e stop
          p s

    complete : stop_at partition p s ≡ some stop → In (p, s) (row index stop)
    complete h =
        let (pattern, stops, q_at, found, here) = stop_at_inv partition p s h in
        for_each_holds (λ rows. In (p, s) (row rows stop)) (index_pattern partition) (p, pattern)
          (enumerate 0 partition.trip_patterns) _
          (λ y u v old. index_pattern_keeps partition stop (p, s) y u v old)
          (λ u v. index_pattern_adds partition p s stop pattern stops u v found here)
          (In-enumerate_zero_intro p pattern partition.trip_patterns q_at) e
