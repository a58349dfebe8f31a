-- ===== src/Gentian/RefineAll/Ranges.antt =====
-- The range of a trip holds transfers that leave that trip.
use mathlib.Core.Path.{subst}
use catenary_backend.Common.{
  ℕ, zero, suc, ◌+◌, ◌-◌, ◌<◌, ◌≤◌, ◌≡◌, refl, sym, ap, ◌∙◌, inl, inr, Bool, true, ◌&&◌, some, List,
  [], ◌∷◌, ◌==◌, ==_iff, some-injective, Bool-cases, Option-cases, get_elem?, find?, In, arith,
}
use catenary_backend.Gentian.Transfers.{Transfer}
use catenary_backend.Gentian.Profile.{TripRange}
use catenary_backend.Gentian.Profile.Forward.{indices_from, range_indices}
use catenary_backend.Gentian.RefineAll.{leaves_trip, ranges_from, trip_transfer_ranges}

abbrev pub Leaves : ℕ → ℕ → Transfer → Type 0
Leaves p t tr = (tr.from_pattern_idx ≡ p) × (tr.from_trip_idx ≡ t)

leaves_trip-Leaves : (p t : ℕ) (tr : Transfer) → leaves_trip p t tr ≡ true → Leaves p t tr
leaves_trip-Leaves p t tr h = elim (Bool-cases (tr.from_pattern_idx == p)) [
  | inl a ↦ elim (Bool-cases (tr.from_trip_idx == t)) [
    | inl b ↦ ((==_iff _ _).0 a, (==_iff _ _).0 b)
    | inr b ↦ absurd (ground (arith, h, a, b))
  ]
  | inr a ↦ absurd (ground (arith, h, a))
]

module _ (transfers : List Transfer) where
  -- The transfers at the indices of the range leave its trip.
  abbrev IsRange : TripRange → Type 0
  IsRange r =
      (k : ℕ) (tr : Transfer)
      → r.start ≤ k
      → k < r.end
      → get_elem? transfers k ≡ some tr
      → Leaves r.pattern_idx r.trip_idx tr

  abbrev AllRanges : List TripRange → Type 0
  AllRanges ranges = (r : TripRange) → In r ranges → IsRange r

  ranges_from-AllRanges :
      (start p t end : ℕ) (rest : List Transfer) (ranges : List TripRange)
      → ((j : ℕ) → get_elem? rest j ≡ get_elem? transfers (end + j))
      → IsRange (record { pattern_idx = p; trip_idx = t; start = start; end = end })
      → AllRanges ranges
      → AllRanges (ranges_from start p t end rest ranges)
  unfolding ranges_from
  ranges_from-AllRanges start p t end [] ranges suffix here all =
      λ r m. elim m [ inl e ↦ subst IsRange (sym e) here | inr m ↦ all r m ]
  ranges_from-AllRanges start p t end (tr ∷ rest) ranges suffix here all =
      let at_end : get_elem? transfers end ≡ some tr =
        let e : end + 0 ≡ end = omega arith in ap (get_elem? transfers) (sym e) ∙ sym (suffix 0) in
      let next : (j : ℕ) → get_elem? rest j ≡ get_elem? transfers (end + 1 + j) = λ j.
        let e : end + suc j ≡ end + 1 + j = omega arith in
        suffix (suc j) ∙ ap (get_elem? transfers) e in
      elim (Bool-cases (leaves_trip p t tr)) [
        | inl same ↦
            rw (same, ranges_from)
              (ranges_from-AllRanges start p t (end + 1) rest ranges next
                (λ k x low high at.
                  last k x at_end low high at (leaves_trip-Leaves p t tr same) here)
                all)
        | inr other ↦
            rw (other, ranges_from)
              (ranges_from-AllRanges end tr.from_pattern_idx tr.from_trip_idx (end + 1) rest
                (record { pattern_idx = p; trip_idx = t; start = start; end = end } ∷ ranges) next
                (λ k x low high at.
                  let e : k ≡ end = omega arith in
                  let same : tr ≡ x =
                    some-injective (sym at_end ∙ (ap (get_elem? transfers) (sym e) ∙ at)) in
                  subst (Leaves tr.from_pattern_idx tr.from_trip_idx) same (refl, refl))
                (λ r m. elim m [ inl e ↦ subst IsRange (sym e) here | inr m ↦ all r m ]))
      ]
    where
      last :
          (k : ℕ) (x : Transfer)
          → get_elem? transfers end ≡ some tr
          → start ≤ k
          → k < end + 1
          → get_elem? transfers k ≡ some x
          → Leaves p t tr
          → IsRange (record { pattern_idx = p; trip_idx = t; start = start; end = end })
          → Leaves p t x
      last k x at_end low high at leaves here = elim (Bool-cases (k == end)) [
        | inl same ↦
            let e = (==_iff k end).0 same in
            subst (Leaves p t)
              (some-injective (sym at_end ∙ (ap (get_elem? transfers) (sym e) ∙ at))) leaves
        | inr differs ↦ here k x low (ground (arith, high, differs)) at
      ]

trip_transfer_ranges-AllRanges :
    (transfers : List Transfer) → AllRanges transfers (trip_transfer_ranges transfers)
unfolding trip_transfer_ranges
trip_transfer_ranges-AllRanges [] = λ r m. absurd m
trip_transfer_ranges-AllRanges (tr ∷ rest) =
    ranges_from-AllRanges (tr ∷ rest) 0 tr.from_pattern_idx tr.from_trip_idx 1 rest []
      (λ j. let e : suc j ≡ 1 + j = omega arith in ap (get_elem? (tr ∷ rest)) e)
      (λ k x low high at.
        let e : 0 ≡ k = omega arith in
        subst (Leaves tr.from_pattern_idx tr.from_trip_idx)
          (some-injective (ap (get_elem? (tr ∷ rest)) e ∙ at)) (refl, refl))
      (λ r m. absurd m)

find?-In :
    {A : Type 0} (f : A → Bool) (xs : List A) {a : A} → find? f xs ≡ some a → In a xs × (f a ≡ true)
unfolding find?
find?-In f [] e = absurd (ground arith)
find?-In f (x ∷ xs) e = elim (Bool-cases (f x)) [
  | inl t ↦
      let same = some-injective (rw t at e) in (inl (sym same), subst (λ y. f y ≡ true) same t)
  | inr n ↦ let (m, h) = find?-In f xs (rw n at e) in (inr m, h)
]

pub In-indices_from : (k a n : ℕ) → In k (indices_from a n) → (a ≤ k) × (k < a + n)
unfolding indices_from
In-indices_from k a zero m = absurd m
In-indices_from k a (suc n) (inl e) = (omega (arith, e), omega (arith, e))
In-indices_from k a (suc n) (inr m) =
    let (low, high) = In-indices_from k (a + 1) n m in (omega arith, omega arith)

-- What the range of a trip lists, in the order of the list, are transfers that leave the trip.
pub range_indices-Leaves :
    (transfers : List Transfer) (p t k : ℕ) (tr : Transfer)
    → In k (
        range_indices
          (find? (λ r. r.pattern_idx == p && r.trip_idx == t) (trip_transfer_ranges transfers)))
    → get_elem? transfers k ≡ some tr
    → Leaves p t tr
unfolding range_indices
range_indices-Leaves transfers p t k tr m at =
    elim (Option-cases
      (find? (λ r. r.pattern_idx == p && r.trip_idx == t) (trip_transfer_ranges transfers))) [
        | inl none_found ↦ absurd (rw none_found at m)
        | inr (r, found) ↦
            let (within, same) = find?-In _ (trip_transfer_ranges transfers) found in
            let (low, high) = In-indices_from k r.start (r.end - r.start) (rw found at m) in
            let (e, e') =
              trip_transfer_ranges-AllRanges transfers r within k tr low (omega arith) at in
            let key : Leaves p t
                (record tr { from_pattern_idx = r.pattern_idx; from_trip_idx = r.trip_idx }) =
              leaves_trip-Leaves p t
                (record tr { from_pattern_idx = r.pattern_idx; from_trip_idx = r.trip_idx }) same in
            (e ∙ key.0, e' ∙ key.1)
      ]
