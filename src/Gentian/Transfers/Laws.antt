-- ===== src/Gentian/Transfers/Laws.antt =====
-- Every candidate transfer can be made: the trip that it boards leaves after the walk.
use mathlib.Core.Path.{subst}
use catenary_backend.Common.{
  ℕ, ◌+◌, ◌≤◌, ◌≡◌, ◌≢◌, refl, sym, ◌⊎◌, inl, inr, true, false, Option, none, some, List, [], ◌∷◌,
  ◌++◌, leb, ◌==◌, ◌>>=◌, >>=-eq-some, some-injective, Bool-cases, length, get_elem?, any, In,
  In-append, arith,
}
use catenary_backend.Common.Words.{add32}
use catenary_backend.Common.Loops.{enumerate, for_each_inv, In-enumerate_zero}
use catenary_backend.Transit.{TransitPartition, TripPattern}
use catenary_backend.Gentian.Index.{StopIndex, pattern_stops, build_stop_to_patterns}
use catenary_backend.Gentian.Index.Laws.{row-get_elem?, stop_at, build_stop_to_patterns_lem}
use catenary_backend.Gentian.Earliest.{earliest_trip, trip_departure}
use catenary_backend.Gentian.Earliest.Laws.{earliest_trip-IsLate}
use catenary_backend.Gentian.Transfers.{
  Transfer, Target, Candidates, Source, same_target, is_valid, make_transfer, offer, try_pattern,
  try_patterns, try_footpath, try_footpaths, try_stop, trip_candidates,
}

-- The departure of the boarded trip at the stop where it is boarded.
unfoldable pub target_departure : TransitPartition → Target → Option ℕ
target_departure partition target = do
  pattern ← get_elem? partition.trip_patterns target.pattern_idx
  trip_departure partition pattern.trips target.stop_idx target.trip_idx

-- An offer changes nothing, or it adds the transfer to a valid target.
offer_cases :
    (source : Source) (target : Target) (n walk : ℕ) (c : Candidates)
    → ((offer source target n walk c).found ≡ c.found)
      ⊎ ((is_valid source target ≡ true)
          × ((offer source target n walk c).found
              ≡ c.found ++ make_transfer source target walk ∷ []))
unfolding offer
offer_cases source target n walk c = elim (Bool-cases (target.stop_idx + 1 == n)) [
  | inl a ↦ inl (rw a)
  | inr a ↦ elim (Bool-cases (is_valid source target)) [
    | inr b ↦ inl (rw (a, b))
    | inl b ↦ elim (Bool-cases (any (same_target target) c.seen)) [
      | inl d ↦ inl (rw (a, b, d))
      | inr d ↦ inr (b, rw (a, b, d))
    ]
  ]
]

module _ (partition : TransitPartition) (footpaths : List (List (ℕ × ℕ)))
    (arrivals stops : List ℕ) where
  -- A transfer from the walked trip that a traveller can make: from a stop after the first, over a
  -- footpath, to a valid target that visits the stop reached and leaves no earlier than the walk ends.
  pub record IsBoardable (p_idx t_idx : ℕ) (tr : Transfer) : Type 0 where
    pub i : ℕ
    pub target : Target
    pub stop : ℕ
    pub reached : ℕ
    pub paths : List (ℕ × ℕ)
    pub arr : ℕ
    pub dep : ℕ
    pub is : tr ≡ make_transfer (record { p_idx = p_idx; t_idx = t_idx; i = i }) target tr.duration
    pub after_first : i ≢ 0
    pub here : get_elem? stops i ≡ some stop
    pub arrives : get_elem? arrivals i ≡ some arr
    pub paths_here : get_elem? footpaths stop ≡ some paths
    pub walk : In (reached, tr.duration) paths
    pub visits : stop_at partition target.pattern_idx target.stop_idx ≡ some reached
    pub departs : target_departure partition target ≡ some dep
    pub in_time : add32 arr tr.duration ≤ dep
    pub valid : is_valid (record { p_idx = p_idx; t_idx = t_idx; i = i }) target ≡ true

  module _ (p_idx t_idx : ℕ) where
    abbrev AllBoardable : List Transfer → Type 0
    AllBoardable found = (tr : Transfer) → In tr found → IsBoardable p_idx t_idx tr

    abbrev source : ℕ → Source
    source i = record { p_idx = p_idx; t_idx = t_idx; i = i }

    offer-AllBoardable :
        (i n walk : ℕ) (target : Target) (c : Candidates)
        → (is_valid (source i) target ≡ true
            → IsBoardable p_idx t_idx (make_transfer (source i) target walk))
        → AllBoardable c.found
        → AllBoardable (offer (source i) target n walk c).found
    unfolding offer
    offer-AllBoardable i n walk target c new old tr m =
        elim (offer_cases (source i) target n walk c) [
          | inl same ↦ old tr (subst (In tr) same m)
          | inr (valid, more) ↦
              elim (In-append tr c.found (make_transfer (source i) target walk ∷ [])
                (subst (In tr) more m)) [
                  | inl before ↦ old tr before
                  | inr (inl is) ↦ subst (IsBoardable p_idx t_idx) (sym is) (new valid)
                  | inr (inr never) ↦ elim never [ ]
                ]
        ]

    try_pattern-AllBoardable :
        (i stop reached walk arr : ℕ) (paths : List (ℕ × ℕ)) (x : ℕ × ℕ) (u v : Candidates)
        → i ≢ 0
        → get_elem? stops i ≡ some stop
        → get_elem? arrivals i ≡ some arr
        → get_elem? footpaths stop ≡ some paths
        → In (reached, walk) paths
        → stop_at partition x.0 x.1 ≡ some reached
        → AllBoardable u.found
        → try_pattern partition (source i) walk (add32 arr walk) x u ≡ some v
        → AllBoardable v.found
    unfolding try_pattern target_departure
    try_pattern-AllBoardable i stop reached walk arr paths (cp, cs) u v first here at out w vis old
          e =
        let (pattern, p_at, e₁) = >>=-eq-some (get_elem? partition.trip_patterns cp) _ e in
        let (lo, e_lo, e₂) =
          >>=-eq-some (earliest_trip partition pattern.trips cs (add32 arr walk)) _ e₁ in
        elim (Bool-cases (leb (length pattern.trips) lo)) [
          | inl past ↦ subst (λ c. AllBoardable c.found) (some-injective (rw past at e₂)) old
          | inr within ↦
              let (around, found, e₃) =
                >>=-eq-some (pattern_stops partition pattern) _ (rw within at e₂) in
              subst (λ c. AllBoardable c.found) (some-injective e₃)
                (offer-AllBoardable i (length around) walk (target lo) u
                  (boardable pattern p_at lo e_lo within) old)
        ]
      where
        target : ℕ → Target
        target lo = record { pattern_idx = cp; trip_idx = lo; stop_idx = cs }

        boardable :
            (pattern : TripPattern)
            → get_elem? partition.trip_patterns cp ≡ some pattern
            → (lo : ℕ) → earliest_trip partition pattern.trips cs (add32 arr walk) ≡ some lo
            → leb (length pattern.trips) lo ≡ false
            → is_valid (source i) (target lo) ≡ true
            → IsBoardable p_idx t_idx (make_transfer (source i) (target lo) walk)
        boardable pattern p_at lo e_lo within valid =
            elim (earliest_trip-IsLate partition pattern.trips cs (add32 arr walk) e_lo) [
              | inl end ↦ absurd (ground arith)
              | inr (dep, departs, late) ↦ record {
                i = i;
                target = target lo;
                stop = stop;
                reached = reached;
                paths = paths;
                arr = arr;
                dep = dep;
                is = refl;
                after_first = first;
                here = here;
                arrives = at;
                paths_here = out;
                walk = w;
                visits = vis;
                departs = rw p_at departs;
                in_time = late;
                valid = valid;
              }
            ]

    module _ (index : StopIndex) (built : build_stop_to_patterns partition ≡ some index) where
      try_footpath-AllBoardable :
          (i stop arr : ℕ) (paths : List (ℕ × ℕ)) (x : ℕ × ℕ) (u v : Candidates)
          → i ≢ 0
          → get_elem? stops i ≡ some stop
          → get_elem? arrivals i ≡ some arr
          → get_elem? footpaths stop ≡ some paths
          → In x paths
          → AllBoardable u.found
          → try_footpath partition index (source i) arr x u ≡ some v
          → AllBoardable v.found
      unfolding try_footpath try_patterns
      try_footpath-AllBoardable i stop arr paths (q, walk) u v first here at out w old e =
          go (get_elem? index q) refl e
        where
          go :
              (visits : Option (List (ℕ × ℕ)))
              → get_elem? index q ≡ visits
              → try_patterns partition (source i) walk (add32 arr walk) visits u ≡ some v
              → AllBoardable v.found
          go none is h = subst (λ c. AllBoardable c.found) (some-injective h) old
          go (some visits) is h =
              for_each_inv (λ c. AllBoardable c.found)
                (try_pattern partition (source i) walk (add32 arr walk)) visits u
                (λ x a b m.
                  try_pattern-AllBoardable i stop q walk arr paths x a b first here at out w (
                    (build_stop_to_patterns_lem partition index built q x.0 x.1).0
                      (subst (λ l. In x l) (sym (row-get_elem? index q is)) m)))
                old h

      try_stop-AllBoardable :
          (x : ℕ × ℕ) (u v : List Transfer)
          → In x (enumerate 0 stops)
          → AllBoardable u
          → try_stop partition index footpaths arrivals p_idx t_idx x u ≡ some v
          → AllBoardable v
      unfolding try_stop try_footpaths
      try_stop-AllBoardable (i, stop) u v m old e = elim (Bool-cases (i == 0)) [
        | inl zero_th ↦ subst AllBoardable (some-injective (rw zero_th at e)) old
        | inr later ↦
            let (arr, at, e₁) = >>=-eq-some (get_elem? arrivals i) _ (rw later at e) in
            let (c, loop, e₂) =
              >>=-eq-some
                (try_footpaths partition index (source i) arr (get_elem? footpaths stop) u) _ e₁ in
            subst AllBoardable (some-injective e₂)
              (go (ground arith) arr at (get_elem? footpaths stop) refl c loop)
      ]
        where
          go :
              i ≢ 0
              → (arr : ℕ) → get_elem? arrivals i ≡ some arr
              → (o : Option (List (ℕ × ℕ))) → get_elem? footpaths stop ≡ o
              → (c : Candidates) → try_footpaths partition index (source i) arr o u ≡ some c
              → AllBoardable c.found
          go first arr at none out c loop =
              subst (λ d. AllBoardable d.found) (some-injective loop) old
          go first arr at (some paths) out c loop =
              for_each_inv (λ d. AllBoardable d.found) (try_footpath partition index (source i) arr)
                paths _
                (λ y a b w.
                  try_footpath-AllBoardable i stop arr paths y a b first
                    (In-enumerate_zero i stop stops m) at out w)
                old loop

      -- Every candidate transfer of a trip can be made: it leaves the trip after its first stop, follows
      -- a footpath out of the stop, and boards a trip that calls at the stop reached no earlier than
      -- the arrival plus the walk; within one pattern it reaches an earlier trip or an earlier stop.
      pub trip_candidates-IsBoardable :
          {found : List Transfer}
          → trip_candidates partition index footpaths arrivals p_idx t_idx stops ≡ some found
          → (tr : Transfer) → In tr found
          → IsBoardable p_idx t_idx tr
      unfolding trip_candidates
      trip_candidates-IsBoardable e =
          for_each_inv AllBoardable (try_stop partition index footpaths arrivals p_idx t_idx)
            (enumerate 0 stops) [] try_stop-AllBoardable (λ tr m. elim m [ ]) e
