-- ===== src/Gentian/Refine/Served.antt =====
-- A transfer that is removed was not needed: the transfers that are kept serve what it reached.
use mathlib.Core.Path.{subst}
use mathlib.Core.List.{reverse}
use native.Mathlib.Nat.{le_refl, le_trans}
use catenary_backend.Common.{
  ℕ, ◌+◌, ◌≤◌, ◌<◌, ◌≡◌, refl, sym, ◌∙◌, ◌⊎◌, inl, inr, Bool, false, some, List, [], ◌∷◌, leb, ◌==◌,
  ==_iff, >>=-eq-some, some-injective, Bool-cases, length, get_elem?, get_elem?-eq-get_or, In,
  In-append_left, In-append_right, arith,
}
use catenary_backend.Common.Words.{u32_max, add32}
use catenary_backend.Common.Loops.{for_each, for_each_reverse, enumerate}
use catenary_backend.Common.Sorting.{sort_by, In-sort_by_intro, In-reverse_intro}
use catenary_backend.Transit.{TransitPartition, CompressedTrip}
use catenary_backend.Gentian.Times.{trip_arrivals}
use catenary_backend.Gentian.Index.Laws.{stop_at}
use catenary_backend.Gentian.Transfers.{Transfer}
use catenary_backend.Gentian.Refine.{
  Tau, arrive, try_transfer, Scan, scan_transfers, scan_stop, reset, by_from_stop,
  refine_transfers_for_trip,
}
use catenary_backend.Gentian.Refine.Covers.{boarded_arrival, try_transfer_covers}
use catenary_backend.Gentian.Refine.Kept.{Offers, Updates, arrive_kept, try_transfer_kept}
use catenary_backend.Gentian.Refine.Visited.{
  arrives_at, IsTracked, update_tau-Writes, reset-IsUnset, length-reset,
}

module _ (partition : TransitPartition) (footpaths : List (List (ℕ × ℕ)))
    (stops arrivals : List ℕ) where
  -- A passenger who stays on the trip up to its stop `from` at least can be at the stop at that time:
  -- on the trip, or on the trip that a kept transfer boards.
  pub data Rides (kept : List Transfer) (from : ℕ) : ℕ → ℕ → Type 0 where
    stay :
        (i s arr : ℕ)
        → from ≤ i
        → get_elem? stops i ≡ some s
        → get_elem? arrivals i ≡ some arr
        → Rides kept from s arr
    change :
        (tr : Transfer) (j s arr : ℕ)
        → In tr kept
        → from ≤ tr.from_stop_idx_in_pattern
        → tr.to_stop_idx_in_pattern < j
        → stop_at partition tr.to_pattern_idx j ≡ some s
        → boarded_arrival partition tr j ≡ some arr
        → Rides kept from s arr

  -- The same, with a walk in the end.
  pub data Arrives (kept : List Transfer) (from : ℕ) : ℕ → ℕ → Type 0 where
    rides : (s arr : ℕ) → Rides kept from s arr → Arrives kept from s arr
    walks :
        (s arr : ℕ) (paths : List (ℕ × ℕ)) (walk : ℕ × ℕ)
        → Rides kept from s arr
        → get_elem? footpaths s ≡ some paths
        → In walk paths
        → Arrives kept from walk.0 (add32 arr walk.1)

  -- Where the trip that the transfer boards arrives, kept transfers bring the passenger as early.
  abbrev pub IsServed : ℕ → List Transfer → Transfer → Type 0
  IsServed n kept tr =
      (j s arr : ℕ)
      → tr.to_stop_idx_in_pattern < j
      → stop_at partition tr.to_pattern_idx j ≡ some s
      → boarded_arrival partition tr j ≡ some arr
      → s < n
      → arr < u32_max
      → (arr' : ℕ) × (arr' ≤ arr) × Arrives kept tr.from_stop_idx_in_pattern s arr'

  abbrev More : List Transfer → List Transfer → Type 0
  More kept later = (tr : Transfer) → In tr kept → In tr later

  Rides-More :
      {kept later : List Transfer} {from earlier : ℕ}
      → More kept later
      → earlier ≤ from
      → (s arr : ℕ) → Rides kept from s arr
      → Rides later earlier s arr
  Rides-More more before s arr (stay i _ _ after at calls) =
      stay i s arr (le_trans before after) at calls
  Rides-More more before s arr (change tr j _ _ m after later at calls) =
      change tr j s arr (more tr m) (le_trans before after) later at calls

  Arrives-More :
      {kept later : List Transfer} {from earlier : ℕ}
      → More kept later
      → earlier ≤ from
      → (s arr : ℕ) → Arrives kept from s arr
      → Arrives later earlier s arr
  Arrives-More more before _ _ (rides s arr r) = rides s arr (Rides-More more before s arr r)
  Arrives-More more before _ _ (walks s arr paths walk r at m) =
      walks s arr paths walk (Rides-More more before s arr r) at m

  pub IsServed-More :
      {n : ℕ} {kept later : List Transfer}
      → More kept later
      → (tr : Transfer) → IsServed n kept tr
      → IsServed n later tr
  IsServed-More more tr served j s arr after at calls inside finite =
      let (arr', early, a) = served j s arr after at calls inside finite in
      (arr', early, Arrives-More more (le_refl _) s arr' a)

  -- Each time known stands for a journey.
  pub record IsJustified (n : ℕ) (kept : List Transfer) (from : ℕ) (tau : Tau) : Type 0 where
    pub size : length tau.tau_a ≡ n
    pub tracked : IsTracked tau
    pub times : (s : ℕ) → (arrives_at tau s ≡ u32_max) ⊎ Arrives kept from s (arrives_at tau s)

  pub IsJustified-More :
      {n : ℕ} {kept later : List Transfer} {from earlier : ℕ} {tau : Tau}
      → More kept later
      → earlier ≤ from
      → IsJustified n kept from tau
      → IsJustified n later earlier tau
  IsJustified-More {tau} more before h = record {
    size = h.size;
    tracked = h.tracked;
    times = λ s. elim (h.times s) [
      | inl unset ↦ inl unset
      | inr a ↦ inr (Arrives-More more before s (arrives_at tau s) a)
    ];
  }

  module _ (change_times : List ℕ) where
    pub IsJustified-Updates :
        (n : ℕ) (kept : List Transfer) (from : ℕ)
        → Updates change_times footpaths (IsJustified n kept from) (Arrives kept from)
    IsJustified-Updates n kept from stop time tau r arrives h e =
        let (writes, tracked) = update_tau-Writes change_times stop time tau e in
        record {
          size = writes.size ∙ h.size;
          tracked = tracked h.tracked;
          times = λ s. elim (writes.value s) [
            | inr (here, value) ↦ inr (
                subst (Arrives kept from s) (sym value)
                  (subst (λ x. Arrives kept from x time) (sym here) arrives))
            | inl same ↦ elim (h.times s) [
              | inl unset ↦ inl (same ∙ unset)
              | inr a ↦ inr (subst (Arrives kept from s) (sym same) a)
            ]
          ];
        }

    pub Rides-Offers :
        (n : ℕ) (kept : List Transfer) (from s arr : ℕ)
        → Rides kept from s arr
        → Offers change_times footpaths (IsJustified n kept from) (Arrives kept from) s arr
    Rides-Offers n kept from s arr r =
        (rides s arr r, λ paths walk at m. walks s arr paths walk r at m)

    -- A transfer that was of use justifies the times that it lowered.
    pub try_useful :
        (n : ℕ) (kept : List Transfer) (tr : Transfer) (tau : Tau) {r : Tau × Bool}
        → IsJustified n kept tr.from_stop_idx_in_pattern tau
        → try_transfer partition change_times footpaths tr tau ≡ some r
        → IsJustified n (tr ∷ kept) tr.from_stop_idx_in_pattern r.0
    try_useful n kept tr tau h e =
        let from = tr.from_stop_idx_in_pattern in
        try_transfer_kept change_times footpaths (IsJustified n (tr ∷ kept) from)
          (Arrives (tr ∷ kept) from) (IsJustified-Updates n (tr ∷ kept) from) partition tr tau
          (λ j s arr later at calls.
            Rides-Offers n (tr ∷ kept) from s arr
              (change tr j s arr (inl refl) (le_refl _) later at calls))
          (IsJustified-More (λ x m. inr m) (le_refl _) h) e

    -- One that was of no use is served by the others.
    pub try_useless :
        (n : ℕ) (kept : List Transfer) (tr : Transfer) (tau : Tau) {r : Tau × Bool}
        → IsJustified n kept tr.from_stop_idx_in_pattern tau
        → try_transfer partition change_times footpaths tr tau ≡ some r
        → r.1 ≡ false
        → IsJustified n kept tr.from_stop_idx_in_pattern r.0 × IsServed n kept tr
    try_useless n kept tr tau {r} h e useless =
        let (_, covered, idle) = try_transfer_covers change_times footpaths partition tr tau e in
        let h' : IsJustified n kept tr.from_stop_idx_in_pattern r.0 =
          subst (IsJustified n kept tr.from_stop_idx_in_pattern) (sym (idle useless)) h in
        (
          h',
          λ j s arr later at calls inside finite.
              let early : arrives_at r.0 s ≤ arr = omega (
                arith,
                covered j s arr later at calls,
                some-injective (
                    sym (get_elem?-eq-get_or r.0.tau_a s 0 (omega (arith, h'.size)))
                    ∙ get_elem?-eq-get_or r.0.tau_a s u32_max (omega (arith, h'.size))),
              ) in
              elim (h'.times s) [
                | inl unset ↦ absurd (omega (arith, unset, early))
                | inr a ↦ (arrives_at r.0 s, early, a)
              ],
        )

    -- A transfer is still to be tried, it is kept, or it is served.
    abbrev Accounted : ℕ → List Transfer → List Transfer → Transfer → Type 0
    Accounted n pending kept tr = In tr pending ⊎ (In tr kept ⊎ IsServed n kept tr)

    -- The first of the pending transfers was kept.
    keep_first :
        (n : ℕ) (first : Transfer) (pending kept : List Transfer) (tr : Transfer)
        → Accounted n (first ∷ pending) kept tr
        → Accounted n pending (first ∷ kept) tr
    keep_first n first pending kept tr (inl (inl e)) = inr (inl (inl e))
    keep_first n first pending kept tr (inl (inr m)) = inl m
    keep_first n first pending kept tr (inr (inl m)) = inr (inl (inr m))
    keep_first n first pending kept tr (inr (inr served)) =
        inr (inr (IsServed-More (λ x m. inr m) tr served))

    drop_first :
        (n : ℕ) (first : Transfer) (pending kept : List Transfer) (tr : Transfer)
        → IsServed n kept first
        → Accounted n (first ∷ pending) kept tr
        → Accounted n pending kept tr
    drop_first n first pending kept tr served (inl (inl e)) =
        inr (inr (subst (IsServed n kept) (sym e) served))
    drop_first n first pending kept tr served (inl (inr m)) = inl m
    drop_first n first pending kept tr served (inr a) = inr a

    -- What holds of the buffers and the transfers at stop i.
    record Walked (n : ℕ) (transfers : List Transfer) (i : ℕ) (scan : Scan) : Type 0 where
      justified : IsJustified n scan.kept i scan.tau
      accounts : (tr : Transfer) → In tr transfers → Accounted n scan.pending scan.kept tr

    scan_transfers-Walked :
        (n : ℕ) (transfers : List Transfer) (i : ℕ) (pending : List Transfer) (tau : Tau)
        (kept : List Transfer) {scan : Scan}
        → Walked n transfers i (record { tau = tau; pending = pending; kept = kept })
        → scan_transfers partition change_times footpaths i pending tau kept ≡ some scan
        → Walked n transfers i scan
    unfolding scan_transfers
    scan_transfers-Walked n transfers i [] tau kept h e =
        subst (Walked n transfers i) (some-injective e) h
    scan_transfers-Walked n transfers i (tr ∷ pending) tau kept h e =
        elim (Bool-cases (leb i tr.from_stop_idx_in_pattern)) [
          | inr stop ↦ subst (Walked n transfers i) (some-injective (rw stop at e)) h
          | inl more ↦ elim (Bool-cases (tr.from_stop_idx_in_pattern == i)) [
            | inr other ↦
                scan_transfers-Walked n transfers i pending tau (tr ∷ kept)
                  (record {
                    justified = IsJustified-More (λ x m. inr m) (le_refl _) h.justified;
                    accounts = λ x m. keep_first n tr pending kept x (h.accounts x m);
                  })
                  (rw (more, other) at e)
            | inl here ↦
                let at_i : tr.from_stop_idx_in_pattern ≡ i =
                  (==_iff tr.from_stop_idx_in_pattern i).0 here in
                let from_here : IsJustified n kept tr.from_stop_idx_in_pattern tau =
                  subst (λ x. IsJustified n kept x tau) (sym at_i) h.justified in
                let (r, tried, e₁) =
                  >>=-eq-some (try_transfer partition change_times footpaths tr tau) _
                    (rw (more, here) at e) in
                elim (Bool-cases r.1) [
                  | inl useful ↦
                      scan_transfers-Walked n transfers i pending r.0 (tr ∷ kept)
                        (record {
                          justified =
                              subst (λ x. IsJustified n (tr ∷ kept) x r.0) at_i
                                (try_useful n kept tr tau from_here tried);
                          accounts = λ x m. keep_first n tr pending kept x (h.accounts x m);
                        })
                        (rw useful at e₁)
                  | inr useless ↦
                      let (justified, served) = try_useless n kept tr tau from_here tried useless in
                      scan_transfers-Walked n transfers i pending r.0 kept
                        (record {
                          justified = subst (λ x. IsJustified n kept x r.0) at_i justified;
                          accounts = λ x m. drop_first n tr pending kept x served (h.accounts x m);
                        })
                        (rw useless at e₁)
                ]
          ]
        ]

    scan_stop-Walked :
        (n : ℕ) (transfers : List Transfer) (i stop : ℕ) (u v : Scan)
        → get_elem? stops i ≡ some stop
        → Walked n transfers (i + 1) u
        → scan_stop partition change_times footpaths arrivals (i, stop) u ≡ some v
        → Walked n transfers i v
    unfolding scan_stop
    scan_stop-Walked n transfers i stop u v at h e =
        let (arr, calls, e₁) = >>=-eq-some (get_elem? arrivals i) _ e in
        let (first, ef, e₂) = >>=-eq-some (arrive change_times footpaths stop arr u.tau) _ e₁ in
        scan_transfers-Walked n transfers i u.pending first.0 u.kept
          (record {
            justified =
                arrive_kept change_times footpaths (IsJustified n u.kept i) (Arrives u.kept i)
                  (IsJustified-Updates n u.kept i) stop arr u.tau
                  (Rides-Offers n u.kept i stop arr (stay i stop arr (le_refl _) at calls))
                  (IsJustified-More (λ x m. m) (omega arith) h.justified) ef;
            accounts = h.accounts;
          })
          e₂

-- When the visited stops list every stop that has a time, as they do in fresh buffers, each transfer
-- of the trip survives the refinement or is served by the survivors: wherever and whenever the trip
-- that it boards arrives, a passenger who stays on the first trip as long can be as early, on this
-- trip or on one that a survivor boards, with a walk in the end at most. (Stops within the buffers
-- and times below `u32::MAX`.) And the visited stops list every stop that has a time afterwards.
pub refine_transfers_for_trip-IsServed :
    (partition : TransitPartition) (footpaths : List (List (ℕ × ℕ))) (change_times : List ℕ)
    (trip : CompressedTrip) (stops arrivals : List ℕ) (transfers : List Transfer) (tau : Tau)
    {r : List Transfer × Tau}
    → IsTracked tau
    → trip_arrivals partition trip stops ≡ some arrivals
    → refine_transfers_for_trip partition footpaths change_times trip stops transfers tau ≡ some r
    → ((tr : Transfer)
        → In tr transfers
        → In tr r.0 ⊎ IsServed partition footpaths stops arrivals (length tau.tau_a) r.0 tr)
      × IsTracked r.1
unfolding refine_transfers_for_trip IsTracked
refine_transfers_for_trip-IsServed partition footpaths change_times trip stops arrivals transfers
      tau {r} tracked calls e =
    let (fresh, e_f, e₁) = >>=-eq-some (reset tau) _ e in
    let (arrivals', e_a, e₂) = >>=-eq-some (trip_arrivals partition trip stops) _ e₁ in
    let begin : Scan = record {
      tau = fresh;
      pending = reverse (sort_by by_from_stop transfers);
      kept = [];
    } in
    let same : arrivals' ≡ arrivals = some-injective (sym e_a ∙ calls) in
    let (scan, e_s, e₃) =
      >>=-eq-some
        (for_each (scan_stop partition change_times footpaths arrivals')
          (reverse (enumerate 0 stops)) begin)
        _ e₂ in
    let walked : Walked partition footpaths stops arrivals change_times (length tau.tau_a) transfers
        0 scan =
      for_each_reverse
        (Walked partition footpaths stops arrivals change_times (length tau.tau_a) transfers)
        (scan_stop partition change_times footpaths arrivals) stops begin
        (λ i stop u v at.
          scan_stop-Walked partition footpaths stops arrivals change_times (length tau.tau_a)
            transfers i stop u v at)
        (record {
          justified = record {
            size = length-reset tau e_f;
            tracked = λ s. inl (reset-IsUnset tau tracked e_f s);
            times = λ s. inl (reset-IsUnset tau tracked e_f s).0;
          };
          accounts =
              λ tr m. inl (In-reverse_intro tr _ (In-sort_by_intro by_from_stop tr transfers m));
        })
        (subst
          (λ a.
            for_each (scan_stop partition change_times footpaths a) (reverse (enumerate 0 stops))
              begin
            ≡ some scan)
          same e_s) in
    subst
      (λ (r : List Transfer × Tau).
        ((tr : Transfer)
          → In tr transfers
          → In tr r.0 ⊎ IsServed partition footpaths stops arrivals (length tau.tau_a) r.0 tr)
        × IsTracked r.1)
      (some-injective e₃)
      (
        (λ tr m. elim (walked.accounts tr m) [
          | inl p ↦ inl (
              In-append_left tr (reverse scan.pending) scan.kept
                (In-reverse_intro tr scan.pending p))
          | inr (inl k) ↦ inl (In-append_right tr (reverse scan.pending) scan.kept k)
          | inr (inr served) ↦ inr (
              IsServed-More partition footpaths stops arrivals
                (λ x. In-append_right x (reverse scan.pending) scan.kept) tr served)
        ]),
        walked.justified.tracked,
      )
