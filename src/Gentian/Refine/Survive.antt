-- ===== src/Gentian/Refine/Survive.antt =====
-- Every transfer of a trip survives the refinement, or it is covered by what is known in the end.
use mathlib.Core.Path.{subst}
use mathlib.Core.List.{reverse}
use native.Mathlib.Nat.{le_refl, le_trans}
use catenary_backend.Common.{
  ℕ, ◌≡◌, sym, ◌⊎◌, inl, inr, some, List, [], ◌∷◌, ◌++◌, leb, ◌==◌, >>=-eq-some, some-injective,
  Bool-cases, get_elem?, In, In-append, In-append_left, In-append_right,
}
use catenary_backend.Common.Loops.{for_each, for_each_inv, enumerate}
use catenary_backend.Common.Sorting.{
  sort_by, In-sort_by, In-sort_by_intro, In-reverse, In-reverse_intro,
}
use catenary_backend.Transit.{TransitPartition, CompressedTrip}
use catenary_backend.Gentian.Times.{trip_arrivals}
use catenary_backend.Gentian.Transfers.{Transfer}
use catenary_backend.Gentian.Refine.{
  Tau, arrive, try_transfer, Scan, scan_transfers, scan_stop, reset, by_from_stop,
  refine_transfers_for_trip,
}
use catenary_backend.Gentian.Refine.Laws.{Lowers, arrive-Lowers}
use catenary_backend.Gentian.Refine.Covers.{IsCovered, try_transfer_covers}

module _ (partition : TransitPartition) (change_times : List ℕ)
    (footpaths : List (List (ℕ × ℕ))) where
  -- A transfer is still to be tried, it has survived, or it is covered.
  abbrev Accounted : Transfer → Tau → List Transfer → List Transfer → Type 0
  Accounted tr tau pending kept = In tr pending ⊎ (In tr kept ⊎ IsCovered partition tau tr)

  Accounted-Lowers :
      (tr : Transfer) (tau later : Tau) (pending kept : List Transfer)
      → Lowers tau later
      → Accounted tr tau pending kept
      → Accounted tr later pending kept
  Accounted-Lowers tr tau later pending kept lower (inl m) = inl m
  Accounted-Lowers tr tau later pending kept lower (inr (inl m)) = inr (inl m)
  Accounted-Lowers tr tau later pending kept lower (inr (inr c)) =
      inr (inr (λ j s arr after at arrives. le_trans (lower s) (c j s arr after at arrives)))

  -- What a scan leaves: the times fall, every transfer stays accounted for, and none is invented.
  record Scanned (tau : Tau) (pending kept : List Transfer) (scan : Scan) : Type 0 where
    lowers : Lowers tau scan.tau
    accounts :
        (tr : Transfer)
        → Accounted tr tau pending kept
        → Accounted tr scan.tau scan.pending scan.kept
    invents_none :
        (tr : Transfer) → In tr scan.pending ⊎ In tr scan.kept → In tr pending ⊎ In tr kept

  -- The head of the pending transfers was kept, or it is covered.
  Scanned-kept :
      (tr : Transfer) (tau tau' : Tau) (pending kept : List Transfer) {scan : Scan}
      → Lowers tau tau'
      → Scanned tau' pending (tr ∷ kept) scan
      → Scanned tau (tr ∷ pending) kept scan
  Scanned-kept tr tau tau' pending kept {scan} lower later = record {
    lowers = λ s. le_trans (later.lowers s) (lower s);
    accounts = λ tr' a. later.accounts tr' (shift tr' a);
    invents_none = λ tr' m. back tr' (later.invents_none tr' m);
  }
    where
      shift :
          (tr' : Transfer)
          → Accounted tr' tau (tr ∷ pending) kept
          → Accounted tr' tau' pending (tr ∷ kept)
      shift tr' (inl (inl e)) = inr (inl (inl e))
      shift tr' (inl (inr m)) = inl m
      shift tr' (inr (inl m)) = inr (inl (inr m))
      shift tr' (inr (inr c)) =
          Accounted-Lowers tr' tau tau' pending (tr ∷ kept) lower (inr (inr c))

      back :
          (tr' : Transfer)
          → In tr' pending ⊎ In tr' (tr ∷ kept)
          → In tr' (tr ∷ pending) ⊎ In tr' kept
      back tr' (inl m) = inl (inr m)
      back tr' (inr (inl e)) = inl (inl e)
      back tr' (inr (inr m)) = inr m

  Scanned-covered :
      (tr : Transfer) (tau tau' : Tau) (pending kept : List Transfer) {scan : Scan}
      → Lowers tau tau'
      → IsCovered partition tau' tr
      → Scanned tau' pending kept scan
      → Scanned tau (tr ∷ pending) kept scan
  Scanned-covered tr tau tau' pending kept {scan} lower covered later = record {
    lowers = λ s. le_trans (later.lowers s) (lower s);
    accounts = λ tr' a. later.accounts tr' (shift tr' a);
    invents_none = λ tr' m. back tr' (later.invents_none tr' m);
  }
    where
      shift :
          (tr' : Transfer) → Accounted tr' tau (tr ∷ pending) kept → Accounted tr' tau' pending kept
      shift tr' (inl (inl e)) = inr (inr (subst (IsCovered partition tau') (sym e) covered))
      shift tr' (inl (inr m)) = inl m
      shift tr' (inr a) = Accounted-Lowers tr' tau tau' pending kept lower (inr a)

      back : (tr' : Transfer) → In tr' pending ⊎ In tr' kept → In tr' (tr ∷ pending) ⊎ In tr' kept
      back tr' (inl m) = inl (inr m)
      back tr' (inr m) = inr m

  scan_transfers-Scanned :
      (i : ℕ) (pending : List Transfer) (tau : Tau) (kept : List Transfer) {scan : Scan}
      → scan_transfers partition change_times footpaths i pending tau kept ≡ some scan
      → Scanned tau pending kept scan
  unfolding scan_transfers
  scan_transfers-Scanned i [] tau kept e =
      subst (Scanned tau [] kept) (some-injective e)
        (record { lowers = λ s. le_refl _; accounts = λ tr a. a; invents_none = λ tr m. m })
  scan_transfers-Scanned i (tr ∷ pending) tau kept {scan} e =
      elim (Bool-cases (leb i tr.from_stop_idx_in_pattern)) [
        | inr stop ↦
            subst (Scanned tau (tr ∷ pending) kept) (some-injective (rw stop at e))
              (record { lowers = λ s. le_refl _; accounts = λ tr' a. a; invents_none = λ tr' m. m })
        | inl more ↦ elim (Bool-cases (tr.from_stop_idx_in_pattern == i)) [
          | inr other ↦
              Scanned-kept tr tau tau pending kept (λ s. le_refl _)
                (scan_transfers-Scanned i pending tau (tr ∷ kept) (rw (more, other) at e))
          | inl here ↦
              let (r, tried, e₁) =
                >>=-eq-some (try_transfer partition change_times footpaths tr tau) _
                  (rw (more, here) at e) in
              let (lower, covered, _) =
                try_transfer_covers change_times footpaths partition tr tau tried in
              elim (Bool-cases r.1) [
                | inl useful ↦
                    Scanned-kept tr tau r.0 pending kept lower
                      (scan_transfers-Scanned i pending r.0 (tr ∷ kept) (rw useful at e₁))
                | inr useless ↦
                    Scanned-covered tr tau r.0 pending kept lower covered
                      (scan_transfers-Scanned i pending r.0 kept (rw useless at e₁))
              ]
        ]
      ]

  -- What holds between two stops of the walk back along the trip.
  record Walked (transfers : List Transfer) (scan : Scan) : Type 0 where
    accounts : (tr : Transfer) → In tr transfers → Accounted tr scan.tau scan.pending scan.kept
    invents_none : (tr : Transfer) → In tr scan.pending ⊎ In tr scan.kept → In tr transfers

  scan_stop-Walked :
      (transfers : List Transfer) (arrivals : List ℕ) (x : ℕ × ℕ) (u v : Scan)
      → Walked transfers u
      → scan_stop partition change_times footpaths arrivals x u ≡ some v
      → Walked transfers v
  unfolding scan_stop
  scan_stop-Walked transfers arrivals (i, stop) u v walked e =
      let (arr, at, e₁) = >>=-eq-some (get_elem? arrivals i) _ e in
      let (first, ef, e₂) = >>=-eq-some (arrive change_times footpaths stop arr u.tau) _ e₁ in
      let (lower, _, _) = arrive-Lowers change_times footpaths stop arr u.tau ef in
      let scanned = scan_transfers-Scanned i u.pending first.0 u.kept e₂ in
      record {
        accounts = λ tr m.
            scanned.accounts tr
              (Accounted-Lowers tr u.tau first.0 u.pending u.kept lower (walked.accounts tr m));
        invents_none = λ tr m. walked.invents_none tr (scanned.invents_none tr m);
      }

  -- Every transfer of the trip survives the refinement, or each stop that it reaches is known in the
  -- end at least as early as the trip that it boards calls there; and the survivors are
  -- transfers that were given.
  pub refine_transfers_for_trip_lem :
      (trip : CompressedTrip) (stop_indices : List ℕ) (transfers : List Transfer) (tau : Tau)
      {r : List Transfer × Tau}
      → refine_transfers_for_trip partition footpaths change_times trip stop_indices transfers tau
        ≡ some r
      → (tr : Transfer)
      → (In tr transfers → In tr r.0 ⊎ IsCovered partition r.1 tr) × (In tr r.0 → In tr transfers)
  unfolding refine_transfers_for_trip
  refine_transfers_for_trip_lem trip stop_indices transfers tau {r} e =
      let (fresh, e_f, e₁) = >>=-eq-some (reset tau) _ e in
      let (arrivals, e_a, e₂) = >>=-eq-some (trip_arrivals partition trip stop_indices) _ e₁ in
      let (scan, e_s, e₃) =
        >>=-eq-some
          (for_each (scan_stop partition change_times footpaths arrivals)
            (reverse (enumerate 0 stop_indices)) (begin fresh))
          _ e₂ in
      let walked =
        for_each_inv (Walked transfers) (scan_stop partition change_times footpaths arrivals)
          (reverse (enumerate 0 stop_indices)) (begin fresh)
          (λ x u v _. scan_stop-Walked transfers arrivals x u v) (begin-Walked fresh) e_s in
      subst
        (λ (r : List Transfer × Tau).
          (tr : Transfer)
          → (In tr transfers → In tr r.0 ⊎ IsCovered partition r.1 tr)
            × (In tr r.0 → In tr transfers))
        (some-injective e₃) (result scan walked)
    where
      begin : Tau → Scan
      begin fresh = record {
        tau = fresh;
        pending = reverse (sort_by by_from_stop transfers);
        kept = [];
      }

      begin-Walked : (fresh : Tau) → Walked transfers (begin fresh)
      begin-Walked fresh = record {
        accounts =
            λ tr m. inl (In-reverse_intro tr _ (In-sort_by_intro by_from_stop tr transfers m));
        invents_none = λ tr m. elim m [
          | inl p ↦ In-sort_by by_from_stop tr transfers (In-reverse tr _ p)
          | inr k ↦ elim k [ ]
        ];
      }

      result :
          (scan : Scan)
          → Walked transfers scan
          → (tr : Transfer)
          → (In tr transfers
              → In tr (reverse scan.pending ++ scan.kept) ⊎ IsCovered partition scan.tau tr)
            × (In tr (reverse scan.pending ++ scan.kept) → In tr transfers)
      result scan walked tr = (
        λ m. elim (walked.accounts tr m) [
          | inl p ↦ inl (
              In-append_left tr (reverse scan.pending) scan.kept
                (In-reverse_intro tr scan.pending p))
          | inr (inl k) ↦ inl (In-append_right tr (reverse scan.pending) scan.kept k)
          | inr (inr c) ↦ inr c
        ],
        λ m. elim (In-append tr (reverse scan.pending) scan.kept m) [
          | inl p ↦ walked.invents_none tr (inl (In-reverse tr scan.pending p))
          | inr k ↦ walked.invents_none tr (inr k)
        ],
      )
