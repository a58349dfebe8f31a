-- ===== src/Gentian/Times/Laws.antt =====
-- The loops over the deltas compute the same timetable, and within 32 bits it is the exact sums.
use catenary_backend.Common.{
  ℕ, zero, suc, ◌+◌, ◌*◌, ◌≤◌, ◌<◌, ◌≡◌, refl, ap, some, List, [], ◌∷◌, lt→ltb, not_ltb_self, ltb,
  if◌then◌else◌, some-injective, >>=-eq-some, length, get_elem?, get_or, arith,
}
use catenary_backend.Common.Words.{add32, u32_mod}
use catenary_backend.Common.Loops.{for_range}
use mathlib.Core.Path.{subst}
use native.Mathlib.Nat.{add-zero, zero-add}
use native.Mathlib.Numerals.{add-one, towards_suc}
use catenary_backend.Transit.{TransitPartition, CompressedTrip, TimeDeltaSequence}
use catenary_backend.Gentian.Times.{
  add_delta, arrival_round, arrival_loop, get_arrival_time, get_departure_time, arrivals_from,
  trip_arrivals,
}

-- The timetable of a trip by recursion on the stop: travel after the dwell at the stop before.
unfoldable pub arrival : List ℕ → ℕ → ℕ → ℕ
arrival deltas start zero = start
arrival deltas start (suc k) =
    add_delta deltas (2 * k + 2) (add_delta deltas (2 * k + 1) (arrival deltas start k))

unfoldable pub departure : List ℕ → ℕ → ℕ → ℕ
departure deltas start k = add_delta deltas (2 * k + 1) (arrival deltas start k)

pub departure_lem :
    (deltas : List ℕ) (start k : ℕ)
    → departure deltas start k ≡ add_delta deltas (2 * k + 1) (arrival deltas start k)
unfolding departure
departure_lem deltas start k = refl

-- The time carried into round `k` of a loop.
abbrev pub carried : List ℕ → ℕ → ℕ → ℕ
carried deltas start zero = start
carried deltas start (suc k) = departure deltas start k

double_suc : (k : ℕ) → 2 * suc k ≡ 2 * k + 2
double_suc k = omega arith

pub arrival-suc :
    (deltas : List ℕ) (start k : ℕ)
    → add_delta deltas (2 * suc k) (departure deltas start k) ≡ arrival deltas start (suc k)
unfolding arrival departure
arrival-suc deltas start k = rw (double_suc k)

pub arrival_of_carried :
    (deltas : List ℕ) (start k : ℕ)
    → (if ltb 0 k
        then add_delta deltas (2 * k) (carried deltas start k)
        else carried deltas start k)
      ≡ arrival deltas start k
unfolding arrival departure
arrival_of_carried deltas start zero = refl
arrival_of_carried deltas start (suc k) = rw (lt→ltb 0 (suc k) (omega arith), double_suc k)

-- One round before the last stop turns the time carried in into the departure.
arrival_round_lt :
    (deltas : List ℕ) (start s k : ℕ)
    → k < s
    → arrival_round deltas s k (carried deltas start k) ≡ departure deltas start k
unfolding arrival_round departure
arrival_round_lt deltas start s k h = rw (arrival_of_carried deltas start k, lt→ltb k s h)

-- The last round stops at the arrival.
arrival_round_last :
    (deltas : List ℕ) (start s : ℕ)
    → arrival_round deltas s s (carried deltas start s) ≡ arrival deltas start s
unfolding arrival_round
arrival_round_last deltas start s = rw (arrival_of_carried deltas start s, not_ltb_self s)

-- Through the rounds below `s` the loop carries the departures, and then it ends at the arrival.
carried_before :
    (deltas : List ℕ) (start s n i : ℕ)
    → i + n ≡ s
    → for_range (suc n) i (arrival_round deltas s) (carried deltas start i) ≡ arrival deltas start s
unfolding for_range
carried_before deltas start s zero i e =
    let e' : i ≡ s = omega arith in rw e' (arrival_round_last deltas start s)
carried_before deltas start s (suc n) i e =
    rw (arrival_round_lt deltas start s i (omega arith), add-one i)
      (carried_before deltas start s n (suc i) (omega arith))

pub arrival_loop-arrival :
    (deltas : List ℕ) (start s : ℕ) → arrival_loop deltas start s ≡ arrival deltas start s
unfolding arrival_loop
arrival_loop-arrival deltas start s =
    rw (add-one s) (carried_before deltas start s s 0 (omega arith))

-- The time in which the loop over the stops enters stop `i` with its arrival is the timetable's.
arrivals_from-get :
    (deltas : List ℕ) (start n i j : ℕ)
    → j < n
    → get_elem? (arrivals_from deltas n i (carried deltas start i)) j
      ≡ some (arrival deltas start (i + j))
unfolding arrivals_from departure
arrivals_from-get deltas start zero i j h = elim h [ ]
arrivals_from-get deltas start (suc n) i zero h = rw (arrival_of_carried deltas start i, add-zero i)
arrivals_from-get deltas start (suc n) i (suc j) h =
    let e : i + suc j ≡ suc i + j = omega arith in
    rw (arrival_of_carried deltas start i, add-one i, e)
      (arrivals_from-get deltas start n (suc i) j (omega arith))

-- The running list of arrivals that a trip's stops are walked with holds, at every stop, the time
-- that `get_arrival_time` computes from the start of the trip.
pub trip_arrivals-get_arrival_time :
    (partition : TransitPartition) (trip : CompressedTrip) (stops : List ℕ) (j : ℕ)
    {arrivals : List ℕ}
    → trip_arrivals partition trip stops ≡ some arrivals
    → j < length stops
    → get_elem? arrivals j ≡ get_arrival_time partition trip j
unfolding trip_arrivals get_arrival_time
trip_arrivals-get_arrival_time partition trip stops j h lt =
    let (seq, found, e) = >>=-eq-some (get_elem? partition.time_deltas trip.time_delta_idx) _ h in
    let table = arrivals_from-get seq.deltas trip.start_time (length stops) 0 j lt in
    rw (found, arrival_loop-arrival seq.deltas trip.start_time j)
      (subst (λ l. get_elem? l j ≡ some (arrival seq.deltas trip.start_time j)) (some-injective e)
        (rw zero-add at table))

-- The sum of the deltas 1, …, n: everything that is added on the way to index `n`.
abbrev pub elapsed : List ℕ → ℕ → ℕ
elapsed deltas zero = 0
elapsed deltas (suc n) = elapsed deltas n + get_or deltas (suc n) 0

get_or-of_le : (deltas : List ℕ) (j : ℕ) → length deltas ≤ j → get_or deltas j 0 ≡ 0
get_or-of_le [] j h = refl
get_or-of_le (d ∷ deltas) zero h = absurd (omega arith)
get_or-of_le (d ∷ deltas) (suc j) h = get_or-of_le deltas j (omega arith)

add_delta_exact :
    (deltas : List ℕ) (j time : ℕ)
    → time + get_or deltas j 0 < u32_mod
    → add_delta deltas j time ≡ time + get_or deltas j 0
unfolding add_delta add32
add_delta_exact deltas j time h = ground (arith, get_or-of_le deltas j)

elapsed_double :
    (deltas : List ℕ) (k : ℕ)
    → elapsed deltas (2 * suc k)
      ≡ elapsed deltas (2 * k) + get_or deltas (2 * k + 1) 0 + get_or deltas (2 * k + 2) 0
elapsed_double deltas k =
    let e : 2 * suc k ≡ suc (suc (2 * k)) = omega arith in rw e (simp towards_suc)

-- Where the true time fits in 32 bits, the timetable has it.
arrival_exact :
    (deltas : List ℕ) (start k : ℕ)
    → start + elapsed deltas (2 * k) < u32_mod
    → arrival deltas start k ≡ start + elapsed deltas (2 * k)
unfolding arrival
arrival_exact deltas start zero h = omega arith
arrival_exact deltas start (suc k) h =
    let total = elapsed_double deltas k in
    let here = arrival_exact deltas start k (omega arith) in
    let dwelt = add_delta_exact deltas (2 * k + 1) (arrival deltas start k) (omega arith) in
    let travelled =
      add_delta_exact deltas (2 * k + 2) (add_delta deltas (2 * k + 1) (arrival deltas start k))
        (omega arith) in
    omega arith

-- When the trip's total time to a stop fits in 32 bits, the arrival there is the start time and
-- every dwell and travel on the way, and the departure adds the dwell at the stop.
pub get_arrival_time_exact :
    (partition : TransitPartition) (trip : CompressedTrip) (stop_idx : ℕ) (seq : TimeDeltaSequence)
    → get_elem? partition.time_deltas trip.time_delta_idx ≡ some seq
    → trip.start_time + elapsed seq.deltas (2 * stop_idx + 1) < u32_mod
    → (get_arrival_time partition trip stop_idx
        ≡ some (trip.start_time + elapsed seq.deltas (2 * stop_idx)))
      × (get_departure_time partition trip stop_idx
          ≡ some (trip.start_time + elapsed seq.deltas (2 * stop_idx + 1)))
unfolding get_arrival_time get_departure_time
get_arrival_time_exact partition trip s seq found h =
    let more : elapsed seq.deltas (2 * s + 1)
        ≡ elapsed seq.deltas (2 * s) + get_or seq.deltas (2 * s + 1) 0 =
      simp towards_suc in
    let here = arrival_exact seq.deltas trip.start_time s (omega arith) in
    let dwelt =
      add_delta_exact seq.deltas (2 * s + 1) (arrival seq.deltas trip.start_time s) (omega arith) in
    (
      rw (found, arrival_loop-arrival seq.deltas trip.start_time s, here),
      rw (found, arrival_loop-arrival seq.deltas trip.start_time s, dwelt, here, more)
          (ap some (omega arith)),
    )
