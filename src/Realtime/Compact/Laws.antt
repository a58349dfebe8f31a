-- ===== src/Realtime/Compact/Laws.antt =====
-- What survives the way into the compact form of a feed and back.
use catenary_backend.Common.{
  ℕ, suc, ◌+◌, ◌-◌, ◌*◌, ◌%◌, ◌<◌, ◌≤◌, ◌≡◌, Option, none, some, List, [], ◌∷◌, map, refl, ap, ◌∙◌,
  leb, true, false, map_option, lt→ltb, le→ltb_false, arith,
}
use catenary_backend.Common.Int.{ℤ, pos, negsuc, pos_part, neg_part, sub_ℕ, ◌+ℤ◌, ◌-ℤ◌, wrap_signed}
use catenary_backend.Common.Words.{u16_mod}
use catenary_backend.Realtime.Compact.{
  Payload, StopTimeEvent, as_i64, compact_time, full_time, from_stop_time_event, to_stop_time_event,
  StopTimeUpdate, TripUpdate, FeedEntity, FeedMessage, from_stop_time_update, to_stop_time_update,
  from_trip_update, to_trip_update, from_feed_entity, to_feed_entity, reference_epoch_of,
  from_feed_message, to_feed_message,
}
use mathlib.Core.Path.{ap₂}
use native.Mathlib.Nat.{mod-eq_of_lt}

-- A cut to a signed width changes no number inside the width.
pub wrap_signed_inside : (h : ℕ) (z : ℤ) → pos_part z < h → neg_part z ≤ h → wrap_signed h z ≡ z
unfolding wrap_signed
wrap_signed_inside h (pos n) below above =
    rw (mod-eq_of_lt {n = n} {m = 2 * h} (omega arith)) (rw (lt→ltb n h below) refl)
wrap_signed_inside h (negsuc n) below above =
    rw (mod-eq_of_lt {n = n} {m = 2 * h} (omega arith))
      (rw (le→ltb_false (2 * h - 1 - n) h (omega arith)) (ap negsuc (omega arith)))

-- The time is within 2 ^ 23 seconds of the epoch.
unfoldable pub IsNear : ℕ → ℤ → Type 0
IsNear epoch t =
    (neg_part t + epoch ≤ pos_part t + 0x80_0000) × (pos_part t < neg_part t + epoch + 0x80_0000)

le→leb : (a b : ℕ) → a ≤ b → leb a b ≡ true
le→leb a b h = ground arith

lt→leb_false : (a b : ℕ) → b < a → leb a b ≡ false
lt→leb_false a b h = ground arith

sub_ℕ-pos : (a b n : ℕ) → a ≡ n + b → sub_ℕ a b ≡ pos n
sub_ℕ-pos a b n e = rw (le→leb b a (omega (arith, e))) (ap pos (omega (arith, e)))

sub_ℕ-negsuc : (a b n : ℕ) → suc n + a ≡ b → sub_ℕ a b ≡ negsuc n
sub_ℕ-negsuc a b n e = rw (lt→leb_false b a (omega (arith, e))) (ap negsuc (omega (arith, e)))

pos_part-sub_ℕ : (a b : ℕ) → pos_part (sub_ℕ a b) ≡ a - b
pos_part-sub_ℕ a b = ground arith

neg_part-sub_ℕ : (a b : ℕ) → neg_part (sub_ℕ a b) ≡ b - a
neg_part-sub_ℕ a b = ground arith

sub_ℕ-back :
    (epoch : ℕ) (t : ℤ)
    → sub_ℕ (epoch + (pos_part t - (neg_part t + epoch))) (0 + ((neg_part t + epoch) - pos_part t))
      ≡ t
sub_ℕ-back epoch (pos n) = sub_ℕ-pos _ _ n (omega arith)
sub_ℕ-back epoch (negsuc n) = sub_ℕ-negsuc _ _ n (omega arith)

-- The epochs that `as i64` keeps, with room for the offsets.
unfoldable pub IsEpoch : ℕ → Type 0
IsEpoch epoch = epoch < 0x4000_0000_0000_0000

as_i64_small : (epoch : ℕ) → IsEpoch epoch → as_i64 epoch ≡ pos epoch
unfolding IsEpoch
as_i64_small epoch h =
    wrap_signed_inside 0x8000_0000_0000_0000 (pos epoch) (omega arith) (omega arith)

-- A difference inside 24 bits passes each cut.
inside : (h a b : ℕ) → a < b + h → b ≤ a + h → wrap_signed h (sub_ℕ a b) ≡ sub_ℕ a b
inside h a b above below =
    wrap_signed_inside h (sub_ℕ a b) (rw (pos_part-sub_ℕ a b) (omega arith))
      (rw (neg_part-sub_ℕ a b) (omega arith))

compact_time_exact :
    (epoch : ℕ) (t : ℤ)
    → IsEpoch epoch
    → IsNear epoch t
    → compact_time epoch t ≡ sub_ℕ (pos_part t) (neg_part t + epoch)
unfolding compact_time IsNear ◌-ℤ◌
compact_time_exact epoch t small (low, high) = rw (as_i64_small epoch small) (
    rw
      (inside 0x8000_0000_0000_0000 (pos_part t + 0) (neg_part t + epoch) (omega arith)
        (omega arith))
      (rw (inside 0x8000_0000 (pos_part t + 0) (neg_part t + epoch) (omega arith) (omega arith)) (
        rw (inside 0x80_0000 (pos_part t + 0) (neg_part t + epoch) (omega arith) (omega arith))
          (ap (λ x. sub_ℕ x (neg_part t + epoch)) (omega arith)))))

-- A time within 2 ^ 23 seconds of the epoch comes back from its 24-bit form unchanged.
pub full_time-compact_time :
    (epoch : ℕ) (t : ℤ)
    → IsEpoch epoch
    → IsNear epoch t
    → full_time epoch (compact_time epoch t) ≡ t
unfolding full_time IsNear ◌+ℤ◌ IsEpoch
full_time-compact_time epoch t small (low, high) =
    rw (compact_time_exact epoch t small (low, high)) (
      rw (as_i64_small epoch small) (
        rw (pos_part-sub_ℕ (pos_part t) (neg_part t + epoch)) (
          rw (neg_part-sub_ℕ (pos_part t) (neg_part t + epoch))
            (inside 0x8000_0000_0000_0000 _ _ (omega arith) (omega arith) ∙ sub_ℕ-back epoch t))))

abbrev pub AllOption : {A : Type 0} → (A → Type 0) → Option A → Type 0
AllOption P none = Unit
AllOption P (some a) = P a

abbrev pub AllList : {A : Type 0} → (A → Type 0) → List A → Type 0
AllList P [] = Unit
AllList P (a ∷ rest) = P a × AllList P rest

map_option-back :
    {A B : Type 0} (P : A → Type 0) (f : A → B) (g : B → A)
    → ((a : A) → P a → g (f a) ≡ a)
    → (o : Option A) → AllOption P o
    → map_option g (map_option f o) ≡ o
map_option-back P f g back none h = refl
map_option-back P f g back (some a) h = ap some (back a h)

map-back :
    {A B : Type 0} (P : A → Type 0) (f : A → B) (g : B → A)
    → ((a : A) → P a → g (f a) ≡ a)
    → (rest : List A) → AllList P rest
    → map g (map f rest) ≡ rest
map-back P f g back [] h = refl
map-back P f g back (a ∷ rest) (here, there) =
    ap₂ (λ x xs. x ∷ xs) (back a here) (map-back P f g back rest there)

sequence_exact :
    (o : Option ℕ) → AllOption (λ s. s < u16_mod) o → map_option (λ s. s % u16_mod) o ≡ o
sequence_exact none h = refl
sequence_exact (some s) h = ap some (omega arith)

unfoldable pub FitsEvent : ℕ → StopTimeEvent → Type 0
FitsEvent epoch e = AllOption (IsNear epoch) e.time × AllOption (IsNear epoch) e.scheduled_time

event-back :
    (epoch : ℕ)
    → IsEpoch epoch
    → (e : StopTimeEvent) → FitsEvent epoch e
    → to_stop_time_event (from_stop_time_event e epoch) epoch ≡ e
unfolding from_stop_time_event to_stop_time_event FitsEvent
event-back epoch small e (near, scheduled) =
    let back : (t : ℤ) → IsNear epoch t → full_time epoch (compact_time epoch t) ≡ t =
      λ t h. full_time-compact_time epoch t small h in
    let time_back =
      map_option-back (IsNear epoch) (compact_time epoch) (full_time epoch) back e.time near in
    let scheduled_back =
      map_option-back (IsNear epoch) (compact_time epoch) (full_time epoch) back e.scheduled_time
        scheduled in
    λ i. record {
      delay = e.delay;
      time = time_back i;
      uncertainty = e.uncertainty;
      scheduled_time = scheduled_back i;
    }

module _ (p : Payload) where
  unfoldable pub FitsUpdate : ℕ → StopTimeUpdate p → Type 0
  FitsUpdate epoch u =
      AllOption (λ s. s < u16_mod) u.stop_sequence
      × AllOption (FitsEvent epoch) u.arrival
      × AllOption (FitsEvent epoch) u.departure

  unfoldable pub FitsTrip : ℕ → TripUpdate p → Type 0
  FitsTrip epoch tu = AllList (FitsUpdate epoch) tu.stop_time_update

  unfoldable pub FitsEntity : ℕ → FeedEntity p → Type 0
  FitsEntity epoch entity = AllOption (FitsTrip epoch) entity.trip_update

  -- Stop sequences fit in 16 bits, and times lie within 2 ^ 23 seconds of the feed's epoch.
  unfoldable pub Fits : FeedMessage p → Type 0
  Fits m =
      IsEpoch (reference_epoch_of p m.header)
      × AllList (FitsEntity (reference_epoch_of p m.header)) m.entity

  update-back :
      (epoch : ℕ)
      → IsEpoch epoch
      → (u : StopTimeUpdate p) → FitsUpdate epoch u
      → to_stop_time_update p epoch (from_stop_time_update p epoch u) ≡ u
  unfolding from_stop_time_update to_stop_time_update FitsUpdate
  update-back epoch small u (sequence, arrival, departure) =
      let event : (e : StopTimeEvent)
          → FitsEvent epoch e
          → to_stop_time_event (from_stop_time_event e epoch) epoch ≡ e =
        event-back epoch small in
      let sequence_back : map_option (λ s. s % u16_mod) u.stop_sequence ≡ u.stop_sequence =
        sequence_exact u.stop_sequence sequence in
      let arrival_back =
        map_option-back (FitsEvent epoch) (λ e. from_stop_time_event e epoch)
          (λ e. to_stop_time_event e epoch) event u.arrival arrival in
      let departure_back =
        map_option-back (FitsEvent epoch) (λ e. from_stop_time_event e epoch)
          (λ e. to_stop_time_event e epoch) event u.departure departure in
      λ i. record {
        stop_sequence = sequence_back i;
        stop_id = u.stop_id;
        arrival = arrival_back i;
        departure = departure_back i;
        departure_occupancy_status = u.departure_occupancy_status;
        schedule_relationship = u.schedule_relationship;
        stop_time_properties = u.stop_time_properties;
      }

  trip-back :
      (epoch : ℕ)
      → IsEpoch epoch
      → (tu : TripUpdate p) → FitsTrip epoch tu
      → to_trip_update p epoch (from_trip_update p epoch tu) ≡ tu
  unfolding from_trip_update to_trip_update FitsTrip
  trip-back epoch small tu fits =
      let updates_back =
        map-back (FitsUpdate epoch) (from_stop_time_update p epoch) (to_stop_time_update p epoch)
          (update-back epoch small) tu.stop_time_update fits in
      λ i. record {
        trip = tu.trip;
        vehicle = tu.vehicle;
        stop_time_update = updates_back i;
        timestamp = tu.timestamp;
        delay = tu.delay;
        trip_properties = tu.trip_properties;
      }

  entity-back :
      (epoch : ℕ)
      → IsEpoch epoch
      → (entity : FeedEntity p) → FitsEntity epoch entity
      → to_feed_entity p epoch (from_feed_entity p epoch entity) ≡ entity
  unfolding from_feed_entity to_feed_entity FitsEntity
  entity-back epoch small entity fits =
      let trip_back =
        map_option-back (FitsTrip epoch) (from_trip_update p epoch) (to_trip_update p epoch)
          (trip-back epoch small) entity.trip_update fits in
      λ i. record {
        id = entity.id;
        is_deleted = entity.is_deleted;
        trip_update = trip_back i;
        vehicle = entity.vehicle;
        alert = entity.alert;
        shape = entity.shape;
        stop = entity.stop;
        trip_modifications = entity.trip_modifications;
      }

  -- A feed whose stop sequences fit in 16 bits, whose epoch is below 2 ^ 62 and whose times lie
  -- within 2 ^ 23 seconds of the epoch comes back from the compact form unchanged.
  pub to_feed_message-from_feed_message :
      (m : FeedMessage p) → Fits m → to_feed_message p (from_feed_message p m) ≡ m
  unfolding from_feed_message to_feed_message Fits
  to_feed_message-from_feed_message m (small, fits) =
      let epoch = reference_epoch_of p m.header in
      let entities_back =
        map-back (FitsEntity epoch) (from_feed_entity p epoch) (to_feed_entity p epoch)
          (entity-back epoch small) m.entity fits in
      λ i. record { header = m.header; entity = entities_back i }
