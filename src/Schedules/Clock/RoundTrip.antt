-- ===== src/Schedules/Clock/RoundTrip.antt =====
-- A time of day that is printed is read back.
use catenary_backend.Common.{
  ℕ, ◌/◌, ◌%◌, ◌<◌, ◌≡◌, ap, some, [], ◌∷◌, ◌++◌, ◌==◌, inl, inr, Bool-cases, ==_iff, arith, refl,
}
use catenary_backend.Common.Words.{u32_mod}
use catenary_backend.Schedules.Clock.{
  Text, colon, onto_first, split_colon, read_parts, convert_hhmmss_to_seconds, pad,
  number_of_seconds_to_hhmmss,
}
use catenary_backend.Schedules.Clock.Digits.{AllDigits, pad-AllDigits, parse_u32-pad}

-- Digits are not split.
split_colon-AllDigits : (a : Text) → AllDigits a → split_colon a ≡ a ∷ []
unfolding split_colon AllDigits onto_first
split_colon-AllDigits [] h = refl
split_colon-AllDigits (c ∷ a) (low, high, h) = elim (Bool-cases (c == colon)) [
  | inl e ↦ absurd (omega (arith, (==_iff c colon).0 e, high))
  | inr other ↦ rw other (rw (split_colon-AllDigits a h) refl)
]

-- Digits before a colon are the first part.
split_colon-append : (a b : Text) → AllDigits a → split_colon (a ++ colon ∷ b) ≡ a ∷ split_colon b
unfolding split_colon AllDigits onto_first
split_colon-append [] b h = refl
split_colon-append (c ∷ a) b (low, high, h) = elim (Bool-cases (c == colon)) [
  | inl e ↦ absurd (omega (arith, (==_iff c colon).0 e, high))
  | inr other ↦ rw other (rw (split_colon-append a b h) refl)
]

-- A time of day that was printed is read back, for every number of seconds of 32 bits.
pub convert_hhmmss_to_seconds-number_of_seconds_to_hhmmss :
    (n : ℕ) → n < u32_mod → convert_hhmmss_to_seconds (number_of_seconds_to_hhmmss n) ≡ some n
unfolding convert_hhmmss_to_seconds number_of_seconds_to_hhmmss read_parts
convert_hhmmss_to_seconds-number_of_seconds_to_hhmmss n small =
    let h = n / 3600 in
    let m = n % 3600 / 60 in
    let s = n % 60 in
    rw (split_colon-append (pad h) (pad m ++ colon ∷ pad s) (pad-AllDigits h)) (
      rw (split_colon-append (pad m) (pad s) (pad-AllDigits m)) (
        rw (split_colon-AllDigits (pad s) (pad-AllDigits s)) (
          rw (parse_u32-pad h (omega arith)) (
            rw (parse_u32-pad m (omega arith))
              (rw (parse_u32-pad s (omega arith)) (ap some (omega arith)))))))
