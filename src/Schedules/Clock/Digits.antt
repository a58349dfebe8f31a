-- ===== src/Schedules/Clock/Digits.antt =====
-- A number of 32 bits that is printed is read back.
use mathlib.Core.List.{cons-ne-nil}
use catenary_backend.Common.{
  ℕ, zero, suc, ◌+◌, ◌-◌, ◌*◌, ◌/◌, ◌%◌, ◌≤◌, ◌<◌, ◌≡◌, ◌≢◌, refl, ap, ◌∙◌, some, [], ◌∷◌, ◌++◌,
  ltb, ◌==◌, inl, inr, Bool-cases, ==_iff, arith, tests,
}
use catenary_backend.Common.Words.{u32_mod}
use catenary_backend.Schedules.Clock.{Text, read_digits, read_number, parse_u32, digits, pad}

-- Only digits stand in the text.
unfoldable pub AllDigits : Text → Type 0
AllDigits [] = Unit
AllDigits (c ∷ text) = (48 ≤ c) × (c ≤ 57) × AllDigits text

AllDigits-append : (a b : Text) → AllDigits a → AllDigits b → AllDigits (a ++ b)
unfolding AllDigits
AllDigits-append [] b h k = k
AllDigits-append (c ∷ a) b (low, high, h) k = (low, high, AllDigits-append a b h k)

digits-AllDigits : (fuel n : ℕ) → AllDigits (digits fuel n)
unfolding digits AllDigits
digits-AllDigits zero n = (omega arith, omega arith, tt)
digits-AllDigits (suc fuel) n = elim (Bool-cases (ltb n 10)) [
  | inl small ↦ rw small (omega arith, omega (tests, small), tt)
  | inr large ↦ rw large (
      AllDigits-append (digits fuel (n / 10)) ((48 + n % 10) ∷ []) (digits-AllDigits fuel (n / 10))
        (omega arith, omega arith, tt))
]

pub pad-AllDigits : (n : ℕ) → AllDigits (pad n)
unfolding pad AllDigits
pad-AllDigits n = elim (Bool-cases (ltb n 10)) [
  | inl small ↦ rw small (omega arith, omega arith, digits-AllDigits 9 n)
  | inr large ↦ rw large (digits-AllDigits 9 n)
]

-- A text that is read up to its last digit.
read_digits-append :
    (text : Text) (c n m : ℕ)
    → read_digits text n ≡ some m
    → read_digits (text ++ c ∷ []) n ≡ read_digits (c ∷ []) m
unfolding read_digits
read_digits-append [] c n m e = ground (arith, e)
read_digits-append (x ∷ text) c n m e =
    ground (arith, e, read_digits-append text c (n * 10 + (x - 48)) m)

-- A digit is read.
read_digits-digit :
    (n d : ℕ) → d < 10 → n * 10 + d < u32_mod → read_digits ((48 + d) ∷ []) n ≡ some (n * 10 + d)
unfolding read_digits
read_digits-digit n d small fits = ground arith

abbrev pub ten_to : ℕ → ℕ
ten_to zero = 1
ten_to (suc k) = 10 * ten_to k

read_digits-digits :
    (fuel n : ℕ) → n < 10 * ten_to fuel → n < u32_mod → read_digits (digits fuel n) 0 ≡ some n
unfolding digits
read_digits-digits zero n short fits =
    read_digits-digit 0 (n % 10) (omega arith) (omega arith) ∙ ap some (omega arith)
read_digits-digits (suc fuel) n short fits = elim (Bool-cases (ltb n 10)) [
  | inl small ↦
      rw small (read_digits-digit 0 n (omega (tests, small)) (omega arith) ∙ ap some (omega arith))
  | inr large ↦
      let front = read_digits-digits fuel (n / 10) (omega arith) (omega arith) in
      rw large (
        read_digits-append (digits fuel (n / 10)) (48 + n % 10) 0 (n / 10) front
        ∙ read_digits-digit (n / 10) (n % 10) (omega arith) (omega arith)
        ∙ ap some (omega arith))
]

-- A number that is read from digits is one that parses: there is no sign, and no empty text.
parse_u32-read_digits :
    (text : Text) (n : ℕ)
    → AllDigits text
    → text ≢ []
    → read_digits text 0 ≡ some n
    → parse_u32 text ≡ some n
unfolding parse_u32 read_number AllDigits
parse_u32-read_digits [] n all nonempty e = absurd (nonempty refl)
parse_u32-read_digits (c ∷ text) n (low, high, all) nonempty e = elim (Bool-cases (c == 43)) [
  | inl plus ↦ absurd (omega (arith, (==_iff c 43).0 plus, low))
  | inr other ↦ rw other e
]

pad-read : (n : ℕ) → n < u32_mod → read_digits (pad n) 0 ≡ some n
unfolding pad read_digits
pad-read n fits = elim (Bool-cases (ltb n 10)) [
  | inl small ↦ rw small (read_digits-digits 9 n (omega arith) fits)
  | inr large ↦ rw large (read_digits-digits 9 n (omega arith) fits)
]

append-ne-nil : (a : Text) (c : ℕ) → a ++ c ∷ [] ≢ []
append-ne-nil [] c = cons-ne-nil c []
append-ne-nil (x ∷ a) c = cons-ne-nil x (a ++ c ∷ [])

digits-ne-nil : (fuel n : ℕ) → digits fuel n ≢ []
unfolding digits
digits-ne-nil zero n = cons-ne-nil (48 + n % 10) []
digits-ne-nil (suc fuel) n = elim (Bool-cases (ltb n 10)) [
  | inl small ↦ rw small (cons-ne-nil (48 + n) [])
  | inr large ↦ rw large (append-ne-nil (digits fuel (n / 10)) (48 + n % 10))
]

pad-ne-nil : (n : ℕ) → pad n ≢ []
unfolding pad
pad-ne-nil n = elim (Bool-cases (ltb n 10)) [
  | inl small ↦ rw small (cons-ne-nil 48 (digits 9 n))
  | inr large ↦ rw large (digits-ne-nil 9 n)
]

pub parse_u32-pad : (n : ℕ) → n < u32_mod → parse_u32 (pad n) ≡ some n
parse_u32-pad n fits =
    parse_u32-read_digits (pad n) n (pad-AllDigits n) (pad-ne-nil n) (pad-read n fits)
