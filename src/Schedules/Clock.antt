-- ===== src/Schedules/Clock.antt =====
-- Times of day as text: `convert_hhmmss_to_seconds` and `number_of_seconds_to_hhmmss` of src/lib.rs,
-- with what they use of the standard library. A text is the list of the codes of its characters.
pub mod Digits
pub mod RoundTrip
use catenary_backend.Common.{
  ℕ, zero, suc, ◌+◌, ◌-◌, ◌*◌, ◌/◌, ◌%◌, Bool, Option, none, some, List, [], ◌∷◌, ◌++◌, ◌>>=◌, ◌&&◌,
  ltb, leb, ◌==◌, if◌then◌else◌,
}
use catenary_backend.Common.Words.{u32_mod}

abbrev pub Text : Type 0
Text = List ℕ

abbrev pub colon : ℕ
colon = 58

-- c before the first of the texts
unfoldable pub onto_first : ℕ → List Text → List Text
onto_first c [] = (c ∷ []) ∷ []
onto_first c (part ∷ parts) = (c ∷ part) ∷ parts

-- input.split(':').collect()
unfoldable pub split_colon : Text → List Text
split_colon [] = [] ∷ []
split_colon (c ∷ text) =
    let parts = split_colon text in if c == colon then [] ∷ parts else onto_first c parts

-- The digits of `parse::<u32>`, which is an error for another character and for a number of more
-- than 32 bits.
unfoldable pub read_digits : Text → ℕ → Option ℕ
read_digits [] n = some n
read_digits (c ∷ text) n =
    let m = n * 10 + (c - 48) in
    let rest = read_digits text m in if leb 48 c && (leb c 57 && ltb m u32_mod) then rest else none

-- One digit at least.
unfoldable pub read_number : Text → Option ℕ
read_number [] = none
read_number (c ∷ text) = read_digits (c ∷ text) 0

-- parse::<u32>(): a plus sign may stand first.
unfoldable pub parse_u32 : Text → Option ℕ
parse_u32 [] = none
parse_u32 (c ∷ text) = if c == 43 then read_number text else read_number (c ∷ text)

-- The three fields; a text with more or fewer is refused.
unfoldable pub read_parts : List Text → Option ℕ
read_parts (h ∷ m ∷ s ∷ []) = do
  hours ← parse_u32 h
  minutes ← parse_u32 m
  seconds ← parse_u32 s
  some ((hours * 3600 + minutes * 60 + seconds) % u32_mod)
read_parts _ = none

unfoldable pub convert_hhmmss_to_seconds : Text → Option ℕ
convert_hhmmss_to_seconds input = read_parts (split_colon input)

-- The decimal digits of a number with at most `suc fuel` of them.
unfoldable pub digits : ℕ → ℕ → Text
digits zero n = (48 + n % 10) ∷ []
digits (suc fuel) n =
    let front = digits fuel (n / 10) in
    if ltb n 10 then (48 + n) ∷ [] else front ++ (48 + n % 10) ∷ []

-- {:02} of a u32, which has at most ten digits.
unfoldable pub pad : ℕ → Text
pad n = if ltb n 10 then 48 ∷ digits 9 n else digits 9 n

-- format!("{:02}:{:02}:{:02}", hours, minutes, seconds)
unfoldable pub number_of_seconds_to_hhmmss : ℕ → Text
number_of_seconds_to_hhmmss input =
    let hours = input / 3600 in
    let minutes = input % 3600 / 60 in
    let seconds = input % 60 in pad hours ++ colon ∷ (pad minutes ++ colon ∷ pad seconds)
