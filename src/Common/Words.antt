-- ===== src/Common/Words.antt =====
-- Machine words as native numbers. The release build of Rust wraps `+` and `-` modulo 2 ^ w.
use Prim.Native.Nat.{ℕ, ◌+◌, ◌-◌, ◌%◌, ◌<◌}
use mathlib.Core.Path.{◌≡◌}
use native.Mathlib.Omega.{arith}
use catenary_backend.Common.Tests.{ltb, if◌then◌else◌}

abbrev pub u32_mod : ℕ
u32_mod = 0x1_0000_0000

abbrev pub u32_max : ℕ
u32_max = 0xffff_ffff

abbrev pub u16_mod : ℕ
u16_mod = 0x1_0000

-- a + b on u32
unfoldable pub add32 : ℕ → ℕ → ℕ
add32 a b = (a + b) % u32_mod

-- a - b on u32
unfoldable pub sub32 : ℕ → ℕ → ℕ
sub32 a b = (a + u32_mod - b) % u32_mod

-- a.saturating_add(b) on u32
unfoldable pub saturating_add32 : ℕ → ℕ → ℕ
saturating_add32 a b = if ltb u32_max (a + b) then u32_max else a + b

pub add32_exact : (a b : ℕ) → a + b < u32_mod → add32 a b ≡ a + b
unfolding add32
add32_exact a b h = omega arith
