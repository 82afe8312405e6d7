-- ===== src/Prelude/Words.antt =====
-- C integers. An unsigned word is a number below its modulus; an `int` is its 32-bit pattern, so
-- that conversions between `int` and `uint32_t` are the identity.
use Prim.Native.Nat.{ℕ, ◌+◌, ◌-◌, ◌%◌, ◌^◌}
use mathlib.Core.Bool.{Bool}
use spike_virtio_devices.Prelude.Tests.{ltb, leb, if◌then◌else◌}

abbrev pub u8 : ℕ → ℕ
u8 n = n % 256

abbrev pub u16 : ℕ → ℕ
u16 n = n % 2 ^ 16

abbrev pub u32 : ℕ → ℕ
u32 n = n % 2 ^ 32

abbrev pub u64 : ℕ → ℕ
u64 n = n % 2 ^ 64

-- Addition and subtraction of `uint32_t` (and, on patterns, of `int`).
abbrev pub add32 : ℕ → ℕ → ℕ
add32 a b = (a + b) % 2 ^ 32

abbrev pub sub32 : ℕ → ℕ → ℕ
sub32 a b = (a + (2 ^ 32 - b)) % 2 ^ 32

abbrev pub add64 : ℕ → ℕ → ℕ
add64 a b = (a + b) % 2 ^ 64

-- An `int` pattern stands for a negative number.
abbrev pub is_neg : ℕ → Bool
is_neg a = leb (2 ^ 31) a

-- The signed comparison `a < b` of two `int`s.
abbrev pub slt : ℕ → ℕ → Bool
slt a b = ltb ((a + 2 ^ 31) % 2 ^ 32) ((b + 2 ^ 31) % 2 ^ 32)

-- The conversion of an `int` to 64 bits extends its sign.
abbrev pub sext64 : ℕ → ℕ
sext64 a = if is_neg a then a + (2 ^ 64 - 2 ^ 32) else a
