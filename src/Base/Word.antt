-- ===== src/Base/Word.antt =====
-- Casts to the fixed widths, shifts, complement and byte swaps of C's unsigned words.
use Prim.Native.Nat.{ℕ, ◌+◌, ◌-◌, ◌*◌, ◌/◌, ◌%◌, ◌^◌, ◌<◌}
use mathlib.Core.Path.{◌≡◌}
use native.Mathlib.Omega.{arith}

abbrev pub u8 : ℕ → ℕ
u8 n = n % 2 ^ 8

abbrev pub u16 : ℕ → ℕ
u16 n = n % 2 ^ 16

abbrev pub u32 : ℕ → ℕ
u32 n = n % 2 ^ 32

infixl 75 ◌<<<◌ ◌>>>◌
abbrev pub ◌<<<◌ : ℕ → ℕ → ℕ
x <<< k = x * 2 ^ k

abbrev pub ◌>>>◌ : ℕ → ℕ → ℕ
x >>> k = x / 2 ^ k

-- `~x` of a `uint32_t`.
abbrev pub not32 : ℕ → ℕ
not32 x = 2 ^ 32 - 1 - x

-- `htons` and `ntohs` on a little-endian machine: the two bytes change places.
unfoldable pub swap16 : ℕ → ℕ
swap16 v = u16 v % 256 * 256 + u16 v / 256

-- `htonl` and `ntohl` on a little-endian machine.
unfoldable pub swap32 : ℕ → ℕ
swap32 v = swap16 (u16 v) * 65536 + swap16 (u32 v / 65536)

pub swap16-lt : (v : ℕ) → swap16 v < 65536
unfolding swap16
swap16-lt v = omega arith

pub swap16-swap16 : (v : ℕ) → v < 65536 → swap16 (swap16 v) ≡ v
unfolding swap16
swap16-swap16 v h = omega arith

pub swap32-lt : (v : ℕ) → swap32 v < 2 ^ 32
unfolding swap32
swap32-lt v = omega (arith, swap16-lt (u16 v), swap16-lt (u32 v / 65536))

pub swap32-swap32 : (v : ℕ) → v < 2 ^ 32 → swap32 (swap32 v) ≡ v
unfolding swap32 swap16
swap32-swap32 v h = omega arith
