-- ===== src/Memory.antt =====
-- Blocks of memory, and what the program takes from the C library to read and write them: calloc,
-- memcpy, strncpy, strlen, and the loads and stores of `uint8_t`, `uint16_t` and `uint32_t` on a
-- little-endian machine. A block is the list of its bytes, and a pointer is a block with an offset.
-- `none` is an access outside the block, which C leaves undefined.
pub mod Laws
pub mod Strings
use simple_vpn.Base.{
  ℕ, zero, suc, ◌+◌, ◌*◌, ◌/◌, ◌%◌, ◌<◌, List, [], ◌∷◌, Option, none, some, ◌>>=◌, u8, ◌==◌,
  get_elem?, replicate, Bool, true, false,
}
use simple_vpn.Base.{if◌then◌else◌}

abbrev pub Bytes : Type 0
Bytes = List ℕ

-- Every entry is a byte.
abbrev pub IsBytes : Bytes → Type 0
IsBytes [] = Unit
IsBytes (x ∷ xs) = (x < 256) × IsBytes xs

-- The content of a C string: bytes, none of them NUL.
abbrev pub IsText : Bytes → Type 0
IsText [] = Unit
IsText (c ∷ s) = (0 < c) × (c < 256) × IsText s

abbrev pub calloc : ℕ → Bytes
calloc n = replicate n 0

abbrev pub load8 : Bytes → ℕ → Option ℕ
load8 = get_elem?

unfoldable pub store8 : Bytes → ℕ → ℕ → Option Bytes
store8 [] i v = none
store8 (x ∷ block) zero v = some (u8 v ∷ block)
store8 (x ∷ block) (suc i) v = do rest ← store8 block i v; some (x ∷ rest)

unfoldable pub load16 : Bytes → ℕ → Option ℕ
load16 block i = do lo ← load8 block i; hi ← load8 block (i + 1); some (lo + hi * 256)

unfoldable pub load32 : Bytes → ℕ → Option ℕ
load32 block i = do
  b0 ← load8 block i
  b1 ← load8 block (i + 1)
  b2 ← load8 block (i + 2)
  b3 ← load8 block (i + 3)
  some (b0 + b1 * 256 + b2 * 65536 + b3 * 16777216)

unfoldable pub store16 : Bytes → ℕ → ℕ → Option Bytes
unfolding store8
store16 block i v = do block ← store8 block i v; store8 block (i + 1) (v / 256)

unfoldable pub store32 : Bytes → ℕ → ℕ → Option Bytes
unfolding store8
store32 block i v = do
  block ← store8 block i v
  block ← store8 block (i + 1) (v / 256)
  block ← store8 block (i + 2) (v / 65536)
  store8 block (i + 3) (v / 16777216)

-- The bytes stored one after another from an offset on.
unfoldable pub write : Bytes → ℕ → Bytes → Option Bytes
unfolding store8
write block i [] = some block
write block i (v ∷ vs) = do block' ← store8 block i v; write block' (i + 1) vs

-- The first `n` bytes of a block.
unfoldable pub read : Bytes → ℕ → Option Bytes
read block zero = some []
read [] (suc n) = none
read (x ∷ block) (suc n) = do rest ← read block n; some (x ∷ rest)

-- memcpy(block + i, source, n)
unfoldable pub memcpy : Bytes → ℕ → Bytes → ℕ → Option Bytes
unfolding write read
memcpy block i source n = do bytes ← read source n; write block i bytes

-- The first `n` bytes of a string, filled up with NUL.
abbrev pub padded : Bytes → ℕ → Bytes
padded s zero = []
padded [] (suc n) = 0 ∷ padded [] n
padded (c ∷ s) (suc n) = c ∷ padded s n

-- strncpy(block + i, s, n), where `s` is the content of a C string.
unfoldable pub strncpy : Bytes → ℕ → Bytes → ℕ → Option Bytes
unfolding write
strncpy block i s n = write block i (padded s n)

-- strlen of the string that begins at the block's first byte.
unfoldable pub strlen : Bytes → Option ℕ
strlen [] = none
strlen (c ∷ block) =
    let rest = strlen block in if c == 0 then some 0 else (rest >>= λ n. some (suc n))

-- The content of the string that begins at the block's first byte, as `%s` prints it.
unfoldable pub c_string : Bytes → Option Bytes
c_string [] = none
c_string (c ∷ block) =
    let rest = c_string block in if c == 0 then some [] else (rest >>= λ s. some (c ∷ s))
