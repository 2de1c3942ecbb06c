-- ===== src/Checksum.antt =====
-- src/utils.c: the Internet checksum of a block, and its test. `len` is the `int` of the source, and
-- is never negative in a call.
pub mod Value
pub mod Verify
use simple_vpn.Base.{
  ℕ, zero, suc, ◌+◌, [], ◌∷◌, Option, none, some, ◌>>=◌, if◌then◌else◌, ltb, ◌==◌, u16, u32, ◌<<<◌,
  ◌>>>◌, not32, swap16, bit_or, bit_and, drop, Status, success, failure,
}
use simple_vpn.Memory.{Bytes, load8}

-- The loop over the pairs of bytes and the odd byte at the end, on the block from `block` on.
unfoldable pub sum_loop : Bytes → ℕ → ℕ → Option ℕ
sum_loop block zero sum = some sum
sum_loop block (suc zero) sum = do b0 ← load8 block 0; some (u32 (sum + (b0 <<< 8)))
sum_loop block (suc (suc len)) sum = do
  b0 ← load8 block 0
  b1 ← load8 block 1
  sum_loop (drop 2 block) len (u32 (sum + bit_or (b0 <<< 8) b1))

-- `while (sum > 0xffff)`, with fuel; `none` if the fuel runs out.
unfoldable pub fold_carries : ℕ → ℕ → Option ℕ
fold_carries zero sum = none
fold_carries (suc fuel) sum =
    let rest = fold_carries fuel ((sum >>> 16) + bit_and sum 0xffff) in
    if ltb 0xffff sum then rest else some sum

abbrev pub fold_fuel : ℕ
fold_fuel = 3

unfoldable pub cksum : Bytes → ℕ → Option ℕ
cksum block len = do
  total ← sum_loop block len 0
  folded ← fold_carries fold_fuel total
  let sum = swap16 (u16 (not32 folded))
  some (if sum == 0 then 0xffff else sum)

pub verify_checksum : Bytes → ℕ → ℕ → Option Status
verify_checksum buf len old_cksum = do
  sum ← cksum buf len
  some (if sum == old_cksum then success else failure)
