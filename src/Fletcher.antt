-- ===== src/Fletcher.antt =====
-- common.c: `fletcher32`, the checksum of every header and every block of an archive.
pub mod Spec
pub mod Detect
use fsarchiver.Base.{
  ℕ, zero, suc, ◌+◌, ◌*◌, ◌/◌, ◌%◌, ◌^◌, List, [], ◌∷◌, ltb, if◌then◌else◌, length,
}
use Prim.Native.Nat.{bit_or}

-- A u32 addition.
abbrev pub add32 : ℕ → ℕ → ℕ
add32 a b = (a + b) % 2 ^ 32

-- The inner `do … while (--tlen)`: both sums, and the rest of the data.
unfoldable pub sum_block : ℕ → List ℕ → ℕ → ℕ → ℕ × ℕ × List ℕ
sum_block zero bs sum1 sum2 = (sum1, sum2, bs)
sum_block (suc tlen) [] sum1 sum2 = (sum1, sum2, [])
sum_block (suc tlen) (b ∷ bs) sum1 sum2 =
    let sum1' = add32 sum1 b in sum_block tlen bs sum1' (add32 sum2 sum1')

-- `(sum & 0xffff) + (sum >> 16)`
unfoldable pub fold : ℕ → ℕ
fold sum = add32 (sum % 2 ^ 16) (sum / 2 ^ 16)

-- `while (len)`, where `len` is what is left of the data. A round takes at least one byte.
unfoldable pub fletcher_loop : ℕ → List ℕ → ℕ → ℕ → ℕ × ℕ
unfolding sum_block fold
fletcher_loop fuel [] sum1 sum2 = (sum1, sum2)
fletcher_loop zero (b ∷ bs) sum1 sum2 = (sum1, sum2)
fletcher_loop (suc fuel) (b ∷ bs) sum1 sum2 =
    let len = length (b ∷ bs) in
    let tlen : ℕ = if ltb 360 len then 360 else len in
    let (s1, s2, rest) = sum_block tlen (b ∷ bs) sum1 sum2 in
    fletcher_loop fuel rest (fold s1) (fold s2)

unfoldable pub fletcher32 : List ℕ → ℕ
unfolding fletcher_loop
fletcher32 bs =
    let (sum1, sum2) = fletcher_loop (length bs) bs 0xffff 0xffff in
    bit_or (fold sum2 * 2 ^ 16 % 2 ^ 32) (fold sum1)
