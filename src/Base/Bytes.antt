-- ===== src/Base/Bytes.antt =====
-- Machine words in memory: types.h. `cpu_to_le` followed by a copy of the word lays its bytes out
-- lowest first on either kind of host, and `le_to_cpu` reads them back.
use Prim.Native.Nat.{ℕ, zero, suc, ◌+◌, ◌*◌, ◌/◌, ◌%◌, ◌^◌, ◌<◌}
use mathlib.Core.Path.{◌≡◌, refl}
use mathlib.Core.List.{List, [], ◌∷◌}
use native.Mathlib.Omega.{arith}
use fsarchiver.Base.Lists.{length}

-- The `w` bytes of `cpu_to_le(x)`.
unfoldable pub put_le : ℕ → ℕ → List ℕ
put_le zero x = []
put_le (suc w) x = (x % 256) ∷ put_le w (x / 256)

-- `le_to_cpu` of the word with these bytes.
unfoldable pub get_le : List ℕ → ℕ
get_le [] = 0
get_le (b ∷ bs) = b + 256 * get_le bs

pub length-put_le : (w x : ℕ) → length (put_le w x) ≡ w
unfolding put_le
length-put_le zero x = refl
length-put_le (suc w) x = omega (arith, length-put_le w (x / 256))

pub get_le-put_le : (w x : ℕ) → x < 256 ^ w → get_le (put_le w x) ≡ x
unfolding put_le get_le
get_le-put_le zero x h = omega arith
get_le-put_le (suc w) x h = omega (arith, get_le-put_le w (x / 256) (omega arith))
