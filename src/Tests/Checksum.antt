-- ===== src/Tests/Checksum.antt =====
-- The theorems on the checksum at concrete inputs.
use fsarchiver.Base.{◌*◌, ◌+◌, ◌^◌, ◌≡◌, ◌≢◌, [], ◌∷◌, arith}
use fsarchiver.Fletcher.{fletcher32}
use fsarchiver.Fletcher.Spec.{sum_of, sum_of_sums, residue, fletcher32_lem}
use fsarchiver.Fletcher.Detect.{fletcher32_one_byte}

fletcher32_lem_example :
    fletcher32 (1 ∷ 200 ∷ 255 ∷ [])
    ≡ residue (sum_of_sums (1 ∷ 200 ∷ 255 ∷ []) 0 0) * 2 ^ 16
      + residue (sum_of (1 ∷ 200 ∷ 255 ∷ []) 0)
fletcher32_lem_example =
    fletcher32_lem (1 ∷ 200 ∷ 255 ∷ []) (omega arith, (omega arith, (omega arith, tt)))

fletcher32_one_byte_example : fletcher32 (5 ∷ 0 ∷ 9 ∷ []) ≢ fletcher32 (5 ∷ 255 ∷ 9 ∷ [])
fletcher32_one_byte_example =
    fletcher32_one_byte (5 ∷ []) 0 255 (9 ∷ []) (omega arith, (omega arith, (omega arith, tt)))
      (omega arith) (λ e. omega (arith, e))
