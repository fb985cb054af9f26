-- ===== src/Fletcher/Detect.antt =====
-- common.c: which corruptions the checksum of a header or block cannot miss.
use fsarchiver.Base.{ℕ, ◌+◌, ◌<◌, ◌≡◌, ◌≢◌, List, [], ◌∷◌, ◌++◌, arith}
use fsarchiver.Fletcher.{fletcher32}
use fsarchiver.Fletcher.Spec.{
  AllBytes, sum_of, sum_of_sums, fletcher32_lem, sum_of-append, sum_of_sums-append,
}

sum_of_from : (bs : List ℕ) (s : ℕ) → sum_of bs s ≡ s + sum_of bs 0
unfolding sum_of
sum_of_from [] s = omega arith
sum_of_from (b ∷ bs) s = omega (arith, sum_of_from bs (s + b), sum_of_from bs (0 + b))

sum_of_sums_from : (bs : List ℕ) (s t : ℕ) → sum_of_sums bs s t ≡ t + sum_of_sums bs s 0
unfolding sum_of_sums
sum_of_sums_from [] s t = omega arith
sum_of_sums_from (b ∷ bs) s t =
    omega
      (arith, sum_of_sums_from bs (s + b) (t + (s + b)), sum_of_sums_from bs (s + b) (0 + (s + b)))

AllBytes-swap :
    (xs : List ℕ) (b c : ℕ) (ys : List ℕ)
    → AllBytes (xs ++ (b ∷ c ∷ ys))
    → AllBytes (xs ++ (c ∷ b ∷ ys)) × (b < 256) × (c < 256)
AllBytes-swap [] b c ys a = ((a.1.0, (a.0, a.1.1)), a.0, a.1.0)
AllBytes-swap (x ∷ xs) b c ys a =
    let (rest, hb, hc) = AllBytes-swap xs b c ys a.1 in ((a.0, rest), hb, hc)

AllBytes-replace :
    (xs : List ℕ) (b c : ℕ) (ys : List ℕ)
    → AllBytes (xs ++ (b ∷ ys))
    → c < 256
    → AllBytes (xs ++ (c ∷ ys)) × (b < 256)
AllBytes-replace [] b c ys a h = ((h, a.1), a.0)
AllBytes-replace (x ∷ xs) b c ys a h =
    let (rest, hb) = AllBytes-replace xs b c ys a.1 h in ((a.0, rest), hb)

-- Changing one byte of the data changes its checksum.
pub fletcher32_one_byte :
    (xs : List ℕ) (b c : ℕ) (ys : List ℕ)
    → AllBytes (xs ++ (b ∷ ys))
    → c < 256
    → b ≢ c
    → fletcher32 (xs ++ (b ∷ ys)) ≢ fletcher32 (xs ++ (c ∷ ys))
fletcher32_one_byte xs b c ys a hc ne same =
    let (a', hb) = AllBytes-replace xs b c ys a hc in
    ne (
      omega (
        arith,
        same,
        fletcher32_lem (xs ++ (b ∷ ys)) a,
        fletcher32_lem (xs ++ (c ∷ ys)) a',
        total b,
        total c,
      ))
  where
    total : (v : ℕ) → sum_of (xs ++ (v ∷ ys)) 0 ≡ sum_of xs 0 + v + sum_of ys 0
    total v =
        unfold sum_of in
        omega (arith, sum_of-append xs (v ∷ ys) 0, sum_of_from ys (sum_of xs 0 + v))

-- Swapping two different neighbours changes the checksum of the data.
pub fletcher32_swap :
    (xs : List ℕ) (b c : ℕ) (ys : List ℕ)
    → AllBytes (xs ++ (b ∷ c ∷ ys))
    → b ≢ c
    → fletcher32 (xs ++ (b ∷ c ∷ ys)) ≢ fletcher32 (xs ++ (c ∷ b ∷ ys))
fletcher32_swap xs b c ys a ne same =
    let (a', hb, hc) = AllBytes-swap xs b c ys a in
    ne (
      omega (
        arith,
        same,
        fletcher32_lem (xs ++ (b ∷ c ∷ ys)) a,
        fletcher32_lem (xs ++ (c ∷ b ∷ ys)) a',
        total b c (s + b + c) (omega arith),
        total c b (s + b + c) (omega arith),
      ))
  where
    s : ℕ
    s = sum_of xs 0

    t : ℕ
    t = sum_of_sums xs 0 0

    total :
        (v w n : ℕ)
        → n ≡ s + v + w
        → sum_of_sums (xs ++ (v ∷ w ∷ ys)) 0 0 ≡ t + (s + v) + n + sum_of_sums ys n 0
    total v w n e = rw e (
        unfold sum_of_sums in
        omega (
          arith,
          sum_of_sums-append xs (v ∷ w ∷ ys) 0 0,
          sum_of_sums_from ys (s + v + w) (t + (s + v) + (s + v + w)),
        ))
