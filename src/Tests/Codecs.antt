-- ===== src/Tests/Codecs.antt =====
-- The theorems on compression at a concrete input: a codec that cuts the zeros at the end, and a
-- cipher that adds one.
use fsarchiver.Base.{
  ℕ, zero, suc, ◌+◌, ◌-◌, ◌≤◌, ◌≡◌, refl, ap, some, List, [], ◌∷◌, length, replicate, ◌==◌,
  if◌then◌else◌, arith,
}
use fsarchiver.Base.Int.{pos}
use fsarchiver.Dico.{plenty}
use fsarchiver.Fletcher.{fletcher32}
use fsarchiver.Block.{BlockInfo, zero_block}
use fsarchiver.ThreadComp.{Codecs, Options, compress_block_generic, decompress_block_generic}
use fsarchiver.ThreadComp.RoundTrip.{CodecLaws, decompress_block_generic-compress_block_generic}

abbrev cut_before : ℕ → List ℕ → List ℕ
cut_before zero [] = []
cut_before (suc x) [] = suc x ∷ []
cut_before x (y ∷ ys) = x ∷ y ∷ ys

unfoldable cut_zeros : List ℕ → List ℕ
cut_zeros [] = []
cut_zeros (x ∷ xs) = cut_before x (cut_zeros xs)

fill : ℕ → List ℕ → List ℕ
fill n [] = replicate n 0
fill zero (x ∷ xs) = x ∷ xs
fill (suc n) (x ∷ xs) = x ∷ fill n xs

fill-cut_before :
    (x n : ℕ) (ys xs : List ℕ) → fill n ys ≡ xs → fill (suc n) (cut_before x ys) ≡ x ∷ xs
unfolding fill
fill-cut_before zero n [] xs h = ap (◌∷◌ 0) h
fill-cut_before (suc x) n [] xs h = ap (◌∷◌ (suc x)) h
fill-cut_before x n (y ∷ ys) xs h = ap (◌∷◌ x) h

fill-cut_zeros : (xs : List ℕ) → fill (length xs) (cut_zeros xs) ≡ xs
unfolding fill cut_zeros
fill-cut_zeros [] = refl
fill-cut_zeros (x ∷ xs) = fill-cut_before x (length xs) (cut_zeros xs) xs (fill-cut_zeros xs)

unfoldable add_one : List ℕ → List ℕ
add_one [] = []
add_one (x ∷ xs) = (x + 1) ∷ add_one xs

unfoldable take_one : List ℕ → List ℕ
take_one [] = []
take_one (x ∷ xs) = (x - 1) ∷ take_one xs

length-add_one : (xs : List ℕ) → length (add_one xs) ≡ length xs
unfolding add_one
length-add_one [] = refl
length-add_one (x ∷ xs) = ap suc (length-add_one xs)

take_one-add_one : (xs : List ℕ) → take_one (add_one xs) ≡ xs
unfolding add_one take_one
take_one-add_one [] = refl
take_one-add_one (x ∷ xs) = ground (arith, take_one-add_one xs)

abbrev codecs : Codecs
codecs = record {
  supported = λ algo. algo == 3;
  compress = λ algo bytes size level. (pos 0, cut_zeros bytes);
  uncompress = λ algo bytes size. (pos 0, fill size bytes);
  blowfish = λ encrypt password bytes. (pos 0, if encrypt then add_one bytes else take_one bytes);
}

abbrev options : Options
options = record {
  compressalgo = 3;
  compresslevel = 6;
  encryptalgo = 2;
  encryptpass = 112 ∷ 119 ∷ [];
  def_compress_algo = 3;
  def_compress_level = 6;
}

codecs-CodecLaws : CodecLaws codecs options
codecs-CodecLaws = record {
  has_algo = refl;
  has_default = refl;
  real_algo = refl;
  real_default = refl;
  uncompresses = λ algo bytes size level ok. ap (λ xs. (pos 0, xs)) (fill-cut_zeros bytes);
  encrypts =
      λ crypt bytes. (refl, length-add_one bytes, ap (λ xs. (pos 0, xs)) (take_one-add_one bytes));
}

abbrev clear_block : BlockInfo
clear_block = record zero_block { blkdata = 7 ∷ 8 ∷ 0 ∷ 0 ∷ 0 ∷ []; blkrealsize = 5 }

decompress_block_generic-compress_block_generic_example :
    (sent got : BlockInfo) × (compress_block_generic plenty codecs options clear_block
      ≡ (pos 0, sent))
    × (sent.blkarsize ≡ length sent.blkdata)
    × (sent.blkarcsum ≡ fletcher32 sent.blkdata)
    × (length sent.blkdata ≤ 5)
    × (decompress_block_generic plenty (replicate 5 1) codecs options sent ≡ some (pos 0, got))
    × (got.blkdata ≡ 7 ∷ 8 ∷ 0 ∷ 0 ∷ 0 ∷ [])
decompress_block_generic-compress_block_generic_example =
    decompress_block_generic-compress_block_generic codecs options clear_block (replicate 5 1)
      codecs-CodecLaws refl (omega arith) refl
