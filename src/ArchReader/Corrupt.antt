-- ===== src/ArchReader/Corrupt.antt =====
-- archreader.c: a header whose data were damaged on the disk.
use fsarchiver.Base.{
  ℕ, ◌+◌, ◌^◌, ◌<◌, ◌≡◌, ◌≢◌, sym, some, List, ◌∷◌, ◌++◌, arith, length, length-append,
}
use fsarchiver.Base.Code
use fsarchiver.Base.Bytes.{put_le, length-put_le, get_le-put_le}
use fsarchiver.Dico.{Memory, Dico, plenty}
use fsarchiver.Fletcher.{fletcher32}
use fsarchiver.Fletcher.Spec.{fletcher32-lt, AllBytes}
use fsarchiver.Fletcher.Detect.{fletcher32_one_byte}
use fsarchiver.ArchReader.{ArchReader, seek, parse_header, read_headerlen, archreader_read_dico}
use fsarchiver.ArchReader.Reading.{ahead, read_data_ahead, ahead-seek}

-- Header data that do not have the checksum are refused, and nothing is added to the dictionary.
parse_header_refuses :
    (mem : Memory) (buffer : List ℕ) (origsum : ℕ) (d : Dico)
    → fletcher32 buffer ≢ origsum
    → parse_header mem buffer origsum d ≡ some (Code.old_minor, d)
unfolding parse_header
parse_header_refuses mem buffer origsum d ne = ground arith

-- A header that was written with the data `xs ++ b ∷ ys`, and whose byte `b` has since become another
-- one, is answered with OLDERR_MINOR: no attribute of it reaches the dictionary, and the reader
-- stands behind it.
pub archreader_read_dico_corrupt :
    (ai : ArchReader) (xs : List ℕ) (b c : ℕ) (ys rest : List ℕ) (d : Dico)
    → ai.filefmtver ≡ 2
    → AllBytes (xs ++ (b ∷ ys))
    → c < 256
    → b ≢ c
    → length (xs ++ (b ∷ ys)) < 2 ^ 32
    → ahead ai
      ≡ put_le 4 (length (xs ++ (b ∷ ys)))
        ++ ((xs ++ (c ∷ ys)) ++ (put_le 4 (fletcher32 (xs ++ (b ∷ ys))) ++ rest))
    → archreader_read_dico plenty ai d
      ≡ some (Code.old_minor, d, seek ai (ai.volume.pos + 4 + length (xs ++ (b ∷ ys)) + 4))
unfolding archreader_read_dico read_headerlen
archreader_read_dico_corrupt ai xs b c ys rest d v bytes hc ne small a0 =
    let old = xs ++ (b ∷ ys) in
    let new = xs ++ (c ∷ ys) in
    let n = length old in
    let same : n ≡ length new =
      omega (arith, length-append xs (b ∷ ys), length-append xs (c ∷ ys)) in
    let sum = put_le 4 (fletcher32 old) in
    let ai1 = seek ai (ai.volume.pos + 4) in
    let a1 : ahead ai1 ≡ new ++ (sum ++ rest) =
      ahead-seek ai (put_le 4 n) (new ++ (sum ++ rest)) 4 (sym (length-put_le 4 n)) a0 in
    let ai2 = seek ai1 (ai1.volume.pos + n) in
    let a2 : ahead ai2 ≡ sum ++ rest = ahead-seek ai1 new (sum ++ rest) n same a1 in
    ground (
      arith,
      v,
      read_data_ahead ai (put_le 4 n) (new ++ (sum ++ rest)) 4 (sym (length-put_le 4 n)) a0,
      get_le-put_le 4 n small,
      read_data_ahead ai1 new (sum ++ rest) n same a1,
      read_data_ahead ai2 sum rest 4 (sym (length-put_le 4 (fletcher32 old))) a2,
      get_le-put_le 4 (fletcher32 old) (fletcher32-lt old),
      parse_header_refuses plenty new (fletcher32 old) d
          (λ e. fletcher32_one_byte xs b c ys bytes hc ne (sym e)),
    )
