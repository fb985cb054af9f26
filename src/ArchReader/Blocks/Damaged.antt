-- ===== src/ArchReader/Blocks/Damaged.antt =====
-- archreader.c: a block whose data were damaged in the archive.
use fsarchiver.Base.{
  ℕ, ◌<◌, ◌≡◌, ◌≢◌, ap, ◌∙◌, sym, false, List, ◌∷◌, ◌++◌, arith, ◌==◌, Bool-cases, length,
  length-append, take, take-append, replicate, inl, inr,
}
use fsarchiver.Base.Int.{pos}
use fsarchiver.Dico.{plenty}
use fsarchiver.Fletcher.{fletcher32}
use fsarchiver.Fletcher.Spec.{AllBytes}
use fsarchiver.Fletcher.Detect.{fletcher32_one_byte}
use fsarchiver.Block.{BlockInfo}
use fsarchiver.ArchReader.{ArchReader, seek}
use fsarchiver.ArchReader.Reading.{ahead}
use fsarchiver.ArchReader.Blocks.{Stack, read_block_data, archreader_read_block}
use fsarchiver.ArchReader.Blocks.RoundTrip.{IsStack, block_items, read_block_head-block_items}
use fsarchiver.ArchReader.Blocks.EndToEnd.{IsStored, read_back}

sum_differs :
    (xs : List ℕ) (x y : ℕ) (ys : List ℕ) (sum : ℕ)
    → AllBytes (xs ++ (x ∷ ys))
    → y < 256
    → x ≢ y
    → sum ≡ fletcher32 (xs ++ (x ∷ ys))
    → (fletcher32 (xs ++ (y ∷ ys)) == sum) ≡ false
sum_differs xs x y ys sum a hy ne e =
    let apart = fletcher32_one_byte xs x y ys a hy ne in
    elim (Bool-cases (fletcher32 (xs ++ (y ∷ ys)) == sum)) [
      | inl same ↦ elim (apart (sym e ∙ sym (ground (arith, same)))) [ ]
      | inr other ↦ other
    ]

-- When one byte of a stored block was changed in the archive, reading the block succeeds, the
-- checksum is reported bad, the data are zeros of the block's real size, the attributes are the
-- stored ones, and the reader stands again where the data begin.
pub archreader_read_block_one_byte :
    (stack : Stack) (ai : ArchReader) (b : BlockInfo) (xs : List ℕ) (x y : ℕ) (ys rest : List ℕ)
    → IsStack stack
    → IsStored b
    → b.blkdata ≡ xs ++ (x ∷ ys)
    → AllBytes (xs ++ (x ∷ ys))
    → y < 256
    → x ≢ y
    → ahead ai ≡ (xs ++ (y ∷ ys)) ++ rest
    → archreader_read_block stack plenty ai (block_items b) false ≡ record {
      res = pos 0;
      sumok = pos 0;
      blkinfo = record (read_back b) { blkdata = replicate b.blkrealsize 0 };
      reader = seek ai ai.volume.pos;
    }
unfolding archreader_read_block read_block_data
archreader_read_block_one_byte stack ai b xs x y ys rest s i d a hy ne next =
    let size : b.blkarsize ≡ length (xs ++ (y ∷ ys)) =
      omega (arith, i.arsize, ap length d, length-append xs (x ∷ ys), length-append xs (y ∷ ys)) in
    ground (
      arith,
      read_block_head-block_items stack b s i.fits,
      ap (take b.blkarsize) next,
      take-append b.blkarsize (xs ++ (y ∷ ys)) rest size,
      size,
      sum_differs xs x y ys b.blkarcsum a hy ne (i.arcsum ∙ ap fletcher32 d),
    )
