-- ===== src/Tests/Blocks.antt =====
-- The theorems on the blocks of an archive at concrete inputs.
use fsarchiver.Base.{
  ℕ, zero, suc, ◌≡◌, refl, false, some, List, [], ◌∷◌, ◌++◌, length, replicate, arith, inl,
}
use fsarchiver.Base.Int.{pos}
use fsarchiver.Constants.{magic_blkh}
use fsarchiver.Dico.{plenty}
use fsarchiver.Fletcher.{fletcher32}
use fsarchiver.Fletcher.Spec.{fletcher32-lt}
use fsarchiver.Block.{BlockInfo, zero_block}
use fsarchiver.Writebuf.{writebuf_add_block}
use fsarchiver.Writebuf.Layout.{buffer_of}
use fsarchiver.ArchReader.{ArchReader, seek, archreader_read_header}
use fsarchiver.ArchReader.Blocks.{Stack, archreader_read_block}
use fsarchiver.ArchReader.Blocks.RoundTrip.{IsStack, block_items}
use fsarchiver.ArchReader.Blocks.EndToEnd.{
  IsStored, block_header, read_back, writebuf_add_block_writes,
  archreader_read_block-writebuf_add_block,
}
use fsarchiver.ArchReader.Blocks.Damaged.{archreader_read_block_one_byte}
use fsarchiver.Tests.Sample.{reader_at}

abbrev sample_block : BlockInfo
sample_block = record zero_block {
  blkdata = 1 ∷ 2 ∷ 3 ∷ [];
  blkrealsize = 3;
  blkoffset = 4096;
  blkarsize = 3;
  blkcompsize = 3;
  blkarcsum = fletcher32 (1 ∷ 2 ∷ 3 ∷ []);
  blkcompalgo = 1;
  blkcryptalgo = 1;
  blkfsid = 2;
}

sample_block-IsStored : IsStored sample_block
sample_block-IsStored = record {
  fits = record {
    offset_word = omega arith;
    realsize_max = omega arith;
    arsize_word = omega arith;
    compsize_word = omega arith;
    arcsum_word = fletcher32-lt (1 ∷ 2 ∷ 3 ∷ []);
    compalgo_word = omega arith;
    cryptalgo_word = omega arith;
  };
  some_data = omega arith;
  arsize = refl;
  arcsum = refl;
}

-- The uninitialised words: eight, four and two bytes.
abbrev stack : Stack
stack zero = replicate 8 170
stack (suc zero) = replicate 4 170
stack (suc (suc zero)) = replicate 2 170
stack (suc (suc (suc zero))) = replicate 2 170
stack (suc (suc (suc (suc k)))) = replicate 4 170

stack-IsStack : IsStack stack
stack-IsStack = record {
  offset = refl;
  realsize = refl;
  compalgo = refl;
  cryptalgo = refl;
  arsize = refl;
  compsize = refl;
  arcsum = refl;
}

block_written :
    writebuf_add_block plenty (buffer_of (1 ∷ [])) sample_block 42 2
    ≡ some (pos 0, buffer_of (((1 ∷ []) ++ block_header sample_block 42 2) ++ (1 ∷ 2 ∷ 3 ∷ [])))
block_written =
    writebuf_add_block_writes (1 ∷ []) sample_block 42 2 sample_block-IsStored (omega arith)
      (omega arith) (omega arith)

writebuf_add_block_writes_example :
    writebuf_add_block plenty (buffer_of (1 ∷ [])) sample_block 42 2
    ≡ some (pos 0, buffer_of (((1 ∷ []) ++ block_header sample_block 42 2) ++ (1 ∷ 2 ∷ 3 ∷ [])))
writebuf_add_block_writes_example =
    writebuf_add_block_writes (1 ∷ []) sample_block 42 2 sample_block-IsStored (omega arith)
      (omega arith) (omega arith)

abbrev block_bytes_written : List ℕ
block_bytes_written = ((1 ∷ []) ++ block_header sample_block 42 2) ++ (1 ∷ 2 ∷ 3 ∷ [])

archreader_read_block-writebuf_add_block_example :
    (r : ArchReader) × (archreader_read_header plenty
        (reader_at (block_bytes_written ++ (9 ∷ [])) 1)
        false
      ≡ some (record {
        res = pos 0;
        magic = magic_blkh;
        dico = some (block_items sample_block);
        fsid = 2;
        reader = r;
      }))
    × (archreader_read_block stack plenty r (block_items sample_block) false ≡ record {
      res = pos 0;
      sumok = pos 1;
      blkinfo = read_back sample_block;
      reader = seek (reader_at (block_bytes_written ++ (9 ∷ [])) 1) (length block_bytes_written);
    })
archreader_read_block-writebuf_add_block_example =
    archreader_read_block-writebuf_add_block stack (reader_at (block_bytes_written ++ (9 ∷ [])) 1)
      false (1 ∷ []) (9 ∷ []) sample_block 42 2 (buffer_of block_bytes_written) stack-IsStack
      sample_block-IsStored (omega arith) (omega arith) (omega arith) block_written refl refl refl
      (inl refl)

archreader_read_block_one_byte_example :
    archreader_read_block stack plenty
      (reader_at (7 ∷ 1 ∷ 99 ∷ 3 ∷ 8 ∷ []) 1)
      (block_items sample_block)
      false
    ≡ record {
      res = pos 0;
      sumok = pos 0;
      blkinfo = record (read_back sample_block) { blkdata = replicate 3 0 };
      reader = seek (reader_at (7 ∷ 1 ∷ 99 ∷ 3 ∷ 8 ∷ []) 1) 1;
    }
archreader_read_block_one_byte_example =
    archreader_read_block_one_byte stack (reader_at (7 ∷ 1 ∷ 99 ∷ 3 ∷ 8 ∷ []) 1) sample_block
      (1 ∷ []) 2 99 (3 ∷ []) (8 ∷ []) stack-IsStack sample_block-IsStored refl
      (omega arith, (omega arith, (omega arith, tt))) (omega arith) (λ e. omega (arith, e)) refl
