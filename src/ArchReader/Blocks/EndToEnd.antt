-- ===== src/ArchReader/Blocks/EndToEnd.antt =====
-- A data block, from writebuf.c to archreader.c and back.
use fsarchiver.Base.{
  ℕ, ◌+◌, ◌^◌, ◌<◌, ◌≡◌, refl, ap, ◌∙◌, Bool, false, some, List, [], ◌∷◌, ◌++◌, arith, length,
  length-append, append_assoc, take, take-append, drop, drop-append,
}
use fsarchiver.Base.Int.{pos}
use fsarchiver.Base.Bytes.{put_le}
use fsarchiver.Constants.{
  blockhead_realsize, blockhead_blockoffset, blockhead_compressalgo, blockhead_encryptalgo,
  blockhead_arsize, blockhead_compsize, blockhead_arcsum, magic_blkh, is_magic_valid,
}
use fsarchiver.Dico.{plenty, is_duplicate, dico_count_all_sections}
use fsarchiver.Fletcher.{fletcher32}
use fsarchiver.Block.{BlockInfo}
use fsarchiver.Writebuf.{Writebuf, put_items, writebuf_add_block}
use fsarchiver.Writebuf.Layout.{
  buffer_of, writebuf_add_data_lem, header_bytes, data_bytes, length-data_bytes,
}
use fsarchiver.Writebuf.Total.{writebuf_add_data_total, writebuf_add_header_writes}
use fsarchiver.ArchReader.{ArchReader, seek, archreader_read_header}
use fsarchiver.ArchReader.Reading.{ahead}
use fsarchiver.ArchReader.Headers.{
  AcceptsId, IsHeader, length-header_bytes, archreader_read_header-writebuf_add_header,
}
use fsarchiver.ArchReader.Blocks.{Stack, read_block_data, archreader_read_block}
use fsarchiver.ArchReader.Blocks.RoundTrip.{
  IsBlock, IsStack, block_items, block_dico-block_items, read_block_head-block_items,
}

abbrev word_bytes : ℕ → ℕ → ℕ → ℕ → List ℕ → List ℕ
word_bytes key w type x later = type ∷ 0 ∷ (put_le 2 key ++ (put_le 2 w ++ (put_le w x ++ later)))

-- The 70 bytes of the seven attributes.
abbrev block_bytes : BlockInfo → List ℕ
block_bytes b = word_bytes blockhead_blockoffset 8 4 b.blkoffset (
    word_bytes blockhead_realsize 4 3 b.blkrealsize (
      word_bytes blockhead_arsize 4 3 b.blkarsize (
        word_bytes blockhead_compsize 4 3 b.blkcompsize (
          word_bytes blockhead_arcsum 4 3 b.blkarcsum (
            word_bytes blockhead_compressalgo 2 2 b.blkcompalgo
              (word_bytes blockhead_encryptalgo 2 2 b.blkcryptalgo []))))))

block_items-IsHeader :
    (b : BlockInfo) (archid fsid : ℕ)
    → archid < 2 ^ 32
    → fsid < 2 ^ 16
    → IsHeader (block_items b) (block_bytes b) magic_blkh archid fsid
unfolding is_duplicate put_items put_le dico_count_all_sections is_magic_valid
block_items-IsHeader b archid fsid ha hf = record {
  whole = omega arith;
  unique = (refl, (refl, (refl, (refl, (refl, (refl, (refl, tt)))))));
  layout = refl;
  count_word = omega arith;
  small = omega arith;
  magic_valid = refl;
  magic_size = refl;
  archid_word = ha;
  fsid_word = hf;
}

-- A block as it goes to the archive: in range, not empty, with its size and checksum.
pub record IsStored (b : BlockInfo) : Type 0 where
  pub fits : IsBlock b
  pub some_data : 0 < b.blkarsize
  pub arsize : b.blkarsize ≡ length b.blkdata
  pub arcsum : b.blkarcsum ≡ fletcher32 b.blkdata

-- What `writebuf_add_block` appends: the header of the block, and its data.
abbrev pub block_header : BlockInfo → ℕ → ℕ → List ℕ
block_header b archid fsid =
    header_bytes magic_blkh archid fsid (data_bytes (block_items b) (block_bytes b))

length-block_bytes : (b : BlockInfo) → length (block_bytes b) ≡ 70
unfolding put_le
length-block_bytes b = refl

length-block_header :
    (b : BlockInfo) (archid fsid : ℕ) → length (block_header b archid fsid) < 2 ^ 20
length-block_header b archid fsid = omega (
  arith,
  length-header_bytes magic_blkh archid fsid (data_bytes (block_items b) (block_bytes b)) refl,
  length-data_bytes (block_items b) (block_bytes b),
  length-block_bytes b,
)

-- When memory suffices, `writebuf_add_block` succeeds on every block that is in range, not empty and
-- carries its size and checksum, and appends exactly the header of the block and its data.
pub writebuf_add_block_writes :
    (before : List ℕ) (b : BlockInfo) (archid fsid : ℕ)
    → IsStored b
    → archid < 2 ^ 32
    → fsid < 2 ^ 16
    → length before + 2 ^ 34 < 2 ^ 64
    → writebuf_add_block plenty (buffer_of before) b archid fsid
      ≡ some (pos 0, buffer_of ((before ++ block_header b archid fsid) ++ b.blkdata))
unfolding writebuf_add_block
writebuf_add_block_writes before b archid fsid s ha hf hb =
    let h = block_items-IsHeader b archid fsid ha hf in
    ground (
      arith,
      block_dico-block_items b,
      writebuf_add_header_writes before (block_items b) (block_bytes b) magic_blkh archid fsid
          h.whole h.layout h.small (omega arith) h.magic_size,
      writebuf_add_data_lem plenty (before ++ block_header b archid fsid) b.blkdata b.blkarsize
          s.arsize,
      writebuf_add_data_total (buffer_of (before ++ block_header b archid fsid)) b.blkdata
          b.blkarsize s.some_data,
      length-append before (block_header b archid fsid),
      length-block_header b archid fsid,
      s.arsize,
      s.fits.arsize_word,
    )

-- The block that comes back: all that the archive keeps of it.
abbrev pub read_back : BlockInfo → BlockInfo
read_back b = record b { blkfsid = 0; blklocked = false }

-- `archreader_read_block` where the data of the block stand next in the volume.
archreader_read_block_data :
    (stack : Stack) (ai : ArchReader) (b : BlockInfo) (rest : List ℕ)
    → IsStack stack
    → IsStored b
    → ahead ai ≡ b.blkdata ++ rest
    → archreader_read_block stack plenty ai (block_items b) false ≡ record {
      res = pos 0;
      sumok = pos 1;
      blkinfo = read_back b;
      reader = seek ai (ai.volume.pos + length b.blkdata);
    }
unfolding archreader_read_block read_block_data
archreader_read_block_data stack ai b rest s i a = ground (
  arith,
  read_block_head-block_items stack b s i.fits,
  ap (take b.blkarsize) a,
  take-append b.blkarsize b.blkdata rest i.arsize,
  i.arsize,
  i.arcsum,
)

-- A block that `writebuf_add_block` has written, when memory suffices, comes back whole: reading the
-- header and then the block gives its data and all its attributes, with the checksum found good and
-- the position just behind the data, whatever stands behind them in the volume.
pub archreader_read_block-writebuf_add_block :
    (stack : Stack) (ai : ArchReader) (allowseek : Bool) (before rest : List ℕ) (b : BlockInfo)
    (archid fsid : ℕ) (wb : Writebuf)
    → IsStack stack
    → IsStored b
    → archid < 2 ^ 32
    → fsid < 2 ^ 16
    → length before + 2 ^ 34 < 2 ^ 64
    → writebuf_add_block plenty (buffer_of before) b archid fsid ≡ some (pos 0, wb)
    → ai.volume.bytes ≡ wb.contents ++ rest
    → ai.volume.pos ≡ length before
    → ai.filefmtver ≡ 2
    → AcceptsId ai archid
    → (r : ArchReader) × (archreader_read_header plenty ai allowseek
        ≡ some (record {
          res = pos 0;
          magic = magic_blkh;
          dico = some (block_items b);
          fsid = fsid;
          reader = r;
        }))
      × (archreader_read_block stack plenty r (block_items b) false ≡ record {
        res = pos 0;
        sumok = pos 1;
        blkinfo = read_back b;
        reader = seek ai (length wb.contents);
      })
archreader_read_block-writebuf_add_block stack ai allowseek before rest b archid fsid wb s i ha hf
      hb w vb vp v accepts =
    let h = block_items-IsHeader b archid fsid ha hf in
    let front = before ++ block_header b archid fsid in
    let wb_is : wb ≡ buffer_of (front ++ b.blkdata) =
      ground (arith, w, writebuf_add_block_writes before b archid fsid i ha hf hb) in
    let contents : wb.contents ≡ front ++ b.blkdata = ap (λ (x : Writebuf). x.contents) wb_is in
    let bytes : ai.volume.bytes ≡ front ++ (b.blkdata ++ rest) =
      vb ∙ ap (λ xs. xs ++ rest) contents ∙ append_assoc front b.blkdata rest in
    let r = seek ai (length front) in
    let next : ahead r ≡ b.blkdata ++ rest =
      ap (drop (length front)) bytes ∙ drop-append (length front) front (b.blkdata ++ rest) refl in
    let end : length wb.contents ≡ length front + length b.blkdata =
      ap length contents ∙ length-append front b.blkdata in
    (
      r,
      archreader_read_header-writebuf_add_header plenty ai allowseek before (b.blkdata ++ rest)
          (block_items b) (block_bytes b) magic_blkh archid fsid (buffer_of front) h (omega arith)
          (writebuf_add_header_writes before (block_items b) (block_bytes b) magic_blkh archid fsid
            h.whole h.layout h.small (omega arith) h.magic_size)
          bytes vp v accepts,
      rw end (archreader_read_block_data stack r b rest s i next),
    )
