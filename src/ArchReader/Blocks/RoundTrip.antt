-- ===== src/ArchReader/Blocks/RoundTrip.antt =====
-- archreader.c reads back the blocks that writebuf.c has written.
use fsarchiver.Base.{
  ℕ, ◌^◌, ◌≤◌, ◌<◌, ◌≡◌, refl, ap, ◌∙◌, false, some, List, [], ◌∷◌, arith, length,
}
use fsarchiver.Base.Int.{pos}
use fsarchiver.Base.Bytes.{put_le, length-put_le, get_le-put_le}
use fsarchiver.Constants.{
  max_blksize, blockhead_realsize, blockhead_blockoffset, blockhead_compressalgo,
  blockhead_encryptalgo, blockhead_arsize, blockhead_compsize, blockhead_arcsum,
}
use fsarchiver.Dico.{
  DicoItem, Dico, plenty, new_item, code_of_type, dico_add_generic, dico_get_u16, dico_get_u32,
  dico_get_u64, is_duplicate, get_word,
}
use fsarchiver.Dico.Lookup.{lookup}
use fsarchiver.Dico.Words.{get_word_stored}
use fsarchiver.Block.{BlockInfo}
use fsarchiver.Writebuf.{block_dico}
use fsarchiver.ArchReader.Blocks.{Stack, read_block_head}

abbrev word_item : ℕ → ℕ → ℕ → ℕ → DicoItem
word_item key w type x = new_item 0 key w type (some (put_le w x))

-- The header that `writebuf_add_block` builds, when every allocation is granted.
abbrev pub block_items : BlockInfo → Dico
block_items b =
    word_item blockhead_blockoffset 8 4 b.blkoffset
    ∷ word_item blockhead_realsize 4 3 b.blkrealsize
    ∷ word_item blockhead_arsize 4 3 b.blkarsize
    ∷ word_item blockhead_compsize 4 3 b.blkcompsize
    ∷ word_item blockhead_arcsum 4 3 b.blkarcsum
    ∷ word_item blockhead_compressalgo 2 2 b.blkcompalgo
    ∷ word_item blockhead_encryptalgo 2 2 b.blkcryptalgo
    ∷ []

pub block_dico-block_items : (b : BlockInfo) → block_dico plenty b ≡ block_items b
unfolding block_dico dico_add_generic is_duplicate code_of_type put_le
block_dico-block_items b = refl

-- The fields of a block fit the C types, and the block is no larger than FSA_MAX_BLKSIZE.
pub record IsBlock (b : BlockInfo) : Type 0 where
  pub offset_word : b.blkoffset < 2 ^ 64
  pub realsize_max : b.blkrealsize ≤ max_blksize
  pub arsize_word : b.blkarsize < 2 ^ 32
  pub compsize_word : b.blkcompsize < 2 ^ 32
  pub arcsum_word : b.blkarcsum < 2 ^ 32
  pub compalgo_word : b.blkcompalgo < 2 ^ 16
  pub cryptalgo_word : b.blkcryptalgo < 2 ^ 16

-- The uninitialised words have the sizes of their types.
pub record IsStack (stack : Stack) : Type 0 where
  pub offset : length (stack 0) ≡ 8
  pub realsize : length (stack 1) ≡ 4
  pub compalgo : length (stack 2) ≡ 2
  pub cryptalgo : length (stack 3) ≡ 2
  pub arsize : length (stack 4) ≡ 4
  pub compsize : length (stack 5) ≡ 4
  pub arcsum : length (stack 6) ≡ 4

-- A word that the header holds is read.
get_word_item :
    (w : ℕ) (junk : List ℕ) (d : Dico) (key type x : ℕ)
    → 0 < w
    → length junk ≡ w
    → x < 256 ^ w
    → lookup d 0 key ≡ some (word_item key w type x)
    → get_word w junk d 0 key ≡ (pos 0, x)
get_word_item w junk d key type x p l h f =
    get_word_stored w junk d 0 key (word_item key w type x) (put_le w x) p l f refl refl
      (length-put_le w x)
    ∙ ap (λ n. (pos 0, n)) (get_le-put_le w x h)

-- The block that the reader makes of the header, with no data yet.
abbrev pub head_of : BlockInfo → BlockInfo
head_of b = record b { blkdata = []; blkfsid = 0; blklocked = false }

pub read_block_head-block_items :
    (stack : Stack) (b : BlockInfo)
    → IsStack stack
    → IsBlock b
    → read_block_head stack (block_items b) ≡ some (head_of b)
unfolding read_block_head dico_get_u16 dico_get_u32 dico_get_u64 lookup
read_block_head-block_items stack b s i = ground (
  arith,
  get_word_item 8 (stack 0) (block_items b) blockhead_blockoffset 4 b.blkoffset (omega arith)
      s.offset i.offset_word refl,
  get_word_item 4 (stack 1) (block_items b) blockhead_realsize 3 b.blkrealsize (omega arith)
      s.realsize (omega arith) refl,
  get_word_item 2 (stack 2) (block_items b) blockhead_compressalgo 2 b.blkcompalgo (omega arith)
      s.compalgo i.compalgo_word refl,
  get_word_item 2 (stack 3) (block_items b) blockhead_encryptalgo 2 b.blkcryptalgo (omega arith)
      s.cryptalgo i.cryptalgo_word refl,
  get_word_item 4 (stack 4) (block_items b) blockhead_arsize 3 b.blkarsize (omega arith) s.arsize
      i.arsize_word refl,
  get_word_item 4 (stack 5) (block_items b) blockhead_compsize 3 b.blkcompsize (omega arith)
      s.compsize i.compsize_word refl,
  get_word_item 4 (stack 6) (block_items b) blockhead_arcsum 3 b.blkarcsum (omega arith) s.arcsum
      i.arcsum_word refl,
)
