-- ===== src/ArchReader/Blocks.antt =====
-- archreader.c: `archreader_read_block`, the data behind a block header.
pub mod RoundTrip
pub mod EndToEnd
pub mod Damaged
use fsarchiver.Base.{
  ℕ, ◌+◌, ◌-◌, Bool, true, false, not, ◌||◌, Option, none, some, List, [], ltb, ◌==◌, if◌then◌else◌,
  length, replicate,
}
use fsarchiver.Base.Int.{ℤ, pos, is_error, minus_one}
use fsarchiver.Base.Code
use fsarchiver.Constants.{
  max_blksize, blockhead_realsize, blockhead_blockoffset, blockhead_compressalgo,
  blockhead_encryptalgo, blockhead_arsize, blockhead_compsize, blockhead_arcsum,
}
use fsarchiver.Dico.{Memory, Dico, dico_get_u16, dico_get_u32, dico_get_u64}
use fsarchiver.Fletcher.{fletcher32}
use fsarchiver.Block.{BlockInfo, zero_block}
use fsarchiver.ArchReader.{ArchReader, seek, available}

-- The uninitialised words on the stacks of the calls of one function, by the number of the call.
abbrev pub Stack : Type 0
Stack = ℕ → List ℕ

-- The attributes that are taken from the block header, as the block that they describe.
unfoldable pub read_block_head : Stack → Dico → Option BlockInfo
read_block_head stack d =
    let (res1, blockoffset) = dico_get_u64 (stack 0) d 0 blockhead_blockoffset in
    if is_error res1
    then none
    else (let (res2, curblocksize) = dico_get_u32 (stack 1) d 0 blockhead_realsize in
        if is_error res2 || ltb max_blksize curblocksize
        then none
        else (let (res3, compalgo) = dico_get_u16 (stack 2) d 0 blockhead_compressalgo in
            if is_error res3
            then none
            else (let (res4, cryptalgo) = dico_get_u16 (stack 3) d 0 blockhead_encryptalgo in
                if is_error res4
                then none
                else (let (res5, finalsize) = dico_get_u32 (stack 4) d 0 blockhead_arsize in
                    if is_error res5
                    then none
                    else (let (res6, compsize) = dico_get_u32 (stack 5) d 0 blockhead_compsize in
                        if is_error res6
                        then none
                        else (let (res7, arcsum) = dico_get_u32 (stack 6) d 0 blockhead_arcsum in
                            if is_error res7
                            then none
                            else some (record zero_block {
                              blkrealsize = curblocksize;
                              blkoffset = blockoffset;
                              blkarcsum = arcsum;
                              blkarsize = finalsize;
                              blkcompalgo = compalgo;
                              blkcompsize = compsize;
                              blkcryptalgo = cryptalgo;
                            })))))))

-- The result, `*out_sumok` (-1 where it is not known), `*out_blkinfo`, and the reader.
pub record BlockRead : Type 0 where
  pub res : ℤ
  pub sumok : ℤ
  pub blkinfo : BlockInfo
  pub reader : ArchReader

-- The block itself. A block with a bad checksum is replaced by zeros, and the reader goes back to
-- the start of its data.
unfoldable pub read_block_data : Memory → ArchReader → BlockInfo → Bool → BlockRead
read_block_data mem ai head skipblock =
    let finalsize = head.blkarsize in
    let got = available ai finalsize in
    let ai' = seek ai (ai.volume.pos + length got) in
    if skipblock
    then record {
      res = pos 0;
      sumok = minus_one;
      blkinfo = zero_block;
      reader = seek ai (ai.volume.pos + finalsize);
    }
    else if not (mem 0)
    then record { res = Code.enomem; sumok = minus_one; blkinfo = zero_block; reader = ai }
    else if not (length got == finalsize)
    then record { res = minus_one; sumok = minus_one; blkinfo = zero_block; reader = ai' }
    else if fletcher32 got == head.blkarcsum
    then record {
      res = pos 0;
      sumok = pos 1;
      blkinfo = record head { blkdata = got };
      reader = ai';
    }
    else if not (mem 1)
    then record {
      res = Code.enomem;
      sumok = minus_one;
      blkinfo = record head { blkdata = [] };
      reader = ai';
    }
    else record {
      res = pos 0;
      sumok = pos 0;
      blkinfo = record head { blkdata = replicate head.blkrealsize 0 };
      reader = seek ai (ai.volume.pos + length got - finalsize);
    }

unfoldable pub archreader_read_block : Stack → Memory → ArchReader → Dico → Bool → BlockRead
archreader_read_block stack mem ai d skipblock = elim (read_block_head stack d) [
  | none ↦ record { res = minus_one; sumok = minus_one; blkinfo = zero_block; reader = ai }
  | some head ↦ read_block_data mem ai head skipblock
]
