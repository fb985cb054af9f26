-- ===== src/Writebuf.antt =====
-- writebuf.c: headers and blocks laid out as the bytes of an archive.
-- A pointer argument is the object itself, so the guards against NULL have no counterpart. `mem k`
-- says whether the k-th allocation of the call is granted. The result `none` is a fault of the
-- program: it would read through a NULL pointer.
pub mod Layout
pub mod Total
use fsarchiver.Base.{
  ℕ, ◌+◌, ◌%◌, ◌^◌, Bool, true, false, not, Option, none, some, List, [], ◌∷◌, ◌++◌, ltb, ◌==◌,
  if◌then◌else◌, take,
}
use fsarchiver.Base.Int.{ℤ, pos, negsuc, is_error, minus_one}
use fsarchiver.Base.Bytes.{put_le}
use fsarchiver.Constants.{
  sizeof_magic, magic_blkh, blockhead_realsize, blockhead_blockoffset, blockhead_compressalgo,
  blockhead_encryptalgo, blockhead_arsize, blockhead_compsize, blockhead_arcsum,
}
use fsarchiver.Dico.{
  Memory, DicoItem, Dico, dico_alloc, dico_add_u16, dico_add_u32, dico_add_u64,
  dico_count_all_sections,
}
use fsarchiver.Fletcher.{fletcher32}
use fsarchiver.Block.{BlockInfo}

-- The allocations from the n-th on.
abbrev pub from_nth : ℕ → Memory → Memory
from_nth n mem k = mem (n + k)

-- `contents` is what `data` points to, and empty for NULL.
pub record Writebuf : Type 0 where
  pub contents : List ℕ
  pub size : ℕ

unfoldable pub writebuf_alloc : Memory → Option Writebuf
writebuf_alloc mem = if mem 0 then some (record { contents = []; size = 0 }) else none

-- `realloc` keeps the old bytes; where it fails, `wb->data` is NULL.
unfoldable pub writebuf_add_data : Memory → Writebuf → List ℕ → ℕ → ℤ × Writebuf
writebuf_add_data mem wb src size =
    if size == 0
    then (minus_one, wb)
    else if not (mem 0)
    then (minus_one, record wb { contents = [] })
    else (
      pos 0,
      record {
        contents = take wb.size wb.contents ++ take size src;
        size = (wb.size + size) % 2 ^ 64;
      },
    )

-- `headerlen`, a u32.
unfoldable pub header_len : ℕ → Dico → ℕ
header_len len [] = len
header_len len (item ∷ rest) = header_len ((len + 6 + item.size) % 2 ^ 32) rest

-- The data of an item that has some.
unfoldable pub item_data : DicoItem → Option (List ℕ)
item_data item =
    if ltb 0 item.size
    then elim item.contents [ none ↦ none | some bs ↦ some (take item.size bs) ]
    else some []

-- The items, one after the other; `none` if one with data has lost it.
unfoldable pub put_items : Dico → Option (List ℕ)
unfolding item_data
put_items [] = some []
put_items (item ∷ rest) = elim (item_data item) [
  | none ↦ none
  | some bs ↦ elim (put_items rest) [
    | none ↦ none
    | some later ↦
        some
          (item.type ∷ item.section ∷ (put_le 2 item.key ++ (put_le 2 item.size ++ (bs ++ later))))
  ]
]

-- Header length, header data and checksum.
unfoldable pub add_header_data : Memory → Writebuf → List ℕ → ℕ → ℤ × Writebuf
unfolding writebuf_add_data
add_header_data mem wb buffer headerlen =
    let (res1, wb1) = writebuf_add_data (from_nth 0 mem) wb (put_le 4 headerlen) 4 in
    if is_error res1
    then (minus_one, wb1)
    else let (res2, wb2) = writebuf_add_data (from_nth 1 mem) wb1 buffer headerlen in
      if is_error res2
      then (minus_one, wb2)
      else let (res3, wb3) =
          writebuf_add_data (from_nth 2 mem) wb2 (put_le 4 (fletcher32 (take headerlen buffer)))
            4 in
        if is_error res3 then (minus_one, wb3) else (pos 0, wb3)

-- `count` is a u16.
unfoldable pub writebuf_add_dico : Memory → Writebuf → Dico → Option (ℤ × Writebuf)
unfolding put_items header_len add_header_data
writebuf_add_dico mem wb d =
    let count = dico_count_all_sections d % 2 ^ 16 in
    let headerlen = header_len 2 d in
    if not (mem 0) then some (minus_one, wb) else elim (put_items d) [
      | none ↦ none
      | some items ↦ some (add_header_data (from_nth 1 mem) wb (put_le 2 count ++ items) headerlen)
    ]

unfoldable pub writebuf_add_header :
    Memory → Writebuf → Dico → List ℕ → ℕ → ℕ → Option (ℤ × Writebuf)
unfolding writebuf_add_data writebuf_add_dico
writebuf_add_header mem wb d magic archid fsid =
    let (res1, wb1) = writebuf_add_data (from_nth 0 mem) wb magic sizeof_magic in
    if is_error res1
    then some (negsuc 1, wb1)
    else let (res2, wb2) = writebuf_add_data (from_nth 1 mem) wb1 (put_le 4 archid) 4 in
      if is_error res2
      then some (negsuc 2, wb2)
      else let (res3, wb3) = writebuf_add_data (from_nth 2 mem) wb2 (put_le 2 fsid) 2 in
        if is_error res3
        then some (negsuc 2, wb3)
        else elim (writebuf_add_dico (from_nth 3 mem) wb3 d) [
          | none ↦ none
          | some (res4, wb4) ↦ if is_error res4 then some (negsuc 3, wb4) else some (pos 0, wb4)
        ]

-- The header of a block. The results of the seven calls are not looked at.
unfoldable pub block_dico : Memory → BlockInfo → Dico
unfolding dico_alloc dico_add_u16 dico_add_u32 dico_add_u64
block_dico mem b =
    let d1 = (dico_add_u64 (from_nth 0 mem) dico_alloc 0 blockhead_blockoffset b.blkoffset).1 in
    let d2 = (dico_add_u32 (from_nth 2 mem) d1 0 blockhead_realsize b.blkrealsize).1 in
    let d3 = (dico_add_u32 (from_nth 4 mem) d2 0 blockhead_arsize b.blkarsize).1 in
    let d4 = (dico_add_u32 (from_nth 6 mem) d3 0 blockhead_compsize b.blkcompsize).1 in
    let d5 = (dico_add_u32 (from_nth 8 mem) d4 0 blockhead_arcsum b.blkarcsum).1 in
    let d6 = (dico_add_u16 (from_nth 10 mem) d5 0 blockhead_compressalgo b.blkcompalgo).1 in
    (dico_add_u16 (from_nth 12 mem) d6 0 blockhead_encryptalgo b.blkcryptalgo).1

unfoldable pub writebuf_add_block : Memory → Writebuf → BlockInfo → ℕ → ℕ → Option (ℤ × Writebuf)
unfolding block_dico writebuf_add_header writebuf_add_data
writebuf_add_block mem wb b archid fsid =
    if not (mem 0)
    then some (minus_one, wb)
    else if b.blkarsize == 0
    then some (minus_one, wb)
    else elim (writebuf_add_header (from_nth 15 mem) wb (block_dico (from_nth 1 mem) b) magic_blkh
        archid fsid) [
          | none ↦ none
          | some (res, wb1) ↦
              if is_error res
              then some (minus_one, wb1)
              else (let (res2, wb2) =
                    writebuf_add_data (from_nth 22 mem) wb1 b.blkdata b.blkarsize in
                  if is_error res2 then some (minus_one, wb2) else some (pos 0, wb2))
        ]
