-- ===== src/Writebuf/Total.antt =====
-- writebuf.c: with memory at hand, a header is always written.
use fsarchiver.Base.{ℕ, ◌+◌, ◌^◌, ◌<◌, ◌≡◌, false, some, List, ◌++◌, arith, length}
use fsarchiver.Base.Int.{pos, is_error}
use fsarchiver.Base.Bytes.{put_le}
use fsarchiver.Dico.{Dico, plenty}
use fsarchiver.Dico.Unique.{AllItems}
use fsarchiver.Writebuf.{
  Writebuf, writebuf_add_data, header_len, put_items, add_header_data, writebuf_add_dico,
  writebuf_add_header,
}
use fsarchiver.Writebuf.Layout.{
  buffer_of, header_len_lem, data_bytes, header_bytes, writebuf_add_header_lem,
}

-- The only failures of `writebuf_add_data` are an empty source and the lack of memory.
pub writebuf_add_data_total :
    (wb : Writebuf) (src : List ℕ) (n : ℕ)
    → 0 < n
    → is_error (writebuf_add_data plenty wb src n).0 ≡ false
unfolding writebuf_add_data
writebuf_add_data_total wb src n h = ground arith

add_header_data_total :
    (wb : Writebuf) (buffer : List ℕ) (n : ℕ)
    → 0 < n
    → (add_header_data plenty wb buffer n).0 ≡ pos 0
unfolding add_header_data writebuf_add_data
add_header_data_total wb buffer n h = ground arith

writebuf_add_dico_total :
    (wb : Writebuf) (d : Dico) (items : List ℕ)
    → put_items d ≡ some items
    → 0 < header_len 2 d
    → (wb' : Writebuf) × (writebuf_add_dico plenty wb d ≡ some (pos 0, wb'))
unfolding writebuf_add_dico
writebuf_add_dico_total wb d items e h = (
  (add_header_data plenty wb (data_bytes d items) (header_len 2 d)).1,
  ground (arith, add_header_data_total wb (data_bytes d items) (header_len 2 d) h),
)

writebuf_add_header_total :
    (wb : Writebuf) (d : Dico) (items magic : List ℕ) (archid fsid : ℕ)
    → put_items d ≡ some items
    → 0 < header_len 2 d
    → (wb' : Writebuf) × (writebuf_add_header plenty wb d magic archid fsid ≡ some (pos 0, wb'))
unfolding writebuf_add_header writebuf_add_data
writebuf_add_header_total wb d items magic archid fsid e h =
    go (writebuf_add_dico_total wb3 d items e h)
  where
    wb1 : Writebuf
    wb1 = (writebuf_add_data plenty wb magic 4).1

    wb2 : Writebuf
    wb2 = (writebuf_add_data plenty wb1 (put_le 4 archid) 4).1

    wb3 : Writebuf
    wb3 = (writebuf_add_data plenty wb2 (put_le 2 fsid) 2).1

    go :
        (wb' : Writebuf) × (writebuf_add_dico plenty wb3 d ≡ some (pos 0, wb'))
        → (wb' : Writebuf) × (writebuf_add_header plenty wb d magic archid fsid ≡ some (pos 0, wb'))
    go (wb', f) = (wb', ground arith)

-- When every allocation is granted, `writebuf_add_header` succeeds on every dictionary of whole
-- items that is not too large, and appends exactly its layout: magic, archive id, filesystem id,
-- length, items and checksum.
pub writebuf_add_header_writes :
    (bs : List ℕ) (d : Dico) (items magic : List ℕ) (archid fsid : ℕ)
    → AllItems d
    → put_items d ≡ some items
    → length items + 2 < 2 ^ 32
    → length bs + 2 ^ 33 < 2 ^ 64
    → length magic ≡ 4
    → writebuf_add_header plenty (buffer_of bs) d magic archid fsid
      ≡ some (pos 0, buffer_of (bs ++ header_bytes magic archid fsid (data_bytes d items)))
writebuf_add_header_writes bs d items magic archid fsid a e h1 h2 hm =
    let (wb, f) =
      writebuf_add_header_total (buffer_of bs) d items magic archid fsid e
        (omega (arith, header_len_lem 2 d items a e)) in
    ground (arith, f, writebuf_add_header_lem plenty bs d items magic archid fsid wb a e h1 h2 hm f)
