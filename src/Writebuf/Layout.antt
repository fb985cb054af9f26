-- ===== src/Writebuf/Layout.antt =====
-- writebuf.c: which bytes a call that succeeds has appended.
use fsarchiver.Base.{
  ℕ, ◌+◌, ◌%◌, ◌^◌, ◌<◌, ◌≡◌, refl, ap, false, Option, none, some, List, [], ◌∷◌, ◌++◌, arith,
  length, length-append, take_all, append_assoc,
}
use fsarchiver.Base.Int.{pos, is_error}
use fsarchiver.Base.Bytes.{put_le, length-put_le}
use fsarchiver.Dico.{Memory, DicoItem, Dico, dico_count_all_sections}
use fsarchiver.Dico.Unique.{WholeContents, IsItem, AllItems}
use fsarchiver.Fletcher.{fletcher32}
use fsarchiver.Writebuf.{
  from_nth, Writebuf, writebuf_add_data, header_len, item_data, put_items, add_header_data,
  writebuf_add_dico, writebuf_add_header,
}

-- A buffer that holds these bytes.
abbrev pub buffer_of : List ℕ → Writebuf
buffer_of bs = record { contents = bs; size = length bs }

pub writebuf_add_data_lem :
    (mem : Memory) (bs src : List ℕ) (n : ℕ)
    → n ≡ length src
    → length bs + length src < 2 ^ 64
    → is_error (writebuf_add_data mem (buffer_of bs) src n).0 ≡ false
    → writebuf_add_data mem (buffer_of bs) src n ≡ (pos 0, buffer_of (bs ++ src))
unfolding writebuf_add_data
writebuf_add_data_lem mem bs src n e h ok =
    ground (arith, take_all (length bs) bs, take_all n src, length-append bs src)

-- The data of a whole item is there, and as long as the item says.
pub item_data_whole :
    (item : DicoItem)
    → IsItem item
    → (bs : List ℕ) × (item_data item ≡ some bs) × (length bs ≡ item.size)
unfolding item_data
item_data_whole item i = go item.size item.contents refl refl i.whole
  where
    go :
        (size : ℕ) (c : Option (List ℕ))
        → item.size ≡ size
        → item.contents ≡ c
        → WholeContents size c
        → (bs : List ℕ) × (item_data item ≡ some bs) × (length bs ≡ item.size)
    go size none es ec w = ([], ground arith, omega arith)
    go size (some bs) es ec w = (bs, ground (arith, take_all item.size bs), omega arith)

-- A dictionary of whole items can be laid out, and `header_len` is the number of its bytes.
pub put_items_whole : (d : Dico) → AllItems d → (bs : List ℕ) × (put_items d ≡ some bs)
unfolding put_items
put_items_whole [] a = ([], refl)
put_items_whole (item ∷ rest) a =
    let (bs, e, l) = item_data_whole item a.0 in
    let (later, f) = put_items_whole rest a.1 in
    (
      item.type ∷ item.section ∷ (put_le 2 item.key ++ (put_le 2 item.size ++ (bs ++ later))),
      rw (e, f, put_items),
    )

-- How the bytes of a dictionary begin with those of its first item.
abbrev pub FirstItem : DicoItem → Dico → List ℕ → Type 0
FirstItem item rest bs =
    (xs : List ℕ) × (later : List ℕ) × (item_data item ≡ some xs)
    × (length xs ≡ item.size)
    × (put_items rest ≡ some later)
    × (bs ≡ item.type ∷ item.section ∷ (put_le 2 item.key ++ (put_le 2 item.size ++ (xs ++ later))))

pub put_items-cons :
    (item : DicoItem) (rest : Dico) (bs : List ℕ)
    → IsItem item
    → put_items (item ∷ rest) ≡ some bs
    → FirstItem item rest bs
unfolding put_items
put_items-cons item rest bs i e =
    let (xs, f, l) = item_data_whole item i in go xs f l (put_items rest) refl
  where
    go :
        (xs : List ℕ)
        → item_data item ≡ some xs
        → length xs ≡ item.size
        → (o : Option (List ℕ)) → put_items rest ≡ o
        → FirstItem item rest bs
    go xs f l none g = ground arith
    go xs f l (some later) g = (xs, later, f, l, g, ground arith)

pub length_first :
    (t s k z : ℕ) (xs later : List ℕ)
    → length (t ∷ s ∷ (put_le 2 k ++ (put_le 2 z ++ (xs ++ later)))) ≡ 6 + length xs + length later
length_first t s k z xs later = omega (
  arith,
  length-append (put_le 2 k) (put_le 2 z ++ (xs ++ later)),
  length-append (put_le 2 z) (xs ++ later),
  length-append xs later,
  length-put_le 2 k,
  length-put_le 2 z,
)

-- The length that `writebuf_add_dico` allocates is the number of bytes that it writes, if the u32
-- does not overflow.
pub header_len_lem :
    (n : ℕ) (d : Dico) (bs : List ℕ)
    → AllItems d
    → put_items d ≡ some bs
    → n + length bs < 2 ^ 32
    → header_len n d ≡ n + length bs
unfolding header_len
header_len_lem n [] bs a e h =
    let f : bs ≡ [] = unfold put_items in ground arith in rw f (omega arith)
header_len_lem n (item ∷ rest) bs a e h =
    let (xs, later, f, l, g, b) = put_items-cons item rest bs a.0 e in
    let total : length bs ≡ 6 + item.size + length later =
      omega (arith, ap length b, length_first item.type item.section item.key item.size xs later) in
    let next : (n + 6 + item.size) % 2 ^ 32 ≡ n + 6 + item.size = omega arith in
    rw next (omega (arith, header_len_lem (n + 6 + item.size) rest later a.1 g (omega arith)))

-- The header data, and the bytes of a dictionary and of a header in an archive.
abbrev pub data_bytes : Dico → List ℕ → List ℕ
data_bytes d items = put_le 2 (dico_count_all_sections d % 2 ^ 16) ++ items

abbrev pub dico_bytes : List ℕ → List ℕ
dico_bytes buffer = put_le 4 (length buffer) ++ (buffer ++ put_le 4 (fletcher32 buffer))

abbrev pub header_bytes : List ℕ → ℕ → ℕ → List ℕ → List ℕ
header_bytes magic archid fsid buffer =
    magic ++ (put_le 4 archid ++ (put_le 2 fsid ++ dico_bytes buffer))

pub add_header_data_lem :
    (mem : Memory) (bs buffer : List ℕ) (n : ℕ)
    → n ≡ length buffer
    → length bs + length buffer + 8 < 2 ^ 64
    → is_error (add_header_data mem (buffer_of bs) buffer n).0 ≡ false
    → add_header_data mem (buffer_of bs) buffer n ≡ (pos 0, buffer_of (bs ++ dico_bytes buffer))
unfolding add_header_data
add_header_data_lem mem bs buffer n e h ok = ground (
  arith,
  take_all n buffer,
  writebuf_add_data_lem (from_nth 0 mem) bs (put_le 4 n) 4,
  writebuf_add_data_lem (from_nth 1 mem) (bs ++ put_le 4 n) buffer n,
  writebuf_add_data_lem (from_nth 2 mem) ((bs ++ put_le 4 n) ++ buffer)
      (put_le 4 (fletcher32 buffer)) 4,
  length-put_le 4 n,
  length-put_le 4 (fletcher32 buffer),
  length-append bs (put_le 4 n),
  length-append (bs ++ put_le 4 n) buffer,
  append_assoc (bs ++ put_le 4 n) buffer (put_le 4 (fletcher32 buffer)),
  append_assoc bs (put_le 4 n) (buffer ++ put_le 4 (fletcher32 buffer)),
)

pub length-data_bytes : (d : Dico) (items : List ℕ) → length (data_bytes d items) ≡ 2 + length items
length-data_bytes d items = omega (
  arith,
  length-append (put_le 2 (dico_count_all_sections d % 2 ^ 16)) items,
  length-put_le 2 (dico_count_all_sections d % 2 ^ 16),
)

pub writebuf_add_dico_lem :
    (mem : Memory) (bs : List ℕ) (d : Dico) (items : List ℕ) (wb : Writebuf)
    → AllItems d
    → put_items d ≡ some items
    → length items + 2 < 2 ^ 32
    → length bs + 2 ^ 32 + 8 < 2 ^ 64
    → writebuf_add_dico mem (buffer_of bs) d ≡ some (pos 0, wb)
    → wb ≡ buffer_of (bs ++ dico_bytes (data_bytes d items))
unfolding writebuf_add_dico
writebuf_add_dico_lem mem bs d items wb a e h1 h2 ok = ground (
  arith,
  add_header_data_lem (from_nth 1 mem) bs (data_bytes d items) (header_len 2 d),
  header_len_lem 2 d items a e,
  length-data_bytes d items,
)

-- `writebuf_add_header`, when it succeeds, has appended the magic, the archive id, the filesystem id
-- and the dictionary's length, items and checksum, in this order, and nothing else.
pub writebuf_add_header_lem :
    (mem : Memory) (bs : List ℕ) (d : Dico) (items magic : List ℕ) (archid fsid : ℕ) (wb : Writebuf)
    → AllItems d
    → put_items d ≡ some items
    → length items + 2 < 2 ^ 32
    → length bs + 2 ^ 33 < 2 ^ 64
    → length magic ≡ 4
    → writebuf_add_header mem (buffer_of bs) d magic archid fsid ≡ some (pos 0, wb)
    → wb ≡ buffer_of (bs ++ header_bytes magic archid fsid (data_bytes d items))
unfolding writebuf_add_header
writebuf_add_header_lem mem bs d items magic archid fsid wb a e h1 h2 hm ok = ground (
  arith,
  writebuf_add_data_lem (from_nth 0 mem) bs magic 4,
  writebuf_add_data_lem (from_nth 1 mem) (bs ++ magic) (put_le 4 archid) 4,
  writebuf_add_data_lem (from_nth 2 mem) ((bs ++ magic) ++ put_le 4 archid) (put_le 2 fsid) 2,
  writebuf_add_dico_lem (from_nth 3 mem) (((bs ++ magic) ++ put_le 4 archid) ++ put_le 2 fsid) d
      items wb a e h1,
  length-put_le 4 archid,
  length-put_le 2 fsid,
  length-append bs magic,
  length-append (bs ++ magic) (put_le 4 archid),
  length-append ((bs ++ magic) ++ put_le 4 archid) (put_le 2 fsid),
  append_assoc ((bs ++ magic) ++ put_le 4 archid) (put_le 2 fsid) (dico_bytes (data_bytes d items)),
  append_assoc (bs ++ magic) (put_le 4 archid) (put_le 2 fsid ++ dico_bytes (data_bytes d items)),
  append_assoc bs magic (put_le 4 archid ++ (put_le 2 fsid ++ dico_bytes (data_bytes d items))),
)
