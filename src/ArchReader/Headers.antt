-- ===== src/ArchReader/Headers.antt =====
-- archreader.c reads back the headers that writebuf.c has written.
use fsarchiver.Base.{
  ◌⊎◌, memcpy_whole, ℕ, ◌+◌, ◌%◌, ◌^◌, ◌<◌, ◌≡◌, refl, ap, ◌∙◌, sym, Bool, true, some, List, [],
  ◌++◌, arith, length, length-append, take-append, drop-append, append_assoc, append-nil, replicate,
}
use fsarchiver.Base.Int.{pos}
use fsarchiver.Base.Code
use fsarchiver.Base.Bytes.{put_le, length-put_le, get_le-put_le}
use fsarchiver.Constants.{is_magic_valid}
use fsarchiver.Dico.{Memory, Dico, plenty, dico_alloc, dico_count_all_sections}
use fsarchiver.Dico.Unique.{AllItems, IsUnique}
use fsarchiver.Fletcher.{fletcher32}
use fsarchiver.Fletcher.Spec.{fletcher32-lt}
use fsarchiver.Writebuf.{put_items, Writebuf, writebuf_add_header}
use fsarchiver.Writebuf.Layout.{
  data_bytes, dico_bytes, length-data_bytes, header_bytes, buffer_of, writebuf_add_header_lem,
}
use fsarchiver.ArchReader.Reading.{ahead, read_data_ahead, ahead-seek}
use fsarchiver.ArchReader.{
  ArchReader, seek, read_headerlen, parse_header, archreader_read_dico, read_header_body,
  archreader_read_header,
}
use fsarchiver.ArchReader.Items.{read_items-put_items}

-- The header data of a dictionary are parsed back to it.
pub parse_header-data_bytes :
    (d : Dico) (items : List ℕ)
    → AllItems d
    → IsUnique d
    → put_items d ≡ some items
    → dico_count_all_sections d < 2 ^ 16
    → parse_header plenty (data_bytes d items) (fletcher32 (data_bytes d items)) dico_alloc
      ≡ some (Code.success, d)
unfolding parse_header dico_alloc
parse_header-data_bytes d items a u e h =
    let count = dico_count_all_sections d in
    ground (
      arith,
      length-data_bytes d items,
      take-append 2 (put_le 2 (count % 2 ^ 16)) items (sym (length-put_le 2 (count % 2 ^ 16))),
      drop-append 2 (put_le 2 (count % 2 ^ 16)) items (sym (length-put_le 2 (count % 2 ^ 16))),
      get_le-put_le 2 (count % 2 ^ 16) (omega arith),
      append-nil items,
      read_items-put_items [] d items [] a u e,
    )

-- Reading the length, the header data and the checksum one after the other.
record DicoAhead (ai : ArchReader) (buffer rest : List ℕ) : Type 0 where
  version : ai.filefmtver ≡ 2
  small : length buffer < 2 ^ 32
  next : ahead ai ≡ dico_bytes buffer ++ rest

abbrev after_dico : ArchReader → List ℕ → ArchReader
after_dico ai buffer = seek ai (ai.volume.pos + 4 + length buffer + 4)

read_dico_steps :
    (ai : ArchReader) (buffer rest : List ℕ) (d : Dico)
    → DicoAhead ai buffer rest
    → parse_header plenty buffer (fletcher32 buffer) dico_alloc ≡ some (Code.success, d)
    → archreader_read_dico plenty ai dico_alloc ≡ some (Code.success, d, after_dico ai buffer)
unfolding archreader_read_dico read_headerlen
read_dico_steps ai buffer rest d h p =
    let sum = put_le 4 (fletcher32 buffer) in
    let len = put_le 4 (length buffer) in
    let a0 : ahead ai ≡ len ++ (buffer ++ (sum ++ rest)) =
      h.next ∙ rw (append_assoc, append_assoc) in
    let ai1 = seek ai (ai.volume.pos + 4) in
    let a1 : ahead ai1 ≡ buffer ++ (sum ++ rest) =
      ahead-seek ai len (buffer ++ (sum ++ rest)) 4 (sym (length-put_le 4 (length buffer))) a0 in
    let ai2 = seek ai1 (ai1.volume.pos + length buffer) in
    let a2 : ahead ai2 ≡ sum ++ rest =
      ahead-seek ai1 buffer (sum ++ rest) (length buffer) refl a1 in
    ground (
      arith,
      h.version,
      read_data_ahead ai len (buffer ++ (sum ++ rest)) 4 (sym (length-put_le 4 (length buffer))) a0,
      get_le-put_le 4 (length buffer) h.small,
      read_data_ahead ai1 buffer (sum ++ rest) (length buffer) refl a1,
      read_data_ahead ai2 sum rest 4 (sym (length-put_le 4 (fletcher32 buffer))) a2,
      get_le-put_le 4 (fletcher32 buffer) (fletcher32-lt buffer),
    )

-- The archive id of a header is looked at once the reader knows that of the archive.
abbrev pub AcceptsId : ArchReader → ℕ → Type 0
AcceptsId ai archid = (ai.archid ≡ 0) ⊎ (ai.archid ≡ archid)

pub read_header_body_steps :
    (ai : ArchReader) (magic : List ℕ) (archid fsid : ℕ) (d : Dico) (buffer rest : List ℕ)
    → ai.filefmtver ≡ 2
    → length buffer < 2 ^ 32
    → archid < 2 ^ 32
    → fsid < 2 ^ 16
    → AcceptsId ai archid
    → ahead ai ≡ put_le 4 archid ++ (put_le 2 fsid ++ (dico_bytes buffer ++ rest))
    → parse_header plenty buffer (fletcher32 buffer) dico_alloc ≡ some (Code.success, d)
    → read_header_body plenty ai magic
      ≡ some (record {
        res = Code.success;
        magic = magic;
        dico = some d;
        fsid = fsid;
        reader = seek ai (ai.volume.pos + 4 + 2 + 4 + length buffer + 4);
      })
unfolding read_header_body
read_header_body_steps ai magic archid fsid d buffer rest v hb ha hf accepts a0 p =
    let id = put_le 4 archid in
    let fs = put_le 2 fsid in
    let body = dico_bytes buffer ++ rest in
    let ai1 = seek ai (ai.volume.pos + 4) in
    let a1 : ahead ai1 ≡ fs ++ body =
      ahead-seek ai id (fs ++ body) 4 (sym (length-put_le 4 archid)) a0 in
    let ai2 = seek ai1 (ai1.volume.pos + 2) in
    let a2 : ahead ai2 ≡ body = ahead-seek ai1 fs body 2 (sym (length-put_le 2 fsid)) a1 in
    ground (
      arith,
      read_data_ahead ai id (fs ++ body) 4 (sym (length-put_le 4 archid)) a0,
      get_le-put_le 4 archid ha,
      read_data_ahead ai1 fs body 2 (sym (length-put_le 2 fsid)) a1,
      get_le-put_le 2 fsid hf,
      read_dico_steps ai2 buffer rest d (record { version = v; small = hb; next = a2 }) p,
    )

-- `archreader_read_header` where a header stands next in the volume.
pub read_header_steps :
    (ai : ArchReader) (allowseek : Bool) (magic : List ℕ) (archid fsid : ℕ) (d : Dico)
    (buffer rest : List ℕ)
    → is_magic_valid magic ≡ true
    → length magic ≡ 4
    → ai.filefmtver ≡ 2
    → length buffer < 2 ^ 32
    → archid < 2 ^ 32
    → fsid < 2 ^ 16
    → AcceptsId ai archid
    → ahead ai ≡ header_bytes magic archid fsid buffer ++ rest
    → parse_header plenty buffer (fletcher32 buffer) dico_alloc ≡ some (Code.success, d)
    → archreader_read_header plenty ai allowseek
      ≡ some (record {
        res = Code.success;
        magic = magic;
        dico = some d;
        fsid = fsid;
        reader = seek ai (ai.volume.pos + 4 + 4 + 2 + 4 + length buffer + 4);
      })
unfolding archreader_read_header
read_header_steps ai allowseek magic archid fsid d buffer rest hm lm v hb ha hf accepts next p =
    let body = put_le 4 archid ++ (put_le 2 fsid ++ (dico_bytes buffer ++ rest)) in
    let a0 : ahead ai ≡ magic ++ body = next ∙ rw (append_assoc, append_assoc, append_assoc) in
    let ai1 = seek ai (ai.volume.pos + 4) in
    let a1 : ahead ai1 ≡ body = ahead-seek ai magic body 4 (sym lm) a0 in
    ground (
      arith,
      read_data_ahead ai magic body 4 (sym lm) a0,
      memcpy_whole (replicate 4 0) magic lm,
      hm,
      read_header_body_steps ai1 magic archid fsid d buffer rest v hb ha hf accepts a1 p,
    )

-- A header that an archive can hold: the fields fit their C types, no attribute is lost or repeated,
-- and there are at most 65535 of them.
pub record IsHeader (d : Dico) (items magic : List ℕ) (archid fsid : ℕ) : Type 0 where
  pub whole : AllItems d
  pub unique : IsUnique d
  pub layout : put_items d ≡ some items
  pub count_word : dico_count_all_sections d < 2 ^ 16
  pub small : length items + 2 < 2 ^ 32
  pub magic_valid : is_magic_valid magic ≡ true
  pub magic_size : length magic ≡ 4
  pub archid_word : archid < 2 ^ 32
  pub fsid_word : fsid < 2 ^ 16

pub length-header_bytes :
    (magic : List ℕ) (archid fsid : ℕ) (buffer : List ℕ)
    → length magic ≡ 4
    → length (header_bytes magic archid fsid buffer) ≡ 4 + 4 + 2 + 4 + length buffer + 4
length-header_bytes magic archid fsid buffer h = omega (
  arith,
  length-append magic (put_le 4 archid ++ (put_le 2 fsid ++ dico_bytes buffer)),
  length-append (put_le 4 archid) (put_le 2 fsid ++ dico_bytes buffer),
  length-append (put_le 2 fsid) (dico_bytes buffer),
  length-append (put_le 4 (length buffer)) (buffer ++ put_le 4 (fletcher32 buffer)),
  length-append buffer (put_le 4 (fletcher32 buffer)),
  length-put_le 4 archid,
  length-put_le 2 fsid,
  length-put_le 4 (length buffer),
  length-put_le 4 (fletcher32 buffer),
)

-- A header that `writebuf_add_header` has appended to a buffer is read back by
-- `archreader_read_header` from a volume that holds this buffer, whatever stands behind it: the same
-- magic, filesystem id and dictionary, with the position just behind the header. The reader knows
-- either no archive id yet or that of the header.
pub archreader_read_header-writebuf_add_header :
    (mem : Memory) (ai : ArchReader) (allowseek : Bool) (before rest : List ℕ) (d : Dico)
    (items magic : List ℕ) (archid fsid : ℕ) (wb : Writebuf)
    → IsHeader d items magic archid fsid
    → length before + 2 ^ 33 < 2 ^ 64
    → writebuf_add_header mem (buffer_of before) d magic archid fsid ≡ some (pos 0, wb)
    → ai.volume.bytes ≡ wb.contents ++ rest
    → ai.volume.pos ≡ length before
    → ai.filefmtver ≡ 2
    → AcceptsId ai archid
    → archreader_read_header plenty ai allowseek
      ≡ some (record {
        res = Code.success;
        magic = magic;
        dico = some d;
        fsid = fsid;
        reader = seek ai (length wb.contents);
      })
archreader_read_header-writebuf_add_header mem ai allowseek before rest d items magic archid fsid wb
      h hb w vb vp v accepts =
    let buffer = data_bytes d items in
    let written = header_bytes magic archid fsid buffer in
    let contents : wb.contents ≡ before ++ written =
      ap (λ (b : Writebuf). b.contents)
        (writebuf_add_header_lem mem before d items magic archid fsid wb h.whole h.layout h.small hb
          h.magic_size w) in
    let next : ahead ai ≡ written ++ rest = ground (
      arith,
      vb,
      vp,
      contents,
      append_assoc before written rest,
      drop-append ai.volume.pos before (written ++ rest) vp,
    ) in
    let end : length wb.contents ≡ ai.volume.pos + 4 + 4 + 2 + 4 + length buffer + 4 =
      ap length contents
      ∙ omega (
        arith,
        length-append before written,
        length-header_bytes magic archid fsid buffer h.magic_size,
      ) in
    rw end (
      read_header_steps ai allowseek magic archid fsid d buffer rest h.magic_valid h.magic_size v
        (omega (arith, h, length-data_bytes d items)) h.archid_word h.fsid_word accepts next
        (parse_header-data_bytes d items h.whole h.unique h.layout h.count_word))
