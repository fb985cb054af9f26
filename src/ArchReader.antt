-- ===== src/ArchReader.antt =====
-- archreader.c: headers and blocks read back from the volumes of an archive.
-- A volume is its bytes and a position; a read that stops before the end of the file for another
-- reason is a read from a shorter file. `mem k` says whether the k-th allocation of the call is
-- granted. The result `none` is a fault of the program: a read past the end of the header's buffer.
pub mod Reading
pub mod Items
pub mod Headers
pub mod Corrupt
pub mod Resync
pub mod Blocks
pub mod VolHeader
use fsarchiver.Base.{
  ℕ, zero, suc, ◌+◌, ◌-◌, Bool, true, false, not, ◌&&◌, Option, none, some, List, [], ◌∷◌, ltb,
  ◌==◌, if◌then◌else◌, length, take, drop, replicate, memcpy, strncmp_eq,
}
use fsarchiver.Base.Int.{ℤ, pos, negsuc, is_error, minus_one}
use fsarchiver.Base.Code
use fsarchiver.Base.Bytes.{get_le}
use fsarchiver.Constants.{
  sizeof_magic, is_magic_valid, filesysid_null, magic_volh, max_filefmtlen, max_progverlen,
  volumehead_volnum, volumehead_archid, volumehead_fileformatver, volumehead_progvercreat,
}
use fsarchiver.Dico.{Memory, Dico, dico_alloc, dico_add_generic, dico_get_data, dico_get_u32}
use fsarchiver.Fletcher.{fletcher32}
use fsarchiver.Writebuf.{from_nth}

pub record Volume : Type 0 where
  pub bytes : List ℕ
  pub pos : ℕ

-- The fields of `struct s_archreader` that the reader itself works with. `volume` is the open file.
pub record ArchReader : Type 0 where
  pub volume : Volume
  pub archid : ℕ
  pub curvol : ℕ
  pub filefmtver : ℕ
  pub filefmt : List ℕ
  pub creatver : List ℕ

-- `lseek64(fd, pos, SEEK_SET)`
abbrev pub seek : ArchReader → ℕ → ArchReader
seek ai p = record ai { volume = record { bytes = ai.volume.bytes; pos = p } }

-- `read(fd, buf, size)`: the bytes that there are.
abbrev pub available : ArchReader → ℕ → List ℕ
available ai size = take size (drop ai.volume.pos ai.volume.bytes)

unfoldable pub archreader_read_data : ArchReader → ℕ → ℤ × List ℕ × ArchReader
archreader_read_data ai size =
    let got = available ai size in
    let ai' = seek ai (ai.volume.pos + length got) in
    if length got == size then (pos 0, got, ai') else (minus_one, got, ai')

-- The items of a header. The u16 at `bufpos` and the bytes before it must be in the buffer; those of
-- the data are read only if the item is added.
unfoldable pub read_items : Memory → ℕ → List ℕ → Dico → Option (ℤ × Dico)
read_items mem zero bufpos d = some (Code.success, d)
read_items mem (suc count) bufpos d =
    if ltb (length bufpos) 6
    then none
    else (let type = get_le (take 1 bufpos) in
        let section = get_le (take 1 (drop 1 bufpos)) in
        let key = get_le (take 2 (drop 2 bufpos)) in
        let size = get_le (take 2 (drop 4 bufpos)) in
        let src = drop 6 bufpos in
        let (res, d') = dico_add_generic mem d section key src size type in
        let later = read_items (from_nth 2 mem) count (drop size src) d' in
        if is_error res
        then some (Code.old_fatal, d')
        else if ltb (length src) size
        then none
        else later)

-- The header's length: a u16 in the first file format, a u32 in the second.
unfoldable pub read_headerlen : ArchReader → ℤ × ℕ × ArchReader
read_headerlen ai =
    if ai.filefmtver == 1
    then (let (res, temp, ai') = archreader_read_data ai 2 in
        if is_error res then (Code.old_fatal, 0, ai') else (Code.success, get_le temp, ai'))
    else if ai.filefmtver == 2
    then (let (res, temp, ai') = archreader_read_data ai 4 in
        if is_error res then (Code.old_fatal, 0, ai') else (Code.success, get_le temp, ai'))
    else (Code.old_fatal, 0, ai)

-- What is done with the header data once they are read.
unfoldable pub parse_header : Memory → List ℕ → ℕ → Dico → Option (ℤ × Dico)
parse_header mem buffer origsum d =
    if not (fletcher32 buffer == origsum)
    then some (Code.old_minor, d)
    else if ltb (length buffer) 2
    then none
    else read_items mem (get_le (take 2 buffer)) (drop 2 buffer) d

unfoldable pub archreader_read_dico : Memory → ArchReader → Dico → Option (ℤ × Dico × ArchReader)
archreader_read_dico mem ai d =
    let (res1, headerlen, ai1) = read_headerlen ai in
    if is_error res1
    then some (res1, d, ai1)
    else if not (mem 0)
    then some (Code.enomem, d, ai1)
    else (let (res2, buffer, ai2) = archreader_read_data ai1 headerlen in
        if is_error res2
        then some (Code.old_fatal, d, ai2)
        else (let (res3, temp, ai3) = archreader_read_data ai2 4 in
            if is_error res3
            then some (Code.old_fatal, d, ai3)
            else elim (parse_header (from_nth 1 mem) buffer (get_le temp) d) [
              | none ↦ none
              | some (res, d') ↦ some (res, d', ai3)
            ]))

-- The search for the next magic: `bytes` is the volume from `curpos` on. Whether one was found, the
-- four bytes of `magic`, and the position behind them.
unfoldable pub search_magic : List ℕ → ℕ → List ℕ → Bool × List ℕ × ℕ
search_magic magic curpos [] = (false, magic, curpos)
search_magic magic curpos (b ∷ bytes) =
    let got = take sizeof_magic (b ∷ bytes) in
    let magic' = memcpy magic 0 got in
    let later = search_magic magic' (curpos + 1) bytes in
    if not (length got == sizeof_magic)
    then (false, magic', curpos + length got)
    else if is_magic_valid magic'
    then (true, magic', curpos + sizeof_magic)
    else later

-- `*fsid`, `*d` (NULL before it is allocated), `magic`, and the reader after the call.
pub record HeaderRead : Type 0 where
  pub res : ℤ
  pub magic : List ℕ
  pub dico : Option Dico
  pub fsid : ℕ
  pub reader : ArchReader

-- From the archive id on.
unfoldable pub read_header_body : Memory → ArchReader → List ℕ → Option HeaderRead
read_header_body mem ai magic =
    let stop = λ (res : ℤ) (fsid : ℕ) (ai' : ArchReader).
      let r : HeaderRead = record {
        res = res;
        magic = magic;
        dico = some dico_alloc;
        fsid = fsid;
        reader = ai';
      } in
      r in
    let (res1, temp32, ai1) = archreader_read_data ai 4 in
    if is_error res1
    then some (stop Code.old_fatal filesysid_null ai1)
    else if not (ai.archid == 0) && not (get_le temp32 == ai.archid)
    then some (stop Code.old_minor filesysid_null ai1)
    else (let (res2, temp16, ai2) = archreader_read_data ai1 2 in
        if is_error res2
        then some (stop Code.old_fatal filesysid_null ai2)
        else elim (archreader_read_dico mem ai2 dico_alloc) [
          | none ↦ none
          | some (res3, d, ai3) ↦ some (record {
            res = res3;
            magic = magic;
            dico = some d;
            fsid = get_le temp16;
            reader = ai3;
          })
        ])

unfoldable pub archreader_read_header : Memory → ArchReader → Bool → Option HeaderRead
archreader_read_header mem ai allowseek =
    let zeros = replicate sizeof_magic 0 in
    let stop = λ (d : Option Dico) (magic : List ℕ) (ai' : ArchReader).
      let r : HeaderRead = record {
        res = Code.old_fatal;
        magic = magic;
        dico = d;
        fsid = filesysid_null;
        reader = ai';
      } in
      r in
    if not (mem 0)
    then some (stop none zeros ai)
    else (let (res1, got, ai1) = archreader_read_data ai sizeof_magic in
        let magic = memcpy zeros 0 got in
        if is_error res1
        then some (stop (some dico_alloc) magic ai1)
        else if is_magic_valid magic
        then read_header_body (from_nth 1 mem) ai1 magic
        else if not allowseek
        then some (stop (some dico_alloc) magic ai1)
        else (let (found, magic', p) =
              search_magic magic ai.volume.pos (drop ai.volume.pos ai.volume.bytes) in
            if found
            then read_header_body (from_nth 1 mem) (seek ai p) magic'
            else some (stop (some dico_alloc) magic' (seek ai p))))
