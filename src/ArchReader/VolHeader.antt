-- ===== src/ArchReader/VolHeader.antt =====
-- archreader.c: `archreader_read_volheader`, which checks the header at the start of a volume.
pub mod RoundTrip
use fsarchiver.Base.{
  ℕ, Bool, true, false, not, ◌&&◌, Option, none, some, List, [], ◌∷◌, ◌==◌, if◌then◌else◌,
  strncmp_eq,
}
use fsarchiver.Base.Int.{ℤ, pos, is_error, minus_one}
use fsarchiver.Constants.{
  sizeof_magic, magic_volh, max_filefmtlen, max_progverlen, volumehead_volnum, volumehead_archid,
  volumehead_fileformatver, volumehead_progvercreat,
}
use fsarchiver.Dico.{Memory, Dico, dico_get_data, dico_get_u32}
use fsarchiver.ArchReader.{ArchReader, HeaderRead, archreader_read_header}
use fsarchiver.ArchReader.Blocks.{Stack}

-- `text[0] == 0` for an array.
abbrev pub is_blank : List ℕ → Bool
is_blank [] = true
is_blank (c ∷ _) = c == 0

-- The steps d: the number of the volume, the file format, and the version that made the archive.
-- `stack 2` and `stack 3` are the arrays `filefmt` and `creatver`, which are not initialised.
unfoldable pub check_formats : Stack → Dico → ArchReader → ℤ × ArchReader
check_formats stack d ai =
    let (res1, filefmt, _) = dico_get_data d 0 volumehead_fileformatver (stack 2) max_filefmtlen in
    if is_error res1
    then (minus_one, ai)
    else if not (is_blank ai.filefmt) && not (strncmp_eq max_filefmtlen filefmt ai.filefmt)
    then (minus_one, ai)
    else (let ai1 : ArchReader =
          if is_blank ai.filefmt then record ai { filefmt = filefmt } else ai in
        let (res2, creatver, _) =
          dico_get_data d 0 volumehead_progvercreat (stack 3) max_progverlen in
        if is_error res2
        then (minus_one, ai1)
        else if is_blank ai1.creatver
        then (pos 0, record ai1 { creatver = creatver })
        else (pos 0, ai1))

unfoldable pub check_volheader : Stack → Dico → List ℕ → ArchReader → ℤ × ArchReader
check_volheader stack d magic ai =
    if not (strncmp_eq sizeof_magic magic magic_volh)
    then (minus_one, ai)
    else (let (res1, readid) = dico_get_u32 (stack 0) d 0 volumehead_archid in
        if is_error res1
        then (minus_one, ai)
        else if not (ai.archid == 0) && not (readid == ai.archid)
        then (minus_one, ai)
        else (let ai1 : ArchReader = if ai.archid == 0 then record ai { archid = readid } else ai in
            let (res2, volnum) = dico_get_u32 (stack 1) d 0 volumehead_volnum in
            if is_error res2
            then (minus_one, ai1)
            else if not (volnum == ai1.curvol)
            then (minus_one, ai1)
            else check_formats stack d ai1))

unfoldable pub archreader_read_volheader : Stack → Memory → ArchReader → Option (ℤ × ArchReader)
archreader_read_volheader stack mem ai = elim (archreader_read_header mem ai false) [
  | none ↦ none
  | some r ↦
      if is_error r.res
      then some (minus_one, r.reader)
      else elim r.dico [ none ↦ none | some d ↦ some (check_volheader stack d r.magic r.reader) ]
]
