-- ===== src/ArchWriter.antt =====
-- archwriter.c: the headers and footers of the volumes, as they stand in the buffer that is written.
-- `filefmt` and `version` are FSA_FILEFORMAT and FSA_VERSION, which the build sets.
pub mod Layout
pub mod Volumes
pub mod Split
use fsarchiver.Base.{ℕ, ◌+◌, Bool, Option, none, some, List}
use fsarchiver.Base.Int.{ℤ, pos, is_error, minus_one}
use fsarchiver.Constants.{
  filesysid_null, magic_volh, magic_volf, volumehead_volnum, volumehead_archid,
  volumehead_fileformatver, volumehead_progvercreat, volumefoot_volnum, volumefoot_archid,
  volumefoot_lastvol,
}
use fsarchiver.Dico.{Memory, Dico, dico_alloc, dico_add_u32, dico_add_string}
use fsarchiver.Writebuf.{from_nth, Writebuf, writebuf_alloc, writebuf_add_header}

-- The results of the four additions are not looked at.
unfoldable pub volheader_dico : Memory → ℕ → ℕ → List ℕ → List ℕ → Dico
volheader_dico mem curvol archid filefmt version =
    let (_, d1) = dico_add_u32 mem dico_alloc 0 volumehead_volnum curvol in
    let (_, d2) = dico_add_u32 (from_nth 2 mem) d1 0 volumehead_archid archid in
    let (_, d3) = dico_add_string (from_nth 4 mem) d2 0 volumehead_fileformatver filefmt in
    let (_, d4) = dico_add_string (from_nth 6 mem) d3 0 volumehead_progvercreat version in d4

unfoldable pub volfooter_dico : Memory → ℕ → ℕ → ℕ → Dico
volfooter_dico mem curvol archid lastvol =
    let (_, d1) = dico_add_u32 mem dico_alloc 0 volumefoot_volnum curvol in
    let (_, d2) = dico_add_u32 (from_nth 2 mem) d1 0 volumefoot_archid archid in
    let (_, d3) = dico_add_u32 (from_nth 4 mem) d2 0 volumefoot_lastvol lastvol in d3
