-- ===== src/ArchWriter/Volumes.antt =====
-- archwriter.c: the volumes of an archive on disk.
-- The disk is a function from a path to the bytes of the file there. The open file is known by its
-- path, and the position is its end, since the writer only appends. `none` is a fault, as in Writebuf.
use fsarchiver.Base.{
  ℕ, zero, suc, ◌+◌, ◌-◌, ◌/◌, ◌%◌, ◌^◌, Bool, true, false, not, ◌&&◌, Option, none, some, List, [],
  ◌∷◌, ◌++◌, ltb, ◌==◌, if◌then◌else◌, bytes_eq, length, take,
}
use fsarchiver.Base.Int.{ℤ, pos, is_error, minus_one}
use fsarchiver.Constants.{filesysid_null, magic_volh, magic_volf}
use fsarchiver.Dico.{Memory, Dico}
use fsarchiver.Block.{BlockInfo, HeadInfo}
use fsarchiver.Writebuf.{
  from_nth, Writebuf, writebuf_alloc, writebuf_add_header, writebuf_add_block,
}
use fsarchiver.Strlist.{Strlist, strlist_add, cut}
use fsarchiver.ArchWriter.{volheader_dico, volfooter_dico}

abbrev pub Disk : Type 0
Disk = List ℕ → Option (List ℕ)

-- The disk with the file at `path` replaced.
abbrev pub put_file : Disk → List ℕ → List ℕ → Disk
put_file disk path bytes p = if bytes_eq path p then some bytes else disk p

-- What the operating system does: which paths are not regular files, which ones may not be opened,
-- the real path of a file, and how many of some bytes are written at a position of a file.
pub record Device : Type 0 where
  pub special : List ℕ → Bool
  pub denied : List ℕ → Bool
  pub realpath : List ℕ → Option (List ℕ)
  pub accepts : List ℕ → ℕ → ℕ → ℕ

-- The options that the writer reads, and the two texts that the build sets.
pub record Settings : Type 0 where
  pub overwrite : Bool
  pub splitsize : ℕ
  pub filefmt : List ℕ
  pub version : List ℕ

-- The fields of `struct s_archwriter` that the writer itself works with.
pub record ArchWriter : Type 0 where
  pub disk : Disk
  pub archfd : Option (List ℕ)
  pub archid : ℕ
  pub curvol : ℕ
  pub newarch : Bool
  pub basepath : List ℕ
  pub volpath : List ℕ
  pub vollist : Strlist

-- common.c, `get_path_to_volume`: `%.2ld` has two digits at least.
unfoldable pub digits : ℕ → ℕ → List ℕ
digits zero n = []
digits (suc fuel) n =
    let front = digits fuel (n / 10) in
    if ltb n 10 then (48 + n) ∷ [] else front ++ ((48 + n % 10) ∷ [])

unfoldable pub two_digits : ℕ → List ℕ
two_digits n = if ltb n 10 then 48 ∷ digits 1 n else digits n n

abbrev pub path_max : ℕ
path_max = 4096

unfoldable pub get_path_to_volume : Device → List ℕ → List ℕ → ℕ → ℤ × List ℕ
get_path_to_volume dev old basepath curvol =
    if ltb (length basepath) 4
    then (minus_one, old)
    else if curvol == 0
    then (pos 0, elim (dev.realpath basepath) [ none ↦ cut path_max basepath | some path ↦ path ])
    else (pos 0, cut path_max (take (length basepath - 2) basepath ++ two_digits curvol))

unfoldable pub archwriter_volpath : Device → ArchWriter → ℤ × ArchWriter
archwriter_volpath dev ai =
    let (res, path) = get_path_to_volume dev ai.volpath ai.basepath ai.curvol in
    (res, record ai { volpath = path })

unfoldable pub archwriter_incvolume : Device → ArchWriter → ℤ × ArchWriter
archwriter_incvolume dev ai =
    archwriter_volpath dev (record ai { curvol = (ai.curvol + 1) % 2 ^ 32 })

unfoldable pub archwriter_create : Device → Settings → Memory → ArchWriter → ℤ × ArchWriter
archwriter_create dev o mem ai =
    let path = ai.volpath in
    let found : Bool = elim (ai.disk path) [ none ↦ false | some _ ↦ true ] in
    if found && dev.special path
    then (minus_one, ai)
    else if not o.overwrite && found
    then (minus_one, ai)
    else if dev.denied path
    then (minus_one, record ai { archfd = none })
    else (
      pos 0,
      record ai {
        disk = put_file ai.disk path [];
        archfd = some path;
        newarch = true;
        vollist = (strlist_add mem ai.vollist path).1;
      },
    )

unfoldable pub archwriter_close : ArchWriter → ℤ × ArchWriter
archwriter_close ai = elim ai.archfd [
  | none ↦ (minus_one, ai)
  | some _ ↦ (pos 0, record ai { archfd = none })
]

-- The bytes of the open file; `lseek64` fails where there is none.
unfoldable pub open_file : ArchWriter → Option (List ℕ)
open_file ai = elim ai.archfd [ none ↦ none | some path ↦ ai.disk path ]

unfoldable pub archwriter_write_buffer : Device → ArchWriter → Writebuf → ℤ × ArchWriter
archwriter_write_buffer dev ai wb = if wb.size == 0 then (minus_one, ai) else elim ai.archfd [
  | none ↦ (minus_one, ai)
  | some path ↦ elim (ai.disk path) [
    | none ↦ (minus_one, ai)
    | some bytes ↦
        let n = dev.accepts path (length bytes) wb.size in
        let ai' : ArchWriter = record ai {
          disk = put_file ai.disk path (bytes ++ take n wb.contents);
        } in
        if n == wb.size then (pos 0, ai') else (minus_one, ai')
  ]
]

-- A header with no filesystem of its own, in a buffer of its own, at the end of the volume.
abbrev pub write_own_header : Device → Memory → ArchWriter → Dico → List ℕ → Option (ℤ × ArchWriter)
write_own_header dev mem ai d magic = elim (writebuf_alloc mem) [
  | none ↦ some (minus_one, ai)
  | some wb ↦ elim (writebuf_add_header (from_nth 10 mem) wb d magic ai.archid filesysid_null) [
    | none ↦ none
    | some (res, wb') ↦
        if is_error res
        then some (minus_one, ai)
        else if is_error (archwriter_write_buffer dev ai wb').0
        then some (minus_one, (archwriter_write_buffer dev ai wb').1)
        else some (pos 0, (archwriter_write_buffer dev ai wb').1)
  ]
]

unfoldable pub archwriter_write_volheader :
    Device → Settings → Memory → ArchWriter → Option (ℤ × ArchWriter)
archwriter_write_volheader dev o mem ai =
    if not (mem 1)
    then some (minus_one, ai)
    else write_own_header dev mem ai
        (volheader_dico (from_nth 2 mem) ai.curvol ai.archid o.filefmt o.version) magic_volh

unfoldable pub archwriter_write_volfooter :
    Device → Memory → ArchWriter → Bool → Option (ℤ × ArchWriter)
archwriter_write_volfooter dev mem ai lastvol =
    if not (mem 1)
    then some (minus_one, ai)
    else write_own_header dev mem ai
        (volfooter_dico (from_nth 2 mem) ai.curvol ai.archid (if lastvol then 1 else 0)) magic_volf

unfoldable pub archwriter_split_check : Settings → ArchWriter → Writebuf → Bool
archwriter_split_check o ai wb = elim (open_file ai) [
  | none ↦ false
  | some bytes ↦ ltb 0 o.splitsize && ltb o.splitsize (length bytes + wb.size)
]

-- The next volume: the result of the close and of the new path are not looked at.
unfoldable pub start_next_volume : Device → Settings → Memory → ArchWriter → Option (ℤ × ArchWriter)
start_next_volume dev o mem ai =
    let ai1 = (archwriter_incvolume dev (archwriter_close ai).1).1 in
    let (res, ai2) = archwriter_create dev o mem ai1 in
    if is_error res
    then some (minus_one, ai2)
    else elim (archwriter_write_volheader dev o (from_nth 2 mem) ai2) [
      | none ↦ none
      | some (res2, ai3) ↦ if is_error res2 then some (minus_one, ai3) else some (pos 0, ai3)
    ]

-- Each step has its own allocations: `mem j` are those of the j-th step.
unfoldable pub archwriter_split_if_necessary :
    Device → Settings → (ℕ → Memory) → ArchWriter → Writebuf → Option (ℤ × ArchWriter)
archwriter_split_if_necessary dev o mem ai wb =
    if not (archwriter_split_check o ai wb)
    then some (pos 0, ai)
    else elim (archwriter_write_volfooter dev (mem 0) ai false) [
      | none ↦ none
      | some (res, ai1) ↦
          if is_error res then some (minus_one, ai1) else start_next_volume dev o (mem 1) ai1
    ]

-- The end of the two functions that write an item.
unfoldable pub write_split :
    Device → Settings → (ℕ → Memory) → ArchWriter → Writebuf → Option (ℤ × ArchWriter)
write_split dev o mem ai wb = elim (archwriter_split_if_necessary dev o mem ai wb) [
  | none ↦ none
  | some (res, ai1) ↦
      if is_error res
      then some (minus_one, ai1)
      else if is_error (archwriter_write_buffer dev ai1 wb).0
      then some (minus_one, (archwriter_write_buffer dev ai1 wb).1)
      else some (pos 0, (archwriter_write_buffer dev ai1 wb).1)
]

unfoldable pub archwriter_dowrite_block :
    Device → Settings → (ℕ → Memory) → ArchWriter → BlockInfo → Option (ℤ × ArchWriter)
archwriter_dowrite_block dev o mem ai b = elim (writebuf_alloc (mem 2)) [
  | none ↦ some (minus_one, ai)
  | some wb ↦ elim (writebuf_add_block (from_nth 1 (mem 2)) wb b ai.archid b.blkfsid) [
    | none ↦ none
    | some (res, wb') ↦ if is_error res then some (minus_one, ai) else write_split dev o mem ai wb'
  ]
]

unfoldable pub archwriter_dowrite_header :
    Device → Settings → (ℕ → Memory) → ArchWriter → HeadInfo → Option (ℤ × ArchWriter)
archwriter_dowrite_header dev o mem ai h = elim (writebuf_alloc (mem 2)) [
  | none ↦ some (minus_one, ai)
  | some wb ↦ elim (writebuf_add_header (from_nth 1 (mem 2)) wb h.dico h.magic ai.archid h.fsid) [
    | none ↦ none
    | some (res, wb') ↦ if is_error res then some (minus_one, ai) else write_split dev o mem ai wb'
  ]
]
