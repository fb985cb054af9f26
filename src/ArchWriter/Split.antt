-- ===== src/ArchWriter/Split.antt =====
-- archwriter.c: what one item adds to the volumes on disk.
use fsarchiver.Base.{
  ℕ, zero, suc, ◌+◌, ◌%◌, ◌^◌, ◌≤◌, ◌<◌, ◌≡◌, refl, ap, true, false, ◌&&◌, none, some, List, [],
  ◌++◌, arith, ltb, bytes_eq, bytes_eq-eq, bytes_eq_refl, length, take_all, Bool-cases, inl, inr,
  ◌⊎◌,
}
use fsarchiver.Base.Int.{pos}
use fsarchiver.Constants.{filesysid_null, magic_volh, magic_volf}
use fsarchiver.Dico.{Dico, plenty}
use fsarchiver.Writebuf.{writebuf_alloc, writebuf_add_header}
use fsarchiver.Writebuf.Layout.{buffer_of}
use fsarchiver.Strlist.{strlist_add}
use fsarchiver.ArchWriter.{volheader_dico, volfooter_dico}
use fsarchiver.ArchWriter.Volumes.{
  Disk, put_file, Device, Settings, ArchWriter, get_path_to_volume, archwriter_volpath,
  archwriter_incvolume, archwriter_create, archwriter_close, open_file, archwriter_write_buffer,
  write_own_header, archwriter_write_volheader, archwriter_write_volfooter, archwriter_split_check,
  start_next_volume, archwriter_split_if_necessary, write_split,
}

-- Every file can be opened, and every write is done whole.
pub record HasRoom (dev : Device) : Type 0 where
  pub all_accepted : (path : List ℕ) (at size : ℕ) → dev.accepts path at size ≡ size
  pub none_denied : (path : List ℕ) → dev.denied path ≡ false

-- The writer has this file open, with these bytes.
pub record IsOpen (ai : ArchWriter) (path bytes : List ℕ) : Type 0 where
  pub open_path : ai.archfd ≡ some path
  pub on_disk : ai.disk path ≡ some bytes

put_file_here : (disk : Disk) (path bytes : List ℕ) → put_file disk path bytes path ≡ some bytes
put_file_here disk path bytes = ground (arith, bytes_eq_refl path)

-- The writer after more bytes in its open file.
abbrev grown : ArchWriter → List ℕ → List ℕ → List ℕ → ArchWriter
grown ai path old bytes = record ai { disk = put_file ai.disk path (old ++ bytes) }

grown-IsOpen :
    (ai : ArchWriter) (path old bytes : List ℕ)
    → IsOpen ai path old
    → IsOpen (grown ai path old bytes) path (old ++ bytes)
grown-IsOpen ai path old bytes i = record {
  open_path = i.open_path;
  on_disk = put_file_here ai.disk path (old ++ bytes);
}

write_buffer_whole :
    (dev : Device) (ai : ArchWriter) (path old bytes : List ℕ)
    → HasRoom dev
    → IsOpen ai path old
    → 0 < length bytes
    → archwriter_write_buffer dev ai (buffer_of bytes) ≡ (pos 0, grown ai path old bytes)
unfolding archwriter_write_buffer
write_buffer_whole dev ai path old bytes r i h = ground (
  arith,
  i.open_path,
  i.on_disk,
  r.all_accepted path (length old) (length bytes),
  take_all (length bytes) bytes refl,
  h,
)

write_own_header_whole :
    (dev : Device) (ai : ArchWriter) (d : Dico) (magic path old bytes : List ℕ)
    → HasRoom dev
    → IsOpen ai path old
    → 0 < length bytes
    → writebuf_add_header plenty (buffer_of []) d magic ai.archid filesysid_null
      ≡ some (pos 0, buffer_of bytes)
    → write_own_header dev plenty ai d magic ≡ some (pos 0, grown ai path old bytes)
unfolding writebuf_alloc
write_own_header_whole dev ai d magic path old bytes r i h w =
    ground (arith, w, write_buffer_whole dev ai path old bytes r i h)

-- The path of the volume that follows.
abbrev pub next_path : Device → ArchWriter → List ℕ
next_path dev ai = (get_path_to_volume dev ai.volpath ai.basepath ((ai.curvol + 1) % 2 ^ 32)).1

-- The writer with the next volume named and not yet made, and with that volume empty.
abbrev named : Device → ArchWriter → ArchWriter
named dev ai = record ai {
  archfd = none;
  curvol = (ai.curvol + 1) % 2 ^ 32;
  volpath = next_path dev ai;
}

abbrev created : Device → ArchWriter → ArchWriter
created dev ai = record ai {
  disk = put_file ai.disk (next_path dev ai) [];
  archfd = some (next_path dev ai);
  curvol = (ai.curvol + 1) % 2 ^ 32;
  newarch = true;
  volpath = next_path dev ai;
  vollist = (strlist_add plenty ai.vollist (next_path dev ai)).1;
}

paths_differ :
    (disk : Disk) (path path' bytes : List ℕ)
    → disk path ≡ some bytes
    → disk path' ≡ none
    → bytes_eq path' path ≡ false
paths_differ disk path path' bytes h g = elim (Bool-cases (bytes_eq path' path)) [
  | inr e ↦ e
  | inl e ↦ ground (arith, h, g, ap disk (bytes_eq-eq path' path e))
]

named_is :
    (dev : Device) (ai : ArchWriter) (path : List ℕ)
    → ai.archfd ≡ some path
    → (archwriter_incvolume dev (archwriter_close ai).1).1 ≡ named dev ai
unfolding archwriter_incvolume archwriter_volpath archwriter_close
named_is dev ai path h = ground (arith, h)

create_next :
    (dev : Device) (o : Settings) (ai : ArchWriter)
    → HasRoom dev
    → ai.disk (next_path dev ai) ≡ none
    → archwriter_create dev o plenty (named dev ai) ≡ (pos 0, created dev ai)
unfolding archwriter_create
create_next dev o ai r h = ground (arith, h, r.none_denied (next_path dev ai))

start_next_volume_whole :
    (dev : Device) (o : Settings) (ai : ArchWriter) (path head : List ℕ)
    → HasRoom dev
    → ai.archfd ≡ some path
    → ai.disk (next_path dev ai) ≡ none
    → 0 < length head
    → writebuf_add_header plenty
        (buffer_of [])
        (volheader_dico plenty ((ai.curvol + 1) % 2 ^ 32) ai.archid o.filefmt o.version)
        magic_volh
        ai.archid
        filesysid_null
      ≡ some (pos 0, buffer_of head)
    → start_next_volume dev o plenty ai
      ≡ some (pos 0, grown (created dev ai) (next_path dev ai) [] head)
unfolding start_next_volume archwriter_write_volheader
start_next_volume_whole dev o ai path head r h free some_head w =
    let new : IsOpen (created dev ai) (next_path dev ai) [] = record {
      open_path = refl;
      on_disk = put_file_here ai.disk (next_path dev ai) [];
    } in
    ground (
      arith,
      ap (archwriter_create dev o plenty) (named_is dev ai path h),
      create_next dev o ai r free,
      write_own_header_whole dev (created dev ai)
          (volheader_dico plenty ((ai.curvol + 1) % 2 ^ 32) ai.archid o.filefmt o.version)
          magic_volh (next_path dev ai) [] head r new some_head w,
    )

paths_differ_back : (x y : List ℕ) → bytes_eq y x ≡ false → bytes_eq x y ≡ false
paths_differ_back x y h = elim (Bool-cases (bytes_eq x y)) [
  | inr e ↦ e
  | inl e ↦ ground (arith, h, bytes_eq_refl y, ap (bytes_eq y) (bytes_eq-eq x y e))
]

size_fits :
    (limit size : ℕ) → (ltb 0 limit && ltb limit size) ≡ false → (limit ≡ 0) ⊎ (size ≤ limit)
size_fits zero size h = inl refl
size_fits (suc limit) size h = inr (ground (arith, h))

-- An item whose buffer still fits goes to the end of the open volume, which is then no larger than
-- the size asked for, if there is one.
pub write_split_fits :
    (dev : Device) (o : Settings) (ai : ArchWriter) (path old bytes : List ℕ)
    → HasRoom dev
    → IsOpen ai path old
    → 0 < length bytes
    → archwriter_split_check o ai (buffer_of bytes) ≡ false
    → (ai' : ArchWriter) × (write_split dev o (λ j. plenty) ai (buffer_of bytes)
        ≡ some (pos 0, ai'))
      × IsOpen ai' path (old ++ bytes)
      × ((o.splitsize ≡ 0) ⊎ (length old + length bytes ≤ o.splitsize))
unfolding write_split archwriter_split_if_necessary archwriter_split_check open_file
write_split_fits dev o ai path old bytes r i h c = (
  grown ai path old bytes,
  ground (arith, c, write_buffer_whole dev ai path old bytes r i h),
  grown-IsOpen ai path old bytes i,
  size_fits o.splitsize (length old + length bytes) (ground (arith, c, i.open_path, i.on_disk)),
)

-- An item whose buffer does not fit any more starts the next volume: the open one ends with its
-- footer, and the new one, whose path must be free, holds its header and the whole item. This is so
-- when memory suffices and every file can be opened and takes what is written.
pub write_split_next :
    (dev : Device) (o : Settings) (ai : ArchWriter) (path old bytes foot head : List ℕ)
    → HasRoom dev
    → IsOpen ai path old
    → 0 < length bytes
    → 0 < length foot
    → 0 < length head
    → archwriter_split_check o ai (buffer_of bytes) ≡ true
    → ai.disk (next_path dev ai) ≡ none
    → writebuf_add_header plenty
        (buffer_of [])
        (volfooter_dico plenty ai.curvol ai.archid 0)
        magic_volf
        ai.archid
        filesysid_null
      ≡ some (pos 0, buffer_of foot)
    → writebuf_add_header plenty
        (buffer_of [])
        (volheader_dico plenty ((ai.curvol + 1) % 2 ^ 32) ai.archid o.filefmt o.version)
        magic_volh
        ai.archid
        filesysid_null
      ≡ some (pos 0, buffer_of head)
    → (ai' : ArchWriter) × (write_split dev o (λ j. plenty) ai (buffer_of bytes)
        ≡ some (pos 0, ai'))
      × IsOpen ai' (next_path dev ai) (head ++ bytes)
      × (ai'.disk path ≡ some (old ++ foot))
      × (ai'.curvol ≡ (ai.curvol + 1) % 2 ^ 32)
unfolding write_split archwriter_split_if_necessary archwriter_write_volfooter
write_split_next dev o ai path old bytes foot head r i h hf hh c free wf wh =
    let new = next_path dev ai in
    let apart = paths_differ ai.disk path new old i.on_disk free in
    let apart' = paths_differ_back path new apart in
    let ai1 = grown ai path old foot in
    let still_free : ai1.disk new ≡ none = ground (arith, apart', free) in
    let ai2 = grown (created dev ai1) new [] head in
    let open2 : IsOpen ai2 new head = record {
      open_path = refl;
      on_disk = put_file_here (created dev ai1).disk new head;
    } in
    (
      grown ai2 new head bytes,
      ground (
        arith,
        c,
        write_own_header_whole dev ai (volfooter_dico plenty ai.curvol ai.archid 0) magic_volf path
            old foot r i hf wf,
        start_next_volume_whole dev o ai1 path head r i.open_path still_free hh wh,
        write_buffer_whole dev ai2 new head bytes r open2 h,
      ),
      grown-IsOpen ai2 new head bytes open2,
      ground (arith, apart, bytes_eq_refl path),
      refl,
    )
