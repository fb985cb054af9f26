-- ===== src/Save/Standard.antt =====
-- oper_save.c, createar_item_stdattr: the standard attributes of an object, and its type.
use fsarchiver.Base.{
  ℕ, ◌+◌, ◌-◌, ◌*◌, ◌%◌, ◌^◌, Bool, true, false, not, ◌&&◌, Option, none, some, List, [], ◌∷◌, ltb,
  ◌==◌, if◌then◌else◌, bytes_eq, take,
}
use fsarchiver.Base.Int.{ℤ, pos, is_error, minus_one}
use fsarchiver.Constants.{section_stdattr, diskitemkey_size}
use fsarchiver.Keys.{
  objtype_null, objtype_dir, objtype_symlink, objtype_hardlink, objtype_chardev, objtype_blockdev,
  objtype_fifo, objtype_socket, objtype_regfileunique, objtype_regfilemulti, diskitemkey_objectid,
  diskitemkey_path, diskitemkey_objtype, diskitemkey_symlink, diskitemkey_hardlink,
  diskitemkey_rdev, diskitemkey_mode, diskitemkey_uid, diskitemkey_gid, diskitemkey_atime,
  diskitemkey_mtime, diskitemkey_linktargettype, diskitemkey_flags, cost_per_file, flag_sparse,
}
use fsarchiver.Dico.{Memory, Dico, dico_add_u32, dico_add_u64, dico_add_string}
use fsarchiver.Writebuf.{from_nth}
use fsarchiver.Dichl.{Dichl, dichl_add, dichl_get}
use fsarchiver.Paths.{path_max, concatenate_paths, extract_dirpath}
use fsarchiver.Source.{
  Source, Stat, Kind, directory, symbolic, regular, character, blockdev, fifo, socket, odd,
}

-- What the function works on: the dictionary, the type, the cost and the table of hard links.
pub record Attrs : Type 0 where
  pub dico : Dico
  pub objtype : ℕ
  pub filecost : ℕ
  pub dichardlinks : Dichl

-- The eight attributes of every object: whether one could not be added, and the dictionary. The next
-- one is added only if those before it were.
abbrev pub then_add : (Dico → ℤ × Dico) → Bool × Dico → Bool × Dico
then_add add (true, d) = (true, d)
then_add add (false, d) = (is_error (add d).0, (add d).1)

unfoldable pub add_common : Memory → ℕ → List ℕ → Stat → Dico → Bool × Dico
add_common mem objectid relpath s d =
    then_add
      (λ x. dico_add_u64 (from_nth 14 mem) x section_stdattr diskitemkey_mtime (s.mtime % 2 ^ 32))
      (then_add
        (λ x. dico_add_u64 (from_nth 12 mem) x section_stdattr diskitemkey_atime (s.atime % 2 ^ 32))
        (then_add (λ x. dico_add_u32 (from_nth 10 mem) x section_stdattr diskitemkey_gid s.gid)
          (then_add (λ x. dico_add_u32 (from_nth 8 mem) x section_stdattr diskitemkey_uid s.uid)
            (then_add (λ x. dico_add_u32 (from_nth 6 mem) x section_stdattr diskitemkey_mode s.mode)
              (then_add
                (λ x. dico_add_u64 (from_nth 4 mem) x section_stdattr diskitemkey_size s.size)
                (then_add
                  (λ x. dico_add_string (from_nth 2 mem) x section_stdattr diskitemkey_path relpath)
                  (then_add (λ x. dico_add_u64 mem x section_stdattr diskitemkey_objectid objectid)
                    (false, d))))))))

unfoldable pub skip_component : List ℕ → List ℕ
skip_component [] = []
skip_component (c ∷ text) = let later = skip_component text in if c == 47 then c ∷ text else later

abbrev pub skip_slash : List ℕ → List ℕ
skip_slash [] = []
skip_slash (c ∷ text) = if c == 47 then text else c ∷ text

abbrev pub tmp_fsa : List ℕ
tmp_fsa = 47 ∷ 116 ∷ 109 ∷ 112 ∷ 47 ∷ 102 ∷ 115 ∷ 97 ∷ 47 ∷ []

-- A target in the directory where fsarchiver has mounted the file system is taken from there on.
unfoldable pub fix_target : List ℕ → List ℕ
fix_target buffer =
    if bytes_eq (take 9 buffer) tmp_fsa
    then skip_component
        (skip_slash (skip_component (skip_slash (skip_component (skip_slash buffer)))))
    else buffer

-- The path by which the target of the link is looked at.
unfoldable pub target_path : List ℕ → List ℕ → List ℕ → Option (List ℕ)
target_path fullpath buffer linktarget =
    if bytes_eq (take 1 linktarget) (47 ∷ [])
    then some (take (path_max - 1) buffer)
    else concatenate_paths path_max (extract_dirpath fullpath path_max) linktarget

abbrev pub target_type : Kind → Option ℕ
target_type directory = some objtype_dir
target_type regular = some objtype_regfileunique
target_type symbolic = none
target_type character = none
target_type blockdev = none
target_type fifo = none
target_type socket = none
target_type odd = none

unfoldable pub add_target_type : Memory → Option Stat → Dico → Dico
add_target_type mem none d = d
add_target_type mem (some s) d = elim (target_type s.kind) [
  | none ↦ d
  | some t ↦ (dico_add_u64 mem d section_stdattr diskitemkey_linktargettype t).1
]

-- A symbolic link: none is a fault, and a link that cannot be read is an error.
unfoldable pub add_symlink : Source → Memory → Bool → List ℕ → Attrs → Option (ℤ × Attrs)
add_symlink src mem savesymtargettype fullpath a = elim (src.readlink fullpath) [
  | none ↦ some (minus_one, record a { objtype = objtype_symlink })
  | some buffer ↦
      let linktarget = fix_target buffer in
      let d1 = (dico_add_string mem a.dico section_stdattr diskitemkey_symlink linktarget).1 in
      let a1 : Attrs = record a { dico = d1; objtype = objtype_symlink } in
      if not savesymtargettype
      then some (pos 0, a1)
      else elim (target_path fullpath buffer linktarget) [
        | none ↦ none
        | some path ↦
            some (pos 0, record a1 { dico = add_target_type (from_nth 2 mem) (src.lstat path) d1 })
      ]
]

-- A file with several links is a hard link to the path that was saved first for its numbers; the first
-- one is remembered.
unfoldable pub find_hardlink : Memory → List ℕ → Stat → Attrs → Attrs
find_hardlink mem relpath s a =
    if not (ltb 1 s.nlink) then a else elim (dichl_get a.dichardlinks s.rdev s.ino path_max).1 [
      | none ↦ record a { dichardlinks = (dichl_add mem a.dichardlinks s.rdev s.ino relpath).1 }
      | some buffer ↦ record a {
        dico = (dico_add_string mem a.dico section_stdattr diskitemkey_hardlink buffer).1;
        objtype = objtype_hardlink;
      }
    ]

-- A small file with one link shares a block with others; an empty file has none.
unfoldable pub regfile_type : ℕ → Stat → ℕ
regfile_type smallfilethresh s =
    if ltb 0 s.size && ltb s.size smallfilethresh && (s.nlink == 1)
    then objtype_regfilemulti
    else objtype_regfileunique

-- The flags are zero or FSA_FILEFLAGS_SPARSE.
unfoldable pub add_regfile : Memory → ℕ → List ℕ → Stat → Attrs → ℕ × Attrs
add_regfile mem smallfilethresh relpath s a =
    let a1 = find_hardlink mem relpath s a in
    if a1.objtype == objtype_hardlink then (0, a1) else (
      if ltb (s.blocks * 512 % 2 ^ 64) s.size then flag_sparse else 0,
      record a1 { objtype = regfile_type smallfilethresh s; filecost = a1.filecost + s.size },
    )

unfoldable pub add_device : Memory → ℕ → Stat → Attrs → Attrs
add_device mem objtype s a = record a {
  dico = (dico_add_u64 mem a.dico section_stdattr diskitemkey_rdev s.rdev).1;
  objtype = objtype;
}

-- What is specific to the kind of the object: the result, the flags and the attributes.
unfoldable pub add_specific :
    Source → Memory → Bool → ℕ → List ℕ → List ℕ → Stat → Attrs → Option (ℤ × ℕ × Attrs)
add_specific src mem savesymtargettype smallfilethresh fullpath relpath s a = elim s.kind [
  | directory ↦ some (pos 0, 0, record a { objtype = objtype_dir })
  | symbolic ↦ elim (add_symlink src mem savesymtargettype fullpath a) [
    | none ↦ none
    | some (res, a1) ↦ some (res, 0, a1)
  ]
  | regular ↦
      let (flags, a1) = add_regfile mem smallfilethresh relpath s a in some (pos 0, flags, a1)
  | character ↦ some (pos 0, 0, add_device mem objtype_chardev s a)
  | blockdev ↦ some (pos 0, 0, add_device mem objtype_blockdev s a)
  | fifo ↦ some (pos 0, 0, add_device mem objtype_fifo s a)
  | socket ↦ some (pos 0, 0, add_device mem objtype_socket s a)
  | odd ↦ some (minus_one, 0, a)
]

unfoldable pub createar_item_stdattr :
    Source → Memory → Bool → ℕ → ℕ → List ℕ → List ℕ → Stat → Dico → Dichl → Option (ℤ × Attrs)
createar_item_stdattr src mem savesymtargettype smallfilethresh objectid fullpath relpath s d
      links =
    let (failed, d1) = add_common mem objectid relpath s d in
    let a : Attrs = record {
      dico = d1;
      objtype = objtype_null;
      filecost = cost_per_file;
      dichardlinks = links;
    } in
    if failed
    then some (minus_one, a)
    else elim (add_specific src (from_nth 16 mem) savesymtargettype smallfilethresh fullpath relpath
        s a) [
          | none ↦ none
          | some (res, flags, a1) ↦
              let d2 =
                (dico_add_u32 (from_nth 20 mem) a1.dico section_stdattr diskitemkey_objtype
                  a1.objtype).1 in
              let d3 : Dico =
                if flags == 0
                then d2
                else (dico_add_u64 (from_nth 22 mem) d2 section_stdattr diskitemkey_flags
                    flags).1 in
              if is_error res then some (res, a1) else some (pos 0, record a1 { dico = d3 })
        ]
