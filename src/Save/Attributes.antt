-- ===== src/Save/Attributes.antt =====
-- oper_save.c: the attributes of an object. `createar_item_stdattr` also finds out its type.
use fsarchiver.Base.{
  ℕ, zero, suc, ◌+◌, ◌-◌, ◌*◌, ◌%◌, ◌^◌, Bool, true, false, not, ◌&&◌, none, some, List, [], ◌∷◌,
  ◌++◌, ltb, ◌==◌, if◌then◌else◌, bytes_eq, length,
}
use fsarchiver.Base.Int.{ℤ, pos, minus_one}
use fsarchiver.Keys.{section_xattr, section_winattr}
use fsarchiver.Dico.{Memory, Dico, dico_add_string, dico_add_data}
use fsarchiver.Writebuf.{from_nth}
use fsarchiver.Source.{Source, value, absent, failed}

-- The text up to a zero, and what is behind it.
unfoldable pub split_zero : List ℕ → List ℕ × List ℕ
split_zero [] = ([], [])
split_zero (c ∷ text) =
    let (name, rest) = split_zero text in if c == 0 then ([], text) else (c ∷ name, rest)

-- One attribute under the next two keys; an attribute that cannot be read is an error, unless it is
-- absent. `attrsize` is what the first call of `lgetxattr` says. The state is the count of attributes,
-- whether there was an error, and the dictionary.
unfoldable pub add_attribute :
    Source → Memory → ℕ → List ℕ → List ℕ → ℕ × Bool × Dico → ℕ → ℕ × Bool × Dico
add_attribute src mem section fullpath name (attrcnt, ret, d) attrsize =
    if not (mem 0) then (attrcnt, true, d) else elim (src.lgetxattr fullpath name attrsize) [
      | absent ↦ (attrcnt, ret, d)
      | failed ↦ (attrcnt, true, d)
      | value bytes ↦
          let d1 = (dico_add_string (from_nth 1 mem) d section (2 * attrcnt) name).1 in
          (
            attrcnt + 1,
            ret,
            (dico_add_data (from_nth 3 mem) d1 section (2 * attrcnt + 1) bytes
                (length bytes % 2 ^ 16)).1,
          )
    ]

-- The size that is passed on after a failure of the first call is -1.
unfoldable pub xattr_step : Source → Memory → List ℕ → List ℕ → ℕ × Bool × Dico → ℕ × Bool × Dico
xattr_step src mem fullpath name s = elim (src.xattr_size fullpath name) [
  | value attrsize ↦
      if ltb 65535 attrsize
      then (s.0, true, s.2)
      else add_attribute src mem section_xattr fullpath name s attrsize
  | absent ↦ add_attribute src mem section_xattr fullpath name s (2 ^ 64 - 1)
  | failed ↦ add_attribute src mem section_xattr fullpath name s (2 ^ 64 - 1)
]

-- The loop over the names; each of them has one byte at least, its zero.
unfoldable pub xattr_loop :
    Source → Memory → List ℕ → ℕ → List ℕ → ℕ × Bool × Dico → ℕ × Bool × Dico
xattr_loop src mem fullpath zero buffer s = s
xattr_loop src mem fullpath (suc fuel) buffer s =
    let (name, rest) = split_zero buffer in
    let later =
      xattr_loop src (from_nth 5 mem) fullpath fuel rest (xattr_step src mem fullpath name s) in
    if length buffer == 0 then s else later

unfoldable pub createar_item_xattr : Source → Memory → List ℕ → Dico → ℤ × Dico
createar_item_xattr src mem fullpath d = elim (src.llistxattr fullpath 4095) [
  | none ↦ (pos 0, d)
  | some buffer ↦
      let (attrcnt, ret, d') = xattr_loop src mem fullpath (length buffer) buffer (0, false, d) in
      (if ret then minus_one else pos 0, d')
]

-- "system.ntfs_acl", "system.ntfs_attrib", "system.ntfs_reparse_data", "system.ntfs_times" and
-- "system.ntfs_dos_name".
abbrev pub ntfs_attr : List ℕ → List ℕ
ntfs_attr name = (115 ∷ 121 ∷ 115 ∷ 116 ∷ 101 ∷ 109 ∷ 46 ∷ 110 ∷ 116 ∷ 102 ∷ 115 ∷ 95 ∷ []) ++ name

abbrev pub dos_name : List ℕ
dos_name = ntfs_attr (100 ∷ 111 ∷ 115 ∷ 95 ∷ 110 ∷ 97 ∷ 109 ∷ 101 ∷ [])

unfoldable pub winattr_names : List (List ℕ)
winattr_names =
    ntfs_attr (97 ∷ 99 ∷ 108 ∷ [])
    ∷ ntfs_attr (97 ∷ 116 ∷ 116 ∷ 114 ∷ 105 ∷ 98 ∷ [])
    ∷ ntfs_attr (114 ∷ 101 ∷ 112 ∷ 97 ∷ 114 ∷ 115 ∷ 101 ∷ 95 ∷ 100 ∷ 97 ∷ 116 ∷ 97 ∷ [])
    ∷ ntfs_attr (116 ∷ 105 ∷ 109 ∷ 101 ∷ 115 ∷ [])
    ∷ dos_name
    ∷ []

unfoldable pub winattr_step :
    Source → Memory → List ℕ → List ℕ → List ℕ → ℕ × Bool × Dico → ℕ × Bool × Dico
winattr_step src mem relpath fullpath name s =
    if bytes_eq relpath (47 ∷ []) && bytes_eq name dos_name
    then s
    else elim (src.xattr_size fullpath name) [
      | value attrsize ↦
          if ltb 65535 attrsize
          then (s.0, true, s.2)
          else add_attribute src mem section_winattr fullpath name s attrsize
      | absent ↦ s
      | failed ↦ (s.0, true, s.2)
    ]

unfoldable pub winattr_loop :
    Source → Memory → List ℕ → List ℕ → List (List ℕ) → ℕ × Bool × Dico → ℕ × Bool × Dico
winattr_loop src mem relpath fullpath [] s = s
winattr_loop src mem relpath fullpath (name ∷ names) s =
    winattr_loop src (from_nth 5 mem) relpath fullpath names
      (winattr_step src mem relpath fullpath name s)

unfoldable pub createar_item_winattr : Source → Memory → List ℕ → List ℕ → Dico → ℤ × Dico
createar_item_winattr src mem relpath fullpath d =
    let (attrcnt, ret, d') = winattr_loop src mem relpath fullpath winattr_names (0, false, d) in
    (if ret then minus_one else pos 0, d')
