-- ===== src/Restore/Attributes.antt =====
-- oper_restore.c and common.c: exclusion, parent directories, and the attributes of an object.
use fsarchiver.Base.{
  ℕ, zero, suc, ◌+◌, ◌/◌, Bool, true, false, not, ◌&&◌, ◌||◌, none, some, List, [], ◌∷◌, ◌++◌, ltb,
  ◌==◌, if◌then◌else◌, length, take, replicate,
}
use fsarchiver.Base.Int.{ℤ, pos, negsuc, is_error, minus_one}
use fsarchiver.Dico.{
  Dico, dico_get_u32, dico_get_u64, dico_get_string, dico_get_data, dico_count_one_section,
}
use fsarchiver.ArchReader.Blocks.{Stack}
use fsarchiver.Constants.{section_stdattr}
use fsarchiver.Keys.{
  section_xattr, section_winattr, diskitemkey_mode, diskitemkey_uid, diskitemkey_gid,
  diskitemkey_atime, diskitemkey_mtime, objtype_symlink,
}
use fsarchiver.Strlist.{Strlist, cut}
use fsarchiver.Paths.{path_max, before_last_slash, extract_dirpath, extract_basename, exclude_check}
use fsarchiver.Target.{Target}

-- The bytes in front of the first zero.
unfoldable pub c_string : List ℕ → List ℕ
c_string [] = []
c_string (c ∷ buffer) = let later = c_string buffer in if c == 0 then [] else c ∷ later

-- What the restoration asks for by options: the patterns that exclude.
abbrev pub matches : (List ℕ → List ℕ → Bool) → Strlist → List ℕ → Bool
matches fnmatch exclude path =
    exclude_check fnmatch exclude (extract_basename path path_max)
    || exclude_check fnmatch exclude path

-- The directories above `dirpath`, from the nearest one on.
unfoldable pub is_parent_excluded : (List ℕ → List ℕ → Bool) → Strlist → ℕ → List ℕ → Bool
is_parent_excluded fnmatch exclude zero dirpath = false
is_parent_excluded fnmatch exclude (suc fuel) dirpath = elim (before_last_slash dirpath) [
  | none ↦ false
  | some parent ↦
      let later = is_parent_excluded fnmatch exclude fuel parent in
      if ltb 1 (length parent)
        && ltb 0 (length (extract_basename parent path_max))
        && matches fnmatch exclude parent
      then true
      else later
]

unfoldable pub is_filedir_excluded : (List ℕ → List ℕ → Bool) → Strlist → List ℕ → Bool
is_filedir_excluded fnmatch exclude relpath =
    matches fnmatch exclude relpath
    || is_parent_excluded fnmatch exclude (length (cut path_max relpath)) (cut path_max relpath)

module _ {S : Type 0} (os : Target S) where
  abbrev pub make_missing : S → List ℕ → S
  make_missing st buffer = if os.missing st buffer then os.mkdir st buffer else st

  unfoldable pub mkdir_parts : S → List ℕ → List ℕ → S
  mkdir_parts st front [] = make_missing st front
  mkdir_parts st front (c ∷ path) =
      mkdir_parts (if c == 47 then make_missing st front else st) (front ++ (c ∷ [])) path

  unfoldable pub mkdir_recursive : S → List ℕ → S
  mkdir_recursive st path = mkdir_parts st [] path

  -- The directory and its times; `junk` are those on the stack, which stay where it fails.
  unfoldable pub get_parent_dir_time_attrib : S → List ℕ → ℕ → ℕ × ℕ → ℤ × List ℕ × ℕ × ℕ
  get_parent_dir_time_attrib st filepath bufsize junk =
      let parentdir = extract_dirpath filepath bufsize in
      elim (os.dir_times st parentdir) [
        | none ↦ (minus_one, parentdir, junk.0, junk.1)
        | some (atime, mtime) ↦ (pos 0, parentdir, atime, mtime)
      ]

  -- The attributes from the key `i` on, `rounds` of them: whether one of them failed.
  unfoldable pub restore_pairs : S → ℕ → Dico → List ℕ → ℕ → ℕ → Bool × S
  restore_pairs st section d fullpath i zero = (false, st)
  restore_pairs st section d fullpath i (suc rounds) =
      let (res1, xattrname) = dico_get_string d section i 2048 in
      let (res2, xattrvalue, size) = dico_get_data d section (i + 1) (replicate 65535 0) 65535 in
      let (ok, st') = os.lsetxattr st fullpath (c_string xattrname) (take size xattrvalue) in
      let skips = is_error res1 || is_error res2 in
      let st1 : S = if skips then st else st' in
      let (failed, st2) = restore_pairs st1 section d fullpath (i + 2) rounds in
      (if skips || not ok then true else failed, st2)

  unfoldable pub extractar_restore_attr_xattr : S → List ℕ → Dico → ℤ × S
  extractar_restore_attr_xattr st fullpath d =
      let n = dico_count_one_section d section_xattr in
      let (failed, st') = restore_pairs st section_xattr d fullpath 0 ((n + 1) / 2) in
      (if failed then minus_one else pos 0, st')

  unfoldable pub extractar_restore_attr_windows : S → List ℕ → Dico → ℤ × S
  extractar_restore_attr_windows st fullpath d =
      let n = dico_count_one_section d section_winattr in
      let (failed, st') = restore_pairs st section_winattr d fullpath 0 ((n + 1) / 2) in
      (if failed then minus_one else pos 0, st')

  -- Owner, permissions and times, once they have all been read.
  unfoldable pub apply_attributes : S → ℕ → List ℕ → ℕ → ℕ → ℕ → ℕ × ℕ → ℤ × S
  apply_attributes st objtype fullpath mode uid gid times =
      let (owned, st1) = os.lchown st fullpath uid gid in
      let (allowed, st2) = os.chmod st1 fullpath mode in
      let (dated, st3) = os.set_times st2 fullpath times in
      if not owned
      then (negsuc 5, st1)
      else if objtype == objtype_symlink
      then (pos 0, os.link_times st1 fullpath times)
      else if not allowed
      then (negsuc 6, st2)
      else if not dated
      then (negsuc 7, st3)
      else (pos 0, st3)

  unfoldable pub extractar_restore_attr_std : S → Stack → ℕ → List ℕ → Dico → ℤ × S
  extractar_restore_attr_std st stack objtype fullpath d =
      let (r0, mode) = dico_get_u32 (stack 0) d section_stdattr diskitemkey_mode in
      let (r1, uid) = dico_get_u32 (stack 1) d section_stdattr diskitemkey_uid in
      let (r2, gid) = dico_get_u32 (stack 2) d section_stdattr diskitemkey_gid in
      let (r3, atime) = dico_get_u64 (stack 3) d section_stdattr diskitemkey_atime in
      let (r4, mtime) = dico_get_u64 (stack 4) d section_stdattr diskitemkey_mtime in
      if is_error r0
      then (negsuc 0, st)
      else if is_error r1
      then (negsuc 1, st)
      else if is_error r2
      then (negsuc 2, st)
      else if is_error r3
      then (negsuc 3, st)
      else if is_error r4
      then (negsuc 4, st)
      else apply_attributes st objtype fullpath mode uid gid (atime, mtime)

  -- The three results are zero or negative, so their sum is zero where all of them are.
  unfoldable pub extractar_restore_attr_everything : S → Stack → ℕ → List ℕ → Dico → ℤ × S
  extractar_restore_attr_everything st stack objtype fullpath d =
      let (r1, st1) = extractar_restore_attr_std st stack objtype fullpath d in
      let (r2, st2) = extractar_restore_attr_xattr st1 fullpath d in
      let (r3, st3) = extractar_restore_attr_windows st2 fullpath d in
      (if is_error r1 || is_error r2 || is_error r3 then minus_one else pos 0, st3)
