-- ===== src/Restore/Objects.antt =====
-- oper_restore.c: directories, links and special files.
use fsarchiver.Base.{
  ℕ, ◌+◌, Bool, true, false, not, ◌&&◌, Option, none, some, List, ◌==◌, if◌then◌else◌,
}
use fsarchiver.Base.Int.{is_error}
use fsarchiver.Constants.{section_stdattr}
use fsarchiver.Keys.{
  diskitemkey_symlink, diskitemkey_hardlink, diskitemkey_rdev, diskitemkey_mode,
  diskitemkey_linktargettype, objtype_dir, objtype_regfileunique,
}
use fsarchiver.Dico.{Dico, dico_get_u32, dico_get_u64, dico_get_string}
use fsarchiver.Stats.{Stats}
use fsarchiver.Paths.{path_max, concatenate_paths}
use fsarchiver.Restore.Attributes.{
  c_string, is_filedir_excluded, mkdir_recursive, get_parent_dir_time_attrib,
  extractar_restore_attr_everything,
}
use fsarchiver.Restore.RegFile.{Extractar, Host, add_cost, inc_u64}

-- The counters of the four kinds of objects.
pub data Counter : Type 0 where
  dir symlink hardlink special : Counter

unfoldable pub count : Counter → Bool → Stats → Stats
count dir true s = record s { cnt_dir = inc_u64 s.cnt_dir }
count dir false s = record s { err_dir = inc_u64 s.err_dir }
count symlink true s = record s { cnt_symlink = inc_u64 s.cnt_symlink }
count symlink false s = record s { err_symlink = inc_u64 s.err_symlink }
count hardlink true s = record s { cnt_hardlink = inc_u64 s.cnt_hardlink }
count hardlink false s = record s { err_hardlink = inc_u64 s.err_hardlink }
count special true s = record s { cnt_special = inc_u64 s.cnt_special }
count special false s = record s { err_special = inc_u64 s.err_special }

module _ {S : Type 0} (host : Host S) where
  -- The parent directory is made, and its path and its times are taken.
  unfoldable pub prepare_parent : S → List ℕ → S × List ℕ × ℕ × ℕ
  prepare_parent st fullpath =
      let st1 =
        mkdir_recursive host.os st
          (get_parent_dir_time_attrib host.os st fullpath path_max host.junk_times).1 in
      let (res, parentdir, atime, mtime) =
        get_parent_dir_time_attrib host.os st1 fullpath path_max host.junk_times in
      (st1, parentdir, atime, mtime)

  -- The attributes of the new object, and the times of its directory.
  unfoldable pub finish_object : S → ℕ → List ℕ → Dico → List ℕ → ℕ × ℕ → Bool × S
  finish_object st objtype fullpath d parentdir times =
      let (res, st1) =
        extractar_restore_attr_everything host.os st (λ i. host.stack (2 + i)) objtype fullpath d in
      let (dated, st2) = host.os.set_times st1 parentdir times in
      if is_error res then (false, st1) else (dated, st2)

  -- The common course of the functions below, with what makes the object, `make`: whether that
  -- worked, and the state; none is a fault. The result of each function is zero, also where the object
  -- is in error.
  unfoldable pub restore_obj :
      (S → Option (Bool × S))
      → Counter
      → Extractar
      → S
      → List ℕ
      → List ℕ
      → Dico
      → ℕ
      → Option (Extractar × S)
  restore_obj make counter exar st fullpath relpath d objtype =
      let (st1, parentdir, atime, mtime) = prepare_parent st fullpath in
      let exar1 = add_cost exar 0 in
      let ended : Bool → Extractar = λ b. record exar1 { stats = count counter b exar.stats } in
      if is_filedir_excluded host.fnmatch host.exclude relpath
      then some (ended false, st)
      else elim (make st1) [
        | none ↦ none
        | some (made, st2) ↦
            let (ok, st3) = finish_object st2 objtype fullpath d parentdir (atime, mtime) in
            if made then some (ended ok, st3) else some (ended false, st2)
      ]

  -- A link of an ntfs file system is made as what it points to.
  unfoldable pub make_symlink : Dico → List ℕ → Bool → S → Bool × S
  make_symlink d fullpath is_ntfs st =
      let (res, buffer) = dico_get_string d section_stdattr diskitemkey_symlink path_max in
      let (res2, targettype) =
        dico_get_u64 (host.stack 0) d section_stdattr diskitemkey_linktargettype in
      let (created, st1) = host.os.creat st fullpath in
      if is_error res
      then (false, st)
      else if not (is_error res2) && is_ntfs
      then (if targettype == objtype_dir
          then (true, mkdir_recursive host.os st fullpath)
          else if targettype == objtype_regfileunique
          then (if created then (true, (host.os.close st1 fullpath).1) else (false, st1))
          else (false, st))
      else host.os.symlink st (c_string buffer) fullpath

  unfoldable pub extractar_restore_obj_symlink :
      Extractar → S → List ℕ → List ℕ → Dico → ℕ → Bool → Option (Extractar × S)
  extractar_restore_obj_symlink exar st fullpath relpath d objtype is_ntfs =
      restore_obj (λ st1. some (make_symlink d fullpath is_ntfs st1)) symlink exar st fullpath
        relpath d objtype

  unfoldable pub make_hardlink : Dico → List ℕ → List ℕ → S → Option (Bool × S)
  make_hardlink d fullpath destdir st =
      let (res, buffer) = dico_get_string d section_stdattr diskitemkey_hardlink path_max in
      if is_error res
      then some (false, st)
      else elim (concatenate_paths path_max destdir (c_string buffer)) [
        | none ↦ none
        | some regfile ↦ some (host.os.link st regfile fullpath)
      ]

  unfoldable pub extractar_restore_obj_hardlink :
      Extractar → S → List ℕ → List ℕ → List ℕ → Dico → ℕ → Option (Extractar × S)
  extractar_restore_obj_hardlink exar st fullpath relpath destdir d objtype =
      restore_obj (make_hardlink d fullpath destdir) hardlink exar st fullpath relpath d objtype

  unfoldable pub make_devfile : Dico → List ℕ → S → Bool × S
  make_devfile d fullpath st =
      let (res, dev) = dico_get_u64 (host.stack 0) d section_stdattr diskitemkey_rdev in
      let (res2, mode) = dico_get_u32 (host.stack 1) d section_stdattr diskitemkey_mode in
      if is_error res
      then (false, st)
      else if is_error res2
      then (false, st)
      else host.os.mknod st fullpath mode dev

  unfoldable pub extractar_restore_obj_devfile :
      Extractar → S → List ℕ → List ℕ → Dico → ℕ → Option (Extractar × S)
  extractar_restore_obj_devfile exar st fullpath relpath d objtype =
      restore_obj (λ st1. some (make_devfile d fullpath st1)) special exar st fullpath relpath d
        objtype

  unfoldable pub extractar_restore_obj_directory :
      Extractar → S → List ℕ → List ℕ → Dico → ℕ → Option (Extractar × S)
  extractar_restore_obj_directory exar st fullpath relpath d objtype =
      restore_obj (λ st1. some (true, mkdir_recursive host.os st1 fullpath)) dir exar st fullpath
        relpath d objtype
