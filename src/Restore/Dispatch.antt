-- ===== src/Restore/Dispatch.antt =====
-- oper_restore.c, extractar_restore_object and extractar_extract_read_objects: one object after the
-- other is taken from the queue and recreated.
use fsarchiver.Base.{
  ℕ, zero, suc, ◌+◌, Bool, true, false, not, ◌||◌, Option, none, some, List, ◌==◌, if◌then◌else◌,
  bytes_eq, length, take,
}
use fsarchiver.Base.Int.{ℤ, pos, negsuc, is_error, minus_one}
use fsarchiver.Base.Loop.{Loop, finished, waits, stuck}
use fsarchiver.Constants.{section_stdattr, diskitemkey_size, magic_objt, magic_datf}
use fsarchiver.Keys.{
  diskitemkey_path, diskitemkey_objtype, objtype_dir, objtype_symlink, objtype_hardlink,
  objtype_chardev, objtype_blockdev, objtype_fifo, objtype_socket, objtype_regfileunique,
  objtype_regfilemulti,
}
use fsarchiver.Dico.{Dico, dico_get_u32, dico_get_u64, dico_get_data}
use fsarchiver.Queue.{Queue}
use fsarchiver.Queue.Removal.{queue_check_next_item, queue_destroy_first_item, queue_dequeue_header}
use fsarchiver.Paths.{path_max, concatenate_paths}
use fsarchiver.Regmulti.{Regmulti}
use fsarchiver.Restore.Attributes.{c_string}
use fsarchiver.Restore.RegFile.{Extractar, Host, extractar_restore_obj_regfile_unique}
use fsarchiver.Restore.Objects.{
  extractar_restore_obj_directory, extractar_restore_obj_symlink, extractar_restore_obj_hardlink,
  extractar_restore_obj_devfile,
}
use fsarchiver.Restore.SmallFiles.{extractar_restore_obj_regfile_multi}

-- What does not change while a file system is restored: its destination, whether it is ntfs, and the
-- buffers on the stack for small files.
pub record Place : Type 0 where
  pub destdir : List ℕ
  pub is_ntfs : Bool
  pub databuf : List ℕ
  pub regmulti : Regmulti

module _ {S : Type 0} (host : Host S) (place : Place) where
  abbrev pub Outcome : Type 0
  Outcome = ℤ × Extractar × Queue × S

  -- A link, a directory or a special file takes nothing from the queue.
  abbrev pub simple : Queue → Option (Extractar × S) → Loop Outcome
  simple q none = waits
  simple q (some (exar, st)) = finished (pos 0, exar, q, st)

  abbrev pub from_option : Option Outcome → Loop Outcome
  from_option none = waits
  from_option (some r) = finished r

  abbrev pub is_special : ℕ → Bool
  is_special objtype =
      (objtype == objtype_chardev)
      || (objtype == objtype_blockdev)
      || (objtype == objtype_fifo)
      || (objtype == objtype_socket)

  unfoldable pub restore_by_type : Extractar → S → List ℕ → List ℕ → Dico → ℕ → Queue → Loop Outcome
  restore_by_type exar st fullpath relpath d objtype q =
      if objtype == objtype_dir
      then simple q (extractar_restore_obj_directory host exar st fullpath relpath d objtype)
      else if objtype == objtype_symlink
      then simple q
          (extractar_restore_obj_symlink host exar st fullpath relpath d objtype place.is_ntfs)
      else if objtype == objtype_hardlink
      then simple q
          (extractar_restore_obj_hardlink host exar st fullpath relpath place.destdir d objtype)
      else if is_special objtype
      then simple q (extractar_restore_obj_devfile host exar st fullpath relpath d objtype)
      else if objtype == objtype_regfileunique
      then extractar_restore_obj_regfile_unique host exar st fullpath relpath d objtype q
      else if objtype == objtype_regfilemulti
      then from_option (
          extractar_restore_obj_regfile_multi host exar st place.destdir d objtype place.databuf
            place.regmulti q)
      else finished (negsuc 2, exar, q, st)

  -- Every error of the dispatch is fatal for the restoration.
  unfoldable pub extractar_restore_object : Extractar → S → Dico → Queue → Loop Outcome
  extractar_restore_object exar st d q =
      let (res1, path, size) =
        dico_get_data d section_stdattr diskitemkey_path host.junk_path path_max in
      let (res2, objtype) = dico_get_u32 (host.stack 7) d section_stdattr diskitemkey_objtype in
      let (res3, filesize) = dico_get_u64 (host.stack 8) d section_stdattr diskitemkey_size in
      let relpath = c_string path in
      if is_error res1
      then finished (negsuc 0, exar, q, st)
      else if is_error res2
      then finished (negsuc 1, exar, q, st)
      else if is_error res3
      then finished (negsuc 2, exar, q, st)
      else elim (concatenate_paths path_max place.destdir relpath) [
        | none ↦ waits
        | some fullpath ↦ restore_by_type exar st fullpath relpath d objtype q
      ]

  -- Whatever stands in front of the next object header, or of the end of the data, is removed. The
  -- result says whether an object header is first.
  unfoldable pub skip_garbage : ℕ → Queue → Loop (ℤ × Bool × Queue)
  skip_garbage zero q = stuck
  skip_garbage (suc fuel) q = elim (queue_check_next_item q) [
    | none ↦ waits
    | some (res, type, magic) ↦
        let headerisobj = bytes_eq (take 4 magic) magic_objt in
        let headerisend = bytes_eq (take 4 magic) magic_datf in
        if is_error res
        then finished (minus_one, false, q)
        else if headerisobj || headerisend
        then finished (pos 0, headerisobj, q)
        else elim (queue_destroy_first_item q) [
          | none ↦ waits
          | some (res2, q') ↦ elim (is_error res2) [
            | true ↦ finished (minus_one, false, q')
            | false ↦ skip_garbage fuel q'
          ]
        ]
  ]

  -- The object that is first: it is recreated if it is of this file system. The count of errors is
  -- that of the objects of another one.
  unfoldable pub restore_next : Extractar → S → ℕ → Queue → Loop (ℤ × ℕ × Extractar × Queue × S)
  restore_next exar st errors q = elim (queue_dequeue_header q) [
    | none ↦ waits
    | some (lres, none, q') ↦ waits
    | some (lres, some (d, magic, checkfsid), q') ↦
        if not (checkfsid == exar.fsid)
        then finished (pos 0, errors + 1, exar, q', st)
        else elim (extractar_restore_object exar st d q') [
          | stuck ↦ stuck
          | waits ↦ waits
          | finished (res, exar', q'', st') ↦
              finished (if is_error res then minus_one else pos 0, errors, exar', q'', st')
        ]
  ]

  -- `aborted k` is the k-th look at the user's wish to stop, behind the k-th round.
  unfoldable pub extractar_extract_read_objects :
      (ℕ → Bool) → ℕ → Extractar → S → ℕ → Queue → Loop (ℤ × ℕ × Extractar × Queue × S)
  extractar_extract_read_objects aborted zero exar st errors q = stuck
  extractar_extract_read_objects aborted (suc fuel) exar st errors q =
      elim (skip_garbage (length q.items + 1) q) [
        | stuck ↦ stuck
        | waits ↦ waits
        | finished (res, isobj, q1) ↦
            if is_error res
            then finished (minus_one, errors, exar, q1, st)
            else if not isobj
            then finished (pos 0, errors, exar, q1, st)
            else elim (restore_next exar st errors q1) [
              | stuck ↦ stuck
              | waits ↦ waits
              | finished (res2, errors', exar', q2, st') ↦ elim (is_error res2 || aborted fuel) [
                | true ↦
                    finished (if is_error res2 then minus_one else pos 0, errors', exar', q2, st')
                | false ↦ extractar_extract_read_objects aborted fuel exar' st' errors' q2
              ]
            ]
      ]
