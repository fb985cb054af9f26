-- ===== src/Restore/SmallFiles.antt =====
-- oper_restore.c, extractar_restore_obj_regfile_multi: the small files that share a block.
use fsarchiver.Base.{
  ℕ, zero, suc, ◌+◌, ◌-◌, Bool, true, false, not, Option, none, some, List, if◌then◌else◌, bytes_eq,
  length, take,
}
use fsarchiver.Base.Int.{ℤ, pos, is_error, minus_one}
use fsarchiver.Constants.{section_stdattr, diskitemkey_multifilescount, magic_objt, max_blksize}
use fsarchiver.Keys.{diskitemkey_objtype, diskitemkey_path, diskitemkey_md5sum}
use fsarchiver.Dico.{Dico, dico_get_u32, dico_get_data}
use fsarchiver.Queue.{Queue}
use fsarchiver.Queue.Removal.{queue_dequeue_block, queue_dequeue_header}
use fsarchiver.Paths.{path_max, concatenate_paths}
use fsarchiver.Regmulti.{
  Regmulti, regmulti_init, regmulti_rest_addheader, regmulti_rest_setdatablock,
  regmulti_rest_getfile,
}
use fsarchiver.DataFile.{
  Datafile, datafile_alloc, datafile_open_write, datafile_write, datafile_close,
}
use fsarchiver.Restore.Attributes.{c_string, is_filedir_excluded}
use fsarchiver.Restore.RegFile.{Extractar, Host, add_cost, inc_u64}
use fsarchiver.Restore.Objects.{prepare_parent, finish_object}

-- The headers of the other files of the group; none is a wait.
unfoldable pub dequeue_headers : ℕ → Regmulti → Queue → Option (ℤ × Regmulti × Queue)
dequeue_headers zero m q = some (pos 0, m, q)
dequeue_headers (suc left) m q = elim (queue_dequeue_header q) [
  | none ↦ none
  | some (lres, none, q') ↦ some (minus_one, m, q')
  | some (lres, some (filehead, magic, _), q') ↦
      let (res, m') = regmulti_rest_addheader m filehead in
      let later = dequeue_headers left m' q' in
      if not (bytes_eq (take 4 magic) magic_objt)
      then some (minus_one, m, q')
      else if is_error res
      then some (minus_one, m', q')
      else later
]

-- The state between two files: `fatal` is that the function was left.
pub record Multi (S : Type 0) : Type 0 where
  pub exar : Extractar
  pub st : S
  pub file : Datafile
  pub fatal : Bool

module _ {S : Type 0} (host : Host S) where
  abbrev pub file_error : Multi S → Multi S
  file_error s =
      let exar = s.exar in
      let stats = exar.stats in
      record s {
        exar = record exar { stats = record stats { err_regfile = inc_u64 stats.err_regfile } };
      }

  abbrev pub file_success : Multi S → Multi S
  file_success s =
      let exar = s.exar in
      let stats = exar.stats in
      record s {
        exar = record exar { stats = record stats { cnt_regfile = inc_u64 stats.cnt_regfile } };
      }

  -- The digest that the header has is compared with that of the bytes that were written.
  unfoldable pub check_and_finish :
      Multi S → ℕ → List ℕ → Dico → List ℕ → ℕ × ℕ → List ℕ → List ℕ → Multi S
  check_and_finish s objtype fullpath filehead parentdir times md5sumcalc md5sumorig =
      let (ok, st2) = finish_object host s.st objtype fullpath filehead parentdir times in
      if not (bytes_eq (take 16 md5sumcalc) (take 16 md5sumorig))
      then file_error (record s { st = (host.os.ftruncate s.st fullpath 0).1 })
      else if ok
      then file_success (record s { st = st2 })
      else file_error (record s { st = st2 })

  -- A file that is not excluded.
  unfoldable pub write_small : Multi S → ℕ → List ℕ → Dico → List ℕ → Multi S
  write_small s objtype fullpath filehead bytes =
      let (st1, parentdir, atime, mtime) = prepare_parent host s.st fullpath in
      let (res, md5sumorig, size) =
        dico_get_data filehead section_stdattr diskitemkey_md5sum host.junk_digest 16 in
      let (opened, f1, st2) =
        datafile_open_write host.os host.digest st1 s.file fullpath false false in
      let (written, f2, st3) = datafile_write host.os host.digest st2 f1 bytes in
      let (closed, md5, f3, st4) = datafile_close host.os host.digest st3 f2 in
      let md5sumcalc = if f3.is_open then host.junk_digest else md5 in
      if is_error res
      then file_error (record s { st = st1 })
      else if is_error opened
      then file_error (record s { st = st2; file = f1 })
      else if is_error written
      then record s { st = host.os.unlink st4 fullpath; file = f3; fatal = true }
      else check_and_finish (record s { st = st4; file = f3 }) objtype fullpath filehead parentdir
          (atime, mtime) md5sumcalc md5sumorig

  -- The i-th file of the group; none is a fault.
  unfoldable pub restore_small : List ℕ → ℕ → Regmulti → List ℕ → ℕ → Multi S → Option (Multi S)
  restore_small destdir objtype m databuf i s =
      elim (regmulti_rest_getfile host.stack m i databuf (length databuf)) [
        | none ↦ none
        | some (res, none, buf, datsize) ↦ some (file_error s)
        | some (res, some filehead, buf, none) ↦ some (file_error s)
        | some (res, some filehead, buf, some datsize) ↦
            let (res1, tmpobjtype) =
              dico_get_u32 (host.stack 2) filehead section_stdattr diskitemkey_objtype in
            let (res2, path, size) =
              dico_get_data filehead section_stdattr diskitemkey_path host.junk_path path_max in
            let relpath = c_string path in
            let s1 : Multi S = record s { exar = add_cost s.exar datsize } in
            if is_error res1
            then some (file_error s)
            else if is_error res2
            then some (file_error s)
            else elim (concatenate_paths path_max destdir relpath) [
              | none ↦ none
              | some fullpath ↦
                  if is_filedir_excluded host.fnmatch host.exclude relpath
                  then some s1
                  else some (write_small s1 objtype fullpath filehead (take datsize buf))
            ]
      ]

  unfoldable pub restore_smalls :
      List ℕ → ℕ → Regmulti → List ℕ → ℕ → ℕ → Multi S → Option (Multi S)
  restore_smalls destdir objtype m databuf i zero s = some s
  restore_smalls destdir objtype m databuf i (suc left) s =
      elim (restore_small destdir objtype m databuf i s) [
        | none ↦ none
        | some s' ↦ elim s'.fatal [
          | true ↦ some s'
          | false ↦ restore_smalls destdir objtype m databuf (i + 1) left s'
        ]
      ]

  -- What follows the headers: the block, and the files. `regmulti` is the structure on the stack.
  unfoldable pub restore_group :
      Extractar
      → S
      → List ℕ
      → ℕ
      → ℕ
      → List ℕ
      → Regmulti
      → Queue
      → Option (ℤ × Extractar × Queue × S)
  restore_group exar st destdir objtype filescount databuf m q = elim (queue_dequeue_block q) [
    | none ↦ none
    | some (lres, none, q') ↦ some (minus_one, exar, q', st)
    | some (lres, some b, q') ↦ elim (regmulti_rest_setdatablock m b.blkdata b.blkrealsize) [
      | none ↦ none
      | some (res, m') ↦
          let start : Multi S = record {
            exar = exar;
            st = st;
            file = datafile_alloc;
            fatal = false;
          } in
          if is_error res
          then some (minus_one, exar, q', st)
          else elim (restore_smalls destdir objtype m' databuf 0 filescount start) [
            | none ↦ none
            | some s ↦ some (if s.fatal then minus_one else pos 0, s.exar, q', s.st)
          ]
    ]
  ]

  unfoldable pub extractar_restore_obj_regfile_multi :
      Extractar
      → S
      → List ℕ
      → Dico
      → ℕ
      → List ℕ
      → Regmulti
      → Queue
      → Option (ℤ × Extractar × Queue × S)
  extractar_restore_obj_regfile_multi exar st destdir dicofirstfile objtype databuf regmulti q =
      let m0 = (regmulti_init regmulti max_blksize).1 in
      let (res, filescount) =
        dico_get_u32 (host.stack 0) dicofirstfile section_stdattr diskitemkey_multifilescount in
      let (res2, m) = regmulti_rest_addheader m0 dicofirstfile in
      if is_error res
      then some (minus_one, exar, q, st)
      else if is_error res2
      then some (minus_one, exar, q, st)
      else elim (dequeue_headers (filescount - 1) m q) [
        | none ↦ none
        | some (res3, m', q') ↦
            if is_error res3
            then some (minus_one, exar, q', st)
            else restore_group exar st destdir objtype filescount databuf m' q'
      ]
