-- ===== src/Save/Files.antt =====
-- oper_save.c: a small file in a block that it shares, and createar_save_file, which saves one object.
use fsarchiver.Base.{
  ℕ, ◌+◌, ◌-◌, ◌%◌, ◌^◌, Bool, not, ◌&&◌, ◌||◌, Option, none, some, List, ◌++◌, ltb, ◌==◌,
  if◌then◌else◌, bytes_eq, length, replicate,
}
use fsarchiver.Base.Int.{ℤ, pos, is_error, minus_one}
use fsarchiver.Constants.{section_stdattr, magic_objt}
use fsarchiver.Keys.{
  objtype_dir, objtype_symlink, objtype_hardlink, objtype_regfileunique, objtype_regfilemulti,
  diskitemkey_md5sum,
}
use fsarchiver.Dico.{Memory, Dico, dico_alloc, dico_add_data}
use fsarchiver.Writebuf.{from_nth}
use fsarchiver.Dichl.{Dichl}
use fsarchiver.Queue.{Queue, queue_add_header}
use fsarchiver.Regmulti.{
  Regmulti, regmulti_empty, regmulti_save_enough_space_for_new_file, regmulti_save_enqueue,
  regmulti_save_addfile,
}
use fsarchiver.ArchReader.Blocks.{Stack}
use fsarchiver.Stats.{Stats}
use fsarchiver.Strlist.{Strlist}
use fsarchiver.Paths.{path_max, concatenate_paths}
use fsarchiver.Filesys.{FileSystem}
use fsarchiver.Source.{Source, Stat}
use fsarchiver.Target.{Digest}
use fsarchiver.Save.RegFile.{createar_obj_regfile_unique}
use fsarchiver.Save.Attributes.{createar_item_xattr, createar_item_winattr}
use fsarchiver.Save.Standard.{Attrs, createar_item_stdattr}

-- `struct s_savear`, with the file system that `fstype` is the index of, the path of the volume that
-- is being written, and the queue, which is global.
pub record Savear : Type 0 where
  pub volpath : List ℕ
  pub regmulti : Regmulti
  pub dichardlinks : Dichl
  pub stats : Stats
  pub fs : FileSystem
  pub fsid : ℕ
  pub objectid : ℕ
  pub cost_global : ℕ
  pub cost_current : ℕ
  pub queue : Queue

-- The options, the system that is read, and the stack where it is not initialised. `mem j` are the
-- allocations for the j-th object.
pub record Saver : Type 0 where
  pub src : Source
  pub digest : Digest
  pub interrupted : ℕ → Bool
  pub fnmatch : List ℕ → List ℕ → Bool
  pub exclude : Strlist
  pub smallfilethresh : ℕ
  pub datablocksize : ℕ
  pub allowsaverw : Bool
  pub stack : Stack

module _ (saver : Saver) where
  -- The bytes of a small file, filled up with zeros where it has been truncated: whether it was, and
  -- the bytes.
  unfoldable pub read_small : List ℕ → ℕ → Option (Bool × List ℕ)
  read_small fullpath filesize = elim (saver.src.read fullpath 0 filesize) [
    | none ↦ none
    | some bytes ↦
        some (not (length bytes == filesize), bytes ++ replicate (filesize - length bytes) 0)
  ]

  -- The file is put in the block, which is queued before that if there is no room in it.
  unfoldable pub add_small : Memory → Savear → Dico → List ℕ → ℕ → ℤ → Option (ℤ × Savear)
  add_small mem save d databuf filesize ret =
      let add : Savear → Option (ℤ × Savear) = λ s.
        elim (regmulti_save_addfile s.regmulti d databuf filesize) [
          | none ↦ none
          | some (res, m) ↦
              some (if is_error res then minus_one else ret, record s { regmulti = m })
        ] in
      if regmulti_save_enough_space_for_new_file save.regmulti filesize
      then add save
      else elim (regmulti_save_enqueue saver.stack mem save.regmulti save.queue save.fsid) [
        | none ↦ none
        | some (res, q) ↦
            if is_error res
            then some (minus_one, record save { queue = q })
            else add (record save { queue = q; regmulti = (regmulti_empty save.regmulti).1 })
      ]

  unfoldable pub createar_obj_regfile_multi :
      Memory → Savear → Dico → List ℕ → ℕ → Option (ℤ × Savear)
  createar_obj_regfile_multi mem save d fullpath filesize =
      if not (saver.src.opens fullpath)
      then some (minus_one, save)
      else elim (read_small fullpath filesize) [
        | none ↦ some (minus_one, save)
        | some (short, databuf) ↦
            let d1 =
              (dico_add_data mem d section_stdattr diskitemkey_md5sum (saver.digest.md5 databuf)
                16).1 in
            add_small (from_nth 2 mem) save d1 databuf filesize (if short then minus_one else pos 0)
      ]

  abbrev pub inc : ℕ → ℕ
  inc n = (n + 1) % 2 ^ 64

  -- The counters of the kind of object: as an error, and as a success.
  unfoldable pub stats_error : ℕ → Stats → Stats
  stats_error objtype s =
      if objtype == objtype_dir
      then record s { err_dir = inc s.err_dir }
      else if objtype == objtype_symlink
      then record s { err_symlink = inc s.err_symlink }
      else if objtype == objtype_hardlink
      then record s { err_hardlink = inc s.err_hardlink }
      else if (objtype == objtype_regfileunique) || (objtype == objtype_regfilemulti)
      then record s { err_regfile = inc s.err_regfile }
      else record s { err_special = inc s.err_special }

  unfoldable pub stats_success : ℕ → Stats → Stats
  stats_success objtype s =
      if objtype == objtype_dir
      then record s { cnt_dir = inc s.cnt_dir }
      else if objtype == objtype_symlink
      then record s { cnt_symlink = inc s.cnt_symlink }
      else if objtype == objtype_hardlink
      then record s { cnt_hardlink = inc s.cnt_hardlink }
      else if (objtype == objtype_regfileunique) || (objtype == objtype_regfilemulti)
      then record s { cnt_regfile = inc s.cnt_regfile }
      else record s { cnt_special = inc s.cnt_special }

  abbrev pub is_known : ℕ → Bool
  is_known objtype = ltb 0 objtype && ltb objtype 10

  abbrev pub count_error : ℕ → Savear → Savear
  count_error objtype save = record save { stats = stats_error objtype save.stats }

  abbrev pub count_success : ℕ → Savear → Savear
  count_success objtype save = record save { stats = stats_success objtype save.stats }

  -- What is queued for the object, by its type.
  unfoldable pub send_object : Memory → Savear → Attrs → List ℕ → Stat → Option (ℤ × Savear)
  send_object mem save a fullpath s =
      if a.objtype == objtype_regfileunique
      then elim (createar_obj_regfile_unique saver.src saver.interrupted fullpath s.size
          saver.datablocksize save.fsid saver.digest mem a.dico save.queue) [
            | none ↦ none
            | some (res, q) ↦
                let sent : Savear = record save { queue = q } in
                some (
                  pos 0,
                  if is_error res then count_error a.objtype sent else count_success a.objtype sent,
                )
          ]
      else if a.objtype == objtype_regfilemulti
      then elim (createar_obj_regfile_multi mem save a.dico fullpath s.size) [
        | none ↦ none
        | some (res, sent) ↦ some (
          pos 0,
          if is_error res then count_error a.objtype sent else count_success a.objtype sent,
        )
      ]
      else elim (queue_add_header mem save.queue a.dico magic_objt save.fsid) [
        | none ↦ none
        | some (res, q) ↦
            let sent : Savear = record save { queue = q } in
            if is_error res
            then some (minus_one, sent)
            else some (pos 0, count_success a.objtype sent)
      ]

  -- The attributes that the file system has besides the standard ones: whether there was an error.
  unfoldable pub add_others : Memory → Savear → List ℕ → List ℕ → Bool → Dico → Bool × Dico
  add_others mem save fullpath relpath failed d =
      let (res1, d1) = createar_item_xattr saver.src mem fullpath d in
      let xattr = save.fs.support_for_xattr in
      let d2 : Dico = if xattr then d1 else d in
      let (res3, d3) = createar_item_winattr saver.src mem relpath fullpath d2 in
      let winattr = save.fs.winattr in
      (failed || (xattr && is_error res1) || (winattr && is_error res3), if winattr then d3 else d2)

  -- The object itself, once its standard attributes have been taken. The progress bar's cost counts
  -- while there is no signal.
  unfoldable pub save_object :
      Memory → Savear → List ℕ → List ℕ → Stat → Bool → Attrs → Option (ℤ × Savear)
  save_object mem save fullpath relpath s failed a =
      let (attrerrors, d) = add_others (from_nth 24 mem) save fullpath relpath failed a.dico in
      let save1 : Savear =
        if ltb 0 save.cost_global && not (saver.interrupted 0)
        then record save { cost_current = (save.cost_current + a.filecost) % 2 ^ 64 }
        else save in
      if not (is_known a.objtype)
      then some (minus_one, save1)
      else if attrerrors
      then some (pos 0, count_error a.objtype save1)
      else send_object (from_nth 64 mem) save1 (record a { dico = d }) fullpath s

  -- With `costeval` the cost of the object is added to what is there, and nothing is saved. The result
  -- is followed by this cost.
  unfoldable pub createar_save_file :
      Memory → Savear → List ℕ → List ℕ → Stat → Option ℕ → Option (ℤ × Option ℕ × Savear)
  createar_save_file mem save root relpath s costeval =
      elim (concatenate_paths path_max root relpath) [
        | none ↦ none
        | some fullpath ↦
            let stats = save.stats in
            if bytes_eq fullpath save.volpath
            then some (
              pos 0,
              costeval,
              record save { stats = record stats { err_regfile = inc stats.err_regfile } },
            )
            else if not (mem 0)
            then some (minus_one, costeval, save)
            else elim (createar_item_stdattr saver.src (from_nth 1 mem) save.fs.savesymtargettype
                saver.smallfilethresh save.objectid fullpath relpath s dico_alloc
                save.dichardlinks) [
                  | none ↦ none
                  | some (res, a) ↦
                      let save1 : Savear = record save {
                        objectid = inc save.objectid;
                        dichardlinks = a.dichardlinks;
                      } in
                      elim costeval [
                        | some cost ↦ some (pos 0, some ((cost + a.filecost) % 2 ^ 64), save1)
                        | none ↦ elim (save_object mem save1 fullpath relpath s (is_error res) a) [
                          | none ↦ none
                          | some (res2, save2) ↦ some (res2, none, save2)
                        ]
                      ]
                ]
      ]
