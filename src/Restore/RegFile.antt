-- ===== src/Restore/RegFile.antt =====
-- oper_restore.c, extractar_restore_obj_regfile_unique: the contents of a large or empty file.
use fsarchiver.Base.{
  ℕ, zero, suc, ◌+◌, ◌%◌, ◌^◌, Bool, true, false, not, ◌&&◌, ◌||◌, none, some, List, ltb, ◌==◌,
  if◌then◌else◌, bytes_eq, length, take,
}
use fsarchiver.Base.Int.{ℤ, pos, is_error, minus_one}
use fsarchiver.Base.Loop.{Loop, finished, waits, stuck}
use fsarchiver.Dico.{Dico, dico_get_u64, dico_get_data}
use fsarchiver.ArchReader.Blocks.{Stack}
use fsarchiver.Block.{BlockInfo}
use fsarchiver.Constants.{section_stdattr, diskitemkey_size, magic_filf}
use fsarchiver.Keys.{diskitemkey_flags, cost_per_file, blockfoot_md5sum}
use fsarchiver.Queue.{Queue}
use fsarchiver.Queue.Removal.{queue_dequeue_block, queue_dequeue_header}
use fsarchiver.Stats.{Stats}
use fsarchiver.Strlist.{Strlist}
use fsarchiver.Paths.{path_max}
use fsarchiver.Target.{Target, Digest}
use fsarchiver.DataFile.{
  Datafile, datafile_alloc, datafile_open_write, datafile_write, datafile_close,
}
use fsarchiver.Restore.Attributes.{
  is_filedir_excluded, mkdir_recursive, get_parent_dir_time_attrib,
  extractar_restore_attr_everything,
}

-- `struct s_extractar`, without the reader that its thread works with.
pub record Extractar : Type 0 where
  pub fsid : ℕ
  pub stats : Stats
  pub cost_global : ℕ
  pub cost_current : ℕ

-- What the functions are given: the file system, the digest, the patterns that exclude, the k-th look
-- at the flag of the signals, and what is on the stack where a local variable is not initialised.
pub record Host (S : Type 0) : Type 0 where
  pub os : Target S
  pub digest : Digest
  pub fnmatch : List ℕ → List ℕ → Bool
  pub exclude : Strlist
  pub interrupted : ℕ → Bool
  pub stack : Stack
  pub junk_times : ℕ × ℕ
  pub junk_digest : List ℕ
  pub junk_path : List ℕ

abbrev pub add_cost : Extractar → ℕ → Extractar
add_cost exar cost = record exar {
  cost_current = (exar.cost_current + cost_per_file + cost) % 2 ^ 64;
}

-- The local variables of the function.
pub record Local (S : Type 0) : Type 0 where
  pub minorerr : Bool
  pub fatalerr : Bool
  pub delfile : Bool
  pub file : Datafile
  pub st : S
  pub queue : Queue
  pub checks : ℕ

abbrev pub inc_u64 : ℕ → ℕ
inc_u64 n = (n + 1) % 2 ^ 64

module _ {S : Type 0} (host : Host S) where
  -- The block that came from the queue, in a round at `filepos`: whether the loop goes on.
  unfoldable pub write_block : Local S → ℕ → BlockInfo → Queue → Bool × Local S
  write_block s filepos b q' =
      let (res, f', st') =
        datafile_write host.os host.digest s.st s.file (take b.blkrealsize b.blkdata) in
      if not (b.blkoffset == filepos)
      then (false, record s { minorerr = true; delfile = true; queue = q'; checks = s.checks + 1 })
      else if is_error res
      then (
        false,
        record s {
          minorerr = true;
          fatalerr = true;
          delfile = true;
          file = f';
          st = st';
          queue = q';
          checks = s.checks + 1;
        },
      )
      else (true, record s { file = f'; st = st'; queue = q'; checks = s.checks + 1 })

  -- The loop. A block that is shorter than it says would be read past its end where it is written,
  -- which it is only at its place in the file.
  unfoldable pub restore_blocks : ℕ → ℕ → ℕ → Local S → Loop (Local S)
  restore_blocks zero filesize filepos s = stuck
  restore_blocks (suc fuel) filesize filepos s =
      if s.minorerr || not (ltb filepos filesize)
      then finished s
      else if host.interrupted s.checks
      then finished (record s { checks = s.checks + 1 })
      else elim (queue_dequeue_block s.queue) [
        | none ↦ waits
        | some (lres, none, q') ↦
            finished
              (record s { minorerr = true; delfile = true; queue = q'; checks = s.checks + 1 })
        | some (lres, some b, q') ↦
            let (goes_on, s') = write_block s filepos b q' in
            elim ((b.blkoffset == filepos) && ltb (length b.blkdata) b.blkrealsize) [
              | true ↦ waits
              | false ↦ elim goes_on [
                | false ↦ finished s'
                | true ↦ restore_blocks fuel filesize (filepos + b.blkrealsize) s'
              ]
            ]
      ]

  -- The footer: whether the file is in error, and whether it is removed.
  unfoldable pub check_footer : Bool → List ℕ → Dico → List ℕ → Bool × Bool
  check_footer excluded md5sumcalc footer magic =
      let (res, md5sumorig, size) = dico_get_data footer 0 blockfoot_md5sum host.junk_digest 16 in
      if excluded
      then (false, false)
      else if not (bytes_eq (take 4 magic) magic_filf)
      then (true, false)
      else if is_error res
      then (true, false)
      else if not (bytes_eq (take 16 md5sumcalc) (take 16 md5sumorig))
      then (true, true)
      else (false, false)

  -- What follows the footer: the file is removed or not, and counted; it is closed at last.
  unfoldable pub finish_regfile : Extractar → List ℕ → Bool → Local S → ℤ × Extractar × Queue × S
  finish_regfile exar fullpath excluded s =
      let st1 : S = if s.delfile then host.os.unlink s.st fullpath else s.st in
      let (_, _, _, st2) = datafile_close host.os host.digest st1 s.file in
      let stats' : Stats =
        if excluded
        then exar.stats
        else if s.minorerr
        then record exar.stats { err_regfile = inc_u64 exar.stats.err_regfile }
        else record exar.stats { cnt_regfile = inc_u64 exar.stats.cnt_regfile } in
      (
        if s.fatalerr then minus_one else pos 0,
        record exar { stats = stats' },
        s.queue,
        if s.file.is_open then st2 else st1,
      )

  -- The file is closed, and then gets its attributes, as does its directory.
  unfoldable pub close_and_restore :
      Local S → List ℕ → Dico → ℕ → Bool → List ℕ → ℕ × ℕ → List ℕ × Local S
  close_and_restore s fullpath d objtype excluded parentdir times =
      let (res, md5sumcalc, f', st1) = datafile_close host.os host.digest s.st s.file in
      let (res2, st2) =
        extractar_restore_attr_everything host.os st1 (λ i. host.stack (2 + i)) objtype fullpath
          d in
      let (dated, st3) = host.os.set_times st2 parentdir times in
      if s.minorerr
      then (host.junk_digest, s)
      else if is_error res
      then (
        if f'.is_open then host.junk_digest else md5sumcalc,
        record s { minorerr = true; file = f'; st = st1 },
      )
      else if excluded
      then (md5sumcalc, record s { file = f'; st = st1 })
      else (md5sumcalc, record s { minorerr = is_error res2 || not dated; file = f'; st = st3 })

  unfoldable pub read_footer :
      Extractar → List ℕ → Bool → ℕ → List ℕ × Local S → Loop (ℤ × Extractar × Queue × S)
  read_footer exar fullpath excluded filesize (md5sumcalc, s) =
      if s.fatalerr || not (ltb 0 filesize)
      then finished (finish_regfile exar fullpath excluded s)
      else elim (queue_dequeue_header s.queue) [
        | none ↦ waits
        | some (lres, none, q') ↦
            finished
              (finish_regfile exar fullpath excluded (record s { minorerr = true; queue = q' }))
        | some (lres, some (footer, magic, _), q') ↦
            let (minor, del) = check_footer excluded md5sumcalc footer magic in
            finished (
              finish_regfile exar fullpath excluded (record s {
                minorerr = s.minorerr || minor;
                delfile = s.delfile || del;
                queue = q';
              }))
      ]

  -- The file is opened, in a directory that is made first.
  unfoldable pub open_restored : S → List ℕ → Dico → Bool → Bool → Queue → Local S
  open_restored st fullpath d minorerr excluded q =
      let (res, flags) = dico_get_u64 (host.stack 1) d section_stdattr diskitemkey_flags in
      let sparse = not (is_error res) && (flags % 2 == 1) in
      let (_, parentdir, _, _) =
        get_parent_dir_time_attrib host.os st fullpath path_max host.junk_times in
      let st1 : S = if excluded || minorerr then st else mkdir_recursive host.os st parentdir in
      let (opened, f, st2) =
        datafile_open_write host.os host.digest st1 datafile_alloc fullpath excluded sparse in
      if minorerr
      then record {
        minorerr = true;
        fatalerr = false;
        delfile = false;
        file = datafile_alloc;
        st = st1;
        queue = q;
        checks = 0;
      }
      else record {
        minorerr = is_error opened;
        fatalerr = false;
        delfile = false;
        file = f;
        st = st2;
        queue = q;
        checks = 0;
      }

  -- What follows the loop.
  unfoldable pub after_blocks :
      Extractar
      → List ℕ
      → Dico
      → ℕ
      → Bool
      → ℕ
      → List ℕ
      → ℕ × ℕ
      → Loop (Local S)
      → Loop (ℤ × Extractar × Queue × S)
  after_blocks exar fullpath d objtype excluded filesize parentdir times stuck = stuck
  after_blocks exar fullpath d objtype excluded filesize parentdir times waits = waits
  after_blocks exar fullpath d objtype excluded filesize parentdir times (finished s) =
      read_footer (add_cost exar filesize) fullpath excluded filesize
        (close_and_restore s fullpath d objtype excluded parentdir times)

  -- The times of the directory are those before the file is made. The queue's items bound the rounds
  -- of the loop.
  unfoldable pub extractar_restore_obj_regfile_unique :
      Extractar → S → List ℕ → List ℕ → Dico → ℕ → Queue → Loop (ℤ × Extractar × Queue × S)
  extractar_restore_obj_regfile_unique exar st fullpath relpath d objtype q =
      let (res, filesize) = dico_get_u64 (host.stack 0) d section_stdattr diskitemkey_size in
      let excluded = is_filedir_excluded host.fnmatch host.exclude relpath in
      let s = open_restored st fullpath d (is_error res) excluded q in
      let (_, parentdir, atime, mtime) =
        get_parent_dir_time_attrib host.os
          (mkdir_recursive host.os st
            (get_parent_dir_time_attrib host.os st fullpath path_max host.junk_times).1)
          fullpath path_max host.junk_times in
      after_blocks exar fullpath d objtype excluded filesize parentdir (atime, mtime)
        (restore_blocks (length q.items + 1) filesize 0 s)
