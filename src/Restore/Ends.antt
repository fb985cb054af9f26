-- ===== src/Restore/Ends.antt =====
-- oper_restore.c: the restoration of a large file ends, whatever the archive holds.
use fsarchiver.Base.{ℕ, ◌+◌, ◌≡◌, ◌≢◌, refl, ap, Bool, true, false, List, arith, length}
use fsarchiver.Base.Int.{is_error}
use fsarchiver.Base.Loop.{Loop, finished, waits, stuck}
use fsarchiver.Constants.{section_stdattr, diskitemkey_size}
use fsarchiver.Dico.{Dico, dico_get_u64}
use fsarchiver.Queue.{Queue}
use fsarchiver.Restore.Attributes.{is_filedir_excluded}
use fsarchiver.Restore.RegFile.{
  Extractar, Host, Local, add_cost, restore_blocks, read_footer, close_and_restore, after_blocks,
  open_restored, extractar_restore_obj_regfile_unique,
}
use fsarchiver.Restore.Contents.{restore_blocks-ends}

module _ {S : Type 0} (host : Host S) where
  open_restored-queue :
      (st : S) (fullpath : List ℕ) (d : Dico) (minorerr excluded : Bool) (q : Queue)
      → (open_restored host st fullpath d minorerr excluded q).queue ≡ q
  unfolding open_restored
  open_restored-queue st fullpath d true excluded q = refl
  open_restored-queue st fullpath d false excluded q = refl

  read_footer-ends :
      (exar : Extractar) (fullpath : List ℕ) (excluded : Bool) (filesize : ℕ) (md5 : List ℕ)
      (s : Local S)
      → read_footer host exar fullpath excluded filesize (md5, s) ≢ stuck
  unfolding read_footer
  read_footer-ends exar fullpath excluded filesize md5 s = ground arith

  after_blocks-ends :
      (exar : Extractar) (fullpath : List ℕ) (d : Dico) (objtype : ℕ) (excluded : Bool)
      (filesize : ℕ) (parentdir : List ℕ) (times : ℕ × ℕ) (loop : Loop (Local S))
      → loop ≢ stuck
      → after_blocks host exar fullpath d objtype excluded filesize parentdir times loop ≢ stuck
  unfolding after_blocks
  after_blocks-ends exar fullpath d objtype excluded filesize parentdir times stuck h =
      absurd (h refl)
  after_blocks-ends exar fullpath d objtype excluded filesize parentdir times waits h = ground arith
  after_blocks-ends exar fullpath d objtype excluded filesize parentdir times (finished s) h =
      let closed = close_and_restore host s fullpath d objtype excluded parentdir times in
      read_footer-ends (add_cost exar filesize) fullpath excluded filesize closed.0 closed.1

  -- Whatever is in the header and in the queue, and whatever the file system answers, restoring a
  -- large file ends or waits for the reader: its loop, with one round for each item of the queue and
  -- one more, does not run out of rounds.
  pub extractar_restore_obj_regfile_unique-ends :
      (exar : Extractar) (st : S) (fullpath relpath : List ℕ) (d : Dico) (objtype : ℕ) (q : Queue)
      → extractar_restore_obj_regfile_unique host exar st fullpath relpath d objtype q ≢ stuck
  unfolding extractar_restore_obj_regfile_unique
  extractar_restore_obj_regfile_unique-ends exar st fullpath relpath d objtype q =
      let (res, filesize) = dico_get_u64 (host.stack 0) d section_stdattr diskitemkey_size in
      let excluded = is_filedir_excluded host.fnmatch host.exclude relpath in
      let s = open_restored host st fullpath d (is_error res) excluded q in
      let same =
        ap (λ x. length x.items) (open_restored-queue st fullpath d (is_error res) excluded q) in
      let ends = restore_blocks-ends host (length q.items + 1) filesize 0 s (omega (arith, same)) in
      after_blocks-ends exar fullpath d objtype excluded filesize _ _
        (restore_blocks host (length q.items + 1) filesize 0 s) ends
