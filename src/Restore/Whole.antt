-- ===== src/Restore/Whole.antt =====
-- oper_restore.c: the steps of extractar_restore_obj_regfile_unique around its loop, where all goes
-- well.
use fsarchiver.Base.{
  ℕ, zero, suc, ◌+◌, ◌%◌, ◌<◌, ◌≡◌, refl, sym, ap, ◌∙◌, true, false, not, ◌&&◌, Option, some, List,
  [], ◌∷◌, arith, ◌==◌, bytes_eq, bytes_eq_refl, length, take, take_all, memcpy_whole,
}
use fsarchiver.Base.Int.{pos, is_error, is_positive}
use fsarchiver.Constants.{section_stdattr, diskitemkey_size, magic_filf}
use fsarchiver.Keys.{
  section_xattr, section_winattr, diskitemkey_mode, diskitemkey_uid, diskitemkey_gid,
  diskitemkey_atime, diskitemkey_mtime, objtype_regfileunique, blockfoot_md5sum, diskitemkey_flags,
}
use fsarchiver.Dico.{
  Dico, dico_alloc, dico_add_data, dico_add_generic, is_duplicate, code_of_type, dico_get_data,
  dico_get_generic, dico_find, copy_contents, dico_get_u32, dico_get_u64, dico_count_one_section,
}
use fsarchiver.Queue.{header, Item, Queue, remove_first, queue_get_end_of_queue}
use fsarchiver.Queue.Removal.{
  queue_dequeue_header, queue_dequeue_header_internal, dequeue_header_of,
}
use fsarchiver.Target.{Digest}
use fsarchiver.Paths.{path_max}
use fsarchiver.DataFile.{datafile_alloc, datafile_close}
use fsarchiver.DataFile.Contents.{
  IsReliable, IsWritten, datafile_close-IsWritten, datafile_open_write-IsWritten,
}
use fsarchiver.Save.Items.{footer_dico, header_item}
use fsarchiver.Restore.Attributes.{
  apply_attributes, extractar_restore_attr_std, extractar_restore_attr_xattr,
  extractar_restore_attr_windows, restore_pairs, extractar_restore_attr_everything,
  get_parent_dir_time_attrib, mkdir_recursive,
}
use fsarchiver.Restore.RegFile.{Host, Local, check_footer, close_and_restore, open_restored}
use fsarchiver.Restore.Contents.{IsCounted, IsRestored}

-- The header of a file of this size has its attributes, and no extended ones.
pub record IsObject {S : Type 0} (host : Host S) (d : Dico) (size : ℕ) : Type 0 where
  pub size_is : dico_get_u64 (host.stack 0) d section_stdattr diskitemkey_size ≡ (pos 0, size)
  pub mode : ℕ
  pub uid : ℕ
  pub gid : ℕ
  pub atime : ℕ
  pub mtime : ℕ
  pub mode_is : dico_get_u32 (host.stack 2) d section_stdattr diskitemkey_mode ≡ (pos 0, mode)
  pub uid_is : dico_get_u32 (host.stack 3) d section_stdattr diskitemkey_uid ≡ (pos 0, uid)
  pub gid_is : dico_get_u32 (host.stack 4) d section_stdattr diskitemkey_gid ≡ (pos 0, gid)
  pub atime_is : dico_get_u64 (host.stack 5) d section_stdattr diskitemkey_atime ≡ (pos 0, atime)
  pub mtime_is : dico_get_u64 (host.stack 6) d section_stdattr diskitemkey_mtime ≡ (pos 0, mtime)
  pub no_xattr : dico_count_one_section d section_xattr ≡ 0
  pub no_winattr : dico_count_one_section d section_winattr ≡ 0

dico_get_data-footer_dico :
    (digest : Digest) (bytes junk : List ℕ)
    → length (digest.md5 bytes) ≡ 16
    → length junk ≡ 16
    → dico_get_data (footer_dico digest bytes) 0 blockfoot_md5sum junk 16
      ≡ (pos 0, digest.md5 bytes, 16)
unfolding dico_get_data dico_get_generic dico_find copy_contents dico_add_data dico_add_generic
    is_duplicate dico_alloc code_of_type
dico_get_data-footer_dico digest bytes junk m j =
    rw (take_all 16 (digest.md5 bytes) (sym m))
      (ap (λ x. (pos 0, x, 16)) (memcpy_whole junk (digest.md5 bytes) (m ∙ sym j)))

is_positive-pos : (n : ℕ) → 0 < n → is_positive (pos n) ≡ true
is_positive-pos zero h = absurd (omega (arith, h))
is_positive-pos (suc n) h = refl

pub queue_dequeue_header-first :
    (q : Queue) (n : ℕ) (magic : List ℕ) (fsid : ℕ) (d : Dico) (rest : List Item)
    → q.items ≡ header_item n magic fsid d ∷ rest
    → IsCounted q
    → 0 < n
    → queue_dequeue_header q
      ≡ some (
        pos n,
        some (d, magic, fsid),
        remove_first q (header (record { magic = magic; fsid = fsid; dico = d })) rest,
      )
unfolding queue_dequeue_header queue_dequeue_header_internal dequeue_header_of
    queue_get_end_of_queue
queue_dequeue_header-first q n magic fsid d rest e (c, h) p =
    let k = ap length e in ground (arith, e, c, k, is_positive-pos n p)

module _ {S : Type 0} (host : Host S) (view : S → List ℕ → Option (List ℕ))
    (ok : IsReliable host.os view) where
  apply_attributes-view :
      (st : S) (objtype : ℕ) (fullpath : List ℕ) (mode uid gid : ℕ) (times : ℕ × ℕ)
      → (objtype == 2) ≡ false
      → ((apply_attributes host.os st objtype fullpath mode uid gid times).0 ≡ pos 0)
        × (view (apply_attributes host.os st objtype fullpath mode uid gid times).1 fullpath
            ≡ view st fullpath)
  unfolding apply_attributes
  apply_attributes-view st objtype fullpath mode uid gid times e =
      let st1 = (host.os.lchown st fullpath uid gid).1 in
      let st2 = (host.os.chmod st1 fullpath mode).1 in
      rw
        (
          ok.chown_ok st fullpath uid gid,
          e,
          ok.chmod_ok st1 fullpath mode,
          ok.times_ok st2 fullpath times,
        )
        (
          refl,
          ok.times_view st2 fullpath fullpath times
              ∙ ok.chmod_view st1 fullpath fullpath mode
              ∙ ok.chown_view st fullpath fullpath uid gid,
        )

  everything-view :
      (st : S) (fullpath : List ℕ) (d : Dico) (size : ℕ)
      → IsObject host d size
      → ((extractar_restore_attr_everything host.os st
            (λ i. host.stack (2 + i))
            objtype_regfileunique
            fullpath
            d).0
          ≡ pos 0)
        × (view
              (extractar_restore_attr_everything host.os st
                (λ i. host.stack (2 + i))
                objtype_regfileunique
                fullpath
                d).1
              fullpath
            ≡ view st fullpath)
  unfolding extractar_restore_attr_everything extractar_restore_attr_std
      extractar_restore_attr_xattr extractar_restore_attr_windows restore_pairs
  everything-view st fullpath d size h =
      let a =
        apply_attributes-view st objtype_regfileunique fullpath h.mode h.uid h.gid
          (h.atime, h.mtime) refl in
      rw (h.mode_is, h.uid_is, h.gid_is, h.atime_is, h.mtime_is, h.no_xattr, h.no_winattr, a.0)
        (refl, a.1)

  -- The file is closed with its bytes, gets its attributes, and keeps them.
  pub close_and_restore-IsWritten :
      (s : Local S) (fullpath bytes : List ℕ) (d : Dico) (size : ℕ) (parentdir : List ℕ)
      (times : ℕ × ℕ)
      → IsObject host d size
      → s.minorerr ≡ false
      → IsWritten host.os host.digest view ok s.st s.file fullpath bytes
      → host.digest.ends ≡ true
      → (s' : Local S) × (close_and_restore host s fullpath d objtype_regfileunique false parentdir
            times
          ≡ (host.digest.md5 bytes, s'))
        × (s'.minorerr ≡ false)
        × (s'.fatalerr ≡ s.fatalerr)
        × (s'.delfile ≡ s.delfile)
        × (s'.queue ≡ s.queue)
        × (s'.file.is_open ≡ false)
        × (view s'.st fullpath ≡ some bytes)
  unfolding close_and_restore
  close_and_restore-IsWritten s fullpath bytes d size parentdir times h e w ends =
      let closed =
        datafile_close-IsWritten host.os host.digest view ok s.st s.file fullpath bytes w ends in
      let f' = (datafile_close host.os host.digest s.st s.file).2 in
      let st1 = (datafile_close host.os host.digest s.st s.file).3 in
      let a = everything-view st1 fullpath d size h in
      let st2 =
        (extractar_restore_attr_everything host.os st1 (λ i. host.stack (2 + i))
          objtype_regfileunique fullpath d).1 in
      let st3 = (host.os.set_times st2 parentdir times).1 in
      (
        record s { minorerr = false; file = f'; st = st3 },
        rw (e, closed.0, closed.1, a.0, ok.times_ok st2 parentdir times) refl,
        refl,
        refl,
        refl,
        refl,
        closed.3,
        ok.times_view st2 parentdir fullpath times ∙ a.1 ∙ closed.2,
      )

  -- The file is open and empty, and the queue has not been looked at.
  pub open_restored-IsRestored :
      (calm : (k : ℕ) → host.interrupted k ≡ false) (st : S) (fullpath : List ℕ) (d : Dico)
      (q : Queue)
      → length fullpath < path_max
      → host.digest.starts ≡ true
      → IsCounted q
      → IsRestored host view ok calm
          (open_restored host st fullpath d false false q)
          fullpath
          []
          q.items
  unfolding open_restored datafile_alloc
  open_restored-IsRestored calm st fullpath d q fits starts c =
      let (res, flags) = dico_get_u64 (host.stack 1) d section_stdattr diskitemkey_flags in
      let parentdir = (get_parent_dir_time_attrib host.os st fullpath path_max host.junk_times).1 in
      let opened =
        datafile_open_write-IsWritten host.os host.digest view ok
          (mkdir_recursive host.os st parentdir) datafile_alloc fullpath
          (not (is_error res) && (flags % 2 == 1)) refl starts fits in
      record {
        no_error = ap is_error opened.0;
        no_fatal = refl;
        kept = refl;
        written = opened.1;
        left = refl;
        counted = c;
      }

-- The footer that belongs to the bytes is accepted.
pub check_footer-footer_dico :
    {S : Type 0} (host : Host S) (bytes : List ℕ)
    → length (host.digest.md5 bytes) ≡ 16
    → length host.junk_digest ≡ 16
    → check_footer host false (host.digest.md5 bytes) (footer_dico host.digest bytes) magic_filf
      ≡ (false, false)
unfolding check_footer bytes_eq
check_footer-footer_dico host bytes m j =
    rw
      (
        dico_get_data-footer_dico host.digest bytes host.junk_digest m j,
        bytes_eq_refl (take 16 (host.digest.md5 bytes)),
      )
      refl
