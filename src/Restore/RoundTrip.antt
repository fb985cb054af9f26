-- ===== src/Restore/RoundTrip.antt =====
-- oper_save.c and oper_restore.c: a file that was saved is restored.
use fsarchiver.Base.{
  ℕ, zero, suc, ◌+◌, ◌<◌, ◌≡◌, refl, sym, ap, ◌∙◌, subst, true, false, Option, some, List, [], ◌++◌,
  arith, ltb, ◌==◌, length, length-append, length-take, append_assoc, Bool-cases, inl, inr, min,
}
use fsarchiver.Base.Int.{ℤ, pos}
use fsarchiver.Base.Loop.{finished}
use fsarchiver.Constants.{magic_filf, section_stdattr, diskitemkey_size}
use fsarchiver.Keys.{objtype_regfileunique}
use fsarchiver.Dico.{Dico, dico_get_u64}
use fsarchiver.Queue.{done, header, Item, Queue, remove_first}
use fsarchiver.Paths.{path_max}
use fsarchiver.DataFile.Contents.{IsReliable, IsWritten}
use fsarchiver.Save.Chunks.{chunks, concat-chunks, block_items}
use fsarchiver.Save.Items.{footer_dico, footer_items, contents_items, length-block_items}
use fsarchiver.Restore.Attributes.{is_filedir_excluded, mkdir_recursive, get_parent_dir_time_attrib}
use fsarchiver.Restore.RegFile.{
  Extractar, Host, Local, add_cost, inc_u64, restore_blocks, finish_regfile, close_and_restore,
  read_footer, open_restored, after_blocks, extractar_restore_obj_regfile_unique,
}
use fsarchiver.Restore.Contents.{NoneEmpty, IsCounted, IsRestored, restore_blocks-contents}
use fsarchiver.Restore.Whole.{
  IsObject, queue_dequeue_header-first, close_and_restore-IsWritten, open_restored-IsRestored,
  check_footer-footer_dico,
}

chunks-NoneEmpty : (fuel size : ℕ) (bytes : List ℕ) → 0 < size → NoneEmpty (chunks fuel size bytes)
unfolding chunks
chunks-NoneEmpty zero size bytes h = tt
chunks-NoneEmpty (suc fuel) size bytes h = elim (Bool-cases (length bytes == 0)) [
  | inl e ↦ rw e tt
  | inr e ↦ rw e (
    ground (arith, e, h, length-take (min (length bytes) size) bytes),
    chunks-NoneEmpty fuel size _ h,
  )
]

-- The file counted, with its cost.
abbrev pub counted : Extractar → ℕ → Extractar
counted exar size =
    let exar' = add_cost exar size in
    record exar' { stats = record exar.stats { cnt_regfile = inc_u64 exar.stats.cnt_regfile } }

module _ {S : Type 0} (host : Host S) where
  -- The footer of the file is the first item, or there is none for an empty file.
  read_footer-items :
      (exar : Extractar) (s : Local S) (fullpath bytes : List ℕ) (fsid n : ℕ) (rest : List Item)
      → s.minorerr ≡ false
      → s.fatalerr ≡ false
      → s.delfile ≡ false
      → s.file.is_open ≡ false
      → s.queue.items ≡ footer_items host.digest bytes fsid n ++ rest
      → IsCounted s.queue
      → 0 < n
      → length (host.digest.md5 bytes) ≡ 16
      → length host.junk_digest ≡ 16
      → (q' : Queue) × (read_footer host exar fullpath false
            (length bytes)
            (host.digest.md5 bytes, s)
          ≡ finished (
            pos 0,
            record exar {
              stats = record exar.stats { cnt_regfile = inc_u64 exar.stats.cnt_regfile };
            },
            q',
            s.st,
          ))
        × (q'.items ≡ rest)
  unfolding read_footer finish_regfile
  read_footer-items exar s fullpath bytes fsid n rest e f k o items c p m j =
      elim (Bool-cases (ltb 0 (length bytes))) [
        | inr l ↦ (s.queue, rw (f, l, k, e, o) refl, rw l at items)
        | inl l ↦
            let first =
              queue_dequeue_header-first s.queue n magic_filf fsid (footer_dico host.digest bytes)
                rest (rw l at items) c p in
            let checked = check_footer-footer_dico host bytes m j in
            (
              remove_first s.queue
                  (header (record {
                    magic = magic_filf;
                    fsid = fsid;
                    dico = footer_dico host.digest bytes;
                  }))
                  rest,
              rw (f, l, first, checked, k, e, o, f) refl,
              refl,
            )
      ]

-- The directory's times before the file is made.
abbrev parent_of : {S : Type 0} → Host S → S → List ℕ → ℤ × List ℕ × ℕ × ℕ
parent_of host st fullpath =
    get_parent_dir_time_attrib host.os
      (mkdir_recursive host.os st
        (get_parent_dir_time_attrib host.os st fullpath path_max host.junk_times).1)
      fullpath path_max host.junk_times

restored_in_steps :
    {S : Type 0} (host : Host S) (exar : Extractar) (st : S) (fullpath relpath md5 : List ℕ)
    (d : Dico) (q : Queue) (size : ℕ) (s1 s2 : Local S) (r : ℤ × Extractar × Queue × S)
    → dico_get_u64 (host.stack 0) d section_stdattr diskitemkey_size ≡ (pos 0, size)
    → is_filedir_excluded host.fnmatch host.exclude relpath ≡ false
    → restore_blocks host
        (length q.items + 1)
        size
        0
        (open_restored host st fullpath d false false q)
      ≡ finished s1
    → close_and_restore host s1 fullpath d objtype_regfileunique false
        (parent_of host st fullpath).1
        ((parent_of host st fullpath).2, (parent_of host st fullpath).3)
      ≡ (md5, s2)
    → read_footer host (add_cost exar size) fullpath false size (md5, s2) ≡ finished r
    → extractar_restore_obj_regfile_unique host exar st fullpath relpath d objtype_regfileunique q
      ≡ finished r
unfolding extractar_restore_obj_regfile_unique after_blocks
restored_in_steps host exar st fullpath relpath md5 d q size s1 s2 r e x loop closed ended =
    rw (extractar_restore_obj_regfile_unique, e, x, loop, closed) ended

-- A file that was saved in blocks is restored from a queue with these blocks, done, its footer, and
-- `rest` behind them: the function succeeds, the file holds its bytes again, sparse or not, it is
-- counted, and `rest` is left. This is so when the file system does what it is asked, no signal
-- arrives, the path is not excluded and fits its buffer, the header has the size and the attributes
-- and no extended ones, the digest works and has 16 bytes, and the queue counts its items and its
-- numbers begin after zero.
pub extractar_restore_obj_regfile_unique_lem :
    {S : Type 0} (host : Host S) (view : S → List ℕ → Option (List ℕ)) (st : S) (exar : Extractar)
    (fullpath relpath bytes : List ℕ) (d : Dico) (size fsid n : ℕ) (rest : List Item) (q : Queue)
    → IsReliable host.os view
    → ((k : ℕ) → host.interrupted k ≡ false)
    → is_filedir_excluded host.fnmatch host.exclude relpath ≡ false
    → length fullpath < path_max
    → IsObject host d (length bytes)
    → (host.digest.starts ≡ true) × (host.digest.ends ≡ true)
    → (length (host.digest.md5 bytes) ≡ 16) × (length host.junk_digest ≡ 16)
    → 0 < size
    → 0 < n
    → q.items
      ≡ contents_items done host.digest bytes (chunks (length bytes + 1) size bytes) fsid n ++ rest
    → IsCounted q
    → (q' : Queue) × (st' : S) × (extractar_restore_obj_regfile_unique host exar st fullpath relpath
          d objtype_regfileunique q
        ≡ finished (pos 0, counted exar (length bytes), q', st'))
      × (view st' fullpath ≡ some bytes)
      × (q'.items ≡ rest)
extractar_restore_obj_regfile_unique_lem host view st exar fullpath relpath bytes d size fsid n rest
      q ok calm excl fits h works lens large p items c =
    let cs = chunks (length bytes + 1) size bytes in
    let whole = concat-chunks (length bytes + 1) size bytes large (omega arith) in
    let footer = footer_items host.digest bytes fsid (n + length cs) in
    let opened = open_restored-IsRestored host view ok calm st fullpath d q fits works.0 c in
    let s = open_restored host st fullpath d false false q in
    let order : q.items ≡ block_items done fsid n 0 cs ++ (footer ++ rest) =
      items ∙ append_assoc (block_items done fsid n 0 cs) footer rest in
    let many : length cs < length q.items + 1 = omega (
      arith,
      ap length order,
      length-block_items done fsid n 0 cs,
      length-append (block_items done fsid n 0 cs) (footer ++ rest),
    ) in
    let (s1, r1, loop) =
      restore_blocks-contents host view ok calm cs (length q.items + 1) (length bytes) s fullpath []
        fsid n (footer ++ rest)
        (subst (λ t. IsRestored host view ok calm s fullpath [] t) order opened)
        (chunks-NoneEmpty (length bytes + 1) size bytes large) many
        (omega (arith, ap length whole)) in
    let parent = parent_of host st fullpath in
    let (s2, closed, e, f, k, same, shut, seen) =
      close_and_restore-IsWritten host view ok s1 fullpath bytes d (length bytes) parent.1
        (parent.2, parent.3) h r1.no_error
        (subst (IsWritten host.os host.digest view ok s1.st s1.file fullpath) whole r1.written)
        works.1 in
    let (q', ended, left) =
      read_footer-items host (add_cost exar (length bytes)) s2 fullpath bytes fsid (n + length cs)
        rest e (f ∙ r1.no_fatal) (k ∙ r1.kept) shut (ap (λ x. x.items) same ∙ r1.left)
        (subst IsCounted (sym same) r1.counted) (omega (arith, p)) lens.0 lens.1 in
    (
      q',
      s2.st,
      restored_in_steps host exar st fullpath relpath (host.digest.md5 bytes) d q (length bytes) s1
          s2 _ h.size_is excl loop closed ended,
      seen,
      left,
    )
