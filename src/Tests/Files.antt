-- ===== src/Tests/Files.antt =====
-- The theorems on the saving and restoring of files at concrete inputs.
use fsarchiver.Base.{
  ℕ, ◌-◌, ◌≡◌, ◌≢◌, refl, ap, true, false, Option, some, none, List, [], ◌∷◌, ◌++◌, arith, ◌%◌, ltb,
  ◌==◌, if◌then◌else◌, bytes_eq, bytes_eq_refl, length, replicate, take, drop,
}
use fsarchiver.Base.Int.{pos}
use fsarchiver.Base.Bytes.{put_le, get_le}
use fsarchiver.Base.Loop.{finished, stuck}
use fsarchiver.Constants.{magic_objt}
use fsarchiver.Keys.{objtype_regfileunique}
use fsarchiver.Dico.{
  Dico, DicoItem, plenty, dico_get_u32, dico_get_u64, get_word, dico_get_data, dico_get_generic,
  dico_find, copy_contents, dico_count_one_section,
}
use fsarchiver.Queue.{todo, done, Queue}
use fsarchiver.ArchWriter.Volumes.{Disk, put_file}
use fsarchiver.Source.{Source, absent}
use fsarchiver.Paths.{exclude_check, before_last_slash}
use fsarchiver.Restore.Attributes.{is_filedir_excluded, is_parent_excluded}
use fsarchiver.Restore.Ends.{extractar_restore_obj_regfile_unique-ends}
use fsarchiver.Target.{Target, Digest}
use fsarchiver.DataFile.Contents.{IsReliable}
use fsarchiver.Save.RegFile.{createar_obj_regfile_unique}
use fsarchiver.Save.Chunks.{chunks, concat, with_items}
use fsarchiver.Save.Items.{header_item, contents_items, createar_obj_regfile_unique_lem}
use fsarchiver.Restore.RegFile.{Extractar, Host, extractar_restore_obj_regfile_unique}
use fsarchiver.Restore.RoundTrip.{counted, extractar_restore_obj_regfile_unique_lem}
use fsarchiver.Stats.{no_stats}

abbrev bytes_of : Option (List ℕ) → List ℕ
bytes_of none = []
bytes_of (some bs) = bs

abbrev bytes_at : Disk → List ℕ → List ℕ
bytes_at disk p = bytes_of (disk p)

abbrev at_end : List ℕ → ℕ → List ℕ → List ℕ
at_end old k bs = old ++ (replicate (k - length old) 0 ++ bs)

-- A file system of regular files on which every call succeeds.
abbrev disk_calls : Target Disk
disk_calls = record {
  missing = λ _ _. false;
  mkdir = λ disk _. disk;
  dir_times = λ _ _. some (1, 2);
  set_times = λ disk _ _. (true, disk);
  link_times = λ disk _ _. disk;
  lchown = λ disk _ _ _. (true, disk);
  chmod = λ disk _ _. (true, disk);
  lsetxattr = λ disk _ _ _. (true, disk);
  symlink = λ disk _ _. (true, disk);
  link = λ disk _ _. (true, disk);
  mknod = λ disk _ _ _. (true, disk);
  creat = λ disk p. (true, put_file disk p []);
  write = λ disk p k bs. (some (length bs), put_file disk p (at_end (bytes_at disk p) k bs));
  no_space = λ _. false;
  can_seek = λ _ _ _. true;
  ftruncate = λ disk p k.
      (true, put_file disk p (bytes_at disk p ++ replicate (k - length (bytes_at disk p)) 0));
  close = λ disk _. (true, disk);
  unlink = λ disk p q. if bytes_eq p q then none else disk q;
}

abbrev view : Disk → List ℕ → Option (List ℕ)
view disk p = disk p

disk_calls-IsReliable : IsReliable disk_calls view
disk_calls-IsReliable = record {
  creat_ok = λ st p. refl;
  creat_view = λ st p. rw (bytes_eq_refl p) refl;
  write_ok = λ st p k bs. refl;
  write_view =
      λ st p k bs old e h. rw (bytes_eq_refl p) (ap (λ x. some (at_end (bytes_of x) k bs)) e);
  seek_ok = λ st p k. refl;
  truncate_ok = λ st p k. refl;
  truncate_view = λ st p k old e h.
      rw (bytes_eq_refl p) (ap (λ x. some (bytes_of x ++ replicate (k - length (bytes_of x)) 0)) e);
  close_ok = λ st p. refl;
  close_view = λ st p q. refl;
  chown_ok = λ st p u g. refl;
  chown_view = λ st p q u g. refl;
  chmod_ok = λ st p m. refl;
  chmod_view = λ st p q m. refl;
  times_ok = λ st p t. refl;
  times_view = λ st p q t. refl;
}

abbrev digest : Digest
digest = record { starts = true; ends = true; md5 = λ bytes. replicate 16 (length bytes % 256) }

-- "/a" holds five bytes.
abbrev path : List ℕ
path = 47 ∷ 97 ∷ []

abbrev bytes : List ℕ
bytes = 1 ∷ 2 ∷ 0 ∷ 0 ∷ 5 ∷ []

abbrev source : Source
source = record {
  opens = λ _. true;
  read = λ p k n. some (take n (drop k bytes));
  lstat = λ _. none;
  readlink = λ _. none;
  llistxattr = λ _ _. none;
  xattr_size = λ _ _. absent;
  lgetxattr = λ _ _ _. absent;
  readdir = λ _. none;
}

abbrev queue : Queue
queue = record {
  items = [];
  curitemnum = 1;
  itemcount = 0;
  blkcount = 0;
  blkmax = 32;
  endofqueue = false;
}

createar_obj_regfile_unique_lem_example :
    (createar_obj_regfile_unique source (λ _. false) path 5 2 0 digest plenty [] queue
      ≡ some (
        pos 0,
        with_items queue
            (header_item 1 magic_objt 0 []
              ∷ contents_items todo digest bytes (chunks 6 2 bytes) 0 2)
            (length (chunks 6 2 bytes)),
      ))
    × (concat (chunks 6 2 bytes) ≡ bytes)
unfolding chunks
createar_obj_regfile_unique_lem_example =
    createar_obj_regfile_unique_lem source (λ _. false) path bytes 2 0 digest (refl, λ k n. refl)
      (λ k. refl) (omega arith) (refl, refl) [] queue
      (record { opened = refl; space = omega arith; counts = omega arith; numbers = omega arith })

abbrev word_attr : ℕ → ℕ → ℕ → ℕ → DicoItem
word_attr key w type x = record {
  type = type;
  section = 0;
  key = key;
  size = w;
  contents = some (put_le w x);
}

-- Size 5, mode, owner, group and times.
abbrev attributes : Dico
attributes =
    word_attr 8 8 4 5
    ∷ word_attr 7 4 3 33188
    ∷ word_attr 9 4 3 0
    ∷ word_attr 10 4 3 0
    ∷ word_attr 11 8 4 7
    ∷ word_attr 12 8 4 9
    ∷ []

abbrev pub host : Host Disk
host = record {
  os = disk_calls;
  digest = digest;
  fnmatch = λ _ _. false;
  exclude = [];
  interrupted = λ _. false;
  stack = λ i. if i == 0 then replicate 8 0 else if ltb i 5 then replicate 4 0 else replicate 8 0;
  junk_times = (0, 0);
  junk_digest = replicate 16 0;
  junk_path = [];
}

abbrev exar : Extractar
exar = record { fsid = 0; stats = no_stats; cost_global = 0; cost_current = 0 }

-- The blocks of the file, and an object behind them.
abbrev filled : Queue
filled = record {
  items =
      contents_items done digest bytes (chunks 6 2 bytes) 0 1
      ++ (header_item 9 magic_objt 0 [] ∷ []);
  curitemnum = 10;
  itemcount = 5;
  blkcount = 3;
  blkmax = 32;
  endofqueue = false;
}

extractar_restore_obj_regfile_unique_lem_example :
    (q' : Queue) × (st' : Disk) × (extractar_restore_obj_regfile_unique host exar
        (λ _. none)
        path
        path
        attributes
        objtype_regfileunique
        filled
      ≡ finished (pos 0, counted exar 5, q', st'))
    × (view st' path ≡ some bytes)
    × (q'.items ≡ header_item 9 magic_objt 0 [] ∷ [])
unfolding chunks is_filedir_excluded is_parent_excluded exclude_check before_last_slash dico_get_u32
    dico_get_u64 get_word dico_get_data dico_get_generic dico_find copy_contents put_le get_le
    dico_count_one_section
extractar_restore_obj_regfile_unique_lem_example =
    extractar_restore_obj_regfile_unique_lem host view (λ _. none) exar path path bytes attributes 2
      0 1 (header_item 9 magic_objt 0 [] ∷ []) filled disk_calls-IsReliable (λ k. refl) refl
      (omega arith)
      (record {
        size_is = refl;
        mode = 33188;
        uid = 0;
        gid = 0;
        atime = 7;
        mtime = 9;
        mode_is = refl;
        uid_is = refl;
        gid_is = refl;
        atime_is = refl;
        mtime_is = refl;
        no_xattr = refl;
        no_winattr = refl;
      })
      (refl, refl) (refl, refl) (omega arith) (omega arith) refl (refl, omega arith)

extractar_restore_obj_regfile_unique-ends_example :
    extractar_restore_obj_regfile_unique host exar
      (λ _. none)
      path
      path
      attributes
      objtype_regfileunique
      queue
    ≢ stuck
extractar_restore_obj_regfile_unique-ends_example =
    extractar_restore_obj_regfile_unique-ends host exar (λ _. none) path path attributes
      objtype_regfileunique queue
