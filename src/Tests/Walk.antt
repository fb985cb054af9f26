-- ===== src/Tests/Walk.antt =====
-- The theorems on the walk through a tree of directories at concrete inputs.
use fsarchiver.Base.{
  ℕ, ◌≡◌, ◌≢◌, refl, ap, subst, true, false, Option, some, none, List, [], ◌∷◌, arith, bytes_eq,
  replicate,
}
use fsarchiver.Base.Int.{pos}
use fsarchiver.Base.Bytes.{put_le}
use fsarchiver.Base.Loop.{Loop, finished, waits, stuck}
use fsarchiver.Dico.{
  plenty, dico_add_generic, dico_add_u32, dico_add_u64, dico_add_string, dico_alloc, is_duplicate,
  code_of_type,
}
use fsarchiver.Queue.{queue_add_header, queue_add_header_internal, add_header_when_ready}
use fsarchiver.Paths.{concatenate_paths, without_slash, skip_slashes, has_slash}
use fsarchiver.Filesys.{unix_like}
use fsarchiver.Source.{Source, Stat, directory, absent}
use fsarchiver.Stats.{no_stats}
use fsarchiver.Save.Attributes.{
  createar_item_xattr, createar_item_winattr, winattr_names, winattr_loop, winattr_step,
}
use fsarchiver.Save.Standard.{add_common, add_specific, createar_item_stdattr}
use fsarchiver.Save.Files.{
  Savear, createar_save_file, save_object, add_others, send_object, stats_success,
}
use fsarchiver.Save.Walk.{Walker, Saved, createar_save_directory, save_entries, save_entry}
use fsarchiver.Save.Walk.Ends.{AreNames, createar_save_directory-ends}
use fsarchiver.Save.Walk.Costs.{IsAlike}
use fsarchiver.Save.Walk.Total.{createar_save_directory_evaluated}

-- "/mnt" is a directory without entries.
abbrev root : List ℕ
root = 47 ∷ 109 ∷ 110 ∷ 116 ∷ []

abbrev dir_stat : Stat
dir_stat = record {
  kind = directory;
  mode = 16877;
  size = 4096;
  uid = 0;
  gid = 0;
  atime = 5;
  mtime = 6;
  nlink = 2;
  dev = 8;
  rdev = 0;
  ino = 2;
  blocks = 8;
}

abbrev source : Source
source = record {
  opens = λ _. true;
  read = λ p k n. some [];
  lstat = λ _. some dir_stat;
  readlink = λ _. none;
  llistxattr = λ _ _. none;
  xattr_size = λ _ _. absent;
  lgetxattr = λ _ _ _. absent;
  readdir = λ _. some ((46 ∷ []) ∷ (46 ∷ 46 ∷ []) ∷ []);
}

abbrev walker : Walker
walker = record {
  saver = record {
    src = source;
    digest = record { starts = true; ends = true; md5 = λ bytes. replicate 16 0 };
    interrupted = λ _. false;
    fnmatch = λ _ _. false;
    exclude = [];
    smallfilethresh = 1000;
    datablocksize = 4096;
    allowsaverw = true;
    stack = λ _. replicate 8 170;
  };
  memory = λ _. plenty;
  signal = λ _ _. false;
}

abbrev save : Savear
save = record {
  volpath = 47 ∷ 97 ∷ [];
  regmulti = record {
    count = 0;
    maxitems = 512;
    maxblksize = 4096;
    objhead = [];
    contents = [];
    usedsize = 0;
  };
  dichardlinks = [];
  stats = no_stats;
  fs = unix_like [];
  fsid = 0;
  objectid = 0;
  cost_global = 16384;
  cost_current = 0;
  queue = record {
    items = [];
    curitemnum = 1;
    itemcount = 0;
    blkcount = 0;
    blkmax = 32;
    endofqueue = false;
  };
}

abbrev names_of : Option (List (List ℕ)) → List (List ℕ)
names_of none = []
names_of (some names) = names

createar_save_directory-ends_example :
    createar_save_directory walker root 4096 save (47 ∷ []) none ≢ stuck
unfolding has_slash
createar_save_directory-ends_example =
    createar_save_directory-ends walker root 4096 save (47 ∷ []) none
      (λ dir names e. subst AreNames (ap names_of e) (omega arith, refl, (omega arith, refl, tt)))
      (omega arith) (omega arith)

abbrev end_of : Loop Saved → Savear
end_of stuck = save
end_of waits = save
end_of (finished (res, costeval, s)) = s

-- The directory has been saved.
abbrev saved : Savear
saved = end_of (createar_save_directory walker root 2 save (47 ∷ []) none)

is_saved : createar_save_directory walker root 2 save (47 ∷ []) none ≡ finished (pos 0, none, saved)
unfolding createar_save_directory concatenate_paths without_slash skip_slashes createar_save_file
    bytes_eq createar_item_stdattr add_common dico_add_u64 dico_alloc dico_add_string dico_add_u32
    add_specific save_object add_others createar_item_xattr send_object queue_add_header
    queue_add_header_internal add_header_when_ready dico_add_generic put_le is_duplicate
    stats_success createar_item_winattr save_entries save_entry code_of_type winattr_names
    winattr_loop winattr_step
is_saved = refl

createar_save_directory_evaluated_example :
    (cost' : ℕ) × (s' : Savear) × (createar_save_directory walker root 2 save (47 ∷ []) (some 0)
      ≡ finished (pos 0, some cost', s'))
    × IsAlike 0 cost' s' saved
createar_save_directory_evaluated_example =
    createar_save_directory_evaluated walker root refl 0 2 0 save save saved (47 ∷ [])
      (record {
        volpath = refl;
        links = refl;
        fs = refl;
        objectid = refl;
        current = refl;
        global = refl;
      })
      is_saved
