-- ===== src/Save/Walk.antt =====
-- oper_save.c: createar_save_directory, which saves a directory and all that is below it, and what
-- calls it for a file system or for a directory of the command line.
pub mod Ends
pub mod Costs
pub mod Total
use fsarchiver.Base.{
  ℕ, zero, suc, Bool, true, false, not, ◌&&◌, ◌||◌, Option, none, some, List, [], ◌∷◌, ◌==◌,
  if◌then◌else◌, bytes_eq, take,
}
use fsarchiver.Base.Int.{ℤ, pos, is_error, minus_one}
use fsarchiver.Base.Loop.{Loop, finished, waits, stuck}
use fsarchiver.Constants.{magic_fsyb, magic_datf}
use fsarchiver.Dico.{Memory, dico_alloc}
use fsarchiver.Writebuf.{from_nth}
use fsarchiver.Dichl.{dichl_alloc}
use fsarchiver.Queue.{Queue, queue_add_header}
use fsarchiver.Regmulti.{regmulti_init, regmulti_save_enqueue}
use fsarchiver.Strlist.{cut}
use fsarchiver.Paths.{path_max, concatenate_paths, exclude_check}
use fsarchiver.Filesys.{FileSystem}
use fsarchiver.Source.{Kind, directory, Stat}
use fsarchiver.Save.Files.{Savear, Saver, createar_save_file}

-- What the walk needs besides what it needs for one object. `memory j` are the allocations for the
-- j-th object, and `signal path rest` is the look at the flag of the signals in the directory `path`,
-- in front of the entries `rest`.
pub record Walker : Type 0 where
  pub saver : Saver
  pub memory : ℕ → Memory
  pub signal : List ℕ → List (List ℕ) → Bool

abbrev pub Saved : Type 0
Saved = ℤ × Option ℕ × Savear

abbrev pub is_directory : Kind → Bool
is_directory directory = true
is_directory Kind.symbolic = false
is_directory Kind.regular = false
is_directory Kind.character = false
is_directory Kind.blockdev = false
is_directory Kind.fifo = false
is_directory Kind.socket = false
is_directory Kind.odd = false

-- "." and ".."
abbrev pub is_dots : List ℕ → Bool
is_dots name = bytes_eq name (46 ∷ []) || bytes_eq name (46 ∷ 46 ∷ [])

module _ (walker : Walker) (root : List ℕ) where
  abbrev pub save_file : Savear → List ℕ → Stat → Option ℕ → Loop Saved
  save_file save relpath s costeval =
      elim (createar_save_file walker.saver (walker.memory save.objectid) save root relpath s
        costeval) [ none ↦ waits | some r ↦ finished r ]

  -- A name or a path that a pattern excludes.
  unfoldable pub is_excluded : List ℕ → List ℕ → Bool
  is_excluded name relpath =
      exclude_check walker.saver.fnmatch walker.saver.exclude name
      || exclude_check walker.saver.fnmatch walker.saver.exclude relpath

  -- One entry of a directory: a directory is saved by `below`.
  unfoldable pub save_entry :
      (Savear → List ℕ → Option ℕ → Loop Saved)
      → List ℕ
      → List ℕ
      → List ℕ
      → Savear
      → Option ℕ
      → Loop Saved
  save_entry below path fulldirpath name save costeval =
      if is_dots name
      then finished (pos 0, costeval, save)
      else elim (concatenate_paths path_max path name) [
        | none ↦ waits
        | some relpath ↦ elim (concatenate_paths path_max fulldirpath name) [
          | none ↦ waits
          | some fullpath ↦ elim (walker.saver.src.lstat fullpath) [
            | none ↦
                finished (if walker.saver.allowsaverw then pos 0 else minus_one, costeval, save)
            | some s ↦
                if is_excluded name relpath
                then finished (pos 0, costeval, save)
                else if is_directory s.kind
                then below save relpath costeval
                else save_file save relpath s costeval
          ]
        ]
      ]

  -- The loop on the names that `readdir` returns: any result but zero is an error.
  unfoldable pub save_entries :
      (Savear → List ℕ → Option ℕ → Loop Saved)
      → List ℕ
      → List ℕ
      → List (List ℕ)
      → Savear
      → Option ℕ
      → Loop Saved
  save_entries below path fulldirpath [] save costeval = finished (pos 0, costeval, save)
  save_entries below path fulldirpath (name ∷ rest) save costeval =
      if walker.signal path (name ∷ rest)
      then finished (pos 0, costeval, save)
      else elim (save_entry below path fulldirpath name save costeval) [
        | stuck ↦ stuck
        | waits ↦ waits
        | finished (pos zero, costeval', save') ↦
            save_entries below path fulldirpath rest save' costeval'
        | finished (pos (suc n), costeval', save') ↦ finished (minus_one, costeval', save')
        | finished (ℤ.negsuc n, costeval', save') ↦ finished (minus_one, costeval', save')
      ]

  -- The fuel is the depth of directories. A directory that cannot be opened is no error.
  unfoldable pub createar_save_directory : ℕ → Savear → List ℕ → Option ℕ → Loop Saved
  createar_save_directory zero save path costeval = stuck
  createar_save_directory (suc fuel) save path costeval =
      elim (concatenate_paths path_max root path) [
        | none ↦ waits
        | some fulldirpath ↦ elim (walker.saver.src.readdir fulldirpath) [
          | none ↦ finished (pos 0, costeval, save)
          | some names ↦ elim (walker.saver.src.lstat fulldirpath) [
            | none ↦ finished (minus_one, costeval, save)
            | some s ↦ elim (save_file save path s costeval) [
              | stuck ↦ stuck
              | waits ↦ waits
              | finished (pos zero, costeval', save') ↦
                  save_entries (λ save'' relpath c. createar_save_directory fuel save'' relpath c)
                    path fulldirpath names save' costeval'
              | finished (pos (suc n), costeval', save') ↦ finished (minus_one, costeval', save')
              | finished (ℤ.negsuc n, costeval', save') ↦ finished (minus_one, costeval', save')
            ]
          ]
        ]
      ]

  -- `mem` are the allocations outside of the walk. The small files of the last block are queued even
  -- where the walk has failed.
  unfoldable pub createar_save_directory_wrapper :
      ℕ → Memory → ℕ → Savear → List ℕ → Option ℕ → Loop Saved
  createar_save_directory_wrapper fuel mem datablocksize save path costeval =
      if not (mem 0)
      then finished (minus_one, costeval, save)
      else elim (createar_save_directory fuel
          (record save {
            dichardlinks = dichl_alloc;
            regmulti = (regmulti_init save.regmulti datablocksize).1;
          })
          path costeval) [
            | stuck ↦ stuck
            | waits ↦ waits
            | finished (res, costeval', save') ↦
                elim (regmulti_save_enqueue walker.saver.stack (from_nth 1 mem) save'.regmulti
                  save'.queue save'.fsid) [
                    | none ↦ waits
                    | some (res2, q) ↦ finished (
                      if is_error res2 then minus_one else res,
                      costeval',
                      record save' { queue = q },
                    )
                  ]
          ]

-- A header without attributes, whose errors are ignored.
unfoldable pub add_mark : Memory → List ℕ → Savear → Option Savear
add_mark mem magic save = elim (queue_add_header mem save.queue dico_alloc magic save.fsid) [
  | none ↦ none
  | some (res, q) ↦ some (record save { queue = q })
]

-- The file system `fs` of a device, which is mounted at `partmount`.
unfoldable pub createar_oper_savefs :
    Walker → ℕ → Memory → FileSystem → List ℕ → Savear → Loop (ℤ × Savear)
createar_oper_savefs walker fuel mem fs partmount save =
    if not (mem 0)
    then finished (minus_one, save)
    else elim (add_mark (from_nth 1 mem) magic_fsyb save) [
      | none ↦ waits
      | some begun ↦
          elim (createar_save_directory_wrapper walker partmount fuel (from_nth 8 mem)
            walker.saver.datablocksize (record begun { fs = fs }) (47 ∷ []) none) [
              | stuck ↦ stuck
              | waits ↦ waits
              | finished (res, costeval, save') ↦
                  if not (mem 4)
                  then finished (minus_one, save')
                  else elim (add_mark (from_nth 5 mem) magic_datf save') [
                    | none ↦ waits
                    | some ended ↦ finished (res, ended)
                  ]
            ]
    ]

-- A directory of the command line: an absolute path is taken from the root, another one from the
-- current directory `cwd`. Errors are ignored.
unfoldable pub createar_oper_savedir :
    Walker → ℕ → Memory → List ℕ → List ℕ → Savear → Loop (ℤ × Savear)
createar_oper_savedir walker fuel mem cwd rootdir save =
    let succeed : Loop Saved → Loop (ℤ × Savear) = λ r. elim r [
      | stuck ↦ stuck
      | waits ↦ waits
      | finished (res, costeval, save') ↦ finished (pos 0, save')
    ] in
    let relative : Loop Saved = elim (concatenate_paths path_max cwd rootdir) [
      | none ↦ waits
      | some fullpath ↦
          createar_save_directory_wrapper walker (46 ∷ []) fuel mem walker.saver.datablocksize save
            rootdir none
    ] in
    succeed (elim (bytes_eq (take 1 rootdir) (47 ∷ [])) [
      | true ↦
          createar_save_directory_wrapper walker (47 ∷ []) fuel mem walker.saver.datablocksize save
            (cut path_max rootdir) none
      | false ↦ relative
    ])
