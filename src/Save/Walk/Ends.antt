-- ===== src/Save/Walk/Ends.antt =====
-- oper_save.c, createar_save_directory: the walk ends, since a path grows with each directory.
use fsarchiver.Base.{
  ℕ, zero, suc, ◌+◌, ◌≤◌, ◌<◌, ◌≡◌, ◌≢◌, refl, false, Option, some, List, [], ◌∷◌, ◌++◌, arith,
  length, take, length-append, Option-cases, inl, inr,
}
use fsarchiver.Base.Int.{pos, negsuc}
use fsarchiver.Base.Loop.{Loop, finished, waits, stuck}
use fsarchiver.Paths.{path_max, without_slash, skip_slashes, concatenate_paths, has_slash}
use fsarchiver.Source
use fsarchiver.Save.Files.{Savear}
use fsarchiver.Save.Walk.{
  Walker, Saved, save_file, save_entry, save_entries, createar_save_directory,
}

-- `readdir` returns the name of a file: it is not empty, and has no '/'.
abbrev pub AreNames : List (List ℕ) → Type 0
AreNames [] = Unit
AreNames (name ∷ rest) = (1 ≤ length name) × (has_slash name ≡ false) × AreNames rest

abbrev pub HasNames : Walker → Type 0
HasNames walker =
    (dir : List ℕ) (names : List (List ℕ))
    → walker.saver.src.readdir dir ≡ some names
    → AreNames names

skip_slashes-file : (name : List ℕ) → has_slash name ≡ false → skip_slashes name ≡ name
unfolding skip_slashes has_slash
skip_slashes-file [] h = refl
skip_slashes-file (c ∷ name) h = ground (arith, h)

length-without_slash : (p : List ℕ) → length p ≤ length (without_slash p) + 1
unfolding without_slash
length-without_slash [] = ground arith
length-without_slash (c ∷ []) = ground arith
length-without_slash (c ∷ (d ∷ p)) = ground (arith, length-without_slash (d ∷ p))

take_not_empty : (n : ℕ) (name : List ℕ) → 1 ≤ n → 1 ≤ length name → 1 ≤ length (take n name)
take_not_empty zero name h e = absurd (omega (arith, h))
take_not_empty (suc n) [] h e = absurd (omega (arith, e))
take_not_empty (suc n) (c ∷ name) h e = omega arith

-- The path of an entry is longer than the one of its directory, and fits its buffer.
concatenate_paths-longer :
    (path name relpath : List ℕ)
    → 1 ≤ length name
    → has_slash name ≡ false
    → concatenate_paths path_max path name ≡ some relpath
    → (length path < length relpath) × (length relpath < path_max)
unfolding concatenate_paths
concatenate_paths-longer path name relpath h e s =
    let front = without_slash path in
    ground (
      arith,
      s,
      skip_slashes-file name e,
      length-without_slash path,
      take_not_empty 4095 name (omega arith) h,
      length-append (front ++ (47 ∷ [])) (take 4095 name),
      length-append front (47 ∷ []),
    )

module _ (walker : Walker) (root : List ℕ) where
  save_file-ends :
      (save : Savear) (relpath : List ℕ) (s : Source.Stat) (costeval : Option ℕ)
      → save_file walker root save relpath s costeval ≢ stuck
  save_file-ends save relpath s costeval = ground arith

  -- `below` ends for the paths that are longer than `path`.
  abbrev Goes : ℕ → (Savear → List ℕ → Option ℕ → Loop Saved) → Type 0
  Goes n below =
      (save : Savear) (relpath : List ℕ) (costeval : Option ℕ)
      → n < length relpath
      → length relpath < path_max
      → below save relpath costeval ≢ stuck

  save_entry-ends :
      (below : Savear → List ℕ → Option ℕ → Loop Saved) (path fulldirpath name : List ℕ)
      (save : Savear) (costeval : Option ℕ)
      → 1 ≤ length name
      → has_slash name ≡ false
      → Goes (length path) below
      → save_entry walker root below path fulldirpath name save costeval ≢ stuck
  unfolding save_entry
  save_entry-ends below path fulldirpath name save costeval h e goes =
      elim (Option-cases (concatenate_paths path_max path name)) [
        | inl n ↦ ground (arith, n)
        | inr (relpath, s) ↦
            let (longer, fits) = concatenate_paths-longer path name relpath h e s in
            ground (arith, s, goes save relpath costeval longer fits)
      ]

  entries_end :
      (below : Savear → List ℕ → Option ℕ → Loop Saved) (path fulldirpath name : List ℕ)
      (rest : List (List ℕ)) (save : Savear) (costeval : Option ℕ)
      → ((save' : Savear) (costeval' : Option ℕ)
          → save_entries walker root below path fulldirpath rest save' costeval' ≢ stuck)
      → (r : Loop Saved) → save_entry walker root below path fulldirpath name save costeval ≡ r
      → r ≢ stuck
      → save_entries walker root below path fulldirpath (name ∷ rest) save costeval ≢ stuck
  unfolding save_entries
  entries_end below path fulldirpath name rest save costeval ih stuck e h = absurd (h refl)
  entries_end below path fulldirpath name rest save costeval ih waits e h = ground (arith, e)
  entries_end below path fulldirpath name rest save costeval ih (finished (pos zero, c, s)) e h =
      ground (arith, e, ih s c)
  entries_end below path fulldirpath name rest save costeval ih (finished (pos (suc n), c, s)) e h =
      ground (arith, e)
  entries_end below path fulldirpath name rest save costeval ih (finished (negsuc n, c, s)) e h =
      ground (arith, e)

  save_entries-ends :
      (below : Savear → List ℕ → Option ℕ → Loop Saved) (path fulldirpath : List ℕ)
      (names : List (List ℕ)) (save : Savear) (costeval : Option ℕ)
      → AreNames names
      → Goes (length path) below
      → save_entries walker root below path fulldirpath names save costeval ≢ stuck
  unfolding save_entries
  save_entries-ends below path fulldirpath [] save costeval h goes = ground arith
  save_entries-ends below path fulldirpath (name ∷ rest) save costeval (h, e, hs) goes =
      entries_end below path fulldirpath name rest save costeval
        (λ save' c. save_entries-ends below path fulldirpath rest save' c hs goes)
        (save_entry walker root below path fulldirpath name save costeval) refl
        (save_entry-ends below path fulldirpath name save costeval h e goes)

  after_file :
      (fuel : ℕ) (save : Savear) (path fulldirpath : List ℕ) (costeval : Option ℕ)
      (names : List (List ℕ)) (s : Source.Stat)
      → ((save' : Savear) (c : Option ℕ)
          → save_entries walker root
              (λ save'' relpath c'. createar_save_directory walker root fuel save'' relpath c')
              path
              fulldirpath
              names
              save'
              c
            ≢ stuck)
      → concatenate_paths path_max root path ≡ some fulldirpath
      → walker.saver.src.readdir fulldirpath ≡ some names
      → walker.saver.src.lstat fulldirpath ≡ some s
      → (r : Loop Saved) → save_file walker root save path s costeval ≡ r
      → r ≢ stuck
      → createar_save_directory walker root (suc fuel) save path costeval ≢ stuck
  unfolding createar_save_directory
  after_file fuel save path dir costeval names s ih e1 e2 e3 stuck e h = absurd (h refl)
  after_file fuel save path dir costeval names s ih e1 e2 e3 waits e h =
      ground (arith, e1, e2, e3, e)
  after_file fuel save path dir costeval names s ih e1 e2 e3 (finished (pos zero, c, save')) e h =
      ground (arith, e1, e2, e3, e, ih save' c)
  after_file fuel save path dir costeval names s ih e1 e2 e3 (finished (pos (suc n), c, save')) e
        h =
      ground (arith, e1, e2, e3, e)
  after_file fuel save path dir costeval names s ih e1 e2 e3 (finished (negsuc n, c, save')) e h =
      ground (arith, e1, e2, e3, e)

  directory_ends :
      (fuel : ℕ) (save : Savear) (path : List ℕ) (costeval : Option ℕ)
      → HasNames walker
      → Goes
          (length path)
          (λ save'' relpath c. createar_save_directory walker root fuel save'' relpath c)
      → createar_save_directory walker root (suc fuel) save path costeval ≢ stuck
  unfolding createar_save_directory
  directory_ends fuel save path costeval names_ok goes =
      elim (Option-cases (concatenate_paths path_max root path)) [
        | inl n1 ↦ ground (arith, n1)
        | inr (dir, e1) ↦ elim (Option-cases (walker.saver.src.readdir dir)) [
          | inl n2 ↦ ground (arith, e1, n2)
          | inr (names, e2) ↦ elim (Option-cases (walker.saver.src.lstat dir)) [
            | inl n3 ↦ ground (arith, e1, e2, n3)
            | inr (s, e3) ↦
                after_file fuel save path dir costeval names s
                  (λ save' c.
                    save_entries-ends
                      (λ save'' relpath c'.
                        createar_save_directory walker root fuel save'' relpath c')
                      path dir names save' c (names_ok dir names e2) goes)
                  e1 e2 e3 (save_file walker root save path s costeval) refl
                  (save_file-ends save path s costeval)
          ]
        ]
      ]

  -- When `readdir` returns names of files, saving a directory and what is below it ends, or is at
  -- fault or waits for the writer, whatever the file system holds, cycles included: more
  -- levels than PATH_MAX less the length of the path where the walk begins are enough, if this path is
  -- shorter than PATH_MAX.
  pub createar_save_directory-ends :
      (fuel : ℕ) (save : Savear) (path : List ℕ) (costeval : Option ℕ)
      → HasNames walker
      → path_max < fuel + length path
      → length path < path_max
      → createar_save_directory walker root fuel save path costeval ≢ stuck
  createar_save_directory-ends zero save path costeval names_ok h fits =
      absurd (omega (arith, h, fits))
  createar_save_directory-ends (suc fuel) save path costeval names_ok h fits =
      directory_ends fuel save path costeval names_ok (λ save' relpath c longer fits'.
        createar_save_directory-ends fuel save' relpath c names_ok (omega (arith, h, longer)) fits')
