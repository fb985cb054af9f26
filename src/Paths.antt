-- ===== src/Paths.antt =====
-- common.c: the paths of files, and the patterns that exclude them.
-- A path is its bytes without the zero at the end. `none` is a fault, a write past the end of the
-- buffer.
pub mod Parts
use fsarchiver.Base.{
  ℕ, ◌+◌, ◌-◌, Bool, true, false, not, ◌&&◌, ◌||◌, Option, none, some, List, [], ◌∷◌, ◌++◌, ltb,
  ◌==◌, if◌then◌else◌, bytes_eq, length, take, drop,
}
use fsarchiver.Base.Int.{ℤ, pos, minus_one}
use fsarchiver.Strlist.{Strlist, cut}

abbrev pub path_max : ℕ
path_max = 4096

-- `p1` without one '/' at its end.
unfoldable pub without_slash : List ℕ → List ℕ
without_slash [] = []
without_slash (c ∷ []) = if c == 47 then [] else c ∷ []
without_slash (c ∷ (d ∷ p1)) = c ∷ without_slash (d ∷ p1)

unfoldable pub skip_slashes : List ℕ → List ℕ
skip_slashes [] = []
skip_slashes (c ∷ p2) = let later = skip_slashes p2 in if c == 47 then later else c ∷ p2

-- The size that is passed on is that of the whole buffer, and not of what is left of it.
unfoldable pub concatenate_paths : ℕ → List ℕ → List ℕ → Option (List ℕ)
concatenate_paths maxbufsize p1 p2 =
    let front = without_slash p1 ++ (47 ∷ []) in
    let text = front ++ take (maxbufsize - 1) (skip_slashes p2) in
    if ltb (length text) maxbufsize then some text else none

-- What stands in front of the last '/'.
unfoldable pub before_last_slash : List ℕ → Option (List ℕ)
before_last_slash [] = none
before_last_slash (c ∷ text) = elim (before_last_slash text) [
  | some front ↦ some (c ∷ front)
  | none ↦ if c == 47 then some [] else none
]

unfoldable pub extract_dirpath : List ℕ → ℕ → List ℕ
extract_dirpath filepath dirbufsize = elim (before_last_slash (cut dirbufsize filepath)) [
  | none ↦ []
  | some [] ↦ 47 ∷ []
  | some (c ∷ front) ↦ c ∷ front
]

unfoldable pub has_slash : List ℕ → Bool
has_slash [] = false
has_slash (c ∷ text) = let later = has_slash text in if c == 47 then true else later

-- What stands behind the last '/'.
unfoldable pub after_last_slash : List ℕ → List ℕ
after_last_slash [] = []
after_last_slash (c ∷ text) =
    let later = after_last_slash text in
    if has_slash text then later else if c == 47 then text else c ∷ text

unfoldable pub extract_basename : List ℕ → ℕ → List ℕ
extract_basename filepath basenamebufsize = cut basenamebufsize (after_last_slash filepath)

unfoldable pub path_force_extension : ℕ → List ℕ → List ℕ → List ℕ
path_force_extension bufsize origpath ext =
    if ltb (length origpath) (length ext)
      || not (bytes_eq (drop (length origpath - length ext) origpath) ext)
    then cut bufsize (origpath ++ ext)
    else cut bufsize origpath

-- `fnmatch pattern string` says that the C library's function returns zero.
unfoldable pub exclude_check : (List ℕ → List ℕ → Bool) → Strlist → List ℕ → Bool
exclude_check fnmatch [] string = false
exclude_check fnmatch (pattern ∷ patlist) string =
    let later = exclude_check fnmatch patlist string in
    if fnmatch (cut 1024 pattern) string then true else later

-- What `stat64` says of a path.
pub data Found : Type 0 where
  regular other missing unknown : Found

unfoldable pub regfile_exists : (List ℕ → Found) → List ℕ → ℤ
regfile_exists stat filepath = elim (stat filepath) [
  | Found.regular ↦ pos 1
  | Found.missing ↦ pos 0
  | Found.other ↦ minus_one
  | Found.unknown ↦ minus_one
]
