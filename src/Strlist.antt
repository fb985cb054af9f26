-- ===== src/Strlist.antt =====
-- strlist.c: lists of strings, such as the paths that are excluded.
-- A list is its strings, oldest first, and a string is its bytes without the zero at the end; a
-- buffer is the string that it holds. `mem k` says whether the k-th allocation of the call is granted.
pub mod Distinct
pub mod Split
use fsarchiver.Base.{
  ℕ, zero, suc, ◌+◌, ◌-◌, Bool, true, false, not, ◌&&◌, Option, none, some, List, [], ◌∷◌, ◌++◌,
  ltb, ◌==◌, if◌then◌else◌, bytes_eq, length, get_elem?, take,
}
use fsarchiver.Base.Int.{ℤ, pos, is_error, minus_one}
use fsarchiver.Dico.{Memory}
use fsarchiver.Writebuf.{from_nth}

abbrev pub Strlist : Type 0
Strlist = List (List ℕ)

unfoldable pub strlist_init : Strlist
strlist_init = []

unfoldable pub strlist_empty : Strlist → ℤ × Strlist
strlist_empty l = (pos 0, [])

unfoldable pub strlist_exists : Strlist → List ℕ → Bool
strlist_exists [] str = false
strlist_exists (item ∷ rest) str =
    let later = strlist_exists rest str in if bytes_eq item str then true else later

unfoldable pub strlist_add : Memory → Strlist → List ℕ → ℤ × Strlist
strlist_add mem l str =
    if length str == 0
    then (minus_one, l)
    else if strlist_exists l str
    then (minus_one, l)
    else if not (mem 0)
    then (minus_one, l)
    else if not (mem 1)
    then (minus_one, l)
    else (pos 0, l ++ (str ∷ []))

-- `snprintf(buf, bufsize, "%s", str)`
abbrev pub cut : ℕ → List ℕ → List ℕ
cut bufsize str = take (bufsize - 1) str

-- The result, and what the caller's buffer holds where it is written.
unfoldable pub strlist_getitem : Strlist → ℕ → ℕ → ℤ × Option (List ℕ)
strlist_getitem l index bufsize =
    if bufsize == 0 then (minus_one, none) else elim (get_elem? l index) [
      | none ↦ (minus_one, none)
      | some str ↦ (pos 0, some (cut bufsize str))
    ]

unfoldable pub strlist_remove : Strlist → List ℕ → ℤ × Strlist
strlist_remove [] str = (minus_one, [])
strlist_remove (item ∷ rest) str =
    let (res, rest') = strlist_remove rest str in
    if bytes_eq item str then (pos 0, rest) else (res, item ∷ rest')

-- common.c, `strlcatf` of a string: what fits in front of the zero is written.
unfoldable pub strlcatf : List ℕ → ℕ → List ℕ → List ℕ
strlcatf dest destbufsize str = dest ++ take (destbufsize - 1 - length dest) str

-- `strlcatf(buf, bufsize, "%c", sep)`: a separator that is zero writes an empty string.
abbrev pub sep_text : ℕ → List ℕ
sep_text sep = if sep == 0 then [] else sep ∷ []

unfoldable pub merge_rest : Strlist → List ℕ → ℕ → ℕ → List ℕ
merge_rest [] bufdat bufsize sep = bufdat
merge_rest (item ∷ rest) bufdat bufsize sep =
    merge_rest rest (strlcatf (strlcatf bufdat bufsize (sep_text sep)) bufsize item) bufsize sep

unfoldable pub strlist_merge : Strlist → ℕ → ℕ → Option (List ℕ)
strlist_merge l bufsize sep =
    if bufsize == 0
    then none
    else some
        (elim l [ [] ↦ [] | item ∷ rest ↦ merge_rest rest (strlcatf [] bufsize item) bufsize sep ])

-- What the calls of `strtok_r` return: the longest parts of the text without the separator, `part`
-- being the one that has been begun.
unfoldable pub tokens : ℕ → List ℕ → List ℕ → List (List ℕ)
tokens sep [] [] = []
tokens sep (p ∷ part) [] = (p ∷ part) ∷ []
tokens sep [] (c ∷ text) =
    let ended = tokens sep [] text in
    let longer = tokens sep (c ∷ []) text in if c == sep then ended else longer
tokens sep (p ∷ part) (c ∷ text) =
    let ended = tokens sep [] text in
    let longer = tokens sep ((p ∷ part) ++ (c ∷ [])) text in
    if c == sep then (p ∷ part) ∷ ended else longer

unfoldable pub add_tokens : Memory → Strlist → List (List ℕ) → ℤ × Strlist
add_tokens mem l [] = (pos 0, l)
add_tokens mem l (token ∷ rest) =
    let (res, l') = strlist_add mem l token in
    let later = add_tokens (from_nth 2 mem) l' rest in
    if is_error res then (minus_one, l') else later

unfoldable pub strlist_split : Memory → Strlist → List ℕ → ℕ → ℤ × Strlist
strlist_split mem l text sep =
    if not (mem 0) then (minus_one, []) else add_tokens (from_nth 1 mem) [] (tokens sep [] text)

unfoldable pub strlist_count : Strlist → ℕ
strlist_count [] = 0
strlist_count (item ∷ rest) = 1 + strlist_count rest
