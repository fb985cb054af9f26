-- ===== src/Dichl.antt =====
-- dichl.c: the table by which the files of one inode are found again, from two numbers to a path.
-- `mem k` says whether the k-th allocation of the call is granted.
pub mod Lookup
use fsarchiver.Base.{
  ℕ, ◌+◌, Bool, true, false, not, ◌&&◌, Option, none, some, List, [], ◌∷◌, ◌++◌, ltb, ◌==◌,
  if◌then◌else◌, length, take, ◌-◌,
}
use fsarchiver.Base.Int.{ℤ, pos, negsuc, minus_one}
use fsarchiver.Dico.{Memory}

pub record DichlItem : Type 0 where
  pub key1 : ℕ
  pub key2 : ℕ
  pub str : List ℕ

abbrev pub Dichl : Type 0
Dichl = List DichlItem

unfoldable pub dichl_alloc : Dichl
dichl_alloc = []

abbrev pub has_keys : ℕ → ℕ → DichlItem → Bool
has_keys key1 key2 item = item.key1 == key1 && item.key2 == key2

-- The walk that looks for a duplicate.
unfoldable pub has_duplicate : Dichl → ℕ → ℕ → Bool
has_duplicate [] key1 key2 = false
has_duplicate (item ∷ rest) key1 key2 =
    let later = has_duplicate rest key1 key2 in if has_keys key1 key2 item then true else later

unfoldable pub dichl_add : Memory → Dichl → ℕ → ℕ → List ℕ → ℤ × Dichl
dichl_add mem d key1 key2 str =
    if not (mem 0)
    then (minus_one, d)
    else if not (mem 1)
    then (minus_one, d)
    else if has_duplicate d key1 key2
    then (minus_one, d)
    else (pos 0, d ++ (record { key1 = key1; key2 = key2; str = str } ∷ []))

-- The result, and the string that the caller's buffer holds where it is written.
unfoldable pub dichl_get : Dichl → ℕ → ℕ → ℕ → ℤ × Option (List ℕ)
dichl_get [] key1 key2 bufsize = (negsuc 2, none)
dichl_get (item ∷ rest) key1 key2 bufsize =
    let later = dichl_get rest key1 key2 bufsize in
    if has_keys key1 key2 item
    then (if ltb bufsize (length item.str + 1)
        then (negsuc 1, none)
        else (pos 0, some (take (bufsize - 1) item.str)))
    else later
