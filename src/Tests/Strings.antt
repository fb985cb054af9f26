-- ===== src/Tests/Strings.antt =====
-- The theorems on lists of strings and on the table of links at concrete inputs.
use fsarchiver.Base.{ℕ, ◌≡◌, refl, some, List, [], ◌∷◌, bytes_eq, arith}
use fsarchiver.Base.Int.{pos}
use fsarchiver.Dico.{plenty}
use fsarchiver.Strlist.{Strlist, strlist_exists, strlist_merge, strlist_split}
use fsarchiver.Strlist.Distinct.{IsStrlist}
use fsarchiver.Strlist.Split.{strlist_split-strlist_merge}
use fsarchiver.Dichl.{Dichl, has_duplicate, dichl_add, dichl_get}
use fsarchiver.Dichl.Lookup.{dichl_get-dichl_add}

abbrev strings : Strlist
strings = (97 ∷ 98 ∷ []) ∷ (99 ∷ []) ∷ []

strings-IsStrlist : IsStrlist strings
unfolding strlist_exists bytes_eq
strings-IsStrlist = (refl, refl, (refl, refl, tt))

strlist_split-strlist_merge_example :
    (text : List ℕ) × (strlist_merge strings 16 44 ≡ some text)
    × (strlist_split plenty [] text 44 ≡ (pos 0, strings))
strlist_split-strlist_merge_example =
    strlist_split-strlist_merge strings [] 44 16 refl strings-IsStrlist
      ((refl, (refl, tt)), ((refl, tt), tt)) (omega arith)

abbrev links : Dichl
links = record { key1 = 1; key2 = 2; str = 47 ∷ 97 ∷ [] } ∷ []

dichl_get-dichl_add_example :
    dichl_get (dichl_add plenty links 1 3 (47 ∷ 98 ∷ [])).1 1 3 8 ≡ (pos 0, some (47 ∷ 98 ∷ []))
unfolding dichl_add has_duplicate
dichl_get-dichl_add_example =
    dichl_get-dichl_add plenty links 1 3 (47 ∷ 98 ∷ []) 1 3 8 refl (omega arith)
