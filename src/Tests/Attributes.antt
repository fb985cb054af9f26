-- ===== src/Tests/Attributes.antt =====
-- The theorems on dictionaries at concrete inputs.
use fsarchiver.Base.{◌-◌, ◌^◌, ◌≡◌, refl, some, replicate, drop, [], ◌∷◌, ◌++◌, arith}
use fsarchiver.Base.Int.{pos}
use fsarchiver.Base.Bytes.{get_le}
use fsarchiver.Dico.{
  plenty, is_duplicate, dico_add_generic, dico_get_u16, dico_get_u32, dico_get_u64, dico_add_u16,
  dico_add_u32, dico_add_u64, dico_add_string, dico_get_string,
}
use fsarchiver.Dico.Lookup.{lookup, stored_item, lookup-dico_add_generic}
use fsarchiver.Dico.Unique.{
  IsUnique, AllItems, dico_add_generic-IsUnique, dico_add_generic-AllItems,
}
use fsarchiver.Dico.Words.{dico_get-dico_add, dico_get_u32_short, dico_get_string-dico_add_string}
use fsarchiver.Tests.Sample.{sample, name_item}

lookup-dico_add_generic_example :
    lookup (dico_add_generic plenty sample 1 3 (7 ∷ 8 ∷ []) 2 5).1 1 3
    ≡ some (stored_item 1 3 (7 ∷ 8 ∷ []) 2 5)
unfolding dico_add_generic is_duplicate
lookup-dico_add_generic_example =
    lookup-dico_add_generic plenty sample 1 3 (7 ∷ 8 ∷ []) 2 5 1 3 refl

dico_add_generic-IsUnique_example : IsUnique (dico_add_generic plenty sample 1 2 (7 ∷ []) 1 5).1
unfolding is_duplicate
dico_add_generic-IsUnique_example =
    dico_add_generic-IsUnique plenty sample 1 2 (7 ∷ []) 1 5 (refl, (refl, (refl, tt)))

dico_add_generic-AllItems_example : AllItems (dico_add_generic plenty [] 1 2 (7 ∷ 8 ∷ []) 2 5).1
unfolding dico_add_generic is_duplicate
dico_add_generic-AllItems_example =
    dico_add_generic-AllItems plenty [] 1 2 (7 ∷ 8 ∷ []) 2 5 tt (omega arith) (omega arith)
      (omega arith) (omega arith) (omega arith) refl

dico_get-dico_add_example :
    (dico_get_u16 (1 ∷ 2 ∷ []) (dico_add_u16 plenty sample 3 3 513).1 3 3 ≡ (pos 0, 513))
    × (dico_get_u32 (1 ∷ 2 ∷ 3 ∷ 4 ∷ []) (dico_add_u32 plenty sample 3 3 70000).1 3 3
        ≡ (pos 0, 70000))
    × (dico_get_u64 (replicate 8 1) (dico_add_u64 plenty sample 3 3 (2 ^ 40)).1 3 3
        ≡ (pos 0, 2 ^ 40))
unfolding dico_add_u16 dico_add_u32 dico_add_u64 dico_add_generic is_duplicate
dico_get-dico_add_example =
    dico_get-dico_add plenty (1 ∷ 2 ∷ []) (1 ∷ 2 ∷ 3 ∷ 4 ∷ []) (replicate 8 1) sample 3 3 513 70000
      (2 ^ 40) refl refl refl (omega arith) (omega arith) (omega arith) refl refl refl

dico_get_u32_short_example :
    dico_get_u32 (9 ∷ 9 ∷ 9 ∷ 9 ∷ []) sample 1 2
    ≡ (pos 0, get_le ((97 ∷ 98 ∷ 0 ∷ []) ++ drop 3 (9 ∷ 9 ∷ 9 ∷ 9 ∷ [])))
unfolding lookup
dico_get_u32_short_example =
    dico_get_u32_short (9 ∷ 9 ∷ 9 ∷ 9 ∷ []) sample 1 2 name_item (97 ∷ 98 ∷ 0 ∷ []) refl
      (omega arith) (omega arith) refl

dico_get_string-dico_add_string_example :
    dico_get_string (dico_add_string plenty sample 5 6 (104 ∷ 105 ∷ [])).1 5 6 4
    ≡ (pos 0, (104 ∷ 105 ∷ []) ++ replicate (4 - 2) 0)
unfolding dico_add_string dico_add_generic is_duplicate
dico_get_string-dico_add_string_example =
    dico_get_string-dico_add_string plenty sample 5 6 (104 ∷ 105 ∷ []) 4 (omega arith) (omega arith)
      refl
