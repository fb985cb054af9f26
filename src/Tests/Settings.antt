-- ===== src/Tests/Settings.antt =====
-- The theorems on dictionaries of settings at concrete inputs.
use fsarchiver.Base.{
  ℕ, suc, ◌≡◌, refl, some, List, [], ◌∷◌, ◌==◌, arith, if◌then◌else◌, bytes_eq, ◌&&◌,
}
use fsarchiver.Base.Int.{pos}
use fsarchiver.Base.Code
use fsarchiver.Dico.{plenty}
use fsarchiver.Strlist.{cut}
use fsarchiver.ArchWriter.Volumes.{digits}
use fsarchiver.Strdico.{
  Strdico, words, is_among, strdico_set_value, strdico_parse_string, strdico_get_string,
  strdico_get_s64, store_value, modify_item,
}
use fsarchiver.Strdico.Lookup.{accepts, strdico_get_string-strdico_set_value}
use fsarchiver.Strdico.Parse.{definitions_text, last_value, strdico_parse_string-definitions_text}
use fsarchiver.Strdico.Values.{strdico_get_s64-strdico_set_value}

-- The valid keys are "id,dest", and "id" is "0".
abbrev settings : Strdico
settings = record {
  items = record { key = 105 ∷ 100 ∷ []; value = some (48 ∷ []) } ∷ [];
  validkeys = some (105 ∷ 100 ∷ 44 ∷ 100 ∷ 101 ∷ 115 ∷ 116 ∷ []);
}

strdico_get_string-strdico_set_value_example :
    ((strdico_set_value plenty settings (105 ∷ 100 ∷ []) (49 ∷ [])).0
      ≡ (if accepts settings.validkeys (105 ∷ 100 ∷ []) then Code.success else Code.einval))
    × (strdico_get_string
          (strdico_set_value plenty settings (105 ∷ 100 ∷ []) (49 ∷ [])).1
          8
          (105 ∷ 100 ∷ [])
        ≡ (if accepts settings.validkeys (105 ∷ 100 ∷ [])
              && bytes_eq (105 ∷ 100 ∷ []) (105 ∷ 100 ∷ [])
            then (Code.success, cut 8 (49 ∷ []))
            else strdico_get_string settings 8 (105 ∷ 100 ∷ [])))
    × ((strdico_set_value plenty settings (105 ∷ 100 ∷ []) (49 ∷ [])).1.validkeys
        ≡ settings.validkeys)
strdico_get_string-strdico_set_value_example =
    strdico_get_string-strdico_set_value settings (105 ∷ 100 ∷ []) (49 ∷ []) (105 ∷ 100 ∷ []) 8

-- "id=1" and "dest=/"
abbrev definitions : List (List ℕ × List ℕ)
definitions = (105 ∷ 100 ∷ [], 49 ∷ []) ∷ (100 ∷ 101 ∷ 115 ∷ 116 ∷ [], 47 ∷ []) ∷ []

strdico_parse_string-definitions_text_example :
    ((strdico_parse_string plenty settings (definitions_text definitions)).0 ≡ Code.success)
    × (strdico_get_string
          (strdico_parse_string plenty settings (definitions_text definitions)).1
          1024
          (105 ∷ 100 ∷ [])
        ≡ last_value definitions
            (105 ∷ 100 ∷ [])
            (strdico_get_string settings 1024 (105 ∷ 100 ∷ [])))
unfolding words is_among bytes_eq
strdico_parse_string-definitions_text_example =
    strdico_parse_string-definitions_text definitions settings (105 ∷ 100 ∷ []) 1024
      (
        ((refl, (refl, tt)), (refl, (refl, tt)), (refl, tt), omega arith, omega arith),
        (
          (
            (refl, (refl, (refl, (refl, tt)))),
            (refl, (refl, (refl, (refl, tt)))),
            (refl, tt),
            omega arith,
            omega arith,
          ),
          tt,
        ),
      )
      (refl, (refl, tt)) (omega arith)

strdico_get_s64-strdico_set_value_example :
    strdico_get_s64
      (strdico_set_value plenty settings (105 ∷ 100 ∷ []) (digits (suc 17) 17)).1
      (105 ∷ 100 ∷ [])
    ≡ (Code.success, pos 17)
unfolding words is_among bytes_eq
strdico_get_s64-strdico_set_value_example =
    strdico_get_s64-strdico_set_value settings (105 ∷ 100 ∷ []) 17 refl (omega arith)

-- A value that cannot be replaced is lost, and the result of the call is positive.
set_without_memory : (strdico_set_value (λ k. k == 0) settings (105 ∷ 100 ∷ []) (49 ∷ [])).0 ≡ pos 2
unfolding strdico_set_value store_value modify_item words is_among bytes_eq
set_without_memory = refl
