-- ===== src/Strdico.antt =====
-- strdico.c: dictionaries of strings, for the settings "key=value,..." of the command line.
-- A string is its bytes without the zero at the end, and a buffer is the string that it holds. The
-- items are newest first. `mem k` says whether the k-th allocation of the call is granted.
pub mod Number
pub mod Lookup
pub mod Parse
pub mod Values
use fsarchiver.Base.{
  ℕ, zero, suc, ◌+◌, ◌-◌, Bool, true, false, not, ◌||◌, Option, none, some, List, [], ◌∷◌, ◌++◌,
  ltb, ◌==◌, if◌then◌else◌, bytes_eq, length, take,
}
use fsarchiver.Base.Int.{ℤ, pos, is_error, minus_one}
use fsarchiver.Base.Code
use fsarchiver.Dico.{Memory}
use fsarchiver.Writebuf.{from_nth}
use fsarchiver.Strlist.{cut}
use fsarchiver.Strdico.Number.{strtoll}

-- `value` is none where the pointer is NULL.
pub record StrdicoItem : Type 0 where
  pub key : List ℕ
  pub value : Option (List ℕ)

pub record Strdico : Type 0 where
  pub items : List StrdicoItem
  pub validkeys : Option (List ℕ)

unfoldable pub strdico_alloc : Memory → Option Strdico
strdico_alloc mem = if mem 0 then some (record { items = []; validkeys = none }) else none

-- After a failure of `strdup` there is no restriction.
unfoldable pub strdico_set_valid_keys : Memory → Strdico → List ℕ → ℤ × Strdico
strdico_set_valid_keys mem d keys =
    if mem 0
    then (Code.success, record d { validkeys = some keys })
    else (Code.enomem, record d { validkeys = none })

-- The delimiters ",;\t\n".
abbrev pub is_delim : ℕ → Bool
is_delim c = (c == 44) || (c == 59) || (c == 9) || (c == 10)

-- What the calls of `strtok_r` return, `part` being the word that has been begun.
unfoldable pub words : List ℕ → List ℕ → List (List ℕ)
words [] [] = []
words (p ∷ part) [] = (p ∷ part) ∷ []
words [] (c ∷ text) =
    let ended = words [] text in
    let longer = words (c ∷ []) text in if is_delim c then ended else longer
words (p ∷ part) (c ∷ text) =
    let ended = words [] text in
    let longer = words ((p ∷ part) ++ (c ∷ [])) text in
    if is_delim c then (p ∷ part) ∷ ended else longer

unfoldable pub is_among : List (List ℕ) → List ℕ → Bool
is_among [] key = false
is_among (result ∷ rest) key =
    let later = is_among rest key in if bytes_eq result key then true else later

-- The first item with this key gets the value; none where there is no such item.
unfoldable pub modify_item : List StrdicoItem → List ℕ → Option (List ℕ) → Option (List StrdicoItem)
modify_item [] key value = none
modify_item (item ∷ rest) key value =
    let later = modify_item rest key value in
    if bytes_eq item.key key
    then some (record item { value = value } ∷ rest)
    else elim later [ none ↦ none | some rest' ↦ some (item ∷ rest') ]

-- The two cases at the end. The value of an item is lost where its new value cannot be allocated.
unfoldable pub store_value : Memory → Strdico → List ℕ → List ℕ → ℤ × Strdico
store_value mem d key value = elim (modify_item d.items key (if mem 1 then some value else none)) [
  | some items' ↦ (if mem 1 then Code.success else pos 2, record d { items = items' })
  | none ↦
      if not (mem 1)
      then (pos 2, d)
      else if not (mem 2)
      then (pos 2, d)
      else if not (mem 3)
      then (pos 2, d)
      else (Code.success, record d { items = record { key = key; value = some value } ∷ d.items })
]

unfoldable pub strdico_set_value : Memory → Strdico → List ℕ → List ℕ → ℤ × Strdico
strdico_set_value mem d key value = elim d.validkeys [
  | none ↦ store_value mem d key value
  | some keys ↦
      if not (mem 0)
      then (Code.enomem, d)
      else if not (is_among (words [] keys) key)
      then (Code.einval, d)
      else store_value mem d key value
]

-- What stands in front of the first '=', `room` bytes at most, and the rest.
unfoldable pub scan_key : ℕ → List ℕ → List ℕ × List ℕ
scan_key zero text = ([], text)
scan_key (suc room) [] = ([], [])
scan_key (suc room) (c ∷ text) =
    let (key, rest) = scan_key room text in if c == 61 then ([], c ∷ text) else (c ∷ key, rest)

abbrev pub key_max : ℕ
key_max = 1023

-- The key and the value of one definition.
unfoldable pub parse_definition : List ℕ → Option (List ℕ × List ℕ)
parse_definition result =
    let (key, rest) = scan_key key_max result in
    elim rest [ [] ↦ none | c ∷ text ↦ if c == 61 then some (key, take key_max text) else none ]

unfoldable pub parse_words : Memory → Strdico → List (List ℕ) → ℤ × Strdico
parse_words mem d [] = (Code.success, d)
parse_words mem d (result ∷ rest) = elim (parse_definition result) [
  | none ↦ (Code.einval, d)
  | some (key, value) ↦
      let (res, d') = strdico_set_value mem d key value in
      let later = parse_words (from_nth 4 mem) d' rest in if is_error res then (res, d') else later
]

unfoldable pub strdico_parse_string : Memory → Strdico → List ℕ → ℤ × Strdico
strdico_parse_string mem d strdefs =
    if mem 0 then parse_words (from_nth 1 mem) d (words [] strdefs) else (Code.enomem, d)

unfoldable pub find_value : List StrdicoItem → List ℕ → Option (Option (List ℕ))
find_value [] key = none
find_value (item ∷ rest) key =
    let later = find_value rest key in if bytes_eq item.key key then some item.value else later

-- The result, and the string in the buffer.
unfoldable pub strdico_get_string : Strdico → ℕ → List ℕ → ℤ × List ℕ
strdico_get_string d outbufsize key = elim (find_value d.items key) [
  | none ↦ (Code.enoent, [])
  | some value ↦ (Code.success, elim value [ none ↦ [] | some str ↦ cut outbufsize str ])
]

-- The result, and the number.
unfoldable pub strdico_get_s64 : Strdico → List ℕ → ℤ × ℤ
strdico_get_s64 d key =
    let (res, buffer) = strdico_get_string d 1024 key in
    let (value, range_error, rest) = strtoll buffer in
    if is_error res
    then (res, minus_one)
    else if length buffer == 0
    then (Code.einval, minus_one)
    else if range_error || ltb 0 (length rest)
    then (Code.einval, value)
    else (Code.success, value)
