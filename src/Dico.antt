-- ===== src/Dico.antt =====
-- dico.c: the dictionary of (section, key) attributes that every header of an archive carries.
-- A `cdico` is the list of its items, oldest first. A pointer argument is the object itself, so the
-- assertions and the guards against NULL have no counterpart. An allocation may fail: `mem k` says
-- whether the k-th `malloc` of the call is granted.
pub mod Lookup
pub mod Unique
pub mod Words
use fsarchiver.Base.{
  ℕ, ◌+◌, ◌%◌, ◌^◌, Bool, true, false, not, ◌&&◌, Option, none, some, List, [], ◌∷◌, ◌++◌, ltb,
  ◌==◌, if◌then◌else◌, length, take, replicate, memcpy,
}
use fsarchiver.Base.Int.{ℤ, pos, negsuc, is_error, minus_one}
use fsarchiver.Base.Bytes.{put_le, get_le}

abbrev pub Memory : Type 0
Memory = ℕ → Bool

-- Every allocation is granted.
abbrev pub plenty : Memory
plenty k = true

-- DICTYPE_
pub data DicoType : Type 0 where
  null u8 u16 u32 u64 bytes string : DicoType

-- The enumeration's numbers, and back for one that is in it.
unfoldable pub code_of_type : DicoType → ℕ
code_of_type null = 0
code_of_type u8 = 1
code_of_type u16 = 2
code_of_type u32 = 3
code_of_type u64 = 4
code_of_type bytes = 5
code_of_type string = 6

-- `type` is the u8 that is stored, which an archive may fill with any byte. `data` is NULL (`none`)
-- for an item with no data, and for one whose data could not be allocated.
pub record DicoItem : Type 0 where
  pub type : ℕ
  pub section : ℕ
  pub key : ℕ
  pub size : ℕ
  pub contents : Option (List ℕ)

abbrev pub Dico : Type 0
Dico = List DicoItem

unfoldable pub dico_alloc : Dico
dico_alloc = []

abbrev pub has_key : ℕ → ℕ → DicoItem → Bool
has_key section key item = item.section == section && item.key == key

-- The walk that looks for a duplicate.
unfoldable pub is_duplicate : ℕ → ℕ → Dico → Bool
is_duplicate section key [] = false
is_duplicate section key (item ∷ rest) =
    let later = is_duplicate section key rest in if has_key section key item then true else later

abbrev pub new_item : ℕ → ℕ → ℕ → ℕ → Option (List ℕ) → DicoItem
new_item section key size type contents = record {
  type = type;
  section = section;
  key = key;
  size = size;
  contents = contents;
}

-- `src` is what `data` points to. An item whose data cannot be allocated stays in the list.
unfoldable pub dico_add_generic : Memory → Dico → ℕ → ℕ → List ℕ → ℕ → ℕ → ℤ × Dico
unfolding is_duplicate
dico_add_generic mem d section key src size type =
    if not (mem 0)
    then (negsuc 2, d)
    else if is_duplicate section key d
    then (negsuc 2, d)
    else if ltb 0 size
    then (if mem 1
        then (pos 0, d ++ (new_item section key size type (some (take size src)) ∷ []))
        else (negsuc 2, d ++ (new_item section key size type none ∷ [])))
    else (pos 0, d ++ (new_item section key size type none ∷ []))

unfoldable pub dico_add_data : Memory → Dico → ℕ → ℕ → List ℕ → ℕ → ℤ × Dico
unfolding dico_add_generic code_of_type
dico_add_data mem d section key src size =
    dico_add_generic mem d section key src size (code_of_type bytes)

unfoldable pub dico_add_u16 : Memory → Dico → ℕ → ℕ → ℕ → ℤ × Dico
unfolding dico_add_generic code_of_type
dico_add_u16 mem d section key x =
    dico_add_generic mem d section key (put_le 2 x) 2 (code_of_type u16)

unfoldable pub dico_add_u32 : Memory → Dico → ℕ → ℕ → ℕ → ℤ × Dico
unfolding dico_add_generic code_of_type
dico_add_u32 mem d section key x =
    dico_add_generic mem d section key (put_le 4 x) 4 (code_of_type u32)

unfoldable pub dico_add_u64 : Memory → Dico → ℕ → ℕ → ℕ → ℤ × Dico
unfolding dico_add_generic code_of_type
dico_add_u64 mem d section key x =
    dico_add_generic mem d section key (put_le 8 x) 8 (code_of_type u64)

-- `text` is the string without its terminating zero. `len` is a u16, and so is the `size` argument.
unfoldable pub dico_add_string : Memory → Dico → ℕ → ℕ → List ℕ → ℤ × Dico
unfolding dico_add_generic code_of_type
dico_add_string mem d section key text =
    let len = length text % 2 ^ 16 in
    dico_add_generic mem d section key (text ++ (0 ∷ [])) ((len + 1) % 2 ^ 16) (code_of_type string)

-- The copy to the caller's buffer, which keeps what stands past the item's size.
unfoldable pub copy_contents : DicoItem → List ℕ → List ℕ
copy_contents item buffer =
    if ltb 0 item.size
    then elim item.contents [ none ↦ buffer | some bs ↦ memcpy buffer 0 bs ]
    else buffer

-- The walk of `dico_get_generic`; the result, `*data` and `*size`.
unfoldable pub dico_find : Dico → ℕ → ℕ → List ℕ → ℕ → ℤ × List ℕ × ℕ
unfolding copy_contents
dico_find [] section key buffer maxsize = (negsuc 4, buffer, 0)
dico_find (item ∷ rest) section key buffer maxsize =
    let later = dico_find rest section key buffer maxsize in
    if has_key section key item
    then (if ltb maxsize item.size
        then (negsuc 3, buffer, 0)
        else (pos 0, copy_contents item buffer, item.size))
    else later

unfoldable pub dico_get_generic : Dico → ℕ → ℕ → List ℕ → ℕ → ℤ × List ℕ × ℕ
unfolding dico_find
dico_get_generic [] section key buffer maxsize = (minus_one, buffer, 0)
dico_get_generic (item ∷ rest) section key buffer maxsize =
    if ltb maxsize 1
    then (negsuc 2, buffer, 0)
    else dico_find (item ∷ rest) section key buffer maxsize

unfoldable pub dico_get_data : Dico → ℕ → ℕ → List ℕ → ℕ → ℤ × List ℕ × ℕ
unfolding dico_get_generic
dico_get_data d section key buffer maxsize = dico_get_generic d section key buffer maxsize

-- The common text of the three readers of a number: `junk` is the word `ledata` on the stack, which
-- is not initialised, and `w` its size.
unfoldable pub get_word : ℕ → List ℕ → Dico → ℕ → ℕ → ℤ × ℕ
unfolding dico_get_data
get_word w junk d section key =
    let (res, ledata, size) = dico_get_data d section key junk w in
    if is_error res then (minus_one, 0) else (pos 0, get_le ledata)

unfoldable pub dico_get_u16 : List ℕ → Dico → ℕ → ℕ → ℤ × ℕ
unfolding get_word
dico_get_u16 junk d section key = get_word 2 junk d section key

unfoldable pub dico_get_u32 : List ℕ → Dico → ℕ → ℕ → ℤ × ℕ
unfolding get_word
dico_get_u32 junk d section key = get_word 4 junk d section key

unfoldable pub dico_get_u64 : List ℕ → Dico → ℕ → ℕ → ℤ × ℕ
unfolding get_word
dico_get_u64 junk d section key = get_word 8 junk d section key

-- The result and the caller's buffer, which is cleared first.
unfoldable pub dico_get_string : Dico → ℕ → ℕ → ℕ → ℤ × List ℕ
unfolding dico_get_data
dico_get_string d section key bufsize =
    let (res, buffer, size) = dico_get_data d section key (replicate bufsize 0) bufsize in
    (res, buffer)

-- Both counters are an `int`; no dictionary has 2 ^ 31 items.
unfoldable pub dico_count_one_section : Dico → ℕ → ℕ
dico_count_one_section [] section = 0
dico_count_one_section (item ∷ rest) section =
    (if item.section == section then 1 else 0) + dico_count_one_section rest section

unfoldable pub dico_count_all_sections : Dico → ℕ
dico_count_all_sections [] = 0
dico_count_all_sections (item ∷ rest) = 1 + dico_count_all_sections rest
