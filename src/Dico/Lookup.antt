-- ===== src/Dico/Lookup.antt =====
-- dico.c as a finite map from (section, key) to an item.
use fsarchiver.Base.{
  ℕ, ◌<◌, ◌≡◌, refl, Bool, true, false, ◌&&◌, Option, none, some, List, [], ◌∷◌, ◌++◌, arith, ltb,
  ◌==◌, if◌then◌else◌, take,
}
use fsarchiver.Base.Int.{ℤ, pos, negsuc, is_error}
use fsarchiver.Dico.{
  Memory, DicoItem, Dico, has_key, new_item, is_duplicate, copy_contents, dico_add_generic,
  dico_find, dico_get_generic,
}

-- The first item with this section and key.
unfoldable pub lookup : Dico → ℕ → ℕ → Option DicoItem
lookup [] s k = none
lookup (item ∷ rest) s k =
    let later = lookup rest s k in if has_key s k item then some item else later

abbrev pub is_some {ℓ} : {A : Type ℓ} → Option A → Bool
is_some none = false
is_some (some _) = true

pub is_duplicate-is_some : (d : Dico) (s k : ℕ) → is_duplicate s k d ≡ is_some (lookup d s k)
unfolding is_duplicate lookup
is_duplicate-is_some [] s k = refl
is_duplicate-is_some (item ∷ rest) s k = ground (arith, is_duplicate-is_some rest s k)

-- What `d ++ item` holds: the items of `d` come first.
pub lookup-append :
    (d : Dico) (item : DicoItem) (s k : ℕ)
    → lookup (d ++ (item ∷ [])) s k ≡ (
        if is_some (lookup d s k)
        then lookup d s k
        else if has_key s k item
        then some item
        else none)
unfolding lookup
lookup-append [] item s k = refl
lookup-append (x ∷ rest) item s k = ground (arith, lookup-append rest item s k)

-- The item that a successful `dico_add_generic` appends.
abbrev pub stored_item : ℕ → ℕ → List ℕ → ℕ → ℕ → DicoItem
stored_item section key src size type =
    new_item section key size type (if ltb 0 size then some (take size src) else none)

-- `dico_add_generic` succeeds exactly when the first allocation is granted, the (section, key) is
-- not in the dictionary and, for an item with data, the second allocation is granted. It then
-- appends that item.
pub dico_add_generic_lem :
    (mem : Memory) (d : Dico) (s k : ℕ) (src : List ℕ) (size type : ℕ)
    → is_error (dico_add_generic mem d s k src size type).0 ≡ false
    → (dico_add_generic mem d s k src size type
        ≡ (pos 0, d ++ (stored_item s k src size type ∷ [])))
      × (is_some (lookup d s k) ≡ false)
unfolding dico_add_generic
dico_add_generic_lem mem d s k src size type h = ground (arith, is_duplicate-is_some d s k)

-- What the dictionary holds after a successful `dico_add_generic`: the new item under its own
-- (section, key), and under every other what it held before.
pub lookup-dico_add_generic :
    (mem : Memory) (d : Dico) (s k : ℕ) (src : List ℕ) (size type s' k' : ℕ)
    → is_error (dico_add_generic mem d s k src size type).0 ≡ false
    → lookup (dico_add_generic mem d s k src size type).1 s' k'
      ≡ (if s == s' && k == k' then some (stored_item s k src size type) else lookup d s' k')
lookup-dico_add_generic mem d s k src size type s' k' h = ground (
  arith,
  dico_add_generic_lem mem d s k src size type h,
  lookup-append d (stored_item s k src size type) s' k',
)

-- A duplicate is refused, and the dictionary is left as it was.
pub dico_add_generic_duplicate :
    (mem : Memory) (d : Dico) (s k : ℕ) (src : List ℕ) (size type : ℕ) (item : DicoItem)
    → lookup d s k ≡ some item
    → dico_add_generic mem d s k src size type ≡ (negsuc 2, d)
unfolding dico_add_generic
dico_add_generic_duplicate mem d s k src size type item h =
    ground (arith, is_duplicate-is_some d s k)

-- `dico_get_generic` of the item that is found, by what it is.
abbrev pub answer : Option DicoItem → List ℕ → ℕ → ℤ × List ℕ × ℕ
answer none buffer maxsize = (negsuc 4, buffer, 0)
answer (some item) buffer maxsize =
    if ltb maxsize item.size
    then (negsuc 3, buffer, 0)
    else (pos 0, copy_contents item buffer, item.size)

pub dico_find-answer :
    (d : Dico) (s k : ℕ) (buffer : List ℕ) (maxsize : ℕ)
    → dico_find d s k buffer maxsize ≡ answer (lookup d s k) buffer maxsize
unfolding dico_find lookup
dico_find-answer [] s k buffer maxsize = refl
dico_find-answer (item ∷ rest) s k buffer maxsize =
    ground (arith, dico_find-answer rest s k buffer maxsize)

pub dico_get_generic-answer :
    (d : Dico) (s k : ℕ) (buffer : List ℕ) (maxsize : ℕ) (item : DicoItem)
    → 0 < maxsize
    → lookup d s k ≡ some item
    → dico_get_generic d s k buffer maxsize ≡ answer (some item) buffer maxsize
unfolding dico_get_generic lookup
dico_get_generic-answer [] s k buffer maxsize item h e = ground arith
dico_get_generic-answer (x ∷ rest) s k buffer maxsize item h e =
    ground (arith, dico_find-answer (x ∷ rest) s k buffer maxsize)

-- A key that is not there is an error, whatever the buffer, and the buffer is left alone.
pub dico_get_generic_missing :
    (d : Dico) (s k : ℕ) (buffer : List ℕ) (maxsize : ℕ)
    → lookup d s k ≡ none
    → (is_error (dico_get_generic d s k buffer maxsize).0 ≡ true)
      × ((dico_get_generic d s k buffer maxsize).1 ≡ buffer)
unfolding dico_get_generic
dico_get_generic_missing [] s k buffer maxsize e = (refl, refl)
dico_get_generic_missing (x ∷ rest) s k buffer maxsize e =
    ground (arith, dico_find-answer (x ∷ rest) s k buffer maxsize)
