-- ===== src/Dico/Unique.antt =====
-- dico.c: no two items of a dictionary share a (section, key), and every item holds its data.
use fsarchiver.Base.{
  ℕ, ◌^◌, ◌≤◌, ◌<◌, ◌≡◌, refl, false, Option, none, some, List, [], ◌∷◌, ◌++◌, arith, length,
  length-take,
}
use fsarchiver.Base.Int.{is_error}
use fsarchiver.Dico.{Memory, DicoItem, Dico, has_key, is_duplicate, dico_add_generic}
use fsarchiver.Dico.Lookup.{stored_item, dico_add_generic_lem}

abbrev pub IsUnique : Dico → Type 0
IsUnique [] = Unit {0}
IsUnique (item ∷ rest) = (is_duplicate item.section item.key rest ≡ false) × IsUnique rest

is_duplicate-append :
    (d : Dico) (item : DicoItem) (s k : ℕ)
    → is_duplicate s k d ≡ false
    → has_key s k item ≡ false
    → is_duplicate s k (d ++ (item ∷ [])) ≡ false
unfolding is_duplicate
is_duplicate-append [] item s k h e = ground arith
is_duplicate-append (x ∷ rest) item s k h e = ground (arith, is_duplicate-append rest item s k)

pub IsUnique-append :
    (d : Dico) (item : DicoItem)
    → IsUnique d
    → is_duplicate item.section item.key d ≡ false
    → IsUnique (d ++ (item ∷ []))
unfolding is_duplicate
IsUnique-append [] item u h = (refl, tt)
IsUnique-append (x ∷ rest) item u h = (
  is_duplicate-append rest item x.section x.key u.0 (ground arith),
  IsUnique-append rest item u.1 (ground arith),
)

-- Every call of `dico_add_generic` keeps the (section, key) pairs distinct, whether the call
-- succeeds, meets a duplicate or runs out of memory.
pub dico_add_generic-IsUnique :
    (mem : Memory) (d : Dico) (s k : ℕ) (src : List ℕ) (size type : ℕ)
    → IsUnique d
    → IsUnique (dico_add_generic mem d s k src size type).1
unfolding dico_add_generic
dico_add_generic-IsUnique mem d s k src size type u = ground (
  arith,
  IsUnique-append d (stored_item s k src size type) u,
  IsUnique-append d (record (stored_item s k src size type) { contents = none }) u,
)

-- The item's data is there, with the item's size.
abbrev pub WholeContents : ℕ → Option (List ℕ) → Type 0
WholeContents size none = size ≡ 0
WholeContents size (some bs) = (0 < size) × (length bs ≡ size)

-- The fields are within the C types that store them, and the data is there.
pub record IsItem (item : DicoItem) : Type 0 where
  pub type_byte : item.type < 256
  pub section_byte : item.section < 256
  pub key_word : item.key < 2 ^ 16
  pub size_word : item.size < 2 ^ 16
  pub whole : WholeContents item.size item.contents

abbrev pub AllItems : Dico → Type 0
AllItems [] = Unit {0}
AllItems (item ∷ rest) = IsItem item × AllItems rest

pub AllItems-append :
    (d : Dico) (item : DicoItem) → AllItems d → IsItem item → AllItems (d ++ (item ∷ []))
AllItems-append [] item a h = (h, tt)
AllItems-append (x ∷ rest) item a h = (a.0, AllItems-append rest item a.1 h)

pub stored_item-IsItem :
    (s k : ℕ) (src : List ℕ) (size type : ℕ)
    → s < 256
    → k < 2 ^ 16
    → size < 2 ^ 16
    → type < 256
    → size ≤ length src
    → IsItem (stored_item s k src size type)
stored_item-IsItem s k src size type hs hk hz ht hl = ground (arith, length-take size src)

-- A call of `dico_add_generic` that succeeds, with arguments in the range of their C types and a
-- source of at least `size` bytes, leaves every item with all of its data.
pub dico_add_generic-AllItems :
    (mem : Memory) (d : Dico) (s k : ℕ) (src : List ℕ) (size type : ℕ)
    → AllItems d
    → s < 256
    → k < 2 ^ 16
    → size < 2 ^ 16
    → type < 256
    → size ≤ length src
    → is_error (dico_add_generic mem d s k src size type).0 ≡ false
    → AllItems (dico_add_generic mem d s k src size type).1
dico_add_generic-AllItems mem d s k src size type a hs hk hz ht hl h =
    rw (dico_add_generic_lem mem d s k src size type h).0
      (AllItems-append d _ a (stored_item-IsItem s k src size type hs hk hz ht hl))
