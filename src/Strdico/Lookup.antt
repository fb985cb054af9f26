-- ===== src/Strdico/Lookup.antt =====
-- strdico.c: strdico_set_value and strdico_get_string, read as a map from keys to values.
use fsarchiver.Base.{
  ℕ, ◌≡◌, refl, sym, ap, ◌∙◌, Bool, true, ◌&&◌, Option, none, some, List, [], ◌∷◌, arith,
  if◌then◌else◌, bytes_eq, bytes_eq_refl, bytes_eq-eq, Option-cases, Bool-cases, inl, inr,
}
use fsarchiver.Base.Code
use fsarchiver.Dico.{plenty}
use fsarchiver.Strlist.{cut}
use fsarchiver.Strdico.{
  StrdicoItem, Strdico, words, is_among, modify_item, store_value, strdico_set_value, find_value,
  strdico_get_string,
}

-- The restriction on the keys allows this one.
abbrev pub accepts : Option (List ℕ) → List ℕ → Bool
accepts none key = true
accepts (some keys) key = is_among (words [] keys) key

-- What modify_item finds, and the values after it.
abbrev Modified :
    List StrdicoItem → List ℕ → Option (List ℕ) → List ℕ → Option (List StrdicoItem) → Type 0
Modified items key value q none = find_value items key ≡ none
Modified items key value q (some items') =
    find_value items' q ≡ (if bytes_eq key q then some value else find_value items q)

modify_item-Modified :
    (items : List StrdicoItem) (key : List ℕ) (value : Option (List ℕ)) (q : List ℕ)
    → Modified items key value q (modify_item items key value)
unfolding modify_item find_value
modify_item-Modified [] key value q = refl
modify_item-Modified (item ∷ rest) key value q = elim (Bool-cases (bytes_eq item.key key)) [
  | inl e ↦ rw e (ground (arith, ap (λ k. bytes_eq k q) (bytes_eq-eq item.key key e)))
  | inr e ↦
      let ih = modify_item-Modified rest key value q in
      let apart : bytes_eq item.key q ≡ true → bytes_eq key q ≡ true → item.key ≡ key =
        λ a b. bytes_eq-eq item.key q a ∙ sym (bytes_eq-eq key q b) in
      elim (Option-cases (modify_item rest key value)) [
        | inl n ↦ rw (e, n) (ground (arith, e, rw n at ih))
        | inr (items', s) ↦ rw (e, s) (ground (arith, e, rw s at ih, apart, bytes_eq_refl key))
      ]
]

-- The value that a key has after the call, when memory suffices.
store_value-find_value :
    (d : Strdico) (key value q : List ℕ)
    → ((store_value plenty d key value).0 ≡ Code.success)
      × (find_value (store_value plenty d key value).1.items q
          ≡ (if bytes_eq key q then some (some value) else find_value d.items q))
      × ((store_value plenty d key value).1.validkeys ≡ d.validkeys)
unfolding store_value find_value
store_value-find_value d key value q =
    let m = modify_item-Modified d.items key (some value) q in
    elim (Option-cases (modify_item d.items key (some value))) [
      | inl n ↦ ground (arith, n)
      | inr (items', s) ↦ ground (arith, s, rw s at m)
    ]

-- When memory suffices, a value is accepted exactly when the restriction allows its key. The key then
-- has this value, every other key the value that it had before, and a key that is refused changes
-- nothing; the restriction stays.
pub strdico_get_string-strdico_set_value :
    (d : Strdico) (key value q : List ℕ) (outbufsize : ℕ)
    → ((strdico_set_value plenty d key value).0
        ≡ (if accepts d.validkeys key then Code.success else Code.einval))
      × (strdico_get_string (strdico_set_value plenty d key value).1 outbufsize q ≡ (
          if accepts d.validkeys key && bytes_eq key q
          then (Code.success, cut outbufsize value)
          else strdico_get_string d outbufsize q))
      × ((strdico_set_value plenty d key value).1.validkeys ≡ d.validkeys)
unfolding strdico_set_value strdico_get_string
strdico_get_string-strdico_set_value d key value q outbufsize =
    let stored = store_value-find_value d key value q in
    elim (Option-cases d.validkeys) [
      | inl n ↦ ground (arith, n, stored)
      | inr (keys, s) ↦ ground (arith, s, stored)
    ]
