-- ===== src/Strdico/Parse.antt =====
-- strdico.c: strdico_parse_string reads back the text of a list of definitions.
use fsarchiver.Base.{
  ℕ, zero, suc, ◌≤◌, ◌≡◌, refl, sym, ap, ◌∙◌, true, false, some, List, [], ◌∷◌, ◌++◌, arith, ◌==◌,
  bytes_eq, subst, Option, ◌-◌, ◌<◌, if◌then◌else◌, length, append-nil, append_assoc,
}
use fsarchiver.Base.Arrays.{take_enough}
use fsarchiver.Base.Int.{ℤ}
use fsarchiver.Base.Code
use fsarchiver.Dico.{plenty}
use fsarchiver.Strdico.Lookup.{accepts, strdico_get_string-strdico_set_value}
use fsarchiver.Strdico.{
  Strdico, is_delim, words, strdico_set_value, scan_key, key_max, parse_definition, parse_words,
  strdico_parse_string, strdico_get_string,
}

-- No delimiter is in the text, and with `extra` no '=' either.
abbrev pub IsPlain : List ℕ → Type 0
IsPlain [] = Unit {0}
IsPlain (c ∷ text) = (is_delim c ≡ false) × IsPlain text

abbrev pub HasNoEquals : List ℕ → Type 0
HasNoEquals [] = Unit {0}
HasNoEquals (c ∷ text) = ((c == 61) ≡ false) × HasNoEquals text

-- A key and its value, which the buffers have room for.
abbrev pub IsDefinition : List ℕ × List ℕ → Type 0
IsDefinition (key, value) =
    IsPlain key
    × HasNoEquals key
    × IsPlain value
    × (length key ≤ key_max)
    × (length value ≤ key_max)

abbrev pub AllDefinitions : List (List ℕ × List ℕ) → Type 0
AllDefinitions [] = Unit {0}
AllDefinitions (x ∷ l) = IsDefinition x × AllDefinitions l

abbrev pub definition_text : List ℕ × List ℕ → List ℕ
definition_text (key, value) = key ++ (61 ∷ value)

-- The definitions, with a comma behind each.
abbrev pub definitions_text : List (List ℕ × List ℕ) → List ℕ
definitions_text [] = []
definitions_text (x ∷ l) = definition_text x ++ (44 ∷ definitions_text l)

-- The last value that the definitions give to a key, or `old`.
abbrev pub last_value : List (List ℕ × List ℕ) → List ℕ → ℤ × List ℕ → ℤ × List ℕ
last_value [] q old = old
last_value ((key, value) ∷ l) q old =
    last_value l q (if bytes_eq key q then (Code.success, value) else old)

abbrev pub AllAccepted : Option (List ℕ) → List (List ℕ × List ℕ) → Type 0
AllAccepted validkeys [] = Unit {0}
AllAccepted validkeys ((key, value) ∷ l) = (accepts validkeys key ≡ true) × AllAccepted validkeys l

IsPlain-append : (key value : List ℕ) → IsPlain key → IsPlain value → IsPlain (key ++ (61 ∷ value))
IsPlain-append [] value a b = (refl, b)
IsPlain-append (c ∷ key) value (h, a) b = (h, IsPlain-append key value a b)

scan_key-append :
    (room : ℕ) (key value : List ℕ)
    → HasNoEquals key
    → length key ≤ room
    → scan_key room (key ++ (61 ∷ value)) ≡ (key, 61 ∷ value)
unfolding scan_key
scan_key-append zero [] value a h = refl
scan_key-append zero (c ∷ key) value a h = absurd (omega (arith, h))
scan_key-append (suc room) [] value a h = refl
scan_key-append (suc room) (c ∷ key) value (e, a) h =
    ground (arith, e, scan_key-append room key value a (omega (arith, h)))

parse_definition-definition_text :
    (x : List ℕ × List ℕ) → IsDefinition x → parse_definition (definition_text x) ≡ some x
unfolding parse_definition
parse_definition-definition_text (key, value) (a, b, c, h, k) =
    ground (arith, scan_key-append key_max key value b h, take_enough key_max value k)

words_part :
    (p : ℕ) (part str text : List ℕ)
    → IsPlain str
    → words (p ∷ part) (str ++ text) ≡ words (p ∷ (part ++ str)) text
unfolding words
words_part p part [] text a = ap (λ q. words (p ∷ q) text) (sym (append-nil part))
words_part p part (c ∷ str) text (h, a) = rw h (
    words_part p (part ++ (c ∷ [])) str text a
    ∙ ap (λ q. words (p ∷ q) text) (append_assoc part (c ∷ []) str))

-- A word that is not empty, with a comma behind it.
words_word :
    (p : ℕ) (str text : List ℕ)
    → IsPlain (p ∷ str)
    → words [] ((p ∷ str) ++ (44 ∷ text)) ≡ (p ∷ str) ∷ words [] text
unfolding words
words_word p str text (h, a) = rw h (words_part p [] str (44 ∷ text) a)

words_definition :
    (key value text : List ℕ)
    → IsPlain key
    → IsPlain value
    → words [] (definition_text (key, value) ++ (44 ∷ text))
      ≡ definition_text (key, value) ∷ words [] text
words_definition [] value text a b = words_word 61 value text (refl, b)
words_definition (c ∷ key) value text (h, a) b =
    words_word c (key ++ (61 ∷ value)) text (h, IsPlain-append key value a b)

-- One definition of the text is one call of strdico_set_value.
parse_words-step :
    (d : Strdico) (key value : List ℕ) (rest : List (List ℕ))
    → IsDefinition (key, value)
    → accepts d.validkeys key ≡ true
    → parse_words plenty d (definition_text (key, value) ∷ rest)
      ≡ parse_words plenty (strdico_set_value plenty d key value).1 rest
unfolding parse_words
parse_words-step d key value rest h e =
    let stored = strdico_get_string-strdico_set_value d key value key 1024 in
    ground (arith, e, parse_definition-definition_text (key, value) h, stored.0)

parse_words_lem :
    (l : List (List ℕ × List ℕ)) (d : Strdico) (q : List ℕ) (outbufsize : ℕ)
    → AllDefinitions l
    → AllAccepted d.validkeys l
    → key_max < outbufsize
    → ((parse_words plenty d (words [] (definitions_text l))).0 ≡ Code.success)
      × (strdico_get_string (parse_words plenty d (words [] (definitions_text l))).1 outbufsize q
          ≡ last_value l q (strdico_get_string d outbufsize q))
unfolding parse_words words
parse_words_lem [] d q outbufsize h a b = (refl, refl)
parse_words_lem ((key, value) ∷ l) d q outbufsize (h, hs) (e, a) b =
    let stored = strdico_get_string-strdico_set_value d key value q outbufsize in
    let d' = (strdico_set_value plenty d key value).1 in
    let ih =
      parse_words_lem l d' q outbufsize hs (subst (λ k. AllAccepted k l) (sym stored.2) a) b in
    let here : strdico_get_string d' outbufsize q
        ≡ (if bytes_eq key q then (Code.success, value) else strdico_get_string d outbufsize q) =
      ground (arith, stored.1, e, take_enough (outbufsize - 1) value (omega (arith, b, h.4))) in
    let step : parse_words plenty d (words [] (definitions_text ((key, value) ∷ l)))
        ≡ parse_words plenty d' (words [] (definitions_text l)) =
      ap (parse_words plenty d) (words_definition key value (definitions_text l) h.0 h.2)
      ∙ parse_words-step d key value (words [] (definitions_text l)) h e in
    (
      ap (λ r. r.0) step ∙ ih.0,
      ap (λ r. strdico_get_string r.1 outbufsize q) step ∙ ih.1 ∙ ap (last_value l q) here,
    )

-- The text of a list of definitions is parsed when memory suffices, the restriction allows each key,
-- no key or value holds a delimiter, no key an '=', and each fits its buffer. A key then has the last
-- value that the list gives to it, and where the list does not name it the value that it had before.
pub strdico_parse_string-definitions_text :
    (l : List (List ℕ × List ℕ)) (d : Strdico) (q : List ℕ) (outbufsize : ℕ)
    → AllDefinitions l
    → AllAccepted d.validkeys l
    → key_max < outbufsize
    → ((strdico_parse_string plenty d (definitions_text l)).0 ≡ Code.success)
      × (strdico_get_string (strdico_parse_string plenty d (definitions_text l)).1 outbufsize q
          ≡ last_value l q (strdico_get_string d outbufsize q))
unfolding strdico_parse_string
strdico_parse_string-definitions_text = parse_words_lem
