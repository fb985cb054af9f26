-- ===== src/Strlist/Split.antt =====
-- strlist.c: a list that was merged to one text is split again to the same list.
use fsarchiver.Base.{
  ℕ, ◌+◌, ◌-◌, ◌<◌, ◌≡◌, refl, true, false, some, List, [], ◌∷◌, ◌++◌, arith, ◌==◌, bytes_eq,
  length, length-append, append-nil, append_assoc, if◌then◌else◌, sym, ap, ◌∙◌, subst,
}
use fsarchiver.Base.Arrays.{take_enough}
use fsarchiver.Base.Int.{pos}
use fsarchiver.Dico.{plenty}
use fsarchiver.Strlist.{
  Strlist, strlist_exists, strlist_add, strlcatf, merge_rest, strlist_merge, tokens, add_tokens,
  strlist_split,
}
use fsarchiver.Strlist.Distinct.{IsStrlist, bytes_eq_sym}

-- The separator is in none of the strings.
abbrev pub Avoids : ℕ → List ℕ → Type 0
Avoids sep [] = Unit {0}
Avoids sep (c ∷ text) = ((c == sep) ≡ false) × Avoids sep text

abbrev pub AllAvoid : ℕ → Strlist → Type 0
AllAvoid sep [] = Unit {0}
AllAvoid sep (item ∷ rest) = Avoids sep item × AllAvoid sep rest

-- What follows the first string in the merged text.
abbrev tail_text : ℕ → Strlist → List ℕ
tail_text sep [] = []
tail_text sep (item ∷ rest) = (sep ∷ item) ++ tail_text sep rest

abbrev pub merged_text : ℕ → Strlist → List ℕ
merged_text sep [] = []
merged_text sep (item ∷ rest) = item ++ tail_text sep rest

strlcatf_fits :
    (dest : List ℕ) (size : ℕ) (str : List ℕ)
    → length dest + length str < size
    → strlcatf dest size str ≡ dest ++ str
unfolding strlcatf
strlcatf_fits dest size str h =
    ap (◌++◌ dest) (take_enough (size - 1 - length dest) str (omega (arith, h)))

merge_rest_fits :
    (l : Strlist) (dest : List ℕ) (size sep : ℕ)
    → (sep == 0) ≡ false
    → length dest + length (tail_text sep l) < size
    → merge_rest l dest size sep ≡ dest ++ tail_text sep l
unfolding merge_rest
merge_rest_fits [] dest size sep n h = sym (append-nil dest)
merge_rest_fits (x ∷ l) dest size sep n h =
    let len = length-append x (tail_text sep l) in
    let e1 = strlcatf_fits dest size (sep ∷ []) (omega (arith, h, len)) in
    let e2 : strlcatf (dest ++ (sep ∷ [])) size x ≡ dest ++ (sep ∷ x) =
      strlcatf_fits (dest ++ (sep ∷ [])) size x
        (omega (arith, h, len, length-append dest (sep ∷ [])))
      ∙ append_assoc dest (sep ∷ []) x in
    ap
      (λ b.
        merge_rest l (strlcatf (strlcatf dest size (if b then [] else sep ∷ [])) size x) size sep)
      n
    ∙ ap (λ t. merge_rest l (strlcatf t size x) size sep) e1
    ∙ ap (λ t. merge_rest l t size sep) e2
    ∙ merge_rest_fits l (dest ++ (sep ∷ x)) size sep n
        (omega (arith, h, len, length-append dest (sep ∷ x)))
    ∙ append_assoc dest (sep ∷ x) (tail_text sep l)

tokens_part :
    (sep : ℕ) (p : ℕ) (part str text : List ℕ)
    → Avoids sep str
    → tokens sep (p ∷ part) (str ++ text) ≡ tokens sep (p ∷ (part ++ str)) text
unfolding tokens
tokens_part sep p part [] text a = ap (λ q. tokens sep (p ∷ q) text) (sym (append-nil part))
tokens_part sep p part (c ∷ str) text (h, a) = rw h (
    tokens_part sep p (part ++ (c ∷ [])) str text a
    ∙ ap (λ q. tokens sep (p ∷ q) text) (append_assoc part (c ∷ []) str))

tokens_start :
    (sep : ℕ) (str text : List ℕ)
    → Avoids sep str
    → (length str == 0) ≡ false
    → tokens sep [] (str ++ text) ≡ tokens sep str text
unfolding tokens
tokens_start sep [] text a e = ground (arith, e)
tokens_start sep (c ∷ str) text (h, a) e = rw h (tokens_part sep c [] str text a)

tokens_tail :
    (sep : ℕ) (str : List ℕ) (l : Strlist)
    → (length str == 0) ≡ false
    → IsStrlist l
    → AllAvoid sep l
    → tokens sep str (tail_text sep l) ≡ str ∷ l
unfolding tokens
tokens_tail sep [] l e i a = ground (arith, e)
tokens_tail sep (p ∷ part) [] e i a = refl
tokens_tail sep (p ∷ part) (x ∷ l) e (f, g, i) (b, a) =
    let same : (sep == sep) ≡ true = ground arith in
    rw same
      (ap (◌∷◌ (p ∷ part)) (tokens_start sep x (tail_text sep l) b f ∙ tokens_tail sep x l f i a))

tokens-merged_text :
    (sep : ℕ) (l : Strlist) → IsStrlist l → AllAvoid sep l → tokens sep [] (merged_text sep l) ≡ l
unfolding tokens
tokens-merged_text sep [] i a = refl
tokens-merged_text sep (x ∷ l) (f, g, i) (b, a) =
    tokens_start sep x (tail_text sep l) b f ∙ tokens_tail sep x l f i a

not_here :
    (l : Strlist) (x str : List ℕ) (later : Strlist)
    → strlist_exists (l ++ (str ∷ later)) x ≡ false
    → bytes_eq str x ≡ false
unfolding strlist_exists
not_here [] x str later h = ground (arith, h)
not_here (y ∷ l) x str later h = not_here l x str later (ground (arith, h))

IsStrlist-here :
    (l : Strlist) (str : List ℕ) (later : Strlist)
    → IsStrlist (l ++ (str ∷ later))
    → ((length str == 0) ≡ false) × (strlist_exists l str ≡ false)
unfolding strlist_exists
IsStrlist-here [] str later (e, _, _) = (e, refl)
IsStrlist-here (x ∷ l) str later (_, g, i) =
    let (e, h) = IsStrlist-here l str later i in
    (e, ground (arith, h, bytes_eq_sym str x (not_here l x str later g)))

add_tokens_all :
    (l tokens : Strlist)
    → IsStrlist (l ++ tokens)
    → add_tokens plenty l tokens ≡ (pos 0, l ++ tokens)
unfolding add_tokens strlist_add
add_tokens_all l [] i = ap (λ m. (pos 0, m)) (sym (append-nil l))
add_tokens_all l (t ∷ ts) i =
    let (e, h) = IsStrlist-here l t ts i in
    let later =
      add_tokens_all (l ++ (t ∷ [])) ts (subst IsStrlist (sym (append_assoc l (t ∷ []) ts)) i) in
    ground (arith, e, h, later, append_assoc l (t ∷ []) ts)

-- With a separator that is not zero, a list of distinct strings that are not empty and do not hold it
-- is merged to a text that is split to the same list again, whatever the second list held, when the
-- buffer is large enough for the text and memory suffices.
pub strlist_split-strlist_merge :
    (l old : Strlist) (sep bufsize : ℕ)
    → (sep == 0) ≡ false
    → IsStrlist l
    → AllAvoid sep l
    → length (merged_text sep l) < bufsize
    → (text : List ℕ) × (strlist_merge l bufsize sep ≡ some text)
      × (strlist_split plenty old text sep ≡ (pos 0, l))
unfolding strlist_merge strlist_split tokens
strlist_split-strlist_merge [] old sep bufsize n i a h =
    ([], ground (arith, h), add_tokens_all [] [] tt)
strlist_split-strlist_merge (x ∷ l) old sep bufsize n i a h = (
  x ++ tail_text sep l,
  ground (
    arith,
    h,
    strlcatf_fits [] bufsize x (omega (arith, h, length-append x (tail_text sep l))),
    merge_rest_fits l x bufsize sep n (omega (arith, h, length-append x (tail_text sep l))),
  ),
  ap (add_tokens plenty []) (tokens-merged_text sep (x ∷ l) i a) ∙ add_tokens_all [] (x ∷ l) i,
)
