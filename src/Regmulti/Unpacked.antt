-- ===== src/Regmulti/Unpacked.antt =====
-- regmulti.c: a structure that is filled from the archive, and the files that it gives back.
use fsarchiver.Base.{
  ℕ, suc, ◌+◌, ◌^◌, ◌≤◌, ◌<◌, ◌≡◌, refl, ap, sym, ◌∙◌, Option, none, some, List, [], ◌∷◌, ◌++◌,
  arith, length, length-append, get_elem?, take, take-append, take-append-drop, drop, drop-append,
  memcpy_front, append_assoc,
}
use fsarchiver.Base.Arrays.{get_elem?-append, get_elem?-take}
use fsarchiver.Base.Int.{pos}
use fsarchiver.Base.Bytes.{put_le, length-put_le, get_le-put_le}
use fsarchiver.Constants.{
  section_stdattr, diskitemkey_size, diskitemkey_multifilescount, diskitemkey_multifilesoffset,
}
use fsarchiver.Dico.{Dico, DicoItem, new_item, dico_get_u32, dico_get_u64}
use fsarchiver.Dico.Lookup.{lookup, lookup-append}
use fsarchiver.Dico.Words.{get_word_stored}
use fsarchiver.ArchReader.Blocks.{Stack}
use fsarchiver.Regmulti.{Regmulti, regmulti_rest_getfile}
use fsarchiver.Regmulti.Packed.{File, joined}

abbrev pub size_item : ℕ → DicoItem
size_item n = new_item section_stdattr diskitemkey_size 8 4 (some (put_le 8 n))

abbrev pub word_item : ℕ → ℕ → DicoItem
word_item key x = new_item section_stdattr key 4 3 (some (put_le 4 x))

-- A header with the two attributes that tell where the file's data are.
abbrev pub sealed : Dico → ℕ → ℕ → Dico
sealed header count offset =
    (header ++ (word_item diskitemkey_multifilescount count ∷ []))
    ++ (word_item diskitemkey_multifilesoffset offset ∷ [])

-- A header that holds the size of the file's data, and neither of the two attributes.
pub record IsFile (header : Dico) (bytes : List ℕ) : Type 0 where
  pub size_is : lookup header section_stdattr diskitemkey_size ≡ some (size_item (length bytes))
  pub no_count : lookup header section_stdattr diskitemkey_multifilescount ≡ none
  pub no_offset : lookup header section_stdattr diskitemkey_multifilesoffset ≡ none

pub sealed-size :
    (header : Dico) (bytes : List ℕ) (count offset : ℕ)
    → IsFile header bytes
    → lookup (sealed header count offset) section_stdattr diskitemkey_size
      ≡ some (size_item (length bytes))
sealed-size header bytes count offset f = ground (
  arith,
  f.size_is,
  lookup-append header (word_item diskitemkey_multifilescount count) section_stdattr
      diskitemkey_size,
  lookup-append (header ++ (word_item diskitemkey_multifilescount count ∷ []))
      (word_item diskitemkey_multifilesoffset offset) section_stdattr diskitemkey_size,
)

pub sealed-offset :
    (header : Dico) (bytes : List ℕ) (count offset : ℕ)
    → IsFile header bytes
    → lookup (sealed header count offset) section_stdattr diskitemkey_multifilesoffset
      ≡ some (word_item diskitemkey_multifilesoffset offset)
sealed-offset header bytes count offset f = ground (
  arith,
  f.no_offset,
  lookup-append header (word_item diskitemkey_multifilescount count) section_stdattr
      diskitemkey_multifilesoffset,
  lookup-append (header ++ (word_item diskitemkey_multifilescount count ∷ []))
      (word_item diskitemkey_multifilesoffset offset) section_stdattr diskitemkey_multifilesoffset,
)

pub get_size :
    (junk : List ℕ) (d : Dico) (n : ℕ)
    → length junk ≡ 8
    → n < 2 ^ 64
    → lookup d section_stdattr diskitemkey_size ≡ some (size_item n)
    → dico_get_u64 junk d section_stdattr diskitemkey_size ≡ (pos 0, n)
unfolding dico_get_u64
get_size junk d n l h f =
    get_word_stored 8 junk d section_stdattr diskitemkey_size (size_item n) (put_le 8 n)
      (omega arith) l f refl refl (length-put_le 8 n)
    ∙ ap (λ k. (pos 0, k)) (get_le-put_le 8 n h)

pub get_offset :
    (junk : List ℕ) (d : Dico) (n : ℕ)
    → length junk ≡ 4
    → n < 2 ^ 32
    → lookup d section_stdattr diskitemkey_multifilesoffset
      ≡ some (word_item diskitemkey_multifilesoffset n)
    → dico_get_u32 junk d section_stdattr diskitemkey_multifilesoffset ≡ (pos 0, n)
unfolding dico_get_u32
get_offset junk d n l h f =
    get_word_stored 4 junk d section_stdattr diskitemkey_multifilesoffset
      (word_item diskitemkey_multifilesoffset n) (put_le 4 n) (omega arith) l f refl refl
      (length-put_le 4 n)
    ∙ ap (λ k. (pos 0, k)) (get_le-put_le 4 n h)

-- The headers as they are sealed, the first file's data standing at `offset`.
abbrev pub sealed_heads : List File → ℕ → ℕ → List (Option Dico)
sealed_heads [] count offset = []
sealed_heads ((header, bytes) ∷ files) count offset =
    some (sealed header count offset) ∷ sealed_heads files count (offset + length bytes)

-- A structure that holds these headers and these data.
pub record IsLoaded (m : Regmulti) (heads : List (Option Dico)) (bytes : List ℕ) : Type 0 where
  pub count_is : m.count ≡ length heads
  pub heads_are : take m.count m.objhead ≡ heads
  pub used_is : m.usedsize ≡ length bytes
  pub bytes_are : take m.usedsize m.contents ≡ bytes
  pub fits : m.usedsize ≤ length m.contents

sealed_heads-append :
    (before : List File) (header : Dico) (bytes : List ℕ) (later : List File) (count offset : ℕ)
    → sealed_heads (before ++ ((header, bytes) ∷ later)) count offset
      ≡ sealed_heads before count offset
        ++ (some (sealed header count (offset + length (joined before)))
            ∷ sealed_heads later count (offset + length (joined before) + length bytes))
sealed_heads-append [] header bytes later count offset =
    let e : offset + 0 ≡ offset = omega arith in rw e refl
sealed_heads-append ((h, bs) ∷ before) header bytes later count offset =
    let e : offset + length (bs ++ joined before) ≡ offset + length bs + length (joined before) =
      omega (arith, length-append bs (joined before)) in
    rw e (
      ap (◌∷◌ (some (sealed h count offset)))
        (sealed_heads-append before header bytes later count (offset + length bs)))

length-sealed_heads :
    (files : List File) (count offset : ℕ) → length (sealed_heads files count offset) ≡ length files
length-sealed_heads [] count offset = refl
length-sealed_heads ((h, bs) ∷ files) count offset =
    ap suc (length-sealed_heads files count (offset + length bs))

joined_split :
    (before : List File) (header : Dico) (bytes : List ℕ) (later : List File)
    → joined (before ++ ((header, bytes) ∷ later)) ≡ joined before ++ (bytes ++ joined later)
joined_split [] header bytes later = refl
joined_split ((h, bs) ∷ before) header bytes later =
    ap (◌++◌ bs) (joined_split before header bytes later)
    ∙ sym (append_assoc bs (joined before) (bytes ++ joined later))

-- The slice that `regmulti_rest_getfile` copies is the file's data.
slice :
    (contents : List ℕ) (used : ℕ) (front bytes later : List ℕ)
    → take used contents ≡ front ++ (bytes ++ later)
    → take (length bytes) (drop (length front) contents) ≡ bytes
slice contents used front bytes later e =
    let whole : contents ≡ front ++ (bytes ++ (later ++ drop used contents)) =
      sym (take-append-drop used contents)
      ∙ ap (λ xs. xs ++ drop used contents) e
      ∙ append_assoc front (bytes ++ later) (drop used contents)
      ∙ ap (◌++◌ front) (append_assoc bytes later (drop used contents)) in
    ap (take (length bytes)) (
      ap (drop (length front)) whole
      ∙ drop-append (length front) front (bytes ++ (later ++ drop used contents)) refl)
    ∙ take-append (length bytes) bytes (later ++ drop used contents) refl

pub regmulti_rest_getfile_loaded :
    (stack : Stack) (m : Regmulti) (before : List File) (header : Dico) (bytes : List ℕ)
    (later : List File) (count : ℕ) (buffer : List ℕ) (bufsize : ℕ)
    → length (stack 0) ≡ 8
    → length (stack 1) ≡ 4
    → IsLoaded m
        (sealed_heads (before ++ ((header, bytes) ∷ later)) count 0)
        (joined (before ++ ((header, bytes) ∷ later)))
    → IsFile header bytes
    → length (joined (before ++ ((header, bytes) ∷ later))) < 2 ^ 32
    → length bytes ≤ length buffer
    → regmulti_rest_getfile stack m (length before) buffer bufsize
      ≡ some (
        pos 0,
        some (sealed header count (length (joined before))),
        bytes ++ drop (length bytes) buffer,
        some (length bytes),
      )
unfolding regmulti_rest_getfile
regmulti_rest_getfile_loaded stack m before header bytes later count buffer bufsize l8 l4 ld f small
      room =
    let files = before ++ ((header, bytes) ∷ later) in
    let offset = length (joined before) in
    let d = sealed header count offset in
    let total : length (joined files) ≡ offset + (length bytes + length (joined later)) = omega (
      arith,
      ap length (joined_split before header bytes later),
      length-append (joined before) (bytes ++ joined later),
      length-append bytes (joined later),
    ) in
    let counted : m.count ≡ length before + suc (length later) = omega (
      arith,
      ld.count_is,
      length-sealed_heads files count 0,
      length-append before ((header, bytes) ∷ later),
    ) in
    let found : get_elem? m.objhead (length before) ≡ some (some d) =
      get_elem?-take m.count (length before) m.objhead (omega (arith, counted))
      ∙ ap (λ xs. get_elem? xs (length before)) ld.heads_are
      ∙ ap (λ xs. get_elem? xs (length before))
          (sealed_heads-append before header bytes later count 0)
      ∙ ap
          (get_elem? (
            sealed_heads before count 0
            ++ (some (sealed header count (0 + offset))
                ∷ sealed_heads later count (0 + offset + length bytes))))
          (sym (length-sealed_heads before count 0))
      ∙ get_elem?-append (sealed_heads before count 0) (some (sealed header count (0 + offset)))
          (sealed_heads later count (0 + offset + length bytes))
      ∙ ap (λ o. some (some (sealed header count o))) {x = 0 + offset} {y = offset} (omega arith) in
    ground (
      arith,
      found,
      counted,
      total,
      get_size (stack 0) d (length bytes) l8 (omega (arith, small, total))
          (sealed-size header bytes count offset f),
      get_offset (stack 1) d offset l4 (omega (arith, small, total))
          (sealed-offset header bytes count offset f),
      slice m.contents m.usedsize (joined before) bytes (joined later)
          (ld.bytes_are ∙ joined_split before header bytes later),
      ld.fits,
      ld.used_is,
      memcpy_front buffer bytes,
      room,
    )
