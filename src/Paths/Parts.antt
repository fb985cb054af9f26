-- ===== src/Paths/Parts.antt =====
-- common.c: the directory and the name of a path, and the extension of an archive.
use fsarchiver.Base.{
  ℕ, ◌-◌, ◌<◌, ◌≡◌, refl, ap, ◌∙◌, sym, Bool, true, false, not, ◌||◌, some, none, List, [], ◌∷◌,
  ◌++◌, arith, ltb, ◌==◌, bytes_eq, bytes_eq_refl, length, length-append, bytes_eq-eq,
  take-append-drop, drop, drop-append, take, append_assoc, ◌⊎◌, Bool-cases, inl, inr,
}
use fsarchiver.Base.Arrays.{take_enough}
use fsarchiver.Strlist.{cut}
use fsarchiver.Paths.{
  without_slash, skip_slashes, concatenate_paths, before_last_slash, extract_dirpath, has_slash,
  after_last_slash, extract_basename, path_force_extension,
}

-- The path of the directory: "/" for the root.
abbrev pub dir_text : List ℕ → List ℕ
dir_text [] = 47 ∷ []
dir_text (c ∷ front) = c ∷ front

before_last_slash-none : (name : List ℕ) → has_slash name ≡ false → before_last_slash name ≡ none
unfolding before_last_slash has_slash
before_last_slash-none [] h = refl
before_last_slash-none (c ∷ name) h = elim (Bool-cases (c == 47)) [
  | inl e ↦ absurd (ground (arith, e, h))
  | inr e ↦ rw (before_last_slash-none name (rw e at h), e) refl
]

before_last_slash-append :
    (front name : List ℕ)
    → has_slash name ≡ false
    → before_last_slash (front ++ (47 ∷ name)) ≡ some front
unfolding before_last_slash
before_last_slash-append [] name h = rw (before_last_slash-none name h) refl
before_last_slash-append (c ∷ front) name h = rw (before_last_slash-append front name h) refl

has_slash-append : (front name : List ℕ) → has_slash (front ++ (47 ∷ name)) ≡ true
unfolding has_slash
has_slash-append [] name = refl
has_slash-append (c ∷ front) name = ground (arith, has_slash-append front name)

after_last_slash-append :
    (front name : List ℕ) → has_slash name ≡ false → after_last_slash (front ++ (47 ∷ name)) ≡ name
unfolding after_last_slash
after_last_slash-append [] name h = rw h refl
after_last_slash-append (c ∷ front) name h =
    rw (has_slash-append front name) (after_last_slash-append front name h)

skip_slashes-name : (name : List ℕ) → has_slash name ≡ false → skip_slashes name ≡ name
unfolding skip_slashes has_slash
skip_slashes-name [] h = refl
skip_slashes-name (c ∷ name) h = ground (arith, h)

without_slash-dir_text :
    (front : List ℕ) → without_slash front ≡ front → without_slash (dir_text front) ≡ front
unfolding without_slash
without_slash-dir_text [] h = refl
without_slash-dir_text (c ∷ front) h = h

extract_dirpath-front :
    (front name : List ℕ) (bufsize : ℕ)
    → has_slash name ≡ false
    → length (front ++ (47 ∷ name)) < bufsize
    → extract_dirpath (front ++ (47 ∷ name)) bufsize ≡ dir_text front
unfolding extract_dirpath
extract_dirpath-front front name bufsize h fits =
    let whole = take_enough (bufsize - 1) (front ++ (47 ∷ name)) (omega (arith, fits)) in
    let found = before_last_slash-append front name h in
    elim front
        as (λ f.
          before_last_slash (cut bufsize (front ++ (47 ∷ name))) ≡ some f
          → extract_dirpath (front ++ (47 ∷ name)) bufsize ≡ dir_text f) [
            | [] ↦ λ e. ground (arith, e)
            | c ∷ f ↦ λ e. ground (arith, e)
          ]
      (ap before_last_slash whole ∙ found)

extract_basename-name :
    (front name : List ℕ) (bufsize : ℕ)
    → has_slash name ≡ false
    → length (front ++ (47 ∷ name)) < bufsize
    → extract_basename (front ++ (47 ∷ name)) bufsize ≡ name
unfolding extract_basename
extract_basename-name front name bufsize h fits =
    rw (after_last_slash-append front name h)
      (take_enough (bufsize - 1) name (omega (arith, fits, length-append front (47 ∷ name))))

pub concatenate_paths-dir_text :
    (front name : List ℕ) (bufsize : ℕ)
    → has_slash name ≡ false
    → without_slash front ≡ front
    → length (front ++ (47 ∷ name)) < bufsize
    → concatenate_paths bufsize (dir_text front) name ≡ some (front ++ (47 ∷ name))
unfolding concatenate_paths
concatenate_paths-dir_text front name bufsize h e fits =
    let len = length-append front (47 ∷ name) in
    let short = take_enough (bufsize - 1) name (omega (arith, fits, len)) in
    rw (without_slash-dir_text front e, skip_slashes-name name h, short)
      (ground (arith, fits, append_assoc front (47 ∷ []) name))

-- A path with a '/' is `front`, the last '/' and a name. Where it fits the buffers and `front` does
-- not end with a '/', extract_dirpath gives `front`, or "/" where that is empty, extract_basename
-- gives the name, and concatenate_paths makes the path of the two again.
pub concatenate_paths-extract_dirpath :
    (front name : List ℕ) (bufsize : ℕ)
    → has_slash name ≡ false
    → without_slash front ≡ front
    → length (front ++ (47 ∷ name)) < bufsize
    → (extract_dirpath (front ++ (47 ∷ name)) bufsize ≡ dir_text front)
      × (extract_basename (front ++ (47 ∷ name)) bufsize ≡ name)
      × (concatenate_paths bufsize
            (extract_dirpath (front ++ (47 ∷ name)) bufsize)
            (extract_basename (front ++ (47 ∷ name)) bufsize)
          ≡ some (front ++ (47 ∷ name)))
concatenate_paths-extract_dirpath front name bufsize h e fits =
    let d = extract_dirpath-front front name bufsize h fits in
    let b = extract_basename-name front name bufsize h fits in
    (d, b, rw (d, b) (concatenate_paths-dir_text front name bufsize h e fits))

drop_end :
    (origpath ext : List ℕ) → drop (length (origpath ++ ext) - length ext) (origpath ++ ext) ≡ ext
drop_end origpath ext =
    drop-append (length (origpath ++ ext) - length ext) origpath ext
      (omega (arith, length-append origpath ext))

-- A path that already ends with the extension.
path_force_extension-present :
    (bufsize : ℕ) (origpath ext : List ℕ)
    → length (origpath ++ ext) < bufsize
    → path_force_extension bufsize (origpath ++ ext) ext ≡ origpath ++ ext
unfolding path_force_extension
path_force_extension-present bufsize origpath ext fits = rw (drop_end origpath ext) (
    ground (
      arith,
      fits,
      bytes_eq_refl ext,
      length-append origpath ext,
      take_enough (bufsize - 1) (origpath ++ ext) (omega (arith, fits)),
    ))

abbrev lacks : List ℕ → List ℕ → Bool
lacks origpath ext =
    ltb (length origpath) (length ext)
    || not (bytes_eq (drop (length origpath - length ext) origpath) ext)

lacks-false :
    (origpath ext : List ℕ)
    → lacks origpath ext ≡ false
    → take (length origpath - length ext) origpath ++ ext ≡ origpath
lacks-false origpath ext h =
    let n = length origpath - length ext in
    let e = bytes_eq-eq (drop n origpath) ext (ground (arith, h)) in
    ap (◌++◌ (take n origpath)) (sym e) ∙ take-append-drop n origpath

-- Where the path and the extension fit the buffer, the result is a path followed by the extension,
-- the extension is added once only, and a path that ends with it is left as it is.
pub path_force_extension_lem :
    (bufsize : ℕ) (origpath ext : List ℕ)
    → length (origpath ++ ext) < bufsize
    → (stem : List ℕ) × (path_force_extension bufsize origpath ext ≡ stem ++ ext)
      × ((stem ++ ext ≡ origpath) ⊎ (stem ≡ origpath))
      × (path_force_extension bufsize (path_force_extension bufsize origpath ext) ext
          ≡ path_force_extension bufsize origpath ext)
unfolding path_force_extension
path_force_extension_lem bufsize origpath ext fits = elim (Bool-cases (lacks origpath ext)) [
  | inl h ↦
      let whole = take_enough (bufsize - 1) (origpath ++ ext) (omega (arith, fits)) in
      let added : path_force_extension bufsize origpath ext ≡ origpath ++ ext =
        ground (arith, h, whole) in
      (
        origpath,
        added,
        inr refl,
        ap (λ p. path_force_extension bufsize p ext) added
            ∙ path_force_extension-present bufsize origpath ext fits
            ∙ sym added,
      )
  | inr h ↦
      let stem = take (length origpath - length ext) origpath in
      let e = lacks-false origpath ext h in
      let whole =
        take_enough (bufsize - 1) origpath (omega (arith, fits, length-append origpath ext)) in
      let same : path_force_extension bufsize origpath ext ≡ origpath = ground (arith, h, whole) in
      (stem, same ∙ sym e, inl e, ap (λ p. path_force_extension bufsize p ext) same)
]
