-- ===== src/Regmulti/Packed.antt =====
-- regmulti.c: the packed files as an array of headers and one run of data.
use fsarchiver.Base.{
  ℕ, ◌+◌, ◌^◌, ◌≤◌, ◌<◌, ◌≡◌, refl, ap, sym, ◌∙◌, true, false, Option, none, some, List, [], ◌∷◌,
  ◌++◌, arith, if◌then◌else◌, length, length-append, set, take, take_all, replicate,
  length-replicate, memcpy, append-nil, append_assoc, Bool-cases, inl, inr,
}
use fsarchiver.Base.Arrays.{length-set, take-suc-set, take-memcpy, length-memcpy}
use fsarchiver.Base.Int.{pos, minus_one}
use fsarchiver.Constants.{max_blksize, max_smallfilecount}
use fsarchiver.Dico.{Dico}
use fsarchiver.Regmulti.{
  Regmulti, regmulti_init, regmulti_empty, regmulti_save_enough_space_for_new_file,
  regmulti_save_addfile,
}

-- A file: its header, and its data.
abbrev pub File : Type 0
File = Dico × List ℕ

abbrev pub heads_of : List File → List (Option Dico)
heads_of [] = []
heads_of ((header, _) ∷ files) = some header ∷ heads_of files

abbrev pub joined : List File → List ℕ
joined [] = []
joined ((_, bytes) ∷ files) = bytes ++ joined files

pub record IsPacked (m : Regmulti) (files : List File) : Type 0 where
  pub maxitems_is : m.maxitems ≡ max_smallfilecount
  pub limit : m.maxblksize ≤ max_blksize
  pub array_size : length m.objhead ≡ max_smallfilecount
  pub block_size : length m.contents ≡ max_blksize
  pub count_is : m.count ≡ length files
  pub heads_are : take m.count m.objhead ≡ heads_of files
  pub used_is : m.usedsize ≡ length (joined files)
  pub fits : m.usedsize ≤ m.maxblksize
  pub bytes_are : take m.usedsize m.contents ≡ joined files

pub heads_of-append :
    (files : List File) (header : Dico) (bytes : List ℕ)
    → heads_of (files ++ ((header, bytes) ∷ [])) ≡ heads_of files ++ (some header ∷ [])
heads_of-append [] header bytes = refl
heads_of-append ((h, _) ∷ files) header bytes =
    ap (◌∷◌ (some h)) (heads_of-append files header bytes)

pub joined-append :
    (files : List File) (header : Dico) (bytes : List ℕ)
    → joined (files ++ ((header, bytes) ∷ [])) ≡ joined files ++ bytes
joined-append [] header bytes = append-nil bytes
joined-append ((_, bs) ∷ files) header bytes =
    ap (◌++◌ bs) (joined-append files header bytes) ∙ sym (append_assoc bs (joined files) bytes)

-- `m` with one more file.
abbrev packed : Regmulti → Dico → List ℕ → Regmulti
packed m header bytes = record m {
  objhead = set m.objhead m.count (some header);
  contents = memcpy m.contents m.usedsize bytes;
  usedsize = m.usedsize + length bytes;
  count = m.count + 1;
}

packed-IsPacked :
    (m : Regmulti) (files : List File) (header : Dico) (bytes : List ℕ)
    → IsPacked m files
    → m.count < max_smallfilecount
    → m.usedsize + length bytes ≤ m.maxblksize
    → IsPacked (packed m header bytes) (files ++ ((header, bytes) ∷ []))
packed-IsPacked m files header bytes p hc hs = record {
  maxitems_is = p.maxitems_is;
  limit = p.limit;
  array_size = length-set m.objhead m.count (some header) ∙ p.array_size;
  block_size =
      length-memcpy m.contents m.usedsize bytes (omega (arith, hs, p.limit, p.block_size))
      ∙ p.block_size;
  count_is = omega (arith, p.count_is, length-append files ((header, bytes) ∷ []));
  heads_are =
      take-suc-set m.count m.objhead (some header) (omega (arith, hc, p.array_size))
      ∙ ap (λ xs. xs ++ (some header ∷ [])) p.heads_are
      ∙ sym (heads_of-append files header bytes);
  used_is = omega (
    arith,
    p.used_is,
    ap length (joined-append files header bytes),
    length-append (joined files) bytes,
  );
  fits = hs;
  bytes_are =
      take-memcpy m.contents m.usedsize (m.usedsize + length bytes) bytes refl
        (omega (arith, hs, p.limit, p.block_size))
      ∙ ap (λ xs. xs ++ bytes) p.bytes_are
      ∙ sym (joined-append files header bytes);
}

added :
    (m : Regmulti) (files : List File) (header : Dico) (bytes : List ℕ)
    → IsPacked m files
    → length bytes + max_blksize < 2 ^ 32
    → regmulti_save_enough_space_for_new_file m (length bytes) ≡ true
    → (regmulti_save_addfile m header bytes (length bytes) ≡ some (pos 0, packed m header bytes))
      × (m.count < max_smallfilecount)
      × (m.usedsize + length bytes ≤ m.maxblksize)
unfolding regmulti_save_addfile regmulti_save_enough_space_for_new_file
added m files header bytes p small h = (
  ground (arith, h, small, p.fits, p.limit, p.block_size, take_all (length bytes) bytes refl),
  ground (arith, h, p.maxitems_is),
  ground (arith, h, small, p.fits, p.limit),
)

refused :
    (m : Regmulti) (header : Dico) (bytes : List ℕ) (size : ℕ)
    → regmulti_save_enough_space_for_new_file m size ≡ false
    → regmulti_save_addfile m header bytes size ≡ some (minus_one, m)
unfolding regmulti_save_addfile regmulti_save_enough_space_for_new_file
refused m header bytes size h = ground (arith, h)

-- A file for which `regmulti_save_enough_space_for_new_file` says that there is room is added behind
-- the others, header and data; any other is refused, and the structure is left as it was. The size
-- must be less than 2 ^ 32 by the largest block, so that the sum of sizes does not wrap.
pub regmulti_save_addfile_lem :
    (m : Regmulti) (files : List File) (header : Dico) (bytes : List ℕ)
    → IsPacked m files
    → length bytes + max_blksize < 2 ^ 32
    → (m' : Regmulti) × (regmulti_save_addfile m header bytes (length bytes)
        ≡ some (
          if regmulti_save_enough_space_for_new_file m (length bytes) then pos 0 else minus_one,
          m',
        ))
      × (if regmulti_save_enough_space_for_new_file m (length bytes)
          then IsPacked m' (files ++ ((header, bytes) ∷ []))
          else m' ≡ m)
regmulti_save_addfile_lem m files header bytes p small =
    elim (Bool-cases (regmulti_save_enough_space_for_new_file m (length bytes))) [
      | inl h ↦
          let (e, hc, hs) = added m files header bytes p small h in
          (packed m header bytes, rw h e, rw h (packed-IsPacked m files header bytes p hc hs))
      | inr h ↦ (m, rw h (refused m header bytes (length bytes) h), rw h refl)
    ]

-- A structure with arrays of their declared sizes is empty after `regmulti_init`, whatever it held.
pub regmulti_init-IsPacked :
    (m : Regmulti) (maxblksize : ℕ)
    → length m.objhead ≡ max_smallfilecount
    → length m.contents ≡ max_blksize
    → IsPacked (regmulti_init m maxblksize).1 []
unfolding regmulti_init regmulti_empty
regmulti_init-IsPacked m maxblksize ho hd = record {
  maxitems_is = refl;
  limit = omega arith;
  array_size =
      length-memcpy m.objhead 0 (replicate max_smallfilecount none)
        (omega (arith, ho, length-replicate {A = Option Dico} max_smallfilecount none))
      ∙ ho;
  block_size = hd;
  count_is = refl;
  heads_are = refl;
  used_is = refl;
  fits = omega arith;
  bytes_are = refl;
}
