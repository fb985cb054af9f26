-- ===== src/MainHead/Fields.antt =====
-- oper_restore.c: what extractar_read_mainhead finds in the main header that is written.
use fsarchiver.Base.{
  ℕ, ◌+◌, ◌^◌, ◌≤◌, ◌<◌, ◌≡◌, refl, ap, ◌∙◌, false, some, List, [], ◌∷◌, ◌++◌, arith, ◌==◌,
  if◌then◌else◌, length, drop, memcpy_front, Bool-cases, inl, inr,
}
use fsarchiver.Base.Int.{pos}
use fsarchiver.Base.Bytes.{put_le, length-put_le, get_le-put_le}
use fsarchiver.Dico.{Dico, dico_get_data, dico_get_u64, copy_contents}
use fsarchiver.Dico.Lookup.{lookup, dico_get_generic-answer}
use fsarchiver.Dico.Words.{get_word_stored}
use fsarchiver.ThreadComp.{encrypt_none}
use fsarchiver.ArchReader.Blocks.{Stack}
use fsarchiver.ArchReader.VolHeader.RoundTrip.{stored_text, get_number}
use fsarchiver.ArchWriter.Layout.{text_item}
use fsarchiver.MainHead.{
  HeadOptions, ArchInfo, checkpassbuf_size, archtype_filesystems, fsa_version_build, read_fscount,
  read_fields, read_optional,
}
use fsarchiver.MainHead.Key
use fsarchiver.MainHead.Items.{long_item, data_item, HasShortTexts, mainhead_items}

get_field :
    (d : Dico) (key n : ℕ) (text junk : List ℕ)
    → length text < n
    → lookup d 0 key ≡ some (text_item key text)
    → dico_get_data d 0 key junk n ≡ (pos 0, stored_text text junk, length text + 1)
unfolding dico_get_data copy_contents
get_field d key n text junk h f = ground (
  arith,
  dico_get_generic-answer d 0 key junk n (text_item key text) (omega (arith, h)) f,
  memcpy_front junk (text ++ (0 ∷ [])),
  h,
)

get_long :
    (d : Dico) (key x : ℕ) (junk : List ℕ)
    → length junk ≡ 8
    → x < 2 ^ 64
    → lookup d 0 key ≡ some (long_item key x)
    → dico_get_u64 junk d 0 key ≡ (pos 0, x)
unfolding dico_get_u64
get_long d key x junk l h f =
    get_word_stored 8 junk d 0 key (long_item key x) (put_le 8 x) (omega arith) l f refl refl
      (length-put_le 8 x)
    ∙ ap (λ k. (pos 0, k)) (get_le-put_le 8 x h)

pub get_bytes :
    (d : Dico) (key n : ℕ) (bs junk : List ℕ)
    → 0 < length bs
    → length bs ≤ n
    → lookup d 0 key ≡ some (data_item key bs)
    → dico_get_data d 0 key junk n ≡ (pos 0, bs ++ drop (length bs) junk, length bs)
unfolding dico_get_data copy_contents
get_bytes d key n bs junk p h f = ground (
  arith,
  dico_get_generic-answer d 0 key junk n (data_item key bs) (omega (arith, p, h)) f,
  memcpy_front junk bs,
  h,
  p,
)

-- The words on the stack have their sizes, and so has the buffer of the password's test.
pub record IsHeadStack (stack : Stack) : Type 0 where
  pub words :
      (i : ℕ)
      → i < 11
      → (i == 1) ≡ false
      → (i == 8) ≡ false
      → (i == 10) ≡ false
      → length (stack i) ≡ 4
  pub longs : (length (stack 1) ≡ 8) × (length (stack 8) ≡ 8) × (length (stack 10) ≡ 8)
  pub buffer : length (stack 11) ≡ checkpassbuf_size + 8

-- The numbers fit their words.
pub record HasWords (o : HeadOptions) (now archid archtype fscount : ℕ) : Type 0 where
  pub creattime_fits : now < 2 ^ 64
  pub archid_fits : archid < 2 ^ 32
  pub archtype_fits : archtype < 2 ^ 32
  pub fscount_fits : fscount < 2 ^ 64
  pub compressalgo_fits : o.compressalgo < 2 ^ 32
  pub compresslevel_fits : o.compresslevel < 2 ^ 32
  pub encryptalgo_fits : o.encryptalgo < 2 ^ 32
  pub fsacomplevel_fits : o.fsacomplevel < 2 ^ 32

-- What the reader knows in the end, `ai` being what it held before.
abbrev pub info_of : HeadOptions → ℕ → ℕ → ℕ → ℕ → ArchInfo → ArchInfo
info_of o now archid archtype fscount ai = record {
  archtype = archtype;
  fscount = if archtype == archtype_filesystems then fscount else ai.fscount;
  archid = archid;
  filefmt = stored_text o.filefmt ai.filefmt;
  creatver = stored_text o.version ai.creatver;
  label = stored_text o.archlabel ai.label;
  compalgo = o.compressalgo;
  cryptalgo = o.encryptalgo;
  complevel = o.compresslevel;
  fsacomp = o.fsacomplevel;
  creattime = now;
  hasdirsinfohead = 1;
  minfsaver = fsa_version_build 0 6 4 0;
}

abbrev pub before_optional : HeadOptions → ℕ → ℕ → ℕ → ℕ → ArchInfo → ArchInfo
before_optional o now archid archtype fscount ai =
    record (info_of o now archid archtype fscount ai) {
      hasdirsinfohead = ai.hasdirsinfohead;
      minfsaver = ai.minfsaver;
    }

version_fits : fsa_version_build 0 6 4 0 < 2 ^ 64
unfolding fsa_version_build
version_fits = omega arith

module _ (stack : Stack) (ok : IsHeadStack stack) (o : HeadOptions) (texts : HasShortTexts o)
    (now archid archtype fscount : ℕ) (words : HasWords o now archid archtype fscount)
    (md5 crypted : List ℕ) where
  abbrev dico : Dico
  dico = mainhead_items o now archid archtype fscount md5 crypted

  read_fscount-items :
      (ai : ArchInfo)
      → ai.archtype ≡ archtype
      → read_fscount stack dico ai
        ≡ some (record ai {
          fscount = if archtype == archtype_filesystems then fscount else ai.fscount;
        })
  unfolding read_fscount lookup
  read_fscount-items ai e = elim (Bool-cases (archtype == archtype_filesystems)) [
    | inr t ↦ ground (arith, e, t)
    | inl t ↦ ground (
      arith,
      e,
      t,
      get_long dico Key.fscount fscount (stack 1) ok.longs.0 words.fscount_fits (rw t refl),
    )
  ]

  pub read_fields-items :
      (ai : ArchInfo)
      → read_fields stack dico ai ≡ some (before_optional o now archid archtype fscount ai)
  unfolding read_fields lookup
  read_fields-items ai =
      let small = ok.words in
      ground (
        arith,
        read_fscount-items (record ai { archtype = archtype }) refl,
        get_number dico Key.archtype archtype (stack 0) (small 0 (omega arith) refl refl refl)
            words.archtype_fits refl,
        get_number dico Key.archiveid archid (stack 3) (small 3 (omega arith) refl refl refl)
            words.archid_fits refl,
        get_number dico Key.compressalgo o.compressalgo (stack 4)
            (small 4 (omega arith) refl refl refl) words.compressalgo_fits refl,
        get_number dico Key.encryptalgo o.encryptalgo (stack 5)
            (small 5 (omega arith) refl refl refl) words.encryptalgo_fits refl,
        get_number dico Key.compresslevel o.compresslevel (stack 6)
            (small 6 (omega arith) refl refl refl) words.compresslevel_fits refl,
        get_number dico Key.fsacomplevel o.fsacomplevel (stack 7)
            (small 7 (omega arith) refl refl refl) words.fsacomplevel_fits refl,
        get_long dico Key.creattime now (stack 8) ok.longs.1 words.creattime_fits refl,
        get_field dico Key.fileformatver 32 o.filefmt ai.filefmt texts.filefmt refl,
        get_field dico Key.progvercreat 32 o.version ai.creatver texts.version refl,
        get_field dico Key.archlabel 512 o.archlabel ai.label texts.archlabel refl,
      )

  pub read_optional-items :
      (ai : ArchInfo)
      → read_optional stack dico (before_optional o now archid archtype fscount ai)
        ≡ info_of o now archid archtype fscount ai
  unfolding read_optional lookup
  read_optional-items ai = ground (
    arith,
    get_number dico Key.hasdirsinfohead 1 (stack 9) (ok.words 9 (omega arith) refl refl refl)
        (omega arith) refl,
    get_long dico Key.minfsaversion (fsa_version_build 0 6 4 0) (stack 10) ok.longs.2 version_fits
        refl,
  )

  pub password_lookups :
      (o.encryptalgo == encrypt_none) ≡ false
      → (lookup dico 0 Key.bufcheckpassclearmd5 ≡ some (data_item Key.bufcheckpassclearmd5 md5))
        × (lookup dico 0 Key.bufcheckpasscryptbuf
            ≡ some (data_item Key.bufcheckpasscryptbuf crypted))
  unfolding lookup
  password_lookups e = elim (Bool-cases (archtype == archtype_filesystems)) [
    | inl t ↦ rw (t, e) (refl, refl)
    | inr t ↦ rw (t, e) (refl, refl)
  ]
