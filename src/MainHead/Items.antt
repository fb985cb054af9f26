-- ===== src/MainHead/Items.antt =====
-- oper_save.c, createar_write_mainhead: the attributes of the main header.
use fsarchiver.Base.{
  ℕ, ◌+◌, ◌-◌, ◌%◌, ◌^◌, ◌<◌, ◌≡◌, refl, ap, true, false, some, List, [], ◌∷◌, ◌++◌, arith, ◌==◌,
  if◌then◌else◌, length, length-append, take_all, Bool-cases, inl, inr,
}
use fsarchiver.Base.Int.{pos}
use fsarchiver.Base.Bytes.{put_le, length-put_le}
use fsarchiver.Dico.{
  plenty, Dico, DicoItem, new_item, is_duplicate, dico_alloc, dico_add_generic, dico_add_data,
  dico_add_u32, dico_add_u64, dico_add_string, code_of_type,
}
use fsarchiver.ThreadComp.{Codecs, encrypt_none}
use fsarchiver.Target.{Digest}
use fsarchiver.ArchWriter.Layout.{number_item, text_item}
use fsarchiver.MainHead.{
  HeadOptions, password, archtype_filesystems, checkpassbuf_size, fsa_version_build,
  mainhead_common, add_fscount, add_password_test,
}
use fsarchiver.MainHead.Key

abbrev pub long_item : ℕ → ℕ → DicoItem
long_item key x = new_item 0 key 8 4 (some (put_le 8 x))

abbrev pub data_item : ℕ → List ℕ → DicoItem
data_item key bs = new_item 0 key (length bs) 5 (some bs)

add_short_text :
    (d : Dico) (key : ℕ) (text : List ℕ)
    → length text < 2 ^ 16 - 1
    → is_duplicate 0 key d ≡ false
    → dico_add_string plenty d 0 key text ≡ (pos 0, d ++ (text_item key text ∷ []))
unfolding dico_add_string dico_add_generic code_of_type
add_short_text d key text h u =
    let size : (length text % 2 ^ 16 + 1) % 2 ^ 16 ≡ length text + 1 = omega (arith, h) in
    ground (
      arith,
      u,
      size,
      take_all (length text + 1) (text ++ (0 ∷ [])) (omega (arith, length-append text (0 ∷ []))),
    )

add_number :
    (d : Dico) (key x : ℕ)
    → is_duplicate 0 key d ≡ false
    → dico_add_u32 plenty d 0 key x ≡ (pos 0, d ++ (number_item key x ∷ []))
unfolding dico_add_u32 dico_add_generic code_of_type
add_number d key x u = ground (arith, u, take_all 4 (put_le 4 x), length-put_le 4 x)

add_long :
    (d : Dico) (key x : ℕ)
    → is_duplicate 0 key d ≡ false
    → dico_add_u64 plenty d 0 key x ≡ (pos 0, d ++ (long_item key x ∷ []))
unfolding dico_add_u64 dico_add_generic code_of_type
add_long d key x u = ground (arith, u, take_all 8 (put_le 8 x), length-put_le 8 x)

add_bytes :
    (d : Dico) (key n : ℕ) (bs : List ℕ)
    → length bs ≡ n
    → 0 < n
    → is_duplicate 0 key d ≡ false
    → dico_add_data plenty d 0 key bs n ≡ (pos 0, d ++ (data_item key bs ∷ []))
unfolding dico_add_data dico_add_generic code_of_type
add_bytes d key n bs h p u = ground (arith, u, h, p, take_all n bs)

-- The attributes of every archive, in front of `rest`.
abbrev pub text_items : HeadOptions → Dico → Dico
text_items o rest =
    text_item Key.fileformatver o.filefmt
    ∷ text_item Key.progvercreat o.version
    ∷ text_item Key.archlabel o.archlabel
    ∷ rest

abbrev pub common_items : HeadOptions → ℕ → ℕ → ℕ → Dico → Dico
common_items o now archid archtype rest = text_items o (
    long_item Key.creattime now
    ∷ number_item Key.archiveid archid
    ∷ number_item Key.archtype archtype
    ∷ number_item Key.compressalgo o.compressalgo
    ∷ number_item Key.compresslevel o.compresslevel
    ∷ number_item Key.encryptalgo o.encryptalgo
    ∷ number_item Key.fsacomplevel o.fsacomplevel
    ∷ number_item Key.hasdirsinfohead 1
    ∷ long_item Key.minfsaversion (fsa_version_build 0 6 4 0)
    ∷ rest)

abbrev pub fscount_items : ℕ → ℕ → Dico
fscount_items archtype fscount =
    if archtype == archtype_filesystems then long_item Key.fscount fscount ∷ [] else []

abbrev pub password_items : ℕ → List ℕ → List ℕ → Dico
password_items encryptalgo md5 crypted =
    if encryptalgo == encrypt_none
    then []
    else data_item Key.bufcheckpassclearmd5 md5 ∷ data_item Key.bufcheckpasscryptbuf crypted ∷ []

-- The texts have room in their fields.
pub record HasShortTexts (o : HeadOptions) : Type 0 where
  pub filefmt : length o.filefmt < 32
  pub version : length o.version < 32
  pub archlabel : length o.archlabel < 512

pub mainhead_common-items :
    (o : HeadOptions) (now archid archtype : ℕ)
    → HasShortTexts o
    → mainhead_common plenty o now archid archtype ≡ common_items o now archid archtype []
unfolding mainhead_common is_duplicate dico_alloc
mainhead_common-items o now archid archtype h =
    let t1 = text_item Key.fileformatver o.filefmt in
    let t2 = text_item Key.progvercreat o.version in
    let t3 = text_item Key.archlabel o.archlabel in
    let n4 = long_item Key.creattime now in
    let n5 = number_item Key.archiveid archid in
    let n6 = number_item Key.archtype archtype in
    let n7 = number_item Key.compressalgo o.compressalgo in
    let n8 = number_item Key.compresslevel o.compresslevel in
    let n9 = number_item Key.encryptalgo o.encryptalgo in
    let n10 = number_item Key.fsacomplevel o.fsacomplevel in
    let n11 = number_item Key.hasdirsinfohead 1 in
    rw
      (
        mainhead_common,
        dico_alloc,
        add_short_text [] Key.fileformatver o.filefmt (omega (arith, h.filefmt)) refl,
        add_short_text (t1 ∷ []) Key.progvercreat o.version (omega (arith, h.version)) refl,
        add_short_text (t1 ∷ t2 ∷ []) Key.archlabel o.archlabel (omega (arith, h.archlabel)) refl,
        add_long (text_items o []) Key.creattime now refl,
        add_number (text_items o (n4 ∷ [])) Key.archiveid archid refl,
        add_number (text_items o (n4 ∷ n5 ∷ [])) Key.archtype archtype refl,
        add_number (text_items o (n4 ∷ n5 ∷ n6 ∷ [])) Key.compressalgo o.compressalgo refl,
        add_number (text_items o (n4 ∷ n5 ∷ n6 ∷ n7 ∷ [])) Key.compresslevel o.compresslevel refl,
        add_number (text_items o (n4 ∷ n5 ∷ n6 ∷ n7 ∷ n8 ∷ [])) Key.encryptalgo o.encryptalgo refl,
        add_number (text_items o (n4 ∷ n5 ∷ n6 ∷ n7 ∷ n8 ∷ n9 ∷ [])) Key.fsacomplevel o.fsacomplevel
            refl,
        add_number (text_items o (n4 ∷ n5 ∷ n6 ∷ n7 ∷ n8 ∷ n9 ∷ n10 ∷ [])) Key.hasdirsinfohead 1
            refl,
        add_long (text_items o (n4 ∷ n5 ∷ n6 ∷ n7 ∷ n8 ∷ n9 ∷ n10 ∷ n11 ∷ [])) Key.minfsaversion
            (fsa_version_build 0 6 4 0) refl,
      )
      refl

pub add_fscount-items :
    (o : HeadOptions) (now archid archtype fscount : ℕ)
    → add_fscount plenty archtype fscount (common_items o now archid archtype [])
      ≡ common_items o now archid archtype (fscount_items archtype fscount)
unfolding add_fscount is_duplicate
add_fscount-items o now archid archtype fscount =
    elim (Bool-cases (archtype == archtype_filesystems)) [
      | inr e ↦ rw e refl
      | inl e ↦ rw e (
          ap (λ r. r.1) (add_long (common_items o now archid archtype []) Key.fscount fscount refl))
    ]

abbrev pub mainhead_items : HeadOptions → ℕ → ℕ → ℕ → ℕ → List ℕ → List ℕ → Dico
mainhead_items o now archid archtype fscount md5 crypted =
    common_items o now archid archtype
      (fscount_items archtype fscount ++ password_items o.encryptalgo md5 crypted)

-- The two additions of the test, to a dictionary with any other attributes.
add_both :
    (codecs : Codecs) (digest : Digest) (random : List ℕ) (o : HeadOptions) (d : Dico)
    → length (digest.md5 random) ≡ 16
    → length (codecs.blowfish true (password o) random).1 ≡ checkpassbuf_size
    → (o.encryptalgo == encrypt_none) ≡ false
    → is_duplicate 0 Key.bufcheckpassclearmd5 d ≡ false
    → is_duplicate 0 Key.bufcheckpasscryptbuf
        (d ++ (data_item Key.bufcheckpassclearmd5 (digest.md5 random) ∷ []))
      ≡ false
    → add_password_test codecs digest random plenty o d
      ≡ some (
          (d ++ (data_item Key.bufcheckpassclearmd5 (digest.md5 random) ∷ []))
          ++ (data_item Key.bufcheckpasscryptbuf (codecs.blowfish true (password o) random).1 ∷ []))
unfolding add_password_test
add_both codecs digest random o d h1 h2 e u1 u2 =
    let md5 = digest.md5 random in
    let crypted = (codecs.blowfish true (password o) random).1 in
    ground (
      arith,
      e,
      add_bytes d Key.bufcheckpassclearmd5 16 md5 h1 (omega arith) u1,
      add_bytes (d ++ (data_item Key.bufcheckpassclearmd5 md5 ∷ [])) Key.bufcheckpasscryptbuf
          checkpassbuf_size crypted h2 (omega arith) u2,
    )

add_nothing :
    (codecs : Codecs) (digest : Digest) (random : List ℕ) (o : HeadOptions) (d : Dico)
    → (o.encryptalgo == encrypt_none) ≡ true
    → add_password_test codecs digest random plenty o d ≡ some d
unfolding add_password_test
add_nothing codecs digest random o d e = ground (arith, e)

pub add_password_test-items :
    (codecs : Codecs) (digest : Digest) (random : List ℕ) (o : HeadOptions)
    (now archid archtype fscount : ℕ)
    → ((o.encryptalgo == encrypt_none) ≡ false
        → (length (digest.md5 random) ≡ 16)
          × (length (codecs.blowfish true (password o) random).1 ≡ checkpassbuf_size))
    → add_password_test codecs digest random plenty o
        (common_items o now archid archtype (fscount_items archtype fscount))
      ≡ some (
          mainhead_items o now archid archtype fscount
            (digest.md5 random)
            (codecs.blowfish true (password o) random).1)
unfolding is_duplicate
add_password_test-items codecs digest random o now archid archtype fscount h =
    elim (Bool-cases (o.encryptalgo == encrypt_none)) [
      | inl e ↦ elim (Bool-cases (archtype == archtype_filesystems)) [
        | inl t ↦
            rw (t, e)
              (add_nothing codecs digest random o
                (common_items o now archid archtype (long_item Key.fscount fscount ∷ [])) e)
        | inr t ↦
            rw (t, e) (add_nothing codecs digest random o (common_items o now archid archtype []) e)
      ]
      | inr e ↦ elim (Bool-cases (archtype == archtype_filesystems)) [
        | inl t ↦
            rw (t, e)
              (add_both codecs digest random o
                (common_items o now archid archtype (long_item Key.fscount fscount ∷ [])) (h e).0
                (h e).1 e refl refl)
        | inr t ↦
            rw (t, e)
              (add_both codecs digest random o (common_items o now archid archtype []) (h e).0
                (h e).1 e refl refl)
      ]
    ]
