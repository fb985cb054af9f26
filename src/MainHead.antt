-- ===== src/MainHead.antt =====
-- The main header of an archive: createar_write_mainhead of oper_save.c and extractar_read_mainhead
-- of oper_restore.c. `none` is a call that has to wait for the queue, or a fault: a failed assertion,
-- or a checksum that is written past the end of its array.
pub mod Key
pub mod Items
pub mod Fields
pub mod Password
pub mod RoundTrip
use fsarchiver.Base.{
  ℕ, zero, suc, ◌+◌, ◌-◌, ◌*◌, ◌%◌, ◌^◌, Bool, true, false, not, ◌&&◌, ◌||◌, Option, none, some,
  List, [], ◌∷◌, ◌++◌, ltb, ◌==◌, if◌then◌else◌, bytes_eq, length, take, replicate,
}
use fsarchiver.Base.Int.{ℤ, pos, is_error, minus_one}
use fsarchiver.Constants.{magic_main, filesysid_null, max_filefmtlen, max_progverlen}
use fsarchiver.Dico.{
  Memory, Dico, dico_alloc, dico_add_data, dico_add_u32, dico_add_u64, dico_add_string,
  dico_get_u32, dico_get_u64, dico_get_data,
}
use fsarchiver.Writebuf.{from_nth}
use fsarchiver.Queue.{Queue, queue_add_header}
use fsarchiver.Queue.Removal.{queue_dequeue_header}
use fsarchiver.ThreadComp.{Codecs, encrypt_none}
use fsarchiver.Target.{Digest}
use fsarchiver.MainHead.Key
use fsarchiver.ArchReader.Blocks.{Stack}
use fsarchiver.Restore.Attributes.{c_string}

abbrev pub archtype_filesystems : ℕ
archtype_filesystems = 1

-- FSA_MAX_LABELLEN, FSA_MIN_PASSLEN, FSA_MAX_PASSLEN and FSA_CHECKPASSBUF_SIZE
abbrev pub max_labellen : ℕ
max_labellen = 512

abbrev pub min_passlen : ℕ
min_passlen = 6

abbrev pub max_passlen : ℕ
max_passlen = 64

abbrev pub checkpassbuf_size : ℕ
checkpassbuf_size = 4096

unfoldable pub fsa_version_build : ℕ → ℕ → ℕ → ℕ → ℕ
fsa_version_build a b c d =
    a % 2 ^ 16 * 2 ^ 48 + b % 2 ^ 16 * 2 ^ 32 + c % 2 ^ 16 * 2 ^ 16 + d % 2 ^ 16

-- The format and the version that the program is built with, and the options.
pub record HeadOptions : Type 0 where
  pub filefmt : List ℕ
  pub version : List ℕ
  pub archlabel : List ℕ
  pub compressalgo : ℕ
  pub compresslevel : ℕ
  pub encryptalgo : ℕ
  pub fsacomplevel : ℕ
  pub encryptpass : Option (List ℕ)

abbrev pub password : HeadOptions → List ℕ
password o = elim o.encryptpass [ none ↦ [] | some text ↦ text ]

-- The attributes of every archive; what the additions return is ignored.
unfoldable pub mainhead_common : Memory → HeadOptions → ℕ → ℕ → ℕ → Dico
mainhead_common mem o now archid archtype =
    let d1 = (dico_add_string mem dico_alloc 0 Key.fileformatver o.filefmt).1 in
    let d2 = (dico_add_string (from_nth 2 mem) d1 0 Key.progvercreat o.version).1 in
    let d3 = (dico_add_string (from_nth 4 mem) d2 0 Key.archlabel o.archlabel).1 in
    let d4 = (dico_add_u64 (from_nth 6 mem) d3 0 Key.creattime now).1 in
    let d5 = (dico_add_u32 (from_nth 8 mem) d4 0 Key.archiveid archid).1 in
    let d6 = (dico_add_u32 (from_nth 10 mem) d5 0 Key.archtype archtype).1 in
    let d7 = (dico_add_u32 (from_nth 12 mem) d6 0 Key.compressalgo o.compressalgo).1 in
    let d8 = (dico_add_u32 (from_nth 14 mem) d7 0 Key.compresslevel o.compresslevel).1 in
    let d9 = (dico_add_u32 (from_nth 16 mem) d8 0 Key.encryptalgo o.encryptalgo).1 in
    let d10 = (dico_add_u32 (from_nth 18 mem) d9 0 Key.fsacomplevel o.fsacomplevel).1 in
    let d11 = (dico_add_u32 (from_nth 20 mem) d10 0 Key.hasdirsinfohead 1).1 in
    (dico_add_u64 (from_nth 22 mem) d11 0 Key.minfsaversion (fsa_version_build 0 6 4 0)).1

unfoldable pub add_fscount : Memory → ℕ → ℕ → Dico → Dico
add_fscount mem archtype fscount d =
    if archtype == archtype_filesystems then (dico_add_u64 mem d 0 Key.fscount fscount).1 else d

-- The test of the password: the checksum of random bytes, and those bytes encrypted.
unfoldable pub add_password_test :
    Codecs → Digest → List ℕ → Memory → HeadOptions → Dico → Option Dico
add_password_test codecs digest random mem o d =
    let bufcheckcrypt = (codecs.blowfish true (password o) random).1 in
    let (res1, d1) = dico_add_data mem d 0 Key.bufcheckpassclearmd5 (digest.md5 random) 16 in
    let (res2, d2) =
      dico_add_data (from_nth 2 mem) d1 0 Key.bufcheckpasscryptbuf bufcheckcrypt
        checkpassbuf_size in
    if o.encryptalgo == encrypt_none
    then some d
    else if is_error res1 || is_error res2
    then none
    else some d2

unfoldable pub createar_write_mainhead :
    Codecs → Digest → List ℕ → Memory → HeadOptions → ℕ → ℕ → ℕ → ℕ → Queue → Option (ℤ × Queue)
createar_write_mainhead codecs digest random mem o now archid archtype fscount q =
    let d1 = mainhead_common (from_nth 1 mem) o now archid archtype in
    let d2 = add_fscount (from_nth 25 mem) archtype fscount d1 in
    if not (mem 0)
    then some (minus_one, q)
    else elim (add_password_test codecs digest random (from_nth 27 mem) o d2) [
      | none ↦ none
      | some d3 ↦ elim (queue_add_header (from_nth 31 mem) q d3 magic_main filesysid_null) [
        | none ↦ none
        | some (res, q') ↦ some (if is_error res then minus_one else pos 0, q')
      ]
    ]

-- The fields of `struct s_archreader` that the main header sets.
pub record ArchInfo : Type 0 where
  pub archtype : ℕ
  pub fscount : ℕ
  pub archid : ℕ
  pub filefmt : List ℕ
  pub creatver : List ℕ
  pub label : List ℕ
  pub compalgo : ℕ
  pub cryptalgo : ℕ
  pub complevel : ℕ
  pub fsacomp : ℕ
  pub creattime : ℕ
  pub hasdirsinfohead : ℕ
  pub minfsaver : ℕ

-- One more field: what an attribute sets, if there was no error before.
abbrev pub then_read :
    {A : Type 0}
    → (Dico → ℤ × A)
    → (ArchInfo → A → ArchInfo)
    → Dico
    → Option ArchInfo
    → Option ArchInfo
then_read get set d none = none
then_read get set d (some ai) = if is_error (get d).0 then none else some (set ai (get d).1)

abbrev pub u32_of : Stack → ℕ → ℕ → Dico → ℤ × ℕ
u32_of stack i key d = dico_get_u32 (stack i) d 0 key

abbrev pub u64_of : Stack → ℕ → ℕ → Dico → ℤ × ℕ
u64_of stack i key d = dico_get_u64 (stack i) d 0 key

abbrev pub text_of : ℕ → List ℕ → ℕ → Dico → ℤ × List ℕ
text_of maxsize buffer key d =
    let (res, text, size) = dico_get_data d 0 key buffer maxsize in (res, text)

unfoldable pub read_fscount : Stack → Dico → ArchInfo → Option ArchInfo
read_fscount stack d ai =
    if ai.archtype == archtype_filesystems
    then then_read (u64_of stack 1 Key.fscount) (λ a x. record a { fscount = x }) d (some ai)
    else some ai

-- The attributes that an archive has to have. None is an error; the fields that are set before it are
-- not looked at.
unfoldable pub read_fields : Stack → Dico → ArchInfo → Option ArchInfo
read_fields stack d ai =
    then_read (u64_of stack 8 Key.creattime) (λ a x. record a { creattime = x }) d
      (then_read (u32_of stack 7 Key.fsacomplevel) (λ a x. record a { fsacomp = x }) d
        (then_read (u32_of stack 6 Key.compresslevel) (λ a x. record a { complevel = x }) d
          (then_read (u32_of stack 5 Key.encryptalgo) (λ a x. record a { cryptalgo = x }) d
            (then_read (u32_of stack 4 Key.compressalgo) (λ a x. record a { compalgo = x }) d
              (then_read (text_of max_labellen ai.label Key.archlabel)
                (λ a x. record a { label = x }) d
                (then_read (text_of max_progverlen ai.creatver Key.progvercreat)
                  (λ a x. record a { creatver = x }) d
                  (then_read (text_of max_filefmtlen ai.filefmt Key.fileformatver)
                    (λ a x. record a { filefmt = x }) d
                    (then_read (u32_of stack 3 Key.archiveid) (λ a x. record a { archid = x }) d
                      (elim (then_read (u32_of stack 0 Key.archtype)
                        (λ a x. record a { archtype = x }) d (some ai)) [
                          | none ↦ none
                          | some ai1 ↦ read_fscount stack d ai1
                        ])))))))))

-- The attributes that may be missing.
unfoldable pub read_optional : Stack → Dico → ArchInfo → ArchInfo
read_optional stack d ai =
    let (res1, hasdirsinfohead) = dico_get_u32 (stack 9) d 0 Key.hasdirsinfohead in
    let (res2, minfsaver) = dico_get_u64 (stack 10) d 0 Key.minfsaversion in
    record ai {
      hasdirsinfohead = if is_error res1 then ai.hasdirsinfohead else hasdirsinfohead;
      minfsaver = if is_error res2 then fsa_version_build 0 0 0 0 else minfsaver;
    }

-- "FsArCh_00Y" and "FsArCh_001"
abbrev pub old_format : ℕ → List ℕ
old_format c = 70 ∷ 115 ∷ 65 ∷ 114 ∷ 67 ∷ 104 ∷ 95 ∷ 48 ∷ 48 ∷ c ∷ []

abbrev pub is_format_known : HeadOptions → List ℕ → Bool
is_format_known o filefmt =
    bytes_eq filefmt o.filefmt
    || bytes_eq filefmt (old_format 89)
    || bytes_eq filefmt (old_format 49)

-- A checksum of more than 16 bytes is a fault. `stack 11` is the buffer of the encrypted bytes.
unfoldable pub check_password : Codecs → Digest → Stack → HeadOptions → Dico → Option Bool
check_password codecs digest stack o d =
    let (res1, bufcheckcrypt, cryptbufsize) =
      dico_get_data d 0 Key.bufcheckpasscryptbuf (stack 11) (checkpassbuf_size + 8) in
    let (res2, md5sumar, md5size) =
      dico_get_data d 0 Key.bufcheckpassclearmd5 (replicate 16 0) (16 + 99) in
    let passlen = length (password o) in
    let (res3, clear) = codecs.blowfish false (password o) (take cryptbufsize bufcheckcrypt) in
    let md5sumnew = if is_error res3 then replicate 16 0 else digest.md5 clear in
    if is_error res1
    then some false
    else if is_error res2
    then some false
    else if ltb 16 md5size
    then none
    else if ltb passlen min_passlen || ltb max_passlen passlen
    then some false
    else some (bytes_eq md5sumar md5sumnew)

-- What the header says, none where it is not accepted.
unfoldable pub read_mainhead :
    Codecs → Digest → Stack → HeadOptions → Dico → List ℕ → ArchInfo → Option (Option ArchInfo)
read_mainhead codecs digest stack o d magic ai =
    if not (bytes_eq (take 4 magic) magic_main) then some none else elim (read_fields stack d ai) [
      | none ↦ some none
      | some ai1 ↦
          let ai2 = read_optional stack d ai1 in
          if not (is_format_known o (c_string ai1.filefmt))
          then some none
          else if ai1.cryptalgo == encrypt_none
          then some (some ai2)
          else elim (check_password codecs digest stack o d) [
            | none ↦ none
            | some ok ↦ some (if ok then some ai2 else none)
          ]
    ]

unfoldable pub extractar_read_mainhead :
    Codecs → Digest → Stack → HeadOptions → ArchInfo → Queue → Option (ℤ × Option ArchInfo × Queue)
extractar_read_mainhead codecs digest stack o ai q = elim (queue_dequeue_header q) [
  | none ↦ none
  | some (lres, none, q') ↦ some (minus_one, none, q')
  | some (lres, some (d, magic, fsid), q') ↦ elim (read_mainhead codecs digest stack o d magic ai) [
    | none ↦ none
    | some none ↦ some (minus_one, none, q')
    | some (some ai') ↦ some (pos 0, some ai', q')
  ]
]
