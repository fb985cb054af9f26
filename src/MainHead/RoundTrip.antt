-- ===== src/MainHead/RoundTrip.antt =====
-- oper_save.c and oper_restore.c: the main header that is written is accepted when it is read.
use fsarchiver.Base.{
  ℕ, ◌<◌, ◌≡◌, refl, ap, ◌∙◌, true, false, some, List, [], ◌∷◌, ◌++◌, arith, ◌==◌, bytes_eq,
  bytes_eq_refl, length, drop, Bool-cases, inl, inr,
}
use fsarchiver.Base.Int.{pos}
use fsarchiver.Constants.{magic_main, filesysid_null}
use fsarchiver.Dico.{plenty, Dico}
use fsarchiver.Queue.{Queue, Item, queue_add_header, remove_first, header}
use fsarchiver.Queue.Removal.{queue_dequeue_header}
use fsarchiver.ThreadComp.{Codecs, encrypt_none}
use fsarchiver.Target.{Digest}
use fsarchiver.ArchReader.Blocks.{Stack}
use fsarchiver.ArchReader.VolHeader.RoundTrip.{stored_text}
use fsarchiver.Save.Chunks.{with_items}
use fsarchiver.Save.Items.{header_item}
use fsarchiver.Save.Room.{HasRoom, queue_add_header-HasRoom}
use fsarchiver.Restore.Attributes.{c_string}
use fsarchiver.Restore.Contents.{IsCounted}
use fsarchiver.Restore.Links.{HasNoZero}
use fsarchiver.Restore.Whole.{queue_dequeue_header-first}
use fsarchiver.MainHead.{
  HeadOptions, ArchInfo, password, is_format_known, mainhead_common, add_fscount, add_password_test,
  createar_write_mainhead, read_fields, read_optional, check_password, read_mainhead,
  extractar_read_mainhead,
}
use fsarchiver.MainHead.Items.{
  HasShortTexts, mainhead_items, mainhead_common-items, add_fscount-items, add_password_test-items,
}
use fsarchiver.MainHead.Fields.{
  IsHeadStack, HasWords, info_of, before_optional, read_fields-items, read_optional-items,
  password_lookups,
}
use fsarchiver.MainHead.Password.{Decrypts, check_password_ok}

c_string_zero : (text rest : List ℕ) → HasNoZero text → c_string ((text ++ (0 ∷ [])) ++ rest) ≡ text
unfolding c_string
c_string_zero [] rest h = refl
c_string_zero (c ∷ text) rest (e, h) = rw e (ap (λ r. c ∷ r) (c_string_zero text rest h))

c_string-stored_text :
    (text junk : List ℕ) → HasNoZero text → c_string (stored_text text junk) ≡ text
unfolding c_string
c_string-stored_text text junk h = c_string_zero text (drop (length (text ++ (0 ∷ []))) junk) h

-- The course of read_mainhead, for any dictionary.
read_steps :
    (codecs : Codecs) (digest : Digest) (stack : Stack) (o : HeadOptions) (d : Dico)
    (ai ai1 ai2 : ArchInfo)
    → read_fields stack d ai ≡ some ai1
    → read_optional stack d ai1 ≡ ai2
    → is_format_known o (c_string ai1.filefmt) ≡ true
    → ((ai1.cryptalgo == encrypt_none) ≡ false → check_password codecs digest stack o d ≡ some true)
    → read_mainhead codecs digest stack o d magic_main ai ≡ some (some ai2)
unfolding read_mainhead bytes_eq
read_steps codecs digest stack o d ai ai1 ai2 e1 e2 e3 e4 =
    elim (Bool-cases (ai1.cryptalgo == encrypt_none)) [
      | inl e ↦ ground (arith, e1, e2, e3, e)
      | inr e ↦ ground (arith, e1, e2, e3, e, e4 e)
    ]

dequeue_steps :
    (codecs : Codecs) (digest : Digest) (stack : Stack) (o : HeadOptions) (ai ai' : ArchInfo)
    (r r' : Queue) (n fsid : ℕ) (d : Dico)
    → queue_dequeue_header r ≡ some (pos n, some (d, magic_main, fsid), r')
    → read_mainhead codecs digest stack o d magic_main ai ≡ some (some ai')
    → extractar_read_mainhead codecs digest stack o ai r ≡ some (pos 0, some ai', r')
unfolding extractar_read_mainhead
dequeue_steps codecs digest stack o ai ai' r r' n fsid d e1 e2 = ground (arith, e1, e2)

write_steps :
    (codecs : Codecs) (digest : Digest) (random : List ℕ) (o : HeadOptions)
    (now archid archtype fscount : ℕ) (q q' : Queue) (d1 d2 d3 : Dico)
    → mainhead_common plenty o now archid archtype ≡ d1
    → add_fscount plenty archtype fscount d1 ≡ d2
    → add_password_test codecs digest random plenty o d2 ≡ some d3
    → queue_add_header plenty q d3 magic_main filesysid_null ≡ some (pos 0, q')
    → createar_write_mainhead codecs digest random plenty o now archid archtype fscount q
      ≡ some (pos 0, q')
unfolding createar_write_mainhead
write_steps codecs digest random o now archid archtype fscount q q' d1 d2 d3 e1 e2 e3 e4 =
    rw (createar_write_mainhead, e1, e2, e3, e4) refl

read_mainhead-items :
    (codecs : Codecs) (digest : Digest) (stack : Stack) (random : List ℕ) (o : HeadOptions)
    (now archid archtype fscount : ℕ) (ai : ArchInfo)
    → IsHeadStack stack
    → HasShortTexts o
    → HasNoZero o.filefmt
    → HasWords o now archid archtype fscount
    → ((o.encryptalgo == encrypt_none) ≡ false → Decrypts codecs digest o random)
    → read_mainhead codecs digest stack o
        (mainhead_items o now archid archtype fscount
          (digest.md5 random)
          (codecs.blowfish true (password o) random).1)
        magic_main
        ai
      ≡ some (some (info_of o now archid archtype fscount ai))
read_mainhead-items codecs digest stack random o now archid archtype fscount ai ok texts text words
      h =
    let md5 = digest.md5 random in
    let crypted = (codecs.blowfish true (password o) random).1 in
    let d = mainhead_items o now archid archtype fscount md5 crypted in
    read_steps codecs digest stack o d ai (before_optional o now archid archtype fscount ai)
      (info_of o now archid archtype fscount ai)
      (read_fields-items stack ok o texts now archid archtype fscount words md5 crypted ai)
      (read_optional-items stack ok o texts now archid archtype fscount words md5 crypted ai)
      (ap (is_format_known o) (c_string-stored_text o.filefmt ai.filefmt text)
        ∙ ground (arith, bytes_eq_refl o.filefmt))
      (λ e.
        let (f1, f2) =
          password_lookups stack ok o texts now archid archtype fscount words md5 crypted e in
        check_password_ok codecs digest stack o random d (h e) f1 f2)

-- The main header that createar_write_mainhead makes is queued, and extractar_read_mainhead accepts it
-- from a queue where it comes first: the reader then has all that the writer put in. This is so when
-- memory suffices, the texts and numbers fit their fields, the queue has room, and, with encryption,
-- the cipher decrypts what it encrypts and the password has an allowed length.
pub extractar_read_mainhead-createar_write_mainhead :
    (codecs : Codecs) (digest : Digest) (stack : Stack) (random : List ℕ) (o : HeadOptions)
    (now archid archtype fscount : ℕ) (ai : ArchInfo) (q r : Queue) (n : ℕ) (rest : List Item)
    → IsHeadStack stack
    → HasShortTexts o
    → HasNoZero o.filefmt
    → HasWords o now archid archtype fscount
    → ((o.encryptalgo == encrypt_none) ≡ false → Decrypts codecs digest o random)
    → HasRoom q 0 1
    → r.items
      ≡ header_item n magic_main filesysid_null (
          mainhead_items o now archid archtype fscount
            (digest.md5 random)
            (codecs.blowfish true (password o) random).1)
        ∷ rest
    → IsCounted r
    → 0 < n
    → (createar_write_mainhead codecs digest random plenty o now archid archtype fscount q
        ≡ some (
          pos 0,
          with_items q
              (header_item q.curitemnum magic_main filesysid_null (
                  mainhead_items o now archid archtype fscount
                    (digest.md5 random)
                    (codecs.blowfish true (password o) random).1)
                ∷ [])
              0,
        ))
      × (extractar_read_mainhead codecs digest stack o ai r
          ≡ some (
            pos 0,
            some (info_of o now archid archtype fscount ai),
            remove_first r
                (header (record {
                  magic = magic_main;
                  fsid = filesysid_null;
                  dico =
                      mainhead_items o now archid archtype fscount
                        (digest.md5 random)
                        (codecs.blowfish true (password o) random).1;
                }))
                rest,
          ))
extractar_read_mainhead-createar_write_mainhead codecs digest stack random o now archid archtype
      fscount ai q r n rest ok texts text words h room e counted p =
    let md5 = digest.md5 random in
    let crypted = (codecs.blowfish true (password o) random).1 in
    let d = mainhead_items o now archid archtype fscount md5 crypted in
    let item = header_item q.curitemnum magic_main filesysid_null d in
    (
      write_steps codecs digest random o now archid archtype fscount q (with_items q (item ∷ []) 0)
          _ _ d (mainhead_common-items o now archid archtype texts)
          (add_fscount-items o now archid archtype fscount)
          (add_password_test-items codecs digest random o now archid archtype fscount
            (λ c. ((h c).digest_size, (h c).crypted_size)))
          (queue_add_header-HasRoom q d magic_main filesysid_null 0 0 room refl),
      dequeue_steps codecs digest stack o ai (info_of o now archid archtype fscount ai) r _ n
          filesysid_null d
          (queue_dequeue_header-first r n magic_main filesysid_null d rest e counted p)
          (read_mainhead-items codecs digest stack random o now archid archtype fscount ai ok texts
            text words h),
    )
