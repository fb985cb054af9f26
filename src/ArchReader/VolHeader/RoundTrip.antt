-- ===== src/ArchReader/VolHeader/RoundTrip.antt =====
-- archreader.c accepts the volume headers that archwriter.c makes, for the right volume.
use fsarchiver.Base.{
  ℕ, zero, suc, ◌+◌, ◌^◌, ◌<◌, ◌≡◌, refl, ap, ◌∙◌, sym, true, false, some, List, [], ◌∷◌, ◌++◌,
  arith, ◌==◌, if◌then◌else◌, strncmp_eq, length, drop, memcpy_front, inl,
}
use fsarchiver.Base.Int.{pos, minus_one}
use fsarchiver.Base.Bytes.{put_le, length-put_le, get_le-put_le}
use fsarchiver.Constants.{
  magic_volh, filesysid_null, volumehead_volnum, volumehead_archid, volumehead_fileformatver,
  volumehead_progvercreat,
}
use fsarchiver.Dico.{plenty, Dico, dico_get_data, dico_get_u32, copy_contents}
use fsarchiver.Dico.Lookup.{lookup, dico_get_generic-answer}
use fsarchiver.Dico.Words.{get_word_stored}
use fsarchiver.Writebuf.{Writebuf, writebuf_add_header}
use fsarchiver.Writebuf.Layout.{buffer_of}
use fsarchiver.ArchWriter.{volheader_dico}
use fsarchiver.ArchReader.{ArchReader, seek}
use fsarchiver.ArchReader.Blocks.{Stack}
use fsarchiver.ArchReader.Headers.{archreader_read_header-writebuf_add_header}
use fsarchiver.ArchReader.VolHeader.{
  is_blank, check_formats, check_volheader, archreader_read_volheader,
}
use fsarchiver.ArchWriter.Layout.{
  number_item, text_item, volheader_items, volheader_bytes, volheader_dico-volheader_items,
  volheader_items-IsHeader,
}

-- The text in an array that held `junk`.
abbrev pub stored_text : List ℕ → List ℕ → List ℕ
stored_text text junk = (text ++ (0 ∷ [])) ++ drop (length (text ++ (0 ∷ []))) junk

pub get_text :
    (d : Dico) (key : ℕ) (text junk : List ℕ)
    → length text < 32
    → lookup d 0 key ≡ some (text_item key text)
    → dico_get_data d 0 key junk 32 ≡ (pos 0, stored_text text junk, length text + 1)
unfolding dico_get_data copy_contents
get_text d key text junk h f = ground (
  arith,
  dico_get_generic-answer d 0 key junk 32 (text_item key text) (omega arith) f,
  memcpy_front junk (text ++ (0 ∷ [])),
  h,
)

pub get_number :
    (d : Dico) (key x : ℕ) (junk : List ℕ)
    → length junk ≡ 4
    → x < 2 ^ 32
    → lookup d 0 key ≡ some (number_item key x)
    → dico_get_u32 junk d 0 key ≡ (pos 0, x)
unfolding dico_get_u32
get_number d key x junk l h f =
    get_word_stored 4 junk d 0 key (number_item key x) (put_le 4 x) (omega arith) l f refl refl
      (length-put_le 4 x)
    ∙ ap (λ k. (pos 0, k)) (get_le-put_le 4 x h)

strncmp_eq_texts :
    (n : ℕ) (text xs ys : List ℕ) → strncmp_eq n (text ++ (0 ∷ xs)) (text ++ (0 ∷ ys)) ≡ true
unfolding strncmp_eq
strncmp_eq_texts zero text xs ys = refl
strncmp_eq_texts (suc n) [] xs ys = refl
strncmp_eq_texts (suc n) (c ∷ text) xs ys = ground (arith, strncmp_eq_texts n text xs ys)

-- The two uninitialised words have the size of a u32.
pub record IsVolStack (stack : Stack) : Type 0 where
  pub readid : length (stack 0) ≡ 4
  pub volnum : length (stack 1) ≡ 4

-- A reader that knows nothing yet about the archive.
pub record IsFirst (ai : ArchReader) : Type 0 where
  pub no_archid : ai.archid ≡ 0
  pub no_filefmt : is_blank ai.filefmt ≡ true
  pub no_creatver : is_blank ai.creatver ≡ true

check_volheader_first :
    (stack : Stack) (ai : ArchReader) (curvol archid : ℕ) (filefmt version : List ℕ)
    → IsVolStack stack
    → IsFirst ai
    → length filefmt < 32
    → length version < 32
    → curvol < 2 ^ 32
    → archid < 2 ^ 32
    → check_volheader stack (volheader_items curvol archid filefmt version) magic_volh ai ≡ (
        if curvol == ai.curvol
        then (
          pos 0,
          record ai {
            archid = archid;
            filefmt = stored_text filefmt (stack 2);
            creatver = stored_text version (stack 3);
          },
        )
        else (minus_one, record ai { archid = archid }))
unfolding check_volheader check_formats lookup strncmp_eq
check_volheader_first stack ai curvol archid filefmt version s f hf hv hc ha =
    let d = volheader_items curvol archid filefmt version in
    ground (
      arith,
      f.no_archid,
      f.no_filefmt,
      f.no_creatver,
      get_number d volumehead_archid archid (stack 0) s.readid ha refl,
      get_number d volumehead_volnum curvol (stack 1) s.volnum hc refl,
      get_text d volumehead_fileformatver filefmt (stack 2) hf refl,
      get_text d volumehead_progvercreat version (stack 3) hv refl,
    )

-- The header of a volume, as the writer makes it, is accepted by a reader that knows nothing yet
-- about the archive exactly when it waits for the volume of this number. The reader then knows the
-- archive id, the file format and the version, and stands behind the header; otherwise it has taken
-- the archive id over all the same.
pub archreader_read_volheader-volheader_dico :
    (stack : Stack) (ai : ArchReader) (curvol archid : ℕ) (filefmt version rest : List ℕ)
    (wb : Writebuf)
    → IsVolStack stack
    → IsFirst ai
    → length filefmt < 32
    → length version < 32
    → curvol < 2 ^ 32
    → archid < 2 ^ 32
    → writebuf_add_header plenty
        (buffer_of [])
        (volheader_dico plenty curvol archid filefmt version)
        magic_volh
        archid
        filesysid_null
      ≡ some (pos 0, wb)
    → ai.volume.bytes ≡ wb.contents ++ rest
    → ai.volume.pos ≡ 0
    → ai.filefmtver ≡ 2
    → archreader_read_volheader stack plenty ai
      ≡ some (
          if curvol == ai.curvol
          then (
            pos 0,
            record (seek ai (length wb.contents)) {
              archid = archid;
              filefmt = stored_text filefmt (stack 2);
              creatver = stored_text version (stack 3);
            },
          )
          else (minus_one, record (seek ai (length wb.contents)) { archid = archid }))
unfolding archreader_read_volheader
archreader_read_volheader-volheader_dico stack ai curvol archid filefmt version rest wb s f hf hv hc
      ha w vb vp v =
    let d = volheader_items curvol archid filefmt version in
    let same = volheader_dico-volheader_items curvol archid filefmt version hf hv in
    let read =
      archreader_read_header-writebuf_add_header plenty ai false [] rest d
        (volheader_bytes curvol archid filefmt version) magic_volh archid filesysid_null wb
        (volheader_items-IsHeader curvol archid filefmt version hf hv ha) (omega arith)
        (sym (
            ap (λ x. writebuf_add_header plenty (buffer_of []) x magic_volh archid filesysid_null)
              same)
          ∙ w)
        vb vp v (inl f.no_archid) in
    let after : IsFirst (seek ai (length wb.contents)) = record {
      no_archid = f.no_archid;
      no_filefmt = f.no_filefmt;
      no_creatver = f.no_creatver;
    } in
    ground (
      arith,
      read,
      check_volheader_first stack (seek ai (length wb.contents)) curvol archid filefmt version s
          after hf hv hc ha,
    )
