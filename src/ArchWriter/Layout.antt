-- ===== src/ArchWriter/Layout.antt =====
-- archwriter.c: the attributes of a volume header, and their layout.
use fsarchiver.Base.{
  ℕ, ◌+◌, ◌%◌, ◌^◌, ◌<◌, ◌≡◌, refl, false, some, List, [], ◌∷◌, ◌++◌, arith, length, length-append,
  take_all,
}
use fsarchiver.Base.Int.{pos}
use fsarchiver.Base.Bytes.{put_le, length-put_le}
use fsarchiver.Constants.{
  magic_volh, is_magic_valid, filesysid_null, volumehead_volnum, volumehead_archid,
  volumehead_fileformatver, volumehead_progvercreat,
}
use fsarchiver.Dico.{
  plenty, DicoItem, Dico, new_item, code_of_type, dico_alloc, dico_add_generic, dico_add_u32,
  dico_add_string, is_duplicate, dico_count_all_sections,
}
use fsarchiver.Dico.Unique.{IsItem}
use fsarchiver.Writebuf.{put_items, item_data}
use fsarchiver.ArchWriter.{volheader_dico}
use fsarchiver.ArchReader.Headers.{IsHeader}

abbrev pub number_item : ℕ → ℕ → DicoItem
number_item key x = new_item 0 key 4 3 (some (put_le 4 x))

abbrev pub text_item : ℕ → List ℕ → DicoItem
text_item key text = new_item 0 key (length text + 1) 6 (some (text ++ (0 ∷ [])))

abbrev pub volheader_items : ℕ → ℕ → List ℕ → List ℕ → Dico
volheader_items curvol archid filefmt version =
    number_item volumehead_volnum curvol
    ∷ number_item volumehead_archid archid
    ∷ text_item volumehead_fileformatver filefmt
    ∷ text_item volumehead_progvercreat version
    ∷ []

add_text :
    (d : Dico) (key : ℕ) (text : List ℕ)
    → length text < 32
    → is_duplicate 0 key d ≡ false
    → dico_add_string plenty d 0 key text ≡ (pos 0, d ++ (text_item key text ∷ []))
unfolding dico_add_string dico_add_generic code_of_type
add_text d key text h u =
    let size : (length text % 2 ^ 16 + 1) % 2 ^ 16 ≡ length text + 1 = omega (arith, h) in
    ground (
      arith,
      u,
      size,
      take_all (length text + 1) (text ++ (0 ∷ [])) (omega (arith, length-append text (0 ∷ []))),
    )

add_number :
    (d : Dico) (key x : ℕ)
    → is_duplicate 0 key d ≡ false
    → dico_add_u32 plenty d 0 key x ≡ (pos 0, d ++ (number_item key x ∷ []))
unfolding dico_add_u32 dico_add_generic code_of_type
add_number d key x u = ground (arith, u, take_all 4 (put_le 4 x), length-put_le 4 x)

pub volheader_dico-volheader_items :
    (curvol archid : ℕ) (filefmt version : List ℕ)
    → length filefmt < 32
    → length version < 32
    → volheader_dico plenty curvol archid filefmt version
      ≡ volheader_items curvol archid filefmt version
unfolding volheader_dico is_duplicate dico_alloc
volheader_dico-volheader_items curvol archid filefmt version hf hv =
    let n1 = number_item volumehead_volnum curvol in
    let n2 = number_item volumehead_archid archid in
    let n3 = text_item volumehead_fileformatver filefmt in
    ground (
      arith,
      add_number [] volumehead_volnum curvol refl,
      add_number (n1 ∷ []) volumehead_archid archid refl,
      add_text (n1 ∷ n2 ∷ []) volumehead_fileformatver filefmt hf refl,
      add_text (n1 ∷ n2 ∷ n3 ∷ []) volumehead_progvercreat version hv refl,
    )

abbrev pub entry : ℕ → ℕ → ℕ → List ℕ → List ℕ → List ℕ
entry type key size bs later = type ∷ 0 ∷ (put_le 2 key ++ (put_le 2 size ++ (bs ++ later)))

abbrev pub volheader_bytes : ℕ → ℕ → List ℕ → List ℕ → List ℕ
volheader_bytes curvol archid filefmt version = entry 3 volumehead_volnum 4 (put_le 4 curvol) (
    entry 3 volumehead_archid 4 (put_le 4 archid) (
      entry 6 volumehead_fileformatver (length filefmt + 1) (filefmt ++ (0 ∷ []))
        (entry 6 volumehead_progvercreat (length version + 1) (version ++ (0 ∷ [])) [])))

pub number_item-IsItem : (key x : ℕ) → key < 2 ^ 16 → IsItem (number_item key x)
number_item-IsItem key x h = record {
  type_byte = omega arith;
  section_byte = omega arith;
  key_word = h;
  size_word = omega arith;
  whole = (omega arith, length-put_le 4 x);
}

text_item-IsItem :
    (key : ℕ) (text : List ℕ) → key < 2 ^ 16 → length text < 32 → IsItem (text_item key text)
text_item-IsItem key text h l = record {
  type_byte = omega arith;
  section_byte = omega arith;
  key_word = h;
  size_word = omega (arith, l);
  whole = (omega arith, length-append text (0 ∷ []));
}

put_items-text_item :
    (key : ℕ) (text : List ℕ) (rest : Dico) (later : List ℕ)
    → put_items rest ≡ some later
    → put_items (text_item key text ∷ rest)
      ≡ some (entry 6 key (length text + 1) (text ++ (0 ∷ [])) later)
unfolding put_items item_data
put_items-text_item key text rest later h = ground (
  arith,
  h,
  take_all (length text + 1) (text ++ (0 ∷ [])) (omega (arith, length-append text (0 ∷ []))),
)

pub put_items-number_item :
    (key x : ℕ) (rest : Dico) (later : List ℕ)
    → put_items rest ≡ some later
    → put_items (number_item key x ∷ rest) ≡ some (entry 3 key 4 (put_le 4 x) later)
unfolding put_items item_data
put_items-number_item key x rest later h =
    ground (arith, h, take_all 4 (put_le 4 x), length-put_le 4 x)

pub put_items_nil : put_items [] ≡ some []
unfolding put_items
put_items_nil = refl

length-volheader_bytes :
    (curvol archid : ℕ) (filefmt version : List ℕ)
    → length filefmt < 32
    → length version < 32
    → length (volheader_bytes curvol archid filefmt version) < 128
unfolding put_le
length-volheader_bytes curvol archid filefmt version hf hv = omega (
  arith,
  hf,
  hv,
  length-append (filefmt ++ (0 ∷ []))
      (entry 6 volumehead_progvercreat (length version + 1) (version ++ (0 ∷ [])) []),
  length-append filefmt (0 ∷ []),
  length-append (version ++ (0 ∷ [])) [],
  length-append version (0 ∷ []),
)

pub volheader_items-IsHeader :
    (curvol archid : ℕ) (filefmt version : List ℕ)
    → length filefmt < 32
    → length version < 32
    → archid < 2 ^ 32
    → IsHeader
        (volheader_items curvol archid filefmt version)
        (volheader_bytes curvol archid filefmt version)
        magic_volh
        archid
        filesysid_null
unfolding is_duplicate is_magic_valid dico_count_all_sections
volheader_items-IsHeader curvol archid filefmt version hf hv ha = record {
  whole = (
    number_item-IsItem volumehead_volnum curvol (omega arith),
    (
      number_item-IsItem volumehead_archid archid (omega arith),
      (
        text_item-IsItem volumehead_fileformatver filefmt (omega arith) hf,
        (text_item-IsItem volumehead_progvercreat version (omega arith) hv, tt),
      ),
    ),
  );
  unique = (refl, (refl, (refl, (refl, tt))));
  layout = put_items-number_item volumehead_volnum curvol _ _ (
      put_items-number_item volumehead_archid archid _ _ (
        put_items-text_item volumehead_fileformatver filefmt _ _
          (put_items-text_item volumehead_progvercreat version [] [] put_items_nil)));
  count_word = omega arith;
  small = omega (arith, length-volheader_bytes curvol archid filefmt version hf hv);
  magic_valid = refl;
  magic_size = refl;
  archid_word = ha;
  fsid_word = omega arith;
}
