-- ===== src/Tests/Archive.antt =====
-- The theorems on headers and blocks of an archive at concrete inputs.
use fsarchiver.Base.{
  ℕ, zero, suc, ◌+◌, ◌≤◌, ◌≡◌, refl, true, false, some, List, [], ◌∷◌, ◌++◌, length, take, drop,
  arith, inl, ◌<◌,
}
use fsarchiver.Base.Int.{pos}
use fsarchiver.Base.Code
use fsarchiver.Base.Bytes.{put_le}
use fsarchiver.Constants.{magic_objt, is_magic_valid}
use fsarchiver.Dico.{plenty, is_duplicate, dico_count_all_sections}
use fsarchiver.Fletcher.{fletcher32}
use fsarchiver.Writebuf.{put_items, writebuf_add_header}
use fsarchiver.Writebuf.Layout.{buffer_of, data_bytes, header_bytes}
use fsarchiver.Writebuf.Total.{writebuf_add_header_writes}
use fsarchiver.Dico.Unique.{IsUnique, AllItems, IsItem}
use fsarchiver.ArchReader.{
  seek, read_items, archreader_read_dico, search_magic, archreader_read_header,
}
use fsarchiver.ArchReader.Items.{read_items-put_items}
use fsarchiver.ArchReader.Headers.{IsHeader, archreader_read_header-writebuf_add_header}
use fsarchiver.ArchReader.Corrupt.{archreader_read_dico_corrupt}
use fsarchiver.ArchReader.Resync.{search_magic_finds, archreader_read_header_resync}
use fsarchiver.Tests.Sample.{number_item, name_item, empty_item, sample, sample_bytes, reader_at}

number_item-IsItem : IsItem number_item
number_item-IsItem = record {
  type_byte = omega arith;
  section_byte = omega arith;
  key_word = omega arith;
  size_word = omega arith;
  whole = (omega arith, refl);
}

name_item-IsItem : IsItem name_item
name_item-IsItem = record {
  type_byte = omega arith;
  section_byte = omega arith;
  key_word = omega arith;
  size_word = omega arith;
  whole = (omega arith, refl);
}

empty_item-IsItem : IsItem empty_item
empty_item-IsItem = record {
  type_byte = omega arith;
  section_byte = omega arith;
  key_word = omega arith;
  size_word = omega arith;
  whole = refl;
}

sample-AllItems : AllItems sample
sample-AllItems = (number_item-IsItem, (name_item-IsItem, (empty_item-IsItem, tt)))

sample-IsUnique : IsUnique sample
unfolding is_duplicate
sample-IsUnique = (refl, (refl, (refl, tt)))

sample_layout : put_items sample ≡ some sample_bytes
unfolding put_items put_le
sample_layout = refl

sample-IsHeader : IsHeader sample sample_bytes magic_objt 42 3
unfolding is_magic_valid dico_count_all_sections
sample-IsHeader = record {
  whole = sample-AllItems;
  unique = sample-IsUnique;
  layout = sample_layout;
  count_word = omega arith;
  small = omega arith;
  magic_valid = refl;
  magic_size = refl;
  archid_word = omega arith;
  fsid_word = omega arith;
}

abbrev sample_header : List ℕ
sample_header = header_bytes magic_objt 42 3 (data_bytes sample sample_bytes)

writebuf_add_header_writes_example :
    writebuf_add_header plenty (buffer_of (1 ∷ 2 ∷ [])) sample magic_objt 42 3
    ≡ some (pos 0, buffer_of ((1 ∷ 2 ∷ []) ++ sample_header))
writebuf_add_header_writes_example =
    writebuf_add_header_writes (1 ∷ 2 ∷ []) sample sample_bytes magic_objt 42 3 sample-AllItems
      sample_layout (omega arith) (omega arith) refl

written :
    writebuf_add_header plenty (buffer_of (1 ∷ 2 ∷ [])) sample magic_objt 42 3
    ≡ some (pos 0, buffer_of ((1 ∷ 2 ∷ []) ++ sample_header))
written =
    writebuf_add_header_writes (1 ∷ 2 ∷ []) sample sample_bytes magic_objt 42 3 sample-AllItems
      sample_layout (omega arith) (omega arith) refl

read_items-put_items_example :
    read_items plenty (dico_count_all_sections sample) (sample_bytes ++ (9 ∷ 9 ∷ [])) []
    ≡ some (Code.success, [] ++ sample)
read_items-put_items_example =
    read_items-put_items [] sample sample_bytes (9 ∷ 9 ∷ []) sample-AllItems sample-IsUnique
      sample_layout

-- Two bytes, the header, and two bytes.
abbrev volume : List ℕ
volume = ((1 ∷ 2 ∷ []) ++ sample_header) ++ (9 ∷ 9 ∷ [])

archreader_read_header-writebuf_add_header_example :
    archreader_read_header plenty (reader_at volume 2) false
    ≡ some (record {
      res = Code.success;
      magic = magic_objt;
      dico = some sample;
      fsid = 3;
      reader = seek (reader_at volume 2) (length ((1 ∷ 2 ∷ []) ++ sample_header));
    })
archreader_read_header-writebuf_add_header_example =
    archreader_read_header-writebuf_add_header plenty (reader_at volume 2) false (1 ∷ 2 ∷ [])
      (9 ∷ 9 ∷ []) sample sample_bytes magic_objt 42 3 (buffer_of ((1 ∷ 2 ∷ []) ++ sample_header))
      sample-IsHeader (omega arith) written refl refl refl (inl refl)

abbrev corrupt_volume : List ℕ
corrupt_volume =
    put_le 4 3 ++ ((1 ∷ 77 ∷ 3 ∷ []) ++ (put_le 4 (fletcher32 (1 ∷ 2 ∷ 3 ∷ [])) ++ (9 ∷ [])))

archreader_read_dico_corrupt_example :
    archreader_read_dico plenty (reader_at corrupt_volume 0) []
    ≡ some (Code.old_minor, [], seek (reader_at corrupt_volume 0) (0 + 4 + 3 + 4))
archreader_read_dico_corrupt_example =
    archreader_read_dico_corrupt (reader_at corrupt_volume 0) (1 ∷ []) 2 77 (3 ∷ []) (9 ∷ []) []
      refl (omega arith, (omega arith, (omega arith, tt))) (omega arith) (λ e. omega (arith, e))
      (omega arith) refl

search_magic_finds_example :
    (i : ℕ) × (i ≤ 2)
    × (is_magic_valid (take 4 (drop i (1 ∷ 2 ∷ magic_objt))) ≡ true)
    × (search_magic (0 ∷ 0 ∷ 0 ∷ 0 ∷ []) 100 (1 ∷ 2 ∷ magic_objt)
        ≡ (true, take 4 (drop i (1 ∷ 2 ∷ magic_objt)), 100 + i + 4))
unfolding is_magic_valid
search_magic_finds_example =
    search_magic_finds (0 ∷ 0 ∷ 0 ∷ 0 ∷ []) 100 (1 ∷ 2 ∷ magic_objt) 2 refl (omega arith) refl

abbrev garbage : List ℕ
garbage = 70 ∷ 115 ∷ []

abbrev damaged_volume : List ℕ
damaged_volume = garbage ++ (sample_header ++ (9 ∷ []))

no_magic_in_garbage : (i : ℕ) → i < 2 → is_magic_valid (take 4 (drop i damaged_volume)) ≡ false
unfolding is_magic_valid
no_magic_in_garbage zero h = refl
no_magic_in_garbage (suc zero) h = refl
no_magic_in_garbage (suc (suc i)) h = absurd (omega (arith, h))

archreader_read_header_resync_example :
    archreader_read_header plenty (reader_at damaged_volume 0) true
    ≡ some (record {
      res = Code.success;
      magic = magic_objt;
      dico = some sample;
      fsid = 3;
      reader = seek (reader_at damaged_volume 0) (0 + 2 + length sample_header);
    })
archreader_read_header_resync_example =
    archreader_read_header_resync (reader_at damaged_volume 0) garbage (9 ∷ []) sample sample_bytes
      magic_objt 42 3 sample-IsHeader refl (inl refl) refl no_magic_in_garbage
