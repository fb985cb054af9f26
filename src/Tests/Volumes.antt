-- ===== src/Tests/Volumes.antt =====
-- The theorems on volumes at concrete inputs.
use fsarchiver.Base.{
  ℕ, zero, suc, ◌+◌, ◌≡◌, refl, true, false, some, none, List, [], ◌∷◌, ◌++◌, length, replicate,
  arith, ◌⊎◌, ◌≤◌, bytes_eq,
}
use fsarchiver.Base.Bytes.{put_le}
use fsarchiver.Base.Int.{pos}
use fsarchiver.Constants.{magic_volh, magic_volf, filesysid_null}
use fsarchiver.Dico.{
  Dico, plenty, dico_alloc, dico_add_generic, dico_add_u32, is_duplicate, code_of_type,
}
use fsarchiver.Writebuf.{Writebuf, writebuf_add_header}
use fsarchiver.Writebuf.Layout.{buffer_of, data_bytes, header_bytes}
use fsarchiver.Writebuf.Total.{writebuf_add_header_writes}
use fsarchiver.ArchWriter.{volheader_dico, volfooter_dico}
use fsarchiver.ArchWriter.Volumes.{
  put_file, Device, Settings, ArchWriter, get_path_to_volume, digits, two_digits, open_file,
  archwriter_split_check, write_split,
}
use fsarchiver.ArchWriter.Split.{HasRoom, IsOpen, next_path, write_split_fits, write_split_next}
use fsarchiver.ArchWriter.Layout.{
  number_item, entry, number_item-IsItem, put_items-number_item, put_items_nil, volheader_items,
  volheader_bytes, volheader_dico-volheader_items, volheader_items-IsHeader,
}
use fsarchiver.ArchReader.{ArchReader, seek}
use fsarchiver.ArchReader.Blocks.{Stack}
use fsarchiver.ArchReader.VolHeader.{archreader_read_volheader}
use fsarchiver.ArchReader.VolHeader.RoundTrip.{
  stored_text, archreader_read_volheader-volheader_dico,
}

abbrev filefmt : List ℕ
filefmt = 70 ∷ 50 ∷ []

abbrev version : List ℕ
version = 48 ∷ 46 ∷ 56 ∷ []

abbrev written_volume : Writebuf
written_volume = buffer_of (
    []
    ++ header_bytes magic_volh 42 filesysid_null
        (data_bytes (volheader_items 1 42 filefmt version) (volheader_bytes 1 42 filefmt version)))

volume_written :
    writebuf_add_header plenty
      (buffer_of [])
      (volheader_dico plenty 1 42 filefmt version)
      magic_volh
      42
      filesysid_null
    ≡ some (pos 0, written_volume)
volume_written =
    let h =
      volheader_items-IsHeader 1 42 filefmt version (omega arith) (omega arith) (omega arith) in
    rw (volheader_dico-volheader_items 1 42 filefmt version (omega arith) (omega arith)) (
      writebuf_add_header_writes [] (volheader_items 1 42 filefmt version)
        (volheader_bytes 1 42 filefmt version) magic_volh 42 filesysid_null h.whole h.layout h.small
        (omega arith) refl)

abbrev stack : Stack
stack zero = replicate 4 170
stack (suc zero) = replicate 4 170
stack (suc (suc i)) = replicate 32 170

abbrev fresh_reader : ArchReader
fresh_reader = record {
  volume = record { bytes = written_volume.contents ++ (9 ∷ []); pos = 0 };
  archid = 0;
  curvol = 1;
  filefmtver = 2;
  filefmt = replicate 32 0;
  creatver = replicate 32 0;
}

archreader_read_volheader-volheader_dico_example :
    archreader_read_volheader stack plenty fresh_reader
    ≡ some (
      pos 0,
      record (seek fresh_reader (length written_volume.contents)) {
        archid = 42;
        filefmt = stored_text filefmt (replicate 32 170);
        creatver = stored_text version (replicate 32 170);
      },
    )
archreader_read_volheader-volheader_dico_example =
    archreader_read_volheader-volheader_dico stack fresh_reader 1 42 filefmt version (9 ∷ [])
      written_volume (record { readid = refl; volnum = refl })
      (record { no_archid = refl; no_filefmt = refl; no_creatver = refl }) (omega arith)
      (omega arith) (omega arith) (omega arith) volume_written refl refl refl

-- A disk with the first volume of an archive, which holds six bytes, and room on the device.
abbrev first_path : List ℕ
first_path = 97 ∷ 46 ∷ 102 ∷ 115 ∷ 97 ∷ []

abbrev device : Device
device = record {
  special = λ path. false;
  denied = λ path. false;
  realpath = λ path. some path;
  accepts = λ path at size. size;
}

device-HasRoom : HasRoom device
device-HasRoom = record { all_accepted = λ path at size. refl; none_denied = λ path. refl }

abbrev settings : Settings
settings = record { overwrite = false; splitsize = 8; filefmt = filefmt; version = version }

abbrev old_bytes : List ℕ
old_bytes = 1 ∷ 2 ∷ 3 ∷ 4 ∷ 5 ∷ 6 ∷ []

abbrev writer : ArchWriter
writer = record {
  disk = put_file (λ path. none) first_path old_bytes;
  archfd = some first_path;
  archid = 42;
  curvol = 0;
  newarch = true;
  basepath = first_path;
  volpath = first_path;
  vollist = first_path ∷ [];
}

writer-IsOpen : IsOpen writer first_path old_bytes
unfolding bytes_eq
writer-IsOpen = record { open_path = refl; on_disk = refl }

-- The footer of the first volume.
abbrev footer_items : Dico
footer_items = number_item 0 0 ∷ number_item 1 42 ∷ number_item 2 0 ∷ []

abbrev footer_bytes : List ℕ
footer_bytes = entry 3 0 4 (put_le 4 0) (entry 3 1 4 (put_le 4 42) (entry 3 2 4 (put_le 4 0) []))

abbrev foot : List ℕ
foot = header_bytes magic_volf 42 filesysid_null (data_bytes footer_items footer_bytes)

abbrev head : List ℕ
head =
    []
    ++ header_bytes magic_volh 42 filesysid_null
        (data_bytes (volheader_items 1 42 filefmt version) (volheader_bytes 1 42 filefmt version))

volfooter_dico-footer_items : volfooter_dico plenty 0 42 0 ≡ footer_items
unfolding volfooter_dico dico_add_u32 dico_add_generic is_duplicate dico_alloc code_of_type put_le
volfooter_dico-footer_items = refl

footer_written :
    writebuf_add_header plenty
      (buffer_of [])
      (volfooter_dico plenty 0 42 0)
      magic_volf
      42
      filesysid_null
    ≡ some (pos 0, buffer_of foot)
unfolding put_le
footer_written = rw volfooter_dico-footer_items (
    writebuf_add_header_writes [] footer_items footer_bytes magic_volf 42 filesysid_null
      (
        number_item-IsItem 0 0 (omega arith),
        (number_item-IsItem 1 42 (omega arith), (number_item-IsItem 2 0 (omega arith), tt)),
      )
      (put_items-number_item 0 0 _ _
        (put_items-number_item 1 42 _ _ (put_items-number_item 2 0 [] [] put_items_nil)))
      (omega arith) (omega arith) refl)

write_split_fits_example :
    (ai' : ArchWriter) × (write_split device settings (λ j. plenty) writer (buffer_of (7 ∷ 8 ∷ []))
      ≡ some (pos 0, ai'))
    × IsOpen ai' first_path (old_bytes ++ (7 ∷ 8 ∷ []))
    × ((settings.splitsize ≡ 0) ⊎ (6 + 2 ≤ settings.splitsize))
unfolding archwriter_split_check open_file bytes_eq
write_split_fits_example =
    write_split_fits device settings writer first_path old_bytes (7 ∷ 8 ∷ []) device-HasRoom
      writer-IsOpen (omega arith) refl

write_split_next_example :
    (ai' : ArchWriter) × (write_split device settings
        (λ j. plenty)
        writer
        (buffer_of (7 ∷ 8 ∷ 9 ∷ []))
      ≡ some (pos 0, ai'))
    × IsOpen ai' (next_path device writer) (head ++ (7 ∷ 8 ∷ 9 ∷ []))
    × (ai'.disk first_path ≡ some (old_bytes ++ foot))
    × (ai'.curvol ≡ 1)
unfolding archwriter_split_check open_file bytes_eq get_path_to_volume two_digits digits
write_split_next_example =
    write_split_next device settings writer first_path old_bytes (7 ∷ 8 ∷ 9 ∷ []) foot head
      device-HasRoom writer-IsOpen (omega arith) (omega arith) (omega arith) refl refl
      footer_written volume_written
