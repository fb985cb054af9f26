-- ===== src/Tests/Places.antt =====
-- The theorems on paths, hard links and the arguments of the command line at concrete inputs.
use fsarchiver.Base.{ℕ, ◌+◌, ◌≡◌, refl, true, some, none, List, [], ◌∷◌, ◌++◌, arith, bytes_eq}
use fsarchiver.Base.Int.{pos}
use fsarchiver.Keys.{objtype_null, objtype_hardlink, max_fsperarch}
use fsarchiver.Dico.{plenty, dico_add_string, dico_add_generic}
use fsarchiver.Dichl.{dichl_add, dichl_get, has_duplicate}
use fsarchiver.Paths.{
  has_slash, without_slash, concatenate_paths, extract_dirpath, extract_basename,
}
use fsarchiver.Paths.Parts.{dir_text, concatenate_paths-extract_dirpath}
use fsarchiver.Source.{Stat, regular}
use fsarchiver.Save.Standard.{Attrs, find_hardlink}
use fsarchiver.Tests.Files.{host}
use fsarchiver.Restore.Objects.{make_hardlink}
use fsarchiver.Restore.Links.{link_to, make_hardlink-find_hardlink}
use fsarchiver.Restore.Arguments.{
  Table, check_settings, parse_argument, convert_arguments, convert_argv_to_strdicos,
}
use fsarchiver.Restore.Arguments.Slots.{AreChecked, filled, convert_argv_to_strdicos-AreChecked}
use fsarchiver.Strdico.{
  strdico_alloc, strdico_set_valid_keys, strdico_parse_string, parse_words, words, parse_definition,
  scan_key, strdico_set_value, is_among, store_value, modify_item, strdico_get_s64,
  strdico_get_string, find_value,
}
use fsarchiver.Strdico.Number.{
  strtoll, read_digits, read_number, read_signed, signed_value, skip_spaces,
}

-- "/usr/lib" and "bin"
abbrev usr : List ℕ
usr = 47 ∷ 117 ∷ 115 ∷ 114 ∷ []

abbrev lib : List ℕ
lib = 108 ∷ 105 ∷ 98 ∷ []

concatenate_paths-extract_dirpath_example :
    (extract_dirpath (usr ++ (47 ∷ lib)) 32 ≡ dir_text usr)
    × (extract_basename (usr ++ (47 ∷ lib)) 32 ≡ lib)
    × (concatenate_paths 32
          (extract_dirpath (usr ++ (47 ∷ lib)) 32)
          (extract_basename (usr ++ (47 ∷ lib)) 32)
        ≡ some (usr ++ (47 ∷ lib)))
unfolding has_slash without_slash
concatenate_paths-extract_dirpath_example =
    concatenate_paths-extract_dirpath usr lib 32 refl refl (omega arith)

-- ".fsa"
abbrev extension : List ℕ
extension = 46 ∷ 102 ∷ 115 ∷ 97 ∷ []

-- Two names, "/usr" and "/lib", of one file.
abbrev file : Stat
file = record {
  kind = regular;
  mode = 33188;
  size = 9;
  uid = 0;
  gid = 0;
  atime = 1;
  mtime = 2;
  nlink = 2;
  dev = 8;
  rdev = 0;
  ino = 77;
  blocks = 1;
}

abbrev attrs : Attrs
attrs = record { dico = []; objtype = objtype_null; filecost = 16384; dichardlinks = [] }

abbrev second : Attrs
second = record attrs { dichardlinks = (find_hardlink plenty usr file attrs).dichardlinks }

abbrev mnt : List ℕ
mnt = 47 ∷ 109 ∷ []

make_hardlink-find_hardlink_example :
    ((find_hardlink plenty usr file attrs).objtype ≡ objtype_null)
    × ((find_hardlink plenty (47 ∷ lib) file second).objtype ≡ objtype_hardlink)
    × (make_hardlink host
          (find_hardlink plenty (47 ∷ lib) file second).dico
          (mnt ++ (47 ∷ lib))
          mnt
          (λ _. none)
        ≡ link_to host mnt usr (mnt ++ (47 ∷ lib)) (λ _. none))
unfolding dichl_get dichl_add has_duplicate dico_add_string dico_add_generic
make_hardlink-find_hardlink_example =
    make_hardlink-find_hardlink host plenty plenty usr (47 ∷ lib) (mnt ++ (47 ∷ lib)) mnt file file
      attrs second (λ _. none) refl refl refl refl refl refl refl (refl, (refl, (refl, (refl, tt))))
      (omega arith) refl

-- "id=1,dest=/usr"
abbrev argument : List ℕ
argument = 105 ∷ 100 ∷ 61 ∷ 49 ∷ 44 ∷ 100 ∷ 101 ∷ 115 ∷ 116 ∷ 61 ∷ 47 ∷ 117 ∷ 115 ∷ 114 ∷ []

abbrev empty_table : Table
empty_table _ = none

abbrev table : Table
table = (convert_argv_to_strdicos (λ _. true) (λ _. plenty) (argument ∷ []) empty_table).1

is_converted :
    convert_argv_to_strdicos (λ _. true) (λ _. plenty) (argument ∷ []) empty_table ≡ (pos 0, table)
unfolding convert_argv_to_strdicos convert_arguments parse_argument strdico_alloc
    strdico_set_valid_keys strdico_parse_string parse_words words parse_definition scan_key
    strdico_set_value is_among bytes_eq store_value modify_item check_settings strdico_get_s64
    strdico_get_string find_value strtoll read_digits read_number read_signed signed_value
    skip_spaces
is_converted = refl

convert_argv_to_strdicos-AreChecked_example :
    AreChecked (λ _. true) table
    × (filled table max_fsperarch ≡ filled empty_table max_fsperarch + 1)
convert_argv_to_strdicos-AreChecked_example =
    convert_argv_to_strdicos-AreChecked (λ _. true) (λ _. plenty) (argument ∷ []) empty_table table
      (λ k d e. absurd (ground (arith, e))) (omega arith) is_converted
