-- ===== src/Tests/Sample.antt =====
-- Test data: a dictionary with a number and a name, its layout, and a reader.
use fsarchiver.Base.{ℕ, some, none, List, [], ◌∷◌}
use fsarchiver.Dico.{DicoItem, Dico, new_item}
use fsarchiver.ArchReader.{ArchReader}

abbrev pub number_item : DicoItem
number_item = new_item 0 1 4 3 (some (7 ∷ 0 ∷ 0 ∷ 0 ∷ []))

abbrev pub name_item : DicoItem
name_item = new_item 1 2 3 6 (some (97 ∷ 98 ∷ 0 ∷ []))

abbrev pub empty_item : DicoItem
empty_item = new_item 2 9 0 5 none

abbrev pub sample : Dico
sample = number_item ∷ name_item ∷ empty_item ∷ []

abbrev pub sample_bytes : List ℕ
sample_bytes =
    3 ∷ 0 ∷ 1 ∷ 0 ∷ 4 ∷ 0 ∷ 7 ∷ 0 ∷ 0 ∷ 0 ∷ 6 ∷ 1 ∷ 2 ∷ 0 ∷ 3 ∷ 0 ∷ 97 ∷ 98 ∷ 0 ∷ 5 ∷ 2 ∷ 9 ∷ 0 ∷ 0
    ∷ 0 ∷ []

-- A reader of these bytes that stands at `p`.
abbrev pub reader_at : List ℕ → ℕ → ArchReader
reader_at bytes p = record {
  volume = record { bytes = bytes; pos = p };
  archid = 0;
  curvol = 0;
  filefmtver = 2;
  filefmt = [];
  creatver = [];
}
