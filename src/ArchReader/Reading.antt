-- ===== src/ArchReader/Reading.antt =====
-- archreader.c: `archreader_read_data` where the bytes that it wants stand next in the volume.
use fsarchiver.Base.{
  ℕ, ◌+◌, ◌≡◌, ap, ◌∙◌, sym, List, ◌++◌, arith, length, take, drop, take-append, drop-append,
  drop-drop,
}
use fsarchiver.Base.Int.{pos}
use fsarchiver.ArchReader.{ArchReader, seek, archreader_read_data}

-- What is still to be read.
abbrev pub ahead : ArchReader → List ℕ
ahead ai = drop ai.volume.pos ai.volume.bytes

pub read_data_ahead :
    (ai : ArchReader) (got rest : List ℕ) (n : ℕ)
    → n ≡ length got
    → ahead ai ≡ got ++ rest
    → archreader_read_data ai n ≡ (pos 0, got, seek ai (ai.volume.pos + n))
unfolding archreader_read_data
read_data_ahead ai got rest n e a = ground (arith, ap (take n) a, take-append n got rest)

pub ahead-seek :
    (ai : ArchReader) (got rest : List ℕ) (n : ℕ)
    → n ≡ length got
    → ahead ai ≡ got ++ rest
    → ahead (seek ai (ai.volume.pos + n)) ≡ rest
ahead-seek ai got rest n e a =
    sym (drop-drop ai.volume.pos n ai.volume.bytes) ∙ ap (drop n) a ∙ drop-append n got rest e
