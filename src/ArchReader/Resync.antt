-- ===== src/ArchReader/Resync.antt =====
-- archreader.c: the search for the next header in a damaged volume.
use fsarchiver.Base.{
  ℕ, zero, suc, ◌+◌, ◌≤◌, ◌<◌, ◌≡◌, refl, ap, ◌∙◌, sym, Bool, true, false, some, List, [], ◌∷◌,
  ◌++◌, arith, if◌then◌else◌, length, length-append, append_assoc, take, drop, take-append-drop,
  memcpy_whole, length-take, take-append, replicate,
}
use fsarchiver.Base.Code
use fsarchiver.Constants.{is_magic_valid}
use fsarchiver.Dico.{Dico, plenty}
use fsarchiver.ArchReader.{ArchReader, seek, search_magic, archreader_read_header, read_header_body}
use fsarchiver.Base.Bytes.{put_le}
use fsarchiver.Writebuf.Layout.{data_bytes, dico_bytes, header_bytes, length-data_bytes}
use fsarchiver.ArchReader.Headers.{
  AcceptsId, IsHeader, parse_header-data_bytes, length-header_bytes, read_header_body_steps,
  read_header_steps,
}
use fsarchiver.ArchReader.Reading.{ahead, read_data_ahead, ahead-seek}

-- One step of the search, where four bytes are left.
search_step :
    (magic : List ℕ) (curpos b : ℕ) (bytes : List ℕ)
    → length magic ≡ 4
    → 4 ≤ length (b ∷ bytes)
    → let got = take 4 (b ∷ bytes) in
      search_magic magic curpos (b ∷ bytes) ≡ (
        if is_magic_valid got then (true, got, curpos + 4) else search_magic got (curpos + 1) bytes)
unfolding search_magic
search_step magic curpos b bytes lm h =
    let lg : length (take 4 (b ∷ bytes)) ≡ 4 = omega (arith, length-take 4 (b ∷ bytes)) in
    ground (arith, lg, memcpy_whole magic (take 4 (b ∷ bytes)) (lg ∙ sym lm))

-- The search stops at the i-th byte, for some `i ≤ j`, at a valid magic, and right behind it.
abbrev StopsBy : ℕ → ℕ → List ℕ → Bool × List ℕ × ℕ → Type 0
StopsBy j curpos bytes r =
    (i : ℕ) × (i ≤ j)
    × (is_magic_valid (take 4 (drop i bytes)) ≡ true)
    × (r ≡ (true, take 4 (drop i bytes), curpos + i + 4))

stops_here :
    (j curpos : ℕ) (bytes : List ℕ)
    → is_magic_valid (take 4 bytes) ≡ true
    → StopsBy j curpos bytes (true, take 4 bytes, curpos + 4)
stops_here j curpos bytes v = (0, omega arith, v, ground arith)

stops_later :
    (j curpos b : ℕ) (bytes : List ℕ) (r : Bool × List ℕ × ℕ)
    → StopsBy j (curpos + 1) bytes r
    → StopsBy (suc j) curpos (b ∷ bytes) r
stops_later j curpos b bytes r (i, h, v, e) = (suc i, omega arith, v, e ∙ ground arith)

stops_step :
    (t : Bool) (j curpos : ℕ) (bytes : List ℕ) (r : Bool × List ℕ × ℕ)
    → is_magic_valid (take 4 bytes) ≡ t
    → (t ≡ false → StopsBy j curpos bytes r)
    → StopsBy j curpos bytes (if t then (true, take 4 bytes, curpos + 4) else r)
stops_step true j curpos bytes r e later = stops_here j curpos bytes e
stops_step false j curpos bytes r e later = later refl

-- If the volume holds a valid magic at the j-th byte from where the search starts, the search stops
-- at a valid magic there or before it, and right behind its four bytes.
pub search_magic_finds :
    (magic : List ℕ) (curpos : ℕ) (bytes : List ℕ) (j : ℕ)
    → length magic ≡ 4
    → j + 4 ≤ length bytes
    → is_magic_valid (take 4 (drop j bytes)) ≡ true
    → (i : ℕ) × (i ≤ j)
      × (is_magic_valid (take 4 (drop i bytes)) ≡ true)
      × (search_magic magic curpos bytes ≡ (true, take 4 (drop i bytes), curpos + i + 4))
search_magic_finds magic curpos [] j lm h v = absurd (omega arith)
search_magic_finds magic curpos (b ∷ bytes) zero lm h v =
    rw (search_step magic curpos b bytes lm h)
      (stops_step _ 0 curpos (b ∷ bytes) _ refl (λ e. absurd (cc)))
search_magic_finds magic curpos (b ∷ bytes) (suc j) lm h v =
    rw (search_step magic curpos b bytes lm (omega arith)) (
      stops_step _ (suc j) curpos (b ∷ bytes) _ refl (λ _. stops_later j curpos b bytes _ (
        search_magic_finds (take 4 (b ∷ bytes)) (curpos + 1) bytes j
          (omega (arith, length-take 4 (b ∷ bytes))) (omega arith) v)))

-- Where no magic begins in the first bytes, the search passes them over.
search_magic_skips :
    (magic : List ℕ) (curpos : ℕ) (garbage next : List ℕ)
    → length magic ≡ 4
    → 4 ≤ length next
    → ((i : ℕ) → i < length garbage → is_magic_valid (take 4 (drop i (garbage ++ next))) ≡ false)
    → is_magic_valid (take 4 next) ≡ true
    → search_magic magic curpos (garbage ++ next) ≡ (true, take 4 next, curpos + length garbage + 4)
search_magic_skips magic curpos [] [] lm ln clean v = absurd (omega arith)
search_magic_skips magic curpos [] (n ∷ next) lm ln clean v =
    rw (search_step magic curpos n next lm ln, v) (ground arith)
search_magic_skips magic curpos (g ∷ garbage) next lm ln clean v =
    rw
      (
        search_step magic curpos g (garbage ++ next) lm (omega (arith, length-append garbage next)),
        clean 0 (omega arith),
      )
      (search_magic_skips (take 4 (g ∷ (garbage ++ next))) (curpos + 1) garbage next
          (omega (arith, length-take 4 (g ∷ (garbage ++ next)), length-append garbage next)) ln
          (λ i h. clean (suc i) (omega arith)) v
        ∙ ground arith)

-- The part of `archreader_read_header` that searches.
read_header_search :
    (ai : ArchReader) (g : ℕ) (garbage next : List ℕ)
    → ahead ai ≡ (g ∷ garbage) ++ next
    → 4 ≤ length next
    → ((i : ℕ)
        → i < length (g ∷ garbage)
        → is_magic_valid (take 4 (drop i ((g ∷ garbage) ++ next))) ≡ false)
    → is_magic_valid (take 4 next) ≡ true
    → archreader_read_header plenty ai true
      ≡ read_header_body plenty (seek ai (ai.volume.pos + length (g ∷ garbage) + 4)) (take 4 next)
unfolding archreader_read_header
read_header_search ai g garbage next a ln clean v =
    let all = (g ∷ garbage) ++ next in
    let first = take 4 all in
    let lf : length first ≡ 4 =
      omega (arith, length-take 4 all, length-append (g ∷ garbage) next) in
    ground (
      arith,
      read_data_ahead ai first (drop 4 all) 4 (sym lf) (a ∙ sym (take-append-drop 4 all)),
      memcpy_whole (replicate 4 0) first lf,
      clean 0 (omega arith),
      search_magic_skips first ai.volume.pos (g ∷ garbage) next lf ln clean v,
    )

-- `archreader_read_header` with `allowseek` gets back in step in a damaged volume: where the next
-- bytes are any garbage in which no valid magic begins, followed by a header of this archive, it
-- answers with that header, and the position is just behind it.
pub archreader_read_header_resync :
    (ai : ArchReader) (garbage rest : List ℕ) (d : Dico) (items magic : List ℕ) (archid fsid : ℕ)
    → IsHeader d items magic archid fsid
    → ai.filefmtver ≡ 2
    → AcceptsId ai archid
    → ahead ai ≡ garbage ++ (header_bytes magic archid fsid (data_bytes d items) ++ rest)
    → ((i : ℕ)
        → i < length garbage
        → is_magic_valid (
            take 4
              (drop i (garbage ++ (header_bytes magic archid fsid (data_bytes d items) ++ rest))))
          ≡ false)
    → archreader_read_header plenty ai true
      ≡ some (record {
        res = Code.success;
        magic = magic;
        dico = some d;
        fsid = fsid;
        reader = seek ai (
            ai.volume.pos
            + length garbage
            + length (header_bytes magic archid fsid (data_bytes d items)));
      })
archreader_read_header_resync ai [] rest d items magic archid fsid h v accepts a clean =
    let buffer = data_bytes d items in
    let end : ai.volume.pos + 0 + length (header_bytes magic archid fsid buffer)
        ≡ ai.volume.pos + 4 + 4 + 2 + 4 + length buffer + 4 =
      omega (arith, length-header_bytes magic archid fsid buffer h.magic_size) in
    rw end (
      read_header_steps ai true magic archid fsid d buffer rest h.magic_valid h.magic_size v
        (omega (arith, h, length-data_bytes d items)) h.archid_word h.fsid_word accepts a
        (parse_header-data_bytes d items h.whole h.unique h.layout h.count_word))
archreader_read_header_resync ai (g ∷ garbage) rest d items magic archid fsid h v accepts a clean =
    let buffer = data_bytes d items in
    let n = length (g ∷ garbage) in
    let body = put_le 4 archid ++ (put_le 2 fsid ++ (dico_bytes buffer ++ rest)) in
    let next = header_bytes magic archid fsid buffer ++ rest in
    let parts : next ≡ magic ++ body = rw (append_assoc, append_assoc, append_assoc) in
    let first : take 4 next ≡ magic =
      ap (take 4) parts ∙ take-append 4 magic body (sym h.magic_size) in
    let size : length next ≡ 4 + length body =
      ap length parts ∙ omega (arith, h, length-append magic body) in
    let ai1 = seek ai (ai.volume.pos + n) in
    let a1 : ahead ai1 ≡ magic ++ body = ahead-seek ai (g ∷ garbage) next n refl a ∙ parts in
    let ai2 = seek ai1 (ai1.volume.pos + 4) in
    let a2 : ahead ai2 ≡ body = ahead-seek ai1 magic body 4 (sym h.magic_size) a1 in
    let end : ai.volume.pos + n + length (header_bytes magic archid fsid buffer)
        ≡ ai.volume.pos + n + 4 + 4 + 2 + 4 + length buffer + 4 =
      omega (arith, length-header_bytes magic archid fsid buffer h.magic_size) in
    read_header_search ai g garbage next a (omega arith) clean
      (ap is_magic_valid first ∙ h.magic_valid)
    ∙ ap (read_header_body plenty ai2) first
    ∙ rw end (
        read_header_body_steps ai2 magic archid fsid d buffer rest v
          (omega (arith, h, length-data_bytes d items)) h.archid_word h.fsid_word accepts a2
          (parse_header-data_bytes d items h.whole h.unique h.layout h.count_word))
