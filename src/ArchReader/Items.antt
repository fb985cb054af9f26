-- ===== src/ArchReader/Items.antt =====
-- archreader.c: `read_items` reads back the items that writebuf.c has laid out.
use fsarchiver.Base.{
  ℕ, suc, ◌+◌, ◌^◌, ◌≤◌, ◌<◌, ◌≡◌, refl, ap, sym, false, Option, none, some, List, [], ◌∷◌, ◌++◌,
  arith, ltb, if◌then◌else◌, length, length-append, take, drop, take-append, take_all, drop-append,
  append_assoc, append-nil,
}
use fsarchiver.Base.Int.{pos}
use fsarchiver.Base.Code
use fsarchiver.Base.Bytes.{put_le, get_le, length-put_le, get_le-put_le}
use fsarchiver.Dico.{
  DicoItem, Dico, plenty, has_key, new_item, is_duplicate, dico_add_generic,
  dico_count_all_sections,
}
use fsarchiver.Dico.Unique.{WholeContents, IsItem, AllItems, IsUnique}
use fsarchiver.Writebuf.{item_data, put_items}
use fsarchiver.Writebuf.Layout.{put_items-cons, length_first}
use fsarchiver.ArchReader.{read_items}

abbrev item_bytes : ℕ → ℕ → ℕ → ℕ → List ℕ → List ℕ
item_bytes t s k z tail = t ∷ s ∷ (put_le 2 k ++ (put_le 2 z ++ tail))

-- The fields that `read_items` finds at the start of an item.
record Fields (t s k z : ℕ) (tail bs : List ℕ) : Type 0 where
  room : ltb (length bs) 6 ≡ false
  type_at : get_le (take 1 bs) ≡ t
  section_at : get_le (take 1 (drop 1 bs)) ≡ s
  key_at : get_le (take 2 (drop 2 bs)) ≡ k
  size_at : get_le (take 2 (drop 4 bs)) ≡ z
  tail_at : drop 6 bs ≡ tail

item_bytes-Fields :
    (t s k z : ℕ) (tail : List ℕ)
    → k < 2 ^ 16
    → z < 2 ^ 16
    → Fields t s k z tail (item_bytes t s k z tail)
item_bytes-Fields t s k z tail hk hz = record {
  room = ground (arith, length_first t s k z [] tail);
  type_at = unfold get_le in omega arith;
  section_at = unfold get_le in omega arith;
  key_at =
      rw (take-append 2 (put_le 2 k) (put_le 2 z ++ tail) (sym (length-put_le 2 k)))
        (get_le-put_le 2 k hk);
  size_at =
      rw
        (
          drop-append 2 (put_le 2 k) (put_le 2 z ++ tail) (sym (length-put_le 2 k)),
          take-append 2 (put_le 2 z) tail (sym (length-put_le 2 z)),
        )
        (get_le-put_le 2 z hz);
  tail_at = unfold put_le in refl;
}

-- The item that is added again is the one that was written.
stored_again :
    (item : DicoItem) (xs tail : List ℕ)
    → IsItem item
    → item_data item ≡ some xs
    → length xs ≡ item.size
    → (if ltb 0 item.size then some (take item.size (xs ++ tail)) else none) ≡ item.contents
unfolding item_data
stored_again item xs tail i e l = go item.contents refl i.whole
  where
    go :
        (c : Option (List ℕ))
        → item.contents ≡ c
        → WholeContents item.size c
        → (if ltb 0 item.size then some (take item.size (xs ++ tail)) else none) ≡ item.contents
    go none ec w = ground arith
    go (some bs) ec w = ground (arith, take-append item.size xs tail, take_all item.size bs)

-- What does not occur in a longer dictionary does not occur in a shorter one.
unique_later :
    (d : Dico) (item : DicoItem) (rest : Dico)
    → IsUnique (d ++ (item ∷ rest))
    → is_duplicate item.section item.key d ≡ false
unfolding is_duplicate
unique_later [] item rest u = refl
unique_later (x ∷ d) item rest u = ground (arith, unique_later d item rest u.1, apart d u.0)
  where
    apart :
        (d : Dico)
        → is_duplicate x.section x.key (d ++ (item ∷ rest)) ≡ false
        → has_key x.section x.key item ≡ false
    apart [] h = ground arith
    apart (y ∷ d) h = apart d (ground arith)

dico_add_generic_new :
    (d : Dico) (s k : ℕ) (src : List ℕ) (size type : ℕ)
    → is_duplicate s k d ≡ false
    → dico_add_generic plenty d s k src size type ≡ (
      pos 0,
      d ++ (new_item s k size type (if ltb 0 size then some (take size src) else none) ∷ []),
    )
unfolding dico_add_generic
dico_add_generic_new d s k src size type u = ground arith

-- One round of `read_items` on a buffer that starts with these fields.
read_items_round :
    (count t s k z : ℕ) (tail bs : List ℕ) (d : Dico)
    → Fields t s k z tail bs
    → is_duplicate s k d ≡ false
    → z ≤ length tail
    → read_items plenty (suc count) bs d
      ≡ read_items plenty count
          (drop z tail)
          (d ++ (new_item s k z t (if ltb 0 z then some (take z tail) else none) ∷ []))
unfolding read_items
read_items_round count t s k z tail bs d f u h =
    rw
      (
        f.room,
        f.type_at,
        f.section_at,
        f.key_at,
        f.size_at,
        f.tail_at,
        dico_add_generic_new d s k tail z t u,
      )
      (ground arith)

-- `read_items` on what `put_items` has laid out adds the items again, in the same order.
pub read_items-put_items :
    (d0 d : Dico) (items rest : List ℕ)
    → AllItems d
    → IsUnique (d0 ++ d)
    → put_items d ≡ some items
    → read_items plenty (dico_count_all_sections d) (items ++ rest) d0
      ≡ some (Code.success, d0 ++ d)
unfolding dico_count_all_sections
read_items-put_items d0 [] items rest a u e = unfold read_items in rw append-nil
read_items-put_items d0 (item ∷ d) items rest a u e =
    let (xs, later, f, l, g, b) = put_items-cons item d items a.0 e in
    let tail = xs ++ (later ++ rest) in
    let bytes : items ++ rest ≡ item_bytes item.type item.section item.key item.size tail =
      rw (b, append_assoc, append_assoc, append_assoc) in
    let count : 1 + dico_count_all_sections d ≡ suc (dico_count_all_sections d) = omega arith in
    let again : new_item item.section item.key item.size item.type
          (if ltb 0 item.size then some (take item.size tail) else none)
        ≡ item =
      ap (new_item item.section item.key item.size item.type)
        (stored_again item xs (later ++ rest) a.0 f l) in
    let round =
      read_items_round (dico_count_all_sections d) item.type item.section item.key item.size tail
        (items ++ rest) d0
        (rw bytes (
          item_bytes-Fields item.type item.section item.key item.size tail a.0.key_word
            a.0.size_word))
        (unique_later d0 item d u) (omega (arith, length-append xs (later ++ rest))) in
    rw (count, round, again, drop-append item.size xs (later ++ rest) (sym l))
      (rw append_assoc at
        (read_items-put_items (d0 ++ (item ∷ [])) d later rest a.1 (rw append_assoc u) g))
