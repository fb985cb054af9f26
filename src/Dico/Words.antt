-- ===== src/Dico/Words.antt =====
-- dico.c: what the typed writers store, the typed readers give back.
use fsarchiver.Base.{
  ℕ, ◌+◌, ◌%◌, ◌^◌, ◌≤◌, ◌<◌, ◌≡◌, refl, ap, ◌∙◌, false, some, List, [], ◌∷◌, ◌++◌, arith, length,
  length-append, drop, take_all, memcpy_whole, memcpy_front, replicate, ◌-◌, drop-replicate,
  replicate-suc_sub, append_assoc,
}
use fsarchiver.Base.Int.{pos, is_error}
use fsarchiver.Base.Bytes.{put_le, get_le, length-put_le, get_le-put_le}
use fsarchiver.Dico.{
  string, Memory, DicoItem, Dico, copy_contents, dico_add_generic, dico_add_u16, dico_add_u32,
  dico_add_u64, get_word, dico_get_u16, dico_get_u32, dico_get_u64, dico_get_data, code_of_type,
  dico_add_string, dico_get_string,
}
use fsarchiver.Dico.Lookup.{lookup, stored_item, lookup-dico_add_generic, dico_get_generic-answer}

-- Copying data of the buffer's own size replaces all of it.
copy_contents_whole :
    (item : DicoItem) (buffer bs : List ℕ)
    → item.contents ≡ some bs
    → length bs ≡ item.size
    → 0 < item.size
    → length buffer ≡ item.size
    → copy_contents item buffer ≡ bs
unfolding copy_contents
copy_contents_whole item buffer bs e l p b = ground (arith, memcpy_whole buffer bs)

-- What `get_word` answers for an item of the word's size, whatever the stack holds.
pub get_word_stored :
    (w : ℕ) (junk : List ℕ) (d : Dico) (s k : ℕ) (item : DicoItem) (bs : List ℕ)
    → 0 < w
    → length junk ≡ w
    → lookup d s k ≡ some item
    → item.size ≡ w
    → item.contents ≡ some bs
    → length bs ≡ w
    → get_word w junk d s k ≡ (pos 0, get_le bs)
unfolding get_word
get_word_stored w junk d s k item bs p lj f e c lb = ground (
  arith,
  dico_get_generic-answer d s k junk w item p f,
  copy_contents_whole item junk bs c (omega arith) (omega arith) (omega arith),
)

-- A word that was stored is read back, whatever the stack holds.
get_word-dico_add_generic :
    (w : ℕ) (mem : Memory) (junk : List ℕ) (d : Dico) (s k x type : ℕ)
    → 0 < w
    → length junk ≡ w
    → x < 256 ^ w
    → is_error (dico_add_generic mem d s k (put_le w x) w type).0 ≡ false
    → get_word w junk (dico_add_generic mem d s k (put_le w x) w type).1 s k ≡ (pos 0, x)
get_word-dico_add_generic w mem junk d s k x type p lj hx ok =
    get_word_stored w junk _ s k (stored_item s k (put_le w x) w type) (put_le w x) p lj found refl
      stored (length-put_le w x)
    ∙ ap (λ n. (pos 0, n)) (get_le-put_le w x hx)
  where
    found :
        lookup (dico_add_generic mem d s k (put_le w x) w type).1 s k
        ≡ some (stored_item s k (put_le w x) w type)
    found = ground (arith, lookup-dico_add_generic mem d s k (put_le w x) w type s k ok)

    stored : (stored_item s k (put_le w x) w type).contents ≡ some (put_le w x)
    stored = ground (arith, take_all w (put_le w x), length-put_le w x)

-- `dico_get_u16`, `dico_get_u32` and `dico_get_u64` give back exactly the number that a successful
-- call of the writer of the same width stored, whatever the uninitialised word on their stack held.
pub dico_get-dico_add :
    (mem : Memory) (j2 j4 j8 : List ℕ) (d : Dico) (s k x2 x4 x8 : ℕ)
    → length j2 ≡ 2
    → length j4 ≡ 4
    → length j8 ≡ 8
    → x2 < 2 ^ 16
    → x4 < 2 ^ 32
    → x8 < 2 ^ 64
    → is_error (dico_add_u16 mem d s k x2).0 ≡ false
    → is_error (dico_add_u32 mem d s k x4).0 ≡ false
    → is_error (dico_add_u64 mem d s k x8).0 ≡ false
    → (dico_get_u16 j2 (dico_add_u16 mem d s k x2).1 s k ≡ (pos 0, x2))
      × (dico_get_u32 j4 (dico_add_u32 mem d s k x4).1 s k ≡ (pos 0, x4))
      × (dico_get_u64 j8 (dico_add_u64 mem d s k x8).1 s k ≡ (pos 0, x8))
unfolding dico_add_u16 dico_add_u32 dico_add_u64 dico_get_u16 dico_get_u32 dico_get_u64
dico_get-dico_add mem j2 j4 j8 d s k x2 x4 x8 l2 l4 l8 h2 h4 h8 ok2 ok4 ok8 = (
  get_word-dico_add_generic 2 mem j2 d s k x2 _ (omega arith) l2 h2 ok2,
  get_word-dico_add_generic 4 mem j4 d s k x4 _ (omega arith) l4 h4 ok4,
  get_word-dico_add_generic 8 mem j8 d s k x8 _ (omega arith) l8 h8 ok8,
)

-- An item that is shorter than the reader's word is accepted too: `dico_get_u32` reports success,
-- and the bytes that the item lacks are those of the uninitialised word on its stack.
pub dico_get_u32_short :
    (junk : List ℕ) (d : Dico) (s k : ℕ) (item : DicoItem) (bs : List ℕ)
    → lookup d s k ≡ some item
    → 0 < item.size
    → item.size ≤ 4
    → item.contents ≡ some bs
    → dico_get_u32 junk d s k ≡ (pos 0, get_le (bs ++ drop (length bs) junk))
unfolding dico_get_u32 get_word copy_contents
dico_get_u32_short junk d s k item bs f p q c =
    ground (arith, dico_get_generic-answer d s k junk 4 item (omega arith) f, memcpy_front junk bs)

-- A string that `dico_add_string` stored is read back by `dico_get_string` in front of the zeros of
-- a buffer with room for it, if it is shorter than 65535 bytes.
pub dico_get_string-dico_add_string :
    (mem : Memory) (d : Dico) (s k : ℕ) (text : List ℕ) (bufsize : ℕ)
    → length text < 2 ^ 16 - 1
    → length text < bufsize
    → is_error (dico_add_string mem d s k text).0 ≡ false
    → dico_get_string (dico_add_string mem d s k text).1 s k bufsize
      ≡ (pos 0, text ++ replicate (bufsize - length text) 0)
unfolding dico_get_string dico_get_data dico_add_string copy_contents
dico_get_string-dico_add_string mem d s k text bufsize h b ok = ground (
  arith,
  lookup-dico_add_generic mem d s k terminated size _ s k ok,
  dico_get_generic-answer (dico_add_generic mem d s k terminated size (code_of_type string)).1 s k
      zeros bufsize (stored_item s k terminated size (code_of_type string)) (omega arith),
  take_all size terminated,
  length-append text (0 ∷ []),
  memcpy_front zeros terminated,
  drop-replicate {A = ℕ} (length terminated) bufsize 0,
  replicate-suc_sub {A = ℕ} bufsize (length text) 0 b,
  append_assoc text (0 ∷ []) (replicate (bufsize - (length text + 1)) 0),
)
  where
    size : ℕ
    size = (length text % 2 ^ 16 + 1) % 2 ^ 16

    terminated : List ℕ
    terminated = text ++ (0 ∷ [])

    zeros : List ℕ
    zeros = replicate bufsize 0
