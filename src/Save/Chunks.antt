-- ===== src/Save/Chunks.antt =====
-- oper_save.c: the blocks of a file, and the queue with some items more.
use fsarchiver.Base.{
  ℕ, zero, suc, ◌+◌, ◌≤◌, ◌<◌, ◌≡◌, refl, ap, ◌∙◌, true, false, List, [], ◌∷◌, ◌++◌, arith, ◌==◌,
  if◌then◌else◌, length, length-append, length-drop, take, drop, min, take-append-drop, append-nil,
  append_assoc, Bool-cases, inl, inr,
}
use fsarchiver.Queue.{Status, block, Item, Queue}
use fsarchiver.Block.{BlockInfo}

-- The data in blocks of `size` bytes, the last of which may be shorter.
unfoldable pub chunks : ℕ → ℕ → List ℕ → List (List ℕ)
chunks zero size bytes = []
chunks (suc fuel) size bytes =
    let k = min (length bytes) size in
    let later = chunks fuel size (drop k bytes) in
    if length bytes == 0 then [] else take k bytes ∷ later

abbrev pub concat : List (List ℕ) → List ℕ
concat [] = []
concat (bytes ∷ later) = bytes ++ concat later

pub nothing : (xs : List ℕ) → (length xs == 0) ≡ true → [] ≡ xs
nothing [] e = refl
nothing (x ∷ xs) e = absurd (ground (arith, e))

pub concat-chunks :
    (fuel size : ℕ) (bytes : List ℕ)
    → 0 < size
    → length bytes ≤ fuel
    → concat (chunks fuel size bytes) ≡ bytes
unfolding chunks
concat-chunks zero size [] h f = refl
concat-chunks zero size (c ∷ bytes) h f = absurd (omega (arith, f))
concat-chunks (suc fuel) size bytes h f = elim (Bool-cases (length bytes == 0)) [
  | inl e ↦ rw e (nothing bytes e)
  | inr e ↦
      let k = min (length bytes) size in
      let some_bytes : 0 < length bytes = ground (arith, e) in
      let shorter : length (drop k bytes) ≤ fuel =
        omega (arith, length-drop k bytes, h, f, some_bytes) in
      rw e (
        ap (◌++◌ (take k bytes)) (concat-chunks fuel size (drop k bytes) h shorter)
        ∙ take-append-drop k bytes)
]

-- A block of a file that is not processed yet: its data, their size, their offset in the file and
-- the file system.
abbrev pub block_at : ℕ → ℕ → List ℕ → BlockInfo
block_at fsid filepos bytes = record {
  blkdata = bytes;
  blkrealsize = length bytes;
  blkoffset = filepos;
  blkarcsum = 0;
  blkarsize = 0;
  blkcompalgo = 0;
  blkcompsize = 0;
  blkcryptalgo = 0;
  blkfsid = fsid;
  blklocked = false;
}

-- The items of the blocks, the first of which has the number `n` and the offset `filepos`.
abbrev pub block_items : Status → ℕ → ℕ → ℕ → List (List ℕ) → List Item
block_items status fsid n filepos [] = []
block_items status fsid n filepos (bytes ∷ later) =
    record { status = status; itemnum = n; payload = block (block_at fsid filepos bytes) }
    ∷ block_items status fsid (n + 1) (filepos + length bytes) later

-- A queue with these items, `blocks` of which are blocks, behind its own.
unfoldable pub with_items : Queue → List Item → ℕ → Queue
with_items q items blocks = record q {
  items = q.items ++ items;
  blkcount = q.blkcount + blocks;
  itemcount = q.itemcount + length items;
  curitemnum = q.curitemnum + length items;
}

unfoldable with_fields : Queue → List Item → ℕ → ℕ → ℕ → Queue
with_fields q items b n k = record q { items = items; blkcount = b; itemcount = n; curitemnum = k }

with_fields_cong :
    (q : Queue) (xs ys : List Item) (b b' n n' k k' : ℕ)
    → xs ≡ ys
    → b ≡ b'
    → n ≡ n'
    → k ≡ k'
    → with_fields q xs b n k ≡ with_fields q ys b' n' k'
with_fields_cong q xs ys b b' n n' k k' e f g h =
    ap (λ zs. with_fields q zs b n k) e
    ∙ ap (λ m. with_fields q ys m n k) f
    ∙ ap (λ m. with_fields q ys b' m k) g
    ∙ ap (λ m. with_fields q ys b' n' m) h

pub with_items_nil : (q : Queue) → with_items q [] 0 ≡ q
unfolding with_items with_fields
with_items_nil q =
    with_fields_cong q (q.items ++ []) q.items (q.blkcount + 0) q.blkcount (q.itemcount + 0)
      q.itemcount (q.curitemnum + 0) q.curitemnum (append-nil q.items) (omega arith) (omega arith)
      (omega arith)

pub with_items-append :
    (q : Queue) (xs ys : List Item) (a b : ℕ)
    → with_items (with_items q xs a) ys b ≡ with_items q (xs ++ ys) (a + b)
unfolding with_items with_fields
with_items-append q xs ys a b =
    let len = length-append xs ys in
    with_fields_cong q ((q.items ++ xs) ++ ys) (q.items ++ (xs ++ ys)) (q.blkcount + a + b)
      (q.blkcount + (a + b)) (q.itemcount + length xs + length ys) (q.itemcount + length (xs ++ ys))
      (q.curitemnum + length xs + length ys) (q.curitemnum + length (xs ++ ys))
      (append_assoc q.items xs ys) (omega arith) (omega (arith, len)) (omega (arith, len))
