-- ===== src/Regmulti/Queueing.antt =====
-- regmulti.c: what a structure puts in the queue.
use fsarchiver.Base.{
  ℕ, suc, ◌+◌, ◌%◌, ◌^◌, ◌<◌, ◌≡◌, refl, ap, sym, ◌∙◌, false, none, some, List, [], ◌∷◌, ◌++◌,
  arith, length, length-append, take, take_all, append-nil, append_assoc,
}
use fsarchiver.Base.Int.{pos}
use fsarchiver.Base.Bytes.{put_le, length-put_le}
use fsarchiver.Constants.{
  section_stdattr, diskitemkey_multifilescount, diskitemkey_multifilesoffset, magic_objt,
}
use fsarchiver.Dico.{Dico, plenty, dico_add_generic, dico_add_u32, code_of_type}
use fsarchiver.Dico.Lookup.{lookup, lookup-append, is_duplicate-is_some}
use fsarchiver.Block.{BlockInfo}
use fsarchiver.Queue.{
  todo, done, block, header, Item, Queue, is_full, inc64, queue_add_header,
  queue_add_header_internal, add_header_when_ready, queue_add_block, add_block_when_ready,
}
use fsarchiver.ArchReader.Blocks.{Stack}
use fsarchiver.Regmulti.{Regmulti, enqueue_headers, data_block, regmulti_save_enqueue}
use fsarchiver.Regmulti.Packed.{File, heads_of, joined, IsPacked}
use fsarchiver.Regmulti.Unpacked.{word_item, sealed, IsFile, get_size}

dico_add_u32_new :
    (d : Dico) (key x : ℕ)
    → lookup d section_stdattr key ≡ none
    → dico_add_u32 plenty d section_stdattr key x ≡ (pos 0, d ++ (word_item key x ∷ []))
unfolding dico_add_u32 dico_add_generic code_of_type
dico_add_u32_new d key x f = ground (
  arith,
  f,
  is_duplicate-is_some d section_stdattr key,
  take_all 4 (put_le 4 x),
  length-put_le 4 x,
)

abbrev pub AllFiles : List File → Type 0
AllFiles [] = Unit {0}
AllFiles ((h, bytes) ∷ files) = IsFile h bytes × AllFiles files

-- The headers in the queue, the first with the number `n`.
abbrev pub header_items : ℕ → List File → ℕ → ℕ → ℕ → List Item
header_items n [] count offset fsid = []
header_items n ((h, bytes) ∷ files) count offset fsid =
    record {
      status = done;
      itemnum = n;
      payload = header (record { magic = magic_objt; fsid = fsid; dico = sealed h count offset });
    }
    ∷ header_items (n + 1) files count (offset + length bytes) fsid

-- A queue with these items added.
abbrev pub with_headers : Queue → List Item → Queue
with_headers q items' = record q {
  items = q.items ++ items';
  itemcount = q.itemcount + length items';
  curitemnum = q.curitemnum + length items';
}

unfoldable with_counts : Queue → List Item → ℕ → ℕ → Queue
with_counts q items' n k = record q { items = items'; itemcount = n; curitemnum = k }

with_counts_cong :
    (q : Queue) (xs ys : List Item) (n n' k k' : ℕ)
    → xs ≡ ys
    → n ≡ n'
    → k ≡ k'
    → with_counts q xs n k ≡ with_counts q ys n' k'
with_counts_cong q xs ys n n' k k' e f g =
    ap (λ zs. with_counts q zs n k) e
    ∙ ap (λ m. with_counts q ys m k) f
    ∙ ap (λ j. with_counts q ys n' j) g

with_headers_nil : (q : Queue) → q ≡ with_headers q []
unfolding with_counts
with_headers_nil q =
    with_counts_cong q q.items (q.items ++ []) q.itemcount (q.itemcount + 0) q.curitemnum
      (q.curitemnum + 0) (sym (append-nil q.items)) (omega arith) (omega arith)

with_headers_cons :
    (q : Queue) (item : Item) (later : List Item)
    → with_headers (with_headers q (item ∷ [])) later ≡ with_headers q (item ∷ later)
unfolding with_counts
with_headers_cons q item later =
    with_counts_cong q ((q.items ++ (item ∷ [])) ++ later) (q.items ++ (item ∷ later))
      (q.itemcount + 1 + length later) (q.itemcount + suc (length later))
      (q.curitemnum + 1 + length later) (q.curitemnum + suc (length later))
      (append_assoc q.items (item ∷ []) later) (omega arith) (omega arith)

queue_add_header_ready :
    (q : Queue) (d : Dico) (fsid : ℕ)
    → is_full q ≡ false
    → q.endofqueue ≡ false
    → q.itemcount + 1 < 2 ^ 64
    → queue_add_header plenty q d magic_objt fsid
      ≡ some (
        pos 0,
        with_headers q (
            record {
              status = done;
              itemnum = q.curitemnum;
              payload = header (record { magic = magic_objt; fsid = fsid; dico = d });
            }
            ∷ []),
      )
unfolding queue_add_header queue_add_header_internal add_header_when_ready
queue_add_header_ready q d fsid room opened small = ground (arith, room, opened, small)

no_offset_yet :
    (d : Dico) (bytes : List ℕ) (count : ℕ)
    → IsFile d bytes
    → lookup
        (d ++ (word_item diskitemkey_multifilescount count ∷ []))
        section_stdattr
        diskitemkey_multifilesoffset
      ≡ none
no_offset_yet d bytes count f = ground (
  arith,
  f.no_offset,
  lookup-append d (word_item diskitemkey_multifilescount count) section_stdattr
      diskitemkey_multifilesoffset,
)

enqueue_headers_all :
    (stack : Stack) (files : List File) (count offset fsid : ℕ) (q : Queue)
    → ((i : ℕ) → length (stack i) ≡ 8)
    → AllFiles files
    → offset + length (joined files) < 2 ^ 32
    → is_full q ≡ false
    → q.endofqueue ≡ false
    → q.itemcount + length files < 2 ^ 64
    → enqueue_headers stack plenty (heads_of files) count offset fsid q
      ≡ some (pos 0, with_headers q (header_items q.curitemnum files count offset fsid))
unfolding enqueue_headers
enqueue_headers_all stack [] count offset fsid q words all small room opened counts =
    ap (λ r. some (pos 0, r)) (with_headers_nil q)
enqueue_headers_all stack ((h, bytes) ∷ files) count offset fsid q words (f, all) small room opened
      counts =
    let item : Item = record {
      status = done;
      itemnum = q.curitemnum;
      payload = header (record { magic = magic_objt; fsid = fsid; dico = sealed h count offset });
    } in
    let q' = with_headers q (item ∷ []) in
    let later =
      enqueue_headers_all (λ i. stack (suc i)) files count (offset + length bytes) fsid q'
        (λ i. words (suc i)) all (omega (arith, small, length-append bytes (joined files))) room
        opened (omega (arith, counts)) in
    let size = length bytes in
    let next : (offset + size % 2 ^ 32) % 2 ^ 32 ≡ offset + size =
      omega (arith, small, length-append bytes (joined files)) in
    ground (
      arith,
      get_size (stack 0) h size (words 0) (omega (arith, small, length-append bytes (joined files)))
          f.size_is,
      dico_add_u32_new h diskitemkey_multifilescount count f.no_count,
      dico_add_u32_new (h ++ (word_item diskitemkey_multifilescount count ∷ []))
          diskitemkey_multifilesoffset offset (no_offset_yet h bytes count f),
      queue_add_header_ready q (sealed h count offset) fsid room opened (omega (arith, counts)),
      ap (λ o. enqueue_headers (λ i. stack (suc i)) plenty (heads_of files) count o fsid q') next,
      later,
      with_headers_cons q item (header_items (q.curitemnum + 1) files count (offset + size) fsid),
    )

-- A block that is not processed yet, with these data, from the start of the structure.
unfoldable pub joined_block : List ℕ → ℕ → BlockInfo
joined_block bytes fsid = record {
  blkdata = bytes;
  blkrealsize = length bytes;
  blkoffset = 0;
  blkarcsum = 0;
  blkarsize = 0;
  blkcompalgo = 0;
  blkcompsize = 0;
  blkcryptalgo = 0;
  blkfsid = fsid;
  blklocked = false;
}

data_block-joined_block :
    (m : Regmulti) (files : List File) (fsid : ℕ)
    → IsPacked m files
    → data_block m fsid ≡ joined_block (joined files) fsid
unfolding joined_block
data_block-joined_block m files fsid p =
    ap (λ bytes. record (data_block m fsid) { blkdata = bytes }) p.bytes_are
    ∙ ap (λ size. record (joined_block (joined files) fsid) { blkrealsize = size }) p.used_is

-- Everything that is queued for `files`: their headers, and the block with their data.
abbrev pub queued_items : List File → ℕ → ℕ → List Item
queued_items files n fsid =
    header_items n files (length files) 0 fsid
    ++ (record {
      status = todo;
      itemnum = n + length files;
      payload = block (joined_block (joined files) fsid);
    }
        ∷ [])

length-header_items :
    (n : ℕ) (files : List File) (count offset fsid : ℕ)
    → length (header_items n files count offset fsid) ≡ length files
length-header_items n [] count offset fsid = refl
length-header_items n ((h, bytes) ∷ files) count offset fsid =
    ap suc (length-header_items (n + 1) files count (offset + length bytes) fsid)

queue_add_block_ready :
    (q : Queue) (b : BlockInfo)
    → is_full q ≡ false
    → q.endofqueue ≡ false
    → (q' : Queue) × (queue_add_block plenty q b todo ≡ some (pos 0, q'))
      × (q'.items
          ≡ q.items ++ (record { status = todo; itemnum = q.curitemnum; payload = block b } ∷ []))
unfolding queue_add_block add_block_when_ready
queue_add_block_ready q b room opened = (
  record q {
    items = q.items ++ (record { status = todo; itemnum = q.curitemnum; payload = block b } ∷ []);
    blkcount = inc64 q.blkcount;
    itemcount = inc64 q.itemcount;
    curitemnum = q.curitemnum + 1;
  },
  ground (arith, room, opened),
  refl,
)

-- On a queue that is open and not full, when memory suffices and each header has the size of its file
-- and neither of the two attributes that are added, the files of a structure that holds some are
-- queued: the header of each in order, with the number of files and the place of its data added, and
-- then one block to be processed, with the data of all, their size and the number of the file system.
pub regmulti_save_enqueue_lem :
    (stack : Stack) (m : Regmulti) (files : List File) (fsid : ℕ) (q : Queue)
    → ((i : ℕ) → length (stack i) ≡ 8)
    → IsPacked m files
    → AllFiles files
    → 0 < length files
    → is_full q ≡ false
    → q.endofqueue ≡ false
    → q.itemcount + length files < 2 ^ 64
    → (q' : Queue) × (regmulti_save_enqueue stack plenty m q fsid ≡ some (pos 0, q'))
      × (q'.items ≡ q.items ++ queued_items files q.curitemnum fsid)
unfolding regmulti_save_enqueue
regmulti_save_enqueue_lem stack m files fsid q words p all some_files room opened counts =
    let heads = header_items q.curitemnum files (length files) 0 fsid in
    let q1 = with_headers q heads in
    let b = joined_block (joined files) fsid in
    let (q', e, items_are) = queue_add_block_ready q1 b room opened in
    let first : enqueue_headers stack plenty (take m.count m.objhead) m.count 0 fsid q
        ≡ some (pos 0, q1) =
      ap (λ xs. enqueue_headers stack plenty xs m.count 0 fsid q) p.heads_are
      ∙ ap (λ k. enqueue_headers stack plenty (heads_of files) k 0 fsid q) p.count_is
      ∙ enqueue_headers_all stack files (length files) 0 fsid q words all
          (omega (arith, p.used_is, p.fits, p.limit)) room opened counts in
    (
      q',
      ground (arith, first, e, data_block-joined_block m files fsid p, p.count_is, some_files),
      items_are
          ∙ append_assoc q.items heads (
              record { status = todo; itemnum = q.curitemnum + length heads; payload = block b }
              ∷ [])
          ∙ ap
              (λ k.
                q.items
                ++ (heads
                    ++ (record { status = todo; itemnum = q.curitemnum + k; payload = block b }
                        ∷ [])))
              (length-header_items q.curitemnum files (length files) 0 fsid),
    )
