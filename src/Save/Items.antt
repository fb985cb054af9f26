-- ===== src/Save/Items.antt =====
-- oper_save.c: the items that createar_obj_regfile_unique puts in the queue.
use fsarchiver.Base.{
  ℕ, suc, ◌+◌, ◌<◌, ◌≡◌, refl, sym, ap, ◌∙◌, Bool, true, false, some, List, [], ◌∷◌, ◌++◌, arith,
  ltb, if◌then◌else◌, length, Bool-cases, inl, inr,
}
use fsarchiver.Base.Int.{pos}
use fsarchiver.Constants.{magic_objt, magic_filf}
use fsarchiver.Keys.{blockfoot_md5sum}
use fsarchiver.Dico.{Dico, plenty, dico_alloc, dico_add_data}
use fsarchiver.Queue.{todo, done, Status, header, Item, Queue}
use fsarchiver.Source.{Source}
use fsarchiver.Target.{Digest}
use fsarchiver.Save.RegFile.{Progress, save_footer, createar_obj_regfile_unique}
use fsarchiver.Save.Chunks.{
  chunks, concat, concat-chunks, block_items, with_items, with_items_nil, with_items-append,
}
use fsarchiver.Save.Room.{HasRoom, HasRoom-header, queue_add_header-HasRoom}
use fsarchiver.Save.Blocks.{Holds, after, save_blocks-chunks}

abbrev pub footer_dico : Digest → List ℕ → Dico
footer_dico digest bytes =
    (dico_add_data plenty dico_alloc 0 blockfoot_md5sum (digest.md5 bytes) 16).1

abbrev pub header_item : ℕ → List ℕ → ℕ → Dico → Item
header_item n magic fsid d = record {
  status = done;
  itemnum = n;
  payload = header (record { magic = magic; fsid = fsid; dico = d });
}

abbrev pub footer_items : Digest → List ℕ → ℕ → ℕ → List Item
footer_items digest bytes fsid n =
    if ltb 0 (length bytes)
    then header_item n magic_filf fsid (footer_dico digest bytes) ∷ []
    else []

-- The items of the file's contents, and of the whole file.
abbrev pub contents_items : Status → Digest → List ℕ → List (List ℕ) → ℕ → ℕ → List Item
contents_items status digest bytes cs fsid n =
    block_items status fsid n 0 cs ++ footer_items digest bytes fsid (n + length cs)

pub length-block_items :
    (status : Status) (fsid n filepos : ℕ) (cs : List (List ℕ))
    → length (block_items status fsid n filepos cs) ≡ length cs
length-block_items status fsid n filepos [] = refl
length-block_items status fsid n filepos (c ∷ cs) =
    ap suc (length-block_items status fsid (n + 1) (filepos + length c) cs)

HasRoom-items :
    (q : Queue) (xs : List Item) (b : ℕ)
    → HasRoom q b (length xs + 1)
    → HasRoom (with_items q xs b) 0 1
unfolding with_items
HasRoom-items q xs b h = record {
  opened = h.opened;
  space = omega (arith, h.space);
  counts = omega (arith, h.counts);
  numbers = omega (arith, h.numbers);
}

-- The header, the blocks and the footer, added one after the other.
parts-with_items :
    (digest : Digest) (bytes : List ℕ) (fsid : ℕ) (q : Queue) (item : Item) (cs : List (List ℕ))
    → with_items
        (with_items
          (with_items q (item ∷ []) 0)
          (block_items todo fsid (with_items q (item ∷ []) 0).curitemnum 0 cs)
          (length cs))
        (footer_items digest bytes fsid
          (with_items
            (with_items q (item ∷ []) 0)
            (block_items todo fsid (with_items q (item ∷ []) 0).curitemnum 0 cs)
            (length cs)).curitemnum)
        0
      ≡ with_items q
          (item ∷ contents_items todo digest bytes cs fsid (q.curitemnum + 1))
          (length cs)
unfolding with_items
parts-with_items digest bytes fsid q item cs =
    let blocks = block_items todo fsid (q.curitemnum + 1) 0 cs in
    let len = length-block_items todo fsid (q.curitemnum + 1) 0 cs in
    let count : length cs + 0 ≡ length cs = omega arith in
    let count' : 0 + length cs ≡ length cs = omega arith in
    with_items-append (with_items q (item ∷ []) 0) blocks _ (length cs) 0
    ∙ ap
        (with_items (with_items q (item ∷ []) 0)
          (blocks ++ footer_items digest bytes fsid (q.curitemnum + 1 + length blocks)))
        count
    ∙ with_items-append q (item ∷ []) _ 0 (length cs)
    ∙ ap
        (with_items q
          (item ∷ (blocks ++ footer_items digest bytes fsid (q.curitemnum + 1 + length blocks))))
        count'
    ∙ ap
        (λ n.
          with_items q (item ∷ (blocks ++ footer_items digest bytes fsid (q.curitemnum + 1 + n)))
            (length cs))
        len

module _ (src : Source) (interrupted : ℕ → Bool) (fullpath bytes : List ℕ) (size fsid : ℕ)
    (digest : Digest) (holds : Holds src fullpath bytes) (calm : (k : ℕ) → interrupted k ≡ false)
    (large : 0 < size) (works : (digest.starts ≡ true) × (digest.ends ≡ true)) where
  save_footer-items :
      (p : Progress)
      → p.failed ≡ false
      → p.digested ≡ bytes
      → HasRoom p.queue 0 1
      → save_footer src interrupted fullpath (length bytes) size fsid digest plenty p
        ≡ some (pos 0, with_items p.queue (footer_items digest bytes fsid p.queue.curitemnum) 0)
  unfolding save_footer
  save_footer-items p f d r = elim (Bool-cases (ltb 0 (length bytes))) [
    | inl l ↦
        rw
          (
            works.1,
            l,
            d,
            queue_add_header-HasRoom p.queue (footer_dico digest bytes) magic_filf fsid 0 0 r refl,
            f,
          )
          refl
    | inr l ↦ rw (works.1, l, f) (ap (λ q. some (pos 0, q)) (sym (with_items_nil p.queue)))
  ]

  -- A file that can be read to its end is queued whole: its header, its bytes in blocks of
  -- `datablocksize` bytes with their offsets, and a footer with the digest unless it is empty. This is
  -- so in an open queue with room for them, when no signal arrives, memory suffices and the digest
  -- works.
  pub createar_obj_regfile_unique_lem :
      (d : Dico) (q : Queue)
      → HasRoom q
          (length (chunks (length bytes + 1) size bytes))
          (length (chunks (length bytes + 1) size bytes) + 2)
      → (createar_obj_regfile_unique src interrupted fullpath
            (length bytes)
            size
            fsid
            digest
            plenty
            d
            q
          ≡ some (
            pos 0,
            with_items q
                (header_item q.curitemnum magic_objt fsid d
                  ∷ contents_items todo digest bytes
                      (chunks (length bytes + 1) size bytes)
                      fsid
                      (q.curitemnum + 1))
                (length (chunks (length bytes + 1) size bytes)),
          ))
        × (concat (chunks (length bytes + 1) size bytes) ≡ bytes)
  unfolding createar_obj_regfile_unique
  createar_obj_regfile_unique_lem d q r =
      let cs = chunks (length bytes + 1) size bytes in
      let whole = concat-chunks (length bytes + 1) size bytes large (omega arith) in
      let item = header_item q.curitemnum magic_objt fsid d in
      let q1 = with_items q (item ∷ []) 0 in
      let start : Progress = record {
        aborted = false;
        failed = false;
        digested = [];
        checks = 0;
        queue = q1;
      } in
      let more : HasRoom q (length cs) (suc (length cs + 1)) = record {
        opened = r.opened;
        space = r.space;
        counts = omega (arith, r.counts);
        numbers = r.numbers;
      } in
      let room : HasRoom q1 (length cs) (length cs + 1) =
        HasRoom-header q item (length cs) (length cs + 1) more in
      let added =
        queue_add_header-HasRoom q d magic_objt fsid (length cs) (length cs + 1) more refl in
      let n : length bytes + 1 ≡ suc (length bytes) = omega arith in
      let blocks =
        save_blocks-chunks src interrupted fullpath bytes size fsid holds calm large
          (length bytes + 1) 0 1 start refl (omega arith) room in
      let ended = after src interrupted fullpath bytes size fsid holds calm large start 0 cs in
      let footer = save_footer-items ended refl whole (
        HasRoom-items q1 (block_items todo fsid q1.curitemnum 0 cs) (length cs)
          (rw (length-block_items todo fsid q1.curitemnum 0 cs) room)) in
      (
        rw (works.0, holds.0, added, blocks, calm ended.checks)
            (footer ∙ ap (λ x. some (pos 0, x)) (parts-with_items digest bytes fsid q item cs)),
        whole,
      )
