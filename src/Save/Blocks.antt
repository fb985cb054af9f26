-- ===== src/Save/Blocks.antt =====
-- oper_save.c: what createar_obj_regfile_unique puts in the queue.
use fsarchiver.Base.{
  ℕ, zero, suc, ◌+◌, ◌-◌, ◌≤◌, ◌<◌, ◌≡◌, refl, sym, ap, ◌∙◌, Bool, true, false, some, List, [], ◌∷◌,
  ◌++◌, arith, ltb, ◌==◌, length, length-take, length-drop, take, drop, min, drop-drop, append-nil,
  append_assoc, Bool-cases, inl, inr,
}
use fsarchiver.Dico.{plenty}
use fsarchiver.Queue.{todo, block, Item, Queue}
use fsarchiver.Source.{Source}
use fsarchiver.Save.RegFile.{read_block, Progress, save_blocks}
use fsarchiver.Save.Chunks.{
  chunks, concat, block_at, block_items, with_items, with_items_nil, with_items-append,
}
use fsarchiver.Save.Room.{HasRoom, queue_add_block-HasRoom, HasRoom-block}

unfoldable make : Bool → Bool → List ℕ → ℕ → Queue → Progress
make a f d c q = record { aborted = a; failed = f; digested = d; checks = c; queue = q }

make_cong :
    (f : Bool) (a a' : Bool) (d d' : List ℕ) (c c' : ℕ) (q q' : Queue)
    → a ≡ a'
    → d ≡ d'
    → c ≡ c'
    → q ≡ q'
    → make a f d c q ≡ make a' f d' c' q'
make_cong f a a' d d' c c' q q' ea ed ec eq =
    ap (λ x. make x f d c q) ea
    ∙ ap (λ x. make a' f x c q) ed
    ∙ ap (λ x. make a' f d' x q) ec
    ∙ ap (λ x. make a' f d' c' x) eq

-- The file at `path` holds `bytes`, and it can be read.
abbrev pub Holds : Source → List ℕ → List ℕ → Type 0
Holds src path bytes =
    (src.opens path ≡ true) × ((k n : ℕ) → src.read path k n ≡ some (take n (drop k bytes)))

numbered :
    (q : Queue) (item : Item) (filepos : ℕ) (cs : List (List ℕ)) (fsid : ℕ)
    → with_items
        (with_items q (item ∷ []) 1)
        (block_items todo fsid (with_items q (item ∷ []) 1).curitemnum filepos cs)
        (length cs)
      ≡ with_items q (item ∷ block_items todo fsid (q.curitemnum + 1) filepos cs) (1 + length cs)
unfolding with_items
numbered q item filepos cs fsid =
    with_items-append q (item ∷ []) (block_items todo fsid (q.curitemnum + 1) filepos cs) 1
      (length cs)

module _ (src : Source) (interrupted : ℕ → Bool) (fullpath bytes : List ℕ) (size fsid : ℕ)
    (holds : Holds src fullpath bytes) (calm : (k : ℕ) → interrupted k ≡ false)
    (large : 0 < size) where
  read_block-Holds :
      (filepos k : ℕ)
      → k ≤ length bytes - filepos
      → read_block src false fullpath filepos k ≡ some (take k (drop filepos bytes), false, false)
  unfolding read_block
  read_block-Holds filepos k h =
      let len : length (take k (drop filepos bytes)) ≡ k =
        omega (arith, h, length-take k (drop filepos bytes), length-drop filepos bytes) in
      rw (holds.1 filepos k) (ground (arith, len))

  -- The state after the blocks `cs`.
  abbrev pub after : Progress → ℕ → List (List ℕ) → Progress
  after p filepos cs = record {
    aborted = false;
    failed = p.failed;
    digested = p.digested ++ concat cs;
    checks = p.checks + length cs;
    queue = with_items p.queue (block_items todo fsid p.queue.curitemnum filepos cs) (length cs);
  }

  after-nil : (p : Progress) (filepos : ℕ) → p.aborted ≡ false → p ≡ after p filepos []
  unfolding make
  after-nil p filepos e =
      make_cong p.failed p.aborted false p.digested (p.digested ++ []) p.checks (p.checks + 0)
        p.queue (with_items p.queue [] 0) e (sym (append-nil p.digested)) (omega arith)
        (sym (with_items_nil p.queue))

  -- The state after one block.
  abbrev one_more : Progress → ℕ → List ℕ → Progress
  one_more p filepos c = record {
    aborted = false;
    failed = p.failed;
    digested = p.digested ++ c;
    checks = p.checks + 1;
    queue =
        with_items p.queue
          (record {
            status = todo;
            itemnum = p.queue.curitemnum;
            payload = block (block_at fsid filepos c);
          }
            ∷ [])
          1;
  }

  after-cons :
      (p : Progress) (filepos : ℕ) (c : List ℕ) (cs : List (List ℕ))
      → after (one_more p filepos c) (filepos + length c) cs ≡ after p filepos (c ∷ cs)
  unfolding make
  after-cons p filepos c cs =
      let item : Item = record {
        status = todo;
        itemnum = p.queue.curitemnum;
        payload = block (block_at fsid filepos c);
      } in
      let later = block_items todo fsid (p.queue.curitemnum + 1) (filepos + length c) cs in
      let counts : 1 + length cs ≡ suc (length cs) = omega arith in
      make_cong p.failed false false ((p.digested ++ c) ++ concat cs)
        (p.digested ++ (c ++ concat cs)) (p.checks + 1 + length cs) (p.checks + suc (length cs))
        (with_items (with_items p.queue (item ∷ []) 1)
          (block_items todo fsid (with_items p.queue (item ∷ []) 1).curitemnum (filepos + length c)
            cs)
          (length cs))
        (with_items p.queue (item ∷ later) (suc (length cs))) refl
        (append_assoc p.digested c (concat cs)) (omega arith)
        (numbered p.queue item (filepos + length c) cs fsid
          ∙ ap (with_items p.queue (item ∷ later)) counts)

  save_blocks-step :
      (fuel filepos blocks count : ℕ) (p : Progress)
      → ltb filepos (length bytes) ≡ true
      → HasRoom p.queue (suc blocks) (suc count)
      → save_blocks src interrupted fullpath
          (length bytes)
          size
          fsid
          (suc fuel)
          plenty
          filepos
          false
          p
        ≡ save_blocks src interrupted fullpath
            (length bytes)
            size
            fsid
            fuel
            plenty
            (filepos + min (length bytes - filepos) size)
            false
            (one_more p filepos (take (min (length bytes - filepos) size) (drop filepos bytes)))
  unfolding save_blocks
  save_blocks-step fuel filepos blocks count p l r =
      let k = min (length bytes - filepos) size in
      let c = take k (drop filepos bytes) in
      rw
        (
          l,
          calm p.checks,
          read_block-Holds filepos k (omega arith),
          queue_add_block-HasRoom p.queue (block_at fsid filepos c) todo blocks count r,
        )
        refl

  save_blocks-end :
      (fuel filepos : ℕ) (p : Progress)
      → ltb filepos (length bytes) ≡ false
      → save_blocks src interrupted fullpath
          (length bytes)
          size
          fsid
          (suc fuel)
          plenty
          filepos
          false
          p
        ≡ some p
  unfolding save_blocks
  save_blocks-end fuel filepos p l = rw l refl

  pub save_blocks-chunks :
      (fuel filepos count : ℕ) (p : Progress)
      → p.aborted ≡ false
      → length bytes - filepos < fuel
      → HasRoom p.queue
          (length (chunks fuel size (drop filepos bytes)))
          (length (chunks fuel size (drop filepos bytes)) + count)
      → save_blocks src interrupted fullpath (length bytes) size fsid fuel plenty filepos false p
        ≡ some (after p filepos (chunks fuel size (drop filepos bytes)))
  unfolding chunks
  save_blocks-chunks zero filepos count p e h r = absurd (omega (arith, h))
  save_blocks-chunks (suc fuel) filepos count p e h r =
      elim (Bool-cases (ltb filepos (length bytes))) [
        | inr l ↦
            let empty : (length (drop filepos bytes) == 0) ≡ true =
              ground (arith, l, length-drop filepos bytes) in
            rw empty (save_blocks-end fuel filepos p l ∙ ap some (after-nil p filepos e))
        | inl l ↦
            let len = length-drop filepos bytes in
            let more : (length (drop filepos bytes) == 0) ≡ false = ground (arith, l, len) in
            let k = min (length bytes - filepos) size in
            let c = take k (drop filepos bytes) in
            let cs = chunks fuel size (drop (filepos + k) bytes) in
            let same : length c ≡ k = omega (arith, len, length-take k (drop filepos bytes)) in
            let counted : length (chunks (suc fuel) size (drop filepos bytes)) ≡ suc (length cs) =
              rw (more, len, drop-drop filepos k bytes) refl in
            let room : HasRoom p.queue (suc (length cs)) (suc (length cs + count)) = record {
              opened = r.opened;
              space = omega (arith, r.space, counted);
              counts = omega (arith, r.counts, counted);
              numbers = omega (arith, r.numbers, counted);
            } in
            rw (more, len, drop-drop filepos k bytes)
              (save_blocks-step fuel filepos (length cs) (length cs + count) p l room
                ∙ save_blocks-chunks fuel (filepos + k) count (one_more p filepos c) refl
                    (ground (arith, h, l, large))
                    (HasRoom-block p.queue _ (length cs) (length cs + count) room)
                ∙ ap some (
                    ap (λ n. after (one_more p filepos c) (filepos + n) cs) (sym same)
                    ∙ after-cons p filepos c cs))
      ]
