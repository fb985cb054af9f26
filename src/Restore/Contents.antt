-- ===== src/Restore/Contents.antt =====
-- oper_restore.c: the loop over the blocks of a file ends, and the file gets its bytes again.
use fsarchiver.Base.{
  ℕ, zero, suc, ◌+◌, ◌^◌, ◌<◌, ◌≡◌, ◌≢◌, refl, sym, ap, ◌∙◌, subst, true, false, Option, some, none,
  List, [], ◌∷◌, ◌++◌, arith, ltb, ◌==◌, length, length-append, take_all, append-nil, append_assoc,
  Bool-cases, inl, inr,
}
use fsarchiver.Base.Int.{ℤ, pos}
use fsarchiver.Base.Loop.{finished, stuck}
use fsarchiver.Block.{BlockInfo}
use fsarchiver.Queue.{
  done, Payload, block, header, Item, Queue, remove_first, queue_get_end_of_queue,
}
use fsarchiver.Queue.Removal.{queue_dequeue_block, dequeue_block_of}
use fsarchiver.DataFile.{datafile_write}
use fsarchiver.DataFile.Contents.{IsReliable, IsWritten, datafile_write-IsWritten}
use fsarchiver.Save.Chunks.{concat, block_at, block_items}
use fsarchiver.Restore.RegFile.{Host, Local, write_block, restore_blocks}

block_of-shorter :
    (q : Queue) (items : List Item) (lres : ℤ) (b : BlockInfo) (q' : Queue)
    → dequeue_block_of q items ≡ some (lres, some b, q')
    → suc (length q'.items) ≡ length items
unfolding dequeue_block_of
block_of-shorter q [] lres b q' h = absurd (ground (arith, h))
block_of-shorter q (item ∷ rest) lres b q' h = ground (arith, h)

-- A block that is removed makes the queue shorter.
pub dequeue_block-shorter :
    (q : Queue) (lres : ℤ) (b : BlockInfo) (q' : Queue)
    → queue_dequeue_block q ≡ some (lres, some b, q')
    → suc (length q'.items) ≡ length q.items
unfolding queue_dequeue_block
dequeue_block-shorter q lres b q' h = elim (Bool-cases (queue_get_end_of_queue q)) [
  | inl e ↦ absurd (ground (arith, e, h))
  | inr e ↦ block_of-shorter q q.items lres b q' (ground (arith, e, h))
]

module _ {S : Type 0} (host : Host S) where
  write_block-queue :
      (s : Local S) (filepos : ℕ) (b : BlockInfo) (q' : Queue)
      → (write_block host s filepos b q').1.queue ≡ q'
  unfolding write_block
  write_block-queue s filepos b q' = ground arith

  round_ends :
      (fuel filesize filepos : ℕ) (s : Local S)
      → ((k : ℕ) (s' : Local S)
          → length s'.queue.items < fuel
          → restore_blocks host fuel filesize k s' ≢ stuck)
      → length s.queue.items < suc fuel
      → (r : Option (ℤ × Option BlockInfo × Queue)) → queue_dequeue_block s.queue ≡ r
      → restore_blocks host (suc fuel) filesize filepos s ≢ stuck
  unfolding restore_blocks
  round_ends fuel filesize filepos s ih h none e = ground (arith, e)
  round_ends fuel filesize filepos s ih h (some (lres, none, q')) e = ground (arith, e)
  round_ends fuel filesize filepos s ih h (some (lres, some b, q')) e =
      let s' = (write_block host s filepos b q').1 in
      let n = dequeue_block-shorter s.queue lres b q' e in
      let same = ap (λ q. length q.items) (write_block-queue s filepos b q') in
      ground (arith, e, ih (filepos + b.blkrealsize) s' (omega (arith, n, same, h)))

  -- Whatever is in the queue, the loop over the blocks of a file ends or waits: it removes an item in
  -- every round, so that as many rounds as there are items, and one, are enough.
  pub restore_blocks-ends :
      (fuel filesize filepos : ℕ) (s : Local S)
      → length s.queue.items < fuel
      → restore_blocks host fuel filesize filepos s ≢ stuck
  restore_blocks-ends zero filesize filepos s h = absurd (omega (arith, h))
  restore_blocks-ends (suc fuel) filesize filepos s h =
      round_ends fuel filesize filepos s (restore_blocks-ends fuel filesize) h
        (queue_dequeue_block s.queue) refl

abbrev pub NoneEmpty : List (List ℕ) → Type 0
NoneEmpty [] = Unit {0}
NoneEmpty (c ∷ cs) = (0 < length c) × NoneEmpty cs

-- The queue counts its items.
abbrev pub IsCounted : Queue → Type 0
IsCounted q = (q.itemcount ≡ length q.items) × (length q.items < 2 ^ 64)

pub removed-IsCounted :
    (q : Queue) (p : Payload) (item : Item) (rest : List Item)
    → q.items ≡ item ∷ rest
    → IsCounted q
    → IsCounted (remove_first q p rest)
removed-IsCounted q (block b) item rest e (c, h) =
    let n = ap length e in (omega (arith, c, h, n), omega (arith, h, n))
removed-IsCounted q (header hd) item rest e (c, h) =
    let n = ap length e in (omega (arith, c, h, n), omega (arith, h, n))

pub queue_dequeue_block-first :
    (q : Queue) (n : ℕ) (b : BlockInfo) (rest : List Item)
    → q.items ≡ record { status = done; itemnum = n; payload = block b } ∷ rest
    → IsCounted q
    → queue_dequeue_block q ≡ some (pos n, some b, remove_first q (block b) rest)
unfolding queue_dequeue_block dequeue_block_of queue_get_end_of_queue
queue_dequeue_block-first q n b rest e (c, h) = let k = ap length e in ground (arith, e, c, k)

module _ {S : Type 0} (host : Host S) (view : S → List ℕ → Option (List ℕ))
    (ok : IsReliable host.os view) (calm : (k : ℕ) → host.interrupted k ≡ false) where
  -- The loop has come to the item `tail`, and the file at `path` stands for `bytes`.
  pub record IsRestored (s : Local S) (path bytes : List ℕ) (tail : List Item) : Type 0 where
    pub no_error : s.minorerr ≡ false
    pub no_fatal : s.fatalerr ≡ false
    pub kept : s.delfile ≡ false
    pub written : IsWritten host.os host.digest view ok s.st s.file path bytes
    pub left : s.queue.items ≡ tail
    pub counted : IsCounted s.queue

  -- One block.
  restore_blocks-step :
      (fuel filesize : ℕ) (s : Local S) (path bytes c : List ℕ) (fsid n : ℕ) (tail : List Item)
      → IsRestored s path bytes (
          record { status = done; itemnum = n; payload = block (block_at fsid (length bytes) c) }
          ∷ tail)
      → length bytes < filesize
      → (s' : Local S) × IsRestored s' path (bytes ++ c) tail
        × (restore_blocks host (suc fuel) filesize (length bytes) s
            ≡ restore_blocks host fuel filesize (length bytes + length c) s')
  unfolding restore_blocks write_block
  restore_blocks-step fuel filesize s path bytes c fsid n tail r l =
      let b = block_at fsid (length bytes) c in
      let first = queue_dequeue_block-first s.queue n b tail r.left r.counted in
      let w =
        datafile_write-IsWritten host.os host.digest view ok s.st s.file path bytes c r.written in
      let q' = remove_first s.queue (block b) tail in
      let s0 : Local S = record s {
        file = (datafile_write host.os host.digest s.st s.file c).1;
        st = (datafile_write host.os host.digest s.st s.file c).2;
        queue = q';
        checks = s.checks + 1;
      } in
      let less : ltb (length bytes) filesize ≡ true = ground (arith, l) in
      let same : (length bytes == length bytes) ≡ true = ground arith in
      let s' : Local S = record s0 { minorerr = false } in
      let wrote : write_block host s (length bytes) b q' ≡ (true, s0) =
        rw (same, take_all (length c) c refl, w.0) refl in
      let short : ltb (length c) (length c) ≡ false = ground arith in
      (
        s',
        record {
          no_error = refl;
          no_fatal = r.no_fatal;
          kept = r.kept;
          written = w.1;
          left = refl;
          counted = removed-IsCounted s.queue (block b) _ tail r.left r.counted;
        },
        rw
            (
              r.no_error,
              less,
              calm s.checks,
              first,
              same,
              short,
              take_all (length c) c refl,
              same,
              w.0,
            )
            (ap (λ x. restore_blocks host fuel filesize (length bytes + length c) x.1)
              (wrote ∙ ap (λ m. (true, record s0 { minorerr = m })) r.no_error)),
      )

  restore_blocks-end :
      (fuel filesize filepos : ℕ) (s : Local S)
      → ltb filepos filesize ≡ false
      → restore_blocks host (suc fuel) filesize filepos s ≡ finished s
  unfolding restore_blocks
  restore_blocks-end fuel filesize filepos s l = ground (arith, l)

  pub restore_blocks-contents :
      (cs : List (List ℕ)) (fuel filesize : ℕ) (s : Local S) (path bytes : List ℕ) (fsid n : ℕ)
      (tail : List Item)
      → IsRestored s path bytes (block_items done fsid n (length bytes) cs ++ tail)
      → NoneEmpty cs
      → length cs < fuel
      → length bytes + length (concat cs) ≡ filesize
      → (s' : Local S) × IsRestored s' path (bytes ++ concat cs) tail
        × (restore_blocks host fuel filesize (length bytes) s ≡ finished s')
  restore_blocks-contents cs zero filesize s path bytes fsid n tail r e h l =
      absurd (omega (arith, h))
  restore_blocks-contents [] (suc fuel) filesize s path bytes fsid n tail r e h l = (
    s,
    subst (λ x. IsRestored s path x tail) (sym (append-nil bytes)) r,
    restore_blocks-end fuel filesize (length bytes) s (ground (arith, l)),
  )
  restore_blocks-contents (c ∷ cs) (suc fuel) filesize s path bytes fsid n tail r (e, es) h l =
      let len = length-append bytes c in
      let parts = length-append c (concat cs) in
      let (s1, r1, step) =
        restore_blocks-step fuel filesize s path bytes c fsid n
          (block_items done fsid (n + 1) (length bytes + length c) cs ++ tail) r
          (omega (arith, l, parts, e)) in
      let (s2, r2, rest) =
        restore_blocks-contents cs fuel filesize s1 path (bytes ++ c) fsid (n + 1) tail
          (subst (λ k. IsRestored s1 path (bytes ++ c) (block_items done fsid (n + 1) k cs ++ tail))
            (sym len) r1)
          es (omega (arith, h)) (omega (arith, l, len, parts)) in
      (
        s2,
        subst (λ x. IsRestored s2 path x tail) (append_assoc bytes c (concat cs)) r2,
        step ∙ subst (λ k. restore_blocks host fuel filesize k s1 ≡ finished s2) len rest,
      )
