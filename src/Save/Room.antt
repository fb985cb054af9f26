-- ===== src/Save/Room.antt =====
-- oper_save.c: adding to a queue that has room.
use fsarchiver.Base.{ℕ, suc, ◌+◌, ◌^◌, ◌≤◌, ◌<◌, ◌≡◌, false, some, List, [], ◌∷◌, arith, take}
use fsarchiver.Base.Int.{pos}
use fsarchiver.Dico.{Dico, plenty}
use fsarchiver.Block.{BlockInfo}
use fsarchiver.Queue.{
  Status, done, block, header, Item, Queue, queue_add_header, queue_add_header_internal,
  add_header_when_ready, queue_add_block, add_block_when_ready,
}
use fsarchiver.Save.Chunks.{with_items}

-- The queue is open, and it can take `blocks` blocks and `count` items more.
pub record HasRoom (q : Queue) (blocks count : ℕ) : Type 0 where
  pub opened : q.endofqueue ≡ false
  pub space : q.blkcount + blocks ≤ q.blkmax
  pub counts : q.itemcount + count < 2 ^ 64
  pub numbers : q.blkcount + blocks < 2 ^ 64

pub queue_add_block-HasRoom :
    (q : Queue) (b : BlockInfo) (status : Status) (blocks count : ℕ)
    → HasRoom q (suc blocks) (suc count)
    → queue_add_block plenty q b status
      ≡ some (
        pos 0,
        with_items q (record { status = status; itemnum = q.curitemnum; payload = block b } ∷ []) 1,
      )
unfolding queue_add_block add_block_when_ready with_items
queue_add_block-HasRoom q b status blocks count h =
    ground (arith, h.opened, h.space, h.counts, h.numbers)

pub HasRoom-block :
    (q : Queue) (item : Item) (blocks count : ℕ)
    → HasRoom q (suc blocks) (suc count)
    → HasRoom (with_items q (item ∷ []) 1) blocks count
unfolding with_items
HasRoom-block q item blocks count h = record {
  opened = h.opened;
  space = omega (arith, h.space);
  counts = omega (arith, h.counts);
  numbers = omega (arith, h.numbers);
}

pub HasRoom-header :
    (q : Queue) (item : Item) (blocks count : ℕ)
    → HasRoom q blocks (suc count)
    → HasRoom (with_items q (item ∷ []) 0) blocks count
unfolding with_items
HasRoom-header q item blocks count h = record {
  opened = h.opened;
  space = omega (arith, h.space);
  counts = omega (arith, h.counts);
  numbers = omega (arith, h.numbers);
}

pub queue_add_header-HasRoom :
    (q : Queue) (d : Dico) (magic : List ℕ) (fsid blocks count : ℕ)
    → HasRoom q blocks (suc count)
    → take 4 magic ≡ magic
    → queue_add_header plenty q d magic fsid
      ≡ some (
        pos 0,
        with_items q
            (record {
              status = done;
              itemnum = q.curitemnum;
              payload = header (record { magic = magic; fsid = fsid; dico = d });
            }
              ∷ [])
            0,
      )
unfolding queue_add_header queue_add_header_internal add_header_when_ready with_items
queue_add_header-HasRoom q d magic fsid blocks count h e =
    ground (arith, h.opened, h.space, h.counts, h.numbers, e)
