-- ===== src/Queue/Change.antt =====
-- queue.c: what one call can do to the queue.
use fsarchiver.Base.{ℕ, ◌≡◌, sym, Bool, true, false, some, List, [], ◌∷◌, if◌then◌else◌, subst}
use fsarchiver.Block.{BlockInfo}
use fsarchiver.Queue.{
  Status, progress, done, status_eq, Payload, is_block, is_full, Item, Queue, inc64, remove_first,
  replace_items, take_todo,
}
use fsarchiver.Queue.Counts.{added}
use fsarchiver.Queue.Schedule.{Call, replaces, Moved, stay}

-- A call that gives a processed block back marks it done.
unfoldable pub completes : Call → Bool
completes (replaces n b status) = status_eq status done
completes _ = true

-- What a call that completes, or does not, does to the queue.
pub data Change (q : Queue) : Bool → Moved → Type 0 where
  stays : {c : Bool} → Change q c (stay q)
  ends : {c : Bool} (e : Bool) → Change q c (stay (record q { endofqueue = e }))
  adds :
      {c : Bool} (item : Item)
      → item.itemnum ≡ q.curitemnum
      → is_full q ≡ false
      → Change q c
          (stay (added q item (if is_block item.payload then inc64 q.blkcount else q.blkcount)))
  hands :
      {c : Bool} (b : BlockInfo) (n : ℕ) (items' : List Item)
      → take_todo q.items ≡ some (b, n, items')
      → Change q c (record { queue = record q { items = items' }; removed = []; handed = n ∷ [] })
  puts :
      (n : ℕ) (b : BlockInfo) (status : Status)
      → Change q
          (status_eq status done)
          (stay (record q { items = (replace_items q.items n b status).1 }))
  removes :
      {c : Bool} (status : Status) (itemnum : ℕ) (payload : Payload) (rest : List Item)
      → q.items ≡ record { status = status; itemnum = itemnum; payload = payload } ∷ rest
      → status_eq status progress ≡ false
      → Change q c
          (record { queue = remove_first q payload rest; removed = itemnum ∷ []; handed = [] })

pub by_equation : {q : Queue} {c : Bool} (m m' : Moved) → m ≡ m' → Change q c m' → Change q c m
by_equation {q} {c} m m' e h = subst (Change q c) (sym e) h
