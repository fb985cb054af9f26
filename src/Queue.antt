-- ===== src/Queue.antt =====
-- queue.c: the queue between the threads. The functions of this file run with the mutex held, so
-- each call is one atomic step of the thread that makes it. A call that waits on the condition
-- variable is `none`: the thread tries again once another thread has changed the queue. Waiting does
-- not fail, and a pointer argument is the object itself, so the guards against NULL have no
-- counterpart. `mem k` says whether the k-th allocation of the call is granted.
pub mod Counts
pub mod Removal
pub mod Schedule
pub mod Change
pub mod Takes
pub mod Step
pub mod Order
pub mod Numbers
pub mod Handover
use fsarchiver.Base.{
  ℕ, ◌+◌, ◌-◌, ◌%◌, ◌^◌, Bool, true, false, not, ◌&&◌, ◌||◌, Option, none, some, List, [], ◌∷◌,
  ◌++◌, ltb, ◌==◌, if◌then◌else◌, take,
}
use fsarchiver.Base.Int.{ℤ, pos, is_positive}
use fsarchiver.Base.Code
use fsarchiver.Constants.{sizeof_magic}
use fsarchiver.Dico.{Memory, Dico}
use fsarchiver.Block.{BlockInfo, HeadInfo}

-- QITEM_STATUS_
pub data Status : Type 0 where
  null todo progress done : Status

abbrev pub status_eq : Status → Status → Bool
status_eq null null = true
status_eq todo todo = true
status_eq progress progress = true
status_eq done done = true
status_eq _ _ = false

-- `type` and the member of the item that goes with it. Every item is made by one of the two
-- functions that add, so QITEM_TYPE_NULL does not occur.
pub data Payload : Type 0 where
  block : BlockInfo → Payload
  header : HeadInfo → Payload

pub record Item : Type 0 where
  pub status : Status
  pub itemnum : ℕ
  pub payload : Payload

pub record Queue : Type 0 where
  pub items : List Item
  pub curitemnum : ℕ
  pub itemcount : ℕ
  pub blkcount : ℕ
  pub blkmax : ℕ
  pub endofqueue : Bool

-- `x++` and `x--` on a u64.
abbrev pub inc64 : ℕ → ℕ
inc64 x = (x + 1) % 2 ^ 64

abbrev pub dec64 : ℕ → ℕ
dec64 x = (x + (2 ^ 64 - 1)) % 2 ^ 64

unfoldable pub queue_init : ℕ → Queue
queue_init blkmax = record {
  items = [];
  curitemnum = 1;
  itemcount = 0;
  blkcount = 0;
  blkmax = blkmax;
  endofqueue = false;
}

-- `blkcount` is left as it is.
unfoldable pub queue_destroy : Queue → ℤ × Queue
queue_destroy q = (Code.success, record q { items = []; itemcount = 0 })

unfoldable pub queue_set_end_of_queue : Queue → Bool → ℤ × Queue
queue_set_end_of_queue q state = (Code.success, record q { endofqueue = state })

unfoldable pub queue_get_end_of_queue : Queue → Bool
queue_get_end_of_queue q = ltb q.itemcount 1 && q.endofqueue

unfoldable pub queue_count : Queue → ℕ
queue_count q = q.itemcount

unfoldable pub count_status : List Item → Status → ℕ
count_status [] status = 0
count_status (item ∷ rest) status =
    (if status_eq status null || status_eq item.status status then 1 else 0)
    + count_status rest status

unfoldable pub queue_count_status : Queue → Status → ℕ
unfolding count_status
queue_count_status q status = count_status q.items status

abbrev pub is_block : Payload → Bool
is_block (block b) = true
is_block (header h) = false

unfoldable pub count_todo : List Item → ℕ
count_todo [] = 0
count_todo (item ∷ rest) =
    (if is_block item.payload && not (status_eq item.status done) then 1 else 0) + count_todo rest

unfoldable pub queue_count_items_todo : Queue → ℕ
unfolding count_todo
queue_count_items_todo q = count_todo q.items

-- `q->blkcount > q->blkmax`
abbrev pub is_full : Queue → Bool
is_full q = ltb q.blkmax q.blkcount

-- The end of the two functions that add: the wait, and the insertion at the end of the list.
unfoldable pub add_block_when_ready : Queue → BlockInfo → Status → Option (ℤ × Queue)
add_block_when_ready q b status =
    if is_full q
    then none
    else some (
      Code.success,
      record q {
        items =
            q.items ++ (record { status = status; itemnum = q.curitemnum; payload = block b } ∷ []);
        blkcount = inc64 q.blkcount;
        itemcount = inc64 q.itemcount;
        curitemnum = q.curitemnum + 1;
      },
    )

unfoldable pub add_header_when_ready : Queue → HeadInfo → Option (ℤ × Queue)
add_header_when_ready q h =
    if is_full q
    then none
    else some (
      Code.success,
      record q {
        items =
            q.items ++ (record { status = done; itemnum = q.curitemnum; payload = header h } ∷ []);
        itemcount = inc64 q.itemcount;
        curitemnum = q.curitemnum + 1;
      },
    )

-- `endofqueue` is looked at once, before the wait.
unfoldable pub queue_add_block : Memory → Queue → BlockInfo → Status → Option (ℤ × Queue)
unfolding add_block_when_ready
queue_add_block mem q b status =
    if not (mem 0)
    then some (Code.enomem, q)
    else if q.endofqueue
    then some (Code.end_of_file, q)
    else add_block_when_ready q b status

unfoldable pub queue_add_header_internal : Memory → Queue → HeadInfo → Option (ℤ × Queue)
unfolding add_header_when_ready
queue_add_header_internal mem q h =
    if not (mem 0)
    then some (Code.enomem, q)
    else if q.endofqueue
    then some (Code.end_of_file, q)
    else add_header_when_ready q h

unfoldable pub queue_add_header : Memory → Queue → Dico → List ℕ → ℕ → Option (ℤ × Queue)
unfolding queue_add_header_internal
queue_add_header mem q d magic fsid =
    queue_add_header_internal mem q
      (record { magic = take sizeof_magic magic; fsid = fsid; dico = d })

-- For a header, `blkinfo` is a member that nothing reads.
abbrev pub with_block : Payload → BlockInfo → Payload
with_block (block _) b = block b
with_block (header h) b = header h

unfoldable pub replace_items : List Item → ℕ → BlockInfo → Status → Bool × List Item
replace_items [] itemnum b newstatus = (false, [])
replace_items (item ∷ rest) itemnum b newstatus =
    let (found, rest') = replace_items rest itemnum b newstatus in
    if item.itemnum == itemnum
    then (true, record item { status = newstatus; payload = with_block item.payload b } ∷ rest)
    else (found, item ∷ rest')

unfoldable pub queue_replace_block : Queue → ℕ → BlockInfo → Status → ℤ × Queue
unfolding replace_items
queue_replace_block q itemnum b newstatus =
    let (found, items') = replace_items q.items itemnum b newstatus in
    if found then (Code.success, record q { items = items' }) else (Code.enoent, q)

abbrev pub skip : Item → Option (BlockInfo × ℕ × List Item) → Option (BlockInfo × ℕ × List Item)
skip item none = none
skip item (some (b, n, rest')) = some (b, n, item ∷ rest')

-- The first block that is to be done: its block, its number, and the list with it in progress.
unfoldable pub take_todo : List Item → Option (BlockInfo × ℕ × List Item)
take_todo [] = none
take_todo (item ∷ rest) =
    let later = skip item (take_todo rest) in
    elim item.payload [
      | header h ↦ later
      | block b ↦
          if status_eq item.status todo
          then some (b, item.itemnum, record item { status = progress } ∷ rest)
          else later
    ]

unfoldable pub queue_get_first_block_todo : Queue → Option (ℤ × Option BlockInfo × Queue)
unfolding queue_get_end_of_queue take_todo
queue_get_first_block_todo q =
    if queue_get_end_of_queue q
    then some (Code.end_of_file, none, q)
    else elim (take_todo q.items) [
      | none ↦ none
      | some (b, n, items') ↦ some (pos n, some b, record q { items = items' })
    ]

-- The removal of the first item, `rest` being what follows it.
abbrev pub remove_first : Queue → Payload → List Item → Queue
remove_first q (block b) rest = record q {
  items = rest;
  blkcount = dec64 q.blkcount;
  itemcount = dec64 q.itemcount;
}
remove_first q (header h) rest = record q { items = rest; itemcount = dec64 q.itemcount }

unfoldable pub dequeue_first_of : Queue → List Item → Option (ℤ × Option Payload × Queue)
dequeue_first_of q [] = none
dequeue_first_of q (item ∷ rest) =
    if status_eq item.status done
    then some (pos item.itemnum, some item.payload, remove_first q item.payload rest)
    else none

unfoldable pub queue_dequeue_first : Queue → Option (ℤ × Option Payload × Queue)
unfolding queue_get_end_of_queue dequeue_first_of
queue_dequeue_first q =
    if queue_get_end_of_queue q
    then some (Code.end_of_file, none, q)
    else dequeue_first_of q q.items
