-- ===== src/Queue/Removal.antt =====
-- queue.c, the functions that look at the first item or remove it without dispatching on its type.
use fsarchiver.Base.{
  ℕ, Bool, true, false, not, Option, none, some, List, [], ◌∷◌, if◌then◌else◌, replicate,
}
use fsarchiver.Base.Int.{ℤ, pos, is_positive}
use fsarchiver.Base.Code
use fsarchiver.Constants.{sizeof_magic}
use fsarchiver.Dico.{Dico}
use fsarchiver.Block.{BlockInfo, HeadInfo}
use fsarchiver.Queue.{
  done, progress, status_eq, block, header, Item, Queue, remove_first, queue_get_end_of_queue,
}

unfoldable pub dequeue_block_of : Queue → List Item → Option (ℤ × Option BlockInfo × Queue)
dequeue_block_of q [] = none
dequeue_block_of q (item ∷ rest) =
    if not (status_eq item.status done) then none else elim item.payload [
      | block b ↦ some (pos item.itemnum, some b, remove_first q item.payload rest)
      | header h ↦ some (Code.wrong_type, none, q)
    ]

unfoldable pub queue_dequeue_block : Queue → Option (ℤ × Option BlockInfo × Queue)
unfolding queue_get_end_of_queue dequeue_block_of
queue_dequeue_block q =
    if queue_get_end_of_queue q
    then some (Code.end_of_file, none, q)
    else dequeue_block_of q q.items

unfoldable pub dequeue_header_of : Queue → List Item → Option (ℤ × Option HeadInfo × Queue)
dequeue_header_of q [] = none
dequeue_header_of q (item ∷ rest) =
    if not (status_eq item.status done) then none else elim item.payload [
      | header h ↦ some (pos item.itemnum, some h, remove_first q item.payload rest)
      | block b ↦ some (Code.wrong_type, none, q)
    ]

unfoldable pub queue_dequeue_header_internal : Queue → Option (ℤ × Option HeadInfo × Queue)
unfolding queue_get_end_of_queue dequeue_header_of
queue_dequeue_header_internal q =
    if queue_get_end_of_queue q
    then some (Code.end_of_file, none, q)
    else dequeue_header_of q q.items

-- The dico, the magic and the id that the caller's pointers receive.
unfoldable pub queue_dequeue_header : Queue → Option (ℤ × Option (Dico × List ℕ × ℕ) × Queue)
unfolding queue_dequeue_header_internal
queue_dequeue_header q = elim (queue_dequeue_header_internal q) [
  | none ↦ none
  | some (lres, none, q') ↦ some (lres, none, q')
  | some (lres, some h, q') ↦
      if is_positive lres
      then some (lres, some (h.dico, h.magic, h.fsid), q')
      else some (lres, none, q')
]

unfoldable pub queuelocked_is_first_item_ready : Queue → Bool
queuelocked_is_first_item_ready q = elim q.items [
  | [] ↦ false
  | item ∷ rest ↦ elim item.payload [ header h ↦ true | block b ↦ status_eq item.status done ]
]

abbrev pub no_magic : List ℕ
no_magic = replicate sizeof_magic 0

unfoldable pub check_next_of : List Item → Option (ℤ × Option Bool × List ℕ)
check_next_of [] = none
check_next_of (item ∷ rest) = if not (status_eq item.status done) then none else elim item.payload [
  | block b ↦ some (Code.success, some true, no_magic)
  | header h ↦ some (Code.success, some false, h.magic)
]

-- `*type` is whether the item is a block, or none for 0.
unfoldable pub queue_check_next_item : Queue → Option (ℤ × Option Bool × List ℕ)
unfolding queue_get_end_of_queue check_next_of
queue_check_next_item q =
    if queue_get_end_of_queue q
    then some (Code.end_of_file, none, no_magic)
    else check_next_of q.items

unfoldable pub destroy_first_of : Queue → List Item → Option (ℤ × Queue)
destroy_first_of q [] = none
destroy_first_of q (item ∷ rest) =
    if status_eq item.status progress
    then none
    else some (Code.success, remove_first q item.payload rest)

unfoldable pub queue_destroy_first_item : Queue → Option (ℤ × Queue)
unfolding queue_get_end_of_queue destroy_first_of
queue_destroy_first_item q =
    if queue_get_end_of_queue q then some (Code.end_of_file, q) else destroy_first_of q q.items
