-- ===== src/Queue/Schedule.antt =====
-- queue.c: the calls of several threads in any order. A call that has to wait leaves the queue as it
-- is, and stands in the sequence again where the thread goes on.
use fsarchiver.Base.{ℕ, Bool, Option, none, some, List, [], ◌∷◌, ◌++◌}
use fsarchiver.Base.Int.{ℤ, pos, negsuc}
use fsarchiver.Dico.{Memory}
use fsarchiver.Block.{BlockInfo, HeadInfo}
use fsarchiver.Queue.{
  Status, Queue, add_block_when_ready, add_header_when_ready, queue_add_block,
  queue_add_header_internal, queue_set_end_of_queue, queue_replace_block,
  queue_get_first_block_todo, queue_dequeue_first,
}
use fsarchiver.Queue.Removal.{
  queue_dequeue_block, queue_dequeue_header_internal, queue_destroy_first_item,
}

-- The two that resume are the part of a call that adds behind its wait.
pub data Call : Type 0 where
  adds_block : Memory → BlockInfo → Status → Call
  resumes_block : BlockInfo → Status → Call
  adds_header : Memory → HeadInfo → Call
  resumes_header : HeadInfo → Call
  takes_todo : Call
  replaces : ℕ → BlockInfo → Status → Call
  dequeues dequeues_block dequeues_header destroys_first : Call
  sets_end : Bool → Call

-- The queue after a call, with the numbers of the item removed and of the block handed out to be
-- processed, as the call returned them.
pub record Moved : Type 0 where
  pub queue : Queue
  pub removed : List ℕ
  pub handed : List ℕ

abbrev pub stay : Queue → Moved
stay q = record { queue = q; removed = []; handed = [] }

-- A number that a call returned, where it is one.
abbrev pub number : ℤ → List ℕ
number (pos n) = n ∷ []
number (negsuc _) = []

unfoldable pub after_add : Queue → Option (ℤ × Queue) → Moved
after_add q none = stay q
after_add q (some (res, q')) = stay q'

unfoldable pub after_take : Queue → Option (ℤ × Option BlockInfo × Queue) → Moved
after_take q none = stay q
after_take q (some (res, _, q')) = record { queue = q'; removed = []; handed = number res }

unfoldable pub after_removal {ℓ} : {A : Type ℓ} → Queue → Option (ℤ × A × Queue) → Moved
after_removal q none = stay q
after_removal q (some (res, _, q')) = record { queue = q'; removed = number res; handed = [] }

-- `queue_destroy_first_item` returns no number: it is the first item's.
abbrev pub first_number : Queue → List ℕ
first_number q = elim q.items [ [] ↦ [] | item ∷ _ ↦ item.itemnum ∷ [] ]

unfoldable pub after_destroy : Queue → Option (ℤ × Queue) → Moved
after_destroy q none = stay q
after_destroy q (some (pos _, q')) = record { queue = q'; removed = first_number q; handed = [] }
after_destroy q (some (negsuc _, q')) = stay q'

unfoldable pub step : Queue → Call → Moved
unfolding after_add after_take after_removal after_destroy
step q (adds_block mem b status) = after_add q (queue_add_block mem q b status)
step q (resumes_block b status) = after_add q (add_block_when_ready q b status)
step q (adds_header mem h) = after_add q (queue_add_header_internal mem q h)
step q (resumes_header h) = after_add q (add_header_when_ready q h)
step q takes_todo = after_take q (queue_get_first_block_todo q)
step q (replaces n b status) = let (_, q') = queue_replace_block q n b status in stay q'
step q dequeues = after_removal q (queue_dequeue_first q)
step q dequeues_block = after_removal q (queue_dequeue_block q)
step q dequeues_header = after_removal q (queue_dequeue_header_internal q)
step q destroys_first = after_destroy q (queue_destroy_first_item q)
step q (sets_end e) = let (_, q') = queue_set_end_of_queue q e in stay q'

-- What a sequence of calls removes and hands out, in order.
unfoldable pub run : Queue → List Call → Moved
unfolding step
run q [] = stay q
run q (call ∷ calls) =
    let now = step q call in
    let later = run now.queue calls in
    record {
      queue = later.queue;
      removed = now.removed ++ later.removed;
      handed = now.handed ++ later.handed;
    }
