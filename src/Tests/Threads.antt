-- ===== src/Tests/Threads.antt =====
-- The theorems on the queue at concrete inputs.
use fsarchiver.Base.{◌+◌, ◌≡◌, refl, true, List, [], ◌∷◌, length, arith}
use fsarchiver.Dico.{plenty}
use fsarchiver.Block.{zero_block}
use fsarchiver.Queue.{
  todo, done, queue_init, queue_add_block, queue_add_header_internal, queue_get_first_block_todo,
  queue_dequeue_first, queue_replace_block,
}
use fsarchiver.Queue.Removal.{queue_dequeue_header_internal, queue_destroy_first_item}
use fsarchiver.Queue.Counts.{IsValid}
use fsarchiver.Queue.Schedule.{
  Call, adds_block, adds_header, takes_todo, replaces, dequeues, dequeues_header, destroys_first,
  sets_end, run,
}
use fsarchiver.Queue.Change.{completes}
use fsarchiver.Queue.Order.{numbers_from, run_in_order}
use fsarchiver.Queue.Numbers.{NoRepeat}
use fsarchiver.Queue.Handover.{AllComplete, handed_once}

abbrev calls : List Call
calls =
    adds_block plenty zero_block todo
    ∷ adds_header plenty (record { magic = []; fsid = 0; dico = [] })
    ∷ takes_todo
    ∷ adds_block plenty zero_block todo
    ∷ takes_todo
    ∷ replaces 2 zero_block done
    ∷ replaces 1 zero_block done
    ∷ dequeues
    ∷ dequeues_header
    ∷ destroys_first
    ∷ sets_end true
    ∷ []

-- The sequence removes two items and hands out two blocks.
calls_removed : (run (queue_init 8) calls).removed ≡ 1 ∷ 2 ∷ []
unfolding run queue_add_block queue_init queue_add_header_internal queue_get_first_block_todo
    queue_dequeue_first queue_replace_block queue_dequeue_header_internal queue_destroy_first_item
calls_removed = refl

calls_handed : (run (queue_init 8) calls).handed ≡ 1 ∷ 3 ∷ []
unfolding run queue_add_block queue_init queue_add_header_internal queue_get_first_block_todo
    queue_dequeue_first queue_replace_block queue_dequeue_header_internal queue_destroy_first_item
calls_handed = refl

run_in_order_example :
    ((run (queue_init 8) calls).removed
      ≡ numbers_from 1 (length (run (queue_init 8) calls).removed))
    × IsValid (1 + length (run (queue_init 8) calls).removed) (run (queue_init 8) calls).queue
run_in_order_example = run_in_order 8 calls (omega arith)

handed_once_example : NoRepeat (run (queue_init 8) calls).handed
unfolding AllComplete completes
handed_once_example =
    handed_once 8 calls
      (refl, (refl, (refl, (refl, (refl, (refl, (refl, (refl, (refl, (refl, (refl, tt)))))))))))
      (omega arith)
