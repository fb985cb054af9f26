-- ===== src/Queue/Step.antt =====
-- queue.c: each call does one of the changes.
use fsarchiver.Base.{
  ℕ, refl, Bool, true, false, not, Option, none, some, [], ◌∷◌, arith, if◌then◌else◌, Bool-cases,
  Option-cases, inl, inr,
}
use fsarchiver.Base.Int.{ℤ}
use fsarchiver.Base.Code
use fsarchiver.Block.{BlockInfo, HeadInfo}
use fsarchiver.Queue.{
  Status, done, status_eq, block, header, is_full, Item, Queue, inc64, replace_items, take_todo,
  add_block_when_ready, add_header_when_ready, queue_add_block, queue_add_header_internal,
  queue_set_end_of_queue, queue_replace_block, queue_get_first_block_todo, queue_dequeue_first,
  dequeue_first_of, queue_get_end_of_queue,
}
use fsarchiver.Queue.Removal.{
  queue_dequeue_block, dequeue_block_of, dequeue_header_of, queue_dequeue_header_internal,
  queue_destroy_first_item,
}
use fsarchiver.Queue.Counts.{added}
use fsarchiver.Queue.Schedule.{
  Call, adds_block, resumes_block, adds_header, resumes_header, takes_todo, replaces, dequeues,
  dequeues_block, dequeues_header, destroys_first, sets_end, stay, after_add, after_take, step,
}
use fsarchiver.Queue.Change.{Change, completes, by_equation, stays, ends, adds, hands, puts}
use fsarchiver.Queue.Takes.{
  removal-Change, dequeue_first_of-Change, dequeue_block_of-Change_all,
  dequeue_header_of-Change_all, destroy-Change,
}

add_block_when_ready-Change :
    (q : Queue) (b : BlockInfo) (status : Status)
    → Change q true (after_add q (add_block_when_ready q b status))
unfolding add_block_when_ready after_add
add_block_when_ready-Change q b status =
    let item : Item = record { status = status; itemnum = q.curitemnum; payload = block b } in
    elim (Bool-cases (is_full q)) [
      | inl h ↦
          by_equation (after_add q (add_block_when_ready q b status)) (stay q) (ground (arith, h))
            stays
      | inr h ↦
          by_equation (after_add q (add_block_when_ready q b status))
            (stay (added q item (inc64 q.blkcount))) (ground (arith, h)) (adds item refl h)
    ]

add_header_when_ready-Change :
    (q : Queue) (h : HeadInfo) → Change q true (after_add q (add_header_when_ready q h))
unfolding add_header_when_ready after_add
add_header_when_ready-Change q h =
    let item : Item = record { status = done; itemnum = q.curitemnum; payload = header h } in
    elim (Bool-cases (is_full q)) [
      | inl f ↦
          by_equation (after_add q (add_header_when_ready q h)) (stay q) (ground (arith, f)) stays
      | inr f ↦
          by_equation (after_add q (add_header_when_ready q h)) (stay (added q item q.blkcount))
            (ground (arith, f)) (adds item refl f)
    ]

-- What the two functions that add do before their wait.
guards-Change :
    (q : Queue) (c d : Bool) (r : Option (ℤ × Queue)) (x y : ℤ)
    → Change q true (after_add q r)
    → Change q true (after_add q (if c then some (x, q) else if d then some (y, q) else r))
unfolding after_add
guards-Change q true d r x y h = stays
guards-Change q false true r x y h = stays
guards-Change q false false r x y h = h

take-Change : (q : Queue) → Change q true (after_take q (queue_get_first_block_todo q))
unfolding queue_get_first_block_todo after_take
take-Change q = elim (Bool-cases (queue_get_end_of_queue q)) [
  | inl e ↦
      by_equation (after_take q (queue_get_first_block_todo q)) (stay q) (ground (arith, e)) stays
  | inr e ↦ elim (Option-cases (take_todo q.items)) [
    | inl n ↦
        by_equation (after_take q (queue_get_first_block_todo q)) (stay q) (ground (arith, e, n))
          stays
    | inr ((b, n, items'), t) ↦
        by_equation (after_take q (queue_get_first_block_todo q))
          (record { queue = record q { items = items' }; removed = []; handed = n ∷ [] })
          (ground (arith, e, t)) (hands b n items' t)
  ]
]

replace-Change :
    (q : Queue) (n : ℕ) (b : BlockInfo) (status : Status)
    → Change q (status_eq status done) (stay ((queue_replace_block q n b status).1))
unfolding queue_replace_block
replace-Change q n b status =
    let r = replace_items q.items n b status in
    elim (Bool-cases r.0) [
      | inl f ↦
          by_equation (stay ((queue_replace_block q n b status).1))
            (stay (record q { items = r.1 })) (ground (arith, f)) (puts n b status)
      | inr f ↦
          by_equation (stay ((queue_replace_block q n b status).1)) (stay q) (ground (arith, f))
            stays
    ]

pub step-Change : (q : Queue) (call : Call) → Change q (completes call) (step q call)
unfolding completes step queue_add_block queue_add_header_internal queue_dequeue_first
    queue_dequeue_block queue_dequeue_header_internal queue_destroy_first_item
    queue_set_end_of_queue queue_replace_block
step-Change q (adds_block mem b status) =
    guards-Change q (not (mem 0)) q.endofqueue (add_block_when_ready q b status) Code.enomem
      Code.end_of_file (add_block_when_ready-Change q b status)
step-Change q (resumes_block b status) = add_block_when_ready-Change q b status
step-Change q (adds_header mem h) =
    guards-Change q (not (mem 0)) q.endofqueue (add_header_when_ready q h) Code.enomem
      Code.end_of_file (add_header_when_ready-Change q h)
step-Change q (resumes_header h) = add_header_when_ready-Change q h
step-Change q takes_todo = take-Change q
step-Change q (replaces n b status) = replace-Change q n b status
step-Change q dequeues =
    removal-Change q (queue_get_end_of_queue q) none (dequeue_first_of q q.items)
      (dequeue_first_of-Change q q.items refl)
step-Change q dequeues_block =
    removal-Change q (queue_get_end_of_queue q) none (dequeue_block_of q q.items)
      (dequeue_block_of-Change_all q q.items refl)
step-Change q dequeues_header =
    removal-Change q (queue_get_end_of_queue q) none (dequeue_header_of q q.items)
      (dequeue_header_of-Change_all q q.items refl)
step-Change q destroys_first = destroy-Change q (queue_get_end_of_queue q)
step-Change q (sets_end e) = ends e
