-- ===== src/Queue/Handover.antt =====
-- queue.c: the blocks that `queue_get_first_block_todo` hands to the threads that process them.
use fsarchiver.Base.{
  ℕ, suc, ◌+◌, ◌≤◌, ◌<◌, ◌^◌, ◌≡◌, refl, ap, sym, ◌∙◌, Bool, true, false, not, ◌||◌, some, List, [],
  ◌∷◌, ◌++◌, arith, ◌==◌, if◌then◌else◌, length, Bool-cases, subst, inl, inr,
}
use fsarchiver.Block.{BlockInfo}
use fsarchiver.Queue.{
  Status, null, todo, progress, done, status_eq, Payload, block, header, with_block, Item, Queue,
  replace_items, take_todo, queue_init, is_block, inc64, remove_first,
}
use fsarchiver.Queue.Counts.{IsValid, added, IsNumbered}
use fsarchiver.Queue.Schedule.{Call, Moved, step, run}
use fsarchiver.Queue.Step.{step-Change}
use fsarchiver.Queue.Change.{Change, completes, stays, ends, adds, hands, puts, removes}
use fsarchiver.Queue.Order.{
  take_todo_nil, take_todo-cons, Change-IsValid, Change-removed, init-IsValid,
}
use fsarchiver.Queue.Numbers.{
  AllBelow, AllBelow-more, AllBelow-not_in, NoRepeat, NoRepeat-append, NoneIn, NoneIn-append,
  NoneIn-split, is_in,
}

-- Not a block to be done whose number has been handed out.
abbrev free : List ℕ → Status → ℕ → Bool
free handed status itemnum = not (status_eq status todo) || not (is_in itemnum handed)

unfoldable AllFree : List ℕ → List Item → Type 0
AllFree handed [] = Unit
AllFree handed (item ∷ rest) = (free handed item.status item.itemnum ≡ true) × AllFree handed rest

AllFree-later :
    (n k : ℕ) (handed : List ℕ) (items : List Item)
    → n < k
    → IsNumbered k items
    → AllFree handed items
    → AllFree (n ∷ handed) items
unfolding IsNumbered AllFree is_in
AllFree-later n k handed [] lt num f = tt
AllFree-later n k handed (item ∷ rest) lt (num, nums) (f, fs) =
    (ground (arith, f, num, lt), AllFree-later n (suc k) handed rest (omega (arith, lt)) nums fs)

AllFree-append :
    (handed : List ℕ) (items : List Item) (item : Item)
    → AllFree handed items
    → is_in item.itemnum handed ≡ false
    → AllFree handed (items ++ (item ∷ []))
unfolding AllFree
AllFree-append handed [] item f h = (ground (arith, h), tt)
AllFree-append handed (x ∷ xs) item (f, fs) h = (f, AllFree-append handed xs item fs h)

AllFree-cons :
    (handed : List ℕ) (item : Item) (rest : List Item)
    → free handed item.status item.itemnum ≡ true
    → AllFree handed rest
    → AllFree handed (item ∷ rest)
unfolding AllFree
AllFree-cons handed item rest f fs = (f, fs)

AllFree-replace_items :
    (handed : List ℕ) (items : List Item) (n : ℕ) (b : BlockInfo)
    → AllFree handed items
    → AllFree handed (replace_items items n b done).1
unfolding replace_items AllFree
AllFree-replace_items handed [] n b f = tt
AllFree-replace_items handed (item ∷ rest) n b (f, fs) = elim (Bool-cases (item.itemnum == n)) [
  | inl e ↦
      subst (AllFree handed)
        {x = record item { status = done; payload = with_block item.payload b } ∷ rest}
        (ground (arith, e))
        (AllFree-cons handed (record item { status = done; payload = with_block item.payload b })
          rest refl fs)
  | inr e ↦
      subst (AllFree handed) {x = item ∷ (replace_items rest n b done).1} (ground (arith, e)) (
        AllFree-cons handed item (replace_items rest n b done).1 f
          (AllFree-replace_items handed rest n b fs))
]

first_is_new :
    (handed : List ℕ) (status : Status) (itemnum n : ℕ)
    → free handed status itemnum ≡ true
    → status ≡ todo
    → n ≡ itemnum
    → is_in n handed ≡ false
first_is_new handed status itemnum n f s e = ground (arith, f, s, e)

other_is_free :
    (handed : List ℕ) (status : Status) (itemnum n : ℕ)
    → free handed status itemnum ≡ true
    → itemnum < n
    → free (n ∷ handed) status itemnum ≡ true
unfolding is_in
other_is_free handed status itemnum n f lt = ground (arith, f, lt)

-- The number handed out is new, one of those in the list, and no block to be done keeps it.
AllFree-take_todo :
    (k : ℕ) (handed : List ℕ) (items : List Item) (b : BlockInfo) (n : ℕ) (items' : List Item)
    → IsNumbered k items
    → AllFree handed items
    → take_todo items ≡ some (b, n, items')
    → (k ≤ n) × (n < k + length items) × (is_in n handed ≡ false) × AllFree (n ∷ handed) items'
unfolding IsNumbered AllFree
AllFree-take_todo k handed [] b n items' num f h = elim (take_todo_nil b n items' h) [ ]
AllFree-take_todo k handed (item ∷ rest) b n items' (num, nums) (f, fs) h =
    elim (take_todo-cons item.status item.itemnum item.payload rest b n items' h) [
      | inl (s, e, i) ↦ (
        omega (arith, num, e),
        omega (arith, num, e),
        first_is_new handed item.status item.itemnum n f s e,
        subst (AllFree (n ∷ handed)) (sym i) (
            AllFree-cons (n ∷ handed) (record item { status = progress }) rest refl
              (AllFree-later n (suc k) handed rest (omega (arith, num, e)) nums fs)),
      )
      | inr (rest', t, i) ↦
          let (le, lt, new, f') = AllFree-take_todo (suc k) handed rest b n rest' nums fs t in
          (
            omega (arith, le),
            omega (arith, lt),
            new,
            subst (AllFree (n ∷ handed)) (sym i) (
                AllFree-cons (n ∷ handed) item rest'
                  (other_is_free handed item.status item.itemnum n f (omega (arith, num, le))) f'),
          )
    ]

-- What has been handed out carries a number given before, and no block to be done has it.
record IsHanded (handed : List ℕ) (q : Queue) : Type 0 where
  given : AllBelow q.curitemnum handed
  all_free : AllFree handed q.items

unfoldable pub AllComplete : List Call → Type 0
AllComplete [] = Unit
AllComplete (call ∷ calls) = (completes call ≡ true) × AllComplete calls

IsHanded-added :
    (handed : List ℕ) (q : Queue) (item : Item) (blkcount : ℕ)
    → IsHanded handed q
    → item.itemnum ≡ q.curitemnum
    → IsHanded handed (added q item blkcount)
IsHanded-added handed q item blkcount h num = record {
  given = AllBelow-more q.curitemnum (q.curitemnum + 1) handed (omega arith) h.given;
  all_free =
      AllFree-append handed q.items item h.all_free
        (ap (λ n. is_in n handed) num ∙ AllBelow-not_in q.curitemnum handed h.given);
}

done_only : (status : Status) → status_eq status done ≡ true → status ≡ done
done_only null h = ground arith
done_only todo h = ground arith
done_only progress h = ground arith
done_only done h = refl

AllFree-tail :
    (handed : List ℕ) (item : Item) (rest : List Item)
    → AllFree handed (item ∷ rest)
    → AllFree handed rest
unfolding AllFree
AllFree-tail handed item rest (f, fs) = fs

IsHanded-remove_first :
    (handed : List ℕ) (q : Queue) (status : Status) (itemnum : ℕ) (payload : Payload)
    (rest : List Item)
    → IsHanded handed q
    → q.items ≡ record { status = status; itemnum = itemnum; payload = payload } ∷ rest
    → IsHanded handed (remove_first q payload rest)
IsHanded-remove_first handed q status itemnum (block b) rest h e = record {
  given = h.given;
  all_free =
      AllFree-tail handed (record { status = status; itemnum = itemnum; payload = block b }) rest
        (subst (AllFree handed) e h.all_free);
}
IsHanded-remove_first handed q status itemnum (header b) rest h e = record {
  given = h.given;
  all_free =
      AllFree-tail handed (record { status = status; itemnum = itemnum; payload = header b }) rest
        (subst (AllFree handed) e h.all_free);
}

Change-IsHanded :
    (first : ℕ) (handed : List ℕ) (q : Queue) (c : Bool) (m : Moved)
    → IsValid first q
    → IsHanded handed q
    → c ≡ true
    → Change q c m
    → NoneIn handed m.handed × NoRepeat m.handed × IsHanded (m.handed ++ handed) m.queue
unfolding NoneIn NoRepeat AllBelow is_in
Change-IsHanded first handed q c m v h t stays = (tt, tt, h)
Change-IsHanded first handed q c m v h t (ends e) =
    (tt, tt, record { given = h.given; all_free = h.all_free })
Change-IsHanded first handed q c m v h t (adds item num room) = (
  tt,
  tt,
  IsHanded-added handed q item (if is_block item.payload then inc64 q.blkcount else q.blkcount) h
      num,
)
Change-IsHanded first handed q c m v h t (hands b n items' e) =
    let (le, lt, new, f) =
      AllFree-take_todo first handed q.items b n items' v.numbered h.all_free e in
    (
      (new, tt),
      (refl, tt),
      record { given = (omega (arith, lt, v.next_number), h.given); all_free = f },
    )
Change-IsHanded first handed q c m v h t (puts n b status) = (
  tt,
  tt,
  record {
    given = h.given;
    all_free =
        subst (λ s. AllFree handed (replace_items q.items n b s).1) (sym (done_only status t))
          (AllFree-replace_items handed q.items n b h.all_free);
  },
)
Change-IsHanded first handed q c m v h t (removes status itemnum payload rest e _) =
    (tt, tt, IsHanded-remove_first handed q status itemnum payload rest h e)

run_from-NoRepeat :
    (first : ℕ) (handed : List ℕ) (q : Queue) (calls : List Call)
    → IsValid first q
    → IsHanded handed q
    → AllComplete calls
    → q.curitemnum + length calls < 2 ^ 63
    → NoneIn handed (run q calls).handed × NoRepeat (run q calls).handed
unfolding run NoneIn NoRepeat AllComplete
run_from-NoRepeat first handed q [] v h a small = (tt, tt)
run_from-NoRepeat first handed q (call ∷ calls) v h (a, later_complete) small =
    let change = step-Change q call in
    let m = step q call in
    let v' = Change-IsValid first q (completes call) m v (omega (arith, small)) change in
    let (_, le) = Change-removed first q (completes call) m v change in
    let (none_now, once, h') = Change-IsHanded first handed q (completes call) m v h a change in
    let (none_later, later) =
      run_from-NoRepeat (first + length m.removed) (m.handed ++ handed) m.queue calls v' h'
        later_complete (omega (arith, small, le)) in
    let (apart, none_again) = NoneIn-split m.handed handed (run m.queue calls).handed none_later in
    (
      NoneIn-append handed m.handed (run m.queue calls).handed none_now none_again,
      NoRepeat-append m.handed (run m.queue calls).handed once later apart,
    )

init-IsHanded : (blkmax : ℕ) → IsHanded [] (queue_init blkmax)
unfolding queue_init AllBelow AllFree
init-IsHanded blkmax = record { given = tt; all_free = tt }

-- Whatever calls the threads make on a new queue, in whatever order, as long as the 63-bit counter
-- does not run out and each block that is given back is given back as done: no block is handed out
-- twice to be processed.
pub handed_once :
    (blkmax : ℕ) (calls : List Call)
    → AllComplete calls
    → length calls + 1 < 2 ^ 63
    → NoRepeat (run (queue_init blkmax) calls).handed
unfolding queue_init
handed_once blkmax calls c small =
    let (_, r) =
      run_from-NoRepeat 1 [] (queue_init blkmax) calls (init-IsValid blkmax) (init-IsHanded blkmax)
        c (omega (arith, small)) in
    r
