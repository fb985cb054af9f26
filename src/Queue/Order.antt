-- ===== src/Queue/Order.antt =====
-- queue.c: the order of the items over any sequence of calls.
use fsarchiver.Base.{
  ℕ, zero, suc, ◌+◌, ◌≤◌, ◌<◌, ◌^◌, ◌≡◌, refl, ap, sym, Bool, true, false, Option, none, some, List,
  [], ◌∷◌, ◌++◌, arith, ◌==◌, if◌then◌else◌, length, length-append, Bool-cases, subst, ◌⊎◌, inl,
  inr,
}
use fsarchiver.Block.{BlockInfo}
use fsarchiver.Queue.{
  Status, null, todo, progress, done, skip, remove_first, Payload, block, header, is_block,
  with_block, Item, Queue, inc64, replace_items, take_todo, queue_init,
}
use fsarchiver.Queue.Counts.{
  IsValid, added, IsAlike, IsAlike-refl, IsNumbered, added-IsValid, remove_first-IsValid,
  alike-IsValid, count_blocks, count_blocks_le,
}
use fsarchiver.Queue.Schedule.{Call, Moved, step, run}
use fsarchiver.Queue.Step.{step-Change}
use fsarchiver.Queue.Change.{Change, completes, stays, ends, adds, hands, puts, removes}

pub skip-some :
    (item : Item) (o : Option (BlockInfo × ℕ × List Item)) (b : BlockInfo) (n : ℕ)
    (items' : List Item)
    → skip item o ≡ some (b, n, items')
    → (rest' : List Item) × (o ≡ some (b, n, rest')) × (items' ≡ item ∷ rest')
skip-some item none b n items' h = ground arith
skip-some item (some (c, m, rest')) b n items' h = (rest', ground (arith, h), ground (arith, h))

-- The block handed out is the first item, or stands behind it.
pub take_todo-cons :
    (status : Status) (itemnum : ℕ) (payload : Payload) (rest : List Item) (b : BlockInfo) (n : ℕ)
    (items' : List Item)
    → take_todo (record { status = status; itemnum = itemnum; payload = payload } ∷ rest)
      ≡ some (b, n, items')
    → ((status ≡ todo)
        × (n ≡ itemnum)
        × (items' ≡ record { status = progress; itemnum = itemnum; payload = payload } ∷ rest))
      ⊎ ((rest' : List Item) × (take_todo rest ≡ some (b, n, rest'))
          × (items' ≡ record { status = status; itemnum = itemnum; payload = payload } ∷ rest'))
unfolding take_todo
take_todo-cons status k (header c) rest b n items' h = inr (
    skip-some (record { status = status; itemnum = k; payload = header c }) (take_todo rest) b n
      items' h)
take_todo-cons todo k (block c) rest b n items' h = inl (refl, ground (arith, h), ground (arith, h))
take_todo-cons null k (block c) rest b n items' h = inr (
    skip-some (record { status = null; itemnum = k; payload = block c }) (take_todo rest) b n items'
      h)
take_todo-cons progress k (block c) rest b n items' h = inr (
    skip-some (record { status = progress; itemnum = k; payload = block c }) (take_todo rest) b n
      items' h)
take_todo-cons done k (block c) rest b n items' h = inr (
    skip-some (record { status = done; itemnum = k; payload = block c }) (take_todo rest) b n items'
      h)

pub take_todo_nil :
    (b : BlockInfo) (n : ℕ) (items' : List Item) → take_todo [] ≡ some (b, n, items') → ⊥
unfolding take_todo
take_todo_nil b n items' h = ground arith

IsAlike-cons :
    (x y : Item) (xs ys : List Item)
    → x.itemnum ≡ y.itemnum
    → is_block x.payload ≡ is_block y.payload
    → IsAlike xs ys
    → IsAlike (x ∷ xs) (y ∷ ys)
unfolding IsAlike
IsAlike-cons x y xs ys e f h = (e, f, h)

pub take_todo-IsAlike :
    (items : List Item) (b : BlockInfo) (n : ℕ) (items' : List Item)
    → take_todo items ≡ some (b, n, items')
    → IsAlike items items'
unfolding IsAlike
take_todo-IsAlike [] b n items' h = ground (arith, take_todo_nil b n items' h)
take_todo-IsAlike (item ∷ rest) b n items' h =
    elim (take_todo-cons item.status item.itemnum item.payload rest b n items' h) [
      | inl (_, _, e) ↦ subst (IsAlike (item ∷ rest)) (sym e) (refl, refl, IsAlike-refl rest)
      | inr (rest', t, e) ↦
          subst (IsAlike (item ∷ rest)) (sym e) (refl, refl, take_todo-IsAlike rest b n rest' t)
    ]

with_block-is_block : (p : Payload) (b : BlockInfo) → is_block p ≡ is_block (with_block p b)
with_block-is_block (block _) b = refl
with_block-is_block (header _) b = refl

pub replace_items-IsAlike :
    (items : List Item) (n : ℕ) (b : BlockInfo) (status : Status)
    → IsAlike items (replace_items items n b status).1
unfolding replace_items IsAlike
replace_items-IsAlike [] n b status = tt
replace_items-IsAlike (item ∷ rest) n b status = elim (Bool-cases (item.itemnum == n)) [
  | inl e ↦
      subst (IsAlike (item ∷ rest))
        {x = record item { status = status; payload = with_block item.payload b } ∷ rest}
        (ground (arith, e))
        (IsAlike-cons item (record item { status = status; payload = with_block item.payload b })
          rest rest refl (with_block-is_block item.payload b) (IsAlike-refl rest))
  | inr e ↦
      subst (IsAlike (item ∷ rest)) {x = item ∷ (replace_items rest n b status).1}
        (ground (arith, e))
        (IsAlike-cons item item rest (replace_items rest n b status).1 refl refl
          (replace_items-IsAlike rest n b status))
]

-- `n`, `n + 1`, and so on: `k` numbers.
unfoldable pub numbers_from : ℕ → ℕ → List ℕ
numbers_from n zero = []
numbers_from n (suc k) = n ∷ numbers_from (suc n) k

keeps : (first : ℕ) (q : Queue) → IsValid first q → IsValid (first + 0) q
keeps first q v = subst (λ k. IsValid k q) (omega arith) v

ends-IsValid :
    (first : ℕ) (q : Queue) (e : Bool)
    → IsValid first q
    → IsValid first (record q { endofqueue = e })
ends-IsValid first q e v = record {
  itemcount_right = v.itemcount_right;
  blkcount_right = v.blkcount_right;
  numbered = v.numbered;
  next_number = v.next_number;
  in_range = v.in_range;
  bounded = v.bounded;
}

blkcount_after :
    (first : ℕ) (q : Queue) (c : Bool)
    → IsValid first q
    → (if c then inc64 q.blkcount else q.blkcount) ≡ q.blkcount + (if c then 1 else 0)
blkcount_after first q true v =
    omega (arith, v.blkcount_right, count_blocks_le q.items, v.next_number, v.in_range)
blkcount_after first q false v = omega arith

pub Change-IsValid :
    (first : ℕ) (q : Queue) (c : Bool) (m : Moved)
    → IsValid first q
    → q.curitemnum + 1 < 2 ^ 63
    → Change q c m
    → IsValid (first + length m.removed) m.queue
Change-IsValid first q c m v small stays = keeps first q v
Change-IsValid first q c m v small (ends e) =
    keeps first (record q { endofqueue = e }) (ends-IsValid first q e v)
Change-IsValid first q c m v small (adds item num room) =
    let blkcount = if is_block item.payload then inc64 q.blkcount else q.blkcount in
    keeps first (added q item blkcount) (
      added-IsValid first q item blkcount v small num
        (blkcount_after first q (is_block item.payload) v) room)
Change-IsValid first q c m v small (hands b n items' t) =
    keeps first (record q { items = items' })
      (alike-IsValid first q items' v (take_todo-IsAlike q.items b n items' t))
Change-IsValid first q c m v small (puts n b status) =
    let items' = (replace_items q.items n b status).1 in
    keeps first (record q { items = items' })
      (alike-IsValid first q items' v (replace_items-IsAlike q.items n b status))
Change-IsValid first q c m v small (removes status itemnum payload rest e _) =
    subst (λ k. IsValid k (remove_first q payload rest)) (omega arith)
      (remove_first-IsValid first q status itemnum payload rest v e)

-- What a call removes is the first item, and it takes one number at most.
pub Change-removed :
    (first : ℕ) (q : Queue) (c : Bool) (m : Moved)
    → IsValid first q
    → Change q c m
    → (m.removed ≡ numbers_from first (length m.removed)) × (m.queue.curitemnum ≤ q.curitemnum + 1)
unfolding numbers_from IsNumbered
Change-removed first q c m v stays = (refl, omega arith)
Change-removed first q c m v (ends e) = (refl, omega arith)
Change-removed first q c m v (adds item num room) = (refl, omega arith)
Change-removed first q c m v (hands b n items' t) = (refl, omega arith)
Change-removed first q c m v (puts n b status) = (refl, omega arith)
Change-removed first q c m v (removes status itemnum (block b) rest e _) =
    let (num, _) = subst (IsNumbered first) e v.numbered in (ap (λ k. k ∷ []) num, omega arith)
Change-removed first q c m v (removes status itemnum (header h) rest e _) =
    let (num, _) = subst (IsNumbered first) e v.numbered in (ap (λ k. k ∷ []) num, omega arith)

numbers_from-append :
    (n k j : ℕ) → numbers_from n k ++ numbers_from (n + k) j ≡ numbers_from n (k + j)
unfolding numbers_from
numbers_from-append n zero j = ground arith
numbers_from-append n (suc k) j = ground (
  arith,
  numbers_from-append (suc n) k j,
  ap (numbers_from n) {x = suc k + j} {y = suc (k + j)} (omega arith),
  ap (λ m. numbers_from m j) {x = n + suc k} {y = suc n + k} (omega arith),
)

joined :
    (first : ℕ) (xs ys : List ℕ)
    → xs ≡ numbers_from first (length xs)
    → ys ≡ numbers_from (first + length xs) (length ys)
    → xs ++ ys ≡ numbers_from first (length (xs ++ ys))
joined first xs ys e f = ground (
  arith,
  e,
  f,
  numbers_from-append first (length xs) (length ys),
  ap (numbers_from first) (length-append xs ys),
)

run_from :
    (first : ℕ) (q : Queue) (calls : List Call)
    → IsValid first q
    → q.curitemnum + length calls < 2 ^ 63
    → ((run q calls).removed ≡ numbers_from first (length (run q calls).removed))
      × IsValid (first + length (run q calls).removed) (run q calls).queue
unfolding run numbers_from
run_from first q [] v small = (refl, keeps first q v)
run_from first q (call ∷ calls) v small =
    let change = step-Change q call in
    let m = step q call in
    let v' = Change-IsValid first q (completes call) m v (omega (arith, small)) change in
    let (r, b) = Change-removed first q (completes call) m v change in
    let (r', v'') =
      run_from (first + length m.removed) m.queue calls v' (omega (arith, small, b)) in
    (
      joined first m.removed (run m.queue calls).removed r r',
      subst (λ k. IsValid k (run m.queue calls).queue)
          (omega (arith, length-append m.removed (run m.queue calls).removed)) v'',
    )

pub init-IsValid : (blkmax : ℕ) → IsValid 1 (queue_init blkmax)
unfolding queue_init count_blocks IsNumbered
init-IsValid blkmax = record {
  itemcount_right = refl;
  blkcount_right = refl;
  numbered = tt;
  next_number = refl;
  in_range = omega arith;
  bounded = omega arith;
}

-- Whatever calls the threads make on a new queue, in whatever order, as long as the 63-bit counter
-- does not run out: the numbers of the items that are removed are 1, 2, 3 and so on, each once and in
-- the order in which the items were added; the items that are left carry the numbers that follow,
-- up to the next number to be given; the two counters are the numbers of items and of blocks in the
-- queue; and there is at most one block more than the queue's limit.
pub run_in_order :
    (blkmax : ℕ) (calls : List Call)
    → length calls + 1 < 2 ^ 63
    → ((run (queue_init blkmax) calls).removed
        ≡ numbers_from 1 (length (run (queue_init blkmax) calls).removed))
      × IsValid
          (1 + length (run (queue_init blkmax) calls).removed)
          (run (queue_init blkmax) calls).queue
unfolding queue_init
run_in_order blkmax calls small =
    run_from 1 (queue_init blkmax) calls (init-IsValid blkmax) (omega (arith, small))
