-- ===== src/Queue/Counts.antt =====
-- queue.c: the counters and the numbers of the items, and that every call keeps them right.
use fsarchiver.Base.{
  ℕ, suc, ◌+◌, ◌^◌, ◌≤◌, ◌<◌, ◌≡◌, refl, ap, ◌∙◌, sym, false, List, [], ◌∷◌, ◌++◌, arith, ltb,
  if◌then◌else◌, length, length-append, subst,
}
use fsarchiver.Queue.{Status, Payload, block, header, is_block, Item, Queue, inc64, remove_first}

unfoldable pub count_blocks : List Item → ℕ
count_blocks [] = 0
count_blocks (item ∷ rest) = (if is_block item.payload then 1 else 0) + count_blocks rest

-- The items carry the numbers from `n` on, one after the other.
unfoldable pub IsNumbered : ℕ → List Item → Type 0
IsNumbered n [] = Unit
IsNumbered n (item ∷ rest) = (item.itemnum ≡ n) × IsNumbered (suc n) rest

-- A queue whose first item carries the number `first`.
pub record IsValid (first : ℕ) (q : Queue) : Type 0 where
  pub itemcount_right : q.itemcount ≡ length q.items
  pub blkcount_right : q.blkcount ≡ count_blocks q.items
  pub numbered : IsNumbered first q.items
  pub next_number : q.curitemnum ≡ first + length q.items
  pub in_range : q.curitemnum < 2 ^ 63
  pub bounded : q.blkcount ≤ q.blkmax + 1

pub count_blocks_le : (items : List Item) → count_blocks items ≤ length items
unfolding count_blocks
count_blocks_le [] = omega arith
count_blocks_le (item ∷ rest) = ground (arith, count_blocks_le rest)

pub count_blocks-append :
    (xs ys : List Item) → count_blocks (xs ++ ys) ≡ count_blocks xs + count_blocks ys
unfolding count_blocks
count_blocks-append [] ys = omega arith
count_blocks-append (item ∷ rest) ys = ground (arith, count_blocks-append rest ys)

pub IsNumbered-append :
    (n : ℕ) (xs : List Item) (item : Item)
    → IsNumbered n xs
    → item.itemnum ≡ n + length xs
    → IsNumbered n (xs ++ (item ∷ []))
unfolding IsNumbered
IsNumbered-append n [] item h e = (omega (arith, e), tt)
IsNumbered-append n (x ∷ xs) item (h, hs) e =
    (h, IsNumbered-append (suc n) xs item hs (omega (arith, e)))

-- The queue after an insertion.
abbrev pub added : Queue → Item → ℕ → Queue
added q item blkcount = record q {
  items = q.items ++ (item ∷ []);
  blkcount = blkcount;
  itemcount = inc64 q.itemcount;
  curitemnum = q.curitemnum + 1;
}

pub added-IsValid :
    (first : ℕ) (q : Queue) (item : Item) (blkcount : ℕ)
    → IsValid first q
    → q.curitemnum + 1 < 2 ^ 63
    → item.itemnum ≡ q.curitemnum
    → blkcount ≡ q.blkcount + (if is_block item.payload then 1 else 0)
    → ltb q.blkmax q.blkcount ≡ false
    → IsValid first (added q item blkcount)
unfolding count_blocks
added-IsValid first q item blkcount v small num blk room = record {
  itemcount_right =
      omega (arith, v.itemcount_right, v.next_number, length-append q.items (item ∷ []));
  blkcount_right = ground (arith, v.blkcount_right, count_blocks-append q.items (item ∷ []));
  numbered = IsNumbered-append first q.items item v.numbered (num ∙ v.next_number);
  next_number = omega (arith, v.next_number, length-append q.items (item ∷ []));
  in_range = small;
  bounded = ground (arith, v.bounded);
}

pub remove_first-IsValid :
    (first : ℕ) (q : Queue) (status : Status) (itemnum : ℕ) (payload : Payload) (rest : List Item)
    → IsValid first q
    → q.items ≡ record { status = status; itemnum = itemnum; payload = payload } ∷ rest
    → IsValid (suc first) (remove_first q payload rest)
unfolding count_blocks IsNumbered
remove_first-IsValid first q status itemnum (block b) rest v e =
    let (_, later) = subst (IsNumbered first) e v.numbered in
    record {
      itemcount_right = omega (arith, v.itemcount_right, ap length e, v.next_number, v.in_range);
      blkcount_right = omega (
        arith,
        v.blkcount_right,
        ap count_blocks e,
        count_blocks_le rest,
        ap length e,
        v.next_number,
        v.in_range,
      );
      numbered = later;
      next_number = omega (arith, v.next_number, ap length e);
      in_range = v.in_range;
      bounded = omega (
        arith,
        v.bounded,
        v.blkcount_right,
        ap count_blocks e,
        count_blocks_le rest,
        ap length e,
        v.next_number,
        v.in_range,
      );
    }
remove_first-IsValid first q status itemnum (header h) rest v e =
    let (_, later) = subst (IsNumbered first) e v.numbered in
    record {
      itemcount_right = omega (arith, v.itemcount_right, ap length e, v.next_number, v.in_range);
      blkcount_right = omega (arith, v.blkcount_right, ap count_blocks e);
      numbered = later;
      next_number = omega (arith, v.next_number, ap length e);
      in_range = v.in_range;
      bounded = v.bounded;
    }

-- Two lists that differ in the statuses and in the contents of blocks alone.
unfoldable pub IsAlike : List Item → List Item → Type 0
IsAlike [] [] = Unit
IsAlike [] (_ ∷ _) = ⊥
IsAlike (_ ∷ _) [] = ⊥
IsAlike (x ∷ xs) (y ∷ ys) =
    (x.itemnum ≡ y.itemnum) × (is_block x.payload ≡ is_block y.payload) × IsAlike xs ys

pub IsAlike-refl : (xs : List Item) → IsAlike xs xs
unfolding IsAlike
IsAlike-refl [] = tt
IsAlike-refl (x ∷ xs) = (refl, refl, IsAlike-refl xs)

pub IsAlike-length : (xs ys : List Item) → IsAlike xs ys → length xs ≡ length ys
unfolding IsAlike
IsAlike-length [] [] h = refl
IsAlike-length [] (_ ∷ _) h = elim h [ ]
IsAlike-length (_ ∷ _) [] h = elim h [ ]
IsAlike-length (x ∷ xs) (y ∷ ys) (_, _, h) = ap suc (IsAlike-length xs ys h)

pub IsAlike-count_blocks : (xs ys : List Item) → IsAlike xs ys → count_blocks xs ≡ count_blocks ys
unfolding IsAlike count_blocks
IsAlike-count_blocks [] [] h = refl
IsAlike-count_blocks [] (_ ∷ _) h = elim h [ ]
IsAlike-count_blocks (_ ∷ _) [] h = elim h [ ]
IsAlike-count_blocks (x ∷ xs) (y ∷ ys) (_, k, h) = ground (arith, k, IsAlike-count_blocks xs ys h)

pub IsAlike-IsNumbered :
    (n : ℕ) (xs ys : List Item) → IsAlike xs ys → IsNumbered n xs → IsNumbered n ys
unfolding IsAlike IsNumbered
IsAlike-IsNumbered n [] [] h k = tt
IsAlike-IsNumbered n [] (_ ∷ _) h k = elim h [ ]
IsAlike-IsNumbered n (_ ∷ _) [] h k = elim h [ ]
IsAlike-IsNumbered n (x ∷ xs) (y ∷ ys) (e, _, h) (k, ks) =
    (sym e ∙ k, IsAlike-IsNumbered (suc n) xs ys h ks)

pub alike-IsValid :
    (first : ℕ) (q : Queue) (items' : List Item)
    → IsValid first q
    → IsAlike q.items items'
    → IsValid first (record q { items = items' })
alike-IsValid first q items' v a = record {
  itemcount_right = v.itemcount_right ∙ IsAlike-length q.items items' a;
  blkcount_right = v.blkcount_right ∙ IsAlike-count_blocks q.items items' a;
  numbered = IsAlike-IsNumbered first q.items items' a v.numbered;
  next_number = omega (arith, v.next_number, IsAlike-length q.items items' a);
  in_range = v.in_range;
  bounded = v.bounded;
}
