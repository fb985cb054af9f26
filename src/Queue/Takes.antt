-- ===== src/Queue/Takes.antt =====
-- queue.c: the calls that remove the first item.
use fsarchiver.Base.{
  ℕ, ◌≡◌, refl, ap, Bool, true, false, Option, some, List, [], ◌∷◌, arith, if◌then◌else◌,
  Bool-cases, inl, inr,
}
use fsarchiver.Base.Int.{ℤ}
use fsarchiver.Base.Code
use fsarchiver.Queue.{
  Status, null, todo, progress, done, status_eq, Payload, block, header, Item, Queue, remove_first,
  dequeue_first_of,
}
use fsarchiver.Queue.Removal.{dequeue_block_of, dequeue_header_of, destroy_first_of}
use fsarchiver.Queue.Schedule.{stay, after_removal, after_destroy}
use fsarchiver.Queue.Change.{Change, by_equation, stays, removes}

pub removal-Change {ℓ} :
    {A : Type ℓ} (q : Queue) (c : Bool) (a : A) (r : Option (ℤ × A × Queue))
    → Change q true (after_removal q r)
    → Change q true (after_removal q (if c then some (Code.end_of_file, a, q) else r))
unfolding after_removal
removal-Change q true a r h = stays
removal-Change q false a r h = h

done_not_progress : (s : Status) → status_eq s done ≡ true → status_eq s progress ≡ false
done_not_progress null h = ground arith
done_not_progress todo h = ground arith
done_not_progress progress h = ground arith
done_not_progress done h = ground arith

pub dequeue_first_of-Change :
    (q : Queue) (items : List Item)
    → q.items ≡ items
    → Change q true (after_removal q (dequeue_first_of q items))
unfolding dequeue_first_of after_removal
dequeue_first_of-Change q [] e = stays
dequeue_first_of-Change q (item ∷ rest) e = elim (Bool-cases (status_eq item.status done)) [
  | inl d ↦
      by_equation (after_removal q (dequeue_first_of q (item ∷ rest)))
        (record {
          queue = remove_first q item.payload rest;
          removed = item.itemnum ∷ [];
          handed = [];
        })
        (ground (arith, d))
        (removes item.status item.itemnum item.payload rest e (done_not_progress item.status d))
  | inr d ↦
      by_equation (after_removal q (dequeue_first_of q (item ∷ rest))) (stay q) (ground (arith, d))
        stays
]

dequeue_block_of-Change :
    (q : Queue) (status : Status) (itemnum : ℕ) (payload : Payload) (rest : List Item)
    → q.items ≡ record { status = status; itemnum = itemnum; payload = payload } ∷ rest
    → Change q true (
        after_removal q (
          dequeue_block_of q
            (record { status = status; itemnum = itemnum; payload = payload } ∷ rest)))
unfolding dequeue_block_of after_removal
dequeue_block_of-Change q null itemnum payload rest e = stays
dequeue_block_of-Change q todo itemnum payload rest e = stays
dequeue_block_of-Change q progress itemnum payload rest e = stays
dequeue_block_of-Change q done itemnum (block b) rest e = removes done itemnum (block b) rest e refl
dequeue_block_of-Change q done itemnum (header b) rest e = stays

pub dequeue_block_of-Change_all :
    (q : Queue) (items : List Item)
    → q.items ≡ items
    → Change q true (after_removal q (dequeue_block_of q items))
unfolding dequeue_block_of after_removal
dequeue_block_of-Change_all q [] e = stays
dequeue_block_of-Change_all q (item ∷ rest) e =
    dequeue_block_of-Change q item.status item.itemnum item.payload rest e

dequeue_header_of-Change :
    (q : Queue) (status : Status) (itemnum : ℕ) (payload : Payload) (rest : List Item)
    → q.items ≡ record { status = status; itemnum = itemnum; payload = payload } ∷ rest
    → Change q true (
        after_removal q (
          dequeue_header_of q
            (record { status = status; itemnum = itemnum; payload = payload } ∷ rest)))
unfolding dequeue_header_of after_removal
dequeue_header_of-Change q null itemnum payload rest e = stays
dequeue_header_of-Change q todo itemnum payload rest e = stays
dequeue_header_of-Change q progress itemnum payload rest e = stays
dequeue_header_of-Change q done itemnum (header b) rest e =
    removes done itemnum (header b) rest e refl
dequeue_header_of-Change q done itemnum (block b) rest e = stays

pub dequeue_header_of-Change_all :
    (q : Queue) (items : List Item)
    → q.items ≡ items
    → Change q true (after_removal q (dequeue_header_of q items))
unfolding dequeue_header_of after_removal
dequeue_header_of-Change_all q [] e = stays
dequeue_header_of-Change_all q (item ∷ rest) e =
    dequeue_header_of-Change q item.status item.itemnum item.payload rest e

abbrev numbers_of : List Item → List ℕ
numbers_of [] = []
numbers_of (item ∷ _) = item.itemnum ∷ []

destroy_first_of-Change :
    (q : Queue) (items : List Item)
    → q.items ≡ items
    → Change q true (after_destroy q (destroy_first_of q items))
unfolding destroy_first_of after_destroy
destroy_first_of-Change q [] e = stays
destroy_first_of-Change q (item ∷ rest) e = elim (Bool-cases (status_eq item.status progress)) [
  | inl d ↦
      by_equation (after_destroy q (destroy_first_of q (item ∷ rest))) (stay q) (ground (arith, d))
        stays
  | inr d ↦
      by_equation (after_destroy q (destroy_first_of q (item ∷ rest)))
        (record {
          queue = remove_first q item.payload rest;
          removed = item.itemnum ∷ [];
          handed = [];
        })
        (ground (arith, d, ap numbers_of e))
        (removes item.status item.itemnum item.payload rest e d)
]

pub destroy-Change :
    (q : Queue) (c : Bool)
    → Change q true
        (after_destroy q (if c then some (Code.end_of_file, q) else destroy_first_of q q.items))
unfolding after_destroy
destroy-Change q true = stays
destroy-Change q false = destroy_first_of-Change q q.items refl
