-- ===== src/Tests/SmallFiles.antt =====
-- The theorems on small files at concrete inputs.
use fsarchiver.Base.{
  ℕ, zero, suc, ◌≡◌, refl, Option, some, none, List, [], ◌∷◌, ◌++◌, length, drop, replicate,
  length-replicate, if◌then◌else◌, ◌≤◌, arith,
}
use fsarchiver.Base.Int.{pos, minus_one}
use fsarchiver.Base.Bytes.{put_le}
use fsarchiver.Constants.{max_blksize, max_smallfilecount}
use fsarchiver.Dico.{Dico, plenty}
use fsarchiver.Dico.Lookup.{lookup}
use fsarchiver.Queue.{Queue, Item, queue_init}
use fsarchiver.ArchReader.Blocks.{Stack}
use fsarchiver.Regmulti.{
  Regmulti, regmulti_empty, regmulti_init, regmulti_save_enough_space_for_new_file,
  regmulti_save_addfile, regmulti_save_enqueue, regmulti_rest_getfile,
}
use fsarchiver.Regmulti.Packed.{File, IsPacked, regmulti_init-IsPacked, regmulti_save_addfile_lem}
use fsarchiver.Regmulti.Unpacked.{size_item}
use fsarchiver.Regmulti.Queueing.{AllFiles, queued_items, regmulti_save_enqueue_lem}
use fsarchiver.Regmulti.Loading.{load_items}
use fsarchiver.Regmulti.RoundTrip.{regmulti_rest_getfile-regmulti_save_enqueue}

-- Two files, of two bytes and of one, after a structure with arrays of the declared sizes.
abbrev first_head : Dico
first_head = size_item 2 ∷ []

abbrev second_head : Dico
second_head = size_item 1 ∷ []

abbrev files : List File
files = (first_head, 5 ∷ 6 ∷ []) ∷ (second_head, 7 ∷ []) ∷ []

abbrev raw : Regmulti
raw = record {
  count = 3;
  maxitems = 0;
  maxblksize = 0;
  objhead = replicate max_smallfilecount none;
  contents = replicate max_blksize 0;
  usedsize = 7;
}

unfoldable empty : Regmulti
empty = (regmulti_init raw 4096).1

empty-IsPacked : IsPacked empty []
unfolding empty
empty-IsPacked =
    regmulti_init-IsPacked raw 4096 (length-replicate {A = Option Dico} max_smallfilecount none)
      (length-replicate {A = ℕ} max_blksize 0)

regmulti_save_addfile_lem_example :
    (m' : Regmulti) × (regmulti_save_addfile empty first_head (5 ∷ 6 ∷ []) 2
      ≡ some (if regmulti_save_enough_space_for_new_file empty 2 then pos 0 else minus_one, m'))
    × (if regmulti_save_enough_space_for_new_file empty 2
        then IsPacked m' ([] ++ ((first_head, 5 ∷ 6 ∷ []) ∷ []))
        else m' ≡ empty)
regmulti_save_addfile_lem_example =
    regmulti_save_addfile_lem empty [] first_head (5 ∷ 6 ∷ []) empty-IsPacked (omega arith)

unfoldable spare : List ℕ
spare = replicate 921597 0

length-spare : length spare ≡ 921597
unfolding spare
length-spare = length-replicate {A = ℕ} 921597 0

abbrev two : Regmulti
two = record {
  count = 2;
  maxitems = max_smallfilecount;
  maxblksize = 4096;
  objhead = some first_head ∷ some second_head ∷ replicate 510 none;
  contents = 5 ∷ 6 ∷ 7 ∷ spare;
  usedsize = 3;
}

two-IsPacked : IsPacked two files
two-IsPacked = record {
  maxitems_is = refl;
  limit = omega arith;
  array_size = refl;
  block_size = omega (arith, length-spare);
  count_is = refl;
  heads_are = refl;
  used_is = refl;
  fits = omega arith;
  bytes_are = refl;
}

files-AllFiles : AllFiles files
unfolding lookup put_le
files-AllFiles = (
  record { size_is = refl; no_count = refl; no_offset = refl },
  (record { size_is = refl; no_count = refl; no_offset = refl }, tt),
)

abbrev stack : Stack
stack i = replicate 8 170

abbrev rest_stack : Stack
rest_stack zero = replicate 8 170
rest_stack (suc i) = replicate 4 170

regmulti_save_enqueue_lem_example :
    (q' : Queue) × (regmulti_save_enqueue stack plenty two (queue_init 8) 3 ≡ some (pos 0, q'))
    × (q'.items ≡ (queue_init 8).items ++ queued_items files (queue_init 8).curitemnum 3)
unfolding queue_init
regmulti_save_enqueue_lem_example =
    regmulti_save_enqueue_lem stack two files 3 (queue_init 8) (λ i. refl) two-IsPacked
      files-AllFiles (omega arith) refl refl (omega arith)

enough_room : two.usedsize ≤ empty.maxblksize
unfolding empty regmulti_init regmulti_empty
enough_room = omega (arith, two-IsPacked.used_is)

regmulti_rest_getfile-regmulti_save_enqueue_example :
    (q' : Queue) × (items' : List Item) × (m' : Regmulti) × (header' : Dico)
    × (regmulti_save_enqueue stack plenty two (queue_init 8) 3 ≡ some (pos 0, q'))
    × (q'.items ≡ (queue_init 8).items ++ items')
    × (load_items empty items' ≡ some (pos 0, m'))
    × (regmulti_rest_getfile rest_stack m' 1 (0 ∷ 0 ∷ []) 2
        ≡ some (pos 0, some header', (7 ∷ []) ++ drop 1 (0 ∷ 0 ∷ []), some 1))
unfolding queue_init
regmulti_rest_getfile-regmulti_save_enqueue_example =
    regmulti_rest_getfile-regmulti_save_enqueue stack rest_stack two empty
      ((first_head, 5 ∷ 6 ∷ []) ∷ []) second_head (7 ∷ []) [] 3 (queue_init 8) (0 ∷ 0 ∷ []) 2
      (λ i. refl) refl refl two-IsPacked files-AllFiles (omega arith) refl refl (omega arith)
      empty-IsPacked enough_room (omega arith)
