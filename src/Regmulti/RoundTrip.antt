-- ===== src/Regmulti/RoundTrip.antt =====
-- regmulti.c: the files that one structure queues, and another one gives back.
use fsarchiver.Base.{
  ℕ, suc, ◌+◌, ◌^◌, ◌≤◌, ◌<◌, ◌≡◌, refl, false, some, List, [], ◌∷◌, ◌++◌, arith, length,
  length-append, drop,
}
use fsarchiver.Base.Int.{pos}
use fsarchiver.Constants.{max_smallfilecount}
use fsarchiver.Dico.{Dico, plenty}
use fsarchiver.Queue.{Item, Queue, is_full}
use fsarchiver.ArchReader.Blocks.{Stack}
use fsarchiver.Regmulti.{Regmulti, regmulti_save_enqueue, regmulti_rest_getfile}
use fsarchiver.Regmulti.Packed.{File, joined, IsPacked}
use fsarchiver.Regmulti.Unpacked.{sealed, IsFile, regmulti_rest_getfile_loaded}
use fsarchiver.Regmulti.Queueing.{AllFiles, queued_items, regmulti_save_enqueue_lem}
use fsarchiver.Regmulti.Loading.{IsLoading, load_items, load_items_all}

AllFiles-here :
    (before : List File) (h : Dico) (bytes : List ℕ) (later : List File)
    → AllFiles (before ++ ((h, bytes) ∷ later))
    → IsFile h bytes
AllFiles-here [] h bytes later (f, _) = f
AllFiles-here ((_, _) ∷ before) h bytes later (_, all) = AllFiles-here before h bytes later all

empty-IsLoading : (m : Regmulti) → IsPacked m [] → IsLoading m [] m.maxblksize
empty-IsLoading m p = record {
  maxitems_is = p.maxitems_is;
  limit_is = refl;
  array_size = p.array_size;
  block_size = p.block_size;
  nothing_used = p.used_is;
  count_is = p.count_is;
  heads_are = p.heads_are;
}

-- Files that one structure has queued come back from another one: when the items that
-- `regmulti_save_enqueue` added to the queue are given to an empty structure with room for the block,
-- `regmulti_rest_getfile` puts the data of each file, by its index, in the caller's buffer, if that
-- has room for them.
pub regmulti_rest_getfile-regmulti_save_enqueue :
    (stack rest_stack : Stack) (m empty : Regmulti) (before : List File) (h : Dico) (bytes : List ℕ)
    (later : List File) (fsid : ℕ) (q : Queue) (buffer : List ℕ) (bufsize : ℕ)
    → ((i : ℕ) → length (stack i) ≡ 8)
    → length (rest_stack 0) ≡ 8
    → length (rest_stack 1) ≡ 4
    → IsPacked m (before ++ ((h, bytes) ∷ later))
    → AllFiles (before ++ ((h, bytes) ∷ later))
    → length before + suc (length later) ≤ max_smallfilecount
    → is_full q ≡ false
    → q.endofqueue ≡ false
    → q.itemcount + max_smallfilecount < 2 ^ 64
    → IsPacked empty []
    → m.usedsize ≤ empty.maxblksize
    → length bytes ≤ length buffer
    → (q' : Queue) × (items' : List Item) × (m' : Regmulti) × (header' : Dico)
      × (regmulti_save_enqueue stack plenty m q fsid ≡ some (pos 0, q'))
      × (q'.items ≡ q.items ++ items')
      × (load_items empty items' ≡ some (pos 0, m'))
      × (regmulti_rest_getfile rest_stack m' (length before) buffer bufsize
          ≡ some (pos 0, some header', bytes ++ drop (length bytes) buffer, some (length bytes)))
regmulti_rest_getfile-regmulti_save_enqueue stack rest_stack m empty before h bytes later fsid q
      buffer bufsize words l8 l4 p all few room opened counts pe fits space =
    let files = before ++ ((h, bytes) ∷ later) in
    let many = length-append before ((h, bytes) ∷ later) in
    let (q', e, items_are) =
      regmulti_save_enqueue_lem stack m files fsid q words p all (omega (arith, many)) room opened
        (omega (arith, many, few, counts)) in
    let (m', e', ld) =
      load_items_all empty [] empty.maxblksize q.curitemnum (q.curitemnum + length files) files
        (joined files) (length files) 0 fsid (empty-IsLoading empty pe) (omega (arith, many, few))
        (omega (arith, p.used_is, fits)) pe.limit in
    (
      q',
      queued_items files q.curitemnum fsid,
      m',
      sealed h (length files) (length (joined before)),
      e,
      items_are,
      e',
      regmulti_rest_getfile_loaded rest_stack m' before h bytes later (length files) buffer bufsize
          l8 l4 ld (AllFiles-here before h bytes later all)
          (omega (arith, p.used_is, p.fits, p.limit)) space,
    )
