-- ===== src/Regmulti/Loading.antt =====
-- regmulti.c: a structure that is filled with what another one queued.
use fsarchiver.Base.{
  ℕ, ◌+◌, ◌≤◌, ◌<◌, ◌≡◌, refl, ap, sym, ◌∙◌, Option, none, some, List, [], ◌∷◌, ◌++◌, arith,
  if◌then◌else◌, length, length-append, set, take, take_all, memcpy, append-nil, append_assoc,
  subst,
}
use fsarchiver.Base.Arrays.{length-set, take-suc-set, take-memcpy, length-memcpy}
use fsarchiver.Base.Int.{ℤ, pos, is_error}
use fsarchiver.Constants.{max_blksize, max_smallfilecount}
use fsarchiver.Dico.{Dico}
use fsarchiver.Queue.{todo, block, header, Item}
use fsarchiver.Regmulti.{Regmulti, regmulti_rest_addheader, regmulti_rest_setdatablock}
use fsarchiver.Regmulti.Packed.{File}
use fsarchiver.Regmulti.Unpacked.{sealed, sealed_heads, IsLoaded}
use fsarchiver.Regmulti.Queueing.{header_items, joined_block}

-- The items of a queue given to a structure, one after the other, as the extraction does.
unfoldable pub load_items : Regmulti → List Item → Option (ℤ × Regmulti)
load_items m [] = some (pos 0, m)
load_items m (item ∷ rest) = elim item.payload [
  | header h ↦
      let (res, m') = regmulti_rest_addheader m h.dico in
      let later = load_items m' rest in if is_error res then some (res, m') else later
  | block b ↦ elim (regmulti_rest_setdatablock m b.blkdata b.blkrealsize) [
    | none ↦ none
    | some (res, m') ↦
        let later = load_items m' rest in if is_error res then some (res, m') else later
  ]
]

-- `m` with the headers of `files` added, as `sealed_heads` has them.
pub record IsLoading (m : Regmulti) (heads : List (Option Dico)) (maxblksize : ℕ) : Type 0 where
  pub maxitems_is : m.maxitems ≡ max_smallfilecount
  pub limit_is : m.maxblksize ≡ maxblksize
  pub array_size : length m.objhead ≡ max_smallfilecount
  pub block_size : length m.contents ≡ max_blksize
  pub nothing_used : m.usedsize ≡ 0
  pub count_is : m.count ≡ length heads
  pub heads_are : take m.count m.objhead ≡ heads

load_header :
    (m : Regmulti) (heads : List (Option Dico)) (maxblksize : ℕ) (d : Dico)
    → IsLoading m heads maxblksize
    → length heads < max_smallfilecount
    → (m' : Regmulti) × (regmulti_rest_addheader m d ≡ (pos 0, m'))
      × IsLoading m' (heads ++ (some d ∷ [])) maxblksize
unfolding regmulti_rest_addheader
load_header m heads maxblksize d l room = (
  record m { objhead = set m.objhead m.count (some d); count = m.count + 1 },
  ground (arith, l.maxitems_is, l.count_is, room),
  record {
    maxitems_is = l.maxitems_is;
    limit_is = l.limit_is;
    array_size = length-set m.objhead m.count (some d) ∙ l.array_size;
    block_size = l.block_size;
    nothing_used = l.nothing_used;
    count_is = omega (arith, l.count_is, length-append heads (some d ∷ []));
    heads_are =
        take-suc-set m.count m.objhead (some d) (omega (arith, l.count_is, l.array_size, room))
        ∙ ap (λ xs. xs ++ (some d ∷ [])) l.heads_are;
  },
)

load_block :
    (m : Regmulti) (heads : List (Option Dico)) (maxblksize : ℕ) (bytes : List ℕ)
    → IsLoading m heads maxblksize
    → length bytes ≤ maxblksize
    → maxblksize ≤ max_blksize
    → (m' : Regmulti) × (regmulti_rest_setdatablock m bytes (length bytes) ≡ some (pos 0, m'))
      × IsLoaded m' heads bytes
unfolding regmulti_rest_setdatablock
load_block m heads maxblksize bytes l fits limit = (
  record m { contents = memcpy m.contents 0 bytes; usedsize = length bytes },
  ground (
    arith,
    l.nothing_used,
    l.limit_is,
    l.block_size,
    fits,
    limit,
    take_all (length bytes) bytes refl,
  ),
  record {
    count_is = l.count_is;
    heads_are = l.heads_are;
    used_is = refl;
    bytes_are =
        take-memcpy m.contents 0 (length bytes) bytes (omega arith)
          (omega (arith, l.block_size, fits, limit));
    fits = omega (
      arith,
      length-memcpy m.contents 0 bytes (omega (arith, l.block_size, fits, limit)),
      l.block_size,
      fits,
      limit,
    );
  },
)

pub load_items_all :
    (m : Regmulti) (heads : List (Option Dico)) (maxblksize n k : ℕ) (files : List File)
    (bytes : List ℕ) (count offset fsid : ℕ)
    → IsLoading m heads maxblksize
    → length heads + length files ≤ max_smallfilecount
    → length bytes ≤ maxblksize
    → maxblksize ≤ max_blksize
    → (m' : Regmulti) × (load_items m (
          header_items n files count offset fsid
          ++ (record { status = todo; itemnum = k; payload = block (joined_block bytes fsid) }
              ∷ []))
        ≡ some (pos 0, m'))
      × IsLoaded m' (heads ++ sealed_heads files count offset) bytes
unfolding load_items joined_block
load_items_all m heads maxblksize n k [] bytes count offset fsid l room fits limit =
    let (m', e, ld) = load_block m heads maxblksize bytes l fits limit in
    (m', ground (arith, e), subst (λ hs. IsLoaded m' hs bytes) (sym (append-nil heads)) ld)
load_items_all m heads maxblksize n k ((h, bs) ∷ files) bytes count offset fsid l room fits limit =
    let (m1, e, l1) =
      load_header m heads maxblksize (sealed h count offset) l (omega (arith, room)) in
    let (m', e', ld) =
      load_items_all m1 (heads ++ (some (sealed h count offset) ∷ [])) maxblksize (n + 1) k files
        bytes count (offset + length bs) fsid l1
        (omega (arith, room, length-append heads (some (sealed h count offset) ∷ []))) fits limit in
    (
      m',
      ground (arith, e, e'),
      subst (λ hs. IsLoaded m' hs bytes)
          (append_assoc heads (some (sealed h count offset) ∷ [])
            (sealed_heads files count (offset + length bs)))
          ld,
    )
