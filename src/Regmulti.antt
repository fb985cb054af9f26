-- ===== src/Regmulti.antt =====
-- regmulti.c: several small files packed in one data block.
-- `none` is a fault, a copy past the end of an array; for `regmulti_save_enqueue` it is also a queue
-- that is full, where the call waits. A pointer argument is the object itself, so the guards against
-- NULL have no counterpart. The sums of `usedsize` and a size are on u32.
pub mod Packed
pub mod Unpacked
pub mod Queueing
pub mod Loading
pub mod RoundTrip
use fsarchiver.Base.{
  ℕ, zero, suc, ◌+◌, ◌*◌, ◌%◌, ◌^◌, Bool, true, false, not, ◌||◌, Option, none, some, List, [], ◌∷◌,
  ltb, leb, if◌then◌else◌, length, get_elem?, set, take, drop, replicate, memcpy, min,
}
use fsarchiver.Base.Int.{ℤ, pos, is_error, minus_one}
use fsarchiver.Constants.{
  max_blksize, max_smallfilecount, section_stdattr, diskitemkey_size, diskitemkey_multifilescount,
  diskitemkey_multifilesoffset, magic_objt,
}
use fsarchiver.Dico.{Memory, Dico, dico_add_u32, dico_get_u32, dico_get_u64}
use fsarchiver.Writebuf.{from_nth}
use fsarchiver.Block.{BlockInfo, zero_block}
use fsarchiver.Queue.{Queue, todo, queue_add_header, queue_add_block}
use fsarchiver.ArchReader.Blocks.{Stack}

-- `objhead` and `data` are the arrays.
pub record Regmulti : Type 0 where
  pub count : ℕ
  pub maxitems : ℕ
  pub maxblksize : ℕ
  pub objhead : List (Option Dico)
  pub contents : List ℕ
  pub usedsize : ℕ

-- The first `maxitems` pointers are cleared.
unfoldable pub regmulti_empty : Regmulti → ℤ × Regmulti
regmulti_empty m = (
  pos 0,
  record m { count = 0; usedsize = 0; objhead = memcpy m.objhead 0 (replicate m.maxitems none) },
)

unfoldable pub regmulti_init : Regmulti → ℕ → ℤ × Regmulti
regmulti_init m maxblksize =
    regmulti_empty
      (record m { maxitems = max_smallfilecount; maxblksize = min maxblksize max_blksize })

unfoldable pub regmulti_count : Regmulti → ℕ
regmulti_count m = m.count

-- `usedsize + size > maxblksize`
abbrev pub too_large : Regmulti → ℕ → Bool
too_large m size = ltb m.maxblksize ((m.usedsize + size) % 2 ^ 32)

unfoldable pub regmulti_save_enough_space_for_new_file : Regmulti → ℕ → Bool
regmulti_save_enough_space_for_new_file m filesize =
    if leb m.maxitems m.count then false else if too_large m filesize then false else true

unfoldable pub regmulti_save_addfile : Regmulti → Dico → List ℕ → ℕ → Option (ℤ × Regmulti)
regmulti_save_addfile m header src datsize =
    if leb m.maxitems m.count
    then some (minus_one, m)
    else if too_large m datsize
    then some (minus_one, m)
    else if ltb (length m.contents) (m.usedsize + datsize)
    then none
    else some (
      pos 0,
      record m {
        objhead = set m.objhead m.count (some header);
        contents = memcpy m.contents m.usedsize (take datsize src);
        usedsize = (m.usedsize + datsize) % 2 ^ 32;
        count = m.count + 1;
      },
    )

-- The loop over the headers `heads`, the first of which belongs to the data at `offset`: the result,
-- whether the loop went on to its end, and the queue. `stack i` is the uninitialised word on the
-- stack of the i-th reading of a size. A header belongs to the queue from here on, so the attributes
-- that are added to it are in the queue's copy.
unfoldable pub enqueue_headers :
    Stack → Memory → List (Option Dico) → ℕ → ℕ → ℕ → Queue → Option (ℤ × Queue)
enqueue_headers stack mem [] count offset fsid q = some (pos 0, q)
enqueue_headers stack mem (none ∷ heads) count offset fsid q = some (minus_one, q)
enqueue_headers stack mem (some header ∷ heads) count offset fsid q =
    let (res1, filesize) = dico_get_u64 (stack 0) header section_stdattr diskitemkey_size in
    if is_error res1
    then some (minus_one, q)
    else (let (res2, header2) =
          dico_add_u32 mem header section_stdattr diskitemkey_multifilescount count in
        if is_error res2
        then some (minus_one, q)
        else (let (res3, header3) =
              dico_add_u32 (from_nth 2 mem) header2 section_stdattr diskitemkey_multifilesoffset
                offset in
            if is_error res3
            then some (minus_one, q)
            else elim (queue_add_header (from_nth 4 mem) q header3 magic_objt fsid) [
              | none ↦ none
              | some (res4, q') ↦
                  let later =
                    enqueue_headers (λ i. stack (suc i)) (from_nth 5 mem) heads count
                      ((offset + filesize % 2 ^ 32) % 2 ^ 32) fsid q' in
                  if is_error res4 then some (minus_one, q') else later
            ]))

-- The block that is queued behind the headers.
abbrev pub data_block : Regmulti → ℕ → BlockInfo
data_block m fsid = record zero_block {
  blkrealsize = m.usedsize;
  blkdata = take m.usedsize m.contents;
  blkoffset = 0;
  blkfsid = fsid;
}

unfoldable pub regmulti_save_enqueue : Stack → Memory → Regmulti → Queue → ℕ → Option (ℤ × Queue)
regmulti_save_enqueue stack mem m q fsid =
    if leb m.count 0
    then some (pos 0, q)
    else elim (enqueue_headers stack mem (take m.count m.objhead) m.count 0 fsid q) [
      | none ↦ none
      | some (res, q') ↦
          if is_error res
          then some (minus_one, q')
          else if not (mem (5 * m.count))
          then some (minus_one, q')
          else elim (queue_add_block (from_nth (5 * m.count + 1) mem) q' (data_block m fsid) todo) [
            | none ↦ none
            | some (res2, q'') ↦ if is_error res2 then some (minus_one, q'') else some (pos 0, q'')
          ]
    ]

unfoldable pub regmulti_rest_addheader : Regmulti → Dico → ℤ × Regmulti
regmulti_rest_addheader m header =
    if leb m.maxitems m.count
    then (minus_one, m)
    else (pos 0, record m { objhead = set m.objhead m.count (some header); count = m.count + 1 })

unfoldable pub regmulti_rest_setdatablock : Regmulti → List ℕ → ℕ → Option (ℤ × Regmulti)
regmulti_rest_setdatablock m src datsize =
    if too_large m datsize
    then some (minus_one, m)
    else if ltb (length m.contents) datsize
    then none
    else some
        (pos 0, record m { contents = memcpy m.contents 0 (take datsize src); usedsize = datsize })

-- The header, the caller's buffer and `*datsize`, which an error leaves alone. `bufsize` is not used.
unfoldable pub regmulti_rest_getfile :
    Stack → Regmulti → ℕ → List ℕ → ℕ → Option (ℤ × Option Dico × List ℕ × Option ℕ)
regmulti_rest_getfile stack m index buffer bufsize =
    if leb m.count index
    then some (minus_one, none, buffer, none)
    else elim (get_elem? m.objhead index) [
      | none ↦ none
      | some none ↦ none
      | some (some header) ↦
          let (res1, filesize) = dico_get_u64 (stack 0) header section_stdattr diskitemkey_size in
          if is_error res1
          then some (minus_one, some header, buffer, none)
          else (let (res2, offset) =
                dico_get_u32 (stack 1) header section_stdattr diskitemkey_multifilesoffset in
              if is_error res2
              then some (minus_one, some header, buffer, none)
              else if ltb (length m.contents) (offset + filesize) || ltb (length buffer) filesize
              then none
              else some (
                pos 0,
                some header,
                memcpy buffer 0 (take filesize (drop offset m.contents)),
                some filesize,
              ))
    ]
