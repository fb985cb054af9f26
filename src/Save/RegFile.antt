-- ===== src/Save/RegFile.antt =====
-- oper_save.c, createar_obj_regfile_unique: the contents of a large file, or of an empty one.
use fsarchiver.Base.{
  ℕ, zero, suc, ◌+◌, ◌-◌, ◌*◌, Bool, true, false, not, ◌||◌, Option, none, some, List, [], ◌++◌,
  ltb, ◌==◌, if◌then◌else◌, length, replicate, min,
}
use fsarchiver.Base.Int.{ℤ, pos, is_error, minus_one}
use fsarchiver.Constants.{magic_objt, magic_filf}
use fsarchiver.Keys.{blockfoot_md5sum}
use fsarchiver.Dico.{Memory, Dico, dico_alloc, dico_add_data}
use fsarchiver.Writebuf.{from_nth}
use fsarchiver.Block.{BlockInfo, zero_block}
use fsarchiver.Queue.{Queue, todo, queue_add_header, queue_add_block}
use fsarchiver.Source.{Source}
use fsarchiver.Target.{Digest}

-- A block of the file, whether the end of the file was met, and whether it was met just now. The
-- block of a file that has been truncated is filled up with zeros.
unfoldable pub read_block : Source → Bool → List ℕ → ℕ → ℕ → Option (List ℕ × Bool × Bool)
read_block src eof fullpath filepos curblocksize =
    if eof
    then some (replicate curblocksize 0, true, false)
    else elim (src.read fullpath filepos curblocksize) [
      | none ↦ none
      | some bytes ↦
          if length bytes == curblocksize
          then some (bytes, false, false)
          else some (bytes ++ replicate (curblocksize - length bytes) 0, true, true)
    ]

-- The state after the loop: whether it was left by an error, whether `ret` is -1, the bytes that went
-- into the digest, and how often the flag of the signals was looked at.
pub record Progress : Type 0 where
  pub aborted : Bool
  pub failed : Bool
  pub digested : List ℕ
  pub checks : ℕ
  pub queue : Queue

abbrev pub file_block : ℕ → ℕ → List ℕ → BlockInfo
file_block fsid filepos bytes = record zero_block {
  blkrealsize = length bytes;
  blkdata = bytes;
  blkoffset = filepos;
  blkfsid = fsid;
}

module _ (src : Source) (interrupted : ℕ → Bool) (fullpath : List ℕ)
    (filesize datablocksize fsid : ℕ) where
  -- The loop, from `filepos` on.
  unfoldable pub save_blocks : ℕ → Memory → ℕ → Bool → Progress → Option Progress
  save_blocks zero mem filepos eof p = none
  save_blocks (suc fuel) mem filepos eof p =
      let curblocksize = min (filesize - filepos) datablocksize in
      if not (ltb filepos filesize)
      then some p
      else if interrupted p.checks
      then some (record p { checks = p.checks + 1 })
      else if not (mem 0)
      then some (record p { aborted = true; failed = true; checks = p.checks + 1 })
      else elim (read_block src eof fullpath filepos curblocksize) [
        | none ↦ some (record p { aborted = true; failed = true; checks = p.checks + 1 })
        | some (bytes, eof', short) ↦
            let sent =
              queue_add_block (from_nth 1 mem) p.queue (file_block fsid filepos bytes) todo in
            elim sent [
              | none ↦ none
              | some (res, q') ↦
                  let p' : Progress = record {
                    aborted = is_error res;
                    failed = if short || is_error res then true else p.failed;
                    digested = p.digested ++ bytes;
                    checks = p.checks + 1;
                    queue = q';
                  } in
                  elim (is_error res) [
                    | true ↦ some p'
                    | false ↦ save_blocks fuel (from_nth 2 mem) (filepos + curblocksize) eof' p'
                  ]
            ]
      ]

  -- The footer with the digest, which an empty file does not have.
  unfoldable pub save_footer : Digest → Memory → Progress → Option (ℤ × Queue)
  save_footer digest mem p =
      let ret = if p.failed then minus_one else pos 0 in
      let footer =
        (dico_add_data (from_nth 1 mem) dico_alloc 0 blockfoot_md5sum (digest.md5 p.digested)
          16).1 in
      if not digest.ends
      then some (minus_one, p.queue)
      else if not (ltb 0 filesize)
      then some (ret, p.queue)
      else if not (mem 0)
      then some (minus_one, p.queue)
      else elim (queue_add_header (from_nth 3 mem) p.queue footer magic_filf fsid) [
        | none ↦ none
        | some (res, q') ↦ some (if is_error res then minus_one else ret, q')
      ]

  -- The result of the header's queue_add_header is not looked at. A file of `filesize` bytes has as
  -- many blocks at most.
  unfoldable pub createar_obj_regfile_unique : Digest → Memory → Dico → Queue → Option (ℤ × Queue)
  createar_obj_regfile_unique digest mem header q =
      if not digest.starts
      then some (minus_one, q)
      else if not (src.opens fullpath)
      then some (minus_one, q)
      else elim (queue_add_header mem q header magic_objt fsid) [
        | none ↦ none
        | some (_, q1) ↦
            let start : Progress = record {
              aborted = false;
              failed = false;
              digested = [];
              checks = 0;
              queue = q1;
            } in
            elim (save_blocks (filesize + 1) (from_nth 1 mem) 0 false start) [
              | none ↦ none
              | some p ↦
                  if p.aborted
                  then some (minus_one, p.queue)
                  else if interrupted p.checks
                  then some (minus_one, p.queue)
                  else save_footer digest (from_nth (1 + 2 * p.checks) mem) p
            ]
      ]
