-- ===== src/DataFile.antt =====
-- datafile.c: a file that is being restored.
-- The descriptor is the path, and `position` is the file offset that the kernel keeps for it.
pub mod Contents
use fsarchiver.Base.{
  ℕ, ◌+◌, ◌-◌, Bool, true, false, not, ◌&&◌, ◌||◌, Option, none, some, List, [], ◌∷◌, ◌++◌, ltb,
  ◌==◌, if◌then◌else◌, length, take,
}
use fsarchiver.Base.Int.{ℤ, pos, negsuc, is_error, minus_one}
use fsarchiver.Base.Code
use fsarchiver.Strlist.{cut}
use fsarchiver.Paths.{path_max}
use fsarchiver.Target.{Target, Digest}

-- `digested` are the bytes that went into the digest.
pub record Datafile : Type 0 where
  pub simul : Bool
  pub is_open : Bool
  pub sparse : Bool
  pub path : List ℕ
  pub position : ℕ
  pub digested : List ℕ

unfoldable pub datafile_alloc : Datafile
datafile_alloc = record {
  simul = false;
  is_open = false;
  sparse = false;
  path = [];
  position = 0;
  digested = [];
}

unfoldable pub datafile_is_block_zero : List ℕ → Bool
datafile_is_block_zero [] = true
datafile_is_block_zero (c ∷ bytes) =
    let later = datafile_is_block_zero bytes in if c == 0 then later else false

module _ {S : Type 0} (os : Target S) (digest : Digest) where
  -- A file that was created stays where the digest cannot be started.
  unfoldable pub datafile_open_write : S → Datafile → List ℕ → Bool → Bool → ℤ × Datafile × S
  datafile_open_write st f path simul sparse =
      let works : Bool = if simul then true else (os.creat st path).0 in
      let st2 : S = if simul then st else (os.creat st path).1 in
      if f.is_open
      then (minus_one, f, st)
      else if not works
      then (minus_one, f, st2)
      else if not digest.starts
      then (minus_one, f, st2)
      else (
        pos 0,
        record {
          simul = simul;
          is_open = true;
          sparse = sparse;
          path = cut path_max path;
          position = 0;
          digested = [];
        },
        st2,
      )

  -- The error of a write of which `lres` bytes were done.
  unfoldable pub write_error : S → Option ℕ → ℤ
  write_error st lres =
      if os.no_space st
      then negsuc 7
      else elim lres [ none ↦ negsuc 10 | some n ↦ if n == 0 then negsuc 10 else negsuc 7 ]

  -- What reaches the file system: the result, the new position, and the state.
  unfoldable pub put_block : S → Datafile → List ℕ → ℤ × ℕ × S
  put_block st f bytes =
      let (lres, st') = os.write st f.path f.position bytes in
      let whole : Bool = elim lres [ none ↦ false | some n ↦ n == length bytes ] in
      let done : ℕ = elim lres [ none ↦ 0 | some n ↦ n ] in
      if f.sparse && datafile_is_block_zero bytes
      then (if os.can_seek st f.path (f.position + length bytes)
          then (Code.success, f.position + length bytes, st)
          else (negsuc 8, f.position, st))
      else if whole
      then (Code.success, f.position + length bytes, st')
      else (write_error st' lres, f.position + done, st')

  unfoldable pub datafile_write : S → Datafile → List ℕ → ℤ × Datafile × S
  datafile_write st f bytes =
      let (res, position', st') = put_block st f bytes in
      let grown = f.digested ++ bytes in
      if not f.is_open
      then (negsuc 6, f, st)
      else if f.simul
      then (Code.success, record f { digested = grown }, st)
      else if is_error res
      then (res, record f { position = position' }, st')
      else (Code.success, record f { position = position'; digested = grown }, st')

  -- The file as it is left: a sparse file gets its size, and the descriptor is closed.
  unfoldable pub finish_file : S → Datafile → ℤ × S
  finish_file st f =
      let sized : Bool = if f.sparse then (os.ftruncate st f.path f.position).0 else true in
      let st1 : S = if f.sparse then (os.ftruncate st f.path f.position).1 else st in
      let (closed, st2) = os.close st1 f.path in (if sized && closed then pos 0 else minus_one, st2)

  -- The result, the digest that the caller's buffer of 16 bytes gets, and the state.
  unfoldable pub datafile_close : S → Datafile → ℤ × List ℕ × Datafile × S
  datafile_close st f =
      let (res, st') = finish_file st f in
      let shut = record f { is_open = false; path = [] } in
      if not f.is_open
      then (minus_one, [], f, st)
      else if not digest.ends
      then (minus_one, [], f, st)
      else if f.simul
      then (pos 0, digest.md5 f.digested, shut, st)
      else (res, digest.md5 f.digested, shut, st')
