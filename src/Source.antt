-- ===== src/Source.antt =====
-- The system calls by which files are read. None of this is code of the program.
use fsarchiver.Base.{ℕ, Bool, Option, List}

-- `struct stat64`; `mode` has the kind of the file, S_IFMT, apart from its permissions.
pub data Kind : Type 0 where
  directory symbolic regular character blockdev fifo socket odd : Kind

pub record Stat : Type 0 where
  pub kind : Kind
  pub mode : ℕ
  pub size : ℕ
  pub uid : ℕ
  pub gid : ℕ
  pub atime : ℕ
  pub mtime : ℕ
  pub nlink : ℕ
  pub dev : ℕ
  pub rdev : ℕ
  pub ino : ℕ
  pub blocks : ℕ

-- The answer of `lgetxattr`: a value, errno ENOATTR, or another error.
pub data Reply {ℓ} (A : Type ℓ) : Type ℓ where
  value : A → Reply A
  absent failed : Reply A

-- `read path pos n` are the bytes that are read at a position, `n` at most, and none is an error.
-- `llistxattr path` are the names, each with a zero behind it; `readdir` gives the names of a
-- directory in order. `interrupted k` is what the k-th look at the flag of the signals shows.
pub record Source : Type 0 where
  pub opens : List ℕ → Bool
  pub read : List ℕ → ℕ → ℕ → Option (List ℕ)
  pub lstat : List ℕ → Option Stat
  pub readlink : List ℕ → Option (List ℕ)
  pub llistxattr : List ℕ → ℕ → Option (List ℕ)
  pub xattr_size : List ℕ → List ℕ → Reply ℕ
  pub lgetxattr : List ℕ → List ℕ → ℕ → Reply (List ℕ)
  pub readdir : List ℕ → Option (List (List ℕ))
