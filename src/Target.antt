-- ===== src/Target.antt =====
-- The system calls by which files are restored, on a state `S` of the file system, and the message
-- digest of libgcrypt. None of this is code of the program.
use fsarchiver.Base.{ℕ, Bool, Option, List}

-- A Boolean result says that the call succeeds. `write st path pos bytes` is the number of bytes that
-- were written at a position, none for an error; `no_space` is whether errno is ENOSPC after it.
-- `missing` is that `stat64` fails with ENOENT, and `dir_times` are the times of a directory, none
-- where `lstat64` fails or the path is not a directory. `set_times` is `utimes`, `link_times`
-- `lutimes`.
pub record Target (S : Type 0) : Type 0 where
  pub missing : S → List ℕ → Bool
  pub mkdir : S → List ℕ → S
  pub dir_times : S → List ℕ → Option (ℕ × ℕ)
  pub set_times : S → List ℕ → ℕ × ℕ → Bool × S
  pub link_times : S → List ℕ → ℕ × ℕ → S
  pub lchown : S → List ℕ → ℕ → ℕ → Bool × S
  pub chmod : S → List ℕ → ℕ → Bool × S
  pub lsetxattr : S → List ℕ → List ℕ → List ℕ → Bool × S
  pub symlink : S → List ℕ → List ℕ → Bool × S
  pub link : S → List ℕ → List ℕ → Bool × S
  pub mknod : S → List ℕ → ℕ → ℕ → Bool × S
  pub creat : S → List ℕ → Bool × S
  pub write : S → List ℕ → ℕ → List ℕ → Option ℕ × S
  pub no_space : S → Bool
  pub can_seek : S → List ℕ → ℕ → Bool
  pub ftruncate : S → List ℕ → ℕ → Bool × S
  pub close : S → List ℕ → Bool × S
  pub unlink : S → List ℕ → S

-- `starts` and `ends` say that `gcry_md_open` and `gcry_md_read` succeed.
pub record Digest : Type 0 where
  pub starts : Bool
  pub ends : Bool
  pub md5 : List ℕ → List ℕ
