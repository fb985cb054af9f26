-- ===== src/Stats.antt =====
-- error.h and common.c: the counts of the objects that were processed.
use fsarchiver.Base.{ℕ, ◌+◌, ◌%◌, ◌^◌}

pub record Stats : Type 0 where
  pub cnt_regfile : ℕ
  pub cnt_dir : ℕ
  pub cnt_symlink : ℕ
  pub cnt_hardlink : ℕ
  pub cnt_special : ℕ
  pub err_regfile : ℕ
  pub err_dir : ℕ
  pub err_symlink : ℕ
  pub err_hardlink : ℕ
  pub err_special : ℕ

abbrev pub no_stats : Stats
no_stats = record {
  cnt_regfile = 0;
  cnt_dir = 0;
  cnt_symlink = 0;
  cnt_hardlink = 0;
  cnt_special = 0;
  err_regfile = 0;
  err_dir = 0;
  err_symlink = 0;
  err_hardlink = 0;
  err_special = 0;
}

unfoldable pub stats_errcount : Stats → ℕ
stats_errcount s =
    (s.err_regfile + s.err_dir + s.err_symlink + s.err_hardlink + s.err_special) % 2 ^ 64
