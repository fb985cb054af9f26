-- ===== src/Block.antt =====
-- queue.h: a data block on its way between a file and the archive, and the header of an object.
use fsarchiver.Base.{ℕ, Bool, false, List, []}
use fsarchiver.Dico.{Dico}

-- `struct s_blockinfo`; `blkdata` is the block that the pointer leads to.
pub record BlockInfo : Type 0 where
  pub blkdata : List ℕ
  pub blkrealsize : ℕ
  pub blkoffset : ℕ
  pub blkarcsum : ℕ
  pub blkarsize : ℕ
  pub blkcompalgo : ℕ
  pub blkcompsize : ℕ
  pub blkcryptalgo : ℕ
  pub blkfsid : ℕ
  pub blklocked : Bool

-- `memset(&blkinfo, 0, sizeof(blkinfo))`
abbrev pub zero_block : BlockInfo
zero_block = record {
  blkdata = [];
  blkrealsize = 0;
  blkoffset = 0;
  blkarcsum = 0;
  blkarsize = 0;
  blkcompalgo = 0;
  blkcompsize = 0;
  blkcryptalgo = 0;
  blkfsid = 0;
  blklocked = false;
}

-- `struct s_headinfo`
pub record HeadInfo : Type 0 where
  pub magic : List ℕ
  pub fsid : ℕ
  pub dico : Dico
