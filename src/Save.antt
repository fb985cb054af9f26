-- ===== src/Save.antt =====
-- oper_save.c: saving the files of a directory or of a file system. The queue is the one that the
-- writer thread empties: `none` is a call that has to wait for it, or a fault. `mem k` says whether
-- the k-th allocation is granted.
pub mod RegFile
pub mod Chunks
pub mod Room
pub mod Blocks
pub mod Items
pub mod Attributes
pub mod Standard
pub mod Files
pub mod Walk
