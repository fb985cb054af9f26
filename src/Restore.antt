-- ===== src/Restore.antt =====
-- oper_restore.c: recreating the objects of an archive. The queue is the one that the reader thread
-- fills: a call that has to wait for it is `waits`, as is a fault, the write of a path past the end
-- of its buffer. The file system is a state of the type S under the calls of Target.
pub mod Attributes
pub mod RegFile
pub mod Contents
pub mod Ends
pub mod Whole
pub mod RoundTrip
pub mod SmallFiles
pub mod Objects
pub mod Dispatch
pub mod Links
pub mod Arguments
