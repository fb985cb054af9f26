-- ===== src/Lib.antt =====
-- fsarchiver: saving file systems and directories to an archive, and restoring them.
--
-- The program's parts and how they interact. A save walks the files (src/oper_save.c) and puts
-- headers and data blocks in a queue (src/queue.c); small files are packed together in one block
-- (src/regmulti.c). Compression threads (src/thread_comp.c) take the blocks that are to be done and
-- put them back done, and a writer thread (src/thread_archio.c) removes the first item once it is
-- done, lays it out in a buffer (src/writebuf.c) and writes it to a volume (src/archwriter.c). A
-- restore goes the other way: a reader thread reads headers and blocks from the volumes
-- (src/archreader.c) and fills the queue, and the extraction (src/oper_restore.c) removes the
-- items. Every header is a dictionary of attributes (src/dico.c), and headers and blocks carry a
-- checksum (fletcher32 of src/common.c).
--
-- The files. Base has the shared helpers: native numbers, lists and arrays, return codes, little
-- endian numbers (src/types.h) and bits. Constants has the numbers and magic strings of
-- src/fsarchiver.h and is_magic_valid. Dico is src/dico.c: a dictionary is the list of its items,
-- and every function has its own name; Dico/Lookup reads it as a map, Dico/Unique has its
-- invariants and Dico/Words the numbers and strings. Fletcher is fletcher32, with its description
-- by sums in Fletcher/Spec and the errors that it finds in Fletcher/Detect. Block has the
-- structures s_blockinfo and s_headinfo of src/queue.h. Writebuf is src/writebuf.c, with the bytes
-- written in Writebuf/Layout and success in Writebuf/Total. ArchReader is src/archreader.c, for
-- headers, and ArchReader/Blocks for data blocks and ArchReader/VolHeader for volume headers; a
-- volume is its bytes and a position. ArchWriter is src/archwriter.c: the attributes of volume
-- headers and footers, the volumes on disk in ArchWriter/Volumes, where the disk is a function from
-- paths to bytes and the operating system is the parameter Device, and what one item adds to them
-- in ArchWriter/Split. Queue and Queue/Removal are src/queue.c: a function runs under the mutex, so
-- it is one step from a queue to a result and a queue; Queue/Schedule has any sequence of the calls
-- of several threads, Queue/Change what one call can do, with Queue/Takes and Queue/Step, and
-- Queue/Counts, Queue/Order and Queue/Handover what holds over all sequences. Regmulti is
-- src/regmulti.c. ThreadComp is the compression and encryption of a block in src/thread_comp.c,
-- with the codecs as parameters and what they must satisfy as CodecLaws in ThreadComp/RoundTrip.
-- Strlist is src/strlist.c and Dichl is src/dichl.c. Strdico is src/strdico.c, with strtoll in
-- Strdico/Number. Paths has the functions on paths and patterns of src/common.c, Filesys the table
-- and the pure functions of src/filesys.c, Stats the counters of src/error.h, Keys the kinds of
-- objects and the keys of attributes of src/fsarchiver.h. DataFile is src/datafile.c. MainHead is
-- the main header, written by createar_write_mainhead and read by extractar_read_mainhead.
--
-- Save is src/oper_save.c: large files in Save/RegFile, the attributes in Save/Attributes and
-- Save/Standard, one object in Save/Files (createar_save_file), and the walk through directories in
-- Save/Walk (createar_save_directory, createar_oper_savefs, createar_oper_savedir). Restore is
-- src/oper_restore.c: attributes and excluded paths in Restore/Attributes, large files in
-- Restore/RegFile, packed files in Restore/SmallFiles, the other kinds in Restore/Objects, the loop
-- over the objects in Restore/Dispatch, and the command line in Restore/Arguments. The system calls
-- are parameters: Source answers for the files that are read, Target S acts on a state S of the file
-- system that is written, and Digest is the MD5 of libgcrypt. What is assumed of calls that succeed
-- is IsReliable in DataFile/Contents. Tests has the theorems at concrete inputs.
--
-- Conventions. A pointer argument is the object itself, so the guards against NULL and the
-- assertions have no counterpart. An allocation may fail: an argument of type Memory says which
-- allocations of a call are granted. Numbers are natural numbers, with the wrap of u16, u32 and u64
-- written out where a sum can overflow. The uninitialised words on the stack of the readers of
-- numbers are arguments. The option none stands for a fault of the program, such as a copy past the
-- end of a buffer, and in the queue for a call that has to wait. All loops are structural recursion
-- on the list of items, on the count of a header, or on the bytes that are left; fletcher32 takes
-- the length of its data as fuel, of which every round uses one and the data at least one byte. A
-- loop on the queue of the restoration has as fuel the number of its items and one, since each round
-- removes an item, and the walk through directories has the depth, which the length of a path bounds
-- (PATH_MAX). The result of such a loop is of the type Loop: finished, waiting or at fault, or stuck
-- for want of fuel.
--
-- Not modelled. Functions that only free memory (dico_destroy, writebuf_destroy); the opening of
-- volumes by the reader; the threads' loops; oper_save and oper_restore as a whole, which start the
-- threads, mount and probe devices; extractar_filesystem_extract; the making and mounting of file
-- systems, devices, options and output, which are system calls and programs; the compression
-- libraries and libgcrypt, which are not part of this repository, and the functions of src/comp_*.c
-- and src/crypto.c that call them.
pub mod Base
pub mod Constants
pub mod Dico
pub mod Fletcher
pub mod Block
pub mod Writebuf
pub mod ArchReader
pub mod Queue
pub mod ArchWriter
pub mod Regmulti
pub mod ThreadComp
pub mod Strlist
pub mod Strdico
pub mod Paths
pub mod Keys
pub mod Stats
pub mod Filesys
pub mod Target
pub mod Source
pub mod Save
pub mod Restore
pub mod MainHead
pub mod DataFile
pub mod Dichl
pub mod Tests
