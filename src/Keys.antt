-- ===== src/Keys.antt =====
-- fsarchiver.h: the kinds of objects, the keys of their attributes, and limits.
use fsarchiver.Base.{ℕ}

-- DICO_OBJ_SECTION_
abbrev pub section_xattr : ℕ
section_xattr = 1

abbrev pub section_winattr : ℕ
section_winattr = 2

-- OBJTYPE_
abbrev pub objtype_null : ℕ
objtype_null = 0

abbrev pub objtype_dir : ℕ
objtype_dir = 1

abbrev pub objtype_symlink : ℕ
objtype_symlink = 2

abbrev pub objtype_hardlink : ℕ
objtype_hardlink = 3

abbrev pub objtype_chardev : ℕ
objtype_chardev = 4

abbrev pub objtype_blockdev : ℕ
objtype_blockdev = 5

abbrev pub objtype_fifo : ℕ
objtype_fifo = 6

abbrev pub objtype_socket : ℕ
objtype_socket = 7

abbrev pub objtype_regfileunique : ℕ
objtype_regfileunique = 8

abbrev pub objtype_regfilemulti : ℕ
objtype_regfilemulti = 9

-- DISKITEMKEY_
abbrev pub diskitemkey_objectid : ℕ
diskitemkey_objectid = 1

abbrev pub diskitemkey_path : ℕ
diskitemkey_path = 2

abbrev pub diskitemkey_objtype : ℕ
diskitemkey_objtype = 3

abbrev pub diskitemkey_symlink : ℕ
diskitemkey_symlink = 4

abbrev pub diskitemkey_hardlink : ℕ
diskitemkey_hardlink = 5

abbrev pub diskitemkey_rdev : ℕ
diskitemkey_rdev = 6

abbrev pub diskitemkey_mode : ℕ
diskitemkey_mode = 7

abbrev pub diskitemkey_uid : ℕ
diskitemkey_uid = 9

abbrev pub diskitemkey_gid : ℕ
diskitemkey_gid = 10

abbrev pub diskitemkey_atime : ℕ
diskitemkey_atime = 11

abbrev pub diskitemkey_mtime : ℕ
diskitemkey_mtime = 12

abbrev pub diskitemkey_md5sum : ℕ
diskitemkey_md5sum = 13

abbrev pub diskitemkey_linktargettype : ℕ
diskitemkey_linktargettype = 16

abbrev pub diskitemkey_flags : ℕ
diskitemkey_flags = 17

-- BLOCKFOOTITEMKEY_MD5SUM
abbrev pub blockfoot_md5sum : ℕ
blockfoot_md5sum = 1

-- The cost of an object in the progress bar, FSA_COST_PER_FILE.
abbrev pub cost_per_file : ℕ
cost_per_file = 16384

-- FSA_FILEFLAGS_SPARSE
abbrev pub flag_sparse : ℕ
flag_sparse = 1

-- FSA_MAX_SMALLFILESIZE
abbrev pub max_smallfilesize : ℕ
max_smallfilesize = 131072

-- FSA_MAX_FSPERARCH
abbrev pub max_fsperarch : ℕ
max_fsperarch = 128
