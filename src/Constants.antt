-- ===== src/Constants.antt =====
-- fsarchiver.h and the table `valid_magic` of fsarchiver.c: the numbers and the magic strings that
-- are written in an archive.
use fsarchiver.Base.{ℕ, Bool, true, false, List, [], ◌∷◌, bytes_eq, take}

abbrev pub max_blksize : ℕ
max_blksize = 921600

abbrev pub max_smallfilecount : ℕ
max_smallfilecount = 512

abbrev pub filesysid_null : ℕ
filesysid_null = 0xFFFF

abbrev pub sizeof_magic : ℕ
sizeof_magic = 4

-- FSA_MAGIC_
abbrev pub magic_volh : List ℕ
magic_volh = b'F' ∷ b's' ∷ b'A' ∷ b'0' ∷ []

abbrev pub magic_volf : List ℕ
magic_volf = b'F' ∷ b's' ∷ b'A' ∷ b'E' ∷ []

abbrev pub magic_main : List ℕ
magic_main = b'A' ∷ b'r' ∷ b'C' ∷ b'h' ∷ []

abbrev pub magic_fsin : List ℕ
magic_fsin = b'F' ∷ b's' ∷ b'I' ∷ b'n' ∷ []

abbrev pub magic_fsyb : List ℕ
magic_fsyb = b'F' ∷ b's' ∷ b'Y' ∷ b's' ∷ []

abbrev pub magic_dirs : List ℕ
magic_dirs = b'D' ∷ b'i' ∷ b'R' ∷ b's' ∷ []

abbrev pub magic_objt : List ℕ
magic_objt = b'O' ∷ b'b' ∷ b'J' ∷ b't' ∷ []

abbrev pub magic_blkh : List ℕ
magic_blkh = b'B' ∷ b'l' ∷ b'K' ∷ b'h' ∷ []

abbrev pub magic_filf : List ℕ
magic_filf = b'F' ∷ b'i' ∷ b'L' ∷ b'f' ∷ []

abbrev pub magic_datf : List ℕ
magic_datf = b'D' ∷ b'a' ∷ b'E' ∷ b'n' ∷ []

unfoldable pub valid_magic : List (List ℕ)
valid_magic =
    magic_main ∷ magic_volh ∷ magic_volf ∷ magic_fsin ∷ magic_fsyb ∷ magic_datf ∷ magic_objt
    ∷ magic_blkh ∷ magic_filf ∷ magic_dirs ∷ []

-- common.c: the walk over the table. `magic` points to at least four bytes.
is_one_of : List ℕ → List (List ℕ) → Bool
is_one_of magic [] = false
is_one_of magic (m ∷ rest) = elim (bytes_eq (take sizeof_magic magic) m) [
  | true ↦ true
  | false ↦ is_one_of magic rest
]

unfoldable pub is_magic_valid : List ℕ → Bool
unfolding is_one_of valid_magic bytes_eq
is_magic_valid magic = is_one_of magic valid_magic

-- DICO_OBJ_SECTION_STDATTR
abbrev pub section_stdattr : ℕ
section_stdattr = 0

-- DISKITEMKEY_
abbrev pub diskitemkey_size : ℕ
diskitemkey_size = 8

abbrev pub diskitemkey_multifilescount : ℕ
diskitemkey_multifilescount = 14

abbrev pub diskitemkey_multifilesoffset : ℕ
diskitemkey_multifilesoffset = 15

-- BLOCKHEADITEMKEY_
abbrev pub blockhead_realsize : ℕ
blockhead_realsize = 1

abbrev pub blockhead_blockoffset : ℕ
blockhead_blockoffset = 2

abbrev pub blockhead_compressalgo : ℕ
blockhead_compressalgo = 3

abbrev pub blockhead_encryptalgo : ℕ
blockhead_encryptalgo = 4

abbrev pub blockhead_arsize : ℕ
blockhead_arsize = 5

abbrev pub blockhead_compsize : ℕ
blockhead_compsize = 6

abbrev pub blockhead_arcsum : ℕ
blockhead_arcsum = 7

-- VOLUMEHEADKEY_ and VOLUMEFOOTKEY_
abbrev pub volumehead_volnum : ℕ
volumehead_volnum = 0

abbrev pub volumehead_archid : ℕ
volumehead_archid = 1

abbrev pub volumehead_fileformatver : ℕ
volumehead_fileformatver = 2

abbrev pub volumehead_progvercreat : ℕ
volumehead_progvercreat = 3

abbrev pub volumefoot_volnum : ℕ
volumefoot_volnum = 0

abbrev pub volumefoot_archid : ℕ
volumefoot_archid = 1

abbrev pub volumefoot_lastvol : ℕ
volumefoot_lastvol = 2

abbrev pub max_filefmtlen : ℕ
max_filefmtlen = 32

abbrev pub max_progverlen : ℕ
max_progverlen = 32
