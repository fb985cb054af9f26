-- ===== src/MainHead/Key.antt =====
-- fsarchiver.h: the keys of the main header, MAINHEADKEY_.
use fsarchiver.Base.{ℕ}

abbrev pub fileformatver : ℕ
fileformatver = 1

abbrev pub progvercreat : ℕ
progvercreat = 2

abbrev pub archiveid : ℕ
archiveid = 3

abbrev pub creattime : ℕ
creattime = 4

abbrev pub archlabel : ℕ
archlabel = 5

abbrev pub archtype : ℕ
archtype = 6

abbrev pub fscount : ℕ
fscount = 7

abbrev pub compressalgo : ℕ
compressalgo = 8

abbrev pub compresslevel : ℕ
compresslevel = 9

abbrev pub encryptalgo : ℕ
encryptalgo = 10

abbrev pub bufcheckpassclearmd5 : ℕ
bufcheckpassclearmd5 = 11

abbrev pub bufcheckpasscryptbuf : ℕ
bufcheckpasscryptbuf = 12

abbrev pub fsacomplevel : ℕ
fsacomplevel = 13

abbrev pub minfsaversion : ℕ
minfsaversion = 14

abbrev pub hasdirsinfohead : ℕ
hasdirsinfohead = 15
