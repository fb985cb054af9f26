-- ===== src/Filesys.antt =====
-- filesys.c: the file systems that can be saved, and what is known about each of them.
use fsarchiver.Base.{
  ℕ, ◌+◌, Bool, true, false, Option, none, some, List, [], ◌∷◌, ◌==◌, if◌then◌else◌, bytes_eq,
  strncmp_eq, not, ◌++◌, ◌/◌, ◌%◌, ◌^◌,
}
use fsarchiver.Base.Int.{ℤ, pos, minus_one}
use fsarchiver.Strlist.{tokens, cut}
use fsarchiver.ArchWriter.Volumes.{digits}

pub record FileSystem : Type 0 where
  pub name : List ℕ
  pub support_for_xattr : Bool
  pub support_for_acls : Bool
  pub winattr : Bool
  pub savesymtargettype : Bool
  pub stable : Bool

abbrev pub unix_like : List ℕ → FileSystem
unix_like name = record {
  name = name;
  support_for_xattr = true;
  support_for_acls = true;
  winattr = false;
  savesymtargettype = false;
  stable = true;
}

abbrev pub ntfs_name : List ℕ
ntfs_name = 110 ∷ 116 ∷ 102 ∷ 115 ∷ []

-- ext2, ext3, ext4, reiserfs, reiser4, btrfs, xfs, jfs, ntfs and vfat.
unfoldable pub filesys : List FileSystem
filesys =
    unix_like (101 ∷ 120 ∷ 116 ∷ 50 ∷ [])
    ∷ unix_like (101 ∷ 120 ∷ 116 ∷ 51 ∷ [])
    ∷ unix_like (101 ∷ 120 ∷ 116 ∷ 52 ∷ [])
    ∷ unix_like (114 ∷ 101 ∷ 105 ∷ 115 ∷ 101 ∷ 114 ∷ 102 ∷ 115 ∷ [])
    ∷ unix_like (114 ∷ 101 ∷ 105 ∷ 115 ∷ 101 ∷ 114 ∷ 52 ∷ [])
    ∷ unix_like (98 ∷ 116 ∷ 114 ∷ 102 ∷ 115 ∷ [])
    ∷ unix_like (120 ∷ 102 ∷ 115 ∷ [])
    ∷ unix_like (106 ∷ 102 ∷ 115 ∷ [])
    ∷ record {
      name = ntfs_name;
      support_for_xattr = false;
      support_for_acls = false;
      winattr = true;
      savesymtargettype = true;
      stable = false;
    }
    ∷ record {
      name = 118 ∷ 102 ∷ 97 ∷ 116 ∷ [];
      support_for_xattr = false;
      support_for_acls = false;
      winattr = false;
      savesymtargettype = false;
      stable = true;
    }
    ∷ []

unfoldable pub find_name : List FileSystem → List ℕ → ℕ → Option ℕ
find_name [] fsname i = none
find_name (fs ∷ rest) fsname i =
    let later = find_name rest fsname (i + 1) in if bytes_eq fs.name fsname then some i else later

-- The result, and `*fstype`, which is -1 where the name is not known.
unfoldable pub generic_get_fstype : List ℕ → ℤ × ℤ
generic_get_fstype fsname = elim (find_name filesys fsname 0) [
  | none ↦ (minus_one, minus_one)
  | some i ↦ (pos 0, pos i)
]

-- The answer for the options of a mount, "rw" among them or not.
unfoldable pub has_rw : List (List ℕ) → ℤ
has_rw [] = pos 0
has_rw (result ∷ rest) =
    let later = has_rw rest in if bytes_eq result (114 ∷ 119 ∷ []) then pos 1 else later

unfoldable pub generic_get_fsrwstatus : List ℕ → ℤ
generic_get_fsrwstatus options = has_rw (tokens 44 [] (cut 128 options))

-- `stat64` of a device: whether it is a block device, and its number.
abbrev pub DeviceStat : Type 0
DeviceStat = List ℕ → Option (Bool × ℕ)

abbrev pub dev_prefix : List ℕ
dev_prefix = 47 ∷ 100 ∷ 101 ∷ 118 ∷ 47 ∷ []

-- Both rounds of the loop look at the first device's kind.
unfoldable pub devcmp : DeviceStat → List ℕ → List ℕ → ℤ
devcmp stat dev1 dev2 = if not (strncmp_eq 5 dev1 dev_prefix) then minus_one else elim (stat dev1) [
  | none ↦ minus_one
  | some (isblk1, rdev1) ↦
      if not isblk1
      then minus_one
      else if not (strncmp_eq 5 dev2 dev_prefix)
      then minus_one
      else elim (stat dev2) [
        | none ↦ minus_one
        | some (isblk2, rdev2) ↦ if rdev1 == rdev2 then pos 0 else pos 1
      ]
]

-- The digits of three bytes of the number, with dots between them.
unfoldable pub format_prog_version : ℕ → ℕ → List ℕ
format_prog_version version buflen =
    let byte : ℕ → List ℕ = λ n. digits 3 (n % 256) in
    cut buflen (byte (version / 2 ^ 16) ++ ((46 ∷ byte (version / 2 ^ 8)) ++ (46 ∷ byte version)))
