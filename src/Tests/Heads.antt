-- ===== src/Tests/Heads.antt =====
-- The theorem on the main header at a concrete input.
use fsarchiver.Base.{
  ℕ, ◌+◌, ◌≡◌, refl, true, false, some, List, [], ◌∷◌, arith, ◌==◌, if◌then◌else◌, length,
  length-replicate, replicate,
}
use fsarchiver.Base.Int.{pos}
use fsarchiver.Constants.{magic_main, filesysid_null}
use fsarchiver.Dico.{plenty}
use fsarchiver.Queue.{Queue, Item, header, remove_first}
use fsarchiver.ThreadComp.{Codecs}
use fsarchiver.Target.{Digest}
use fsarchiver.ArchReader.Blocks.{Stack}
use fsarchiver.Save.Chunks.{with_items}
use fsarchiver.Save.Items.{header_item}
use fsarchiver.MainHead.{
  HeadOptions, ArchInfo, checkpassbuf_size, createar_write_mainhead, extractar_read_mainhead,
}
use fsarchiver.MainHead.Items.{mainhead_items}
use fsarchiver.MainHead.Fields.{IsHeadStack, info_of}
use fsarchiver.MainHead.RoundTrip.{extractar_read_mainhead-createar_write_mainhead}

unfoldable random : List ℕ
random = replicate 4096 77

length-random : length random ≡ checkpassbuf_size
unfolding random
length-random = length-replicate {A = ℕ} 4096 77

abbrev codecs : Codecs
codecs = record {
  supported = λ _. true;
  compress = λ algo bytes size level. (pos 0, bytes);
  uncompress = λ algo bytes size. (pos 0, bytes);
  blowfish = λ encrypt text bytes. (pos 0, bytes);
}

abbrev digest : Digest
digest = record { starts = true; ends = true; md5 = λ bytes. replicate 16 9 }

unfoldable unset : List ℕ
unset = replicate 4104 170

length-unset : length unset ≡ checkpassbuf_size + 8
unfolding unset
length-unset = length-replicate {A = ℕ} 4104 170

abbrev stack : Stack
stack i =
    if i == 1
    then replicate 8 170
    else if i == 8
    then replicate 8 170
    else if i == 10
    then replicate 8 170
    else if i == 11
    then unset
    else replicate 4 170

stack-IsHeadStack : IsHeadStack stack
stack-IsHeadStack = record {
  words = λ i small a b c. ground (arith, small, a, b, c);
  longs = (refl, refl, refl);
  buffer = length-unset;
}

-- The format "FsArCh_002" and the password "secret".
abbrev options : HeadOptions
options = record {
  filefmt = 70 ∷ 115 ∷ 65 ∷ 114 ∷ 67 ∷ 104 ∷ 95 ∷ 48 ∷ 48 ∷ 50 ∷ [];
  version = 48 ∷ 46 ∷ 56 ∷ [];
  archlabel = 120 ∷ [];
  compressalgo = 3;
  compresslevel = 6;
  encryptalgo = 2;
  fsacomplevel = 3;
  encryptpass = some (115 ∷ 101 ∷ 99 ∷ 114 ∷ 101 ∷ 116 ∷ []);
}

abbrev info : ArchInfo
info = record {
  archtype = 0;
  fscount = 0;
  archid = 0;
  filefmt = replicate 32 0;
  creatver = replicate 32 0;
  label = [];
  compalgo = 0;
  cryptalgo = 0;
  complevel = 0;
  fsacomp = 0;
  creattime = 0;
  hasdirsinfohead = 0;
  minfsaver = 0;
}

abbrev queue : List Item → ℕ → Queue
queue items count = record {
  items = items;
  curitemnum = 2;
  itemcount = count;
  blkcount = 0;
  blkmax = 32;
  endofqueue = false;
}

abbrev head : Item
head =
    header_item 1 magic_main filesysid_null
      (mainhead_items options 5 77 1 2 (digest.md5 random) random)

extractar_read_mainhead-createar_write_mainhead_example :
    (createar_write_mainhead codecs digest random plenty options 5 77 1 2 (queue [] 0)
      ≡ some (
        pos 0,
        with_items
            (queue [] 0)
            (header_item 2 magic_main filesysid_null
                (mainhead_items options 5 77 1 2 (digest.md5 random) random)
              ∷ [])
            0,
      ))
    × (extractar_read_mainhead codecs digest stack options info (queue (head ∷ []) 1)
        ≡ some (
          pos 0,
          some (info_of options 5 77 1 2 info),
          remove_first
              (queue (head ∷ []) 1)
              (header (record {
                magic = magic_main;
                fsid = filesysid_null;
                dico = mainhead_items options 5 77 1 2 (digest.md5 random) random;
              }))
              [],
        ))
extractar_read_mainhead-createar_write_mainhead_example =
    extractar_read_mainhead-createar_write_mainhead codecs digest stack random options 5 77 1 2 info
      (queue [] 0) (queue (head ∷ []) 1) 1 [] stack-IsHeadStack
      (record { filefmt = omega arith; version = omega arith; archlabel = omega arith })
      (refl, (refl, (refl, (refl, (refl, (refl, (refl, (refl, (refl, (refl, tt))))))))))
      (record {
        creattime_fits = omega arith;
        archid_fits = omega arith;
        archtype_fits = omega arith;
        fscount_fits = omega arith;
        compressalgo_fits = omega arith;
        compresslevel_fits = omega arith;
        encryptalgo_fits = omega arith;
        fsacomplevel_fits = omega arith;
      })
      (λ e. record {
        digest_size = refl;
        crypted_size = length-random;
        decrypted = refl;
        long_enough = omega arith;
        short_enough = omega arith;
      })
      (record { opened = refl; space = omega arith; counts = omega arith; numbers = omega arith })
      refl (refl, omega arith) (omega arith)
