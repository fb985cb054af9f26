-- ===== src/ThreadComp.antt =====
-- thread_comp.c: the compression and encryption of a block, and back.
-- The functions of comp_*.c and crypto.c that call the compression libraries and libgcrypt are the
-- fields of Codecs, and the options that are read are those of Options. `mem k` says whether the k-th
-- allocation of the call is granted; `none` is a fault, a read or a copy past the end of a buffer.
pub mod RoundTrip
use fsarchiver.Base.{
  ℕ, ◌+◌, ◌/◌, ◌%◌, ◌^◌, Bool, true, false, not, ◌&&◌, ◌||◌, Option, none, some, List, [], ◌∷◌, ltb,
  ◌==◌, if◌then◌else◌, length, take, replicate, memcpy,
}
use fsarchiver.Base.Int.{ℤ, pos, negsuc, is_error, minus_one}
use fsarchiver.Base.Code
use fsarchiver.Dico.{Memory}
use fsarchiver.Fletcher.{fletcher32}
use fsarchiver.Block.{BlockInfo}

abbrev pub compress_none : ℕ
compress_none = 1

abbrev pub compress_zstd : ℕ
compress_zstd = 7

abbrev pub encrypt_none : ℕ
encrypt_none = 1

abbrev pub encrypt_blowfish : ℕ
encrypt_blowfish = 2

-- `supported algo`: the program is built with this algorithm. `compress algo data bufsize level` and
-- `uncompress algo data bufsize` are the result and the bytes written; `blowfish encrypt password data`
-- likewise.
pub record Codecs : Type 0 where
  pub supported : ℕ → Bool
  pub compress : ℕ → List ℕ → ℕ → ℕ → ℤ × List ℕ
  pub uncompress : ℕ → List ℕ → ℕ → ℤ × List ℕ
  pub blowfish : Bool → List ℕ → List ℕ → ℤ × List ℕ

-- The default algorithm and level are those that the program is built with.
pub record Options : Type 0 where
  pub compressalgo : ℕ
  pub compresslevel : ℕ
  pub encryptalgo : ℕ
  pub encryptpass : List ℕ
  pub def_compress_algo : ℕ
  pub def_compress_level : ℕ

abbrev pub is_enomem : ℤ → Bool
is_enomem (pos _) = false
is_enomem (negsuc n) = n == 1

-- `compsize` bytes that were written for the block of `blkrealsize` bytes, or the block as it is.
unfoldable pub keep_smaller : BlockInfo → ℕ → ℤ × List ℕ → BlockInfo
keep_smaller b algo (res, out) =
    if not (is_error res) && ltb (length out) b.blkrealsize
    then record b {
      blkdata = out;
      blkcompsize = length out;
      blkarsize = length out;
      blkcompalgo = algo;
    }
    else record b {
      blkdata = take b.blkrealsize b.blkdata;
      blkcompsize = b.blkrealsize;
      blkarsize = b.blkrealsize;
      blkcompalgo = compress_none;
    }

abbrev pub bufsize : BlockInfo → ℕ
bufsize b = b.blkrealsize + b.blkrealsize / 16 + 64 + 3

-- One round of the loop.
unfoldable pub attempt : Codecs → BlockInfo → ℕ → ℕ → Option (ℤ × List ℕ)
attempt c b algo level =
    if c.supported algo
    then some (c.compress algo (take b.blkrealsize b.blkdata) (bufsize b) level)
    else none

-- Another algorithm or level is tried after an out-of-memory error.
abbrev pub tries_default : Options → Bool
tries_default o =
    (o.compressalgo == compress_zstd && ltb o.def_compress_level o.compresslevel)
    || not (o.compressalgo == o.def_compress_algo)

-- The loop, which goes round twice at most, and what follows it up to the encryption.
unfoldable pub compress_attempts : Codecs → Options → BlockInfo → ℤ × BlockInfo
compress_attempts c o b =
    let algo2 : ℕ = if tries_default o then o.def_compress_algo else o.compressalgo in
    let level2 : ℕ = if tries_default o then o.def_compress_level else o.compresslevel in
    elim (attempt c b o.compressalgo o.compresslevel) [
      | none ↦ (minus_one, b)
      | some first ↦
          if not (is_enomem first.0)
          then (pos 0, keep_smaller b o.compressalgo first)
          else elim (attempt c b algo2 level2) [
            | none ↦ (minus_one, record b { blkcompalgo = o.compressalgo })
            | some second ↦ (pos 0, keep_smaller b algo2 second)
          ]
    ]

-- The encryption, and the checksum.
unfoldable pub encrypt_and_sum : Memory → Codecs → Options → BlockInfo → ℤ × BlockInfo
encrypt_and_sum mem c o b =
    if o.encryptalgo == encrypt_blowfish
    then (if not (mem 1)
        then (minus_one, b)
        else (let (res, out) = c.blowfish true o.encryptpass (take b.blkcompsize b.blkdata) in
            let arsize = length out % 2 ^ 32 in
            if is_error res then (minus_one, b) else (
              pos 0,
              record b {
                blkdata = out;
                blkarsize = arsize;
                blkcryptalgo = encrypt_blowfish;
                blkarcsum = fletcher32 (take arsize out);
              },
            )))
    else (
      pos 0,
      record b { blkcryptalgo = encrypt_none; blkarcsum = fletcher32 (take b.blkarsize b.blkdata) },
    )

unfoldable pub compress_block_generic : Memory → Codecs → Options → BlockInfo → ℤ × BlockInfo
compress_block_generic mem c o b =
    if not (mem 0)
    then (minus_one, b)
    else (let (res, b') = compress_attempts c o b in
        if is_error res then (minus_one, b') else encrypt_and_sum mem c o b')

-- The block in clear, still compressed.
unfoldable pub decrypt_block : Memory → Codecs → Options → BlockInfo → ℤ × BlockInfo
decrypt_block mem c o b =
    if not (b.blkcryptalgo == encrypt_none) && not (o.encryptalgo == encrypt_blowfish)
    then (minus_one, b)
    else if b.blkcryptalgo == encrypt_blowfish
    then (if not (mem 1)
        then (minus_one, b)
        else (let (res, clear) = c.blowfish false o.encryptpass (take b.blkarsize b.blkdata) in
            if is_error res
            then (minus_one, b)
            else if not (length clear == b.blkcompsize)
            then (minus_one, b)
            else (pos 0, record b { blkdata = clear })))
    else (pos 0, b)

-- `fresh` is what `malloc(blkrealsize)` returned, which is not initialised.
unfoldable pub uncompress_block : Codecs → List ℕ → BlockInfo → Option (ℤ × BlockInfo)
uncompress_block c fresh b =
    if b.blkcompalgo == compress_none
    then (if ltb (length fresh) b.blkarsize || ltb (length b.blkdata) b.blkarsize
        then none
        else some (pos 0, record b { blkdata = memcpy fresh 0 (take b.blkarsize b.blkdata) }))
    else if c.supported b.blkcompalgo
    then (if ltb (length b.blkdata) b.blkcompsize
        then none
        else (let (res, out) =
              c.uncompress b.blkcompalgo (take b.blkcompsize b.blkdata) b.blkrealsize in
            if is_error res
            then some (pos 0, record b { blkdata = replicate b.blkrealsize 0 })
            else some (pos 0, record b { blkdata = memcpy fresh 0 out })))
    else some (minus_one, b)

-- A block with a bad checksum stays as it is.
unfoldable pub decompress_block_generic :
    Memory → List ℕ → Codecs → Options → BlockInfo → Option (ℤ × BlockInfo)
decompress_block_generic mem fresh c o b =
    if not (mem 0)
    then some (minus_one, b)
    else if ltb (length b.blkdata) b.blkarsize
    then none
    else if not (fletcher32 (take b.blkarsize b.blkdata) == b.blkarcsum)
    then some (pos 0, b)
    else (let (res, b') = decrypt_block mem c o b in
        if is_error res then some (minus_one, b') else uncompress_block c fresh b')
