-- ===== src/ThreadComp/RoundTrip.antt =====
-- thread_comp.c: a compressed block is decompressed to what it was.
use fsarchiver.Base.{
  ℕ, ◌%◌, ◌^◌, ◌≤◌, ◌<◌, ◌≡◌, refl, ap, sym, ◌∙◌, Bool, true, false, not, ◌&&◌, some, List, arith,
  ltb, ◌==◌, if◌then◌else◌, length, take_all, memcpy_whole, Bool-cases, inl, inr, ◌⊎◌,
}
use fsarchiver.Base.Int.{ℤ, pos, is_error}
use fsarchiver.Dico.{plenty}
use fsarchiver.Fletcher.{fletcher32}
use fsarchiver.Block.{BlockInfo}
use fsarchiver.ThreadComp.{
  Codecs, Options, compress_none, encrypt_none, encrypt_blowfish, is_enomem, keep_smaller, bufsize,
  attempt, tries_default, compress_attempts, encrypt_and_sum, compress_block_generic, decrypt_block,
  uncompress_block, decompress_block_generic,
}

-- What the compression libraries and libgcrypt do: the two algorithms that can be asked for are
-- there and are real ones, what was compressed is uncompressed again, and, where the options ask for
-- encryption, Blowfish in CFB mode works, keeps the size and is undone with the same password.
pub record CodecLaws (c : Codecs) (o : Options) : Type 0 where
  pub has_algo : c.supported o.compressalgo ≡ true
  pub has_default : c.supported o.def_compress_algo ≡ true
  pub real_algo : (o.compressalgo == compress_none) ≡ false
  pub real_default : (o.def_compress_algo == compress_none) ≡ false
  pub uncompresses :
      (algo : ℕ) (bytes : List ℕ) (size level : ℕ)
      → is_error (c.compress algo bytes size level).0 ≡ false
      → c.uncompress algo (c.compress algo bytes size level).1 (length bytes) ≡ (pos 0, bytes)
  pub encrypts :
      (o.encryptalgo == encrypt_blowfish) ≡ true
      → (bytes : List ℕ)
      → (is_error (c.blowfish true o.encryptpass bytes).0 ≡ false)
        × (length (c.blowfish true o.encryptpass bytes).1 ≡ length bytes)
        × (c.blowfish false o.encryptpass (c.blowfish true o.encryptpass bytes).1 ≡ (pos 0, bytes))

-- A block whose data uncompress to `bytes`.
record IsCompressed (c : Codecs) (bytes : List ℕ) (b : BlockInfo) : Type 0 where
  realsize : b.blkrealsize ≡ length bytes
  compsize : b.blkcompsize ≡ length b.blkdata
  arsize : b.blkarsize ≡ length b.blkdata
  no_larger : length b.blkdata ≤ length bytes
  undone :
      ((b.blkcompalgo ≡ compress_none) × (b.blkdata ≡ bytes))
      ⊎ (((b.blkcompalgo == compress_none) ≡ false)
          × (c.supported b.blkcompalgo ≡ true)
          × (c.uncompress b.blkcompalgo b.blkdata b.blkrealsize ≡ (pos 0, bytes)))

keep_smaller-IsCompressed :
    (c : Codecs) (b : BlockInfo) (algo : ℕ) (r : ℤ × List ℕ)
    → b.blkrealsize ≡ length b.blkdata
    → (algo == compress_none) ≡ false
    → c.supported algo ≡ true
    → (is_error r.0 ≡ false → c.uncompress algo r.1 (length b.blkdata) ≡ (pos 0, b.blkdata))
    → IsCompressed c b.blkdata (keep_smaller b algo r)
unfolding keep_smaller
keep_smaller-IsCompressed c b algo (res, out) size real has law =
    elim (Bool-cases (not (is_error res) && ltb (length out) b.blkrealsize)) [
      | inl h ↦ rw h (record {
        realsize = size;
        compsize = refl;
        arsize = refl;
        no_larger = ground (arith, h, size);
        undone = inr (real, has, ap (c.uncompress algo out) size ∙ law (ground (arith, h)));
      })
      | inr h ↦ rw h (record {
        realsize = size;
        compsize = omega (arith, size, ap length (take_all b.blkrealsize b.blkdata size));
        arsize = omega (arith, size, ap length (take_all b.blkrealsize b.blkdata size));
        no_larger = omega (arith, ap length (take_all b.blkrealsize b.blkdata size));
        undone = inl (refl, take_all b.blkrealsize b.blkdata size);
      })
    ]

attempt_done :
    (c : Codecs) (b : BlockInfo) (algo level : ℕ)
    → b.blkrealsize ≡ length b.blkdata
    → c.supported algo ≡ true
    → attempt c b algo level ≡ some (c.compress algo b.blkdata (bufsize b) level)
unfolding attempt
attempt_done c b algo level size has = ground (arith, has, take_all b.blkrealsize b.blkdata size)

either_algo :
    (c : Codecs) (o : Options)
    → CodecLaws c o
    → (t : Bool)
    → (c.supported (if t then o.def_compress_algo else o.compressalgo) ≡ true)
      × (((if t then o.def_compress_algo else o.compressalgo) == compress_none) ≡ false)
either_algo c o l true = (l.has_default, l.real_default)
either_algo c o l false = (l.has_algo, l.real_algo)

compress_attempts-IsCompressed :
    (c : Codecs) (o : Options) (b : BlockInfo)
    → CodecLaws c o
    → b.blkrealsize ≡ length b.blkdata
    → (b' : BlockInfo) × (compress_attempts c o b ≡ (pos 0, b')) × IsCompressed c b.blkdata b'
unfolding compress_attempts
compress_attempts-IsCompressed c o b l size =
    let first = c.compress o.compressalgo b.blkdata (bufsize b) o.compresslevel in
    let done1 = attempt_done c b o.compressalgo o.compresslevel size l.has_algo in
    elim (Bool-cases (is_enomem first.0)) [
      | inr fine ↦ (
        keep_smaller b o.compressalgo first,
        ground (arith, fine, done1),
        keep_smaller-IsCompressed c b o.compressalgo first size l.real_algo l.has_algo
            (l.uncompresses o.compressalgo b.blkdata (bufsize b) o.compresslevel),
      )
      | inl again ↦
          let algo2 : ℕ = if tries_default o then o.def_compress_algo else o.compressalgo in
          let level2 : ℕ = if tries_default o then o.def_compress_level else o.compresslevel in
          let (has2, real2) = either_algo c o l (tries_default o) in
          (
            keep_smaller b algo2 (c.compress algo2 b.blkdata (bufsize b) level2),
            ground (arith, again, done1, attempt_done c b algo2 level2 size has2),
            keep_smaller-IsCompressed c b algo2 (c.compress algo2 b.blkdata (bufsize b) level2) size
                real2 has2 (l.uncompresses algo2 b.blkdata (bufsize b) level2),
          )
    ]

-- What the archive holds: data with their size and checksum, encrypted if the options say so.
record IsSealed (c : Codecs) (o : Options) (bytes : List ℕ) (b : BlockInfo) : Type 0 where
  arsize : b.blkarsize ≡ length b.blkdata
  arcsum : b.blkarcsum ≡ fletcher32 b.blkdata
  no_larger : length b.blkdata ≤ length bytes
  opened : BlockInfo
  decrypted : decrypt_block plenty c o b ≡ (pos 0, opened)
  compressed : IsCompressed c bytes opened

encrypt_and_sum-IsSealed :
    (c : Codecs) (o : Options) (bytes : List ℕ) (b : BlockInfo)
    → CodecLaws c o
    → length bytes < 2 ^ 32
    → IsCompressed c bytes b
    → (b' : BlockInfo) × (encrypt_and_sum plenty c o b ≡ (pos 0, b')) × IsSealed c o bytes b'
unfolding encrypt_and_sum decrypt_block
encrypt_and_sum-IsSealed c o bytes b l small k =
    elim (Bool-cases (o.encryptalgo == encrypt_blowfish)) [
      | inr plain ↦ (
        record b { blkcryptalgo = encrypt_none; blkarcsum = fletcher32 b.blkdata },
        ground (arith, plain, take_all b.blkarsize b.blkdata k.arsize),
        record {
          arsize = k.arsize;
          arcsum = refl;
          no_larger = k.no_larger;
          opened = record b { blkcryptalgo = encrypt_none; blkarcsum = fletcher32 b.blkdata };
          decrypted = refl;
          compressed = record {
            realsize = k.realsize;
            compsize = k.compsize;
            arsize = k.arsize;
            no_larger = k.no_larger;
            undone = k.undone;
          };
        },
      )
      | inl crypt ↦
          let (ok, same, back) = l.encrypts crypt b.blkdata in
          let out = (c.blowfish true o.encryptpass b.blkdata).1 in
          let sized : length out % 2 ^ 32 ≡ length out = omega (arith, same, k.no_larger, small) in
          let b' : BlockInfo = record b {
            blkdata = out;
            blkarsize = length out;
            blkcryptalgo = encrypt_blowfish;
            blkarcsum = fletcher32 out;
          } in
          (
            b',
            ground (
              arith,
              crypt,
              ok,
              sized,
              take_all b.blkcompsize b.blkdata k.compsize,
              take_all (length out) out refl,
            ),
            record {
              arsize = refl;
              arcsum = refl;
              no_larger = omega (arith, same, k.no_larger);
              opened = record b' { blkdata = b.blkdata };
              decrypted = ground (arith, crypt, back, k.compsize, take_all (length out) out refl);
              compressed = record {
                realsize = k.realsize;
                compsize = k.compsize;
                arsize = omega (arith, same);
                no_larger = k.no_larger;
                undone = k.undone;
              };
            },
          )
    ]

uncompress_block_opened :
    (c : Codecs) (bytes fresh : List ℕ) (b : BlockInfo)
    → length fresh ≡ length bytes
    → IsCompressed c bytes b
    → (b' : BlockInfo) × (uncompress_block c fresh b ≡ some (pos 0, b')) × (b'.blkdata ≡ bytes)
unfolding uncompress_block
uncompress_block_opened c bytes fresh b size k = (
  record b { blkdata = bytes },
  elim k.undone [
    | inl (none_used, same) ↦ ground (
      arith,
      none_used,
      same,
      size,
      k.arsize,
      take_all b.blkarsize b.blkdata k.arsize,
      memcpy_whole fresh bytes (sym size),
    )
    | inr (real, has, e) ↦ ground (
      arith,
      real,
      has,
      e,
      size,
      k.compsize,
      take_all b.blkcompsize b.blkdata k.compsize,
      memcpy_whole fresh bytes (sym size),
    )
  ],
  refl,
)

-- When memory suffices, the two algorithms that may be asked for are there, the compression can be
-- undone, and so can the encryption, if there is one: compressing a block of less than 2 ^ 32 bytes
-- succeeds, even where its compression fails or makes the data no smaller, and gives data with their
-- size and checksum that are no larger than the block's; decompressing those succeeds too, and gives
-- back the data of the block.
pub decompress_block_generic-compress_block_generic :
    (c : Codecs) (o : Options) (b : BlockInfo) (fresh : List ℕ)
    → CodecLaws c o
    → b.blkrealsize ≡ length b.blkdata
    → length b.blkdata < 2 ^ 32
    → length fresh ≡ length b.blkdata
    → (sent got : BlockInfo) × (compress_block_generic plenty c o b ≡ (pos 0, sent))
      × (sent.blkarsize ≡ length sent.blkdata)
      × (sent.blkarcsum ≡ fletcher32 sent.blkdata)
      × (length sent.blkdata ≤ length b.blkdata)
      × (decompress_block_generic plenty fresh c o sent ≡ some (pos 0, got))
      × (got.blkdata ≡ b.blkdata)
unfolding compress_block_generic decompress_block_generic
decompress_block_generic-compress_block_generic c o b fresh l size small room =
    let (b1, e1, k) = compress_attempts-IsCompressed c o b l size in
    let (sent, e2, s) = encrypt_and_sum-IsSealed c o b.blkdata b1 l small k in
    let (got, e3, same) = uncompress_block_opened c b.blkdata fresh s.opened room s.compressed in
    (
      sent,
      got,
      ground (arith, e1, e2),
      s.arsize,
      s.arcsum,
      s.no_larger,
      ground (
        arith,
        s.arsize,
        s.arcsum,
        s.decrypted,
        e3,
        take_all sent.blkarsize sent.blkdata s.arsize,
      ),
      same,
    )
