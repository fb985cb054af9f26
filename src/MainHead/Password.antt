-- ===== src/MainHead/Password.antt =====
-- oper_restore.c: the test of the password in the main header.
use fsarchiver.Base.{
  ℕ, ◌+◌, ◌≤◌, ◌≡◌, refl, ap, sym, ◌∙◌, true, false, some, List, ◌++◌, arith, bytes_eq_refl,
  append-nil, length, take, take-append, drop, replicate,
}
use fsarchiver.Base.Int.{ℤ, pos}
use fsarchiver.Dico.{Dico, dico_get_data}
use fsarchiver.Dico.Lookup.{lookup}
use fsarchiver.ThreadComp.{Codecs}
use fsarchiver.Target.{Digest}
use fsarchiver.ArchReader.Blocks.{Stack}
use fsarchiver.MainHead.{HeadOptions, password, checkpassbuf_size, check_password}
use fsarchiver.MainHead.Key
use fsarchiver.MainHead.Items.{data_item}
use fsarchiver.MainHead.Fields.{get_bytes}

-- What the cipher and the digest do on the random bytes of the test; the password has a length that is
-- allowed.
pub record Decrypts (codecs : Codecs) (digest : Digest) (o : HeadOptions) (random : List ℕ)
    : Type 0 where
  pub digest_size : length (digest.md5 random) ≡ 16
  pub crypted_size : length (codecs.blowfish true (password o) random).1 ≡ checkpassbuf_size
  pub decrypted :
      codecs.blowfish false (password o) (codecs.blowfish true (password o) random).1
      ≡ (pos 0, random)
  pub long_enough : 6 ≤ length (password o)
  pub short_enough : length (password o) ≤ 64

check_steps :
    (codecs : Codecs) (digest : Digest) (stack : Stack) (o : HeadOptions) (random buf : List ℕ)
    (d : Dico)
    → dico_get_data d 0 Key.bufcheckpassclearmd5 (replicate 16 0) (16 + 99)
      ≡ (pos 0, digest.md5 random, 16)
    → dico_get_data d 0 Key.bufcheckpasscryptbuf (stack 11) (checkpassbuf_size + 8)
      ≡ (pos 0, buf, checkpassbuf_size)
    → codecs.blowfish false (password o) (take checkpassbuf_size buf) ≡ (pos 0, random)
    → 6 ≤ length (password o)
    → length (password o) ≤ 64
    → check_password codecs digest stack o d ≡ some true
unfolding check_password
check_steps codecs digest stack o random buf d g1 g2 c l1 l2 =
    rw (check_password, g1, g2, c, bytes_eq_refl (digest.md5 random)) (ground (arith, l1, l2))

whole_sum :
    (md5 : List ℕ)
    → length md5 ≡ 16
    → ◌≡◌ {A = ℤ × List ℕ × ℕ}
        (pos 0, md5 ++ drop (length md5) (replicate 16 0), length md5)
        (pos 0, md5, 16)
whole_sum md5 e = rw (e, append-nil md5) refl

pub check_password_ok :
    (codecs : Codecs) (digest : Digest) (stack : Stack) (o : HeadOptions) (random : List ℕ)
    (d : Dico)
    → Decrypts codecs digest o random
    → lookup d 0 Key.bufcheckpassclearmd5
      ≡ some (data_item Key.bufcheckpassclearmd5 (digest.md5 random))
    → lookup d 0 Key.bufcheckpasscryptbuf
      ≡ some (data_item Key.bufcheckpasscryptbuf (codecs.blowfish true (password o) random).1)
    → check_password codecs digest stack o d ≡ some true
check_password_ok codecs digest stack o random d h f1 f2 =
    let md5 = digest.md5 random in
    let crypted = (codecs.blowfish true (password o) random).1 in
    let g1 =
      get_bytes d Key.bufcheckpassclearmd5 115 md5 (replicate 16 0) (omega (arith, h.digest_size))
        (omega (arith, h.digest_size)) f1 in
    let g2 =
      get_bytes d Key.bufcheckpasscryptbuf 4104 crypted (stack 11) (omega (arith, h.crypted_size))
        (omega (arith, h.crypted_size)) f2 in
    let spare = drop (length crypted) (stack 11) in
    let whole = take-append checkpassbuf_size crypted spare (sym h.crypted_size) in
    check_steps codecs digest stack o random (crypted ++ spare) d (g1 ∙ whole_sum md5 h.digest_size)
      (g2 ∙ ap (λ n. (pos 0, crypted ++ spare, n)) h.crypted_size)
      (ap (codecs.blowfish false (password o)) whole ∙ h.decrypted) h.long_enough h.short_enough
