-- ===== src/Strdico/Values.antt =====
-- strdico.c, strdico_get_s64: a number that was set in decimal digits is read back.
use fsarchiver.Base.{
  ℕ, zero, suc, ◌+◌, ◌-◌, ◌*◌, ◌/◌, ◌%◌, ◌^◌, ◌≤◌, ◌<◌, ◌≡◌, refl, sym, ap, ◌∙◌, true, false, List,
  [], ◌∷◌, ◌++◌, arith, ltb, ◌==◌, bytes_eq_refl, length, length-append, Bool-cases, inl, inr,
}
use fsarchiver.Base.Arrays.{take_enough}
use fsarchiver.Base.Int.{pos}
use fsarchiver.Base.Code
use fsarchiver.Dico.{plenty}
use fsarchiver.ArchWriter.Volumes.{digits}
use fsarchiver.Strdico.{Strdico, strdico_set_value, strdico_get_s64}
use fsarchiver.Strdico.Lookup.{accepts, strdico_get_string-strdico_set_value}
use fsarchiver.Strdico.Number.{
  is_digit, skip_spaces, read_digits, signed_value, read_signed, read_number, strtoll,
}

read_digits-snoc :
    (m k c : ℕ) (str : List ℕ)
    → is_digit c ≡ true
    → read_digits m str ≡ (k, [])
    → read_digits m (str ++ (c ∷ [])) ≡ (k * 10 + (c - 48), [])
unfolding read_digits
read_digits-snoc m k c [] e h = ground (arith, e, ap (λ r. r.0) h)
read_digits-snoc m k c (x ∷ str) e h = elim (Bool-cases (is_digit x)) [
  | inl d ↦ rw d (read_digits-snoc (m * 10 + (x - 48)) k c str e (rw d at h))
  | inr d ↦ absurd (ground (arith, d, ap (λ r. length r.1) h))
]

read_digits-digits : (fuel n : ℕ) → n < fuel → read_digits 0 (digits fuel n) ≡ (n, [])
unfolding digits read_digits
read_digits-digits zero n h = absurd (omega (arith, h))
read_digits-digits (suc fuel) n h = elim (Bool-cases (ltb n 10)) [
  | inl e ↦ rw e (ground (arith, e))
  | inr e ↦ rw e (
      read_digits-snoc 0 (n / 10) (48 + n % 10) (digits fuel (n / 10)) (ground arith)
        (read_digits-digits fuel (n / 10) (ground (arith, e, h)))
      ∙ ground arith)
]

length-digits : (fuel n k : ℕ) → n < 10 ^ suc k → length (digits fuel n) ≤ suc k
unfolding digits
length-digits zero n k h = omega arith
length-digits (suc fuel) n zero h = ground (arith, h)
length-digits (suc fuel) n (suc k) h =
    let ih = length-digits fuel (n / 10) k (omega (arith, h)) in
    ground (arith, ih, length-append (digits fuel (n / 10)) ((48 + n % 10) ∷ []))

-- The digits begin with a digit.
digits-first :
    (fuel n : ℕ)
    → n < fuel
    → (c : ℕ) × (text : List ℕ) × (digits fuel n ≡ c ∷ text) × (is_digit c ≡ true)
unfolding digits
digits-first zero n h = absurd (omega (arith, h))
digits-first (suc fuel) n h = elim (Bool-cases (ltb n 10)) [
  | inl e ↦ rw e (48 + n, [], refl, ground (arith, e))
  | inr e ↦
      let (c, text, s, d) = digits-first fuel (n / 10) (ground (arith, e, h)) in
      rw e (c, text ++ ((48 + n % 10) ∷ []), ap (λ l. l ++ ((48 + n % 10) ∷ [])) s, d)
]

strtoll_first :
    (c : ℕ) (text : List ℕ) (n : ℕ)
    → is_digit c ≡ true
    → n < 2 ^ 63
    → read_digits 0 (c ∷ text) ≡ (n, [])
    → strtoll (c ∷ text) ≡ (pos n, false, [])
unfolding strtoll read_number read_signed skip_spaces signed_value
strtoll_first c text n d h e = ground (arith, d, h, e)

strtoll-digits : (n : ℕ) → n < 2 ^ 63 → strtoll (digits (suc n) n) ≡ (pos n, false, [])
strtoll-digits n h =
    let (c, text, s, d) = digits-first (suc n) n (omega arith) in
    ap strtoll s
    ∙ strtoll_first c text n d h
        (ap (read_digits 0) (sym s) ∙ read_digits-digits (suc n) n (omega arith))

digits_not_empty : (n : ℕ) → (length (digits (suc n) n) == 0) ≡ false
digits_not_empty n =
    let (c, text, s, d) = digits-first (suc n) n (omega arith) in rw s (ground arith)

-- A number of 63 bits whose decimal digits are set for a key is read back as this number, when memory
-- suffices and the restriction allows the key.
pub strdico_get_s64-strdico_set_value :
    (d : Strdico) (key : List ℕ) (n : ℕ)
    → accepts d.validkeys key ≡ true
    → n < 2 ^ 63
    → strdico_get_s64 (strdico_set_value plenty d key (digits (suc n) n)).1 key
      ≡ (Code.success, pos n)
unfolding strdico_get_s64
strdico_get_s64-strdico_set_value d key n e h =
    let value = digits (suc n) n in
    let stored = strdico_get_string-strdico_set_value d key value key 1024 in
    let short = length-digits (suc n) n 18 (omega (arith, h)) in
    let whole = take_enough 1023 value (omega (arith, short)) in
    ground (arith, stored.1, e, bytes_eq_refl key, whole, strtoll-digits n h, digits_not_empty n)
