-- ===== src/Strdico/Number.antt =====
-- strdico.c, strdico_get_s64: the number that `strtoll` reads in base ten, as the C library defines it.
use fsarchiver.Base.{
  ℕ, ◌+◌, ◌-◌, ◌*◌, ◌^◌, Bool, true, false, ◌&&◌, ◌||◌, List, [], ◌∷◌, ltb, ◌==◌, if◌then◌else◌,
}
use fsarchiver.Base.Int.{ℤ, pos, negsuc}

abbrev pub is_space : ℕ → Bool
is_space c = (c == 32) || (ltb 8 c && ltb c 14)

abbrev pub is_digit : ℕ → Bool
is_digit c = ltb 47 c && ltb c 58

unfoldable pub skip_spaces : List ℕ → List ℕ
skip_spaces [] = []
skip_spaces (c ∷ text) = let later = skip_spaces text in if is_space c then later else c ∷ text

-- The digits from here on, on top of `n`, and what follows them.
unfoldable pub read_digits : ℕ → List ℕ → ℕ × List ℕ
read_digits n [] = (n, [])
read_digits n (c ∷ text) =
    let later = read_digits (n * 10 + (c - 48)) text in if is_digit c then later else (n, c ∷ text)

-- The number is kept to the range of 64 bits, and a number out of range is reported.
unfoldable pub signed_value : Bool → ℕ → ℤ × Bool
signed_value negative n =
    if negative
    then (if n == 0
        then (pos 0, false)
        else if ltb (2 ^ 63) n
        then (negsuc (2 ^ 63 - 1), true)
        else (negsuc (n - 1), false))
    else if ltb n (2 ^ 63)
    then (pos n, false)
    else (pos (2 ^ 63 - 1), true)

-- The number, whether it was out of range, and the text behind it: the whole text where there is no
-- digit.
unfoldable pub read_signed : Bool → List ℕ → List ℕ → ℤ × Bool × List ℕ
read_signed negative whole [] = (pos 0, false, whole)
read_signed negative whole (c ∷ text) =
    let (n, rest) = read_digits 0 (c ∷ text) in
    let (value, range_error) = signed_value negative n in
    if is_digit c then (value, range_error, rest) else (pos 0, false, whole)

unfoldable pub read_number : List ℕ → List ℕ → ℤ × Bool × List ℕ
read_number whole [] = (pos 0, false, whole)
read_number whole (c ∷ text) =
    let minus = read_signed true whole text in
    let plus = read_signed false whole text in
    let unsigned = read_signed false whole (c ∷ text) in
    if c == 45 then minus else if c == 43 then plus else unsigned

unfoldable pub strtoll : List ℕ → ℤ × Bool × List ℕ
strtoll text = read_number text (skip_spaces text)
