-- ===== src/Fletcher/Spec.antt =====
-- common.c: `fletcher32` against the two sums that it stands for, taken modulo 65535.
use fsarchiver.Base.{
  ℕ, zero, suc, ◌+◌, ◌*◌, ◌%◌, ◌^◌, ◌≤◌, ◌<◌, ◌≡◌, refl, ◌∙◌, ap, sym, subst, List, [], ◌∷◌, ◌++◌,
  arith, ltb, if◌then◌else◌, length, take, drop, length-take, length-drop, take-append-drop,
}
use Prim.Native.Nat.{bit_or}
use fsarchiver.Base.Bits.{bit_or-shifted, bit_or_lt}
use fsarchiver.Fletcher.{add32, sum_block, fold, fletcher_loop, fletcher32}

abbrev pub AllBytes : List ℕ → Type 0
AllBytes [] = Unit {0}
AllBytes (b ∷ bs) = (b < 256) × AllBytes bs

-- The two sums with no reduction: of the bytes, and of the first sum after each byte.
unfoldable pub sum_of : List ℕ → ℕ → ℕ
sum_of [] s = s
sum_of (b ∷ bs) s = sum_of bs (s + b)

unfoldable pub sum_of_sums : List ℕ → ℕ → ℕ → ℕ
sum_of_sums [] s t = t
sum_of_sums (b ∷ bs) s t = sum_of_sums bs (s + b) (t + (s + b))

-- The remainder modulo 65535 with 65535 in place of 0.
abbrev pub residue : ℕ → ℕ
residue s = (s + 65534) % 65535 + 1

-- A block of at most 360 bytes does not overflow: `sum_block` is the plain sums.
sum_block_lem :
    (t : ℕ) (bs : List ℕ) (s1 s2 : ℕ)
    → AllBytes bs
    → s1 + 255 * t ≤ 230000
    → s2 + 230000 * t < 2 ^ 32
    → sum_block t bs s1 s2 ≡ (sum_of (take t bs) s1, sum_of_sums (take t bs) s1 s2, drop t bs)
unfolding sum_block sum_of sum_of_sums
sum_block_lem zero bs s1 s2 a h1 h2 = refl
sum_block_lem (suc t) [] s1 s2 a h1 h2 = refl
sum_block_lem (suc t) (b ∷ bs) s1 s2 a h1 h2 =
    let e1 : add32 s1 b ≡ s1 + b = omega arith in
    let e2 : add32 s2 (s1 + b) ≡ s2 + (s1 + b) = omega arith in
    rw (e1, e2) (sum_block_lem t bs (s1 + b) (s2 + (s1 + b)) a.1 (omega arith) (omega arith))

-- Both sums respect congruence modulo 65535.
sum_of_cong :
    (bs : List ℕ) (s s' : ℕ) → s % 65535 ≡ s' % 65535 → sum_of bs s % 65535 ≡ sum_of bs s' % 65535
unfolding sum_of
sum_of_cong [] s s' e = e
sum_of_cong (b ∷ bs) s s' e = sum_of_cong bs (s + b) (s' + b) (omega arith)

sum_of_sums_cong :
    (bs : List ℕ) (s s' t t' : ℕ)
    → s % 65535 ≡ s' % 65535
    → t % 65535 ≡ t' % 65535
    → sum_of_sums bs s t % 65535 ≡ sum_of_sums bs s' t' % 65535
unfolding sum_of_sums
sum_of_sums_cong [] s s' t t' e f = f
sum_of_sums_cong (b ∷ bs) s s' t t' e f =
    sum_of_sums_cong bs (s + b) (s' + b) (t + (s + b)) (t' + (s' + b)) (omega arith) (omega arith)

pub sum_of-append : (xs ys : List ℕ) (s : ℕ) → sum_of (xs ++ ys) s ≡ sum_of ys (sum_of xs s)
unfolding sum_of
sum_of-append [] ys s = refl
sum_of-append (x ∷ xs) ys s = sum_of-append xs ys (s + x)

pub sum_of_sums-append :
    (xs ys : List ℕ) (s t : ℕ)
    → sum_of_sums (xs ++ ys) s t ≡ sum_of_sums ys (sum_of xs s) (sum_of_sums xs s t)
unfolding sum_of sum_of_sums
sum_of_sums-append [] ys s t = refl
sum_of_sums-append (x ∷ xs) ys s t = sum_of_sums-append xs ys (s + x) (t + (s + x))

sum_of_ge : (bs : List ℕ) (s : ℕ) → s ≤ sum_of bs s
unfolding sum_of
sum_of_ge [] s = omega arith
sum_of_ge (b ∷ bs) s = omega (arith, sum_of_ge bs (s + b))

sum_of_sums_ge : (bs : List ℕ) (s t : ℕ) → t ≤ sum_of_sums bs s t
unfolding sum_of_sums
sum_of_sums_ge [] s t = omega arith
sum_of_sums_ge (b ∷ bs) s t = omega (arith, sum_of_sums_ge bs (s + b) (t + (s + b)))

-- One folding keeps the residue, and brings a u32 under 2 ^ 17.
pub fold_lem :
    (s : ℕ) → s < 2 ^ 32 → 0 < s → (fold s % 65535 ≡ s % 65535) × (fold s ≤ 0x1fffe) × (0 < fold s)
unfolding fold
fold_lem s h p = omega arith

-- The second folding leaves the residue itself.
pub fold-residue : (s : ℕ) → s ≤ 0x1fffe → 0 < s → fold s ≡ residue s
unfolding fold
fold-residue s h p = omega arith

AllBytes-take : (n : ℕ) (bs : List ℕ) → AllBytes bs → AllBytes (take n bs)
AllBytes-take zero bs a = tt
AllBytes-take (suc n) [] a = tt
AllBytes-take (suc n) (b ∷ bs) a = (a.0, AllBytes-take n bs a.1)

AllBytes-drop : (n : ℕ) (bs : List ℕ) → AllBytes bs → AllBytes (drop n bs)
AllBytes-drop zero bs a = a
AllBytes-drop (suc n) [] a = tt
AllBytes-drop (suc n) (b ∷ bs) a = AllBytes-drop n bs a.1

sum_of_le : (bs : List ℕ) (s : ℕ) → AllBytes bs → sum_of bs s ≤ s + 255 * length bs
unfolding sum_of
sum_of_le [] s a = omega arith
sum_of_le (b ∷ bs) s a = omega (arith, sum_of_le bs (s + b) a.1)

sum_of_sums_le :
    (bs : List ℕ) (s t : ℕ)
    → AllBytes bs
    → s + 255 * length bs ≤ 230000
    → sum_of_sums bs s t ≤ t + 230000 * length bs
unfolding sum_of_sums
sum_of_sums_le [] s t a h = omega arith
sum_of_sums_le (b ∷ bs) s t a h =
    omega (arith, sum_of_sums_le bs (s + b) (t + (s + b)) a.1 (omega arith))

-- Where the loop stands: in range, and congruent to the plain sums.
record Sums (s1 s2 : ℕ) (r : ℕ × ℕ) : Type 0 where
  first : r.0 % 65535 ≡ s1 % 65535
  second : r.1 % 65535 ≡ s2 % 65535
  first_range : (0 < r.0) × (r.0 ≤ 0x1fffe)
  second_range : (0 < r.1) × (r.1 ≤ 0x1fffe)

-- One round: a block, and both foldings.
round_Sums :
    (bs : List ℕ) (s1 s2 : ℕ)
    → AllBytes bs
    → length bs ≤ 360
    → (0 < s1) × (s1 ≤ 0x1fffe)
    → (0 < s2) × (s2 ≤ 0x1fffe)
    → Sums (sum_of bs s1) (sum_of_sums bs s1 s2) (fold (sum_of bs s1), fold (sum_of_sums bs s1 s2))
round_Sums bs s1 s2 a l r1 r2 =
    let b1 = sum_of_le bs s1 a in
    let b2 = sum_of_sums_le bs s1 s2 a (omega arith) in
    let f1 = fold_lem (sum_of bs s1) (omega arith) (omega (arith, sum_of_ge bs s1)) in
    let f2 =
      fold_lem (sum_of_sums bs s1 s2) (omega arith) (omega (arith, sum_of_sums_ge bs s1 s2)) in
    record { first = f1.0; second = f2.0; first_range = (f1.2, f1.1); second_range = (f2.2, f2.1) }

-- Two stretches of the data, one after the other.
Sums-append :
    (xs ys : List ℕ) (s1 s2 t1 t2 : ℕ) (r : ℕ × ℕ)
    → Sums (sum_of xs s1) (sum_of_sums xs s1 s2) (t1, t2)
    → Sums (sum_of ys t1) (sum_of_sums ys t1 t2) r
    → Sums (sum_of (xs ++ ys) s1) (sum_of_sums (xs ++ ys) s1 s2) r
Sums-append xs ys s1 s2 t1 t2 r p q = record {
  first =
      q.first
      ∙ sum_of_cong ys t1 (sum_of xs s1) p.first
      ∙ ap (λ n. n % 65535) (sym (sum_of-append xs ys s1));
  second =
      q.second
      ∙ sum_of_sums_cong ys t1 (sum_of xs s1) t2 (sum_of_sums xs s1 s2) p.first p.second
      ∙ ap (λ n. n % 65535) (sym (sum_of_sums-append xs ys s1 s2));
  first_range = q.first_range;
  second_range = q.second_range;
}

-- The body of the loop, given what the rounds after it do.
fletcher_round-Sums :
    (fuel n : ℕ) (bs : List ℕ) (s1 s2 : ℕ)
    → AllBytes bs
    → n ≤ 360
    → (0 < s1) × (s1 ≤ 0x1fffe)
    → (0 < s2) × (s2 ≤ 0x1fffe)
    → ((t1 t2 : ℕ)
        → (0 < t1) × (t1 ≤ 0x1fffe)
        → (0 < t2) × (t2 ≤ 0x1fffe)
        → Sums
            (sum_of (drop n bs) t1)
            (sum_of_sums (drop n bs) t1 t2)
            (fletcher_loop fuel (drop n bs) t1 t2))
    → let (a1, a2, rest) = sum_block n bs s1 s2 in
      Sums (sum_of bs s1) (sum_of_sums bs s1 s2) (fletcher_loop fuel rest (fold a1) (fold a2))
fletcher_round-Sums fuel n bs s1 s2 a h r1 r2 later =
    let xs = take n bs in
    let p = round_Sums xs s1 s2 (AllBytes-take n bs a) (omega (arith, length-take n bs)) r1 r2 in
    let q =
      later (fold (sum_of xs s1)) (fold (sum_of_sums xs s1 s2)) p.first_range p.second_range in
    rw (sum_block_lem n bs s1 s2 a (omega arith) (omega arith)) (
      subst
        (λ ys.
          Sums (sum_of ys s1) (sum_of_sums ys s1 s2)
            (fletcher_loop fuel (drop n bs) (fold (sum_of xs s1)) (fold (sum_of_sums xs s1 s2))))
        (take-append-drop n bs) (Sums-append xs (drop n bs) s1 s2 _ _ _ p q))

fletcher_loop-Sums :
    (fuel : ℕ) (bs : List ℕ) (s1 s2 : ℕ)
    → length bs ≤ fuel
    → AllBytes bs
    → (0 < s1) × (s1 ≤ 0x1fffe)
    → (0 < s2) × (s2 ≤ 0x1fffe)
    → Sums (sum_of bs s1) (sum_of_sums bs s1 s2) (fletcher_loop fuel bs s1 s2)
unfolding fletcher_loop
fletcher_loop-Sums fuel [] s1 s2 h a r1 r2 = unfold sum_of sum_of_sums in omega arith
fletcher_loop-Sums zero (b ∷ bs) s1 s2 h a r1 r2 = absurd (omega arith)
fletcher_loop-Sums (suc fuel) (b ∷ bs) s1 s2 h a r1 r2 =
    fletcher_round-Sums fuel tlen (b ∷ bs) s1 s2 a (ground arith) r1 r2 (λ t1 t2 q1 q2.
      fletcher_loop-Sums fuel (drop tlen (b ∷ bs)) t1 t2 shorter (AllBytes-drop tlen (b ∷ bs) a) q1
        q2)
  where
    tlen : ℕ
    tlen = if ltb 360 (length (b ∷ bs)) then 360 else length (b ∷ bs)

    shorter : length (drop tlen (b ∷ bs)) ≤ fuel
    shorter = ground (arith, length-drop tlen (b ∷ bs))

-- `fletcher32` of any data is the residue of the sum of the bytes in its low half and that of the
-- sum of all partial sums in its high half: none of its 32-bit additions overflows, and cutting the
-- data into blocks of 360 bytes makes no difference.
pub fletcher32_lem :
    (bs : List ℕ)
    → AllBytes bs
    → fletcher32 bs ≡ residue (sum_of_sums bs 0 0) * 2 ^ 16 + residue (sum_of bs 0)
unfolding fletcher32
fletcher32_lem bs a = join r sums
  where
    r : ℕ × ℕ
    r = fletcher_loop (length bs) bs 0xffff 0xffff

    sums : Sums (sum_of bs 0xffff) (sum_of_sums bs 0xffff 0xffff) r
    sums =
        fletcher_loop-Sums (length bs) bs 0xffff 0xffff (omega arith) a (omega arith) (omega arith)

    join :
        (r : ℕ × ℕ)
        → Sums (sum_of bs 0xffff) (sum_of_sums bs 0xffff 0xffff) r
        → bit_or (fold r.1 * 2 ^ 16 % 2 ^ 32) (fold r.0)
          ≡ residue (sum_of_sums bs 0 0) * 2 ^ 16 + residue (sum_of bs 0)
    join r s =
        let e1 : fold r.0 ≡ residue (sum_of bs 0) =
          omega (arith, fold-residue r.0, s, sum_of_cong bs 0xffff 0 (omega arith)) in
        let e2 : fold r.1 ≡ residue (sum_of_sums bs 0 0) = omega (
          arith,
          fold-residue r.1,
          s,
          sum_of_sums_cong bs 0xffff 0 0xffff 0 (omega arith) (omega arith),
        ) in
        let e3 : fold r.1 * 2 ^ 16 % 2 ^ 32 ≡ fold r.1 * 2 ^ 16 = omega arith in
        rw e3 (omega (arith, bit_or-shifted 16 (fold r.1) (fold r.0) (omega arith)))

-- The checksum is a u32, whatever the data.
pub fletcher32-lt : (bs : List ℕ) → fletcher32 bs < 2 ^ 32
unfolding fletcher32 fold
fletcher32-lt bs = bit_or_lt 32 _ _ (omega arith) (omega arith)
