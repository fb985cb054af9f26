-- ===== src/Base/Arrays.antt =====
-- Arrays that are filled from the front.
use Prim.Native.Nat.{ℕ, zero, suc, ◌+◌, ◌≤◌, ◌<◌}
use mathlib.Core.Path.{◌≡◌, refl, sym, ap, ◌∙◌}
use mathlib.Core.List.{List, [], ◌∷◌, ◌++◌, append_assoc}
use mathlib.Core.Option.{some}
use native.Mathlib.Omega.{arith}
use fsarchiver.Base.Lists.{
  length, get_elem?, set, take, drop, memcpy, length-append, length-take, length-drop, take-append,
}

module _ {ℓ} {A : Type ℓ} where
  pub length-set : (xs : List A) (i : ℕ) (v : A) → length (set xs i v) ≡ length xs
  length-set [] i v = refl
  length-set (x ∷ xs) zero v = refl
  length-set (x ∷ xs) (suc i) v = ap suc (length-set xs i v)

  pub take-suc-set :
      (n : ℕ) (xs : List A) (v : A)
      → n < length xs
      → take (n + 1) (set xs n v) ≡ take n xs ++ (v ∷ [])
  take-suc-set zero [] v h = absurd (omega (arith, h))
  take-suc-set zero (x ∷ xs) v h = refl
  take-suc-set (suc n) [] v h = absurd (omega (arith, h))
  take-suc-set (suc n) (x ∷ xs) v h =
      ap (λ k. take k (set (x ∷ xs) (suc n) v)) {x = suc n + 1} {y = suc (n + 1)} (omega arith)
      ∙ ap (◌∷◌ x) (take-suc-set n xs v (omega (arith, h)))

  pub take-memcpy :
      (buf : List A) (u k : ℕ) (src : List A)
      → k ≡ u + length src
      → k ≤ length buf
      → take k (memcpy buf u src) ≡ take u buf ++ src
  take-memcpy buf u k src e h =
      ap (take k) (sym (append_assoc (take u buf) src (drop (u + length src) buf)))
      ∙ take-append k (take u buf ++ src) (drop (u + length src) buf)
          (omega (arith, e, h, length-append (take u buf) src, length-take u buf))

  pub length-memcpy :
      (buf : List A) (u : ℕ) (src : List A)
      → u + length src ≤ length buf
      → length (memcpy buf u src) ≡ length buf
  length-memcpy buf u src h = omega (
    arith,
    h,
    length-append (take u buf) (src ++ drop (u + length src) buf),
    length-append src (drop (u + length src) buf),
    length-take u buf,
    length-drop (u + length src) buf,
  )

  pub get_elem?-append :
      (xs : List A) (x : A) (ys : List A) → get_elem? (xs ++ (x ∷ ys)) (length xs) ≡ some x
  get_elem?-append [] x ys = refl
  get_elem?-append (y ∷ xs) x ys = get_elem?-append xs x ys

  pub get_elem?-take : (n i : ℕ) (xs : List A) → i < n → get_elem? xs i ≡ get_elem? (take n xs) i
  get_elem?-take zero i xs h = absurd (omega (arith, h))
  get_elem?-take (suc n) i [] h = refl
  get_elem?-take (suc n) zero (x ∷ xs) h = refl
  get_elem?-take (suc n) (suc i) (x ∷ xs) h = get_elem?-take n i xs (omega (arith, h))

  pub take_enough : (n : ℕ) (xs : List A) → length xs ≤ n → take n xs ≡ xs
  take_enough zero [] h = refl
  take_enough zero (x ∷ xs) h = absurd (omega (arith, h))
  take_enough (suc n) [] h = refl
  take_enough (suc n) (x ∷ xs) h = ap (◌∷◌ x) (take_enough n xs (omega (arith, h)))
