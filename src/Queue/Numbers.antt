-- ===== src/Queue/Numbers.antt =====
-- queue.c: lists of item numbers, none of which stands twice, stands in another list, or is too large.
use fsarchiver.Base.{ℕ, ◌≤◌, ◌<◌, ◌≡◌, refl, Bool, false, ◌||◌, List, [], ◌∷◌, ◌++◌, arith, ◌==◌}

unfoldable pub is_in : ℕ → List ℕ → Bool
is_in n [] = false
is_in n (x ∷ xs) = n == x || is_in n xs

unfoldable pub NoRepeat : List ℕ → Type 0
NoRepeat [] = Unit
NoRepeat (x ∷ xs) = (is_in x xs ≡ false) × NoRepeat xs

unfoldable pub NoneIn : List ℕ → List ℕ → Type 0
NoneIn handed [] = Unit
NoneIn handed (x ∷ xs) = (is_in x handed ≡ false) × NoneIn handed xs

unfoldable pub AllBelow : ℕ → List ℕ → Type 0
AllBelow n [] = Unit
AllBelow n (x ∷ xs) = (x < n) × AllBelow n xs

pub AllBelow-not_in : (n : ℕ) (xs : List ℕ) → AllBelow n xs → is_in n xs ≡ false
unfolding AllBelow is_in
AllBelow-not_in n [] h = refl
AllBelow-not_in n (x ∷ xs) (h, hs) = ground (arith, h, AllBelow-not_in n xs hs)

pub AllBelow-more : (n m : ℕ) (xs : List ℕ) → n ≤ m → AllBelow n xs → AllBelow m xs
unfolding AllBelow
AllBelow-more n m [] le h = tt
AllBelow-more n m (x ∷ xs) le (h, hs) = (omega (arith, h, le), AllBelow-more n m xs le hs)

pub NoneIn-append :
    (handed xs ys : List ℕ) → NoneIn handed xs → NoneIn handed ys → NoneIn handed (xs ++ ys)
unfolding NoneIn
NoneIn-append handed [] ys h k = k
NoneIn-append handed (x ∷ xs) ys (h, hs) k = (h, NoneIn-append handed xs ys hs k)

pub is_in-append : (n : ℕ) (xs ys : List ℕ) → is_in n (xs ++ ys) ≡ (is_in n xs || is_in n ys)
unfolding is_in
is_in-append n [] ys = refl
is_in-append n (x ∷ xs) ys = ground (arith, is_in-append n xs ys)

pub NoneIn-split : (xs ys zs : List ℕ) → NoneIn (xs ++ ys) zs → NoneIn xs zs × NoneIn ys zs
unfolding NoneIn
NoneIn-split xs ys [] h = (tt, tt)
NoneIn-split xs ys (z ∷ zs) (h, hs) =
    let (a, b) = NoneIn-split xs ys zs hs in
    ((ground (arith, h, is_in-append z xs ys), a), (ground (arith, h, is_in-append z xs ys), b))

pub NoneIn-head :
    (x : ℕ) (xs zs : List ℕ) → NoneIn (x ∷ xs) zs → (is_in x zs ≡ false) × NoneIn xs zs
unfolding NoneIn is_in
NoneIn-head x xs [] h = (refl, tt)
NoneIn-head x xs (z ∷ zs) (h, hs) =
    let (a, b) = NoneIn-head x xs zs hs in (ground (arith, h, a), (ground (arith, h), b))

pub NoRepeat-append :
    (xs zs : List ℕ) → NoRepeat xs → NoRepeat zs → NoneIn xs zs → NoRepeat (xs ++ zs)
unfolding NoRepeat
NoRepeat-append [] zs h k a = k
NoRepeat-append (x ∷ xs) zs (h, hs) k a =
    let (b, c) = NoneIn-head x xs zs a in
    (ground (arith, h, b, is_in-append x xs zs), NoRepeat-append xs zs hs k c)
