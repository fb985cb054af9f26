-- ===== src/Strlist/Distinct.antt =====
-- strlist.c: no string stands twice in a list.
use fsarchiver.Base.{
  ℕ, ◌+◌, ◌≡◌, refl, true, false, List, [], ◌∷◌, ◌++◌, arith, ◌==◌, if◌then◌else◌, bytes_eq,
  bytes_eq-eq, bytes_eq_refl, length, Bool-cases, inl, inr, ap, subst,
}
use fsarchiver.Base.Int.{is_error}
use fsarchiver.Dico.{Memory}
use fsarchiver.Strlist.{Strlist, strlist_exists, strlist_add, strlist_remove, strlist_count}

-- No string is empty or stands twice.
abbrev pub IsStrlist : Strlist → Type 0
IsStrlist [] = Unit {0}
IsStrlist (item ∷ rest) =
    ((length item == 0) ≡ false) × (strlist_exists rest item ≡ false) × IsStrlist rest

pub bytes_eq_sym : (x y : List ℕ) → bytes_eq x y ≡ false → bytes_eq y x ≡ false
bytes_eq_sym x y h = elim (Bool-cases (bytes_eq y x)) [
  | inr e ↦ e
  | inl e ↦ ground (arith, h, bytes_eq_refl x, ap (bytes_eq x) (bytes_eq-eq y x e))
]

pub strlist_exists-append :
    (l : Strlist) (item str : List ℕ)
    → strlist_exists (l ++ (item ∷ [])) str
      ≡ (if strlist_exists l str then true else bytes_eq item str)
unfolding strlist_exists
strlist_exists-append [] item str = ground arith
strlist_exists-append (x ∷ l) item str = ground (arith, strlist_exists-append l item str)

IsStrlist-append :
    (l : Strlist) (str : List ℕ)
    → IsStrlist l
    → (length str == 0) ≡ false
    → strlist_exists l str ≡ false
    → IsStrlist (l ++ (str ∷ []))
unfolding strlist_exists
IsStrlist-append [] str i e h = (e, refl, tt)
IsStrlist-append (x ∷ l) str (f, g, i) e h = (
  f,
  ground (arith, g, strlist_exists-append l str x, bytes_eq_sym x str (ground (arith, h))),
  IsStrlist-append l str i e (ground (arith, h)),
)

-- A call of `strlist_add` keeps the strings distinct and not empty, whatever it answers; when it
-- succeeds, the string is there and was not there before.
pub strlist_add-IsStrlist :
    (mem : Memory) (l : Strlist) (str : List ℕ)
    → IsStrlist l
    → IsStrlist (strlist_add mem l str).1
      × (strlist_exists (strlist_add mem l str).1 str
          ≡ (if is_error (strlist_add mem l str).0 then strlist_exists l str else true))
unfolding strlist_add
strlist_add-IsStrlist mem l str i =
    ground (arith, IsStrlist-append l str i, strlist_exists-append l str str, bytes_eq_refl str)

exists_in_rest :
    (l : Strlist) (str str' : List ℕ)
    → strlist_exists l str' ≡ false
    → strlist_exists (strlist_remove l str).1 str' ≡ false
unfolding strlist_exists strlist_remove
exists_in_rest [] str str' h = refl
exists_in_rest (x ∷ l) str str' h = ground (arith, h, exists_in_rest l str str')

removed :
    (l : Strlist) (x str : List ℕ)
    → bytes_eq x str ≡ true
    → strlist_exists l x ≡ false
    → strlist_exists l str ≡ false
removed l x str e h = subst (λ s. strlist_exists l s ≡ false) (bytes_eq-eq x str e) h

-- After `strlist_remove` of a list of distinct strings the string is not there any more, the list is
-- still one of distinct strings, and it is shorter by one exactly when the call succeeds.
pub strlist_remove-IsStrlist :
    (l : Strlist) (str : List ℕ)
    → IsStrlist l
    → IsStrlist (strlist_remove l str).1
      × (strlist_exists (strlist_remove l str).1 str ≡ false)
      × (strlist_count l
          ≡ strlist_count (strlist_remove l str).1
            + (if is_error (strlist_remove l str).0 then 0 else 1))
unfolding strlist_remove strlist_exists strlist_count
strlist_remove-IsStrlist [] str i = (tt, refl, refl)
strlist_remove-IsStrlist (x ∷ l) str (f, g, i) =
    let (i', h, n) = strlist_remove-IsStrlist l str i in
    elim (Bool-cases (bytes_eq x str)) [
      | inl e ↦ rw e (i, removed l x str e g, omega arith)
      | inr e ↦ rw e ((f, exists_in_rest l str x g, i'), ground (arith, e, h), omega (arith, n))
    ]
