-- ===== src/Dichl/Lookup.antt =====
-- dichl.c: what is found after an addition.
use fsarchiver.Base.{
  ℕ, ◌-◌, ◌<◌, ◌≡◌, refl, false, ◌&&◌, some, List, [], ◌∷◌, ◌++◌, arith, ◌==◌, if◌then◌else◌,
  length,
}
use fsarchiver.Base.Arrays.{take_enough}
use fsarchiver.Base.Int.{pos, is_error}
use fsarchiver.Dico.{Memory}
use fsarchiver.Dichl.{Dichl, DichlItem, has_keys, has_duplicate, dichl_add, dichl_get}

get_behind :
    (d : Dichl) (item : DichlItem) (key1 key2 bufsize : ℕ)
    → has_duplicate d key1 key2 ≡ false
    → dichl_get (d ++ (item ∷ [])) key1 key2 bufsize ≡ dichl_get (item ∷ []) key1 key2 bufsize
unfolding has_duplicate dichl_get
get_behind [] item key1 key2 bufsize h = refl
get_behind (x ∷ d) item key1 key2 bufsize h = ground (arith, h, get_behind d item key1 key2 bufsize)

get_other :
    (d : Dichl) (item : DichlItem) (key1 key2 bufsize : ℕ)
    → has_keys key1 key2 item ≡ false
    → dichl_get (d ++ (item ∷ [])) key1 key2 bufsize ≡ dichl_get d key1 key2 bufsize
unfolding dichl_get
get_other [] item key1 key2 bufsize h = ground (arith, h)
get_other (x ∷ d) item key1 key2 bufsize h = ground (arith, h, get_other d item key1 key2 bufsize h)

-- After a successful `dichl_add`, `dichl_get` gives the string under its two numbers, to a buffer
-- with room for it and the zero, and under any other two numbers what it gave before.
pub dichl_get-dichl_add :
    (mem : Memory) (d : Dichl) (k1 k2 : ℕ) (str : List ℕ) (key1 key2 bufsize : ℕ)
    → is_error (dichl_add mem d k1 k2 str).0 ≡ false
    → length str < bufsize
    → dichl_get (dichl_add mem d k1 k2 str).1 key1 key2 bufsize
      ≡ (if k1 == key1 && k2 == key2 then (pos 0, some str) else dichl_get d key1 key2 bufsize)
unfolding dichl_add dichl_get
dichl_get-dichl_add mem d k1 k2 str key1 key2 bufsize ok room =
    let item : DichlItem = record { key1 = k1; key2 = k2; str = str } in
    ground (
      arith,
      ok,
      room,
      get_behind d item key1 key2 bufsize,
      get_other d item key1 key2 bufsize,
      take_enough (bufsize - 1) str (omega (arith, room)),
    )
