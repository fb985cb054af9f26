-- ===== src/Restore/Links.antt =====
-- oper_save.c and oper_restore.c: the files of one inode, from the table of hard links to the link
-- that is made.
use fsarchiver.Base.{
  ℕ, zero, suc, ◌-◌, ◌<◌, ◌≡◌, refl, ap, ◌∙◌, Bool, true, false, Option, none, some, List, [], ◌∷◌,
  ◌++◌, arith, ltb, ◌==◌, ==_refl, length, replicate,
}
use fsarchiver.Base.Int.{is_error}
use fsarchiver.Constants.{section_stdattr}
use fsarchiver.Keys.{objtype_hardlink, diskitemkey_hardlink}
use fsarchiver.Dico.{Memory, dico_add_string}
use fsarchiver.Dico.Words.{dico_get_string-dico_add_string}
use fsarchiver.Dichl.{dichl_add, dichl_get}
use fsarchiver.Dichl.Lookup.{dichl_get-dichl_add}
use fsarchiver.Paths.{path_max, concatenate_paths}
use fsarchiver.Source.{Stat}
use fsarchiver.Save.Standard.{Attrs, find_hardlink}
use fsarchiver.Restore.Attributes.{c_string}
use fsarchiver.Restore.RegFile.{Host}
use fsarchiver.Restore.Objects.{make_hardlink}

abbrev pub HasNoZero : List ℕ → Type 0
HasNoZero [] = Unit {0}
HasNoZero (c ∷ text) = ((c == 0) ≡ false) × HasNoZero text

c_string-zeros : (n : ℕ) → c_string (replicate n 0) ≡ []
unfolding c_string
c_string-zeros zero = refl
c_string-zeros (suc n) = refl

c_string-padded : (text : List ℕ) (n : ℕ) → HasNoZero text → c_string (text ++ replicate n 0) ≡ text
unfolding c_string
c_string-padded [] n h = c_string-zeros n
c_string-padded (c ∷ text) n (e, h) = rw e (ap (λ r. c ∷ r) (c_string-padded text n h))

-- What saving does with two files that have the numbers of one inode.
find_hardlink_twice :
    (mem mem2 : Memory) (first second : List ℕ) (s s2 : Stat) (a a2 : Attrs)
    → ltb 1 s.nlink ≡ true
    → ltb 1 s2.nlink ≡ true
    → s2.rdev ≡ s.rdev
    → s2.ino ≡ s.ino
    → (dichl_get a.dichardlinks s.rdev s.ino path_max).1 ≡ none
    → is_error (dichl_add mem a.dichardlinks s.rdev s.ino first).0 ≡ false
    → a2.dichardlinks ≡ (find_hardlink mem first s a).dichardlinks
    → length first < path_max
    → find_hardlink mem2 second s2 a2 ≡ record a2 {
      dico = (dico_add_string mem2 a2.dico section_stdattr diskitemkey_hardlink first).1;
      objtype = objtype_hardlink;
    }
unfolding find_hardlink
find_hardlink_twice mem mem2 first second s s2 a a2 l1 l2 e1 e2 new ok same h = ground (
  arith,
  l1,
  l2,
  e1,
  e2,
  new,
  same,
  ==_refl s.rdev,
  ==_refl s.ino,
  dichl_get-dichl_add mem a.dichardlinks s.rdev s.ino first s.rdev s.ino path_max ok h,
)

-- `link` with the path `first` below the destination, or a fault where this path is too long.
abbrev pub link_to : {S : Type 0} → Host S → List ℕ → List ℕ → List ℕ → S → Option (Bool × S)
link_to host destdir first fullpath st = elim (concatenate_paths path_max destdir first) [
  | none ↦ none
  | some regfile ↦ some (host.os.link st regfile fullpath)
]

-- Of two regular files that have several links and the same two numbers, the first one enters the
-- table of hard links, where it is new. When memory suffices the second one is saved as a hard link,
-- and restoring that makes a link to the path of the first one below the destination.
pub make_hardlink-find_hardlink :
    {S : Type 0} (host : Host S) (mem mem2 : Memory) (first second fullpath destdir : List ℕ)
    (s s2 : Stat) (a a2 : Attrs) (st : S)
    → ltb 1 s.nlink ≡ true
    → ltb 1 s2.nlink ≡ true
    → s2.rdev ≡ s.rdev
    → s2.ino ≡ s.ino
    → (dichl_get a.dichardlinks s.rdev s.ino path_max).1 ≡ none
    → is_error (dichl_add mem a.dichardlinks s.rdev s.ino first).0 ≡ false
    → a2.dichardlinks ≡ (find_hardlink mem first s a).dichardlinks
    → HasNoZero first
    → length first < path_max
    → is_error (dico_add_string mem2 a2.dico section_stdattr diskitemkey_hardlink first).0 ≡ false
    → ((find_hardlink mem first s a).objtype ≡ a.objtype)
      × ((find_hardlink mem2 second s2 a2).objtype ≡ objtype_hardlink)
      × (make_hardlink host (find_hardlink mem2 second s2 a2).dico fullpath destdir st
          ≡ link_to host destdir first fullpath st)
unfolding find_hardlink make_hardlink
make_hardlink-find_hardlink host mem mem2 first second fullpath destdir s s2 a a2 st l1 l2 e1 e2 new
      ok same text short ok2 =
    let twice = find_hardlink_twice mem mem2 first second s s2 a a2 l1 l2 e1 e2 new ok same short in
    let d = (dico_add_string mem2 a2.dico section_stdattr diskitemkey_hardlink first).1 in
    (
      ground (arith, l1, new),
      ap (λ x. x.objtype) twice,
      ap (λ x. make_hardlink host x.dico fullpath destdir st) twice
          ∙ ground (
            arith,
            dico_get_string-dico_add_string mem2 a2.dico section_stdattr diskitemkey_hardlink first
                path_max (omega (arith, short)) short ok2,
            c_string-padded first (path_max - length first) text,
          ),
    )
