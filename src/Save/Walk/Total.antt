-- ===== src/Save/Walk/Total.antt =====
-- oper_save.c: the cost that createar_save_directory evaluates for a tree, and the one it counts.
use fsarchiver.Base.{
  ℕ, zero, suc, ◌≡◌, refl, subst, false, Option, none, some, List, [], ◌∷◌, arith, Bool-cases,
  Option-cases, inl, inr,
}
use fsarchiver.Base.Int.{pos, negsuc, minus_one}
use fsarchiver.Base.Loop.{Loop, finished, waits, stuck}
use fsarchiver.Paths.{path_max, concatenate_paths}
use fsarchiver.Source.{Stat}
use fsarchiver.Save.Files.{Savear}
use fsarchiver.Save.Walk.{
  Walker, Saved, is_directory, is_dots, is_excluded, save_file, save_entry, save_entries,
  createar_save_directory,
}
use fsarchiver.Save.Walk.Costs.{IsAlike, AreAlike, alike_by, file_alike}

module _ (walker : Walker) (root : List ℕ) (calm : walker.saver.interrupted 0 ≡ false)
    (offset : ℕ) where
  abbrev AreAlikeBelow : (Savear → List ℕ → Option ℕ → Loop Saved) → Type 0
  AreAlikeBelow below =
      (cost : ℕ) (s t : Savear) (relpath : List ℕ)
      → IsAlike offset cost s t
      → AreAlike offset (below s relpath (some cost)) (below t relpath none)

  -- Both passes leave something out.
  skipped :
      (cost : ℕ) (s t : Savear) (r q : Loop Saved)
      → IsAlike offset cost s t
      → r ≡ finished (pos 0, some cost, s)
      → q ≡ finished (pos 0, none, t)
      → AreAlike offset r q
  skipped cost s t r q h e1 e2 =
      alike_by walker root calm offset r q _ _ e1 e2 (cost, s, refl, h, refl)

  refused :
      (cost : ℕ) (s t : Savear) (r q : Loop Saved)
      → r ≡ finished (minus_one, some cost, s)
      → q ≡ finished (minus_one, none, t)
      → AreAlike offset r q
  refused cost s t r q e1 e2 = alike_by walker root calm offset r q _ _ e1 e2 tt

  faulty : (r q : Loop Saved) → r ≡ waits → q ≡ waits → AreAlike offset r q
  faulty r q e1 e2 = alike_by walker root calm offset r q _ _ e1 e2 tt

  -- What stands for an entry once its path and its data are known.
  found_alike :
      (below : Savear → List ℕ → Option ℕ → Loop Saved) (path dir name relpath fullpath : List ℕ)
      (cost : ℕ) (s t : Savear) (st : Stat)
      → AreAlikeBelow below
      → IsAlike offset cost s t
      → is_dots name ≡ false
      → concatenate_paths path_max path name ≡ some relpath
      → concatenate_paths path_max dir name ≡ some fullpath
      → walker.saver.src.lstat fullpath ≡ some st
      → AreAlike offset
          (save_entry walker root below path dir name s (some cost))
          (save_entry walker root below path dir name t none)
  unfolding save_entry
  found_alike below path dir name relpath fullpath cost s t st goes h e1 e2 e3 e4 =
      elim (Bool-cases (is_excluded walker root name relpath)) [
        | inl e5 ↦
            skipped cost s t _ _ h (ground (arith, e1, e2, e3, e4, e5))
              (ground (arith, e1, e2, e3, e4, e5))
        | inr e5 ↦ elim (Bool-cases (is_directory st.kind)) [
          | inl e6 ↦
              alike_by walker root calm offset _ _ (below s relpath (some cost))
                (below t relpath none) (ground (arith, e1, e2, e3, e4, e5, e6))
                (ground (arith, e1, e2, e3, e4, e5, e6)) (goes cost s t relpath h)
          | inr e6 ↦
              alike_by walker root calm offset _ _ (save_file walker root s relpath st (some cost))
                (save_file walker root t relpath st none) (ground (arith, e1, e2, e3, e4, e5, e6))
                (ground (arith, e1, e2, e3, e4, e5, e6))
                (file_alike walker root calm offset cost s t relpath st h)
        ]
      ]

  entry_alike :
      (below : Savear → List ℕ → Option ℕ → Loop Saved) (path dir name : List ℕ) (cost : ℕ)
      (s t : Savear)
      → AreAlikeBelow below
      → IsAlike offset cost s t
      → AreAlike offset
          (save_entry walker root below path dir name s (some cost))
          (save_entry walker root below path dir name t none)
  unfolding save_entry
  entry_alike below path dir name cost s t goes h = elim (Bool-cases (is_dots name)) [
    | inl e1 ↦ skipped cost s t _ _ h (ground (arith, e1)) (ground (arith, e1))
    | inr e1 ↦ elim (Option-cases (concatenate_paths path_max path name)) [
      | inl n ↦ faulty _ _ (ground (arith, e1, n)) (ground (arith, e1, n))
      | inr (relpath, e2) ↦ elim (Option-cases (concatenate_paths path_max dir name)) [
        | inl n ↦ faulty _ _ (ground (arith, e1, e2, n)) (ground (arith, e1, e2, n))
        | inr (fullpath, e3) ↦ elim (Option-cases (walker.saver.src.lstat fullpath)) [
          | inr (st, e4) ↦
              found_alike below path dir name relpath fullpath cost s t st goes h e1 e2 e3 e4
          | inl n ↦ elim (Bool-cases walker.saver.allowsaverw) [
            | inl e5 ↦
                skipped cost s t _ _ h (ground (arith, e1, e2, e3, n, e5))
                  (ground (arith, e1, e2, e3, n, e5))
            | inr e5 ↦
                refused cost s t _ _ (ground (arith, e1, e2, e3, n, e5))
                  (ground (arith, e1, e2, e3, n, e5))
          ]
        ]
      ]
    ]
  ]

  AreEntriesAlike :
      (Savear → List ℕ → Option ℕ → Loop Saved) → List ℕ → List ℕ → List (List ℕ) → Type 0
  AreEntriesAlike below path dir names =
      (cost : ℕ) (s t : Savear)
      → IsAlike offset cost s t
      → AreAlike offset (save_entries walker root below path dir names s (some cost))
          (save_entries walker root below path dir names t none)

  rest_alike :
      (below : Savear → List ℕ → Option ℕ → Loop Saved) (path dir name : List ℕ)
      (rest : List (List ℕ)) (cost : ℕ) (s t : Savear)
      → AreEntriesAlike below path dir rest
      → walker.signal path (name ∷ rest) ≡ false
      → (q : Loop Saved) → save_entry walker root below path dir name t none ≡ q
      → AreAlike offset (save_entry walker root below path dir name s (some cost)) q
      → AreAlike offset
          (save_entries walker root below path dir (name ∷ rest) s (some cost))
          (save_entries walker root below path dir (name ∷ rest) t none)
  unfolding save_entries AreEntriesAlike
  rest_alike below path dir name rest cost s t ih e1 stuck e h =
      alike_by walker root calm offset _ _ _ stuck refl (ground (arith, e1, e)) tt
  rest_alike below path dir name rest cost s t ih e1 waits e h =
      alike_by walker root calm offset _ _ _ waits refl (ground (arith, e1, e)) tt
  rest_alike below path dir name rest cost s t ih e1 (finished (pos (suc n), c, t2)) e h =
      alike_by walker root calm offset _ _ _ (finished (minus_one, c, t2)) refl
        (ground (arith, e1, e)) tt
  rest_alike below path dir name rest cost s t ih e1 (finished (negsuc n, c, t2)) e h =
      alike_by walker root calm offset _ _ _ (finished (minus_one, c, t2)) refl
        (ground (arith, e1, e)) tt
  rest_alike below path dir name rest cost s t ih e1 (finished (pos zero, c, t2)) e
        (cost2, s2, e2, h2, e3) =
      alike_by walker root calm offset _ _
        (save_entries walker root below path dir rest s2 (some cost2))
        (save_entries walker root below path dir rest t2 none) (ground (arith, e1, e2))
        (ground (arith, e1, e, e3)) (ih cost2 s2 t2 h2)

  entries_alike :
      (below : Savear → List ℕ → Option ℕ → Loop Saved) (path dir : List ℕ) (names : List (List ℕ))
      → AreAlikeBelow below
      → AreEntriesAlike below path dir names
  unfolding save_entries AreEntriesAlike
  entries_alike below path dir [] goes cost s t h = skipped cost s t _ _ h refl refl
  entries_alike below path dir (name ∷ rest) goes cost s t h =
      elim (Bool-cases (walker.signal path (name ∷ rest))) [
        | inl e ↦ skipped cost s t _ _ h (ground (arith, e)) (ground (arith, e))
        | inr e ↦
            rest_alike below path dir name rest cost s t (entries_alike below path dir rest goes) e
              (save_entry walker root below path dir name t none) refl
              (entry_alike below path dir name cost s t goes h)
      ]

  abbrev walk : ℕ → Savear → List ℕ → Option ℕ → Loop Saved
  walk fuel save relpath c = createar_save_directory walker root fuel save relpath c

  after_alike :
      (fuel : ℕ) (path dir : List ℕ) (names : List (List ℕ)) (st : Stat) (cost : ℕ) (s t : Savear)
      → AreEntriesAlike (λ s' p c. createar_save_directory walker root fuel s' p c) path dir names
      → concatenate_paths path_max root path ≡ some dir
      → walker.saver.src.readdir dir ≡ some names
      → walker.saver.src.lstat dir ≡ some st
      → (q : Loop Saved) → save_file walker root t path st none ≡ q
      → AreAlike offset (save_file walker root s path st (some cost)) q
      → AreAlike offset
          (createar_save_directory walker root (suc fuel) s path (some cost))
          (createar_save_directory walker root (suc fuel) t path none)
  unfolding createar_save_directory AreEntriesAlike
  after_alike fuel path dir names st cost s t ih e1 e2 e3 stuck e h =
      alike_by walker root calm offset _ _ _ stuck refl (ground (arith, e1, e2, e3, e)) tt
  after_alike fuel path dir names st cost s t ih e1 e2 e3 waits e h =
      alike_by walker root calm offset _ _ _ waits refl (ground (arith, e1, e2, e3, e)) tt
  after_alike fuel path dir names st cost s t ih e1 e2 e3 (finished (pos (suc n), c, t2)) e h =
      alike_by walker root calm offset _ _ _ (finished (minus_one, c, t2)) refl
        (ground (arith, e1, e2, e3, e)) tt
  after_alike fuel path dir names st cost s t ih e1 e2 e3 (finished (negsuc n, c, t2)) e h =
      alike_by walker root calm offset _ _ _ (finished (minus_one, c, t2)) refl
        (ground (arith, e1, e2, e3, e)) tt
  after_alike fuel path dir names st cost s t ih e1 e2 e3 (finished (pos zero, c, t2)) e
        (cost2, s2, e4, h2, e5) =
      let below = walk fuel in
      alike_by walker root calm offset _ _
        (save_entries walker root below path dir names s2 (some cost2))
        (save_entries walker root below path dir names t2 none) (ground (arith, e1, e2, e3, e4))
        (ground (arith, e1, e2, e3, e, e5)) (ih cost2 s2 t2 h2)

  walk_alike :
      (fuel cost : ℕ) (s t : Savear) (path : List ℕ)
      → IsAlike offset cost s t
      → AreAlike offset
          (createar_save_directory walker root fuel s path (some cost))
          (createar_save_directory walker root fuel t path none)
  unfolding createar_save_directory
  walk_alike zero cost s t path h = tt
  walk_alike (suc fuel) cost s t path h =
      elim (Option-cases (concatenate_paths path_max root path)) [
        | inl n ↦ faulty _ _ (ground (arith, n)) (ground (arith, n))
        | inr (dir, e1) ↦ elim (Option-cases (walker.saver.src.readdir dir)) [
          | inl n ↦ skipped cost s t _ _ h (ground (arith, e1, n)) (ground (arith, e1, n))
          | inr (names, e2) ↦ elim (Option-cases (walker.saver.src.lstat dir)) [
            | inl n ↦ refused cost s t _ _ (ground (arith, e1, e2, n)) (ground (arith, e1, e2, n))
            | inr (st, e3) ↦
                after_alike fuel path dir names st cost s t
                  (entries_alike (λ s' p c. createar_save_directory walker root fuel s' p c) path
                    dir names (λ cost' s' t' p h'. walk_alike fuel cost' s' t' p h'))
                  e1 e2 e3 (save_file walker root t path st none) refl
                  (file_alike walker root calm offset cost s t path st h)
          ]
        ]
      ]

  succeeded :
      (r q : Loop Saved) (t' : Savear)
      → q ≡ finished (pos 0, none, t')
      → AreAlike offset r q
      → (cost' : ℕ) × (s' : Savear) × (r ≡ finished (pos 0, some cost', s'))
        × IsAlike offset cost' s' t'
  succeeded r q t' e h =
      let (cost', s', e2, same, e3) = subst (AreAlike offset r) e h in (cost', s', e2, same)

  -- While no signal is seen and a total cost is known, saving a tree, when it succeeds, counts, modulo 2^64,
  -- exactly the cost that the evaluation finds from a state that agrees on the volume, the table of
  -- hard links, the file system and the number of the object: the evaluation succeeds too, and the
  -- two states agree again.
  pub createar_save_directory_evaluated :
      (fuel cost : ℕ) (s t t' : Savear) (path : List ℕ)
      → IsAlike offset cost s t
      → createar_save_directory walker root fuel t path none ≡ finished (pos 0, none, t')
      → (cost' : ℕ) × (s' : Savear) × (createar_save_directory walker root fuel s path (some cost)
          ≡ finished (pos 0, some cost', s'))
        × IsAlike offset cost' s' t'
  createar_save_directory_evaluated fuel cost s t t' path h e =
      succeeded _ _ t' e (walk_alike fuel cost s t path h)
