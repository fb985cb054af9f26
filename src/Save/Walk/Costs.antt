-- ===== src/Save/Walk/Costs.antt =====
-- oper_save.c: the costs that createar_save_directory evaluates in its first pass, and those that it
-- counts when it saves.
use fsarchiver.Base.{
  ℕ, zero, suc, ◌+◌, ◌%◌, ◌^◌, ◌≡◌, refl, ap, sym, ◌∙◌, Bool, true, false, Option, none, some, List,
  arith, ltb, bytes_eq, Bool-cases, Option-cases, inl, inr,
}
use fsarchiver.Base.Int.{ℤ, pos, negsuc, is_error, minus_one}
use fsarchiver.Base.Loop.{Loop, finished, waits, stuck}
use fsarchiver.Dico.{Memory, Dico, dico_alloc}
use fsarchiver.Writebuf.{from_nth}
use fsarchiver.Paths.{path_max, concatenate_paths}
use fsarchiver.Source.{Stat}
use fsarchiver.Save.Standard.{Attrs, createar_item_stdattr}
use fsarchiver.Save.Files.{
  Savear, Saver, add_small, createar_obj_regfile_multi, send_object, add_others, inc, save_object,
  createar_save_file,
}
use fsarchiver.Save.Walk.{Walker, Saved, save_file}

-- What saving an object leaves as it is.
pub record Kept (s t : Savear) : Type 0 where
  pub volpath : t.volpath ≡ s.volpath
  pub links : t.dichardlinks ≡ s.dichardlinks
  pub fs : t.fs ≡ s.fs
  pub objectid : t.objectid ≡ s.objectid
  pub current : t.cost_current ≡ s.cost_current
  pub global : t.cost_global ≡ s.cost_global

abbrev pub AreKept : Savear → Option (ℤ × Savear) → Type 0
AreKept s none = Unit {0}
AreKept s (some (res, t)) = Kept s t

kept : (s : Savear) → Kept s s
kept s = record {
  volpath = refl;
  links = refl;
  fs = refl;
  objectid = refl;
  current = refl;
  global = refl;
}

-- The state in which the cost of the object has been counted.
abbrev pub spent : Savear → ℕ → Savear
spent s filecost = record s { cost_current = (s.cost_current + filecost) % 2 ^ 64 }

module _ (saver : Saver) where
  add_small-kept :
      (mem : Memory) (save : Savear) (d : Dico) (databuf : List ℕ) (filesize : ℕ) (ret : ℤ)
      → AreKept save (add_small saver mem save d databuf filesize ret)
  unfolding add_small
  add_small-kept mem save d databuf filesize ret = ground arith

  createar_obj_regfile_multi-kept :
      (mem : Memory) (save : Savear) (d : Dico) (fullpath : List ℕ) (filesize : ℕ)
      → AreKept save (createar_obj_regfile_multi saver mem save d fullpath filesize)
  unfolding createar_obj_regfile_multi
  createar_obj_regfile_multi-kept mem save d fullpath filesize = grind (arith, add_small-kept)

  send_object-kept :
      (mem : Memory) (save : Savear) (a : Attrs) (fullpath : List ℕ) (s : Stat)
      → AreKept save (send_object saver mem save a fullpath s)
  unfolding send_object
  send_object-kept mem save a fullpath s =
      ground (arith, createar_obj_regfile_multi-kept mem save a.dico fullpath s.size, kept save)

  save_object-spent :
      (mem : Memory) (save : Savear) (fullpath relpath : List ℕ) (s : Stat) (failed : Bool)
      (a : Attrs)
      → ltb 0 save.cost_global ≡ true
      → saver.interrupted 0 ≡ false
      → AreKept (spent save a.filecost) (save_object saver mem save fullpath relpath s failed a)
  unfolding save_object
  save_object-spent mem save fullpath relpath s failed a h calm = ground (
    arith,
    h,
    calm,
    send_object-kept (from_nth 64 mem) (spent save a.filecost)
        (record a {
          dico = (add_others saver (from_nth 24 mem) save fullpath relpath failed a.dico).1;
        })
        fullpath s,
  )

-- The state `s` of the evaluation, with its cost, and the state `t` of the saving are at the same
-- object. What has been counted is the cost and what had been counted before, `offset`.
pub record IsAlike (offset cost : ℕ) (s t : Savear) : Type 0 where
  pub volpath : s.volpath ≡ t.volpath
  pub links : s.dichardlinks ≡ t.dichardlinks
  pub fs : s.fs ≡ t.fs
  pub objectid : s.objectid ≡ t.objectid
  pub current : t.cost_current ≡ (cost + offset) % 2 ^ 64
  pub global : ltb 0 t.cost_global ≡ true

-- Where the second run succeeds, the first one does.
abbrev pub AreAlike : ℕ → Loop Saved → Loop Saved → Type 0
AreAlike offset r stuck = Unit {0}
AreAlike offset r waits = Unit {0}
AreAlike offset r (finished (pos (suc n), c, t)) = Unit {0}
AreAlike offset r (finished (negsuc n, c, t)) = Unit {0}
AreAlike offset r (finished (pos zero, c, t)) =
    (cost : ℕ) × (s : Savear) × (r ≡ finished (pos 0, some cost, s))
    × IsAlike offset cost s t
    × (c ≡ none)

module _ (walker : Walker) (root : List ℕ) (calm : walker.saver.interrupted 0 ≡ false)
    (offset : ℕ) where
  -- The end of the saving, with the evaluation `r`.
  object_alike :
      (cost filecost : ℕ) (s t : Savear) (r : Loop Saved)
      → r ≡ finished (pos 0, some ((cost + filecost) % 2 ^ 64), s)
      → IsAlike offset cost s t
      → (o : Option (ℤ × Savear)) → AreKept (spent t filecost) o
      → AreAlike offset r (elim o as (λ x. Loop Saved) [
        | none ↦ waits
        | some (res2, t2) ↦ finished (res2, none, t2)
      ])
  object_alike cost filecost s t r e h none k = tt
  object_alike cost filecost s t r e h (some (pos (suc n), t2)) k = tt
  object_alike cost filecost s t r e h (some (negsuc n, t2)) k = tt
  object_alike cost filecost s t r e h (some (pos zero, t2)) k = (
    (cost + filecost) % 2 ^ 64,
    s,
    e,
    record {
      volpath = h.volpath ∙ sym k.volpath;
      links = h.links ∙ sym k.links;
      fs = h.fs ∙ sym k.fs;
      objectid = h.objectid ∙ sym k.objectid;
      current = omega (arith, k.current, h.current);
      global = ap (ltb 0) k.global ∙ h.global;
    },
    refl,
  )

  pub alike_by :
      (r q r' q' : Loop Saved) → r ≡ r' → q ≡ q' → AreAlike offset r' q' → AreAlike offset r q
  alike_by r q r' q' e1 e2 h = rw (e1, e2) h

  -- The volume that is being written.
  abbrev left_out : Savear → Savear
  left_out s = record s {
    stats = record s.stats { err_regfile = inc walker.saver s.stats.err_regfile };
  }

  abbrev next : Savear → Attrs → Savear
  next s a = record s { objectid = inc walker.saver s.objectid; dichardlinks = a.dichardlinks }

  attrs_alike :
      (cost : ℕ) (s t : Savear) (relpath fullpath : List ℕ) (st : Stat)
      → IsAlike offset cost s t
      → concatenate_paths path_max root relpath ≡ some fullpath
      → bytes_eq fullpath t.volpath ≡ false
      → walker.memory t.objectid 0 ≡ true
      → (o : Option (ℤ × Attrs))
      → createar_item_stdattr walker.saver.src
          (from_nth 1 (walker.memory t.objectid))
          t.fs.savesymtargettype
          walker.saver.smallfilethresh
          t.objectid
          fullpath
          relpath
          st
          dico_alloc
          t.dichardlinks
        ≡ o
      → AreAlike offset
          (save_file walker root s relpath st (some cost))
          (save_file walker root t relpath st none)
  unfolding createar_save_file
  attrs_alike cost s t relpath fullpath st h e1 e2 e3 none e4 =
      alike_by _ _ waits waits
        (ground (arith, h.volpath, h.objectid, h.fs, h.links, e1, e2, e3, e4))
        (ground (arith, e1, e2, e3, e4)) tt
  attrs_alike cost s t relpath fullpath st h e1 e2 e3 (some (res, a)) e4 =
      let saved =
        save_object walker.saver (walker.memory t.objectid) (next t a) fullpath relpath st
          (is_error res) a in
      alike_by _ _ (finished (pos 0, some ((cost + a.filecost) % 2 ^ 64), next s a))
        (elim saved as (λ x. Loop Saved) [
          | none ↦ waits
          | some (res2, t2) ↦ finished (res2, none, t2)
        ])
        (ground (arith, h.volpath, h.objectid, h.fs, h.links, e1, e2, e3, e4))
        (ground (arith, e1, e2, e3, e4))
        (object_alike cost a.filecost (next s a) (next t a) _ refl
          (record {
            volpath = h.volpath;
            links = refl;
            fs = h.fs;
            objectid = ap (inc walker.saver) h.objectid;
            current = h.current;
            global = h.global;
          })
          saved
          (save_object-spent walker.saver (walker.memory t.objectid) (next t a) fullpath relpath st
            (is_error res) a h.global calm))

  pub file_alike :
      (cost : ℕ) (s t : Savear) (relpath : List ℕ) (st : Stat)
      → IsAlike offset cost s t
      → AreAlike offset
          (save_file walker root s relpath st (some cost))
          (save_file walker root t relpath st none)
  unfolding createar_save_file
  file_alike cost s t relpath st h =
      let mem = walker.memory t.objectid in
      elim (Option-cases (concatenate_paths path_max root relpath)) [
        | inl n ↦ alike_by _ _ waits waits (ground (arith, n)) (ground (arith, n)) tt
        | inr (fullpath, e1) ↦ elim (Bool-cases (bytes_eq fullpath t.volpath)) [
          | inl e2 ↦
              alike_by _ _ (finished (pos 0, some cost, left_out s))
                (finished (pos 0, none, left_out t)) (ground (arith, h.volpath, h.objectid, e1, e2))
                (ground (arith, e1, e2))
                (
                  cost,
                  left_out s,
                  refl,
                  record {
                    volpath = h.volpath;
                    links = h.links;
                    fs = h.fs;
                    objectid = h.objectid;
                    current = h.current;
                    global = h.global;
                  },
                  refl,
                )
          | inr e2 ↦ elim (Bool-cases (mem 0)) [
            | inr n ↦
                alike_by _ _ (finished (minus_one, some cost, s)) (finished (minus_one, none, t))
                  (ground (arith, h.volpath, h.objectid, e1, e2, n)) (ground (arith, e1, e2, n)) tt
            | inl e3 ↦
                attrs_alike cost s t relpath fullpath st h e1 e2 e3
                  (createar_item_stdattr walker.saver.src (from_nth 1 mem) t.fs.savesymtargettype
                    walker.saver.smallfilethresh t.objectid fullpath relpath st dico_alloc
                    t.dichardlinks)
                  refl
          ]
        ]
      ]
