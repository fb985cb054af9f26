-- ===== src/DataFile/Contents.antt =====
-- datafile.c: what a restored file holds, on a file system that does what it is asked.
use fsarchiver.Base.{
  ℕ, zero, suc, ◌+◌, ◌-◌, ◌≤◌, ◌<◌, ◌≡◌, refl, sym, ap, ap₂, ◌∙◌, Bool, true, false, ◌&&◌, some,
  Option, List, [], ◌∷◌, ◌++◌, arith, ◌==◌, length, length-append, replicate, append-nil,
  append_assoc, Bool-cases, inl, inr,
}
use fsarchiver.Base.Arrays.{take_enough}
use fsarchiver.Base.Int.{pos}
use fsarchiver.Paths.{path_max}
use fsarchiver.Target.{Target, Digest}
use fsarchiver.DataFile.{
  Datafile, datafile_is_block_zero, datafile_open_write, put_block, datafile_write, finish_file,
  datafile_close,
}

-- `view st p` are the bytes of the file at `p`. Every call succeeds, a hole in a file reads as zeros,
-- and the calls on attributes and times leave the bytes alone.
pub record IsReliable {S : Type 0} (os : Target S) (view : S → List ℕ → Option (List ℕ))
    : Type 0 where
  pub creat_ok : (st : S) (p : List ℕ) → (os.creat st p).0 ≡ true
  pub creat_view : (st : S) (p : List ℕ) → view (os.creat st p).1 p ≡ some []
  pub write_ok :
      (st : S) (p : List ℕ) (k : ℕ) (bs : List ℕ) → (os.write st p k bs).0 ≡ some (length bs)
  pub write_view :
      (st : S) (p : List ℕ) (k : ℕ) (bs old : List ℕ)
      → view st p ≡ some old
      → length old ≤ k
      → view (os.write st p k bs).1 p ≡ some (old ++ (replicate (k - length old) 0 ++ bs))
  pub seek_ok : (st : S) (p : List ℕ) (k : ℕ) → os.can_seek st p k ≡ true
  pub truncate_ok : (st : S) (p : List ℕ) (k : ℕ) → (os.ftruncate st p k).0 ≡ true
  pub truncate_view :
      (st : S) (p : List ℕ) (k : ℕ) (old : List ℕ)
      → view st p ≡ some old
      → length old ≤ k
      → view (os.ftruncate st p k).1 p ≡ some (old ++ replicate (k - length old) 0)
  pub close_ok : (st : S) (p : List ℕ) → (os.close st p).0 ≡ true
  pub close_view : (st : S) (p q : List ℕ) → view (os.close st p).1 q ≡ view st q
  pub chown_ok : (st : S) (p : List ℕ) (u g : ℕ) → (os.lchown st p u g).0 ≡ true
  pub chown_view : (st : S) (p q : List ℕ) (u g : ℕ) → view (os.lchown st p u g).1 q ≡ view st q
  pub chmod_ok : (st : S) (p : List ℕ) (m : ℕ) → (os.chmod st p m).0 ≡ true
  pub chmod_view : (st : S) (p q : List ℕ) (m : ℕ) → view (os.chmod st p m).1 q ≡ view st q
  pub times_ok : (st : S) (p : List ℕ) (t : ℕ × ℕ) → (os.set_times st p t).0 ≡ true
  pub times_view : (st : S) (p q : List ℕ) (t : ℕ × ℕ) → view (os.set_times st p t).1 q ≡ view st q

replicate-append {ℓ} :
    {A : Type ℓ} (x : A) (a b : ℕ) → replicate a x ++ replicate b x ≡ replicate (a + b) x
replicate-append x zero b = let e : zero + b ≡ b = omega arith in rw e refl
replicate-append x (suc a) b =
    let e : suc a + b ≡ suc (a + b) = omega arith in rw e (ap (◌∷◌ x) (replicate-append x a b))

zero_block-replicate :
    (bs : List ℕ) → datafile_is_block_zero bs ≡ true → bs ≡ replicate (length bs) 0
unfolding datafile_is_block_zero
zero_block-replicate [] h = refl
zero_block-replicate (c ∷ bs) h =
    ap₂ (λ x xs. x ∷ xs) (ground (arith, h)) (zero_block-replicate bs (ground (arith, h)))

module _ {S : Type 0} (os : Target S) (digest : Digest) (view : S → List ℕ → Option (List ℕ))
    (ok : IsReliable os view) where
  -- The open file stands for `bytes`: a hole at its end is still to come.
  pub record IsWritten (st : S) (f : Datafile) (path bytes : List ℕ) : Type 0 where
    pub opened : f.is_open ≡ true
    pub real : f.simul ≡ false
    pub at_path : f.path ≡ path
    pub at_end : f.position ≡ length bytes
    pub summed : f.digested ≡ bytes
    pub old : List ℕ
    pub stored : view st path ≡ some old
    pub shorter : length old ≤ length bytes
    pub padded : old ++ replicate (length bytes - length old) 0 ≡ bytes
    pub dense : f.sparse ≡ false → old ≡ bytes

  pub datafile_open_write-IsWritten :
      (st : S) (f : Datafile) (path : List ℕ) (sparse : Bool)
      → f.is_open ≡ false
      → digest.starts ≡ true
      → length path < path_max
      → ((datafile_open_write os digest st f path false sparse).0 ≡ pos 0)
        × IsWritten
            (datafile_open_write os digest st f path false sparse).2
            (datafile_open_write os digest st f path false sparse).1
            path
            []
  unfolding datafile_open_write
  datafile_open_write-IsWritten st f path sparse h d fits =
      let c = ok.creat_ok st path in
      let v = ok.creat_view st path in
      let w = take_enough (path_max - 1) path (omega (arith, fits)) in
      rw (h, d, c)
        (
          refl,
          record {
            opened = refl;
            real = refl;
            at_path = w;
            at_end = refl;
            summed = refl;
            old = [];
            stored = v;
            shorter = omega arith;
            padded = refl;
            dense = λ _. refl;
          },
        )

  put_hole :
      (st : S) (f : Datafile) (path bytes bs : List ℕ)
      → IsWritten st f path bytes
      → (f.sparse && datafile_is_block_zero bs) ≡ true
      → ((datafile_write os digest st f bs).0 ≡ pos 0)
        × IsWritten
            (datafile_write os digest st f bs).2
            (datafile_write os digest st f bs).1
            path
            (bytes ++ bs)
  unfolding datafile_write put_block
  put_hole st f path bytes bs w h =
      let s = ok.seek_ok st f.path (f.position + length bs) in
      let len = length-append bytes bs in
      let zeros = zero_block-replicate bs (ground (arith, h)) in
      let gap = length bytes - length w.old in
      let sum : length (bytes ++ bs) - length w.old ≡ gap + length bs =
        omega (arith, len, w.shorter) in
      rw (w.opened, w.real, h, s)
        (
          refl,
          record {
            opened = refl;
            real = refl;
            at_path = w.at_path;
            at_end = omega (arith, w.at_end, len);
            summed = ap (λ t. t ++ bs) w.summed;
            old = w.old;
            stored = w.stored;
            shorter = omega (arith, w.shorter, len);
            padded =
                ap (λ n. w.old ++ replicate n 0) sum
                ∙ ap (◌++◌ w.old) (sym (replicate-append 0 gap (length bs)))
                ∙ sym (append_assoc w.old (replicate gap 0) (replicate (length bs) 0))
                ∙ ap₂ (λ a b. a ++ b) w.padded (sym zeros);
            dense = λ e. absurd (ground (arith, e, h));
          },
        )

  put_bytes :
      (st : S) (f : Datafile) (path bytes bs : List ℕ)
      → IsWritten st f path bytes
      → (f.sparse && datafile_is_block_zero bs) ≡ false
      → ((datafile_write os digest st f bs).0 ≡ pos 0)
        × IsWritten
            (datafile_write os digest st f bs).2
            (datafile_write os digest st f bs).1
            path
            (bytes ++ bs)
  unfolding datafile_write put_block
  put_bytes st f path bytes bs w h =
      let s = ok.write_ok st f.path f.position bs in
      let same : (length bs == length bs) ≡ true = ground arith in
      let v = ok.write_view st path (length bytes) bs w.old w.stored w.shorter in
      let whole : w.old ++ (replicate (length bytes - length w.old) 0 ++ bs) ≡ bytes ++ bs =
        sym (append_assoc w.old (replicate (length bytes - length w.old) 0) bs)
        ∙ ap (λ t. t ++ bs) w.padded in
      rw (w.opened, w.real, h, s, same)
        (
          refl,
          record {
            opened = refl;
            real = refl;
            at_path = w.at_path;
            at_end = omega (arith, w.at_end, length-append bytes bs);
            summed = ap (λ t. t ++ bs) w.summed;
            old = bytes ++ bs;
            stored = rw (w.at_path, w.at_end) (v ∙ ap some whole);
            shorter = omega arith;
            padded =
                let e : length (bytes ++ bs) - length (bytes ++ bs) ≡ 0 = omega arith in
                rw e (append-nil (bytes ++ bs));
            dense = λ _. refl;
          },
        )

  -- A block that is written stands behind the others.
  pub datafile_write-IsWritten :
      (st : S) (f : Datafile) (path bytes bs : List ℕ)
      → IsWritten st f path bytes
      → ((datafile_write os digest st f bs).0 ≡ pos 0)
        × IsWritten
            (datafile_write os digest st f bs).2
            (datafile_write os digest st f bs).1
            path
            (bytes ++ bs)
  datafile_write-IsWritten st f path bytes bs w =
      elim (Bool-cases (f.sparse && datafile_is_block_zero bs)) [
        | inl h ↦ put_hole st f path bytes bs w h
        | inr h ↦ put_bytes st f path bytes bs w h
      ]

  -- The file is closed with the bytes that were written, and their digest is returned.
  pub datafile_close-IsWritten :
      (st : S) (f : Datafile) (path bytes : List ℕ)
      → IsWritten st f path bytes
      → digest.ends ≡ true
      → ((datafile_close os digest st f).0 ≡ pos 0)
        × ((datafile_close os digest st f).1 ≡ digest.md5 bytes)
        × (view (datafile_close os digest st f).3 path ≡ some bytes)
        × ((datafile_close os digest st f).2.is_open ≡ false)
  unfolding datafile_close finish_file
  datafile_close-IsWritten st f path bytes w d = elim (Bool-cases f.sparse) [
    | inl h ↦
        let t = ok.truncate_ok st f.path f.position in
        let v = ok.truncate_view st path (length bytes) w.old w.stored w.shorter in
        let st1 = (os.ftruncate st f.path f.position).1 in
        let c = ok.close_ok st1 f.path in
        rw (w.opened, w.real, d, h, t, c)
          (
            refl,
            ap digest.md5 w.summed,
            ok.close_view st1 f.path path ∙ rw (w.at_path, w.at_end) (v ∙ ap some w.padded),
            refl,
          )
    | inr h ↦
        let c = ok.close_ok st f.path in
        rw (w.opened, w.real, d, h, c)
          (
            refl,
            ap digest.md5 w.summed,
            ok.close_view st f.path path ∙ w.stored ∙ ap some (w.dense h),
            refl,
          )
  ]
