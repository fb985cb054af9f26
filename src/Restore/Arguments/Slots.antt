-- ===== src/Restore/Arguments/Slots.antt =====
-- oper_restore.c, convert_argv_to_strdicos: each argument that is accepted has a slot of its own.
use fsarchiver.Base.{
  ℕ, zero, suc, ◌+◌, ◌%◌, ◌^◌, ◌≤◌, ◌<◌, ◌≡◌, subst, sym, ap, ◌∙◌, Bool, true, none, some, List, [],
  ◌∷◌, arith, ltb, ◌==◌, ==_iff, if◌then◌else◌, length, Bool-cases, Option-cases, inl, inr,
}
use fsarchiver.Base.Int.{ℤ, pos, negsuc}
use fsarchiver.Keys.{max_fsperarch}
use fsarchiver.Dico.{Memory}
use fsarchiver.Strdico.{Strdico, strdico_get_string, strdico_get_s64}
use fsarchiver.Restore.Arguments.{
  Table, is_zero, fsid_of, key_id, key_dest, put_slot, check_settings, parse_argument,
  convert_arguments, convert_argv_to_strdicos,
}

-- The integer and the number differ by a multiple of 2 ^ 32.
abbrev pub IsCongruent : ℤ → ℕ → Type 0
IsCongruent (pos n) k = n % 2 ^ 32 ≡ k
IsCongruent (negsuc n) k = (n + 1 + k) % 2 ^ 32 ≡ 0

fsid_of-IsCongruent :
    (temp64 : ℤ) (k : ℕ) → fsid_of temp64 ≡ some k → (k < max_fsperarch) × IsCongruent temp64 k
fsid_of-IsCongruent (pos n) k e = (ground (arith, e), ground (arith, e))
fsid_of-IsCongruent (negsuc n) k e = (ground (arith, e), ground (arith, e))

is_zero-pos : (x : ℤ) → is_zero x ≡ true → x ≡ pos 0
is_zero-pos (pos n) e = ap pos (ground (arith, e))
is_zero-pos (negsuc n) e = absurd (ground (arith, e))

module _ (is_block_device : List ℕ → Bool) where
  -- The settings have an "id", which is `k` modulo 2 ^ 32, and a "dest", which is a block device, and
  -- `k` is the number of a slot.
  pub record IsSettings (d : Strdico) (k : ℕ) : Type 0 where
    pub bound : k < max_fsperarch
    pub has_id : (strdico_get_s64 d key_id).0 ≡ pos 0
    pub id_is : IsCongruent (strdico_get_s64 d key_id).1 k
    pub has_dest : (strdico_get_string d 1024 key_dest).0 ≡ pos 0
    pub dest_is : is_block_device (strdico_get_string d 1024 key_dest).1 ≡ true

  -- Each settings stand at their own number.
  abbrev pub AreChecked : Table → Type 0
  AreChecked table = (k : ℕ) (d : Strdico) → table k ≡ some d → IsSettings d k

  parse_argument-checked :
      (mem : Memory) (cmdarg : List ℕ) (fsid : ℕ) (d : Strdico)
      → parse_argument is_block_device mem cmdarg ≡ some (fsid, d)
      → check_settings is_block_device d ≡ some fsid
  unfolding parse_argument
  parse_argument-checked mem cmdarg fsid d e = ground (arith, e)

  check_settings-IsSettings :
      (d : Strdico) (fsid : ℕ) → check_settings is_block_device d ≡ some fsid → IsSettings d fsid
  unfolding check_settings
  check_settings-IsSettings d fsid e =
      let (ok, same) = fsid_of-IsCongruent (strdico_get_s64 d key_id).1 fsid (ground (arith, e)) in
      record {
        bound = ok;
        has_id = is_zero-pos (strdico_get_s64 d key_id).0 (ground (arith, e));
        id_is = same;
        has_dest = is_zero-pos (strdico_get_string d 1024 key_dest).0 (ground (arith, e));
        dest_is = ground (arith, e);
      }

-- How many of the first `n` slots are filled.
unfoldable pub filled : Table → ℕ → ℕ
filled table zero = 0
filled table (suc n) = filled table n + (elim (table n) [ none ↦ 0 | some d ↦ 1 ])

put_slot-filled :
    (table : Table) (k : ℕ) (d : Strdico) (n : ℕ)
    → table k ≡ none
    → filled (put_slot table k d) n ≡ filled table n + (if ltb k n then 1 else 0)
unfolding filled
put_slot-filled table k d zero e = ground arith
put_slot-filled table k d (suc n) e = elim (Bool-cases (n == k)) [
  | inl s ↦ ground (arith, put_slot-filled table k d n e, s, e, ap table ((==_iff n k).0 s))
  | inr s ↦ ground (arith, put_slot-filled table k d n e, s)
]

module _ (is_block_device : List ℕ → Bool) where
  put_slot-AreChecked :
      (table : Table) (fsid : ℕ) (d : Strdico)
      → AreChecked is_block_device table
      → IsSettings is_block_device d fsid
      → AreChecked is_block_device (put_slot table fsid d)
  put_slot-AreChecked table fsid d ok e k d' h = elim (Bool-cases (k == fsid)) [
    | inl s ↦ ground (arith, s, e, h, (==_iff k fsid).0 s)
    | inr s ↦ ok k d' (ground (arith, s, h))
  ]

  convert_arguments-AreChecked :
      (memory : ℕ → Memory) (room : ℕ) (args : List (List ℕ)) (table table' : Table)
      → AreChecked is_block_device table
      → length args ≤ room
      → convert_arguments is_block_device memory room args table ≡ (pos 0, table')
      → AreChecked is_block_device table'
        × (filled table' max_fsperarch ≡ filled table max_fsperarch + length args)
  unfolding convert_arguments
  convert_arguments-AreChecked memory room [] table table' ok h e =
      let same = ap (λ r. r.1) e in
      (
        subst (AreChecked is_block_device) same ok,
        ap (λ t. filled t max_fsperarch) (sym same) ∙ omega arith,
      )
  convert_arguments-AreChecked memory zero (cmdarg ∷ rest) table table' ok h e =
      absurd (omega (arith, h))
  convert_arguments-AreChecked memory (suc room) (cmdarg ∷ rest) table table' ok h e =
      elim (Option-cases (parse_argument is_block_device (memory room) cmdarg)) [
        | inl n ↦ absurd (ground (arith, e, n))
        | inr ((fsid, d), p) ↦ elim (Option-cases (table fsid)) [
          | inr (other, s) ↦ absurd (ground (arith, e, p, s))
          | inl s ↦
              let checked = parse_argument-checked is_block_device (memory room) cmdarg fsid d p in
              let settings = check_settings-IsSettings is_block_device d fsid checked in
              let (ok', count) =
                convert_arguments-AreChecked memory room rest (put_slot table fsid d) table'
                  (put_slot-AreChecked table fsid d ok settings) (omega (arith, h))
                  (ground (arith, e, p, s)) in
              (
                ok',
                ground (arith, count, put_slot-filled table fsid d max_fsperarch s, settings.bound),
              )
        ]
      ]

  -- When the conversion of at most FSA_MAX_FSPERARCH arguments succeeds, on a table where all settings
  -- have an "id" and a "dest" that is a block device and stand at the number of a slot that is their
  -- "id" modulo 2 ^ 32, this is still so, and each argument has filled a slot of its own.
  pub convert_argv_to_strdicos-AreChecked :
      (memory : ℕ → Memory) (cmdargv : List (List ℕ)) (table table' : Table)
      → AreChecked is_block_device table
      → length cmdargv ≤ max_fsperarch
      → convert_argv_to_strdicos is_block_device memory cmdargv table ≡ (pos 0, table')
      → AreChecked is_block_device table'
        × (filled table' max_fsperarch ≡ filled table max_fsperarch + length cmdargv)
  unfolding convert_argv_to_strdicos
  convert_argv_to_strdicos-AreChecked memory cmdargv table table' ok h e =
      convert_arguments-AreChecked memory max_fsperarch cmdargv table table' ok h e
