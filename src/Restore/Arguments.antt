-- ===== src/Restore/Arguments.antt =====
-- oper_restore.c, convert_argv_to_strdicos: the arguments "id=x,dest=/dev/xxx,..." of the command
-- line, as a table from the number of a file system to its settings.
pub mod Slots
use fsarchiver.Base.{
  ℕ, zero, suc, ◌+◌, ◌-◌, ◌*◌, ◌%◌, ◌^◌, ◌≤◌, ◌<◌, ◌≡◌, refl, sym, ap, ◌∙◌, Bool, true, false, not,
  ◌&&◌, ◌||◌, Option, none, some, List, [], ◌∷◌, arith, ltb, ◌==◌, ==_iff, if◌then◌else◌, length,
  Bool-cases, Option-cases, inl, inr,
}
use fsarchiver.Base.Int.{ℤ, pos, negsuc, minus_one}
use fsarchiver.Base.Code
use fsarchiver.Keys.{max_fsperarch}
use fsarchiver.Dico.{Memory}
use fsarchiver.Writebuf.{from_nth}
use fsarchiver.Strdico.{
  Strdico, strdico_alloc, strdico_set_valid_keys, strdico_parse_string, strdico_get_string,
  strdico_get_s64,
}

-- The array of FSA_MAX_FSPERARCH pointers.
abbrev pub Table : Type 0
Table = ℕ → Option Strdico

abbrev pub is_zero : ℤ → Bool
is_zero (pos n) = n == 0
is_zero (negsuc n) = false

-- "id,dest,mkfs,mkfsopt,uuid,label", "id" and "dest"
abbrev pub key_id : List ℕ
key_id = 105 ∷ 100 ∷ []

abbrev pub key_dest : List ℕ
key_dest = 100 ∷ 101 ∷ 115 ∷ 116 ∷ []

abbrev pub valid_keys : List ℕ
valid_keys =
    105 ∷ 100 ∷ 44 ∷ 100 ∷ 101 ∷ 115 ∷ 116 ∷ 44 ∷ 109 ∷ 107 ∷ 102 ∷ 115 ∷ 44 ∷ 109 ∷ 107 ∷ 102 ∷ 115
    ∷ 111 ∷ 112 ∷ 116 ∷ 44 ∷ 117 ∷ 117 ∷ 105 ∷ 100 ∷ 44 ∷ 108 ∷ 97 ∷ 98 ∷ 101 ∷ 108 ∷ []

-- The conversion of a number of 64 bits to an `int`, as a word of 32 bits.
abbrev pub int_word : ℤ → ℕ
int_word (pos n) = n % 2 ^ 32
int_word (negsuc n) = 2 ^ 32 - 1 - n % 2 ^ 32

-- A negative number is a word from 2 ^ 31 on.
abbrev pub fsid_of : ℤ → Option ℕ
fsid_of temp64 = if ltb (int_word temp64) max_fsperarch then some (int_word temp64) else none

abbrev pub put_slot : Table → ℕ → Strdico → Table
put_slot table k d j = if j == k then some d else table j

module _ (is_block_device : List ℕ → Bool) where
  -- The number of an argument and its settings, none where it is refused.
  unfoldable pub check_settings : Strdico → Option ℕ
  check_settings d =
      let (res1, temp64) = strdico_get_s64 d key_id in
      let (res2, buffer) = strdico_get_string d 1024 key_dest in
      if not (is_zero res1) then none else elim (fsid_of temp64) [
        | none ↦ none
        | some fsid ↦
            if not (is_zero res2)
            then none
            else if not (is_block_device buffer)
            then none
            else some fsid
      ]

  unfoldable pub parse_argument : Memory → List ℕ → Option (ℕ × Strdico)
  parse_argument mem cmdarg = elim (strdico_alloc mem) [
    | none ↦ none
    | some d ↦
        let (res1, d1) = strdico_set_valid_keys (from_nth 1 mem) d valid_keys in
        let (res2, d2) = strdico_parse_string (from_nth 2 mem) d1 cmdarg in
        if not (is_zero res1) || not (is_zero res2)
        then none
        else elim (check_settings d2) [ none ↦ none | some fsid ↦ some (fsid, d2) ]
  ]

  -- `memory i` are the allocations for the i-th argument. `room` is how many more arguments are looked
  -- at.
  unfoldable pub convert_arguments : (ℕ → Memory) → ℕ → List (List ℕ) → Table → ℤ × Table
  convert_arguments memory room [] table = (pos 0, table)
  convert_arguments memory zero (cmdarg ∷ rest) table = (pos 0, table)
  convert_arguments memory (suc room) (cmdarg ∷ rest) table =
      elim (parse_argument (memory room) cmdarg) [
        | none ↦ (minus_one, table)
        | some (fsid, d) ↦ elim (table fsid) [
          | some other ↦ (minus_one, table)
          | none ↦ convert_arguments memory room rest (put_slot table fsid d)
        ]
      ]

  unfoldable pub convert_argv_to_strdicos : (ℕ → Memory) → List (List ℕ) → Table → ℤ × Table
  convert_argv_to_strdicos memory cmdargv table =
      convert_arguments memory max_fsperarch cmdargv table
