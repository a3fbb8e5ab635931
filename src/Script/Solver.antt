-- ===== src/Script/Solver.antt =====
-- src/script.cpp: `Solver`, which takes a script apart by the two standard forms.
pub mod Forms
pub mod Solved
use ixcoin.Common.{
  ℕ, zero, suc, ◌+◌, List, [], ◌∷◌, ◌++◌, Bool, true, false, ◌&&◌, ◌||◌, not, ltb, ◌==◌,
  if◌then◌else◌, length, Option, none, some,
}
use ixcoin.Serialize.{Bytes}
use ixcoin.Script.Opcode.{Opcode, value}
use ixcoin.Script.Parse.{get_op, push_op}
use ixcoin.Script.Ops.Splice.{bytes_eq}
use ixcoin.Tx.Check.{is_empty}

abbrev pub Solution : Type 0
Solution = List (Opcode × Bytes)

-- The templates: a key that is there, and the hash of a key.
unfoldable pub key_template : Bytes
key_template = push_op Opcode.op_pubkey ++ push_op Opcode.op_checksig

unfoldable pub key_hash_template : Bytes
key_hash_template =
    push_op Opcode.op_dup
    ++ push_op Opcode.op_hash160
    ++ push_op Opcode.op_pubkeyhash
    ++ push_op Opcode.op_equalverify
    ++ push_op Opcode.op_checksig

-- An operation that has to be the same in both.
unfoldable pub match_plain : Opcode → Bytes → Opcode → Bytes → Solution → Option Solution
match_plain op v other w found =
    if not (value op == value other) || not (bytes_eq v w) then none else some found

-- One operation of the script against one of the template; `none` where the loop breaks. The last
-- found comes first, as it does once the source has reversed its list.
unfoldable pub match_op : Opcode → Bytes → Opcode → Bytes → Solution → Option Solution
match_op op v Opcode.op_pubkey w found =
    if ltb (length v) 33 || ltb 120 (length v) then none else some ((Opcode.op_pubkey, v) ∷ found)
match_op op v Opcode.op_pubkeyhash w found =
    if not (length v == 20) then none else some ((Opcode.op_pubkeyhash, v) ∷ found)
match_op op v other w found = match_plain op v other w found

-- The loop over a script and a template. A round takes a byte of the template at least.
unfoldable pub match_loop : ℕ → Bytes → Bytes → Solution → Option Solution
match_loop zero s t found = none
match_loop (suc f) s t found = elim (is_empty s && is_empty t) [
  | true ↦ some found
  | false ↦ elim (get_op s) [
    | none ↦ none
    | some ((op, v), s') ↦ elim (get_op t) [
      | none ↦ none
      | some ((other, w), t') ↦ elim (match_op op v other w found) [
        | none ↦ none
        | some found' ↦ match_loop f s' t' found'
      ]
    ]
  ]
]

unfoldable pub match_template : Bytes → Bytes → Option Solution
match_template t s = match_loop (suc (length t)) s t []

unfoldable pub solver : Bytes → Option Solution
solver s = elim (match_template key_template s) [
  | some found ↦ some found
  | none ↦ match_template key_hash_template s
]

-- `IsStandard` of a script
unfoldable pub is_standard : Bytes → Bool
is_standard s = elim (solver s) [ none ↦ false | some _ ↦ true ]
