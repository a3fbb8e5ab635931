-- ===== src/Script/Parse.antt =====
-- src/script.h: reading the operations of a script, putting data on a script, and the scans of a whole
-- script. A script is the list of its bytes, and an iterator into it is what is left from there on.
pub mod RoundTrip
use ixcoin.Common.{
  ℕ, zero, suc, ◌+◌, ◌-◌, ◌*◌, ◌%◌, ◌^◌, List, [], ◌∷◌, ◌++◌, Bool, true, false, ◌&&◌, ◌||◌, not,
  ltb, leb, ◌==◌, if◌then◌else◌, length, take, drop, Option, none, some,
}
use ixcoin.Serialize.{Bytes, Reader, ◌>>=◌, pure, failure, le_bytes, read_bytes, read_le}
use ixcoin.Script.Opcode.{Opcode, of_byte, value}

-- The size of the data behind the opcode `b`, for `b` up to OP_PUSHDATA4.
unfoldable pub operand_size : ℕ → Reader ℕ
operand_size b =
    if ltb b 76
    then pure b
    else if b == 76
    then read_le 1
    else if b == 77
    then read_le 2
    else read_le 4

unfoldable pub operand : ℕ → Reader (Opcode × Bytes)
operand b = do n ← operand_size b; v ← read_bytes n; pure (of_byte b, v)

-- `GetOp2`: the opcode, its data and what is left; `none` where it returns false.
unfoldable pub get_op : Reader (Opcode × Bytes)
get_op [] = none
get_op (b ∷ s) = if leb b 78 then operand b s else some ((of_byte b, []), s)

-- `operator<<` of a vector: the shortest of the four forms that holds its size.
unfoldable pub push_data : Bytes → Bytes
push_data v =
    let n = length v in
    (if ltb n 76
      then n % 256 ∷ []
      else if leb n 0xff
      then 76 ∷ le_bytes 1 n
      else if leb n 0xffff
      then 77 ∷ le_bytes 2 n
      else 78 ∷ le_bytes 4 n)
    ++ v

-- `operator<<` of an opcode.
unfoldable pub push_op : Opcode → Bytes
push_op op = value op ∷ []

-- `memcmp` at an iterator with enough bytes left.
unfoldable pub starts_with : Bytes → Bytes → Bool
starts_with [] s = true
starts_with (b ∷ bs) [] = false
starts_with (b ∷ bs) (c ∷ s) = b == c && starts_with bs s

-- The inner loop of `FindAndDelete`.
unfoldable pub erase_here : ℕ → Bytes → Bytes → Bytes
erase_here zero b s = s
erase_here (suc f) b s =
    let rest = erase_here f b (drop (length b) s) in if starts_with b s then rest else s

-- The outer loop: after the deletions it steps over one operation, and ends where there is none.
unfoldable pub find_loop : ℕ → Bytes → Bytes → Bytes
find_loop zero b s = s
find_loop (suc f) b s =
    let s' = erase_here (length s) b s in
    elim (get_op s') [
      | none ↦ s'
      | some (_, rest) ↦ take (length s' - length rest) s' ++ find_loop f b rest
    ]

-- `FindAndDelete`. A round of either loop takes a byte at least, so the length of the script and one
-- more round are enough.
unfoldable pub find_and_delete : Bytes → Bytes → Bytes
find_and_delete b s = if length b == 0 then s else find_loop (suc (length s)) b s

-- What one operation adds to `GetSigOpCount`.
unfoldable pub sig_ops_of : Opcode → ℕ
sig_ops_of Opcode.op_checksig = 1
sig_ops_of Opcode.op_checksigverify = 1
sig_ops_of Opcode.op_checkmultisig = 20
sig_ops_of Opcode.op_checkmultisigverify = 20
sig_ops_of _ = 0

unfoldable pub sig_op_loop : ℕ → Bytes → ℕ
sig_op_loop zero s = 0
sig_op_loop (suc f) s = elim (get_op s) [
  | none ↦ 0
  | some ((op, _), rest) ↦ sig_ops_of op + sig_op_loop f rest
]

unfoldable pub get_sig_op_count : Bytes → ℕ
get_sig_op_count s = sig_op_loop (length s) s

unfoldable pub push_only_loop : ℕ → Bytes → Bool
push_only_loop f [] = true
push_only_loop zero (b ∷ s) = false
push_only_loop (suc f) (b ∷ s) = elim (get_op (b ∷ s)) [
  | none ↦ false
  | some ((op, _), rest) ↦ elim (ltb 96 (value op)) [ true ↦ false | false ↦ push_only_loop f rest ]
]

unfoldable pub is_push_only : Bytes → Bool
is_push_only s = if ltb 200 (length s) then false else push_only_loop (length s) s
