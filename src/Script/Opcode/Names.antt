-- ===== src/Script/Opcode/Names.antt =====
-- src/script.h: the names of the opcodes.
use ixcoin.Common.{◌==◌, if◌then◌else◌}
use ixcoin.Script.Opcode.{Opcode}
use Prim.Native.String.{String}

-- `GetOpName`
unfoldable pub get_op_name : Opcode → String
get_op_name (Opcode.push_size n) = if n == 0 then "0" else "OP_UNKNOWN"
get_op_name Opcode.op_pushdata1 = "OP_PUSHDATA1"
get_op_name Opcode.op_pushdata2 = "OP_PUSHDATA2"
get_op_name Opcode.op_pushdata4 = "OP_PUSHDATA4"
get_op_name Opcode.op_1negate = "-1"
get_op_name Opcode.op_reserved = "OP_RESERVED"
get_op_name Opcode.op_1 = "1"
get_op_name Opcode.op_2 = "2"
get_op_name Opcode.op_3 = "3"
get_op_name Opcode.op_4 = "4"
get_op_name Opcode.op_5 = "5"
get_op_name Opcode.op_6 = "6"
get_op_name Opcode.op_7 = "7"
get_op_name Opcode.op_8 = "8"
get_op_name Opcode.op_9 = "9"
get_op_name Opcode.op_10 = "10"
get_op_name Opcode.op_11 = "11"
get_op_name Opcode.op_12 = "12"
get_op_name Opcode.op_13 = "13"
get_op_name Opcode.op_14 = "14"
get_op_name Opcode.op_15 = "15"
get_op_name Opcode.op_16 = "16"
get_op_name Opcode.op_nop = "OP_NOP"
get_op_name Opcode.op_ver = "OP_VER"
get_op_name Opcode.op_if = "OP_IF"
get_op_name Opcode.op_notif = "OP_NOTIF"
get_op_name Opcode.op_verif = "OP_VERIF"
get_op_name Opcode.op_vernotif = "OP_VERNOTIF"
get_op_name Opcode.op_else = "OP_ELSE"
get_op_name Opcode.op_endif = "OP_ENDIF"
get_op_name Opcode.op_verify = "OP_VERIFY"
get_op_name Opcode.op_return = "OP_RETURN"
get_op_name Opcode.op_toaltstack = "OP_TOALTSTACK"
get_op_name Opcode.op_fromaltstack = "OP_FROMALTSTACK"
get_op_name Opcode.op_2drop = "OP_2DROP"
get_op_name Opcode.op_2dup = "OP_2DUP"
get_op_name Opcode.op_3dup = "OP_3DUP"
get_op_name Opcode.op_2over = "OP_2OVER"
get_op_name Opcode.op_2rot = "OP_2ROT"
get_op_name Opcode.op_2swap = "OP_2SWAP"
get_op_name Opcode.op_ifdup = "OP_IFDUP"
get_op_name Opcode.op_depth = "OP_DEPTH"
get_op_name Opcode.op_drop = "OP_DROP"
get_op_name Opcode.op_dup = "OP_DUP"
get_op_name Opcode.op_nip = "OP_NIP"
get_op_name Opcode.op_over = "OP_OVER"
get_op_name Opcode.op_pick = "OP_PICK"
get_op_name Opcode.op_roll = "OP_ROLL"
get_op_name Opcode.op_rot = "OP_ROT"
get_op_name Opcode.op_swap = "OP_SWAP"
get_op_name Opcode.op_tuck = "OP_TUCK"
get_op_name Opcode.op_cat = "OP_CAT"
get_op_name Opcode.op_substr = "OP_SUBSTR"
get_op_name Opcode.op_left = "OP_LEFT"
get_op_name Opcode.op_right = "OP_RIGHT"
get_op_name Opcode.op_size = "OP_SIZE"
get_op_name Opcode.op_invert = "OP_INVERT"
get_op_name Opcode.op_and = "OP_AND"
get_op_name Opcode.op_or = "OP_OR"
get_op_name Opcode.op_xor = "OP_XOR"
get_op_name Opcode.op_equal = "OP_EQUAL"
get_op_name Opcode.op_equalverify = "OP_EQUALVERIFY"
get_op_name Opcode.op_reserved1 = "OP_RESERVED1"
get_op_name Opcode.op_reserved2 = "OP_RESERVED2"
get_op_name Opcode.op_1add = "OP_1ADD"
get_op_name Opcode.op_1sub = "OP_1SUB"
get_op_name Opcode.op_2mul = "OP_2MUL"
get_op_name Opcode.op_2div = "OP_2DIV"
get_op_name Opcode.op_negate = "OP_NEGATE"
get_op_name Opcode.op_abs = "OP_ABS"
get_op_name Opcode.op_not = "OP_NOT"
get_op_name Opcode.op_0notequal = "OP_0NOTEQUAL"
get_op_name Opcode.op_add = "OP_ADD"
get_op_name Opcode.op_sub = "OP_SUB"
get_op_name Opcode.op_mul = "OP_MUL"
get_op_name Opcode.op_div = "OP_DIV"
get_op_name Opcode.op_mod = "OP_MOD"
get_op_name Opcode.op_lshift = "OP_LSHIFT"
get_op_name Opcode.op_rshift = "OP_RSHIFT"
get_op_name Opcode.op_booland = "OP_BOOLAND"
get_op_name Opcode.op_boolor = "OP_BOOLOR"
get_op_name Opcode.op_numequal = "OP_NUMEQUAL"
get_op_name Opcode.op_numequalverify = "OP_NUMEQUALVERIFY"
get_op_name Opcode.op_numnotequal = "OP_NUMNOTEQUAL"
get_op_name Opcode.op_lessthan = "OP_LESSTHAN"
get_op_name Opcode.op_greaterthan = "OP_GREATERTHAN"
get_op_name Opcode.op_lessthanorequal = "OP_LESSTHANOREQUAL"
get_op_name Opcode.op_greaterthanorequal = "OP_GREATERTHANOREQUAL"
get_op_name Opcode.op_min = "OP_MIN"
get_op_name Opcode.op_max = "OP_MAX"
get_op_name Opcode.op_within = "OP_WITHIN"
get_op_name Opcode.op_ripemd160 = "OP_RIPEMD160"
get_op_name Opcode.op_sha1 = "OP_SHA1"
get_op_name Opcode.op_sha256 = "OP_SHA256"
get_op_name Opcode.op_hash160 = "OP_HASH160"
get_op_name Opcode.op_hash256 = "OP_HASH256"
get_op_name Opcode.op_codeseparator = "OP_CODESEPARATOR"
get_op_name Opcode.op_checksig = "OP_CHECKSIG"
get_op_name Opcode.op_checksigverify = "OP_CHECKSIGVERIFY"
get_op_name Opcode.op_checkmultisig = "OP_CHECKMULTISIG"
get_op_name Opcode.op_checkmultisigverify = "OP_CHECKMULTISIGVERIFY"
get_op_name Opcode.op_nop1 = "OP_NOP1"
get_op_name Opcode.op_nop2 = "OP_NOP2"
get_op_name Opcode.op_nop3 = "OP_NOP3"
get_op_name Opcode.op_nop4 = "OP_NOP4"
get_op_name Opcode.op_nop5 = "OP_NOP5"
get_op_name Opcode.op_nop6 = "OP_NOP6"
get_op_name Opcode.op_nop7 = "OP_NOP7"
get_op_name Opcode.op_nop8 = "OP_NOP8"
get_op_name Opcode.op_nop9 = "OP_NOP9"
get_op_name Opcode.op_nop10 = "OP_NOP10"
get_op_name Opcode.op_pubkeyhash = "OP_PUBKEYHASH"
get_op_name Opcode.op_pubkey = "OP_PUBKEY"
get_op_name Opcode.op_invalidopcode = "OP_INVALIDOPCODE"
get_op_name (Opcode.unnamed n) = "OP_UNKNOWN"
