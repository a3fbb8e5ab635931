-- ===== src/Script/Opcode.antt =====
-- src/script.h: the opcodes and their numbers.
pub mod Names
use ixcoin.Common.{ℕ, ◌-◌, List, [], ◌∷◌, ltb, leb, ◌==◌, if◌then◌else◌, get_or, Bool}

-- `opcodetype`. The bytes 0 to 75 are the sizes of the data that follows (0 is OP_0 and OP_FALSE), and
-- the numbers with no name in the source are `unnamed`. OP_TRUE is OP_1.
pub data Opcode : Type 0 where
  push_size : ℕ → Opcode
  op_pushdata1 op_pushdata2 op_pushdata4 op_1negate op_reserved op_1 op_2 op_3 op_4 op_5 : Opcode
  op_6 op_7 op_8 op_9 op_10 op_11 op_12 op_13 op_14 op_15 op_16 op_nop op_ver op_if : Opcode
  op_notif op_verif op_vernotif op_else op_endif op_verify op_return op_toaltstack : Opcode
  op_fromaltstack op_2drop op_2dup op_3dup op_2over op_2rot op_2swap op_ifdup op_depth : Opcode
  op_drop op_dup op_nip op_over op_pick op_roll op_rot op_swap op_tuck op_cat op_substr : Opcode
  op_left op_right op_size op_invert op_and op_or op_xor op_equal op_equalverify : Opcode
  op_reserved1 op_reserved2 op_1add op_1sub op_2mul op_2div op_negate op_abs op_not : Opcode
  op_0notequal op_add op_sub op_mul op_div op_mod op_lshift op_rshift op_booland op_boolor : Opcode
  op_numequal op_numequalverify op_numnotequal op_lessthan op_greaterthan : Opcode
  op_lessthanorequal op_greaterthanorequal op_min op_max op_within op_ripemd160 op_sha1 : Opcode
  op_sha256 op_hash160 op_hash256 op_codeseparator op_checksig op_checksigverify : Opcode
  op_checkmultisig op_checkmultisigverify op_nop1 op_nop2 op_nop3 op_nop4 op_nop5 op_nop6 : Opcode
  op_nop7 op_nop8 op_nop9 op_nop10 op_pubkeyhash op_pubkey op_invalidopcode : Opcode
  unnamed : ℕ → Opcode

-- The enumeration from OP_PUSHDATA1 = 76 on, in its order.
abbrev named : List Opcode
named =
    op_pushdata1 ∷ op_pushdata2 ∷ op_pushdata4 ∷ op_1negate ∷ op_reserved ∷ op_1 ∷ op_2 ∷ op_3
    ∷ op_4 ∷ op_5 ∷ op_6 ∷ op_7 ∷ op_8 ∷ op_9 ∷ op_10 ∷ op_11 ∷ op_12 ∷ op_13 ∷ op_14 ∷ op_15
    ∷ op_16 ∷ op_nop ∷ op_ver ∷ op_if ∷ op_notif ∷ op_verif ∷ op_vernotif ∷ op_else ∷ op_endif
    ∷ op_verify ∷ op_return ∷ op_toaltstack ∷ op_fromaltstack ∷ op_2drop ∷ op_2dup ∷ op_3dup
    ∷ op_2over ∷ op_2rot ∷ op_2swap ∷ op_ifdup ∷ op_depth ∷ op_drop ∷ op_dup ∷ op_nip ∷ op_over
    ∷ op_pick ∷ op_roll ∷ op_rot ∷ op_swap ∷ op_tuck ∷ op_cat ∷ op_substr ∷ op_left ∷ op_right
    ∷ op_size ∷ op_invert ∷ op_and ∷ op_or ∷ op_xor ∷ op_equal ∷ op_equalverify ∷ op_reserved1
    ∷ op_reserved2 ∷ op_1add ∷ op_1sub ∷ op_2mul ∷ op_2div ∷ op_negate ∷ op_abs ∷ op_not
    ∷ op_0notequal ∷ op_add ∷ op_sub ∷ op_mul ∷ op_div ∷ op_mod ∷ op_lshift ∷ op_rshift ∷ op_booland
    ∷ op_boolor ∷ op_numequal ∷ op_numequalverify ∷ op_numnotequal ∷ op_lessthan ∷ op_greaterthan
    ∷ op_lessthanorequal ∷ op_greaterthanorequal ∷ op_min ∷ op_max ∷ op_within ∷ op_ripemd160
    ∷ op_sha1 ∷ op_sha256 ∷ op_hash160 ∷ op_hash256 ∷ op_codeseparator ∷ op_checksig
    ∷ op_checksigverify ∷ op_checkmultisig ∷ op_checkmultisigverify ∷ op_nop1 ∷ op_nop2 ∷ op_nop3
    ∷ op_nop4 ∷ op_nop5 ∷ op_nop6 ∷ op_nop7 ∷ op_nop8 ∷ op_nop9 ∷ op_nop10 ∷ []

-- `(opcodetype)opcode` for the byte `opcode`.
unfoldable pub of_byte : ℕ → Opcode
of_byte b =
    if leb b 75
    then push_size b
    else if b == 253
    then op_pubkeyhash
    else if b == 254
    then op_pubkey
    else if b == 255
    then op_invalidopcode
    else get_or named (b - 76) (unnamed b)

-- The number of an opcode.
unfoldable pub value : Opcode → ℕ
value (push_size n) = n
value op_pushdata1 = 76
value op_pushdata2 = 77
value op_pushdata4 = 78
value op_1negate = 79
value op_reserved = 80
value op_1 = 81
value op_2 = 82
value op_3 = 83
value op_4 = 84
value op_5 = 85
value op_6 = 86
value op_7 = 87
value op_8 = 88
value op_9 = 89
value op_10 = 90
value op_11 = 91
value op_12 = 92
value op_13 = 93
value op_14 = 94
value op_15 = 95
value op_16 = 96
value op_nop = 97
value op_ver = 98
value op_if = 99
value op_notif = 100
value op_verif = 101
value op_vernotif = 102
value op_else = 103
value op_endif = 104
value op_verify = 105
value op_return = 106
value op_toaltstack = 107
value op_fromaltstack = 108
value op_2drop = 109
value op_2dup = 110
value op_3dup = 111
value op_2over = 112
value op_2rot = 113
value op_2swap = 114
value op_ifdup = 115
value op_depth = 116
value op_drop = 117
value op_dup = 118
value op_nip = 119
value op_over = 120
value op_pick = 121
value op_roll = 122
value op_rot = 123
value op_swap = 124
value op_tuck = 125
value op_cat = 126
value op_substr = 127
value op_left = 128
value op_right = 129
value op_size = 130
value op_invert = 131
value op_and = 132
value op_or = 133
value op_xor = 134
value op_equal = 135
value op_equalverify = 136
value op_reserved1 = 137
value op_reserved2 = 138
value op_1add = 139
value op_1sub = 140
value op_2mul = 141
value op_2div = 142
value op_negate = 143
value op_abs = 144
value op_not = 145
value op_0notequal = 146
value op_add = 147
value op_sub = 148
value op_mul = 149
value op_div = 150
value op_mod = 151
value op_lshift = 152
value op_rshift = 153
value op_booland = 154
value op_boolor = 155
value op_numequal = 156
value op_numequalverify = 157
value op_numnotequal = 158
value op_lessthan = 159
value op_greaterthan = 160
value op_lessthanorequal = 161
value op_greaterthanorequal = 162
value op_min = 163
value op_max = 164
value op_within = 165
value op_ripemd160 = 166
value op_sha1 = 167
value op_sha256 = 168
value op_hash160 = 169
value op_hash256 = 170
value op_codeseparator = 171
value op_checksig = 172
value op_checksigverify = 173
value op_checkmultisig = 174
value op_checkmultisigverify = 175
value op_nop1 = 176
value op_nop2 = 177
value op_nop3 = 178
value op_nop4 = 179
value op_nop5 = 180
value op_nop6 = 181
value op_nop7 = 182
value op_nop8 = 183
value op_nop9 = 184
value op_nop10 = 185
value op_pubkeyhash = 253
value op_pubkey = 254
value op_invalidopcode = 255
value (unnamed n) = n
