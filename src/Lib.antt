-- ===== src/Lib.antt =====
-- ixcoin: the rules by which a node judges scripts, transactions and the work of blocks.
--
-- The program keeps a chain of blocks. A block is taken if its hash, or that of a block of another
-- chain that carries it (merged mining), is low enough, if its transactions are well formed, and if
-- each input of a transaction names an output whose script accepts the script of the input. The
-- modules follow the source, with paths from the root of the repository:
--
-- - Common: numbers, lists, integers, machine words and the bind of results that may fail.
-- - Serialize: src/serialize.h. A stream is a list of bytes; a reader returns what it read and what
--   is left, or none for the exception of the source.
-- - Bignum: src/bignum.h. A `CBigNum` stands for an integer. The functions of OpenSSL are the
--   parameter `BnLib`, what its manual says of them is `BnLaws`, and Bignum.Instance is a concrete
--   one.
-- - Hash: `Hash` and `Hash160` of src/util.h over the digests of OpenSSL, the parameter `HashLib`.
-- - Tx: the outpoints, inputs, outputs and transactions of src/main.h, their format (Tx.Serial),
--   and `CheckTransaction`, `GetValueOut` and `GetMinFee` (Tx.Check).
-- - Script: src/script.h and src/script.cpp. Script.Opcode and Script.Parse are the format,
--   Script.Ops the operations by kind, Script.Switch the switch over them, Script.Eval the loop of
--   `EvalScript` and `VerifyScript`, Script.Sighash `SignatureHash` and `CheckSig`, Script.Standard
--   the script that pays to the hash of a key, Script.Solver the standard forms. The elliptic curve
--   behind `CKey` is the parameter `KeyLib`. A machine holds the two stacks, the open conditionals,
--   the count of operations and the script since the last separator; the last element of a vector
--   comes first in its list.
-- - Chain: `GetBlockValue` (Chain.Subsidy), the hash trees of `CBlock` (Chain.Merkle), the header
--   (Chain.Header), `CAuxPow::Check` of src/auxpow.cpp (Chain.AuxPow), `GetNextWorkRequired` and
--   `CheckProofOfWork` of src/main.cpp (Chain.Work), `CheckBlock` (Chain.Block).
-- - Ledger: `CTxIndex` and its database (src/db.cpp), `VerifySignature`, and `ConnectInputs`,
--   `DisconnectInputs`, `ConnectBlock` and `DisconnectBlock` of src/main.cpp (Ledger.Connect,
--   Ledger.Blocks). Ledger.Coins is the specification, a function from outpoints to unspent
--   outputs. A map is a function, and `none` an answer of false, behind which the caller gives the
--   database transaction up. What stands in the block files, and whether the database takes a
--   change, are the record `Node`.
-- - Mempool: `mapTransactions` and `mapNextTx` of src/main.cpp, and what enters and leaves them.
-- - Reorganize: `Reorganize` of src/main.cpp. A chain is a list of blocks, the last one first, and
--   stands for the pointer to that block.
-- - Accept: `AcceptBlock`, `AddToBlockIndex` and `SetBestChain` of src/main.cpp,
--   `GetMedianTimePast` and `GetBlockWork` of src/main.h. Accept.Globals holds the global variables
--   that they change.
-- - Orphans: `ProcessBlock` of src/main.cpp and the blocks that wait for the one before. Its queue
--   has the number of the orphans and one as fuel.
-- - Uint: the words of `base_uint` in src/uint256.h.
-- - Base58: src/base58.h. A C string is the list of the codes of its characters.
--
-- A loop over a script runs on fuel, the length of the script: an operation takes a byte at least,
-- and `stuck` marks that the fuel ran out. The levels of a hash tree have the number of the leaves
-- as fuel. An `unsigned int` and a `uint256` are numbers, an `int` and an `int64` integers, with
-- the wrap of sums of amounts written out. Allocation does not fail.
--
-- Not modelled: the network, the format of the databases, the user interface and the remote calls,
-- which move data in and out; the copies of json_spirit and Crypto++; the wallet; the orphan
-- transactions.
pub mod Common
pub mod Serialize
pub mod Tx
pub mod Bignum
pub mod Hash
pub mod Script
pub mod Chain
pub mod Ledger
pub mod Mempool
pub mod Reorganize
pub mod Uint
pub mod Base58
pub mod Accept
pub mod Orphans
