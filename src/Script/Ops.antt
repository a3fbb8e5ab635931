-- ===== src/Script/Ops.antt =====
-- The cases of the switch of `EvalScript` in src/script.cpp. `none` is `return false` or an exception.
pub mod Stack
pub mod Splice
pub mod Numeric
pub mod Crypto
pub mod Multisig
pub mod Keep
pub mod Items
