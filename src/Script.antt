-- ===== src/Script.antt =====
-- The scripts of src/script.h and src/script.cpp.
pub mod Opcode
pub mod Parse
pub mod Machine
pub mod Sighash
pub mod Ops
pub mod Switch
pub mod Eval
pub mod Standard
pub mod Solver
mod Tests
