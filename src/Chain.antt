-- ===== src/Chain.antt =====
-- src/main.h, src/main.cpp and src/auxpow.cpp: the rules for a chain of blocks.
pub mod Subsidy
pub mod Merkle
pub mod Header
pub mod AuxPow
pub mod Work
pub mod Block
mod Tests
