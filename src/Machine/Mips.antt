-- ===== src/Machine/Mips.antt =====
-- machine/mipssim.h and mipssim.cc: the MIPS instructions that the simulator runs.
pub mod Decode
pub mod Execute
pub mod Mult
pub mod Word
