-- ===== src/Machine.antt =====
-- machine/machine.h, machine.cc, translate.h, translate.cc, mipssim.h and mipssim.cc: the simulated
-- MIPS computer; interrupt.cc, timer.cc, console.cc and disk.cc: its clock and devices. A 32-bit `int` or `unsigned` is its bit pattern, a number below `2 ^ 32`; a byte is
-- below 256. The host is little endian, so `WordToHost` and its like return their argument.
pub mod State
pub mod Translate
pub mod Memory
pub mod Mips
pub mod Interrupt
pub mod Disk
pub mod Devices
