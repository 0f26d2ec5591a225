-- ===== src/Elf.antt =====
-- native/abnativeelf.cpp and native/abnativeelf.hpp: what autobuild reads from a binary, and what
-- it does with its debug symbols.
pub mod Arch
pub mod Arm
pub mod Builtin
pub mod CopyAll
pub mod Identify
pub mod Parallel
pub mod Paths
pub mod Sections
pub mod Strip
mod Tests
