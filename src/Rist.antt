-- ===== src/Rist.antt =====
-- wolf/src/stream/rist.rs, with the C functions of wolf/sys/stream/rist.cpp and rist_data_block.cpp
-- that allocate and free what its wrappers point to.
--
-- A wrapper is a raw pointer into the heap of `Store`; a program is a list of commands on the wrappers
-- that it has in scope. librist is a parameter.
pub mod Store
pub mod Levels
pub mod Blocks
pub mod Context
mod Examples
