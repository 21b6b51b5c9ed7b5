-- ===== src/Paging.antt =====
-- Physical frames, page tables and directories: src/impl/paging.c and src/include/paging.h.
pub mod Frames
pub mod Tables
pub mod Boot
pub mod Fault
mod Tests
