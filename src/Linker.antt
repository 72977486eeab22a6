-- ===== src/Linker.antt =====
-- The dynamic linker, core/lnk*.cpp.
pub mod Chain
pub mod Lookup
pub mod Stream
pub mod Rebase
pub mod Trie
pub mod Export
pub mod Resolve
pub mod Load
pub mod Bind
pub mod Commands
pub mod Mapping
pub mod Classic
pub mod Bootstrap
pub mod Api
pub mod Elf
pub mod Main
