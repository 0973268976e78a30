-- ===== src/MetaData.antt =====
-- DotNetAnywhere/MetaData.c: the metadata of an assembly.
pub mod Sig
pub mod Tables
mod Examples
