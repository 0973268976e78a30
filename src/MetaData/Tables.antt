-- ===== src/MetaData/Tables.antt =====
-- DotNetAnywhere/MetaData.c, MetaData_LoadTables and LoadSingleTable: the tables of an assembly, read
-- from the "#~" stream into rows of fixed size. The definitions are the strings of the source: pairs
-- of a source character and a destination character. Pointers have eight bytes, and a failed check
-- (Crash, exit) is `none`.
pub mod Definitions
pub mod Counts
pub mod Load
pub mod LoadAll
