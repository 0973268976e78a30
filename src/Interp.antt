-- ===== src/Interp.antt =====
-- DotNetAnywhere/JIT_Execute.c: the interpreter of the op-codes that JIT.c makes of a method.
mod Bytes
mod Machine
mod Ints
mod StackOps
mod Locals
pub mod Branches
pub mod Arith
mod Convert
mod Objects
mod Relation
pub mod Step
pub mod Codes
mod Run
mod Keeps
mod Bounds
mod Termination
mod Overflow
mod StackLaws
mod Words
mod FloatBug
mod Examples
mod Exceptions
mod Typing
