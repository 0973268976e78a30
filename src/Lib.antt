-- ===== src/Lib.antt =====
-- A model of the core of IronNet, the .NET virtual machine in C under DotNetAnywhere.
--
-- The machine loads an assembly (RVA.c copies its sections, MetaData.c decodes its tables), allocates
-- objects on a managed heap (Heap.c), and runs green threads (Thread.c) that share the heap, its
-- locks and the native methods of the class library (System.*.c).
--
-- Heap/Entry and Heap/Tree: DotNetAnywhere/Heap.c, the AA tree of the blocks. TreeSkew, TreeSplit,
-- TreeBalance, TreeSearch, TreeInsert and TreeRemove are skew, split, balance, search_block, insert
-- and remove. TreeRemove runs on fuel, of which the height of the tree is enough. The recursions
-- of the others are structural.
-- Heap/Mark: GC_Mark and Heap_SetRoots of Heap.c as gc_mark and set_roots, with 4-byte pointers. Its
-- loop runs on fuel: one round for each root and two for each block are enough. Heap/Mark/Roots:
-- Thread_GetHeapRoots, Generic_GetHeapRoots, MetaData_GetHeapRoots and CLIFile_GetHeapRoots.
-- Heap/Collect: GC_Sweep, GarbageCollect and Heap_Alloc of Heap.c. The marking is a parameter of the
-- last two, which Heap/Collect/Reachable puts gc_mark in for. The stack of the traversal is the
-- recursion on the tree.
-- Heap/Sync: EnsureSync to Heap_RemovedWeakRefTarget of Heap.c, the lock of one object. Heap/Sync/Lock
-- holds the reentrant lock that they are compared with.
-- Rva: DotNetAnywhere/RVA.c, over a memory of bytes (Prelude/Bytes).
-- MetaData/Sig: the compressed numbers of DotNetAnywhere/MetaData.c and the table indices of
-- MetaData.h.
-- MetaData/Tables: tableDefs, codedTags, LoadSingleTable, MetaData_LoadTables and
-- MetaData_GetTableRow of MetaData.c. Pointers have 8 bytes. Definitions holds the constant tables,
-- Counts the row counts and index widths, Load one table, and LoadAll all of them.
-- SystemString with Trim and IndexOf: natives of DotNetAnywhere/System.String.c on lists of
-- characters. The loop that trims the end runs on fuel: one that takes more rounds than the string
-- has characters has left the string, which is the result `none`.
-- SystemChar: DotNetAnywhere/System.Char.c, with the tables of System.Char.CaseConversion.h and
-- System.Char.UC_IndexRuns.h. The searches run on fuel: the length of the table is enough.
-- Thread: DotNetAnywhere/Thread.c. Thread_Execute is execute, run_slices and next_thread, both loops
-- on fuel; for next_thread the length of the list is enough while the last thread is running.
-- JIT_Execute, msTime and the check functions of blocking calls are parameters. Thread/Stack is
-- Thread_StackAlloc and Thread_StackFree.
-- SystemArray: natives of DotNetAnywhere/System.Array.c on the bytes of the memory.
-- Finalizer: DotNetAnywhere/Finalizer.c. Interlocked: DotNetAnywhere/System.Threading.Interlocked.c.
-- Interp: DotNetAnywhere/JIT_Execute.c while it runs one method state, on a 32-bit machine. Machine
-- holds its state and the macros PUSH_U32, POP_U32 and so on, each as an action of the same name;
-- StackOps, Locals, Branches, Arith, Convert and Objects hold the code of the op-codes, with one
-- constructor for each label or group of labels; Codes holds their numbers from JIT_OpCodes.h; Step
-- puts them together, and Run is the loop of GO_NEXT and GO_NEXT_CHECK. The loop runs on fuel: numInst
-- times one more than the length of the code is enough. Floating-point operations are parameters, and
-- so is Heap_AllocType. Exceptions end the run as a result of it. Interp/Exceptions holds JIT_THROW,
-- JIT_LEAVE and JIT_END_FINALLY on the stack of method states, as throw_object, leave and
-- end_finally; its recursions go down that stack, and where PUSH_O aborts there is no result.
-- Interp/Typing is a checker of the stack depth.
-- Jit: DotNetAnywhere/JIT.c, the translation of CIL into the op-codes of Interp, on a 32-bit machine.
-- jit_it is JITit and jit_loop its loop; Types holds the types that it names, and Loads, Branches,
-- Arith, Convert and Elements the cases of the switch, which jit_instruction of Translate puts
-- together. The loop runs on fuel: one round more than the code has bytes is enough. What TMALLOC
-- leaves in pJITOffsets is a parameter. An Outcome is a result, a Crash(), or an op-code that is
-- not modelled. Jit/Grows and Jit/Keeps are about the state before and after an
-- instruction, and Jit/Select about the numbers that it selects among those of Interp.
-- Prelude: lists, words, bits and bytes that these share.
--
-- Machine integers are natural numbers with their wrap-around written out; addresses are numbers, and 0
-- is NULL. A read outside an object, a Crash or an exit is `none`.
--
-- Not modelled: the cases of JITit that look names up in the metadata, the places of exception handlers
-- that it writes back and its sequence points, the op-codes of the interpreter
-- that call, return or allocate arrays and strings, types and generics, the loading of the PE
-- file, and the natives that only call the operating system. The older decompiler under
-- source_old and the viewer under test_tools are other programs.
pub mod Prelude
pub mod Heap
pub mod MetaData
pub mod Rva
pub mod SystemString
pub mod SystemArray
pub mod Finalizer
pub mod Interlocked
pub mod Thread
pub mod Interp
pub mod SystemChar
pub mod Jit
