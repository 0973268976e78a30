-- ===== src/Thread/Stack.antt =====
-- DotNetAnywhere/Thread.c, Thread_StackAlloc and Thread_StackFree (without _DEBUG): one chunk of
-- THREADSTACK_CHUNK_SIZE bytes, at the address `memory`, filled up to `ofs`, a U32.
use iron_net.Prelude.{
  ℕ, ◌+◌, ◌-◌, ◌^◌, ◌<◌, ◌≤◌, ◌≡◌, Option, none, some, ltb, if◌then◌else◌, u32, arith,
}

abbrev pub threadstack_chunk_size : ℕ
threadstack_chunk_size = 50000

-- Thread_StackAlloc: the address of the frame, and the new `ofs`. `none` is Crash.
unfoldable pub stack_alloc : ℕ → ℕ → ℕ → Option (ℕ × ℕ)
stack_alloc memory ofs size =
    if ltb threadstack_chunk_size (u32 (ofs + size))
    then none
    else some (memory + ofs, u32 (ofs + size))

-- Thread_StackFree: the new `ofs`.
unfoldable pub stack_free : ℕ → ℕ → ℕ
stack_free memory addr = u32 (addr - memory)

-- A frame that StackAlloc gives begins where the stack ended, lies in the chunk, and StackFree of it
-- takes the stack back to where it was, if the stack was in the chunk and the size asked for leaves
-- room below 2 ^ 32.
stack_alloc-frame :
    (memory ofs size addr ofs' : ℕ)
    → ofs ≤ threadstack_chunk_size
    → size < 2 ^ 32 - threadstack_chunk_size
    → stack_alloc memory ofs size ≡ some (addr, ofs')
    → (addr ≡ memory + ofs)
      × (ofs' ≡ ofs + size)
      × (addr + size ≤ memory + threadstack_chunk_size)
      × (stack_free memory addr ≡ ofs)
unfolding stack_alloc stack_free
stack_alloc-frame memory ofs size addr ofs' h small got =
    (ground arith, ground arith, ground arith, ground arith)
