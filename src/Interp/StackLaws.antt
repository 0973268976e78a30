-- ===== src/Interp/StackLaws.antt =====
-- PUSH and POP where the new stack pointer is in its bounds.
use iron_net.Prelude.{ℕ, ◌+◌, ◌-◌, ◌^◌, ◌≤◌, ◌<◌, ◌≡◌, ◌||◌, false, ltb, refl, u32, sub_u32, arith}
use iron_net.Interp.Bytes.{load, store}
use iron_net.Interp.Machine.{
  Context, Machine, done, ◌>>=◌, push, pop, push_word, pop_word, get_sp, read, change, check_stack,
}

-- The stack is below 2 ^ 32.
abbrev pub IsPlaced : Context → Type 0
IsPlaced c = (c.eval_stack ≤ c.params_locals) × (c.params_locals < 2 ^ 32)

abbrev pub with_sp : Machine → ℕ → Machine
with_sp m p = record { mem = m.mem; sp = p; pc = m.pc }

module _ (c : Context) (placed : IsPlaced c) where
  check_stack-fits :
      (m : Machine) → c.eval_stack ≤ m.sp → m.sp ≤ c.params_locals → check_stack c m ≡ done tt m
  unfolding check_stack
  check_stack-fits m lo hi =
      let checked : (ltb m.sp c.eval_stack || ltb c.params_locals m.sp) ≡ false = ground arith in
      rw checked refl

  pub push-fits :
      (n : ℕ) (m : Machine)
      → c.eval_stack ≤ m.sp
      → m.sp + n ≤ c.params_locals
      → push n c m ≡ done tt (with_sp m (m.sp + n))
  unfolding push
  push-fits n m lo hi =
      let same : u32 (m.sp + n) ≡ m.sp + n = omega (arith, placed.1) in
      rw (push, same) (check_stack-fits (with_sp m (m.sp + n)) (omega arith) hi)

  pub pop-fits :
      (n : ℕ) (m : Machine)
      → c.eval_stack + n ≤ m.sp
      → m.sp ≤ c.params_locals
      → pop n c m ≡ done tt (with_sp m (m.sp - n))
  unfolding pop
  pop-fits n m lo hi =
      let same : sub_u32 m.sp n ≡ m.sp - n = omega (arith, placed.1) in
      rw (pop, same) (check_stack-fits (with_sp m (m.sp - n)) (omega arith) (omega arith))

  pub push_word-fits :
      (n v : ℕ) (m : Machine)
      → c.eval_stack ≤ m.sp
      → m.sp + n ≤ c.params_locals
      → push_word n v c m
        ≡ done tt (record { mem = store n m.mem m.sp v; sp = m.sp + n; pc = m.pc })
  unfolding push_word ◌>>=◌ get_sp change
  push_word-fits n v m lo hi =
      push-fits n (record { mem = store n m.mem m.sp v; sp = m.sp; pc = m.pc }) lo hi

  pub pop_word-fits :
      (n : ℕ) (m : Machine)
      → c.eval_stack + n ≤ m.sp
      → m.sp ≤ c.params_locals
      → pop_word n c m ≡ done (load n m.mem (m.sp - n)) (with_sp m (m.sp - n))
  unfolding pop_word ◌>>=◌ get_sp read
  pop_word-fits n m lo hi = rw (pop-fits n m lo hi) refl
