-- ===== src/Interp/Typing/Steps.antt =====
-- What the checker of the stack depth says of single op-codes.
use iron_net.Prelude.{
  ℕ, ◌+◌, ◌-◌, ◌^◌, ◌≤◌, ◌≡◌, refl, ap, sym, ◌∙◌, Bool, true, false, ◌||◌, leb, ltb, if◌then◌else◌,
  Option, none, some, Bool-cases, inl, inr, arith, sub_u32, Memory,
}
use mathlib.Core.Option.{some-injective, none-ne-some}
use mathlib.Core.Path.{subst}
use iron_net.Interp.Bytes.{load, store}
use iron_net.Interp.Machine.{
  Context, Machine, Exec, ◌>>=◌, and_then, give, given, throw, no_meaning, push_word, get_sp, read,
  change, get_floats,
}
use iron_net.Interp.Ints.{ℤ, pos, negsuc, ltb_ℤ, word}
use iron_net.Interp.StackLaws.{IsPlaced, with_sp, pop-fits, push_word-fits}
use iron_net.Interp.StackOps.{
  StackOp, nop, load_null, dup_4, dup_8, pop_4, load_i4_m1, load_i4_0, load_i4_1, load_i4_2,
  exec_stack,
}
use iron_net.Interp.Branches.{pop_two}
use iron_net.Interp.Arith.{
  Binary, OverflowOp, compare_macro, arith_macro, binary_op, exec_overflow, checked_signed,
  checked_unsigned, add_ovf_i32i32, add_ovf_un_i32i32, mul_ovf_i32i32, mul_ovf_un_i32i32,
  sub_ovf_i32i32, sub_ovf_un_i32i32,
}
use iron_net.Interp.Step.{Op, stack_op, compare_op, arith_op, overflow_op, exec_op}
use iron_net.Interp.Typing.{binary_effect, effect, Safe}

Safe-given :
    (c : Context) (o : Option ℕ) (m : Machine) (p : ℕ) (f : ℕ → Memory → Memory)
    → m.sp ≡ p
    → Safe (λ m'. m'.sp ≡ p) (and_then (given o c m) (λ v. change (f v) c))
unfolding given give no_meaning change
Safe-given c none m p f e = tt
Safe-given c (some v) m p f e = e

pub if-true : {A : Type 0} {b : Bool} (x y : A) → b ≡ true → (if b then x else y) ≡ x
if-true x y e = rw e refl

pub if-false : {A : Type 0} {b : Bool} (x y : A) → b ≡ false → (if b then x else y) ≡ y
if-false x y e = rw e refl

module _ (c : Context) (placed : IsPlaced c) (m : Machine) where
  abbrev At : ℕ → Machine → Type 0
  At p m' = m'.sp ≡ p

  push_word-Safe :
      (n v p : ℕ)
      → c.eval_stack ≤ m.sp
      → m.sp + n ≡ p
      → p ≤ c.params_locals
      → Safe (At p) (push_word n v c m)
  push_word-Safe n v p lo e hi = rw (Safe, push_word-fits c placed n v m lo (omega arith)) e

  binary_op-Safe :
      (b : Binary) (p : ℕ)
      → b.result_size ≤ b.left_size + b.right_size
      → c.eval_stack + (b.left_size + b.right_size) ≤ m.sp
      → m.sp ≤ c.params_locals
      → m.sp - (b.left_size + b.right_size) + b.result_size ≡ p
      → Safe (At p) (binary_op b c m)
  unfolding binary_op ◌>>=◌ get_sp read change
  binary_op-Safe b p small lo hi e =
      let k = b.left_size + b.right_size - b.result_size in
      let q = sub_u32 (m.sp - k) b.result_size in
      let left = load b.left_size m.mem q in
      let right = load b.right_size m.mem (q + b.left_size) in
      rw (binary_op, pop-fits c placed k m (omega arith) hi)
        (Safe-given c (b.operator left right) (with_sp m (m.sp - k)) p
          (λ v mem. store b.result_size mem q v) (omega arith))

  binary_effect-Safe :
      (binary : Binary) (d a b : ℕ)
      → binary_effect binary ≡ some (a, b)
      → m.sp ≡ c.eval_stack + d
      → a ≤ d
      → m.sp ≤ c.params_locals
      → Safe (At (c.eval_stack + (d - a + b))) (binary_op binary c m)
  binary_effect-Safe binary d a b e depth enough hi =
      elim (Bool-cases (leb binary.result_size (binary.left_size + binary.right_size))) [
        | inl fits ↦
            let sizes : (binary.left_size + binary.right_size, binary.result_size) ≡ (a, b) =
              some-injective _ _ (sym (if-true _ _ fits) ∙ e) in
            let taken : binary.left_size + binary.right_size ≡ a = ap (λ t. t.0) sizes in
            let left : binary.result_size ≡ b = ap (λ t. t.1) sizes in
            binary_op-Safe binary (c.eval_stack + (d - a + b)) (ground arith) (omega arith) hi
              (omega arith)
        | inr wide ↦ absurd (none-ne-some _ (sym (if-false _ _ wide) ∙ e))
      ]

module _ (c : Context) (placed : IsPlaced c) where
  module _ (m : Machine) (p : ℕ) (lo : c.eval_stack ≤ m.sp) (e : m.sp + 4 ≡ p)
      (hi : p ≤ c.params_locals) where
    checked_signed-Safe : (z : ℤ) → Safe (λ m'. m'.sp ≡ p) (checked_signed z c m)
    unfolding checked_signed throw
    checked_signed-Safe z =
        elim (Bool-cases (ltb_ℤ (pos (2 ^ 31 - 1)) z || ltb_ℤ z (negsuc (2 ^ 31 - 1)))) [
          | inl out ↦ rw (checked_signed, out) tt
          | inr in_range ↦
              rw (checked_signed, in_range)
                (push_word-Safe c placed m 4 (word (2 ^ 31) z) p lo e hi)
        ]

    checked_unsigned-Safe : (n : ℕ) → Safe (λ m'. m'.sp ≡ p) (checked_unsigned n c m)
    unfolding checked_unsigned throw
    checked_unsigned-Safe n = elim (Bool-cases (ltb (2 ^ 32 - 1) n)) [
      | inl out ↦ rw (checked_unsigned, out) tt
      | inr in_range ↦ rw (checked_unsigned, in_range) (push_word-Safe c placed m 4 n p lo e hi)
    ]

  module _ (m : Machine) (d : ℕ) (depth : m.sp ≡ c.eval_stack + d)
      (hi : m.sp ≤ c.params_locals) where
    pop_two-Safe :
        (f : ℕ → ℕ → Exec (Unit {0})) (p : ℕ)
        → 8 ≤ d
        → ((v1 v2 : ℕ) → Safe (λ m'. m'.sp ≡ p) (f v1 v2 c (with_sp m (m.sp - 8))))
        → Safe (λ m'. m'.sp ≡ p) (pop_two 4 f c m)
    unfolding ◌>>=◌ get_sp read
    pop_two-Safe f p enough rest =
        rw (pop-fits c placed 8 m (omega arith) hi)
          (rest (load 4 m.mem (m.sp - 8)) (load 4 m.mem (m.sp - 8 + 4)))

    signed-Safe :
        (z : ℕ → ℕ → ℤ)
        → 8 ≤ d
        → Safe
            (λ m'. m'.sp ≡ c.eval_stack + (d - 8 + 4))
            (pop_two 4 (λ v1 v2. checked_signed (z v1 v2)) c m)
    signed-Safe z enough =
        pop_two-Safe (λ v1 v2. checked_signed (z v1 v2)) (c.eval_stack + (d - 8 + 4)) enough
          (λ v1 v2.
            checked_signed-Safe (with_sp m (m.sp - 8)) (c.eval_stack + (d - 8 + 4)) (omega arith)
              (omega arith) (omega arith) (z v1 v2))

    unsigned-Safe :
        (n : ℕ → ℕ → ℕ)
        → 8 ≤ d
        → Safe
            (λ m'. m'.sp ≡ c.eval_stack + (d - 8 + 4))
            (pop_two 4 (λ v1 v2. checked_unsigned (n v1 v2)) c m)
    unsigned-Safe n enough =
        pop_two-Safe (λ v1 v2. checked_unsigned (n v1 v2)) (c.eval_stack + (d - 8 + 4)) enough
          (λ v1 v2.
            checked_unsigned-Safe (with_sp m (m.sp - 8)) (c.eval_stack + (d - 8 + 4)) (omega arith)
              (omega arith) (omega arith) (n v1 v2))

    exec_overflow-Safe :
        (op : OverflowOp)
        → 8 ≤ d
        → Safe (λ m'. m'.sp ≡ c.eval_stack + (d - 8 + 4)) (exec_overflow op c m)
    unfolding exec_overflow
    exec_overflow-Safe add_ovf_i32i32 enough = signed-Safe _ enough
    exec_overflow-Safe add_ovf_un_i32i32 enough = unsigned-Safe _ enough
    exec_overflow-Safe mul_ovf_i32i32 enough = signed-Safe _ enough
    exec_overflow-Safe mul_ovf_un_i32i32 enough = unsigned-Safe _ enough
    exec_overflow-Safe sub_ovf_i32i32 enough = signed-Safe _ enough
    exec_overflow-Safe sub_ovf_un_i32i32 enough = unsigned-Safe _ enough

    module _ (a b : ℕ) (enough : a ≤ d) (room : c.eval_stack + (d - a + b) ≤ c.params_locals) where
      abbrev Left : Machine → Type 0
      Left m' = m'.sp ≡ c.eval_stack + (d - a + b)

      pushes :
          (n v : ℕ)
          → ◌≡◌ {A = Option (ℕ × ℕ)} (some (0, n)) (some (a, b))
          → Safe Left (push_word n v c m)
      pushes n v e =
          let none_taken : 0 ≡ a = ap (λ t. t.0) (some-injective _ _ e) in
          let size : n ≡ b = ap (λ t. t.1) (some-injective _ _ e) in
          push_word-Safe c placed m n v (c.eval_stack + (d - a + b)) (omega arith) (omega arith)
            room

      duplicates :
          (n v : ℕ)
          → ◌≡◌ {A = Option (ℕ × ℕ)} (some (n, n + n)) (some (a, b))
          → Safe Left (push_word n v c m)
      duplicates n v e =
          let taken : n ≡ a = ap (λ t. t.0) (some-injective _ _ e) in
          let size : n + n ≡ b = ap (λ t. t.1) (some-injective _ _ e) in
          push_word-Safe c placed m n v (c.eval_stack + (d - a + b)) (omega arith) (omega arith)
            room

      exec_stack-Safe :
          (op : StackOp)
          → effect c.floats (stack_op op) ≡ some (a, b)
          → Safe Left (exec_stack op c m)
      unfolding exec_stack give ◌>>=◌ get_sp read
      exec_stack-Safe nop e =
          let none_taken : 0 ≡ a = ap (λ t. t.0) (some-injective _ _ e) in
          let none_left : 0 ≡ b = ap (λ t. t.1) (some-injective _ _ e) in omega arith
      exec_stack-Safe load_null e = pushes 4 0 e
      exec_stack-Safe load_i4_m1 e = pushes 4 (2 ^ 32 - 1) e
      exec_stack-Safe load_i4_0 e = pushes 4 0 e
      exec_stack-Safe load_i4_1 e = pushes 4 1 e
      exec_stack-Safe load_i4_2 e = pushes 4 2 e
      exec_stack-Safe dup_4 e = duplicates 4 (load 4 m.mem (sub_u32 m.sp 4)) e
      exec_stack-Safe dup_8 e = duplicates 8 (load 8 m.mem (sub_u32 m.sp 8)) e
      exec_stack-Safe pop_4 e =
          let taken : 4 ≡ a = ap (λ t. t.0) (some-injective _ _ e) in
          let none_left : 0 ≡ b = ap (λ t. t.1) (some-injective _ _ e) in
          rw (Safe, pop-fits c placed 4 m (omega arith) hi) (omega arith)
      exec_stack-Safe _ e = absurd (none-ne-some _ e)

      pub exec_op-Safe : (op : Op) → effect c.floats op ≡ some (a, b) → Safe Left (exec_op op c m)
      unfolding exec_op ◌>>=◌ get_floats
      exec_op-Safe (stack_op op) e = exec_stack-Safe op e
      exec_op-Safe (compare_op op) e =
          binary_effect-Safe c placed m (compare_macro c.floats op) d a b e depth enough hi
      exec_op-Safe (arith_op op) e =
          binary_effect-Safe c placed m (arith_macro c.floats op) d a b e depth enough hi
      exec_op-Safe (overflow_op op) e =
          let taken : 8 ≡ a = ap (λ t. t.0) (some-injective _ _ e) in
          let left : 4 ≡ b = ap (λ t. t.1) (some-injective _ _ e) in
          let same : c.eval_stack + (d - 8 + 4) ≡ c.eval_stack + (d - a + b) = omega arith in
          subst (λ p. Safe (λ m'. m'.sp ≡ p) (exec_overflow op c m)) same
            (exec_overflow-Safe op (omega arith))
      exec_op-Safe _ e = absurd (none-ne-some _ e)
