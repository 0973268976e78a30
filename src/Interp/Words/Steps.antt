-- ===== src/Interp/Words/Steps.antt =====
-- The op-codes on words of 4 bytes, on the bytes of the evaluation stack and on the list of words.
use iron_net.Prelude.{
  ℕ, suc, ◌+◌, ◌-◌, ◌*◌, ◌^◌, ◌≤◌, ◌≡◌, ◌==◌, refl, ap, sym, ◌∙◌, u32, sub_u32, List, ◌∷◌, length,
  Option, none, some, arith, Bool, ◌%◌, if◌then◌else◌,
}
use mathlib.Core.Path.{subst}
use mathlib.Core.Option.{some-injective, none-ne-some}
use iron_net.Interp.Bytes.{load, store}
use iron_net.Interp.StackLaws.{IsPlaced, with_sp, pop-fits, push_word-fits}
use iron_net.Interp.Machine.{
  Context, Machine, done, ◌>>=◌, push_word, get_sp, read, change, given, give, get_floats,
}
use iron_net.Interp.StackOps.{
  StackOp, nop, load_null, dup_4, pop_4, load_i4_m1, load_i4_0, load_i4_1, load_i4_2, exec_stack,
}
use iron_net.Interp.Arith.{
  Binary, CompareOp, ArithOp, compare_macro, arith_macro, binary_op, unary_in_place, exec_unary,
  neg_i32, not_i32,
}
use iron_net.Interp.Words.Agree.{Gives, compare-Gives, arith-Gives}
use iron_net.Interp.Step.{Op, stack_op, compare_op, arith_op, unary_op, exec_op}
use iron_net.Interp.Words.{
  step_words, word_test, word_arith, Represents, Reaches, Holds-store, stored_word,
}

module _ (c : Context) (placed : IsPlaced c) (m : Machine) where
  module _ (ws : List ℕ) (held : Represents c m ws) where
    push_word-Reaches :
        (v : ℕ)
        → c.eval_stack + 4 * suc (length ws) ≤ c.params_locals
        → Reaches c m (u32 v ∷ ws) (push_word 4 v c m)
    push_word-Reaches v room =
        let at_end : c.eval_stack + 4 * length ws ≡ m.sp = sym held.0 in
        (
          record { mem = store 4 m.mem m.sp v; sp = m.sp + 4; pc = m.pc },
          push_word-fits c placed 4 v m (omega arith) (omega arith),
          (
            omega arith,
            (
              rw at_end (stored_word m.mem m.sp v),
              omega arith,
              Holds-store m.mem c.eval_stack m.sp v ws (omega arith) held.1,
            ),
          ),
          refl,
        )

  -- A binary operation on 4-byte operands, where it has a result.
  binary_op-at :
      (b : Binary) (v1 v2 v : ℕ)
      → b.result_size ≡ 4
      → b.left_size ≡ 4
      → b.right_size ≡ 4
      → c.eval_stack + 8 ≤ m.sp
      → m.sp ≤ c.params_locals
      → load 4 m.mem (m.sp - 8) ≡ v1
      → load 4 m.mem (m.sp - 4) ≡ v2
      → b.operator v1 v2 ≡ some v
      → binary_op b c m
        ≡ done tt (record { mem = store 4 m.mem (m.sp - 8) v; sp = m.sp - 4; pc = m.pc })
  unfolding binary_op ◌>>=◌ get_sp read change given give
  binary_op-at b v1 v2 v result left right lo hi first second value =
      let below : sub_u32 (m.sp - 4) 4 ≡ m.sp - 8 = omega (arith, placed.1) in
      let above : m.sp - 8 + 4 ≡ m.sp - 4 = omega arith in
      rw
        (
          binary_op,
          result,
          left,
          right,
          pop-fits c placed 4 m (omega arith) hi,
          below,
          above,
          first,
          second,
          value,
        )
        refl

  binary_op-Reaches :
      (b : Binary) (v1 v2 v : ℕ) (ws : List ℕ)
      → b.result_size ≡ 4
      → b.left_size ≡ 4
      → b.right_size ≡ 4
      → b.operator v1 v2 ≡ some v
      → m.sp ≤ c.params_locals
      → Represents c m (v2 ∷ (v1 ∷ ws))
      → Reaches c m (u32 v ∷ ws) (binary_op b c m)
  binary_op-Reaches b v1 v2 v ws result left right value hi held =
      let first_at : c.eval_stack + 4 * length ws ≡ m.sp - 8 = omega (arith, held.0) in
      let second_at : c.eval_stack + 4 * suc (length ws) ≡ m.sp - 4 = omega (arith, held.0) in
      let first : load 4 m.mem (m.sp - 8) ≡ v1 = ap (load 4 m.mem) (sym first_at) ∙ held.1.2.0 in
      let second : load 4 m.mem (m.sp - 4) ≡ v2 = ap (load 4 m.mem) (sym second_at) ∙ held.1.0 in
      (
        record { mem = store 4 m.mem (m.sp - 8) v; sp = m.sp - 4; pc = m.pc },
        binary_op-at b v1 v2 v result left right (omega arith) hi first second value,
        (
          omega arith,
          (
            rw first_at (stored_word m.mem (m.sp - 8) v),
            omega arith,
            Holds-store m.mem c.eval_stack (m.sp - 8) v ws (omega arith) held.1.2.2,
          ),
        ),
        refl,
      )

  dup_4-Reaches :
      (w : ℕ) (ws : List ℕ)
      → Represents c m (w ∷ ws)
      → c.eval_stack + 4 * length (w ∷ (w ∷ ws)) ≤ c.params_locals
      → Reaches c m (w ∷ (w ∷ ws)) (exec_stack dup_4 c m)
  unfolding exec_stack ◌>>=◌ get_sp read
  dup_4-Reaches w ws held room =
      let top_at : c.eval_stack + 4 * length ws ≡ sub_u32 m.sp 4 =
        omega (arith, held.0, placed.1) in
      let top : load 4 m.mem (sub_u32 m.sp 4) ≡ w = ap (load 4 m.mem) (sym top_at) ∙ held.1.0 in
      let small : u32 w ≡ w = omega (arith, held.1.1) in
      rw top (
        subst (λ t. Reaches c m (t ∷ (w ∷ ws)) (push_word 4 w c m)) small
          (push_word-Reaches (w ∷ ws) held w room))

  pop_4-Reaches :
      (w : ℕ) (ws : List ℕ)
      → Represents c m (w ∷ ws)
      → m.sp ≤ c.params_locals
      → Reaches c m ws (exec_stack pop_4 c m)
  unfolding exec_stack
  pop_4-Reaches w ws held hi = (
    with_sp m (m.sp - 4),
    pop-fits c placed 4 m (omega (arith, held.0)) hi,
    (omega (arith, held.0), held.1.2),
    refl,
  )

  -- A macro that gives a word, on the two upper words.
  Gives-Reaches :
      (b : Binary) (v1 v2 v : ℕ) (ws ws' : List ℕ)
      → Gives b v1 v2 v
      → some (u32 v ∷ ws) ≡ some ws'
      → m.sp ≤ c.params_locals
      → Represents c m (v2 ∷ (v1 ∷ ws))
      → Reaches c m ws' (binary_op b c m)
  Gives-Reaches b v1 v2 v ws ws' gives step hi held =
      subst (λ t. Reaches c m t (binary_op b c m)) (some-injective _ _ step)
        (binary_op-Reaches b v1 v2 v ws (gives.0) (gives.1) (gives.2) (gives.3) hi held)

  compare-Reaches :
      (op : CompareOp) (v1 v2 : ℕ) (ws ws' : List ℕ) (o : Option Bool)
      → word_test c.floats op v1 v2 ≡ o
      → (elim o [ none ↦ none | some b ↦ some ((if b then 1 else 0) ∷ ws) ]) ≡ some ws'
      → m.sp ≤ c.params_locals
      → Represents c m (v2 ∷ (v1 ∷ ws))
      → Reaches c m ws' (binary_op (compare_macro c.floats op) c m)
  compare-Reaches op v1 v2 ws ws' none e step hi held = absurd (none-ne-some _ step)
  compare-Reaches op v1 v2 ws ws' (some b) e step hi held =
      let small : u32 (if b then 1 else 0) ≡ (if b then 1 else 0) = ground arith in
      Gives-Reaches (compare_macro c.floats op) v1 v2 (if b then 1 else 0) ws ws'
        (compare-Gives c.floats op b v1 v2 (held.1.2.1) (held.1.1) e)
        (ap (λ n. some (n ∷ ws)) small ∙ step) hi held

  arith-Reaches :
      (op : ArithOp) (v1 v2 : ℕ) (ws ws' : List ℕ) (o : Option ℕ)
      → word_arith c.floats op v1 v2 ≡ o
      → (elim o [ none ↦ none | some v ↦ some (u32 v ∷ ws) ]) ≡ some ws'
      → m.sp ≤ c.params_locals
      → Represents c m (v2 ∷ (v1 ∷ ws))
      → Reaches c m ws' (binary_op (arith_macro c.floats op) c m)
  arith-Reaches op v1 v2 ws ws' none e step hi held = absurd (none-ne-some _ step)
  arith-Reaches op v1 v2 ws ws' (some v) e step hi held =
      Gives-Reaches (arith_macro c.floats op) v1 v2 v ws ws'
        (arith-Gives v1 v2 (held.1.2.1) (held.1.1) c.floats op v e) step hi held

  -- The top word changed in place.
  unary_in_place-Reaches :
      (f : ℕ → ℕ) (w v : ℕ) (ws ws' : List ℕ)
      → u32 (f w) ≡ v
      → some (v ∷ ws) ≡ some ws'
      → m.sp ≤ c.params_locals
      → Represents c m (w ∷ ws)
      → Reaches c m ws' (unary_in_place 4 f c m)
  unfolding unary_in_place ◌>>=◌ get_sp read change
  unary_in_place-Reaches f w v ws ws' value step hi held =
      let at_top : c.eval_stack + 4 * length ws ≡ sub_u32 m.sp 4 =
        omega (arith, held.0, placed.1) in
      let top : load 4 m.mem (sub_u32 m.sp 4) ≡ w = ap (load 4 m.mem) (sym at_top) ∙ held.1.0 in
      subst (λ t. Reaches c m t (unary_in_place 4 f c m)) (some-injective _ _ step)
        (
          record { mem = store 4 m.mem (sub_u32 m.sp 4) (f w); sp = m.sp; pc = m.pc },
          rw (unary_in_place, top) refl,
          (
            held.0,
            (
              rw at_top (stored_word m.mem (sub_u32 m.sp 4) (f w) ∙ value),
              omega (arith, value),
              Holds-store m.mem c.eval_stack (sub_u32 m.sp 4) (f w) ws (omega (arith, at_top))
                  held.1.2,
            ),
          ),
          refl,
        )

  -- A constant.
  constant-Reaches :
      (v : ℕ) (ws ws' : List ℕ)
      → some (u32 v ∷ ws) ≡ some ws'
      → Represents c m ws
      → c.eval_stack + 4 * length ws' ≤ c.params_locals
      → Reaches c m ws' (push_word 4 v c m)
  constant-Reaches v ws ws' step held room =
      let result : (u32 v ∷ ws) ≡ ws' = some-injective _ _ step in
      let fits : c.eval_stack + 4 * suc (length ws) ≤ c.params_locals =
        omega (arith, ap length result) in
      subst (λ t. Reaches c m t (push_word 4 v c m)) result (push_word-Reaches ws held v fits)

  exec_stack-Reaches :
      (op : StackOp) (ws ws' : List ℕ)
      → step_words c.floats (stack_op op) ws ≡ some ws'
      → m.sp ≤ c.params_locals
      → Represents c m ws
      → c.eval_stack + 4 * length ws' ≤ c.params_locals
      → Reaches c m ws' (exec_stack op c m)
  unfolding exec_stack give
  exec_stack-Reaches nop ws ws' step hi held room =
      subst (λ t. Reaches c m t (done tt m)) (some-injective _ _ step) (m, refl, held, refl)
  exec_stack-Reaches load_null ws ws' step hi held room = constant-Reaches 0 ws ws' step held room
  exec_stack-Reaches load_i4_m1 ws ws' step hi held room =
      constant-Reaches (2 ^ 32 - 1) ws ws' step held room
  exec_stack-Reaches load_i4_0 ws ws' step hi held room = constant-Reaches 0 ws ws' step held room
  exec_stack-Reaches load_i4_1 ws ws' step hi held room = constant-Reaches 1 ws ws' step held room
  exec_stack-Reaches load_i4_2 ws ws' step hi held room = constant-Reaches 2 ws ws' step held room
  exec_stack-Reaches dup_4 (w ∷ ws) ws' step hi held room =
      let result : (w ∷ (w ∷ ws)) ≡ ws' = some-injective _ _ step in
      subst (λ t. Reaches c m t (exec_stack dup_4 c m)) result
        (dup_4-Reaches w ws held (omega (arith, ap length result)))
  exec_stack-Reaches pop_4 (w ∷ ws) ws' step hi held room =
      subst (λ t. Reaches c m t (exec_stack pop_4 c m)) (some-injective _ _ step)
        (pop_4-Reaches w ws held hi)
  exec_stack-Reaches _ ws ws' step hi held room = absurd (none-ne-some _ step)

  -- What NOP, LOAD_NULL, LOAD_I4_M1 to LOAD_I4_2, DUP_4, POP_4, NEG_I32, NOT_I32, and the tests, arithmetic,
  -- logic and shifts on two operands of 4 bytes but SUB_F32F32 do to the bytes of the evaluation stack, is
  -- what `step_words` does to a list of words: where it gives the new list, and there is room for it, the
  -- code runs to its end with that list on the stack, and goes on behind the op-code.
  pub exec_op-Reaches :
      (op : Op) (ws ws' : List ℕ)
      → step_words c.floats op ws ≡ some ws'
      → m.sp ≤ c.params_locals
      → Represents c m ws
      → c.eval_stack + 4 * length ws' ≤ c.params_locals
      → Reaches c m ws' (exec_op op c m)
  unfolding exec_op exec_unary ◌>>=◌ get_floats
  exec_op-Reaches (stack_op op) ws ws' step hi held room =
      exec_stack-Reaches op ws ws' step hi held room
  exec_op-Reaches (compare_op op) (v2 ∷ (v1 ∷ ws)) ws' step hi held room =
      compare-Reaches op v1 v2 ws ws' (word_test c.floats op v1 v2) refl step hi held
  exec_op-Reaches (arith_op op) (v2 ∷ (v1 ∷ ws)) ws' step hi held room =
      arith-Reaches op v1 v2 ws ws' (word_arith c.floats op v1 v2) refl step hi held
  exec_op-Reaches (unary_op neg_i32) (w ∷ ws) ws' step hi held room =
      let value : u32 ((2 ^ 32 - w) % 2 ^ 32) ≡ (if w == 0 then 0 else 2 ^ 32 - w) =
        ground (arith, held.1.1) in
      unary_in_place-Reaches (λ v. (2 ^ 32 - v) % 2 ^ 32) w _ ws ws' value step hi held
  exec_op-Reaches (unary_op not_i32) (w ∷ ws) ws' step hi held room =
      let value : u32 (2 ^ 32 - 1 - w) ≡ 2 ^ 32 - 1 - w = omega arith in
      unary_in_place-Reaches (λ v. 2 ^ 32 - 1 - v) w _ ws ws' value step hi held
  exec_op-Reaches _ ws ws' step hi held room = absurd (none-ne-some _ step)
