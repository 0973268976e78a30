-- ===== src/Jit/Select.antt =====
-- The op-codes that JITit selects for arithmetic, tests and conditional jumps, among those of JIT_Execute.
pub mod Tables
use iron_net.Prelude.{
  ℕ, ◌+◌, ◌-◌, ◌≤◌, ◌<◌, ◌≡◌, refl, ap, sym, ◌∙◌, Bool, Bool-cases, inl, inr, if◌then◌else◌, true,
  false, ltb, leb, u32, get_u32, Option, none, some, List, [], ◌∷◌, ◌++◌, length, arith,
}
use mathlib.Core.Option.{none-ne-some}
use mathlib.Core.List.{Memᴰ}
use mathlib.Core.Path.{subst}
use iron_net.Jit.Types.{JitType, known, system_int32}
use iron_net.Jit.{
  made, Method, Jit, ◌>>=◌, ◌>>◌, given, push_u32, push_op, push_type, pop_type, push_target,
  target_of, may_copy_type_stack, next_byte, next_u32, sign_extend, give, set_at, stack_bytes,
}
use iron_net.Jit.Branches.{group_of, relative_jump, cil_br_cond, jit_br_cond}
use iron_net.Jit.Arith.{select_arith, jit_arith, jit_compare}
use iron_net.Interp.Codes.{decode}
use iron_net.Interp.Step.{Op}
use iron_net.Jit.Select.Tables.{arith_ops, compare_ops, branch_ops}

-- The op-code that a selected number stands for.
abbrev selected : (ℕ → JitType → JitType → Option ℕ) → ℕ × ℕ × Op → Option Op
selected select (op, s, o) = elim (select op (known 0 s 0) (known 0 s 0)) [
  | none ↦ none
  | some n ↦ decode n
]

abbrev wanted : ℕ × ℕ × Op → Option Op
wanted (op, s, o) = some o

abbrev images : {A B : Type 0} → (A → B) → List A → List B
images f [] = []
images f (x ∷ xs) = f x ∷ images f xs

images-Mem :
    {A B : Type 0} (f g : A → B) (xs : List A) (x : A)
    → images f xs ≡ images g xs
    → Memᴰ x xs
    → f x ≡ g x
images-Mem f g [] x e m = elim m [ ]
images-Mem f g (y ∷ ys) x e (Memᴰ.head same) = cc (same, e)
images-Mem f g (y ∷ ys) x e (Memᴰ.tail m) = images-Mem f g ys x (cc (e)) m

abbrev select_compare : ℕ → JitType → JitType → Option ℕ
select_compare op a b = elim (group_of 0x70 0x75 0xfa 0x110 a b) [
  | none ↦ none
  | some group ↦ some (group + (op - 0x1))
]

abbrev select_branch : ℕ → JitType → JitType → Option ℕ
select_branch which a b = elim (group_of 0x90 0x9a 0xff 0x115 a b) [
  | none ↦ none
  | some group ↦ some (group + which)
]

arith_ops-selected : images (selected select_arith) arith_ops ≡ images wanted arith_ops
unfolding select_arith group_of decode
arith_ops-selected = refl

compare_ops-selected : images (selected select_compare) compare_ops ≡ images wanted compare_ops
unfolding group_of decode
compare_ops-selected = refl

branch_ops-selected : images (selected select_branch) branch_ops ≡ images wanted branch_ops
unfolding group_of decode
branch_ops-selected = refl

-- The number behind an op-code that was selected.
number_of :
    (select : ℕ → JitType → JitType → Option ℕ) (op s : ℕ) (o : Op) (r : Option ℕ)
    → select op (known 0 s 0) (known 0 s 0) ≡ r
    → selected select (op, s, o) ≡ some o
    → (n : ℕ) × (select op (known 0 s 0) (known 0 s 0) ≡ some n) × (decode n ≡ some o)
number_of select op s o none e h = absurd (none-ne-some _ (rw (e, selected) at h))
number_of select op s o (some n) e h = (n, e, rw (e, selected) at h)

group_of-same :
    (i32 i64 f32 f64 s : ℕ) (a b : JitType)
    → a.stack_type ≡ s
    → b.stack_type ≡ s
    → group_of i32 i64 f32 f64 a b ≡ group_of i32 i64 f32 f64 (known 0 s 0) (known 0 s 0)
unfolding group_of
group_of-same i32 i64 f32 f64 s a b ea eb = rw (ea, eb) refl

-- The group behind an op-code that was selected in it.
group_behind :
    (i32 i64 f32 f64 k s : ℕ) (o : Op) (r : Option ℕ)
    → group_of i32 i64 f32 f64 (known 0 s 0) (known 0 s 0) ≡ r
    → selected
        (λ op a b. elim (group_of i32 i64 f32 f64 a b) [
          | none ↦ none
          | some group ↦ some (group + k)
        ])
        (0, s, o)
      ≡ some o
    → (group : ℕ) × (group_of i32 i64 f32 f64 (known 0 s 0) (known 0 s 0) ≡ some group)
      × (decode (group + k) ≡ some o)
group_behind i32 i64 f32 f64 k s o none e h = absurd (none-ne-some _ (rw (e, selected) at h))
group_behind i32 i64 f32 f64 k s o (some group) e h = (group, e, rw (e, selected) at h)

select_arith-same :
    (op s : ℕ) (a b : JitType)
    → a.stack_type ≡ s
    → b.stack_type ≡ s
    → select_arith op a b ≡ select_arith op (known 0 s 0) (known 0 s 0)
unfolding select_arith
select_arith-same op s a b ea eb = rw (group_of-same 0x80 0xf0 0x109 0x11f s a b ea eb, ea, eb) refl

-- The state behind a conditional jump that stands before `next`.
abbrev pub jumped : ℕ → ℕ → List JitType → ℕ → Jit → Jit
jumped n target rest next j = record j {
  ops = j.ops ++ (n ∷ []) ++ (target ∷ []);
  branch_offsets = j.branch_offsets ++ (length (j.ops ++ (n ∷ [])) ∷ []);
  cil_ofs = next;
  type_stack = rest;
  type_stacks = if ltb next target then set_at j.type_stacks target (some rest) else j.type_stacks;
}

-- The operands of an instruction: two of the stack type, with room for the result.
pub record Operands (s : ℕ) (a b : JitType) (rest : List JitType) (result : JitType) (c : Method)
    (j : Jit) : Type 0 where
  pub stack : j.type_stack ≡ b ∷ a ∷ rest
  pub left : a.stack_type ≡ s
  pub right : b.stack_type ≡ s
  pub room : length rest < c.max_stack
  pub bytes : stack_bytes (result ∷ rest) ≤ j.max_bytes

-- For each entry of arith_ops, the instruction on two operands of its stack type appends one op-code, the one
-- that has the name of the operation and the type, takes both types off and leaves that of the first.
pub jit_arith-selects :
    (op s : ℕ) (o : Op) (a b : JitType) (rest : List JitType) (c : Method) (j : Jit)
    → Memᴰ (op, s, o) arith_ops
    → Operands s a b rest a c j
    → (n : ℕ) × (decode n ≡ some o)
      × (jit_arith op c j ≡ made (tt, record j { ops = j.ops ++ (n ∷ []); type_stack = a ∷ rest }))
unfolding jit_arith given push_op push_u32 push_type pop_type ◌>>=◌ ◌>>◌
jit_arith-selects op s o a b rest c j entry h =
    let (n, chosen, meaning) =
      number_of select_arith op s o (select_arith op (known 0 s 0) (known 0 s 0)) refl
        (images-Mem (selected select_arith) wanted arith_ops (op, s, o) arith_ops-selected entry) in
    let fits : ltb (length rest) c.max_stack ≡ true = ground (arith, (h.room)) in
    let covered : ltb j.max_bytes (stack_bytes (a ∷ rest)) ≡ false = ground (arith, (h.bytes)) in
    (
      n,
      meaning,
      rw (h.stack, select_arith-same op s a b h.left h.right, chosen, fits, covered) refl,
    )

-- For each entry of compare_ops, the instruction on two operands of its stack type appends one op-code, that of
-- the test, takes both types off and leaves an I32.
jit_compare-selects :
    (op s : ℕ) (o : Op) (a b : JitType) (rest : List JitType) (c : Method) (j : Jit)
    → Memᴰ (op, s, o) compare_ops
    → Operands s a b rest system_int32 c j
    → (n : ℕ) × (decode n ≡ some o)
      × (jit_compare op c j
          ≡ made (tt, record j { ops = j.ops ++ (n ∷ []); type_stack = system_int32 ∷ rest }))
unfolding jit_compare given push_op push_u32 push_type pop_type ◌>>=◌ ◌>>◌
jit_compare-selects op s o a b rest c j entry h =
    let (group, chosen, meaning) =
      group_behind 0x70 0x75 0xfa 0x110 (op - 0x1) s o
        (group_of 0x70 0x75 0xfa 0x110 (known 0 s 0) (known 0 s 0)) refl
        (images-Mem (selected select_compare) wanted compare_ops (op, s, o) compare_ops-selected
          entry) in
    let fits : ltb (length rest) c.max_stack ≡ true = ground (arith, (h.room)) in
    let covered : ltb j.max_bytes (stack_bytes (system_int32 ∷ rest)) ≡ false =
      ground (arith, (h.bytes)) in
    (
      group + (op - 0x1),
      meaning,
      rw (h.stack, group_of-same 0x70 0x75 0xfa 0x110 s a b h.left h.right, chosen, fits, covered)
          refl,
    )

-- Behind the label cilBrCond, for a jump to `target` from the place in the CIL that is reached.
cil_br_cond-selects :
    (which s relative : ℕ) (o : Op) (a b : JitType) (rest : List JitType) (c : Method) (j : Jit)
    (target : ℕ)
    → Memᴰ (which, s, o) branch_ops
    → j.type_stack ≡ b ∷ a ∷ rest
    → a.stack_type ≡ s
    → b.stack_type ≡ s
    → target ≡ u32 (j.cil_ofs + relative)
    → target ≤ c.code_size
    → (n : ℕ) × (decode n ≡ some o)
      × (cil_br_cond which relative c j ≡ made (tt, jumped n target rest j.cil_ofs j))
unfolding cil_br_cond target_of may_copy_type_stack push_target given push_op push_u32 push_type
    pop_type ◌>>=◌ ◌>>◌
cil_br_cond-selects which s relative o a b rest c j target entry stack left right goal inside =
    let (group, chosen, meaning) =
      group_behind 0x90 0x9a 0xff 0x115 which s o
        (group_of 0x90 0x9a 0xff 0x115 (known 0 s 0) (known 0 s 0)) refl
        (images-Mem (selected select_branch) wanted branch_ops (which, s, o) branch_ops-selected
          entry) in
    let fits : leb target c.code_size ≡ true = ground (arith, inside) in
    (
      group + which,
      meaning,
      elim (Bool-cases (ltb j.cil_ofs target)) [
        | inl ahead ↦
            rw
              (
                stack,
                sym goal,
                ◌>>=◌,
                may_copy_type_stack,
                ahead,
                fits,
                group_of-same 0x90 0x9a 0xff 0x115 s a b left right,
                chosen,
                sym goal,
              )
              refl
        | inr back ↦
            rw
              (
                stack,
                sym goal,
                ◌>>=◌,
                may_copy_type_stack,
                back,
                group_of-same 0x90 0x9a 0xff 0x115 s a b left right,
                chosen,
                sym goal,
              )
              refl
      ],
    )

-- The bytes of a jump behind its op-code, and the distance that they hold.
abbrev pub jump_width : Bool → ℕ
jump_width short = if short then 1 else 4

abbrev pub jump_distance : Bool → Method → ℕ → ℕ
jump_distance true c ofs = sign_extend (c.cil ofs)
jump_distance false c ofs = get_u32 c.cil ofs

-- For each entry of branch_ops, the short or long conditional jump on two operands of its stack type, to a place
-- in the code, appends the op-code of the test and the target, takes both types off, and, where the jump leads
-- forward, keeps the rest for its target.
pub jit_br_cond-selects :
    (short : Bool) (which s : ℕ) (o : Op) (a b : JitType) (rest : List JitType) (c : Method)
    (j : Jit) (target : ℕ)
    → Memᴰ (which, s, o) branch_ops
    → j.type_stack ≡ b ∷ a ∷ rest
    → a.stack_type ≡ s
    → b.stack_type ≡ s
    → target ≡ u32 (j.cil_ofs + jump_width short + jump_distance short c j.cil_ofs)
    → target ≤ c.code_size
    → (n : ℕ) × (decode n ≡ some o)
      × (jit_br_cond short which c j
          ≡ made (tt, jumped n target rest (j.cil_ofs + jump_width short) j))
unfolding jit_br_cond relative_jump next_byte next_u32 give ◌>>=◌
jit_br_cond-selects true which s o a b rest c j target entry stack left right goal inside =
    cil_br_cond-selects which s _ o a b rest c (record j { cil_ofs = j.cil_ofs + 1 }) target entry
      stack left right goal inside
jit_br_cond-selects false which s o a b rest c j target entry stack left right goal inside =
    cil_br_cond-selects which s _ o a b rest c (record j { cil_ofs = j.cil_ofs + 4 }) target entry
      stack left right goal inside
