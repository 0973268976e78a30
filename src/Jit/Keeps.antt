-- ===== src/Jit/Keeps.antt =====
-- The steps on the state of JITit that the translations of the instructions are made of, and that relation.
pub mod Loads
pub mod Flow
pub mod Values
use iron_net.Prelude.{
  ℕ, zero, suc, ◌+◌, ◌≤◌, ◌<◌, ◌≡◌, refl, sym, ap, ◌∙◌, Bool, true, false, ltb, leb, ◌==◌,
  if◌then◌else◌, Option, none, some, List, [], ◌∷◌, ◌++◌, length, length-append, arith, Bool-cases,
  Option-cases, inl, inr, ==_iff, ◌⊎◌, u32, get_u16, get_u32,
}
use mathlib.Core.Path.{subst}
use native.Mathlib.Numerals.{add-one}
use iron_net.Jit.Types.{JitType}
use iron_net.Jit.{
  Method, Jit, Step, ◌>>=◌, ◌>>◌, give, crash, given, get_method, Outcome, made, crashed, other_op,
  push_u32, push_op, push_op_param, push_target, stack_bytes, push_type, pop_type, pop_types,
  next_byte, next_u16, next_u32, target_of, set_at, may_copy_type_stack, restore_type_stack,
}
use iron_net.Jit.Grows.{
  Within, Within-wider, Within-snoc, IsLaidOut, IsCovered, Grows, Grows-refl, Keeps, Keeps-bind,
  Keeps-then, Keeps-give, Keeps-crash, Keeps-given, Keeps-other_op, Keeps-if,
}

crashed_not_made : {A : Type 0} (a : A) → crashed ≡ made a → ⊥
crashed_not_made a h = cc

-- A step that always succeeds with a state that has grown.
pub Keeps-total :
    {A : Type 0} (f : Method → Jit → A) (g : Method → Jit → Jit)
    → ((c : Method) (j : Jit) → Grows j (g c j))
    → Keeps (λ c j. made (f c j, g c j))
Keeps-total f g grows = record { at = λ c j a j' h. subst (Grows j) (cc (h)) (grows c j) }

pub Keeps-get_method : Keeps get_method
unfolding get_method
Keeps-get_method = Keeps-total (λ c j. c) (λ c j. j) (λ c j. Grows-refl j)

pub Keeps-push_u32 : (v : ℕ) → Keeps (push_u32 v)
unfolding push_u32
Keeps-push_u32 v =
    Keeps-total (λ c j. tt) (λ c j. record j { ops = j.ops ++ (v ∷ []) })
      (λ c j. record {
        code = omega (arith, length-append j.ops (v ∷ []));
        reads = omega arith;
        bytes = omega arith;
        offsets = refl;
        laid_out = λ h. record {
          laid =
              Within-wider 0 j.branch_offsets (length j.ops) (length (j.ops ++ (v ∷ [])))
                (omega (arith, length-append j.ops (v ∷ []))) h.laid;
        };
        covered = λ h. record { now = h.now; later = h.later };
      })

pub Keeps-push_op : (v : ℕ) → Keeps (push_op v)
unfolding push_op
Keeps-push_op v = Keeps-push_u32 v

pub Keeps-push_op_param : (v p : ℕ) → Keeps (push_op_param v p)
unfolding push_op_param
Keeps-push_op_param v p = Keeps-then (push_op v) (push_u32 p) (Keeps-push_op v) (Keeps-push_u32 p)

pub Keeps-push_target : (target : ℕ) → Keeps (push_target target)
unfolding push_target
Keeps-push_target target =
    Keeps-total (λ c j. tt)
      (λ c j. record j {
        branch_offsets = j.branch_offsets ++ (length j.ops ∷ []);
        ops = j.ops ++ (target ∷ []);
      })
      (λ c j. record {
        code = omega (arith, length-append j.ops (target ∷ []));
        reads = omega arith;
        bytes = omega arith;
        offsets = refl;
        laid_out = λ h. record {
          laid =
              subst (Within 0 (j.branch_offsets ++ (length j.ops ∷ [])))
                (sym (length-append j.ops (target ∷ []) ∙ add-one (length j.ops)))
                (Within-snoc 0 j.branch_offsets (length j.ops) h.laid);
        };
        covered = λ h. record { now = h.now; later = h.later };
      })

-- A step that leaves the code and the branch offsets alone.
same_code :
    (j j' : Jit)
    → j'.ops ≡ j.ops
    → j'.branch_offsets ≡ j.branch_offsets
    → j.cil_ofs ≤ j'.cil_ofs
    → j'.jit_offsets ≡ j.jit_offsets
    → j.max_bytes ≤ j'.max_bytes
    → (IsCovered j → IsCovered j')
    → Grows j j'
same_code j j' ops branches reads offsets bytes covered = record {
  code = omega (arith, ap length ops);
  reads = reads;
  bytes = bytes;
  offsets = offsets;
  laid_out = λ h. record { laid = rw (branches, ops) h.laid };
  covered = covered;
}

pub Keeps-push_type : (t : JitType) → Keeps (push_type t)
unfolding push_type
Keeps-push_type t = record {
  at = λ c j a j' h. elim (Bool-cases (ltb (length j.type_stack) c.max_stack)) [
    | inl fits ↦ subst (Grows j) (cc (rw fits at h)) (pushed c j)
    | inr full ↦ absurd (crashed_not_made _ (rw full at h))
  ];
}
  where
    pushed :
        (c : Method) (j : Jit)
        → Grows j (record j {
          type_stack = t ∷ j.type_stack;
          max_bytes =
              if ltb j.max_bytes (stack_bytes (t ∷ j.type_stack))
              then stack_bytes (t ∷ j.type_stack)
              else j.max_bytes;
        })
    pushed c j =
        same_code j _ refl refl (omega arith) refl (ground arith)
          (λ h. record { now = ground arith; later = λ k ts e. ground (arith, h.later k ts e) })

pub Keeps-pop_type : Keeps pop_type
unfolding pop_type
Keeps-pop_type = record { at = λ c j a j' h. popped j j.type_stack refl a j' h }
  where
    popped :
        (j : Jit) (ts : List JitType)
        → j.type_stack ≡ ts
        → (a : JitType) (j' : Jit)
        → (elim ts as (λ _. Outcome (JitType × Jit)) [
          | [] ↦ crashed
          | t ∷ rest ↦ made (t, record j { type_stack = rest })
        ])
          ≡ made (a, j')
        → Grows j j'
    popped j [] e a j' h = cc
    popped j (t ∷ rest) e a j' h = subst (Grows j) (cc (h)) (
        same_code j (record j { type_stack = rest }) refl refl (omega arith) refl (omega arith)
          (λ x. record { now = omega (arith, (x.now), ap stack_bytes e); later = x.later }))

pub Keeps-pop_types : (k : ℕ) → Keeps (pop_types k)
unfolding pop_types
Keeps-pop_types zero = Keeps-give tt
Keeps-pop_types (suc k) = Keeps-then pop_type (pop_types k) Keeps-pop_type (Keeps-pop_types k)

-- A step that only moves on in the CIL.
moved : (j : Jit) (n : ℕ) → Grows j (record j { cil_ofs = j.cil_ofs + n })
moved j n =
    same_code j _ refl refl (omega arith) refl (omega arith)
      (λ h. record { now = h.now; later = h.later })

pub Keeps-next_byte : Keeps next_byte
unfolding next_byte
Keeps-next_byte =
    Keeps-total (λ c j. c.cil j.cil_ofs) (λ c j. record j { cil_ofs = j.cil_ofs + 1 })
      (λ c j. moved j 1)

pub Keeps-next_u16 : Keeps next_u16
unfolding next_u16
Keeps-next_u16 =
    Keeps-total (λ c j. get_u16 c.cil j.cil_ofs) (λ c j. record j { cil_ofs = j.cil_ofs + 2 })
      (λ c j. moved j 2)

pub Keeps-next_u32 : Keeps next_u32
unfolding next_u32
Keeps-next_u32 =
    Keeps-total (λ c j. get_u32 c.cil j.cil_ofs) (λ c j. record j { cil_ofs = j.cil_ofs + 4 })
      (λ c j. moved j 4)

pub Keeps-target_of : (n : ℕ) → Keeps (target_of n)
unfolding target_of
Keeps-target_of n = Keeps-total (λ c j. u32 (j.cil_ofs + n)) (λ c j. j) (λ c j. Grows-refl j)

-- The kept type stack of an address after one more was kept.
kept_case :
    (f : ℕ → Option (List JitType)) (i : ℕ) (ts : List JitType) (k : ℕ) (us : List JitType)
    → set_at f i (some ts) k ≡ some us
    → (us ≡ ts) ⊎ (f k ≡ some us)
kept_case f i ts k us e = elim (Bool-cases (k == i)) [
  | inl same ↦ inl (cc (rw same at e))
  | inr other ↦ inr (rw other at e)
]

pub Keeps-may_copy_type_stack : (target : ℕ) → Keeps (may_copy_type_stack target)
unfolding may_copy_type_stack
Keeps-may_copy_type_stack target = record {
  at = λ c j a j' h. elim (Bool-cases (ltb j.cil_ofs target)) [
    | inl forward ↦ elim (Bool-cases (leb target c.code_size)) [
      | inl fits ↦ subst (Grows j) (cc (rw (forward, fits) at h)) (copied j)
      | inr outside ↦ absurd (crashed_not_made _ (rw (forward, outside) at h))
    ]
    | inr backward ↦ subst (Grows j) (cc (rw backward at h)) (Grows-refl j)
  ];
}
  where
    copied :
        (j : Jit)
        → Grows j (record j { type_stacks = set_at j.type_stacks target (some j.type_stack) })
    copied j = same_code j _ refl refl (omega arith) refl (omega arith) (λ h. record {
      now = h.now;
      later = λ k us e. elim (kept_case j.type_stacks target j.type_stack k us e) [
        | inl same ↦ omega (arith, (h.now), ap stack_bytes same)
        | inr other ↦ h.later k us other
      ];
    })

pub Keeps-restore_type_stack : Keeps restore_type_stack
unfolding restore_type_stack
Keeps-restore_type_stack = record {
  at = λ c j a j' h. elim (Bool-cases (leb j.cil_ofs c.code_size)) [
    | inl fits ↦ subst (Grows j) (cc (rw fits at h)) (restores j)
    | inr outside ↦ absurd (crashed_not_made _ (rw outside at h))
  ];
}
  where
    restored :
        (j : Jit)
        → IsCovered j
        → (o : Option (List JitType)) → j.type_stacks j.cil_ofs ≡ o
        → stack_bytes (elim o [ none ↦ [] | some ts ↦ ts ]) ≤ j.max_bytes
    restored j h none e = omega arith
    restored j h (some ts) e = h.later j.cil_ofs ts e

    restores :
        (j : Jit)
        → Grows j
            (record j { type_stack = elim (j.type_stacks j.cil_ofs) [ none ↦ [] | some ts ↦ ts ] })
    restores j =
        same_code j _ refl refl (omega arith) refl (omega arith)
          (λ h. record { now = restored j h (j.type_stacks j.cil_ofs) refl; later = h.later })

pub ruleset jit_rules = (
  Keeps-bind, Keeps-then, Keeps-give, Keeps-crash, Keeps-given, Keeps-other_op, Keeps-if,
  Keeps-get_method, Keeps-push_u32, Keeps-push_op, Keeps-push_op_param, Keeps-push_target,
  Keeps-push_type, Keeps-pop_type, Keeps-pop_types, Keeps-next_byte, Keeps-next_u16, Keeps-next_u32,
  Keeps-target_of, Keeps-may_copy_type_stack, Keeps-restore_type_stack,
)
