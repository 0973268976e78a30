-- ===== src/Jit/Whole.antt =====
-- JITit as a whole: what it returns, and when it returns nothing.
use iron_net.Prelude.{ℕ, ◌≤◌, ◌≡◌, Option, List, [], length, arith, ◌⊎◌}
use mathlib.Core.Option.{none-ne-some}
use iron_net.Jit.Types.{JitType}
use iron_net.Jit.{Outcome, made, crashed, not_modelled, Method, Jit, stack_bytes}
use iron_net.Jit.Grows.{IsCovered}
use iron_net.Jit.Fixups.{IsFixed, LeadsOut}
use iron_net.Jit.Loop.{Rounds, Rounds-IsCovered, Rounds-bytes}
use iron_net.Jit.Translate.{jit_round, handler_stacks, jit_start}

jit_start-IsCovered : (unset : ℕ → ℕ) → IsCovered (jit_start [] unset)
unfolding jit_start handler_stacks
jit_start-IsCovered unset = record {
  now = omega arith;
  later = λ k ts e. absurd (none-ne-some _ e);
}

-- In a method without catch clauses, whenever the translation stands in front of an instruction, the bytes of
-- its type stack are no more than maxBytes in any later round, the last one included.
pub Rounds-covered :
    (c : Method) (unset : ℕ → ℕ) (j k : Jit)
    → Rounds c (jit_start [] unset) j
    → Rounds c j k
    → stack_bytes j.type_stack ≤ k.max_bytes
Rounds-covered c unset j k before after =
    Rounds-bytes c j k after (stack_bytes j.type_stack)
      ((Rounds-IsCovered c (jit_start [] unset) j before (jit_start-IsCovered unset)).now)

-- What the result of a translation is: the code of a last state that rounds lead to, in which each target below
-- codeSize stands replaced by what pJITOffsets holds for it, and nothing else is changed. For an instruction
-- that was translated pJITOffsets holds the number of op-codes in front of it, and for any other place in the
-- CIL what it was allocated with.
pub record IsTranslation (c : Method) (handlers : List (ℕ × JitType)) (unset : ℕ → ℕ) (ops : List ℕ)
    (bytes : ℕ) : Type 0 where
  pub last : Jit
  pub path : Rounds c (jit_start handlers unset) last
  pub behind : c.code_size ≤ last.cil_ofs
  pub fixed : IsFixed c last.jit_offsets last.branch_offsets last.ops ops
  pub instructions :
      (i k : Jit) (u : Unit {0})
      → Rounds c (jit_start handlers unset) i
      → jit_round c i ≡ made (u, k)
      → Rounds c k last
      → last.jit_offsets i.cil_ofs ≡ length i.ops
  pub others :
      (t : ℕ)
      → (last.jit_offsets t ≡ unset t)
        ⊎ ((i : Jit) × Rounds c (jit_start handlers unset) i
            × (i.cil_ofs ≡ t)
            × (last.jit_offsets t ≡ length i.ops))
  pub stack : bytes ≡ last.max_bytes

-- A round that the translation comes to crashes, or a target in its code leads behind the CIL.
abbrev pub Crashes : Method → List (ℕ × JitType) → (ℕ → ℕ) → Type 0
Crashes c handlers unset =
    (j : Jit) × Rounds c (jit_start handlers unset) j
    × ((jit_round c j ≡ crashed) ⊎ LeadsOut c j.branch_offsets j.ops)

-- It comes to an op-code that is not modelled.
abbrev pub MeetsOther : Method → List (ℕ × JitType) → (ℕ → ℕ) → Type 0
MeetsOther c handlers unset =
    (j : Jit) × Rounds c (jit_start handlers unset) j × (jit_round c j ≡ not_modelled)

abbrev pub Translates : Method → List (ℕ × JitType) → (ℕ → ℕ) → Outcome (List ℕ × ℕ) → Type 0
Translates c handlers unset result =
    ((ops : List ℕ) × (bytes : ℕ) × (result ≡ made (ops, bytes))
      × IsTranslation c handlers unset ops bytes)
    ⊎ ((result ≡ crashed) × Crashes c handlers unset)
    ⊎ ((result ≡ not_modelled) × MeetsOther c handlers unset)
