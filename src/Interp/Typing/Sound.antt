-- ===== src/Interp/Typing/Sound.antt =====
-- What the checker of the stack depth says of code.
use iron_net.Prelude.{
  ℕ, ◌+◌, ◌-◌, ◌≤◌, ◌≡◌, refl, sym, ◌∙◌, ◌&&◌, leb, if◌then◌else◌, List, [], ◌∷◌, Option, none,
  some, Bool-cases, inl, inr, arith,
}
use mathlib.Core.Option.{some-injective, none-ne-some}
use iron_net.Interp.Machine.{Context, Machine, Floats, ◌>>=◌, give}
use iron_net.Interp.StackLaws.{IsPlaced}
use iron_net.Interp.Step.{Op, exec_op}
use iron_net.Interp.Typing.{effect, check_depth, exec_all, Safe, Safe-and_then}
use iron_net.Interp.Typing.Steps.{exec_op-Safe, if-true, if-false}

-- What the checker has found where it accepts an op-code and the rest.
accepted :
    (fl : Floats) (room : ℕ) (ops : List Op) (d d' : ℕ) (o : Option (ℕ × ℕ))
    → (elim o [
      | none ↦ none
      | some (a, b) ↦
          if leb a d && leb (d - a + b) room then check_depth fl room ops (d - a + b) else none
    ])
      ≡ some d'
    → (a : ℕ) × (b : ℕ) × (o ≡ some (a, b))
      × (a ≤ d)
      × (d - a + b ≤ room)
      × (check_depth fl room ops (d - a + b) ≡ some d')
accepted fl room ops d d' none h = absurd (none-ne-some _ h)
accepted fl room ops d d' (some (a, b)) h = elim (Bool-cases (leb a d && leb (d - a + b) room)) [
  | inl e ↦ (a, b, refl, ground arith, ground arith, sym (if-true _ _ e) ∙ h)
  | inr e ↦ absurd (none-ne-some _ (sym (if-false _ _ e) ∙ h))
]

-- Code that the checker accepts from the depth that the stack has never runs into abort(), and if it comes
-- to its end, it does so with the depth that the checker says: the constants, DUP, POP, and the
-- comparisons and arithmetic on integers and floats, checked for overflow or not, from an evaluation stack
-- within its bounds.
pub check_depth_sound :
    (c : Context) (ops : List Op) (m : Machine) (d d' : ℕ)
    → IsPlaced c
    → check_depth c.floats (c.params_locals - c.eval_stack) ops d ≡ some d'
    → m.sp ≡ c.eval_stack + d
    → m.sp ≤ c.params_locals
    → Safe (λ m'. m'.sp ≡ c.eval_stack + d') (exec_all ops c m)
unfolding give ◌>>=◌
check_depth_sound c [] m d d' placed checked depth hi =
    let same : d ≡ d' = some-injective _ _ checked in omega arith
check_depth_sound c (op ∷ ops) m d d' placed checked depth hi =
    let (a, b, found, enough, room, rest) =
      accepted c.floats (c.params_locals - c.eval_stack) ops d d' (effect c.floats op) checked in
    let fits : c.eval_stack + (d - a + b) ≤ c.params_locals = omega (arith, placed.0) in
    Safe-and_then (λ m'. m'.sp ≡ c.eval_stack + (d - a + b)) (λ m'. m'.sp ≡ c.eval_stack + d')
      (exec_op op c m) (λ x. exec_all ops c)
      (exec_op-Safe c placed m d depth hi a b enough fits op found)
      (λ x m' after. check_depth_sound c ops m' (d - a + b) d' placed rest after (omega arith))
