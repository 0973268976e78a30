-- ===== src/Interp/Bounds.antt =====
-- The evaluation stack pointer stays between the end of the method state and its parameters.
use iron_net.Prelude.{
  ℕ, zero, suc, ◌≤◌, ◌≡◌, Bool, true, false, ◌||◌, ltb, Option, none, some, ◌==◌, sub_u32, arith,
  Bool-cases, inl, inr,
}
use iron_net.Interp.Machine.{Context, Machine, Outcome, done, thrown, aborted, undefined, get_op}
use iron_net.Interp.Relation.{IsStackRelation, Keeps-get_op, Ends}
use iron_net.Interp.Step.{Op, exec_op, checks_num_inst}
use iron_net.Interp.Codes.{decode}
use iron_net.Interp.Run.{
  Result, running, raised, crashed, meaningless, leaves, out_of_fuel, run, go_next, select,
  dispatch,
}
use iron_net.Interp.Keeps.{exec_any-Keeps}

abbrev pub Inside : Context → Machine → Type 0
Inside c m = (c.eval_stack ≤ m.sp) × (m.sp ≤ c.params_locals)

abbrev StaysInside : Context → Machine → Machine → Type 0
StaysInside c m m' = Inside c m → Inside c m'

Checked-inside : (lo hi p : ℕ) → (ltb p lo || ltb hi p) ≡ false → (lo ≤ p) × (p ≤ hi)
Checked-inside lo hi p h = (ground arith, ground arith)

StaysInside-IsStackRelation : IsStackRelation StaysInside
StaysInside-IsStackRelation = record {
  same = λ c m h. h;
  chain = λ c m m' m'' f g h. g (f h);
  memory = λ c m mem h. h;
  operand = λ c m h. h;
  moved = λ c m p checked h. Checked-inside c.eval_stack c.params_locals p checked;
}

-- What holds of the machine that a result has.
abbrev pub ResultHas : (Machine → Type 0) → Result → Type 0
ResultHas P (running m) = P m
ResultHas P (raised e m) = P m
ResultHas P crashed = Unit
ResultHas P meaningless = Unit
ResultHas P (leaves op m) = P m
ResultHas P (out_of_fuel m) = P m

Ends-StaysInside :
    {A : Type 0} (c : Context) (m : Machine) (o : Outcome A)
    → Inside c m
    → Ends (StaysInside c m) o
    → Ends (Inside c) o
Ends-StaysInside c m (done a m') h f = f h
Ends-StaysInside c m (thrown e m') h f = f h
Ends-StaysInside c m aborted h f = tt
Ends-StaysInside c m undefined h f = tt

-- Every modelled op-code that is executed with the stack pointer in its bounds leaves it there.
exec_op-Inside :
    (op : Op) (c : Context) (m : Machine) → Inside c m → Ends (Inside c) (exec_op op c m)
exec_op-Inside op c m h =
    Ends-StaysInside c m (exec_op op c m) h
      ((exec_any-Keeps StaysInside-IsStackRelation (λ c m p h. h) op).at c m)

get_op-Inside : (c : Context) (m : Machine) → Inside c m → Ends (Inside c) (get_op c m)
get_op-Inside c m h =
    Ends-StaysInside c m (get_op c m) h ((Keeps-get_op StaysInside-IsStackRelation).at c m)

module _ (c : Context) (rest : ℕ → Machine → Result)
    (later : (n : ℕ) (m : Machine) → Inside c m → ResultHas (Inside c) (rest n m)) where
  go_next-Inside :
      (checks : Bool) (n : ℕ) (o : Outcome (Unit {0}))
      → Ends (Inside c) o
      → ResultHas (Inside c) (go_next rest checks n o)
  unfolding go_next
  go_next-Inside true n (done x m) h = elim (Bool-cases (sub_u32 n 1 == 0)) [
    | inl e ↦ rw (ResultHas, e) h
    | inr e ↦ rw (ResultHas, e) (later (sub_u32 n 1) m h)
  ]
  go_next-Inside false n (done x m) h = later n m h
  go_next-Inside checks n (thrown e m) h = h
  go_next-Inside checks n aborted h = tt
  go_next-Inside checks n undefined h = tt

  select-Inside :
      (n w : ℕ) (m : Machine) (o : Option Op)
      → Inside c m
      → ResultHas (Inside c) (select rest c n w m o)
  unfolding select
  select-Inside n w m none h = h
  select-Inside n w m (some op) h =
      go_next-Inside (checks_num_inst op) n (exec_op op c m) (exec_op-Inside op c m h)

  dispatch-Inside :
      (n : ℕ) (o : Outcome ℕ) → Ends (Inside c) o → ResultHas (Inside c) (dispatch rest c n o)
  unfolding dispatch
  dispatch-Inside n (done w m) h = select-Inside n w m (decode w) h
  dispatch-Inside n (thrown e m) h = h
  dispatch-Inside n aborted h = tt
  dispatch-Inside n undefined h = tt

-- However long the interpreter runs a method, on whatever op-codes, the evaluation stack pointer stays
-- between EVAL_STACK_PTR and pParamsLocals if it is there at the start: at every result that has a
-- machine, the exceptions included.
pub run-Inside :
    (fuel : ℕ) (c : Context) (num_inst : ℕ) (m : Machine)
    → Inside c m
    → ResultHas (Inside c) (run fuel c num_inst m)
unfolding run
run-Inside zero c n m h = h
run-Inside (suc fuel) c n m h =
    dispatch-Inside c (run fuel c) (λ k m' h'. run-Inside fuel c k m' h') n (get_op c m)
      (get_op-Inside c m h)
