-- ===== src/Interp/Run.antt =====
-- JIT_Execute of one method state: the loop that the jumps of GO_NEXT and GO_NEXT_CHECK make, until
-- numInst is used up.
use iron_net.Prelude.{ℕ, zero, suc, Option, none, some, Bool, ◌==◌, if◌then◌else◌, sub_u32}
use iron_net.Interp.Machine.{
  Context, Machine, Exception, Outcome, done, thrown, aborted, undefined, get_op,
}
use iron_net.Interp.Step.{Op, exec_op, checks_num_inst}
use iron_net.Interp.Codes.{decode}

-- How the interpreter leaves the loop: at `done` with the thread still running, with an exception that
-- is to be handled, in abort(), without meaning, or at an op-code that is not modelled here. The last
-- case is that the fuel of the model is used up.
pub data Result : Type 0 where
  running : Machine → Result
  raised : Exception → Machine → Result
  crashed : Result
  meaningless : Result
  leaves : ℕ → Machine → Result
  out_of_fuel : Machine → Result

-- What follows an op-code: GO_NEXT goes on, and GO_NEXT_CHECK counts numInst down and stops at 0.
unfoldable pub go_next : (ℕ → Machine → Result) → Bool → ℕ → Outcome (Unit {0}) → Result
go_next rest checks num_inst (done x m) =
    if checks
    then (if sub_u32 num_inst 1 == 0 then running m else rest (sub_u32 num_inst 1) m)
    else rest num_inst m
go_next rest checks num_inst (thrown e m) = raised e m
go_next rest checks num_inst aborted = crashed
go_next rest checks num_inst undefined = meaningless

-- The switch on the op-code.
unfoldable pub select : (ℕ → Machine → Result) → Context → ℕ → ℕ → Machine → Option Op → Result
select rest c num_inst curr_op m none = leaves curr_op m
select rest c num_inst curr_op m (some op) =
    go_next rest (checks_num_inst op) num_inst (exec_op op c m)

unfoldable pub dispatch : (ℕ → Machine → Result) → Context → ℕ → Outcome ℕ → Result
dispatch rest c num_inst (done curr_op m) = select rest c num_inst curr_op m (decode curr_op)
dispatch rest c num_inst (thrown e m) = raised e m
dispatch rest c num_inst aborted = crashed
dispatch rest c num_inst undefined = meaningless

unfoldable pub run : ℕ → Context → ℕ → Machine → Result
run zero c num_inst m = out_of_fuel m
run (suc fuel) c num_inst m = dispatch (run fuel c) c num_inst (get_op c m)
