-- ===== src/Jit/Keeps/Flow.antt =====
-- The translations in Jit/Branches.antt, and the relation of Jit/Grows.antt.
use iron_net.Prelude.{ℕ, zero, suc, Bool, true, false}
use iron_net.Jit.Grows.{Keeps}
use iron_net.Jit.Keeps.{jit_rules}
use iron_net.Jit.Branches.{
  relative_jump, jit_ret, jit_endfinally, jit_throw, jit_br, jit_leave, switch_targets, jit_switch,
  jit_br_false_true, jit_br_cond, cil_br_cond, jit_branch,
}

relative_jump-Keeps : (short : Bool) → Keeps (relative_jump short)
unfolding relative_jump
relative_jump-Keeps true = search jit_rules depth 12
relative_jump-Keeps false = search jit_rules depth 12

pub jit_ret-Keeps : Keeps jit_ret
unfolding jit_ret
jit_ret-Keeps = search jit_rules depth 24

pub jit_endfinally-Keeps : Keeps jit_endfinally
unfolding jit_endfinally
jit_endfinally-Keeps = search jit_rules depth 24

pub jit_throw-Keeps : Keeps jit_throw
unfolding jit_throw
jit_throw-Keeps = search jit_rules depth 24

jit_br-Keeps : (short : Bool) → Keeps (jit_br short)
unfolding jit_br
jit_br-Keeps short = search (jit_rules, relative_jump-Keeps) depth 24

pub jit_leave-Keeps : (short : Bool) → Keeps (jit_leave short)
unfolding jit_leave
jit_leave-Keeps short = search (jit_rules, relative_jump-Keeps) depth 24

switch_targets-Keeps : (n : ℕ) (base : ℕ) → Keeps (switch_targets n base)
unfolding switch_targets
switch_targets-Keeps zero base = search jit_rules depth 12
switch_targets-Keeps (suc n) base = search (jit_rules, switch_targets-Keeps n) depth 12

jit_switch-Keeps : Keeps jit_switch
unfolding jit_switch
jit_switch-Keeps = search (jit_rules, switch_targets-Keeps) depth 24

jit_br_false_true-Keeps : (short : Bool) (which : ℕ) → Keeps (jit_br_false_true short which)
unfolding jit_br_false_true
jit_br_false_true-Keeps short which = search (jit_rules, relative_jump-Keeps) depth 24

cil_br_cond-Keeps : (which relative : ℕ) → Keeps (cil_br_cond which relative)
unfolding cil_br_cond
cil_br_cond-Keeps which relative = search jit_rules depth 24

jit_br_cond-Keeps : (short : Bool) (which : ℕ) → Keeps (jit_br_cond short which)
unfolding jit_br_cond
jit_br_cond-Keeps short which = search (jit_rules, relative_jump-Keeps, cil_br_cond-Keeps) depth 24

pub jit_branch-Keeps : (op : ℕ) → Keeps (jit_branch op)
unfolding jit_branch
jit_branch-Keeps op =
    search (jit_rules, jit_br-Keeps, jit_switch-Keeps, jit_br_false_true-Keeps, jit_br_cond-Keeps)
      depth 24

pub ruleset flow_rules =
    (jit_ret-Keeps, jit_endfinally-Keeps, jit_throw-Keeps, jit_leave-Keeps, jit_branch-Keeps)
