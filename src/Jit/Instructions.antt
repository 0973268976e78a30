-- ===== src/Jit/Instructions.antt =====
-- The whole switch of JITit, and the relation of Jit/Grows.antt.
use iron_net.Prelude.{ℕ}
use iron_net.Jit.Grows.{Keeps}
use iron_net.Jit.Keeps.{jit_rules}
use iron_net.Jit.Keeps.Loads.{loads_rules}
use iron_net.Jit.Keeps.Flow.{flow_rules}
use iron_net.Jit.Keeps.Values.{values_rules}
use iron_net.Jit.Translate.{jit_extended, jit_low, jit_high, jit_instruction}

ruleset instruction_rules = (jit_rules, loads_rules, flow_rules, values_rules)

jit_extended-Keeps : (op : ℕ) → Keeps (jit_extended op)
unfolding jit_extended
jit_extended-Keeps op = search instruction_rules depth 24

jit_low-Keeps : (op : ℕ) → Keeps (jit_low op)
unfolding jit_low
jit_low-Keeps op = search instruction_rules depth 24

jit_high-Keeps : (op : ℕ) → Keeps (jit_high op)
unfolding jit_high
jit_high-Keeps op = search (instruction_rules, jit_extended-Keeps) depth 24

pub jit_instruction-Keeps : (op : ℕ) → Keeps (jit_instruction op)
unfolding jit_instruction
jit_instruction-Keeps op = search (instruction_rules, jit_low-Keeps, jit_high-Keeps) depth 24
