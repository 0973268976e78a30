-- ===== src/Jit/Keeps/Values.antt =====
-- The translations in Jit/Arith.antt, Jit/Convert.antt and Jit/Elements.antt, and the relation of Jit/Grows.antt.
use iron_net.Prelude.{ℕ}
use iron_net.Jit.Types.{JitType}
use iron_net.Jit.Grows.{Keeps}
use iron_net.Jit.Keeps.{jit_rules}
use iron_net.Jit.Arith.{jit_arith, jit_unary, jit_shift, jit_compare}
use iron_net.Jit.Convert.{Conversion, conv_param, jit_conv}
use iron_net.Jit.Elements.{
  jit_ldstr, jit_ldlen, jit_ldelema, push_element, jit_ldelem, jit_stelem, jit_stelem_any,
}

pub jit_arith-Keeps : (op : ℕ) → Keeps (jit_arith op)
unfolding jit_arith
jit_arith-Keeps op = search jit_rules depth 24

pub jit_unary-Keeps : (op : ℕ) → Keeps (jit_unary op)
unfolding jit_unary
jit_unary-Keeps op = search jit_rules depth 24

pub jit_shift-Keeps : (op : ℕ) → Keeps (jit_shift op)
unfolding jit_shift
jit_shift-Keeps op = search jit_rules depth 24

pub jit_compare-Keeps : (op : ℕ) → Keeps (jit_compare op)
unfolding jit_compare
jit_compare-Keeps op = search jit_rules depth 24

conv_param-Keeps : (conv : Conversion) → Keeps (conv_param conv)
unfolding conv_param
conv_param-Keeps conv = search jit_rules depth 24

pub jit_conv-Keeps : (op : ℕ) → Keeps (jit_conv op)
unfolding jit_conv
jit_conv-Keeps op = search (jit_rules, conv_param-Keeps) depth 24

pub jit_ldstr-Keeps : Keeps jit_ldstr
unfolding jit_ldstr
jit_ldstr-Keeps = search jit_rules depth 24

pub jit_ldlen-Keeps : Keeps jit_ldlen
unfolding jit_ldlen
jit_ldlen-Keeps = search jit_rules depth 24

pub jit_ldelema-Keeps : Keeps jit_ldelema
unfolding jit_ldelema
jit_ldelema-Keeps = search jit_rules depth 24

push_element-Keeps : (n : ℕ) (t : JitType) → Keeps (push_element n t)
unfolding push_element
push_element-Keeps n t = search jit_rules depth 24

pub jit_ldelem-Keeps : (op : ℕ) → Keeps (jit_ldelem op)
unfolding jit_ldelem
jit_ldelem-Keeps op = search (jit_rules, push_element-Keeps) depth 24

pub jit_stelem-Keeps : (op : ℕ) → Keeps (jit_stelem op)
unfolding jit_stelem
jit_stelem-Keeps op = search jit_rules depth 24

pub jit_stelem_any-Keeps : Keeps jit_stelem_any
unfolding jit_stelem_any
jit_stelem_any-Keeps = search jit_rules depth 24

pub ruleset values_rules = (
  jit_arith-Keeps, jit_unary-Keeps, jit_shift-Keeps, jit_compare-Keeps, jit_conv-Keeps,
  jit_ldstr-Keeps, jit_ldlen-Keeps, jit_ldelema-Keeps, jit_ldelem-Keeps, jit_stelem-Keeps,
  jit_stelem_any-Keeps,
)
