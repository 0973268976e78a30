-- ===== src/Jit/Keeps/Loads.antt =====
-- The translations in Jit/Loads.antt, and the relation of Jit/Grows.antt.
use iron_net.Prelude.{ℕ}
use iron_net.Jit.Types.{JitType}
use iron_net.Jit.Grows.{Keeps}
use iron_net.Jit.Keeps.{jit_rules}
use iron_net.Jit.{Parameter}
use iron_net.Jit.Loads.{
  load_i4, jit_ldnull, jit_dup, jit_pop, jit_ldc_i4, jit_ldc_i8, jit_ldc_r4, jit_ldc_r8,
  push_param_local, param_at, local_at, local_offset, load_arg, load_arg_address, store_arg,
  jit_load_local, jit_store_local, load_local_address, jit_arg_local_s, jit_arg_local, jit_ldind,
  jit_stind,
}

load_i4-Keeps : (v : ℕ) → Keeps (load_i4 v)
unfolding load_i4
load_i4-Keeps v = search jit_rules depth 24

pub jit_ldnull-Keeps : Keeps jit_ldnull
unfolding jit_ldnull
jit_ldnull-Keeps = search jit_rules depth 24

pub jit_dup-Keeps : Keeps jit_dup
unfolding jit_dup
jit_dup-Keeps = search jit_rules depth 24

pub jit_pop-Keeps : Keeps jit_pop
unfolding jit_pop
jit_pop-Keeps = search jit_rules depth 24

pub jit_ldc_i4-Keeps : (op : ℕ) → Keeps (jit_ldc_i4 op)
unfolding jit_ldc_i4
jit_ldc_i4-Keeps op = search (jit_rules, load_i4-Keeps) depth 24

pub jit_ldc_i8-Keeps : Keeps jit_ldc_i8
unfolding jit_ldc_i8
jit_ldc_i8-Keeps = search jit_rules depth 24

pub jit_ldc_r4-Keeps : Keeps jit_ldc_r4
unfolding jit_ldc_r4
jit_ldc_r4-Keeps = search jit_rules depth 24

pub jit_ldc_r8-Keeps : Keeps jit_ldc_r8
unfolding jit_ldc_r8
jit_ldc_r8-Keeps = search jit_rules depth 24

push_param_local-Keeps :
    (short : ℕ) (typed : ℕ) (t : JitType) (ofs : ℕ) → Keeps (push_param_local short typed t ofs)
unfolding push_param_local
push_param_local-Keeps short typed t ofs = search jit_rules depth 24

param_at-Keeps : (n : ℕ) → Keeps (param_at n)
unfolding param_at
param_at-Keeps n = search jit_rules depth 24

local_at-Keeps : (n : ℕ) → Keeps (local_at n)
unfolding local_at
local_at-Keeps n = search jit_rules depth 24

local_offset-Keeps : (p : Parameter) → Keeps (local_offset p)
unfolding local_offset
local_offset-Keeps p = search jit_rules depth 24

load_arg-Keeps : (n : ℕ) → Keeps (load_arg n)
unfolding load_arg
load_arg-Keeps n = search (jit_rules, push_param_local-Keeps, param_at-Keeps) depth 24

load_arg_address-Keeps : (n : ℕ) → Keeps (load_arg_address n)
unfolding load_arg_address
load_arg_address-Keeps n = search (jit_rules, param_at-Keeps) depth 24

store_arg-Keeps : (n : ℕ) → Keeps (store_arg n)
unfolding store_arg
store_arg-Keeps n = search (jit_rules, push_param_local-Keeps, param_at-Keeps) depth 24

pub jit_load_local-Keeps : (n : ℕ) → Keeps (jit_load_local n)
unfolding jit_load_local
jit_load_local-Keeps n =
    search (jit_rules, push_param_local-Keeps, local_at-Keeps, local_offset-Keeps) depth 24

pub jit_store_local-Keeps : (n : ℕ) → Keeps (jit_store_local n)
unfolding jit_store_local
jit_store_local-Keeps n =
    search (jit_rules, push_param_local-Keeps, local_at-Keeps, local_offset-Keeps) depth 24

load_local_address-Keeps : (n : ℕ) → Keeps (load_local_address n)
unfolding load_local_address
load_local_address-Keeps n = search (jit_rules, local_at-Keeps, local_offset-Keeps) depth 24

jit_arg_local_s-Keeps : (op : ℕ) (n : ℕ) → Keeps (jit_arg_local_s op n)
unfolding jit_arg_local_s
jit_arg_local_s-Keeps op n =
    search
      (
        jit_rules, load_arg-Keeps, load_arg_address-Keeps, store_arg-Keeps, jit_load_local-Keeps,
        jit_store_local-Keeps, load_local_address-Keeps,
      )
      depth 24

pub jit_arg_local-Keeps : (op : ℕ) → Keeps (jit_arg_local op)
unfolding jit_arg_local
jit_arg_local-Keeps op =
    search
      (
        jit_rules, load_arg-Keeps, jit_load_local-Keeps, jit_store_local-Keeps,
        jit_arg_local_s-Keeps,
      )
      depth 24

pub jit_ldind-Keeps : (op : ℕ) → Keeps (jit_ldind op)
unfolding jit_ldind
jit_ldind-Keeps op = search jit_rules depth 24

pub jit_stind-Keeps : (op : ℕ) → Keeps (jit_stind op)
unfolding jit_stind
jit_stind-Keeps op = search jit_rules depth 24

pub ruleset loads_rules = (
  jit_ldnull-Keeps, jit_dup-Keeps, jit_pop-Keeps, jit_ldc_i4-Keeps, jit_ldc_i8-Keeps,
  jit_ldc_r4-Keeps, jit_ldc_r8-Keeps, jit_arg_local-Keeps, jit_ldind-Keeps, jit_stind-Keeps,
  jit_load_local-Keeps, jit_store_local-Keeps,
)
