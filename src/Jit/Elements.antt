-- ===== src/Jit/Elements.antt =====
-- JIT.c, CIL_LDSTR and CIL_LDLEN to CIL_STELEM_ANY: strings and the elements of arrays. The token of
-- CIL_LDELEM_ANY is one of those that the metadata is asked about.
use iron_net.Prelude.{ℕ, ◌+◌, ◌-◌, ◌%◌, ◌^◌, leb, ◌==◌, ◌||◌, if◌then◌else◌}
use iron_net.Jit.{
  Step, ◌>>=◌, ◌>>◌, crash, push_op, push_op_param, push_type, pop_type, pop_types, next_u32,
}
use iron_net.Jit.Types.{
  JitType, system_int32, system_int64, system_single, system_double, system_object, system_string,
  system_intptr,
}

-- CIL_LDSTR.
unfoldable pub jit_ldstr : Step (Unit {0})
jit_ldstr = do token ← next_u32; push_op_param 0x4 (token % 2 ^ 24); push_type system_string

-- CIL_LDLEN.
unfoldable pub jit_ldlen : Step (Unit {0})
jit_ldlen = do pop_type; push_op 0x1e; push_type system_int32

-- CIL_LDELEMA.
unfoldable pub jit_ldelema : Step (Unit {0})
jit_ldelema = do pop_types 2; next_u32; push_op 0x20; push_type system_intptr

unfoldable pub push_element : ℕ → JitType → Step (Unit {0})
push_element n t = do pop_types 2; push_op n; push_type t

-- CIL_LDELEM_I1 to CIL_LDELEM_REF.
unfoldable pub jit_ldelem : ℕ → Step (Unit {0})
jit_ldelem op =
    if leb op 0x95
    then push_element (0xe0 + (op - 0x90)) system_int32
    else (if op == 0x96
        then push_element 0xe6 system_int64
        else (if op == 0x98
            then push_element 0xe7 system_single
            else (if op == 0x99
                then push_element 0xe8 system_double
                else (if op == 0x9a then push_element 0xe5 system_object else crash))))

-- CIL_STELEM_I1 to CIL_STELEM_REF.
unfoldable pub jit_stelem : ℕ → Step (Unit {0})
jit_stelem op = do pop_types 3; if (op == 0x9f) || (op == 0xa1) then push_op 0xdf else push_op 0xde

-- CIL_STELEM_ANY.
unfoldable pub jit_stelem_any : Step (Unit {0})
jit_stelem_any = do next_u32; t ← pop_type; pop_types 2; push_op_param 0x18 t.stack_size
