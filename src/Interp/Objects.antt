-- ===== src/Interp/Objects.antt =====
-- JIT_Execute.c: the op-codes on the elements of vectors, on the fields of objects, on static fields,
-- and those that clear, unbox and name things. The memory has a byte at every address: what the code
-- does with a null or a wild pointer is an access of those bytes.
use iron_net.Prelude.{ℕ, ◌+◌, ◌^◌, ◌==◌, ◌&&◌, leb, if◌then◌else◌, u32}
use iron_net.SystemArray.{
  memcpy, elements, element_offset, load_element, store_element, load_element_address, zero_bytes,
}
use iron_net.Interp.Ints.{signed, word}
use iron_net.Interp.Machine.{
  Exec, ◌>>=◌, ◌>>◌, give, no_meaning, get_op, push, pop, get_sp, get_pc, set_pc, read, write,
  change, push_word, pop_word, get_types, done,
}
use iron_net.Interp.Locals.{push_valuetype, pop_valuetype}

pub data VectorOp : Type 0 where
  load_vector_len load_element_i8 load_element_u8 load_element_i16 load_element_u16 : VectorOp
  load_element_i32 load_element_i64 load_element_general load_element_addr : VectorOp
  store_element_32 store_element_64 store_element_general : VectorOp

-- The arrayElementSize of the elements of an array object.
unfoldable pub element_size : ℕ → Exec ℕ
element_size obj = do
  types ← get_types
  give (types.array_element_size (types.array_element_type (types.get_type obj)))

-- SystemArray_LoadElement into a variable of `room` bytes, of which the lowest n are used. An element
-- of fewer than n bytes leaves some of them unset, and one of more than `room` runs over the variable.
unfoldable pub element_value : ℕ → ℕ → Exec ℕ
element_value n room = do
  idx ← pop_word 4
  heap_ptr ← pop_word 4
  size ← element_size heap_ptr
  if leb n size && leb size room
      then read n (elements heap_ptr + element_offset size idx)
      else no_meaning

-- SystemArray_StoreElement from a variable of n bytes.
unfoldable pub store_value : ℕ → Exec (Unit {0})
store_value n = do
  value ← pop_word n
  idx ← pop_word 4
  heap_ptr ← pop_word 4
  size ← element_size heap_ptr
  if leb size n then write size (elements heap_ptr + element_offset size idx) value else no_meaning

unfoldable pub exec_vector : VectorOp → Exec (Unit {0})
exec_vector load_vector_len = do heap_ptr ← pop_word 4; value ← read 4 heap_ptr; push_word 4 value
exec_vector load_element_i8 = do
  value ← element_value 1 4
  push_word 4 (word (2 ^ 31) (signed (2 ^ 7) value))
exec_vector load_element_u8 = do value ← element_value 1 4; push_word 4 value
exec_vector load_element_i16 = do
  value ← element_value 2 4
  push_word 4 (word (2 ^ 31) (signed (2 ^ 15) value))
exec_vector load_element_u16 = do value ← element_value 2 4; push_word 4 value
exec_vector load_element_i32 = do value ← element_value 4 4; push_word 4 value
exec_vector load_element_i64 = do value ← element_value 8 8; push_word 8 value
exec_vector load_element_general = do
  idx ← pop_word 4
  heap_ptr ← pop_word 4
  size ← get_op
  p ← get_sp
  write 4 p 0
  stored ← element_size heap_ptr
  change (λ mem. load_element mem heap_ptr stored idx p)
  push size
exec_vector load_element_addr = do
  idx ← pop_word 4
  heap_ptr ← pop_word 4
  stored ← element_size heap_ptr
  push_word 4 (load_element_address heap_ptr stored idx)
exec_vector store_element_32 = store_value 4
exec_vector store_element_64 = store_value 8
exec_vector store_element_general = do
  size ← get_op
  pop size
  mem ← get_sp
  idx ← pop_word 4
  heap_ptr ← pop_word 4
  stored ← element_size heap_ptr
  change (λ bytes. store_element bytes heap_ptr stored idx mem)

pub data FieldOp : Type 0 where
  storefield_int32 storefield_int64 storefield_valuetype : FieldOp
  loadfield loadfield_4 loadfield_8 loadfield_valuetype load_field_addr : FieldOp
  storestaticfield_int32 storestaticfield_int64 storestaticfield_valuetype : FieldOp

unfoldable pub store_field : ℕ → Exec (Unit {0})
store_field n = do
  field_def ← get_op
  value ← pop_word n
  heap_ptr ← pop_word 4
  types ← get_types
  write n (u32 (heap_ptr + types.mem_offset field_def)) value

unfoldable pub load_field : ℕ → Exec (Unit {0})
load_field n = do
  ofs ← get_op
  heap_ptr ← pop_word 4
  value ← read n (u32 (heap_ptr + ofs))
  push_word n value

unfoldable pub store_static_field : ℕ → Exec (Unit {0})
store_static_field n = do
  field_def ← get_op
  value ← pop_word n
  types ← get_types
  write n (types.p_memory field_def) value

unfoldable pub exec_field : FieldOp → Exec (Unit {0})
exec_field storefield_int32 = store_field 4
exec_field storefield_int64 = store_field 8
exec_field storefield_valuetype = do
  field_def ← get_op
  types ← get_types
  pop (types.mem_size field_def)
  mem ← get_sp
  heap_ptr ← pop_word 4
  change (λ bytes.
      memcpy bytes (u32 (heap_ptr + types.mem_offset field_def)) mem (types.mem_size field_def))
exec_field loadfield = do
  field_def ← get_op
  heap_ptr ← pop_word 4
  types ← get_types
  push_valuetype (u32 (heap_ptr + types.mem_offset field_def)) (types.mem_size field_def)
      (types.mem_size field_def)
exec_field loadfield_4 = load_field 4
exec_field loadfield_8 = load_field 8
exec_field loadfield_valuetype = do
  size ← get_op
  field_def ← get_op
  pop size
  p ← get_sp
  types ← get_types
  push_valuetype (u32 (p + types.mem_offset field_def)) (types.mem_size field_def)
      (types.mem_size field_def)
exec_field load_field_addr = do
  ofs ← get_op
  heap_ptr ← pop_word 4
  push_word 4 (u32 (heap_ptr + ofs))
exec_field storestaticfield_int32 = store_static_field 4
exec_field storestaticfield_int64 = store_static_field 8
exec_field storestaticfield_valuetype = do
  field_def ← get_op
  types ← get_types
  pop_valuetype (types.p_memory field_def) (types.mem_size field_def) (types.mem_size field_def)

pub data ObjectOp : Type 0 where
  init_valuetype init_object box_o unbox2object unbox2valuetype unbox_nullable : ObjectOp
  box_int32 box_int64 box_valuetype box_nullable : ObjectOp
  loadtoken_type loadtoken_field loadfunction loadobject : ObjectOp

-- Heap_AllocType.
unfoldable pub new_object : ℕ → Exec ℕ
new_object type_def c m =
    let (heap_ptr, mem) = c.alloc_type type_def m.mem in
    done heap_ptr (record { mem = mem; sp = m.sp; pc = m.pc })

-- JIT_BOX_INT32 and JIT_BOX_INT64.
unfoldable pub box_word : ℕ → Exec (Unit {0})
box_word n = do
  type_def ← get_op
  heap_ptr ← new_object type_def
  value ← pop_word n
  write n heap_ptr value
  push_word 4 heap_ptr

unfoldable pub exec_object : ObjectOp → Exec (Unit {0})
exec_object init_valuetype = do
  type_def ← get_op
  ptr ← pop_word 4
  types ← get_types
  change (λ mem. zero_bytes mem ptr (types.instance_mem_size type_def))
exec_object init_object = do ptr ← pop_word 4; write 4 ptr 0
exec_object box_o = do p ← get_pc; set_pc (p + 1)
exec_object unbox2object = give tt
exec_object unbox2valuetype = do
  heap_ptr ← pop_word 4
  types ← get_types
  push_valuetype heap_ptr (types.stack_size (types.get_type heap_ptr))
      (types.stack_size (types.get_type heap_ptr))
exec_object unbox_nullable = do
  type_def ← get_op
  heap_ptr ← pop_word 4
  types ← get_types
  if heap_ptr == 0 then (do push_word 4 0; push (types.stack_size type_def)) else (do
    push_word 4 1
    push_valuetype heap_ptr (types.stack_size type_def) (types.stack_size type_def))
exec_object box_int32 = box_word 4
exec_object box_int64 = box_word 8
exec_object box_valuetype = do
  type_def ← get_op
  heap_ptr ← new_object type_def
  types ← get_types
  pop_valuetype heap_ptr (types.stack_size type_def) (types.stack_size type_def)
  push_word 4 heap_ptr
exec_object box_nullable = do
  type_def ← get_op
  types ← get_types
  pop (u32 (types.stack_size type_def + 4))
  p ← get_sp
  has_value ← read 4 p
  if has_value == 0 then push_word 4 0 else (do
    boxed ← new_object type_def
    change (λ mem. memcpy mem boxed (p + 4) (types.instance_mem_size type_def))
    push_word 4 boxed)
exec_object loadtoken_type = do type_def ← get_op; push_word 4 type_def
exec_object loadtoken_field = do
  field_def ← get_op
  types ← get_types
  push_word 4 (types.p_memory field_def)
exec_object loadfunction = do value ← get_op; push_word 4 value
exec_object loadobject = do
  ptr ← pop_word 4
  type_def ← get_op
  types ← get_types
  p ← get_sp
  write 4 p 0
  push_valuetype ptr (types.array_element_size type_def) (types.stack_size type_def)
