-- ===== src/SystemArray.antt =====
-- DotNetAnywhere/System.Array.c: the natives of arrays, on the bytes of the memory. An array object is
-- its address: four bytes of length, and the elements behind them. `size` is the arrayElementSize of
-- its element type, which Heap_GetType leads to. The code has no bounds checks outside _WIN32 debug
-- builds.
mod Examples
use iron_net.Prelude.{
  ℕ, zero, suc, ◌+◌, ◌-◌, ◌*◌, ◌/◌, ◌%◌, ◌^◌, ◌≤◌, ◌<◌, ◌≡◌, ◌≢◌, refl, ap, ◌∙◌, Bool, true, false,
  ◌==◌, ◌&&◌, ◌||◌, ltb, leb, not, if◌then◌else◌, Memory, get_u32, u32, sub_u32, arith, Option,
  none, some, Bool-cases, inl, inr,
}

-- memcpy, memset to 0, and a U32 stored.
abbrev pub memcpy : Memory → ℕ → ℕ → ℕ → Memory
memcpy mem dst src n a = if leb dst a && ltb a (dst + n) then mem (src + (a - dst)) else mem a

abbrev pub zero_bytes : Memory → ℕ → ℕ → Memory
zero_bytes mem dst n a = if leb dst a && ltb a (dst + n) then 0 else mem a

abbrev pub put_u32 : Memory → ℕ → ℕ → Memory
put_u32 mem p v a = if leb p a && ltb a (p + 4) then v / 2 ^ (8 * (a - p)) % 2 ^ 8 else mem a

abbrev pub elements : ℕ → ℕ
elements obj = obj + 4

-- SystemArray_GetLength.
abbrev pub get_length : Memory → ℕ → ℕ
get_length mem obj = get_u32 mem obj

-- Elements of 1, 2 and 4 bytes are reached by the index of a pointer, others by a U32 product.
unfoldable pub element_offset : ℕ → ℕ → ℕ
element_offset size index =
    if (size == 1) || (size == 2) || (size == 4) then index * size else u32 (index * size)

-- SystemArray_StoreElement and SystemArray_LoadElement.
unfoldable pub store_element : Memory → ℕ → ℕ → ℕ → ℕ → Memory
store_element mem obj size index value =
    memcpy mem (elements obj + element_offset size index) value size

unfoldable pub load_element : Memory → ℕ → ℕ → ℕ → ℕ → Memory
load_element mem obj size index value =
    memcpy mem value (elements obj + element_offset size index) size

-- SystemArray_LoadElementAddress and SystemArray_GetNumBytes.
unfoldable pub load_element_address : ℕ → ℕ → ℕ → ℕ
load_element_address obj size index = elements obj + u32 (size * index)

unfoldable pub get_num_bytes : Memory → ℕ → ℕ → ℕ
get_num_bytes mem obj size = u32 (u32 (get_length mem obj * size) + 4)

-- SystemArray_NewVector, with the zeroed object that Heap_Alloc returns at `fresh`.
unfoldable pub new_vector : Memory → ℕ → ℕ → ℕ → Memory
new_vector mem fresh size length =
    put_u32 (zero_bytes mem fresh (u32 (4 + u32 (length * size)))) fresh length

-- System_Array_Clear.
unfoldable pub array_clear : Memory → ℕ → ℕ → ℕ → ℕ → Memory
array_clear mem obj size index length =
    zero_bytes mem (elements obj + u32 (index * size)) (u32 (length * size))

-- System_Array_Internal_Copy: `assignable` is what Type_IsAssignableFrom says of the element types,
-- and `size` that of the source.
unfoldable pub internal_copy : Bool → Memory → ℕ → ℕ → ℕ → ℕ → ℕ → ℕ → ℕ × Memory
internal_copy assignable mem src src_index dst dst_index length size =
    if assignable
    then (
      1,
      memcpy mem (elements dst + u32 (dst_index * size)) (elements src + u32 (src_index * size))
          (u32 (length * size)),
    )
    else (0, mem)

-- System_Array_Resize of the array at `old`: the array that stands there afterwards, and the memory.
unfoldable pub resize : Memory → ℕ → ℕ → ℕ → ℕ → ℕ × Memory
unfolding new_vector
resize mem old fresh size new_size =
    let old_size = get_length mem old in
    if old_size == new_size then (old, mem) else (
      fresh,
      memcpy (new_vector mem fresh size new_size) (elements fresh) (elements old)
          (u32 (size * (if ltb new_size old_size then new_size else old_size))),
    )

memcpy-inside :
    (mem : Memory) (dst src n b : ℕ) → b < n → memcpy mem dst src n (dst + b) ≡ mem (src + b)
memcpy-inside mem dst src n b h =
    let here : dst + b - dst ≡ b = omega arith in
    let inside : (leb dst (dst + b) && ltb (dst + b) (dst + n)) ≡ true = ground arith in
    rw (inside, here) refl

memcpy-before : (mem : Memory) (dst src n a : ℕ) → a < dst → memcpy mem dst src n a ≡ mem a
memcpy-before mem dst src n a h =
    let outside : (leb dst a && ltb a (dst + n)) ≡ false = ground arith in rw outside refl

memcpy-behind : (mem : Memory) (dst src n a : ℕ) → dst + n ≤ a → memcpy mem dst src n a ≡ mem a
memcpy-behind mem dst src n a h =
    let outside : (leb dst a && ltb a (dst + n)) ≡ false = ground arith in rw outside refl

-- The elements do not overlap.
elements_apart : (n i j : ℕ) → i < j → i * n + n ≤ j * n
elements_apart n i zero h = absurd (omega arith)
elements_apart n i (suc j) h = elim (Bool-cases (i == j)) [
  | inl e ↦ let same : i ≡ j = ground arith in omega (arith, ap (λ k. k * n) same)
  | inr e ↦ let less : i < j = ground arith in omega (arith, elements_apart n i j less)
]

element_offset-fits :
    (size index : ℕ) → index * size < 2 ^ 32 → element_offset size index ≡ index * size
unfolding element_offset
element_offset-fits size index h = ground arith

module _ (mem : Memory) (obj size i src : ℕ) (fits : i * size < 2 ^ 32) where
  store_element-same :
      (b : ℕ)
      → b < size
      → store_element mem obj size i src (elements obj + i * size + b) ≡ mem (src + b)
  unfolding store_element
  store_element-same b h =
      rw (element_offset-fits size i fits)
        (memcpy-inside mem (elements obj + i * size) src size b h)

  store_element-other :
      (j b : ℕ)
      → i ≢ j
      → b < size
      → store_element mem obj size i src (elements obj + j * size + b)
        ≡ mem (elements obj + j * size + b)
  unfolding store_element
  store_element-other j b other h = elim (Bool-cases (ltb i j)) [
    | inl less ↦
        let behind : elements obj + i * size + size ≤ elements obj + j * size + b =
          omega (arith, elements_apart size i j (ground arith)) in
        rw (element_offset-fits size i fits) (
          memcpy-behind mem (elements obj + i * size) src size (elements obj + j * size + b) behind)
    | inr more ↦
        let before : elements obj + j * size + b < elements obj + i * size =
          omega (arith, elements_apart size j i (ground arith)) in
        rw (element_offset-fits size i fits) (
          memcpy-before mem (elements obj + i * size) src size (elements obj + j * size + b) before)
  ]

-- After SystemArray_StoreElement from `src` to element i, SystemArray_LoadElement of element j gives
-- byte by byte what stood at `src` if i and j are one, and else what was in element j before, while
-- the elements lie below 2 ^ 32 bytes.
pub load_element-store_element :
    (mem : Memory) (obj size i j src dst b : ℕ)
    → i * size < 2 ^ 32
    → j * size < 2 ^ 32
    → b < size
    → load_element (store_element mem obj size i src) obj size j dst (dst + b)
      ≡ (if i == j then mem (src + b) else mem (elements obj + j * size + b))
unfolding load_element
load_element-store_element mem obj size i j src dst b hi hj h =
    let mem' = store_element mem obj size i src in
    let read : memcpy mem' dst (elements obj + j * size) size (dst + b)
        ≡ mem' (elements obj + j * size + b) =
      memcpy-inside mem' dst (elements obj + j * size) size b h in
    rw (element_offset-fits size j hj) (
      read ∙ elim (Bool-cases (i == j)) [
        | inl e ↦
            let same : j ≡ i = ground arith in
            rw (e, same) (store_element-same mem obj size i src hi b h)
        | inr e ↦ rw e (store_element-other mem obj size i src hi j b (ground arith) h)
      ])
