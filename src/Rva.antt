-- ===== src/Rva.antt =====
-- DotNetAnywhere/RVA.c: the sections of a PE file, copied to where they are loaded.
mod Examples
use iron_net.Prelude.{
  ℕ, ◌+◌, ◌-◌, ◌*◌, ◌^◌, ◌≤◌, ◌<◌, ◌≡◌, refl, List, [], ◌∷◌, ltb, leb, ◌==◌, ◌&&◌, if◌then◌else◌,
  arith, u32, Memory, get_u32, Bool-cases, inl, inr,
}
use Prim.Native.Nat.{min}

-- tRVA_Item; the pointer to the next one is the list.
pub record RvaItem : Type 0 where
  pub base_address : ℕ
  pub size : ℕ
  pub data_start : ℕ

-- RVA_Create: `fresh` is the address that callocForever returns for the section's memory. The raw
-- bytes of the file are copied in as far as they fit, and the rest of the section is zero.
unfoldable pub rva_create : Memory → List RvaItem → ℕ → ℕ → ℕ → List RvaItem × Memory
rva_create mem items file header fresh =
    let base = get_u32 mem (header + 12) in
    let size = get_u32 mem (header + 8) in
    let raw_ofs = get_u32 mem (header + 20) in
    let raw_size = get_u32 mem (header + 16) in
    let copied = (if ltb size raw_size then size else raw_size) in
    (
      record { base_address = base; size = size; data_start = fresh } ∷ items,
      λ a.
          if leb fresh a && ltb a (fresh + size)
          then (if ltb 0 raw_ofs && ltb a (fresh + copied)
              then mem (file + raw_ofs + (a - fresh))
              else 0)
          else mem a,
    )

-- RVA_FindData: the address where the byte at a relative virtual address is loaded; 0 is NULL. The
-- end of a section is computed in U32.
find_item : List RvaItem → ℕ → ℕ
find_item [] rva = 0
find_item (r ∷ rest) rva =
    if leb r.base_address rva && ltb rva (u32 (r.base_address + r.size))
    then r.data_start + (rva - r.base_address)
    else find_item rest rva

unfoldable pub rva_find_data : List RvaItem → ℕ → ℕ
unfolding find_item
rva_find_data items rva = if rva == 0 then 0 else find_item items rva

lookup_address :
    (b s k fresh : ℕ) (items : List RvaItem)
    → 0 < b + k
    → k < s
    → b + s < 2 ^ 32
    → rva_find_data (record { base_address = b; size = s; data_start = fresh } ∷ items) (b + k)
      ≡ fresh + k
unfolding rva_find_data
lookup_address b s k fresh items pos small fits = ground arith

loaded_byte :
    (mem : Memory) (file fresh s o r k : ℕ)
    → k < s
    → (if leb fresh (fresh + k) && ltb (fresh + k) (fresh + s)
        then (if ltb 0 o && ltb (fresh + k) (fresh + (if ltb s r then s else r))
            then mem (file + o + (fresh + k - fresh))
            else 0)
        else mem (fresh + k))
      ≡ (if ltb 0 o && ltb k r then mem (file + o + k) else 0)
loaded_byte mem file fresh s o r k small =
    let here : fresh + k - fresh ≡ k = omega arith in rw here (ground arith)

-- After RVA_Create, RVA_FindData leads from each address of the section to the byte of the file that
-- the section header puts there, or to zero past the raw data, while the section ends below 2 ^ 32.
pub find_data-create :
    (mem : Memory) (items : List RvaItem) (file header fresh k : ℕ)
    → 0 < get_u32 mem (header + 12) + k
    → k < get_u32 mem (header + 8)
    → get_u32 mem (header + 12) + get_u32 mem (header + 8) < 2 ^ 32
    → (rva_create mem items file header fresh).1
        (rva_find_data (rva_create mem items file header fresh).0 (get_u32 mem (header + 12) + k))
      ≡ (if ltb 0 (get_u32 mem (header + 20)) && ltb k (get_u32 mem (header + 16))
          then mem (file + get_u32 mem (header + 20) + k)
          else 0)
unfolding rva_create rva_find_data
find_data-create mem items file header fresh k pos small fits =
    let b = get_u32 mem (header + 12) in
    let s = get_u32 mem (header + 8) in
    rw (lookup_address b s k fresh items pos small fits)
      (loaded_byte mem file fresh s (get_u32 mem (header + 20)) (get_u32 mem (header + 16)) k small)
