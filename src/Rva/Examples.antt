-- ===== src/Rva/Examples.antt =====
-- RVA_Create and RVA_FindData on one section of eight bytes, four of them in the file.
use iron_net.Prelude.{
  ◌+◌, ◌≡◌, refl, [], ◌∷◌, ltb, ◌&&◌, if◌then◌else◌, arith, get_or, replicate, ◌++◌, get_u32,
  Memory,
}
use iron_net.Rva.{rva_create, rva_find_data, find_data-create}

-- A section header at 0 (size 8, address 0x2000, four raw bytes from 0x20 on), and the file at 0.
abbrev file : Memory
file a =
    get_or
      (replicate 8 0
        ++ (8 ∷ 0 ∷ 0 ∷ 0 ∷ 0 ∷ 0x20 ∷ 0 ∷ 0 ∷ 4 ∷ 0 ∷ 0 ∷ 0 ∷ 0x20 ∷ [])
        ++ replicate 11 0
        ++ (11 ∷ 22 ∷ 33 ∷ 44 ∷ 55 ∷ []))
      a 0

loaded :
    (rva_create file [] 0 0 0x1000).1 (rva_find_data (rva_create file [] 0 0 0x1000).0 0x2002) ≡ 33
unfolding rva_create rva_find_data get_u32
loaded = refl

find_data-create_example :
    (rva_create file [] 0 0 0x1000).1
      (rva_find_data (rva_create file [] 0 0 0x1000).0 (get_u32 file 12 + 2))
    ≡ (if ltb 0 (get_u32 file 20) && ltb 2 (get_u32 file 16)
        then file (0 + get_u32 file 20 + 2)
        else 0)
unfolding get_u32
find_data-create_example =
    find_data-create file [] 0 0 0x1000 2 (omega arith) (omega arith) (omega arith)
