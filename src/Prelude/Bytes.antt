-- ===== src/Prelude/Bytes.antt =====
-- Byte-addressed memory, and little-endian reads of it.
use Prim.Native.Nat.{ℕ, zero, suc, ◌+◌, ◌*◌, ◌/◌, ◌%◌, ◌^◌, ◌<◌, bit_or}
use mathlib.Core.Path.{◌≡◌, refl, ap}
use mathlib.Core.List.{List, [], ◌∷◌}
use native.Mathlib.Omega.{arith}
use iron_net.Prelude.Bits.{or_low}
use iron_net.Prelude.Lists.{length}

-- The byte at each address.
abbrev pub Memory : Type 0
Memory = ℕ → ℕ

abbrev pub HoldsBytes : Memory → Type 0
HoldsBytes mem = (a : ℕ) → mem a < 2 ^ 8

-- GetU16 and GetU32 of MetaData.c; UINT16_FROM_LE and UINT32_FROM_LE of a read at the address.
unfoldable pub get_u16 : Memory → ℕ → ℕ
get_u16 mem p = bit_or (mem p) (mem (p + 1) * 2 ^ 8)

unfoldable pub get_u32 : Memory → ℕ → ℕ
get_u32 mem p =
    bit_or (bit_or (bit_or (mem p) (mem (p + 1) * 2 ^ 8)) (mem (p + 2) * 2 ^ 16))
      (mem (p + 3) * 2 ^ 24)

pub get_u16-sum :
    (mem : Memory) (p : ℕ) → HoldsBytes mem → get_u16 mem p ≡ mem (p + 1) * 2 ^ 8 + mem p
unfolding get_u16
get_u16-sum mem p h = or_low 8 (mem (p + 1)) (mem p) (h p)

pub get_u32-sum :
    (mem : Memory) (p : ℕ)
    → HoldsBytes mem
    → get_u32 mem p ≡ mem (p + 3) * 2 ^ 24 + mem (p + 2) * 2 ^ 16 + mem (p + 1) * 2 ^ 8 + mem p
unfolding get_u32
get_u32-sum mem p h =
    rw
      (
        or_low 8 (mem (p + 1)) (mem p) (h p),
        or_low 16 (mem (p + 2)) (mem (p + 1) * 2 ^ 8 + mem p) (omega (arith, h p, h (p + 1))),
        or_low 24 (mem (p + 3)) (mem (p + 2) * 2 ^ 16 + (mem (p + 1) * 2 ^ 8 + mem p))
            (omega (arith, h p, h (p + 1), h (p + 2))),
      )
      (omega arith)

-- The bytes of a number of the given width, lowest first.
abbrev pub le_bytes : ℕ → ℕ → List ℕ
le_bytes zero v = []
le_bytes (suc w) v = (v % 2 ^ 8) ∷ le_bytes w (v / 2 ^ 8)

pub length-le_bytes : (w v : ℕ) → length (le_bytes w v) ≡ w
length-le_bytes zero v = refl
length-le_bytes (suc w) v = ap suc (length-le_bytes w (v / 2 ^ 8))
