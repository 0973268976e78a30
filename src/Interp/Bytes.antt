-- ===== src/Interp/Bytes.antt =====
-- Loads and stores of words of any number of bytes, lowest byte first, as `*(U32*)p` and `*(U64*)p`
-- do on the little-endian targets, with memcpy and memset.
use iron_net.Prelude.{
  ℕ, zero, suc, ◌+◌, ◌*◌, ◌/◌, ◌%◌, ◌^◌, ◌≤◌, ◌<◌, ◌≡◌, ◌⊎◌, refl, ap, sym, ◌∙◌, ◌==◌, inl, inr,
  if◌then◌else◌, Memory, HoldsBytes, arith,
}
use native.Mathlib.Nat.{div-add-mod, mod-lt, mul-add-mod_self_left, mod-eq_of_lt}

unfoldable pub set_byte : Memory → ℕ → ℕ → Memory
set_byte mem p v a = if a == p then v % 2 ^ 8 else mem a

unfoldable pub load : ℕ → Memory → ℕ → ℕ
load zero mem p = 0
load (suc n) mem p = mem p + 2 ^ 8 * load n mem (p + 1)

unfoldable pub store : ℕ → Memory → ℕ → ℕ → Memory
store zero mem p v = mem
store (suc n) mem p v = set_byte (store n mem (p + 1) (v / 2 ^ 8)) p v

set_byte-same : (mem : Memory) (p v : ℕ) → set_byte mem p v p ≡ v % 2 ^ 8
unfolding set_byte
set_byte-same mem p v = ground arith

set_byte-other : (mem : Memory) (p v a : ℕ) → (a < p) ⊎ (p < a) → set_byte mem p v a ≡ mem a
unfolding set_byte
set_byte-other mem p v a (inl h) = ground arith
set_byte-other mem p v a (inr h) = ground arith

-- A byte outside of a store stays.
pub store-outside :
    (n : ℕ) (mem : Memory) (p v a : ℕ) → (a < p) ⊎ (p + n ≤ a) → store n mem p v a ≡ mem a
unfolding store
store-outside zero mem p v a h = refl
store-outside (suc n) mem p v a (inl h) =
    set_byte-other (store n mem (p + 1) (v / 2 ^ 8)) p v a (inl h)
    ∙ store-outside n mem (p + 1) (v / 2 ^ 8) a (inl (omega arith))
store-outside (suc n) mem p v a (inr h) =
    set_byte-other (store n mem (p + 1) (v / 2 ^ 8)) p v a (inr (omega arith))
    ∙ store-outside n mem (p + 1) (v / 2 ^ 8) a (inr (omega arith))

-- A load reads its own bytes only.
pub load-congr :
    (n : ℕ) (mem mem' : Memory) (p : ℕ)
    → ((a : ℕ) → p ≤ a → a < p + n → mem a ≡ mem' a)
    → load n mem p ≡ load n mem' p
unfolding load
load-congr zero mem mem' p same = refl
load-congr (suc n) mem mem' p same =
    rw
      (
        same p (omega arith) (omega arith),
        load-congr n mem mem' (p + 1) (λ a lo hi. same a (omega arith) (omega arith)),
      )
      refl

-- A load that a store does not touch.
pub load-store_apart :
    (n k : ℕ) (mem : Memory) (p q v : ℕ)
    → (p + n ≤ q) ⊎ (q + k ≤ p)
    → load n (store k mem q v) p ≡ load n mem p
load-store_apart n k mem p q v (inl h) =
    load-congr n (store k mem q v) mem p (λ a lo hi. store-outside k mem q v a (inl (omega arith)))
load-store_apart n k mem p q v (inr h) =
    load-congr n (store k mem q v) mem p (λ a lo hi. store-outside k mem q v a (inr (omega arith)))

mod_bytes : (v q : ℕ) → 1 ≤ q → v % (2 ^ 8 * q) ≡ v % 2 ^ 8 + 2 ^ 8 * (v / 2 ^ 8 % q)
mod_bytes v q pos =
    let r = v % 2 ^ 8 + 2 ^ 8 * (v / 2 ^ 8 % q) in
    let split : v ≡ 2 ^ 8 * q * (v / 2 ^ 8 / q) + r = omega (arith, div-add-mod (v / 2 ^ 8) q) in
    let small : r < 2 ^ 8 * q = omega (arith, mod-lt (v / 2 ^ 8) {m = q} pos) in
    ap (λ t. t % (2 ^ 8 * q)) split
    ∙ mul-add-mod_self_left (2 ^ 8 * q) (v / 2 ^ 8 / q) r
    ∙ mod-eq_of_lt small

-- One more than the greatest value of n bytes.
unfoldable pub bytes_end : ℕ → ℕ
bytes_end zero = 1
bytes_end (suc n) = 2 ^ 8 * bytes_end n

bytes_end-pos : (n : ℕ) → 1 ≤ bytes_end n
unfolding bytes_end
bytes_end-pos zero = omega arith
bytes_end-pos (suc n) = omega (arith, bytes_end-pos n)

-- A load gives back what was stored.
pub load-store : (n : ℕ) (mem : Memory) (p v : ℕ) → load n (store n mem p v) p ≡ v % bytes_end n
unfolding load store bytes_end
load-store zero mem p v = omega arith
load-store (suc n) mem p v =
    let rest = store n mem (p + 1) (v / 2 ^ 8) in
    let upper : load n (set_byte rest p v) (p + 1) ≡ v / 2 ^ 8 % bytes_end n =
      load-congr n (set_byte rest p v) rest (p + 1)
        (λ a lo hi. set_byte-other rest p v a (inr (omega arith)))
      ∙ load-store n mem (p + 1) (v / 2 ^ 8) in
    rw (set_byte-same rest p v, upper) (sym (mod_bytes v (bytes_end n) (bytes_end-pos n)))

pub load-lt-bytes_end : (n : ℕ) (mem : Memory) (p : ℕ) → HoldsBytes mem → load n mem p < bytes_end n
unfolding load bytes_end
load-lt-bytes_end zero mem p bytes = omega arith
load-lt-bytes_end (suc n) mem p bytes =
    omega (arith, bytes p, load-lt-bytes_end n mem (p + 1) bytes)
