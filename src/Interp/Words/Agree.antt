-- ===== src/Interp/Words/Agree.antt =====
-- The operators of BINARY_OP in JIT_Execute.c, and the operations on words.
use iron_net.Prelude.{
  ℕ, ◌+◌, ◌-◌, ◌/◌, ◌%◌, ◌^◌, ◌≤◌, ◌<◌, ◌≡◌, ◌==◌, ◌&&◌, ◌||◌, ltb, leb, not, true, false,
  if◌then◌else◌, refl, ap, sym, ◌∙◌, none, some, Bool, ◌⊎◌, Bool-cases, inl, inr, arith,
}
use mathlib.Core.Option.{some-injective, none-ne-some}
use native.Mathlib.Nat.{div-le_self, mod-le}
use iron_net.Interp.Machine.{Floats}
use iron_net.Interp.Ints.{
  pos, negsuc, i32, signed, word, div_signed, rem_signed, shr_signed, ltb_ℤ, with_sign, abs, neg,
}
use iron_net.Interp.Arith.{
  Binary, CompareOp, ArithOp, compare_macro, arith_macro, shift_below, ceq_i32i32, cgt_i32i32,
  cgt_un_i32i32, clt_i32i32, clt_un_i32i32, ceq_f32f32, cgt_f32f32, clt_f32f32, add_i32i32,
  sub_i32i32, mul_i32i32, div_i32i32, rem_i32i32, div_un_i32i32, rem_un_i32i32, and_i32i32,
  or_i32i32, xor_i32i32, shl_i32, shr_un_i32, shr_i32, add_f32f32, mul_f32f32, div_f32f32,
}
use iron_net.Interp.Words.{
  before_signed, word_test, word_arith, magnitude, signed_word, is_negative, same_sign,
  defined_division,
}

-- A macro on words whose operator gives v.
abbrev pub Gives : Binary → ℕ → ℕ → ℕ → Type 0
Gives b v1 v2 v =
    (b.result_size ≡ 4) × (b.left_size ≡ 4) × (b.right_size ≡ 4) × (b.operator v1 v2 ≡ some v)

less_signed :
    (v1 v2 : ℕ) → v1 < 2 ^ 32 → v2 < 2 ^ 32 → ltb_ℤ (i32 v1) (i32 v2) ≡ before_signed v1 v2
unfolding signed
less_signed v1 v2 h1 h2 = elim (Bool-cases (ltb v1 (2 ^ 31))) [
  | inl e1 ↦ elim (Bool-cases (ltb v2 (2 ^ 31))) [
    | inl e2 ↦ rw (e1, e2) (ground arith)
    | inr e2 ↦ rw (e1, e2) (ground arith)
  ]
  | inr e1 ↦ elim (Bool-cases (ltb v2 (2 ^ 31))) [
    | inl e2 ↦ rw (e1, e2) (ground arith)
    | inr e2 ↦ rw (e1, e2) (ground arith)
  ]
]

abbrev number : Bool → ℕ
number b = if b then 1 else 0

as_number : (b' b : Bool) → some b' ≡ some b → some (number b') ≡ some (number b)
as_number b' b e = ap (λ x. some (number x)) (some-injective _ _ e)

pub compare-Gives :
    (fl : Floats) (op : CompareOp) (b : Bool) (v1 v2 : ℕ)
    → v1 < 2 ^ 32
    → v2 < 2 ^ 32
    → word_test fl op v1 v2 ≡ some b
    → Gives (compare_macro fl op) v1 v2 (if b then 1 else 0)
unfolding compare_macro
compare-Gives fl ceq_i32i32 b v1 v2 h1 h2 e = (refl, refl, refl, as_number (v1 == v2) b e)
compare-Gives fl cgt_i32i32 b v1 v2 h1 h2 e = (
  refl,
  refl,
  refl,
  as_number (ltb_ℤ (i32 v2) (i32 v1)) b (ap some (less_signed v2 v1 h2 h1) ∙ e),
)
compare-Gives fl cgt_un_i32i32 b v1 v2 h1 h2 e = (refl, refl, refl, as_number (ltb v2 v1) b e)
compare-Gives fl clt_i32i32 b v1 v2 h1 h2 e = (
  refl,
  refl,
  refl,
  as_number (ltb_ℤ (i32 v1) (i32 v2)) b (ap some (less_signed v1 v2 h1 h2) ∙ e),
)
compare-Gives fl clt_un_i32i32 b v1 v2 h1 h2 e = (refl, refl, refl, as_number (ltb v1 v2) b e)
compare-Gives fl ceq_f32f32 b v1 v2 h1 h2 e = (refl, refl, refl, as_number (fl.f32.eq v1 v2) b e)
compare-Gives fl cgt_f32f32 b v1 v2 h1 h2 e = (refl, refl, refl, as_number (fl.f32.lt v2 v1) b e)
compare-Gives fl clt_f32f32 b v1 v2 h1 h2 e = (refl, refl, refl, as_number (fl.f32.lt v1 v2) b e)
compare-Gives fl _ b v1 v2 h1 h2 e = absurd (none-ne-some _ e)

-- A word read as an I32: its sign, its magnitude, and the integer.
signed_cases :
    (v : ℕ)
    → v < 2 ^ 32
    → ((i32 v ≡ pos (magnitude v)) × (is_negative v ≡ false) × Unit {0})
      ⊎ ((i32 v ≡ negsuc (magnitude v - 1))
          × (is_negative v ≡ true)
          × (magnitude v - 1 + 1 ≡ magnitude v))
unfolding signed
signed_cases v h = elim (Bool-cases (ltb v (2 ^ 31))) [
  | inl e ↦ inl (rw (signed, e) refl, ground arith, tt)
  | inr e ↦
      let m : 2 ^ 32 - 1 - v ≡ 2 ^ 32 - v - 1 = omega arith in
      inr (rw (signed, e) (ap negsuc m), ground arith, ground arith)
]

positive_word : (n : ℕ) → n ≤ 2 ^ 31 → word (2 ^ 31) (pos n) ≡ n
unfolding word
positive_word n h = ground arith

negative_word : (n : ℕ) → n ≤ 2 ^ 31 → word (2 ^ 31) (neg (pos n)) ≡ (2 ^ 32 - n) % 2 ^ 32
unfolding word
negative_word n h = elim (Bool-cases (ltb 0 n)) [
  | inl e ↦ rw e (ground arith)
  | inr e ↦ rw e (ground arith)
]

module _ (v1 v2 : ℕ) (h1 : v1 < 2 ^ 32) (h2 : v2 < 2 ^ 32) where
  difference-word :
      some (if leb v2 v1 then v1 - v2 else 2 ^ 32 - (v2 - v1)) ≡ some ((v1 + 2 ^ 32 - v2) % 2 ^ 32)
  difference-word = ap some (ground arith)

  quotient_small : magnitude v1 / magnitude v2 ≤ 2 ^ 31
  quotient_small = ground (arith, div-le_self (magnitude v1) (magnitude v2))

  remainder_small : magnitude v1 % magnitude v2 ≤ 2 ^ 31
  remainder_small = ground (arith, mod-le (magnitude v1) (magnitude v2))

  undefined-not :
      (u : Bool)
      → ((v2 == 0) || ((v1 == 2 ^ 31) && (v2 == 2 ^ 32 - 1))) ≡ u
      → defined_division v1 v2 ≡ not u
  undefined-not u e = ground arith

  quotient : div_signed (2 ^ 31) v1 v2 ≡ (
      if defined_division v1 v2
      then some (
          if same_sign v1 v2
          then magnitude v1 / magnitude v2
          else (2 ^ 32 - magnitude v1 / magnitude v2) % 2 ^ 32)
      else none)
  unfolding div_signed
  quotient = elim (Bool-cases ((v2 == 0) || ((v1 == 2 ^ 31) && (v2 == 2 ^ 32 - 1)))) [
    | inl e ↦ rw (div_signed, e, undefined-not true e) refl
    | inr e ↦ rw (div_signed, e, undefined-not false e) (ap some value)
  ]
    where
      value : word (2 ^ 31) (with_sign (i32 v1) (i32 v2) (abs (i32 v1) / abs (i32 v2))) ≡ (
          if same_sign v1 v2
          then magnitude v1 / magnitude v2
          else (2 ^ 32 - magnitude v1 / magnitude v2) % 2 ^ 32)
      value = elim (signed_cases v1 h1) [
        | inl (e1, n1, m1) ↦ elim (signed_cases v2 h2) [
          | inl (e2, n2, m2) ↦
              rw (e1, e2, n1, n2) (positive_word (magnitude v1 / magnitude v2) quotient_small)
          | inr (e2, n2, m2) ↦
              rw (e1, e2, m2, n1, n2) (negative_word (magnitude v1 / magnitude v2) quotient_small)
        ]
        | inr (e1, n1, m1) ↦ elim (signed_cases v2 h2) [
          | inl (e2, n2, m2) ↦
              rw (e1, e2, m1, n1, n2) (negative_word (magnitude v1 / magnitude v2) quotient_small)
          | inr (e2, n2, m2) ↦
              rw (e1, e2, m1, m2, n1, n2)
                (positive_word (magnitude v1 / magnitude v2) quotient_small)
        ]
      ]

  remainder : rem_signed (2 ^ 31) v1 v2 ≡ (
      if defined_division v1 v2
      then some (signed_word (is_negative v1) (magnitude v1 % magnitude v2))
      else none)
  unfolding rem_signed
  remainder = elim (Bool-cases ((v2 == 0) || ((v1 == 2 ^ 31) && (v2 == 2 ^ 32 - 1)))) [
    | inl e ↦ rw (rem_signed, e, undefined-not true e) refl
    | inr e ↦ rw (rem_signed, e, undefined-not false e) (ap some value)
  ]
    where
      rest : abs (i32 v1) % abs (i32 v2) ≡ magnitude v1 % magnitude v2
      rest = elim (signed_cases v1 h1) [
        | inl (e1, n1, m1) ↦ elim (signed_cases v2 h2) [
          | inl (e2, n2, m2) ↦ rw (e1, e2) refl
          | inr (e2, n2, m2) ↦ rw (e1, e2, m2) refl
        ]
        | inr (e1, n1, m1) ↦ elim (signed_cases v2 h2) [
          | inl (e2, n2, m2) ↦ rw (e1, e2, m1) refl
          | inr (e2, n2, m2) ↦ rw (e1, e2, m1, m2) refl
        ]
      ]

      value :
          word (2 ^ 31) (with_sign (i32 v1) (pos 0) (abs (i32 v1) % abs (i32 v2)))
          ≡ signed_word (is_negative v1) (magnitude v1 % magnitude v2)
      value = elim (signed_cases v1 h1) [
        | inl (e1, n1, m1) ↦
            rw (rest, e1, n1) (positive_word (magnitude v1 % magnitude v2) remainder_small)
        | inr (e1, n1, m1) ↦
            rw (rest, e1, n1) (negative_word (magnitude v1 % magnitude v2) remainder_small)
      ]

  shifted :
      (if ltb v2 32
        then some (if is_negative v1 then 2 ^ 32 - 1 - (2 ^ 32 - 1 - v1) / 2 ^ v2 else v1 / 2 ^ v2)
        else none)
      ≡ shift_below 32 (shr_signed (2 ^ 31)) v1 v2
  unfolding shr_signed
  shifted = elim (Bool-cases (ltb v1 (2 ^ 31))) [
    | inl e ↦ let other : is_negative v1 ≡ false = ground arith in rw (shr_signed, e, other) refl
    | inr e ↦ let other : is_negative v1 ≡ true = ground arith in rw (shr_signed, e, other) refl
  ]

  pub arith-Gives :
      (fl : Floats) (op : ArithOp) (v : ℕ)
      → word_arith fl op v1 v2 ≡ some v
      → Gives (arith_macro fl op) v1 v2 v
  unfolding arith_macro
  arith-Gives fl sub_i32i32 v e = (refl, refl, refl, sym difference-word ∙ e)
  arith-Gives fl div_i32i32 v e = (refl, refl, refl, quotient ∙ e)
  arith-Gives fl rem_i32i32 v e = (refl, refl, refl, remainder ∙ e)
  arith-Gives fl shr_i32 v e = (refl, refl, refl, sym shifted ∙ e)
  arith-Gives fl add_i32i32 v e = (refl, refl, refl, e)
  arith-Gives fl mul_i32i32 v e = (refl, refl, refl, e)
  arith-Gives fl div_un_i32i32 v e = (refl, refl, refl, e)
  arith-Gives fl rem_un_i32i32 v e = (refl, refl, refl, e)
  arith-Gives fl and_i32i32 v e = (refl, refl, refl, e)
  arith-Gives fl or_i32i32 v e = (refl, refl, refl, e)
  arith-Gives fl xor_i32i32 v e = (refl, refl, refl, e)
  arith-Gives fl shl_i32 v e = (refl, refl, refl, e)
  arith-Gives fl shr_un_i32 v e = (refl, refl, refl, e)
  arith-Gives fl add_f32f32 v e = (refl, refl, refl, e)
  arith-Gives fl mul_f32f32 v e = (refl, refl, refl, e)
  arith-Gives fl div_f32f32 v e = (refl, refl, refl, e)
  arith-Gives fl _ v e = absurd (none-ne-some _ e)
