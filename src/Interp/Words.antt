-- ===== src/Interp/Words.antt =====
-- The evaluation stack as a list of words, the top first: the op-codes on words of 4 bytes compute on
-- that list.
pub mod Agree
pub mod Steps
use iron_net.Prelude.{
  ℕ, suc, ◌+◌, ◌-◌, ◌*◌, ◌/◌, ◌%◌, ◌^◌, bit_and, bit_or, bit_xor, ltb, leb, not, ◌≤◌, ◌<◌, ◌≡◌,
  ◌==◌, ◌&&◌, true, false, if◌then◌else◌, refl, ap, sym, ◌∙◌, u32, sub_u32, List, [], ◌∷◌, length,
  Option, none, some, Memory, inl, Bool, arith,
}
use mathlib.Core.Path.{subst}
use mathlib.Core.Option.{some-injective, none-ne-some}
use iron_net.Interp.Bytes.{load, store, load-store, load-store_apart, bytes_end}
use iron_net.Interp.StackLaws.{IsPlaced, with_sp, pop-fits, push_word-fits}
use iron_net.Interp.Machine.{
  Context, Machine, Floats, Outcome, done, ◌>>=◌, push_word, get_sp, read, change, given, give,
  get_floats,
}
use iron_net.Interp.StackOps.{
  StackOp, nop, load_null, dup_4, pop_4, load_i4_m1, load_i4_0, load_i4_1, load_i4_2, exec_stack,
}
use iron_net.Interp.Arith.{
  CompareOp, ArithOp, ceq_i32i32, cgt_i32i32, cgt_un_i32i32, clt_i32i32, clt_un_i32i32, ceq_f32f32,
  cgt_f32f32, clt_f32f32, add_i32i32, sub_i32i32, mul_i32i32, div_i32i32, rem_i32i32, div_un_i32i32,
  rem_un_i32i32, and_i32i32, or_i32i32, xor_i32i32, shl_i32, shr_un_i32, shr_i32, add_f32f32,
  mul_f32f32, div_f32f32, neg_i32, not_i32,
}
use iron_net.Interp.Step.{Op, stack_op, compare_op, arith_op, unary_op, exec_op}

-- A word read as an I32 comes before another one if it does so with the sign bit turned over.
abbrev pub before_signed : ℕ → ℕ → Bool
before_signed v1 v2 = ltb ((v1 + 2 ^ 31) % 2 ^ 32) ((v2 + 2 ^ 31) % 2 ^ 32)

-- The tests on two words, of which the second is the upper one.
abbrev pub word_test : Floats → CompareOp → ℕ → ℕ → Option Bool
word_test fl ceq_i32i32 v1 v2 = some (v1 == v2)
word_test fl cgt_i32i32 v1 v2 = some (before_signed v2 v1)
word_test fl cgt_un_i32i32 v1 v2 = some (ltb v2 v1)
word_test fl clt_i32i32 v1 v2 = some (before_signed v1 v2)
word_test fl clt_un_i32i32 v1 v2 = some (ltb v1 v2)
word_test fl ceq_f32f32 v1 v2 = some (fl.f32.eq v1 v2)
word_test fl cgt_f32f32 v1 v2 = some (fl.f32.lt v2 v1)
word_test fl clt_f32f32 v1 v2 = some (fl.f32.lt v1 v2)
word_test fl _ v1 v2 = none

-- The magnitude of a word read as an I32, and the word of a magnitude with a sign.
abbrev pub magnitude : ℕ → ℕ
magnitude v = if ltb v (2 ^ 31) then v else 2 ^ 32 - v

abbrev pub signed_word : Bool → ℕ → ℕ
signed_word negative n = if negative then (2 ^ 32 - n) % 2 ^ 32 else n

-- Division of I32 rounds to 0, and the remainder has the sign of the dividend; -2 ^ 31 by -1 is undefined.
abbrev pub defined_division : ℕ → ℕ → Bool
defined_division v1 v2 = not (v2 == 0) && not ((v1 == 2 ^ 31) && (v2 == 2 ^ 32 - 1))

abbrev pub is_negative : ℕ → Bool
is_negative v = leb (2 ^ 31) v

abbrev pub same_sign : ℕ → ℕ → Bool
same_sign v1 v2 = if is_negative v1 then is_negative v2 else not (is_negative v2)

-- The operations on two words, of which the second is the upper one.
abbrev pub word_arith : Floats → ArithOp → ℕ → ℕ → Option ℕ
word_arith fl add_i32i32 v1 v2 = some ((v1 + v2) % 2 ^ 32)
word_arith fl sub_i32i32 v1 v2 = some (if leb v2 v1 then v1 - v2 else 2 ^ 32 - (v2 - v1))
word_arith fl mul_i32i32 v1 v2 = some (v1 * v2 % 2 ^ 32)
word_arith fl div_i32i32 v1 v2 =
    if defined_division v1 v2
    then some (
        if same_sign v1 v2
        then magnitude v1 / magnitude v2
        else (2 ^ 32 - magnitude v1 / magnitude v2) % 2 ^ 32)
    else none
word_arith fl rem_i32i32 v1 v2 =
    if defined_division v1 v2
    then some (signed_word (is_negative v1) (magnitude v1 % magnitude v2))
    else none
word_arith fl div_un_i32i32 v1 v2 = if v2 == 0 then none else some (v1 / v2)
word_arith fl rem_un_i32i32 v1 v2 = if v2 == 0 then none else some (v1 % v2)
word_arith fl and_i32i32 v1 v2 = some (bit_and v1 v2)
word_arith fl or_i32i32 v1 v2 = some (bit_or v1 v2)
word_arith fl xor_i32i32 v1 v2 = some (bit_xor v1 v2)
word_arith fl shl_i32 v s = if ltb s 32 then some (v * 2 ^ s % 2 ^ 32) else none
word_arith fl shr_un_i32 v s = if ltb s 32 then some (v / 2 ^ s) else none
word_arith fl shr_i32 v s =
    if ltb s 32
    then some (if is_negative v then 2 ^ 32 - 1 - (2 ^ 32 - 1 - v) / 2 ^ s else v / 2 ^ s)
    else none
word_arith fl add_f32f32 v1 v2 = some (fl.f32.add v1 v2)
word_arith fl mul_f32f32 v1 v2 = some (fl.f32.mul v1 v2)
word_arith fl div_f32f32 v1 v2 = some (fl.f32.div v1 v2)
word_arith fl _ v1 v2 = none

-- What the op-codes do on a stack of words: the constants 0, -1, 1 and 2, DUP_4 and POP_4, the tests,
-- arithmetic, logic and shifts on two operands of 4 bytes, and NEG_I32 and NOT_I32. A float result is cut off
-- to its 4 bytes.
abbrev pub step_words : Floats → Op → List ℕ → Option (List ℕ)
step_words fl (stack_op nop) ws = some ws
step_words fl (stack_op load_null) ws = some (0 ∷ ws)
step_words fl (stack_op dup_4) (w ∷ ws) = some (w ∷ (w ∷ ws))
step_words fl (stack_op pop_4) (w ∷ ws) = some ws
step_words fl (stack_op load_i4_m1) ws = some ((2 ^ 32 - 1) ∷ ws)
step_words fl (stack_op load_i4_0) ws = some (0 ∷ ws)
step_words fl (stack_op load_i4_1) ws = some (1 ∷ ws)
step_words fl (stack_op load_i4_2) ws = some (2 ∷ ws)
step_words fl (compare_op op) (v2 ∷ (v1 ∷ ws)) = elim (word_test fl op v1 v2) [
  | none ↦ none
  | some b ↦ some ((if b then 1 else 0) ∷ ws)
]
step_words fl (arith_op op) (v2 ∷ (v1 ∷ ws)) = elim (word_arith fl op v1 v2) [
  | none ↦ none
  | some v ↦ some (u32 v ∷ ws)
]
step_words fl (unary_op neg_i32) (w ∷ ws) = some ((if w == 0 then 0 else 2 ^ 32 - w) ∷ ws)
step_words fl (unary_op not_i32) (w ∷ ws) = some ((2 ^ 32 - 1 - w) ∷ ws)
step_words fl op ws = none

-- The words stand from the address on, the last one of the list first, and are of 4 bytes.
abbrev pub Holds : Memory → ℕ → List ℕ → Type 0
Holds mem base [] = Unit
Holds mem base (w ∷ ws) = (load 4 mem (base + 4 * length ws) ≡ w) × (w < 2 ^ 32) × Holds mem base ws

abbrev pub Represents : Context → Machine → List ℕ → Type 0
Represents c m ws = (m.sp ≡ c.eval_stack + 4 * length ws) × Holds m.mem c.eval_stack ws

pub Holds-store :
    (mem : Memory) (base p v : ℕ) (ws : List ℕ)
    → base + 4 * length ws ≤ p
    → Holds mem base ws
    → Holds (store 4 mem p v) base ws
Holds-store mem base p v [] h held = tt
Holds-store mem base p v (w ∷ ws) h (top, small, held) = (
  load-store_apart 4 4 mem (base + 4 * length ws) p v (inl (omega arith)) ∙ top,
  small,
  Holds-store mem base p v ws (omega arith) held,
)

pub stored_word : (mem : Memory) (p v : ℕ) → load 4 (store 4 mem p v) p ≡ u32 v
unfolding bytes_end
stored_word mem p v = load-store 4 mem p v

-- The machine after one op-code, with the words that it has then.
abbrev pub Reaches : Context → Machine → List ℕ → Outcome (Unit {0}) → Type 0
Reaches c m ws o = (m' : Machine) × (o ≡ done tt m') × Represents c m' ws × (m'.pc ≡ m.pc)
