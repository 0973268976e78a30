-- ===== src/Interp/Termination.antt =====
-- The interpreter leaves its loop: between two op-codes that count numInst down it only goes forward.
use iron_net.Prelude.{
  ℕ, zero, suc, ◌+◌, ◌-◌, ◌*◌, ◌^◌, ◌≤◌, ◌<◌, ◌≡◌, Bool, true, false, List, [], ◌∷◌, Option, none,
  some, ◌==◌, if◌then◌else◌, sub_u32, u32, get_elem?, length, arith, Bool-cases, Option-cases, inl,
  inr, refl,
}
use mathlib.Core.Path.{sym, subst}
use iron_net.Interp.Machine.{Context, Machine, Outcome, done, thrown, aborted, undefined, get_op}
use iron_net.Interp.Relation.{IsStackRelation, Ends}
use iron_net.Interp.Step.{Op, exec_op, checks_num_inst}
use iron_net.Interp.Codes.{decode}
use iron_net.Interp.Run.{Result, out_of_fuel, run, go_next, select, dispatch}
use iron_net.Interp.Keeps.{exec_op-Keeps}

-- How often --numInst is taken before it is 0.
abbrev pub num_checks : ℕ → ℕ
num_checks n = if n == 0 then 2 ^ 32 else n

abbrev pub is_out_of_fuel : Result → Bool
is_out_of_fuel (out_of_fuel m) = true
is_out_of_fuel _ = false

abbrev Forward : Context → Machine → Machine → Type 0
Forward c m m' = m.pc ≤ m'.pc

Forward-IsStackRelation : IsStackRelation Forward
Forward-IsStackRelation = record {
  same = λ c m. omega arith;
  chain = λ c m m' m'' f g. omega arith;
  memory = λ c m mem. omega arith;
  operand = λ c m. omega arith;
  moved = λ c m p checked. omega arith;
}

get_elem?-lt-length : (xs : List ℕ) (i w : ℕ) → get_elem? xs i ≡ some w → i < length xs
get_elem?-lt-length [] i w h = absurd (ground arith)
get_elem?-lt-length (x ∷ xs) zero w h = omega arith
get_elem?-lt-length (x ∷ xs) (suc i) w h = omega (arith, get_elem?-lt-length xs i w h)

-- The turns that are left with k + 1 checks to come and the next op-code at p.
abbrev turns_left : Context → ℕ → ℕ → ℕ
turns_left c k p = k * (length c.ops + 1) + (length c.ops - p) + 1

-- A checked turn with another one to come.
counted_down :
    (n k : ℕ) → n < 2 ^ 32 → num_checks n ≡ suc (suc k) → num_checks (sub_u32 n 1) ≡ suc k
counted_down n k word count = ground arith

last_check : (n : ℕ) → num_checks n ≡ 1 → (sub_u32 n 1 == 0) ≡ true
last_check n count = ground arith

module _ (c : Context) (rest : ℕ → Machine → Result) (fuel : ℕ)
    (later : (n k : ℕ) (m : Machine)
      → n < 2 ^ 32
      → num_checks n ≡ suc k
      → turns_left c k m.pc ≤ fuel
      → is_out_of_fuel (rest n m) ≡ false) where
  go_next-checked :
      (n k : ℕ) (m : Machine)
      → n < 2 ^ 32
      → num_checks n ≡ suc k
      → k * (length c.ops + 1) ≤ fuel
      → is_out_of_fuel (go_next rest true n (done tt m)) ≡ false
  unfolding go_next
  go_next-checked n zero m word count enough = rw (last_check n count) refl
  go_next-checked n (suc k) m word count enough = elim (Bool-cases (sub_u32 n 1 == 0)) [
    | inl e ↦ rw (is_out_of_fuel, e) refl
    | inr e ↦
        rw (is_out_of_fuel, e)
          (later (sub_u32 n 1) k m (omega arith) (counted_down n k word count) (omega arith))
  ]

  module _ (n k : ℕ) (word : n < 2 ^ 32) (count : num_checks n ≡ suc k) where
    go_next-returns :
        (checks : Bool) (p : ℕ) (o : Outcome (Unit {0}))
        → p < length c.ops
        → turns_left c k p ≤ suc fuel
        → (checks ≡ false → Ends (λ m. suc p ≤ m.pc) o)
        → is_out_of_fuel (go_next rest checks n o) ≡ false
    unfolding go_next
    go_next-returns true p (done tt m) inside enough forward =
        go_next-checked n k m word count (omega arith)
    go_next-returns false p (done x m) inside enough forward =
        later n k m word count (omega (arith, forward refl))
    go_next-returns checks p (thrown e m) inside enough forward = refl
    go_next-returns checks p aborted inside enough forward = refl
    go_next-returns checks p undefined inside enough forward = refl

    select-returns :
        (w p : ℕ) (m : Machine) (o : Option Op)
        → m.pc ≡ suc p
        → p < length c.ops
        → turns_left c k p ≤ suc fuel
        → is_out_of_fuel (select rest c n w m o) ≡ false
    unfolding select
    select-returns w p m none at_p inside enough = refl
    select-returns w p m (some op) at_p inside enough =
        go_next-returns (checks_num_inst op) p (exec_op op c m) inside enough (λ plain.
          behind (exec_op op c m) ((exec_op-Keeps Forward-IsStackRelation op plain).at c m))
      where
        behind : (o : Outcome (Unit {0})) → Ends (Forward c m) o → Ends (λ m'. suc p ≤ m'.pc) o
        behind (done x m') f = omega arith
        behind (thrown e m') f = omega arith
        behind aborted f = tt
        behind undefined f = tt

    dispatch-returns :
        (m : Machine)
        → turns_left c k m.pc ≤ suc fuel
        → is_out_of_fuel (dispatch rest c n (get_op c m)) ≡ false
    unfolding dispatch get_op
    dispatch-returns m enough = elim (Option-cases (get_elem? c.ops m.pc)) [
      | inl e ↦ rw (dispatch, e) refl
      | inr (w, e) ↦
          rw (dispatch, e)
            (select-returns (u32 w) m.pc (record { mem = m.mem; sp = m.sp; pc = m.pc + 1 })
              (decode (u32 w)) (omega arith) (get_elem?-lt-length c.ops m.pc w e) enough)
    ]

run-in_turns :
    (fuel : ℕ) (c : Context) (n k : ℕ) (m : Machine)
    → n < 2 ^ 32
    → num_checks n ≡ suc k
    → turns_left c k m.pc ≤ fuel
    → is_out_of_fuel (run fuel c n m) ≡ false
unfolding run
run-in_turns zero c n k m word count enough = absurd (omega arith)
run-in_turns (suc fuel) c n k m word count enough =
    dispatch-returns c (run fuel c) fuel (λ n' k' m'. run-in_turns fuel c n' k' m') n k word count m
      enough

count-at : (k : ℕ) → num_checks (suc k) ≡ suc k
count-at k = ground arith

-- The loop of JIT_Execute over the modelled op-codes is left on all code, on fuel for numInst, or 2 ^ 32 where
-- that is 0, times one more than the number of words of the code: with numInst used up, at an exception, in
-- an abort(), at an operation without meaning, or at the first op-code that is not modelled.
pub run-returns :
    (fuel : ℕ) (c : Context) (num_inst : ℕ) (m : Machine)
    → num_inst < 2 ^ 32
    → num_checks num_inst * (length c.ops + 1) ≤ fuel
    → is_out_of_fuel (run fuel c num_inst m) ≡ false
run-returns fuel c zero m word enough =
    run-in_turns fuel c zero (2 ^ 32 - 1) m word refl (omega arith)
run-returns fuel c (suc k) m word enough = run-in_turns fuel c (suc k) k m word (count-at k) (
    subst (λ t. t * (length c.ops + 1) ≤ fuel → turns_left c k m.pc ≤ fuel) (sym (count-at k))
      (λ h. omega arith) enough)
