-- ===== src/Interp/Relation.antt =====
-- The relations between the machine before and after an op-code that hold of every op-code as soon as
-- they hold of the four things that op-codes do: change the memory, take an operand, and move the
-- checked stack pointer.
use iron_net.Prelude.{
  ℕ, ◌+◌, ◌≡◌, Bool, true, false, ◌||◌, ltb, if◌then◌else◌, Memory, u32, sub_u32, Option, none,
  some, get_elem?, Option-cases, Bool-cases, inl, inr,
}
use iron_net.Interp.Machine.{
  Context, Machine, Exception, Outcome, done, thrown, aborted, undefined, Exec, ◌>>=◌, and_then,
  give, throw, no_meaning, get_op, push, pop, get_sp, read, change, push_word, pop_word,
  check_stack, get_types, get_floats, given,
}

-- What holds of the machine that an outcome has.
abbrev pub Ends : {A : Type 0} → (Machine → Type 0) → Outcome A → Type 0
Ends P (done a m) = P m
Ends P (thrown e m) = P m
Ends P aborted = Unit
Ends P undefined = Unit

-- The stack pointer p passes the check of PUSH and POP.
abbrev pub Checked : Context → ℕ → Type 0
Checked c p = (ltb p c.eval_stack || ltb c.params_locals p) ≡ false

pub record IsStackRelation (R : Context → Machine → Machine → Type 0) : Type 0 where
  pub same : (c : Context) (m : Machine) → R c m m
  pub chain : (c : Context) (m m' m'' : Machine) → R c m m' → R c m' m'' → R c m m''
  pub memory :
      (c : Context) (m : Machine) (mem : Memory)
      → R c m (record { mem = mem; sp = m.sp; pc = m.pc })
  pub operand :
      (c : Context) (m : Machine) → R c m (record { mem = m.mem; sp = m.sp; pc = m.pc + 1 })
  pub moved :
      (c : Context) (m : Machine) (p : ℕ)
      → Checked c p
      → R c m (record { mem = m.mem; sp = p; pc = m.pc })

pub record Keeps {A : Type 0} (R : Context → Machine → Machine → Type 0) (e : Exec A) : Type 0 where
  pub at : (c : Context) (m : Machine) → Ends (R c m) (e c m)

module _ {R : Context → Machine → Machine → Type 0} (r : IsStackRelation R) where
  Ends-check :
      (c : Context) (m : Machine) (p : ℕ)
      → Ends (R c m) (check_stack c (record { mem = m.mem; sp = p; pc = m.pc }))
  unfolding check_stack
  Ends-check c m p = elim (Bool-cases (ltb p c.eval_stack || ltb c.params_locals p)) [
    | inl e ↦ rw (Ends, e) tt
    | inr e ↦ rw (Ends, e) (r.moved c m p e)
  ]

  pub Keeps-push : (n : ℕ) → Keeps R (push n)
  unfolding push
  Keeps-push n = record { at = λ c m. Ends-check c m (u32 (m.sp + n)) }

  pub Keeps-pop : (n : ℕ) → Keeps R (pop n)
  unfolding pop
  Keeps-pop n = record { at = λ c m. Ends-check c m (sub_u32 m.sp n) }

  pub Keeps-change : (f : Memory → Memory) → Keeps R (change f)
  unfolding change
  Keeps-change f = record { at = λ c m. r.memory c m (f m.mem) }

  pub Keeps-get_op : Keeps R get_op
  unfolding get_op
  Keeps-get_op = record {
    at = λ c m. elim (Option-cases (get_elem? c.ops m.pc)) [
      | inl e ↦ rw (Ends, e) tt
      | inr (w, e) ↦ rw (Ends, e) (r.operand c m)
    ];
  }

  pub Keeps-get_sp : Keeps R get_sp
  unfolding get_sp
  Keeps-get_sp = record { at = λ c m. r.same c m }

  pub Keeps-read : (n p : ℕ) → Keeps R (read n p)
  unfolding read
  Keeps-read n p = record { at = λ c m. r.same c m }

  pub Keeps-get_types : Keeps R get_types
  unfolding get_types
  Keeps-get_types = record { at = λ c m. r.same c m }

  pub Keeps-get_floats : Keeps R get_floats
  unfolding get_floats
  Keeps-get_floats = record { at = λ c m. r.same c m }

  module _ {A : Type 0} where
    pub Keeps-give : (a : A) → Keeps R (give a)
    unfolding give
    Keeps-give a = record { at = λ c m. r.same c m }

    pub Keeps-throw : (x : Exception) → Keeps R (throw {A = A} x)
    unfolding throw
    Keeps-throw x = record { at = λ c m. r.same c m }

    pub Keeps-no_meaning : Keeps R (no_meaning {A = A})
    unfolding no_meaning
    Keeps-no_meaning = record { at = λ c m. tt }

    pub Keeps-if : (b : Bool) (e f : Exec A) → Keeps R e → Keeps R f → Keeps R (if b then e else f)
    Keeps-if true e f he hf = he
    Keeps-if false e f he hf = hf

  pub Keeps-given : (o : Option ℕ) → Keeps R (given o)
  unfolding given
  Keeps-given none = Keeps-no_meaning
  Keeps-given (some v) = Keeps-give v

  after :
      {B : Type 0} (c : Context) (m m' : Machine)
      → R c m m'
      → (o : Outcome B) → Ends (R c m') o
      → Ends (R c m) o
  after c m m' first (done b m'') second = r.chain c m m' m'' first second
  after c m m' first (thrown x m'') second = r.chain c m m' m'' first second
  after c m m' first aborted second = tt
  after c m m' first undefined second = tt

  module _ {A B : Type 0} where
    Ends-and_then :
        (c : Context) (m : Machine) (o : Outcome A) (f : A → Exec B)
        → ((a : A) → Keeps R (f a))
        → Ends (R c m) o
        → Ends (R c m) (and_then o (λ a. f a c))
    Ends-and_then c m (done a m') f hf first = after c m m' first (f a c m') ((hf a).at c m')
    Ends-and_then c m (thrown x m') f hf first = first
    Ends-and_then c m aborted f hf first = tt
    Ends-and_then c m undefined f hf first = tt

    pub Keeps-bind :
        (e : Exec A) (f : A → Exec B) → Keeps R e → ((a : A) → Keeps R (f a)) → Keeps R (e >>= f)
    unfolding ◌>>=◌
    Keeps-bind e f he hf = record { at = λ c m. Ends-and_then c m (e c m) f hf (he.at c m) }

pub ruleset basic_rules = (
  Keeps-bind, Keeps-if, Keeps-give, Keeps-throw, Keeps-no_meaning, Keeps-given, Keeps-get_op,
  Keeps-push, Keeps-pop, Keeps-change, Keeps-get_sp, Keeps-read, Keeps-get_types, Keeps-get_floats,
)

module _ {R : Context → Machine → Machine → Type 0} (r : IsStackRelation R) where
  pub Keeps-push_word : (n v : ℕ) → Keeps R (push_word n v)
  unfolding push_word
  Keeps-push_word n v = search basic_rules

  pub Keeps-pop_word : (n : ℕ) → Keeps R (pop_word n)
  unfolding pop_word
  Keeps-pop_word n = search basic_rules

pub ruleset keeps_rules = (basic_rules, Keeps-push_word, Keeps-pop_word)
