-- ===== src/Jit/Grows.antt =====
-- The relation between the state of JITit before and after a step: the code, the branch offsets, the place in the
-- CIL, and maxBytes with the type stacks.
use iron_net.Prelude.{
  ℕ, suc, ◌≤◌, ◌≡◌, refl, ◌∙◌, Bool, true, false, if◌then◌else◌, Option, none, some, List, [], ◌∷◌,
  ◌++◌, length, arith,
}
use mathlib.Core.Path.{subst}
use iron_net.Jit.Types.{JitType}
use iron_net.Jit.{
  Method, Jit, Step, ◌>>=◌, ◌>>◌, give, crash, given, other_op, Outcome, made, crashed,
  not_modelled, stack_bytes,
}

-- The numbers rise from lo on and stay below hi.
abbrev pub Within : ℕ → List ℕ → ℕ → Type 0
Within lo [] hi = lo ≤ hi
Within lo (b ∷ bs) hi = (lo ≤ b) × Within (suc b) bs hi

pub Within-wider :
    (lo : ℕ) (bs : List ℕ) (hi hi' : ℕ) → hi ≤ hi' → Within lo bs hi → Within lo bs hi'
Within-wider lo [] hi hi' le h = omega arith
Within-wider lo (b ∷ bs) hi hi' le h = (h.0, Within-wider (suc b) bs hi hi' le h.1)

pub Within-snoc :
    (lo : ℕ) (bs : List ℕ) (hi : ℕ) → Within lo bs hi → Within lo (bs ++ (hi ∷ [])) (suc hi)
Within-snoc lo [] hi h = (h, omega arith)
Within-snoc lo (b ∷ bs) hi h = (h.0, Within-snoc (suc b) bs hi h.1)

-- The branch offsets stand in order at places of the code.
pub record IsLaidOut (j : Jit) : Type 0 where
  pub laid : Within 0 j.branch_offsets (length j.ops)

-- maxBytes covers the type stack and those that are kept for forward jumps.
pub record IsCovered (j : Jit) : Type 0 where
  pub now : stack_bytes j.type_stack ≤ j.max_bytes
  pub later : (k : ℕ) (ts : List JitType) → j.type_stacks k ≡ some ts → stack_bytes ts ≤ j.max_bytes

pub record Grows (j j' : Jit) : Type 0 where
  pub code : length j.ops ≤ length j'.ops
  pub reads : j.cil_ofs ≤ j'.cil_ofs
  pub bytes : j.max_bytes ≤ j'.max_bytes
  pub offsets : j'.jit_offsets ≡ j.jit_offsets
  pub laid_out : IsLaidOut j → IsLaidOut j'
  pub covered : IsCovered j → IsCovered j'

pub Grows-refl : (j : Jit) → Grows j j
Grows-refl j = record {
  code = omega arith;
  reads = omega arith;
  bytes = omega arith;
  offsets = refl;
  laid_out = λ h. h;
  covered = λ h. h;
}

pub Grows-trans : (i j k : Jit) → Grows i j → Grows j k → Grows i k
Grows-trans i j k g h = record {
  code = omega (arith, (g.code), (h.code));
  reads = omega (arith, (g.reads), (h.reads));
  bytes = omega (arith, (g.bytes), (h.bytes));
  offsets = h.offsets ∙ g.offsets;
  laid_out = λ x. h.laid_out (g.laid_out x);
  covered = λ x. h.covered (g.covered x);
}

-- A step that only grows the state.
pub record Keeps {A : Type 0} (m : Step A) : Type 0 where
  pub at : (c : Method) (j : Jit) (a : A) (j' : Jit) → m c j ≡ made (a, j') → Grows j j'

-- A chain of steps that succeeds, taken apart.
pub bind_inversion :
    {A B : Type 0} (o : Outcome (A × Jit)) (f : A → Step B) (c : Method) (r : B × Jit)
    → (elim o as (λ _. Outcome (B × Jit)) [
      | crashed ↦ crashed
      | not_modelled ↦ not_modelled
      | made (a, j) ↦ f a c j
    ])
      ≡ made r
    → (a : A) × (j : Jit) × (o ≡ made (a, j)) × (f a c j ≡ made r)
bind_inversion crashed f c r h = cc
bind_inversion not_modelled f c r h = cc
bind_inversion (made (a, j)) f c r h = (a, j, refl, h)

module _ {A B : Type 0} where
  pub Keeps-bind :
      (m : Step A) (f : A → Step B) → Keeps m → ((a : A) → Keeps (f a)) → Keeps (m >>= f)
  unfolding ◌>>=◌
  Keeps-bind m f km kf = record {
    at = λ c j b j'' h.
        let (a, j', first, second) = bind_inversion (m c j) f c (b, j'') h in
        Grows-trans j j' j'' (km.at c j a j' first) ((kf a).at c j' b j'' second);
  }

  pub Keeps-then : (m : Step A) (n : Step B) → Keeps m → Keeps n → Keeps (m >> n)
  unfolding ◌>>◌
  Keeps-then m n km kn = Keeps-bind m (λ _. n) km (λ _. kn)

module _ {A : Type 0} where
  pub Keeps-give : (a : A) → Keeps (give a)
  unfolding give
  Keeps-give a = record { at = λ c j b j' h. subst (Grows j) (cc (h)) (Grows-refl j) }

  pub Keeps-crash : Keeps (crash {A = A})
  unfolding crash
  Keeps-crash = record { at = λ c j b j' h. cc }

  pub Keeps-other_op : Keeps (other_op {A = A})
  unfolding other_op
  Keeps-other_op = record { at = λ c j b j' h. cc }

  pub Keeps-given : (o : Option A) → Keeps (given o)
  unfolding given
  Keeps-given none = record { at = λ c j b j' h. cc }
  Keeps-given (some a) = record { at = λ c j b j' h. subst (Grows j) (cc (h)) (Grows-refl j) }

  pub Keeps-if : (b : Bool) (m n : Step A) → Keeps m → Keeps n → Keeps (if b then m else n)
  Keeps-if true m n km kn = km
  Keeps-if false m n km kn = kn
