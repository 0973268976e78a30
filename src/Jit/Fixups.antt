-- ===== src/Jit/Fixups.antt =====
-- The last part of JITit, which replaces the targets in the code by the places of their op-codes.
use iron_net.Prelude.{
  ℕ, zero, suc, ◌≤◌, ◌<◌, ◌≡◌, ◌≢◌, refl, sym, ◌∙◌, true, false, ltb, ◌==◌, none, some, List, [],
  ◌∷◌, length, get_elem?, arith, Bool-cases, Option-cases, inl, inr, ==_iff,
}
use mathlib.Core.Path.{subst}
use mathlib.Core.Option.{none-ne-some}
use iron_net.Jit.{Method}
use iron_net.Jit.Convert.{is_among}
use iron_net.Jit.Grows.{Within}
use iron_net.Jit.Translate.{set, fix_branches}

length-set : (xs : List ℕ) (i v : ℕ) → length (set xs i v) ≡ length xs
length-set [] i v = refl
length-set (x ∷ xs) zero v = refl
length-set (x ∷ xs) (suc i) v = omega (arith, length-set xs i v)

get_elem?-set-other :
    (xs : List ℕ) (i v k : ℕ) → (k == i) ≡ false → get_elem? (set xs i v) k ≡ get_elem? xs k
get_elem?-set-other [] i v k h = refl
get_elem?-set-other (x ∷ xs) zero v zero h = cc
get_elem?-set-other (x ∷ xs) zero v (suc k) h = refl
get_elem?-set-other (x ∷ xs) (suc i) v zero h = refl
get_elem?-set-other (x ∷ xs) (suc i) v (suc k) h = get_elem?-set-other xs i v k (ground (arith, h))

get_elem?-set-same :
    (xs : List ℕ) (i v u : ℕ) → get_elem? xs i ≡ some u → get_elem? (set xs i v) i ≡ some v
get_elem?-set-same [] i v u h = cc
get_elem?-set-same (x ∷ xs) zero v u h = refl
get_elem?-set-same (x ∷ xs) (suc i) v u h = get_elem?-set-same xs i v u h

is_among-Within :
    (k lo : ℕ) (bs : List ℕ) (hi : ℕ) → k < lo → Within lo bs hi → is_among k bs ≡ false
is_among-Within k lo [] hi lt h = refl
is_among-Within k lo (b ∷ bs) hi lt h =
    rw (is_among-Within k (suc b) bs hi (omega (arith, (h.0))) (h.1)) ground (arith, (h.0))

-- The op-codes `ops'` are `ops` with the targets at the branch offsets replaced.
pub record IsFixed (c : Method) (jit_offsets : ℕ → ℕ) (bs : List ℕ) (ops ops' : List ℕ)
    : Type 0 where
  pub size : length ops' ≡ length ops
  pub target :
      (k : ℕ)
      → is_among k bs ≡ true
      → (t : ℕ) × (get_elem? ops k ≡ some t)
        × (t < c.code_size)
        × (get_elem? ops' k ≡ some (jit_offsets t))
  pub other : (k : ℕ) → is_among k bs ≡ false → get_elem? ops' k ≡ get_elem? ops k

-- What IsFixed states of a place that holds a target.
abbrev IsReplaced : Method → (ℕ → ℕ) → List ℕ → List ℕ → ℕ → Type 0
IsReplaced c jo ops ops' k =
    (t : ℕ) × (get_elem? ops k ≡ some t) × (t < c.code_size) × (get_elem? ops' k ≡ some (jo t))

-- One target more.
fix_one :
    (c : Method) (jo : ℕ → ℕ) (ofs : ℕ) (rest : List ℕ) (ops ops' : List ℕ) (t : ℕ)
    → is_among ofs rest ≡ false
    → get_elem? ops ofs ≡ some t
    → t < c.code_size
    → IsFixed c jo rest (set ops ofs (jo t)) ops'
    → IsFixed c jo (ofs ∷ rest) ops ops'
fix_one c jo ofs rest ops ops' t fresh here fits h = record {
  size = omega (arith, (h.size), length-set ops ofs (jo t));
  target = λ k among. elim (Bool-cases (k == ofs)) [
    | inl same ↦ subst (IsReplaced c jo ops ops') (sym ((==_iff k ofs).0 same)) at_ofs
    | inr different ↦ elsewhere k different (h.target k (cc (among, different)))
  ];
  other = λ k among. elim (Bool-cases (k == ofs)) [
    | inl same ↦ cc (among, same)
    | inr different ↦
        h.other k (cc (among, different)) ∙ get_elem?-set-other ops ofs (jo t) k different
  ];
}
  where
    at_ofs : IsReplaced c jo ops ops' ofs
    at_ofs = (t, here, fits, h.other ofs fresh ∙ get_elem?-set-same ops ofs (jo t) t here)

    elsewhere :
        (k : ℕ)
        → (k == ofs) ≡ false
        → IsReplaced c jo (set ops ofs (jo t)) ops' k
        → IsReplaced c jo ops ops' k
    elsewhere k different (u, found, below, after) =
        (u, sym (get_elem?-set-other ops ofs (jo t) k different) ∙ found, below, after)

pub fix_branches-IsFixed :
    (c : Method) (jo : ℕ → ℕ) (bs : List ℕ) (lo : ℕ) (ops ops' : List ℕ)
    → Within lo bs (length ops)
    → fix_branches c jo bs ops ≡ some ops'
    → IsFixed c jo bs ops ops'
unfolding fix_branches
fix_branches-IsFixed c jo [] lo ops ops' w h = record {
  size = cc (h);
  target = λ k among. cc;
  other = λ k among. cc (h);
}
fix_branches-IsFixed c jo (ofs ∷ rest) lo ops ops' w h = elim (Option-cases (get_elem? ops ofs)) [
  | inl nothing ↦ absurd (none-ne-some _ (rw (nothing, fix_branches) at h))
  | inr (t, here) ↦ elim (Bool-cases (ltb t c.code_size)) [
    | inl fits ↦
        fix_one c jo ofs rest ops ops' t
          (is_among-Within ofs (suc ofs) rest (length ops) (omega arith) (w.1)) here
          (ground (arith, fits))
          (fix_branches-IsFixed c jo rest (suc ofs) (set ops ofs (jo t)) ops'
            (rw (length-set ops ofs (jo t)) w.1) (rw (here, fix_branches, fits) at h))
    | inr outside ↦ absurd (none-ne-some _ (rw (here, fix_branches, outside) at h))
  ]
]

Within-below : (lo : ℕ) (bs : List ℕ) (hi : ℕ) → Within lo bs hi → lo ≤ hi
Within-below lo [] hi h = h
Within-below lo (b ∷ bs) hi h = omega (arith, (h.0), Within-below (suc b) bs hi (h.1))

get_elem?-none : (xs : List ℕ) (i : ℕ) → i < length xs → get_elem? xs i ≢ none
get_elem?-none [] i lt h = omega arith
get_elem?-none (x ∷ xs) zero lt h = cc
get_elem?-none (x ∷ xs) (suc i) lt h = get_elem?-none xs i (omega arith) h

-- A target that stands in the code and leads behind the CIL.
abbrev pub LeadsOut : Method → List ℕ → List ℕ → Type 0
LeadsOut c bs ops =
    (k t : ℕ) × (is_among k bs ≡ true) × (get_elem? ops k ≡ some t) × (c.code_size ≤ t)

LeadsOut-later :
    (c : Method) (ofs v : ℕ) (rest ops : List ℕ)
    → is_among ofs rest ≡ false
    → LeadsOut c rest (set ops ofs v)
    → LeadsOut c (ofs ∷ rest) ops
LeadsOut-later c ofs v rest ops fresh (k, t, among, found, outside) = elim (Bool-cases (k == ofs)) [
  | inl same ↦ cc ((==_iff k ofs).0 same, among, fresh)
  | inr different ↦ (
    k,
    t,
    cc (different, among),
    sym (get_elem?-set-other ops ofs v k different) ∙ found,
    outside,
  )
]

pub fix_branches-LeadsOut :
    (c : Method) (jo : ℕ → ℕ) (bs : List ℕ) (lo : ℕ) (ops : List ℕ)
    → Within lo bs (length ops)
    → fix_branches c jo bs ops ≡ none
    → LeadsOut c bs ops
unfolding fix_branches
fix_branches-LeadsOut c jo [] lo ops w h = cc
fix_branches-LeadsOut c jo (ofs ∷ rest) lo ops w h = elim (Option-cases (get_elem? ops ofs)) [
  | inl nothing ↦
      absurd (get_elem?-none ops ofs (Within-below (suc ofs) rest (length ops) (w.1)) nothing)
  | inr (t, here) ↦ elim (Bool-cases (ltb t c.code_size)) [
    | inl fits ↦
        LeadsOut-later c ofs (jo t) rest ops
          (is_among-Within ofs (suc ofs) rest (length ops) (omega arith) (w.1))
          (fix_branches-LeadsOut c jo rest (suc ofs) (set ops ofs (jo t))
            (rw (length-set ops ofs (jo t)) w.1) (rw (here, fix_branches, fits) at h))
    | inr outside ↦ (ofs, t, ground arith, here, ground (arith, outside))
  ]
]
