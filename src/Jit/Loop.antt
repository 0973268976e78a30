-- ===== src/Jit/Loop.antt =====
-- The do loop of JITit: its rounds, and its end.
use iron_net.Prelude.{
  ℕ, zero, suc, ◌+◌, ◌≤◌, ◌<◌, ◌≡◌, refl, ap, sym, ==_iff, ◌∙◌, Bool, true, false, ltb, ◌==◌,
  if◌then◌else◌, length, arith, Bool-cases, inl, inr, ◌⊎◌,
}
use iron_net.Jit.{Outcome, made, crashed, not_modelled, Method, Jit, ◌>>=◌, ◌>>◌, next_byte, set_at}
use iron_net.Jit.Grows.{IsLaidOut, IsCovered, Grows}
use iron_net.Jit.Instructions.{jit_instruction-Keeps}
use iron_net.Jit.Translate.{note_offset, jit_round, jit_loop}

-- The state in which the instruction is translated.
abbrev noted : Jit → Jit
noted j = record j {
  jit_offsets = set_at j.jit_offsets j.cil_ofs (length j.ops);
  cil_ofs = j.cil_ofs + 1;
}

jit_round-Grows :
    (c : Method) (j : Jit) (u : Unit {0}) (j' : Jit)
    → jit_round c j ≡ made (u, j')
    → Grows (noted j) j'
unfolding jit_round note_offset next_byte ◌>>=◌ ◌>>◌
jit_round-Grows c j u j' h = (jit_instruction-Keeps (c.cil j.cil_ofs)).at c (noted j) u j' h

-- What a round does.
record Advances (j j' : Jit) : Type 0 where
  reads : j.cil_ofs < j'.cil_ofs
  bytes : j.max_bytes ≤ j'.max_bytes
  laid_out : IsLaidOut j → IsLaidOut j'
  covered : IsCovered j → IsCovered j'
  offsets : (t : ℕ) → j'.jit_offsets t ≡ (if t == j.cil_ofs then length j.ops else j.jit_offsets t)

jit_round-Advances :
    (c : Method) (j : Jit) (u : Unit {0}) (j' : Jit) → jit_round c j ≡ made (u, j') → Advances j j'
jit_round-Advances c j u j' h = record {
  reads = omega (arith, (grown.reads));
  bytes = grown.bytes;
  laid_out = λ x. grown.laid_out (record { laid = x.laid });
  covered = λ x. grown.covered (record { now = x.now; later = x.later });
  offsets = λ t. ap (λ f. f t) grown.offsets;
}
  where
    grown : Grows (noted j) j'
    grown = jit_round-Grows c j u j' h

-- The rounds that lead from one state to another; the loop goes on while there is code left.
pub data Rounds (c : Method) (j : Jit) : Jit → Type 0 where
  done : Rounds c j j
  round : (u : Unit {0}) (i k : Jit) → Rounds c j i → jit_round c i ≡ made (u, k) → Rounds c j k

-- A property that each round keeps holds in every state that rounds lead to.
Rounds-keep :
    (P : Jit → Type 0) (c : Method)
    → ((u : Unit {0}) (i k : Jit) → jit_round c i ≡ made (u, k) → P i → P k)
    → (j k : Jit) → Rounds c j k
    → P j
    → P k
Rounds-keep P c keep j k done p = p
Rounds-keep P c keep j k (round u i _ before e) p = keep u i k e (Rounds-keep P c keep j i before p)

module _ (c : Method) (j k : Jit) (path : Rounds c j k) where
  pub Rounds-IsLaidOut : IsLaidOut j → IsLaidOut k
  Rounds-IsLaidOut =
      Rounds-keep IsLaidOut c (λ u i k e. (jit_round-Advances c i u k e).laid_out) j k path

  pub Rounds-IsCovered : IsCovered j → IsCovered k
  Rounds-IsCovered =
      Rounds-keep IsCovered c (λ u i k e. (jit_round-Advances c i u k e).covered) j k path

  -- An entry of pJITOffsets is as it was, or the number of op-codes in front of the instruction there.
  pub Rounds-offsets :
      (t : ℕ)
      → (k.jit_offsets t ≡ j.jit_offsets t)
        ⊎ ((i : Jit) × Rounds c j i × (i.cil_ofs ≡ t) × (k.jit_offsets t ≡ length i.ops))
  Rounds-offsets t = along k path
    where
      along :
          (k : Jit)
          → Rounds c j k
          → (k.jit_offsets t ≡ j.jit_offsets t)
            ⊎ ((i : Jit) × Rounds c j i × (i.cil_ofs ≡ t) × (k.jit_offsets t ≡ length i.ops))
      along k done = inl refl
      along k (round u i _ before e) =
          let moved = (jit_round-Advances c i u k e).offsets t in
          elim (Bool-cases (t == i.cil_ofs)) [
            | inl here ↦ inr (
              i,
              before,
              sym ((==_iff t i.cil_ofs).0 here),
              moved ∙ ap (λ b. if b then length i.ops else i.jit_offsets t) here,
            )
            | inr other ↦
                let same = moved ∙ ap (λ b. if b then length i.ops else i.jit_offsets t) other in
                elim (along i before) [
                  | inl old ↦ inl (same ∙ old)
                  | inr (i', p, at, value) ↦ inr (i', p, at, same ∙ value)
                ]
          ]

  -- An entry in front of the place in the CIL stays.
  pub Rounds-offset_stays : (t n : ℕ) → t < j.cil_ofs → j.jit_offsets t ≡ n → k.jit_offsets t ≡ n
  Rounds-offset_stays t n behind value =
      (Rounds-keep (λ i. (t < i.cil_ofs) × (i.jit_offsets t ≡ n)) c
        (λ u i k e h.
          let step = jit_round-Advances c i u k e in
          let other : (t == i.cil_ofs) ≡ false = ground (arith, h.0) in
          (
            omega (arith, h.0, (step.reads)),
            step.offsets t ∙ ap (λ b. if b then length i.ops else i.jit_offsets t) other ∙ h.1,
          ))
        j k path (behind, value)).1

  pub Rounds-bytes : (n : ℕ) → n ≤ j.max_bytes → n ≤ k.max_bytes
  Rounds-bytes n le =
      Rounds-keep (λ i. n ≤ i.max_bytes) c
        (λ u i k e h. omega (arith, h, ((jit_round-Advances c i u k e).bytes))) j k path le

Rounds-trans : (c : Method) (i j k : Jit) → Rounds c i j → Rounds c j k → Rounds c i k
Rounds-trans c i j k a done = a
Rounds-trans c i j k a (round u m _ b e) = round u m k (Rounds-trans c i j m a b) e

-- pJITOffsets keeps the number of op-codes in front of each instruction that was translated.
pub round-offset :
    (c : Method) (i k last : Jit) (u : Unit {0})
    → jit_round c i ≡ made (u, k)
    → Rounds c k last
    → last.jit_offsets i.cil_ofs ≡ length i.ops
round-offset c i k last u e path =
    let step = jit_round-Advances c i u k e in
    let here : (i.cil_ofs == i.cil_ofs) ≡ true = ground arith in
    Rounds-offset_stays c k last path i.cil_ofs (length i.ops) (omega (arith, (step.reads)))
      (step.offsets i.cil_ofs ∙ ap (λ b. if b then length i.ops else i.jit_offsets i.cil_ofs) here)

-- The loop on enough fuel: it ends in a state that rounds lead to, behind the code, or one of the rounds
-- crashes or comes to an op-code that is not modelled.
abbrev pub LoopEnds : Method → Jit → Outcome (Unit {0} × Jit) → Type 0
LoopEnds c j result =
    ((k : Jit) × (result ≡ made (tt, k)) × Rounds c j k × (c.code_size ≤ k.cil_ofs))
    ⊎ ((k : Jit) × (result ≡ crashed) × Rounds c j k × (jit_round c k ≡ crashed))
    ⊎ ((k : Jit) × (result ≡ not_modelled) × Rounds c j k × (jit_round c k ≡ not_modelled))

-- A loop that ends behind its first round ends.
LoopEnds-round :
    (c : Method) (j i : Jit) (u : Unit {0}) (result : Outcome (Unit {0} × Jit))
    → jit_round c j ≡ made (u, i)
    → LoopEnds c i result
    → LoopEnds c j result
LoopEnds-round c j i u result e (inl (k, r, path, behind)) =
    inl (k, r, Rounds-trans c j i k (round u j i done e) path, behind)
LoopEnds-round c j i u result e (inr (inl (k, r, path, crash))) =
    inr (inl (k, r, Rounds-trans c j i k (round u j i done e) path, crash))
LoopEnds-round c j i u result e (inr (inr (k, r, path, other))) =
    inr (inr (k, r, Rounds-trans c j i k (round u j i done e) path, other))

-- One round of the loop, when the rounds that are left end.
loop_round-ends :
    (fuel : ℕ) (c : Method) (j : Jit)
    → ((u : Unit {0}) (i : Jit)
        → jit_round c j ≡ made (u, i)
        → i.cil_ofs < c.code_size
        → LoopEnds c i (jit_loop fuel c i))
    → LoopEnds c j (jit_loop (suc fuel) c j)
unfolding jit_loop
loop_round-ends fuel c j rest = ends (jit_round c j) refl
  where
    behind :
        (i : Jit) (b : Bool)
        → ltb i.cil_ofs c.code_size ≡ b
        → (b ≡ true → LoopEnds c i (jit_loop fuel c i))
        → LoopEnds c i (elim b as (λ _. Outcome (Unit {0} × Jit)) [
          | true ↦ jit_loop fuel c i
          | false ↦ made (tt, i)
        ])
    behind i true e more = more refl
    behind i false e more = inl (i, refl, done, ground (arith, e))

    ends :
        (o : Outcome (Unit {0} × Jit))
        → jit_round c j ≡ o
        → LoopEnds c j (elim o as (λ _. Outcome (Unit {0} × Jit)) [
          | crashed ↦ crashed
          | not_modelled ↦ not_modelled
          | made (_, j') ↦ elim (ltb j'.cil_ofs c.code_size) as (λ _. Outcome (Unit {0} × Jit)) [
            | true ↦ jit_loop fuel c j'
            | false ↦ made (tt, j')
          ]
        ])
    ends crashed e = inr (inl (j, refl, done, e))
    ends not_modelled e = inr (inr (j, refl, done, e))
    ends (made (u, i)) e =
        LoopEnds-round c j i u _ e
          (behind i (ltb i.cil_ofs c.code_size) refl (λ fits. rest u i e (ground (arith, fits))))

-- The do loop of JITit, on as much fuel as there are bytes left and one round more, ends behind the code, or a
-- round that it comes to crashes: it never runs out of fuel.
pub jit_loop-ends :
    (fuel : ℕ) (c : Method) (j : Jit)
    → c.code_size ≤ fuel + j.cil_ofs
    → LoopEnds c j (jit_loop (suc fuel) c j)
jit_loop-ends zero c j enough =
    loop_round-ends zero c j
      (λ u i e fits. absurd (omega (arith, fits, enough, ((jit_round-Advances c j u i e).reads))))
jit_loop-ends (suc fuel) c j enough = loop_round-ends (suc fuel) c j (λ u i e fits.
    jit_loop-ends fuel c i (omega (arith, enough, ((jit_round-Advances c j u i e).reads))))
