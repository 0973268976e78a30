-- ===== src/SystemChar/Search.antt =====
-- The binary search of SearchCaseArray on any array that ends with a number above the one looked for.
use iron_net.Prelude.{
  ℕ, zero, suc, ◌+◌, ◌-◌, ◌/◌, ◌^◌, ◌<◌, ◌≤◌, ◌≡◌, ◌⊎◌, inl, inr, refl, ap, sym, ◌∙◌, arith, ltb,
  ◌==◌, ==_iff, false, Bool-cases, List, [], ◌∷◌, Option, none, some, get_elem?, get_or, length,
  sub_u32, ◌≢◌, ltb→lt,
}
use mathlib.Core.Path.{subst}
use iron_net.SystemChar.{search_case_loop, search_case_array}

pub get_elem?-get_or :
    (xs : List ℕ) (i d : ℕ) → i < length xs → get_elem? xs i ≡ some (get_or xs i d)
get_elem?-get_or [] i d h = absurd (omega arith)
get_elem?-get_or (x ∷ xs) zero d h = refl
get_elem?-get_or (x ∷ xs) (suc i) d h = get_elem?-get_or xs i d (omega arith)

pub get_or-behind : (xs : List ℕ) (i d : ℕ) → length xs ≤ i → get_or xs i d ≡ d
get_or-behind [] i d h = refl
get_or-behind (x ∷ xs) zero d h = absurd (omega arith)
get_or-behind (x ∷ xs) (suc i) d h = get_or-behind xs i d (omega arith)

-- The number at a place, and 0xffff behind the end.
abbrev pub val : List ℕ → ℕ → ℕ
val xs i = get_or xs i 0xffff

-- What the search may answer: a place of the number, or a gap where it would stand.
abbrev pub IsAnswer : List ℕ → ℕ → Option ℕ → Type 0
IsAnswer xs c none =
    (c < val xs 0) ⊎ ((i : ℕ) × (i + 1 < length xs) × (val xs i < c) × (c < val xs (i + 1)))
IsAnswer xs c (some i) = (i < length xs) × (val xs i ≡ c)

-- Three facts about the middle of the part that is searched, in a table v of n numbers.
module _ (v : ℕ → ℕ) (c : ℕ) where
  pub next_place : (n cur : ℕ) → c < v (n - 1) → cur < n → v cur ≤ c → cur + 1 < n
  next_place n cur last lt h = elim (Bool-cases (cur == n - 1)) [
    | inl e ↦ absurd (omega (arith, ap v ((==_iff cur (n - 1)).0 e)))
    | inr e ↦ ground arith
  ]

  pub narrower :
      (lower cur : ℕ)
      → lower ≤ cur
      → (lower ≡ 0) ⊎ (v lower ≤ c)
      → c < v cur
      → cur ≢ 0
      → lower < cur
  narrower lower cur le low below nz = elim (Bool-cases (cur == lower)) [
    | inl e ↦
        let same : cur ≡ lower = (==_iff cur lower).0 e in
        elim low [ inl z ↦ absurd (nz (same ∙ z)) | inr h ↦ absurd (omega (arith, ap v same)) ]
    | inr e ↦ ground arith
  ]

  pub room_left : (cur upper : ℕ) → cur < upper → c < v upper → v (cur + 1) ≤ c → cur + 1 < upper
  room_left cur upper lt high h = elim (Bool-cases (cur + 1 == upper)) [
    | inl e ↦ absurd (omega (arith, ap v ((==_iff (cur + 1) upper).0 e)))
    | inr e ↦ ground arith
  ]

module _ (xs : List ℕ) (c : ℕ) where
  search_case_loop-IsAnswer :
      (fuel lower upper cur : ℕ)
      → c < val xs (length xs - 1)
      → length xs < 2 ^ 31
      → lower < upper
      → upper ≤ length xs
      → (lower ≡ 0) ⊎ (val xs lower ≤ c)
      → c < val xs upper
      → cur ≡ lower + (upper - lower) / 2
      → upper - lower ≤ fuel
      → (r : Option ℕ) × (search_case_loop fuel xs c lower upper cur ≡ some r) × IsAnswer xs c r
  unfolding search_case_loop
  search_case_loop-IsAnswer zero lower upper cur last short lu un low high mid enough =
      absurd (omega arith)
  search_case_loop-IsAnswer (suc fuel) lower upper cur last short lu un low high mid enough =
      let here = get_elem?-get_or xs cur 0xffff (omega arith) in
      elim (Bool-cases (ltb c (val xs cur))) [
        | inl below ↦ elim (Bool-cases (cur == 0)) [
          | inl z ↦ (
            none,
            rw (search_case_loop, here, below, z) refl,
            inl (subst (λ i. c < val xs i) ((==_iff cur 0).0 z) (ltb→lt c (val xs cur) below)),
          )
          | inr nz ↦
              let less =
                narrower (val xs) c lower cur (omega arith) low (ltb→lt c (val xs cur) below)
                  (λ e. cc ((==_iff cur 0).1 e)) in
              let (r, p, answer) =
                search_case_loop-IsAnswer fuel lower cur (lower + sub_u32 cur lower / 2) last short
                  less (omega arith) low (ltb→lt c (val xs cur) below) (omega arith)
                  (omega arith) in
              (r, rw (search_case_loop, here, below, nz) p, answer)
        ]
        | inr above ↦
            let at_least : val xs cur ≤ c = ground arith in
            let place = next_place (val xs) c (length xs) cur last (omega arith) at_least in
            let next = get_elem?-get_or xs (cur + 1) 0xffff place in
            elim (Bool-cases (ltb c (val xs (cur + 1)))) [
              | inl found ↦ elim (Bool-cases (c == val xs cur)) [
                | inl e ↦ (
                  some cur,
                  rw (search_case_loop, here, above, next, found, e) refl,
                  (omega arith, sym ((==_iff c (val xs cur)).0 e)),
                )
                | inr e ↦ (
                  none,
                  rw (search_case_loop, here, above, next, found, e) refl,
                  inr (cur, place, ground arith, ltb→lt c (val xs (cur + 1)) found),
                )
              ]
              | inr further ↦
                  let more = room_left (val xs) c cur upper (omega arith) high (ground arith) in
                  let nz : (upper == 0) ≡ false = ground arith in
                  let (r, p, answer) =
                    search_case_loop-IsAnswer fuel cur upper (cur + sub_u32 upper cur / 2) last
                      short (omega arith) un (inr at_least) high (omega arith) (omega arith) in
                  (r, rw (search_case_loop, here, above, next, further, nz) p, answer)
            ]
      ]

  -- SearchCaseArray comes to an end and reads inside the array, and answers with a place of the code point
  -- or with a gap.
  pub search_case_array-IsAnswer :
      c < 0xffff
      → 0 < length xs
      → c < val xs (length xs - 1)
      → length xs < 2 ^ 31
      → (r : Option ℕ) × (search_case_array xs c ≡ some r) × IsAnswer xs c r
  unfolding search_case_array
  search_case_array-IsAnswer small full last short =
      let not_last : (c == 0xffff) ≡ false = ground arith in
      let n = length xs in
      let behind : val xs n ≡ 0xffff = get_or-behind xs n 0xffff (omega arith) in
      let (r, p, answer) =
        search_case_loop-IsAnswer n 0 n (n / 2) last short full (omega arith) (inl refl)
          (omega arith) (omega arith) (omega arith) in
      (r, rw (search_case_array, not_last) p, answer)
