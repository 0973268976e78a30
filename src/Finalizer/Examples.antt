-- ===== src/Finalizer/Examples.antt =====
-- Six objects put through the finalizer queue, which starts with room for four.
use iron_net.Prelude.{◌≡◌, [], ◌∷◌, some, arith}
use iron_net.Finalizer.{Queue, init, add_all, take_all, take_all-add_all}

take_all-add_all_example :
    (q : Queue) × (add_all (1 ∷ 2 ∷ 3 ∷ 4 ∷ 5 ∷ 6 ∷ []) (init (λ i. 0)) ≡ some q)
    × (take_all 6 q ≡ 6 ∷ 5 ∷ 4 ∷ 3 ∷ 2 ∷ 1 ∷ [])
take_all-add_all_example = take_all-add_all (λ i. 0) (1 ∷ 2 ∷ 3 ∷ 4 ∷ 5 ∷ 6 ∷ []) (omega arith)
