-- ===== src/Examples/Selection.antt =====
-- Runs of the selection of nodes, with a generator that counts.
use human_network.Prelude.{
  ℕ, suc, ◌%◌, ◌^◌, ◌<◌, ◌≡◌, ◌≢◌, refl, ◌⊎◌, true, List, [], ◌∷◌, some, none, ok, panic, arith,
  length, All,
}
use native.Mathlib.Nat.{mod-lt}
use human_network.Cryptography.Polynomial.Lagrange.{Distinct}
use human_network.Cryptography.NodeSelection.{
  calc_nodes_to_send_to, should_be_sent_to_node, weighted_sample, weighted_sample_n_no_classic,
  sort, insert_sorted,
}
use human_network.Cryptography.NodeSelection.Requests.{
  contains, calc_nodes_to_send_to-Distinct, calc_nodes_to_send_to-panic,
  should_be_sent_to_node-calc_nodes_to_send_to,
}
use human_network.Cryptography.NodeSelection.Draws.{Drawn, weighted_sample_n_no_classic-Drawn}
use human_network.Cryptography.NodeSelection.Sampling.{
  total, weighted_sample-total, weighted_sample-last,
}

abbrev seeded : List ℕ → ℕ
seeded seed = length seed

abbrev next : ℕ → ℕ × ℕ
next n = (n, suc n)

abbrev below : ℕ → ℕ → ℕ × ℕ
below rng n = (rng % n, suc rng)

abbrev below-lt : (r n : ℕ) → 0 < n → (below r n).0 < n
below-lt r n h = mod-lt r h

abbrev nodes : List ℕ
nodes = 7 ∷ 3 ∷ 5 ∷ []

abbrev apart : Distinct nodes
apart = (((λ e. omega arith), ((λ e. omega arith), tt)), (((λ e. omega arith), tt), (tt, tt)))

abbrev small : All (λ x. x < 2 ^ 32) nodes
small = (omega arith, (omega arith, (omega arith, tt)))

calc_nodes_to_send_to-Distinct_example :
    (chosen : List ℕ) × (calc_nodes_to_send_to seeded next 4 9 2 nodes ≡ ok chosen)
    × (length chosen ≡ 2)
    × Distinct chosen
    × All (λ x. contains x nodes ≡ true) chosen
calc_nodes_to_send_to-Distinct_example =
    calc_nodes_to_send_to-Distinct seeded next 4 9 2 nodes (omega arith) apart small

calc_nodes_to_send_to-panic_example : calc_nodes_to_send_to seeded next 4 9 4 nodes ≡ panic
calc_nodes_to_send_to-panic_example =
    calc_nodes_to_send_to-panic seeded next 4 9 4 nodes (omega arith)

calc_sorted : calc_nodes_to_send_to seeded next 4 9 2 (sort nodes) ≡ ok (7 ∷ 5 ∷ [])
unfolding calc_nodes_to_send_to sort insert_sorted
calc_sorted = refl

should_be_sent_to_node-calc_nodes_to_send_to_example :
    should_be_sent_to_node seeded next 4 9 2 5 nodes ≡ ok (contains 5 (7 ∷ 5 ∷ []))
should_be_sent_to_node-calc_nodes_to_send_to_example =
    should_be_sent_to_node-calc_nodes_to_send_to seeded next 4 9 2 5 nodes (7 ∷ 5 ∷ []) small
      calc_sorted

abbrev stake : ℕ → ℕ
stake x = x

weighted_sample-total_example :
    ((total stake nodes ≡ 0) × ((weighted_sample stake below nodes 11).0 ≡ none))
    ⊎ ((0 < total stake nodes)
        × (i : ℕ) × (i < length nodes)
        × ((weighted_sample stake below nodes 11).0 ≡ some i))
weighted_sample-total_example = weighted_sample-total stake below nodes 11 below-lt

positive : 0 < total stake (7 ∷ 3 ∷ [])
unfolding total
positive = omega arith

weighted_sample-last_example : (weighted_sample stake below (7 ∷ 3 ∷ 1 ∷ []) 10).0 ≢ some 2
weighted_sample-last_example =
    weighted_sample-last stake below 7 (3 ∷ []) 1 10 below-lt positive (omega arith)

weighted_sample_n_no_classic-Drawn_example :
    (chosen : List ℕ) × (weighted_sample_n_no_classic stake below seeded nodes 2 []
      ≡ ok (some chosen))
    × (length chosen ≡ 2)
    × Drawn nodes chosen
weighted_sample_n_no_classic-Drawn_example =
    weighted_sample_n_no_classic-Drawn stake below seeded nodes 2 [] below-lt (omega arith)
      (omega arith) (omega arith, (omega arith, (omega arith, tt)))
