-- ===== src/Cryptography/NodeSelection.antt =====
-- network/crates/cryptography/src/node_selection.rs: which nodes a request is sent to, and the draw
-- of a quorum by weight. The generator `ChaCha8Rng` of the crate `rand_chacha`, the ranges of `rand`
-- and the floating-point numbers are arguments; what is logged is left out.
pub mod Requests
pub mod Sampling
pub mod Draws
use mathlib.Core.List.{foldl}
use human_network.Prelude.{
  ℕ, zero, suc, ◌+◌, ◌-◌, ◌*◌, ◌/◌, ◌%◌, ◌^◌, ◌≡◌, Bool, true, false, ◌||◌, List, [], ◌∷◌, ◌++◌,
  map, Option, none, some, Outcome, ok, panic, ◌>>=◌, unwrap, leb, ltb, ◌==◌, if◌then◌else◌, length,
  get_elem?, remove,
}

-- `to_be_bytes` of an integer of `width` bytes.
be_bytes : ℕ → ℕ → List ℕ
be_bytes zero n = []
be_bytes (suc width) n = be_bytes width (n / 256) ++ n % 256 ∷ []

-- `[(epoch_num as u128).to_be_bytes(), request_num.to_be_bytes()].concat()`
unfoldable pub request_seed : ℕ → ℕ → List ℕ
unfolding be_bytes
request_seed epoch_num request_num = be_bytes 16 epoch_num ++ be_bytes 16 request_num

-- `slice::sort` on numbers
unfoldable pub insert_sorted : ℕ → List ℕ → List ℕ
insert_sorted x [] = x ∷ []
insert_sorted x (y ∷ ys) = let rest = insert_sorted x ys in if leb x y then x ∷ y ∷ ys else y ∷ rest

unfoldable pub sort : List ℕ → List ℕ
sort [] = []
sort (x ∷ xs) = insert_sorted x (sort xs)

-- The generator that `from_seed` makes, the number that `next_u64` draws from it, and its state after.
module _ {R : Type 0} (from_seed : List ℕ → R) (next_u64 : R → ℕ × R) where
  -- `num % node_indices.len()`, a panic without nodes, then `node_indices.remove`.
  unfoldable pub draw : R → List ℕ → Outcome (ℕ × List ℕ × R)
  draw rng nodes =
      let (num, rng') = next_u64 rng in
      if length nodes == 0
      then panic
      else (unwrap (get_elem? nodes (num % length nodes)) >>= λ node.
          ok (node, remove nodes (num % length nodes), rng'))

  unfoldable pub calc_loop : R → ℕ → List ℕ → Outcome (List ℕ)
  unfolding draw
  calc_loop rng zero nodes = ok []
  calc_loop rng (suc n) nodes = do
    (node, nodes', rng') ← draw rng nodes
    chosen ← calc_loop rng' n nodes'
    ok (node % 2 ^ 32 ∷ chosen)

  unfoldable pub calc_nodes_to_send_to : ℕ → ℕ → ℕ → List ℕ → Outcome (List ℕ)
  unfolding calc_loop request_seed
  calc_nodes_to_send_to epoch_num request_num t_plus_epsilon node_indices =
      calc_loop (from_seed (request_seed epoch_num request_num)) t_plus_epsilon node_indices

  unfoldable pub should_loop : R → ℕ → ℕ → List ℕ → Outcome Bool
  unfolding draw
  should_loop rng zero node nodes = ok false
  should_loop rng (suc n) node nodes = do
    (chosen, nodes', rng') ← draw rng nodes
    let rest = should_loop rng' n node nodes'
    if chosen == node then ok true else rest

  unfoldable pub should_be_sent_to_node : ℕ → ℕ → ℕ → ℕ → List ℕ → Outcome Bool
  unfolding should_loop request_seed sort
  should_be_sent_to_node epoch_num request_num t_plus_epsilon node node_indexes =
      should_loop (from_seed (request_seed epoch_num request_num)) t_plus_epsilon node
        (sort node_indexes)

-- `slice::last`
unfoldable pub last : List ℕ → Option ℕ
last [] = none
last (x ∷ []) = some x
last (x ∷ y ∷ ys) = last (y ∷ ys)

-- The first position whose sum is at least `r`.
unfoldable pub first_from : ℕ → List ℕ → Option ℕ
first_from r [] = none
first_from r (x ∷ xs) =
    if leb r x then some 0 else elim (first_from r xs) [ none ↦ none | some i ↦ some (suc i) ]

-- The cumulative sums of `HasWeight::weight`, from `acc` on.
unfoldable pub cum_sum : {T : Type 0} → (T → ℕ) → ℕ → List T → List ℕ
cum_sum weight acc [] = []
cum_sum weight acc (node ∷ nodes) = (acc + weight node) ∷ cum_sum weight (acc + weight node) nodes

-- `rng.gen_range(0..total)`
module _ {R T : Type 0} (weight : T → ℕ) (gen_range : R → ℕ → ℕ × R) where
  unfoldable pub weighted_sample : List T → R → Option ℕ × R
  unfolding cum_sum last first_from
  weighted_sample nodes rng = elim (last (cum_sum weight 0 nodes)) [
    | none ↦ (none, rng)
    | some total_weight ↦
        let (r, rng') = gen_range rng total_weight in
        if total_weight == 0 then (none, rng) else (first_from r (cum_sum weight 0 nodes), rng')
  ]

-- `f64` and what the two samplers use of it: `to_f64().unwrap_or(0.0)` of a weight, `sqrt`, `ln_1p`,
-- the sum of an iterator, and `gen_range(0.0..total)`, which panics on a range it cannot draw from.
pub record Float (D R : Type 0) : Type 0 where
  pub to_f64 : ℕ → D
  pub zero : D
  pub sqrt : D → D
  pub ln_1p : D → D
  pub plus : D → D → D
  pub sum : List D → D
  pub le : D → D → Bool
  pub eq : D → D → Bool
  pub gen_range : R → D → Outcome (D × R)
  -- A sum over nothing equals 0.0.
  pub sum-nil : eq (sum []) zero ≡ true

module _ {D R T : Type 0} (f : Float D R) (weight : T → ℕ) where
  -- `acc += w; if acc >= r { return Some(i) }`
  unfoldable pub first_float : D → D → ℕ → List D → Option ℕ
  first_float r acc i [] = none
  first_float r acc i (w ∷ ws) =
      let rest = first_float r (f.plus acc w) (suc i) ws in
      if f.le r (f.plus acc w) then some i else rest

  -- The body that the two samplers share, on the adjusted weights.
  unfoldable pub sample_float : List D → R → Outcome (Option ℕ × R)
  unfolding first_float
  sample_float weights rng =
      let total_weight = f.sum weights in
      if f.eq total_weight f.zero
      then ok (none, rng)
      else (f.gen_range rng total_weight >>= λ (r, rng'). elim (first_float r f.zero 0 weights) [
        | none ↦ ok (some (length weights - 1), rng')
        | some i ↦ ok (some i, rng')
      ])

  unfoldable pub weighted_sample_with_sqrt : List T → R → Outcome (Option ℕ × R)
  unfolding sample_float
  weighted_sample_with_sqrt nodes rng =
      sample_float (map (λ node. f.sqrt (f.to_f64 (weight node))) nodes) rng

  unfoldable pub weighted_sample_with_log : List T → R → Outcome (Option ℕ × R)
  unfolding sample_float
  weighted_sample_with_log nodes rng =
      sample_float
        (map (λ node. let w = f.to_f64 (weight node) in if f.le w f.zero then f.zero else f.ln_1p w)
          nodes)
        rng

-- The loop of the four draws, for any sampler of one node.
module _ {R T : Type 0} (from_seed : List ℕ → R)
    (sample : List T → R → Outcome (Option ℕ × R)) where
  -- `result.push(available_nodes.remove(idx))`; without an index, `return None`.
  unfoldable pub sample_loop : ℕ → List T → R → List T → Outcome (Option (List T))
  sample_loop zero available_nodes rng result = ok (some result)
  sample_loop (suc n) available_nodes rng result = do
    (choice, rng') ← sample available_nodes rng
    elim choice [
      | none ↦ ok none
      | some idx ↦
          unwrap (get_elem? available_nodes idx)
          >>= (λ node. sample_loop n (remove available_nodes idx) rng' (result ++ node ∷ []))
    ]

  unfoldable pub weighted_sample_n : List T → ℕ → List ℕ → Outcome (Option (List T))
  unfolding sample_loop
  weighted_sample_n nodes n random_seed =
      if (length nodes == 0) || (n == 0) || ltb (length nodes) n
      then ok none
      else sample_loop n nodes (from_seed random_seed) []

  -- The loop of `weighted_sample_n_no_replace`: without an index and with `min_nodes` results, the
  -- value `Some(result.clone())` is dropped and the loop goes on.
  unfoldable pub no_replace_loop : ℕ → ℕ → List T → R → List T → Outcome (Option (List T))
  no_replace_loop min_nodes zero the_nodes r result = ok (some result)
  no_replace_loop min_nodes (suc n) the_nodes r result = do
    (choice, r') ← sample the_nodes r
    elim choice [
      | none ↦
          let rest = no_replace_loop min_nodes n the_nodes r' result in
          if leb min_nodes (length result) then rest else ok none
      | some idx ↦
          unwrap (get_elem? the_nodes idx)
          >>= (λ node. no_replace_loop min_nodes n (remove the_nodes idx) r' (result ++ node ∷ []))
    ]

  unfoldable pub sample_n_no_replace : ℕ → List T → ℕ → List ℕ → Outcome (Option (List T))
  unfolding no_replace_loop
  sample_n_no_replace min_nodes nodes n random_seed =
      if (length nodes == 0) || (n == 0) || ltb (length nodes) n
      then ok none
      else no_replace_loop min_nodes n nodes (from_seed random_seed) []

module _ {D R T : Type 0} (f : Float D R) (weight : T → ℕ) (from_seed : List ℕ → R) where
  unfoldable pub weighted_sample_n_no_sqrt : List T → ℕ → List ℕ → Outcome (Option (List T))
  unfolding weighted_sample_n weighted_sample_with_sqrt
  weighted_sample_n_no_sqrt = weighted_sample_n from_seed (weighted_sample_with_sqrt f weight)

  unfoldable pub weighted_sample_n_no_log : List T → ℕ → List ℕ → Outcome (Option (List T))
  unfolding weighted_sample_n weighted_sample_with_log
  weighted_sample_n_no_log = weighted_sample_n from_seed (weighted_sample_with_log f weight)

  -- `min_nodes` is what `get_min_nodes` reads.
  unfoldable pub weighted_sample_n_no_replace : ℕ → List T → ℕ → List ℕ → Outcome (Option (List T))
  unfolding sample_n_no_replace weighted_sample_with_sqrt
  weighted_sample_n_no_replace = sample_n_no_replace from_seed (weighted_sample_with_sqrt f weight)

module _ {R T : Type 0} (weight : T → ℕ) (gen_range : R → ℕ → ℕ × R) (from_seed : List ℕ → R) where
  unfoldable pub weighted_sample_n_no_classic : List T → ℕ → List ℕ → Outcome (Option (List T))
  unfolding weighted_sample_n weighted_sample
  weighted_sample_n_no_classic =
      weighted_sample_n from_seed (λ nodes rng. ok (weighted_sample weight gen_range nodes rng))
