-- ===== src/Cryptography/NodeSelection/Requests.antt =====
-- The nodes of a request: what `calc_nodes_to_send_to` lists is what `should_be_sent_to_node` answers.
use human_network.Prelude.{
  ℕ, zero, suc, ◌%◌, ◌^◌, ◌≤◌, ◌<◌, ◌≡◌, ◌≢◌, refl, sym, ap, subst, Bool, true, false, List, [],
  ◌∷◌, inl, inr, some, ok, panic, ◌==◌, ==-of_eq, ==-of_ne, leb, if◌then◌else◌, length, get_elem?,
  remove, All, All-map, arith, Bool-cases, All-remove, All-get, get_elem-some, length-remove,
  le-of_leb, ◌∙◌, ok_injective,
}
use native.Mathlib.Nat.{mod-lt, mod-eq_of_lt}
use human_network.Cryptography.Polynomial.Lagrange.{Distinct}
use human_network.Cryptography.NodeSelection.{
  draw, calc_loop, calc_nodes_to_send_to, should_loop, should_be_sent_to_node, sort, insert_sorted,
  request_seed,
}

-- The number is one of the list.
abbrev pub contains : ℕ → List ℕ → Bool
contains x [] = false
contains x (y ∷ ys) = if y == x then true else contains x ys

module _ (P : ℕ → Type 0) where
  All-insert : (x : ℕ) (ys : List ℕ) → P x → All P ys → All P (insert_sorted x ys)
  unfolding insert_sorted
  All-insert x [] p ps = (p, tt)
  All-insert x (y ∷ ys) p (q, qs) = elim (Bool-cases (leb x y)) [
    | inl e ↦ rw e (p, (q, qs))
    | inr e ↦ rw e (q, All-insert x ys p qs)
  ]

  All-sort : (xs : List ℕ) → All P xs → All P (sort xs)
  unfolding sort
  All-sort [] ps = tt
  All-sort (x ∷ xs) (p, ps) = All-insert x (sort xs) p (All-sort xs ps)

Distinct-remove : (xs : List ℕ) (i : ℕ) → Distinct xs → Distinct (remove xs i)
Distinct-remove [] i h = tt
Distinct-remove (x ∷ xs) zero h = h.1
Distinct-remove (x ∷ xs) (suc i) h = (All-remove (λ j. x ≢ j) xs i h.0, Distinct-remove xs i h.1)

removed_apart :
    (xs : List ℕ) (i x : ℕ) → Distinct xs → get_elem? xs i ≡ some x → All (λ j. x ≢ j) (remove xs i)
removed_apart [] i x d h = tt
removed_apart (y ∷ xs) zero x d h = subst (λ z. All (λ j. z ≢ j) xs) (cc) d.0
removed_apart (y ∷ xs) (suc i) x d h =
    (λ e. All-get (λ j. y ≢ j) xs i x d.0 h (sym e), removed_apart xs i x d.1 h)

if_ok : (b c : Bool) → (if b then ok true else ok c) ≡ ok (if b then true else c)
if_ok true c = refl
if_ok false c = refl

ok-ne-panic : {x : List ℕ} → ok x ≢ panic
ok-ne-panic h = cc

lt-of_leb : (a b : ℕ) → leb a b ≡ false → b < a
lt-of_leb a b h = ground arith

All-contains : (xs : List ℕ) → All (λ x. contains x xs ≡ true) xs
All-contains [] = tt
All-contains (x ∷ xs) = (
  rw (==-of_eq x x refl) refl,
  All-map (λ y. contains y xs ≡ true) (λ y. contains y (x ∷ xs) ≡ true) (λ y h. ground arith) xs
      (All-contains xs),
)

module _ {R : Type 0} (from_seed : List ℕ → R) (next_u64 : R → ℕ × R) where
  -- What a draw leaves: an element of the list, and the others.
  draw-some :
      (rng : R) (nodes : List ℕ)
      → 0 < length nodes
      → (i : ℕ) × (node : ℕ) × (rng' : R) × (i < length nodes)
        × (get_elem? nodes i ≡ some node)
        × (draw from_seed next_u64 rng nodes ≡ ok (node, remove nodes i, rng'))
  unfolding draw
  draw-some rng nodes h =
      let i = (next_u64 rng).0 % length nodes in
      let found = get_elem-some nodes i (mod-lt (next_u64 rng).0 h) in
      (
        i,
        found.0,
        (next_u64 rng).1,
        mod-lt (next_u64 rng).0 h,
        found.1,
        rw (==-of_ne (length nodes) 0 (λ e. omega arith), found.1) refl,
      )

  calc_loop-ok :
      (rng : R) (n : ℕ) (nodes : List ℕ)
      → n ≤ length nodes
      → Distinct nodes
      → All (λ x. x < 2 ^ 32) nodes
      → (chosen : List ℕ) × (calc_loop from_seed next_u64 rng n nodes ≡ ok chosen)
        × (length chosen ≡ n)
        × Distinct chosen
        × ((P : ℕ → Type 0) → All P nodes → All P chosen)
  unfolding calc_loop
  calc_loop-ok rng zero nodes h d w = ([], refl, refl, tt, λ P ps. tt)
  calc_loop-ok rng (suc n) nodes h d w =
      let (i, node, rng', lt, found, drawn) = draw-some rng nodes (omega arith) in
      let small = mod-eq_of_lt (All-get (λ x. x < 2 ^ 32) nodes i node w found) in
      let shorter = length-remove nodes i lt in
      let (chosen, run, len, dist, all) =
        calc_loop-ok rng' n (remove nodes i) (omega arith) (Distinct-remove nodes i d)
          (All-remove (λ x. x < 2 ^ 32) nodes i w) in
      (
        node ∷ chosen,
        rw (drawn, run, small) refl,
        ap suc len,
        (all (λ j. node ≢ j) (removed_apart nodes i node d found), dist),
        λ P ps. (All-get P nodes i node ps found, all P (All-remove P nodes i ps)),
      )

  -- When the indices are different numbers below 2^32 and at least `t_plus_epsilon` many,
  -- `calc_nodes_to_send_to` does not panic and lists `t_plus_epsilon` different ones of them.
  pub calc_nodes_to_send_to-Distinct :
      (epoch_num request_num t_plus_epsilon : ℕ) (node_indices : List ℕ)
      → t_plus_epsilon ≤ length node_indices
      → Distinct node_indices
      → All (λ x. x < 2 ^ 32) node_indices
      → (chosen : List ℕ) × (calc_nodes_to_send_to from_seed next_u64 epoch_num request_num
            t_plus_epsilon node_indices
          ≡ ok chosen)
        × (length chosen ≡ t_plus_epsilon)
        × Distinct chosen
        × All (λ x. contains x node_indices ≡ true) chosen
  unfolding calc_nodes_to_send_to
  calc_nodes_to_send_to-Distinct epoch_num request_num t_plus_epsilon node_indices h d w =
      let (chosen, run, len, dist, all) =
        calc_loop-ok (from_seed (request_seed epoch_num request_num)) t_plus_epsilon node_indices h
          d w in
      (chosen, run, len, dist, all _ (All-contains node_indices))

  calc_loop-panic :
      (rng : R) (n : ℕ) (nodes : List ℕ)
      → length nodes < n
      → calc_loop from_seed next_u64 rng n nodes ≡ panic
  unfolding calc_loop draw
  calc_loop-panic rng zero nodes h = absurd (omega arith)
  calc_loop-panic rng (suc n) [] h = refl
  calc_loop-panic rng (suc n) (x ∷ xs) h =
      let (i, node, rng', lt, found, drawn) = draw-some rng (x ∷ xs) (omega arith) in
      let shorter = length-remove (x ∷ xs) i lt in
      rw (drawn, calc_loop-panic rng' n (remove (x ∷ xs) i) (omega arith)) refl

  -- With fewer indices than `t_plus_epsilon`, `calc_nodes_to_send_to` panics: it reduces a random
  -- number modulo the number of indices that are left, which reaches 0.
  pub calc_nodes_to_send_to-panic :
      (epoch_num request_num t_plus_epsilon : ℕ) (node_indices : List ℕ)
      → length node_indices < t_plus_epsilon
      → calc_nodes_to_send_to from_seed next_u64 epoch_num request_num t_plus_epsilon node_indices
        ≡ panic
  unfolding calc_nodes_to_send_to
  calc_nodes_to_send_to-panic epoch_num request_num t_plus_epsilon node_indices h =
      calc_loop-panic (from_seed (request_seed epoch_num request_num)) t_plus_epsilon node_indices h

  should_loop-contains :
      (rng : R) (n node : ℕ) (nodes : List ℕ)
      → n ≤ length nodes
      → All (λ x. x < 2 ^ 32) nodes
      → (chosen : List ℕ) × (calc_loop from_seed next_u64 rng n nodes ≡ ok chosen)
        × (should_loop from_seed next_u64 rng n node nodes ≡ ok (contains node chosen))
  unfolding calc_loop should_loop
  should_loop-contains rng zero node nodes h w = ([], refl, refl)
  should_loop-contains rng (suc n) node nodes h w =
      let (i, first, rng', lt, found, drawn) = draw-some rng nodes (omega arith) in
      let small = mod-eq_of_lt (All-get (λ x. x < 2 ^ 32) nodes i first w found) in
      let shorter = length-remove nodes i lt in
      let (chosen, run, answer) =
        should_loop-contains rng' n node (remove nodes i) (omega arith)
          (All-remove (λ x. x < 2 ^ 32) nodes i w) in
      (
        first ∷ chosen,
        rw (drawn, run, small) refl,
        rw (drawn, answer) (if_ok (first == node) (contains node chosen)),
      )

  should_loop-calc :
      (rng : R) (n node : ℕ) (nodes chosen : List ℕ)
      → All (λ x. x < 2 ^ 32) nodes
      → calc_loop from_seed next_u64 rng n nodes ≡ ok chosen
      → should_loop from_seed next_u64 rng n node nodes ≡ ok (contains node chosen)
  should_loop-calc rng n node nodes chosen w h = elim (Bool-cases (leb n (length nodes))) [
    | inl e ↦
        let (chosen', run, answer) =
          should_loop-contains rng n node nodes (le-of_leb n (length nodes) e) w in
        answer ∙ ap (λ c. ok (contains node c)) (ok_injective (sym run ∙ h))
    | inr e ↦
        absurd (ok-ne-panic (sym h ∙ calc_loop-panic rng n nodes (lt-of_leb n (length nodes) e)))
  ]

  -- When the indices are below 2^32 and `calc_nodes_to_send_to` lists nodes from the sorted
  -- indices, `should_be_sent_to_node` answers whether the node is one of them.
  pub should_be_sent_to_node-calc_nodes_to_send_to :
      (epoch_num request_num t_plus_epsilon node : ℕ) (node_indexes chosen : List ℕ)
      → All (λ x. x < 2 ^ 32) node_indexes
      → calc_nodes_to_send_to from_seed next_u64 epoch_num request_num t_plus_epsilon
          (sort node_indexes)
        ≡ ok chosen
      → should_be_sent_to_node from_seed next_u64 epoch_num request_num t_plus_epsilon node
          node_indexes
        ≡ ok (contains node chosen)
  unfolding calc_nodes_to_send_to should_be_sent_to_node
  should_be_sent_to_node-calc_nodes_to_send_to epoch_num request_num t_plus_epsilon node
        node_indexes chosen w h =
      should_loop-calc (from_seed (request_seed epoch_num request_num)) t_plus_epsilon node
        (sort node_indexes) chosen (All-sort (λ x. x < 2 ^ 32) node_indexes w) h
