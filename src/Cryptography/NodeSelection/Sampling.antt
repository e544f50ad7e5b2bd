-- ===== src/Cryptography/NodeSelection/Sampling.antt =====
-- The draws by weight: how many nodes they return, and which nodes can be drawn.
use human_network.Prelude.{
  ℕ, suc, ◌+◌, ◌≤◌, ◌<◌, ◌≡◌, ◌≢◌, refl, sym, ap, ◌∙◌, ◌⊎◌, inl, inr, List, [], ◌∷◌, ◌++◌, none,
  some, ==-of_ne, leb, length, arith, Bool-cases, leb-of_le,
}
use human_network.Cryptography.NodeSelection.{cum_sum, last, first_from, weighted_sample}

some_injective : (i n : ℕ) → some i ≡ some n → i ≡ n
some_injective i n e = cc

some_apart : (i n : ℕ) → i < n → some i ≢ some n
some_apart i n h e = omega (arith, some_injective i n e)

module _ {T : Type 0} (weight : T → ℕ) where
  unfoldable pub total : List T → ℕ
  total [] = 0
  total (x ∷ xs) = weight x + total xs

  last-cum_sum :
      (acc : ℕ) (x : T) (xs : List T)
      → last (cum_sum weight acc (x ∷ xs)) ≡ some (acc + total (x ∷ xs))
  unfolding last cum_sum total
  last-cum_sum acc x [] = ap some (omega arith)
  last-cum_sum acc x (y ∷ xs) = last-cum_sum (acc + weight x) y xs ∙ ap some (omega arith)

  -- A number up to the sum of the weights of the first nodes is found among them.
  first_from-append :
      (acc r : ℕ) (x : T) (xs ys : List T)
      → r ≤ acc + total (x ∷ xs)
      → (i : ℕ) × (first_from r (cum_sum weight acc (x ∷ (xs ++ ys))) ≡ some i)
        × (i < length (x ∷ xs))
  unfolding first_from cum_sum total
  first_from-append acc r x [] ys h =
      (0, rw (leb-of_le r (acc + weight x) (omega arith)) refl, omega arith)
  first_from-append acc r x (y ∷ xs) ys h = elim (Bool-cases (leb r (acc + weight x))) [
    | inl e ↦ (0, rw e refl, omega arith)
    | inr e ↦
        let (i, found, lt) = first_from-append (acc + weight x) r y xs ys (omega arith) in
        (suc i, rw (e, found) refl, omega arith)
  ]

  last-total : (x : T) (xs : List T) → last (cum_sum weight 0 (x ∷ xs)) ≡ some (total (x ∷ xs))
  last-total x xs = last-cum_sum 0 x xs ∙ ap some (omega arith)

  append_nil : (xs : List T) → xs ++ [] ≡ xs
  append_nil [] = refl
  append_nil (x ∷ xs) = ap (λ l. x ∷ l) (append_nil xs)

  total-append : (xs ys : List T) → total (xs ++ ys) ≡ total xs + total ys
  unfolding total
  total-append [] ys = omega arith
  total-append (x ∷ xs) ys = omega (arith, total-append xs ys)

  module _ {R : Type 0} (gen_range : R → ℕ → ℕ × R) where
    weighted_sample-none :
        (nodes : List T) (rng : R)
        → total nodes ≡ 0
        → (weighted_sample weight gen_range nodes rng).0 ≡ none
    unfolding weighted_sample last cum_sum
    weighted_sample-none [] rng h = refl
    weighted_sample-none (x ∷ xs) rng h = rw (last-total x xs, h) refl

    weighted_sample-first :
        (x : T) (xs : List T) (rng : R)
        → 0 < total (x ∷ xs)
        → (weighted_sample weight gen_range (x ∷ xs) rng).0
          ≡ first_from (gen_range rng (total (x ∷ xs))).0 (cum_sum weight 0 (x ∷ xs))
    unfolding weighted_sample
    weighted_sample-first x xs rng h =
        rw (last-total x xs, ==-of_ne (total (x ∷ xs)) 0 (λ e. omega arith)) refl

    -- When the generator draws below a positive bound, either the weights are all zero and
    -- `weighted_sample` returns nothing, or their sum is positive and it returns the index of a node.
    pub weighted_sample-total :
        (nodes : List T) (rng : R)
        → ((r : R) (n : ℕ) → 0 < n → (gen_range r n).0 < n)
        → ((total nodes ≡ 0) × ((weighted_sample weight gen_range nodes rng).0 ≡ none))
          ⊎ ((0 < total nodes)
              × (i : ℕ) × (i < length nodes)
              × ((weighted_sample weight gen_range nodes rng).0 ≡ some i))
    unfolding total
    weighted_sample-total [] rng h = inl (refl, weighted_sample-none [] rng refl)
    weighted_sample-total (x ∷ xs) rng h = elim (Bool-cases (leb (total (x ∷ xs)) 0)) [
      | inl e ↦ inl (ground arith, weighted_sample-none (x ∷ xs) rng (ground arith))
      | inr e ↦
          let below = h rng (total (x ∷ xs)) (ground arith) in
          let (i, found, lt) =
            first_from-append 0 (gen_range rng (total (x ∷ xs))).0 x xs [] (omega arith) in
          inr (
            ground arith,
            i,
            lt,
            weighted_sample-first x xs rng (ground arith)
                ∙ ap (λ l. first_from (gen_range rng (total (x ∷ xs))).0 (cum_sum weight 0 (x ∷ l)))
                    (sym (append_nil xs))
                ∙ found,
          )
    ]

    -- When the generator draws below a positive bound, `weighted_sample` never returns the last
    -- node if its weight is at most 1 and one of the nodes before it has a positive weight.
    pub weighted_sample-last :
        (node : T) (nodes : List T) (end : T) (rng : R)
        → ((r : R) (n : ℕ) → 0 < n → (gen_range r n).0 < n)
        → 0 < total (node ∷ nodes)
        → weight end ≤ 1
        → (weighted_sample weight gen_range (node ∷ (nodes ++ end ∷ [])) rng).0
          ≢ some (length (node ∷ nodes))
    unfolding total
    weighted_sample-last node nodes end rng h p w e =
        let all = nodes ++ end ∷ [] in
        let sum = total-append nodes (end ∷ []) in
        let below = h rng (total (node ∷ all)) (omega arith) in
        let (i, found, lt) =
          first_from-append 0 (gen_range rng (total (node ∷ all))).0 node nodes (end ∷ [])
            (omega arith) in
        let eq = sym found ∙ sym (weighted_sample-first node all rng (omega arith)) ∙ e in
        some_apart i (length (node ∷ nodes)) lt eq
