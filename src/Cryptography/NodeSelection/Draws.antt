-- ===== src/Cryptography/NodeSelection/Draws.antt =====
-- The repeated draw by weight.
use mathlib.Core.List.{append-nil, append_assoc}
use human_network.Prelude.{
  ℕ, zero, suc, ◌≤◌, ◌<◌, ◌≡◌, refl, sym, ap, ◌∙◌, inl, inr, ◌||◌, List, [], ◌∷◌, ◌++◌, some, ok,
  length, get_elem?, remove, All, All-remove, get_elem-some, length-remove, arith, ltb, ◌==◌, false,
}
use human_network.Cryptography.NodeSelection.{
  weighted_sample, sample_loop, weighted_sample_n, weighted_sample_n_no_classic,
}
use human_network.Cryptography.NodeSelection.Sampling.{total, weighted_sample-total}

-- The elements of the second list, taken out of the first one after the other.
pub data Drawn {T : Type 0} : List T → List T → Type 0 where
  done : {xs : List T} → Drawn xs []
  draw :
      {xs ys : List T} (i : ℕ) (x : T)
      → get_elem? xs i ≡ some x
      → Drawn (remove xs i) ys
      → Drawn xs (x ∷ ys)

module _ {R T : Type 0} (weight : T → ℕ) (gen_range : R → ℕ → ℕ × R) (from_seed : List ℕ → R) where
  total-positive :
      (nodes : List T) → 0 < length nodes → All (λ x. 0 < weight x) nodes → 0 < total weight nodes
  unfolding total
  total-positive [] h ps = absurd (omega arith)
  total-positive (x ∷ xs) h (p, ps) = omega arith

  sample_loop-Drawn :
      ((r : R) (n : ℕ) → 0 < n → (gen_range r n).0 < n)
      → (n : ℕ) (nodes : List T) (rng : R) (result : List T) → n ≤ length nodes
      → All (λ x. 0 < weight x) nodes
      → (chosen : List T) × (sample_loop from_seed
            (λ nodes rng. ok (weighted_sample weight gen_range nodes rng))
            n
            nodes
            rng
            result
          ≡ ok (some (result ++ chosen)))
        × (length chosen ≡ n)
        × Drawn nodes chosen
  unfolding sample_loop
  sample_loop-Drawn g zero nodes rng result h ps =
      ([], ap (λ l. ok (some l)) (sym (append-nil result)), refl, done)
  sample_loop-Drawn g (suc n) nodes rng result h ps =
      elim (weighted_sample-total weight gen_range nodes rng g) [
        | inl e ↦ absurd (omega (arith, total-positive nodes (omega arith) ps, e.0))
        | inr s ↦
            let (some_weight, i, lt, picked) = s in
            let (x, found) = get_elem-some nodes i lt in
            let shorter = length-remove nodes i lt in
            let (chosen, run, len, drawn) =
              sample_loop-Drawn g n (remove nodes i) (weighted_sample weight gen_range nodes rng).1
                (result ++ x ∷ []) (omega arith) (All-remove (λ x. 0 < weight x) nodes i ps) in
            (
              x ∷ chosen,
              rw (picked, found)
                  (run ∙ ap (λ l. ok (some l)) (append_assoc result (x ∷ []) chosen)),
              ap suc len,
              draw i x found drawn,
            )
      ]

  -- When the generator draws below a positive bound and every node has a positive weight,
  -- `weighted_sample_n_no_classic` returns any positive number of nodes up to their own number, each
  -- taken out of those that were left.
  pub weighted_sample_n_no_classic-Drawn :
      (nodes : List T) (n : ℕ) (random_seed : List ℕ)
      → ((r : R) (n : ℕ) → 0 < n → (gen_range r n).0 < n)
      → 0 < n
      → n ≤ length nodes
      → All (λ x. 0 < weight x) nodes
      → (chosen : List T) × (weighted_sample_n_no_classic weight gen_range from_seed nodes n
            random_seed
          ≡ ok (some chosen))
        × (length chosen ≡ n)
        × Drawn nodes chosen
  unfolding weighted_sample_n_no_classic weighted_sample_n
  weighted_sample_n_no_classic-Drawn nodes n random_seed g p h ps =
      let (chosen, run, len, drawn) = sample_loop-Drawn g n nodes (from_seed random_seed) [] h ps in
      (chosen, rw (allowed (length nodes) n p h) run, len, drawn)
    where
      allowed : (l n : ℕ) → 0 < n → n ≤ l → ((l == 0) || (n == 0) || ltb l n) ≡ false
      allowed l n p h = ground arith
