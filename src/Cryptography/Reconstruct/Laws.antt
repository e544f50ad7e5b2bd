-- ===== src/Cryptography/Reconstruct/Laws.antt =====
-- The reconstructed point is the secret times the point that was sent.
use human_network.Prelude.{
  ℕ, zero, suc, ◌≤◌, ◌<◌, ◌⊎◌, inl, ◌≡◌, refl, sym, ap, ◌∙◌, List, [], ◌∷◌, map, ok, length, All,
}
use human_network.Field.{Field, ◌⊗◌}
use human_network.Field.Laws.{mul_comm, one-mul}
use human_network.Curve.{Curve}
use human_network.Curve.Laws.{act, act-add, act-mul, add_self-zero}
use human_network.Cryptography.Polynomial.{from_coeffs, eval}
use human_network.Cryptography.Polynomial.Lagrange.{
  IsNodeSet, IsReady, IsNodeSet-IsReady, Apart, factor_self, basis, weighted,
  lagrange_basis_at_0-basis,
}
use human_network.Cryptography.Polynomial.Lagrange.Interpolation.{weighted-eval, eval-zero}
use human_network.Cryptography.Dleq.{DleqProof, prove}
use human_network.Cryptography.Dleq.Laws.{verify-prove}
use human_network.Cryptography.Reconstruct.{
  threshold_loop, threshold, unchecked_loop, threshold_unchecked,
}

-- A value, `n` times.
abbrev pub copies {ℓ} : {A : Type ℓ} → ℕ → A → List A
copies zero x = []
copies (suc n) x = x ∷ copies n x

module _ {F S P : Type 0} ⦃k : Field F⦄ (c : Curve F S P) where
  -- The multiple by a weighted sum, with a node's term split off.
  pub act-weighted :
      (q : P) (p : ℕ) (ps all : List ℕ) (f : ℕ → F) (result : P)
      → c.add_self
          (c.add_self result (c.scalar_mul (act c q (f p)) (c.into (basis p all))))
          (act c q (weighted ps all f))
        ≡ c.add_self result (act c q (weighted (p ∷ ps) all f))
  unfolding weighted
  act-weighted q p ps all f result =
      c.add_self_assoc result _ _
      ∙ ap (c.add_self result) (
          ap (λ t. c.add_self t (act c q (weighted ps all f)))
            (sym (act-mul c q (f p) (basis p all)) ∙ ap (act c q) (mul_comm (f p) (basis p all)))
          ∙ sym (act-add c q (basis p all ⊗ f p) (weighted ps all f)))

  unchecked_loop-weighted :
      (all ps : List ℕ) (q : P) (f : ℕ → F) (result : P)
      → All (IsReady k all) ps
      → unchecked_loop c all result (map (λ i. act c q (f i)) ps) ps
        ≡ ok (c.add_self result (act c q (weighted ps all f)))
  unfolding unchecked_loop weighted
  unchecked_loop-weighted all [] q f result h =
      ap ok (sym (ap (c.add_self result) (c.scalar_mul-zero q) ∙ add_self-zero c result))
  unchecked_loop-weighted all (p ∷ ps) q f result (h, hs) =
      rw (lagrange_basis_at_0-basis p all h.0 h.1) (
        unchecked_loop-weighted all ps q f
          (c.add_self result (c.scalar_mul (act c q (f p)) (c.into (basis p all)))) hs
        ∙ ap ok (act-weighted q p ps all f result))

  -- From the responses of at least as many nodes as the polynomial has coefficients, each of which
  -- multiplied the point by its share, `threshold_unchecked` returns the secret times the point.
  pub threshold_unchecked-shares :
      (point : P) (secret : F) (coeffs : List F) (indices : List ℕ)
      → IsNodeSet k indices
      → suc (length coeffs) ≤ length indices
      → threshold_unchecked c
          (map (λ i. act c point (eval (from_coeffs (secret ∷ coeffs)) (k.from_u128 i))) indices)
          indices
        ≡ ok (act c point secret)
  unfolding threshold_unchecked from_coeffs
  threshold_unchecked-shares point secret coeffs indices h n =
      unchecked_loop-weighted indices indices point _ c.zero (IsNodeSet-IsReady k indices h)
      ∙ ap ok (
          c.zero-add_self _
          ∙ ap (act c point) (
              weighted-eval indices (from_coeffs (secret ∷ coeffs)) h n
              ∙ eval-zero (from_coeffs (secret ∷ coeffs)) secret coeffs refl))

  -- The sum of a point and `n` copies of another.
  abbrev pub add_times : ℕ → P → P → P
  add_times zero p q = p
  add_times (suc n) p q = add_times n (c.add_self p q) q

  basis-copies : (i n : ℕ) → basis i (copies n i) ≡ k.one
  unfolding basis
  basis-copies i zero = refl
  basis-copies i (suc n) = rw (factor_self i, basis-copies i n) (one-mul k.one)

  IsReady-copies : (i n : ℕ) → All (λ j. (j ≡ i) ⊎ Apart k j i) (copies n i)
  IsReady-copies i zero = tt
  IsReady-copies i (suc n) = (inl refl, IsReady-copies i n)

  unchecked_loop-copies :
      (i all n : ℕ) (q result : P)
      → 0 < i
      → unchecked_loop c (copies all i) result (copies n q) (copies n i) ≡ ok (add_times n result q)
  unfolding unchecked_loop
  unchecked_loop-copies i all zero q result h = refl
  unchecked_loop-copies i all (suc n) q result h =
      rw
        (
          lagrange_basis_at_0-basis i (copies all i) h (IsReady-copies i all),
          basis-copies i all,
          c.scalar_mul-one q,
        )
        (unchecked_loop-copies i all n q (c.add_self result q) h)

  -- A response that is given `n` times under the same index is added `n` times.
  pub threshold_unchecked-copies :
      (i n : ℕ) (q : P)
      → 0 < i
      → threshold_unchecked c (copies n q) (copies n i) ≡ ok (add_times n c.zero q)
  unfolding threshold_unchecked
  threshold_unchecked-copies i n q h = unchecked_loop-copies i n n q c.zero h

  module _ (hash512 : List ℕ → List ℕ) where
    threshold_loop-weighted :
        (all ps : List ℕ) (q : P) (f : ℕ → F) (nonce : ℕ → S) (proof : ℕ → DleqProof S P)
        (result : P)
        → All (IsReady k all) ps
        → All (λ i. prove c hash512 (nonce i) q (c.into (f i)) ≡ ok (proof i)) ps
        → threshold_loop c hash512 q all result
            (map proof ps)
            (map (λ i. act c c.base_point_or_generator (f i)) ps)
            ps
          ≡ ok (c.add_self result (act c q (weighted ps all f)))
    unfolding threshold_loop weighted
    threshold_loop-weighted all [] q f nonce proof result h hp =
        ap ok (sym (ap (c.add_self result) (c.scalar_mul-zero q) ∙ add_self-zero c result))
    threshold_loop-weighted all (p ∷ ps) q f nonce proof result (h, hs) (hp, hps) =
        rw
          (
            verify-prove c hash512 (nonce p) q (c.into (f p)) hp,
            lagrange_basis_at_0-basis p all h.0 h.1,
          )
          (threshold_loop-weighted all ps q f nonce proof
              (c.add_self result (c.scalar_mul (act c q (f p)) (c.into (basis p all)))) hs hps
            ∙ ap ok (act-weighted q p ps all f result))

    -- From honest proofs of at least as many nodes as the polynomial has coefficients, and the public
    -- shares of these nodes, `threshold` returns the secret times the point.
    pub threshold-shares :
        (point : P) (secret : F) (coeffs : List F) (indices : List ℕ) (nonce : ℕ → S)
        (proof : ℕ → DleqProof S P)
        → IsNodeSet k indices
        → suc (length coeffs) ≤ length indices
        → All
            (λ i.
              prove c hash512
                (nonce i)
                point
                (c.into (eval (from_coeffs (secret ∷ coeffs)) (k.from_u128 i)))
              ≡ ok (proof i))
            indices
        → threshold c hash512 point
            (map proof indices)
            (map
              (λ i.
                act c c.base_point_or_generator
                  (eval (from_coeffs (secret ∷ coeffs)) (k.from_u128 i)))
              indices)
            indices
          ≡ ok (act c point secret)
    unfolding threshold from_coeffs
    threshold-shares point secret coeffs indices nonce proof h n hp =
        threshold_loop-weighted indices indices point _ nonce proof c.zero
          (IsNodeSet-IsReady k indices h) hp
        ∙ ap ok (
            c.zero-add_self _
            ∙ ap (act c point) (
                weighted-eval indices (from_coeffs (secret ∷ coeffs)) h n
                ∙ eval-zero (from_coeffs (secret ∷ coeffs)) secret coeffs refl))
