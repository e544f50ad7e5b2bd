-- ===== src/Cryptography/Polynomial/Lagrange/Interpolation.antt =====
-- Interpolation at zero: the weighted sum of the values of a polynomial over at least as many nodes
-- as it has coefficients is its value at zero.
use human_network.Prelude.{
  ℕ, ◌≤◌, ◌≡◌, refl, sym, ap, ◌∙◌, fun_ext, ap₂, ◌≡⟨◌⟩◌, ◌∎, List, [], ◌∷◌, All-map, length, arith,
}
use human_network.Field.{Field, ◌⊕◌, ◌⊖◌, ◌⊗◌}
use human_network.Field.Laws.{
  mul-recip, one-mul, mul-one, add-zero, zero-add, zero-mul, mul-zero, sub-add, sub_of_add,
  add_right_cancel, sums, ring,
}
use human_network.Cryptography.Polynomial.{Polynomial, eval}
use human_network.Cryptography.Polynomial.Eval.{
  horner, eval-horner, quotient, length-quotient, horner-quotient,
}
use human_network.Cryptography.Polynomial.Lagrange.{
  mul-recip, Apart, Apart-sub, PairwiseApart, IsNodeSet, IsNodeSet-PairwiseApart, factor,
  factor_self, factor-Apart, basis, weighted, weighted_congr, weighted_linear, weighted_cons,
}
use human_network.Cryptography.Polynomial.Lagrange.Neville.{neville, factors_unity}

module _ {F : Type 0} ⦃k : Field F⦄ where
  -- The coefficients of the nodes add up to one.
  unity :
      (a : ℕ) (zs : List ℕ)
      → PairwiseApart k (a ∷ zs)
      → ◌≡◌ {A = F} (weighted (a ∷ zs) (a ∷ zs) (λ _. k.one)) k.one
  unity a [] h = unfold weighted basis in rw (factor_self a) (simp ring)
  unity a (b ∷ zs) ((ab, az), (bz, z)) =
      neville a b zs (λ _. k.one) ((ab, az), (bz, z))
      ∙ rw (unity a zs (az, z), unity b zs (bz, z)) (simp (mul-one) (factors_unity a b ab))

  -- A factor of x - a takes the node a away.
  factor-sub :
      (a p : ℕ) (y : F)
      → Apart k a p
      → factor p a ⊗ ((k.from_u128 p ⊖ k.from_u128 a) ⊗ y) ≡ k.neg (k.from_u128 a) ⊗ y
  factor-sub a p y h =
      rw (factor-Apart p a h)
        (cancel _ _ _ _ _ y (mul-recip _ (Apart-sub a p h)) (opposite _ _) (k.add-neg _))
    where
      opposite : (u v : F) → (u ⊖ v) ⊕ (v ⊖ u) ≡ k.zero
      opposite u v = add_right_cancel _ _ v (
          regroup (u ⊖ v) (v ⊖ u) v
          ∙ ap (◌⊕◌ (v ⊖ u)) (sub-add u v)
          ∙ sub-add v u
          ∙ sym (zero-add v))
        where
          regroup : (x y z : F) → x ⊕ y ⊕ z ≡ y ⊕ (x ⊕ z)
          regroup x y z = simp sums

      cancel :
          (α n R d e y : F)
          → d ⊗ R ≡ k.one
          → e ⊕ d ≡ k.zero
          → α ⊕ n ≡ k.zero
          → α ⊗ R ⊗ (e ⊗ y) ≡ n ⊗ y
      cancel α n R d e y dR ed αn = add_right_cancel _ _ (α ⊗ y) (
          α ⊗ R ⊗ (e ⊗ y) ⊕ α ⊗ y
          ≡⟨ ap (λ t. α ⊗ R ⊗ (e ⊗ y) ⊕ α ⊗ t) (sym (one-mul y)) ⟩ α ⊗ R ⊗ (e ⊗ y) ⊕ α ⊗ (k.one ⊗ y)
          ≡⟨ ap (λ t. α ⊗ R ⊗ (e ⊗ y) ⊕ α ⊗ (t ⊗ y)) (sym dR) ⟩ α ⊗ R ⊗ (e ⊗ y) ⊕ α ⊗ (d ⊗ R ⊗ y)
          ≡⟨ (simp ring) ⟩ (e ⊕ d) ⊗ (α ⊗ (R ⊗ y))
          ≡⟨ ap (λ t. t ⊗ (α ⊗ (R ⊗ y))) ed ∙ zero-mul _ ⟩ k.zero
          ≡⟨ sym (ap (λ t. t ⊗ y) αn ∙ zero-mul y) ⟩ (α ⊕ n) ⊗ y
          ≡⟨ (simp ring) ⟩ n ⊗ y ⊕ α ⊗ y ∎)

  weighted-zero : (ps xs : List ℕ) → ◌≡◌ {A = F} (weighted ps xs (λ _. k.zero)) k.zero
  unfolding weighted
  weighted-zero [] xs = refl
  weighted-zero (p ∷ ps) xs = rw (weighted-zero ps xs) (simp ring)

  weighted_sub :
      (a : ℕ) (ys : List ℕ) (g : ℕ → F)
      → PairwiseApart k (a ∷ ys)
      → weighted (a ∷ ys) (a ∷ ys) (λ p. (k.from_u128 p ⊖ k.from_u128 a) ⊗ g p)
        ≡ k.neg (k.from_u128 a) ⊗ weighted ys ys g
  unfolding weighted
  weighted_sub a ys g (ha, hy) =
      rw (sub_of_add (k.from_u128 a) (k.from_u128 a) k.zero (sym (zero-add _))) (
        simp (zero-mul, mul-zero, zero-add)
          (weighted_cons ys a ys (λ p. (k.from_u128 p ⊖ k.from_u128 a) ⊗ g p)
            ∙ weighted_congr ys ys _ _ (All-map (Apart k a) _ (λ p h. factor-sub a p (g p) h) ys ha)
            ∙ scaled))
    where
      scaled :
          weighted ys ys (λ p. k.neg (k.from_u128 a) ⊗ g p)
          ≡ k.neg (k.from_u128 a) ⊗ weighted ys ys g
      scaled =
          ap (weighted ys ys) {x = λ p. k.neg (k.from_u128 a) ⊗ g p} (
            fun_ext λ p. sym (ap (◌⊕◌ (k.neg (k.from_u128 a) ⊗ g p)) (zero-mul (g p)) ∙ add-zero _))
          ∙ weighted_linear ys ys (k.neg (k.from_u128 a)) k.zero g g
          ∙ simp (zero-mul, add-zero)

  pub weighted-horner :
      (xs : List ℕ) (cs : List F)
      → PairwiseApart k xs
      → length cs ≤ length xs
      → weighted xs xs (λ p. horner cs (k.from_u128 p)) ≡ horner cs k.zero
  weighted-horner xs [] h n = unfold horner in weighted-zero xs xs
  weighted-horner [] (c ∷ cs) h n = absurd (omega arith)
  weighted-horner (a ∷ ys) (c ∷ ds) (ha, hy) n =
      let fa = horner (c ∷ ds) (k.from_u128 a) in
      let g = λ (p : ℕ). horner (quotient (k.from_u128 a) ds) (k.from_u128 p) in
      let α = k.from_u128 a in
      let ih = weighted-horner ys (quotient α ds) hy (omega (arith, length-quotient α ds)) in
      ap (weighted (a ∷ ys) (a ∷ ys)) (
        fun_ext λ p.
          horner-quotient α (k.from_u128 p) c ds ∙ ap₂ ◌⊕◌ (sym (mul-one fa)) (sym (one-mul _)))
      ∙ weighted_linear (a ∷ ys) (a ∷ ys) fa k.one (λ _. k.one) (λ p. (k.from_u128 p ⊖ α) ⊗ g p)
      ∙ rw (unity a ys (ha, hy), weighted_sub a ys g (ha, hy), ih)
          (ap₂ ◌⊕◌ (mul-one fa) (
              one-mul _
              ∙ ap (λ t. t ⊗ horner (quotient α ds) k.zero)
                  (sym (k.sub_eq k.zero α ∙ zero-add (k.neg α))))
            ∙ sym (horner-quotient α k.zero c ds))

  -- Over at least as many nodes as the polynomial has coefficients the weighted sum of its values is
  -- its value at zero.
  pub weighted-eval :
      (is : List ℕ) (p : Polynomial F)
      → IsNodeSet k is
      → length p.coefficients ≤ length is
      → weighted is is (λ i. eval p (k.from_u128 i)) ≡ eval p k.zero
  weighted-eval is p h n =
      ap (weighted is is) (fun_ext λ i. eval-horner p (k.from_u128 i))
      ∙ weighted-horner is p.coefficients (IsNodeSet-PairwiseApart k is h) n
      ∙ sym (eval-horner p k.zero)

  -- The value at zero is the first coefficient.
  pub eval-zero :
      (p : Polynomial F) (c : F) (cs : List F) → p.coefficients ≡ c ∷ cs → eval p k.zero ≡ c
  unfolding horner
  eval-zero p c cs h =
      eval-horner p k.zero
      ∙ ap (λ l. horner l k.zero) h
      ∙ ap (◌⊕◌ c) (zero-mul (horner cs k.zero))
      ∙ add-zero c
