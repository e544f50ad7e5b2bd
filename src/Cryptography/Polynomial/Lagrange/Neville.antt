-- ===== src/Cryptography/Polynomial/Lagrange/Neville.antt =====
-- Neville's recursion at zero, in which a node is split off on either side, and the partition of
-- unity that it gives.
use human_network.Prelude.{ℕ, ◌≡◌, sym, ap, ◌∙◌, ◌≡⟨◌⟩◌, ◌∎, List, ◌∷◌, All-zip}
use human_network.Field.{Field, ◌⊕◌, ◌⊖◌, ◌⊗◌}
use human_network.Field.Laws.{
  recip, mul-recip, one-mul, mul-one, add-zero, zero-add, zero-mul, sub-add, add_right_cancel, sums,
  products, ring,
}
use human_network.Cryptography.Polynomial.Lagrange.{
  Apart, Apart-sym, Apart-sub, PairwiseApart, factor, factor_self, factor-Apart, basis, weighted,
  weighted_congr, weighted_linear, weighted_cons,
}

module _ {F : Type 0} ⦃k : Field F⦄ where
  -- The differences r of two numbers and r' of the same the other way round cancel.
  sub_swap : (a b : F) → (b ⊖ a) ⊕ (a ⊖ b) ≡ k.zero
  sub_swap a b =
      add_right_cancel _ _ a (
        regroup (b ⊖ a) (a ⊖ b) a ∙ ap (◌⊕◌ (a ⊖ b)) (sub-add b a) ∙ sub-add a b ∙ sym (zero-add a))
    where
      regroup : (x y z : F) → x ⊕ y ⊕ z ≡ y ⊕ (x ⊕ z)
      regroup x y z = simp sums

  -- With r R = 1, r' R' = 1 and r + r' = 0 the inverses cancel as well.
  inverses_cancel :
      (r r' R R' : F) → r ⊗ R ≡ k.one → r' ⊗ R' ≡ k.one → r ⊕ r' ≡ k.zero → R ⊕ R' ≡ k.zero
  inverses_cancel r r' R R' e e' z =
      R ⊕ R'
      ≡⟨ sym (ap (λ t. R ⊗ t ⊕ R') e' ∙ ap (λ t. t ⊕ R') (mul-one R)) ⟩ R ⊗ (r' ⊗ R') ⊕ R'
      ≡⟨ sym (ap (λ t. R ⊗ (r' ⊗ R') ⊕ R' ⊗ t) e ∙ ap (◌⊕◌ (R ⊗ (r' ⊗ R'))) (mul-one R')) ⟩
        R ⊗ (r' ⊗ R') ⊕ R' ⊗ (r ⊗ R)
      ≡⟨ regroup ⟩ (r ⊕ r') ⊗ (R ⊗ R')
      ≡⟨ ap (λ t. t ⊗ (R ⊗ R')) z ∙ zero-mul _ ⟩ k.zero ∎
    where
      regroup : R ⊗ (r' ⊗ R') ⊕ R' ⊗ (r ⊗ R) ≡ (r ⊕ r') ⊗ (R ⊗ R')
      regroup = simp ring

  -- Partial fractions: e and g are the differences to a third point.
  partial_fractions :
      (e g r A B R R' : F)
      → e ⊗ A ≡ k.one
      → g ⊗ B ≡ k.one
      → r ⊗ R ≡ k.one
      → R ⊕ R' ≡ k.zero
      → g ≡ r ⊕ e
      → A ⊗ B ≡ R ⊗ A ⊕ R' ⊗ B
  partial_fractions e g r A B R R' eA gB rR z h =
      let split : R ⊗ A ≡ A ⊗ B ⊕ R ⊗ B =
        R ⊗ A
        ≡⟨ sym (ap (λ t. R ⊗ A ⊗ t) gB ∙ mul-one _) ⟩ R ⊗ A ⊗ (g ⊗ B)
        ≡⟨ ap (λ t. R ⊗ A ⊗ (t ⊗ B)) h ⟩ R ⊗ A ⊗ ((r ⊕ e) ⊗ B)
        ≡⟨ (simp ring) ⟩ (r ⊗ R) ⊗ (A ⊗ B) ⊕ (e ⊗ A) ⊗ (R ⊗ B)
        ≡⟨ (rw (rR, eA)) ⟩ k.one ⊗ (A ⊗ B) ⊕ k.one ⊗ (R ⊗ B)
        ≡⟨ (rw (one-mul (A ⊗ B), one-mul (R ⊗ B))) ⟩ A ⊗ B ⊕ R ⊗ B ∎ in
      sym (
        R ⊗ A ⊕ R' ⊗ B
        ≡⟨ ap (λ t. t ⊕ R' ⊗ B) split ⟩ A ⊗ B ⊕ R ⊗ B ⊕ R' ⊗ B
        ≡⟨ (simp ring) ⟩ A ⊗ B ⊕ (R ⊕ R') ⊗ B
        ≡⟨ ap (λ t. A ⊗ B ⊕ t ⊗ B) z ⟩ A ⊗ B ⊕ k.zero ⊗ B
        ≡⟨ ap (◌⊕◌ (A ⊗ B)) (zero-mul B) ∙ add-zero _ ⟩ A ⊗ B ∎)

  sub_chain : (a b x : F) → b ⊖ x ≡ (b ⊖ a) ⊕ (a ⊖ x)
  sub_chain a b x =
      add_right_cancel _ _ x
        (sub-add b x ∙ sym (k.add_assoc _ _ x ∙ ap (◌⊕◌ (b ⊖ a)) (sub-add a x) ∙ sub-add b a))

  module _ (a b : ℕ) (ab : Apart k a b) where
    recips_cancel :
        recip (k.from_u128 b ⊖ k.from_u128 a) ⊕ recip (k.from_u128 a ⊖ k.from_u128 b) ≡ k.zero
    recips_cancel =
        inverses_cancel _ _ _ _ (mul-recip _ (Apart-sub b a (Apart-sym a b ab)))
          (mul-recip _ (Apart-sub a b ab)) (sub_swap _ _)

    pub factor-factor :
        (p : ℕ)
        → Apart k a p
        → Apart k b p
        → ◌≡◌ {A = F} (factor p a ⊗ factor p b) (factor a b ⊗ factor p a ⊕ factor b a ⊗ factor p b)
    factor-factor p pa pb =
        rw
          (
            factor-Apart p a pa,
            factor-Apart p b pb,
            factor-Apart a b (Apart-sym a b ab),
            factor-Apart b a ab,
          )
          (scale _ _ _ _ _ _ (
            partial_fractions _ _ _ _ _ _ _ (mul-recip _ (Apart-sub a p pa))
              (mul-recip _ (Apart-sub b p pb)) (mul-recip _ (Apart-sub b a (Apart-sym a b ab)))
              recips_cancel (sub_chain _ _ _)))
      where
        scale :
            (α β A B R R' : F)
            → A ⊗ B ≡ R ⊗ A ⊕ R' ⊗ B
            → ◌≡◌ {A = F} ((α ⊗ A) ⊗ (β ⊗ B)) ((β ⊗ R) ⊗ (α ⊗ A) ⊕ (α ⊗ R') ⊗ (β ⊗ B))
        scale α β A B R R' h =
            (α ⊗ A) ⊗ (β ⊗ B)
            ≡⟨ (simp products) ⟩ (α ⊗ β) ⊗ (A ⊗ B)
            ≡⟨ (rw h) ⟩ (α ⊗ β) ⊗ (R ⊗ A ⊕ R' ⊗ B)
            ≡⟨ (simp ring) ⟩ (β ⊗ R) ⊗ (α ⊗ A) ⊕ (α ⊗ R') ⊗ (β ⊗ B) ∎

    pub factors_unity : ◌≡◌ {A = F} (factor a b ⊕ factor b a) k.one
    factors_unity =
        rw (factor-Apart a b (Apart-sym a b ab), factor-Apart b a ab)
          (unity _ _ _ _ _ (sub-add _ _) (mul-recip _ (Apart-sub b a (Apart-sym a b ab)))
            recips_cancel)
      where
        unity :
            (α β r R R' : F) → r ⊕ α ≡ β → r ⊗ R ≡ k.one → R ⊕ R' ≡ k.zero → β ⊗ R ⊕ α ⊗ R' ≡ k.one
        unity α β r R R' h e z =
            β ⊗ R ⊕ α ⊗ R'
            ≡⟨ ap (λ t. t ⊗ R ⊕ α ⊗ R') (sym h) ⟩ (r ⊕ α) ⊗ R ⊕ α ⊗ R'
            ≡⟨ (simp ring) ⟩ r ⊗ R ⊕ α ⊗ (R ⊕ R')
            ≡⟨ (rw (e, z)) ⟩ k.one ⊕ α ⊗ k.zero
            ≡⟨ (simp ring) ⟩ k.one ∎

  -- The weighted sum over two or more nodes is a mean of the sums that leave one of two nodes out.
  pub neville :
      (a b : ℕ) (zs : List ℕ) (f : ℕ → F)
      → PairwiseApart k (a ∷ b ∷ zs)
      → weighted (a ∷ b ∷ zs) (a ∷ b ∷ zs) f
        ≡ factor a b ⊗ weighted (a ∷ zs) (a ∷ zs) f ⊕ factor b a ⊗ weighted (b ∷ zs) (b ∷ zs) f
  unfolding weighted basis
  neville a b zs f ((ab, az), (bz, z)) =
      rw (factor_self a, factor_self b, rest, weighted_cons zs a zs f, weighted_cons zs b zs f)
        (collect _ _ _ _ _ _ _ _)
    where
      step :
          (p : ℕ)
          → Apart k a p
          → Apart k b p
          → factor p b ⊗ (factor p a ⊗ f p)
            ≡ factor a b ⊗ (factor p a ⊗ f p) ⊕ factor b a ⊗ (factor p b ⊗ f p)
      step p pa pb = simp products (ap (λ t. f p ⊗ t) (factor-factor a b ab p pa pb) ∙ simp ring)

      rest :
          weighted zs (a ∷ b ∷ zs) f
          ≡ factor a b ⊗ weighted zs zs (λ p. factor p a ⊗ f p)
            ⊕ factor b a ⊗ weighted zs zs (λ p. factor p b ⊗ f p)
      rest =
          weighted_cons zs a (b ∷ zs) f
          ∙ weighted_cons zs b zs (λ p. factor p a ⊗ f p)
          ∙ weighted_congr zs zs _ _ (All-zip (Apart k a) (Apart k b) _ step zs az bz)
          ∙ weighted_linear zs zs (factor a b) (factor b a) (λ p. factor p a ⊗ f p)
              (λ p. factor p b ⊗ f p)

      collect :
          (u v ba bb fa fb wa wb : F)
          → k.one ⊗ (u ⊗ ba) ⊗ fa ⊕ (v ⊗ (k.one ⊗ bb) ⊗ fb ⊕ (u ⊗ wa ⊕ v ⊗ wb))
            ≡ u ⊗ (k.one ⊗ ba ⊗ fa ⊕ wa) ⊕ v ⊗ (k.one ⊗ bb ⊗ fb ⊕ wb)
      collect u v ba bb fa fb wa wb = simp ring
