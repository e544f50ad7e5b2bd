-- ===== src/Cryptography/Polynomial/Lagrange.antt =====
-- `lagrange_basis_at_0` as a product, and the weighted sums of values at indices that the
-- reconstruction and the rounds of the protocols form with it.
pub mod Neville
pub mod Interpolation
use human_network.Prelude.{
  ℕ, zero, suc, ◌<◌, ◌≡◌, ◌≢◌, refl, sym, ap, ◌∙◌, ◌⊎◌, inl, inr, List, [], ◌∷◌, Option, none, some,
  Outcome, ok, ◌==◌, if◌then◌else◌, ==-of_eq, ltb-of_lt, ==-of_ne, All, All-zip, All-map, arith,
  Bool-cases, eq-of_==, ne-of_==,
}
use human_network.Field.{Field, ◌⊕◌, ◌⊖◌, ◌⊗◌}
use human_network.Field.Laws.{
  recip, invert-recip, mul-recip, eq_of_sub, one-mul, mul_assoc, add-zero, zero-add, mul-zero, sums,
  products, ring,
}
use human_network.Cryptography.Polynomial.{lagrange_loop, lagrange_basis_at_0}

module _ {F : Type 0} (k : Field F) where
  -- Two indices that stay different as field elements.
  abbrev pub Apart : ℕ → ℕ → Type 0
  Apart i j = k.from_u128 i ≢ k.from_u128 j

  -- An index is apart from every one of a list.
  abbrev pub ApartFrom : ℕ → List ℕ → Type 0
  ApartFrom i js = All (Apart i) js

  abbrev pub PairwiseApart : List ℕ → Type 0
  PairwiseApart [] = Unit
  PairwiseApart (i ∷ is) = ApartFrom i is × PairwiseApart is

-- The numbers of a list are pairwise different.
abbrev pub Distinct : List ℕ → Type 0
Distinct [] = Unit
Distinct (i ∷ is) = All (λ j. i ≢ j) is × Distinct is

module _ {F : Type 0} (k : Field F) where
  -- The indices of the nodes: different, positive, and below the modulus.
  abbrev pub IsNodeSet : List ℕ → Type 0
  IsNodeSet is = Distinct is × All (λ i. (0 < i) × (i < k.order)) is

  apart-All :
      (i : ℕ) (js : List ℕ)
      → i < k.order
      → All (λ j. i ≢ j) js
      → All (λ j. (0 < j) × (j < k.order)) js
      → ApartFrom k i js
  apart-All i js hi =
      All-zip (λ j. i ≢ j) (λ j. (0 < j) × (j < k.order)) (Apart k i)
        (λ j ne hj e. ne (k.from_u128_injective i j hi hj.1 e)) js

  pub IsNodeSet-PairwiseApart : (is : List ℕ) → IsNodeSet is → PairwiseApart k is
  IsNodeSet-PairwiseApart [] h = tt
  IsNodeSet-PairwiseApart (i ∷ is) ((ne, d), (hi, hs)) =
      (apart-All i is hi.1 ne hs, IsNodeSet-PairwiseApart is (d, hs))

  -- The call of `lagrange_basis_at_0` for the index `p` neither panics nor divides by zero.
  abbrev pub IsReady : List ℕ → ℕ → Type 0
  IsReady js p = (0 < p) × All (λ j. (j ≡ p) ⊎ Apart k j p) js

  IsReady-cons :
      (a : ℕ) (is ps : List ℕ) → ApartFrom k a ps → All (IsReady is) ps → All (IsReady (a ∷ is)) ps
  IsReady-cons a is =
      All-zip (Apart k a) (IsReady is) (IsReady (a ∷ is)) (λ p ap r. (r.0, (inr ap, r.1)))

  pub PairwiseApart-IsReady :
      (is : List ℕ)
      → PairwiseApart k is
      → All (λ i. (0 < i) × (i < k.order)) is
      → All (IsReady is) is
  PairwiseApart-IsReady [] h hs = tt
  PairwiseApart-IsReady (a ∷ is) (ha, h) (hi, hs) = (
    (hi.0, (inl refl, All-map (Apart k a) _ (λ j e. inr (λ q. e (sym q))) is ha)),
    IsReady-cons a is is ha (PairwiseApart-IsReady is h hs),
  )

  pub IsNodeSet-IsReady : (is : List ℕ) → IsNodeSet is → All (IsReady is) is
  IsNodeSet-IsReady is h = PairwiseApart-IsReady is (IsNodeSet-PairwiseApart is h) h.1

module _ {F : Type 0} ⦃k : Field F⦄ where
  pub Apart-sym : (i j : ℕ) → Apart k i j → Apart k j i
  Apart-sym i j h e = h (sym e)

  pub Apart-sub : (i j : ℕ) → Apart k i j → k.from_u128 i ⊖ k.from_u128 j ≢ k.zero
  Apart-sub i j h e = h (eq_of_sub _ _ e)

  -- What the index `j` contributes to the basis of `i`.
  unfoldable pub factor : ℕ → ℕ → F
  factor i j = if j == i then k.one else k.from_u128 j ⊗ recip (k.from_u128 j ⊖ k.from_u128 i)

  pub factor_self : (i : ℕ) → factor i i ≡ k.one
  unfolding factor
  factor_self i = rw (==-of_eq i i refl)

  pub factor-Apart :
      (i j : ℕ) → Apart k j i → factor i j ≡ k.from_u128 j ⊗ recip (k.from_u128 j ⊖ k.from_u128 i)
  unfolding factor
  factor-Apart i j h = rw (==-of_ne j i (λ e. h (ap k.from_u128 e)))

  unfoldable pub basis : ℕ → List ℕ → F
  basis i [] = k.one
  basis i (j ∷ js) = factor i j ⊗ basis i js

  lagrange_loop-basis :
      (i : ℕ) (acc : F) (js : List ℕ)
      → All (λ j. (j ≡ i) ⊎ Apart k j i) js
      → lagrange_loop i (k.from_u128 i) acc js ≡ ok (acc ⊗ basis i js)
  unfolding lagrange_loop basis
  lagrange_loop-basis i acc [] h = ap ok (sym (simp products))
  lagrange_loop-basis i acc (j ∷ js) (inl e, h) =
      rw (==-of_eq j i e) (lagrange_loop-basis i acc js h ∙ ap ok (simp (e, factor_self, one-mul)))
  lagrange_loop-basis i acc (j ∷ js) (inr e, h) =
      rw (==-of_ne j i (λ p. e (ap k.from_u128 p)), invert-recip _ (Apart-sub j i e))
        (lagrange_loop-basis i (acc ⊗ k.from_u128 j ⊗ recip (k.from_u128 j ⊖ k.from_u128 i)) js h
          ∙ ap ok (simp (factor-Apart i j e, mul_assoc)))

  -- The code computes the product, and does not panic, where the indices are apart.
  pub lagrange_basis_at_0-basis :
      (i : ℕ) (js : List ℕ)
      → 0 < i
      → All (λ j. (j ≡ i) ⊎ Apart k j i) js
      → lagrange_basis_at_0 i js ≡ ok (basis i js)
  unfolding lagrange_basis_at_0
  lagrange_basis_at_0-basis zero js p h = absurd (omega arith)
  lagrange_basis_at_0-basis (suc i) js p h =
      rw (ltb-of_lt 0 (suc i) p, k.from_str_eq (suc i))
        (lagrange_loop-basis (suc i) k.one js h ∙ ap ok (one-mul _))

  -- Σ basis(p, xs) f(p), over the indices `ps`
  unfoldable pub weighted : List ℕ → List ℕ → (ℕ → F) → F
  weighted [] xs f = k.zero
  weighted (p ∷ ps) xs f = basis p xs ⊗ f p ⊕ weighted ps xs f

  pub weighted_congr :
      (ps xs : List ℕ) (f g : ℕ → F) → All (λ p. f p ≡ g p) ps → weighted ps xs f ≡ weighted ps xs g
  unfolding weighted
  weighted_congr [] xs f g h = refl
  weighted_congr (p ∷ ps) xs f g h = rw (h.0, weighted_congr ps xs f g h.1)

  pub weighted_linear :
      (ps xs : List ℕ) (s t : F) (f g : ℕ → F)
      → weighted ps xs (λ p. s ⊗ f p ⊕ t ⊗ g p) ≡ s ⊗ weighted ps xs f ⊕ t ⊗ weighted ps xs g
  unfolding weighted
  weighted_linear [] xs s t f g = sym (simp ring)
  weighted_linear (p ∷ ps) xs s t f g =
      rw (weighted_linear ps xs s t f g) (distribute (basis p xs) (f p) (g p) _ _)
    where
      distribute :
          (b x y u v : F)
          → b ⊗ (s ⊗ x ⊕ t ⊗ y) ⊕ (s ⊗ u ⊕ t ⊗ v) ≡ s ⊗ (b ⊗ x ⊕ u) ⊕ t ⊗ (b ⊗ y ⊕ v)
      distribute b x y u v = simp ring

  mul_rotate : (u v w : F) → u ⊗ v ⊗ w ≡ v ⊗ (u ⊗ w)
  mul_rotate u v w = simp products

  -- A further index multiplies every value by its factor.
  pub weighted_cons :
      (ps : List ℕ) (a : ℕ) (xs : List ℕ) (f : ℕ → F)
      → weighted ps (a ∷ xs) f ≡ weighted ps xs (λ p. factor p a ⊗ f p)
  unfolding weighted basis
  weighted_cons [] a xs f = refl
  weighted_cons (p ∷ ps) a xs f =
      rw (weighted_cons ps a xs f)
        (ap (λ t. t ⊕ weighted ps xs (λ q. factor q a ⊗ f q)) (mul_rotate _ _ _))
