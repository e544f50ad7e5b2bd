-- ===== src/Cryptography/Polynomial/Eval.antt =====
-- `Polynomial::eval`, the sum of the powers, against Horner's rule.
use mathlib.Core.List.{foldl}
use human_network.Prelude.{ℕ, suc, ◌≡◌, refl, sym, ap, ◌∙◌, ◌≡⟨◌⟩◌, ◌∎, List, [], ◌∷◌, length}
use human_network.Field.{Field, ◌⊕◌, ◌⊖◌, ◌⊗◌}
use human_network.Field.Laws.{
  add_assoc, add-zero, zero-add, mul-zero, mul-add, one-mul, mul_assoc, mul_left_comm, mul_comm,
  sub-add, ring,
}
use human_network.Cryptography.Polynomial.{Polynomial, terms, eval}

module _ {F : Type 0} ⦃k : Field F⦄ where
  -- c₀ + x (c₁ + x (c₂ + …))
  unfoldable pub horner : List F → F → F
  horner [] x = k.zero
  horner (c ∷ cs) x = c ⊕ x ⊗ horner cs x

  foldl-terms :
      (x acc : F) (i : ℕ) (cs : List F)
      → foldl ◌⊕◌ acc (terms x i cs) ≡ acc ⊕ k.pow x i ⊗ horner cs x
  unfolding horner terms
  foldl-terms x acc i [] = sym (ap (◌⊕◌ acc) (mul-zero (k.pow x i)) ∙ add-zero acc)
  foldl-terms x acc i (c ∷ cs) =
      foldl-terms x (acc ⊕ k.pow x i ⊗ c) (suc i) cs
      ∙ simp (k.pow-suc, mul-add, mul_assoc, mul_left_comm, mul_comm, add_assoc)

  pub eval-horner : (p : Polynomial F) (x : F) → eval p x ≡ horner p.coefficients x
  unfolding eval
  eval-horner p x = foldl-terms x k.zero 0 p.coefficients ∙ simp (k.pow-zero, zero-add, one-mul)

  -- The quotient of the division by x - a, without the remainder.
  unfoldable pub quotient : F → List F → List F
  quotient a [] = []
  quotient a (d ∷ ds) = horner (d ∷ ds) a ∷ quotient a ds

  pub length-quotient : (a : F) (ds : List F) → length (quotient a ds) ≡ length ds
  unfolding quotient
  length-quotient a [] = refl
  length-quotient a (d ∷ ds) = ap suc (length-quotient a ds)

  divide : (e a h x q : F) → (e ⊕ a) ⊗ h ⊕ x ⊗ (e ⊗ q) ≡ a ⊗ h ⊕ e ⊗ (h ⊕ x ⊗ q)
  divide e a h x q = simp ring

  mul-horner :
      (a x : F) (ds : List F)
      → x ⊗ horner ds x ≡ a ⊗ horner ds a ⊕ (x ⊖ a) ⊗ horner (quotient a ds) x
  unfolding horner quotient
  mul-horner a x [] = simp (mul-zero, add-zero)
  mul-horner a x (d ∷ ds) =
      let h = horner (d ∷ ds) a in
      let q = horner (quotient a ds) x in
      let e = x ⊖ a in
      let ih : horner (d ∷ ds) x ≡ h ⊕ e ⊗ q =
        ap (◌⊕◌ d) (mul-horner a x ds) ∙ sym (add_assoc d _ _) in
      x ⊗ horner (d ∷ ds) x
      ≡⟨ ap (◌⊗◌ x) ih ∙ mul-add x h (e ⊗ q) ⟩ x ⊗ h ⊕ x ⊗ (e ⊗ q)
      ≡⟨ ap (λ t. t ⊗ h ⊕ x ⊗ (e ⊗ q)) (sym (sub-add x a)) ⟩ (e ⊕ a) ⊗ h ⊕ x ⊗ (e ⊗ q)
      ≡⟨ divide e a h x q ⟩ a ⊗ h ⊕ e ⊗ (h ⊕ x ⊗ q) ∎

  -- Division with remainder by x - a.
  pub horner-quotient :
      (a x c : F) (ds : List F)
      → horner (c ∷ ds) x ≡ horner (c ∷ ds) a ⊕ (x ⊖ a) ⊗ horner (quotient a ds) x
  unfolding horner
  horner-quotient a x c ds = ap (◌⊕◌ c) (mul-horner a x ds) ∙ sym (add_assoc c _ _)
