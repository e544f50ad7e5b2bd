-- ===== src/Cryptography/Polynomial/Vss.antt =====
-- Feldman's verifiable secret sharing: what `feldman_vss` distributes and what `verify_vss` accepts.
use human_network.Prelude.{
  ℕ, zero, suc, ◌+◌, ◌-◌, ◌*◌, ◌%◌, ◌^◌, ◌≤◌, ◌<◌, ◌≡◌, ◌≢◌, ◌↔◌, refl, sym, ap, ap₂, ◌∙◌, ◌≡⟨◌⟩◌,
  ◌∎, Bool, true, false, List, [], ◌∷◌, ◌++◌, map, Option, none, some, Outcome, ok, err, panic,
  ◌>>=◌, ok_injective, length, get_elem?, Assoc, keys, or_insert, arith, All, ==-of_ne,
}
pub mod Shares
use native.Mathlib.Nat.{
  mod-eq_of_lt, one-le-pow, pow-zero, pow-succ', mul-le-mul_left, mul_assoc as nat_mul_assoc,
}
use human_network.Field.{Field, ◌⊕◌, ◌⊖◌, ◌⊗◌}
use human_network.Field.Laws.{
  mul_assoc, mul_left_comm, mul_comm, from_u128-mul, from_u128-one, mul-zero, add-zero, mul-add,
  add_assoc, products, ring,
}
use human_network.Curve.{Curve}
use human_network.Curve.Laws.{act, act-add, act-mul}
use human_network.Cryptography.Polynomial.{
  Polynomial, from_coeffs, eval, u128_mod, commitments, evaluations, feldman_vss, verify_loop,
  verify_vss,
}
use human_network.Cryptography.Polynomial.Eval.{horner, eval-horner}
use human_network.Cryptography.Polynomial.Lagrange.{Distinct}

module _ {F : Type 0} ⦃k : Field F⦄ where
  -- The value that the powers of the index lead to when their products wrap.
  unfoldable pub wrapped : ℕ → ℕ → List F → F
  wrapped index exp [] = k.zero
  wrapped index exp (c ∷ cs) =
      let exp' = exp * index % u128_mod in k.from_u128 exp' ⊗ c ⊕ wrapped index exp' cs

  unfoldable pub wrapped_eval : ℕ → List F → F
  unfolding wrapped
  wrapped_eval index [] = k.zero
  wrapped_eval index (c ∷ cs) = c ⊕ wrapped index 1 cs

module _ {F S P : Type 0} ⦃k : Field F⦄ (c : Curve F S P) where
  -- The commitment to a coefficient.
  abbrev pub commit : F → P
  commit = act c c.base_point_or_generator

  verify_loop-wrapped :
      (index exp : ℕ) (x : F) (cs : List F)
      → verify_loop c index exp (commit x) (map commit cs) ≡ commit (x ⊕ wrapped index exp cs)
  unfolding verify_loop wrapped
  verify_loop-wrapped index exp x [] = ap commit (sym (add-zero x))
  verify_loop-wrapped index exp x (d ∷ cs) =
      let e = k.from_u128 (exp * index % u128_mod) in
      ap (λ t. verify_loop c index (exp * index % u128_mod) t (map commit cs))
        (ap (c.add_self (commit x))
            (sym (act-mul c c.base_point_or_generator d e) ∙ ap commit (mul_comm d e))
          ∙ sym (act-add c c.base_point_or_generator x (e ⊗ d)))
      ∙ verify_loop-wrapped index (exp * index % u128_mod) (x ⊕ e ⊗ d) cs
      ∙ ap commit (add_assoc x (e ⊗ d) _)

  -- For commitments to the coefficients of a polynomial, `verify_vss` accepts exactly the value that
  -- the wrapping powers lead to.
  pub verify_vss-wrapped :
      (index : ℕ) (share first : F) (coeffs : List F)
      → (verify_vss c index share (map commit (first ∷ coeffs)) ≡ ok true)
        ↔ (share ≡ wrapped_eval index (first ∷ coeffs))
  unfolding verify_vss wrapped_eval
  verify_vss-wrapped index share first coeffs = (
    (λ h.
        c.generator_injective _ _
          ((c.p_eq_iff _ _).0 (ok_injective h) ∙ verify_loop-wrapped index 1 first coeffs)),
    (λ h.
        ap ok ((c.p_eq_iff _ _).1 (ap commit h ∙ sym (verify_loop-wrapped index 1 first coeffs)))),
  )

no_wrap : (index exp n : ℕ) → exp * index ^ suc n < u128_mod → exp * index < u128_mod
no_wrap zero exp n h = omega arith
no_wrap (suc i) exp n h =
    let step = mul-le-mul_left (exp * suc i) (one-le-pow n (suc i) (omega arith)) in
    omega (arith, step, regroup exp (suc i) n)
  where
    regroup : (e x m : ℕ) → e * x ^ suc m ≡ e * x * x ^ m
    regroup e x m = rw (pow-succ' x m) (sym (nat_mul_assoc e x (x ^ m)))

module _ {F : Type 0} ⦃k : Field F⦄ where
  wrapped-exact :
      (index exp : ℕ) (cs : List F)
      → exp * index ^ length cs < u128_mod
      → wrapped index exp cs ≡ k.from_u128 exp ⊗ (k.from_u128 index ⊗ horner cs (k.from_u128 index))
  unfolding wrapped horner
  wrapped-exact index exp [] h = sym (simp products)
  wrapped-exact index exp (c ∷ cs) h =
      let x = k.from_u128 index in
      let e = exp * index % u128_mod in
      let exact : e ≡ exp * index = mod-eq_of_lt (no_wrap index exp (length cs) h) in
      ap₂ (λ a b. a ⊗ c ⊕ b) (ap k.from_u128 exact ∙ from_u128-mul exp index)
        (wrapped-exact index e cs (below exact)
          ∙ ap (λ t. t ⊗ (x ⊗ horner cs x)) (ap k.from_u128 exact ∙ from_u128-mul exp index))
      ∙ simp ring
    where
      below : {e : ℕ} → e ≡ exp * index → e * index ^ length cs < u128_mod
      below eq =
          rw (eq, nat_mul_assoc exp index (index ^ length cs), ← pow-succ' index (length cs)) h

  -- No power wraps as long as the highest one does not, and then the value is the polynomial's.
  pub wrapped_eval-exact :
      (index : ℕ) (first : F) (coeffs : List F)
      → index ^ length coeffs < u128_mod
      → wrapped_eval index (first ∷ coeffs)
        ≡ eval (from_coeffs (first ∷ coeffs)) (k.from_u128 index)
  unfolding wrapped_eval from_coeffs
  wrapped_eval-exact index first coeffs h =
      ap (◌⊕◌ first) (
        wrapped-exact index 1 coeffs (omega arith)
        ∙ ap (λ t. t ⊗ (k.from_u128 index ⊗ horner coeffs (k.from_u128 index))) from_u128-one
        ∙ k.one-mul _)
      ∙ sym (unfold horner in eval-horner (from_coeffs (first ∷ coeffs)) (k.from_u128 index))

module _ {F : Type 0} ⦃k : Field F⦄ where
  wrapped-dead :
      (index exp : ℕ) (cs : List F) → exp * index % u128_mod ≡ 0 → wrapped index exp cs ≡ k.zero
  unfolding wrapped
  wrapped-dead index exp [] h = refl
  wrapped-dead index exp (c ∷ cs) h =
      ap₂ (λ a b. a ⊗ c ⊕ b) (ap k.from_u128 h ∙ k.from_u128-zero)
        (wrapped-dead index (exp * index % u128_mod) cs
          (ap (λ t. t * index % u128_mod) h ∙ ap (λ t. t % u128_mod) {y = 0} (omega arith) ∙ refl))
      ∙ simp ring

  wrapped_eval_overflow :
      (index : ℕ) (first second : F) (coeffs : List F)
      → index < u128_mod
      → index * index % u128_mod ≡ 0
      → wrapped_eval index (first ∷ second ∷ coeffs) ≡ wrapped_eval index (first ∷ second ∷ [])
  unfolding wrapped_eval wrapped
  wrapped_eval_overflow index first second coeffs h w =
      ap (λ t. first ⊕ (k.from_u128 (1 * index % u128_mod) ⊗ second ⊕ t))
        (wrapped-dead index (1 * index % u128_mod) coeffs
          (ap (λ t. t * index % u128_mod) {y = index} (omega arith) ∙ w))

module _ {F S P : Type 0} ⦃k : Field F⦄ (c : Curve F S P) where
  -- Where the highest power of the index fits into 128 bits, `verify_vss` accepts exactly the value
  -- of the committed polynomial at the index.
  pub verify_vss-eval :
      (index : ℕ) (share first : F) (coeffs : List F)
      → index ^ length coeffs < u128_mod
      → (verify_vss c index share (map (commit c) (first ∷ coeffs)) ≡ ok true)
        ↔ (share ≡ eval (from_coeffs (first ∷ coeffs)) (k.from_u128 index))
  verify_vss-eval index share first coeffs h =
      let iff = verify_vss-wrapped c index share first coeffs in
      let exact = wrapped_eval-exact index first coeffs h in
      ((λ v. iff.0 v ∙ exact), (λ e. iff.1 (e ∙ sym exact)))

  -- Where the square of the index is a multiple of 2 ^ 128, every power from the second on wraps to
  -- zero: the check ignores all coefficients but the first two, whatever the polynomial is.
  pub verify_vss_overflow :
      (index : ℕ) (share first second : F) (coeffs : List F)
      → index < u128_mod
      → index * index % u128_mod ≡ 0
      → (verify_vss c index share (map (commit c) (first ∷ second ∷ coeffs)) ≡ ok true)
        ↔ (share ≡ eval (from_coeffs (first ∷ second ∷ [])) (k.from_u128 index))
  verify_vss_overflow index share first second coeffs h w =
      let iff = verify_vss-wrapped c index share first (second ∷ coeffs) in
      let dropped =
        wrapped_eval_overflow index first second coeffs h w
        ∙ wrapped_eval-exact index first (second ∷ [])
            (grind (arith, pow-succ' index 0, pow-zero index)) in
      ((λ v. iff.0 v ∙ dropped), (λ e. iff.1 (e ∙ sym dropped)))
