-- ===== src/Cryptography/Polynomial/Vss/Shares.antt =====
-- `feldman_vss` returns the value of the polynomial at every key and a commitment to every
-- coefficient, and the two fit together under `verify_vss`.
use human_network.Prelude.{
  ℕ, zero, suc, ◌+◌, ◌<◌, ◌≤◌, ◌≡◌, ◌≢◌, refl, sym, ap, ap₂, ◌∙◌, List, [], ◌∷◌, ◌++◌, map, some,
  ok, panic, length, get_elem?, Assoc, keys, arith, All, length-append, or_insert-fresh,
  All-keys-snoc, All-zip, Option-cases, inl, inr,
}
use mathlib.Core.List.{append-nil, append_assoc}
use human_network.Field.{Field}
use human_network.Curve.{Curve}
use human_network.Cryptography.Polynomial.{
  Polynomial, from_coeffs, eval, commitments, evaluations, feldman_vss,
}
use human_network.Cryptography.Polynomial.Lagrange.{Distinct}
use human_network.Cryptography.Polynomial.Vss.{commit}

module _ {F : Type 0} ⦃k : Field F⦄ where
  -- The share of every key, in the order of the keys.
  abbrev pub shares {ℓ} : {T : Type ℓ} → Polynomial F → Assoc T → Assoc F
  shares poly [] = []
  shares poly ((key, value) ∷ set) = (key, eval poly (k.from_u128 key)) ∷ shares poly set

get-middle {ℓ} :
    {A : Type ℓ} (pre : List A) (d : A) (cs : List A)
    → get_elem? (pre ++ d ∷ cs) (length pre) ≡ some d
get-middle [] d cs = refl
get-middle (x ∷ pre) d cs = get-middle pre d cs

get_elem?-lt {ℓ} : {A : Type ℓ} (l : List A) (i : ℕ) (x : A) → get_elem? l i ≡ some x → i < length l
get_elem?-lt [] i x h = cc
get_elem?-lt (y ∷ l) zero x h = omega arith
get_elem?-lt (y ∷ l) (suc i) x h = omega (arith, get_elem?-lt l i x h)

module _ {F S P : Type 0} ⦃k : Field F⦄ (c : Curve F S P) where
  commitments-zero : (coeffs : List F) (j : ℕ) → commitments c coeffs zero j ≡ ok []
  unfolding commitments
  commitments-zero coeffs j = refl

  commitments-suc :
      (coeffs : List F) (t j : ℕ) (d : F) (v : List P)
      → get_elem? coeffs j ≡ some d
      → commitments c coeffs t (suc j) ≡ ok v
      → commitments c coeffs (suc t) j ≡ ok (commit c d ∷ v)
  unfolding commitments
  commitments-suc coeffs t j d v h n = rw (h, n) refl

  commitments-suffix :
      (pre coeffs : List F)
      → commitments c (pre ++ coeffs) (length coeffs) (length pre) ≡ ok (map (commit c) coeffs)
  commitments-suffix pre [] = commitments-zero (pre ++ []) (length pre)
  commitments-suffix pre (d ∷ coeffs) =
      let n : length (pre ++ d ∷ []) ≡ suc (length pre) =
        omega (arith, length-append pre (d ∷ [])) in
      commitments-suc (pre ++ d ∷ coeffs) (length coeffs) (length pre) d _ (get-middle pre d coeffs)
        (ap₂ (λ l i. commitments c l (length coeffs) i) (sym (append_assoc pre (d ∷ []) coeffs))
            (sym n)
          ∙ commitments-suffix (pre ++ d ∷ []) coeffs)

  evaluations-append {ℓ} :
      {T : Type ℓ} (poly : Polynomial F) (set : Assoc T) (y : Assoc F)
      → Distinct (keys set)
      → All (λ key. All (λ j. j ≢ key) (keys y)) (keys set)
      → evaluations c poly set y ≡ y ++ shares poly set
  unfolding evaluations
  evaluations-append poly [] y d h = sym (append-nil y)
  evaluations-append poly ((key, value) ∷ set) y (ne, d) (h, hs) =
      ap (evaluations c poly set) (or_insert-fresh key _ y h)
      ∙ evaluations-append poly set (y ++ (key, eval poly (k.from_u128 key)) ∷ []) d (
          All-zip (λ j. key ≢ j) (λ j. All (λ i. i ≢ j) (keys y)) _
            (λ j e f. All-keys-snoc (λ i. i ≢ j) y key (eval poly (k.from_u128 key)) f e) (keys set)
            ne hs)
      ∙ append_assoc y ((key, eval poly (k.from_u128 key)) ∷ []) (shares poly set)

  no_keys : (js : List ℕ) → All (λ key. All (λ j. j ≢ key) []) js
  no_keys [] = tt
  no_keys (j ∷ js) = (tt, no_keys js)

  -- Over a set of different keys, and for as many commitments as the polynomial has coefficients,
  -- `feldman_vss` returns the share of every key and the commitments to all coefficients in order.
  pub feldman_vss-shares {ℓ} :
      {T : Type ℓ} (coeffs : List F) (set : Assoc T)
      → Distinct (keys set)
      → feldman_vss c (from_coeffs coeffs) set (length coeffs)
        ≡ ok (shares (from_coeffs coeffs) set, map (commit c) coeffs)
  unfolding feldman_vss from_coeffs
  feldman_vss-shares coeffs set d = rw (commitments-suffix [] coeffs) (
      ap (λ y. ok (y, map (commit c) coeffs))
        (evaluations-append (from_coeffs coeffs) set [] d (no_keys (keys set))))

  commitments-short :
      (coeffs : List F) (t j : ℕ)
      → length coeffs < t + j
      → j ≤ length coeffs
      → commitments c coeffs t j ≡ panic
  unfolding commitments
  commitments-short coeffs zero j h n = absurd (omega arith)
  commitments-short coeffs (suc t) j h n = elim (Option-cases (get_elem? coeffs j)) [
    | inl missing ↦ rw missing refl
    | inr (d, found) ↦
        rw (found, commitments-short coeffs t (suc j) (omega arith) (get_elem?-lt coeffs j d found))
          refl
  ]

  -- For more commitments than the polynomial has coefficients the indexing panics.
  feldman_vss-panic {ℓ} :
      {T : Type ℓ} (coeffs : List F) (set : Assoc T) (t : ℕ)
      → length coeffs < t
      → feldman_vss c (from_coeffs coeffs) set t ≡ panic
  unfolding feldman_vss from_coeffs
  feldman_vss-panic coeffs set t h =
      rw (commitments-short coeffs t 0 (omega arith) (omega arith)) refl
