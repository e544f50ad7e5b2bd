-- ===== src/Cryptography/Polynomial.antt =====
-- network/crates/cryptography/src/polynomial.rs. What `F::random` draws and what the hash and the
-- seeded generator return are arguments; a `u128` product wraps, as in a release build.
pub mod Eval
pub mod Seed
pub mod Vss
pub mod Lagrange
use mathlib.Core.List.{foldl}
use human_network.Prelude.{
  ℕ, zero, suc, ◌+◌, ◌-◌, ◌*◌, ◌%◌, ◌^◌, Bool, not, List, [], ◌∷◌, ◌++◌, Outcome, ok, err, panic,
  invalid_input, ◌>>=◌, ◌>>◌, assert, unwrap, ltb, ◌==◌, if◌then◌else◌, length, get_elem?, Assoc,
  or_insert,
}
use human_network.Field.{Field, ◌⊕◌, ◌⊖◌, ◌⊗◌}
use human_network.Curve.{Curve}

pub record Polynomial (F : Type 0) : Type 0 where
  pub coefficients : List F

abbrev pub u128_mod : ℕ
u128_mod = 2 ^ 128

abbrev pub u32_mod : ℕ
u32_mod = 2 ^ 32

-- `(0..n).map(draw).collect()`
abbrev pub tabulate {ℓ} : {A : Type ℓ} → ℕ → (ℕ → A) → List A
tabulate zero f = []
tabulate (suc n) f = f 0 ∷ tabulate n (λ i. f (suc i))

-- `<[u8; 32]>::try_from(slice)`
abbrev try_into_32 : List ℕ → Outcome (List ℕ)
try_into_32 bytes = if length bytes == 32 then ok bytes else err invalid_input

module _ {F : Type 0} where
  unfoldable pub from_coeffs : List F → Polynomial F
  from_coeffs coeffs = record { coefficients = coeffs }

  unfoldable pub random_polynomial : (ℕ → F) → ℕ → Polynomial F
  random_polynomial random degree = record { coefficients = tabulate (degree + 1) random }

  -- `coeffs[0] = secret`
  abbrev set_first : F → List F → List F
  set_first s [] = []
  set_first s (c ∷ cs) = s ∷ cs

  unfoldable pub random_polynomials_with_secret : (ℕ → F) → ℕ → F → Polynomial F
  random_polynomials_with_secret random degree secret = record {
    coefficients = set_first secret (tabulate (suc degree) random);
  }

  -- The loop of `from_seed`, with `blake2b512` for the hash and `prg` for the first field element
  -- that `StdRng::from_seed` leads to. The number of turns is a `usize`, which wraps.
  seed_loop : (List ℕ → List ℕ) → (List ℕ → F) → ℕ → List ℕ → List F → Outcome (List F)
  seed_loop blake2b512 prg zero recent coeffs = ok coeffs
  seed_loop blake2b512 prg (suc n) recent coeffs = try_into_32 (blake2b512 recent) >>= λ recent'.
      seed_loop blake2b512 prg n recent' (coeffs ++ prg recent' ∷ [])

  unfoldable pub from_seed : (List ℕ → List ℕ) → (List ℕ → F) → List ℕ → ℕ → Outcome (Polynomial F)
  unfolding seed_loop
  from_seed blake2b512 prg seed degree = do
    assert (length seed == 32)
    coeffs ← seed_loop blake2b512 prg ((degree + 1) % 2 ^ 64) seed []
    ok (record { coefficients = coeffs })

  -- `self.coefficients.len() - 1`; with no coefficient the subtraction wraps.
  unfoldable pub deg : Polynomial F → ℕ
  deg p = (length p.coefficients + (2 ^ 64 - 1)) % 2 ^ 64

module _ {F : Type 0} ⦃k : Field F⦄ where
  -- The terms that `eval` sums, from the exponent `i` on.
  terms : F → ℕ → List F → List F
  terms x i [] = []
  terms x i (coeff ∷ coeffs) = k.pow x i ⊗ coeff ∷ terms x (suc i) coeffs

  unfoldable pub eval : Polynomial F → F → F
  unfolding terms
  eval p x = foldl ◌⊕◌ k.zero (terms x 0 p.coefficients)

  abbrev zip_add : List F → List F → List F
  zip_add (a ∷ as') (b ∷ bs) = (b ⊕ a) ∷ zip_add as' bs
  zip_add _ _ = []

  unfoldable pub add_same_deg : Polynomial F → Polynomial F → Outcome (Polynomial F)
  unfolding deg
  add_same_deg p q = do
    assert (deg p == deg q)
    ok (record { coefficients = zip_add p.coefficients q.coefficients })

  -- `for j in indices`, where `i_` is the field element of the index `i`.
  lagrange_loop : ℕ → F → F → List ℕ → Outcome F
  lagrange_loop i i_ acc [] = ok acc
  lagrange_loop i i_ acc (j ∷ js) =
      let rest = λ (inverse : F). lagrange_loop i i_ (acc ⊗ k.from_u128 j ⊗ inverse) js in
      let skip = lagrange_loop i i_ acc js in
      if not (j == i) then unwrap (k.invert (k.from_u128 j ⊖ i_)) >>= rest else skip

  unfoldable pub lagrange_basis_at_0 : ℕ → List ℕ → Outcome F
  unfolding lagrange_loop
  lagrange_basis_at_0 i indices = do
    assert (ltb 0 i)
    i_ ← unwrap (k.from_str_vartime i)
    lagrange_loop i i_ k.one indices

module _ {F S P : Type 0} ⦃k : Field F⦄ (c : Curve F S P) where
  -- The commitments to the coefficients `j`, `j + 1`, …, as many as `t`.
  commitments : List F → ℕ → ℕ → Outcome (List P)
  commitments coeffs zero j = ok []
  commitments coeffs (suc t) j = do
    coeff ← unwrap (get_elem? coeffs j)
    v ← commitments coeffs t (suc j)
    ok (c.scalar_mul c.base_point_or_generator (c.into coeff) ∷ v)

  -- The shares, entered one by one for the keys of the set.
  evaluations {ℓ} : {T : Type ℓ} → Polynomial F → Assoc T → Assoc F → Assoc F
  unfolding eval
  evaluations poly [] y = y
  evaluations poly ((key, value) ∷ set) y =
      evaluations poly set (or_insert key (eval poly (k.from_u128 key)) y)

  unfoldable pub feldman_vss {ℓ} :
      {T : Type ℓ} → Polynomial F → Assoc T → ℕ → Outcome (Assoc F × List P)
  unfolding evaluations commitments
  feldman_vss poly set t = do v ← commitments poly.coefficients t 0; ok (evaluations poly set [], v)

  -- `for i in cop`: `exp *= index` on `u128`.
  verify_loop : ℕ → ℕ → P → List P → P
  verify_loop index exp accum [] = accum
  verify_loop index exp accum (i ∷ cop) =
      let exp' = exp * index % u128_mod in
      verify_loop index exp' (c.add_self accum (c.scalar_mul i (c.into (k.from_u128 exp')))) cop

  unfoldable pub verify_vss : ℕ → F → List P → Outcome Bool
  unfolding verify_loop
  verify_vss index share [] = panic
  verify_vss index share (check ∷ checks) = ok (
      c.p_eq (c.scalar_mul c.base_point_or_generator (c.into share))
        (verify_loop index 1 check checks))
