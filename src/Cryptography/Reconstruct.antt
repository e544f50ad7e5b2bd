-- ===== src/Cryptography/Reconstruct.antt =====
-- network/crates/cryptography/src/reconstruct.rs: points are put together from the responses of the
-- nodes, additively or by their Lagrange coefficients.
pub mod Laws
pub mod Checked
use human_network.Prelude.{ℕ, List, [], ◌∷◌, Outcome, ok, ◌>>=◌}
use human_network.Field.{Field}
use human_network.Curve.{Curve}
use human_network.Cryptography.Polynomial.{lagrange_basis_at_0}
use human_network.Cryptography.Dleq.{DleqProof, verify_and_get_output}

module _ {F S P : Type 0} ⦃k : Field F⦄ (c : Curve F S P) where
  module _ (hash512 : List ℕ → List ℕ) where
    -- The loop over `responses.iter().zip(pubkeys.iter())`.
    additive_loop : P → P → List (DleqProof S P) → List P → Outcome P
    additive_loop point_to_multiply result (proof ∷ responses) (pk ∷ pubkeys) = do
      output ← verify_and_get_output c hash512 proof pk point_to_multiply
      additive_loop point_to_multiply (c.add_self result output) responses pubkeys
    additive_loop point_to_multiply result _ _ = ok result

    unfoldable pub additive : P → List (DleqProof S P) → List P → Outcome P
    unfolding additive_loop
    additive point_to_multiply responses pubkeys =
        additive_loop point_to_multiply c.zero responses pubkeys

    -- The loop over `izip!(responses, pubkeys, indices.clone())`.
    threshold_loop : P → List ℕ → P → List (DleqProof S P) → List P → List ℕ → Outcome P
    threshold_loop point_to_multiply all result (proof ∷ responses) (pk ∷ pubkeys) (i ∷ indices) =
        do
          output ← verify_and_get_output c hash512 proof pk point_to_multiply
          at_zero ← lagrange_basis_at_0 i all
          threshold_loop point_to_multiply all
              (c.add_self result (c.scalar_mul output (c.into at_zero))) responses pubkeys indices
    threshold_loop point_to_multiply all result _ _ _ = ok result

    unfoldable pub threshold : P → List (DleqProof S P) → List P → List ℕ → Outcome P
    unfolding threshold_loop
    threshold point_to_multiply responses pubkeys indices =
        threshold_loop point_to_multiply indices c.zero responses pubkeys indices

  unchecked_loop : List ℕ → P → List P → List ℕ → Outcome P
  unchecked_loop all result (point ∷ responses) (i ∷ indices) = do
    at_zero ← lagrange_basis_at_0 i all
    unchecked_loop all (c.add_self result (c.scalar_mul point (c.into at_zero))) responses indices
  unchecked_loop all result _ _ = ok result

  unfoldable pub threshold_unchecked : List P → List ℕ → Outcome P
  unfolding unchecked_loop
  threshold_unchecked responses indices = unchecked_loop indices c.zero responses indices
