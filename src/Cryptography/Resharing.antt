-- ===== src/Cryptography/Resharing.antt =====
-- network/crates/cryptography/src/resharing.rs: the old quorum hands its key to the new one. The
-- steps that dkg.rs and resharing.rs write in the same words are those of `Dkg`.
pub mod Key
pub mod Honest
use mathlib.Core.List.{foldl}
use human_network.Prelude.{
  ℕ, ◌-◌, ◌%◌, ◌&&◌, List, [], ◌∷◌, map, Outcome, ok, group_key_mismatch, ◌>>=◌, ◌>>◌, assert,
  ensure, ◌==◌, length, Assoc, insert, keys, values,
}
use human_network.Field.{Field, ◌⊕◌, ◌⊗◌}
use human_network.Curve.{Curve}
use human_network.Cryptography.Polynomial.{
  u32_mod, random_polynomials_with_secret, feldman_vss, lagrange_basis_at_0,
}
use human_network.Cryptography.Dkg.{
  Rsa, Node, Network, encrypt_share, all_committed, decrypt_all, verify_all, sum_commitments,
  lambdas, combine,
}

module _ {F S P Pk Sk : Type 0} ⦃k : Field F⦄ (c : Curve F S P) (rsa : Rsa Pk Sk) where
  module _ (to_repr : F → List ℕ) (from_bytes_be : List ℕ → ℕ) where
    -- Step 5: the loop over the public keys of the new quorum.
    unfoldable pub encrypt_new : Assoc F → Assoc Pk → Assoc (List ℕ) → Outcome (Assoc (List ℕ))
    encrypt_new y [] y_ct = ok y_ct
    encrypt_new y ((key, value) ∷ public_keys) y_ct = do
      ct ← encrypt_share c rsa to_repr from_bytes_be y key value
      encrypt_new y public_keys (insert key ct y_ct)

    unfoldable pub resharing_round_1 :
        Node Pk Sk F P → (ℕ → F) → Network Pk → Network Pk → Outcome (Assoc (List ℕ) × List P)
    unfolding encrypt_new
    resharing_round_1 node random t_star new_quorum = do
      let indices = map (λ key. key % u32_mod) (keys t_star.public_keys)
      lambda_i ← lagrange_basis_at_0 (node.id % u32_mod) indices
      let ai0 = node.private_share ⊗ lambda_i
      let fi = random_polynomials_with_secret random (new_quorum.threshold - 1) ai0
      (y, v) ← feldman_vss c fi new_quorum.public_keys new_quorum.threshold
      y_ct ← encrypt_new y new_quorum.public_keys []
      ok (y_ct, v)

    unfoldable pub resharing_round_2 :
        Node Pk Sk F P
        → Network Pk
        → Network Pk
        → Assoc (List ℕ)
        → Assoc (List P)
        → P
        → Outcome (F × P × P)
    resharing_round_2 node t_star new_quorum input_y input_v K_dkg = do
      assert ((length input_v == t_star.total_nodes) && (length input_y == t_star.total_nodes))
      assert (all_committed c rsa to_repr from_bytes_be new_quorum.threshold input_v)
      y ← decrypt_all c rsa to_repr from_bytes_be node.rsa_seckey input_y []
      verify_all c rsa to_repr from_bytes_be node.id y input_v y
      group ← sum_commitments c rsa to_repr from_bytes_be c.zero input_v
      ensure (c.p_eq group K_dkg) group_key_mismatch
      let ki = foldl ◌⊕◌ k.zero (values y)
      ok (ki, c.scalar_mul c.base_point_or_generator (c.into ki), group)

  unfoldable pub resharing_round_3 : Node Pk Sk F P → Network Pk → Assoc P → Outcome P
  resharing_round_3 node network Kj = do
    assert (length Kj == network.total_nodes)
    let indices = map (λ key. key % u32_mod) (keys network.public_keys)
    lambda ← lambdas c rsa indices network.public_keys []
    res ← combine c rsa Kj c.zero lambda
    assert (c.p_eq res node.network_pubkey)
    ok res
