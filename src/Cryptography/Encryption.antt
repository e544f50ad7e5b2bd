-- ===== src/Cryptography/Encryption.antt =====
-- network/crates/cryptography/src/encryption.rs: messages are encrypted to the key of the network. The
-- functions are generic over the trait `MapCurve`, whose two maps between messages and points are
-- arguments, as is the negation of a point; the implementation for Baby Jubjub, a search over outside
-- curve operations, is not modelled.
pub mod Threshold
use human_network.Prelude.{ℕ, List, Outcome, ok, ◌>>=◌}
use human_network.Field.{Field}
use human_network.Curve.{Curve}
use human_network.Cryptography.Schnorr.{SchnorrSig, sign}

pub record ElGamalCiphertext (P : Type 0) : Type 0 where
  pub encrypted_msg : P
  pub ephemeral_dh_pubkey : P

module _ {F S P : Type 0} ⦃k : Field F⦄ (c : Curve F S P) where
  -- `koblitz_map` and the ephemeral secret, given or drawn
  unfoldable pub encrypt_elgamal :
      (List ℕ → Outcome P) → List ℕ → P → S → Outcome (ElGamalCiphertext P)
  encrypt_elgamal koblitz_map msg recipient_pubkey ephem_secret = do
    msg_as_point ← koblitz_map msg
    let ephemeral_dh_pubkey = c.scalar_mul c.base_point_or_generator ephem_secret
    let shared_secret_dh = c.scalar_mul recipient_pubkey ephem_secret
    ok (record {
      encrypted_msg = c.add_self shared_secret_dh msg_as_point;
      ephemeral_dh_pubkey = ephemeral_dh_pubkey;
    })

  -- `Neg::neg` and `reverse_koblitz`
  unfoldable pub decrypt_elgamal_from_shared_secret :
      (P → P) → (P → Outcome (List ℕ)) → ElGamalCiphertext P → P → Outcome (List ℕ)
  decrypt_elgamal_from_shared_secret neg reverse_koblitz ciphertext shared_secret =
      reverse_koblitz (c.add_self ciphertext.encrypted_msg (neg shared_secret))

  -- The ciphertext and the signature of the conditions' contract, under the nonce of `sign`.
  unfoldable pub encrypt_with_conditions :
      (List ℕ → List ℕ)
      → (List ℕ → Outcome P)
      → S
      → S
      → List ℕ
      → P
      → List ℕ
      → Outcome (ElGamalCiphertext P × SchnorrSig S P)
  unfolding encrypt_elgamal
  encrypt_with_conditions hash512 koblitz_map secret nonce msg recipient_pubkey
        conditions_contract =
      do
        ciphertext ← encrypt_elgamal koblitz_map msg recipient_pubkey secret
        signed ← sign c hash512 nonce secret conditions_contract
        ok (ciphertext, signed)
