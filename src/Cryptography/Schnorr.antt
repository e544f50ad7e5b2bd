-- ===== src/Cryptography/Schnorr.antt =====
-- network/crates/cryptography/src/schnorrsig.rs, and the signed conditions of
-- network/crates/cryptography/src/encryption.rs. The nonce that `rand_vartime` draws and the hash are
-- arguments.
pub mod Signatures
use human_network.Prelude.{
  ℕ, ◌%◌, List, ◌++◌, Outcome, ok, err, panic, invalid_signature, ◌>>=◌, ◌>>◌, ensure,
}
use human_network.Field.{Field}
use human_network.Curve.{Curve}
use human_network.Cryptography.Dleq.{from_bytes_be}

pub record SchnorrSig (S P : Type 0) : Type 0 where
  pub point : P
  pub s : S

-- `Result::unwrap`
abbrev pub unwrap_result {ℓ} : {A : Type ℓ} → Outcome A → Outcome A
unwrap_result (ok a) = ok a
unwrap_result (err e) = panic
unwrap_result panic = panic

module _ {F S P : Type 0} ⦃k : Field F⦄ (c : Curve F S P) (hash512 : List ℕ → List ℕ) where
  -- The scalar of the hash over the nonce's point, the public key and the message.
  unfoldable pub schnorr_challenge : P → P → List ℕ → Outcome S
  unfolding from_bytes_be
  schnorr_challenge pubnonce pubkey msg = unwrap_result (
      c.from_biguint_vartime
        (from_bytes_be (hash512 (c.encode pubnonce ++ (c.encode pubkey ++ msg))) % c.field_modulus))

  unfoldable pub sign : S → S → List ℕ → Outcome (SchnorrSig S P)
  unfolding schnorr_challenge
  sign nonce secret msg = do
    let pubnonce = c.scalar_mul c.base_point_or_generator nonce
    let pubkey = c.scalar_mul c.base_point_or_generator secret
    h ← schnorr_challenge pubnonce pubkey msg
    ok (record { point = pubnonce; s = c.s_add nonce (c.s_mul secret h) })

  unfoldable pub verify : List ℕ → P → SchnorrSig S P → Outcome (Unit {0})
  unfolding schnorr_challenge
  verify msg pubkey sig = do
    h ← schnorr_challenge sig.point pubkey msg
    ensure
        (c.p_eq (c.scalar_mul c.base_point_or_generator sig.s)
          (c.add_self (c.scalar_mul pubkey h) sig.point))
        invalid_signature
    ok tt

  -- `ElGamalCiphertextWithSignedConditions`, the contract as its bytes.
  unfoldable pub get_contract_and_pubkey_if_valid :
      List ℕ → P → SchnorrSig S P → Outcome (List ℕ × P)
  unfolding verify
  get_contract_and_pubkey_if_valid contract ephemeral_dh_pubkey sig = do
    verify contract ephemeral_dh_pubkey sig
    ok (contract, ephemeral_dh_pubkey)
