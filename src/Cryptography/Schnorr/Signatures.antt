-- ===== src/Cryptography/Schnorr/Signatures.antt =====
-- Which signatures are accepted.
use human_network.Prelude.{ℕ, ◌≡◌, refl, ap, subst, ◌∙◌, List, ok, >>=-eq-ok, ok_injective}
use human_network.Field.{Field}
use human_network.Curve.{Curve}
use human_network.Cryptography.Schnorr.{
  SchnorrSig, schnorr_challenge, sign, verify, get_contract_and_pubkey_if_valid,
}

module _ {F S P : Type 0} ⦃k : Field F⦄ (c : Curve F S P) (hash512 : List ℕ → List ℕ) where
  abbrev signature : S → S → S → SchnorrSig S P
  signature nonce secret h = record {
    point = c.scalar_mul c.base_point_or_generator nonce;
    s = c.s_add nonce (c.s_mul secret h);
  }

  verification_point :
      (nonce secret h : S)
      → c.scalar_mul c.base_point_or_generator (c.s_add nonce (c.s_mul secret h))
        ≡ c.add_self
            (c.scalar_mul (c.scalar_mul c.base_point_or_generator secret) h)
            (c.scalar_mul c.base_point_or_generator nonce)
  verification_point nonce secret h =
      c.scalar_mul-add c.base_point_or_generator nonce (c.s_mul secret h)
      ∙ ap (c.add_self (c.scalar_mul c.base_point_or_generator nonce))
          (c.scalar_mul-mul c.base_point_or_generator secret h)
      ∙ c.add_self_comm _ _

  sign-verify :
      (nonce secret h : S) (msg : List ℕ)
      → schnorr_challenge c hash512
          (c.scalar_mul c.base_point_or_generator nonce)
          (c.scalar_mul c.base_point_or_generator secret)
          msg
        ≡ ok h
      → verify c hash512 msg
          (c.scalar_mul c.base_point_or_generator secret)
          (signature nonce secret h)
        ≡ ok tt
  unfolding verify
  sign-verify nonce secret h msg e =
      rw (e, (c.p_eq_iff _ _).1 (verification_point nonce secret h)) refl

  -- A signature that `sign` made is accepted for the signer's public key, and the contract that it
  -- signs is returned with that key.
  pub get_contract_and_pubkey_if_valid-sign :
      (nonce secret : S) (contract : List ℕ) (sig : SchnorrSig S P)
      → sign c hash512 nonce secret contract ≡ ok sig
      → (verify c hash512 contract (c.scalar_mul c.base_point_or_generator secret) sig ≡ ok tt)
        × (get_contract_and_pubkey_if_valid c hash512 contract
              (c.scalar_mul c.base_point_or_generator secret)
              sig
            ≡ ok (contract, c.scalar_mul c.base_point_or_generator secret))
  unfolding sign get_contract_and_pubkey_if_valid
  get_contract_and_pubkey_if_valid-sign nonce secret contract sig made =
      let pubnonce = c.scalar_mul c.base_point_or_generator nonce in
      let pubkey = c.scalar_mul c.base_point_or_generator secret in
      let (h, e, made') =
        >>=-eq-ok (schnorr_challenge c hash512 pubnonce pubkey contract)
          (λ h. ok (signature nonce secret h)) made in
      let accepted =
        subst (λ g. verify c hash512 contract pubkey g ≡ ok tt) (ok_injective made')
          (sign-verify nonce secret h contract e) in
      (accepted, rw accepted refl)
