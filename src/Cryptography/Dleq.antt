-- ===== src/Cryptography/Dleq.antt =====
-- `DLEQProof` and the oblivious evaluation of network/crates/cryptography/src/lib.rs. The hash
-- functions, the key derivation of `argon2` and the draws of `rand_vartime` are arguments.
pub mod Laws
pub mod Oprf
use mathlib.Core.List.{foldl}
use human_network.Prelude.{
  ℕ, ◌+◌, ◌*◌, ◌%◌, Bool, ◌&&◌, List, [], ◌∷◌, ◌++◌, Option, none, some, Outcome, ok, err, ◌>>=◌,
  ◌>>◌, ok_or, ensure, invalid_input, invalid_dleq_proof, if◌then◌else◌, take,
}
use human_network.Field.{Field}
use human_network.Curve.{Curve}

-- The prover's public values, its two commitments, the challenge and the response.
pub record DleqProof (S P : Type 0) : Type 0 where
  pub input_point : P
  pub pubkey : P
  pub output_point : P
  pub r_pub : P
  pub r_in : P
  pub challenge : S
  pub response : S

-- `BigUint::from_bytes_be`
unfoldable pub from_bytes_be : List ℕ → ℕ
from_bytes_be bytes = foldl (λ acc byte. acc * 256 + byte) 0 bytes

-- `local_kdf`, with `sha3_256` for `hash256` and the two calls of `argon2`.
unfoldable pub local_kdf :
    (List ℕ → List ℕ)
    → (List ℕ → Option (List ℕ))
    → (List ℕ → List ℕ → Option (List ℕ))
    → List ℕ
    → List ℕ
    → Outcome (List ℕ)
local_kdf sha3_256 encode_b64 hash_password username password = do
  let salt = take 16 (sha3_256 username)
  salt_string ← ok_or invalid_input (encode_b64 salt)
  ok_or invalid_input (hash_password password salt_string)

module _ {F S P : Type 0} ⦃k : Field F⦄ (c : Curve F S P) (hash512 : List ℕ → List ℕ) where
  concat_encoded : List P → List ℕ
  concat_encoded [] = []
  concat_encoded (pt ∷ pts) = c.encode pt ++ concat_encoded pts

  unfoldable pub challenge_hash : P → P → P → P → P → Outcome S
  unfolding concat_encoded from_bytes_be
  challenge_hash input_point pubkey output_point r_pub r_in =
      let concatted =
        concat_encoded
          (c.base_point_or_generator ∷ input_point ∷ pubkey ∷ output_point ∷ r_pub ∷ r_in ∷ []) in
      let digest_modn = from_bytes_be (hash512 concatted) % c.field_modulus in
      c.from_biguint_vartime digest_modn

  -- `DLEQProof::new`, for the nonce `r`.
  unfoldable pub prove : S → P → S → Outcome (DleqProof S P)
  prove r input_point secret_key = do
    let pubkey = c.scalar_mul c.base_point_or_generator secret_key
    let output_point = c.scalar_mul input_point secret_key
    let r_pub = c.scalar_mul c.base_point_or_generator r
    let r_in = c.scalar_mul input_point r
    challenge ← challenge_hash input_point pubkey output_point r_pub r_in
    let response = c.s_sub r (c.s_mul challenge secret_key)
    ok (record {
      input_point = input_point;
      pubkey = pubkey;
      output_point = output_point;
      r_pub = r_pub;
      r_in = r_in;
      challenge = challenge;
      response = response;
    })

  -- The points that the verifier computes in place of the commitments.
  abbrev pub should_be_r_a : DleqProof S P → P
  should_be_r_a proof =
      c.add_self (c.scalar_mul c.base_point_or_generator proof.response)
        (c.scalar_mul proof.pubkey proof.challenge)

  abbrev pub should_be_r_b : DleqProof S P → P
  should_be_r_b proof =
      c.add_self (c.scalar_mul proof.input_point proof.response)
        (c.scalar_mul proof.output_point proof.challenge)

  unfoldable pub verify_and_get_output : DleqProof S P → P → P → Outcome P
  verify_and_get_output proof pubkey point_to_multiply = do
    should_be_challenge ←
        challenge_hash point_to_multiply proof.pubkey proof.output_point (should_be_r_a proof)
          (should_be_r_b proof)
    ensure
        (c.s_eq should_be_challenge proof.challenge
          && (c.p_eq proof.input_point point_to_multiply && c.p_eq proof.pubkey pubkey))
        invalid_dleq_proof
    ok proof.output_point

  -- The server's side: the client's point is decoded and multiplied, with a proof.
  unfoldable pub server : S → S → List ℕ → Outcome (DleqProof S P)
  unfolding prove
  server r server_secret oprf_client_masked = do
    as_pt ← c.from_encoded oprf_client_masked
    prove r as_pt server_secret

  -- The client's first message and its mask; `kdf` is the result of `local_kdf`.
  unfoldable pub oprf_client_1 : S → Outcome (List ℕ) → Outcome (List ℕ × S)
  oprf_client_1 secret_mask kdf = do
    local_kdf_result ← kdf
    hashed2curve ← c.hash_to_curve local_kdf_result
    let masked = c.scalar_mul hashed2curve secret_mask
    ok (c.encode masked, secret_mask)

  unfoldable pub oprf_client_2 : P → S → P → DleqProof S P → Outcome ℕ
  unfolding verify_and_get_output
  oprf_client_2 my_masked_point my_mask server_pubkey server_response = do
    server_output ← verify_and_get_output server_response server_pubkey my_masked_point
    inverse ← c.mul_inv my_mask
    inverted ← ok_or invalid_input inverse
    ok (c.hash_from_curve (c.scalar_mul server_output inverted))
