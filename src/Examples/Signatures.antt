-- ===== src/Examples/Signatures.antt =====
-- Runs of the signatures and of the encryption over the residues modulo seven.
use human_network.Prelude.{ℕ, ◌≡◌, refl, List, [], ◌∷◌, ok, Outcome, map, arith}
use human_network.Cryptography.Dleq.{from_bytes_be}
use human_network.Cryptography.Schnorr.{
  SchnorrSig, schnorr_challenge, sign, verify, get_contract_and_pubkey_if_valid,
}
use human_network.Cryptography.Schnorr.Signatures.{get_contract_and_pubkey_if_valid-sign}
use human_network.Curve.Laws.{act}
use human_network.Cryptography.Polynomial.{from_coeffs, eval}
use human_network.Cryptography.Reconstruct.{threshold_unchecked}
use human_network.Cryptography.Encryption.{
  ElGamalCiphertext, encrypt_elgamal, decrypt_elgamal_from_shared_secret,
}
use human_network.Cryptography.Encryption.Threshold.{decrypt_elgamal-threshold_unchecked}
use human_network.Examples.Residue.{Residue, r1, r2, r3, r4, r5, mul, neg, val, residue, residues}
use human_network.Examples.Group.{group}

-- A hash with one value.
abbrev constant_hash : List ℕ → List ℕ
constant_hash _ = 2 ∷ []

abbrev contract : List ℕ
contract = 10 ∷ 20 ∷ []

abbrev signed : SchnorrSig Residue Residue
signed = record { point = mul r3 r1; s = r5 }

sign_run : sign group constant_hash r1 r2 contract ≡ ok signed
unfolding sign schnorr_challenge from_bytes_be
sign_run = refl

get_contract_and_pubkey_if_valid-sign_example :
    (verify group constant_hash contract (mul r3 r2) signed ≡ ok tt)
    × (get_contract_and_pubkey_if_valid group constant_hash contract (mul r3 r2) signed
        ≡ ok (contract, mul r3 r2))
get_contract_and_pubkey_if_valid-sign_example =
    get_contract_and_pubkey_if_valid-sign group constant_hash r1 r2 contract signed sign_run

-- 5 + 2 x
abbrev line : List Residue
line = r5 ∷ r2 ∷ []

abbrev to_point : List ℕ → Outcome Residue
to_point msg = ok r4

abbrev to_message : Residue → Outcome (List ℕ)
to_message p = ok (val p ∷ [])

decrypt_elgamal-threshold_unchecked_example :
    (ciphertext : ElGamalCiphertext Residue) × (shared_secret : Residue) × (encrypt_elgamal group
        to_point
        (4 ∷ [])
        (act group r3 r5)
        r3
      ≡ ok ciphertext)
    × (threshold_unchecked group
          (map
            (λ i. act group ciphertext.ephemeral_dh_pubkey (eval (from_coeffs line) (residue i)))
            (1 ∷ 3 ∷ []))
          (1 ∷ 3 ∷ [])
        ≡ ok shared_secret)
    × (decrypt_elgamal_from_shared_secret group neg to_message ciphertext shared_secret
        ≡ ok (4 ∷ []))
decrypt_elgamal-threshold_unchecked_example =
    decrypt_elgamal-threshold_unchecked group to_point to_message neg (4 ∷ []) r4 r3 r5 (r2 ∷ [])
      (1 ∷ 3 ∷ []) residues.add-neg refl refl (omega arith) (omega arith)
