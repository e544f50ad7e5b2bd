-- ===== src/Examples/Crypto.antt =====
-- Runs of network/crates/cryptography over the residues modulo seven.
use human_network.Prelude.{
  ℕ, ◌^◌, ◌≡◌, refl, true, List, [], ◌∷◌, map, ok, err, invalid_input, arith,
}
use human_network.Cryptography.Polynomial.{from_coeffs, eval, from_seed, feldman_vss, verify_vss}
use human_network.Cryptography.Polynomial.Seed.{from_seed_fails}
use human_network.Cryptography.Polynomial.Vss.{commit, verify_vss-eval, verify_vss_overflow}
use human_network.Cryptography.Polynomial.Vss.Shares.{shares, feldman_vss-shares}
use human_network.Cryptography.Dleq.{
  DleqProof, challenge_hash, prove, verify_and_get_output, server, oprf_client_1, oprf_client_2,
  from_bytes_be,
}
use human_network.Cryptography.Dleq.Laws.{verify-prove, verify-ok_iff, verify_special_soundness}
use human_network.Cryptography.Dleq.Oprf.{oprf_client-server}
use human_network.Cryptography.Reconstruct.{threshold, threshold_unchecked}
use human_network.Cryptography.Reconstruct.Checked.{AllAccepted, threshold-ok}
use human_network.Cryptography.Reconstruct.Laws.{threshold-shares, threshold_unchecked-shares}
use human_network.Examples.Residue.{Residue, r1, r2, r3, r4, r5, r6, mul, sub, residue, residues}
use human_network.Examples.Group.{group}

-- 5 + 2 x
abbrev pub line : List Residue
line = r5 ∷ r2 ∷ []

eval-line : eval (from_coeffs line) r3 ≡ r4
unfolding eval from_coeffs
eval-line = refl

-- A hash with one value.
abbrev pub constant_hash : List ℕ → List ℕ
constant_hash _ = 2 ∷ []

-- The proof for the secret `x`, the nonce 1 and the constant challenge 2.
abbrev pub made : Residue → Residue → DleqProof Residue Residue
made q x = record {
  input_point = q;
  pubkey = mul r3 x;
  output_point = mul q x;
  r_pub = r3;
  r_in = mul q r1;
  challenge = r2;
  response = sub r1 (mul r2 x);
}

pub prove-made : (q x : Residue) → prove group constant_hash r1 q x ≡ ok (made q x)
unfolding prove challenge_hash from_bytes_be
prove-made q x = refl

threshold-shares_example :
    threshold group constant_hash r2
      (made r2 (eval (from_coeffs line) r1) ∷ made r2 (eval (from_coeffs line) r3) ∷ [])
      (mul r3 (eval (from_coeffs line) r1) ∷ mul r3 (eval (from_coeffs line) r3) ∷ [])
      (1 ∷ 3 ∷ [])
    ≡ ok (mul r2 r5)
threshold-shares_example =
    threshold-shares group constant_hash r2 r5 (r2 ∷ []) (1 ∷ 3 ∷ []) (λ _. r1)
      (λ i. made r2 (eval (from_coeffs line) (residue i))) (omega arith) (omega arith)
      (prove-made r2 _, (prove-made r2 _, tt))

-- Two of the shares of 5 give 5 times the point.
recovered :
    threshold group constant_hash r2
      (made r2 (eval (from_coeffs line) r1) ∷ made r2 (eval (from_coeffs line) r3) ∷ [])
      (mul r3 (eval (from_coeffs line) r1) ∷ mul r3 (eval (from_coeffs line) r3) ∷ [])
      (1 ∷ 3 ∷ [])
    ≡ ok (mul r2 r5)
recovered =
    threshold-shares group constant_hash r2 r5 (r2 ∷ []) (1 ∷ 3 ∷ []) (λ _. r1)
      (λ i. made r2 (eval (from_coeffs line) (residue i))) (omega arith) (omega arith)
      (prove-made r2 _, (prove-made r2 _, tt))

threshold-ok_example :
    AllAccepted group constant_hash r2
      (made r2 (eval (from_coeffs line) r1) ∷ made r2 (eval (from_coeffs line) r3) ∷ [])
      (mul r3 (eval (from_coeffs line) r1) ∷ mul r3 (eval (from_coeffs line) r3) ∷ [])
      (1 ∷ 3 ∷ [])
    × (threshold_unchecked group
          (mul r2 (eval (from_coeffs line) r1) ∷ mul r2 (eval (from_coeffs line) r3) ∷ [])
          (1 ∷ 3 ∷ [])
        ≡ ok (mul r2 r5))
threshold-ok_example =
    threshold-ok group constant_hash r2
      (made r2 (eval (from_coeffs line) r1) ∷ made r2 (eval (from_coeffs line) r3) ∷ [])
      (mul r3 (eval (from_coeffs line) r1) ∷ mul r3 (eval (from_coeffs line) r3) ∷ []) (1 ∷ 3 ∷ [])
      (mul r2 r5) refl recovered

threshold_unchecked-shares_example :
    threshold_unchecked group
      (mul r2 (eval (from_coeffs line) r1) ∷ mul r2 (eval (from_coeffs line) r3) ∷ [])
      (1 ∷ 3 ∷ [])
    ≡ ok (mul r2 r5)
threshold_unchecked-shares_example =
    threshold_unchecked-shares group r2 r5 (r2 ∷ []) (1 ∷ 3 ∷ []) (omega arith) (omega arith)

verify-prove_example :
    verify_and_get_output group constant_hash (made r2 r4) (mul r3 r4) r2 ≡ ok (mul r2 r4)
verify-prove_example = verify-prove group constant_hash r1 r2 r4 (prove-made r2 r4)

verify-ok_iff_example :
    verify_and_get_output group constant_hash (made r2 r4) (mul r3 r4) r2 ≡ ok r1
unfolding challenge_hash from_bytes_be
verify-ok_iff_example =
    (verify-ok_iff group constant_hash (made r2 r4) (mul r3 r4) r2 r1).1 (refl, refl, refl, refl)

-- The same secret and nonce answered to another challenge.
abbrev other_challenge : DleqProof Residue Residue
other_challenge = record (made r2 r4) { challenge = r3; response = sub r1 (mul r3 r4) }

abbrev other_hash : List ℕ → List ℕ
other_hash _ = 3 ∷ []

verify_special_soundness_example : (x : Residue) × (r5 ≡ mul r3 x) × (r1 ≡ mul r2 x)
unfolding verify_and_get_output challenge_hash from_bytes_be
verify_special_soundness_example =
    verify_special_soundness group constant_hash other_hash (made r2 r4) other_challenge (mul r3 r4)
      r2 r1 refl refl refl refl (λ e. cc)

oprf_client-server_example :
    (oprf_client_1 group constant_hash r6 (ok (1 ∷ [])) ≡ ok (5 ∷ [], r6))
    × (oprf_client_2 group constant_hash r5 r6 r5 (made r5 r4) ≡ ok 1)
unfolding server prove challenge_hash from_bytes_be
oprf_client-server_example =
    oprf_client-server group constant_hash r6 r6 r1 r4 (ok (1 ∷ [])) (1 ∷ []) r2
      {proof = made r5 r4} refl refl refl refl

verify_vss-eval_example :
    verify_vss group 3 (eval (from_coeffs line) r3) (map (commit group) line) ≡ ok true
verify_vss-eval_example =
    (verify_vss-eval group 3 (eval (from_coeffs line) r3) r5 (r2 ∷ []) (omega arith)).1 refl

verify_vss_overflow_example :
    verify_vss group
      (2 ^ 64)
      (eval (from_coeffs line) (residue (2 ^ 64)))
      (map (commit group) (r5 ∷ r2 ∷ r1 ∷ []))
    ≡ ok true
verify_vss_overflow_example =
    (verify_vss_overflow group (2 ^ 64) (eval (from_coeffs line) (residue (2 ^ 64))) r5 r2 (r1 ∷ [])
        (omega arith) (omega arith)).1
      refl

abbrev two_keys : List (ℕ × ℕ)
two_keys = (1, 0) ∷ (2, 0) ∷ []

feldman_vss-shares_example :
    feldman_vss group (from_coeffs line) two_keys 2
    ≡ ok (shares (from_coeffs line) two_keys, map (commit group) line)
feldman_vss-shares_example = feldman_vss-shares group line two_keys (omega arith)

abbrev digest : List ℕ → List ℕ
digest _ =
    0 ∷ 1 ∷ 2 ∷ 3 ∷ 4 ∷ 5 ∷ 6 ∷ 7 ∷ 0 ∷ 1 ∷ 2 ∷ 3 ∷ 4 ∷ 5 ∷ 6 ∷ 7 ∷ 0 ∷ 1 ∷ 2 ∷ 3 ∷ 4 ∷ 5 ∷ 6 ∷ 7
    ∷ 0 ∷ 1 ∷ 2 ∷ 3 ∷ 4 ∷ 5 ∷ 6 ∷ 7 ∷ 0 ∷ 1 ∷ 2 ∷ 3 ∷ 4 ∷ 5 ∷ 6 ∷ 7 ∷ 0 ∷ 1 ∷ 2 ∷ 3 ∷ 4 ∷ 5 ∷ 6 ∷ 7
    ∷ 0 ∷ 1 ∷ 2 ∷ 3 ∷ 4 ∷ 5 ∷ 6 ∷ 7 ∷ 0 ∷ 1 ∷ 2 ∷ 3 ∷ 4 ∷ 5 ∷ 6 ∷ 7 ∷ []

abbrev half_digest : List ℕ
half_digest =
    0 ∷ 1 ∷ 2 ∷ 3 ∷ 4 ∷ 5 ∷ 6 ∷ 7 ∷ 0 ∷ 1 ∷ 2 ∷ 3 ∷ 4 ∷ 5 ∷ 6 ∷ 7 ∷ 0 ∷ 1 ∷ 2 ∷ 3 ∷ 4 ∷ 5 ∷ 6 ∷ 7
    ∷ 0 ∷ 1 ∷ 2 ∷ 3 ∷ 4 ∷ 5 ∷ 6 ∷ 7 ∷ []

from_seed_fails_example : from_seed digest (λ _. r1) half_digest 2 ≡ err invalid_input
from_seed_fails_example =
    from_seed_fails digest (λ _. r1) half_digest 2 (λ p. refl) refl (omega arith)
