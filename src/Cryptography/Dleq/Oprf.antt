-- ===== src/Cryptography/Dleq/Oprf.antt =====
-- The oblivious evaluation between the client and the server.
use human_network.Prelude.{ℕ, ◌≡◌, refl, sym, ap, ◌∙◌, List, some, Outcome, ok}
use human_network.Field.{Field}
use human_network.Curve.{Curve}
use human_network.Curve.Laws.{scalar_mul_comm}
use human_network.Cryptography.Dleq.{DleqProof, prove, server, oprf_client_1, oprf_client_2}
use human_network.Cryptography.Dleq.Laws.{verify-prove}

module _ {F S P : Type 0} ⦃k : Field F⦄ (c : Curve F S P) (hash512 : List ℕ → List ℕ) where
  -- The oblivious evaluation from end to end: for a password that hashes to the point H, the client's
  -- first message is the masked point, and from the server's answer the second step computes the
  -- hash of the secret times H, for every mask that has an inverse, if the server's proof is made.
  pub oprf_client-server :
      (mask inverse r server_secret : S) (kdf : Outcome (List ℕ)) (password : List ℕ) (H : P)
      {proof : DleqProof S P}
      → kdf ≡ ok password
      → c.hash_to_curve password ≡ ok H
      → c.mul_inv mask ≡ ok (some inverse)
      → server c hash512 r server_secret (c.encode (c.scalar_mul H mask)) ≡ ok proof
      → (oprf_client_1 c hash512 mask kdf ≡ ok (c.encode (c.scalar_mul H mask), mask))
        × (oprf_client_2 c hash512
              (c.scalar_mul H mask)
              mask
              (c.scalar_mul c.base_point_or_generator server_secret)
              proof
            ≡ ok (c.hash_from_curve (c.scalar_mul H server_secret)))
  unfolding oprf_client_1 oprf_client_2 server
  oprf_client-server mask inverse r x kdf password H {proof} hk hH hm hs = (
    rw (hk, hH) refl,
    rw (verify-prove c hash512 r (c.scalar_mul H mask) x proved, hm)
        (ap (λ t. ok (c.hash_from_curve t)) unmask),
  )
    where
      proved : prove c hash512 r (c.scalar_mul H mask) x ≡ ok proof
      proved = rw (c.from_encoded-encode (c.scalar_mul H mask)) at hs

      unmask : c.scalar_mul (c.scalar_mul (c.scalar_mul H mask) x) inverse ≡ c.scalar_mul H x
      unmask =
          ap (λ t. c.scalar_mul t inverse) (scalar_mul_comm c H mask x)
          ∙ sym (c.scalar_mul-mul (c.scalar_mul H x) mask inverse)
          ∙ ap (c.scalar_mul (c.scalar_mul H x)) (c.mul_inv_some mask inverse hm)
          ∙ c.scalar_mul-one (c.scalar_mul H x)
