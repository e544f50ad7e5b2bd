-- ===== src/Cryptography/Encryption/Threshold.antt =====
-- A message that is encrypted to the network's key, decrypted with the help of the nodes.
use human_network.Prelude.{ℕ, suc, ◌≤◌, ◌≡◌, refl, ap, ◌∙◌, List, ◌∷◌, map, Outcome, ok, length}
use human_network.Field.{Field}
use human_network.Curve.{Curve}
use human_network.Curve.Laws.{act, scalar_mul_comm, add_self-zero}
use human_network.Cryptography.Polynomial.{from_coeffs, eval}
use human_network.Cryptography.Polynomial.Lagrange.{IsNodeSet}
use human_network.Cryptography.Reconstruct.{threshold_unchecked}
use human_network.Cryptography.Reconstruct.Laws.{threshold_unchecked-shares}
use human_network.Cryptography.Encryption.{
  ElGamalCiphertext, encrypt_elgamal, decrypt_elgamal_from_shared_secret,
}

module _ {F S P : Type 0} ⦃k : Field F⦄ (c : Curve F S P) where
  unmasked :
      (neg : P → P) (q m : P)
      → ((p : P) → c.add_self p (neg p) ≡ c.zero)
      → c.add_self (c.add_self q m) (neg q) ≡ m
  unmasked neg q m law =
      ap (λ t. c.add_self t (neg q)) (c.add_self_comm q m)
      ∙ c.add_self_assoc m q (neg q)
      ∙ ap (c.add_self m) (law q)
      ∙ add_self-zero c m

  -- A message that is encrypted to the public key of a secret comes back when enough nodes multiply
  -- the ciphertext's ephemeral key by their shares of the secret: `threshold_unchecked` returns the
  -- shared secret from their responses, and with it the message is decrypted. The message has a point
  -- that maps back to it, and negation gives the inverse of a point.
  pub decrypt_elgamal-threshold_unchecked :
      (koblitz_map : List ℕ → Outcome P) (reverse_koblitz : P → Outcome (List ℕ)) (neg : P → P)
      (msg : List ℕ) (point : P) (ephem_secret secret : F) (coeffs : List F) (indices : List ℕ)
      → ((p : P) → c.add_self p (neg p) ≡ c.zero)
      → koblitz_map msg ≡ ok point
      → reverse_koblitz point ≡ ok msg
      → IsNodeSet k indices
      → suc (length coeffs) ≤ length indices
      → (ciphertext : ElGamalCiphertext P) × (shared_secret : P) × (encrypt_elgamal c koblitz_map
            msg
            (act c c.base_point_or_generator secret)
            (c.into ephem_secret)
          ≡ ok ciphertext)
        × (threshold_unchecked c
              (map
                (λ i.
                  act c ciphertext.ephemeral_dh_pubkey
                    (eval (from_coeffs (secret ∷ coeffs)) (k.from_u128 i)))
                indices)
              indices
            ≡ ok shared_secret)
        × (decrypt_elgamal_from_shared_secret c neg reverse_koblitz ciphertext shared_secret
            ≡ ok msg)
  unfolding encrypt_elgamal decrypt_elgamal_from_shared_secret
  decrypt_elgamal-threshold_unchecked koblitz_map reverse_koblitz neg msg point ephem_secret secret
        coeffs indices law mapped back set enough =
      let g = c.base_point_or_generator in
      let ephemeral = act c g ephem_secret in
      (
        record {
          encrypted_msg = c.add_self (c.scalar_mul (act c g secret) (c.into ephem_secret)) point;
          ephemeral_dh_pubkey = ephemeral;
        },
        act c ephemeral secret,
        rw mapped refl,
        threshold_unchecked-shares c ephemeral secret coeffs indices set enough,
        ap (λ q. reverse_koblitz (c.add_self (c.add_self q point) (neg (act c ephemeral secret))))
              (scalar_mul_comm c g (c.into secret) (c.into ephem_secret))
            ∙ ap reverse_koblitz (unmasked neg (act c ephemeral secret) point law)
            ∙ back,
      )
