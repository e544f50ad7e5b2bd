-- ===== src/Cryptography/Reconstruct/Checked.antt =====
-- What `threshold` has checked when it returns a value.
use human_network.Prelude.{ℕ, ◌≡◌, sym, ap, ◌∙◌, List, [], ◌∷◌, map, ok, >>=-eq-ok, length, arith}
use human_network.Field.{Field}
use human_network.Curve.{Curve}
use human_network.Cryptography.Dleq.{DleqProof, verify_and_get_output}
use human_network.Cryptography.Dleq.Laws.{verify-ok_iff}
use human_network.Cryptography.Polynomial.{lagrange_basis_at_0}
use human_network.Cryptography.Reconstruct.{
  threshold_loop, threshold, unchecked_loop, threshold_unchecked,
}

module _ {F S P : Type 0} ⦃k : Field F⦄ (c : Curve F S P) (hash512 : List ℕ → List ℕ) where
  -- Each proof that has an index passes the check for the point and the public share beside it.
  abbrev pub AllAccepted : P → List (DleqProof S P) → List P → List ℕ → Type 0
  AllAccepted point (proof ∷ proofs) (pk ∷ pubkeys) (i ∷ indices) =
      (verify_and_get_output c hash512 proof pk point ≡ ok proof.output_point)
      × AllAccepted point proofs pubkeys indices
  AllAccepted point _ _ _ = Unit

  loop-ok :
      (point : P) (all : List ℕ) (result : P) (proofs : List (DleqProof S P)) (pubkeys : List P)
      (indices : List ℕ) (out : P)
      → length pubkeys ≡ length proofs
      → threshold_loop c hash512 point all result proofs pubkeys indices ≡ ok out
      → AllAccepted point proofs pubkeys indices
        × (unchecked_loop c all result (map DleqProof.output_point proofs) indices ≡ ok out)
  unfolding threshold_loop unchecked_loop
  loop-ok point all result [] [] [] out n h = (tt, h)
  loop-ok point all result [] [] (i ∷ indices) out n h = (tt, h)
  loop-ok point all result [] (pk ∷ pubkeys) indices out n h = absurd (omega arith)
  loop-ok point all result (proof ∷ proofs) [] indices out n h = absurd (omega arith)
  loop-ok point all result (proof ∷ proofs) (pk ∷ pubkeys) [] out n h = (tt, h)
  loop-ok point all result (proof ∷ proofs) (pk ∷ pubkeys) (i ∷ indices) out n h =
      let (output, accepted, h₁) = >>=-eq-ok (verify_and_get_output c hash512 proof pk point) _ h in
      let (at_zero, found, h₂) = >>=-eq-ok (lagrange_basis_at_0 i all) _ h₁ in
      let same = ((verify-ok_iff c hash512 proof pk point output).0 accepted).3 in
      let rest =
        loop-ok point all (c.add_self result (c.scalar_mul output (c.into at_zero))) proofs pubkeys
          indices out (omega (arith, n)) h₂ in
      ((accepted ∙ ap ok (sym same), rest.0), rw (found, same) rest.1)

  -- When `threshold` returns a value for as many public shares as proofs, each proof that has an index
  -- passed the check against the public share beside it and the point, and the value is what
  -- `threshold_unchecked` makes of the output points of the proofs.
  pub threshold-ok :
      (point : P) (proofs : List (DleqProof S P)) (pubkeys : List P) (indices : List ℕ) (out : P)
      → length pubkeys ≡ length proofs
      → threshold c hash512 point proofs pubkeys indices ≡ ok out
      → AllAccepted point proofs pubkeys indices
        × (threshold_unchecked c (map DleqProof.output_point proofs) indices ≡ ok out)
  unfolding threshold threshold_unchecked
  threshold-ok point proofs pubkeys indices out n h =
      loop-ok point indices c.zero proofs pubkeys indices out n h
