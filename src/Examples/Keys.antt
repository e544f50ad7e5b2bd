-- ===== src/Examples/Keys.antt =====
-- Runs of the key generation and of the resharing over the residues modulo seven, with an RSA that
-- leaves its input as it is.
use human_network.Prelude.{
  ℕ, ◌≡◌, refl, true, List, [], ◌∷◌, some, ok, arith, Assoc, values, suc, map, All,
}
use mathlib.Core.List.{foldl}
use human_network.Field.{◌⊕◌}
use human_network.Field.Laws.{recip}
use human_network.Curve.Laws.{act}
use human_network.Cryptography.Polynomial.{from_coeffs, eval, verify_vss}
use human_network.Cryptography.Dkg.{
  Rsa, Node, Network, dkg_round_3, all_committed, decrypt_share, decrypt_all, verify_all,
}
use human_network.Cryptography.Dkg.Rounds.{dkg_round_3-shares}
use human_network.Cryptography.Polynomial.Lagrange.{basis, factor}
use human_network.Cryptography.Resharing.{resharing_round_2}
use human_network.Cryptography.Resharing.Key.{
  committed, resharing_round_2-shares, resharing_round_2-ok,
}
use human_network.Cryptography.Resharing.Honest.{entries, part, Honest, resharing_round_2-honest}
use human_network.Cryptography.Polynomial.Vss.{commit}
use human_network.Examples.Residue.{
  Residue, r0, r1, r2, r3, r4, r5, r6, val, mul, residue, residues,
}
use human_network.Examples.Group.{group}

abbrev rsa : Rsa ℕ ℕ
rsa = record { public_key = λ sk. sk; encrypt = λ pk m. some m; decrypt = λ sk ct. some ct }

abbrev node : Node ℕ ℕ Residue Residue
node = record {
  id = 1;
  rsa_pubkey = 9;
  rsa_seckey = 9;
  init_pub_share = r0;
  private_share = r1;
  network_pubkey = mul r3 r5;
  own_partial_share = r2;
}

abbrev network : Network ℕ
network = record { threshold = 2; total_nodes = 3; public_keys = (1, 0) ∷ (2, 0) ∷ (3, 0) ∷ [] }

-- 5 + 2 x
abbrev line : List Residue
line = r5 ∷ r2 ∷ []

abbrev published : Assoc Residue
published =
    (1, act group r3 (eval (from_coeffs line) r1))
    ∷ (2, act group r3 (eval (from_coeffs line) r2))
    ∷ (3, act group r3 (eval (from_coeffs line) r3))
    ∷ []

dkg_round_3-shares_example : dkg_round_3 group rsa node network published ≡ ok (act group r3 r5)
dkg_round_3-shares_example =
    dkg_round_3-shares group rsa node network published r5 (r2 ∷ []) (omega arith) (omega arith)
      refl (omega arith) (refl, (refl, (refl, tt))) refl

abbrev to_repr : Residue → List ℕ
to_repr x = val x ∷ []

abbrev from_bytes_be : List ℕ → ℕ
from_bytes_be [] = 0
from_bytes_be (x ∷ xs) = x

-- The old nodes 1 and 3 share `line`; node `i` adds `i x` to its part.
abbrev old_nodes : List ℕ
old_nodes = 1 ∷ 3 ∷ []

abbrev shared : ℕ → Residue
shared i = eval (from_coeffs line) (residue i)

abbrev further : ℕ → List Residue
further i = act group r3 (residue i) ∷ []

abbrev commitments_of_old : Assoc (List Residue)
commitments_of_old = committed group rsa to_repr from_bytes_be old_nodes old_nodes shared further

abbrev new_node : Node ℕ ℕ Residue Residue
new_node = record node { id = 2 }

abbrev old_quorum : Network ℕ
old_quorum = record { threshold = 2; total_nodes = 2; public_keys = (1, 0) ∷ (3, 0) ∷ [] }

abbrev received : Assoc (List ℕ)
received = (1, 2 ∷ []) ∷ (3, 4 ∷ []) ∷ []

abbrev decrypted : Assoc Residue
decrypted = (1, r2) ∷ (3, r4) ∷ []

committed_pairs : all_committed group rsa to_repr from_bytes_be 2 commitments_of_old ≡ true
unfolding all_committed
committed_pairs = refl

decrypted_all : decrypt_all group rsa to_repr from_bytes_be 9 received [] ≡ ok decrypted
unfolding decrypt_all
decrypted_all = refl

verified_all :
    verify_all group rsa to_repr from_bytes_be 2 decrypted commitments_of_old decrypted ≡ ok tt
unfolding verify_all verify_vss eval from_coeffs basis factor recip
verified_all = refl

resharing_run :
    resharing_round_2 group rsa to_repr from_bytes_be new_node old_quorum network received
      commitments_of_old
      (act group r3 r5)
    ≡ ok (r6, act group r3 r6, act group r3 r5)
resharing_run =
    resharing_round_2-shares group rsa to_repr from_bytes_be new_node old_quorum network received
      old_nodes r5 (r2 ∷ []) further decrypted (omega arith) (omega arith) refl refl committed_pairs
      decrypted_all verified_all

abbrev coefficient : ℕ → List Residue
coefficient i = residue i ∷ []

abbrev ciphertext : ℕ → List ℕ
ciphertext i = suc i ∷ []

honest :
    All
      (Honest group rsa to_repr from_bytes_be old_nodes r5
        (r2 ∷ [])
        coefficient
        new_node
        2
        ciphertext)
      old_nodes
unfolding decrypt_share eval from_coeffs basis factor recip
honest = ((refl, omega arith, refl), ((refl, omega arith, refl), tt))

resharing_round_2-honest_example :
    resharing_round_2 group rsa to_repr from_bytes_be new_node old_quorum network
      (entries ciphertext old_nodes)
      (entries
        (λ i. map (commit group) (
          part group rsa to_repr from_bytes_be old_nodes r5 (r2 ∷ []) coefficient i
          ∷ coefficient i))
        old_nodes)
      (act group r3 r5)
    ≡ ok (r6, act group r3 r6, act group r3 r5)
unfolding eval from_coeffs basis factor recip
resharing_round_2-honest_example =
    resharing_round_2-honest group rsa to_repr from_bytes_be old_nodes r5 (r2 ∷ []) coefficient
      new_node old_quorum network ciphertext (omega arith) (omega arith) refl honest

resharing_round_2-ok_example :
    (act group r3 r5 ≡ act group r3 r5)
    × (act group r3 r6 ≡ act group r3 r6)
    × ((y : Assoc Residue) × (decrypt_all group rsa to_repr from_bytes_be 9 received [] ≡ ok y)
        × (verify_all group rsa to_repr from_bytes_be 2 y commitments_of_old y ≡ ok tt)
        × (r6 ≡ foldl ◌⊕◌ r0 (values y)))
resharing_round_2-ok_example =
    resharing_round_2-ok group rsa to_repr from_bytes_be new_node old_quorum network received
      commitments_of_old (act group r3 r5) r6 (act group r3 r6) (act group r3 r5) resharing_run
