-- ===== src/Examples/Engine.antt =====
-- Runs of the engine of the key generation over the residues modulo seven, with an RSA that leaves its
-- input as it is.
use human_network.Prelude.{ℕ, ◌≡◌, List, [], ◌∷◌, some}
use human_network.Cryptography.Dkg.{Rsa, Node, Network}
use human_network.Actors.DkgEngine.{
  NodeData, new_node_data, get_no_of_inputs, engine_dkg_round_2, engine_resharing_round_2,
}
use human_network.Actors.DkgEngine.Inputs.{
  Call, register, store, Paired, after_calls, new_node_data-Paired,
}
use human_network.Actors.DkgEngine.Shares.{
  Sends, engine_dkg_round_2-Sends, engine_resharing_round_2-Sends,
}
use human_network.Examples.Residue.{Residue, r0, r1, r2, r5, val, residues}
use human_network.Examples.Group.{group}

abbrev rsa : Rsa ℕ ℕ
rsa = record { public_key = λ sk. sk; encrypt = λ pk m. some m; decrypt = λ sk ct. some ct }

abbrev to_repr : Residue → List ℕ
to_repr x = val x ∷ []

abbrev from_bytes_be : List ℕ → ℕ
from_bytes_be [] = 0
from_bytes_be (x ∷ xs) = x

abbrev network : Network ℕ
network = record { threshold = 1; total_nodes = 2; public_keys = (1, 0) ∷ (2, 0) ∷ [] }

abbrev node : Node ℕ ℕ Residue Residue
node = record {
  id = 1;
  rsa_pubkey = 9;
  rsa_seckey = 9;
  init_pub_share = r0;
  private_share = r1;
  network_pubkey = r0;
  own_partial_share = r2;
}

-- The other node's share is 5, a constant polynomial.
abbrev received : NodeData ℕ ℕ Residue Residue
received = record {
  input_y = (2, 5 ∷ []) ∷ [];
  input_v = (2, group.scalar_mul group.base_point_or_generator r5 ∷ []) ∷ [];
  other_pubshares = [];
  node = node;
}

engine_dkg_round_2-Sends_example :
    Sends group rsa to_repr from_bytes_be received
      (engine_dkg_round_2 group rsa to_repr from_bytes_be network received)
engine_dkg_round_2-Sends_example =
    engine_dkg_round_2-Sends group rsa to_repr from_bytes_be network received

abbrev old_quorum : Network ℕ
old_quorum = record { threshold = 1; total_nodes = 1; public_keys = (2, 0) ∷ [] }

abbrev group_key : List ℕ
group_key = group.encode (group.scalar_mul group.base_point_or_generator r5)

engine_resharing_round_2-Sends_example :
    Sends group rsa to_repr from_bytes_be received (
      engine_resharing_round_2 group rsa to_repr from_bytes_be old_quorum network group_key
        received)
engine_resharing_round_2-Sends_example =
    engine_resharing_round_2-Sends group rsa to_repr from_bytes_be old_quorum network group_key
      received

abbrev calls : List (Call ℕ Residue Residue)
calls =
    register 1 2 ((1, 5 ∷ []) ∷ []) ((4 ∷ []) ∷ [])
    ∷ register 1 3 [] ((4 ∷ []) ∷ [])
    ∷ store 2 (3 ∷ [])
    ∷ []

new_node_data-Paired_example :
    Paired (after_calls group rsa to_repr from_bytes_be calls (new_node_data group rsa r1 r2 9 1))
    × ((get_no_of_inputs group rsa
          (after_calls group rsa to_repr from_bytes_be calls (new_node_data group rsa r1 r2 9 1))).0
        ≡ (get_no_of_inputs group rsa (
            after_calls group rsa to_repr from_bytes_be calls
              (new_node_data group rsa r1 r2 9 1))).1)
new_node_data-Paired_example = new_node_data-Paired group rsa to_repr from_bytes_be r1 r2 9 1 calls
