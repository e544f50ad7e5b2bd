-- ===== src/Actors/DkgEngine.antt =====
-- network/crates/actors/src/dkg_engine_actor.rs: what a node keeps during a key generation or a
-- resharing, and the operations on it. The code repeats each operation for its two curves, secp256k1
-- and Baby Jubjub, with the same steps; here the curve is a parameter. An operation returns the new
-- state and its result; what is logged is left out.
pub mod Inputs
pub mod Shares
pub mod State
pub mod Handlers
use human_network.Prelude.{
  ℕ, Bool, true, false, ◌&&◌, List, [], ◌∷◌, ◌++◌, map, Option, none, some, Outcome, ok, err, panic,
  key_not_found, invalid_input, ◌>>=◌, unwrap, ok_or, map_err, if◌then◌else◌, length, Assoc, get,
  get_elem?, insert, keys,
}
use human_network.Field.{Field}
use human_network.Curve.{Curve}
use human_network.Cryptography.Dkg.{
  Rsa, Node, Network, new_network, with_rsa_key, with_rsa_key_and_keyshare, dkg_round_1,
  dkg_round_2, dkg_round_3,
}
use human_network.Cryptography.Resharing.{resharing_round_1, resharing_round_2, resharing_round_3}

-- `NodeData`
pub record NodeData (Pk Sk F P : Type 0) : Type 0 where
  pub input_y : Assoc (List ℕ)
  pub input_v : Assoc (List P)
  pub other_pubshares : Assoc P
  pub node : Node Pk Sk F P

-- A prover as far as it is read: its index and its public key in PEM.
abbrev pub Prover : Type 0
Prover = ℕ × List ℕ

-- `parse_rsa_keys`, with the decoder of `rsa` after the replacement of escaped line ends.
unfoldable pub parse_rsa_keys {ℓ} :
    {Pk : Type ℓ} → (List ℕ → Option Pk) → List Prover → Assoc Pk → Outcome (Assoc Pk)
parse_rsa_keys from_pem [] rsa_keys = ok rsa_keys
parse_rsa_keys from_pem ((idx, pem) ∷ provers) rsa_keys = do
  key ← ok_or invalid_input (from_pem pem)
  parse_rsa_keys from_pem provers (insert idx key rsa_keys)

unfoldable pub quorum_network :
    {Pk : Type 0} → (List ℕ → Option Pk) → ℕ → List Prover → Bool → Outcome (Network Pk)
unfolding parse_rsa_keys
quorum_network from_pem threshold provers is_tstar = do
  network ← new_network threshold (length provers) is_tstar
  rsa_keys ← parse_rsa_keys from_pem provers []
  ok (record network { public_keys = rsa_keys })

module _ {F S P Pk Sk : Type 0} ⦃k : Field F⦄ (c : Curve F S P) (rsa : Rsa Pk Sk) where
  abbrev pub Data : Type 0
  Data = NodeData Pk Sk F P

  abbrev empty_data : Node Pk Sk F P → Data
  empty_data node = record { input_y = []; input_v = []; other_pubshares = []; node = node }

  -- The macro `new_node`
  unfoldable pub new_node_data : F → F → Sk → ℕ → Data
  new_node_data random₁ random₂ rsa_private_key idx =
      empty_data (with_rsa_key c rsa random₁ random₂ idx rsa_private_key)

  -- The macro `restore_node_with_share`
  unfoldable pub restore_node_with_share :
      (List ℕ → Option S) → F → Sk → ℕ → List ℕ → List ℕ → Outcome Data
  restore_node_with_share from_bytes random rsa_private_key idx keyshare network_pubkey = do
    node ←
        with_rsa_key_and_keyshare c rsa from_bytes random idx rsa_private_key keyshare
          network_pubkey
    ok (empty_data node)

  unfoldable pub encode_v_values : List P → List (List ℕ)
  encode_v_values = map c.encode

  -- `C::Point::from_encoded` of each element, up to the first failure.
  unfoldable pub decode_points : List (List ℕ) → Outcome (List P)
  decode_points [] = ok []
  decode_points (x ∷ xs) = do
    v ← map_err invalid_input (c.from_encoded x)
    vs ← decode_points xs
    ok (v ∷ vs)

  -- `register_round_1_result_from_other_node`
  unfoldable pub register_round_1 :
      ℕ → ℕ → Assoc (List ℕ) × List (List ℕ) → Data → Data × Outcome (Unit {0})
  unfolding decode_points
  register_round_1 my_node_id other_node_idx round_1_output data' =
      elim (decode_points (round_1_output.1)) [
        | err e ↦ (data', err e)
        | panic ↦ (data', panic)
        | ok v_values ↦ elim (get my_node_id (round_1_output.0)) [
          | none ↦ (data', err key_not_found)
          | some y ↦ (
            record data' {
              input_y = insert other_node_idx y data'.input_y;
              input_v = insert other_node_idx v_values data'.input_v;
            },
            ok tt,
          )
        ]
      ]

  -- `register_resharing_round_1_result_from_other_node`, whose steps are the same.
  unfoldable pub register_resharing_round_1 :
      ℕ → ℕ → Assoc (List ℕ) × List (List ℕ) → Data → Data × Outcome (Unit {0})
  unfolding register_round_1
  register_resharing_round_1 my_node_id other_node_idx resharing_round_1_output data' =
      register_round_1 my_node_id other_node_idx resharing_round_1_output data'

  -- `store_pubshare_for_node`
  unfoldable pub store_pubshare_for_node : ℕ → List ℕ → Data → Data × Outcome (Unit {0})
  store_pubshare_for_node idx pubshare data' = elim (c.from_encoded pubshare) [
    | err e ↦ (data', err e)
    | panic ↦ (data', panic)
    | ok point ↦ (record data' { other_pubshares = insert idx point data'.other_pubshares }, ok tt)
  ]

  unfoldable pub clear_inputs : Data → Data
  clear_inputs data' = record data' { input_y = []; input_v = []; other_pubshares = [] }

  -- `get_priv_share`, with `ScalarTrait::to_bytes`
  unfoldable pub get_priv_share : (S → List ℕ) → Data → List ℕ
  get_priv_share to_bytes data' = to_bytes (c.into data'.node.private_share)

  unfoldable pub get_pub_share : Data → List ℕ
  get_pub_share data' =
      c.encode (c.scalar_mul c.base_point_or_generator (c.into data'.node.private_share))

  unfoldable pub get_no_of_inputs : Data → ℕ × ℕ
  get_no_of_inputs data' = (length data'.input_v, length data'.input_y)

  -- A set of identifiers, as a list.
  unfoldable pub get_received_y_v_from : Data → List ℕ
  get_received_y_v_from data' = keys data'.input_v ++ keys data'.input_y

  unfoldable pub get_no_of_other_pub_shares : Data → ℕ
  get_no_of_other_pub_shares data' = length data'.other_pubshares

  unfoldable pub pub_shares_received_from : Data → List ℕ
  pub_shares_received_from data' = keys data'.other_pubshares

  -- `process_round_3`
  unfoldable pub process_round_3 :
      Node Pk Sk F P → Network Pk → Assoc P → Bool → Bool → Outcome (Unit {0})
  process_round_3 node network other_pubshares is_resharing is_elected = do
    point ←
        if is_resharing && is_elected
        then resharing_round_3 c rsa node network other_pubshares
        else dkg_round_3 c rsa node network other_pubshares
    ok tt

  module _ (to_repr : F → List ℕ) (from_bytes_be : List ℕ → ℕ) where
    -- `NodeDataVariant::dkg_round_1`: the node keeps its own share and its first commitment, and the
    -- rest is encoded.
    unfoldable pub engine_dkg_round_1 :
        (S → List ℕ)
        → F
        → (ℕ → F)
        → Network Pk
        → Data
        → Data × Outcome (Assoc (List ℕ) × List (List ℕ) × List ℕ)
    unfolding encode_v_values
    engine_dkg_round_1 to_bytes ai0 random network data' =
        elim (dkg_round_1 c rsa to_repr from_bytes_be data'.node ai0 random network) [
          | err e ↦ (data', err e)
          | panic ↦ (data', panic)
          | ok (y_ct, v_values, own_y_value) ↦ elim (get_elem? v_values 0) [
            | none ↦ (data', panic)
            | some v ↦ (
              record data' {
                node = record data'.node { own_partial_share = own_y_value; init_pub_share = v };
              },
              ok (y_ct, encode_v_values v_values, to_bytes (c.into own_y_value)),
            )
          ]
        ]

    -- `NodeDataVariant::resharing_round_1`
    unfoldable pub engine_resharing_round_1 :
        (List ℕ → Option Pk)
        → (ℕ → F)
        → ℕ
        → Network Pk
        → List Prover
        → Data
        → Outcome (Assoc (List ℕ) × List (List ℕ))
    unfolding encode_v_values quorum_network
    engine_resharing_round_1 from_pem random threshold network new_provers data' = do
      new_network ← quorum_network from_pem threshold new_provers false
      (y_ct, v_values) ←
          resharing_round_1 c rsa to_repr from_bytes_be data'.node random network new_network
      ok (y_ct, encode_v_values v_values)

    -- The private share and the group's key of a second round are kept, and the node's public share is
    -- entered among those of the others.
    unfoldable pub keep_shares : Outcome (F × P × P) → Data → Data × Outcome (List ℕ)
    keep_shares (err e) data' = (data', err e)
    keep_shares panic data' = (data', panic)
    keep_shares (ok (priv_share, pub_share, network_pubkey)) data' = (
      record data' {
        node = record data'.node { private_share = priv_share; network_pubkey = network_pubkey };
        other_pubshares = insert data'.node.id pub_share data'.other_pubshares;
      },
      ok (c.encode pub_share),
    )

    -- `NodeDataVariant::dkg_round_2`
    unfoldable pub engine_dkg_round_2 : Network Pk → Data → Data × Outcome (List ℕ)
    unfolding keep_shares
    engine_dkg_round_2 network data' =
        keep_shares
          (dkg_round_2 c rsa to_repr from_bytes_be data'.node network data'.input_y data'.input_v)
          data'

    -- `NodeDataVariant::resharing_round_2`
    unfoldable pub engine_resharing_round_2 :
        Network Pk → Network Pk → List ℕ → Data → Data × Outcome (List ℕ)
    unfolding keep_shares
    engine_resharing_round_2 tstar_network new_network k_dkg data' =
        keep_shares
          (map_err invalid_input (c.from_encoded k_dkg) >>= (λ point.
            resharing_round_2 c rsa to_repr from_bytes_be data'.node tstar_network new_network
              data'.input_y data'.input_v point))
          data'
