-- ===== src/Actors/DkgEngine/State.antt =====
-- network/crates/actors/src/dkg_engine_actor.rs: the state of the engine, with one node for each method:
-- how it is made for a key generation or restored for a resharing, and a round over all of its nodes.
-- The draws of a node are arguments, by the name of its method.
use human_network.Prelude.{
  ℕ, ◌%◌, ◌^◌, Bool, false, List, [], ◌∷◌, Option, none, Outcome, ok, err, panic, key_not_found,
  ◌>>=◌, ok_or, length, Dictionary, lookup, String,
}
use human_network.Field.{Field}
use human_network.Curve.{Curve}
use human_network.Cryptography.Dkg.{Rsa, Network, new_network}
use human_network.Actors.AppState.{ElectionInfo, QuorumMap}
use human_network.Actors.DkgEngine.{
  NodeData, Prover, parse_rsa_keys, new_node_data, restore_node_with_share,
}

-- `NodeDataVariant`
pub data NodeDataVariant (Pk Sk F₁ P₁ F₂ P₂ : Type 0) : Type 0 where
  secp256k1 : NodeData Pk Sk F₁ P₁ → NodeDataVariant Pk Sk F₁ P₁ F₂ P₂
  baby_jub_jub : NodeData Pk Sk F₂ P₂ → NodeDataVariant Pk Sk F₁ P₁ F₂ P₂

-- `ResharingInitContext`
pub record ResharingInitContext (Sk : Type 0) : Type 0 where
  pub rsa_private_key : Sk
  pub election_info : ElectionInfo
  pub node_peer_id : ℕ
  pub group_keys : Dictionary (List ℕ)

-- `DKGEngineState`, whose nodes have the type `N`.
pub record DkgEngineState (Pk Sk N : Type 0) : Type 0 where
  pub idx : ℕ
  pub peer_id : ℕ
  pub network : Network Pk
  pub dkg_nodes : Dictionary N
  pub tstar_provers : QuorumMap
  pub new_provers : QuorumMap
  pub election_info : ElectionInfo
  pub finalized_group_public_keys : Dictionary (List ℕ)
  pub resharing_round2_triggered : Bool
  pub resharing_round1_context : Option (ResharingInitContext Sk)

-- The index and the public key of each prover.
abbrev pub keys_of : QuorumMap → List Prover
keys_of [] = []
keys_of ((peer_id, (prover, idx)) ∷ provers) = (idx, prover.rsa_pub_key) ∷ keys_of provers

-- `run_round`: the nodes after the first one that fails are not run.
unfoldable pub run_round :
    {N T : Type 0}
    → (String → N → N × Outcome T)
    → Dictionary N
    → Dictionary N × Outcome (Dictionary T)
run_round output_fn [] = ([], ok [])
run_round output_fn ((key, node) ∷ dkg_nodes) =
    let (node', output) = output_fn key node in
    let (dkg_nodes', outputs) = run_round output_fn dkg_nodes in
    elim output [
      | err e ↦ ((key, node') ∷ dkg_nodes, err e)
      | panic ↦ ((key, node') ∷ dkg_nodes, panic)
      | ok result ↦ (
        (key, node') ∷ dkg_nodes',
        outputs >>= (λ round_results. ok ((key, result) ∷ round_results)),
      )
    ]

module _ {F₁ S₁ P₁ F₂ S₂ P₂ Pk Sk : Type 0} ⦃k₁ : Field F₁⦄ ⦃k₂ : Field F₂⦄ (c₁ : Curve F₁ S₁ P₁)
    (c₂ : Curve F₂ S₂ P₂) (rsa : Rsa Pk Sk) (from_pem : List ℕ → Option Pk) where
  abbrev pub Variant : Type 0
  Variant = NodeDataVariant Pk Sk F₁ P₁ F₂ P₂

  new_secp256k1 : (String → F₁ × F₁) → Sk → ℕ → String → String × Variant
  unfolding new_node_data
  new_secp256k1 draws rsa_private_key idx key =
      let (random₁, random₂) = draws key in
      (key, secp256k1 (new_node_data c₁ rsa random₁ random₂ rsa_private_key idx))

  new_baby_jub_jub : (String → F₂ × F₂) → Sk → ℕ → String → String × Variant
  unfolding new_node_data
  new_baby_jub_jub draws rsa_private_key idx key =
      let (random₁, random₂) = draws key in
      (key, baby_jub_jub (new_node_data c₂ rsa random₁ random₂ rsa_private_key idx))

  -- `DKGEngineState::dkg_init`
  unfoldable pub dkg_init :
      (String → F₁ × F₁)
      → (String → F₂ × F₂)
      → ℕ
      → ℕ
      → Sk
      → QuorumMap
      → ℕ
      → Outcome (DkgEngineState Pk Sk Variant)
  unfolding new_secp256k1 new_baby_jub_jub parse_rsa_keys
  dkg_init draws₁ draws₂ peer_id idx rsa_private_key elected_peers threshold = do
    network ← new_network threshold (length elected_peers) false
    rsa_keys_map ← parse_rsa_keys from_pem (keys_of elected_peers) []
    ok (record {
      idx = idx;
      peer_id = peer_id;
      network = record network { public_keys = rsa_keys_map };
      dkg_nodes =
          new_secp256k1 draws₁ rsa_private_key idx "OPRFSecp256k1"
          ∷ new_baby_jub_jub draws₂ rsa_private_key idx "OPRFBabyJubJub"
          ∷ new_secp256k1 draws₁ rsa_private_key idx "JWTPRFSecp256k1"
          ∷ new_baby_jub_jub draws₂ rsa_private_key idx "DecryptBabyJubjub"
          ∷ [];
      tstar_provers = [];
      new_provers = elected_peers;
      election_info = record { threshold = 0; epsilon = 0; total_provers = 0 };
      finalized_group_public_keys = [];
      resharing_round2_triggered = false;
      resharing_round1_context = none;
    })

  -- `DKGEngineState::restore_old_resharing_state`. `ElectionInfo::new` takes the threshold, the epsilon
  -- and the number of provers, and is given the number of provers and 1 in the last two places.
  unfoldable pub restore_old_resharing_state :
      (List ℕ → Option S₁)
      → (List ℕ → Option S₂)
      → (String → F₁)
      → (String → F₂)
      → ℕ
      → ℕ
      → Sk
      → QuorumMap
      → ℕ
      → Dictionary (List ℕ)
      → QuorumMap
      → Dictionary (List ℕ)
      → Outcome (DkgEngineState Pk Sk Variant)
  unfolding restore_node_with_share parse_rsa_keys
  restore_old_resharing_state from_bytes₁ from_bytes₂ draw₁ draw₂ peer_id idx rsa_private_key
        elected_peers threshold private_keyshares tstar_provers group_keys =
      do
        share₁ ← ok_or key_not_found (lookup "OPRFSecp256k1" private_keyshares)
        share₂ ← ok_or key_not_found (lookup "OPRFBabyJubJub" private_keyshares)
        share₃ ← ok_or key_not_found (lookup "JWTPRFSecp256k1" private_keyshares)
        share₄ ← ok_or key_not_found (lookup "DecryptBabyJubjub" private_keyshares)
        pubkey₁ ← ok_or key_not_found (lookup "OPRFSecp256k1" group_keys)
        pubkey₂ ← ok_or key_not_found (lookup "OPRFBabyJubJub" group_keys)
        pubkey₃ ← ok_or key_not_found (lookup "JWTPRFSecp256k1" group_keys)
        pubkey₄ ← ok_or key_not_found (lookup "DecryptBabyJubjub" group_keys)
        node₁ ←
            restore_node_with_share c₁ rsa from_bytes₁ (draw₁ "OPRFSecp256k1") rsa_private_key idx
              share₁ pubkey₁
        node₂ ←
            restore_node_with_share c₂ rsa from_bytes₂ (draw₂ "OPRFBabyJubJub") rsa_private_key idx
              share₂ pubkey₂
        node₃ ←
            restore_node_with_share c₁ rsa from_bytes₁ (draw₁ "JWTPRFSecp256k1") rsa_private_key idx
              share₃ pubkey₃
        node₄ ←
            restore_node_with_share c₂ rsa from_bytes₂ (draw₂ "DecryptBabyJubjub") rsa_private_key
              idx share₄ pubkey₄
        network ← new_network threshold (length elected_peers) false
        rsa_keys_map ← parse_rsa_keys from_pem (keys_of elected_peers) []
        ok (record {
          idx = idx;
          peer_id = peer_id;
          network = record network { public_keys = rsa_keys_map };
          dkg_nodes =
              ("OPRFSecp256k1", secp256k1 node₁)
              ∷ ("OPRFBabyJubJub", baby_jub_jub node₂)
              ∷ ("JWTPRFSecp256k1", secp256k1 node₃)
              ∷ ("DecryptBabyJubjub", baby_jub_jub node₄)
              ∷ [];
          tstar_provers = tstar_provers;
          new_provers = elected_peers;
          election_info = record {
            threshold = threshold;
            epsilon = length elected_peers % 2 ^ 32;
            total_provers = 1;
          };
          finalized_group_public_keys = group_keys;
          resharing_round2_triggered = false;
          resharing_round1_context = none;
        })
