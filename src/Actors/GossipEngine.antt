-- ===== src/Actors/GossipEngine.antt =====
-- network/crates/actors/src/gossip_engine_actor.rs: what a node does with a message of the gossip, the
-- type of the messages in network/crates/messages/src/message.rs, and the messages that a node publishes.
-- The outputs of a round are a type of their own; the senders of replies are left out.
pub mod Handled
use human_network.Prelude.{
  ℕ, Bool, true, false, List, [], ◌∷◌, Outcome, ok, panic, ◌==◌, if◌then◌else◌, Dictionary, String,
}
use human_network.Messages.Drand.{DrandResponse}
use human_network.Messages.NetworkUtils.{RequestToNetwork}
use human_network.Actors.AppState.{ProverInfo, ElectionInfo, QuorumMap}
use human_network.Actors.Election.{
  Start, dkg_init, dkg_round1, dkg_round2, dkg_round3, resharing_init, resharing_round1,
  resharing_round2, resharing_round3,
}

pub data Message (O : Type 0) : Type 0 where
  elected_provers : ElectionInfo → List ProverInfo → Message O
  re_elected_provers :
      ElectionInfo → QuorumMap → QuorumMap → Dictionary (List ℕ) → DrandResponse → Message O
  re_election : Message O
  round1_out : ℕ → O → Message O
  resharing_round1_out : ℕ → O → Message O
  round2_out : ℕ → Dictionary (List ℕ) → Message O
  resharing_round2_out : ℕ → Dictionary (List ℕ) → Message O
  ready : ℕ → ℕ → Dictionary (List ℕ) → Dictionary (List ℕ) → Message O
  resharing_prepared : ℕ → ℕ → Dictionary (List ℕ) → Message O
  subscribe : String → Message O
  unsubscribe : String → Message O
  text_message : String → Message O
  forward_mul_request : ℕ → RequestToNetwork → Message O
  process_mul_request : ℕ → RequestToNetwork → Message O
  add_to_blacklist : ℕ → Message O
  remove_from_blacklist : ℕ → Message O
  report_election_node_status : ℕ → Message O
  report_re_election_node_status : ℕ → Message O
  start_dkg_init : Message O
  start_resharing_init : Message O
  dkg_init_completed : ℕ → Message O
  resharing_init_completed : ℕ → Message O
  start_dkg_round1 : Message O
  start_resharing_round1 : Message O
  dkg_round1_completed : ℕ → Message O
  resharing_round1_completed : ℕ → Message O
  start_dkg_round2 : Message O
  start_resharing_round2 : Message O
  dkg_round2_completed : ℕ → Message O
  resharing_round2_completed : ℕ → Message O
  start_dkg_round3 : Message O
  start_resharing_round3 : Message O
  ping : ℕ → ℕ → Message O
  rollback_to_previous_state : Message O
  save_current_state : Message O
  get_connected_peers : Message O
  get_peer_scores : Message O
  get_mesh_peers : Message O

-- The messages to the other actors: to the election, to the application state and to the key generation.
pub data Forwarded (O : Type 0) : Type 0 where
  check_elected_status : List ProverInfo → Forwarded O
  updated_threshold : ElectionInfo → Forwarded O
  check_re_elected_status :
      ElectionInfo → QuorumMap → QuorumMap → Dictionary (List ℕ) → DrandResponse → Forwarded O
  store_round1_out : ℕ → O → Forwarded O
  store_resharing_round1_out : ℕ → O → Forwarded O
  store_received_public_key store_reshared_received_public_key :
      ℕ → Dictionary (List ℕ) → Forwarded O
  store_kset : ℕ → Dictionary (List ℕ) → ℕ → Dictionary (List ℕ) → Forwarded O
  resharing_store_kset : ℕ → Dictionary (List ℕ) → ℕ → Forwarded O
  process_request : ℕ → RequestToNetwork → Forwarded O
  record_election_node_status record_relection_node_status : ℕ → Forwarded O
  record_dkg_init_node_status record_resharing_init_node_status : ℕ → Forwarded O
  record_dkg_round1_node_status record_resharing_round1_node_status : ℕ → Forwarded O
  record_dkg_round2_node_status record_resharing_round2_node_status : ℕ → Forwarded O
  trigger_start : Start → Forwarded O
  roll_back save_state : Forwarded O

pub data NodeType : Type 0 where
  bootstrap_node relay_node prover_node verifier_node : NodeType

-- The fields of `GossipEngineListener` that the messages depend on.
pub record GossipEngineListener : Type 0 where
  pub peer_id : ℕ
  pub node_type : NodeType
  pub relay_peer_id : ℕ
  pub polled : Bool

-- The first subscription that the relay sees triggers the first election, which the Boolean tells.
unfoldable pub topic_subscribed : GossipEngineListener → GossipEngineListener × Bool
topic_subscribed s = elim s.node_type [
  | relay_node ↦ if s.polled then (s, false) else (record s { polled = true }, true)
  | _ ↦ (s, false)
]

module _ {O : Type 0} where
  -- What only the relay does, and what only the other nodes do.
  unfoldable pub at_relay : GossipEngineListener → List (Forwarded O) → List (Forwarded O)
  at_relay s casts = if s.peer_id == s.relay_peer_id then casts else []

  unfoldable pub at_other_nodes : GossipEngineListener → List (Forwarded O) → List (Forwarded O)
  at_other_nodes s casts = if s.peer_id == s.relay_peer_id then [] else casts

  -- The peer that a message comes from is not looked at, and `todo!()` is a panic.
  unfoldable pub process_message : GossipEngineListener → Message O → Outcome (List (Forwarded O))
  unfolding at_relay at_other_nodes
  process_message s (elected_provers info provers) =
      ok (check_elected_status provers ∷ updated_threshold info ∷ [])
  process_message s (re_elected_provers info tstar_provers new_provers group_keys drand_response) =
      ok (
        at_other_nodes s (
          updated_threshold info
          ∷ check_re_elected_status info tstar_provers new_provers group_keys drand_response
          ∷ []))
  process_message s re_election = ok []
  process_message s (round1_out id outputs) = ok (store_round1_out id outputs ∷ [])
  process_message s (resharing_round1_out id outputs) =
      ok (store_resharing_round1_out id outputs ∷ [])
  process_message s (round2_out idx pubkeys) = ok (store_received_public_key idx pubkeys ∷ [])
  process_message s (resharing_round2_out idx pubkeys) =
      ok (store_reshared_received_public_key idx pubkeys ∷ [])
  process_message s (ready idx peer_id pubkey_shares group_public_keys) =
      ok (store_kset peer_id pubkey_shares idx group_public_keys ∷ [])
  process_message s (resharing_prepared idx peer_id pubkey_shares) =
      ok (resharing_store_kset peer_id pubkey_shares idx ∷ [])
  process_message s (subscribe topic) = panic
  process_message s (unsubscribe topic) = panic
  process_message s (text_message text) = panic
  process_message s (forward_mul_request request_id request) = panic
  process_message s (process_mul_request request_id request) =
      ok (process_request request_id request ∷ [])
  process_message s (add_to_blacklist peer_id) = panic
  process_message s (remove_from_blacklist peer_id) = panic
  process_message s (report_election_node_status peer_id) =
      ok (at_relay s (record_election_node_status peer_id ∷ []))
  process_message s (report_re_election_node_status peer_id) =
      ok (at_relay s (record_relection_node_status peer_id ∷ []))
  process_message s start_dkg_init = ok (at_other_nodes s (trigger_start dkg_init ∷ []))
  process_message s start_resharing_init = ok (at_other_nodes s (trigger_start resharing_init ∷ []))
  process_message s (dkg_init_completed peer_id) =
      ok (at_relay s (record_dkg_init_node_status peer_id ∷ []))
  process_message s (resharing_init_completed peer_id) =
      ok (at_relay s (record_resharing_init_node_status peer_id ∷ []))
  process_message s start_dkg_round1 = ok (at_other_nodes s (trigger_start dkg_round1 ∷ []))
  process_message s start_resharing_round1 =
      ok (at_other_nodes s (trigger_start resharing_round1 ∷ []))
  process_message s (dkg_round1_completed peer_id) =
      ok (at_relay s (record_dkg_round1_node_status peer_id ∷ []))
  process_message s (resharing_round1_completed peer_id) =
      ok (at_relay s (record_resharing_round1_node_status peer_id ∷ []))
  process_message s start_dkg_round2 = ok (at_other_nodes s (trigger_start dkg_round2 ∷ []))
  process_message s start_resharing_round2 =
      ok (at_other_nodes s (trigger_start resharing_round2 ∷ []))
  process_message s (dkg_round2_completed peer_id) =
      ok (at_relay s (record_dkg_round2_node_status peer_id ∷ []))
  process_message s (resharing_round2_completed peer_id) =
      ok (at_relay s (record_resharing_round2_node_status peer_id ∷ []))
  process_message s start_dkg_round3 = ok (at_other_nodes s (trigger_start dkg_round3 ∷ []))
  process_message s start_resharing_round3 =
      ok (at_other_nodes s (trigger_start resharing_round3 ∷ []))
  process_message s (ping peer_id address) = panic
  process_message s rollback_to_previous_state = ok (roll_back ∷ [])
  process_message s save_current_state = ok (save_state ∷ [])
  process_message s get_connected_peers = panic
  process_message s get_peer_scores = panic
  process_message s get_mesh_peers = panic

  -- The messages that are published when another actor asks for it.
  unfoldable pub is_published : Message O → Bool
  is_published (elected_provers info provers) = true
  is_published (re_elected_provers info tstar_provers new_provers group_keys drand_response) = true
  is_published re_election = true
  is_published (round1_out id outputs) = true
  is_published (resharing_round1_out id outputs) = true
  is_published (round2_out idx pubkeys) = true
  is_published (resharing_round2_out idx pubkeys) = true
  is_published (ready idx peer_id pubkey_shares group_public_keys) = true
  is_published (resharing_prepared idx peer_id pubkey_shares) = true
  is_published (subscribe topic) = false
  is_published (unsubscribe topic) = false
  is_published (text_message text) = false
  is_published (forward_mul_request request_id request) = false
  is_published (process_mul_request request_id request) = false
  is_published (add_to_blacklist peer_id) = false
  is_published (remove_from_blacklist peer_id) = false
  is_published (report_election_node_status peer_id) = true
  is_published (report_re_election_node_status peer_id) = true
  is_published start_dkg_init = true
  is_published start_resharing_init = true
  is_published (dkg_init_completed peer_id) = true
  is_published (resharing_init_completed peer_id) = true
  is_published start_dkg_round1 = true
  is_published start_resharing_round1 = true
  is_published (dkg_round1_completed peer_id) = true
  is_published (resharing_round1_completed peer_id) = true
  is_published start_dkg_round2 = true
  is_published start_resharing_round2 = true
  is_published (dkg_round2_completed peer_id) = true
  is_published (resharing_round2_completed peer_id) = true
  is_published start_dkg_round3 = true
  is_published start_resharing_round3 = true
  is_published (ping peer_id address) = false
  is_published rollback_to_previous_state = true
  is_published save_current_state = true
  is_published get_connected_peers = false
  is_published get_peer_scores = false
  is_published get_mesh_peers = false

  unfoldable pub get_type : Message O → String
  get_type (elected_provers info provers) = "ElectedProvers"
  get_type (re_elected_provers info tstar_provers new_provers group_keys drand_response) =
      "ReElectedProvers"
  get_type re_election = "ReElection"
  get_type (round1_out id outputs) = "Round1Out"
  get_type (resharing_round1_out id outputs) = "ResharingRound1Out"
  get_type (round2_out idx pubkeys) = "Round2Output"
  get_type (resharing_round2_out idx pubkeys) = "ResharingRound2Out"
  get_type (ready idx peer_id pubkey_shares group_public_keys) = "Ready"
  get_type (resharing_prepared idx peer_id pubkey_shares) = "ResharingPrepared"
  get_type (subscribe topic) = "Subscribe"
  get_type (unsubscribe topic) = "Unsubscribe"
  get_type (text_message text) = "Message"
  get_type (forward_mul_request request_id request) = "ForwardMulRequest"
  get_type (process_mul_request request_id request) = "ProcessOprf"
  get_type (add_to_blacklist peer_id) = "AddToBlackList"
  get_type (remove_from_blacklist peer_id) = "RemoveFromBlacklist"
  get_type (report_election_node_status peer_id) = "ReportElectionNodeStatus"
  get_type (report_re_election_node_status peer_id) = "ReportReElectionNodeStatus"
  get_type start_dkg_init = "StartDKGInit"
  get_type start_resharing_init = "StartResharingInit"
  get_type (dkg_init_completed peer_id) = "DKGInitCompleted"
  get_type (resharing_init_completed peer_id) = "ResharingInitCompleted"
  get_type start_dkg_round1 = "StartDKGRound1"
  get_type start_resharing_round1 = "StartResharingRound1"
  get_type (dkg_round1_completed peer_id) = "DKGRound1Completed"
  get_type (resharing_round1_completed peer_id) = "ResharingRound1Completed"
  get_type start_dkg_round2 = "StartDKGRound2"
  get_type start_resharing_round2 = "StartResharingRound2"
  get_type (dkg_round2_completed peer_id) = "DKGRound2Completed"
  get_type (resharing_round2_completed peer_id) = "ResharingRound2Completed"
  get_type start_dkg_round3 = "StartDKGRound3"
  get_type start_resharing_round3 = "StartResharingRound3"
  get_type (ping peer_id address) = "SwarmPing"
  get_type rollback_to_previous_state = "RollbackToPreviousState"
  get_type save_current_state = "SaveCurrentState"
  get_type get_connected_peers = "GetConnectedPeers"
  get_type get_peer_scores = "GetPeerScores"
  get_type get_mesh_peers = "GetMeshPeers"
