-- ===== src/Examples/Elections.antt =====
-- Runs of the relay's election: a resharing from the quorum of the peers 5 and 6 to that of 6 and 7.
use human_network.Prelude.{ℕ, ◌≡◌, refl, true, false, [], ◌∷◌, none}
use human_network.Actors.AppState.{ProverInfo}
use human_network.Actors.Election.{
  ElectionEngineState, quorum_elected, gossip_start, resharing_round1,
  record_resharing_init_node_status,
}
use human_network.Actors.GossipEngine.{
  Message, GossipEngineListener, prover_node, process_message, start_dkg_round1,
}
use human_network.Actors.GossipEngine.Handled.{is_answered, process_message-is_published}
use human_network.Actors.Election.Reports.{reported, record_resharing_init_node_status-announce}

abbrev prover : ℕ → ProverInfo
prover n = record {
  evm_address = n;
  peer_id = n;
  address = n;
  rsa_pub_key = [];
  voting_power = 1;
  idx = n;
}

abbrev relay_state : ElectionEngineState
relay_state = record {
  peer_id = 2;
  relay_node = 2;
  current_state = quorum_elected;
  tstar_provers = prover 5 ∷ prover 6 ∷ [];
  elected_provers = prover 6 ∷ prover 7 ∷ [];
  current_threshold = 2;
  election_status = [];
  re_election_status = [];
  dkg_init_status = [];
  re_sharing_init_status = [];
  dkg_round1_status = [];
  dkg_round2_status = [];
  re_sharing_round1_status = [];
  re_sharing_round2_status = [];
  re_election_check_context = none;
  exclusion_list = [];
}

record_resharing_init_node_status-announce_example :
    (record_resharing_init_node_status 7 (reported (6 ∷ 5 ∷ []) relay_state)).1
    ≡ gossip_start resharing_round1 ∷ []
unfolding human_network.Actors.Election.unique
record_resharing_init_node_status-announce_example =
    record_resharing_init_node_status-announce relay_state (6 ∷ 5 ∷ []) 7 refl refl

-- A prover is told to start the key generation.
abbrev listener : GossipEngineListener
listener = record { peer_id = 5; node_type = prover_node; relay_peer_id = 2; polled = false }

abbrev start_message : Message ℕ
start_message = start_dkg_round1

process_message-is_published_example : is_answered (process_message listener start_message) ≡ true
unfolding human_network.Actors.GossipEngine.is_published
process_message-is_published_example = process_message-is_published listener start_message
