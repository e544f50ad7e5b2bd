-- ===== src/Actors/GossipEngine/Handled.antt =====
-- network/crates/actors/src/gossip_engine_actor.rs: which messages of the gossip a node survives.
use human_network.Prelude.{◌≡◌, refl, Bool, true, false, ◌||◌, Outcome, ok, err, panic}
use human_network.Actors.GossipEngine.{
  Message, GossipEngineListener, process_message, is_published, elected_provers, re_elected_provers,
  re_election, round1_out, resharing_round1_out, round2_out, resharing_round2_out, ready,
  resharing_prepared, subscribe, unsubscribe, text_message, forward_mul_request,
  process_mul_request, add_to_blacklist, remove_from_blacklist, report_election_node_status,
  report_re_election_node_status, start_dkg_init, start_resharing_init, dkg_init_completed,
  resharing_init_completed, start_dkg_round1, start_resharing_round1, dkg_round1_completed,
  resharing_round1_completed, start_dkg_round2, start_resharing_round2, dkg_round2_completed,
  resharing_round2_completed, start_dkg_round3, start_resharing_round3, ping,
  rollback_to_previous_state, save_current_state, get_connected_peers, get_peer_scores,
  get_mesh_peers,
}

abbrev pub is_answered {ℓ} : {A : Type ℓ} → Outcome A → Bool
is_answered (ok casts) = true
is_answered (err e) = true
is_answered panic = false

abbrev is_mul_request : {O : Type 0} → Message O → Bool
is_mul_request (process_mul_request request_id request) = true
is_mul_request _ = false

-- A node handles a message without a panic if and only if it is one of those that nodes publish, or the
-- request for a multiplication that the node makes itself from a forwarded one.
pub process_message-is_published :
    {O : Type 0} (s : GossipEngineListener) (message : Message O)
    → is_answered (process_message s message) ≡ (is_published message || is_mul_request message)
unfolding process_message is_published
process_message-is_published s (elected_provers info provers) = refl
process_message-is_published s
      (re_elected_provers info tstar_provers new_provers group_keys drand_response) =
    refl
process_message-is_published s re_election = refl
process_message-is_published s (round1_out id outputs) = refl
process_message-is_published s (resharing_round1_out id outputs) = refl
process_message-is_published s (round2_out idx pubkeys) = refl
process_message-is_published s (resharing_round2_out idx pubkeys) = refl
process_message-is_published s (ready idx peer_id pubkey_shares group_public_keys) = refl
process_message-is_published s (resharing_prepared idx peer_id pubkey_shares) = refl
process_message-is_published s (subscribe topic) = refl
process_message-is_published s (unsubscribe topic) = refl
process_message-is_published s (text_message text) = refl
process_message-is_published s (forward_mul_request request_id request) = refl
process_message-is_published s (process_mul_request request_id request) = refl
process_message-is_published s (add_to_blacklist peer_id) = refl
process_message-is_published s (remove_from_blacklist peer_id) = refl
process_message-is_published s (report_election_node_status peer_id) = refl
process_message-is_published s (report_re_election_node_status peer_id) = refl
process_message-is_published s start_dkg_init = refl
process_message-is_published s start_resharing_init = refl
process_message-is_published s (dkg_init_completed peer_id) = refl
process_message-is_published s (resharing_init_completed peer_id) = refl
process_message-is_published s start_dkg_round1 = refl
process_message-is_published s start_resharing_round1 = refl
process_message-is_published s (dkg_round1_completed peer_id) = refl
process_message-is_published s (resharing_round1_completed peer_id) = refl
process_message-is_published s start_dkg_round2 = refl
process_message-is_published s start_resharing_round2 = refl
process_message-is_published s (dkg_round2_completed peer_id) = refl
process_message-is_published s (resharing_round2_completed peer_id) = refl
process_message-is_published s start_dkg_round3 = refl
process_message-is_published s start_resharing_round3 = refl
process_message-is_published s (ping peer_id address) = refl
process_message-is_published s rollback_to_previous_state = refl
process_message-is_published s save_current_state = refl
process_message-is_published s get_connected_peers = refl
process_message-is_published s get_peer_scores = refl
process_message-is_published s get_mesh_peers = refl
