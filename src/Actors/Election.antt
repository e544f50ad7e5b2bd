-- ===== src/Actors/Election.antt =====
-- network/crates/actors/src/election_actor.rs: the election of a quorum, on the relay, and the
-- gathering of its members' reports, after which the next round is announced. What a handler sends to
-- other actors is a list; the statuses of a resharing, of which a map holds one kind only, are sets.
pub mod Reports
pub mod Reelection
use human_network.Prelude.{
  ℕ, ◌+◌, Bool, true, false, ◌||◌, List, [], ◌∷◌, ◌++◌, Option, none, some, Outcome, ok, err, panic,
  Assoc, get, insert, contains, set_insert, drop_key, length, take, ltb, leb, ◌==◌, if◌then◌else◌,
  ◌>>=◌, Dictionary, invalid_input, call_failed,
}
use human_network.Messages.Drand.{DrandResponse}
use human_network.Actors.AppState.{ProverInfo, ElectionInfo, QuorumMap}
use human_network.Actors.AppState.Monitor.{MonitorEvent, dkg}

-- `ElectionState` of network/crates/messages/src/lib.rs
pub data ElectionState : Type 0 where
  collecting_proposals collected_proposals trigger_election quorum_elected : ElectionState

-- `ReElectionCheckContext`
pub record ReElectionCheckContext : Type 0 where
  pub tstar_provers : QuorumMap
  pub new_provers : QuorumMap
  pub group_keys : Dictionary (List ℕ)
  pub election_info : ElectionInfo

pub record ElectionEngineState : Type 0 where
  pub peer_id : ℕ
  pub relay_node : ℕ
  pub current_state : ElectionState
  pub tstar_provers : List ProverInfo
  pub elected_provers : List ProverInfo
  pub current_threshold : ℕ
  pub election_status : List ℕ
  pub re_election_status : List ℕ
  pub dkg_init_status : List ℕ
  pub re_sharing_init_status : List ℕ
  pub dkg_round1_status : List ℕ
  pub dkg_round2_status : List ℕ
  pub re_sharing_round1_status : List ℕ
  pub re_sharing_round2_status : List ℕ
  pub re_election_check_context : Option ReElectionCheckContext
  -- `TEMP_EXCLUSION_PEER_LIST`
  pub exclusion_list : List ℕ

-- The rounds that are announced to all nodes.
pub data Start : Type 0 where
  dkg_init dkg_round1 dkg_round2 dkg_round3 : Start
  resharing_init resharing_round1 resharing_round2 resharing_round3 : Start

-- The messages to the other actors: to the application state, to the key generation, and gossip.
pub data Cast : Type 0 where
  clear_shares dkg_clear_shares : Cast
  update_elected_provers : List ProverInfo → Bool → Cast
  store_quorum_map : QuorumMap → QuorumMap → Cast
  updated_threshold : ElectionInfo → Cast
  forward_re_elected_provers : ElectionInfo → QuorumMap → QuorumMap → DrandResponse → Cast
  update_cached_provers_map : QuorumMap → Cast
  monitor_quorum_formation : MonitorEvent → Cast
  update_node_idx : ℕ → Cast
  init_dkg : ℕ → ℕ → QuorumMap → ℕ → Cast
  init_resharing : ℕ → QuorumMap → QuorumMap → ElectionInfo → ℕ → Dictionary (List ℕ) → Cast
  gossip_start : Start → Cast
  gossip_elected_provers : ElectionInfo → List ProverInfo → Cast
  report_election_node_status report_re_election_node_status : ℕ → Cast

-- The numbers `f64` as far as the threshold needs them, with the conversion to `u32` after `ceil`.
pub record Percentage (D : Type 0) : Type 0 where
  pub zero : D
  pub hundred : D
  pub lt : D → D → Bool
  pub times : ℕ → D → D
  pub over_hundred : D → D
  pub ceil_u32 : D → ℕ

-- The last test of the code returns a result of 0 as 0.
unfoldable pub calculate_threshold : {D : Type 0} → Percentage D → ℕ → D → ℕ
calculate_threshold f n threshold_percentage =
    let intermediate = f.over_hundred (f.times n threshold_percentage) in
    let result = f.ceil_u32 intermediate in
    if f.lt threshold_percentage f.zero || f.lt f.hundred threshold_percentage
    then 0
    else if n == 0
    then 0
    else result

-- The peers of a list of provers, and the same without repetitions.
abbrev pub peers_of : List ProverInfo → List ℕ
peers_of [] = []
peers_of (prover ∷ provers) = prover.peer_id ∷ peers_of provers

unfoldable pub unique : List ℕ → List ℕ
unique [] = []
unique (x ∷ xs) = set_insert x (unique xs)

-- A report is kept if it comes from a member.
unfoldable pub keep_report : List ℕ → ℕ → List ℕ → List ℕ
keep_report members peer_id status =
    if contains peer_id members then set_insert peer_id status else status

-- The next round is announced when there are as many reports as members.
unfoldable pub announce : Start → List ℕ → List ℕ → List Cast
announce start members status =
    if length status == length members then gossip_start start ∷ [] else []

unfoldable pub record_election_node_status :
    ℕ → ElectionEngineState → ElectionEngineState × List Cast
unfolding keep_report announce unique
record_election_node_status peer_id s =
    let elected_peer_ids = unique (peers_of s.elected_provers) in
    let status = keep_report elected_peer_ids peer_id s.election_status in
    (record s { election_status = status }, announce dkg_init elected_peer_ids status)

unfoldable pub record_relection_node_status :
    ℕ → ElectionEngineState → ElectionEngineState × List Cast
unfolding keep_report announce unique
record_relection_node_status peer_id s =
    let list_resharing_init_peers = unique (peers_of (s.elected_provers ++ s.tstar_provers)) in
    let status = keep_report list_resharing_init_peers peer_id s.re_election_status in
    if contains peer_id s.re_election_status then (s, []) else (
      record s { re_election_status = status },
      announce resharing_init list_resharing_init_peers status,
    )

unfoldable pub record_dkg_init_node_status :
    ℕ → ElectionEngineState → ElectionEngineState × List Cast
unfolding keep_report announce
record_dkg_init_node_status peer_id s =
    let status = keep_report (peers_of s.elected_provers) peer_id s.dkg_init_status in
    (record s { dkg_init_status = status }, announce dkg_round1 (peers_of s.elected_provers) status)

unfoldable pub record_resharing_init_node_status :
    ℕ → ElectionEngineState → ElectionEngineState × List Cast
unfolding keep_report announce unique
record_resharing_init_node_status peer_id s =
    let unique_provers = unique (peers_of (s.tstar_provers ++ s.elected_provers)) in
    let status = keep_report unique_provers peer_id s.re_sharing_init_status in
    if contains peer_id s.re_sharing_init_status then (s, []) else (
      record s { re_sharing_init_status = status },
      announce resharing_round1 unique_provers status,
    )

unfoldable pub record_dkg_round1_node_status :
    ℕ → ElectionEngineState → ElectionEngineState × List Cast
unfolding keep_report announce
record_dkg_round1_node_status peer_id s =
    let status = keep_report (peers_of s.elected_provers) peer_id s.dkg_round1_status in
    (
      record s { dkg_round1_status = status },
      announce dkg_round2 (peers_of s.elected_provers) status,
    )

unfoldable pub record_resharing_round1_node_status :
    ℕ → ElectionEngineState → ElectionEngineState × List Cast
unfolding keep_report announce
record_resharing_round1_node_status peer_id s =
    let status = keep_report (peers_of s.elected_provers) peer_id s.re_sharing_round1_status in
    if contains peer_id s.re_sharing_round1_status then (s, []) else (
      record s { re_sharing_round1_status = status },
      announce resharing_round2 (peers_of s.elected_provers) status,
    )

unfoldable pub record_dkg_round2_node_status :
    ℕ → ElectionEngineState → ElectionEngineState × List Cast
unfolding keep_report announce
record_dkg_round2_node_status peer_id s =
    let status = keep_report (peers_of s.elected_provers) peer_id s.dkg_round2_status in
    (
      record s { dkg_round2_status = status },
      announce dkg_round3 (peers_of s.elected_provers) status,
    )

unfoldable pub record_resharing_round2_node_status :
    ℕ → ElectionEngineState → ElectionEngineState × List Cast
unfolding keep_report announce
record_resharing_round2_node_status peer_id s =
    let status = keep_report (peers_of s.elected_provers) peer_id s.re_sharing_round2_status in
    if contains peer_id s.re_sharing_round2_status then (s, []) else (
      record s { re_sharing_round2_status = status },
      announce resharing_round3 (peers_of s.elected_provers) status,
    )

-- `AddToExclusionList` and `RemoveFromExclusionList`, on the relay only; the list is also saved.
unfoldable pub add_to_exclusion_list :
    ℕ → ElectionEngineState → ElectionEngineState × Outcome (Unit {0})
add_to_exclusion_list peer_id s =
    if s.peer_id == s.relay_node
    then (record s { exclusion_list = set_insert peer_id s.exclusion_list }, ok tt)
    else (s, err invalid_input)

unfoldable pub remove_from_exclusion_list :
    ℕ → ElectionEngineState → ElectionEngineState × Outcome (Unit {0})
remove_from_exclusion_list peer_id s =
    if s.peer_id == s.relay_node
    then (record s { exclusion_list = drop_key peer_id s.exclusion_list }, ok tt)
    else (s, err invalid_input)
