-- ===== src/Actors/Election/Reelection.antt =====
-- network/crates/actors/src/election_actor.rs: the first election, the later ones, and what an elected
-- node does. Peers and their registry are asked over HTTP: the provers of the registry, the ones that
-- answer a ping, and the newest round of `drand` are arguments. The loops that wait until there are
-- enough of them end with the answer that is given here.
use human_network.Prelude.{
  ℕ, Bool, true, false, String, List, [], ◌∷◌, ◌++◌, Option, none, some, Outcome, ok, err, panic,
  get, insert, contains, length, take, ltb, leb, ◌==◌, if◌then◌else◌, ◌>>=◌, invalid_input,
  call_failed, Dictionary,
}
use human_network.Actors.AppState.{ProverInfo, ElectionInfo, QuorumMap}
use human_network.Actors.AppState.Monitor.{dkg, resharing}
use human_network.Cryptography.NodeSelection.{Float, weighted_sample_n_no_replace}
use human_network.Messages.Drand.{DrandResponse, select_rand_num, check_drand_response}
use human_network.Actors.Election.{
  quorum_elected, ElectionEngineState, Cast, clear_shares, dkg_clear_shares, update_elected_provers,
  store_quorum_map, updated_threshold, forward_re_elected_provers, update_cached_provers_map,
  monitor_quorum_formation, update_node_idx, init_dkg, init_resharing, gossip_elected_provers,
  report_election_node_status, report_re_election_node_status, Percentage, calculate_threshold,
  peers_of,
}

-- The maps of a quorum, with the index that each prover has in the registry.
unfoldable pub quorum_map : List ProverInfo → QuorumMap → QuorumMap
quorum_map [] m = m
quorum_map (prover ∷ provers) m = quorum_map provers (insert prover.peer_id (prover, prover.idx) m)

-- The provers after the two first ones, a panic if there are not that many.
unfoldable pub after_bootstrap : List ProverInfo → Outcome (List ProverInfo)
after_bootstrap (bootstrap ∷ relay ∷ provers) = ok provers
after_bootstrap _ = panic

-- The provers that are not excluded, and those whose peer is listed.
unfoldable pub without_excluded : List ℕ → List ProverInfo → List ProverInfo
without_excluded excluded [] = []
without_excluded excluded (prover ∷ provers) =
    let rest = without_excluded excluded provers in
    if contains prover.peer_id excluded then rest else prover ∷ rest

unfoldable pub listed : List ℕ → List ProverInfo → List ProverInfo
listed peers [] = []
listed peers (prover ∷ provers) =
    let rest = listed peers provers in if contains prover.peer_id peers then prover ∷ rest else rest

unfoldable pub find_peer : ℕ → List ProverInfo → Option ProverInfo
find_peer peer_id [] = none
find_peer peer_id (prover ∷ provers) =
    if prover.peer_id == peer_id then some prover else find_peer peer_id provers

-- The parameters of an election, which the relay can change.
pub record ElectionParams (D : Type 0) : Type 0 where
  pub min_nodes : ℕ
  pub epsilon : ℕ
  pub threshold : D

-- `UpdateElectionParams`: what is given replaces what was there.
unfoldable pub update_election_params :
    {D : Type 0} → Option D → Option ℕ → Option ℕ → ElectionParams D → ElectionParams D
update_election_params threshold epsilon min_nodes params = record {
  threshold = elim threshold [ some t ↦ t | none ↦ params.threshold ];
  epsilon = elim epsilon [ some e ↦ e | none ↦ params.epsilon ];
  min_nodes = elim min_nodes [ some n ↦ n | none ↦ params.min_nodes ];
}

module _ {D : Type 0} (f : Percentage D) (params : ElectionParams D) where
  -- `handle_trigger_election`, for the provers of the registry and the reachable ones, of which there are
  -- enough. The clearing of the statuses of the key generation is that of the code.
  unfoldable pub handle_trigger_election :
      List ProverInfo
      → List ProverInfo
      → ElectionEngineState
      → Outcome (ElectionEngineState × List Cast)
  unfolding after_bootstrap quorum_map calculate_threshold
  handle_trigger_election provers reachable_peers s = do
    fetched ← after_bootstrap provers
    let elected = take params.min_nodes reachable_peers
    let threshold = calculate_threshold f (length elected) params.threshold
    let info : ElectionInfo = record {
      threshold = threshold;
      epsilon = params.epsilon;
      total_provers = length elected;
    }
    ok (
      record s {
        current_state = quorum_elected;
        dkg_init_status = [];
        dkg_round1_status = [];
        dkg_round2_status = [];
        elected_provers = elected;
        current_threshold = threshold;
      },
      update_cached_provers_map (quorum_map elected [])
          ∷ update_elected_provers elected false
          ∷ updated_threshold info
          ∷ gossip_elected_provers info elected
          ∷ monitor_quorum_formation dkg
          ∷ [],
    )

  -- The statuses of earlier elections are dropped.
  unfoldable pub clear_statuses : ElectionEngineState → ElectionEngineState
  clear_statuses s = record s {
    election_status = [];
    re_election_status = [];
    re_sharing_init_status = [];
    re_sharing_round1_status = [];
    re_sharing_round2_status = [];
    dkg_init_status = [];
    dkg_round1_status = [];
    dkg_round2_status = [];
  }

  -- The two quorums of a new election and the messages that start the resharing; `current_threshold` is
  -- compared with and stays as it is.
  unfoldable pub start_resharing :
      List ProverInfo
      → List ProverInfo
      → List ProverInfo
      → DrandResponse
      → ElectionEngineState
      → ElectionEngineState × List Cast
  unfolding listed quorum_map calculate_threshold
  start_resharing prev_elected_provers reachable_peers new_set drand_response s =
      let t_star_quorum = listed (peers_of prev_elected_provers) reachable_peers in
      let new_quorum = take params.min_nodes new_set in
      let tstar_quorum_map = quorum_map t_star_quorum [] in
      let new_quorum_map = quorum_map new_quorum [] in
      let info : ElectionInfo = record {
        threshold = calculate_threshold f (length new_quorum) params.threshold;
        epsilon = params.epsilon;
        total_provers = length new_quorum;
      } in
      if leb s.current_threshold (length t_star_quorum)
      then (
        record s { tstar_provers = t_star_quorum; elected_provers = new_quorum },
        clear_shares
            ∷ update_elected_provers new_quorum true
            ∷ store_quorum_map tstar_quorum_map new_quorum_map
            ∷ updated_threshold info
            ∷ forward_re_elected_provers info tstar_quorum_map new_quorum_map drand_response
            ∷ monitor_quorum_formation resharing
            ∷ [],
      )
      else (s, [])

  -- `TriggerReElection`: `ping_peers` answers the reachable peers or an error; `rand_num` is the node's own
  -- random number, `latest` the round of `drand`, if it can be fetched.
  unfoldable pub trigger_re_election :
      {F R : Type 0}
      → Float F R
      → (List ℕ → R)
      → (ℕ → List ℕ → List ℕ → Option Bool)
      → (String → Option (List ℕ))
      → (List ProverInfo → Option (List ProverInfo))
      → List ProverInfo
      → List ℕ
      → Option DrandResponse
      → List ProverInfo
      → ElectionEngineState
      → ElectionEngineState × Outcome (List Cast)
  unfolding clear_statuses start_resharing after_bootstrap without_excluded select_rand_num
      weighted_sample_n_no_replace
  trigger_re_election float from_seed bls_verify decode ping_peers provers rand_num latest
        prev_elected_provers s =
      let s' = clear_statuses s in
      elim (after_bootstrap provers) [
        | err e ↦ (s', err e)
        | panic ↦ (s', panic)
        | ok fetched ↦ elim (without_excluded s.exclusion_list fetched) [
          | [] ↦ (s', err invalid_input)
          | p ∷ ps ↦ elim (ping_peers (p ∷ ps)) [
            | none ↦ (s', err call_failed)
            | some reachable_peers ↦
                let sampled : Outcome (Option (List ProverInfo) × DrandResponse) = do
                  (chosen, drand_response) ← select_rand_num bls_verify decode rand_num latest
                  new_set ←
                      weighted_sample_n_no_replace float (λ prover. prover.voting_power) from_seed
                        params.min_nodes reachable_peers params.min_nodes chosen
                  ok (new_set, drand_response)
                in if ltb (length reachable_peers) params.min_nodes
                  then (s', ok [])
                  else elim sampled [
                    | err e ↦ (s', err e)
                    | panic ↦ (s', panic)
                    | ok (none, drand_response) ↦ (s', ok (monitor_quorum_formation resharing ∷ []))
                    | ok (some new_set, drand_response) ↦
                        let (s'', casts) =
                          start_resharing prev_elected_provers reachable_peers new_set
                            drand_response s' in
                        (s'', ok casts)
                  ]
          ]
        ]
      ]

  -- `handle_trigger_init_dkg`
  unfoldable pub handle_trigger_init_dkg : ElectionEngineState → List Cast
  unfolding find_peer quorum_map calculate_threshold
  handle_trigger_init_dkg s = elim (find_peer s.peer_id s.elected_provers) [
    | none ↦ []
    | some prover ↦
        init_dkg prover.idx s.peer_id (quorum_map s.elected_provers [])
          (calculate_threshold f (length s.elected_provers) params.threshold)
        ∷ []
  ]

-- `handle_check_elected_status`
unfoldable pub handle_check_elected_status :
    List ProverInfo → ElectionEngineState → ElectionEngineState × List Cast
unfolding find_peer quorum_map
handle_check_elected_status peer_ids s = elim (find_peer s.peer_id peer_ids) [
  | none ↦ (s, [])
  | some prover ↦ (
    record s { elected_provers = peer_ids },
    update_node_idx prover.idx
        ∷ update_cached_provers_map (quorum_map peer_ids [])
        ∷ report_election_node_status s.peer_id
        ∷ [],
  )
]

-- `handle_check_re_elected_status`
unfoldable pub handle_check_re_elected_status :
    ElectionInfo
    → QuorumMap
    → QuorumMap
    → Dictionary (List ℕ)
    → ElectionEngineState
    → ElectionEngineState × List Cast
handle_check_re_elected_status election_info tstar_provers new_provers group_keys s =
    let reports : List Cast = elim (get s.peer_id tstar_provers) [
      | some _ ↦ report_re_election_node_status s.peer_id ∷ []
      | none ↦ elim (get s.peer_id new_provers) [
        | some (info, idx) ↦ report_re_election_node_status s.peer_id ∷ update_node_idx idx ∷ []
        | none ↦ []
      ]
    ] in
    (
      record s {
        re_election_check_context = some (record {
          tstar_provers = tstar_provers;
          new_provers = new_provers;
          group_keys = group_keys;
          election_info = election_info;
        });
      },
      clear_shares ∷ dkg_clear_shares ∷ reports ++ update_cached_provers_map new_provers ∷ [],
    )

-- `CheckReElectedStatus`: `latest` is the newest round of `drand`, if it can be fetched.
unfoldable pub check_re_elected_status :
    (ℕ → List ℕ → List ℕ → Option Bool)
    → (String → Option (List ℕ))
    → Option DrandResponse
    → ElectionInfo
    → QuorumMap
    → QuorumMap
    → Dictionary (List ℕ)
    → DrandResponse
    → ElectionEngineState
    → Outcome (ElectionEngineState × List Cast)
unfolding handle_check_re_elected_status check_drand_response
check_re_elected_status bls_verify decode latest info tstar_provers new_provers group_keys
      drand_response s =
    do
      goes_on ← check_drand_response bls_verify decode latest drand_response
      ok (
          if goes_on
          then handle_check_re_elected_status info tstar_provers new_provers group_keys s
          else (s, []))

-- `handle_trigger_init_resharing`
unfoldable pub handle_trigger_init_resharing : ElectionEngineState → List Cast
handle_trigger_init_resharing s = elim s.re_election_check_context [
  | none ↦ []
  | some c ↦ elim (get s.peer_id c.tstar_provers) [
    | some (info, idx) ↦
        init_resharing idx c.tstar_provers c.new_provers c.election_info s.peer_id c.group_keys ∷ []
    | none ↦ elim (get s.peer_id c.new_provers) [
      | some (info, idx) ↦
          init_resharing idx c.tstar_provers c.new_provers c.election_info s.peer_id c.group_keys
          ∷ update_node_idx idx
          ∷ []
      | none ↦ []
    ]
  ]
]
