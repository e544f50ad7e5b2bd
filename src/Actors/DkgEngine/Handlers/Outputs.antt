-- ===== src/Actors/DkgEngine/Handlers/Outputs.antt =====
-- network/crates/actors/src/dkg_engine_actor.rs: what a node does with the outputs of the other nodes, and
-- round 2 of a key generation. The operations of a node are arguments.
use human_network.Prelude.{
  ℕ, Bool, true, ◌&&◌, List, [], ◌∷◌, ◌+◌, ◌-◌, ◌%◌, ◌^◌, none, some, Outcome, ok, err, panic, ◌==◌,
  ◌||◌, false, if◌then◌else◌, length, Dictionary, String, str_eq,
}
use human_network.Actors.AppState.{QuorumMap}
use human_network.Actors.DkgEngine.State.{DkgEngineState, run_round}
use human_network.Actors.DkgEngine.Handlers.{
  gossip_dkg_round1_completed, gossip_resharing_round1_completed, gossip_dkg_round2_completed,
  gossip_round2_out, Round1Output, DkgState, Answer, is_in,
}

-- Whether a prover of the quorum has the index.
has_index : ℕ → QuorumMap → Bool
has_index idx [] = false
has_index idx ((peer_id, (prover, node_idx)) ∷ provers) = node_idx == idx || has_index idx provers

module _ {N : Type 0} where
  -- `get_mut` of a node and an operation on it; nothing is done without the node.
  at_node : String → (N → N × Outcome (Unit {0})) → Dictionary N → Dictionary N × Outcome (Unit {0})
  at_node key operation [] = ([], ok tt)
  at_node key operation ((k, node) ∷ nodes) =
      let (node', result) = operation node in
      let (nodes', result') = at_node key operation nodes in
      if str_eq k key then ((k, node') ∷ nodes, result) else ((k, node) ∷ nodes', result')

  -- An error of one registration is logged.
  register_all :
      {O : Type 0}
      → (O → N → N × Outcome (Unit {0}))
      → Dictionary O
      → Dictionary N
      → Dictionary N × Outcome (Unit {0})
  unfolding at_node
  register_all register [] nodes = (nodes, ok tt)
  register_all register ((key, outputs) ∷ rest) nodes =
      let (nodes', result) = at_node key (register outputs) nodes in
      let registered = register_all register rest nodes' in
      elim result [ panic ↦ (nodes', panic) | _ ↦ registered ]

  -- An error of one share ends the storing.
  store_all :
      (List ℕ → N → N × Outcome (Unit {0}))
      → Dictionary (List ℕ)
      → Dictionary N
      → Dictionary N × Outcome (Unit {0})
  unfolding at_node
  store_all store [] nodes = (nodes, ok tt)
  store_all store ((key, pubshare) ∷ rest) nodes =
      let (nodes', result) = at_node key (store pubshare) nodes in
      let stored = store_all store rest nodes' in
      elim result [ panic ↦ (nodes', panic) | err e ↦ (nodes', err e) | ok _ ↦ stored ]

  all_nodes : (N → Bool) → Dictionary N → Bool
  all_nodes test [] = true
  all_nodes test ((key, node) ∷ nodes) = test node && all_nodes test nodes

  have_inputs : (N → ℕ × ℕ) → ℕ → N → Bool
  have_inputs no_of_inputs required node =
      let (i, j) = no_of_inputs node in i == required && j == required

module _ {Pk Sk N : Type 0} where
  -- `handle_round1_output`: the output of any index is registered.
  unfoldable pub handle_round1_output :
      (N → ℕ × ℕ)
      → (ℕ → ℕ → Round1Output → N → N × Outcome (Unit {0}))
      → ℕ
      → Dictionary Round1Output
      → DkgState Pk Sk N
      → Answer Pk Sk N
  unfolding register_all all_nodes have_inputs
  handle_round1_output no_of_inputs register idx round_1_outputs none = (none, ok [])
  handle_round1_output no_of_inputs register idx round_1_outputs (some s) =
      let (nodes, result) = register_all (register s.idx idx) round_1_outputs s.dkg_nodes in
      let s' : DkgEngineState Pk Sk N = record s { dkg_nodes = nodes } in
      let required = (s.network.total_nodes + 2 ^ 64 - 1) % 2 ^ 64 in
      elim result [
        | panic ↦ (some s', panic)
        | _ ↦ (
          some s',
          ok (
              if all_nodes (have_inputs no_of_inputs required) nodes
              then gossip_dkg_round1_completed s.peer_id ∷ []
              else []),
        )
      ]

  -- `handle_resharing_round1_output`: only outputs of the old quorum, for a member of the new one.
  unfoldable pub handle_resharing_round1_output :
      {O : Type 0}
      → (N → ℕ × ℕ)
      → (ℕ → ℕ → O → N → N × Outcome (Unit {0}))
      → ℕ
      → Dictionary O
      → DkgState Pk Sk N
      → Answer Pk Sk N
  unfolding register_all all_nodes have_inputs has_index
  handle_resharing_round1_output no_of_inputs register idx round_1_outputs none = (none, ok [])
  handle_resharing_round1_output no_of_inputs register idx round_1_outputs (some s) =
      let (nodes, result) = register_all (register s.idx idx) round_1_outputs s.dkg_nodes in
      let s' : DkgEngineState Pk Sk N = record s { dkg_nodes = nodes } in
      let registered : Answer Pk Sk N = elim result [
        | panic ↦ (some s', panic)
        | _ ↦ (
          some s',
          ok (
              if all_nodes (have_inputs no_of_inputs (length s.tstar_provers)) nodes
              then gossip_resharing_round1_completed s.peer_id ∷ []
              else []),
        )
      ] in
      if is_in s.new_provers s.peer_id && has_index idx s.tstar_provers
      then registered
      else (some s, ok [])

  -- `handle_round2`: the nodes after the first one that fails are not run, and nothing is published then.
  unfoldable pub handle_round2 :
      (N → ℕ)
      → (DkgEngineState Pk Sk N → N → N × Outcome (List ℕ))
      → DkgState Pk Sk N
      → Answer Pk Sk N
  unfolding run_round all_nodes
  handle_round2 no_of_other_pub_shares dkg_round_2 none = (none, ok [])
  handle_round2 no_of_other_pub_shares dkg_round_2 (some s) =
      let (nodes, outputs) = run_round (λ key. dkg_round_2 s) s.dkg_nodes in
      let s' : DkgEngineState Pk Sk N = record s { dkg_nodes = nodes } in
      let done : Answer Pk Sk N = elim outputs [
        | err e ↦ (some s', err e)
        | panic ↦ (some s', panic)
        | ok pubkeys_for_node ↦ (
          some s',
          ok (
              gossip_round2_out s.idx pubkeys_for_node
              ∷ (if all_nodes (λ node. no_of_other_pub_shares node == length s.new_provers) nodes
                  then gossip_dkg_round2_completed s.peer_id ∷ []
                  else [])),
        )
      ] in
      if is_in s.new_provers s.peer_id then done else (some s, ok [])

  -- `handle_store_received_pubshare`: shares of the node itself and of others than the quorum are passed by.
  unfoldable pub handle_store_received_pubshare :
      (N → ℕ)
      → (ℕ → List ℕ → N → N × Outcome (Unit {0}))
      → ℕ
      → Dictionary (List ℕ)
      → DkgState Pk Sk N
      → Answer Pk Sk N
  unfolding store_all all_nodes has_index
  handle_store_received_pubshare no_of_other_pub_shares store idx pubshares none = (none, ok [])
  handle_store_received_pubshare no_of_other_pub_shares store idx pubshares (some s) =
      let (nodes, result) = store_all (store idx) pubshares s.dkg_nodes in
      let s' : DkgEngineState Pk Sk N = record s { dkg_nodes = nodes } in
      let stored : Answer Pk Sk N = elim result [
        | err e ↦ (some s', err e)
        | panic ↦ (some s', panic)
        | ok _ ↦ (
          some s',
          ok (
              if all_nodes (λ node. no_of_other_pub_shares node == s.network.total_nodes) nodes
              then gossip_dkg_round2_completed s.peer_id ∷ []
              else []),
        )
      ] in
      if s.idx == idx
      then (some s, ok [])
      else if has_index idx s.new_provers
      then stored
      else (some s, ok [])
