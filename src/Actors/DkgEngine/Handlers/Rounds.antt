-- ===== src/Actors/DkgEngine/Handlers/Rounds.antt =====
-- network/crates/actors/src/dkg_engine_actor.rs: the start of each round, and the first round of a key
-- generation, with the work of a node as an argument.
use human_network.Prelude.{
  ℕ, ◌+◌, ◌-◌, ◌%◌, ◌^◌, Bool, true, ◌&&◌, List, [], ◌∷◌, none, some, Outcome, ok, err, panic, ◌==◌,
  if◌then◌else◌, Dictionary, String,
}
use human_network.Actors.DkgEngine.State.{DkgEngineState, run_round}
use human_network.Actors.DkgEngine.Handlers.{
  DkgCast, round1, round2, round3, resharing_round1, resharing_round2, resharing_round3,
  gossip_dkg_round1_completed, gossip_round1_out, Round1Output, DkgState, Answer, Engine, is_in,
}

module _ {Pk Sk N : Type 0} (engine : Engine Pk Sk N) where
  -- The start of a round, for a member of the quorum.
  start_of : DkgCast → DkgState Pk Sk N → List DkgCast
  start_of cast none = []
  start_of cast (some s) = if is_in s.new_provers s.peer_id then cast ∷ [] else []

  unfoldable pub handle_start_dkg_round_1 : DkgState Pk Sk N → List DkgCast
  unfolding start_of
  handle_start_dkg_round_1 = start_of round1

  unfoldable pub handle_start_dkg_round_2 : DkgState Pk Sk N → List DkgCast
  unfolding start_of
  handle_start_dkg_round_2 = start_of round2

  unfoldable pub handle_start_dkg_round_3 : DkgState Pk Sk N → List DkgCast
  unfolding start_of
  handle_start_dkg_round_3 = start_of round3

  unfoldable pub handle_start_resharing_round_2 : DkgState Pk Sk N → List DkgCast
  unfolding start_of
  handle_start_resharing_round_2 = start_of resharing_round2

  unfoldable pub handle_start_resharing_round_3 : DkgState Pk Sk N → List DkgCast
  unfolding start_of
  handle_start_resharing_round_3 = start_of resharing_round3

  -- A resharing is started by the members of the old quorum that have prepared it.
  unfoldable pub handle_start_resharing_round_1 : DkgState Pk Sk N → List DkgCast
  handle_start_resharing_round_1 none = []
  handle_start_resharing_round_1 (some s) =
      let start : List DkgCast = elim s.resharing_round1_context [
        | none ↦ []
        | some context ↦
            resharing_round1 context.election_info (is_in s.new_provers context.node_peer_id) ∷ []
      ] in
      if is_in s.tstar_provers s.peer_id then start else []

  -- Whether each node has the inputs of all others; the subtraction of `usize` wraps.
  all_inputs : ℕ → Dictionary N → Bool
  all_inputs total_nodes [] = true
  all_inputs total_nodes ((key, node) ∷ nodes) =
      let required = (total_nodes + 2 ^ 64 - 1) % 2 ^ 64 in
      let (i, j) = engine.no_of_inputs node in
      (i == required && j == required) && all_inputs total_nodes nodes

  -- `handle_round1`, with the work of a node of the network as an argument. An error is logged.
  unfoldable pub handle_round1 :
      (DkgEngineState Pk Sk N → String → N → N × Outcome Round1Output)
      → DkgState Pk Sk N
      → Answer Pk Sk N
  unfolding all_inputs run_round
  handle_round1 output_fn none = (none, ok [])
  handle_round1 output_fn (some s) =
      let (nodes, outputs) = run_round (output_fn s) s.dkg_nodes in
      let s' : DkgEngineState Pk Sk N = record s { dkg_nodes = nodes } in
      elim outputs [
        | err e ↦ (some s', ok [])
        | panic ↦ (some s', panic)
        | ok round1_output ↦ (
          some s',
          ok (
              gossip_round1_out s.idx round1_output
              ∷ (if all_inputs s.network.total_nodes nodes
                  then gossip_dkg_round1_completed s.peer_id ∷ []
                  else [])),
        )
      ]
