-- ===== src/Actors/DkgEngine/Handlers.antt =====
-- network/crates/actors/src/dkg_engine_actor.rs: the handlers that set the engine's state up and start its
-- rounds. `get_state` of the stored shares and the work of a node are arguments; the messages are a list.
pub mod Rounds
pub mod Outputs
pub mod Nodes
use human_network.Prelude.{
  ℕ, ◌+◌, ◌-◌, ◌%◌, ◌^◌, Bool, true, false, ◌&&◌, List, [], ◌∷◌, Option, none, some, Outcome, ok,
  err, panic, Assoc, get, ◌>>=◌, ◌==◌, if◌then◌else◌, length, Dictionary, String,
}
use human_network.Cryptography.Dkg.{Network, new_network}
use human_network.Actors.AppState.{ElectionInfo, QuorumMap}
use human_network.Actors.DkgEngine.State.{DkgEngineState, ResharingInitContext, run_round}

-- The encrypted shares, the commitments and the node's own share.
abbrev pub Round1Output : Type 0
Round1Output = Assoc (List ℕ) × List (List ℕ) × List ℕ

-- The messages to the engine itself, and the gossiped ones.
pub data DkgCast : Type 0 where
  round1 round2 round3 resharing_round2 resharing_round3 : DkgCast
  resharing_round1 : ElectionInfo → Bool → DkgCast
  gossip_dkg_init_completed gossip_resharing_init_completed : ℕ → DkgCast
  gossip_dkg_round1_completed : ℕ → DkgCast
  gossip_resharing_round1_completed gossip_dkg_round2_completed : ℕ → DkgCast
  gossip_round2_out : ℕ → Dictionary (List ℕ) → DkgCast
  gossip_round1_out : ℕ → Dictionary Round1Output → DkgCast

-- What the handlers use of the engine.
pub record Engine (Pk Sk N : Type 0) : Type 0 where
  pub init : ℕ → ℕ → Sk → QuorumMap → ℕ → Outcome (DkgEngineState Pk Sk N)
  pub restore :
      ℕ
      → ℕ
      → Sk
      → QuorumMap
      → ℕ
      → Dictionary (List ℕ)
      → QuorumMap
      → Dictionary (List ℕ)
      → Outcome (DkgEngineState Pk Sk N)
  pub rsa_keys : QuorumMap → Outcome (Assoc Pk)
  pub clear : N → N
  pub no_of_inputs : N → ℕ × ℕ

abbrev pub DkgState : Type 0 → Type 0 → Type 0 → Type 0
DkgState Pk Sk N = Option (DkgEngineState Pk Sk N)

abbrev pub Answer : Type 0 → Type 0 → Type 0 → Type 0
Answer Pk Sk N = DkgState Pk Sk N × Outcome (List DkgCast)

abbrev pub is_in : QuorumMap → ℕ → Bool
is_in provers peer_id = elim (get peer_id provers) [ some _ ↦ true | none ↦ false ]

module _ {Pk Sk N : Type 0} (engine : Engine Pk Sk N) where
  -- `handle_dkg_init`: an error leaves the state as it was.
  unfoldable pub handle_dkg_init : Sk → ℕ → ℕ → QuorumMap → ℕ → DkgState Pk Sk N → Answer Pk Sk N
  handle_dkg_init rsa_private_key idx peer_id peers threshold dkg_state =
      elim (engine.init peer_id idx rsa_private_key peers threshold) [
        | err e ↦ (dkg_state, err e)
        | panic ↦ (dkg_state, panic)
        | ok s ↦ (some s, ok (gossip_dkg_init_completed peer_id ∷ []))
      ]

  clear_nodes : Dictionary N → Dictionary N
  clear_nodes [] = []
  clear_nodes ((key, node) ∷ nodes) = (key, engine.clear node) ∷ clear_nodes nodes

  -- `ClearShares`
  unfoldable pub clear_shares_of_nodes : DkgState Pk Sk N → DkgState Pk Sk N
  unfolding clear_nodes
  clear_shares_of_nodes none = none
  clear_shares_of_nodes (some s) = some (record s { dkg_nodes = clear_nodes s.dkg_nodes })

  -- The quorums of an election are entered into the state.
  enter_quorums :
      ResharingInitContext Sk
      → QuorumMap
      → QuorumMap
      → DkgEngineState Pk Sk N
      → DkgEngineState Pk Sk N
  enter_quorums context tstar_provers new_provers s = record s {
    tstar_provers = tstar_provers;
    new_provers = new_provers;
    election_info = context.election_info;
    finalized_group_public_keys = context.group_keys;
  }

  -- `handle_resharing_init` with a state: the nodes are cleared first, also if the keys of the old quorum
  -- are not valid.
  unfoldable pub resharing_init_with_state :
      ResharingInitContext Sk → QuorumMap → QuorumMap → DkgEngineState Pk Sk N → Answer Pk Sk N
  unfolding clear_nodes enter_quorums
  resharing_init_with_state context tstar_provers new_provers s =
      let cleared : DkgEngineState Pk Sk N = record s {
        resharing_round2_triggered = false;
        resharing_round1_context = none;
        dkg_nodes = clear_nodes s.dkg_nodes;
      } in
      let completed : List DkgCast = gossip_resharing_init_completed s.peer_id ∷ [] in
      let entered = enter_quorums context tstar_provers new_provers in
      if is_in tstar_provers s.peer_id
      then elim (engine.rsa_keys tstar_provers) [
        | err e ↦ (some cleared, err e)
        | panic ↦ (some cleared, panic)
        | ok rsa_keys_map ↦
            let network : Network Pk = record {
              threshold = context.election_info.threshold;
              total_nodes = length tstar_provers;
              public_keys = rsa_keys_map;
            } in
            (
              some (
                  entered (record cleared {
                    network = network;
                    resharing_round1_context = some context;
                  })),
              ok completed,
            )
      ]
      else (some (entered cleared), ok (if is_in new_provers s.peer_id then completed else []))

  -- `handle_resharing_init` of a new prover without a state
  unfoldable pub resharing_init_of_new_prover :
      ResharingInitContext Sk → ℕ → QuorumMap → QuorumMap → Answer Pk Sk N
  unfolding clear_nodes enter_quorums
  resharing_init_of_new_prover context idx tstar_provers new_provers =
      elim (engine.init context.node_peer_id idx context.rsa_private_key new_provers
        context.election_info.threshold) [
          | err e ↦ (none, err e)
          | panic ↦ (none, panic)
          | ok s ↦
              elim (new_network {Pk = Pk} context.election_info.threshold (length new_provers)
                false) [
                  | err e ↦ (some s, err e)
                  | panic ↦ (some s, panic)
                  | ok network ↦ (
                    some (record (enter_quorums context tstar_provers new_provers s) {
                      network = network;
                      dkg_nodes = clear_nodes s.dkg_nodes;
                    }),
                    ok (gossip_resharing_init_completed s.peer_id ∷ []),
                  )
                ]
        ]

  -- The state that is there, or the one that a member of the old quorum restores.
  restored :
      ResharingInitContext Sk
      → ℕ
      → Dictionary (List ℕ)
      → QuorumMap
      → QuorumMap
      → DkgState Pk Sk N
      → Outcome (DkgState Pk Sk N)
  restored context idx private_keyshares tstar_provers new_provers (some s) = ok (some s)
  restored context idx private_keyshares tstar_provers new_provers none =
      if is_in tstar_provers context.node_peer_id
      then (engine.restore context.node_peer_id idx context.rsa_private_key new_provers
            context.election_info.threshold private_keyshares tstar_provers context.group_keys
          >>= (λ s. ok (some s)))
      else ok none

  unfoldable pub handle_resharing_init :
      ResharingInitContext Sk
      → ℕ
      → Dictionary (List ℕ)
      → QuorumMap
      → QuorumMap
      → DkgState Pk Sk N
      → Answer Pk Sk N
  unfolding restored resharing_init_with_state resharing_init_of_new_prover
  handle_resharing_init context idx private_keyshares tstar_provers new_provers dkg_state =
      elim (new_network {Pk = Pk} context.election_info.threshold (length tstar_provers) true) [
        | err e ↦ (dkg_state, err e)
        | panic ↦ (dkg_state, panic)
        | ok network ↦
            elim (restored context idx private_keyshares tstar_provers new_provers dkg_state) [
              | err e ↦ (dkg_state, err e)
              | panic ↦ (dkg_state, panic)
              | ok (some s) ↦ resharing_init_with_state context tstar_provers new_provers s
              | ok none ↦
                  if is_in new_provers context.node_peer_id
                  then resharing_init_of_new_prover context idx tstar_provers new_provers
                  else (none, ok [])
            ]
      ]
