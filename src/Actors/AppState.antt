-- ===== src/Actors/AppState.antt =====
-- network/crates/actors/src/app_state_actor.rs: the state of a relay and of a prover. Peers, request
-- identifiers, hashes of requests and addresses are numbers, since they are compared only; an entry of
-- a cache that expires is one that is not there. Of a relay's fields, the clients of outside services
-- are left out, and the two lists that Redis keeps for it are fields.
pub mod Proofs
pub mod Quorum
pub mod Monitor
pub mod Saved
pub mod Requests
use human_network.Prelude.{ℕ, Bool, List, Option, Assoc, Dictionary, String}
use human_network.Messages.NetworkUtils.{Method, RequestToNetwork, RequestToNetworkWithProofs}

-- `ProverInfo`, as far as the actor reads it.
pub record ProverInfo : Type 0 where
  pub evm_address : ℕ
  pub peer_id : ℕ
  pub address : ℕ
  pub rsa_pub_key : List ℕ
  pub voting_power : ℕ
  pub idx : ℕ

pub record ElectionInfo : Type 0 where
  pub threshold : ℕ
  pub epsilon : ℕ
  pub total_provers : ℕ

-- The results of a request's multiplications: the index a node gives and its encoded point.
pub record StoredMultResult : Type 0 where
  pub num_nodes : ℕ
  pub mul_results : List (ℕ × List ℕ)
  pub reconstructed_point : Option (List ℕ)
  pub curve : String

pub data TxState : Type 0 where
  submitted constructed_proof verified : TxState

pub record RequestRecord : Type 0 where
  pub request : RequestToNetwork
  pub status : TxState

-- A map of provers to their information and their index in the quorum.
abbrev pub QuorumMap : Type 0
QuorumMap = Assoc (ProverInfo × ℕ)

-- A dictionary from the names of the methods to encoded shares.
abbrev pub PubkeyShares : Type 0
PubkeyShares = Dictionary (List ℕ)

-- `NodeState::Relay`
pub record Relay : Type 0 where
  pub current_epoch : ℕ
  pub active_provers : List ProverInfo
  pub n : ℕ
  pub t : ℕ
  pub epsilon : ℕ
  pub batch_size : ℕ
  pub req_cache : Assoc RequestRecord
  pub res_cache : Assoc StoredMultResult
  pub pubkey_shares : Assoc PubkeyShares
  pub ready : Bool
  pub ready_nodes : List ℕ
  pub new_cached_elected_provers : List ProverInfo
  pub tstar_provers : QuorumMap
  pub new_provers : QuorumMap
  pub finalized_group_public_keys : Dictionary (List ℕ)
  pub received_group_public_keys : List (Dictionary (List ℕ))
  pub no_of_shares_received : ℕ
  pub monitor_request_queue : List ℕ
  pub batch_cache : List ℕ
  pub pubsub_cache : List ℕ
  pub is_resharing_enabled : Bool
  pub resharing_failure_count : ℕ
  -- What Redis keeps under the hashes of requests and under `request_batch`.
  pub redis_requests : Assoc RequestToNetworkWithProofs
  pub request_batch : List RequestToNetworkWithProofs

-- `NodeState::Prover`
pub record Prover : Type 0 where
  pub current_epoch : ℕ
  pub my_node_idx : ℕ
  pub n : ℕ
  pub t : ℕ
  pub epsilon : ℕ
  pub private_keyshares : Dictionary (List ℕ)
  pub new_provers : QuorumMap

-- The answers to a client, in which `V` are the decoded points of both curves.
pub data NodeResponse (V : Type 0) : Type 0 where
  verified_proof_secp256k1 : ℕ → V → NodeResponse V
  verified_proof_baby_jub_jub : ℕ → V → NodeResponse V
  error : ℕ → NodeResponse V

-- What a handler sends: the answer to the subscribers of a request, the record of a served request for
-- Kafka with its method and the peers that served it, the batch posted for the task, and a request
-- forwarded to peers.
pub data Sent (V : Type 0) : Type 0 where
  published : ℕ → NodeResponse V → Sent V
  request_info : ℕ → Method → List ℕ → Sent V
  posted : List RequestToNetworkWithProofs → Sent V
  forwarded : ℕ → RequestToNetwork → List ℕ → Sent V
