-- ===== src/Actors/AppState/Requests.antt =====
-- The requests of users on a relay and on a prover: `handle_multiplication_request`,
-- `process_request`, `handle_state_request`, `fetch_reconstructed_point` and smaller handlers of
-- network/crates/actors/src/app_state_actor.rs.
pub mod Unsigned
use human_network.Prelude.{
  ℕ, ◌+◌, ◌%◌, ◌^◌, Bool, true, false, ◌&&◌, List, [], ◌∷◌, Option, none, some, Outcome, ok, err,
  panic, Assoc, get, insert, or_insert, contains, set_insert, values, length, lookup, ltb, leb,
  ◌==◌, if◌then◌else◌, ◌>>=◌, unwrap,
}
use human_network.Field.{Field}
use human_network.Curve.{Curve}
use human_network.Cryptography.Dleq.{DleqProof, prove}
use human_network.Cryptography.NodeSelection.{sort}
use human_network.Messages.NetworkUtils.{
  Method, RequestToNetwork, Counts, is_for_my_node, get_nodes,
}
use human_network.Actors.AppState.{
  ProverInfo, RequestRecord, TxState, submitted, verified, constructed_proof, QuorumMap, Relay,
  Prover, NodeResponse, error, Sent, published, forwarded,
}
use human_network.Actors.AppState.Proofs.{RedisCommand, share_name, fetch_reconstructed_point_v2}

-- The indices of the provers of a quorum.
unfoldable pub indexes : List (ProverInfo × ℕ) → List ℕ
indexes [] = []
indexes ((info, idx) ∷ rest) = idx ∷ indexes rest

-- The index of an active prover in the new quorum, or 0.
unfoldable pub index_of : QuorumMap → ProverInfo → ℕ
index_of new_provers prover = elim (get prover.peer_id new_provers) [
  | some (info, idx) ↦ idx
  | none ↦ 0
]

-- The peers of the active provers whose index, cut to 32 bits, is among the chosen ones.
unfoldable pub select_nodes : QuorumMap → List ℕ → List ProverInfo → List ℕ
unfolding index_of
select_nodes new_provers indices [] = []
select_nodes new_provers indices (prover ∷ provers) =
    let rest = select_nodes new_provers indices provers in
    if contains (index_of new_provers prover % 2 ^ 32) indices then prover.peer_id ∷ rest else rest

abbrev pub all_peers : List ProverInfo → List ℕ
all_peers [] = []
all_peers (prover ∷ provers) = prover.peer_id ∷ all_peers provers

-- The nodes that are ready for a request: if there are too few of them, the new quorum is pinged.
unfoldable pub refresh : (QuorumMap → Option (List ℕ)) → Relay → List ℕ
refresh ping_nodes s =
    if ltb (length s.ready_nodes) s.t
    then elim s.new_provers [
      | [] ↦ s.ready_nodes
      | p ∷ ps ↦ elim (ping_nodes s.new_provers) [ some nodes ↦ nodes | none ↦ [] ]
    ]
    else s.ready_nodes

-- The relay and the counts after a request, and what is sent.
abbrev pub Handled : Type 0 → Type 0
Handled V = Relay × Counts × List (Sent V)

-- The pings, the generator behind `get_nodes`, the signer of a request, and
-- `account_request_from_signer` on what Redis counts.
module _ {V R : Type 0} (ping_nodes : QuorumMap → Option (List ℕ)) (from_seed : List ℕ → R)
    (next_u64 : R → ℕ × R) (recover : RequestToNetwork → Outcome ℕ)
    (account : RequestToNetwork → Counts → Counts × Outcome ℕ) where
  -- The request goes to the nodes that are chosen for it, or to all active provers if those are not more
  -- than the threshold, and is entered in the cache and in the queue.
  unfoldable pub forward : RequestToNetwork → ℕ → List ℕ → Relay → Counts → Handled V
  unfolding select_nodes
  forward request request_id indices s counts =
      let selected = select_nodes s.new_provers indices s.active_provers in
      let selected_nodes : List ℕ =
        if leb (length selected % 2 ^ 32) s.t then all_peers s.active_provers else selected in
      (
        record s {
          req_cache =
              or_insert request_id (record { request = request; status = submitted }) s.req_cache;
          monitor_request_queue = request_id ∷ s.monitor_request_queue;
        },
        counts,
        forwarded request_id request selected_nodes ∷ [],
      )

  unfoldable pub choose_and_forward :
      RequestToNetwork → List ℕ → ℕ → Relay → Counts → Outcome (Handled V)
  unfolding forward indexes
  choose_and_forward request [] request_id s counts = do
    indices ←
        get_nodes from_seed next_u64 ((s.t + s.epsilon) % 2 ^ 32)
          (sort (indexes (values s.new_provers))) request
    ok (forward request request_id indices s counts)
  choose_and_forward request (i ∷ is) request_id s counts =
      ok (forward request request_id (i ∷ is) s counts)

  -- A request whose signer is not recovered is not accounted.
  unfoldable pub account_and_forward :
      RequestToNetwork → List ℕ → ℕ → Relay → Counts → Outcome (Handled V)
  unfolding choose_and_forward
  account_and_forward request forward_to_indexes request_id s counts = elim (recover request) [
    | err e ↦ choose_and_forward request forward_to_indexes request_id s counts
    | panic ↦ panic
    | ok usr ↦
        let (counts', incr) = account request counts in
        elim incr [
          | err e ↦ ok (s, counts', published request_id (error request_id) ∷ [])
          | panic ↦ panic
          | ok incr_by ↦
              choose_and_forward request forward_to_indexes request_id
                (record s { batch_size = (s.batch_size + incr_by) % 2 ^ 32 }) counts'
        ]
  ]

  unfoldable pub handle_multiplication_request :
      RequestToNetwork → Relay → Counts → List ℕ → ℕ → Outcome (Handled V)
  unfolding refresh account_and_forward
  handle_multiplication_request request s counts forward_to_indexes request_id =
      let s' : Relay = record s {
        ready_nodes = refresh ping_nodes s;
        pubsub_cache = set_insert request_id s.pubsub_cache;
      } in
      if ltb (length s'.ready_nodes) s'.t
      then ok (s', counts, published request_id (error request_id) ∷ [])
      else if request.epoch == s'.current_epoch
      then account_and_forward request forward_to_indexes request_id s' counts
      else ok (s', counts, published request_id (error request_id) ∷ [])

-- `fetch_reconstructed_point`: for a stored result the steps are those of the second version.
module _ {V : Type 0} (up : RedisCommand → Bool) (private_key : Bool)
    (secp256k1_point bincode_point : List ℕ → Outcome V) where
  unfoldable pub fetch_reconstructed_point : ℕ → Relay → Outcome (NodeResponse V)
  unfolding fetch_reconstructed_point_v2
  fetch_reconstructed_point request_id s = elim (get request_id s.req_cache) [
    | none ↦ ok (error request_id)
    | some request ↦ elim request.status [
      | verified ↦ elim (get request_id s.res_cache) [
        | none ↦ ok (error request_id)
        | some r ↦
            fetch_reconstructed_point_v2 up private_key secp256k1_point bincode_point request r
              request_id
      ]
      | submitted ↦ ok (error request_id)
      | constructed_proof ↦ ok (error request_id)
    ]
  ]

-- `handle_state_request`: the epoch and what Redis counts; 0 if it does not answer.
unfoldable pub handle_state_request : Bool → Method → ℕ → Relay → Counts → ℕ × ℕ
handle_state_request get_ok method user s counts =
    (s.current_epoch, if get_ok then elim (counts method user) [ some n ↦ n | none ↦ 0 ] else 0)

-- `ForwardErrorResponse`
unfoldable pub forward_error_response : {V : Type 0} → ℕ → NodeResponse V → Relay → List (Sent V)
forward_error_response request_id response s =
    if contains request_id s.pubsub_cache then published request_id response ∷ [] else []

-- `SetResharingEnabled`
unfoldable pub set_resharing_enabled : Bool → Relay → Relay
set_resharing_enabled value s = record s { is_resharing_enabled = value }

-- `UpdateCachedProversMap`
unfoldable pub update_cached_provers_map : QuorumMap → Relay → Relay
update_cached_provers_map new_provers_map s = record s { new_provers = new_provers_map }

-- `FetchElectionState`: the index of the peer and the parameters; nothing is sent to another peer.
unfoldable pub fetch_election_state : ℕ → Relay → Option (ℕ × ℕ × ℕ × ℕ × QuorumMap)
fetch_election_state peer_id s = elim (get peer_id s.new_provers) [
  | some (info, size) ↦ some (size, s.n, s.t, s.epsilon, s.new_provers)
  | none ↦ none
]

-- What a prover answers to a request: a proof with its index, or an error.
pub data ProverAnswer (S P : Type 0) : Type 0 where
  constructed : ℕ → ℕ → DleqProof S P → Method → ProverAnswer S P
  refused : ℕ → ProverAnswer S P

-- The generator behind `is_for_my_node`, the reading of a scalar, and the nonce of the proof. The curve
-- is that of the request's method.
module _ {F S P R : Type 0} ⦃k : Field F⦄ (c : Curve F S P) (from_seed : List ℕ → R)
    (next_u64 : R → ℕ × R) (from_bytes : List ℕ → Option S) (hash512 : List ℕ → List ℕ) where
  -- The macro `handle_request`: nothing is sent if the share is no scalar.
  unfoldable pub handle_request :
      S → List ℕ → ℕ → RequestToNetwork → ℕ → Outcome (Option (ProverAnswer S P))
  handle_request nonce keyshare request_id request my_node_idx = elim (from_bytes keyshare) [
    | none ↦ ok none
    | some partial_share ↦
        elim (c.from_encoded request.point >>= λ masked_point.
        prove c hash512 nonce masked_point partial_share) [
          | ok proof ↦ ok (some (constructed my_node_idx request_id proof request.method))
          | err e ↦ ok (some (refused request_id))
          | panic ↦ panic
        ]
  ]

  unfoldable pub process_request :
      S → ℕ → RequestToNetwork → Prover → Outcome (Option (ProverAnswer S P))
  unfolding handle_request indexes
  process_request nonce request_id request s = do
    mine ←
        is_for_my_node from_seed next_u64 ((s.t + s.epsilon) % 2 ^ 32) s.my_node_idx
          (indexes (values s.new_provers)) request
    (if mine && request.epoch == s.current_epoch
        then (unwrap (lookup (share_name request.method) s.private_keyshares) >>= λ keyshare.
            handle_request nonce keyshare request_id request s.my_node_idx)
        else ok (some (refused request_id)))
