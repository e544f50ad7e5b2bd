-- ===== src/Actors/AppState/Proofs.antt =====
-- The relay collects the proofs of a request until there are as many as the threshold, and publishes
-- the reconstructed point: `StoredMultResult`, `process_batch`, `process_received_proof` and
-- `fetch_reconstructed_point_v2` of network/crates/actors/src/app_state_actor.rs.
pub mod Received
pub mod Collect
pub mod Publish
pub mod Threshold
pub mod Secret
use human_network.Prelude.{
  ℕ, ◌+◌, ◌%◌, ◌^◌, Bool, true, false, List, [], ◌∷◌, ◌++◌, map, Option, none, some, Outcome, ok,
  err, panic, Assoc, get, insert, contains, drop_key, remove_key, expect, String, str_eq, lookup,
  ltb, leb, ◌==◌, if◌then◌else◌, ◌>>=◌, ok_or, unwrap, map_err, key_not_found, decode_failed,
  invalid_dleq_proof,
}
use human_network.Field.{Field}
use human_network.Curve.{Curve}
use human_network.Cryptography.Dleq.{DleqProof, verify_and_get_output}
use human_network.Cryptography.Reconstruct.{threshold_unchecked}
use human_network.Messages.NetworkUtils.{
  Method, oprf_secp256k1, oprf_baby_jub_jub, decrypt_baby_jub_jub, jwt_prf_secp256k1,
  RequestToNetwork, RequestToNetworkWithProofs,
}
use human_network.Actors.AppState.{
  ProverInfo, StoredMultResult, submitted, verified, constructed_proof, RequestRecord, PubkeyShares,
  Relay, NodeResponse, verified_proof_secp256k1, verified_proof_baby_jub_jub, error, Sent,
  published, request_info, posted,
}

abbrev task_size : ℕ
task_size = 1000

-- The name under which a peer's share for a method is stored.
abbrev pub share_name : Method → String
share_name oprf_secp256k1 = "OPRFSecp256k1"
share_name oprf_baby_jub_jub = "OPRFBabyJubJub"
share_name jwt_prf_secp256k1 = "JWTPRFSecp256k1"
share_name decrypt_baby_jub_jub = "DecryptBabyJubjub"

-- The commands to Redis, each of which can fail.
pub data RedisCommand : Type 0 where
  get_request set_request push_batch delete_request read_batch delete_batch : RedisCommand

-- `or_insert_with`: what the next result of a request is added to.
unfoldable pub collection : String → ℕ → Relay → StoredMultResult
collection name request_id s = elim (get request_id s.res_cache) [
  | some stored ↦ stored
  | none ↦ record { num_nodes = 0; mul_results = []; reconstructed_point = none; curve = name }
]

-- `num_nodes += 1` on a `u32`, and the push.
unfoldable pub add_result : ℕ → List ℕ → StoredMultResult → StoredMultResult
add_result node_idx point stored = record stored {
  num_nodes = (stored.num_nodes + 1) % 2 ^ 32;
  mul_results = stored.mul_results ++ (node_idx, point) ∷ [];
}

-- The peers behind the indices, among the active provers.
unfoldable pub find_prover : ℕ → List ProverInfo → Option ProverInfo
find_prover i [] = none
find_prover i (p ∷ ps) = if p.idx == i then some p else find_prover i ps

unfoldable pub served_by_multipliers : List ProverInfo → List ℕ → List ℕ
unfolding find_prover
served_by_multipliers provers [] = []
served_by_multipliers provers (i ∷ indices) =
    let rest = served_by_multipliers provers indices in
    elim (find_prover i provers) [ some p ↦ p.peer_id ∷ rest | none ↦ rest ]

-- Whether a command to Redis succeeds, whether `PRIVATE_KEY` is set, and the two decoders that the
-- answers use, `from_encoded` of secp256k1 and `bincode::deserialize`.
module _ {V : Type 0} (up : RedisCommand → Bool) (private_key : Bool)
    (secp256k1_point bincode_point : List ℕ → Outcome V) where
  -- A command that fails is logged.
  abbrev tried : RedisCommand → Relay → Relay → Relay
  tried command done s = if up command then done else s

  -- `process_batch`; the posting's own failures are logged only.
  unfoldable pub process_batch : ℕ → Relay → Outcome (Relay × List (Sent V))
  process_batch request_hash s =
      let pushed : Relay = elim (get request_hash s.redis_requests) [
        | some value ↦
            tried get_request
              (tried push_batch (record s { request_batch = s.request_batch ++ value ∷ [] }) s) s
        | none ↦ s
      ] in
      let s' : Relay =
        tried delete_request
          (record pushed { redis_requests = remove_key request_hash pushed.redis_requests })
          pushed in
      if leb task_size s'.batch_size
      then (if private_key
          then (if up read_batch
              then ok (
                tried delete_batch (record s' { request_batch = []; batch_size = 0 })
                    (record s' { batch_size = 0 }),
                posted s'.request_batch ∷ [],
              )
              else ok (s', []))
          else panic)
      else ok (s', [])

  -- The answer of `fetch_reconstructed_point_v2`.
  unfoldable pub fetch_reconstructed_point_v2 :
      RequestRecord → StoredMultResult → ℕ → Outcome (NodeResponse V)
  fetch_reconstructed_point_v2 request r request_id = elim request.status [
    | verified ↦ elim r.reconstructed_point [
      | some point ↦
          if str_eq r.curve "Secp256k1"
          then (expect (secp256k1_point point) >>= λ v. ok (verified_proof_secp256k1 request_id v))
          else if str_eq r.curve "BabyJubJub"
          then (expect (bincode_point point) >>= λ v. ok (verified_proof_baby_jub_jub request_id v))
          else ok (error request_id)
      | none ↦ ok (error request_id)
    ]
    | submitted ↦ ok (error request_id)
    | constructed_proof ↦ ok (error request_id)
  ]

  -- The subscribers of a request get the answer, and the request's record goes to Kafka.
  unfoldable pub notify :
      ℕ → RequestRecord → StoredMultResult → List ℕ → Relay → Outcome (Relay × List (Sent V))
  unfolding fetch_reconstructed_point_v2 served_by_multipliers
  notify request_id request stored indices s =
      if contains request_id s.pubsub_cache
      then (fetch_reconstructed_point_v2 request stored request_id >>= λ response. ok (
        record s { pubsub_cache = drop_key request_id s.pubsub_cache },
        published request_id response
            ∷ request_info request_id request.request.method
                (served_by_multipliers s.active_provers indices)
            ∷ [],
      ))
      else ok (s, [])

  -- The request is entered in the batch once.
  unfoldable pub batch_once : ℕ → Relay → Outcome (Relay × List (Sent V))
  unfolding process_batch
  batch_once request_hash s =
      if contains request_hash s.batch_cache
      then ok (s, [])
      else process_batch request_hash (record s { batch_cache = request_hash ∷ s.batch_cache })

  module _ {F S P : Type 0} ⦃k : Field F⦄ (c : Curve F S P) (name : String) where
    -- The stored points, decoded up to the first failure.
    unfoldable pub decode_results : List (ℕ × List ℕ) → Outcome (List P)
    decode_results [] = ok []
    decode_results ((i, p) ∷ rest) = do
      point ← c.from_encoded p
      points ← decode_results rest
      ok (point ∷ points)

    abbrev pub indices_of : List (ℕ × List ℕ) → List ℕ
    indices_of [] = []
    indices_of ((i, p) ∷ rest) = i ∷ indices_of rest

    -- `process_verification`, once the points are decoded and put together; the result and the
    -- request, which the code changes in place, are entered in the caches again.
    unfoldable pub finish :
        ℕ → ℕ → StoredMultResult → RequestRecord → P → Relay → Outcome (Relay × List (Sent V))
    unfolding notify batch_once
    finish request_id request_hash stored request point s = do
      let stored' = record stored { reconstructed_point = some (c.encode point) }
      let request' = record request { status = verified }
      (s', answers) ← notify request_id request' stored' (indices_of stored.mul_results) (record s {
        res_cache = insert request_id stored' s.res_cache;
        req_cache = insert request_id request' s.req_cache;
      })
      (s'', posts) ← batch_once request_hash s'
      ok (s'', answers ++ posts)

    unfoldable pub process_verification :
        ℕ → ℕ → StoredMultResult → RequestRecord → Relay → Outcome (Relay × List (Sent V))
    unfolding decode_results
    process_verification request_id request_hash stored request s =
        if leb s.t stored.num_nodes
        then elim (decode_results stored.mul_results) [
          | err e ↦ ok (s, [])
          | panic ↦ panic
          | ok points ↦ threshold_unchecked c points (indices_of stored.mul_results) >>= λ point.
              finish request_id request_hash stored request point s
        ]
        else ok (s, [])
