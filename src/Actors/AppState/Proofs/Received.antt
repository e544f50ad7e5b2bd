-- ===== src/Actors/AppState/Proofs/Received.antt =====
-- A proof that a peer sends to the relay: `process_received_proof` of
-- network/crates/actors/src/app_state_actor.rs.
use human_network.Prelude.{
  ℕ, Bool, List, [], ◌∷◌, ◌++◌, ◌&&◌, Option, none, some, Outcome, ok, err, panic, get, insert,
  contains, String, lookup, if◌then◌else◌, ◌>>=◌, ok_or, key_not_found,
}
use human_network.Field.{Field}
use human_network.Curve.{Curve}
use human_network.Cryptography.Dleq.{DleqProof, verify_and_get_output}
use human_network.Messages.NetworkUtils.{Method, RequestToNetwork}
use human_network.Actors.AppState.Proofs.{
  collection, add_result, process_verification, share_name, RedisCommand, get_request, set_request,
}
use human_network.Actors.AppState.{
  StoredMultResult, verified, TxState, constructed_proof, RequestRecord, Relay, Sent,
}

unfoldable pub set_status : ℕ → RequestRecord → TxState → Relay → Relay
set_status request_id data' status s = record s {
  req_cache = insert request_id (record data' { status = status }) s.req_cache;
}

-- As for the verification.
module _ {V : Type 0} (up : RedisCommand → Bool) (private_key : Bool)
    (secp256k1_point bincode_point : List ℕ → Outcome V) where
  module _ {F S P : Type 0} ⦃k : Field F⦄ (c : Curve F S P) (name : String) where
    module _ (hash512 : List ℕ → List ℕ) where
      -- The checks before a proof is counted: the request, its masked point, the peer's share and the
      -- product. An early return is an error here.
      unfoldable pub check_proof :
          ℕ → ℕ → DleqProof S P → Method → Relay → Outcome (RequestRecord × P × P × P)
      check_proof peer_id request_id proof method s = do
        data' ← ok_or key_not_found (get request_id s.req_cache)
        pubkey_shares_for_peer ← ok_or key_not_found (get peer_id s.pubkey_shares)
        pub_key_share ← ok_or key_not_found (lookup (share_name method) pubkey_shares_for_peer)
        masked_point ← c.from_encoded data'.request.point
        pub_key_share_point ← c.from_encoded pub_key_share
        result ← verify_and_get_output c hash512 proof pub_key_share_point masked_point
        ok (data', masked_point, pub_key_share_point, result)

    -- `GET` and `SET` under the request's hash; `none` where one of them fails.
    unfoldable pub store_proof :
        ℕ → RequestToNetwork → List ℕ × List ℕ × List ℕ × ℕ → Relay → Option Relay
    store_proof request_hash request proof s =
        if up get_request && up set_request
        then some (record s {
          redis_requests =
              insert request_hash
                (elim (get request_hash s.redis_requests) [
                  | some existing ↦ record existing { proofs = existing.proofs ++ proof ∷ [] }
                  | none ↦ record { base = request; proofs = proof ∷ [] }
                ])
                s.redis_requests;
        })
        else none

    -- `serde_json::to_vec` of a proof and the hash of a serialised request.
    module _ (to_vec : DleqProof S P → Option (List ℕ))
        (hash_request : RequestToNetwork → Option ℕ) where
      -- What follows the addition of a result.
      unfoldable pub record_proof :
          ℕ
          → ℕ
          → DleqProof S P
          → RequestRecord
          → P
          → P
          → StoredMultResult
          → Relay
          → Outcome (Relay × List (Sent V))
      unfolding process_verification store_proof set_status
      record_proof peer_id request_id proof data' masked_point pub_key_share_point stored s =
          elim (to_vec proof) [
            | none ↦ ok (s, [])
            | some serialized_proof ↦ elim (hash_request data'.request) [
              | none ↦ ok (s, [])
              | some request_hash ↦
                  if contains request_hash s.batch_cache
                  then ok (set_status request_id data' verified s, [])
                  else elim (store_proof request_hash data'.request
                      (
                        serialized_proof,
                        c.encode pub_key_share_point,
                        c.encode masked_point,
                        peer_id,
                      )
                      (set_status request_id data' constructed_proof s)) [
                        | none ↦ ok (set_status request_id data' constructed_proof s, [])
                        | some s' ↦
                            process_verification up private_key secp256k1_point bincode_point c name
                              request_id request_hash stored
                              (record data' { status = constructed_proof }) s'
                      ]
            ]
          ]

      module _ (hash512 : List ℕ → List ℕ) where
        unfoldable pub process_received_proof :
            ℕ → ℕ → ℕ → DleqProof S P → Method → Relay → Outcome (Relay × List (Sent V))
        unfolding check_proof record_proof collection add_result
        process_received_proof node_idx peer_id request_id proof method s =
            elim (check_proof hash512 peer_id request_id proof method s) [
              | err e ↦ ok (s, [])
              | panic ↦ panic
              | ok (data', masked_point, pub_key_share_point, result) ↦
                  let stored =
                    add_result node_idx (c.encode result) (collection name request_id s) in
                  record_proof peer_id request_id proof data' masked_point pub_key_share_point
                    stored (record s { res_cache = insert request_id stored s.res_cache })
            ]
