-- ===== src/Actors/AppState/Proofs/Collect.antt =====
-- A relay that is sent as many accepted proofs as the threshold publishes the point put together from
-- their outputs.
use human_network.Prelude.{
  ℕ, ◌+◌, ◌^◌, ◌<◌, ◌≡◌, refl, sym, ap, ap₂, ◌∙◌, Bool, true, false, List, [], ◌∷◌, ◌++◌, Option,
  none, some, Outcome, ok, ◌>>=◌, Assoc, get, insert, contains, String, lookup, length,
  length-append, get-insert, arith,
}
use human_network.Field.{Field}
use human_network.Curve.{Curve}
use human_network.Cryptography.Dleq.{DleqProof, verify_and_get_output}
use human_network.Messages.NetworkUtils.{Method, RequestToNetwork, RequestToNetworkWithProofs}
use human_network.Actors.AppState.{
  StoredMultResult, RequestRecord, PubkeyShares, Relay, Sent, constructed_proof,
}
use human_network.Actors.AppState.Proofs.{
  RedisCommand, get_request, set_request, share_name, collection, add_result, decode_results,
  indices_of, process_verification,
}
use human_network.Actors.AppState.Proofs.Received.{
  set_status, check_proof, store_proof, record_proof, process_received_proof,
}

-- A proof as it is received: the index it names, the peer that sent it, and the proof.
abbrev pub Received : Type 0 → Type 0 → Type 0
Received S P = ℕ × ℕ × DleqProof S P

module _ {V : Type 0} (up : RedisCommand → Bool) (private_key : Bool)
    (secp256k1_point bincode_point : List ℕ → Outcome V) where
  module _ {F S P : Type 0} ⦃k : Field F⦄ (c : Curve F S P) (name : String)
      (to_vec : DleqProof S P → Option (List ℕ)) (hash_request : RequestToNetwork → Option ℕ)
      (hash512 : List ℕ → List ℕ) (request_id : ℕ) (method : Method) where
    -- Proofs received one after the other, for one request and method.
    unfoldable pub process_all : List (Received S P) → Relay → Outcome (Relay × List (Sent V))
    process_all [] s = ok (s, [])
    process_all ((node_idx, peer_id, proof) ∷ rest) s = do
      (s', sent) ←
          process_received_proof up private_key secp256k1_point bincode_point c name to_vec
            hash_request hash512 node_idx peer_id request_id proof method s
      (s'', sent') ← process_all rest s'
      ok (s'', sent ++ sent')

    module _ (request : RequestToNetwork) (shares : Assoc PubkeyShares) (h t : ℕ) where
      -- The proof passes the checks against the share that the relay has of the peer.
      abbrev pub IsAccepted : Received S P → Type 0
      IsAccepted (node_idx, peer_id, proof) =
          (ps : PubkeyShares) × (key : List ℕ) × (pk masked : P) × (get peer_id shares ≡ some ps)
          × (lookup (share_name method) ps ≡ some key)
          × (c.from_encoded key ≡ ok pk)
          × (c.from_encoded request.point ≡ ok masked)
          × (verify_and_get_output c hash512 proof pk masked ≡ ok (proof.output_point))

      abbrev pub entries : List (Received S P) → List (ℕ × List ℕ)
      entries [] = []
      entries ((node_idx, peer_id, proof) ∷ rest) =
          (node_idx, c.encode proof.output_point) ∷ entries rest

      abbrev pub outputs : List (Received S P) → List P
      outputs [] = []
      outputs ((node_idx, peer_id, proof) ∷ rest) = proof.output_point ∷ outputs rest

      abbrev pub node_indices : List (Received S P) → List ℕ
      node_indices [] = []
      node_indices ((node_idx, peer_id, proof) ∷ rest) = node_idx ∷ node_indices rest

      -- The results collected so far are those of the proofs.
      abbrev pub stored_results : List (Received S P) → StoredMultResult
      stored_results done = record {
        num_nodes = length done;
        mul_results = entries done;
        reconstructed_point = none;
        curve = name;
      }

      -- The relay waits for further proofs of the request.
      pub record IsOpen (done : List (Received S P)) (s : Relay) : Type 0 where
        pub requested :
            (data' : RequestRecord) × (get request_id s.req_cache ≡ some data')
            × (data'.request ≡ request)
        pub collected : collection name request_id s ≡ stored_results done
        pub not_batched : contains h s.batch_cache ≡ false
        pub subscribed : contains request_id s.pubsub_cache ≡ true
        pub threshold : s.t ≡ t
        pub shares_kept : s.pubkey_shares ≡ shares

      check_proof-accepted :
          (node_idx peer_id : ℕ) (proof : DleqProof S P) (done : List (Received S P)) (s : Relay)
          → IsAccepted (node_idx, peer_id, proof)
          → IsOpen done s
          → (data' : RequestRecord) × (masked pk : P) × (check_proof up private_key secp256k1_point
                bincode_point c name hash512 peer_id request_id proof method s
              ≡ ok (data', masked, pk, proof.output_point))
            × (data'.request ≡ request)
      unfolding check_proof
      check_proof-accepted node_idx peer_id proof done s (ps, key, pk, masked, ep, ek, ed, em, ev)
            o =
          let (data', er, same) = o.requested in
          (data', masked, pk, rw (er, o.shares_kept, ep, ek, same, em, ed, ev) refl, same)

      entries-snoc :
          (done : List (Received S P)) (node_idx peer_id : ℕ) (proof : DleqProof S P)
          → entries (done ++ (node_idx, peer_id, proof) ∷ [])
            ≡ entries done ++ (node_idx, c.encode proof.output_point) ∷ []
      entries-snoc [] node_idx peer_id proof = refl
      entries-snoc ((i, p, d) ∷ done) node_idx peer_id proof =
          ap (◌∷◌ (i, c.encode d.output_point)) (entries-snoc done node_idx peer_id proof)

      add_result-stored :
          (done : List (Received S P)) (node_idx peer_id : ℕ) (proof : DleqProof S P)
          → length done + 1 < 2 ^ 32
          → add_result node_idx (c.encode proof.output_point) (stored_results done)
            ≡ stored_results (done ++ (node_idx, peer_id, proof) ∷ [])
      unfolding add_result
      add_result-stored done node_idx peer_id proof room =
          ap₂
            (λ n results. record {
              num_nodes = n;
              mul_results = results;
              reconstructed_point = none;
              curve = name;
            })
            (omega (arith, length-append done ((node_idx, peer_id, proof) ∷ [])))
            (sym (entries-snoc done node_idx peer_id proof))

      pub decode_results-entries :
          (done : List (Received S P))
          → decode_results up private_key secp256k1_point bincode_point c name (entries done)
            ≡ ok (outputs done)
      unfolding decode_results
      decode_results-entries [] = refl
      decode_results-entries ((node_idx, peer_id, proof) ∷ done) =
          rw (c.from_encoded-encode proof.output_point, decode_results-entries done) refl

      pub indices_of-entries :
          (done : List (Received S P))
          → indices_of up private_key secp256k1_point bincode_point c name (entries done)
            ≡ node_indices done
      indices_of-entries [] = refl
      indices_of-entries ((node_idx, peer_id, proof) ∷ done) =
          ap (◌∷◌ node_idx) (indices_of-entries done)

      -- The state after a proof was recorded: one more result, and the status and Redis brought up to
      -- date.
      abbrev recorded :
          StoredMultResult → RequestRecord → Assoc RequestToNetworkWithProofs → Relay → Relay
      recorded stored data' redis s =
          record (set_status request_id data' constructed_proof
            (record s { res_cache = insert request_id stored s.res_cache })) {
              redis_requests = redis;
            }

      recorded-IsOpen :
          (done : List (Received S P)) (s : Relay) (data' : RequestRecord)
          (redis : Assoc RequestToNetworkWithProofs) (more : List (Received S P))
          → IsOpen done s
          → data'.request ≡ request
          → IsOpen more (recorded (stored_results more) data' redis s)
      unfolding set_status collection
      recorded-IsOpen done s data' redis more o same = record {
        requested = (
          record data' { status = constructed_proof },
          get-insert request_id (record data' { status = constructed_proof }) s.req_cache,
          same,
        );
        collected = rw (collection, get-insert request_id (stored_results more) s.res_cache) refl;
        not_batched = o.not_batched;
        subscribed = o.subscribed;
        threshold = o.threshold;
        shares_kept = o.shares_kept;
      }

      module _ (redis_get : up get_request ≡ true) (redis_set : up set_request ≡ true)
          (hashed : hash_request request ≡ some h) where
        -- An accepted proof is recorded and handed to the verification.
        pub process-recorded :
            (node_idx peer_id : ℕ) (proof : DleqProof S P) (bytes : List ℕ)
            (done : List (Received S P)) (s : Relay)
            → IsAccepted (node_idx, peer_id, proof)
            → to_vec proof ≡ some bytes
            → length done + 1 < 2 ^ 32
            → IsOpen done s
            → let more = done ++ (node_idx, peer_id, proof) ∷ [] in
              (s' : Relay) × (data' : RequestRecord) × IsOpen more s'
              × (data'.status ≡ constructed_proof)
              × (process_received_proof up private_key secp256k1_point bincode_point c name to_vec
                    hash_request hash512 node_idx peer_id request_id proof method s
                  ≡ process_verification up private_key secp256k1_point bincode_point c name
                      request_id h
                      (stored_results more)
                      data'
                      s')
        unfolding process_received_proof record_proof store_proof set_status
        process-recorded node_idx peer_id proof bytes done s a serialized room o =
            let (data', masked, pk, checked, same) =
              check_proof-accepted node_idx peer_id proof done s a o in
            let more = done ++ (node_idx, peer_id, proof) ∷ [] in
            let stored = stored_results more in
            let redis =
              insert h
                (elim (get h s.redis_requests) as (λ _. RequestToNetworkWithProofs) [
                  | some existing ↦ record existing {
                    proofs = existing.proofs ++ (bytes, c.encode pk, c.encode masked, peer_id) ∷ [];
                  }
                  | none ↦ record {
                    base = data'.request;
                    proofs = (bytes, c.encode pk, c.encode masked, peer_id) ∷ [];
                  }
                ])
                s.redis_requests in
            (
              recorded stored data' redis s,
              record data' { status = constructed_proof },
              recorded-IsOpen done s data' redis more o same,
              refl,
              rw
                  (
                    process_received_proof,
                    checked,
                    o.collected,
                    add_result-stored done node_idx peer_id proof room,
                  )
                  (rw
                    (
                      record_proof,
                      serialized,
                      ap hash_request same ∙ hashed,
                      o.not_batched,
                      store_proof,
                      redis_get,
                      redis_set,
                    )
                    refl),
            )
