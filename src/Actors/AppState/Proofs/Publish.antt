-- ===== src/Actors/AppState/Proofs/Publish.antt =====
-- The verification at the threshold publishes the reconstructed point.
use human_network.Prelude.{
  ℕ, ◌<◌, ◌≤◌, ◌≡◌, refl, sym, subst, Bool, true, false, List, [], ◌∷◌, Option, some, Outcome, ok,
  panic, Assoc, contains, insert, drop_key, length, if◌then◌else◌, leb-of_le, leb-of_gt, Bool-cases,
  inl, inr, arith,
}
use human_network.Field.{Field}
use human_network.Curve.{Curve}
use human_network.Cryptography.Dleq.{DleqProof}
use human_network.Cryptography.Reconstruct.{threshold_unchecked}
use human_network.Messages.NetworkUtils.{Method, RequestToNetwork}
use human_network.Actors.AppState.{
  StoredMultResult, RequestRecord, PubkeyShares, Relay, Sent, request_info, verified, published,
  verified_proof_secp256k1,
}
use human_network.Actors.AppState.Proofs.{
  RedisCommand, process_batch, batch_once, notify, finish, process_verification,
  fetch_reconstructed_point_v2, indices_of, served_by_multipliers,
}
use human_network.Actors.AppState.Proofs.Collect.{
  Received, IsAccepted, outputs, node_indices, stored_results, IsOpen, decode_results-entries,
  indices_of-entries,
}

-- With the key at hand, no branch of the posting panics.
posting-ok {ℓ} :
    {R : Type ℓ} (due key readable : Bool) (a b d : R)
    → key ≡ true
    → (r : R) × ((if due then (if key then (if readable then ok a else ok b) else panic) else ok d)
        ≡ ok r)
posting-ok true true true a b d h = (a, refl)
posting-ok true true false a b d h = (b, refl)
posting-ok true false readable a b d h = cc
posting-ok false key readable a b d h = (d, refl)

module _ {V : Type 0} (up : RedisCommand → Bool) (private_key : Bool)
    (secp256k1_point bincode_point : List ℕ → Outcome V) (key : private_key ≡ true) where
  process_batch-ok :
      (h : ℕ) (s : Relay)
      → (r : Relay × List (Sent V)) × (process_batch up private_key secp256k1_point bincode_point h
            s
          ≡ ok r)
  unfolding process_batch
  process_batch-ok h s = posting-ok _ private_key _ _ _ _ key

  batch_once-ok :
      (h : ℕ) (s : Relay)
      → (r : Relay × List (Sent V)) × (batch_once up private_key secp256k1_point bincode_point h s
          ≡ ok r)
  unfolding batch_once
  batch_once-ok h s = elim (Bool-cases (contains h s.batch_cache)) [
    | inl e ↦ ((s, []), rw e refl)
    | inr e ↦
        let r = process_batch-ok h (record s { batch_cache = h ∷ s.batch_cache }) in
        (r.0, rw e (r.1))
  ]

  module _ {F S P : Type 0} ⦃k : Field F⦄ (c : Curve F S P)
      (to_vec : DleqProof S P → Option (List ℕ)) (hash_request : RequestToNetwork → Option ℕ)
      (hash512 : List ℕ → List ℕ) (request_id : ℕ) (method : Method) where
    -- The answer with the point comes first.
    abbrev pub IsPublished : V → Outcome (Relay × List (Sent V)) → Type 0
    IsPublished v r =
        (s : Relay) × (sent : List (Sent V)) × (r
          ≡ ok (s, published request_id (verified_proof_secp256k1 request_id v) ∷ sent))

    fetch-published :
        (request : RequestRecord) (stored : StoredMultResult) (point : P) (v : V)
        → stored.curve ≡ "Secp256k1"
        → secp256k1_point (c.encode point) ≡ ok v
        → fetch_reconstructed_point_v2 up private_key secp256k1_point bincode_point
            (record request { status = verified })
            (record stored { reconstructed_point = some (c.encode point) })
            request_id
          ≡ ok (verified_proof_secp256k1 request_id v)
    unfolding fetch_reconstructed_point_v2
    fetch-published request stored point v curve decoded = rw (curve, decoded) refl

    finish-IsPublished :
        (h : ℕ) (stored : StoredMultResult) (request : RequestRecord) (point : P) (s : Relay)
        (v : V)
        → stored.curve ≡ "Secp256k1"
        → secp256k1_point (c.encode point) ≡ ok v
        → contains request_id s.pubsub_cache ≡ true
        → IsPublished v (
            finish up private_key secp256k1_point bincode_point c "Secp256k1" request_id h stored
              request point s)
    unfolding finish notify
    finish-IsPublished h stored request point s v curve decoded subscribed =
        let stored' = record stored { reconstructed_point = some (c.encode point) } in
        let request' = record request { status = verified } in
        let s' = record s {
          res_cache = insert request_id stored' s.res_cache;
          req_cache = insert request_id request' s.req_cache;
          pubsub_cache = drop_key request_id s.pubsub_cache;
        } in
        let r = batch_once-ok h s' in
        (
          r.0.0,
          request_info request_id request.request.method (
                served_by_multipliers s.active_provers (
                  indices_of up private_key secp256k1_point bincode_point c "Secp256k1"
                    stored.mul_results))
              ∷ r.0.1,
          rw (finish, notify, subscribed, fetch-published request stored point v curve decoded, r.1)
              refl,
        )

    module _ (request : RequestToNetwork) (shares : Assoc PubkeyShares) (h t : ℕ) where
      abbrev pub Open : List (Received S P) → Relay → Type 0
      Open =
          IsOpen up private_key secp256k1_point bincode_point c "Secp256k1" to_vec hash_request
            hash512 request_id method request shares h t

      abbrev pub Accepted : Received S P → Type 0
      Accepted =
          IsAccepted up private_key secp256k1_point bincode_point c "Secp256k1" to_vec hash_request
            hash512 request_id method request shares h t

      abbrev pub outs : List (Received S P) → List P
      outs =
          outputs up private_key secp256k1_point bincode_point c "Secp256k1" to_vec hash_request
            hash512 request_id method request shares h t

      abbrev pub nodes : List (Received S P) → List ℕ
      nodes =
          node_indices up private_key secp256k1_point bincode_point c "Secp256k1" to_vec
            hash_request hash512 request_id method request shares h t

      abbrev pub results : List (Received S P) → StoredMultResult
      results =
          stored_results up private_key secp256k1_point bincode_point c "Secp256k1" to_vec
            hash_request hash512 request_id method request shares h t

      abbrev pub verification :
          StoredMultResult → RequestRecord → Relay → Outcome (Relay × List (Sent V))
      verification =
          process_verification up private_key secp256k1_point bincode_point c "Secp256k1" request_id
            h

      pub verification-below :
          (done : List (Received S P)) (data' : RequestRecord) (s : Relay)
          → Open done s
          → length done < t
          → verification (results done) data' s ≡ ok (s, [])
      unfolding process_verification
      verification-below done data' s o below =
          rw (process_verification, leb-of_gt s.t (length done) (omega (arith, o.threshold))) refl

      pub verification-IsPublished :
          (done : List (Received S P)) (data' : RequestRecord) (s : Relay) (point : P) (v : V)
          → Open done s
          → t ≤ length done
          → threshold_unchecked c (outs done) (nodes done) ≡ ok point
          → secp256k1_point (c.encode point) ≡ ok v
          → IsPublished v (verification (results done) data' s)
      unfolding process_verification
      verification-IsPublished done data' s point v o enough joined decoded =
          subst (IsPublished v)
            (sym (
              rw
                (
                  process_verification,
                  leb-of_le s.t (length done) (omega (arith, o.threshold)),
                  decode_results-entries up private_key secp256k1_point bincode_point c "Secp256k1"
                      to_vec hash_request hash512 request_id method request shares h t done,
                  indices_of-entries up private_key secp256k1_point bincode_point c "Secp256k1"
                      to_vec hash_request hash512 request_id method request shares h t done,
                  joined,
                )
                refl))
            (finish-IsPublished h (results done) data' point s v refl decoded o.subscribed)
