-- ===== src/Actors/AppState/Requests/Unsigned.antt =====
-- A request that nobody signed.
use human_network.Prelude.{
  ℕ, ◌+◌, ◌%◌, ◌^◌, ◌≡◌, refl, Outcome-cases, List, [], ◌∷◌, Option, none, Outcome, ok, values,
  length, ltb, leb, if◌then◌else◌, set_insert, ◌==◌, true, false, contains, ◌⊎◌, inl, inr,
  Bool-cases, err, panic, invalid_signature,
}
use human_network.Cryptography.NodeSelection.{sort}
use human_network.Messages.NetworkUtils.{RequestToNetwork, Counts, recover, get_nodes}
use human_network.Actors.AppState.{ProverInfo, QuorumMap, Relay}
use human_network.Actors.AppState.Requests.{
  indexes, index_of, refresh, select_nodes, all_peers, choose_and_forward, account_and_forward,
  Handled, handle_multiplication_request,
}

-- The provers whose index is chosen are among the selected peers, and any prover is among all peers.
abbrev pub Served : QuorumMap → List ℕ → List ℕ → ProverInfo → Type 0
Served new_provers indices peers prover =
    (contains (index_of new_provers prover % 2 ^ 32) indices ≡ false)
    ⊎ (contains prover.peer_id peers ≡ true)

-- The peers that a request is sent to.
receivers : Relay → List ℕ → List ℕ
receivers s indices =
    let selected = select_nodes s.new_provers indices s.active_provers in
    if leb (length selected % 2 ^ 32) s.t then all_peers s.active_provers else selected

-- Nobody's count and not the size of the batch has changed, if there is a result.
abbrev pub Unbilled : {V : Type 0} → Relay → Counts → Outcome (Handled V) → Type 0
Unbilled s counts (ok (s', counts', sent)) = (counts' ≡ counts) × (s'.batch_size ≡ s.batch_size)
Unbilled s counts (err e) = Unit
Unbilled s counts panic = Unit

module _ (V : Type 0) {R : Type 0} (ping_nodes : QuorumMap → Option (List ℕ))
    (from_seed : List ℕ → R) (next_u64 : R → ℕ × R)
    (serialize : RequestToNetwork → Outcome (List ℕ)) (sign_message : List ℕ → Outcome (List ℕ))
    (recover_signer : List ℕ → List ℕ → Outcome ℕ)
    (account : RequestToNetwork → Counts → Counts × Outcome ℕ) where
  choose_and_forward-Unbilled :
      (request : RequestToNetwork) (s s' : Relay) (counts : Counts) (forward_to_indexes : List ℕ)
      (request_id : ℕ)
      → s'.batch_size ≡ s.batch_size
      → Unbilled {V = V} s counts (
          choose_and_forward ping_nodes from_seed next_u64
            (recover serialize sign_message recover_signer)
            account
            request
            forward_to_indexes
            request_id
            s'
            counts)
  unfolding choose_and_forward
  choose_and_forward-Unbilled request s s' counts (i ∷ is) request_id h = (refl, h)
  choose_and_forward-Unbilled request s s' counts [] request_id h =
      elim (Outcome-cases (
        get_nodes from_seed next_u64 ((s'.t + s'.epsilon) % 2 ^ 32)
          (sort (indexes (values s'.new_provers))) request)) [
            | inl r ↦ rw (choose_and_forward, r.1) (refl, h)
            | inr (inl r) ↦ rw (choose_and_forward, r.1) tt
            | inr (inr r) ↦ rw (choose_and_forward, r) tt
          ]

  recover-unsigned :
      (request : RequestToNetwork)
      → request.signature ≡ none
      → recover serialize sign_message recover_signer request ≡ err invalid_signature
  unfolding recover
  recover-unsigned request h = rw (recover, h) refl

  account_and_forward-Unbilled :
      (request : RequestToNetwork) (s s' : Relay) (counts : Counts) (forward_to_indexes : List ℕ)
      (request_id : ℕ)
      → request.signature ≡ none
      → s'.batch_size ≡ s.batch_size
      → Unbilled {V = V} s counts (
          account_and_forward ping_nodes from_seed next_u64
            (recover serialize sign_message recover_signer)
            account
            request
            forward_to_indexes
            request_id
            s'
            counts)
  unfolding account_and_forward
  account_and_forward-Unbilled request s s' counts forward_to_indexes request_id unsigned h =
      rw (account_and_forward, recover-unsigned request unsigned)
        (choose_and_forward-Unbilled request s s' counts forward_to_indexes request_id h)

  -- A request without a signature never changes anybody's count of requests or the size of the batch, in
  -- whatever state the relay is and wherever the request is to be forwarded.
  pub handle_multiplication_request-Unbilled :
      (request : RequestToNetwork) (s : Relay) (counts : Counts) (forward_to_indexes : List ℕ)
      (request_id : ℕ)
      → request.signature ≡ none
      → Unbilled {V = V} s counts (
          handle_multiplication_request ping_nodes from_seed next_u64
            (recover serialize sign_message recover_signer)
            account
            request
            s
            counts
            forward_to_indexes
            request_id)
  unfolding handle_multiplication_request
  handle_multiplication_request-Unbilled request s counts forward_to_indexes request_id unsigned =
      elim (Bool-cases (ltb (length (refresh ping_nodes s)) s.t)) [
        | inl e ↦ rw (handle_multiplication_request, e) (refl, refl)
        | inr e ↦ elim (Bool-cases (request.epoch == s.current_epoch)) [
          | inr e' ↦ rw (handle_multiplication_request, e, e') (refl, refl)
          | inl e' ↦
              rw (handle_multiplication_request, e, e')
                (account_and_forward-Unbilled request s
                  (record s {
                    ready_nodes = refresh ping_nodes s;
                    pubsub_cache = set_insert request_id s.pubsub_cache;
                  })
                  counts forward_to_indexes request_id unsigned refl)
        ]
      ]
