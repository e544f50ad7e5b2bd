-- ===== src/Actors/AppState/Proofs/Threshold.antt =====
-- A relay that receives as many accepted proofs as the threshold publishes the point that is put
-- together from their outputs.
use human_network.Prelude.{
  ℕ, ◌+◌, ◌^◌, ◌<◌, ◌≡◌, refl, sym, subst, ◌∙◌, Bool, true, List, [], ◌∷◌, ◌++◌, Option, some,
  Outcome, ok, All, Assoc, length, length-append, arith,
}
use mathlib.Core.List.{append_assoc}
use human_network.Field.{Field}
use human_network.Curve.{Curve}
use human_network.Cryptography.Dleq.{DleqProof}
use human_network.Cryptography.Reconstruct.{threshold_unchecked}
use human_network.Messages.NetworkUtils.{Method, RequestToNetwork}
use human_network.Actors.AppState.{PubkeyShares, Relay}
use human_network.Actors.AppState.Proofs.{RedisCommand, get_request, set_request}
use human_network.Actors.AppState.Proofs.Collect.{Received, process_all, process-recorded}
use human_network.Actors.AppState.Proofs.Publish.{
  IsPublished, Open, Accepted, outs, nodes, verification-below, verification-IsPublished,
}

module _ {V : Type 0} (up : RedisCommand → Bool) (private_key : Bool)
    (secp256k1_point bincode_point : List ℕ → Outcome V) (key : private_key ≡ true) where
  module _ {F S P : Type 0} ⦃k : Field F⦄ (c : Curve F S P)
      (to_vec : DleqProof S P → Option (List ℕ)) (hash_request : RequestToNetwork → Option ℕ)
      (hash512 : List ℕ → List ℕ) (request_id : ℕ) (method : Method) where
    module _ (request : RequestToNetwork) (shares : Assoc PubkeyShares) (h t : ℕ) where
      -- An accepted proof that can be serialised.
      abbrev pub IsUsable : Received S P → Type 0
      IsUsable (node_idx, peer_id, proof) =
          Accepted up private_key secp256k1_point bincode_point key c to_vec hash_request hash512
            request_id method request shares h t (node_idx, peer_id, proof)
          × (bytes : List ℕ) × (to_vec proof ≡ some bytes)

      abbrev pub Waits : List (Received S P) → Relay → Type 0
      Waits =
          Open up private_key secp256k1_point bincode_point key c to_vec hash_request hash512
            request_id method request shares h t

      abbrev pub points_of : List (Received S P) → List P
      points_of =
          outs up private_key secp256k1_point bincode_point key c to_vec hash_request hash512
            request_id method request shares h t

      abbrev pub nodes_of : List (Received S P) → List ℕ
      nodes_of =
          nodes up private_key secp256k1_point bincode_point key c to_vec hash_request hash512
            request_id method request shares h t

      module _ (redis_get : up get_request ≡ true) (redis_set : up set_request ≡ true)
          (hashed : hash_request request ≡ some h) (room : t < 2 ^ 32) where
        pub process_all-IsPublished :
            (ms done : List (Received S P)) (node_idx peer_id : ℕ) (proof : DleqProof S P)
            (s : Relay) (point : P) (v : V)
            → let m : Received S P = (node_idx, peer_id, proof) in
              All IsUsable (m ∷ ms)
              → Waits done s
              → length done + length (m ∷ ms) ≡ t
              → threshold_unchecked c (points_of (done ++ m ∷ ms)) (nodes_of (done ++ m ∷ ms))
                ≡ ok point
              → secp256k1_point (c.encode point) ≡ ok v
              → IsPublished up private_key secp256k1_point bincode_point key c to_vec hash_request
                  hash512 request_id method v
                  (process_all up private_key secp256k1_point bincode_point c "Secp256k1" to_vec
                    hash_request hash512 request_id method
                    (m ∷ ms)
                    s)
        unfolding process_all
        process_all-IsPublished [] done node_idx peer_id proof s point v ((a, bytes, e), us) o n
              joined decoded =
            let (s', data', o', status, recorded) =
              process-recorded up private_key secp256k1_point bincode_point c "Secp256k1" to_vec
                hash_request hash512 request_id method request shares h t redis_get redis_set hashed
                node_idx peer_id proof bytes done s a e (omega (arith, n)) o in
            let (s'', sent, published) =
              verification-IsPublished up private_key secp256k1_point bincode_point key c to_vec
                hash_request hash512 request_id method request shares h t
                (done ++ (node_idx, peer_id, proof) ∷ []) data' s' point v o'
                (omega (arith, n, length-append done ((node_idx, peer_id, proof) ∷ []))) joined
                decoded in
            (s'', sent ++ [], rw (recorded ∙ published) refl)
        process_all-IsPublished ((i, p, q) ∷ ms) done node_idx peer_id proof s point v
              ((a, bytes, e), us) o n joined decoded =
            let m : Received S P = (node_idx, peer_id, proof) in
            let (s', data', o', status, recorded) =
              process-recorded up private_key secp256k1_point bincode_point c "Secp256k1" to_vec
                hash_request hash512 request_id method request shares h t redis_get redis_set hashed
                node_idx peer_id proof bytes done s a e (omega (arith, n)) o in
            let below =
              verification-below up private_key secp256k1_point bincode_point key c to_vec
                hash_request hash512 request_id method request shares h t (done ++ m ∷ []) data' s'
                o' (omega (arith, n, length-append done (m ∷ []))) in
            let same = append_assoc done (m ∷ []) ((i, p, q) ∷ ms) in
            let (s'', sent, published) =
              process_all-IsPublished ms (done ++ m ∷ []) i p q s' point v us o'
                (omega (arith, n, length-append done (m ∷ [])))
                (subst (λ l. threshold_unchecked c (points_of l) (nodes_of l) ≡ ok point) (sym same)
                  joined)
                decoded in
            (s'', sent, rw (recorded ∙ below, published) refl)
