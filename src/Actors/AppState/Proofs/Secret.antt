-- ===== src/Actors/AppState/Proofs/Secret.antt =====
-- Honest nodes make the relay publish the secret times the requested point; a single node makes it
-- publish a multiple of its own answer. Both are about the answers over secp256k1, `VerifiedProof` of
-- `SECP256K1`; those over Baby Jubjub, whose points are decoded otherwise, are not covered here.
use human_network.Prelude.{
  ℕ, zero, suc, ◌-◌, ◌^◌, ◌<◌, ◌≤◌, ◌≡◌, refl, sym, subst, ap, ap₂, ◌∙◌, Bool, true, List, [], ◌∷◌,
  map, Option, some, Outcome, ok, All, Assoc, get, lookup, length, length-map, arith,
}
use human_network.Field.{Field}
use human_network.Curve.{Curve}
use human_network.Curve.Laws.{act}
use human_network.Cryptography.Polynomial.{from_coeffs, eval}
use human_network.Cryptography.Polynomial.Lagrange.{IsNodeSet}
use human_network.Cryptography.Dleq.{DleqProof, prove}
use human_network.Cryptography.Dleq.Laws.{verify-prove, verify-ok_iff}
use human_network.Cryptography.Reconstruct.{threshold_unchecked}
use human_network.Cryptography.Reconstruct.Laws.{
  threshold_unchecked-shares, threshold_unchecked-copies, add_times, copies,
}
use human_network.Messages.NetworkUtils.{Method, RequestToNetwork}
use human_network.Actors.AppState.{PubkeyShares, Relay}
use human_network.Actors.AppState.Proofs.{RedisCommand, get_request, set_request, share_name}
use human_network.Actors.AppState.Proofs.Collect.{Received, process_all}
use human_network.Actors.AppState.Proofs.Publish.{IsPublished}
use human_network.Actors.AppState.Proofs.Threshold.{
  IsUsable, Waits, points_of, nodes_of, process_all-IsPublished,
}

module _ (up : RedisCommand → Bool) (private_key : Bool) (key : private_key ≡ true) where
  module _ {F S P : Type 0} ⦃k : Field F⦄ (c : Curve F S P) (bincode_point : List ℕ → Outcome P)
      (to_vec : DleqProof S P → Option (List ℕ)) (hash_request : RequestToNetwork → Option ℕ)
      (hash512 : List ℕ → List ℕ) (request_id : ℕ) (method : Method) where
    module _ (request : RequestToNetwork) (shares : Assoc PubkeyShares) (h t : ℕ) where
      abbrev pub Usable : Received S P → Type 0
      Usable =
          IsUsable up private_key c.from_encoded bincode_point key c to_vec hash_request hash512
            request_id method request shares h t

      abbrev pub Waiting : Relay → Type 0
      Waiting =
          Waits up private_key c.from_encoded bincode_point key c to_vec hash_request hash512
            request_id method request shares h t []

      abbrev points : List (Received S P) → List P
      points =
          points_of up private_key c.from_encoded bincode_point key c to_vec hash_request hash512
            request_id method request shares h t

      abbrev indices_in : List (Received S P) → List ℕ
      indices_in =
          nodes_of up private_key c.from_encoded bincode_point key c to_vec hash_request hash512
            request_id method request shares h t

      abbrev pub Publishes : P → List (Received S P) → Relay → Type 0
      Publishes v ms s =
          IsPublished up private_key c.from_encoded bincode_point key c to_vec hash_request hash512
            request_id method v
            (process_all up private_key c.from_encoded bincode_point c "Secp256k1" to_vec
              hash_request hash512 request_id method ms s)

      -- A node answers: its public share is that of the polynomial's value, and its proof is made from it.
      abbrev pub Answers : P → (ℕ → F) → (ℕ → ℕ) → (ℕ → S) → (ℕ → DleqProof S P) → ℕ → Type 0
      Answers point f peer nonce proof i =
          (ps : PubkeyShares) × (bytes : List ℕ) × (get (peer i) shares ≡ some ps)
          × (lookup (share_name method) ps
              ≡ some (c.encode (act c c.base_point_or_generator (f i))))
          × (prove c hash512 (nonce i) point (c.into (f i)) ≡ ok (proof i))
          × (to_vec (proof i) ≡ some bytes)

      -- What the relay receives from a node.
      abbrev pub answer : (ℕ → ℕ) → (ℕ → DleqProof S P) → ℕ → Received S P
      answer peer proof i = (i, peer i, proof i)

      Answers-output :
          (point : P) (f : ℕ → F) (peer : ℕ → ℕ) (nonce : ℕ → S) (proof : ℕ → DleqProof S P) (i : ℕ)
          → Answers point f peer nonce proof i
          → DleqProof.output_point (proof i) ≡ act c point (f i)
      Answers-output point f peer nonce proof i (ps, bytes, ep, es, made, et) =
          ((verify-ok_iff c hash512 (proof i) _ _ _).0
            (verify-prove c hash512 (nonce i) point (c.into (f i)) made)).3

      Answers-Usable :
          (point : P) (f : ℕ → F) (peer : ℕ → ℕ) (nonce : ℕ → S) (proof : ℕ → DleqProof S P) (i : ℕ)
          → c.from_encoded request.point ≡ ok point
          → Answers point f peer nonce proof i
          → Usable (answer peer proof i)
      Answers-Usable point f peer nonce proof i requested (ps, bytes, ep, es, made, et) = (
        (
          ps,
          c.encode (act c c.base_point_or_generator (f i)),
          act c c.base_point_or_generator (f i),
          point,
          ep,
          es,
          c.from_encoded-encode _,
          requested,
          verify-prove c hash512 (nonce i) point (c.into (f i)) made
              ∙ ap ok
                  (sym (Answers-output point f peer nonce proof i (ps, bytes, ep, es, made, et))),
        ),
        bytes,
        et,
      )

      points-map :
          (point : P) (f : ℕ → F) (peer : ℕ → ℕ) (nonce : ℕ → S) (proof : ℕ → DleqProof S P)
          (is : List ℕ)
          → All (Answers point f peer nonce proof) is
          → points (map (answer peer proof) is) ≡ map (λ i. act c point (f i)) is
      points-map point f peer nonce proof [] a = refl
      points-map point f peer nonce proof (i ∷ is) (a, others) =
          ap₂ ◌∷◌ (Answers-output point f peer nonce proof i a)
            (points-map point f peer nonce proof is others)

      indices_in-map :
          (peer : ℕ → ℕ) (proof : ℕ → DleqProof S P) (is : List ℕ)
          → indices_in (map (answer peer proof) is) ≡ is
      indices_in-map peer proof [] = refl
      indices_in-map peer proof (i ∷ is) = ap (◌∷◌ i) (indices_in-map peer proof is)

      Answers-All :
          (point : P) (f : ℕ → F) (peer : ℕ → ℕ) (nonce : ℕ → S) (proof : ℕ → DleqProof S P)
          (is : List ℕ)
          → c.from_encoded request.point ≡ ok point
          → All (Answers point f peer nonce proof) is
          → All Usable (map (answer peer proof) is)
      Answers-All point f peer nonce proof [] requested a = tt
      Answers-All point f peer nonce proof (i ∷ is) requested (a, others) = (
        Answers-Usable point f peer nonce proof i requested a,
        Answers-All point f peer nonce proof is requested others,
      )

      copies-All : (n : ℕ) (m : Received S P) → Usable m → All Usable (copies n m)
      copies-All zero m u = tt
      copies-All (suc n) m u = (u, copies-All n m u)

      length-copies : (n : ℕ) (m : Received S P) → length (copies n m) ≡ n
      length-copies zero m = refl
      length-copies (suc n) m = ap suc (length-copies n m)

      points-copies :
          (n node_idx peer_id : ℕ) (proof : DleqProof S P)
          → points (copies n (node_idx, peer_id, proof)) ≡ copies n proof.output_point
      points-copies zero node_idx peer_id proof = refl
      points-copies (suc n) node_idx peer_id proof =
          ap (◌∷◌ proof.output_point) (points-copies n node_idx peer_id proof)

      indices_in-copies :
          (n node_idx peer_id : ℕ) (proof : DleqProof S P)
          → indices_in (copies n (node_idx, peer_id, proof)) ≡ copies n node_idx
      indices_in-copies zero node_idx peer_id proof = refl
      indices_in-copies (suc n) node_idx peer_id proof =
          ap (◌∷◌ node_idx) (indices_in-copies n node_idx peer_id proof)

      module _ (redis_get : up get_request ≡ true) (redis_set : up set_request ≡ true)
          (hashed : hash_request request ≡ some h) (room : t < 2 ^ 32) where
        -- The handler of the answers over secp256k1, with points in the curve's own encoding: a relay that
        -- waits for the results of a request, with Redis and the key for posting at hand, and that
        -- receives as such answers, from as many different nodes as its threshold, which is at least the
        -- number of coefficients of the shared polynomial and less than `2 ^ 32`, a proof that the node
        -- made from its share, publishes the secret times the requested point to the subscribers.
        pub process_all-secret :
            (point : P) (secret : F) (coeffs : List F) (indices : List ℕ) (peer : ℕ → ℕ)
            (nonce : ℕ → S) (proof : ℕ → DleqProof S P) (s : Relay)
            → IsNodeSet k indices
            → suc (length coeffs) ≤ t
            → length indices ≡ t
            → c.from_encoded request.point ≡ ok point
            → All
                (Answers point
                  (λ i. eval (from_coeffs (secret ∷ coeffs)) (k.from_u128 i))
                  peer
                  nonce
                  proof)
                indices
            → Waiting s
            → Publishes (act c point secret) (map (answer peer proof) indices) s
        process_all-secret point secret coeffs [] peer nonce proof s nodes enough n requested
              answers o =
            absurd (omega arith)
        process_all-secret point secret coeffs (i ∷ is) peer nonce proof s nodes enough n requested
              (a, others) o =
            let f = λ (i : ℕ). eval (from_coeffs (secret ∷ coeffs)) (k.from_u128 i) in
            process_all-IsPublished up private_key c.from_encoded bincode_point key c to_vec
              hash_request hash512 request_id method request shares h t redis_get redis_set hashed
              room (map (answer peer proof) is) [] i (peer i) (proof i) s (act c point secret)
              (act c point secret)
              (Answers-All point f peer nonce proof (i ∷ is) requested (a, others)) o
              (omega (arith, n, length-map (answer peer proof) is))
              (ap₂ (threshold_unchecked c)
                  (points-map point f peer nonce proof (i ∷ is) (a, others))
                  (indices_in-map peer proof (i ∷ is))
                ∙ threshold_unchecked-shares c point secret coeffs (i ∷ is) nodes
                    (omega (arith, n)))
              (c.from_encoded-encode _)

        -- The handler of the answers over secp256k1: a relay that waits for the results of a request, with
        -- Redis and the key for posting at hand, takes one accepted proof that a single peer sends as such
        -- an answer as often as its positive threshold, which is less than `2 ^ 32`, for the answers of as
        -- many nodes: it publishes that many times the output of this one proof.
        pub process_all-repeated :
            (node_idx peer_id : ℕ) (proof : DleqProof S P) (s : Relay)
            → Usable (node_idx, peer_id, proof)
            → 0 < node_idx
            → 0 < t
            → Waiting s
            → Publishes
                (add_times c t c.zero proof.output_point)
                (copies t (node_idx, peer_id, proof))
                s
        process_all-repeated node_idx peer_id proof s usable positive some_needed o =
            let m : Received S P = (node_idx, peer_id, proof) in
            let e : t ≡ suc (t - 1) = omega arith in
            subst (λ n. Publishes (add_times c n c.zero proof.output_point) (copies n m) s) (sym e)
              (process_all-IsPublished up private_key c.from_encoded bincode_point key c to_vec
                hash_request hash512 request_id method request shares h t redis_get redis_set hashed
                room (copies (t - 1) m) [] node_idx peer_id proof s
                (add_times c (suc (t - 1)) c.zero proof.output_point)
                (add_times c (suc (t - 1)) c.zero proof.output_point)
                (usable, copies-All (t - 1) m usable) o (omega (arith, length-copies (t - 1) m))
                (ap₂ (threshold_unchecked c) (points-copies (suc (t - 1)) node_idx peer_id proof)
                    (indices_in-copies (suc (t - 1)) node_idx peer_id proof)
                  ∙ threshold_unchecked-copies c node_idx (suc (t - 1)) proof.output_point positive)
                (c.from_encoded-encode _))
