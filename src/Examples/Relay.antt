-- ===== src/Examples/Relay.antt =====
-- A relay with two nodes over the residues modulo seven.
use human_network.Prelude.{
  ℕ, ◌+◌, refl, Bool, true, List, [], ◌∷◌, Option, some, none, map, arith, Assoc,
}
use human_network.Cryptography.Polynomial.{from_coeffs, eval}
use human_network.Cryptography.Dleq.{DleqProof}
use human_network.Cryptography.Dleq.Laws.{verify-prove}
use human_network.Cryptography.Reconstruct.Laws.{add_times, copies}
use human_network.Messages.NetworkUtils.{RequestToNetwork, oprf_secp256k1}
use human_network.Actors.AppState.{ProverInfo, submitted, PubkeyShares, Relay}
use human_network.Actors.AppState.Proofs.{RedisCommand, collection}
use human_network.Actors.AppState.Proofs.Secret.{
  Waiting, Publishes, Usable, answer, process_all-secret, process_all-repeated,
}
use human_network.Examples.Residue.{Residue, r0, r1, r2, r3, r5, mul, val, residue, residues}
use human_network.Examples.Group.{group, decode, decode-val}
use human_network.Examples.Crypto.{line, constant_hash, made, prove-made}

abbrev pub request : RequestToNetwork
request = record {
  method = oprf_secp256k1;
  point = 2 ∷ [];
  epoch = 0;
  request_per_user = 1;
  signature = none;
  extra_data = none;
}

abbrev up : RedisCommand → Bool
up command = true

abbrev to_vec : DleqProof Residue Residue → Option (List ℕ)
to_vec proof = some (val proof.output_point ∷ [])

abbrev hash_request : RequestToNetwork → Option ℕ
hash_request r = some 9

-- The public share of the node of an index.
abbrev share : ℕ → PubkeyShares
share i = ("OPRFSecp256k1", val (mul r3 (eval (from_coeffs line) (residue i))) ∷ []) ∷ []

abbrev shares : Assoc PubkeyShares
shares = (11, share 1) ∷ (13, share 3) ∷ []

abbrev pub info : ℕ → ProverInfo
info i = record {
  evm_address = i;
  peer_id = i + 10;
  address = i;
  rsa_pub_key = [];
  voting_power = 1;
  idx = i;
}

abbrev pub relay : Relay
relay = record {
  current_epoch = 0;
  active_provers = info 1 ∷ info 3 ∷ [];
  n = 3;
  t = 2;
  epsilon = 1;
  batch_size = 1;
  req_cache = (5, record { request = request; status = submitted }) ∷ [];
  res_cache = [];
  pubkey_shares = shares;
  ready = true;
  ready_nodes = 1 ∷ 3 ∷ [];
  new_cached_elected_provers = [];
  tstar_provers = [];
  new_provers = (11, (info 1, 1)) ∷ (13, (info 3, 3)) ∷ [];
  finalized_group_public_keys = [];
  received_group_public_keys = [];
  no_of_shares_received = 2;
  monitor_request_queue = [];
  batch_cache = [];
  pubsub_cache = 5 ∷ [];
  is_resharing_enabled = true;
  resharing_failure_count = 0;
  redis_requests = [];
  request_batch = [];
}

waiting :
    Waiting up true refl group decode to_vec hash_request constant_hash 5 oprf_secp256k1 request
      shares 9 2 relay
unfolding collection
waiting = record {
  requested = (record { request = request; status = submitted }, refl, refl);
  collected = refl;
  not_batched = refl;
  subscribed = refl;
  threshold = refl;
  shares_kept = refl;
}

abbrev proof_of : ℕ → DleqProof Residue Residue
proof_of i = made r2 (eval (from_coeffs line) (residue i))

process_all-secret_example :
    Publishes up true refl group decode to_vec hash_request constant_hash 5 oprf_secp256k1 request
      shares 9 2
      (mul r2 r5)
      (map
        (answer up true refl group decode to_vec hash_request constant_hash 5 oprf_secp256k1 request
          shares 9 2
          (λ i. i + 10)
          proof_of)
        (1 ∷ 3 ∷ []))
      relay
process_all-secret_example =
    process_all-secret up true refl group decode to_vec hash_request constant_hash 5 oprf_secp256k1
      request shares 9 2 refl refl refl (omega arith) r2 r5 (r2 ∷ []) (1 ∷ 3 ∷ []) (λ i. i + 10)
      (λ i. r1) proof_of relay (omega arith) (omega arith) refl refl
      (
        (share 1, _, refl, refl, prove-made r2 _, refl),
        ((share 3, _, refl, refl, prove-made r2 _, refl), tt),
      )
      waiting

usable :
    Usable up true refl group decode to_vec hash_request constant_hash 5 oprf_secp256k1 request
      shares 9 2
      (1, 11, proof_of 1)
usable = (
  (
    share 1,
    val (mul r3 (eval (from_coeffs line) r1)) ∷ [],
    mul r3 (eval (from_coeffs line) r1),
    r2,
    refl,
    refl,
    decode-val (mul r3 (eval (from_coeffs line) r1)),
    refl,
    verify-prove group constant_hash r1 r2 (eval (from_coeffs line) r1) (prove-made r2 _),
  ),
  _,
  refl,
)

process_all-repeated_example :
    Publishes up true refl group decode to_vec hash_request constant_hash 5 oprf_secp256k1 request
      shares 9 2
      (add_times group 2 r0 (proof_of 1).output_point)
      (copies 2 (1, 11, proof_of 1))
      relay
process_all-repeated_example =
    process_all-repeated up true refl group decode to_vec hash_request constant_hash 5
      oprf_secp256k1 request shares 9 2 refl refl refl (omega arith) 1 11 (proof_of 1) relay usable
      (omega arith) (omega arith) waiting
