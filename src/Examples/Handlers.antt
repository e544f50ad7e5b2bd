-- ===== src/Examples/Handlers.antt =====
-- Runs of the relay's handlers around the collection of proofs, and of the counting of credits.
use human_network.Prelude.{
  ℕ, suc, ◌%◌, ◌^◌, ◌≤◌, ◌≡◌, refl, Bool, true, List, [], ◌∷◌, some, none, Outcome, ok, err,
  invalid_signature, take, length, Dictionary, lookup, arith, ok_injective, subst,
}
use human_network.Messages.NetworkUtils.{RequestToNetwork, Counts, oprf_secp256k1, recover}
use human_network.Messages.NetworkUtils.Credits.{account_all, account_all-bound}
use human_network.Actors.AppState.{Relay}
use human_network.Actors.AppState.Monitor.{Turn, tick, monitor_loop, Counters}
use human_network.Actors.AppState.Monitor.Ends.{
  verdict, monitor_loop-verdict, fail_times, fail_times-tries,
}
use human_network.Actors.AppState.Quorum.{resolve_conflicts_between_group_keys}
use human_network.Actors.AppState.Quorum.Majority.{
  votes, resolve_conflicts_between_group_keys-votes,
}
use human_network.Actors.AppState.Requests.{handle_multiplication_request}
use human_network.Actors.AppState.Requests.Unsigned.{
  Unbilled, handle_multiplication_request-Unbilled,
}
use human_network.Cryptography.Reconstruct.Laws.{copies}
use human_network.Examples.Relay.{request, relay}

-- Every request comes from the user 4, who has three credits.
abbrev signer : RequestToNetwork → Outcome ℕ
signer r = ok 4

abbrev credits : RequestToNetwork → ℕ → Outcome ℕ
credits r user = ok 3

abbrev no_counts : Counts
no_counts m u = none

abbrev many : List (RequestToNetwork × Bool × Bool)
many = copies 5 (request, true, true)

account_all-bound_example : (account_all signer credits oprf_secp256k1 4 many no_counts).1 ≤ 3
account_all-bound_example =
    account_all-bound signer credits oprf_secp256k1 4 3 many no_counts
      (λ r n m e. subst (λ x. x % 2 ^ 32 ≤ 3) (ok_injective e) (omega arith)) (omega arith) refl

abbrev silence : List Turn
silence = tick 1 ∷ copies 130 (tick 2)

monitor_loop-verdict_example : monitor_loop 3 0 silence ≡ some (verdict 3 (take 120 silence))
monitor_loop-verdict_example = monitor_loop-verdict 3 silence (omega arith)

abbrev counters : Counters
counters = record { no_of_shares_received = 2; resharing_failure_count = 0 }

fail_times-tries_example :
    (6 ≤ 4 → (fail_times 6 counters).1 ≡ 6) × (4 ≤ 6 → (fail_times 6 counters).1 ≡ 4)
fail_times-tries_example = fail_times-tries 6 4 counters refl

abbrev small : Relay
small = record relay { epsilon = 0 }

abbrev seeded : List ℕ → ℕ
seeded seed = length seed

abbrev next : ℕ → ℕ × ℕ
next n = (n, suc n)

abbrev bytes_of : RequestToNetwork → Outcome (List ℕ)
bytes_of r = ok r.point

abbrev nobody : List ℕ → List ℕ → Outcome ℕ
nobody sig message = err invalid_signature

handle_multiplication_request-Unbilled_example : Unbilled {V = ℕ} small no_counts (
    handle_multiplication_request
      (λ q. none)
      seeded
      next
      (recover bytes_of ok nobody)
      (λ r c. (c, ok 1))
      request
      small
      no_counts
      (3 ∷ [])
      5)
handle_multiplication_request-Unbilled_example =
    handle_multiplication_request-Unbilled ℕ (λ q. none) seeded next bytes_of ok nobody
      (λ r c. (c, ok 1)) request small no_counts (3 ∷ []) 5 refl

-- Two nodes agree on a key, and a third one does not.
abbrev sent_keys : List (Dictionary (List ℕ))
sent_keys =
    (("OPRFSecp256k1", 4 ∷ []) ∷ [])
    ∷ (("OPRFSecp256k1", 5 ∷ []) ∷ [])
    ∷ (("OPRFSecp256k1", 5 ∷ []) ∷ [])
    ∷ []

kept_key : lookup "OPRFSecp256k1" (resolve_conflicts_between_group_keys sent_keys) ≡ some (5 ∷ [])
unfolding resolve_conflicts_between_group_keys
kept_key = refl

resolve_conflicts_between_group_keys-votes_example :
    votes "OPRFSecp256k1" (4 ∷ []) sent_keys ≤ votes "OPRFSecp256k1" (5 ∷ []) sent_keys
resolve_conflicts_between_group_keys-votes_example =
    resolve_conflicts_between_group_keys-votes sent_keys "OPRFSecp256k1" (5 ∷ []) (4 ∷ []) kept_key
