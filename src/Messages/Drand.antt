-- ===== src/Messages/Drand.antt =====
-- network/crates/messages/src/drand.rs: the rounds of the randomness beacon, and how
-- network/crates/actors/src/election_actor.rs uses them. The request over HTTP, the check of the BLS
-- signature and the decoding of hexadecimal digits are calls of other libraries and arguments here.
use human_network.Prelude.{
  ℕ, ◌+◌, ◌-◌, ◌%◌, ◌^◌, Bool, true, false, List, Option, none, some, Outcome, ok, err, length,
  take, leb, if◌then◌else◌, ◌>>=◌, String, unwrap, invalid_input,
}

pub record DrandResponse : Type 0 where
  pub round : ℕ
  pub randomness : String
  pub signature : String
  pub previous_signature : String

-- `DrandResponse::default()`
abbrev pub no_response : DrandResponse
no_response = record { round = 0; randomness = ""; signature = ""; previous_signature = "" }

abbrev drand_round_threshold_tolernace : ℕ
drand_round_threshold_tolernace = 3

module _ (bls_verify : ℕ → List ℕ → List ℕ → Option Bool) (decode : String → Option (List ℕ)) where
  -- An error of the check counts as a signature that is not valid.
  unfoldable pub verify_drand : ℕ → List ℕ → List ℕ → Bool
  verify_drand round previous_signature signature =
      elim (bls_verify round previous_signature signature) [ some valid ↦ valid | none ↦ false ]

  decoded_or_error : String → Outcome (List ℕ)
  decoded_or_error s = elim (decode s) [ some bytes ↦ ok bytes | none ↦ err invalid_input ]

  -- The random number of a new election: the first 32 bytes of the beacon's, or `rand_num`, which is the
  -- node's own, if the beacon does not answer or its answer is not valid.
  unfoldable pub select_rand_num : List ℕ → Option DrandResponse → Outcome (List ℕ × DrandResponse)
  unfolding verify_drand decoded_or_error
  select_rand_num rand_num none = ok (rand_num, no_response)
  select_rand_num rand_num (some latest) = do
    prev_sig ← decoded_or_error latest.previous_signature
    sig ← decoded_or_error latest.signature
    let chosen : List ℕ = elim (decode latest.randomness) [
      | some randomness ↦ if leb 32 (length randomness) then take 32 randomness else rand_num
      | none ↦ rand_num
    ]
    ok (
        if verify_drand latest.round prev_sig sig
        then (chosen, latest)
        else (rand_num, no_response))

  -- The test of a response with `unwrap` of the decoded texts.
  verify_response : DrandResponse → Outcome Bool
  unfolding verify_drand
  verify_response latest = do
    previous_signature ← unwrap (decode latest.previous_signature)
    signature ← unwrap (decode latest.signature)
    ok (verify_drand latest.round previous_signature signature)

  -- Whether a node that is told of a new election goes on: `latest` is the newest round, if it can be
  -- fetched, and the other one is what the relay has sent. The rounds are subtracted as `u64`, which wraps.
  unfoldable pub check_drand_response : Option DrandResponse → DrandResponse → Outcome Bool
  unfolding verify_response
  check_drand_response none drand_response = ok true
  check_drand_response (some latest) drand_response = do
    verified ← verify_response latest
    let age = (latest.round + 2 ^ 64 - drand_response.round % 2 ^ 64) % 2 ^ 64
    elim verified [
      | false ↦ ok true
      | true ↦
          let gossiped = verify_response drand_response in
          if leb drand_round_threshold_tolernace age then ok false else gossiped
    ]
