-- ===== src/Messages/NetworkUtils.antt =====
-- network/crates/messages/src/network_utils.rs: the requests of users, their signatures and the
-- counting of credits. An address is a number; the serialisation of `bincode`, the signatures of
-- `ethers` and the answers of the contract and of Redis are arguments.

pub mod Credits
pub mod Signed
use human_network.Prelude.{
  ℕ, ◌+◌, ◌%◌, ◌^◌, Bool, true, false, ◌&&◌, List, Option, none, some, Outcome, ok, err, panic,
  ◌>>=◌, ◌>>◌, String, str_eq, invalid_input, invalid_signature, database_failed, key_not_found,
  ltb, ◌==◌, if◌then◌else◌, ensure,
}
use human_network.Cryptography.NodeSelection.{should_be_sent_to_node, calc_nodes_to_send_to}

pub data Method : Type 0 where
  oprf_secp256k1 oprf_baby_jub_jub decrypt_baby_jub_jub jwt_prf_secp256k1 : Method

-- `Method::as_str`
unfoldable pub as_str : Method → String
as_str oprf_secp256k1 = "OPRFSecp256k1"
as_str oprf_baby_jub_jub = "OPRFBabyJubJub"
as_str decrypt_baby_jub_jub = "DecryptBabyJubJub"
as_str jwt_prf_secp256k1 = "JWTPRFSecp256k1"

-- `Method::from_str`
unfoldable pub from_str : String → Option Method
from_str s =
    if str_eq s "OPRFSecp256k1"
    then some oprf_secp256k1
    else if str_eq s "OPRFBabyJubJub"
    then some oprf_baby_jub_jub
    else if str_eq s "DecryptBabyJubJub"
    then some decrypt_baby_jub_jub
    else if str_eq s "JWTPRFSecp256k1"
    then some jwt_prf_secp256k1
    else none

-- The derived `PartialEq`
abbrev pub method_eq : Method → Method → Bool
method_eq oprf_secp256k1 oprf_secp256k1 = true
method_eq oprf_baby_jub_jub oprf_baby_jub_jub = true
method_eq decrypt_baby_jub_jub decrypt_baby_jub_jub = true
method_eq jwt_prf_secp256k1 jwt_prf_secp256k1 = true
method_eq _ _ = false

pub record RequestToNetwork : Type 0 where
  pub method : Method
  pub point : List ℕ
  pub epoch : ℕ
  pub request_per_user : ℕ
  pub signature : Option (List ℕ)
  pub extra_data : Option (List ℕ)

-- The request with the texts of its proofs: proof, public share, masked point and peer. Bytes are
-- written in hexadecimal there; here they are bytes.
pub record RequestToNetworkWithProofs : Type 0 where
  pub base : RequestToNetwork
  pub proofs : List (List ℕ × List ℕ × List ℕ × ℕ)

module _ {R : Type 0} (from_seed : List ℕ → R) (next_u64 : R → ℕ × R) where
  unfoldable pub is_for_my_node : ℕ → ℕ → List ℕ → RequestToNetwork → Outcome Bool
  is_for_my_node t_plus_epsilon my_node_idx new_provers_idxes request =
      should_be_sent_to_node from_seed next_u64 request.epoch request.request_per_user
        t_plus_epsilon my_node_idx new_provers_idxes

  unfoldable pub get_nodes : ℕ → List ℕ → RequestToNetwork → Outcome (List ℕ)
  get_nodes t_plus_epsilon nodes_idxes request =
      calc_nodes_to_send_to from_seed next_u64 request.epoch request.request_per_user t_plus_epsilon
        nodes_idxes

-- `bincode::serialize`, `LocalWallet::sign_message` and `Signature::recover`.
module _ (serialize : RequestToNetwork → Outcome (List ℕ))
    (sign_message : List ℕ → Outcome (List ℕ)) (recover_signer : List ℕ → List ℕ → Outcome ℕ) where
  -- `_sign`
  unfoldable pub sign_request : RequestToNetwork → Outcome (List ℕ)
  sign_request request = do message ← serialize request; sign_message message

  unfoldable pub signed : RequestToNetwork → Outcome RequestToNetwork
  unfolding sign_request
  signed request = elim request.signature [
    | some sig ↦ err invalid_input
    | none ↦ sign_request request >>= λ sig. ok (record request { signature = some sig })
  ]

  unfoldable pub recover : RequestToNetwork → Outcome ℕ
  recover request = elim request.signature [
    | none ↦ err invalid_signature
    | some s ↦
        serialize (record request { signature = none }) >>= λ message. recover_signer s message
  ]

-- The values of Redis under `total_count:{method}:0x{user}`. The names of the methods differ and have
-- no colon, so a key is a method and a user.
abbrev pub Counts : Type 0
Counts = Method → ℕ → Option ℕ

abbrev pub set_count : Method → ℕ → ℕ → Counts → Counts
set_count method user count counts m u =
    if method_eq method m && (user == u) then some count else counts m u

-- The signer, what `get_user_credits` answers, and whether `GET` and `SET` succeed.
module _ (recover : RequestToNetwork → Outcome ℕ)
    (get_user_credits : RequestToNetwork → ℕ → Outcome ℕ) (get_ok set_ok : Bool) where
  -- `GET` with `unwrap_or(0)`
  unfoldable pub stored_count : Counts → Method → ℕ → Outcome ℕ
  stored_count counts method user = do
    ensure get_ok database_failed
    elim (counts method user) [ some count ↦ ok count | none ↦ ok 0 ]

  -- The number of a `u32` grows with wrap-around, and the credits are cut to 32 bits. The event for
  -- Kafka is left out.
  unfoldable pub charge : Method → ℕ → ℕ → ℕ → Bool → Counts → Counts × Outcome ℕ
  charge method user credits stored record' counts =
      let new_credits = (stored + 1) % 2 ^ 32 in
      if ltb (credits % 2 ^ 32) new_credits
      then (counts, err key_not_found)
      else if record'
      then (if set_ok
          then (set_count method user new_credits counts, ok 1)
          else (counts, err database_failed))
      else (counts, ok 1)

  unfoldable pub account_request_from_signer : RequestToNetwork → Bool → Counts → Counts × Outcome ℕ
  unfolding stored_count charge
  account_request_from_signer request record' counts = elim (recover request) [
    | err e ↦ (counts, err e)
    | panic ↦ (counts, panic)
    | ok user ↦ elim (get_user_credits request user) [
      | err e ↦ (counts, err e)
      | panic ↦ (counts, panic)
      | ok credits ↦ elim (stored_count counts request.method user) [
        | err e ↦ (counts, err e)
        | panic ↦ (counts, panic)
        | ok stored ↦ charge request.method user credits stored record' counts
      ]
    ]
  ]

  -- `x as i64` of a `u128`, read as a bit pattern shifted by 2 ^ 63 so that its order is that of `ℕ`.
  abbrev shifted_i64 : ℕ → ℕ
  shifted_i64 x = (x + 2 ^ 63) % 2 ^ 64

  unfoldable pub verify_account_request_from_signer :
      RequestToNetwork → Counts → Counts × Outcome (Unit {0})
  unfolding stored_count
  verify_account_request_from_signer request counts = elim (recover request) [
    | err e ↦ (counts, err e)
    | panic ↦ (counts, panic)
    | ok user ↦ elim (get_user_credits request user) [
      | err e ↦ (counts, err e)
      | panic ↦ (counts, panic)
      | ok credits ↦ elim (stored_count counts request.method user) [
        | err e ↦ (counts, err e)
        | panic ↦ (counts, panic)
        | ok stored ↦
            if ltb (shifted_i64 stored) (shifted_i64 request.request_per_user)
            then (if ltb credits request.request_per_user
                then (counts, err key_not_found)
                else if ltb request.request_per_user (2 ^ 63) && set_ok
                then (set_count request.method user request.request_per_user counts, ok tt)
                else (counts, err database_failed))
            else if ltb credits request.request_per_user
            then (counts, err key_not_found)
            else (counts, ok tt)
      ]
    ]
  ]
