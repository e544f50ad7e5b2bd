-- ===== src/Actors/AppState/Quorum.antt =====
-- How the relay comes to know its quorum: `update_threshold`, `update_elected_provers`, `store_kset`
-- and the handlers beside them in network/crates/actors/src/app_state_actor.rs. On a node in another
-- state they do nothing.
pub mod Majority
pub mod Counts
use human_network.Prelude.{
  ℕ, ◌+◌, ◌-◌, ◌%◌, ◌^◌, Bool, true, false, ◌||◌, List, [], ◌∷◌, Option, none, some, Outcome, ok,
  err, panic, Assoc, get, insert, length, set_insert, Dictionary, String, str_eq, ltb, leb, ◌==◌,
  if◌then◌else◌, ◌++◌, invalid_input, invalid_parameters,
}
use human_network.Actors.AppState.{ProverInfo, ElectionInfo, PubkeyShares, QuorumMap, Relay, Prover}

-- The parameters are written before they are tested, and what is logged is the result.
unfoldable pub update_threshold : ElectionInfo → Relay → Relay × Outcome (Unit {0})
update_threshold info s =
    let s' : Relay = record s {
      n = info.total_provers;
      t = info.threshold;
      epsilon = info.epsilon;
    } in
    if leb s'.n s'.t
    then (s', err invalid_parameters)
    else if ltb s'.t 2
    then (s', err invalid_parameters)
    else if ltb s'.n 3
    then (s', err invalid_parameters)
    else if ltb (s'.n - s'.t) s'.epsilon
    then (s', err invalid_parameters)
    else (s', ok tt)

unfoldable pub update_elected_provers : List ProverInfo → Bool → Relay → Relay
update_elected_provers request is_cache_prover s =
    if is_cache_prover
    then record s { new_cached_elected_provers = request }
    else record s { active_provers = request }

unfoldable pub update_node_idx : ℕ → Prover → Prover
update_node_idx idx s = record s { my_node_idx = idx }

-- The size of each entry is compared with the limit.
unfoldable pub check_memory_usage : Dictionary (List ℕ) → ℕ → Outcome (Unit {0})
check_memory_usage [] max_memory_usage = ok tt
check_memory_usage ((key, value) ∷ rest) max_memory_usage =
    let others = check_memory_usage rest max_memory_usage in
    if ltb max_memory_usage (length value) then err invalid_input else others

-- The bytes of two values, compared.
abbrev pub bytes_eq : List ℕ → List ℕ → Bool
bytes_eq [] [] = true
bytes_eq (x ∷ xs) (y ∷ ys) = if x == y then bytes_eq xs ys else false
bytes_eq _ _ = false

-- `*entry.or_insert(0) += 1` among the counts of the values of one key.
unfoldable pub count_value : List ℕ → List (List ℕ × ℕ) → List (List ℕ × ℕ)
count_value value [] = (value, 1) ∷ []
count_value value ((other, n) ∷ counts) =
    if bytes_eq other value then (other, n + 1) ∷ counts else (other, n) ∷ count_value value counts

-- The same, in the counts of the key.
unfoldable pub count_entry :
    String → List ℕ → Dictionary (List (List ℕ × ℕ)) → Dictionary (List (List ℕ × ℕ))
unfolding count_value
count_entry key value [] = (key, count_value value []) ∷ []
count_entry key value ((other, counts) ∷ rest) =
    if str_eq other key
    then (other, count_value value counts) ∷ rest
    else (other, counts) ∷ count_entry key value rest

unfoldable pub count_map :
    Dictionary (List ℕ) → Dictionary (List (List ℕ × ℕ)) → Dictionary (List (List ℕ × ℕ))
unfolding count_entry
count_map [] value_count = value_count
count_map ((key, value) ∷ keys_map) value_count =
    count_map keys_map (count_entry key value value_count)

unfoldable pub count_all :
    List (Dictionary (List ℕ)) → Dictionary (List (List ℕ × ℕ)) → Dictionary (List (List ℕ × ℕ))
unfolding count_map
count_all [] value_count = value_count
count_all (keys_map ∷ maps) value_count = count_all maps (count_map keys_map value_count)

-- `max_by_key` on the counts, which keeps the last of the largest, from a first one on.
unfoldable pub max_value : List ℕ × ℕ → List (List ℕ × ℕ) → List ℕ × ℕ
max_value (value, n) [] = (value, n)
max_value (value, n) ((other, m) ∷ counts) =
    let here = max_value (other, m) counts in
    let past = max_value (value, n) counts in if leb n m then here else past

-- Each key is given the value that was counted most often; a key without counts, which would panic,
-- does not come up, and is left out.
unfoldable pub choose : Dictionary (List (List ℕ × ℕ)) → Dictionary (List ℕ)
unfolding max_value
choose [] = []
choose ((key, []) ∷ value_count) = choose value_count
choose ((key, first ∷ counts) ∷ value_count) =
    let (value, n) = max_value first counts in (key, value) ∷ choose value_count

unfoldable pub resolve_conflicts_between_group_keys :
    List (Dictionary (List ℕ)) → Dictionary (List ℕ)
unfolding count_all choose
resolve_conflicts_between_group_keys group_public_keys = choose (count_all group_public_keys [])

-- `any(|prover| prover.peer_id == peer_id)`
unfoldable pub is_listed : ℕ → List ProverInfo → Bool
is_listed peer_id [] = false
is_listed peer_id (prover ∷ provers) = prover.peer_id == peer_id || is_listed peer_id provers

-- The number of the ready nodes is cut to 32 bits.
unfoldable pub store_kset :
    ℕ → PubkeyShares → ℕ → Dictionary (List ℕ) → Relay → Relay × Outcome (Unit {0})
unfolding is_listed check_memory_usage resolve_conflicts_between_group_keys
store_kset peer_id pubkey_shares_to_store idx group_public_keys s =
    if is_listed peer_id s.active_provers
    then elim (check_memory_usage pubkey_shares_to_store 100) [
      | err e ↦ (s, err e)
      | panic ↦ (s, panic)
      | ok _ ↦ elim (check_memory_usage group_public_keys 200) [
        | err e ↦ (s, err e)
        | panic ↦ (s, panic)
        | ok _ ↦
            let s' : Relay = record s {
              pubkey_shares = insert peer_id pubkey_shares_to_store s.pubkey_shares;
              ready_nodes = set_insert idx s.ready_nodes;
              received_group_public_keys = s.received_group_public_keys ++ group_public_keys ∷ [];
            } in
            let s'' : Relay =
              if length s'.ready_nodes % 2 ^ 32 == s'.n
              then record s' {
                finalized_group_public_keys =
                    resolve_conflicts_between_group_keys s'.received_group_public_keys;
              }
              else s' in
            (record s'' { no_of_shares_received = length s''.pubkey_shares }, ok tt)
      ]
    ]
    else (s, err invalid_input)

unfoldable pub store_quorum_map : QuorumMap → QuorumMap → Relay → Relay
store_quorum_map received_tstar_provers_map received_new_provers_map s = record s {
  tstar_provers = received_tstar_provers_map;
  new_provers = received_new_provers_map;
}

unfoldable pub store_resharing_kset : ℕ → PubkeyShares → ℕ → Relay → Relay × Outcome (Unit {0})
unfolding is_listed check_memory_usage
store_resharing_kset peer_id pubkey_shares_to_store idx s =
    elim (check_memory_usage pubkey_shares_to_store 100) [
      | err e ↦ (s, err e)
      | panic ↦ (s, panic)
      | ok _ ↦
          if is_listed peer_id s.new_cached_elected_provers
          then (let s' : Relay = record s {
            pubkey_shares = insert peer_id pubkey_shares_to_store s.pubkey_shares;
            ready_nodes = set_insert idx s.ready_nodes;
          } in
              let s'' : Relay =
                if length s'.ready_nodes % 2 ^ 32 == s'.n
                then record s' { active_provers = s'.new_cached_elected_provers }
                else s' in
              (record s'' { no_of_shares_received = length s''.pubkey_shares }, ok tt))
          else (record s { no_of_shares_received = length s.pubkey_shares }, err invalid_input)
    ]

-- `ClearShares`
unfoldable pub clear_shares : Relay → Relay
clear_shares s = record s { pubkey_shares = []; ready = false; ready_nodes = [] }

-- `PreResharing`, which also asks for a new election.
unfoldable pub pre_resharing : Relay → Relay
pre_resharing s = record s { no_of_shares_received = 0 }
