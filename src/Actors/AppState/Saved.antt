-- ===== src/Actors/AppState/Saved.antt =====
-- What a relay and a prover keep in their database: `save_state`, `get_state`, `SaveCurrentState`,
-- `BackupState` and `RollbackToPreviousState` of network/crates/actors/src/app_state_actor.rs. A value is
-- stored as JSON under a text. What `serde_json` makes of a value, and whether the database is opened,
-- written and read, are arguments; a `flush` that fails is logged only.
pub mod Restored
use human_network.Prelude.{
  ℕ, ◌≡◌, Bool, true, false, ◌&&◌, List, [], ◌∷◌, Option, none, some, Assoc, values, length,
  Dictionary, leb, if◌then◌else◌, String, str_eq,
}
use human_network.Actors.AppState.{ProverInfo, PubkeyShares, QuorumMap, Relay, Prover}

-- `serde_json` on a type: what it has written is read again.
pub record Json (A : Type 0) : Type 0 where
  pub to_string : A → Option (List ℕ)
  pub from_slice : List ℕ → Option A
  pub from_slice-to_string :
      (a : A) (bytes : List ℕ) → to_string a ≡ some bytes → from_slice bytes ≡ some a

pub record Codecs : Type 0 where
  pub numbers : Json ℕ
  pub peers : Json ℕ
  pub quorums : Json QuorumMap
  pub shares : Json (Assoc PubkeyShares)
  pub keys : Json (Dictionary (List ℕ))

-- Whether the database opens, and which keys can be written and read.
pub record Disk : Type 0 where
  pub opens : Bool
  pub inserts : String → Bool
  pub gets : String → Bool

abbrev pub Database : Type 0
Database = String → Option (List ℕ)

abbrev pub put : String → List ℕ → Database → Database
put key json db other = if str_eq key other then some json else db other

-- An error is logged and leaves the database as it was.
unfoldable pub save_state : {A : Type 0} → Disk → Json A → String → A → Database → Database
save_state disk json key value db =
    if disk.opens
    then elim (json.to_string value) [
      | none ↦ db
      | some json_string ↦ if disk.inserts key then put key json_string db else db
    ]
    else db

unfoldable pub get_state : {A : Type 0} → Disk → Json A → String → Database → Option A
get_state disk json key db =
    if disk.opens && disk.gets key
    then elim (db key) [ none ↦ none | some serialized_value ↦ json.from_slice serialized_value ]
    else none

-- `get_state(..).unwrap_or_default()` of a number, and of a map.
abbrev pub number : Option ℕ → ℕ
number none = 0
number (some n) = n

abbrev pub entries_or_none {ℓ} : {A : Type ℓ} → Option (List A) → List A
entries_or_none none = []
entries_or_none (some xs) = xs

module _ (codecs : Codecs) (disk : Disk) where
  -- `SaveCurrentState` on a relay
  unfoldable pub save_current_state : Relay → Database → Database
  save_current_state s db =
      let db₁ = save_state disk codecs.numbers "n" s.n db in
      let db₂ = save_state disk codecs.numbers "t" s.t db₁ in
      let db₃ = save_state disk codecs.numbers "epsilon" s.epsilon db₂ in
      let db₄ =
        save_state disk codecs.keys "finalized_group_public_keys" s.finalized_group_public_keys
          db₃ in
      let db₅ = save_state disk codecs.shares "pubkey_shares" s.pubkey_shares db₄ in
      let db₆ = save_state disk codecs.quorums "new_provers" s.new_provers db₅ in
      save_state disk codecs.quorums "tstar_provers" s.tstar_provers db₆

  -- `SaveCurrentState` on a prover
  unfoldable pub save_prover_state : Prover → Database → Database
  save_prover_state s db =
      let db₁ = save_state disk codecs.numbers "n" s.n db in
      let db₂ = save_state disk codecs.numbers "t" s.t db₁ in
      let db₃ = save_state disk codecs.numbers "epsilon" s.epsilon db₂ in
      let db₄ = save_state disk codecs.numbers "idx" s.my_node_idx db₃ in
      let db₅ = save_state disk codecs.quorums "new_provers" s.new_provers db₄ in
      save_state disk codecs.keys "private_keyshares" s.private_keyshares db₅

  -- `BackupState` on a relay, for its own peer and the relay's; `tstar_provers` is not kept.
  unfoldable pub backup_state : ℕ → ℕ → Relay → Database → Database
  backup_state peer_id relay_peer_id s db =
      let db₁ = save_state disk codecs.quorums "new_provers" s.new_provers db in
      let db₂ = save_state disk codecs.peers "peer_id" peer_id db₁ in
      let db₃ = save_state disk codecs.peers "relay_peer_id" relay_peer_id db₂ in
      let db₄ = save_state disk codecs.numbers "current_epoch" s.current_epoch db₃ in
      let db₅ = save_state disk codecs.numbers "n" s.n db₄ in
      let db₆ = save_state disk codecs.numbers "t" s.t db₅ in
      let db₇ = save_state disk codecs.numbers "epsilon" s.epsilon db₆ in
      let db₈ =
        save_state disk codecs.keys "finalized_group_public_keys" s.finalized_group_public_keys
          db₇ in
      save_state disk codecs.shares "pubkey_shares" s.pubkey_shares db₈

abbrev pub infos : List (ProverInfo × ℕ) → List ProverInfo
infos [] = []
infos ((info, idx) ∷ rest) = info ∷ infos rest

-- The ready nodes and the flag after a rollback. `ping_nodes` answers the reachable indices, or none;
-- the number of nodes that is compared is that of the state before.
unfoldable pub reachable : (QuorumMap → Option (List ℕ)) → ℕ → List ℕ → QuorumMap → List ℕ × Bool
reachable ping_nodes saved_t ready_nodes [] = ([], false)
reachable ping_nodes saved_t ready_nodes (p ∷ ps) = elim (ping_nodes (p ∷ ps)) [
  | some nodes ↦ (nodes, leb saved_t (length ready_nodes))
  | none ↦ ([], false)
]

module _ (codecs : Codecs) (disk : Disk) where
  abbrev pub saved_number : String → Database → ℕ
  saved_number key db = number (get_state disk codecs.numbers key db)

  -- `RollbackToPreviousState` on a relay.
  unfoldable pub rollback_to_previous_state :
      (QuorumMap → Option (List ℕ)) → Database → Relay → Relay
  unfolding reachable
  rollback_to_previous_state ping_nodes db s =
      let saved_new_provers = entries_or_none (get_state disk codecs.quorums "new_provers" db) in
      let saved_t = saved_number "t" db in
      let (ready_nodes_set, ready_status) =
        reachable ping_nodes saved_t s.ready_nodes saved_new_provers in
      record s {
        n = saved_number "n" db;
        t = saved_t;
        epsilon = saved_number "epsilon" db;
        new_provers = saved_new_provers;
        tstar_provers = entries_or_none (get_state disk codecs.quorums "tstar_provers" db);
        pubkey_shares = entries_or_none (get_state disk codecs.shares "pubkey_shares" db);
        finalized_group_public_keys =
            entries_or_none (get_state disk codecs.keys "finalized_group_public_keys" db);
        active_provers = infos (values saved_new_provers);
        ready_nodes = ready_nodes_set;
        ready = ready_status;
      }

  -- `RollbackToPreviousState` on a prover.
  unfoldable pub rollback_prover_state : Database → Prover → Prover
  rollback_prover_state db s = record s {
    n = saved_number "n" db;
    t = saved_number "t" db;
    epsilon = saved_number "epsilon" db;
    my_node_idx = saved_number "idx" db;
    private_keyshares = entries_or_none (get_state disk codecs.keys "private_keyshares" db);
    new_provers = entries_or_none (get_state disk codecs.quorums "new_provers" db);
  }
