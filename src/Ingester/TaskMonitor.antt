-- ===== src/Ingester/TaskMonitor.antt =====
-- network/crates/ingester/src/task_monitor.rs: the logs `TaskSubmitted` of the contract are decoded,
-- their attesters are resolved to addresses, and they are stored. The database, the decoders and the
-- answers of the contract are arguments. An address or an identifier is a number, a signed integer
-- its bit pattern, and what is logged is left out.
pub mod Retries
pub mod Monitor
pub mod Cache
pub mod Blocks
use human_network.Prelude.{
  ℕ, ◌≡◌, suc, ◌+◌, ◌%◌, ◌^◌, Bool, true, false, not, ◌&&◌, ◌||◌, List, [], ◌∷◌, ◌++◌, map, Option,
  none, some, Outcome, ok, err, panic, Error, decode_failed, database_failed, call_failed, ◌>>=◌,
  ok_or, map_err, leb, ◌==◌, if◌then◌else◌, Assoc, get, insert,
}

pub record TaskSubmittedEvent : Type 0 where
  pub operator : ℕ
  pub task_number : ℕ
  pub proof_of_task : List ℕ
  pub «data» : List ℕ
  pub task_size : ℕ
  pub performers : List ℕ
  pub task_definition_id : ℕ
  pub attesters_ids : List ℕ
  pub attester_addresses : List ℕ
  pub block_number : ℕ
  pub transaction_hash : ℕ
  pub log_index : ℕ

-- What the generated decoder `TaskSubmitted::decode_log` returns.
pub record Decoded : Type 0 where
  pub operator : ℕ
  pub task_number : ℕ
  pub proof_of_task : List ℕ
  pub «data» : List ℕ
  pub task_definition_id : ℕ
  pub attesters_ids : List ℕ

-- The fields of `alloy::rpc::types::Log` that are read beside its payload.
pub record Log : Type 0 where
  pub payload : List ℕ
  pub block_number : Option ℕ
  pub transaction_hash : Option ℕ
  pub log_index : Option ℕ

-- `unwrap_or_default`
abbrev or_zero : Option ℕ → ℕ
or_zero none = 0
or_zero (some n) = n

unfoldable pub from_log : (List ℕ → Option Decoded) → Log → Outcome TaskSubmittedEvent
from_log decode_log log = do
  decoded ← ok_or decode_failed (decode_log log.payload)
  ok (record {
    operator = decoded.operator;
    task_number = decoded.task_number;
    proof_of_task = decoded.proof_of_task;
    «data» = decoded.«data»;
    task_size = 0;
    performers = [];
    task_definition_id = decoded.task_definition_id;
    attesters_ids = decoded.attesters_ids;
    attester_addresses = [];
    block_number = or_zero log.block_number;
    transaction_hash = or_zero log.transaction_hash;
    log_index = or_zero log.log_index;
  })

pub record NewTask : Type 0 where
  pub task_number : ℕ
  pub task_definition_id : ℕ
  pub task_size : ℕ
  pub proof_of_task : List ℕ
  pub operator : ℕ
  pub block_number : ℕ
  pub transaction_hash : ℕ
  pub log_index : ℕ
  pub timestamp : ℕ

pub data OperatorRole : Type 0 where
  performer attestor : OperatorRole

pub record NewOperatorPointsLedger (Points : Type 0) : Type 0 where
  pub operator : ℕ
  pub task_id : ℕ
  pub role : OperatorRole
  pub points : Points
  pub created_at : ℕ

-- The tables behind diesel, each statement with its failure, and the points, which are floating-point
-- numbers: `task_size as f64` and `0.1 * task_size as f64`.
pub record Database (D Points : Type 0) : Type 0 where
  pub insert_task : NewTask → D → Option (ℕ × D)
  pub insert_performers : List (ℕ × ℕ) → D → Option D
  pub insert_attestors : List (ℕ × ℕ) → D → Option D
  -- `on_conflict_do_nothing`
  pub insert_points : List (NewOperatorPointsLedger Points) → D → Option D
  -- The row with the identifier 1 of `monitor_task_state`, inserted or updated, and read.
  pub upsert_last_processed_block : ℕ → D → Option D
  pub last_processed_block : D → Option (Option ℕ)
  pub performer_points : ℕ → Points
  pub attestor_points : ℕ → Points
  pub last_processed_block-upsert :
      (b : ℕ) (d d' : D)
      → upsert_last_processed_block b d ≡ some d'
      → last_processed_block d' ≡ some (some b)

-- The row that `ingest` writes, the casts to signed integers included.
unfoldable pub new_task : ℕ → TaskSubmittedEvent → NewTask
new_task now event = record {
  task_number = event.task_number % 2 ^ 32;
  task_definition_id = event.task_definition_id % 2 ^ 32;
  task_size = event.task_size % 2 ^ 64;
  proof_of_task = event.proof_of_task;
  operator = event.operator;
  block_number = event.block_number % 2 ^ 64;
  transaction_hash = event.transaction_hash;
  log_index = event.log_index % 2 ^ 64;
  timestamp = now;
}

module _ {D Points : Type 0} (db : Database D Points) where
  -- `if !rows.is_empty() { insert }`
  unfoldable pub unless_empty {ℓ} : {A : Type ℓ} → (List A → D → Option D) → List A → D → Outcome D
  unless_empty statement [] d = ok d
  unless_empty statement (x ∷ xs) d = ok_or database_failed (statement (x ∷ xs) d)

  unfoldable pub points_of :
      OperatorRole → Points → ℕ → ℕ → List ℕ → List (NewOperatorPointsLedger Points)
  points_of role points now task_id addresses =
      map
        (λ addr. record {
          operator = addr;
          task_id = task_id;
          role = role;
          points = points;
          created_at = now;
        })
        addresses

  -- The body of the transaction of `ingest`, at the time `now`.
  unfoldable pub ingest_rows : ℕ → TaskSubmittedEvent → D → Outcome D
  unfolding unless_empty points_of new_task
  ingest_rows now event d = do
    (task_id, d₁) ← ok_or database_failed (db.insert_task (new_task now event) d)
    d₂ ← unless_empty db.insert_performers (map (λ addr. (task_id, addr)) event.performers) d₁
    d₃ ←
        unless_empty db.insert_attestors (map (λ addr. (task_id, addr)) event.attester_addresses) d₂
    d₄ ←
        unless_empty db.insert_points
          (points_of performer (db.performer_points event.task_size) now task_id event.performers)
          d₃
    d₅ ←
        unless_empty db.insert_points
          (points_of attestor (db.attestor_points event.task_size) now task_id
            event.attester_addresses)
          d₄
    ok_or database_failed (db.upsert_last_processed_block (event.block_number % 2 ^ 64) d₅)

  -- `TaskSubmittedEvent::ingest`: without a connection nothing is run, and a transaction that fails is
  -- rolled back.
  unfoldable pub ingest : Bool → ℕ → TaskSubmittedEvent → D → D × Outcome (Unit {0})
  unfolding ingest_rows
  ingest connected now event d =
      if connected
      then elim (ingest_rows now event d) [
        | ok d' ↦ (d', ok tt)
        | err e ↦ (d, err e)
        | panic ↦ (d, panic)
      ]
      else (d, err database_failed)

  -- `ContractEventMonitor::get_last_processed_block`
  unfoldable pub get_last_processed_block : Bool → D → Outcome (Option ℕ)
  get_last_processed_block connected d =
      if connected then ok_or database_failed (db.last_processed_block d) else err database_failed

  -- The block that `monitor_events` starts from: `none` is `BlockNumberOrTag::Latest`. The addition
  -- wraps, as in a release build.
  unfoldable pub start_block : Bool → D → Outcome (Option ℕ)
  unfolding get_last_processed_block
  start_block connected d = do
    from_block ← get_last_processed_block connected d
    ok (elim from_block [ none ↦ none | some block ↦ some ((block + 1) % 2 ^ 64) ])
