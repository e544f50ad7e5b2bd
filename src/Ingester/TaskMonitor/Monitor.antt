-- ===== src/Ingester/TaskMonitor/Monitor.antt =====
-- `ContractEventMonitor` of task_monitor.rs: its loop, the cache of the operators, and the logs. What
-- the calls of the contract answer is an argument.
use human_network.Prelude.{
  ℕ, ◌+◌, ◌^◌, Bool, true, false, not, ◌&&◌, ◌||◌, List, [], ◌∷◌, ◌++◌, Option, none, some, Outcome,
  ok, err, panic, call_failed, leb, ltb, ◌==◌, if◌then◌else◌, Assoc, get, insert,
}
use human_network.Ingester.TaskMonitor.{
  TaskSubmittedEvent, Decoded, Log, from_log, Database, ingest,
}

-- The loop of `ContractEventMonitor::run` over what `monitor_events` returned in turn: the error that
-- ends it, or none while it goes on.
unfoldable pub run_loop : ℕ → ℕ → List (Outcome (Unit {0})) → Option (Outcome (Unit {0}))
run_loop max_retries retry_count [] = none
run_loop max_retries retry_count (ok u ∷ results) = run_loop max_retries 0 results
run_loop max_retries retry_count (err e ∷ results) =
    let rest = run_loop max_retries (retry_count + 1) results in
    if leb max_retries (retry_count + 1) then some (err e) else rest
run_loop max_retries retry_count (panic ∷ results) = some panic

-- `ContractEventMonitor::run`, with the `max_retries` that `new` sets.
unfoldable pub run : List (Outcome (Unit {0})) → Option (Outcome (Unit {0}))
unfolding run_loop
run results = run_loop 5 0 results

-- The cache of the operators, and how many calls of the contract were made.
pub record Monitor : Type 0 where
  pub operator_address_cache : Assoc ℕ
  pub calls : ℕ

-- The answers of the contract to its calls: the active operators, and the operator of one identifier
-- that `getOperatorPaymentDetail` names.
pub record Contract : Type 0 where
  pub active : ℕ → Option (Assoc ℕ)
  pub payment_detail : ℕ → ℕ → Option ℕ

unfoldable pub insert_all : Assoc ℕ → Assoc ℕ → Assoc ℕ
insert_all [] cache = cache
insert_all ((id, address) ∷ operators) cache = insert_all operators (insert id address cache)

abbrev pub is_empty : Assoc ℕ → Bool
is_empty [] = true
is_empty (x ∷ xs) = false

module _ (contract : Contract) where
  -- `ContractEventMonitor::get_operator_address_map`
  unfoldable pub get_operator_address_map : Bool → Monitor → Monitor × Outcome (Assoc ℕ)
  unfolding insert_all
  get_operator_address_map force_refresh m =
      if not force_refresh && not (is_empty m.operator_address_cache)
      then (m, ok m.operator_address_cache)
      else elim (contract.active m.calls) [
        | none ↦ (record m { calls = m.calls + 1 }, err call_failed)
        | some operators ↦
            let cache = insert_all operators m.operator_address_cache in
            (record { operator_address_cache = cache; calls = m.calls + 1 }, ok cache)
      ]

  -- The fallback for an identifier that no active operator has: the address that is pushed, if any.
  unfoldable pub look_up_inactive : ℕ → Monitor → Monitor × List ℕ
  look_up_inactive attester_id m =
      let m' = record m { calls = m.calls + 1 } in
      elim (contract.payment_detail m.calls attester_id) [
        | none ↦ (m', [])
        | some addr ↦ if addr == 0 then (m', []) else (
          record m' { operator_address_cache = insert attester_id addr m.operator_address_cache },
          addr ∷ [],
        )
      ]

  -- One identifier of `for attester_id in &event.attesters_ids`: the map that is used from then on, and
  -- what is pushed.
  unfoldable pub resolve_one : ℕ → Assoc ℕ → Monitor → Monitor × Outcome (Assoc ℕ × List ℕ)
  unfolding get_operator_address_map look_up_inactive
  resolve_one attester_id operator_map m = elim (get attester_id operator_map) [
    | some address ↦ (m, ok (operator_map, address ∷ []))
    | none ↦
        let (m₁, refreshed) = get_operator_address_map true m in
        elim refreshed [
          | ok operators ↦ elim (get attester_id operators) [
            | some address ↦ (m₁, ok (operators, address ∷ []))
            | none ↦
                let (m₂, pushed) = look_up_inactive attester_id m₁ in (m₂, ok (operators, pushed))
          ]
          | err e ↦ (m₁, err e)
          | panic ↦ (m₁, panic)
        ]
  ]

  unfoldable pub resolve_all : List ℕ → Assoc ℕ → List ℕ → Monitor → Monitor × Outcome (List ℕ)
  unfolding resolve_one
  resolve_all [] operator_map attester_addresses m = (m, ok attester_addresses)
  resolve_all (attester_id ∷ attesters_ids) operator_map attester_addresses m =
      let (m₁, resolved) = resolve_one attester_id operator_map m in
      elim resolved [
        | ok step ↦ resolve_all attesters_ids step.0 (attester_addresses ++ step.1) m₁
        | err e ↦ (m₁, err e)
        | panic ↦ (m₁, panic)
      ]

  module _ {D Points : Type 0} (db : Database D Points) where
    -- What `TaskData::abi_decode` makes of the data: the size of the task and its performers.
    -- The conversion of the size to `usize` panics when it does not fit.
    unfoldable pub with_task_data :
        Option (ℕ × List ℕ) → TaskSubmittedEvent → Outcome TaskSubmittedEvent
    with_task_data none event = ok event
    with_task_data (some task_data) event =
        if ltb task_data.0 (2 ^ 64)
        then ok (record event { task_size = task_data.0; performers = task_data.1 })
        else panic

    -- The part of `process_log` after the data is decoded; the error of `ingest` is logged only.
    unfoldable pub store_event :
        Bool → ℕ → TaskSubmittedEvent → Monitor × D → (Monitor × D) × Outcome (Unit {0})
    unfolding get_operator_address_map resolve_all
    store_event connected now event (m, d) =
        let (m₁, operators) = get_operator_address_map false m in
        elim operators [
          | err e ↦ ((m₁, d), err e)
          | panic ↦ ((m₁, d), panic)
          | ok operator_map ↦
              let (m₂, addresses) = resolve_all event.attesters_ids operator_map [] m₁ in
              elim addresses [
                | err e ↦ ((m₂, d), err e)
                | panic ↦ ((m₂, d), panic)
                | ok attester_addresses ↦
                    let stored =
                      ingest db connected now
                        (record event { attester_addresses = attester_addresses }) d in
                    ((m₂, stored.0), ok tt)
              ]
        ]

    -- `ContractEventMonitor::process_log`
    unfoldable pub process_log :
        (List ℕ → Option Decoded)
        → (List ℕ → Option (ℕ × List ℕ))
        → Bool
        → ℕ
        → Log
        → Monitor × D
        → (Monitor × D) × Outcome (Unit {0})
    unfolding with_task_data store_event
    process_log decode_log abi_decode connected now log (m, d) = elim (from_log decode_log log) [
      | err e ↦ ((m, d), err e)
      | panic ↦ ((m, d), panic)
      | ok decoded ↦
          if (decoded.task_definition_id == 10001) || (decoded.task_definition_id == 10002)
          then ((m, d), ok tt)
          else elim (with_task_data (abi_decode decoded.«data») decoded) [
            | err e ↦ ((m, d), err e)
            | panic ↦ ((m, d), panic)
            | ok event ↦ store_event connected now event (m, d)
          ]
    ]

    -- The loop of `monitor_events` over the logs of the stream: an error of one log is logged only, and
    -- a panic ends the loop.
    unfoldable pub process_logs :
        (List ℕ → Option Decoded)
        → (List ℕ → Option (ℕ × List ℕ))
        → Bool
        → ℕ
        → List Log
        → Monitor × D
        → (Monitor × D) × Outcome (Unit {0})
    unfolding process_log
    process_logs decode_log abi_decode connected now [] s = (s, ok tt)
    process_logs decode_log abi_decode connected now (log ∷ logs) s =
        let (s', result) = process_log decode_log abi_decode connected now log s in
        let rest = process_logs decode_log abi_decode connected now logs s' in
        elim result [ panic ↦ (s', panic) | ok _ ↦ rest | err e ↦ rest ]
