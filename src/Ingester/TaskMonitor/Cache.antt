-- ===== src/Ingester/TaskMonitor/Cache.antt =====
-- The cache of the operators over the logs that are processed.
use human_network.Prelude.{
  ℕ, ◌≢◌, refl, Bool, true, false, List, [], ◌∷◌, ◌++◌, Option, none, Assoc, get, insert, arith,
  ◌==◌, not, ◌&&◌, ◌||◌, inl, inr, Bool-cases, Option-cases, Outcome-cases,
}
use human_network.Ingester.TaskMonitor.{TaskSubmittedEvent, Decoded, Log, from_log, Database}
use human_network.Ingester.TaskMonitor.Monitor.{
  Monitor, Contract, insert_all, is_empty, get_operator_address_map, look_up_inactive, resolve_one,
  resolve_all, with_task_data, store_event, process_log, process_logs,
}

-- The identifier has an address.
abbrev pub Known : ℕ → Assoc ℕ → Type 0
Known id cache = get id cache ≢ none

Known-insert : (id key v : ℕ) (cache : Assoc ℕ) → Known id cache → Known id (insert key v cache)
Known-insert id key v [] h = absurd (h refl)
Known-insert id key v ((j, w) ∷ cache) h = ground (arith, Known-insert id key v cache)

Known-insert_all :
    (id : ℕ) (operators cache : Assoc ℕ) → Known id cache → Known id (insert_all operators cache)
unfolding insert_all
Known-insert_all id [] cache h = h
Known-insert_all id ((j, a) ∷ operators) cache h =
    Known-insert_all id operators (insert j a cache) (Known-insert id j a cache h)

module _ (contract : Contract) (id : ℕ) where
  abbrev Keeps : Monitor → Monitor → Type 0
  Keeps m m' = Known id m.operator_address_cache → Known id m'.operator_address_cache

  Keeps-map : (force : Bool) (m : Monitor) → Keeps m (get_operator_address_map contract force m).0
  unfolding get_operator_address_map
  Keeps-map force m h = elim (Bool-cases (not force && not (is_empty m.operator_address_cache))) [
    | inl e ↦ rw e h
    | inr e ↦ elim (Option-cases (contract.active m.calls)) [
      | inl n ↦ rw (e, n) h
      | inr s ↦ rw (e, s.1) (Known-insert_all id s.0 m.operator_address_cache h)
    ]
  ]

  Keeps-look_up : (key : ℕ) (m : Monitor) → Keeps m (look_up_inactive contract key m).0
  unfolding look_up_inactive
  Keeps-look_up key m h = elim (Option-cases (contract.payment_detail m.calls key)) [
    | inl n ↦ rw (look_up_inactive, n) h
    | inr s ↦ elim (Bool-cases (s.0 == 0)) [
      | inl z ↦ rw (look_up_inactive, s.1, z) h
      | inr z ↦ rw (look_up_inactive, s.1, z) (Known-insert id key s.0 m.operator_address_cache h)
    ]
  ]

  Keeps-one : (key : ℕ) (map : Assoc ℕ) (m : Monitor) → Keeps m (resolve_one contract key map m).0
  unfolding resolve_one
  Keeps-one key map m h = elim (Option-cases (get key map)) [
    | inr s ↦ rw (resolve_one, s.1) h
    | inl n ↦
        let kept = Keeps-map true m h in
        elim (Outcome-cases (get_operator_address_map contract true m).1) [
          | inl r ↦ elim (Option-cases (get key r.0)) [
            | inr s ↦ rw (resolve_one, n, r.1, s.1) kept
            | inl s ↦
                rw (resolve_one, n, r.1, s)
                  (Keeps-look_up key (get_operator_address_map contract true m).0 kept)
          ]
          | inr (inl r) ↦ rw (resolve_one, n, r.1) kept
          | inr (inr r) ↦ rw (resolve_one, n, r) kept
        ]
  ]

  Keeps-all :
      (keys : List ℕ) (map : Assoc ℕ) (addresses : List ℕ) (m : Monitor)
      → Keeps m (resolve_all contract keys map addresses m).0
  unfolding resolve_all
  Keeps-all [] map addresses m h = h
  Keeps-all (key ∷ keys) map addresses m h =
      let kept = Keeps-one key map m h in
      elim (Outcome-cases (resolve_one contract key map m).1) [
        | inl r ↦
            rw (resolve_all, r.1)
              (Keeps-all keys (r.0).0 (addresses ++ (r.0).1) (resolve_one contract key map m).0
                kept)
        | inr (inl r) ↦ rw (resolve_all, r.1) kept
        | inr (inr r) ↦ rw (resolve_all, r) kept
      ]

  module _ {D Points : Type 0} (db : Database D Points) where
    Keeps-store :
        (connected : Bool) (now : ℕ) (event : TaskSubmittedEvent) (m : Monitor) (d : D)
        → Keeps m ((store_event contract db connected now event (m, d)).0).0
    unfolding store_event
    Keeps-store connected now event m d h =
        let kept = Keeps-map false m h in
        elim (Outcome-cases (get_operator_address_map contract false m).1) [
          | inl r ↦
              let m₁ = (get_operator_address_map contract false m).0 in
              let all = Keeps-all event.attesters_ids r.0 [] m₁ kept in
              elim (Outcome-cases (resolve_all contract event.attesters_ids r.0 [] m₁).1) [
                | inl a ↦ rw (store_event, r.1, a.1) all
                | inr (inl a) ↦ rw (store_event, r.1, a.1) all
                | inr (inr a) ↦ rw (store_event, r.1, a) all
              ]
          | inr (inl r) ↦ rw (store_event, r.1) kept
          | inr (inr r) ↦ rw (store_event, r) kept
        ]

    Keeps-log :
        (decode_log : List ℕ → Option Decoded) (abi_decode : List ℕ → Option (ℕ × List ℕ))
        (connected : Bool) (now : ℕ) (log : Log) (m : Monitor) (d : D)
        → Keeps m ((process_log contract db decode_log abi_decode connected now log (m, d)).0).0
    unfolding process_log
    Keeps-log decode_log abi_decode connected now log m d h =
        elim (Outcome-cases (from_log decode_log log)) [
          | inl r ↦
              elim (Bool-cases
                ((r.0.task_definition_id == 10001) || (r.0.task_definition_id == 10002))) [
                  | inl e ↦ rw (process_log, r.1, e) h
                  | inr e ↦
                      elim (Outcome-cases
                        (with_task_data contract db (abi_decode r.0.«data») r.0)) [
                          | inl v ↦
                              rw (process_log, r.1, e, v.1) (Keeps-store connected now v.0 m d h)
                          | inr (inl v) ↦ rw (process_log, r.1, e, v.1) h
                          | inr (inr v) ↦ rw (process_log, r.1, e, v) h
                        ]
                ]
          | inr (inl r) ↦ rw (process_log, r.1) h
          | inr (inr r) ↦ rw (process_log, r) h
        ]

    -- An identifier that has an address in the cache of the operators still has one after any logs were
    -- processed, whatever the decoders, the contract and the database answered, also if the processing
    -- ended in a panic.
    pub process_logs-Known :
        (decode_log : List ℕ → Option Decoded) (abi_decode : List ℕ → Option (ℕ × List ℕ))
        (connected : Bool) (now : ℕ) (logs : List Log) (m : Monitor) (d : D)
        → Known id m.operator_address_cache
        → Known id
            ((process_logs contract db decode_log abi_decode connected now logs (m, d)).0.0
              ).operator_address_cache
    unfolding process_logs
    process_logs-Known decode_log abi_decode connected now [] m d h = h
    process_logs-Known decode_log abi_decode connected now (log ∷ logs) m d h =
        let (s, result) = process_log contract db decode_log abi_decode connected now log (m, d) in
        let kept = Keeps-log decode_log abi_decode connected now log m d h in
        let rest = process_logs-Known decode_log abi_decode connected now logs s.0 s.1 kept in
        elim (Outcome-cases result) [
          | inl r ↦ rw (process_logs, r.1) rest
          | inr (inl r) ↦ rw (process_logs, r.1) rest
          | inr (inr r) ↦ rw (process_logs, r) kept
        ]
