-- ===== src/Examples/Ingest.antt =====
-- Runs of the ingester over a small database and a contract with one active operator.
use human_network.Prelude.{
  ℕ, ◌+◌, ◌%◌, ◌^◌, ◌≡◌, ◌≢◌, ◌↔◌, ◌⊎◌, sym, ap, true, List, [], ◌∷◌, Option, none, some, ok, err,
  database_failed, invalid_input, arith,
}
use human_network.Ingester.TaskMonitor.{
  TaskSubmittedEvent, Decoded, Log, Database, NewTask, ingest, start_block,
}
use human_network.Ingester.TaskMonitor.Monitor.{Monitor, Contract, run, process_logs}
use human_network.Ingester.TaskMonitor.Retries.{HasStreak, run-HasStreak}
use human_network.Ingester.TaskMonitor.Cache.{Known, process_logs-Known}
use human_network.Ingester.TaskMonitor.Blocks.{ingest-start_block}

abbrev Store : Type 0
Store = List NewTask × Option ℕ

some_injective : {x y : Store} → some x ≡ some y → x ≡ y
some_injective h = cc

abbrev store : Database Store ℕ
store = record {
  insert_task = λ task d. some (7, (task ∷ d.0, d.1));
  insert_performers = λ rows d. some d;
  insert_attestors = λ rows d. some d;
  insert_points = λ rows d. some d;
  upsert_last_processed_block = λ b d. some (d.0, some b);
  last_processed_block = λ d. some (d.1);
  performer_points = λ n. n;
  attestor_points = λ n. n;
  last_processed_block-upsert = λ b d d' h. ap (λ t. some (t.1)) (sym (some_injective h));
}

abbrev event : TaskSubmittedEvent
event = record {
  operator = 11;
  task_number = 1;
  proof_of_task = [];
  «data» = [];
  task_size = 3;
  performers = 12 ∷ [];
  task_definition_id = 5;
  attesters_ids = 1 ∷ 2 ∷ [];
  attester_addresses = [];
  block_number = 40;
  transaction_hash = 99;
  log_index = 0;
}

abbrev fresh : Store
fresh = ([], none)

ingest-start_block_example :
    (((ingest store true 1000 event fresh).1 ≡ ok tt)
      × (start_block store true (ingest store true 1000 event fresh).0
          ≡ ok (some ((40 + 1) % 2 ^ 64))))
    ⊎ (((ingest store true 1000 event fresh).1 ≡ err database_failed)
        × ((ingest store true 1000 event fresh).0 ≡ fresh))
ingest-start_block_example = ingest-start_block store 1000 event fresh (omega arith)

run-HasStreak_example :
    (run (
        err invalid_input
        ∷ ok tt
        ∷ err invalid_input
        ∷ err invalid_input
        ∷ err invalid_input
        ∷ err invalid_input
        ∷ err invalid_input
        ∷ [])
      ≢ none)
    ↔ HasStreak 5 (
        err invalid_input
        ∷ ok tt
        ∷ err invalid_input
        ∷ err invalid_input
        ∷ err invalid_input
        ∷ err invalid_input
        ∷ err invalid_input
        ∷ [])
run-HasStreak_example =
    run-HasStreak
      (err invalid_input
        ∷ ok tt
        ∷ err invalid_input
        ∷ err invalid_input
        ∷ err invalid_input
        ∷ err invalid_input
        ∷ err invalid_input
        ∷ [])
      (tt, (tt, (tt, (tt, (tt, (tt, (tt, tt)))))))

abbrev contract : Contract
contract = record { active = λ call. some ((1, 21) ∷ []); payment_detail = λ call id. some 31 }

abbrev submitted : List ℕ → Option Decoded
submitted payload = some (record {
  operator = 11;
  task_number = 1;
  proof_of_task = [];
  «data» = [];
  task_definition_id = 5;
  attesters_ids = 1 ∷ 2 ∷ [];
})

abbrev monitor : Monitor
monitor = record { operator_address_cache = (1, 20) ∷ []; calls = 0 }

abbrev log : Log
log = record { payload = []; block_number = some 40; transaction_hash = some 99; log_index = none }

process_logs-Known_example :
    Known 1
      ((process_logs contract store submitted
          (λ bytes. some (3, 12 ∷ []))
          true
          1000
          (log ∷ log ∷ [])
          (monitor, fresh)).0.0
        ).operator_address_cache
process_logs-Known_example =
    process_logs-Known contract 1 store submitted (λ bytes. some (3, 12 ∷ [])) true 1000
      (log ∷ log ∷ []) monitor fresh (λ h. cc)
