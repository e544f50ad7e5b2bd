-- ===== src/Ingester/TaskMonitor/Blocks.antt =====
-- What the database holds after an event is stored, and where the monitor starts again.
use human_network.Prelude.{
  ℕ, ◌+◌, ◌%◌, ◌^◌, ◌<◌, ◌≡◌, refl, ◌⊎◌, inl, inr, true, List, [], ◌∷◌, Option, none, some, Outcome,
  ok, err, database_failed, ◌>>=◌, ok_or, map, Option-cases,
}
use native.Mathlib.Nat.{mod-eq_of_lt}
use human_network.Ingester.TaskMonitor.{
  TaskSubmittedEvent, Database, unless_empty, ingest_rows, ingest, get_last_processed_block,
  start_block, new_task, points_of, performer, attestor,
}

module _ {D Points : Type 0} (db : Database D Points) where
  -- A value, or the failure of a statement.
  abbrev Ran {ℓ} : {A : Type ℓ} → Outcome A → Type ℓ
  Ran o = ((a : _) × (o ≡ ok a)) ⊎ (o ≡ err database_failed)

  ok_or-Ran {ℓ} : {A : Type ℓ} (o : Option A) → Ran (ok_or database_failed o)
  ok_or-Ran none = inr refl
  ok_or-Ran (some a) = inl (a, refl)

  unless_empty-Ran :
      {A : Type 0} (f : List A → D → Option D) (xs : List A) (d : D) → Ran (unless_empty db f xs d)
  unfolding unless_empty
  unless_empty-Ran f [] d = inl (d, refl)
  unless_empty-Ran f (x ∷ xs) d = ok_or-Ran (f (x ∷ xs) d)

  -- Either the block is recorded, or a statement failed.
  abbrev Recorded : ℕ → Outcome D → Type 0
  Recorded b o =
      ((d : D) × (o ≡ ok d) × (db.last_processed_block d ≡ some (some b)))
      ⊎ (o ≡ err database_failed)

  Recorded-bind :
      {A : Type 0} (b : ℕ) (m : Outcome A) (f : A → Outcome D)
      → Ran m
      → ((a : A) → Recorded b (f a))
      → Recorded b (m >>= f)
  Recorded-bind b m f (inl (a, e)) h = rw e (h a)
  Recorded-bind b m f (inr e) h = inr (rw e refl)

  upsert-Recorded :
      (b : ℕ) (d : D) → Recorded b (ok_or database_failed (db.upsert_last_processed_block b d))
  upsert-Recorded b d = elim (Option-cases (db.upsert_last_processed_block b d)) [
    | inl e ↦ inr (rw e refl)
    | inr found ↦
        inl (found.0, rw (found.1) refl, db.last_processed_block-upsert b d found.0 found.1)
  ]

  ingest_rows-Recorded :
      (now : ℕ) (event : TaskSubmittedEvent) (d : D)
      → Recorded (event.block_number % 2 ^ 64) (ingest_rows db now event d)
  unfolding ingest_rows
  ingest_rows-Recorded now event d =
      Recorded-bind _ _ _ (ok_or-Ran (db.insert_task (new_task now event) d)) λ inserted.
        Recorded-bind _ _ _
          (unless_empty-Ran db.insert_performers (map (λ addr. (inserted.0, addr)) event.performers)
            inserted.1)
          λ d₂.
            Recorded-bind _ _ _
              (unless_empty-Ran db.insert_attestors
                (map (λ addr. (inserted.0, addr)) event.attester_addresses) d₂)
              λ d₃.
                Recorded-bind _ _ _
                  (unless_empty-Ran db.insert_points
                    (points_of db performer (db.performer_points event.task_size) now inserted.0
                      event.performers)
                    d₃)
                  λ d₄.
                    Recorded-bind _ _ _
                      (unless_empty-Ran db.insert_points
                        (points_of db attestor (db.attestor_points event.task_size) now inserted.0
                          event.attester_addresses)
                        d₄)
                      λ d₅. upsert-Recorded (event.block_number % 2 ^ 64) d₅

  -- When the number of the event's block fits into 64 bits, storing the event with a connection
  -- either succeeds, and the monitor starts again at the block after the event's, or fails with an
  -- error of the database, which is then left as it was.
  pub ingest-start_block :
      (now : ℕ) (event : TaskSubmittedEvent) (d : D)
      → event.block_number < 2 ^ 64
      → (((ingest db true now event d).1 ≡ ok tt)
          × (start_block db true (ingest db true now event d).0
              ≡ ok (some ((event.block_number + 1) % 2 ^ 64))))
        ⊎ (((ingest db true now event d).1 ≡ err database_failed)
            × ((ingest db true now event d).0 ≡ d))
  unfolding ingest start_block get_last_processed_block
  ingest-start_block now event d h = elim (ingest_rows-Recorded now event d) [
    | inl r ↦ inl (rw (r.1) refl, rw (r.1, r.2, mod-eq_of_lt h) refl)
    | inr e ↦ inr (rw e refl, rw e refl)
  ]
