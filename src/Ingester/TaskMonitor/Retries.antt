-- ===== src/Ingester/TaskMonitor/Retries.antt =====
-- When the loop of `ContractEventMonitor::run` ends.
use human_network.Prelude.{
  ℕ, ◌+◌, ◌<◌, ◌≡◌, ◌≢◌, refl, ap, ◌⊎◌, inl, inr, List, [], ◌∷◌, ◌++◌, none, some, Outcome, ok, err,
  panic, length, leb, leb-of_le, Bool-cases, subst, sym, if◌then◌else◌, ◌≤◌, All, arith, ◌↔◌,
}
use human_network.Ingester.TaskMonitor.Monitor.{run_loop, run}

-- The outcome is an error.
abbrev pub IsErr : Outcome (Unit {0}) → Type 0
IsErr (ok u) = ⊥
IsErr (err e) = Unit
IsErr panic = ⊥

-- The outcome is no panic.
abbrev pub IsResult : Outcome (Unit {0}) → Type 0
IsResult (ok u) = Unit
IsResult (err e) = Unit
IsResult panic = ⊥

-- As many errors in a row as given, somewhere in the list.
abbrev pub HasStreak : ℕ → List (Outcome (Unit {0})) → Type 0
HasStreak n results =
    (before : List (Outcome (Unit {0}))) × (errors : List (Outcome (Unit {0}))) × (after : List
      (Outcome (Unit {0})))
    × (results ≡ before ++ (errors ++ after))
    × (length errors ≡ n)
    × All IsErr errors

run_loop-errors :
    (max count : ℕ) (errors after : List (Outcome (Unit {0})))
    → 0 < length errors
    → max ≤ count + length errors
    → All IsErr errors
    → run_loop max count (errors ++ after) ≢ none
unfolding run_loop
run_loop-errors max count [] after h e a = absurd (omega arith)
run_loop-errors max count (ok u ∷ errors) after h e (a, as') = absurd a
run_loop-errors max count (panic ∷ errors) after h e (a, as') = absurd a
run_loop-errors max count (err x ∷ []) after h e a =
    rw (leb-of_le max (count + 1) (omega arith)) (λ q. cc)
run_loop-errors max count (err x ∷ y ∷ errors) after h e (a, as') =
    elim (Bool-cases (leb max (count + 1))) [
      | inl q ↦ rw q (λ r. cc)
      | inr q ↦
          rw q (run_loop-errors max (count + 1) (y ∷ errors) after (omega arith) (omega arith) as')
    ]

run_loop-before :
    (max count : ℕ) (before errors after : List (Outcome (Unit {0})))
    → 0 < max
    → length errors ≡ max
    → All IsErr errors
    → run_loop max count (before ++ (errors ++ after)) ≢ none
unfolding run_loop
run_loop-before max count [] errors after p e a =
    run_loop-errors max count errors after (omega arith) (omega arith) a
run_loop-before max count (ok u ∷ before) errors after p e a =
    run_loop-before max 0 before errors after p e a
run_loop-before max count (panic ∷ before) errors after p e a = λ q. cc
run_loop-before max count (err x ∷ before) errors after p e a =
    elim (Bool-cases (leb max (count + 1))) [
      | inl q ↦ rw q (λ r. cc)
      | inr q ↦ rw q (run_loop-before max (count + 1) before errors after p e a)
    ]

-- Errors at the start that complete the ones that were counted before.
abbrev Completes : ℕ → ℕ → List (Outcome (Unit {0})) → Type 0
Completes max count results =
    (errors : List (Outcome (Unit {0}))) × (after : List (Outcome (Unit {0}))) × (results
      ≡ errors ++ after)
    × (count + length errors ≡ max)
    × All IsErr errors

HasStreak-cons :
    (max : ℕ) (x : Outcome (Unit {0})) (results : List (Outcome (Unit {0})))
    → HasStreak max results
    → HasStreak max (x ∷ results)
HasStreak-cons max x results (before, errors, after, e, n, a) =
    (x ∷ before, errors, after, ap (λ l. x ∷ l) e, n, a)

HasStreak-start :
    (max : ℕ) (results : List (Outcome (Unit {0})))
    → Completes max 0 results
    → HasStreak max results
HasStreak-start max results (errors, after, e, n, a) = ([], errors, after, e, omega arith, a)

run_loop-streak :
    (max count : ℕ) (results : List (Outcome (Unit {0})))
    → count < max
    → All IsResult results
    → run_loop max count results ≢ none
    → Completes max count results ⊎ HasStreak max results
unfolding run_loop
run_loop-streak max count [] h r e = absurd (e refl)
run_loop-streak max count (panic ∷ results) h (p, r) e = absurd p
run_loop-streak max count (ok u ∷ results) h (p, r) e =
    elim (run_loop-streak max 0 results (omega arith) r e) [
      | inl c ↦ inr (HasStreak-cons max (ok u) results (HasStreak-start max results c))
      | inr s ↦ inr (HasStreak-cons max (ok u) results s)
    ]
run_loop-streak max count (err x ∷ results) h (p, r) e = elim (Bool-cases (leb max (count + 1))) [
  | inl q ↦ inl (err x ∷ [], results, refl, ground arith, (tt, tt))
  | inr q ↦
      elim (run_loop-streak max (count + 1) results (ground arith) r
        (subst (λ b. (if b then some (err x) else run_loop max (count + 1) results) ≢ none) q e)) [
          | inl c ↦ inl (err x ∷ c.0, c.1, ap (λ l. err x ∷ l) (c.2), omega (arith, c.3), (tt, c.4))
          | inr s ↦ inr (HasStreak-cons max (err x) results s)
        ]
]

-- As long as `monitor_events` does not panic, `run` has returned, after the given results of its calls,
-- exactly when five results in a row were errors.
pub run-HasStreak :
    (results : List (Outcome (Unit {0})))
    → All IsResult results
    → (run results ≢ none) ↔ HasStreak 5 results
unfolding run
run-HasStreak results r = (
  λ e. elim (run_loop-streak 5 0 results (omega arith) r e) [
    | inl c ↦ HasStreak-start 5 results c
    | inr s ↦ s
  ],
  λ s.
      subst (λ l. run_loop 5 0 l ≢ none) (sym (s.3))
        (run_loop-before 5 0 s.0 s.1 s.2 (omega arith) s.4 s.5),
)
