-- ===== src/Actors/AppState/Monitor/Ends.antt =====
-- The monitoring ends in time, and a failed resharing is tried again a bounded number of times.
use human_network.Prelude.{
  ℕ, zero, suc, ◌+◌, ◌≤◌, ◌≡◌, refl, true, false, List, [], ◌∷◌, some, length, take, leb, ◌==◌,
  if◌then◌else◌, leb-of_le, leb-of_gt, Bool-cases, inl, inr, arith,
}
use human_network.Actors.AppState.Monitor.{
  Turn, tick, cancelled, Order, pre_resharing, Counters, Ending, quorum_formed, timed_out, stopped,
  monitor_loop, dkg_resharing_wait_time, resharing, resharing_failed, conclude,
  max_resharing_attempts_at_a_time,
}

-- What decides over the turns of the time given: the first that completes the shares or cancels.
unfoldable pub verdict : ℕ → List Turn → Ending
verdict target [] = timed_out
verdict target (cancelled ∷ turns) = stopped
verdict target (tick shares ∷ turns) =
    let rest = verdict target turns in if shares == target then quorum_formed else rest

monitor_loop-left :
    (target elapsed left : ℕ) (turns : List Turn)
    → elapsed + suc left ≡ dkg_resharing_wait_time
    → suc left ≤ length turns
    → monitor_loop target elapsed turns ≡ some (verdict target (take (suc left) turns))
unfolding monitor_loop verdict
monitor_loop-left target elapsed left [] e n = absurd (omega arith)
monitor_loop-left target elapsed left (cancelled ∷ turns) e n = refl
monitor_loop-left target elapsed zero (tick shares ∷ turns) e n =
    elim (Bool-cases (shares == target)) [
      | inl done ↦ rw (done) refl
      | inr other ↦ rw (other, leb-of_le 120 (elapsed + 1) (omega arith)) refl
    ]
monitor_loop-left target elapsed (suc left) (tick shares ∷ turns) e n =
    elim (Bool-cases (shares == target)) [
      | inl done ↦ rw (done) refl
      | inr other ↦
          rw (other, leb-of_gt 120 (elapsed + 1) (omega arith))
            (monitor_loop-left target (elapsed + 1) left turns (omega arith) (omega arith))
    ]

-- Whatever the turns are, if there are at least 120 of them, the loop is left within the first 120:
-- with the quorum formed or cancelled, if one of them completes the shares or cancels, whichever comes
-- first, and timed out if none does.
pub monitor_loop-verdict :
    (target : ℕ) (turns : List Turn)
    → dkg_resharing_wait_time ≤ length turns
    → monitor_loop target 0 turns ≡ some (verdict target (take dkg_resharing_wait_time turns))
monitor_loop-verdict target turns n = monitor_loop-left target 0 119 turns refl n

-- The number of resharings that are ordered.
unfoldable pub ordered : List Order → ℕ
ordered [] = 0
ordered (pre_resharing ∷ os) = ordered os + 1
ordered (o ∷ os) = ordered os

-- Resharings that time out one after the other, and the number of new ones ordered.
unfoldable pub fail_times : ℕ → Counters → Counters × ℕ
unfolding ordered
fail_times zero c = (c, 0)
fail_times (suc n) c =
    let (c', orders) = conclude resharing timed_out c in
    let (c'', more) = fail_times n c' in (c'', ordered orders + more)

-- No more is ordered after four failures.
fail_times-none : (n : ℕ) (c : Counters) → c.resharing_failure_count ≡ 4 → (fail_times n c).1 ≡ 0
unfolding fail_times conclude ordered
fail_times-none zero c h = refl
fail_times-none (suc n) c h =
    let e : leb c.resharing_failure_count max_resharing_attempts_at_a_time ≡ false =
      leb-of_gt _ _ (omega arith) in
    rw (resharing_failed, e)
      (omega (arith, fail_times-none n (record c { no_of_shares_received = 0 }) h))

-- When resharings fail one after the other, each failure orders another one as long as fewer than four
-- have been ordered: with `tries` orders left of four, `n` failures order `n` resharings if `n` is at
-- most `tries`, and `tries` otherwise.
pub fail_times-tries :
    (n tries : ℕ) (c : Counters)
    → c.resharing_failure_count + tries ≡ 4
    → (n ≤ tries → (fail_times n c).1 ≡ n) × (tries ≤ n → (fail_times n c).1 ≡ tries)
unfolding fail_times conclude ordered
fail_times-tries zero tries c h = (λ _. refl, λ le. omega arith)
fail_times-tries (suc n) zero c h =
    let nothing = fail_times-none (suc n) c (omega arith) in
    (λ le. absurd (omega arith), λ _. nothing)
fail_times-tries (suc n) (suc tries) c h =
    let e : leb c.resharing_failure_count max_resharing_attempts_at_a_time ≡ true =
      leb-of_le _ _ (omega arith) in
    let c' : Counters = record {
      no_of_shares_received = 0;
      resharing_failure_count = c.resharing_failure_count + 1;
    } in
    let (few, many) = fail_times-tries n tries c' (omega arith) in
    (
      λ le. rw (resharing_failed, e) (omega (arith, few (omega arith))),
      λ le. rw (resharing_failed, e) (omega (arith, many (omega arith))),
    )
