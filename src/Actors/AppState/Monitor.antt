-- ===== src/Actors/AppState/Monitor.antt =====
-- `monitor_quorum_formation` of network/crates/actors/src/app_state_actor.rs: the relay looks every
-- second at the number of shares it has received, until they are complete, the time is over or the
-- monitoring is cancelled.
pub mod Ends
use human_network.Prelude.{
  ℕ, suc, ◌+◌, Bool, true, false, List, [], ◌∷◌, Option, none, some, ltb, leb, ◌==◌, if◌then◌else◌,
}

-- `MonitorEvent`, with the identifier of a request.
pub data MonitorEvent : Type 0 where
  dkg resharing : MonitorEvent
  multiplication_result : ℕ → MonitorEvent

-- What the loop sees at a turn: a tick, with the shares received by then, or the cancellation.
pub data Turn : Type 0 where
  tick : ℕ → Turn
  cancelled : Turn

-- The messages that the monitor sends; the last one is sent after `RESHARING_REATTEMPT_WAIT_TIME`.
pub data Order : Type 0 where
  save_current_state gossip_save_current_state : Order
  first_election rollback_to_previous_state gossip_rollback_to_previous_state pre_resharing : Order
  resharing_status : Bool → Order

abbrev pub dkg_resharing_wait_time : ℕ
dkg_resharing_wait_time = 120

abbrev pub max_resharing_attempts_at_a_time : ℕ
max_resharing_attempts_at_a_time = 3

-- The counters that the monitor shares with the relay.
pub record Counters : Type 0 where
  pub no_of_shares_received : ℕ
  pub resharing_failure_count : ℕ

-- How the loop is left.
pub data Ending : Type 0 where
  quorum_formed timed_out stopped : Ending

-- The loop over the turns; `none` while it still runs after the last of them.
unfoldable pub monitor_loop : ℕ → ℕ → List Turn → Option Ending
monitor_loop no_of_shares_to_monitor time_elapsed [] = none
monitor_loop no_of_shares_to_monitor time_elapsed (cancelled ∷ turns) = some stopped
monitor_loop no_of_shares_to_monitor time_elapsed (tick current_shares ∷ turns) =
    let rest = monitor_loop no_of_shares_to_monitor (time_elapsed + 1) turns in
    if current_shares == no_of_shares_to_monitor
    then some quorum_formed
    else if leb dkg_resharing_wait_time (time_elapsed + 1)
    then some timed_out
    else rest

-- The branch of the time's end for a resharing: while the failures are not too many, another one is
-- scheduled.
unfoldable pub resharing_failed : Counters → Counters × List Order
resharing_failed c =
    if leb c.resharing_failure_count max_resharing_attempts_at_a_time
    then (
      record { no_of_shares_received = 0; resharing_failure_count = c.resharing_failure_count + 1 },
      rollback_to_previous_state
          ∷ gossip_rollback_to_previous_state
          ∷ pre_resharing
          ∷ resharing_status false
          ∷ [],
    )
    else (
      record c { no_of_shares_received = 0 },
      rollback_to_previous_state ∷ gossip_rollback_to_previous_state ∷ resharing_status false ∷ [],
    )

-- What the monitor does when its loop is left; the loop runs for the first two events only.
unfoldable pub conclude : MonitorEvent → Ending → Counters → Counters × List Order
unfolding resharing_failed
conclude event quorum_formed c =
    (c, save_current_state ∷ gossip_save_current_state ∷ resharing_status true ∷ [])
conclude event stopped c = (c, [])
conclude dkg timed_out c = (record c { no_of_shares_received = 0 }, first_election ∷ [])
conclude resharing timed_out c = resharing_failed c
conclude (multiplication_result id) timed_out c = (c, [])
