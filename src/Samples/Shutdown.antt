-- ===== src/Samples/Shutdown.antt =====
-- A profile, the budget of a request under it, and a process that is shut down.
use contextctl.Common.{
  ℕ, ◌+◌, ◌≤◌, ◌<◌, ◌≡◌, ◌≢◌, ◌↔◌, inr, refl, sym, String, true, false, none, some, List, [], ◌∷◌,
  ◌++◌, ok, throw, arith, All,
}
use contextctl.Runtime.Lane.{AdmissionLane, new_lane, submit, task_done}
use contextctl.Runtime.Lane
use contextctl.Runtime.Profile.{
  Number, whole, unusable, DaemonDeadlineProfile, DaemonRuntimeProfile, DaemonRuntimeProfileError,
  DaemonRuntimeProfileOverrides, daemon_runtime_profile_v1, capacity, queue_depth_invalid,
  assert_daemon_runtime_profile, define_daemon_runtime_profile,
}
use contextctl.Runtime.Profile
use contextctl.Runtime.Profile.Rules.{
  Fits, IsSoundProfile, IsAdjusted, assert-IsSoundProfile, define-IsSoundProfile,
}
use contextctl.Runtime.Profile.Reports.{assert-reports, Breaks}
use contextctl.Runtime.Deadline.{
  RequestBudget, Moment, RaceEvent, Race, abandoned, stage_exceeded, timer_fires, work_resolves,
  open_budget, total_signal, stage_signal, handle_all, tick, dispose, caller_aborts, race_stage,
  race_all,
}
use contextctl.Runtime.Deadline
use contextctl.Runtime.Deadline.Budget.{stage-can_assemble, request-can_assemble}
use contextctl.Runtime.Deadline.Signals.{total_signal-CanAssemble, IsLive}
use contextctl.Runtime.Deadline.Races.{race-first, dispose-keeps_reason}
use contextctl.Runtime.Lifecycle.{
  DaemonLifecycle, LifecycleEvent, closeable_registered, hook_registered, draining_begun,
  shutdown_called, polled, close_settled, lane_turn, new_lifecycle, error, CloseFailure, finished,
}
use contextctl.Runtime.Lifecycle
use contextctl.Runtime.Lifecycle.Draining.{draining-IsQuiet, IsShut, StartsNothing}
use contextctl.Runtime.Lifecycle.Waiting.{shutdown-finishes}
use contextctl.Runtime.Lifecycle.Calls.{calls, keys, reports, outcomes}
use mathlib.Core.List.{reverse}
use contextctl.Runtime.Lifecycle.Phases.{unsettled, settled_count, HasBegun}
use contextctl.Runtime.Lifecycle.EachOnce.{closes-each_once}

-- A `trim` that leaves a version as it is.
abbrev as_written : String → String
as_written version = version

abbrev overrides : DaemonRuntimeProfileOverrides
overrides = record {
  version = "benchmark-7";
  resolve = some (capacity 4 16);
  registry_consume = none;
  selection_assets = none;
  ingestion = none;
  ingestion_embedding = none;
  total_ms = some (whole 5000);
  selection_ms = none;
  assembly_reserve_ms = none;
  managed_search_ceiling_ms = none;
}

v1_accepted : assert_daemon_runtime_profile as_written daemon_runtime_profile_v1 ≡ ok tt
unfolding assert_daemon_runtime_profile Profile.assert_lanes Profile.assert_durations
    Profile.assert_stages
v1_accepted = refl

assert-IsSoundProfile_example : IsSoundProfile as_written daemon_runtime_profile_v1
assert-IsSoundProfile_example =
    (assert-IsSoundProfile as_written daemon_runtime_profile_v1).0 v1_accepted

made_ok : define_daemon_runtime_profile as_written overrides ≡ ok (Profile.overridden overrides)
unfolding define_daemon_runtime_profile assert_daemon_runtime_profile Profile.assert_lanes
    Profile.assert_durations Profile.assert_stages Profile.overridden
made_ok = refl

define-IsSoundProfile_example :
    IsSoundProfile as_written (Profile.overridden overrides)
    × IsAdjusted overrides (Profile.overridden overrides)
define-IsSoundProfile_example =
    (define-IsSoundProfile as_written overrides (Profile.overridden overrides)).0 made_ok

abbrev negative_depth : DaemonRuntimeProfile Number
negative_depth = record daemon_runtime_profile_v1 {
  lanes = record daemon_runtime_profile_v1.lanes {
    ingestion = record { concurrency = whole 1; queue_depth = unusable };
  };
}

abbrev depth_refused : DaemonRuntimeProfileError
depth_refused = record { problem = queue_depth_invalid; field = "lanes.ingestion.queueDepth" }

refused : assert_daemon_runtime_profile as_written negative_depth ≡ throw depth_refused
unfolding assert_daemon_runtime_profile Profile.assert_lanes
refused = refl

assert-reports_example :
    Breaks as_written negative_depth queue_depth_invalid "lanes.ingestion.queueDepth"
assert-reports_example = assert-reports as_written negative_depth depth_refused refused

abbrev deadlines : DaemonDeadlineProfile ℕ
deadlines = record {
  total_ms = 3000;
  selection_ms = 750;
  assembly_reserve_ms = 500;
  managed_search_ceiling_ms = 1750;
}

deadlines_fit : Fits deadlines
deadlines_fit = omega arith

abbrev at : ℕ → Moment
at now = record { now = now; aborted = false }

abbrev request : RequestBudget
request = record { profile = deadlines; started_at = 100 }

-- A request that waited for a second in the queue: 1500 ms are workable.
stage_ready : Deadline.assert_workable request "managed_search" (at 1100) ≡ ok tt
unfolding Deadline.assert_workable
stage_ready = refl

search_allowance : Deadline.managed_search_ms request (at 1100) ≡ 1500
unfolding Deadline.managed_search_ms
search_allowance = refl

stage-can_assemble_example :
    (0 < 1500)
    × (500 ≤ Deadline.remaining_ms request (at 2600))
    × (Deadline.assert_can_assemble request (at 2600) ≡ ok tt)
stage-can_assemble_example =
    stage-can_assemble request "managed_search" (at 1100) (at 2600) 1500 (omega arith) (omega arith)
      (omega arith) (omega arith) stage_ready (inr (sym search_allowance)) (omega arith) refl

abbrev fresh_request : RequestBudget
fresh_request = open_budget deadlines none (at 100)

selection_kept : 850 ≤ 100 + Deadline.selection_ms fresh_request (at 100)
unfolding open_budget Deadline.selection_ms
selection_kept = omega arith

search_kept : 2600 ≤ 850 + Deadline.managed_search_ms fresh_request (at 850)
unfolding open_budget Deadline.managed_search_ms
search_kept = omega arith

request-can_assemble_example :
    (0 < Deadline.managed_search_ms fresh_request (at 850))
    × (500 ≤ Deadline.remaining_ms fresh_request (at 2600))
    × (Deadline.assert_can_assemble fresh_request (at 2600) ≡ ok tt)
request-can_assemble_example =
    request-can_assemble deadlines deadlines_fit (at 100) (at 850) (at 2600) refl selection_kept
      search_kept (omega arith)

-- The caller gives up at some time between 2000 and 2500.
abbrev signal_events : List Deadline.SignalEvent
signal_events = tick 2000 ∷ caller_aborts ∷ tick 2500 ∷ []

total_signal-CanAssemble_example :
    IsLive (total_signal request (at 200) true false) signal_events 3000
    ↔ (Deadline.assert_can_assemble request (record { now = 3000; aborted = true }) ≡ ok tt)
total_signal-CanAssemble_example =
    total_signal-CanAssemble request 200 3000 (omega arith) (omega arith) signal_events
      (omega arith, (tt, (omega arith, tt))) true false false

abbrev late_race : Race ℕ String
late_race = record {
  stage = "selection";
  outcome = some (abandoned (stage_exceeded "selection"));
  timer_armed = false;
  listening = false;
}

race-first_example :
    race_all (race_stage "selection" 750 (at 100) true false) (timer_fires ∷ work_resolves 7 ∷ [])
    ≡ late_race
race-first_example =
    race-first "selection" 750 (at 100) true timer_fires (work_resolves 7 ∷ []) (omega arith) refl
      tt

abbrev search_signal : Deadline.Signal
search_signal = stage_signal 1500 (at 1100) true false

search_signal_fresh : search_signal.disposed ≡ false
unfolding stage_signal
search_signal_fresh = refl

dispose-keeps_reason_example :
    (handle_all
      (Deadline.handle (handle_all search_signal (tick 2000 ∷ [])) dispose)
      (tick 9000 ∷ caller_aborts ∷ [])).reason
    ≡ (handle_all search_signal (tick 2000 ∷ [])).reason
dispose-keeps_reason_example =
    dispose-keeps_reason search_signal (tick 2000 ∷ []) (tick 9000 ∷ caller_aborts ∷ [])
      search_signal_fresh

-- One busy lane; a database and a server; the task outlives the drain timeout of 25 ms.
abbrev lanes : List AdmissionLane
lanes = new_lane 1 2 ∷ []

abbrev before : List LifecycleEvent
before =
    closeable_registered "database"
    ∷ closeable_registered "server"
    ∷ hook_registered 4
    ∷ lane_turn 0 (submit 1 false false)
    ∷ lane_turn 0 (submit 2 false false)
    ∷ []

abbrev running : DaemonLifecycle
running = (Lifecycle.handle_all (new_lifecycle 25 lanes) before).0

abbrev after : List LifecycleEvent
after =
    polled 110 ∷ lane_turn 0 (submit 3 false false) ∷ closeable_registered "late" ∷ polled 120 ∷ []

-- After 30 ms.
abbrev last_poll : LifecycleEvent
last_poll = polled 130

abbrev closings : List LifecycleEvent
closings =
    close_settled (some (error "TypeError"))
    ∷ shutdown_called 135
    ∷ close_settled none
    ∷ close_settled none
    ∷ []

draining-IsQuiet_example :
    let later = Lifecycle.handle_all (Lifecycle.handle running (shutdown_called 100)).0 after in
    (later.0.state ≢ Lifecycle.accepting) × All IsShut later.0.lanes × All StartsNothing later.1
draining-IsQuiet_example =
    draining-IsQuiet 25 lanes before after (shutdown_called 100) (inr (100, refl))

not_yet_started : running.phase ≡ Lifecycle.not_started
unfolding Lifecycle.handle_all new_lifecycle Lane.handle new_lane Lane.run
not_yet_started = refl

abbrev waited : DaemonLifecycle
waited = (Lifecycle.handle_all (Lifecycle.shutdown running 100).0 (after ++ last_poll ∷ [])).0

timeout_short : running.drain_timeout_ms ≤ 30
unfolding Lifecycle.handle_all new_lifecycle Lane.handle new_lane Lane.run
timeout_short = omega arith

enough_settle : unsettled waited.phase ≤ settled_count closings
unfolding Lifecycle.handle_all new_lifecycle Lane.handle new_lane Lane.run Lifecycle.shutdown
    Lane.stop_accepting Lane.idle
enough_settle = omega arith

shutdown-finishes_example :
    (failures : List CloseFailure) × ((Lifecycle.handle_all waited closings).0.phase
      ≡ finished failures)
shutdown-finishes_example =
    shutdown-finishes running 100 not_yet_started (after ++ last_poll ∷ []) closings (omega arith)
      timeout_short enough_settle

abbrev waiting_history : List LifecycleEvent
waiting_history = before ++ (shutdown_called 100 ∷ after)

abbrev still_waiting : DaemonLifecycle
still_waiting = (Lifecycle.handle_all (new_lifecycle 25 lanes) waiting_history).0

abbrev one_failure : List CloseFailure
one_failure = record { resource = "late"; reason = "TypeError" } ∷ []

waits : ¬ HasBegun still_waiting.phase
unfolding Lifecycle.handle_all new_lifecycle Lane.handle new_lane Lane.run Lifecycle.shutdown
    Lane.stop_accepting Lane.idle
waits = λ h. h

begins : HasBegun (Lifecycle.handle still_waiting last_poll).0.phase
unfolding Lifecycle.handle_all new_lifecycle Lane.handle new_lane Lane.run Lifecycle.shutdown
    Lane.stop_accepting Lane.idle
begins = tt

ends :
    (Lifecycle.handle_all (Lifecycle.handle still_waiting last_poll).0 closings).0.phase
    ≡ finished one_failure
unfolding Lifecycle.handle_all new_lifecycle Lane.handle new_lane Lane.run Lifecycle.shutdown
    Lane.stop_accepting Lane.idle
ends = refl

closes-each_once_example :
    let begun = Lifecycle.handle still_waiting last_poll in
    let ended = Lifecycle.handle_all begun.0 closings in
    (calls (Lifecycle.handle_all (new_lifecycle 25 lanes) waiting_history).1 ≡ [])
    × (calls (begun.1 ++ ended.1) ≡ keys (reverse still_waiting.closeables))
    × (one_failure ≡ reports (reverse still_waiting.closeables) (outcomes closings))
closes-each_once_example =
    closes-each_once 25 lanes waiting_history closings last_poll one_failure waits begins ends
