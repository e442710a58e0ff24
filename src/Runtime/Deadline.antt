-- ===== src/Runtime/Deadline.antt =====
-- apps/contextctl-daemon/src/runtime/deadline.ts: the time budget of a request. The clock and the
-- caller's signal are read as one moment; times are milliseconds.
pub mod Budget
pub mod Signals
pub mod Races
use contextctl.Common.{
  ℕ, ◌-◌, Bool, true, false, not, ◌||◌, Option, none, some, String, List, [], ◌∷◌, nat_eq, ltb, leb,
  ◌+◌, ◌&&◌, if◌then◌else◌, Result, ok, throw,
}
use contextctl.Runtime.Profile.{DaemonDeadlineProfile}

pub data DeadlineError : Type 0 where
  stage_exceeded : (stage : String) → DeadlineError
  request_exceeded : DeadlineError

pub record RequestBudget : Type 0 where
  pub profile : DaemonDeadlineProfile ℕ
  pub started_at : ℕ

-- What the budget reads: the clock, and whether the caller's signal is aborted. A request without a
-- caller's signal is never aborted.
pub record Moment : Type 0 where
  pub now : ℕ
  pub aborted : Bool

unfoldable pub open_budget : DaemonDeadlineProfile ℕ → Option ℕ → Moment → RequestBudget
open_budget profile none moment = record { profile = profile; started_at = moment.now }
open_budget profile (some started_at) moment = record { profile = profile; started_at = started_at }

-- `Math.max(0, a - b)` is the subtraction of the naturals.
unfoldable pub elapsed_ms : RequestBudget → Moment → ℕ
elapsed_ms budget moment = moment.now - budget.started_at

unfoldable pub remaining_ms : RequestBudget → Moment → ℕ
unfolding elapsed_ms
remaining_ms budget moment = budget.profile.total_ms - elapsed_ms budget moment

unfoldable pub workable_ms : RequestBudget → Moment → ℕ
unfolding remaining_ms
workable_ms budget moment = remaining_ms budget moment - budget.profile.assembly_reserve_ms

abbrev pub cancelled : Moment → Bool
cancelled moment = moment.aborted

abbrev pub least : ℕ → ℕ → ℕ
least a b = if ltb b a then b else a

unfoldable pub selection_ms : RequestBudget → Moment → ℕ
unfolding workable_ms
selection_ms budget moment = least budget.profile.selection_ms (workable_ms budget moment)

unfoldable pub managed_search_ms : RequestBudget → Moment → ℕ
unfolding workable_ms
managed_search_ms budget moment =
    least budget.profile.managed_search_ceiling_ms (workable_ms budget moment)

unfoldable pub assert_can_assemble : RequestBudget → Moment → Result DeadlineError (Unit {0})
unfolding remaining_ms
assert_can_assemble budget moment =
    if cancelled moment || nat_eq (remaining_ms budget moment) 0
    then throw request_exceeded
    else ok tt

unfoldable pub assert_workable :
    RequestBudget → (stage : String) → Moment → Result DeadlineError (Unit {0})
unfolding workable_ms
assert_workable budget stage moment =
    if cancelled moment
    then throw request_exceeded
    else if nat_eq (workable_ms budget moment) 0
    then throw (stage_exceeded stage)
    else ok tt

-- An abort controller with the timer and the caller's listener that abort it: the reason, once it is
-- aborted, when the timer is due, and whether the listener is attached.
pub record Signal : Type 0 where
  pub reason : Option DeadlineError
  pub timer : Option ℕ
  pub timer_reason : DeadlineError
  pub listening : Bool
  pub disposed : Bool

-- A second `abort` keeps the first reason.
abbrev abort_with : Signal → DeadlineError → Signal
abort_with signal e = elim (signal.reason) [
  | none ↦ record signal { reason = some e }
  | some _ ↦ signal
]

unfoldable pub aborted_signal : DeadlineError → Signal
aborted_signal e = record {
  reason = some e;
  timer = none;
  timer_reason = e;
  listening = false;
  disposed = false;
}

-- `has_caller` says whether the request has a caller's signal, `aborted_since` whether that is aborted
-- once the listener is attached.
unfoldable pub armed_signal : (due : ℕ) → DeadlineError → (has_caller aborted_since : Bool) → Signal
armed_signal due e has_caller aborted_since = record {
  reason = if has_caller && aborted_since then some request_exceeded else none;
  timer = some due;
  timer_reason = e;
  listening = has_caller && not aborted_since;
  disposed = false;
}

unfoldable pub total_signal : RequestBudget → Moment → (has_caller aborted_since : Bool) → Signal
unfolding aborted_signal armed_signal remaining_ms
total_signal budget moment has_caller aborted_since =
    let remaining = remaining_ms budget moment in
    if cancelled moment || nat_eq remaining 0
    then aborted_signal request_exceeded
    else armed_signal (moment.now + remaining) request_exceeded has_caller aborted_since

unfoldable pub stage_signal : (limit_ms : ℕ) → Moment → (has_caller aborted_since : Bool) → Signal
unfolding aborted_signal armed_signal
stage_signal limit_ms moment has_caller aborted_since =
    if nat_eq limit_ms 0
    then aborted_signal (stage_exceeded "managed_search")
    else armed_signal (moment.now + limit_ms) (stage_exceeded "managed_search") has_caller
        aborted_since

-- What reaches a signal: the clock at a time, which fires the timer once it is due, the caller's
-- abort, and `dispose`.
pub data SignalEvent : Type 0 where
  tick : (now : ℕ) → SignalEvent
  caller_aborts dispose : SignalEvent

unfoldable pub handle : Signal → SignalEvent → Signal
handle signal (tick now) = elim (signal.timer) [
  | none ↦ signal
  | some due ↦
      if leb due now
      then record (abort_with signal signal.timer_reason) { timer = none }
      else signal
]
handle signal caller_aborts =
    if signal.listening
    then record (abort_with signal request_exceeded) { listening = false }
    else signal
handle signal dispose =
    if signal.disposed
    then signal
    else record signal { timer = none; listening = false; disposed = true }

unfoldable pub handle_all : Signal → List SignalEvent → Signal
unfolding handle
handle_all signal [] = signal
handle_all signal (event ∷ events) = handle_all (handle signal event) events

-- The race of a stage: the work, with its value or its error, against the timer and the caller.
pub data RaceEvent (A : Type 0) (E : Type 0) : Type 0 where
  timer_fires caller_gives_up : RaceEvent A E
  work_resolves : A → RaceEvent A E
  work_rejects : E → RaceEvent A E

pub data RaceOutcome (A : Type 0) (E : Type 0) : Type 0 where
  resolved : A → RaceOutcome A E
  rejected : E → RaceOutcome A E
  abandoned : DeadlineError → RaceOutcome A E

-- The promise of the race, and what the `finally` takes down.
pub record Race (A : Type 0) (E : Type 0) : Type 0 where
  pub stage : String
  pub outcome : Option (RaceOutcome A E)
  pub timer_armed : Bool
  pub listening : Bool

module _ {A : Type 0} {E : Type 0} where
  -- The `finally` runs once the promise is settled.
  unfoldable pub settle : Race A E → RaceOutcome A E → Race A E
  settle race outcome = elim (race.outcome) [
    | none ↦ record race { outcome = some outcome; timer_armed = false; listening = false }
    | some _ ↦ race
  ]

  unfoldable pub race_stage :
      (stage : String) (limit_ms : ℕ) → Moment → (has_caller aborted_since : Bool) → Race A E
  unfolding settle
  race_stage stage limit_ms moment has_caller aborted_since =
      let unarmed : Race A E = record {
        stage = stage;
        outcome = none;
        timer_armed = false;
        listening = false;
      } in
      if cancelled moment
      then settle unarmed (abandoned request_exceeded)
      else if nat_eq limit_ms 0
      then settle unarmed (abandoned (stage_exceeded stage))
      else let armed = record unarmed { timer_armed = true; listening = has_caller } in
        if has_caller && aborted_since then settle armed (abandoned request_exceeded) else armed

  unfoldable pub race_step : Race A E → RaceEvent A E → Race A E
  unfolding settle
  race_step race timer_fires =
      if race.timer_armed then settle race (abandoned (stage_exceeded race.stage)) else race
  race_step race caller_gives_up =
      if race.listening then settle race (abandoned request_exceeded) else race
  race_step race (work_resolves value) = settle race (resolved value)
  race_step race (work_rejects cause) = settle race (rejected cause)

  unfoldable pub race_all : Race A E → List (RaceEvent A E) → Race A E
  unfolding race_step
  race_all race [] = race
  race_all race (event ∷ events) = race_all (race_step race event) events
