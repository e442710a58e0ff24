-- ===== src/Runtime/Lifecycle.antt =====
-- apps/contextctl-daemon/src/runtime/lifecycle.ts: the accept, drain and close boundary of the
-- process, as the events that reach it. What is registered is known by the order of registration; a
-- lane is that of Runtime/Lane.antt.
pub mod Draining
pub mod Phases
pub mod Waiting
pub mod Calls
pub mod Marks
pub mod Closing
pub mod EachOnce
use contextctl.Common.{
  ℕ, zero, suc, ◌+◌, ◌≡◌, Bool, true, false, not, List, [], ◌∷◌, ◌++◌, map, length, Option, none,
  some, String, leb, nat_eq, if◌then◌else◌,
}
use mathlib.Core.List.{reverse}
use contextctl.Runtime.Lane.{AdmissionLane, LaneEffect, LaneEvent, Turn, idle, stop_accepting}
use contextctl.Runtime.Lane

pub data DaemonLifecycleState : Type 0 where
  accepting draining closed : DaemonLifecycleState

pub record CloseFailure : Type 0 where
  pub resource : String
  pub reason : String

pub record RegisteredCloseable : Type 0 where
  pub key : ℕ
  pub name : String
  pub closed : Bool

-- Where the shared promise of `shutdown` stands: polling the lanes until a time, or waiting for one
-- closeable with the others that follow.
pub data ShutdownPhase : Type 0 where
  not_started : ShutdownPhase
  awaiting_lanes : (deadline : ℕ) → ShutdownPhase
  closing :
      (current : RegisteredCloseable)
      → (remaining : List RegisteredCloseable) → (failures : List CloseFailure) → ShutdownPhase
  finished : (failures : List CloseFailure) → ShutdownPhase

pub record DaemonLifecycle : Type 0 where
  pub drain_timeout_ms : ℕ
  pub lanes : List AdmissionLane
  pub closeables : List RegisteredCloseable
  pub drain_hooks : List ℕ
  pub state : DaemonLifecycleState
  pub phase : ShutdownPhase

-- What the lifecycle does to others: it calls a drain hook, whose failure is swallowed, settles what
-- waits in a lane, or calls a `close`.
pub data LifecycleEffect : Type 0 where
  hook_called : (hook : ℕ) → LifecycleEffect
  in_lane : LaneEffect → LifecycleEffect
  close_called : (key : ℕ) → LifecycleEffect

abbrev pub Change : Type 0
Change = DaemonLifecycle × List LifecycleEffect

unfoldable pub new_lifecycle : (drain_timeout_ms : ℕ) → List AdmissionLane → DaemonLifecycle
new_lifecycle drain_timeout_ms lanes = record {
  drain_timeout_ms = drain_timeout_ms;
  lanes = lanes;
  closeables = [];
  drain_hooks = [];
  state = accepting;
  phase = not_started;
}

unfoldable pub register_closeable : DaemonLifecycle → String → DaemonLifecycle
register_closeable l name = record l {
  closeables =
      l.closeables ++ record { key = length l.closeables; name = name; closed = false } ∷ [];
}

unfoldable pub register_drain_hook : DaemonLifecycle → ℕ → Change
register_drain_hook l hook = elim (l.state) [
  | accepting ↦ (record l { drain_hooks = l.drain_hooks ++ hook ∷ [] }, [])
  | _ ↦ (l, hook_called hook ∷ [])
]

unfoldable pub stop_lanes : List AdmissionLane → List AdmissionLane × List LifecycleEffect
stop_lanes [] = ([], [])
stop_lanes (lane ∷ lanes) =
    let (stopped, effects) = stop_lanes lanes in
    let turn : Turn = stop_accepting lane in (turn.0 ∷ stopped, map in_lane turn.1 ++ effects)

unfoldable pub begin_draining : DaemonLifecycle → Change
unfolding stop_lanes
begin_draining l = elim (l.state) [
  | accepting ↦
      let (lanes, effects) = stop_lanes l.lanes in
      (
        record l { state = draining; drain_hooks = []; lanes = lanes },
        map hook_called l.drain_hooks ++ effects,
      )
  | _ ↦ (l, [])
]

unfoldable pub all_idle : List AdmissionLane → Bool
all_idle [] = true
all_idle (lane ∷ lanes) = let rest = all_idle lanes in if idle lane then rest else false

-- The flag of the registered object, which the copies of the list share.
unfoldable pub is_closed : ℕ → List RegisteredCloseable → Bool
is_closed key [] = false
is_closed key (closeable ∷ closeables) =
    let rest = is_closed key closeables in
    if nat_eq closeable.key key then closeable.closed else rest

unfoldable pub mark_closed : ℕ → List RegisteredCloseable → List RegisteredCloseable
mark_closed key [] = []
mark_closed key (closeable ∷ closeables) =
    (if nat_eq closeable.key key then record closeable { closed = true } else closeable)
    ∷ mark_closed key closeables

-- The loop of `#closeAll` up to its next `await`, and what follows the loop.
unfoldable pub close_next :
    DaemonLifecycle → List RegisteredCloseable → (failures : List CloseFailure) → Change
unfolding is_closed mark_closed
close_next l [] failures = (record l { state = closed; phase = finished failures }, [])
close_next l (closeable ∷ closeables) failures =
    let skipped = close_next l closeables failures in
    if is_closed closeable.key l.closeables then skipped else (
      record l {
        closeables = mark_closed closeable.key l.closeables;
        phase = closing closeable closeables failures;
      },
      close_called closeable.key ∷ [],
    )

-- One round of `#awaitLanesIdle`, at a time of the clock.
unfoldable pub poll_in : ShutdownPhase → DaemonLifecycle → (now : ℕ) → Change
unfolding close_next all_idle
poll_in (awaiting_lanes deadline) l now =
    if all_idle l.lanes
    then close_next l (reverse l.closeables) []
    else if leb deadline now
    then close_next l (reverse l.closeables) []
    else (l, [])
poll_in _ l now = (l, [])

unfoldable pub poll : DaemonLifecycle → (now : ℕ) → Change
unfolding poll_in
poll l now = poll_in l.phase l now

-- Later calls of `shutdown` join the promise of the first one.
unfoldable pub shutdown_in : ShutdownPhase → DaemonLifecycle → (now : ℕ) → Change
unfolding begin_draining poll
shutdown_in not_started l now =
    let (drained, effects) = begin_draining l in
    let (polled, more) =
      poll (record drained { phase = awaiting_lanes (now + l.drain_timeout_ms) }) now in
    (polled, effects ++ more)
shutdown_in _ l now = (l, [])

unfoldable pub shutdown : DaemonLifecycle → (now : ℕ) → Change
unfolding shutdown_in
shutdown l now = shutdown_in l.phase l now

-- What a `close` rejects with: an Error, by its name, or something else.
pub data Cause : Type 0 where
  error : (name : String) → Cause
  no_error : Cause

abbrev pub failure_of : RegisteredCloseable → Option Cause → List CloseFailure
failure_of closeable none = []
failure_of closeable (some (error name)) = record { resource = closeable.name; reason = name } ∷ []
failure_of closeable (some no_error) =
    record { resource = closeable.name; reason = "unknown_error" } ∷ []

unfoldable pub close_settles_in : ShutdownPhase → DaemonLifecycle → Option Cause → Change
unfolding close_next
close_settles_in (closing current remaining failures) l cause =
    close_next l remaining (failures ++ failure_of current cause)
close_settles_in _ l cause = (l, [])

unfoldable pub close_settles : DaemonLifecycle → Option Cause → Change
unfolding close_settles_in
close_settles l cause = close_settles_in l.phase l cause

-- A turn of the event loop that reaches the n-th lane.
unfoldable pub lane_event :
    ℕ → LaneEvent → List AdmissionLane → List AdmissionLane × List LifecycleEffect
lane_event n event [] = ([], [])
lane_event zero event (lane ∷ lanes) =
    let turn : Turn = Lane.handle lane event in (turn.0 ∷ lanes, map in_lane turn.1)
lane_event (suc n) event (lane ∷ lanes) =
    let (rest, effects) = lane_event n event lanes in (lane ∷ rest, effects)

pub data LifecycleEvent : Type 0 where
  closeable_registered : (name : String) → LifecycleEvent
  hook_registered : (hook : ℕ) → LifecycleEvent
  draining_begun : LifecycleEvent
  shutdown_called : (now : ℕ) → LifecycleEvent
  polled : (now : ℕ) → LifecycleEvent
  close_settled : Option Cause → LifecycleEvent
  lane_turn : (n : ℕ) → LaneEvent → LifecycleEvent

unfoldable pub handle : DaemonLifecycle → LifecycleEvent → Change
unfolding register_closeable register_drain_hook begin_draining shutdown poll close_settles
    lane_event
handle l (closeable_registered name) = (register_closeable l name, [])
handle l (hook_registered hook) = register_drain_hook l hook
handle l draining_begun = begin_draining l
handle l (shutdown_called now) = shutdown l now
handle l (polled now) = poll l now
handle l (close_settled cause) = close_settles l cause
handle l (lane_turn n event) =
    let (lanes, effects) = lane_event n event l.lanes in (record l { lanes = lanes }, effects)

unfoldable pub handle_all : DaemonLifecycle → List LifecycleEvent → Change
unfolding handle
handle_all l [] = (l, [])
handle_all l (event ∷ events) =
    let (next, effects) = handle l event in
    let (last, more) = handle_all next events in (last, effects ++ more)
