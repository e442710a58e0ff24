-- ===== src/Runtime/Lifecycle/Draining.antt =====
-- lifecycle.ts: once draining has begun, no lane takes or starts a task.
use contextctl.Common.{
  ℕ, ◌+◌, Option, zero, suc, ◌≡◌, ◌≢◌, ◌⊎◌, inl, inr, refl, Bool, false, List, [], ◌∷◌, ◌++◌, map,
  All, All-append, arith,
}
use mathlib.Core.List.{reverse}
use contextctl.Runtime.Lane.{
  AdmissionLane, LaneEffect, LaneEvent, started, submit, abort, task_done, stop, stop_accepting,
  refuse_waiting,
}
use contextctl.Runtime.Lane
use contextctl.Runtime.Lifecycle.{
  DaemonLifecycle, Cause, failure_of, shutdown_in, close_settles_in, new_lifecycle, Change,
  LifecycleEffect, LifecycleEvent, hook_called, in_lane, accepting, RegisteredCloseable,
  CloseFailure, not_started, awaiting_lanes, closing, finished, ShutdownPhase, handle, handle_all,
  stop_lanes, lane_event, begin_draining, shutdown, poll, close_next, closeable_registered,
  hook_registered, draining_begun, shutdown_called, polled, close_settled, lane_turn,
}

abbrev pub IsShut : AdmissionLane → Type 0
IsShut lane = (lane.accepting ≡ false) × (lane.queue ≡ [])

abbrev IsNoStart : LaneEffect → Type 0
IsNoStart (started task) = ⊥
IsNoStart _ = Unit

-- An effect of the lifecycle that starts no task.
abbrev pub StartsNothing : LifecycleEffect → Type 0
StartsNothing (in_lane effect) = IsNoStart effect
StartsNothing _ = Unit

refusals_start_nothing : (queue : List Lane.QueuedEntry) → All IsNoStart (refuse_waiting queue)
unfolding refuse_waiting
refusals_start_nothing [] = tt
refusals_start_nothing (entry ∷ queue) = ground (arith, refusals_start_nothing queue)

submitted_IsShut :
    (lane : AdmissionLane) (task : ℕ) (aborted aborted_since : Bool)
    → lane.accepting ≡ false
    → lane.queue ≡ []
    → IsShut (Lane.run lane task aborted aborted_since).0
      × All IsNoStart (Lane.run lane task aborted aborted_since).1
unfolding Lane.run
submitted_IsShut lane task aborted aborted_since closed empty = ground arith

handle-IsShut :
    (lane : AdmissionLane) (event : LaneEvent)
    → IsShut lane
    → IsShut (Lane.handle lane event).0 × All IsNoStart (Lane.handle lane event).1
unfolding Lane.handle Lane.take_next
handle-IsShut lane (submit task aborted aborted_since) (closed, empty) =
    submitted_IsShut lane task aborted aborted_since closed empty
handle-IsShut lane (abort task) (closed, empty) = rw empty ((closed, refl), tt)
handle-IsShut lane task_done (closed, empty) = ground arith
handle-IsShut lane stop (closed, empty) = ((refl, refl), refusals_start_nothing lane.queue)

in_lane_all :
    (effects : List LaneEffect) → All IsNoStart effects → All StartsNothing (map in_lane effects)
in_lane_all [] h = tt
in_lane_all (effect ∷ effects) h = (h.0, in_lane_all effects h.1)

stop_lanes-IsShut :
    (lanes : List AdmissionLane)
    → All IsShut (stop_lanes lanes).0 × All StartsNothing (stop_lanes lanes).1
unfolding stop_lanes stop_accepting
stop_lanes-IsShut [] = (tt, tt)
stop_lanes-IsShut (lane ∷ lanes) =
    let rest = stop_lanes-IsShut lanes in
    (
      ((refl, refl), rest.0),
      All-append StartsNothing (map in_lane (refuse_waiting lane.queue)) _
          (in_lane_all _ (refusals_start_nothing lane.queue)) rest.1,
    )

lane_event-IsShut :
    (n : ℕ) (event : LaneEvent) (lanes : List AdmissionLane)
    → All IsShut lanes
    → All IsShut (lane_event n event lanes).0 × All StartsNothing (lane_event n event lanes).1
unfolding lane_event
lane_event-IsShut n event [] h = (tt, tt)
lane_event-IsShut zero event (lane ∷ lanes) h =
    let turn = handle-IsShut lane event h.0 in ((turn.0, h.1), in_lane_all _ turn.1)
lane_event-IsShut (suc n) event (lane ∷ lanes) h =
    let rest = lane_event-IsShut n event lanes h.1 in ((h.0, rest.0), rest.1)

-- Draining has begun: the state is past `accepting` and every lane is shut.
abbrev pub IsDrained : DaemonLifecycle → Type 0
IsDrained l = (l.state ≢ accepting) × All IsShut l.lanes

-- What a step after that leaves and does.
abbrev IsQuiet : Change → Type 0
IsQuiet change = IsDrained change.0 × All StartsNothing change.1

close_next-IsQuiet :
    (l : DaemonLifecycle) (closeables : List RegisteredCloseable) (failures : List CloseFailure)
    → All IsShut l.lanes
    → l.state ≢ accepting
    → IsQuiet (close_next l closeables failures)
unfolding close_next
close_next-IsQuiet l [] failures shut past = ((λ e. cc, shut), tt)
close_next-IsQuiet l (closeable ∷ closeables) failures shut past =
    ground (arith, close_next-IsQuiet l closeables failures shut past)

poll-IsQuiet : (l : DaemonLifecycle) (now : ℕ) → IsDrained l → IsQuiet (poll l now)
unfolding poll
poll-IsQuiet l now (past, shut) =
    ground (arith, close_next-IsQuiet l (reverse l.closeables) [] shut past)

-- Before draining begins no shutdown has started.
abbrev IsAccepting : DaemonLifecycle → Type 0
IsAccepting l = (l.state ≡ accepting) × (l.phase ≡ not_started)

hooks_start_nothing : (hooks : List ℕ) → All StartsNothing (map hook_called hooks)
hooks_start_nothing [] = tt
hooks_start_nothing (hook ∷ hooks) = (tt, hooks_start_nothing hooks)

begin_draining-IsQuiet :
    (l : DaemonLifecycle) → IsAccepting l ⊎ IsDrained l → IsQuiet (begin_draining l)
unfolding begin_draining
begin_draining-IsQuiet l (inl (at, _)) =
    let stopped = stop_lanes-IsShut l.lanes in
    rw at (
      ((λ e. cc), stopped.0),
      All-append StartsNothing (map hook_called l.drain_hooks) _ (hooks_start_nothing l.drain_hooks)
          stopped.1,
    )
begin_draining-IsQuiet l (inr (past, shut)) = ground arith

abbrev pub awaiting : DaemonLifecycle → ℕ → DaemonLifecycle
awaiting l now = record (begin_draining l).0 { phase = awaiting_lanes (now + l.drain_timeout_ms) }

shutdown-IsQuiet :
    (l : DaemonLifecycle) (now : ℕ) → IsAccepting l ⊎ IsDrained l → IsQuiet (shutdown l now)
unfolding shutdown
shutdown-IsQuiet l now kept = at l.phase refl
  where
    joined : l.phase ≢ not_started → IsQuiet (l, [])
    joined other = elim kept [
      | inl (_, none_yet) ↦ absurd (other none_yet)
      | inr drained ↦ (drained, tt)
    ]

    at : (phase : ShutdownPhase) → l.phase ≡ phase → IsQuiet (shutdown_in phase l now)
    at not_started e =
        let begun = begin_draining-IsQuiet l kept in
        let quiet = poll-IsQuiet (awaiting l now) now begun.0 in
        (quiet.0, All-append StartsNothing _ _ begun.1 quiet.1)
    at (awaiting_lanes deadline) e = joined (λ h. cc)
    at (closing current remaining failures) e = joined (λ h. cc)
    at (finished failures) e = joined (λ h. cc)

close_settles-IsQuiet :
    (phase : ShutdownPhase) (l : DaemonLifecycle) (cause : Option Cause)
    → IsDrained l
    → IsQuiet (close_settles_in phase l cause)
unfolding close_settles_in
close_settles-IsQuiet (closing current remaining failures) l cause (past, shut) =
    close_next-IsQuiet l remaining (failures ++ failure_of current cause) shut past
close_settles-IsQuiet not_started l cause drained = (drained, tt)
close_settles-IsQuiet (awaiting_lanes deadline) l cause drained = (drained, tt)
close_settles-IsQuiet (finished failures) l cause drained = (drained, tt)

handle-IsQuiet :
    (l : DaemonLifecycle) (event : LifecycleEvent) → IsDrained l → IsQuiet (handle l event)
unfolding handle
handle-IsQuiet l (closeable_registered name) drained = (drained, tt)
handle-IsQuiet l (hook_registered hook) (past, shut) = ground arith
handle-IsQuiet l draining_begun (past, shut) = ground arith
handle-IsQuiet l (shutdown_called now) (past, shut) = shutdown-IsQuiet l now (inr (past, shut))
handle-IsQuiet l (polled now) drained = poll-IsQuiet l now drained
handle-IsQuiet l (close_settled cause) drained = close_settles-IsQuiet l.phase l cause drained
handle-IsQuiet l (lane_turn n event) (past, shut) =
    let turn = lane_event-IsShut n event l.lanes shut in ((past, turn.0), turn.1)

handle_all-IsQuiet :
    (l : DaemonLifecycle) (events : List LifecycleEvent)
    → IsDrained l
    → IsQuiet (handle_all l events)
unfolding handle_all
handle_all-IsQuiet l [] drained = (drained, tt)
handle_all-IsQuiet l (event ∷ events) drained =
    let step = handle-IsQuiet l event drained in
    let rest = handle_all-IsQuiet (handle l event).0 events step.0 in
    (rest.0, All-append StartsNothing _ _ step.1 rest.1)

handle-kept :
    (l : DaemonLifecycle) (event : LifecycleEvent)
    → IsAccepting l ⊎ IsDrained l
    → IsAccepting (handle l event).0 ⊎ IsDrained (handle l event).0
unfolding handle
handle-kept l event (inr drained) = inr (handle-IsQuiet l event drained).0
handle-kept l (closeable_registered name) (inl fresh) = inl fresh
handle-kept l (hook_registered hook) (inl (at, fresh)) = inl (rw at (refl, fresh))
handle-kept l draining_begun kept = inr (begin_draining-IsQuiet l kept).0
handle-kept l (shutdown_called now) kept = inr (shutdown-IsQuiet l now kept).0
handle-kept l (polled now) (inl (at, fresh)) = inl (rw fresh (at, refl))
handle-kept l (close_settled cause) (inl (at, fresh)) = inl (rw fresh (at, refl))
handle-kept l (lane_turn n event) (inl fresh) = inl fresh

handle_all-kept :
    (l : DaemonLifecycle) (events : List LifecycleEvent)
    → IsAccepting l ⊎ IsDrained l
    → IsAccepting (handle_all l events).0 ⊎ IsDrained (handle_all l events).0
unfolding handle_all
handle_all-kept l [] kept = kept
handle_all-kept l (event ∷ events) kept =
    handle_all-kept (handle l event).0 events (handle-kept l event kept)

triggered :
    (l : DaemonLifecycle) (trigger : LifecycleEvent)
    → IsAccepting l ⊎ IsDrained l
    → (trigger ≡ draining_begun) ⊎ ((now : ℕ) × (trigger ≡ shutdown_called now))
    → IsDrained (handle l trigger).0
unfolding handle
triggered l trigger kept (inl e) = rw e (begin_draining-IsQuiet l kept).0
triggered l trigger kept (inr (now, e)) = rw e (shutdown-IsQuiet l now kept).0

-- Whatever happened since the process started: once draining has begun, or a shutdown was called, no
-- later event makes the process accept again, admits a task into a lane's queue or starts one.
pub draining-IsQuiet :
    (drain_timeout_ms : ℕ) (lanes : List AdmissionLane) (before after : List LifecycleEvent)
    (trigger : LifecycleEvent)
    → (trigger ≡ draining_begun) ⊎ ((now : ℕ) × (trigger ≡ shutdown_called now))
    → let stopped = handle (handle_all (new_lifecycle drain_timeout_ms lanes) before).0 trigger in
      let later = handle_all stopped.0 after in
      (later.0.state ≢ accepting) × All IsShut later.0.lanes × All StartsNothing later.1
unfolding new_lifecycle
draining-IsQuiet drain_timeout_ms lanes before after trigger which =
    let fresh = handle_all-kept (new_lifecycle drain_timeout_ms lanes) before (inl (refl, refl)) in
    let (drained, quiet) = handle_all-IsQuiet _ after (triggered _ trigger fresh which) in
    (drained.0, drained.1, quiet)
