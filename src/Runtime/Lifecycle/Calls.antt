-- ===== src/Runtime/Lifecycle/Calls.antt =====
-- lifecycle.ts: the calls of `close` among the effects of a step, and what is reported of them.
use contextctl.Common.{
  ℕ, zero, suc, ◌≤◌, ◌≡◌, refl, sym, Option, List, [], ◌∷◌, ◌++◌, map, length, arith, append_assoc,
  append-nil,
}
use contextctl.Runtime.Lane.{AdmissionLane, LaneEffect, LaneEvent, stop_accepting}
use contextctl.Runtime.Lane
use contextctl.Runtime.Lifecycle.{
  DaemonLifecycle, RegisteredCloseable, CloseFailure, Cause, failure_of, LifecycleEffect,
  hook_called, in_lane, close_called, LifecycleEvent, close_settled, begin_draining,
  register_drain_hook, lane_event, stop_lanes,
}

-- The `close` calls among the effects.
abbrev pub call_of : LifecycleEffect → List ℕ
call_of (close_called key) = key ∷ []
call_of _ = []

abbrev pub calls : List LifecycleEffect → List ℕ
calls [] = []
calls (effect ∷ effects) = call_of effect ++ calls effects

abbrev pub keys : List RegisteredCloseable → List ℕ
keys = map (λ c. c.key)

abbrev pub outcome_of : LifecycleEvent → List (Option Cause)
outcome_of (close_settled cause) = cause ∷ []
outcome_of _ = []

-- How the calls settle, in the order of the events.
abbrev pub outcomes : List LifecycleEvent → List (Option Cause)
outcomes [] = []
outcomes (event ∷ events) = outcome_of event ++ outcomes events

-- The failures that the closeables report, each with its own outcome.
abbrev pub reports : List RegisteredCloseable → List (Option Cause) → List CloseFailure
reports [] causes = []
reports (closeable ∷ closeables) [] = []
reports (closeable ∷ closeables) (cause ∷ causes) =
    failure_of closeable cause ++ reports closeables causes

pub calls-append : (xs ys : List LifecycleEffect) → calls (xs ++ ys) ≡ calls xs ++ calls ys
calls-append [] ys = refl
calls-append (x ∷ xs) ys =
    rw (calls-append xs ys) (sym (append_assoc (call_of x) (calls xs) (calls ys)))

pub reports-snoc :
    (done : List RegisteredCloseable) (settled : List (Option Cause)) (c : RegisteredCloseable)
    (cause : Option Cause)
    → length done ≡ length settled
    → reports (done ++ c ∷ []) (settled ++ cause ∷ []) ≡ reports done settled ++ failure_of c cause
reports-snoc [] [] c cause h = append-nil (failure_of c cause)
reports-snoc (d ∷ done) (s ∷ settled) c cause h =
    rw (reports-snoc done settled c cause (omega arith)) (sym (append_assoc (failure_of d s) _ _))
reports-snoc [] (s ∷ settled) c cause h = absurd (omega arith)
reports-snoc (d ∷ done) [] c cause h = absurd (omega arith)

pub reports_extra :
    (entries : List RegisteredCloseable) (settled more : List (Option Cause))
    → length entries ≤ length settled
    → reports entries (settled ++ more) ≡ reports entries settled
reports_extra [] settled more h = refl
reports_extra (c ∷ entries) [] more h = absurd (omega arith)
reports_extra (c ∷ entries) (s ∷ settled) more h =
    rw (reports_extra entries settled more (omega arith)) refl

pub silent_hooks : (hooks : List ℕ) → calls (map hook_called hooks) ≡ []
silent_hooks [] = refl
silent_hooks (hook ∷ hooks) = silent_hooks hooks

pub silent_lane : (effects : List LaneEffect) → calls (map in_lane effects) ≡ []
silent_lane [] = refl
silent_lane (effect ∷ effects) = silent_lane effects

pub silent_stop : (lanes : List AdmissionLane) → calls (stop_lanes lanes).1 ≡ []
unfolding stop_lanes
silent_stop [] = refl
silent_stop (lane ∷ lanes) =
    rw
      (
        calls-append (map in_lane (stop_accepting lane).1) (stop_lanes lanes).1,
        silent_lane (stop_accepting lane).1,
      )
      (silent_stop lanes)

pub silent_turn :
    (n : ℕ) (event : LaneEvent) (lanes : List AdmissionLane)
    → calls (lane_event n event lanes).1 ≡ []
unfolding lane_event
silent_turn n event [] = refl
silent_turn zero event (lane ∷ lanes) = silent_lane (Lane.handle lane event).1
silent_turn (suc n) event (lane ∷ lanes) = silent_turn n event lanes

pub silent_begin :
    (l : DaemonLifecycle)
    → (calls (begin_draining l).1 ≡ []) × ((begin_draining l).0.closeables ≡ l.closeables)
unfolding begin_draining
silent_begin l = ground (
  arith,
  calls-append (map hook_called l.drain_hooks) (stop_lanes l.lanes).1,
  silent_hooks l.drain_hooks,
  silent_stop l.lanes,
)

pub silent_hook :
    (l : DaemonLifecycle) (hook : ℕ)
    → (calls (register_drain_hook l hook).1 ≡ [])
      × ((register_drain_hook l hook).0.closeables ≡ l.closeables)
unfolding register_drain_hook
silent_hook l hook = ground arith
