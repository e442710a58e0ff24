-- ===== src/Runtime/Lifecycle/Closing.antt =====
-- lifecycle.ts: a closing under way, and that every event keeps its record right.
use contextctl.Common.{
  ℕ, ◌≤◌, ◌<◌, ◌≡◌, refl, sym, ap, subst, ◌∙◌, false, Option, List, [], ◌∷◌, ◌++◌, length,
  length-append, All, arith, append_assoc, append-nil, String,
}
use mathlib.Core.List.{map-append}
use contextctl.Runtime.Lifecycle.{
  DaemonLifecycle, Change, ShutdownPhase, RegisteredCloseable, CloseFailure, Cause, failure_of,
  not_started, awaiting_lanes, closing, finished, LifecycleEvent, closeable_registered,
  hook_registered, draining_begun, shutdown_called, polled, close_settled, lane_turn,
  begin_draining, register_drain_hook, handle, handle_all, shutdown_in, poll_in, close_next,
  close_settles_in,
}
use contextctl.Runtime.Lifecycle.Phases.{HasBegun, begin_draining-phase, register_drain_hook-phase}
use contextctl.Runtime.Lifecycle.Calls.{
  calls, keys, outcome_of, outcomes, reports, calls-append, reports-snoc, reports_extra,
  silent_turn, silent_begin, silent_hook,
}
use contextctl.Runtime.Lifecycle.Marks.{IsOpen, IsOpen-mark, IsOpen-append}

abbrev pub Descending : List RegisteredCloseable → Type 0
Descending [] = Unit
Descending (c ∷ rest) = All (λ r. r.key < c.key) rest × Descending rest

-- What a closing of `entries` has done: the calls that were made, how they settled, and that those
-- still to be made are of open closeables.
abbrev pub Stands :
    (entries : List RegisteredCloseable) (called : List ℕ) (settled : List (Option Cause))
    (closeables : List RegisteredCloseable)
    → ShutdownPhase
    → Type 0
Stands entries called settled closeables (closing current remaining failures) =
    (done : List RegisteredCloseable) × (entries ≡ done ++ current ∷ remaining)
    × (called ≡ keys done ++ current.key ∷ [])
    × (length done ≡ length settled)
    × (failures ≡ reports done settled)
    × Descending remaining
    × All (IsOpen closeables) remaining
Stands entries called settled closeables (finished failures) =
    (called ≡ keys entries)
    × (length entries ≤ length settled)
    × (failures ≡ reports entries settled)
Stands entries called settled closeables _ = ⊥

-- The next call, when `done` were closed before.
pub close_next-Stands :
    (l : DaemonLifecycle) (entries done rest : List RegisteredCloseable)
    (settled : List (Option Cause))
    → entries ≡ done ++ rest
    → length done ≡ length settled
    → Descending rest
    → All (IsOpen l.closeables) rest
    → let change = close_next l rest (reports done settled) in
      Stands entries (keys done ++ calls change.1) settled change.0.closeables change.0.phase
unfolding close_next
close_next-Stands l entries done [] settled e n below opened =
    let same : entries ≡ done = e ∙ append-nil done in
    rw same (append-nil (keys done), omega (arith, n), refl)
close_next-Stands l entries done (c ∷ rest) settled e n below opened =
    rw opened.0
      (done, e, refl, n, refl, below.1, IsOpen-mark l.closeables rest c.key below.0 opened.1)

abbrev pub StandsAfter :
    (l : DaemonLifecycle) (entries : List RegisteredCloseable) (called : List ℕ)
    (rest : List RegisteredCloseable) (settled : List (Option Cause)) (failures : List CloseFailure)
    → Type 0
StandsAfter l entries called rest settled failures =
    let change = close_next l rest failures in
    Stands entries (called ++ calls change.1) settled change.0.closeables change.0.phase

pub close_settles-Stands :
    (phase : ShutdownPhase) (l : DaemonLifecycle) (entries : List RegisteredCloseable)
    (called : List ℕ) (settled : List (Option Cause)) (cause : Option Cause)
    → l.phase ≡ phase
    → Stands entries called settled l.closeables phase
    → let change = close_settles_in phase l cause in
      Stands entries
        (called ++ calls change.1)
        (settled ++ cause ∷ [])
        change.0.closeables
        change.0.phase
unfolding close_settles_in
close_settles-Stands (closing c rest failures) l entries called settled cause at
      (done, e, k, n, f, below, opened) =
    let next =
      close_next-Stands l entries (done ++ c ∷ []) rest (settled ++ cause ∷ [])
        (e ∙ sym (append_assoc done (c ∷ []) rest))
        (omega (arith, n, length-append done (c ∷ []), length-append settled (cause ∷ []))) below
        opened in
    let called_so_far : keys (done ++ c ∷ []) ≡ called = map-append _ done (c ∷ []) ∙ sym k in
    let failed_so_far : reports (done ++ c ∷ []) (settled ++ cause ∷ [])
        ≡ failures ++ failure_of c cause =
      reports-snoc done settled c cause n ∙ ap (λ fs. fs ++ failure_of c cause) (sym f) in
    subst (λ fs. StandsAfter l entries called rest (settled ++ cause ∷ []) fs) failed_so_far
      (subst
        (λ ks.
          StandsAfter l entries ks rest (settled ++ cause ∷ [])
            (reports (done ++ c ∷ []) (settled ++ cause ∷ [])))
        called_so_far next)
close_settles-Stands (finished failures) l entries called settled cause at (k, n, f) = rw at (
  append-nil called ∙ k,
  omega (arith, n, length-append settled (cause ∷ [])),
  f ∙ sym (reports_extra entries settled (cause ∷ []) n),
)
close_settles-Stands not_started l entries called settled cause at h = absurd h
close_settles-Stands (awaiting_lanes deadline) l entries called settled cause at h = absurd h

-- A step that settles nothing, calls nothing and leaves the closeables and the phase.
pub unchanged :
    (l : DaemonLifecycle) (change : Change) (entries : List RegisteredCloseable) (called : List ℕ)
    (settled : List (Option Cause))
    → (change.0.closeables ≡ l.closeables) × (change.0.phase ≡ l.phase) × (calls change.1 ≡ [])
    → Stands entries called settled l.closeables l.phase
    → Stands entries (called ++ calls change.1) (settled ++ []) change.0.closeables change.0.phase
unchanged l change entries called settled (cs, phase, silent) h =
    rw (cs, phase, silent, append-nil called, append-nil settled) h

pub registered-Stands :
    (phase : ShutdownPhase) (l : DaemonLifecycle) (name : String)
    (entries : List RegisteredCloseable) (called : List ℕ) (settled : List (Option Cause))
    → Stands entries called settled l.closeables phase
    → Stands entries called settled
        (l.closeables ++ record { key = length l.closeables; name = name; closed = false } ∷ [])
        phase
registered-Stands (closing c rest failures) l name entries called settled
      (done, e, k, n, f, below, opened) =
    (done, e, k, n, f, below, IsOpen-append l.closeables rest _ name opened)
registered-Stands (finished failures) l name entries called settled h = h
registered-Stands not_started l name entries called settled h = h
registered-Stands (awaiting_lanes deadline) l name entries called settled h = h

pub Stands-HasBegun :
    (entries : List RegisteredCloseable) (called : List ℕ) (settled : List (Option Cause))
    (closeables : List RegisteredCloseable) (phase : ShutdownPhase)
    → Stands entries called settled closeables phase
    → HasBegun phase
Stands-HasBegun entries called settled closeables (closing c rest failures) h = tt
Stands-HasBegun entries called settled closeables (finished failures) h = tt
Stands-HasBegun entries called settled closeables not_started h = h
Stands-HasBegun entries called settled closeables (awaiting_lanes deadline) h = h

pub poll-unchanged :
    (phase : ShutdownPhase) (l : DaemonLifecycle) (now : ℕ)
    → HasBegun phase
    → poll_in phase l now ≡ (l, [])
unfolding poll_in
poll-unchanged (closing c rest failures) l now h = refl
poll-unchanged (finished failures) l now h = refl
poll-unchanged not_started l now h = absurd h
poll-unchanged (awaiting_lanes deadline) l now h = absurd h

pub shutdown-unchanged :
    (phase : ShutdownPhase) (l : DaemonLifecycle) (now : ℕ)
    → HasBegun phase
    → shutdown_in phase l now ≡ (l, [])
unfolding shutdown_in
shutdown-unchanged (closing c rest failures) l now h = refl
shutdown-unchanged (finished failures) l now h = refl
shutdown-unchanged not_started l now h = absurd h
shutdown-unchanged (awaiting_lanes deadline) l now h = absurd h

pub handle-Stands :
    (l : DaemonLifecycle) (event : LifecycleEvent) (entries : List RegisteredCloseable)
    (called : List ℕ) (settled : List (Option Cause))
    → Stands entries called settled l.closeables l.phase
    → let change = handle l event in
      Stands entries
        (called ++ calls change.1)
        (settled ++ outcome_of event)
        change.0.closeables
        change.0.phase
unfolding handle
handle-Stands l (closeable_registered name) entries called settled h =
    rw (append-nil called, append-nil settled)
      (registered-Stands l.phase l name entries called settled h)
handle-Stands l (hook_registered hook) entries called settled h =
    let silent = silent_hook l hook in
    unchanged l (register_drain_hook l hook) entries called settled
      (silent.1, register_drain_hook-phase l hook, silent.0) h
handle-Stands l draining_begun entries called settled h =
    let silent = silent_begin l in
    unchanged l (begin_draining l) entries called settled
      (silent.1, begin_draining-phase l, silent.0) h
handle-Stands l (shutdown_called now) entries called settled h =
    rw
      (shutdown-unchanged l.phase l now
        (Stands-HasBegun entries called settled l.closeables l.phase h))
      (unchanged l (l, []) entries called settled (refl, refl, refl) h)
handle-Stands l (polled now) entries called settled h =
    rw
      (poll-unchanged l.phase l now (Stands-HasBegun entries called settled l.closeables l.phase h))
      (unchanged l (l, []) entries called settled (refl, refl, refl) h)
handle-Stands l (close_settled cause) entries called settled h =
    close_settles-Stands l.phase l entries called settled cause refl h
handle-Stands l (lane_turn n event) entries called settled h =
    unchanged l (handle l (lane_turn n event)) entries called settled
      (refl, refl, silent_turn n event l.lanes) h

pub handle_all-Stands :
    (events : List LifecycleEvent) (l : DaemonLifecycle) (entries : List RegisteredCloseable)
    (called : List ℕ) (settled : List (Option Cause))
    → Stands entries called settled l.closeables l.phase
    → let change = handle_all l events in
      Stands entries
        (called ++ calls change.1)
        (settled ++ outcomes events)
        change.0.closeables
        change.0.phase
unfolding handle_all
handle_all-Stands [] l entries called settled h = rw (append-nil called, append-nil settled) h
handle_all-Stands (event ∷ events) l entries called settled h =
    let step = handle-Stands l event entries called settled h in
    let rest = handle_all-Stands events (handle l event).0 entries _ _ step in
    rw (calls-append (handle l event).1 (handle_all (handle l event).0 events).1) (
      rw⁻¹
        (
          append_assoc called (calls (handle l event).1)
              (calls (handle_all (handle l event).0 events).1),
          append_assoc settled (outcome_of event) (outcomes events),
        )
        rest)
