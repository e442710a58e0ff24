-- ===== src/Runtime/Lifecycle/Phases.antt =====
-- lifecycle.ts: how far a shutdown is, and that no event takes it back.
use contextctl.Common.{ℕ, suc, ◌+◌, ◌≤◌, ◌≡◌, refl, Option, List, [], ◌∷◌, length, arith, subst}
use contextctl.Runtime.Lifecycle.{
  DaemonLifecycle, ShutdownPhase, RegisteredCloseable, CloseFailure, Cause, not_started,
  awaiting_lanes, closing, finished, LifecycleEvent, closeable_registered, hook_registered,
  draining_begun, shutdown_called, polled, close_settled, lane_turn, begin_draining,
  register_drain_hook, handle, handle_all, shutdown_in, poll_in, close_next, close_settles_in,
}

abbrev settles : LifecycleEvent → ℕ
settles (close_settled cause) = 1
settles _ = 0

abbrev pub settled_count : List LifecycleEvent → ℕ
settled_count [] = 0
settled_count (event ∷ events) = settles event + settled_count events

-- The closing has begun, with the number of closeables whose `close` has not settled, and so it ends
-- with `0`.
abbrev pub Closes : (left : ℕ) → ShutdownPhase → Type 0
Closes left (closing current remaining failures) = suc (length remaining) ≤ left
Closes left (finished failures) = Unit
Closes left _ = ⊥

close_next-Closes :
    (l : DaemonLifecycle) (closeables : List RegisteredCloseable) (failures : List CloseFailure)
    (left : ℕ)
    → length closeables ≤ left
    → Closes left (close_next l closeables failures).0.phase
unfolding close_next
close_next-Closes l [] failures left h = tt
close_next-Closes l (closeable ∷ closeables) failures left h =
    ground (arith, close_next-Closes l closeables failures left)

-- An event that settles no `close` leaves the phase of a closing.
pub begin_draining-phase : (l : DaemonLifecycle) → (begin_draining l).0.phase ≡ l.phase
unfolding begin_draining
begin_draining-phase l = ground arith

pub register_drain_hook-phase :
    (l : DaemonLifecycle) (hook : ℕ) → (register_drain_hook l hook).0.phase ≡ l.phase
unfolding register_drain_hook
register_drain_hook-phase l hook = ground arith

poll_in-Closes :
    (phase : ShutdownPhase) (l : DaemonLifecycle) (now left : ℕ)
    → Closes left phase
    → (poll_in phase l now).0 ≡ l
unfolding poll_in
poll_in-Closes (closing current remaining failures) l now left h = refl
poll_in-Closes (finished failures) l now left h = refl
poll_in-Closes not_started l now left h = absurd h
poll_in-Closes (awaiting_lanes deadline) l now left h = absurd h

shutdown_in-Closes :
    (phase : ShutdownPhase) (l : DaemonLifecycle) (now left : ℕ)
    → Closes left phase
    → (shutdown_in phase l now).0 ≡ l
unfolding shutdown_in
shutdown_in-Closes (closing current remaining failures) l now left h = refl
shutdown_in-Closes (finished failures) l now left h = refl
shutdown_in-Closes not_started l now left h = absurd h
shutdown_in-Closes (awaiting_lanes deadline) l now left h = absurd h

close_settles_in-Closes :
    (phase : ShutdownPhase) (l : DaemonLifecycle) (cause : Option Cause) (left : ℕ)
    → l.phase ≡ phase
    → Closes (suc left) phase
    → Closes left (close_settles_in phase l cause).0.phase
unfolding close_settles_in
close_settles_in-Closes (closing current remaining failures) l cause left e h =
    close_next-Closes l remaining _ left (omega arith)
close_settles_in-Closes (finished failures) l cause left e h = rw e tt
close_settles_in-Closes not_started l cause left e h = absurd h
close_settles_in-Closes (awaiting_lanes deadline) l cause left e h = absurd h

pub handle-Closes :
    (l : DaemonLifecycle) (event : LifecycleEvent) (left : ℕ)
    → Closes (settles event + left) l.phase
    → Closes left (handle l event).0.phase
unfolding handle
handle-Closes l (closeable_registered name) left h = subst (λ n. Closes n l.phase) (omega arith) h
handle-Closes l (hook_registered hook) left h =
    rw (register_drain_hook-phase l hook) (subst (λ n. Closes n l.phase) (omega arith) h)
handle-Closes l draining_begun left h =
    rw (begin_draining-phase l) (subst (λ n. Closes n l.phase) (omega arith) h)
handle-Closes l (shutdown_called now) left h =
    rw (shutdown_in-Closes l.phase l now _ h) (subst (λ n. Closes n l.phase) (omega arith) h)
handle-Closes l (polled now) left h =
    rw (poll_in-Closes l.phase l now _ h) (subst (λ n. Closes n l.phase) (omega arith) h)
handle-Closes l (close_settled cause) left h =
    close_settles_in-Closes l.phase l cause left refl
      (subst (λ n. Closes n l.phase) (omega arith) h)
handle-Closes l (lane_turn n event) left h = subst (λ n. Closes n l.phase) (omega arith) h

pub all-Closes :
    (events : List LifecycleEvent) (l : DaemonLifecycle) (left : ℕ)
    → Closes (settled_count events + left) l.phase
    → Closes left (handle_all l events).0.phase
unfolding handle_all
all-Closes [] l left h = subst (λ n. Closes n l.phase) (omega arith) h
all-Closes (event ∷ events) l left h = all-Closes events (handle l event).0 left (
    handle-Closes l event (settled_count events + left)
      (subst (λ n. Closes n l.phase) (omega arith) h))

-- The wait for the lanes is over.
abbrev pub HasBegun : ShutdownPhase → Type 0
HasBegun (closing current remaining failures) = Unit
HasBegun (finished failures) = Unit
HasBegun _ = ⊥

pub HasBegun-Closes : (phase : ShutdownPhase) → HasBegun phase → (n : ℕ) × Closes n phase
HasBegun-Closes (closing current remaining failures) h = (suc (length remaining), omega arith)
HasBegun-Closes (finished failures) h = (0, tt)
HasBegun-Closes not_started h = absurd h
HasBegun-Closes (awaiting_lanes deadline) h = absurd h

Closes-HasBegun : (phase : ShutdownPhase) (n : ℕ) → Closes n phase → HasBegun phase
Closes-HasBegun (closing current remaining failures) n h = tt
Closes-HasBegun (finished failures) n h = tt
Closes-HasBegun not_started n h = h
Closes-HasBegun (awaiting_lanes deadline) n h = h

-- The closeables whose `close` the shutdown still waits for.
abbrev pub unsettled : ShutdownPhase → ℕ
unsettled (closing current remaining failures) = suc (length remaining)
unsettled _ = 0

pub unsettled-Closes : (phase : ShutdownPhase) → HasBegun phase → Closes (unsettled phase) phase
unsettled-Closes (closing current remaining failures) h = omega arith
unsettled-Closes (finished failures) h = tt
unsettled-Closes not_started h = h
unsettled-Closes (awaiting_lanes deadline) h = h

pub is_finished :
    (phase : ShutdownPhase)
    → Closes 0 phase
    → (failures : List CloseFailure) × (phase ≡ finished failures)
is_finished (finished failures) h = (failures, refl)
is_finished (closing current remaining failures) h = absurd (omega arith)
is_finished not_started h = absurd h
is_finished (awaiting_lanes deadline) h = absurd h

pub Closes-mono : (phase : ShutdownPhase) (n m : ℕ) → n ≤ m → Closes n phase → Closes m phase
Closes-mono (closing current remaining failures) n m le h = omega arith
Closes-mono (finished failures) n m le h = tt
Closes-mono not_started n m le h = h
Closes-mono (awaiting_lanes deadline) n m le h = h

handle-HasBegun :
    (l : DaemonLifecycle) (event : LifecycleEvent)
    → HasBegun l.phase
    → HasBegun (handle l event).0.phase
handle-HasBegun l event h =
    let (n, closes) = HasBegun-Closes l.phase h in
    Closes-HasBegun _ n (handle-Closes l event n (Closes-mono l.phase n _ (omega arith) closes))

pub all-HasBegun :
    (events : List LifecycleEvent) (l : DaemonLifecycle)
    → HasBegun l.phase
    → HasBegun (handle_all l events).0.phase
unfolding handle_all
all-HasBegun [] l h = h
all-HasBegun (event ∷ events) l h =
    all-HasBegun events (handle l event).0 (handle-HasBegun l event h)

pub close_next-HasBegun :
    (l : DaemonLifecycle) (closeables : List RegisteredCloseable) (failures : List CloseFailure)
    → HasBegun (close_next l closeables failures).0.phase
close_next-HasBegun l closeables failures =
    Closes-HasBegun _ (length closeables)
      (close_next-Closes l closeables failures (length closeables) (omega arith))
