-- ===== src/Runtime/Lifecycle/EachOnce.antt =====
-- lifecycle.ts: a shutdown calls every `close` once, the latest registered first, and reports each
-- that fails.
use contextctl.Common.{
  ℕ, ◌+◌, ◌≤◌, ◌<◌, ◌≡◌, ◌⊎◌, inl, inr, refl, subst, ◌∙◌, false, Option, List, [], ◌∷◌, ◌++◌,
  length, length-append, All, arith, String,
}
use mathlib.Core.List.{reverse, reverse-append}
use contextctl.Runtime.Lane.{AdmissionLane}
use contextctl.Runtime.Lifecycle.{
  DaemonLifecycle, Change, ShutdownPhase, RegisteredCloseable, CloseFailure, Cause, not_started,
  awaiting_lanes, closing, finished, LifecycleEffect, LifecycleEvent, closeable_registered,
  hook_registered, draining_begun, shutdown_called, polled, close_settled, lane_turn, is_closed,
  begin_draining, handle, handle_all, shutdown_in, poll_in, close_settles_in, register_closeable,
  new_lifecycle,
}
use contextctl.Runtime.Lifecycle.Phases.{
  HasBegun, begin_draining-phase, register_drain_hook-phase, all-HasBegun,
}
use contextctl.Runtime.Lifecycle.Draining.{awaiting}
use contextctl.Runtime.Lifecycle.Calls.{
  calls, keys, outcomes, reports, calls-append, silent_turn, silent_begin, silent_hook,
}
use contextctl.Runtime.Lifecycle.Marks.{IsOpen, is_closed-append_open}
use contextctl.Runtime.Lifecycle.Closing.{
  Descending, Stands, close_next-Stands, Stands-HasBegun, handle_all-Stands,
}

-- Before a closing begins: the closeables are numbered as they were registered, and open.
record IsFresh (l : DaemonLifecycle) : Type 0 where
  numbered : All (λ c. c.key < length l.closeables) (reverse l.closeables)
  ordered : Descending (reverse l.closeables)
  opened : (key : ℕ) → is_closed key l.closeables ≡ false
  waits : ¬ HasBegun l.phase

-- A step before that calls nothing, or it begins the closing of all that is registered.
abbrev Turns : (l : DaemonLifecycle) → Change → Type 0
Turns l change =
    Stands (reverse l.closeables) (calls change.1) [] change.0.closeables change.0.phase
    ⊎ (IsFresh change.0 × (calls change.1 ≡ []))

numbers_below :
    (n m : ℕ) (closeables : List RegisteredCloseable)
    → n ≤ m
    → All (λ c. c.key < n) closeables
    → All (λ c. c.key < m) closeables
numbers_below n m [] le h = tt
numbers_below n m (c ∷ closeables) le h = (omega (arith, h.0), numbers_below n m closeables le h.1)

registered-IsFresh :
    (l : DaemonLifecycle) (name : String) → IsFresh l → IsFresh (register_closeable l name)
unfolding register_closeable
registered-IsFresh l name h =
    let new : RegisteredCloseable = record {
      key = length l.closeables;
      name = name;
      closed = false;
    } in
    let count = length-append l.closeables (new ∷ []) in
    let turned : reverse (l.closeables ++ new ∷ []) ≡ new ∷ reverse l.closeables =
      reverse-append l.closeables (new ∷ []) in
    record {
      numbered = rw turned (
        omega (arith, count),
        numbers_below _ _ (reverse l.closeables) (omega (arith, count)) h.numbered,
      );
      ordered = rw turned (h.numbered, h.ordered);
      opened = λ key. is_closed-append_open l.closeables key _ name ∙ h.opened key;
      waits = h.waits;
    }

all-IsOpen :
    (closeables rest : List RegisteredCloseable)
    → ((key : ℕ) → is_closed key closeables ≡ false)
    → All (IsOpen closeables) rest
all-IsOpen closeables [] h = tt
all-IsOpen closeables (c ∷ rest) h = (h c.key, all-IsOpen closeables rest h)

same-IsFresh :
    (l next : DaemonLifecycle)
    → (next.closeables ≡ l.closeables) × (next.phase ≡ l.phase)
    → IsFresh l
    → IsFresh next
same-IsFresh l next (cs, phase) h = record {
  numbered = rw cs h.numbered;
  ordered = rw cs h.ordered;
  opened = rw cs h.opened;
  waits = rw phase h.waits;
}

poll-Turns :
    (phase : ShutdownPhase) (l : DaemonLifecycle) (now : ℕ)
    → l.phase ≡ phase
    → IsFresh l
    → Turns l (poll_in phase l now)
unfolding poll_in
poll-Turns (awaiting_lanes deadline) l now e h =
    let begins =
      close_next-Stands l (reverse l.closeables) [] (reverse l.closeables) [] refl refl h.ordered
        (all-IsOpen l.closeables (reverse l.closeables) h.opened) in
    ground (arith, begins)
poll-Turns not_started l now e h = inr (h, refl)
poll-Turns (closing c rest failures) l now e h = inr (h, refl)
poll-Turns (finished failures) l now e h = inr (h, refl)

Turns-after :
    (l next : DaemonLifecycle) (quiet : List LifecycleEffect) (change : Change)
    → next.closeables ≡ l.closeables
    → calls quiet ≡ []
    → Turns next change
    → Turns l (change.0, quiet ++ change.1)
Turns-after l next quiet change same silent (inl stands) =
    inl (rw (calls-append quiet change.1, silent) (rw⁻¹ same stands))
Turns-after l next quiet change same silent (inr (fresh, still)) =
    inr (fresh, calls-append quiet change.1 ∙ rw silent still)

shutdown-Turns :
    (phase : ShutdownPhase) (l : DaemonLifecycle) (now : ℕ)
    → IsFresh l
    → Turns l (shutdown_in phase l now)
unfolding shutdown_in
shutdown-Turns not_started l now h =
    let silent = silent_begin l in
    let fresh =
      same-IsFresh (record l { phase = awaiting_lanes (now + l.drain_timeout_ms) }) (awaiting l now)
        (silent.1, refl)
        (record {
          numbered = h.numbered;
          ordered = h.ordered;
          opened = h.opened;
          waits = λ x. x;
        }) in
    Turns-after l (awaiting l now) (begin_draining l).1
      (poll_in (awaiting_lanes (now + l.drain_timeout_ms)) (awaiting l now) now) silent.1 silent.0
      (poll-Turns (awaiting_lanes (now + l.drain_timeout_ms)) (awaiting l now) now refl fresh)
shutdown-Turns (awaiting_lanes deadline) l now h = inr (h, refl)
shutdown-Turns (closing c rest failures) l now h = inr (h, refl)
shutdown-Turns (finished failures) l now h = inr (h, refl)

settles-Turns :
    (phase : ShutdownPhase) (l : DaemonLifecycle) (cause : Option Cause)
    → l.phase ≡ phase
    → IsFresh l
    → Turns l (close_settles_in phase l cause)
unfolding close_settles_in
settles-Turns (closing c rest failures) l cause e h = absurd (h.waits (rw e tt))
settles-Turns (finished failures) l cause e h = inr (h, refl)
settles-Turns not_started l cause e h = inr (h, refl)
settles-Turns (awaiting_lanes deadline) l cause e h = inr (h, refl)

handle-Turns : (l : DaemonLifecycle) (event : LifecycleEvent) → IsFresh l → Turns l (handle l event)
unfolding handle
handle-Turns l (closeable_registered name) h = inr (registered-IsFresh l name h, refl)
handle-Turns l (hook_registered hook) h =
    let silent = silent_hook l hook in
    inr (same-IsFresh l _ (silent.1, register_drain_hook-phase l hook) h, silent.0)
handle-Turns l draining_begun h =
    let silent = silent_begin l in
    inr (same-IsFresh l _ (silent.1, begin_draining-phase l) h, silent.0)
handle-Turns l (shutdown_called now) h = shutdown-Turns l.phase l now h
handle-Turns l (polled now) h = poll-Turns l.phase l now refl h
handle-Turns l (close_settled cause) h = settles-Turns l.phase l cause refl h
handle-Turns l (lane_turn n event) h =
    inr (same-IsFresh l _ (refl, refl) h, silent_turn n event l.lanes)

handle_all-IsFresh :
    (events : List LifecycleEvent) (l : DaemonLifecycle)
    → IsFresh l
    → let change = handle_all l events in
      HasBegun change.0.phase ⊎ (IsFresh change.0 × (calls change.1 ≡ []))
unfolding handle_all
handle_all-IsFresh [] l h = inr (h, refl)
handle_all-IsFresh (event ∷ events) l h = elim (handle-Turns l event h) [
  | inl stands ↦ inl (
      all-HasBegun events (handle l event).0 (
        Stands-HasBegun (reverse l.closeables) (calls (handle l event).1) []
          (handle l event).0.closeables (handle l event).0.phase stands))
  | inr (fresh, silent) ↦ elim (handle_all-IsFresh events (handle l event).0 fresh) [
    | inl begun ↦ inl begun
    | inr (later, quiet) ↦ inr (later, calls-append (handle l event).1 _ ∙ rw silent quiet)
  ]
]

new-IsFresh :
    (drain_timeout_ms : ℕ) (lanes : List AdmissionLane)
    → IsFresh (new_lifecycle drain_timeout_ms lanes)
unfolding new_lifecycle is_closed
new-IsFresh drain_timeout_ms lanes = record {
  numbered = tt;
  ordered = tt;
  opened = λ key. refl;
  waits = λ h. h;
}

finished-Stands :
    (phase : ShutdownPhase) (failures : List CloseFailure) (entries : List RegisteredCloseable)
    (called : List ℕ) (settled : List (Option Cause)) (closeables : List RegisteredCloseable)
    → phase ≡ finished failures
    → Stands entries called settled closeables phase
    → (called ≡ keys entries) × (failures ≡ reports entries settled)
finished-Stands phase failures entries called settled closeables e h =
    let stands : Stands entries called settled closeables (finished failures) =
      subst (λ p. Stands entries called settled closeables p) e h in
    (stands.0, stands.2)

-- Over the life of a process: before the wait for the lanes ends nothing is closed. At the event that
-- ends it and after it, until the shutdown is finished, every `close` that was registered by then is
-- called once, the latest registered first, no other is, and the failures reported are those of the
-- calls that failed, in that order: a failure stops none of the others.
pub closes-each_once :
    (drain_timeout_ms : ℕ) (lanes : List AdmissionLane) (before after : List LifecycleEvent)
    (event : LifecycleEvent) (failures : List CloseFailure)
    → let waited = handle_all (new_lifecycle drain_timeout_ms lanes) before in
      let begun = handle waited.0 event in
      let ended = handle_all begun.0 after in
      ¬ HasBegun waited.0.phase
      → HasBegun begun.0.phase
      → ended.0.phase ≡ finished failures
      → (calls waited.1 ≡ [])
        × (calls (begun.1 ++ ended.1) ≡ keys (reverse waited.0.closeables))
        × (failures ≡ reports (reverse waited.0.closeables) (outcomes after))
closes-each_once drain_timeout_ms lanes before after event failures waits begins ends =
    let waited = handle_all (new_lifecycle drain_timeout_ms lanes) before in
    let begun = handle waited.0 event in
    let ended = handle_all begun.0 after in
    elim (handle_all-IsFresh before (new_lifecycle drain_timeout_ms lanes)
      (new-IsFresh drain_timeout_ms lanes)) [
        | inl early ↦ absurd (waits early)
        | inr (fresh, silent) ↦ elim (handle-Turns waited.0 event fresh) [
          | inr (still, _) ↦ absurd (still.waits begins)
          | inl stands ↦
              let all = handle_all-Stands after begun.0 _ _ [] stands in
              let (called, failed) = finished-Stands _ failures _ _ _ ended.0.closeables ends all in
              (silent, calls-append begun.1 _ ∙ called, failed)
        ]
      ]
