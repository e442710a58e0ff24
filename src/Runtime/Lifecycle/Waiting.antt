-- ===== src/Runtime/Lifecycle/Waiting.antt =====
-- lifecycle.ts: a shutdown ends, whatever else happens meanwhile.
use contextctl.Common.{
  ℕ, suc, ◌+◌, ◌*◌, ◌≤◌, ◌<◌, ◌≡◌, ◌⊎◌, inl, inr, refl, List, [], ◌∷◌, arith, ap, ◌∙◌, subst, sym,
}
use mathlib.Core.List.{reverse}
use contextctl.Runtime.Lifecycle.{
  DaemonLifecycle, CloseFailure, not_started, awaiting_lanes, finished, LifecycleEvent,
  closeable_registered, hook_registered, draining_begun, shutdown_called, polled, close_settled,
  lane_turn, handle, handle_all, shutdown, shutdown_in, poll, poll_in, close_settles_in,
}
use contextctl.Runtime.Lifecycle.Phases.{
  settled_count, HasBegun, all-Closes, all-HasBegun, close_next-HasBegun, begin_draining-phase,
  register_drain_hook-phase, unsettled, unsettled-Closes, is_finished, Closes-mono,
}
use contextctl.Runtime.Lifecycle.Draining.{awaiting}

-- The poll timer fires no sooner than 10 ms after the last reading of the clock.
abbrev pub PollsAdvance : (previous : ℕ) → List LifecycleEvent → Type 0
PollsAdvance previous [] = Unit
PollsAdvance previous (polled now ∷ events) = (previous + 10 ≤ now) × PollsAdvance now events
PollsAdvance previous (_ ∷ events) = PollsAdvance previous events

abbrev pub poll_count : List LifecycleEvent → ℕ
poll_count [] = 0
poll_count (polled now ∷ events) = suc (poll_count events)
poll_count (_ ∷ events) = poll_count events

-- A poll ends the wait, or it is too early for that and changes nothing.
poll-ends :
    (l : DaemonLifecycle) (deadline now : ℕ)
    → HasBegun (poll_in (awaiting_lanes deadline) l now).0.phase
      ⊎ ((now < deadline) × ((poll_in (awaiting_lanes deadline) l now).0 ≡ l))
unfolding poll_in
poll-ends l deadline now = ground (arith, close_next-HasBegun l (reverse l.closeables) [])

poll_ends :
    (l : DaemonLifecycle) (deadline now : ℕ)
    → l.phase ≡ awaiting_lanes deadline
    → HasBegun (poll l now).0.phase ⊎ ((now < deadline) × ((poll l now).0 ≡ l))
unfolding poll
poll_ends l deadline now e =
    subst (λ p. HasBegun (poll_in p l now).0.phase ⊎ ((now < deadline) × ((poll_in p l now).0 ≡ l)))
      (sym e) (poll-ends l deadline now)

wait_goes_on :
    (l : DaemonLifecycle) (event : LifecycleEvent) (deadline : ℕ)
    → poll_count (event ∷ []) ≡ 0
    → l.phase ≡ awaiting_lanes deadline
    → (handle l event).0.phase ≡ awaiting_lanes deadline
unfolding handle
wait_goes_on l (closeable_registered name) deadline none_polled e = e
wait_goes_on l (hook_registered hook) deadline none_polled e = register_drain_hook-phase l hook ∙ e
wait_goes_on l draining_begun deadline none_polled e = begin_draining-phase l ∙ e
wait_goes_on l (shutdown_called now) deadline none_polled e =
    ap (λ p. (shutdown_in p l now).0.phase) e ∙ e
wait_goes_on l (polled now) deadline none_polled e = absurd (omega arith)
wait_goes_on l (close_settled cause) deadline none_polled e =
    ap (λ p. (close_settles_in p l cause).0.phase) e ∙ e
wait_goes_on l (lane_turn n event) deadline none_polled e = e

wait-HasBegun :
    (events : List LifecycleEvent) (l : DaemonLifecycle) (deadline previous : ℕ)
    → l.phase ≡ awaiting_lanes deadline
    → previous < deadline
    → PollsAdvance previous events
    → deadline ≤ previous + 10 * poll_count events
    → HasBegun (handle_all l events).0.phase
unfolding handle_all handle
wait-HasBegun [] l deadline previous e early advance enough = absurd (omega arith)
wait-HasBegun (closeable_registered name ∷ events) l deadline previous e early advance enough =
    wait-HasBegun events (handle l (closeable_registered name)).0 deadline previous
      (wait_goes_on l (closeable_registered name) deadline refl e) early advance enough
wait-HasBegun (hook_registered hook ∷ events) l deadline previous e early advance enough =
    wait-HasBegun events (handle l (hook_registered hook)).0 deadline previous
      (wait_goes_on l (hook_registered hook) deadline refl e) early advance enough
wait-HasBegun (draining_begun ∷ events) l deadline previous e early advance enough =
    wait-HasBegun events (handle l draining_begun).0 deadline previous
      (wait_goes_on l draining_begun deadline refl e) early advance enough
wait-HasBegun (shutdown_called now ∷ events) l deadline previous e early advance enough =
    wait-HasBegun events (handle l (shutdown_called now)).0 deadline previous
      (wait_goes_on l (shutdown_called now) deadline refl e) early advance enough
wait-HasBegun (close_settled cause ∷ events) l deadline previous e early advance enough =
    wait-HasBegun events (handle l (close_settled cause)).0 deadline previous
      (wait_goes_on l (close_settled cause) deadline refl e) early advance enough
wait-HasBegun (lane_turn n turn ∷ events) l deadline previous e early advance enough =
    wait-HasBegun events (handle l (lane_turn n turn)).0 deadline previous
      (wait_goes_on l (lane_turn n turn) deadline refl e) early advance enough
wait-HasBegun (polled now ∷ events) l deadline previous e early advance enough =
    elim (poll_ends l deadline now e) [
      | inl begun ↦ all-HasBegun events (handle l (polled now)).0 begun
      | inr (early_still, same) ↦
          wait-HasBegun events (handle l (polled now)).0 deadline now (ap (λ m. m.phase) same ∙ e)
            early_still advance.1 (omega arith)
    ]

module _ (l : DaemonLifecycle) (now : ℕ) (fresh : l.phase ≡ not_started) where
  first_poll :
      HasBegun (poll (awaiting l now) now).0.phase
      ⊎ ((now < now + l.drain_timeout_ms) × ((poll (awaiting l now) now).0 ≡ awaiting l now))
  first_poll = poll_ends (awaiting l now) (now + l.drain_timeout_ms) now refl

  shutdown_first : (shutdown l now).0 ≡ (poll (awaiting l now) now).0
  unfolding shutdown
  shutdown_first = ap (λ p. (shutdown_in p l now).0) fresh

  shutdown-HasBegun :
      (events : List LifecycleEvent)
      → PollsAdvance now events
      → l.drain_timeout_ms ≤ 10 * poll_count events
      → HasBegun (handle_all (shutdown l now).0 events).0.phase
  shutdown-HasBegun events advance enough = rw shutdown_first (elim first_poll [
    | inl begun ↦ all-HasBegun events (poll (awaiting l now) now).0 begun
    | inr (early, same) ↦
        wait-HasBegun events (poll (awaiting l now) now).0 (now + l.drain_timeout_ms) now
          (ap (λ m. m.phase) same) early advance (omega arith)
  ])

  -- The first call of `shutdown` comes to its end, whether or not the lanes become idle and whatever
  -- else happens meanwhile: its timer has fired so often that ten milliseconds for each time make up
  -- the drain timeout, and every `close` that it then still waits for settles, with or without an
  -- error.
  pub shutdown-finishes :
      (events more : List LifecycleEvent)
      → PollsAdvance now events
      → l.drain_timeout_ms ≤ 10 * poll_count events
      → let waited = (handle_all (shutdown l now).0 events).0 in
        unsettled waited.phase ≤ settled_count more
        → (failures : List CloseFailure) × ((handle_all waited more).0.phase ≡ finished failures)
  shutdown-finishes events more advance enough settled =
      let waited = (handle_all (shutdown l now).0 events).0 in
      let begun = unsettled-Closes waited.phase (shutdown-HasBegun events advance enough) in
      is_finished _ (all-Closes more waited 0 (Closes-mono waited.phase _ _ (omega arith) begun))
