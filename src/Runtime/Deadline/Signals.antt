-- ===== src/Runtime/Deadline/Signals.antt =====
-- deadline.ts: the signal of the whole request against the check before assembly.
use contextctl.Common.{
  ℕ, ◌+◌, ◌≤◌, ◌<◌, ◌≡◌, ◌≢◌, ◌↔◌, refl, Bool, true, false, ◌&&◌, ◌||◌, none, List, [], ◌∷◌, All,
  nat_eq, leb, ok, arith, inl, inr, Bool-cases,
}
use contextctl.Runtime.Deadline.{
  RequestBudget, Moment, remaining_ms, assert_can_assemble, total_signal, Signal, SignalEvent,
  handle, handle_all, tick, caller_aborts, dispose, armed_signal, aborted_signal, request_exceeded,
}

-- The clock and the caller up to a time, while the signal is in use.
abbrev pub IsBefore : (later : ℕ) → SignalEvent → Type 0
IsBefore later (tick now) = now ≤ later
IsBefore later caller_aborts = Unit
IsBefore later dispose = ⊥

abbrev pub gives_up : List SignalEvent → Bool
gives_up [] = false
gives_up (caller_aborts ∷ events) = true
gives_up (_ ∷ events) = gives_up events

abbrev IsAborted : Signal → Type 0
IsAborted signal = signal.reason ≢ none

handle-IsAborted :
    (signal : Signal) (event : SignalEvent) → IsAborted signal → IsAborted (handle signal event)
unfolding handle
handle-IsAborted signal event aborted = ground (arith, aborted)

handle_all-IsAborted :
    (signal : Signal) (events : List SignalEvent)
    → IsAborted signal
    → IsAborted (handle_all signal events)
unfolding handle_all
handle_all-IsAborted signal [] aborted = aborted
handle_all-IsAborted signal (event ∷ events) aborted =
    handle_all-IsAborted (handle signal event) events (handle-IsAborted signal event aborted)

later-IsAborted :
    (signal : Signal) (events : List SignalEvent) (later : ℕ)
    → IsAborted signal
    → IsAborted (handle (handle_all signal events) (tick later))
later-IsAborted signal events later aborted =
    handle-IsAborted _ (tick later) (handle_all-IsAborted signal events aborted)

abbrev armed : (has_caller : Bool) (due : ℕ) → Signal
armed has_caller due = armed_signal due request_exceeded has_caller false

tick-armed_early :
    (has_caller : Bool) (due now : ℕ)
    → leb due now ≡ false
    → handle (armed has_caller due) (tick now) ≡ armed has_caller due
unfolding handle armed_signal
tick-armed_early has_caller due now h = rw h refl

tick-armed_late :
    (has_caller : Bool) (due now : ℕ)
    → leb due now ≡ true
    → IsAborted (handle (armed has_caller due) (tick now))
unfolding handle armed_signal
tick-armed_late true due now h = rw h (λ e. cc)
tick-armed_late false due now h = rw h (λ e. cc)

abort-armed : (due : ℕ) → IsAborted (handle (armed true due) caller_aborts)
unfolding handle armed_signal
abort-armed due e = cc

abort-armed_alone : (due : ℕ) → handle (armed false due) caller_aborts ≡ armed false due
unfolding handle armed_signal
abort-armed_alone due = refl

tick_until :
    (has_caller : Bool) (due later : ℕ)
    → ((handle (armed has_caller due) (tick later)).reason ≡ none) ↔ (later < due)
unfolding handle armed_signal
tick_until true due later = (ground arith, ground arith)
tick_until false due later = (ground arith, ground arith)

-- Not aborted at the time `later`, after the events.
abbrev pub IsLive : Signal → List SignalEvent → (later : ℕ) → Type 0
IsLive signal events later = (handle (handle_all signal events) (tick later)).reason ≡ none

armed_until :
    (has_caller : Bool) (due later : ℕ) (events : List SignalEvent)
    → All (IsBefore later) events
    → IsLive (armed has_caller due) events later
      ↔ ((later < due) × ((has_caller && gives_up events) ≡ false))
unfolding handle_all
armed_until true due later [] before =
    let clock = tick_until true due later in (λ h. (clock.0 h, refl), λ h. clock.1 h.0)
armed_until false due later [] before =
    let clock = tick_until false due later in (λ h. (clock.0 h, refl), λ h. clock.1 h.0)
armed_until has_caller due later (tick now ∷ events) before = elim (Bool-cases (leb due now)) [
  | inl late ↦ (
    λ h. absurd (later-IsAborted _ events later (tick-armed_late has_caller due now late) h),
    λ h. absurd (ground (arith, before.0)),
  )
  | inr early ↦
      rw (tick-armed_early has_caller due now early)
        (armed_until has_caller due later events before.1)
]
armed_until true due later (caller_aborts ∷ events) before =
    (λ h. absurd (later-IsAborted _ events later (abort-armed due) h), λ h. ground arith)
armed_until false due later (caller_aborts ∷ events) before =
    rw (abort-armed_alone due) (armed_until false due later events before.1)
armed_until has_caller due later (dispose ∷ events) before = absurd before.0

IsAborted-when_made : IsAborted (aborted_signal request_exceeded)
unfolding aborted_signal
IsAborted-when_made e = cc

IsAborted-since_made : (due : ℕ) → IsAborted (armed_signal due request_exceeded true true)
unfolding armed_signal
IsAborted-since_made due e = cc

module _ (budget : RequestBudget) (now later : ℕ) (started : budget.started_at ≤ now)
    (passes : now ≤ later) (events : List SignalEvent) (before : All (IsBefore later) events) where
  abbrev at : (now : ℕ) (aborted : Bool) → Moment
  at now aborted = record { now = now; aborted = aborted }

  abbrev CanAssemble : (aborted : Bool) → Type 0
  CanAssemble aborted = assert_can_assemble budget (at later aborted) ≡ ok tt

  cancelled_refuses : ¬ CanAssemble true
  unfolding assert_can_assemble
  cancelled_refuses h = cc

  spent_refuses :
      (aborted : Bool)
      → nat_eq (remaining_ms budget (at now false)) 0 ≡ true
      → ¬ CanAssemble aborted
  unfolding assert_can_assemble remaining_ms
  spent_refuses aborted spent h = ground (arith, passes)

  CanAssemble-until :
      (aborted : Bool)
      → nat_eq (remaining_ms budget (at now false)) 0 ≡ false
      → CanAssemble aborted
        ↔ ((later < now + remaining_ms budget (at now false)) × (aborted ≡ false))
  unfolding assert_can_assemble
  CanAssemble-until true left = (λ h. cc, λ h. cc)
  CanAssemble-until false left = (ground (arith, started, passes), ground (arith, started, passes))

  -- A request that its caller has not given up when the signal is made.
  IsLive-when_made :
      (has_caller : Bool)
      → IsLive (total_signal budget (at now false) has_caller false) events later
        ↔ CanAssemble (has_caller && gives_up events)
  unfolding total_signal
  IsLive-when_made has_caller = elim (Bool-cases (nat_eq (remaining_ms budget (at now false)) 0)) [
    | inl spent ↦ rw spent (
      λ h. absurd (later-IsAborted _ events later IsAborted-when_made h),
      λ h. absurd (spent_refuses (has_caller && gives_up events) spent h),
    )
    | inr left ↦
        let clock = CanAssemble-until (has_caller && gives_up events) left in
        let signal =
          armed_until has_caller (now + remaining_ms budget (at now false)) later events before in
        rw left (λ h. clock.1 (signal.0 h), λ h. signal.1 (clock.0 h))
  ]

  given_up_before :
      (aborted_since : Bool) → IsAborted (total_signal budget (at now true) true aborted_since)
  unfolding total_signal
  given_up_before aborted_since = IsAborted-when_made

  given_up_since : IsAborted (total_signal budget (at now false) true true)
  unfolding total_signal
  given_up_since = elim (Bool-cases (nat_eq (remaining_ms budget (at now false)) 0)) [
    | inl spent ↦ rw spent IsAborted-when_made
    | inr left ↦ rw left (IsAborted-since_made (now + remaining_ms budget (at now false)))
  ]

  alone :
      (aborted_since : Bool)
      → total_signal budget (at now false) false aborted_since
        ≡ total_signal budget (at now false) false false
  unfolding total_signal armed_signal
  alone aborted_since = refl

  -- The signal of the whole request, until it is disposed: at a later time it is aborted exactly if the
  -- check before assembly refuses at that time. The caller, if there is one, may have aborted before the
  -- signal was made, while it was made, at any later time or never.
  pub total_signal-CanAssemble :
      (has_caller aborted aborted_since : Bool)
      → IsLive
          (total_signal budget (at now (has_caller && aborted)) has_caller aborted_since)
          events
          later
        ↔ CanAssemble (has_caller && (aborted || aborted_since || gives_up events))
  total_signal-CanAssemble true true aborted_since = (
    λ h. absurd (later-IsAborted _ events later (given_up_before aborted_since) h),
    λ h. absurd (cancelled_refuses h),
  )
  total_signal-CanAssemble true false true = (
    λ h. absurd (later-IsAborted _ events later given_up_since h),
    λ h. absurd (cancelled_refuses h),
  )
  total_signal-CanAssemble true false false = IsLive-when_made true
  total_signal-CanAssemble false aborted aborted_since =
      rw (alone aborted_since) (IsLive-when_made false)
