-- ===== src/Runtime/Deadline/Races.antt =====
-- deadline.ts: the race of a stage settles once, and a signal keeps its first reason.
use contextctl.Common.{
  ℕ, ◌≡◌, refl, ◌∙◌, ◌<◌, Bool, true, false, none, some, List, [], ◌∷◌, String, arith,
}
use contextctl.Runtime.Deadline.{
  stage_exceeded, request_exceeded, Moment, Signal, SignalEvent, handle, handle_all, dispose, Race,
  RaceEvent, RaceOutcome, resolved, rejected, abandoned, timer_fires, caller_gives_up,
  work_resolves, work_rejects, race_stage, race_step, race_all,
}

module _ {A : Type 0} {E : Type 0} where
  -- What the first event of a race makes of it.
  abbrev pub outcome_of : String → RaceEvent A E → RaceOutcome A E
  outcome_of stage timer_fires = abandoned (stage_exceeded stage)
  outcome_of stage caller_gives_up = abandoned request_exceeded
  outcome_of stage (work_resolves value) = resolved value
  outcome_of stage (work_rejects cause) = rejected cause

  -- Without a caller's signal no abort of it arrives.
  abbrev pub CanHappen : (has_caller : Bool) → RaceEvent A E → Type 0
  CanHappen has_caller caller_gives_up = has_caller ≡ true
  CanHappen has_caller event = Unit

  settled : String → RaceOutcome A E → Race A E
  settled stage outcome = record {
    stage = stage;
    outcome = some outcome;
    timer_armed = false;
    listening = false;
  }

  step-settled :
      (stage : String) (outcome : RaceOutcome A E) (event : RaceEvent A E)
      → race_step (settled stage outcome) event ≡ settled stage outcome
  unfolding settled race_step
  step-settled stage outcome timer_fires = refl
  step-settled stage outcome caller_gives_up = refl
  step-settled stage outcome (work_resolves value) = refl
  step-settled stage outcome (work_rejects cause) = refl

  all-settled :
      (stage : String) (outcome : RaceOutcome A E) (events : List (RaceEvent A E))
      → race_all (settled stage outcome) events ≡ settled stage outcome
  unfolding race_all
  all-settled stage outcome [] = refl
  all-settled stage outcome (event ∷ events) =
      rw (step-settled stage outcome event) (all-settled stage outcome events)

  first_settles :
      (stage : String) (has_caller : Bool) (event : RaceEvent A E)
      → CanHappen has_caller event
      → race_step
          (record { stage = stage; outcome = none; timer_armed = true; listening = has_caller })
          event
        ≡ settled stage (outcome_of stage event)
  unfolding settled race_step
  first_settles stage has_caller timer_fires h = refl
  first_settles stage has_caller caller_gives_up h = rw h refl
  first_settles stage has_caller (work_resolves value) h = refl
  first_settles stage has_caller (work_rejects cause) h = refl

  started_race :
      (stage : String) (limit_ms : ℕ) (moment : Moment) (has_caller : Bool)
      → 0 < limit_ms
      → moment.aborted ≡ false
      → race_stage {A = A} {E = E} stage limit_ms moment has_caller false
        ≡ record { stage = stage; outcome = none; timer_armed = true; listening = has_caller }
  unfolding race_stage
  started_race stage limit_ms moment true h live = rw live (ground arith)
  started_race stage limit_ms moment false h live = rw live (ground arith)

  module _ (stage : String) (limit_ms : ℕ) (moment : Moment) (has_caller : Bool) where
    -- A stage that is started, with a positive limit and a caller that has not given up, ends as the
    -- first of the timer, the caller and the work has it, whatever happens after that, and leaves no
    -- timer and no listener behind.
    pub race-first :
        (event : RaceEvent A E) (events : List (RaceEvent A E))
        → 0 < limit_ms
        → moment.aborted ≡ false
        → CanHappen has_caller event
        → race_all (race_stage stage limit_ms moment has_caller false) (event ∷ events) ≡ record {
          stage = stage;
          outcome = some (outcome_of stage event);
          timer_armed = false;
          listening = false;
        }
    unfolding race_all settled
    race-first event events h live can =
        rw
          (
            started_race stage limit_ms moment has_caller h live,
            first_settles stage has_caller event can,
          )
          (all-settled stage (outcome_of stage event) events)

-- Once it is disposed, nothing can abort a signal any more.
abbrev IsSilent : Signal → Type 0
IsSilent signal = (signal.timer ≡ none) × (signal.listening ≡ false)

abbrev IsTidy : Signal → Type 0
IsTidy signal = signal.disposed ≡ true → IsSilent signal

handle-IsTidy :
    (signal : Signal) (event : SignalEvent) → IsTidy signal → IsTidy (handle signal event)
unfolding handle
handle-IsTidy signal event tidy = ground arith

handle_all-IsTidy :
    (signal : Signal) (events : List SignalEvent)
    → IsTidy signal
    → IsTidy (handle_all signal events)
unfolding handle_all
handle_all-IsTidy signal [] tidy = tidy
handle_all-IsTidy signal (event ∷ events) tidy =
    handle_all-IsTidy (handle signal event) events (handle-IsTidy signal event tidy)

handle-IsSilent :
    (signal : Signal) (event : SignalEvent)
    → IsSilent signal
    → IsSilent (handle signal event) × ((handle signal event).reason ≡ signal.reason)
unfolding handle
handle-IsSilent signal event silent = ground arith

silent_keeps_reason :
    (signal : Signal) (events : List SignalEvent)
    → IsSilent signal
    → (handle_all signal events).reason ≡ signal.reason
unfolding handle_all
silent_keeps_reason signal [] silent = refl
silent_keeps_reason signal (event ∷ events) silent =
    let kept = handle-IsSilent signal event silent in
    silent_keeps_reason (handle signal event) events kept.0 ∙ kept.1

dispose-IsSilent :
    (signal : Signal)
    → IsTidy signal
    → IsSilent (handle signal dispose) × ((handle signal dispose).reason ≡ signal.reason)
unfolding handle
dispose-IsSilent signal tidy = ground arith

-- The signal of a request is settled by `dispose`: whatever happened before and whatever happens
-- after it, the reason it is aborted with, or that it is not, stays what it was.
pub dispose-keeps_reason :
    (signal : Signal) (before after : List SignalEvent)
    → signal.disposed ≡ false
    → (handle_all (handle (handle_all signal before) dispose) after).reason
      ≡ (handle_all signal before).reason
dispose-keeps_reason signal before after fresh =
    let tidy = handle_all-IsTidy signal before (λ h. cc) in
    let (silent, same) = dispose-IsSilent (handle_all signal before) tidy in
    silent_keeps_reason _ after silent ∙ same
