-- ===== src/Runtime/Scheduler/Turns.antt =====
-- apps/contextctl-daemon/src/runtime/embedding-runtime-scheduler.ts: the calls, the timers that fire
-- and the work that ends, each as one turn.
use contextctl.Common.{
  ℕ, suc, zero, ◌-◌, ◌+◌, Option, none, some, Bool, false, not, List, [], ◌∷◌, ◌++◌, length, leb,
  ltb, nat_eq, if◌then◌else◌, ◌||◌,
}
use contextctl.Runtime.Scheduler.{
  Scheduler, ScheduledEntry, SchedulerEffect, SchedulerTurn, SchedulerProfile, Priority, resolve,
  background, runtime_closed, runtime_cancelled, runtime_overloaded, is_armed,
}
use contextctl.Runtime.Scheduler

-- What keeps the background queue from being shifted.
unfoldable pub background_held : Scheduler → Bool
unfolding Scheduler.background_starts_suppressed
background_held s =
    ltb 0 s.resolve_reservations || is_armed s.promotion || Scheduler.background_starts_suppressed s

abbrev pub shift_background : Scheduler → List ScheduledEntry → Option (ScheduledEntry × Scheduler)
shift_background s [] = none
shift_background s (entry ∷ queue) = some (entry, record s { background_queue = queue })

abbrev pub shift :
    Scheduler → (resolve_queue : List ScheduledEntry) → Option (ScheduledEntry × Scheduler)
shift s (entry ∷ queue) = some (entry, record s { resolve_queue = queue })
shift s [] = if background_held s then none else shift_background s s.background_queue

unfoldable pub admit : (aborted : ℕ → Bool) → ScheduledEntry → Scheduler → SchedulerTurn
unfolding Scheduler.begin
admit aborted entry s =
    if entry.settled
    then (s, [])
    else if aborted entry.task
    then (s, runtime_cancelled entry.task ∷ [])
    else Scheduler.begin s entry.priority entry.task

-- One round of the loop of `#drain`; none when the loop ends.
unfoldable pub drain_round : (aborted : ℕ → Bool) → Scheduler → Option SchedulerTurn
unfolding admit
drain_round aborted s =
    if leb s.profile.concurrency s.active then none else elim (shift s s.resolve_queue) [
      | none ↦ none
      | some next ↦ some (admit aborted next.0 next.1)
    ]

unfoldable pub drain_loop : (fuel : ℕ) → (aborted : ℕ → Bool) → Scheduler → SchedulerTurn
unfolding drain_round
drain_loop zero aborted s = (s, [])
drain_loop (suc fuel) aborted s = elim (drain_round aborted s) [
  | none ↦ (s, [])
  | some turn ↦ let rest = drain_loop fuel aborted turn.0 in (rest.0, turn.1 ++ rest.1)
]

abbrev pub queued : Scheduler → ℕ
queued s = length s.resolve_queue + length s.background_queue

unfoldable pub drain : (aborted : ℕ → Bool) → Scheduler → SchedulerTurn
unfolding drain_loop
drain aborted s = if not s.accepting then (s, []) else drain_loop (queued s) aborted s

abbrev pub enqueue : Scheduler → Priority → (task : ℕ) → (aborted_since : Bool) → SchedulerTurn
enqueue s resolve task aborted_since =
    if leb s.profile.resolve_queue_depth (length s.resolve_queue)
    then (s, runtime_overloaded resolve task (length s.resolve_queue) ∷ [])
    else if aborted_since
    then (s, runtime_cancelled task ∷ [])
    else (
      record s {
        resolve_queue =
            s.resolve_queue ++ record { priority = resolve; task = task; settled = false } ∷ [];
      },
      [],
    )
enqueue s background task aborted_since =
    if leb s.profile.background_queue_depth (length s.background_queue)
    then (s, runtime_overloaded background task (length s.background_queue) ∷ [])
    else if aborted_since
    then (s, runtime_cancelled task ∷ [])
    else (
      Scheduler.schedule_promotion
          (record s {
            background_queue =
                s.background_queue
                ++ record { priority = background; task = task; settled = false } ∷ [];
          })
          s.profile.background_yield_ms,
      [],
    )

abbrev pub run_accepted : Scheduler → Priority → (task : ℕ) → (aborted_since : Bool) → SchedulerTurn
run_accepted s resolve task aborted_since =
    let free = Scheduler.cancel_promotion s in
    if ltb s.active s.profile.concurrency
    then Scheduler.begin free resolve task
    else enqueue free resolve task aborted_since
run_accepted s background task aborted_since = enqueue s background task aborted_since

unfoldable pub run :
    Scheduler → Priority → (task : ℕ) → (aborted aborted_since : Bool) → SchedulerTurn
unfolding Scheduler.begin Scheduler.cancel_promotion Scheduler.schedule_promotion
run s priority task aborted aborted_since =
    if not s.accepting
    then (s, runtime_closed task ∷ [])
    else if aborted
    then (s, runtime_cancelled task ∷ [])
    else run_accepted s priority task aborted_since

unfoldable pub remove : ℕ → List ScheduledEntry → List ScheduledEntry
remove task [] = []
remove task (entry ∷ queue) =
    let rest = remove task queue in if nat_eq entry.task task then queue else entry ∷ rest

unfoldable pub is_scheduled : ℕ → List ScheduledEntry → Bool
is_scheduled task [] = false
is_scheduled task (entry ∷ queue) =
    let rest = is_scheduled task queue in if nat_eq entry.task task then not entry.settled else rest

unfoldable pub on_abort : Scheduler → (task : ℕ) → SchedulerTurn
unfolding remove is_scheduled
on_abort s task =
    if is_scheduled task s.resolve_queue
    then (record s { resolve_queue = remove task s.resolve_queue }, runtime_cancelled task ∷ [])
    else if is_scheduled task s.background_queue
    then (
      record s { background_queue = remove task s.background_queue },
      runtime_cancelled task ∷ [],
    )
    else (s, [])

unfoldable pub scope_begin : Scheduler → Scheduler
unfolding Scheduler.cancel_promotion
scope_begin s = record (Scheduler.cancel_promotion s) {
  resolve_reservations = suc s.resolve_reservations;
}

unfoldable pub scope_end : Scheduler → Scheduler
unfolding Scheduler.cancel_promotion Scheduler.schedule_promotion
scope_end s =
    let released : Scheduler = record s { resolve_reservations = s.resolve_reservations - 1 } in
    if nat_eq released.resolve_reservations 0
    then Scheduler.schedule_promotion (Scheduler.cancel_promotion released)
        s.profile.resolve_quiet_period_ms
    else released

abbrev pub quiet_period : SchedulerProfile → Priority → ℕ
quiet_period profile resolve = profile.resolve_quiet_period_ms
quiet_period profile background = profile.background_yield_ms

-- The `finally` of `#start`.
unfoldable pub finish : (aborted : ℕ → Bool) → Scheduler → Priority → (rss : ℕ) → SchedulerTurn
unfolding drain Scheduler.schedule_promotion
finish aborted s priority rss =
    let left : Scheduler = record s { active = s.active - 1; rss_bytes = rss } in
    if ltb 0 (length s.resolve_queue)
    then drain aborted left
    else if ltb 0 (length s.background_queue)
    then (Scheduler.schedule_promotion left (quiet_period s.profile priority), [])
    else (left, [])

unfoldable pub promotion_due : (aborted : ℕ → Bool) → Scheduler → SchedulerTurn
unfolding drain
promotion_due aborted s = drain aborted (record s { promotion = none })

-- `clock` is read twice: for the lag, and for the time that the next sample is expected at.
unfoldable pub sample_due :
    (aborted : ℕ → Bool) → Scheduler → (expected_at clock rss clock_after : ℕ) → SchedulerTurn
unfolding drain Scheduler.schedule_sample
sample_due aborted s expected_at clock rss clock_after =
    if not s.accepting
    then (record s { sample = none }, [])
    else let turn =
        drain aborted
          (record s { sample = none; event_loop_lag_ms = clock - expected_at; rss_bytes = rss }) in
      (Scheduler.schedule_sample turn.0 clock_after, turn.1)

abbrev pub fire_sample :
    (aborted : ℕ → Bool) → Scheduler → Option ℕ → (clock rss clock_after : ℕ) → SchedulerTurn
fire_sample aborted s none clock rss clock_after = (s, [])
fire_sample aborted s (some expected_at) clock rss clock_after =
    sample_due aborted s expected_at clock rss clock_after

-- `aborted` tells which signals are aborted while the loop of `#drain` runs.
pub data SchedulerEvent : Type 0 where
  monitor : (clock : ℕ) → SchedulerEvent
  submit : Priority → (task : ℕ) (aborted aborted_since : Bool) → SchedulerEvent
  abort : (task : ℕ) → SchedulerEvent
  enter_scope leave_scope stop : SchedulerEvent
  work_done : (aborted : ℕ → Bool) → Priority → (rss : ℕ) → SchedulerEvent
  promote : (aborted : ℕ → Bool) → SchedulerEvent
  take_sample : (aborted : ℕ → Bool) (clock rss clock_after : ℕ) → SchedulerEvent

-- Work ends only while some runs, a scope only while one is held, and a timer fires only if armed.
unfoldable pub handle : Scheduler → SchedulerEvent → SchedulerTurn
unfolding Scheduler.start_monitoring Scheduler.stop_scheduler run on_abort scope_begin scope_end
    finish promotion_due sample_due
handle s (monitor clock) = (Scheduler.start_monitoring s clock, [])
handle s (submit priority task aborted aborted_since) = run s priority task aborted aborted_since
handle s (abort task) = on_abort s task
handle s enter_scope = (scope_begin s, [])
handle s leave_scope = if nat_eq s.resolve_reservations 0 then (s, []) else (scope_end s, [])
handle s stop = Scheduler.stop_scheduler s
handle s (work_done aborted priority rss) =
    if nat_eq s.active 0 then (s, []) else finish aborted s priority rss
handle s (promote aborted) = if is_armed s.promotion then promotion_due aborted s else (s, [])
handle s (take_sample aborted clock rss clock_after) =
    fire_sample aborted s s.sample clock rss clock_after

unfoldable pub handle_all : Scheduler → List SchedulerEvent → Scheduler
unfolding handle
handle_all s [] = s
handle_all s (event ∷ events) = handle_all (handle s event).0 events
