-- ===== src/Runtime/Scheduler.antt =====
-- apps/contextctl-daemon/src/runtime/embedding-runtime-scheduler.ts: who may enter the one shared
-- inference session. A timer of the clock that is armed is what it is armed with; each turn of the
-- event loop that reaches the scheduler is an event.
pub mod Turns
pub mod Drain
pub mod Stuck
pub mod Drained
pub mod Soundness
pub mod Progress
use contextctl.Common.{
  ℕ, suc, ◌-◌, ◌+◌, String, Option, none, some, Bool, true, false, not, ◌||◌, List, [], ◌∷◌, ◌++◌,
  length, leb, ltb, nat_eq, if◌then◌else◌, Result, ok, throw, ◌==◌, string_instance,
}

pub record SchedulerProfile : Type 0 where
  pub version : String
  pub concurrency : ℕ
  pub resolve_queue_depth : ℕ
  pub background_queue_depth : ℕ
  pub background_batch_size : ℕ
  pub resolve_quiet_period_ms : ℕ
  pub background_yield_ms : ℕ
  pub event_loop_sample_ms : ℕ
  pub event_loop_warning_ms : ℕ
  pub rss_limit_bytes : ℕ

pub data SchedulerProblem : Type 0 where
  version_missing limit_invalid event_loop_threshold_invalid : SchedulerProblem

abbrev max_safe_integer : ℕ
max_safe_integer = 9007199254740991

abbrev pub limits : SchedulerProfile → List (String × ℕ)
limits profile =
    ("concurrency", profile.concurrency)
    ∷ ("resolveQueueDepth", profile.resolve_queue_depth)
    ∷ ("backgroundQueueDepth", profile.background_queue_depth)
    ∷ ("backgroundBatchSize", profile.background_batch_size)
    ∷ ("resolveQuietPeriodMs", profile.resolve_quiet_period_ms)
    ∷ ("backgroundYieldMs", profile.background_yield_ms)
    ∷ ("eventLoopSampleMs", profile.event_loop_sample_ms)
    ∷ ("eventLoopWarningMs", profile.event_loop_warning_ms)
    ∷ ("rssLimitBytes", profile.rss_limit_bytes)
    ∷ []

unfoldable pub first_invalid : List (String × ℕ) → Option String
first_invalid [] = none
first_invalid ((field, value) ∷ rest) =
    let later = first_invalid rest in
    if ltb max_safe_integer value || ltb value 1 then some field else later

-- `trim` is the text's own method.
unfoldable pub assert_profile :
    (trim : String → String)
    → SchedulerProfile
    → Result (SchedulerProblem × String) SchedulerProfile
unfolding first_invalid
assert_profile trim profile =
    if trim profile.version == ""
    then throw (version_missing, "version")
    else elim (first_invalid (limits profile)) [
      | some field ↦ throw (limit_invalid, field)
      | none ↦
          if leb profile.event_loop_sample_ms profile.event_loop_warning_ms
          then throw (event_loop_threshold_invalid, "eventLoopWarningMs")
          else ok profile
    ]

pub data Priority : Type 0 where
  resolve background : Priority

pub record ScheduledEntry : Type 0 where
  pub priority : Priority
  pub task : ℕ
  pub settled : Bool

pub data SchedulerEffect : Type 0 where
  began : Priority → (task : ℕ) → SchedulerEffect
  runtime_closed : (task : ℕ) → SchedulerEffect
  runtime_cancelled : (task : ℕ) → SchedulerEffect
  runtime_overloaded : Priority → (task queued : ℕ) → SchedulerEffect

pub record Scheduler : Type 0 where
  pub profile : SchedulerProfile
  pub resolve_queue : List ScheduledEntry
  pub background_queue : List ScheduledEntry
  pub active : ℕ
  pub resolve_starts : ℕ
  pub background_starts : ℕ
  pub resolve_reservations : ℕ
  pub accepting : Bool
  pub event_loop_lag_ms : ℕ
  pub rss_bytes : ℕ
  pub sample : Option ℕ
  pub promotion : Option ℕ

abbrev pub SchedulerTurn : Type 0
SchedulerTurn = Scheduler × List SchedulerEffect

unfoldable pub new_scheduler : SchedulerProfile → (rss : ℕ) → Scheduler
new_scheduler profile rss = record {
  profile = profile;
  resolve_queue = [];
  background_queue = [];
  active = 0;
  resolve_starts = 0;
  background_starts = 0;
  resolve_reservations = 0;
  accepting = true;
  event_loop_lag_ms = 0;
  rss_bytes = rss;
  sample = none;
  promotion = none;
}

abbrev pub is_armed : Option ℕ → Bool
is_armed none = false
is_armed (some _) = true

unfoldable pub background_starts_suppressed : Scheduler → Bool
background_starts_suppressed s = ltb s.profile.event_loop_warning_ms s.event_loop_lag_ms

unfoldable pub scheduler_idle : Scheduler → Bool
scheduler_idle s =
    if nat_eq s.active 0
    then nat_eq (length s.resolve_queue + length s.background_queue) 0
    else false

-- `expected_at` of the sample that is armed.
unfoldable pub schedule_sample : Scheduler → (clock : ℕ) → Scheduler
schedule_sample s clock = record s { sample = some (clock + s.profile.event_loop_sample_ms) }

unfoldable pub start_monitoring : Scheduler → (clock : ℕ) → Scheduler
unfolding schedule_sample
start_monitoring s clock =
    if not s.accepting || is_armed s.sample then s else schedule_sample s clock

unfoldable pub refuse_scheduled : List ScheduledEntry → List SchedulerEffect
refuse_scheduled [] = []
refuse_scheduled (entry ∷ queue) =
    let rest = refuse_scheduled queue in
    if entry.settled then rest else runtime_closed entry.task ∷ rest

unfoldable pub stop_scheduler : Scheduler → SchedulerTurn
unfolding refuse_scheduled
stop_scheduler s = if not s.accepting then (s, []) else (
  record s {
    accepting = false;
    sample = none;
    promotion = none;
    resolve_queue = [];
    background_queue = [];
  },
  refuse_scheduled (s.resolve_queue ++ s.background_queue),
)

unfoldable pub cancel_promotion : Scheduler → Scheduler
cancel_promotion s = record s { promotion = none }

unfoldable pub schedule_promotion : Scheduler → (delay_ms : ℕ) → Scheduler
schedule_promotion s delay_ms =
    if not s.accepting || nat_eq (length s.background_queue) 0 || is_armed s.promotion
    then s
    else record s { promotion = some delay_ms }

unfoldable pub begin : Scheduler → Priority → (task : ℕ) → SchedulerTurn
begin s resolve task = (
  record s { resolve_starts = suc s.resolve_starts; active = suc s.active },
  began resolve task ∷ [],
)
begin s background task = (
  record s { background_starts = suc s.background_starts; active = suc s.active },
  began background task ∷ [],
)
