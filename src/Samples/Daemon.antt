-- ===== src/Samples/Daemon.antt =====
-- Runs of the admission lane and of the embedding scheduler.
use contextctl.Common.{
  ℕ, ◌+◌, ◌<◌, ◌≡◌, refl, ◌⊎◌, String, string_instance, Bool, true, false, List, [], ◌∷◌, ◌++◌, map,
  length, ok, arith,
}
use mathlib.Core.List.{Sublist}
use contextctl.Runtime.Lane.{
  LaneEvent, submit, abort, task_done, stop, started, lane_closed, lane_cancelled, lane_overloaded,
}
use contextctl.Runtime.Lane
use contextctl.Runtime.Lane.Order.{effect_task}
use contextctl.Runtime.Lane.Order
use contextctl.Runtime.Lane.Fates.{count, started_tasks, waiting}
use contextctl.Runtime.Lane.Histories.{serve-IsSound, serve-settles, serve-in_order}
use contextctl.Runtime.Scheduler.{SchedulerProfile, Scheduler, resolve, background, is_armed}
use contextctl.Runtime.Scheduler
use contextctl.Runtime.Scheduler.Turns.{
  SchedulerEvent, monitor, enter_scope, leave_scope, work_done, promote, take_sample,
}
use contextctl.Runtime.Scheduler.Turns
use contextctl.Runtime.Scheduler.Drained
use contextctl.Runtime.Scheduler.Progress.{schedule-IsSound, schedule-wakes}

-- One slot and one place in the queue: 1 runs, 2 waits, 3 is overloaded, 2 leaves, 4 waits and follows
-- on 1, 5 waits until the lane is closed.
abbrev lane_events : List LaneEvent
lane_events =
    submit 1 false false
    ∷ submit 2 false false
    ∷ submit 3 false false
    ∷ abort 2
    ∷ submit 4 false false
    ∷ task_done
    ∷ submit 5 false false
    ∷ submit 6 true false
    ∷ stop
    ∷ []

lane_run :
    (Lane.serve 1 1 lane_events).effects
    ≡ started 1
      ∷ lane_overloaded 3 1 1
      ∷ lane_cancelled 2
      ∷ started 4
      ∷ lane_cancelled 6
      ∷ lane_closed 5
      ∷ []
unfolding Lane.serve Lane.observe_all Lane.observe Lane.handle Lane.run Lane.on_abort Lane.finish
    Lane.drain_one Lane.take_next Lane.start Lane.stop_accepting Lane.refuse_waiting Lane.is_waiting
    Lane.remove_queued Lane.new_lane
lane_run = refl

serve-IsSound_example : Order.IsSound 1 1 (Lane.serve 1 1 lane_events).lane
serve-IsSound_example = serve-IsSound 1 1 lane_events

serve-settles_example :
    count 4 (Lane.serve 1 1 lane_events).submitted
    ≡ count 4 (map effect_task (Lane.serve 1 1 lane_events).effects)
      + count 4 (waiting (Lane.serve 1 1 lane_events).lane)
serve-settles_example = serve-settles 1 1 lane_events 4

serve-in_order_example :
    Sublist
      (started_tasks (Lane.serve 1 1 lane_events).effects
        ++ waiting (Lane.serve 1 1 lane_events).lane)
      (Lane.serve 1 1 lane_events).submitted
serve-in_order_example = serve-in_order 1 1 lane_events

-- EMBEDDING_RUNTIME_SCHEDULER_V1
abbrev pub profile : SchedulerProfile
profile = record {
  version = "embedding-runtime-scheduler-v1";
  concurrency = 1;
  resolve_queue_depth = 32;
  background_queue_depth = 32;
  background_batch_size = 1;
  resolve_quiet_period_ms = 50;
  background_yield_ms = 1;
  event_loop_sample_ms = 250;
  event_loop_warning_ms = 100;
  rss_limit_bytes = 1_610_612_736;
}

abbrev as_it_is : String → String
as_it_is t = t

abbrev not_aborted : ℕ → Bool
not_aborted task = false

-- Background work waits; a Resolve call takes the slot and gives it back.
abbrev scheduler_events : List SchedulerEvent
scheduler_events =
    monitor 0
    ∷ Turns.submit background 1 false false
    ∷ Turns.submit resolve 2 false false
    ∷ work_done not_aborted resolve 5
    ∷ []

abbrev scheduled : Scheduler
scheduled = Turns.handle_all (Scheduler.new_scheduler profile 0) scheduler_events

profile_accepted : Scheduler.assert_profile as_it_is profile ≡ ok profile
unfolding Scheduler.assert_profile Scheduler.first_invalid
profile_accepted = refl

still_accepting : scheduled.accepting ≡ true
unfolding Turns.handle_all Turns.handle Turns.run Turns.finish Scheduler.new_scheduler
    Scheduler.start_monitoring Scheduler.schedule_sample Scheduler.schedule_promotion
    Scheduler.cancel_promotion Scheduler.begin
still_accepting = refl

one_waits : 0 < length scheduled.background_queue
unfolding Turns.handle_all Turns.handle Turns.run Turns.finish Scheduler.new_scheduler
    Scheduler.start_monitoring Scheduler.schedule_sample Scheduler.schedule_promotion
    Scheduler.cancel_promotion Scheduler.begin
one_waits = omega arith

schedule-IsSound_example : Drained.IsSound profile scheduled
schedule-IsSound_example =
    schedule-IsSound as_it_is profile profile 0 scheduler_events profile_accepted

schedule-wakes_example :
    (is_armed scheduled.promotion ≡ true)
    ⊎ (0 < scheduled.active)
    ⊎ (0 < scheduled.resolve_reservations)
    ⊎ (Scheduler.background_starts_suppressed scheduled ≡ true) × (is_armed scheduled.sample ≡ true)
schedule-wakes_example =
    schedule-wakes as_it_is profile profile 0 scheduler_events profile_accepted still_accepting
      one_waits
