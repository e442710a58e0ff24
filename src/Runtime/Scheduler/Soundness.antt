-- ===== src/Runtime/Scheduler/Soundness.antt =====
-- Each call of the scheduler keeps it sound.
use contextctl.Common.{
  ℕ, ◌≤◌, ◌<◌, refl, Bool, false, List, [], ◌∷◌, length, arith, inr, length-append,
}
use contextctl.Runtime.Scheduler.{
  Scheduler, ScheduledEntry, SchedulerTurn, SchedulerProfile, Priority, resolve, background,
  is_armed,
}
use contextctl.Runtime.Scheduler
use contextctl.Runtime.Scheduler.Turns.{
  SchedulerEvent, monitor, submit, abort, enter_scope, leave_scope, stop, work_done, promote,
  take_sample, drain, background_held,
}
use contextctl.Runtime.Scheduler.Turns
use contextctl.Runtime.Scheduler.Drained.{IsSound}

length-remove :
    (task : ℕ) (queue : List ScheduledEntry) → length (Turns.remove task queue) ≤ length queue
unfolding Turns.remove
length-remove task [] = omega arith
length-remove task (entry ∷ queue) = ground (arith, length-remove task queue)

module _ (s : Scheduler) (positive : 0 < s.profile.concurrency) (h : IsSound s.profile s) where
  pub monitor-IsSound : (clock : ℕ) → IsSound s.profile (Turns.handle s (monitor clock)).0
  unfolding Turns.handle Scheduler.start_monitoring Scheduler.schedule_sample
      Scheduler.background_starts_suppressed
  monitor-IsSound clock = record {
    kept = ground (arith, h.kept);
    bounded = ground (arith, h.bounded);
    resolve_room = ground (arith, h.resolve_room);
    background_room = ground (arith, h.background_room);
    resolve_first = ground (arith, h.resolve_first);
    closed = ground (arith, h.closed, h.resolve_first);
    monitored = ground (arith, h.monitored);
    awake = ground (arith, h.awake, h.bounded, h.closed);
  }

  pub enter_scope-IsSound : IsSound s.profile (Turns.handle s enter_scope).0
  unfolding Turns.handle Turns.scope_begin Scheduler.cancel_promotion
      Scheduler.background_starts_suppressed
  enter_scope-IsSound = record {
    kept = refl;
    bounded = h.bounded;
    resolve_room = h.resolve_room;
    background_room = h.background_room;
    resolve_first = h.resolve_first;
    closed = h.closed;
    monitored = h.monitored;
    awake = λ _ _. inr (inr (omega arith));
  }

  pub leave_scope-IsSound : IsSound s.profile (Turns.handle s leave_scope).0
  unfolding Turns.handle Turns.scope_end Scheduler.schedule_promotion Scheduler.cancel_promotion
      Scheduler.background_starts_suppressed
  leave_scope-IsSound = record {
    kept = ground arith;
    bounded = ground (arith, h.bounded);
    resolve_room = ground (arith, h.resolve_room);
    background_room = ground (arith, h.background_room);
    resolve_first = ground (arith, h.resolve_first);
    closed = ground (arith, h.closed);
    monitored = ground (arith, h.monitored);
    awake = ground (arith, h.awake, h.closed);
  }

  pub stop-IsSound : IsSound s.profile (Turns.handle s stop).0
  unfolding Turns.handle Scheduler.stop_scheduler Scheduler.background_starts_suppressed
  stop-IsSound = record {
    kept = ground (arith, h.kept);
    bounded = ground (arith, h.bounded);
    resolve_room = ground (arith, h.resolve_room);
    background_room = ground (arith, h.background_room);
    resolve_first = ground (arith, h.resolve_first);
    closed = ground (arith, h.closed, h.resolve_first);
    monitored = ground (arith, h.monitored);
    awake = ground (arith, h.awake, h.bounded, h.closed);
  }

  pub submit_resolve-IsSound :
      (task : ℕ) (aborted aborted_since : Bool)
      → IsSound s.profile (Turns.handle s (submit resolve task aborted aborted_since)).0
  unfolding Turns.handle Turns.run Scheduler.begin Scheduler.cancel_promotion
      Scheduler.background_starts_suppressed
  submit_resolve-IsSound task aborted aborted_since =
      let entry : ScheduledEntry = record { priority = resolve; task = task; settled = false } in
      record {
        kept = ground (arith, h.kept, positive, length-append s.resolve_queue (entry ∷ []));
        bounded = ground (arith, h.bounded, positive, length-append s.resolve_queue (entry ∷ []));
        resolve_room =
            ground (arith, h.resolve_room, positive, length-append s.resolve_queue (entry ∷ []));
        background_room =
            ground (arith, h.background_room, positive, length-append s.resolve_queue (entry ∷ []));
        resolve_first =
            ground (arith, h.resolve_first, positive, length-append s.resolve_queue (entry ∷ []));
        closed = ground (
          arith,
          h.closed,
          h.resolve_first,
          positive,
          length-append s.resolve_queue (entry ∷ []),
        );
        monitored =
            ground (arith, h.monitored, positive, length-append s.resolve_queue (entry ∷ []));
        awake = ground (
          arith,
          h.awake,
          h.bounded,
          h.closed,
          positive,
          length-append s.resolve_queue (entry ∷ []),
        );
      }

  pub submit_background-IsSound :
      (task : ℕ) (aborted aborted_since : Bool)
      → IsSound s.profile (Turns.handle s (submit background task aborted aborted_since)).0
  unfolding Turns.handle Turns.run Scheduler.schedule_promotion
      Scheduler.background_starts_suppressed
  submit_background-IsSound task aborted aborted_since =
      let entry : ScheduledEntry = record { priority = background; task = task; settled = false } in
      record {
        kept = ground (arith, h.kept, length-append s.background_queue (entry ∷ []));
        bounded = ground (arith, h.bounded, length-append s.background_queue (entry ∷ []));
        resolve_room =
            ground (arith, h.resolve_room, length-append s.background_queue (entry ∷ []));
        background_room =
            ground (arith, h.background_room, length-append s.background_queue (entry ∷ []));
        resolve_first =
            ground (arith, h.resolve_first, length-append s.background_queue (entry ∷ []));
        closed =
            ground
              (arith, h.closed, h.resolve_first, length-append s.background_queue (entry ∷ []));
        monitored = ground (arith, h.monitored, length-append s.background_queue (entry ∷ []));
        awake =
            ground
              (arith, h.awake, h.bounded, h.closed, length-append s.background_queue (entry ∷ []));
      }

  pub abort-IsSound : (task : ℕ) → IsSound s.profile (Turns.handle s (abort task)).0
  unfolding Turns.handle Turns.on_abort Scheduler.background_starts_suppressed
  abort-IsSound task = record {
    kept =
        ground (
          arith,
          h.kept,
          length-remove task s.resolve_queue,
          length-remove task s.background_queue,
        );
    bounded = ground (
      arith,
      h.bounded,
      length-remove task s.resolve_queue,
      length-remove task s.background_queue,
    );
    resolve_room = ground (
      arith,
      h.resolve_room,
      length-remove task s.resolve_queue,
      length-remove task s.background_queue,
    );
    background_room = ground (
      arith,
      h.background_room,
      length-remove task s.resolve_queue,
      length-remove task s.background_queue,
    );
    resolve_first = ground (
      arith,
      h.resolve_first,
      length-remove task s.resolve_queue,
      length-remove task s.background_queue,
    );
    closed = ground (
      arith,
      h.closed,
      h.resolve_first,
      length-remove task s.resolve_queue,
      length-remove task s.background_queue,
    );
    monitored = ground (
      arith,
      h.monitored,
      length-remove task s.resolve_queue,
      length-remove task s.background_queue,
    );
    awake = ground (
      arith,
      h.awake,
      h.bounded,
      h.closed,
      length-remove task s.resolve_queue,
      length-remove task s.background_queue,
    );
  }
