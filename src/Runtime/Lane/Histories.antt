-- ===== src/Runtime/Lane/Histories.antt =====
-- The lane over every sequence of events: bounded, work-conserving, first in first out, and each
-- submission settled once.
use contextctl.Common.{ℕ, ◌+◌, ◌≡◌, refl, List, [], ◌∷◌, ◌++◌, map, arith, append_assoc}
use mathlib.Core.List.{Sublist}
use mathlib.Core.List.Sublist
use contextctl.Runtime.Lane.{
  QueuedEntry, AdmissionLane, LaneEffect, LaneEvent, LaneRun, Turn, started, submit, abort,
  task_done, stop,
}
use contextctl.Runtime.Lane.Order.{IsSound, effect_task, handle-IsSound}
use contextctl.Runtime.Lane
use contextctl.Runtime.Lane.Fates.{
  IsTurn, count, count-append, started_tasks, started-append, effects-append, waiting,
  handle-IsTurn,
}

pub record IsHistory (concurrency queue_depth : ℕ) (history : LaneRun) : Type 0 where
  pub sound : IsSound concurrency queue_depth history.lane
  pub in_order : Sublist (started_tasks history.effects ++ waiting history.lane) history.submitted
  pub settles :
      (task : ℕ)
      → count task history.submitted
        ≡ count task (map effect_task history.effects) + count task (waiting history.lane)

observe-IsHistory :
    {concurrency queue_depth : ℕ} (history : LaneRun) (event : LaneEvent)
    → IsHistory concurrency queue_depth history
    → IsHistory concurrency queue_depth (Lane.observe history event)
unfolding Lane.observe
observe-IsHistory history event h =
    let turn : Turn = Lane.handle history.lane event in
    let t : IsTurn history.lane (Lane.submission event) turn =
      handle-IsTurn history.lane event h.sound in
    let starts = started_tasks history.effects in
    record {
      sound = handle-IsSound history.lane event h.sound;
      in_order =
          rw
            (
              started-append history.effects turn.1,
              append_assoc starts (started_tasks turn.1) (waiting turn.0),
            )
            (Sublist.trans (Sublist.append (Sublist.refl starts) t.in_order) (
              rw⁻¹ (append_assoc starts (waiting history.lane) (Lane.submission event))
                (Sublist.append h.in_order (Sublist.refl (Lane.submission event)))));
      settles = λ x. rw (effects-append history.effects turn.1) omega (
        arith,
        h.settles x,
        t.settles x,
        count-append x history.submitted (Lane.submission event),
        count-append x (map effect_task history.effects) (map effect_task turn.1),
      );
    }

observe_all-IsHistory :
    {concurrency queue_depth : ℕ} (history : LaneRun) (events : List LaneEvent)
    → IsHistory concurrency queue_depth history
    → IsHistory concurrency queue_depth (Lane.observe_all history events)
unfolding Lane.observe_all
observe_all-IsHistory history [] h = h
observe_all-IsHistory history (event ∷ events) h =
    observe_all-IsHistory (Lane.observe history event) events (observe-IsHistory history event h)

serve-IsHistory :
    (concurrency queue_depth : ℕ) (events : List LaneEvent)
    → IsHistory concurrency queue_depth (Lane.serve concurrency queue_depth events)
unfolding Lane.serve Lane.new_lane count
serve-IsHistory concurrency queue_depth events = observe_all-IsHistory _ events (record {
  sound = record {
    width = refl;
    depth = refl;
    bounded = omega arith;
    room = omega arith;
    unsettled = tt;
    busy = λ h. ground arith;
    closed = λ h. refl;
  };
  in_order = Sublist.refl [];
  settles = λ x. refl;
})

-- Over every sequence of events, a lane never runs more tasks than its concurrency nor holds more
-- than its queue depth; it leaves nobody waiting beside a free slot; what waits is unsettled; and
-- once it is closed nothing waits.
pub serve-IsSound :
    (concurrency queue_depth : ℕ) (events : List LaneEvent)
    → IsSound concurrency queue_depth (Lane.serve concurrency queue_depth events).lane
serve-IsSound concurrency queue_depth events =
    (serve-IsHistory concurrency queue_depth events).sound

-- Over every sequence of events, each submission has exactly one fate: each task has as many
-- effects (it starts or is refused) and places in the queue together as it has submissions.
pub serve-settles :
    (concurrency queue_depth : ℕ) (events : List LaneEvent) (task : ℕ)
    → let history : LaneRun = Lane.serve concurrency queue_depth events in
      count task history.submitted
      ≡ count task (map effect_task history.effects) + count task (waiting history.lane)
serve-settles concurrency queue_depth events =
    (serve-IsHistory concurrency queue_depth events).settles

-- Over every sequence of events, the tasks that started, followed by those that wait, stand in the
-- order of their submission: no later submission overtakes an earlier one.
pub serve-in_order :
    (concurrency queue_depth : ℕ) (events : List LaneEvent)
    → let history : LaneRun = Lane.serve concurrency queue_depth events in
      Sublist (started_tasks history.effects ++ waiting history.lane) history.submitted
serve-in_order concurrency queue_depth events =
    (serve-IsHistory concurrency queue_depth events).in_order
