-- ===== src/Runtime/Lane.antt =====
-- apps/contextctl-daemon/src/runtime/admission.ts: one bounded execution lane. A task is a number;
-- what happens to a submission is an effect in the order of occurrence, and each turn of the event
-- loop that reaches the lane is an event.
pub mod Order
pub mod Fates
pub mod Histories
use contextctl.Common.{
  ℕ, suc, ◌-◌, ◌+◌, ◌≡◌, Bool, true, false, not, List, [], ◌∷◌, ◌++◌, map, length, leb, ltb, nat_eq,
  if◌then◌else◌,
}

pub record QueuedEntry : Type 0 where
  pub task : ℕ
  pub settled : Bool

pub record AdmissionLane : Type 0 where
  pub concurrency : ℕ
  pub queue_depth : ℕ
  pub active : ℕ
  pub accepting : Bool
  pub queue : List QueuedEntry

-- What becomes of a submission: its task starts, or its promise is rejected with an error.
pub data LaneEffect : Type 0 where
  started : (task : ℕ) → LaneEffect
  lane_closed : (task : ℕ) → LaneEffect
  lane_cancelled : (task : ℕ) → LaneEffect
  lane_overloaded : (task active_count queued_count : ℕ) → LaneEffect

abbrev pub Turn : Type 0
Turn = AdmissionLane × List LaneEffect

unfoldable pub new_lane : (concurrency queue_depth : ℕ) → AdmissionLane
new_lane concurrency queue_depth = record {
  concurrency = concurrency;
  queue_depth = queue_depth;
  active = 0;
  accepting = true;
  queue = [];
}

unfoldable pub idle : AdmissionLane → Bool
idle lane = if nat_eq lane.active 0 then nat_eq (length lane.queue) 0 else false

unfoldable pub refuse_waiting : List QueuedEntry → List LaneEffect
refuse_waiting [] = []
refuse_waiting (entry ∷ queue) =
    let rest = refuse_waiting queue in if entry.settled then rest else lane_closed entry.task ∷ rest

unfoldable pub stop_accepting : AdmissionLane → Turn
unfolding refuse_waiting
stop_accepting lane = (record lane { accepting = false; queue = [] }, refuse_waiting lane.queue)

unfoldable pub start : AdmissionLane → ℕ → Turn
start lane task = (record lane { active = suc lane.active }, started task ∷ [])

-- The signal is read twice: `aborted` on the call, `aborted_since` when the listener is attached.
unfoldable pub run : AdmissionLane → (task : ℕ) → (aborted aborted_since : Bool) → Turn
unfolding start
run lane task aborted aborted_since =
    if not lane.accepting
    then (lane, lane_closed task ∷ [])
    else if aborted
    then (lane, lane_cancelled task ∷ [])
    else if ltb lane.active lane.concurrency
    then start lane task
    else if leb lane.queue_depth (length lane.queue)
    then (lane, lane_overloaded task lane.active (length lane.queue) ∷ [])
    else if aborted_since
    then (lane, lane_cancelled task ∷ [])
    else (record lane { queue = lane.queue ++ record { task = task; settled = false } ∷ [] }, [])

unfoldable pub remove_queued : ℕ → List QueuedEntry → List QueuedEntry
remove_queued task [] = []
remove_queued task (entry ∷ queue) =
    let rest = remove_queued task queue in if nat_eq entry.task task then queue else entry ∷ rest

-- `find` gives the entry whose listener is called; a task that does not wait has no listener.
unfoldable pub is_waiting : ℕ → List QueuedEntry → Bool
is_waiting task [] = false
is_waiting task (entry ∷ queue) =
    let rest = is_waiting task queue in if nat_eq entry.task task then not entry.settled else rest

unfoldable pub on_abort : AdmissionLane → ℕ → Turn
unfolding remove_queued is_waiting
on_abort lane task =
    if is_waiting task lane.queue
    then (record lane { queue = remove_queued task lane.queue }, lane_cancelled task ∷ [])
    else (lane, [])

unfoldable pub take_next : AdmissionLane → List QueuedEntry → Turn
unfolding start
take_next lane [] = (record lane { queue = [] }, [])
take_next lane (entry ∷ queue) =
    let rest = take_next lane queue in
    if entry.settled then rest else start (record lane { queue = queue }) entry.task

unfoldable pub drain_one : AdmissionLane → Turn
unfolding take_next
drain_one lane =
    if not lane.accepting
    then (lane, [])
    else if leb lane.concurrency lane.active
    then (lane, [])
    else take_next lane lane.queue

-- The `finally` of `#start`.
unfoldable pub finish : AdmissionLane → Turn
unfolding drain_one
finish lane = drain_one (record lane { active = lane.active - 1 })

pub data LaneEvent : Type 0 where
  submit : (task : ℕ) (aborted aborted_since : Bool) → LaneEvent
  abort : (task : ℕ) → LaneEvent
  task_done stop : LaneEvent

-- A task can only end while one runs.
unfoldable pub handle : AdmissionLane → LaneEvent → Turn
unfolding run on_abort finish stop_accepting
handle lane (submit task aborted aborted_since) = run lane task aborted aborted_since
handle lane (abort task) = on_abort lane task
handle lane task_done = if nat_eq lane.active 0 then (lane, []) else finish lane
handle lane stop = stop_accepting lane

-- A history of the lane: what was submitted and what became of it.
pub record LaneRun : Type 0 where
  pub lane : AdmissionLane
  pub submitted : List ℕ
  pub effects : List LaneEffect

abbrev pub submission : LaneEvent → List ℕ
submission (submit task aborted aborted_since) = task ∷ []
submission _ = []

unfoldable pub observe : LaneRun → LaneEvent → LaneRun
unfolding handle
observe history event =
    let turn = handle history.lane event in
    record {
      lane = turn.0;
      submitted = history.submitted ++ submission event;
      effects = history.effects ++ turn.1;
    }

unfoldable pub observe_all : LaneRun → List LaneEvent → LaneRun
unfolding observe
observe_all history [] = history
observe_all history (event ∷ events) = observe_all (observe history event) events

unfoldable pub serve : (concurrency queue_depth : ℕ) → List LaneEvent → LaneRun
unfolding observe_all new_lane
serve concurrency queue_depth events =
    observe_all (record { lane = new_lane concurrency queue_depth; submitted = []; effects = [] })
      events
