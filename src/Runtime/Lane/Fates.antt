-- ===== src/Runtime/Lane/Fates.antt =====
-- What one turn of the lane does to the tasks: each keeps its order, and has one fate.
use contextctl.Common.{
  ℕ, suc, ◌+◌, ◌≡◌, refl, true, false, List, [], ◌∷◌, ◌++◌, map, length, nat_eq, arith, ap, inl,
  inr, Bool-cases, append-nil, All, if◌then◌else◌,
}
use mathlib.Core.List.{Sublist, sublist-append_left, nil-sublist}
use mathlib.Core.List.Sublist
use contextctl.Runtime.Lane.{
  QueuedEntry, AdmissionLane, LaneEffect, LaneEvent, LaneRun, Turn, started, submit, abort,
  task_done, stop,
}
use contextctl.Runtime.Lane.Order.{
  IsSound, is_start, effect_task, run-cases, finish-cases, Refused, Started, Queued, Freed,
  HandedOn,
}
use contextctl.Runtime.Lane

unfoldable pub count : ℕ → List ℕ → ℕ
count task [] = 0
count task (x ∷ xs) = let rest = count task xs in if nat_eq x task then suc rest else rest

abbrev pub started_tasks : List LaneEffect → List ℕ
started_tasks [] = []
started_tasks (started task ∷ effects) = task ∷ started_tasks effects
started_tasks (_ ∷ effects) = started_tasks effects

abbrev pub waiting : AdmissionLane → List ℕ
waiting lane = map (λ entry. entry.task) lane.queue

pub count-append :
    (task : ℕ) (xs ys : List ℕ) → count task (xs ++ ys) ≡ count task xs + count task ys
unfolding count
count-append task [] ys = omega arith
count-append task (x ∷ xs) ys = ground (arith, count-append task xs ys)

pub started-append :
    (xs ys : List LaneEffect) → started_tasks (xs ++ ys) ≡ started_tasks xs ++ started_tasks ys
started-append [] ys = refl
started-append (started task ∷ xs) ys = ap (λ l. task ∷ l) (started-append xs ys)
started-append (Lane.lane_closed _ ∷ xs) ys = started-append xs ys
started-append (Lane.lane_cancelled _ ∷ xs) ys = started-append xs ys
started-append (Lane.lane_overloaded _ _ _ ∷ xs) ys = started-append xs ys

map-append :
    (xs ys : List QueuedEntry)
    → map (λ e. e.task) (xs ++ ys) ≡ map (λ e. e.task) xs ++ map (λ e. e.task) ys
map-append [] ys = refl
map-append (x ∷ xs) ys = ap (λ l. x.task ∷ l) (map-append xs ys)

pub effects-append :
    (xs ys : List LaneEffect)
    → map effect_task (xs ++ ys) ≡ map effect_task xs ++ map effect_task ys
effects-append [] ys = refl
effects-append (x ∷ xs) ys = ap (λ l. effect_task x ∷ l) (effects-append xs ys)

-- What one turn does to the tasks that wait: it appends the submission and takes from the front or out of the middle.
-- The two facts by which the turns compose.
pub record IsTurn (lane : AdmissionLane) (submitted : List ℕ) (turn : Turn) : Type 0 where
  pub in_order : Sublist (started_tasks turn.1 ++ waiting turn.0) (waiting lane ++ submitted)
  pub settles :
      (task : ℕ)
      → count task (waiting lane) + count task submitted
        ≡ count task (map effect_task turn.1) + count task (waiting turn.0)

not_started : (effect : LaneEffect) → is_start effect ≡ false → started_tasks (effect ∷ []) ≡ []
unfolding is_start
not_started (started task) h = ground arith
not_started (Lane.lane_closed _) h = refl
not_started (Lane.lane_cancelled _) h = refl
not_started (Lane.lane_overloaded _ _ _) h = refl

pub waiting_of_empty : (queue : List QueuedEntry) → length queue ≡ 0 → map (λ e. e.task) queue ≡ []
waiting_of_empty [] h = refl
waiting_of_empty (x ∷ queue) h = ground arith

removed-Sublist :
    (task : ℕ) (queue : List QueuedEntry)
    → Sublist (map (λ e. e.task) (Lane.remove_queued task queue)) (map (λ e. e.task) queue)
unfolding Lane.remove_queued
removed-Sublist task [] = Sublist.refl []
removed-Sublist task (entry ∷ queue) = elim (Bool-cases (nat_eq entry.task task)) [
  | inl e ↦ rw e (Sublist.cons entry.task (Sublist.refl _))
  | inr e ↦ rw e (Sublist.cons-cons entry.task (removed-Sublist task queue))
]

removed-count :
    (task x : ℕ) (queue : List QueuedEntry)
    → Lane.is_waiting task queue ≡ true
    → count x (map (λ e. e.task) queue)
      ≡ count x (task ∷ map (λ e. e.task) (Lane.remove_queued task queue))
unfolding Lane.remove_queued Lane.is_waiting count
removed-count task x [] h = ground arith
removed-count task x (entry ∷ queue) h = ground (arith, removed-count task x queue)

Refused-IsTurn :
    (lane : AdmissionLane) (task : ℕ) (turn : Turn)
    → Refused lane task turn
    → IsTurn lane (task ∷ []) turn
unfolding count
Refused-IsTurn lane task turn (effect, e, f, n, t) =
    rw (e, f)
      (record {
        in_order = rw (not_started effect n) (sublist-append_left (waiting lane) (task ∷ []));
        settles = λ x. rw t (omega arith);
      })

Started-IsTurn :
    (lane : AdmissionLane) (task : ℕ) (turn : Turn)
    → waiting lane ≡ []
    → Started lane task turn
    → IsTurn lane (task ∷ []) turn
unfolding count Lane.start effect_task
Started-IsTurn lane task turn q (a, c, e) =
    rw e (record { in_order = rw q (Sublist.refl (task ∷ [])); settles = λ x. ground arith })

Queued-IsTurn :
    (lane : AdmissionLane) (task : ℕ) (turn : Turn)
    → Queued lane task turn
    → IsTurn lane (task ∷ []) turn
unfolding count
Queued-IsTurn lane task turn (a, c, d, e, f) =
    rw (e, f)
      (record {
        in_order =
            rw (map-append lane.queue (record { task = task; settled = false } ∷ []))
              (Sublist.refl _);
        settles = λ x.
            rw (map-append lane.queue (record { task = task; settled = false } ∷ []))
              (omega (arith, count-append x (waiting lane) (task ∷ [])));
      })

Freed-IsTurn : (lane : AdmissionLane) (turn : Turn) → Freed lane turn → IsTurn lane [] turn
unfolding count
Freed-IsTurn lane turn (q, e, f) =
    rw (e, f, q) (record { in_order = Sublist.refl []; settles = λ x. refl })

HandedOn-IsTurn : (lane : AdmissionLane) (turn : Turn) → HandedOn lane turn → IsTurn lane [] turn
unfolding count effect_task
HandedOn-IsTurn lane turn (entry, queue, q, e, f) =
    rw (e, f, q)
      (record {
        in_order = rw (append-nil (map (λ e. e.task) (entry ∷ queue))) (Sublist.refl _);
        settles = λ x. ground arith;
      })

aborted-IsTurn : (lane : AdmissionLane) (task : ℕ) → IsTurn lane [] (Lane.on_abort lane task)
unfolding Lane.on_abort count effect_task
aborted-IsTurn lane task = elim (Bool-cases (Lane.is_waiting task lane.queue)) [
  | inl e ↦ rw e (record {
    in_order = rw (append-nil (waiting lane)) (removed-Sublist task lane.queue);
    settles = λ x. ground (arith, removed-count task x lane.queue e);
  })
  | inr e ↦ rw e (record {
    in_order = rw (append-nil (waiting lane)) (Sublist.refl _);
    settles = λ x. omega arith;
  })
]

unchanged-IsTurn : (lane : AdmissionLane) → IsTurn lane [] (lane, [])
unfolding count
unchanged-IsTurn lane = record {
  in_order = rw (append-nil (waiting lane)) (Sublist.refl _);
  settles = λ x. omega arith;
}

refuse_waiting-all :
    (queue : List QueuedEntry)
    → All (λ entry. entry.settled ≡ false) queue
    → (started_tasks (Lane.refuse_waiting queue) ≡ [])
      × (map effect_task (Lane.refuse_waiting queue) ≡ map (λ e. e.task) queue)
unfolding Lane.refuse_waiting effect_task
refuse_waiting-all [] h = (refl, refl)
refuse_waiting-all (entry ∷ queue) h =
    let (a, b) = refuse_waiting-all queue h.1 in rw (h.0) (a, ap (λ l. entry.task ∷ l) b)

stopped-IsTurn :
    (lane : AdmissionLane)
    → All (λ entry. entry.settled ≡ false) lane.queue
    → IsTurn lane [] (Lane.stop_accepting lane)
unfolding Lane.stop_accepting count
stopped-IsTurn lane h =
    let (a, b) = refuse_waiting-all lane.queue h in
    record { in_order = rw (a) (nil-sublist _); settles = λ x. rw b (omega arith) }

pub handle-IsTurn :
    {concurrency queue_depth : ℕ} (lane : AdmissionLane) (event : LaneEvent)
    → IsSound concurrency queue_depth lane
    → IsTurn lane (Lane.submission event) (Lane.handle lane event)
unfolding Lane.handle
handle-IsTurn lane (submit task aborted aborted_since) s =
    elim (run-cases lane task aborted aborted_since _ refl) [
      | inl h ↦ Refused-IsTurn lane task _ h
      | inr (inl h) ↦
          Started-IsTurn lane task _ (waiting_of_empty lane.queue (ground (arith, s.busy, s.width)))
            h
      | inr (inr h) ↦ Queued-IsTurn lane task _ h
    ]
handle-IsTurn lane (abort task) s = aborted-IsTurn lane task
handle-IsTurn lane task_done s = elim (Bool-cases (nat_eq lane.active 0)) [
  | inl e ↦ rw e (unchanged-IsTurn lane)
  | inr e ↦ rw e (elim (finish-cases lane (ground arith) s _ refl) [
    | inl h ↦ Freed-IsTurn lane _ h
    | inr h ↦ HandedOn-IsTurn lane _ h
  ])
]
handle-IsTurn lane stop s = stopped-IsTurn lane s.unsettled
