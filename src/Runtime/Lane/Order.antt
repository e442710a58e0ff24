-- ===== src/Runtime/Lane/Order.antt =====
-- One turn of the lane: what becomes of a submission and of a slot that is free again, and that the
-- lane stays sound.
use contextctl.Common.{
  ℕ, suc, ◌-◌, ◌≤◌, ◌<◌, ◌≡◌, refl, Bool, true, false, List, [], ◌∷◌, ◌++◌, length, nat_eq, leb,
  ltb, arith, ap, sym, ◌∙◌, length-append, All, All-append, ◌⊎◌, inl, inr, Bool-cases,
}
use contextctl.Runtime.Lane.{
  QueuedEntry, AdmissionLane, LaneEffect, LaneEvent, LaneRun, Turn, started, submit, abort,
  task_done, stop,
}
use contextctl.Runtime.Lane

pub record IsSound (concurrency queue_depth : ℕ) (lane : AdmissionLane) : Type 0 where
  pub width : lane.concurrency ≡ concurrency
  pub depth : lane.queue_depth ≡ queue_depth
  pub bounded : lane.active ≤ concurrency
  pub room : length lane.queue ≤ queue_depth
  pub unsettled : All (λ entry. entry.settled ≡ false) lane.queue
  pub busy : 0 < length lane.queue → lane.active ≡ concurrency
  pub closed : lane.accepting ≡ false → length lane.queue ≡ 0

length-remove_queued :
    (task : ℕ) (queue : List QueuedEntry) → length (Lane.remove_queued task queue) ≤ length queue
unfolding Lane.remove_queued
length-remove_queued task [] = omega arith
length-remove_queued task (entry ∷ queue) = ground (arith, length-remove_queued task queue)

All-remove_queued :
    (P : QueuedEntry → Type 0) (task : ℕ) (queue : List QueuedEntry)
    → All P queue
    → All P (Lane.remove_queued task queue)
unfolding Lane.remove_queued
All-remove_queued P task [] h = tt
All-remove_queued P task (entry ∷ queue) h = elim (Bool-cases (nat_eq entry.task task)) [
  | inl e ↦ rw e h.1
  | inr e ↦ rw e (h.0, All-remove_queued P task queue h.1)
]

unfoldable pub is_start : LaneEffect → Bool
is_start (started task) = true
is_start _ = false

unfoldable pub effect_task : LaneEffect → ℕ
effect_task (started task) = task
effect_task (Lane.lane_closed task) = task
effect_task (Lane.lane_cancelled task) = task
effect_task (Lane.lane_overloaded task _ _) = task

-- The three states that a submission can land in.
abbrev pub Refused : AdmissionLane → ℕ → Turn → Type 0
Refused lane task turn =
    (effect : LaneEffect) × (turn.0 ≡ lane)
    × (turn.1 ≡ effect ∷ [])
    × (is_start effect ≡ false)
    × (effect_task effect ≡ task)

abbrev pub Started : AdmissionLane → ℕ → Turn → Type 0
Started lane task turn =
    (lane.accepting ≡ true) × (lane.active < lane.concurrency) × (turn ≡ Lane.start lane task)

abbrev pub Queued : AdmissionLane → ℕ → Turn → Type 0
Queued lane task turn =
    (lane.accepting ≡ true)
    × (lane.concurrency ≤ lane.active)
    × (length lane.queue < lane.queue_depth)
    × (turn.0 ≡ record lane { queue = lane.queue ++ record { task = task; settled = false } ∷ [] })
    × (turn.1 ≡ [])

pub run-cases :
    (lane : AdmissionLane) (task : ℕ) (aborted aborted_since : Bool) (turn : Turn)
    → turn ≡ Lane.run lane task aborted aborted_since
    → Refused lane task turn ⊎ Started lane task turn ⊎ Queued lane task turn
unfolding Lane.run is_start effect_task
run-cases lane task aborted aborted_since turn e = elim (Bool-cases lane.accepting) [
  | inr a ↦ inl (Lane.lane_closed task, rw (e, a) refl, rw (e, a) refl, refl, refl)
  | inl a ↦ elim (Bool-cases aborted) [
    | inl b ↦ inl (Lane.lane_cancelled task, rw (e, a, b) refl, rw (e, a, b) refl, refl, refl)
    | inr b ↦ elim (Bool-cases (ltb lane.active lane.concurrency)) [
      | inl c ↦ inr (inl (a, ground arith, rw (e, a, b, c) refl))
      | inr c ↦ elim (Bool-cases (leb lane.queue_depth (length lane.queue))) [
        | inl d ↦ inl (
          Lane.lane_overloaded task lane.active (length lane.queue),
          rw (e, a, b, c, d) refl,
          rw (e, a, b, c, d) refl,
          refl,
          refl,
        )
        | inr d ↦ elim (Bool-cases aborted_since) [
          | inl g ↦ inl (
            Lane.lane_cancelled task,
            rw (e, a, b, c, d, g) refl,
            rw (e, a, b, c, d, g) refl,
            refl,
            refl,
          )
          | inr g ↦ inr (
              inr (
                a,
                ground arith,
                ground arith,
                rw (e, a, b, c, d, g) refl,
                rw (e, a, b, c, d, g) refl,
              ))
        ]
      ]
    ]
  ]
]

abbrev pub Freed : AdmissionLane → Turn → Type 0
Freed lane turn =
    (lane.queue ≡ []) × (turn.0 ≡ record lane { active = lane.active - 1 }) × (turn.1 ≡ [])

abbrev pub HandedOn : AdmissionLane → Turn → Type 0
HandedOn lane turn =
    (entry : QueuedEntry) × (queue : List QueuedEntry) × (lane.queue ≡ entry ∷ queue)
    × (turn.0 ≡ record lane { active = suc (lane.active - 1); queue = queue })
    × (turn.1 ≡ started entry.task ∷ [])

module _ {concurrency queue_depth : ℕ} where
  run-IsSound :
      (lane : AdmissionLane) (task : ℕ) (aborted aborted_since : Bool)
      → IsSound concurrency queue_depth lane
      → IsSound concurrency queue_depth (Lane.run lane task aborted aborted_since).0
  unfolding Lane.start
  run-IsSound lane task aborted aborted_since s =
      let entry : QueuedEntry = record { task = task; settled = false } in
      elim (run-cases lane task aborted aborted_since _ refl) [
        | inl (_, e, _, _, _) ↦ rw e s
        | inr (inl (_, c, e)) ↦ rw e (record {
          width = s.width;
          depth = s.depth;
          bounded = ground (arith, s.width);
          room = s.room;
          unsettled = s.unsettled;
          busy = ground (arith, s.bounded, s.busy, s.width);
          closed = s.closed;
        })
        | inr (inr (a, c, d, e, _)) ↦ rw e (record {
          width = s.width;
          depth = s.depth;
          bounded = s.bounded;
          room = omega (arith, s.depth, d, length-append lane.queue (entry ∷ []));
          unsettled = All-append _ lane.queue _ s.unsettled (refl, tt);
          busy = ground (arith, s.bounded, s.width);
          closed = ground arith;
        })
      ]

  on_abort-IsSound :
      (lane : AdmissionLane) (task : ℕ)
      → IsSound concurrency queue_depth lane
      → IsSound concurrency queue_depth (Lane.on_abort lane task).0
  unfolding Lane.on_abort
  on_abort-IsSound lane task s = elim (Bool-cases (Lane.is_waiting task lane.queue)) [
    | inr e ↦ rw e s
    | inl e ↦ rw e (record {
      width = s.width;
      depth = s.depth;
      bounded = s.bounded;
      room = omega (arith, s.room, length-remove_queued task lane.queue);
      unsettled = All-remove_queued _ task lane.queue s.unsettled;
      busy = λ h. s.busy (omega (arith, length-remove_queued task lane.queue));
      closed = λ h. omega (arith, s.closed h, length-remove_queued task lane.queue);
    })
  ]

  pub finish-cases :
      (lane : AdmissionLane)
      → 0 < lane.active
      → IsSound concurrency queue_depth lane
      → (turn : Turn) → turn ≡ Lane.finish lane
      → Freed lane turn ⊎ HandedOn lane turn
  unfolding Lane.finish Lane.drain_one Lane.take_next Lane.start
  finish-cases lane running s turn e = split lane.queue refl
    where
      emptied :
          lane.queue ≡ []
          → turn.0 ≡ record lane { active = lane.active - 1; queue = [] }
          → turn.0 ≡ record lane { active = lane.active - 1 }
      emptied q h = h ∙ ap (λ x. record lane { active = lane.active - 1; queue = x }) (sym q)

      split : (queue : List QueuedEntry) → lane.queue ≡ queue → Freed lane turn ⊎ HandedOn lane turn
      split [] q = inl (elim (Bool-cases lane.accepting) [
        | inr a ↦ (q, rw (e, a) refl, rw (e, a) refl)
        | inl a ↦ elim (Bool-cases (leb lane.concurrency (lane.active - 1))) [
          | inl b ↦ (q, rw (e, a, b) refl, rw (e, a, b) refl)
          | inr b ↦ (q, emptied q (rw (e, a, b, q) refl), rw (e, a, b, q) refl)
        ]
      ])
      split (entry ∷ queue) q =
          let waits : All (λ x. x.settled ≡ false) (entry ∷ queue) = rw q at s.unsettled in
          let a : lane.accepting ≡ true = ground (arith, s.closed) in
          let b : leb lane.concurrency (lane.active - 1) ≡ false =
            ground (arith, s.busy, s.width) in
          let c : entry.settled ≡ false = waits.0 in
          inr (entry, queue, q, rw (e, a, b, q, c) refl, rw (e, a, b, q, c) refl)

  finish-IsSound :
      (lane : AdmissionLane)
      → 0 < lane.active
      → IsSound concurrency queue_depth lane
      → IsSound concurrency queue_depth (Lane.finish lane).0
  finish-IsSound lane running s = elim (finish-cases lane running s _ refl) [
    | inl (q, e, _) ↦ rw e (record {
      width = s.width;
      depth = s.depth;
      bounded = omega (arith, s.bounded);
      room = s.room;
      unsettled = s.unsettled;
      busy = ground (arith, ap length q);
      closed = s.closed;
    })
    | inr (entry, queue, q, e, _) ↦
        let waits : All (λ x. x.settled ≡ false) (entry ∷ queue) = rw q at s.unsettled in
        let size : length lane.queue ≡ suc (length queue) = ap length q in
        rw e (record {
          width = s.width;
          depth = s.depth;
          bounded = omega (arith, s.bounded);
          room = omega (arith, s.room);
          unsettled = waits.1;
          busy = λ h. omega (arith, s.busy (omega arith));
          closed = λ h. omega (arith, s.closed h);
        })
  ]

  pub handle-IsSound :
      (lane : AdmissionLane) (event : LaneEvent)
      → IsSound concurrency queue_depth lane
      → IsSound concurrency queue_depth (Lane.handle lane event).0
  unfolding Lane.handle Lane.stop_accepting
  handle-IsSound lane (submit task aborted aborted_since) s =
      run-IsSound lane task aborted aborted_since s
  handle-IsSound lane (abort task) s = on_abort-IsSound lane task s
  handle-IsSound lane task_done s = elim (Bool-cases (nat_eq lane.active 0)) [
    | inl e ↦ rw e s
    | inr e ↦ rw e (finish-IsSound lane (ground arith) s)
  ]
  handle-IsSound lane stop s = record {
    width = s.width;
    depth = s.depth;
    bounded = s.bounded;
    room = omega arith;
    unsettled = tt;
    busy = λ h. ground arith;
    closed = λ h. refl;
  }
