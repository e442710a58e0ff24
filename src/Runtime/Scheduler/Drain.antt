-- ===== src/Runtime/Scheduler/Drain.antt =====
-- What the loop of `#drain` leaves alone: all but the queues, which only shrink, and the counters.
use contextctl.Common.{
  ℕ, suc, zero, ◌≤◌, ◌<◌, ◌≡◌, refl, ◌∙◌, ap, subst, none, some, Bool, List, [], ◌∷◌, ◌++◌, length,
  leb, arith, inl, inr, Bool-cases, Option-cases,
}
use contextctl.Runtime.Scheduler.{
  Scheduler, ScheduledEntry, SchedulerEffect, SchedulerTurn, SchedulerProfile, Priority, resolve,
  background, began,
}
use contextctl.Runtime.Scheduler
use contextctl.Runtime.Scheduler.Turns.{
  drain_loop, drain_round, admit, shift, shift_background, background_held, queued,
}

pub record Drains (s t : Scheduler) : Type 0 where
  pub profile : t.profile ≡ s.profile
  pub accepting : t.accepting ≡ s.accepting
  pub reservations : t.resolve_reservations ≡ s.resolve_reservations
  pub promotion : t.promotion ≡ s.promotion
  pub sample : t.sample ≡ s.sample
  pub lag : t.event_loop_lag_ms ≡ s.event_loop_lag_ms
  pub resolve_le : length t.resolve_queue ≤ length s.resolve_queue
  pub background_le : length t.background_queue ≤ length s.background_queue
  pub active_ge : s.active ≤ t.active
  pub active_le : s.active ≤ s.profile.concurrency → t.active ≤ s.profile.concurrency

pub Drains-refl : (s : Scheduler) → Drains s s
Drains-refl s = record {
  profile = refl;
  accepting = refl;
  reservations = refl;
  promotion = refl;
  sample = refl;
  lag = refl;
  resolve_le = omega arith;
  background_le = omega arith;
  active_ge = omega arith;
  active_le = λ h. h;
}

Drains-trans : (s t u : Scheduler) → Drains s t → Drains t u → Drains s u
Drains-trans s t u a b = record {
  profile = b.profile ∙ a.profile;
  accepting = b.accepting ∙ a.accepting;
  reservations = b.reservations ∙ a.reservations;
  promotion = b.promotion ∙ a.promotion;
  sample = b.sample ∙ a.sample;
  lag = b.lag ∙ a.lag;
  resolve_le = omega (arith, a.resolve_le, b.resolve_le);
  background_le = omega (arith, a.background_le, b.background_le);
  active_ge = omega (arith, a.active_ge, b.active_ge);
  active_le = λ h. rw (a.profile) at (b.active_le (rw (a.profile) (a.active_le h)));
}

begin-Drains :
    (s : Scheduler) (priority : Priority) (task : ℕ)
    → s.active < s.profile.concurrency
    → Drains s (Scheduler.begin s priority task).0
unfolding Scheduler.begin
begin-Drains s resolve task h = record {
  profile = refl;
  accepting = refl;
  reservations = refl;
  promotion = refl;
  sample = refl;
  lag = refl;
  resolve_le = omega arith;
  background_le = omega arith;
  active_ge = omega arith;
  active_le = λ _. omega arith;
}
begin-Drains s background task h = record {
  profile = refl;
  accepting = refl;
  reservations = refl;
  promotion = refl;
  sample = refl;
  lag = refl;
  resolve_le = omega arith;
  background_le = omega arith;
  active_ge = omega arith;
  active_le = λ _. omega arith;
}

admit-Drains :
    (aborted : ℕ → Bool) (entry : ScheduledEntry) (s : Scheduler)
    → s.active < s.profile.concurrency
    → Drains s (admit aborted entry s).0
unfolding admit
admit-Drains aborted entry s h = elim (Bool-cases entry.settled) [
  | inl e ↦ rw e (Drains-refl s)
  | inr e ↦ elim (Bool-cases (aborted entry.task)) [
    | inl g ↦ rw (e, g) (Drains-refl s)
    | inr g ↦ rw (e, g) (begin-Drains s entry.priority entry.task h)
  ]
]

begin-queued :
    (s : Scheduler) (priority : Priority) (task : ℕ)
    → queued (Scheduler.begin s priority task).0 ≡ queued s
unfolding Scheduler.begin
begin-queued s resolve task = refl
begin-queued s background task = refl

admit-queued :
    (aborted : ℕ → Bool) (entry : ScheduledEntry) (s : Scheduler)
    → queued (admit aborted entry s).0 ≡ queued s
unfolding admit
admit-queued aborted entry s = elim (Bool-cases entry.settled) [
  | inl e ↦ rw e refl
  | inr e ↦ elim (Bool-cases (aborted entry.task)) [
    | inl g ↦ rw (e, g) refl
    | inr g ↦ rw (e, g) (begin-queued s entry.priority entry.task)
  ]
]

-- The entry that the next round takes leaves its queue.
shift-Drains :
    (s : Scheduler) (entry : ScheduledEntry) (t : Scheduler)
    → shift s s.resolve_queue ≡ some (entry, t)
    → Drains s t × (suc (queued t) ≡ queued s) × (t.active ≡ s.active)
shift-Drains s entry t h = go s.resolve_queue refl h
  where
    taken :
        (pair target : ScheduledEntry × Scheduler)
        → some pair ≡ some target
        → Drains s pair.1 × (suc (queued pair.1) ≡ queued s) × (pair.1.active ≡ s.active)
        → Drains s target.1 × (suc (queued target.1) ≡ queued s) × (target.1.active ≡ s.active)
    taken pair target e d =
        let same : pair ≡ target = cc in
        subst (λ x. Drains s x.1 × (suc (queued x.1) ≡ queued s) × (x.1.active ≡ s.active)) same d

    behind :
        (queue : List ScheduledEntry)
        → s.background_queue ≡ queue
        → shift_background s queue ≡ some (entry, t)
        → Drains s t × (suc (queued t) ≡ queued s) × (t.active ≡ s.active)
    behind [] q h =
        let taken_entry : ScheduledEntry × Scheduler = (entry, t) in
        absurd (let e : none ≡ some taken_entry = h in cc)
    behind (first ∷ queue) q h =
        taken (first, record s { background_queue = queue }) (entry, t) h
          (
            record {
              profile = refl;
              accepting = refl;
              reservations = refl;
              promotion = refl;
              sample = refl;
              lag = refl;
              resolve_le = omega arith;
              background_le = omega (arith, ap length q);
              active_ge = omega arith;
              active_le = λ h. h;
            },
            omega (arith, ap length q),
            refl,
          )

    go :
        (queue : List ScheduledEntry)
        → s.resolve_queue ≡ queue
        → shift s queue ≡ some (entry, t)
        → Drains s t × (suc (queued t) ≡ queued s) × (t.active ≡ s.active)
    go (first ∷ queue) q h =
        taken (first, record s { resolve_queue = queue }) (entry, t) h
          (
            record {
              profile = refl;
              accepting = refl;
              reservations = refl;
              promotion = refl;
              sample = refl;
              lag = refl;
              resolve_le = omega (arith, ap length q);
              background_le = omega arith;
              active_ge = omega arith;
              active_le = λ h. h;
            },
            omega (arith, ap length q),
            refl,
          )
    go [] q h = elim (Bool-cases (background_held s)) [
      | inl e ↦
          let taken_entry : ScheduledEntry × Scheduler = (entry, t) in
          absurd (let e' : none ≡ some taken_entry = rw e at h in cc)
      | inr e ↦ behind s.background_queue refl (rw e at h)
    ]

pub round-Drains :
    (aborted : ℕ → Bool) (s : Scheduler) (turn : SchedulerTurn)
    → drain_round aborted s ≡ some turn
    → Drains s turn.0 × (suc (queued turn.0) ≡ queued s)
unfolding drain_round
round-Drains aborted s turn h = elim (Bool-cases (leb s.profile.concurrency s.active)) [
  | inl e ↦ ground arith
  | inr e ↦ elim (Option-cases (shift s s.resolve_queue)) [
    | inl g ↦ absurd (let e : none ≡ some turn = rw (e, g) at h in cc)
    | inr ((entry, t), g) ↦
        let e' : some (admit aborted entry t) ≡ some turn = rw (e, g) at h in
        let same : admit aborted entry t ≡ turn = cc in
        let (d, q, a) = shift-Drains s entry t g in
        let d' : Drains t (admit aborted entry t).0 =
          admit-Drains aborted entry t (rw (d.profile) (ground arith)) in
        subst (λ x. Drains s x.0 × (suc (queued x.0) ≡ queued s)) same
          (Drains-trans s t _ d d', omega (arith, admit-queued aborted entry t))
  ]
]

pub loop-stops :
    (fuel : ℕ) (aborted : ℕ → Bool) (s : Scheduler)
    → drain_round aborted s ≡ none
    → drain_loop fuel aborted s ≡ (s, [])
unfolding drain_loop
loop-stops zero aborted s e = refl
loop-stops (suc fuel) aborted s e = rw (drain_loop, e) refl

pub loop-goes :
    (fuel : ℕ) (aborted : ℕ → Bool) (s : Scheduler) (turn : SchedulerTurn)
    → drain_round aborted s ≡ some turn
    → drain_loop (suc fuel) aborted s
      ≡ ((drain_loop fuel aborted turn.0).0, turn.1 ++ (drain_loop fuel aborted turn.0).1)
unfolding drain_loop
loop-goes fuel aborted s turn e = rw (drain_loop, e) refl

pub loop-Drains :
    (fuel : ℕ) (aborted : ℕ → Bool) (s : Scheduler) → Drains s (drain_loop fuel aborted s).0
unfolding drain_loop
loop-Drains zero aborted s = Drains-refl s
loop-Drains (suc fuel) aborted s = elim (Option-cases (drain_round aborted s)) [
  | inl e ↦ rw (loop-stops (suc fuel) aborted s e) (Drains-refl s)
  | inr (turn, e) ↦
      rw (loop-goes fuel aborted s turn e) (
        Drains-trans s turn.0 _ (round-Drains aborted s turn e).0 (loop-Drains fuel aborted turn.0))
]
