-- ===== src/Runtime/Scheduler/Progress.antt =====
-- The scheduler over every sequence of events: bounded, Resolve first, and no accepted background
-- work that nothing would ever start.
use contextctl.Common.{
  ℕ, ◌+◌, ◌-◌, ◌<◌, ◌≡◌, refl, ◌∙◌, ap, sym, subst, Option, none, some, Bool, true, false, List, [],
  ◌∷◌, length, ltb, nat_eq, arith, ◌⊎◌, inl, inr, Bool-cases, Option-cases, if◌then◌else◌, not,
  String, ok, drop, ◌==◌, string_instance,
}
use contextctl.Runtime.Scheduler.{
  Scheduler, SchedulerProfile, Priority, resolve, background, is_armed,
}
use contextctl.Runtime.Scheduler
use contextctl.Runtime.Scheduler.Turns.{
  SchedulerEvent, monitor, submit, abort, enter_scope, leave_scope, stop, work_done, promote,
  take_sample, drain,
}
use contextctl.Runtime.Scheduler.Turns
use contextctl.Runtime.Scheduler.Stuck.{drain-Drains, drain_of_accepting}
use contextctl.Runtime.Scheduler.Drained.{
  IsSound, IsDrainable, drain-IsSound, IsDrained, drain-IsDrained,
}
use contextctl.Runtime.Scheduler.Soundness

-- The drain of a turn, whether the scheduler accepts work or is closed.
settle-IsSound :
    (aborted : ℕ → Bool) (s : Scheduler)
    → 0 < s.profile.concurrency
    → IsDrainable s.profile s
    → (s.accepting ≡ false → length s.resolve_queue + length s.background_queue ≡ 0)
    → (s.accepting ≡ true
        → Scheduler.background_starts_suppressed s ≡ true
        → is_armed s.sample ≡ true)
    → IsSound s.profile (drain aborted s).0
settle-IsSound aborted s positive p c m = elim (Bool-cases s.accepting) [
  | inl a ↦ drain-IsSound aborted s positive a p (m a)
  | inr a ↦ rw (drain_of_accepting aborted s false a) (record {
    kept = refl;
    bounded = p.bounded;
    resolve_room = p.resolve_room;
    background_room = p.background_room;
    resolve_first = λ w. absurd (omega (arith, c a));
    closed = c;
    monitored = m;
    awake = λ w. absurd (omega (arith, c a));
  })
]

abbrev sampled : Scheduler → (expected_at clock rss : ℕ) → Scheduler
sampled s expected_at clock rss = record s {
  sample = none;
  event_loop_lag_ms = clock - expected_at;
  rss_bytes = rss;
}

-- A sample that is armed after the drain keeps what the drain leaves.
resample-IsSound :
    (profile : SchedulerProfile) (t : Scheduler) (clock : ℕ)
    → t.accepting ≡ true
    → IsDrained profile t
    → IsSound profile (Scheduler.schedule_sample t clock)
unfolding Scheduler.schedule_sample Scheduler.background_starts_suppressed
resample-IsSound profile t clock a q = record {
  kept = q.kept;
  bounded = q.bounded;
  resolve_room = q.resolve_room;
  background_room = q.background_room;
  resolve_first = q.resolve_first;
  closed = λ b. absurd (let e : true ≡ false = sym a ∙ b in cc);
  monitored = λ _ _. refl;
  awake = q.awake;
}

sample_due_of :
    (aborted : ℕ → Bool) (s : Scheduler) (expected_at clock rss clock_after : ℕ) (b : Bool)
    → s.accepting ≡ b
    → Turns.sample_due aborted s expected_at clock rss clock_after ≡ (
        if not b then (record s { sample = none }, []) else (
          Scheduler.schedule_sample (drain aborted (sampled s expected_at clock rss)).0 clock_after,
          (drain aborted (sampled s expected_at clock rss)).1,
        ))
unfolding Turns.sample_due
sample_due_of aborted s expected_at clock rss clock_after b a =
    ap
      (λ x. if not x then (record s { sample = none }, []) else (
        Scheduler.schedule_sample (drain aborted (sampled s expected_at clock rss)).0 clock_after,
        (drain aborted (sampled s expected_at clock rss)).1,
      ))
      a

module _ (s : Scheduler) (positive : 0 < s.profile.concurrency) (h : IsSound s.profile s) where
  promote-IsSound : (aborted : ℕ → Bool) → IsSound s.profile (Turns.handle s (promote aborted)).0
  unfolding Turns.handle Turns.promotion_due Scheduler.background_starts_suppressed
  promote-IsSound aborted = elim (Bool-cases (is_armed s.promotion)) [
    | inr e ↦ rw e h
    | inl e ↦ rw e (
        settle-IsSound aborted (record s { promotion = none }) positive
          (record {
            kept = refl;
            bounded = h.bounded;
            resolve_room = h.resolve_room;
            background_room = h.background_room;
          })
          h.closed h.monitored)
  ]

  finish-IsSound :
      (aborted : ℕ → Bool) (priority : Priority) (rss : ℕ)
      → IsSound s.profile (Turns.finish aborted s priority rss).0
  unfolding Turns.finish Scheduler.background_starts_suppressed Scheduler.schedule_promotion
  finish-IsSound aborted priority rss =
      let left : Scheduler = record s { active = s.active - 1; rss_bytes = rss } in
      elim (Bool-cases (ltb 0 (length s.resolve_queue))) [
        | inl e ↦ rw e (
            settle-IsSound aborted left positive
              (record {
                kept = refl;
                bounded = omega (arith, h.bounded);
                resolve_room = h.resolve_room;
                background_room = h.background_room;
              })
              h.closed h.monitored)
        | inr e ↦ rw e (record {
          kept = ground arith;
          bounded = ground (arith, h.bounded);
          resolve_room = ground (arith, h.resolve_room);
          background_room = ground (arith, h.background_room);
          resolve_first = ground arith;
          closed = ground (arith, h.closed);
          monitored = ground (arith, h.monitored);
          awake = ground (arith, h.closed);
        })
      ]

  work_done-IsSound :
      (aborted : ℕ → Bool) (priority : Priority) (rss : ℕ)
      → IsSound s.profile (Turns.handle s (work_done aborted priority rss)).0
  unfolding Turns.handle
  work_done-IsSound aborted priority rss = elim (Bool-cases (nat_eq s.active 0)) [
    | inl e ↦ rw e h
    | inr e ↦ rw e (finish-IsSound aborted priority rss)
  ]

  sample_due-IsSound :
      (aborted : ℕ → Bool) (expected_at clock rss clock_after : ℕ)
      → IsSound s.profile (Turns.sample_due aborted s expected_at clock rss clock_after).0
  sample_due-IsSound aborted expected_at clock rss clock_after = elim (Bool-cases s.accepting) [
    | inr a ↦ rw (sample_due_of aborted s expected_at clock rss clock_after false a) (record {
      kept = refl;
      bounded = h.bounded;
      resolve_room = h.resolve_room;
      background_room = h.background_room;
      resolve_first = h.resolve_first;
      closed = h.closed;
      monitored = λ b. absurd (let e : true ≡ false = sym b ∙ a in cc);
      awake = λ w. absurd (omega (arith, h.closed a));
    })
    | inl a ↦ rw (sample_due_of aborted s expected_at clock rss clock_after true a) (
        resample-IsSound s.profile _ clock_after
          ((drain-Drains aborted (sampled s expected_at clock rss)).accepting ∙ a)
          (drain-IsDrained s.profile aborted (sampled s expected_at clock rss) positive a (record {
            kept = refl;
            bounded = h.bounded;
            resolve_room = h.resolve_room;
            background_room = h.background_room;
          })))
  ]

  fire_sample-IsSound :
      (aborted : ℕ → Bool) (sample : Option ℕ) (clock rss clock_after : ℕ)
      → IsSound s.profile (Turns.fire_sample aborted s sample clock rss clock_after).0
  fire_sample-IsSound aborted none clock rss clock_after = h
  fire_sample-IsSound aborted (some expected_at) clock rss clock_after =
      sample_due-IsSound aborted expected_at clock rss clock_after

  pub handle-own : (event : SchedulerEvent) → IsSound s.profile (Turns.handle s event).0
  unfolding Turns.handle
  handle-own (monitor clock) = Soundness.monitor-IsSound s positive h clock
  handle-own (submit resolve task aborted aborted_since) =
      Soundness.submit_resolve-IsSound s positive h task aborted aborted_since
  handle-own (submit background task aborted aborted_since) =
      Soundness.submit_background-IsSound s positive h task aborted aborted_since
  handle-own (abort task) = Soundness.abort-IsSound s positive h task
  handle-own enter_scope = Soundness.enter_scope-IsSound s positive h
  handle-own leave_scope = Soundness.leave_scope-IsSound s positive h
  handle-own stop = Soundness.stop-IsSound s positive h
  handle-own (work_done aborted priority rss) = work_done-IsSound aborted priority rss
  handle-own (promote aborted) = promote-IsSound aborted
  handle-own (take_sample aborted clock rss clock_after) =
      fire_sample-IsSound aborted s.sample clock rss clock_after

handle_all-IsSound :
    (profile : SchedulerProfile) (s : Scheduler) (events : List SchedulerEvent)
    → 0 < profile.concurrency
    → IsSound profile s
    → IsSound profile (Turns.handle_all s events)
unfolding Turns.handle_all
handle_all-IsSound profile s [] positive h = h
handle_all-IsSound profile s (event ∷ events) positive h =
    let own : IsSound s.profile s = subst (λ p. IsSound p s) (sym h.kept) h in
    let next : IsSound s.profile (Turns.handle s event).0 =
      handle-own s (rw (h.kept) positive) own event in
    handle_all-IsSound profile (Turns.handle s event).0 events positive
      (subst (λ p. IsSound p (Turns.handle s event).0) h.kept next)

first_positive :
    (field : String) (value : ℕ) (rest : List (String × ℕ))
    → Scheduler.first_invalid ((field, value) ∷ rest) ≡ none
    → 0 < value
unfolding Scheduler.first_invalid
first_positive field value rest h = ground arith

assert-positive :
    (trim : String → String) (profile accepted : SchedulerProfile)
    → Scheduler.assert_profile trim profile ≡ ok accepted
    → 0 < profile.concurrency
unfolding Scheduler.assert_profile
assert-positive trim profile accepted h = elim (Bool-cases (trim profile.version == "")) [
  | inl e ↦ ground arith
  | inr e ↦ elim (Option-cases (Scheduler.first_invalid (Scheduler.limits profile))) [
    | inl g ↦ first_positive "concurrency" profile.concurrency (drop 1 (Scheduler.limits profile)) g
    | inr (field, g) ↦ ground arith
  ]
]

new-IsSound :
    (profile : SchedulerProfile) (rss : ℕ) → IsSound profile (Scheduler.new_scheduler profile rss)
unfolding Scheduler.new_scheduler Scheduler.background_starts_suppressed
new-IsSound profile rss = record {
  kept = refl;
  bounded = omega arith;
  resolve_room = omega arith;
  background_room = omega arith;
  resolve_first = λ h. ground arith;
  closed = λ h. omega arith;
  monitored = λ _ h. ground arith;
  awake = λ h. ground arith;
}

-- With a profile that its check accepts, over every sequence of calls, timers and results: the
-- scheduler keeps the profile, runs no more than its concurrency, holds no more than its two queue
-- depths, lets Resolve work wait only while every slot is taken, and holds nothing once it is closed.
pub schedule-IsSound :
    (trim : String → String) (profile accepted : SchedulerProfile) (rss : ℕ)
    (events : List SchedulerEvent)
    → Scheduler.assert_profile trim profile ≡ ok accepted
    → IsSound profile (Turns.handle_all (Scheduler.new_scheduler profile rss) events)
schedule-IsSound trim profile accepted rss events h =
    handle_all-IsSound profile _ events (assert-positive trim profile accepted h)
      (new-IsSound profile rss)

-- With a profile that its check accepts, over every sequence of events: while the scheduler accepts
-- work and background work waits, a promotion timer is armed, or some work runs, or a Resolve scope
-- is held, or the event loop is delayed and the next sample is armed.
pub schedule-wakes :
    (trim : String → String) (profile accepted : SchedulerProfile) (rss : ℕ)
    (events : List SchedulerEvent)
    → Scheduler.assert_profile trim profile ≡ ok accepted
    → let s : Scheduler = Turns.handle_all (Scheduler.new_scheduler profile rss) events in
      s.accepting ≡ true
      → 0 < length s.background_queue
      → (is_armed s.promotion ≡ true)
        ⊎ (0 < s.active)
        ⊎ (0 < s.resolve_reservations)
        ⊎ (Scheduler.background_starts_suppressed s ≡ true) × (is_armed s.sample ≡ true)
schedule-wakes trim profile accepted rss events h a w =
    let s : Scheduler = Turns.handle_all (Scheduler.new_scheduler profile rss) events in
    let sound : IsSound profile s = schedule-IsSound trim profile accepted rss events h in
    elim (Bool-cases (Scheduler.background_starts_suppressed s)) [
      | inl d ↦ inr (inr (inr (d, sound.monitored a d)))
      | inr d ↦ elim (sound.awake w d) [
        | inl x ↦ inl x
        | inr (inl x) ↦ inr (inl x)
        | inr (inr x) ↦ inr (inr (inl x))
      ]
    ]
