-- ===== src/Runtime/Scheduler/Drained.antt =====
-- What every call of the scheduler keeps, and that the drain restores it.
use contextctl.Common.{
  ℕ, ◌+◌, ◌≤◌, ◌<◌, ◌≡◌, ◌∙◌, ap, sym, Bool, true, false, length, arith, ◌⊎◌, inl, inr,
}
use contextctl.Runtime.Scheduler.{
  Scheduler, ScheduledEntry, SchedulerTurn, SchedulerProfile, Priority, resolve, background,
  is_armed,
}
use contextctl.Runtime.Scheduler
use contextctl.Runtime.Scheduler.Turns.{drain, background_held}
use contextctl.Runtime.Scheduler.Drain.{Drains}
use contextctl.Runtime.Scheduler.Stuck.{IsStuck, drain-IsStuck, drain-Drains}

pub record IsSound (profile : SchedulerProfile) (s : Scheduler) : Type 0 where
  pub kept : s.profile ≡ profile
  pub bounded : s.active ≤ profile.concurrency
  pub resolve_room : length s.resolve_queue ≤ profile.resolve_queue_depth
  pub background_room : length s.background_queue ≤ profile.background_queue_depth
  pub resolve_first : 0 < length s.resolve_queue → s.active ≡ profile.concurrency
  pub closed : s.accepting ≡ false → length s.resolve_queue + length s.background_queue ≡ 0
  pub monitored :
      s.accepting ≡ true
      → Scheduler.background_starts_suppressed s ≡ true
      → is_armed s.sample ≡ true
  pub awake :
      0 < length s.background_queue
      → Scheduler.background_starts_suppressed s ≡ false
      → (is_armed s.promotion ≡ true) ⊎ (0 < s.active) ⊎ (0 < s.resolve_reservations)

-- What a turn may change before it drains.
pub record IsDrainable (profile : SchedulerProfile) (s : Scheduler) : Type 0 where
  pub kept : s.profile ≡ profile
  pub bounded : s.active ≤ profile.concurrency
  pub resolve_room : length s.resolve_queue ≤ profile.resolve_queue_depth
  pub background_room : length s.background_queue ≤ profile.background_queue_depth

pub record IsDrained (profile : SchedulerProfile) (s : Scheduler) : Type 0 where
  pub kept : s.profile ≡ profile
  pub bounded : s.active ≤ profile.concurrency
  pub resolve_room : length s.resolve_queue ≤ profile.resolve_queue_depth
  pub background_room : length s.background_queue ≤ profile.background_queue_depth
  pub resolve_first : 0 < length s.resolve_queue → s.active ≡ profile.concurrency
  pub awake :
      0 < length s.background_queue
      → Scheduler.background_starts_suppressed s ≡ false
      → (is_armed s.promotion ≡ true) ⊎ (0 < s.active) ⊎ (0 < s.resolve_reservations)

pub drain-IsDrained :
    (profile : SchedulerProfile) (aborted : ℕ → Bool) (s : Scheduler)
    → 0 < profile.concurrency
    → s.accepting ≡ true
    → IsDrainable profile s
    → IsDrained profile (drain aborted s).0
unfolding background_held
drain-IsDrained profile aborted s positive a p =
    let d : Drains s (drain aborted s).0 = drain-Drains aborted s in
    let e : IsStuck (drain aborted s).0 = drain-IsStuck aborted s a in
    let k : (drain aborted s).0.profile ≡ profile = d.profile ∙ p.kept in
    let b : (drain aborted s).0.active ≤ profile.concurrency = omega (
      arith,
      ap (λ x. x.concurrency) p.kept,
      d.active_le (omega (arith, ap (λ x. x.concurrency) p.kept, p.bounded)),
    ) in
    let c : (drain aborted s).0.profile.concurrency ≡ profile.concurrency =
      ap (λ x. x.concurrency) k in
    record {
      kept = k;
      bounded = b;
      resolve_room = omega (arith, d.resolve_le, p.resolve_room);
      background_room = omega (arith, d.background_le, p.background_room);
      resolve_first = λ h. omega (arith, e.resolve_waits h);
      awake = λ w n. elim (e.background_waits w) [
        | inl full ↦ inr (inl (omega arith))
        | inr held ↦ ground arith
      ];
    }

-- A turn that ends with a drain of an accepting scheduler.
pub drain-IsSound :
    (aborted : ℕ → Bool) (s : Scheduler)
    → 0 < s.profile.concurrency
    → s.accepting ≡ true
    → IsDrainable s.profile s
    → (Scheduler.background_starts_suppressed s ≡ true → is_armed s.sample ≡ true)
    → IsSound s.profile (drain aborted s).0
unfolding Scheduler.background_starts_suppressed
drain-IsSound aborted s positive a p m =
    let d : Drains s (drain aborted s).0 = drain-Drains aborted s in
    let q : IsDrained s.profile (drain aborted s).0 =
      drain-IsDrained s.profile aborted s positive a p in
    record {
      kept = q.kept;
      bounded = q.bounded;
      resolve_room = q.resolve_room;
      background_room = q.background_room;
      resolve_first = q.resolve_first;
      closed = λ h. absurd (let e : true ≡ false = sym a ∙ sym d.accepting ∙ h in cc);
      monitored = λ _ h. rw (d.sample) (m (rw (d.profile, d.lag) at h));
      awake = q.awake;
    }
