-- ===== src/Runtime/Scheduler/Stuck.antt =====
-- The loop of `#drain` ends within the fuel of the two queues, and only when nothing more may start.
use contextctl.Common.{
  ℕ, suc, zero, ◌≤◌, ◌<◌, ◌≡◌, refl, sym, not, ap, subst, none, some, Bool, true, false, List, [],
  ◌∷◌, length, leb, arith, ◌⊎◌, inl, inr, Bool-cases, Option-cases, if◌then◌else◌,
}
use contextctl.Runtime.Scheduler.{Scheduler, ScheduledEntry}
use contextctl.Runtime.Scheduler.Turns.{
  drain_loop, drain_round, drain, admit, shift, shift_background, background_held, queued,
}
use contextctl.Runtime.Scheduler.Drain.{
  Drains, Drains-refl, round-Drains, loop-stops, loop-goes, loop-Drains,
}

no_shift :
    (s : Scheduler) (queue : List ScheduledEntry)
    → length queue ≡ 0
    → length s.background_queue ≡ 0
    → shift s queue ≡ none
no_shift s (first ∷ queue) h b = ground arith
no_shift s [] h b = elim (Bool-cases (background_held s)) [
  | inl e ↦ rw e refl
  | inr e ↦ rw e (behind s.background_queue b)
]
  where
    behind : (queue : List ScheduledEntry) → length queue ≡ 0 → shift_background s queue ≡ none
    behind [] b = refl
    behind (first ∷ queue) b = ground arith

empty_round : (aborted : ℕ → Bool) (s : Scheduler) → queued s ≡ 0 → drain_round aborted s ≡ none
unfolding drain_round
empty_round aborted s h = elim (Bool-cases (leb s.profile.concurrency s.active)) [
  | inl e ↦ rw e refl
  | inr e ↦ rw (e, no_shift s s.resolve_queue (omega arith) (omega arith)) refl
]

loop-ends :
    (fuel : ℕ) (aborted : ℕ → Bool) (s : Scheduler)
    → queued s ≤ fuel
    → drain_round aborted (drain_loop fuel aborted s).0 ≡ none
unfolding drain_loop
loop-ends zero aborted s h = empty_round aborted s (omega arith)
loop-ends (suc fuel) aborted s h = elim (Option-cases (drain_round aborted s)) [
  | inl e ↦ subst (λ x. drain_round aborted x.0 ≡ none) (sym (loop-stops (suc fuel) aborted s e)) e
  | inr (turn, e) ↦
      let q = (round-Drains aborted s turn e).1 in
      subst (λ x. drain_round aborted x.0 ≡ none) (sym (loop-goes fuel aborted s turn e))
        (loop-ends fuel aborted turn.0 (omega arith))
]

-- A loop that has ended has every slot taken, or no Resolve work and the background queue empty or held.
pub record IsStuck (s : Scheduler) : Type 0 where
  pub resolve_waits : 0 < length s.resolve_queue → s.profile.concurrency ≤ s.active
  pub background_waits :
      0 < length s.background_queue
      → (s.profile.concurrency ≤ s.active) ⊎ (background_held s ≡ true)

opened :
    (aborted : ℕ → Bool) (s : Scheduler)
    → drain_round aborted s ≡ none
    → (s.profile.concurrency ≤ s.active) ⊎ (shift s s.resolve_queue ≡ none)
unfolding drain_round
opened aborted s h = elim (Bool-cases (leb s.profile.concurrency s.active)) [
  | inl e ↦ inl (ground arith)
  | inr e ↦ elim (Option-cases (shift s s.resolve_queue)) [
    | inl g ↦ inr g
    | inr (next, g) ↦
        absurd (let e : some (admit aborted next.0 next.1) ≡ none = rw (e, g) at h in cc)
  ]
]

empty_shift :
    (s : Scheduler) (queue : List ScheduledEntry)
    → shift s queue ≡ none
    → (length queue ≡ 0) × ((background_held s ≡ true) ⊎ (length s.background_queue ≡ 0))
empty_shift s (first ∷ queue) h = absurd (let e : some (first, _) ≡ none = h in cc)
empty_shift s [] h = (
  refl,
  elim (Bool-cases (background_held s)) [
    | inl e ↦ inl e
    | inr e ↦ inr (behind s.background_queue (rw e at h))
  ],
)
  where
    behind : (queue : List ScheduledEntry) → shift_background s queue ≡ none → length queue ≡ 0
    behind [] h = refl
    behind (first ∷ queue) h = absurd (let e : some (first, _) ≡ none = h in cc)

ended-IsStuck : (aborted : ℕ → Bool) (s : Scheduler) → drain_round aborted s ≡ none → IsStuck s
ended-IsStuck aborted s h = elim (opened aborted s h) [
  | inl e ↦ record { resolve_waits = λ _. e; background_waits = λ _. inl e }
  | inr e ↦
      let (a, b) = empty_shift s s.resolve_queue e in
      record { resolve_waits = ground arith; background_waits = ground arith }
]

pub drain_of_accepting :
    (aborted : ℕ → Bool) (s : Scheduler) (b : Bool)
    → s.accepting ≡ b
    → drain aborted s ≡ (if not b then (s, []) else drain_loop (queued s) aborted s)
unfolding drain
drain_of_accepting aborted s b h =
    ap (λ x. if not x then (s, []) else drain_loop (queued s) aborted s) h

-- The drain leaves the scheduler stuck.
pub drain-IsStuck :
    (aborted : ℕ → Bool) (s : Scheduler) → s.accepting ≡ true → IsStuck (drain aborted s).0
drain-IsStuck aborted s h =
    rw (drain_of_accepting aborted s true h)
      (ended-IsStuck aborted _ (loop-ends (queued s) aborted s (omega arith)))

pub drain-Drains : (aborted : ℕ → Bool) (s : Scheduler) → Drains s (drain aborted s).0
drain-Drains aborted s = elim (Bool-cases s.accepting) [
  | inl e ↦ rw (drain_of_accepting aborted s true e) (loop-Drains (queued s) aborted s)
  | inr e ↦ rw (drain_of_accepting aborted s false e) (Drains-refl s)
]
