-- ===== src/Runtime/Deadline/Budget.antt =====
-- deadline.ts: what the allowances of the stages leave for the answer.
use contextctl.Common.{ℕ, ◌+◌, ◌≤◌, ◌<◌, ◌≡◌, false, none, String, ok, arith, ◌⊎◌, inl, inr, refl}
use contextctl.Runtime.Profile.{DaemonDeadlineProfile}
use contextctl.Runtime.Profile.Rules.{Fits}
use contextctl.Runtime.Deadline.{
  RequestBudget, Moment, open_budget, remaining_ms, workable_ms, selection_ms, managed_search_ms,
  assert_can_assemble, assert_workable,
}

-- A stage that starts when it may and keeps either allowance leaves the whole assembly reserve.
allowance-reserve :
    (budget : RequestBudget) (before after : Moment) (allowance : ℕ)
    → allowance ≤ workable_ms budget before
    → 0 < allowance
    → budget.started_at ≤ before.now
    → after.now ≤ before.now + allowance
    → budget.profile.assembly_reserve_ms ≤ remaining_ms budget after
unfolding workable_ms
allowance-reserve budget before after allowance h p s t = omega arith

selection-le-workable :
    (budget : RequestBudget) (moment : Moment)
    → selection_ms budget moment ≤ workable_ms budget moment
unfolding selection_ms
selection-le-workable budget moment = ground arith

managed_search-le-workable :
    (budget : RequestBudget) (moment : Moment)
    → managed_search_ms budget moment ≤ workable_ms budget moment
unfolding managed_search_ms
managed_search-le-workable budget moment = ground arith

can_assemble-of_remaining :
    (budget : RequestBudget) (moment : Moment)
    → 0 < remaining_ms budget moment
    → moment.aborted ≡ false
    → assert_can_assemble budget moment ≡ ok tt
unfolding assert_can_assemble
can_assemble-of_remaining budget moment h live = rw live (ground arith)

workable_of_assert :
    (budget : RequestBudget) (stage : String) (moment : Moment)
    → assert_workable budget stage moment ≡ ok tt
    → 0 < workable_ms budget moment
unfolding assert_workable
workable_of_assert budget stage moment h = ground arith

allowance_bounds :
    (budget : RequestBudget) (moment : Moment) (allowance : ℕ)
    → 1 ≤ budget.profile.assembly_reserve_ms
    → 1 ≤ budget.profile.selection_ms
    → 1 ≤ budget.profile.managed_search_ceiling_ms
    → 0 < workable_ms budget moment
    → (allowance ≡ selection_ms budget moment) ⊎ (allowance ≡ managed_search_ms budget moment)
    → (allowance ≤ workable_ms budget moment) × (0 < allowance)
unfolding selection_ms managed_search_ms
allowance_bounds budget moment allowance r s c w (inl a) = ground arith
allowance_bounds budget moment allowance r s c w (inr a) = ground arith

-- A stage may start (`assert_workable`) only while its allowance is positive, and one that keeps the
-- allowance of selection or of the managed search leaves the whole reserve, so that a request which
-- its caller has not given up passes the check before assembly.
pub stage-can_assemble :
    (budget : RequestBudget) (stage : String) (before after : Moment) (allowance : ℕ)
    → 1 ≤ budget.profile.assembly_reserve_ms
    → 1 ≤ budget.profile.selection_ms
    → 1 ≤ budget.profile.managed_search_ceiling_ms
    → budget.started_at ≤ before.now
    → assert_workable budget stage before ≡ ok tt
    → (allowance ≡ selection_ms budget before) ⊎ (allowance ≡ managed_search_ms budget before)
    → after.now ≤ before.now + allowance
    → after.aborted ≡ false
    → (0 < allowance)
      × (budget.profile.assembly_reserve_ms ≤ remaining_ms budget after)
      × (assert_can_assemble budget after ≡ ok tt)
stage-can_assemble budget stage before after allowance r s c started w a t live =
    let ready = workable_of_assert budget stage before w in
    let kept = allowance_bounds budget before allowance r s c ready a in
    let left = allowance-reserve budget before after allowance kept.0 kept.1 started t in
    (kept.1, left, can_assemble-of_remaining budget after (omega arith) live)

workable_after_selection :
    (d : DaemonDeadlineProfile ℕ)
    → Fits d
    → (arrived selected : Moment)
    → selected.now ≤ arrived.now + selection_ms (open_budget d none arrived) arrived
    → arrived.now ≤ selected.now
    → 0 < workable_ms (open_budget d none arrived) selected
unfolding open_budget selection_ms workable_ms
workable_after_selection d fits arrived selected h o = ground (arith, fits)

module _ (d : DaemonDeadlineProfile ℕ) (fits : Fits d) (arrived selected searched : Moment)
    (live : searched.aborted ≡ false) where
  -- With durations that the check of a profile accepts: a request whose selection starts on arrival
  -- and keeps its allowance has time left for the managed search, and if the search keeps its
  -- allowance too and the caller has not aborted the request by then, it has the whole reserve left
  -- and passes the check before assembly.
  pub request-can_assemble :
      let budget = open_budget d none arrived in
      selected.now ≤ arrived.now + selection_ms budget arrived
      → searched.now ≤ selected.now + managed_search_ms budget selected
      → arrived.now ≤ selected.now
      → (0 < managed_search_ms budget selected)
        × (d.assembly_reserve_ms ≤ remaining_ms budget searched)
        × (assert_can_assemble budget searched ≡ ok tt)
  unfolding open_budget
  request-can_assemble h k o =
      let budget = open_budget d none arrived in
      let ready : 0 < workable_ms budget selected =
        workable_after_selection d fits arrived selected h o in
      let kept = allowance_bounds budget selected _ fits.1 fits.0 fits.2 ready (inr refl) in
      let left = allowance-reserve budget selected searched _ kept.0 kept.1 o k in
      (kept.1, left, can_assemble-of_remaining budget searched (omega arith) live)
