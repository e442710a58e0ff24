-- ===== src/Runtime/Profile/Reports.antt =====
-- profile.ts: the rule that a refused profile is told it breaks is one that it breaks.
use contextctl.Common.{
  ℕ, ◌+◌, ◌≤◌, ◌<◌, ◌≡◌, ◌⊎◌, inl, inr, arith, true, List, [], ◌∷◌, String, ◌==◌, string_instance,
  ==_iff, Result, throw, throw-of_bind, subst, sym, leb, Bool-cases, if◌then◌else◌,
}
use contextctl.Runtime.Profile.{
  Number, whole, unusable, LaneCapacity, DaemonRuntimeProfile, DaemonRuntimeProfileProblem,
  DaemonRuntimeProfileError, version_missing, concurrency_invalid, queue_depth_invalid,
  deadline_invalid, stages_exceed_total, search_ceiling_exceeds_budget, out_of_range, assert_lanes,
  assert_durations, assert_stages, named_lanes, named_durations, amount_of, concurrency_of,
  queue_depth_of, duration_of, refuse, assert_daemon_runtime_profile,
}
use contextctl.Runtime.Profile.Rules.{IsUsable}

-- One of the named entries is the one that `field` is the path of, and is not usable.
abbrev Unusable {ℓ} :
    {A : Type ℓ}
    → (path : String → String) → (field : String) (least : ℕ) → (A → Number)
    → List (String × A)
    → Type 0
Unusable path field least value [] = ⊥
Unusable path field least value ((name, entry) ∷ entries) =
    ((field ≡ path name) × ¬ IsUsable least (value entry)) ⊎ Unusable path field least value entries

-- The profile breaks the rule, and `field` is the path of what breaks it.
abbrev pub Breaks :
    (trim : String → String)
    → DaemonRuntimeProfile Number
    → DaemonRuntimeProfileProblem
    → (field : String) → Type 0
Breaks trim profile version_missing field = (field ≡ "version") × (trim profile.version ≡ "")
Breaks trim profile concurrency_invalid field =
    Unusable concurrency_of field 1 (λ lane. lane.concurrency) (named_lanes profile.lanes)
Breaks trim profile queue_depth_invalid field =
    Unusable queue_depth_of field 0 (λ lane. lane.queue_depth) (named_lanes profile.lanes)
Breaks trim profile deadline_invalid field =
    Unusable duration_of field 1 (λ value. value) (named_durations profile.deadlines)
Breaks trim profile stages_exceed_total field =
    (field ≡ "deadlines.selectionMs + deadlines.assemblyReserveMs")
    × (amount_of profile.deadlines.total_ms
        ≤ amount_of profile.deadlines.selection_ms
          + amount_of profile.deadlines.assembly_reserve_ms)
Breaks trim profile search_ceiling_exceeds_budget field =
    (field ≡ "deadlines.managedSearchCeilingMs")
    × (amount_of profile.deadlines.total_ms
        < amount_of profile.deadlines.managed_search_ceiling_ms
          + amount_of profile.deadlines.assembly_reserve_ms)

not-IsUsable_of_range : (least : ℕ) (n : Number) → out_of_range least n ≡ true → ¬ IsUsable least n
unfolding out_of_range
not-IsUsable_of_range least (whole amount) h = ground arith
not-IsUsable_of_range least unusable h = λ x. x

abbrev LaneProblem : List (String × LaneCapacity Number) → DaemonRuntimeProfileError → Type 0
LaneProblem lanes e =
    ((e.problem ≡ concurrency_invalid)
      × Unusable concurrency_of e.field 1 (λ lane. lane.concurrency) lanes)
    ⊎ ((e.problem ≡ queue_depth_invalid)
        × Unusable queue_depth_of e.field 0 (λ lane. lane.queue_depth) lanes)

assert_lanes-problem :
    (lanes : List (String × LaneCapacity Number)) (e : DaemonRuntimeProfileError)
    → assert_lanes lanes ≡ throw e
    → LaneProblem lanes e
unfolding assert_lanes
assert_lanes-problem [] e h = ground arith
assert_lanes-problem ((name, lane) ∷ lanes) e h = ground (
  arith,
  not-IsUsable_of_range 1 lane.concurrency,
  not-IsUsable_of_range 0 lane.queue_depth,
  assert_lanes-problem lanes e,
)

assert_durations-problem :
    (durations : List (String × Number)) (e : DaemonRuntimeProfileError)
    → assert_durations durations ≡ throw e
    → (e.problem ≡ deadline_invalid) × Unusable duration_of e.field 1 (λ value. value) durations
unfolding assert_durations
assert_durations-problem [] e h = ground arith
assert_durations-problem ((name, value) ∷ durations) e h =
    ground (arith, not-IsUsable_of_range 1 value, assert_durations-problem durations e)

version_reported :
    (version : String) {rest : Result DaemonRuntimeProfileError (Unit {0})}
    {e : DaemonRuntimeProfileError}
    → (if version == "" then refuse version_missing "version" else rest) ≡ throw e
    → ((e.problem ≡ version_missing) × (e.field ≡ "version") × (version ≡ "")) ⊎ (rest ≡ throw e)
version_reported version h = ground (arith, ==_iff version "")

module _ (trim : String → String) (profile : DaemonRuntimeProfile Number)
    (e : DaemonRuntimeProfileError) where
  abbrev Reported : Type 0
  Reported = Breaks trim profile e.problem e.field

  reported :
      (problem : DaemonRuntimeProfileProblem)
      → e.problem ≡ problem
      → Breaks trim profile problem e.field
      → Reported
  reported problem named broken = subst (λ p. Breaks trim profile p e.field) (sym named) broken

  lanes_reported : LaneProblem (named_lanes profile.lanes) e → Reported
  lanes_reported (inl (named, broken)) = reported concurrency_invalid named broken
  lanes_reported (inr (named, broken)) = reported queue_depth_invalid named broken

  stages_reported :
      let d = profile.deadlines in
      assert_stages
          (amount_of d.total_ms)
          (amount_of d.selection_ms)
          (amount_of d.assembly_reserve_ms)
          (amount_of d.managed_search_ceiling_ms)
        ≡ throw e
      → Reported
  unfolding assert_stages
  stages_reported h =
      elim (Bool-cases (
        leb (amount_of profile.deadlines.total_ms) (
          amount_of profile.deadlines.selection_ms
          + amount_of profile.deadlines.assembly_reserve_ms))) [
            | inl full ↦ reported stages_exceed_total (ground arith) (ground arith)
            | inr free ↦ reported search_ceiling_exceeds_budget (ground arith) (ground arith)
          ]

  -- A refusal reports a rule that the profile breaks, and the path of the value, or of the sum, that
  -- breaks it.
  pub assert-reports : assert_daemon_runtime_profile trim profile ≡ throw e → Reported
  unfolding assert_daemon_runtime_profile
  assert-reports h = elim (version_reported (trim profile.version) h) [
    | inl (named, path, blank) ↦ reported version_missing named (path, blank)
    | inr past_version ↦
        elim (throw-of_bind (assert_lanes (named_lanes profile.lanes)) _ e past_version) [
          | inl refused ↦ lanes_reported (assert_lanes-problem _ e refused)
          | inr (_, _, past_lanes) ↦
              elim (throw-of_bind (assert_durations (named_durations profile.deadlines)) _ e
                past_lanes) [
                  | inl refused ↦
                      let (named, broken) = assert_durations-problem _ e refused in
                      reported deadline_invalid named broken
                  | inr (_, _, stages) ↦ stages_reported stages
                ]
        ]
  ]
