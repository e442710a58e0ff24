-- ===== src/Runtime/Profile/Rules.antt =====
-- profile.ts: what the check of a profile accepts and what it reports.
use contextctl.Common.{
  ℕ, ◌+◌, ◌≤◌, ◌<◌, ◌≡◌, ◌≢◌, ◌↔◌, sym, subst, refl, arith, false, List, [], ◌∷◌, String, All,
  Option, none, some, ◌==◌, string_instance, ==_iff, Result, ok, ok-of_bind, if◌then◌else◌,
  ==_of_ne,
}
use contextctl.Runtime.Profile.{
  Number, whole, unusable, LaneCapacity, DaemonDeadlineProfile, DaemonRuntimeProfile,
  DaemonRuntimeProfileError, version_missing, max_safe_integer, out_of_range, assert_lanes,
  assert_durations, assert_stages, named_lanes, amount_of, refuse, DaemonRuntimeProfileOverrides,
  define_daemon_runtime_profile, overridden, or_default, capacity, named_durations,
  assert_daemon_runtime_profile,
}

-- A safe integer that is not below `least`.
abbrev pub IsUsable : (least : ℕ) → Number → Type 0
IsUsable least (whole amount) = (least ≤ amount) × (amount ≤ max_safe_integer)
IsUsable least unusable = ⊥

-- The stages fit in the request, and the reserve is left over.
abbrev pub Fits : DaemonDeadlineProfile ℕ → Type 0
Fits deadlines =
    (1 ≤ deadlines.selection_ms)
    × (1 ≤ deadlines.assembly_reserve_ms)
    × (1 ≤ deadlines.managed_search_ceiling_ms)
    × (deadlines.selection_ms + deadlines.assembly_reserve_ms < deadlines.total_ms)
    × (deadlines.managed_search_ceiling_ms + deadlines.assembly_reserve_ms ≤ deadlines.total_ms)
    × (deadlines.total_ms ≤ max_safe_integer)

abbrev pub wholes : DaemonDeadlineProfile ℕ → DaemonDeadlineProfile Number
wholes deadlines = record {
  total_ms = whole deadlines.total_ms;
  selection_ms = whole deadlines.selection_ms;
  assembly_reserve_ms = whole deadlines.assembly_reserve_ms;
  managed_search_ceiling_ms = whole deadlines.managed_search_ceiling_ms;
}

abbrev IsUsableLane : String × LaneCapacity Number → Type 0
IsUsableLane named = IsUsable 1 named.1.concurrency × IsUsable 0 named.1.queue_depth

abbrev pub IsSoundProfile : (trim : String → String) → DaemonRuntimeProfile Number → Type 0
IsSoundProfile trim profile =
    (trim profile.version ≢ "")
    × All IsUsableLane (named_lanes profile.lanes)
    × ((deadlines : DaemonDeadlineProfile ℕ) × (profile.deadlines ≡ wholes deadlines)
        × Fits deadlines)

IsUsable-of_in_range : (least : ℕ) (n : Number) → out_of_range least n ≡ false → IsUsable least n
unfolding out_of_range
IsUsable-of_in_range least (whole amount) h = ground arith
IsUsable-of_in_range least unusable h = ground arith

in_range-of_IsUsable : (least : ℕ) (n : Number) → IsUsable least n → out_of_range least n ≡ false
unfolding out_of_range
in_range-of_IsUsable least (whole amount) h = ground arith
in_range-of_IsUsable least unusable h = absurd h

assert_lanes-All :
    (lanes : List (String × LaneCapacity Number))
    → assert_lanes lanes ≡ ok tt
    → All IsUsableLane lanes
unfolding assert_lanes
assert_lanes-All [] h = tt
assert_lanes-All ((name, lane) ∷ lanes) h = ground (
  arith,
  IsUsable-of_in_range 1 lane.concurrency,
  IsUsable-of_in_range 0 lane.queue_depth,
  assert_lanes-All lanes,
)

assert_lanes-of_All :
    (lanes : List (String × LaneCapacity Number))
    → All IsUsableLane lanes
    → assert_lanes lanes ≡ ok tt
unfolding assert_lanes
assert_lanes-of_All [] h = refl
assert_lanes-of_All ((name, lane) ∷ lanes) h =
    rw
      (in_range-of_IsUsable 1 lane.concurrency h.0.0, in_range-of_IsUsable 0 lane.queue_depth h.0.1)
      (assert_lanes-of_All lanes h.1)

assert_durations-All :
    (durations : List (String × Number))
    → assert_durations durations ≡ ok tt
    → All (λ named. IsUsable 1 named.1) durations
unfolding assert_durations
assert_durations-All [] h = tt
assert_durations-All ((name, value) ∷ durations) h =
    ground (arith, IsUsable-of_in_range 1 value, assert_durations-All durations)

assert_durations-of_All :
    (durations : List (String × Number))
    → All (λ named. IsUsable 1 named.1) durations
    → assert_durations durations ≡ ok tt
unfolding assert_durations
assert_durations-of_All [] h = refl
assert_durations-of_All ((name, value) ∷ durations) h =
    rw (in_range-of_IsUsable 1 value h.0) (assert_durations-of_All durations h.1)

is_whole : (n : Number) → IsUsable 1 n → (amount : ℕ) × (n ≡ whole amount)
is_whole (whole amount) h = (amount, refl)
is_whole unusable h = absurd h

-- Durations that passed their own checks, and then the checks of the stages.
stages-Fits :
    (t s r c : Number)
    → IsUsable 1 t
    → IsUsable 1 s
    → IsUsable 1 r
    → IsUsable 1 c
    → assert_stages (amount_of t) (amount_of s) (amount_of r) (amount_of c) ≡ ok tt
    → (d : DaemonDeadlineProfile ℕ) × (t ≡ whole d.total_ms)
      × (s ≡ whole d.selection_ms)
      × (r ≡ whole d.assembly_reserve_ms)
      × (c ≡ whole d.managed_search_ceiling_ms)
      × Fits d
unfolding assert_stages
stages-Fits (whole t) (whole s) (whole r) (whole c) ht hs hr hc h = (
  record { total_ms = t; selection_ms = s; assembly_reserve_ms = r; managed_search_ceiling_ms = c },
  refl,
  refl,
  refl,
  refl,
  ground arith,
)
stages-Fits unusable s r c ht hs hr hc h = absurd ht
stages-Fits (whole t) unusable r c ht hs hr hc h = absurd hs
stages-Fits (whole t) (whole s) unusable c ht hs hr hc h = absurd hr
stages-Fits (whole t) (whole s) (whole r) unusable ht hs hr hc h = absurd hc

stages-of_Fits :
    (d : DaemonDeadlineProfile ℕ)
    → Fits d
    → assert_stages d.total_ms d.selection_ms d.assembly_reserve_ms d.managed_search_ceiling_ms
      ≡ ok tt
unfolding assert_stages
stages-of_Fits d h = ground arith

IsUsable-of_Fits :
    (d : DaemonDeadlineProfile ℕ)
    → Fits d
    → All (λ named. IsUsable 1 named.1) (named_durations (wholes d))
IsUsable-of_Fits d h = ground arith

version_passes :
    (version : String) {A : Type 0} {rest : Result DaemonRuntimeProfileError A} {a : A}
    → (if version == "" then refuse version_missing "version" else rest) ≡ ok a
    → (version ≢ "") × (rest ≡ ok a)
version_passes version h = ground (arith, ==_iff version "")

module _ (trim : String → String) (profile : DaemonRuntimeProfile Number) where
  IsSoundProfile-of_accepted :
      assert_daemon_runtime_profile trim profile ≡ ok tt → IsSoundProfile trim profile
  unfolding assert_daemon_runtime_profile
  IsSoundProfile-of_accepted h =
      let (named, past_version) = version_passes (trim profile.version) h in
      let (_, lanes, after_lanes) =
        ok-of_bind (assert_lanes (named_lanes profile.lanes)) _ tt past_version in
      let (_, durations, stages) =
        ok-of_bind (assert_durations (named_durations profile.deadlines)) _ tt after_lanes in
      let (u, (v, (w, (x, _)))) =
        assert_durations-All (named_durations profile.deadlines) durations in
      let (d, e0, e1, e2, e3, fits) = stages-Fits _ _ _ _ u v w x stages in
      (
        named,
        assert_lanes-All (named_lanes profile.lanes) lanes,
        (
          d,
          λ i. record {
            total_ms = e0 i;
            selection_ms = e1 i;
            assembly_reserve_ms = e2 i;
            managed_search_ceiling_ms = e3 i;
          },
          fits,
        ),
      )

  accepted-of_IsSoundProfile :
      IsSoundProfile trim profile → assert_daemon_runtime_profile trim profile ≡ ok tt
  unfolding assert_daemon_runtime_profile
  accepted-of_IsSoundProfile (named, lanes, (d, e, fits)) =
      rw (==_of_ne (trim profile.version) "" named, assert_lanes-of_All _ lanes)
        (rw e (rw (assert_durations-of_All _ (IsUsable-of_Fits d fits)) (stages-of_Fits d fits)))

  -- A profile is accepted exactly if its version is not blank, every lane has a concurrency of at
  -- least one and a natural queue depth, and its durations are positive safe integers of which
  -- selection and reserve leave time over and the search ceiling fits beside the reserve.
  pub assert-IsSoundProfile :
      (assert_daemon_runtime_profile trim profile ≡ ok tt) ↔ IsSoundProfile trim profile
  assert-IsSoundProfile = (IsSoundProfile-of_accepted, accepted-of_IsSoundProfile)

-- What was overridden, or else what the first profile has.
abbrev Takes {ℓ} : {A : Type ℓ} → Option A → (first value : A) → Type ℓ
Takes none first value = value ≡ first
Takes (some override) first value = value ≡ override

-- The version that was given, and every value from where it is to be taken.
pub record IsAdjusted (overrides : DaemonRuntimeProfileOverrides)
    (profile : DaemonRuntimeProfile Number) : Type 0 where
  pub version : profile.version ≡ overrides.version
  pub resolve : Takes overrides.resolve (capacity 8 32) profile.lanes.resolve
  pub registry_consume :
      Takes overrides.registry_consume (capacity 1 8) profile.lanes.registry_consume
  pub selection_assets :
      Takes overrides.selection_assets (capacity 1 1) profile.lanes.selection_assets
  pub ingestion : Takes overrides.ingestion (capacity 1 4) profile.lanes.ingestion
  pub ingestion_embedding :
      Takes overrides.ingestion_embedding (capacity 2 0) profile.lanes.ingestion_embedding
  pub total_ms : Takes overrides.total_ms (whole 3000) profile.deadlines.total_ms
  pub selection_ms : Takes overrides.selection_ms (whole 750) profile.deadlines.selection_ms
  pub assembly_reserve_ms :
      Takes overrides.assembly_reserve_ms (whole 500) profile.deadlines.assembly_reserve_ms
  pub managed_search_ceiling_ms :
      Takes overrides.managed_search_ceiling_ms
        (whole 1750)
        profile.deadlines.managed_search_ceiling_ms

default-Takes {ℓ} :
    {A : Type ℓ} (override : Option A) (first : A)
    → Takes override first (or_default override first)
default-Takes none first = refl
default-Takes (some value) first = refl

taken {ℓ} :
    {A : Type ℓ} (override : Option A) (first value : A)
    → Takes override first value
    → or_default override first ≡ value
taken none first value h = sym h
taken (some override) first value h = sym h

overridden-IsAdjusted :
    (overrides : DaemonRuntimeProfileOverrides) → IsAdjusted overrides (overridden overrides)
unfolding overridden
overridden-IsAdjusted overrides = record {
  version = refl;
  resolve = default-Takes overrides.resolve _;
  registry_consume = default-Takes overrides.registry_consume _;
  selection_assets = default-Takes overrides.selection_assets _;
  ingestion = default-Takes overrides.ingestion _;
  ingestion_embedding = default-Takes overrides.ingestion_embedding _;
  total_ms = default-Takes overrides.total_ms _;
  selection_ms = default-Takes overrides.selection_ms _;
  assembly_reserve_ms = default-Takes overrides.assembly_reserve_ms _;
  managed_search_ceiling_ms = default-Takes overrides.managed_search_ceiling_ms _;
}

overridden-eq :
    (overrides : DaemonRuntimeProfileOverrides) (profile : DaemonRuntimeProfile Number)
    → IsAdjusted overrides profile
    → overridden overrides ≡ profile
unfolding overridden
overridden-eq overrides profile h = λ i. record {
  version = sym h.version i;
  lanes = record {
    resolve = taken overrides.resolve _ _ h.resolve i;
    registry_consume = taken overrides.registry_consume _ _ h.registry_consume i;
    selection_assets = taken overrides.selection_assets _ _ h.selection_assets i;
    ingestion = taken overrides.ingestion _ _ h.ingestion i;
    ingestion_embedding = taken overrides.ingestion_embedding _ _ h.ingestion_embedding i;
  };
  deadlines = record {
    total_ms = taken overrides.total_ms _ _ h.total_ms i;
    selection_ms = taken overrides.selection_ms _ _ h.selection_ms i;
    assembly_reserve_ms = taken overrides.assembly_reserve_ms _ _ h.assembly_reserve_ms i;
    managed_search_ceiling_ms =
        taken overrides.managed_search_ceiling_ms _ _ h.managed_search_ceiling_ms i;
  };
}

module _ (trim : String → String) (overrides : DaemonRuntimeProfileOverrides)
    (profile : DaemonRuntimeProfile Number) where
  defined-IsSoundProfile :
      define_daemon_runtime_profile trim overrides ≡ ok profile
      → IsSoundProfile trim profile × IsAdjusted overrides profile
  unfolding define_daemon_runtime_profile
  defined-IsSoundProfile h =
      let (_, checked) = version_passes (trim overrides.version) h in
      let (_, accepted, same) =
        ok-of_bind (assert_daemon_runtime_profile trim (overridden overrides)) _ profile checked in
      let made : overridden overrides ≡ profile = cc in
      (
        IsSoundProfile-of_accepted trim profile
            (subst (λ p. assert_daemon_runtime_profile trim p ≡ ok tt) made accepted),
        subst (IsAdjusted overrides) made (overridden-IsAdjusted overrides),
      )

  defined-of_IsSoundProfile :
      IsSoundProfile trim profile × IsAdjusted overrides profile
      → define_daemon_runtime_profile trim overrides ≡ ok profile
  unfolding define_daemon_runtime_profile
  defined-of_IsSoundProfile (sound, adjusted) =
      let made : overridden overrides ≡ profile = overridden-eq overrides profile adjusted in
      let named : trim overrides.version ≢ "" = subst (λ v. trim v ≢ "") adjusted.version sound.0 in
      rw
        (
          ==_of_ne (trim overrides.version) "" named,
          made,
          accepted-of_IsSoundProfile trim profile sound,
        )
        refl

  -- A profile is built from overrides exactly if it meets every rule and has the version that was
  -- given, each value that was overridden as it was given, and every other value from the first profile.
  pub define-IsSoundProfile :
      (define_daemon_runtime_profile trim overrides ≡ ok profile)
      ↔ (IsSoundProfile trim profile × IsAdjusted overrides profile)
  define-IsSoundProfile = (defined-IsSoundProfile, defined-of_IsSoundProfile)
