-- ===== src/Runtime/Profile.antt =====
-- apps/contextctl-daemon/src/runtime/profile.ts: the operating limits of a daemon and the rules that
-- they satisfy together. `trim` is the language's, and a parameter.
pub mod Rules
pub mod Reports
use contextctl.Common.{
  ℕ, ◌+◌, ◌-◌, ◌≡◌, Bool, true, false, not, ◌||◌, List, [], ◌∷◌, Option, none, some, String, leb,
  ltb, ◌==◌, string_instance, text, if◌then◌else◌, Result, ok, throw, ◌>>=◌,
}

-- A number of a profile: a natural number, or one that is negative, a fraction, an infinity or NaN,
-- which no rule tells apart.
pub data Number : Type 0 where
  whole : (amount : ℕ) → Number
  unusable : Number

-- A profile that is being checked has arbitrary numbers, one that was accepted natural ones.
pub record LaneCapacity (N : Type 0) : Type 0 where
  pub concurrency : N
  pub queue_depth : N

pub record DaemonLaneProfile (N : Type 0) : Type 0 where
  pub resolve : LaneCapacity N
  pub registry_consume : LaneCapacity N
  pub selection_assets : LaneCapacity N
  pub ingestion : LaneCapacity N
  pub ingestion_embedding : LaneCapacity N

pub record DaemonDeadlineProfile (N : Type 0) : Type 0 where
  pub total_ms : N
  pub selection_ms : N
  pub assembly_reserve_ms : N
  pub managed_search_ceiling_ms : N

pub record DaemonRuntimeProfile (N : Type 0) : Type 0 where
  pub version : String
  pub lanes : DaemonLaneProfile N
  pub deadlines : DaemonDeadlineProfile N

abbrev pub daemon_runtime_profile_version : String
daemon_runtime_profile_version = "daemon-runtime-profile-v1"

abbrev pub ingestion_embedding_batch_limit : ℕ
ingestion_embedding_batch_limit = 2

abbrev pub capacity : ℕ → ℕ → LaneCapacity Number
capacity concurrency queue_depth = record {
  concurrency = whole concurrency;
  queue_depth = whole queue_depth;
}

abbrev pub daemon_runtime_profile_v1 : DaemonRuntimeProfile Number
daemon_runtime_profile_v1 = record {
  version = daemon_runtime_profile_version;
  lanes = record {
    resolve = capacity 8 32;
    registry_consume = capacity 1 8;
    selection_assets = capacity 1 1;
    ingestion = capacity 1 4;
    ingestion_embedding = capacity ingestion_embedding_batch_limit 0;
  };
  deadlines = record {
    total_ms = whole 3000;
    selection_ms = whole 750;
    assembly_reserve_ms = whole 500;
    managed_search_ceiling_ms = whole 1750;
  };
}

pub data DaemonRuntimeProfileProblem : Type 0 where
  version_missing concurrency_invalid queue_depth_invalid : DaemonRuntimeProfileProblem
  deadline_invalid stages_exceed_total : DaemonRuntimeProfileProblem
  search_ceiling_exceeds_budget : DaemonRuntimeProfileProblem

pub record DaemonRuntimeProfileError : Type 0 where
  pub problem : DaemonRuntimeProfileProblem
  pub field : String

abbrev pub refuse {ℓ} :
    {A : Type ℓ} → DaemonRuntimeProfileProblem → String → Result DaemonRuntimeProfileError A
refuse problem field = throw (record { problem = problem; field = field })

pub record DaemonRuntimeProfileOverrides : Type 0 where
  pub version : String
  pub resolve : Option (LaneCapacity Number)
  pub registry_consume : Option (LaneCapacity Number)
  pub selection_assets : Option (LaneCapacity Number)
  pub ingestion : Option (LaneCapacity Number)
  pub ingestion_embedding : Option (LaneCapacity Number)
  pub total_ms : Option Number
  pub selection_ms : Option Number
  pub assembly_reserve_ms : Option Number
  pub managed_search_ceiling_ms : Option Number

-- 2 ^ 53 - 1
abbrev pub max_safe_integer : ℕ
max_safe_integer = 9007199254740991

-- `!Number.isSafeInteger(value) || value < least`
unfoldable pub out_of_range : (least : ℕ) → Number → Bool
out_of_range least (whole amount) = not (leb amount max_safe_integer) || ltb amount least
out_of_range least unusable = true

-- The paths that errors report.
abbrev pub concurrency_of : (name : String) → String
concurrency_of name = text ("lanes." ∷ name ∷ ".concurrency" ∷ [])

abbrev pub queue_depth_of : (name : String) → String
queue_depth_of name = text ("lanes." ∷ name ∷ ".queueDepth" ∷ [])

abbrev pub duration_of : (name : String) → String
duration_of name = text ("deadlines." ∷ name ∷ [])

unfoldable pub assert_lanes :
    List (String × LaneCapacity Number) → Result DaemonRuntimeProfileError (Unit {0})
unfolding out_of_range
assert_lanes [] = ok tt
assert_lanes ((name, lane) ∷ lanes) =
    let rest = assert_lanes lanes in
    if out_of_range 1 lane.concurrency
    then refuse concurrency_invalid (concurrency_of name)
    else if out_of_range 0 lane.queue_depth
    then refuse queue_depth_invalid (queue_depth_of name)
    else rest

unfoldable pub assert_durations :
    List (String × Number) → Result DaemonRuntimeProfileError (Unit {0})
unfolding out_of_range
assert_durations [] = ok tt
assert_durations ((name, value) ∷ durations) =
    let rest = assert_durations durations in
    if out_of_range 1 value then refuse deadline_invalid (duration_of name) else rest

-- The number of milliseconds of a duration that passed its check.
abbrev pub amount_of : Number → ℕ
amount_of (whole amount) = amount
amount_of unusable = 0

abbrev pub named_lanes : DaemonLaneProfile Number → List (String × LaneCapacity Number)
named_lanes lanes =
    ("resolve", lanes.resolve)
    ∷ ("registryConsume", lanes.registry_consume)
    ∷ ("selectionAssets", lanes.selection_assets)
    ∷ ("ingestion", lanes.ingestion)
    ∷ ("ingestionEmbedding", lanes.ingestion_embedding)
    ∷ []

abbrev pub named_durations : DaemonDeadlineProfile Number → List (String × Number)
named_durations deadlines =
    ("totalMs", deadlines.total_ms)
    ∷ ("selectionMs", deadlines.selection_ms)
    ∷ ("assemblyReserveMs", deadlines.assembly_reserve_ms)
    ∷ ("managedSearchCeilingMs", deadlines.managed_search_ceiling_ms)
    ∷ []

unfoldable pub assert_stages :
    (total selection reserve ceiling : ℕ) → Result DaemonRuntimeProfileError (Unit {0})
assert_stages total selection reserve ceiling =
    if leb total (selection + reserve)
    then refuse stages_exceed_total "deadlines.selectionMs + deadlines.assemblyReserveMs"
    else if ltb (total - reserve) ceiling
    then refuse search_ceiling_exceeds_budget "deadlines.managedSearchCeilingMs"
    else ok tt

-- `override ?? fallback`
abbrev pub or_default {ℓ} : {A : Type ℓ} → Option A → A → A
or_default none fallback = fallback
or_default (some value) fallback = value

unfoldable pub overridden : DaemonRuntimeProfileOverrides → DaemonRuntimeProfile Number
overridden overrides =
    let base = daemon_runtime_profile_v1 in
    record {
      version = overrides.version;
      lanes = record {
        resolve = or_default overrides.resolve base.lanes.resolve;
        registry_consume = or_default overrides.registry_consume base.lanes.registry_consume;
        selection_assets = or_default overrides.selection_assets base.lanes.selection_assets;
        ingestion = or_default overrides.ingestion base.lanes.ingestion;
        ingestion_embedding =
            or_default overrides.ingestion_embedding base.lanes.ingestion_embedding;
      };
      deadlines = record {
        total_ms = or_default overrides.total_ms base.deadlines.total_ms;
        selection_ms = or_default overrides.selection_ms base.deadlines.selection_ms;
        assembly_reserve_ms =
            or_default overrides.assembly_reserve_ms base.deadlines.assembly_reserve_ms;
        managed_search_ceiling_ms =
            or_default overrides.managed_search_ceiling_ms base.deadlines.managed_search_ceiling_ms;
      };
    }

module _ (trim : String → String) where
  unfoldable pub assert_daemon_runtime_profile :
      DaemonRuntimeProfile Number → Result DaemonRuntimeProfileError (Unit {0})
  assert_daemon_runtime_profile profile =
      if trim profile.version == ""
      then refuse version_missing "version"
      else assert_lanes (named_lanes profile.lanes) >>= λ _.
          assert_durations (named_durations profile.deadlines) >>= λ _.
          let deadlines = profile.deadlines in
          assert_stages (amount_of deadlines.total_ms) (amount_of deadlines.selection_ms)
            (amount_of deadlines.assembly_reserve_ms)
            (amount_of deadlines.managed_search_ceiling_ms)

  unfoldable pub define_daemon_runtime_profile :
      DaemonRuntimeProfileOverrides → Result DaemonRuntimeProfileError (DaemonRuntimeProfile Number)
  unfolding overridden
  define_daemon_runtime_profile overrides =
      if trim overrides.version == ""
      then refuse version_missing "version"
      else let profile = overridden overrides in
        assert_daemon_runtime_profile profile >>= λ _. ok profile
