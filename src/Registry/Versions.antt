-- ===== src/Registry/Versions.antt =====
-- packages/registry-lifecycle/src/domain/card-version.ts: the append-only history of a Card's
-- versions with its current pointer.
pub mod WellFormed
pub mod Meaning
use contextctl.Common.{
  ℕ, String, Bool, true, false, not, ◌&&◌, ◌||◌, Option, none, some, List, [], ◌∷◌, ◌++◌, any,
  filter, find_index, contains, set_of, lookup, has_key, ◌==◌, ltb, if◌then◌else◌, Result, ok,
  throw, ◌>>=◌, or_throw, Comparable, string_instance,
}
use contextctl.Registry.Model.{
  CardVersion, CardVersionHistory, CardValidationState, CardMeaning, MeaningField, GroundingReport,
  MeaningChangeComparison,
}
use contextctl.Registry.Model

-- CardVersionInvariantError, one constructor for each message.
pub data VersionError : Type 0 where
  foreign_version : (version_id card_id : String) → VersionError
  duplicate_version : (version_id : String) → VersionError
  unknown_version : (version_id card_id : String) → VersionError
  not_validated : (version_id : String) → CardValidationState → VersionError

abbrev pub version_key : CardVersion → String
version_key v = v.id

unfoldable pub create_card_version_history : String → CardVersionHistory
create_card_version_history card_id = record {
  card_id = card_id;
  versions = [];
  current_version_id = none;
}

unfoldable pub append_card_version :
    CardVersionHistory → CardVersion → Result VersionError CardVersionHistory
append_card_version history version =
    if not (version.card_id == history.card_id)
    then throw (foreign_version version.id history.card_id)
    else if has_key version_key version.id history.versions
    then throw (duplicate_version version.id)
    else ok (record history { versions = history.versions ++ version ∷ [] })

abbrev pub is_validated : CardValidationState → Bool
is_validated CardValidationState.validated = true
is_validated _ = false

unfoldable pub promote_card_version :
    CardVersionHistory → String → Result VersionError CardVersionHistory
promote_card_version history version_id =
    or_throw (lookup version_key version_id history.versions)
      (unknown_version version_id history.card_id)
    >>= λ target.
        if not (is_validated target.validation_state)
        then throw (not_validated version_id target.validation_state)
        else ok (record history { current_version_id = some target.id })

unfoldable pub withdraw_current_version : CardVersionHistory → CardVersionHistory
withdraw_current_version history = record history { current_version_id = none }

abbrev both_before : Option ℕ → Option ℕ → Bool
both_before (some target) (some current) = ltb target current
both_before (some target) none = false
both_before none current = false

index_of : String → CardVersionHistory → Option ℕ
index_of version_id history = find_index (λ v. v.id == version_id) history.versions

unfoldable pub precedes_current_card_version : CardVersionHistory → String → Bool
unfolding index_of
precedes_current_card_version history version_id = elim history.current_version_id [
  | none ↦ false
  | some current_id ↦ both_before (index_of version_id history) (index_of current_id history)
]

unfoldable pub get_current_card_version : CardVersionHistory → Option CardVersion
get_current_card_version history = elim history.current_version_id [
  | none ↦ none
  | some id ↦ lookup version_key id history.versions
]

-- `JSON.stringify(left) !== JSON.stringify(right)` on arrays of texts.
abbrev same_texts : List String → List String → Bool
same_texts [] [] = true
same_texts (x ∷ xs) (y ∷ ys) = x == y && same_texts xs ys
same_texts _ _ = false

same_field : CardMeaning → CardMeaning → MeaningField → Bool
same_field a b MeaningField.description = a.description == b.description
same_field a b MeaningField.representative_questions =
    same_texts a.representative_questions b.representative_questions
same_field a b MeaningField.aliases = same_texts a.aliases b.aliases
same_field a b MeaningField.keywords = same_texts a.keywords b.keywords

abbrev meaning_fields : List MeaningField
meaning_fields =
    MeaningField.description ∷ MeaningField.representative_questions ∷ MeaningField.aliases
    ∷ MeaningField.keywords ∷ []

pub covered_facts : Option GroundingReport → List String
covered_facts none = []
covered_facts (some report) = report.fact_coverage.covered

compare_meanings : CardVersion → CardVersion → CardMeaning → CardMeaning → MeaningChangeComparison
unfolding same_field set_of covered_facts
compare_meanings previous next old new =
    let before = set_of [] (covered_facts previous.grounding) in
    let after = set_of [] (covered_facts next.grounding) in
    record {
      previous_version_id = previous.id;
      changed_fields = filter (λ field. not (same_field old new field)) meaning_fields;
      coverage_lost = filter (λ name. not (contains name after)) before;
      coverage_gained = filter (λ name. not (contains name before)) after;
    }

unfoldable pub compare_card_version_meaning :
    CardVersion → CardVersion → Option MeaningChangeComparison
unfolding compare_meanings
compare_card_version_meaning previous next = elim previous.meaning [
  | none ↦ none
  | some old ↦ elim next.meaning [
    | none ↦ none
    | some new ↦ some (compare_meanings previous next old new)
  ]
]

-- A use of the history, from outside: each call, and a failed call leaves it as it was.
pub data HistoryCall : Type 0 where
  append : CardVersion → HistoryCall
  promote : String → HistoryCall
  withdraw : HistoryCall

abbrev after : CardVersionHistory → Result VersionError CardVersionHistory → CardVersionHistory
after history (ok next) = next
after history (throw e) = history

unfoldable pub step : CardVersionHistory → HistoryCall → CardVersionHistory
step h (append v) = after h (append_card_version h v)
step h (promote id) = after h (promote_card_version h id)
step h withdraw = withdraw_current_version h

unfoldable pub run : CardVersionHistory → List HistoryCall → CardVersionHistory
run h [] = h
run h (c ∷ calls) = run (step h c) calls
