-- ===== src/Registry/Impact.antt =====
-- packages/registry-lifecycle/src/domain/card-impact.ts: what one change of a Publication does to a Card
-- that serves.
pub mod Rules
use contextctl.Common.{
  String, string_instance, Bool, true, false, not, ◌&&◌, Option, none, some, List, [], ◌∷◌, ◌++◌,
  map, flat_map, text, any, filter, find, contains, set_of, length, ltb, ◌==◌, if◌then◌else◌,
}
use contextctl.Registry.Model.{
  CardVersion, CardImpact, CardImpactReason, RetrievalScope, managed_document, sql_source,
  http_source, semantic_units, whole_document, ManagedDocumentSelection, ManagedDocumentScope,
  CardImpactDecision, LifecycleEvent, EventKind,
}
use contextctl.Registry.Publications.{
  IngestionPublication, PublishedChange, PublishedChangedField, PublishedKnowledgeUnit,
  SourceCoordinate, coordinate_kind, document, sql_table, http_operation, added, updated, removed,
  unit_of_change, PublishedScope, PublishedSelector, document_selector, units_selector,
  published_document, published_sql, published_http,
}

abbrev pub superseded_by_removal : String
superseded_by_removal = "scope.document.indexVersionSupersededByRemoval"

abbrev reason : String → List String → CardImpactReason
reason rule parts = record { rule = rule; message = text parts }

kind_drift : String → SourceCoordinate → List CardImpactReason
kind_drift scope_kind coordinate =
    reason "scope.kindDrift" (
      "card scope "
      ∷ scope_kind
      ∷ " no longer matches "
      ∷ coordinate_kind coordinate
      ∷ " coordinate"
      ∷ [])
    ∷ []

selection_lost : ManagedDocumentSelection → String → List CardImpactReason
selection_lost whole_document unit_id = []
selection_lost (semantic_units ids) unit_id =
    if contains unit_id ids
    then []
    else reason "scope.document.semanticUnitRemoved"
        ("semantic unit " ∷ unit_id ∷ " is no longer covered by the card selection" ∷ [])
      ∷ []

unfoldable pub find_lost_coordinates : RetrievalScope → SourceCoordinate → List CardImpactReason
unfolding kind_drift selection_lost
find_lost_coordinates (sql_source scope) (sql_table _ _ table columns) =
    if not (scope.table == table)
    then reason "scope.sql.tableRemoved" ("table " ∷ scope.table ∷ " is no longer observed" ∷ [])
      ∷ []
    else map
        (λ column.
          reason "scope.sql.columnRemoved" (
            "column " ∷ column ∷ " referenced by the card no longer exists in " ∷ scope.table ∷ []))
        (filter (λ column. not (contains column columns)) scope.columns)
find_lost_coordinates (sql_source scope) coordinate = kind_drift "sql_source" coordinate
find_lost_coordinates (http_source scope) (http_operation _ method path _ _) =
    if scope.method == method && scope.path == path
    then []
    else reason "scope.http.operationRemoved"
        ("operation " ∷ scope.method ∷ " " ∷ scope.path ∷ " is no longer observed" ∷ [])
      ∷ []
find_lost_coordinates (http_source scope) coordinate = kind_drift "http_source" coordinate
find_lost_coordinates (managed_document scope) (document _ document_id unit_id) =
    if not (scope.document_index.document_id == document_id)
    then reason "scope.document.documentRemoved"
        ("document " ∷ scope.document_index.document_id ∷ " is no longer observed" ∷ [])
      ∷ []
    else selection_lost scope.selection unit_id
find_lost_coordinates (managed_document scope) coordinate = kind_drift "managed_document" coordinate

abbrev pub same_index : String → PublishedScope → Bool
same_index id (published_document scope) = scope.document_index.document_index_id == id
same_index id _ = false

unfoldable pub index_moved :
    ManagedDocumentScope → (superseded : Bool) → Option PublishedScope → List CardImpactReason
index_moved scope superseded (some (published_document published)) =
    if published.document_index.index_version == scope.document_index.index_version
    then []
    else if superseded
    then reason superseded_by_removal (
        "document index " ∷ scope.document_index.document_index_id ∷ " moved from "
        ∷ scope.document_index.index_version ∷ " to " ∷ published.document_index.index_version
        ∷ ", and " ∷ scope.document_index.index_version
        ∷ " still contains knowledge the source removed" ∷ [])
      ∷ []
    else reason "scope.document.indexVersionChanged" (
        "document index " ∷ scope.document_index.document_index_id ∷ " moved from "
        ∷ scope.document_index.index_version ∷ " to " ∷ published.document_index.index_version ∷ [])
      ∷ []
index_moved scope superseded _ = []

unfoldable pub scope_drift :
    List PublishedScope → List String → RetrievalScope → List CardImpactReason
unfolding index_moved
scope_drift published removal_indexes (managed_document scope) =
    index_moved scope (contains scope.document_index.document_index_id removal_indexes)
      (find (same_index scope.document_index.document_index_id) published)
scope_drift published removal_indexes _ = []

unfoldable pub find_index_drift :
    List RetrievalScope
    → List PublishedScope
    → (removal_indexes : List String) → List CardImpactReason
unfolding scope_drift
find_index_drift scopes published removal_indexes =
    flat_map (scope_drift published removal_indexes) scopes

abbrev changed_field_rule : PublishedChangedField → Option (String × String)
changed_field_rule PublishedChangedField.facts =
    some
      ("change.facts", "the observed facts the card text was written from are no longer the same")
changed_field_rule PublishedChangedField.kind = some (
  "change.kind",
  "the knowledge unit changed kind, so the card may describe a different sort of thing",
)
changed_field_rule PublishedChangedField.published_scopes = some (
  "change.publishedScopes",
  "the published search range changed, so the pinned scope reference needs a new revision",
)
changed_field_rule PublishedChangedField.source_coordinate =
    some ("change.sourceCoordinate", "the machine coordinate moved under the card")
changed_field_rule PublishedChangedField.provenance = none

field_reasons :
    String → (drift_already_reported : Bool) → PublishedChangedField → List CardImpactReason
field_reasons unit_id true PublishedChangedField.published_scopes = []
field_reasons unit_id drift field = elim (changed_field_rule field) [
  | none ↦ []
  | some entry ↦ reason (entry.0) ("knowledge unit " ∷ unit_id ∷ ": " ∷ entry.1 ∷ []) ∷ []
]

unfoldable pub describe_content_change :
    PublishedChange → (drift_already_reported : Bool) → List CardImpactReason
unfolding field_reasons
describe_content_change (updated unit_id _ _ fields) drift =
    flat_map (field_reasons unit_id drift) fields
describe_content_change _ drift = []

abbrev pub is_empty {ℓ} : {A : Type ℓ} → List A → Bool
is_empty [] = true
is_empty (_ ∷ _) = false

abbrev impact : CardVersion → CardImpactDecision → List CardImpactReason → CardImpact
impact version decision reasons = record {
  card_id = version.card_id;
  decision = decision;
  reasons = reasons;
}

unfoldable pub is_superseded : List CardImpactReason → Bool
is_superseded reasons = any (λ r. r.rule == superseded_by_removal) reasons

abbrev change_name : PublishedChange → String
change_name (added _ _) = "added"
change_name (updated _ _ _ _) = "updated"
change_name (removed _ _) = "removed"

-- The decision over the coordinates that are lost and the other reasons.
unfoldable pub weigh : CardVersion → (lost reasons : List CardImpactReason) → CardImpact
unfolding is_superseded
weigh version lost reasons =
    if not (is_empty lost)
    then impact version CardImpactDecision.block lost
    else if is_empty reasons
    then impact version CardImpactDecision.unaffected []
    else if is_superseded reasons
    then impact version CardImpactDecision.block reasons
    else impact version CardImpactDecision.review reasons

abbrev pub lost_coordinates : CardVersion → PublishedKnowledgeUnit → List CardImpactReason
lost_coordinates version unit =
    flat_map (λ scope. find_lost_coordinates scope unit.source_coordinate) version.scopes

-- A change that does not remove the Card's unit, against the unit as it is now.
unfoldable pub compare_unit :
    CardVersion
    → PublishedChange
    → PublishedKnowledgeUnit
    → (removal_indexes : List String) → CardImpact
unfolding find_lost_coordinates find_index_drift describe_content_change weigh
compare_unit version change unit removal_indexes =
    let drift = find_index_drift version.scopes unit.published_scopes removal_indexes in
    weigh version (lost_coordinates version unit)
      (drift ++ describe_content_change change (not (is_empty drift)))

unfoldable pub changed_unit :
    CardVersion
    → PublishedChange
    → Option PublishedKnowledgeUnit
    → (removal_indexes : List String) → CardImpact
unfolding compare_unit
changed_unit version (removed unit_id _) current removal_indexes =
    impact version CardImpactDecision.disable (
      reason "change.removed" ("knowledge unit " ∷ unit_id ∷ " no longer exists in the source" ∷ [])
      ∷ [])
changed_unit version change none removal_indexes = impact version CardImpactDecision.block (
    reason "change.unitMissing" (
      "knowledge unit "
      ∷ unit_of_change change
      ∷ " was "
      ∷ change_name change
      ∷ " but is absent from the publication"
      ∷ [])
    ∷ [])
changed_unit version change (some unit) removal_indexes =
    compare_unit version change unit removal_indexes

unfoldable pub analyze_card_impact :
    CardVersion
    → PublishedChange
    → Option PublishedKnowledgeUnit
    → (removal_indexes : List String) → CardImpact
unfolding changed_unit
analyze_card_impact version change current removal_indexes =
    if not (unit_of_change change == version.lineage.knowledge_unit_id)
    then impact version CardImpactDecision.unaffected []
    else changed_unit version change current removal_indexes
