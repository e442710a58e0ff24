-- ===== src/Registry/Assessment.antt =====
-- packages/registry-lifecycle/src/application/assess-publication-impact.ts: one Publication against
-- the Cards that serve.
pub mod Complete
pub mod Removals
use contextctl.Common.{
  flat_map, ◌+◌, String, string_instance, Bool, true, false, not, Option, none, some, List, [], ◌∷◌,
  ◌++◌, map, filter, contains, add, set_of, ◌==◌, if◌then◌else◌, ◌≡◌, refl, ap, ap₂, ok, Bool-cases,
  ◌⊎◌, inl, inr, filter-append,
}
use contextctl.Registry.Model.{
  CardVersion, CardImpact, CardImpactDecision, unaffected, LifecycleEvent, EventKind,
  card_impact_assessed, RetrievalScope, managed_document,
}
use contextctl.Registry.Publications.{
  IngestionPublication, PublishedChange, PublishedKnowledgeUnit, removed, unit_of_change,
}
use contextctl.Registry.Impact.{analyze_card_impact}
use contextctl.Registry.Effects.{World, Supplies, Action, ◌>>=◌, return, now, next_id}

pub record PublicationImpactAssessment : Type 0 where
  pub impacts : List CardImpact
  pub events : List LifecycleEvent

-- `unitsById.get`: the last unit of an id.
unfoldable pub unit_by_id : String → List PublishedKnowledgeUnit → Option PublishedKnowledgeUnit
unit_by_id id [] = none
unit_by_id id (unit ∷ units) = elim (unit_by_id id units) [
  | some later ↦ some later
  | none ↦ if unit.id == id then some unit else none
]

abbrev removed_ids : List PublishedChange → List String
removed_ids [] = []
removed_ids (removed id _ ∷ changes) = id ∷ removed_ids changes
removed_ids (_ ∷ changes) = removed_ids changes

add_indexes : List String → List RetrievalScope → List String
add_indexes indexes [] = indexes
add_indexes indexes (managed_document scope ∷ scopes) =
    add_indexes (add indexes scope.document_index.document_index_id) scopes
add_indexes indexes (_ ∷ scopes) = add_indexes indexes scopes

indexes_of : (removed : List String) → (indexes : List String) → List CardVersion → List String
unfolding add_indexes
indexes_of gone indexes [] = indexes
indexes_of gone indexes (version ∷ versions) =
    indexes_of gone
      (if not (contains version.lineage.knowledge_unit_id gone)
        then indexes
        else add_indexes indexes version.scopes)
      versions

unfoldable pub document_indexes_with_removals :
    IngestionPublication → List CardVersion → List String
unfolding indexes_of
document_indexes_with_removals publication versions =
    elim (set_of [] (removed_ids publication.changes)) [
      | [] ↦ []
      | first ∷ rest ↦ indexes_of (first ∷ rest) [] versions
    ]

abbrev pub is_unaffected : CardImpactDecision → Bool
is_unaffected unaffected = true
is_unaffected _ = false

abbrev no_assessment : PublicationImpactAssessment
no_assessment = record { impacts = []; events = [] }

abbrev event_of : String → String → String → CardImpact → LifecycleEvent
event_of publication_id occurred_at id impact = record {
  id = id;
  card_id = impact.card_id;
  occurred_at = occurred_at;
  kind = card_impact_assessed publication_id impact.decision impact.reasons;
}

-- One round of the inner loop, before the rest of it.
unfoldable pub assess_one :
    Supplies
    → (publication_id occurred_at : String) → CardImpact
    → Action PublicationImpactAssessment
    → Action PublicationImpactAssessment
assess_one s publication_id occurred_at impact rest =
    if is_unaffected impact.decision then rest else do
      id ← next_id s
      later ← rest
      return (record {
        impacts = impact ∷ later.impacts;
        events = event_of publication_id occurred_at id impact ∷ later.events;
      })

unfoldable pub assess_changes :
    Supplies
    → IngestionPublication
    → (removal_indexes : List String) → (occurred_at : String) → CardVersion
    → List PublishedChange
    → Action PublicationImpactAssessment
    → Action PublicationImpactAssessment
unfolding assess_one
assess_changes s publication removal_indexes occurred_at version [] rest = rest
assess_changes s publication removal_indexes occurred_at version (change ∷ changes) rest =
    assess_one s publication.publication_id occurred_at
      (analyze_card_impact version change
        (unit_by_id (unit_of_change change) publication.knowledge_units) removal_indexes)
      (assess_changes s publication removal_indexes occurred_at version changes rest)

unfoldable pub assess_versions :
    Supplies
    → IngestionPublication
    → (removal_indexes : List String) → (occurred_at : String) → List CardVersion
    → Action PublicationImpactAssessment
unfolding assess_changes
assess_versions s publication removal_indexes occurred_at [] = return no_assessment
assess_versions s publication removal_indexes occurred_at (version ∷ versions) =
    assess_changes s publication removal_indexes occurred_at version publication.changes
      (assess_versions s publication removal_indexes occurred_at versions)

unfoldable pub assess_publication_impact :
    Supplies → IngestionPublication → List CardVersion → Action PublicationImpactAssessment
unfolding assess_versions
assess_publication_impact s publication versions = do
  let removal_indexes = document_indexes_with_removals publication versions
  occurred_at ← now s
  assess_versions s publication removal_indexes occurred_at versions
