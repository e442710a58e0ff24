-- ===== src/Registry/Model.antt =====
-- The data of the registry: domain/lineage.ts, retrieval-scope.ts, card-meaning.ts,
-- fact-grounding.ts, card-version.ts, context-card.ts, card-impact.ts and lifecycle-event.ts, and
-- the Publication that packages/contracts hands over. A fact's value is its canonical text.
use contextctl.Common.{String, Bool, Option, List}

pub record CardLineage : Type 0 where
  pub publication_id : String
  pub observation_id : String
  pub knowledge_unit_id : String

pub record RetrievalScopeReference : Type 0 where
  pub scope_id : String
  pub scope_version : String

pub record DocumentIndexRef : Type 0 where
  pub document_index_id : String
  pub source_id : String
  pub document_id : String
  pub index_version : String

pub data ManagedDocumentSelection : Type 0 where
  whole_document : ManagedDocumentSelection
  semantic_units : List String → ManagedDocumentSelection

pub record ManagedDocumentScope : Type 0 where
  pub reference : RetrievalScopeReference
  pub document_index : DocumentIndexRef
  pub selection : ManagedDocumentSelection

pub record SqlSourceScope : Type 0 where
  pub reference : RetrievalScopeReference
  pub connector : String
  pub schema : String
  pub table : String
  pub columns : List String

pub record HttpParameterRef : Type 0 where
  pub location : String
  pub name : String
  pub required : Bool

-- `method` is always "GET".
pub record HttpSourceScope : Type 0 where
  pub reference : RetrievalScopeReference
  pub connector : String
  pub method : String
  pub path : String
  pub operation_id : Option String
  pub parameters : List HttpParameterRef

pub data RetrievalScope : Type 0 where
  managed_document : ManagedDocumentScope → RetrievalScope
  sql_source : SqlSourceScope → RetrievalScope
  http_source : HttpSourceScope → RetrievalScope

pub record CardMeaning : Type 0 where
  pub description : String
  pub representative_questions : List String
  pub aliases : List String
  pub keywords : List String

pub data MeaningField : Type 0 where
  description representative_questions aliases keywords : MeaningField

pub data Generator : Type 0 where
  deterministic model : Generator

pub record CardMeaningOrigin : Type 0 where
  pub generator : Generator
  pub model_name : Option String
  pub fallback_from_model : Option String

pub data Severity : Type 0 where
  fatal review : Severity

pub record GroundingFinding : Type 0 where
  pub rule : String
  pub message : String
  pub severity : Severity

pub record FactCoverage : Type 0 where
  pub covered : List String
  pub uncovered : List String

pub data GroundingVerdict : Type 0 where
  validated rejected needs_review : GroundingVerdict

pub record GroundingReport : Type 0 where
  pub verdict : GroundingVerdict
  pub findings : List GroundingFinding
  pub fact_coverage : FactCoverage
  pub origin : CardMeaningOrigin

pub data CardValidationState : Type 0 where
  draft validated rejected : CardValidationState

pub record MeaningChangeComparison : Type 0 where
  pub previous_version_id : String
  pub changed_fields : List MeaningField
  pub coverage_lost : List String
  pub coverage_gained : List String

pub record CardVersion : Type 0 where
  pub id : String
  pub card_id : String
  pub lineage : CardLineage
  pub scopes : List RetrievalScope
  pub validation_state : CardValidationState
  pub created_at : String
  pub meaning : Option CardMeaning
  pub grounding : Option GroundingReport
  pub change_from_previous : Option MeaningChangeComparison

pub record CardVersionHistory : Type 0 where
  pub card_id : String
  pub versions : List CardVersion
  pub current_version_id : Option String

pub record CardPolicy : Type 0 where
  pub sensitive : Bool
  pub allowed_usage : List String

pub record ContextCard : Type 0 where
  pub id : String
  pub meaning : CardMeaning
  pub policy : CardPolicy
  pub versions : CardVersionHistory

pub data CardImpactDecision : Type 0 where
  unaffected review block disable : CardImpactDecision

pub record CardImpactReason : Type 0 where
  pub rule : String
  pub message : String

pub record CardImpact : Type 0 where
  pub card_id : String
  pub decision : CardImpactDecision
  pub reasons : List CardImpactReason

-- What an event says beside its id, its Card and its time.
pub data EventKind : Type 0 where
  card_version_added : (version_id publication_id : String) → EventKind
  card_version_promoted :
      (version_id : String)
      → (previous_version_id : Option String) → (decided_by : String) → (note : Option String)
      → EventKind
  card_version_refused : (version_id decided_by : String) → (note : Option String) → EventKind
  card_withdrawn :
      (withdrawn_version_id : Option String)
      → (decided_by : String) → (note : Option String) → EventKind
  card_impact_assessed :
      (publication_id : String) → CardImpactDecision → List CardImpactReason → EventKind

pub record LifecycleEvent : Type 0 where
  pub id : String
  pub card_id : String
  pub occurred_at : String
  pub kind : EventKind
