-- ===== src/Registry/Publications.antt =====
-- packages/contracts/src/ingestion-registry: the Publication that Ingestion hands to the registry, as
-- its schemas describe it. The provenance is its canonical
-- text.
use contextctl.Common.{String, Option, List}
use contextctl.Registry.Model.{DocumentIndexRef, HttpParameterRef}

pub data SourceCoordinate : Type 0 where
  document : (source_id document_id semantic_unit_id : String) → SourceCoordinate
  sql_table : (source_id schema table : String) → (columns : List String) → SourceCoordinate
  http_operation :
      (source_id method path : String)
      → (operation_id : Option String) → List HttpParameterRef
      → SourceCoordinate

pub data PublishedSelector : Type 0 where
  document_selector : PublishedSelector
  units_selector : (semantic_unit_ids : List String) → PublishedSelector

pub record PublishedDocumentScope : Type 0 where
  pub scope_id : String
  pub scope_version : String
  pub document_index : DocumentIndexRef
  pub selector : PublishedSelector

pub record PublishedSqlScope : Type 0 where
  pub scope_id : String
  pub scope_version : String
  pub connector : String
  pub schema : String
  pub table : String
  pub columns : List String

-- `method` is always "GET".
pub record PublishedHttpScope : Type 0 where
  pub scope_id : String
  pub scope_version : String
  pub connector : String
  pub method : String
  pub path : String
  pub operation_id : Option String
  pub parameters : List HttpParameterRef

pub data PublishedScope : Type 0 where
  published_document : PublishedDocumentScope → PublishedScope
  published_sql : PublishedSqlScope → PublishedScope
  published_http : PublishedHttpScope → PublishedScope

-- Each scalar as the text that `String(value)` gives.
pub data FactValue : Type 0 where
  scalar : String → FactValue
  scalars : List String → FactValue

pub record PublishedFact : Type 0 where
  pub name : String
  pub value : FactValue

pub record PublishedKnowledgeUnit : Type 0 where
  pub id : String
  pub kind : String
  pub source_coordinate : SourceCoordinate
  pub facts : List PublishedFact
  pub published_scopes : List PublishedScope
  pub provenance : String
  pub content_digest : String

pub data PublishedChangedField : Type 0 where
  facts kind provenance published_scopes source_coordinate : PublishedChangedField

pub data PublishedChange : Type 0 where
  added : (knowledge_unit_id current_content_digest : String) → PublishedChange
  updated :
      (knowledge_unit_id previous_content_digest current_content_digest : String)
      → (changed_fields : List PublishedChangedField) → PublishedChange
  removed : (knowledge_unit_id previous_content_digest : String) → PublishedChange

pub record IngestionPublication : Type 0 where
  pub publication_id : String
  pub source_id : String
  pub observation_id : String
  pub previous_publication_id : Option String
  pub produced_at : String
  pub knowledge_units : List PublishedKnowledgeUnit
  pub changes : List PublishedChange

abbrev pub unit_of_change : PublishedChange → String
unit_of_change (added id _) = id
unit_of_change (updated id _ _ _) = id
unit_of_change (removed id _) = id

abbrev pub coordinate_kind : SourceCoordinate → String
coordinate_kind (document _ _ _) = "document"
coordinate_kind (sql_table _ _ _ _) = "sql_table"
coordinate_kind (http_operation _ _ _ _ _) = "http_operation"
