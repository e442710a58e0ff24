-- ===== src/Registry/Grounding/Scopes.antt =====
-- fact-grounding.ts: the checks of the meaning's texts and of the scopes, and the limits of
-- approved-card-read-v1.
use contextctl.Common.{
  flat_map, ℕ, String, string_instance, Bool, true, false, not, ◌&&◌, List, [], ◌∷◌, ◌++◌, contains,
  ◌==◌, ltb, nat_eq, if◌then◌else◌, length,
}
use contextctl.Registry.Model.{
  CardMeaning, GroundingFinding, RetrievalScope, ManagedDocumentScope, ManagedDocumentSelection,
  SqlSourceScope, HttpSourceScope, managed_document, sql_source, http_source, whole_document,
  semantic_units,
}
use contextctl.Registry.Publications.{
  SourceCoordinate, coordinate_kind, document, sql_table, http_operation,
}
use contextctl.Registry.Decisions.{code_units}
use contextctl.Registry.Grounding.Texts.{
  Unicode, fatal_finding, is_blank, is_control, some_char, decimal,
}

-- READ_MODEL_LIMITS
abbrev pub max_description : ℕ
max_description = 1_024

abbrev pub max_questions : ℕ
max_questions = 16

abbrev pub max_question : ℕ
max_question = 512

abbrev pub max_aliases : ℕ
max_aliases = 32

abbrev pub max_alias : ℕ
max_alias = 128

abbrev pub max_keywords : ℕ
max_keywords = 64

abbrev pub max_keyword : ℕ
max_keyword = 64

abbrev pub max_scopes : ℕ
max_scopes = 64

abbrev pub max_scope_token : ℕ
max_scope_token = 256

abbrev when : Bool → GroundingFinding → List GroundingFinding
when test finding = if test then finding ∷ [] else []

module _ (unicode : Unicode) where
  unfoldable pub check_text :
      (rule value : String) (max : ℕ) (required : Bool) → List GroundingFinding
  check_text rule value max required =
      if is_blank unicode value
      then when required (fatal_finding rule (rule ∷ " must not be blank" ∷ []))
      else when (ltb max (code_units value)) (
          fatal_finding rule (
            rule
            ∷ " is "
            ∷ decimal (code_units value)
            ∷ " code units, over the "
            ∷ decimal max
            ∷ " allowed by approved-card-read-v1"
            ∷ []))
        ++ when (some_char is_control value)
            (fatal_finding rule (rule ∷ " contains a control character" ∷ []))

  unfoldable pub check_texts : (rule : String) (each : ℕ) → List String → List GroundingFinding
  check_texts rule each values = flat_map (λ value. check_text rule value each true) values

  unfoldable pub check_text_list :
      (rule : String) (values : List String) (count each : ℕ) (required : Bool)
      → List GroundingFinding
  unfolding check_texts
  check_text_list rule values count each required =
      when (required && nat_eq (length values) 0)
        (fatal_finding rule ("at least one " ∷ rule ∷ " entry is required" ∷ []))
      ++ (when (ltb count (length values)) (
            fatal_finding rule (
              rule
              ∷ " has "
              ∷ decimal (length values)
              ∷ " entries, over the "
              ∷ decimal count
              ∷ " allowed by approved-card-read-v1"
              ∷ []))
          ++ check_texts rule each values)

  unfoldable pub check_meaning : CardMeaning → List GroundingFinding
  unfolding check_text check_text_list
  check_meaning meaning =
      check_text "meaning.description" meaning.description max_description true
      ++ (check_text_list "meaning.representativeQuestions" meaning.representative_questions
            max_questions max_question true
          ++ (check_text_list "meaning.aliases" meaning.aliases max_aliases max_alias false
              ++ check_text_list "meaning.keywords" meaning.keywords max_keywords max_keyword
                  false))

  abbrev pub scope_tokens : RetrievalScope → List String
  scope_tokens (managed_document scope) =
      scope.reference.scope_id ∷ scope.reference.scope_version
      ∷ scope.document_index.document_index_id ∷ scope.document_index.source_id
      ∷ scope.document_index.document_id ∷ scope.document_index.index_version ∷ []
  scope_tokens (sql_source scope) =
      scope.reference.scope_id ∷ scope.reference.scope_version ∷ scope.connector ∷ scope.table
      ∷ scope.columns
  scope_tokens (http_source scope) =
      scope.reference.scope_id ∷ scope.reference.scope_version ∷ scope.connector ∷ scope.path ∷ []

  unfoldable pub check_scope_tokens : RetrievalScope → List GroundingFinding
  unfolding check_text
  check_scope_tokens scope =
      flat_map (λ token. check_text "scope.token" token max_scope_token true) (scope_tokens scope)

omits : ManagedDocumentSelection → String → Bool
omits whole_document unit_id = false
omits (semantic_units ids) unit_id = not (contains unit_id ids)

unfoldable pub check_managed_document_scope :
    (source_id document_id semantic_unit_id : String) → ManagedDocumentScope → List GroundingFinding
unfolding omits
check_managed_document_scope source_id document_id semantic_unit_id scope =
    when (not (scope.document_index.source_id == source_id)) (
      fatal_finding "scope.document.sourceId" (
        "document index source " ∷ scope.document_index.source_id
        ∷ " does not match observed source " ∷ source_id ∷ []))
    ++ (when (not (scope.document_index.document_id == document_id)) (
          fatal_finding "scope.document.documentId" (
            "document index document " ∷ scope.document_index.document_id
            ∷ " does not match observed document " ∷ document_id ∷ []))
        ++ when (omits scope.selection semantic_unit_id) (
            fatal_finding "scope.document.semanticUnitIds"
              ("semantic selection omits the observed unit " ∷ semantic_unit_id ∷ [])))

unfoldable pub unknown_columns :
    (table : String) (observed columns : List String) → List GroundingFinding
unknown_columns table observed columns =
    flat_map
      (λ column. when (not (contains column observed)) (
        fatal_finding "scope.sql.columns"
          ("column " ∷ column ∷ " does not exist in observed table " ∷ table ∷ [])))
      columns

unfoldable pub check_sql_scope :
    (table : String) (columns : List String) → SqlSourceScope → List GroundingFinding
unfolding unknown_columns
check_sql_scope table columns scope =
    when (not (scope.table == table)) (
      fatal_finding "scope.sql.table"
        ("table " ∷ scope.table ∷ " does not match observed table " ∷ table ∷ []))
    ++ unknown_columns table columns scope.columns

unfoldable pub check_http_scope : (method path : String) → HttpSourceScope → List GroundingFinding
check_http_scope method path scope =
    when (not (scope.method == method)) (
      fatal_finding "scope.http.method"
        ("method " ∷ scope.method ∷ " does not match observed method " ∷ method ∷ []))
    ++ when (not (scope.path == path)) (
        fatal_finding "scope.http.path"
          ("path " ∷ scope.path ∷ " does not match observed path " ∷ path ∷ []))

abbrev scope_kind : RetrievalScope → String
scope_kind (managed_document _) = "managed_document"
scope_kind (sql_source _) = "sql_source"
scope_kind (http_source _) = "http_source"

incompatible : SourceCoordinate → RetrievalScope → List GroundingFinding
incompatible coordinate scope =
    fatal_finding "scope.kind" (
      "scope "
      ∷ scope_kind scope
      ∷ " is incompatible with "
      ∷ coordinate_kind coordinate
      ∷ " coordinate"
      ∷ [])
    ∷ []

unfoldable pub check_scope : SourceCoordinate → RetrievalScope → List GroundingFinding
unfolding check_managed_document_scope check_sql_scope check_http_scope incompatible
check_scope (document source_id document_id unit_id) (managed_document scope) =
    check_managed_document_scope source_id document_id unit_id scope
check_scope (sql_table source_id schema table columns) (sql_source scope) =
    check_sql_scope table columns scope
check_scope (http_operation source_id method path operation_id parameters) (http_source scope) =
    check_http_scope method path scope
check_scope coordinate scope = incompatible coordinate scope
