-- ===== src/Registry/Grounding/Fragments.antt =====
-- fact-grounding.ts: the machine-readable fragments of a meaning, and what the observation accounts for.
use contextctl.Common.{
  text, flat_map, String, string_instance, Bool, true, false, List, [], ◌∷◌, ◌++◌, map, contains,
  set_of, Option, none, some, if◌then◌else◌,
}
use contextctl.Registry.Model.{
  CardMeaning, GroundingFinding, RetrievalScope, ManagedDocumentSelection, FactCoverage,
  managed_document, sql_source, http_source, whole_document, semantic_units,
}
use contextctl.Registry.Publications.{
  SourceCoordinate, document, sql_table, http_operation, PublishedFact, FactValue, scalar, scalars,
}
use contextctl.Registry.Grounding.Texts.{
  Unicode, fatal_finding, tokenize, digit_runs, machine_fragments, includes,
}

unfoldable pub meaning_texts : CardMeaning → List (String × String)
meaning_texts meaning =
    ("meaning.description", meaning.description)
      ∷ map (λ question. ("meaning.representativeQuestions", question))
          meaning.representative_questions
    ++ (map (λ alias. ("meaning.aliases", alias)) meaning.aliases
        ++ map (λ keyword. ("meaning.keywords", keyword)) meaning.keywords)

abbrev pub scalars_of : FactValue → List String
scalars_of (scalar value) = value ∷ []
scalars_of (scalars values) = values

abbrev optional : Option String → List String
optional none = []
optional (some value) = value ∷ []

unfoldable pub coordinate_values : SourceCoordinate → List String
coordinate_values (document source_id document_id unit_id) = source_id ∷ document_id ∷ unit_id ∷ []
coordinate_values (sql_table source_id schema table columns) = source_id ∷ schema ∷ table ∷ columns
coordinate_values (http_operation source_id method path operation_id parameters) =
    source_id ∷ method ∷ path ∷ optional operation_id ++ map (λ p. p.name) parameters

abbrev selected_units : ManagedDocumentSelection → List String
selected_units whole_document = []
selected_units (semantic_units ids) = ids

unfoldable pub scope_values : RetrievalScope → List String
scope_values (managed_document scope) =
    scope.reference.scope_id
    ∷ scope.reference.scope_version
    ∷ scope.document_index.document_index_id
    ∷ scope.document_index.source_id
    ∷ scope.document_index.document_id
    ∷ scope.document_index.index_version
    ∷ selected_units scope.selection
scope_values (sql_source scope) =
    scope.reference.scope_id ∷ scope.reference.scope_version ∷ scope.connector ∷ scope.schema
    ∷ scope.table ∷ scope.columns
scope_values (http_source scope) =
    scope.reference.scope_id
      ∷ scope.reference.scope_version
      ∷ scope.connector
      ∷ scope.method
      ∷ scope.path
      ∷ optional scope.operation_id
    ++ map (λ p. p.name) scope.parameters

-- The values that `allowedTokens` admits, in its order.
unfoldable pub observed_values :
    SourceCoordinate → List PublishedFact → List RetrievalScope → List String
unfolding coordinate_values scope_values
observed_values coordinate facts scopes =
    flat_map (λ fact. scalars_of fact.value) facts
    ++ (coordinate_values coordinate ++ flat_map scope_values scopes)

module _ (unicode : Unicode) where
  -- What `admit` adds to the set.
  unfoldable pub admitted : String → List String
  unfolding tokenize digit_runs
  admitted value =
      unicode.lower value ∷ map unicode.lower (tokenize unicode value ++ digit_runs value)

  unfoldable pub allowed_tokens :
      SourceCoordinate → List PublishedFact → List RetrievalScope → List String
  unfolding admitted observed_values
  allowed_tokens coordinate facts scopes =
      set_of [] (flat_map admitted (observed_values coordinate facts scopes))

  unfoldable pub fabricated_one :
      (allowed : List String) (field fragment : String) → List GroundingFinding
  fabricated_one allowed field fragment =
      if contains (unicode.lower fragment) allowed
      then []
      else fatal_finding "meaning.fabricatedValue" (
          field ∷ " names \"" ∷ fragment
          ∷ "\", which exists in neither the unit's facts nor its coordinate" ∷ [])
        ∷ []

  unfoldable pub fabricated : (allowed : List String) (field value : String) → List GroundingFinding
  unfolding fabricated_one machine_fragments
  fabricated allowed field value =
      flat_map (fabricated_one allowed field) (machine_fragments unicode value)

  unfoldable pub check_machine_fragments :
      SourceCoordinate
      → List PublishedFact
      → List RetrievalScope
      → CardMeaning
      → List GroundingFinding
  unfolding allowed_tokens fabricated meaning_texts
  check_machine_fragments coordinate facts scopes meaning =
      let allowed = allowed_tokens coordinate facts scopes in
      flat_map (λ named. fabricated allowed named.0 named.1) (meaning_texts meaning)

  join_lines : List String → String
  join_lines [] = ""
  join_lines (line ∷ []) = line
  join_lines (line ∷ lines) = text (line ∷ "\n" ∷ join_lines lines ∷ [])

  unfoldable pub all_included : (haystack : String) → List String → Bool
  all_included haystack [] = true
  all_included haystack (value ∷ values) =
      let rest = all_included haystack values in
      if includes (unicode.lower value) haystack then rest else false

  cover : (haystack : String) → List PublishedFact → FactCoverage
  unfolding all_included
  cover haystack [] = record { covered = []; uncovered = [] }
  cover haystack (fact ∷ facts) =
      let rest = cover haystack facts in
      if all_included haystack (scalars_of fact.value)
      then record rest { covered = fact.name ∷ rest.covered }
      else record rest { uncovered = fact.name ∷ rest.uncovered }

  unfoldable pub compute_fact_coverage : List PublishedFact → CardMeaning → FactCoverage
  unfolding cover join_lines
  compute_fact_coverage facts meaning =
      cover (unicode.lower (join_lines (map (λ named. named.1) (meaning_texts meaning)))) facts
