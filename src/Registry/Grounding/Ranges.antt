-- ===== src/Registry/Grounding/Ranges.antt =====
-- fact-grounding.ts: when a scope is a range of the observed source.
use contextctl.Common.{
  flat_map, ◌≡◌, ◌↔◌, refl, String, string_instance, true, List, [], ◌∷◌, any, any-append, All,
  arith, contains, ◌==◌, ==_iff,
}
use contextctl.Registry.Model.{
  RetrievalScope, ManagedDocumentScope, ManagedDocumentSelection, SqlSourceScope, HttpSourceScope,
  managed_document, sql_source, http_source, whole_document, semantic_units,
}
use contextctl.Registry.Publications.{SourceCoordinate, document, sql_table, http_operation}
use contextctl.Registry.Grounding.Scopes.{
  check_scope, check_managed_document_scope, check_sql_scope, check_http_scope, unknown_columns,
}
use contextctl.Registry.Grounding.Passing.{Passes}

abbrev Selects : ManagedDocumentSelection → String → Type 0
Selects whole_document unit_id = Unit
Selects (semantic_units ids) unit_id = contains unit_id ids ≡ true

-- What a scope has in common with the coordinate that was observed: of a document the source, the
-- document and, if semantic units are selected, the unit; of a table its name, and only columns that
-- it has (the source and the schema are not compared); of an operation the method and the path.
abbrev pub Matches : SourceCoordinate → RetrievalScope → Type 0
Matches (document source_id document_id unit_id) (managed_document scope) =
    (scope.document_index.source_id ≡ source_id)
    × (scope.document_index.document_id ≡ document_id)
    × Selects scope.selection unit_id
Matches (sql_table source_id schema table columns) (sql_source scope) =
    (scope.table ≡ table) × All (λ column. contains column columns ≡ true) scope.columns
Matches (http_operation source_id method path operation_id parameters) (http_source scope) =
    (scope.method ≡ method) × (scope.path ≡ path)
Matches coordinate scope = ⊥

document_iff :
    (source_id document_id unit_id : String) (scope : ManagedDocumentScope)
    (selection : ManagedDocumentSelection)
    → scope.selection ≡ selection
    → Passes (check_managed_document_scope source_id document_id unit_id scope) ↔ (
        (scope.document_index.source_id ≡ source_id)
        × (scope.document_index.document_id ≡ document_id)
        × Selects selection unit_id)
unfolding check_managed_document_scope any
document_iff source_id document_id unit_id scope whole_document e =
    let source = ==_iff scope.document_index.source_id source_id in
    let doc = ==_iff scope.document_index.document_id document_id in
    rw e (ground (arith, source, doc), ground (arith, source, doc))
document_iff source_id document_id unit_id scope (semantic_units ids) e =
    let source = ==_iff scope.document_index.source_id source_id in
    let doc = ==_iff scope.document_index.document_id document_id in
    rw e (ground (arith, source, doc), ground (arith, source, doc))

unknown_columns_iff :
    (table : String) (observed columns : List String)
    → Passes (unknown_columns table observed columns)
      ↔ All (λ column. contains column observed ≡ true) columns
unfolding unknown_columns any
unknown_columns_iff table observed [] = (λ h. tt, λ h. refl)
unknown_columns_iff table observed (column ∷ columns) =
    let rest = unknown_columns_iff table observed columns in
    (ground (arith, rest.0), ground (arith, rest.1))

sql_iff :
    (table : String) (columns : List String) (scope : SqlSourceScope)
    → Passes (check_sql_scope table columns scope)
      ↔ ((scope.table ≡ table) × All (λ column. contains column columns ≡ true) scope.columns)
unfolding check_sql_scope any
sql_iff table columns scope =
    let rest = unknown_columns_iff table columns scope.columns in
    let same = ==_iff scope.table table in
    (ground (arith, rest.0, same), ground (arith, rest.1, same))

http_iff :
    (method path : String) (scope : HttpSourceScope)
    → Passes (check_http_scope method path scope) ↔ ((scope.method ≡ method) × (scope.path ≡ path))
unfolding check_http_scope any
http_iff method path scope =
    let m = ==_iff scope.method method in
    let p = ==_iff scope.path path in (ground (arith, m, p), ground (arith, m, p))

pub check_scope_iff :
    (coordinate : SourceCoordinate) (scope : RetrievalScope)
    → Passes (check_scope coordinate scope) ↔ Matches coordinate scope
unfolding check_scope any
check_scope_iff (document source_id document_id unit_id) (managed_document scope) =
    document_iff source_id document_id unit_id scope scope.selection refl
check_scope_iff (sql_table source_id schema table columns) (sql_source scope) =
    sql_iff table columns scope
check_scope_iff (http_operation source_id method path operation_id parameters) (http_source scope) =
    http_iff method path scope
check_scope_iff (document source_id document_id unit_id) (sql_source scope) =
    (λ h. cc, λ h. absurd h)
check_scope_iff (document source_id document_id unit_id) (http_source scope) =
    (λ h. cc, λ h. absurd h)
check_scope_iff (sql_table source_id schema table columns) (managed_document scope) =
    (λ h. cc, λ h. absurd h)
check_scope_iff (sql_table source_id schema table columns) (http_source scope) =
    (λ h. cc, λ h. absurd h)
check_scope_iff (http_operation source_id method path operation_id parameters)
      (managed_document scope) =
    (λ h. cc, λ h. absurd h)
check_scope_iff (http_operation source_id method path operation_id parameters) (sql_source scope) =
    (λ h. cc, λ h. absurd h)

pub contains-flat_map :
    (a : String) (f : String → List String) (values : List String)
    → contains a (flat_map f values) ≡ any (λ value. contains a (f value)) values
unfolding contains any
contains-flat_map a f [] = refl
contains-flat_map a f (value ∷ values) =
    rw (any-append (λ x. x == a) (f value) (flat_map f values), contains-flat_map a f values) refl
