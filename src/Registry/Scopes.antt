-- ===== src/Registry/Scopes.antt =====
-- packages/registry-lifecycle/src/domain/retrieval-scope.ts: a published scope as the scope of a Card.
use contextctl.Registry.Model.{
  RetrievalScope, managed_document, sql_source, http_source, semantic_units, whole_document,
  ManagedDocumentSelection,
}
use contextctl.Registry.Publications.{
  PublishedScope, PublishedSelector, document_selector, units_selector, published_document,
  published_sql, published_http,
}

abbrev selection_of : PublishedSelector → ManagedDocumentSelection
selection_of document_selector = whole_document
selection_of (units_selector ids) = semantic_units ids

unfoldable pub translate_published_scope : PublishedScope → RetrievalScope
translate_published_scope (published_document scope) = managed_document (record {
  reference = record { scope_id = scope.scope_id; scope_version = scope.scope_version };
  document_index = scope.document_index;
  selection = selection_of scope.selector;
})
translate_published_scope (published_sql scope) = sql_source (record {
  reference = record { scope_id = scope.scope_id; scope_version = scope.scope_version };
  connector = scope.connector;
  schema = scope.schema;
  table = scope.table;
  columns = scope.columns;
})
translate_published_scope (published_http scope) = http_source (record {
  reference = record { scope_id = scope.scope_id; scope_version = scope.scope_version };
  connector = scope.connector;
  method = scope.method;
  path = scope.path;
  operation_id = scope.operation_id;
  parameters = scope.parameters;
})
