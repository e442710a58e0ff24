-- ===== src/Registry/Assessment/Removals.antt =====
-- assess-publication-impact.ts: the indexes that a Publication removed knowledge from, and what becomes of
-- the Cards that stay pinned to what they were.
use contextctl.Common.{
  String, string_instance, ◌≡◌, ◌≢◌, ◌∙◌, Bool, true, false, not, some, List, [], ◌∷◌, ◌++◌, Exists,
  inl, inr, arith, find, contains, add, set_of, contains-add, contains-set_of, ==_iff,
  if◌then◌else◌,
}
use contextctl.Registry.Model.{
  CardVersion, RetrievalScope, managed_document, sql_source, http_source, ManagedDocumentScope,
  block,
}
use contextctl.Registry.Publications.{
  IngestionPublication, PublishedChange, PublishedKnowledgeUnit, PublishedDocumentScope, added,
  updated, removed, published_document, unit_of_change,
}
use contextctl.Registry.Impact.{analyze_card_impact, same_index}
use contextctl.Registry.Impact.Rules.{is_removal, analyze-superseded}
use contextctl.Registry.Assessment.{
  document_indexes_with_removals, indexes_of, add_indexes, removed_ids,
}

-- The scope is pinned to a version of the index.
abbrev pub Pins : (index_id : String) → RetrievalScope → Type 0
Pins index_id (managed_document scope) = scope.document_index.document_index_id ≡ index_id
Pins index_id _ = ⊥

abbrev pub Removes : (unit_id : String) → PublishedChange → Type 0
Removes unit_id (removed id digest) = id ≡ unit_id
Removes unit_id _ = ⊥

-- The version stands for a unit that is removed, and its scopes reach the index.
abbrev pub LosesFrom : (index_id : String) → List PublishedChange → CardVersion → Type 0
LosesFrom index_id changes version =
    Exists (Removes version.lineage.knowledge_unit_id) changes
    × Exists (Pins index_id) version.scopes

removed_ids-contains :
    (unit_id : String) (changes : List PublishedChange)
    → Exists (Removes unit_id) changes
    → contains unit_id (removed_ids changes) ≡ true
unfolding contains
removed_ids-contains unit_id [] h = absurd h
removed_ids-contains unit_id (removed id digest ∷ changes) (inl h) =
    ground (arith, (==_iff id unit_id).1 h)
removed_ids-contains unit_id (removed id digest ∷ changes) (inr h) =
    ground (arith, removed_ids-contains unit_id changes h)
removed_ids-contains unit_id (added id digest ∷ changes) (inl h) = absurd h
removed_ids-contains unit_id (added id digest ∷ changes) (inr h) =
    removed_ids-contains unit_id changes h
removed_ids-contains unit_id (updated id old digest fields ∷ changes) (inl h) = absurd h
removed_ids-contains unit_id (updated id old digest fields ∷ changes) (inr h) =
    removed_ids-contains unit_id changes h

add_indexes-keeps :
    (a : String) (scopes : List RetrievalScope) (indexes : List String)
    → contains a indexes ≡ true
    → contains a (add_indexes indexes scopes) ≡ true
unfolding add_indexes
add_indexes-keeps a [] indexes h = h
add_indexes-keeps a (managed_document scope ∷ scopes) indexes h =
    add_indexes-keeps a scopes (add indexes scope.document_index.document_index_id)
      (ground (arith, contains-add a scope.document_index.document_index_id indexes))
add_indexes-keeps a (sql_source scope ∷ scopes) indexes h = add_indexes-keeps a scopes indexes h
add_indexes-keeps a (http_source scope ∷ scopes) indexes h = add_indexes-keeps a scopes indexes h

add_indexes-finds :
    (a : String) (scopes : List RetrievalScope) (indexes : List String)
    → Exists (Pins a) scopes
    → contains a (add_indexes indexes scopes) ≡ true
unfolding add_indexes
add_indexes-finds a [] indexes h = absurd h
add_indexes-finds a (managed_document scope ∷ scopes) indexes (inl h) =
    let id = scope.document_index.document_index_id in
    add_indexes-keeps a scopes (add indexes scope.document_index.document_index_id)
      (ground (arith, contains-add a id indexes, (==_iff id a).1 h))
add_indexes-finds a (managed_document scope ∷ scopes) indexes (inr h) =
    add_indexes-finds a scopes (add indexes scope.document_index.document_index_id) h
add_indexes-finds a (sql_source scope ∷ scopes) indexes (inl h) = absurd h
add_indexes-finds a (sql_source scope ∷ scopes) indexes (inr h) =
    add_indexes-finds a scopes indexes h
add_indexes-finds a (http_source scope ∷ scopes) indexes (inl h) = absurd h
add_indexes-finds a (http_source scope ∷ scopes) indexes (inr h) =
    add_indexes-finds a scopes indexes h

if-keeps :
    (a : String) (skip : Bool) (indexes : List String) (scopes : List RetrievalScope)
    → contains a indexes ≡ true
    → contains a (if skip then indexes else add_indexes indexes scopes) ≡ true
if-keeps a true indexes scopes h = h
if-keeps a false indexes scopes h = add_indexes-keeps a scopes indexes h

abbrev indexes_after : (gone indexes : List String) → CardVersion → List String
indexes_after gone indexes version =
    if not (contains version.lineage.knowledge_unit_id gone)
    then indexes
    else add_indexes indexes version.scopes

indexes_of-keeps :
    (a : String) (gone : List String) (versions : List CardVersion) (indexes : List String)
    → contains a indexes ≡ true
    → contains a (indexes_of gone indexes versions) ≡ true
unfolding indexes_of
indexes_of-keeps a gone [] indexes h = h
indexes_of-keeps a gone (version ∷ versions) indexes h =
    indexes_of-keeps a gone versions (indexes_after gone indexes version)
      (if-keeps a _ indexes version.scopes h)

abbrev LostTo : (index_id : String) (gone : List String) → CardVersion → Type 0
LostTo index_id gone version =
    (contains version.lineage.knowledge_unit_id gone ≡ true) × Exists (Pins index_id) version.scopes

indexes_of-finds :
    (a : String) (gone : List String) (versions : List CardVersion) (indexes : List String)
    → Exists (LostTo a gone) versions
    → contains a (indexes_of gone indexes versions) ≡ true
unfolding indexes_of
indexes_of-finds a gone [] indexes h = absurd h
indexes_of-finds a gone (version ∷ versions) indexes (inl h) =
    indexes_of-keeps a gone versions (indexes_after gone indexes version)
      (rw h.0 (add_indexes-finds a version.scopes indexes h.1))
indexes_of-finds a gone (version ∷ versions) indexes (inr h) =
    indexes_of-finds a gone versions (indexes_after gone indexes version) h

nothing_gone : (a : String) (versions : List CardVersion) → ¬ Exists (LostTo a []) versions
unfolding contains
nothing_gone a [] h = h
nothing_gone a (version ∷ versions) (inl h) = let e : false ≡ true = h.0 in cc
nothing_gone a (version ∷ versions) (inr h) = nothing_gone a versions h

LostTo-of_LosesFrom :
    (a : String) (changes : List PublishedChange) (versions : List CardVersion)
    → Exists (LosesFrom a changes) versions
    → Exists (LostTo a (set_of [] (removed_ids changes))) versions
unfolding contains
LostTo-of_LosesFrom a changes [] h = absurd h
LostTo-of_LosesFrom a changes (version ∷ versions) (inl h) =
    let unit_id = version.lineage.knowledge_unit_id in
    inl (
      contains-set_of unit_id (removed_ids changes) [] ∙ removed_ids-contains unit_id changes h.0,
      h.1,
    )
LostTo-of_LosesFrom a changes (version ∷ versions) (inr h) =
    inr (LostTo-of_LosesFrom a changes versions h)

gone_finds :
    (a : String) (gone : List String) (versions : List CardVersion)
    → Exists (LostTo a gone) versions
    → contains a (elim gone [ [] ↦ [] | first ∷ rest ↦ indexes_of (first ∷ rest) [] versions ])
      ≡ true
gone_finds a [] versions h = absurd (nothing_gone a versions h)
gone_finds a (first ∷ rest) versions h = indexes_of-finds a (first ∷ rest) versions [] h

removals-contains :
    (a : String) (publication : IngestionPublication) (serving : List CardVersion)
    → Exists (LosesFrom a publication.changes) serving
    → contains a (document_indexes_with_removals publication serving) ≡ true
unfolding document_indexes_with_removals
removals-contains a publication serving h =
    gone_finds a (set_of [] (removed_ids publication.changes)) serving
      (LostTo-of_LosesFrom a publication.changes serving h)

-- A Publication adds or updates the unit of a Card, and its scope is pinned to a version of an index that
-- the unit's first published scope of that index has moved on from. If the Publication also removes
-- the unit of a serving version whose scopes reach the index, the Card is blocked.
pub superseded-is_blocked :
    (publication : IngestionPublication) (serving : List CardVersion) (version : CardVersion)
    (change : PublishedChange) (unit : PublishedKnowledgeUnit) (before after : List RetrievalScope)
    (scope : ManagedDocumentScope) (published : PublishedDocumentScope)
    → is_removal change ≡ false
    → unit_of_change change ≡ version.lineage.knowledge_unit_id
    → version.scopes ≡ before ++ managed_document scope ∷ after
    → find (same_index scope.document_index.document_index_id) unit.published_scopes
      ≡ some (published_document published)
    → published.document_index.index_version ≢ scope.document_index.index_version
    → Exists (LosesFrom scope.document_index.document_index_id publication.changes) serving
    → (analyze_card_impact version change
        (some unit)
        (document_indexes_with_removals publication serving)).decision
      ≡ block
superseded-is_blocked publication serving version change unit before after scope published r u s f m
      lost =
    analyze-superseded version change unit (document_indexes_with_removals publication serving)
      before after scope published r u s f m (removals-contains _ publication serving lost)
