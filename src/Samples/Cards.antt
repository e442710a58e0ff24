-- ===== src/Samples/Cards.antt =====
-- Runs of the registry on one Card with two versions.
use contextctl.Registry.Chain.{ChainCursor}
use contextctl.Registry.Store.Consumption.{lookup-commit, find_cursor-commit}
use contextctl.Common.{
  ℕ, ◌≡◌, ◌≢◌, refl, String, string_instance, true, false, none, some, List, [], ◌∷◌, any, filter,
  lookup, has_key, ok, ==_iff,
}
use contextctl.Registry.Model.{
  CardMeaning, CardVersion, CardVersionHistory, CardValidationState, ContextCard, LifecycleEvent,
  card_version_promoted, managed_document, ManagedDocumentScope, whole_document,
}
use contextctl.Registry.Store.{
  commit, has_processed, find_cursor, IntakenCard, Database, write_card, find_card,
  CardCatalogEntry, to_card_catalog_entry, list_approved_cards, join_current,
}
use contextctl.Registry.Effects.{World, Supplies}
use contextctl.Registry.Versions.{
  version_key, append, promote, withdraw, create_card_version_history, promote_card_version,
  precedes_current_card_version, covered_facts, compare_card_version_meaning,
}
use contextctl.Registry.Versions
use contextctl.Registry.Store.Consistent.{IsConsistent}
use contextctl.Registry.Store.Rows.{Saves, find-write_card, find-write_card_ne}
use contextctl.Registry.Decisions.{OperatorDecision, approve, decide, approve_card_version}
use contextctl.Registry.Decisions
use contextctl.Registry.Decisions.Safety.{decide-IsConsistent, approve-serves}

abbrev pub meaning : CardMeaning
meaning = record {
  description = "returns";
  representative_questions = "how do returns work?" ∷ [];
  aliases = [];
  keywords = "return" ∷ [];
}

abbrev pub scope_at : String → ManagedDocumentScope
scope_at version = record {
  reference = record { scope_id = "s"; scope_version = "1" };
  document_index = record {
    document_index_id = "index";
    source_id = "source";
    document_id = "doc";
    index_version = version;
  };
  selection = whole_document;
}

abbrev pub version_of : String → CardVersion
version_of id = record {
  id = id;
  card_id = "card";
  lineage = record { publication_id = "p1"; observation_id = "o1"; knowledge_unit_id = "card" };
  scopes = managed_document (scope_at "1") ∷ [];
  validation_state = CardValidationState.validated;
  created_at = "t0";
  meaning = some meaning;
  grounding = none;
  change_from_previous = none;
}

abbrev pub versions : List CardVersion
versions = version_of "v1" ∷ version_of "v2" ∷ []

abbrev db : Database
db = record {
  cards =
      record {
        card_id = "card";
        meaning = meaning;
        policy = record { sensitive = false; allowed_usage = [] };
        current_version_id = some "v2";
      }
      ∷ [];
  card_versions = versions;
  lifecycle_events = [];
  consumer_checkpoints = [];
  consumer_source_cursors = [];
}

abbrev pub history : CardVersionHistory
history = record { card_id = "card"; versions = versions; current_version_id = some "v2" }

abbrev card : ContextCard
card = record {
  id = "card";
  meaning = meaning;
  policy = record { sensitive = false; allowed_usage = [] };
  versions = history;
}

db-IsConsistent : IsConsistent db
unfolding has_key lookup any
db-IsConsistent = record {
  cards = (refl, tt);
  versions = (refl, (refl, tt));
  serving = ((version_of "v2", refl, refl, refl), tt);
}

card-Saves : Saves db card
unfolding has_key lookup any filter
card-Saves = record {
  new = [];
  own_history = refl;
  split = refl;
  owned = tt;
  fresh = (refl, (refl, tt));
}

find-write_card_example : find_card (write_card card [] db) "card" ≡ some card
find-write_card_example = find-write_card db card card-Saves []

card_is_not_other : card.id ≢ "other"
card_is_not_other e = let h : false ≡ true = (==_iff "card" "other").1 e in cc

find-write_card_ne_example : find_card (write_card card [] db) "other" ≡ find_card db "other"
find-write_card_ne_example = find-write_card_ne db card card-Saves [] "other" card_is_not_other

abbrev operator : OperatorDecision
operator = record { decided_by = "ops"; remark = none }

abbrev pub supplies : Supplies
supplies = record { fresh = λ n. "id"; time = λ n. "t1" }

abbrev bytes : List CardCatalogEntry → ℕ
bytes cards = 100

abbrev pub world : World
world = record { db = db; ids_used = 0; clock_reads = 0 }

decide-IsConsistent_example :
    IsConsistent (decide supplies bytes (approve "card" "v1" operator) world).1.db
decide-IsConsistent_example =
    decide-IsConsistent supplies bytes world (approve "card" "v1" operator) db-IsConsistent

abbrev approved_card : ContextCard
approved_card = record card { versions = record history { current_version_id = some "v1" } }

abbrev approved_event : LifecycleEvent
approved_event = record {
  id = "id";
  card_id = "card";
  occurred_at = "t1";
  kind = card_version_promoted "v1" (some "v2") "ops" none;
}

abbrev approved_world : World
approved_world = record {
  db = write_card approved_card (approved_event ∷ []) db;
  ids_used = 1;
  clock_reads = 1;
}

approved :
    approve_card_version supplies bytes "card" "v1" operator world
    ≡ (ok approved_card, approved_world)
unfolding approve_card_version find_card lookup promote_card_version filter to_card_catalog_entry
    Versions.get_current_card_version Decisions.check_catalog_snapshot_limits Decisions.catalog_with
    list_approved_cards join_current Decisions.code_units
approved = refl

approve-serves_example :
    (find_card approved_world.db "card" ≡ some approved_card)
    × (approved_card.versions.current_version_id ≡ some "v1")
    × ((v : CardVersion) × (lookup version_key "v1" approved_card.versions.versions ≡ some v)
        × (v.validation_state ≡ CardValidationState.validated))
    × ((other : String) → other ≢ "card" → find_card approved_world.db other ≡ find_card db other)
approve-serves_example =
    approve-serves supplies bytes world approved_world "card" "v1" operator approved_card
      db-IsConsistent approved

abbrev cursor : ChainCursor
cursor = record { source_id = "source"; publication_id = "p2" }

abbrev intake : List IntakenCard
intake = record { card = card; events = [] } ∷ []

first_stored : lookup version_key "v1" db.card_versions ≡ some (version_of "v1")
unfolding lookup
first_stored = refl

lookup-commit_example :
    lookup version_key "v1" (commit intake cursor "t1" db).card_versions ≡ some (version_of "v1")
lookup-commit_example = lookup-commit "v1" intake cursor "t1" db (version_of "v1") first_stored

find_cursor-commit_example :
    (has_processed (commit intake cursor "t1" db) "p2" ≡ true)
    × (find_cursor (commit intake cursor "t1" db) "source" ≡ some cursor)
    × ((other : String)
        → cursor.source_id ≢ other
        → find_cursor (commit intake cursor "t1" db) other ≡ find_cursor db other)
find_cursor-commit_example = find_cursor-commit intake cursor "t1" db
