-- ===== src/Registry/Store.antt =====
-- packages/registry-lifecycle/src/infrastructure/sqlite: the tables and the stores over them.
-- A table is the list of its rows in append order; a column that holds JSON is its value, and a
-- transaction is one function of the database, which cannot fail half way.
pub mod Rows
pub mod Consistent
pub mod Consumption
use contextctl.Common.{
  String, string_instance, ◌≡◌, Bool, true, false, Option, none, some, List, [], ◌∷◌, ◌++◌, map,
  filter, lookup, has_key, insert_or_ignore, upsert, ◌==◌, if◌then◌else◌,
}
use contextctl.Registry.Model.{
  CardMeaning, CardPolicy, CardVersion, CardVersionHistory, ContextCard, LifecycleEvent,
  RetrievalScope,
}
use contextctl.Registry.Versions.{version_key, get_current_card_version}
use contextctl.Registry.Chain.{ChainCursor}

pub record CardRow : Type 0 where
  pub card_id : String
  pub meaning : CardMeaning
  pub policy : CardPolicy
  pub current_version_id : Option String

pub record CheckpointRow : Type 0 where
  pub publication_id : String
  pub source_id : String
  pub processed_at : String

pub record CursorRow : Type 0 where
  pub source_id : String
  pub publication_id : String
  pub processed_at : String

pub record Database : Type 0 where
  pub cards : List CardRow
  pub card_versions : List CardVersion
  pub lifecycle_events : List LifecycleEvent
  pub consumer_checkpoints : List CheckpointRow
  pub consumer_source_cursors : List CursorRow

abbrev pub card_row_key : CardRow → String
card_row_key r = r.card_id

abbrev event_key : LifecycleEvent → String
event_key e = e.id

abbrev pub checkpoint_key : CheckpointRow → String
checkpoint_key r = r.publication_id

abbrev pub cursor_key : CursorRow → String
cursor_key r = r.source_id

-- card-rows.ts and lifecycle-event-rows.ts

unfoldable pub append_lifecycle_events :
    List LifecycleEvent → List LifecycleEvent → List LifecycleEvent
append_lifecycle_events [] table = table
append_lifecycle_events (event ∷ events) table =
    append_lifecycle_events events (insert_or_ignore event_key event table)

unfoldable pub insert_versions : List CardVersion → List CardVersion → List CardVersion
insert_versions [] table = table
insert_versions (version ∷ versions) table =
    insert_versions versions (insert_or_ignore version_key version table)

abbrev card_row : ContextCard → CardRow
card_row card = record {
  card_id = card.id;
  meaning = card.meaning;
  policy = card.policy;
  current_version_id = card.versions.current_version_id;
}

-- ON CONFLICT (card_id) DO UPDATE SET: every column but the key.
abbrev set_columns : (stored excluded : CardRow) → CardRow
set_columns stored excluded = record stored {
  meaning = excluded.meaning;
  policy = excluded.policy;
  current_version_id = excluded.current_version_id;
}

unfoldable pub upsert_card : CardRow → List CardRow → List CardRow
upsert_card row [] = row ∷ []
upsert_card row (stored ∷ rows) =
    let rest = upsert_card row rows in
    if stored.card_id == row.card_id then set_columns stored row ∷ rows else stored ∷ rest

unfoldable pub write_card : ContextCard → List LifecycleEvent → Database → Database
unfolding upsert_card
write_card card events db = record db {
  cards = upsert_card (card_row card) db.cards;
  card_versions = insert_versions card.versions.versions db.card_versions;
  lifecycle_events = append_lifecycle_events events db.lifecycle_events;
}

unfoldable pub read_lifecycle_events : Database → String → List LifecycleEvent
read_lifecycle_events db card_id = filter (λ e. e.card_id == card_id) db.lifecycle_events

-- sqlite-consumer-checkpoint-store.ts

unfoldable pub has_processed : Database → String → Bool
has_processed db publication_id = has_key checkpoint_key publication_id db.consumer_checkpoints

abbrev pub cursor_of : Option CursorRow → Option ChainCursor
cursor_of none = none
cursor_of (some r) = some (record { source_id = r.source_id; publication_id = r.publication_id })

unfoldable pub find_cursor : Database → String → Option ChainCursor
find_cursor db source_id = cursor_of (lookup cursor_key source_id db.consumer_source_cursors)

unfoldable pub write_consumption : ChainCursor → String → Database → Database
write_consumption cursor processed_at db = record db {
  consumer_checkpoints =
      insert_or_ignore checkpoint_key
        (record {
          publication_id = cursor.publication_id;
          source_id = cursor.source_id;
          processed_at = processed_at;
        })
        db.consumer_checkpoints;
  consumer_source_cursors =
      upsert cursor_key
        (record {
          source_id = cursor.source_id;
          publication_id = cursor.publication_id;
          processed_at = processed_at;
        })
        db.consumer_source_cursors;
}

-- sqlite-intake-store.ts

pub record IntakenCard : Type 0 where
  pub card : ContextCard
  pub events : List LifecycleEvent

unfoldable pub write_cards : List IntakenCard → Database → Database
write_cards [] db = db
write_cards (c ∷ cards) db = write_cards cards (write_card c.card c.events db)

unfoldable pub commit : List IntakenCard → ChainCursor → String → Database → Database
commit cards cursor processed_at db = write_consumption cursor processed_at (write_cards cards db)

-- sqlite-card-store.ts

abbrev to_card : CardRow → List CardVersion → ContextCard
to_card card versions = record {
  id = card.card_id;
  meaning = card.meaning;
  policy = card.policy;
  versions = record {
    card_id = card.card_id;
    versions = versions;
    current_version_id = card.current_version_id;
  };
}

abbrev read_card : Option CardRow → List CardVersion → Option ContextCard
read_card none versions = none
read_card (some card) versions = some (to_card card versions)

unfoldable pub find_card : Database → String → Option ContextCard
find_card db card_id =
    read_card (lookup card_row_key card_id db.cards)
      (filter (λ v. v.card_id == card_id) db.card_versions)

abbrev names : Option String → String → Bool
names none id = false
names (some current) id = current == id

-- The join of a version with the Cards whose current pointer names it.
serving_rows : CardVersion → List CardRow → List CardRow
serving_rows v rows = filter (λ c. names c.current_version_id v.id) rows

unfoldable pub join_current : List CardVersion → List CardRow → List (CardVersion × CardRow)
unfolding serving_rows
join_current [] rows = []
join_current (v ∷ versions) rows =
    map (λ c. (v, c)) (serving_rows v rows) ++ join_current versions rows

unfoldable pub list_current_versions : Database → List CardVersion
list_current_versions db = map (λ p. p.0) (join_current db.card_versions db.cards)

pub record CardCatalogEntry : Type 0 where
  pub card_id : String
  pub version_id : String
  pub meaning : CardMeaning
  pub policy : CardPolicy
  pub scopes : List RetrievalScope

unfoldable pub list_approved_cards : Database → List CardCatalogEntry
list_approved_cards db =
    map
      (λ p. record {
        card_id = p.1.card_id;
        version_id = p.0.id;
        meaning = p.1.meaning;
        policy = p.1.policy;
        scopes = p.0.scopes;
      })
      (join_current db.card_versions db.cards)

-- domain/card-catalog.ts
unfoldable pub to_card_catalog_entry : ContextCard → Option CardCatalogEntry
to_card_catalog_entry card = elim (get_current_card_version card.versions) [
  | none ↦ none
  | some current ↦ some (record {
    card_id = card.id;
    version_id = current.id;
    meaning = card.meaning;
    policy = card.policy;
    scopes = current.scopes;
  })
]
