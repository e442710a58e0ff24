-- ===== src/Registry/Store/Consumption.antt =====
-- What the commit of an intake leaves: the Publication is consumed, its Source's cursor stands at it,
-- and no version that was stored has changed.
use contextctl.Common.{
  String, string_instance, ◌≡◌, ◌≢◌, refl, true, some, List, [], ◌∷◌, lookup, has_key,
  insert_or_ignore, lookup-upsert, has-append_one, ==_self, ==_of_ne, Bool-cases, inl, inr,
}
use contextctl.Registry.Model.{CardVersion}
use contextctl.Registry.Versions.{version_key}
use contextctl.Registry.Chain.{ChainCursor}
use contextctl.Registry.Store.{
  Database, CursorRow, CheckpointRow, IntakenCard, commit, write_cards, has_processed, find_cursor,
  checkpoint_key, cursor_key,
}
use contextctl.Registry.Store.Rows.{lookup-write_cards}
use contextctl.Registry.Store

-- Whatever an intake commits, a version that is stored stays stored as it is.
pub lookup-commit :
    (k : String) (cards : List IntakenCard) (cursor : ChainCursor) (processed_at : String)
    (db : Database) (v : CardVersion)
    → lookup version_key k db.card_versions ≡ some v
    → lookup version_key k (commit cards cursor processed_at db).card_versions ≡ some v
unfolding commit Store.write_consumption
lookup-commit k cards cursor processed_at db v h = lookup-write_cards k cards db v h

abbrev consumed : ChainCursor → String → CheckpointRow
consumed cursor processed_at = record {
  publication_id = cursor.publication_id;
  source_id = cursor.source_id;
  processed_at = processed_at;
}

abbrev moved : ChainCursor → String → CursorRow
moved cursor processed_at = record {
  source_id = cursor.source_id;
  publication_id = cursor.publication_id;
  processed_at = processed_at;
}

cursors-write_cards :
    (cards : List IntakenCard) (db : Database)
    → (write_cards cards db).consumer_source_cursors ≡ db.consumer_source_cursors
unfolding write_cards Store.write_card
cursors-write_cards [] db = refl
cursors-write_cards (c ∷ cards) db = cursors-write_cards cards (Store.write_card c.card c.events db)

has-insert_or_ignore :
    (row : CheckpointRow) (rows : List CheckpointRow)
    → has_key checkpoint_key row.publication_id (insert_or_ignore checkpoint_key row rows) ≡ true
unfolding insert_or_ignore
has-insert_or_ignore row rows = elim (Bool-cases (has_key checkpoint_key row.publication_id rows)) [
  | inl e ↦ rw (e, e) refl
  | inr e ↦
      rw (e, has-append_one checkpoint_key row.publication_id rows row, e)
        (==_self row.publication_id)
]

-- Once an intake is committed, its Publication counts as processed, the cursor of its Source is the
-- committed one, and the cursor of every other Source is the one before.
pub find_cursor-commit :
    (cards : List IntakenCard) (cursor : ChainCursor) (processed_at : String) (db : Database)
    → (has_processed (commit cards cursor processed_at db) cursor.publication_id ≡ true)
      × (find_cursor (commit cards cursor processed_at db) cursor.source_id ≡ some cursor)
      × ((other : String)
          → cursor.source_id ≢ other
          → find_cursor (commit cards cursor processed_at db) other ≡ find_cursor db other)
unfolding has_processed commit Store.write_consumption find_cursor
find_cursor-commit cards cursor processed_at db = (
  has-insert_or_ignore (consumed cursor processed_at) (write_cards cards db).consumer_checkpoints,
  rw
      (
        find_cursor,
        lookup-upsert cursor_key cursor.source_id (moved cursor processed_at)
            (write_cards cards db).consumer_source_cursors,
        ==_self cursor.source_id,
      )
      refl,
  λ other ne.
      rw
        (
          find_cursor,
          lookup-upsert cursor_key other (moved cursor processed_at)
              (write_cards cards db).consumer_source_cursors,
          ==_of_ne cursor.source_id other ne,
          cursors-write_cards cards db,
        )
        refl,
)
