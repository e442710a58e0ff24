-- ===== src/Registry/Store/Rows.antt =====
-- What a write leaves in the table of versions, and that a saved Card is read back.
use contextctl.Common.{
  String, string_instance, ◌≡◌, ◌≢◌, refl, sym, ap, ap₂, ◌∙◌, true, some, List, [], ◌∷◌, ◌++◌,
  append-nil, append_assoc, filter, filter-append, lookup, has_key, insert_or_ignore, Distinct,
  upsert, Bool-cases, inl, inr, lookup-upsert, lookup-insert_or_ignore_old,
  Distinct-insert_or_ignore, has_of_Distinct, has-filter, ◌==◌, ==_iff, ==_self, ==_of_ne, arith,
  if◌then◌else◌, All,
}
use contextctl.Registry.Model.{CardVersion, ContextCard, LifecycleEvent}
use contextctl.Registry.Versions.{version_key}
use contextctl.Registry.Store.{
  Database, CardRow, upsert_card, card_row_key, card_row, to_card, read_card, insert_versions,
  write_card, write_cards, IntakenCard, find_card,
}

lookup-insert_versions :
    (k : String) (versions table : List CardVersion) (v : CardVersion)
    → lookup version_key k table ≡ some v
    → lookup version_key k (insert_versions versions table) ≡ some v
unfolding insert_versions
lookup-insert_versions k [] table v h = h
lookup-insert_versions k (x ∷ versions) table v h =
    lookup-insert_versions k versions (insert_or_ignore version_key x table) v
      (lookup-insert_or_ignore_old version_key k x table v h)

pub lookup-write_cards :
    (k : String) (cards : List IntakenCard) (db : Database) (v : CardVersion)
    → lookup version_key k db.card_versions ≡ some v
    → lookup version_key k (write_cards cards db).card_versions ≡ some v
unfolding write_cards write_card
lookup-write_cards k [] db v h = h
lookup-write_cards k (c ∷ cards) db v h =
    lookup-write_cards k cards (write_card c.card c.events db) v
      (lookup-insert_versions k c.card.versions.versions db.card_versions v h)

Distinct-insert_versions :
    (versions table : List CardVersion)
    → Distinct version_key table
    → Distinct version_key (insert_versions versions table)
unfolding insert_versions
Distinct-insert_versions [] table d = d
Distinct-insert_versions (x ∷ versions) table d =
    Distinct-insert_versions versions (insert_or_ignore version_key x table)
      (Distinct-insert_or_ignore version_key x table d)

insert_versions-append :
    (xs ys table : List CardVersion)
    → insert_versions (xs ++ ys) table ≡ insert_versions ys (insert_versions xs table)
unfolding insert_versions
insert_versions-append [] ys table = refl
insert_versions-append (x ∷ xs) ys table =
    insert_versions-append xs ys (insert_or_ignore version_key x table)

-- Versions that are stored already change nothing.
insert_versions_old :
    (versions table : List CardVersion)
    → All (λ v. has_key version_key v.id table ≡ true) versions
    → insert_versions versions table ≡ table
unfolding insert_versions insert_or_ignore
insert_versions_old [] table h = refl
insert_versions_old (v ∷ versions) table h = rw h.0 (insert_versions_old versions table h.1)

-- New versions go behind the others, in their order.
insert_versions_new :
    (versions table : List CardVersion)
    → Distinct version_key (table ++ versions)
    → insert_versions versions table ≡ table ++ versions
unfolding insert_versions insert_or_ignore
insert_versions_new [] table d = sym (append-nil table)
insert_versions_new (v ∷ versions) table d = rw (has_of_Distinct version_key table versions v d) (
    insert_versions_new versions (table ++ v ∷ []) (rw (append_assoc table (v ∷ []) versions) d)
    ∙ append_assoc table (v ∷ []) versions)

filter_all :
    (card_id : String) (versions : List CardVersion)
    → All (λ v. v.card_id ≡ card_id) versions
    → filter (λ v. v.card_id == card_id) versions ≡ versions
unfolding filter
filter_all card_id [] h = refl
filter_all card_id (v ∷ versions) h =
    rw ((==_iff v.card_id card_id).1 h.0) (ap (λ l. v ∷ l) (filter_all card_id versions h.1))

filter_none :
    (card_id other : String) (versions : List CardVersion)
    → card_id ≢ other
    → All (λ v. v.card_id ≡ card_id) versions
    → filter (λ v. v.card_id == other) versions ≡ []
unfolding filter
filter_none card_id other [] ne h = refl
filter_none card_id other (v ∷ versions) ne h =
    ground (arith, ==_iff v.card_id other, filter_none card_id other versions ne h.1)

to_card-card_row :
    (card : ContextCard)
    → card.versions.card_id ≡ card.id
    → to_card (card_row card) card.versions.versions ≡ card
to_card-card_row card e = ground arith

-- Setting every column but the key of the row that has the key leaves the row that was written.
upsert_card-eq :
    (row : CardRow) (rows : List CardRow) → upsert_card row rows ≡ upsert card_row_key row rows
unfolding upsert_card upsert
upsert_card-eq row [] = refl
upsert_card-eq row (stored ∷ rows) = elim (Bool-cases (stored.card_id == row.card_id)) [
  | inl hit ↦
      rw hit
        (ap (λ id. record row { card_id = id } ∷ rows) ((==_iff stored.card_id row.card_id).0 hit))
  | inr miss ↦ rw miss (ap (stored ∷◌) (upsert_card-eq row rows))
]

pub cards-write_card :
    (card : ContextCard) (events : List LifecycleEvent) (db : Database)
    → (write_card card events db).cards ≡ upsert card_row_key (card_row card) db.cards
unfolding write_card
cards-write_card card events db = upsert_card-eq (card_row card) db.cards

-- A Card that may be saved: what the table holds of it, and behind that new versions of its own
-- whose ids are nowhere in use.
pub record Saves (db : Database) (card : ContextCard) : Type 0 where
  pub new : List CardVersion
  pub own_history : card.versions.card_id ≡ card.id
  pub split : card.versions.versions ≡ filter (λ v. v.card_id == card.id) db.card_versions ++ new
  pub owned : All (λ v. v.card_id ≡ card.id) new
  pub fresh : Distinct version_key (db.card_versions ++ new)

module _ (db : Database) (card : ContextCard) (s : Saves db card) where
  pub card_versions-write_card :
      (events : List LifecycleEvent)
      → (write_card card events db).card_versions ≡ db.card_versions ++ s.new
  unfolding write_card
  card_versions-write_card events =
      ap (λ l. insert_versions l db.card_versions) s.split
      ∙ insert_versions-append (filter (λ v. v.card_id == card.id) db.card_versions) s.new
          db.card_versions
      ∙ ap (insert_versions s.new) (
          insert_versions_old _ db.card_versions
            (has-filter version_key (λ v. v.card_id == card.id) db.card_versions))
      ∙ insert_versions_new s.new db.card_versions s.fresh

  pub own_rows :
      (events : List LifecycleEvent)
      → filter (λ v. v.card_id == card.id) (write_card card events db).card_versions
        ≡ card.versions.versions
  own_rows events =
      ap (filter (λ v. v.card_id == card.id)) (card_versions-write_card events)
      ∙ filter-append (λ v. v.card_id == card.id) db.card_versions s.new
      ∙ ap (λ l. filter (λ v. v.card_id == card.id) db.card_versions ++ l)
          (filter_all card.id s.new s.owned)
      ∙ sym s.split

  row_written :
      (events : List LifecycleEvent)
      → lookup card_row_key card.id (write_card card events db).cards ≡ some (card_row card)
  row_written events =
      ap (lookup card_row_key card.id) (cards-write_card card events db)
      ∙ lookup-upsert card_row_key card.id (card_row card) db.cards
      ∙ ap (λ b. if b then some (card_row card) else lookup card_row_key card.id db.cards)
          (==_self card.id)

  -- A Card that may be saved (`Saves`) is found again as it was saved, whatever events go with it.
  pub find-write_card :
      (events : List LifecycleEvent) → find_card (write_card card events db) card.id ≡ some card
  unfolding find_card
  find-write_card events =
      ap₂ read_card (row_written events) (own_rows events)
      ∙ ap some (to_card-card_row card s.own_history)

  other_row :
      (events : List LifecycleEvent) (other : String)
      → card.id ≢ other
      → lookup card_row_key other (write_card card events db).cards
        ≡ lookup card_row_key other db.cards
  other_row events other ne =
      ap (lookup card_row_key other) (cards-write_card card events db)
      ∙ lookup-upsert card_row_key other (card_row card) db.cards
      ∙ ap (λ b. if b then some (card_row card) else lookup card_row_key other db.cards)
          (==_of_ne card.id other ne)

  other_rows :
      (events : List LifecycleEvent) (other : String)
      → card.id ≢ other
      → filter (λ v. v.card_id == other) (write_card card events db).card_versions
        ≡ filter (λ v. v.card_id == other) db.card_versions
  other_rows events other ne =
      ap (filter (λ v. v.card_id == other)) (card_versions-write_card events)
      ∙ filter-append (λ v. v.card_id == other) db.card_versions s.new
      ∙ ap (λ l. filter (λ v. v.card_id == other) db.card_versions ++ l)
          (filter_none card.id other s.new ne s.owned)
      ∙ append-nil (filter (λ v. v.card_id == other) db.card_versions)

  -- Saving a Card that may be saved (`Saves`) leaves what is found of every other Card as it was.
  pub find-write_card_ne :
      (events : List LifecycleEvent) (other : String)
      → card.id ≢ other
      → find_card (write_card card events db) other ≡ find_card db other
  unfolding find_card
  find-write_card_ne events other ne =
      ap₂ read_card (other_row events other ne) (other_rows events other ne)
