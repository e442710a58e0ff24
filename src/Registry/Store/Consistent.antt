-- ===== src/Registry/Store/Consistent.antt =====
-- The invariant of the tables: ids are unique, and a Card's current pointer names a stored version
-- of that Card which passed validation.
use contextctl.Common.{
  String, string_instance, ◌≡◌, refl, sym, subst, Option, none, some, List, [], ◌∷◌, ◌++◌,
  append-nil, filter, lookup, Distinct, Distinct-upsert, Distinct-filter, lookup-filter,
  lookup-filter_of, lookup-append, lookup-All, lookup-key, All-upsert, ◌==◌, ==_iff, All, All-if,
  All-map,
}
use contextctl.Registry.Model.{CardVersion, CardValidationState, ContextCard, LifecycleEvent}
use contextctl.Registry.Versions.{version_key}
use contextctl.Registry.Versions.WellFormed.{IsWellFormed, Serves}
use contextctl.Registry.Store.{
  Database, CardRow, card_row_key, card_row, write_card, find_card, to_card, read_card,
}
use contextctl.Registry.Store.Rows.{cards-write_card, Saves, card_versions-write_card, own_rows}

abbrev NamesServable : List CardVersion → String → Option String → Type 0
NamesServable versions card_id none = Unit
NamesServable versions card_id (some id) =
    (v : CardVersion) × (lookup version_key id versions ≡ some v)
    × (v.card_id ≡ card_id)
    × (v.validation_state ≡ CardValidationState.validated)

pub record IsConsistent (db : Database) : Type 0 where
  pub cards : Distinct card_row_key db.cards
  pub versions : Distinct version_key db.card_versions
  pub serving : All (λ r. NamesServable db.card_versions r.card_id r.current_version_id) db.cards

NamesServable-append :
    (versions new : List CardVersion) (card_id : String) (current : Option String)
    → NamesServable versions card_id current
    → NamesServable (versions ++ new) card_id current
NamesServable-append versions new card_id none s = tt
NamesServable-append versions new card_id (some id) (v, found, own, valid) =
    (v, lookup-append version_key id versions new v found, own, valid)

NamesServable-of_Serves :
    (table : List CardVersion) (card_id : String) (current : Option String)
    → Distinct version_key table
    → All (λ v. v.card_id ≡ card_id) (filter (λ v. v.card_id == card_id) table)
    → Serves (filter (λ v. v.card_id == card_id) table) current
    → NamesServable table card_id current
NamesServable-of_Serves table card_id none d own s = tt
NamesServable-of_Serves table card_id (some id) d own (v, found, valid) = (
  v,
  lookup-filter version_key (λ v. v.card_id == card_id) id table v d found,
  lookup-All version_key (λ v. v.card_id ≡ card_id) id _ v own found,
  valid,
)

Serves-of_NamesServable :
    (table : List CardVersion) (card_id : String) (current : Option String)
    → NamesServable table card_id current
    → Serves (filter (λ v. v.card_id == card_id) table) current
Serves-of_NamesServable table card_id none s = tt
Serves-of_NamesServable table card_id (some id) (v, found, own, valid) = (
  v,
  lookup-filter_of version_key (λ v. v.card_id == card_id) id table v found
      ((==_iff v.card_id card_id).1 own),
  valid,
)

own_filter :
    (card_id : String) (versions : List CardVersion)
    → All (λ v. v.card_id ≡ card_id) (filter (λ v. v.card_id == card_id) versions)
unfolding filter
own_filter card_id [] = tt
own_filter card_id (v ∷ versions) =
    All-if (λ v. v.card_id ≡ card_id) (v.card_id == card_id) v _
      (λ e. (==_iff v.card_id card_id).0 e) (own_filter card_id versions)

-- Saving a Card with a well-formed history keeps the tables consistent.
pub write_card-IsConsistent :
    (db : Database) (card : ContextCard) (events : List LifecycleEvent)
    → IsConsistent db
    → Saves db card
    → IsWellFormed card.versions
    → IsConsistent (write_card card events db)
write_card-IsConsistent db card events c s w = record {
  cards = cards_kept;
  versions = versions_kept;
  serving = serving_kept;
}
  where
    stored : (write_card card events db).card_versions ≡ db.card_versions ++ s.new
    stored = card_versions-write_card db card s events

    cards_kept : Distinct card_row_key (write_card card events db).cards
    cards_kept =
        rw (cards-write_card card events db)
          (Distinct-upsert card_row_key (card_row card) db.cards c.cards)

    versions_kept : Distinct version_key (write_card card events db).card_versions
    versions_kept = rw stored s.fresh

    table : List CardVersion
    table = (write_card card events db).card_versions

    saved_serves : NamesServable table card.id card.versions.current_version_id
    saved_serves =
        NamesServable-of_Serves table card.id card.versions.current_version_id versions_kept
          (own_filter card.id table)
          (subst (λ l. Serves l card.versions.current_version_id) (sym (own_rows db card s events))
            w.serves)

    others_serve : All (λ r. NamesServable table r.card_id r.current_version_id) db.cards
    others_serve =
        subst (λ t. All (λ r. NamesServable t r.card_id r.current_version_id) db.cards) (sym stored)
          (All-map _ _ db.cards
            (λ r served.
              NamesServable-append db.card_versions s.new r.card_id r.current_version_id served)
            c.serving)

    serving_kept :
        All
          (λ r. NamesServable table r.card_id r.current_version_id)
          (write_card card events db).cards
    serving_kept =
        subst (All (λ r. NamesServable table r.card_id r.current_version_id))
          (sym (cards-write_card card events db))
          (All-upsert card_row_key (λ r. NamesServable table r.card_id r.current_version_id)
            (card_row card) db.cards saved_serves others_serve)

read_card-eq_some :
    (row : Option CardRow) (versions : List CardVersion) (card : ContextCard)
    → read_card row versions ≡ some card
    → (r : CardRow) × (row ≡ some r) × (to_card r versions ≡ card)
read_card-eq_some none versions card e = cc
read_card-eq_some (some r) versions card e = (r, refl, cc)

-- A Card that is read from consistent tables has the id that was asked for and a well-formed history.
pub find_card-IsWellFormed :
    (db : Database) (id : String) (card : ContextCard)
    → IsConsistent db
    → find_card db id ≡ some card
    → (card.id ≡ id) × IsWellFormed card.versions
unfolding find_card
find_card-IsWellFormed db id card c found =
    let (r, row, same) = read_card-eq_some (lookup card_row_key id db.cards) _ card found in
    let own : r.card_id ≡ id = lookup-key card_row_key id db.cards r row in
    let served =
      lookup-All card_row_key (λ r. NamesServable db.card_versions r.card_id r.current_version_id)
        id db.cards r c.serving row in
    subst (λ k. (k.id ≡ id) × IsWellFormed k.versions) same
      (
        own,
        record {
          owned = rw own (own_filter id db.card_versions);
          distinct = Distinct-filter version_key (λ v. v.card_id == id) db.card_versions c.versions;
          serves =
              Serves-of_NamesServable db.card_versions id r.current_version_id
                (subst (λ k. NamesServable db.card_versions k r.current_version_id) own served);
        },
      )

-- A Card that was read may be saved.
pub find_card-Saves :
    (db : Database) (id : String) (card : ContextCard)
    → IsConsistent db
    → find_card db id ≡ some card
    → Saves db card
unfolding find_card
find_card-Saves db id card c found =
    let (r, row, same) = read_card-eq_some (lookup card_row_key id db.cards) _ card found in
    let own : r.card_id ≡ id = lookup-key card_row_key id db.cards r row in
    subst (Saves db) same (record {
      new = [];
      own_history = refl;
      split = rw own (sym (append-nil _));
      owned = tt;
      fresh = rw (append-nil db.card_versions) c.versions;
    })
