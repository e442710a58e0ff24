-- ===== src/Registry/Intake/Deliveries.antt =====
-- intake-publication.ts: notifications in any order and number, against the chains of the Sources.
use contextctl.Common.{
  String, string_instance, ◌≡◌, ◌≢◌, refl, ap, ◌∙◌, subst, Bool, true, false, Option, some, List,
  [], ◌∷◌, ◌++◌, ok, throw, Result, inl, inr, All, Bool-cases, ◌==◌, ==_iff, if◌then◌else◌, arith,
  has_key, insert_or_ignore, has-append_one,
}
use contextctl.Registry.Model.{CardPolicy}
use contextctl.Registry.Publications.{IngestionPublication}
use contextctl.Registry.Chain.{ChainCursor, consumed_up_to}
use contextctl.Registry.Store.{
  Database, IntakenCard, CheckpointRow, commit, has_processed, find_cursor, checkpoint_key,
  write_cards, write_card, write_consumption,
}
use contextctl.Registry.Store.Consumption.{find_cursor-commit}
use contextctl.Registry.Effects.{World, RegistryError}
use contextctl.Registry.Claim.{ClaimPorts, ClaimResult, already_claimed, claimed, deferred, forked}
use contextctl.Registry.Intake.{intake_publication, deliver, claimed_id}
use contextctl.Registry.Intake.Committed.{IsRefusal, IsCommitted, intake-IsAtomic}

-- The abstract registry: the last Publication that was consumed of each Source.
abbrev pub Positions : Type 0
Positions = String → Option String

abbrev pub moved_to : Positions → String → String → Positions
moved_to positions source_id publication_id other =
    if source_id == other then some publication_id else positions other

unfoldable pub positions_of : Database → Positions
positions_of db source_id = consumed_up_to (find_cursor db source_id)

-- Consuming the Publications one after another, each directly behind the position of its Source.
abbrev pub Follows :
    (find_by_id : String → Option IngestionPublication)
    → Positions
    → List String
    → Positions
    → Type 0
Follows find_by_id from [] to = from ≡ to
Follows find_by_id from (id ∷ ids) to =
    (publication : IngestionPublication) × (find_by_id id ≡ some publication)
    × (publication.previous_publication_id ≡ from publication.source_id)
    × Follows find_by_id (moved_to from publication.source_id id) ids to

commit-moves :
    (cards : List IntakenCard) (cursor : ChainCursor) (processed_at : String) (db : Database)
    → positions_of (commit cards cursor processed_at db)
      ≡ moved_to (positions_of db) cursor.source_id cursor.publication_id
unfolding positions_of
commit-moves cards cursor processed_at db = λ i other. at other i
  where
    law :
        (has_processed (commit cards cursor processed_at db) cursor.publication_id ≡ true)
        × (find_cursor (commit cards cursor processed_at db) cursor.source_id ≡ some cursor)
        × ((other : String)
            → cursor.source_id ≢ other
            → find_cursor (commit cards cursor processed_at db) other ≡ find_cursor db other)
    law = find_cursor-commit cards cursor processed_at db

    at :
        (other : String)
        → consumed_up_to (find_cursor (commit cards cursor processed_at db) other)
          ≡ moved_to (positions_of db) cursor.source_id cursor.publication_id other
    at other = elim (Bool-cases (cursor.source_id == other)) [
      | inl hit ↦
          let same : cursor.source_id ≡ other = (==_iff cursor.source_id other).0 hit in
          rw hit (
            ap consumed_up_to (
              subst (λ s. find_cursor (commit cards cursor processed_at db) s ≡ some cursor) same
                law.1))
      | inr miss ↦
          let apart : cursor.source_id ≢ other = ground (arith, ==_iff cursor.source_id other) in
          rw miss (ap consumed_up_to (law.2 other apart))
    ]

-- What counts as consumed stays consumed.
checkpoints-write_cards :
    (cards : List IntakenCard) (db : Database)
    → (write_cards cards db).consumer_checkpoints ≡ db.consumer_checkpoints
unfolding write_cards write_card
checkpoints-write_cards [] db = refl
checkpoints-write_cards (c ∷ cards) db =
    checkpoints-write_cards cards (write_card c.card c.events db)

has-insert_or_ignore_old :
    (k : String) (row : CheckpointRow) (rows : List CheckpointRow)
    → has_key checkpoint_key k rows ≡ true
    → has_key checkpoint_key k (insert_or_ignore checkpoint_key row rows) ≡ true
unfolding insert_or_ignore
has-insert_or_ignore_old k row rows h = ground (arith, has-append_one checkpoint_key k rows row)

has_processed-commit :
    (k : String) (cards : List IntakenCard) (cursor : ChainCursor) (processed_at : String)
    (db : Database)
    → has_processed db k ≡ true
    → has_processed (commit cards cursor processed_at db) k ≡ true
unfolding has_processed commit write_consumption
has_processed-commit k cards cursor processed_at db h =
    has-insert_or_ignore_old k _ (write_cards cards db).consumer_checkpoints
      (rw (checkpoints-write_cards cards db) h)

abbrev pub IsFresh : Database → String → Type 0
IsFresh db id = has_processed db id ≡ false

-- No Publication twice.
abbrev pub Once : List String → Type 0
Once [] = Unit
Once (id ∷ ids) = All (λ other. id ≢ other) ids × Once ids

both_absurd : (b : Bool) → b ≡ true → b ≡ false → ⊥
both_absurd true t f = ground arith
both_absurd false t f = ground arith

module _ (ports : ClaimPorts) (policy : CardPolicy) where
  abbrev Delivers : Database → List String → Database → Type 0
  Delivers db ids last =
      Follows ports.find_by_id (positions_of db) ids (positions_of last)
      × Once ids
      × All (IsFresh db) ids

  refused :
      (answer : Result RegistryError ClaimResult)
      → IsRefusal answer
      → claimed_id ports policy answer ≡ []
  refused (throw e) h = refl
  refused (ok (already_claimed p)) h = refl
  refused (ok (deferred p source_id awaiting diagnostic)) h = refl
  refused (ok (forked p source_id diagnostic)) h = refl
  refused (ok (claimed p cursor versions)) h = absurd h

  before-IsFresh :
      (cards : List IntakenCard) (cursor : ChainCursor) (processed_at : String) (db : Database)
      (ids : List String)
      → All (IsFresh (commit cards cursor processed_at db)) ids
      → All (λ id. cursor.publication_id ≢ id) ids × All (IsFresh db) ids
  before-IsFresh cards cursor processed_at db [] h = (tt, tt)
  before-IsFresh cards cursor processed_at db (id ∷ ids) h =
      let rest = before-IsFresh cards cursor processed_at db ids h.1 in
      ((apart, rest.0), (still_fresh (has_processed db id) refl, rest.1))
    where
      after : Database
      after = commit cards cursor processed_at db

      apart : cursor.publication_id ≢ id
      apart e =
          both_absurd (has_processed after id)
            (subst (λ k. has_processed after k ≡ true) e
              (find_cursor-commit cards cursor processed_at db).0)
            h.0

      still_fresh : (seen : Bool) → has_processed db id ≡ seen → has_processed db id ≡ false
      still_fresh false e = e
      still_fresh true e = absurd (
          both_absurd (has_processed after id)
            (has_processed-commit id cards cursor processed_at db e) h.0)

  committed-Delivers :
      (id : String) (ids : List String) (db last : Database)
      (change : Result RegistryError ClaimResult × World)
      → IsCommitted ports policy id db change
      → Delivers change.1.db ids last
      → Delivers db (claimed_id ports policy change.0 ++ ids) last
  committed-Delivers id ids db last change c (follows, once, fresh) =
      let own : c.cursor.publication_id ≡ id = ap (λ k. k.publication_id) c.claim.moves in
      let moved : positions_of change.1.db
          ≡ moved_to (positions_of db) c.claim.publication.source_id id =
        ap positions_of c.stored
        ∙ commit-moves c.cards c.cursor c.processed_at db
        ∙ ap (λ k. moved_to (positions_of db) k.source_id k.publication_id) c.claim.moves in
      let (apart, still) =
        before-IsFresh c.cards c.cursor c.processed_at db ids
          (subst (λ d. All (IsFresh d) ids) c.stored fresh) in
      rw c.answer (
        (
          c.claim.publication,
          c.claim.found,
          unfold positions_of in c.claim.follows,
          subst (λ from. Follows ports.find_by_id from ids (positions_of last)) moved follows,
        ),
        (subst (λ k. All (λ other. k ≢ other) ids) own apart, once),
        (c.claim.unseen, still),
      )

  -- Notifications in any order and number: those that are claimed are, one after the other, the next
  -- Publication behind the position of their Source, which each of them moves to itself. None is
  -- claimed twice or was consumed before, and what is not claimed moves no position.
  pub deliver-Follows :
      (notified : List String) (w : World)
      → let delivered = deliver ports policy notified w in
        Follows ports.find_by_id (positions_of w.db) delivered.0 (positions_of delivered.1.db)
        × Once delivered.0
        × All (IsFresh w.db) delivered.0
  unfolding deliver
  deliver-Follows [] w = (refl, tt, tt)
  deliver-Follows (id ∷ notified) w =
      let change = intake_publication ports policy id w in
      let rest = deliver-Follows notified change.1 in
      elim (intake-IsAtomic ports policy id w) [
        | inl (refusal, same) ↦ rw (refused change.0 refusal) (
            subst
              (λ db.
                Delivers db (deliver ports policy notified change.1).0
                  (deliver ports policy notified change.1).1.db)
              same rest)
        | inr c ↦
            committed-Delivers id (deliver ports policy notified change.1).0 w.db
              (deliver ports policy notified change.1).1.db change c rest
      ]
