-- ===== src/Registry/Intake.antt =====
-- packages/registry-lifecycle/src/application/intake-publication.ts: one Publication and everything that
-- it changes, committed together with the cursor.
pub mod Drafted
pub mod Withdrawn
pub mod Committed
pub mod Deliveries
use contextctl.Common.{
  String, string_instance, Bool, true, false, Option, none, some, List, [], ◌∷◌, ◌++◌, map, filter,
  lookup, upsert, ◌==◌, if◌then◌else◌, Result, ok,
}
use contextctl.Registry.Model.{
  CardMeaning, CardPolicy, CardVersion, CardVersionHistory, ContextCard, CardImpact,
  CardImpactDecision, unaffected, review, block, disable, LifecycleEvent, EventKind,
  card_version_added,
}
use contextctl.Registry.Publications.{IngestionPublication}
use contextctl.Registry.Versions.{
  create_card_version_history, append_card_version, withdraw_current_version,
  compare_card_version_meaning,
}
use contextctl.Registry.Store.{IntakenCard, find_card, list_current_versions, commit}
use contextctl.Registry.Chain.{ChainCursor}
use contextctl.Registry.Assessment.{PublicationImpactAssessment, assess_publication_impact}
use contextctl.Registry.Claim.{
  ClaimPorts, ClaimedCardVersion, ClaimResult, already_claimed, claimed, deferred, forked,
  claim_publication,
}
use contextctl.Registry.Effects.{
  World, Supplies, Action, ◌>>=◌, ◌>>◌, return, raise, read, write, defined, checked, next_id, now,
  RegistryError, publication_not_found, card_without_meaning,
}

-- The `Map` of the draft: a Card that is set again keeps its place.
pub record DraftEntry : Type 0 where
  pub card_id : String
  pub intaken : IntakenCard

abbrev pub entry_key : DraftEntry → String
entry_key entry = entry.card_id

abbrev pub Draft : Type 0
Draft = List DraftEntry

unfoldable pub draft_get : Draft → String → Option DraftEntry
draft_get draft card_id = lookup entry_key card_id draft

abbrev pub events_before : Option DraftEntry → List LifecycleEvent
events_before none = []
events_before (some entry) = entry.intaken.events

unfoldable pub draft_set : Draft → String → ContextCard → List LifecycleEvent → Draft
unfolding draft_get
draft_set draft card_id card events =
    upsert entry_key
      (record {
        card_id = card_id;
        intaken = record {
          card = card;
          events = events_before (draft_get draft card_id) ++ events;
        };
      })
      draft

abbrev pub entries : Draft → List IntakenCard
entries draft = map (λ entry. entry.intaken) draft

-- domain/context-card.ts
unfoldable pub create_context_card : String → CardMeaning → CardPolicy → ContextCard
unfolding create_card_version_history
create_context_card id meaning policy = record {
  id = id;
  meaning = meaning;
  policy = policy;
  versions = create_card_version_history id;
}

unfoldable pub last_version : List CardVersion → Option CardVersion
last_version [] = none
last_version (version ∷ []) = some version
last_version (version ∷ versions) = last_version versions

unfoldable pub with_change_comparison : ContextCard → CardVersion → CardVersion
unfolding last_version compare_card_version_meaning
with_change_comparison card version = elim (last_version card.versions.versions) [
  | none ↦ version
  | some previous ↦ elim (compare_card_version_meaning previous version) [
    | none ↦ version
    | some comparison ↦ record version { change_from_previous = some comparison }
  ]
]

unfoldable pub withdraws : CardImpactDecision → Bool
withdraws disable = true
withdraws block = true
withdraws review = false
withdraws unaffected = false

-- `eventsByCard.get(cardId) ?? []`
unfoldable pub events_of : String → List LifecycleEvent → List LifecycleEvent
events_of card_id events = filter (λ event. event.card_id == card_id) events

abbrev created : CardPolicy → CardVersion → Option CardMeaning → Action ContextCard
created policy version none = raise (card_without_meaning version.card_id)
created policy version (some meaning) = return (create_context_card version.card_id meaning policy)

abbrev existing_or : Action ContextCard → Option ContextCard → Action ContextCard
existing_or otherwise (some card) = return card
existing_or otherwise none = otherwise

module _ (policy : CardPolicy) where
  unfoldable pub load_or_create_card : CardVersion → Action ContextCard
  unfolding create_context_card find_card
  load_or_create_card version = do
    existing ← read (λ db. find_card db version.card_id)
    existing_or (created policy version version.meaning) existing

  add_to_history :
      Draft → CardVersion → ContextCard → (event_id : String) → CardVersionHistory → Action Draft
  unfolding draft_set
  add_to_history draft version card event_id history = return (
      draft_set draft version.card_id (record card { versions = history })
        (record {
          id = event_id;
          card_id = version.card_id;
          occurred_at = version.created_at;
          kind = card_version_added version.id version.lineage.publication_id;
        }
          ∷ []))

  add_event : Draft → CardVersion → ContextCard → (event_id : String) → Action Draft
  unfolding add_to_history with_change_comparison append_card_version
  add_event draft version card event_id =
      checked (append_card_version card.versions (with_change_comparison card version))
      >>= add_to_history draft version card event_id

  add_to_card : Supplies → Draft → CardVersion → ContextCard → Action Draft
  unfolding add_event
  add_to_card s draft version card = next_id s >>= add_event draft version card

  unfoldable pub add_claimed_version : Supplies → Draft → CardVersion → Action Draft
  unfolding load_or_create_card add_to_card
  add_claimed_version s draft version = load_or_create_card version >>= add_to_card s draft version

  unfoldable pub add_claimed_versions : Supplies → List ClaimedCardVersion → Draft → Action Draft
  unfolding add_claimed_version
  add_claimed_versions s [] draft = return draft
  add_claimed_versions s (first ∷ rest) draft =
      add_claimed_version s draft first.version >>= add_claimed_versions s rest

abbrev pub drafted_card : Option DraftEntry → Option ContextCard → Option ContextCard
drafted_card (some entry) stored = some entry.intaken.card
drafted_card none stored = stored

unfoldable pub card_under_impact : Draft → CardImpact → Action (Option ContextCard)
unfolding draft_get find_card
card_under_impact draft impact =
    read (λ db. drafted_card (draft_get draft impact.card_id) (find_card db impact.card_id))

unfoldable pub set_impact : Draft → List LifecycleEvent → CardImpact → Option ContextCard → Draft
unfolding draft_set withdraws withdraw_current_version events_of
set_impact draft events impact none = draft
set_impact draft events impact (some card) =
    draft_set draft impact.card_id
      (if withdraws impact.decision
        then record card { versions = withdraw_current_version card.versions }
        else card)
      (events_of impact.card_id events)

unfoldable pub apply_each : List LifecycleEvent → List CardImpact → Draft → Action Draft
unfolding card_under_impact set_impact
apply_each events [] draft = return draft
apply_each events (impact ∷ impacts) draft = card_under_impact draft impact >>= λ card.
    apply_each events impacts (set_impact draft events impact card)

apply_assessment : Draft → PublicationImpactAssessment → Action Draft
unfolding apply_each
apply_assessment draft assessment = apply_each assessment.events assessment.impacts draft

assess_current : Supplies → IngestionPublication → Draft → List CardVersion → Action Draft
unfolding apply_assessment assess_publication_impact
assess_current s publication draft current_versions =
    assess_publication_impact s publication current_versions >>= apply_assessment draft

unfoldable pub apply_impacts : Supplies → IngestionPublication → Draft → Action Draft
unfolding assess_current list_current_versions
apply_impacts s publication draft =
    read list_current_versions >>= assess_current s publication draft

module _ (ports : ClaimPorts) (policy : CardPolicy) where
  module _ (publication_id : String) (cursor : ChainCursor)
      (versions : List ClaimedCardVersion) where
    commit_at : Draft → (processed_at : String) → Action ClaimResult
    unfolding commit
    commit_at draft processed_at =
        write (commit (entries draft) cursor processed_at)
        >> return (claimed publication_id cursor versions)

    unfoldable pub commit_draft : Draft → Action ClaimResult
    unfolding commit_at
    commit_draft draft = now ports.supplies >>= commit_at draft

    assess_added : IngestionPublication → Draft → Action ClaimResult
    unfolding apply_impacts commit_draft
    assess_added publication added = apply_impacts ports.supplies publication added >>= commit_draft

    add_all : IngestionPublication → Action ClaimResult
    unfolding add_claimed_versions assess_added
    add_all publication =
        add_claimed_versions policy ports.supplies versions [] >>= assess_added publication

    -- What follows a claim.
    unfoldable pub intake_claimed : Action ClaimResult
    unfolding add_all
    intake_claimed =
        defined (ports.find_by_id publication_id) (publication_not_found publication_id) >>= add_all

  unfoldable pub after_claim : ClaimResult → Action ClaimResult
  unfolding intake_claimed
  after_claim (claimed publication_id cursor versions) =
      intake_claimed publication_id cursor versions
  after_claim (already_claimed publication_id) = return (already_claimed publication_id)
  after_claim (deferred publication_id source_id awaiting diagnostic) =
      return (deferred publication_id source_id awaiting diagnostic)
  after_claim (forked publication_id source_id diagnostic) =
      return (forked publication_id source_id diagnostic)

  unfoldable pub intake_publication : (publication_id : String) → Action ClaimResult
  unfolding claim_publication after_claim
  intake_publication publication_id = claim_publication ports publication_id >>= after_claim

  abbrev pub claimed_id : Result RegistryError ClaimResult → List String
  claimed_id (ok (claimed publication_id cursor versions)) = publication_id ∷ []
  claimed_id _ = []

  -- Notifications, one intake after the other: which were claimed, and what is left.
  unfoldable pub deliver : (notified : List String) → World → List String × World
  unfolding intake_publication
  deliver [] w = ([], w)
  deliver (publication_id ∷ notified) w =
      let change = intake_publication publication_id w in
      let rest = deliver notified change.1 in (claimed_id change.0 ++ rest.0, rest.1)
