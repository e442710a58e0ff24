-- ===== src/Registry/Claim.antt =====
-- packages/registry-lifecycle/src/application/claim-publication.ts: one Publication, exactly once and in
-- chain order, as the Card Versions that it gives. The repository of Publications and the generator of
-- meanings are ports of other code.
pub mod Keeping
pub mod Offers
pub mod Positions
use contextctl.Common.{
  String, Bool, true, false, Option, none, some, List, [], ◌∷◌, map, if◌then◌else◌, Result, ok,
  throw,
}
use contextctl.Registry.Model.{
  CardMeaning, CardMeaningOrigin, CardVersion, CardValidationState, GroundingFinding,
  GroundingReport, GroundingVerdict, RetrievalScope,
}
use contextctl.Registry.Publications.{
  IngestionPublication, PublishedKnowledgeUnit, PublishedFact, SourceCoordinate,
}
use contextctl.Registry.Scopes.{translate_published_scope}
use contextctl.Registry.Chain.{
  ChainCursor, ChainLink, ChainPosition, ConsumptionDiagnostic, first, next, gap, fork,
  locate_in_chain,
}
use contextctl.Registry.Grounding.Texts.{Unicode}
use contextctl.Registry.Grounding.Report.{GroundingInput, ground_card_version}
use contextctl.Registry.Store.{has_processed, find_cursor}
use contextctl.Registry.Effects.{
  World, Supplies, Action, ◌>>=◌, return, raise, read, defined, next_id, now, RegistryError,
  publication_not_found,
}

-- `find_by_id` is the repository, `generate` the generator, which may throw.
pub record ClaimPorts : Type 0 where
  pub supplies : Supplies
  pub unicode : Unicode
  pub find_by_id : String → Option IngestionPublication
  pub generate :
      SourceCoordinate → List PublishedFact → Result RegistryError (CardMeaning × CardMeaningOrigin)

pub record ClaimedCardVersion : Type 0 where
  pub version : CardVersion
  pub findings : List GroundingFinding

pub data ClaimResult : Type 0 where
  already_claimed : (publication_id : String) → ClaimResult
  claimed :
      (publication_id : String)
      → (cursor : ChainCursor) → (card_versions : List ClaimedCardVersion) → ClaimResult
  deferred : (publication_id source_id awaiting : String) → ConsumptionDiagnostic → ClaimResult
  forked : (publication_id source_id : String) → ConsumptionDiagnostic → ClaimResult

unfoldable pub refuse : (publication_id source_id : String) → ChainPosition → Option ClaimResult
refuse publication_id source_id first = none
refuse publication_id source_id next = none
refuse publication_id source_id (gap expected_after waiting diagnostic) =
    some (deferred publication_id source_id expected_after diagnostic)
refuse publication_id source_id (fork diagnostic) =
    some (forked publication_id source_id diagnostic)

abbrev pub link_of : IngestionPublication → ChainLink
link_of publication = record {
  publication_id = publication.publication_id;
  source_id = publication.source_id;
  previous_publication_id = publication.previous_publication_id;
}

-- A port's answer, or what it throws.
abbrev answered : {A : Type 0} → Result RegistryError A → Action A
answered (ok a) = return a
answered (throw e) = raise e

unfoldable pub state_of : GroundingVerdict → CardValidationState
state_of GroundingVerdict.rejected = CardValidationState.rejected
state_of _ = CardValidationState.validated

abbrev version_of :
    IngestionPublication
    → PublishedKnowledgeUnit
    → (id created_at : String) → List RetrievalScope
    → CardMeaning
    → GroundingReport
    → CardVersion
version_of publication unit id created_at scopes meaning grounding = record {
  id = id;
  card_id = unit.id;
  lineage = record {
    publication_id = publication.publication_id;
    observation_id = publication.observation_id;
    knowledge_unit_id = unit.id;
  };
  scopes = scopes;
  validation_state = state_of grounding.verdict;
  created_at = created_at;
  meaning = some meaning;
  grounding = some grounding;
  change_from_previous = none;
}

module _ (ports : ClaimPorts) where
  abbrev pub grounding_input :
      PublishedKnowledgeUnit → CardMeaning × CardMeaningOrigin → GroundingInput
  grounding_input unit generated = record {
    coordinate = unit.source_coordinate;
    facts = unit.facts;
    scopes = map translate_published_scope unit.published_scopes;
    meaning = generated.0;
    origin = generated.1;
  }

  unfoldable pub make_version :
      IngestionPublication
      → PublishedKnowledgeUnit
      → (created_at : String) → CardMeaning × CardMeaningOrigin
      → Action ClaimedCardVersion
  unfolding translate_published_scope ground_card_version state_of
  make_version publication unit created_at generated =
      let grounding = ground_card_version ports.unicode (grounding_input unit generated) in
      next_id ports.supplies >>= λ id. return (record {
        version =
            version_of publication unit id created_at
              (map translate_published_scope unit.published_scopes) generated.0 grounding;
        findings = grounding.findings;
      })

  unfoldable pub to_card_version :
      IngestionPublication
      → PublishedKnowledgeUnit
      → (created_at : String) → Action ClaimedCardVersion
  unfolding make_version
  to_card_version publication unit created_at =
      answered (ports.generate unit.source_coordinate unit.facts)
      >>= make_version publication unit created_at

  and_version : ClaimedCardVersion → List ClaimedCardVersion → Action (List ClaimedCardVersion)
  and_version version versions = return (version ∷ versions)

  unfoldable pub to_card_versions :
      IngestionPublication
      → (created_at : String) → List PublishedKnowledgeUnit
      → Action (List ClaimedCardVersion)
  unfolding to_card_version and_version
  to_card_versions publication created_at [] = return []
  to_card_versions publication created_at (unit ∷ units) =
      to_card_version publication unit created_at >>= λ version.
      to_card_versions publication created_at units >>= and_version version

  claim_with :
      (publication_id : String)
      → IngestionPublication
      → List ClaimedCardVersion
      → Action ClaimResult
  claim_with publication_id publication versions = return (
      claimed publication_id
        (record { source_id = publication.source_id; publication_id = publication_id }) versions)

  claim_created :
      (publication_id : String) → IngestionPublication → (created_at : String) → Action ClaimResult
  unfolding to_card_versions claim_with
  claim_created publication_id publication created_at =
      to_card_versions publication created_at publication.knowledge_units
      >>= claim_with publication_id publication

  -- The Publication after its position was found consumable.
  unfoldable pub claim_consumable :
      (publication_id : String) → IngestionPublication → Action ClaimResult
  unfolding claim_created
  claim_consumable publication_id publication =
      now ports.supplies >>= claim_created publication_id publication

  or_claim :
      Option ClaimResult → (publication_id : String) → IngestionPublication → Action ClaimResult
  or_claim (some refusal) publication_id publication = return refusal
  or_claim none publication_id publication = claim_consumable publication_id publication

  unfoldable pub claim_at :
      (publication_id : String) → IngestionPublication → Option ChainCursor → Action ClaimResult
  unfolding or_claim refuse locate_in_chain
  claim_at publication_id publication cursor =
      or_claim
        (refuse publication_id publication.source_id (locate_in_chain cursor (link_of publication)))
        publication_id publication

  unfoldable pub claim_found : (publication_id : String) → IngestionPublication → Action ClaimResult
  unfolding claim_at find_cursor
  claim_found publication_id publication =
      read (λ db. find_cursor db publication.source_id) >>= claim_at publication_id publication

  unfoldable pub claim_unless : (publication_id : String) → (seen : Bool) → Action ClaimResult
  unfolding claim_found
  claim_unless publication_id true = return (already_claimed publication_id)
  claim_unless publication_id false =
      defined (ports.find_by_id publication_id) (publication_not_found publication_id)
      >>= claim_found publication_id

  unfoldable pub claim_publication : (publication_id : String) → Action ClaimResult
  unfolding claim_unless has_processed
  claim_publication publication_id =
      read (λ db. has_processed db publication_id) >>= claim_unless publication_id
