-- ===== src/Registry/Claim/Keeping.antt =====
-- claim-publication.ts: a claim writes nothing.
use contextctl.Common.{
  String, string_instance, refl, Bool, true, false, Option, none, some, List, [], ◌∷◌, ok, throw,
  Result,
}
use contextctl.Registry.Publications.{IngestionPublication, PublishedKnowledgeUnit}
use contextctl.Registry.Chain.{ChainCursor}
use contextctl.Registry.Store.{has_processed, find_cursor}
use contextctl.Registry.Effects.{◌>>=◌, read, defined, now, RegistryError, publication_not_found}
use contextctl.Registry.Effects.Laws.{Keeps, bind-Keeps, defined-Keeps}
use contextctl.Registry.Claim.{
  ClaimPorts, ClaimResult, answered, make_version, and_version, to_card_version, to_card_versions,
  claim_with, claim_created, claim_consumable, or_claim, claim_at, claim_found, claim_unless,
  claim_publication,
}

answered-Keeps : {A : Type 0} (r : Result RegistryError A) → Keeps (answered r)
answered-Keeps (ok a) w = refl
answered-Keeps (throw e) w = refl

module _ (ports : ClaimPorts) where
  to_card_version-Keeps :
      (publication : IngestionPublication) (unit : PublishedKnowledgeUnit) (created_at : String)
      → Keeps (to_card_version ports publication unit created_at)
  unfolding to_card_version make_version
  to_card_version-Keeps publication unit created_at =
      bind-Keeps (answered (ports.generate unit.source_coordinate unit.facts))
        (make_version ports publication unit created_at) (answered-Keeps _) (λ generated w. refl)

  to_card_versions-Keeps :
      (publication : IngestionPublication) (created_at : String)
      (units : List PublishedKnowledgeUnit)
      → Keeps (to_card_versions ports publication created_at units)
  unfolding to_card_versions and_version
  to_card_versions-Keeps publication created_at [] = λ w. refl
  to_card_versions-Keeps publication created_at (unit ∷ units) =
      bind-Keeps (to_card_version ports publication unit created_at)
        (λ version.
          to_card_versions ports publication created_at units >>= and_version ports version)
        (to_card_version-Keeps publication unit created_at)
        (λ version.
          bind-Keeps (to_card_versions ports publication created_at units)
            (and_version ports version) (to_card_versions-Keeps publication created_at units)
            (λ versions w. refl))

  or_claim-Keeps :
      (refusal : Option ClaimResult) (publication_id : String) (publication : IngestionPublication)
      → Keeps (or_claim ports refusal publication_id publication)
  unfolding or_claim claim_consumable claim_with
  or_claim-Keeps (some refusal) publication_id publication = λ w. refl
  or_claim-Keeps none publication_id publication =
      bind-Keeps (now ports.supplies) (claim_created ports publication_id publication) (λ w. refl)
        (λ created_at.
          bind-Keeps (to_card_versions ports publication created_at publication.knowledge_units)
            (claim_with ports publication_id publication)
            (to_card_versions-Keeps publication created_at publication.knowledge_units)
            (λ versions w. refl))

  claim_at-Keeps :
      (publication_id : String) (publication : IngestionPublication) (cursor : Option ChainCursor)
      → Keeps (claim_at ports publication_id publication cursor)
  unfolding claim_at
  claim_at-Keeps publication_id publication cursor = or_claim-Keeps _ publication_id publication

  claim_unless-Keeps :
      (publication_id : String) (seen : Bool) → Keeps (claim_unless ports publication_id seen)
  unfolding claim_unless claim_found
  claim_unless-Keeps publication_id true = λ w. refl
  claim_unless-Keeps publication_id false =
      bind-Keeps (defined (ports.find_by_id publication_id) (publication_not_found publication_id))
        (claim_found ports publication_id) (defined-Keeps _ _)
        (λ publication.
          bind-Keeps (read (λ db. find_cursor db publication.source_id))
            (claim_at ports publication_id publication) (λ w. refl)
            (claim_at-Keeps publication_id publication))

  -- A claim writes nothing, whatever it answers or throws.
  pub claim-Keeps : (publication_id : String) → Keeps (claim_publication ports publication_id)
  unfolding claim_publication
  claim-Keeps publication_id =
      bind-Keeps (read (λ db. has_processed db publication_id)) (claim_unless ports publication_id)
        (λ w. refl) (claim_unless-Keeps publication_id)
