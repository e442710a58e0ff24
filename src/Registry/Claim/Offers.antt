-- ===== src/Registry/Claim/Offers.antt =====
-- claim-publication.ts: the Card Versions of a claim, one for each knowledge unit, and what their
-- validation state promises.
use contextctl.Common.{
  String, ◌≡◌, ◌≢◌, refl, subst, some, List, [], ◌∷◌, map, ok, value_of_ok, throw, Result,
}
use contextctl.Registry.Model.{
  CardMeaning, CardMeaningOrigin, CardValidationState, GroundingVerdict,
}
use contextctl.Registry.Publications.{IngestionPublication, PublishedKnowledgeUnit}
use contextctl.Registry.Scopes.{translate_published_scope}
use contextctl.Registry.Grounding.Judgement.{IsGrounded, ground-IsGrounded}
use contextctl.Registry.Effects.{World, ◌>>=◌, RegistryError}
use contextctl.Registry.Effects.Laws.{bind-Passed}
use contextctl.Registry.Claim.{
  ClaimPorts, ClaimedCardVersion, answered, grounding_input, make_version, to_card_version,
  and_version, to_card_versions, state_of,
}

validated_state :
    (verdict : GroundingVerdict)
    → state_of verdict ≡ CardValidationState.validated
    → verdict ≢ GroundingVerdict.rejected
unfolding state_of
validated_state GroundingVerdict.validated h = λ e. cc
validated_state GroundingVerdict.needs_review h = λ e. cc
validated_state GroundingVerdict.rejected h = cc

module _ (ports : ClaimPorts) where
  -- A version of the unit's Card, from the unit and the publication that was claimed, with a meaning that
  -- the generator gave; if it may be promoted, it is grounded.
  pub record IsOffer (publication : IngestionPublication) (unit : PublishedKnowledgeUnit)
      (offer : ClaimedCardVersion) : Type 0 where
    pub generated : CardMeaning × CardMeaningOrigin
    pub answer : ports.generate unit.source_coordinate unit.facts ≡ ok generated
    pub meaning : offer.version.meaning ≡ some generated.0
    pub own_card : offer.version.card_id ≡ unit.id
    pub own_publication : offer.version.lineage.publication_id ≡ publication.publication_id
    pub scopes : offer.version.scopes ≡ map translate_published_scope unit.published_scopes
    pub grounded :
        offer.version.validation_state ≡ CardValidationState.validated
        → IsGrounded ports.unicode (grounding_input ports unit generated)

  abbrev pub Offers :
      IngestionPublication → List PublishedKnowledgeUnit → List ClaimedCardVersion → Type 0
  Offers publication [] [] = Unit
  Offers publication (unit ∷ units) (offer ∷ offers) =
      IsOffer publication unit offer × Offers publication units offers
  Offers publication _ _ = ⊥

  answered_passed :
      {A : Type 0} (r : Result RegistryError A) (a : A) (w : World)
      → (answered r w).0 ≡ ok a
      → r ≡ ok a
  answered_passed (ok b) a w h = h
  answered_passed (throw e) a w h = cc

  to_card_version-IsOffer :
      (publication : IngestionPublication) (unit : PublishedKnowledgeUnit) (created_at : String)
      (w : World) (offer : ClaimedCardVersion)
      → (to_card_version ports publication unit created_at w).0 ≡ ok offer
      → IsOffer publication unit offer
  unfolding to_card_version make_version
  to_card_version-IsOffer publication unit created_at w offer h =
      let (generated, got, made, _) =
        bind-Passed (answered (ports.generate unit.source_coordinate unit.facts))
          (make_version ports publication unit created_at) offer w h in
      subst (IsOffer publication unit) (value_of_ok _ offer made) (record {
        generated = generated;
        answer = answered_passed _ generated w got;
        meaning = refl;
        own_card = refl;
        own_publication = refl;
        scopes = refl;
        grounded = λ valid.
            (ground-IsGrounded ports.unicode (grounding_input ports unit generated)).0
              (validated_state _ valid);
      })

  pub to_card_versions-Offers :
      (publication : IngestionPublication) (created_at : String)
      (units : List PublishedKnowledgeUnit) (w : World) (offers : List ClaimedCardVersion)
      → (to_card_versions ports publication created_at units w).0 ≡ ok offers
      → Offers publication units offers
  unfolding to_card_versions and_version
  to_card_versions-Offers publication created_at [] w offers h =
      subst (Offers publication []) (value_of_ok [] offers h) tt
  to_card_versions-Offers publication created_at (unit ∷ units) w offers h =
      let (offer, one, rest, _) =
        bind-Passed (to_card_version ports publication unit created_at)
          (λ version.
            to_card_versions ports publication created_at units >>= and_version ports version)
          offers w h in
      let (more, others, both, _) =
        bind-Passed (to_card_versions ports publication created_at units) (and_version ports offer)
          offers _ rest in
      subst (Offers publication (unit ∷ units)) (value_of_ok (offer ∷ more) offers both) (
        to_card_version-IsOffer publication unit created_at w offer one,
        to_card_versions-Offers publication created_at units _ more others,
      )
